-- ===== src/Tests/Requests.antt =====
-- The requests for two prompts, and the runs that make them.
use Prim.Native.String.{String}
use Prim.Native.Char.{code}
use mathlib.Core.List.{Perm}
use mathlib.Core.List.Perm
use aihomelab.Base.{
  ℕ, true, false, Bool-cases, inl, inr, Option, none, some, List, [], ◌∷◌, map, Result, ok,
  if◌then◌else◌, ◌≡◌, refl, ap, sym, ◌∙◌, subst, nat_eq, string_eq, ◌==◌, arith,
}
use aihomelab.Base.Int.{pos}
use aihomelab.Base.Text.{is_space, rstrip_by, lstrip_by, strip, is_empty}
use aihomelab.Parsers.Fio.{
  Json, null, string, object, array, cons, nil, member, end, Members, int, get_or, get_member,
}
use aihomelab.DataGen.Generate.{
  PromptRow, GeneratedRow, Decoded, decoded, malformed, answered, Setup, Endpoint, generate_one,
  load_prompts, completed_ids, ids_to_skip, remaining, capped, run, OutputFile, whole,
}
use aihomelab.DataGen.Generate.Outcome.{endings, IsOf, generate_one-endings}
use aihomelab.DataGen.Generate.Returns.{HasSampling, is_readable, IsSound, generate_one-returns}
use aihomelab.DataGen.Generate.Resume.{IsJson, Answers, run-completed_ids}
use aihomelab.DataGen.Generate.Chunked.{Round, IsReliable, runs, runs-n_chunks, chunk_args, HasIds}
use aihomelab.Tests.Samples.{fixed}

-- A text with a brace behind it, and without its last character
abbrev closed : String → String
closed String.[] = "}"
closed (String.◌∷◌ c s) = String.◌∷◌ c (closed s)

abbrev opened_text : String → String
opened_text String.[] = String.[]
opened_text (String.◌∷◌ c s) =
    let rest = opened_text s in if is_empty s then String.[] else String.◌∷◌ c rest

closed-not_empty : (s : String) → is_empty (closed s) ≡ false
closed-not_empty String.[] = refl
closed-not_empty (String.◌∷◌ c s) = refl

opened_text-closed : (s : String) → opened_text (closed s) ≡ s
opened_text-closed String.[] = refl
opened_text-closed (String.◌∷◌ c s) =
    rw (closed-not_empty s) (ap (λ t. String.◌∷◌ c t) (opened_text-closed s))

rstrip-closed : (s : String) → rstrip_by is_space (closed s) ≡ closed s
unfolding rstrip_by is_space nat_eq
rstrip-closed String.[] = refl
rstrip-closed (String.◌∷◌ c s) = rw (rstrip-closed s, closed-not_empty s) refl

-- A row is written as its id in braces.
abbrev id_text : Option String → String
id_text none = ""
id_text (some rid) = rid

abbrev written : GeneratedRow ℕ → String
written row = String.◌∷◌ "{" (closed (id_text row.answer.request_id))

-- A text with a brace is read as such a row, any other one as an answer.
abbrev read : String → Decoded ℕ
read String.[] = malformed "Expecting value"
read (String.◌∷◌ c s) =
    if code c == b'{'
    then decoded (object (member "request_id" (string (opened_text s)) end))
    else decoded (object (member "q" (string "How?") (member "a" (string "So.") end)))

strip-written : (row : GeneratedRow ℕ) → strip (written row) ≡ written row
unfolding strip lstrip_by rstrip_by is_space nat_eq
strip-written row =
    rw
      (
        rstrip-closed (id_text row.answer.request_id),
        closed-not_empty (id_text row.answer.request_id),
      )
      refl

written-IsJson : IsJson fixed read written
unfolding nat_eq string_eq
written-IsJson = record {
  not_blank = λ row. ap is_empty (strip-written row);
  reads_back = λ row rid e. (
    member "request_id" (string rid) end,
    ap read (strip-written row)
        ∙ ap (λ t. decoded (object (member "request_id" (string t) end)))
            (opened_text-closed (id_text row.answer.request_id) ∙ ap id_text e),
    refl,
  );
}

abbrev sampling : Members ℕ
sampling =
    member "temperature" (int (pos 1))
      (member "top_p" (int (pos 1)) (member "max_tokens" (int (pos 900)) end))

abbrev setup : Setup fixed read
setup = record {
  url = "http://localhost:8000/v1/chat/completions";
  model = "Qwen3-32B";
  system_prompt = "You are a cook.";
  few_shot = nil;
  response_format = null;
  templates = ("technique_explainer", sampling) ∷ [];
  request_timeout = 600;
}

-- A reply as vLLM gives it, with the text of an answer
abbrev body : Json ℕ
body = object (
    member "choices"
      (array (
        cons
          (object (
            member "message" (object (member "content" (string "qa") end))
              (member "finish_reason" (string "stop") end)))
          nil))
      (member "usage" (object end) end))

abbrev replies : Endpoint fixed read
replies url timeout row payload = record {
  posted = answered body;
  sent_at = "2026-06-01T00:00:00+00:00";
  received_at = "2026-06-01T00:00:09+00:00";
  latency = pos 9000;
}

abbrev prompt : String → PromptRow ℕ
prompt rid = record {
  request_id = rid;
  template = "technique_explainer";
  dietary_preference = "vegan";
  user_turn = "Explain deglazing.";
  placeholders = object end;
  grounding_row_id = none;
}

abbrev load_line : String → Result (PromptRow ℕ)
load_line line = ok (prompt line)

has_sampling : HasSampling fixed read setup "technique_explainer"
unfolding string_eq
has_sampling = record {
  sampling = sampling;
  temperature = int (pos 1);
  top_p = int (pos 1);
  max_tokens = int (pos 900);
  found = refl;
  has_temperature = refl;
  has_top_p = refl;
  has_max_tokens = refl;
}

read-IsReadable : (s : String) → is_readable fixed read (read s) ≡ true
read-IsReadable String.[] = refl
read-IsReadable (String.◌∷◌ c s) = elim (Bool-cases (code c == b'{')) [
  | inl is ↦ rw is refl
  | inr other ↦ rw other refl
]

body-IsSound : IsSound fixed read (answered body)
unfolding string_eq get_or
body-IsSound = ((end, refl), λ s e. read-IsReadable s)

answers :
    (p : PromptRow ℕ)
    → p.template ≡ "technique_explainer"
    → Answers fixed read written load_line written-IsJson setup replies p
answers p e =
    generate_one-returns fixed read setup replies p
      (subst (HasSampling fixed read setup) (sym e) has_sampling) (λ payload. body-IsSound)

generate_one-returns_example :
    (made : GeneratedRow ℕ) × (generate_one fixed read setup replies (prompt "025-000001")
      ≡ ok made)
generate_one-returns_example =
    generate_one-returns fixed read setup replies (prompt "025-000001") has_sampling
      (λ payload. body-IsSound)

abbrev one_row : GeneratedRow ℕ
one_row = record {
  answer = record {
    request_id = some "025-000001";
    template = some (string "technique_explainer");
    dietary_preference = some "vegan";
    placeholders = object end;
    grounding_row_id = none;
    finish_reason = some "stop";
    parsed_qa = object (member "q" (string "How?") (member "a" (string "So.") end));
    parse_error = null;
    http_error = null;
    leakage = none;
  };
  request_sent_at = "2026-06-01T00:00:00+00:00";
  response_received_at = some "2026-06-01T00:00:09+00:00";
  latency_ms = some (pos 9000);
  tokens_prompt = null;
  tokens_completion = null;
  raw_response = string "qa";
}

generate_one-endings_example :
    IsOf fixed read (prompt "025-000001") one_row × (endings one_row.answer ≡ 1)
unfolding generate_one string_eq nat_eq get_or get_member
generate_one-endings_example =
    generate_one-endings fixed read (prompt "025-000001") setup replies one_row refl

abbrev two_prompts : List (PromptRow ℕ)
two_prompts = prompt "025-000001" ∷ prompt "025-000002" ∷ []

loads_two :
    load_prompts fixed read load_line written ("025-000001" ∷ "025-000002" ∷ []) ≡ ok two_prompts
unfolding load_prompts strip is_space nat_eq
loads_two = refl

-- A second run, after one that was stopped behind the first row
run-completed_ids_example :
    (new ids : List String) × (run fixed read load_line written setup replies
        (λ futures. futures)
        (chunk_args 1)
        (some (whole ("{025-000001}" ∷ [])))
        (some ("025-000001" ∷ "025-000002" ∷ []))
      ≡ (ok tt, some (whole new)))
    × (completed_ids fixed read load_line written new ≡ ok ids)
    × Perm ids (
        "025-000001"
        ∷ map
            (λ p. p.request_id)
            (capped
              (some (pos 1))
              (remaining fixed read load_line written ("025-000001" ∷ []) two_prompts)))
unfolding ids_to_skip completed_ids strip nat_eq string_eq get_member
run-completed_ids_example =
    run-completed_ids fixed read written load_line written-IsJson setup replies (λ futures. futures)
      (λ futures. Perm.refl futures) (chunk_args 1) ("025-000001" ∷ "025-000002" ∷ []) two_prompts
      (some (whole ("{025-000001}" ∷ []))) ("025-000001" ∷ []) refl loads_two refl
      (refl, (refl, tt))
      (answers (prompt "025-000001") refl, (answers (prompt "025-000002") refl, tt))

abbrev round : Round fixed read written load_line written-IsJson setup
round = record { endpoint = replies; completion = λ futures. futures }

round-IsReliable : IsReliable fixed read written load_line written-IsJson setup two_prompts round
round-IsReliable = record {
  answers = (answers (prompt "025-000001") refl, (answers (prompt "025-000002") refl, tt));
  any_order = λ futures. Perm.refl futures;
}

runs-n_chunks_example :
    (final : Option OutputFile) × (ids : List String) × (runs fixed read written load_line
        written-IsJson setup 1
        ("025-000001" ∷ "025-000002" ∷ [])
        (round ∷ round ∷ [])
        none
      ≡ (ok tt, final))
    × HasIds fixed read written load_line written-IsJson setup 1
        ("025-000001" ∷ "025-000002" ∷ [])
        final
        ids
    × Perm ids ("025-000001" ∷ "025-000002" ∷ [])
unfolding string_eq
runs-n_chunks_example =
    runs-n_chunks fixed read written load_line written-IsJson setup 1
      ("025-000001" ∷ "025-000002" ∷ []) two_prompts loads_two (refl, (refl, tt))
      ((refl, tt), (tt, tt)) 2 (round ∷ round ∷ []) (omega arith) (omega arith) refl
      (round-IsReliable, (round-IsReliable, tt))
