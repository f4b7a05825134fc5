-- ===== src/DataGen/Generate/Outcome.antt =====
-- data-gen/generate.py: what a row that comes back from a request says.
use aihomelab.Base.{
  ℕ, ◌+◌, String, ◌<>◌, Option, none, some, Result, ok, raised, Error, Py, lift, modify, ◌>>=◌, ◌≡◌,
  refl, subst,
}
use aihomelab.Base.Attempt.{◌>>=◌ as ◌>>?◌, >>=-eq-ok, ok-injective}
use aihomelab.Floats.{Floats}
use aihomelab.Parsers.Fio.{
  Json, null, bool, int, float, string, array, object, lookup_member, get_member, get_or, end,
}
use aihomelab.DataGen.Rows.{AnswerRow}
use aihomelab.DataGen.Generate.Request.{
  no_qa, PromptRow, GeneratedRow, Posted, answered, failed, Reply, Decoded, decoded, malformed,
  unreadable, item, item_0, set_raw, set_finish, set_tokens, set_http_error, set_parse_error,
  set_qa, set_parsed, set_decoded, set_received, blank_row, is_malformed, handle, after_block,
  build_payload, build_messages,
}
use aihomelab.DataGen.Generate.Reply.{
  Setup, Endpoint, parse_content, read_reply, finish_row, sampling_of, row_of, generate_one,
}

-- 1 for a member that is set
abbrev mark : {F : Type 0} → Json F → ℕ
mark null = 0
mark _ = 1

-- How many of the answer and the two kinds of error a row has.
abbrev pub endings : {F : Type 0} → AnswerRow F → ℕ
endings answer = mark answer.parsed_qa + mark answer.parse_error + mark answer.http_error

module _ (fl : Floats) (loads : String → Decoded fl.Float) (row : PromptRow fl.Float) where
  -- The row of this prompt
  abbrev pub IsOf : GeneratedRow fl.Float → Type 0
  IsOf r =
      (r.answer.request_id ≡ some row.request_id)
      × (r.answer.template ≡ some (string row.template))
      × (r.answer.dietary_preference ≡ some row.dietary_preference)
      × (r.answer.grounding_row_id ≡ row.grounding_row_id)

  abbrev Fresh : GeneratedRow fl.Float → Type 0
  Fresh r =
      IsOf r
      × (r.answer.parsed_qa ≡ null)
      × (r.answer.parse_error ≡ null)
      × (r.answer.http_error ≡ null)

  abbrev Done : GeneratedRow fl.Float → Type 0
  Done r = IsOf r × (endings r.answer ≡ 1)

  -- An ending is set by what returns and by nothing that raises.
  abbrev After : Result (Unit {0}) → GeneratedRow fl.Float → Type 0
  After (ok _) r = Done r
  After (raised e) r = Fresh r

  abbrev Steady : Py (GeneratedRow fl.Float) (Unit {0}) → Type 0
  Steady method = (r : GeneratedRow fl.Float) → Fresh r → After (method r).0 (method r).1

  Steady-lift :
      {A : Type 0} (first : Result A) (next : A → Py (GeneratedRow fl.Float) (Unit {0}))
      → ((a : A) → Steady (next a))
      → Steady (lift first >>= next)
  unfolding ◌>>=◌
  Steady-lift (ok a) next k r fresh = k a r fresh
  Steady-lift (raised e) next k r fresh = fresh

  Steady-modify :
      (f : GeneratedRow fl.Float → GeneratedRow fl.Float)
      (next : Py (GeneratedRow fl.Float) (Unit {0}))
      → ((r : GeneratedRow fl.Float) → Fresh r → Fresh (f r))
      → Steady next
      → Steady (modify f >>= λ _. next)
  unfolding ◌>>=◌
  Steady-modify f next keeps k r fresh = k (f r) (keeps r fresh)

  set_http_error-Done :
      (text : String) (r : GeneratedRow fl.Float) → Fresh r → Done (set_http_error text r)
  set_http_error-Done text r (of, q, p, h) = (of, rw (q, p) refl)

  set_parse_error-Done :
      (text : String) (r : GeneratedRow fl.Float) → Fresh r → Done (set_parse_error text r)
  set_parse_error-Done text r (of, q, p, h) = (of, rw (q, h) refl)

  set_parsed-Done :
      (parsed : Json fl.Float) (r : GeneratedRow fl.Float) → Fresh r → Done (set_parsed parsed r)
  set_parsed-Done (object ms) r (of, q, p, h) = go (lookup_member "q" ms) (lookup_member "a" ms)
    where
      go :
          (found_q found_a : Option (Json fl.Float))
          → Done (elim found_q [
            | none ↦ set_parse_error no_qa r
            | some q' ↦ elim found_a [ none ↦ set_parse_error no_qa r | some a ↦ set_qa q' a r ]
          ])
      go none a = set_parse_error-Done no_qa r (of, q, p, h)
      go (some q') none = set_parse_error-Done no_qa r (of, q, p, h)
      go (some q') (some a) = (of, rw (p, h) refl)
  set_parsed-Done null r fresh = set_parse_error-Done no_qa r fresh
  set_parsed-Done (bool b) r fresh = set_parse_error-Done no_qa r fresh
  set_parsed-Done (int n) r fresh = set_parse_error-Done no_qa r fresh
  set_parsed-Done (float x) r fresh = set_parse_error-Done no_qa r fresh
  set_parsed-Done (string s) r fresh = set_parse_error-Done no_qa r fresh
  set_parsed-Done (array xs) r fresh = set_parse_error-Done no_qa r fresh

  set_decoded-Steady : (d : Decoded fl.Float) → Steady (set_decoded d)
  unfolding ◌>>=◌
  set_decoded-Steady (decoded parsed) r fresh = set_parsed-Done parsed r fresh
  set_decoded-Steady (malformed text) r fresh =
      set_parse_error-Done ("JSONDecodeError: " <> text) r fresh
  set_decoded-Steady (unreadable e) r fresh = fresh

  parse_content-Steady : (content : Json fl.Float) → Steady (parse_content fl loads content)
  unfolding parse_content
  parse_content-Steady (string s) r fresh = set_decoded-Steady (loads s) r fresh
  parse_content-Steady null r fresh = fresh
  parse_content-Steady (bool b) r fresh = fresh
  parse_content-Steady (int n) r fresh = fresh
  parse_content-Steady (float x) r fresh = fresh
  parse_content-Steady (array xs) r fresh = fresh
  parse_content-Steady (object ms) r fresh = fresh

  read_reply-Steady : (body : Json fl.Float) → Steady (read_reply fl loads body)
  unfolding read_reply
  read_reply-Steady body = Steady-lift (item "choices" body) _ λ choices.
      Steady-lift (item_0 choices) _ λ choice. Steady-lift (item "message" choice) _ λ said.
        Steady-lift (item "content" said) _ λ content.
          Steady-modify (set_raw content) _ (λ r f. f)
            (Steady-lift (get_member fl "finish_reason" choice) _ λ reason.
              Steady-modify (set_finish reason) _ (λ r f. f)
                (Steady-lift (get_or fl "usage" (object end) body) _ λ usage.
                  Steady-lift (get_member fl "prompt_tokens" usage) _ λ prompt.
                    Steady-lift (get_member fl "completion_tokens" usage) _ λ completion.
                      Steady-modify (set_tokens prompt completion) _ (λ r f. f)
                        (parse_content-Steady content)))

  handle-Done :
      (e : Error) (text : Option String) (r : GeneratedRow fl.Float)
      → Fresh r
      → After (handle e text r).0 (handle e text r).1
  unfolding ◌>>=◌
  handle-Done e none r fresh = fresh
  handle-Done e (some text) r fresh = set_http_error-Done ("Malformed response: " <> text) r fresh

  after_block-Done :
      (outcome : Result (Unit {0})) (r : GeneratedRow fl.Float)
      → After outcome r
      → After (after_block outcome r).0 (after_block outcome r).1
  unfolding ◌>>=◌
  after_block-Done (ok _) r h = h
  after_block-Done (raised e) r h = handle-Done e (is_malformed e) r h

  finish_row-Steady : (posted : Posted fl.Float) → Steady (finish_row fl loads posted)
  unfolding finish_row
  finish_row-Steady (failed text) r fresh = set_http_error-Done text r fresh
  finish_row-Steady (answered body) r fresh =
      after_block-Done (read_reply fl loads body r).0 (read_reply fl loads body r).1
        (read_reply-Steady body r fresh)

  outcome-Done :
      (outcome : Result (Unit {0})) (r : GeneratedRow fl.Float) {made : GeneratedRow fl.Float}
      → After outcome r
      → (outcome >>? λ _. ok r) ≡ ok made
      → Done made
  outcome-Done (ok _) r done e = subst Done (ok-injective e) done
  outcome-Done (raised problem) r fresh e = absurd cc

  module _ (setup : Setup fl loads) (endpoint : Endpoint fl loads) where
    row_of-Done :
        (payload : Json fl.Float) {made : GeneratedRow fl.Float}
        → row_of fl loads setup endpoint row payload ≡ ok made
        → Done made
    row_of-Done payload e =
        let reply : Reply fl.Float = endpoint setup.url setup.request_timeout row payload in
        let start : GeneratedRow fl.Float = set_received reply (blank_row row reply) in
        outcome-Done (finish_row fl loads reply.posted start).0
          (finish_row fl loads reply.posted start).1
          (finish_row-Steady reply.posted start ((refl, refl, refl, refl), refl, refl, refl)) e

    -- A row that comes back is the row of its prompt (its request id, template, diet and grounding id),
    -- and it says exactly one of three things: an answer, an error of the parse, an error of the
    -- request or of the reply's shape.
    pub generate_one-endings :
        (made : GeneratedRow fl.Float)
        → generate_one fl loads setup endpoint row ≡ ok made
        → IsOf made × (endings made.answer ≡ 1)
    unfolding generate_one
    generate_one-endings made e =
        let (sampling, _, e₁) = >>=-eq-ok (sampling_of fl loads setup row.template) _ e in
        let (payload, _, e₂) =
          >>=-eq-ok
            (build_payload setup.model
              (build_messages setup.system_prompt setup.few_shot row.user_turn) sampling
              setup.response_format)
            (row_of fl loads setup endpoint row) e₁ in
        row_of-Done payload e₂
