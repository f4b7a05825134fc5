-- ===== src/DataGen/Generate/Request.antt =====
-- data-gen/generate.py: a request to vLLM and the row that is made of its reply.
use aihomelab.Base.{
  String, ◌<>◌, false, Option, none, some, string_eq, key_error, index_error, type_error, Result,
  ok, raised, Py, pure, raise, modify, if◌then◌else◌, Error,
}
use aihomelab.Base.Attempt.{◌>>=◌ as ◌>>?◌}
use aihomelab.Base.Int.{ℤ}
use aihomelab.Base.Text.{is_empty, take}
use aihomelab.Parsers.Fio.{
  Json, null, bool, string, array, object, Items, nil, cons, Members, end, member, lookup_member,
}
use aihomelab.DataGen.Rows.{AnswerRow}

-- A line of prompts.jsonl, with the members that build_prompts.py writes
pub record PromptRow (F : Type 0) : Type 0 where
  pub request_id : String
  pub template : String
  pub dietary_preference : String
  pub user_turn : String
  pub placeholders : Json F
  pub grounding_row_id : Option ℤ

-- A line that is written: what the later steps read of it, and the rest. Of a finish_reason only a
-- text is kept.
pub record GeneratedRow (F : Type 0) : Type 0 where
  pub answer : AnswerRow F
  pub request_sent_at : String
  pub response_received_at : Option String
  pub latency_ms : Option ℤ
  pub tokens_prompt : Json F
  pub tokens_completion : Json F
  pub raw_response : Json F

-- How the request ends, with `f"{type(e).__name__}: {e}"` of an exception.
pub data Posted (F : Type 0) : Type 0 where
  answered : Json F → Posted F
  failed : String → Posted F

-- What the endpoint and the clock give for a request.
pub record Reply (F : Type 0) : Type 0 where
  pub posted : Posted F
  pub sent_at : String
  pub received_at : String
  pub latency : ℤ

-- `json.loads`: a document, a JSONDecodeError with its text, or another exception, as the ValueError
-- of an integer with too many digits or a RecursionError
pub data Decoded (F : Type 0) : Type 0 where
  decoded : Json F → Decoded F
  malformed : String → Decoded F
  unreadable : Error → Decoded F

-- `except (KeyError, IndexError, TypeError)`, with the name and the text of the exception
abbrev pub is_malformed : Error → Option String
is_malformed (key_error text) = some ("KeyError: " <> text)
is_malformed (index_error text) = some ("IndexError: " <> text)
is_malformed (type_error text) = some ("TypeError: " <> text)
is_malformed _ = none

-- What is found, or the exception where it is missing
abbrev pub or_raise : {A : Type 0} → Error → Option A → Result A
or_raise e none = raised e
or_raise e (some a) = ok a

abbrev pub no_qa : String
no_qa = "JSON parsed but missing 'q' and/or 'a' keys"

module _ {F : Type 0} where
  abbrev pub append_item : Items F → Json F → Items F
  append_item nil x = cons x nil
  append_item (cons y ys) x = cons y (append_item ys x)

  abbrev message : String → String → Json F
  message role content =
      object (member "role" (string role) (member "content" (string content) end))

  abbrev pub build_messages : String → Items F → String → Json F
  build_messages system_prompt few_shot user_turn =
      array
        (cons (message "system" system_prompt) (append_item few_shot (message "user" user_turn)))

  -- `d[k]` with a text `k`
  abbrev pub item : String → Json F → Result (Json F)
  item k (object ms) = or_raise (key_error k) (lookup_member k ms)
  item k _ = raised (type_error "indices must be integers or slices, not str")

  -- `d[0]`
  abbrev pub item_0 : Json F → Result (Json F)
  item_0 (array nil) = raised (index_error "list index out of range")
  item_0 (array (cons x xs)) = ok x
  item_0 (object ms) = raised (key_error "0")
  item_0 (string s) =
      if is_empty s
      then raised (index_error "string index out of range")
      else ok (string (take 1 s))
  item_0 _ = raised (type_error "object is not subscriptable")

  -- `if "top_k" in sampling: ...`
  abbrev pub top_k_of : Option (Json F) → Members F
  top_k_of none = end
  top_k_of (some top_k) = member "top_k" top_k end

  abbrev pub payload_of :
      (model : String) (messages temperature top_p max_tokens format : Json F)
      → Option (Json F)
      → Json F
  payload_of model messages temperature top_p max_tokens format top_k = object (
      member "model" (string model) (
        member "messages" messages (
          member "temperature" temperature (
            member "top_p" top_p (
              member "max_tokens" max_tokens (
                member "response_format" format (
                  member "chat_template_kwargs" (object (member "enable_thinking" (bool false) end))
                    (top_k_of top_k))))))))

  unfoldable pub build_payload :
      (model : String) (messages : Json F) (sampling : Members F) (response_format : Json F)
      → Result (Json F)
  build_payload model messages sampling response_format =
      item "temperature" (object sampling) >>? λ temperature.
      item "top_p" (object sampling) >>? λ top_p.
      item "max_tokens" (object sampling) >>? λ max_tokens. ok (
        payload_of model messages temperature top_p max_tokens response_format
          (lookup_member "top_k" sampling))

  abbrev pub text_or_none : Option (Json F) → Option String
  text_or_none (some (string s)) = some s
  text_or_none _ = none

  -- `x.get(k)` of a dict, where None is the default
  abbrev pub or_null : Option (Json F) → Json F
  or_null none = null
  or_null (some x) = x

  -- The row before the request is sent
  abbrev pub blank_row : PromptRow F → Reply F → GeneratedRow F
  blank_row row reply = record {
    answer = record {
      request_id = some row.request_id;
      template = some (string row.template);
      dietary_preference = some row.dietary_preference;
      placeholders = row.placeholders;
      grounding_row_id = row.grounding_row_id;
      finish_reason = none;
      parsed_qa = null;
      parse_error = null;
      http_error = null;
      leakage = none;
    };
    request_sent_at = reply.sent_at;
    response_received_at = none;
    latency_ms = none;
    tokens_prompt = null;
    tokens_completion = null;
    raw_response = null;
  }

  abbrev pub set_received : Reply F → GeneratedRow F → GeneratedRow F
  set_received reply r = record r {
    response_received_at = some reply.received_at;
    latency_ms = some reply.latency;
  }

  abbrev pub set_http_error : String → GeneratedRow F → GeneratedRow F
  set_http_error text r = record r { answer = record r.answer { http_error = string text } }

  abbrev pub set_parse_error : String → GeneratedRow F → GeneratedRow F
  set_parse_error text r = record r { answer = record r.answer { parse_error = string text } }

  abbrev pub set_raw : Json F → GeneratedRow F → GeneratedRow F
  set_raw content r = record r { raw_response = content }

  abbrev pub set_finish : Option (Json F) → GeneratedRow F → GeneratedRow F
  set_finish reason r = record r {
    answer = record r.answer { finish_reason = text_or_none reason };
  }

  abbrev pub set_tokens : Option (Json F) → Option (Json F) → GeneratedRow F → GeneratedRow F
  set_tokens prompt completion r = record r {
    tokens_prompt = or_null prompt;
    tokens_completion = or_null completion;
  }

  abbrev pub set_qa : Json F → Json F → GeneratedRow F → GeneratedRow F
  set_qa q a r = record r {
    answer = record r.answer { parsed_qa = object (member "q" q (member "a" a end)) };
  }

  -- `isinstance(parsed, dict) and "q" in parsed and "a" in parsed`, and what is set then or else
  abbrev pub set_parsed : Json F → GeneratedRow F → GeneratedRow F
  set_parsed (object ms) r = elim (lookup_member "q" ms) [
    | none ↦ set_parse_error no_qa r
    | some q ↦ elim (lookup_member "a" ms) [
      | none ↦ set_parse_error no_qa r
      | some a ↦ set_qa q a r
    ]
  ]
  set_parsed _ r = set_parse_error no_qa r

  abbrev pub set_decoded : Decoded F → Py (GeneratedRow F) (Unit {0})
  set_decoded (decoded parsed) = modify (set_parsed parsed)
  set_decoded (malformed text) = modify (set_parse_error ("JSONDecodeError: " <> text))
  set_decoded (unreadable e) = raise e

  -- After the block: its exception is caught or goes on.
  abbrev pub handle : Error → Option String → Py (GeneratedRow F) (Unit {0})
  handle e none = raise e
  handle e (some text) = modify (set_http_error ("Malformed response: " <> text))

  abbrev pub after_block : Result (Unit {0}) → Py (GeneratedRow F) (Unit {0})
  after_block (ok _) = pure tt
  after_block (raised e) = handle e (is_malformed e)
