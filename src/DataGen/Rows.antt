-- ===== src/DataGen/Rows.antt =====
-- The rows that the steps of data-gen pass on as lines of JSON.
use native.Mathlib.Decide.{ℕ_discrete}
use aihomelab.Base.{String, Bool, Option, Eq}
use aihomelab.Base.Int.{ℤ}
use aihomelab.Parsers.Fio.{Json}

int_dec : Discrete ℤ
int_dec = hlevel (ℕ_discrete)

instance unfoldable pub int_eq : Eq ℤ
unfolding int_dec
int_eq = record { dec = int_dec }

-- A line of chat.jsonl, as to_chat_format.py writes it: the contents of its two messages and the
-- members beside them. A null is `none`.
pub record ChatRow : Type 0 where
  pub user : String
  pub assistant : String
  pub dietary_preference : Option String
  pub template : Option String
  pub cuisine : Option String
  pub grounding_row_id : Option ℤ
  pub leakage_suspect : Bool
  pub request_id : Option String

module _ (F : Type 0) where
  -- A line that generate.py writes, with floats of type `F`; a prompt lacks most of the members. What
  -- `row.get` reads is a null too where the member is missing; the template is `none` there. `leakage` is what filter_clean.py adds:
  -- the flag and its reason.
  pub record AnswerRow : Type 0 where
    pub request_id : Option String
    pub template : Option (Json F)
    pub dietary_preference : Option String
    pub placeholders : Json F
    pub grounding_row_id : Option ℤ
    pub finish_reason : Option String
    pub parsed_qa : Json F
    pub parse_error : Json F
    pub http_error : Json F
    pub leakage : Option (Bool × String)
