-- ===== src/DataGen/Chat.antt =====
-- data-gen/to_chat_format.py: the rows of clean.jsonl as pairs of messages.
pub mod Complete
use text.Mathlib.Text.{starts_with}
use aihomelab.Base.{
  ℕ, suc, String, Bool, false, Option, none, some, List, [], ◌∷◌, ◌==◌, ◌&&◌, string_eq,
  if◌then◌else◌, attribute_error, Result, ok, raised,
}
use aihomelab.Base.Attempt.{◌>>=◌}
use aihomelab.Floats.{Floats}
use aihomelab.Base.Text.{given}
use aihomelab.Parsers.Fio.{Json, string, object, Members, end, lookup_member, truthy}
use aihomelab.DataGen.Rows.{AnswerRow, ChatRow}
use aihomelab.DataGen.Filter.{text_of, qa_texts, not_blank}

-- `x or "Indian"`
abbrev pub or_indian : Option String → String
or_indian none = "Indian"
or_indian (some state) = state

module _ (fl : Floats) where
  -- `(x or {}).get`: only a dict has it.
  unfoldable pub dict_members : Json fl.Float → Result (Members fl.Float)
  dict_members (object members) = ok members
  dict_members x =
      if truthy fl x then raised (attribute_error "object has no attribute 'get'") else ok end

  -- `ph.get(name)`; the values of the placeholders are texts.
  unfoldable pub placeholder : String → Json fl.Float → Result (Option String)
  unfolding dict_members
  placeholder name placeholders = do
    members ← dict_members placeholders
    ok (text_of (lookup_member name members))

  -- `row.get("template", "")`, of which `startswith` is called.
  abbrev pub template_text : AnswerRow fl.Float → Result String
  template_text row = elim row.template [
    | none ↦ ok ""
    | some (string template) ↦ ok template
    | some _ ↦ raised (attribute_error "object has no attribute 'startswith'")
  ]

  abbrev pub cuisine_of : String → Json fl.Float → Result (Option String)
  cuisine_of template placeholders =
      if starts_with template "indian_"
      then (placeholder "state" placeholders >>= λ state. ok (some (or_indian (given state))))
      else if template == "nutrition_target"
      then placeholder "cuisine" placeholders
      else if template == "cross_cuisine"
      then placeholder "cuisine_a" placeholders
      else ok none

  unfoldable pub derive_cuisine : AnswerRow fl.Float → Result (Option String)
  unfolding placeholder
  derive_cuisine row = do template ← template_text row; cuisine_of template row.placeholders

  abbrev pub chat_row : AnswerRow fl.Float → String → String → Option String → ChatRow
  chat_row row q a cuisine = record {
    user = q;
    assistant = a;
    dietary_preference = row.dietary_preference;
    template = text_of row.template;
    cuisine = cuisine;
    grounding_row_id = row.grounding_row_id;
    leakage_suspect = elim row.leakage [ none ↦ false | some (suspect, _) ↦ suspect ];
    request_id = row.request_id;
  }

  -- A row that is skipped gives nothing.
  abbrev pub chat_of : AnswerRow fl.Float → Option (String × String) → Result (Option ChatRow)
  chat_of row none = ok none
  chat_of row (some (q, a)) =
      if not_blank q && not_blank a
      then (derive_cuisine row >>= λ cuisine. ok (some (chat_row row q a cuisine)))
      else ok none

  unfoldable pub to_chat : AnswerRow fl.Float → Result (Option ChatRow)
  unfolding derive_cuisine dict_members
  to_chat row = do qa ← dict_members row.parsed_qa; chat_of row (qa_texts (object qa))

-- What the loop has counted and written
pub record Converted : Type 0 where
  pub n_in : ℕ
  pub n_out : ℕ
  pub n_skipped : ℕ
  pub out : List ChatRow

abbrev pub count_row : Option ChatRow → Converted → Converted
count_row none rest = record rest { n_in = suc rest.n_in; n_skipped = suc rest.n_skipped }
count_row (some row) rest = record rest {
  n_in = suc rest.n_in;
  n_out = suc rest.n_out;
  out = row ∷ rest.out;
}

-- An exception leaves the file chat.jsonl as it was.
module _ (fl : Floats) where
  unfoldable pub convert : List (AnswerRow fl.Float) → Result Converted
  unfolding to_chat
  convert [] = ok (record { n_in = 0; n_out = 0; n_skipped = 0; out = [] })
  convert (row ∷ rows) = do found ← to_chat fl row; rest ← convert rows; ok (count_row found rest)
