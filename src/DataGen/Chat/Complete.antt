-- ===== src/DataGen/Chat/Complete.antt =====
-- data-gen/to_chat_format.py: which rows become messages.
use text.Mathlib.Text.{starts_with}
use aihomelab.Base.{
  Bool-cases, inl, inr, ok, subst, suc, String, Bool, true, false, not, Option, none, some, List,
  [], ◌∷◌, map, length, All, ◌==◌, ◌&&◌, string_eq, if◌then◌else◌, ◌≡◌, refl, ap, ◌∙◌,
}
use aihomelab.Base.Attempt.{◌>>=◌}
use aihomelab.Base.Text.{given}
use aihomelab.Floats.{Floats}
use aihomelab.DataGen.Rows.{AnswerRow, ChatRow}
use aihomelab.DataGen.Lines.{finished}
use aihomelab.DataGen.Leak.{Regex}
use aihomelab.DataGen.Filter.{
  text_of, is_null, is_clean, qa_texts, not_blank, FilterArgs, filter_clean,
}
use aihomelab.DataGen.Filter.Clean.{filter_clean-eq-finished}
use aihomelab.DataGen.Filter.Distinct.{IsClean}
use aihomelab.Parsers.Fio.{
  Json, null, bool, int, float, string, array, object, Members, lookup_member,
}
use aihomelab.DataGen.Chat.{
  Converted, or_indian, chat_row, chat_of, count_row, to_chat, convert, dict_members, placeholder,
  cuisine_of, derive_cuisine,
}

-- Neither message of the row is blank.
abbrev pub IsSpoken : ChatRow → Type 0
IsSpoken row = (not_blank row.user ≡ true) × (not_blank row.assistant ≡ true)

both : (a b : Bool) → (a && b) ≡ true → (a ≡ true) × (b ≡ true)
both true b h = (refl, h)
both false b h = absurd cc

stopped :
    (other : Bool) (qa : Option (String × String))
    → (if other then false else elim qa [ none ↦ false | some (q, a) ↦ not_blank q && not_blank a ])
      ≡ true
    → (q a : String) × (qa ≡ some (q, a)) × (not_blank q && not_blank a ≡ true)
stopped true qa h = absurd cc
stopped false none h = absurd cc
stopped false (some (q, a)) h = (q, a, refl, h)

module _ {F : Type 0} where
  IsClean-qa_texts :
      (row : AnswerRow F)
      → IsClean row
      → (q a : String) × (qa_texts row.parsed_qa ≡ some (q, a))
        × (not_blank q && not_blank a ≡ true)
  unfolding is_clean
  IsClean-qa_texts row clean =
      go (is_null row.http_error) (is_null row.parse_error) row.finish_reason
        (qa_texts row.parsed_qa) clean
    where
      go :
          (http parse : Bool) (reason : Option String) (qa : Option (String × String))
          → (if not http then false else if not parse then false else elim reason [
            | none ↦ false
            | some r ↦
                if not (r == "stop")
                then false
                else elim qa [ none ↦ false | some (q, a) ↦ not_blank q && not_blank a ]
          ])
            ≡ true
          → (q a : String) × (qa ≡ some (q, a)) × (not_blank q && not_blank a ≡ true)
      go false parse reason qa h = absurd cc
      go true false reason qa h = absurd cc
      go true true none qa h = absurd cc
      go true true (some r) qa h = stopped (not (r == "stop")) qa h

-- The template is a text and the placeholders are an object, as generate.py writes them.
module _ (fl : Floats) where
  abbrev pub IsLabelled : AnswerRow fl.Float → Type 0
  IsLabelled row =
      (t : String) × (ms : Members fl.Float) × (row.template ≡ some (string t))
      × (row.placeholders ≡ object ms)

  cuisine_of-returns :
      (template : String) (ms : Members fl.Float)
      → (cuisine : Option String) × (cuisine_of fl template (object ms) ≡ ok cuisine)
  unfolding placeholder dict_members
  cuisine_of-returns template ms = elim (Bool-cases (starts_with template "indian_")) [
    | inl indian ↦ (some (or_indian (given (text_of (lookup_member "state" ms)))), rw indian refl)
    | inr other ↦ elim (Bool-cases (template == "nutrition_target")) [
      | inl is ↦ (text_of (lookup_member "cuisine" ms), rw (other, is) refl)
      | inr other' ↦ elim (Bool-cases (template == "cross_cuisine")) [
        | inl is ↦ (text_of (lookup_member "cuisine_a" ms), rw (other, other', is) refl)
        | inr none_of ↦ (none, rw (other, other', none_of) refl)
      ]
    ]
  ]

  derive_cuisine-returns :
      (row : AnswerRow fl.Float)
      → IsLabelled row
      → (cuisine : Option String) × (derive_cuisine fl row ≡ ok cuisine)
  unfolding derive_cuisine
  derive_cuisine-returns row (t, ms, is_text, is_dict) =
      let (cuisine, e) = cuisine_of-returns t ms in (cuisine, rw (is_text, is_dict) e)

  qa_texts-object :
      (x : Json fl.Float) {q a : String}
      → qa_texts x ≡ some (q, a)
      → (ms : Members fl.Float) × (x ≡ object ms)
  qa_texts-object (object ms) e = (ms, refl)
  qa_texts-object null e = absurd cc
  qa_texts-object (bool b) e = absurd cc
  qa_texts-object (int n) e = absurd cc
  qa_texts-object (float x) e = absurd cc
  qa_texts-object (string s) e = absurd cc
  qa_texts-object (array xs) e = absurd cc

  to_chat-some :
      (row : AnswerRow fl.Float) {ms : Members fl.Float} {q a : String} {cuisine : Option String}
      → row.parsed_qa ≡ object ms
      → qa_texts (object ms) ≡ some (q, a)
      → (not_blank q && not_blank a) ≡ true
      → derive_cuisine fl row ≡ ok cuisine
      → to_chat fl row ≡ ok (some (chat_row fl row q a cuisine))
  unfolding to_chat dict_members
  to_chat-some row {ms} {q} {a} is texts spoken e =
      ap (λ x. dict_members fl x >>= λ qa. chat_of fl row (qa_texts (object qa))) is
      ∙ ap (chat_of fl row) texts
      ∙ ap
          (λ b.
            if b
            then (derive_cuisine fl row >>= λ cuisine. ok (some (chat_row fl row q a cuisine)))
            else ok none)
          spoken
      ∙ ap (λ r. r >>= λ cuisine. ok (some (chat_row fl row q a cuisine))) e

  -- A clean row becomes a row with its ids.
  clean-to_chat :
      (row : AnswerRow fl.Float)
      → IsClean row
      → IsLabelled row
      → (made : ChatRow) × (to_chat fl row ≡ ok (some made))
        × IsSpoken made
        × (made.request_id ≡ row.request_id)
        × (made.grounding_row_id ≡ row.grounding_row_id)
  clean-to_chat row clean labelled =
      let (q, a, texts, spoken) = IsClean-qa_texts row clean in
      let (ms, is) = qa_texts-object row.parsed_qa texts in
      let (cuisine, e) = derive_cuisine-returns row labelled in
      let here : qa_texts (object ms) ≡ some (q, a) =
        subst (λ x. qa_texts x ≡ some (q, a)) is texts in
      (
        chat_row fl row q a cuisine,
        to_chat-some row is here spoken e,
        both (not_blank q) (not_blank a) spoken,
        refl,
        refl,
      )

  -- The rows are all written, and the counts say so.
  abbrev pub IsComplete : List (AnswerRow fl.Float) → Converted → Type 0
  IsComplete rows c =
      (c.n_skipped ≡ 0)
      × (c.n_in ≡ length rows)
      × (c.n_out ≡ length rows)
      × (map (λ row. row.request_id) c.out ≡ map (λ row. row.request_id) rows)
      × (map (λ row. row.grounding_row_id) c.out ≡ map (λ row. row.grounding_row_id) rows)
      × All IsSpoken c.out

  convert-clean :
      (rows : List (AnswerRow fl.Float))
      → All IsClean rows
      → All IsLabelled rows
      → (c : Converted) × (convert fl rows ≡ ok c) × IsComplete rows c
  unfolding convert
  convert-clean [] clean labelled = (
    record { n_in = 0; n_out = 0; n_skipped = 0; out = [] },
    refl,
    (refl, refl, refl, refl, refl, tt),
  )
  convert-clean (row ∷ rows) (h, clean) (l, labelled) =
      let (made, e, spoken, id, gid) = clean-to_chat row h l in
      let (rest, e', (skipped, n_in, n_out, ids, gids, a)) = convert-clean rows clean labelled in
      (
        count_row (some made) rest,
        rw (e, e') refl,
        (
          skipped,
          ap suc n_in,
          ap suc n_out,
          ap (λ i. i ∷ map (λ row. row.request_id) rest.out) id ∙ ap (λ l. row.request_id ∷ l) ids,
          ap (λ i. i ∷ map (λ row. row.grounding_row_id) rest.out) gid
              ∙ ap (λ l. row.grounding_row_id ∷ l) gids,
          (spoken, a),
        ),
      )

-- If filter_clean.py writes a dataset in whose rows the template is a text and the placeholders are an
-- object, to_chat_format.py returns and skips no row of it: it writes as many rows, with the same
-- request ids and grounding ids in the same order, and no message of them is blank.
pub convert-filter_clean :
    (fl : Floats) (re : Regex) (file : String → Option (List String))
    (decode : String → Option (AnswerRow fl.Float)) (args : FilterArgs fl re file decode)
    (out : List (AnswerRow fl.Float))
    → filter_clean fl re file decode args ≡ finished out
    → All (IsLabelled fl) out
    → (c : Converted) × (convert fl out ≡ ok c) × IsComplete fl out c
convert-filter_clean fl re file decode args out e labelled =
    convert-clean fl out (filter_clean-eq-finished fl re file decode args out e).0 labelled
