-- ===== src/DataGen/Unify/Collected.antt =====
-- data-gen/pass1_schema_unify.py: the texts that are taken from the lines of a recipe.
use aihomelab.Base.{
  String, false, ◌&&◌, Option, List, [], ◌∷◌, All, All-append, Bool-cases, inl, inr, ok,
  if◌then◌else◌, ◌≡◌, subst,
}
use aihomelab.Base.Attempt.{>>=-eq-ok, ok-injective}
use aihomelab.Base.Text.{is_empty}
use aihomelab.Floats.{Floats}
use aihomelab.Parsers.Fio.{Json, null, bool, int, float, string, array, object, lookup_member}
use aihomelab.DataGen.Leak.{Regex, found}
use aihomelab.DataGen.Unify.Extract.{
  Sections, ingredient_re, procedure_re, is_text, stripped_text, add_text, add_line, collect_lines,
}

abbrev pub IsFilled : String → Type 0
IsFilled text = is_empty text ≡ false

abbrev pub AllFilled : Sections → Type 0
AllFilled s = All IsFilled s.ingredient_texts × All IsFilled s.step_texts

module _ (fl : Floats) (re : Regex) (str : Json fl.Float → String) where
  add_text-AllFilled :
      (section : String) (line_type : Option (Json fl.Float)) (text : String) (before : Sections)
      → IsFilled text
      → AllFilled before
      → AllFilled (add_text fl re str section line_type text before)
  add_text-AllFilled section line_type text before here (a, b) =
      elim (Bool-cases (is_text "ul" line_type && found re ingredient_re section)) [
        | inl is ↦ rw is (All-append IsFilled before.ingredient_texts (text ∷ []) a (here, tt), b)
        | inr other ↦ elim (Bool-cases (is_text "ol" line_type && found re procedure_re section)) [
          | inl is ↦
              rw (other, is) (a, All-append IsFilled before.step_texts (text ∷ []) b (here, tt))
          | inr never ↦ rw (other, never) (a, b)
        ]
      ]

  add_filled-AllFilled :
      (section : String) (line_type : Option (Json fl.Float)) (text : String) (before : Sections)
      → AllFilled before
      → AllFilled
          (if is_empty text then before else add_text fl re str section line_type text before)
  add_filled-AllFilled section line_type text before a = elim (Bool-cases (is_empty text)) [
    | inl empty ↦ rw empty a
    | inr filled ↦ rw filled (add_text-AllFilled section line_type text before filled a)
  ]

  add_line-AllFilled :
      (line : Json fl.Float) (before : Sections) {after : Sections}
      → add_line fl re str line before ≡ ok after
      → AllFilled before
      → AllFilled after
  unfolding add_line
  add_line-AllFilled (object ms) before e a =
      let (section, _, e₁) = >>=-eq-ok (stripped_text fl re str "section" (object ms)) _ e in
      let (text, _, e₂) = >>=-eq-ok (stripped_text fl re str "text" (object ms)) _ e₁ in
      subst AllFilled (ok-injective e₂)
        (add_filled-AllFilled section (lookup_member "line_type" ms) text before a)
  add_line-AllFilled null before e a = subst AllFilled (ok-injective e) a
  add_line-AllFilled (bool b) before e a = subst AllFilled (ok-injective e) a
  add_line-AllFilled (int n) before e a = subst AllFilled (ok-injective e) a
  add_line-AllFilled (float x) before e a = subst AllFilled (ok-injective e) a
  add_line-AllFilled (string s) before e a = subst AllFilled (ok-injective e) a
  add_line-AllFilled (array xs) before e a = subst AllFilled (ok-injective e) a

  pub collect_lines-AllFilled :
      (lines : List (Json fl.Float)) (before : Sections) {after : Sections}
      → collect_lines fl re str lines before ≡ ok after
      → AllFilled before
      → AllFilled after
  unfolding collect_lines
  collect_lines-AllFilled [] before e a = subst AllFilled (ok-injective e) a
  collect_lines-AllFilled (line ∷ lines) before e a =
      let (next, here, later) = >>=-eq-ok (add_line fl re str line before) _ e in
      collect_lines-AllFilled lines next later (add_line-AllFilled line before here a)
