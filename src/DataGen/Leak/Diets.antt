-- ===== src/DataGen/Leak/Diets.antt =====
-- data-gen/filter_clean.py: how the flags of the two diets relate.
use aihomelab.Base.{
  String, Bool, true, false, ◌||◌, Option, none, some, List, [], ◌∷◌, any, find, contains,
  Bool-cases, any-append, string_eq, ◌≡◌, refl, is_some, ◌∙◌, inl, inr, sym,
}
use aihomelab.Base.Text.{lower}
use aihomelab.DataGen.Rows.{AnswerRow}
use aihomelab.DataGen.Leak.{
  Regex, Hit, is_leak, hits_of_terms, terms_of, blocklist, fish_hits, term_hits,
  vegan_suspect_categories, vegetarian_suspect_categories, first_leak, verdict, flag_leakage,
  answer_text, hits_of_categories,
}

find-any : {A : Type 0} (p : A → Bool) (xs : List A) → is_some (find p xs) ≡ any p xs
find-any p [] = refl
find-any p (x ∷ xs) = elim (Bool-cases (p x)) [
  | inl yes_ ↦ rw yes_ refl
  | inr no_ ↦ rw no_ (find-any p xs)
]

verdict-is_some : (tag : String) (found : Option Hit) → (verdict tag found).0 ≡ is_some found
verdict-is_some tag none = refl
verdict-is_some tag (some hit) = refl

some_more : (a b c f : Bool) → ((a || (b || false)) || f) ≡ true → ((a || (b || c)) || f) ≡ true
some_more false false false f h = h
some_more false false true f h = refl
some_more false true c f h = refl
some_more true b c f h = refl

module _ (re : Regex) where
  first_leak-any :
      (tag text : String) (categories : List String)
      → (first_leak re tag text categories).0 ≡ any (is_leak re text) (term_hits re text categories)
  first_leak-any tag text categories =
      verdict-is_some tag _ ∙ find-any (is_leak re text) (term_hits re text categories)

  module _ (p : Hit → Bool) (text : String) where
    any-category : String → Bool
    any-category category = any p (hits_of_terms re text category (terms_of re category blocklist))

    any-hits_of_categories :
        (category : String) (categories : List String)
        → any p (hits_of_categories re text (category ∷ categories))
          ≡ (any-category category || any p (hits_of_categories re text categories))
    unfolding hits_of_categories any-category
    any-hits_of_categories category categories =
        any-append p (hits_of_terms re text category (terms_of re category blocklist)) _

    any-no_categories : any p (hits_of_categories re text []) ≡ false
    unfolding hits_of_categories
    any-no_categories = refl

    any-term_hits :
        (categories : List String)
        → contains "seafood" categories ≡ true
        → any p (term_hits re text categories)
          ≡ (any p (hits_of_categories re text categories) || any p (fish_hits re text))
    unfolding term_hits
    any-term_hits categories fish =
        rw fish (any-append p (hits_of_categories re text categories) (fish_hits re text))

    seafood_in : (rest : List String) → contains "seafood" ("flesh" ∷ "seafood" ∷ rest) ≡ true
    unfolding string_eq
    seafood_in rest = refl

    term_hits-diets :
        any p (term_hits re text vegetarian_suspect_categories) ≡ true
        → any p (term_hits re text vegan_suspect_categories) ≡ true
    term_hits-diets h =
        let rest : List String = "dairy" ∷ "eggs" ∷ "byproducts" ∷ "hidden" ∷ [] in
        let fewer : any p (term_hits re text vegetarian_suspect_categories) ≡ (
            (any-category "flesh" || (any-category "seafood" || false))
            || any p (fish_hits re text)) =
          any-term_hits vegetarian_suspect_categories (seafood_in [])
          ∙ rw
              (
                any-hits_of_categories "flesh" ("seafood" ∷ []),
                any-hits_of_categories "seafood" [],
                any-no_categories,
              )
              refl in
        let more : any p (term_hits re text vegan_suspect_categories) ≡ (
            (any-category "flesh"
              || (any-category "seafood" || any p (hits_of_categories re text rest)))
            || any p (fish_hits re text)) =
          any-term_hits vegan_suspect_categories (seafood_in rest)
          ∙ rw
              (
                any-hits_of_categories "flesh" ("seafood" ∷ rest),
                any-hits_of_categories "seafood" rest,
              )
              refl in
        more
        ∙ some_more (any-category "flesh") (any-category "seafood")
            (any p (hits_of_categories re text rest)) (any p (fish_hits re text)) (sym fewer ∙ h)

  -- An answer that is flagged for a vegetarian is flagged for a vegan too.
  pub flag_leakage-diets :
      {F : Type 0} (row : AnswerRow F)
      → (flag_leakage re (record row { dietary_preference = some "vegetarian" })).0 ≡ true
      → (flag_leakage re (record row { dietary_preference = some "vegan" })).0 ≡ true
  unfolding flag_leakage string_eq
  flag_leakage-diets row h =
      let text = lower (answer_text row) in
      first_leak-any "vegan" text vegan_suspect_categories
      ∙ term_hits-diets (is_leak re text) text
          (sym (first_leak-any "vegetarian" text vegetarian_suspect_categories) ∙ h)
