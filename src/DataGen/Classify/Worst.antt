-- ===== src/DataGen/Classify/Worst.antt =====
-- data-gen/pass2_vegan_classify.py: the tag of a recipe and those of its ingredients.
use aihomelab.Base.{
  ℕ, String, Bool, true, false, not, ◌||◌, ◌&&◌, List, [], ◌∷◌, ◌++◌, map, any, any-append,
  Bool-cases, ◌==◌, string_eq, ◌≡◌, refl, sym, ap, ◌∙◌, ◌⊎◌, inl, inr,
}
use aihomelab.Base.Text.{lower}
use aihomelab.DataGen.Leak.{Regex, blocklist}
use aihomelab.DataGen.Classify.{
  Evidence, DietTag, vegan, vegetarian, non_vegetarian, is_seafood_of, is_meat, is_animal, tag_by,
  tag_of, fish_of, fish, with_fish, hits_by_category, has_vegan_modifier, add_ingredient, collect,
  classify_structured,
}

-- The tag that excludes more diets
abbrev pub worse : DietTag → DietTag → DietTag
worse non_vegetarian tag = non_vegetarian
worse vegetarian non_vegetarian = non_vegetarian
worse vegetarian tag = vegetarian
worse other tag = tag

abbrev pub worst : List DietTag → DietTag
worst [] = vegan
worst (tag ∷ tags) = worse tag (worst tags)

worse-tag_by : (m a m' a' : Bool) → worse (tag_by m a) (tag_by m' a') ≡ tag_by (m || m') (a || a')
worse-tag_by true a m' a' = refl
worse-tag_by false true true a' = refl
worse-tag_by false true false true = refl
worse-tag_by false true false false = refl
worse-tag_by false false m' a' = refl

or_false : (b : Bool) → b ≡ (b || false)
or_false true = refl
or_false false = refl

or_assoc : (a b c : Bool) → ((a || b) || c) ≡ (a || (b || c))
or_assoc true b c = refl
or_assoc false b c = refl

any-same :
    {A : Type 0} (p q : A → Bool) (xs : List A)
    → ((x : A) → p x ≡ true → q x ≡ true)
    → any p xs ≡ true
    → any q xs ≡ true
any-same p q [] h e = e
any-same p q (x ∷ xs) h e = elim (Bool-cases (p x)) [
  | inl yes_ ↦ rw (h x yes_) refl
  | inr no_ ↦ elim (Bool-cases (q x)) [
    | inl y ↦ rw y refl
    | inr n ↦ rw n (any-same p q xs h (sym (ap (λ b. b || any p xs) no_) ∙ e))
  ]
]

-- With fish found only where no seafood was: as much is found after `e` as without it.
found_after :
    (e h se sh f : Bool)
    → (f ≡ false) ⊎ (se ≡ true → e ≡ true)
    → ((e || h) || (not (se || sh) && f)) ≡ (e || (h || (not sh && f)))
found_after true h se sh f k = refl
found_after false true se sh f k = refl
found_after false false false sh f k = refl
found_after false false true sh f (inr k) = let found = k refl in absurd cc
found_after false false true true f (inl k) = refl
found_after false false true false f (inl k) = sym k

seafood-is_meat :
    (flesh seafood this : Bool) → (seafood && this) ≡ true → (flesh || (seafood || false)) ≡ true
seafood-is_meat true seafood this e = refl
seafood-is_meat false true this e = refl
seafood-is_meat false false this e = e

module _ (re : Regex) where
  -- A kind of evidence that the seafood already found does not take away
  abbrev Steady : (Evidence → Bool) → Type 0
  Steady p =
      (ingredient : String) (evidence : List Evidence)
      → (any p (fish re ingredient) ≡ false)
        ⊎ (any (is_seafood_of ingredient) evidence ≡ true → any p evidence ≡ true)

  is_meat-Steady : Steady is_meat
  is_meat-Steady ingredient evidence = inr (
      any-same (is_seafood_of ingredient) is_meat evidence (λ e.
        seafood-is_meat (e.category == "flesh") (e.category == "seafood")
          (e.ingredient == ingredient)))

  fish_of-animal :
      (ingredient : String) (found : List (ℕ × String))
      → any is_animal (fish_of ingredient found) ≡ false
  unfolding string_eq
  fish_of-animal ingredient [] = refl
  fish_of-animal ingredient (m ∷ rest) = refl

  is_animal-Steady : Steady is_animal
  is_animal-Steady ingredient evidence = inl (fish_of-animal ingredient _)

  module _ (p : Evidence → Bool) (steady : Steady p) where
    any-with_fish :
        (ingredient : String) (evidence : List Evidence)
        → any p (with_fish re ingredient evidence) ≡ (
            any p evidence
            || (not (any (is_seafood_of ingredient) evidence) && any p (fish re ingredient)))
    any-with_fish ingredient evidence =
        elim (Bool-cases (any (is_seafood_of ingredient) evidence)) [
          | inl yes_ ↦ rw yes_ (or_false (any p evidence))
          | inr no_ ↦ rw no_ (any-append p evidence (fish re ingredient))
        ]

    any-add_ingredient :
        (evidence : List Evidence) (ingredient : String)
        → any p (add_ingredient re evidence ingredient)
          ≡ (any p evidence || any p (add_ingredient re [] ingredient))
    unfolding add_ingredient
    any-add_ingredient evidence ingredient =
        elim (Bool-cases (has_vegan_modifier (lower ingredient))) [
          | inl yes_ ↦ rw yes_ (or_false (any p evidence))
          | inr no_ ↦
              let hits : List Evidence = hits_by_category re ingredient blocklist in
              rw no_ (
                rw
                  (
                    any-with_fish ingredient (evidence ++ hits),
                    any-with_fish ingredient hits,
                    any-append p evidence hits,
                    any-append (is_seafood_of ingredient) evidence hits,
                  )
                  (found_after (any p evidence) (any p hits)
                    (any (is_seafood_of ingredient) evidence) (any (is_seafood_of ingredient) hits)
                    (any p (fish re ingredient)) (steady ingredient evidence)))
        ]

    any-collect :
        (ingredients : List String) (evidence : List Evidence)
        → any p (collect re evidence ingredients) ≡ (
            any p evidence
            || any (λ ingredient. any p (add_ingredient re [] ingredient)) ingredients)
    unfolding collect
    any-collect [] evidence = or_false (any p evidence)
    any-collect (ingredient ∷ rest) evidence =
        any-collect rest (add_ingredient re evidence ingredient)
        ∙ rw (any-add_ingredient evidence ingredient)
            (or_assoc (any p evidence) (any p (add_ingredient re [] ingredient)) _)

    any-collect_after :
        (ingredients : List String) (evidence : List Evidence)
        → any p (collect re evidence ingredients)
          ≡ (any p evidence || any p (collect re [] ingredients))
    any-collect_after ingredients evidence =
        any-collect ingredients evidence
        ∙ ap (λ b. any p evidence || b) (sym (any-collect ingredients []))

  tag_of-worst :
      (ingredients : List String)
      → tag_of (collect re [] ingredients)
        ≡ worst (map (λ ingredient. (classify_structured re (ingredient ∷ [])).0) ingredients)
  unfolding classify_structured
  tag_of-worst [] = refl
  tag_of-worst (ingredient ∷ rest) =
      let first : List Evidence = add_ingredient re [] ingredient in
      let later : List Evidence = collect re [] rest in
      rw
        (
          any-collect_after is_meat is_meat-Steady rest first,
          any-collect_after is_animal is_animal-Steady rest first,
        )
        (sym (
            worse-tag_by (any is_meat first) (any is_animal first) (any is_meat later)
              (any is_animal later))
          ∙ ap (worse (tag_of first)) (tag_of-worst rest))

  -- The tag of a recipe with ingredients is the worst of the tags that each of them has alone, where
  -- non_vegetarian is worse than vegetarian and that is worse than vegan.
  pub classify_structured-worst :
      (ingredient : String) (rest : List String)
      → (classify_structured re (ingredient ∷ rest)).0
        ≡ worst (map (λ one. (classify_structured re (one ∷ [])).0) (ingredient ∷ rest))
  unfolding classify_structured
  classify_structured-worst ingredient rest = tag_of-worst (ingredient ∷ rest)
