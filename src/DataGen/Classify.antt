-- ===== src/DataGen/Classify.antt =====
-- data-gen/pass2_vegan_classify.py: the diet of a recipe by its ingredients. Regular expressions are
-- the parameter of DataGen/Leak.
pub mod Worst
use aihomelab.Base.{
  ℕ, String, Bool, true, false, ◌||◌, ◌&&◌, Option, none, some, List, [], ◌∷◌, ◌++◌, any, find,
  contains, if◌then◌else◌, ◌==◌, string_eq,
}
use aihomelab.Base.Text.{lower, is_within}
use aihomelab.DataGen.Leak.{Regex, blocklist, fish_suffix, found, word}

abbrev pub vegan_modifiers : List String
vegan_modifiers =
    "vegan" ∷ "plant-based" ∷ "plant based" ∷ "non-dairy" ∷ "nondairy" ∷ "almond" ∷ "soy" ∷ "soya"
    ∷ "oat" ∷ "coconut" ∷ "cashew" ∷ "rice" ∷ "hemp" ∷ "tofu" ∷ "tempeh" ∷ "seitan" ∷ "jackfruit"
    ∷ "nutritional yeast" ∷ "cashews" ∷ "almonds" ∷ "macadamia" ∷ "hazelnut" ∷ []

-- A term that an ingredient names
pub record Evidence : Type 0 where
  pub category : String
  pub term : String
  pub ingredient : String

pub data DietTag : Type 0 where
  vegan vegetarian non_vegetarian unknown context : DietTag

-- A row of unified.jsonl with the keys that are read or set
pub record RecipeRow : Type 0 where
  pub content_type : Option String
  pub ingredients_raw : Option (List String)
  pub diet_tag : Option DietTag
  pub diet_evidence : List Evidence

unfoldable pub has_vegan_modifier : String → Bool
unfolding is_within
has_vegan_modifier text_lower = any (λ modifier. is_within modifier text_lower) vegan_modifiers

abbrev pub is_seafood_of : String → Evidence → Bool
is_seafood_of ingredient e = e.category == "seafood" && e.ingredient == ingredient

abbrev pub is_meat : Evidence → Bool
is_meat e = contains e.category ("flesh" ∷ "seafood" ∷ [])

abbrev pub is_animal : Evidence → Bool
is_animal e = contains e.category ("dairy" ∷ "eggs" ∷ "byproducts" ∷ "hidden" ∷ [])

abbrev pub tag_by : Bool → Bool → DietTag
tag_by true animal = non_vegetarian
tag_by false true = vegetarian
tag_by false false = vegan

abbrev pub tag_of : List Evidence → DietTag
tag_of evidence = tag_by (any is_meat evidence) (any is_animal evidence)

abbrev pub is_structured : RecipeRow → Bool
is_structured row = elim row.content_type [
  | none ↦ false
  | some content_type ↦ content_type == "structured_recipe"
]

-- The compound fish name that is found first
abbrev pub fish_of : String → List (ℕ × String) → List Evidence
fish_of ingredient [] = []
fish_of ingredient (m ∷ rest) =
    (record { category = "seafood"; term = m.1; ingredient = ingredient }) ∷ []

-- The first term of a category, if any
abbrev pub hit_of : (category ingredient : String) → Option String → List Evidence
hit_of category ingredient none = []
hit_of category ingredient (some term) =
    (record { category = category; term = term; ingredient = ingredient }) ∷ []

module _ (re : Regex) where
  unfoldable pub hits_by_category : String → List (String × List String) → List Evidence
  unfolding lower
  hits_by_category ingredient [] = []
  hits_by_category ingredient ((category, terms) ∷ rest) =
      hit_of category ingredient (find (λ term. found re (word re term) (lower ingredient)) terms)
      ++ hits_by_category ingredient rest

  abbrev pub fish : String → List Evidence
  fish ingredient = fish_of ingredient (re.finditer fish_suffix (lower ingredient))

  abbrev pub with_fish : String → List Evidence → List Evidence
  with_fish ingredient evidence =
      if any (is_seafood_of ingredient) evidence then evidence else evidence ++ fish ingredient

  unfoldable pub add_ingredient : List Evidence → String → List Evidence
  unfolding has_vegan_modifier hits_by_category
  add_ingredient evidence ingredient =
      if has_vegan_modifier (lower ingredient)
      then evidence
      else with_fish ingredient (evidence ++ hits_by_category ingredient blocklist)

  unfoldable pub collect : List Evidence → List String → List Evidence
  unfolding add_ingredient
  collect evidence [] = evidence
  collect evidence (ingredient ∷ rest) = collect (add_ingredient evidence ingredient) rest

  unfoldable pub classify_structured : List String → DietTag × List Evidence
  unfolding collect
  classify_structured [] = (unknown, [])
  classify_structured (ingredient ∷ rest) =
      let evidence = collect [] (ingredient ∷ rest) in (tag_of evidence, evidence)

  -- `row.get("ingredients_raw") or []`
  abbrev pub ingredients_of : RecipeRow → List String
  ingredients_of row = elim row.ingredients_raw [ none ↦ [] | some list ↦ list ]

  -- The row that is written for a row that is read
  unfoldable pub tag_row : RecipeRow → RecipeRow
  unfolding classify_structured
  tag_row row =
      let (tag, evidence) = classify_structured (ingredients_of row) in
      if is_structured row
      then record row { diet_tag = some tag; diet_evidence = evidence }
      else record row { diet_tag = some context; diet_evidence = [] }
