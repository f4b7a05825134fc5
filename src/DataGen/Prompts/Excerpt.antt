-- ===== src/DataGen/Prompts/Excerpt.antt =====
-- data-gen/build_prompts.py: what is read of a grounding row.
use Prim.Native.String.{String}
use Prim.Native.Char.{code}
use aihomelab.Base.{
  ℕ, ◌-◌, ◌<>◌, Bool, true, false, not, ◌||◌, Option, none, some, List, [], ◌∷◌, ◌++◌, map,
  contains, select, ◌==◌, string_eq, nat_eq, attribute_error, Result, ok, raised, if◌then◌else◌,
  ltb,
}
use aihomelab.Base.Attempt.{◌>>=◌}
use aihomelab.Base.Slices.{take_items}
use aihomelab.Base.Text.{is_empty, join, strip, take, text_length}
use aihomelab.Floats.{Floats}
use aihomelab.Parsers.Fio.{Json, string, array, Items, nil, cons, Members, lookup_member, truthy}

-- A row of pass 3, and its `_orig_idx`
pub record GroundingRow (F : Type 0) : Type 0 where
  pub members : Members F
  pub orig_idx : ℕ

-- `s + t`, read one character at a time
abbrev pub followed_by : String → String → String
followed_by String.[] t = t
followed_by (String.◌∷◌ c s) t = String.◌∷◌ c (followed_by s t)

-- `s.replace('"', "'")`
abbrev pub single_quoted : String → String
single_quoted String.[] = String.[]
single_quoted (String.◌∷◌ c s) = String.◌∷◌ (if code c == b'"' then "'" else c) (single_quoted s)

abbrev pub max_chars : ℕ
max_chars = 350

-- `if len(excerpt) > max_chars: ...`
unfoldable pub shorten : ℕ → String → String
unfolding text_length take
shorten limit excerpt =
    if ltb limit (text_length excerpt) then followed_by (take (limit - 1) excerpt) "…" else excerpt

abbrev pub or_no_description : String → String
or_no_description excerpt = if is_empty excerpt then "(no description available)" else excerpt

module _ {F : Type 0} where
  abbrev pub list_of : Items F → List (Json F)
  list_of nil = []
  list_of (cons x xs) = x ∷ list_of xs

module _ (fl : Floats) (str : Json fl.Float → String) where
  -- `row.get(k) or row.get(k') or ... or default`; none if all are false.
  unfoldable pub first_of : List String → Members fl.Float → Option (Json fl.Float)
  first_of [] members = none
  first_of (k ∷ keys) members =
      let later = first_of keys members in
      elim (lookup_member k members) [
        | none ↦ later
        | some v ↦ if truthy fl v then some v else later
      ]

  abbrev pub title_keys : List String
  title_keys = "title" ∷ "name" ∷ "recipe_name" ∷ []

  abbrev pub ingredient_keys : List String
  ingredient_keys = "ingredients_raw" ∷ "ingredients" ∷ "ingredient_list" ∷ []

  abbrev pub step_keys : List String
  step_keys = "steps_raw" ∷ "method" ∷ "instructions" ∷ "steps" ∷ []

  -- A title that is no text has no `strip`.
  abbrev pub title_part : Option (Json fl.Float) → Result (List String)
  title_part none = ok []
  title_part (some (string s)) = ok (strip s ∷ [])
  title_part (some _) = raised (attribute_error "object has no attribute 'strip'")

  -- `isinstance(x, list) and x`
  abbrev pub list_or_none : Option (Json fl.Float) → List (Json fl.Float)
  list_or_none (some (array xs)) = list_of xs
  list_or_none _ = []

  abbrev pub ingredient_part : List (Json fl.Float) → List String
  ingredient_part [] = []
  ingredient_part (x ∷ xs) =
      ("Ingredients: " <> join ", " (map (λ i. strip (str i)) (take_items 8 (x ∷ xs)))) ∷ []

  -- The steps, or the first of a list of them
  abbrev pub one_step : Option (Json fl.Float) → Option (Json fl.Float)
  one_step (some (array (cons x xs))) = some x
  one_step other = other

  abbrev pub step_part : Option (Json fl.Float) → List String
  step_part (some (string s)) = if is_empty s then [] else ("Method: " <> strip s) ∷ []
  step_part _ = []

  unfoldable pub short_grounding_excerpt : GroundingRow fl.Float → Result String
  unfolding first_of shorten strip join
  short_grounding_excerpt row = do
    title ← title_part (first_of title_keys row.members)
    let parts =
        title
        ++ ingredient_part (list_or_none (first_of ingredient_keys row.members))
        ++ step_part (one_step (first_of step_keys row.members))
    ok (or_no_description (single_quoted (shorten max_chars (join " | " parts))))

  -- A text or a list that is not empty
  abbrev pub is_filled : Option (Json fl.Float) → Bool
  is_filled (some (array (cons x xs))) = true
  is_filled (some (string s)) = not (is_empty s)
  is_filled _ = false

  abbrev pub is_filled_list : Option (Json fl.Float) → Bool
  is_filled_list (some (array (cons x xs))) = true
  is_filled_list _ = false

  unfoldable pub has_content : GroundingRow fl.Float → Bool
  unfolding first_of
  has_content row =
      is_filled_list (first_of ingredient_keys row.members)
      || is_filled (first_of step_keys row.members)

  -- `row.get("diet_tag") in tags`
  abbrev pub is_tagged : List String → GroundingRow fl.Float → Bool
  is_tagged tags row = elim (lookup_member "diet_tag" row.members) [
    | some (string tag) ↦ contains tag tags
    | _ ↦ false
  ]

  unfoldable pub filter_for_adaptation :
      String → List (GroundingRow fl.Float) → List (GroundingRow fl.Float)
  filter_for_adaptation target_diet rows =
      if target_diet == "vegan"
      then select (is_tagged ("vegetarian" ∷ "non_vegetarian" ∷ [])) rows
      else if target_diet == "vegetarian"
      then select (is_tagged ("non_vegetarian" ∷ [])) rows
      else rows

  unfoldable pub filter_for_constraint_cooking :
      String → List (GroundingRow fl.Float) → List (GroundingRow fl.Float)
  filter_for_constraint_cooking target_diet rows =
      if target_diet == "vegan"
      then select (is_tagged ("vegan" ∷ [])) rows
      else if target_diet == "vegetarian"
      then select (is_tagged ("vegan" ∷ "vegetarian" ∷ [])) rows
      else rows
