-- ===== src/DataGen/Prompts/Fill.antt =====
-- data-gen/build_prompts.py: weighted picks, and the placeholders of a template.
use aihomelab.Base.{
  ℕ, zero, suc, ◌+◌, ◌<>◌, String, Option, none, some, List, [], ◌∷◌, map, length, dict_get, ◌==◌,
  string_eq, index_error, key_error, value_error, Result, ok, raised, Py, pure, raise, lift, ◌>>=◌,
  if◌then◌else◌, ltb,
}
use aihomelab.Base.Int.{pos}
use aihomelab.Base.Text.{join, strip}
use aihomelab.Floats.{Floats}
use aihomelab.Parsers.Fio.{Json}
use aihomelab.DataGen.Prompts.Topics.{
  ingredients, recipe_contexts, techniques, nutrition_targets, cuisines, meal_types,
  indian_south_breakfast_dishes, indian_target_ingredients, indian_curry_names,
  indian_state_to_dals, indian_comparison_dals, dietary_directive, indian_sweets,
}
use aihomelab.DataGen.Prompts.Excerpt.{
  GroundingRow, first_of, ingredient_keys, list_or_none, short_grounding_excerpt,
}

-- `random.Random`: `random()`, `randrange(n)` and `sample(xs, k)`.
pub record Rng (F : Type 0) : Type 1 where
  pub State : Type 0
  pub random : State → F × State
  pub randrange : ℕ → State → ℕ × State
  pub sample : List (Json F) → ℕ → State → List (Json F) × State

-- The placeholders of a user turn, in the order in which they are set
abbrev pub Placeholders : Type 0
Placeholders = List (String × String)

-- `grounding_pools`
pub record Pools (F : Type 0) : Type 0 where
  pub adaptation_vegan : List (GroundingRow F)
  pub adaptation_vegetarian : List (GroundingRow F)
  pub constraint_vegan : List (GroundingRow F)
  pub constraint_vegetarian : List (GroundingRow F)
  pub cross_cuisine : List (GroundingRow F)

abbrev pub item_at : {A : Type 0} → ℕ → List A → Result A
item_at n [] = raised (index_error "list index out of range")
item_at zero (x ∷ xs) = ok x
item_at (suc n) (x ∷ xs) = item_at n xs

module _ (fl : Floats) where
  abbrev sum : fl.Float → List (String × fl.Float) → fl.Float
  sum acc [] = acc
  sum acc ((k, w) ∷ weights) = sum (fl.add acc w) weights

  unfoldable pub normalize : List (String × fl.Float) → List (String × fl.Float)
  normalize weights =
      let total = sum (fl.of_int (pos 0)) weights in map (λ p. (p.0, fl.div p.1 total)) weights

module _ (fl : Floats) (rng : Rng fl.Float) where
  -- `rng.choice(xs)`, and a row at a random index.
  unfoldable pub pick : {A : Type 0} → List A → Py rng.State A
  unfolding ◌>>=◌
  pick xs s = let (i, s') = rng.randrange (length xs) s in (item_at i xs, s')

  -- The loop of `weighted_pick`: the first key whose sum is above `r`, else the last.
  abbrev pub pick_above : fl.Float → fl.Float → (last : String) → List (String × fl.Float) → String
  pick_above r acc last [] = last
  pick_above r acc last ((k, w) ∷ items) =
      let later = pick_above r (fl.add acc w) k items in if fl.lt r (fl.add acc w) then k else later

  -- Without weights `items[-1]` raises.
  unfoldable pub weighted_pick : List (String × fl.Float) → Py rng.State String
  weighted_pick [] s = (raised (index_error "list index out of range"), (rng.random s).1)
  weighted_pick ((k, w) ∷ items) s =
      let (r, s') = rng.random s in (ok (pick_above r (fl.of_int (pos 0)) k ((k, w) ∷ items)), s')

  module _ (str : Json fl.Float → String) where
    -- `grounding_pools[f"adaptation_{dietary}"]` and `grounding_pools[f"constraint_{dietary}"]`
    abbrev pub pool_for :
        (what dietary : String) (vegan vegetarian : List (GroundingRow fl.Float))
        → Result (List (GroundingRow fl.Float))
    pool_for what dietary vegan vegetarian =
        if dietary == "vegan"
        then ok vegan
        else if dietary == "vegetarian"
        then ok vegetarian
        else raised (key_error (what <> dietary))

    abbrev pub value_of : String → List (String × String) → Result String
    value_of k pairs = elim (dict_get k pairs) [ none ↦ raised (key_error k) | some v ↦ ok v ]

    abbrev pub dals_of : String → Result (List String)
    dals_of state = elim (dict_get state indian_state_to_dals) [
      | none ↦ raised (key_error state)
      | some dals ↦ ok dals
    ]

    -- Three to five of the ingredients, if the row has a list of them
    unfoldable pub sample_ingredients : List (Json fl.Float) → Py rng.State String
    unfolding ◌>>=◌ join strip
    sample_ingredients [] s = pure "tomatoes, onions, garlic, ginger" s
    sample_ingredients (x ∷ xs) s =
        let (i, s') = rng.randrange 3 s in
        let k = if ltb (length (x ∷ xs)) (3 + i) then length (x ∷ xs) else 3 + i in
        let (sampled, s'') = rng.sample (x ∷ xs) k s' in
        (ok (join ", " (map (λ j. strip (str j)) sampled)), s'')

    abbrev pub Filled : Type 0
    Filled = Placeholders × Option (GroundingRow fl.Float)

    unfoldable pub fill_adaptation : String → Pools fl.Float → Py rng.State Filled
    unfolding pick short_grounding_excerpt ◌>>=◌
    fill_adaptation dietary pools = do
      pool ←
          lift (pool_for "adaptation_" dietary pools.adaptation_vegan pools.adaptation_vegetarian)
      row ← pick pool
      excerpt ← lift (short_grounding_excerpt fl str row)
      directive ← lift (value_of dietary dietary_directive)
      pure (("grounding_excerpt", excerpt) ∷ ("dietary_directive", directive) ∷ [], some row)

    unfoldable pub fill_constraint : String → Pools fl.Float → Py rng.State Filled
    unfolding pick sample_ingredients first_of ◌>>=◌
    fill_constraint dietary pools = do
      pool ←
          lift (pool_for "constraint_" dietary pools.constraint_vegan pools.constraint_vegetarian)
      row ← pick pool
      sampled ←
          sample_ingredients
            (list_or_none fl str (first_of fl str (ingredient_keys fl str) row.members))
      pure (("ingredient_list", sampled) ∷ [], some row)

    unfoldable pub fill_cross_cuisine : Pools fl.Float → Py rng.State Filled
    unfolding pick short_grounding_excerpt ◌>>=◌
    fill_cross_cuisine pools = do
      cuisine ← pick cuisines
      row ← pick pools.cross_cuisine
      excerpt ← lift (short_grounding_excerpt fl str row)
      pure (("cuisine_a", cuisine) ∷ ("grounding_excerpt", excerpt) ∷ [], some row)

    unfoldable pub fill_regional_dal : Py rng.State Filled
    unfolding pick ◌>>=◌
    fill_regional_dal = do
      state ← pick (map (λ p. p.0) indian_state_to_dals)
      dals ← lift (dals_of state)
      dal ← pick dals
      other ← pick indian_comparison_dals
      pure (("state", state) ∷ ("dal_name", dal) ∷ ("comparison_dal", other) ∷ [], none)

    -- A pick for each placeholder
    unfoldable pub fill_topics : List (String × List String) → Py rng.State Filled
    unfolding pick ◌>>=◌
    fill_topics [] = pure ([], none)
    fill_topics ((k, topics) ∷ rest) = do
      topic ← pick topics
      (later, row) ← fill_topics rest
      pure ((k, topic) ∷ later, row)

    unfoldable pub fill_sweet : String → Py rng.State Filled
    unfolding pick ◌>>=◌
    fill_sweet dietary = do
      sweet ← pick indian_sweets
      directive ← lift (value_of dietary dietary_directive)
      pure (("sweet_name", sweet) ∷ ("dietary_directive", directive) ∷ [], none)

    -- The branches of `fill_template`
    unfoldable pub fill_placeholders :
        (template_name dietary : String) → Pools fl.Float → Py rng.State Filled
    unfolding fill_adaptation fill_constraint fill_cross_cuisine fill_regional_dal fill_topics
        fill_sweet
    fill_placeholders template_name dietary pools =
        if template_name == "substitution"
        then fill_topics (("ingredient", ingredients) ∷ ("recipe_context", recipe_contexts) ∷ [])
        else if template_name == "adaptation"
        then fill_adaptation dietary pools
        else if template_name == "constraint_cooking"
        then fill_constraint dietary pools
        else if template_name == "nutrition_target"
        then fill_topics (
            ("nutrition_target", nutrition_targets)
            ∷ ("cuisine", cuisines)
            ∷ ("meal_type", meal_types)
            ∷ [])
        else if template_name == "technique_explainer"
        then fill_topics (("technique", techniques) ∷ [])
        else if template_name == "cross_cuisine"
        then fill_cross_cuisine pools
        else if template_name == "indian_south_breakfast"
        then fill_topics (("dish", indian_south_breakfast_dishes) ∷ [])
        else if template_name == "indian_paneer_ghee_substitution"
        then fill_topics (
            ("target_ingredient", indian_target_ingredients)
            ∷ ("curry_name", indian_curry_names)
            ∷ [])
        else if template_name == "indian_regional_dal"
        then fill_regional_dal
        else if template_name == "indian_sweet_adaptation"
        then fill_sweet dietary
        else raise (value_error ("Unknown template: " <> template_name))
