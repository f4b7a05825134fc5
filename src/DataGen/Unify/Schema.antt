-- ===== src/DataGen/Unify/Schema.antt =====
-- data-gen/pass1_schema_unify.py: the schema at the top of the file, and what the counts count.
use aihomelab.Base.{
  String, Bool, true, false, ◌&&◌, not, none, some, List, [], ◌∷◌, ◌++◌, ℕ, suc, length, select,
  All, All-append, Bool-cases, inl, inr, ◌≡◌, refl, sym, ap, ◌∙◌, subst,
}
use aihomelab.Parsers.Fio.{null, string}
use aihomelab.DataGen.Unify.Extract.{
  ContentType, structured_recipe, narrative_recipe, recipe_context, UnifiedRow, Sections,
}
use aihomelab.DataGen.Unify.Run.{Counts, Output, holds_texts, suc_if, count_and_write}
use aihomelab.DataGen.Unify.Collected.{AllFilled}

abbrev pub is_recipe : ContentType → Bool
is_recipe structured_recipe = true
is_recipe _ = false

abbrev pub is_book : ContentType → Bool
is_book narrative_recipe = true
is_book _ = false

abbrev pub is_context : ContentType → Bool
is_context recipe_context = true
is_context _ = false

-- The counts after a row of some type
abbrev pub after_row : ContentType → (ingredients steps : Bool) → Counts → Counts
after_row type ingredients steps c = record {
  wikibooks = suc_if (is_recipe type) c.wikibooks;
  gutenberg = suc_if (is_book type) c.gutenberg;
  wikipedia_kept = suc_if (is_context type) c.wikipedia_kept;
  with_ingredients = suc_if ingredients c.with_ingredients;
  with_steps = suc_if steps c.with_steps;
  both_empty = suc_if (is_recipe type && (not ingredients && not steps)) c.both_empty;
}

module _ {F : Type 0} where
  -- The schema at the top of the file, by the content type of a row: its source, its license, and which
  -- members are null. No ingredient and no step is empty.
  abbrev pub Fits : ContentType → UnifiedRow F → Type 0
  Fits structured_recipe r =
      (r.source ≡ "wikibooks")
      × (r.license ≡ "CC-BY-SA-4.0")
      × (r.text ≡ null)
      × ((s : Sections) × (r.ingredients_raw ≡ some s.ingredient_texts)
          × (r.steps_raw ≡ some s.step_texts)
          × AllFilled s)
  Fits narrative_recipe r =
      (r.source ≡ "gutenberg")
      × (r.license ≡ "PD-US")
      × (r.ingredients_raw ≡ none)
      × (r.steps_raw ≡ none)
      × ((s : String) × (r.text ≡ string s))
  Fits recipe_context r =
      (r.source ≡ "wikipedia")
      × (r.license ≡ "CC-BY-SA-4.0")
      × (r.ingredients_raw ≡ none)
      × (r.steps_raw ≡ none)

  abbrev pub IsInSchema : UnifiedRow F → Type 0
  IsInSchema r = Fits r.content_type r

  abbrev pub is_bare : UnifiedRow F → Bool
  is_bare r =
      is_recipe r.content_type
      && (not (holds_texts r.ingredients_raw) && not (holds_texts r.steps_raw))

  abbrev pub number : (UnifiedRow F → Bool) → List (UnifiedRow F) → ℕ
  number test rows = length (select test rows)

  -- The counts, read off the rows
  abbrev pub IsTally : List (UnifiedRow F) → Counts → Type 0
  IsTally rows c =
      (c.wikibooks ≡ number (λ r. is_recipe r.content_type) rows)
      × (c.gutenberg ≡ number (λ r. is_book r.content_type) rows)
      × (c.wikipedia_kept ≡ number (λ r. is_context r.content_type) rows)
      × (c.with_ingredients ≡ number (λ r. holds_texts r.ingredients_raw) rows)
      × (c.with_steps ≡ number (λ r. holds_texts r.steps_raw) rows)
      × (c.both_empty ≡ number is_bare rows)

  abbrev pub IsOrderly : Output F → Type 0
  IsOrderly out = All IsInSchema out.rows × IsTally out.rows out.counts

  number-last :
      (test : UnifiedRow F → Bool) (rows : List (UnifiedRow F)) (row : UnifiedRow F)
      → suc_if (test row) (number test rows) ≡ number test (rows ++ row ∷ [])
  number-last test [] row = elim (Bool-cases (test row)) [
    | inl is ↦ rw is refl
    | inr other ↦ rw other refl
  ]
  number-last test (first ∷ rows) row = elim (Bool-cases (test first)) [
    | inl is ↦ rw is (shifted (test row) ∙ ap suc (number-last test rows row))
    | inr other ↦ rw other (number-last test rows row)
  ]
    where
      shifted : (b : Bool) → suc_if b (suc (number test rows)) ≡ suc (suc_if b (number test rows))
      shifted true = refl
      shifted false = refl

  counted :
      (test : UnifiedRow F → Bool) (rows : List (UnifiedRow F)) (row : UnifiedRow F) {n : ℕ}
      → n ≡ number test rows
      → suc_if (test row) n ≡ number test (rows ++ row ∷ [])
  counted test rows row before = ap (suc_if (test row)) before ∙ number-last test rows row

  after_row-IsTally :
      (row : UnifiedRow F) (out : Output F)
      → IsTally out.rows out.counts
      → IsTally (out.rows ++ row ∷ []) (
          after_row row.content_type
            (holds_texts row.ingredients_raw)
            (holds_texts row.steps_raw)
            out.counts)
  after_row-IsTally row out (c₁, c₂, c₃, c₄, c₅, c₆) = (
    counted (λ r. is_recipe r.content_type) out.rows row c₁,
    counted (λ r. is_book r.content_type) out.rows row c₂,
    counted (λ r. is_context r.content_type) out.rows row c₃,
    counted (λ r. holds_texts r.ingredients_raw) out.rows row c₄,
    counted (λ r. holds_texts r.steps_raw) out.rows row c₅,
    counted is_bare out.rows row c₆,
  )

  pub written-IsOrderly :
      (row : UnifiedRow F) (out : Output F) (count : Counts → Counts)
      → count out.counts
        ≡ after_row row.content_type
            (holds_texts row.ingredients_raw)
            (holds_texts row.steps_raw)
            out.counts
      → IsInSchema row
      → IsOrderly out
      → IsOrderly (count_and_write count row out)
  written-IsOrderly row out count same fits (a, tally) = (
    All-append IsInSchema out.rows (row ∷ []) a (fits, tt),
    subst (IsTally (out.rows ++ row ∷ [])) (sym same) (after_row-IsTally row out tally),
  )
