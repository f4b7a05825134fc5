-- ===== src/DataGen/Prompts/Adaptable.antt =====
-- data-gen/build_prompts.py: the rows that a placeholder of the template adaptation is filled from.
use aihomelab.Base.{
  ℕ, zero, suc, String, Bool, true, some, List, [], ◌∷◌, ◌++◌, length, select, All, All-select,
  length-append, Result, ok, lift, if◌then◌else◌, ◌==◌, string_eq, ◌≡◌, refl, sym, ap, ◌∙◌, subst,
  Bool-cases, inl, inr, arith,
}
use mathlib.Core.List.{append_assoc}
use aihomelab.Base.Attempt.{ok-injective}
use aihomelab.Base.Returns.{Py-eq-ok, pure-eq-ok}
use aihomelab.Floats.{Floats}
use aihomelab.Parsers.Fio.{Json, Members}
use aihomelab.DataGen.Prompts.Excerpt.{
  GroundingRow, has_content, is_tagged, filter_for_adaptation, short_grounding_excerpt,
}
use aihomelab.DataGen.Prompts.Topics.{dietary_directive}
use aihomelab.DataGen.Prompts.Fill.{
  Rng, Placeholders, Pools, Filled, item_at, pick, pool_for, value_of, fill_adaptation,
  fill_placeholders,
}
use aihomelab.DataGen.Prompts.Build.{numbered, pools_of}

module _ {A : Type 0} (P : A → Type 0) where
  All-item_at : (n : ℕ) (xs : List A) {a : A} → item_at n xs ≡ ok a → All P xs → P a
  All-item_at zero [] e a = absurd cc
  All-item_at (suc n) [] e a = absurd cc
  All-item_at zero (x ∷ xs) e (p, a) = subst P (ok-injective e) p
  All-item_at (suc n) (x ∷ xs) e (p, a) = All-item_at n xs e a

All-passed :
    {A : Type 0} (P : A → Type 0) (keep : A → Bool) (xs : List A)
    → All P xs
    → All (λ x. P x × (keep x ≡ true)) (select keep xs)
All-passed P keep [] a = tt
All-passed P keep (x ∷ xs) (p, a) = elim (Bool-cases (keep x)) [
  | inl kept ↦ rw kept ((p, kept), All-passed P keep xs a)
  | inr left ↦ rw left (All-passed P keep xs a)
]

item_at-append :
    {A : Type 0} (xs : List A) (y : A) (ys : List A) → item_at (length xs) (xs ++ y ∷ ys) ≡ ok y
item_at-append [] y ys = refl
item_at-append (x ∷ xs) y ys = item_at-append xs y ys

-- The tags of the recipes whose adaptation changes something
abbrev pub to_adapt : String → List String
to_adapt dietary =
    if dietary == "vegan" then "vegetarian" ∷ "non_vegetarian" ∷ [] else "non_vegetarian" ∷ []

module _ (fl : Floats) (str : Json fl.Float → String)
    (gc_rows sr_rows : List (Members fl.Float)) where
  -- A row of the file at its position
  abbrev pub IsRow : GroundingRow fl.Float → Type 0
  IsRow r = item_at r.orig_idx gc_rows ≡ ok r.members

  numbered-IsRow :
      (before rest : List (Members fl.Float))
      → before ++ rest ≡ gc_rows
      → All IsRow (numbered fl (length before) rest)
  numbered-IsRow before [] e = tt
  numbered-IsRow before (m ∷ rest) e =
      let counted = length-append before (m ∷ []) in
      let longer : length (before ++ m ∷ []) ≡ suc (length before) = omega (arith, counted) in
      (
        subst (λ l. item_at (length before) l ≡ ok m) e (item_at-append before m rest),
        subst (λ n. All IsRow (numbered fl n rest)) longer
            (numbered-IsRow (before ++ m ∷ []) rest (append_assoc before (m ∷ []) rest ∙ e)),
      )

  -- A row whose adaptation to a diet changes something
  abbrev pub IsAdaptable : String → GroundingRow fl.Float → Type 0
  IsAdaptable dietary r = IsRow r × (is_tagged fl str (to_adapt dietary) r ≡ true)

  rich : List (GroundingRow fl.Float)
  rich = select (has_content fl str) (numbered fl 0 gc_rows)

  rich-IsRow : All IsRow rich
  unfolding rich
  rich-IsRow =
      All-select IsRow (has_content fl str) (numbered fl 0 gc_rows) (numbered-IsRow [] gc_rows refl)

  abbrev pools : Pools fl.Float
  pools = pools_of fl str gc_rows sr_rows

  vegan-pool :
      All
        (λ r. IsRow r × (is_tagged fl str ("vegetarian" ∷ "non_vegetarian" ∷ []) r ≡ true))
        pools.adaptation_vegan
  unfolding pools_of filter_for_adaptation string_eq rich
  vegan-pool =
      All-passed IsRow (is_tagged fl str ("vegetarian" ∷ "non_vegetarian" ∷ [])) rich rich-IsRow

  vegetarian-pool :
      All
        (λ r. IsRow r × (is_tagged fl str ("non_vegetarian" ∷ []) r ≡ true))
        pools.adaptation_vegetarian
  unfolding pools_of filter_for_adaptation string_eq rich
  vegetarian-pool = All-passed IsRow (is_tagged fl str ("non_vegetarian" ∷ [])) rich rich-IsRow

  tagged-IsAdaptable :
      (dietary : String) (pool : List (GroundingRow fl.Float)) (tags : List String)
      → to_adapt dietary ≡ tags
      → All (λ r. IsRow r × (is_tagged fl str tags r ≡ true)) pool
      → All (IsAdaptable dietary) pool
  tagged-IsAdaptable dietary pool tags same a =
      subst (λ tags. All (λ r. IsRow r × (is_tagged fl str tags r ≡ true)) pool) (sym same) a

  module _ (rng : Rng fl.Float) (format : String → Placeholders → Result String) where
    pool-IsAdaptable :
        (dietary : String) {pool : List (GroundingRow fl.Float)}
        → pool_for fl rng str "adaptation_" dietary pools.adaptation_vegan
            pools.adaptation_vegetarian
          ≡ ok pool
        → All (IsAdaptable dietary) pool
    pool-IsAdaptable dietary e = elim (Bool-cases (dietary == "vegan")) [
      | inl vegan ↦ subst (All (IsAdaptable dietary)) (ok-injective (rw vegan at e)) (
          tagged-IsAdaptable dietary pools.adaptation_vegan ("vegetarian" ∷ "non_vegetarian" ∷ [])
            (rw vegan refl) vegan-pool)
      | inr other ↦ elim (Bool-cases (dietary == "vegetarian")) [
        | inl vegetarian ↦
            subst (All (IsAdaptable dietary)) (ok-injective (rw (other, vegetarian) at e)) (
              tagged-IsAdaptable dietary pools.adaptation_vegetarian ("non_vegetarian" ∷ [])
                (rw other refl) vegetarian-pool)
        | inr neither ↦ let never = (rw (other, neither) at e) in absurd cc
      ]
    ]

    fill_adaptation-row :
        (dietary : String) (s s' : rng.State) {filled : Filled fl rng str}
        → fill_adaptation fl rng str dietary pools s ≡ (ok filled, s')
        → (r : GroundingRow fl.Float) × (filled.1 ≡ some r) × IsAdaptable dietary r
    unfolding fill_adaptation pick
    fill_adaptation-row dietary s s' e =
        let (pool, t, found, e₁) =
          Py-eq-ok
            (lift (
              pool_for fl rng str "adaptation_" dietary pools.adaptation_vegan
                pools.adaptation_vegetarian))
            _ s s' e in
        let (row, u, picked, e₂) = Py-eq-ok (pick fl rng pool) _ t s' e₁ in
        let (excerpt, v, _, e₃) = Py-eq-ok (lift (short_grounding_excerpt fl str row)) _ u s' e₂ in
        let (directive, w, _, e₄) =
          Py-eq-ok (lift (value_of fl rng str dietary dietary_directive)) _ v s' e₃ in
        (
          row,
          sym (ap (λ f. f.1) (pure-eq-ok e₄)),
          All-item_at (IsAdaptable dietary) _ pool (ap (λ p. p.0) picked)
              (pool-IsAdaptable dietary (ap (λ p. p.0) found)),
        )

    pub fill_placeholders-row :
        (dietary : String) (s s' : rng.State) {filled : Filled fl rng str}
        → fill_placeholders fl rng str "adaptation" dietary pools s ≡ (ok filled, s')
        → (r : GroundingRow fl.Float) × (filled.1 ≡ some r) × IsAdaptable dietary r
    unfolding fill_placeholders string_eq
    fill_placeholders-row dietary s s' e = fill_adaptation-row dietary s s' e
