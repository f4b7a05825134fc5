-- ===== src/DataGen/Filter/Clean.antt =====
-- data-gen/filter_clean.py: what holds of each row that is written.
use aihomelab.Base.{
  ℕ, ◌-◌, ◌&&◌, nat_eq, String, true, false, Option, List, [], ◌∷◌, map, length, select, All,
  All-select, ◌==◌, string_eq, ◌≡◌, sym, subst, ltb,
}
use aihomelab.Base.Pairs.{Each, Each-select}
use aihomelab.Floats.{Floats}
use aihomelab.DataGen.Rows.{AnswerRow}
use aihomelab.DataGen.Lines.{
  finished, >>=-eq-finished, pool, exit_if-eq-finished, finished-injective,
}
use aihomelab.DataGen.Leak.{Regex}
use aihomelab.DataGen.Filter.{
  is_clean, dedup, is_valid, FilterArgs, all_valid_ids, drop_frac, validity_filter, flag, values,
  filter_clean,
}
use aihomelab.DataGen.Filter.Distinct.{
  IsClean, OtherId, dedup-Good, values-OtherId, values-IsClean, select-All,
}

module _ (fl : Floats) (re : Regex) (file : String → Option (List String))
    (decode : String → Option (AnswerRow fl.Float)) where
  -- With prompt files, one of them asks for each row, and not too many of the rows are lost for that.
  abbrev pub Asked :
      fl.Float → List String → List (AnswerRow fl.Float) → List (AnswerRow fl.Float) → Type 0
  Asked max_drop_frac [] deduped kept = Unit
  Asked max_drop_frac (path ∷ paths) deduped kept =
      (valid : List String) × (all_valid_ids fl re file decode (path ∷ paths) ≡ finished valid)
      × All (λ row. is_valid valid row ≡ true) kept
      × (fl.lt max_drop_frac
            (drop_frac fl re file decode (length deduped - length kept) (length deduped))
          ≡ false)

  validity_filter-eq-finished :
      (max_drop_frac : fl.Float) (valid_ids : List String)
      (deduped kept : List (AnswerRow fl.Float))
      → validity_filter fl re file decode max_drop_frac valid_ids deduped ≡ finished kept
      → All IsClean deduped
      → Each OtherId deduped
      → All IsClean kept × Each OtherId kept × Asked max_drop_frac valid_ids deduped kept
  unfolding validity_filter
  validity_filter-eq-finished max_drop_frac [] deduped kept e clean other =
      subst (λ rows. All IsClean rows × Each OtherId rows × Unit) (finished-injective e)
        (clean, other, tt)
  validity_filter-eq-finished max_drop_frac (path ∷ paths) deduped kept e clean other =
      let (valid, loaded, e₁) =
        >>=-eq-finished (all_valid_ids fl re file decode (path ∷ paths)) _ e in
      let (nonempty, e₂) = exit_if-eq-finished (length valid == 0) _ _ e₁ in
      let (few, e₃) =
        exit_if-eq-finished
          (fl.lt max_drop_frac (
            drop_frac fl re file decode (length deduped - length (select (is_valid valid) deduped))
              (length deduped)))
          _ _ e₂ in
      subst
        (λ rows.
          All IsClean rows × Each OtherId rows × Asked max_drop_frac (path ∷ paths) deduped rows)
        (finished-injective e₃)
        (
          All-select IsClean (is_valid valid) deduped clean,
          Each-select OtherId (is_valid valid) deduped other,
          (valid, loaded, select-All (is_valid valid) deduped, few),
        )

  map-flag-All :
      (rows : List (AnswerRow fl.Float))
      → All IsClean rows
      → All IsClean (map (flag fl re file decode) rows)
  unfolding is_clean
  map-flag-All [] a = tt
  map-flag-All (row ∷ rows) (c, a) = (c, map-flag-All rows a)

  map-flag-OtherId :
      (row : AnswerRow fl.Float) (rows : List (AnswerRow fl.Float))
      → All (OtherId row) rows
      → All (OtherId (flag fl re file decode row)) (map (flag fl re file decode) rows)
  map-flag-OtherId row [] a = tt
  map-flag-OtherId row (other ∷ rows) (o, a) = (o, map-flag-OtherId row rows a)

  map-flag-Each :
      (rows : List (AnswerRow fl.Float))
      → Each OtherId rows
      → Each OtherId (map (flag fl re file decode) rows)
  map-flag-Each [] e = tt
  map-flag-Each (row ∷ rows) (o, e) = (map-flag-OtherId row rows o, map-flag-Each rows e)

  -- The deduplicated rows that are kept: all of them without prompt files, else those with a valid id.
  abbrev pub IsKept : List String → List (AnswerRow fl.Float) → List (AnswerRow fl.Float) → Type 0
  IsKept [] deduped kept = kept ≡ deduped
  IsKept (path ∷ paths) deduped kept =
      (valid : List String) × (all_valid_ids fl re file decode (path ∷ paths) ≡ finished valid)
      × (kept ≡ select (is_valid valid) deduped)

  validity_filter-IsKept :
      (max_drop_frac : fl.Float) (valid_ids : List String)
      (deduped kept : List (AnswerRow fl.Float))
      → validity_filter fl re file decode max_drop_frac valid_ids deduped ≡ finished kept
      → IsKept valid_ids deduped kept
  unfolding validity_filter
  validity_filter-IsKept max_drop_frac [] deduped kept e = sym (finished-injective e)
  validity_filter-IsKept max_drop_frac (path ∷ paths) deduped kept e =
      let (valid, loaded, e₁) =
        >>=-eq-finished (all_valid_ids fl re file decode (path ∷ paths)) _ e in
      let (nonempty, e₂) = exit_if-eq-finished (length valid == 0) _ _ e₁ in
      let (few, e₃) =
        exit_if-eq-finished
          (fl.lt max_drop_frac (
            drop_frac fl re file decode (length deduped - length (select (is_valid valid) deduped))
              (length deduped)))
          _ _ e₂ in
      (valid, loaded, sym (finished-injective e₃))

  -- The clean rows of the inputs, one for each request id
  abbrev pub deduped_of : List (AnswerRow fl.Float) → List (AnswerRow fl.Float)
  deduped_of pooled =
      values fl re file decode
        (dedup (select is_clean pooled) (record { by_id = []; n_collision = 0 })).by_id

  -- If a dataset is written, each row of it is clean, no two of them have one request id, and they are
  -- the deduplicated rows that are kept, with the flag set: all of these rows without prompt files,
  -- else those whose request id one of the files has, and then the share of the rows lost for that is
  -- not above the limit.
  pub filter_clean-eq-finished :
      (args : FilterArgs fl re file decode) (out : List (AnswerRow fl.Float))
      → filter_clean fl re file decode args ≡ finished out
      → All IsClean out
        × Each OtherId out
        × ((pooled kept : List (AnswerRow fl.Float)) × (n_malformed : ℕ) × (pool file decode
                args.inputs
              ≡ finished (pooled, n_malformed))
            × (out ≡ map (flag fl re file decode) kept)
            × IsKept args.valid_ids (deduped_of pooled) kept
            × Asked args.max_drop_frac args.valid_ids (deduped_of pooled) kept)
  unfolding filter_clean
  filter_clean-eq-finished args out e =
      let ((pooled, n_malformed), read, e₁) = >>=-eq-finished (pool file decode args.inputs) _ e in
      let (strict_ok, e₂) = exit_if-eq-finished (args.strict && ltb 0 n_malformed) _ _ e₁ in
      let (kept, asked, e₃) =
        >>=-eq-finished
          (validity_filter fl re file decode args.max_drop_frac args.valid_ids (deduped_of pooled))
          _ e₂ in
      let (good, distinct) =
        dedup-Good (select is_clean pooled) (record { by_id = []; n_collision = 0 })
          (select-All is_clean pooled) tt tt in
      let (clean, other, a) =
        validity_filter-eq-finished args.max_drop_frac args.valid_ids (deduped_of pooled) kept asked
          (values-IsClean _ good) (values-OtherId _ distinct good) in
      (
        subst (All IsClean) (finished-injective e₃) (map-flag-All kept clean),
        subst (Each OtherId) (finished-injective e₃) (map-flag-Each kept other),
        (
          pooled,
          kept,
          n_malformed,
          read,
          sym (finished-injective e₃),
          validity_filter-IsKept args.max_drop_frac args.valid_ids (deduped_of pooled) kept asked,
          a,
        ),
      )
