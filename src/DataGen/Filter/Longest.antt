-- ===== src/DataGen/Filter/Longest.antt =====
-- data-gen/filter_clean.py: what the removal of duplicates keeps.
use aihomelab.Base.{
  ℕ, suc, ◌+◌, ◌≤◌, String, true, Option, none, some, List, [], ◌∷◌, length, All, Bool-cases,
  Option-cases, is_some, ◌==◌, string_eq, ◌≡◌, refl, sym, ap, subst, ◌∙◌, inl, inr, arith, ltb,
}
use aihomelab.Base.Text.{text_length}
use aihomelab.Base.Dict
use aihomelab.Base.Dict.{same→≡}
use aihomelab.DataGen.Rows.{AnswerRow}
use aihomelab.DataGen.Leak.{answer_text}
use aihomelab.DataGen.Filter.{Deduped, resolve, keep_row, keep_by, dedup_row, dedup}

some-injective : {a b : String} → some a ≡ some b → a ≡ b
some-injective e = cc

module _ {F : Type 0} where
  abbrev pub answer_length : AnswerRow F → ℕ
  answer_length row = text_length (answer_text row)

  -- The row that stands under an id has an answer of at least that length.
  abbrev pub Best : String → ℕ → Deduped F → Type 0
  Best rid n d =
      (kept : AnswerRow F) × (Dict.get rid d.by_id ≡ some kept) × (n ≤ answer_length kept)

  resolve-longer :
      (existing row : AnswerRow F)
      → (answer_length existing ≤ answer_length (resolve existing row))
        × (answer_length row ≤ answer_length (resolve existing row))
  resolve-longer existing row =
      elim (Bool-cases (ltb (answer_length existing) (answer_length row))) [
        | inl longer ↦ rw longer (ground arith, ground arith)
        | inr other ↦ rw other (ground arith, ground arith)
      ]

  keep_row-Best :
      (rid : String) (row : AnswerRow F) (d : Deduped F)
      → Best rid (answer_length row) (keep_row rid row d)
  keep_row-Best rid row d = go (Dict.get rid d.by_id)
    where
      go :
          (found : Option (AnswerRow F))
          → Best rid (answer_length row) (elim found [
            | none ↦ record d { by_id = Dict.set rid row d.by_id }
            | some existing ↦ record {
              by_id = Dict.set rid (resolve existing row) d.by_id;
              n_collision = suc d.n_collision;
            }
          ])
      go none = (row, Dict.get-set rid row d.by_id, omega arith)
      go (some existing) =
          (resolve existing row, Dict.get-set rid _ d.by_id, (resolve-longer existing row).1)

  keep_row-still :
      (i rid : String) (n : ℕ) (row : AnswerRow F) (d : Deduped F)
      → Best i n d
      → Best i n (keep_row rid row d)
  keep_row-still i rid n row d (kept, found, enough) = go (Dict.get rid d.by_id) refl
    where
      go :
          (there : Option (AnswerRow F))
          → Dict.get rid d.by_id ≡ there
          → Best i n (elim there [
            | none ↦ record d { by_id = Dict.set rid row d.by_id }
            | some existing ↦ record {
              by_id = Dict.set rid (resolve existing row) d.by_id;
              n_collision = suc d.n_collision;
            }
          ])
      go none e = elim (Bool-cases (rid == i)) [
        | inl same ↦ let moved = ap (λ j. Dict.get j d.by_id) (same→≡ same) in absurd cc
        | inr other ↦ (kept, Dict.get-set_other rid i row d.by_id other ∙ found, enough)
      ]
      go (some existing) e = elim (Bool-cases (rid == i)) [
        | inl same ↦
            let moved = ap (λ j. Dict.get j d.by_id) (same→≡ same) in
            let one : existing ≡ kept = cc in
            (
              resolve existing row,
              subst
                  (λ j.
                    Dict.get j (Dict.set rid (resolve existing row) d.by_id)
                    ≡ some (resolve existing row))
                  (same→≡ same) (Dict.get-set rid _ d.by_id),
              omega (arith, enough, ap answer_length one, (resolve-longer existing row).0),
            )
        | inr other ↦ (kept, Dict.get-set_other rid i _ d.by_id other ∙ found, enough)
      ]

  -- The row has a request id.
  abbrev pub HasId : AnswerRow F → Type 0
  HasId row = is_some row.request_id ≡ true

  dedup_row-keep_row :
      (row : AnswerRow F) (d : Deduped F)
      → HasId row
      → (rid : String) × (row.request_id ≡ some rid) × (dedup_row row d ≡ keep_row rid row d)
  dedup_row-keep_row row d has = elim (Option-cases row.request_id) [
    | inl e ↦ let none_there = ap is_some e in absurd cc
    | inr (rid, e) ↦ (rid, e, ap (λ found. keep_by found row d) e)
  ]

  dedup-still :
      (i : String) (n : ℕ) (rows : List (AnswerRow F)) (d : Deduped F)
      → All HasId rows
      → Best i n d
      → Best i n (dedup rows d)
  unfolding dedup
  dedup-still i n [] d has best = best
  dedup-still i n (row ∷ rows) d (h, has) best =
      let (rid, e, same) = dedup_row-keep_row row d h in
      dedup-still i n rows (dedup_row row d) has
        (subst (Best i n) (sym same) (keep_row-still i rid n row d best))

  dedup-Best :
      (rows : List (AnswerRow F)) (d : Deduped F)
      → All HasId rows
      → All
          (λ row.
            (i : String) → row.request_id ≡ some i → Best i (answer_length row) (dedup rows d))
          rows
  unfolding dedup
  dedup-Best [] d has = tt
  dedup-Best (row ∷ rows) d (h, has) =
      let (rid, e, same) = dedup_row-keep_row row d h in
      (
        λ i e'. dedup-still i (answer_length row) rows (dedup_row row d) has (
            subst (Best i (answer_length row)) (sym same) (
              subst (λ j. Best j (answer_length row) (keep_row rid row d))
                (some-injective (sym e ∙ e')) (keep_row-Best rid row d))),
        dedup-Best rows (dedup_row row d) has,
      )

  abbrev count : Deduped F → ℕ
  count next = length next.by_id + next.n_collision

  keep_row-count :
      (rid : String) (row : AnswerRow F) (d : Deduped F)
      → length (keep_row rid row d).by_id + (keep_row rid row d).n_collision
        ≡ suc (length d.by_id + d.n_collision)
  keep_row-count rid row d = go (Dict.get rid d.by_id) refl
    where
      go :
          (there : Option (AnswerRow F))
          → Dict.get rid d.by_id ≡ there
          → count (elim there [
            | none ↦ record d { by_id = Dict.set rid row d.by_id }
            | some existing ↦ record {
              by_id = Dict.set rid (resolve existing row) d.by_id;
              n_collision = suc d.n_collision;
            }
          ])
            ≡ suc (count d)
      go none e = omega (arith, Dict.length-set_new rid row d.by_id e)
      go (some existing) e =
          omega (arith, Dict.length-set_old rid (resolve existing row) existing d.by_id e)

  dedup-count :
      (rows : List (AnswerRow F)) (d : Deduped F)
      → All HasId rows
      → length (dedup rows d).by_id + (dedup rows d).n_collision
        ≡ length rows + (length d.by_id + d.n_collision)
  unfolding dedup
  dedup-count [] d has = omega arith
  dedup-count (row ∷ rows) d (h, has) =
      let (rid, e, same) = dedup_row-keep_row row d h in
      let one = keep_row-count rid row d in
      let moved = ap (λ x. length x.by_id + x.n_collision) same in
      omega (arith, dedup-count rows (dedup_row row d) has, one, moved)

  -- Of rows that all have a request id: the row that is kept under the id of any of them has an
  -- answer at least as long as it, and the rows kept and the collisions are together as many as
  -- the rows.
  pub dedup-longest :
      (rows : List (AnswerRow F))
      → All HasId rows
      → let d = dedup rows (record { by_id = []; n_collision = 0 }) in
        All
          (λ row. (rid : String) → row.request_id ≡ some rid → Best rid (answer_length row) d)
          rows
        × (length d.by_id + d.n_collision ≡ length rows)
  dedup-longest rows has = (
    dedup-Best rows _ has,
    omega (arith, dedup-count rows (record { by_id = []; n_collision = 0 }) has),
  )
