-- ===== src/DataGen/Split/Leakage.antt =====
-- data-gen/split_dataset.py: no grounding id comes into two splits.
use aihomelab.Base.{
  ℕ, false, Option, none, some, List, [], ◌∷◌, All, All-append, Bool-cases, ◌==◌, ◌≡◌, refl, sym,
  ap, inl, inr,
}
use aihomelab.Base.Int.{ℤ}
use aihomelab.Base.Dict.{same_refl, same→≡}
use aihomelab.Base.Pairs.{Each, Apart, Apart-append, Apart-symm}
use aihomelab.Floats.{Floats}
use aihomelab.DataGen.Rows.{ChatRow, int_eq}
use aihomelab.DataGen.Split.{
  Group, SplitName, train, val, test, SplitRows, extend, deficit, furthest_below, place,
  place_groups, split_name_eq,
}
use aihomelab.DataGen.Split.Groups.{Different}

Different-symm : (a b : ChatRow) → Different a b → Different b a
Different-symm a b d = go a.grounding_row_id b.grounding_row_id d
  where
    go :
        (g h : Option ℤ)
        → elim g [ none ↦ false | some x ↦ elim h [ none ↦ false | some y ↦ x == y ] ] ≡ false
        → elim h [ none ↦ false | some x ↦ elim g [ none ↦ false | some y ↦ x == y ] ] ≡ false
    go none none d = refl
    go none (some y) d = refl
    go (some x) none d = refl
    go (some x) (some y) d = elim (Bool-cases (y == x)) [
      | inl same ↦
          let moved : (x == x) ≡ (x == y) = ap (λ i. x == i) (sym (same→≡ same)) in
          let own = same_refl x in absurd cc
      | inr differ ↦ differ
    ]

abbrev pub ApartRows : List ChatRow → List ChatRow → Type 0
ApartRows xs ys = Apart Different xs ys

pub flip_rows : (xs ys : List ChatRow) → ApartRows xs ys → ApartRows ys xs
flip_rows xs ys s = Apart-symm Different-symm xs ys s

-- No grounding id is in two splits.
pub record IsSeparate (splits : SplitRows) : Type 0 where
  pub train_val : ApartRows splits.train_rows splits.val_rows
  pub train_test : ApartRows splits.train_rows splits.test_rows
  pub val_test : ApartRows splits.val_rows splits.test_rows

-- The rows of no split share a grounding id with the members of a group.
abbrev pub Clear : SplitRows → Group → Type 0
Clear splits group =
    ApartRows splits.train_rows group.1
    × ApartRows splits.val_rows group.1
    × ApartRows splits.test_rows group.1

abbrev ApartGroups : Group → Group → Type 0
ApartGroups p q = ApartRows p.1 q.1

extend-Clear :
    (name : SplitName) (group : Group) (splits : SplitRows) (rest : List Group)
    → All (Clear splits) rest
    → All (ApartGroups group) rest
    → All (Clear (extend name group.1 splits)) rest
extend-Clear name group splits [] c a = tt
extend-Clear train group splits (g ∷ rest) ((t, v, e), c) (d, a) =
    ((All-append _ splits.train_rows group.1 t d, v, e), extend-Clear train group splits rest c a)
extend-Clear val group splits (g ∷ rest) ((t, v, e), c) (d, a) =
    ((t, All-append _ splits.val_rows group.1 v d, e), extend-Clear val group splits rest c a)
extend-Clear test group splits (g ∷ rest) ((t, v, e), c) (d, a) =
    ((t, v, All-append _ splits.test_rows group.1 e d), extend-Clear test group splits rest c a)

extend-IsSeparate :
    (name : SplitName) (group : Group) (splits : SplitRows)
    → IsSeparate splits
    → Clear splits group
    → IsSeparate (extend name group.1 splits)
extend-IsSeparate train group splits s (t, v, e) = record {
  train_val =
      All-append _ splits.train_rows group.1 s.train_val (flip_rows splits.val_rows group.1 v);
  train_test =
      All-append _ splits.train_rows group.1 s.train_test (flip_rows splits.test_rows group.1 e);
  val_test = s.val_test;
}
extend-IsSeparate val group splits s (t, v, e) = record {
  train_val = Apart-append Different splits.train_rows splits.val_rows group.1 s.train_val t;
  train_test = s.train_test;
  val_test = All-append _ splits.val_rows group.1 s.val_test (flip_rows splits.test_rows group.1 e);
}
extend-IsSeparate test group splits s (t, v, e) = record {
  train_val = s.train_val;
  train_test = Apart-append Different splits.train_rows splits.test_rows group.1 s.train_test t;
  val_test = Apart-append Different splits.val_rows splits.test_rows group.1 s.val_test v;
}

module _ (fl : Floats) (targets : SplitName → fl.Float) (n : ℕ) where
  furthest_below-eq-some :
      (splits : SplitRows) (names : List SplitName) (best : SplitName × fl.Float)
      → (chosen : SplitName × fl.Float) × (furthest_below fl targets n splits names (some best)
          ≡ some chosen)
  unfolding furthest_below
  furthest_below-eq-some splits [] best = (best, refl)
  furthest_below-eq-some splits (name ∷ names) (chosen, most) =
      elim (Bool-cases (fl.lt most (deficit fl targets n splits name))) [
        | inl more ↦ rw more (furthest_below-eq-some splits names _)
        | inr less ↦ rw less (furthest_below-eq-some splits names _)
      ]

  first_furthest-eq-some :
      (splits : SplitRows)
      → (chosen : SplitName × fl.Float) × (furthest_below fl targets n splits
            (train ∷ val ∷ test ∷ [])
            none
          ≡ some chosen)
  unfolding furthest_below
  first_furthest-eq-some splits = furthest_below-eq-some splits (val ∷ test ∷ []) _

  -- A group goes into one of the splits.
  pub place-keeps :
      (P : SplitRows → Type 0) (members : List ChatRow) (splits : SplitRows)
      → ((name : SplitName) → P (extend name members splits))
      → P (place fl targets n members splits)
  place-keeps P members splits k =
      let (chosen, e) = first_furthest-eq-some splits in rw (place, e) (k chosen.0)

  pub place_groups-IsSeparate :
      (groups : List Group) (splits : SplitRows)
      → Each ApartGroups groups
      → All (Clear splits) groups
      → IsSeparate splits
      → IsSeparate (place_groups fl targets n groups splits)
  unfolding place_groups
  place_groups-IsSeparate [] splits each clear s = s
  place_groups-IsSeparate ((key, members) ∷ groups) splits (apart, each) (c, clear) s =
      let (s', clear') =
        place-keeps (λ next. IsSeparate next × All (Clear next) groups) members splits
          (λ name. (
            extend-IsSeparate name (key, members) splits s c,
            extend-Clear name (key, members) splits groups clear apart,
          )) in
      place_groups-IsSeparate groups (place fl targets n members splits) each clear' s'
