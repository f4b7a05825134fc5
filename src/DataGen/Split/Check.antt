-- ===== src/DataGen/Split/Check.antt =====
-- data-gen/split_dataset.py: what the check for leakage finds in separate splits.
use aihomelab.Base.{
  Bool, true, false, Option, none, some, List, [], ◌∷◌, All, All-mono, Bool-cases, length, select,
  any, ltb, ◌==◌, ◌≡◌, refl, sym, ap, inl, inr, ◌||◌,
}
use aihomelab.Base.Int.{ℤ}
use aihomelab.Base.Dict
use aihomelab.Base.Dict.{same_refl, same→≡}
use aihomelab.DataGen.Rows.{ChatRow, int_eq}
use aihomelab.DataGen.Split.{
  SplitName, train, val, test, SplitRows, rows_of, add_name, mark_splits, leaked, split_name_eq,
}
use aihomelab.DataGen.Split.Groups.{Different}
use aihomelab.DataGen.Split.Leakage.{IsSeparate, ApartRows, flip_rows}

abbrev has_gid : ℤ → ChatRow → Bool
has_gid gid row = elim row.grounding_row_id [ none ↦ false | some g ↦ g == gid ]

abbrev Occurs : ℤ → List ChatRow → Type 0
Occurs gid rows = any (has_gid gid) rows ≡ true

-- An id that occurs in two lists of rows keeps them from being apart.
occurs_in_one :
    (gid : ℤ) (x : ChatRow) (ys : List ChatRow)
    → has_gid gid x ≡ true
    → All (Different x) ys
    → any (has_gid gid) ys ≡ false
occurs_in_one gid x [] h a = refl
occurs_in_one gid x (y ∷ ys) h (d, a) =
    rw (go x.grounding_row_id y.grounding_row_id h d) (occurs_in_one gid x ys h a)
  where
    go :
        (g h : Option ℤ)
        → elim g [ none ↦ false | some i ↦ i == gid ] ≡ true
        → elim g [ none ↦ false | some i ↦ elim h [ none ↦ false | some j ↦ i == j ] ] ≡ false
        → elim h [ none ↦ false | some i ↦ i == gid ] ≡ false
    go none h p q = absurd cc
    go (some i) none p q = refl
    go (some i) (some j) p q = elim (Bool-cases (j == gid)) [
      | inl same ↦
          let moved : (i == gid) ≡ (i == j) = ap (λ k. i == k) (sym (same→≡ same)) in absurd cc
      | inr differ ↦ differ
    ]

second : (a b : Bool) → a ≡ false → (a || b) ≡ true → b ≡ true
second false b h o = o
second true b h o = absurd cc

Occurs-Apart :
    (gid : ℤ) (xs ys : List ChatRow)
    → ApartRows xs ys
    → Occurs gid xs
    → any (has_gid gid) ys ≡ false
Occurs-Apart gid [] ys s o = absurd cc
Occurs-Apart gid (x ∷ xs) ys (a, s) o = elim (Bool-cases (has_gid gid x)) [
  | inl here ↦ occurs_in_one gid x ys here a
  | inr later ↦ Occurs-Apart gid xs ys s (second (has_gid gid x) _ later o)
]

separate :
    (splits : SplitRows) (m n : SplitName)
    → IsSeparate splits
    → (m == n) ≡ false
    → ApartRows (rows_of m splits) (rows_of n splits)
unfolding split_name_eq
separate splits train train s d = absurd cc
separate splits train val s d = s.train_val
separate splits train test s d = s.train_test
separate splits val train s d = flip_rows splits.train_rows splits.val_rows s.train_val
separate splits val val s d = absurd cc
separate splits val test s d = s.val_test
separate splits test train s d = flip_rows splits.train_rows splits.test_rows s.train_test
separate splits test val s d = flip_rows splits.val_rows splits.test_rows s.val_test
separate splits test test s d = absurd cc

-- A grounding id that is marked with one split, in which it occurs.
abbrev Once : SplitRows → ℤ × List SplitName → Type 0
Once splits (gid, names) = (n : SplitName) × (names ≡ n ∷ []) × Occurs gid (rows_of n splits)

add_name-Once :
    (splits : SplitRows) (name : SplitName) (gid : ℤ) (names : List SplitName)
    → IsSeparate splits
    → Occurs gid (rows_of name splits)
    → Once splits (gid, names)
    → Once splits (gid, add_name name names)
add_name-Once splits name gid names s here (n, e, there) = elim (Bool-cases (name == n)) [
  | inl same ↦ (n, rw (e, same) refl, there)
  | inr other ↦ let never = Occurs-Apart gid _ _ (separate splits name n s other) here in absurd cc
]

either : (a b : Bool) → b ≡ true → (a || b) ≡ true
either false b h = h
either true b h = refl

-- The row stands in the split, if it has a grounding id.
abbrev Stands : List ChatRow → ChatRow → Type 0
Stands rows row = (gid : ℤ) → row.grounding_row_id ≡ some gid → Occurs gid rows

mark_splits-Once :
    (splits : SplitRows) (name : SplitName) (rows : List ChatRow)
    (marks : List (ℤ × List SplitName))
    → IsSeparate splits
    → All (Stands (rows_of name splits)) rows
    → All (Once splits) marks
    → All (Once splits) (mark_splits name rows marks)
unfolding mark_splits
mark_splits-Once splits name [] marks s a m = m
mark_splits-Once splits name (row ∷ rows) marks s (here, a) m =
    mark_splits-Once splits name rows _ s a (go row.grounding_row_id here)
  where
    add :
        (gid : ℤ) (found : Option (List SplitName))
        → Occurs gid (rows_of name splits)
        → ((names : List SplitName) → found ≡ some names → Once splits (gid, names))
        → Once splits (gid, add_name name (elim found [ none ↦ [] | some names ↦ names ]))
    add gid none o k = (name, refl, o)
    add gid (some names) o k = add_name-Once splits name gid names s o (k names refl)

    go :
        (found : Option ℤ)
        → ((gid : ℤ) → found ≡ some gid → Occurs gid (rows_of name splits))
        → All (Once splits) (elim found [
          | none ↦ marks
          | some gid ↦
              Dict.set gid
                (add_name name (elim (Dict.get gid marks) [ none ↦ [] | some names ↦ names ]))
                marks
        ])
    go none k = m
    go (some gid) k =
        Dict.All-set (Once splits) gid _ marks
          (add gid (Dict.get gid marks) (k gid refl)
            (λ names e. Dict.All-get (Once splits) gid marks m e))
          m

all_stand : (rows : List ChatRow) → All (Stands rows) rows
all_stand [] = tt
all_stand (row ∷ rows) = (
  λ gid e. rw (e, same_refl gid) refl,
  All-mono _ _ rows (λ r k gid e. either (has_gid gid row) _ (k gid e)) (all_stand rows),
)

select-Once :
    (splits : SplitRows) (marks : List (ℤ × List SplitName))
    → All (Once splits) marks
    → select (λ mark. ltb 1 (length mark.1)) marks ≡ []
select-Once splits [] a = refl
select-Once splits ((gid, names) ∷ marks) ((n, e, o), a) = rw e (select-Once splits marks a)

-- The check for leakage finds nothing.
pub leaked-eq-nil : (splits : SplitRows) → IsSeparate splits → leaked splits ≡ []
unfolding leaked
leaked-eq-nil splits s = select-Once splits _ (
    mark_splits-Once splits test _ _ s (all_stand splits.test_rows) (
      mark_splits-Once splits val _ _ s (all_stand splits.val_rows)
        (mark_splits-Once splits train _ [] s (all_stand splits.train_rows) tt)))
