-- ===== src/DataGen/Split.antt =====
-- data-gen/split_dataset.py: the rows of chat.jsonl in three splits, each group of rows with one
-- grounding id in one of them. `random.Random(seed).shuffle` is a parameter.
mod Groups
pub mod Leakage
mod Check
pub mod Partition
use aihomelab.Base.{
  ℕ, suc, String, ◌<>◌, Bool, true, false, not, Option, none, some, List, [], ◌∷◌, ◌++◌, length, Eq,
  ◌==◌, string_eq, nat_eq, if◌then◌else◌, leb, ltb, contains, select, order_by, ◌≡◌,
}
use aihomelab.Base.Int.{ℤ, pos}
use aihomelab.Base.Text.{show, show_ℕ}
use aihomelab.Base.Dict
use aihomelab.Floats.{Floats}
use aihomelab.DataGen.Rows.{ChatRow, int_eq}

-- The splits, and what each holds so far.
pub data SplitName : Type 0 where
  train val test : SplitName

split_name_dec : Discrete SplitName
split_name_dec = hlevel

instance unfoldable pub split_name_eq : Eq SplitName
unfolding split_name_dec
split_name_eq = record { dec = split_name_dec }

pub record SplitRows : Type 0 where
  pub train_rows : List ChatRow
  pub val_rows : List ChatRow
  pub test_rows : List ChatRow

abbrev pub rows_of : SplitName → SplitRows → List ChatRow
rows_of train splits = splits.train_rows
rows_of val splits = splits.val_rows
rows_of test splits = splits.test_rows

-- `split_rows[name].extend(members)`
abbrev pub extend : SplitName → List ChatRow → SplitRows → SplitRows
extend train members splits = record splits { train_rows = splits.train_rows ++ members }
extend val members splits = record splits { val_rows = splits.val_rows ++ members }
extend test members splits = record splits { test_rows = splits.test_rows ++ members }

-- The groups
abbrev pub Group : Type 0
Group = String × List ChatRow

unfoldable pub group_key : ChatRow → ℕ → String
group_key row idx = elim row.grounding_row_id [
  | none ↦ "__singleton_" <> show_ℕ idx
  | some gid ↦ "g" <> show gid
]

-- `groups[key]` of a `defaultdict(list)`
abbrev pub members_of : String → List Group → List ChatRow
members_of key groups = elim (Dict.get key groups) [ none ↦ [] | some members ↦ members ]

unfoldable pub build_groups : ℕ → List ChatRow → List Group → List Group
build_groups idx [] groups = groups
build_groups idx (row ∷ rows) groups =
    let key = group_key row idx in
    build_groups (suc idx) rows (Dict.set key (members_of key groups ++ row ∷ []) groups)

-- `sort(key=lambda kv: len(kv[1]), reverse=True)`, which keeps the order of groups of one size.
abbrev pub not_smaller : Group → Group → Bool
not_smaller a b = leb (length b.1) (length a.1)

-- The check for leakage: the splits in which each grounding id occurs
abbrev pub add_name : SplitName → List SplitName → List SplitName
add_name name names = if contains name names then names else names ++ name ∷ []

unfoldable pub mark_splits :
    SplitName → List ChatRow → List (ℤ × List SplitName) → List (ℤ × List SplitName)
mark_splits name [] marks = marks
mark_splits name (row ∷ rows) marks = mark_splits name rows (elim row.grounding_row_id [
  | none ↦ marks
  | some gid ↦
      Dict.set gid (add_name name (elim (Dict.get gid marks) [ none ↦ [] | some names ↦ names ]))
        marks
])

unfoldable pub leaked : SplitRows → List (ℤ × List SplitName)
unfolding mark_splits
leaked splits =
    select (λ mark. ltb 1 (length mark.1))
      (mark_splits test splits.test_rows
        (mark_splits val splits.val_rows (mark_splits train splits.train_rows [])))

-- How `main` ends: by `sys.exit`, by an exception, or with the rows of train.jsonl, val.jsonl and
-- test.jsonl.
pub data SplitOutcome : Type 0 where
  no_rows : SplitOutcome
  division_by_zero : SplitOutcome
  leakage : List (ℤ × List SplitName) → SplitOutcome
  written : SplitRows → SplitOutcome

module _ (fl : Floats) where
  -- `--train`, `--val` and `--test`
  pub record Fractions : Type 0 where
    pub train_fraction : fl.Float
    pub val_fraction : fl.Float
    pub test_fraction : fl.Float

  -- `sum(targets.values())`, which starts at 0
  abbrev pub total : Fractions → fl.Float
  total f =
      fl.add (fl.add (fl.add (fl.of_int (pos 0)) f.train_fraction) f.val_fraction) f.test_fraction

  abbrev pub target : Fractions → SplitName → fl.Float
  target f train = fl.div f.train_fraction (total f)
  target f val = fl.div f.val_fraction (total f)
  target f test = fl.div f.test_fraction (total f)

  module _ (targets : SplitName → fl.Float) (n : ℕ) where
    abbrev pub deficit : SplitRows → SplitName → fl.Float
    deficit splits name =
        fl.sub (fl.mul (targets name) (fl.of_int (pos n)))
          (fl.of_int (pos (length (rows_of name splits))))

    -- The loop over the names; `best` is None before the first of them.
    unfoldable pub furthest_below :
        SplitRows → List SplitName → Option (SplitName × fl.Float) → Option (SplitName × fl.Float)
    furthest_below splits [] best = best
    furthest_below splits (name ∷ names) best = furthest_below splits names (elim best [
      | none ↦ some (name, deficit splits name)
      | some (chosen, best_deficit) ↦
          if fl.lt best_deficit (deficit splits name)
          then some (name, deficit splits name)
          else some (chosen, best_deficit)
    ])

    -- Three names give a best one.
    abbrev pub place : List ChatRow → SplitRows → SplitRows
    place members splits = elim (furthest_below splits (train ∷ val ∷ test ∷ []) none) [
      | none ↦ splits
      | some (name, _) ↦ extend name members splits
    ]

    unfoldable pub place_groups : List Group → SplitRows → SplitRows
    place_groups [] splits = splits
    place_groups ((_, members) ∷ groups) splits = place_groups groups (place members splits)

  unfoldable pub split_dataset : (List Group → List Group) → Fractions → List ChatRow → SplitOutcome
  unfolding leaked build_groups place_groups order_by
  split_dataset shuffle fractions [] = no_rows
  split_dataset shuffle fractions (first ∷ rest) =
      let rows : List ChatRow = first ∷ rest in
      let groups = order_by not_smaller (shuffle (build_groups 0 rows [])) in
      let splits =
        place_groups (target fractions) (length rows) groups
          (record { train_rows = []; val_rows = []; test_rows = [] }) in
      if fl.eq (total fractions) (fl.of_int (pos 0))
      then division_by_zero
      else elim (leaked splits) [ [] ↦ written splits | leak ∷ leaks ↦ leakage (leak ∷ leaks) ]
