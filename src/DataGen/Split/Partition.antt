-- ===== src/DataGen/Split/Partition.antt =====
-- data-gen/split_dataset.py: the splits written are a partition of the rows.
use aihomelab.Base.{
  ℕ, suc, String, false, List, [], ◌∷◌, ◌++◌, All, length, order_by, order_by-perm, ◌==◌, string_eq,
  Bool-cases, ◌≡◌, refl, subst, inl, inr,
}
use mathlib.Core.List.{Perm, Permᴰ, append_assoc, append-nil, perm_middle, perm_append_comm}
use mathlib.Core.List.Perm
use mathlib.Core.Logic.{∥∥₁_elim, ∥∥₁_prop}
use aihomelab.Base.Int.{pos}
use aihomelab.Base.Dict
use aihomelab.Base.Dict.{same→≡}
use aihomelab.Floats.{Floats}
use aihomelab.DataGen.Rows.{ChatRow}
use aihomelab.DataGen.Split.{
  Group, SplitName, train, val, test, SplitRows, extend, members_of, group_key, build_groups,
  not_smaller, place_groups, place, Fractions, total, target, written, split_dataset,
}
use aihomelab.DataGen.Split.Groups.{groups-Different}
use aihomelab.DataGen.Split.Leakage.{IsSeparate, Clear, place-keeps, place_groups-IsSeparate}
use aihomelab.DataGen.Split.Check.{leaked-eq-nil}

abbrev pub all_rows : SplitRows → List ChatRow
all_rows splits = splits.train_rows ++ (splits.val_rows ++ splits.test_rows)

abbrev all_members : List Group → List ChatRow
all_members [] = []
all_members ((_, members) ∷ groups) = members ++ all_members groups

set-members :
    (key : String) (row : ChatRow) (groups : List Group)
    → Perm
        (all_members (Dict.set key (members_of key groups ++ row ∷ []) groups))
        (row ∷ all_members groups)
set-members key row [] =
    rw (members_of, Dict.get-nil {B = List ChatRow} key, Dict.set-nil key (row ∷ [])) (Perm.refl _)
set-members key row ((j, members) ∷ groups) = elim (Bool-cases (j == key)) [
  | inl same ↦
      rw
        (
          members_of,
          Dict.get-same j key members groups same,
          Dict.set-same j key _ members groups same,
        )
        (rw (append_assoc members (row ∷ []) (all_members groups))
          (perm_middle members (all_members groups)))
  | inr other ↦
      rw
        (
          members_of,
          Dict.get-other j key members groups other,
          Dict.set-other j key _ members groups other,
        )
        (Perm.trans (Perm.append_left members (set-members key row groups))
          (perm_middle members (all_members groups)))
]

rotate : (xs ys zs : List ChatRow) → Perm (xs ++ (ys ++ zs)) (ys ++ (xs ++ zs))
rotate xs ys zs =
    rw (← append_assoc xs ys zs, ← append_assoc ys xs zs)
      (Perm.append_right zs (perm_append_comm xs ys))

build_groups-members :
    (idx : ℕ) (rows : List ChatRow) (groups : List Group)
    → Perm (all_members (build_groups idx rows groups)) (rows ++ all_members groups)
unfolding build_groups
build_groups-members idx [] groups = Perm.refl _
build_groups-members idx (row ∷ rows) groups = Perm.trans (build_groups-members (suc idx) rows _) (
    Perm.trans (Perm.append_left rows (set-members (group_key row idx) row groups))
      (perm_middle rows (all_members groups)))

all_members-perm :
    (groups groups' : List Group)
    → Perm groups groups'
    → Perm (all_members groups) (all_members groups')
all_members-perm groups groups' same = ∥∥₁_elim same ∥∥₁_prop go
  where
    go : {gs gs' : List Group} → Permᴰ gs gs' → Perm (all_members gs) (all_members gs')
    go Permᴰ.nil = Perm.refl []
    go (Permᴰ.cons {a = x} e d) = rw⁻¹ e (Perm.append_left x.1 (go d))
    go (Permᴰ.swap {a = x} {b = y} {l} e f) = rw⁻¹ (e, f) (rotate x.1 y.1 (all_members l))
    go (Permᴰ.trans d d') = Perm.trans (go d) (go d')

extend-perm :
    (name : SplitName) (members : List ChatRow) (splits : SplitRows)
    → Perm (all_rows (extend name members splits)) (members ++ all_rows splits)
extend-perm train members splits =
    rw (append_assoc splits.train_rows members (splits.val_rows ++ splits.test_rows))
      (rotate splits.train_rows members (splits.val_rows ++ splits.test_rows))
extend-perm val members splits = rw (append_assoc splits.val_rows members splits.test_rows) (
    Perm.trans
      (Perm.append_left splits.train_rows (rotate splits.val_rows members splits.test_rows))
      (rotate splits.train_rows members (splits.val_rows ++ splits.test_rows)))
extend-perm test members splits =
    Perm.trans
      (Perm.append_left splits.train_rows (
        Perm.trans (Perm.append_left splits.val_rows (perm_append_comm splits.test_rows members))
          (rotate splits.val_rows members splits.test_rows)))
      (rotate splits.train_rows members (splits.val_rows ++ splits.test_rows))

Clear-first :
    (groups : List Group)
    → All (Clear (record { train_rows = []; val_rows = []; test_rows = [] })) groups
Clear-first [] = tt
Clear-first (group ∷ groups) = ((tt, tt, tt), Clear-first groups)

module _ (fl : Floats) where
  place_groups-perm :
      (targets : SplitName → fl.Float) (n : ℕ) (groups : List Group) (splits : SplitRows)
      → Perm
          (all_rows (place_groups fl targets n groups splits))
          (all_members groups ++ all_rows splits)
  unfolding place_groups
  place_groups-perm targets n [] splits = Perm.refl _
  place_groups-perm targets n ((key, members) ∷ groups) splits =
      let placed =
        place-keeps fl targets n (λ next. Perm (all_rows next) (members ++ all_rows splits)) members
          splits (λ name. extend-perm name members splits) in
      rw (append_assoc members (all_members groups) (all_rows splits)) (
        Perm.trans (place_groups-perm targets n groups (place fl targets n members splits)) (
          Perm.trans (Perm.append_left (all_members groups) placed)
            (rotate (all_members groups) members (all_rows splits))))

  -- If the shuffle permutes its list and the fractions do not add up to 0, a file with rows is
  -- split: the check for leakage passes, the rows of the three splits are those of the file, each as
  -- often as there, and no grounding id is in two splits.
  pub split_dataset-Partition :
      (shuffle : List Group → List Group)
      → ((groups : List Group) → Perm (shuffle groups) groups)
      → (fractions : Fractions fl) → fl.eq (total fl fractions) (fl.of_int (pos 0)) ≡ false
      → (first : ChatRow) (rest : List ChatRow)
      → (splits : SplitRows) × (split_dataset fl shuffle fractions (first ∷ rest) ≡ written splits)
        × Perm (all_rows splits) (first ∷ rest)
        × IsSeparate splits
  unfolding split_dataset
  split_dataset-Partition shuffle permutes fractions positive first rest =
      let rows : List ChatRow = first ∷ rest in
      let groups = order_by not_smaller (shuffle (build_groups 0 rows [])) in
      let none_yet : SplitRows = record { train_rows = []; val_rows = []; test_rows = [] } in
      let splits = place_groups fl (target fl fractions) (length rows) groups none_yet in
      let ordered : Perm groups (build_groups 0 rows []) =
        Perm.trans (order_by-perm not_smaller _) (permutes _) in
      let separate : IsSeparate splits =
        place_groups-IsSeparate fl (target fl fractions) (length rows) groups none_yet
          (groups-Different rows groups ordered) (Clear-first groups)
          (record { train_val = tt; train_test = tt; val_test = tt }) in
      let placed : Perm (all_rows splits) (all_members groups) =
        rw⁻¹ (append-nil (all_members groups))
          (place_groups-perm (target fl fractions) (length rows) groups none_yet) in
      let built : Perm (all_members (build_groups 0 rows [])) rows =
        subst (λ l. Perm (all_members (build_groups 0 rows [])) l) (append-nil rows)
          (build_groups-members 0 rows []) in
      (
        splits,
        rw (positive, leaked-eq-nil splits separate) refl,
        Perm.trans placed (Perm.trans (all_members-perm groups _ ordered) built),
        separate,
      )
