-- ===== src/DataGen/Split/Groups.antt =====
-- data-gen/split_dataset.py: the groups.
use aihomelab.Base.{
  ℕ, suc, String, ◌<>◌, Bool, true, false, Option, none, some, List, [], ◌∷◌, All, All-append,
  All-mono, Bool-cases, ◌==◌, string_eq, ◌≡◌, refl, sym, ap, inl, inr, ◌∙◌,
}
use mathlib.Core.List.{Perm}
use mathlib.Core.List.Perm
use aihomelab.Base.Int.{ℤ}
use aihomelab.Base.Text.{show, show_ℕ}
use aihomelab.Base.Dict
use aihomelab.Base.Dict.{same_refl, same→≡}
use aihomelab.Base.Pairs.{All-prop, All-perm, Each, Each-perm, Apart}
use aihomelab.DataGen.Rows.{ChatRow, int_eq}
use aihomelab.DataGen.Split.{Group, group_key, members_of, build_groups}

-- Whether two rows have one grounding id.
abbrev pub same_gid : ChatRow → ChatRow → Bool
same_gid a b = elim a.grounding_row_id [
  | none ↦ false
  | some g ↦ elim b.grounding_row_id [ none ↦ false | some h ↦ g == h ]
]

abbrev pub Different : ChatRow → ChatRow → Type 0
Different a b = same_gid a b ≡ false

-- A row with a grounding id stands under the key of that id.
abbrev has_key : String → Option ℤ → Bool
has_key key none = true
has_key key (some gid) = ("g" <> show gid) == key

abbrev Keyed : Group → Type 0
Keyed group = All (λ row. has_key group.0 row.grounding_row_id ≡ true) group.1

group_key-has_key :
    (row : ChatRow) (idx : ℕ) → has_key (group_key row idx) row.grounding_row_id ≡ true
unfolding group_key
group_key-has_key row idx = go row.grounding_row_id
  where
    go :
        (gid : Option ℤ)
        → has_key (elim gid [ none ↦ "__singleton_" <> show_ℕ idx | some g ↦ "g" <> show g ]) gid
          ≡ true
    go none = refl
    go (some g) = same_refl ("g" <> show g)

members_of-Keyed :
    (key : String) (groups : List Group) → All Keyed groups → Keyed (key, members_of key groups)
members_of-Keyed key groups a =
    go (Dict.get key groups) (λ members e. Dict.All-get Keyed key groups a e)
  where
    go :
        (found : Option (List ChatRow))
        → ((members : List ChatRow) → found ≡ some members → Keyed (key, members))
        → Keyed (key, elim found [ none ↦ [] | some members ↦ members ])
    go none k = tt
    go (some members) k = k members refl

build_groups-Keyed :
    (idx : ℕ) (rows : List ChatRow) (groups : List Group)
    → All Keyed groups
    → All Keyed (build_groups idx rows groups)
unfolding build_groups
build_groups-Keyed idx [] groups a = a
build_groups-Keyed idx (row ∷ rows) groups a =
    let key = group_key row idx in
    build_groups-Keyed (suc idx) rows _ (
      Dict.All-set Keyed key _ groups
        (All-append _ (members_of key groups) (row ∷ []) (members_of-Keyed key groups a)
          (group_key-has_key row idx, tt))
        a)

build_groups-Distinct :
    (idx : ℕ) (rows : List ChatRow) (groups : List Group)
    → Dict.Distinct groups
    → Dict.Distinct (build_groups idx rows groups)
unfolding build_groups
build_groups-Distinct idx [] groups d = d
build_groups-Distinct idx (row ∷ rows) groups d =
    build_groups-Distinct (suc idx) rows _ (Dict.set-Distinct _ _ groups d)

-- Rows of groups with different keys
Different-keys :
    (j k : String) (x y : ChatRow)
    → (j == k) ≡ false
    → has_key j x.grounding_row_id ≡ true
    → has_key k y.grounding_row_id ≡ true
    → Different x y
Different-keys j k x y other hx hy = go x.grounding_row_id y.grounding_row_id hx hy
  where
    go :
        (g h : Option ℤ)
        → has_key j g ≡ true
        → has_key k h ≡ true
        → elim g [ none ↦ false | some a ↦ elim h [ none ↦ false | some b ↦ a == b ] ] ≡ false
    go none h hg hh = refl
    go (some a) none hg hh = refl
    go (some a) (some b) hg hh = elim (Bool-cases (a == b)) [
      | inl same ↦
          let one : j ≡ k = sym (same→≡ hg) ∙ (ap (λ i. "g" <> show i) (same→≡ same) ∙ same→≡ hh) in
          let moved : (j == j) ≡ (j == k) = ap (λ i. j == i) one in
          let own = same_refl j in absurd cc
      | inr differ ↦ differ
    ]

Apart-keys : (p q : Group) → (p.0 == q.0) ≡ false → Keyed p → Keyed q → Apart Different p.1 q.1
Apart-keys (j, xs) (k, ys) other a b =
    All-mono _ _ xs (λ x hx. All-mono _ _ ys (λ y hy. Different-keys j k x y other hx hy) b) a

Each-Different :
    (groups : List Group)
    → Dict.Distinct groups
    → All Keyed groups
    → Each (λ p q. Apart Different p.1 q.1) groups
Each-Different [] d a = tt
Each-Different (p ∷ groups) (o, d) (h, a) = (go groups o a, Each-Different groups d a)
  where
    go :
        (rest : List Group)
        → All (λ q. (p.0 == q.0) ≡ false) rest
        → All Keyed rest
        → All (λ q. Apart Different p.1 q.1) rest
    go [] o a = tt
    go (q ∷ rest) (d, o) (k, a) = (Apart-keys p q d h k, go rest o a)

bool_prop : (x y : Bool) → IsProp (x ≡ y)
bool_prop x y = hlevel

same_symm : (j k : String) → (j == k) ≡ false → (k == j) ≡ false
same_symm j k other = elim (Bool-cases (k == j)) [
  | inl same ↦
      let moved : (j == j) ≡ (j == k) = ap (λ i. j == i) (sym (same→≡ same)) in
      let own = same_refl j in absurd cc
  | inr differ ↦ differ
]

-- Whatever order they come in, no two groups have rows with one grounding id.
pub groups-Different :
    (rows : List ChatRow) (groups : List Group)
    → Perm groups (build_groups 0 rows [])
    → Each (λ p q. Apart Different p.1 q.1) groups
groups-Different rows groups same =
    let back = Perm.symm same in
    Each-Different groups
      (Each-perm (λ p q. (p.0 == q.0) ≡ false) (λ p q. bool_prop _ _) (λ p q. same_symm p.0 q.0)
        back (build_groups-Distinct 0 rows [] tt))
      (All-perm Keyed (λ g. All-prop _ (λ row. bool_prop _ _) g.1) back
        (build_groups-Keyed 0 rows [] tt))
