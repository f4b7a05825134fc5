-- ===== src/Base/Sorting.antt =====
-- The order of the rows that ORDER BY returns.
use mathlib.Core.Path.{◌≡◌}
use mathlib.Core.Bool.{Bool, true, false}
use mathlib.Core.Logic.{inl, inr}
use mathlib.Core.List.{List, [], ◌∷◌}
use aihomelab.Base.Tests.{if◌then◌else◌, Bool-cases}
use aihomelab.Base.Lists.{All, insert_by, order_by}

module _ {A : Type 0} (before : A → A → Bool) where
  module _ (P : A → Type 0) where
    pub All-insert_by : (x : A) (ys : List A) → P x → All P ys → All P (insert_by before x ys)
    unfolding insert_by
    All-insert_by x [] p a = (p, tt)
    All-insert_by x (y ∷ ys) p (q, a) = elim (Bool-cases (before x y)) [
      | inl first ↦ rw first (p, (q, a))
      | inr later ↦ rw later (q, All-insert_by x ys p a)
    ]

    pub All-order_by : (xs : List A) → All P xs → All P (order_by before xs)
    unfolding order_by
    All-order_by [] a = tt
    All-order_by (x ∷ xs) (p, a) = All-insert_by x (order_by before xs) p (All-order_by xs a)

    All-either :
        (b : Bool) (x y : A) (ys rest : List A)
        → (All P rest → P x × All P ys)
        → All P (if b then x ∷ y ∷ ys else y ∷ rest)
        → P x × P y × All P ys
    All-either true x y ys rest inner (p, (q, a)) = (p, q, a)
    All-either false x y ys rest inner (q, a) = let (p, a') = inner a in (p, q, a')

    insert_by-All : (x : A) (ys : List A) → All P (insert_by before x ys) → P x × All P ys
    unfolding insert_by
    insert_by-All x [] a = a
    insert_by-All x (y ∷ ys) a =
        let (p, q, a') =
          All-either (before x y) x y ys (insert_by before x ys) (insert_by-All x ys) a in
        (p, (q, a'))

    pub order_by-All : (xs : List A) → All P (order_by before xs) → All P xs
    unfolding order_by
    order_by-All [] a = tt
    order_by-All (x ∷ xs) a =
        let (p, rest) = insert_by-All x (order_by before xs) a in (p, order_by-All xs rest)

  -- No item must stand before an earlier one.
  abbrev pub Sorted : List A → Type 0
  Sorted [] = Unit
  Sorted (x ∷ xs) = All (λ y. before y x ≡ false) xs × Sorted xs

  module _ (asym : (x y : A) → before x y ≡ true → before y x ≡ false)
      (chain : (x y z : A) → before x y ≡ true → before z y ≡ false → before z x ≡ false) where
    All-chain :
        (x y : A) (zs : List A)
        → before x y ≡ true
        → All (λ z. before z y ≡ false) zs
        → All (λ z. before z x ≡ false) zs
    All-chain x y [] first a = tt
    All-chain x y (z ∷ zs) first (h, a) = (chain x y z first h, All-chain x y zs first a)

    insert_by-Sorted : (x : A) (ys : List A) → Sorted ys → Sorted (insert_by before x ys)
    unfolding insert_by
    insert_by-Sorted x [] s = (tt, tt)
    insert_by-Sorted x (y ∷ ys) (a, s) = elim (Bool-cases (before x y)) [
      | inl first ↦ rw first ((asym x y first, All-chain x y ys first a), (a, s))
      | inr later ↦
          rw later (All-insert_by (λ z. before z y ≡ false) x ys later a, insert_by-Sorted x ys s)
    ]

    pub order_by-Sorted : (xs : List A) → Sorted (order_by before xs)
    unfolding order_by
    order_by-Sorted [] = tt
    order_by-Sorted (x ∷ xs) = insert_by-Sorted x (order_by before xs) (order_by-Sorted xs)
