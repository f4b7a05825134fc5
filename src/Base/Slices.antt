-- ===== src/Base/Slices.antt =====
-- The first items of a list and the rest, and the items whose keys are not in a list of keys.
use Prim.Native.Nat.{ℕ, zero, suc, ◌+◌, ◌≤◌}
use mathlib.Core.Path.{◌≡◌, refl, sym, ap, ◌∙◌}
use mathlib.Core.Logic.{∥∥₁_elim}
use mathlib.Core.Bool.{Bool, true, false, not, ◌||◌}
use mathlib.Core.List.{List, [], ◌∷◌, ◌++◌, map, Perm, Permᴰ}
use native.Mathlib.Omega.{arith}
use aihomelab.Base.Tests.{Eq, ◌==◌, contains}
use aihomelab.Base.Lists.{All, length, select}
use aihomelab.Base.Pairs.{Each}
use aihomelab.Base.Dict.{same_refl}

pub map-append :
    {A B : Type 0} (f : A → B) (xs ys : List A) → map f (xs ++ ys) ≡ map f xs ++ map f ys
map-append f [] ys = refl
map-append f (x ∷ xs) ys = ap (λ l. f x ∷ l) (map-append f xs ys)

module _ {A : Type 0} where
  -- `xs[:n]` and `xs[n:]`
  abbrev pub take_items : ℕ → List A → List A
  take_items zero xs = []
  take_items (suc n) [] = []
  take_items (suc n) (x ∷ xs) = x ∷ take_items n xs

  abbrev pub drop_items : ℕ → List A → List A
  drop_items zero xs = xs
  drop_items (suc n) [] = []
  drop_items (suc n) (x ∷ xs) = drop_items n xs

  take_items-nil : (n : ℕ) → take_items n [] ≡ []
  take_items-nil zero = refl
  take_items-nil (suc n) = refl

  pub take_items-add :
      (m n : ℕ) (xs : List A)
      → take_items (m + n) xs ≡ take_items m xs ++ take_items n (drop_items m xs)
  take_items-add zero n xs = ap (λ j. take_items j xs) (omega arith)
  take_items-add (suc m) n [] = take_items-nil (suc m + n) ∙ sym (take_items-nil n)
  take_items-add (suc m) n (x ∷ xs) =
      let next : suc m + n ≡ suc (m + n) = omega arith in
      ap (λ j. take_items j (x ∷ xs)) next ∙ ap (λ l. x ∷ l) (take_items-add m n xs)

  pub take_items-all : (n : ℕ) (xs : List A) → length xs ≤ n → take_items n xs ≡ xs
  take_items-all zero [] short = refl
  take_items-all zero (x ∷ xs) short = absurd (omega (arith, short))
  take_items-all (suc n) [] short = refl
  take_items-all (suc n) (x ∷ xs) short =
      ap (λ l. x ∷ l) (take_items-all n xs (omega (arith, short)))

module _ {A : Type 0} (P : A → Type 0) where
  pub All-take_items : (n : ℕ) (xs : List A) → All P xs → All P (take_items n xs)
  All-take_items zero xs a = tt
  All-take_items (suc n) [] a = tt
  All-take_items (suc n) (x ∷ xs) (p, a) = (p, All-take_items n xs a)

or_swap : (a b c : Bool) → (a || (b || c)) ≡ (b || (a || c))
or_swap true true c = refl
or_swap true false c = refl
or_swap false b c = refl

module _ {A : Type 0} ⦃e : Eq A⦄ where
  contains-Permᴰ : (k : A) {xs ys : List A} → Permᴰ xs ys → contains k xs ≡ contains k ys
  contains-Permᴰ k Permᴰ.nil = refl
  contains-Permᴰ k (Permᴰ.cons p d) = λ i. (k == p i) || contains-Permᴰ k d i
  contains-Permᴰ k (Permᴰ.swap {a} {b} {l} p q) =
      or_swap (k == a) (k == b) (contains k l) ∙ λ i. (k == q i) || ((k == p i) || contains k l)
  contains-Permᴰ k (Permᴰ.trans d d') = contains-Permᴰ k d ∙ contains-Permᴰ k d'

  pub contains-Perm : (k : A) {xs ys : List A} → Perm xs ys → contains k xs ≡ contains k ys
  contains-Perm k same = ∥∥₁_elim same (hlevel) (contains-Permᴰ k)

module _ {A B : Type 0} ⦃e : Eq B⦄ (key : A → B) where
  -- The items whose keys are not there
  abbrev pub unkeyed : List B → List A → List A
  unkeyed keys xs = select (λ x. not (contains (key x) keys)) xs

  -- The keys of two items differ.
  abbrev pub Differ : A → A → Type 0
  Differ x y = (key y == key x) ≡ false

  pub unkeyed-Perm :
      {keys keys' : List B} (xs : List A) → Perm keys keys' → unkeyed keys xs ≡ unkeyed keys' xs
  unkeyed-Perm [] same = refl
  unkeyed-Perm (x ∷ xs) same = rw (contains-Perm (key x) same, unkeyed-Perm xs same) refl

  unkeyed-nil : (xs : List A) → unkeyed [] xs ≡ xs
  unkeyed-nil [] = refl
  unkeyed-nil (x ∷ xs) = ap (λ l. x ∷ l) (unkeyed-nil xs)

  -- A key that none of the items has
  unkeyed-cons :
      (x : A) (keys : List B) (xs : List A)
      → All (Differ x) xs
      → unkeyed (key x ∷ keys) xs ≡ unkeyed keys xs
  unkeyed-cons x keys [] differ = refl
  unkeyed-cons x keys (y ∷ ys) (d, differ) = rw (d, unkeyed-cons x keys ys differ) refl

  -- Without those of the first items, the rest is left.
  pub unkeyed-take_items :
      (n : ℕ) (xs : List A)
      → Each Differ xs
      → unkeyed (map key (take_items n xs)) xs ≡ drop_items n xs
  unkeyed-take_items zero xs each = unkeyed-nil xs
  unkeyed-take_items (suc n) [] each = refl
  unkeyed-take_items (suc n) (x ∷ xs) (differ, each) =
      rw (same_refl (key x), unkeyed-cons x (map key (take_items n xs)) xs differ)
        (unkeyed-take_items n xs each)
