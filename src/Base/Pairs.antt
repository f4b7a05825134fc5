-- ===== src/Base/Pairs.antt =====
-- A relation between each item of a list and every later one, and what a permutation keeps.
use mathlib.Core.Path.{refl, subst}
use mathlib.Core.Logic.{∥∥₁_elim}
use mathlib.Core.List.{List, [], ◌∷◌, ◌++◌, Perm, Permᴰ}
use mathlib.Core.Logic.{inl, inr}
use mathlib.Core.Bool.{Bool}
use aihomelab.Base.Tests.{Bool-cases}
use aihomelab.Base.Lists.{All, All-append, All-mono, All-select, select}

module _ {ℓ κ} {A : Type ℓ} (P : A → Type κ) where
  All-Permᴰ : {xs ys : List A} → Permᴰ xs ys → All P xs → All P ys
  All-Permᴰ Permᴰ.nil a = a
  All-Permᴰ (Permᴰ.cons e d) (p, a) = (subst P e p, All-Permᴰ d a)
  All-Permᴰ (Permᴰ.swap e f) (p, (q, a)) = (subst P f q, (subst P e p, a))
  All-Permᴰ (Permᴰ.trans d d') a = All-Permᴰ d' (All-Permᴰ d a)

  module _ (prop : (a : A) → IsProp (P a)) where
    pub All-prop : (xs : List A) → IsProp (All P xs)
    All-prop [] a b = refl
    All-prop (x ∷ xs) (p, a) (q, b) = λ i. (prop x p q i, All-prop xs a b i)

    pub All-perm : {xs ys : List A} → Perm xs ys → All P xs → All P ys
    All-perm {xs} {ys} same a = ∥∥₁_elim same (All-prop ys) (λ d. All-Permᴰ d a)

module _ {ℓ κ} {A : Type ℓ} (R : A → A → Type κ) where
  abbrev pub Each : List A → Type κ
  Each [] = Unit
  Each (x ∷ xs) = All (R x) xs × Each xs

  pub Each-select : (keep : A → Bool) (xs : List A) → Each xs → Each (select keep xs)
  Each-select keep [] s = tt
  Each-select keep (x ∷ xs) (a, s) = elim (Bool-cases (keep x)) [
    | inl kept ↦ rw kept ((All-select (R x) keep xs a, Each-select keep xs s))
    | inr left ↦ rw left (Each-select keep xs s)
  ]

  module _ (prop : (a b : A) → IsProp (R a b)) (symm : (a b : A) → R a b → R b a) where
    Each-Permᴰ : {xs ys : List A} → Permᴰ xs ys → Each xs → Each ys
    Each-Permᴰ Permᴰ.nil s = s
    Each-Permᴰ (Permᴰ.cons {l₂} e d) (a, s) =
        (subst (λ x. All (R x) l₂) e (All-Permᴰ _ d a), Each-Permᴰ d s)
    Each-Permᴰ (Permᴰ.swap {a = x} {b = y} {a' = y'} {l} e f) ((r, a), (b, s)) = (
      (subst (λ z. R y' z) e (subst (λ z. R z x) f (symm x y r)), subst (λ x. All (R x) l) f b),
      (subst (λ x. All (R x) l) e a, s),
    )
    Each-Permᴰ (Permᴰ.trans d d') s = Each-Permᴰ d' (Each-Permᴰ d s)

    Each-prop : (xs : List A) → IsProp (Each xs)
    Each-prop [] s t = refl
    Each-prop (x ∷ xs) (a, s) (b, t) = λ i. (All-prop (R x) (prop x) xs a b i, Each-prop xs s t i)

    pub Each-perm : {xs ys : List A} → Perm xs ys → Each xs → Each ys
    Each-perm {xs} {ys} same s = ∥∥₁_elim same (Each-prop ys) (λ d. Each-Permᴰ d s)

module _ {A B : Type 0} (R : A → B → Type 0) where
  -- Each item of one list and each of another.
  abbrev pub Apart : List A → List B → Type 0
  Apart xs ys = All (λ x. All (R x) ys) xs

  pub Apart-nil : (xs : List A) → Apart xs []
  Apart-nil [] = tt
  Apart-nil (x ∷ xs) = (tt, Apart-nil xs)

  pub Apart-cons :
      (xs : List A) (y : B) (ys : List B) → All (λ x. R x y) xs → Apart xs ys → Apart xs (y ∷ ys)
  Apart-cons [] y ys a s = tt
  Apart-cons (x ∷ xs) y ys (r, a) (b, s) = ((r, b), Apart-cons xs y ys a s)

  pub Apart-append :
      (xs : List A) (ys zs : List B) → Apart xs ys → Apart xs zs → Apart xs (ys ++ zs)
  Apart-append [] ys zs s t = tt
  Apart-append (x ∷ xs) ys zs (a, s) (b, t) =
      (All-append (R x) ys zs a b, Apart-append xs ys zs s t)

module _ {A B : Type 0} {R : A → B → Type 0} {S : B → A → Type 0}
    (flip : (a : A) (b : B) → R a b → S b a) where
  pub Apart-symm : (xs : List A) (ys : List B) → Apart R xs ys → Apart S ys xs
  Apart-symm [] ys s = Apart-nil S ys
  Apart-symm (x ∷ xs) ys (a, s) =
      Apart-cons S ys x xs (All-mono _ _ ys (flip x) a) (Apart-symm xs ys s)
