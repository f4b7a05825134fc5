-- ===== src/Base/Dict.antt =====
-- Python's dict as its pairs, in the order in which the keys were first set.
use Prim.Native.Nat.{suc}
use mathlib.Core.Path.{◌≡◌, refl, sym, subst, ap, ◌∙◌}
use mathlib.Core.Bool.{Bool, true, false}
use mathlib.Core.Option.{Option, none, some}
use mathlib.Core.List.{List, [], ◌∷◌}
use mathlib.Core.Logic.{inl, inr, ite, ◌⊎◌}
use aihomelab.Base.Tests.{Eq, ◌==◌, if◌then◌else◌, Bool-cases}
use aihomelab.Base.Lists.{All, length}
use aihomelab.Base.Pairs.{Each}

module _ {ℓ} {A : Type ℓ} ⦃e : Eq A⦄ where
  pub same→≡ : {a b : A} → (a == b) ≡ true → a ≡ b
  same→≡ {a} {b} h = go (e.dec a b) h
    where
      go : (d : Dec (a ≡ b)) → ite d true false ≡ true → a ≡ b
      go (yes p) _ = p
      go (no n) q = absurd cc

module _ {ℓ} {A : Type ℓ} ⦃e : Eq A⦄ where
  pub same_refl : (a : A) → (a == a) ≡ true
  same_refl a = go (e.dec a a)
    where
      go : (d : Dec (a ≡ a)) → ite d true false ≡ true
      go (yes p) = refl
      go (no n) = absurd (n refl)

if-some {κ} :
    {C : Type κ} (b : Bool) {w v : C} {rest : Option C}
    → (if b then some w else rest) ≡ some v
    → ((b ≡ true) × (w ≡ v)) ⊎ ((b ≡ false) × (rest ≡ some v))
if-some true h = inl (refl, cc)
if-some false h = inr (refl, h)

module _ {ℓ κ} {A : Type ℓ} {B : Type κ} ⦃e : Eq A⦄ where
  unfoldable pub get : A → List (A × B) → Option B
  get k [] = none
  get k ((j, v) ∷ d) = let rest = get k d in if j == k then some v else rest

  unfoldable pub set : A → B → List (A × B) → List (A × B)
  set k v [] = (k, v) ∷ []
  set k v ((j, w) ∷ d) = let rest = set k v d in if j == k then (j, v) ∷ d else (j, w) ∷ rest

  pub get-nil : (k : A) → get k [] ≡ none
  unfolding get
  get-nil k = refl

  pub set-nil : (k : A) (v : B) → set k v [] ≡ (k, v) ∷ []
  unfolding set
  set-nil k v = refl

  pub get-same :
      (j k : A) (v : B) (d : List (A × B)) → (j == k) ≡ true → get k ((j, v) ∷ d) ≡ some v
  unfolding get
  get-same j k v d same = rw same refl

  pub get-other :
      (j k : A) (v : B) (d : List (A × B)) → (j == k) ≡ false → get k ((j, v) ∷ d) ≡ get k d
  unfolding get
  get-other j k v d other = rw other refl

  pub set-same :
      (j k : A) (v w : B) (d : List (A × B)) → (j == k) ≡ true → set k v ((j, w) ∷ d) ≡ (j, v) ∷ d
  unfolding set
  set-same j k v w d same = rw same refl

  pub set-other :
      (j k : A) (v w : B) (d : List (A × B))
      → (j == k) ≡ false
      → set k v ((j, w) ∷ d) ≡ (j, w) ∷ set k v d
  unfolding set
  set-other j k v w d other = rw other refl

  -- What holds of all pairs: `set` puts the new value under a key that `==` the one given.
  pub All-set {μ} :
      (P : A × B → Type μ) (k : A) (v : B) (d : List (A × B))
      → P (k, v)
      → All P d
      → All P (set k v d)
  unfolding set
  All-set P k v [] p a = (p, tt)
  All-set P k v ((j, w) ∷ d) p (q, a) = elim (Bool-cases (j == k)) [
    | inl same ↦ rw same ((subst (λ i. P (i, v)) (sym (same→≡ same)) p, a))
    | inr other ↦ rw other ((q, All-set P k v d p a))
  ]

  pub All-get {μ} :
      (P : A × B → Type μ) (k : A) {v : B} (d : List (A × B))
      → All P d
      → get k d ≡ some v
      → P (k, v)
  unfolding get
  All-get P k [] a found = absurd cc
  All-get P k ((j, w) ∷ d) (q, a) found = elim (if-some (j == k) found) [
    | inl (same, value) ↦ subst P (λ i. (same→≡ same i, value i)) q
    | inr (other, later) ↦ All-get P k d a later
  ]

  -- No two pairs with one key.
  abbrev pub Distinct : List (A × B) → Type 0
  Distinct d = Each (λ p q. (p.0 == q.0) ≡ false) d

  pub set-Distinct : (k : A) (v : B) (d : List (A × B)) → Distinct d → Distinct (set k v d)
  unfolding set
  set-Distinct k v [] s = (tt, tt)
  set-Distinct k v ((j, w) ∷ d) (a, s) = elim (Bool-cases (j == k)) [
    | inl same ↦ rw same ((a, s))
    | inr other ↦ rw other ((All-set (λ p. (j == p.0) ≡ false) k v d other a, set-Distinct k v d s))
  ]

  pub get-set : (k : A) (v : B) (d : List (A × B)) → get k (set k v d) ≡ some v
  get-set k v [] = rw (set-nil k v) (get-same k k v [] (same_refl k))
  get-set k v ((j, w) ∷ d) = elim (Bool-cases (j == k)) [
    | inl same ↦ rw (set-same j k v w d same) (get-same j k v d same)
    | inr other ↦
        rw (set-other j k v w d other) (rw (get-other j k w (set k v d) other) (get-set k v d))
  ]

  pub get-set_other :
      (k i : A) (v : B) (d : List (A × B)) → (k == i) ≡ false → get i (set k v d) ≡ get i d
  get-set_other k i v [] apart = rw (set-nil k v) (get-other k i v [] apart)
  get-set_other k i v ((j, w) ∷ d) apart = elim (Bool-cases (j == k)) [
    | inl same ↦
        let apart' : (j == i) ≡ false = subst (λ x. (x == i) ≡ false) (sym (same→≡ same)) apart in
        rw (set-same j k v w d same, get-other j i v d apart', get-other j i w d apart') refl
    | inr other ↦ rw (set-other j k v w d other) (elim (Bool-cases (j == i)) [
      | inl here ↦ rw (get-same j i w (set k v d) here, get-same j i w d here) refl
      | inr there ↦
          rw (get-other j i w (set k v d) there, get-other j i w d there)
            (get-set_other k i v d apart)
    ])
  ]

  -- A new key makes the dict longer by one pair, another does not.
  pub length-set_new :
      (k : A) (v : B) (d : List (A × B)) → get k d ≡ none → length (set k v d) ≡ suc (length d)
  length-set_new k v [] fresh = rw (set-nil k v) refl
  length-set_new k v ((j, w) ∷ d) fresh = elim (Bool-cases (j == k)) [
    | inl same ↦ let found = get-same j k w d same in absurd cc
    | inr other ↦
        rw (set-other j k v w d other)
          (ap suc (length-set_new k v d (sym (get-other j k w d other) ∙ fresh)))
  ]

  pub length-set_old :
      (k : A) (v w : B) (d : List (A × B)) → get k d ≡ some w → length (set k v d) ≡ length d
  length-set_old k v w [] old = let none_there = get-nil k in absurd cc
  length-set_old k v w ((j, x) ∷ d) old = elim (Bool-cases (j == k)) [
    | inl same ↦ rw (set-same j k v x d same) refl
    | inr other ↦
        rw (set-other j k v x d other)
          (ap suc (length-set_old k v w d (sym (get-other j k x d other) ∙ old)))
  ]
