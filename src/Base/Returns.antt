-- ===== src/Base/Returns.antt =====
-- What a method did that returned.
use mathlib.Core.Path.{◌≡◌, refl, ap}
use aihomelab.Base.Monad.{Result, ok, raised, Py, continue, ◌>>=◌}
use aihomelab.Base.Attempt.{ok-injective}

pub Py-eq-ok :
    {S A B : Type 0} (first : Py S A) (next : A → Py S B) (s s' : S) {b : B}
    → (first >>= next) s ≡ (ok b, s')
    → (a : A) × (t : S) × (first s ≡ (ok a, t)) × (next a t ≡ (ok b, s'))
unfolding ◌>>=◌
Py-eq-ok {S} {A} {B} first next s s' {b} e = go (first s).0 (first s).1 refl e
  where
    go :
        (r : Result A) (t : S)
        → first s ≡ (r, t)
        → continue r next t ≡ (ok b, s')
        → (a : A) × (u : S) × (first s ≡ (ok a, u)) × (next a u ≡ (ok b, s'))
    go (ok a) t ran e = (a, t, ran, e)
    go (raised problem) t ran e = absurd cc

pub pure-eq-ok :
    {S A : Type 0} {a b : A} {s s' : S} → ◌≡◌ {A = Result A × S} (ok a, s) (ok b, s') → a ≡ b
pure-eq-ok e = ok-injective (ap (λ p. p.0) e)
