-- ===== src/Base/Raises.antt =====
-- Which exceptions leave a method: a test that each of them passes, with a rule for each way to build
-- a method.
use mathlib.Core.Path.{◌≡◌, refl}
use mathlib.Core.Bool.{Bool, true, false}
use aihomelab.Base.Tests.{if◌then◌else◌}
use aihomelab.Base.Attempt
use aihomelab.Base.Monad.{
  Error, Result, ok, raised, Py, pure, raise, lift, gets, modify, attempt, continue, ◌>>=◌,
}

pub record Raises {S A : Type 0} (passes : Error → Bool) (method : Py S A) : Type 0 where
  pub only : (s : S) (e : Error) → (method s).0 ≡ raised e → passes e ≡ true

module _ {S A : Type 0} (passes : Error → Bool) where
  pub Raises-returned : (f : S → A × S) → Raises passes (λ s. let (a, s') = f s in (ok a, s'))
  Raises-returned f = record { only = λ s e h. absurd cc }

  pub Raises-pure : (a : A) → Raises {S = S} passes (pure a)
  unfolding ◌>>=◌
  Raises-pure a = record { only = λ s e h. absurd cc }

  pub Raises-raise : (e : Error) → passes e ≡ true → Raises {S = S} {A = A} passes (raise e)
  unfolding ◌>>=◌
  Raises-raise e p = record { only = λ s e' h. cc }

  pub Raises-lift :
      (r : Result A)
      → ((e : Error) → r ≡ raised e → passes e ≡ true)
      → Raises {S = S} passes (lift r)
  unfolding ◌>>=◌
  Raises-lift r k = record { only = λ s e h. k e h }

  pub Raises-gets : (view : S → A) → Raises passes (gets view)
  unfolding ◌>>=◌
  Raises-gets view = record { only = λ s e h. absurd cc }

  pub Raises-if :
      (b : Bool) (m n : Py S A)
      → Raises passes m
      → Raises passes n
      → Raises passes (if b then m else n)
  Raises-if true m n km kn = km
  Raises-if false m n km kn = kn

  pub Raises-more :
      (fewer : Error → Bool) (m : Py S A)
      → ((e : Error) → fewer e ≡ true → passes e ≡ true)
      → Raises fewer m
      → Raises passes m
  Raises-more fewer m weaker k = record { only = λ s e h. weaker e (k.only s e h) }

module _ {S : Type 0} (passes : Error → Bool) where
  pub Raises-modify : (f : S → S) → Raises passes (modify f)
  unfolding ◌>>=◌
  Raises-modify f = record { only = λ s e h. absurd cc }

module _ {S A B : Type 0} (passes : Error → Bool) where
  pub Raises-bind :
      (m : Py S A) (f : A → Py S B)
      → Raises passes m
      → ((a : A) → Raises passes (f a))
      → Raises passes (m >>= f)
  unfolding ◌>>=◌
  Raises-bind m f km kf = record { only = λ s e h. go (m s).0 (m s).1 (km.only s) e h }
    where
      go :
          (r : Result A) (s' : S)
          → ((e : Error) → r ≡ raised e → passes e ≡ true)
          → (e : Error) → (continue r f s').0 ≡ raised e
          → passes e ≡ true
      go (ok a) s' k e h = (kf a).only s' e h
      go (raised e') s' k e h = k e cc

  -- `try: m` and its handler, which knows what `m` can raise.
  pub Raises-try :
      (caught : Error → Bool) (m : Py S A) (f : Result A → Py S B)
      → Raises caught m
      → ((a : A) → Raises passes (f (ok a)))
      → ((e : Error) → caught e ≡ true → Raises passes (f (raised e)))
      → Raises passes (attempt m >>= f)
  unfolding ◌>>=◌
  Raises-try caught m f km kf kh = record { only = λ s e h. go (m s).0 (m s).1 (km.only s) e h }
    where
      go :
          (r : Result A) (s' : S)
          → ((e : Error) → r ≡ raised e → caught e ≡ true)
          → (e : Error) → (f r s').0 ≡ raised e
          → passes e ≡ true
      go (ok a) s' k e h = (kf a).only s' e h
      go (raised e') s' k e h = (kh e' (k e' refl)).only s' e h

-- The same of a pure function.
pub record Fails {A : Type 0} (passes : Error → Bool) (outcome : Result A) : Type 0 where
  pub only : (e : Error) → outcome ≡ raised e → passes e ≡ true

module _ {A : Type 0} (passes : Error → Bool) where
  pub Fails-ok : (a : A) → Fails passes (ok a)
  Fails-ok a = record { only = λ e h. absurd cc }

  pub Fails-raised : (e : Error) → passes e ≡ true → Fails {A = A} passes (raised e)
  Fails-raised e p = record { only = λ e' h. cc }

  pub Fails-if :
      (b : Bool) (m n : Result A)
      → Fails passes m
      → Fails passes n
      → Fails passes (if b then m else n)
  Fails-if true m n km kn = km
  Fails-if false m n km kn = kn

module _ {A B : Type 0} (passes : Error → Bool) where
  pub Fails-bind :
      (r : Result A) (f : A → Result B)
      → Fails passes r
      → ((a : A) → Fails passes (f a))
      → Fails passes (Attempt.◌>>=◌ r f)
  Fails-bind (ok a) f kr kf = kf a
  Fails-bind (raised e) f kr kf = record { only = λ e' h. kr.only e' cc }
