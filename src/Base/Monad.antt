-- ===== src/Base/Monad.antt =====
-- Python methods that change a state and may raise. What was done before a raise stays done, so the
-- state comes back beside the exception too.
use mathlib.Core.Path.{◌≡◌, refl}
use mathlib.Core.List.{List, [], ◌∷◌}
use Prim.Native.String.{String}
use aihomelab.Base.Int.{ℤ}
use Prim.Native.Nat.{ℕ}
use mathlib.Core.Bool.{Bool, true, false}
use aihomelab.Base.Tests.{if◌then◌else◌}

-- harness/ssh.py: `RemoteResult`. Durations are in nanoseconds.
pub record RemoteResult : Type 0 where
  pub node : String
  pub command : String
  pub exit_code : ℤ
  pub stdout : String
  pub stderr : String
  pub duration : ℕ
  pub dry_run : Bool

-- The exceptions that the harness raises, catches or lets pass.
pub data Error : Type 0 where
  value_error overflow_error validation_error file_not_found runtime_error type_error key_error
        attribute_error unicode_error index_error integrity_error operational_error os_error :
      String → Error
  stop_iteration : Error
  remote_error : RemoteResult → Error

pub data Result {ℓ} (A : Type ℓ) : Type ℓ where
  ok : A → Result A
  raised : Error → Result A

abbrev pub Py : Type 0 → Type 0 → Type 0
Py S A = S → Result A × S

module _ {S A : Type 0} where
  pub pure : A → Py S A
  pure a s = (ok a, s)

  pub raise : Error → Py S A
  raise e s = (raised e, s)

  -- A pure function that may raise, called in a method.
  pub lift : Result A → Py S A
  lift r s = (r, s)

  pub gets : (S → A) → Py S A
  gets f s = (ok (f s), s)

  -- `try: m`: the handler is what the caller does with the outcome.
  pub attempt : Py S A → Py S (Result A)
  attempt m s = let (r, s') = m s in (ok r, s')

pub modify : {S : Type 0} → (S → S) → Py S (Unit {0})
modify f s = (ok tt, f s)

module _ {S A B : Type 0} where
  abbrev pub continue : Result A → (A → Py S B) → Py S B
  continue (ok a) f s = f a s
  continue (raised e) f s = (raised e, s)

  infixl 10 ◌>>=◌ ◌>>◌
  -- Opening this opens the other ways to build a method.
  unfoldable pub ◌>>=◌ : Py S A → (A → Py S B) → Py S B
  unfolding pure raise lift gets attempt modify
  ◌>>=◌ m f s = let (r, s') = m s in continue r f s'

  abbrev pub ◌>>◌ : Py S A → Py S B → Py S B
  m >> n = m >>= λ _. n

-- `if b: m`
unfoldable pub when : {S : Type 0} → Bool → Py S (Unit {0}) → Py S (Unit {0})
unfolding pure
when true m = m
when false m = pure tt

-- `for x in xs: body(x)`
unfoldable pub for_each : {S A : Type 0} → List A → (A → Py S (Unit {0})) → Py S (Unit {0})
unfolding ◌>>=◌
for_each [] body = pure tt
for_each (x ∷ xs) body = body x >> for_each xs body

-- `P` holds after the method if it held before, whether the method returns or raises.
pub record Keeps {S A : Type 0} (P : S → Type 0) (method : Py S A) : Type 0 where
  pub at : (before : S) → P before → P (method before).1

module _ {S A : Type 0} {P : S → Type 0} where
  pub Keeps-attempt : (body : Py S A) → Keeps P body → Keeps P (attempt body)
  unfolding attempt
  Keeps-attempt body kept = record { at = λ s p. kept.at s p }

  pub Keeps-if :
      (test : Bool) (yes_branch no_branch : Py S A)
      → Keeps P yes_branch
      → Keeps P no_branch
      → Keeps P (if test then yes_branch else no_branch)
  Keeps-if false yes_branch no_branch kept_yes kept_no = kept_no
  Keeps-if true yes_branch no_branch kept_yes kept_no = kept_yes

  -- The methods that leave the state alone.
  pub Keeps-gets : (view : S → A) → Keeps P (gets view)
  unfolding gets
  Keeps-gets view = record { at = λ _ p. p }

  pub Keeps-lift : (outcome : Result A) → Keeps P (lift outcome)
  unfolding lift
  Keeps-lift outcome = record { at = λ _ p. p }

  pub Keeps-pure : (value : A) → Keeps P (pure value)
  unfolding pure
  Keeps-pure value = record { at = λ _ p. p }

  pub Keeps-raise : (problem : Error) → Keeps P (raise {A = A} problem)
  unfolding raise
  Keeps-raise problem = record { at = λ _ p. p }

module _ {S : Type 0} {P : S → Type 0} where
  pub Keeps-modify : (f : S → S) → ((s : S) → P s → P (f s)) → Keeps P (modify f)
  unfolding modify
  Keeps-modify f k = record { at = k }

  pub Keeps-when : (b : Bool) (m : Py S (Unit {0})) → Keeps P m → Keeps P (when b m)
  unfolding when
  Keeps-when true m km = km
  Keeps-when false m km = Keeps-pure tt

module _ {S A B : Type 0} {P : S → Type 0} where
  Keeps-continue :
      (r : Result A) (f : A → Py S B)
      → ((a : A) → Keeps P (f a))
      → (s : S) → P s
      → P (continue r f s).1
  Keeps-continue (ok a) f kf s p = (kf a).at s p
  Keeps-continue (raised e) f kf s p = p

  pub Keeps-bind :
      (m : Py S A) (f : A → Py S B) → Keeps P m → ((a : A) → Keeps P (f a)) → Keeps P (m >>= f)
  unfolding ◌>>=◌
  Keeps-bind m f km kf = record {
    at = λ s p. let (r, s') = m s in Keeps-continue r f kf s' (km.at s p);
  }

  -- The same, where the rest may use what `m` returned from some state.
  pub Keeps-bind_returned :
      (m : Py S A) (f : A → Py S B)
      → Keeps P m
      → ((s : S) (a : A) → (m s).0 ≡ ok a → Keeps P (f a))
      → Keeps P (m >>= f)
  unfolding ◌>>=◌
  Keeps-bind_returned m f km kf = record {
    at = λ s p. let (r, s') = m s in go r s' (kf s) (km.at s p);
  }
    where
      go :
          (r : Result A) (s' : S)
          → ((a : A) → r ≡ ok a → Keeps P (f a))
          → P s'
          → P (continue r f s').1
      go (ok a) s' k p = (k a refl).at s' p
      go (raised e) s' k p = p

pub Keeps-for_each :
    {S A : Type 0} {P : S → Type 0} (xs : List A) (body : A → Py S (Unit {0}))
    → ((x : A) → Keeps P (body x))
    → Keeps P (for_each xs body)
unfolding for_each
Keeps-for_each [] body k = Keeps-pure tt
Keeps-for_each (x ∷ xs) body k = Keeps-bind _ _ (k x) (λ _. Keeps-for_each xs body k)

pub ruleset keeps_rules = (
  Keeps-pure, Keeps-raise, Keeps-lift, Keeps-gets, Keeps-attempt, Keeps-if, Keeps-modify,
  Keeps-when, Keeps-bind, Keeps-for_each,
)
