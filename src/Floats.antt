-- ===== src/Floats.antt =====
-- Python's `float`. The harness computes with it and never looks inside, so the type and its
-- operations are a parameter of the model.
use aihomelab.Base.{not, ℕ, String, Bool, Option, Result}
use aihomelab.Base.Int.{ℤ}

pub record Floats : Type 1 where
  pub Float : Type 0
  -- `float(n)`, and `float(s)`, which fails with a ValueError
  pub of_int : ℤ → Float
  -- `float(n)` and `n / x` raise no OverflowError.
  pub fits : ℤ → Bool
  pub parse : String → Option Float
  -- `int(x)`, which raises at an infinity and at NaN
  pub trunc : Float → Result ℤ
  pub mul : Float → Float → Float
  pub div : Float → Float → Float
  pub add : Float → Float → Float
  pub sub : Float → Float → Float
  pub lt : Float → Float → Bool
  pub eq : Float → Float → Bool
  -- `f"{x:.nf}"`
  pub format : ℕ → Float → String

-- NaN, which is not equal to itself; sqlite3 stores it as a NULL.
abbrev pub is_nan : (fl : Floats) → fl.Float → Bool
is_nan fl x = not (fl.eq x x)
