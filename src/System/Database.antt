-- ===== src/System/Database.antt =====
-- The actions on the outside and the database file.
use aihomelab.Base.{ℕ, String, List, Py, Keeps, keeps_rules, arith}
use aihomelab.Store.{DbFile}
use aihomelab.System.{
  Call, Outside, Sys, monotonic, utc_now, spawn, stored, progress, make_dir, write_text,
}

-- `Q` of the database file.
unfoldable pub OnDb : {O : Outside} {V : Type 0} → (DbFile V → Type 0) → Sys O V → Type 0
OnDb Q s = Q s.db

module _ (O : Outside) (V : Type 0) (Q : DbFile V → Type 0) where
  pub Keeps-monotonic : Keeps (OnDb {O = O} Q) monotonic
  unfolding monotonic OnDb
  Keeps-monotonic = record { at = λ s h. h }

  pub Keeps-utc_now : Keeps (OnDb {O = O} Q) utc_now
  unfolding utc_now OnDb
  Keeps-utc_now = record { at = λ s h. h }

  pub Keeps-spawn : (c : Call) → Keeps (OnDb {O = O} Q) (spawn c)
  unfolding spawn OnDb
  Keeps-spawn c = record { at = λ s h. h }

  pub Keeps-progress : (line : String) → Keeps (OnDb {O = O} Q) (progress line)
  unfolding progress OnDb
  Keeps-progress line = record { at = λ s h. h }

  pub Keeps-make_dir : (dir : String) → Keeps (OnDb {O = O} Q) (make_dir dir)
  unfolding make_dir OnDb
  Keeps-make_dir dir = record { at = λ s h. ground arith }

  pub Keeps-write_text : (path text : String) → Keeps (OnDb {O = O} Q) (write_text path text)
  unfolding write_text OnDb
  Keeps-write_text path text = record { at = λ s h. h }

  -- A statement of the store keeps what it keeps of the file.
  pub Keeps-stored :
      {A : Type 0} (m : Py (DbFile V) A) → Keeps Q m → Keeps (OnDb {O = O} Q) (stored m)
  unfolding stored OnDb
  Keeps-stored m k = record { at = λ s h. k.at s.db h }

pub ruleset db_rules = (
  keeps_rules, Keeps-monotonic, Keeps-utc_now, Keeps-spawn, Keeps-progress, Keeps-make_dir,
  Keeps-write_text,
)
