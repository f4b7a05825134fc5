-- ===== src/System.antt =====
-- What the harness runs against. The ssh processes and the clocks are parameters; the local files
-- that it writes, its database, its output and the ssh commands that it sent are the state.
pub mod Database
use aihomelab.Base.{
  ℕ, String, Option, none, some, List, [], ◌∷◌, ◌++◌, ◌==◌, string_eq, Py, pure, modify, ◌>>=◌,
  contains, Result, if◌then◌else◌,
}
use aihomelab.Base.Int.{ℤ}
use aihomelab.Store.{DbFile}

-- One call of `subprocess.run`.
pub record Call : Type 0 where
  pub argv : List String
  pub timeout : Option ℤ
  pub input : Option String

-- `TimeoutExpired.stdout`: text, bytes (given by the text that they decode to) or None.
pub data Captured : Type 0 where
  decoded raw_bytes : String → Captured
  nothing : Captured

-- How `subprocess.run` ends: with an exit code, stdout and stderr, by its timeout, or by another
-- exception: a FileNotFoundError, since the program is missing, a UnicodeDecodeError, since what the
-- process wrote is no text, or some other OSError.
pub data Proc : Type 0 where
  finished : ℤ → String → String → Proc
  timed_out : Captured → Proc
  not_started undecodable os_failed : String → Proc

pub record Outside : Type 1 where
  pub World : Type 0
  pub run : Call → World → Proc × World
  -- `time.monotonic()` in nanoseconds, and the UTC clock in seconds
  pub monotonic : World → ℕ × World
  pub utc_now : World → ℕ × World

-- `V` is the type of metric values.
pub record Sys (O : Outside) (V : Type 0) : Type 0 where
  pub world : O.World
  pub sent : List Call
  pub files : List (String × String)
  pub dirs : List String
  pub db : DbFile V
  pub out : List String

module _ {O : Outside} {V : Type 0} where
  unfoldable pub monotonic : Py (Sys O V) ℕ
  monotonic s = let (t, w) = O.monotonic s.world in (Result.ok t, record s { world = w })

  unfoldable pub utc_now : Py (Sys O V) ℕ
  utc_now s = let (t, w) = O.utc_now s.world in (Result.ok t, record s { world = w })

  unfoldable pub spawn : Call → Py (Sys O V) Proc
  spawn c s =
      let (p, w) = O.run c s.world in (Result.ok p, record s { world = w; sent = s.sent ++ c ∷ [] })

  -- A statement of the store, on the database file of the run.
  unfoldable pub stored : {A : Type 0} → Py (DbFile V) A → Py (Sys O V) A
  stored m s = let (r, db) = m s.db in (r, record s { db = db })

  -- `progress(msg)`
  abbrev say : String → Sys O V → Sys O V
  say line s = record s { out = s.out ++ line ∷ [] }

  unfoldable pub progress : String → Py (Sys O V) (Unit {0})
  unfolding ◌>>=◌
  progress line = modify (say line)

  abbrev create : String → Sys O V → Sys O V
  create dir s = if contains dir s.dirs then s else record s { dirs = dir ∷ s.dirs }

  -- `mkdir(parents=True, exist_ok=True)`; the parents are implied.
  unfoldable pub make_dir : String → Py (Sys O V) (Unit {0})
  unfolding ◌>>=◌
  make_dir dir = modify (create dir)

  abbrev save : String → String → Sys O V → Sys O V
  save path text s = record s { files = (path, text) ∷ s.files }

  -- `path.write_text(text)`: the newest entry of a path is its content.
  unfoldable pub write_text : String → String → Py (Sys O V) (Unit {0})
  unfolding ◌>>=◌
  write_text path text = modify (save path text)

abbrev pub content : String → List (String × String) → Option String
content path [] = none
content path ((p, text) ∷ files) = if p == path then some text else content path files
