-- ===== src/Ssh/Raises.antt =====
-- harness/ssh.py: which exceptions leave a command and the check of a target.
use aihomelab.Base.{
  os_error, unicode_error, ℕ, String, List, ◌<>◌, ◌≡◌, refl, Bool, true, false, ◌&&◌, Option, none,
  some, arith, Error, value_error, file_not_found, remote_error, Result, ok, raised, RemoteResult,
  pure, raise, lift, attempt, ◌>>=◌, if◌then◌else◌,
}
use aihomelab.Base.Int.{ℤ}
use aihomelab.Base.Text.{is_empty, parse_int, repr}
use aihomelab.Base.Raises.{
  Raises, Raises-pure, Raises-raise, Raises-lift, Raises-if, Raises-more, Raises-bind, Raises-try,
}
use aihomelab.Config.{Node, StorageTarget}
use aihomelab.System.{
  Outside, Sys, Call, Proc, finished, timed_out, not_started, undecodable, os_failed, monotonic,
  spawn,
}
use aihomelab.Ssh.Remote.{Options, run_remote, settle, run_argv}
use aihomelab.Ssh.Target.{
  df_free_bytes, stat_file_size_gib, preflight_target, existing_size, after_df, int_of,
}

-- What `subprocess.run` raises but for its timeout: the program `ssh` is missing, what it wrote is no
-- text, or another OSError.
abbrev pub is_spawn_error : Error → Bool
is_spawn_error (file_not_found m) = true
is_spawn_error (unicode_error m) = true
is_spawn_error (os_error m) = true
is_spawn_error _ = false

abbrev pub is_ssh_error : Error → Bool
is_ssh_error (file_not_found m) = true
is_ssh_error (unicode_error m) = true
is_ssh_error (os_error m) = true
is_ssh_error (remote_error r) = true
is_ssh_error _ = false

-- What a command raises, with `check` and without.
abbrev pub escapes : Bool → Error → Bool
escapes true = is_ssh_error
escapes false = is_spawn_error

-- What `df_free_bytes` raises.
abbrev is_df_error : Error → Bool
is_df_error (value_error m) = true
is_df_error (file_not_found m) = true
is_df_error (unicode_error m) = true
is_df_error (os_error m) = true
is_df_error (remote_error r) = true
is_df_error _ = false

escapes-is_ssh_error : (check : Bool) (e : Error) → escapes check e ≡ true → is_ssh_error e ≡ true
escapes-is_ssh_error true e h = h
escapes-is_ssh_error false (file_not_found m) h = refl
escapes-is_ssh_error false (unicode_error m) h = refl
escapes-is_ssh_error false (os_error m) h = refl
escapes-is_ssh_error false e h = ground arith

is_ssh_error-is_df_error : (e : Error) → is_ssh_error e ≡ true → is_df_error e ≡ true
is_ssh_error-is_df_error (file_not_found m) h = refl
is_ssh_error-is_df_error (unicode_error m) h = refl
is_ssh_error-is_df_error (os_error m) h = refl
is_ssh_error-is_df_error (remote_error r) h = refl
is_ssh_error-is_df_error e h = ground arith

module _ {O : Outside} {V : Type 0} where
  pub Raises-monotonic : (passes : Error → Bool) → Raises passes (monotonic {O = O} {V = V})
  unfolding monotonic
  Raises-monotonic passes = record { only = λ s e h. absurd cc }

  Raises-spawn : (passes : Error → Bool) (c : Call) → Raises passes (spawn {O = O} {V = V} c)
  unfolding spawn
  Raises-spawn passes c = record { only = λ s e h. absurd cc }

  Raises-checked :
      (b : Bool) (check : Bool) (r : RemoteResult)
      → Raises {S = Sys O V} (escapes check) (if check && b then raise (remote_error r) else pure r)
  Raises-checked b true r =
      Raises-if is_ssh_error b _ _ (Raises-raise is_ssh_error _ refl) (Raises-pure is_ssh_error r)
  Raises-checked b false r = Raises-pure is_spawn_error r

  Raises-timed :
      (check : Bool) (r : RemoteResult)
      → Raises {S = Sys O V} (escapes check) (if check then raise (remote_error r) else pure r)
  Raises-timed true r = Raises-raise is_ssh_error _ refl
  Raises-timed false r = Raises-pure is_spawn_error r

  Raises-spawn_error :
      (check : Bool) (e : Error)
      → is_ssh_error e ≡ true
      → is_spawn_error e ≡ true
      → Raises {S = Sys O V} {A = RemoteResult} (escapes check) (raise e)
  Raises-spawn_error true e h k = Raises-raise is_ssh_error e h
  Raises-spawn_error false e h k = Raises-raise is_spawn_error e k

  Raises-settle :
      (node command : String) (o : Options) (t0 : ℕ) (p : Proc)
      → Raises (escapes o.check) (settle {O = O} {V = V} node command o t0 p)
  unfolding settle
  Raises-settle node command o t0 (timed_out captured) =
      search (Raises-bind, Raises-monotonic, Raises-timed)
  Raises-settle node command o t0 (finished code out err) =
      search (Raises-bind, Raises-monotonic, Raises-checked)
  Raises-settle node command o t0 (not_started message) = Raises-spawn_error o.check _ refl refl
  Raises-settle node command o t0 (undecodable message) = Raises-spawn_error o.check _ refl refl
  Raises-settle node command o t0 (os_failed message) = Raises-spawn_error o.check _ refl refl

  Raises-run_argv :
      (node : String) (argv : List String) (command : String) (o : Options)
      → Raises (escapes o.check) (run_argv {O = O} {V = V} node argv command o)
  unfolding run_argv
  Raises-run_argv node argv command o =
      search (Raises-if, Raises-pure, Raises-bind, Raises-monotonic, Raises-spawn, Raises-settle)

  pub Raises-run_remote :
      (node : Node) (command : String) (o : Options)
      → Raises (escapes o.check) (run_remote {O = O} {V = V} node command o)
  unfolding run_remote
  Raises-run_remote node command o = Raises-run_argv _ _ _ _

  -- A command with or without `check`, where both kinds of exception are awaited.
  pub Raises-command :
      (node : Node) (command : String) (o : Options)
      → Raises is_ssh_error (run_remote {O = O} {V = V} node command o)
  Raises-command node command o =
      Raises-more is_ssh_error (escapes o.check) _ (escapes-is_ssh_error o.check)
        (Raises-run_remote node command o)

  Raises-int_of : (text : String) → Raises {S = Sys O V} is_df_error (lift (int_of text))
  Raises-int_of text = Raises-lift is_df_error _ (go (parse_int text))
    where
      go :
          (o : Option ℤ) (e : Error)
          → (elim o [
            | none ↦ raised (value_error ("invalid literal for int() with base 10: " <> repr text))
            | some n ↦ ok n
          ])
            ≡ raised e
          → is_df_error e ≡ true
      go none e h = ground arith
      go (some n) e h = ground arith

  Raises-df_command :
      (node : Node) (command : String) (o : Options)
      → Raises is_df_error (run_remote {O = O} {V = V} node command o)
  Raises-df_command node command o =
      Raises-more is_df_error is_ssh_error _ is_ssh_error-is_df_error
        (Raises-command node command o)

  Raises-df_free_bytes :
      (node : Node) (path : String) (dry_run : Bool)
      → Raises is_df_error (df_free_bytes {O = O} {V = V} node path dry_run)
  unfolding df_free_bytes
  Raises-df_free_bytes node path dry_run =
      search (Raises-if, Raises-pure, Raises-bind, Raises-df_command, Raises-int_of)

  Raises-unchecked :
      (node : Node) (command : String) (timeout : Option ℤ) (stdin : Option String)
      → Raises is_spawn_error (
          run_remote {O = O} {V = V} node command
            (record { timeout = timeout; check = false; dry_run = false; stdin = stdin }))
  Raises-unchecked node command timeout stdin = Raises-run_remote node command _

  Raises-stat_file_size_gib :
      (node : Node) (path : String)
      → Raises is_spawn_error (stat_file_size_gib {O = O} {V = V} node path)
  unfolding stat_file_size_gib
  Raises-stat_file_size_gib node path = search (Raises-bind, Raises-pure, Raises-unchecked)

  module _ (node : Node) (target : StorageTarget) (required margin : ℤ) where
    Raises-existing_size :
        (file : Option String)
        → Raises is_spawn_error (existing_size node target required margin {O = O} {V = V} file)
    unfolding existing_size
    Raises-existing_size none = Raises-pure is_spawn_error none
    Raises-existing_size (some path) =
        Raises-if is_spawn_error (is_empty path) _ _ (Raises-pure is_spawn_error none)
          (Raises-stat_file_size_gib node path)

    Raises-after_df :
        (file : Option String) (r : Result ℤ)
        → ((e : Error) → r ≡ raised e → is_df_error e ≡ true)
        → Raises is_spawn_error (after_df node target required margin {O = O} {V = V} file r)
    unfolding after_df
    Raises-after_df file (ok free) k = search (Raises-bind, Raises-pure, Raises-existing_size)
    Raises-after_df file (raised (value_error m)) k = Raises-pure is_spawn_error _
    Raises-after_df file (raised (unicode_error m)) k = Raises-pure is_spawn_error _
    Raises-after_df file (raised (os_error m)) k = Raises-raise is_spawn_error _ refl
    Raises-after_df file (raised (remote_error r)) k = Raises-pure is_spawn_error _
    Raises-after_df file (raised (file_not_found m)) k = Raises-raise is_spawn_error _ refl
    Raises-after_df file (raised e) k = Raises-raise is_spawn_error _ (k _ refl)

    Raises-measured :
        (file : Option String)
        → Raises is_spawn_error (
            attempt (df_free_bytes node target.path false)
            >>= after_df node target required margin {O = O} {V = V} file)
    Raises-measured file =
        Raises-try is_spawn_error is_df_error _ _ (Raises-df_free_bytes node target.path false)
          (λ free. Raises-after_df file (ok free) (λ e h. absurd cc))
          (λ e caught. Raises-after_df file (raised e) (λ e' h. ground arith))

  -- No exception leaves the check of a target but for what `subprocess.run` itself raises: a
  -- FileNotFoundError or another OSError, or a UnicodeDecodeError. A RemoteError, a timeout and a text
  -- of `df` that is no number become a finding.
  pub preflight_target-Raises :
      (node : Node) (target : StorageTarget) (required margin : ℤ) (dry_run : Bool)
      (file : Option String)
      → Raises is_spawn_error
          (preflight_target node target required margin {O = O} {V = V} dry_run file)
  unfolding preflight_target
  preflight_target-Raises node target required margin true file = Raises-pure is_spawn_error _
  preflight_target-Raises node target required margin false file =
      search (Raises-bind, Raises-if, Raises-pure, Raises-unchecked, Raises-measured)
