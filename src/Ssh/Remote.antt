-- ===== src/Ssh/Remote.antt =====
-- harness/ssh.py: `run_remote` and its callers that run one command.
use aihomelab.Base.{
  ℕ, ◌-◌, String, ◌<>◌, Bool, true, false, not, ◌&&◌, Option, none, some, List, [], ◌∷◌, ◌++◌, Py,
  pure, raise, RemoteResult, file_not_found, unicode_error, os_error, remote_error, ◌>>=◌,
  if◌then◌else◌,
}
use text.Mathlib.Text.{starts_with}
use aihomelab.Base.Int.{ℤ, pos, eqb_ℤ}
use aihomelab.Base.Text.{strip, take, show}
use aihomelab.Config.{Node}
use aihomelab.System.{
  Captured, decoded, raw_bytes, nothing, Proc, finished, timed_out, not_started, undecodable,
  os_failed, Outside, Sys, monotonic, spawn,
}

-- `RemoteResult.ok`
abbrev pub succeeded : RemoteResult → Bool
succeeded r = eqb_ℤ r.exit_code (pos 0)

-- `str(RemoteError(result))`
unfoldable pub remote_message : RemoteResult → String
remote_message r =
    "remote command failed on "
    <> (r.node
        <> (" (exit "
            <> (show r.exit_code
                <> ("): " <> (r.command <> ("\nstderr: " <> take 1000 (strip r.stderr)))))))

abbrev default_connect_timeout : String
default_connect_timeout = "10"

-- `_ssh_argv`
unfoldable pub ssh_argv : Node → Bool → List String
ssh_argv node tty =
    ("ssh"
      ∷ "-o"
      ∷ "BatchMode=yes"
      ∷ "-o"
      ∷ ("ConnectTimeout=" <> default_connect_timeout)
      ∷ "-o"
      ∷ "StrictHostKeyChecking=accept-new"
      ∷ [])
    ++ ((if tty then "-t" ∷ [] else []) ++ node.ssh ∷ [])

abbrev captured_text : Captured → String
captured_text (decoded s) = s
captured_text (raw_bytes s) = s
captured_text nothing = ""

abbrev shown_timeout : Option ℤ → String
shown_timeout none = "None"
shown_timeout (some t) = show t

-- The options of a call: `timeout`, `check`, `dry_run` and `stdin`.
pub record Options : Type 0 where
  pub timeout : Option ℤ
  pub check : Bool
  pub dry_run : Bool
  pub stdin : Option String

abbrev pub with_sudo : String → String
with_sudo command = if starts_with command "sudo " then command else "sudo -- " <> command

module _ {O : Outside} {V : Type 0} where
  -- The end of `_run`. An exception that is no timeout leaves before the clock is read again.
  unfoldable pub settle : String → String → Options → ℕ → Proc → Py (Sys O V) RemoteResult
  unfolding monotonic ◌>>=◌
  settle node command o t0 (timed_out captured) = do
    t1 ← monotonic
    let result : RemoteResult = record {
      node = node;
      command = command;
      exit_code = pos 124;
      stdout = captured_text captured;
      stderr = "timed out after " <> (shown_timeout o.timeout <> "s");
      duration = t1 - t0;
      dry_run = false;
    }
    if o.check then raise (remote_error result) else pure result
  settle node command o t0 (finished code out err) = do
    t1 ← monotonic
    let result : RemoteResult = record {
      node = node;
      command = command;
      exit_code = code;
      stdout = out;
      stderr = err;
      duration = t1 - t0;
      dry_run = false;
    }
    if o.check && not (succeeded result) then raise (remote_error result) else pure result
  settle node command o t0 (not_started message) = raise (file_not_found message)
  settle node command o t0 (undecodable message) = raise (unicode_error message)
  settle node command o t0 (os_failed message) = raise (os_error message)

  -- `_run`
  unfoldable pub run_argv : String → List String → String → Options → Py (Sys O V) RemoteResult
  unfolding settle spawn
  run_argv node argv command o =
      if o.dry_run
      then pure (record {
        node = node;
        command = command;
        exit_code = pos 0;
        stdout = "";
        stderr = "";
        duration = 0;
        dry_run = true;
      })
      else (do
        t0 ← monotonic
        p ← spawn (record { argv = argv; timeout = o.timeout; input = o.stdin })
        settle node command o t0 p)

  unfoldable pub run_remote : Node → String → Options → Py (Sys O V) RemoteResult
  unfolding run_argv ssh_argv
  run_remote node command o = run_argv node.name (ssh_argv node false ++ command ∷ []) command o

  unfoldable pub run_remote_sudo : Node → String → Options → Py (Sys O V) RemoteResult
  unfolding run_argv ssh_argv
  run_remote_sudo node command o =
      run_argv node.name (ssh_argv node true ++ with_sudo command ∷ []) (with_sudo command)
        (record o { stdin = none })
