-- ===== src/Runners/Fio/Prepare.antt =====
-- harness/runners/fio.py: `prepare` and `cleanup`.
use aihomelab.Base.{
  String, ◌<>◌, Bool, true, false, Option, none, some, List, [], ◌∷◌, ◌==◌, string_eq, Py, pure,
  raise, lift, attempt, ◌>>=◌, ◌>>◌, runtime_error, remote_error, Result, ok, raised, RemoteResult,
  if◌then◌else◌,
}
use aihomelab.Base.Int.{ℤ, pos, ltb_ℤ}
use aihomelab.Base.Text.{strip, quote, show, repr, join, ◌</>◌}
use aihomelab.Floats.{Floats}
use aihomelab.Config.{FioScenarioSpec, StorageTarget, Node, parse_size_gib}
use aihomelab.System.{Outside, Sys, make_dir, write_text}
use aihomelab.Ssh.{Options, run_remote, remote_message, stat_gib, stat_command}
use aihomelab.Runners.Interface.{RunContext}
use aihomelab.Runners.Fio.Render.{testfile_path, marker_path}

abbrev pub call : ℤ → Bool → Bool → Options
call timeout check dry_run = record {
  timeout = some timeout;
  check = check;
  dry_run = dry_run;
  stdin = none;
}

abbrev probes : String → List (String × String)
probes target_dir =
    ("fio_version", "fio --version 2>&1 | head -n 1")
    ∷ ("uname", "uname -a")
    ∷ ("df", "df -h " <> (quote target_dir <> " 2>&1"))
    ∷ ("date_utc", "date -u +%Y-%m-%dT%H:%M:%SZ")
    ∷ []

abbrev pub prefill_command : String → String → String → String
prefill_command path marker size =
    "fio --name=prefill --filename="
    <> (quote path
        <> (" --rw=write --bs=1M --size="
            <> (quote size
                <> (" --ioengine=libaio --direct=1 --iodepth=16 --end_fsync=1 --output-format=minimal"
                    <> (" > /dev/null && touch " <> quote marker)))))

module _ {O : Outside} {V : Type 0} where
  -- One probe of `_capture_env`: a RemoteError is noted, any other exception passes.
  unfoldable pub probed : String → Result RemoteResult → Py (Sys O V) String
  probed label (ok r) = pure ("## " <> (label <> ("\n" <> (strip r.stdout <> "\n"))))
  probed label (raised (remote_error r)) =
      pure ("## " <> (label <> (" (FAILED)\n" <> (remote_message r <> "\n"))))
  probed label (raised e) = raise e

  unfoldable pub probe_all : Node → List (String × String) → Py (Sys O V) (List String)
  unfolding probed ◌>>=◌
  probe_all node [] = pure []
  probe_all node ((label, command) ∷ rest) = do
    r ← attempt (run_remote node command (call (pos 15) false false))
    part ← probed label r
    parts ← probe_all node rest
    pure (part ∷ parts)

  unfoldable pub capture_env : Node → String → RunContext → Py (Sys O V) String
  unfolding probe_all
  capture_env node target_dir ctx =
      if ctx.dry_run
      then pure ("# dry-run env capture for " <> (node.name <> "\n"))
      else (do parts ← probe_all node (probes target_dir); pure (join "\n" parts))

  unfoldable pub allocate_testfile : Node → (path marker size : String) → Py (Sys O V) (Unit {0})
  unfolding ◌>>=◌
  allocate_testfile node path marker size = do
    run_remote node (prefill_command path marker size) (call (pos 1800) true false)
    pure tt

  unfoldable pub existing_testfile_gib : Node → String → Py (Sys O V) (Option ℤ)
  unfolding ◌>>=◌
  existing_testfile_gib node path = do
    r ← run_remote node (stat_command path) (call (pos 15) false false)
    pure (stat_gib r.stdout)

  unfoldable pub check_prefilled : Node → String → Py (Sys O V) Bool
  unfolding ◌>>=◌
  check_prefilled node marker = do
    r ←
        run_remote node ("test -f " <> (quote marker <> " && echo YES || echo NO"))
          (call (pos 15) false false)
    pure (strip r.stdout == "YES")

  -- The end of `prepare`: what happens to the testfile. The marker is read only if the file exists.
  unfoldable pub handle_testfile :
      FioScenarioSpec → StorageTarget → Node → (required : ℤ) → Option ℤ → Py (Sys O V) (Unit {0})
  unfolding allocate_testfile check_prefilled
  handle_testfile scenario target node required none =
      let path = testfile_path target.path in
      allocate_testfile node path (marker_path path) scenario.fio_global.size
  handle_testfile scenario target node required (some existing) = do
    let path = testfile_path target.path
    prefilled ← check_prefilled node (marker_path path)
    if ltb_ℤ existing required
        then raise (
            runtime_error (
              "existing testfile at "
              <> (node.name
                  <> (":"
                      <> (path
                          <> (" is "
                              <> (show existing
                                  <> (" GiB, scenario "
                                      <> (repr scenario.name
                                          <> (" requires "
                                              <> (show required
                                                  <> (" GiB. Aborting rather than silently extending (see experiment 007 gotcha)."))))))))))))
        else if prefilled
        then pure tt
        else allocate_testfile node path (marker_path path) scenario.fio_global.size

  unfoldable pub cleanup :
      FioScenarioSpec → StorageTarget → Node → RunContext → Py (Sys O V) (Unit {0})
  unfolding ◌>>=◌
  cleanup scenario target node ctx = do
    let path = testfile_path target.path
    run_remote node ("rm -f " <> (quote path <> (" " <> quote (marker_path path))))
        (call (pos 30) false ctx.dry_run)
    pure tt

module _ (fl : Floats) {O : Outside} {V : Type 0} where
  unfoldable pub prepare :
      FioScenarioSpec → StorageTarget → Node → RunContext → Py (Sys O V) (Unit {0})
  unfolding capture_env existing_testfile_gib handle_testfile ◌>>=◌
  prepare scenario target node ctx = do
    required ← lift (parse_size_gib fl scenario.fio_global.size)
    run_remote node ("mkdir -p " <> quote target.path) (call (pos 30) true ctx.dry_run)
    env_text ← capture_env node target.path ctx
    make_dir ctx.raw_dir
    write_text (ctx.raw_dir </> ("env-" <> (node.name <> ".txt"))) env_text
    if ctx.dry_run then pure tt else (do
      existing ← existing_testfile_gib node (testfile_path target.path)
      handle_testfile scenario target node required existing)
