-- ===== src/Cli.antt =====
-- harness/cli.py: the commands, over the loader, the runners and the state of the harness. A command
-- returns the exit code of the process, 0 where it just returns; an exception that leaves it is a
-- traceback. The lines on stderr go to the one output, and orchestrator.log, which repeats what a
-- campaign prints, is only opened.
pub mod Targets
pub mod Recorded
pub mod Requirements
pub mod Gate
use aihomelab.Base.{
  unicode_error, ℕ, zero, suc, String, ◌<>◌, Bool, true, false, not, ◌&&◌, Option, none, some, List,
  [], ◌∷◌, ◌++◌, length, contains, select, dict_get, ◌==◌, string_eq, nat_eq, is_some, Error,
  Result, ok, raised, value_error, validation_error, file_not_found, key_error, Py, pure, raise,
  lift, gets, attempt, when, for_each, ◌>>=◌, ◌>>◌, if◌then◌else◌, map,
}
use aihomelab.Base.Attempt
use aihomelab.Base.Int.{ℤ, pos, max_ℤ}
use aihomelab.Base.Text.{◌</>◌, rstrip_slash, repr, show_ℕ, given}
use aihomelab.Base.Time.{iso_seconds}
use aihomelab.Base.Dict
use aihomelab.Floats.{Floats}
use aihomelab.Config.{
  Node, StorageTarget, Campaign, ResolvedRun, Loader, load_campaign, parse_size_gib,
}
use aihomelab.Store.{RunRow, DbFile, absent, list_runs}
use aihomelab.System.{Outside, Sys, stored, progress, make_dir, write_text}
use aihomelab.Ssh.{PreflightFinding, preflight_target}
use aihomelab.Runners.Interface.{Runner}
use aihomelab.Runners.Fio.{testfile_name}
use aihomelab.Orchestrator.{RunRequest, allocate_run, find_latest_running_run, run_campaign}
use aihomelab.Report.{Report, render_report}
use aihomelab.Cli.Targets.{require, check_targets, gate}

-- `except (FileNotFoundError, ValidationError, ValueError)`; the second is a ValueError too, and so is a
-- UnicodeDecodeError.
abbrev pub is_load_error : Error → Bool
is_load_error (file_not_found m) = true
is_load_error (validation_error m) = true
is_load_error (value_error m) = true
is_load_error (unicode_error m) = true
is_load_error e = false

-- `sys.exit(0 if status == "ok" else 2)`
abbrev pub exit_status : String → ℕ
exit_status status = if status == "ok" then 0 else 2

module _ {O : Outside} {V : Type 0} where
  -- `open(log_file, "a")`: the directory must be there.
  unfoldable pub open_log : String → Py (Sys O V) (Unit {0})
  unfolding ◌>>=◌
  open_log raw_dir = do
    there ← gets (λ s. contains raw_dir s.dirs)
    if there then pure tt else raise (file_not_found (raw_dir </> "orchestrator.log"))

-- What `run` hands to `run_campaign`
abbrev pub fresh_request : String → Bool → String → String → RunRequest
fresh_request campaign_path dry_run results_root run_id = record {
  campaign_path = campaign_path;
  results_root = results_root;
  dry_run = dry_run;
  resume_run_id = none;
  new_run_id = some run_id;
}

module _ (fl : Floats) (O : Outside) (ld : Loader fl.Float)
    (runners : List (String × Runner O fl.Float)) where
  abbrev Command : Type 0 → Type 0
  Command A = Py (Sys O fl.Float) A

  -- What follows the loading of the campaign, whose failures end a command with code 1.
  unfoldable pub loaded :
      Result (Campaign fl.Float × List ResolvedRun)
      → (Campaign fl.Float → List ResolvedRun → Command ℕ)
      → Command ℕ
  unfolding progress
  loaded (ok (campaign, resolved)) next = next campaign resolved
  loaded (raised e) next =
      if is_load_error e then (do progress "[FAIL] could not load campaign"; pure 1) else raise e

  -- The findings are reported together at the end.
  abbrev pub failing : List PreflightFinding → List PreflightFinding
  failing findings = select (λ f. not f.is_ok) findings

  unfoldable pub report_findings : List PreflightFinding → Command ℕ
  unfolding progress
  report_findings findings = elim (failing findings) [
    | [] ↦ do
      progress ("\nAll " <> (show_ℕ (length findings) <> " preflight check(s) passed."))
      pure 0
    | fail ∷ fails ↦ do
      progress (
          "\n"
          <> (show_ℕ (length (fail ∷ fails))
              <> (" of " <> (show_ℕ (length findings) <> " preflight check(s) failed."))))
      pure 1
  ]

  unfoldable pub preflight_loaded :
      Bool → List ResolvedRun → Campaign fl.Float → List (String × ℤ) → Command ℕ
  unfolding check_targets report_findings
  preflight_loaded dry_run resolved campaign [] = do
    progress "[OK] no targets exercised by this campaign — nothing to preflight."
    pure 0
  preflight_loaded dry_run resolved campaign (first ∷ rest) = do
    progress (
        "Preflight for campaign "
        <> (repr campaign.name <> ((if dry_run then " (dry-run)" else "") <> ":")))
    findings ← check_targets campaign dry_run (first ∷ rest) campaign.targets
    report_findings findings

  unfoldable pub preflight : String → Bool → Command ℕ
  unfolding loaded require preflight_loaded
  preflight campaign_path dry_run = loaded (load_campaign fl ld campaign_path) λ campaign resolved.
      do
        requirements ← lift (require fl resolved [])
        preflight_loaded dry_run resolved campaign requirements

  -- The campaign runs, and its status is the exit code.
  unfoldable pub execute : RunRequest → Command ℕ
  unfolding run_campaign
  execute request = do
    (run_id, status) ← run_campaign fl O ld runners request
    pure (exit_status status)

  unfoldable pub start : String → Bool → String → Campaign fl.Float → Command ℕ
  unfolding allocate_run open_log execute when
  start campaign_path dry_run results_root campaign = do
    (run_id, raw_dir) ← allocate_run campaign.name results_root dry_run
    when (not dry_run) (open_log raw_dir)
    execute (fresh_request campaign_path dry_run results_root run_id)

  -- The preflight of `run`, before anything is allocated
  unfoldable pub passes_preflight : Campaign fl.Float → List ResolvedRun → Command Bool
  unfolding require gate progress
  passes_preflight campaign resolved = do
    progress "Preflight:"
    requirements ← lift (require fl resolved [])
    gate campaign requirements campaign.targets

  unfoldable pub run : String → (dry_run no_preflight : Bool) → String → Command ℕ
  unfolding loaded passes_preflight start
  run campaign_path dry_run no_preflight results_root =
      loaded (load_campaign fl ld campaign_path) λ campaign resolved. do
        passed ←
            if not no_preflight && not dry_run
            then passes_preflight campaign resolved
            else pure true
        if passed then start campaign_path dry_run results_root campaign else pure 1

  unfoldable pub resume_run : String → String → String → Command ℕ
  unfolding open_log execute
  resume_run campaign_path run_id results_root = do
    open_log (results_root </> "raw" </> run_id)
    execute (record {
      campaign_path = campaign_path;
      results_root = results_root;
      dry_run = false;
      resume_run_id = some run_id;
      new_run_id = none;
    })

  unfoldable pub resume_latest : String → String → Campaign fl.Float → Command ℕ
  unfolding stored resume_run find_latest_running_run progress
  resume_latest campaign_path results_root campaign = do
    found ← stored (find_latest_running_run (some campaign.name))
    elim found [
      | none ↦ do progress ("no in-progress run found for campaign " <> repr campaign.name); pure 1
      | some run_id ↦ resume_run campaign_path run_id results_root
    ]

  unfoldable pub resume : (campaign_path run_id : Option String) → String → Command ℕ
  unfolding loaded resume_run resume_latest progress
  resume none run_id results_root = do
    progress (
        if is_some (given run_id)
        then "--run-id requires a campaign path so scenarios can be re-resolved"
        else "provide either a campaign path or --run-id")
    pure 1
  resume (some campaign_path) run_id results_root = elim (given run_id) [
    | some id ↦ resume_run campaign_path id results_root
    | none ↦
        loaded (load_campaign fl ld campaign_path)
          λ campaign resolved. resume_latest campaign_path results_root campaign
  ]
