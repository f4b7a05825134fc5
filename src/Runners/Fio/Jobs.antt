-- ===== src/Runners/Fio/Jobs.antt =====
-- harness/runners/fio.py: `run_jobs`. The decoding of fio's JSON output is the parameter `loads`.
use aihomelab.Base.{
  ℕ, ◌-◌, String, ◌<>◌, true, false, Option, none, some, List, [], map, Py, pure, raise, attempt,
  gets, ◌>>=◌, ◌>>◌, value_error, unicode_error, validation_error, key_error, file_not_found,
  remote_error, Result, ok, raised, RemoteResult, if◌then◌else◌,
}
use aihomelab.Base.Attempt
use aihomelab.Base.Int.{ℤ, pos, eqb_ℤ}
use aihomelab.Base.Text.{strip, take, quote, is_empty, ◌</>◌}
use aihomelab.Floats.{Floats}
use aihomelab.Config.{FioJob, FioScenarioSpec, StorageTarget, Node}
use aihomelab.System.{Outside, Sys, monotonic, make_dir, write_text, content}
use aihomelab.Ssh.{run_remote, remote_message}
use aihomelab.Store.{MetricRecord}
use aihomelab.Parsers.Fio.{Json, parse_fio_json}
use aihomelab.Runners.Interface.{
  RunContext, JobStatus, succeeded, failed, timed_out, JobOutcome, Runner,
}
use aihomelab.Runners.Fio.Render.{render_fio_config}
use aihomelab.Runners.Fio.Prepare.{call, prepare, cleanup}

abbrev run_command : String → String
run_command path =
    "cat > "
    <> (quote path
        <> (" && fio --output-format=json+ " <> (quote path <> (" && rm -f " <> quote path))))

-- `e.result.stderr.strip()[:1000] or str(e)`
abbrev remote_summary : RemoteResult → String
remote_summary r =
    let text = take 1000 (strip r.stderr) in if is_empty text then remote_message r else text

abbrev status_of : RemoteResult → JobStatus
status_of r = if eqb_ℤ r.exit_code (pos 124) then timed_out else failed

module _ {O : Outside} {V : Type 0} where
  unfoldable pub drop_caches : Node → RunContext → Py (Sys O V) (Unit {0})
  unfolding ◌>>=◌
  drop_caches node ctx = do
    run_remote node "sudo -n sync" (call (pos 30) true ctx.dry_run)
    run_remote node "echo 3 | sudo -n tee /proc/sys/vm/drop_caches > /dev/null"
        (call (pos 30) true ctx.dry_run)
    pure tt

abbrev dropped_badly : {V : Type 0} → String → RemoteResult → JobOutcome V
dropped_badly job_name r = record {
  job_name = job_name;
  status = failed;
  raw_json_path = none;
  duration = 0;
  error = some (
      "cache drop failed (sudo NOPASSWD likely missing for "
      <> ("sync/tee /proc/sys/vm/drop_caches): " <> take 300 (strip r.stderr)));
  metrics = [];
}

-- `parse_fio_json(path)`, of what the file holds.
unfoldable pub parsed :
    (fl : Floats)
    → (String → Result (Json fl.Float))
    → Option String
    → Result (List (MetricRecord fl.Float))
parsed fl loads none = raised (file_not_found "")
parsed fl loads (some text) = Attempt.◌>>=◌ (loads text) (parse_fio_json fl)

module _ (fl : Floats) (O : Outside) where
  unfoldable pub parse_failed :
      (job_name path : String) (t0 : ℕ) (message : String)
      → Py (Sys O fl.Float) (JobOutcome fl.Float)
  unfolding ◌>>=◌
  parse_failed job_name path t0 message = do
    t1 ← monotonic
    pure (record {
      job_name = job_name;
      status = failed;
      raw_json_path = some path;
      duration = t1 - t0;
      error = some ("parse error: " <> message);
      metrics = [];
    })

  -- What the parser raised becomes a failed job, if it is a ValueError or a KeyError.
  unfoldable pub outcome_of_parse :
      (job_name path : String) (t0 : ℕ)
      → Result (List (MetricRecord fl.Float))
      → Py (Sys O fl.Float) (JobOutcome fl.Float)
  unfolding parse_failed
  outcome_of_parse job_name path t0 (ok metrics) = do
    t1 ← monotonic
    pure (record {
      job_name = job_name;
      status = succeeded;
      raw_json_path = some path;
      duration = t1 - t0;
      error = none;
      metrics = metrics;
    })
  outcome_of_parse job_name path t0 (raised (value_error m)) = parse_failed job_name path t0 m
  outcome_of_parse job_name path t0 (raised (unicode_error m)) = parse_failed job_name path t0 m
  outcome_of_parse job_name path t0 (raised (validation_error m)) = parse_failed job_name path t0 m
  outcome_of_parse job_name path t0 (raised (key_error m)) = parse_failed job_name path t0 m
  outcome_of_parse job_name path t0 (raised e) = raise e

module _ (fl : Floats) (loads : String → Result (Json fl.Float)) (O : Outside) where
  -- What ssh gave: a RemoteError becomes a failed job, other exceptions pass.
  unfoldable pub outcome_of_run :
      (job_name dir path : String) (t0 : ℕ)
      → Result RemoteResult
      → Py (Sys O fl.Float) (JobOutcome fl.Float)
  unfolding outcome_of_parse parsed
  outcome_of_run job_name dir path t0 (ok r) = do
    make_dir dir
    write_text path r.stdout
    saved ← gets (λ s. content path s.files)
    outcome_of_parse fl O job_name path t0 (parsed fl loads saved)
  outcome_of_run job_name dir path t0 (raised (remote_error r)) = do
    t1 ← monotonic
    pure (record {
      job_name = job_name;
      status = status_of r;
      raw_json_path = none;
      duration = t1 - t0;
      error = some (remote_summary r);
      metrics = [];
    })
  outcome_of_run job_name dir path t0 (raised e) = raise e

  -- `_run_one_job`; `dir` is the parent of the JSON path.
  unfoldable pub run_one_job :
      Node
      → (job_name fio_config remote_fio_path dir json_path : String) → Option ℤ
      → RunContext
      → Py (Sys O fl.Float) (JobOutcome fl.Float)
  unfolding outcome_of_run
  run_one_job node job_name config remote dir path timeout ctx = do
    t0 ← monotonic
    if ctx.dry_run
        then (do
          make_dir dir
          write_text path "{}\n"
          pure (record {
            job_name = job_name;
            status = succeeded;
            raw_json_path = some path;
            duration = 0;
            error = none;
            metrics = [];
          }))
        else (do
          r ← attempt (
              run_remote node (run_command remote)
                (record { timeout = timeout; check = true; dry_run = false; stdin = some config }))
          outcome_of_run job_name dir path t0 r)

  module _ (scenario : FioScenarioSpec) (target : StorageTarget) (node : Node)
      (ctx : RunContext) where
    abbrev job_dir : String
    job_dir = ctx.raw_dir </> scenario.name

    abbrev run_rendered : FioJob → Py (Sys O fl.Float) (JobOutcome fl.Float)
    run_rendered job =
        run_one_job node job.name (render_fio_config scenario job target.path)
          ("/tmp/harness-" <> (scenario.name <> ("-" <> (job.name <> ".fio")))) job_dir
          (job_dir </> (job.name <> ".json")) scenario.timeout_seconds ctx

    unfoldable pub after_drop :
        FioJob → Result (Unit {0}) → Py (Sys O fl.Float) (JobOutcome fl.Float)
    unfolding run_one_job
    after_drop job (ok _) = run_rendered job
    after_drop job (raised (remote_error r)) = pure (dropped_badly job.name r)
    after_drop job (raised e) = raise e

    -- One round of the loop over the jobs, up to its `yield`.
    unfoldable pub run_job : FioJob → Py (Sys O fl.Float) (JobOutcome fl.Float)
    unfolding after_drop drop_caches
    run_job job =
        if scenario.drop_caches_between_jobs
        then (do dropped ← attempt (drop_caches node ctx); after_drop job dropped)
        else run_rendered job

    unfoldable pub run_jobs : Py (Sys O fl.Float) (List (Py (Sys O fl.Float) (JobOutcome fl.Float)))
    unfolding run_job ◌>>=◌
    run_jobs = do make_dir job_dir; pure (map run_job scenario.jobs)

  -- `FioRunner`
  abbrev pub fio_runner : Runner O fl.Float
  fio_runner = record { prepare = prepare fl; run_jobs = run_jobs; cleanup = cleanup }
