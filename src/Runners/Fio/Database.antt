-- ===== src/Runners/Fio/Database.antt =====
-- harness/runners/fio.py: the fio runner and the database file.
use aihomelab.Base.{
  validation_error, unicode_error, ℕ, String, List, [], ◌∷◌, Option, none, some, Result, ok, raised,
  remote_error, value_error, key_error, RemoteResult, Keeps, Keeps-attempt, Keeps-bind, Keeps-pure,
  All, map, ◌≡◌, sym, Py,
}
use aihomelab.Base.Attempt.{ok-injective}
use aihomelab.Base.Int.{ℤ}
use aihomelab.Store.{DbFile, MetricRecord}
use aihomelab.Config.{FioScenarioSpec, FioJob, StorageTarget, Node}
use aihomelab.Floats.{Floats}
use aihomelab.Parsers.Fio.{Json}
use aihomelab.System.{Outside, Sys, make_dir}
use aihomelab.System.Database.{OnDb, db_rules}
use aihomelab.Ssh.Database.{Keeps-run_remote}
use aihomelab.Runners.Interface.{RunContext, JobOutcome}
use aihomelab.Runners.Interface.Laws.{KeepsDatabase}
use aihomelab.Runners.Fio.Prepare.{
  probed, probe_all, capture_env, allocate_testfile, existing_testfile_gib, check_prefilled,
  handle_testfile, cleanup, prepare,
}
use aihomelab.Runners.Fio.Jobs.{
  drop_caches, parse_failed, outcome_of_parse, outcome_of_run, run_one_job, after_drop, run_job,
  run_jobs, fio_runner,
}

module _ (O : Outside) (V : Type 0) (Q : DbFile V → Type 0) where
  Keeps-probed :
      (label : String) (r : Result RemoteResult) → Keeps (OnDb {O = O} Q) (probed label r)
  unfolding probed
  Keeps-probed label (ok r) = search db_rules
  Keeps-probed label (raised (remote_error r)) = search db_rules
  Keeps-probed label (raised e) = search db_rules

  Keeps-probe_all :
      (node : Node) (ps : List (String × String)) → Keeps (OnDb {O = O} Q) (probe_all node ps)
  unfolding probe_all
  Keeps-probe_all node [] = search db_rules
  Keeps-probe_all node ((label, command) ∷ rest) =
      Keeps-bind _ _ (Keeps-attempt _ (Keeps-run_remote O V Q node command _)) λ r.
        Keeps-bind _ _ (Keeps-probed label r)
          λ part. Keeps-bind _ _ (Keeps-probe_all node rest) λ parts. Keeps-pure (part ∷ parts)

  Keeps-capture_env :
      (node : Node) (dir : String) (ctx : RunContext)
      → Keeps (OnDb {O = O} Q) (capture_env node dir ctx)
  unfolding capture_env
  Keeps-capture_env node dir ctx = search (db_rules, Keeps-probe_all)

  Keeps-allocate :
      (node : Node) (path marker size : String)
      → Keeps (OnDb {O = O} Q) (allocate_testfile node path marker size)
  unfolding allocate_testfile
  Keeps-allocate node path marker size = search (db_rules, Keeps-run_remote)

  Keeps-existing :
      (node : Node) (path : String) → Keeps (OnDb {O = O} Q) (existing_testfile_gib node path)
  unfolding existing_testfile_gib
  Keeps-existing node path = search (db_rules, Keeps-run_remote)

  Keeps-check_prefilled :
      (node : Node) (path : String) → Keeps (OnDb {O = O} Q) (check_prefilled node path)
  unfolding check_prefilled
  Keeps-check_prefilled node path = search (db_rules, Keeps-run_remote)

  Keeps-handle_testfile :
      (scenario : FioScenarioSpec) (target : StorageTarget) (node : Node) (required : ℤ)
      (existing : Option ℤ)
      → Keeps (OnDb {O = O} Q) (handle_testfile scenario target node required existing)
  unfolding handle_testfile
  Keeps-handle_testfile scenario target node required none = Keeps-allocate _ _ _ _
  Keeps-handle_testfile scenario target node required (some existing) =
      search (db_rules, Keeps-allocate, Keeps-check_prefilled) depth 8

  pub Keeps-cleanup :
      (scenario : FioScenarioSpec) (target : StorageTarget) (node : Node) (ctx : RunContext)
      → Keeps (OnDb {O = O} Q) (cleanup scenario target node ctx)
  unfolding cleanup
  Keeps-cleanup scenario target node ctx = search (db_rules, Keeps-run_remote)

  pub Keeps-prepare :
      (fl : Floats) (scenario : FioScenarioSpec) (target : StorageTarget) (node : Node)
      (ctx : RunContext)
      → Keeps (OnDb {O = O} Q) (prepare fl scenario target node ctx)
  unfolding prepare
  Keeps-prepare fl scenario target node ctx =
      search (db_rules, Keeps-run_remote, Keeps-capture_env, Keeps-existing, Keeps-handle_testfile)
        depth 16

  Keeps-drop_caches :
      (node : Node) (ctx : RunContext) → Keeps (OnDb {O = O} Q) (drop_caches node ctx)
  unfolding drop_caches
  Keeps-drop_caches node ctx = search (db_rules, Keeps-run_remote)

module _ (fl : Floats) (O : Outside) (Q : DbFile fl.Float → Type 0) where
  Keeps-parse_failed :
      (name path : String) (t0 : ℕ) (m : String)
      → Keeps (OnDb {O = O} Q) (parse_failed fl O name path t0 m)
  unfolding parse_failed
  Keeps-parse_failed name path t0 m = search db_rules

  Keeps-outcome_of_parse :
      (name path : String) (t0 : ℕ) (r : Result (List (MetricRecord fl.Float)))
      → Keeps (OnDb {O = O} Q) (outcome_of_parse fl O name path t0 r)
  unfolding outcome_of_parse
  Keeps-outcome_of_parse name path t0 (ok metrics) = search db_rules
  Keeps-outcome_of_parse name path t0 (raised (value_error m)) = Keeps-parse_failed name path t0 m
  Keeps-outcome_of_parse name path t0 (raised (unicode_error m)) = Keeps-parse_failed name path t0 m
  Keeps-outcome_of_parse name path t0 (raised (validation_error m)) =
      Keeps-parse_failed name path t0 m
  Keeps-outcome_of_parse name path t0 (raised (key_error m)) = Keeps-parse_failed name path t0 m
  Keeps-outcome_of_parse name path t0 (raised e) = search db_rules

module _ (fl : Floats) (loads : String → Result (Json fl.Float)) (O : Outside)
    (Q : DbFile fl.Float → Type 0) where
  Keeps-outcome_of_run :
      (name dir path : String) (t0 : ℕ) (r : Result RemoteResult)
      → Keeps (OnDb {O = O} Q) (outcome_of_run fl loads O name dir path t0 r)
  unfolding outcome_of_run
  Keeps-outcome_of_run name dir path t0 (ok r) = search (db_rules, Keeps-outcome_of_parse) depth 9
  Keeps-outcome_of_run name dir path t0 (raised (remote_error r)) = search db_rules
  Keeps-outcome_of_run name dir path t0 (raised e) = search db_rules

  Keeps-run_one_job :
      (node : Node) (name config remote dir path : String) (timeout : Option ℤ) (ctx : RunContext)
      → Keeps (OnDb {O = O} Q) (run_one_job fl loads O node name config remote dir path timeout ctx)
  unfolding run_one_job
  Keeps-run_one_job node name config remote dir path timeout ctx =
      search (db_rules, Keeps-run_remote, Keeps-outcome_of_run) depth 9

  module _ (scenario : FioScenarioSpec) (target : StorageTarget) (node : Node)
      (ctx : RunContext) where
    Keeps-after_drop :
        (job : FioJob) (r : Result (Unit {0}))
        → Keeps (OnDb {O = O} Q) (after_drop fl loads O scenario target node ctx job r)
    unfolding after_drop
    Keeps-after_drop job (ok _) = Keeps-run_one_job _ _ _ _ _ _ _ ctx
    Keeps-after_drop job (raised (remote_error r)) = search db_rules
    Keeps-after_drop job (raised e) = search db_rules

    pub Keeps-run_job :
        (job : FioJob) → Keeps (OnDb {O = O} Q) (run_job fl loads O scenario target node ctx job)
    unfolding run_job
    Keeps-run_job job =
        search (db_rules, Keeps-run_one_job, Keeps-drop_caches, Keeps-after_drop) depth 9

    Keeps-jobs :
        (jobs : List FioJob)
        → All (Keeps (OnDb {O = O} Q)) (map (run_job fl loads O scenario target node ctx) jobs)
    Keeps-jobs [] = tt
    Keeps-jobs (job ∷ jobs) = (Keeps-run_job job, Keeps-jobs jobs)

    Keeps-run_jobs : Keeps (OnDb {O = O} Q) (run_jobs fl loads O scenario target node ctx)
    unfolding run_jobs
    Keeps-run_jobs = search db_rules

    run_jobs-actions :
        (s : Sys O fl.Float) (actions : List (Py (Sys O fl.Float) (JobOutcome fl.Float)))
        → (run_jobs fl loads O scenario target node ctx s).0 ≡ ok actions
        → actions ≡ map (run_job fl loads O scenario target node ctx) scenario.jobs
    unfolding run_jobs make_dir
    run_jobs-actions s actions h = sym (ok-injective h)

  -- Whatever holds of the database file, the fio runner keeps, in `prepare`, before the first outcome,
  -- for each outcome and in `cleanup`, whether they return or raise.
  pub fio_runner-KeepsDatabase : KeepsDatabase Q (fio_runner fl loads O)
  fio_runner-KeepsDatabase = record {
    prepare = Keeps-prepare O fl.Float Q fl;
    run_jobs = Keeps-run_jobs;
    actions = λ scenario target node ctx s actions h.
        rw (run_jobs-actions scenario target node ctx s actions h)
          (Keeps-jobs scenario target node ctx scenario.jobs);
    cleanup = Keeps-cleanup O fl.Float Q;
  }
