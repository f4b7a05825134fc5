-- ===== src/Runners/Fio/Raises.antt =====
-- harness/runners/fio.py: which exceptions leave a job.
use aihomelab.Base.{
  os_error, validation_error, unicode_error, ℕ, String, ◌≡◌, refl, Bool, true, false, Option, none,
  some, List, arith, Error, value_error, file_not_found, key_error, remote_error, Result, ok,
  raised, RemoteResult, attempt, ◌>>=◌,
}
use aihomelab.Base.Int.{ℤ}
use aihomelab.Base.Raises.{
  Raises, Raises-pure, Raises-raise, Raises-if, Raises-bind, Raises-try, Raises-gets, Raises-modify,
  Fails, Fails-raised, Fails-bind,
}
use aihomelab.Floats.{Floats}
use aihomelab.Config.{FioJob, FioScenarioSpec, Node, StorageTarget}
use aihomelab.System.{Outside, make_dir, write_text}
use aihomelab.Store.{MetricRecord}
use aihomelab.Parsers.Fio.{Json}
use aihomelab.Parsers.Fio.Raises.{is_local, Fails-parse_fio_json}
use aihomelab.Ssh.{Options, run_remote}
use aihomelab.Ssh.Raises.{is_ssh_error, Raises-monotonic, Raises-command}
use aihomelab.Runners.Interface.{RunContext}
use aihomelab.Runners.Fio.{
  run_job, after_drop, drop_caches, run_one_job, outcome_of_run, outcome_of_parse, parse_failed,
  parsed,
}

-- The exceptions that `run_jobs` does not turn into a failed job.
abbrev pub is_uncaught : Error → Bool
is_uncaught (remote_error r) = false
is_uncaught (value_error m) = false
is_uncaught (validation_error m) = false
is_uncaught (key_error m) = false
is_uncaught _ = true

module _ (fl : Floats) (O : Outside) where
  Raises-make_dir : (dir : String) → Raises is_uncaught (make_dir {O = O} {V = fl.Float} dir)
  unfolding make_dir
  Raises-make_dir dir = Raises-modify is_uncaught _

  Raises-write_text :
      (path text : String) → Raises is_uncaught (write_text {O = O} {V = fl.Float} path text)
  unfolding write_text
  Raises-write_text path text = Raises-modify is_uncaught _

  Raises-parse_failed :
      (job path : String) (t0 : ℕ) (m : String)
      → Raises is_uncaught (parse_failed fl O job path t0 m)
  unfolding parse_failed
  Raises-parse_failed job path t0 m = search (Raises-bind, Raises-pure, Raises-monotonic)

  -- What the parser raises is no RemoteError, so all that it raises is caught or is no case of it.
  Raises-outcome_of_parse :
      (job path : String) (t0 : ℕ) (r : Result (List (MetricRecord fl.Float)))
      → Fails is_local r
      → Raises is_uncaught (outcome_of_parse fl O job path t0 r)
  unfolding outcome_of_parse
  Raises-outcome_of_parse job path t0 (ok metrics) k =
      search (Raises-bind, Raises-pure, Raises-monotonic)
  Raises-outcome_of_parse job path t0 (raised (value_error m)) k = Raises-parse_failed job path t0 m
  Raises-outcome_of_parse job path t0 (raised (unicode_error m)) k =
      Raises-parse_failed job path t0 m
  Raises-outcome_of_parse job path t0 (raised (validation_error m)) k =
      Raises-parse_failed job path t0 m
  Raises-outcome_of_parse job path t0 (raised (key_error m)) k = Raises-parse_failed job path t0 m
  Raises-outcome_of_parse job path t0 (raised (remote_error r)) k = absurd (cc (k.only _ refl))
  Raises-outcome_of_parse job path t0 (raised e) k = Raises-raise is_uncaught _ refl

module _ (fl : Floats) (loads : String → Result (Json fl.Float)) (O : Outside)
    (decodes : (text : String) → Fails is_local (loads text)) where
  Fails-parsed : (saved : Option String) → Fails is_local (parsed fl loads saved)
  unfolding parsed
  Fails-parsed none = Fails-raised is_local _ refl
  Fails-parsed (some text) = Fails-bind is_local _ _ (decodes text) (Fails-parse_fio_json fl)

  Raises-parse :
      (job path : String) (t0 : ℕ) (saved : Option String)
      → Raises is_uncaught (outcome_of_parse fl O job path t0 (parsed fl loads saved))
  Raises-parse job path t0 saved = Raises-outcome_of_parse fl O job path t0 _ (Fails-parsed saved)

  Raises-outcome_of_run :
      (job dir path : String) (t0 : ℕ) (r : Result RemoteResult)
      → ((e : Error) → r ≡ raised e → is_ssh_error e ≡ true)
      → Raises is_uncaught (outcome_of_run fl loads O job dir path t0 r)
  unfolding outcome_of_run
  Raises-outcome_of_run job dir path t0 (ok r) k =
      search (Raises-bind, Raises-make_dir, Raises-write_text, Raises-gets, Raises-parse) depth 12
  Raises-outcome_of_run job dir path t0 (raised (remote_error r)) k =
      search (Raises-bind, Raises-pure, Raises-monotonic)
  Raises-outcome_of_run job dir path t0 (raised (file_not_found m)) k =
      Raises-raise is_uncaught _ refl
  Raises-outcome_of_run job dir path t0 (raised (unicode_error m)) k =
      Raises-raise is_uncaught _ refl
  Raises-outcome_of_run job dir path t0 (raised (os_error m)) k = Raises-raise is_uncaught _ refl
  Raises-outcome_of_run job dir path t0 (raised e) k = absurd (cc (k _ refl))

  Raises-awaited :
      (node : Node) (command : String) (o : Options) (job dir path : String) (t0 : ℕ)
      → Raises is_uncaught
          (attempt (run_remote node command o) >>= outcome_of_run fl loads O job dir path t0)
  Raises-awaited node command o job dir path t0 =
      Raises-try is_uncaught is_ssh_error _ _ (Raises-command node command o)
        (λ r. Raises-outcome_of_run job dir path t0 (ok r) (λ e h. absurd cc))
        (λ e caught. Raises-outcome_of_run job dir path t0 (raised e) (λ e' h. ground arith))

  Raises-run_one_job :
      (node : Node) (job config remote dir path : String) (timeout : Option ℤ) (ctx : RunContext)
      → Raises is_uncaught (run_one_job fl loads O node job config remote dir path timeout ctx)
  unfolding run_one_job
  Raises-run_one_job node job config remote dir path timeout ctx =
      search
        (
          Raises-bind, Raises-if, Raises-pure, Raises-monotonic, Raises-make_dir, Raises-write_text,
          Raises-awaited,
        )
        depth 12

  Raises-drop_caches :
      (node : Node) (ctx : RunContext)
      → Raises is_ssh_error (drop_caches {O = O} {V = fl.Float} node ctx)
  unfolding drop_caches
  Raises-drop_caches node ctx = search (Raises-bind, Raises-pure, Raises-command)

  module _ (scenario : FioScenarioSpec) (target : StorageTarget) (node : Node)
      (ctx : RunContext) where
    Raises-after_drop :
        (job : FioJob) (r : Result (Unit {0}))
        → ((e : Error) → r ≡ raised e → is_ssh_error e ≡ true)
        → Raises is_uncaught (after_drop fl loads O scenario target node ctx job r)
    unfolding after_drop
    Raises-after_drop job (ok _) k = Raises-run_one_job node _ _ _ _ _ _ ctx
    Raises-after_drop job (raised (remote_error r)) k = Raises-pure is_uncaught _
    Raises-after_drop job (raised (file_not_found m)) k = Raises-raise is_uncaught _ refl
    Raises-after_drop job (raised (unicode_error m)) k = Raises-raise is_uncaught _ refl
    Raises-after_drop job (raised (os_error m)) k = Raises-raise is_uncaught _ refl
    Raises-after_drop job (raised e) k = absurd (cc (k _ refl))

    -- No RemoteError or KeyError leaves a job, and no ValueError but for the UnicodeDecodeError of an
    -- ssh process whose output is no text, whatever ssh and fio give and whatever fio's output decodes
    -- to, if the decoder of JSON text raises no RemoteError: each becomes an outcome of the job.
    pub run_job-Raises :
        (job : FioJob) → Raises is_uncaught (run_job fl loads O scenario target node ctx job)
    unfolding run_job
    run_job-Raises job =
        Raises-if is_uncaught scenario.drop_caches_between_jobs _ _
          (Raises-try is_uncaught is_ssh_error (drop_caches node ctx)
            (after_drop fl loads O scenario target node ctx job) (Raises-drop_caches node ctx)
            (λ u. Raises-after_drop job (ok u) (λ e h. absurd cc))
            (λ e caught. Raises-after_drop job (raised e) (λ e' h. ground arith)))
          (Raises-run_one_job node _ _ _ _ _ _ ctx)
