-- ===== src/Orchestrator/Scenario.antt =====
-- harness/orchestrator.py: `_execute_scenario`.
use aihomelab.Base.{
  ℕ, zero, suc, ◌+◌, String, ◌<>◌, Bool, true, false, not, ◌||◌, Option, none, some, List, [], ◌∷◌,
  find, ◌==◌, string_eq, Py, pure, raise, attempt, when, ◌>>=◌, ◌>>◌, Error, value_error,
  overflow_error, validation_error, file_not_found, runtime_error, type_error, key_error,
  attribute_error, unicode_error, index_error, integrity_error, operational_error, os_error,
  stop_iteration, remote_error, Result, ok, raised, if◌then◌else◌,
}
use aihomelab.Base.Int.{ℤ, pos, negsuc, ltb_ℤ}
use aihomelab.Base.Text.{show_ℕ, repr, is_empty}
use aihomelab.Base.Time.{whole_seconds}
use aihomelab.Config.{Campaign, ResolvedRun, Node, Cleanup, after_campaign, after_each_run, never}
use aihomelab.Store.{scenario_completed, start_scenario, finish_scenario, record_metrics}
use aihomelab.System.{Outside, Sys, utc_now, stored, progress}
use aihomelab.Ssh.{remote_message}
use aihomelab.Runners.Interface.{
  RunContext, JobStatus, succeeded, failed, timed_out, JobOutcome, Runner,
}

-- `str(e)`
abbrev error_text : Error → String
error_text (value_error m) = m
error_text (overflow_error m) = m
error_text (validation_error m) = m
error_text (file_not_found m) = m
error_text (runtime_error m) = m
error_text (type_error m) = m
error_text (key_error m) = repr m
error_text (attribute_error m) = m
error_text (unicode_error m) = m
error_text (index_error m) = m
error_text (integrity_error m) = m
error_text (operational_error m) = m
error_text (os_error m) = m
error_text stop_iteration = ""
error_text (remote_error r) = remote_message r

abbrev upper : JobStatus → String
upper succeeded = "OK"
upper failed = "FAILED"
upper timed_out = "TIMED_OUT"

abbrev pub is_ok : JobStatus → Bool
is_ok succeeded = true
is_ok failed = false
is_ok timed_out = false

-- `outcome.error or "(no error message)"`
abbrev error_or : Option String → String
error_or none = "(no error message)"
error_or (some m) = if is_empty m then "(no error message)" else m

-- The rounds of `range(n)`: none for a negative n.
abbrev pub rounds : ℤ → ℕ
rounds (pos n) = n
rounds (negsuc n) = 0

abbrev is_each_run : Cleanup → Bool
is_each_run after_campaign = false
is_each_run after_each_run = true
is_each_run never = false

-- `_RUNNERS.get(kind)`
abbrev pub runner_of : {A : Type 0} → String → List (String × A) → Option A
runner_of kind [] = none
runner_of kind ((k, r) ∷ rest) = if k == kind then some r else runner_of kind rest

-- `next(n for n in campaign.cluster.nodes if n.name == name)`
unfoldable pub find_node : {S V : Type 0} → Campaign V → String → Py S Node
unfolding ◌>>=◌
find_node c name = elim (find (λ n. n.name == name) c.cluster.nodes) [
  | none ↦ raise stop_iteration
  | some n ↦ pure n
]

module _ (V : Type 0) (is_nan : V → Bool) (O : Outside) (runners : List (String × Runner O V)) where
  module _ (campaign : Campaign V) (ctx : RunContext) (rr : ResolvedRun) where
    abbrev label : ℕ → String
    label repeat =
        if ltb_ℤ (pos 1) rr.run.repeat
        then rr.scenario.name <> ("#" <> show_ℕ repeat)
        else rr.scenario.name

    -- One round of the loop over the outcomes; what comes back tells whether the job failed.
    unfoldable pub record_outcome : ℕ → JobOutcome V → Py (Sys O V) Bool
    unfolding progress stored ◌>>=◌
    record_outcome repeat outcome =
        if is_ok outcome.status
        then (do
          n ←
              (if ctx.dry_run
                then pure 0
                else stored
                    (record_metrics is_nan ctx.run_id rr.scenario.name repeat outcome.metrics))
          progress (
              "  [OK] "
              <> (outcome.job_name
                  <> ("  ("
                      <> (whole_seconds outcome.duration <> ("s, " <> (show_ℕ n <> " metrics)"))))))
          pure false)
        else (do
          progress (
              "  ["
              <> (upper outcome.status
                  <> ("] " <> (outcome.job_name <> (": " <> error_or outcome.error)))))
          pure true)

    unfoldable pub consume : ℕ → List (Py (Sys O V) (JobOutcome V)) → Bool → Py (Sys O V) Bool
    unfolding record_outcome
    consume repeat [] any_failed = pure any_failed
    consume repeat (next ∷ rest) any_failed = do
      outcome ← next
      bad ← record_outcome repeat outcome
      consume repeat rest (any_failed || bad)

    -- `finish_scenario`, which a dry run leaves out.
    unfoldable pub finish : ℕ → String → Option String → Py (Sys O V) (Unit {0})
    unfolding utc_now stored when ◌>>=◌
    finish repeat status error = when (not ctx.dry_run) (do
      now ← utc_now
      stored (finish_scenario now ctx.run_id rr.scenario.name repeat status error))

    unfoldable pub start : ℕ → Py (Sys O V) (Unit {0})
    unfolding utc_now stored when ◌>>=◌
    start repeat = when (not ctx.dry_run) (do
      now ← utc_now
      stored (
          start_scenario now ctx.run_id rr.scenario.name repeat rr.scenario.kind rr.target.name
            rr.target.node (rr.target.path)))

    unfoldable pub completed : ℕ → Py (Sys O V) Bool
    unfolding stored ◌>>=◌
    completed repeat =
        if ctx.dry_run
        then pure false
        else stored (scenario_completed ctx.run_id rr.scenario.name repeat)

    module _ (runner : Runner O V) (node : Node) where
      -- From the outcome of `prepare` on.
      unfoldable pub after_prepare : ℕ → Result (Unit {0}) → Py (Sys O V) Bool
      unfolding finish consume
      after_prepare repeat (raised e) = do
        progress ("  [FAIL] prepare: " <> error_text e)
        finish repeat "failed" (some (error_text e))
        pure true
      after_prepare repeat (ok _) = do
        outcomes ← runner.run_jobs rr.scenario rr.target node ctx
        any_failed ← consume repeat outcomes false
        finish repeat (if any_failed then "failed" else "ok") none
        when (is_each_run campaign.cleanup) (do
          progress "  cleanup (after_each_run)"
          runner.cleanup rr.scenario rr.target node ctx)
        pure any_failed

      -- One round of the loop over the repeats; what comes back tells whether it failed.
      unfoldable pub execute_repeat : (idx total repeat : ℕ) → Py (Sys O V) Bool
      unfolding completed start after_prepare
      execute_repeat idx total repeat = do
        done ← completed repeat
        if done
            then (do progress ("[SKIP] " <> (label repeat <> " (already completed)")); pure false)
            else (do
              progress (
                  "\n["
                  <> (show_ℕ idx
                      <> ("/"
                          <> (show_ℕ total
                              <> ("] " <> (label repeat <> (" → " <> rr.target.name)))))))
              start repeat
              prepared ← attempt (do
                progress ("  prepare (" <> (rr.target.path <> ")"))
                runner.prepare rr.scenario rr.target node ctx)
              after_prepare repeat prepared)

      -- `left` rounds are left, and `repeat` is the next one.
      unfoldable pub execute_repeats : (idx total left repeat : ℕ) → Bool → Py (Sys O V) Bool
      unfolding execute_repeat
      execute_repeats idx total zero repeat any_failed = pure any_failed
      execute_repeats idx total (suc left) repeat any_failed = do
        bad ← execute_repeat idx total repeat
        execute_repeats idx total left (repeat + 1) (any_failed || bad)

    unfoldable pub execute_scenario : (idx total : ℕ) → Py (Sys O V) Bool
    unfolding execute_repeats find_node
    execute_scenario idx total = elim (runner_of rr.scenario.kind runners) [
      | none ↦ do
        progress ("[FAIL] no runner registered for scenario kind=" <> repr rr.scenario.kind)
        pure true
      | some runner ↦ do
        node ← find_node campaign rr.target.node
        execute_repeats runner node idx total (rounds rr.run.repeat) 0 false
    ]
