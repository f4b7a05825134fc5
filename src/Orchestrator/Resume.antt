-- ===== src/Orchestrator/Resume.antt =====
-- harness/orchestrator.py: a repeat whose row is there already.
use aihomelab.Base.{
  ℕ, String, ◌≡◌, refl, Bool, true, false, some, List, ◌==◌, string_eq, nat_eq, pair_eq, Result, ok,
  raised, when, ◌>>=◌,
}
use aihomelab.Store.{ScenarioRecord, Db, tables, ScenarioKey, already_started, scenario_completed}
use aihomelab.Store.Resume.{status_at, start_scenario-twice}
use aihomelab.Config.{Campaign, ResolvedRun, Node}
use aihomelab.System.{Outside, Sys, stored, progress, utc_now}
use aihomelab.Runners.Interface.{RunContext, Runner}
use aihomelab.Orchestrator.{completed, start, execute_repeat}

-- The two ways in which a system's database and outside can stay as they were.
abbrev SameDb : {O : Outside} {V : Type 0} → Sys O V → Sys O V → Type 0
SameDb s t = t.db ≡ s.db

-- No command was sent and no file was written.
abbrev pub NothingRan : {O : Outside} {V : Type 0} → Sys O V → Sys O V → Type 0
NothingRan s t = (t.sent ≡ s.sent) × (t.files ≡ s.files) × (t.dirs ≡ s.dirs)

module _ {V : Type 0} (is_nan : V → Bool) {O : Outside} (runners : List (String × Runner O V))
    (campaign : Campaign V) (ctx : RunContext) (rr : ResolvedRun) (runner : Runner O V)
    (node : Node) (idx total repeat : ℕ) (s : Sys O V) (db : Db V) (row : ScenarioRecord) where
  abbrev repeat_key : ScenarioKey
  repeat_key = (ctx.run_id, (rr.scenario.name, repeat))

  abbrev after : Result Bool × Sys O V
  after = execute_repeat V is_nan O runners campaign ctx rr runner node idx total repeat s

  -- In a run that is no dry run, a repeat whose row says "ok" is skipped: it counts as not failed, the
  -- database stays as it was, and nothing is run or written.
  pub execute_repeat-completed :
      ctx.dry_run ≡ false
      → s.db ≡ tables db
      → status_at repeat_key db ≡ some row
      → (row.status == "ok") ≡ true
      → (after.0 ≡ ok false) × (after.1.db ≡ tables db) × NothingRan s after.1
  unfolding execute_repeat completed stored scenario_completed progress ◌>>=◌
  execute_repeat-completed dry e h done = rw (dry, e, h, done) (refl, refl, (refl, refl, refl))

  -- In a run that is no dry run, a repeat whose row does not say "ok", as an interrupted or failed run
  -- leaves it, is not run again: the repeat raises an IntegrityError, which no caller handles, the
  -- database stays as it was, and nothing is run or written.
  pub execute_repeat-interrupted :
      ctx.dry_run ≡ false
      → s.db ≡ tables db
      → status_at repeat_key db ≡ some row
      → (row.status == "ok") ≡ false
      → (after.0 ≡ raised already_started) × (after.1.db ≡ tables db) × NothingRan s after.1
  unfolding execute_repeat completed stored scenario_completed progress start when utc_now ◌>>=◌
  execute_repeat-interrupted dry e h unfinished =
      rw (dry, e, h, unfinished)
        (rw
          (
            ◌>>=◌,
            utc_now,
            stored,
            start_scenario-twice db (O.utc_now s.world).0 repeat_key rr.scenario.kind rr.target.name
                rr.target.node rr.target.path row h,
          )
          (refl, refl, (refl, refl, refl)))
