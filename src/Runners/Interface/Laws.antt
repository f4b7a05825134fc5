-- ===== src/Runners/Interface/Laws.antt =====
-- What the orchestrator may assume of a runner: it writes to its target and to files, and leaves the
-- database alone, in `prepare`, before the first outcome, for each outcome and in `cleanup`.
use aihomelab.Base.{◌≡◌, List, All, Py, ok, Keeps}
use aihomelab.Store.{DbFile}
use aihomelab.Config.{FioScenarioSpec, StorageTarget, Node}
use aihomelab.System.{Outside, Sys}
use aihomelab.System.Database.{OnDb}
use aihomelab.Runners.Interface.{RunContext, JobOutcome, Runner}

pub record KeepsDatabase {O : Outside} {V : Type 0} (Q : DbFile V → Type 0) (R : Runner O V)
    : Type 0 where
  pub prepare :
      (scenario : FioScenarioSpec) (target : StorageTarget) (node : Node) (ctx : RunContext)
      → Keeps (OnDb {O = O} Q) (R.prepare scenario target node ctx)
  pub run_jobs :
      (scenario : FioScenarioSpec) (target : StorageTarget) (node : Node) (ctx : RunContext)
      → Keeps (OnDb {O = O} Q) (R.run_jobs scenario target node ctx)
  pub actions :
      (scenario : FioScenarioSpec) (target : StorageTarget) (node : Node) (ctx : RunContext)
      (s : Sys O V) (actions : List (Py (Sys O V) (JobOutcome V)))
      → (R.run_jobs scenario target node ctx s).0 ≡ ok actions
      → All (Keeps (OnDb {O = O} Q)) actions
  pub cleanup :
      (scenario : FioScenarioSpec) (target : StorageTarget) (node : Node) (ctx : RunContext)
      → Keeps (OnDb {O = O} Q) (R.cleanup scenario target node ctx)
