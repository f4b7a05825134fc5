-- ===== src/Runners/Interface.antt =====
-- harness/runners/base.py: what the orchestrator hands a runner, and what a runner does.
pub mod Laws
use aihomelab.Base.{ℕ, String, Bool, Option, List, Py}
use aihomelab.Config.{FioScenarioSpec, StorageTarget, Node}
use aihomelab.Store.{MetricRecord}
use aihomelab.System.{Outside, Sys}

pub record RunContext : Type 0 where
  pub run_id : String
  pub raw_dir : String
  pub dry_run : Bool

pub data JobStatus : Type 0 where
  succeeded failed timed_out : JobStatus

pub record JobOutcome (V : Type 0) : Type 0 where
  pub job_name : String
  pub status : JobStatus
  pub raw_json_path : Option String
  pub duration : ℕ
  pub error : Option String
  pub metrics : List (MetricRecord V)

-- `run_jobs` is a generator: what it does before the first outcome, and then an action for each
-- outcome that it yields, made when the orchestrator asks for it.
pub record Runner (O : Outside) (V : Type 0) : Type 0 where
  pub prepare : FioScenarioSpec → StorageTarget → Node → RunContext → Py (Sys O V) (Unit {0})
  pub run_jobs :
      FioScenarioSpec
      → StorageTarget
      → Node
      → RunContext
      → Py (Sys O V) (List (Py (Sys O V) (JobOutcome V)))
  pub cleanup : FioScenarioSpec → StorageTarget → Node → RunContext → Py (Sys O V) (Unit {0})
