-- ===== src/Tests/Resumes.antt =====
-- A run that was interrupted in its first scenario, and one that completed it.
use aihomelab.Base.{
  ℕ, String, ◌≡◌, refl, Bool, true, false, Option, none, some, [], ◌∷◌, string_eq, nat_eq, pair_eq,
  Result, ok, raised,
}
use mathlib.Core.List.{Memᴰ}
use aihomelab.Store.{
  RunRecord, ScenarioRecord, Db, tables, already_started, scenario_completed, start_scenario,
  finish_scenario, ScenarioKey,
}
use aihomelab.Store.Resume.{scenario_completed-finish_scenario, start_scenario-fresh}
use aihomelab.System.{Sys}
use aihomelab.Runners.Interface.{RunContext}
use aihomelab.Floats.{is_nan}
use aihomelab.Orchestrator.{execute_repeat, find_latest_running_run}
use aihomelab.Orchestrator.Latest.{IsNewest, find_latest_running_run-IsNewest}
use aihomelab.Orchestrator.Resume.{NothingRan, execute_repeat-completed, execute_repeat-interrupted}
use aihomelab.Runners.Fio.{fio_runner}
use aihomelab.Tests.Samples.{fixed, quiet, smoke, bound, spark, runners, fresh, loads_empty}

abbrev pub run_row_1 : RunRecord
run_row_1 = record {
  run_id = "r1";
  campaign_name = "smoke";
  campaign_path = some "c.yaml";
  started_at = 5;
  ended_at = none;
  status = "running";
  raw_dir = "results/raw/r1";
  notes = none;
}

abbrev pub left_with : String → ScenarioRecord
left_with status = record {
  run_id = "r1";
  scenario_name = "tiny";
  repeat_idx = 0;
  kind = "fio";
  target_name = "nvme";
  target_node = "spark01";
  target_path = "/bench";
  started_at = 6;
  ended_at = none;
  status = status;
  error = none;
}

abbrev db_with : String → Db ℕ
db_with status = record {
  runs = run_row_1 ∷ [];
  scenarios = left_with status ∷ [];
  metrics = [];
  env_snapshots = [];
}

abbrev key : ScenarioKey
key = ("r1", ("tiny", 0))

abbrev other_key : ScenarioKey
other_key = ("r1", ("other", 0))

scenario_completed-finish_scenario_example :
    (scenario_completed "r1" "tiny" 0
      (finish_scenario 9 "r1" "tiny" 0 "ok" none (tables (db_with "running"))).1).0
    ≡ ok true
unfolding string_eq nat_eq pair_eq
scenario_completed-finish_scenario_example =
    scenario_completed-finish_scenario (db_with "running") 9 key key "ok" none (left_with "running")
      refl

start_scenario-fresh_example :
    let (r, f) =
      start_scenario 9 "r1" "other" 0 "fio" "nvme" "spark01" "/bench" (tables (db_with "ok")) in
    (r ≡ ok tt) × ((scenario_completed "r1" "tiny" 0 f).0 ≡ ok true)
unfolding string_eq nat_eq pair_eq
start_scenario-fresh_example =
    start_scenario-fresh (db_with "ok") 9 other_key key "fio" "nvme" "spark01" "/bench" refl refl

abbrev ctx : RunContext
ctx = record { run_id = "r1"; raw_dir = "results/raw/r1"; dry_run = false }

abbrev resumed : String → Sys quiet ℕ
resumed status = record fresh { db = tables (db_with status) }

abbrev again : String → Result Bool × Sys quiet ℕ
again status =
    execute_repeat ℕ (is_nan fixed) quiet runners smoke ctx bound
      (fio_runner fixed loads_empty quiet) spark 1 1 0 (resumed status)

execute_repeat-completed_example :
    ((again "ok").0 ≡ ok false)
    × ((again "ok").1.db ≡ tables (db_with "ok"))
    × NothingRan (resumed "ok") (again "ok").1
unfolding string_eq nat_eq pair_eq
execute_repeat-completed_example =
    execute_repeat-completed (is_nan fixed) runners smoke ctx bound
      (fio_runner fixed loads_empty quiet) spark 1 1 0 (resumed "ok") (db_with "ok")
      (left_with "ok") refl refl refl refl

execute_repeat-interrupted_example :
    ((again "running").0 ≡ raised already_started)
    × ((again "running").1.db ≡ tables (db_with "running"))
    × NothingRan (resumed "running") (again "running").1
unfolding string_eq nat_eq pair_eq
execute_repeat-interrupted_example =
    execute_repeat-interrupted (is_nan fixed) runners smoke ctx bound
      (fio_runner fixed loads_empty quiet) spark 1 1 0 (resumed "running") (db_with "running")
      (left_with "running") refl refl refl refl

find_latest_running_run-IsNewest_example :
    (o : Option String) × (find_latest_running_run (some "smoke") (tables (db_with "ok"))
      ≡ (ok o, tables (db_with "ok")))
    × IsNewest (some "smoke") (run_row_1 ∷ []) (λ r. Memᴰ r (run_row_1 ∷ [])) o
find_latest_running_run-IsNewest_example =
    find_latest_running_run-IsNewest (some "smoke") (db_with "ok")
