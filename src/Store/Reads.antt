-- ===== src/Store/Reads.antt =====
-- harness/store.py: the queries.
use aihomelab.Base.{
  ℕ, String, Bool, true, false, Option, none, some, List, map, ◌==◌, string_eq, nat_eq, pair_eq, ok,
  Py, select, ltb, order_by, if◌then◌else◌,
}
use aihomelab.Base.Text.{text_lt}
use aihomelab.Table.{find_key}
use mathlib.Core.Option
use aihomelab.Store.Schema.{
  RunRecord, ScenarioRecord, MetricRecord, MetricRow, Db, DbFile, run_key, scenario_key, RunRow,
  ScenarioRow, StoredMetric,
}
use aihomelab.Store.Writes.{connect}

-- ORDER BY a, b: the second order counts where the first key is the same.
abbrev then_by : Bool → Bool → Bool → Bool
then_by less same rest = if less then true else if same then rest else false

abbrev pub run_row : RunRecord → RunRow
run_row r = record {
  run_id = r.run_id;
  campaign_name = r.campaign_name;
  started_at = r.started_at;
  ended_at = r.ended_at;
  status = r.status;
  raw_dir = r.raw_dir;
}

abbrev scenario_row : ScenarioRecord → ScenarioRow
scenario_row r = record {
  scenario_name = r.scenario_name;
  repeat_idx = r.repeat_idx;
  kind = r.kind;
  target_name = r.target_name;
  target_node = r.target_node;
  target_path = r.target_path;
  status = r.status;
  started_at = r.started_at;
  ended_at = r.ended_at;
  error = r.error;
}

abbrev stored_metric : {V : Type 0} → MetricRow V → StoredMetric V
stored_metric r = record {
  scenario_name = r.scenario_name;
  repeat_idx = r.repeat_idx;
  job_name = r.record_.job_name;
  op = r.record_.op;
  metric = r.record_.metric;
  value = r.record_.value;
}

-- ORDER BY started_at DESC, rowid DESC. The rows come in the order of their rowids, so one stands
-- before a later one only if it started after it.
abbrev pub started_after : RunRecord → RunRecord → Bool
started_after a b = ltb b.started_at a.started_at

unfoldable pub newest_first : List RunRecord → List RunRecord
newest_first = order_by started_after

-- ORDER BY started_at, scenario_name, repeat_idx
scenario_before : ScenarioRecord → ScenarioRecord → Bool
scenario_before a b = then_by (ltb a.started_at b.started_at) (a.started_at == b.started_at) (
    then_by (text_lt a.scenario_name b.scenario_name) (a.scenario_name == b.scenario_name)
      (ltb a.repeat_idx b.repeat_idx))

-- ORDER BY scenario_name, repeat_idx, job_name, op, metric
metric_before : {V : Type 0} → MetricRow V → MetricRow V → Bool
metric_before a b =
    then_by (text_lt a.scenario_name b.scenario_name) (a.scenario_name == b.scenario_name) (
      then_by (ltb a.repeat_idx b.repeat_idx) (a.repeat_idx == b.repeat_idx) (
        then_by (text_lt a.record_.job_name b.record_.job_name)
          (a.record_.job_name == b.record_.job_name)
          (then_by (text_lt a.record_.op b.record_.op) (a.record_.op == b.record_.op)
            (text_lt a.record_.metric b.record_.metric))))

abbrev path_of : Option RunRecord → Option String
path_of none = none
path_of (some r) = r.campaign_path

abbrev pub is_ok : Option ScenarioRecord → Bool
is_ok none = false
is_ok (some r) = r.status == "ok"

module _ {V : Type 0} where
  unfoldable pub list_runs : Py (DbFile V) (List RunRow)
  unfolding connect newest_first
  list_runs = connect "runs" λ db. ok (map run_row (newest_first db.runs), db)

  unfoldable pub get_run : String → Py (DbFile V) (Option RunRow)
  unfolding connect
  get_run run_id =
      connect "runs" λ db. ok (Option.map run_row (find_key run_key run_id db.runs), db)

  unfoldable pub get_run_campaign_path : String → Py (DbFile V) (Option String)
  unfolding connect
  get_run_campaign_path run_id =
      connect "runs" λ db. ok (path_of (find_key run_key run_id db.runs), db)

  unfoldable pub get_scenarios_for_run : String → Py (DbFile V) (List ScenarioRow)
  unfolding connect scenario_before
  get_scenarios_for_run run_id = connect "scenarios" λ db. ok (
    map scenario_row (order_by scenario_before (select (λ r. r.run_id == run_id) db.scenarios)),
    db,
  )

  metrics_of : String → Db V → List (MetricRow V)
  unfolding metric_before
  metrics_of run_id db = order_by metric_before (select (λ r. r.run_id == run_id) db.metrics)

  unfoldable pub get_all_metrics : String → Py (DbFile V) (List (StoredMetric V))
  unfolding connect metrics_of
  get_all_metrics run_id = connect "metrics" λ db. ok (map stored_metric (metrics_of run_id db), db)

  unfoldable pub get_metrics_for_run : String → Py (DbFile V) (List (MetricRecord V))
  unfolding connect metrics_of
  get_metrics_for_run run_id =
      connect "metrics" λ db. ok (map (λ r. r.record_) (metrics_of run_id db), db)

  unfoldable pub scenario_completed :
      (run_id scenario_name : String) (repeat_idx : ℕ) → Py (DbFile V) Bool
  unfolding connect
  scenario_completed run_id scenario_name repeat_idx = connect "scenarios" λ db.
      ok (is_ok (find_key scenario_key (run_id, (scenario_name, repeat_idx)) db.scenarios), db)
