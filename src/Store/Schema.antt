-- ===== src/Store/Schema.antt =====
-- harness/store.py: the tables of SCHEMA_SQL and the rows that the queries return. A database file
-- is absent, blank (opened, but never given its tables) or holds the four tables. Timestamps count
-- seconds, as their ISO texts order them.
use aihomelab.Base.{ℕ, String, Bool, Option, List, [], string_eq, nat_eq, pair_eq}
use aihomelab.Table.{has_key}

pub record RunRecord : Type 0 where
  pub run_id : String
  pub campaign_name : String
  pub campaign_path : Option String
  pub started_at : ℕ
  pub ended_at : Option ℕ
  pub status : String
  pub raw_dir : String
  pub notes : Option String

pub record ScenarioRecord : Type 0 where
  pub run_id : String
  pub scenario_name : String
  pub repeat_idx : ℕ
  pub kind : String
  pub target_name : String
  pub target_node : String
  pub target_path : String
  pub started_at : ℕ
  pub ended_at : Option ℕ
  pub status : String
  pub error : Option String

-- harness/parsers/fio.py
pub record MetricRecord (V : Type 0) : Type 0 where
  pub job_name : String
  pub op : String
  pub metric : String
  pub value : V

pub record MetricRow (V : Type 0) : Type 0 where
  pub run_id : String
  pub scenario_name : String
  pub repeat_idx : ℕ
  pub record_ : MetricRecord V

pub record EnvRow : Type 0 where
  pub run_id : String
  pub node : String
  pub key : String
  pub value : String

pub record Db (V : Type 0) : Type 0 where
  pub runs : List RunRecord
  pub scenarios : List ScenarioRecord
  pub metrics : List (MetricRow V)
  pub env_snapshots : List EnvRow

pub data DbFile (V : Type 0) : Type 0 where
  absent blank : DbFile V
  tables : Db V → DbFile V

-- The primary keys.
abbrev pub ScenarioKey : Type 0
ScenarioKey = String × (String × ℕ)

abbrev pub MetricKey : Type 0
MetricKey = ScenarioKey × (String × (String × String))

abbrev pub run_key : RunRecord → String
run_key r = r.run_id

abbrev pub scenario_key : ScenarioRecord → ScenarioKey
scenario_key r = (r.run_id, (r.scenario_name, r.repeat_idx))

abbrev pub metric_key : {V : Type 0} → MetricRow V → MetricKey
metric_key r = (
  (r.run_id, (r.scenario_name, r.repeat_idx)),
  (r.record_.job_name, (r.record_.op, r.record_.metric)),
)

abbrev pub env_key : EnvRow → String × (String × String)
env_key r = (r.run_id, (r.node, r.key))

-- FOREIGN KEY (run_id) REFERENCES runs(run_id)
abbrev pub has_run : {V : Type 0} → String → Db V → Bool
has_run id db = has_key run_key id db.runs

abbrev pub empty_db : {V : Type 0} → Db V
empty_db = record { runs = []; scenarios = []; metrics = []; env_snapshots = [] }

-- What the queries return.
pub record RunRow : Type 0 where
  pub run_id : String
  pub campaign_name : String
  pub started_at : ℕ
  pub ended_at : Option ℕ
  pub status : String
  pub raw_dir : String

pub record ScenarioRow : Type 0 where
  pub scenario_name : String
  pub repeat_idx : ℕ
  pub kind : String
  pub target_name : String
  pub target_node : String
  pub target_path : String
  pub status : String
  pub started_at : ℕ
  pub ended_at : Option ℕ
  pub error : Option String

pub record StoredMetric (V : Type 0) : Type 0 where
  pub scenario_name : String
  pub repeat_idx : ℕ
  pub job_name : String
  pub op : String
  pub metric : String
  pub value : V
