-- ===== src/Store/Writes.antt =====
-- harness/store.py: the connection and the statements that write.
use aihomelab.Base.{
  Bool, ℕ, String, ◌<>◌, Option, none, some, List, [], ◌∷◌, map, length, Error, integrity_error,
  operational_error, Result, ok, raised, Py, string_eq, nat_eq, pair_eq, if◌then◌else◌,
}
use aihomelab.Table.{insert_row, replace_row, update_row}
use aihomelab.Store.Schema.{
  RunRecord, ScenarioRecord, MetricRecord, MetricRow, EnvRow, Db, DbFile, absent, blank, tables,
  run_key, scenario_key, metric_key, env_key, has_run, empty_db, ScenarioKey,
}

abbrev pub unique_failed : String → Error
unique_failed columns = integrity_error ("UNIQUE constraint failed: " <> columns)

-- A second row for a run, scenario and repeat.
abbrev pub already_started : Error
already_started = unique_failed "scenarios.run_id, scenarios.scenario_name, scenarios.repeat_idx"

not_null_failed : Error
not_null_failed = integrity_error "NOT NULL constraint failed: metrics.value"

foreign_failed : Error
foreign_failed = integrity_error "FOREIGN KEY constraint failed"

abbrev pub end_run : ℕ → String → RunRecord → RunRecord
end_run now status r = record r { ended_at = some now; status = status }

abbrev pub end_scenario : ℕ → String → Option String → ScenarioRecord → ScenarioRecord
end_scenario now status error r = record r { ended_at = some now; status = status; error = error }

module _ {V A : Type 0} where
  -- `with _connect(db_path) as conn`: the connection creates the file, commits what the block did,
  -- and rolls it back if the block raises.
  abbrev pub commit : Db V → Result (A × Db V) → Result A × DbFile V
  commit db (ok (a, db')) = (ok a, tables db')
  commit db (raised e) = (raised e, tables db)

  unfoldable pub connect : String → (Db V → Result (A × Db V)) → Py (DbFile V) A
  connect table block absent = (raised (operational_error ("no such table: " <> table)), blank)
  connect table block blank = (raised (operational_error ("no such table: " <> table)), blank)
  connect table block (tables db) = commit db (block db)

module _ {V : Type 0} where
  unfoldable pub init_db : Py (DbFile V) (Unit {0})
  init_db absent = (ok tt, tables empty_db)
  init_db blank = (ok tt, tables empty_db)
  init_db (tables db) = (ok tt, tables db)

  unfoldable pub insert_run : RunRecord → Db V → Result (Unit {0} × Db V)
  insert_run r db = elim (insert_row run_key r db.runs) [
    | none ↦ raised (unique_failed "runs.run_id")
    | some runs ↦ ok (tt, record db { runs = runs })
  ]

  unfoldable pub insert_scenario : ScenarioRecord → Db V → Result (Unit {0} × Db V)
  unfolding foreign_failed
  insert_scenario r db = elim (insert_row scenario_key r db.scenarios) [
    | none ↦ raised already_started
    | some rows ↦
        if has_run r.run_id db
        then ok (tt, record db { scenarios = rows })
        else raised foreign_failed
  ]

  -- `executemany` over INSERT OR REPLACE INTO metrics; a value that is NaN is stored as a NULL, which
  -- `value REAL NOT NULL` refuses.
  unfoldable pub insert_metrics : (V → Bool) → List (MetricRow V) → Db V → Result (Unit {0} × Db V)
  unfolding foreign_failed not_null_failed
  insert_metrics is_nan [] db = ok (tt, db)
  insert_metrics is_nan (r ∷ rows) db =
      let rest =
        insert_metrics is_nan rows (record db { metrics = replace_row metric_key r db.metrics }) in
      if is_nan r.record_.value
      then raised not_null_failed
      else if has_run r.run_id db
      then rest
      else raised foreign_failed

  unfoldable pub insert_env : List EnvRow → Db V → Result (Unit {0} × Db V)
  unfolding foreign_failed
  insert_env [] db = ok (tt, db)
  insert_env (r ∷ rows) db =
      let rest =
        insert_env rows (record db { env_snapshots = replace_row env_key r db.env_snapshots }) in
      if has_run r.run_id db then rest else raised foreign_failed

  -- The second connection starts from what `init_db` left; `init_db` raises nothing.
  unfoldable pub start_run :
      (now : ℕ) (run_id campaign_name : String) (campaign_path : Option String) (raw_dir : String)
      (notes : Option String)
      → Py (DbFile V) (Unit {0})
  unfolding init_db connect insert_run
  start_run now run_id campaign_name campaign_path raw_dir notes f =
      connect "runs"
        (insert_run (record {
          run_id = run_id;
          campaign_name = campaign_name;
          campaign_path = campaign_path;
          started_at = now;
          ended_at = none;
          status = "running";
          raw_dir = raw_dir;
          notes = notes;
        }))
        (init_db f).1

  unfoldable pub update_run : ℕ → String → String → Db V → Result (Unit {0} × Db V)
  update_run now run_id status db =
      ok (tt, record db { runs = update_row run_key run_id (end_run now status) db.runs })

  unfoldable pub finish_run : (now : ℕ) (run_id status : String) → Py (DbFile V) (Unit {0})
  unfolding connect update_run
  finish_run now run_id status = connect "runs" (update_run now run_id status)

  unfoldable pub start_scenario :
      (now : ℕ) (run_id scenario_name : String) (repeat_idx : ℕ)
      (kind target_name target_node target_path : String)
      → Py (DbFile V) (Unit {0})
  unfolding connect insert_scenario
  start_scenario now run_id scenario_name repeat_idx kind target_name target_node target_path =
      connect "scenarios" (
        insert_scenario (record {
          run_id = run_id;
          scenario_name = scenario_name;
          repeat_idx = repeat_idx;
          kind = kind;
          target_name = target_name;
          target_node = target_node;
          target_path = target_path;
          started_at = now;
          ended_at = none;
          status = "running";
          error = none;
        }))

  unfoldable pub update_scenario :
      ℕ → ScenarioKey → String → Option String → Db V → Result (Unit {0} × Db V)
  update_scenario now k status error db = ok (
    tt,
    record db {
      scenarios = update_row scenario_key k (end_scenario now status error) db.scenarios;
    },
  )

  unfoldable pub finish_scenario :
      (now : ℕ) (run_id scenario_name : String) (repeat_idx : ℕ) (status : String)
      (error : Option String)
      → Py (DbFile V) (Unit {0})
  unfolding connect update_scenario
  finish_scenario now run_id scenario_name repeat_idx status error =
      connect "scenarios" (update_scenario now (run_id, (scenario_name, repeat_idx)) status error)

  abbrev pub metric_rows : String → String → ℕ → List (MetricRecord V) → List (MetricRow V)
  metric_rows run_id scenario_name repeat_idx = map λ r. record {
    run_id = run_id;
    scenario_name = scenario_name;
    repeat_idx = repeat_idx;
    record_ = r;
  }

  -- The number of rows comes back; with none the database is not opened.
  unfoldable pub record_metrics :
      (V → Bool)
      → (run_id scenario_name : String) (repeat_idx : ℕ) (records : List (MetricRecord V))
      → Py (DbFile V) ℕ
  unfolding connect insert_metrics
  record_metrics is_nan run_id scenario_name repeat_idx [] f = (ok 0, f)
  record_metrics is_nan run_id scenario_name repeat_idx (r ∷ records) f =
      let rows = metric_rows run_id scenario_name repeat_idx (r ∷ records) in
      let (written, f') = connect "metrics" (insert_metrics is_nan rows) f in
      (elim written [ ok _ ↦ ok (length rows) | raised e ↦ raised e ], f')

  unfoldable pub record_env :
      (run_id node : String) (kv : List (String × String)) → Py (DbFile V) (Unit {0})
  unfolding connect insert_env
  record_env run_id node kv =
      connect "env_snapshots"
        (insert_env (map (λ e. record { run_id = run_id; node = node; key = e.0; value = e.1 }) kv))
