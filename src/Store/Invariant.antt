-- ===== src/Store/Invariant.antt =====
-- harness/store.py: the constraints that SCHEMA_SQL declares, the primary keys and the references of
-- the three dependent tables to a run.
use aihomelab.Base.{
  ℕ, String, ◌≡◌, refl, Bool, true, false, Bool-cases, inl, inr, ◌∙◌, Option, none, some, List, [],
  ◌∷◌, map, All, All-mono, string_eq, nat_eq, pair_eq, Result, ok, Keeps,
}
use aihomelab.Table.{has_key, insert_row, replace_row, UniqueKeys}
use aihomelab.Table.Laws.{insert-UniqueKeys, update-UniqueKeys, replace-UniqueKeys, has_key-update}
use aihomelab.Table.Rows.{insert-All, replace-All, update-All, has_key-insert}
use aihomelab.Store.Schema.{
  RunRecord, ScenarioRecord, MetricRecord, MetricRow, EnvRow, Db, DbFile, absent, blank, tables,
  run_key, scenario_key, metric_key, env_key, has_run, empty_db,
}
use aihomelab.Store.Reads.{scenario_completed}
use aihomelab.Store.Writes.{
  commit, connect, init_db, insert_run, insert_scenario, insert_metrics, insert_env, start_run,
  finish_run, end_run, start_scenario, finish_scenario, end_scenario, record_metrics, record_env,
  metric_rows, update_run, update_scenario,
}

-- A dependent table still refers to runs once the runs have more keys.
still_refers :
    {A : Type 0} (id : A → String) (runs runs' : List RunRecord) (rows : List A)
    → ((k : String) → has_key run_key k runs ≡ true → has_key run_key k runs' ≡ true)
    → All (λ r. has_key run_key (id r) runs ≡ true) rows
    → All (λ r. has_key run_key (id r) runs' ≡ true) rows
still_refers id runs runs' rows more = All-mono _ _ rows (λ r. more (id r))

module _ {V : Type 0} where
  pub record IsSound (db : Db V) : Type 0 where
    pub run_keys : UniqueKeys run_key db.runs
    pub scenario_keys : UniqueKeys scenario_key db.scenarios
    pub metric_keys : UniqueKeys metric_key db.metrics
    pub env_keys : UniqueKeys env_key db.env_snapshots
    pub scenario_runs : All (λ r. has_run r.run_id db ≡ true) db.scenarios
    pub metric_runs : All (λ r. has_run r.run_id db ≡ true) db.metrics
    pub env_runs : All (λ r. has_run r.run_id db ≡ true) db.env_snapshots

  abbrev pub FileIsSound : DbFile V → Type 0
  FileIsSound (tables db) = IsSound db
  FileIsSound _ = Unit

  -- The constraints survive a block if they survive its commit, or its roll-back.
  connect-FileIsSound :
      {A : Type 0} (table : String) (block : Db V → Result (A × Db V))
      → ((db : Db V) → IsSound db → FileIsSound (commit db (block db)).1)
      → Keeps FileIsSound (connect table block)
  unfolding connect
  connect-FileIsSound {A} table block k = record { at = at }
    where
      at : (f : DbFile V) → FileIsSound f → FileIsSound (connect {A = A} table block f).1
      at absent s = tt
      at blank s = tt
      at (tables db) s = k db s

  with_runs :
      (db : Db V) (runs : List RunRecord)
      → UniqueKeys run_key runs
      → ((k : String) → has_run k db ≡ true → has_key run_key k runs ≡ true)
      → IsSound db
      → IsSound (record db { runs = runs })
  with_runs db runs unique more s = record {
    run_keys = unique;
    scenario_keys = s.scenario_keys;
    metric_keys = s.metric_keys;
    env_keys = s.env_keys;
    scenario_runs = still_refers (λ r. r.run_id) db.runs runs db.scenarios more s.scenario_runs;
    metric_runs = still_refers (λ r. r.run_id) db.runs runs db.metrics more s.metric_runs;
    env_runs = still_refers (λ r. r.run_id) db.runs runs db.env_snapshots more s.env_runs;
  }

  insert_run_block :
      (r : RunRecord) (db : Db V) (o : Option (List RunRecord))
      → insert_row run_key r db.runs ≡ o
      → IsSound db
      → FileIsSound (commit db (insert_run r db)).1
  unfolding insert_run
  insert_run_block r db none e s = rw (e, insert_run) s
  insert_run_block r db (some runs) e s =
      rw (e, insert_run)
        (with_runs db runs (insert-UniqueKeys run_key r db.runs runs e s.run_keys)
          (λ k. has_key-insert run_key k r db.runs runs e) s)

  with_scenarios :
      (db : Db V) (rows : List ScenarioRecord)
      → UniqueKeys scenario_key rows
      → All (λ r. has_run r.run_id db ≡ true) rows
      → IsSound db
      → IsSound (record db { scenarios = rows })
  with_scenarios db rows unique refers s = record {
    run_keys = s.run_keys;
    scenario_keys = unique;
    metric_keys = s.metric_keys;
    env_keys = s.env_keys;
    scenario_runs = refers;
    metric_runs = s.metric_runs;
    env_runs = s.env_runs;
  }

  insert_scenario_block :
      (r : ScenarioRecord) (db : Db V) (o : Option (List ScenarioRecord)) (b : Bool)
      → insert_row scenario_key r db.scenarios ≡ o
      → has_run r.run_id db ≡ b
      → IsSound db
      → FileIsSound (commit db (insert_scenario r db)).1
  unfolding insert_scenario
  insert_scenario_block r db none b e q s = rw (e, insert_scenario) s
  insert_scenario_block r db (some rows) false e q s = rw (e, q, insert_scenario) s
  insert_scenario_block r db (some rows) true e q s =
      rw (e, q, insert_scenario)
        (with_scenarios db rows
          (insert-UniqueKeys scenario_key r db.scenarios rows e s.scenario_keys)
          (insert-All scenario_key (λ x. has_run x.run_id db ≡ true) r db.scenarios rows e q
            s.scenario_runs)
          s)

  with_metric :
      (db : Db V) (r : MetricRow V)
      → has_run r.run_id db ≡ true
      → IsSound db
      → IsSound (record db { metrics = replace_row metric_key r db.metrics })
  with_metric db r q s = record {
    run_keys = s.run_keys;
    scenario_keys = s.scenario_keys;
    metric_keys = replace-UniqueKeys metric_key r db.metrics s.metric_keys;
    env_keys = s.env_keys;
    scenario_runs = s.scenario_runs;
    metric_runs =
        replace-All metric_key (λ x. has_run x.run_id db ≡ true) r db.metrics q s.metric_runs;
    env_runs = s.env_runs;
  }

  with_env :
      (db : Db V) (r : EnvRow)
      → has_run r.run_id db ≡ true
      → IsSound db
      → IsSound (record db { env_snapshots = replace_row env_key r db.env_snapshots })
  with_env db r q s = record {
    run_keys = s.run_keys;
    scenario_keys = s.scenario_keys;
    metric_keys = s.metric_keys;
    env_keys = replace-UniqueKeys env_key r db.env_snapshots s.env_keys;
    scenario_runs = s.scenario_runs;
    metric_runs = s.metric_runs;
    env_runs =
        replace-All env_key (λ x. has_run x.run_id db ≡ true) r db.env_snapshots q s.env_runs;
  }

  -- `executemany`: a row without its run rolls back the rows before it too.
  insert_metrics_block :
      (is_nan : V → Bool) (base : Db V) (rows : List (MetricRow V)) (db : Db V)
      → IsSound base
      → IsSound db
      → FileIsSound (commit base (insert_metrics is_nan rows db)).1
  unfolding insert_metrics
  insert_metrics_block is_nan base [] db sb s = s
  insert_metrics_block is_nan base (r ∷ rows) db sb s = elim (Bool-cases (is_nan r.record_.value)) [
    | inl nan ↦ rw nan sb
    | inr real ↦ elim (Bool-cases (has_run r.run_id db)) [
      | inl q ↦ rw (real, q) (insert_metrics_block is_nan base rows _ sb (with_metric db r q s))
      | inr q ↦ rw (real, q) sb
    ]
  ]

  insert_env_block :
      (base : Db V) (rows : List EnvRow) (db : Db V)
      → IsSound base
      → IsSound db
      → FileIsSound (commit base (insert_env rows db)).1
  unfolding insert_env
  insert_env_block base [] db sb s = s
  insert_env_block base (r ∷ rows) db sb s = elim (Bool-cases (has_run r.run_id db)) [
    | inl q ↦ rw q (insert_env_block base rows _ sb (with_env db r q s))
    | inr q ↦ rw q sb
  ]

  IsSound-empty : IsSound (empty_db {V = V})
  IsSound-empty = record {
    run_keys = tt;
    scenario_keys = tt;
    metric_keys = tt;
    env_keys = tt;
    scenario_runs = tt;
    metric_runs = tt;
    env_runs = tt;
  }

  pub init_db-FileIsSound : Keeps FileIsSound (init_db {V = V})
  unfolding init_db
  init_db-FileIsSound = record { at = at }
    where
      at : (f : DbFile V) → FileIsSound f → FileIsSound (init_db f).1
      at (tables db) s = s
      at absent s = IsSound-empty
      at blank s = IsSound-empty

  pub start_run-FileIsSound :
      (now : ℕ) (id name : String) (path : Option String) (dir : String) (notes : Option String)
      → Keeps FileIsSound (start_run {V = V} now id name path dir notes)
  unfolding start_run
  start_run-FileIsSound now id name path dir notes = record {
    at = λ f s.
        (connect-FileIsSound "runs" (insert_run _) (λ db k. insert_run_block _ db _ refl k)).at
          (init_db f).1 (init_db-FileIsSound.at f s);
  }

  pub finish_run-FileIsSound :
      (now : ℕ) (id status : String) → Keeps FileIsSound (finish_run {V = V} now id status)
  unfolding finish_run
  finish_run-FileIsSound now id status =
      connect-FileIsSound "runs" (update_run now id status) λ db s.
        with_runs db _
          (update-UniqueKeys run_key id (end_run now status) db.runs (λ r. refl) s.run_keys)
          (λ k h. has_key-update run_key id k (end_run now status) db.runs (λ r. refl) ∙ h) s

  pub start_scenario-FileIsSound :
      (now : ℕ) (id name : String) (i : ℕ) (kind target node path : String)
      → Keeps FileIsSound (start_scenario {V = V} now id name i kind target node path)
  unfolding start_scenario
  start_scenario-FileIsSound now id name i kind target node path =
      connect-FileIsSound "scenarios" _ λ db s. insert_scenario_block _ db _ _ refl refl s

  pub finish_scenario-FileIsSound :
      (now : ℕ) (id name : String) (i : ℕ) (status : String) (error : Option String)
      → Keeps FileIsSound (finish_scenario {V = V} now id name i status error)
  unfolding finish_scenario
  finish_scenario-FileIsSound now id name i status error =
      connect-FileIsSound "scenarios" (update_scenario now (id, (name, i)) status error) λ db s.
        with_scenarios db _
          (update-UniqueKeys scenario_key (id, (name, i)) (end_scenario now status error)
            db.scenarios (λ r. refl) s.scenario_keys)
          (update-All scenario_key (λ r. has_run r.run_id db ≡ true) (id, (name, i))
            (end_scenario now status error) db.scenarios (λ r h. h) s.scenario_runs)
          s

  pub record_metrics-FileIsSound :
      (is_nan : V → Bool) (id name : String) (i : ℕ) (records : List (MetricRecord V))
      → Keeps FileIsSound (record_metrics is_nan id name i records)
  unfolding record_metrics
  record_metrics-FileIsSound is_nan id name i [] = record { at = λ f s. s }
  record_metrics-FileIsSound is_nan id name i (r ∷ records) = record {
    at =
        (connect-FileIsSound "metrics" (insert_metrics is_nan (metric_rows id name i (r ∷ records)))
          λ db s. insert_metrics_block is_nan db (metric_rows id name i (r ∷ records)) db s s).at;
  }

  pub record_env-FileIsSound :
      (id node : String) (kv : List (String × String))
      → Keeps FileIsSound (record_env {V = V} id node kv)
  unfolding record_env
  record_env-FileIsSound id node kv = connect-FileIsSound "env_snapshots" _ λ db s.
      insert_env_block db
        (map (λ e. record { run_id = id; node = node; key = e.0; value = e.1 }) kv) db s s

  pub query-FileIsSound :
      {A : Type 0} (table : String) (q : Db V → A)
      → Keeps FileIsSound (connect table (λ db. ok (q db, db)))
  query-FileIsSound table q = connect-FileIsSound table (λ db. ok (q db, db)) (λ db s. s)

  pub scenario_completed-FileIsSound :
      (id name : String) (i : ℕ) → Keeps FileIsSound (scenario_completed {V = V} id name i)
  unfolding scenario_completed
  scenario_completed-FileIsSound id name i = query-FileIsSound "scenarios" _
