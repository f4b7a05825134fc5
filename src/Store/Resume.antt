-- ===== src/Store/Resume.antt =====
-- harness/store.py: what the scenarios' table tells a resumed run.
use aihomelab.Base.{
  ℕ, String, ◌≡◌, refl, Bool, true, false, Option, none, some, arith, ◌==◌, string_eq, nat_eq,
  pair_eq, ok, raised, if◌then◌else◌,
}
use aihomelab.Table.{has_key, find_key, insert_row}
use aihomelab.Table.Laws.{has_key-find, find_key-append, find-update}
use aihomelab.Store.Schema.{ScenarioRecord, Db, tables, scenario_key, ScenarioKey, has_run}
use aihomelab.Store.Reads.{is_ok, scenario_completed}
use aihomelab.Store.Writes.{
  insert_scenario, start_scenario, already_started, end_scenario, finish_scenario,
}

-- The status that a query of one key finds.
abbrev pub status_at : {V : Type 0} → ScenarioKey → Db V → Option ScenarioRecord
status_at k db = find_key scenario_key k db.scenarios

-- The row that `start_scenario` adds.
abbrev new_row : ℕ → ScenarioKey → (kind target node path : String) → ScenarioRecord
new_row now k kind target node path = record {
  run_id = k.0;
  scenario_name = k.1.0;
  repeat_idx = k.1.1;
  kind = kind;
  target_name = target;
  target_node = node;
  target_path = path;
  started_at = now;
  ended_at = none;
  status = "running";
  error = none;
}

abbrev is_done : String → Bool
is_done status = status == "ok"

running_is_open : is_done "running" ≡ false
unfolding string_eq
running_is_open = refl

module _ {V : Type 0} (db : Db V) where
  -- After `finish_scenario` of a key whose row is there, that key counts as completed exactly if the
  -- status given was "ok"; every other key counts as completed exactly if it did before.
  pub scenario_completed-finish_scenario :
      (now : ℕ) (k j : ScenarioKey) (status : String) (error : Option String) (row : ScenarioRecord)
      → status_at k db ≡ some row
      → (scenario_completed j.0 j.1.0 j.1.1
          (finish_scenario now k.0 k.1.0 k.1.1 status error (tables db)).1).0
        ≡ ok (if j == k then status == "ok" else is_ok (status_at j db))
  unfolding scenario_completed finish_scenario
  scenario_completed-finish_scenario now k j status error row h =
      rw (find-update scenario_key k j (end_scenario now status error) db.scenarios (λ r. refl))
        (ground arith)

  -- A scenario whose row is there, however it ended, cannot be started again under its key:
  -- `start_scenario` raises an IntegrityError, and the database file stays as it was.
  pub start_scenario-twice :
      (now : ℕ) (k : ScenarioKey) (kind target node path : String) (row : ScenarioRecord)
      → status_at k db ≡ some row
      → start_scenario now k.0 k.1.0 k.1.1 kind target node path (tables db)
        ≡ (raised already_started, tables db)
  unfolding start_scenario insert_scenario insert_row
  start_scenario-twice now k kind target node path row h =
      let there : has_key scenario_key k db.scenarios ≡ true =
        rw (has_key-find scenario_key k db.scenarios, h) refl in
      rw (there, insert_scenario) refl

  -- A scenario without a row, in a run that is there, is started with the status "running": the call
  -- returns, and its key and every other one count as completed exactly if they did before.
  pub start_scenario-fresh :
      (now : ℕ) (k j : ScenarioKey) (kind target node path : String)
      → status_at k db ≡ none
      → has_run k.0 db ≡ true
      → let (r, f) = start_scenario now k.0 k.1.0 k.1.1 kind target node path (tables db) in
        (r ≡ ok tt) × ((scenario_completed j.0 j.1.0 j.1.1 f).0 ≡ ok (is_ok (status_at j db)))
  unfolding start_scenario insert_scenario insert_row scenario_completed
  start_scenario-fresh now k j kind target node path h q =
      let fresh : has_key scenario_key k db.scenarios ≡ false =
        rw (has_key-find scenario_key k db.scenarios, h) refl in
      rw (fresh, q, insert_scenario)
        (
          refl,
          rw
              (find_key-append scenario_key j (new_row now k kind target node path) db.scenarios
                fresh)
              (ground (arith, running_is_open)),
        )
