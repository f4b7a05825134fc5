-- ===== src/Report/Laws.antt =====
-- harness/report.py: a report where the campaign file is gone.
use aihomelab.Base.{
  is_some, raised, Error, value_error, validation_error, unicode_error, file_not_found, Bool, true,
  Bool-cases, inl, inr, ℕ, String, ◌≡◌, refl, false, Option, none, some, List, [], ◌∷◌, All,
  string_eq, nat_eq, pair_eq, ok, ◌>>=◌,
}
use aihomelab.Base.Text.{given}
use aihomelab.Floats.{Floats}
use aihomelab.Config.{Loader, load_campaign}
use aihomelab.Store.{
  RunRecord, ScenarioRow, Db, tables, StoredMetric, run_row, run_key, get_run,
  get_run_campaign_path, get_scenarios_for_run, get_all_metrics,
}
use aihomelab.Table.{find_key}
use aihomelab.Report.Sections.{
  ReportRow, ScenarioSection, Report, Metrics, build_row, build_rows, build_section, group_metrics,
  present, build_sections, metadata_of, metadata_at, load_job_metadata, known_run, load_baseline,
  render_report,
}
use aihomelab.Report.Spec.{primary_metric, pct_of_spec}

-- The row shows the bandwidth, no share of a vendor's figure and no warning.
abbrev pub IsRaw : {V : Type 0} → ReportRow V → Type 0
IsRaw r = (r.primary_label ≡ "bw_mbps") × (r.pct_of_spec ≡ none) × (r.wrap_warning ≡ false)

abbrev pub AllRaw : {V : Type 0} → List (ScenarioSection V) → Type 0
AllRaw sections = All (λ x. All IsRaw x.rows) sections

abbrev section_of : {V : Type 0} → ScenarioRow → List (ReportRow V) → ScenarioSection V
section_of s rows = record {
  scenario_name = s.scenario_name;
  repeat_idx = s.repeat_idx;
  target_name = s.target_name;
  status = s.status;
  rows = rows;
}

-- `except (FileNotFoundError, ValidationError, ValueError)`
abbrev pub is_unloadable : Error → Bool
is_unloadable (file_not_found m) = true
is_unloadable (validation_error m) = true
is_unloadable (value_error m) = true
is_unloadable (unicode_error m) = true
is_unloadable e = false

module _ (fl : Floats) (metrics : Metrics fl.Float) (base : Option (Metrics fl.Float)) where
  build_row-IsRaw :
      (place : String × ℕ) (pair : String × String)
      → (row : ReportRow fl.Float) × (build_row fl place metrics base [] none pair ≡ ok row)
        × IsRaw row
  unfolding build_row primary_metric pct_of_spec
  build_row-IsRaw place (job, op) = (_, refl, (refl, refl, refl))

  build_rows-IsRaw :
      (place : String × ℕ) (pairs : List (String × String))
      → (rows : List (ReportRow fl.Float)) × (build_rows fl place metrics base [] none pairs
          ≡ ok rows)
        × All IsRaw rows
  unfolding build_rows
  build_rows-IsRaw place [] = ([], refl, tt)
  build_rows-IsRaw place (pair ∷ pairs) =
      let (row, e, raw) = build_row-IsRaw place pair in
      let (rows, e', a) = build_rows-IsRaw place pairs in (row ∷ rows, rw (e, e') refl, (raw, a))

  build_section-IsRaw :
      (s : ScenarioRow)
      → (x : ScenarioSection fl.Float) × (build_section fl metrics base [] none s ≡ ok x)
        × All IsRaw x.rows
  unfolding build_section
  build_section-IsRaw s =
      let place : String × ℕ = (s.scenario_name, s.repeat_idx) in
      let (rows, e, a) = build_rows-IsRaw place (present place metrics) in
      (section_of s rows, rw e refl, a)

  build_sections-AllRaw :
      (ss : List ScenarioRow)
      → (xs : List (ScenarioSection fl.Float)) × (build_sections fl metrics base [] none ss ≡ ok xs)
        × AllRaw xs
  unfolding build_sections
  build_sections-AllRaw [] = ([], refl, tt)
  build_sections-AllRaw (s ∷ ss) =
      let (x, e, a) = build_section-IsRaw s in
      let (xs, e', as_) = build_sections-AllRaw ss in (x ∷ xs, rw (e, e') refl, (a, as_))

module _ (fl : Floats) (ld : Loader fl.Float) (db : Db fl.Float) (db_path run_id : String)
    (row : RunRecord) where
  scenarios_returned :
      (ss : List ScenarioRow) × (get_scenarios_for_run run_id (tables db) ≡ (ok ss, tables db))
  unfolding get_scenarios_for_run
  scenarios_returned = (_, refl)

  metrics_returned :
      (ms : List (StoredMetric fl.Float)) × (get_all_metrics run_id (tables db)
        ≡ (ok ms, tables db))
  unfolding get_all_metrics
  metrics_returned = (_, refl)

  run_found :
      find_key run_key run_id db.runs ≡ some row
      → known_run fl ld "run" db_path run_id (tables db) ≡ (ok (run_row row), tables db)
  unfolding known_run get_run ◌>>=◌
  run_found h = rw h refl

  metadata_gone :
      find_key run_key run_id db.runs ≡ some row
      → metadata_at fl ld (given row.campaign_path) ≡ ok ([], none)
      → load_job_metadata fl ld run_id (tables db) ≡ (ok ([], none), tables db)
  unfolding load_job_metadata get_run_campaign_path ◌>>=◌
  metadata_gone h k = rw h (rw k refl)

  -- What the campaign file was when it is asked for: no path was recorded, no file is there, or the
  -- file does not load, with an exception that is caught.
  pub data IsLost : Option String → Type 0 where
    unrecorded : IsLost none
    gone : {path : String} → is_some (ld.read_text path) ≡ false → IsLost (some path)
    invalid :
        {path : String} (e : Error)
        → load_campaign fl ld path ≡ raised e
        → is_unloadable e ≡ true
        → IsLost (some path)

  metadata_of-raised :
      (e : Error) → is_unloadable e ≡ true → metadata_of fl (raised e) ≡ ok ([], none)
  metadata_of-raised (file_not_found m) caught = refl
  metadata_of-raised (validation_error m) caught = refl
  metadata_of-raised (value_error m) caught = refl
  metadata_of-raised (unicode_error m) caught = refl
  metadata_of-raised e caught = absurd cc

  metadata_at-IsLost : (path : Option String) → IsLost path → metadata_at fl ld path ≡ ok ([], none)
  unfolding metadata_at
  metadata_at-IsLost none lost = refl
  metadata_at-IsLost (some path) (gone nothing) = rw nothing refl
  metadata_at-IsLost (some path) (invalid e failed caught) =
      elim (Bool-cases (is_some (ld.read_text path))) [
        | inl there ↦ rw (there, failed) (metadata_of-raised e caught)
        | inr nothing ↦ rw nothing refl
      ]

  -- For a run that is in the database, without a baseline: if the path of its campaign file was not
  -- recorded, no file is there, or the file does not load, with a FileNotFoundError or a ValueError, the
  -- report is still made, the database stays as it was, and each row shows the bandwidth, no share of a
  -- vendor's figure and no warning.
  pub render_report-AllRaw :
      find_key run_key run_id db.runs ≡ some row
      → IsLost (given row.campaign_path)
      → (report : Report fl.Float) × (render_report fl ld db_path run_id none (tables db)
          ≡ (ok report, tables db))
        × AllRaw report.sections
  unfolding render_report load_baseline ◌>>=◌
  render_report-AllRaw h lost =
      let (ss, es) = scenarios_returned in
      let (ms, em) = metrics_returned in
      let (xs, ex, raw) = build_sections-AllRaw fl (group_metrics ms) none ss in
      let report : Report fl.Float = record {
        run = run_row row;
        baseline = none;
        sections = xs;
        vendor_spec = none;
      } in
      let k = metadata_at-IsLost (given row.campaign_path) lost in
      (report, rw (run_found h, es, em, metadata_gone h k, ex) refl, raw)
