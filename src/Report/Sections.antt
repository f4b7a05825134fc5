-- ===== src/Report/Sections.antt =====
-- harness/report.py: the rows of a report. The template renders what `render_report` hands it.
use aihomelab.Base.{
  unicode_error, ℕ, String, ◌<>◌, Bool, true, false, Option, none, some, List, [], ◌∷◌, ◌++◌, map,
  ◌==◌, string_eq, nat_eq, pair_eq, is_some, select, distinct, dict_get, order_by, value_error,
  validation_error, file_not_found, Result, ok, raised, Py, pure, raise, lift, ◌>>=◌, if◌then◌else◌,
}
use aihomelab.Base.Attempt
use aihomelab.Base.Int.{pos}
use aihomelab.Base.Text.{text_lt, repr, given}
use mathlib.Core.Option
use aihomelab.Floats.{Floats}
use aihomelab.Config.{VendorSpec, Campaign, ResolvedRun, Loader, load_campaign}
use aihomelab.Store.{
  DbFile, RunRow, ScenarioRow, StoredMetric, get_run, get_run_campaign_path, get_scenarios_for_run,
  get_all_metrics,
}
use aihomelab.Report.Spec.{JobContext, primary_metric, pct_of_spec, detect_wrap}

pub record ReportRow (V : Type 0) : Type 0 where
  pub job_name : String
  pub op : String
  pub primary_label : String
  pub primary_value : Option V
  pub p99_us : Option V
  pub pct_of_spec : Option V
  pub delta_vs_baseline_pct : Option V
  pub wrap_warning : Bool

pub record ScenarioSection (V : Type 0) : Type 0 where
  pub scenario_name : String
  pub repeat_idx : ℕ
  pub target_name : String
  pub status : String
  pub rows : List (ReportRow V)

-- What the template gets.
pub record Report (V : Type 0) : Type 0 where
  pub run : RunRow
  pub baseline : Option RunRow
  pub sections : List (ScenarioSection V)
  pub vendor_spec : Option (VendorSpec V)

-- (scenario, repeat), and (job, (op, metric))
abbrev pub MetricId : Type 0
MetricId = (String × ℕ) × (String × (String × String))

abbrev pub Metrics : Type 0 → Type 0
Metrics V = List (MetricId × V)

abbrev pub JobLookup : Type 0
JobLookup = List ((String × String) × JobContext)

abbrev pub metric_id : {V : Type 0} → StoredMetric V → MetricId
metric_id m = ((m.scenario_name, m.repeat_idx), (m.job_name, (m.op, m.metric)))

unfoldable pub group_metrics : {V : Type 0} → List (StoredMetric V) → Metrics V
group_metrics = map λ m. (metric_id m, m.value)

-- The order of pairs of texts.
abbrev pair_lt : String × String → String × String → Bool
pair_lt (a, b) (c, d) = if text_lt a c then true else if a == c then text_lt b d else false

abbrev job_and_op : {V : Type 0} → MetricId × V → String × String
job_and_op ((where_, (job, (op, metric))), v) = (job, op)

-- `sorted(present)`
unfoldable pub present : {V : Type 0} → String × ℕ → Metrics V → List (String × String)
present place metrics =
    order_by pair_lt (distinct (map job_and_op (select (λ m. m.0.0 == place) metrics)))

-- The pairs that the loops over the resolved runs and their jobs set.
unfoldable pub jobs_of : List ResolvedRun → JobLookup
jobs_of [] = []
jobs_of (rr ∷ rest) =
    map (λ j. ((rr.scenario.name, j.name), record { job = j; fio_global = rr.scenario.fio_global }))
      rr.scenario.jobs
    ++ jobs_of rest

module _ (fl : Floats) where
  abbrev change : fl.Float → Option fl.Float → Option fl.Float
  change value none = none
  change value (some base) =
      if fl.eq base (fl.of_int (pos 0))
      then none
      else some (fl.mul (fl.div (fl.sub value base) base) (fl.of_int (pos 100)))

  -- The change against the baseline, where both runs have the metric.
  abbrev delta : MetricId → Option fl.Float → Option (Metrics fl.Float) → Option fl.Float
  delta id (some value) (some base) = change value (dict_get id base)
  delta id _ _ = none

  abbrev wrap_of : Option JobContext → (op metric : String) → Option fl.Float → Result Bool
  wrap_of none op metric value = ok false
  wrap_of (some ctx) op metric value = detect_wrap fl ctx op metric value

  module _ (place : String × ℕ) (metrics : Metrics fl.Float) (base : Option (Metrics fl.Float))
      (lookup : JobLookup) (spec : Option (VendorSpec fl.Float)) where
    -- One round of the loop of `_build_section`.
    unfoldable pub build_row : String × String → Result (ReportRow fl.Float)
    unfolding primary_metric pct_of_spec detect_wrap
    build_row (job_name, op) =
        let ctx = dict_get (place.0, job_name) lookup in
        let job = Option.map (λ c. c.job) ctx in
        let label = primary_metric job op in
        let id : MetricId = (place, (job_name, (op, label))) in
        let value = dict_get id metrics in
        Attempt.◌>>=◌ (wrap_of ctx op label value) λ wrap. ok (record {
          job_name = job_name;
          op = op;
          primary_label = label;
          primary_value = value;
          p99_us = dict_get (place, (job_name, (op, "lat_p99_us"))) metrics;
          pct_of_spec = pct_of_spec fl job op label value spec;
          delta_vs_baseline_pct = delta id value base;
          wrap_warning = wrap;
        })

    unfoldable pub build_rows : List (String × String) → Result (List (ReportRow fl.Float))
    build_rows [] = ok []
    build_rows (p ∷ ps) =
        Attempt.◌>>=◌ (build_row p) λ row. Attempt.◌>>=◌ (build_rows ps) λ rows. ok (row ∷ rows)

  module _ (metrics : Metrics fl.Float) (base : Option (Metrics fl.Float)) (lookup : JobLookup)
      (spec : Option (VendorSpec fl.Float)) where
    unfoldable pub build_section : ScenarioRow → Result (ScenarioSection fl.Float)
    unfolding present
    build_section s =
        let place : String × ℕ = (s.scenario_name, s.repeat_idx) in
        Attempt.◌>>=◌ (build_rows place metrics base lookup spec (present place metrics)) λ rows.
          ok (record {
            scenario_name = s.scenario_name;
            repeat_idx = s.repeat_idx;
            target_name = s.target_name;
            status = s.status;
            rows = rows;
          })

    unfoldable pub build_sections : List ScenarioRow → Result (List (ScenarioSection fl.Float))
    build_sections [] = ok []
    build_sections (s ∷ ss) =
        Attempt.◌>>=◌ (build_section s) λ x. Attempt.◌>>=◌ (build_sections ss) λ xs. ok (x ∷ xs)

  -- A campaign that is not found or not valid counts as none; other exceptions pass.
  abbrev pub metadata_of :
      Result (Campaign fl.Float × List ResolvedRun)
      → Result (JobLookup × Option (VendorSpec fl.Float))
  metadata_of (ok (campaign, resolved)) = ok (jobs_of resolved, campaign.vendor_spec)
  metadata_of (raised (file_not_found m)) = ok ([], none)
  metadata_of (raised (validation_error m)) = ok ([], none)
  metadata_of (raised (value_error m)) = ok ([], none)
  metadata_of (raised (unicode_error m)) = ok ([], none)
  metadata_of (raised e) = raised e

  module _ (ld : Loader fl.Float) where
    unfoldable pub metadata_at : Option String → Result (JobLookup × Option (VendorSpec fl.Float))
    unfolding jobs_of
    metadata_at none = ok ([], none)
    metadata_at (some path) =
        if is_some (ld.read_text path)
        then metadata_of (load_campaign fl ld path)
        else ok ([], none)

    unfoldable pub load_job_metadata :
        String → Py (DbFile fl.Float) (JobLookup × Option (VendorSpec fl.Float))
    unfolding metadata_at ◌>>=◌
    load_job_metadata run_id = do
      path ← get_run_campaign_path run_id
      lift (metadata_at (given path))

    -- The run of an id, which must be there.
    unfoldable pub known_run : (kind db_path run_id : String) → Py (DbFile fl.Float) RunRow
    unfolding ◌>>=◌
    known_run kind db_path run_id = do
      found ← get_run run_id
      elim found [
        | none ↦
            raise (value_error ("no " <> (kind <> (" " <> (repr run_id <> (" in " <> db_path))))))
        | some run ↦ pure run
      ]

    unfoldable pub load_baseline :
        String → Option String → Py (DbFile fl.Float) (Option RunRow × Option (Metrics fl.Float))
    unfolding known_run group_metrics
    load_baseline db_path none = pure (none, none)
    load_baseline db_path (some id) = do
      run ← known_run "baseline run" db_path id
      metrics ← get_all_metrics id
      pure (some run, some (group_metrics metrics))

    unfoldable pub render_report :
        (db_path run_id : String) → Option String → Py (DbFile fl.Float) (Report fl.Float)
    unfolding load_baseline load_job_metadata build_sections
    render_report db_path run_id baseline_run_id = do
      run ← known_run "run" db_path run_id
      scenarios ← get_scenarios_for_run run_id
      metrics ← get_all_metrics run_id
      (base_run, base) ← load_baseline db_path (given baseline_run_id)
      (lookup, spec) ← load_job_metadata run_id
      sections ← lift (build_sections (group_metrics metrics) base lookup spec scenarios)
      pure (record { run = run; baseline = base_run; sections = sections; vendor_spec = spec })
