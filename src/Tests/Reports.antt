-- ===== src/Tests/Reports.antt =====
-- A report of a run whose campaign file was gone.
use aihomelab.Base.{ℕ, ◌≡◌, refl, none, some, List, [], ◌∷◌, ok, string_eq, nat_eq, pair_eq}
use aihomelab.Table.{find_key}
use aihomelab.Store.{Db, tables, MetricRecord, MetricKey, metric_key, metric_rows, record_metrics}
use aihomelab.Store.Metrics.{latest, record_metrics-latest}
use aihomelab.Floats.{is_nan}
use aihomelab.Config.{Loader}
use aihomelab.Report.{Report, render_report}
use aihomelab.Report.Laws.{AllRaw, gone, render_report-AllRaw}
use aihomelab.Tests.Samples.{fixed, disk}
use aihomelab.Tests.Resumes.{run_row_1, left_with}

abbrev measured : Db ℕ
measured = record {
  runs = (record run_row_1 { campaign_path = some "gone.yaml" }) ∷ [];
  scenarios = left_with "ok" ∷ [];
  metrics =
      (record {
        run_id = "r1";
        scenario_name = "tiny";
        repeat_idx = 0;
        record_ = record { job_name = "rand"; op = "read"; metric = "bw_mbps"; value = 1048576 };
      })
      ∷ [];
  env_snapshots = [];
}

abbrev empty_disk : Loader ℕ
empty_disk = record disk { read_text = λ path. none }

render_report-AllRaw_example :
    (report : Report ℕ) × (render_report fixed empty_disk "harness.db" "r1" none (tables measured)
      ≡ (ok report, tables measured))
    × AllRaw report.sections
unfolding string_eq nat_eq
render_report-AllRaw_example =
    render_report-AllRaw fixed empty_disk measured "harness.db" "r1"
      (record run_row_1 { campaign_path = some "gone.yaml" }) refl (gone refl)

abbrev sample : ℕ → MetricRecord ℕ
sample v = record { job_name = "rand"; op = "read"; metric = "iops"; value = v }

abbrev twice : List (MetricRecord ℕ)
twice = sample 1 ∷ sample 2 ∷ []

record_metrics-latest_example :
    (f : Db ℕ) × (record_metrics (is_nan fixed) "r1" "tiny" 0 twice (tables measured)
      ≡ (ok 2, tables f))
    × ((k : MetricKey)
        → find_key metric_key k f.metrics
          ≡ latest k (metric_rows "r1" "tiny" 0 twice) (find_key metric_key k measured.metrics))
unfolding string_eq nat_eq
record_metrics-latest_example =
    record_metrics-latest (is_nan fixed) "r1" "tiny" 0 twice measured refl (refl, (refl, tt))
