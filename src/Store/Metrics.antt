-- ===== src/Store/Metrics.antt =====
-- harness/store.py: the metrics that are read after some were recorded.
use aihomelab.Base.{
  ℕ, String, ◌≡◌, refl, ◌∙◌, true, Option, some, List, [], ◌∷◌, All, Bool, false, ap, length, arith,
  ◌==◌, string_eq, nat_eq, pair_eq, ok, if◌then◌else◌,
}
use aihomelab.Table.{find_key, replace_row}
use aihomelab.Table.Laws.{find-replace}
use aihomelab.Store.Schema.{MetricRecord, MetricRow, Db, tables, metric_key, MetricKey, has_run}
use aihomelab.Store.Writes.{insert_metrics, metric_rows, record_metrics}

module _ {V : Type 0} where
  -- The last of the rows with a key, else what was there.
  abbrev pub latest : MetricKey → List (MetricRow V) → Option (MetricRow V) → Option (MetricRow V)
  latest k [] before = before
  latest k (r ∷ rows) before = latest k rows (if metric_key r == k then some r else before)

  -- No value is NaN.
  abbrev pub AllReal : (V → Bool) → List (MetricRecord V) → Type 0
  AllReal is_nan records = All (λ r. is_nan r.value ≡ false) records

  insert_metrics-latest :
      (is_nan : V → Bool) (id name : String) (i : ℕ) (records : List (MetricRecord V)) (db : Db V)
      → has_run id db ≡ true
      → AllReal is_nan records
      → (f : Db V) × (insert_metrics is_nan (metric_rows id name i records) db ≡ ok (tt, f))
        × ((k : MetricKey)
            → find_key metric_key k f.metrics
              ≡ latest k (metric_rows id name i records) (find_key metric_key k db.metrics))
  unfolding insert_metrics
  insert_metrics-latest is_nan id name i [] db there real = (db, refl, λ k. refl)
  insert_metrics-latest is_nan id name i (r ∷ records) db there (here, real) =
      let row : MetricRow V = record {
        run_id = id;
        scenario_name = name;
        repeat_idx = i;
        record_ = r;
      } in
      let (f, e, read) =
        insert_metrics-latest is_nan id name i records
          (record db { metrics = replace_row metric_key row db.metrics }) there real in
      (
        f,
        rw (here, there, e) refl,
        λ k.
            read k
            ∙ ap (latest k (metric_rows id name i records))
                (find-replace metric_key k row db.metrics),
      )

  length-metric_rows :
      (id name : String) (i : ℕ) (records : List (MetricRecord V))
      → length (metric_rows id name i records) ≡ length records
  length-metric_rows id name i [] = refl
  length-metric_rows id name i (r ∷ records) = omega (arith, length-metric_rows id name i records)

  -- Recording metrics of a run that is there, none of them NaN, returns their number; a key then reads the last of the
  -- records given under it, and, without one, what it read before.
  pub record_metrics-latest :
      (is_nan : V → Bool) (id name : String) (i : ℕ) (records : List (MetricRecord V)) (db : Db V)
      → has_run id db ≡ true
      → AllReal is_nan records
      → (f : Db V) × (record_metrics is_nan id name i records (tables db)
          ≡ (ok (length records), tables f))
        × ((k : MetricKey)
            → find_key metric_key k f.metrics
              ≡ latest k (metric_rows id name i records) (find_key metric_key k db.metrics))
  unfolding record_metrics
  record_metrics-latest is_nan id name i [] db there real = (db, refl, λ k. refl)
  record_metrics-latest is_nan id name i (r ∷ records) db there real =
      let (f, e, read) = insert_metrics-latest is_nan id name i (r ∷ records) db there real in
      (f, rw (e, length-metric_rows id name i records, insert_metrics) refl, read)
