-- ===== src/Cli/Recorded.antt =====
-- harness/cli.py: the commands that only read the database, `list-runs` and `report`.
use aihomelab.Base.{
  unicode_error, ℕ, zero, suc, String, ◌<>◌, Bool, true, false, Option, none, some, List, [], ◌∷◌,
  string_eq, nat_eq, Error, Result, ok, raised, value_error, validation_error, Py, pure, raise,
  gets, attempt, for_each, ◌>>=◌, ◌>>◌, if◌then◌else◌,
}
use aihomelab.Base.Text.{◌</>◌}
use aihomelab.Base.Time.{iso_seconds}
use aihomelab.Floats.{Floats}
use aihomelab.Config.{Loader}
use aihomelab.Store.{RunRow, DbFile, absent, list_runs}
use aihomelab.System.{Outside, Sys, stored, progress, write_text}
use aihomelab.Report.{Report, render_report}

-- `db.exists()`
abbrev pub is_there : {V : Type 0} → DbFile V → Bool
is_there absent = false
is_there _ = true

-- `f"{s:<n}"`
unfoldable pub pad : ℕ → String → String
pad zero s = s
pad (suc n) String.[] = " " <> pad n ""
pad (suc n) (String.◌∷◌ c s) = String.◌∷◌ c (pad n s)

module _ {O : Outside} {V : Type 0} where
  abbrev pub print_columns : (run_id campaign status started_at : String) → Py (Sys O V) (Unit {0})
  unfolding pad progress
  print_columns run_id campaign status started_at = progress (
      pad 48 run_id
      <> (" " <> (pad 24 campaign <> (" " <> (pad 10 status <> (" " <> started_at))))))

  abbrev pub print_row : RunRow → Py (Sys O V) (Unit {0})
  unfolding iso_seconds
  print_row row = print_columns row.run_id row.campaign_name row.status (iso_seconds row.started_at)

  unfoldable pub print_rows : List RunRow → Py (Sys O V) (Unit {0})
  unfolding for_each progress
  print_rows [] = progress "(no runs recorded)"
  print_rows (row ∷ rows) = do
    print_columns "run_id" "campaign" "status" "started_at"
    for_each (row ∷ rows) print_row

  unfoldable pub list_runs_cmd : String → Py (Sys O V) ℕ
  unfolding stored print_rows
  list_runs_cmd results_root = do
    there ← gets (λ s. is_there s.db)
    if there
        then (do rows ← stored list_runs; print_rows rows; pure 0)
        else (do progress ("no harness.db at " <> (results_root </> "harness.db")); pure 1)

-- `except ValueError`
abbrev pub is_value_error : Error → Bool
is_value_error (validation_error m) = true
is_value_error (value_error m) = true
is_value_error (unicode_error m) = true
is_value_error e = false

module _ (fl : Floats) (O : Outside) (ld : Loader fl.Float) where
  abbrev Command : Type 0 → Type 0
  Command A = Py (Sys O fl.Float) A

  -- The text of a report comes from its template, which is a parameter.
  module _ (template : Report fl.Float → String) where
    abbrev pub report_path : Option String → String → String → String
    report_path none results_root run_id = results_root </> "reports" </> (run_id <> ".md")
    report_path (some output) results_root run_id = output

    -- The text is written, or a ValueError is reported.
    unfoldable pub write_report : String → Result (Report fl.Float) → Command ℕ
    unfolding write_text progress
    write_report out_path (ok report) = do
      write_text out_path (template report)
      progress ("wrote " <> out_path)
      pure 0
    write_report out_path (raised e) =
        if is_value_error e then (do progress "[FAIL]"; pure 1) else raise e

    unfoldable pub report_cmd :
        String → (baseline_run_id output : Option String) → String → Command ℕ
    unfolding render_report stored write_report
    report_cmd run_id baseline_run_id output results_root = do
      there ← gets (λ s. is_there s.db)
      if there
          then (do
            rendered ← attempt (
                stored (render_report fl ld (results_root </> "harness.db") run_id baseline_run_id))
            write_report (report_path output results_root run_id) rendered)
          else (do progress ("no harness.db at " <> (results_root </> "harness.db")); pure 1)
