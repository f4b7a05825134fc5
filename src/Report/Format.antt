-- ===== src/Report/Format.antt =====
-- harness/report.py: the texts of the cells.
use aihomelab.Base.{String, ◌<>◌, ◌||◌, Option, none, some, ◌==◌, string_eq, if◌then◌else◌}
use aihomelab.Base.Int.{pos}
use aihomelab.Floats.{Floats}
use aihomelab.Report.Sections.{ReportRow}

module _ (fl : Floats) where
  fmt_primary : ReportRow fl.Float → String
  fmt_primary r = elim r.primary_value [
    | none ↦ "—"
    | some v ↦ fl.format 0 v <> (if r.primary_label == "bw_mbps" then " MB/s" else " IOPS")
  ]

  fmt_p99 : ReportRow fl.Float → String
  fmt_p99 r = elim r.p99_us [ none ↦ "—" | some v ↦ fl.format 0 v <> " µs" ]

  fmt_pct : Option fl.Float → String
  fmt_pct none = "—"
  fmt_pct (some v) = fl.format 0 v <> "%"

  fmt_delta : Option fl.Float → String
  fmt_delta none = "—"
  fmt_delta (some v) =
      let zero = fl.of_int (pos 0) in
      let sign = if fl.lt zero v || fl.eq zero v then "+" else "" in sign <> (fl.format 1 v <> "%")

  fmt_notes : ReportRow fl.Float → String
  fmt_notes r = if r.wrap_warning then "⚠ wraps (cache-amplified)" else ""
