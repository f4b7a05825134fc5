-- ===== src/Report/Spec.antt =====
-- harness/report.py: the metric that a row shows, its share of the vendor's figure, and the warning
-- about threads that wrapped.
use aihomelab.Base.{
  String, ◌<>◌, Bool, true, false, ◌&&◌, Option, none, some, List, [], ◌∷◌, ◌++◌, ◌==◌, string_eq,
  value_error, index_error, Result, ok, raised, if◌then◌else◌,
}
use aihomelab.Base.Attempt.{◌>>=◌}
use aihomelab.Base.Int.{ℤ, pos, ltb_ℤ, min_ℤ}
use aihomelab.Base.Text.{strip, lower, split_last, repr, given}
use aihomelab.Floats.{Floats}
use aihomelab.Config.{
  FioGlobal, FioJob, Rw, read, write, randread, randwrite, readwrite, rw_, randrw, VendorSpec,
  drop_byte_suffix, float_of,
}

pub record JobContext : Type 0 where
  pub job : FioJob
  pub fio_global : FioGlobal

abbrev is_random : Rw → Bool
is_random read = false
is_random write = false
is_random randread = true
is_random randwrite = true
is_random readwrite = false
is_random rw_ = false
is_random randrw = true

unfoldable pub primary_metric : Option FioJob → String → String
primary_metric none op = "bw_mbps"
primary_metric (some job) op = if is_random job.rw then "iops" else "bw_mbps"

-- The field for a random job's iops.
abbrev iops_target : {V : Type 0} → Rw → String → VendorSpec V → Option V
iops_target randread op spec = spec.randread_iops
iops_target randwrite op spec = spec.randwrite_iops
iops_target randrw op spec =
    if op == "read" then spec.randread_iops else if op == "write" then spec.randwrite_iops else none
iops_target _ op spec = none

unfoldable pub spec_target : {V : Type 0} → FioJob → (op metric : String) → VendorSpec V → Option V
spec_target job op metric spec =
    if metric == "bw_mbps"
    then (if op == "write"
        then spec.seqwrite_mbps
        else if op == "read"
        then spec.seqread_mbps
        else none)
    else if metric == "iops"
    then iops_target job.rw op spec
    else none

-- `_SIZE_BYTES_MULT`
abbrev size_bytes_mult : String → Option ℤ
size_bytes_mult unit =
    if unit == "k"
    then some (pos 1024)
    else if unit == "m"
    then some (pos 1048576)
    else if unit == "g"
    then some (pos 1073741824)
    else if unit == "t"
    then some (pos 1099511627776)
    else if unit == "p"
    then some (pos 1125899906842624)
    else none

module _ (fl : Floats) where
  -- A figure that is missing or zero gives no share.
  abbrev share : fl.Float → Option fl.Float → Option fl.Float
  share value none = none
  share value (some target) =
      if fl.eq target (fl.of_int (pos 0))
      then none
      else some (fl.mul (fl.div value target) (fl.of_int (pos 100)))

  unfoldable pub pct_of_spec :
      Option FioJob
      → (op metric : String) → Option fl.Float
      → Option (VendorSpec fl.Float)
      → Option fl.Float
  unfolding spec_target
  pct_of_spec (some job) op metric (some value) (some spec) =
      share value (spec_target job op metric spec)
  pct_of_spec _ op metric _ _ = none

  unfoldable pub parse_size_bytes : String → Result ℤ
  unfolding drop_byte_suffix split_last
  parse_size_bytes s = elim (split_last (drop_byte_suffix (lower (strip s)))) [
    | none ↦ raised (index_error "string index out of range")
    | some (number, unit) ↦ elim (size_bytes_mult unit) [
      | none ↦ raised (value_error ("unknown size suffix in " <> repr s))
      | some mult ↦ do x ← float_of fl number; fl.trunc (fl.mul x (fl.of_int mult))
    ]
  ]

  -- One candidate for the region, if its text is given.
  unfoldable pub candidate : Option String → Result (List ℤ)
  unfolding parse_size_bytes
  candidate none = ok []
  candidate (some s) = do n ← parse_size_bytes s; ok (n ∷ [])

  abbrev pub smallest : List ℤ → Option ℤ
  smallest [] = none
  smallest (n ∷ ns) = elim (smallest ns) [ none ↦ some n | some m ↦ some (min_ℤ n m) ]

  unfoldable pub per_thread_region_bytes : FioJob → Result (Option ℤ)
  unfolding candidate
  per_thread_region_bytes job = do
    by_size ← candidate (given job.size)
    by_offset ← candidate (given job.offset_increment)
    ok (smallest (by_size ++ by_offset))

  -- What a thread read in the run, and whether it is more than its region and a tenth. 1.1 is the
  -- float that 11/10 rounds to.
  abbrev pub exceeds_region : JobContext → fl.Float → Option ℤ → Bool
  exceeds_region ctx value none = false
  exceeds_region ctx value (some region) =
      let per_thread_bytes =
        fl.mul (fl.mul (fl.div value (fl.of_int ctx.job.numjobs)) (fl.of_int (pos 1000000)))
          (fl.of_int ctx.fio_global.runtime) in
      fl.lt (fl.mul (fl.of_int region) (fl.div (fl.of_int (pos 11)) (fl.of_int (pos 10))))
        per_thread_bytes

  unfoldable pub detect_wrap : JobContext → (op metric : String) → Option fl.Float → Result Bool
  unfolding per_thread_region_bytes
  detect_wrap ctx op metric none = ok false
  detect_wrap ctx op metric (some value) =
      if metric == "bw_mbps" && (op == "read" && ltb_ℤ (pos 1) ctx.job.numjobs)
      then (do region ← per_thread_region_bytes ctx.job; ok (exceeds_region ctx value region))
      else ok false
