-- ===== src/Parsers/Fio.antt =====
-- harness/parsers/fio.py: metric records from fio's JSON. The decoding of JSON text is a parameter.
pub mod Raises
use aihomelab.Base.{
  String, Bool, true, false, not, ◌&&◌, Option, none, some, List, [], ◌∷◌, ◌++◌, ◌==◌, string_eq,
  Result, ok, raised, type_error, overflow_error, attribute_error, value_error, key_error,
  if◌then◌else◌,
}
use aihomelab.Base.Attempt.{◌>>=◌}
use aihomelab.Base.Int.{ℤ, pos, eqb_ℤ}
use aihomelab.Base.Text.{show, is_empty}
use aihomelab.Floats.{Floats}
use aihomelab.Store.{MetricRecord}

-- What `json.loads` returns. Members keep their order; of two with one name the last counts.
mutual
  pub data Json (F : Type 0) : Type 0 where
    null : Json F
    bool : Bool → Json F
    int : ℤ → Json F
    float : F → Json F
    string : String → Json F
    array : Items F → Json F
    object : Members F → Json F

  pub data Items (F : Type 0) : Type 0 where
    nil : Items F
    cons : Json F → Items F → Items F

  pub data Members (F : Type 0) : Type 0 where
    end : Members F
    member : String → Json F → Members F → Members F

abbrev pub lookup_member : {F : Type 0} → String → Members F → Option (Json F)
lookup_member k end = none
lookup_member k (member j v ms) = elim (lookup_member k ms) [
  | some later ↦ some later
  | none ↦ if j == k then some v else none
]

-- `_OPS` and `_PERCENTILES`
abbrev pub ops : List String
ops = "read" ∷ "write" ∷ "trim" ∷ []

abbrev pub percentiles : List (String × String)
percentiles =
    ("50.000000", "lat_p50_us") ∷ ("99.000000", "lat_p99_us") ∷ ("99.900000", "lat_p999_us") ∷ []

module _ (fl : Floats) where
  abbrev J : Type 0
  J = Json fl.Float

  -- The truth of a value, as `x or y` reads it.
  abbrev pub truthy : J → Bool
  truthy null = false
  truthy (bool b) = b
  truthy (int n) = not (eqb_ℤ n (pos 0))
  truthy (float x) = not (fl.eq x (fl.of_int (pos 0)))
  truthy (string s) = not (is_empty s)
  truthy (array nil) = false
  truthy (array (cons x xs)) = true
  truthy (object end) = false
  truthy (object (member k v ms)) = true

  -- `d.get(k)`: only a dict has it.
  unfoldable pub get_member : String → J → Result (Option J)
  get_member k (object ms) = ok (lookup_member k ms)
  get_member k _ = raised (attribute_error "object has no attribute 'get'")

  abbrev or_else : Option J → J → J
  or_else none y = y
  or_else (some x) y = if truthy x then x else y

  -- `d.get(k) or y`
  unfoldable pub get_or : String → J → J → Result J
  unfolding get_member
  get_or k y d = do found ← get_member k d; ok (or_else found y)

  -- A value as an operand of `/`, and `float(x)`, which reads texts too.
  unfoldable pub number : J → Result fl.Float
  number (int n) =
      if fl.fits n
      then ok (fl.of_int n)
      else raised (overflow_error "int too large to convert to float")
  number (float x) = ok x
  number (bool b) = ok (fl.of_int (if b then pos 1 else pos 0))
  number _ = raised (type_error "unsupported operand type(s) for /")

  unfoldable pub to_float : J → Result fl.Float
  unfolding number
  to_float (string s) = elim (fl.parse s) [
    | none ↦ raised (value_error "could not convert string to float")
    | some x ↦ ok x
  ]
  to_float x = number x

  -- `x == 0`
  abbrev is_zero : J → Bool
  is_zero (int n) = eqb_ℤ n (pos 0)
  is_zero (float x) = fl.eq x (fl.of_int (pos 0))
  is_zero (bool b) = not b
  is_zero _ = false

  -- `jobs[0]`
  abbrev pub first_item : J → Result J
  first_item (array (cons x xs)) = ok x
  first_item (object ms) = raised (key_error "0")
  first_item (string s) = ok (string s)
  first_item _ = raised (type_error "object is not subscriptable")

  -- The name of a job, as the text that the database makes of it. The parser takes any value; a float
  -- is not modelled, and a list or a dict cannot be stored: here they raise at once.
  abbrev pub name_of : J → Result String
  name_of (string s) = ok s
  name_of (int n) = ok (show n)
  name_of (bool b) = ok (if b then "1" else "0")
  name_of _ = raised (type_error "jobname cannot be stored as a text")

  abbrev measured : String → String → String → fl.Float → MetricRecord fl.Float
  measured job op metric v = record { job_name = job; op = op; metric = metric; value = v }

  -- `ns / 1000.0`, unless the percentile is missing.
  unfoldable pub percentile_record :
      (job op metric : String) → Option J → Result (List (MetricRecord fl.Float))
  unfolding number
  percentile_record job op metric none = ok []
  percentile_record job op metric (some null) = ok []
  percentile_record job op metric (some ns) = do
    x ← number ns
    ok (measured job op metric (fl.div x (fl.of_int (pos 1000))) ∷ [])

  -- The loop over `_PERCENTILES`.
  unfoldable pub percentile_records :
      (job op : String) (clat : J) → List (String × String) → Result (List (MetricRecord fl.Float))
  unfolding get_member percentile_record
  percentile_records job op clat [] = ok []
  percentile_records job op clat ((key, metric) ∷ rest) = do
    ns ← get_member key clat
    found ← percentile_record job op metric ns
    more ← percentile_records job op clat rest
    ok (found ++ more)

  -- The block of one op that carries IO.
  unfoldable pub exercised_records :
      (job op : String) (block bw_bytes iops : J) → Result (List (MetricRecord fl.Float))
  unfolding number to_float get_or percentile_records
  exercised_records job op block bw_bytes iops = do
    bw ← number bw_bytes
    io ← to_float iops
    clat_ns ← get_or "clat_ns" (object end) block
    clat ← get_or "percentile" (object end) clat_ns
    rest ← percentile_records job op clat percentiles
    ok (
        measured job op "bw_mbps" (fl.div bw (fl.of_int (pos 1000000)))
        ∷ measured job op "iops" io
        ∷ rest)

  -- One round of the loop over `_OPS`: an op that did no IO is skipped.
  unfoldable pub op_records : (job : J) (name op : String) → Result (List (MetricRecord fl.Float))
  unfolding get_or exercised_records
  op_records job name op = do
    block ← get_or op (object end) job
    bw_bytes ← get_or "bw_bytes" (int (pos 0)) block
    iops ← get_or "iops" (int (pos 0)) block
    if is_zero bw_bytes && is_zero iops
        then ok []
        else exercised_records name op block bw_bytes iops

  unfoldable pub ops_records :
      (job : J) (name : String) → List String → Result (List (MetricRecord fl.Float))
  unfolding op_records
  ops_records job name [] = ok []
  ops_records job name (op ∷ rest) = do
    found ← op_records job name op
    more ← ops_records job name rest
    ok (found ++ more)

  -- `parse_fio_json` of a decoded dict.
  unfoldable pub parse_fio_json : J → Result (List (MetricRecord fl.Float))
  unfolding get_or ops_records
  parse_fio_json doc = do
    jobs ← get_or "jobs" (array nil) doc
    if truthy jobs
        then (do
          job ← first_item jobs
          named ← get_or "jobname" (string "<unnamed>") job
          name ← name_of named
          ops_records job name ops)
        else ok []

-- What `parse_fio_json` is given: the path of a file, a text, or a decoded dict.
pub data Source (F : Type 0) : Type 0 where
  from_path from_text : String → Source F
  from_dict : Json F → Source F

-- Files and JSON, which may raise: `p.exists() and p.is_file()`, `read_text` and `json.loads`.
pub record Reader (F : Type 0) : Type 0 where
  pub is_file : String → Result Bool
  pub read_text : String → Result String
  pub loads : String → Result (Json F)

module _ (fl : Floats) (reader : Reader fl.Float) where
  -- `_load`: a text is tried as a path first.
  unfoldable pub load_source : Source fl.Float → Result (Json fl.Float)
  load_source (from_dict doc) = ok doc
  load_source (from_path path) = do text ← reader.read_text path; reader.loads text
  load_source (from_text source) = do
    there ← reader.is_file source
    text ← (if there then reader.read_text source else ok source)
    reader.loads text

  unfoldable pub parse_source : Source fl.Float → Result (List (MetricRecord fl.Float))
  unfolding load_source parse_fio_json
  parse_source source = do doc ← load_source source; parse_fio_json fl doc
