-- ===== src/DataGen/Filter.antt =====
-- data-gen/filter_clean.py: the clean rows of all inputs, one for each request id, that are asked for
-- in a prompt file. The counts and shares that are only printed are left out.
pub mod Clean
pub mod Distinct
pub mod Longest
use aihomelab.Base.{
  ℕ, suc, ◌-◌, String, ◌<>◌, Bool, true, false, not, Option, none, some, List, [], ◌∷◌, ◌++◌, map,
  length, select, contains, ◌==◌, string_eq, nat_eq, if◌then◌else◌, ltb, ◌&&◌,
}
use aihomelab.Base.Int.{pos}
use aihomelab.Base.Text.{given, strip, is_empty, text_length, show_ℕ}
use aihomelab.Base.Dict
use aihomelab.Floats.{Floats}
use aihomelab.Parsers.Fio.{Json, null, object, string, Members, lookup_member}
use aihomelab.DataGen.Rows.{AnswerRow}
use aihomelab.DataGen.Lines.{Ended, finished, exits, ◌>>=◌, ◌>>◌, exit_if, pool, load_jsonl}
use aihomelab.DataGen.Leak.{Regex, answer_text, flag_leakage}

abbrev pub not_blank : String → Bool
not_blank s = not (is_empty (strip s))

-- `by_id`, and how many rows found their request id taken
pub record Deduped (F : Type 0) : Type 0 where
  pub by_id : List (String × AnswerRow F)
  pub n_collision : ℕ

module _ {F : Type 0} where
  abbrev pub is_null : Json F → Bool
  is_null null = true
  is_null _ = false

  -- `isinstance(x, str)`, with the text
  abbrev pub text_of : Option (Json F) → Option String
  text_of (some (string s)) = some s
  text_of _ = none

  -- The question and the answer, if both are texts
  abbrev pub qa_texts : Json F → Option (String × String)
  qa_texts (object members) = elim (text_of (lookup_member "q" members)) [
    | none ↦ none
    | some q ↦ elim (text_of (lookup_member "a" members)) [ none ↦ none | some a ↦ some (q, a) ]
  ]
  qa_texts _ = none

  unfoldable pub is_clean : AnswerRow F → Bool
  is_clean row =
      if not (is_null row.http_error)
      then false
      else if not (is_null row.parse_error)
      then false
      else elim row.finish_reason [
        | none ↦ false
        | some reason ↦ if not (reason == "stop") then false else elim (qa_texts row.parsed_qa) [
          | none ↦ false
          | some (q, a) ↦ not_blank q && not_blank a
        ]
      ]

  -- On a collision the longer answer stays.
  abbrev pub resolve : AnswerRow F → AnswerRow F → AnswerRow F
  resolve existing row =
      if ltb (text_length (answer_text existing)) (text_length (answer_text row))
      then row
      else existing

  abbrev pub keep_row : String → AnswerRow F → Deduped F → Deduped F
  keep_row rid row d = elim (Dict.get rid d.by_id) [
    | none ↦ record d { by_id = Dict.set rid row d.by_id }
    | some existing ↦ record {
      by_id = Dict.set rid (resolve existing row) d.by_id;
      n_collision = suc d.n_collision;
    }
  ]

  abbrev pub keep_by : Option String → AnswerRow F → Deduped F → Deduped F
  keep_by none row d = record d {
    by_id = Dict.set ("_noid_" <> show_ℕ (length d.by_id)) row d.by_id;
  }
  keep_by (some rid) row d = keep_row rid row d

  abbrev pub dedup_row : AnswerRow F → Deduped F → Deduped F
  dedup_row row d = keep_by row.request_id row d

  unfoldable pub dedup : List (AnswerRow F) → Deduped F → Deduped F
  dedup [] d = d
  dedup (row ∷ rows) d = dedup rows (dedup_row row d)

  -- `row.get("request_id") in valid`
  abbrev pub is_valid : List String → AnswerRow F → Bool
  is_valid valid row = elim row.request_id [ none ↦ false | some rid ↦ contains rid valid ]

  -- The ids that are not empty
  abbrev pub ids_of : List (AnswerRow F) → List String
  ids_of [] = []
  ids_of (row ∷ rows) = elim (given row.request_id) [
    | none ↦ ids_of rows
    | some rid ↦ rid ∷ ids_of rows
  ]

module _ (fl : Floats) (re : Regex) (file : String → Option (List String))
    (decode : String → Option (AnswerRow fl.Float)) where
  -- The options of the command line
  pub record FilterArgs : Type 0 where
    pub inputs : List String
    pub valid_ids : List String
    pub max_drop_frac : fl.Float
    pub strict : Bool

  unfoldable pub load_valid_ids : String → Ended (List String)
  unfolding load_jsonl
  load_valid_ids path = do (rows, n_bad) ← load_jsonl file decode path; finished (ids_of rows)

  -- The union over the files
  unfoldable pub all_valid_ids : List String → Ended (List String)
  unfolding load_valid_ids
  all_valid_ids [] = finished []
  all_valid_ids (path ∷ paths) = do
    ids ← load_valid_ids path
    others ← all_valid_ids paths
    finished (ids ++ others)

  -- `n_dropped / n_deduped if n_deduped else 0.0`
  abbrev pub drop_frac : ℕ → ℕ → fl.Float
  drop_frac n_dropped n_deduped =
      if n_deduped == 0
      then fl.of_int (pos 0)
      else fl.div (fl.of_int (pos n_dropped)) (fl.of_int (pos n_deduped))

  -- `max_drop_frac` and `valid_ids` are those of the options.
  unfoldable pub validity_filter :
      fl.Float → List String → List (AnswerRow fl.Float) → Ended (List (AnswerRow fl.Float))
  unfolding all_valid_ids
  validity_filter max_drop_frac [] deduped = finished deduped
  validity_filter max_drop_frac (path ∷ paths) deduped = do
    valid ← all_valid_ids (path ∷ paths)
    exit_if (length valid == 0) "[filter_clean] FATAL: --valid-ids produced an EMPTY id set"
    exit_if
        (fl.lt max_drop_frac
          (drop_frac (length deduped - length (select (is_valid valid) deduped)) (length deduped)))
        "[filter_clean] FATAL: validity filter would drop too many rows"
    finished (select (is_valid valid) deduped)

  abbrev pub flag : AnswerRow fl.Float → AnswerRow fl.Float
  flag row = record row { leakage = some (flag_leakage re row) }

  abbrev pub values : List (String × AnswerRow fl.Float) → List (AnswerRow fl.Float)
  values by_id = map (λ p. p.1) by_id

  -- The rows that are written
  unfoldable pub filter_clean : FilterArgs → Ended (List (AnswerRow fl.Float))
  unfolding pool is_clean dedup validity_filter
  filter_clean args = do
    (pooled, n_malformed) ← pool file decode args.inputs
    exit_if (args.strict && ltb 0 n_malformed) "[filter_clean] FATAL --strict"
    kept ←
        validity_filter args.max_drop_frac args.valid_ids
          (values (dedup (select is_clean pooled) (record { by_id = []; n_collision = 0 })).by_id)
    finished (map flag kept)
