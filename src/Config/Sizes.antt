-- ===== src/Config/Sizes.antt =====
-- harness/config.py: `parse_size_gib`, over the floats of the program.
use aihomelab.Base.{
  String, ◌<>◌, Option, none, some, ◌==◌, string_eq, value_error, Result, ok, raised, if◌then◌else◌,
}
use aihomelab.Base.Attempt.{◌>>=◌}
use aihomelab.Base.Int.{ℤ, pos}
use aihomelab.Base.Text.{strip, lower, split_last, repr}
use aihomelab.Floats.{Floats}

-- `raw[:-2]` if `raw` ends in "ib", `raw[:-1]` if it ends in "b".
unfoldable pub drop_byte_suffix : String → String
unfolding split_last
drop_byte_suffix raw = elim (split_last raw) [
  | none ↦ raw
  | some (init, last) ↦
      if last == "b"
      then (elim (split_last init) [
        | none ↦ init
        | some (init', i) ↦ if i == "i" then init' else init
      ])
      else raw
]

module _ (fl : Floats) where
  -- `_SIZE_GIB_MULT`
  abbrev size_gib_mult : String → Option fl.Float
  size_gib_mult unit =
      if unit == "k"
      then some (fl.div (fl.of_int (pos 1)) (fl.of_int (pos 1048576)))
      else if unit == "m"
      then some (fl.div (fl.of_int (pos 1)) (fl.of_int (pos 1024)))
      else if unit == "g"
      then some (fl.of_int (pos 1))
      else if unit == "t"
      then some (fl.of_int (pos 1024))
      else if unit == "p"
      then some (fl.of_int (pos 1048576))
      else none

  abbrev pub float_of : String → Result fl.Float
  float_of s = elim (fl.parse s) [
    | none ↦ raised (value_error ("could not convert string to float: " <> repr s))
    | some x ↦ ok x
  ]

  unfoldable pub parse_size_gib : String → Result ℤ
  unfolding drop_byte_suffix split_last
  parse_size_gib s = elim (split_last (drop_byte_suffix (lower (strip s)))) [
    | none ↦ raised (value_error ("empty size string: " <> repr s))
    | some (number, unit) ↦ elim (size_gib_mult unit) [
      | none ↦
          raised (value_error ("unknown size suffix in " <> (repr s <> "; expected K/M/G/T/P")))
      | some mult ↦ do x ← float_of number; fl.trunc (fl.mul x mult)
    ]
  ]
