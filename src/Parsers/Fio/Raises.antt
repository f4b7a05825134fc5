-- ===== src/Parsers/Fio/Raises.antt =====
-- harness/parsers/fio.py: the exceptions that leave the parser.
use aihomelab.Base.{
  String, refl, Bool, true, false, Option, none, some, List, [], ◌∷◌, Error, value_error,
  remote_error, ok, raised,
}
use aihomelab.Base.Raises.{Fails, Fails-ok, Fails-raised, Fails-if, Fails-bind}
use aihomelab.Floats.{Floats}
use aihomelab.Parsers.Fio.{
  Json, null, bool, int, float, string, array, object, cons, get_member, get_or, number, to_float,
  percentile_record, percentile_records, exercised_records, op_records, ops_records, parse_fio_json,
  first_item, name_of,
}

abbrev pub is_local : Error → Bool
is_local (remote_error r) = false
is_local _ = true

module _ (fl : Floats) where
  abbrev J : Type 0
  J = Json fl.Float

  Fails-get_member : (k : String) (d : J) → Fails is_local (get_member fl k d)
  unfolding get_member
  Fails-get_member k (object ms) = Fails-ok is_local _
  Fails-get_member k _ = Fails-raised is_local _ refl

  Fails-get_or : (k : String) (y d : J) → Fails is_local (get_or fl k y d)
  unfolding get_or
  Fails-get_or k y d = search (Fails-bind, Fails-ok, Fails-get_member)

  Fails-number : (x : J) → Fails is_local (number fl x)
  unfolding number
  Fails-number (int n) =
      Fails-if is_local (fl.fits n) _ _ (Fails-ok is_local _) (Fails-raised is_local _ refl)
  Fails-number (float x) = Fails-ok is_local _
  Fails-number (bool b) = Fails-ok is_local _
  Fails-number _ = Fails-raised is_local _ refl

  Fails-parsed :
      (o : Option fl.Float)
      → Fails is_local (elim o [
        | none ↦ raised (value_error "could not convert string to float")
        | some x ↦ ok x
      ])
  Fails-parsed none = Fails-raised is_local _ refl
  Fails-parsed (some x) = Fails-ok is_local x

  Fails-to_float : (x : J) → Fails is_local (to_float fl x)
  unfolding to_float
  Fails-to_float (string s) = Fails-parsed (fl.parse s)
  Fails-to_float x = Fails-number x

  Fails-percentile_record :
      (job op metric : String) (o : Option J)
      → Fails is_local (percentile_record fl job op metric o)
  unfolding percentile_record
  Fails-percentile_record job op metric none = Fails-ok is_local _
  Fails-percentile_record job op metric (some null) = Fails-ok is_local _
  Fails-percentile_record job op metric (some ns) = search (Fails-ok, Fails-bind, Fails-number)

  Fails-percentile_records :
      (job op : String) (clat : J) (ps : List (String × String))
      → Fails is_local (percentile_records fl job op clat ps)
  unfolding percentile_records
  Fails-percentile_records job op clat [] = Fails-ok is_local _
  Fails-percentile_records job op clat ((key, metric) ∷ rest) =
      Fails-bind is_local _ _ (Fails-get_member key clat) λ ns.
        Fails-bind is_local _ _ (Fails-percentile_record job op metric ns) λ found.
          Fails-bind is_local _ _ (Fails-percentile_records job op clat rest)
            λ more. Fails-ok is_local _

  Fails-exercised_records :
      (job op : String) (block bw iops : J)
      → Fails is_local (exercised_records fl job op block bw iops)
  unfolding exercised_records
  Fails-exercised_records job op block bw iops =
      search
        (Fails-bind, Fails-ok, Fails-number, Fails-to_float, Fails-get_or, Fails-percentile_records)
        depth 12

  Fails-op_records : (job : J) (name op : String) → Fails is_local (op_records fl job name op)
  unfolding op_records
  Fails-op_records job name op =
      search (Fails-bind, Fails-ok, Fails-if, Fails-get_or, Fails-exercised_records) depth 12

  Fails-ops_records :
      (job : J) (name : String) (os : List String) → Fails is_local (ops_records fl job name os)
  unfolding ops_records
  Fails-ops_records job name [] = Fails-ok is_local _
  Fails-ops_records job name (op ∷ rest) =
      Fails-bind is_local _ _ (Fails-op_records job name op) λ found.
        Fails-bind is_local _ _ (Fails-ops_records job name rest) λ more. Fails-ok is_local _

  Fails-first_item : (x : J) → Fails is_local (first_item fl x)
  Fails-first_item (array (cons x xs)) = Fails-ok is_local x
  Fails-first_item (object ms) = Fails-raised is_local _ refl
  Fails-first_item (string s) = Fails-ok is_local _
  Fails-first_item _ = Fails-raised is_local _ refl

  Fails-name_of : (x : J) → Fails is_local (name_of fl x)
  Fails-name_of (string s) = Fails-ok is_local s
  Fails-name_of (int n) = Fails-ok is_local _
  Fails-name_of (bool b) = Fails-ok is_local _
  Fails-name_of _ = Fails-raised is_local _ refl

  pub Fails-parse_fio_json : (doc : J) → Fails is_local (parse_fio_json fl doc)
  unfolding parse_fio_json
  Fails-parse_fio_json doc =
      search
        (
          Fails-bind, Fails-ok, Fails-if, Fails-get_or, Fails-first_item, Fails-name_of,
          Fails-ops_records,
        )
        depth 14
