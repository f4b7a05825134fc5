-- ===== src/Base/Time.antt =====
-- `datetime.strftime("%Y%m%dT%H%M%S")` of a UTC time in seconds since 1970, and `f"{t:.0f}"` of a
-- duration in nanoseconds.
use Prim.Native.Nat.{ℕ, ◌+◌, ◌-◌, ◌*◌, ◌/◌, ◌%◌}
use Prim.Native.String.{String, ◌++◌ as ◌<>◌}
use mathlib.Core.Path.{◌≡◌, refl}
use mathlib.Core.Bool.{◌&&◌, ◌||◌}
use aihomelab.Base.Tests.{ltb, leb, if◌then◌else◌, ◌==◌, nat_eq}
use aihomelab.Base.Text.{show_ℕ}

pad2 : ℕ → String
unfolding show_ℕ
pad2 n = if ltb n 10 then "0" <> show_ℕ n else show_ℕ n

-- The date of a day since 1970, by 400-year eras that begin in March.
date_of : ℕ → ℕ × ℕ × ℕ
date_of days =
    let z = days + 719468 in
    let era = z / 146097 in
    let doe = z % 146097 in
    let yoe = (doe - doe / 1460 + doe / 36524 - doe / 146096) / 365 in
    let doy = doe - (365 * yoe + yoe / 4 - yoe / 100) in
    let mp = (5 * doy + 2) / 153 in
    let month = if ltb mp 10 then mp + 3 else mp - 9 in
    let year = yoe + era * 400 + (if leb month 2 then 1 else 0) in
    (year, month, doy - (153 * mp + 2) / 5 + 1)

-- Years before 10000 have the four digits that `%Y` gives them.
unfoldable pub stamp : ℕ → String
unfolding pad2 date_of
stamp t =
    let (year, month, day) = date_of (t / 86400) in
    let s = t % 86400 in
    show_ℕ year
    <> (pad2 month
        <> (pad2 day <> ("T" <> (pad2 (s / 3600) <> (pad2 (s / 60 % 60) <> pad2 (s % 60))))))

-- `isoformat(timespec="seconds")` of a UTC time
unfoldable pub iso_seconds : ℕ → String
unfolding pad2 date_of
iso_seconds t =
    let (year, month, day) = date_of (t / 86400) in
    let s = t % 86400 in
    let clock =
      pad2 (s / 3600) <> (":" <> (pad2 (s / 60 % 60) <> (":" <> (pad2 (s % 60) <> "+00:00")))) in
    show_ℕ year <> ("-" <> (pad2 month <> ("-" <> (pad2 day <> ("T" <> clock)))))

-- Halves go to the even number of seconds.
unfoldable pub whole_seconds : ℕ → String
whole_seconds ns =
    let q = ns / 1000000000 in
    let r = ns % 1000000000 in
    show_ℕ (if ltb 500000000 r || r == 500000000 && q % 2 == 1 then q + 1 else q)

stamp_sample : stamp 1795674333 ≡ "20261126T062533"
unfolding stamp
stamp_sample = refl
