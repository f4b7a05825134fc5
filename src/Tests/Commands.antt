-- ===== src/Tests/Commands.antt =====
-- The commands, where a target does not pass its preflight.
use aihomelab.Base.{false, [], ◌∷◌, All, ok, string_eq, nat_eq, pair_eq, order_by, ◌≡◌, refl}
use aihomelab.Base.Int.{ℤ, pos}
use aihomelab.Base.Text.{lower, strip, parse_int}
use aihomelab.Base.Dict
use aihomelab.Config.{
  parse_size_gib, load_campaign, validate_campaign, dupes, resolve_runs, resolve_run,
  validate_scenario, check_capacities, check_capacity,
}
use aihomelab.Cli.{run}
use aihomelab.Cli.Targets.{require}
use aihomelab.Cli.Requirements.{AtLeast, require-AtLeast}
use aihomelab.Cli.Gate.{run-Refuses}
use aihomelab.Tests.Samples.{bound, fixed, quiet, disk, runners, fresh}

require-AtLeast_example :
    All
      (λ rr.
        (tf : ℤ) × (parse_size_gib fixed rr.scenario.fio_global.size ≡ ok tf)
        × AtLeast rr.target.name tf (("nvme", pos 2048) ∷ []))
      (bound ∷ bound ∷ [])
unfolding require string_eq nat_eq parse_size_gib lower strip parse_int Dict.set Dict.get
require-AtLeast_example =
    require-AtLeast fixed (bound ∷ bound ∷ []) [] (("nvme", pos 2048) ∷ []) refl

run-Refuses_example :
    (run fixed quiet disk runners "c.yaml" false false "results" fresh).1.db ≡ fresh.db
unfolding run string_eq nat_eq pair_eq load_campaign validate_campaign dupes order_by resolve_runs
    resolve_run validate_scenario check_capacities check_capacity parse_size_gib lower Dict.get
    Dict.set
run-Refuses_example = run-Refuses fixed quiet disk runners "c.yaml" "results" false false fresh refl
