-- ===== src/Tests/Campaigns.antt =====
-- Whole campaigns.
use aihomelab.Base.Text.{lower, strip, parse_int, ◌</>◌, rstrip_slash}
use aihomelab.Base.{
  order_by, ◌∷◌, [], ok, string_eq, nat_eq, ℕ, String, ◌≡◌, refl, true, false, none, some, List,
  Result, All,
}
use aihomelab.Store.{DbFile, absent}
use aihomelab.Store.Invariant.{FileIsSound}
use aihomelab.System.{Sys}
use aihomelab.Runners.Interface.Laws.{KeepsDatabase}
use aihomelab.Runners.Fio.Database.{fio_runner-KeepsDatabase}
use aihomelab.Orchestrator.{RunRequest, run_campaign}
use aihomelab.Orchestrator.Invariant.{run_campaign-FileIsSound, run_campaign-dry_run}
use aihomelab.Config.{
  load_campaign, resolve_run, resolve_runs, load_scenario, validate_campaign, validate_scenario,
  check_capacities, check_capacity, parse_size_gib, dupes, cross_refs,
}
use aihomelab.Config.Loaded.{Loads, load_campaign-eq-ok}
use aihomelab.Config.Nodes.{OnNode, load_campaign-OnNode}
use aihomelab.Tests.Samples.{smoke, bound, fixed, quiet, disk, loads_empty, runners, fresh}

abbrev request : RunRequest
request = record {
  campaign_path = "c.yaml";
  results_root = "results";
  dry_run = false;
  resume_run_id = none;
  new_run_id = some "r1";
}

kept : (Q : DbFile ℕ → Type 0) → All (λ e. KeepsDatabase Q e.1) runners
kept Q = (fio_runner-KeepsDatabase fixed loads_empty quiet Q, tt)

run_campaign-FileIsSound_example :
    FileIsSound (run_campaign fixed quiet disk runners request fresh).1.db
run_campaign-FileIsSound_example =
    run_campaign-FileIsSound fixed quiet disk runners request fresh (kept FileIsSound) tt

run_campaign-dry_run_example :
    (run_campaign fixed quiet disk runners (record request { dry_run = true }) fresh).1.db ≡ absent
run_campaign-dry_run_example =
    run_campaign-dry_run fixed quiet disk runners (record request { dry_run = true }) fresh
      (kept (λ f. f ≡ absent)) refl

abbrev outcome : Result (String × String) × Sys quiet ℕ
outcome = run_campaign fixed quiet disk runners request fresh

returned : Result (String × String)
returned = outcome.0

printed : List String
printed = outcome.1.out

loaded : load_campaign fixed disk "c.yaml" ≡ ok (smoke, bound ∷ [])
unfolding load_campaign resolve_run resolve_runs load_scenario validate_campaign validate_scenario
    check_capacities check_capacity parse_size_gib dupes cross_refs string_eq nat_eq order_by lower
    strip parse_int ◌</>◌ rstrip_slash
loaded = refl

load_campaign-eq-ok_example : Loads fixed (smoke, bound ∷ [])
load_campaign-eq-ok_example = load_campaign-eq-ok fixed disk "c.yaml" smoke (bound ∷ []) loaded

load_campaign-OnNode_example : All (λ rr. OnNode smoke rr.target) (bound ∷ [])
load_campaign-OnNode_example = load_campaign-OnNode fixed disk "c.yaml" smoke (bound ∷ []) loaded
