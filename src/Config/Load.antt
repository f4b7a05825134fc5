-- ===== src/Config/Load.antt =====
-- harness/config.py: `load_campaign`. The YAML reader and pydantic's typing of the fields are
-- parameters, and so are the files and the file system's `resolve`.
use aihomelab.Base.{
  String, ◌<>◌, Bool, false, Option, none, some, List, [], ◌∷◌, ◌==◌, string_eq, is_some,
  value_error, file_not_found, key_error, Result, ok, raised, if◌then◌else◌,
}
use aihomelab.Base.Attempt.{◌>>=◌, ◌>>◌}
use aihomelab.Base.Int.{ℤ, ltb_ℤ}
use aihomelab.Base.Text.{◌</>◌, repr, show}
use aihomelab.Floats.{Floats}
use aihomelab.Config.Schema.{FioScenarioSpec, StorageTarget, CampaignRun, Campaign, ResolvedRun}
use aihomelab.Config.Validate.{validate_scenario, validate_campaign}
use aihomelab.Config.Sizes.{parse_size_gib}

-- What the loader is given: the text of each file that exists, `Path.resolve`, `Path.parent`, and
-- the models that YAML and pydantic read from a text before the harness's own validators run.
pub record Loader (V : Type 0) : Type 0 where
  pub read_text : String → Option String
  pub resolve : String → String
  pub parent : String → String
  pub decode_campaign : String → Result (Campaign V)
  pub decode_scenario : String → Result FioScenarioSpec

-- `{t.name: t for t in targets}[name]`: of two targets with one name the later counts.
abbrev pub target_map : List StorageTarget → String → Option StorageTarget
target_map [] name = none
target_map (t ∷ targets) name = elim (target_map targets name) [
  | some later ↦ some later
  | none ↦ if t.name == name then some t else none
]

module _ {V : Type 0} (ld : Loader V) where
  abbrev pub opened : String → Result String
  opened path = elim (ld.read_text path) [
    | none ↦ raised (file_not_found path)
    | some text ↦ ok text
  ]

  unfoldable pub load_scenario : String → Result FioScenarioSpec
  load_scenario path = do text ← opened path; s ← ld.decode_scenario text; validate_scenario s

  abbrev pub target_named : Campaign V → String → Result StorageTarget
  target_named c name = elim (target_map c.targets name) [
    | none ↦ raised (key_error name)
    | some target ↦ ok target
  ]

  -- One round of the loop over `campaign.runs`.
  unfoldable pub resolve_run : Campaign V → String → CampaignRun → Result ResolvedRun
  unfolding load_scenario
  resolve_run c base run =
      let path = ld.resolve (base </> run.scenario) in
      if is_some (ld.read_text path)
      then (do
        scenario ← load_scenario path
        target ← target_named c run.target
        ok (record { run = run; scenario = scenario; target = target; scenario_path = path }))
      else raised (
          file_not_found (
            "scenario file not found: "
            <> (path
                <> (" (resolved from runs[*].scenario="
                    <> (repr run.scenario <> (" + scenarios_dir=" <> (c.scenarios_dir <> ")")))))))

  unfoldable pub resolve_runs : Campaign V → String → List CampaignRun → Result (List ResolvedRun)
  resolve_runs c base [] = ok []
  resolve_runs c base (run ∷ runs) = do
    ok ((← resolve_run c base run) ∷ (← resolve_runs c base runs))

-- Whether a testfile of the size fits what the target declares; an undeclared capacity fits all.
abbrev pub exceeds : ℤ → Option ℤ → Bool
exceeds size none = false
exceeds size (some capacity) = ltb_ℤ capacity size

abbrev shown : Option ℤ → String
shown none = "None"
shown (some n) = show n

module _ (fl : Floats) where
  unfoldable pub check_capacity : ResolvedRun → Result (Unit {0})
  check_capacity rr = do
    tf_gib ← parse_size_gib fl rr.scenario.fio_global.size
    if exceeds tf_gib rr.target.capacity_gib
        then raised (
            value_error (
              "scenario "
              <> (repr rr.scenario.name
                  <> (": testfile size "
                      <> (rr.scenario.fio_global.size
                          <> (" ("
                              <> (show tf_gib
                                  <> (" GiB) exceeds target "
                                      <> (repr rr.target.name
                                          <> (" capacity_gib="
                                              <> shown rr.target.capacity_gib))))))))))
        else ok tt

  unfoldable pub check_capacities : List ResolvedRun → Result (Unit {0})
  check_capacities [] = ok tt
  check_capacities (rr ∷ rest) = do check_capacity rr; check_capacities rest

  unfoldable pub load_campaign :
      Loader fl.Float → String → Result (Campaign fl.Float × List ResolvedRun)
  load_campaign ld path = do
    let campaign_path = ld.resolve path
    text ← opened ld campaign_path
    decoded ← ld.decode_campaign text
    c ← validate_campaign decoded
    resolved ← resolve_runs ld c (ld.parent campaign_path </> c.scenarios_dir) c.runs
    check_capacities resolved
    ok (c, resolved)
