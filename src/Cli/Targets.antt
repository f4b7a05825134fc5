-- ===== src/Cli/Targets.antt =====
-- harness/cli.py: the checks of the targets that `preflight` and `run` make before a campaign.
use aihomelab.Base.{
  String, ◌<>◌, Bool, true, false, none, some, List, [], ◌∷◌, dict_get, string_eq, nat_eq, Result,
  ok, key_error, Py, pure, raise, ◌>>=◌, ◌>>◌, if◌then◌else◌, map,
}
use aihomelab.Base.Attempt
use aihomelab.Base.Int.{ℤ, pos, max_ℤ}
use aihomelab.Base.Text.{rstrip_slash}
use aihomelab.Base.Dict
use aihomelab.Floats.{Floats}
use aihomelab.Config.{Node, StorageTarget, Campaign, ResolvedRun, parse_size_gib}
use aihomelab.System.{Outside, Sys, progress}
use aihomelab.Ssh.{PreflightFinding, preflight_target}
use aihomelab.Runners.Fio.{testfile_name}

unfoldable pub expected_workspace_file : String → String
unfolding rstrip_slash
expected_workspace_file target_path = rstrip_slash target_path <> ("/" <> testfile_name)

-- `{n.name: n for n in campaign.cluster.nodes}`
abbrev pub node_map : List Node → List (String × Node)
node_map nodes = map (λ n. (n.name, n)) nodes

module _ (fl : Floats) where
  -- `max(requirements.get(name, 0), tf)`
  abbrev pub raise_to : String → ℤ → List (String × ℤ) → List (String × ℤ)
  raise_to name tf requirements =
      Dict.set name
        (elim (Dict.get name requirements) [
          | none ↦ max_ℤ (pos 0) tf
          | some before ↦ max_ℤ before tf
        ])
        requirements

  -- The loop that fills `requirements`; each scenario is an fio scenario, the only kind there is.
  unfoldable pub require : List ResolvedRun → List (String × ℤ) → Result (List (String × ℤ))
  require [] requirements = ok requirements
  require (rr ∷ resolved) requirements =
      Attempt.◌>>=◌ (parse_size_gib fl rr.scenario.fio_global.size)
        λ tf. require resolved (raise_to rr.target.name tf requirements)

module _ {O : Outside} {V : Type 0} where
  -- `node_map[name]`
  unfoldable pub node_of : List Node → String → Py (Sys O V) Node
  node_of nodes name = elim (dict_get name (node_map nodes)) [
    | none ↦ raise (key_error name)
    | some node ↦ pure node
  ]

  -- `preflight_target` as both commands call it, with what they print of its finding.
  unfoldable pub check_target :
      Campaign V → Bool → StorageTarget → ℤ → Py (Sys O V) PreflightFinding
  unfolding node_of preflight_target expected_workspace_file progress
  check_target campaign dry_run target required = do
    node ← node_of campaign.cluster.nodes target.node
    finding ←
        preflight_target node target required campaign.safety_margin_gib dry_run
          (some (expected_workspace_file target.path))
    progress (
        (if finding.is_ok then "  [OK]   " else "  [FAIL] ")
        <> (finding.node_name <> (":" <> (finding.target_name <> ("  " <> finding.message)))))
    pure finding

  -- The loop of `preflight`: every target that a run uses is checked.
  unfoldable pub check_targets :
      Campaign V
      → Bool
      → List (String × ℤ)
      → List StorageTarget
      → Py (Sys O V) (List PreflightFinding)
  unfolding check_target
  check_targets campaign dry_run requirements [] = pure []
  check_targets campaign dry_run requirements (target ∷ targets) =
      elim (Dict.get target.name requirements) [
        | none ↦ check_targets campaign dry_run requirements targets
        | some required ↦ do
          finding ← check_target campaign dry_run target required
          findings ← check_targets campaign dry_run requirements targets
          pure (finding ∷ findings)
      ]

  -- The loop of `run`: it ends at the first target that fails; what comes back tells that none did.
  unfoldable pub gate : Campaign V → List (String × ℤ) → List StorageTarget → Py (Sys O V) Bool
  unfolding check_target
  gate campaign requirements [] = pure true
  gate campaign requirements (target ∷ targets) = elim (Dict.get target.name requirements) [
    | none ↦ gate campaign requirements targets
    | some required ↦ do
      finding ← check_target campaign false target required
      if finding.is_ok then gate campaign requirements targets else (do
        progress "\nPreflight failed. Aborting (use --no-preflight to override)."
        pure false)
  ]
