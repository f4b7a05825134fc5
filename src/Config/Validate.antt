-- ===== src/Config/Validate.antt =====
-- harness/config.py: the validators. What they raise as a ValueError leaves pydantic as a
-- ValidationError, at the first one that fails.
use aihomelab.Base.{
  distinct, ℕ, suc, String, ◌<>◌, not, ◌&&◌, List, [], ◌∷◌, map, ◌==◌, string_eq, contains, is_some,
  select, order_by, value_error, validation_error, Result, ok, raised, ltb, if◌then◌else◌,
}
use aihomelab.Base.Attempt.{◌>>=◌, ◌>>◌}
use aihomelab.Base.Int.{ℤ, pos, ltb_ℤ, ◌+ℤ◌, ◌*ℤ◌}
use aihomelab.Base.{length}
use aihomelab.Base.Text.{text_lt, repr, repr_list, show, show_ℕ}
use aihomelab.Config.Schema.{FioJob, FioScenarioSpec, Node, StorageTarget, CampaignRun, Campaign}

-- `FioJob._multi_thread_needs_offset`
unfoldable pub validate_job : FioJob → Result FioJob
validate_job j =
    if ltb_ℤ (pos 1) j.numjobs && not (is_some j.offset_increment)
    then raised (
        value_error (
          "job "
          <> (repr j.name
              <> (": numjobs="
                  <> (show j.numjobs
                      <> (" requires offset_increment (threads otherwise share byte ranges and serve from drive "
                          <> "DRAM cache, inflating multi-thread throughput; see experiment 007 gotcha)"))))))
    else ok j

unfoldable pub validate_jobs : List FioJob → Result (List FioJob)
unfolding validate_job
validate_jobs [] = ok []
validate_jobs (j ∷ jobs) = do ok ((← validate_job j) ∷ (← validate_jobs jobs))

abbrev count : String → List String → ℕ
count n [] = 0
count n (m ∷ names) = let rest = count n names in if n == m then suc rest else rest

-- `sorted({n for n in names if names.count(n) > 1})`
unfoldable pub dupes : List String → List String
dupes names = order_by text_lt (select (λ n. ltb 1 (count n names)) (distinct names))

abbrev pub require_unique : {A : Type 0} → String → List String → A → Result A
require_unique what names a = elim (dupes names) [
  | [] ↦ ok a
  | n ∷ rest ↦ raised (value_error (what <> repr_list (n ∷ rest)))
]

abbrev job_names : List FioJob → List String
job_names = map (λ j. j.name)

-- `FioScenarioSpec._jobs_non_empty_and_unique`
unfoldable pub jobs_non_empty_and_unique : List FioJob → Result (List FioJob)
jobs_non_empty_and_unique [] = raised (value_error "scenario must declare at least one job")
jobs_non_empty_and_unique (j ∷ jobs) =
    require_unique "duplicate job names: " (job_names (j ∷ jobs)) (j ∷ jobs)

-- `FioScenarioSpec.estimated_runtime_seconds`
unfoldable pub estimated_runtime_seconds : FioScenarioSpec → ℤ
estimated_runtime_seconds s =
    (s.fio_global.ramp_time +ℤ s.fio_global.runtime +ℤ pos 5) *ℤ pos (length s.jobs)

-- `Cluster._node_names_unique`
unfoldable pub node_names_unique : List Node → Result (List Node)
node_names_unique v = require_unique "duplicate node names: " (map (λ n. n.name) v) v

abbrev pub node_names : {V : Type 0} → Campaign V → List String
node_names c = map (λ n. n.name) c.cluster.nodes

abbrev pub target_names : {V : Type 0} → Campaign V → List String
target_names c = map (λ t. t.name) c.targets

unfoldable pub check_targets : List String → List StorageTarget → Result (Unit {0})
check_targets nodes [] = ok tt
check_targets nodes (t ∷ targets) =
    let rest = check_targets nodes targets in
    if contains t.node nodes
    then rest
    else raised (
        value_error (
          "target "
          <> (repr t.name
              <> (": node "
                  <> (repr t.node
                      <> (" not in cluster.nodes ("
                          <> (repr_list (order_by text_lt nodes) <> ")")))))))

unfoldable pub check_runs : List String → ℕ → List CampaignRun → Result (Unit {0})
check_runs targets i [] = ok tt
check_runs targets i (r ∷ runs) =
    let rest = check_runs targets (suc i) runs in
    if contains r.target targets
    then rest
    else raised (
        value_error (
          "runs["
          <> (show_ℕ i
              <> ("]: target "
                  <> (repr r.target
                      <> (" not in campaign.targets ("
                          <> (repr_list (order_by text_lt targets) <> ")")))))))

-- `Campaign._cross_refs`
unfoldable pub cross_refs : {V : Type 0} → Campaign V → Result (Campaign V)
unfolding check_targets check_runs
cross_refs c = do
  require_unique "duplicate target names: " (target_names c) c
  check_targets (node_names c) c.targets
  check_runs (target_names c) 0 c.runs
  ok c

-- pydantic reports what a validator raises.
abbrev pub reported : {A : Type 0} → Result A → Result A
reported (ok a) = ok a
reported (raised (value_error m)) = raised (validation_error m)
reported (raised e) = raised e

unfoldable pub validate_scenario : FioScenarioSpec → Result FioScenarioSpec
unfolding validate_jobs jobs_non_empty_and_unique
validate_scenario s =
    reported (do jobs ← validate_jobs s.jobs; jobs_non_empty_and_unique jobs; ok s)

unfoldable pub validate_campaign : {V : Type 0} → Campaign V → Result (Campaign V)
unfolding node_names_unique cross_refs
validate_campaign c = reported (do node_names_unique c.cluster.nodes; cross_refs c)
