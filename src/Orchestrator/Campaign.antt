-- ===== src/Orchestrator/Campaign.antt =====
-- harness/orchestrator.py: `run_campaign` and `_cleanup_targets`.
use aihomelab.Base.{
  ℕ, ◌+◌, String, ◌<>◌, Bool, true, false, not, ◌||◌, Option, none, some, List, [], ◌∷◌, length,
  contains, ◌==◌, string_eq, pair_eq, Py, pure, raise, lift, when, ◌>>=◌, ◌>>◌, value_error,
  key_error, ok, if◌then◌else◌,
}
use aihomelab.Base.Text.{show_ℕ, given, ◌</>◌}
use aihomelab.Base.Time.{stamp}
use aihomelab.Floats.{Floats, is_nan}
use aihomelab.Config.{
  Campaign, ResolvedRun, Cleanup, after_campaign, after_each_run, never, Loader, load_campaign,
}
use aihomelab.Store.{RunRow, DbFile, absent, start_run, finish_run, init_db, list_runs}
use aihomelab.System.{Outside, Sys, utc_now, stored, progress, make_dir}
use aihomelab.Runners.Interface.{RunContext, Runner}
use aihomelab.Orchestrator.Scenario.{runner_of, find_node, execute_scenario}

-- The row that `find_latest_running_run` stops at.
unfoldable pub first_running : Option String → List RunRow → Option String
first_running campaign [] = none
first_running campaign (row ∷ rows) =
    let rest = first_running campaign rows in
    if not (row.status == "running") then rest else (elim (given campaign) [
      | none ↦ some row.run_id
      | some name ↦ if row.campaign_name == name then some row.run_id else rest
    ])

unfoldable pub find_latest_running_run :
    {V : Type 0} → Option String → Py (DbFile V) (Option String)
unfolding first_running ◌>>=◌
find_latest_running_run campaign absent = (ok none, absent)
find_latest_running_run campaign f = (do rows ← list_runs; pure (first_running campaign rows)) f

module _ {V : Type 0} {O : Outside} where
  -- `_new_run_id`
  unfoldable pub new_run_id : String → Py (Sys O V) String
  unfolding utc_now ◌>>=◌
  new_run_id campaign_name = do now ← utc_now; pure (campaign_name <> ("-" <> stamp now))

  unfoldable pub allocate_run : String → String → Bool → Py (Sys O V) (String × String)
  unfolding new_run_id make_dir when
  allocate_run campaign_name results_root dry_run = do
    run_id ← new_run_id campaign_name
    let raw_dir = results_root </> "raw" </> run_id
    when (not dry_run) (make_dir raw_dir)
    pure (run_id, raw_dir)

abbrev is_after_campaign : Cleanup → Bool
is_after_campaign after_campaign = true
is_after_campaign after_each_run = false
is_after_campaign never = false

module _ (V : Type 0) (is_nan : V → Bool) (O : Outside) (runners : List (String × Runner O V)) where
  -- `_RUNNERS[kind]`
  unfoldable pub required_runner : String → Py (Sys O V) (Runner O V)
  unfolding ◌>>=◌
  required_runner kind = elim (runner_of kind runners) [
    | none ↦ raise (key_error kind)
    | some r ↦ pure r
  ]

  module _ (campaign : Campaign V) (ctx : RunContext) where
    -- The loop of `_cleanup_targets`, with its set `seen`.
    unfoldable pub clean_each : List ResolvedRun → List (String × String) → Py (Sys O V) (Unit {0})
    unfolding find_node progress required_runner
    clean_each [] seen = pure tt
    clean_each (rr ∷ rest) seen =
        let skip = clean_each rest seen in
        let clean = (do
          runner ← required_runner rr.scenario.kind
          node ← find_node campaign rr.target.node
          runner.cleanup rr.scenario rr.target node ctx
          progress ("  cleaned " <> rr.target.name)
          clean_each rest ((rr.target.name, rr.scenario.kind) ∷ seen)) in
        if contains (rr.target.name, rr.scenario.kind) seen then skip else clean

    unfoldable pub cleanup_targets : List ResolvedRun → Py (Sys O V) (Unit {0})
    unfolding clean_each
    cleanup_targets resolved = do
      progress "\nCleanup (after_campaign): removing testfiles"
      clean_each resolved []

    -- The loop over the resolved runs; what comes back tells whether one of them failed.
    unfoldable pub execute_all : (total idx : ℕ) → List ResolvedRun → Bool → Py (Sys O V) Bool
    unfolding execute_scenario
    execute_all total idx [] any_failed = pure any_failed
    execute_all total idx (rr ∷ rest) any_failed = do
      bad ← execute_scenario V is_nan O runners campaign ctx rr idx total
      execute_all total (idx + 1) rest (any_failed || bad)

    -- From the context on: the scenarios, the cleanup, and the end of the run.
    unfoldable pub run_all : List ResolvedRun → Py (Sys O V) String
    unfolding execute_all cleanup_targets utc_now stored when
    run_all resolved = do
      any_failed ← execute_all (length resolved) 1 resolved false
      let status = if any_failed then "failed" else "ok"
      when (is_after_campaign campaign.cleanup) (cleanup_targets resolved)
      when (not ctx.dry_run) (do now ← utc_now; stored (finish_run now ctx.run_id status))
      progress ("\nRun " <> (ctx.run_id <> (" finished: " <> status)))
      pure status

abbrev pub both : Option String → Option String → Bool
both (some _) (some _) = true
both _ _ = false

-- The arguments of `run_campaign`.
pub record RunRequest : Type 0 where
  pub campaign_path : String
  pub results_root : String
  pub dry_run : Bool
  pub resume_run_id : Option String
  pub new_run_id : Option String

abbrev pub context : RunRequest → String → RunContext
context q run_id = record {
  run_id = run_id;
  raw_dir = q.results_root </> "raw" </> run_id;
  dry_run = q.dry_run;
}

module _ (fl : Floats) (O : Outside) (ld : Loader fl.Float)
    (runners : List (String × Runner O fl.Float)) where
  unfoldable pub fresh_run_id : Option String → String → Py (Sys O fl.Float) String
  unfolding new_run_id
  fresh_run_id none name = new_run_id name
  fresh_run_id (some id) name = pure id

  -- The run that is resumed, or the new run with its row in the store.
  unfoldable pub begin :
      RunRequest → Campaign fl.Float → ℕ → Option String → Py (Sys O fl.Float) String
  unfolding fresh_run_id make_dir progress utc_now stored when
  begin q campaign total (some run_id) = do
    let raw_dir = q.results_root </> "raw" </> run_id
    make_dir raw_dir
    progress ("Resuming run " <> run_id)
    pure run_id
  begin q campaign total none = do
    run_id ← fresh_run_id (given q.new_run_id) campaign.name
    let raw_dir = q.results_root </> "raw" </> run_id
    make_dir raw_dir
    when (not q.dry_run) (do
      stored init_db
      now ← utc_now
      stored (start_run now run_id campaign.name (some q.campaign_path) raw_dir none))
    progress ("Starting run " <> (run_id <> (" (" <> (show_ℕ total <> " scenario binding(s))"))))
    pure run_id

  unfoldable pub run_campaign : RunRequest → Py (Sys O fl.Float) (String × String)
  unfolding begin run_all
  run_campaign q =
      if both (given q.resume_run_id) (given q.new_run_id)
      then raise (value_error "pass at most one of resume_run_id / new_run_id")
      else (do
        (campaign, resolved) ← lift (load_campaign fl ld q.campaign_path)
        run_id ← begin q campaign (length resolved) (given q.resume_run_id)
        status ← run_all fl.Float (is_nan fl) O runners campaign (context q run_id) resolved
        pure (run_id, status))
