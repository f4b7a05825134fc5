-- ===== src/Orchestrator/Invariant.antt =====
-- harness/orchestrator.py: a whole campaign and the database file.
use aihomelab.Base.{
  ℕ, ◌+◌, String, ◌<>◌, ◌≡◌, refl, Bool, true, false, not, ◌||◌, inl, inr, Option, none, some, List,
  [], ◌∷◌, All, length, contains, string_eq, pair_eq, Option-cases, Py, ok, pure, when, Keeps,
  Keeps-bind, Keeps-bind_returned, keeps_rules, arith, ap, ◌∙◌, Keeps-pure, Keeps-if, Keeps-lift,
  ◌>>=◌, ◌>>◌,
}
use aihomelab.Base.Text.{given, ◌</>◌, show_ℕ}
use aihomelab.Base.Attempt.{ok-injective}
use aihomelab.Floats.{Floats, is_nan}
use aihomelab.Store.{DbFile, finish_run, start_run, init_db}
use aihomelab.Store.Invariant.{
  FileIsSound, init_db-FileIsSound, start_run-FileIsSound, finish_run-FileIsSound,
  start_scenario-FileIsSound, finish_scenario-FileIsSound, record_metrics-FileIsSound,
  scenario_completed-FileIsSound,
}
use aihomelab.Config.{Campaign, ResolvedRun, Loader, load_campaign}
use aihomelab.System.{Outside, Sys, stored, utc_now}
use aihomelab.System.Database.{
  OnDb, db_rules, Keeps-stored, Keeps-utc_now, Keeps-progress, Keeps-make_dir,
}
use aihomelab.Runners.Interface.{RunContext, Runner}
use aihomelab.Runners.Interface.Laws.{KeepsDatabase}
use aihomelab.Orchestrator.Scenario.{runner_of}
use aihomelab.Orchestrator.Campaign.{
  required_runner, clean_each, cleanup_targets, execute_all, run_all, RunRequest, begin,
  fresh_run_id, run_campaign, both, context,
}
use aihomelab.Orchestrator.Database.{
  StatementsKeep, Keeps-unless, KeepsDatabase-runner_of, Keeps-find_node, Keeps-execute_scenario,
}

module _ {O : Outside} {V : Type 0} (is_nan : V → Bool) (runners : List (String × Runner O V)) where
  Keeps-required_runner :
      {P : Sys O V → Type 0} (kind : String) → Keeps P (required_runner V is_nan O runners kind)
  unfolding required_runner
  Keeps-required_runner kind = elim (Option-cases (runner_of kind runners)) [
    | inl e ↦ rw (e, required_runner) (search keeps_rules)
    | inr (R, e) ↦ rw (e, required_runner) (search keeps_rules)
  ]

  required_runner-returned :
      (kind : String) (s : Sys O V) (R : Runner O V)
      → (required_runner V is_nan O runners kind s).0 ≡ ok R
      → runner_of kind runners ≡ some R
  unfolding required_runner
  required_runner-returned kind s R h = elim (Option-cases (runner_of kind runners)) [
    | inl e ↦ absurd (ground arith)
    | inr (R', e) ↦ e ∙ ap some (ok-injective (rw (e, required_runner) at h))
  ]

module _ {O : Outside} {V : Type 0} (is_nan : V → Bool) (Q : DbFile V → Type 0)
    (runners : List (String × Runner O V)) (kept : All (λ e. KeepsDatabase Q e.1) runners) where
  module _ (ctx : RunContext) (w : ctx.dry_run ≡ false → StatementsKeep Q)
      (campaign : Campaign V) where
    Keeps-clean_each :
        (rrs : List ResolvedRun) (seen : List (String × String))
        → Keeps (OnDb {O = O} Q) (clean_each V is_nan O runners campaign ctx rrs seen)
    unfolding clean_each
    Keeps-clean_each [] seen = Keeps-pure tt
    Keeps-clean_each (rr ∷ rest) seen =
        Keeps-if (contains (rr.target.name, rr.scenario.kind) seen) _ _ (Keeps-clean_each rest seen)
          (Keeps-bind_returned _ _ (Keeps-required_runner is_nan runners rr.scenario.kind)
            λ s R returned.
              let kr =
                KeepsDatabase-runner_of is_nan Q runners kept rr.scenario.kind R
                  (required_runner-returned is_nan runners rr.scenario.kind s R returned) in
              Keeps-bind _ _ (Keeps-find_node is_nan Q runners kept campaign rr.target.node) λ node.
                Keeps-bind _ _ (kr.cleanup rr.scenario rr.target node ctx) λ _.
                  Keeps-bind _ _ (Keeps-progress O V Q _)
                    λ _. Keeps-clean_each rest ((rr.target.name, rr.scenario.kind) ∷ seen))

    Keeps-cleanup_targets :
        (rrs : List ResolvedRun)
        → Keeps (OnDb {O = O} Q) (cleanup_targets V is_nan O runners campaign ctx rrs)
    unfolding cleanup_targets
    Keeps-cleanup_targets rrs = search (db_rules, Keeps-clean_each)

    Keeps-execute_all :
        (total idx : ℕ) (rrs : List ResolvedRun) (bad : Bool)
        → Keeps (OnDb {O = O} Q) (execute_all V is_nan O runners campaign ctx total idx rrs bad)
    unfolding execute_all
    Keeps-execute_all total idx [] bad = Keeps-pure bad
    Keeps-execute_all total idx (rr ∷ rest) bad =
        Keeps-bind _ _ (Keeps-execute_scenario is_nan Q runners kept ctx w campaign rr idx total)
          λ b. Keeps-execute_all total (idx + 1) rest (bad || b)

    Keeps-end_run :
        (status : String)
        → Keeps
            (OnDb {O = O} Q)
            (when (not ctx.dry_run) (utc_now >>= λ now. stored (finish_run now ctx.run_id status)))
    Keeps-end_run status = Keeps-unless (OnDb Q) ctx.dry_run _ λ real.
        Keeps-bind _ _ (Keeps-utc_now O V Q)
          λ now. Keeps-stored O V Q _ ((w real).finish_run now ctx.run_id status)

    Keeps-run_all :
        (rrs : List ResolvedRun)
        → Keeps (OnDb {O = O} Q) (run_all V is_nan O runners campaign ctx rrs)
    unfolding run_all
    Keeps-run_all rrs =
        search (db_rules, Keeps-execute_all, Keeps-cleanup_targets, Keeps-end_run) depth 14

module _ (fl : Floats) (O : Outside) (ld : Loader fl.Float)
    (runners : List (String × Runner O fl.Float)) (Q : DbFile fl.Float → Type 0)
    (kept : All (λ e. KeepsDatabase Q e.1) runners) (q : RunRequest)
    (w : q.dry_run ≡ false → StatementsKeep Q) where
  Keeps-open_run :
      (now : ℕ → Py (DbFile fl.Float) (Unit {0}))
      → ((t : ℕ) → q.dry_run ≡ false → Keeps Q (now t))
      → Keeps
          (OnDb {O = O} Q)
          (when (not q.dry_run) (stored init_db >> (utc_now >>= λ t. stored (now t))))
  Keeps-open_run now k = Keeps-unless (OnDb Q) q.dry_run _ λ real.
      Keeps-bind _ _ (Keeps-stored O fl.Float Q _ (w real).init)
        λ _. Keeps-bind _ _ (Keeps-utc_now O fl.Float Q) λ t. Keeps-stored O fl.Float Q _ (k t real)

  Keeps-fresh_run_id :
      (id : Option String) (name : String)
      → Keeps (OnDb {O = O} Q) (fresh_run_id fl O ld runners id name)
  unfolding fresh_run_id
  Keeps-fresh_run_id none name = search db_rules
  Keeps-fresh_run_id (some id) name = search db_rules

  Keeps-begin :
      (campaign : Campaign fl.Float) (total : ℕ) (resume : Option String)
      → Keeps (OnDb {O = O} Q) (begin fl O ld runners q campaign total resume)
  unfolding begin
  Keeps-begin campaign total (some id) = search db_rules
  Keeps-begin campaign total none =
      Keeps-bind _ _ (Keeps-fresh_run_id (given q.new_run_id) campaign.name) λ id.
        Keeps-bind _ _ (Keeps-make_dir O fl.Float Q _) λ _.
          Keeps-bind _ _
            (Keeps-open_run
              (λ t.
                start_run t id campaign.name (some q.campaign_path)
                  (q.results_root </> "raw" </> id) none)
              (λ t real. (w real).start_run t id campaign.name _ _ none))
            λ _.
              Keeps-bind _ _
                (Keeps-progress O fl.Float Q
                  ("Starting run " <> (id <> (" (" <> (show_ℕ total <> " scenario binding(s))")))))
                λ _. Keeps-pure id

  Keeps-campaign :
      (campaign : Campaign fl.Float) (resolved : List ResolvedRun)
      → Keeps {A = String × String} (OnDb {O = O} Q) (
          begin fl O ld runners q campaign (length resolved) (given q.resume_run_id) >>= λ run_id.
          run_all fl.Float (is_nan fl) O runners campaign (context q run_id) resolved >>= λ status.
          pure (run_id, status))
  Keeps-campaign campaign resolved =
      Keeps-bind _ _ (Keeps-begin campaign (length resolved) (given q.resume_run_id)) λ id.
        Keeps-bind _ _ (Keeps-run_all (is_nan fl) Q runners kept (context q id) w campaign resolved)
          λ status. Keeps-pure (id, status)

  pub Keeps-run_campaign : Keeps (OnDb {O = O} Q) (run_campaign fl O ld runners q)
  unfolding run_campaign
  Keeps-run_campaign =
      Keeps-if (both (given q.resume_run_id) (given q.new_run_id)) _ _ (search db_rules) (
        Keeps-bind _ _ (Keeps-lift (load_campaign fl ld q.campaign_path))
          λ loaded. Keeps-campaign loaded.0 loaded.1)

FileIsSound-StatementsKeep : {V : Type 0} → StatementsKeep (FileIsSound {V = V})
FileIsSound-StatementsKeep = record {
  init = init_db-FileIsSound;
  start_run = start_run-FileIsSound;
  finish_run = finish_run-FileIsSound;
  start_scenario = start_scenario-FileIsSound;
  finish_scenario = finish_scenario-FileIsSound;
  record_metrics = record_metrics-FileIsSound;
  scenario_completed = scenario_completed-FileIsSound;
}

module _ (fl : Floats) (O : Outside) (ld : Loader fl.Float)
    (runners : List (String × Runner O fl.Float)) (q : RunRequest) (s : Sys O fl.Float) where
  -- Whether a campaign returns or raises, on a fresh run or a resumed one: if the runners leave the
  -- database alone and its file met the declared constraints before (unique primary keys, and
  -- scenario, metric and environment rows that refer to a run), it meets them after.
  pub run_campaign-FileIsSound :
      All (λ e. KeepsDatabase FileIsSound e.1) runners
      → FileIsSound s.db
      → FileIsSound (run_campaign fl O ld runners q s).1.db
  unfolding OnDb
  run_campaign-FileIsSound kept sound =
      (Keeps-run_campaign fl O ld runners FileIsSound kept q (λ _. FileIsSound-StatementsKeep)).at s
        sound

  -- A dry run, fresh or resumed, that returns or raises, leaves the database file exactly as it was,
  -- if the runners leave it alone.
  pub run_campaign-dry_run :
      All (λ e. KeepsDatabase (λ f. f ≡ s.db) e.1) runners
      → q.dry_run ≡ true
      → (run_campaign fl O ld runners q s).1.db ≡ s.db
  unfolding OnDb
  run_campaign-dry_run kept dry =
      (Keeps-run_campaign fl O ld runners (λ f. f ≡ s.db) kept q
          (λ real. absurd (cc (dry, real)))).at
        s refl
