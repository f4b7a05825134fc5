-- ===== src/Orchestrator/Database.antt =====
-- harness/orchestrator.py: the parts of a campaign and the database file.
use aihomelab.Base.{
  ℕ, zero, suc, ◌+◌, String, ◌≡◌, refl, Bool, true, false, not, ◌||◌, Bool-cases, inl, inr, Option,
  some, List, [], ◌∷◌, All, find, ◌==◌, string_eq, subst, Option-cases, Py, Result, ok, raised,
  when, Keeps, Keeps-bind, Keeps-bind_returned, Keeps-pure, Keeps-if, if◌then◌else◌,
}
use mathlib.Core.Option.{some-injective}
use aihomelab.Store.{
  DbFile, MetricRecord, init_db, start_run, finish_run, start_scenario, finish_scenario,
  record_metrics, scenario_completed,
}
use aihomelab.Config.{Campaign, ResolvedRun, Node}
use aihomelab.System.{Outside, Sys}
use aihomelab.System.Database.{OnDb, db_rules, Keeps-stored, Keeps-utc_now}
use aihomelab.Runners.Interface.{RunContext, JobOutcome, Runner}
use aihomelab.Runners.Interface.Laws.{KeepsDatabase}
use aihomelab.Orchestrator.Scenario.{
  is_ok, runner_of, find_node, record_outcome, consume, finish, start, completed, after_prepare,
  execute_repeat, execute_repeats, execute_scenario,
}

-- `Q` survives each statement that the orchestrator makes.
pub record StatementsKeep {V : Type 0} (Q : DbFile V → Type 0) : Type 0 where
  pub init : Keeps Q init_db
  pub start_run :
      (now : ℕ) (id name : String) (path : Option String) (dir : String) (notes : Option String)
      → Keeps Q (start_run now id name path dir notes)
  pub finish_run : (now : ℕ) (id status : String) → Keeps Q (finish_run now id status)
  pub start_scenario :
      (now : ℕ) (id name : String) (i : ℕ) (kind target node path : String)
      → Keeps Q (start_scenario now id name i kind target node path)
  pub finish_scenario :
      (now : ℕ) (id name : String) (i : ℕ) (status : String) (error : Option String)
      → Keeps Q (finish_scenario now id name i status error)
  pub record_metrics :
      (is_nan : V → Bool) (id name : String) (i : ℕ) (records : List (MetricRecord V))
      → Keeps Q (record_metrics is_nan id name i records)
  pub scenario_completed : (id name : String) (i : ℕ) → Keeps Q (scenario_completed id name i)

-- `when (not dry)`, if the block keeps `P` in a run that is no dry run.
pub Keeps-unless :
    {S : Type 0} (P : S → Type 0) (dry : Bool) (m : Py S (Unit {0}))
    → (dry ≡ false → Keeps P m)
    → Keeps P (when (not dry) m)
unfolding when
Keeps-unless P true m k = Keeps-pure tt
Keeps-unless P false m k = k refl

-- `if dry then m else n`, likewise.
Keeps-else :
    {S A : Type 0} (P : S → Type 0) (dry : Bool) (m n : Py S A)
    → Keeps P m
    → (dry ≡ false → Keeps P n)
    → Keeps P (if dry then m else n)
Keeps-else P true m n km kn = km
Keeps-else P false m n km kn = kn refl

module _ {O : Outside} {V : Type 0} (is_nan : V → Bool) (Q : DbFile V → Type 0) (ctx : RunContext)
    (w : ctx.dry_run ≡ false → StatementsKeep Q) where
  module _ (runners : List (String × Runner O V)) (campaign : Campaign V) (rr : ResolvedRun) where
    Keeps-record_outcome :
        (repeat : ℕ) (outcome : JobOutcome V)
        → Keeps (OnDb {O = O} Q) (record_outcome V is_nan O runners campaign ctx rr repeat outcome)
    unfolding record_outcome
    Keeps-record_outcome repeat outcome =
        Keeps-if (is_ok outcome.status) _ _
          (Keeps-bind _ _
            (Keeps-else (OnDb Q) ctx.dry_run _ _ (Keeps-pure 0) λ real.
              Keeps-stored O V Q _
                ((w real).record_metrics is_nan ctx.run_id rr.scenario.name repeat outcome.metrics))
            (λ n. search db_rules))
          (search db_rules)

    Keeps-consume :
        (repeat : ℕ) (actions : List (Py (Sys O V) (JobOutcome V))) (bad : Bool)
        → All (Keeps (OnDb {O = O} Q)) actions
        → Keeps (OnDb {O = O} Q) (consume V is_nan O runners campaign ctx rr repeat actions bad)
    unfolding consume
    Keeps-consume repeat [] bad k = Keeps-pure bad
    Keeps-consume repeat (next ∷ rest) bad (k, ks) = Keeps-bind _ _ k λ outcome.
        Keeps-bind _ _ (Keeps-record_outcome repeat outcome)
          λ b. Keeps-consume repeat rest (bad || b) ks

    Keeps-finish :
        (repeat : ℕ) (status : String) (error : Option String)
        → Keeps (OnDb {O = O} Q) (finish V is_nan O runners campaign ctx rr repeat status error)
    unfolding finish
    Keeps-finish repeat status error = Keeps-unless (OnDb Q) ctx.dry_run _ λ real.
        Keeps-bind _ _ (Keeps-utc_now O V Q) λ now.
          Keeps-stored O V Q _
            ((w real).finish_scenario now ctx.run_id rr.scenario.name repeat status error)

    Keeps-start :
        (repeat : ℕ) → Keeps (OnDb {O = O} Q) (start V is_nan O runners campaign ctx rr repeat)
    unfolding start
    Keeps-start repeat = Keeps-unless (OnDb Q) ctx.dry_run _ λ real.
        Keeps-bind _ _ (Keeps-utc_now O V Q) λ now. Keeps-stored O V Q _ (
          (w real).start_scenario now ctx.run_id rr.scenario.name repeat rr.scenario.kind
            rr.target.name rr.target.node rr.target.path)

    Keeps-completed :
        (repeat : ℕ) → Keeps (OnDb {O = O} Q) (completed V is_nan O runners campaign ctx rr repeat)
    unfolding completed
    Keeps-completed repeat = Keeps-else (OnDb Q) ctx.dry_run _ _ (Keeps-pure false) λ real.
        Keeps-stored O V Q _ ((w real).scenario_completed ctx.run_id rr.scenario.name repeat)

    module _ (runner : Runner O V) (kr : KeepsDatabase Q runner) (node : Node) where
      Keeps-after_prepare :
          (repeat : ℕ) (r : Result (Unit {0}))
          → Keeps
              (OnDb {O = O} Q)
              (after_prepare V is_nan O runners campaign ctx rr runner node repeat r)
      unfolding after_prepare
      Keeps-after_prepare repeat (raised e) = search (db_rules, Keeps-finish) depth 9
      Keeps-after_prepare repeat (ok _) =
          Keeps-bind_returned _ _ (kr.run_jobs rr.scenario rr.target node ctx) λ s actions returned.
            Keeps-bind _ _
              (Keeps-consume repeat actions false
                (kr.actions rr.scenario rr.target node ctx s actions returned))
              λ bad. search (db_rules, Keeps-finish, kr.cleanup) depth 12

      Keeps-execute_repeat :
          (idx total repeat : ℕ)
          → Keeps
              (OnDb {O = O} Q)
              (execute_repeat V is_nan O runners campaign ctx rr runner node idx total repeat)
      unfolding execute_repeat
      Keeps-execute_repeat idx total repeat =
          search (db_rules, Keeps-completed, Keeps-start, Keeps-after_prepare, kr.prepare) depth 14

      Keeps-execute_repeats :
          (idx total left repeat : ℕ) (bad : Bool)
          → Keeps (OnDb {O = O} Q) (
              execute_repeats V is_nan O runners campaign ctx rr runner node idx total left repeat
                bad)
      unfolding execute_repeats
      Keeps-execute_repeats idx total zero repeat bad = Keeps-pure bad
      Keeps-execute_repeats idx total (suc left) repeat bad =
          Keeps-bind _ _ (Keeps-execute_repeat idx total repeat)
            λ b. Keeps-execute_repeats idx total left (repeat + 1) (bad || b)

module _ {O : Outside} {V : Type 0} (is_nan : V → Bool) (Q : DbFile V → Type 0)
    (runners : List (String × Runner O V)) (kept : All (λ e. KeepsDatabase Q e.1) runners) where
  pub KeepsDatabase-runner_of :
      (kind : String) (R : Runner O V) → runner_of kind runners ≡ some R → KeepsDatabase Q R
  KeepsDatabase-runner_of = go runners kept
    where
      go :
          (rs : List (String × Runner O V))
          → All (λ e. KeepsDatabase Q e.1) rs
          → (kind : String) (R : Runner O V) → runner_of kind rs ≡ some R
          → KeepsDatabase Q R
      go [] k kind R h = cc
      go ((name, r) ∷ rs) (k, ks) kind R h = elim (Bool-cases (name == kind)) [
        | inl e ↦ subst (KeepsDatabase Q) (some-injective r R (rw e at h)) k
        | inr e ↦ go rs ks kind R (rw e at h)
      ]

  pub Keeps-find_node :
      (campaign : Campaign V) (name : String) → Keeps (OnDb {O = O} Q) (find_node campaign name)
  unfolding find_node
  Keeps-find_node campaign name =
      elim (Option-cases (find (λ n. n.name == name) campaign.cluster.nodes)) [
        | inl e ↦ rw (e, find_node) (search db_rules)
        | inr (n, e) ↦ rw (e, find_node) (search db_rules)
      ]

  module _ (ctx : RunContext) (w : ctx.dry_run ≡ false → StatementsKeep Q)
      (campaign : Campaign V) where
    pub Keeps-execute_scenario :
        (rr : ResolvedRun) (idx total : ℕ)
        → Keeps (OnDb {O = O} Q) (execute_scenario V is_nan O runners campaign ctx rr idx total)
    unfolding execute_scenario
    Keeps-execute_scenario rr idx total = elim (Option-cases (runner_of rr.scenario.kind runners)) [
      | inl e ↦ rw (e, execute_scenario) (search db_rules)
      | inr (R, e) ↦
          rw (e, execute_scenario)
            (Keeps-bind _ _ (Keeps-find_node campaign rr.target.node) λ node.
              Keeps-execute_repeats is_nan Q ctx w runners campaign rr R
                (KeepsDatabase-runner_of rr.scenario.kind R e) node idx total _ 0 false)
    ]
