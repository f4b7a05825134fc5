-- ===== src/Cli/Gate.antt =====
-- harness/cli.py: what the preflight of `run` keeps from happening.
use aihomelab.Base.{
  ℕ, String, Bool, true, false, not, ◌&&◌, Option, none, some, List, [], ◌∷◌, ◌==◌, string_eq,
  Option-cases, Result, ok, raised, Py, pure, continue, ◌>>=◌, Keeps, keeps_rules, Keeps-if,
  Keeps-bind, Keeps-pure, if◌then◌else◌, ◌≡◌, refl, inl, inr, arith, Keeps-lift, Keeps-raise,
  Keeps-when, dict_get, value_error, unicode_error, remote_error,
}
use aihomelab.Base.Text.{is_empty}
use aihomelab.Base.Attempt.{ok-injective}
use aihomelab.Base.Int.{ℤ}
use aihomelab.Base.Dict
use aihomelab.Floats.{Floats}
use aihomelab.Config.{Node, StorageTarget, Campaign, ResolvedRun, Loader, load_campaign}
use aihomelab.Store.{DbFile}
use aihomelab.System.{Outside, Sys}
use aihomelab.System.Database.{OnDb, db_rules, Keeps-progress}
use aihomelab.Ssh.{preflight_target, after_df, existing_size, stat_file_size_gib, df_free_bytes}
use aihomelab.Ssh.Database.{Keeps-run_remote}
use aihomelab.Runners.Interface.{Runner}
use aihomelab.Orchestrator.{new_run_id, allocate_run, run_campaign}
use aihomelab.Cli.{
  is_load_error, loaded, exit_status, execute, start, passes_preflight, run, open_log,
  fresh_request,
}
use aihomelab.Cli.Targets.{require, node_map, node_of, check_target, gate}

module _ (O : Outside) (V : Type 0) (Q : DbFile V → Type 0) where
  Keeps-stat : (node : Node) (path : String) → Keeps (OnDb {O = O} Q) (stat_file_size_gib node path)
  unfolding stat_file_size_gib
  Keeps-stat node path = search (db_rules, Keeps-run_remote)

  Keeps-df :
      (node : Node) (path : String) (dry : Bool)
      → Keeps (OnDb {O = O} Q) (df_free_bytes node path dry)
  unfolding df_free_bytes
  Keeps-df node path dry = search (db_rules, Keeps-run_remote)

  Keeps-existing_size :
      (node : Node) (target : StorageTarget) (required margin : ℤ) (file : Option String)
      → Keeps (OnDb {O = O} Q) (existing_size node target required margin file)
  unfolding existing_size
  Keeps-existing_size node target required margin none = Keeps-pure none
  Keeps-existing_size node target required margin (some path) =
      Keeps-if (is_empty path) _ _ (Keeps-pure none) (Keeps-stat node path)

  Keeps-after_df :
      (node : Node) (target : StorageTarget) (required margin : ℤ) (file : Option String)
      (free : Result ℤ)
      → Keeps (OnDb {O = O} Q) (after_df node target required margin file free)
  unfolding after_df
  Keeps-after_df node target required margin file (ok free) = search (db_rules, Keeps-existing_size)
  Keeps-after_df node target required margin file (raised (value_error m)) = Keeps-pure _
  Keeps-after_df node target required margin file (raised (unicode_error m)) = Keeps-pure _
  Keeps-after_df node target required margin file (raised (remote_error r)) = Keeps-pure _
  Keeps-after_df node target required margin file (raised e) = Keeps-raise _

  Keeps-preflight_target :
      (node : Node) (target : StorageTarget) (required margin : ℤ) (dry : Bool)
      (file : Option String)
      → Keeps (OnDb {O = O} Q) (preflight_target node target required margin dry file)
  unfolding preflight_target
  Keeps-preflight_target node target required margin true file = Keeps-pure _
  Keeps-preflight_target node target required margin false file =
      search (db_rules, Keeps-run_remote, Keeps-df, Keeps-after_df)

  Keeps-node_of : (nodes : List Node) (name : String) → Keeps (OnDb {O = O} Q) (node_of nodes name)
  unfolding node_of
  Keeps-node_of nodes name = elim (Option-cases (dict_get name (node_map nodes))) [
    | inl e ↦ rw (e, node_of) (search keeps_rules)
    | inr (node, e) ↦ rw (e, node_of) (search keeps_rules)
  ]

  Keeps-check_target :
      (campaign : Campaign V) (dry : Bool) (target : StorageTarget) (required : ℤ)
      → Keeps (OnDb {O = O} Q) (check_target campaign dry target required)
  unfolding check_target
  Keeps-check_target campaign dry target required =
      search (db_rules, Keeps-node_of, Keeps-preflight_target)

  Keeps-gate :
      (campaign : Campaign V) (requirements : List (String × ℤ)) (targets : List StorageTarget)
      → Keeps (OnDb {O = O} Q) (gate campaign requirements targets)
  unfolding gate
  Keeps-gate campaign requirements [] = Keeps-pure true
  Keeps-gate campaign requirements (target ∷ targets) =
      let rest = Keeps-gate campaign requirements targets in
      elim (Option-cases (Dict.get target.name requirements)) [
        | inl e ↦ rw (e, gate) rest
        | inr (required, e) ↦
            rw (e, gate)
              (Keeps-bind _ _ (Keeps-check_target campaign false target required)
                λ finding. Keeps-if finding.is_ok _ _ rest (search db_rules))
      ]

not_one : (b : Bool) → ◌≡◌ {A = ℕ} (if b then 0 else 2) 1 → ⊥
not_one true h = omega (arith, h)
not_one false h = omega (arith, h)

module _ (O : Outside) (V : Type 0) (Q : DbFile V → Type 0) where
  Keeps-new_run_id : (name : String) → Keeps (OnDb {O = O} Q) (new_run_id name)
  unfolding new_run_id
  Keeps-new_run_id name = search db_rules

  Keeps-open_log : (dir : String) → Keeps (OnDb {O = O} Q) (open_log dir)
  unfolding open_log
  Keeps-open_log dir = search db_rules

  Keeps-allocate_run :
      (name root : String) (dry : Bool) → Keeps (OnDb {O = O} Q) (allocate_run name root dry)
  unfolding allocate_run
  Keeps-allocate_run name root dry = search (db_rules, Keeps-new_run_id)

module _ (fl : Floats) (O : Outside) (ld : Loader fl.Float)
    (runners : List (String × Runner O fl.Float)) where
  Keeps-passes_preflight :
      (Q : DbFile fl.Float → Type 0) (campaign : Campaign fl.Float) (resolved : List ResolvedRun)
      → Keeps (OnDb {O = O} Q) (passes_preflight fl O ld runners campaign resolved)
  unfolding passes_preflight
  Keeps-passes_preflight Q campaign resolved =
      Keeps-bind _ _ (Keeps-progress O fl.Float Q "Preflight:") λ _.
        Keeps-bind _ _ (Keeps-lift (require fl resolved []))
          λ requirements. Keeps-gate O fl.Float Q campaign requirements campaign.targets

  -- A command that ends with code 1 leaves the database file as it was.
  record Refuses (f : DbFile fl.Float) (command : Py (Sys O fl.Float) ℕ) : Type 0 where
    pub at : (s : Sys O fl.Float) → s.db ≡ f → (command s).0 ≡ ok 1 → (command s).1.db ≡ f

  Refuses-kept :
      (f : DbFile fl.Float) (command : Py (Sys O fl.Float) ℕ)
      → Keeps (OnDb {O = O} (λ g. g ≡ f)) command
      → Refuses f command
  unfolding OnDb
  Refuses-kept f command k = record { at = λ s e _. k.at s e }

  Refuses-bind :
      {A : Type 0} (f : DbFile fl.Float) (m : Py (Sys O fl.Float) A)
      (next : A → Py (Sys O fl.Float) ℕ)
      → Keeps (OnDb {O = O} (λ g. g ≡ f)) m
      → ((a : A) → Refuses f (next a))
      → Refuses f (m >>= next)
  unfolding ◌>>=◌ OnDb
  Refuses-bind {A} f m next k rest = record { at = λ s e h. go (m s).0 (m s).1 (k.at s e) h }
    where
      go :
          (r : Result A) (s : Sys O fl.Float)
          → s.db ≡ f
          → (continue r next s).0 ≡ ok 1
          → (continue r next s).1.db ≡ f
      go (ok a) s e h = (rest a).at s e h
      go (raised problem) s e h = absurd cc

  -- A campaign that has run ends with code 0 or 2.
  Refuses-status :
      (f : DbFile fl.Float) (m : Py (Sys O fl.Float) (String × String))
      → Refuses f (m >>= λ outcome. pure (exit_status outcome.1))
  unfolding ◌>>=◌
  Refuses-status f m = record { at = λ s e h. go (m s).0 (m s).1 h }
    where
      go :
          (r : Result (String × String)) (s : Sys O fl.Float)
          → (continue r (λ outcome. pure (exit_status outcome.1)) s).0 ≡ ok 1
          → (continue r (λ outcome. pure (exit_status outcome.1)) s).1.db ≡ f
      go (ok outcome) s h = absurd (not_one (outcome.1 == "ok") (ok-injective h))
      go (raised problem) s h = absurd cc

  Refuses-start :
      (f : DbFile fl.Float) (path : String) (dry_run : Bool) (root : String)
      (campaign : Campaign fl.Float)
      → Refuses f (start fl O ld runners path dry_run root campaign)
  unfolding start execute
  Refuses-start f path dry_run root campaign =
      Refuses-bind f _ _ (Keeps-allocate_run O fl.Float _ campaign.name root dry_run) λ allocated.
        Refuses-bind f _ _
          (Keeps-when (not dry_run) (open_log allocated.1)
            (Keeps-open_log O fl.Float _ allocated.1))
          λ _.
            Refuses-status f
              (run_campaign fl O ld runners (fresh_request path dry_run root allocated.0))

  Refuses-loaded :
      (f : DbFile fl.Float) (outcome : Result (Campaign fl.Float × List ResolvedRun))
      (next : Campaign fl.Float → List ResolvedRun → Py (Sys O fl.Float) ℕ)
      → ((campaign : Campaign fl.Float) (resolved : List ResolvedRun)
          → Refuses f (next campaign resolved))
      → Refuses f (loaded fl O ld runners outcome next)
  unfolding loaded
  Refuses-loaded f (ok (campaign, resolved)) next k = k campaign resolved
  Refuses-loaded f (raised e) next k =
      Refuses-kept f _ (Keeps-if (is_load_error e) _ _ (search db_rules) (Keeps-raise e))

  Refuses-passed :
      (f : DbFile fl.Float) (passed : Bool) (path : String) (dry_run : Bool) (root : String)
      (campaign : Campaign fl.Float)
      → Refuses f (if passed then start fl O ld runners path dry_run root campaign else pure 1)
  Refuses-passed f true path dry_run root campaign = Refuses-start f path dry_run root campaign
  Refuses-passed f false path dry_run root campaign = Refuses-kept f _ (Keeps-pure 1)

  -- `run` that ends with code 1 (the campaign does not load, or a target does not pass) has not
  -- touched the database file, which is as it was.
  pub run-Refuses :
      (campaign_path results_root : String) (dry_run no_preflight : Bool) (s : Sys O fl.Float)
      → (run fl O ld runners campaign_path dry_run no_preflight results_root s).0 ≡ ok 1
      → (run fl O ld runners campaign_path dry_run no_preflight results_root s).1.db ≡ s.db
  unfolding run
  run-Refuses campaign_path results_root dry_run no_preflight s h =
      (Refuses-loaded s.db (load_campaign fl ld campaign_path) _ λ campaign resolved.
          Refuses-bind s.db
            (if not no_preflight && not dry_run
              then passes_preflight fl O ld runners campaign resolved
              else pure true)
            _ (Keeps-if _ _ _ (Keeps-passes_preflight _ campaign resolved) (Keeps-pure true))
            λ passed. Refuses-passed s.db passed campaign_path dry_run results_root campaign).at
        s refl h
