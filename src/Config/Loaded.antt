-- ===== src/Config/Loaded.antt =====
-- harness/config.py: what holds of a campaign that loads.
use aihomelab.Base.{
  Error, key_error, String, ◌≡◌, refl, Bool, true, false, Option, none, some, List, [], ◌∷◌, map,
  subst, All, Result, ok, raised, if◌then◌else◌,
}
use aihomelab.Base.Attempt.{>>=-eq-ok, ok-injective}
use aihomelab.Base.Int.{ℤ}
use aihomelab.Base.Text.{◌</>◌}
use aihomelab.Floats.{Floats}
use aihomelab.Config.Schema.{StorageTarget, CampaignRun, Campaign, ResolvedRun}
use aihomelab.Config.Validate.{validate_campaign}
use aihomelab.Config.Sizes.{parse_size_gib}
use aihomelab.Config.Load.{
  Loader, target_map, load_scenario, resolve_run, resolve_runs, exceeds, check_capacity,
  check_capacities, load_campaign, opened, target_named,
}

-- The target is the campaign's one of the name that the run gives.
abbrev pub HasTarget : {V : Type 0} → Campaign V → ResolvedRun → Type 0
HasTarget c rr = target_map c.targets rr.run.target ≡ some rr.target

-- The size of the testfile is readable and no more than the target declares.
abbrev pub FitsTarget : Floats → ResolvedRun → Type 0
FitsTarget fl rr =
    (size : ℤ) × (parse_size_gib fl rr.scenario.fio_global.size ≡ ok size)
    × (exceeds size rr.target.capacity_gib ≡ false)

-- A check that passed.
pub if-eq-ok :
    {A : Type 0} (b : Bool) (m : Result A) (e : Error) {a : A}
    → (if b then m else raised e) ≡ ok a
    → m ≡ ok a
if-eq-ok true m e h = h
if-eq-ok false m e h = absurd cc

pub if-true :
    {A : Type 0} (b : Bool) (m : Result A) (e : Error) {a : A}
    → (if b then m else raised e) ≡ ok a
    → b ≡ true
if-true true m e h = refl
if-true false m e h = absurd cc

unless-eq-ok :
    (b : Bool) (e : Error) {u : Unit {0}} → (if b then raised e else ok tt) ≡ ok u → b ≡ false
unless-eq-ok true e h = absurd cc
unless-eq-ok false e h = refl

-- The campaign passed its validators; the resolved runs are its runs, with their targets and sizes.
abbrev pub Loads : (fl : Floats) → Campaign fl.Float × List ResolvedRun → Type 0
Loads fl (c, rrs) =
    ((decoded : Campaign fl.Float) × (validate_campaign decoded ≡ ok c))
    × ((map (λ rr. rr.run) rrs ≡ c.runs) × All (HasTarget c) rrs)
    × All (FitsTarget fl) rrs

module _ {V : Type 0} (ld : Loader V) (c : Campaign V) where
  target_named-eq-ok :
      (name : String) (t : StorageTarget)
      → target_named ld c name ≡ ok t
      → target_map c.targets name ≡ some t
  target_named-eq-ok name t h = go (target_map c.targets name) refl h
    where
      go :
          (o : Option StorageTarget)
          → target_map c.targets name ≡ o
          → (elim o [ none ↦ raised (key_error name) | some target ↦ ok target ]) ≡ ok t
          → o ≡ some t
      go none e h = absurd cc
      go (some t') e h = cc

  resolve_run-eq-ok :
      (base : String) (run : CampaignRun) (rr : ResolvedRun)
      → resolve_run ld c base run ≡ ok rr
      → (rr.run ≡ run) × HasTarget c rr
  unfolding resolve_run
  resolve_run-eq-ok base run rr h =
      let (scenario, e, h1) = >>=-eq-ok (load_scenario ld _) _ (if-eq-ok _ _ _ h) in
      let (target, e', h2) = >>=-eq-ok (target_named ld c run.target) _ h1 in
      subst (λ r. (r.run ≡ run) × HasTarget c r) (ok-injective h2)
        (refl, target_named-eq-ok run.target target e')

  resolve_runs-eq-ok :
      (base : String) (runs : List CampaignRun) (rrs : List ResolvedRun)
      → resolve_runs ld c base runs ≡ ok rrs
      → (map (λ rr. rr.run) rrs ≡ runs) × All (HasTarget c) rrs
  unfolding resolve_runs
  resolve_runs-eq-ok base [] rrs h = rw⁻¹ (ok-injective h) (refl, tt)
  resolve_runs-eq-ok base (run ∷ runs) rrs h =
      let (rr, e, h') = >>=-eq-ok (resolve_run ld c base run) _ h in
      let (rest, e', h'') = >>=-eq-ok (resolve_runs ld c base runs) _ h' in
      let (same, target) = resolve_run-eq-ok base run rr e in
      let (sames, targets) = resolve_runs-eq-ok base runs rest e' in
      rw⁻¹ (ok-injective h'') (cc (same, sames), (target, targets))

module _ (fl : Floats) where
  check_capacity-eq-ok :
      (rr : ResolvedRun) {u : Unit {0}} → check_capacity fl rr ≡ ok u → FitsTarget fl rr
  unfolding check_capacity
  check_capacity-eq-ok rr h =
      let (size, e, h') = >>=-eq-ok (parse_size_gib fl rr.scenario.fio_global.size) _ h in
      (size, e, unless-eq-ok _ _ h')

  check_capacities-eq-ok :
      (rrs : List ResolvedRun) {u : Unit {0}}
      → check_capacities fl rrs ≡ ok u
      → All (FitsTarget fl) rrs
  unfolding check_capacities
  check_capacities-eq-ok [] h = tt
  check_capacities-eq-ok (rr ∷ rest) h =
      let (u, e, h') = >>=-eq-ok (check_capacity fl rr) _ h in
      (check_capacity-eq-ok rr e, check_capacities-eq-ok rest h')

  -- A campaign that loads passed its validators. Its resolved runs are its runs, all of them and in
  -- their order, each with the campaign's target of the name that the run gives, and each testfile
  -- has a readable size that the target's declared capacity, if there is one, is not below.
  pub load_campaign-eq-ok :
      (ld : Loader fl.Float) (path : String) (c : Campaign fl.Float) (rrs : List ResolvedRun)
      → load_campaign fl ld path ≡ ok (c, rrs)
      → Loads fl (c, rrs)
  unfolding load_campaign
  load_campaign-eq-ok ld path c rrs h =
      let (text, _, h1) = >>=-eq-ok (opened ld (ld.resolve path)) _ h in
      let (decoded, _, h2) = >>=-eq-ok (ld.decode_campaign text) _ h1 in
      let (c', valid, h3) = >>=-eq-ok (validate_campaign decoded) _ h2 in
      let (rrs', runs, h4) =
        >>=-eq-ok (resolve_runs ld c' (ld.parent (ld.resolve path) </> c'.scenarios_dir) c'.runs) _
          h3 in
      let (u, fits, h5) = >>=-eq-ok (check_capacities fl rrs') _ h4 in
      subst (Loads fl) (ok-injective h5) (
        (decoded, valid),
        resolve_runs-eq-ok ld c' _ c'.runs rrs' runs,
        check_capacities-eq-ok rrs' fits,
      )
