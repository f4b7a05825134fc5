-- ===== src/Config/Nodes.antt =====
-- harness/config.py: the nodes of the targets that resolved runs name.
use aihomelab.Base.{
  String, ◌≡◌, refl, Bool, true, false, Bool-cases, inl, inr, Option, none, some, List, [], ◌∷◌,
  map, subst, ◌∙◌, arith, All, find, contains, ◌==◌, string_eq, value_error, Result, ok, raised,
  if◌then◌else◌,
}
use aihomelab.Base.Attempt.{>>=-eq-ok, ok-injective}
use aihomelab.Floats.{Floats}
use aihomelab.Config.Schema.{Node, StorageTarget, Campaign, ResolvedRun}
use aihomelab.Config.Validate.{
  validate_campaign, cross_refs, check_targets, check_runs, node_names_unique, node_names,
  target_names, reported, require_unique,
}
use aihomelab.Config.Load.{Loader, target_map, load_campaign}
use aihomelab.Config.Loaded.{HasTarget, load_campaign-eq-ok, if-eq-ok, if-true}

reported-eq-ok : {A : Type 0} (r : Result A) {a : A} → reported r ≡ ok a → r ≡ ok a
reported-eq-ok (ok a) h = h
reported-eq-ok (raised (value_error m)) h = absurd cc
reported-eq-ok (raised e) h = absurd cc

-- The node that the target names is in the cluster.
abbrev pub OnNode : {V : Type 0} → Campaign V → StorageTarget → Type 0
OnNode c t = (node : Node) × (find (λ n. n.name == t.node) c.cluster.nodes ≡ some node)

find_contained :
    (name : String) (nodes : List Node)
    → contains name (map (λ n. n.name) nodes) ≡ true
    → (node : Node) × (find (λ n. n.name == name) nodes ≡ some node)
find_contained name [] h = absurd cc
find_contained name (n ∷ nodes) h = elim (Bool-cases (n.name == name)) [
  | inl same ↦ (n, rw same refl)
  | inr differ ↦ let (m, e) = find_contained name nodes (ground arith) in (m, rw (differ, e) refl)
]

check_targets-eq-ok :
    (nodes : List String) (targets : List StorageTarget) {u : Unit {0}}
    → check_targets nodes targets ≡ ok u
    → All (λ t. contains t.node nodes ≡ true) targets
unfolding check_targets
check_targets-eq-ok nodes [] h = tt
check_targets-eq-ok nodes (t ∷ targets) h =
    (if-true _ _ _ h, check_targets-eq-ok nodes targets (if-eq-ok _ _ _ h))

target_map-All :
    (P : StorageTarget → Type 0) (targets : List StorageTarget) (name : String) {t : StorageTarget}
    → target_map targets name ≡ some t
    → All P targets
    → P t
target_map-All P [] name h a = absurd cc
target_map-All P (x ∷ targets) name {t} h (p, a) =
    go (λ e. target_map-All P targets name e a) (target_map targets name) refl h
  where
    pick : (b : Bool) → (if b then some x else none) ≡ some t → P t
    pick true k = let e : x ≡ t = cc (k) in subst P e p
    pick false k = absurd cc

    go :
        (target_map targets name ≡ some t → P t)
        → (o : Option StorageTarget) → target_map targets name ≡ o
        → (elim o [ some later ↦ some later | none ↦ if x.name == name then some x else none ])
          ≡ some t
        → P t
    go rest (some later) e k = rest (e ∙ k)
    go rest none e k = pick (x.name == name) k

module _ {V : Type 0} where
  targets-OnNode :
      (c : Campaign V) (targets : List StorageTarget)
      → All (λ t. contains t.node (node_names c) ≡ true) targets
      → All (OnNode c) targets
  targets-OnNode c [] a = tt
  targets-OnNode c (t ∷ targets) (h, a) =
      (find_contained t.node c.cluster.nodes h, targets-OnNode c targets a)

  validate_campaign-OnNode :
      (decoded c : Campaign V) → validate_campaign decoded ≡ ok c → All (OnNode c) c.targets
  unfolding validate_campaign cross_refs
  validate_campaign-OnNode decoded c h =
      let (_, _, h1) = >>=-eq-ok (node_names_unique decoded.cluster.nodes) _ (reported-eq-ok _ h) in
      let (_, _, h2) =
        >>=-eq-ok (require_unique "duplicate target names: " (target_names decoded) decoded) _ h1 in
      let (_, checked, h3) = >>=-eq-ok (check_targets (node_names decoded) decoded.targets) _ h2 in
      let (_, _, h4) = >>=-eq-ok (check_runs (target_names decoded) 0 decoded.runs) _ h3 in
      subst (λ x. All (OnNode x) x.targets) (ok-injective h4)
        (targets-OnNode decoded decoded.targets (check_targets-eq-ok _ decoded.targets checked))

  runs-OnNode :
      (c : Campaign V) (rrs : List ResolvedRun)
      → All (OnNode c) c.targets
      → All (HasTarget c) rrs
      → All (λ rr. OnNode c rr.target) rrs
  runs-OnNode c [] a h = tt
  runs-OnNode c (rr ∷ rrs) a (h, hs) =
      (target_map-All (OnNode c) c.targets rr.run.target h a, runs-OnNode c rrs a hs)

-- In a campaign that loads, the search for the node of a resolved run's target finds one, so
-- `execute_scenario` and `cleanup_targets` never end with a StopIteration there.
pub load_campaign-OnNode :
    (fl : Floats) (ld : Loader fl.Float) (path : String) (c : Campaign fl.Float)
    (rrs : List ResolvedRun)
    → load_campaign fl ld path ≡ ok (c, rrs)
    → All (λ rr. OnNode c rr.target) rrs
load_campaign-OnNode fl ld path c rrs h =
    let ((decoded, valid), (runs, targets), fits) = load_campaign-eq-ok fl ld path c rrs h in
    runs-OnNode c rrs (validate_campaign-OnNode decoded c valid) targets
