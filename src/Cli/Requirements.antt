-- ===== src/Cli/Requirements.antt =====
-- harness/cli.py: the size that a preflight asks for at each target.
use aihomelab.Base.{
  String, Option, none, some, List, [], ◌∷◌, All, Bool-cases, ok, ◌==◌, string_eq, ◌≡◌, ap, subst,
  ◌∙◌, inl, inr, arith,
}
use aihomelab.Base.Attempt.{>>=-eq-ok, ok-injective}
use aihomelab.Base.Int.{ℤ, pos, max_ℤ, ◌≤ℤ◌}
use aihomelab.Base.Dict
use aihomelab.Base.Dict.{same→≡}
use aihomelab.Floats.{Floats}
use aihomelab.Config.{ResolvedRun, parse_size_gib}
use aihomelab.Cli.Targets.{raise_to, require}

-- The requirement of a target is at least that size.
abbrev pub AtLeast : String → ℤ → List (String × ℤ) → Type 0
AtLeast name size requirements =
    (required : ℤ) × (Dict.get name requirements ≡ some required) × (size ≤ℤ required)

max-upper : (a b : ℤ) → (a ≤ℤ max_ℤ a b) × (b ≤ℤ max_ℤ a b)
max-upper a b = (ground arith, ground arith)

le-trans : (a b c : ℤ) → a ≤ℤ b → b ≤ℤ c → a ≤ℤ c
le-trans a b c h k = ground arith

module _ (fl : Floats) where
  raise_to-AtLeast :
      (name : String) (tf : ℤ) (requirements : List (String × ℤ))
      → AtLeast name tf (raise_to fl name tf requirements)
  raise_to-AtLeast name tf requirements = go (Dict.get name requirements)
    where
      go :
          (found : Option ℤ)
          → AtLeast name tf (
              Dict.set name
                (elim found [ none ↦ max_ℤ (pos 0) tf | some before ↦ max_ℤ before tf ])
                requirements)
      go none = (max_ℤ (pos 0) tf, Dict.get-set name _ requirements, (max-upper (pos 0) tf).1)
      go (some before) =
          (max_ℤ before tf, Dict.get-set name _ requirements, (max-upper before tf).1)

  raise_to-still :
      (i name : String) (size tf : ℤ) (requirements : List (String × ℤ))
      → AtLeast i size requirements
      → AtLeast i size (raise_to fl name tf requirements)
  raise_to-still i name size tf requirements (required, found, enough) =
      elim (Bool-cases (name == i)) [
        | inl same ↦
            let here : Dict.get name requirements ≡ some required =
              ap (λ j. Dict.get j requirements) (same→≡ same) ∙ found in
            subst (λ j. AtLeast j size (raise_to fl name tf requirements)) (same→≡ same)
              (rw (raise_to, here)
                (
                  max_ℤ required tf,
                  Dict.get-set name _ requirements,
                  le-trans size required _ enough (max-upper required tf).0,
                ))
        | inr other ↦ (required, Dict.get-set_other name i _ requirements other ∙ found, enough)
      ]

  require-still :
      (i : String) (size : ℤ) (resolved : List ResolvedRun) (before after : List (String × ℤ))
      → require fl resolved before ≡ ok after
      → AtLeast i size before
      → AtLeast i size after
  unfolding require
  require-still i size [] before after e a = subst (AtLeast i size) (ok-injective e) a
  require-still i size (rr ∷ resolved) before after e a =
      let (tf, parsed, rest) = >>=-eq-ok (parse_size_gib fl rr.scenario.fio_global.size) _ e in
      require-still i size resolved (raise_to fl rr.target.name tf before) after rest
        (raise_to-still i rr.target.name size tf before a)

  -- Where the sizes are read, the requirement of each run's target is at least the size of its
  -- testfile.
  pub require-AtLeast :
      (resolved : List ResolvedRun) (before after : List (String × ℤ))
      → require fl resolved before ≡ ok after
      → All
          (λ rr.
            (tf : ℤ) × (parse_size_gib fl rr.scenario.fio_global.size ≡ ok tf)
            × AtLeast rr.target.name tf after)
          resolved
  unfolding require
  require-AtLeast [] before after e = tt
  require-AtLeast (rr ∷ resolved) before after e =
      let (tf, parsed, rest) = >>=-eq-ok (parse_size_gib fl rr.scenario.fio_global.size) _ e in
      let next = raise_to fl rr.target.name tf before in
      (
        (
          tf,
          parsed,
          require-still rr.target.name tf resolved next after rest
              (raise_to-AtLeast rr.target.name tf before),
        ),
        require-AtLeast resolved next after rest,
      )
