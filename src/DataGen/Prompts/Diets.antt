-- ===== src/DataGen/Prompts/Diets.antt =====
-- data-gen/build_prompts.py: what the prompts of the template adaptation adapt.
use aihomelab.Base.{
  ℕ, String, Bool, Option, some, List, [], ◌∷◌, select, All, All-append, Result, ok, Py, lift, ◌==◌,
  string_eq, ◌≡◌, sym, ap, ◌∙◌, subst, Bool-cases, inl, inr, Keeps, Keeps-bind, Keeps-bind_returned,
  Keeps-lift, Keeps-modify,
}
use aihomelab.Base.Dict.{same→≡}
use aihomelab.Base.Int.{ℤ, pos}
use aihomelab.Base.Returns.{Py-eq-ok, pure-eq-ok}
use aihomelab.Floats.{Floats}
use aihomelab.Parsers.Fio.{Json, Members}
use aihomelab.DataGen.Generate.{PromptRow}
use aihomelab.DataGen.Prompts.Excerpt.{GroundingRow}
use aihomelab.DataGen.Prompts.Fill.{Rng, Placeholders, Pools, weighted_pick, fill_placeholders}
use aihomelab.DataGen.Prompts.Written.{write_all-Keeps}
use aihomelab.DataGen.Prompts.Build.{
  grounding_id_of, pools_of, Builder, drawn, template_of, fill_template, add_prompt, write_prompt,
  index_of, write_all, build, some_pool_empty,
}
use aihomelab.DataGen.Prompts.Adaptable.{IsAdaptable, fill_placeholders-row}

module _ (fl : Floats) (str : Json fl.Float → String)
    (gc_rows sr_rows : List (Members fl.Float)) where
  abbrev pools : Pools fl.Float
  pools = pools_of fl str gc_rows sr_rows

  module _ (rng : Rng fl.Float) (format : String → Placeholders → Result String) where
    -- The prompt was made of a row of the file, and that row has one of the tags that are adapted to
    -- its diet.
    abbrev pub IsAdapted : PromptRow fl.Float → Type 0
    IsAdapted p =
        (r : GroundingRow fl.Float) × (p.grounding_row_id ≡ some (pos r.orig_idx))
        × IsAdaptable fl str gc_rows sr_rows p.dietary_preference r

    abbrev AdaptedIf : PromptRow fl.Float → Type 0
    AdaptedIf p = p.template ≡ "adaptation" → IsAdapted p

    abbrev pub is_adaptation : PromptRow fl.Float → Bool
    is_adaptation p = p.template == "adaptation"

    All-is_adaptation :
        (rows : List (PromptRow fl.Float))
        → All AdaptedIf rows
        → All IsAdapted (select is_adaptation rows)
    All-is_adaptation [] a = tt
    All-is_adaptation (p ∷ rows) (f, a) = elim (Bool-cases (is_adaptation p)) [
      | inl is ↦ rw is (f (same→≡ is), All-is_adaptation rows a)
      | inr other ↦ rw other (All-is_adaptation rows a)
    ]

    abbrev AllAdapted : Builder fl str rng format → Type 0
    AllAdapted b = All AdaptedIf b.rows

    fill_template-row :
        (turn template dietary : String) (s s' : rng.State)
        {filled : String × Placeholders × Option ℕ}
        → template ≡ "adaptation"
        → fill_template fl str rng format turn template dietary pools s ≡ (ok filled, s')
        → (r : GroundingRow fl.Float) × (filled.2 ≡ some r.orig_idx)
          × IsAdaptable fl str gc_rows sr_rows dietary r
    unfolding fill_template
    fill_template-row turn template dietary s s' {filled} is e =
        let ((ph, row), t, done, e₁) =
          Py-eq-ok (fill_placeholders fl rng str template dietary pools) _ s s' e in
        let (text, u, _, e₂) =
          Py-eq-ok (lift (format turn (("dietary_preference", dietary) ∷ ph))) _ t s' e₁ in
        let (r, here, fits) = fill_placeholders-row fl str gc_rows sr_rows rng format dietary s t (
          subst (λ k. fill_placeholders fl rng str k dietary pools s ≡ (ok (ph, row), t)) is
            done) in
        (r, sym (ap (λ f. f.2) (pure-eq-ok e₂)) ∙ ap grounding_id_of here, fits)

    add_prompt-AllAdapted :
        (tmpl dietary : String) (turn : String) (ph : Placeholders) (gid : Option ℕ)
        (b : Builder fl str rng format)
        → (tmpl ≡ "adaptation"
            → (r : GroundingRow fl.Float) × (gid ≡ some r.orig_idx)
              × IsAdaptable fl str gc_rows sr_rows dietary r)
        → AllAdapted b
        → AllAdapted (add_prompt fl str rng format tmpl dietary (turn, ph, gid) b)
    unfolding add_prompt
    add_prompt-AllAdapted tmpl dietary turn ph gid b from a = All-append AdaptedIf b.rows _ a (
      (λ is. let (r, here, fits) = from is in (r, ap (index_of fl str rng format) here, fits)),
      tt,
    )

    drawn-AllAdapted :
        {A : Type 0} (method : Py rng.State A) → Keeps AllAdapted (drawn fl str rng format method)
    drawn-AllAdapted method = record { at = λ b a. a }

    module _ (template_defs : List (String × String))
        (dietary_split : List (String × fl.Float)) where
      write_prompt-AllAdapted :
          (weights : List (String × fl.Float))
          → Keeps AllAdapted
              (write_prompt fl str rng format template_defs dietary_split pools weights)
      unfolding write_prompt
      write_prompt-AllAdapted weights =
          Keeps-bind (drawn fl str rng format (weighted_pick fl rng weights)) _
            (drawn-AllAdapted (weighted_pick fl rng weights))
            λ tmpl.
              Keeps-bind (drawn fl str rng format (weighted_pick fl rng dietary_split)) _
                (drawn-AllAdapted (weighted_pick fl rng dietary_split))
                λ dietary.
                  Keeps-bind (lift (template_of fl str rng format template_defs tmpl)) _
                    (Keeps-lift (template_of fl str rng format template_defs tmpl))
                    λ text.
                      Keeps-bind_returned
                        (drawn fl str rng format
                          (fill_template fl str rng format text tmpl dietary pools))
                        _
                        (drawn-AllAdapted (fill_template fl str rng format text tmpl dietary pools))
                        λ b filled returned.
                          Keeps-modify (add_prompt fl str rng format tmpl dietary filled) λ c a.
                            add_prompt-AllAdapted tmpl dietary filled.0 filled.1 filled.2 c
                              (λ is.
                                fill_template-row text tmpl dietary b.state
                                  (fill_template fl str rng format text tmpl dietary pools
                                    b.state).1
                                  is
                                  (λ i. (
                                    returned i,
                                    (fill_template fl str rng format text tmpl dietary pools
                                        b.state).1,
                                  )))
                              a

      write_all-AllAdapted :
          (n n_indian : ℤ)
          → Keeps AllAdapted
              (write_all fl str rng format template_defs dietary_split pools n n_indian)
      write_all-AllAdapted =
          write_all-Keeps fl str rng format template_defs dietary_split pools AllAdapted
            write_prompt-AllAdapted

      -- Each prompt of the template adaptation that is written refers to a row of grounding_context.jsonl
      -- by its position, and that row has a tag that its diet excludes: vegetarian or non_vegetarian for
      -- a vegan, non_vegetarian for a vegetarian.
      pub build-IsAdapted :
          (round_int : fl.Float → ℤ) (n : ℤ) (fraction : fl.Float) (seeded : rng.State)
          → All IsAdapted (
              select is_adaptation
                (build fl str rng format template_defs dietary_split
                  (pools_of fl str gc_rows sr_rows)
                  round_int
                  n
                  fraction
                  seeded).1)
      unfolding build
      build-IsAdapted round_int n fraction seeded =
          elim (Bool-cases (some_pool_empty fl str pools)) [
            | inl empty ↦ rw empty tt
            | inr full ↦ rw full (
                All-is_adaptation _ (
                  (write_all-AllAdapted n (round_int (fl.mul (fl.of_int n) fraction))).at
                    (record { state = seeded; written = 0; rows = [] }) tt))
          ]
