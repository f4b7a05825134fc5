-- ===== src/DataGen/Prompts/Ids.antt =====
-- data-gen/build_prompts.py: the request ids that are written.
use Prim.Native.String.{String}
use aihomelab.Base.{
  ℕ, zero, suc, ◌+◌, ◌<◌, ◌≤◌, false, Option, List, [], ◌∷◌, ◌++◌, map, length, All, Result, Py,
  lift, ◌==◌, string_eq, ◌≡◌, refl, sym, ap, ◌∙◌, subst, Bool-cases, inl, inr, arith, Keeps,
  Keeps-bind, Keeps-lift, Keeps-modify,
}
use aihomelab.Base.Int.{ℤ}
use aihomelab.Base.Pairs.{Each}
use aihomelab.Base.Slices.{Differ, map-append}
use aihomelab.Floats.{Floats}
use aihomelab.Parsers.Fio.{Json}
use aihomelab.DataGen.Generate.{PromptRow}
use aihomelab.DataGen.Generate.Resume.{NotEmpty, HasId}
use aihomelab.DataGen.Teacher.{range_from}
use aihomelab.DataGen.Prompts.Written.{write_all-Keeps}
use aihomelab.DataGen.Prompts.Numbers.{ids_differ, id_of_number-not_empty}
use aihomelab.DataGen.Prompts.Fill.{Rng, Placeholders, Pools, weighted_pick}
use aihomelab.DataGen.Prompts.Build.{
  id_of_number, Builder, drawn, template_of, fill_template, add_prompt, write_prompt, write_all,
  build, some_pool_empty,
}

range_from-suc : (first n : ℕ) → range_from first (suc n) ≡ range_from first n ++ (first + n) ∷ []
range_from-suc first zero = ap (λ k. k ∷ []) (omega arith)
range_from-suc first (suc n) =
    let later : suc first + n ≡ first + suc n = omega arith in
    ap (λ l. first ∷ l)
      (range_from-suc (suc first) n ∙ ap (λ k. range_from (suc first) n ++ k ∷ []) later)

-- Ids from a position on are apart from one before it, and from each other.
All-Differ :
    (m first n : ℕ)
    → m < first
    → first + n ≤ 1000000
    → All (λ id. (id == id_of_number m) ≡ false) (map id_of_number (range_from first n))
All-Differ m first zero less few = tt
All-Differ m first (suc n) less few = (
  ids_differ first m (omega (arith, few)) (omega (arith, less, few)) less,
  All-Differ m (suc first) n (omega (arith, less)) (omega (arith, few)),
)

Each-Differ :
    (first n : ℕ)
    → first + n ≤ 1000000
    → Each (Differ (λ id. id)) (map id_of_number (range_from first n))
Each-Differ first zero few = tt
Each-Differ first (suc n) few = (
  All-Differ first (suc first) n (omega arith) (omega (arith, few)),
  Each-Differ (suc first) n (omega (arith, few)),
)

module _ {A B : Type 0} (f : A → B) where
  All-unmap : (P : B → Type 0) (xs : List A) → All P (map f xs) → All (λ x. P (f x)) xs
  All-unmap P [] a = tt
  All-unmap P (x ∷ xs) (p, a) = (p, All-unmap P xs a)

  Each-unmap :
      (R : B → B → Type 0) (xs : List A) → Each R (map f xs) → Each (λ x y. R (f x) (f y)) xs
  Each-unmap R [] s = tt
  Each-unmap R (x ∷ xs) (a, s) = (All-unmap (R (f x)) xs a, Each-unmap R xs s)

  length-map : (xs : List A) → length (map f xs) ≡ length xs
  length-map [] = refl
  length-map (x ∷ xs) = ap suc (length-map xs)

length-range_from : (first n : ℕ) → length (range_from first n) ≡ n
length-range_from first zero = refl
length-range_from first (suc n) = ap suc (length-range_from (suc first) n)

All-ids : (first n : ℕ) → All NotEmpty (map id_of_number (range_from first n))
All-ids first zero = tt
All-ids first (suc n) = (id_of_number-not_empty first, All-ids (suc first) n)

module _ (fl : Floats) (str : Json fl.Float → String) (rng : Rng fl.Float)
    (format : String → Placeholders → Result String) where
  abbrev pub ids : List (PromptRow fl.Float) → List String
  ids rows = map (λ p. p.request_id) rows

  -- The rows have the ids of the numbers from 1 on.
  abbrev pub IsNumbered : Builder fl str rng format → Type 0
  IsNumbered b = ids b.rows ≡ map id_of_number (range_from 1 b.written)

  drawn-IsNumbered :
      {A : Type 0} (method : Py rng.State A) → Keeps IsNumbered (drawn fl str rng format method)
  drawn-IsNumbered method = record { at = λ b numbered. numbered }

  add_prompt-IsNumbered :
      (tmpl dietary : String) (filled : String × Placeholders × Option ℕ)
      (b : Builder fl str rng format)
      → IsNumbered b
      → IsNumbered (add_prompt fl str rng format tmpl dietary filled b)
  unfolding add_prompt
  add_prompt-IsNumbered tmpl dietary (turn, placeholders, gid) b numbered =
      let next : 1 + b.written ≡ suc b.written = omega arith in
      map-append (λ p. p.request_id) b.rows _
      ∙ ap (λ l. l ++ id_of_number (suc b.written) ∷ []) numbered
      ∙ sym (
          ap (map id_of_number) (range_from-suc 1 b.written)
          ∙ map-append id_of_number (range_from 1 b.written) ((1 + b.written) ∷ [])
          ∙ ap (λ k. map id_of_number (range_from 1 b.written) ++ id_of_number k ∷ []) next)

  module _ (template_defs : List (String × String)) (dietary_split : List (String × fl.Float))
      (pools : Pools fl.Float) where
    write_prompt-IsNumbered :
        (weights : List (String × fl.Float))
        → Keeps IsNumbered
            (write_prompt fl str rng format template_defs dietary_split pools weights)
    unfolding write_prompt
    write_prompt-IsNumbered weights =
        Keeps-bind (drawn fl str rng format (weighted_pick fl rng weights)) _
          (drawn-IsNumbered (weighted_pick fl rng weights))
          λ tmpl.
            Keeps-bind (drawn fl str rng format (weighted_pick fl rng dietary_split)) _
              (drawn-IsNumbered (weighted_pick fl rng dietary_split))
              λ dietary.
                Keeps-bind (lift (template_of fl str rng format template_defs tmpl)) _
                  (Keeps-lift (template_of fl str rng format template_defs tmpl))
                  λ text.
                    Keeps-bind
                      (drawn fl str rng format
                        (fill_template fl str rng format text tmpl dietary pools))
                      _ (drawn-IsNumbered (fill_template fl str rng format text tmpl dietary pools))
                      λ filled.
                        Keeps-modify (add_prompt fl str rng format tmpl dietary filled)
                          (add_prompt-IsNumbered tmpl dietary filled)

    write_all-IsNumbered :
        (n n_indian : ℤ)
        → Keeps IsNumbered
            (write_all fl str rng format template_defs dietary_split pools n n_indian)
    write_all-IsNumbered =
        write_all-Keeps fl str rng format template_defs dietary_split pools IsNumbered
          write_prompt-IsNumbered

    numbered-rows :
        (round_int : fl.Float → ℤ) (n : ℤ) (fraction : fl.Float) (seeded : rng.State)
        → (w : ℕ) × (ids
              (build fl str rng format template_defs dietary_split pools round_int n fraction
                seeded).1
            ≡ map id_of_number (range_from 1 w))
    unfolding build
    numbered-rows round_int n fraction seeded = elim (Bool-cases (some_pool_empty fl str pools)) [
      | inl empty ↦ (0, rw empty refl)
      | inr full ↦
          let indian : ℤ = round_int (fl.mul (fl.of_int n) fraction) in
          let b : Builder fl str rng format =
            (write_all fl str rng format template_defs dietary_split pools n indian
              (record { state = seeded; written = 0; rows = [] })).1 in
          (
            b.written,
            rw full (
                (write_all-IsNumbered n indian).at
                  (record { state = seeded; written = 0; rows = [] }) refl),
          )
    ]

    -- Whether the script comes to its end or an exception ends it: if fewer than a million rows are
    -- written, their request ids are those of the numbers from 1 on, in order, none is empty and no two
    -- are the same.
    pub build-ids :
        (round_int : fl.Float → ℤ) (n : ℤ) (fraction : fl.Float) (seeded : rng.State)
        (rows : List (PromptRow fl.Float))
        → (build fl str rng format template_defs dietary_split pools round_int n fraction seeded).1
          ≡ rows
        → length rows < 1000000
        → (map (λ p. p.request_id) rows ≡ map id_of_number (range_from 1 (length rows)))
          × All HasId rows
          × Each (Differ (λ p. p.request_id)) rows
    unfolding build
    build-ids round_int n fraction seeded rows e few =
        let (w, numbered) = numbered-rows round_int n fraction seeded in
        let here : ids rows ≡ map id_of_number (range_from 1 w) =
          subst (λ r. ids r ≡ map id_of_number (range_from 1 w)) e numbered in
        let same : length rows ≡ w =
          sym (length-map (λ p. p.request_id) rows)
          ∙ ap length here
          ∙ length-map id_of_number (range_from 1 w)
          ∙ length-range_from 1 w in
        let there : ids rows ≡ map id_of_number (range_from 1 (length rows)) =
          here ∙ ap (λ k. map id_of_number (range_from 1 k)) (sym same) in
        (
          there,
          All-unmap (λ p. p.request_id) NotEmpty rows
              (subst (All NotEmpty) (sym there) (All-ids 1 (length rows))),
          Each-unmap (λ p. p.request_id) (Differ (λ id. id)) rows
              (subst (Each (Differ (λ id. id))) (sym there)
                (Each-Differ 1 (length rows) (omega (arith, few)))),
        )
