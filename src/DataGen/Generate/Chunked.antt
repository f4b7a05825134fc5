-- ===== src/DataGen/Generate/Chunked.antt =====
-- data-gen/generate.py and data-gen/orchestrator.py: one run for each chunk.
use mathlib.Core.List.{Perm}
use mathlib.Core.List.Perm
use aihomelab.Base.{
  ℕ, suc, ◌+◌, ◌*◌, ◌≤◌, String, true, Option, none, some, List, [], ◌∷◌, ◌++◌, map, length, All,
  Result, ok, raised, ◌≡◌, refl, sym, ap, ◌∙◌, subst, Bool-cases, inl, inr, arith, string_eq,
}
use aihomelab.Base.Int.{pos, ltb_ℤ}
use aihomelab.Base.Pairs.{Each}
use aihomelab.Base.Slices.{
  map-append, take_items, drop_items, take_items-add, take_items-all, unkeyed-Perm,
  unkeyed-take_items, Differ,
}
use aihomelab.Floats.{Floats}
use aihomelab.DataGen.Generate.Request.{PromptRow, GeneratedRow, Decoded}
use aihomelab.DataGen.Generate.Reply.{Setup, Endpoint}
use aihomelab.DataGen.Generate.Run.{
  RunArgs, capped, load_prompts, ids_to_skip, remaining, run, OutputFile, whole,
}
use aihomelab.DataGen.Generate.Resume.{IsJson, IsTerminated, HasId, Answers, run-completed_ids}
use aihomelab.DataGen.Teacher.{n_chunks}
use aihomelab.DataGen.Teacher.Bounds.{n_chunks-bounds}

-- The options that `run_generate` passes on
abbrev pub chunk_args : ℕ → RunArgs
chunk_args chunk_size = record { skip_completed = true; max_requests = some (pos chunk_size) }

abbrev after_run : {A B : Type 0} → (B → Result A × B) → Result A × B → Result A × B
after_run next (raised e, out) = (raised e, out)
after_run next (ok _, out) = next out

capped-take_items : {A : Type 0} (n : ℕ) (xs : List A) → capped (some (pos n)) xs ≡ take_items n xs
capped-take_items n xs = elim (Bool-cases (ltb_ℤ (pos n) (pos (length xs)))) [
  | inl more ↦ rw more refl
  | inr fewer ↦ rw fewer (sym (take_items-all n xs (ground arith)))
]

module _ (fl : Floats) (loads : String → Decoded fl.Float) (dumps : GeneratedRow fl.Float → String)
    (load_prompt : String → Result (PromptRow fl.Float)) (json : IsJson fl loads dumps)
    (setup : Setup fl loads) where
  -- A run: its endpoint, and the order in which its requests come back.
  pub record Round : Type 0 where
    pub endpoint : Endpoint fl loads
    pub completion : List (Result (GeneratedRow fl.Float)) → List (Result (GeneratedRow fl.Float))

  -- The requests for the prompts come back, in some order.
  pub record IsReliable (prompts : List (PromptRow fl.Float)) (round : Round) : Type 0 where
    pub answers : All (Answers fl loads dumps load_prompt json setup round.endpoint) prompts
    pub any_order :
        (futures : List (Result (GeneratedRow fl.Float))) → Perm (round.completion futures) futures

  module _ (chunk_size : ℕ) (prompt_lines : List String) where
    -- The runs, one after the other, on one output; the first that raises ends them.
    unfoldable pub runs : List Round → Option OutputFile → Result (Unit {0}) × Option OutputFile
    unfolding run
    runs [] out = (ok tt, out)
    runs (round ∷ rounds) out = after_run (runs rounds) (
        run fl loads load_prompt dumps setup round.endpoint round.completion (chunk_args chunk_size)
          out (some prompt_lines))

    -- The ids that the output has
    abbrev pub HasIds : Option OutputFile → List String → Type 0
    HasIds out ids = ids_to_skip fl loads load_prompt dumps (chunk_args chunk_size) out ≡ ok ids

    module _ (prompts : List (PromptRow fl.Float))
        (loaded : load_prompts fl loads load_prompt dumps prompt_lines ≡ ok prompts)
        (full : All HasId prompts) (distinct : Each (Differ (λ p. p.request_id)) prompts) where
      todo-drop_items :
          (m : ℕ) (done : List String)
          → Perm done (map (λ p. p.request_id) (take_items m prompts))
          → capped (some (pos chunk_size)) (remaining fl loads load_prompt dumps done prompts)
            ≡ take_items chunk_size (drop_items m prompts)
      todo-drop_items m done same =
          capped-take_items chunk_size (remaining fl loads load_prompt dumps done prompts)
          ∙ ap (λ l. take_items chunk_size l)
              (unkeyed-Perm (λ p. p.request_id) prompts same
                ∙ unkeyed-take_items (λ p. p.request_id) m prompts distinct)

      next-Perm :
          (m : ℕ) (done : List String)
          → Perm done (map (λ p. p.request_id) (take_items m prompts))
          → Perm
              (done
                ++ map
                    (λ p. p.request_id)
                    (capped
                      (some (pos chunk_size))
                      (remaining fl loads load_prompt dumps done prompts)))
              (map (λ p. p.request_id) (take_items (m + chunk_size) prompts))
      next-Perm m done same =
          let later : List (PromptRow fl.Float) = take_items chunk_size (drop_items m prompts) in
          rw
            (
              todo-drop_items m done same,
              take_items-add m chunk_size prompts,
              map-append (λ p. p.request_id) (take_items m prompts) later,
            )
            (Perm.append_right (map (λ p. p.request_id) later) same)

      runs-ids :
          (rounds : List Round) (m : ℕ) (out : Option OutputFile) (done : List String)
          → All (IsReliable prompts) rounds
          → IsTerminated out
          → HasIds out done
          → Perm done (map (λ p. p.request_id) (take_items m prompts))
          → (final : Option OutputFile) × (ids : List String) × (runs rounds out ≡ (ok tt, final))
            × HasIds final ids
            × Perm ids
                (map (λ p. p.request_id) (take_items (m + length rounds * chunk_size) prompts))
      unfolding runs ids_to_skip
      runs-ids [] m out done reliable ends has same =
          let none_left : m + 0 * chunk_size ≡ m = omega arith in
          (out, done, refl, has, rw none_left same)
      runs-ids (round ∷ rounds) m out done (r, reliable) ends has same =
          let (new, ids, returned, reads, perm) =
            run-completed_ids fl loads dumps load_prompt json setup round.endpoint round.completion
              r.any_order (chunk_args chunk_size) prompt_lines prompts out done ends loaded has full
              r.answers in
          let (final, last, ran, had, all) =
            runs-ids rounds (m + chunk_size) (some (whole new)) ids reliable refl reads
              (Perm.trans perm (next-Perm m done same)) in
          let more : m + suc (length rounds) * chunk_size
              ≡ m + chunk_size + length rounds * chunk_size =
            omega arith in
          (final, last, ap (after_run (runs rounds)) returned ∙ ran, had, rw more all)

      -- As many runs as there are chunks, on an output that is not there at first: if the prompts load,
      -- have ids that differ and are not empty, are no more than the total, and their requests come
      -- back, every run returns, and the ids in the output are in some order those of the prompts, each
      -- once.
      pub runs-n_chunks :
          (total : ℕ) (rounds : List Round)
          → 1 ≤ chunk_size
          → length prompts ≤ total
          → length rounds ≡ n_chunks total chunk_size
          → All (IsReliable prompts) rounds
          → (final : Option OutputFile) × (ids : List String) × (runs rounds none ≡ (ok tt, final))
            × HasIds final ids
            × Perm ids (map (λ p. p.request_id) prompts)
      unfolding ids_to_skip
      runs-n_chunks total rounds some_size few same reliable =
          let (final, ids, ran, has, perm) =
            runs-ids rounds 0 none [] reliable tt refl (Perm.refl []) in
          let bounds = n_chunks-bounds total chunk_size some_size in
          let enough : length prompts ≤ 0 + length rounds * chunk_size =
            rw same (omega (arith, bounds.0, few)) in
          (
            final,
            ids,
            ran,
            has,
            subst (λ l. Perm ids (map (λ p. p.request_id) l))
                (take_items-all (0 + length rounds * chunk_size) prompts enough) perm,
          )
