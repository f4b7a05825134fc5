-- ===== src/DataGen/Generate/Resume.antt =====
-- data-gen/generate.py: the ids that the output has after a run that skips what it has.
use mathlib.Core.List.{Perm}
use mathlib.Core.List.Perm
use aihomelab.Base.{
  suc, String, Bool, true, false, not, Option, none, some, List, [], ◌∷◌, ◌++◌, map, length, All,
  All-select, contains, string_eq, ◌-◌, Result, ok, raised, ◌>>=◌, ◌≡◌, refl, sym, ap, ◌∙◌,
  Bool-cases, inl, inr, subst,
}
use mathlib.Core.List.{append-nil, append_assoc}
use aihomelab.Base.Attempt.{>>=-eq-ok, ok-injective}
use aihomelab.Base.Int.{ℤ, pos, negsuc, ltb_ℤ}
use aihomelab.Base.Pairs.{All-perm}
use aihomelab.Base.Slices.{All-take_items}
use aihomelab.Base.Text.{is_empty, strip}
use aihomelab.Floats.{Floats}
use aihomelab.Parsers.Fio.{string, object, Members, lookup_member, get_member}
use aihomelab.DataGen.Generate.Request.{PromptRow, GeneratedRow, Decoded, decoded}
use aihomelab.DataGen.Generate.Reply.{Setup, Endpoint, generate_one}
use aihomelab.DataGen.Generate.Outcome.{generate_one-endings}
use aihomelab.DataGen.Generate.Run.{
  RunArgs, slice_to, capped, load_prompts, id_of_line, completed_ids, ids_to_skip, remaining,
  opened, write_rows, run, OutputFile, whole, lines_in,
}

-- An id that is not empty, as the set gets it
abbrev filled : Option String → Bool
filled none = false
filled (some rid) = not (is_empty rid)

abbrev pub NotEmpty : String → Type 0
NotEmpty rid = is_empty rid ≡ false

filled-some : (o : Option String) → filled o ≡ true → (rid : String) × (o ≡ some rid) × NotEmpty rid
filled-some none e = absurd cc
filled-some (some rid) e = elim (Bool-cases (is_empty rid)) [
  | inl empty ↦ let never : false ≡ true = rw empty at e in absurd cc
  | inr full ↦ (rid, refl, full)
]

-- The last line of the output, if it is there, ends with a newline.
abbrev pub IsTerminated : Option OutputFile → Type 0
IsTerminated none = Unit
IsTerminated (some file) = file.unterminated ≡ ""

abbrev pub HasId : {F : Type 0} → PromptRow F → Type 0
HasId p = NotEmpty p.request_id

module _ {A : Type 0} (P : A → Type 0) where
  All-slice_to : (m : ℤ) (xs : List A) → All P xs → All P (slice_to m xs)
  All-slice_to (pos n) xs a = All-take_items P n xs a
  All-slice_to (negsuc n) xs a = All-take_items P (length xs - suc n) xs a

  All-capped : (m : Option ℤ) (xs : List A) → All P xs → All P (capped m xs)
  All-capped none xs a = a
  All-capped (some m) xs a = elim (Bool-cases (ltb_ℤ m (pos (length xs)))) [
    | inl more ↦ rw more (All-slice_to m xs a)
    | inr fewer ↦ rw fewer a
  ]

module _ (fl : Floats) (loads : String → Decoded fl.Float)
    (dumps : GeneratedRow fl.Float → String) where
  -- `json.loads` of the line that `json.dumps` makes of a row: an object with its request id.
  pub record IsJson : Type 0 where
    pub not_blank : (row : GeneratedRow fl.Float) → is_empty (strip (dumps row)) ≡ false
    pub reads_back :
        (row : GeneratedRow fl.Float) (rid : String)
        → row.answer.request_id ≡ some rid
        → (ms : Members fl.Float) × (loads (strip (dumps row)) ≡ decoded (object ms))
          × (lookup_member "request_id" ms ≡ some (string rid))

  module _ (load_prompt : String → Result (PromptRow fl.Float)) where
    -- The ids in some lines, one after the other
    abbrev Ids : List String → List String → Type 0
    Ids lines ids = completed_ids fl loads load_prompt dumps lines ≡ ok ids

    abbrev is_good : Result (GeneratedRow fl.Float) → Bool
    is_good (raised e) = false
    is_good (ok row) = filled row.answer.request_id

    abbrev Good : Result (GeneratedRow fl.Float) → Type 0
    Good future = is_good future ≡ true

    -- The id and the line of a future that is good
    abbrev id_or_empty : Option String → String
    id_or_empty none = ""
    id_or_empty (some rid) = rid

    abbrev future_id : Result (GeneratedRow fl.Float) → String
    future_id (raised e) = ""
    future_id (ok row) = id_or_empty row.answer.request_id

    abbrev lines_of : List (Result (GeneratedRow fl.Float)) → List String
    lines_of [] = []
    lines_of (raised e ∷ futures) = lines_of futures
    lines_of (ok row ∷ futures) = dumps row ∷ lines_of futures

    Ids-append :
        (xs ys : List String) (a b : List String) → Ids xs a → Ids ys b → Ids (xs ++ ys) (a ++ b)
    unfolding completed_ids
    Ids-append [] ys a b hx hy = hy ∙ ap (λ l. ok (l ++ b)) (ok-injective hx)
    Ids-append (x ∷ xs) ys a b hx hy =
        let (i, p, e₁) = >>=-eq-ok (id_of_line fl loads load_prompt dumps x) _ hx in
        let (more, q, e₂) = >>=-eq-ok (completed_ids fl loads load_prompt dumps xs) _ e₁ in
        rw (p, Ids-append xs ys more b q hy)
          (ap (λ l. ok l) (sym (append_assoc i more b) ∙ ap (λ l. l ++ b) (ok-injective e₂)))

    write_rows-Good :
        (futures : List (Result (GeneratedRow fl.Float))) (lines : List String)
        → All Good futures
        → write_rows fl loads load_prompt dumps futures (whole lines)
          ≡ (ok tt, whole (lines ++ lines_of futures))
    unfolding write_rows ◌>>=◌
    write_rows-Good [] lines a = ap (λ l. (ok tt, whole l)) (sym (append-nil lines))
    write_rows-Good (raised e ∷ futures) lines (g, a) = absurd cc
    write_rows-Good (ok row ∷ futures) lines (g, a) =
        write_rows-Good futures (lines ++ dumps row ∷ []) a
        ∙ ap (λ l. (ok tt, whole l)) (append_assoc lines (dumps row ∷ []) (lines_of futures))

    module _ (json : IsJson) where
      id_of_line-dumps :
          (row : GeneratedRow fl.Float) (rid : String)
          → row.answer.request_id ≡ some rid
          → NotEmpty rid
          → id_of_line fl loads load_prompt dumps (dumps row) ≡ ok (rid ∷ [])
      unfolding id_of_line get_member
      id_of_line-dumps row rid e full =
          let (ms, read, there) = json.reads_back row rid e in
          rw (json.not_blank row, read, there, full) refl

      Ids-lines_of :
          (futures : List (Result (GeneratedRow fl.Float)))
          → All Good futures
          → Ids (lines_of futures) (map future_id futures)
      unfolding completed_ids
      Ids-lines_of [] a = refl
      Ids-lines_of (raised e ∷ futures) (g, a) = absurd cc
      Ids-lines_of (ok row ∷ futures) (g, a) =
          let (rid, e, full) = filled-some row.answer.request_id g in
          rw (id_of_line-dumps row rid e full, Ids-lines_of futures a, e) refl

      module _ (setup : Setup fl loads) (endpoint : Endpoint fl loads) where
        -- The request for a prompt comes back.
        abbrev pub Answers : PromptRow fl.Float → Type 0
        Answers p =
            (row : GeneratedRow fl.Float) × (generate_one fl loads setup endpoint p ≡ ok row)

        future-Good :
            (p : PromptRow fl.Float)
            → Answers p
            → HasId p
            → Good (generate_one fl loads setup endpoint p)
              × (future_id (generate_one fl loads setup endpoint p) ≡ p.request_id)
        future-Good p (row, e) full =
            let (of, one) = generate_one-endings fl loads p setup endpoint row e in
            rw (e, of.0, full) (refl, refl)

        futures-Good :
            (todo : List (PromptRow fl.Float))
            → All Answers todo
            → All HasId todo
            → All Good (map (generate_one fl loads setup endpoint) todo)
              × (map future_id (map (generate_one fl loads setup endpoint) todo)
                  ≡ map (λ p. p.request_id) todo)
        futures-Good [] a h = (tt, refl)
        futures-Good (p ∷ todo) (answers, a) (full, h) =
            let (good, same) = future-Good p answers full in
            let (goods, sames) = futures-Good todo a h in ((good, goods), rw (same, sames) refl)

        opened-whole :
            (args : RunArgs) (out : Option OutputFile) (done : List String)
            → IsTerminated out
            → ids_to_skip fl loads load_prompt dumps args out ≡ ok done
            → (before : List String) × (opened fl loads load_prompt dumps args out ≡ whole before)
              × Ids before done
        unfolding ids_to_skip completed_ids
        opened-whole args none done ends e = ([], refl, e)
        opened-whole args (some file) done ends e =
            let same : file ≡ whole file.lines =
              ap (λ t. record { lines = file.lines; unterminated = t }) ends in
            elim (Bool-cases args.skip_completed) [
              | inl skip ↦ (
                file.lines,
                rw skip same,
                subst (λ f. completed_ids fl loads load_prompt dumps (lines_in f) ≡ ok done) same
                    (rw skip at e),
              )
              | inr anew ↦ ([], rw anew refl, rw anew at e)
            ]

        All-todo :
            (P : PromptRow fl.Float → Type 0) (args : RunArgs) (done : List String)
            (prompts : List (PromptRow fl.Float))
            → All P prompts
            → All P (capped args.max_requests (remaining fl loads load_prompt dumps done prompts))
        All-todo P args done prompts a =
            All-capped P args.max_requests (remaining fl loads load_prompt dumps done prompts)
              (All-select P (λ p. not (contains p.request_id done)) prompts a)

        module _
            (completion : List (Result (GeneratedRow fl.Float))
              → List (Result (GeneratedRow fl.Float)))
            (any_order : (futures : List (Result (GeneratedRow fl.Float)))
              → Perm (completion futures) futures) where
          -- A run returns, if its files load, the last line of its output is not cut off, its prompts
          -- have ids and every request comes back. Its output then ends with a newline again, and the
          -- ids in it are, in some order, those that it had to skip and those of the prompts without
          -- them, up to the limit.
          pub run-completed_ids :
              (args : RunArgs) (prompt_lines : List String) (prompts : List (PromptRow fl.Float))
              (out : Option OutputFile) (done : List String)
              → IsTerminated out
              → load_prompts fl loads load_prompt dumps prompt_lines ≡ ok prompts
              → ids_to_skip fl loads load_prompt dumps args out ≡ ok done
              → All HasId prompts
              → All Answers prompts
              → (new ids : List String) × (run fl loads load_prompt dumps setup endpoint completion
                    args out
                    (some prompt_lines)
                  ≡ (ok tt, some (whole new)))
                × (completed_ids fl loads load_prompt dumps new ≡ ok ids)
                × Perm ids (
                    done
                    ++ map
                        (λ p. p.request_id)
                        (capped args.max_requests
                          (remaining fl loads load_prompt dumps done prompts)))
          unfolding run
          run-completed_ids args prompt_lines prompts out done ends loaded skips full answers =
              let todo : List (PromptRow fl.Float) =
                capped args.max_requests (remaining fl loads load_prompt dumps done prompts) in
              let futures : List (Result (GeneratedRow fl.Float)) =
                map (generate_one fl loads setup endpoint) todo in
              let (before, is_open, reads) = opened-whole args out done ends skips in
              let (goods, same) =
                futures-Good todo (All-todo Answers args done prompts answers)
                  (All-todo HasId args done prompts full) in
              let good : All Good (completion futures) =
                All-perm Good (λ future. hlevel) (Perm.symm (any_order futures)) goods in
              (
                before ++ lines_of (completion futures),
                done ++ map future_id (completion futures),
                rw (loaded, skips, is_open, write_rows-Good (completion futures) before good) refl,
                Ids-append before (lines_of (completion futures)) done
                    (map future_id (completion futures)) reads
                    (Ids-lines_of (completion futures) good),
                Perm.append_left done (
                    subst (λ l. Perm (map future_id (completion futures)) l) same
                      (Perm.map future_id (any_order futures))),
              )
