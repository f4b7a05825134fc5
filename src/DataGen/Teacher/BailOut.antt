-- ===== src/DataGen/Teacher/BailOut.antt =====
-- data-gen/orchestrator.py: when the loop over the chunks ends.
use aihomelab.Base.{
  ℕ, suc, Bool, true, false, Option, none, some, List, [], ◌∷◌, ◌++◌, length, ok, Py, pure, ◌>>=◌,
  ◌>>◌, ◌≡◌, refl, sym, subst, ap, ◌⊎◌, inl, inr, ◌∙◌,
}
use mathlib.Core.List.{append_assoc}
use aihomelab.Base.Returns.{Py-eq-ok, pure-eq-ok}
use aihomelab.DataGen.Teacher.Shell.{Machine, Teacher, progress_write}
use aihomelab.DataGen.Teacher.Chunks.{
  Verdict, no_space, flagged, fine, chunk_round, after_round, chunks, flagged_line, bail_line,
}

-- No chunk without space, and no two flagged ones in a row.
abbrev pub IsCalm : List Verdict → Type 0
IsCalm [] = Unit
IsCalm (no_space ∷ rest) = ⊥
IsCalm (fine ∷ rest) = IsCalm rest
IsCalm (flagged ∷ []) = Unit
IsCalm (flagged ∷ flagged ∷ rest) = ⊥
IsCalm (flagged ∷ next ∷ rest) = IsCalm (next ∷ rest)

-- How the loop ends, by its exit code.
abbrev pub Ends : List ℕ → Option ℕ → List Verdict → Type 0
Ends chunk_ids none came_to = (length came_to ≡ length chunk_ids) × IsCalm came_to
Ends chunk_ids (some code) came_to =
    (before : List Verdict) × IsCalm before
    × (((code ≡ 1) × (came_to ≡ before ++ no_space ∷ []))
        ⊎ ((code ≡ 2)
            × (came_to ≡ before ++ flagged ∷ [])
            × ((earlier : List Verdict) × (before ≡ earlier ++ flagged ∷ []))))

-- Whether the last chunk failed, as the loop counts it and as it stands before the rest.
abbrev failed : Bool → ℕ
failed false = 0
failed true = 1

abbrev lead : Bool → List Verdict
lead false = []
lead true = flagged ∷ []

abbrev EndsAfter : Bool → List ℕ → Option ℕ → List Verdict → Type 0
EndsAfter one chunk_ids none came_to =
    (length came_to ≡ length chunk_ids) × IsCalm (lead one ++ came_to)
EndsAfter one chunk_ids (some code) came_to = Ends chunk_ids (some code) (lead one ++ came_to)

still-IsCalm :
    (one : Bool) (before : List Verdict) → IsCalm before → IsCalm (lead one ++ fine ∷ before)
still-IsCalm false before calm = calm
still-IsCalm true before calm = calm

alone-IsCalm : (one : Bool) → IsCalm (lead one)
alone-IsCalm false = tt
alone-IsCalm true = tt

lead-IsCalm : (one : Bool) → IsCalm (lead one ++ [])
lead-IsCalm false = tt
lead-IsCalm true = tt

fine-EndsAfter :
    (one : Bool) (chunk_id : ℕ) (chunk_ids : List ℕ) (code : Option ℕ) (rest : List Verdict)
    → EndsAfter false chunk_ids code rest
    → EndsAfter one (chunk_id ∷ chunk_ids) code (fine ∷ rest)
fine-EndsAfter false chunk_id chunk_ids none rest (n, calm) = (ap suc n, calm)
fine-EndsAfter true chunk_id chunk_ids none rest (n, calm) = (ap suc n, calm)
fine-EndsAfter one chunk_id chunk_ids (some code) rest (before, calm, inl (e, last)) = (
  lead one ++ fine ∷ before,
  still-IsCalm one before calm,
  inl (e, ap (λ l. lead one ++ fine ∷ l) last ∙ sym (append_assoc (lead one) (fine ∷ before) _)),
)
fine-EndsAfter one chunk_id chunk_ids (some code) rest
      (before, calm, inr (e, last, (earlier, same))) =
    (
      lead one ++ fine ∷ before,
      still-IsCalm one before calm,
      inr (
        e,
        ap (λ l. lead one ++ fine ∷ l) last ∙ sym (append_assoc (lead one) (fine ∷ before) _),
        (
          lead one ++ fine ∷ earlier,
          ap (λ l. lead one ++ fine ∷ l) same ∙ sym (append_assoc (lead one) (fine ∷ earlier) _),
        ),
      ),
    )

flagged-EndsAfter :
    (chunk_id : ℕ) (chunk_ids : List ℕ) (code : Option ℕ) (rest : List Verdict)
    → EndsAfter true chunk_ids code rest
    → EndsAfter false (chunk_id ∷ chunk_ids) code (flagged ∷ rest)
flagged-EndsAfter chunk_id chunk_ids none rest (n, calm) = (ap suc n, calm)
flagged-EndsAfter chunk_id chunk_ids (some code) rest e = e

module _ (M : Machine) where
  abbrev Rest : Type 0
  Rest = Py (Teacher M) (Option ℕ × List Verdict)

  -- How a rest of the loop ends.
  abbrev RestEnds : Bool → List ℕ → Rest → Type 0
  RestEnds one chunk_ids rest =
      (s s' : Teacher M) (code : Option ℕ) (came_to : List Verdict)
      → rest s ≡ (ok (code, came_to), s')
      → EndsAfter one chunk_ids code came_to

  then_fine :
      (one : Bool) (chunk_id : ℕ) (chunk_ids : List ℕ) (after_fail after_fine : Rest) (fails : ℕ)
      → RestEnds false chunk_ids after_fine
      → RestEnds one (chunk_id ∷ chunk_ids) (after_round chunk_id fails after_fail after_fine fine)
  unfolding after_round
  then_fine one chunk_id chunk_ids after_fail after_fine fails k t s' code came_to e =
      let ((code', rest), u, ran, e₁) = Py-eq-ok after_fine _ t s' e in
      subst (λ p. EndsAfter one (chunk_id ∷ chunk_ids) p.0 p.1) (pure-eq-ok e₁)
        (fine-EndsAfter one chunk_id chunk_ids code' rest (k t u code' rest ran))

  then_no_space :
      (one : Bool) (chunk_id : ℕ) (chunk_ids : List ℕ) (after_fail after_fine : Rest) (fails : ℕ)
      → RestEnds one
          (chunk_id ∷ chunk_ids)
          (after_round chunk_id fails after_fail after_fine no_space)
  unfolding after_round
  then_no_space one chunk_id chunk_ids after_fail after_fine fails t s' code came_to e =
      subst (λ p. EndsAfter one (chunk_id ∷ chunk_ids) p.0 p.1) (pure-eq-ok e)
        (lead one, alone-IsCalm one, inl (refl, refl))

  then_flagged :
      (chunk_id : ℕ) (chunk_ids : List ℕ) (after_fail after_fine : Rest)
      → RestEnds true chunk_ids after_fail
      → RestEnds false (chunk_id ∷ chunk_ids) (after_round chunk_id 0 after_fail after_fine flagged)
  unfolding after_round
  then_flagged chunk_id chunk_ids after_fail after_fine k t s' code came_to e =
      let add : Option ℕ × List Verdict → Rest = λ p. pure (p.0, flagged ∷ p.1) in
      let (_, u, _, e₁) =
        Py-eq-ok (progress_write (flagged_line chunk_id 1)) (λ _. after_fail >>= add) t s' e in
      let ((code', rest), v, ran, e₂) = Py-eq-ok after_fail add u s' e₁ in
      subst (λ p. EndsAfter false (chunk_id ∷ chunk_ids) p.0 p.1) (pure-eq-ok {s = v} e₂)
        (flagged-EndsAfter chunk_id chunk_ids code' rest (k u v code' rest ran))

  then_flagged_again :
      (chunk_id : ℕ) (chunk_ids : List ℕ) (after_fail after_fine : Rest)
      → RestEnds true (chunk_id ∷ chunk_ids) (after_round chunk_id 1 after_fail after_fine flagged)
  unfolding after_round
  then_flagged_again chunk_id chunk_ids after_fail after_fine t s' code came_to e =
      let bail : Rest = pure (some 2, flagged ∷ []) in
      let (_, u, _, e₁) =
        Py-eq-ok (progress_write (flagged_line chunk_id 2))
          (λ _. progress_write (bail_line 2) >> bail) t s' e in
      let (_, v, _, e₂) = Py-eq-ok (progress_write (bail_line 2)) (λ _. bail) u s' e₁ in
      subst (λ p. EndsAfter true (chunk_id ∷ chunk_ids) p.0 p.1) (pure-eq-ok {s = v} e₂)
        (flagged ∷ [], tt, inr (refl, refl, ([], refl)))

  after_round-RestEnds :
      (one : Bool) (chunk_id : ℕ) (chunk_ids : List ℕ) (after_fail after_fine : Rest)
      (what : Verdict)
      → (one ≡ false → RestEnds true chunk_ids after_fail)
      → RestEnds false chunk_ids after_fine
      → RestEnds one
          (chunk_id ∷ chunk_ids)
          (after_round chunk_id (failed one) after_fail after_fine what)
  after_round-RestEnds one chunk_id chunk_ids after_fail after_fine no_space k l =
      then_no_space one chunk_id chunk_ids after_fail after_fine (failed one)
  after_round-RestEnds one chunk_id chunk_ids after_fail after_fine fine k l =
      then_fine one chunk_id chunk_ids after_fail after_fine (failed one) l
  after_round-RestEnds false chunk_id chunk_ids after_fail after_fine flagged k l =
      then_flagged chunk_id chunk_ids after_fail after_fine (k refl)
  after_round-RestEnds true chunk_id chunk_ids after_fail after_fine flagged k l =
      then_flagged_again chunk_id chunk_ids after_fail after_fine

  module _ (chunk_size : ℕ) where
    chunks-RestEnds :
        (one : Bool) (chunk_ids : List ℕ)
        → RestEnds one chunk_ids (chunks chunk_size chunk_ids (failed one))
    unfolding chunks
    chunks-RestEnds one [] s s' code came_to e =
        subst (λ p. EndsAfter one [] p.0 p.1) (pure-eq-ok e) (refl, lead-IsCalm one)
    chunks-RestEnds false (chunk_id ∷ chunk_ids) s s' code came_to e =
        let (what, t, ran, e₁) = Py-eq-ok (chunk_round chunk_size chunk_id) _ s s' e in
        after_round-RestEnds false chunk_id chunk_ids _ _ what (λ _. chunks-RestEnds true chunk_ids)
          (chunks-RestEnds false chunk_ids) t s' code came_to e₁
    chunks-RestEnds true (chunk_id ∷ chunk_ids) s s' code came_to e =
        let (what, t, ran, e₁) = Py-eq-ok (chunk_round chunk_size chunk_id) _ s s' e in
        after_round-RestEnds true chunk_id chunk_ids (chunks chunk_size chunk_ids 2) _ what
          (λ same. absurd cc) (chunks-RestEnds false chunk_ids) t s' code came_to e₁

    -- If the loop over the chunks returns: without an exit code every chunk has been run, each had
    -- space and no two in a row were flagged; the code 1 comes at the first chunk without space, the
    -- code 2 at the first flagged chunk that comes right after a flagged one, and there is no other.
    pub chunks-Ends :
        (chunk_ids : List ℕ) (s s' : Teacher M) (code : Option ℕ) (came_to : List Verdict)
        → chunks chunk_size chunk_ids 0 s ≡ (ok (code, came_to), s')
        → Ends chunk_ids code came_to
    chunks-Ends chunk_ids s s' none came_to e = chunks-RestEnds false chunk_ids s s' none came_to e
    chunks-Ends chunk_ids s s' (some code) came_to e =
        chunks-RestEnds false chunk_ids s s' (some code) came_to e
