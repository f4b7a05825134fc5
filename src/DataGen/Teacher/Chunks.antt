-- ===== src/DataGen/Teacher/Chunks.antt =====
-- data-gen/orchestrator.py: a chunk of requests, and the loop over the chunks. The dicts that
-- progress.txt gets at the end of some lines are left out.
use aihomelab.Base.{
  ℕ, zero, suc, ◌+◌, ◌-◌, ◌/◌, String, ◌<>◌, Bool, true, false, not, ◌&&◌, ◌||◌, Option, none, some,
  List, [], ◌∷◌, any, Py, pure, ◌>>=◌, ◌>>◌, for_each, if◌then◌else◌, leb,
}
use aihomelab.Base.Int.{ℤ, pos, ltb_ℤ, leb_ℤ, sub_ℕ, ◌+ℤ◌, neg_part, pos_part}
use aihomelab.Base.Text.{show, show_ℕ}
use aihomelab.DataGen.Teacher.Commands.{
  TeacherNode, nodes, two_digits, min_free_pct, max_consecutive_fails, startup_timeout_sec,
}
use aihomelab.DataGen.Teacher.Shell.{
  Machine, Teacher, progress_write, start_vllm, wait_for_vllm, stop_vllm, health_check, free_pct,
  count_lines, run_generate,
}

-- What a chunk comes to: no space was left before it, it failed or added too few rows, or neither.
pub data Verdict : Type 0 where
  no_space flagged fine : Verdict

abbrev pub all_true : List Bool → Bool
all_true [] = true
all_true (b ∷ bs) = b && all_true bs

-- The fuel of a wait is never used up.
abbrev pub is_ready : Option Bool → Bool
is_ready none = false
is_ready (some ready) = ready

abbrev pub chunk_name : ℕ → String
chunk_name chunk_id = "CHUNK " <> two_digits chunk_id

-- `0 <= free < LUSTRE_MIN_FREE_PCT`
abbrev pub is_low : ℤ → Bool
is_low free = leb_ℤ (pos 0) free && ltb_ℤ free (pos min_free_pct)

abbrev pub deltas : List ℤ → List ℤ → List ℤ
deltas (b ∷ before) (a ∷ after) = (a +ℤ sub_ℕ (neg_part b) (pos_part b)) ∷ deltas before after
deltas _ _ = []

abbrev pub chunk_verdict : Bool → Verdict
chunk_verdict chunk_failed = if chunk_failed then flagged else fine

-- `range(n)`
abbrev pub range_from : ℕ → ℕ → List ℕ
range_from first zero = []
range_from first (suc n) = first ∷ range_from (suc first) n

-- `(total + chunk_size - 1) // chunk_size`, where a chunk has a request at least
abbrev pub n_chunks : ℕ → ℕ → ℕ
n_chunks total_per_node chunk_size = (total_per_node + chunk_size - 1) / chunk_size

abbrev pub flagged_line : ℕ → ℕ → String
flagged_line chunk_id fails = chunk_name chunk_id <> (" FLAGGED-FAIL consecutive=" <> show_ℕ fails)

abbrev pub bail_line : ℕ → String
bail_line fails = "BAIL OUT after " <> (show_ℕ fails <> " consecutive failures")

module _ {M : Machine} where
  -- `{n: f(n) for n in NODES}`
  unfoldable pub on_each :
      {A : Type 0} → List TeacherNode → (TeacherNode → Py (Teacher M) A) → Py (Teacher M) (List A)
  unfolding ◌>>=◌
  on_each [] f = pure []
  on_each (node ∷ rest) f = do value ← f node; values ← on_each rest f; pure (value ∷ values)

  unfoldable pub wait_all : List (TeacherNode × String) → Py (Teacher M) (List Bool)
  unfolding ◌>>=◌ wait_for_vllm
  wait_all [] = pure []
  wait_all ((node, log_path) ∷ rest) = do
    ready ← wait_for_vllm startup_timeout_sec node log_path
    others ← wait_all rest
    pure (is_ready ready ∷ others)

  unfoldable pub start_named : ℕ → TeacherNode → Py (Teacher M) (TeacherNode × String)
  unfolding start_vllm
  start_named chunk_id node = do log_path ← start_vllm node chunk_id; pure (node, log_path)

  -- `FAIL`, and the stop of every node
  unfoldable pub give_up : ℕ → String → Py (Teacher M) Bool
  unfolding progress_write for_each stop_vllm
  give_up chunk_id what = do
    progress_write (chunk_name chunk_id <> (" FAIL " <> what))
    for_each nodes stop_vllm
    pure false

  unfoldable pub generate_all : ℕ → ℕ → Py (Teacher M) Bool
  unfolding progress_write for_each run_generate stop_vllm
  generate_all chunk_id max_requests = do
    progress_write (chunk_name chunk_id <> " vllm-ready, launching generate")
    for_each nodes (λ node. run_generate node chunk_id max_requests)
    for_each nodes stop_vllm
    pure true

  unfoldable pub after_ready : ℕ → ℕ → Py (Teacher M) Bool
  unfolding on_each health_check give_up generate_all
  after_ready chunk_id max_requests = do
    healthy ← on_each nodes health_check
    if all_true healthy then generate_all chunk_id max_requests else give_up chunk_id "health-check"

  unfoldable pub run_chunk : ℕ → ℕ → Py (Teacher M) Bool
  unfolding on_each wait_all give_up after_ready start_named
  run_chunk chunk_id max_requests = do
    progress_write (chunk_name chunk_id <> (" START max_per_node=" <> show_ℕ max_requests))
    log_paths ← on_each nodes (start_named chunk_id)
    progress_write (chunk_name chunk_id <> " vllm-launching, waiting startup")
    ready ← wait_all log_paths
    if all_true ready then after_ready chunk_id max_requests else give_up chunk_id "vllm startup"

  -- A round of the loop of `main`, up to the count of the failures
  unfoldable pub chunk_round : ℕ → ℕ → Py (Teacher M) Verdict
  unfolding free_pct on_each count_lines run_chunk
  chunk_round chunk_size chunk_id = do
    free ← free_pct
    if is_low free
        then (do
          progress_write (
              "ABORT before chunk "
              <> (show_ℕ chunk_id <> (": Lustre " <> (show free <> "% free"))))
          pure no_space)
        else (do
          before ← on_each nodes (λ node. count_lines node.output)
          succeeded ← run_chunk chunk_id chunk_size
          after ← on_each nodes (λ node. count_lines node.output)
          progress_write (chunk_name chunk_id <> " DONE")
          pure (
              chunk_verdict
                (not succeeded || any (λ d. ltb_ℤ d (pos (chunk_size / 2))) (deltas before after))))

  -- The rest of a round, with the loop from there after a failure and after none
  unfoldable pub after_round :
      (chunk_id consecutive_fails : ℕ)
      (after_fail after_fine : Py (Teacher M) (Option ℕ × List Verdict))
      → Verdict
      → Py (Teacher M) (Option ℕ × List Verdict)
  unfolding progress_write
  after_round chunk_id consecutive_fails after_fail after_fine no_space =
      pure (some 1, no_space ∷ [])
  after_round chunk_id consecutive_fails after_fail after_fine flagged = do
    progress_write (flagged_line chunk_id (suc consecutive_fails))
    if leb max_consecutive_fails (suc consecutive_fails)
        then (do progress_write (bail_line (suc consecutive_fails)); pure (some 2, flagged ∷ []))
        else (do (code, rest) ← after_fail; pure (code, flagged ∷ rest))
  after_round chunk_id consecutive_fails after_fail after_fine fine = do
    (code, rest) ← after_fine
    pure (code, fine ∷ rest)

  -- The loop: the exit code, none if it comes to its end, and what the chunks came to.
  unfoldable pub chunks : ℕ → List ℕ → ℕ → Py (Teacher M) (Option ℕ × List Verdict)
  unfolding chunk_round after_round
  chunks chunk_size [] consecutive_fails = pure (none, [])
  chunks chunk_size (chunk_id ∷ chunk_ids) consecutive_fails =
      chunk_round chunk_size chunk_id
      >>= after_round chunk_id consecutive_fails
          (chunks chunk_size chunk_ids (suc consecutive_fails)) (chunks chunk_size chunk_ids 0)

  unfoldable pub teacher_main : ℕ → ℕ → Py (Teacher M) (Option ℕ × List Verdict)
  unfolding free_pct chunks on_each count_lines
  teacher_main chunk_size total_per_node = do
    progress_write (
        "=== START total_per_node="
        <> (show_ℕ total_per_node <> (" chunk_size=" <> (show_ℕ chunk_size <> " ==="))))
    free ← free_pct
    progress_write ("Lustre free: " <> (show free <> "%"))
    if is_low free
        then (do progress_write "ABORT: Lustre below 10% free"; pure (some 1, []))
        else (do
          (code, came_to) ← chunks chunk_size (range_from 0 (n_chunks total_per_node chunk_size)) 0
          elim code [
            | none ↦ do
              on_each nodes (λ node. count_lines node.output)
              progress_write "=== COMPLETE ==="
              pure (none, came_to)
            | some exit ↦ pure (some exit, came_to)
          ])
