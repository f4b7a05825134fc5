-- ===== src/DataGen/Teacher/Shell.antt =====
-- data-gen/orchestrator.py: a node's shell, and the start and stop of vLLM on it.
use aihomelab.Base.{
  ℕ, zero, suc, ◌+◌, ◌/◌, String, ◌<>◌, Bool, true, false, not, ◌&&◌, ◌||◌, Option, none, some,
  List, [], ◌∷◌, ◌++◌, ◌==◌, nat_eq, string_eq, runtime_error, value_error, Result, ok, raised, Py,
  pure, lift, modify, ◌>>=◌, ◌>>◌, if◌then◌else◌, ltb,
}
use aihomelab.Base.Int.{ℤ, pos, negsuc, sub_ℕ, eqb_ℤ, ◌+ℤ◌, neg_part, pos_part}
use aihomelab.Base.Text.{strip, is_empty, quote, parse_int}
use aihomelab.DataGen.Teacher.Commands.{
  TeacherNode, node_command, kill, tmux_session, vllm_log, serve_command, poll_command,
  generate_command, health_command, free_command, count_command,
}

-- How `subprocess.run` ends: with an exit code and stdout, or by its timeout.
pub data Ran : Type 0 where
  returned : ℤ → String → Ran
  expired : Ran

-- The shell and the clock. `start_and_wait` is `Popen` with the `wait` for the process.
pub record Machine : Type 1 where
  pub World : Type 0
  pub shell : String → Option ℕ → World → Ran × World
  pub start_and_wait : String → World → World
  pub time : World → ℕ
  pub sleep : ℕ → World → World

-- The world, the commands sent, and progress.txt without its times.
pub record Teacher (M : Machine) : Type 0 where
  pub world : M.World
  pub sent : List String
  pub log : List String

-- A TimeoutExpired, which nothing catches, is a RuntimeError here.
abbrev pub answered : Ran → Result (ℤ × String)
answered (returned code stdout) = ok (code, stdout)
answered expired = raised (runtime_error "TimeoutExpired")

-- `100 - int(text)`
abbrev percent_left : Option ℤ → Result ℤ
percent_left none = raised (value_error "invalid literal for int()")
percent_left (some n) = ok (pos 100 +ℤ sub_ℕ (neg_part n) (pos_part n))

-- `int(res.stdout.strip() or "0")`, and 0 where that is no number
abbrev number_or_zero : String → ℤ
number_or_zero out =
    if is_empty out then pos 0 else (elim (parse_int out) [ none ↦ pos 0 | some n ↦ n ])

-- The command that `popen_on_node` gives the local shell
abbrev launched : TeacherNode → String → String
launched node command = elim node.ssh [
  | none ↦ command
  | some login ↦ "ssh -o BatchMode=yes " <> (login <> (" " <> quote command))
]

module _ {M : Machine} where
  abbrev note : String → Teacher M → Teacher M
  note line s = record s { log = s.log ++ line ∷ [] }

  unfoldable pub progress_write : String → Py (Teacher M) (Unit {0})
  unfolding ◌>>=◌
  progress_write line = modify (note line)

  unfoldable pub run_local : String → Option ℕ → Py (Teacher M) (ℤ × String)
  run_local cmd timeout s =
      let (ran, w) = M.shell cmd timeout s.world in
      (answered ran, record s { world = w; sent = s.sent ++ cmd ∷ [] })

  unfoldable pub on_node : TeacherNode → String → Option ℕ → Py (Teacher M) (ℤ × String)
  unfolding run_local node_command
  on_node node command timeout = run_local (node_command node command) timeout

  unfoldable pub pause : ℕ → Py (Teacher M) (Unit {0})
  unfolding ◌>>=◌
  pause seconds = modify (λ s. record s { world = M.sleep seconds s.world })

  unfoldable pub stop_vllm : TeacherNode → Py (Teacher M) (Unit {0})
  unfolding on_node ◌>>=◌
  stop_vllm node = do on_node node (kill tmux_session) none; pure tt

  unfoldable pub start_vllm : TeacherNode → ℕ → Py (Teacher M) String
  unfolding on_node pause vllm_log quote
  start_vllm node chunk_id = do
    on_node node (kill tmux_session) none
    on_node node (kill "vllm-node0") none
    on_node node (kill "vllm-node1") none
    on_node node "pkill -9 -f 'vllm serve' 2>/dev/null || true" none
    pause 2
    on_node node "sudo sync && sudo tee /proc/sys/vm/drop_caches <<< 3 >/dev/null" none
    on_node node
        ("tmux new -d -s "
          <> (tmux_session <> (" " <> quote (serve_command node (vllm_log node chunk_id)))))
        none
    pure (vllm_log node chunk_id)

  -- What follows a poll, with the loop from there
  unfoldable pub after_poll :
      Py (Teacher M) (Option Bool) → ℤ × String → Py (Teacher M) (Option Bool)
  unfolding pause ◌>>=◌
  after_poll again (code, stdout) =
      if eqb_ℤ code (pos 0) then pure (some true) else (do pause 5; again)

  unfoldable pub poll :
      TeacherNode → String → Py (Teacher M) (Option Bool) → Py (Teacher M) (Option Bool)
  unfolding on_node after_poll
  poll node log_path again = on_node node (poll_command log_path) none >>= after_poll again

  -- The loop that polls the log; `none` tells that the fuel is used up.
  unfoldable pub wait_loop : ℕ → TeacherNode → String → ℕ → Py (Teacher M) (Option Bool)
  unfolding poll
  wait_loop zero node log_path deadline s = (ok none, s)
  wait_loop (suc fuel) node log_path deadline s =
      let again = wait_loop fuel node log_path deadline in
      if ltb (M.time s.world) deadline then poll node log_path again s else (ok (some false), s)

  -- A sleep of five seconds in each round: fuel for every round until the deadline.
  unfoldable pub wait_for_vllm : ℕ → TeacherNode → String → Py (Teacher M) (Option Bool)
  unfolding wait_loop
  wait_for_vllm timeout node log_path s =
      wait_loop (timeout / 5 + 2) node log_path (M.time s.world + timeout) s

  unfoldable pub health_check : TeacherNode → Py (Teacher M) Bool
  unfolding on_node strip
  health_check node = do
    (code, stdout) ← on_node node health_command (some 40)
    pure (eqb_ℤ code (pos 0) && strip stdout == "200")

  -- `lustre_free_pct`; -1 where `df` tells nothing.
  unfoldable pub free_pct : Py (Teacher M) ℤ
  unfolding run_local strip parse_int
  free_pct = do
    (code, stdout) ← run_local free_command none
    if not (eqb_ℤ code (pos 0)) || is_empty (strip stdout)
        then pure (negsuc 0)
        else lift (percent_left (parse_int stdout))

  unfoldable pub count_lines : String → Py (Teacher M) ℤ
  unfolding run_local strip parse_int
  count_lines path = do
    (code, stdout) ← run_local (count_command path) none
    pure (number_or_zero (strip stdout))

  -- The start of generate.py and the `wait` for it
  abbrev generated : TeacherNode → ℕ → ℕ → Teacher M → Teacher M
  generated node chunk_id max_requests s =
      let command = launched node (generate_command node chunk_id max_requests) in
      record s { world = M.start_and_wait command s.world; sent = s.sent ++ command ∷ [] }

  unfoldable pub run_generate : TeacherNode → ℕ → ℕ → Py (Teacher M) (Unit {0})
  unfolding ◌>>=◌ generate_command quote
  run_generate node chunk_id max_requests = modify (generated node chunk_id max_requests)
