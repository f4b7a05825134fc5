-- ===== src/DataGen/Teacher/Stops.antt =====
-- data-gen/orchestrator.py: no chunk leaves vLLM running.
use aihomelab.Base.{
  ℕ, String, ◌<>◌, Bool, none, List, [], ◌∷◌, ◌++◌, ok, Py, pure, for_each, ◌>>=◌, if◌then◌else◌,
  true, false, ◌≡◌, sym, ap, ◌∙◌,
}
use mathlib.Core.List.{append-nil, append_assoc}
use aihomelab.Base.Int.{ℤ}
use aihomelab.Base.Text.{show_ℕ}
use aihomelab.Base.Returns.{Py-eq-ok}
use aihomelab.DataGen.Teacher.Commands.{TeacherNode, nodes, node_command, kill, tmux_session}
use aihomelab.DataGen.Teacher.Shell.{
  Machine, Teacher, progress_write, stop_vllm, on_node, run_generate, health_check,
}
use aihomelab.DataGen.Teacher.Chunks.{
  chunk_name, on_each, wait_all, start_named, all_true, give_up, generate_all, after_ready,
  run_chunk,
}

-- The commands that stop vLLM on each node.
abbrev pub stops : List TeacherNode → List String
stops [] = []
stops (node ∷ rest) = node_command node (kill tmux_session) ∷ stops rest

module _ (M : Machine) where
  -- If it returns, the stops are the last that it sent.
  abbrev pub EndsStopped : Py (Teacher M) Bool → Type 0
  EndsStopped method =
      (s s' : Teacher M) (b : Bool)
      → method s ≡ (ok b, s')
      → (before : List String) × (s'.sent ≡ before ++ stops nodes)

  on_node-sent :
      (node : TeacherNode) (command : String) (s s' : Teacher M) {a : ℤ × String}
      → on_node node command none s ≡ (ok a, s')
      → s'.sent ≡ s.sent ++ node_command node command ∷ []
  unfolding on_node
  on_node-sent node command s s' e = ap (λ p. p.1.sent) (sym e)

  pure-sent :
      {A : Type 0} (a : A) (s s' : Teacher M) {b : A} → pure a s ≡ (ok b, s') → s'.sent ≡ s.sent
  unfolding ◌>>=◌
  pure-sent a s s' e = ap (λ p. p.1.sent) (sym e)

  stop_vllm-sent :
      (node : TeacherNode) (s s' : Teacher M) {a : Unit {0}}
      → stop_vllm node s ≡ (ok a, s')
      → s'.sent ≡ s.sent ++ node_command node (kill tmux_session) ∷ []
  unfolding stop_vllm
  stop_vllm-sent node s s' e =
      let (_, t, ran, e₁) =
        Py-eq-ok (on_node node (kill tmux_session) none) (λ _. pure tt) s s' e in
      ap (λ p. p.1.sent) (sym e₁) ∙ on_node-sent node (kill tmux_session) s t ran

  for_each-sent :
      (list : List TeacherNode) (s s' : Teacher M) {a : Unit {0}}
      → for_each list stop_vllm s ≡ (ok a, s')
      → s'.sent ≡ s.sent ++ stops list
  unfolding for_each
  for_each-sent [] s s' e = ap (λ p. p.1.sent) (sym e) ∙ sym (append-nil s.sent)
  for_each-sent (node ∷ rest) s s' e =
      let (_, t, ran, e₁) = Py-eq-ok (stop_vllm node) (λ _. for_each rest stop_vllm) s s' e in
      for_each-sent rest t s' e₁
      ∙ ap (λ l. l ++ stops rest) (stop_vllm-sent node s t ran)
      ∙ append_assoc s.sent (node_command node (kill tmux_session) ∷ []) (stops rest)

  EndsStopped-last : (b : Bool) → EndsStopped (for_each nodes stop_vllm >>= λ _. pure b)
  EndsStopped-last b s s' b' e =
      let (_, t, ran, e₁) = Py-eq-ok (for_each nodes stop_vllm) (λ _. pure b) s s' e in
      (s.sent, pure-sent b t s' e₁ ∙ for_each-sent nodes s t ran)

  EndsStopped-bind :
      {A : Type 0} (first : Py (Teacher M) A) (next : A → Py (Teacher M) Bool)
      → ((a : A) → EndsStopped (next a))
      → EndsStopped (first >>= next)
  EndsStopped-bind first next k s s' b e =
      let (a, t, ran, e₁) = Py-eq-ok first next s s' e in k a t s' b e₁

  EndsStopped-if :
      (test : Bool) (m n : Py (Teacher M) Bool)
      → EndsStopped m
      → EndsStopped n
      → EndsStopped (if test then m else n)
  EndsStopped-if true m n km kn = km
  EndsStopped-if false m n km kn = kn

  give_up-EndsStopped : (chunk_id : ℕ) (what : String) → EndsStopped (give_up chunk_id what)
  unfolding give_up
  give_up-EndsStopped chunk_id what =
      EndsStopped-bind (progress_write (chunk_name chunk_id <> (" FAIL " <> what)))
        (λ _. for_each nodes stop_vllm >>= λ _. pure false) (λ _. EndsStopped-last false)

  generate_all-EndsStopped :
      (chunk_id max_requests : ℕ) → EndsStopped (generate_all chunk_id max_requests)
  unfolding generate_all
  generate_all-EndsStopped chunk_id max_requests =
      let stop : Py (Teacher M) Bool = for_each nodes stop_vllm >>= λ _. pure true in
      let generate : Py (Teacher M) Unit =
        for_each nodes (λ node. run_generate node chunk_id max_requests) in
      EndsStopped-bind (progress_write (chunk_name chunk_id <> " vllm-ready, launching generate"))
        (λ _. generate >>= λ _. stop)
        (λ _. EndsStopped-bind generate (λ _. stop) (λ _. EndsStopped-last true))

  after_ready-EndsStopped :
      (chunk_id max_requests : ℕ) → EndsStopped (after_ready chunk_id max_requests)
  unfolding after_ready
  after_ready-EndsStopped chunk_id max_requests =
      EndsStopped-bind (on_each nodes health_check)
        (λ healthy.
          if all_true healthy
          then generate_all chunk_id max_requests
          else give_up chunk_id "health-check")
        (λ healthy.
          EndsStopped-if (all_true healthy) (generate_all chunk_id max_requests)
            (give_up chunk_id "health-check") (generate_all-EndsStopped chunk_id max_requests)
            (give_up-EndsStopped chunk_id "health-check"))

  if_ready-EndsStopped :
      (chunk_id max_requests : ℕ) (ready : List Bool)
      → EndsStopped (
          if all_true ready
          then after_ready chunk_id max_requests
          else give_up chunk_id "vllm startup")
  if_ready-EndsStopped chunk_id max_requests ready =
      EndsStopped-if (all_true ready) (after_ready chunk_id max_requests)
        (give_up chunk_id "vllm startup") (after_ready-EndsStopped chunk_id max_requests)
        (give_up-EndsStopped chunk_id "vllm startup")

  -- A chunk that returns, whether vLLM did not start, was not healthy or has been used, has sent the
  -- command that stops it to every node as the last of its commands.
  pub run_chunk-EndsStopped :
      (chunk_id max_requests : ℕ) (s s' : Teacher M) (b : Bool)
      → run_chunk chunk_id max_requests s ≡ (ok b, s')
      → (before : List String) × (s'.sent ≡ before ++ stops nodes)
  unfolding run_chunk
  run_chunk-EndsStopped chunk_id max_requests =
      let go : List Bool → Py (Teacher M) Bool = λ ready.
        if all_true ready
        then after_ready chunk_id max_requests
        else give_up chunk_id "vllm startup" in
      let first : String = chunk_name chunk_id <> (" START max_per_node=" <> show_ℕ max_requests) in
      let second : String = chunk_name chunk_id <> " vllm-launching, waiting startup" in
      let after_second : List (TeacherNode × String) → Py (Teacher M) Bool =
        λ log_paths. wait_all log_paths >>= go in
      let after_start : List (TeacherNode × String) → Py (Teacher M) Bool =
        λ log_paths. progress_write second >>= λ _. after_second log_paths in
      EndsStopped-bind (progress_write first)
        (λ _. on_each nodes (start_named chunk_id) >>= after_start)
        (λ _. EndsStopped-bind (on_each nodes (start_named chunk_id)) after_start (λ log_paths.
          EndsStopped-bind (progress_write second) (λ _. after_second log_paths)
            (λ _.
              EndsStopped-bind (wait_all log_paths) go
                (if_ready-EndsStopped chunk_id max_requests))))
