-- ===== src/DataGen/Teacher/Wait.antt =====
-- data-gen/orchestrator.py: the wait for vLLM comes to an end.
use aihomelab.Base.{
  ℕ, zero, suc, ◌+◌, ◌*◌, ◌/◌, ◌≤◌, ◌<◌, String, Bool, Option, none, [], ◌∷◌, ◌++◌, Bool-cases,
  Result, ok, Py, continue, ◌≢◌, inl, inr, arith, ltb,
}
use aihomelab.Base.Int.{ℤ, pos, eqb_ℤ}
use aihomelab.DataGen.Teacher.Commands.{TeacherNode, poll_command, node_command}
use aihomelab.DataGen.Teacher.Shell.{
  Machine, Teacher, Ran, returned, expired, answered, after_poll, poll, wait_loop, wait_for_vllm,
}

-- The clock is never set back, and a sleep takes its time.
pub record IsClock (M : Machine) : Type 0 where
  pub shell_later :
      (cmd : String) (timeout : Option ℕ) (w : M.World)
      → M.time w ≤ M.time (M.shell cmd timeout w).1
  pub sleep_later : (n : ℕ) (w : M.World) → M.time w + n ≤ M.time (M.sleep n w)

module _ (M : Machine) (clock : IsClock M) where
  abbrev Fueled : Result (Option Bool) → Type 0
  Fueled outcome = outcome ≢ ok none

  after_poll-Fueled :
      (again : Py (Teacher M) (Option Bool)) (answer : ℤ × String) (t : Teacher M)
      → ((u : Teacher M) → M.time t.world + 5 ≤ M.time u.world → Fueled (again u).0)
      → Fueled (after_poll again answer t).0
  unfolding after_poll
  after_poll-Fueled again (code, stdout) t k = elim (Bool-cases (eqb_ℤ code (pos 0))) [
    | inl up ↦ rw up (λ e. cc)
    | inr down ↦ rw down (k (record t { world = M.sleep 5 t.world }) (clock.sleep_later 5 t.world))
  ]

  poll-Fueled :
      (node : TeacherNode) (log_path : String) (again : Py (Teacher M) (Option Bool))
      (s : Teacher M)
      → ((u : Teacher M) → M.time s.world + 5 ≤ M.time u.world → Fueled (again u).0)
      → Fueled (poll node log_path again s).0
  unfolding poll
  poll-Fueled node log_path again s k =
      let cmd = node_command node (poll_command log_path) in
      let w = (M.shell cmd none s.world).1 in
      go (M.shell cmd none s.world).0 (record s { world = w; sent = s.sent ++ cmd ∷ [] })
        (λ u later. k u (omega (arith, later, clock.shell_later cmd none s.world)))
    where
      go :
          (ran : Ran) (t : Teacher M)
          → ((u : Teacher M) → M.time t.world + 5 ≤ M.time u.world → Fueled (again u).0)
          → Fueled (continue (answered ran) (after_poll again) t).0
      go (returned code stdout) t k' = after_poll-Fueled again (code, stdout) t k'
      go expired t k' = λ e. cc

  wait_loop-Fueled :
      (fuel : ℕ) (node : TeacherNode) (log_path : String) (deadline : ℕ) (s : Teacher M)
      → 1 ≤ fuel
      → deadline + 5 ≤ M.time s.world + 5 * fuel
      → Fueled (wait_loop fuel node log_path deadline s).0
  unfolding wait_loop
  wait_loop-Fueled zero node log_path deadline s some_fuel enough = omega (arith, some_fuel)
  wait_loop-Fueled (suc fuel) node log_path deadline s some_fuel enough =
      let ih = wait_loop-Fueled fuel node log_path deadline in
      elim (Bool-cases (ltb (M.time s.world) deadline)) [
        | inl early ↦
            let before : M.time s.world < deadline = ground arith in
            rw early (
              poll-Fueled node log_path (wait_loop fuel node log_path deadline) s
                (λ u later. ih u (omega (arith, enough, before)) (omega (arith, enough, later))))
        | inr late ↦ rw late (λ e. cc)
      ]

  -- If the clock is never set back and a sleep takes its time, the fuel of the wait for vLLM is
  -- enough, whatever the node answers: the wait tells whether vLLM is up, or it ends in an exception.
  pub wait_for_vllm-Fueled :
      (timeout : ℕ) (node : TeacherNode) (log_path : String) (s : Teacher M)
      → (wait_for_vllm timeout node log_path s).0 ≢ ok none
  unfolding wait_for_vllm
  wait_for_vllm-Fueled timeout node log_path s =
      wait_loop-Fueled (timeout / 5 + 2) node log_path (M.time s.world + timeout) s (omega arith)
        (omega arith)
