-- ===== src/Runners/Fio/Agreement.antt =====
-- harness/ssh.py and harness/runners/fio.py: the check of a target before a campaign, and what the
-- runner does with the testfile that it finds.
use aihomelab.Base.{String, ◌≡◌, true, false, Option, none, some, arith}
use aihomelab.Base.Int.{ℤ, ◌≤ℤ◌, ltb_ℤ}
use aihomelab.Base.Raises.{Raises, Raises-pure, Raises-if, Raises-bind}
use aihomelab.Config.{FioScenarioSpec, StorageTarget, Node}
use aihomelab.System.{Outside}
use aihomelab.Ssh.{judge}
use aihomelab.Ssh.Verdict.{Fits, judge-is_ok}
use aihomelab.Ssh.Raises.{is_ssh_error, Raises-command}
use aihomelab.Runners.Fio.{allocate_testfile, check_prefilled, handle_testfile}

not_smaller : (required size : ℤ) → required ≤ℤ size → ltb_ℤ size required ≡ false
not_smaller required size h = ground arith

module _ {O : Outside} {V : Type 0} where
  Raises-allocate_testfile :
      (node : Node) (path marker size : String)
      → Raises is_ssh_error (allocate_testfile {O = O} {V = V} node path marker size)
  unfolding allocate_testfile
  Raises-allocate_testfile node path marker size = search (Raises-bind, Raises-pure, Raises-command)

  Raises-check_prefilled :
      (node : Node) (marker : String)
      → Raises is_ssh_error (check_prefilled {O = O} {V = V} node marker)
  unfolding check_prefilled
  Raises-check_prefilled node marker = search (Raises-bind, Raises-pure, Raises-command)

  handle_testfile-Raises :
      (scenario : FioScenarioSpec) (target : StorageTarget) (node : Node) (required margin free : ℤ)
      (existing : Option ℤ)
      → Fits required margin free existing
      → Raises is_ssh_error (handle_testfile {O = O} {V = V} scenario target node required existing)
  unfolding handle_testfile
  handle_testfile-Raises scenario target node required margin free none fits =
      Raises-allocate_testfile node _ _ _
  handle_testfile-Raises scenario target node required margin free (some size) (big, room) =
      rw (not_smaller required size big) (
        Raises-bind is_ssh_error _ _ (Raises-check_prefilled node _) λ prefilled.
          Raises-if is_ssh_error prefilled _ _ (Raises-pure is_ssh_error tt)
            (Raises-allocate_testfile node _ _ _))

  -- If the check of a target passes with the size that the testfile has, the runner that finds the
  -- testfile with that size does not refuse it: only what ssh raises can leave.
  pub handle_testfile-judge :
      (scenario : FioScenarioSpec) (target : StorageTarget) (node : Node) (required margin free : ℤ)
      (file : Option String) (existing : Option ℤ)
      → (judge node target required margin free file existing).is_ok ≡ true
      → Raises is_ssh_error (handle_testfile {O = O} {V = V} scenario target node required existing)
  handle_testfile-judge scenario target node required margin free file existing passed =
      handle_testfile-Raises scenario target node required margin free existing
        ((judge-is_ok node target required margin free file existing).0 passed)
