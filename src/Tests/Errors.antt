-- ===== src/Tests/Errors.antt =====
-- The exceptions that leave a job and the check of a target, and a target that passes.
use aihomelab.Base.{refl, ℕ, String, false, some}
use aihomelab.Base.Int.{pos, ◌+ℤ◌}
use aihomelab.Base.Raises.{Raises, Fails, Fails-ok}
use aihomelab.Ssh.{judge, preflight_target}
use aihomelab.Ssh.Raises.{is_spawn_error, is_ssh_error, preflight_target-Raises}
use aihomelab.Parsers.Fio.{object, end}
use aihomelab.Parsers.Fio.Raises.{is_local}
use aihomelab.Runners.Interface.{RunContext}
use aihomelab.Runners.Fio.{run_job, handle_testfile}
use aihomelab.Runners.Fio.Agreement.{handle_testfile-judge}
use aihomelab.Runners.Fio.Raises.{is_uncaught, run_job-Raises}
use aihomelab.Tests.Samples.{fixed, quiet, tiny, nvme, spark, one_job, loads_empty}

abbrev ctx : RunContext
ctx = record { run_id = "r1"; raw_dir = "results/raw/r1"; dry_run = false }

decodes : (text : String) → Fails is_local (loads_empty text)
decodes text = Fails-ok is_local (object end)

run_job-Raises_example :
    Raises is_uncaught (run_job fixed loads_empty quiet tiny nvme spark ctx one_job)
run_job-Raises_example = run_job-Raises fixed loads_empty quiet decodes tiny nvme spark ctx one_job

preflight_target-Raises_example :
    Raises is_spawn_error
      (preflight_target spark nvme (pos 2048) (pos 100) {O = quiet} {V = ℕ} false (some "/bench/f"))
preflight_target-Raises_example =
    preflight_target-Raises {O = quiet} {V = ℕ} spark nvme (pos 2048) (pos 100) false
      (some "/bench/f")

handle_testfile-judge_example :
    Raises is_ssh_error
      (handle_testfile {O = quiet} {V = ℕ} tiny nvme spark (pos 2048) (some (pos 2048)))
unfolding judge ◌+ℤ◌
handle_testfile-judge_example =
    handle_testfile-judge {O = quiet} {V = ℕ} tiny nvme spark (pos 2048) (pos 100) (pos 150)
      (some "/bench/testfile") (some (pos 2048)) refl
