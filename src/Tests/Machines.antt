-- ===== src/Tests/Machines.antt =====
-- The run of the teacher model, on a machine where every command takes a second.
use aihomelab.Base.Int.{pos, ◌+ℤ◌}
use aihomelab.Base.{
  nat_eq, string_eq, ℕ, suc, ◌+◌, ◌*◌, ◌≤◌, ◌<◌, String, true, none, some, List, [], ◌∷◌, ◌++◌, ok,
  ◌≡◌, ◌≢◌, refl, arith,
}
use aihomelab.DataGen.Teacher.{TeacherNode, nodes}
use aihomelab.DataGen.Teacher.{Machine, Teacher, returned, wait_for_vllm}
use aihomelab.DataGen.Teacher.{flagged, n_chunks, chunks, run_chunk, start_named}
use aihomelab.DataGen.Teacher.BailOut.{Ends, chunks-Ends}
use aihomelab.DataGen.Teacher.Bounds.{n_chunks-bounds}
use aihomelab.DataGen.Teacher.Stops.{stops, run_chunk-EndsStopped}
use aihomelab.DataGen.Teacher.Wait.{IsClock, wait_for_vllm-Fueled}

-- Every command fails and prints nothing.
abbrev broken : Machine
broken = record {
  World = ℕ;
  shell = λ cmd timeout w. (returned (pos 1) "", suc w);
  start_and_wait = λ cmd w. suc w;
  time = λ w. w;
  sleep = λ n w. w + n;
}

-- vLLM starts and is healthy, but no row is added: every command succeeds and prints 200.
abbrev serving : Machine
serving = record {
  World = ℕ;
  shell = λ cmd timeout w. (returned (pos 0) "200\n", suc w);
  start_and_wait = λ cmd w. suc w;
  time = λ w. w;
  sleep = λ n w. w + n;
}

abbrev at_start : (M : Machine) → M.World → Teacher M
at_start M w = record { world = w; sent = []; log = [] }

abbrev local_node : TeacherNode
local_node = record {
  key = "node0";
  ssh = none;
  python = "python";
  vllm = "/venv/bin/vllm";
  venv_bin = "/venv/bin";
  prompts = "prompts.jsonl";
  output = "all.jsonl";
}

broken-IsClock : IsClock broken
broken-IsClock = record {
  shell_later = λ cmd timeout w. omega arith;
  sleep_later = λ n w. omega arith;
}

wait_for_vllm-Fueled_example :
    (wait_for_vllm 20 local_node "vllm.log" (at_start broken 0)).0 ≢ ok none
wait_for_vllm-Fueled_example =
    wait_for_vllm-Fueled broken broken-IsClock 20 local_node "vllm.log" (at_start broken 0)

n_chunks-bounds_example :
    (10000 ≤ n_chunks 10000 1024 * 1024) × (n_chunks 10000 1024 * 1024 < 10000 + 1024)
n_chunks-bounds_example = n_chunks-bounds 10000 1024 (omega arith)

chunks-Ends_example : Ends (0 ∷ 1 ∷ 2 ∷ []) (some 2) (flagged ∷ flagged ∷ [])
unfolding chunks nat_eq string_eq ◌+ℤ◌ start_named
chunks-Ends_example =
    chunks-Ends serving 1000 (0 ∷ 1 ∷ 2 ∷ []) (at_start serving 0)
      (chunks 1000 (0 ∷ 1 ∷ 2 ∷ []) 0 (at_start serving 0)).1 (some 2) (flagged ∷ flagged ∷ []) refl

run_chunk-EndsStopped_example :
    (before : List String) × ((run_chunk 0 1000 (at_start serving 0)).1.sent
      ≡ before ++ stops nodes)
unfolding run_chunk start_named nat_eq string_eq
run_chunk-EndsStopped_example =
    run_chunk-EndsStopped serving 0 1000 (at_start serving 0)
      (run_chunk 0 1000 (at_start serving 0)).1 true refl
