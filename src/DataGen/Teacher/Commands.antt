-- ===== src/DataGen/Teacher/Commands.antt =====
-- data-gen/orchestrator.py: its configuration and the commands that it sends.
use aihomelab.Base.{
  ℕ, String, ◌<>◌, Option, none, some, List, [], ◌∷◌, nat_eq, string_eq, if◌then◌else◌, ltb,
}
use aihomelab.Base.Text.{join, quote, show_ℕ}

-- An entry of `NODES`; without `ssh` the node is the local one.
pub record TeacherNode : Type 0 where
  pub key : String
  pub ssh : Option String
  pub python : String
  pub vllm : String
  pub venv_bin : String
  pub prompts : String
  pub output : String

abbrev pub nodes : List TeacherNode
nodes =
    (record {
      key = "node1";
      ssh = some "USER@node1";
      python = "/data/venv-node1/bin/python";
      vllm = "/data/venv-node1/bin/vllm";
      venv_bin = "/data/venv-node1/bin";
      prompts = "/data/prompts/all-prompts.jsonl";
      output = "/data/outputs/all-node1.jsonl";
    })
    ∷ []

abbrev pub results : String
results = "/data/results/phase5-full-generation"

abbrev pub scripts : String
scripts = "/data/scripts"

abbrev pub model_dir : String
model_dir = "/data/hf-cache/Qwen3-32B"

unfoldable pub vllm_flags : String
unfolding join
vllm_flags = join " " (
    "--tensor-parallel-size 1" ∷ "--port 8000" ∷ "--gpu-memory-utilization 0.80"
    ∷ "--max-num-seqs 32" ∷ "--max-num-batched-tokens 8192" ∷ "--enable-prefix-caching"
    ∷ "--enforce-eager" ∷ [])

abbrev pub tmux_session : String
tmux_session = "vllm-chunk"

abbrev pub startup_timeout_sec : ℕ
startup_timeout_sec = 600

abbrev pub min_free_pct : ℕ
min_free_pct = 10

abbrev pub max_consecutive_fails : ℕ
max_consecutive_fails = 2

-- The command as the local shell gets it.
unfoldable pub node_command : TeacherNode → String → String
unfolding quote
node_command node command = elim node.ssh [
  | none ↦ command
  | some login ↦ "ssh -o BatchMode=yes -o ConnectTimeout=10 " <> (login <> (" " <> quote command))
]

abbrev pub kill : String → String
kill session = "tmux kill-session -t " <> (session <> " 2>/dev/null || true")

abbrev pub two_digits : ℕ → String
two_digits n = if ltb n 10 then "0" <> show_ℕ n else show_ℕ n

unfoldable pub vllm_log : TeacherNode → ℕ → String
unfolding show_ℕ
vllm_log node chunk_id =
    results <> ("/vllm-" <> (node.key <> ("-chunk" <> (two_digits chunk_id <> ".log"))))

abbrev pub serve_command : TeacherNode → String → String
unfolding vllm_flags
serve_command node log_path =
    "PATH="
    <> (node.venv_bin
        <> (":/usr/local/bin:/usr/bin:/bin "
            <> (node.vllm
                <> (" serve "
                    <> (model_dir <> (" " <> (vllm_flags <> (" > " <> (log_path <> " 2>&1")))))))))

abbrev pub poll_command : String → String
poll_command log_path = "grep -q 'Application startup complete' " <> (log_path <> " 2>/dev/null")

-- What `run_generate` runs.
unfoldable pub generate_command : TeacherNode → ℕ → ℕ → String
unfolding show_ℕ
generate_command node chunk_id max_requests =
    let log_path =
      results <> ("/gen-" <> (node.key <> ("-chunk" <> (two_digits chunk_id <> ".log")))) in
    node.python
    <> (" "
        <> (scripts
            <> ("/generate.py "
                <> ("--prompts "
                    <> (node.prompts
                        <> (" "
                            <> ("--templates "
                                <> (scripts
                                    <> ("/templates.json "
                                        <> ("--vllm-url http://localhost:8000/v1/chat/completions "
                                            <> ("--model "
                                                <> (model_dir
                                                    <> (" --concurrency 32 --max-requests "
                                                        <> (show_ℕ max_requests
                                                            <> (" --skip-completed --out "
                                                            <> (node.output
                                                            <> (" 2> " <> log_path)))))))))))))))))

abbrev pub health_command : String
health_command =
    "curl -s -o /dev/null -w '%{http_code}' --max-time 30 http://localhost:8000/v1/models"

abbrev pub free_command : String
free_command = "df --output=pcent /mnt/shared | tail -1 | tr -dc '0-9'"

abbrev pub count_command : String → String
count_command path = "[ -f " <> (path <> (" ] && wc -l < " <> (path <> " || echo 0")))
