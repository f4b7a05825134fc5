-- ===== src/DataGen/Teacher/Bounds.antt =====
-- data-gen/orchestrator.py: how many chunks there are.
use aihomelab.Base.{ℕ, ◌+◌, ◌-◌, ◌*◌, ◌≤◌, ◌<◌, arith}
use native.Mathlib.Nat.{div-add-mod', mod-lt}
use aihomelab.DataGen.Teacher.Chunks.{n_chunks}

-- If a chunk has a request at least, the requests of all chunks are at least the total and less
-- than a chunk above it.
pub n_chunks-bounds :
    (total_per_node chunk_size : ℕ)
    → 1 ≤ chunk_size
    → (total_per_node ≤ n_chunks total_per_node chunk_size * chunk_size)
      × (n_chunks total_per_node chunk_size * chunk_size < total_per_node + chunk_size)
n_chunks-bounds total_per_node chunk_size some_size =
    let up = total_per_node + chunk_size - 1 in
    let split = div-add-mod' up chunk_size in
    let rest = mod-lt up {m = chunk_size} some_size in
    (omega (arith, split, rest), omega (arith, split, some_size))
