-- ===== src/DataGen/Shards.antt =====
-- data-gen/split_prompts.py: the prompts for the two nodes.
pub mod Interleave
use aihomelab.Base.{ℕ, suc, ◌%◌, String, Bool, List, [], ◌∷◌, if◌then◌else◌, ◌==◌, nat_eq}
use aihomelab.Base.Text.{strip, is_empty}

abbrev pub is_even : ℕ → Bool
is_even i = i % 2 == 0

-- The lines of a file from the i-th on: those that are written for node0 and for node1.
unfoldable pub split_prompts : ℕ → List String → List String × List String
unfolding strip
split_prompts i [] = ([], [])
split_prompts i (line ∷ lines) =
    let (f01, f02) = split_prompts (suc i) lines in
    if is_empty (strip line)
    then (f01, f02)
    else if is_even i
    then (strip line ∷ f01, f02)
    else (f01, strip line ∷ f02)
