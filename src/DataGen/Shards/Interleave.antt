-- ===== src/DataGen/Shards/Interleave.antt =====
-- data-gen/split_prompts.py: nothing is lost, and the shards are balanced.
use aihomelab.Base.{
  ℕ, suc, ◌≤◌, ◌+◌, String, true, false, List, [], ◌∷◌, map, length, All, ◌==◌, nat_eq, ◌≡◌, refl,
  ap, ◌∙◌, arith,
}
use aihomelab.Base.Text.{strip, is_empty}
use aihomelab.DataGen.Shards.{is_even, split_prompts}

-- One of each in turn
abbrev pub interleave : List String → List String → List String
interleave [] ys = ys
interleave (x ∷ xs) [] = x ∷ xs
interleave (x ∷ xs) (y ∷ ys) = x ∷ y ∷ interleave xs ys

is_even-suc : (i : ℕ) → is_even (suc (suc i)) ≡ is_even i
is_even-suc i = ap {A = ℕ} (λ r. r == 0) (omega arith)

abbrev pub NotBlank : String → Type 0
NotBlank line = is_empty (strip line) ≡ false

abbrev Balanced : List String × List String → List String → Type 0
Balanced (f01, f02) lines =
    (interleave f01 f02 ≡ map strip lines)
    × (length f02 ≤ length f01)
    × (length f01 ≤ length f02 + 1)

split_prompts-Balanced :
    (i : ℕ) (lines : List String)
    → is_even i ≡ true
    → is_even (suc i) ≡ false
    → All NotBlank lines
    → Balanced (split_prompts i lines) lines
unfolding split_prompts
split_prompts-Balanced i [] even odd a = (refl, omega arith, omega arith)
split_prompts-Balanced i (x ∷ []) even odd (bx, a) = rw (bx, even) (refl, omega arith, omega arith)
split_prompts-Balanced i (x ∷ y ∷ lines) even odd (bx, (by_, a)) =
    let (same, less, more) =
      split_prompts-Balanced (suc (suc i)) lines (is_even-suc i ∙ even) (is_even-suc (suc i) ∙ odd)
        a in
    rw (bx, even, by_, odd)
      (ap (λ l. strip x ∷ strip y ∷ l) same, omega (arith, less), omega (arith, more))

-- If no line is blank, the prompts of node0 and node1 in turn are the lines again, stripped and in
-- their order, and node0 has as many as node1 or one more.
pub split_prompts-interleave :
    (lines : List String)
    → All NotBlank lines
    → (interleave (split_prompts 0 lines).0 (split_prompts 0 lines).1 ≡ map strip lines)
      × (length (split_prompts 0 lines).1 ≤ length (split_prompts 0 lines).0)
      × (length (split_prompts 0 lines).0 ≤ length (split_prompts 0 lines).1 + 1)
unfolding nat_eq
split_prompts-interleave lines a = split_prompts-Balanced 0 lines refl refl a
