-- ===== src/Ssh/Verdict.antt =====
-- harness/ssh.py: when a target passes.
use aihomelab.Base.{String, ◌≡◌, true, Option, none, some, arith, ◌↔◌}
use aihomelab.Base.Int.{ℤ, pos, ◌+ℤ◌, ◌≤ℤ◌}
use aihomelab.Config.{Node, StorageTarget}
use aihomelab.Ssh.Target.{PreflightFinding, judge}

-- The space that a run needs: without a workspace file the whole testfile and the margin; with one,
-- the file must be big enough, and the margin must be free.
abbrev pub Fits : (required margin free : ℤ) → Option ℤ → Type 0
Fits required margin free none = required +ℤ margin ≤ℤ free
Fits required margin free (some size) = (required ≤ℤ size) × (pos 0 +ℤ margin ≤ℤ free)

module _ (node : Node) (target : StorageTarget) (required margin free : ℤ)
    (file : Option String) where
  abbrev verdict : Option ℤ → PreflightFinding
  verdict existing = judge node target required margin free file existing

  -- A target passes exactly if what the run needs fits: without a workspace file the testfile and the
  -- safety margin in the free space; with one, the required size in that file and the margin in the
  -- free space.
  pub judge-is_ok :
      (existing : Option ℤ) → ((verdict existing).is_ok ≡ true) ↔ Fits required margin free existing
  unfolding judge
  judge-is_ok none = (λ h. ground arith, λ h. ground arith)
  judge-is_ok (some size) = (λ h. ground arith, λ h. ground arith)
