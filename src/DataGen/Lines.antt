-- ===== src/DataGen/Lines.antt =====
-- Scripts that `sys.exit` ends with a message, and the files of JSON lines that they read.
use aihomelab.Base.{
  ℕ, suc, String, Bool, true, false, Option, none, some, List, [], ◌∷◌, ◌++◌, ◌<>◌, ◌+◌, ◌≡◌, refl,
  if◌then◌else◌,
}
use aihomelab.Base.Text.{strip, is_empty}

pub data Ended (A : Type 0) : Type 0 where
  finished : A → Ended A
  exits : String → Ended A

module _ {A B : Type 0} where
  infixl 10 ◌>>=◌ ◌>>◌
  abbrev pub ◌>>=◌ : Ended A → (A → Ended B) → Ended B
  finished value >>= next = next value
  exits message >>= next = exits message

  abbrev pub ◌>>◌ : Ended A → Ended B → Ended B
  first >> second = first >>= λ _. second

  -- What a block that was finished has done before.
  pub >>=-eq-finished :
      (first : Ended A) (next : A → Ended B) {b : B}
      → (first >>= next) ≡ finished b
      → (a : A) × (first ≡ finished a) × (next a ≡ finished b)
  >>=-eq-finished (exits message) next returned = absurd cc
  >>=-eq-finished (finished value) next returned = (value, refl, returned)

-- `if test: sys.exit(message)`
abbrev pub exit_if : Bool → String → Ended (Unit {0})
exit_if true message = exits message
exit_if false message = finished tt

pub exit_if-eq-finished :
    {B : Type 0} (test : Bool) (message : String) (next : Ended B) {b : B}
    → (exit_if test message >> next) ≡ finished b
    → (test ≡ false) × (next ≡ finished b)
exit_if-eq-finished true message next e = absurd cc
exit_if-eq-finished false message next e = (refl, e)

pub finished-injective : {A : Type 0} {a b : A} → finished a ≡ finished b → a ≡ b
finished-injective e = cc

-- The files by their paths, and `json.loads` of a line that is an object; `none` is its
-- JSONDecodeError.
module _ {A : Type 0} (file : String → Option (List String)) (decode : String → Option A) where
  abbrev count_bad : Option A → List A × ℕ → List A × ℕ
  count_bad none (rows, n_bad) = (rows, suc n_bad)
  count_bad (some row) (rows, n_bad) = (row ∷ rows, n_bad)

  unfoldable pub decode_lines : List String → List A × ℕ
  decode_lines [] = ([], 0)
  decode_lines (line ∷ lines) =
      let rest = decode_lines lines in
      if is_empty (strip line) then rest else count_bad (decode (strip line)) rest

  -- filter_clean.py: `load_jsonl`
  unfoldable pub load_jsonl : String → Ended (List A × ℕ)
  unfolding decode_lines
  load_jsonl path = elim (file path) [
    | none ↦ exits ("[filter_clean] FATAL: input file not found: " <> path)
    | some lines ↦ finished (decode_lines lines)
  ]

  -- The rows of all inputs, and how many lines were malformed.
  unfoldable pub pool : List String → Ended (List A × ℕ)
  unfolding load_jsonl
  pool [] = finished ([], 0)
  pool (path ∷ paths) = do
    (rows, n_bad) ← load_jsonl path
    (pooled, n_malformed) ← pool paths
    finished (rows ++ pooled, n_bad + n_malformed)
