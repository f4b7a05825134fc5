-- ===== src/DataGen/Unify/Run.antt =====
-- data-gen/pass1_schema_unify.py: `main`. Its messages are left out; the yield of the wikibooks
-- extractor is counted.
use aihomelab.Base.{
  String, Bool, true, false, ◌&&◌, not, Option, none, some, List, [], ◌∷◌, ◌++◌, ℕ, suc, length,
  value_error, file_not_found, Result, ok, raised, Py, pure, raise, lift, gets, modify, for_each,
  ◌>>=◌, ◌>>◌, if◌then◌else◌,
}
use aihomelab.Base.Int.{ℤ, sub_ℕ}
use aihomelab.Floats.{Floats}
use aihomelab.Parsers.Fio.{Json}
use aihomelab.DataGen.Leak.{Regex}
use aihomelab.DataGen.Unify.Extract.{UnifiedRow, TextFile, recipe_row, book_row, context_of}

-- `counts` but for `wikipedia_dropped`, and `wb_yield`
pub record Counts : Type 0 where
  pub wikibooks : ℕ
  pub gutenberg : ℕ
  pub wikipedia_kept : ℕ
  pub with_ingredients : ℕ
  pub with_steps : ℕ
  pub both_empty : ℕ

-- What `main` has written and counted
pub record Output (F : Type 0) : Type 0 where
  pub rows : List (UnifiedRow F)
  pub counts : Counts

abbrev pub no_output : {F : Type 0} → Output F
no_output = record {
  rows = [];
  counts = record {
    wikibooks = 0;
    gutenberg = 0;
    wikipedia_kept = 0;
    with_ingredients = 0;
    with_steps = 0;
    both_empty = 0;
  };
}

-- The files under RAW_ROOT: the lines of two of them, none where the file is missing, and the texts of
-- the directory gutenberg in the order of their paths.
pub record Sources : Type 0 where
  pub wikibooks_lines : Option (List String)
  pub gutenberg_files : List TextFile
  pub wikipedia_lines : Option (List String)

abbrev pub open_lines : {S : Type 0} → Option (List String) → Py S (List String)
open_lines none = raise (file_not_found "no such file")
open_lines (some lines) = pure lines

-- `if xs` of a list, which may be a null
abbrev pub holds_texts : Option (List String) → Bool
holds_texts (some (x ∷ xs)) = true
holds_texts _ = false

abbrev pub suc_if : Bool → ℕ → ℕ
suc_if test n = if test then suc n else n

abbrev pub count_recipe : Bool → Bool → Counts → Counts
count_recipe ingredients steps c = record c {
  wikibooks = suc c.wikibooks;
  with_ingredients = suc_if ingredients c.with_ingredients;
  with_steps = suc_if steps c.with_steps;
  both_empty = suc_if (not ingredients && not steps) c.both_empty;
}

abbrev pub count_book : Counts → Counts
count_book c = record c { gutenberg = suc c.gutenberg }

abbrev pub count_context : Counts → Counts
count_context c = record c { wikipedia_kept = suc c.wikipedia_kept }

module _ {F : Type 0} where
  -- A row is counted, then written.
  abbrev pub count_and_write : (Counts → Counts) → UnifiedRow F → Output F → Output F
  count_and_write count row out = record out {
    rows = out.rows ++ row ∷ [];
    counts = count out.counts;
  }

module _ (fl : Floats) (re : Regex) (str : Json fl.Float → String)
    (decode : String → Option (Json fl.Float)) (splitlines : String → List String)
    (book_number : String → Option String) where
  abbrev Script : Type 0 → Type 0
  Script A = Py (Output fl.Float) A

  -- `json.loads(line)`
  abbrev pub decoded_line : String → Result (Json fl.Float)
  decoded_line line = elim (decode line) [
    | none ↦ raised (value_error "Expecting value")
    | some row ↦ ok row
  ]

  unfoldable pub write_recipe : String → Script (Unit {0})
  unfolding ◌>>=◌ recipe_row
  write_recipe line = do
    decoded ← lift (decoded_line line)
    row ← lift (recipe_row fl re str decoded)
    modify (
        count_and_write (count_recipe (holds_texts row.ingredients_raw) (holds_texts row.steps_raw))
          row)

  -- A file that cannot be read is passed over.
  unfoldable pub write_book : TextFile → Script (Unit {0})
  unfolding ◌>>=◌ book_row
  write_book file = elim file.contents [
    | none ↦ pure tt
    | some text ↦
        modify (count_and_write count_book (book_row fl re str splitlines book_number file text))
  ]

  unfoldable pub write_context : String → Script (Unit {0})
  unfolding ◌>>=◌ context_of
  write_context line = do
    decoded ← lift (decoded_line line)
    found ← lift (context_of fl re str decoded)
    elim found [ none ↦ pure tt | some row ↦ modify (count_and_write count_context row) ]

  -- What comes back is `counts["wikipedia_dropped"]`. The file of wikipedia is opened twice.
  unfoldable pub unify : Sources → Script ℤ
  unfolding write_recipe write_book write_context for_each
  unify sources = do
    recipes ← open_lines sources.wikibooks_lines
    for_each recipes write_recipe
    for_each sources.gutenberg_files write_book
    articles ← open_lines sources.wikipedia_lines
    for_each articles write_context
    kept ← gets (λ out. out.counts.wikipedia_kept)
    pure (sub_ℕ (length articles) kept)
