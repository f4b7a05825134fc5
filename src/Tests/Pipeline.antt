-- ===== src/Tests/Pipeline.antt =====
-- The steps of data-gen on a few rows.
use mathlib.Core.List.{Perm}
use mathlib.Core.List.Perm
use aihomelab.Base.Int.{ℤ, pos}
use aihomelab.Base.Text.{join, strip, text_length}
use aihomelab.Base.Dict
use aihomelab.Base.{
  ok, ℕ, String, true, false, Option, none, some, List, [], ◌∷◌, map, length, All, string_eq,
  nat_eq, ◌==◌, if◌then◌else◌, ◌≡◌, refl, ◌+◌, ◌≤◌,
}
use aihomelab.Parsers.Fio.{null, object, string, member, end}
use aihomelab.Base.Pairs.{Each}
use aihomelab.DataGen.Rows.{ChatRow, AnswerRow}
use aihomelab.DataGen.Lines.{finished, pool}
use aihomelab.DataGen.Classify.{classify_structured, non_vegetarian}
use aihomelab.DataGen.Classify.Worst.{worst, classify_structured-worst}
use aihomelab.DataGen.Shards.{split_prompts}
use aihomelab.DataGen.Shards.Interleave.{interleave, split_prompts-interleave}
use aihomelab.DataGen.Leak.{Regex, flag_leakage}
use aihomelab.DataGen.Leak.Diets.{flag_leakage-diets}
use aihomelab.DataGen.Filter.{FilterArgs, filter_clean, dedup, flag}
use aihomelab.DataGen.Filter.Distinct.{IsClean, OtherId}
use aihomelab.DataGen.Filter.Clean.{IsKept, Asked, deduped_of, filter_clean-eq-finished}
use aihomelab.DataGen.Filter.Longest.{answer_length, Best, dedup-longest}
use aihomelab.DataGen.Chat.{Converted, convert}
use aihomelab.DataGen.Chat.Complete.{IsComplete, convert-filter_clean}
use aihomelab.DataGen.Split.{SplitRows, Fractions, written, split_dataset}
use aihomelab.DataGen.Split.Leakage.{IsSeparate}
use aihomelab.DataGen.Split.Partition.{all_rows, split_dataset-Partition}
use aihomelab.Tests.Samples.{fixed}

abbrev said : String → Option ℤ → ChatRow
said id gid = record {
  user = "q";
  assistant = "a";
  dietary_preference = some "vegan";
  template = some "adaptation";
  cuisine = none;
  grounding_row_id = gid;
  leakage_suspect = false;
  request_id = some id;
}

abbrev shares : Fractions fixed
shares = record { train_fraction = 900; val_fraction = 50; test_fraction = 50 }

abbrev later_rows : List ChatRow
later_rows = said "2" none ∷ said "3" (some (pos 7)) ∷ said "4" (some (pos 8)) ∷ []

split_dataset-Partition_example :
    (splits : SplitRows) × (split_dataset fixed
        (λ g. g)
        shares
        (said "1" (some (pos 7)) ∷ later_rows)
      ≡ written splits)
    × Perm (all_rows splits) (said "1" (some (pos 7)) ∷ later_rows)
    × IsSeparate splits
unfolding nat_eq
split_dataset-Partition_example =
    split_dataset-Partition fixed (λ g. g) Perm.refl shares refl (said "1" (some (pos 7)))
      later_rows

-- Chicken is found as a word, anything else is not.
abbrev finds_chicken : Regex
finds_chicken = record {
  escape = λ s. s;
  finditer = λ pattern text. if pattern == "\\bchicken\\b" then (0, "chicken") ∷ [] else [];
}

classify_structured-worst_example :
    (classify_structured finds_chicken ("1 chicken" ∷ "rice milk" ∷ [])).0
    ≡ worst (
        map
          (λ one. (classify_structured finds_chicken (one ∷ [])).0)
          ("1 chicken" ∷ "rice milk" ∷ []))
classify_structured-worst_example =
    classify_structured-worst finds_chicken "1 chicken" ("rice milk" ∷ [])

classifies : classify_structured finds_chicken ("rice milk" ∷ "1 chicken" ∷ []) ≡ (
  non_vegetarian,
  (record { category = "flesh"; term = "chicken"; ingredient = "1 chicken" }) ∷ [],
)
unfolding classify_structured string_eq nat_eq
classifies = refl

split_prompts-interleave_example :
    (interleave
        (split_prompts 0 ("a\n" ∷ "b\n" ∷ "c\n" ∷ [])).0
        (split_prompts 0 ("a\n" ∷ "b\n" ∷ "c\n" ∷ [])).1
      ≡ map strip ("a\n" ∷ "b\n" ∷ "c\n" ∷ []))
    × (length (split_prompts 0 ("a\n" ∷ "b\n" ∷ "c\n" ∷ [])).1
        ≤ length (split_prompts 0 ("a\n" ∷ "b\n" ∷ "c\n" ∷ [])).0)
    × (length (split_prompts 0 ("a\n" ∷ "b\n" ∷ "c\n" ∷ [])).0
        ≤ length (split_prompts 0 ("a\n" ∷ "b\n" ∷ "c\n" ∷ [])).1 + 1)
unfolding strip nat_eq
split_prompts-interleave_example =
    split_prompts-interleave ("a\n" ∷ "b\n" ∷ "c\n" ∷ []) (refl, (refl, (refl, tt)))

abbrev answer : String → AnswerRow ℕ
answer a = record {
  request_id = some "r1";
  template = some (string "indian_regional_dal");
  dietary_preference = some "vegetarian";
  placeholders = object (member "state" (string "Bengal") end);
  grounding_row_id = none;
  finish_reason = some "stop";
  parsed_qa = object (member "q" (string "How?") (member "a" (string a) end));
  parse_error = null;
  http_error = null;
  leakage = none;
}

flag_leakage-diets_example :
    (flag_leakage finds_chicken (record (answer "chicken") { dietary_preference = some "vegan" })).0
    ≡ true
unfolding flag_leakage string_eq join
flag_leakage-diets_example = flag_leakage-diets finds_chicken (answer "chicken") refl

abbrev two_answers : List (AnswerRow ℕ)
two_answers = answer "long" ∷ answer "longer" ∷ []

dedup-longest_example :
    All
      (λ row.
        (rid : String)
        → row.request_id ≡ some rid
        → Best rid (answer_length row) (dedup two_answers (record { by_id = []; n_collision = 0 })))
      two_answers
    × (length (dedup two_answers (record { by_id = []; n_collision = 0 })).by_id
          + (dedup two_answers (record { by_id = []; n_collision = 0 })).n_collision
        ≡ length two_answers)
dedup-longest_example = dedup-longest two_answers (refl, (refl, tt))

-- A file with two answers for one id, a blank line and a malformed one.
abbrev input : String → Option (List String)
input path = some ("long" ∷ "  " ∷ "{" ∷ "longer\n" ∷ [])

abbrev answer_in : String → Option (AnswerRow ℕ)
answer_in line = if line == "{" then none else some (answer line)

abbrev options : FilterArgs fixed finds_chicken input answer_in
options = record { inputs = "in" ∷ []; valid_ids = "ids" ∷ []; max_drop_frac = 0; strict = false }

abbrev output : List (AnswerRow ℕ)
output = (record (answer "longer") { leakage = some (true, "vegetarian:flesh:chicken") }) ∷ []

writes_output : filter_clean fixed finds_chicken input answer_in options ≡ finished output
unfolding filter_clean string_eq nat_eq strip Dict.get Dict.set text_length flag_leakage join
writes_output = refl

filter_clean-eq-finished_example :
    All IsClean output
    × Each OtherId output
    × ((pooled kept : List (AnswerRow ℕ)) × (n_malformed : ℕ) × (pool input answer_in ("in" ∷ [])
          ≡ finished (pooled, n_malformed))
        × (output ≡ map (flag fixed finds_chicken input answer_in) kept)
        × IsKept fixed finds_chicken input answer_in
            ("ids" ∷ [])
            (deduped_of fixed finds_chicken input answer_in pooled)
            kept
        × Asked fixed finds_chicken input answer_in 0
            ("ids" ∷ [])
            (deduped_of fixed finds_chicken input answer_in pooled)
            kept)
filter_clean-eq-finished_example =
    filter_clean-eq-finished fixed finds_chicken input answer_in options output writes_output

convert-filter_clean_example :
    (c : Converted) × (convert fixed output ≡ ok c) × IsComplete fixed output c
convert-filter_clean_example =
    convert-filter_clean fixed finds_chicken input answer_in options output writes_output
      (("indian_regional_dal", member "state" (string "Bengal") end, refl, refl), tt)
