-- ===== src/Tests/Prompting.antt =====
-- A prompt from two rows.
use aihomelab.Base.{
  select, ◌==◌, ℕ, suc, ◌≤◌, ◌%◌, String, false, List, [], ◌∷◌, map, length, All, ok, ◌≡◌, refl,
  arith, nat_eq, string_eq,
}
use aihomelab.Base.Int.{pos, ◌+ℤ◌}
use aihomelab.Base.Pairs.{Each}
use aihomelab.Base.Slices.{Differ, take_items}
use aihomelab.Base.Text.{is_empty, text_length}
use aihomelab.Parsers.Fio.{Json, string, array, nil, cons, Members, member, end}
use aihomelab.DataGen.Generate.{PromptRow}
use aihomelab.DataGen.Generate.Resume.{HasId}
use aihomelab.DataGen.Teacher.{range_from}
use aihomelab.DataGen.Prompts.{Rng, Pools, pools_of, id_of_number, build, short_grounding_excerpt}
use aihomelab.DataGen.Prompts.Ids.{build-ids}
use aihomelab.DataGen.Prompts.Diets.{IsAdapted, is_adaptation, build-IsAdapted}
use aihomelab.DataGen.Prompts.Short.{has_quote, short_grounding_excerpt-plain}
use aihomelab.Tests.Samples.{fixed}

-- A counter in place of random numbers
abbrev counter : Rng ℕ
counter = record {
  State = ℕ;
  random = λ s. (s % 1048576, suc s);
  randrange = λ n s. (s % n, suc s);
  sample = λ xs k s. (take_items k xs, suc s);
}

abbrev str : Json ℕ → String
str (string s) = s
str _ = "?"

abbrev recipe : String → Members ℕ
recipe tag = member "title" (string "Paneer \"butter\" masala") (
    member "ingredients_raw"
      (array (cons (string "200 g paneer") (cons (string "1 tbsp butter") nil)))
      (member "diet_tag" (string tag) end))

abbrev pools : Pools ℕ
pools =
    pools_of fixed str (recipe "vegetarian" ∷ recipe "non_vegetarian" ∷ []) (recipe "vegan" ∷ [])

abbrev turns : List (String × String)
turns = ("substitution", "s") ∷ ("adaptation", "a") ∷ ("constraint_cooking", "c") ∷ []

abbrev rows : List (PromptRow ℕ)
rows =
    (build fixed str counter (λ turn placeholders. ok turn) turns (("vegan", 1048576) ∷ []) pools
      (λ x. pos 0) (pos 2) 0 0).1

two_rows : length rows ≡ 2
unfolding build nat_eq string_eq pools_of ◌+ℤ◌
two_rows = refl

build-ids_example :
    (map (λ p. p.request_id) rows ≡ map id_of_number (range_from 1 (length rows)))
    × All HasId rows
    × Each (Differ (λ p. p.request_id)) rows
build-ids_example =
    build-ids fixed str counter (λ turn placeholders. ok turn) turns (("vegan", 1048576) ∷ []) pools
      (λ x. pos 0) (pos 2) 0 0 rows refl (omega (arith, two_rows))

abbrev excerpt : String
excerpt = "Paneer 'butter' masala | Ingredients: 200 g paneer, 1 tbsp butter"

short_grounding_excerpt-plain_example :
    (text_length excerpt ≤ 350) × (has_quote excerpt ≡ false) × (is_empty excerpt ≡ false)
unfolding short_grounding_excerpt nat_eq string_eq
short_grounding_excerpt-plain_example =
    short_grounding_excerpt-plain fixed str (record { members = recipe "vegan"; orig_idx = 0 })
      excerpt refl

abbrev rows_at_adaptation : List (PromptRow ℕ)
rows_at_adaptation =
    (build fixed str counter (λ turn placeholders. ok turn) turns (("vegan", 1048576) ∷ []) pools
      (λ x. pos 0) (pos 1) 0 174763).1

-- At this state the counter picks the template adaptation.
build-IsAdapted_example :
    All
      (IsAdapted fixed str
        (recipe "vegetarian" ∷ recipe "non_vegetarian" ∷ [])
        (recipe "vegan" ∷ [])
        counter
        (λ turn placeholders. ok turn))
      (select
        (is_adaptation fixed str
          (recipe "vegetarian" ∷ recipe "non_vegetarian" ∷ [])
          (recipe "vegan" ∷ [])
          counter
          (λ turn placeholders. ok turn))
        rows_at_adaptation)
build-IsAdapted_example =
    build-IsAdapted fixed str (recipe "vegetarian" ∷ recipe "non_vegetarian" ∷ [])
      (recipe "vegan" ∷ []) counter (λ turn placeholders. ok turn) turns (("vegan", 1048576) ∷ [])
      (λ x. pos 0) (pos 1) 0 174763

one_adaptation : length (select (λ p. p.template == "adaptation") rows_at_adaptation) ≡ 1
unfolding build nat_eq string_eq pools_of ◌+ℤ◌
one_adaptation = refl
