-- ===== src/Tests/Unified.antt =====
-- One row of each source of pass 1, and a list article.
use aihomelab.Base.{
  ◌&&◌, ◌||◌, ℕ, ◌==◌, string_eq, nat_eq, String, Option, none, some, [], ◌∷◌, All, map,
  if◌then◌else◌, ok, ◌≡◌, refl,
}
use aihomelab.Base.Int.{pos}
use aihomelab.Parsers.Fio.{Json, string, array, nil, cons, object, member, end}
use aihomelab.DataGen.Leak.{Regex}
use aihomelab.DataGen.Unify.{Output, Sources, no_output, unify}
use aihomelab.DataGen.Unify.Schema.{IsInSchema, IsTally}
use aihomelab.DataGen.Unify.InSchema.{unify-IsOrderly}
use aihomelab.Tests.Samples.{fixed}

-- Each pattern is found in one text.
abbrev sample_re : Regex
sample_re = record {
  escape = λ s. s;
  finditer = λ pattern text.
      if text == "Ingredients" && pattern == "^\\s*ingredient[s]?[:\\s]*$"
        || text == "List of soups" && pattern == "^list of\\b"
      then (0, text) ∷ []
      else [];
}

abbrev str : Json ℕ → String
str (string s) = s
str _ = "?"

abbrev text_line : Json ℕ
text_line = object (
    member "section" (string "Ingredients")
      (member "line_type" (string "ul") (member "text" (string " 2 eggs ") end)))

abbrev recipe : Json ℕ
recipe = object (
    member "recipe_data"
      (object (
        member "title" (string "Omelette")
          (member "text_lines" (array (cons text_line (cons (string "x") nil))) end)))
      end)

abbrev decode : String → Option (Json ℕ)
decode line =
    if line == "recipe" then some recipe else some (object (member "title" (string line) end))

abbrev sources : Sources
sources = record {
  wikibooks_lines = some ("recipe" ∷ []);
  gutenberg_files =
      record {
        stem = "book-1";
        name = "book-1.txt";
        contents = some "Title: Soups";
        byte_size = 12;
      }
      ∷ record { stem = "x"; name = "x.txt"; contents = none; byte_size = 3 }
      ∷ [];
  wikipedia_lines = some ("List of soups" ∷ "Ramen" ∷ []);
}

abbrev output : Output ℕ
output = (unify fixed sample_re str decode (λ s. s ∷ []) (λ s. none) sources no_output).1

titles : map (λ r. r.title) output.rows ≡ "Omelette" ∷ "Soups" ∷ "Ramen" ∷ []
unfolding unify nat_eq string_eq
titles = refl

taken : map (λ r. r.ingredients_raw) output.rows ≡ some ("2 eggs" ∷ []) ∷ none ∷ none ∷ []
unfolding unify nat_eq string_eq
taken = refl

dropped :
    (unify fixed sample_re str decode (λ s. s ∷ []) (λ s. none) sources no_output).0 ≡ ok (pos 1)
unfolding unify nat_eq string_eq
dropped = refl

unify-IsOrderly_example : All IsInSchema output.rows × IsTally output.rows output.counts
unify-IsOrderly_example =
    unify-IsOrderly fixed sample_re str decode (λ s. s ∷ []) (λ s. none) sources
