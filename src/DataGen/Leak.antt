-- ===== src/DataGen/Leak.antt =====
-- data-gen/filter_clean.py: answers that name food which their diet excludes. Regular expressions are
-- a parameter.
pub mod Diets
use aihomelab.Base.{
  ℕ, ◌+◌, ◌-◌, String, ◌<>◌, Bool, true, false, not, Option, none, some, List, [], ◌∷◌, ◌++◌, map,
  contains, any, find, is_some, if◌then◌else◌, ◌==◌, string_eq, select, ◌||◌,
}
use aihomelab.Base.Text.{lower, take, drop, join}
use aihomelab.Parsers.Fio.{Json, object, string, lookup_member}
use aihomelab.DataGen.Rows.{AnswerRow}

-- Python's `re`, with IGNORECASE: `re.escape`, and the matches of a pattern in a text, each with its
-- start and its text, as `finditer` gives them. `search` finds the first of them.
pub record Regex : Type 0 where
  pub escape : String → String
  pub finditer : String → String → List (ℕ × String)

-- `BLOCKLIST`, by the category
abbrev pub blocklist : List (String × List String)
blocklist =
    (
      "flesh",
      "chicken" ∷ "beef" ∷ "pork" ∷ "lamb" ∷ "mutton" ∷ "veal" ∷ "venison" ∷ "rabbit" ∷ "ham"
          ∷ "bacon" ∷ "prosciutto" ∷ "salami" ∷ "sausage" ∷ "pepperoni" ∷ "chorizo" ∷ "duck"
          ∷ "goose" ∷ "turkey" ∷ "quail" ∷ [],
    )
    ∷ (
      "seafood",
      "fish" ∷ "salmon" ∷ "tuna" ∷ "cod" ∷ "shrimp" ∷ "prawn" ∷ "crab" ∷ "lobster" ∷ "oyster"
          ∷ "clam" ∷ "mussel" ∷ "scallop" ∷ "anchovy" ∷ "sardine" ∷ "octopus" ∷ "squid" ∷ "mackerel"
          ∷ "trout" ∷ "halibut" ∷ "tilapia" ∷ "caviar" ∷ "roe" ∷ "bass" ∷ "perch" ∷ "snapper"
          ∷ "grouper" ∷ "mahi" ∷ "mahi-mahi" ∷ "pike" ∷ "pollock" ∷ "sole" ∷ "flounder" ∷ "herring"
          ∷ "sea bream" ∷ "sea bass" ∷ "barramundi" ∷ "tilefish" ∷ "rockfish" ∷ "crayfish"
          ∷ "crawfish" ∷ "krill" ∷ "abalone" ∷ "snail" ∷ "escargot" ∷ [],
    )
    ∷ (
      "dairy",
      "milk" ∷ "butter" ∷ "cream" ∷ "cheese" ∷ "yogurt" ∷ "yoghurt" ∷ "ghee" ∷ "whey" ∷ "casein"
          ∷ "lactose" ∷ "paneer" ∷ "buttermilk" ∷ "kefir" ∷ "mozzarella" ∷ "cheddar" ∷ "parmesan"
          ∷ "feta" ∷ "ricotta" ∷ "brie" ∷ [],
    )
    ∷ ("eggs", "egg" ∷ "eggs" ∷ "yolk" ∷ "yolks" ∷ "mayonnaise" ∷ [])
    ∷ (
      "byproducts",
      "gelatin" ∷ "rennet" ∷ "lard" ∷ "tallow" ∷ "suet" ∷ "bone broth" ∷ "fish sauce"
          ∷ "oyster sauce" ∷ "dashi" ∷ "worcestershire" ∷ "honey" ∷ [],
    )
    ∷ ("hidden", "isinglass" ∷ "carmine" ∷ "cochineal" ∷ "l-cysteine" ∷ [])
    ∷ []

abbrev pub prose_exclude_terms : List String
prose_exclude_terms = "sole" ∷ "pike" ∷ "perch" ∷ []

abbrev pub vegan_suspect_categories : List String
vegan_suspect_categories = "flesh" ∷ "seafood" ∷ "dairy" ∷ "eggs" ∷ "byproducts" ∷ "hidden" ∷ []

abbrev pub vegetarian_suspect_categories : List String
vegetarian_suspect_categories = "flesh" ∷ "seafood" ∷ []

abbrev pub substitution_cues : List String
substitution_cues =
    "instead of" ∷ "in place of" ∷ "replace" ∷ "replacing" ∷ "replacement" ∷ "substitute"
    ∷ "substituting" ∷ "substitution" ∷ "swap" ∷ "swapping" ∷ "alternative to" ∷ "alternatives to"
    ∷ "rather than" ∷ "skip the" ∷ "omit the" ∷ "without the" ∷ "instead use" ∷ "instead, use" ∷ []

abbrev pub plant_modifiers : List String
plant_modifiers =
    "almond" ∷ "almonds" ∷ "soy" ∷ "soya" ∷ "oat" ∷ "oats" ∷ "coconut" ∷ "cashew" ∷ "cashews"
    ∷ "macadamia" ∷ "hazelnut" ∷ "hemp" ∷ "rice" ∷ "pea" ∷ "peanut" ∷ "flax" ∷ "flaxseed" ∷ "chia"
    ∷ "walnut" ∷ "sunflower" ∷ "jackfruit" ∷ "tofu" ∷ "tempeh" ∷ "seitan" ∷ "chickpea" ∷ "besan"
    ∷ "gram" ∷ "lentil" ∷ "nutritional yeast" ∷ "vegan" ∷ "plant-based" ∷ "plant based" ∷ "plant"
    ∷ "non-dairy" ∷ "nondairy" ∷ "dairy-free" ∷ "dairy free" ∷ "egg-free" ∷ "eggless" ∷ "meat-free"
    ∷ "meatless" ∷ "mock" ∷ "faux" ∷ "imitation" ∷ []

abbrev pub cue_window : ℕ
cue_window = 60

abbrev pub modifier_window : ℕ
modifier_window = 20

abbrev pub fish_suffix : String
fish_suffix = "\\b\\w+fish\\b"

-- Where a term of a category stands in a text
pub record Hit : Type 0 where
  pub category : String
  pub term : String
  pub start : ℕ

module _ {F : Type 0} where
  -- `(row.get("parsed_qa") or {}).get("a") or ""`, of a row whose answer is a text.
  abbrev pub answer_text : AnswerRow F → String
  answer_text row = elim row.parsed_qa [
    | object members ↦ elim (lookup_member "a" members) [ some (string a) ↦ a | _ ↦ "" ]
    | _ ↦ ""
  ]

abbrev pub verdict : String → Option Hit → Bool × String
verdict tag none = (false, "")
verdict tag (some hit) = (true, tag <> (":" <> (hit.category <> (":" <> hit.term))))

module _ (re : Regex) where
  abbrev pub found : String → String → Bool
  found pattern text = elim (re.finditer pattern text) [ [] ↦ false | match ∷ rest ↦ true ]

  -- A term as a word of its own
  abbrev pub word : String → String
  word term = "\\b" <> (re.escape term <> "\\b")

  -- `CUE_RE` and `MODIFIER_RE`
  abbrev pub cue : String
  cue = join "|" (map re.escape substitution_cues)

  abbrev pub modifier : String
  modifier = join "|" (map word plant_modifiers)

  unfoldable pub hits_of_terms : String → String → List String → List Hit
  hits_of_terms text category [] = []
  hits_of_terms text category (term ∷ terms) =
      let rest = hits_of_terms text category terms in
      if contains term prose_exclude_terms
      then rest
      else map (λ m. record { category = category; term = term; start = m.0 })
          (re.finditer (word term) text)
        ++ rest

  -- `COMPILED_BLOCKLIST[category]`
  abbrev pub terms_of : String → List (String × List String) → List String
  terms_of category [] = []
  terms_of category ((name, terms) ∷ rest) =
      let later = terms_of category rest in if name == category then terms else later

  unfoldable pub hits_of_categories : String → List String → List Hit
  unfolding hits_of_terms
  hits_of_categories text [] = []
  hits_of_categories text (category ∷ categories) =
      hits_of_terms text category (terms_of category blocklist)
      ++ hits_of_categories text categories

  unfoldable pub fish_hits : String → List Hit
  fish_hits text =
      map (λ m. record { category = "seafood"; term = m.1; start = m.0 })
        (select (λ m. not (m.1 == "fish")) (re.finditer fish_suffix text))

  unfoldable pub term_hits : String → List String → List Hit
  unfolding hits_of_categories fish_hits
  term_hits text categories =
      hits_of_categories text categories
      ++ (if contains "seafood" categories then fish_hits text else [])

  -- `text[max(0, idx - 60) : min(len(text), idx + 60)]` and `text[max(0, idx - 20) : idx]`
  unfoldable pub is_exonerated_near : String → ℕ → Bool
  is_exonerated_near text idx =
      found cue (take (idx + cue_window - (idx - cue_window)) (drop (idx - cue_window) text))
      || found modifier (take (idx - (idx - modifier_window)) (drop (idx - modifier_window) text))

  abbrev pub is_leak : String → Hit → Bool
  is_leak text hit = not (is_exonerated_near text hit.start)

  -- The first hit that nothing near it exonerates
  abbrev pub first_leak : String → String → List String → Bool × String
  first_leak tag text categories = verdict tag (find (is_leak text) (term_hits text categories))

  module _ {F : Type 0} where
    unfoldable pub flag_leakage : AnswerRow F → Bool × String
    unfolding term_hits is_exonerated_near
    flag_leakage row =
        let text = lower (answer_text row) in
        elim row.dietary_preference [
          | none ↦ (false, "")
          | some diet ↦
              if diet == "vegan"
              then first_leak "vegan" text vegan_suspect_categories
              else if diet == "vegetarian"
              then first_leak "vegetarian" text vegetarian_suspect_categories
              else (false, "")
        ]
