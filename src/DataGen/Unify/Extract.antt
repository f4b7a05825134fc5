-- ===== src/DataGen/Unify/Extract.antt =====
-- data-gen/pass1_schema_unify.py: what each extractor makes of a line or of a book.
use aihomelab.Base.{
  String, ◌<>◌, Bool, false, ◌&&◌, Option, none, some, List, [], ◌∷◌, ◌++◌, ℕ, ◌==◌, string_eq,
  attribute_error, type_error, Result, ok, raised, if◌then◌else◌,
}
use aihomelab.Base.Attempt.{◌>>=◌}
use aihomelab.Base.Int.{pos}
use aihomelab.Base.Slices.{take_items}
use aihomelab.Base.Text.{is_empty, strip, lower, drop}
use text.Mathlib.Text.{starts_with}
use aihomelab.Floats.{Floats}
use aihomelab.Parsers.Fio.{
  Json, null, int, string, array, object, nil, Members, end, member, lookup_member, get_member,
  get_or,
}
use aihomelab.DataGen.Leak.{Regex, found}
use aihomelab.DataGen.Prompts.{list_of}

pub data ContentType : Type 0 where
  structured_recipe narrative_recipe recipe_context : ContentType

-- A row of unified.jsonl; `none` is a null.
pub record UnifiedRow (F : Type 0) : Type 0 where
  pub id : String
  pub source : String
  pub content_type : ContentType
  pub title : String
  pub ingredients_raw : Option (List String)
  pub steps_raw : Option (List String)
  pub text : Json F
  pub url : Json F
  pub license : String
  pub source_metadata : Members F

-- `ingredients_raw` and `steps_raw` of `extract_wikibooks`
pub record Sections : Type 0 where
  pub ingredient_texts : List String
  pub step_texts : List String

-- A file of the directory gutenberg: `read_text` gives none where it raises.
pub record TextFile : Type 0 where
  pub stem : String
  pub name : String
  pub contents : Option String
  pub byte_size : ℕ

-- The patterns, which are matched from the start of a text without regard to case.
abbrev pub ingredient_re : String
ingredient_re = "^\\s*ingredient[s]?[:\\s]*$"

abbrev pub procedure_re : String
procedure_re =
    "^\\s*(procedure[s]?(\\[\\d+\\])?|preparation|instruction[s]?|method|direction[s]?|step[s]?)[:\\s]*$"

abbrev pub wikipedia_list_re : String
wikipedia_list_re = "^list of\\b"

module _ {F : Type 0} where
  -- `d.get(k)`, written as a value
  abbrev pub value_or_null : Option (Json F) → Json F
  value_or_null none = null
  value_or_null (some v) = v

  abbrev pub keys_of : Members F → List (Json F)
  keys_of end = []
  keys_of (member k v ms) = string k ∷ keys_of ms

  abbrev pub characters_of : String → List (Json F)
  characters_of String.[] = []
  characters_of (String.◌∷◌ c s) = string (String.◌∷◌ c String.[]) ∷ characters_of s

  -- `for x in v`
  abbrev pub iterated : Json F → Result (List (Json F))
  iterated (array xs) = ok (list_of xs)
  iterated (object ms) = ok (keys_of ms)
  iterated (string s) = ok (characters_of s)
  iterated _ = raised (type_error "object is not iterable")

  abbrev pub is_text : String → Option (Json F) → Bool
  is_text s (some (string t)) = t == s
  is_text s _ = false

  abbrev pub stripped : Json F → Result String
  stripped (string s) = ok (strip s)
  stripped _ = raised (attribute_error "object has no attribute 'strip'")

module _ (fl : Floats) (re : Regex) (str : Json fl.Float → String) where
  abbrev J : Type 0
  J = Json fl.Float

  -- `(d.get(k) or "").strip()`
  unfoldable pub stripped_text : String → J → Result String
  unfolding get_or
  stripped_text k d = do value ← get_or fl k (string "") d; stripped value

  -- What is done with a text that is not empty.
  abbrev pub add_text : String → Option J → String → Sections → Sections
  add_text section line_type text before =
      if is_text "ul" line_type && found re ingredient_re section
      then record before { ingredient_texts = before.ingredient_texts ++ text ∷ [] }
      else if is_text "ol" line_type && found re procedure_re section
      then record before { step_texts = before.step_texts ++ text ∷ [] }
      else before

  unfoldable pub add_line : J → Sections → Result Sections
  unfolding stripped_text
  add_line (object ms) before = do
    section ← stripped_text "section" (object ms)
    text ← stripped_text "text" (object ms)
    ok (
        if is_empty text
        then before
        else add_text section (lookup_member "line_type" ms) text before)
  add_line other before = ok before

  unfoldable pub collect_lines : List J → Sections → Result Sections
  unfolding add_line
  collect_lines [] before = ok before
  collect_lines (line ∷ lines) before = do after ← add_line line before; collect_lines lines after

  -- `f"...{row.get(k, default)}"`
  abbrev pub shown_or : String → Option J → String
  shown_or default none = default
  shown_or default (some v) = str v

  abbrev pub infobox_metadata : Members fl.Float → Option J → Members fl.Float
  infobox_metadata infobox filename =
      member "infobox_category" (value_or_null (lookup_member "category" infobox)) (
        member "servings" (value_or_null (lookup_member "servings" infobox)) (
          member "time" (value_or_null (lookup_member "time" infobox)) (
            member "difficulty" (value_or_null (lookup_member "difficulty" infobox))
              (member "filename" (value_or_null filename) end))))

  -- `infobox.get`, four times
  abbrev pub recipe_metadata : J → Option J → Result (Members fl.Float)
  recipe_metadata (object infobox) filename = ok (infobox_metadata infobox filename)
  recipe_metadata _ filename = raised (attribute_error "object has no attribute 'get'")

  -- `extract_wikibooks` of one line
  unfoldable pub recipe_row : J → Result (UnifiedRow fl.Float)
  unfolding get_or get_member collect_lines stripped_text
  recipe_row row = do
    rd ← get_or fl "recipe_data" (object end) row
    infobox ← get_or fl "infobox" (object end) rd
    text_lines ← get_or fl "text_lines" (array nil) rd
    lines ← iterated text_lines
    sections ← collect_lines lines (record { ingredient_texts = []; step_texts = [] })
    filename ← get_member fl "filename" row
    title ← stripped_text "title" rd
    url ← get_member fl "url" rd
    metadata ← recipe_metadata infobox filename
    ok (record {
      id = "wikibooks::" <> shown_or "unknown" filename;
      source = "wikibooks";
      content_type = structured_recipe;
      title = title;
      ingredients_raw = some sections.ingredient_texts;
      steps_raw = some sections.step_texts;
      text = null;
      url = value_or_null url;
      license = "CC-BY-SA-4.0";
      source_metadata = metadata;
    })

  -- The first of the lines that begins with "title:" has the title.
  unfoldable pub title_of : String → List String → String
  unfolding strip lower drop
  title_of default [] = default
  title_of default (line ∷ lines) =
      let later = title_of default lines in
      if starts_with (lower (strip line)) "title:" then strip (drop 6 (strip line)) else later

  abbrev pub book_url : Option String → J
  book_url none = null
  book_url (some book_id) =
      if is_empty book_id then null else string ("https://www.gutenberg.org/ebooks/" <> book_id)

  abbrev pub text_or_null : Option String → J
  text_or_null none = null
  text_or_null (some s) = string s

  -- `extract_gutenberg` of one file that was read. `str.splitlines`, and the digits that follow "book-"
  -- at the start of a text, are parameters.
  module _ (splitlines : String → List String) (book_number : String → Option String) where
    unfoldable pub book_row : TextFile → String → UnifiedRow fl.Float
    unfolding title_of
    book_row file text = record {
      id = "gutenberg::" <> file.stem;
      source = "gutenberg";
      content_type = narrative_recipe;
      title = title_of file.stem (take_items 50 (splitlines text));
      ingredients_raw = none;
      steps_raw = none;
      text = string text;
      url = book_url (book_number file.stem);
      license = "PD-US";
      source_metadata = member "filename" (string file.name) (
          member "book_id" (text_or_null (book_number file.stem))
            (member "byte_size" (int (pos file.byte_size)) end));
    }

  abbrev pub is_list : String → Bool
  is_list title = found re wikipedia_list_re title

  abbrev pub context_row : String → Members fl.Float → UnifiedRow fl.Float
  context_row title ms = record {
    id = "wikipedia::" <> shown_or title (lookup_member "url" ms);
    source = "wikipedia";
    content_type = recipe_context;
    title = title;
    ingredients_raw = none;
    steps_raw = none;
    text = value_or_null (lookup_member "text" ms);
    url = value_or_null (lookup_member "url" ms);
    license = "CC-BY-SA-4.0";
    source_metadata = member "category" (value_or_null (lookup_member "category" ms)) end;
  }

  abbrev pub members_or_none : J → Members fl.Float
  members_or_none (object ms) = ms
  members_or_none _ = end

  -- `extract_wikipedia` of one line: none for a list article. A row that has a title is an object.
  unfoldable pub context_of : J → Result (Option (UnifiedRow fl.Float))
  unfolding stripped_text
  context_of row = do
    title ← stripped_text "title" row
    ok (if is_list title then none else some (context_row title (members_or_none row)))
