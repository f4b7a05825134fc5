-- ===== src/DataGen/Generate/Run.antt =====
-- data-gen/generate.py: `run`, from the prompts and the rows that are there to the rows that are
-- written.
use aihomelab.Base.{
  suc, ◌-◌, String, ◌<>◌, Bool, Option, none, some, List, [], ◌∷◌, ◌++◌, map, length, string_eq,
  file_not_found, type_error, Result, ok, raised, Py, lift, modify, for_each, ◌>>=◌, if◌then◌else◌,
}
use aihomelab.Base.Attempt.{◌>>=◌ as ◌>>?◌}
use aihomelab.Base.Int.{ℤ, pos, negsuc, ltb_ℤ}
use aihomelab.Base.Slices.{take_items, unkeyed}
use aihomelab.Base.Text.{is_empty, strip}
use aihomelab.Floats.{Floats}
use aihomelab.Parsers.Fio.{Json, string, array, object, cons, member, get_member}
use aihomelab.DataGen.Generate.Request.{
  PromptRow, GeneratedRow, Decoded, decoded, malformed, unreadable,
}
use aihomelab.DataGen.Generate.Reply.{Setup, Endpoint, generate_one}

-- `xs[:n]`; below 0 it counts from the end.
abbrev pub slice_to : {A : Type 0} → ℤ → List A → List A
slice_to (pos n) xs = take_items n xs
slice_to (negsuc n) xs = take_items (length xs - suc n) xs

-- The output: its lines, and the text behind the last of them, empty if the last line is terminated.
pub record OutputFile : Type 0 where
  pub lines : List String
  pub unterminated : String

abbrev pub whole : List String → OutputFile
whole lines = record { lines = lines; unterminated = "" }

-- `for line in f`
abbrev pub lines_in : OutputFile → List String
lines_in file =
    if is_empty file.unterminated then file.lines else file.lines ++ file.unterminated ∷ []

-- `s + t`
abbrev glued : String → String → String
glued String.[] t = t
glued (String.◌∷◌ c s) t = String.◌∷◌ c s <> t

-- `write(text + "\n")` at the end: an unterminated line goes on with the text.
abbrev pub append_line : String → OutputFile → OutputFile
append_line text file = whole (file.lines ++ glued file.unterminated text ∷ [])

-- The options of the command line that decide what is written
pub record RunArgs : Type 0 where
  pub skip_completed : Bool
  pub max_requests : Option ℤ

-- `if max_requests is not None and len(prompts) > max_requests: ...`
abbrev pub capped : {A : Type 0} → Option ℤ → List A → List A
capped none prompts = prompts
capped (some m) prompts = if ltb_ℤ m (pos (length prompts)) then slice_to m prompts else prompts

module _ (fl : Floats) (loads : String → Decoded fl.Float)
    (load_prompt : String → Result (PromptRow fl.Float))
    (dumps : GeneratedRow fl.Float → String) where
  -- The lines that are not blank, of which one that does not load raises.
  unfoldable pub load_prompts : List String → Result (List (PromptRow fl.Float))
  unfolding strip
  load_prompts [] = ok []
  load_prompts (line ∷ lines) =
      if is_empty (strip line)
      then load_prompts lines
      else load_prompt (strip line) >>? λ row. load_prompts lines >>? λ rows. ok (row ∷ rows)

  -- The id that `completed_ids` gets, as far as a prompt can have it; a list or a dict is no member
  -- of a set.
  abbrev pub id_to_add : Option (Json fl.Float) → Result (List String)
  id_to_add (some (string s)) = if is_empty s then ok [] else ok (s ∷ [])
  id_to_add (some (array (cons x xs))) = raised (type_error "unhashable type: 'list'")
  id_to_add (some (object (member k v ms))) = raised (type_error "unhashable type: 'dict'")
  id_to_add _ = ok []

  unfoldable pub id_of_decoded : Decoded fl.Float → Result (List String)
  unfolding get_member
  id_of_decoded (malformed text) = ok []
  id_of_decoded (unreadable e) = raised e
  id_of_decoded (decoded row) = get_member fl "request_id" row >>? id_to_add

  unfoldable pub id_of_line : String → Result (List String)
  unfolding strip id_of_decoded
  id_of_line line = if is_empty (strip line) then ok [] else id_of_decoded (loads (strip line))

  -- `completed_ids`, of the lines of the output
  unfoldable pub completed_ids : List String → Result (List String)
  unfolding id_of_line
  completed_ids [] = ok []
  completed_ids (line ∷ lines) =
      id_of_line line >>? λ ids. completed_ids lines >>? λ more. ok (ids ++ more)

  -- The ids to skip: those of the output, if it is there and is to be completed.
  unfoldable pub ids_to_skip : RunArgs → Option OutputFile → Result (List String)
  unfolding completed_ids
  ids_to_skip args none = ok []
  ids_to_skip args (some file) =
      if args.skip_completed then completed_ids (lines_in file) else ok []

  abbrev pub remaining : List String → List (PromptRow fl.Float) → List (PromptRow fl.Float)
  remaining ids prompts = unkeyed (λ p. p.request_id) ids prompts

  -- The output when it is open, to append or to write anew
  abbrev pub opened : RunArgs → Option OutputFile → OutputFile
  opened args none = whole []
  opened args (some file) = if args.skip_completed then file else whole []

  -- The loop over the futures: it writes a row, or what the future raised ends it.
  unfoldable pub write_row : Result (GeneratedRow fl.Float) → Py OutputFile (Unit {0})
  unfolding ◌>>=◌
  write_row future = do row ← lift future; modify (append_line (dumps row))

  unfoldable pub write_rows : List (Result (GeneratedRow fl.Float)) → Py OutputFile (Unit {0})
  unfolding write_row for_each
  write_rows futures = for_each futures write_row

  -- `as_completed` gives the futures in the order of `completion`. Each step gives the outcome, and
  -- the output.
  module _ (setup : Setup fl loads) (endpoint : Endpoint fl loads)
      (completion : List (Result (GeneratedRow fl.Float)) → List (Result (GeneratedRow fl.Float)))
      (args : RunArgs) (out : Option OutputFile) where
    unfoldable pub request_all : List (PromptRow fl.Float) → Result (Unit {0}) × Option OutputFile
    unfolding generate_one write_rows
    request_all todo =
        let (outcome, written) =
          write_rows (completion (map (generate_one fl loads setup endpoint) todo))
            (opened args out) in
        (outcome, some written)

    unfoldable pub after_ids :
        List (PromptRow fl.Float) → Result (List String) → Result (Unit {0}) × Option OutputFile
    unfolding request_all
    after_ids prompts (raised e) = (raised e, out)
    after_ids prompts (ok ids) = request_all (capped args.max_requests (remaining ids prompts))

    unfoldable pub after_prompts :
        Result (List (PromptRow fl.Float)) → Result (Unit {0}) × Option OutputFile
    unfolding ids_to_skip after_ids
    after_prompts (raised e) = (raised e, out)
    after_prompts (ok prompts) = after_ids prompts (ids_to_skip args out)

    -- `run`, on the file of the prompts and the output
    unfoldable pub run : Option (List String) → Result (Unit {0}) × Option OutputFile
    unfolding load_prompts after_prompts
    run none = (raised (file_not_found "prompts"), out)
    run (some lines) = after_prompts (load_prompts lines)
