-- ===== src/DataGen/Unify/InSchema.antt =====
-- data-gen/pass1_schema_unify.py: every row that `main` writes is in the schema and counted.
use aihomelab.Base.{
  String, Option, none, some, List, [], All, Bool-cases, inl, inr, ok, pure, lift, gets, modify,
  for_each, ◌≡◌, refl, subst, Keeps, Keeps-bind, Keeps-bind_returned, Keeps-lift, Keeps-modify,
  Keeps-pure, Keeps-gets, Keeps-raise, Keeps-for_each,
}
use aihomelab.Base.Attempt.{>>=-eq-ok, ok-injective}
use aihomelab.Floats.{Floats}
use aihomelab.Parsers.Fio.{Json, array, nil, object, end, get_member, get_or}
use aihomelab.DataGen.Leak.{Regex}
use aihomelab.DataGen.Unify.Extract.{
  structured_recipe, UnifiedRow, TextFile, iterated, collect_lines, stripped_text, recipe_metadata,
  recipe_row, book_row, is_list, context_row, members_or_none, context_of,
}
use aihomelab.DataGen.Unify.Run.{
  Output, Sources, open_lines, no_output, holds_texts, count_recipe, count_book, count_context,
  count_and_write, decoded_line, write_recipe, write_book, write_context, unify,
}
use aihomelab.DataGen.Unify.Collected.{collect_lines-AllFilled}
use aihomelab.DataGen.Unify.Schema.{Fits, IsInSchema, IsTally, IsOrderly, written-IsOrderly}

module _ (fl : Floats) (re : Regex) (str : Json fl.Float → String) where
  recipe_row-Fits :
      (decoded : Json fl.Float) {row : UnifiedRow fl.Float}
      → recipe_row fl re str decoded ≡ ok row
      → (row.content_type ≡ structured_recipe) × Fits structured_recipe row
  unfolding recipe_row
  recipe_row-Fits decoded e =
      let (rd, _, e₁) = >>=-eq-ok (get_or fl "recipe_data" (object end) decoded) _ e in
      let (infobox, _, e₂) = >>=-eq-ok (get_or fl "infobox" (object end) rd) _ e₁ in
      let (text_lines, _, e₃) = >>=-eq-ok (get_or fl "text_lines" (array nil) rd) _ e₂ in
      let (lines, _, e₄) = >>=-eq-ok (iterated text_lines) _ e₃ in
      let (sections, took, e₅) =
        >>=-eq-ok
          (collect_lines fl re str lines (record { ingredient_texts = []; step_texts = [] })) _
          e₄ in
      let (filename, _, e₆) = >>=-eq-ok (get_member fl "filename" decoded) _ e₅ in
      let (title, _, e₇) = >>=-eq-ok (stripped_text fl re str "title" rd) _ e₆ in
      let (url, _, e₈) = >>=-eq-ok (get_member fl "url" rd) _ e₇ in
      let (metadata, _, e₉) = >>=-eq-ok (recipe_metadata fl re str infobox filename) _ e₈ in
      subst (λ r. (r.content_type ≡ structured_recipe) × Fits structured_recipe r) (ok-injective e₉)
        (
          refl,
          (
            refl,
            refl,
            refl,
            (sections, refl, refl, collect_lines-AllFilled fl re str lines _ took (tt, tt)),
          ),
        )

  module _ (decode : String → Option (Json fl.Float)) (splitlines : String → List String)
      (book_number : String → Option String) where
    write_recipe-IsOrderly :
        (line : String)
        → Keeps IsOrderly (write_recipe fl re str decode splitlines book_number line)
    unfolding write_recipe
    write_recipe-IsOrderly line =
        Keeps-bind (lift (decoded_line fl re str decode splitlines book_number line)) _
          (Keeps-lift (decoded_line fl re str decode splitlines book_number line))
          λ decoded.
            Keeps-bind_returned (lift (recipe_row fl re str decoded)) _
              (Keeps-lift (recipe_row fl re str decoded))
              λ _ row returned.
                let (type, fits) = recipe_row-Fits decoded returned in
                Keeps-modify
                  (count_and_write
                    (count_recipe (holds_texts row.ingredients_raw) (holds_texts row.steps_raw))
                    row)
                  λ out orderly.
                    written-IsOrderly row out
                      (count_recipe (holds_texts row.ingredients_raw) (holds_texts row.steps_raw))
                      (rw type refl) (rw type fits) orderly

    write_book-IsOrderly :
        (file : TextFile)
        → Keeps IsOrderly (write_book fl re str decode splitlines book_number file)
    unfolding write_book book_row
    write_book-IsOrderly file = go file.contents
      where
        go :
            (contents : Option String)
            → Keeps (IsOrderly {F = fl.Float}) (elim contents [
              | none ↦ pure tt
              | some text ↦
                  modify (
                    count_and_write count_book
                      (book_row fl re str splitlines book_number file text))
            ])
        go none = Keeps-pure tt
        go (some text) = Keeps-modify _ λ out orderly.
            written-IsOrderly (book_row fl re str splitlines book_number file text) out count_book
              refl (refl, refl, refl, refl, (text, refl)) orderly

    context_of-context_row :
        (decoded : Json fl.Float) {row : UnifiedRow fl.Float}
        → context_of fl re str decoded ≡ ok (some row)
        → (title : String) × (context_row fl re str title (members_or_none fl re str decoded) ≡ row)
    unfolding context_of
    context_of-context_row decoded e =
        let (title, _, e₁) = >>=-eq-ok (stripped_text fl re str "title" decoded) _ e in
        (
          title,
          elim (Bool-cases (is_list fl re str title)) [
            | inl listed ↦ let never = (rw listed at e₁) in absurd cc
            | inr kept ↦ let here = (rw kept at e₁) in cc
          ],
        )

    write_context-IsOrderly :
        (line : String)
        → Keeps IsOrderly (write_context fl re str decode splitlines book_number line)
    unfolding write_context
    write_context-IsOrderly line =
        Keeps-bind (lift (decoded_line fl re str decode splitlines book_number line)) _
          (Keeps-lift (decoded_line fl re str decode splitlines book_number line))
          λ decoded.
            Keeps-bind_returned (lift (context_of fl re str decoded)) _
              (Keeps-lift (context_of fl re str decoded))
              λ _ found returned. go decoded found returned
      where
        go :
            (decoded : Json fl.Float) (found : Option (UnifiedRow fl.Float))
            → context_of fl re str decoded ≡ ok found
            → Keeps (IsOrderly {F = fl.Float}) (elim found [
              | none ↦ pure tt
              | some row ↦ modify (count_and_write count_context row)
            ])
        go decoded none e = Keeps-pure tt
        go decoded (some row) e =
            let (title, same) = context_of-context_row decoded e in
            Keeps-modify (count_and_write count_context row) (
              subst
                (λ r.
                  (out : Output fl.Float)
                  → IsOrderly out
                  → IsOrderly (count_and_write count_context r out))
                same
                λ out orderly.
                  written-IsOrderly
                    (context_row fl re str title (members_or_none fl re str decoded)) out
                    count_context refl (refl, refl, refl, refl) orderly)

    open_lines-IsOrderly :
        (file : Option (List String)) → Keeps {S = Output fl.Float} IsOrderly (open_lines file)
    open_lines-IsOrderly none = Keeps-raise _
    open_lines-IsOrderly (some lines) = Keeps-pure lines

    unify-Keeps :
        (sources : Sources)
        → Keeps IsOrderly (unify fl re str decode splitlines book_number sources)
    unfolding unify
    unify-Keeps sources =
        Keeps-bind (open_lines sources.wikibooks_lines) _
          (open_lines-IsOrderly sources.wikibooks_lines)
          λ recipes.
            Keeps-bind (for_each recipes (write_recipe fl re str decode splitlines book_number)) _
              (Keeps-for_each recipes _ write_recipe-IsOrderly)
              λ _.
                Keeps-bind
                  (for_each sources.gutenberg_files
                    (write_book fl re str decode splitlines book_number))
                  _ (Keeps-for_each sources.gutenberg_files _ write_book-IsOrderly)
                  λ _.
                    Keeps-bind (open_lines sources.wikipedia_lines) _
                      (open_lines-IsOrderly sources.wikipedia_lines)
                      λ articles.
                        Keeps-bind
                          (for_each articles
                            (write_context fl re str decode splitlines book_number))
                          _ (Keeps-for_each articles _ write_context-IsOrderly)
                          λ _.
                            Keeps-bind (gets (λ out. out.counts.wikipedia_kept)) _
                              (Keeps-gets (λ out. out.counts.wikipedia_kept)) (λ kept. Keeps-pure _)

    -- Whether the script comes to its end or an exception ends it: every row that is written is in the
    -- schema of its content type: its source and its license, the members that are null, lists without
    -- empty texts for a structured recipe, and a text for a book. And each count is what counting the
    -- rows written gives, for the sources by their content type.
    pub unify-IsOrderly :
        (sources : Sources)
        → All IsInSchema (unify fl re str decode splitlines book_number sources no_output).1.rows
          × IsTally
              (unify fl re str decode splitlines book_number sources no_output).1.rows
              (unify fl re str decode splitlines book_number sources no_output).1.counts
    unify-IsOrderly sources =
        (unify-Keeps sources).at no_output (tt, (refl, refl, refl, refl, refl, refl))
