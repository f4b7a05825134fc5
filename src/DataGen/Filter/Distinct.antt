-- ===== src/DataGen/Filter/Distinct.antt =====
-- data-gen/filter_clean.py: what holds of each row that is left after the deduplication.
use aihomelab.Base.{
  suc, nat_eq, String, Bool, true, false, Option, none, some, List, [], ◌∷◌, map, select, All,
  Bool-cases, ◌==◌, string_eq, ◌≡◌, refl, sym, ap, subst, ◌∙◌, inl, inr, ltb,
}
use aihomelab.Base.Text.{text_length}
use aihomelab.Base.Dict
use aihomelab.Base.Dict.{same_refl, same→≡}
use aihomelab.Base.Pairs.{Each}
use aihomelab.DataGen.Rows.{AnswerRow}
use aihomelab.DataGen.Leak.{answer_text}
use aihomelab.DataGen.Filter.{is_clean, Deduped, resolve, keep_by, dedup_row, dedup}

-- The rows whose request id is not null stand under it.
abbrev stands : String → Option String → Bool
stands key none = true
stands key (some rid) = rid == key

abbrev same_id : Option String → Option String → Bool
same_id none j = false
same_id (some i) none = false
same_id (some i) (some j) = i == j

other_id :
    (j k : String) (a b : Option String)
    → (j == k) ≡ false
    → stands j a ≡ true
    → stands k b ≡ true
    → same_id a b ≡ false
other_id j k none b other g h = refl
other_id j k (some x) none other g h = refl
other_id j k (some x) (some y) other g h =
    subst (λ i. (i == y) ≡ false) (sym (same→≡ g))
      (subst (λ i. (j == i) ≡ false) (sym (same→≡ h)) other)

module _ {F : Type 0} where
  abbrev pub IsClean : AnswerRow F → Type 0
  IsClean row = is_clean row ≡ true

  abbrev pub Good : String × AnswerRow F → Type 0
  Good (key, row) = IsClean row × (stands key row.request_id ≡ true)

  resolve-Good :
      (rid : String) (existing row : AnswerRow F)
      → Good (rid, existing)
      → Good (rid, row)
      → Good (rid, resolve existing row)
  resolve-Good rid existing row g h =
      elim (Bool-cases (ltb (text_length (answer_text existing)) (text_length (answer_text row)))) [
        | inl longer ↦ rw longer h
        | inr other ↦ rw other g
      ]

  -- One key is set.
  abbrev Sets : Deduped F → Deduped F → Type 0
  Sets d next =
      (key : String) × (value : AnswerRow F) × (next.by_id ≡ Dict.set key value d.by_id)
      × Good (key, value)

  dedup_row-Sets :
      (row : AnswerRow F) (d : Deduped F)
      → IsClean row
      → All Good d.by_id
      → Sets d (dedup_row row d)
  dedup_row-Sets row d clean good = go row.request_id refl
    where
      keep :
          (rid : String) (found : Option (AnswerRow F))
          → Good (rid, row)
          → ((existing : AnswerRow F) → found ≡ some existing → Good (rid, existing))
          → Sets d (elim found [
            | none ↦ record d { by_id = Dict.set rid row d.by_id }
            | some existing ↦ record {
              by_id = Dict.set rid (resolve existing row) d.by_id;
              n_collision = suc d.n_collision;
            }
          ])
      keep rid none g k = (rid, row, refl, g)
      keep rid (some existing) g k =
          (rid, resolve existing row, refl, resolve-Good rid existing row (k existing refl) g)

      go : (rid : Option String) → row.request_id ≡ rid → Sets d (keep_by rid row d)
      go none e = (_, row, refl, (clean, ap (stands _) e))
      go (some rid) e =
          keep rid (Dict.get rid d.by_id) (clean, ap (stands rid) e ∙ same_refl rid)
            (λ existing found. Dict.All-get Good rid d.by_id good found)

  pub dedup-Good :
      (rows : List (AnswerRow F)) (d : Deduped F)
      → All IsClean rows
      → All Good d.by_id
      → Dict.Distinct d.by_id
      → All Good (dedup rows d).by_id × Dict.Distinct (dedup rows d).by_id
  unfolding dedup
  dedup-Good [] d clean good distinct = (good, distinct)
  dedup-Good (row ∷ rows) d (c, clean) good distinct =
      let (key, value, e, g) = dedup_row-Sets row d c good in
      dedup-Good rows (dedup_row row d) clean
        (subst (All Good) (sym e) (Dict.All-set Good key value d.by_id g good))
        (subst Dict.Distinct (sym e) (Dict.set-Distinct key value d.by_id distinct))

  -- Two rows that do not have one request id.
  abbrev pub OtherId : AnswerRow F → AnswerRow F → Type 0
  OtherId a b = same_id a.request_id b.request_id ≡ false

  others :
      (p : String × AnswerRow F) (by_id : List (String × AnswerRow F))
      → Good p
      → All (λ q. (p.0 == q.0) ≡ false) by_id
      → All Good by_id
      → All (OtherId p.1) (map (λ q. q.1) by_id)
  others p [] g a good = tt
  others (j, a) ((k, b) ∷ by_id) g (other, rest) (h, good) =
      (other_id j k a.request_id b.request_id other g.1 h.1, others (j, a) by_id g rest good)

  pub values-OtherId :
      (by_id : List (String × AnswerRow F))
      → Dict.Distinct by_id
      → All Good by_id
      → Each OtherId (map (λ q. q.1) by_id)
  values-OtherId [] d good = tt
  values-OtherId (p ∷ by_id) (o, d) (g, good) =
      (others p by_id g o good, values-OtherId by_id d good)

  pub values-IsClean :
      (by_id : List (String × AnswerRow F)) → All Good by_id → All IsClean (map (λ q. q.1) by_id)
  values-IsClean [] good = tt
  values-IsClean (p ∷ by_id) (g, good) = (g.0, values-IsClean by_id good)

  -- The rows that pass a test, all of which pass it.
  pub select-All :
      (keep : AnswerRow F → Bool) (rows : List (AnswerRow F))
      → All (λ row. keep row ≡ true) (select keep rows)
  select-All keep [] = tt
  select-All keep (row ∷ rows) = elim (Bool-cases (keep row)) [
    | inl kept ↦ rw kept ((kept, select-All keep rows))
    | inr left ↦ rw left (select-All keep rows)
  ]
