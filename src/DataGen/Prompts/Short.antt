-- ===== src/DataGen/Prompts/Short.antt =====
-- data-gen/build_prompts.py: the size and the characters of an excerpt.
use Prim.Native.String.{String}
use Prim.Native.Char.{code}
use aihomelab.Base.{
  ℕ, zero, suc, ◌+◌, ◌-◌, ◌≤◌, Bool, false, ◌||◌, ◌++◌, ok, ltb, ◌==◌, nat_eq, ◌≡◌, refl, ap, subst,
  Bool-cases, inl, inr, arith,
}
use aihomelab.Base.Attempt.{>>=-eq-ok, ok-injective}
use aihomelab.Base.Text.{is_empty, take, text_length, join}
use aihomelab.Floats.{Floats}
use aihomelab.Parsers.Fio.{Json}
use aihomelab.DataGen.Prompts.Excerpt.{
  GroundingRow, followed_by, single_quoted, max_chars, shorten, or_no_description, title_part,
  title_keys, ingredient_keys, step_keys, first_of, ingredient_part, list_or_none, one_step,
  step_part, short_grounding_excerpt,
}

abbrev pub has_quote : String → Bool
has_quote String.[] = false
has_quote (String.◌∷◌ c s) = code c == b'"' || has_quote s

length-followed_by : (s t : String) → text_length (followed_by s t) ≡ text_length s + text_length t
unfolding text_length
length-followed_by String.[] t = omega arith
length-followed_by (String.◌∷◌ c s) t = omega (arith, length-followed_by s t)

length-take : (n : ℕ) (s : String) → text_length (take n s) ≤ n
unfolding text_length take
length-take zero s = omega arith
length-take (suc n) String.[] = omega arith
length-take (suc n) (String.◌∷◌ c s) = omega (arith, length-take n s)

length-single_quoted : (s : String) → text_length (single_quoted s) ≡ text_length s
unfolding text_length
length-single_quoted String.[] = refl
length-single_quoted (String.◌∷◌ c s) = ap suc (length-single_quoted s)

has_quote-single_quoted : (s : String) → has_quote (single_quoted s) ≡ false
unfolding nat_eq
has_quote-single_quoted String.[] = refl
has_quote-single_quoted (String.◌∷◌ c s) = elim (Bool-cases (code c == b'"')) [
  | inl quote ↦ rw quote (has_quote-single_quoted s)
  | inr other ↦ rw other (rw other (has_quote-single_quoted s))
]

length-ellipsis : text_length "…" ≡ 1
unfolding text_length
length-ellipsis = refl

length-shorten : (limit : ℕ) (s : String) → 1 ≤ limit → text_length (shorten limit s) ≤ limit
unfolding shorten
length-shorten limit s some_ = elim (Bool-cases (ltb limit (text_length s))) [
  | inl long ↦
      let cut = length-take (limit - 1) s in
      let one : text_length "…" ≡ 1 = length-ellipsis in
      rw (long, length-followed_by (take (limit - 1) s) "…") (omega (arith, cut, one, some_))
  | inr short ↦ rw short (ground arith)
]

-- What holds of a text and of the one that stands for an empty one
IsPlain : String → Type 0
IsPlain s = (text_length s ≤ max_chars) × (has_quote s ≡ false) × (is_empty s ≡ false)

IsPlain-or_no_description :
    (s : String) → text_length s ≤ max_chars → has_quote s ≡ false → IsPlain (or_no_description s)
unfolding IsPlain text_length nat_eq
IsPlain-or_no_description s short plain = elim (Bool-cases (is_empty s)) [
  | inl empty ↦ rw empty (omega arith, refl, refl)
  | inr full ↦ rw full (short, plain, full)
]

-- An excerpt is not empty, has at most 350 characters and no double quote, so that the prompt can
-- put it in quotes.
pub short_grounding_excerpt-plain :
    (fl : Floats) (str : Json fl.Float → String) (row : GroundingRow fl.Float) (excerpt : String)
    → short_grounding_excerpt fl str row ≡ ok excerpt
    → (text_length excerpt ≤ 350) × (has_quote excerpt ≡ false) × (is_empty excerpt ≡ false)
unfolding short_grounding_excerpt IsPlain
short_grounding_excerpt-plain fl str row excerpt e =
    let (title, _, made) =
      >>=-eq-ok (title_part fl str (first_of fl str (title_keys fl str) row.members)) _ e in
    let parts : String = join " | " (
      title
      ++ ingredient_part fl str
          (list_or_none fl str (first_of fl str (ingredient_keys fl str) row.members))
      ++ step_part fl str (one_step fl str (first_of fl str (step_keys fl str) row.members))) in
    let cut : String = shorten max_chars parts in
    let short : text_length (single_quoted cut) ≤ max_chars =
      rw (length-single_quoted cut) (length-shorten max_chars parts (omega arith)) in
    subst IsPlain (ok-injective made)
      (IsPlain-or_no_description (single_quoted cut) short (has_quote-single_quoted cut))
