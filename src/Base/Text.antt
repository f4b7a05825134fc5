-- ===== src/Base/Text.antt =====
-- The methods of Python's `str` that the harness calls, over the native `String`.
use Prim.Native.Nat.{ℕ, zero, suc, ◌+◌, ◌-◌, ◌*◌, ◌/◌, ◌%◌}
use Prim.Native.Char.{Char, code}
use Prim.Native.String.{String, ◌++◌ as ◌<>◌}
use mathlib.Core.Path.{◌≡◌, refl}
use mathlib.Core.Bool.{Bool, true, false, not, ◌&&◌, ◌||◌}
use mathlib.Core.Option.{Option, none, some}
use mathlib.Core.List.{List, [], ◌∷◌, map}
use text.Mathlib.Text.{starts_with}
use aihomelab.Base.Tests.{ltb, leb, if◌then◌else◌, ◌==◌, nat_eq, string_eq}
use aihomelab.Base.Int.{ℤ, pos, negsuc}

-- `str.isspace` of one character.
unfoldable pub is_space : ℕ → Bool
is_space c =
    leb 9 c && leb c 13
    || leb 28 c && leb c 32
    || (c == 133 || c == 160 || c == 5760)
    || leb 8192 c && leb c 8202
    || (c == 8232 || c == 8233 || c == 8239 || c == 8287 || c == 12288)

abbrev pub is_empty : String → Bool
is_empty String.[] = true
is_empty (String.◌∷◌ c s) = false

-- A text argument that may be None or empty, as `if x` and `x or y` read it.
abbrev pub given : Option String → Option String
given none = none
given (some s) = if is_empty s then none else some s

unfoldable pub lstrip_by : (ℕ → Bool) → String → String
lstrip_by p String.[] = String.[]
lstrip_by p (String.◌∷◌ c s) =
    let rest = lstrip_by p s in if p (code c) then rest else String.◌∷◌ c s

unfoldable pub rstrip_by : (ℕ → Bool) → String → String
rstrip_by p String.[] = String.[]
rstrip_by p (String.◌∷◌ c s) =
    let rest = rstrip_by p s in if is_empty rest && p (code c) then String.[] else String.◌∷◌ c rest

-- `s.strip()`
unfoldable pub strip : String → String
unfolding is_space lstrip_by rstrip_by
strip s = rstrip_by is_space (lstrip_by is_space s)

-- `s.rstrip("/")`
unfoldable pub rstrip_slash : String → String
unfolding rstrip_by
rstrip_slash s = rstrip_by (λ c. c == b'/') s

abbrev translate : String → String → Char → Char
translate (String.◌∷◌ a s) (String.◌∷◌ b t) c = if code a == code c then b else translate s t c
translate _ _ c = c

-- `s.lower()` on ASCII text; other letters are kept.
unfoldable pub lower : String → String
lower String.[] = String.[]
lower (String.◌∷◌ c s) =
    String.◌∷◌ (translate "ABCDEFGHIJKLMNOPQRSTUVWXYZ" "abcdefghijklmnopqrstuvwxyz" c) (lower s)

-- The last character as a text, and the text before it: `s[-1]` and `s[:-1]`.
unfoldable pub split_last : String → Option (String × String)
split_last String.[] = none
split_last (String.◌∷◌ c s) = elim (split_last s) [
  | none ↦ some (String.[], String.◌∷◌ c String.[])
  | some (init, last) ↦ some (String.◌∷◌ c init, last)
]

-- `s[:n]`
unfoldable pub take : ℕ → String → String
take zero s = String.[]
take (suc n) String.[] = String.[]
take (suc n) (String.◌∷◌ c s) = String.◌∷◌ c (take n s)

-- `s[n:]` and `len(s)`
unfoldable pub drop : ℕ → String → String
drop zero s = s
drop (suc n) String.[] = String.[]
drop (suc n) (String.◌∷◌ c s) = drop n s

unfoldable pub text_length : String → ℕ
text_length String.[] = 0
text_length (String.◌∷◌ c s) = suc (text_length s)

-- `part in s`
unfoldable pub is_within : String → String → Bool
is_within part String.[] = is_empty part
is_within part (String.◌∷◌ c s) =
    let later = is_within part s in starts_with (String.◌∷◌ c s) part || later

-- `sep.join(parts)`
unfoldable pub join : String → List String → String
join sep [] = ""
join sep (x ∷ []) = x
join sep (x ∷ y ∷ rest) = x <> (sep <> join sep (y ∷ rest))

abbrev digit : ℕ → String
digit zero = "0"
digit (suc zero) = "1"
digit (suc (suc zero)) = "2"
digit (suc (suc (suc zero))) = "3"
digit (suc (suc (suc (suc zero)))) = "4"
digit (suc (suc (suc (suc (suc zero))))) = "5"
digit (suc (suc (suc (suc (suc (suc zero)))))) = "6"
digit (suc (suc (suc (suc (suc (suc (suc zero))))))) = "7"
digit (suc (suc (suc (suc (suc (suc (suc (suc zero)))))))) = "8"
digit _ = "9"

-- Decimal digits, last one first; a number has fewer digits than the fuel.
emit : ℕ → ℕ → String → String
emit zero n out = out
emit (suc fuel) n out =
    let d = digit (n % 10) <> out in elim (ltb n 10) [ true ↦ d | false ↦ emit fuel (n / 10) d ]

-- `str(n)` of a natural number, and of any integer.
unfoldable pub show_ℕ : ℕ → String
unfolding emit
show_ℕ n = emit (suc n) n ""

unfoldable pub show : ℤ → String
unfolding show_ℕ
show (pos n) = show_ℕ n
show (negsuc n) = "-" <> show_ℕ (suc n)

-- Digits with single underscores between them; the flag tells that a digit came last.
scan_digits : String → ℕ → Bool → Option ℕ
scan_digits String.[] n after_digit = if after_digit then some n else none
scan_digits (String.◌∷◌ c s) n after_digit =
    let is_digit = leb b'0' (code c) && leb (code c) b'9' in
    let rest = scan_digits s (if is_digit then n * 10 + (code c - b'0') else n) is_digit in
    if is_digit || (code c == b'_' && after_digit) then rest else none

abbrev negate : ℕ → ℤ
negate zero = pos 0
negate (suc n) = negsuc n

abbrev signed : Bool → Option ℕ → Option ℤ
signed minus none = none
signed true (some n) = some (negate n)
signed false (some n) = some (pos n)

scan_int : String → Option ℤ
unfolding scan_digits
scan_int String.[] = none
scan_int (String.◌∷◌ c s) =
    if code c == b'-'
    then signed true (scan_digits s 0 false)
    else if code c == b'+'
    then signed false (scan_digits s 0 false)
    else signed false (scan_digits (String.◌∷◌ c s) 0 false)

-- `int(s)` on ASCII digits; `none` is its ValueError.
unfoldable pub parse_int : String → Option ℤ
unfolding scan_int strip
parse_int s = scan_int (strip s)

-- Byte order of UTF-8 texts, which is the order of their code points (SQLite's BINARY collation).
unfoldable pub text_lt : String → String → Bool
text_lt s String.[] = false
text_lt String.[] (String.◌∷◌ d t) = true
text_lt (String.◌∷◌ c s) (String.◌∷◌ d t) =
    if ltb (code c) (code d) then true else if code c == code d then text_lt s t else false

-- `shlex.quote(s)`: a text of safe characters is kept, any other is put in single quotes.
is_safe : ℕ → Bool
is_safe c =
    leb b'0' c && leb c b'9'
    || leb b'A' c && leb c b'Z'
    || leb b'a' c && leb c b'z'
    || (c == b'_' || c == b'@' || c == b'%' || c == b'+' || c == b'=')
    || (c == b':' || c == b',' || c == b'.' || c == b'/' || c == b'-')

all_safe : String → Bool
all_safe String.[] = true
all_safe (String.◌∷◌ c s) = is_safe (code c) && all_safe s

quote_quotes : String → String
quote_quotes String.[] = ""
quote_quotes (String.◌∷◌ c s) =
    (if code c == b'\'' then "'\"'\"'" else String.◌∷◌ c "") <> quote_quotes s

unfoldable pub quote : String → String
unfolding is_safe all_safe quote_quotes
quote s = if is_empty s then "''" else if all_safe s then s else "'" <> (quote_quotes s <> "'")

-- `repr(s)`: single quotes, unless the text holds those and no double quotes. Characters that are
-- not printable are kept as they are, but for the three with an escape of their own.
holds : ℕ → String → Bool
holds c String.[] = false
holds c (String.◌∷◌ d s) = code d == c || holds c s

escape : ℕ → String → String
escape quote String.[] = ""
escape quote (String.◌∷◌ c s) =
    (if code c == b'\\'
      then "\\\\"
      else if code c == 10
      then "\\n"
      else if code c == 13
      then "\\r"
      else if code c == 9
      then "\\t"
      else if code c == quote
      then "\\" <> String.◌∷◌ c ""
      else String.◌∷◌ c "")
    <> escape quote s

unfoldable pub repr : String → String
unfolding holds escape
repr s =
    if holds b'\'' s && not (holds b'"' s)
    then "\"" <> (escape b'"' s <> "\"")
    else "'" <> (escape b'\'' s <> "'")

-- `str` of a list of texts.
unfoldable pub repr_list : List String → String
unfolding repr join
repr_list names = "[" <> (join ", " (map repr names) <> "]")

-- `a / b` on paths: an absolute right side wins, and "." adds nothing.
infixl 60 ◌</>◌
unfoldable pub ◌</>◌ : String → String → String
a </> b =
    if starts_with b "/" || (a == "." || a == "")
    then b
    else if b == "." || b == ""
    then a
    else rstrip_slash a <> ("/" <> b)

repr_sample : repr_list ("a" ∷ "it's" ∷ []) ≡ "['a', \"it's\"]"
unfolding repr_list nat_eq
repr_sample = refl

show_sample : show (negsuc 119) ≡ "-120"
unfolding show
show_sample = refl

parse_int_sample : parse_int " 1_024\n" ≡ some (pos 1024)
unfolding parse_int nat_eq
parse_int_sample = refl

lower_sample : lower "2TiB" ≡ "2tib"
unfolding lower nat_eq
lower_sample = refl

split_last_sample : split_last "2t" ≡ some ("2", "t")
unfolding split_last
split_last_sample = refl

rstrip_sample : rstrip_slash "/a/b//" ≡ "/a/b"
unfolding rstrip_slash nat_eq
rstrip_sample = refl
