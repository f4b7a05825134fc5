-- ===== src/DataGen/Prompts/Numbers.antt =====
-- data-gen/build_prompts.py: the number that a request id is made of can be read off it.
use Prim.Native.String.{String}
use Prim.Native.Char.{Char, code}
use aihomelab.Base.{
  ℕ, zero, suc, ◌+◌, ◌-◌, ◌*◌, ◌/◌, ◌%◌, ◌<◌, true, false, ltb, ◌==◌, string_eq, ◌≡◌, refl, sym, ap,
  ◌∙◌, Bool-cases, inl, inr, arith,
}
use aihomelab.Base.Dict.{same→≡}
use aihomelab.Base.Text.{is_empty}
use aihomelab.DataGen.Prompts.Build.{digit_char, six_digits, id_of_number}

value : Char → ℕ
value c = code c - 48

value-digit_char : (d : ℕ) → d < 10 → value (digit_char d) ≡ d
unfolding value
value-digit_char zero h = refl
value-digit_char (suc zero) h = refl
value-digit_char (suc (suc zero)) h = refl
value-digit_char (suc (suc (suc zero))) h = refl
value-digit_char (suc (suc (suc (suc zero)))) h = refl
value-digit_char (suc (suc (suc (suc (suc zero))))) h = refl
value-digit_char (suc (suc (suc (suc (suc (suc zero)))))) h = refl
value-digit_char (suc (suc (suc (suc (suc (suc (suc zero))))))) h = refl
value-digit_char (suc (suc (suc (suc (suc (suc (suc (suc zero)))))))) h = refl
value-digit_char (suc (suc (suc (suc (suc (suc (suc (suc (suc zero))))))))) h = refl
value-digit_char (suc (suc (suc (suc (suc (suc (suc (suc (suc (suc n)))))))))) h =
    absurd (omega (arith, h))

-- The number that six digits behind the prefix read as
read_digits : ℕ → String → ℕ
read_digits acc String.[] = acc
read_digits acc (String.◌∷◌ c s) = read_digits (acc * 10 + value c) s

tail : String → String
tail String.[] = String.[]
tail (String.◌∷◌ c s) = s

number_of : String → ℕ
number_of id = read_digits 0 (tail (tail (tail (tail id))))

-- The id tells the number that it was made of.
number_of-id_of_number : (n : ℕ) → n < 1000000 → number_of (id_of_number n) ≡ n
unfolding number_of id_of_number six_digits read_digits tail
number_of-id_of_number n small =
    let is_small : ltb n 1000000 ≡ true = ground arith in
    rw
      (
        is_small,
        value-digit_char (n / 100000) (omega (arith, small)),
        value-digit_char (n / 10000 % 10) (omega arith),
        value-digit_char (n / 1000 % 10) (omega arith),
        value-digit_char (n / 100 % 10) (omega arith),
        value-digit_char (n / 10 % 10) (omega arith),
        value-digit_char (n % 10) (omega arith),
      )
      (omega arith)

pub ids_differ :
    (m n : ℕ) → m < 1000000 → n < 1000000 → n < m → (id_of_number m == id_of_number n) ≡ false
ids_differ m n hm hn less = elim (Bool-cases (id_of_number m == id_of_number n)) [
  | inl same ↦
      let back : m ≡ n =
        sym (number_of-id_of_number m hm)
        ∙ ap number_of (same→≡ same)
        ∙ number_of-id_of_number n hn in
      absurd (omega (arith, back, less))
  | inr differ ↦ differ
]

pub id_of_number-not_empty : (n : ℕ) → is_empty (id_of_number n) ≡ false
unfolding id_of_number
id_of_number-not_empty n = refl
