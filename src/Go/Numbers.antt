-- ===== src/Go/Numbers.antt =====
-- Signed numbers, their decimal text (`%d`), and `strconv.Atoi`.
pub mod RoundTrip
use Prim.Native.Char.{Char, code}
use Prim.Native.String.{String}
use talisman.Common.{
  ℕ, zero, suc, ◌+◌, ◌-◌, ◌*◌, ◌/◌, ◌%◌, ◌^◌, ◌<◌, ◌≡◌, refl, Bool, true, false, ◌&&◌, Option, none,
  some, ltb, leb, eqb, if◌then◌else◌,
}

-- `negsuc n` is -(n + 1).
pub data ℤ : Type 0 where
  pos : ℕ → ℤ
  negsuc : ℕ → ℤ

abbrev pub is_zero : ℤ → Bool
is_zero (pos zero) = true
is_zero (pos (suc _)) = false
is_zero (negsuc _) = false

-- The range of an `int32`.
abbrev pub InInt32 : ℤ → Type 0
InInt32 (pos n) = n < 2 ^ 31
InInt32 (negsuc n) = n < 2 ^ 31

digit_char : ℕ → Char
digit_char zero = "0"
digit_char (suc zero) = "1"
digit_char (suc (suc zero)) = "2"
digit_char (suc (suc (suc zero))) = "3"
digit_char (suc (suc (suc (suc zero)))) = "4"
digit_char (suc (suc (suc (suc (suc zero))))) = "5"
digit_char (suc (suc (suc (suc (suc (suc zero)))))) = "6"
digit_char (suc (suc (suc (suc (suc (suc (suc zero))))))) = "7"
digit_char (suc (suc (suc (suc (suc (suc (suc (suc zero)))))))) = "8"
digit_char _ = "9"

-- The digits of a number before those of `rest`; the fuel is above the number.
decimal_onto : ℕ → ℕ → String → String
decimal_onto zero n rest = rest
decimal_onto (suc f) n rest =
    let longer = decimal_onto f (n / 10) (String.◌∷◌ (digit_char (n % 10)) rest) in
    if ltb n 10 then String.◌∷◌ (digit_char n) rest else longer

pub decimal : ℕ → String
decimal n = decimal_onto (suc n) n ""

-- `%d`
unfoldable pub sprint_int : ℤ → String
unfolding decimal decimal_onto digit_char
sprint_int (pos n) = decimal n
sprint_int (negsuc n) = String.◌∷◌ "-" (decimal (suc n))

abbrev pub is_digit : Char → Bool
is_digit c = leb b'0' (code c) && leb (code c) b'9'

-- The value of a text of digits after `n`, or nothing if another character is met.
read_digits : ℕ → String → Option ℕ
read_digits n String.[] = some n
read_digits n (String.◌∷◌ c s) =
    let rest = read_digits (n * 10 + (code c - b'0')) s in if is_digit c then rest else none

-- At least one digit.
read_nat : String → Option ℕ
read_nat String.[] = none
read_nat (String.◌∷◌ c s) = read_digits 0 (String.◌∷◌ c s)

-- `strconv.Atoi` reads a 64-bit signed number, with or without a sign.
read_signed : Char → String → Option ℤ
unfolding read_nat
read_signed c s =
    if eqb (code c) b'-'
    then elim (read_nat s) [
      | none ↦ none
      | some zero ↦ some (pos 0)
      | some (suc n) ↦ if ltb n (2 ^ 63) then some (negsuc n) else none
    ]
    else elim (if eqb (code c) b'+' then read_nat s else read_nat (String.◌∷◌ c s)) [
      | none ↦ none
      | some n ↦ if ltb n (2 ^ 63) then some (pos n) else none
    ]

unfoldable pub atoi : String → Option ℤ
unfolding read_signed read_nat read_digits
atoi String.[] = none
atoi (String.◌∷◌ c s) = read_signed c s

atoi_tests :
    (atoi "120" ≡ some (pos 120))
    × (atoi "-7" ≡ some (negsuc 6))
    × (atoi "" ≡ none)
    × (atoi "1x" ≡ none)
    × (atoi "+3" ≡ some (pos 3))
    × (atoi "-0" ≡ some (pos 0))
    × (atoi "9223372036854775808" ≡ none)
unfolding atoi
atoi_tests = (refl, refl, refl, refl, refl, refl, refl)

sprint_int_tests : (sprint_int (pos 120) ≡ "120") × (sprint_int (negsuc 6) ≡ "-7")
unfolding sprint_int
sprint_int_tests = (refl, refl)
