-- ===== src/Go/Numbers/RoundTrip.antt =====
-- The decimal text of a number, and the number that is read from it.
use Prim.Native.Char.{Char, code}
use Prim.Native.String.{String}
use talisman.Common.{
  ℕ, zero, suc, ◌+◌, ◌-◌, ◌*◌, ◌/◌, ◌%◌, ◌^◌, ◌<◌, ◌≡◌, refl, ◌∙◌, ap, inl, inr, true, some, arith,
  ltb, Bool-cases,
}
use talisman.Go.Numbers.{
  ℤ, pos, negsuc, InInt32, digit_char, decimal_onto, decimal, sprint_int, is_digit, read_digits,
  read_nat, read_signed, atoi,
}

abbrev IsDigitOf : ℕ → Char → Type 0
IsDigitOf d c = (is_digit c ≡ true) × (code c - b'0' ≡ d)

digit_char-IsDigitOf : (d : ℕ) → d < 10 → IsDigitOf d (digit_char d)
unfolding digit_char
digit_char-IsDigitOf zero h = (refl, refl)
digit_char-IsDigitOf (suc zero) h = (refl, refl)
digit_char-IsDigitOf (suc (suc zero)) h = (refl, refl)
digit_char-IsDigitOf (suc (suc (suc zero))) h = (refl, refl)
digit_char-IsDigitOf (suc (suc (suc (suc zero)))) h = (refl, refl)
digit_char-IsDigitOf (suc (suc (suc (suc (suc zero))))) h = (refl, refl)
digit_char-IsDigitOf (suc (suc (suc (suc (suc (suc zero)))))) h = (refl, refl)
digit_char-IsDigitOf (suc (suc (suc (suc (suc (suc (suc zero))))))) h = (refl, refl)
digit_char-IsDigitOf (suc (suc (suc (suc (suc (suc (suc (suc zero)))))))) h = (refl, refl)
digit_char-IsDigitOf (suc (suc (suc (suc (suc (suc (suc (suc (suc zero))))))))) h = (refl, refl)
digit_char-IsDigitOf (suc (suc (suc (suc (suc (suc (suc (suc (suc (suc d)))))))))) h =
    absurd (omega arith)

read_digits-digit_char :
    (n d : ℕ) (s : String)
    → d < 10
    → read_digits n (String.◌∷◌ (digit_char d) s) ≡ read_digits (n * 10 + d) s
unfolding read_digits
read_digits-digit_char n d s h = let (is, value) = digit_char-IsDigitOf d h in rw (is, value)

read_digits-decimal_onto :
    (f n : ℕ) (rest : String) → n < f → read_digits 0 (decimal_onto f n rest) ≡ read_digits n rest
unfolding decimal_onto
read_digits-decimal_onto zero n rest h = absurd (omega arith)
read_digits-decimal_onto (suc f) n rest h = elim (Bool-cases (ltb n 10)) [
  | inl small ↦ rw small (
      read_digits-digit_char 0 n rest (ground arith)
      ∙ ap (λ (k : ℕ). read_digits k rest) (omega arith))
  | inr large ↦ rw large (
      read_digits-decimal_onto f (n / 10) _ (ground arith)
      ∙ read_digits-digit_char (n / 10) (n % 10) rest (omega arith)
      ∙ ap (λ (k : ℕ). read_digits k rest) (omega arith))
]

-- The text begins with a digit.
decimal_onto-head :
    (f n : ℕ) (rest : String)
    → n < f
    → (c : Char) × (s : String) × (decimal_onto f n rest ≡ String.◌∷◌ c s) × (is_digit c ≡ true)
unfolding decimal_onto
decimal_onto-head zero n rest h = absurd (omega arith)
decimal_onto-head (suc f) n rest h = elim (Bool-cases (ltb n 10)) [
  | inl small ↦ (digit_char n, rest, rw small refl, (digit_char-IsDigitOf n (ground arith)).0)
  | inr large ↦
      let (c, s, e, d) =
        decimal_onto-head f (n / 10) (String.◌∷◌ (digit_char (n % 10)) rest) (ground arith) in
      (c, s, rw large e, d)
]

read_nat-decimal : (n : ℕ) → read_nat (decimal n) ≡ some n
unfolding decimal
read_nat-decimal n =
    let (c, s, e, d) = decimal_onto-head (suc n) n "" (omega arith) in
    rw e (
      unfold read_nat in
      rw (← e) (read_digits-decimal_onto (suc n) n "" (omega arith) ∙ (unfold read_digits in refl)))

atoi-decimal : (n : ℕ) → n < 2 ^ 31 → atoi (decimal n) ≡ some (pos n)
atoi-decimal n small =
    let (c, s, e, d) = head in
    let value : read_nat (String.◌∷◌ c s) ≡ some n = rw (← e) (read_nat-decimal n) in
    rw e (unfold atoi read_signed in ground (arith, value))
  where
    head : (c : Char) × (s : String) × (decimal n ≡ String.◌∷◌ c s) × (is_digit c ≡ true)
    head = unfold decimal in decimal_onto-head (suc n) n "" (omega arith)

sprint_int-negsuc :
    (n : ℕ) → sprint_int (negsuc n) ≡ String.◌∷◌ (let c : Char = "-" in c) (decimal (suc n))
unfolding sprint_int
sprint_int-negsuc n = refl

-- `strconv.Atoi` reads back what `%d` prints of an `int32`.
pub atoi-sprint_int : (z : ℤ) → InInt32 z → atoi (sprint_int z) ≡ some z
atoi-sprint_int (pos n) small = unfold sprint_int in atoi-decimal n small
atoi-sprint_int (negsuc n) small =
    rw sprint_int-negsuc (unfold atoi read_signed in ground (arith, read_nat-decimal (suc n)))
