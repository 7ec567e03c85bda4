-- ===== src/Px/Version/Laws.antt =====
-- What `parsePXVersion` accepts and returns.
use text.Mathlib.TextLemmas.{nil-append, cons-append}
use talisman.Common.{
  String, ◌<>◌, ◌==◌, ◌≡◌, refl, ◌∙◌, ap, Bool, true, not, ◌&&◌, some, arith, Bool-cases, inl, inr,
}
use talisman.Go.Results.{ok}
use talisman.Go.Numbers.{is_digit}
use talisman.Go.Text.{span_digits, after_char}
use talisman.Px.Version.{read_number, match_px_version, parse_px_version}

all_digits : String → Bool
all_digits String.[] = true
all_digits (String.◌∷◌ c s) = is_digit c && all_digits s

-- A number in decimal: digits, at least one.
unfoldable pub is_number : String → Bool
unfolding all_digits
is_number s = not (s == "") && all_digits s

-- The text does not go on with a digit.
unfoldable pub ends_number : String → Bool
ends_number String.[] = true
ends_number (String.◌∷◌ c s) = not (is_digit c)

span_digits-append :
    (d s : String) → all_digits d ≡ true → ends_number s ≡ true → span_digits (d <> s) ≡ (d, s)
unfolding span_digits all_digits ends_number
span_digits-append String.[] String.[] h e = rw (nil-append "") refl
span_digits-append String.[] (String.◌∷◌ c s) h e =
    rw (nil-append (String.◌∷◌ c s)) (ground (arith, e))
span_digits-append (String.◌∷◌ c d) s h e =
    rw (cons-append c d s) (ground (arith, h, e, span_digits-append d s))

read_number-append :
    (d s : String) → is_number d ≡ true → ends_number s ≡ true → read_number (d <> s) ≡ some (d, s)
unfolding read_number is_number
read_number-append d s h e = rw (span_digits-append d s (ground (arith, h)) e) (ground (arith, h))

span_digits-join : (s : String) → ((span_digits s).0 <> (span_digits s).1) ≡ s
unfolding span_digits
span_digits-join String.[] = nil-append ""
span_digits-join (String.◌∷◌ c s) = elim (Bool-cases (is_digit c)) [
  | inl digit ↦
      rw digit
        (cons-append c (span_digits s).0 (span_digits s).1 ∙ ap (String.◌∷◌ c) (span_digits-join s))
  | inr other ↦ rw other (nil-append (String.◌∷◌ c s))
]

dot-append : (s : String) → ("." <> s) ≡ String.◌∷◌ "." s
dot-append s = cons-append "." "" s ∙ ap (String.◌∷◌ ".") (nil-append s)

ends_number-dot : (s : String) → ends_number ("." <> s) ≡ true
unfolding ends_number
ends_number-dot s = rw (dot-append s) refl

after_char-dot : (s : String) → after_char "." ("." <> s) ≡ some s
after_char-dot s = rw (dot-append s) refl

-- A version of three numbers with dots between them, whatever follows the last number, is parsed
-- to those numbers.
pub parse_px_version-numbers :
    (major minor patch rest : String)
    → is_number major ≡ true
    → is_number minor ≡ true
    → is_number patch ≡ true
    → ends_number rest ≡ true
    → parse_px_version (major <> ("." <> (minor <> ("." <> (patch <> rest)))))
      ≡ ok (major <> ("." <> (minor <> ("." <> patch))))
unfolding parse_px_version match_px_version
parse_px_version-numbers major minor patch rest h k l e =
    rw (read_number-append major _ h (ends_number-dot (minor <> ("." <> (patch <> rest))))) (
      rw (after_char-dot (minor <> ("." <> (patch <> rest)))) (
        rw (read_number-append minor _ k (ends_number-dot (patch <> rest)))
          (rw (after_char-dot (patch <> rest)) (rw (read_number-append patch rest l e) refl))))
