-- ===== src/Go/Text.antt =====
-- The functions of `strings`, `regexp` and `fmt` that the program uses, on texts of characters.
pub mod Splitting
use Prim.Native.Char.{Char, code}
use Prim.Native.String.{String, ◌++◌ as ◌<>◌}
use talisman.Common.{
  ◌≡◌, refl, Bool, true, starts_with, ◌&&◌, ◌||◌, leb, eqb, List, [], ◌∷◌, Option, none, some,
  if◌then◌else◌,
}
use talisman.Go.Numbers.{is_digit}

abbrev pub same_char : Char → Char → Bool
same_char a b = eqb (code a) (code b)

-- `[a-zA-Z0-9]`
abbrev pub is_alnum : Char → Bool
is_alnum c =
    is_digit c
    || (leb b'a' (code c) && leb (code c) b'z')
    || (leb b'A' (code c) && leb (code c) b'Z')

-- `regexp.MustCompile("[^a-zA-Z0-9]+").ReplaceAllString(s, "")`
unfoldable pub keep_alnum : String → String
keep_alnum String.[] = ""
keep_alnum (String.◌∷◌ c s) =
    let rest = keep_alnum s in if is_alnum c then String.◌∷◌ c rest else rest

lower_by : String → String → Char → Char
lower_by (String.◌∷◌ u us) (String.◌∷◌ l ls) c =
    let rest = lower_by us ls c in if same_char u c then l else rest
lower_by _ _ c = c

-- `strings.ToLower` on ASCII letters; the program calls it on letters and digits.
unfoldable pub to_lower : String → String
unfolding lower_by
to_lower String.[] = ""
to_lower (String.◌∷◌ c s) =
    String.◌∷◌ (lower_by "ABCDEFGHIJKLMNOPQRSTUVWXYZ" "abcdefghijklmnopqrstuvwxyz" c) (to_lower s)

-- `strings.Replace(s, a, b, -1)` for texts of one character
unfoldable pub replace_all : Char → Char → String → String
replace_all a b String.[] = ""
replace_all a b (String.◌∷◌ c s) = String.◌∷◌ (if same_char a c then b else c) (replace_all a b s)

abbrev pub prepend : Char → List String → List String
prepend c [] = String.◌∷◌ c "" ∷ []
prepend c (t ∷ ts) = String.◌∷◌ c t ∷ ts

-- `strings.Split(s, sep)` for a separator of one character: at least one part.
unfoldable pub split : Char → String → List String
split sep String.[] = "" ∷ []
split sep (String.◌∷◌ c s) =
    let rest = split sep s in if same_char c sep then "" ∷ rest else prepend c rest

-- The longest run of digits at the start, and the rest.
unfoldable pub span_digits : String → String × String
span_digits String.[] = ("", "")
span_digits (String.◌∷◌ c s) =
    let rest = span_digits s in
    if is_digit c then (String.◌∷◌ c rest.0, rest.1) else ("", String.◌∷◌ c s)

-- The text after a character that it begins with.
abbrev pub after_char : Char → String → Option String
after_char d String.[] = none
after_char d (String.◌∷◌ c s) = if same_char c d then some s else none

-- `strings.Contains`
unfoldable pub contains : String → String → Bool
contains String.[] t = starts_with "" t
contains (String.◌∷◌ c s) t = starts_with (String.◌∷◌ c s) t || contains s t

-- `fmt.Sprintf` where each verb is `%s` or `%v` and each argument a text
unfoldable pub sprintf : String → List String → String
sprintf String.[] args = ""
sprintf (String.◌∷◌ p String.[]) args = String.◌∷◌ p ""
sprintf (String.◌∷◌ p (String.◌∷◌ q f)) [] = String.◌∷◌ p (String.◌∷◌ q f)
sprintf (String.◌∷◌ p (String.◌∷◌ q f)) (a ∷ args) =
    let verb = a <> sprintf f args in
    let plain = String.◌∷◌ p (sprintf (String.◌∷◌ q f) (a ∷ args)) in
    if same_char p "%" && (same_char q "s" || same_char q "v") then verb else plain

text_tests :
    (to_lower (keep_alnum "My-Cluster_1") ≡ "mycluster1")
    × (replace_all "_" "-" "a_px_b" ≡ "a-px-b")
    × (split ":" "etcd:http://h:1" ≡ "etcd" ∷ "http" ∷ "//h" ∷ "1" ∷ [])
    × (span_digits "12.x" ≡ ("12", ".x"))
    × (sprintf "[%s] %s!" ("a" ∷ "b" ∷ []) ≡ "[a] b!")
    × (contains "claim does not have a class" "not have" ≡ true)
unfolding contains to_lower keep_alnum replace_all split span_digits sprintf
text_tests = (refl, refl, refl, refl, refl, refl)
