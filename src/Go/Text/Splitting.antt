-- ===== src/Go/Text/Splitting.antt =====
-- `strings.Split` at a character.
use text.Mathlib.TextLemmas.{nil-append, cons-append}
use talisman.Common.{String, ◌<>◌, ◌≡◌, refl, ◌∙◌, ap, Bool, true, not, ◌&&◌, [], ◌∷◌, arith}
use Prim.Native.Char.{Char}
use talisman.Go.Text.{same_char, split}

-- A text without a character.
unfoldable pub lacks : Char → String → Bool
lacks sep String.[] = true
lacks sep (String.◌∷◌ c s) = not (same_char c sep) && lacks sep s

-- A text without a colon.
abbrev pub is_plain : String → Bool
is_plain = lacks ":"

abbrev pub text_of : Char → String
text_of c = String.◌∷◌ c ""

pub split-lacks : (sep : Char) (a : String) → lacks sep a ≡ true → split sep a ≡ a ∷ []
unfolding split lacks
split-lacks sep String.[] h = refl
split-lacks sep (String.◌∷◌ c a) h = ground (arith, h, split-lacks sep a)

separator-append : (sep : Char) (s : String) → (text_of sep <> s) ≡ String.◌∷◌ sep s
separator-append sep s = cons-append sep "" s ∙ ap (String.◌∷◌ sep) (nil-append s)

pub split-append :
    (sep : Char) (a s : String)
    → lacks sep a ≡ true
    → split sep (a <> (text_of sep <> s)) ≡ a ∷ split sep s
unfolding split lacks
split-append sep String.[] s h =
    rw (nil-append (text_of sep <> s)) (rw (separator-append sep s) (ground arith))
split-append sep (String.◌∷◌ c a) s h =
    rw (cons-append c a (text_of sep <> s)) (ground (arith, h, split-append sep a s))
