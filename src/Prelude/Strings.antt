-- ===== src/Prelude/Strings.antt =====
-- Go's strings package, as far as the program uses it. Lower-casing text that is not ASCII goes by
-- Unicode's tables, a parameter here.
use Prim.Native.Nat.{ℕ, zero, suc, ◌+◌}
use mathlib.Core.Bool.{Bool, true, false, ◌&&◌, ◌||◌}
use mathlib.Core.List.{[], ◌∷◌, map, reverse}
use mathlib.Core.Option.{Option, none, some}
use tiny_url.Prelude.Tests.{ltb, leb, ◌==◌, if◌then◌else◌}
use tiny_url.Prelude.Lists.{all}
use tiny_url.Prelude.Bytes.{Text}

-- strings.HasPrefix and the text after the prefix
unfoldable pub strip_prefix : Text → Text → Option Text
strip_prefix [] s = some s
strip_prefix (c ∷ p) [] = none
strip_prefix (c ∷ p) (d ∷ s) = if c == d then strip_prefix p s else none

abbrev pub trim_prefix : Text → Text → Text
trim_prefix p s = elim (strip_prefix p s) [ none ↦ s | some rest ↦ rest ]

abbrev pub is_ascii : ℕ → Bool
is_ascii c = ltb c 128

abbrev pub lower_ascii : ℕ → ℕ
lower_ascii c = if leb 65 c && leb c 90 then c + 32 else c

abbrev is_ascii_space : ℕ → Bool
is_ascii_space c = (leb 9 c && leb c 13) || (c == 32)

-- The spaces of unicode.IsSpace beyond ASCII, in UTF-8: two bytes, or three.
abbrev is_space2 : ℕ → ℕ → Bool
is_space2 c d = (c == 194) && ((d == 133) || (d == 160))

abbrev is_space3 : ℕ → ℕ → ℕ → Bool
is_space3 c d e =
    ((c == 225) && (d == 154) && (e == 128))
    || ((c == 226)
        && (d == 128)
        && ((leb 128 e && leb e 138) || (e == 168) || (e == 169) || (e == 175)))
    || ((c == 226) && (d == 129) && (e == 159))
    || ((c == 227) && (d == 128) && (e == 128))

-- The number of bytes of the space at the front of a text, 0 if there is none; `flipped` reads the
-- bytes from the end.
front_space : Bool → Text → ℕ
front_space flipped [] = 0
front_space flipped (c ∷ []) = if is_ascii_space c then 1 else 0
front_space flipped (c ∷ d ∷ []) =
    if is_ascii_space c
    then 1
    else if (if flipped then is_space2 d c else is_space2 c d)
    then 2
    else 0
front_space flipped (c ∷ d ∷ e ∷ s) =
    if is_ascii_space c
    then 1
    else if (if flipped then is_space2 d c else is_space2 c d)
    then 2
    else if (if flipped then is_space3 e d c else is_space3 c d e)
    then 3
    else 0

-- Skips `pending` bytes of a space that has begun, then the spaces that follow.
trim_front : Bool → ℕ → Text → Text
unfolding front_space
trim_front flipped pending [] = []
trim_front flipped (suc pending) (c ∷ s) = trim_front flipped pending s
trim_front flipped zero (c ∷ s) = elim (front_space flipped (c ∷ s)) [
  | zero ↦ c ∷ s
  | suc n ↦ trim_front flipped n s
]

-- strings.TrimSpace
unfoldable pub trim_space : Text → Text
unfolding trim_front
trim_space s = reverse (trim_front true 0 (reverse (trim_front false 0 s)))

module _ (unicode_lower : Text → Text) where
  -- strings.ToLower
  unfoldable pub to_lower : Text → Text
  to_lower s = if all is_ascii s then map lower_ascii s else unicode_lower s
