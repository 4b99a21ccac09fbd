-- ===== src/Base/Text.antt =====
-- Python texts as lists of code points, and the validators that the models share:
-- `_text`, `_CODE` and `_HASH`.
use Prim.Native.Char.{code}
use Prim.Native.String.{String}
use Prim.Native.Nat.{ℕ}
use mathlib.Core.Path.{◌≡◌, refl}
use mathlib.Core.Bool.{Bool, true, false, not, ◌&&◌, ◌||◌}
use mathlib.Core.List.{List, [], ◌∷◌}
use native.Mathlib.Omega.{arith}
use schemabridge.Base.Tests.{ltb, leb, ◌==◌}
use schemabridge.Base.Lists.{length, all, any}

abbrev pub Text : Type 0
Text = List ℕ

abbrev pub codes : String → Text
codes String.[] = []
codes (String.◌∷◌ c s) = code c ∷ codes s

-- `a == b` on two texts.
unfoldable pub text_eq : Text → Text → Bool
text_eq [] [] = true
text_eq [] (d ∷ t) = false
text_eq (c ∷ s) [] = false
text_eq (c ∷ s) (d ∷ t) = (c == d) && text_eq s t

-- `a < b` on two texts: by the first code point that differs.
unfoldable pub text_lt : Text → Text → Bool
text_lt [] [] = false
text_lt [] (d ∷ t) = true
text_lt (c ∷ s) [] = false
text_lt (c ∷ s) (d ∷ t) = ltb c d || ((c == d) && text_lt s t)

-- `str.isspace` of one character.
unfoldable pub is_space : ℕ → Bool
is_space c =
    (leb 9 c && leb c 13)
    || (leb 28 c && leb c 32)
    || (c == 133)
    || (c == 160)
    || (c == 5760)
    || (leb 8192 c && leb c 8202)
    || (c == 8232)
    || (c == 8233)
    || (c == 8239)
    || (c == 8287)
    || (c == 12288)

-- `value.strip()` is empty.
unfoldable pub is_blank : Text → Bool
unfolding is_space
is_blank s = all is_space s

unfoldable pub has_nul : Text → Bool
has_nul s = any (λ c. c == 0) s

-- The test of `_text(value, name, limit)`.
unfoldable pub valid_text : ℕ → Text → Bool
unfolding is_blank has_nul
valid_text limit s = not (is_blank s) && (leb (length s) limit && not (has_nul s))

is_upper : ℕ → Bool
is_upper c = leb b'A' c && leb c b'Z'

is_digit : ℕ → Bool
is_digit c = leb b'0' c && leb c b'9'

is_code_tail : ℕ → Bool
unfolding is_upper is_digit
is_code_tail c = is_upper c || (is_digit c || (c == b'_'))

-- `[A-Z][A-Z0-9_]{0,63}\Z`
unfoldable pub valid_code : Text → Bool
unfolding is_upper is_code_tail
valid_code [] = false
valid_code (c ∷ s) = is_upper c && (all is_code_tail s && leb (length s) 63)

is_hex : ℕ → Bool
unfolding is_digit
is_hex c = is_digit c || (leb b'a' c && leb c b'f')

-- `[0-9a-f]{64}\Z`
unfoldable pub valid_hash : Text → Bool
unfolding is_hex
valid_hash s = all is_hex s && (length s == 64)

pub text_eq_refl : (s : Text) → text_eq s s ≡ true
unfolding text_eq
text_eq_refl [] = refl
text_eq_refl (c ∷ s) = ground (arith, text_eq_refl s)

pub eq_of_text_eq : (s t : Text) → text_eq s t ≡ true → s ≡ t
unfolding text_eq
eq_of_text_eq [] [] h = refl
eq_of_text_eq [] (d ∷ t) h = cc
eq_of_text_eq (c ∷ s) [] h = cc
eq_of_text_eq (c ∷ s) (d ∷ t) h = ground (arith, eq_of_text_eq s t)
