-- ===== src/Prelude/Text.antt =====
-- Text as the standard library's `str` methods see it.
use Prim.Native.Nat.{ℕ, ◌+◌}
use mathlib.Core.Path.{◌≡◌, refl}
use native.Mathlib.Omega.{arith}
use Prim.Native.Char.{code}
use Prim.Native.String.{String}
use mathlib.Core.Bool.{Bool, true, false, ◌&&◌, ◌||◌}
use bodkin.Prelude.Tests.{leb, ◌==◌, if◌then◌else◌}

-- `char::is_whitespace`: the code points with the property White_Space.
abbrev pub is_whitespace : ℕ → Bool
is_whitespace c =
    (leb 0x9 c && leb c 0xd)
    || c == 0x20
    || c == 0x85
    || c == 0xa0
    || c == 0x1680
    || (leb 0x2000 c && leb c 0x200a)
    || c == 0x2028
    || c == 0x2029
    || c == 0x202f
    || c == 0x205f
    || c == 0x3000

-- `trim().is_empty()`
abbrev pub is_blank : String → Bool
is_blank String.[] = true
is_blank (String.◌∷◌ c s) = is_whitespace (code c) && is_blank s

-- `is_empty()`
abbrev pub is_empty_text : String → Bool
is_empty_text String.[] = true
is_empty_text (String.◌∷◌ c s) = false

-- `char::to_ascii_lowercase`, on code points.
abbrev pub ascii_lower : ℕ → ℕ
ascii_lower c = if leb 0x41 c && leb c 0x5a then c + 32 else c

-- `eq_ignore_ascii_case`
unfoldable pub eq_ignore_ascii_case : String → String → Bool
eq_ignore_ascii_case String.[] String.[] = true
eq_ignore_ascii_case (String.◌∷◌ c s) (String.◌∷◌ d t) =
    ascii_lower (code c) == ascii_lower (code d) && eq_ignore_ascii_case s t
eq_ignore_ascii_case _ _ = false

pub eq_ignore_ascii_case_refl : (s : String) → eq_ignore_ascii_case s s ≡ true
unfolding eq_ignore_ascii_case
eq_ignore_ascii_case_refl String.[] = refl
eq_ignore_ascii_case_refl (String.◌∷◌ c s) = ground (arith, eq_ignore_ascii_case_refl s)

pub eq_ignore_ascii_case_sym : (s t : String) → eq_ignore_ascii_case s t ≡ eq_ignore_ascii_case t s
unfolding eq_ignore_ascii_case
eq_ignore_ascii_case_sym String.[] String.[] = refl
eq_ignore_ascii_case_sym String.[] (String.◌∷◌ d t) = refl
eq_ignore_ascii_case_sym (String.◌∷◌ c s) String.[] = refl
eq_ignore_ascii_case_sym (String.◌∷◌ c s) (String.◌∷◌ d t) =
    ground (arith, eq_ignore_ascii_case_sym s t)

pub eq_ignore_ascii_case_trans :
    (s t u : String)
    → eq_ignore_ascii_case s t ≡ true
    → eq_ignore_ascii_case t u ≡ true
    → eq_ignore_ascii_case s u ≡ true
unfolding eq_ignore_ascii_case
eq_ignore_ascii_case_trans String.[] String.[] u h k = k
eq_ignore_ascii_case_trans (String.◌∷◌ c s) (String.◌∷◌ d t) (String.◌∷◌ e u) h k =
    ground (arith, eq_ignore_ascii_case_trans s t u)
eq_ignore_ascii_case_trans String.[] (String.◌∷◌ d t) u h k = ground arith
eq_ignore_ascii_case_trans (String.◌∷◌ c s) String.[] u h k = ground arith
eq_ignore_ascii_case_trans (String.◌∷◌ c s) (String.◌∷◌ d t) String.[] h k = ground arith
