-- ===== src/Prelude/Text.antt =====
-- Go strings as lists of bytes, their equality, the character classes of the patterns, `strings.
-- TrimSpace` and `strconv.Atoi`.
use Prim.Native.Nat.{ℕ, ◌+◌, ◌-◌, ◌*◌, ◌^◌}
use Prim.Native.Char.{code}
use Prim.Native.String.{String}
use mathlib.Core.Path.{◌≡◌, refl}
use mathlib.Core.Logic.{◌↔◌}
use mathlib.Core.Bool.{Bool, true, false, ◌&&◌, ◌||◌}
use mathlib.Core.Option.{Option, none, some}
use mathlib.Core.List.{List, [], ◌∷◌}
unfoldable use mathlib.Core.List.{reverse}
use native.Mathlib.Omega.{arith}
use go_luarocks.Prelude.Tests.{leb, ◌==◌, ==_iff, if◌then◌else◌}
use go_luarocks.Prelude.Lists.{any}

abbrev pub Bytes : Type 0
Bytes = List ℕ

-- The bytes of an ASCII literal.
abbrev pub codes : String → Bytes
codes String.[] = []
codes (String.◌∷◌ c s) = code c ∷ codes s

-- s == t
unfoldable pub same : Bytes → Bytes → Bool
same [] [] = true
same [] (b ∷ t) = false
same (a ∷ s) [] = false
same (a ∷ s) (b ∷ t) = (a == b) && same s t

pub same_iff : (s t : Bytes) → (same s t ≡ true) ↔ (s ≡ t)
unfolding same
same_iff [] [] = (λ _. refl, λ _. refl)
same_iff [] (b ∷ t) = (λ h. cc, λ h. cc)
same_iff (a ∷ s) [] = (λ h. cc, λ h. cc)
same_iff (a ∷ s) (b ∷ t) = ground (arith, same_iff s t, ==_iff a b)

pub same_refl : (s : Bytes) → same s s ≡ true
same_refl s = (same_iff s s).1 refl

abbrev pub is_digit : ℕ → Bool
is_digit c = leb b'0' c && leb c b'9'

abbrev pub is_alpha : ℕ → Bool
is_alpha c = (leb b'a' c && leb c b'z') || (leb b'A' c && leb c b'Z')

-- [._-]
abbrev pub is_separator : ℕ → Bool
is_separator c = (c == b'.') || ((c == b'_') || (c == b'-'))

-- `.` in a pattern matches every character but this one.
abbrev pub is_newline : ℕ → Bool
is_newline c = c == 10

abbrev pub has_newline : Bytes → Bool
has_newline = any is_newline

-- `\s` in a pattern: [\t\n\f\r ]
abbrev pub is_pattern_space : ℕ → Bool
is_pattern_space c = (c == 32) || ((c == 9) || ((c == 10) || ((c == 12) || (c == 13))))

-- unicode.IsSpace on one byte.
abbrev pub is_ascii_space : ℕ → Bool
is_ascii_space c = (leb 9 c && leb c 13) || (c == 32)

-- unicode.IsSpace on the characters that UTF-8 writes with two bytes (U+0085 and U+00A0) and with
-- three (U+1680, U+2000 to U+200A, U+2028, U+2029, U+202F, U+205F, U+3000).
abbrev pub is_space_2 : ℕ → ℕ → Bool
is_space_2 a b = (a == 0xC2) && ((b == 0x85) || (b == 0xA0))

abbrev pub is_space_3 : ℕ → ℕ → ℕ → Bool
is_space_3 a b c =
    ((a == 0xE1) && ((b == 0x9A) && (c == 0x80)))
    || (((a == 0xE2)
          && (((b == 0x80)
                && ((leb 0x80 c && leb c 0x8A) || ((c == 0xA8) || ((c == 0xA9) || (c == 0xAF)))))
              || ((b == 0x81) && (c == 0x9F))))
        || ((a == 0xE3) && ((b == 0x80) && (c == 0x80))))

unfoldable pub trim_left : Bytes → Bytes
trim_left [] = []
trim_left (a ∷ []) = if is_ascii_space a then [] else a ∷ []
trim_left (a ∷ b ∷ []) =
    if is_ascii_space a then trim_left (b ∷ []) else if is_space_2 a b then [] else a ∷ b ∷ []
trim_left (a ∷ b ∷ c ∷ s) =
    let one = trim_left (b ∷ c ∷ s) in
    let two = trim_left (c ∷ s) in
    let three = trim_left s in
    if is_ascii_space a
    then one
    else if is_space_2 a b
    then two
    else if is_space_3 a b c
    then three
    else a ∷ b ∷ c ∷ s

-- The same from the right end, on the reversed text.
unfoldable pub trim_right_reversed : Bytes → Bytes
trim_right_reversed [] = []
trim_right_reversed (a ∷ []) = if is_ascii_space a then [] else a ∷ []
trim_right_reversed (b ∷ a ∷ []) =
    if is_ascii_space b
    then trim_right_reversed (a ∷ [])
    else if is_space_2 a b
    then []
    else b ∷ a ∷ []
trim_right_reversed (c ∷ b ∷ a ∷ s) =
    let one = trim_right_reversed (b ∷ a ∷ s) in
    let two = trim_right_reversed (a ∷ s) in
    let three = trim_right_reversed s in
    if is_ascii_space c
    then one
    else if is_space_2 b c
    then two
    else if is_space_3 a b c
    then three
    else c ∷ b ∷ a ∷ s

-- strings.TrimSpace
unfoldable pub trim_space : Bytes → Bytes
unfolding trim_left trim_right_reversed
trim_space s = reverse (trim_right_reversed (reverse (trim_left s)))

unfoldable pub digits_value : ℕ → Bytes → ℕ
digits_value n [] = n
digits_value n (c ∷ s) = digits_value (n * 10 + (c - b'0')) s

abbrev pub max_int : ℕ
max_int = 2 ^ 63 - 1

-- strconv.Atoi on a run of digits: `none` is its range error.
unfoldable pub atoi : Bytes → Option ℕ
unfolding digits_value
atoi ds = let n = digits_value 0 ds in if leb n max_int then some n else none
