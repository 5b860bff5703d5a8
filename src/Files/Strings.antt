-- ===== src/Files/Strings.antt =====
-- The functions of Go's strings package that the path code calls, on bytes.
use go_luarocks.Prelude.{
  any, arith, ◌≡◌, ℕ, ◌+◌, Bool, true, false, Option, none, some, List, [], ◌∷◌, ◌++◌, Bytes,
  if◌then◌else◌, length, take_while, drop_while, drop, reverse, map, ◌==◌, leb, not, ◌&&◌,
}

-- strings.HasPrefix
unfoldable pub has_prefix : Bytes → Bytes → Bool
has_prefix s [] = true
has_prefix [] (c ∷ p) = false
has_prefix (a ∷ s) (c ∷ p) = (a == c) && has_prefix s p

-- strings.TrimPrefix
unfoldable pub trim_prefix : Bytes → Bytes → Bytes
unfolding has_prefix
trim_prefix s p = if has_prefix s p then drop (length p) s else s

unfoldable pub has_suffix : Bytes → Bytes → Bool
unfolding has_prefix
has_suffix s p = has_prefix (reverse s) (reverse p)

-- strings.CutSuffix, with what is left where the suffix is there.
unfoldable pub cut_suffix : Bytes → Bytes → Option Bytes
unfolding has_suffix
cut_suffix s p = if has_suffix s p then some (reverse (drop (length p) (reverse s))) else none

-- strings.Cut at one byte.
unfoldable pub cut_at : ℕ → Bytes → Option (Bytes × Bytes)
cut_at c s = elim (drop_while (λ d. not (d == c)) s) [
  | [] ↦ none
  | d ∷ rest ↦ some (take_while (λ d. not (d == c)) s, rest)
]

pub cut_at-append :
    (c : ℕ) (s t : Bytes) → any (λ d. d == c) s ≡ false → cut_at c (s ++ (c ∷ t)) ≡ some (s, t)
unfolding cut_at
cut_at-append c [] t h = ground arith
cut_at-append c (d ∷ s) t h = ground (arith, cut_at-append c s t)

-- strings.ReplaceAll of one byte by one byte.
abbrev pub replace_byte : ℕ → ℕ → Bytes → Bytes
replace_byte a b = map (λ c. if c == a then b else c)

-- strings.Split at one byte: the pieces, one at least. `current` is the piece before `s`, reversed.
unfoldable pub split_from : ℕ → Bytes → Bytes → List Bytes
split_from c current [] = reverse current ∷ []
split_from c current (d ∷ s) =
    let ends = reverse current ∷ split_from c [] s in
    let goes_on = split_from c (d ∷ current) s in if d == c then ends else goes_on

abbrev pub split_byte : ℕ → Bytes → List Bytes
split_byte c s = split_from c [] s

-- strings.Join with one byte between.
unfoldable pub join_byte : ℕ → List Bytes → Bytes
join_byte c [] = []
join_byte c (p ∷ []) = p
join_byte c (p ∷ q ∷ ps) = p ++ (c ∷ join_byte c (q ∷ ps))

-- s[:strings.LastIndex(s, c)] and s[strings.LastIndex(s, c)+1:], where the byte is in `s`.
unfoldable pub cut_last : ℕ → Bytes → Option (Bytes × Bytes)
unfolding cut_at
cut_last c s = elim (cut_at c (reverse s)) [
  | none ↦ none
  | some (after, before) ↦ some (reverse before, reverse after)
]

-- strings.TrimLeft and strings.Trim of one byte.
abbrev pub trim_left_byte : ℕ → Bytes → Bytes
trim_left_byte c = drop_while (λ d. d == c)

unfoldable pub trim_byte : ℕ → Bytes → Bytes
trim_byte c s = reverse (trim_left_byte c (reverse (trim_left_byte c s)))

-- strings.ToLower on ASCII.
abbrev pub to_lower : Bytes → Bytes
to_lower = map (λ c. if leb b'A' c && leb c b'Z' then c + 32 else c)
