-- ===== src/Prelude/Scan.antt =====
-- Scans of a text from either end, and that trimming leaves a text alone that digits enclose.
use mathlib.Core.List.{reverse-append}
use Prim.Native.Nat.{ℕ, suc, ◌<◌, ◌≤◌}
use mathlib.Core.Path.{◌≡◌, refl}
use mathlib.Core.Bool.{Bool, true, false}
use mathlib.Core.List.{[], ◌∷◌, ◌++◌}
unfoldable use mathlib.Core.List.{reverse}
use native.Mathlib.Omega.{arith}
use go_luarocks.Prelude.Tests.{&&-eq-true, if◌then◌else◌}
use go_luarocks.Prelude.Lists.{all, length, length-append}
use go_luarocks.Prelude.Text.{
  Bytes, is_digit, trim_left, trim_right_reversed, trim_space, is_ascii_space, is_space_2,
  is_space_3,
}

pub all_mono :
    {p q : ℕ → Bool} (s : Bytes)
    → ((c : ℕ) → p c ≡ true → q c ≡ true)
    → all p s ≡ true
    → all q s ≡ true
all_mono [] f h = refl
all_mono {p} (c ∷ s) f h =
    let (hc, hs) = &&-eq-true (p c) (all p s) h in rw (f c hc, all_mono s f hs)

pub all-append :
    (p : ℕ → Bool) (s t : Bytes) → all p s ≡ true → all p t ≡ true → all p (s ++ t) ≡ true
all-append p [] t h k = k
all-append p (c ∷ s) t h k =
    let (hc, hs) = &&-eq-true (p c) (all p s) h in rw (hc, all-append p s t hs k)

pub reverse-cons : (c : ℕ) (s : Bytes) → reverse (c ∷ s) ≡ reverse s ++ c ∷ []
reverse-cons c s = reverse-append (c ∷ []) s

pub all-reverse : (p : ℕ → Bool) (s : Bytes) → all p s ≡ true → all p (reverse s) ≡ true
all-reverse p [] h = refl
all-reverse p (c ∷ s) h =
    let (hc, hs) = &&-eq-true (p c) (all p s) h in
    rw reverse-cons (all-append p (reverse s) (c ∷ []) (all-reverse p s hs) (rw hc))

pub length-reverse : (s : Bytes) → length (reverse s) ≡ length s
length-reverse [] = refl
length-reverse (c ∷ s) =
    rw reverse-cons (omega (arith, length-append {0} (reverse s) (c ∷ []), length-reverse s))

-- The space characters are no digits, neither at their first nor at their last byte.
pub trim_left-digits :
    (s t : Bytes) → all is_digit s ≡ true → 0 < length s → trim_left (s ++ t) ≡ s ++ t
unfolding trim_left
trim_left-digits [] t h k = absurd (omega arith)
trim_left-digits (c ∷ []) [] h k = ground arith
trim_left-digits (c ∷ []) (a ∷ []) h k = ground arith
trim_left-digits (c ∷ []) (a ∷ b ∷ t) h k = ground arith
trim_left-digits (c ∷ d ∷ []) [] h k = ground arith
trim_left-digits (c ∷ d ∷ []) (a ∷ t) h k = ground arith
trim_left-digits (c ∷ d ∷ e ∷ s) t h k = ground arith

pub trim_right-digits :
    (s t : Bytes) → all is_digit s ≡ true → 0 < length s → trim_right_reversed (s ++ t) ≡ s ++ t
unfolding trim_right_reversed
trim_right-digits [] t h k = absurd (omega arith)
trim_right-digits (c ∷ []) [] h k = ground arith
trim_right-digits (c ∷ []) (a ∷ []) h k = ground arith
trim_right-digits (c ∷ []) (a ∷ b ∷ t) h k = ground arith
trim_right-digits (c ∷ d ∷ []) [] h k = ground arith
trim_right-digits (c ∷ d ∷ []) (a ∷ t) h k = ground arith
trim_right-digits (c ∷ d ∷ e ∷ s) t h k = ground arith

length-if :
    (b : Bool) (s t : Bytes) (n : ℕ) → length s ≤ n → length t ≤ n → length (if b then s else t) ≤ n
length-if true s t n h k = h
length-if false s t n h k = k

length-trim_left : (s : Bytes) → length (trim_left s) ≤ length s
unfolding trim_left
length-trim_left [] = omega arith
length-trim_left (a ∷ []) = length-if (is_ascii_space a) [] (a ∷ []) 1 (omega arith) (omega arith)
length-trim_left (a ∷ b ∷ []) =
    length-if (is_ascii_space a) (trim_left (b ∷ [])) (if is_space_2 a b then [] else a ∷ b ∷ []) 2
      (omega (arith, length-trim_left (b ∷ [])))
      (length-if (is_space_2 a b) [] (a ∷ b ∷ []) 2 (omega arith) (omega arith))
length-trim_left (a ∷ b ∷ c ∷ s) =
    length-if (is_ascii_space a) (trim_left (b ∷ c ∷ s))
      (if is_space_2 a b
        then trim_left (c ∷ s)
        else if is_space_3 a b c
        then trim_left s
        else a ∷ b ∷ c ∷ s)
      (suc (suc (suc (length s)))) (omega (arith, length-trim_left (b ∷ c ∷ s)))
      (length-if (is_space_2 a b) (trim_left (c ∷ s))
        (if is_space_3 a b c then trim_left s else a ∷ b ∷ c ∷ s) (suc (suc (suc (length s))))
        (omega (arith, length-trim_left (c ∷ s)))
        (length-if (is_space_3 a b c) (trim_left s) (a ∷ b ∷ c ∷ s) (suc (suc (suc (length s))))
          (omega (arith, length-trim_left s)) (omega arith)))

length-trim_right_reversed : (s : Bytes) → length (trim_right_reversed s) ≤ length s
unfolding trim_right_reversed
length-trim_right_reversed [] = omega arith
length-trim_right_reversed (a ∷ []) =
    length-if (is_ascii_space a) [] (a ∷ []) 1 (omega arith) (omega arith)
length-trim_right_reversed (a ∷ b ∷ []) =
    length-if (is_ascii_space a) (trim_right_reversed (b ∷ []))
      (if is_space_2 b a then [] else a ∷ b ∷ []) 2
      (omega (arith, length-trim_right_reversed (b ∷ [])))
      (length-if (is_space_2 b a) [] (a ∷ b ∷ []) 2 (omega arith) (omega arith))
length-trim_right_reversed (a ∷ b ∷ c ∷ s) =
    length-if (is_ascii_space a) (trim_right_reversed (b ∷ c ∷ s))
      (if is_space_2 b a
        then trim_right_reversed (c ∷ s)
        else if is_space_3 c b a
        then trim_right_reversed s
        else a ∷ b ∷ c ∷ s)
      (suc (suc (suc (length s)))) (omega (arith, length-trim_right_reversed (b ∷ c ∷ s)))
      (length-if (is_space_2 b a) (trim_right_reversed (c ∷ s))
        (if is_space_3 c b a then trim_right_reversed s else a ∷ b ∷ c ∷ s)
        (suc (suc (suc (length s)))) (omega (arith, length-trim_right_reversed (c ∷ s)))
        (length-if (is_space_3 c b a) (trim_right_reversed s) (a ∷ b ∷ c ∷ s)
          (suc (suc (suc (length s)))) (omega (arith, length-trim_right_reversed s)) (omega arith)))

pub length-trim_space : (s : Bytes) → length (trim_space s) ≤ length s
unfolding trim_space
length-trim_space s = omega (
  arith,
  length-reverse (trim_right_reversed (reverse (trim_left s))),
  length-trim_right_reversed (reverse (trim_left s)),
  length-reverse (trim_left s),
  length-trim_left s,
)
