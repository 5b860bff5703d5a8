-- ===== src/Prelude/Decimal.antt =====
-- Decimal text of numbers: strconv.Itoa and FormatInt, and that reading it back gives the number.
use Prim.Native.Nat.{ℕ, zero, suc, ◌+◌, ◌-◌, ◌*◌, ◌/◌, ◌%◌, ◌≤◌, ◌<◌}
use mathlib.Core.Path.{◌≡◌, refl, ◌∙◌, ap}
use mathlib.Core.Bool.{true}
use mathlib.Core.Option.{some}
use mathlib.Core.List.{[], ◌∷◌, ◌++◌}
use mathlib.Core.Logic.{inl, inr}
use native.Mathlib.Omega.{arith}
use go_luarocks.Prelude.Tests.{ltb, if◌then◌else◌, Bool-cases}
use go_luarocks.Prelude.Lists.{all, length}
use go_luarocks.Prelude.Text.{Bytes, is_digit, digits_value, atoi, max_int}
use go_luarocks.Prelude.Int.{ℤ, pos, negsuc}

abbrev digit_of : ℕ → ℕ
digit_of n = b'0' + n % 10

-- The digits of `n` before `tail`, last digit first to be found. The fuel counts the divisions.
decimal_before : ℕ → ℕ → Bytes → Bytes
decimal_before zero n tail = tail
decimal_before (suc fuel) n tail =
    let more = decimal_before fuel (n / 10) (digit_of n ∷ tail) in
    if ltb n 10 then digit_of n ∷ tail else more

unfoldable pub decimal : ℕ → Bytes
unfolding decimal_before
decimal n = decimal_before (suc n) n []

unfoldable pub decimal_ℤ : ℤ → Bytes
unfolding decimal
decimal_ℤ (pos n) = decimal n
decimal_ℤ (negsuc n) = b'-' ∷ decimal (suc n)

digits_value-append :
    (acc : ℕ) (s t : Bytes) → digits_value acc (s ++ t) ≡ digits_value (digits_value acc s) t
unfolding digits_value
digits_value-append acc [] t = refl
digits_value-append acc (c ∷ s) t = digits_value-append (acc * 10 + (c - b'0')) s t

-- Reading starts at 0, so the value of the digits found stands before that of the tail.
digits_value-decimal_before :
    (fuel n : ℕ) (tail : Bytes)
    → n < fuel
    → digits_value 0 (decimal_before fuel n tail) ≡ digits_value n tail
unfolding decimal_before digits_value
digits_value-decimal_before zero n tail h = absurd (omega arith)
digits_value-decimal_before (suc fuel) n tail h = elim (Bool-cases (ltb n 10)) [
  | inl small ↦ rw small (ap (λ x. digits_value x tail) (ground arith))
  | inr big ↦ rw big (
      digits_value-decimal_before fuel (n / 10) (digit_of n ∷ tail) (ground arith)
      ∙ ap (λ x. digits_value x tail) (omega arith))
]

pub digits_value-decimal : (n : ℕ) → digits_value 0 (decimal n) ≡ n
unfolding decimal
digits_value-decimal n =
    digits_value-decimal_before (suc n) n [] (omega arith) ∙ (unfold digits_value in refl)

all-decimal_before :
    (fuel n : ℕ) (tail : Bytes)
    → all is_digit tail ≡ true
    → all is_digit (decimal_before fuel n tail) ≡ true
unfolding decimal_before
all-decimal_before zero n tail h = h
all-decimal_before (suc fuel) n tail h =
    ground (arith, all-decimal_before fuel (n / 10) (digit_of n ∷ tail))

pub all-decimal : (n : ℕ) → all is_digit (decimal n) ≡ true
unfolding decimal
all-decimal n = all-decimal_before (suc n) n [] refl

length-decimal_before-pos :
    (fuel n : ℕ) (tail : Bytes) → length tail ≤ length (decimal_before fuel n tail)
unfolding decimal_before
length-decimal_before-pos zero n tail = omega arith
length-decimal_before-pos (suc fuel) n tail =
    ground (arith, length-decimal_before-pos fuel (n / 10) (digit_of n ∷ tail))

pub length-decimal_pos : (n : ℕ) → 0 < length (decimal n)
unfolding decimal decimal_before
length-decimal_pos n = ground (arith, length-decimal_before-pos n (n / 10) (digit_of n ∷ []))

-- Atoi reads back what Itoa writes.
pub atoi-decimal : (n : ℕ) → n ≤ max_int → atoi (decimal n) ≡ some n
unfolding atoi
atoi-decimal n h = ground (arith, digits_value-decimal n)

-- A number below 1000 has at most three digits.
length-decimal_before_1 :
    (fuel n : ℕ) (tail : Bytes) → n < 10 → length (decimal_before fuel n tail) ≤ 1 + length tail
unfolding decimal_before
length-decimal_before_1 zero n tail h = omega arith
length-decimal_before_1 (suc fuel) n tail h = ground arith

length-decimal_before_2 :
    (fuel n : ℕ) (tail : Bytes) → n < 100 → length (decimal_before fuel n tail) ≤ 2 + length tail
unfolding decimal_before
length-decimal_before_2 zero n tail h = omega arith
length-decimal_before_2 (suc fuel) n tail h =
    ground (arith, length-decimal_before_1 fuel (n / 10) (digit_of n ∷ tail) (omega arith))

length-decimal_before_3 :
    (fuel n : ℕ) (tail : Bytes) → n < 1000 → length (decimal_before fuel n tail) ≤ 3 + length tail
unfolding decimal_before
length-decimal_before_3 zero n tail h = omega arith
length-decimal_before_3 (suc fuel) n tail h =
    ground (arith, length-decimal_before_2 fuel (n / 10) (digit_of n ∷ tail) (omega arith))

pub length-decimal_le : (n : ℕ) → n < 1000 → length (decimal n) ≤ 3
unfolding decimal
length-decimal_le n h = length-decimal_before_3 (suc n) n [] h
