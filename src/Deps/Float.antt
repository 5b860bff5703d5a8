-- ===== src/Deps/Float.antt =====
-- The float64 numbers of `Version.Components` in types.go, as the code of deps uses them: the
-- conversion from an int, `+`, `/`, `==` and `<`. They are a parameter of the model.
use go_luarocks.Prelude.{◌^◌, ◌≤◌, ◌≡◌, ◌↔◌, Bool, true, false, ℤ, pos, pos_part, neg_part, ◌<ℤ◌}

-- The values are those other than NaN, with -0 and 0 as one value, so that `==` is equality. The
-- laws are those of the IEEE 754 comparisons, and that the integers up to 2^53 are exact.
pub record Float (N : Type 0) : Type 0 where
  pub of_int : ℤ → N
  pub add : N → N → N
  pub div : N → N → N
  pub beq : N → N → Bool
  pub blt : N → N → Bool
  pub beq_iff : (a b : N) → (beq a b ≡ true) ↔ (a ≡ b)
  pub blt_irrefl : (a : N) → blt a a ≡ false
  pub blt_trans : (a b c : N) → blt a b ≡ true → blt b c ≡ true → blt a c ≡ true
  pub blt_total : (a b : N) → beq a b ≡ false → blt a b ≡ false → blt b a ≡ true
  pub blt-of_int :
      (a b : ℤ)
      → pos_part a ≤ 2 ^ 53
      → neg_part a ≤ 2 ^ 53
      → pos_part b ≤ 2 ^ 53
      → neg_part b ≤ 2 ^ 53
      → a <ℤ b
      → blt (of_int a) (of_int b) ≡ true

abbrev pub zero_float : {N : Type 0} ⦃fl : Float N⦄ → N
zero_float ⦃fl⦄ = fl.of_int (pos 0)
