-- ===== src/Deps/Scaled.antt =====
-- Numbers that meet the laws of `Float`: integers that count the hundred-thousandths.
use go_luarocks.Prelude.{
  ℕ, suc, ◌+◌, ◌-◌, ◌*◌, ◌/◌, ◌≡◌, true, false, arith, ℤ, pos, negsuc, pos_part, neg_part, ◌<ℤ◌,
  ltb_ℤ, eqb_ℤ, eqb_ℤ-iff, if◌then◌else◌, leb,
}
use go_luarocks.Deps.Float.{Float}

abbrev scale : ℕ
scale = 100000

abbrev pub scaled_of_int : ℤ → ℤ
scaled_of_int (pos n) = pos (n * 100000)
scaled_of_int (negsuc n) = negsuc (n * 100000 + 99999)

abbrev pub scaled_add : ℤ → ℤ → ℤ
scaled_add a b =
    let p = pos_part a + pos_part b in
    let n = neg_part a + neg_part b in if leb n p then pos (p - n) else negsuc (n - p - 1)

-- Towards 0; the code divides by positive numbers only.
abbrev pub scaled_div : ℤ → ℤ → ℤ
scaled_div (pos a) b = pos (a * 100000 / pos_part b)
scaled_div (negsuc a) b = negsuc (suc a * 100000 / pos_part b - 1)

pub blt_irrefl : (a : ℤ) → ltb_ℤ a a ≡ false
blt_irrefl a = ground arith

pub blt_trans : (a b c : ℤ) → ltb_ℤ a b ≡ true → ltb_ℤ b c ≡ true → ltb_ℤ a c ≡ true
blt_trans a b c h k = ground arith

pub blt_total : (a b : ℤ) → eqb_ℤ a b ≡ false → ltb_ℤ a b ≡ false → ltb_ℤ b a ≡ true
blt_total a b h k = ground arith

pub blt-of_int : (a b : ℤ) → a <ℤ b → ltb_ℤ (scaled_of_int a) (scaled_of_int b) ≡ true
blt-of_int a b h = ground arith

instance abbrev pub scaled : Float ℤ
scaled = record {
  of_int = scaled_of_int;
  add = scaled_add;
  div = scaled_div;
  beq = eqb_ℤ;
  blt = ltb_ℤ;
  beq_iff = eqb_ℤ-iff;
  blt_irrefl = blt_irrefl;
  blt_trans = blt_trans;
  blt_total = blt_total;
  blt-of_int = λ a b _ _ _ _ h. blt-of_int a b h;
}
