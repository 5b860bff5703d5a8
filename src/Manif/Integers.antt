-- ===== src/Manif/Integers.antt =====
-- Integers: what writeValue of manif/writer.go writes, parseNumber of manif/parser.go reads back.
use go_luarocks.Prelude.{
  ℕ, suc, ◌<◌, ◌^◌, ◌≡◌, refl, Bool, true, false, not, ◌||◌, some, [], ◌∷◌, ◌++◌, arith, Bytes, ℤ,
  pos, negsuc, is_digit, ok, length, length-append, ◌==◌, drop_while, take_while-append,
  drop_while-append, Stops, decimal, decimal_ℤ, digits_value-decimal, digits_value, all-decimal,
  length-decimal_pos, all, &&-eq-true,
}
use go_luarocks.Manif.Value.{Value, FloatText, int}
use go_luarocks.Files.Strings.{has_prefix}
use go_luarocks.Manif.Writer.{write_value}
use go_luarocks.Manif.Lexer.{
  sign_part, fraction_part, exponent_part, parse_int, parse_number, integer, skip_ws,
  starts_comment,
}
use go_luarocks.Manif.Parser.{Read, parse_table, parse_value, dispatch, number_value}

-- No digit, fraction or exponent follows.
abbrev pub ends_number : Bytes → Bool
ends_number [] = true
ends_number (c ∷ s) = not (is_digit c || ((c == b'.') || ((c == b'e') || (c == b'E'))))

-- A 64-bit integer.
abbrev pub IsInt64 : ℤ → Type 0
IsInt64 (pos n) = n < 2 ^ 63
IsInt64 (negsuc n) = n < 2 ^ 63

parse_int-digits :
    (ds : Bytes) (n : ℕ)
    → 0 < length ds
    → digits_value 0 ds ≡ n
    → n < 2 ^ 63
    → parse_int [] ds ≡ some (pos n)
unfolding parse_int
parse_int-digits [] n l v h = absurd (omega arith)
parse_int-digits (d ∷ ds) n l v h = rw v (ground arith)

parse_int-minus-digits :
    (ds : Bytes) (n : ℕ)
    → 0 < length ds
    → digits_value 0 ds ≡ suc n
    → n < 2 ^ 63
    → parse_int (b'-' ∷ []) ds ≡ some (negsuc n)
unfolding parse_int
parse_int-minus-digits [] n l v h = absurd (omega arith)
parse_int-minus-digits (d ∷ ds) n l v h = rw v (ground arith)

parse_int-decimal : (n : ℕ) → n < 2 ^ 63 → parse_int [] (decimal n) ≡ some (pos n)
parse_int-decimal n h =
    parse_int-digits (decimal n) n (length-decimal_pos n) (digits_value-decimal n) h

parse_int-minus : (n : ℕ) → n < 2 ^ 63 → parse_int (b'-' ∷ []) (decimal (suc n)) ≡ some (negsuc n)
parse_int-minus n h =
    parse_int-minus-digits (decimal (suc n)) n (length-decimal_pos (suc n))
      (digits_value-decimal (suc n)) h

fraction_part-none : (rest : Bytes) → ends_number rest ≡ true → fraction_part rest ≡ ([], rest)
unfolding fraction_part
fraction_part-none [] h = refl
fraction_part-none (c ∷ s) h = ground arith

exponent_part-none : (rest : Bytes) → ends_number rest ≡ true → exponent_part rest ≡ ([], rest)
unfolding exponent_part
exponent_part-none [] h = refl
exponent_part-none (c ∷ s) h = ground arith

ends_number-Stops : (rest : Bytes) → ends_number rest ≡ true → Stops is_digit rest
ends_number-Stops [] h = tt
ends_number-Stops (c ∷ s) h = ground arith

sign_part-digits :
    (ds rest : Bytes)
    → all is_digit ds ≡ true
    → 0 < length ds
    → sign_part (ds ++ rest) ≡ ([], ds ++ rest)
unfolding sign_part
sign_part-digits [] rest d l = absurd (omega arith)
sign_part-digits (c ∷ ds) rest d l = ground arith

skip_ws-digit : (c : ℕ) (t : Bytes) → is_digit c ≡ true → skip_ws (c ∷ t) ≡ c ∷ t
unfolding skip_ws starts_comment has_prefix
skip_ws-digit c t d = ground arith

skip_ws-minus : (c : ℕ) (t : Bytes) → is_digit c ≡ true → skip_ws (b'-' ∷ c ∷ t) ≡ b'-' ∷ c ∷ t
unfolding skip_ws starts_comment has_prefix
skip_ws-minus c t d = ground arith

module _ {N : Type 0} ⦃ft : FloatText N⦄ where
  parse_number-signed :
      (s sign ds rest : Bytes) (n : ℤ)
      → sign_part s ≡ (sign, ds ++ rest)
      → all is_digit ds ≡ true
      → 0 < length ds
      → ends_number rest ≡ true
      → parse_int sign ds ≡ some n
      → parse_number {N = N} s ≡ ok (integer n, rest)
  unfolding parse_number
  parse_number-signed s sign ds rest n e d l h k =
      let after : (exponent_part (fraction_part (drop_while is_digit (sign_part s).1)).1).1 ≡ rest =
        rw
          (
            e,
            drop_while-append is_digit ds rest d (ends_number-Stops rest h),
            fraction_part-none rest h,
            exponent_part-none rest h,
          )
          refl in
      let some_digits : (length (ds ++ []) == 0) ≡ false =
        ground (arith, length-append {0} ds []) in
      rw
        (
          e,
          take_while-append is_digit ds rest d (ends_number-Stops rest h),
          drop_while-append is_digit ds rest d (ends_number-Stops rest h),
          fraction_part-none rest h,
          exponent_part-none rest h,
          k,
        )
        (rw (some_digits, after) refl)

  dispatch-digit :
      (table : Bytes → Read (Value N)) (c : ℕ) (t rest : Bytes) (n : ℤ)
      → is_digit c ≡ true
      → parse_number {N = N} (c ∷ t) ≡ ok (integer n, rest)
      → dispatch table (c ∷ t) ≡ ok (int n, rest)
  unfolding dispatch number_value
  dispatch-digit table c t rest n d h = ground arith

  dispatch-digits :
      (table : Bytes → Read (Value N)) (ds rest : Bytes) (n : ℤ)
      → all is_digit ds ≡ true
      → 0 < length ds
      → parse_number {N = N} (ds ++ rest) ≡ ok (integer n, rest)
      → dispatch table (skip_ws (ds ++ rest)) ≡ ok (int n, rest)
  dispatch-digits table [] rest n d l h = absurd (omega arith)
  dispatch-digits table (c ∷ ds) rest n d l h =
      let digit = (&&-eq-true (is_digit c) (all is_digit ds) d).0 in
      rw (skip_ws-digit c (ds ++ rest) digit) (dispatch-digit table c (ds ++ rest) rest n digit h)

  dispatch-minus :
      (table : Bytes → Read (Value N)) (ds rest : Bytes) (n : ℤ)
      → all is_digit ds ≡ true
      → 0 < length ds
      → parse_number {N = N} (b'-' ∷ (ds ++ rest)) ≡ ok (integer n, rest)
      → dispatch table (skip_ws (b'-' ∷ (ds ++ rest))) ≡ ok (int n, rest)
  dispatch-minus table [] rest n d l h = absurd (omega arith)
  dispatch-minus table (c ∷ ds) rest n d l h =
      let digit = (&&-eq-true (is_digit c) (all is_digit ds) d).0 in
      rw (skip_ws-minus c (ds ++ rest) digit) (unfold dispatch number_value in rw h refl)

  -- A 64-bit integer, written as a value in front of text that does not go on as a number, is read
  -- back by parseValue as that integer, and the text is left over.
  pub parse_value-write_int :
      (n : ℤ) (rest : Bytes) (fuel level : ℕ)
      → IsInt64 n
      → ends_number rest ≡ true
      → parse_value {N = N} (suc fuel) (write_value {N = N} (int n) level ++ rest)
        ≡ ok (int n, rest)
  unfolding parse_value write_value decimal_ℤ
  parse_value-write_int (pos n) rest fuel level i h =
      dispatch-digits (parse_table fuel) (decimal n) rest (pos n) (all-decimal n)
        (length-decimal_pos n)
        (parse_number-signed (decimal n ++ rest) [] (decimal n) rest (pos n)
          (sign_part-digits (decimal n) rest (all-decimal n) (length-decimal_pos n)) (all-decimal n)
          (length-decimal_pos n) h (parse_int-decimal n i))
  parse_value-write_int (negsuc n) rest fuel level i h =
      let ds = decimal (suc n) in
      dispatch-minus (parse_table fuel) ds rest (negsuc n) (all-decimal (suc n))
        (length-decimal_pos (suc n))
        (parse_number-signed (b'-' ∷ (ds ++ rest)) (b'-' ∷ []) ds rest (negsuc n)
          (unfold sign_part in refl) (all-decimal (suc n)) (length-decimal_pos (suc n)) h
          (parse_int-minus n i))
