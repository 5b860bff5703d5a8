-- ===== src/Manif/Quoted.antt =====
-- Strings: what luaQ of manif/writer.go quotes, parseShortString of manif/parser.go reads back.
use go_luarocks.Prelude.{
  any, ℕ, zero, suc, ◌+◌, ◌-◌, ◌<◌, ◌≤◌, ◌≡◌, refl, ◌∙◌, ap, true, false, ◌||◌, [], ◌∷◌, ◌++◌,
  arith, Bytes, is_digit, ok, if◌then◌else◌, length, length-append, drop, ltb, ◌==◌, digits_value,
  decimal, digits_value-decimal, all-decimal, length-decimal_pos, length-decimal_le, all, replicate,
  append_assoc, &&-eq-true, all-append, Bool-cases, inl, inr,
}
use go_luarocks.Manif.Value.{Value, FloatText, str}
use go_luarocks.Manif.Parser.{Read, parse_table, parse_value, dispatch, text_value}
use go_luarocks.Manif.Writer.{
  is_line_end, write_value, write_string, next_is_digit, padded, quote_byte, quote_bytes, lua_q,
}
use go_luarocks.Manif.Lexer.{
  byte, digit_run, decimal_escape, escape, string_step, short_string, skip_ws,
}

-- A run of digits that has three of them, or that no digit follows, is read as a whole.
digit_run-append :
    (n : ℕ) (ds tail : Bytes)
    → all is_digit ds ≡ true
    → length ds ≤ n
    → (length ds < n → next_is_digit tail ≡ false)
    → digit_run n (ds ++ tail) ≡ ds
unfolding digit_run
digit_run-append zero [] tail d h stop = refl
digit_run-append zero (c ∷ ds) tail d h stop = absurd (omega arith)
digit_run-append (suc n) [] [] d h stop = refl
digit_run-append (suc n) [] (t ∷ tail) d h stop = ground (arith, stop)
digit_run-append (suc n) (c ∷ ds) tail d h stop =
    let (hc, hs) = &&-eq-true (is_digit c) (all is_digit ds) d in
    rw hc (ap (λ r. c ∷ r) (digit_run-append n ds tail hs (omega arith) (λ l. stop (omega arith))))

drop-append : (s t : Bytes) → drop (length s) (s ++ t) ≡ t
drop-append [] t = refl
drop-append (c ∷ s) t = drop-append s t

decimal_escape-append :
    (n : ℕ) (ds tail : Bytes)
    → all is_digit ds ≡ true
    → length ds ≤ 3
    → (length ds < 3 → next_is_digit tail ≡ false)
    → digits_value 0 ds ≡ n
    → n < 256
    → decimal_escape (ds ++ tail) ≡ byte n tail
unfolding decimal_escape
decimal_escape-append n ds tail d h stop v b =
    rw (digit_run-append 3 ds tail d h stop, v, drop-append ds tail) (ground arith)

-- A digit behind a backslash begins a decimal escape.
escape-digits :
    (ds tail : Bytes)
    → all is_digit ds ≡ true
    → 0 < length ds
    → escape (ds ++ tail) ≡ decimal_escape (ds ++ tail)
unfolding escape
escape-digits [] tail d h = absurd (omega arith)
escape-digits (c ∷ ds) tail d h = ground arith

zeros-digits : (n : ℕ) → all is_digit (replicate n b'0') ≡ true
zeros-digits zero = refl
zeros-digits (suc n) = zeros-digits n

digits_value-zeros : (n : ℕ) (s : Bytes) → digits_value 0 (replicate n b'0' ++ s) ≡ digits_value 0 s
unfolding digits_value
digits_value-zeros zero s = refl
digits_value-zeros (suc n) s = digits_value-zeros n s

length-replicate : (n c : ℕ) → length {A = ℕ} (replicate n c) ≡ n
length-replicate zero c = refl
length-replicate (suc n) c = ap suc (length-replicate n c)

padded-digits : (c : ℕ) → all is_digit (padded c) ≡ true
unfolding padded
padded-digits c =
    all-append is_digit (replicate (3 - length (decimal c)) b'0') (decimal c)
      (zeros-digits (3 - length (decimal c))) (all-decimal c)

length-padded : (c : ℕ) → c < 1000 → length (padded c) ≡ 3
unfolding padded
length-padded c h = omega (
  arith,
  length-append {0} (replicate (3 - length (decimal c)) b'0') (decimal c),
  length-replicate (3 - length (decimal c)) b'0',
  length-decimal_le c h,
)

digits_value-padded : (c : ℕ) → digits_value 0 (padded c) ≡ c
unfolding padded
digits_value-padded c =
    digits_value-zeros (3 - length (decimal c)) (decimal c) ∙ digits_value-decimal c

-- The escape of a control character, before text that begins as what is quoted after it.
escape-control :
    (c : ℕ) (s tail : Bytes)
    → c < 256
    → next_is_digit tail ≡ next_is_digit s
    → escape ((if next_is_digit s then padded c else decimal c) ++ tail) ≡ byte c tail
escape-control c s tail h same_next = elim (Bool-cases (next_is_digit s)) [
  | inl d ↦ rw d (
      escape-digits (padded c) tail (padded-digits c) (omega (arith, length-padded c))
      ∙ decimal_escape-append c (padded c) tail (padded-digits c) (omega (arith, length-padded c))
          (λ l. absurd (omega (arith, length-padded c))) (digits_value-padded c) h)
  | inr d ↦ rw d (
      escape-digits (decimal c) tail (all-decimal c) (length-decimal_pos c)
      ∙ decimal_escape-append c (decimal c) tail (all-decimal c) (length-decimal_le c (omega arith))
          (λ l. same_next ∙ d) (digits_value-decimal c) h)
]

string_step-quote_byte :
    (c : ℕ) (s tail : Bytes)
    → next_is_digit tail ≡ next_is_digit s
    → string_step b'"' (quote_byte c s ++ tail) ≡ byte c tail
unfolding string_step quote_byte
string_step-quote_byte c s tail h = elim (Bool-cases ((c == b'"') || (c == 92))) [
  | inl quoted ↦ rw quoted (unfold escape in ground arith)
  | inr unquoted ↦ elim (Bool-cases (c == 10)) [
    | inl line ↦ rw (unquoted, line) (unfold escape in ground arith)
    | inr inner ↦ elim (Bool-cases (ltb c 0x20 || (c == 0x7F))) [
      | inl control ↦ rw (unquoted, inner, control) (escape-control c s tail (ground arith) h)
      | inr plain ↦ rw (unquoted, inner, plain) (ground arith)
    ]
  ]
]

-- The first byte of quoted text is a digit where that of the text is.
next_is_digit-quote_bytes :
    (s rest : Bytes) → next_is_digit (quote_bytes s ++ (b'"' ∷ rest)) ≡ next_is_digit s
unfolding quote_bytes quote_byte
next_is_digit-quote_bytes [] rest = refl
next_is_digit-quote_bytes (c ∷ s) rest = ground arith

pub short_string-byte :
    (fuel quote : ℕ) (t text rest after : Bytes) (b : ℕ)
    → string_step quote t ≡ byte b rest
    → short_string fuel quote rest ≡ ok (text, after)
    → short_string (suc fuel) quote t ≡ ok (b ∷ text, after)
unfolding short_string
short_string-byte fuel quote t text rest after b h k = ground arith

short_string-quote_bytes :
    (s rest : Bytes) (fuel : ℕ)
    → length s < fuel
    → short_string fuel b'"' (quote_bytes s ++ (b'"' ∷ rest)) ≡ ok (s, rest)
unfolding quote_bytes
short_string-quote_bytes s rest zero h = absurd (omega arith)
short_string-quote_bytes [] rest (suc fuel) h = unfold string_step short_string in refl
short_string-quote_bytes (c ∷ s) rest (suc fuel) h =
    let tail = quote_bytes s ++ (b'"' ∷ rest) in
    ap (short_string (suc fuel) b'"') (append_assoc (quote_byte c s) (quote_bytes s) (b'"' ∷ rest))
    ∙ short_string-byte fuel b'"' (quote_byte c s ++ tail) s tail rest c
        (string_step-quote_byte c s tail (next_is_digit-quote_bytes s rest))
        (short_string-quote_bytes s rest fuel (omega arith))

-- What luaQ writes behind its opening quote, parseShortString reads back, with what follows the
-- closing quote left over, in one round for each byte and one for the quote.
pub short_string-lua_q :
    (s rest : Bytes) (fuel : ℕ)
    → length s < fuel
    → short_string fuel b'"' (drop 1 (lua_q s) ++ rest) ≡ ok (s, rest)
unfolding lua_q
short_string-lua_q s rest fuel h =
    rw (append_assoc (quote_bytes s) (b'"' ∷ []) rest) (short_string-quote_bytes s rest fuel h)

length-quote_byte : (c : ℕ) (s : Bytes) → 1 ≤ length (quote_byte c s)
unfolding quote_byte
length-quote_byte c s = ground arith

length-quote_bytes : (s : Bytes) → length s ≤ length (quote_bytes s)
unfolding quote_bytes
length-quote_bytes [] = omega arith
length-quote_bytes (c ∷ s) = omega (
  arith,
  length-append {0} (quote_byte c s) (quote_bytes s),
  length-quote_byte c s,
  length-quote_bytes s,
)

write_string-plain : (s : Bytes) → any is_line_end s ≡ false → write_string s ≡ lua_q s
unfolding write_string
write_string-plain s h = rw h refl

dispatch-quote :
    {N : Type 0} ⦃ft : FloatText N⦄ (table : Bytes → Read (Value N)) (t s rest : Bytes)
    → short_string (length t + 1) b'"' t ≡ ok (s, rest)
    → dispatch table (skip_ws (b'"' ∷ t)) ≡ ok (str s, rest)
unfolding dispatch skip_ws text_value
dispatch-quote {N} table t s rest h = ap (text_value {N = N}) h

-- A string with no line break, written as a value in front of whatever text, is read back by
-- parseValue as that string, and the text is left over.
pub parse_value-write_string :
    {N : Type 0} ⦃ft : FloatText N⦄ (s rest : Bytes) (fuel level : ℕ)
    → any is_line_end s ≡ false
    → parse_value {N = N} (suc fuel) (write_value {N = N} (str s) level ++ rest) ≡ ok (str s, rest)
unfolding parse_value write_value lua_q
parse_value-write_string {N} s rest fuel level h =
    ap (λ w. parse_value {N = N} (suc fuel) (w ++ rest)) (write_string-plain s h)
    ∙ dispatch-quote {N = N} (parse_table {N = N} fuel) (drop 1 (lua_q s) ++ rest) s rest (
        short_string-lua_q s rest _ (
          unfold lua_q in
          omega (
            arith,
            length-append {0} (quote_bytes s ++ (b'"' ∷ [])) rest,
            length-append {0} (quote_bytes s) (b'"' ∷ []),
            length-quote_bytes s,
          )))
