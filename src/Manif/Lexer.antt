-- ===== src/Manif/Lexer.antt =====
-- manif/parser.go: white space, identifiers, strings and numbers. The position `p.pos` is the rest of
-- the text: `p.src[p.pos:]`.
use go_luarocks.Prelude.{
  ℕ, zero, suc, ◌+◌, ◌-◌, ◌*◌, ◌^◌, Bool, true, false, ◌&&◌, ◌||◌, not, Option, none, some, [], ◌∷◌,
  ◌++◌, ℤ, pos, negsuc, Bytes, is_digit, Result, ok, err, if◌then◌else◌, length, take_while,
  drop_while, leb, ltb, ◌==◌, digits_value, drop,
}
use go_luarocks.Manif.Value.{FloatText}
use go_luarocks.Files.Strings.{has_prefix}
use go_luarocks.Manif.Writer.{close_bracket}

-- What the message of p.errorf says.
pub data Fault : Type 0 where
  expected_identifier expected_equals unexpected_end unexpected_bracket unexpected_nil : Fault
  unsupported_identifier unexpected_byte newline_in_string dangling_backslash : Fault
  bad_hex_escape decimal_escape_range unknown_escape unterminated_string : Fault
  unterminated_long_bracket malformed_number expected_bracket expected_comma : Fault
  -- a panic of the program: a table key of a type that entriesToValue does not take
  bad_key_panic : Fault
  -- no counterpart in the program: the model's own bound was met
  out_of_fuel : Fault

-- A fault, and the text from p.pos on.
pub record ParseError : Type 0 where
  pub fault : Fault
  pub rest : Bytes

abbrev pub fail {ℓ} : {A : Type ℓ} → Fault → Bytes → Result ParseError A
fail fault rest = err (record { fault = fault; rest = rest })

abbrev pub is_blank : ℕ → Bool
is_blank c = (c == b' ') || ((c == 9) || ((c == 10) || (c == 13)))

-- At a dash: a second dash, and no long comment behind it.
unfoldable pub starts_comment : Bytes → Bool
unfolding has_prefix
starts_comment s =
    has_prefix s (b'-' ∷ b'-' ∷ [])
    && not (
        has_prefix s (b'-' ∷ b'-' ∷ b'[' ∷ b'[' ∷ [])
        || has_prefix s (b'-' ∷ b'-' ∷ b'[' ∷ b'=' ∷ []))

-- skipWS; the flag says that a comment is being skipped.
unfoldable pub skip : Bool → Bytes → Bytes
unfolding starts_comment
skip in_comment [] = []
skip true (c ∷ s) = if c == 10 then skip false s else skip true s
skip false (c ∷ s) =
    let comment = skip true s in
    let blank = skip false s in
    if is_blank c then blank else if starts_comment (c ∷ s) then comment else c ∷ s

unfoldable pub skip_ws : Bytes → Bytes
unfolding skip
skip_ws = skip false

-- hexDigit
unfoldable pub hex_digit : ℕ → Option ℕ
hex_digit c =
    if is_digit c
    then some (c - b'0')
    else if leb b'a' c && leb c b'f'
    then some (c - b'a' + 10)
    else if leb b'A' c && leb c b'F'
    then some (c - b'A' + 10)
    else none

-- One round of the loop of parseShortString: the string ends, or a byte is added.
pub data StringStep : Type 0 where
  closed : Bytes → StringStep
  byte : ℕ → Bytes → StringStep
  bad : Fault → Bytes → StringStep

-- At most `n` decimal digits.
unfoldable pub digit_run : ℕ → Bytes → Bytes
digit_run zero s = []
digit_run (suc n) [] = []
digit_run (suc n) (c ∷ s) = if is_digit c then c ∷ digit_run n s else []

unfoldable pub decimal_escape : Bytes → StringStep
decimal_escape s =
    let run = digit_run 3 s in
    let n = digits_value 0 run in
    let rest = drop (length run) s in
    if ltb 255 n then bad decimal_escape_range rest else byte n rest

-- Behind \x: two hex digits.
unfoldable pub hex_escape : Bytes → StringStep
unfolding hex_digit
hex_escape (a ∷ b ∷ s) = elim (hex_digit a) [
  | none ↦ bad bad_hex_escape (b'x' ∷ a ∷ b ∷ s)
  | some h1 ↦ elim (hex_digit b) [
    | none ↦ bad bad_hex_escape (b'x' ∷ a ∷ b ∷ s)
    | some h2 ↦ byte (h1 * 16 + h2) s
  ]
]
hex_escape s = bad bad_hex_escape (b'x' ∷ s)

-- Behind a backslash.
unfoldable pub escape : Bytes → StringStep
escape [] = bad dangling_backslash []
escape (e ∷ s) =
    if e == b'a'
    then byte 7 s
    else if e == b'b'
    then byte 8 s
    else if e == b'f'
    then byte 12 s
    else if e == b'n'
    then byte 10 s
    else if e == b'r'
    then byte 13 s
    else if e == b't'
    then byte 9 s
    else if e == b'v'
    then byte 11 s
    else if (e == 92) || ((e == b'"') || (e == 39))
    then byte e s
    else if e == 10
    then byte 10 s
    else if e == b'x'
    then hex_escape s
    else if is_digit e
    then decimal_escape (e ∷ s)
    else bad unknown_escape (e ∷ s)

unfoldable pub string_step : ℕ → Bytes → StringStep
string_step quote [] = bad unterminated_string []
string_step quote (c ∷ s) =
    if c == quote
    then closed s
    else if c == 10
    then bad newline_in_string (c ∷ s)
    else if c == 92
    then escape s
    else byte c s

-- Behind the opening quote. Each round takes a byte at least, so the length of the text is fuel enough.
unfoldable pub short_string : ℕ → ℕ → Bytes → Result ParseError (Bytes × Bytes)
short_string zero quote s = fail out_of_fuel s
short_string (suc fuel) quote s = elim (string_step quote s) [
  | closed rest ↦ ok ([], rest)
  | bad fault rest ↦ fail fault rest
  | byte b rest ↦ elim (short_string fuel quote rest) [
    | err e ↦ err e
    | ok (text, after) ↦ ok (b ∷ text, after)
  ]
]

unfoldable pub prepend : ℕ → Option (Bytes × Bytes) → Option (Bytes × Bytes)
prepend c none = none
prepend c (some (before, after)) = some (c ∷ before, after)

-- strings.Index(s, p), as the text before the first occurrence and the text behind it.
unfoldable pub split_at : Bytes → Bytes → Option (Bytes × Bytes)
unfolding has_prefix prepend
split_at p [] = if has_prefix [] p then some ([], []) else none
split_at p (c ∷ s) =
    let later = prepend c (split_at p s) in
    if has_prefix (c ∷ s) p then some ([], drop (length p) (c ∷ s)) else later

-- The line break that is dropped behind the opening bracket: \r\n, \n\r, \n or \r.
unfoldable pub drop_line_end : Bytes → Bytes
drop_line_end [] = []
drop_line_end (a ∷ []) = if (a == 10) || (a == 13) then [] else a ∷ []
drop_line_end (a ∷ b ∷ s) =
    if ((a == 13) && (b == 10)) || ((a == 10) && (b == 13))
    then s
    else if (a == 10) || (a == 13)
    then b ∷ s
    else a ∷ b ∷ s

-- normalizeLongBracketEOL
unfoldable pub normalize_eol : Bytes → Bytes
normalize_eol [] = []
normalize_eol (a ∷ []) = if a == 13 then 10 ∷ [] else a ∷ []
normalize_eol (a ∷ b ∷ s) =
    let pair = normalize_eol s in
    let single = normalize_eol (b ∷ s) in
    if ((a == 13) && (b == 10)) || ((a == 10) && (b == 13))
    then 10 ∷ pair
    else if a == 13
    then 10 ∷ single
    else a ∷ single

abbrev pub is_equals : ℕ → Bool
is_equals c = c == b'='

-- Behind the opening bracket of the given level.
unfoldable pub long_body : ℕ → Bytes → Result ParseError (Bytes × Bytes)
unfolding drop_line_end normalize_eol split_at close_bracket
long_body equals s = elim (split_at (close_bracket equals) (drop_line_end s)) [
  | none ↦ fail unterminated_long_bracket (drop_line_end s)
  | some (text, rest) ↦ ok (normalize_eol text, rest)
]

-- Behind the `[` at which parseValue calls tryParseLongBracket.
unfoldable pub long_string : Bytes → Result ParseError (Bytes × Bytes)
unfolding long_body
long_string s =
    let equals = length (take_while is_equals s) in
    elim (drop_while is_equals s) [
      | [] ↦ fail unexpected_bracket (b'[' ∷ s)
      | c ∷ t ↦ if c == b'[' then long_body equals t else fail unexpected_bracket (b'[' ∷ s)
    ]

-- The parts of a numeric literal: sign, digits, fraction and exponent, and the rest.
unfoldable pub sign_part : Bytes → Bytes × Bytes
sign_part [] = ([], [])
sign_part (c ∷ s) = if c == b'-' then (c ∷ [], s) else ([], c ∷ s)

unfoldable pub fraction_part : Bytes → Bytes × Bytes
fraction_part [] = ([], [])
fraction_part (c ∷ s) =
    if c == b'.' then (c ∷ take_while is_digit s, drop_while is_digit s) else ([], c ∷ s)

unfoldable pub exponent_sign : Bytes → Bytes × Bytes
exponent_sign [] = ([], [])
exponent_sign (c ∷ s) = if (c == b'+') || (c == b'-') then (c ∷ [], s) else ([], c ∷ s)

unfoldable pub exponent_part : Bytes → Bytes × Bytes
unfolding exponent_sign
exponent_part [] = ([], [])
exponent_part (c ∷ s) =
    let signed = exponent_sign s in
    if (c == b'e') || (c == b'E')
    then (c ∷ (signed.0 ++ take_while is_digit signed.1), drop_while is_digit signed.1)
    else ([], c ∷ s)

-- strconv.ParseInt(lit, 10, 64) of a sign and a run of digits; `none` is an error.
unfoldable pub parse_int : Bytes → Bytes → Option ℤ
unfolding digits_value
parse_int sign [] = none
parse_int [] (d ∷ ds) =
    let n = digits_value 0 (d ∷ ds) in if ltb n (2 ^ 63) then some (pos n) else none
parse_int (c ∷ sign) (d ∷ ds) =
    let n = digits_value 0 (d ∷ ds) in
    if leb n (2 ^ 63) then some (if n == 0 then pos 0 else negsuc (n - 1)) else none

pub data Number (N : Type 0) : Type 0 where
  integer : ℤ → Number N
  floating : N → Number N

module _ {N : Type 0} ⦃ft : FloatText N⦄ where
  unfoldable pub read_float : Bytes → Bytes → Result ParseError (Number N × Bytes)
  read_float lit rest = elim (ft.parse_float lit) [
    | none ↦ fail malformed_number rest
    | some f ↦ ok (floating f, rest)
  ]

  -- parseNumber
  unfoldable pub parse_number : Bytes → Result ParseError (Number N × Bytes)
  parse_number s =
      let sign = sign_part s in
      let digits = take_while is_digit sign.1 in
      let fraction = fraction_part (drop_while is_digit sign.1) in
      let exponent = exponent_part fraction.1 in
      let lit = sign.0 ++ (digits ++ (fraction.0 ++ exponent.0)) in
      if length (digits ++ (fraction.0 ++ exponent.0)) == 0
      then fail malformed_number exponent.1
      else if length (fraction.0 ++ exponent.0) == 0
      then elim (parse_int sign.0 digits) [
        | some n ↦ ok (integer n, exponent.1)
        | none ↦ read_float lit exponent.1
      ]
      else read_float lit exponent.1
