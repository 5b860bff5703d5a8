-- ===== src/Tree/Wrapper/LuaStrings.antt =====
-- What the Lua reader of manif/parser.go makes of what luaQuote of tree/deploy.go writes.
use go_luarocks.Prelude.{
  ℕ, zero, suc, ◌<◌, ◌≡◌, refl, ◌∙◌, ap, Bool, true, false, not, ◌&&◌, [], ◌∷◌, ◌++◌, arith, Bytes,
  ok, digits_value, length, drop, ◌==◌, append_assoc, &&-eq-true, Bool-cases, inl, inr,
}
use go_luarocks.Manif.Writer.{next_is_digit}
use go_luarocks.Manif.Lexer.{byte, decimal_escape, digit_run, escape, string_step, short_string}
use go_luarocks.Manif.Quoted.{short_string-byte}
use go_luarocks.Tree.Wrapper.{lua_quote_byte, lua_quote_bytes, lua_quote}

-- No zero byte has a digit behind it.
unfoldable pub zeros_apart : Bytes → Bool
zeros_apart [] = true
zeros_apart (c ∷ s) = not ((c == 0) && next_is_digit s) && zeros_apart s

escape-zero : (tail : Bytes) → next_is_digit tail ≡ false → escape (b'0' ∷ tail) ≡ byte 0 tail
unfolding escape decimal_escape digit_run digits_value
escape-zero [] h = refl
escape-zero (t ∷ tail) h = rw h refl

string_step-lua_quote_byte :
    (c : ℕ) (tail : Bytes)
    → ((c == 0) && next_is_digit tail) ≡ false
    → string_step b'"' (lua_quote_byte c ++ tail) ≡ byte c tail
unfolding string_step lua_quote_byte
string_step-lua_quote_byte c tail h = elim (Bool-cases (c == 0)) [
  | inl nul ↦ let at_zero : c ≡ 0 = ground arith in rw at_zero (escape-zero tail (ground arith))
  | inr other ↦ unfold escape in ground arith
]

next_is_digit-lua_quote_bytes :
    (s rest : Bytes) → next_is_digit (lua_quote_bytes s ++ (b'"' ∷ rest)) ≡ next_is_digit s
unfolding lua_quote_bytes lua_quote_byte
next_is_digit-lua_quote_bytes [] rest = refl
next_is_digit-lua_quote_bytes (c ∷ s) rest = ground arith

short_string-lua_quote_bytes :
    (s rest : Bytes) (fuel : ℕ)
    → zeros_apart s ≡ true
    → length s < fuel
    → short_string fuel b'"' (lua_quote_bytes s ++ (b'"' ∷ rest)) ≡ ok (s, rest)
unfolding lua_quote_bytes zeros_apart
short_string-lua_quote_bytes s rest zero z h = absurd (omega arith)
short_string-lua_quote_bytes [] rest (suc fuel) z h = unfold string_step short_string in refl
short_string-lua_quote_bytes (c ∷ s) rest (suc fuel) z h =
    let tail = lua_quote_bytes s ++ (b'"' ∷ rest) in
    let (apart, others) = &&-eq-true (not ((c == 0) && next_is_digit s)) (zeros_apart s) z in
    ap (short_string (suc fuel) b'"')
      (append_assoc (lua_quote_byte c) (lua_quote_bytes s) (b'"' ∷ rest))
    ∙ short_string-byte fuel b'"' (lua_quote_byte c ++ tail) s tail rest c
        (string_step-lua_quote_byte c tail
          (rw (next_is_digit-lua_quote_bytes s rest) (ground arith)))
        (short_string-lua_quote_bytes s rest fuel others (omega arith))

-- What luaQuote writes behind its opening quote, the reader of Lua strings in manif reads back in
-- as many rounds as the text has bytes and one, with the text behind the closing quote left over,
-- where no zero byte has a digit behind it.
pub short_string-lua_quote :
    (s rest : Bytes) (fuel : ℕ)
    → zeros_apart s ≡ true
    → length s < fuel
    → short_string fuel b'"' (drop 1 (lua_quote s) ++ rest) ≡ ok (s, rest)
unfolding lua_quote
short_string-lua_quote s rest fuel z h =
    rw (append_assoc (lua_quote_bytes s) (b'"' ∷ []) rest)
      (short_string-lua_quote_bytes s rest fuel z h)
