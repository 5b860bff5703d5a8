-- ===== src/Manif/Tests.antt =====
-- Runs of manif over a stand-in for float64 that has one value.
use go_luarocks.Prelude.{
  Bytes, arith, ◌≡◌, refl, true, false, none, [], ◌∷◌, ◌++◌, pos, negsuc, codes, ok, err, ◌>>=◌,
  Result, same,
}
use go_luarocks.Manif.Writer.{
  is_valid_plain_key, lua_keywords, write, WriteError, quote_bytes, quote_byte, padded,
}
use go_luarocks.Manif.Lexer.{
  ParseError, bad_key_panic, string_step, escape, decimal_escape, digit_run, parse_number,
  sign_part, fraction_part, exponent_part, parse_int, short_string, long_string,
}
use go_luarocks.Manif.Tables.{IsPlain, ArePlainFields, below_all}
use go_luarocks.Manif.Tables.WholeFile.{has_plain_keys, parse-write}
use go_luarocks.Manif.Value.{
  Value, Fields, bool, int, str, array, object, mixed, no_items, item, no_fields, field,
  no_numbered, numbered, FloatText,
}
use go_luarocks.Manif.Parser.{number_value, text_value, parse_word, parse}

instance abbrev pub no_floats : FloatText (Unit {0})
no_floats = record {
  parse_float = λ s. none;
  format_g14 = λ f. [];
  format_shortest = λ f. [];
  is_nan = λ f. false;
  is_pos_inf = λ f. false;
  is_neg_inf = λ f. false;
  small_integer = λ f. none;
}

abbrev sample : Value (Unit {0})
sample = object (
    field (codes "a")
      (array (item (int (pos 7)) (item (int (negsuc 11)) (item (str (codes "x\"y\\z")) no_items))))
      (field (codes "b")
        (object (field (codes "end") (bool true) (field (codes "k") (object no_fields) no_fields)))
        (field (codes "c")
          (mixed (numbered (pos 1) (str (9 ∷ codes "1")) no_numbered)
            (field (codes "q") (str (codes "l1" ++ (10 ∷ codes "]]l2"))) no_fields))
          no_fields)))

-- Parse with all that it calls.
read : Bytes → Result ParseError (Value (Unit {0}))
unfolding parse number_value parse_number sign_part fraction_part exponent_part parse_int parse_word
    text_value short_string string_step escape decimal_escape digit_run long_string
read s = parse s

round : Value (Unit {0}) → Result WriteError (Result ParseError (Value (Unit {0})))
round v = do text ← write v; ok (read text)

round-sample : round sample ≡ ok (ok sample)
unfolding round write read quote_bytes quote_byte padded
round-sample = refl

-- {1, x = 2, [true] = 3}: a Boolean key beside a number and a string.
panics :
    read (codes "t = {1, x = 2, [true] = 3}") ≡ err (record { fault = bad_key_panic; rest = [] })
unfolding read
panics = refl

-- A table of every kind of plain value.
abbrev plain_table : Fields (Unit {0})
plain_table =
    field (codes "deps") (array (item (str (codes "lua >= 5.1")) (item (int (negsuc 3)) no_items)))
      (field (codes "mixed")
        (mixed (numbered (pos 1) (int (pos 3)) (numbered (pos 2) (int (pos 1)) no_numbered))
          (field (codes "string") (str (codes "3\"" ++ (1 ∷ codes "7\\"))) no_fields))
        (field (codes "rocks")
          (object (field (codes "a-b") (object no_fields) (field (codes "end") (str []) no_fields)))
          no_fields))

plain_table-ArePlainFields : ArePlainFields plain_table
unfolding ArePlainFields IsPlain below_all
plain_table-ArePlainFields = (
  refl,
  (refl, (refl, (omega arith, tt))),
  refl,
  (
    refl,
    (refl, refl, (refl, omega arith, (refl, omega arith, tt)), (refl, refl, refl, tt)),
    refl,
    (refl, (refl, tt, refl, (refl, refl, refl, tt)), refl, tt),
  ),
)

plain_table-has_plain_keys : has_plain_keys plain_table ≡ true
unfolding has_plain_keys is_valid_plain_key lua_keywords same
plain_table-has_plain_keys = refl

parse-write_example :
    (text : Bytes) × (write (object plain_table) ≡ ok text)
    × (parse {N = Unit {0}} text ≡ ok (object plain_table))
parse-write_example = parse-write plain_table plain_table-has_plain_keys plain_table-ArePlainFields
