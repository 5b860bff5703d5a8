-- ===== src/Manif/Parser.antt =====
-- manif/parser.go: values, tables and Parse.
use go_luarocks.Prelude.{
  ℕ, zero, suc, ◌+◌, ◌-◌, ◌*◌, Bool, true, false, ◌&&◌, ◌||◌, not, Option, none, some, List, [],
  ◌∷◌, pos, eqb_ℤ, Bytes, codes, same, is_digit, Result, ok, err, if◌then◌else◌, length, take_while,
  drop_while, ◌==◌, decimal_ℤ,
}
use go_luarocks.Manif.Value.{
  Value, Items, Fields, Numbered, bool, int, float, str, array, object, mixed, no_items, item,
  no_fields, no_numbered, put_field, put_numbered, FloatText,
}
use go_luarocks.Manif.Writer.{is_ident_start, is_ident_part}
use go_luarocks.Manif.Lexer.{
  ParseError, fail, expected_identifier, expected_equals, unexpected_end, unexpected_nil,
  unsupported_identifier, unexpected_byte, expected_bracket, expected_comma, bad_key_panic,
  out_of_fuel, is_blank, skip_ws, short_string, long_string, parse_number, Number, integer,
  floating,
}

pub record Entry (N : Type 0) : Type 0 where
  pub key : Value N
  pub value : Value N

-- The scan of entriesToValue: hasNum, hasStr, denseArray and maxIdx.
pub record Shape : Type 0 where
  pub has_num : Bool
  pub has_str : Bool
  pub dense : Bool
  pub max_index : ℕ

unfoldable pub scan_key : {N : Type 0} → Value N → Shape → Shape
scan_key (int k) sh = record {
  has_num = true;
  has_str = sh.has_str;
  dense = sh.dense && eqb_ℤ k (pos (sh.max_index + 1));
  max_index = sh.max_index + 1;
}
scan_key (str k) sh = record sh { has_str = true; dense = false }
scan_key v sh = record sh { dense = false }

unfoldable pub scan_keys : {N : Type 0} → Shape → List (Entry N) → Shape
unfolding scan_key
scan_keys sh [] = sh
scan_keys sh (e ∷ es) = scan_keys (scan_key e.key sh) es

unfoldable pub item_values : {N : Type 0} → List (Entry N) → Items N
item_values [] = no_items
item_values (e ∷ es) = item e.value (item_values es)

-- The entries of a *table. A key that is neither string nor integer panics.
unfoldable pub mix_entry :
    {N : Type 0} → Value N → Value N → Numbered N × Fields N → Option (Numbered N × Fields N)
unfolding put_field put_numbered
mix_entry (str k) v (ns, fs) = some (ns, put_field k v fs)
mix_entry (int k) v (ns, fs) = some (put_numbered k v ns, fs)
mix_entry other v (ns, fs) = none

unfoldable pub mix_entries :
    {N : Type 0} → Numbered N × Fields N → List (Entry N) → Option (Numbered N × Fields N)
unfolding mix_entry
mix_entries t [] = some t
mix_entries t (e ∷ es) = elim (mix_entry e.key e.value t) [
  | none ↦ none
  | some t' ↦ mix_entries t' es
]

-- The entries of a map: a number is spelled as a string.
unfoldable pub map_entry :
    {N : Type 0} ⦃ft : FloatText N⦄ → Value N → Value N → Fields N → Option (Fields N)
unfolding put_field decimal_ℤ
map_entry (str k) v fs = some (put_field k v fs)
map_entry (int k) v fs = some (put_field (decimal_ℤ k) v fs)
map_entry ⦃ft⦄ (float k) v fs = some (put_field (ft.format_shortest k) v fs)
map_entry other v fs = none

unfoldable pub map_entries :
    {N : Type 0} ⦃ft : FloatText N⦄ → Fields N → List (Entry N) → Option (Fields N)
unfolding map_entry
map_entries fs [] = some fs
map_entries fs (e ∷ es) = elim (map_entry e.key e.value fs) [
  | none ↦ none
  | some fs' ↦ map_entries fs' es
]

-- entriesToValue; `none` is its panic.
unfoldable pub entries_to_value :
    {N : Type 0} ⦃ft : FloatText N⦄ → List (Entry N) → Option (Value N)
unfolding scan_keys item_values mix_entries map_entries
entries_to_value es =
    let sh =
      scan_keys (record { has_num = false; has_str = false; dense = true; max_index = 0 }) es in
    if sh.has_num && (not sh.has_str && sh.dense)
    then some (array (item_values es))
    else if sh.has_num && sh.has_str
    then elim (mix_entries (no_numbered, no_fields) es) [
      | none ↦ none
      | some t ↦ some (mixed t.0 t.1)
    ]
    else elim (map_entries no_fields es) [ none ↦ none | some fs ↦ some (object fs) ]

-- identKeyLookahead
unfoldable pub ident_key_lookahead : Bytes → Bool
ident_key_lookahead s = elim (drop_while is_blank (drop_while is_ident_part s)) [
  | [] ↦ false
  | c ∷ t ↦ (c == b'=') && not (elim t [ [] ↦ false | d ∷ u ↦ d == b'=' ])
]

-- consume, as the rest behind the byte.
unfoldable pub consume : ℕ → Bytes → Option Bytes
consume c [] = none
consume c (d ∷ s) = if d == c then some s else none

-- The end of an entry: `some` is the rest behind a comma or semicolon, or behind the closing brace
-- (with `true`).
unfoldable pub entry_end : Bytes → Option (Bool × Bytes)
entry_end s = elim (skip_ws s) [
  | [] ↦ none
  | c ∷ rest ↦
      if (c == b',') || (c == b';')
      then some (false, rest)
      else if c == b'}'
      then some (true, rest)
      else none
]

abbrev pub Read : Type 0 → Type 0
Read A = Result ParseError (A × Bytes)

module _ {N : Type 0} ⦃ft : FloatText N⦄ where
  -- The case of an identifier in parseValue.
  unfoldable pub parse_word : Bytes → Read (Value N)
  unfolding same
  parse_word s =
      let word = take_while is_ident_part s in
      let rest = drop_while is_ident_part s in
      if same word (codes "true")
      then ok (bool true, rest)
      else if same word (codes "false")
      then ok (bool false, rest)
      else if same word (codes "nil")
      then fail unexpected_nil rest
      else fail unsupported_identifier s

  unfoldable pub number_value : Read (Number N) → Read (Value N)
  number_value (err e) = err e
  number_value (ok (integer k, rest)) = ok (int k, rest)
  number_value (ok (floating f, rest)) = ok (float f, rest)

  unfoldable pub text_value : Read Bytes → Read (Value N)
  text_value (err e) = err e
  text_value (ok (s, rest)) = ok (str s, rest)

  -- parseValue at a byte, white space skipped; `table` is parseTable behind its brace.
  unfoldable pub dispatch : (Bytes → Read (Value N)) → Bytes → Read (Value N)
  dispatch table [] = fail unexpected_end []
  dispatch table (c ∷ s) =
      if c == b'{'
      then table s
      else if (c == b'"') || (c == 39)
      then text_value (short_string (length s + 1) c s)
      else if c == b'['
      then text_value (long_string s)
      else if (c == b'-') || is_digit c
      then number_value (parse_number (c ∷ s))
      else if is_ident_start c
      then parse_word (c ∷ s)
      else fail unexpected_byte (c ∷ s)

  -- The value behind a key: white space, `=`, white space, value.
  unfoldable pub assigned : (Bytes → Read (Value N)) → Bytes → Read (Value N)
  unfolding consume skip_ws
  assigned value s = elim (consume b'=' (skip_ws s)) [
    | none ↦ fail expected_equals (skip_ws s)
    | some rest ↦ value (skip_ws rest)
  ]

  unfoldable pub keyed : Value N → Read (Value N) → Read (Entry N)
  keyed key (err e) = err e
  keyed key (ok (v, rest)) = ok (record { key = key; value = v }, rest)

  -- [key] = value, behind the bracket.
  unfoldable pub bracket_entry : (Bytes → Read (Value N)) → Bytes → Read (Entry N)
  unfolding assigned keyed
  bracket_entry value s = elim (value (skip_ws s)) [
    | err e ↦ err e
    | ok (key, rest) ↦ elim (consume b']' (skip_ws rest)) [
      | none ↦ fail expected_bracket (skip_ws rest)
      | some after ↦ keyed key (assigned value after)
    ]
  ]

  -- One entry of a table, with the next automatic index.
  unfoldable pub parse_entry :
      (Bytes → Read (Value N)) → ℕ → Bytes → Result ParseError (Entry N × ℕ × Bytes)
  unfolding bracket_entry ident_key_lookahead
  parse_entry value auto [] = elim (value []) [
    | err e ↦ err e
    | ok (v, rest) ↦ ok (record { key = int (pos auto); value = v }, auto + 1, rest)
  ]
  parse_entry value auto (c ∷ s) =
      if c == b'['
      then elim (bracket_entry value s) [ err e ↦ err e | ok (ent, rest) ↦ ok (ent, auto, rest) ]
      else if is_ident_start c && ident_key_lookahead (c ∷ s)
      then elim (keyed (str (take_while is_ident_part (c ∷ s)))
          (assigned value (drop_while is_ident_part (c ∷ s)))) [
            | err e ↦ err e
            | ok (ent, rest) ↦ ok (ent, auto, rest)
          ]
      else elim (value (c ∷ s)) [
        | err e ↦ err e
        | ok (v, rest) ↦ ok (record { key = int (pos auto); value = v }, auto + 1, rest)
      ]

  -- The loop of parseTable. The fuel bounds the rounds and the depth; each takes a byte at least.
  unfoldable mutual
    unfolding dispatch parse_entry entry_end entries_to_value

    pub parse_value : ℕ → Bytes → Read (Value N)
    parse_value zero s = fail out_of_fuel s
    parse_value (suc fuel) s = dispatch (λ t. parse_table fuel t) (skip_ws s)

    pub parse_table : ℕ → Bytes → Read (Value N)
    parse_table zero s = fail out_of_fuel s
    parse_table (suc fuel) s = elim (parse_entries fuel 1 s) [
      | err e ↦ err e
      | ok (es, rest) ↦ elim (entries_to_value es) [
        | none ↦ fail bad_key_panic rest
        | some v ↦ ok (v, rest)
      ]
    ]

    pub parse_entries : ℕ → ℕ → Bytes → Read (List (Entry N))
    parse_entries zero auto s = fail out_of_fuel s
    parse_entries (suc fuel) auto s = elim (consume b'}' (skip_ws s)) [
      | some rest ↦ ok ([], rest)
      | none ↦ elim (parse_entry (λ t. parse_value fuel t) auto (skip_ws s)) [
        | err e ↦ err e
        | ok (ent, auto', rest) ↦ elim (entry_end rest) [
          | none ↦ fail expected_comma (skip_ws rest)
          | some (done, after) ↦ elim done [
            | true ↦ ok (ent ∷ [], after)
            | false ↦ elim (parse_entries fuel auto' after) [
              | err e ↦ err e
              | ok (es, last) ↦ ok (ent ∷ es, last)
            ]
          ]
        ]
      ]
    ]

  -- The loop of Parse over the top-level assignments.
  unfoldable pub parse_assignments : ℕ → Fields N → Bytes → Result ParseError (Fields N)
  unfolding parse_value assigned
  parse_assignments fuel out [] = ok out
  parse_assignments zero out (c ∷ s) = fail out_of_fuel (c ∷ s)
  parse_assignments (suc fuel) out (c ∷ s) =
      if is_ident_start c
      then elim (assigned (λ t. parse_value (3 * length t + 1) t)
          (drop_while is_ident_part (c ∷ s))) [
            | err e ↦ err e
            | ok (v, rest) ↦
                parse_assignments fuel (put_field (take_while is_ident_part (c ∷ s)) v out)
                  (skip_ws rest)
          ]
      else fail expected_identifier (c ∷ s)

  -- Parse
  unfoldable pub parse : Bytes → Result ParseError (Value N)
  unfolding parse_assignments
  parse b = elim (parse_assignments (length b) no_fields (skip_ws b)) [
    | err e ↦ err e
    | ok out ↦ ok (object out)
  ]

-- lineCol of the position that is left with `rest` of the text.
unfoldable pub line_col : ℕ → ℕ → ℕ → Bytes → ℕ × ℕ
line_col zero line col s = (line, col)
line_col (suc n) line col [] = (line, col)
line_col (suc n) line col (c ∷ s) =
    line_col n (if c == 10 then line + 1 else line) (if c == 10 then 1 else col + 1) s

-- The line and column of an error's message.
unfoldable pub error_position : Bytes → ParseError → ℕ × ℕ
unfolding line_col
error_position src e = line_col (length src - length e.rest) 1 1 src
