-- ===== src/Manif/Writer.antt =====
-- manif/writer.go: the text that Write sends, where the sink takes all of it.
use go_luarocks.Prelude.{
  ℕ, zero, suc, ◌+◌, ◌-◌, Bool, true, false, ◌&&◌, ◌||◌, not, none, some, List, [], ◌∷◌, ◌++◌,
  Bytes, codes, same, is_digit, is_alpha, Result, ok, err, ◌>>=◌, if◌then◌else◌, any, all, length,
  replicate, ltb, ◌==◌, decimal, decimal_ℤ,
}
use go_luarocks.Files.Strings.{has_prefix}
use go_luarocks.Manif.Value.{
  Value, Items, Fields, Numbered, nil, bool, int, float, str, array, object, mixed, no_items, item,
  no_fields, field, no_numbered, numbered, FloatText,
}

pub data WriteError : Type 0 where
  not_a_table invalid_top_level_key : WriteError

-- luaKeywords
unfoldable pub lua_keywords : List Bytes
lua_keywords =
    codes "and"
    ∷ codes "break"
    ∷ codes "do"
    ∷ codes "else"
    ∷ codes "elseif"
    ∷ codes "end"
    ∷ codes "false"
    ∷ codes "for"
    ∷ codes "function"
    ∷ codes "goto"
    ∷ codes "if"
    ∷ codes "in"
    ∷ codes "local"
    ∷ codes "nil"
    ∷ codes "not"
    ∷ codes "or"
    ∷ codes "repeat"
    ∷ codes "return"
    ∷ codes "then"
    ∷ codes "true"
    ∷ codes "until"
    ∷ codes "while"
    ∷ []

abbrev pub is_ident_start : ℕ → Bool
is_ident_start c = is_alpha c || (c == b'_')

abbrev pub is_ident_part : ℕ → Bool
is_ident_part c = is_ident_start c || is_digit c

unfoldable pub is_valid_plain_key : Bytes → Bool
unfolding lua_keywords same
is_valid_plain_key [] = false
is_valid_plain_key (c ∷ s) =
    is_ident_start c && (all is_ident_part s && not (any (same (c ∷ s)) lua_keywords))

-- The next byte is a decimal digit.
abbrev pub next_is_digit : Bytes → Bool
next_is_digit [] = false
next_is_digit (c ∷ s) = is_digit c

-- fmt.Fprintf("%03d", c)
unfoldable pub padded : ℕ → Bytes
padded c = replicate (3 - length (decimal c)) b'0' ++ decimal c

-- The part of luaQ for the byte `c` before `s`.
unfoldable pub quote_byte : ℕ → Bytes → Bytes
quote_byte c s =
    if (c == b'"') || (c == 92)
    then 92 ∷ c ∷ []
    else if c == 10
    then 92 ∷ 10 ∷ []
    else if ltb c 0x20 || (c == 0x7F)
    then 92 ∷ (if next_is_digit s then padded c else decimal c)
    else c ∷ []

unfoldable pub quote_bytes : Bytes → Bytes
quote_bytes [] = []
quote_bytes (c ∷ s) = quote_byte c s ++ quote_bytes s

unfoldable pub lua_q : Bytes → Bytes
lua_q s = b'"' ∷ (quote_bytes s ++ b'"' ∷ [])

-- strings.Contains(s, p)
unfoldable pub contains_text : Bytes → Bytes → Bool
unfolding has_prefix
contains_text [] p = has_prefix [] p
contains_text (a ∷ s) p = has_prefix (a ∷ s) p || contains_text s p

-- "]" + strings.Repeat("=", equals) + "]" and its counterpart
unfoldable pub close_bracket : ℕ → Bytes
close_bracket equals = b']' ∷ (replicate equals b'=' ++ b']' ∷ [])

unfoldable pub open_bracket : ℕ → Bytes
open_bracket equals = b'[' ∷ (replicate equals b'=' ++ b'[' ∷ [])

-- The loop of writeLongBracket over `equals`. A closing bracket longer than the probe is not in it,
-- so its length is fuel enough.
unfoldable pub bracket_level : ℕ → ℕ → Bytes → ℕ
unfolding close_bracket contains_text
bracket_level zero equals probe = equals
bracket_level (suc fuel) equals probe =
    let more = bracket_level fuel (suc equals) probe in
    if contains_text probe (close_bracket equals) then more else equals

unfoldable pub long_bracket : Bytes → Bytes
unfolding bracket_level open_bracket
long_bracket s =
    let equals = bracket_level (length s) 0 (s ++ b']' ∷ []) in
    open_bracket equals ++ (10 ∷ (s ++ close_bracket equals))

abbrev pub is_line_end : ℕ → Bool
is_line_end c = (c == 13) || (c == 10)

unfoldable pub write_string : Bytes → Bytes
unfolding lua_q long_bracket
write_string s = if any is_line_end s then long_bracket s else lua_q s

-- What stands before an entry: the separator with its indentation.
pub data Separator : Type 0 where
  first packed lined : Separator

unfoldable pub indentation : ℕ → Bytes
indentation zero = []
indentation (suc n) = codes "   " ++ indentation n

unfoldable pub separator_text : Separator → ℕ → Bytes
unfolding indentation
separator_text first level = 10 ∷ indentation level
separator_text packed level = codes ", "
separator_text lined level = b',' ∷ 10 ∷ indentation level

-- The key of a string entry, with its " = ".
unfoldable pub write_key : Bytes → Bytes
unfolding write_string is_valid_plain_key
write_key k =
    if is_valid_plain_key k then k ++ codes " = " else b'[' ∷ (write_string k ++ codes "] = ")

-- The end of a table: with entries, a line break and the outer indentation.
unfoldable pub write_close : Bool → ℕ → Bytes
unfolding indentation
write_close false level = codes "}"
write_close true level = 10 ∷ (indentation (level - 1) ++ codes "}")

module _ {N : Type 0} ⦃ft : FloatText N⦄ where
  unfoldable pub format_number : N → Bytes
  format_number f =
      if ft.is_nan f
      then codes "nan"
      else if ft.is_pos_inf f
      then codes "inf"
      else if ft.is_neg_inf f
      then codes "-inf"
      else elim (ft.small_integer f) [ some n ↦ decimal_ℤ n | none ↦ ft.format_g14 f ]

-- The separator after an entry: numbers pack on one line.
unfoldable pub separator_after : {N : Type 0} → Value N → Separator
separator_after (int n) = packed
separator_after (float f) = packed
separator_after v = lined

unfoldable pub separator_after_numbered : {N : Type 0} → Separator → Numbered N → Separator
unfolding separator_after
separator_after_numbered sep no_numbered = sep
separator_after_numbered sep (numbered k v ns) = separator_after_numbered (separator_after v) ns

abbrev pub has_items : {N : Type 0} → Items N → Bool
has_items no_items = false
has_items (item v xs) = true

abbrev pub has_fields : {N : Type 0} → Fields N → Bool
has_fields no_fields = false
has_fields (field k v fs) = true

abbrev pub has_numbered : {N : Type 0} → Numbered N → Bool
has_numbered no_numbered = false
has_numbered (numbered k v ns) = true

-- writeValue, and the loops of writeTable over the numeric and the string keys. `level` is that of
-- the entries: writeTable is called with one more than writeValue got.
unfoldable mutual
  unfolding decimal_ℤ format_number write_string write_key write_close separator_text
      separator_after separator_after_numbered

  pub write_value : {N : Type 0} ⦃ft : FloatText N⦄ → Value N → ℕ → Bytes
  write_value nil level = codes "nil"
  write_value (bool b) level = if b then codes "true" else codes "false"
  write_value (int n) level = decimal_ℤ n
  write_value (float f) level = format_number f
  write_value (str s) level = write_string s
  write_value (array xs) level =
      b'{' ∷ (write_items xs first (level + 1) ++ write_close (has_items xs) (level + 1))
  write_value (object fs) level =
      b'{' ∷ (write_fields fs first (level + 1) ++ write_close (has_fields fs) (level + 1))
  write_value (mixed ns fs) level =
      b'{'
      ∷ (write_numbered ns first (level + 1)
          ++ (write_fields fs (separator_after_numbered first ns) (level + 1)
              ++ write_close (has_numbered ns || has_fields fs) (level + 1)))

  pub write_items : {N : Type 0} ⦃ft : FloatText N⦄ → Items N → Separator → ℕ → Bytes
  write_items no_items sep level = []
  write_items (item v xs) sep level =
      separator_text sep level ++ (write_value v level ++ write_items xs (separator_after v) level)

  pub write_fields : {N : Type 0} ⦃ft : FloatText N⦄ → Fields N → Separator → ℕ → Bytes
  write_fields no_fields sep level = []
  write_fields (field k v fs) sep level =
      separator_text sep level
      ++ (write_key k ++ (write_value v level ++ write_fields fs (separator_after v) level))

  pub write_numbered : {N : Type 0} ⦃ft : FloatText N⦄ → Numbered N → Separator → ℕ → Bytes
  write_numbered no_numbered sep level = []
  write_numbered (numbered k v ns) sep level =
      separator_text sep level
      ++ (write_value v level ++ write_numbered ns (separator_after v) level)

-- writeTableAsAssignments over the string keys.
unfoldable pub write_assignments :
    {N : Type 0} ⦃ft : FloatText N⦄ → Fields N → Result WriteError Bytes
unfolding is_valid_plain_key write_value
write_assignments no_fields = ok []
write_assignments (field k v fs) =
    let more = write_assignments fs in
    if is_valid_plain_key k
    then (do text ← more; ok (k ++ (codes " = " ++ (write_value v 0 ++ (10 ∷ text)))))
    else err invalid_top_level_key

-- Write
unfoldable pub write : {N : Type 0} ⦃ft : FloatText N⦄ → Value N → Result WriteError Bytes
unfolding write_assignments
write (object fs) = write_assignments fs
write (array no_items) = ok []
write (array (item v xs)) = err invalid_top_level_key
write (mixed no_numbered fs) = write_assignments fs
write (mixed (numbered k v ns) fs) = err invalid_top_level_key
write v = err not_a_table
