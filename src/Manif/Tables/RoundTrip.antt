-- ===== src/Manif/Tables/RoundTrip.antt =====
-- Values and whole files: what Write of manif/writer.go sends, Parse of manif/parser.go reads back.
use go_luarocks.Prelude.{
  ℕ, zero, suc, ◌+◌, ◌*◌, ◌<◌, ◌≤◌, ◌≡◌, refl, sym, subst, true, some, List, [], ◌∷◌, ◌++◌, arith,
  Bytes, ok, length, append_assoc,
}
use go_luarocks.Files.Strings.{has_prefix}
use go_luarocks.Manif.Value.{
  Value, FloatText, nil, bool, float, int, str, array, object, mixed, no_items, item, no_fields,
  field, no_numbered, numbered,
}
use go_luarocks.Manif.Writer.{
  write_value, write_items, write_fields, write_numbered, write_close, separator_after_numbered,
  first,
}
use go_luarocks.Manif.Lexer.{skip, skip_ws, starts_comment}
use go_luarocks.Manif.Parser.{Entry, parse_value, parse_entries, dispatch, entries_to_value}
use go_luarocks.Manif.Quoted.{parse_value-write_string}
use go_luarocks.Manif.Integers.{parse_value-write_int, ends_number}
use go_luarocks.Manif.Tables.{IsPlain}
use go_luarocks.Manif.Tables.Entries.{
  field_entries, numbered_entries, entries_to_value-items, entries_to_value-fields,
  entries_to_value-mixed,
}
use go_luarocks.Manif.Tables.Rows.{ends, parse_entries-closed}
use go_luarocks.Manif.Tables.Reading.{Reads, Start}
use go_luarocks.Manif.Tables.Loops.{items-Start, fields-Start, numbered-Start}

ends-ends_number : (s : Bytes) → ends s ≡ true → ends_number s ≡ true
ends-ends_number [] h = refl
ends-ends_number (c ∷ s) h = ground arith

module _ {N : Type 0} ⦃ft : FloatText N⦄ where
  parse_value-brace :
      (fuel : ℕ) (s last : Bytes) (es : List (Entry N)) (v : Value N)
      → parse_entries fuel 1 s ≡ ok (es, last)
      → entries_to_value es ≡ some v
      → parse_value (suc (suc fuel)) (b'{' ∷ s) ≡ ok (v, last)
  unfolding parse_value dispatch skip_ws skip starts_comment has_prefix
  parse_value-brace fuel s last es v h e = ground (arith, h, e)

  module _ (bound : ℕ) (reads : (fuel : ℕ) → fuel < bound → Reads N fuel) where
    -- A table whose entries are read, and make the value.
    braces :
        (fuel : ℕ) (s last : Bytes) (es : List (Entry N)) (v : Value N)
        → fuel < suc bound
        → Start bound reads 1 s es last
        → entries_to_value es ≡ some v
        → 3 * length (b'{' ∷ s) ≤ fuel
        → parse_value (suc fuel) (b'{' ∷ s) ≡ ok (v, last)
    braces zero s last es v lt start e le = absurd (omega arith)
    braces (suc fuel) s last es v lt start e le =
        parse_value-brace fuel s last es v (start fuel (omega arith) (omega arith)) e

    empty-Start : (rest : Bytes) → Start bound reads 1 (b'}' ∷ rest) [] rest
    empty-Start rest zero lt le = absurd (omega arith)
    empty-Start rest (suc fuel) lt le = parse_entries-closed fuel 1 rest

    -- The same with the closing brace in the text of the table.
    closed_braces :
        (fuel : ℕ) (body close rest : Bytes) (es : List (Entry N)) (v : Value N)
        → fuel < suc bound
        → Start bound reads 1 (body ++ (close ++ rest)) es rest
        → entries_to_value es ≡ some v
        → 3 * length (b'{' ∷ ((body ++ close) ++ rest)) ≤ fuel
        → parse_value (suc fuel) (b'{' ∷ ((body ++ close) ++ rest)) ≡ ok (v, rest)
    closed_braces fuel body close rest es v lt start e le =
        braces fuel ((body ++ close) ++ rest) rest es v lt
          (subst (λ s. Start bound reads 1 s es rest) (sym (append_assoc body close rest)) start) e
          le

    next-Reads : (fuel : ℕ) → fuel < suc bound → Reads N fuel
    unfolding write_value IsPlain
    next-Reads fuel lt nil level rest p h le = absurd p
    next-Reads fuel lt (bool b) level rest p h le = absurd p
    next-Reads fuel lt (float f) level rest p h le = absurd p
    next-Reads fuel lt (int n) level rest p h le =
        parse_value-write_int n rest fuel level p (ends-ends_number rest h)
    next-Reads fuel lt (str s) level rest p h le = parse_value-write_string s rest fuel level p
    next-Reads fuel lt (array no_items) level rest p h le = ground (arith, p.0)
    next-Reads fuel lt (array (item v xs)) level rest p h le =
        closed_braces fuel (write_items (item v xs) first (level + 1))
          (write_close true (level + 1)) rest _ (array (item v xs)) lt
          (items-Start bound reads v xs (level + 1) rest p.1)
          (entries_to_value-items (item v xs) refl) le
    next-Reads fuel lt (object no_fields) level rest p h le =
        unfold write_fields write_close in
        braces fuel (b'}' ∷ rest) rest [] (object no_fields) lt (empty-Start rest)
          (unfold field_entries in entries_to_value-fields no_fields p) le
    next-Reads fuel lt (object (field k v fs)) level rest p h le =
        closed_braces fuel (write_fields (field k v fs) first (level + 1))
          (write_close true (level + 1)) rest _ (object (field k v fs)) lt
          (fields-Start bound reads k v fs (level + 1) rest p)
          (entries_to_value-fields (field k v fs) p) le
    next-Reads fuel lt (mixed no_numbered fs) level rest p h le = ground (arith, p.0)
    next-Reads fuel lt (mixed (numbered n v ns) fs) level rest p h le =
        let fields =
          write_fields fs (separator_after_numbered first (numbered n v ns)) (level + 1) in
        let close = write_close true (level + 1) in
        closed_braces fuel (write_numbered (numbered n v ns) first (level + 1)) (fields ++ close)
          rest _ (mixed (numbered n v ns) fs) lt
          (subst
            (λ s.
              Start bound reads 1 (write_numbered (numbered n v ns) first (level + 1) ++ s)
                (numbered_entries (numbered n v ns) ++ field_entries fs) rest)
            (sym (append_assoc fields close rest))
            (numbered-Start bound reads n v ns fs (level + 1) rest p.2 p.3))
          (entries_to_value-mixed (numbered n v ns) fs p.0 p.1 p.2 p.3) le

pub all-Reads : {N : Type 0} ⦃ft : FloatText N⦄ (bound fuel : ℕ) → fuel < bound → Reads N fuel
all-Reads zero fuel lt = absurd (omega arith)
all-Reads (suc bound) fuel lt = next-Reads bound (all-Reads bound) fuel lt

-- A plain value, written in front of a comma or a line break, is read back by parseValue, with the fuel
-- that the text gives, and the text behind it is left over.
pub parse_value-write_value :
    {N : Type 0} ⦃ft : FloatText N⦄ (v : Value N) (fuel level : ℕ) (rest : Bytes)
    → IsPlain v
    → ends rest ≡ true
    → 3 * length (write_value v level ++ rest) ≤ fuel
    → parse_value (suc fuel) (write_value v level ++ rest) ≡ ok (v, rest)
parse_value-write_value v fuel level rest p h le =
    all-Reads (suc fuel) fuel (omega arith) v level rest p h le
