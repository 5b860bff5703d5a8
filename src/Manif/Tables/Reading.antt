-- ===== src/Manif/Tables/Reading.antt =====
-- The text that writeTable of manif/writer.go writes for the entries of a table, as parseTable of
-- manif/parser.go reads it, where the values of the entries are read.
use go_luarocks.Prelude.{
  ℕ, zero, suc, ◌+◌, ◌*◌, ◌<◌, ◌≤◌, ◌≡◌, refl, true, false, List, [], ◌∷◌, ◌++◌, arith, Bytes, pos,
  ok, length, length-append, all, any,
}
use go_luarocks.Manif.Value.{Value, FloatText, int, str, array, object, mixed, nil, bool, float}
use go_luarocks.Manif.Writer.{
  is_line_end, write_key, write_value, write_close, separator_text, separator_after, first,
}
use go_luarocks.Manif.Lexer.{is_blank}
use go_luarocks.Manif.Parser.{Entry, parse_value, parse_entries, parse_entry}
use go_luarocks.Manif.Tables.{IsPlain}
use go_luarocks.Manif.Tables.Rows.{
  ends, begins_row, begins-row, indentation-blank, after_entry, parse_entries-row,
  parse_entry-value,
}
use go_luarocks.Manif.Tables.Begins.{
  write_value-begins, write_key-begins, entry_end-comma, entry_end-close, parse_entry-key,
}

-- What stands between two entries is a comma and blanks.
pub separator_after-comma :
    {N : Type 0} (v : Value N) (level : ℕ)
    → (b : Bytes) × (separator_text (separator_after v) level ≡ b',' ∷ b) × (all is_blank b ≡ true)
unfolding separator_text separator_after
separator_after-comma (int n) level = (_, refl, refl)
separator_after-comma (float f) level = (_, refl, refl)
separator_after-comma nil level = (_, refl, indentation-blank level)
separator_after-comma (bool b) level = (_, refl, indentation-blank level)
separator_after-comma (str s) level = (_, refl, indentation-blank level)
separator_after-comma (array xs) level = (_, refl, indentation-blank level)
separator_after-comma (object fs) level = (_, refl, indentation-blank level)
separator_after-comma (mixed ns fs) level = (_, refl, indentation-blank level)

pub first-blank : (level : ℕ) → all is_blank (separator_text first level) ≡ true
unfolding separator_text
first-blank level = indentation-blank level

-- With the fuel, what is written for any plain value is read back.
abbrev pub Reads : (N : Type 0) ⦃ft : FloatText N⦄ → ℕ → Type 0
Reads N fuel =
    (v : Value N) (level : ℕ) (rest : Bytes)
    → IsPlain v
    → ends rest ≡ true
    → 3 * length (write_value v level ++ rest) ≤ fuel
    → parse_value (suc fuel) (write_value v level ++ rest) ≡ ok (v, rest)

module _ {N : Type 0} ⦃ft : FloatText N⦄ where
  module _ (bound : ℕ) (reads : (fuel : ℕ) → fuel < bound → Reads N fuel) where
    -- parseTable reads the entries from the text on.
    abbrev pub Start : ℕ → Bytes → List (Entry N) → Bytes → Type 0
    Start auto s es last =
        (fuel : ℕ)
        → fuel < bound
        → 3 * length s + 2 ≤ fuel
        → parse_entries fuel auto s ≡ ok (es, last)

    -- Behind an entry, it reads these others.
    abbrev pub Tail : ℕ → Bytes → List (Entry N) → Bytes → Type 0
    Tail auto k es last =
        (ends k ≡ true)
        × ((fuel : ℕ)
            → fuel < bound
            → 3 * length k ≤ fuel
            → after_entry (λ i t. parse_entries fuel i t) auto k ≡ ok (es, last))

    pub close-Tail :
        (auto level : ℕ) (rest : Bytes) → Tail auto (write_close true level ++ rest) [] rest
    unfolding after_entry
    close-Tail auto level rest =
        (unfold write_close in refl, λ fuel _ _. rw (after_entry, entry_end-close level rest) refl)

    pub comma-Tail :
        (auto : ℕ) (b s : Bytes) (es : List (Entry N)) (last : Bytes)
        → Start auto (b ++ s) es last
        → Tail auto (b',' ∷ (b ++ s)) es last
    unfolding after_entry
    comma-Tail auto b s es last start = (
      refl,
      λ fuel lt le. rw (after_entry, entry_end-comma (b ++ s)) (start fuel lt (omega arith)),
    )

    -- An entry, and those behind it.
    row-Start :
        (auto auto' : ℕ) (b text k last : Bytes) (ent : Entry N) (es : List (Entry N))
        → all is_blank b ≡ true
        → begins_row text ≡ true
        → length k ≤ length text
        → ((fuel : ℕ)
            → fuel < bound
            → 3 * length text ≤ fuel
            → parse_entry (λ t. parse_value (suc fuel) t) auto text ≡ ok (ent, auto', k))
        → Tail auto' k es last
        → Start auto (b ++ text) (ent ∷ es) last
    row-Start auto auto' b text k last ent es hb ht len row tail zero lt le = absurd (omega arith)
    row-Start auto auto' b text k last ent es hb ht len row tail (suc zero) lt le =
        absurd (omega arith)
    row-Start auto auto' b text k last ent es hb ht len row tail (suc (suc fuel)) lt le =
        let size = length-append {0} b text in
        parse_entries-row (suc fuel) auto auto' b text k last ent es hb ht
          (row fuel (omega arith) (omega arith)) (tail.1 (suc fuel) (omega arith) (omega arith))

    pub value-Start :
        (auto level : ℕ) (b k last : Bytes) (v : Value N) (es : List (Entry N))
        → all is_blank b ≡ true
        → IsPlain v
        → Tail (auto + 1) k es last
        → Start auto
            (b ++ (write_value v level ++ k))
            (record { key = int (pos auto); value = v } ∷ es)
            last
    value-Start auto level b k last v es hb p tail =
        let text = write_value v level ++ k in
        let begins = write_value-begins v level k p in
        row-Start auto (auto + 1) b text k last _ es hb (begins-row text begins)
          (omega (arith, length-append {0} (write_value v level) k))
          (λ fuel lt le.
            parse_entry-value (λ t. parse_value (suc fuel) t) auto text k v begins
              (reads fuel lt v level k p tail.0 le))
          tail

    pub key-Start :
        (auto level : ℕ) (b key k last : Bytes) (v : Value N) (es : List (Entry N))
        → all is_blank b ≡ true
        → any is_line_end key ≡ false
        → IsPlain v
        → Tail auto k es last
        → Start auto
            (b ++ (write_key key ++ (write_value v level ++ k)))
            (record { key = str key; value = v } ∷ es)
            last
    key-Start auto level b key k last v es hb hk p tail =
        let text = write_value v level ++ k in
        row-Start auto auto b (write_key key ++ text) k last _ es hb (write_key-begins key text)
          (omega (
            arith,
            length-append {0} (write_key key) text,
            length-append {0} (write_value v level) k,
          ))
          (λ fuel lt le.
            parse_entry-key fuel auto key text k v hk (write_value-begins v level k p) (
              reads fuel lt v level k p tail.0
                (omega (arith, length-append {0} (write_key key) text))))
          tail
