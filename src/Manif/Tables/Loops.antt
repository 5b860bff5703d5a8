-- ===== src/Manif/Tables/Loops.antt =====
-- The loops of writeTable in manif/writer.go over the items, the numbered entries and the fields, as the
-- loop of parseTable in manif/parser.go reads what they write.
use go_luarocks.Prelude.{
  ℕ, ◌+◌, ◌<◌, ◌≡◌, sym, ◌∙◌, ap, subst, List, ◌∷◌, ◌++◌, Bytes, ℤ, append_assoc, all, true,
}
use go_luarocks.Manif.Value.{
  Value, Items, Fields, Numbered, FloatText, int, no_items, item, no_fields, field, no_numbered,
  numbered,
}
use go_luarocks.Manif.Writer.{
  write_key, write_value, write_items, write_fields, write_numbered, write_close, separator_text,
  separator_after, separator_after_numbered, first,
}
use go_luarocks.Manif.Lexer.{is_blank}
use go_luarocks.Manif.Parser.{Entry}
use go_luarocks.Manif.Tables.{ArePlainItems, ArePlainFields, ArePlainNumbered}
use go_luarocks.Manif.Tables.Entries.{item_entries, field_entries, numbered_entries}
use go_luarocks.Manif.Tables.Reading.{
  Reads, Start, Tail, close-Tail, comma-Tail, value-Start, key-Start, separator_after-comma,
  first-blank,
}

-- The text of one entry in front of what follows.
append_row : (a b c d : Bytes) → (a ++ (b ++ c)) ++ d ≡ a ++ (b ++ (c ++ d))
append_row a b c d = append_assoc a (b ++ c) d ∙ ap (λ t. a ++ t) (append_assoc b c d)

append_key_row : (a b c d e : Bytes) → (a ++ (b ++ (c ++ d))) ++ e ≡ a ++ (b ++ (c ++ (d ++ e)))
append_key_row a b c d e = append_assoc a (b ++ (c ++ d)) e ∙ ap (λ t. a ++ t) (append_row b c d e)

module _ {N : Type 0} ⦃ft : FloatText N⦄ where
  module _ (bound : ℕ) (reads : (fuel : ℕ) → fuel < bound → Reads N fuel) where
    -- Where the next entries are read from the text behind the separator, they are from the separator on.
    separated :
        (u : Value N) (auto level : ℕ) (text last : Bytes) (es : List (Entry N))
        → ((b : Bytes) → all is_blank b ≡ true → Start bound reads auto (b ++ text) es last)
        → Tail bound reads auto (separator_text (separator_after u) level ++ text) es last
    separated u auto level text last es start =
        let (b, e, h) = separator_after-comma u level in
        subst (λ s. Tail bound reads auto (s ++ text) es last) (sym e)
          (comma-Tail bound reads auto b text es last (start b h))

    -- The items of an array that are left, and the end of the table.
    items-Tail :
        (u : Value N) (xs : Items N) (auto level : ℕ) (rest : Bytes)
        → ArePlainItems xs
        → Tail bound reads auto
            (write_items xs (separator_after u) level ++ (write_close true level ++ rest))
            (item_entries auto xs)
            rest
    unfolding write_items item_entries ArePlainItems
    items-Tail u no_items auto level rest p = close-Tail bound reads auto level rest
    items-Tail u (item v xs) auto level rest p =
        let k = write_items xs (separator_after v) level ++ (write_close true level ++ rest) in
        subst (λ s. Tail bound reads auto s (item_entries auto (item v xs)) rest)
          (sym (
            append_row (separator_text (separator_after u) level) (write_value v level)
              (write_items xs (separator_after v) level) (write_close true level ++ rest)))
          (separated u auto level (write_value v level ++ k) rest _ (λ b h.
            value-Start bound reads auto level b k rest v (item_entries (auto + 1) xs) h p.0
              (items-Tail v xs (auto + 1) level rest p.1)))

    -- The fields that are left, and the end of the table.
    fields-Tail :
        (u : Value N) (fs : Fields N) (auto level : ℕ) (rest : Bytes)
        → ArePlainFields fs
        → Tail bound reads auto
            (write_fields fs (separator_after u) level ++ (write_close true level ++ rest))
            (field_entries fs)
            rest
    unfolding write_fields field_entries ArePlainFields
    fields-Tail u no_fields auto level rest p = close-Tail bound reads auto level rest
    fields-Tail u (field key v fs) auto level rest p =
        let k = write_fields fs (separator_after v) level ++ (write_close true level ++ rest) in
        subst (λ s. Tail bound reads auto s (field_entries (field key v fs)) rest)
          (sym (
            append_key_row (separator_text (separator_after u) level) (write_key key)
              (write_value v level) (write_fields fs (separator_after v) level)
              (write_close true level ++ rest)))
          (separated u auto level (write_key key ++ (write_value v level ++ k)) rest _ (λ b h.
            key-Start bound reads auto level b key k rest v (field_entries fs) h p.0 p.1
              (fields-Tail v fs auto level rest p.3)))

    -- The numbered entries that are left, then the fields.
    numbered-Tail :
        (u : Value N) (ns : Numbered N) (fs : Fields N) (auto level : ℕ) (rest : Bytes)
        → ArePlainNumbered auto ns
        → ArePlainFields fs
        → Tail bound reads auto
            (write_numbered ns (separator_after u) level
              ++ (write_fields fs (separator_after_numbered (separator_after u) ns) level
                  ++ (write_close true level ++ rest)))
            (numbered_entries ns ++ field_entries fs)
            rest
    unfolding write_numbered numbered_entries separator_after_numbered ArePlainNumbered
    numbered-Tail u no_numbered fs auto level rest pn pf = fields-Tail u fs auto level rest pf
    numbered-Tail u (numbered n v ns) fs auto level rest pn pf =
        let close = write_close true level ++ rest in
        let others =
          write_fields fs (separator_after_numbered (separator_after v) ns) level ++ close in
        let k = write_numbered ns (separator_after v) level ++ others in
        subst
          (λ s.
            Tail bound reads auto s (numbered_entries (numbered n v ns) ++ field_entries fs) rest)
          (sym (
            append_row (separator_text (separator_after u) level) (write_value v level)
              (write_numbered ns (separator_after v) level) others))
          (separated u auto level (write_value v level ++ k) rest _ (λ b h.
            subst
              (λ m.
                Start bound reads auto (b ++ (write_value v level ++ k))
                  (record { key = int m; value = v } ∷ (numbered_entries ns ++ field_entries fs))
                  rest)
              (sym pn.0)
              (value-Start bound reads auto level b k rest v
                (numbered_entries ns ++ field_entries fs) h pn.1
                (numbered-Tail v ns fs (auto + 1) level rest pn.2 pf))))

    -- The entries of a whole table, from the brace on.
    pub items-Start :
        (v : Value N) (xs : Items N) (level : ℕ) (rest : Bytes)
        → ArePlainItems (item v xs)
        → Start bound reads 1
            (write_items (item v xs) first level ++ (write_close true level ++ rest))
            (item_entries 1 (item v xs))
            rest
    unfolding write_items item_entries ArePlainItems
    items-Start v xs level rest p =
        subst (λ s. Start bound reads 1 s (item_entries 1 (item v xs)) rest)
          (sym (
            append_row (separator_text first level) (write_value v level)
              (write_items xs (separator_after v) level) (write_close true level ++ rest)))
          (value-Start bound reads 1 level (separator_text first level) _ rest v _
            (first-blank level) p.0 (items-Tail v xs 2 level rest p.1))

    pub fields-Start :
        (key : Bytes) (v : Value N) (fs : Fields N) (level : ℕ) (rest : Bytes)
        → ArePlainFields (field key v fs)
        → Start bound reads 1
            (write_fields (field key v fs) first level ++ (write_close true level ++ rest))
            (field_entries (field key v fs))
            rest
    unfolding write_fields field_entries ArePlainFields
    fields-Start key v fs level rest p =
        subst (λ s. Start bound reads 1 s (field_entries (field key v fs)) rest)
          (sym (
            append_key_row (separator_text first level) (write_key key) (write_value v level)
              (write_fields fs (separator_after v) level) (write_close true level ++ rest)))
          (key-Start bound reads 1 level (separator_text first level) key _ rest v _
            (first-blank level) p.0 p.1 (fields-Tail v fs 1 level rest p.3))

    pub numbered-Start :
        (n : ℤ) (v : Value N) (ns : Numbered N) (fs : Fields N) (level : ℕ) (rest : Bytes)
        → ArePlainNumbered 1 (numbered n v ns)
        → ArePlainFields fs
        → Start bound reads 1
            (write_numbered (numbered n v ns) first level
              ++ (write_fields fs (separator_after_numbered first (numbered n v ns)) level
                  ++ (write_close true level ++ rest)))
            (numbered_entries (numbered n v ns) ++ field_entries fs)
            rest
    unfolding write_numbered numbered_entries separator_after_numbered ArePlainNumbered
    numbered-Start n v ns fs level rest pn pf =
        let close = write_close true level ++ rest in
        let others =
          write_fields fs (separator_after_numbered (separator_after v) ns) level ++ close in
        let k = write_numbered ns (separator_after v) level ++ others in
        let es = numbered_entries ns ++ field_entries fs in
        let text = separator_text first level ++ (write_value v level ++ k) in
        subst (λ s. Start bound reads 1 s (record { key = int n; value = v } ∷ es) rest)
          (sym (
            append_row (separator_text first level) (write_value v level)
              (write_numbered ns (separator_after v) level) others))
          (subst (λ m. Start bound reads 1 text (record { key = int m; value = v } ∷ es) rest)
            (sym pn.0)
            (value-Start bound reads 1 level (separator_text first level) k rest v es
              (first-blank level) pn.1 (numbered-Tail v ns fs 2 level rest pn.2 pf)))
