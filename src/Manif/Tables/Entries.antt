-- ===== src/Manif/Tables/Entries.antt =====
-- The entries of a table, as parseTable of manif/parser.go gathers them, and the value that
-- entriesToValue makes of them.
use go_luarocks.Prelude.{
  ℕ, ◌+◌, ◌≡◌, refl, sym, ◌∙◌, ap, true, false, ◌&&◌, ◌||◌, some, List, [], ◌∷◌, ◌++◌, arith, pos,
  eqb_ℤ,
}
use go_luarocks.Manif.Value.{
  Items, Fields, Numbered, int, str, array, object, mixed, no_items, item, no_fields, field,
  no_numbered, numbered, put_field, put_numbered, FloatText,
}
use go_luarocks.Manif.Writer.{has_items, has_fields, has_numbered}
use go_luarocks.Manif.Parser.{
  Entry, Shape, scan_key, scan_keys, item_values, mix_entries, mix_entry, map_entry, map_entries,
  entries_to_value,
}
use go_luarocks.Manif.Tables.{ArePlainFields, ArePlainNumbered}
use go_luarocks.Manif.Tables.Order.{
  append_fields, append_fields-none, in_order, in_order-none, put_field-in_order, append_numbered,
  append_numbered_assoc, append_numbered-none, numbers_below, put_numbered-last,
}

module _ {N : Type 0} where
  unfoldable pub item_entries : ℕ → Items N → List (Entry N)
  item_entries i no_items = []
  item_entries i (item v xs) = record { key = int (pos i); value = v } ∷ item_entries (i + 1) xs

  unfoldable pub field_entries : Fields N → List (Entry N)
  field_entries no_fields = []
  field_entries (field k v fs) = record { key = str k; value = v } ∷ field_entries fs

  unfoldable pub numbered_entries : Numbered N → List (Entry N)
  numbered_entries no_numbered = []
  numbered_entries (numbered k v ns) = record { key = int k; value = v } ∷ numbered_entries ns

  item_values-item_entries : (i : ℕ) (xs : Items N) → item_values (item_entries i xs) ≡ xs
  unfolding item_values item_entries
  item_values-item_entries i no_items = refl
  item_values-item_entries i (item v xs) = ap (item v) (item_values-item_entries (i + 1) xs)

  scan_keys-append :
      (sh : Shape) (es gs : List (Entry N))
      → scan_keys sh (es ++ gs) ≡ scan_keys (scan_keys sh es) gs
  unfolding scan_keys
  scan_keys-append sh [] gs = refl
  scan_keys-append sh (e ∷ es) gs = scan_keys-append (scan_key e.key sh) es gs

  -- Automatic indices keep an array dense.
  scan_keys-item_entries :
      (xs : Items N) (sh : Shape)
      → sh.dense ≡ true
      → ((scan_keys sh (item_entries (sh.max_index + 1) xs)).has_num ≡ (sh.has_num || has_items xs))
        × ((scan_keys sh (item_entries (sh.max_index + 1) xs)).has_str ≡ sh.has_str)
        × ((scan_keys sh (item_entries (sh.max_index + 1) xs)).dense ≡ true)
  unfolding scan_keys scan_key item_entries
  scan_keys-item_entries no_items sh d = (ground arith, refl, d)
  scan_keys-item_entries (item v xs) sh d =
      let next : Shape = record {
        has_num = true;
        has_str = sh.has_str;
        dense = sh.dense && eqb_ℤ (pos (sh.max_index + 1)) (pos (sh.max_index + 1));
        max_index = sh.max_index + 1;
      } in
      let (n, s, e) = scan_keys-item_entries xs next (ground arith) in (n ∙ ground arith, s, e)

  scan_keys-field_entries :
      (fs : Fields N) (sh : Shape)
      → ((scan_keys sh (field_entries fs)).has_num ≡ sh.has_num)
        × ((scan_keys sh (field_entries fs)).has_str ≡ (sh.has_str || has_fields fs))
  unfolding scan_keys scan_key field_entries
  scan_keys-field_entries no_fields sh = (refl, ground arith)
  scan_keys-field_entries (field k v fs) sh =
      let (n, s) = scan_keys-field_entries fs (record sh { has_str = true; dense = false }) in
      (n, s ∙ ground arith)

  scan_keys-numbered_entries :
      (ns : Numbered N) (sh : Shape)
      → ((scan_keys sh (numbered_entries ns)).has_num ≡ (sh.has_num || has_numbered ns))
        × ((scan_keys sh (numbered_entries ns)).has_str ≡ sh.has_str)
  unfolding scan_keys scan_key numbered_entries
  scan_keys-numbered_entries no_numbered sh = (ground arith, refl)
  scan_keys-numbered_entries (numbered k v ns) sh =
      let (n, s) = scan_keys-numbered_entries ns (scan_key {N = N} (int k) sh) in
      (n ∙ ground arith, s)

module _ {N : Type 0} where
  module _ ⦃ft : FloatText N⦄ where
    map_entries-field_entries :
        (acc fs : Fields N)
        → in_order acc fs ≡ true
        → ArePlainFields fs
        → map_entries acc (field_entries fs) ≡ some (append_fields acc fs)
    unfolding map_entries map_entry field_entries ArePlainFields
    map_entries-field_entries acc no_fields h p = ap some (sym (append_fields-none acc))
    map_entries-field_entries acc (field k v fs) h p =
        let (_, kept, joined) = put_field-in_order acc fs k v h p.2 in
        map_entries-field_entries (put_field k v acc) fs kept p.3 ∙ ap some joined

  mix_entries-numbered_entries :
      (acc ns : Numbered N) (i : ℕ) (fs : Fields N) (es : List (Entry N))
      → numbers_below acc i ≡ true
      → ArePlainNumbered i ns
      → mix_entries (acc, fs) (numbered_entries ns ++ es)
        ≡ mix_entries (append_numbered acc ns, fs) es
  unfolding mix_entries mix_entry numbered_entries ArePlainNumbered
  mix_entries-numbered_entries acc no_numbered i fs es h p =
      ap (λ a. mix_entries (a, fs) es) (sym (append_numbered-none acc))
  mix_entries-numbered_entries acc (numbered k v ns) i fs es h p =
      let (last, below) = put_numbered-last acc i v h in
      let put : put_numbered k v acc ≡ append_numbered acc (numbered (pos i) v no_numbered) =
        ap (λ j. put_numbered j v acc) p.0 ∙ last in
      ap (λ a. mix_entries (a, fs) (numbered_entries ns ++ es)) put
      ∙ mix_entries-numbered_entries (append_numbered acc (numbered (pos i) v no_numbered)) ns
          (i + 1) fs es below p.2
      ∙ ap (λ a. mix_entries (a, fs) es)
          (append_numbered_assoc acc (numbered (pos i) v no_numbered) ns
            ∙ unfold append_numbered in ap (λ j. append_numbered acc (numbered j v ns)) (sym p.0))

  mix_entries-field_entries :
      (ns : Numbered N) (acc fs : Fields N)
      → in_order acc fs ≡ true
      → ArePlainFields fs
      → mix_entries (ns, acc) (field_entries fs) ≡ some (ns, append_fields acc fs)
  unfolding mix_entries mix_entry field_entries ArePlainFields
  mix_entries-field_entries ns acc no_fields h p =
      ap (λ a. some (ns, a)) (sym (append_fields-none acc))
  mix_entries-field_entries ns acc (field k v fs) h p =
      let (_, kept, joined) = put_field-in_order acc fs k v h p.2 in
      mix_entries-field_entries ns (put_field k v acc) fs kept p.3 ∙ ap (λ a. some (ns, a)) joined

  module _ ⦃ft : FloatText N⦄ where
    pub entries_to_value-items :
        (xs : Items N)
        → has_items xs ≡ true
        → entries_to_value (item_entries 1 xs) ≡ some (array xs)
    unfolding entries_to_value
    entries_to_value-items xs h =
        let (n, s, d) =
          scan_keys-item_entries xs
            (record { has_num = false; has_str = false; dense = true; max_index = 0 }) refl in
        rw (n, s, d, h, item_values-item_entries 1 xs) refl

    pub entries_to_value-fields :
        (fs : Fields N) → ArePlainFields fs → entries_to_value (field_entries fs) ≡ some (object fs)
    unfolding entries_to_value
    entries_to_value-fields fs p =
        let (n, s) =
          scan_keys-field_entries fs
            (record { has_num = false; has_str = false; dense = true; max_index = 0 }) in
        rw (n, map_entries-field_entries no_fields fs (in_order-none fs) p)
          (unfold append_fields in refl)

    pub entries_to_value-mixed :
        (ns : Numbered N) (fs : Fields N)
        → has_numbered ns ≡ true
        → has_fields fs ≡ true
        → ArePlainNumbered 1 ns
        → ArePlainFields fs
        → entries_to_value (numbered_entries ns ++ field_entries fs) ≡ some (mixed ns fs)
    unfolding entries_to_value numbers_below append_numbered append_fields
    entries_to_value-mixed ns fs hn hf pn pf =
        let start : Shape = record {
          has_num = false;
          has_str = false;
          dense = true;
          max_index = 0;
        } in
        let (n1, s1) = scan_keys-numbered_entries ns start in
        let (n2, s2) = scan_keys-field_entries fs (scan_keys start (numbered_entries ns)) in
        let num =
          ap (λ sh. Shape.has_num sh)
            (scan_keys-append start (numbered_entries ns) (field_entries fs))
          ∙ n2
          ∙ n1 in
        let strs =
          ap (λ sh. Shape.has_str sh)
            (scan_keys-append start (numbered_entries ns) (field_entries fs))
          ∙ s2 in
        let mixes : mix_entries (no_numbered, no_fields) (numbered_entries ns ++ field_entries fs)
            ≡ some (ns, fs) =
          mix_entries-numbered_entries no_numbered ns 1 no_fields (field_entries fs) refl pn
          ∙ mix_entries-field_entries ns no_fields fs (in_order-none fs) pf in
        rw (num, strs, s1, hn, hf, mixes) refl
