-- ===== src/Manif/Tables/Rows.antt =====
-- One entry of a table, as manif/writer.go writes it and parseTable of manif/parser.go reads it.
use go_luarocks.Prelude.{
  ℕ, zero, suc, ◌+◌, ◌≡◌, refl, ◌∙◌, ap, ap₂, Bool, true, false, ◌&&◌, ◌||◌, some, none, List, [],
  ◌∷◌, ◌++◌, arith, Bytes, codes, pos, is_digit, ok, err, if◌then◌else◌, all, ◌==◌, take_while,
  drop_while, take_while-append, drop_while-append, &&-eq-true,
}
use go_luarocks.Files.Strings.{has_prefix}
use go_luarocks.Manif.Value.{Value, FloatText, str, int}
use go_luarocks.Manif.Writer.{
  is_ident_start, is_ident_part, is_valid_plain_key, next_is_digit, indentation,
}
use go_luarocks.Manif.Lexer.{is_blank, skip, skip_ws, starts_comment, fail, expected_comma}
use go_luarocks.Manif.Parser.{
  Read, Entry, parse_value, parse_entries, parse_entry, entry_end, consume, assigned, keyed,
  bracket_entry, ident_key_lookahead,
}

-- What writeTable puts behind an entry begins with a comma or a line break.
abbrev pub ends : Bytes → Bool
ends [] = false
ends (c ∷ s) = (c == b',') || (c == 10)

-- A string, a table or an integer begins here.
abbrev pub begins_value : Bytes → Bool
begins_value [] = false
begins_value (c ∷ s) =
    (c == b'"') || ((c == b'{') || (is_digit c || ((c == b'-') && next_is_digit s)))

-- A value, or the key of an entry.
abbrev pub begins_row : Bytes → Bool
begins_row [] = false
begins_row (c ∷ s) = begins_value (c ∷ s) || ((c == b'[') || is_ident_start c)

pub begins-row : (s : Bytes) → begins_value s ≡ true → begins_row s ≡ true
begins-row [] h = ground arith
begins-row (c ∷ s) h = ground arith

pub skip_ws-row : (s : Bytes) → begins_row s ≡ true → skip_ws s ≡ s
unfolding skip_ws skip starts_comment has_prefix
skip_ws-row [] h = ground arith
skip_ws-row (c ∷ []) h = ground arith
skip_ws-row (c ∷ d ∷ s) h = ground arith

pub skip_ws-blanks : (b s : Bytes) → all is_blank b ≡ true → skip_ws (b ++ s) ≡ skip_ws s
unfolding skip_ws skip
skip_ws-blanks [] s h = refl
skip_ws-blanks (c ∷ b) s h = ground (arith, skip_ws-blanks b s)

pub indentation-blank : (n : ℕ) → all is_blank (indentation n) ≡ true
unfolding indentation
indentation-blank zero = refl
indentation-blank (suc n) = indentation-blank n

not_closed : (s : Bytes) → begins_row s ≡ true → consume b'}' s ≡ none
unfolding consume
not_closed [] h = refl
not_closed (c ∷ s) h = ground arith

if-second :
    {A : Type 0} (a b : Bool) (x y z : A)
    → a ≡ false
    → b ≡ true
    → (if a then x else if b then y else z) ≡ y
if-second a b x y z ha hb = rw (ha, hb) refl

skip_ws-equals : (s : Bytes) → skip_ws (b'=' ∷ s) ≡ b'=' ∷ s
unfolding skip_ws skip starts_comment has_prefix
skip_ws-equals s = refl

skip_ws-bracket : (s : Bytes) → skip_ws (b']' ∷ s) ≡ b']' ∷ s
unfolding skip_ws skip starts_comment has_prefix
skip_ws-bracket s = refl

ident_key_lookahead-equals :
    (s text : Bytes)
    → drop_while is_ident_part s ≡ b' ' ∷ b'=' ∷ b' ' ∷ text
    → ident_key_lookahead s ≡ true
unfolding ident_key_lookahead
ident_key_lookahead-equals s text h = rw (ident_key_lookahead, h) refl

module _ {N : Type 0} ⦃ft : FloatText N⦄ where
  -- How parseTable goes on behind an entry, where `entries` reads the entries to come.
  unfoldable pub after_entry :
      (ℕ → Bytes → Read (List (Entry N))) → ℕ → Bytes → Read (List (Entry N))
  unfolding entry_end
  after_entry entries auto s = elim (entry_end s) [
    | none ↦ fail expected_comma (skip_ws s)
    | some (done, after) ↦ elim done [ true ↦ ok ([], after) | false ↦ entries auto after ]
  ]

  -- A round of parseTable, where `value` reads a value.
  unfoldable table_round :
      (Bytes → Read (Value N))
      → (ℕ → Bytes → Read (List (Entry N)))
      → ℕ
      → Bytes
      → Read (List (Entry N))
  table_round value entries auto t = elim (consume b'}' t) [
    | some rest ↦ ok ([], rest)
    | none ↦ elim (parse_entry value auto t) [
      | err e ↦ err e
      | ok (ent, auto', rest) ↦ elim (entry_end rest) [
        | none ↦ fail expected_comma (skip_ws rest)
        | some (done, after) ↦ elim done [
          | true ↦ ok (ent ∷ [], after)
          | false ↦ elim (entries auto' after) [
            | err e ↦ err e
            | ok (es, last) ↦ ok (ent ∷ es, last)
          ]
        ]
      ]
    ]
  ]

  parse_entries-round :
      (fuel auto : ℕ) (s : Bytes)
      → parse_entries (suc fuel) auto s
        ≡ table_round (λ t. parse_value fuel t) (λ i t. parse_entries fuel i t) auto (skip_ws s)
  unfolding parse_entries table_round
  parse_entries-round fuel auto s = refl

  table_round-row :
      (value : Bytes → Read (Value N)) (entries : ℕ → Bytes → Read (List (Entry N)))
      (auto auto' : ℕ) (text k last : Bytes) (ent : Entry N) (es : List (Entry N))
      → consume b'}' text ≡ none
      → parse_entry value auto text ≡ ok (ent, auto', k)
      → after_entry entries auto' k ≡ ok (es, last)
      → table_round value entries auto text ≡ ok (ent ∷ es, last)
  unfolding table_round after_entry
  table_round-row value entries auto auto' text k last ent es h row more =
      rw (table_round, h, row) (ground (arith, more))

  -- A round that reads an entry, and the rounds behind it.
  pub parse_entries-row :
      (fuel auto auto' : ℕ) (b text k last : Bytes) (ent : Entry N) (es : List (Entry N))
      → all is_blank b ≡ true
      → begins_row text ≡ true
      → parse_entry (λ t. parse_value fuel t) auto text ≡ ok (ent, auto', k)
      → after_entry (λ i t. parse_entries fuel i t) auto' k ≡ ok (es, last)
      → parse_entries (suc fuel) auto (b ++ text) ≡ ok (ent ∷ es, last)
  parse_entries-row fuel auto auto' b text k last ent es hb ht row more =
      parse_entries-round fuel auto (b ++ text)
      ∙ ap (table_round (λ t. parse_value fuel t) (λ i t. parse_entries fuel i t) auto)
          (skip_ws-blanks b text hb ∙ skip_ws-row text ht)
      ∙ table_round-row (λ t. parse_value fuel t) (λ i t. parse_entries fuel i t) auto auto' text k
          last ent es (not_closed text ht) row more

  -- The round at the closing brace.
  pub parse_entries-closed :
      (fuel auto : ℕ) (rest : Bytes)
      → parse_entries {N = N} (suc fuel) auto (b'}' ∷ rest) ≡ ok ([], rest)
  parse_entries-closed fuel auto rest =
      parse_entries-round fuel auto (b'}' ∷ rest)
      ∙ unfold table_round skip_ws skip starts_comment has_prefix consume in refl

  -- A value without a key takes the next index.
  pub parse_entry-value :
      (value : Bytes → Read (Value N)) (auto : ℕ) (text k : Bytes) (v : Value N)
      → begins_value text ≡ true
      → value text ≡ ok (v, k)
      → parse_entry value auto text ≡ ok (record { key = int (pos auto); value = v }, auto + 1, k)
  unfolding parse_entry
  parse_entry-value value auto [] k v h e = ground arith
  parse_entry-value value auto (c ∷ s) k v h e =
      let plain : (c == b'[') ≡ false = ground arith in
      let word : is_ident_start c ≡ false = ground arith in rw (plain, word, e) refl

  pub assigned-value :
      (value : Bytes → Read (Value N)) (s text : Bytes)
      → skip_ws s ≡ b'=' ∷ b' ' ∷ text
      → begins_value text ≡ true
      → assigned value s ≡ value text
  unfolding assigned consume
  assigned-value value s text e h =
      rw (assigned, e, skip_ws-blanks (b' ' ∷ []) text refl, skip_ws-row text (begins-row text h))
        refl

  parse_entry-named :
      (value : Bytes → Read (Value N)) (auto c : ℕ) (s word rest k : Bytes) (v : Value N)
      → is_ident_start c ≡ true
      → ident_key_lookahead (c ∷ s) ≡ true
      → take_while is_ident_part (c ∷ s) ≡ word
      → drop_while is_ident_part (c ∷ s) ≡ rest
      → assigned value rest ≡ ok (v, k)
      → parse_entry value auto (c ∷ s) ≡ ok (record { key = str word; value = v }, auto, k)
  unfolding parse_entry keyed
  parse_entry-named value auto c s word rest k v start ahead taken left e =
      let not_bracket : (c == b'[') ≡ false = ground arith in
      let named : keyed (str (take_while is_ident_part (c ∷ s)))
            (assigned value (drop_while is_ident_part (c ∷ s)))
          ≡ ok (record { key = str word; value = v }, k) =
        ap₂ (λ w r. keyed (str w) (assigned value r)) taken left ∙ ap (keyed (str word)) e in
      if-second (c == b'[') (is_ident_start c && ident_key_lookahead (c ∷ s)) _ _ _ not_bracket
        (rw (start, ahead) refl)
      ∙ (ap (λ r. elim r [ err e ↦ err e | ok (ent, rest) ↦ ok (ent, auto, rest) ]) named)

  pub parse_entry-word :
      (value : Bytes → Read (Value N)) (auto : ℕ) (key text k : Bytes) (v : Value N)
      → is_valid_plain_key key ≡ true
      → begins_value text ≡ true
      → value text ≡ ok (v, k)
      → parse_entry value auto (key ++ (codes " = " ++ text))
        ≡ ok (record { key = str key; value = v }, auto, k)
  unfolding is_valid_plain_key
  parse_entry-word value auto [] text k v h b e = ground arith
  parse_entry-word value auto (c ∷ key) text k v h b e =
      let (start, more) = &&-eq-true (is_ident_start c) _ h in
      let (parts, _) = &&-eq-true (all is_ident_part key) _ more in
      let tail = codes " = " ++ text in
      let word : all is_ident_part (c ∷ key) ≡ true = ground arith in
      let left = drop_while-append is_ident_part (c ∷ key) tail word refl in
      parse_entry-named value auto c (key ++ tail) (c ∷ key) tail k v start
        (ident_key_lookahead-equals ((c ∷ key) ++ tail) text left)
        (take_while-append is_ident_part (c ∷ key) tail word refl) left
        (assigned-value value tail text
            (skip_ws-blanks (b' ' ∷ []) (b'=' ∷ b' ' ∷ text) refl ∙ skip_ws-equals (b' ' ∷ text)) b
          ∙ e)

  pub parse_entry-bracket :
      (value : Bytes → Read (Value N)) (auto : ℕ) (s text key k : Bytes) (v : Value N)
      → begins_value s ≡ true
      → value s ≡ ok (str key, codes "] = " ++ text)
      → begins_value text ≡ true
      → value text ≡ ok (v, k)
      → parse_entry value auto (b'[' ∷ s) ≡ ok (record { key = str key; value = v }, auto, k)
  unfolding parse_entry bracket_entry keyed consume
  parse_entry-bracket value auto s text key k v hs es h e =
      rw
        (
          bracket_entry,
          skip_ws-row s (begins-row s hs),
          es,
          skip_ws-row text (begins-row text h),
          e,
        )
        refl
