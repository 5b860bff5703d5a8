-- ===== src/Manif/Tables/Begins.antt =====
-- How the text of a value, of an entry with a key and of the end of a table begins, as manif/writer.go
-- writes them, and the entries with keys, as manif/parser.go reads them.
use go_luarocks.Prelude.{
  ℕ, suc, ◌-◌, ◌<◌, ◌≡◌, refl, ◌∙◌, ap, true, false, some, [], ◌∷◌, ◌++◌, arith, Bytes, ℤ, pos,
  negsuc, codes, is_digit, ok, length, all, any, &&-eq-true, Bool-cases, inl, inr, append_assoc,
  decimal, decimal_ℤ, all-decimal, length-decimal_pos,
}
use go_luarocks.Files.Strings.{has_prefix}
use go_luarocks.Manif.Value.{Value, FloatText, str, int, array, object, mixed, nil, bool, float}
use go_luarocks.Manif.Writer.{
  is_ident_start, is_valid_plain_key, is_line_end, write_key, write_string, write_value, lua_q,
  next_is_digit, indentation, write_close,
}
use go_luarocks.Manif.Lexer.{is_blank, skip, skip_ws, starts_comment}
use go_luarocks.Manif.Parser.{parse_value, parse_entry, entry_end}
use go_luarocks.Manif.Quoted.{parse_value-write_string}
use go_luarocks.Manif.Tables.{IsPlain}
use go_luarocks.Manif.Tables.Rows.{
  begins_value, begins_row, skip_ws-blanks, indentation-blank, parse_entry-word,
  parse_entry-bracket,
}

write_string-begins :
    (s rest : Bytes) → any is_line_end s ≡ false → begins_value (write_string s ++ rest) ≡ true
unfolding write_string lua_q
write_string-begins s rest h = rw h refl

digits-begins :
    (ds rest : Bytes)
    → all is_digit ds ≡ true
    → 0 < length ds
    → (begins_value (ds ++ rest) ≡ true) × (next_is_digit (ds ++ rest) ≡ true)
digits-begins [] rest h l = absurd (omega arith)
digits-begins (c ∷ ds) rest h l = (ground arith, ground arith)

decimal_ℤ-begins : (n : ℤ) (rest : Bytes) → begins_value (decimal_ℤ n ++ rest) ≡ true
unfolding decimal_ℤ
decimal_ℤ-begins (pos n) rest =
    (digits-begins (decimal n) rest (all-decimal n) (length-decimal_pos n)).0
decimal_ℤ-begins (negsuc n) rest =
    (digits-begins (decimal (suc n)) rest (all-decimal (suc n)) (length-decimal_pos (suc n))).1

module _ {N : Type 0} ⦃ft : FloatText N⦄ where
  pub write_value-begins :
      (v : Value N) (level : ℕ) (rest : Bytes)
      → IsPlain v
      → begins_value (write_value v level ++ rest) ≡ true
  unfolding write_value IsPlain
  write_value-begins nil level rest p = absurd p
  write_value-begins (bool b) level rest p = absurd p
  write_value-begins (float f) level rest p = absurd p
  write_value-begins (int n) level rest p = decimal_ℤ-begins n rest
  write_value-begins (str s) level rest p = write_string-begins s rest p
  write_value-begins (array xs) level rest p = refl
  write_value-begins (object fs) level rest p = refl
  write_value-begins (mixed ns fs) level rest p = refl

pub begins_row-word : (c : ℕ) (s : Bytes) → is_ident_start c ≡ true → begins_row (c ∷ s) ≡ true
begins_row-word c s h = ground arith

pub write_key-begins : (k rest : Bytes) → begins_row (write_key k ++ rest) ≡ true
unfolding write_key is_valid_plain_key
write_key-begins [] rest = refl
write_key-begins (c ∷ k) rest = elim (Bool-cases (is_valid_plain_key (c ∷ k))) [
  | inl valid ↦
      rw valid
        (begins_row-word c ((k ++ codes " = ") ++ rest) (&&-eq-true (is_ident_start c) _ valid).0)
  | inr other ↦ rw other refl
]

pub entry_end-comma : (s : Bytes) → entry_end (b',' ∷ s) ≡ some (false, s)
unfolding entry_end skip_ws skip starts_comment has_prefix
entry_end-comma s = refl

entry_end-brace : (s : Bytes) → entry_end (b'}' ∷ s) ≡ some (true, s)
unfolding entry_end skip_ws skip starts_comment has_prefix
entry_end-brace s = refl

entry_end-blank : (b s : Bytes) → all is_blank b ≡ true → entry_end (b ++ s) ≡ entry_end s
unfolding entry_end
entry_end-blank b s h = rw (entry_end, skip_ws-blanks b s h) refl

pub entry_end-close :
    (level : ℕ) (rest : Bytes) → entry_end (write_close true level ++ rest) ≡ some (true, rest)
unfolding write_close
entry_end-close level rest =
    let blank = 10 ∷ indentation (level - 1) in
    ap entry_end (append_assoc blank (codes "}") rest)
    ∙ entry_end-blank blank (b'}' ∷ rest) (indentation-blank (level - 1))
    ∙ entry_end-brace rest

module _ {N : Type 0} ⦃ft : FloatText N⦄ where
  -- An entry with a key.
  pub parse_entry-key :
      (fuel auto : ℕ) (key text k : Bytes) (v : Value N)
      → any is_line_end key ≡ false
      → begins_value text ≡ true
      → parse_value (suc fuel) text ≡ ok (v, k)
      → parse_entry (λ t. parse_value (suc fuel) t) auto (write_key key ++ text)
        ≡ ok (record { key = str key; value = v }, auto, k)
  unfolding write_key
  parse_entry-key fuel auto key text k v h b e = elim (Bool-cases (is_valid_plain_key key)) [
    | inl valid ↦
        rw (valid, append_assoc key (codes " = ") text)
          (parse_entry-word (λ t. parse_value (suc fuel) t) auto key text k v valid b e)
    | inr other ↦
        rw (other, append_assoc (write_string key) (codes "] = ") text)
          (parse_entry-bracket (λ t. parse_value (suc fuel) t) auto
            (write_string key ++ (codes "] = " ++ text)) text key k v
            (write_string-begins key (codes "] = " ++ text) h)
            (unfold write_value in
              parse_value-write_string {N = N} key (codes "] = " ++ text) fuel 0 h)
            b e)
  ]
