-- ===== src/Manif/Tables/WholeFile.antt =====
-- Whole files: what Write of manif/writer.go sends, Parse of manif/parser.go reads back.
use go_luarocks.Prelude.{
  ℕ, zero, suc, ◌+◌, ◌*◌, ◌≤◌, ◌≡◌, refl, sym, ◌∙◌, ap, Bool, true, ◌&&◌, [], ◌∷◌, ◌++◌, arith,
  Bytes, codes, ok, err, if◌then◌else◌, length, length-append, all, take_while, drop_while,
  take_while-append, drop_while-append, &&-eq-true,
}
use go_luarocks.Files.Strings.{has_prefix}
use go_luarocks.Manif.Value.{Value, Fields, FloatText, object, no_fields, field, put_field}
use go_luarocks.Manif.Writer.{
  is_ident_start, is_ident_part, is_valid_plain_key, write_value, write_assignments, write,
}
use go_luarocks.Manif.Lexer.{skip, skip_ws, starts_comment}
use go_luarocks.Manif.Parser.{Read, assigned, parse_value, parse_assignments, parse}
use go_luarocks.Manif.Tables.{ArePlainFields}
use go_luarocks.Manif.Tables.Order.{
  append_fields, append_fields-none, in_order, in_order-none, put_field-in_order,
}
use go_luarocks.Manif.Tables.Rows.{begins_value, skip_ws-row, assigned-value}
use go_luarocks.Manif.Tables.Begins.{write_value-begins, begins_row-word}
use go_luarocks.Manif.Tables.RoundTrip.{parse_value-write_value}

-- The keys are the names of variables.
unfoldable pub has_plain_keys : {N : Type 0} → Fields N → Bool
unfolding is_valid_plain_key
has_plain_keys no_fields = true
has_plain_keys (field k v fs) = is_valid_plain_key k && has_plain_keys fs

if-true : {A : Type 0} (b : Bool) (x y : A) → b ≡ true → (if b then x else y) ≡ x
if-true b x y h = rw h refl

skip_ws-newline : (s : Bytes) → skip_ws (10 ∷ s) ≡ skip_ws s
unfolding skip_ws skip
skip_ws-newline s = refl

valid_key :
    (c : ℕ) (k : Bytes)
    → is_valid_plain_key (c ∷ k) ≡ true
    → (is_ident_start c ≡ true) × (all is_ident_part (c ∷ k) ≡ true)
unfolding is_valid_plain_key
valid_key c k h =
    let (start, more) = &&-eq-true (is_ident_start c) _ h in
    let (parts, _) = &&-eq-true (all is_ident_part k) _ more in (start, ground arith)

module _ {N : Type 0} ⦃ft : FloatText N⦄ where
  -- One assignment.
  parse_assignments-step :
      (fuel c : ℕ) (out : Fields N) (s word text rest : Bytes) (v : Value N)
      → is_ident_start c ≡ true
      → take_while is_ident_part (c ∷ s) ≡ word
      → drop_while is_ident_part (c ∷ s) ≡ codes " = " ++ text
      → begins_value text ≡ true
      → parse_value (3 * length text + 1) text ≡ ok (v, rest)
      → parse_assignments (suc fuel) out (c ∷ s)
        ≡ parse_assignments fuel (put_field word v out) (skip_ws rest)
  unfolding parse_assignments
  parse_assignments-step fuel c out s word text rest v start taken left begins e =
      let value : Bytes → Read (Value N) = λ t. parse_value (3 * length t + 1) t in
      let assigns : assigned value (drop_while is_ident_part (c ∷ s)) ≡ ok (v, rest) =
        ap (assigned value) left
        ∙ assigned-value value (codes " = " ++ text) text
            (unfold skip_ws skip starts_comment has_prefix in refl) begins
        ∙ e in
      if-true (is_ident_start c) _ _ start
      ∙ (ap
            (λ r. elim r [
              | err e ↦ err e
              | ok (v, rest) ↦
                  parse_assignments fuel (put_field (take_while is_ident_part (c ∷ s)) v out)
                    (skip_ws rest)
            ])
            assigns
          ∙ ap (λ w. parse_assignments fuel (put_field w v out) (skip_ws rest)) taken)

  -- The text of one assignment and of those behind it, as the loop of Parse reads it.
  assignments-read :
      (c : ℕ) (k : Bytes) (v : Value N) (fs : Fields N) (text : Bytes)
      → is_ident_start c ≡ true
      → all is_ident_part (c ∷ k) ≡ true
      → ArePlainFields (field (c ∷ k) v fs)
      → skip_ws text ≡ text
      → ((fuel : ℕ) (out : Fields N)
          → in_order out fs ≡ true
          → length text ≤ fuel
          → parse_assignments fuel out text ≡ ok (append_fields out fs))
      → (fuel : ℕ) (out : Fields N) → in_order out (field (c ∷ k) v fs) ≡ true
      → length ((c ∷ k) ++ (codes " = " ++ (write_value v 0 ++ (10 ∷ text)))) ≤ fuel
      → parse_assignments fuel out ((c ∷ k) ++ (codes " = " ++ (write_value v 0 ++ (10 ∷ text))))
        ≡ ok (append_fields out (field (c ∷ k) v fs))
  unfolding ArePlainFields
  assignments-read c k v fs text start parts p stays reads zero out o le = absurd (omega arith)
  assignments-read c k v fs text start parts p stays reads (suc fuel) out o le =
      let value = write_value v 0 ++ (10 ∷ text) in
      let tail = codes " = " ++ value in
      let (_, kept, joined) = put_field-in_order out fs (c ∷ k) v o p.2 in
      let size : 3 * length value + 1 ≡ suc (3 * length value) = omega arith in
      parse_assignments-step fuel c out (k ++ tail) (c ∷ k) value (10 ∷ text) v start
        (take_while-append is_ident_part (c ∷ k) tail parts refl)
        (drop_while-append is_ident_part (c ∷ k) tail parts refl)
        (write_value-begins v 0 (10 ∷ text) p.1)
        (ap (λ n. parse_value n value) size
          ∙ parse_value-write_value v (3 * length value) 0 (10 ∷ text) p.1 refl (omega arith))
      ∙ ap (parse_assignments fuel (put_field (c ∷ k) v out)) (skip_ws-newline text ∙ stays)
      ∙ reads fuel (put_field (c ∷ k) v out) kept
          (omega (arith, length-append {0} k tail, length-append {0} (write_value v 0) (10 ∷ text)))
      ∙ ap ok joined

  -- The text of the assignments, and how the loop of Parse reads it.
  assignments :
      (fs : Fields N)
      → has_plain_keys fs ≡ true
      → ArePlainFields fs
      → (text : Bytes) × (write_assignments fs ≡ ok text)
        × (skip_ws text ≡ text)
        × ((fuel : ℕ) (out : Fields N)
            → in_order out fs ≡ true
            → length text ≤ fuel
            → parse_assignments fuel out text ≡ ok (append_fields out fs))
  unfolding write_assignments has_plain_keys ArePlainFields
  assignments no_fields h p = (
    [],
    refl,
    unfold skip_ws skip in refl,
    λ fuel out o le. unfold parse_assignments in ap ok (sym (append_fields-none out)),
  )
  assignments (field [] v fs) h p = unfold is_valid_plain_key in ground arith
  assignments (field (c ∷ k) v fs) h p =
      let (valid, others) = &&-eq-true (is_valid_plain_key (c ∷ k)) (has_plain_keys fs) h in
      let (start, parts) = valid_key c k valid in
      let (text, written, stays, reads) = assignments fs others p.3 in
      let value = write_value v 0 ++ (10 ∷ text) in
      let tail = codes " = " ++ value in
      let left = drop_while-append is_ident_part (c ∷ k) tail parts refl in
      let taken = take_while-append is_ident_part (c ∷ k) tail parts refl in
      let row = begins_row-word c (k ++ tail) start in
      (
        (c ∷ k) ++ tail,
        rw (valid, written) refl,
        skip_ws-row ((c ∷ k) ++ tail) row,
        assignments-read c k v fs text start parts p stays reads,
      )

  -- For a table whose keys are names of variables and ascend, and whose values are strings and
  -- keys on one line, 64-bit integers, arrays that are not empty, and such tables to any depth,
  -- also with numbers counted from 1 in front of the keys, Write succeeds and Parse gives back the
  -- table from the text.
  pub parse-write :
      (fs : Fields N)
      → has_plain_keys fs ≡ true
      → ArePlainFields fs
      → (text : Bytes) × (write (object fs) ≡ ok text) × (parse text ≡ ok (object fs))
  unfolding write parse
  parse-write fs h p =
      let (text, written, stays, reads) = assignments fs h p in
      let read : parse_assignments (length text) no_fields (skip_ws text) ≡ ok fs =
        ap (parse_assignments (length text) no_fields) stays
        ∙ reads (length text) no_fields (in_order-none fs) (omega arith)
        ∙ unfold append_fields in refl in
      (text, written, rw (parse, read) refl)
