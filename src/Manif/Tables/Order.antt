-- ===== src/Manif/Tables/Order.antt =====
-- The order of the entries of a table, as manif/parser.go puts them into a map one by one.
use go_luarocks.Prelude.{
  ℕ, ◌+◌, ◌≡◌, refl, ◌∙◌, ap, Bool, true, false, ◌&&◌, [], ◌∷◌, arith, Bytes, same, pos, eqb_ℤ,
  &&-eq-true, ltb_ℤ,
}
use go_luarocks.Manif.Value.{
  Value, Fields, Numbered, no_fields, field, no_numbered, numbered, text_lt, put_field,
  put_numbered,
}
use go_luarocks.Manif.Tables.{below_all}

-- Go's order on strings is irreflexive and asymmetric.
text_lt-not_same : (s t : Bytes) → text_lt s t ≡ true → same t s ≡ false
unfolding text_lt same
text_lt-not_same [] [] h = ground arith
text_lt-not_same [] (b ∷ t) h = refl
text_lt-not_same (a ∷ s) [] h = ground arith
text_lt-not_same (a ∷ s) (b ∷ t) h = ground (arith, text_lt-not_same s t)

text_lt_asym : (s t : Bytes) → text_lt s t ≡ true → text_lt t s ≡ false
unfolding text_lt
text_lt_asym [] [] h = ground arith
text_lt_asym [] (b ∷ t) h = refl
text_lt_asym (a ∷ s) [] h = ground arith
text_lt_asym (a ∷ s) (b ∷ t) h = ground (arith, text_lt_asym s t)

module _ {N : Type 0} where
  unfoldable pub append_fields : Fields N → Fields N → Fields N
  append_fields no_fields gs = gs
  append_fields (field k v fs) gs = field k v (append_fields fs gs)

  append_fields_assoc :
      (fs gs hs : Fields N)
      → append_fields (append_fields fs gs) hs ≡ append_fields fs (append_fields gs hs)
  unfolding append_fields
  append_fields_assoc no_fields gs hs = refl
  append_fields_assoc (field k v fs) gs hs = ap (field k v) (append_fields_assoc fs gs hs)

  pub append_fields-none : (fs : Fields N) → append_fields fs no_fields ≡ fs
  unfolding append_fields
  append_fields-none no_fields = refl
  append_fields-none (field k v fs) = ap (field k v) (append_fields-none fs)

  -- The keys are all below the key.
  unfoldable pub all_below : Fields N → Bytes → Bool
  unfolding text_lt
  all_below no_fields k = true
  all_below (field j v fs) k = text_lt j k && all_below fs k

  all_below-append :
      (fs : Fields N) (j k : Bytes) (v : Value N)
      → all_below (append_fields fs (field j v no_fields)) k ≡ (all_below fs k && text_lt j k)
  unfolding all_below append_fields
  all_below-append no_fields j k v = ground arith
  all_below-append (field i w fs) j k v = ground (arith, all_below-append fs j k v)

  put_field-last :
      (acc : Fields N) (k : Bytes) (v : Value N)
      → all_below acc k ≡ true
      → put_field k v acc ≡ append_fields acc (field k v no_fields)
  unfolding put_field append_fields all_below
  put_field-last no_fields k v h = refl
  put_field-last (field j w acc) k v h =
      let (lt, more) = &&-eq-true (text_lt j k) (all_below acc k) h in
      rw (text_lt-not_same j k lt, text_lt_asym j k lt)
        (ap (field j w) (put_field-last acc k v more))

  -- The keys of the first map are all below those of the second.
  unfoldable pub in_order : Fields N → Fields N → Bool
  unfolding all_below
  in_order acc no_fields = true
  in_order acc (field k v fs) = all_below acc k && in_order acc fs

  in_order-append :
      (acc fs : Fields N) (k : Bytes) (v : Value N)
      → in_order acc fs ≡ true
      → below_all k fs ≡ true
      → in_order (append_fields acc (field k v no_fields)) fs ≡ true
  unfolding in_order below_all
  in_order-append acc no_fields k v h b = refl
  in_order-append acc (field j w fs) k v h b =
      ground (arith, all_below-append acc k j v, in_order-append acc fs k v)

  pub in_order-none : (fs : Fields N) → in_order no_fields fs ≡ true
  unfolding in_order all_below
  in_order-none no_fields = refl
  in_order-none (field k v fs) = in_order-none fs

  -- An entry whose key is above all keys so far comes last, and the rest stays in order.
  pub put_field-in_order :
      (acc fs : Fields N) (k : Bytes) (v : Value N)
      → in_order acc (field k v fs) ≡ true
      → below_all k fs ≡ true
      → (put_field k v acc ≡ append_fields acc (field k v no_fields))
        × (in_order (put_field k v acc) fs ≡ true)
        × (append_fields (put_field k v acc) fs ≡ append_fields acc (field k v fs))
  unfolding in_order
  put_field-in_order acc fs k v h b =
      let (here, later) = &&-eq-true (all_below acc k) (in_order acc fs) h in
      let last = put_field-last acc k v here in
      (
        last,
        ap (λ g. in_order g fs) last ∙ in_order-append acc fs k v later b,
        ap (λ g. append_fields g fs) last
            ∙ append_fields_assoc acc (field k v no_fields) fs
            ∙ unfold append_fields in refl,
      )

  unfoldable pub append_numbered : Numbered N → Numbered N → Numbered N
  append_numbered no_numbered ms = ms
  append_numbered (numbered k v ns) ms = numbered k v (append_numbered ns ms)

  pub append_numbered_assoc :
      (ns ms ls : Numbered N)
      → append_numbered (append_numbered ns ms) ls ≡ append_numbered ns (append_numbered ms ls)
  unfolding append_numbered
  append_numbered_assoc no_numbered ms ls = refl
  append_numbered_assoc (numbered k v ns) ms ls = ap (numbered k v) (append_numbered_assoc ns ms ls)

  pub append_numbered-none : (ns : Numbered N) → append_numbered ns no_numbered ≡ ns
  unfolding append_numbered
  append_numbered-none no_numbered = refl
  append_numbered-none (numbered k v ns) = ap (numbered k v) (append_numbered-none ns)

  -- The keys are all below the number.
  unfoldable pub numbers_below : Numbered N → ℕ → Bool
  numbers_below no_numbered i = true
  numbers_below (numbered k v ns) i = ltb_ℤ k (pos i) && numbers_below ns i

  pub put_numbered-last :
      (acc : Numbered N) (i : ℕ) (v : Value N)
      → numbers_below acc i ≡ true
      → (put_numbered (pos i) v acc ≡ append_numbered acc (numbered (pos i) v no_numbered))
        × (numbers_below (append_numbered acc (numbered (pos i) v no_numbered)) (i + 1) ≡ true)
  unfolding put_numbered append_numbered numbers_below
  put_numbered-last no_numbered i v h = (refl, ground arith)
  put_numbered-last (numbered j w acc) i v h =
      let (lt, more) = &&-eq-true (ltb_ℤ j (pos i)) (numbers_below acc i) h in
      let (last, below) = put_numbered-last acc i v more in
      let other : eqb_ℤ (pos i) j ≡ false = ground arith in
      let above : ltb_ℤ (pos i) j ≡ false = ground arith in
      (rw (other, above) (ap (numbered j w) last), ground arith)
