-- ===== src/Manif/Value.antt =====
-- The native values of manif/parser.go and manif/writer.go: what `Parse` returns and `Write` takes.
use go_luarocks.Prelude.{
  Bool, true, false, Option, [], ◌∷◌, ℤ, Bytes, same, ltb, ltb_ℤ, eqb_ℤ, ◌==◌, if◌then◌else◌,
}

-- A Go map has no order, and stands here as the list of its entries by ascending key, the order in
-- which the writer visits them. `array` is []any, `object` map[string]any, and `mixed` *table.
mutual
  pub data Value (N : Type 0) : Type 0 where
    nil : Value N
    bool : Bool → Value N
    int : ℤ → Value N
    float : N → Value N
    str : Bytes → Value N
    array : Items N → Value N
    object : Fields N → Value N
    mixed : Numbered N → Fields N → Value N

  pub data Items (N : Type 0) : Type 0 where
    no_items : Items N
    item : Value N → Items N → Items N

  pub data Fields (N : Type 0) : Type 0 where
    no_fields : Fields N
    field : Bytes → Value N → Fields N → Fields N

  pub data Numbered (N : Type 0) : Type 0 where
    no_numbered : Numbered N
    numbered : ℤ → Value N → Numbered N → Numbered N

-- Go's `<` on strings.
unfoldable pub text_lt : Bytes → Bytes → Bool
text_lt [] [] = false
text_lt [] (b ∷ t) = true
text_lt (a ∷ s) [] = false
text_lt (a ∷ s) (b ∷ t) = let rest = text_lt s t in if a == b then rest else ltb a b

-- m[k] = v, and t.num[k] = v with its place in t.numKeys.
unfoldable pub put_field : {N : Type 0} → Bytes → Value N → Fields N → Fields N
unfolding text_lt
put_field k v no_fields = field k v no_fields
put_field k v (field j w fs) =
    let rest = put_field k v fs in
    if same k j
    then field j v fs
    else if text_lt k j
    then field k v (field j w fs)
    else field j w rest

unfoldable pub put_numbered : {N : Type 0} → ℤ → Value N → Numbered N → Numbered N
put_numbered k v no_numbered = numbered k v no_numbered
put_numbered k v (numbered j w ns) =
    let rest = put_numbered k v ns in
    if eqb_ℤ k j
    then numbered j v ns
    else if ltb_ℤ k j
    then numbered k v (numbered j w ns)
    else numbered j w rest

-- What strconv and math do with a float64, as the code uses them.
pub record FloatText (N : Type 0) : Type 0 where
  -- strconv.ParseFloat(s, 64); `none` is an error
  pub parse_float : Bytes → Option N
  -- strconv.FormatFloat(f, 'g', 14, 64) and strconv.FormatFloat(f, 'g', -1, 64)
  pub format_g14 : N → Bytes
  pub format_shortest : N → Bytes
  -- math.IsNaN(f), math.IsInf(f, 1) and math.IsInf(f, -1)
  pub is_nan : N → Bool
  pub is_pos_inf : N → Bool
  pub is_neg_inf : N → Bool
  -- int64(f) where f == math.Trunc(f) and math.Abs(f) < 1e16
  pub small_integer : N → Option ℤ
