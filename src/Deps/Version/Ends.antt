-- ===== src/Deps/Version/Ends.antt =====
-- The loop of ParseVersion in deps/version.go ends within its fuel.
use go_luarocks.Prelude.{
  ℕ, zero, suc, ◌<◌, ◌≤◌, ◌≡◌, ◌≢◌, Bool, some, [], ◌∷◌, arith, inl, inr, Bytes, is_separator,
  is_digit, is_alpha, codes, same, ◌||◌, length, length-take_while-drop_while, length-drop_while-le,
  drop_while, Option-cases, err, atoi, pos, true, trim_space,
}
use go_luarocks.Types.{Version}
use go_luarocks.Deps.Float.{Float}
use go_luarocks.Deps.Version.{
  out_of_fuel, leading_token, match_digits, match_alpha, match_revision, parse_tokens, parse_body,
  parse_trimmed, parse_version, bare_version, put_number, put_word, word_delta,
}

-- A token takes a byte at least.
pub length-leading_token :
    (p : ℕ → Bool) (s t rest : Bytes) → leading_token p s ≡ some (t, rest) → length rest < length s
unfolding leading_token
length-leading_token p s t rest h =
    ground
      (arith, length-take_while-drop_while p s, length-drop_while-le is_separator (drop_while p s))

length-match_digits : (s t rest : Bytes) → match_digits s ≡ some (t, rest) → length rest < length s
unfolding match_digits
length-match_digits s t rest h = length-leading_token is_digit s t rest h

length-match_alpha : (s t rest : Bytes) → match_alpha s ≡ some (t, rest) → length rest < length s
unfolding match_alpha
length-match_alpha s t rest h = length-leading_token is_alpha s t rest h

module _ {N : Type 0} ⦃fl : Float N⦄ where
  parse_tokens-ne-out_of_fuel :
      (fuel : ℕ) (cur : Bytes) (i : ℕ) (v : Version N)
      → length cur ≤ fuel
      → parse_tokens fuel cur i v ≢ err out_of_fuel
  unfolding parse_tokens
  parse_tokens-ne-out_of_fuel fuel [] i v h e = cc
  parse_tokens-ne-out_of_fuel zero (c ∷ cur) i v h e = absurd (omega arith)
  parse_tokens-ne-out_of_fuel (suc fuel) (c ∷ cur) i v h e =
      elim (Option-cases (match_digits (c ∷ cur))) [
        | inr ((ds, rest), m) ↦
            let shorter = length-match_digits (c ∷ cur) ds rest m in
            elim (Option-cases (atoi ds)) [
              | inl range ↦ ground arith
              | inr (n, value) ↦
                  let w = record v { components = put_number v.components i n } in
                  parse_tokens-ne-out_of_fuel fuel rest (suc i) w (omega arith) (ground arith)
            ]
        | inl word ↦ elim (Option-cases (match_alpha (c ∷ cur))) [
          | inl nothing ↦ ground arith
          | inr ((tok, rest), m) ↦
              let shorter = length-match_alpha (c ∷ cur) tok rest m in
              let w = record v {
                components = put_word v.components i (word_delta tok);
                is_scm = v.is_scm || same tok (codes "scm");
                is_dev = v.is_dev || same tok (codes "dev");
              } in
              parse_tokens-ne-out_of_fuel fuel rest i w (omega arith) (ground arith)
        ]
      ]

  parse_body-ne-out_of_fuel : (body : Bytes) (v : Version N) → parse_body body v ≢ err out_of_fuel
  unfolding parse_body
  parse_body-ne-out_of_fuel body v e =
      ground (arith, parse_tokens-ne-out_of_fuel (length body) body 0 v (omega arith))

  parse_trimmed-ne-out_of_fuel : (raw s : Bytes) → parse_trimmed {N = N} raw s ≢ err out_of_fuel
  unfolding parse_trimmed
  parse_trimmed-ne-out_of_fuel raw s e = elim (Option-cases (match_revision s)) [
    | inl whole ↦ ground (arith, parse_body-ne-out_of_fuel s (bare_version raw))
    | inr ((body, ds), m) ↦ elim (Option-cases (atoi ds)) [
      | inl range ↦ ground arith
      | inr (rev, value) ↦ ground (
        arith,
        parse_body-ne-out_of_fuel body
            (record (bare_version raw) { revision = pos rev; has_revision = true }),
      )
    ]
  ]

  -- The fuel that ParseVersion hands to its loop is enough for every text: the model never gives up
  -- where the program would go on.
  pub parse_version-ne-out_of_fuel : (s : Bytes) → parse_version {N = N} s ≢ err out_of_fuel
  unfolding parse_version
  parse_version-ne-out_of_fuel s e = ground (arith, parse_trimmed-ne-out_of_fuel s (trim_space s))
