-- ===== src/Deps/Constraint/Ends.antt =====
-- The loop of ParseConstraints in deps/constraint.go ends within its fuel.
use go_luarocks.Prelude.{
  ℕ, zero, suc, ◌<◌, ◌≤◌, ◌≡◌, ◌≢◌, some, [], ◌∷◌, arith, inl, inr, Bytes, length,
  length-take_while-drop_while, length-drop_while-le, drop_while, Option-cases, err, trim_space,
  length-trim_space, is_pattern_space,
}
use go_luarocks.Deps.Float.{Float}
use go_luarocks.Deps.Constraint.{
  out_of_fuel, drop_at, scan_constraint, is_op_byte, is_version_byte, is_list_gap,
  match_constraint_token, build_constraint, parse_constraint_list, parse_constraints,
}

length-drop_at : (s : Bytes) → length (drop_at s) ≤ length s
unfolding drop_at
length-drop_at [] = omega arith
length-drop_at (c ∷ s) = ground arith

-- A constraint takes a byte at least.
length-scan_constraint :
    (s op v rest : Bytes) → scan_constraint s ≡ some (op, v, rest) → length rest < length s
unfolding scan_constraint
length-scan_constraint s op v rest h =
    let s1 = drop_while is_pattern_space s in
    let s2 = drop_at s1 in
    let s3 = drop_while is_op_byte s2 in
    let s4 = drop_while is_pattern_space s3 in
    ground (
      arith,
      length-drop_while-le is_pattern_space s,
      length-drop_at s1,
      length-drop_while-le is_op_byte s2,
      length-drop_while-le is_pattern_space s3,
      length-take_while-drop_while is_version_byte s4,
    )

length-match_constraint_token :
    (s op v tail : Bytes) → match_constraint_token s ≡ some (op, v, tail) → length tail < length s
unfolding match_constraint_token
length-match_constraint_token s op v tail h = elim (Option-cases (scan_constraint s)) [
  | inl none_found ↦ ground arith
  | inr ((o, w, rest), m) ↦
      ground (arith, length-scan_constraint s o w rest m, length-drop_while-le is_list_gap rest)
]

module _ {N : Type 0} ⦃fl : Float N⦄ where
  build_constraint-ne-out_of_fuel : (op v : Bytes) → build_constraint {N = N} op v ≢ err out_of_fuel
  unfolding build_constraint
  build_constraint-ne-out_of_fuel op v e = ground arith

  parse_constraint_list-ne-out_of_fuel :
      (fuel : ℕ) (s : Bytes)
      → length s ≤ fuel
      → parse_constraint_list {N = N} fuel s ≢ err out_of_fuel
  unfolding parse_constraint_list
  parse_constraint_list-ne-out_of_fuel fuel [] h e = cc
  parse_constraint_list-ne-out_of_fuel zero (c ∷ s) h e = absurd (omega arith)
  parse_constraint_list-ne-out_of_fuel (suc fuel) (c ∷ s) h e =
      elim (Option-cases (match_constraint_token (c ∷ s))) [
        | inl none_found ↦ ground arith
        | inr ((op, v, tail), m) ↦
            let shorter = length-match_constraint_token (c ∷ s) op v tail m in
            ground (
              arith,
              build_constraint-ne-out_of_fuel op v,
              parse_constraint_list-ne-out_of_fuel fuel (trim_space tail)
                  (omega (arith, length-trim_space tail)),
            )
      ]

  -- The loop of ParseConstraints ends on every text within as many rounds as the text has bytes.
  pub parse_constraints-ne-out_of_fuel : (s : Bytes) → parse_constraints {N = N} s ≢ err out_of_fuel
  unfolding parse_constraints
  parse_constraints-ne-out_of_fuel s =
      parse_constraint_list-ne-out_of_fuel (length s) (trim_space s) (length-trim_space s)
