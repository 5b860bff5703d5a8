-- ===== src/Deps/Constraint.antt =====
-- deps/constraint.go: ParseConstraint, ParseConstraints and Match; formatConstraints of resolver.go.
pub mod Interval
pub mod Printed
pub mod RoundTrip
pub mod Ends
use go_luarocks.Prelude.{
  ℕ, zero, suc, Bool, true, false, ◌&&◌, ◌||◌, not, Option, none, some, List, [], ◌∷◌, ◌++◌, eqb_ℤ,
  Bytes, codes, same, is_digit, is_alpha, is_separator, is_pattern_space, has_newline, trim_space,
  Result, ok, err, Ordering, if◌then◌else◌, length, all, take_while, drop_while, ◌==◌,
}
use go_luarocks.Types.{
  Version, VersionConstraint, Op, equal, not_equal, greater, less, greater_equal, less_equal,
  compatible, unknown,
}
use go_luarocks.Deps.Float.{Float, zero_float}
use go_luarocks.Deps.Version
use go_luarocks.Deps.Version.{VersionError, parse_version, compare}

pub data ConstraintError : Type 0 where
  cannot_parse unknown_operator : ConstraintError
  bad_version : VersionError → ConstraintError
  -- no counterpart in the program: the model's own bound on the loop was met
  out_of_fuel : ConstraintError

-- operatorAliases
unfoldable pub operator_alias : Bytes → Option Op
unfolding same
operator_alias s =
    if same s (codes "==")
    then some equal
    else if same s (codes "~=")
    then some not_equal
    else if same s (codes ">")
    then some greater
    else if same s (codes "<")
    then some less
    else if same s (codes ">=")
    then some greater_equal
    else if same s (codes "<=")
    then some less_equal
    else if same s (codes "~>")
    then some compatible
    else if same s (codes "")
    then some equal
    else if same s (codes "=")
    then some equal
    else if same s (codes "!=")
    then some not_equal
    else none

-- [<>=~!]
abbrev pub is_op_byte : ℕ → Bool
is_op_byte c = (c == b'<') || ((c == b'>') || ((c == b'=') || ((c == b'~') || (c == b'!'))))

-- [0-9A-Za-z._-]
abbrev pub is_version_byte : ℕ → Bool
is_version_byte c = is_digit c || (is_alpha c || is_separator c)

-- [\s,]
abbrev pub is_list_gap : ℕ → Bool
is_list_gap c = is_pattern_space c || (c == b',')

-- (@?)
unfoldable pub drop_at : Bytes → Bytes
drop_at [] = []
drop_at (c ∷ s) = if c == b'@' then s else c ∷ s

-- What constraintRe and constraintTokenRe begin with, ^\s*(@?)([<>=~!]*)\s*([0-9A-Za-z._-]+) : groups
-- 2 and 3, and what is left of the text. The classes that follow one another are disjoint, so the
-- greedy match is the only one.
unfoldable pub scan_constraint : Bytes → Option (Bytes × Bytes × Bytes)
unfolding drop_at
scan_constraint s =
    let at_op = drop_at (drop_while is_pattern_space s) in
    let at_version = drop_while is_pattern_space (drop_while is_op_byte at_op) in
    let version = take_while is_version_byte at_version in
    if length version == 0
    then none
    else some (take_while is_op_byte at_op, version, drop_while is_version_byte at_version)

-- constraintRe
unfoldable pub match_constraint : Bytes → Option (Bytes × Bytes)
match_constraint s = elim (scan_constraint s) [
  | none ↦ none
  | some (op, version, rest) ↦ if all is_pattern_space rest then some (op, version) else none
]

-- constraintTokenRe
unfoldable pub match_constraint_token : Bytes → Option (Bytes × Bytes × Bytes)
match_constraint_token s = elim (scan_constraint s) [
  | none ↦ none
  | some (op, version, rest) ↦
      let tail = drop_while is_list_gap rest in
      if has_newline tail then none else some (op, version, tail)
]

module _ {N : Type 0} ⦃fl : Float N⦄ where
  -- The lookup of the operator and the parse of the version, with which both parsers go on.
  unfoldable pub build_constraint : Bytes → Bytes → Result ConstraintError (VersionConstraint N)
  build_constraint op version = elim (operator_alias op) [
    | none ↦ err unknown_operator
    | some o ↦ elim (parse_version version) [
      | err e ↦ err (bad_version e)
      | ok v ↦ ok (record { op = o; version = v })
    ]
  ]

  unfoldable pub parse_constraint : Bytes → Result ConstraintError (VersionConstraint N)
  parse_constraint s = elim (match_constraint s) [
    | none ↦ err cannot_parse
    | some (op, version) ↦ build_constraint op version
  ]

  -- The loop over `rest`. Each round takes a byte at least, so the length of the text is fuel enough.
  unfoldable pub parse_constraint_list :
      ℕ → Bytes → Result ConstraintError (List (VersionConstraint N))
  parse_constraint_list fuel [] = ok []
  parse_constraint_list zero (c ∷ rest) = err out_of_fuel
  parse_constraint_list (suc fuel) (c ∷ rest) = elim (match_constraint_token (c ∷ rest)) [
    | none ↦ err cannot_parse
    | some (op, version, tail) ↦ elim (build_constraint op version) [
      | err e ↦ err e
      | ok vc ↦ elim (parse_constraint_list fuel (trim_space tail)) [
        | err e ↦ err e
        | ok vcs ↦ ok (vc ∷ vcs)
      ]
    ]
  ]

  unfoldable pub parse_constraints : Bytes → Result ConstraintError (List (VersionConstraint N))
  unfolding parse_constraint_list
  parse_constraints s = parse_constraint_list (length s) (trim_space s)

  -- The loop of partialMatch over the requested components.
  unfoldable pub prefix_match : List N → List N → Bool
  prefix_match vs [] = true
  prefix_match [] (r ∷ rs) = fl.beq r zero_float && prefix_match [] rs
  prefix_match (v ∷ vs) (r ∷ rs) = fl.beq r v && prefix_match vs rs

  unfoldable pub partial_match : Version N → Version N → Bool
  unfolding prefix_match
  partial_match version requested =
      prefix_match version.components requested.components
      && (if requested.has_revision then eqb_ℤ version.revision requested.revision else true)

  -- cmp > 0 and the like: Go's -1, 0 and 1 are `lt`, `eq` and `gt`.
  unfoldable pub match_op : Op → Version N → Version N → Bool
  unfolding partial_match
  match_op equal v cv = Version.equal v cv
  match_op not_equal v cv = not (Version.equal v cv)
  match_op greater v cv = elim (compare v cv) [ Ordering.gt ↦ true | _ ↦ false ]
  match_op less v cv = elim (compare v cv) [ Ordering.lt ↦ true | _ ↦ false ]
  match_op greater_equal v cv = elim (compare v cv) [ Ordering.lt ↦ false | _ ↦ true ]
  match_op less_equal v cv = elim (compare v cv) [ Ordering.gt ↦ false | _ ↦ true ]
  match_op compatible v cv = partial_match v cv
  match_op (unknown s) v cv = false

  unfoldable pub match_one : Version N → VersionConstraint N → Bool
  unfolding match_op
  match_one v c = match_op c.op v c.version

  -- Match
  unfoldable pub match_all : Version N → List (VersionConstraint N) → Bool
  unfolding match_one
  match_all v [] = true
  match_all v (c ∷ cs) = match_one v c && match_all v cs

-- VersionConstraint.Op as text.
unfoldable pub op_text : Op → Bytes
op_text equal = codes "=="
op_text not_equal = codes "~="
op_text greater = codes ">"
op_text less = codes "<"
op_text greater_equal = codes ">="
op_text less_equal = codes "<="
op_text compatible = codes "~>"
op_text (unknown s) = s

module _ {N : Type 0} where
  unfoldable pub format_constraint : VersionConstraint N → Bytes
  unfolding op_text
  format_constraint c = op_text c.op ++ (b' ' ∷ c.version.raw)

  unfoldable pub format_more : List (VersionConstraint N) → Bytes
  unfolding format_constraint
  format_more [] = []
  format_more (c ∷ cs) = codes ", " ++ (format_constraint c ++ format_more cs)

  -- formatConstraints
  unfoldable pub format_constraints : List (VersionConstraint N) → Bytes
  unfolding format_more
  format_constraints [] = codes "(any)"
  format_constraints (c ∷ cs) = format_constraint c ++ format_more cs
