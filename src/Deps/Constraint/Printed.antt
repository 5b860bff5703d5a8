-- ===== src/Deps/Constraint/Printed.antt =====
-- The text of constraints: how the scans of deps/constraint.go read what formatConstraints of
-- deps/resolver.go prints.
use mathlib.Core.List.{reverse-append, reverse-reverse}
use go_luarocks.Prelude.{
  ℕ, ◌≡◌, refl, sym, ◌∙◌, ap, Bool, true, false, ◌||◌, some, [], ◌∷◌, ◌++◌, arith, Bytes, same, all,
  take_while, drop_while, take_while-append, drop_while-append, Stops, &&-eq-true, is_pattern_space,
  has_newline, ◌==◌, trim_space, trim_left, trim_right_reversed, reverse, is_ascii_space,
  is_space_2, is_space_3,
}
use go_luarocks.Types.{Op, equal, not_equal, greater, less, greater_equal, less_equal, compatible}
use go_luarocks.Deps.Constraint.{
  operator_alias, op_text, is_op_byte, is_version_byte, is_list_gap, drop_at, scan_constraint,
  match_constraint_token,
}

pub data IsKnown : Op → Type 0 where
  is_equal : IsKnown equal
  is_not_equal : IsKnown not_equal
  is_greater : IsKnown greater
  is_less : IsKnown less
  is_greater_equal : IsKnown greater_equal
  is_less_equal : IsKnown less_equal
  is_compatible : IsKnown compatible

pub operator_alias-op_text : {o : Op} → IsKnown o → operator_alias (op_text o) ≡ some o
unfolding operator_alias op_text same
operator_alias-op_text is_equal = refl
operator_alias-op_text is_not_equal = refl
operator_alias-op_text is_greater = refl
operator_alias-op_text is_less = refl
operator_alias-op_text is_greater_equal = refl
operator_alias-op_text is_less_equal = refl
operator_alias-op_text is_compatible = refl

-- The text of an operator: bytes of operators, one at least.
pub op_text-bytes :
    {o : Op}
    → IsKnown o
    → (c : ℕ) × (s : Bytes) × (op_text o ≡ c ∷ s)
      × (is_op_byte c ≡ true)
      × (all is_op_byte s ≡ true)
unfolding op_text
op_text-bytes is_equal = (_, _, refl, refl, refl)
op_text-bytes is_not_equal = (_, _, refl, refl, refl)
op_text-bytes is_greater = (_, _, refl, refl, refl)
op_text-bytes is_less = (_, _, refl, refl, refl)
op_text-bytes is_greater_equal = (_, _, refl, refl, refl)
op_text-bytes is_less_equal = (_, _, refl, refl, refl)
op_text-bytes is_compatible = (_, _, refl, refl, refl)

pub scan_constraint-append :
    (o : ℕ) (op : Bytes) (r : ℕ) (raw rest : Bytes)
    → is_op_byte o ≡ true
    → all is_op_byte op ≡ true
    → is_version_byte r ≡ true
    → all is_version_byte raw ≡ true
    → Stops is_version_byte rest
    → scan_constraint ((o ∷ op) ++ (b' ' ∷ ((r ∷ raw) ++ rest))) ≡ some (o ∷ op, r ∷ raw, rest)
unfolding scan_constraint drop_at
scan_constraint-append o op r raw rest ho hop hr hraw stop =
    rw (space_o, at_o, take_op, drop_op, space_r, take_r, drop_r) (ground arith)
  where
    space_o : is_pattern_space o ≡ false
    space_o = ground arith

    at_o : (o == b'@') ≡ false
    at_o = ground arith

    space_r : is_pattern_space r ≡ false
    space_r = ground arith

    take_op : take_while is_op_byte (o ∷ (op ++ (b' ' ∷ ((r ∷ raw) ++ rest)))) ≡ o ∷ op
    take_op =
        take_while-append is_op_byte (o ∷ op) (b' ' ∷ ((r ∷ raw) ++ rest)) (rw (ho, hop) refl) refl

    drop_op :
        drop_while is_op_byte (o ∷ (op ++ (b' ' ∷ ((r ∷ raw) ++ rest))))
        ≡ b' ' ∷ ((r ∷ raw) ++ rest)
    drop_op =
        drop_while-append is_op_byte (o ∷ op) (b' ' ∷ ((r ∷ raw) ++ rest)) (rw (ho, hop) refl) refl

    take_r : take_while is_version_byte (r ∷ (raw ++ rest)) ≡ r ∷ raw
    take_r = take_while-append is_version_byte (r ∷ raw) rest (rw (hr, hraw) refl) stop

    drop_r : drop_while is_version_byte (r ∷ (raw ++ rest)) ≡ rest
    drop_r = drop_while-append is_version_byte (r ∷ raw) rest (rw (hr, hraw) refl) stop

-- What printed constraints are made of.
abbrev pub is_printed : ℕ → Bool
is_printed c = is_op_byte c || (is_version_byte c || ((c == b' ') || (c == b',')))

pub has_newline-printed : (s : Bytes) → all is_printed s ≡ true → has_newline s ≡ false
has_newline-printed [] h = refl
has_newline-printed (c ∷ s) h = ground (arith, has_newline-printed s)

-- The space characters are neither bytes of operators nor of versions.
trim_left-op : (c : ℕ) (s : Bytes) → is_op_byte c ≡ true → trim_left (c ∷ s) ≡ c ∷ s
unfolding trim_left
trim_left-op c [] h = ground arith
trim_left-op c (a ∷ []) h = ground arith
trim_left-op c (a ∷ b ∷ s) h = ground arith

version-no_space : (c : ℕ) → is_version_byte c ≡ true → is_ascii_space c ≡ false
version-no_space c h = ground arith

version-no_space_2 : (b c : ℕ) → is_version_byte c ≡ true → is_space_2 b c ≡ false
version-no_space_2 b c h = ground arith

version-no_space_3 : (a b c : ℕ) → is_version_byte c ≡ true → is_space_3 a b c ≡ false
version-no_space_3 a b c h = ground arith

trim_right-version :
    (c : ℕ) (s : Bytes) → is_version_byte c ≡ true → trim_right_reversed (c ∷ s) ≡ c ∷ s
unfolding trim_right_reversed
trim_right-version c [] h = rw (version-no_space c h) refl
trim_right-version c (b ∷ []) h = rw (version-no_space c h, version-no_space_2 b c h) refl
trim_right-version c (b ∷ a ∷ s) h =
    rw (version-no_space c h, version-no_space_2 b c h, version-no_space_3 a b c h) refl

pub record EndsInVersion (s : Bytes) : Type 0 where
  pub last : ℕ
  pub before : Bytes
  pub backwards : reverse s ≡ last ∷ before
  pub version_byte : is_version_byte last ≡ true

pub EndsInVersion-append : (s t : Bytes) → EndsInVersion t → EndsInVersion (s ++ t)
EndsInVersion-append s t e = record {
  last = e.last;
  before = e.before ++ reverse s;
  backwards = reverse-append s t ∙ ap (λ r. r ++ reverse s) e.backwards;
  version_byte = e.version_byte;
}

pub EndsInVersion-version :
    (c : ℕ) (s : Bytes)
    → is_version_byte c ≡ true
    → all is_version_byte s ≡ true
    → EndsInVersion (c ∷ s)
EndsInVersion-version c [] h k = record {
  last = c;
  before = [];
  backwards = refl;
  version_byte = h;
}
EndsInVersion-version c (d ∷ s) h k =
    let (hd, hs) = &&-eq-true (is_version_byte d) (all is_version_byte s) k in
    EndsInVersion-append (c ∷ []) (d ∷ s) (EndsInVersion-version d s hd hs)

pub trim_space-printed :
    (c : ℕ) (s : Bytes) → is_op_byte c ≡ true → EndsInVersion (c ∷ s) → trim_space (c ∷ s) ≡ c ∷ s
unfolding trim_space
trim_space-printed c s h e =
    ap (λ t. reverse (trim_right_reversed (reverse t))) (trim_left-op c s h)
    ∙ ap (λ t. reverse (trim_right_reversed t)) e.backwards
    ∙ ap reverse (trim_right-version e.last e.before e.version_byte)
    ∙ ap reverse (sym e.backwards)
    ∙ reverse-reverse (c ∷ s)

pub match_constraint_token-scan :
    (s op version rest tail : Bytes)
    → scan_constraint s ≡ some (op, version, rest)
    → drop_while is_list_gap rest ≡ tail
    → has_newline tail ≡ false
    → match_constraint_token s ≡ some (op, version, tail)
unfolding match_constraint_token
match_constraint_token-scan s op version rest tail h k n = ground arith

pub drop_while-op :
    (c : ℕ) (s : Bytes) → is_op_byte c ≡ true → drop_while is_list_gap (c ∷ s) ≡ c ∷ s
drop_while-op c s h = ground arith
