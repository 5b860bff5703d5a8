-- ===== src/Deps/Constraint/RoundTrip.antt =====
-- Constraints as text: what formatConstraints of deps/resolver.go prints, ParseConstraints of
-- deps/constraint.go reads back.
use go_luarocks.Prelude.{
  ℕ, zero, suc, ◌<◌, ◌≤◌, ◌≡◌, ◌≢◌, refl, sym, ◌∙◌, ap, true, false, some, List, [], ◌∷◌, ◌++◌,
  arith, Bytes, codes, ok, length, length-append, all, All, drop_while, length-drop_while-le, Stops,
  append_assoc, append-nil, all-append, all_mono, &&-eq-true, has_newline, trim_space, trim_left,
  trim_right_reversed, subst,
}
use go_luarocks.Types.{Version, VersionConstraint, Op}
use go_luarocks.Deps.Float.{Float}
use go_luarocks.Deps.Version.{parse_version}
use go_luarocks.Deps.Constraint.{
  operator_alias, op_text, is_op_byte, is_version_byte, is_list_gap, match_constraint_token,
  build_constraint, parse_constraint_list, parse_constraints, format_constraint, format_more,
  format_constraints,
}
use go_luarocks.Deps.Constraint.Printed.{
  IsKnown, operator_alias-op_text, op_text-bytes, scan_constraint-append, has_newline-printed,
  trim_space-printed, EndsInVersion, EndsInVersion-append, EndsInVersion-version,
  match_constraint_token-scan, drop_while-op, is_printed,
}

module _ {N : Type 0} ⦃fl : Float N⦄ where
  -- A constraint with an operator of the grammar and a version whose text parses to it.
  pub record IsPrintable (c : VersionConstraint N) : Type 0 where
    pub known : IsKnown c.op
    pub raw_bytes : all is_version_byte c.version.raw ≡ true
    pub has_raw : c.version.raw ≢ []
    pub parsed : parse_version c.version.raw ≡ ok c.version

  -- The rest of the printed text, behind the first constraint.
  format_more-Stops : (cs : List (VersionConstraint N)) → Stops is_version_byte (format_more cs)
  unfolding format_more
  format_more-Stops [] = tt
  format_more-Stops (c ∷ cs) = refl

  -- The shape of a printable constraint.
  record Shape (c : VersionConstraint N) : Type 0 where
    o : ℕ
    op : Bytes
    r : ℕ
    raw : Bytes
    op_is : op_text c.op ≡ o ∷ op
    raw_is : c.version.raw ≡ r ∷ raw
    o_byte : is_op_byte o ≡ true
    op_bytes : all is_op_byte op ≡ true
    r_byte : is_version_byte r ≡ true
    raw_tail : all is_version_byte raw ≡ true

  shape : (c : VersionConstraint N) → IsPrintable c → Shape c
  shape c p = go c.version.raw refl
    where
      go : (raw : Bytes) → c.version.raw ≡ raw → Shape c
      go [] e = absurd (p.has_raw e)
      go (r ∷ raw) e =
          let (o, op, op_is, ho, hop) = op_text-bytes p.known in
          let (hr, hraw) =
            &&-eq-true (is_version_byte r) (all is_version_byte raw)
              (sym (ap (all is_version_byte) e) ∙ p.raw_bytes) in
          record {
            o = o;
            op = op;
            r = r;
            raw = raw;
            op_is = op_is;
            raw_is = e;
            o_byte = ho;
            op_bytes = hop;
            r_byte = hr;
            raw_tail = hraw;
          }

  constraint-EndsInVersion :
      (c : VersionConstraint N) → IsPrintable c → EndsInVersion (format_constraint c)
  unfolding format_constraint
  constraint-EndsInVersion c p =
      let sh = shape c p in
      EndsInVersion-append (op_text c.op) (b' ' ∷ c.version.raw) (
        EndsInVersion-append (b' ' ∷ []) c.version.raw (
          subst EndsInVersion (sym sh.raw_is)
            (EndsInVersion-version sh.r sh.raw sh.r_byte sh.raw_tail)))

  text-EndsInVersion :
      (c : VersionConstraint N) (cs : List (VersionConstraint N))
      → IsPrintable c
      → All IsPrintable cs
      → EndsInVersion (format_constraint c ++ format_more cs)
  unfolding format_more
  text-EndsInVersion c [] p ps =
      subst EndsInVersion (sym (append-nil (format_constraint c))) (constraint-EndsInVersion c p)
  text-EndsInVersion c (d ∷ cs) p ps =
      EndsInVersion-append (format_constraint c)
        (codes ", " ++ (format_constraint d ++ format_more cs))
        (EndsInVersion-append (codes ", ") (format_constraint d ++ format_more cs)
          (text-EndsInVersion d cs ps.0 ps.1))

  constraint-printed :
      (c : VersionConstraint N) → IsPrintable c → all is_printed (format_constraint c) ≡ true
  unfolding format_constraint
  constraint-printed c p =
      let sh = shape c p in
      all-append is_printed (op_text c.op) (b' ' ∷ c.version.raw)
        (rw sh.op_is (
          all_mono {p = is_op_byte} {q = is_printed} (sh.o ∷ sh.op) (λ d h. ground arith)
            (rw (sh.o_byte, sh.op_bytes) refl)))
        (all_mono {p = is_version_byte} {q = is_printed} c.version.raw (λ d h. ground arith)
          p.raw_bytes)

  text-printed :
      (c : VersionConstraint N) (cs : List (VersionConstraint N))
      → IsPrintable c
      → All IsPrintable cs
      → all is_printed (format_constraint c ++ format_more cs) ≡ true
  unfolding format_more
  text-printed c [] p ps =
      all-append is_printed (format_constraint c) [] (constraint-printed c p) refl
  text-printed c (d ∷ cs) p ps =
      all-append is_printed (format_constraint c)
        (codes ", " ++ (format_constraint d ++ format_more cs)) (constraint-printed c p)
        (text-printed d cs ps.0 ps.1)

  -- The printed text, nothing for no constraint.
  printed : List (VersionConstraint N) → Bytes
  printed [] = []
  printed (c ∷ cs) = format_constraint c ++ format_more cs

  printed-shape :
      (c : VersionConstraint N) (cs : List (VersionConstraint N)) (sh : Shape c)
      → printed (c ∷ cs) ≡ sh.o ∷ (sh.op ++ (b' ' ∷ ((sh.r ∷ sh.raw) ++ format_more cs)))
  unfolding printed format_constraint
  printed-shape c cs sh =
      append_assoc (op_text c.op) (b' ' ∷ c.version.raw) (format_more cs)
      ∙ ap (λ w. w ++ (b' ' ∷ (c.version.raw ++ format_more cs))) sh.op_is
      ∙ ap (λ w. sh.o ∷ (sh.op ++ (b' ' ∷ (w ++ format_more cs)))) sh.raw_is

  drop_while-format_more :
      (cs : List (VersionConstraint N))
      → All IsPrintable cs
      → drop_while is_list_gap (format_more cs) ≡ printed cs
  unfolding format_more printed
  drop_while-format_more [] ps = refl
  drop_while-format_more (c ∷ cs) ps =
      let sh = shape c ps.0 in
      let text = sym (printed-shape c cs sh) in
      subst (λ w. drop_while is_list_gap w ≡ w) text (drop_while-op sh.o _ sh.o_byte)

  trim_space-printed_list :
      (cs : List (VersionConstraint N)) → All IsPrintable cs → trim_space (printed cs) ≡ printed cs
  trim_space-printed_list [] ps = unfold printed trim_space trim_left trim_right_reversed in refl
  trim_space-printed_list (c ∷ cs) ps =
      let sh = shape c ps.0 in
      let e = printed-shape c cs sh in
      subst (λ w. trim_space w ≡ w) (sym e)
        (trim_space-printed sh.o _ sh.o_byte
          (subst EndsInVersion e (unfold printed in text-EndsInVersion c cs ps.0 ps.1)))

  has_newline-printed_list :
      (cs : List (VersionConstraint N)) → All IsPrintable cs → has_newline (printed cs) ≡ false
  unfolding printed
  has_newline-printed_list [] ps = refl
  has_newline-printed_list (c ∷ cs) ps =
      has_newline-printed (printed (c ∷ cs)) (text-printed c cs ps.0 ps.1)

  build_constraint-ok :
      (op raw : Bytes) (o : Op) (v : Version N)
      → operator_alias op ≡ some o
      → parse_version raw ≡ ok v
      → build_constraint op raw ≡ ok (record { op = o; version = v })
  unfolding build_constraint
  build_constraint-ok op raw o v h k = ground arith

  build_constraint-printed :
      (c : VersionConstraint N)
      → IsPrintable c
      → build_constraint (op_text c.op) c.version.raw ≡ ok c
  build_constraint-printed c p =
      build_constraint-ok (op_text c.op) c.version.raw c.op c.version
        (operator_alias-op_text p.known) p.parsed

  parse_constraint_list-step :
      (fuel o : ℕ) (t op version tail : Bytes) (c : VersionConstraint N)
      (cs : List (VersionConstraint N))
      → match_constraint_token (o ∷ t) ≡ some (op, version, tail)
      → build_constraint op version ≡ ok c
      → parse_constraint_list fuel (trim_space tail) ≡ ok cs
      → parse_constraint_list (suc fuel) (o ∷ t) ≡ ok (c ∷ cs)
  unfolding parse_constraint_list
  parse_constraint_list-step fuel o t op version tail c cs m b r = ground arith

  match_constraint_token-printed :
      (c : VersionConstraint N) (cs : List (VersionConstraint N))
      → IsPrintable c
      → All IsPrintable cs
      → match_constraint_token (printed (c ∷ cs)) ≡ some (op_text c.op, c.version.raw, printed cs)
  match_constraint_token-printed c cs p ps =
      let sh = shape c p in
      rw (printed-shape c cs sh, sh.op_is, sh.raw_is)
        (match_constraint_token-scan _ _ _ (format_more cs) (printed cs)
          (scan_constraint-append sh.o sh.op sh.r sh.raw (format_more cs) sh.o_byte sh.op_bytes
            sh.r_byte sh.raw_tail (format_more-Stops cs))
          (drop_while-format_more cs ps) (has_newline-printed_list cs ps))

  length-printed :
      (c : VersionConstraint N) (cs : List (VersionConstraint N))
      → IsPrintable c
      → All IsPrintable cs
      → length (printed cs) < length (printed (c ∷ cs))
  length-printed c cs p ps =
      let sh = shape c p in
      let rest = (sh.r ∷ sh.raw) ++ format_more cs in
      omega (
        arith,
        ap length (printed-shape c cs sh),
        length-append {0} sh.op (b' ' ∷ rest),
        length-append {0} (sh.r ∷ sh.raw) (format_more cs),
        ap length (drop_while-format_more cs ps),
        length-drop_while-le is_list_gap (format_more cs),
      )

  parse_constraint_list-printed :
      (fuel : ℕ) (cs : List (VersionConstraint N))
      → All IsPrintable cs
      → length (printed cs) ≤ fuel
      → parse_constraint_list fuel (printed cs) ≡ ok cs
  parse_constraint_list-printed fuel [] ps l = unfold parse_constraint_list printed in refl
  parse_constraint_list-printed zero (c ∷ cs) ps l =
      absurd (omega (arith, length-printed c cs ps.0 ps.1))
  parse_constraint_list-printed (suc fuel) (c ∷ cs) ps l =
      let sh = shape c ps.0 in
      let e = printed-shape c cs sh in
      let more =
        parse_constraint_list-printed fuel cs ps.1 (omega (arith, length-printed c cs ps.0 ps.1)) in
      subst (λ w. parse_constraint_list (suc fuel) w ≡ ok (c ∷ cs)) (sym e)
        (parse_constraint_list-step fuel sh.o _ (op_text c.op) c.version.raw (printed cs) c cs
          (subst (λ w. match_constraint_token w ≡ some (op_text c.op, c.version.raw, printed cs)) e
            (match_constraint_token-printed c cs ps.0 ps.1))
          (build_constraint-printed c ps.0)
          (ap (parse_constraint_list fuel) (trim_space-printed_list cs ps.1) ∙ more))

  -- What formatConstraints prints for constraints, one at least, ParseConstraints reads back, where
  -- the operators are of the grammar and each version has a text that is made of the bytes of the token
  -- pattern and parses to it.
  pub parse_constraints-format_constraints :
      (c : VersionConstraint N) (cs : List (VersionConstraint N))
      → All IsPrintable (c ∷ cs)
      → parse_constraints (format_constraints (c ∷ cs)) ≡ ok (c ∷ cs)
  unfolding parse_constraints format_constraints printed
  parse_constraints-format_constraints c cs ps =
      ap (parse_constraint_list (length (printed (c ∷ cs)))) (trim_space-printed_list (c ∷ cs) ps)
      ∙ parse_constraint_list-printed (length (printed (c ∷ cs))) (c ∷ cs) ps (omega arith)
