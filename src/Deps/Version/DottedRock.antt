-- ===== src/Deps/Version/DottedRock.antt =====
-- What ParseVersion of deps/version.go makes of "a.b.c-r", a dotted version with its revision.
use mathlib.Core.List.{reverse-append, reverse-reverse}
use go_luarocks.Prelude.{
  ℕ, ◌<◌, ◌≤◌, ◌≡◌, refl, ap₂, ◌∙◌, ap, sym, subst, true, false, some, List, [], ◌∷◌, ◌++◌, arith,
  Bytes, pos, is_digit, has_newline, length, length-append, take_while, drop_while,
  take_while-append, drop_while-append, All, all, ok, max_int, decimal, all-decimal, atoi-decimal,
  length-decimal_pos, ◌==◌, append_assoc, reverse, trim_space, trim_left, trim_right_reversed,
  trim_left-digits, trim_right-digits, all-reverse, length-reverse, reverse-cons,
}
use go_luarocks.Types.{Version}
use go_luarocks.Deps.Float.{Float}
use go_luarocks.Deps.Version.{
  match_revision, revision_groups, parse_body, parse_trimmed, parse_version, bare_version,
  with_placeholder,
}
use go_luarocks.Deps.Version.Dotted.{
  dotted, all-dotted, no_newline, numbers, with_components, parse_tokens-dotted, is_dotted,
}

-- "a.b.c-r"
pub dotted_rock : List ℕ → ℕ → Bytes
dotted_rock ns r = dotted ns ++ (b'-' ∷ decimal r)

dotted_rock-head :
    (n : ℕ) (ns : List ℕ) (r : ℕ) → (t : Bytes) × (dotted_rock (n ∷ ns) r ≡ decimal n ++ t)
unfolding dotted_rock dotted
dotted_rock-head n [] r = (b'-' ∷ decimal r, refl)
dotted_rock-head n (m ∷ ns) r =
    (_, append_assoc (decimal n) (b'.' ∷ dotted (m ∷ ns)) (b'-' ∷ decimal r))

module _ (n : ℕ) (ns : List ℕ) (r : ℕ) where
  reverse-dotted_rock :
      reverse (dotted_rock (n ∷ ns) r) ≡ reverse (decimal r) ++ (b'-' ∷ reverse (dotted (n ∷ ns)))
  unfolding dotted_rock
  reverse-dotted_rock =
      reverse-append (dotted (n ∷ ns)) (b'-' ∷ decimal r)
      ∙ ap (λ s. s ++ reverse (dotted (n ∷ ns))) (reverse-cons b'-' (decimal r))
      ∙ append_assoc (reverse (decimal r)) (b'-' ∷ []) (reverse (dotted (n ∷ ns)))

  trim_space-dotted_rock : trim_space (dotted_rock (n ∷ ns) r) ≡ dotted_rock (n ∷ ns) r
  unfolding trim_space
  trim_space-dotted_rock =
      ap (λ s. reverse (trim_right_reversed (reverse s))) left
      ∙ ap (λ s. reverse (trim_right_reversed s)) reverse-dotted_rock
      ∙ ap reverse (
          trim_right-digits (reverse (decimal r)) (b'-' ∷ reverse (dotted (n ∷ ns)))
            (all-reverse is_digit (decimal r) (all-decimal r))
            (omega (arith, length-reverse (decimal r), length-decimal_pos r)))
      ∙ ap reverse (sym reverse-dotted_rock)
      ∙ reverse-reverse (dotted_rock (n ∷ ns) r)
    where
      left : trim_left (dotted_rock (n ∷ ns) r) ≡ dotted_rock (n ∷ ns) r
      left =
          subst (λ s. trim_left s ≡ s) (sym (dotted_rock-head n ns r).1)
            (trim_left-digits (decimal n) (dotted_rock-head n ns r).0 (all-decimal n)
              (length-decimal_pos n))

  match_revision-dotted_rock :
      match_revision (dotted_rock (n ∷ ns) r) ≡ some (dotted (n ∷ ns), decimal r)
  unfolding match_revision
  match_revision-dotted_rock =
      ap (λ s. revision_groups (take_while is_digit s) (drop_while is_digit s)) reverse-dotted_rock
      ∙ ap₂ revision_groups
          (take_while-append is_digit (reverse (decimal r)) (b'-' ∷ reverse (dotted (n ∷ ns)))
            digits refl)
          (drop_while-append is_digit (reverse (decimal r)) (b'-' ∷ reverse (dotted (n ∷ ns)))
            digits refl)
      ∙ groups
    where
      digits : all is_digit (reverse (decimal r)) ≡ true
      digits = all-reverse is_digit (decimal r) (all-decimal r)

      clean : has_newline (reverse (dotted (n ∷ ns))) ≡ false
      clean =
          no_newline (reverse (dotted (n ∷ ns)))
            (all-reverse is_dotted (dotted (n ∷ ns)) (all-dotted (n ∷ ns)))

      groups :
          revision_groups (reverse (decimal r)) (b'-' ∷ reverse (dotted (n ∷ ns)))
          ≡ some (dotted (n ∷ ns), decimal r)
      groups = ground (
        arith,
        clean,
        length-reverse (decimal r),
        length-decimal_pos r,
        reverse-reverse (decimal r),
        reverse-reverse (dotted (n ∷ ns)),
      )

length-dotted : (n : ℕ) (ns : List ℕ) → length ns < length (dotted (n ∷ ns))
unfolding dotted
length-dotted n [] = length-decimal_pos n
length-dotted n (m ∷ ns) = omega (
  arith,
  length-append {0} (decimal n) (b'.' ∷ dotted (m ∷ ns)),
  length-decimal_pos n,
  length-dotted m ns,
)

length-dotted_rock : (n : ℕ) (ns : List ℕ) (r : ℕ) → (length (dotted_rock (n ∷ ns) r) == 0) ≡ false
unfolding dotted_rock
length-dotted_rock n ns r = ground (arith, length-append (dotted (n ∷ ns)) (b'-' ∷ decimal r))

module _ {N : Type 0} ⦃fl : Float N⦄ where
  parse_body-dotted :
      (n : ℕ) (ns : List ℕ) (v : Version N)
      → All (λ k. k ≤ max_int) (n ∷ ns)
      → v.components ≡ []
      → parse_body (dotted (n ∷ ns)) v ≡ ok (with_components v (numbers (n ∷ ns)))
  unfolding parse_body with_placeholder with_components
  parse_body-dotted n ns v b e =
      let read = parse_tokens-dotted (length (dotted (n ∷ ns))) n ns v b (length-dotted n ns) in
      ground (arith, read)

  -- ParseVersion on "a.b.c-r", for any count of numbers, gives the numbers as components and r as the
  -- revision, where all of them are in the range of int.
  pub parse_version-dotted_rock :
      (n : ℕ) (ns : List ℕ) (r : ℕ)
      → All (λ k. k ≤ max_int) (n ∷ ns)
      → r ≤ max_int
      → parse_version {N = N} (dotted_rock (n ∷ ns) r)
        ≡ ok (record {
          raw = dotted_rock (n ∷ ns) r;
          components = numbers (n ∷ ns);
          revision = pos r;
          has_revision = true;
          is_scm = false;
          is_dev = false;
        })
  unfolding parse_version parse_trimmed bare_version with_components
  parse_version-dotted_rock n ns r b k =
      rw (trim_space-dotted_rock n ns r, length-dotted_rock n ns r)
        (rw (match_revision-dotted_rock n ns r, parse_trimmed)
          (rw (atoi-decimal r k, parse_trimmed)
            (parse_body-dotted n ns
              (record (bare_version (dotted_rock (n ∷ ns) r)) {
                revision = pos r;
                has_revision = true;
              })
              b refl)))
