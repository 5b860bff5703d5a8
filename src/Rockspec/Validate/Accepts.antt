-- ===== src/Rockspec/Validate/Accepts.antt =====
-- The rockspecs that `Validate` of rockspec/validate.go accepts.
use go_luarocks.Prelude.{
  Result-cases, sym, ap, ◌∙◌, ℕ, ◌≡◌, ◌≢◌, ◌↔◌, refl, Bool, true, false, none, some, [], ◌∷◌, ◌++◌,
  arith, Bytes, codes, is_digit, ok, all, take_while, drop_while, ==_iff, inl, inr,
  take_while-append, drop_while-append,
}
use go_luarocks.Types.{Rockspec}
use go_luarocks.Deps.Float.{Float}
use go_luarocks.Rockspec.Validate.{
  is_revision, is_allowed_build_type, supported_rockspec_format, is_body_byte, matches_version,
  format_at_least, format_exceeds, validate_presence, validate_fields, validate_build, validate,
}

-- A version: a body of letters, digits and dots, a dash, and a revision of digits.
pub record IsRockVersion (s : Bytes) : Type 0 where
  pub body : Bytes
  pub revision : Bytes
  pub parts : s ≡ body ++ (b'-' ∷ revision)
  pub body_bytes : all is_body_byte body ≡ true
  pub revision_digits : all is_digit revision ≡ true
  pub has_body : body ≢ []
  pub has_digits : revision ≢ []

matches_version-append :
    (body revision : Bytes)
    → all is_body_byte body ≡ true
    → all is_digit revision ≡ true
    → body ≢ []
    → revision ≢ []
    → matches_version (body ++ (b'-' ∷ revision)) ≡ true
unfolding matches_version
matches_version-append [] rev h k n m = absurd (n refl)
matches_version-append (b ∷ body) [] h k n m = absurd (m refl)
matches_version-append (b ∷ body) (r ∷ rev) h k n m =
    rw
      (
        take_while-append is_body_byte (b ∷ body) (b'-' ∷ r ∷ rev) h refl,
        drop_while-append is_body_byte (b ∷ body) (b'-' ∷ r ∷ rev) h refl,
      )
      (ground arith)

take_while-append-drop_while : (p : ℕ → Bool) (s : Bytes) → take_while p s ++ drop_while p s ≡ s
take_while-append-drop_while p [] = refl
take_while-append-drop_while p (c ∷ s) = ground (arith, take_while-append-drop_while p s)

all-take_while : (p : ℕ → Bool) (s : Bytes) → all p (take_while p s) ≡ true
all-take_while p [] = refl
all-take_while p (c ∷ s) = ground (arith, all-take_while p s)

is_revision-split :
    (s : Bytes)
    → is_revision s ≡ true
    → (r : Bytes) × (s ≡ b'-' ∷ r) × (all is_digit r ≡ true) × (r ≢ [])
is_revision-split [] h = ground arith
is_revision-split (c ∷ []) h = ground arith
is_revision-split (c ∷ d ∷ r) h =
    (d ∷ r, ap (λ e. e ∷ d ∷ r) ((==_iff c b'-').0 (ground arith)), ground arith, ground arith)

-- versionRe matches a text exactly where it is a nonempty body of letters, digits and dots, a
-- dash, and a nonempty revision of digits.
pub matches_version_iff : (s : Bytes) → (matches_version s ≡ true) ↔ IsRockVersion s
unfolding matches_version
matches_version_iff s = (
  λ h.
      let (r, at, digits, some_digits) =
        is_revision-split (drop_while is_body_byte s) (ground arith) in
      record {
        body = take_while is_body_byte s;
        revision = r;
        parts =
            sym (take_while-append-drop_while is_body_byte s)
            ∙ ap (λ t. take_while is_body_byte s ++ t) at;
        body_bytes = all-take_while is_body_byte s;
        revision_digits = digits;
        has_body = ground arith;
        has_digits = some_digits;
      },
  λ v. rw v.parts (
      matches_version-append v.body v.revision v.body_bytes v.revision_digits v.has_body
        v.has_digits),
)

-- What Validate asks for.
pub record IsAccepted {N : Type 0} (fl : Float N) (spec : Rockspec N) : Type 0 where
  pub package_named : spec.package_name ≢ []
  pub version_matches : matches_version spec.version ≡ true
  pub source_given : spec.source.url ≢ []
  pub format_known :
      spec.rockspec_format ≢ []
      → format_exceeds fl spec.rockspec_format supported_rockspec_format ≡ false
  pub fields_allowed :
      format_at_least fl spec.rockspec_format (codes "3.0") ≡ false
      → (spec.build_dependencies ≡ [])
        × (spec.test_dependencies ≡ [])
        × (spec.description.labels ≡ [])
        × (spec.description.issues_url ≡ [])
        × (spec.build.type ≢ [])
  pub deploy_allowed :
      format_at_least fl spec.rockspec_format (codes "1.1") ≡ false
      → spec.deploy.wrap_bin_scripts ≡ none
  pub build_type_known : is_allowed_build_type spec.build.type ≡ true

matches_version-nil : matches_version [] ≡ false
unfolding matches_version
matches_version-nil = refl

module _ {N : Type 0} (fl : Float N) (spec : Rockspec N) where
  presence-ok :
      validate_presence fl spec ≡ ok tt
      → (spec.package_name ≢ [])
        × (matches_version spec.version ≡ true)
        × (spec.source.url ≢ [])
        × (spec.rockspec_format ≢ []
            → format_exceeds fl spec.rockspec_format supported_rockspec_format ≡ false)
  unfolding validate_presence
  presence-ok h = (ground arith, ground arith, ground arith, λ n. ground arith)

  fields-ok :
      validate_fields fl spec ≡ ok tt
      → (format_at_least fl spec.rockspec_format (codes "3.0") ≡ false
          → (spec.build_dependencies ≡ [])
            × (spec.test_dependencies ≡ [])
            × (spec.description.labels ≡ [])
            × (spec.description.issues_url ≡ []))
        × (format_at_least fl spec.rockspec_format (codes "1.1") ≡ false
            → spec.deploy.wrap_bin_scripts ≡ none)
  unfolding validate_fields
  fields-ok h = (λ o. (ground arith, ground arith, ground arith, ground arith), λ o. ground arith)

  build-ok :
      validate_build fl spec ≡ ok tt
      → (is_allowed_build_type spec.build.type ≡ true)
        × (format_at_least fl spec.rockspec_format (codes "3.0") ≡ false → spec.build.type ≢ [])
  unfolding validate_build
  build-ok h = (ground arith, λ o. ground arith)

  stages :
      validate fl (some spec) ≡ ok tt
      → (validate_presence fl spec ≡ ok tt)
        × (validate_fields fl spec ≡ ok tt)
        × (validate_build fl spec ≡ ok tt)
  unfolding validate
  stages h = elim (Result-cases (validate_presence fl spec)) [
    | inr (e, he) ↦ absurd (ground arith)
    | inl (tt, hp) ↦ elim (Result-cases (validate_fields fl spec)) [
      | inr (e, he) ↦ absurd (ground arith)
      | inl (tt, hf) ↦ ground arith
    ]
  ]

  ok-presence : IsAccepted fl spec → validate_presence fl spec ≡ ok tt
  unfolding validate_presence
  ok-presence a =
      let n = a.package_named in
      let v = a.version_matches in
      let u = a.source_given in
      let f = a.format_known in let e = matches_version-nil in ground arith

  ok-fields : IsAccepted fl spec → validate_fields fl spec ≡ ok tt
  unfolding validate_fields
  ok-fields a = let f = a.fields_allowed in let d = a.deploy_allowed in ground arith

  ok-build : IsAccepted fl spec → validate_build fl spec ≡ ok tt
  unfolding validate_build
  ok-build a = let f = a.fields_allowed in let d = a.build_type_known in ground arith

  -- Validate returns no error exactly for the rockspecs with a package, a version that versionRe
  -- matches, a source URL, a format that is not newer than 3.0, a known build type, and no field
  -- that is newer than the format; a format before 3.0 also needs a build type.
  pub validate-ok_iff : (validate fl (some spec) ≡ ok tt) ↔ IsAccepted fl spec
  validate-ok_iff = (
    λ h.
        let (hp, hf, hb) = stages h in
        let (n, v, u, f) = presence-ok hp in
        let (o, d) = fields-ok hf in
        let (t, b) = build-ok hb in
        record {
          package_named = n;
          version_matches = v;
          source_given = u;
          format_known = f;
          fields_allowed = λ old. ((o old).0, (o old).1, (o old).2, (o old).3, b old);
          deploy_allowed = d;
          build_type_known = t;
        },
    λ a. unfold validate in rw (ok-presence a, ok-fields a) (ok-build a),
  )
