-- ===== src/Rockspec/Validate.antt =====
-- rockspec/validate.go: the checks on a rockspec that was evaluated.
pub mod Accepts
use go_luarocks.Prelude.{
  ℕ, Bool, true, false, ◌&&◌, ◌||◌, not, Option, none, some, List, [], ◌∷◌, Bytes, codes, same,
  is_digit, is_alpha, Result, ok, err, ◌>>◌, Ordering, length, all, take_while, drop_while, ◌==◌,
}
use go_luarocks.Types.{Rockspec}
use go_luarocks.Deps.Float.{Float}
use go_luarocks.Deps.Version.{parse_version, compare}

pub data SpecError : Type 0 where
  nil_spec missing_package missing_version bad_version missing_source_url unsupported_format :
      SpecError
  -- the fields that are newer than the declared format
  unsupported_build_dependencies unsupported_test_dependencies : SpecError
  unsupported_labels unsupported_issues_url unsupported_deploy : SpecError
  unsupported_build_type no_build_table no_build_type : SpecError

-- allowedBuildTypes
unfoldable pub is_allowed_build_type : Bytes → Bool
unfolding same
is_allowed_build_type t =
    same t (codes "")
    || (same t (codes "builtin")
        || (same t (codes "cmake")
            || (same t (codes "make") || (same t (codes "command") || same t (codes "none")))))

abbrev pub supported_rockspec_format : Bytes
supported_rockspec_format = codes "3.0"

abbrev pub default_rockspec_format : Bytes
default_rockspec_format = codes "1.0"

-- [0-9A-Za-z.]
abbrev pub is_body_byte : ℕ → Bool
is_body_byte c = is_digit c || (is_alpha c || (c == b'.'))

-- -[0-9]+$
abbrev pub is_revision : Bytes → Bool
is_revision [] = false
is_revision (c ∷ ds) = (c == b'-') && (not (length ds == 0) && all is_digit ds)

-- versionRe, ^[0-9A-Za-z.]+-[0-9]+$ ; the dash is in neither class.
unfoldable pub matches_version : Bytes → Bool
matches_version s =
    not (length (take_while is_body_byte s) == 0) && is_revision (drop_while is_body_byte s)

unfoldable pub or_default : Bytes → Bytes
or_default [] = default_rockspec_format
or_default (c ∷ s) = c ∷ s

-- Compare of two formats, or nothing where one does not parse.
unfoldable pub compare_formats : {N : Type 0} → Float N → Bytes → Bytes → Option Ordering
compare_formats {N} fl a b =
    let parsed = λ (s : Bytes). parse_version {N = N} ⦃fl = fl⦄ s in
    elim (parsed a) [
      | err e ↦ none
      | ok fv ↦ elim (parsed b) [ err e ↦ none | ok mv ↦ some (compare ⦃fl = fl⦄ fv mv) ]
    ]

-- The two tests of a format against a bound; both are false where a format does not parse.
unfoldable pub format_at_least : {N : Type 0} → Float N → Bytes → Bytes → Bool
unfolding compare_formats or_default
format_at_least fl format minimum = elim (compare_formats fl (or_default format) minimum) [
  | none ↦ false
  | some o ↦ elim o [ Ordering.lt ↦ false | _ ↦ true ]
]

unfoldable pub format_exceeds : {N : Type 0} → Float N → Bytes → Bytes → Bool
unfolding compare_formats or_default
format_exceeds fl format ceiling = elim (compare_formats fl (or_default format) ceiling) [
  | none ↦ false
  | some o ↦ elim o [ Ordering.gt ↦ true | _ ↦ false ]
]

abbrev pub is_empty {ℓ} : {A : Type ℓ} → List A → Bool
is_empty [] = true
is_empty (x ∷ xs) = false

abbrev pub is_set {ℓ} : {A : Type ℓ} → Option A → Bool
is_set none = false
is_set (some x) = true

-- if test { return error }
abbrev pub reject : Bool → SpecError → Result SpecError (Unit {0})
reject true e = err e
reject false e = ok tt

module _ {N : Type 0} (fl : Float N) where
  -- The presence checks, and the check of the format.
  unfoldable pub validate_presence : Rockspec N → Result SpecError (Unit {0})
  validate_presence spec = do
    reject (is_empty spec.package_name) missing_package
    reject (is_empty spec.version) missing_version
    reject (not (matches_version spec.version)) bad_version
    reject (is_empty spec.source.url) missing_source_url
    reject
        (not (is_empty spec.rockspec_format)
          && format_exceeds fl spec.rockspec_format supported_rockspec_format)
        unsupported_format

  -- The fields that older formats do not have.
  unfoldable pub validate_fields : Rockspec N → Result SpecError (Unit {0})
  validate_fields spec =
      let old = not (format_at_least fl spec.rockspec_format (codes "3.0")) in
      do
        reject (old && not (is_empty spec.build_dependencies)) unsupported_build_dependencies
        reject (old && not (is_empty spec.test_dependencies)) unsupported_test_dependencies
        reject (old && not (is_empty spec.description.labels)) unsupported_labels
        reject (old && not (is_empty spec.description.issues_url)) unsupported_issues_url
        reject
            (is_set spec.deploy.wrap_bin_scripts
              && not (format_at_least fl spec.rockspec_format (codes "1.1")))
            unsupported_deploy

  -- The build type.
  unfoldable pub validate_build : Rockspec N → Result SpecError (Unit {0})
  validate_build spec =
      let untyped =
        is_empty spec.build.type && not (format_at_least fl spec.rockspec_format (codes "3.0")) in
      do
        reject (not (is_allowed_build_type spec.build.type)) unsupported_build_type
        reject (untyped && not spec.has_build) no_build_table
        reject untyped no_build_type

  -- Validate
  unfoldable pub validate : Option (Rockspec N) → Result SpecError (Unit {0})
  validate none = err nil_spec
  validate (some spec) = do validate_presence spec; validate_fields spec; validate_build spec
