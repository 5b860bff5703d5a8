-- ===== src/Client/Source/Supported.antt =====
-- Which platforms checkSupportedPlatforms of client/native.go lets a rock be installed on.
use go_luarocks.Prelude.{
  ◌≡◌, ◌∙◌, Bool, true, false, ◌&&◌, Option, none, some, List, [], ◌∷◌, arith, Bytes, Result, ok,
  err, all, contains, if◌then◌else◌, ◌==◌,
}
use go_luarocks.Types.{Rockspec}
use go_luarocks.Client.Source.{check_entries, check_supported_platforms}

abbrev pub is_negative : Bytes → Bool
is_negative [] = false
is_negative (c ∷ entry) = c == b'!'

-- What an entry says of a set of platforms: that it is supported, that it is not, or nothing.
unfoldable pub verdict : List Bytes → Bytes → Option Bool
unfolding contains
verdict plats [] = if contains plats [] then some true else none
verdict plats (c ∷ entry) =
    if c == b'!'
    then (if contains plats entry then some false else none)
    else if contains plats (c ∷ entry)
    then some true
    else none

-- The verdict of the first entry that has one.
unfoldable pub first_verdict : List Bytes → List Bytes → Option Bool
unfolding verdict
first_verdict plats [] = none
first_verdict plats (e ∷ entries) =
    let later = first_verdict plats entries in
    elim (verdict plats e) [ some v ↦ some v | none ↦ later ]

abbrev pub is_ok : {E A : Type 0} → Result E A → Bool
is_ok (ok a) = true
is_ok (err e) = false

-- Without a verdict, a rock that names no platform it supports is supported.
unfoldable pub is_supported : List Bytes → List Bytes → Bool
unfolding first_verdict
is_supported plats entries = elim (first_verdict plats entries) [
  | some v ↦ v
  | none ↦ all is_negative entries
]

abbrev decided : Option Bool → Bool → Bool
decided none b = b
decided (some v) b = v

check_entries-first_verdict :
    (plats : List Bytes) (all_negative : Bool) (entries : List Bytes)
    → is_ok (check_entries plats all_negative entries)
      ≡ decided (first_verdict plats entries) (all_negative && all is_negative entries)
unfolding check_entries first_verdict verdict
check_entries-first_verdict plats all_negative [] = ground arith
check_entries-first_verdict plats all_negative ([] ∷ entries) =
    ground (arith, check_entries-first_verdict plats false entries)
check_entries-first_verdict plats all_negative ((c ∷ entry) ∷ entries) = ground (
  arith,
  check_entries-first_verdict plats false entries,
  check_entries-first_verdict plats all_negative entries,
)

-- checkSupportedPlatforms accepts a rock where the first entry that fits the platforms is not
-- negated, or where none fits and all are negated, and in no other case.
pub check_supported_platforms-is_supported :
    {N : Type 0} (spec : Rockspec N) (plats : List Bytes)
    → is_ok (check_supported_platforms spec plats) ≡ is_supported plats spec.supported_platforms
unfolding check_supported_platforms is_supported
check_supported_platforms-is_supported spec plats =
    check_entries-first_verdict plats true spec.supported_platforms ∙ ground arith
