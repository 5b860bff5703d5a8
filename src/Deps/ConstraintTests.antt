-- ===== src/Deps/ConstraintTests.antt =====
-- The theorems on constraints at concrete versions.
use go_luarocks.Prelude.{
  ok, trim_space, atoi, ◌≡◌, ◌≢◌, ℕ, inl, inr, [], ◌∷◌, true, false, refl, err, codes, pos, ℤ, List,
}
use go_luarocks.Types.{Version, VersionConstraint, greater_equal, less}
use go_luarocks.Deps.Version.{
  compare, parse_version, parse_trimmed, parse_body, bare_version, match_revision, parse_tokens,
  match_digits, put_number, with_placeholder,
}
use go_luarocks.Deps.Scaled.{scaled}
use go_luarocks.Deps.Constraint.{format_constraints, match_all, parse_constraints, out_of_fuel}
use go_luarocks.Deps.Constraint.Printed.{IsKnown}
use go_luarocks.Deps.Constraint.RoundTrip.{parse_constraints-format_constraints}
use go_luarocks.Deps.Constraint.Interval.{match_all-interval, IsLower, IsUpper}
use go_luarocks.Deps.Constraint.Ends.{parse_constraints-ne-out_of_fuel}

-- n.m-1
abbrev rock_version : ℕ → ℕ → Version ℤ
rock_version n m = record {
  raw = [];
  components = scaled.of_int (pos n) ∷ scaled.of_int (pos m) ∷ [];
  revision = pos 1;
  has_revision = true;
  is_scm = false;
  is_dev = false;
}

-- >= 1.0-1, < 3.0-1
abbrev bounds : List (VersionConstraint ℤ)
bounds =
    record { op = greater_equal; version = rock_version 1 0 }
    ∷ record { op = less; version = rock_version 3 0 }
    ∷ []

match_all-interval_example : match_all (rock_version 2 0) bounds ≡ true
match_all-interval_example =
    match_all-interval (rock_version 1 2) (rock_version 2 0) (rock_version 2 9) bounds
      (inl IsLower.at_least, (inr IsUpper.below, tt)) refl refl refl (unfold compare in refl)
      (unfold compare in refl) (unfold match_all compare in refl) (unfold match_all compare in refl)

parse_constraints-ne-out_of_fuel_example :
    parse_constraints {N = ℤ} (codes ">= 1.0, < 2.0") ≢ err out_of_fuel
parse_constraints-ne-out_of_fuel_example = parse_constraints-ne-out_of_fuel (codes ">= 1.0, < 2.0")

abbrev one_dot_two : Version ℤ
one_dot_two = record {
  raw = codes "1.2";
  components = pos 100000 ∷ pos 200000 ∷ [];
  revision = pos 0;
  has_revision = false;
  is_scm = false;
  is_dev = false;
}

one_dot_two-parsed : parse_version (codes "1.2") ≡ ok one_dot_two
unfolding parse_version parse_trimmed trim_space parse_body bare_version match_revision parse_tokens
    atoi match_digits put_number with_placeholder
one_dot_two-parsed = refl

-- >= 1.2, < 1.2
abbrev printable : List (VersionConstraint ℤ)
printable =
    record { op = greater_equal; version = one_dot_two }
    ∷ record { op = less; version = one_dot_two }
    ∷ []

parse_constraints-format_constraints_example :
    parse_constraints (format_constraints printable) ≡ ok printable
parse_constraints-format_constraints_example =
    parse_constraints-format_constraints (record { op = greater_equal; version = one_dot_two })
      (record { op = less; version = one_dot_two } ∷ [])
      (
        record {
          known = IsKnown.is_greater_equal;
          raw_bytes = refl;
          has_raw = λ e. cc;
          parsed = one_dot_two-parsed;
        },
        (
          record {
            known = IsKnown.is_less;
            raw_bytes = refl;
            has_raw = λ e. cc;
            parsed = one_dot_two-parsed;
          },
          tt,
        ),
      )
