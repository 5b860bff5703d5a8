-- ===== src/Deps/Tests.antt =====
-- Runs of deps over the concrete numbers of `Scaled`.
use go_luarocks.Prelude.{
  ◌≢◌, arith, ◌≡◌, refl, true, false, [], ◌∷◌, ℤ, pos, codes, ok, err, Ordering, Bytes, Result,
  trim_space, atoi, same, ◌>>=◌,
}
use go_luarocks.Types.{Version}
use go_luarocks.Deps.Version.{
  VersionError, parse_version, parse_trimmed, parse_body, bare_version, match_revision,
  parse_tokens, match_digits, match_alpha, put_number, put_word, word_delta, with_placeholder,
  compare, bad_remainder, out_of_fuel,
}
use go_luarocks.Deps.Version.Ends.{parse_version-ne-out_of_fuel}
use go_luarocks.Deps.Version.DottedRock.{dotted_rock, parse_version-dotted_rock}
use go_luarocks.Deps.Scaled.{scaled}

-- ParseVersion with all that it calls.
read : Bytes → Result VersionError (Version ℤ)
unfolding parse_version parse_trimmed trim_space parse_body bare_version match_revision parse_tokens
    atoi match_digits match_alpha put_number put_word word_delta with_placeholder same
read s = parse_version s

t1 :
    read (codes " 1.2.3-4 ")
    ≡ ok (record {
      raw = codes " 1.2.3-4 ";
      components = pos 100000 ∷ pos 200000 ∷ pos 300000 ∷ [];
      revision = pos 4;
      has_revision = true;
      is_scm = false;
      is_dev = false;
    })
unfolding read
t1 = refl

compare_texts : Bytes → Bytes → Result VersionError Ordering
compare_texts s t = do a ← read s; b ← read t; ok (compare a b)

t2 : compare_texts (codes "1.10") (codes "1.2.9") ≡ ok Ordering.gt
unfolding compare_texts read compare
t2 = refl

t3 : compare_texts (codes "scm-1") (codes "999.0-9") ≡ ok Ordering.gt
unfolding compare_texts read compare
t3 = refl

t4 : compare_texts (codes "1.0rc2") (codes "1.0") ≡ ok Ordering.lt
unfolding compare_texts read compare
t4 = refl

t5 : compare_texts (codes "1.0+") (codes "1.0") ≡ err bad_remainder
unfolding compare_texts read compare
t5 = refl

parse_version-dotted_rock_example :
    parse_version {N = ℤ} (dotted_rock (1 ∷ 10 ∷ 3 ∷ []) 2)
    ≡ ok (record {
      raw = dotted_rock (1 ∷ 10 ∷ 3 ∷ []) 2;
      components = pos 100000 ∷ pos 1000000 ∷ pos 300000 ∷ [];
      revision = pos 2;
      has_revision = true;
      is_scm = false;
      is_dev = false;
    })
parse_version-dotted_rock_example =
    parse_version-dotted_rock 1 (10 ∷ 3 ∷ []) 2 (omega arith) (omega arith)

parse_version-ne-out_of_fuel_example : parse_version {N = ℤ} (codes "1.2beta3-1") ≢ err out_of_fuel
parse_version-ne-out_of_fuel_example = parse_version-ne-out_of_fuel (codes "1.2beta3-1")
