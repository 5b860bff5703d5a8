-- ===== src/Deps/Version.antt =====
-- deps/version.go: ParseVersion, Equal and Compare.
pub mod Order
pub mod Ends
pub mod Dotted
pub mod DottedRock
use go_luarocks.Prelude.{
  ℕ, zero, suc, ◌-◌, Bool, true, false, ◌&&◌, ◌||◌, Option, none, some, List, [], ◌∷◌, ◌++◌, ℤ, pos,
  negsuc, ltb_ℤ, eqb_ℤ, Bytes, codes, same, is_digit, is_alpha, is_separator, has_newline,
  trim_space, atoi, Result, ok, err, ◌>>=◌, Ordering, if◌then◌else◌, length, get_or, set, replicate,
  take_while, drop_while, ltb, leb, ◌==◌, reverse, not,
}
use go_luarocks.Deps.Float.{Float, zero_float}
use go_luarocks.Types.{Version}

pub data VersionError : Type 0 where
  empty_version bad_revision bad_number bad_remainder : VersionError
  -- no counterpart in the program: the model's own bound on the loop was met
  out_of_fuel : VersionError

-- keywordDeltas
unfoldable pub keyword_delta : Bytes → Option ℤ
unfolding same
keyword_delta tok =
    if same tok (codes "dev")
    then some (pos 120000000)
    else if same tok (codes "scm")
    then some (pos 110000000)
    else if same tok (codes "cvs")
    then some (pos 100000000)
    else if same tok (codes "rc")
    then some (negsuc 999)
    else if same tok (codes "pre")
    then some (negsuc 9999)
    else if same tok (codes "beta")
    then some (negsuc 99999)
    else if same tok (codes "alpha")
    then some (negsuc 999999)
    else none

-- ^(CLASS+)[._-]*(.*)$ , the shape of digitsRe and alphaRe: groups 1 and 2 of a match.
unfoldable pub leading_token : (ℕ → Bool) → Bytes → Option (Bytes × Bytes)
leading_token p s =
    let rest = drop_while is_separator (drop_while p s) in
    if (length (take_while p s) == 0) || has_newline rest then none else some (take_while p s, rest)

unfoldable pub match_digits : Bytes → Option (Bytes × Bytes)
unfolding leading_token
match_digits = leading_token is_digit

unfoldable pub match_alpha : Bytes → Option (Bytes × Bytes)
unfolding leading_token
match_alpha = leading_token is_alpha

-- The groups of revisionRe, from the reversed run of digits and what stands before it, reversed too.
unfoldable pub revision_groups : Bytes → Bytes → Option (Bytes × Bytes)
revision_groups ds [] = none
revision_groups ds (c ∷ body) =
    if (length ds == 0) || (not (c == b'-') || has_newline body)
    then none
    else some (reverse body, reverse ds)

-- revisionRe, ^(.*)-([0-9]+)$ : the run of digits at the end, and the text before the dash that stands
-- in front of it.
unfoldable pub match_revision : Bytes → Option (Bytes × Bytes)
unfolding revision_groups
match_revision s =
    revision_groups (take_while is_digit (reverse s)) (drop_while is_digit (reverse s))

-- tok[0] of a token that the pattern makes non-empty.
unfoldable pub first_byte : Bytes → ℕ
first_byte [] = 0
first_byte (c ∷ _) = c

module _ {N : Type 0} ⦃fl : Float N⦄ where
  -- add_token: a number in a slot that a word opened is added as a fraction.
  unfoldable pub put_number : List N → ℕ → ℕ → List N
  put_number comps i n =
      if ltb i (length comps)
      then set comps i
          (fl.add (get_or comps i zero_float) (fl.div (fl.of_int (pos n)) (fl.of_int (pos 100000))))
      else comps ++ fl.of_int (pos n) ∷ []

  -- for len(v.Components) <= i { append 0 }; v.Components[i] = delta
  unfoldable pub put_word : List N → ℕ → N → List N
  put_word comps i delta = set (comps ++ replicate (suc i - length comps) zero_float) i delta

  unfoldable pub word_delta : Bytes → N
  unfolding first_byte keyword_delta
  word_delta tok = elim (keyword_delta tok) [
    | some d ↦ fl.of_int d
    | none ↦ fl.div (fl.of_int (pos (first_byte tok))) (fl.of_int (pos 1000))
  ]

  -- The loop over `cur`, with the slot `i` and the version built so far. Each round takes a byte
  -- at least, so the length of the text is fuel enough.
  unfoldable pub parse_tokens : ℕ → Bytes → ℕ → Version N → Result VersionError (Version N)
  parse_tokens fuel [] i v = ok v
  parse_tokens zero (c ∷ cur) i v = err out_of_fuel
  parse_tokens (suc fuel) (c ∷ cur) i v = elim (match_digits (c ∷ cur)) [
    | some (ds, rest) ↦ elim (atoi ds) [
      | none ↦ err bad_number
      | some n ↦
          parse_tokens fuel rest (suc i) (record v { components = put_number v.components i n })
    ]
    | none ↦ elim (match_alpha (c ∷ cur)) [
      | none ↦ err bad_remainder
      | some (tok, rest) ↦ parse_tokens fuel rest i (record v {
        components = put_word v.components i (word_delta tok);
        is_scm = v.is_scm || same tok (codes "scm");
        is_dev = v.is_dev || same tok (codes "dev");
      })
    ]
  ]

  -- The placeholder slot of a version with no token.
  unfoldable pub with_placeholder : Version N → Version N
  with_placeholder v = elim (v.components) [
    | [] ↦ record v { components = zero_float ∷ [] }
    | _ ↦ v
  ]

  unfoldable pub bare_version : Bytes → Version N
  bare_version raw = record {
    raw = raw;
    components = [];
    revision = pos 0;
    has_revision = false;
    is_scm = false;
    is_dev = false;
  }

  unfoldable pub parse_body : Bytes → Version N → Result VersionError (Version N)
  parse_body body v = do w ← parse_tokens (length body) body 0 v; ok (with_placeholder w)

  unfoldable pub parse_trimmed : Bytes → Bytes → Result VersionError (Version N)
  parse_trimmed raw trimmed = elim (match_revision trimmed) [
    | none ↦ parse_body trimmed (bare_version raw)
    | some (body, ds) ↦ elim (atoi ds) [
      | none ↦ err bad_revision
      | some rev ↦
          parse_body body (record (bare_version raw) { revision = pos rev; has_revision = true })
    ]
  ]

  unfoldable pub parse_version : Bytes → Result VersionError (Version N)
  parse_version s =
      if length (trim_space s) == 0 then err empty_version else parse_trimmed s (trim_space s)

  -- The components of `Equal`: the same number of them, and each the same.
  unfoldable pub components_equal : List N → List N → Bool
  components_equal [] [] = true
  components_equal [] (b ∷ bs) = false
  components_equal (a ∷ as') [] = false
  components_equal (a ∷ as') (b ∷ bs) = fl.beq a b && components_equal as' bs

  unfoldable pub equal : Version N → Version N → Bool
  unfolding components_equal
  equal a b =
      components_equal a.components b.components
      && (if a.has_revision && b.has_revision then eqb_ℤ a.revision b.revision else true)

  -- One round of the loop of `Compare`; `rest` is what the later rounds give.
  unfoldable pub compare_step : N → N → Ordering → Ordering
  compare_step a b rest =
      if fl.beq a b then rest else if fl.blt a b then Ordering.lt else Ordering.gt

  -- The loop of `Compare`: a missing component reads as 0.
  unfoldable pub compare_components : List N → List N → Ordering
  unfolding compare_step
  compare_components [] [] = Ordering.eq
  compare_components [] (b ∷ bs) = compare_step zero_float b (compare_components [] bs)
  compare_components (a ∷ as') [] = compare_step a zero_float (compare_components as' [])
  compare_components (a ∷ as') (b ∷ bs) = compare_step a b (compare_components as' bs)

  -- The tie-break on the revision, when both sides carry one.
  unfoldable pub compare_revisions : Version N → Version N → Ordering
  compare_revisions a b =
      if a.has_revision && (b.has_revision && not (eqb_ℤ a.revision b.revision))
      then (if ltb_ℤ a.revision b.revision then Ordering.lt else Ordering.gt)
      else Ordering.eq

  -- Go's -1, 0 and 1 are `lt`, `eq` and `gt`.
  unfoldable pub compare : Version N → Version N → Ordering
  unfolding compare_components compare_revisions
  compare a b = elim (compare_components a.components b.components) [
    | Ordering.eq ↦ compare_revisions a b
    | o ↦ o
  ]
