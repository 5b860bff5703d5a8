-- ===== src/Manif/Store/Branches.antt =====
-- manif/store.go: the trees of strings that stringMapToNested builds; their keys are names of files and
-- directories, in ascending order.
use go_luarocks.Prelude.{
  ◌≡◌, refl, Bool, true, false, not, ◌&&◌, some, List, [], ◌∷◌, arith, Bytes, same, Map, Bool-cases,
  inl, inr, any, all, &&-eq-true,
}
use go_luarocks.Files.FilePath.{slash}
use go_luarocks.Files.Strings.{split_from}
use go_luarocks.Manif.Value.{
  Value, Fields, nil, bool, int, float, str, array, object, mixed, no_fields, field, put_field,
  text_lt,
}
use go_luarocks.Manif.Writer.{is_line_end}
use go_luarocks.Manif.Tables.{below_all, IsPlain, ArePlainFields}
use go_luarocks.Manif.Store.{get_field, fields_or_new, put_path, string_map_to_nested, has_none}
use go_luarocks.Manif.Store.Paths.{lacks, parts}

abbrev pub on_one_line : Bytes → Bool
on_one_line s = not (any is_line_end s)

-- A name of a file or directory.
abbrev pub is_part : Bytes → Bool
is_part p = not (has_none p) && (lacks slash p && on_one_line p)

unfoldable mutual
  unfolding below_all

  pub IsBranch : {N : Type 0} → Value N → Type 0
  IsBranch (str s) = on_one_line s ≡ true
  IsBranch (object fs) = AreBranches fs
  IsBranch v = ⊥

  pub AreBranches : {N : Type 0} → Fields N → Type 0
  AreBranches no_fields = Unit
  AreBranches (field k v fs) =
      (is_part k ≡ true) × IsBranch v × (below_all k fs ≡ true) × AreBranches fs

part_line : (k : Bytes) → is_part k ≡ true → any is_line_end k ≡ false
part_line k h = ground arith

mutual
  unfolding IsBranch IsPlain

  IsBranch-IsPlain : {N : Type 0} (v : Value N) → IsBranch v → IsPlain v
  IsBranch-IsPlain nil b = absurd b
  IsBranch-IsPlain (bool c) b = absurd b
  IsBranch-IsPlain (int n) b = absurd b
  IsBranch-IsPlain (float f) b = absurd b
  IsBranch-IsPlain (str s) b = ground arith
  IsBranch-IsPlain (array xs) b = absurd b
  IsBranch-IsPlain (object fs) b = AreBranches-ArePlainFields fs b
  IsBranch-IsPlain (mixed ns fs) b = absurd b

  pub AreBranches-ArePlainFields : {N : Type 0} (fs : Fields N) → AreBranches fs → ArePlainFields fs
  AreBranches-ArePlainFields no_fields b = tt
  AreBranches-ArePlainFields (field k v fs) b =
      (part_line k b.0, IsBranch-IsPlain v b.1, b.2, AreBranches-ArePlainFields fs b.3)

text_lt_trans : (s t u : Bytes) → text_lt s t ≡ true → text_lt t u ≡ true → text_lt s u ≡ true
unfolding text_lt
text_lt_trans [] [] u h k = ground arith
text_lt_trans [] (b ∷ t) [] h k = ground arith
text_lt_trans [] (b ∷ t) (c ∷ u) h k = refl
text_lt_trans (a ∷ s) [] u h k = ground arith
text_lt_trans (a ∷ s) (b ∷ t) [] h k = ground arith
text_lt_trans (a ∷ s) (b ∷ t) (c ∷ u) h k = ground (arith, text_lt_trans s t u)

text_lt_total : (s t : Bytes) → same s t ≡ false → text_lt s t ≡ false → text_lt t s ≡ true
unfolding text_lt same
text_lt_total [] [] h k = ground arith
text_lt_total [] (b ∷ t) h k = ground arith
text_lt_total (a ∷ s) [] h k = refl
text_lt_total (a ∷ s) (b ∷ t) h k = ground (arith, text_lt_total s t)

module _ {N : Type 0} where
  below_all-text_lt :
      (k j : Bytes) (fs : Fields N)
      → text_lt k j ≡ true
      → below_all j fs ≡ true
      → below_all k fs ≡ true
  unfolding below_all
  below_all-text_lt k j no_fields h b = refl
  below_all-text_lt k j (field i v fs) h b =
      ground (arith, text_lt_trans k j i, below_all-text_lt k j fs)

  below_all-put_field :
      (i k : Bytes) (v : Value N) (fs : Fields N)
      → text_lt i k ≡ true
      → below_all i fs ≡ true
      → below_all i (put_field k v fs) ≡ true
  unfolding below_all put_field
  below_all-put_field i k v no_fields h b = ground arith
  below_all-put_field i k v (field j w fs) h b = ground (arith, below_all-put_field i k v fs)

  pub put_field-AreBranches :
      (k : Bytes) (v : Value N) (fs : Fields N)
      → is_part k ≡ true
      → IsBranch v
      → AreBranches fs
      → AreBranches (put_field k v fs)
  unfolding put_field AreBranches
  put_field-AreBranches k v no_fields hk hv h = (hk, hv, unfold below_all in refl, tt)
  put_field-AreBranches k v (field j w fs) hk hv (hj, hw, hb, h) = elim (Bool-cases (same k j)) [
    | inl e ↦ rw e (hj, hv, hb, h)
    | inr n ↦ elim (Bool-cases (text_lt k j)) [
      | inl lt ↦
          rw (n, lt)
            (hk, hv, unfold below_all in ground (arith, below_all-text_lt k j fs), (hj, hw, hb, h))
      | inr ge ↦
          rw (n, ge)
            (
              hj,
              hw,
              below_all-put_field j k v fs (text_lt_total k j n ge) hb,
              put_field-AreBranches k v fs hk hv h,
            )
    ]
  ]

  fields_or_new-AreBranches :
      (p : Bytes) (fs : Fields N) → AreBranches fs → AreBranches (fields_or_new (get_field p fs))
  unfolding get_field AreBranches
  fields_or_new-AreBranches p no_fields h = tt
  fields_or_new-AreBranches p (field j v fs) h = elim (Bool-cases (same j p)) [
    | inl e ↦ rw e (sub v h.1)
    | inr n ↦ rw n (fields_or_new-AreBranches p fs h.3)
  ]
    where
      sub : (v : Value N) → IsBranch v → AreBranches (fields_or_new (some v))
      sub nil b = absurd b
      sub (bool c) b = absurd b
      sub (int n) b = absurd b
      sub (float f) b = absurd b
      sub (str s) b = tt
      sub (array xs) b = absurd b
      sub (object gs) b = b
      sub (mixed ns gs) b = absurd b

  put_path-AreBranches :
      (ps : List Bytes) (s : Bytes) (fs : Fields N)
      → all is_part ps ≡ true
      → on_one_line s ≡ true
      → AreBranches fs
      → AreBranches (put_path ps s fs)
  unfolding put_path IsBranch
  put_path-AreBranches [] s fs hp hs h = h
  put_path-AreBranches (p ∷ []) s fs hp hs h =
      put_field-AreBranches p (str s) fs (ground arith) hs h
  put_path-AreBranches (p ∷ q ∷ ps) s fs hp hs h =
      let (here, below) = &&-eq-true (is_part p) (all is_part (q ∷ ps)) hp in
      put_field-AreBranches p (object (put_path (q ∷ ps) s (fields_or_new (get_field p fs)))) fs
        here
        (put_path-AreBranches (q ∷ ps) s (fields_or_new (get_field p fs)) below hs
          (fields_or_new-AreBranches p fs h))
        h

-- The keys are paths of names, and names and sums stand on one line.
unfoldable pub are_paths : Map Bytes → Bool
unfolding split_from
are_paths [] = true
are_paths ((k, s) ∷ m) = all is_part (parts k) && (on_one_line s && are_paths m)

pub string_map_to_nested-AreBranches :
    (N : Type 0) (m : Map Bytes) → are_paths m ≡ true → AreBranches {N = N} (string_map_to_nested m)
unfolding string_map_to_nested are_paths
string_map_to_nested-AreBranches N [] h = unfold AreBranches in tt
string_map_to_nested-AreBranches N ((k, s) ∷ m) h =
    let (hk, more) = &&-eq-true (all is_part (parts k)) _ h in
    let (hs, others) = &&-eq-true (on_one_line s) (are_paths m) more in
    put_path-AreBranches (parts k) s (string_map_to_nested m) hk hs
      (string_map_to_nested-AreBranches N m others)
