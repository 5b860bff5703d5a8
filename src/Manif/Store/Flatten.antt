-- ===== src/Manif/Store/Flatten.antt =====
-- manif/store.go: flattenNested gives back each path of a tree of strings, and no other.
use go_luarocks.Prelude.{
  ◌≡◌, refl, sym, ◌∙◌, ap, ap₂, subst, true, false, Option, none, some, List, [], ◌∷◌, ◌++◌, arith,
  Bytes, same, same_iff, same_refl, Map, lookup, lookup-insert, if◌then◌else◌, Bool-cases, inl, inr,
  all, &&-eq-true,
}
use go_luarocks.Files.FilePath.{slash}
use go_luarocks.Files.Strings.{has_prefix, join_byte}
use go_luarocks.Manif.Value.{
  Value, Fields, nil, bool, int, float, str, array, object, mixed, no_fields, field,
}
use go_luarocks.Manif.Tables.{below_all}
use go_luarocks.Manif.Store.{get_field, fields_or_new, has_none}
use go_luarocks.Manif.Store.Decode.{Conversion, below_prefix, flatten_entry, flatten_nested}
use go_luarocks.Manif.Store.Paths.{
  parts, parts-cons, parts-lacks, join-parts, lacks, string_at, find_path, find_path-no_fields,
}
use go_luarocks.Manif.Store.Branches.{IsBranch, AreBranches}
use go_luarocks.Manif.Store.Prefixes.{
  at_or_below, below_prefix-cancel, other_name, text_lt_irrefl, part_nonempty, part_lacks,
  outside_below, path_below, below_prefix-join, below_prefix-nonempty, has_prefix-longer,
  same-longer,
}

-- What the tree of an entry holds on the rest of a path.
abbrev held : {N : Type 0} → Value N → List Bytes → Option Bytes
held v [] = string_at (some v)
held v (q ∷ qs) = find_path (q ∷ qs) (fields_or_new (some v))

abbrev first_of : Option Bytes → Option Bytes → Option Bytes
first_of none b = b
first_of (some a) b = some a

get_field-below :
    {N : Type 0} (j : Bytes) (fs : Fields N) → below_all j fs ≡ true → get_field j fs ≡ none
unfolding get_field below_all
get_field-below j no_fields h = refl
get_field-below j (field i v fs) h =
    ground (arith, get_field-below j fs, text_lt_irrefl j, same_iff i j)

first_of-none : (a : Option Bytes) → first_of a none ≡ a
first_of-none none = refl
first_of-none (some b) = refl

same-below : (full z : Bytes) → has_none full ≡ false → same full (below_prefix full z) ≡ false
unfolding below_prefix
same-below [] z h = ground (arith, h)
same-below (c ∷ full) z h = same-longer (c ∷ full) z slash

module _ {N : Type 0} where
  find_path-here :
      (j r : Bytes) (rs : List Bytes) (v : Value N) (fs : Fields N)
      → same j r ≡ true
      → find_path (r ∷ rs) (field j v fs) ≡ held v rs
  unfolding find_path get_field
  find_path-here j r [] v fs h = rw h refl
  find_path-here j r (q ∷ qs) v fs h = rw h refl

  find_path-later :
      (j r : Bytes) (rs : List Bytes) (v : Value N) (fs : Fields N)
      → same j r ≡ false
      → find_path (r ∷ rs) (field j v fs) ≡ find_path (r ∷ rs) fs
  unfolding find_path get_field
  find_path-later j r [] v fs h = rw h refl
  find_path-later j r (q ∷ qs) v fs h = rw h refl

  find_path-missing :
      (r : Bytes) (rs : List Bytes) (fs : Fields N)
      → get_field r fs ≡ none
      → find_path (r ∷ rs) fs ≡ none
  unfolding find_path
  find_path-missing r [] fs h = ap string_at h
  find_path-missing r (q ∷ qs) fs h =
      ap (λ o. find_path (q ∷ qs) (fields_or_new o)) h ∙ find_path-no_fields N (q ∷ qs)

module _ {N : Type 0} ⦃conv : Conversion N⦄ where
  -- A path that is not in a directory is not touched by its entries.
  mutual
    unfolding flatten_entry flatten_nested AreBranches IsBranch below_prefix

    entry_outside :
        (v : Value N) (full k : Bytes) (dst : Map Bytes)
        → IsBranch v
        → has_none full ≡ false
        → at_or_below full k ≡ false
        → lookup k (flatten_entry full v dst) ≡ lookup k dst
    entry_outside nil full k dst b e h = absurd b
    entry_outside (bool c) full k dst b e h = absurd b
    entry_outside (int n) full k dst b e h = absurd b
    entry_outside (float f) full k dst b e h = absurd b
    entry_outside (str s) full k dst b e h = ground (arith, lookup-insert full k s dst)
    entry_outside (array xs) full k dst b e h = absurd b
    entry_outside (object fs) full k dst b e h = nested_outside fs full k dst b e (ground arith)
    entry_outside (mixed ns fs) full k dst b e h = absurd b

    nested_outside :
        (fs : Fields N) (prefix k : Bytes) (dst : Map Bytes)
        → AreBranches fs
        → has_none prefix ≡ false
        → has_prefix k (prefix ++ (slash ∷ [])) ≡ false
        → lookup k (flatten_nested prefix fs dst) ≡ lookup k dst
    nested_outside no_fields prefix k dst b e h = refl
    nested_outside (field j v fs) prefix k dst b e h =
        nested_outside fs prefix k (flatten_entry (below_prefix prefix j) v dst) b.3 e h
        ∙ entry_outside v (below_prefix prefix j) k dst b.1
            (below_prefix-nonempty prefix j (part_nonempty j b.0)) (outside_below prefix j k e h)

  -- The entries of a directory at the rest of a path below it.
  mutual
    unfolding flatten_entry flatten_nested AreBranches IsBranch

    entry_at :
        (v : Value N) (full : Bytes) (rs : List Bytes) (dst : Map Bytes)
        → IsBranch v
        → has_none full ≡ false
        → all (lacks slash) rs ≡ true
        → lookup (path_below full rs) (flatten_entry full v dst)
          ≡ first_of (held v rs) (lookup (path_below full rs) dst)
    entry_at nil full rs dst b e h = absurd b
    entry_at (bool c) full rs dst b e h = absurd b
    entry_at (int n) full rs dst b e h = absurd b
    entry_at (float f) full rs dst b e h = absurd b
    entry_at (str s) full [] dst b e h = lookup-insert full full s dst ∙ rw (same_refl full) refl
    entry_at (str s) full (q ∷ qs) dst b e h =
        lookup-insert full (below_prefix full (join_byte slash (q ∷ qs))) s dst
        ∙ ap (λ c. if c then some s else lookup (below_prefix full (join_byte slash (q ∷ qs))) dst)
            (same-below full (join_byte slash (q ∷ qs)) e)
        ∙ ap (λ o. first_of o (lookup (below_prefix full (join_byte slash (q ∷ qs))) dst))
            (sym (find_path-no_fields N (q ∷ qs)))
    entry_at (array xs) full rs dst b e h = absurd b
    entry_at (object fs) full [] dst b e h =
        nested_outside fs full full dst b e (has_prefix-longer full [] slash)
    entry_at (object fs) full (q ∷ qs) dst b e h = nested_at fs full q qs dst b h
    entry_at (mixed ns fs) full rs dst b e h = absurd b

    nested_at :
        (fs : Fields N) (prefix r : Bytes) (rs : List Bytes) (dst : Map Bytes)
        → AreBranches fs
        → all (lacks slash) (r ∷ rs) ≡ true
        → lookup (below_prefix prefix (join_byte slash (r ∷ rs))) (flatten_nested prefix fs dst)
          ≡ first_of
              (find_path (r ∷ rs) fs)
              (lookup (below_prefix prefix (join_byte slash (r ∷ rs))) dst)
    nested_at no_fields prefix r rs dst b h =
        ap (λ o. first_of o (lookup (below_prefix prefix (join_byte slash (r ∷ rs))) dst))
          (sym (find_path-no_fields N (r ∷ rs)))
    nested_at (field j v fs) prefix r rs dst b h =
        let k = below_prefix prefix (join_byte slash (r ∷ rs)) in
        let full = below_prefix prefix j in
        let (hr, hs) = &&-eq-true (lacks slash r) (all (lacks slash) rs) h in
        nested_at fs prefix r rs (flatten_entry full v dst) b.3 h ∙ elim (Bool-cases (same j r)) [
          | inl e ↦
              let form : k ≡ path_below full rs =
                ap (λ n. below_prefix prefix (join_byte slash (n ∷ rs))) (sym ((same_iff j r).0 e))
                ∙ below_prefix-join prefix j rs (part_nonempty j b.0) in
              let missing : get_field r fs ≡ none =
                ap (λ n. get_field n fs) (sym ((same_iff j r).0 e)) ∙ get_field-below j fs b.2 in
              ap₂ first_of (find_path-missing r rs fs missing) (
                subst
                  (λ t. lookup t (flatten_entry full v dst) ≡ first_of (held v rs) (lookup t dst))
                  (sym form)
                  (entry_at v full rs dst b.1 (below_prefix-nonempty prefix j (part_nonempty j b.0))
                    hs))
              ∙ ap (λ o. first_of o (lookup k dst)) (sym (find_path-here j r rs v fs e))
          | inr n ↦ ap₂ first_of (sym (find_path-later j r rs v fs n)) (
              entry_outside v full k dst b.1 (below_prefix-nonempty prefix j (part_nonempty j b.0))
                (below_prefix-cancel prefix j (join_byte slash (r ∷ rs))
                  ∙ other_name j r rs (part_lacks j b.0) hr n))
        ]

  -- What flattenNested gives for a tree of strings, read by a path.
  pub lookup-flatten_nested :
      (fs : Fields N) (k : Bytes)
      → AreBranches fs
      → lookup k (flatten_nested [] fs []) ≡ find_path (parts k) fs
  unfolding below_prefix lookup
  lookup-flatten_nested fs k b =
      let (r, rs, e) = parts-cons k in
      let lacking : all (lacks slash) (r ∷ rs) ≡ true =
        ap (all (lacks slash)) (sym e) ∙ parts-lacks k in
      let joined : below_prefix [] (join_byte slash (r ∷ rs)) ≡ k =
        ap (join_byte slash) (sym e) ∙ join-parts k in
      ap (λ t. lookup t (flatten_nested [] fs [])) (sym joined)
      ∙ nested_at fs [] r rs [] b lacking
      ∙ first_of-none (find_path (r ∷ rs) fs)
      ∙ ap (λ ps. find_path ps fs) (sym e)
