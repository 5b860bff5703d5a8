-- ===== src/Manif/Store/RockTable.antt =====
-- manif/store.go: a rock manifest, laid out as a table and read from it.
use go_luarocks.Prelude.{
  ◌≡◌, refl, sym, ◌∙◌, ap, Bool, true, false, ◌&&◌, Option, none, some, [], ◌∷◌, arith, Bytes,
  codes, same, same_iff, Map, if◌then◌else◌, Bool-cases, inl, inr, ok, &&-eq-true,
}
use go_luarocks.Types.{RockManifest}
use go_luarocks.Files.Strings.{has_suffix, has_prefix}
use go_luarocks.Manif.Value.{Value, Fields, object, no_fields, field, put_field, text_lt}
use go_luarocks.Manif.Tables.{below_all}
use go_luarocks.Manif.Store.{
  get_field, has_none, add_dir, legacy_rockspec_key, rockspec_entry, string_map_to_nested,
}
use go_luarocks.Manif.Store.Decode.{as_string, is_rockspec_key, find_rockspec}
use go_luarocks.Manif.Store.Paths.{get_field-put_field, conflict_free}
use go_luarocks.Manif.Store.Branches.{
  is_part, on_one_line, IsBranch, AreBranches, are_paths, put_field-AreBranches,
  string_map_to_nested-AreBranches,
}

-- A map that a rock manifest can hold: paths of names, none below another, all on one line.
abbrev pub is_recordable_dir : Map Bytes → Bool
is_recordable_dir m = are_paths m && conflict_free m

-- The file name of the rockspec goes with its sum, and is known by its suffix.
abbrev pub is_recordable_rockspec : Bytes → Bytes → Bool
is_recordable_rockspec [] sum = on_one_line sum
is_recordable_rockspec (b ∷ file) [] = false
is_recordable_rockspec (b ∷ file) (c ∷ sum) =
    on_one_line (c ∷ sum) && (is_part (b ∷ file) && has_suffix (b ∷ file) (codes ".rockspec"))

unfoldable pub is_recordable : RockManifest → Bool
unfolding are_paths conflict_free has_suffix
is_recordable rm =
    is_recordable_rockspec rm.rockspec_file rm.rockspec
    && (is_recordable_dir rm.lua
        && (is_recordable_dir rm.lib
            && (is_recordable_dir rm.bin
                && (is_recordable_dir rm.conf && is_recordable_dir rm.doc))))

if-false : {A : Type 0} (b : Bool) (x y : A) → b ≡ false → (if b then x else y) ≡ y
if-false b x y h = rw h refl

if-else : {A : Type 0} (b : Bool) (x y z : A) → y ≡ z → (if b then x else y) ≡ (if b then x else z)
if-else b x y z h = ap (λ r. if b then x else r) h

module _ {N : Type 0} where
  -- A directory's entry is found under its name.
  pub get_field-add_dir :
      (name j : Bytes) (m : Map Bytes) (out : Fields N)
      → get_field j (add_dir name m out) ≡ (
          if has_none m
          then get_field j out
          else if same name j
          then some (object (string_map_to_nested m))
          else get_field j out)
  unfolding add_dir
  get_field-add_dir name j [] out = refl
  get_field-add_dir name j (e ∷ m) out =
      get_field-put_field name j (object (string_map_to_nested (e ∷ m))) out

  pub get_field-add_dir_other :
      (name j : Bytes) (m : Map Bytes) (out : Fields N)
      → same name j ≡ false
      → get_field j (add_dir name m out) ≡ get_field j out
  get_field-add_dir_other name j m out h = ground (arith, get_field-add_dir name j m out)

  -- The entry that a map of files makes.
  abbrev pub dir_entry : Map Bytes → Option (Value N)
  dir_entry m = if has_none m then none else some (object (string_map_to_nested m))

  pub get_field-add_dir_self :
      (name : Bytes) (m : Map Bytes) (out : Fields N)
      → same name name ≡ true
      → get_field name out ≡ none
      → get_field name (add_dir name m out) ≡ dir_entry m
  get_field-add_dir_self name [] out h n = get_field-add_dir name name [] out ∙ n
  get_field-add_dir_self name (e ∷ m) out h n = get_field-add_dir name name (e ∷ m) out ∙ rw h refl

  -- The search for the rockspec passes over the directories.
  find_rockspec-pass :
      (k : Bytes) (v : Value N) (fs : Fields N)
      → is_rockspec_key k ≡ false
      → find_rockspec (field k v fs) ≡ find_rockspec fs
  unfolding find_rockspec
  find_rockspec-pass k v fs h = if-false (is_rockspec_key k) _ _ h

  find_rockspec-next :
      (k : Bytes) (v : Value N) (fs gs : Fields N)
      → find_rockspec fs ≡ find_rockspec gs
      → find_rockspec (field k v fs) ≡ find_rockspec (field k v gs)
  unfolding find_rockspec
  find_rockspec-next k v fs gs h = if-else (is_rockspec_key k) _ _ _ h

  find_rockspec-put_field :
      (k : Bytes) (v : Value N) (fs : Fields N)
      → is_rockspec_key k ≡ false
      → find_rockspec (put_field k v fs) ≡ find_rockspec fs
  unfolding put_field
  find_rockspec-put_field k v no_fields h = find_rockspec-pass k v no_fields h
  find_rockspec-put_field k v (field j w fs) h = elim (Bool-cases (same k j)) [
    | inl e ↦
        let other = ap is_rockspec_key (sym ((same_iff k j).0 e)) ∙ h in
        rw e (find_rockspec-pass j v fs other ∙ sym (find_rockspec-pass j w fs other))
    | inr n ↦ elim (Bool-cases (text_lt k j)) [
      | inl lt ↦ rw (n, lt) (find_rockspec-pass k v (field j w fs) h)
      | inr ge ↦
          rw (n, ge)
            (find_rockspec-next j w (put_field k v fs) fs (find_rockspec-put_field k v fs h))
    ]
  ]

  pub find_rockspec-add_dir :
      (name : Bytes) (m : Map Bytes) (out : Fields N)
      → is_rockspec_key name ≡ false
      → find_rockspec (add_dir name m out) ≡ find_rockspec out
  unfolding add_dir
  find_rockspec-add_dir name [] out h = refl
  find_rockspec-add_dir name (e ∷ m) out h =
      find_rockspec-put_field name (object (string_map_to_nested (e ∷ m))) out h

  pub add_dir-AreBranches :
      (name : Bytes) (m : Map Bytes) (out : Fields N)
      → is_part name ≡ true
      → are_paths m ≡ true
      → AreBranches out
      → AreBranches (add_dir name m out)
  unfolding add_dir
  add_dir-AreBranches name [] out hn hm h = h
  add_dir-AreBranches name (e ∷ m) out hn hm h =
      put_field-AreBranches name (object (string_map_to_nested (e ∷ m))) out hn
        (unfold IsBranch in string_map_to_nested-AreBranches N (e ∷ m) hm) h

no_suffix : has_suffix legacy_rockspec_key (codes ".rockspec") ≡ true → ⊥
unfolding has_suffix has_prefix
no_suffix h = ground arith

legacy_key :
    (file : Bytes)
    → has_suffix file (codes ".rockspec") ≡ true
    → same file legacy_rockspec_key ≡ false
legacy_key file h = elim (Bool-cases (same file legacy_rockspec_key)) [
  | inl e ↦
      let other =
        ap (λ f. has_suffix f (codes ".rockspec")) ((same_iff file legacy_rockspec_key).0 e) in
      absurd (no_suffix (sym other ∙ h))
  | inr n ↦ n
]

module _ {N : Type 0} where
  -- The rockspec's entry is under no other key,
  pub get_field-rockspec_entry :
      (file sum j : Bytes)
      → is_recordable_rockspec file sum ≡ true
      → is_rockspec_key j ≡ false
      → get_field {N = N} j (rockspec_entry file sum) ≡ none
  unfolding rockspec_entry get_field is_rockspec_key
  get_field-rockspec_entry file [] j h n = refl
  get_field-rockspec_entry [] (c ∷ sum) j h n =
      ground (arith, n, same_iff j legacy_rockspec_key, same_iff legacy_rockspec_key j)
  get_field-rockspec_entry (b ∷ file) (c ∷ sum) j h n =
      ground (arith, n, same_iff (b ∷ file) j, ap (λ f. has_suffix f (codes ".rockspec")))

pub find_rockspec-rockspec_entry :
    (N : Type 0) (file sum : Bytes)
    → is_recordable_rockspec file sum ≡ true
    → find_rockspec {N = N} (rockspec_entry file sum) ≡ ok (file, sum)
unfolding rockspec_entry find_rockspec as_string is_rockspec_key
find_rockspec-rockspec_entry N [] [] h = refl
find_rockspec-rockspec_entry N (b ∷ file) [] h = ground arith
find_rockspec-rockspec_entry N [] (c ∷ sum) h = unfold same in refl
find_rockspec-rockspec_entry N (b ∷ file) (c ∷ sum) h =
    let (_, more) = &&-eq-true (on_one_line (c ∷ sum)) _ h in
    let (_, suffix) = &&-eq-true (is_part (b ∷ file)) _ more in
    rw (legacy_key (b ∷ file) suffix, suffix) refl

pub rockspec_entry-AreBranches :
    (N : Type 0) (file sum : Bytes)
    → is_recordable_rockspec file sum ≡ true
    → AreBranches {N = N} (rockspec_entry file sum)
unfolding rockspec_entry AreBranches IsBranch below_all
rockspec_entry-AreBranches N file [] h = tt
rockspec_entry-AreBranches N [] (c ∷ sum) h = (refl, h, refl, tt)
rockspec_entry-AreBranches N (b ∷ file) (c ∷ sum) h =
    let (line, more) = &&-eq-true (on_one_line (c ∷ sum)) _ h in
    let (part, _) = &&-eq-true (is_part (b ∷ file)) _ more in (part, line, refl, tt)
