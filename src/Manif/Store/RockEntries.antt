-- ===== src/Manif/Store/RockEntries.antt =====
-- manif/store.go: the table of a rock manifest, as rockManifestFromTable reads it.
use go_luarocks.Prelude.{
  ◌≡◌, refl, ◌∙◌, true, false, none, [], ◌∷◌, Bytes, codes, same, Map, lookup, if◌then◌else◌, ok,
  &&-eq-true,
}
use go_luarocks.Types.{RockManifest}
use go_luarocks.Files.Strings.{has_suffix, has_prefix}
use go_luarocks.Manif.Value.{Fields}
use go_luarocks.Manif.Store.{
  get_field, has_none, add_dir, rockspec_entry, rock_manifest_to_table, string_map_to_nested,
}
use go_luarocks.Manif.Store.Decode.{
  Conversion, find_rockspec, load_key, load_dir, flatten_nested, rock_manifest_from_table,
  is_rockspec_key, as_map,
}
use go_luarocks.Manif.Store.Paths.{conflict_free, find_path-string_map_to_nested}
use go_luarocks.Manif.Store.Branches.{AreBranches, are_paths, string_map_to_nested-AreBranches}
use go_luarocks.Manif.Store.Flatten.{lookup-flatten_nested}
use go_luarocks.Manif.Store.RockTable.{
  is_recordable, is_recordable_rockspec, is_recordable_dir, get_field-add_dir_self,
  get_field-add_dir_other, dir_entry, find_rockspec-add_dir, add_dir-AreBranches,
  get_field-rockspec_entry, find_rockspec-rockspec_entry, rockspec_entry-AreBranches,
}

-- The same paths with the same sums.
abbrev pub SameEntries : Map Bytes → Map Bytes → Type 0
SameEntries m n = (k : Bytes) → lookup k m ≡ lookup k n

-- Rock manifests that say the same of every file.
abbrev pub SameRock : RockManifest → RockManifest → Type 0
SameRock a b =
    (a.rockspec_file ≡ b.rockspec_file)
    × (a.rockspec ≡ b.rockspec)
    × SameEntries a.lua b.lua
    × SameEntries a.lib b.lib
    × SameEntries a.bin b.bin
    × SameEntries a.conf b.conf
    × SameEntries a.doc b.doc

-- What `is_recordable` says, taken apart.
pub record Recordable (rm : RockManifest) : Type 0 where
  rockspec_ok : is_recordable_rockspec rm.rockspec_file rm.rockspec ≡ true
  lua_ok : is_recordable_dir rm.lua ≡ true
  lib_ok : is_recordable_dir rm.lib ≡ true
  bin_ok : is_recordable_dir rm.bin ≡ true
  conf_ok : is_recordable_dir rm.conf ≡ true
  doc_ok : is_recordable_dir rm.doc ≡ true

pub recordable : (rm : RockManifest) → is_recordable rm ≡ true → Recordable rm
unfolding is_recordable
recordable rm h =
    let (a, h1) = &&-eq-true (is_recordable_rockspec rm.rockspec_file rm.rockspec) _ h in
    let (b, h2) = &&-eq-true (is_recordable_dir rm.lua) _ h1 in
    let (c, h3) = &&-eq-true (is_recordable_dir rm.lib) _ h2 in
    let (d, h4) = &&-eq-true (is_recordable_dir rm.bin) _ h3 in
    let (e, f) = &&-eq-true (is_recordable_dir rm.conf) (is_recordable_dir rm.doc) h4 in
    record { rockspec_ok = a; lua_ok = b; lib_ok = c; bin_ok = d; conf_ok = e; doc_ok = f }

pub rock_manifest_to_table-AreBranches :
    (N : Type 0) (rm : RockManifest)
    → Recordable rm
    → AreBranches {N = N} (rock_manifest_to_table rm)
unfolding rock_manifest_to_table
rock_manifest_to_table-AreBranches N rm r =
    let paths : (m : Map Bytes) → is_recordable_dir m ≡ true → are_paths m ≡ true =
      λ m h. (&&-eq-true (are_paths m) (conflict_free m) h).0 in
    add_dir-AreBranches (codes "doc") rm.doc _ refl (paths rm.doc r.doc_ok) (
      add_dir-AreBranches (codes "conf") rm.conf _ refl (paths rm.conf r.conf_ok) (
        add_dir-AreBranches (codes "bin") rm.bin _ refl (paths rm.bin r.bin_ok) (
          add_dir-AreBranches (codes "lib") rm.lib _ refl (paths rm.lib r.lib_ok) (
            add_dir-AreBranches (codes "lua") rm.lua _ refl (paths rm.lua r.lua_ok)
              (rockspec_entry-AreBranches N rm.rockspec_file rm.rockspec r.rockspec_ok)))))

module _ (N : Type 0) ⦃conv : Conversion N⦄ where
  -- The map that is read for a directory.
  abbrev loaded : Map Bytes → Map Bytes
  loaded m = if has_none m then [] else flatten_nested {N = N} [] (string_map_to_nested m) []

  loaded-SameEntries : (m : Map Bytes) → is_recordable_dir m ≡ true → SameEntries (loaded m) m
  loaded-SameEntries [] h k = refl
  loaded-SameEntries (e ∷ m) h k =
      let (paths, free) = &&-eq-true (are_paths (e ∷ m)) (conflict_free (e ∷ m)) h in
      lookup-flatten_nested (string_map_to_nested (e ∷ m)) k
        (string_map_to_nested-AreBranches N (e ∷ m) paths)
      ∙ find_path-string_map_to_nested N (e ∷ m) k free

  load_key-loaded :
      (name : Bytes) (m : Map Bytes) (t : Fields N)
      → get_field name t ≡ dir_entry m
      → load_key name load_dir t ≡ ok (loaded m)
  unfolding load_key load_dir as_map
  load_key-loaded name [] t h = rw (load_key, h) refl
  load_key-loaded name (e ∷ m) t h = rw (load_key, h) refl

abbrev IsOther : Bytes → Type 0
IsOther name = is_rockspec_key name ≡ false

directory_names :
    IsOther (codes "lua")
    × IsOther (codes "lib")
    × IsOther (codes "bin")
    × IsOther (codes "conf")
    × IsOther (codes "doc")
unfolding is_rockspec_key has_suffix has_prefix same
directory_names = (refl, refl, refl, refl, refl)

-- The entries of the table of a rock manifest.
module _ (N : Type 0) (rm : RockManifest) (r : Recordable rm) where
  abbrev spec_table : Fields N
  spec_table = rockspec_entry rm.rockspec_file rm.rockspec

  abbrev lua_table : Fields N
  lua_table = add_dir (codes "lua") rm.lua spec_table

  abbrev lib_table : Fields N
  lib_table = add_dir (codes "lib") rm.lib lua_table

  abbrev bin_table : Fields N
  bin_table = add_dir (codes "bin") rm.bin lib_table

  abbrev conf_table : Fields N
  conf_table = add_dir (codes "conf") rm.conf bin_table

  abbrev doc_table : Fields N
  doc_table = add_dir (codes "doc") rm.doc conf_table

  not_there : (name : Bytes) → IsOther name → get_field name spec_table ≡ none
  not_there name h = get_field-rockspec_entry rm.rockspec_file rm.rockspec name r.rockspec_ok h

  spec_found : find_rockspec doc_table ≡ ok (rm.rockspec_file, rm.rockspec)
  spec_found =
      let (lua, lib, bin, conf, doc) = directory_names in
      find_rockspec-add_dir (codes "doc") rm.doc conf_table doc
      ∙ find_rockspec-add_dir (codes "conf") rm.conf bin_table conf
      ∙ find_rockspec-add_dir (codes "bin") rm.bin lib_table bin
      ∙ find_rockspec-add_dir (codes "lib") rm.lib lua_table lib
      ∙ find_rockspec-add_dir (codes "lua") rm.lua spec_table lua
      ∙ find_rockspec-rockspec_entry N rm.rockspec_file rm.rockspec r.rockspec_ok

  lua_found : get_field (codes "lua") doc_table ≡ dir_entry rm.lua
  unfolding same
  lua_found =
      get_field-add_dir_other (codes "doc") (codes "lua") rm.doc conf_table refl
      ∙ get_field-add_dir_other (codes "conf") (codes "lua") rm.conf bin_table refl
      ∙ get_field-add_dir_other (codes "bin") (codes "lua") rm.bin lib_table refl
      ∙ get_field-add_dir_other (codes "lib") (codes "lua") rm.lib lua_table refl
      ∙ get_field-add_dir_self (codes "lua") rm.lua spec_table refl
          (not_there (codes "lua") directory_names.0)

  lib_found : get_field (codes "lib") doc_table ≡ dir_entry rm.lib
  unfolding same
  lib_found =
      get_field-add_dir_other (codes "doc") (codes "lib") rm.doc conf_table refl
      ∙ get_field-add_dir_other (codes "conf") (codes "lib") rm.conf bin_table refl
      ∙ get_field-add_dir_other (codes "bin") (codes "lib") rm.bin lib_table refl
      ∙ get_field-add_dir_self (codes "lib") rm.lib lua_table refl (
          get_field-add_dir_other (codes "lua") (codes "lib") rm.lua spec_table refl
          ∙ not_there (codes "lib") directory_names.1)

  bin_found : get_field (codes "bin") doc_table ≡ dir_entry rm.bin
  unfolding same
  bin_found =
      get_field-add_dir_other (codes "doc") (codes "bin") rm.doc conf_table refl
      ∙ get_field-add_dir_other (codes "conf") (codes "bin") rm.conf bin_table refl
      ∙ get_field-add_dir_self (codes "bin") rm.bin lib_table refl (
          get_field-add_dir_other (codes "lib") (codes "bin") rm.lib lua_table refl
          ∙ get_field-add_dir_other (codes "lua") (codes "bin") rm.lua spec_table refl
          ∙ not_there (codes "bin") directory_names.2)

  conf_found : get_field (codes "conf") doc_table ≡ dir_entry rm.conf
  unfolding same
  conf_found =
      get_field-add_dir_other (codes "doc") (codes "conf") rm.doc conf_table refl
      ∙ get_field-add_dir_self (codes "conf") rm.conf bin_table refl (
          get_field-add_dir_other (codes "bin") (codes "conf") rm.bin lib_table refl
          ∙ get_field-add_dir_other (codes "lib") (codes "conf") rm.lib lua_table refl
          ∙ get_field-add_dir_other (codes "lua") (codes "conf") rm.lua spec_table refl
          ∙ not_there (codes "conf") directory_names.3)

  doc_found : get_field (codes "doc") doc_table ≡ dir_entry rm.doc
  unfolding same
  doc_found = get_field-add_dir_self (codes "doc") rm.doc conf_table refl (
      get_field-add_dir_other (codes "conf") (codes "doc") rm.conf bin_table refl
      ∙ get_field-add_dir_other (codes "bin") (codes "doc") rm.bin lib_table refl
      ∙ get_field-add_dir_other (codes "lib") (codes "doc") rm.lib lua_table refl
      ∙ get_field-add_dir_other (codes "lua") (codes "doc") rm.lua spec_table refl
      ∙ not_there (codes "doc") directory_names.4)

-- A rock manifest, laid out as a table, is read from it.
pub rock_manifest_from_table-rock_manifest_to_table :
    (N : Type 0) ⦃conv : Conversion N⦄ (rm : RockManifest)
    → Recordable rm
    → (rm' : RockManifest) × (rock_manifest_from_table {N = N} (rock_manifest_to_table rm) ≡ ok rm')
      × SameRock rm' rm
unfolding rock_manifest_from_table rock_manifest_to_table
rock_manifest_from_table-rock_manifest_to_table N rm r =
    let t = doc_table N rm r in
    (
      _,
      rw
          (
            rock_manifest_from_table,
            spec_found N rm r,
            load_key-loaded N (codes "lua") rm.lua t (lua_found N rm r),
            load_key-loaded N (codes "lib") rm.lib t (lib_found N rm r),
            load_key-loaded N (codes "bin") rm.bin t (bin_found N rm r),
            load_key-loaded N (codes "conf") rm.conf t (conf_found N rm r),
            load_key-loaded N (codes "doc") rm.doc t (doc_found N rm r),
          )
          refl,
      (
        refl,
        refl,
        loaded-SameEntries N rm.lua r.lua_ok,
        loaded-SameEntries N rm.lib r.lib_ok,
        loaded-SameEntries N rm.bin r.bin_ok,
        loaded-SameEntries N rm.conf r.conf_ok,
        loaded-SameEntries N rm.doc r.doc_ok,
      ),
    )
