-- ===== src/Manif/Store.antt =====
-- manif/store.go: the tables that a manifest and a rock manifest are written as.
pub mod Decode
pub mod DecodeTree
pub mod FileStore
pub mod Atomic
pub mod Paths
pub mod Branches
pub mod Prefixes
pub mod Flatten
pub mod RockTable
pub mod RockEntries
pub mod RockFile
use go_luarocks.Prelude.{
  ℕ, ◌+◌, Option, none, some, List, [], ◌∷◌, Bytes, codes, same, pos, Map, if◌then◌else◌, Bool,
  true, false,
}
use go_luarocks.Types.{Version, VersionConstraint, Dep, RepoEntry, Manifest, RockManifest}
use go_luarocks.Files.FilePath.{slash}
use go_luarocks.Files.Strings.{split_byte, split_from}
use go_luarocks.Deps.Constraint.{op_text}
use go_luarocks.Manif.Value.{
  Value, Items, Fields, Numbered, int, float, str, array, object, mixed, no_items, item, no_fields,
  field, no_numbered, numbered, put_field,
}

-- v, ok := t[k]
unfoldable pub get_field : {N : Type 0} → Bytes → Fields N → Option (Value N)
unfolding same
get_field k no_fields = none
get_field k (field j v fs) = if same j k then some v else get_field k fs

-- A new map with the entries of a map, its values converted.
unfoldable pub fields_of : {A : Type 0} {N : Type 0} → (A → Value N) → Map A → Fields N
unfolding put_field
fields_of f [] = no_fields
fields_of f ((k, v) ∷ m) = put_field k (f v) (fields_of f m)

unfoldable pub items_of : {A : Type 0} {N : Type 0} → (A → Value N) → List A → Items N
items_of f [] = no_items
items_of f (a ∷ l) = item (f a) (items_of f l)

abbrev pub strings_table : {N : Type 0} → Map Bytes → Value N
strings_table m = object (fields_of str m)

abbrev pub string_lists_table : {N : Type 0} → Map (List Bytes) → Value N
string_lists_table m = object (fields_of (λ l. array (items_of str l)) m)

abbrev pub has_none : {A : Type 0} → List A → Bool
has_none [] = true
has_none (a ∷ l) = false

-- An entry for each component, from 1 on.
unfoldable pub components_table : {N : Type 0} → ℕ → List N → Numbered N
components_table i [] = no_numbered
components_table i (c ∷ cs) = numbered (pos i) (float c) (components_table (i + 1) cs)

-- versionToTable
unfoldable pub version_to_table : {N : Type 0} → Version N → Value N
unfolding components_table put_field
version_to_table v =
    let texts = field (codes "string") (str v.raw) no_fields in
    mixed (components_table 1 v.components)
      (if v.has_revision then put_field (codes "revision") (int v.revision) texts else texts)

unfoldable pub constraint_table : {N : Type 0} → VersionConstraint N → Value N
unfolding version_to_table op_text
constraint_table c = object (
    field (codes "op") (str (op_text c.op))
      (field (codes "version") (version_to_table c.version) no_fields))

unfoldable pub dep_table : {N : Type 0} → Dep N → Value N
unfolding constraint_table items_of put_field
dep_table d =
    let named = field (codes "name") (str d.name) no_fields in
    object (
      if has_none d.constraints
      then named
      else put_field (codes "constraints") (array (items_of constraint_table d.constraints)) named)

-- t[k] = the strings of `m`, where there are any.
unfoldable pub put_if_any : {N : Type 0} → Bytes → Map Bytes → Fields N → Fields N
unfolding put_field fields_of
put_if_any k m t = if has_none m then t else put_field k (strings_table m) t

-- The one arch entry of a version.
unfoldable pub arch_entry : {N : Type 0} → RepoEntry → Fields N
unfolding put_if_any same
arch_entry entry =
    let arch = field (codes "arch") (str entry.arch) no_fields in
    if same entry.arch (codes "installed")
    then put_field (codes "dependencies") (strings_table entry.dependencies) (
        put_field (codes "commands") (strings_table entry.commands)
          (put_field (codes "modules") (strings_table entry.modules) arch))
    else put_if_any (codes "commands") entry.commands
        (put_if_any (codes "modules") entry.modules arch)

unfoldable pub versions_table : {N : Type 0} → Map RepoEntry → Value N
unfolding arch_entry fields_of
versions_table vs =
    object (fields_of (λ entry. array (item (object (arch_entry entry)) no_items)) vs)

unfoldable pub dep_lists_table : {N : Type 0} → Map (List (Dep N)) → Value N
unfolding dep_table fields_of items_of
dep_lists_table vs = object (fields_of (λ l. array (items_of dep_table l)) vs)

-- manifestToTable
unfoldable pub manifest_to_table : {N : Type 0} → Manifest N → Fields N
unfolding versions_table dep_lists_table
manifest_to_table m = field (codes "commands") (string_lists_table m.commands) (
    field (codes "dependencies") (object (fields_of dep_lists_table m.dependencies)) (
      field (codes "modules") (string_lists_table m.modules)
        (field (codes "repository") (object (fields_of versions_table m.repository)) no_fields)))

-- The map at a key, or the new one that takes the place of what else is there.
abbrev pub fields_or_new : {N : Type 0} → Option (Value N) → Fields N
fields_or_new none = no_fields
fields_or_new (some (object fs)) = fs
fields_or_new (some v) = no_fields

-- The loop of stringMapToNested over the parts of a path.
unfoldable pub put_path : {N : Type 0} → List Bytes → Bytes → Fields N → Fields N
unfolding put_field get_field
put_path [] sum cur = cur
put_path (p ∷ []) sum cur = put_field p (str sum) cur
put_path (p ∷ q ∷ ps) sum cur =
    let below = put_path (q ∷ ps) sum (fields_or_new (get_field p cur)) in
    put_field p (object below) cur

-- stringMapToNested. Go's order of the entries is any; here the last one comes first.
unfoldable pub string_map_to_nested : {N : Type 0} → Map Bytes → Fields N
unfolding put_path split_from
string_map_to_nested [] = no_fields
string_map_to_nested ((full, sum) ∷ m) =
    put_path (split_byte slash full) sum (string_map_to_nested m)

-- addDir
unfoldable pub add_dir : {N : Type 0} → Bytes → Map Bytes → Fields N → Fields N
unfolding string_map_to_nested put_field
add_dir name m out =
    if has_none m then out else put_field name (object (string_map_to_nested m)) out

abbrev pub legacy_rockspec_key : Bytes
legacy_rockspec_key = codes "rockspec"

-- The rockspec's entry, by the name of its file and its sum.
unfoldable pub rockspec_entry : {N : Type 0} → Bytes → Bytes → Fields N
rockspec_entry file [] = no_fields
rockspec_entry [] (c ∷ sum) = field legacy_rockspec_key (str (c ∷ sum)) no_fields
rockspec_entry (b ∷ file) (c ∷ sum) = field (b ∷ file) (str (c ∷ sum)) no_fields

-- rockManifestToTable
unfoldable pub rock_manifest_to_table : {N : Type 0} → RockManifest → Fields N
unfolding rockspec_entry add_dir
rock_manifest_to_table rm = add_dir (codes "doc") rm.doc (
    add_dir (codes "conf") rm.conf (
      add_dir (codes "bin") rm.bin (
        add_dir (codes "lib") rm.lib
          (add_dir (codes "lua") rm.lua (rockspec_entry rm.rockspec_file rm.rockspec)))))
