-- ===== src/Manif/Store/DecodeTree.antt =====
-- manif/store.go: what the manifest of a tree is read from.
use go_luarocks.Prelude.{
  Option, none, some, List, [], ◌∷◌, Bytes, codes, same, Map, true, false, if◌then◌else◌, Result,
  ok, err, ◌>>=◌, pos,
}
use go_luarocks.Types.{
  Version, VersionConstraint, Op, equal, not_equal, greater, less, greater_equal, less_equal,
  compatible, unknown, Dep, RepoEntry, Manifest,
}
use go_luarocks.Files.Disk.{Fault, other}
use go_luarocks.Deps.Float.{Float}
use go_luarocks.Manif.Value.{
  Value, Items, Fields, Numbered, int, float, str, array, object, mixed, no_items, item, no_fields,
  no_numbered, numbered,
}
use go_luarocks.Manif.Store.{get_field}
use go_luarocks.Manif.Store.Decode.{
  Conversion, as_string, as_map, as_array, string_or_empty, load_map, load_items, load_key,
}

unfoldable pub load_string_list : {N : Type 0} → Value N → Result Fault (List Bytes)
unfolding as_array as_string load_items
load_string_list v = do
  xs ← as_array (codes "want array") v
  load_items (as_string (codes "want string")) xs

-- loadStringListMap
unfoldable pub load_string_list_map : {N : Type 0} → Value N → Result Fault (Map (List Bytes))
unfolding as_map load_map load_string_list
load_string_list_map v = do t ← as_map (codes "want map") v; load_map load_string_list t

-- The strings of a sub-table of an arch entry; another value in its place is passed over.
unfoldable pub load_strings : {N : Type 0} → Option (Value N) → Result Fault (Map Bytes)
unfolding load_map as_string
load_strings (some (object fs)) = load_map (as_string (codes "want string")) fs
load_strings v = ok []

unfoldable pub load_arch : {N : Type 0} → Option (Value N) → Result Fault Bytes
load_arch (some (str s)) = ok s
load_arch v = err (other (codes "arch entry missing 'arch' string"))

unfoldable pub arch_entry_from : {N : Type 0} → Fields N → Result Fault RepoEntry
unfolding load_arch load_strings get_field
arch_entry_from entry = do
  arch ← load_arch (get_field (codes "arch") entry)
  modules ← load_strings (get_field (codes "modules") entry)
  commands ← load_strings (get_field (codes "commands") entry)
  dependencies ← load_strings (get_field (codes "dependencies") entry)
  ok (record { arch = arch; modules = modules; commands = commands; dependencies = dependencies })

unfoldable pub first_item : {N : Type 0} → Items N → Result Fault (Value N)
first_item no_items = err (other (codes "empty arch array"))
first_item (item v xs) = ok v

-- extractRepoEntry
unfoldable pub extract_repo_entry : {N : Type 0} → Value N → Result Fault RepoEntry
unfolding as_array first_item as_map arch_entry_from
extract_repo_entry v = do
  xs ← as_array (codes "expected array of arch entries") v
  x ← first_item xs
  entry ← as_map (codes "first arch entry, want map") x
  arch_entry_from entry

unfoldable pub load_versions : {N : Type 0} → Value N → Result Fault (Map RepoEntry)
unfolding as_map load_map extract_repo_entry
load_versions v = do t ← as_map (codes "want map") v; load_map extract_repo_entry t

-- A string as the operator that it is.
unfoldable pub op_of_text : Bytes → Op
unfolding same
op_of_text s =
    if same s (codes "==")
    then equal
    else if same s (codes "~=")
    then not_equal
    else if same s (codes ">")
    then greater
    else if same s (codes "<")
    then less
    else if same s (codes ">=")
    then greater_equal
    else if same s (codes "<=")
    then less_equal
    else if same s (codes "~>")
    then compatible
    else unknown s

module _ {N : Type 0} ⦃conv : Conversion N⦄ where
  module _ ⦃fl : Float N⦄ where
    -- numToFloat
    unfoldable pub num_to_float : Option (Value N) → Option N
    num_to_float (some (int n)) = some (fl.of_int n)
    num_to_float (some (float f)) = some f
    num_to_float v = none

    -- The numbers among the components, by ascending key.
    unfoldable pub numbered_floats : Numbered N → List N
    unfolding num_to_float
    numbered_floats no_numbered = []
    numbered_floats (numbered k v ns) = elim (num_to_float (some v)) [
      | none ↦ numbered_floats ns
      | some f ↦ f ∷ numbered_floats ns
    ]

    unfoldable pub version_from : Numbered N → Fields N → Version N
    unfolding numbered_floats get_field string_or_empty
    version_from ns fs =
        let rev = num_to_float (get_field (codes "revision") fs) in
        record {
          raw = string_or_empty (get_field (codes "string") fs);
          components = numbered_floats ns;
          revision = elim rev [ none ↦ pos 0 | some r ↦ conv.truncate r ];
          has_revision = elim rev [ none ↦ false | some r ↦ true ];
          is_scm = false;
          is_dev = false;
        }

    -- Version{Raw: raw}
    unfoldable pub raw_version : Bytes → Version N
    raw_version raw = record {
      raw = raw;
      components = [];
      revision = pos 0;
      has_revision = false;
      is_scm = false;
      is_dev = false;
    }

    -- constraintVersionFromValue
    unfoldable pub constraint_version_from_value : Option (Value N) → Version N
    unfolding version_from raw_version
    constraint_version_from_value (some (str s)) = raw_version s
    constraint_version_from_value (some (mixed ns fs)) = version_from ns fs
    constraint_version_from_value (some (object fs)) = version_from no_numbered fs
    constraint_version_from_value v = raw_version []

    unfoldable pub load_constraint : Value N → Result Fault (VersionConstraint N)
    unfolding as_map op_of_text string_or_empty constraint_version_from_value get_field
    load_constraint v = do
      t ← as_map (codes "constraint, want map") v
      ok (record {
        op = op_of_text (string_or_empty (get_field (codes "op") t));
        version = constraint_version_from_value (get_field (codes "version") t);
      })

    unfoldable pub load_constraints : Option (Value N) → Result Fault (List (VersionConstraint N))
    unfolding load_items load_constraint
    load_constraints (some (array cs)) = load_items load_constraint cs
    load_constraints v = ok []

    unfoldable pub load_dep : Value N → Result Fault (Dep N)
    unfolding as_map load_constraints string_or_empty get_field
    load_dep v = do
      t ← as_map (codes "dep entry, want map") v
      cs ← load_constraints (get_field (codes "constraints") t)
      ok (record {
        name = string_or_empty (get_field (codes "name") t);
        namespace = [];
        constraints = cs;
      })

    -- loadDepList
    unfoldable pub load_dep_list : Value N → Result Fault (List (Dep N))
    unfolding load_items load_dep
    load_dep_list (array xs) = load_items load_dep xs
    load_dep_list (object no_fields) = ok []
    load_dep_list v = err (other (codes "expected dep array"))

    unfoldable pub load_dep_lists : Value N → Result Fault (Map (List (Dep N)))
    unfolding as_map load_map load_dep_list
    load_dep_lists v = do t ← as_map (codes "want map") v; load_map load_dep_list t

    unfoldable pub load_maps :
        {A : Type 0} → (Value N → Result Fault A) → Value N → Result Fault (Map A)
    unfolding as_map load_map
    load_maps f v = do t ← as_map (codes "want map") v; load_map f t

    -- manifestFromTable
    unfoldable pub manifest_from_table : Fields N → Result Fault (Manifest N)
    unfolding load_key load_string_list_map load_maps load_versions load_dep_lists
    manifest_from_table t = do
      modules ← load_key (codes "modules") load_string_list_map t
      commands ← load_key (codes "commands") load_string_list_map t
      repository ← load_key (codes "repository") (load_maps load_versions) t
      dependencies ← load_key (codes "dependencies") (load_maps load_dep_lists) t
      ok (record {
        repository = repository;
        modules = modules;
        commands = commands;
        dependencies = dependencies;
      })
