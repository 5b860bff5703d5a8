-- ===== src/Manif/Store/Decode.antt =====
-- manif/store.go: what a rock manifest is read from, and the steps that the manifest of a tree shares.
use go_luarocks.Prelude.{
  Option, none, some, List, [], ◌∷◌, ◌++◌, ℤ, Bytes, codes, same, Map, insert, Bool, if◌then◌else◌,
  ◌||◌, Result, ok, err, ◌>>=◌,
}
use go_luarocks.Types.{RockManifest}
use go_luarocks.Files.FilePath.{slash}
use go_luarocks.Files.Strings.{has_suffix}
use go_luarocks.Files.Disk.{Fault, other}
use go_luarocks.Manif.Value.{
  Value, Items, Fields, str, array, object, no_items, item, no_fields, field,
}
use go_luarocks.Manif.Store.{get_field, has_none, legacy_rockspec_key}

-- What the language and package fmt do with a value: `int(f)` of a float64, and `fmt.Sprintf("%v", x)`.
pub record Conversion (N : Type 0) : Type 0 where
  pub truncate : N → ℤ
  pub show : Value N → Bytes

-- Type assertions, with the error where they fail.
unfoldable pub as_string : {N : Type 0} → Bytes → Value N → Result Fault Bytes
as_string message (str s) = ok s
as_string message v = err (other message)

unfoldable pub as_map : {N : Type 0} → Bytes → Value N → Result Fault (Fields N)
as_map message (object fs) = ok fs
as_map message v = err (other message)

unfoldable pub as_array : {N : Type 0} → Bytes → Value N → Result Fault (Items N)
as_array message (array xs) = ok xs
as_array message v = err (other message)

-- s, _ := v.(string)
unfoldable pub string_or_empty : {N : Type 0} → Option (Value N) → Bytes
string_or_empty (some (str s)) = s
string_or_empty v = []

-- Each entry of a map converted, or the error of one.
unfoldable pub load_map :
    {A : Type 0} {N : Type 0} → (Value N → Result Fault A) → Fields N → Result Fault (Map A)
load_map f no_fields = ok []
load_map f (field k v fs) = do a ← f v; m ← load_map f fs; ok ((k, a) ∷ m)

unfoldable pub load_items :
    {A : Type 0} {N : Type 0} → (Value N → Result Fault A) → Items N → Result Fault (List A)
load_items f no_items = ok []
load_items f (item v xs) = do a ← f v; l ← load_items f xs; ok (a ∷ l)

-- Where t[k] is there: its conversion.
unfoldable pub load_key :
    {A : Type 0} {N : Type 0}
    → Bytes
    → (Value N → Result Fault (List A))
    → Fields N
    → Result Fault (List A)
unfolding get_field
load_key k f t = elim (get_field k t) [ none ↦ ok [] | some v ↦ f v ]

-- The keys of a rock_manifest under which a rockspec stands.
unfoldable pub is_rockspec_key : Bytes → Bool
unfolding same has_suffix
is_rockspec_key key = same key legacy_rockspec_key || has_suffix key (codes ".rockspec")

-- The loop for the rockspec entry: its file name and its sum. Go's order of the entries is any.
unfoldable pub find_rockspec : {N : Type 0} → Fields N → Result Fault (Bytes × Bytes)
unfolding is_rockspec_key as_string
find_rockspec no_fields = ok ([], [])
find_rockspec (field k v fs) =
    let later = find_rockspec fs in
    if is_rockspec_key k
    then (do
      sum ← as_string (codes "want string") v
      ok (if same k legacy_rockspec_key then [] else k, sum))
    else later

-- prefix + "/" + k
unfoldable pub below_prefix : Bytes → Bytes → Bytes
below_prefix prefix k = if has_none prefix then k else prefix ++ slash ∷ k

module _ {N : Type 0} ⦃conv : Conversion N⦄ where
  -- flattenNested, and what it does with one entry.
  unfoldable mutual
    unfolding below_prefix insert

    pub flatten_entry : Bytes → Value N → Map Bytes → Map Bytes
    flatten_entry full (str s) dst = insert full s dst
    flatten_entry full (object fs) dst = flatten_nested full fs dst
    flatten_entry full v dst = insert full (conv.show v) dst

    pub flatten_nested : Bytes → Fields N → Map Bytes → Map Bytes
    flatten_nested prefix no_fields dst = dst
    flatten_nested prefix (field k v fs) dst =
        flatten_nested prefix fs (flatten_entry (below_prefix prefix k) v dst)

  unfoldable pub load_dir : Value N → Result Fault (Map Bytes)
  unfolding as_map flatten_nested
  load_dir v = do fs ← as_map (codes "want map") v; ok (flatten_nested [] fs [])

  -- rockManifestFromTable
  unfoldable pub rock_manifest_from_table : Fields N → Result Fault RockManifest
  unfolding find_rockspec load_key load_dir
  rock_manifest_from_table t = do
    spec ← find_rockspec t
    lua ← load_key (codes "lua") load_dir t
    lib ← load_key (codes "lib") load_dir t
    bin ← load_key (codes "bin") load_dir t
    conf ← load_key (codes "conf") load_dir t
    doc ← load_key (codes "doc") load_dir t
    ok (record {
      rockspec_file = spec.0;
      rockspec = spec.1;
      lua = lua;
      lib = lib;
      bin = bin;
      conf = conf;
      doc = doc;
    })
