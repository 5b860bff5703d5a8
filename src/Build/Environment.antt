-- ===== src/Build/Environment.antt =====
-- build/subprocess.go: the environment of a build tool.
pub mod Merged
use go_luarocks.Prelude.{
  ℕ, zero, suc, ◌+◌, Bool, true, false, Option, none, some, List, [], ◌∷◌, ◌++◌, Bytes, codes, same,
  Map, lookup, insert, if◌then◌else◌, set,
}
use go_luarocks.Files.Strings.{cut_at}
use go_luarocks.Manif.Value.{text_lt}
use go_luarocks.Build.Flags.{TarantoolConfig, Flags}

-- splitEnv
unfoldable pub split_env : Bytes → Option (Bytes × Bytes)
unfolding cut_at
split_env e = cut_at b'=' e

-- One entry of the index of mergeEnv.
unfoldable pub put_index : ℕ → Option (Bytes × Bytes) → Map ℕ → Map ℕ
put_index i none idx = idx
put_index i (some (k, v)) idx = insert k i idx

-- `idx` of mergeEnv
unfoldable pub index_env : ℕ → List Bytes → Map ℕ → Map ℕ
unfolding put_index
index_env i [] idx = idx
index_env i (e ∷ base) idx = index_env (suc i) base (put_index i (split_env e) idx)

-- sort.Strings of the keys
unfoldable pub add_sorted : Bytes → Bytes → Map Bytes → Map Bytes
unfolding text_lt
add_sorted k v [] = (k, v) ∷ []
add_sorted k v ((j, w) ∷ m) = if text_lt k j then (k, v) ∷ (j, w) ∷ m else (j, w) ∷ add_sorted k v m

unfoldable pub sort_entries : Map Bytes → Map Bytes
unfolding add_sorted
sort_entries [] = []
sort_entries ((k, v) ∷ m) = add_sorted k v (sort_entries m)

abbrev pub entry : Bytes → Bytes → Bytes
entry k v = k ++ (b'=' ∷ v)

-- An entry in its place, or at the end.
unfoldable pub put_entry : Option ℕ → Bytes → List Bytes → List Bytes
put_entry (some i) e out = set out i e
put_entry none e out = out ++ e ∷ []

-- The loop of mergeEnv over the sorted keys.
unfoldable pub merge_entries : Map ℕ → Map Bytes → List Bytes → List Bytes
unfolding put_entry
merge_entries idx [] out = out
merge_entries idx ((k, v) ∷ overlay) out =
    merge_entries idx overlay (put_entry (lookup k idx) (entry k v) out)

-- mergeEnv
unfoldable pub merge_env : List Bytes → Map Bytes → List Bytes
unfolding index_env sort_entries merge_entries
merge_env base overlay = merge_entries (index_env 0 base []) (sort_entries overlay) base

unfoldable pub put_set : Bytes → Bytes → Map Bytes → Map Bytes
unfolding insert same
put_set k v env = if same v [] then env else insert k v env

-- buildEnv
unfoldable pub build_env : TarantoolConfig → Flags → Map Bytes
unfolding put_set
build_env cfg f =
    let dirs =
      put_set (codes "LUA_INCDIR") cfg.include_dir
        (put_set (codes "LUA") cfg.executable (put_set (codes "TARANTOOL_DIR") cfg.prefix [])) in
    put_set (codes "LUA_BINDIR") f.lua_bin_dir (put_set (codes "LUA_LIBDIR") f.lua_lib_dir dirs)
