-- ===== src/Remote/Manifest.antt =====
-- remote/remote.go and remote/file.go: what is read from a server's manifest, and where its rocks are.
use go_luarocks.Prelude.{
  Option, none, some, List, [], ◌∷◌, ◌++◌, Bytes, codes, same, Map, Result, ok, err, ◌>>=◌,
  if◌then◌else◌, filter, drop_while, reverse, ◌==◌, contains,
}
use go_luarocks.Files.FilePath.{slash, join₂, join}
use go_luarocks.Files.Strings.{has_prefix, to_lower}
use go_luarocks.Files.Disk.{Fault, other}
use go_luarocks.Manif.Value.{Value, Fields, array, object, text_lt}
use go_luarocks.Manif.Store.{get_field}
use go_luarocks.Manif.Store.Decode.{as_map, string_or_empty, load_map, load_items}

pub record ArchEntry : Type 0 where
  pub arch : Bytes

pub record RemoteManifest : Type 0 where
  pub server : Bytes
  pub repository : Map (Map (List ArchEntry))

abbrev pub arch_src : Bytes
arch_src = codes "src"

abbrev pub arch_rockspec : Bytes
arch_rockspec = codes "rockspec"

abbrev pub arch_installed : Bytes
arch_installed = codes "installed"

unfoldable pub arch_of : {N : Type 0} → Fields N → ArchEntry
unfolding get_field string_or_empty
arch_of t = record { arch = string_or_empty (get_field (codes "arch") t) }

unfoldable pub arch_item : {N : Type 0} → Value N → Result Fault ArchEntry
unfolding as_map arch_of
arch_item v = do t ← as_map (codes "entry, want map") v; ok (arch_of t)

-- toArchArr
unfoldable pub to_arch_arr : {N : Type 0} → Value N → Result Fault (List ArchEntry)
unfolding load_items arch_item
to_arch_arr (array xs) = load_items arch_item xs
to_arch_arr (object t) = ok (arch_of t ∷ [])
to_arch_arr v = err (other (codes "expected array or map"))

unfoldable pub project_versions : {N : Type 0} → Value N → Result Fault (Map (List ArchEntry))
unfolding as_map load_map to_arch_arr
project_versions v = do t ← as_map (codes "want map") v; load_map to_arch_arr t

unfoldable pub project_repository :
    {N : Type 0} → Bytes → Option (Value N) → Result Fault RemoteManifest
unfolding as_map load_map project_versions
project_repository server none = err (other (codes "missing `repository` key"))
project_repository server (some v) = do
  t ← as_map (codes "repository, want map") v
  repository ← load_map project_versions t
  ok (record { server = server; repository = repository })

-- projectManifest
unfoldable pub project_manifest : {N : Type 0} → Bytes → Fields N → Result Fault RemoteManifest
unfolding project_repository get_field
project_manifest server raw = project_repository server (get_field (codes "repository") raw)

-- luaOSName
unfoldable pub lua_os_name : Bytes → Bytes
unfolding same
lua_os_name goos = if same goos (codes "darwin") then codes "macosx" else goos

-- luaCPUName
unfoldable pub lua_cpu_name : Bytes → Bytes
unfolding same
lua_cpu_name goarch =
    if same goarch (codes "amd64")
    then codes "x86_64"
    else if same goarch (codes "386")
    then codes "x86"
    else if same goarch (codes "arm64")
    then codes "aarch64"
    else goarch

-- hostArch, of runtime.GOOS and runtime.GOARCH
unfoldable pub host_arch : Bytes → Bytes → Bytes
unfolding lua_os_name lua_cpu_name
host_arch goos goarch = lua_os_name goos ++ (b'-' ∷ lua_cpu_name goarch)

-- The host's arch where `want` is empty.
abbrev pub or_detected : Bytes → Bytes → Bytes
or_detected detected [] = detected
or_detected detected (c ∷ want) = c ∷ want

abbrev pub default_arches : Bytes → List Bytes
default_arches host = arch_src ∷ codes "all" ∷ arch_rockspec ∷ arch_installed ∷ host ∷ []

-- acceptedArches
unfoldable pub accepted_arches : Bytes → Bytes → List ArchEntry → List ArchEntry
unfolding contains
accepted_arches detected want arches =
    filter (λ a. contains (default_arches (or_detected detected want)) a.arch) arches

-- strings.TrimRight(s, "/")
abbrev pub trim_right_slashes : Bytes → Bytes
trim_right_slashes s = reverse (drop_while (λ c. c == slash) (reverse s))

-- name + "-" + version
abbrev pub dashed : Bytes → Bytes → Bytes
dashed name version = name ++ (b'-' ∷ version)

-- makeRockURL
unfoldable pub make_rock_url : Bytes → Bytes → Bytes → Bytes → Bytes
unfolding same
make_rock_url server name version arch =
    let base = trim_right_slashes server ++ (slash ∷ []) in
    if same arch arch_rockspec
    then base ++ (dashed name version ++ codes ".rockspec")
    else if same arch arch_installed
    then base
      ++ (name ++ (slash ∷ (version ++ (slash ∷ (dashed name version ++ codes ".rockspec")))))
    else base ++ (dashed name version ++ (b'.' ∷ (arch ++ codes ".rock")))

abbrev pub file_url_prefix : Bytes
file_url_prefix = codes "file://"

-- filePrefixOf
unfoldable pub file_prefix_of : Bytes → Bytes
unfolding has_prefix
file_prefix_of server = if has_prefix (to_lower server) file_url_prefix then file_url_prefix else []

-- localRockURL
unfoldable pub local_rock_url : Bytes → Bytes → Bytes → Bytes → Bytes → Bytes
unfolding same join
local_rock_url dir prefix name version arch =
    if same arch arch_rockspec
    then prefix ++ join₂ dir (dashed name version ++ codes ".rockspec")
    else if same arch arch_installed
    then prefix ++ join (dir ∷ name ∷ version ∷ (dashed name version ++ codes ".rockspec") ∷ [])
    else prefix ++ join₂ dir (dashed name version ++ (b'.' ∷ (arch ++ codes ".rock")))

-- The entries of a map in the order of sort.Strings on its keys.
unfoldable pub add_by_key : {V : Type 0} → Bytes → V → Map V → Map V
unfolding text_lt
add_by_key k v [] = (k, v) ∷ []
add_by_key k v ((j, w) ∷ m) =
    let later = add_by_key k v m in if text_lt k j then (k, v) ∷ (j, w) ∷ m else (j, w) ∷ later

unfoldable pub by_key : {V : Type 0} → Map V → Map V
unfolding add_by_key
by_key [] = []
by_key ((k, v) ∷ m) = add_by_key k v (by_key m)
