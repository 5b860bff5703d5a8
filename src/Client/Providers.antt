-- ===== src/Client/Providers.antt =====
-- client/client.go: the providers of the modules and commands of a tree.
pub mod Index
pub mod Kept
use go_luarocks.Prelude.{
  ℕ, Bool, true, false, not, ◌||◌, Option, none, some, List, [], ◌∷◌, ◌++◌, Bytes, codes, same, Map,
  lookup, insert, delete, listed, keys, remove, contains, if◌then◌else◌,
}
use go_luarocks.Files.Strings.{cut_at}
use go_luarocks.Manif.Value.{text_lt}
use go_luarocks.Types.{Dep, Rockspec, RepoEntry, Manifest}

-- upsertProvider
unfoldable pub upsert_provider : List Bytes → Bytes → Bool → List Bytes
unfolding remove
upsert_provider list provider active =
    if active then provider ∷ remove provider list else remove provider list ++ provider ∷ []

-- The loops of deployRock that put one provider in front of the lists of its items.
unfoldable pub upsert_all : List Bytes → Bytes → Map (List Bytes) → Map (List Bytes)
unfolding insert lookup
upsert_all [] provider index = index
upsert_all (item ∷ items) provider index =
    upsert_all items provider
      (insert item (upsert_provider (listed item index) provider true) index)

-- removeProvider
unfoldable pub remove_provider : Map (List Bytes) → Bytes → Map (List Bytes)
unfolding remove
remove_provider [] provider = []
remove_provider ((item, list) ∷ index) provider =
    let rest = remove_provider index provider in
    elim (remove provider list) [ [] ↦ rest | x ∷ out ↦ (item, x ∷ out) ∷ rest ]

-- The token in front of a list, split into name and version.
unfoldable pub front : List Bytes → Option (Bytes × Bytes)
unfolding cut_at
front [] = none
front (p ∷ list) = cut_at b'/' p

-- The active provider of an item in one index.
unfoldable pub active_provider : Map (List Bytes) → Bytes → Option (Bytes × Bytes)
unfolding lookup front
active_provider index item = front (listed item index)

-- The loop of resolveInstalledDeps over the installed versions.
unfoldable pub best_version : Bytes → List Bytes → Bytes
unfolding text_lt
best_version best [] = best
best_version best (ver ∷ vers) = best_version (if text_lt best ver then ver else best) vers

module _ {N : Type 0} where
  -- manifestProvider
  unfoldable pub manifest_provider : Manifest N → Bytes → Option (Bytes × Bytes)
  unfolding active_provider
  manifest_provider m item =
      let commands = active_provider m.commands item in
      elim (active_provider m.modules item) [ some p ↦ some p | none ↦ commands ]

  unfoldable pub resolve_deps : Bytes → Manifest N → List (Dep N) → Map Bytes → Map Bytes
  unfolding same lookup best_version insert
  resolve_deps self m [] out = out
  resolve_deps self m (d ∷ ds) out = elim (same d.name self) [
    | true ↦ resolve_deps self m ds out
    | false ↦ elim (listed d.name m.repository) [
      | [] ↦ resolve_deps self m ds out
      | v ∷ vs ↦ resolve_deps self m ds (insert d.name (best_version [] (keys (v ∷ vs))) out)
    ]
  ]

  -- resolveInstalledDeps
  unfoldable pub resolve_installed_deps : Rockspec N → Manifest N → Map Bytes
  unfolding resolve_deps
  resolve_installed_deps spec m = resolve_deps spec.package_name m spec.dependencies []
