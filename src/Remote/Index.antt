-- ===== src/Remote/Index.antt =====
-- remote/remote.go: Query of HTTPRemoteIndex. The load of a server's manifest is a parameter.
pub mod Picked
pub mod Local
pub mod FirstFound
use go_luarocks.Prelude.{
  not, ◌&&◌, ◌||◌, Option, none, some, List, [], ◌∷◌, ◌++◌, Bytes, same, Map, Result, ok, err,
  if◌then◌else◌, lookup, insert, listed,
}
use go_luarocks.Types.{VersionedRock}
use go_luarocks.Deps.Float.{Float}
use go_luarocks.Deps.Version.{VersionError, parse_version}
use go_luarocks.Remote.Manifest.{
  ArchEntry, RemoteManifest, arch_src, arch_rockspec, accepted_arches, make_rock_url, by_key,
}

pub record MergedItem : Type 0 where
  pub server : Bytes
  pub arch : Bytes

pub data QueryError (E : Type 0) : Type 0 where
  no_servers : QueryError E
  load_failed : E → QueryError E
  bad_version : VersionError → QueryError E

-- One round of pickMergedItem, of the item picked so far and the next one.
unfoldable pub repicked : MergedItem → MergedItem → MergedItem
unfolding same
repicked pick it =
    let prebuilt = not (same it.arch arch_src) && not (same it.arch arch_rockspec) in
    if (same it.arch arch_src && same pick.arch arch_rockspec) || prebuilt then it else pick

-- The loop of pickMergedItem, with the item picked so far.
unfoldable pub pick_from : MergedItem → List MergedItem → MergedItem
unfolding repicked
pick_from pick [] = pick
pick_from pick (it ∷ items) = pick_from (repicked pick it) items

-- items[pickMergedItem(items)]; each version that is merged has an item.
unfoldable pub pick_merged_item : List MergedItem → Option MergedItem
unfolding pick_from
pick_merged_item [] = none
pick_merged_item (it ∷ items) = some (pick_from it (it ∷ items))

-- merged[verStr] = append(merged[verStr], ...) for the items of one version
unfoldable pub merge_version :
    Bytes → Bytes → List ArchEntry → Map (List MergedItem) → Map (List MergedItem)
unfolding insert lookup
merge_version server version [] merged = merged
merge_version server version (a ∷ arches) merged = merge_version server version arches (
    insert version (listed version merged ++ record { server = server; arch = a.arch } ∷ []) merged)

module _ (detected want : Bytes) where
  unfoldable pub merge_versions :
      Bytes → Map (List ArchEntry) → Map (List MergedItem) → Map (List MergedItem)
  unfolding merge_version accepted_arches
  merge_versions server [] merged = merged
  merge_versions server ((version, arches) ∷ versions) merged =
      merge_versions server versions
        (merge_version server version (accepted_arches detected want arches) merged)

  -- The loop over the servers, with the first failure.
  unfoldable pub merge_servers :
      {E : Type 0}
      → (Bytes → Bytes → Result E RemoteManifest)
      → Bytes
      → Bytes
      → List Bytes
      → Map (List MergedItem)
      → Option E
      → Map (List MergedItem) × Option E
  unfolding merge_versions lookup
  merge_servers load name namespace [] merged failure = (merged, failure)
  merge_servers load name namespace (srv ∷ servers) merged failure = elim (load srv namespace) [
    | err e ↦
        merge_servers load name namespace servers merged
          (elim failure [ none ↦ some e | some f ↦ some f ])
    | ok mf ↦
        merge_servers load name namespace servers
          (merge_versions srv (listed name mf.repository) merged) failure
  ]

module _ {N : Type 0} ⦃fl : Float N⦄ where
  -- mergedRocks over the versions in order, with the first version that does not parse.
  unfoldable pub merged_rocks :
      Bytes
      → Map (List MergedItem)
      → (Bytes → Bytes → Bytes → Bytes → Bytes)
      → Option VersionError
      → List (VersionedRock N) × Option VersionError
  unfolding pick_merged_item parse_version
  merged_rocks name [] make_url failure = ([], failure)
  merged_rocks name ((version, items) ∷ merged) make_url failure = elim (parse_version version) [
    | err e ↦ merged_rocks name merged make_url (elim failure [ none ↦ some e | some f ↦ some f ])
    | ok v ↦
        let rest = merged_rocks name merged make_url failure in
        elim (pick_merged_item items) [
          | none ↦ rest
          | some win ↦ (
            record {
              name = name;
              version = v;
              url = make_url win.server name version win.arch;
              spec = none;
            }
                ∷ rest.0,
            rest.1,
          )
        ]
  ]

  -- The end of Query: a failure counts where nothing was found.
  unfoldable pub query_result :
      {E : Type 0}
      → Option E
      → List (VersionedRock N) × Option VersionError
      → Result (QueryError E) (List (VersionedRock N))
  query_result (some e) ([], failure) = err (load_failed e)
  query_result none ([], some e) = err (bad_version e)
  query_result failure (out, _) = ok out

  -- Query
  unfoldable pub query :
      {E : Type 0}
      → Bytes
      → Bytes
      → (Bytes → Bytes → Result E RemoteManifest)
      → List Bytes
      → Bytes
      → Bytes
      → Result (QueryError E) (List (VersionedRock N))
  unfolding merge_servers merged_rocks query_result by_key make_rock_url
  query detected want load [] name namespace = err no_servers
  query detected want load (srv ∷ servers) name namespace =
      let (merged, failure) =
        merge_servers detected want load name namespace (srv ∷ servers) [] none in
      query_result failure (merged_rocks name (by_key merged) make_rock_url none)
