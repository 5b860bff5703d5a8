-- ===== src/Remote/Index/Local.antt =====
-- remote/file.go and remote/index.go: the server that is a directory, and the servers in their order.
use go_luarocks.Prelude.{
  Option, none, some, List, [], ◌∷◌, Bytes, codes, Result, ok, err, if◌then◌else◌, listed, lookup,
  drop, length,
}
use go_luarocks.Files.Strings.{has_prefix, to_lower}
use go_luarocks.Types.{VersionedRock}
use go_luarocks.Deps.Float.{Float}
use go_luarocks.Deps.Version.{VersionError}
use go_luarocks.Manif.Writer.{contains_text}
use go_luarocks.Remote.Manifest.{
  RemoteManifest, file_url_prefix, file_prefix_of, local_rock_url, by_key,
}
use go_luarocks.Remote.Index.{QueryError, merge_versions, merged_rocks, query}

-- LocalServerPath
unfoldable pub local_server_path : Bytes → Option Bytes
unfolding has_prefix contains_text
local_server_path [] = none
local_server_path (c ∷ server) =
    if has_prefix (to_lower (c ∷ server)) file_url_prefix
    then some (drop (length file_url_prefix) (c ∷ server))
    else if contains_text (c ∷ server) (codes "://")
    then none
    else some (c ∷ server)

pub data FileQueryError (E : Type 0) : Type 0 where
  no_directory : FileQueryError E
  not_local : FileQueryError E
  load_failed : E → FileQueryError E
  bad_version : VersionError → FileQueryError E

pub data IndexError (E F : Type 0) : Type 0 where
  file_failed : FileQueryError E → IndexError E F
  http_failed : QueryError F → IndexError E F

pub data OrderedError (E : Type 0) : Type 0 where
  no_members : OrderedError E
  last_failure : E → OrderedError E

module _ {N : Type 0} ⦃fl : Float N⦄ where
  -- The end of Query of FileRemoteIndex.
  unfoldable pub file_result :
      {E : Type 0}
      → List (VersionedRock N) × Option VersionError
      → Result (FileQueryError E) (List (VersionedRock N))
  file_result ([], some e) = err (bad_version e)
  file_result (out, _) = ok out

  -- Query of FileRemoteIndex; `load` reads the manifest of a directory and a namespace.
  unfoldable pub file_query :
      {E : Type 0}
      → Bytes
      → Bytes
      → (Bytes → Bytes → Result E RemoteManifest)
      → Bytes
      → Bytes
      → Bytes
      → Result (FileQueryError E) (List (VersionedRock N))
  unfolding local_server_path merge_versions merged_rocks file_result local_rock_url file_prefix_of
      by_key lookup
  file_query detected want load [] name namespace = err no_directory
  file_query detected want load (c ∷ server) name namespace =
      elim (local_server_path (c ∷ server)) [
        | none ↦ err not_local
        | some dir ↦ elim (load dir namespace) [
          | err e ↦ err (load_failed e)
          | ok mf ↦
              let merged =
                merge_versions detected want (c ∷ server) (listed name mf.repository) [] in
              file_result (
                merged_rocks name (by_key merged)
                  (λ _ rock version arch.
                    local_rock_url dir (file_prefix_of (c ∷ server)) rock version arch)
                  none)
        ]
      ]

  -- NewIndex, as the Query of the index that it builds for a server
  unfoldable pub new_index :
      {E F : Type 0}
      → Bytes
      → Bytes
      → (Bytes → Bytes → Result E RemoteManifest)
      → (Bytes → Bytes → Result F RemoteManifest)
      → Bytes
      → Bytes
      → Bytes
      → Result (IndexError E F) (List (VersionedRock N))
  unfolding local_server_path file_query query
  new_index detected want load_directory load_http server name namespace =
      elim (local_server_path server) [
        | some dir ↦ elim (file_query detected want load_directory server name namespace) [
          | err e ↦ err (file_failed e)
          | ok found ↦ ok found
        ]
        | none ↦ elim (query detected want load_http (server ∷ []) name namespace) [
          | err e ↦ err (http_failed e)
          | ok found ↦ ok found
        ]
      ]

-- The loop of Query of OrderedIndex, with the last failure so far.
unfoldable pub ask_in_order :
    {E R : Type 0}
    → List (Bytes → Bytes → Result E (List R))
    → Bytes
    → Bytes
    → Option E
    → Result (OrderedError E) (List R)
ask_in_order [] name namespace none = ok []
ask_in_order [] name namespace (some e) = err (last_failure e)
ask_in_order (index ∷ indexes) name namespace failure = elim (index name namespace) [
  | err e ↦ ask_in_order indexes name namespace (some e)
  | ok found ↦ elim found [
    | [] ↦ ask_in_order indexes name namespace failure
    | x ∷ xs ↦ ok (x ∷ xs)
  ]
]

-- Query of OrderedIndex, of the Queries of its members
unfoldable pub ordered_query :
    {E R : Type 0}
    → List (Bytes → Bytes → Result E (List R))
    → Bytes
    → Bytes
    → Result (OrderedError E) (List R)
unfolding ask_in_order
ordered_query [] name namespace = err no_members
ordered_query (index ∷ indexes) name namespace = ask_in_order (index ∷ indexes) name namespace none
