-- ===== src/Manif/Store/FileStore.antt =====
-- manif/store.go: the manifest files of FileStore.
use go_luarocks.Prelude.{ℕ, [], ◌++◌, Bytes, codes, ok, err, none, some}
use go_luarocks.Types.{Manifest, RockManifest}
use go_luarocks.Files.FilePath.{dir, join₂}
use go_luarocks.Files.Disk.{
  M, other, fails, ◌>>=◌, ◌>>◌, mkdir_all, read_file, write_file, remove_path, rename,
}
use go_luarocks.Deps.Float.{Float}
use go_luarocks.Tree.Deploy.Removal.{ManifestStore}
use go_luarocks.Manif.Value.{Value, Fields, FloatText, object, no_fields, field}
use go_luarocks.Manif.Writer.{write}
use go_luarocks.Manif.Parser.{parse}
use go_luarocks.Manif.Store.{get_field, manifest_to_table, rock_manifest_to_table}
use go_luarocks.Manif.Store.Decode.{Conversion, as_map, rock_manifest_from_table}
use go_luarocks.Manif.Store.DecodeTree.{manifest_from_table}

-- Where the call fails, what is at a path is removed and the error returned.
unfoldable pub or_remove : Bytes → M (Unit {0}) → M (Unit {0})
unfolding remove_path
or_remove tmp m d = elim (m d).1 [
  | ok u ↦ ((m d).0, ok tt)
  | err e ↦ ((remove_path tmp (m d).0).0, err e)
]

-- 0o666 less the usual mask, which os.Create gives.
abbrev pub created_mode : ℕ
created_mode = 420

module _ {N : Type 0} ⦃ft : FloatText N⦄ where
  -- Write to an open file: the text, or the error of the table.
  unfoldable pub write_text : Bytes → Value N → M (Unit {0})
  unfolding write
  write_text tmp v = elim (write v) [
    | err e ↦ fails (other (codes "manif: write"))
    | ok text ↦ write_file tmp text created_mode
  ]

  -- writeAtomic
  unfoldable pub write_atomic : Bytes → Value N → M (Unit {0})
  unfolding or_remove write_text
  write_atomic path v =
      let tmp = path ++ codes ".tmp" in
      do
        mkdir_all (dir path)
        write_file tmp [] created_mode
        or_remove tmp (write_text tmp v)
        or_remove tmp (rename tmp path)

  -- Parse of a file's bytes, whose value is a map.
  unfoldable pub parse_map : Bytes → M (Fields N)
  unfolding parse as_map
  parse_map text d = elim (parse {N = N} text) [
    | err e ↦ (d, err (other (codes "parse")))
    | ok v ↦ (d, as_map (codes "top-level value, want map") v)
  ]

module _ (N : Type 0) ⦃ft : FloatText N⦄ ⦃conv : Conversion N⦄ where
  -- ReadRock
  unfoldable pub read_rock : Bytes → M RockManifest
  unfolding parse_map get_field rock_manifest_from_table
  read_rock path = do
    text ← read_file path
    top ← parse_map {N = N} text
    (λ d. elim (get_field (codes "rock_manifest") top) [
      | none ↦ (d, err (other (codes "missing rock_manifest key")))
      | some inner ↦ elim (as_map (codes "rock_manifest, want map") inner) [
        | err e ↦ (d, err e)
        | ok t ↦ (d, rock_manifest_from_table t)
      ]
    ])

  -- WriteRock
  unfoldable pub write_rock : Bytes → RockManifest → M (Unit {0})
  unfolding write_atomic rock_manifest_to_table
  write_rock path rm =
      write_atomic {N = N} path
        (object (field (codes "rock_manifest") (object (rock_manifest_to_table rm)) no_fields))

  module _ ⦃fl : Float N⦄ where
    -- ReadTree
    unfoldable pub read_tree : Bytes → M (Manifest N)
    unfolding parse_map manifest_from_table
    read_tree tree = do
      text ← read_file (join₂ tree (codes "manifest"))
      root ← parse_map text
      (λ d. (d, manifest_from_table root))

    -- WriteTree
    unfoldable pub write_tree : Bytes → Manifest N → M (Unit {0})
    unfolding write_atomic manifest_to_table
    write_tree tree m = write_atomic (join₂ tree (codes "manifest")) (object (manifest_to_table m))

-- FileStore
abbrev pub file_store :
    (N : Type 0) ⦃ft : FloatText N⦄ ⦃conv : Conversion N⦄ ⦃fl : Float N⦄ → ManifestStore N
file_store N = record {
  read_tree = read_tree N;
  write_tree = write_tree N;
  read_rock = read_rock N;
  write_rock = write_rock N;
}
