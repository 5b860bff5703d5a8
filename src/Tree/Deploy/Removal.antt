-- ===== src/Tree/Deploy/Removal.antt =====
-- tree/deploy.go: DeleteVersion.
pub mod Removed
use go_luarocks.Prelude.{
  ℕ, Bool, Option, none, some, List, [], ◌∷◌, ◌++◌, Bytes, codes, Result, ok, err, Map,
}
use go_luarocks.Types.{RockManifest, Manifest}
use go_luarocks.Files.FilePath.{join₂}
use go_luarocks.Files.Disk.{
  Disk, M, Fault, pure, ignore, ◌>>=◌, ◌>>◌, continue, remove_path, remove_all, read_dir,
}
use go_luarocks.Tree.Layout.{Tree, install_dir, deploy_lua_dir, deploy_lib_dir, bin_dir, rocks_dir}
use go_luarocks.Tree.Deploy.Subtrees.{remove_if_empty}

-- ManifestStore of interfaces.go
pub record ManifestStore (N : Type 0) : Type 0 where
  pub read_tree : Bytes → M (Manifest N)
  pub write_tree : Bytes → Manifest N → M (Unit {0})
  pub read_rock : Bytes → M RockManifest
  pub write_rock : Bytes → RockManifest → M (Unit {0})

-- One group of deployed files; a file that does not go is passed over.
unfoldable pub remove_files : Bytes → Map Bytes → M (Unit {0})
remove_files dir [] = pure tt
remove_files dir ((path, sum) ∷ files) = do
  ignore (remove_path (join₂ dir path))
  remove_files dir files

unfoldable pub remove_deployed : Bytes → Result Fault RockManifest → M (Unit {0})
unfolding remove_files
remove_deployed root (err e) = pure tt
remove_deployed root (ok rm) = do
  remove_files (deploy_lua_dir root) rm.lua
  remove_files (deploy_lib_dir root) rm.lib
  remove_files (bin_dir root) rm.bin

-- DeleteVersion
unfoldable pub delete_version : {N : Type 0} → ManifestStore N → Tree → Bytes → Bytes → M (Unit {0})
unfolding remove_deployed
delete_version store t name version d =
    let dir = install_dir t.root name version in
    let read = store.read_rock (join₂ dir (codes "rock_manifest")) d in
    (do
      remove_deployed t.root read.1
      remove_all dir
      remove_if_empty (join₂ (rocks_dir t.root) name))
      read.0
