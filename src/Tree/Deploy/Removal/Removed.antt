-- ===== src/Tree/Deploy/Removal/Removed.antt =====
-- What DeleteVersion of tree/deploy.go leaves of the files.
use go_luarocks.Prelude.{
  ◌≡◌, refl, ◌∙◌, ap, Bool, false, ◌||◌, none, List, [], ◌∷◌, arith, Bytes, codes, same, same_iff,
  Result, ok, err, Map, if◌then◌else◌, any,
}
use go_luarocks.Types.{RockManifest}
use go_luarocks.Files.FilePath.{join₂}
use go_luarocks.Files.Disk.{
  Disk, M, Fault, continue, ◌>>◌, remove_path, remove_all, read_dir, is_below,
}
use go_luarocks.Files.Disk.Content.{
  content_at, content_at-remove_path, content_at-remove_all, read_dir-content_at,
}
use go_luarocks.Tree.Layout.{Tree, install_dir, deploy_lua_dir, deploy_lib_dir, bin_dir, rocks_dir}
use go_luarocks.Tree.Deploy.Subtrees.{remove_if_empty, remove_listed}
use go_luarocks.Tree.Deploy.Removal.{ManifestStore, remove_files, remove_deployed, delete_version}

-- A call that succeeds, and after which the files at the paths of a test are gone and the others as before.
abbrev Removes : M (Unit {0}) → (Bytes → Bool) → Type 0
Removes m f =
    (d : Disk)
    → ((m d).1 ≡ ok tt)
      × ((q : Bytes) → content_at (m d).0 q ≡ (if f q then none else content_at d q))

then-Removes :
    (m k : M (Unit {0})) (f g : Bytes → Bool)
    → Removes m f
    → Removes k g
    → Removes (m >> k) (λ q. f q || g q)
then-Removes m k f g first second d =
    let (is_ok, at) = first d in
    let (is_ok', at') = second (m d).0 in
    let step : (m >> k) d ≡ k (m d).0 = ap (λ r. continue ((m d).0, r) (λ _. k)) is_ok in
    (
      ap (λ r. r.1) step ∙ is_ok',
      λ q. ap (λ r. content_at r.0 q) step ∙ at' q ∙ ground (arith, at q),
    )

-- Whether a path is one of those that are recorded for a directory.
unfoldable pub recorded : Bytes → Map Bytes → Bytes → Bool
recorded dir files q = any (λ e. same (join₂ dir e.0) q) files

remove_files-Removes :
    (dir : Bytes) (files : Map Bytes) → Removes (remove_files dir files) (recorded dir files)
unfolding remove_files recorded
remove_files-Removes dir [] d = (refl, λ q. refl)
remove_files-Removes dir ((path, sum) ∷ files) d =
    let (is_ok, at) = remove_files-Removes dir files (remove_path (join₂ dir path) d).0 in
    (is_ok, λ q. at q ∙ ground (arith, content_at-remove_path (join₂ dir path) d q))

remove_listed-Removes :
    (dir : Bytes) (r : Result Fault (List Bytes)) (d : Disk)
    → (read_dir dir d).1 ≡ r
    → ((remove_listed dir r d).1 ≡ ok tt)
      × ((q : Bytes) → content_at (remove_listed dir r d).0 q ≡ content_at d q)
unfolding remove_listed
remove_listed-Removes dir (err e) d h = (refl, λ q. refl)
remove_listed-Removes dir (ok []) d h = (
  refl,
  λ q.
      content_at-remove_path dir d q
      ∙ ground (arith, read_dir-content_at dir d [] h, same_iff dir q),
)
remove_listed-Removes dir (ok (n ∷ ns)) d h = (refl, λ q. refl)

remove_if_empty-Removes : (dir : Bytes) → Removes (remove_if_empty dir) (λ q. false)
unfolding remove_if_empty
remove_if_empty-Removes dir d = remove_listed-Removes dir (read_dir dir d).1 d refl

remove_all-Removes : (dir : Bytes) → Removes (remove_all dir) (λ q. same q dir || is_below dir q)
unfolding remove_all
remove_all-Removes dir d = (refl, λ q. content_at-remove_all dir d q)

-- The deployed files that the manifest of a rock names, where it could be read.
unfoldable pub deployed : Bytes → Result Fault RockManifest → Bytes → Bool
unfolding recorded
deployed root (err e) q = false
deployed root (ok rm) q =
    recorded (deploy_lua_dir root) rm.lua q
    || (recorded (deploy_lib_dir root) rm.lib q || recorded (bin_dir root) rm.bin q)

remove_deployed-Removes :
    (root : Bytes) (r : Result Fault RockManifest)
    → Removes (remove_deployed root r) (deployed root r)
unfolding remove_deployed deployed
remove_deployed-Removes root (err e) = λ d. (refl, λ q. refl)
remove_deployed-Removes root (ok rm) =
    then-Removes _ _ _ _ (remove_files-Removes (deploy_lua_dir root) rm.lua) (
      then-Removes _ _ _ _ (remove_files-Removes (deploy_lib_dir root) rm.lib)
        (remove_files-Removes (bin_dir root) rm.bin))

-- Whether DeleteVersion takes the file at a path: the manifest of the rock names it, or it is in the rock's
-- directory.
unfoldable pub taken : Tree → Bytes → Bytes → Result Fault RockManifest → Bytes → Bool
unfolding deployed
taken t name version r q =
    deployed t.root r q
    || ((same q (install_dir t.root name version) || is_below (install_dir t.root name version) q)
        || false)

module _ {N : Type 0} (store : ManifestStore N) (t : Tree) (name version : Bytes) where
  -- DeleteVersion succeeds. It removes the files that the manifest of the rock names below the
  -- Lua, library and command directories, where the manifest can be read, and the files in the
  -- directory of the rock, and every other file keeps its content.
  pub content_at-delete_version :
      (d d' : Disk) (r : Result Fault RockManifest)
      → store.read_rock (join₂ (install_dir t.root name version) (codes "rock_manifest")) d
        ≡ (d', r)
      → ((delete_version store t name version d).1 ≡ ok tt)
        × ((q : Bytes)
            → content_at (delete_version store t name version d).0 q
              ≡ (if taken t name version r q then none else content_at d' q))
  unfolding delete_version taken
  content_at-delete_version d d' r h = rw h (
      then-Removes _ _ _ _ (remove_deployed-Removes t.root r)
        (then-Removes _ _ _ _ (remove_all-Removes (install_dir t.root name version))
          (remove_if_empty-Removes (join₂ (rocks_dir t.root) name)))
        d')
