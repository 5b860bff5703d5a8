-- ===== src/Tree/Deploy/Subtrees.antt =====
-- tree/deploy.go: the files that a build installed itself, and Deploy as a whole.
use go_luarocks.Prelude.{
  ℕ, zero, suc, true, false, ◌||◌, Option, none, some, List, [], ◌∷◌, Bytes, codes, same, Result,
  ok, err, contains,
}
use go_luarocks.Types.{Rockspec, RockManifest}
use go_luarocks.Deps.Float.{Float}
use go_luarocks.Files.FilePath.{join₂, clean, rel}
use go_luarocks.Files.Disk.{
  file, directory, M, Fault, other, pure, fails, lift, ignore, ◌>>=◌, ◌>>◌, is_dir, remove_path,
  read_dir, Visit, walk_dir,
}
use go_luarocks.Tree.Layout.{Tree, install_dir}
use go_luarocks.Tree.Conflicts.{path_to_module}
use go_luarocks.Tree.Sources.{Kind, deploy_dir_for_kind}
use go_luarocks.Tree.Deploy.{
  Host, empty_rock_manifest, record_module, mode_of, place, deploy_rockspec, deploy_modules,
  deploy_install_module_paths, deploy_install_conf, deploy_install_bin, deploy_copy_directories,
}

-- The loop of pruneEmptyDirs over the entries.
unfoldable pub prune_each : (Bytes → M (Unit {0})) → Bytes → List Bytes → M (Unit {0})
unfolding is_dir
prune_each below dir [] = pure tt
prune_each below dir (n ∷ ns) = do
  (λ d. elim (is_dir d (join₂ dir n)) [ true ↦ below (join₂ dir n) d | false ↦ (d, ok tt) ])
  prune_each below dir ns

-- The directory goes if its listing is empty.
unfoldable pub remove_listed : Bytes → Result Fault (List Bytes) → M (Unit {0})
remove_listed dir (err e) = pure tt
remove_listed dir (ok []) = ignore (remove_path dir)
remove_listed dir (ok (n ∷ ns)) = pure tt

unfoldable pub remove_if_empty : Bytes → M (Unit {0})
unfolding remove_listed
remove_if_empty dir d = remove_listed dir (read_dir dir d).1 d

-- pruneEmptyDirs. Its bound is that of the walk before it, which would have run out first.
unfoldable pub prune_empty_dirs : ℕ → Bytes → M (Unit {0})
unfolding prune_each remove_if_empty
prune_empty_dirs zero dir d = (d, ok tt)
prune_empty_dirs (suc depth) dir d = elim ((read_dir dir d).1) [
  | err e ↦ (d, ok tt)
  | ok names ↦ (do prune_each (λ p. prune_empty_dirs depth p) dir names; remove_if_empty dir) d
]

-- srcDisposition
pub data Disposition : Type 0 where
  keep_source move_source : Disposition

unfoldable pub dispose : Disposition → Bytes → M (Unit {0})
dispose keep_source path = pure tt
dispose move_source path = remove_path path

unfoldable pub prune_moved : ℕ → Disposition → Bytes → M (Unit {0})
unfolding prune_empty_dirs
prune_moved depth keep_source src = pure tt
prune_moved depth move_source src = prune_empty_dirs depth src

module _ {N : Type 0} (fl : Float N) (host : Host) (t : Tree) (spec : Rockspec N) where
  -- The function that deployInstalledSubtree hands to Walk.
  unfoldable pub subtree_visit : Bytes → Kind → Disposition → Visit RockManifest
  unfolding place record_module mode_of dispose
  subtree_visit src kind disposition path directory rm = pure rm
  subtree_visit src kind disposition path (file content mode) rm =
      let deploy_dir = deploy_dir_for_kind t.root kind in
      do
        below ← lift (other path) (rel src path)
        (placed, sum) ←
            place fl host t spec deploy_dir (join₂ deploy_dir below) (path_to_module below) path
              (mode_of kind)
        dispose disposition path
        pure (record_module kind placed sum rm)

  -- deployInstalledSubtree
  unfoldable pub deploy_installed_subtree :
      ℕ → Bytes → Kind → Disposition → RockManifest → M RockManifest
  unfolding subtree_visit walk_dir prune_moved
  deploy_installed_subtree depth src kind disposition rm d = elim (is_dir d src) [
    | false ↦ (d, ok rm)
    | true ↦
        (do
          rm' ← walk_dir depth (subtree_visit src kind disposition) src rm
          prune_moved depth disposition src
          pure rm')
          d
  ]

  -- The two kinds below one root.
  unfoldable pub deploy_root : ℕ → Bytes → Disposition → RockManifest → M RockManifest
  unfolding deploy_installed_subtree
  deploy_root depth root disposition rm = do
    rm' ← deploy_installed_subtree depth (join₂ root (codes "lua")) Kind.lua disposition rm
    deploy_installed_subtree depth (join₂ root (codes "lib")) Kind.lib disposition rm'

  -- The loop of deployInstalledSubtrees over its roots.
  unfoldable pub deploy_roots :
      ℕ → List Bytes → List (Bytes × Disposition) → RockManifest → M RockManifest
  unfolding deploy_root contains clean
  deploy_roots depth seen [] rm = pure rm
  deploy_roots depth seen ((root, disposition) ∷ roots) rm =
      elim (same root [] || contains seen (clean root)) [
        | true ↦ deploy_roots depth seen roots rm
        | false ↦ do
          rm' ← deploy_root depth root disposition rm
          deploy_roots depth (clean root ∷ seen) roots rm'
      ]

  -- deployInstalledSubtrees
  unfoldable pub deploy_installed_subtrees : ℕ → Bytes → RockManifest → M RockManifest
  unfolding deploy_roots
  deploy_installed_subtrees depth build_dir rm =
      let own = install_dir t.root spec.package_name spec.version in
      deploy_roots depth [] ((build_dir, keep_source) ∷ (own, move_source) ∷ []) rm

  -- The stages of Deploy.
  unfoldable pub deploy_from : ℕ → Bytes → Bytes → M RockManifest
  unfolding deploy_rockspec deploy_modules deploy_install_module_paths deploy_install_conf
      deploy_install_bin deploy_copy_directories deploy_installed_subtrees
  deploy_from depth src_dir build_dir = do
    a ← deploy_rockspec fl host t spec empty_rock_manifest
    b ← deploy_modules fl host t spec src_dir build_dir spec.build.modules a
    c ← deploy_install_module_paths fl host t spec src_dir b
    e ← deploy_install_conf fl host t spec src_dir spec.build.install.conf c
    f ← deploy_install_bin fl host t spec src_dir spec.build.install.bin e
    g ← deploy_copy_directories fl host t spec depth src_dir spec.build.copy_directories f
    deploy_installed_subtrees depth build_dir g

unfoldable pub or_source : Bytes → Bytes → Bytes
or_source src_dir [] = src_dir
or_source src_dir (c ∷ build_dir) = c ∷ build_dir

-- Deploy. `depth` bounds how deep the walks go.
unfoldable pub deploy :
    {N : Type 0} → Float N → Host → Tree → ℕ → Option (Rockspec N) → Bytes → Bytes → M RockManifest
unfolding deploy_from or_source
deploy fl host t depth none src_dir build_dir = fails (other (codes "tree.Deploy: nil spec"))
deploy fl host t depth (some spec) src_dir build_dir =
    elim (same spec.package_name [] || same spec.version []) [
      | true ↦ fails (other (codes "tree.Deploy: spec missing Package/Version"))
      | false ↦ deploy_from fl host t spec depth src_dir (or_source src_dir build_dir)
    ]
