-- ===== src/Client/Engine.antt =====
-- client/native.go: how a rock comes into a tree and its manifest, and how it goes.
pub mod Forget
pub mod History
pub mod Failed
use go_luarocks.Prelude.{
  ℕ, Bool, true, false, not, ◌||◌, Option, none, some, List, [], ◌∷◌, ◌++◌, Bytes, codes, same,
  Result, ok, err, Map, lookup, insert, delete, listed, keys, if◌then◌else◌,
}
use go_luarocks.Files.FilePath.{slash, join₂, join}
use go_luarocks.Files.Strings.{has_suffix}
use go_luarocks.Files.Disk.{
  Disk, M, Fault, other, not_exist, not_directory, is_directory, not_empty, exists, out_of_fuel,
  pure, fails, ◌>>=◌, ◌>>◌, continue, mkdir_all, is_dir, read_dir,
}
use go_luarocks.Deps.Float.{Float}
use go_luarocks.Types.{Dep, Rockspec, RepoEntry, Manifest, RockManifest}
use go_luarocks.Tree.Layout.{Tree, BinWrap, open_tree, rocks_dir, install_dir}
use go_luarocks.Tree.Conflicts.{module_index}
use go_luarocks.Tree.Deploy.{Host}
use go_luarocks.Tree.Deploy.Subtrees.{deploy}
use go_luarocks.Tree.Deploy.Removal.{ManifestStore, delete_version}
use go_luarocks.Client.Providers.{
  upsert_all, remove_provider, manifest_provider, resolve_installed_deps,
}
use go_luarocks.Client.Source.{check_supported_platforms, wrap_bin_scripts, binary_spec}

-- What an engine is set up with: the tree, Tarantool's prefix, the working directory, the value of
-- LUAROCKS_SYSCONFDIR and the platforms that the program runs on.
pub record Config : Type 0 where
  pub tree : Bytes
  pub prefix : Bytes
  pub working_dir : Bytes
  pub sysconf_env : Bytes
  pub platforms : List Bytes

-- sysconfDir
unfoldable pub sysconf_dir : Bytes → Bytes
sysconf_dir [] = codes "/etc/luarocks"
sysconf_dir (c ∷ v) = c ∷ v

-- name + "/" + version
abbrev pub token : Bytes → Bytes → Bytes
token name version = name ++ (slash ∷ version)

module _ {N : Type 0} where
  abbrev pub empty_manifest : Manifest N
  empty_manifest = record { repository = []; modules = []; commands = []; dependencies = [] }

  -- readTreeManifest
  unfoldable pub read_tree_manifest : ManifestStore N → Tree → M (Manifest N)
  unfolding rocks_dir
  read_tree_manifest store t d = absent (store.read_tree (rocks_dir t.root) d)
    where
      absent : Disk × Result Fault (Manifest N) → Disk × Result Fault (Manifest N)
      absent (d', ok m) = (d', ok m)
      absent (d', err (not_exist p)) = (d', ok empty_manifest)
      absent (d', err e) = (d', err e)

  -- The commands of a rock, where any were deployed.
  unfoldable pub command_index : Rockspec N → RockManifest → Map Bytes
  command_index spec rm = elim (rm.bin) [ [] ↦ [] | b ∷ bins ↦ spec.build.install.bin ]

  -- What deployRock changes in the manifest of the tree.
  unfoldable pub record_rock : Rockspec N → RockManifest → Manifest N → Manifest N
  unfolding upsert_all command_index resolve_installed_deps insert lookup
  record_rock spec rm m =
      let provider = token spec.package_name spec.version in
      let mods = module_index (some rm) spec.package_name spec.version in
      let commands = command_index spec rm in
      let entry : RepoEntry = record {
        arch = codes "installed";
        modules = mods;
        commands = commands;
        dependencies = resolve_installed_deps spec m;
      } in
      record {
        repository =
            insert spec.package_name
              (insert spec.version entry (listed spec.package_name m.repository)) m.repository;
        modules = upsert_all (keys mods) provider m.modules;
        commands = upsert_all (keys commands) provider m.commands;
        dependencies =
            insert spec.package_name
              (insert spec.version spec.dependencies (listed spec.package_name m.dependencies))
              m.dependencies;
      }

  -- The part of Remove that takes one version out of the manifest.
  unfoldable pub forget_version : Bytes → Bytes → Manifest N → Manifest N
  unfolding remove_provider insert delete lookup
  forget_version name version m = record {
    repository = insert name (delete version (listed name m.repository)) m.repository;
    modules = remove_provider m.modules (token name version);
    commands = remove_provider m.commands (token name version);
    dependencies = elim (lookup name m.dependencies) [
      | none ↦ m.dependencies
      | some vers ↦ insert name (delete version vers) m.dependencies
    ];
  }

  -- The end of Remove, for a rock that has no version left.
  unfoldable pub forget_rock : Bytes → Manifest N → Manifest N
  unfolding lookup delete
  forget_rock name m = elim (listed name m.repository) [
    | [] ↦ record m {
      repository = delete name m.repository;
      dependencies = delete name m.dependencies;
    }
    | v ∷ vs ↦ m
  ]

  module _ (cfg : Config) (store : ManifestStore N) where
    -- The versions that Remove takes: the one that was asked for, or all.
    unfoldable pub to_remove : Bytes → Map RepoEntry → Bytes → Result Fault (List Bytes)
    unfolding lookup
    to_remove name [] version = err (other (codes "is not installed"))
    to_remove name (v ∷ vs) [] = ok (keys (v ∷ vs))
    to_remove name (v ∷ vs) (c ∷ version) = elim (lookup (c ∷ version) (v ∷ vs)) [
      | none ↦ err (other (codes "is not installed"))
      | some entry ↦ ok ((c ∷ version) ∷ [])
    ]

    -- The loop of Remove.
    unfoldable pub remove_versions : Tree → Bytes → List Bytes → Manifest N → M (Manifest N)
    unfolding delete_version forget_version
    remove_versions t name [] m = pure m
    remove_versions t name (v ∷ vs) m = do
      delete_version store t name v
      remove_versions t name vs (forget_version name v m)

    -- Remove
    unfoldable pub remove_rock : Bytes → Bytes → M (Unit {0})
    unfolding to_remove remove_versions forget_rock
    remove_rock name version = do
      t ← open_tree cfg.tree
      m ← read_tree_manifest store t
      vs ← (λ d. (d, to_remove name (listed name m.repository) version))
      m' ← remove_versions t name vs m
      store.write_tree (rocks_dir t.root) (forget_rock name m')

    -- The tree that deployRock hands to its deploy function.
    unfoldable pub tree_for : Rockspec N → Manifest N → Tree → Tree
    unfolding wrap_bin_scripts sysconf_dir join
    tree_for spec m t =
        let wrap : BinWrap = record {
          interpreter = join (cfg.prefix ∷ codes "bin" ∷ codes "tarantool" ∷ []);
          sysconfdir = sysconf_dir cfg.sysconf_env;
        } in
        record t {
          provider = some (manifest_provider m);
          bin_wrap = if wrap_bin_scripts spec then some wrap else t.bin_wrap;
        }

    -- deployRock
    unfoldable pub deploy_rock : Rockspec N → (Tree → M RockManifest) → M (Unit {0})
    unfolding check_supported_platforms tree_for record_rock
    deploy_rock spec deploy_files = do
      (λ d. (d, check_supported_platforms spec cfg.platforms))
      t ← open_tree cfg.tree
      m ← read_tree_manifest store t
      rm ← deploy_files (tree_for spec m t)
      store.write_rock
          (join₂ (install_dir t.root spec.package_name spec.version) (codes "rock_manifest")) rm
      store.write_tree (rocks_dir t.root) (record_rock spec rm m)

    module _ (fl : Float N) (host : Host) (depth : ℕ) where
      -- deployFromSource. RunBackend of build is the argument.
      unfoldable pub deploy_from_source :
          (Rockspec N → Bytes → Bytes → M (Unit {0})) → Rockspec N → Bytes → M (Unit {0})
      unfolding deploy_rock
      deploy_from_source run_backend spec src_dir = deploy_rock spec (λ t.
          let dest_dir =
            join₂ (install_dir t.root spec.package_name spec.version) (codes "build") in
          do
            mkdir_all dest_dir
            run_backend spec src_dir dest_dir
            deploy fl host t depth (some spec) src_dir dest_dir)

      -- deployBinary
      unfoldable pub deploy_binary : Rockspec N → Bytes → M (Unit {0})
      unfolding deploy_rock
      deploy_binary spec rock_dir = do
        deploy_spec ← binary_spec spec rock_dir
        deploy_rock deploy_spec (λ t. deploy fl host t depth (some deploy_spec) rock_dir rock_dir)
