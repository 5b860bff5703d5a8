-- ===== src/Tree/Deploy.antt =====
-- tree/deploy.go: the stages of Deploy.
pub mod Subtrees
pub mod Removal
pub mod Placed
pub mod Found
use go_luarocks.Prelude.{
  ℕ, zero, suc, Bool, true, false, not, ◌||◌, Option, none, some, List, [], ◌∷◌, ◌++◌, Bytes, codes,
  same, Result, ok, err, Map, insert,
}
use go_luarocks.Types.{Rockspec, RockManifest, Module}
use go_luarocks.Deps.Float.{Float}
use go_luarocks.Files.FilePath.{join₂, dir, clean, rel}
use go_luarocks.Files.Disk.{
  Disk, Node, file, directory, M, Fault, other, not_exist, is_directory, pure, fails, lift, ◌>>=◌,
  ◌>>◌, continue, mkdir_all, stat, read_file, write_file, Visit, walk_dir, is_dir,
}
use go_luarocks.Tree.Layout.{
  Tree, BinWrap, dir_perm, file_perm, exec_perm, install_dir, deploy_lua_dir, deploy_lib_dir,
  bin_dir, conf_dir,
}
use go_luarocks.Tree.Conflicts.{path_to_module, resolve_spot}
use go_luarocks.Tree.Sources.{Kind, Artifact, resolve_module, install_dest, deploy_dir_for_kind}
use go_luarocks.Tree.Wrapper.{bin_wrapper_script}

-- What the code asks of packages that are not its own: the md5 of a text in hexadecimal, and whether
-- gopher-lua parses a text.
pub record Host : Type 0 where
  pub md5_hex : Bytes → Bytes
  pub is_lua : Bytes → Bool

-- copyFile. The target is emptied before the source is read.
unfoldable pub copy_file : Host → Bytes → Bytes → ℕ → M Bytes
copy_file host src dst mode = do
  mkdir_all (dir dst)
  node ← (λ d. lift (not_exist src) (stat d src) d)
  write_file dst [] mode
  content ← read_file src
  write_file dst content mode
  pure (host.md5_hex content)

abbrev pub empty_rock_manifest : RockManifest
empty_rock_manifest = record {
  rockspec_file = [];
  rockspec = [];
  lua = [];
  lib = [];
  bin = [];
  conf = [];
  doc = [];
}

-- The two maps that hold modules.
unfoldable pub record_module : Kind → Bytes → Bytes → RockManifest → RockManifest
record_module Kind.lua path sum rm = record rm { lua = insert path sum rm.lua }
record_module Kind.lib path sum rm = record rm { lib = insert path sum rm.lib }

unfoldable pub mode_of : Kind → ℕ
mode_of Kind.lua = file_perm
mode_of Kind.lib = exec_perm

module _ {N : Type 0} (fl : Float N) (host : Host) (t : Tree) (spec : Rockspec N) where
  abbrev pub identity : Bytes × Bytes
  identity = (spec.package_name, spec.version)

  -- deployRockspec
  unfoldable pub deploy_rockspec : RockManifest → M RockManifest
  deploy_rockspec rm = elim (spec.raw_source) [
    | [] ↦ pure rm
    | c ∷ source ↦
        let name = spec.package_name ++ (b'-' ∷ (spec.version ++ codes ".rockspec")) in
        let dst = join₂ (install_dir t.root spec.package_name spec.version) name in
        do
          mkdir_all (dir dst)
          write_file dst (c ∷ source) file_perm
          pure (record rm { rockspec_file = name; rockspec = host.md5_hex (c ∷ source) })
  ]

  -- The spot, the copy, and the path that the manifest records, which the stages share.
  unfoldable pub place : Bytes → Bytes → Bytes → Bytes → ℕ → M (Bytes × Bytes)
  place deploy_dir plain item src mode = do
    final ← resolve_spot fl t deploy_dir plain item identity
    sum ← copy_file host src final mode
    path ← lift (other final) (rel deploy_dir final)
    pure (path, sum)

  -- place, for a file whose item is the module of its plain path.
  unfoldable pub place_module : Bytes → Bytes → Bytes → ℕ → M (Bytes × Bytes)
  unfolding place
  place_module deploy_dir plain src mode = do
    plain_path ← lift (other plain) (rel deploy_dir plain)
    place deploy_dir plain (path_to_module plain_path) src mode

  unfoldable pub deploy_module : Artifact → RockManifest → M RockManifest
  unfolding place_module record_module mode_of
  deploy_module a rm = do
    (path, sum) ←
        place_module (deploy_dir_for_kind t.root a.kind) a.target a.source (mode_of a.kind)
    pure (record_module a.kind path sum rm)

  -- deployModules
  unfoldable pub deploy_modules : Bytes → Bytes → Map Module → RockManifest → M RockManifest
  unfolding deploy_module
  deploy_modules src_dir build_dir [] rm = pure rm
  deploy_modules src_dir build_dir ((name, module_) ∷ rest) rm = do
    a ← lift (other name) (resolve_module src_dir build_dir name module_ t.root)
    rm' ← deploy_module a rm
    deploy_modules src_dir build_dir rest rm'

  -- One group of deployInstallModulePaths.
  unfoldable pub deploy_install_group : Bytes → Kind → Map Bytes → RockManifest → M RockManifest
  unfolding place_module record_module mode_of
  deploy_install_group src_dir kind [] rm = pure rm
  deploy_install_group src_dir kind ((key, source) ∷ rest) rm =
      let dst = install_dest (deploy_dir_for_kind t.root kind) key source true in
      do
        (path, sum) ←
            place_module (deploy_dir_for_kind t.root kind) dst (join₂ src_dir source) (mode_of kind)
        deploy_install_group src_dir kind rest (record_module kind path sum rm)

  -- deployInstallModulePaths
  unfoldable pub deploy_install_module_paths : Bytes → RockManifest → M RockManifest
  unfolding deploy_install_group
  deploy_install_module_paths src_dir rm = do
    rm' ← deploy_install_group src_dir Kind.lua spec.build.install.lua rm
    deploy_install_group src_dir Kind.lib spec.build.install.lib rm'

  -- deployInstallConf
  unfoldable pub deploy_install_conf : Bytes → Map Bytes → RockManifest → M RockManifest
  unfolding copy_file
  deploy_install_conf src_dir [] rm = pure rm
  deploy_install_conf src_dir ((key, source) ∷ rest) rm =
      let conf = conf_dir t.root spec.package_name spec.version in
      let dst = join₂ conf (clean key) in
      do
        sum ← copy_file host (join₂ src_dir source) dst file_perm
        path ← lift (other dst) (rel conf dst)
        deploy_install_conf src_dir rest (record rm { conf = insert path sum rm.conf })

  -- isLua: a file that cannot be opened is not Lua.
  unfoldable pub is_lua_file : Disk → Bytes → Bool
  unfolding stat
  is_lua_file d src = elim (stat d src) [
    | none ↦ false
    | some n ↦ elim n [ directory ↦ false | file content mode ↦ host.is_lua content ]
  ]

  unfoldable pub deploy_verbatim : Bytes → Bytes → RockManifest → M RockManifest
  unfolding place
  deploy_verbatim src path rm = do
    (placed, sum) ← place (bin_dir t.root) (join₂ (bin_dir t.root) path) path src exec_perm
    pure (record rm { bin = insert placed sum rm.bin })

  unfoldable pub deploy_wrapped : BinWrap → Bytes → Bytes → RockManifest → M RockManifest
  unfolding copy_file
  deploy_wrapped wrap src path rm =
      let script =
        join₂ (join₂ (install_dir t.root spec.package_name spec.version) (codes "bin")) path in
      do
        sum ← copy_file host src script exec_perm
        launcher ← resolve_spot fl t (bin_dir t.root) (join₂ (bin_dir t.root) path) path identity
        mkdir_all (dir launcher)
        write_file launcher (bin_wrapper_script t.root wrap script spec.package_name spec.version)
            exec_perm
        pure (record rm { bin = insert path sum rm.bin })

  -- The body of the loop of deployInstallBin.
  unfoldable pub deploy_bin : Bytes → Bytes → RockManifest → M RockManifest
  unfolding deploy_verbatim deploy_wrapped is_lua_file
  deploy_bin src path rm d = elim (t.bin_wrap) [
    | none ↦ deploy_verbatim src path rm d
    | some wrap ↦ elim (is_lua_file d src) [
      | true ↦ deploy_wrapped wrap src path rm d
      | false ↦ deploy_verbatim src path rm d
    ]
  ]

  -- deployInstallBin
  unfoldable pub deploy_install_bin : Bytes → Map Bytes → RockManifest → M RockManifest
  unfolding deploy_bin
  deploy_install_bin src_dir [] rm = pure rm
  deploy_install_bin src_dir ((key, source) ∷ rest) rm = do
    rm' ← deploy_bin (join₂ src_dir source) (clean key) rm
    deploy_install_bin src_dir rest rm'

  -- The function that copyTree hands to Walk.
  unfoldable pub copy_visit : Bytes → Bytes → Bytes → Visit RockManifest
  unfolding copy_file
  copy_visit src dst top path directory rm = do
    below ← lift (other path) (rel src path)
    mkdir_all (join₂ dst below)
    pure rm
  copy_visit src dst top path (file content mode) rm = do
    below ← lift (other path) (rel src path)
    sum ← copy_file host path (join₂ dst below) mode
    pure (elim (same top (codes "doc")) [
      | true ↦ record rm { doc = insert below sum rm.doc }
      | false ↦ rm
    ])

  -- copyTree. The depth of a walk is at most the number of paths on the disk.
  unfoldable pub copy_tree : ℕ → Bytes → Bytes → Bytes → RockManifest → M RockManifest
  unfolding copy_visit walk_dir is_dir
  copy_tree depth src dst top rm d = elim (stat d src) [
    | none ↦ (d, err (not_exist src))
    | some n ↦ elim n [
      | file content mode ↦ (d, err (other src))
      | directory ↦ walk_dir depth (copy_visit src dst top) src rm d
    ]
  ]

  -- deployCopyDirectories
  unfoldable pub deploy_copy_directories : ℕ → Bytes → List Bytes → RockManifest → M RockManifest
  unfolding copy_tree
  deploy_copy_directories depth src_dir [] rm = pure rm
  deploy_copy_directories depth src_dir (name ∷ rest) rm =
      let dst = join₂ (install_dir t.root spec.package_name spec.version) name in
      do
        rm' ← copy_tree depth (join₂ src_dir name) dst name rm
        deploy_copy_directories depth src_dir rest rm'
