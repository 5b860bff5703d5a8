-- ===== src/Client/EngineTests.antt =====
-- Runs of the native engine on a tree whose rock directory is taken by a file.
use go_luarocks.Prelude.{
  Result, ok, err, pos, false, ◌≡◌, ◌∙◌, ap, refl, none, [], ◌∷◌, ℤ, codes, same, lookup, insert,
}
use go_luarocks.Types.{Rockspec, Manifest, RockManifest}
use go_luarocks.Files.FilePath.{dir, join}
use go_luarocks.Files.Disk.{
  Disk, M, Fault, file, directory, continue, not_directory, mkdir_all, make_dirs, with_ancestors,
  stat, read_file,
}
use go_luarocks.Files.Disk.Content.{content_at}
use go_luarocks.Deps.Scaled.{scaled}
use go_luarocks.Manif.Value.{FloatText}
use go_luarocks.Manif.Store.Decode.{Conversion}
use go_luarocks.Manif.Store.FileStore.{file_store, read_tree, write_rock, write_atomic}
use go_luarocks.Tree.Layout.{
  Tree, open_tree, rocks_dir, install_dir, deploy_lua_dir, deploy_lib_dir, bin_dir, mkdir_each,
}
use go_luarocks.Tree.Deploy.Removal.{ManifestStore}
use go_luarocks.Client.Source.{check_supported_platforms}
use go_luarocks.Client.Engine.{Config, deploy_rock, read_tree_manifest, empty_manifest, tree_for}
use go_luarocks.Client.Engine.Failed.{rock_file, tree_file, content_at-deploy_rock_failed}
use go_luarocks.Samples.{spec_of}

instance abbrev no_float_texts : FloatText ℤ
no_float_texts = record {
  parse_float = λ s. none;
  format_g14 = λ f. [];
  format_shortest = λ f. [];
  is_nan = λ f. false;
  is_pos_inf = λ f. false;
  is_neg_inf = λ f. false;
  small_integer = λ f. none;
}

instance abbrev no_conversions : Conversion ℤ
no_conversions = record { truncate = λ f. pos 0; show = λ v. [] }

abbrev spec : Rockspec ℤ
spec = spec_of (codes "m") (codes "1.0-1") []

abbrev deployed : RockManifest
deployed = record {
  rockspec_file = [];
  rockspec = [];
  lua = (codes "m/a.lua", []) ∷ [];
  lib = [];
  bin = [];
  conf = [];
  doc = [];
}

abbrev linux : Config
linux = record {
  tree = codes "t";
  prefix = [];
  working_dir = [];
  sysconf_env = [];
  platforms = codes "linux" ∷ [];
}

-- There is no manifest yet, and a file stands where the directory of the rock should be.
abbrev start : Disk
start = (codes "t/share/tarantool/rocks/m", file (codes "x") 420) ∷ []

abbrev deploy_files : Tree → M RockManifest
deploy_files t d = (d, ok deployed)

-- What Open makes, the last first.
abbrev left : Disk
left =
    (codes "t/share/tarantool/rocks/m", file (codes "x") 420)
    ∷ (codes "t", directory)
    ∷ (codes "t/share", directory)
    ∷ (codes "t/share/tarantool", directory)
    ∷ (codes "t/share/tarantool/rocks", directory)
    ∷ (codes "t/lib", directory)
    ∷ (codes "t/lib/tarantool", directory)
    ∷ (codes "t/bin", directory)
    ∷ []

abbrev tree_t : Tree
tree_t = record { root = codes "t"; bin_wrap = none; provider = none }

opens : open_tree (codes "t") start ≡ (left, ok tree_t)
unfolding open_tree mkdir_each mkdir_all make_dirs with_ancestors rocks_dir dir join stat
    deploy_lua_dir deploy_lib_dir bin_dir insert lookup same
opens = refl

reads : read_tree_manifest (file_store ℤ) tree_t left ≡ (left, ok empty_manifest)
unfolding read_tree_manifest read_tree read_file rocks_dir join stat lookup same
reads = refl

writes :
    write_rock ℤ (rock_file (codes "t") spec) deployed left
    ≡ (left, err (not_directory (codes "t/share/tarantool/rocks/m")))
unfolding write_rock write_atomic install_dir rocks_dir join dir mkdir_all make_dirs with_ancestors
    stat lookup same
writes = refl

supported : check_supported_platforms spec (codes "linux" ∷ []) ≡ ok tt
unfolding check_supported_platforms
supported = refl

continue-step :
    {A B : Type 0} (r : Disk × Result Fault A) (d : Disk) (a : A) (f : A → M B)
    → r ≡ (d, ok a)
    → continue r f ≡ f a d
continue-step r d a f h = ap (λ s. continue s f) h

continue-stop :
    {A B : Type 0} (r : Disk × Result Fault A) (d : Disk) (e : Fault) (f : A → M B)
    → r ≡ (d, err e)
    → continue r f ≡ (d, err e)
continue-stop r d e f h = ap (λ s. continue s f) h

module _ {N : Type 0} (cfg : Config) (store : ManifestStore N) where
  -- A run of deployRock up to the write of the rock's manifest, step by step.
  deploy_rock-steps :
      (spec : Rockspec N) (files : Tree → M RockManifest) (d d1 d2 d3 d4 : Disk) (t : Tree)
      (m : Manifest N) (rm : RockManifest) (e : Fault)
      → check_supported_platforms spec cfg.platforms ≡ ok tt
      → open_tree cfg.tree d ≡ (d1, ok t)
      → read_tree_manifest store t d1 ≡ (d2, ok m)
      → files (tree_for cfg store spec m t) d2 ≡ (d3, ok rm)
      → store.write_rock (rock_file t.root spec) rm d3 ≡ (d4, err e)
      → deploy_rock cfg store spec files d ≡ (d4, err e)
  unfolding deploy_rock
  deploy_rock-steps spec files d d1 d2 d3 d4 t m rm e supported opened read placed failed =
      continue-step (d, check_supported_platforms spec cfg.platforms) d tt _
        (ap (λ r. (d, r)) supported)
      ∙ continue-step (open_tree cfg.tree d) d1 t _ opened
      ∙ continue-step (read_tree_manifest store t d1) d2 m _ read
      ∙ continue-step (files (tree_for cfg store spec m t) d2) d3 rm _ placed
      ∙ continue-stop (store.write_rock (rock_file t.root spec) rm d3) d4 e _ failed

stopped :
    deploy_rock linux (file_store ℤ) spec deploy_files start
    ≡ (left, err (not_directory (codes "t/share/tarantool/rocks/m")))
stopped =
    deploy_rock-steps linux (file_store ℤ) spec deploy_files start left left left left tree_t
      empty_manifest deployed (not_directory (codes "t/share/tarantool/rocks/m")) supported opens
      reads refl writes

content_at-deploy_rock_failed_example :
    content_at left (tree_file (codes "t")) ≡ content_at start (tree_file (codes "t"))
unfolding same join rocks_dir install_dir
content_at-deploy_rock_failed_example =
    content_at-deploy_rock_failed ℤ linux spec deploy_files (tree_file (codes "t")) start left
      (not_directory (codes "t/share/tarantool/rocks/m")) (λ t d. refl) stopped refl refl refl
