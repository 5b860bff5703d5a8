-- ===== src/Rockspec/Platforms.antt =====
-- rockspec/platforms.go: the platforms of the running system, and the overlays that are merged for them.
pub mod Merge
use go_luarocks.Prelude.{
  ◌||◌, Option, none, some, List, [], ◌∷◌, ◌++◌, Bytes, codes, same, if◌then◌else◌, Map, lookup,
  insert, copy_into, length, drop, ltb, ◌==◌,
}
use go_luarocks.Types.{ExternalDep, SourceFields, Module, BuildInstall, BuildFields, Rockspec}

-- runtimePlatformsFor
unfoldable pub runtime_platforms_for : Bytes → List Bytes
unfolding same
runtime_platforms_for goos =
    if same goos (codes "linux")
    then codes "unix" ∷ codes "linux" ∷ []
    else if same goos (codes "darwin")
    then codes "unix" ∷ codes "bsd" ∷ codes "macosx" ∷ []
    else if same goos (codes "freebsd")
        || (same goos (codes "openbsd")
            || (same goos (codes "netbsd") || same goos (codes "dragonfly")))
    then codes "unix" ∷ codes "bsd" ∷ goos ∷ []
    else codes "unix" ∷ []

-- if src.F != "" { dst.F = src.F }
unfoldable pub over_text : Bytes → Bytes → Bytes
over_text dst [] = dst
over_text dst (c ∷ s) = c ∷ s

unfoldable pub merge_source : SourceFields → SourceFields → SourceFields
unfolding over_text
merge_source dst src = record dst {
  url = over_text dst.url src.url;
  tag = over_text dst.tag src.tag;
  branch = over_text dst.branch src.branch;
  md5 = over_text dst.md5 src.md5;
  file = over_text dst.file src.file;
  dir = over_text dst.dir src.dir;
  module_name = over_text dst.module_name src.module_name;
}

-- The loop over an override list: override[i] replaces base[i], or is appended. mergeDepList, and
-- CopyDirectories in mergeBuild.
unfoldable pub merge_dep_list {ℓ} : {A : Type ℓ} → List A → List A → List A
merge_dep_list base [] = base
merge_dep_list [] (d ∷ over) = d ∷ merge_dep_list [] over
merge_dep_list (b ∷ base) (d ∷ over) = d ∷ merge_dep_list base over

-- mergeExternalDeps
unfoldable pub merge_external_deps : Map ExternalDep → Map ExternalDep → Map ExternalDep
unfolding copy_into
merge_external_deps base over = copy_into base over

-- mergeList
unfoldable pub merge_list : List Bytes → List Bytes → List Bytes
merge_list dst src =
    if length src == 0
    then dst
    else src ++ (if ltb (length src) (length dst) then drop (length src) dst else [])

-- mergeStringMap
unfoldable pub merge_string_map : Map Bytes → Map Bytes → Map Bytes
unfolding copy_into
merge_string_map dst src = if length src == 0 then dst else copy_into dst src

unfoldable pub merge_module : Module → Module → Module
unfolding over_text merge_list
merge_module dst src = record {
  path = over_text dst.path src.path;
  sources = merge_list dst.sources src.sources;
  incdirs = merge_list dst.incdirs src.incdirs;
  libdirs = merge_list dst.libdirs src.libdirs;
  libraries = merge_list dst.libraries src.libraries;
  defines = merge_list dst.defines src.defines;
}

-- The body of the loop of mergeModules.
unfoldable pub merge_entry : Map Module → Bytes → Module → Map Module
unfolding merge_module insert lookup
merge_entry dst k s = elim (lookup k dst) [
  | some base ↦ insert k (merge_module base s) dst
  | none ↦ insert k s dst
]

-- mergeModules; the keys of `src` differ, so the order in which Go visits them does not show.
unfoldable pub merge_modules : Map Module → Map Module → Map Module
unfolding merge_entry
merge_modules dst [] = dst
merge_modules dst ((k, s) ∷ src) = merge_modules (merge_entry dst k s) src

unfoldable pub merge_install : BuildInstall → BuildInstall → BuildInstall
unfolding merge_string_map
merge_install dst src = record {
  lua = merge_string_map dst.lua src.lua;
  lib = merge_string_map dst.lib src.lib;
  bin = merge_string_map dst.bin src.bin;
  conf = merge_string_map dst.conf src.conf;
}

unfoldable pub merge_build : BuildFields → BuildFields → BuildFields
unfolding over_text merge_dep_list merge_modules merge_string_map merge_install
merge_build dst src = record dst {
  type = over_text dst.type src.type;
  build_target = over_text dst.build_target src.build_target;
  install_target = over_text dst.install_target src.install_target;
  build_command = over_text dst.build_command src.build_command;
  install_command = over_text dst.install_command src.install_command;
  copy_directories = merge_dep_list dst.copy_directories src.copy_directories;
  modules = merge_modules dst.modules src.modules;
  variables = merge_string_map dst.variables src.variables;
  build_variables = merge_string_map dst.build_variables src.build_variables;
  install_variables = merge_string_map dst.install_variables src.install_variables;
  install = merge_install dst.install src.install;
}

-- overlay, ok := platforms[name]; with `ok` the merge is made.
unfoldable pub with_overlay {ℓ} : {A : Type ℓ} {B : Type 0} → (A → B → A) → A → Option B → A
with_overlay merge base none = base
with_overlay merge base (some overlay) = merge base overlay

module _ {N : Type 0} where
  -- The body of the loop of MergePlatforms.
  unfoldable pub merge_platform : Rockspec N → Bytes → Rockspec N
  unfolding with_overlay merge_build merge_source merge_dep_list merge_external_deps lookup
  merge_platform spec name = record spec {
    build = record spec.build {
      fields = with_overlay merge_build spec.build.fields (lookup name spec.build.platforms);
    };
    source = record spec.source {
      fields = with_overlay merge_source spec.source.fields (lookup name spec.source.platforms);
    };
    dependencies =
        with_overlay merge_dep_list spec.dependencies (lookup name spec.dependencies_platforms);
    build_dependencies =
        with_overlay merge_dep_list spec.build_dependencies
          (lookup name spec.build_dependencies_platforms);
    test_dependencies =
        with_overlay merge_dep_list spec.test_dependencies
          (lookup name spec.test_dependencies_platforms);
    external_dependencies =
        with_overlay merge_external_deps spec.external_dependencies
          (lookup name spec.external_dependencies_platforms);
  }

  unfoldable pub merge_all : Rockspec N → List Bytes → Rockspec N
  unfolding merge_platform
  merge_all spec [] = spec
  merge_all spec (name ∷ plats) = merge_all (merge_platform spec name) plats

  -- The end of MergePlatforms: the overlays are dropped.
  unfoldable pub clear_platforms : Rockspec N → Rockspec N
  clear_platforms spec = record spec {
    build = record spec.build { platforms = [] };
    source = record spec.source { platforms = [] };
    dependencies_platforms = [];
    build_dependencies_platforms = [];
    test_dependencies_platforms = [];
    external_dependencies_platforms = [];
  }

  unfoldable pub merge_platforms : Rockspec N → List Bytes → Rockspec N
  unfolding merge_all clear_platforms
  merge_platforms spec plats = clear_platforms (merge_all spec plats)
