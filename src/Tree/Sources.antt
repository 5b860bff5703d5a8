-- ===== src/Tree/Sources.antt =====
-- tree/deploy.go: where a module's artifact is found, and where it goes.
use go_luarocks.Prelude.{
  Bool, true, false, ◌||◌, Option, none, some, [], ◌∷◌, ◌++◌, Bytes, codes, same, if◌then◌else◌,
}
use go_luarocks.Types.{Module}
use go_luarocks.Files.Strings.{has_suffix, replace_byte, cut_last, to_lower}
use go_luarocks.Files.FilePath.{slash, join, join₂, ext, base}
use go_luarocks.Tree.Layout.{deploy_lua_dir, deploy_lib_dir}

pub data Kind : Type 0 where
  lua lib : Kind

pub record Artifact : Type 0 where
  pub source : Bytes
  pub target : Bytes
  pub kind : Kind

-- The extensions by which resolveModule tells the kinds of paths.
pub data PathKind : Type 0 where
  lua_source prebuilt compiled unsupported : PathKind

unfoldable pub path_kind : Bytes → PathKind
unfolding same
path_kind e =
    if same e (codes ".lua")
    then lua_source
    else if same e (codes ".so") || same e (codes ".dylib")
    then prebuilt
    else if same e (codes ".c")
        || (same e (codes ".cpp") || (same e (codes ".cxx") || same e (codes ".cc")))
    then compiled
    else unsupported

-- What the build leaves for a module, below lib of its directory.
unfoldable pub built_module : Bytes → Bytes → Bytes → Artifact
built_module build_dir root slashed = record {
  source = join (build_dir ∷ codes "lib" ∷ (slashed ++ codes ".so") ∷ []);
  target = join₂ (deploy_lib_dir root) (slashed ++ codes ".so");
  kind = lib;
}

-- resolveModule; `none` is its two errors.
unfoldable pub resolve_module : Bytes → Bytes → Bytes → Module → Bytes → Option Artifact
unfolding path_kind built_module ext
resolve_module src_dir build_dir name mod_ root =
    let slashed = replace_byte b'.' slash name in
    elim (mod_.path) [
      | c ∷ path ↦ elim (path_kind (to_lower (ext (c ∷ path)))) [
        | lua_source ↦ some (record {
          source = join₂ src_dir (c ∷ path);
          target = join₂ (deploy_lua_dir root) (slashed ++ codes ".lua");
          kind = lua;
        })
        | prebuilt ↦ some (record {
          source = join₂ src_dir (c ∷ path);
          target = join₂ (deploy_lib_dir root) (slashed ++ codes ".so");
          kind = lib;
        })
        | compiled ↦ some (built_module build_dir root slashed)
        | unsupported ↦ none
      ]
      | [] ↦ elim (mod_.sources) [
        | [] ↦ none
        | s ∷ sources ↦ some (built_module build_dir root slashed)
      ]
    ]

-- moduleToPathDir
unfoldable pub module_to_path_dir : Bytes → Bytes
unfolding cut_last
module_to_path_dir name = elim (cut_last b'.' name) [
  | none ↦ []
  | some (before, after) ↦ replace_byte b'.' slash (before ++ b'.' ∷ [])
]

-- moduleLastSegment
unfoldable pub module_last_segment : Bytes → Bytes
unfolding cut_last
module_last_segment name = elim (cut_last b'.' name) [ none ↦ name | some (before, after) ↦ after ]

-- The file name in installDest.
unfoldable pub install_name : Bytes → Bytes → Bytes
unfolding base has_suffix module_last_segment
install_name key source =
    if has_suffix (to_lower (base source)) (codes ".lua")
    then module_last_segment key ++ codes ".lua"
    else base source

-- installDest
unfoldable pub install_dest : Bytes → Bytes → Bytes → Bool → Bytes
unfolding install_name module_to_path_dir
install_dest dir key source false = join₂ dir key
install_dest dir key source true =
    join (dir ∷ module_to_path_dir key ∷ install_name key source ∷ [])

-- deployDirForKind
unfoldable pub deploy_dir_for_kind : Bytes → Kind → Bytes
deploy_dir_for_kind root lua = deploy_lua_dir root
deploy_dir_for_kind root lib = deploy_lib_dir root
