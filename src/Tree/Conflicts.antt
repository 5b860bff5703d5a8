-- ===== src/Tree/Conflicts.antt =====
-- tree/conflicts.go: which rock takes the plain path of a file, and the module index of a rock.
pub mod Spots
pub mod Winner
use go_luarocks.Prelude.{
  ℕ, Bool, true, false, not, ◌||◌, ◌&&◌, Option, none, some, List, [], ◌∷◌, ◌++◌, Bytes, codes,
  same, Result, ok, err, Map, insert, if◌then◌else◌, Ordering,
}
use go_luarocks.Files.Strings.{
  has_prefix, trim_prefix, cut_suffix, replace_byte, cut_last, trim_byte, trim_left_byte,
}
use go_luarocks.Files.FilePath.{slash, dir, join₂}
use go_luarocks.Files.Disk.{Disk, Node, M, pure, ◌>>=◌, ◌>>◌, continue, mkdir_all, rename, stat}
use go_luarocks.Manif.Value.{text_lt}
use go_luarocks.Deps.Float.{Float}
use go_luarocks.Deps.Version.{parse_version, compare}
use go_luarocks.Tree.Layout.{Tree}
use go_luarocks.Types.{RockManifest}

unfoldable pub munged_version : Bytes → Bytes → Bytes
munged_version pkg ver = replace_byte b'.' b'_' (replace_byte b'-' b'_' (pkg ++ (b'_' ∷ ver)))

-- MungedPath
unfoldable pub munged_path : Bytes → Bytes → Bytes → Bytes → Bytes
unfolding munged_version
munged_path deploy_dir target pkg ver =
    join₂ deploy_dir
      (munged_version pkg ver ++ (b'-' ∷ trim_left_byte slash (trim_prefix target deploy_dir)))

-- pathToModule
unfoldable pub path_to_module : Bytes → Bytes
unfolding cut_last trim_byte
path_to_module path =
    let name : Bytes = elim (cut_last b'.' path) [ none ↦ path | some (before, after) ↦ before ] in
    trim_byte b'.' (replace_byte slash b'.' name)

-- currentProvider
unfoldable pub current_provider : Tree → Bytes → Option (Bytes × Bytes)
unfolding cut_suffix
current_provider t item = elim (t.provider) [
  | none ↦ none
  | some provider ↦ elim (provider item) [
    | some p ↦ some p
    | none ↦ elim (cut_suffix item (codes ".init")) [ none ↦ none | some base ↦ provider base ]
  ]
]

-- The part of resolveSpot that keeps what stands at the plain path.
unfoldable pub make_room : Bytes → Bytes → Option (Bytes × Bytes) → Bytes × Bytes → M (Unit {0})
make_room deploy_dir plain current new d = elim (stat d plain) [
  | none ↦ (d, ok tt)
  | some node ↦ elim current [
    | none ↦ rename plain (plain ++ b'~' ∷ []) d
    | some (name, ver) ↦
        let demoted = munged_path deploy_dir plain name ver in
        let demote = (do mkdir_all (dir demoted); rename plain demoted) in
        if same name new.0 && same ver new.1 then (d, ok tt) else demote d
  ]
]

module _ {N : Type 0} (fl : Float N) where
  -- versionGreater
  unfoldable pub version_greater : Bytes → Bytes → Bool
  version_greater a b = elim (parse_version {N = N} ⦃fl = fl⦄ a) [
    | err e ↦ false
    | ok av ↦ elim (parse_version {N = N} ⦃fl = fl⦄ b) [
      | err e ↦ false
      | ok bv ↦ elim (compare ⦃fl = fl⦄ av bv) [ Ordering.gt ↦ true | _ ↦ false ]
    ]
  ]

  -- `nv` of resolveSpot: the new rock takes the plain path from the current one.
  unfoldable pub wins : Bytes × Bytes → Bytes × Bytes → Bool
  unfolding text_lt same
  wins new current =
      text_lt new.0 current.0
      || (same new.0 current.0 && (same new.1 current.1 || version_greater new.1 current.1))

  unfoldable pub takes_plain : Option (Bytes × Bytes) → Bytes × Bytes → Bool
  unfolding wins
  takes_plain none new = true
  takes_plain (some current) new = wins new current

  -- resolveSpot
  unfoldable pub resolve_spot : Tree → Bytes → Bytes → Bytes → Bytes × Bytes → M Bytes
  resolve_spot t deploy_dir plain item new =
      let keep = (do make_room deploy_dir plain (current_provider t item) new; pure plain) in
      if takes_plain (current_provider t item) new
      then keep
      else pure (munged_path deploy_dir plain new.0 new.1)

-- The loop of ModuleIndex over the files of one directory.
unfoldable pub index_files : Bytes → Map Bytes → Map Bytes → Map Bytes
unfolding has_prefix path_to_module insert same
index_files prefix [] out = out
index_files prefix ((path, sum) ∷ files) out = index_files prefix files (
    if has_prefix path prefix || same (path_to_module path) []
    then out
    else insert (path_to_module path) path out)

-- ModuleIndex
unfoldable pub module_index : Option RockManifest → Bytes → Bytes → Map Bytes
unfolding index_files munged_version
module_index none pkg ver = []
module_index (some rm) pkg ver =
    let prefix = munged_version pkg ver ++ b'-' ∷ [] in
    index_files prefix rm.lib (index_files prefix rm.lua [])
