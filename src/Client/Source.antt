-- ===== src/Client/Source.antt =====
-- client/native.go: what is decided about an artifact and its sources before a rock is deployed.
pub mod Supported
use go_luarocks.Prelude.{
  ℕ, zero, suc, Bool, true, false, not, ◌||◌, Option, none, some, List, [], ◌∷◌, ◌++◌, Bytes, codes,
  same, Result, ok, err, Map, insert, if◌then◌else◌, length, drop, contains, ◌==◌,
}
use go_luarocks.Files.Strings.{has_prefix, has_suffix, cut_last, to_lower}
use go_luarocks.Files.FilePath.{join₂, base}
use go_luarocks.Files.Disk.{Disk, M, Fault, other, pure, ◌>>=◌, continue, is_dir, read_dir}
use go_luarocks.Types.{Rockspec, Build, BuildFields}

-- artifactKind
pub data ArtifactKind : Type 0 where
  rockspec_artifact source_rock_artifact binary_rock_artifact : ArtifactKind

-- kindOf
unfoldable pub kind_of : Bytes → ArtifactKind
unfolding has_suffix
kind_of url =
    let lower = to_lower url in
    if has_suffix lower (codes ".src.rock")
    then source_rock_artifact
    else if has_suffix lower (codes ".rock")
    then binary_rock_artifact
    else rockspec_artifact

-- strings.ReplaceAll of a text by nothing. Each round takes a byte at least.
unfoldable pub remove_text : ℕ → Bytes → Bytes → Bytes
unfolding has_prefix
remove_text zero pat s = s
remove_text (suc fuel) pat [] = []
remove_text (suc fuel) pat (c ∷ s) = elim (has_prefix (c ∷ s) pat) [
  | true ↦ remove_text fuel pat (drop (length pat) (c ∷ s))
  | false ↦ c ∷ remove_text fuel pat s
]

-- `known` of deduceBaseDir
abbrev pub known_extensions : List Bytes
known_extensions =
    codes "zip" ∷ codes "git" ∷ codes "tgz" ∷ codes "tar" ∷ codes "gz" ∷ codes "bz2" ∷ []

unfoldable pub drop_extension : Bytes → Bytes
unfolding cut_last contains
drop_extension name = elim (cut_last b'.' name) [
  | none ↦ name
  | some (before, after) ↦ if contains known_extensions after then before else name
]

-- deduceBaseDir
unfoldable pub deduce_base_dir : Bytes → Bytes
unfolding base drop_extension remove_text
deduce_base_dir url =
    let name = drop_extension (base url) in remove_text (length name) (codes ".tar") name

-- The directory of that name below, where the name is one and it is there.
unfoldable pub named_dir : Bytes → Bytes → Disk → Option Bytes
unfolding is_dir
named_dir dir [] d = none
named_dir dir (c ∷ name) d =
    if is_dir d (join₂ dir (c ∷ name)) then some (join₂ dir (c ∷ name)) else none

unfoldable pub lone_dir : Bytes → List Bytes → Disk → Bytes
unfolding is_dir
lone_dir dir [] d = dir
lone_dir dir (n ∷ []) d = if is_dir d (join₂ dir n) then join₂ dir n else dir
lone_dir dir (n ∷ m ∷ ns) d = dir

-- checkSupportedPlatforms, behind the first entries: whether all of them were negative.
unfoldable pub check_entries : List Bytes → Bool → List Bytes → Result Fault (Unit {0})
unfolding contains
check_entries plats all_negative [] =
    if all_negative then ok tt else err (other (codes "does not support the current platform"))
check_entries plats all_negative ([] ∷ entries) =
    if contains plats [] then ok tt else check_entries plats false entries
check_entries plats all_negative ((c ∷ entry) ∷ entries) = elim (c == b'!') [
  | true ↦ elim (contains plats entry) [
    | true ↦ err (other (codes "does not support platforms"))
    | false ↦ check_entries plats all_negative entries
  ]
  | false ↦ elim (contains plats (c ∷ entry)) [
    | true ↦ ok tt
    | false ↦ check_entries plats false entries
  ]
]

abbrev pub empty_build : Build
empty_build = record {
  fields = record {
    type = [];
    modules = [];
    install = record { lua = []; lib = []; bin = []; conf = [] };
    copy_directories = [];
    variables = [];
    makefile = [];
    build_target = [];
    build_variables = [];
    install_target = [];
    install_variables = [];
    build_pass = none;
    install_pass = none;
    build_command = [];
    install_command = [];
  };
  platforms = [];
}

-- The entries of bin/ that are files.
unfoldable pub bin_scripts : Bytes → List Bytes → Disk → Map Bytes → Map Bytes
unfolding is_dir insert
bin_scripts dir [] d out = out
bin_scripts dir (n ∷ ns) d out = elim (is_dir d (join₂ dir n)) [
  | true ↦ bin_scripts dir ns d out
  | false ↦ bin_scripts dir ns d (insert n (join₂ (codes "bin") n) out)
]

abbrev pub with_bin : BuildFields → Map Bytes → BuildFields
with_bin b bin = record b { install = record b.install { bin = bin } }

-- One directory of binarySpec.
unfoldable pub binary_entry : Bytes → Bytes → BuildFields → M BuildFields
unfolding bin_scripts
binary_entry rock_dir name b =
    if same name (codes "lua") || same name (codes "lib")
    then pure b
    else if same name (codes "bin")
    then (do
      bins ← read_dir (join₂ rock_dir (codes "bin"))
      λ d. (d, ok (with_bin b (bin_scripts (join₂ rock_dir (codes "bin")) bins d []))))
    else pure (record b { copy_directories = b.copy_directories ++ name ∷ [] })

unfoldable pub binary_entries : Bytes → List Bytes → BuildFields → M BuildFields
unfolding binary_entry is_dir
binary_entries rock_dir [] b d = (d, ok b)
binary_entries rock_dir (n ∷ ns) b d = elim (is_dir d (join₂ rock_dir n)) [
  | false ↦ binary_entries rock_dir ns b d
  | true ↦ (do b' ← binary_entry rock_dir n b; binary_entries rock_dir ns b') d
]

module _ {N : Type 0} where
  -- The archive name that the directory is inferred from.
  unfoldable pub archive_name : Rockspec N → Bytes
  archive_name spec = elim (spec.source.file) [ [] ↦ spec.source.url | c ∷ file ↦ c ∷ file ]

  unfoldable pub inferred_name : Rockspec N → Bytes
  unfolding archive_name deduce_base_dir
  inferred_name spec = elim (archive_name spec) [ [] ↦ [] | c ∷ src ↦ deduce_base_dir (c ∷ src) ]

  -- findSourceBaseDir
  unfoldable pub find_source_base_dir : Bytes → Rockspec N → M Bytes
  unfolding named_dir inferred_name lone_dir
  find_source_base_dir dir spec d = elim (named_dir dir spec.source.dir d) [
    | some cand ↦ (d, ok cand)
    | none ↦ elim (named_dir dir (inferred_name spec) d) [
      | some cand ↦ (d, ok cand)
      | none ↦ (do names ← read_dir dir; λ e. (e, ok (lone_dir dir names e))) d
    ]
  ]

  -- checkSupportedPlatforms
  unfoldable pub check_supported_platforms : Rockspec N → List Bytes → Result Fault (Unit {0})
  unfolding check_entries
  check_supported_platforms spec plats = check_entries plats true spec.supported_platforms

  -- wrapBinScripts
  unfoldable pub wrap_bin_scripts : Rockspec N → Bool
  wrap_bin_scripts spec = elim (spec.deploy.wrap_bin_scripts) [ some wrap ↦ wrap | none ↦ true ]

  -- binarySpec
  unfoldable pub binary_spec : Rockspec N → Bytes → M (Rockspec N)
  unfolding binary_entries
  binary_spec spec rock_dir = do
    names ← read_dir rock_dir
    b ← binary_entries rock_dir names empty_build.fields
    pure (record spec { build = record { fields = b; platforms = [] } })
