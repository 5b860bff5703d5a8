-- ===== src/Tree/Layout.antt =====
-- tree/paths.go and tree/tree.go: the directories of a tree, and Open; tree/which.go.
use go_luarocks.Prelude.{ℕ, Option, none, some, List, [], ◌∷◌, ◌++◌, Bytes, codes}
use go_luarocks.Files.Strings.{replace_byte}
use go_luarocks.Files.FilePath.{slash, join, join₂}
use go_luarocks.Files.Disk.{Disk, file, directory, M, other, pure, fails, ◌>>◌, mkdir_all, stat}

-- 0o750, 0o644 and 0o755
abbrev pub dir_perm : ℕ
dir_perm = 488

abbrev pub file_perm : ℕ
file_perm = 420

abbrev pub exec_perm : ℕ
exec_perm = 493

pub record BinWrap : Type 0 where
  pub interpreter : Bytes
  pub sysconfdir : Bytes

-- The handle on a tree; its store stands apart.
pub record Tree : Type 0 where
  pub root : Bytes
  pub bin_wrap : Option BinWrap
  pub provider : Option (Bytes → Option (Bytes × Bytes))

unfoldable pub rocks_dir : Bytes → Bytes
unfolding join
rocks_dir root = join (root ∷ codes "share" ∷ codes "tarantool" ∷ codes "rocks" ∷ [])

unfoldable pub install_dir : Bytes → Bytes → Bytes → Bytes
unfolding rocks_dir
install_dir root name ver = join (rocks_dir root ∷ name ∷ ver ∷ [])

unfoldable pub deploy_lua_dir : Bytes → Bytes
unfolding join
deploy_lua_dir root = join (root ∷ codes "share" ∷ codes "tarantool" ∷ [])

unfoldable pub deploy_lib_dir : Bytes → Bytes
unfolding join
deploy_lib_dir root = join (root ∷ codes "lib" ∷ codes "tarantool" ∷ [])

unfoldable pub bin_dir : Bytes → Bytes
unfolding join
bin_dir root = join₂ root (codes "bin")

unfoldable pub conf_dir : Bytes → Bytes → Bytes → Bytes
unfolding install_dir
conf_dir root name ver = join₂ (install_dir root name ver) (codes "conf")

unfoldable pub doc_dir : Bytes → Bytes → Bytes → Bytes
unfolding install_dir
doc_dir root name ver = join₂ (install_dir root name ver) (codes "doc")

unfoldable pub mkdir_each : List Bytes → M (Unit {0})
mkdir_each [] = pure tt
mkdir_each (p ∷ ps) = do mkdir_all p; mkdir_each ps

-- The directories that Open makes.
abbrev pub tree_dirs : Bytes → List Bytes
tree_dirs root = rocks_dir root ∷ deploy_lua_dir root ∷ deploy_lib_dir root ∷ bin_dir root ∷ []

-- Open
unfoldable pub open_tree : Bytes → M Tree
unfolding mkdir_each
open_tree [] = fails (other (codes "tree.Open: Config.Tree is empty"))
open_tree (c ∷ root) = do
  mkdir_each (tree_dirs (c ∷ root))
  pure (record { root = c ∷ root; bin_wrap = none; provider = none })

-- The first of the candidates that is a file.
unfoldable pub first_file : Disk → List Bytes → Option Bytes
unfolding stat
first_file d [] = none
first_file d (c ∷ cs) =
    let later = first_file d cs in
    elim (stat d c) [ none ↦ later | some n ↦ elim n [ directory ↦ later | file s m ↦ some c ] ]

unfoldable pub which_candidates : Bytes → Bytes → List Bytes
which_candidates root name =
    let slashed = replace_byte b'.' slash name in
    join₂ (deploy_lua_dir root) (slashed ++ codes ".lua")
    ∷ join (deploy_lua_dir root ∷ slashed ∷ codes "init.lua" ∷ [])
    ∷ join₂ (deploy_lib_dir root) (slashed ++ codes ".so")
    ∷ []

-- Which
unfoldable pub which : Tree → Bytes → Disk → Option Bytes
unfolding first_file which_candidates
which t name d = first_file d (which_candidates t.root name)
