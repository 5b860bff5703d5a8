-- ===== src/Tree/Deploy/Found.antt =====
-- Which of tree/which.go behind Deploy of tree/deploy.go.
use go_luarocks.Prelude.{
  ℕ, ◌≡◌, refl, ◌∙◌, true, false, Option, none, some, List, ◌∷◌, ◌++◌, arith, Bytes, codes, same,
  same_refl, ok, drop,
}
use go_luarocks.Deps.Float.{Float}
use go_luarocks.Types.{Rockspec}
use go_luarocks.Files.Strings.{replace_byte}
use go_luarocks.Files.FilePath.{slash, join₂}
use go_luarocks.Files.Disk.{Disk, Node, file, directory, stat, is_dir}
use go_luarocks.Files.Disk.Content.{content_at, node_content}
use go_luarocks.Tree.Layout.{Tree, deploy_lua_dir, first_file, which_candidates, which}
use go_luarocks.Tree.Conflicts.{current_provider, takes_plain}
use go_luarocks.Tree.Conflicts.Spots.{spot}
use go_luarocks.Tree.Deploy.{Host, identity, place}
use go_luarocks.Tree.Deploy.Placed.{Copied, place-Copied}

first_file-content_at :
    (d : Disk) (p c : Bytes) (ps : List Bytes)
    → content_at d p ≡ some c
    → first_file d (p ∷ ps) ≡ some p
unfolding content_at first_file
first_file-content_at d p c ps h = go (stat d p) h
  where
    go :
        (o : Option Node)
        → node_content o ≡ some c
        → (elim o as (λ x. Option Bytes) [
          | none ↦ first_file d ps
          | some n ↦ elim n as (λ x. Option Bytes) [
            | directory ↦ first_file d ps
            | file s m ↦ some p
          ]
        ])
          ≡ some p
    go none k = ground arith
    go (some directory) k = ground arith
    go (some (file s m)) k = refl

abbrev pub lua_path : Bytes → Bytes → Bytes
lua_path root name = join₂ (deploy_lua_dir root) (replace_byte b'.' slash name ++ codes ".lua")

module _ {N : Type 0} (fl : Float N) (host : Host) (t : Tree) (spec : Rockspec N) where
  -- Where a rock takes the plain path of a Lua module, that path is no directory, and the file
  -- that Deploy puts there does not come from that path itself, Which finds the module at that
  -- path once the file has been placed without error.
  pub which-place :
      (name item src : Bytes) (mode : ℕ) (d d' : Disk) (path sum : Bytes)
      → takes_plain fl (current_provider t item) (identity fl host t spec) ≡ true
      → is_dir d (lua_path t.root name) ≡ false
      → same (lua_path t.root name) src ≡ false
      → place fl host t spec (deploy_lua_dir t.root) (lua_path t.root name) item src mode d
        ≡ (d', ok (path, sum))
      → which t name d' ≡ some (lua_path t.root name)
  unfolding which which_candidates spot Copied
  which-place name item src mode d d' path sum takes n apart h =
      let plain = lua_path t.root name in
      let me : Bytes × Bytes = (spec.package_name, spec.version) in
      let at_plain : spot fl t (deploy_lua_dir t.root) plain item me ≡ plain = rw takes refl in
      let (is_rel, copied) =
        place-Copied fl host t spec (deploy_lua_dir t.root) plain item src mode d d' path sum n
          (rw at_plain apart) h in
      let (c, at_src, at_sum, at) = copied in
      let there : content_at d' plain ≡ some c = at plain ∙ rw (at_plain, same_refl plain) refl in
      first_file-content_at d' plain c (drop 1 (which_candidates t.root name)) there
