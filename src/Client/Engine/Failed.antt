-- ===== src/Client/Engine/Failed.antt =====
-- What deployRock of client/native.go leaves behind where it fails, with the manifest files of FileStore.
use go_luarocks.Prelude.{
  ◌≡◌, refl, sym, subst, ◌∙◌, false, Bytes, codes, List, [], ◌∷◌, ◌++◌, Result-cases, ok, err, same,
  inl, inr, arith,
}
use go_luarocks.Types.{Rockspec, Manifest, RockManifest}
use go_luarocks.Files.FilePath.{join₂}
use go_luarocks.Files.Disk.{Disk, Fault, M, continue, mkdir_all, read_file}
use go_luarocks.Files.Disk.Content.{
  content_at, Keeps, content_at-mkdir_all, read_file-Keeps, continue-failed, continue-ok_elim,
  continue-keeps,
}
use go_luarocks.Deps.Float.{Float}
use go_luarocks.Manif.Value.{FloatText, object, no_fields, field}
use go_luarocks.Manif.Parser.{parse}
use go_luarocks.Manif.Store.{rock_manifest_to_table, manifest_to_table}
use go_luarocks.Manif.Store.Decode.{Conversion}
use go_luarocks.Manif.Store.FileStore.{parse_map, read_tree, write_tree, write_rock, file_store}
use go_luarocks.Manif.Store.Atomic.{content_at-write_atomic_failed, write_atomic-Keeps}
use go_luarocks.Tree.Layout.{Tree, open_tree, mkdir_each, install_dir, rocks_dir, tree_dirs}
use go_luarocks.Client.Source.{check_supported_platforms}
use go_luarocks.Client.Engine.{Config, read_tree_manifest, tree_for, deploy_rock, record_rock}

-- The manifest files that deployRock writes: that of the rock and that of the tree.
abbrev pub rock_file : {N : Type 0} → Bytes → Rockspec N → Bytes
rock_file root spec =
    join₂ (install_dir root spec.package_name spec.version) (codes "rock_manifest")

abbrev pub tree_file : Bytes → Bytes
tree_file root = join₂ (rocks_dir root) (codes "manifest")

mkdir_each-Keeps : (q : Bytes) (ps : List Bytes) → Keeps q (mkdir_each ps)
unfolding mkdir_each
mkdir_each-Keeps q [] d = refl
mkdir_each-Keeps q (p ∷ ps) d =
    continue-keeps (mkdir_all p d) _ d q (content_at-mkdir_all p d q)
      (λ d1 _. mkdir_each-Keeps q ps d1)

open_tree-Keeps : (q root : Bytes) → Keeps q (open_tree root)
unfolding open_tree
open_tree-Keeps q [] d = refl
open_tree-Keeps q (c ∷ root) d =
    continue-keeps (mkdir_each (tree_dirs (c ∷ root)) d) _ d q
      (mkdir_each-Keeps q (tree_dirs (c ∷ root)) d) (λ d1 _. refl)

open_tree-root :
    (root : Bytes) (d d1 : Disk) (t : Tree) → open_tree root d ≡ (d1, ok t) → t.root ≡ root
unfolding open_tree
open_tree-root [] d d1 t h = absurd (ground (arith, h))
open_tree-root (c ∷ root) d d1 t h =
    continue-ok_elim (mkdir_each (tree_dirs (c ∷ root)) d) _ d1 t h
      (λ d2 _ _ made. ground (arith, made))

module _ (N : Type 0) ⦃ft : FloatText N⦄ ⦃conv : Conversion N⦄ ⦃fl : Float N⦄ where
  parse_map-Keeps : (q text : Bytes) → Keeps q (parse_map {N = N} text)
  unfolding parse_map
  parse_map-Keeps q text d = elim (Result-cases (parse {N = N} text)) [
    | inl (v, e) ↦ rw (parse_map, e) refl
    | inr (f, e) ↦ rw (parse_map, e) refl
  ]

  read_tree-Keeps : (q root : Bytes) → Keeps q (read_tree N root)
  unfolding read_tree
  read_tree-Keeps q root d =
      continue-keeps (read_file (join₂ root (codes "manifest")) d) _ d q
        (read_file-Keeps (join₂ root (codes "manifest")) q d)
        (λ d1 text.
          continue-keeps (parse_map text d1) _ d1 q (parse_map-Keeps q text d1) (λ d2 top. refl))

  read_tree_manifest-Keeps : (q : Bytes) (t : Tree) → Keeps q (read_tree_manifest (file_store N) t)
  unfolding read_tree_manifest
  read_tree_manifest-Keeps q t d = ground (arith, read_tree-Keeps q (rocks_dir t.root) d)

  write_rock-Keeps :
      (q path : Bytes) (rm : RockManifest)
      → same path q ≡ false
      → same (path ++ codes ".tmp") q ≡ false
      → Keeps q (write_rock N path rm)
  unfolding write_rock
  write_rock-Keeps q path rm n n' =
      write_atomic-Keeps path q
        (object
          (field (codes "rock_manifest") (object (rock_manifest_to_table {N = N} rm)) no_fields))
        n n'

  write_tree-failed :
      (root : Bytes) (m : Manifest N) (q : Bytes) (d d' : Disk) (e : Fault)
      → same (tree_file root ++ codes ".tmp") q ≡ false
      → write_tree N (rocks_dir root) m d ≡ (d', err e)
      → content_at d' q ≡ content_at d q
  unfolding write_tree
  write_tree-failed root m q d d' e n h =
      content_at-write_atomic_failed (tree_file root) q (object (manifest_to_table m)) d d' e h n

  -- The two writes at the end of deployRock.
  manifests-failed :
      (root : Bytes) (spec : Rockspec N) (rm : RockManifest) (m : Manifest N) (q : Bytes)
      (d d' : Disk) (e : Fault)
      → same (rock_file root spec) q ≡ false
      → same (rock_file root spec ++ codes ".tmp") q ≡ false
      → same (tree_file root ++ codes ".tmp") q ≡ false
      → continue (write_rock N (rock_file root spec) rm d) (λ _. write_tree N (rocks_dir root) m)
        ≡ (d', err e)
      → content_at d' q ≡ content_at d q
  manifests-failed root spec rm m q d d' e n n' n'' failed =
      continue-failed (write_rock N (rock_file root spec) rm d) _ d d' e q
        (write_rock-Keeps q (rock_file root spec) rm n n' d)
        (λ d1 _ _ k h. write_tree-failed root m q d1 d' e n'' h ∙ k) failed

  -- Where deployRock fails at whatever step, with the manifest files of FileStore and a deploy
  -- function that leaves a file as it is, this file has the content that it had before, be it the
  -- manifest of the tree; the manifest of the rock and the two temporary files are the exceptions.
  pub content_at-deploy_rock_failed :
      (cfg : Config) (spec : Rockspec N) (deploy_files : Tree → M RockManifest) (q : Bytes)
      (d d' : Disk) (e : Fault)
      → ((t : Tree) → Keeps q (deploy_files t))
      → deploy_rock cfg (file_store N) spec deploy_files d ≡ (d', err e)
      → same (rock_file cfg.tree spec) q ≡ false
      → same (rock_file cfg.tree spec ++ codes ".tmp") q ≡ false
      → same (tree_file cfg.tree ++ codes ".tmp") q ≡ false
      → content_at d' q ≡ content_at d q
  unfolding deploy_rock
  content_at-deploy_rock_failed cfg spec deploy_files q d d' e keeps failed n n' n'' =
      continue-failed (d, check_supported_platforms spec cfg.platforms) _ d d' e q refl
        (λ d1 _ _ k1 h1.
          continue-failed (open_tree cfg.tree d1) _ d d' e q (open_tree-Keeps q cfg.tree d1 ∙ k1)
            (λ d2 t opened k2 h2.
              let at_root = open_tree-root cfg.tree d1 d2 t opened in
              continue-failed (read_tree_manifest (file_store N) t d2) _ d d' e q
                (read_tree_manifest-Keeps q t d2 ∙ k2)
                (λ d3 m _ k3 h3.
                  continue-failed (deploy_files (tree_for cfg (file_store N) spec m t) d3) _ d d' e
                    q (keeps (tree_for cfg (file_store N) spec m t) d3 ∙ k3)
                    (λ d4 rm _ k4 h4.
                      manifests-failed t.root spec rm (record_rock spec rm m) q d4 d' e
                        (subst (λ r. same (rock_file r spec) q ≡ false) (sym at_root) n)
                        (subst (λ r. same (rock_file r spec ++ codes ".tmp") q ≡ false)
                          (sym at_root) n')
                        (subst (λ r. same (tree_file r ++ codes ".tmp") q ≡ false) (sym at_root)
                          n'')
                        h4
                      ∙ k4)
                    h3)
                h2)
            h1)
        failed
