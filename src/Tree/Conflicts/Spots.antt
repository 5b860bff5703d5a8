-- ===== src/Tree/Conflicts/Spots.antt =====
-- What resolveSpot of tree/conflicts.go does to the files that are there.
use go_luarocks.Prelude.{
  ◌≡◌, refl, sym, ◌∙◌, ap, ap₂, Bool, true, false, ◌&&◌, Option, none, some, [], ◌∷◌, ◌++◌, arith,
  Bytes, same, ok, if◌then◌else◌, Bool-cases, inl, inr,
}
use go_luarocks.Deps.Float.{Float}
use go_luarocks.Files.FilePath.{dir}
use go_luarocks.Files.Disk.{Disk, Node, M, continue, stat, is_dir, mkdir_all, rename}
use go_luarocks.Files.Disk.Content.{
  content_at, continue-ok, content_at-mkdir_all, content_at-rename, content_at→not_dir,
  content_at-not_dir, content_at-absent, content_at→stat,
}
use go_luarocks.Tree.Layout.{Tree}
use go_luarocks.Tree.Conflicts.{munged_path, current_provider, make_room, takes_plain, resolve_spot}

-- Where the file at the plain path goes: below the versioned name of its provider, if that is another
-- rock, or to a backup, if it has none.
unfoldable pub saved_at : Bytes → Bytes → Option (Bytes × Bytes) → Bytes × Bytes → Option Bytes
saved_at deploy_dir plain none new = some (plain ++ b'~' ∷ [])
saved_at deploy_dir plain (some (name, ver)) new =
    if same name new.0 && same ver new.1 then none else some (munged_path deploy_dir plain name ver)

-- The content at `q` once the file at `plain`, with the given content, has gone to `saved`.
abbrev pub move_content : Option Bytes → Bytes → Bytes → Bytes → Option Bytes → Option Bytes
move_content none plain saved q before = before
move_content (some c) plain saved q before =
    if same saved q then some c else if same plain q then none else before

abbrev pub after_move : Bytes → Option Bytes → Disk → Bytes → Option Bytes
after_move plain none d q = content_at d q
after_move plain (some saved) d q = move_content (content_at d plain) plain saved q (content_at d q)

rename-after_move :
    (plain saved c : Bytes) (d d' : Disk) (q : Bytes)
    → content_at d plain ≡ some c
    → rename plain saved d ≡ (d', ok tt)
    → content_at d' q ≡ after_move plain (some saved) d q
rename-after_move plain saved c d d' q e h =
    let (c', e', moved) = content_at-rename plain saved d d' (content_at→not_dir plain c d e) h in
    moved q ∙ ap (λ o. move_content o plain saved q (content_at d q)) (sym e')

demote-after_move :
    (parent plain saved c : Bytes) (d d' : Disk) (q : Bytes)
    → content_at d plain ≡ some c
    → continue (mkdir_all parent d) (λ _. rename plain saved) ≡ (d', ok tt)
    → content_at d' q ≡ after_move plain (some saved) d q
demote-after_move parent plain saved c d d' q e h =
    let (d1, u, made, renamed) =
      continue-ok (mkdir_all parent d) (λ _. rename plain saved) d' tt h in
    let kept : (p : Bytes) → content_at d1 p ≡ content_at d p =
      λ p. ap (λ r. content_at r.0 p) (sym made) ∙ content_at-mkdir_all parent d p in
    rename-after_move plain saved c d1 d' q (kept plain ∙ e) renamed
    ∙ ap₂ (λ o b. move_content o plain saved q b) (kept plain) (kept q)

module _ (deploy_dir plain : Bytes) (new : Bytes × Bytes) (d d' : Disk) where
  make_room_absent :
      (current : Option (Bytes × Bytes)) (q : Bytes)
      → stat d plain ≡ none
      → make_room deploy_dir plain current new d ≡ (d', ok tt)
      → content_at d' q ≡ after_move plain (saved_at deploy_dir plain current new) d q
  unfolding make_room saved_at
  make_room_absent none q a h =
      let e : d ≡ d' = ground arith in
      let no : content_at d plain ≡ none = content_at-absent plain d a in rw (← e, no) refl
  make_room_absent (some (name, ver)) q a h =
      let e : d ≡ d' = ground arith in
      let no : content_at d plain ≡ none = content_at-absent plain d a in
      elim (Bool-cases (same name new.0 && same ver new.1)) [
        | inl own ↦ rw (own, ← e) refl
        | inr other ↦ rw (other, ← e, no) refl
      ]

  make_room_there :
      (current : Option (Bytes × Bytes)) (c : Bytes) (n : Node) (q : Bytes)
      → content_at d plain ≡ some c
      → stat d plain ≡ some n
      → make_room deploy_dir plain current new d ≡ (d', ok tt)
      → content_at d' q ≡ after_move plain (saved_at deploy_dir plain current new) d q
  unfolding make_room saved_at
  make_room_there none c n q e s h =
      rename-after_move plain (plain ++ b'~' ∷ []) c d d' q e (ground arith)
  make_room_there (some (name, ver)) c n q e s h =
      elim (Bool-cases (same name new.0 && same ver new.1)) [
        | inl own ↦ let k : d ≡ d' = ground arith in rw (own, ← k) refl
        | inr other ↦ rw other (
            let demoted = munged_path deploy_dir plain name ver in
            demote-after_move (dir demoted) plain demoted c d d' q e (ground arith))
      ]

  make_room-after_move :
      (current : Option (Bytes × Bytes)) (q : Bytes)
      → is_dir d plain ≡ false
      → make_room deploy_dir plain current new d ≡ (d', ok tt)
      → content_at d' q ≡ after_move plain (saved_at deploy_dir plain current new) d q
  make_room-after_move current q n h = elim (content_at-not_dir plain d n) [
    | inl absent ↦ make_room_absent current q absent h
    | inr (c, e) ↦
        let (node, s) = content_at→stat plain c d e in make_room_there current c node q e s h
  ]

module _ {N : Type 0} (fl : Float N) (t : Tree) (deploy_dir plain item : Bytes)
    (new : Bytes × Bytes) where
  -- The contents after resolveSpot for the path `plain`.
  unfoldable pub after_spot : Disk → Bytes → Option Bytes
  after_spot d q =
      if takes_plain fl (current_provider t item) new
      then after_move plain (saved_at deploy_dir plain (current_provider t item) new) d q
      else content_at d q

  -- The path that resolveSpot returns for the path `plain`.
  unfoldable pub spot : Bytes
  spot =
      if takes_plain fl (current_provider t item) new
      then plain
      else munged_path deploy_dir plain new.0 new.1

  -- Where the plain path is no directory and resolveSpot succeeds, it returns the plain path or,
  -- for a rock that does not take it, the versioned path; every file has the content it had, but
  -- that the file at a plain path that is taken has moved to the versioned path of its provider,
  -- if that is another rock, or to a backup name, if it has none, over what stood there.
  pub resolve_spot-after_spot :
      (d d' : Disk) (final : Bytes)
      → is_dir d plain ≡ false
      → resolve_spot fl t deploy_dir plain item new d ≡ (d', ok final)
      → (final ≡ spot) × ((q : Bytes) → content_at d' q ≡ after_spot d q)
  unfolding resolve_spot spot after_spot
  resolve_spot-after_spot d d' final n h = go (takes_plain fl (current_provider t item) new) h
    where
      current : Option (Bytes × Bytes)
      current = current_provider t item

      munged : Bytes
      munged = munged_path deploy_dir plain new.0 new.1

      go :
          (takes : Bool)
          → if◌then◌else◌ {A = M Bytes} takes
              (λ e. continue (make_room deploy_dir plain current new e) (λ u f. (f, ok plain)))
              (λ e. (e, ok munged))
              d
            ≡ (d', ok final)
          → (final ≡ (if takes then plain else munged))
            × ((q : Bytes)
                → content_at d' q ≡ (
                    if takes
                    then after_move plain (saved_at deploy_dir plain current new) d q
                    else content_at d q))
      go true k =
          let (d1, u, room, done) =
            continue-ok (make_room deploy_dir plain current new d) (λ u f. (f, ok plain)) d' final
              k in
          let same_disk : d1 ≡ d' = ground arith in
          let moved : make_room deploy_dir plain current new d ≡ (d', ok tt) =
            rw (← same_disk) room in
          (ground arith, λ q. make_room-after_move deploy_dir plain new d d' current q n moved)
      go false k = (ground arith, λ q. ap (λ e. content_at e q) (ground arith))
