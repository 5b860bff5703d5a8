-- ===== src/Tree/Deploy/Placed.antt =====
-- What the copy of one file in tree/deploy.go leaves on the disk.
use go_luarocks.Prelude.{
  ℕ, ◌≡◌, refl, sym, ◌∙◌, ap, true, false, ◌&&◌, Option, none, some, [], arith, Bytes, same,
  same_refl, ok, if◌then◌else◌,
}
use go_luarocks.Deps.Float.{Float}
use go_luarocks.Types.{Rockspec}
use go_luarocks.Files.FilePath.{dir, rel}
use go_luarocks.Files.Disk.{
  Disk, Fault, other, not_exist, lift, stat, is_dir, mkdir_all, read_file, write_file,
}
use go_luarocks.Files.Disk.Content.{
  continue-ok_elim, content_at, content_at-mkdir_all, content_at-write_file, content_at-read_file,
  content_at→not_dir,
}
use go_luarocks.Tree.Layout.{Tree}
use go_luarocks.Tree.Conflicts.{resolve_spot, munged_path, current_provider, wins, takes_plain}
use go_luarocks.Tree.Conflicts.Spots.{spot, after_spot, saved_at, resolve_spot-after_spot}
use go_luarocks.Tree.Deploy.{Host, copy_file, identity, place}

lift-ok :
    {A : Type 0} (e : Fault) (o : Option A) (d d' : Disk) (a : A)
    → lift e o d ≡ (d', ok a)
    → (d ≡ d') × (o ≡ some a)
lift-ok e none d d' a h = absurd (ground arith)
lift-ok e (some b) d d' a h = (ground arith, ground arith)

-- A copy to another path that succeeds: the content is that of the source, and so is the sum.
unfoldable pub Copied : Host → Bytes → Bytes → (Bytes → Option Bytes) → Disk → Bytes → Type 0
Copied host src dst before d' sum =
    (c : Bytes) × (before src ≡ some c)
    × (sum ≡ host.md5_hex c)
    × ((q : Bytes) → content_at d' q ≡ (if same dst q then some c else before q))

-- The target emptied, the source read, and the target written.
rewrite_file :
    (src dst c : Bytes) (mode : ℕ) (d d3 d4 d5 : Disk)
    → same dst src ≡ false
    → write_file dst [] mode d ≡ (d3, ok tt)
    → read_file src d3 ≡ (d4, ok c)
    → write_file dst c mode d4 ≡ (d5, ok tt)
    → (content_at d src ≡ some c)
      × ((q : Bytes) → content_at d5 q ≡ (if same dst q then some c else content_at d q))
rewrite_file src dst c mode d d3 d4 d5 n emptied got written =
    let (stays, there) = content_at-read_file src c d3 d4 got in
    let first = content_at-write_file dst [] mode d d3 in
    let second = content_at-write_file dst c mode d4 d5 in
    (ground (arith, first src emptied), λ q. ground (arith, first q emptied, second q written))

made_dir :
    (p : Bytes) (d d1 : Disk)
    → mkdir_all p d ≡ (d1, ok tt)
    → (q : Bytes) → content_at d1 q ≡ content_at d q
made_dir p d d1 h q = ap (λ r. content_at r.0 q) (sym h) ∙ content_at-mkdir_all p d q

pub copy_file-Copied :
    (host : Host) (src dst : Bytes) (mode : ℕ) (d d' : Disk) (sum : Bytes)
    → same dst src ≡ false
    → copy_file host src dst mode d ≡ (d', ok sum)
    → Copied host src dst (content_at d) d' sum
unfolding copy_file Copied
copy_file-Copied host src dst mode d d' sum n h =
    continue-ok_elim (mkdir_all (dir dst) d) _ d' sum h (λ d1 u1 made k1.
      continue-ok_elim (lift (not_exist src) (stat d1 src) d1) _ d' sum k1 (λ d2 node found k2.
        continue-ok_elim (write_file dst [] mode d2) _ d' sum k2 (λ d3 u3 emptied k3.
          continue-ok_elim (read_file src d3) _ d' sum k3 (λ d4 c got k4.
            continue-ok_elim (write_file dst c mode d4) _ d' sum k4 (λ d5 u5 written k5.
              let (stays, there) = lift-ok (not_exist src) (stat d1 src) d1 d2 node found in
              let kept : (q : Bytes) → content_at d2 q ≡ content_at d q =
                λ q. rw (← stays) (made_dir (dir dst) d d1 made q) in
              let done : d5 ≡ d' = ground arith in
              let (at_src, at) = rewrite_file src dst c mode d2 d3 d4 d5 n emptied got written in
              (c, sym (kept src) ∙ at_src, ground arith, λ q. rw (← done, at q, kept q) refl))))))

before-Copied :
    (host : Host) (src dst : Bytes) (before after : Bytes → Option Bytes) (d : Disk) (sum : Bytes)
    → ((q : Bytes) → before q ≡ after q)
    → Copied host src dst before d sum
    → Copied host src dst after d sum
unfolding Copied
before-Copied host src dst before after d sum h (c, at_src, at_sum, at) =
    (c, sym (h src) ∙ at_src, at_sum, λ q. at q ∙ ap (λ b. if same dst q then some c else b) (h q))

module _ {N : Type 0} (fl : Float N) (host : Host) (t : Tree) (spec : Rockspec N) where
  -- Where the plain path is no directory, the spot is not the source, and a stage of Deploy puts a
  -- file in its place without error, the file at the spot has the content that the source had once
  -- resolveSpot was done, the recorded sum is the md5 of that content, the recorded path is that
  -- of the spot below the deploy directory, and the other files are as resolveSpot left them.
  pub place-Copied :
      (deploy_dir plain item src : Bytes) (mode : ℕ) (d d' : Disk) (path sum : Bytes)
      → is_dir d plain ≡ false
      → same (spot fl t deploy_dir plain item (identity fl host t spec)) src ≡ false
      → place fl host t spec deploy_dir plain item src mode d ≡ (d', ok (path, sum))
      → (rel deploy_dir (spot fl t deploy_dir plain item (identity fl host t spec)) ≡ some path)
        × Copied host src
            (spot fl t deploy_dir plain item (identity fl host t spec))
            (after_spot fl t deploy_dir plain item (identity fl host t spec) d)
            d'
            sum
  unfolding place Copied
  place-Copied deploy_dir plain item src mode d d' path sum n ne h =
      continue-ok_elim (resolve_spot fl t deploy_dir plain item (spec.package_name, spec.version) d)
        _ d' (path, sum) h
        (λ d1 final found k1.
          continue-ok_elim (copy_file host src final mode d1) _ d' (path, sum) k1
            (λ d2 sum' copied k2.
              continue-ok_elim (lift (other final) (rel deploy_dir final) d2) _ d' (path, sum) k2
                (λ d3 path' related k3.
                  let (stays, is_rel) =
                    lift-ok (other final) (rel deploy_dir final) d2 d3 path' related in
                  let (at_spot, cleared) =
                    resolve_spot-after_spot fl t deploy_dir plain item
                      (spec.package_name, spec.version) d d1 final n found in
                  let target_other : same final src ≡ false = rw at_spot ne in
                  let from_cleared =
                    before-Copied host src final _ _ d2 sum' cleared
                      (copy_file-Copied host src final mode d1 d2 sum' target_other copied) in
                  let done : d2 ≡ d' = stays ∙ ground arith in
                  let same_path : path' ≡ path = ground arith in
                  let same_sum : sum' ≡ sum = ground arith in
                  rw (← at_spot, ← done, ← same_path, ← same_sum) (is_rel, from_cleared))))

  -- A new rock that takes the plain path from another one.
  abbrev GivesWay : Bytes → Bytes → Bytes → Bytes × Bytes → Type 0
  GivesWay deploy_dir plain item old =
      (current_provider t item ≡ some old)
      × (wins fl (identity fl host t spec) old ≡ true)
      × ((same old.0 spec.package_name && same old.1 spec.version) ≡ false)
      × (same plain (munged_path deploy_dir plain old.0 old.1) ≡ false)

  place_over :
      (deploy_dir plain item src : Bytes) (mode : ℕ) (old : Bytes × Bytes) (d d' : Disk)
      (path sum c : Bytes)
      → GivesWay deploy_dir plain item old
      → same plain src ≡ false
      → content_at d plain ≡ some c
      → place fl host t spec deploy_dir plain item src mode d ≡ (d', ok (path, sum))
      → (content_at d' (munged_path deploy_dir plain old.0 old.1) ≡ some c)
        × ((c' : Bytes) × (content_at d' plain ≡ some c'))
  unfolding takes_plain spot saved_at after_spot Copied
  place_over deploy_dir plain item src mode old d d' path sum c (provided, win, other_rock, apart) n
        there h =
      let me : Bytes × Bytes = (spec.package_name, spec.version) in
      let versioned = munged_path deploy_dir plain old.0 old.1 in
      let takes : takes_plain fl (current_provider t item) me ≡ true = rw provided win in
      let at_plain : spot fl t deploy_dir plain item me ≡ plain = rw takes refl in
      let cleared : after_spot fl t deploy_dir plain item me d versioned ≡ some c =
        rw (provided, win, other_rock, there, same_refl versioned) refl in
      let (is_rel, copied) =
        place-Copied deploy_dir plain item src mode d d' path sum
          (content_at→not_dir plain c d there) (rw at_plain n) h in
      let (c', at_src, at_sum, at) = copied in
      let put : (q : Bytes)
          → content_at d' q
            ≡ (if same plain q then some c' else after_spot fl t deploy_dir plain item me d q) =
        λ q.
          at q
          ∙ ap (λ p. if same p q then some c' else after_spot fl t deploy_dir plain item me d q)
              at_plain in
      (put versioned ∙ rw apart cleared, (c', put plain ∙ rw (same_refl plain) refl))

  -- Where a new rock takes the plain path from another rock, whose versioned path is another path,
  -- and two files that do not stand at the plain path are placed there one after the other, the
  -- first time the file of the old rock goes to its versioned path, and the second time the first
  -- new file takes its place there.
  pub place_twice :
      (deploy_dir plain item src src' : Bytes) (mode mode' : ℕ) (old : Bytes × Bytes)
      (d d1 d2 : Disk) (path path' sum sum' c : Bytes)
      → current_provider t item ≡ some old
      → wins fl (identity fl host t spec) old ≡ true
      → (same old.0 spec.package_name && same old.1 spec.version) ≡ false
      → same plain (munged_path deploy_dir plain old.0 old.1) ≡ false
      → same plain src ≡ false
      → same plain src' ≡ false
      → content_at d plain ≡ some c
      → place fl host t spec deploy_dir plain item src mode d ≡ (d1, ok (path, sum))
      → place fl host t spec deploy_dir plain item src' mode' d1 ≡ (d2, ok (path', sum'))
      → (content_at d1 (munged_path deploy_dir plain old.0 old.1) ≡ some c)
        × (content_at d2 (munged_path deploy_dir plain old.0 old.1) ≡ content_at d1 plain)
  place_twice deploy_dir plain item src src' mode mode' old d d1 d2 path path' sum sum' c provided
        win other_rock apart n n' there first second =
      let gives_way : GivesWay deploy_dir plain item old = (provided, win, other_rock, apart) in
      let (kept, there1) =
        place_over deploy_dir plain item src mode old d d1 path sum c gives_way n there first in
      let (c', there') = there1 in
      let (kept', again) =
        place_over deploy_dir plain item src' mode' old d1 d2 path' sum' c' gives_way n' there'
          second in
      (kept, kept' ∙ sym there')
