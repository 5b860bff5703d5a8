-- ===== src/Manif/Store/Atomic.antt =====
-- manif/store.go: what writeAtomic does to the contents of the files, where it succeeds and where it fails.
use go_luarocks.Prelude.{
  ℕ, ◌≡◌, refl, sym, ◌∙◌, ap, false, none, some, [], ◌++◌, arith, Bytes, codes, same, same_iff, ok,
  err, Result, Result-cases, Bool-cases, if◌then◌else◌, length, length-append, inl, inr,
}
use go_luarocks.Files.FilePath.{dir}
use go_luarocks.Files.Disk.{Disk, M, Fault, mkdir_all, write_file, rename, remove_path}
use go_luarocks.Files.Disk.Content.{
  content_at, Keeps, continue-ok_elim, continue-failed, content_at-mkdir_all, content_at-write_file,
  content_at-rename, content_at-remove_path, content_at→not_dir,
}
use go_luarocks.Manif.Value.{Value, FloatText}
use go_luarocks.Manif.Writer.{write}
use go_luarocks.Manif.Store.FileStore.{or_remove, created_mode, write_text, write_atomic}

-- The temporary file is another.
tmp_other : (path : Bytes) → same (path ++ codes ".tmp") path ≡ false
tmp_other path = elim (Bool-cases (same (path ++ codes ".tmp") path)) [
  | inl h ↦ absurd (
      omega (
        arith,
        ap (λ s. length {A = ℕ} s) ((same_iff (path ++ codes ".tmp") path).0 h),
        length-append {0} path (codes ".tmp"),
      ))
  | inr h ↦ h
]

-- Calls that fail have changed nothing.
write_file-failed :
    (p c : Bytes) (mode : ℕ) (d d' : Disk) (e : Fault)
    → write_file p c mode d ≡ (d', err e)
    → d' ≡ d
unfolding write_file
write_file-failed p c mode d d' e h = ground arith

rename-failed :
    (old new : Bytes) (d d' : Disk) (e : Fault) → rename old new d ≡ (d', err e) → d' ≡ d
unfolding rename
rename-failed old new d d' e h = ground arith

-- A call by its parts.
with_result : {A : Type 0} (r : Disk × Result Fault A) (a : Result Fault A) → r.1 ≡ a → r ≡ (r.0, a)
with_result r a h = ap (λ b. (r.0, b)) h

write_file-Keeps : (p c q : Bytes) (mode : ℕ) → same p q ≡ false → Keeps q (write_file p c mode)
write_file-Keeps p c q mode h d = elim (Result-cases ((write_file p c mode d).1)) [
  | inl (u, e) ↦
      content_at-write_file p c mode d (write_file p c mode d).0 q
        (with_result (write_file p c mode d) (ok tt) e)
      ∙ rw h refl
  | inr (e, failed) ↦
      ap (λ d'. content_at d' q)
        (write_file-failed p c mode d (write_file p c mode d).0 e
          (with_result (write_file p c mode d) (err e) failed))
]

remove_path-Keeps : (p q : Bytes) → same p q ≡ false → Keeps q (remove_path p)
remove_path-Keeps p q h d = content_at-remove_path p d q ∙ rw h refl

or_remove-passes :
    (tmp : Bytes) (m : M (Unit {0})) (d : Disk)
    → (m d).1 ≡ ok tt
    → or_remove tmp m d ≡ ((m d).0, ok tt)
unfolding or_remove
or_remove-passes tmp m d e = rw (or_remove, e) refl

or_remove-removes :
    (tmp : Bytes) (m : M (Unit {0})) (d : Disk) (f : Fault)
    → (m d).1 ≡ err f
    → or_remove tmp m d ≡ ((remove_path tmp (m d).0).0, err f)
unfolding or_remove
or_remove-removes tmp m d f e = rw (or_remove, e) refl

or_remove-Keeps :
    (tmp q : Bytes) (m : M (Unit {0})) → same tmp q ≡ false → Keeps q m → Keeps q (or_remove tmp m)
or_remove-Keeps tmp q m h keeps d = elim (Result-cases ((m d).1)) [
  | inl (u, e) ↦ ap (λ r. content_at r.0 q) (or_remove-passes tmp m d e) ∙ keeps d
  | inr (f, e) ↦
      ap (λ r. content_at r.0 q) (or_remove-removes tmp m d f e)
      ∙ (remove_path-Keeps tmp q h (m d).0 ∙ keeps d)
]

-- A step that succeeds, with the removal in case of failure, is the step.
or_remove-ok :
    (tmp : Bytes) (m : M (Unit {0})) (d d' : Disk)
    → or_remove tmp m d ≡ (d', ok tt)
    → m d ≡ (d', ok tt)
or_remove-ok tmp m d d' h = elim (Result-cases ((m d).1)) [
  | inl (u, e) ↦ with_result (m d) (ok tt) e ∙ (sym (or_remove-passes tmp m d e) ∙ h)
  | inr (f, e) ↦
      let same_result = ap (λ r. r.1) (sym (or_remove-removes tmp m d f e) ∙ h) in
      absurd (ground arith)
]

-- Where the renaming fails, the file is as before.
or_remove-rename-err :
    (tmp path q : Bytes) (d d' : Disk) (e : Fault)
    → same tmp q ≡ false
    → or_remove tmp (rename tmp path) d ≡ (d', err e)
    → content_at d' q ≡ content_at d q
or_remove-rename-err tmp path q d d' e n h = elim (Result-cases ((rename tmp path d).1)) [
  | inl (u, f) ↦
      let same_result = ap (λ r. r.1) (sym (or_remove-passes tmp (rename tmp path) d f) ∙ h) in
      absurd (ground arith)
  | inr (g, f) ↦
      let unchanged =
        rename-failed tmp path d (rename tmp path d).0 g
          (with_result (rename tmp path d) (err g) f) in
      ap (λ r. content_at r.0 q) (sym h ∙ or_remove-removes tmp (rename tmp path) d g f)
      ∙ (remove_path-Keeps tmp q n (rename tmp path d).0 ∙ ap (λ x. content_at x q) unchanged)
]

module _ {N : Type 0} ⦃ft : FloatText N⦄ where
  write_text-Keeps : (tmp q : Bytes) (v : Value N) → same tmp q ≡ false → Keeps q (write_text tmp v)
  unfolding write_text
  write_text-Keeps tmp q v h d = elim (Result-cases (write v)) [
    | inl (text, e) ↦ rw (write_text, e) (write_file-Keeps tmp text q created_mode h d)
    | inr (g, e) ↦ rw (write_text, e) refl
  ]

  -- Where writeAtomic fails, at whatever step, every file has the content that it had before, the
  -- one at the path to be written included; the temporary file beside it is the one exception.
  pub content_at-write_atomic_failed :
      (path q : Bytes) (v : Value N) (d d' : Disk) (e : Fault)
      → write_atomic path v d ≡ (d', err e)
      → same (path ++ codes ".tmp") q ≡ false
      → content_at d' q ≡ content_at d q
  unfolding write_atomic
  content_at-write_atomic_failed path q v d d' e h n =
      let tmp = path ++ codes ".tmp" in
      continue-failed (mkdir_all (dir path) d) _ d d' e q (content_at-mkdir_all (dir path) d q)
        (λ d1 _ _ k1.
          continue-failed (write_file tmp [] created_mode d1) _ d d' e q
            (write_file-Keeps tmp [] q created_mode n d1 ∙ k1)
            (λ d2 _ _ k2.
              continue-failed (or_remove tmp (write_text tmp v) d2) _ d d' e q
                (or_remove-Keeps tmp q (write_text tmp v) n (write_text-Keeps tmp q v n) d2 ∙ k2)
                (λ d3 _ _ k3 h3. or_remove-rename-err tmp path q d3 d' e n h3 ∙ k3)))
        h

  written :
      (path q text : Bytes) (v : Value N) (d d1 d2 d3 d' : Disk)
      → write v ≡ ok text
      → (mkdir_all (dir path) d).0 ≡ d1
      → write_file (path ++ codes ".tmp") [] created_mode d1 ≡ (d2, ok tt)
      → write_text (path ++ codes ".tmp") v d2 ≡ (d3, ok tt)
      → rename (path ++ codes ".tmp") path d3 ≡ (d', ok tt)
      → content_at d' q ≡ (
          if same path q
          then some text
          else if same (path ++ codes ".tmp") q
          then none
          else content_at d q)
  unfolding write_text
  written path q text v d d1 d2 d3 d' w h1 h2 h3 h4 =
      let tmp = path ++ codes ".tmp" in
      let sends : write_file tmp text created_mode d2 ≡ (d3, ok tt) =
        (rw (write_text, w) refl) ∙ h3 in
      let at_tmp = content_at-write_file tmp text created_mode d2 d3 in
      let there : content_at d3 tmp ≡ some text =
        at_tmp tmp sends ∙ ground (arith, same_iff tmp tmp) in
      let (c, at_old, moves) =
        content_at-rename tmp path d3 d' (content_at→not_dir tmp text d3 there) h4 in
      let before : content_at d1 q ≡ content_at d q =
        ap (λ x. content_at x q) (sym h1) ∙ content_at-mkdir_all (dir path) d q in
      ground (
        arith,
        moves q,
        at_tmp q sends,
        content_at-write_file tmp [] created_mode d1 d2 q h2,
        before,
        there,
        at_old,
      )

  -- A value that was written has a text.
  write_text-ok :
      (tmp : Bytes) (v : Value N) (d d' : Disk)
      → write_text tmp v d ≡ (d', ok tt)
      → (text : Bytes) × (write v ≡ ok text)
  unfolding write_text
  write_text-ok tmp v d d' h = elim (Result-cases (write v)) [
    | inl (text, e) ↦ (text, e)
    | inr (g, e) ↦ absurd (ground (arith, h, e))
  ]

  -- writeAtomic that succeeds has put the text of the value at its path.
  pub content_at-write_atomic :
      (path q text : Bytes) (v : Value N) (d d' : Disk)
      → write v ≡ ok text
      → write_atomic path v d ≡ (d', ok tt)
      → content_at d' q ≡ (
          if same path q
          then some text
          else if same (path ++ codes ".tmp") q
          then none
          else content_at d q)
  unfolding write_atomic
  content_at-write_atomic path q text v d d' w h =
      let tmp = path ++ codes ".tmp" in
      continue-ok_elim (mkdir_all (dir path) d) _ d' tt h (λ d1 _ h1 r1.
        continue-ok_elim (write_file tmp [] created_mode d1) _ d' tt r1 (λ d2 _ h2 r2.
          continue-ok_elim (or_remove tmp (write_text tmp v) d2) _ d' tt r2 (λ d3 _ h3 r3.
            written path q text v d d1 d2 d3 d' w (ap (λ r. r.0) h1) h2
              (or_remove-ok tmp (write_text tmp v) d2 d3 h3)
              (or_remove-ok tmp (rename tmp path) d3 d' r3))))

  pub write_atomic-text :
      (path : Bytes) (v : Value N) (d d' : Disk)
      → write_atomic path v d ≡ (d', ok tt)
      → (text : Bytes) × (write v ≡ ok text)
  unfolding write_atomic
  write_atomic-text path v d d' h =
      let tmp = path ++ codes ".tmp" in
      continue-ok_elim (mkdir_all (dir path) d) _ d' tt h (λ d1 _ h1 r1.
        continue-ok_elim (write_file tmp [] created_mode d1) _ d' tt r1 (λ d2 _ h2 r2.
          continue-ok_elim (or_remove tmp (write_text tmp v) d2) _ d' tt r2 (λ d3 _ h3 r3.
            write_text-ok tmp v d2 d3 (or_remove-ok tmp (write_text tmp v) d2 d3 h3))))

  -- Whether or not writeAtomic succeeds, it touches its path and the temporary file only.
  pub write_atomic-Keeps :
      (path q : Bytes) (v : Value N)
      → same path q ≡ false
      → same (path ++ codes ".tmp") q ≡ false
      → Keeps q (write_atomic path v)
  write_atomic-Keeps path q v n n' d = elim (Result-cases ((write_atomic path v d).1)) [
    | inl (u, e) ↦
        let done = with_result (write_atomic path v d) (ok tt) e in
        let (text, w) = write_atomic-text path v d (write_atomic path v d).0 done in
        content_at-write_atomic path q text v d (write_atomic path v d).0 w done ∙ rw (n, n') refl
    | inr (e, failed) ↦
        content_at-write_atomic_failed path q v d (write_atomic path v d).0 e
          (with_result (write_atomic path v d) (err e) failed) n'
  ]
