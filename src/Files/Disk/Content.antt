-- ===== src/Files/Disk/Content.antt =====
-- What the calls of package os do to the contents of the files.
use go_luarocks.Prelude.{
  ℕ, ◌≡◌, refl, sym, ◌∙◌, ap, Bool, true, false, not, ◌||◌, Option, none, some, List, [], ◌∷◌,
  arith, Bytes, codes, same, same_iff, Result, ok, err, Map, lookup, insert, delete, lookup-insert,
  lookup-delete, if◌then◌else◌, filter, Option-cases, inl, inr, ◌⊎◌,
}
use go_luarocks.Files.Disk.{
  Disk, Node, file, directory, Fault, M, continue, is_top, stat, is_dir, make_dirs, mkdir_all,
  read_file, write_file, rename, remove_path, remove_all, read_dir, is_below,
}

-- A call that succeeds in two parts: both succeed.
pub continue-ok :
    {A B : Type 0} (r : Disk × Result Fault A) (f : A → M B) (d' : Disk) (b : B)
    → continue r f ≡ (d', ok b)
    → (d : Disk) × (a : A) × (r ≡ (d, ok a)) × (f a d ≡ (d', ok b))
continue-ok (d, ok a) f d' b h = (d, a, refl, h)
continue-ok (d, err e) f d' b h = ground arith

-- The same, for a claim that follows from the two parts.
pub continue-ok_elim :
    {A B C : Type 0} (r : Disk × Result Fault A) (f : A → M B) (d' : Disk) (b : B)
    → continue r f ≡ (d', ok b)
    → ((d : Disk) (a : A) → r ≡ (d, ok a) → f a d ≡ (d', ok b) → C)
    → C
continue-ok_elim r f d' b h k =
    let (d, a, first, second) = continue-ok r f d' b h in k d a first second

abbrev pub node_content : Option Node → Option Bytes
node_content none = none
node_content (some directory) = none
node_content (some (file c m)) = some c

-- The content of the file at a path.
unfoldable pub content_at : Disk → Bytes → Option Bytes
content_at d p = node_content (stat d p)

-- A call that leaves the content of the file at a path as it is, whether or not it succeeds.
abbrev pub Keeps : {A : Type 0} → Bytes → M A → Type 0
Keeps q m = (d : Disk) → content_at (m d).0 q ≡ content_at d q

-- A failure of two steps: where the content is kept by the first, and by the second if it fails.
pub continue-failed :
    {A B : Type 0} (r : Disk × Result Fault A) (f : A → M B) (d d' : Disk) (e : Fault) (q : Bytes)
    → content_at r.0 q ≡ content_at d q
    → ((d1 : Disk) (a : A)
        → r ≡ (d1, ok a)
        → content_at d1 q ≡ content_at d q
        → f a d1 ≡ (d', err e)
        → content_at d' q ≡ content_at d q)
    → continue r f ≡ (d', err e)
    → content_at d' q ≡ content_at d q
continue-failed (d1, ok a) f d d' e q first second h = second d1 a refl first h
continue-failed (d1, err g) f d d' e q first second h = ap (λ r. content_at r.0 q) (sym h) ∙ first

-- Two steps that keep the content at a path keep it together.
pub continue-keeps :
    {A B : Type 0} (r : Disk × Result Fault A) (f : A → M B) (d : Disk) (q : Bytes)
    → content_at r.0 q ≡ content_at d q
    → ((d1 : Disk) (a : A) → content_at (f a d1).0 q ≡ content_at d1 q)
    → content_at (continue r f).0 q ≡ content_at d q
continue-keeps (d1, ok a) f d q first second = second d1 a ∙ first
continue-keeps (d1, err e) f d q first second = first

stat-insert :
    (p q : Bytes) (n : Node) (d : Disk)
    → is_top p ≡ false
    → stat (insert p n d) q ≡ (if same p q then some n else stat d q)
unfolding stat
stat-insert p q n d h = ground (
  arith,
  lookup-insert p q n d,
  same_iff p q,
  same_iff p (codes "/"),
  same_iff p (codes "."),
  same_iff q (codes "/"),
  same_iff q (codes "."),
)

stat-delete :
    (p q : Bytes) (d : Disk)
    → is_top p ≡ false
    → stat (delete p d) q ≡ (if same p q then none else stat d q)
unfolding stat
stat-delete p q d h = ground (
  arith,
  lookup-delete p q d,
  same_iff p q,
  same_iff p (codes "/"),
  same_iff p (codes "."),
  same_iff q (codes "/"),
  same_iff q (codes "."),
)

stat-none : (p : Bytes) (d : Disk) → stat d p ≡ none → is_top p ≡ false
unfolding stat
stat-none p d h = ground arith

stat-file : (p c : Bytes) (m : ℕ) (d : Disk) → stat d p ≡ some (file c m) → is_top p ≡ false
unfolding stat
stat-file p c m d h = ground arith

-- Making directories leaves every file alone.
content_at-insert_directory :
    (p q : Bytes) (d : Disk)
    → stat d p ≡ none
    → content_at (insert p directory d) q ≡ content_at d q
unfolding content_at
content_at-insert_directory p q d h =
    ground (arith, stat-insert p q directory d, stat-none p d, same_iff p q)

content_at-make_dirs :
    (ps : List Bytes) (d : Disk) (q : Bytes) → content_at (make_dirs ps d).0 q ≡ content_at d q
unfolding make_dirs
content_at-make_dirs [] d q = refl
content_at-make_dirs (p ∷ ps) d q = ground (
  arith,
  content_at-make_dirs ps (insert p directory d) q,
  content_at-make_dirs ps d q,
  content_at-insert_directory p q d,
)

pub content_at-mkdir_all :
    (p : Bytes) (d : Disk) (q : Bytes) → content_at (mkdir_all p d).0 q ≡ content_at d q
unfolding mkdir_all
content_at-mkdir_all p d q = content_at-make_dirs _ d q

-- A write that succeeds puts the content at its path and leaves the other files alone.
pub content_at-write_file :
    (p c : Bytes) (mode : ℕ) (d d' : Disk) (q : Bytes)
    → write_file p c mode d ≡ (d', ok tt)
    → content_at d' q ≡ (if same p q then some c else content_at d q)
unfolding write_file content_at
content_at-write_file p c mode d d' q h = elim (Option-cases (stat d p)) [
  | inl absent ↦ ground (arith, stat-none p d, stat-insert p q (file c mode) d)
  | inr (n, there) ↦ go n there
]
  where
    go :
        (n : Node)
        → stat d p ≡ some n
        → node_content (stat d' q) ≡ (if same p q then some c else node_content (stat d q))
    go directory e = ground arith
    go (file old m) e = ground (arith, stat-file p old m d e, stat-insert p q (file c m) d)

pub read_file-Keeps : (p q : Bytes) → Keeps q (read_file p)
unfolding read_file
read_file-Keeps p q d = ground arith

pub content_at-read_file :
    (p c : Bytes) (d d' : Disk) → read_file p d ≡ (d', ok c) → (d' ≡ d) × (content_at d p ≡ some c)
unfolding read_file content_at
content_at-read_file p c d d' h = (ground arith, ground arith)

not_dir-top : (p : Bytes) (d : Disk) → is_dir d p ≡ false → is_top p ≡ false
unfolding is_dir stat
not_dir-top p d h = ground arith

is_dir-directory : (p : Bytes) (d : Disk) → stat d p ≡ some directory → is_dir d p ≡ true
unfolding is_dir
is_dir-directory p d h = ground arith

-- A file that is renamed stands at its new path, in place of what was there.
rename_file :
    (old new c : Bytes) (m : ℕ) (d d' : Disk) (q : Bytes)
    → stat d old ≡ some (file c m)
    → rename old new d ≡ (d', ok tt)
    → node_content (stat d' q)
      ≡ (if same new q then some c else if same old q then none else node_content (stat d q))
unfolding rename
rename_file old new c m d d' q e h = ground (
  arith,
  not_dir-top new d,
  stat-file old c m d e,
  stat-insert new q (file c m) (delete old d),
  stat-delete old q d,
)

-- Renaming what is not a directory moves the content of a file, over what the new path held.
pub content_at-rename :
    (old new : Bytes) (d d' : Disk)
    → is_dir d old ≡ false
    → rename old new d ≡ (d', ok tt)
    → (c : Bytes) × (content_at d old ≡ some c)
      × ((q : Bytes)
          → content_at d' q
            ≡ (if same new q then some c else if same old q then none else content_at d q))
unfolding content_at
content_at-rename old new d d' n h = elim (Option-cases (stat d old)) [
  | inl absent ↦ absurd (unfold rename in ground arith)
  | inr (node, there) ↦ go node there
]
  where
    go :
        (node : Node)
        → stat d old ≡ some node
        → (c : Bytes) × (node_content (stat d old) ≡ some c)
          × ((q : Bytes)
              → node_content (stat d' q) ≡ (
                  if same new q
                  then some c
                  else if same old q
                  then none
                  else node_content (stat d q)))
    go directory e = absurd (ground (arith, is_dir-directory old d e))
    go (file c m) e = (c, ap node_content e, λ q. rename_file old new c m d d' q e h)

-- Whether or not a removal succeeds, the path holds no file then, and the other files are as before.
pub content_at-remove_path :
    (p : Bytes) (d : Disk) (q : Bytes)
    → content_at (remove_path p d).0 q ≡ (if same p q then none else content_at d q)
unfolding content_at remove_path
content_at-remove_path p d q = elim (Option-cases (stat d p)) [
  | inl absent ↦ ground (arith, same_iff p q)
  | inr (node, there) ↦ go node there
]
  where
    go :
        (node : Node)
        → stat d p ≡ some node
        → node_content (stat (remove_path p d).0 q)
          ≡ (if same p q then none else node_content (stat d q))
    go directory e = ground (arith, same_iff p q, stat-delete p q d)
    go (file c m) e = ground (arith, same_iff p q, stat-delete p q d, stat-file p c m d)

pub content_at→not_dir : (p c : Bytes) (d : Disk) → content_at d p ≡ some c → is_dir d p ≡ false
unfolding content_at is_dir
content_at→not_dir p c d h = ground arith

-- What is there and is no directory is a file.
pub content_at-not_dir :
    (p : Bytes) (d : Disk)
    → is_dir d p ≡ false
    → (stat d p ≡ none) ⊎ ((c : Bytes) × (content_at d p ≡ some c))
unfolding content_at
content_at-not_dir p d n = elim (Option-cases (stat d p)) [
  | inl absent ↦ inl absent
  | inr (node, there) ↦ inr (go node there)
]
  where
    go : (node : Node) → stat d p ≡ some node → (c : Bytes) × (node_content (stat d p) ≡ some c)
    go directory e = absurd (ground (arith, is_dir-directory p d e))
    go (file c m) e = (c, ap node_content e)

pub content_at-absent : (p : Bytes) (d : Disk) → stat d p ≡ none → content_at d p ≡ none
unfolding content_at
content_at-absent p d h = ap node_content h

pub content_at→stat :
    (p c : Bytes) (d : Disk) → content_at d p ≡ some c → (n : Node) × (stat d p ≡ some n)
unfolding content_at
content_at→stat p c d h = elim (Option-cases (stat d p)) [
  | inl absent ↦ absurd (ground arith)
  | inr there ↦ there
]

lookup-filter :
    {V : Type 0} (f : Bytes → Bool) (q : Bytes) (m : Map V)
    → lookup q (filter (λ e. not (f e.0)) m) ≡ (if f q then none else lookup q m)
unfolding lookup
lookup-filter f q [] = ground arith
lookup-filter f q ((k, v) ∷ m) = ground (arith, same_iff k q, lookup-filter f q m)

-- The path itself and what is below it are gone.
pub content_at-remove_all :
    (p : Bytes) (d : Disk) (q : Bytes)
    → content_at (remove_all p d).0 q ≡ (if same q p || is_below p q then none else content_at d q)
unfolding content_at remove_all stat
content_at-remove_all p d q = ground (arith, lookup-filter (λ r. same r p || is_below p r) q d)

pub read_dir-content_at :
    (p : Bytes) (d : Disk) (names : List Bytes)
    → (read_dir p d).1 ≡ ok names
    → content_at d p ≡ none
unfolding read_dir content_at is_dir
read_dir-content_at p d names h = elim (Option-cases (stat d p)) [
  | inl absent ↦ ground arith
  | inr (node, there) ↦ go node there
]
  where
    go : (node : Node) → stat d p ≡ some node → node_content (stat d p) ≡ none
    go directory e = ap node_content e
    go (file c m) e = ground arith
