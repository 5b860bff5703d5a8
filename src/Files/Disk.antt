-- ===== src/Files/Disk.antt =====
-- The file system as package os shows it: files and directories under their cleaned paths. There are no
-- links and no permissions to lack, and no device fails.
pub mod Content
use go_luarocks.Prelude.{
  ℕ, zero, suc, Bool, true, false, not, ◌&&◌, ◌||◌, Option, none, some, List, [], ◌∷◌, ◌++◌, Bytes,
  codes, same, Result, ok, err, Map, lookup, insert, delete, if◌then◌else◌, filter, length, drop,
  any, map, ◌==◌, ltb, contains,
}
use go_luarocks.Files.Strings.{has_prefix}
use go_luarocks.Files.FilePath.{slash, dir, join₂}
use go_luarocks.Manif.Value.{text_lt}

pub data Node : Type 0 where
  -- its bytes and its permission bits
  file : Bytes → ℕ → Node
  directory : Node

abbrev pub Disk : Type 0
Disk = Map Node

pub data Fault : Type 0 where
  not_exist not_directory is_directory not_empty exists : Bytes → Fault
  -- an error of the caller's own, by its message without the details
  other : Bytes → Fault
  -- no counterpart in the program: the model's own bound on the depth of a walk was met
  out_of_fuel : Fault

-- A call that may change the disk, also where it fails.
abbrev pub M : Type 0 → Type 0
M A = Disk → Disk × Result Fault A

abbrev pub pure : {A : Type 0} → A → M A
pure a d = (d, ok a)

abbrev pub fails : {A : Type 0} → Fault → M A
fails e d = (d, err e)

abbrev pub continue : {A B : Type 0} → Disk × Result Fault A → (A → M B) → Disk × Result Fault B
continue (d, ok a) f = f a d
continue (d, err e) f = (d, err e)

infixl 5 ◌>>=◌ ◌>>◌
abbrev pub ◌>>=◌ : {A B : Type 0} → M A → (A → M B) → M B
◌>>=◌ m f d = continue (m d) f

abbrev pub ◌>>◌ : {B : Type 0} → M (Unit {0}) → M B → M B
m >> k = m >>= λ _. k

-- A value that the caller computed, or its error.
abbrev pub lift : {A : Type 0} → Fault → Option A → M A
lift e none = fails e
lift e (some a) = pure a

-- _ = call
abbrev pub ignore : {A : Type 0} → M A → M (Unit {0})
ignore m d = ((m d).0, ok tt)

-- The root and the working directory are always there.
abbrev pub is_top : Bytes → Bool
is_top p = same p (codes "/") || same p (codes ".")

-- os.Stat
unfoldable pub stat : Disk → Bytes → Option Node
unfolding lookup same
stat d p = if is_top p then some directory else lookup p d

unfoldable pub is_dir : Disk → Bytes → Bool
is_dir d p = elim (stat d p) [
  | none ↦ false
  | some n ↦ elim n [ directory ↦ true | file c m ↦ false ]
]

-- The path and its ancestors, the outermost first.
unfoldable pub with_ancestors : ℕ → Bytes → List Bytes
with_ancestors zero p = []
with_ancestors (suc n) p =
    let outer = with_ancestors n (dir p) in if is_top p then [] else outer ++ p ∷ []

unfoldable pub make_dirs : List Bytes → M (Unit {0})
make_dirs [] d = (d, ok tt)
make_dirs (p ∷ ps) d = elim (stat d p) [
  | none ↦ make_dirs ps (insert p directory d)
  | some n ↦ elim n [ directory ↦ make_dirs ps d | file c m ↦ (d, err (not_directory p)) ]
]

-- os.MkdirAll. A path has fewer components than bytes.
unfoldable pub mkdir_all : Bytes → M (Unit {0})
mkdir_all p = make_dirs (with_ancestors (length p) p)

-- os.ReadFile, and os.Open with a read to the end.
unfoldable pub read_file : Bytes → M Bytes
read_file p d = elim (stat d p) [
  | none ↦ (d, err (not_exist p))
  | some n ↦ elim n [ directory ↦ (d, err (is_directory p)) | file c m ↦ (d, ok c) ]
]

-- os.WriteFile, and os.OpenFile to write from the start: a file that is there keeps its permissions.
unfoldable pub write_file : Bytes → Bytes → ℕ → M (Unit {0})
write_file p content mode d = elim (stat d p) [
  | some n ↦ elim n [
    | directory ↦ (d, err (is_directory p))
    | file c m ↦ (insert p (file content m) d, ok tt)
  ]
  | none ↦
      if is_dir d (dir p) then (insert p (file content mode) d, ok tt) else (d, err (not_exist p))
]

-- What the paths below a directory begin with.
abbrev pub inside : Bytes → Bytes
inside p = if same p (codes ".") then [] else if same p (codes "/") then p else p ++ slash ∷ []

abbrev pub is_below : Bytes → Bytes → Bool
is_below p q = has_prefix q (inside p) && not (same q p)

-- The path below `old`, moved below `new`.
unfoldable pub moved : Bytes → Bytes → Bytes → Bytes
unfolding has_prefix same
moved old new p = if is_below old p then new ++ drop (length old) p else p

-- os.Rename. A file takes the place of a file; a directory is moved with what is below it.
unfoldable pub rename : Bytes → Bytes → M (Unit {0})
rename old new d =
    if not (is_dir d (dir new)) then (d, err (not_exist new)) else elim (stat d old) [
      | none ↦ (d, err (not_exist old))
      | some n ↦ elim n [
        | file c m ↦
            if is_dir d new
            then (d, err (exists new))
            else (insert new (file c m) (delete old d), ok tt)
        | directory ↦ elim (stat d new) [
          | some n ↦ (d, err (exists new))
          | none ↦
              (insert new directory (map (λ e. (moved old new e.0, e.1)) (delete old d)), ok tt)
        ]
      ]
    ]

-- os.Remove
unfoldable pub remove_path : Bytes → M (Unit {0})
remove_path p d = elim (stat d p) [
  | none ↦ (d, err (not_exist p))
  | some n ↦ elim n [
    | file c m ↦ (delete p d, ok tt)
    | directory ↦
        if is_top p || any (λ e. is_below p e.0) d
        then (d, err (not_empty p))
        else (delete p d, ok tt)
  ]
]

-- os.RemoveAll
unfoldable pub remove_all : Bytes → M (Unit {0})
unfolding has_prefix
remove_all p d = (filter (λ e. not (same e.0 p || is_below p e.0)) d, ok tt)

-- The names of the entries of a directory, in order of the bytes, as os.ReadDir gives them.
unfoldable pub add_name : Bytes → List Bytes → List Bytes
unfolding text_lt
add_name n [] = n ∷ []
add_name n (m ∷ ms) = if text_lt n m then n ∷ m ∷ ms else m ∷ add_name n ms

unfoldable pub names_below : Bytes → Disk → List Bytes
unfolding has_prefix add_name
names_below p [] = []
names_below p ((q, n) ∷ d) =
    let rest = names_below p d in
    let name = drop (length (inside p)) q in
    if is_below p q && not (any (λ c. c == slash) name) then add_name name rest else rest

-- os.ReadDir
unfoldable pub read_dir : Bytes → M (List Bytes)
unfolding is_dir names_below
read_dir p d = if is_dir d p then (d, ok (names_below p d)) else (d, err (not_exist p))

-- What filepath.Walk calls at each path, with what the caller gathers.
abbrev pub Visit : Type 0 → Type 0
Visit S = Bytes → Node → S → M S

-- The names of one directory in turn. A name that has gone meanwhile is an error of the walk.
unfoldable pub walk_names :
    {S : Type 0} → (Bytes → S → M S) → Visit S → Bytes → List Bytes → S → M S
unfolding stat
walk_names below visit p [] s = pure s
walk_names below visit p (n ∷ ns) s = do
  s' ← (λ d. elim (stat d (join₂ p n)) [
    | none ↦ (d, err (not_exist (join₂ p n)))
    | some node ↦ elim node [
      | directory ↦ below (join₂ p n) s d
      | file c m ↦ visit (join₂ p n) (file c m) s d
    ]
  ])
  walk_names below visit p ns s'

-- filepath.Walk on a directory: the directory itself, then its entries. The fuel bounds the depth.
unfoldable pub walk_dir : {S : Type 0} → ℕ → Visit S → Bytes → S → M S
unfolding walk_names read_dir
walk_dir zero visit p s = fails out_of_fuel
walk_dir (suc fuel) visit p s = do
  s' ← visit p directory s
  names ← read_dir p
  walk_names (λ q t. walk_dir fuel visit q t) visit p names s'
