-- ===== src/Files/FilePath.antt =====
-- path/filepath on Unix, on texts. A path is read as its components between slashes.
use go_luarocks.Prelude.{
  ℕ, Bool, true, false, not, ◌||◌, ◌&&◌, Option, none, some, List, [], ◌∷◌, ◌++◌, Bytes, codes,
  same, if◌then◌else◌, filter, reverse, drop_while, ◌==◌, any,
}
use go_luarocks.Files.Strings.{split_byte, split_from, join_byte, cut_last}

abbrev pub slash : ℕ
slash = b'/'

unfoldable pub is_rooted : Bytes → Bool
is_rooted [] = false
is_rooted (c ∷ s) = c == slash

-- The components of a path, without the empty ones and ".".
unfoldable pub components : Bytes → List Bytes
unfolding same split_from
components s = filter (λ p. not (same p []) && not (same p (codes "."))) (split_byte slash s)

-- The loop of Clean, over the components, with those kept so far, last first. Above the root, and in
-- front of a relative path, ".." has nothing to take away.
unfoldable pub clean_from : Bool → List Bytes → List Bytes → List Bytes
unfolding same
clean_from rooted kept [] = reverse kept
clean_from rooted [] (p ∷ ps) =
    if same p (codes "..")
    then clean_from rooted (if rooted then [] else p ∷ []) ps
    else clean_from rooted (p ∷ []) ps
clean_from rooted (k ∷ kept) (p ∷ ps) =
    clean_from rooted
      (if same p (codes "..") && not (same k (codes "..")) then kept else p ∷ k ∷ kept) ps

-- The text of cleaned components.
unfoldable pub path_text : Bool → List Bytes → Bytes
unfolding join_byte
path_text true ps = slash ∷ join_byte slash ps
path_text false [] = codes "."
path_text false (p ∷ ps) = join_byte slash (p ∷ ps)

-- The cleaned components.
unfoldable pub cleaned : Bytes → List Bytes
unfolding clean_from components is_rooted
cleaned s = clean_from (is_rooted s) [] (components s)

-- filepath.Clean
unfoldable pub clean : Bytes → Bytes
unfolding cleaned path_text
clean s = path_text (is_rooted s) (cleaned s)

-- filepath.Join
unfoldable pub join : List Bytes → Bytes
unfolding clean
join [] = []
join ([] ∷ ps) = join ps
join ((c ∷ p) ∷ ps) = clean (join_byte slash ((c ∷ p) ∷ ps))

abbrev pub join₂ : Bytes → Bytes → Bytes
join₂ a b = join (a ∷ b ∷ [])

-- filepath.Dir
unfoldable pub dir : Bytes → Bytes
unfolding cut_last clean
dir s = elim (cut_last slash s) [
  | none ↦ codes "."
  | some (before, after) ↦ clean (before ++ slash ∷ [])
]

-- What stands behind the last slash.
unfoldable pub last_part : Bytes → Bytes
unfolding cut_last
last_part s = elim (cut_last slash s) [ none ↦ s | some (before, after) ↦ after ]

unfoldable pub base_of_stripped : Bytes → Bytes
unfolding last_part
base_of_stripped [] = slash ∷ []
base_of_stripped (c ∷ s) = last_part (c ∷ s)

-- filepath.Base
unfoldable pub base : Bytes → Bytes
unfolding base_of_stripped
base [] = codes "."
base (c ∷ s) = base_of_stripped (reverse (drop_while (λ d. d == slash) (reverse (c ∷ s))))

-- filepath.Ext: from the last dot of the last component on.
unfoldable pub ext : Bytes → Bytes
unfolding last_part cut_last
ext s = elim (cut_last b'.' (last_part s)) [ none ↦ [] | some (before, after) ↦ b'.' ∷ after ]

-- What is left of two lists behind their common front.
unfoldable pub past_common : List Bytes → List Bytes → List Bytes × List Bytes
unfolding same
past_common [] ts = ([], ts)
past_common (b ∷ bs) [] = (b ∷ bs, [])
past_common (b ∷ bs) (t ∷ ts) =
    let rest = past_common bs ts in if same b t then rest else (b ∷ bs, t ∷ ts)

unfoldable pub ups : List Bytes → List Bytes
ups [] = []
ups (b ∷ bs) = codes ".." ∷ ups bs

-- filepath.Rel; `none` is its error.
unfoldable pub rel : Bytes → Bytes → Option Bytes
unfolding past_common ups cleaned path_text
rel from to =
    let parts = past_common (cleaned from) (cleaned to) in
    if (is_rooted from && not (is_rooted to)) || (not (is_rooted from) && is_rooted to)
    then none
    else if any (λ p. same p (codes "..")) parts.0
    then none
    else some (path_text false (ups parts.0 ++ parts.1))
