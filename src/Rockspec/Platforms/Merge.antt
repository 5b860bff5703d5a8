-- ===== src/Rockspec/Platforms/Merge.antt =====
-- What the merges of rockspec/platforms.go keep and what they replace.
use go_luarocks.Prelude.{
  ℕ, zero, suc, ◌≤◌, ◌≡◌, refl, ◌∙◌, ap, Option, none, some, List, [], ◌∷◌, ◌++◌, arith, Bytes,
  same, same_iff, if◌then◌else◌, Map, lookup, insert, copy_into, lookup-insert, length, drop, ltb,
  get_elem?, Option-cases, inl, inr,
}
use go_luarocks.Types.{Module, Rockspec}
use go_luarocks.Rockspec.Platforms.{
  over_text, merge_dep_list, merge_list, merge_entry, merge_module, merge_modules, merge_string_map,
  merge_platforms, merge_platform, merge_all, clear_platforms, with_overlay,
}

-- The element at each index of a list that mergeDepList gives is that of the override below its
-- length, and that of the base from there on.
pub get_elem?-merge_dep_list {ℓ} :
    {A : Type ℓ} (base over : List A) (i : ℕ)
    → get_elem? (merge_dep_list base over) i
      ≡ (if ltb i (length over) then get_elem? over i else get_elem? base i)
unfolding merge_dep_list
get_elem?-merge_dep_list base [] i = ground arith
get_elem?-merge_dep_list [] (d ∷ over) zero = ground arith
get_elem?-merge_dep_list [] (d ∷ over) (suc i) = get_elem?-merge_dep_list [] over i ∙ ground arith
get_elem?-merge_dep_list (b ∷ base) (d ∷ over) zero = ground arith
get_elem?-merge_dep_list (b ∷ base) (d ∷ over) (suc i) =
    get_elem?-merge_dep_list base over i ∙ ground arith

merge_dep_list-nil {ℓ} : {A : Type ℓ} (over : List A) → merge_dep_list [] over ≡ over
unfolding merge_dep_list
merge_dep_list-nil [] = refl
merge_dep_list-nil (d ∷ over) = ap (λ l. d ∷ l) (merge_dep_list-nil over)

drop_nil {ℓ} : {A : Type ℓ} (n : ℕ) → ◌≡◌ {A = List A} (drop n []) []
drop_nil zero = refl
drop_nil (suc n) = refl

merge_dep_list-drop {ℓ} :
    {A : Type ℓ} (base over : List A) → merge_dep_list base over ≡ over ++ drop (length over) base
unfolding merge_dep_list
merge_dep_list-drop base [] = refl
merge_dep_list-drop [] (d ∷ over) =
    ap (λ l. d ∷ l) (merge_dep_list-drop [] over ∙ ap (λ l. over ++ l) (drop_nil (length over)))
merge_dep_list-drop (b ∷ base) (d ∷ over) = ap (λ l. d ∷ l) (merge_dep_list-drop base over)

drop_short {ℓ} : {A : Type ℓ} (n : ℕ) (xs : List A) → length xs ≤ n → drop n xs ≡ []
drop_short zero [] h = refl
drop_short zero (x ∷ xs) h = absurd (omega arith)
drop_short (suc n) [] h = refl
drop_short (suc n) (x ∷ xs) h = drop_short n xs (omega arith)

-- mergeList, which copies the override and appends what is left of the base, gives the list that
-- the index loop of mergeDepList gives.
pub merge_list-merge_dep_list : (dst src : List Bytes) → merge_list dst src ≡ merge_dep_list dst src
unfolding merge_list
merge_list-merge_dep_list dst [] = unfold merge_dep_list in refl
merge_list-merge_dep_list dst (s ∷ src) =
    ground (arith, merge_dep_list-drop dst (s ∷ src), drop_short (length (s ∷ src)) dst)

-- A Go map has each key once.
abbrev pub IsDistinct : {V : Type 0} → Map V → Type 0
IsDistinct [] = Unit
IsDistinct ((k, v) ∷ m) = (lookup k m ≡ none) × IsDistinct m

-- The entry of an override, over that of the base.
abbrev pub over_entry : {V : Type 0} → Option V → Option V → Option V
over_entry base none = base
over_entry base (some v) = some v

pub lookup-copy_into :
    {V : Type 0} (k : Bytes) (dst src : Map V)
    → IsDistinct src
    → lookup k (copy_into dst src) ≡ over_entry (lookup k dst) (lookup k src)
unfolding copy_into lookup
lookup-copy_into k dst [] d = refl
lookup-copy_into k dst ((j, v) ∷ src) d =
    lookup-copy_into k (insert j v dst) src d.1
    ∙ ground (arith, lookup-insert j k v dst, same_iff j k, d.0)

-- Each entry of a merged string map is the override's, where it has one, and the base's otherwise.
lookup-merge_string_map :
    (k : Bytes) (dst src : Map Bytes)
    → IsDistinct src
    → lookup k (merge_string_map dst src) ≡ over_entry (lookup k dst) (lookup k src)
unfolding merge_string_map
lookup-merge_string_map k dst [] d = unfold lookup in refl
lookup-merge_string_map k dst ((j, v) ∷ src) d =
    ground (arith, lookup-copy_into k dst ((j, v) ∷ src) d)

-- The entry of a module that base and override may have.
abbrev merged_module : Option Module → Option Module → Option Module
merged_module base none = base
merged_module none (some s) = some s
merged_module (some b) (some s) = some (merge_module b s)

lookup-merge_entry :
    (k j : Bytes) (s : Module) (dst : Map Module)
    → lookup k (merge_entry dst j s)
      ≡ (if same j k then merged_module (lookup j dst) (some s) else lookup k dst)
unfolding merge_entry
lookup-merge_entry k j s dst = elim (Option-cases (lookup j dst)) [
  | inl new ↦ ground (arith, lookup-insert j k s dst)
  | inr (base, old) ↦ ground (arith, lookup-insert j k (merge_module base s) dst)
]

lookup-merge_modules_entry :
    (k : Bytes) (dst src : Map Module)
    → IsDistinct src
    → lookup k (merge_modules dst src) ≡ merged_module (lookup k dst) (lookup k src)
unfolding merge_modules lookup
lookup-merge_modules_entry k dst [] d = refl
lookup-merge_modules_entry k dst ((j, s) ∷ src) d =
    lookup-merge_modules_entry k (merge_entry dst j s) src d.1
    ∙ ground (arith, lookup-merge_entry k j s dst, same_iff j k, d.0)

-- At each index stands the element of the override, where it has one, and that of the base otherwise.
abbrev pub IsOverlaid : List Bytes → List Bytes → List Bytes → Type 0
IsOverlaid base over merged =
    (i : ℕ)
    → get_elem? merged i ≡ (if ltb i (length over) then get_elem? over i else get_elem? base i)

-- A path that is set replaces that of the base; each of the five lists is overlaid by itself.
abbrev pub IsMergedModule : Module → Module → Module → Type 0
IsMergedModule b s m =
    (m.path ≡ (if same s.path [] then b.path else s.path))
    × IsOverlaid b.sources s.sources m.sources
    × IsOverlaid b.incdirs s.incdirs m.incdirs
    × IsOverlaid b.libdirs s.libdirs m.libdirs
    × IsOverlaid b.libraries s.libraries m.libraries
    × IsOverlaid b.defines s.defines m.defines

merge_list-IsOverlaid : (base over : List Bytes) → IsOverlaid base over (merge_list base over)
merge_list-IsOverlaid base over i =
    ap (λ l. get_elem? l i) (merge_list-merge_dep_list base over)
    ∙ get_elem?-merge_dep_list base over i

over_text-same : (dst src : Bytes) → over_text dst src ≡ (if same src [] then dst else src)
unfolding over_text same
over_text-same dst [] = refl
over_text-same dst (c ∷ s) = refl

merge_module-IsMergedModule : (b s : Module) → IsMergedModule b s (merge_module b s)
unfolding merge_module
merge_module-IsMergedModule b s = (
  over_text-same b.path s.path,
  merge_list-IsOverlaid b.sources s.sources,
  merge_list-IsOverlaid b.incdirs s.incdirs,
  merge_list-IsOverlaid b.libdirs s.libdirs,
  merge_list-IsOverlaid b.libraries s.libraries,
  merge_list-IsOverlaid b.defines s.defines,
)

-- The entry of a base, of an override, and of what they are merged to.
abbrev pub IsMergedEntry : Option Module → Option Module → Option Module → Type 0
IsMergedEntry base none merged = merged ≡ base
IsMergedEntry none (some s) merged = merged ≡ some s
IsMergedEntry (some b) (some s) merged = (m : Module) × (merged ≡ some m) × IsMergedModule b s m

merged_module-IsMergedEntry :
    (base over : Option Module) → IsMergedEntry base over (merged_module base over)
merged_module-IsMergedEntry base none = refl
merged_module-IsMergedEntry none (some s) = refl
merged_module-IsMergedEntry (some b) (some s) =
    (merge_module b s, refl, merge_module-IsMergedModule b s)

-- Where the override has each key once, the merged modules hold under each key the one that there
-- is, where only one side has it, and otherwise a module whose path is that of the override, or of
-- the base where it is empty, and whose sources, include and library directories, libraries and
-- defines each have at every index the element of the override, where its list reaches so far, and
-- that of the base from there on.
pub lookup-merge_modules :
    (k : Bytes) (dst src : Map Module)
    → IsDistinct src
    → IsMergedEntry (lookup k dst) (lookup k src) (lookup k (merge_modules dst src))
lookup-merge_modules k dst src d =
    rw (lookup-merge_modules_entry k dst src d)
      (merged_module-IsMergedEntry (lookup k dst) (lookup k src))

merge_all-clear :
    {N : Type 0} (spec : Rockspec N) (plats : List Bytes)
    → merge_all (clear_platforms spec) plats ≡ clear_platforms spec
unfolding merge_all merge_platform clear_platforms with_overlay lookup
merge_all-clear spec [] = refl
merge_all-clear spec (p ∷ plats) = merge_all-clear spec plats

-- MergePlatforms drops the overlays, so that a second merge, for whatever platforms, changes
-- nothing.
pub merge_platforms_idempotent :
    {N : Type 0} (spec : Rockspec N) (plats again : List Bytes)
    → merge_platforms (merge_platforms spec plats) again ≡ merge_platforms spec plats
unfolding merge_platforms
merge_platforms_idempotent spec plats again =
    ap clear_platforms (merge_all-clear (merge_all spec plats) again)
