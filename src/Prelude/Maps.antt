-- ===== src/Prelude/Maps.antt =====
-- Go maps with string keys as association lists, and sets of names as lists.
use Prim.Native.Nat.{ℕ, ◌<◌, ◌≤◌}
use mathlib.Core.Path.{◌≡◌, refl}
use mathlib.Core.Bool.{Bool, true, false, ◌||◌, ◌&&◌, not}
use mathlib.Core.Option.{Option, none, some}
use mathlib.Core.List.{List, [], ◌∷◌, ◌++◌}
use native.Mathlib.Omega.{arith}
use go_luarocks.Prelude.Tests.{if◌then◌else◌}
use go_luarocks.Prelude.Lists.{length, filter}
use go_luarocks.Prelude.Text.{Bytes, same, same_iff}

abbrev pub Map : Type 0 → Type 0
Map V = List (Bytes × V)

module _ {V : Type 0} where
  -- v, ok := m[k]
  unfoldable pub lookup : Bytes → Map V → Option V
  lookup k [] = none
  lookup k ((j, v) ∷ m) = if same j k then some v else lookup k m

  -- m[k] = v
  unfoldable pub insert : Bytes → V → Map V → Map V
  insert k v [] = (k, v) ∷ []
  insert k v ((j, w) ∷ m) = if same j k then (k, v) ∷ m else (j, w) ∷ insert k v m

  -- maps.Copy(dst, src)
  unfoldable pub copy_into : Map V → Map V → Map V
  copy_into dst [] = dst
  copy_into dst ((k, v) ∷ src) = copy_into (insert k v dst) src

  pub lookup-insert :
      (k j : Bytes) (v : V) (m : Map V)
      → lookup j (insert k v m) ≡ (if same k j then some v else lookup j m)
  unfolding lookup insert
  lookup-insert k j v [] = refl
  lookup-insert k j v ((i, w) ∷ m) =
      ground (arith, same_iff k j, same_iff i k, same_iff i j, lookup-insert k j v m)

  pub lookup-insert_self : (k : Bytes) (v : V) (m : Map V) → lookup k (insert k v m) ≡ some v
  lookup-insert_self k v m = ground (arith, lookup-insert k k v m, same_iff k k)

  -- delete(m, k)
  unfoldable pub delete : Bytes → Map V → Map V
  delete k m = filter (λ e. not (same e.0 k)) m

  pub lookup-delete :
      (k j : Bytes) (m : Map V) → lookup j (delete k m) ≡ (if same k j then none else lookup j m)
  unfolding lookup delete
  lookup-delete k j [] = ground arith
  lookup-delete k j ((i, v) ∷ m) =
      ground (arith, same_iff i k, same_iff i j, same_iff k j, lookup-delete k j m)

-- The value of m[k] where a missing key reads as the empty map or list.
abbrev pub listed : {A : Type 0} → Bytes → Map (List A) → List A
listed k m = elim (lookup k m) [ none ↦ [] | some l ↦ l ]

abbrev pub keys : {V : Type 0} → Map V → List Bytes
keys [] = []
keys ((k, v) ∷ m) = k ∷ keys m

unfoldable pub contains : List Bytes → Bytes → Bool
contains [] k = false
contains (j ∷ s) k = same j k || contains s k

-- delete(m, k) of a map to bool, whose keys are the list.
unfoldable pub remove : Bytes → List Bytes → List Bytes
remove k s = filter (λ j. not (same j k)) s

pub contains-append :
    (s t : List Bytes) (k : Bytes) → contains (s ++ t) k ≡ (contains s k || contains t k)
unfolding contains
contains-append [] t k = refl
contains-append (j ∷ s) t k = ground (arith, contains-append s t k)

pub remove_absent : (k : Bytes) (s : List Bytes) → contains s k ≡ false → remove k s ≡ s
unfolding contains remove
remove_absent k [] h = refl
remove_absent k (j ∷ s) h = ground (arith, remove_absent k s)

pub remove-cons_self : (k : Bytes) (s : List Bytes) → contains s k ≡ false → remove k (k ∷ s) ≡ s
unfolding remove
remove-cons_self k s h = ground (arith, same_iff k k, remove_absent k s h)

-- The names of `u` that are not in `s`.
unfoldable pub others : List Bytes → List Bytes → ℕ
others u s = length (filter (λ k. not (contains s k)) u)

pub others-cons-le : (u s : List Bytes) (k : Bytes) → others u (k ∷ s) ≤ others u s
unfolding others contains
others-cons-le [] s k = omega arith
others-cons-le (j ∷ u) s k = ground (arith, others-cons-le u s k)

-- Adding a name of `u` that was missing leaves fewer.
pub others-cons-lt :
    (u s : List Bytes) (k : Bytes)
    → contains u k ≡ true
    → contains s k ≡ false
    → others u (k ∷ s) < others u s
unfolding others contains
others-cons-lt [] s k h g = cc
others-cons-lt (j ∷ u) s k h g =
    ground (arith, others-cons-le u s k, others-cons-lt u s k, same_iff j k, same_iff k j)

-- No key comes twice, as in a Go map.
unfoldable pub distinct : List Bytes → Bool
unfolding contains
distinct [] = true
distinct (k ∷ ks) = not (contains ks k) && distinct ks

contains-keys-insert :
    {V : Type 0} (k j : Bytes) (v : V) (m : Map V)
    → contains (keys (insert k v m)) j ≡ (same k j || contains (keys m) j)
unfolding contains insert
contains-keys-insert k j v [] = ground arith
contains-keys-insert k j v ((i, w) ∷ m) = ground (arith, same_iff i k, contains-keys-insert k j v m)

pub distinct-insert :
    {V : Type 0} (k : Bytes) (v : V) (m : Map V)
    → distinct (keys m) ≡ true
    → distinct (keys (insert k v m)) ≡ true
unfolding distinct insert contains
distinct-insert k v [] h = refl
distinct-insert k v ((i, w) ∷ m) h =
    ground (arith, same_iff i k, same_iff k i, contains-keys-insert k i v m, distinct-insert k v m)

pub lookup-absent :
    {V : Type 0} (k : Bytes) (m : Map V) → contains (keys m) k ≡ false → lookup k m ≡ none
unfolding lookup contains
lookup-absent k [] h = refl
lookup-absent k ((i, w) ∷ m) h = ground (arith, lookup-absent k m)
