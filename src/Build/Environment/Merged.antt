-- ===== src/Build/Environment/Merged.antt =====
-- What a process finds in the environment that mergeEnv of build/subprocess.go makes.
use go_luarocks.Prelude.{
  distinct, lookup-absent, ℕ, zero, suc, ◌+◌, ◌≡◌, refl, sym, ◌∙◌, ap, Bool, true, false, not, ◌||◌,
  ◌&&◌, Option, none, some, List, [], ◌∷◌, ◌++◌, arith, Bytes, same, same_iff, same_refl, Map,
  lookup, lookup-insert, keys, contains, if◌then◌else◌, any, all, set, ◌==◌, Option-cases, inl, inr,
  &&-eq-true,
}
use go_luarocks.Files.Strings.{cut_at-append}
use go_luarocks.Build.Environment.{
  split_env, put_index, index_env, put_entry, add_sorted, sort_entries, entry, merge_entries,
  merge_env,
}

-- The value of an entry, where it is for a key.
abbrev pub own : Bytes → Option (Bytes × Bytes) → Option Bytes
own k none = none
own k (some (j, v)) = if same j k then some v else none

abbrev pub later : {A : Type 0} → Option A → Option A → Option A
later (some a) b = some a
later none b = b

-- The value of a key: its last entry counts.
unfoldable pub env_value : Bytes → List Bytes → Option Bytes
unfolding split_env
env_value k [] = none
env_value k (e ∷ out) = later (env_value k out) (own k (split_env e))

abbrev next : Option ℕ → Option Bytes → Option ℕ
next (some j) o = some (suc j)
next none none = none
next none (some v) = some 0

-- The place of that entry.
unfoldable last_index : Bytes → List Bytes → Option ℕ
unfolding split_env
last_index k [] = none
last_index k (e ∷ out) = next (last_index k out) (own k (split_env e))

abbrev shifted : ℕ → Option ℕ → Option ℕ → Option ℕ
shifted i none o = o
shifted i (some j) o = some (i + j)

abbrev pub has_equals : Bytes → Bool
has_equals k = any (λ c. c == b'=') k

split_env-entry : (k v : Bytes) → has_equals k ≡ false → split_env (entry k v) ≡ some (k, v)
unfolding split_env
split_env-entry k v h = cut_at-append b'=' k v h

lookup-put_index :
    (i : ℕ) (o : Option (Bytes × Bytes)) (idx : Map ℕ) (k : Bytes)
    → lookup k (put_index i o idx) ≡ (elim (own k o) [ none ↦ lookup k idx | some v ↦ some i ])
unfolding put_index
lookup-put_index i none idx k = refl
lookup-put_index i (some (j, v)) idx k = ground (arith, lookup-insert j k i idx)

lookup-index_env :
    (base : List Bytes) (i : ℕ) (idx : Map ℕ) (k : Bytes)
    → lookup k (index_env i base idx) ≡ shifted i (last_index k base) (lookup k idx)
unfolding last_index index_env
lookup-index_env [] i idx k = refl
lookup-index_env (e ∷ base) i idx k =
    lookup-index_env base (suc i) (put_index i (split_env e) idx) k
    ∙ ground (arith, lookup-put_index i (split_env e) idx k)

last_index-none : (k : Bytes) (out : List Bytes) → last_index k out ≡ none → env_value k out ≡ none
unfolding last_index env_value
last_index-none k [] h = refl
last_index-none k (e ∷ out) h = ground (arith, last_index-none k out)

own-other :
    (k k' w : Bytes) (o : Option (Bytes × Bytes))
    → own k o ≡ some w
    → own k' o ≡ (if same k k' then some w else none)
own-other k k' w none h = ground arith
own-other k k' w (some (j, u)) h = ground (arith, same_iff j k, same_iff j k', same_iff k k')

env_value-cons :
    (k e : Bytes) (out : List Bytes)
    → env_value k (e ∷ out) ≡ later (env_value k out) (own k (split_env e))
unfolding env_value
env_value-cons k e out = refl

env_value-set :
    (out : List Bytes) (j : ℕ) (k k' v : Bytes)
    → has_equals k ≡ false
    → last_index k out ≡ some j
    → env_value k' (set out j (entry k v)) ≡ (if same k k' then some v else env_value k' out)
unfolding last_index
env_value-set [] j k k' v p h = ground arith
env_value-set (e ∷ out) zero k k' v p h = elim (Option-cases (own k (split_env e))) [
  | inl other ↦ absurd (ground (arith, other))
  | inr (w, mine) ↦
      let theirs = own-other k k' w (split_env e) mine in
      env_value-cons k' (entry k v) out
      ∙ ap (λ o. later (env_value k' out) (own k' o)) (split_env-entry k v p)
      ∙ ground (arith, env_value-cons k' e out, theirs, last_index-none k out, same_iff k k')
]
env_value-set (e ∷ out) (suc j) k k' v p h = ground (
  arith,
  env_value-cons k' e (set out j (entry k v)),
  env_value-cons k' e out,
  env_value-set out j k k' v p,
  last_index-none k out,
  same_iff k k',
)

own-same :
    (k k' w : Bytes) (o : Option (Bytes × Bytes))
    → own k o ≡ some w
    → next none (own k' o) ≡ (if same k k' then some 0 else none)
own-same k k' w none h = ground arith
own-same k k' w (some (j, u)) h = ground (arith, same_iff j k, same_iff j k', same_iff k k')

last_index-cons :
    (k e : Bytes) (out : List Bytes)
    → last_index k (e ∷ out) ≡ next (last_index k out) (own k (split_env e))
unfolding last_index
last_index-cons k e out = refl

last_index-set :
    (out : List Bytes) (j : ℕ) (k k' v : Bytes)
    → has_equals k ≡ false
    → last_index k out ≡ some j
    → last_index k' (set out j (entry k v)) ≡ last_index k' out
unfolding last_index
last_index-set [] j k k' v p h = ground arith
last_index-set (e ∷ out) zero k k' v p h = elim (Option-cases (own k (split_env e))) [
  | inl other ↦ absurd (ground (arith, other))
  | inr (w, mine) ↦
      let theirs = own-other k k' w (split_env e) mine in
      last_index-cons k' (entry k v) out
      ∙ ap (λ o. next (last_index k' out) (own k' o)) (split_env-entry k v p)
      ∙ ground (arith, last_index-cons k' e out, theirs, same_iff k k')
]
last_index-set (e ∷ out) (suc j) k k' v p h = ground (
  arith,
  last_index-cons k' e (set out j (entry k v)),
  last_index-cons k' e out,
  last_index-set out j k k' v p,
)

env_value-append :
    (out : List Bytes) (k k' v : Bytes)
    → has_equals k ≡ false
    → env_value k' (out ++ entry k v ∷ []) ≡ (if same k k' then some v else env_value k' out)
unfolding env_value
env_value-append [] k k' v p =
    ground (arith, env_value-cons k' (entry k v) [], split_env-entry k v p)
env_value-append (e ∷ out) k k' v p = ground (
  arith,
  env_value-cons k' e (out ++ entry k v ∷ []),
  env_value-cons k' e out,
  env_value-append out k k' v p,
)

last_index-append :
    (out : List Bytes) (k k' v : Bytes)
    → has_equals k ≡ false
    → same k k' ≡ false
    → last_index k' (out ++ entry k v ∷ []) ≡ last_index k' out
unfolding last_index
last_index-append [] k k' v p n =
    ground (arith, last_index-cons k' (entry k v) [], split_env-entry k v p)
last_index-append (e ∷ out) k k' v p n = ground (
  arith,
  last_index-cons k' e (out ++ entry k v ∷ []),
  last_index-cons k' e out,
  last_index-append out k k' v p n,
)

env_value-put_entry :
    (o : Option ℕ) (out : List Bytes) (k k' v : Bytes)
    → has_equals k ≡ false
    → last_index k out ≡ o
    → env_value k' (put_entry o (entry k v) out) ≡ (if same k k' then some v else env_value k' out)
unfolding put_entry
env_value-put_entry none out k k' v p h = env_value-append out k k' v p
env_value-put_entry (some j) out k k' v p h = env_value-set out j k k' v p h

last_index-put_entry :
    (o : Option ℕ) (out : List Bytes) (k k' v : Bytes)
    → has_equals k ≡ false
    → last_index k out ≡ o
    → same k k' ≡ false
    → last_index k' (put_entry o (entry k v) out) ≡ last_index k' out
unfolding put_entry
last_index-put_entry none out k k' v p h n = last_index-append out k k' v p n
last_index-put_entry (some j) out k k' v p h n = last_index-set out j k k' v p h

-- No key has an equals sign.
abbrev pub all_plain : Map Bytes → Bool
all_plain overlay = all (λ e. not (has_equals e.0)) overlay

lookup-front :
    (j k v : Bytes) (m : Map Bytes)
    → lookup k ((j, v) ∷ m) ≡ (if same j k then some v else lookup k m)
unfolding lookup
lookup-front j k v m = refl

unshifted : (o : Option ℕ) → shifted 0 o none ≡ o
unshifted none = refl
unshifted (some j) = ap some (omega arith)

merge_entries-env_value :
    (idx : Map ℕ) (overlay : Map Bytes) (out : List Bytes) (k : Bytes)
    → distinct (keys overlay) ≡ true
    → all_plain overlay ≡ true
    → ((j : Bytes) → contains (keys overlay) j ≡ true → lookup j idx ≡ last_index j out)
    → env_value k (merge_entries idx overlay out) ≡ later (lookup k overlay) (env_value k out)
unfolding merge_entries distinct contains
merge_entries-env_value idx [] out k d p places = unfold lookup in refl
merge_entries-env_value idx ((j, v) ∷ overlay) out k d p places =
    let (absent, others) =
      &&-eq-true (not (contains (keys overlay) j)) (distinct (keys overlay)) d in
    let (plain, plains) = &&-eq-true (not (has_equals j)) (all_plain overlay) p in
    let next_out : List Bytes = put_entry (lookup j idx) (entry j v) out in
    let here : last_index j out ≡ lookup j idx = sym (places j (ground (arith, same_refl j))) in
    let p_j : has_equals j ≡ false = ground arith in
    let kept : (i : Bytes)
        → contains (keys overlay) i ≡ true
        → lookup i idx ≡ last_index i next_out =
      λ i inside.
        let apart : same j i ≡ false = ground (arith, absent, inside, same_iff j i) in
        places i (ground arith)
        ∙ sym (last_index-put_entry (lookup j idx) out j i v p_j here apart) in
    merge_entries-env_value idx overlay next_out k others plains kept
    ∙ ap (later (lookup k overlay)) (env_value-put_entry (lookup j idx) out j k v p_j here)
    ∙ ground (arith, lookup-front j k v overlay, lookup-absent j overlay, absent, same_iff j k)

contains-add_sorted :
    (k j v : Bytes) (m : Map Bytes)
    → contains (keys (add_sorted k v m)) j ≡ (same k j || contains (keys m) j)
unfolding add_sorted contains
contains-add_sorted k j v [] = refl
contains-add_sorted k j v ((i, w) ∷ m) = ground (arith, contains-add_sorted k j v m)

distinct-add_sorted :
    (k v : Bytes) (m : Map Bytes)
    → contains (keys m) k ≡ false
    → distinct (keys m) ≡ true
    → distinct (keys (add_sorted k v m)) ≡ true
unfolding add_sorted contains distinct
distinct-add_sorted k v [] h d = refl
distinct-add_sorted k v ((i, w) ∷ m) h d =
    ground
      (arith, same_iff i k, same_iff k i, contains-add_sorted k i v m, distinct-add_sorted k v m)

plain-add_sorted :
    (k v : Bytes) (m : Map Bytes)
    → all_plain (add_sorted k v m) ≡ (not (has_equals k) && all_plain m)
unfolding add_sorted
plain-add_sorted k v [] = refl
plain-add_sorted k v ((i, w) ∷ m) = ground (arith, plain-add_sorted k v m)

lookup-add_sorted :
    (k j v : Bytes) (m : Map Bytes)
    → contains (keys m) k ≡ false
    → lookup j (add_sorted k v m) ≡ (if same k j then some v else lookup j m)
unfolding add_sorted lookup contains
lookup-add_sorted k j v [] h = refl
lookup-add_sorted k j v ((i, w) ∷ m) h =
    ground (arith, same_iff i k, same_iff k j, same_iff i j, lookup-add_sorted k j v m)

contains-sort_entries :
    (j : Bytes) (m : Map Bytes) → contains (keys (sort_entries m)) j ≡ contains (keys m) j
unfolding sort_entries contains
contains-sort_entries j [] = refl
contains-sort_entries j ((k, v) ∷ m) =
    ground (arith, contains-add_sorted k j v (sort_entries m), contains-sort_entries j m)

distinct-sort_entries :
    (m : Map Bytes) → distinct (keys m) ≡ true → distinct (keys (sort_entries m)) ≡ true
unfolding sort_entries distinct
distinct-sort_entries [] h = refl
distinct-sort_entries ((k, v) ∷ m) h = ground (
  arith,
  contains-sort_entries k m,
  distinct-add_sorted k v (sort_entries m),
  distinct-sort_entries m,
)

plain-sort_entries : (m : Map Bytes) → all_plain (sort_entries m) ≡ all_plain m
unfolding sort_entries
plain-sort_entries [] = refl
plain-sort_entries ((k, v) ∷ m) =
    ground (arith, plain-add_sorted k v (sort_entries m), plain-sort_entries m)

lookup-sort_entries :
    (j : Bytes) (m : Map Bytes) → distinct (keys m) ≡ true → lookup j (sort_entries m) ≡ lookup j m
unfolding sort_entries distinct
lookup-sort_entries j [] h = refl
lookup-sort_entries j ((k, v) ∷ m) h = ground (
  arith,
  contains-sort_entries k m,
  lookup-add_sorted k j v (sort_entries m),
  lookup-sort_entries j m,
  lookup-front k j v m,
)

-- Where no key comes twice in the overlay and none holds an equals sign, a process that takes the
-- last entry of a key finds in the environment of mergeEnv the value of the overlay, where it has
-- the key, and else the value of the base.
pub env_value-merge_env :
    (base : List Bytes) (overlay : Map Bytes) (k : Bytes)
    → distinct (keys overlay) ≡ true
    → all_plain overlay ≡ true
    → env_value k (merge_env base overlay) ≡ later (lookup k overlay) (env_value k base)
unfolding merge_env lookup
env_value-merge_env base overlay k d p =
    merge_entries-env_value (index_env 0 base []) (sort_entries overlay) base k
      (distinct-sort_entries overlay d) (plain-sort_entries overlay ∙ p)
      (λ j inside. lookup-index_env base 0 [] j ∙ unshifted (last_index j base))
    ∙ ap (λ o. later o (env_value k base)) (lookup-sort_entries k overlay d)
