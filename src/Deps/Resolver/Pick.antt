-- ===== src/Deps/Resolver/Pick.antt =====
-- What pickNewest of deps/resolver.go returns.
use mathlib.Core.List.{reverse-append}
use go_luarocks.Prelude.{
  Bytes, ◌≡◌, refl, ◌∙◌, Bool, true, false, Option, none, some, List, [], ◌∷◌, ◌++◌, arith, inl,
  inr, Bool-cases, Result-cases, Option-cases, ok, All, All-map, In, here, there, filter, reverse,
}
use go_luarocks.Types.{Dep, VersionedRock, VersionConstraint}
use go_luarocks.Deps.Float.{Float}
use go_luarocks.Deps.Version.{compare}
use go_luarocks.Deps.Version.Order.{compare-flip, compare_trans, flip, is_le}
use go_luarocks.Deps.Constraint.{match_all}
use go_luarocks.Deps.Resolver.{
  Resolver, precedes, sift, sort_reversed, first, pick_newest, preload, find_rock,
}

last? {ℓ} : {A : Type ℓ} → List A → Option A
last? [] = none
last? (x ∷ []) = some x
last? (x ∷ y ∷ ys) = last? (y ∷ ys)

first-append {ℓ} :
    {A : Type ℓ} (xs ys : List A)
    → first (xs ++ ys) ≡ (elim (first xs) [ none ↦ first ys | some z ↦ some z ])
unfolding first
first-append [] ys = refl
first-append (x ∷ xs) ys = refl

last?-cons {ℓ} :
    {A : Type ℓ} (x y : A) (ys : List A)
    → (elim (last? (y ∷ ys)) [ none ↦ some x | some z ↦ some z ]) ≡ last? (y ∷ ys)
unfolding last?
last?-cons x y [] = refl
last?-cons x y (z ∷ zs) = last?-cons x z zs

first-reverse {ℓ} : {A : Type ℓ} (xs : List A) → first (reverse xs) ≡ last? xs
unfolding first last?
first-reverse [] = refl
first-reverse (x ∷ []) = refl
first-reverse (x ∷ y ∷ ys) =
    rw
      (
        reverse-append (x ∷ []) (y ∷ ys),
        first-append (reverse (y ∷ ys)) (x ∷ []),
        first-reverse (y ∷ ys),
      )
      (last?-cons x y ys)

module _ {ℓ} {A : Type ℓ} (P : A → Type 0) where
  All-last? : (xs : List A) (p : A) → All P xs → last? xs ≡ some p → P p
  unfolding last?
  All-last? [] p h e = cc
  All-last? (x ∷ []) p h e = let q : x ≡ p = cc in rw (← q) h.0
  All-last? (x ∷ y ∷ ys) p h e = All-last? (y ∷ ys) p h.1 e

  All-filter : (p : A → Bool) (xs : List A) → All P xs → All P (filter p xs)
  All-filter p [] h = tt
  All-filter p (x ∷ xs) h = elim (Bool-cases (p x)) [
    | inl e ↦ rw e (h.0, All-filter p xs h.1)
    | inr e ↦ rw e (All-filter p xs h.1)
  ]

All-In {ℓ} : {A : Type ℓ} (xs : List A) → All (λ x. In x xs) xs
All-In [] = tt
All-In (x ∷ xs) =
    (here refl, All-map (λ y. In y xs) (λ y. In y (x ∷ xs)) (λ y m. there m) xs (All-In xs))

-- What holds of the elements that pass a test.
filter-All {ℓ} :
    {A : Type ℓ} (P : A → Type 0) (p : A → Bool) (xs : List A)
    → All P (filter p xs)
    → All (λ x. p x ≡ true → P x) xs
filter-All P p [] h = tt
filter-All P p (x ∷ xs) h = elim (Bool-cases (p x)) [
  | inl e ↦ let h' : All P (x ∷ filter p xs) = rw e at h in (λ _. h'.0, filter-All P p xs h'.1)
  | inr e ↦ let h' : All P (filter p xs) = rw e at h in (λ t. absurd (cc), filter-All P p xs h')
]

All-filter_self {ℓ} :
    {A : Type ℓ} (p : A → Bool) (xs : List A) → All (λ x. p x ≡ true) (filter p xs)
All-filter_self p [] = tt
All-filter_self p (x ∷ xs) = elim (Bool-cases (p x)) [
  | inl e ↦ rw e (e, All-filter_self p xs)
  | inr e ↦ rw e (All-filter_self p xs)
]

module _ {N : Type 0} ⦃fl : Float N⦄ where
  module _ (P : VersionedRock N → Type 0) where
    All-sift :
        (x : VersionedRock N) (ys : List (VersionedRock N)) → P x → All P ys → All P (sift x ys)
    unfolding sift
    All-sift x [] hx h = (hx, h)
    All-sift x (y ∷ ys) hx h = elim (Bool-cases (precedes x y)) [
      | inl e ↦ rw e (h.0, All-sift x ys hx h.1)
      | inr e ↦ rw e (hx, h)
    ]

    All-sort_reversed :
        (acc xs : List (VersionedRock N)) → All P acc → All P xs → All P (sort_reversed acc xs)
    unfolding sort_reversed
    All-sort_reversed acc [] ha h = ha
    All-sort_reversed acc (x ∷ xs) ha h =
        All-sort_reversed (sift x acc) xs (All-sift x acc h.0 ha) h.1

    -- A property of all the candidates holds of the pick.
    pub pick_newest-All :
        (xs : List (VersionedRock N)) (cs : List (VersionConstraint N)) (p : VersionedRock N)
        → All P xs
        → pick_newest xs cs ≡ some p
        → P p
    unfolding pick_newest
    pick_newest-All xs cs p h e =
        All-last? P (sort_reversed [] (filter (λ c. match_all c.version cs) xs)) p
          (All-sort_reversed [] _ tt (All-filter P (λ c. match_all c.version cs) xs h))
          (cc (first-reverse (sort_reversed [] (filter (λ c. match_all c.version cs) xs))))

  pick_newest-match :
      (xs : List (VersionedRock N)) (cs : List (VersionConstraint N)) (p : VersionedRock N)
      → pick_newest xs cs ≡ some p
      → match_all p.version cs ≡ true
  unfolding pick_newest
  pick_newest-match xs cs p e =
      let P = λ (c : VersionedRock N). match_all c.version cs ≡ true in
      All-last? P (sort_reversed [] (filter (λ c. match_all c.version cs) xs)) p
        (All-sort_reversed P [] _ tt (All-filter_self (λ c. match_all c.version cs) xs))
        (cc (first-reverse (sort_reversed [] (filter (λ c. match_all c.version cs) xs))))

  -- The on-demand fetch changes nothing but the rockspec.
  preload-version :
      (r : Resolver N) (p q : VersionedRock N)
      → preload r p ≡ ok q
      → (q.version ≡ p.version) × (q.name ≡ p.name)
  unfolding preload
  preload-version r p q h = ground arith

  pub find_rock_inversion :
      (r : Resolver N) (d : Dep N) (p : VersionedRock N)
      → find_rock r d ≡ ok p
      → (rows : List (VersionedRock N)) × (q : VersionedRock N) × (r.query d.name d.namespace
          ≡ ok rows)
        × (pick_newest rows d.constraints ≡ some q)
        × (preload r q ≡ ok p)
  unfolding find_rock
  find_rock_inversion r d p h = elim (Result-cases (r.query d.name d.namespace)) [
    | inr (e, failed) ↦ absurd (ground arith)
    | inl (rows, answer) ↦ elim (Option-cases (pick_newest rows d.constraints)) [
      | inl nothing ↦ absurd (ground arith)
      | inr (q, picked) ↦ (rows, q, answer, picked, ground arith)
    ]
  ]

  -- What the index and the fetcher give for a dependency meets its constraints.
  pub find_rock-match :
      (r : Resolver N) (d : Dep N) (p : VersionedRock N)
      → find_rock r d ≡ ok p
      → match_all p.version d.constraints ≡ true
  find_rock-match r d p h =
      let (rows, q, answer, picked, loaded) = find_rock_inversion r d p h in
      rw (preload-version r q p loaded).0 (pick_newest-match rows d.constraints q picked)

  -- The rows of the index have the name that was asked for.
  abbrev pub AnswersByName : Resolver N → Type 0
  AnswersByName r =
      (name namespace : Bytes) (rows : List (VersionedRock N))
      → r.query name namespace ≡ ok rows
      → All (λ row. row.name ≡ name) rows

  pub find_rock-name :
      (r : Resolver N) (d : Dep N) (p : VersionedRock N)
      → AnswersByName r
      → find_rock r d ≡ ok p
      → p.name ≡ d.name
  find_rock-name r d p named h =
      let (rows, q, answer, picked, loaded) = find_rock_inversion r d p h in
      (preload-version r q p loaded).1
      ∙ pick_newest-All (λ x. x.name ≡ d.name) rows d.constraints q
          (named d.name d.namespace rows answer) picked

  abbrev NonePrecedes : List (VersionedRock N) → VersionedRock N → Type 0
  NonePrecedes xs m = All (λ y. precedes y m ≡ false) xs

  -- The last of the reversed sorted part is preceded by none of it.
  abbrev IsBestLast : List (VersionedRock N) → Type 0
  IsBestLast xs = (m : VersionedRock N) → last? xs ≡ some m → NonePrecedes xs m

  abbrev HasRevisions : Bool → List (VersionedRock N) → Type 0
  HasRevisions b xs = All (λ x. x.version.has_revision ≡ b) xs

  precedes_asymm : (x y : VersionedRock N) → precedes x y ≡ true → precedes y x ≡ false
  unfolding precedes flip
  precedes_asymm x y h = ground (arith, compare-flip x.version y.version)

  precedes_irrefl : (x : VersionedRock N) → precedes x x ≡ false
  unfolding precedes flip
  precedes_irrefl x = ground (arith, compare-flip x.version x.version)

  precedes_trans :
      (b : Bool) (x y z : VersionedRock N)
      → x.version.has_revision ≡ b
      → y.version.has_revision ≡ b
      → precedes x y ≡ false
      → precedes y z ≡ false
      → precedes x z ≡ false
  unfolding precedes
  precedes_trans b x y z hx hy h k =
      ground (arith, compare_trans x.version y.version z.version (λ n. ground arith))

  sift-All :
      (P : VersionedRock N → Type 0) (x : VersionedRock N) (ys : List (VersionedRock N))
      → All P (sift x ys)
      → P x × All P ys
  unfolding sift
  sift-All P x [] h = h
  sift-All P x (y ∷ ys) h = elim (Bool-cases (precedes x y)) [
    | inl e ↦
        let h' : All P (y ∷ sift x ys) = rw e at h in
        let (hx, hys) = sift-All P x ys h'.1 in (hx, (h'.0, hys))
    | inr e ↦ let h' : All P (x ∷ y ∷ ys) = rw e at h in h'
  ]

  last?-sift :
      (x y : VersionedRock N) (ys : List (VersionedRock N))
      → last? (y ∷ sift x ys) ≡ last? (sift x ys)
  unfolding sift last?
  last?-sift x y [] = refl
  last?-sift x y (z ∷ zs) = elim (Bool-cases (precedes x z)) [ inl e ↦ rw e | inr e ↦ rw e ]

  IsBestLast-tail :
      (y : VersionedRock N) (ys : List (VersionedRock N)) → IsBestLast (y ∷ ys) → IsBestLast ys
  unfolding last?
  IsBestLast-tail y [] h m e = tt
  IsBestLast-tail y (z ∷ zs) h m e = (h m e).1

  sift-IsBestLast :
      (b : Bool) (x : VersionedRock N) (ys : List (VersionedRock N))
      → x.version.has_revision ≡ b
      → HasRevisions b ys
      → IsBestLast ys
      → IsBestLast (sift x ys)
  unfolding sift
  sift-IsBestLast b x [] hx u h =
      λ m e. let q : x ≡ m = unfold last? in cc in (rw (← q) (precedes_irrefl x), tt)
  sift-IsBestLast b x (y ∷ ys) hx u h = elim (Bool-cases (precedes x y)) [
    | inl e ↦ rw e λ m l.
        let best =
          sift-IsBestLast b x ys hx u.1 (IsBestLast-tail y ys h) m (cc (last?-sift x y ys)) in
        (
          precedes_trans b y x m u.0 hx (precedes_asymm x y e)
              (sift-All (λ z. precedes z m ≡ false) x ys best).0,
          best,
        )
    | inr e ↦
        rw e λ m l.
          let best = h m (unfold last? in l) in (precedes_trans b x y m hx u.0 e best.0, best)
  ]

  sort_reversed-IsBestLast :
      (b : Bool) (acc xs : List (VersionedRock N))
      → HasRevisions b acc
      → HasRevisions b xs
      → IsBestLast acc
      → IsBestLast (sort_reversed acc xs)
  unfolding sort_reversed
  sort_reversed-IsBestLast b acc [] ua u h = h
  sort_reversed-IsBestLast b acc (x ∷ xs) ua u h =
      sort_reversed-IsBestLast b (sift x acc) xs
        (All-sift (λ x. x.version.has_revision ≡ b) x acc u.0 ua) u.1
        (sift-IsBestLast b x acc u.0 ua h)

  sort_reversed-All :
      (P : VersionedRock N → Type 0) (acc xs : List (VersionedRock N))
      → All P (sort_reversed acc xs)
      → All P acc × All P xs
  unfolding sort_reversed
  sort_reversed-All P acc [] h = (h, tt)
  sort_reversed-All P acc (x ∷ xs) h =
      let (hs, hxs) = sort_reversed-All P (sift x acc) xs h in
      let (hx, hacc) = sift-All P x acc hs in (hacc, (hx, hxs))

  precedes-is_le :
      (x y : VersionedRock N) → precedes x y ≡ false → is_le (compare x.version y.version) ≡ true
  unfolding precedes
  precedes-is_le x y h = ground arith

  none_newer :
      (b : Bool) (xs : List (VersionedRock N)) (cs : List (VersionConstraint N))
      (p : VersionedRock N)
      → HasRevisions b xs
      → pick_newest xs cs ≡ some p
      → All (λ y. match_all y.version cs ≡ true → precedes y p ≡ false) xs
  unfolding pick_newest
  none_newer b xs cs p u e =
      let matching = λ (c : VersionedRock N). match_all c.version cs in
      let best =
        sort_reversed-IsBestLast b [] (filter matching xs) tt
          (All-filter (λ x. x.version.has_revision ≡ b) matching xs u) (λ m _. tt) p
          (cc (first-reverse (sort_reversed [] (filter matching xs)))) in
      filter-All (λ y. precedes y p ≡ false) matching xs
        (sort_reversed-All (λ y. precedes y p ≡ false) [] (filter matching xs) best).1

  -- Where the candidates all carry a revision, or all carry none, pickNewest returns a candidate
  -- that matches the constraints, and no candidate that matches them is newer.
  pub pick_newest_best :
      (b : Bool) (xs : List (VersionedRock N)) (cs : List (VersionConstraint N))
      (p : VersionedRock N)
      → All (λ x. x.version.has_revision ≡ b) xs
      → pick_newest xs cs ≡ some p
      → In p xs
        × (match_all p.version cs ≡ true)
        × All (λ y. match_all y.version cs ≡ true → is_le (compare y.version p.version) ≡ true) xs
  pick_newest_best b xs cs p u e = (
    pick_newest-All (λ q. In q xs) xs cs p (All-In xs) e,
    pick_newest-match xs cs p e,
    All-map (λ y. match_all y.version cs ≡ true → precedes y p ≡ false)
        (λ y. match_all y.version cs ≡ true → is_le (compare y.version p.version) ≡ true)
        (λ y h m. precedes-is_le y p (h m)) xs (none_newer b xs cs p u e),
  )
