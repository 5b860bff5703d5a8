-- ===== src/Remote/Search/Sound.antt =====
-- remote/search.go: what the rows of a search have in common.
use mathlib.Core.List.{reverse_aux}
use go_luarocks.Prelude.{
  subst, ◌≡◌, Bool, true, false, not, ◌&&◌, ◌||◌, Option, none, some, List, [], ◌∷◌, ◌++◌, arith,
  Bytes, same, Map, Result, ok, err, if◌then◌else◌, contains, All, All-append, All-map, refl, ap,
  Result-cases, same_iff, ◌==◌, Bool-cases, inl, inr, &&-eq-true,
}
use go_luarocks.Deps.Float.{Float}
use go_luarocks.Types.{Version}
use go_luarocks.Deps.Version.{parse_version}
use go_luarocks.Deps.Constraint.{match_all}
use go_luarocks.Files.Strings.{has_prefix}
use go_luarocks.Manif.Writer.{contains_text}
use go_luarocks.Remote.Manifest.{ArchEntry, arch_installed, by_key}
use go_luarocks.Remote.Search.{
  Query, Match, Loaded, match_name, accepts_version, match_entries, match_versions, match_names,
  match_manifest, match_provided_names, match_provided, search_servers, exact_version,
  has_exact_match, comes_before, sift_match, sift_matches, sort_matches, search_result, search,
  accepted_arch_set,
}

ok_injective : {E A : Type 0} {a b : A} → ◌≡◌ {A = Result E A} (ok a) (ok b) → a ≡ b
ok_injective h = ground arith

module _ {N : Type 0} ⦃fl : Float N⦄ (q : Query N) (accepted : List Bytes) where
  -- The row has passed the tests of the walk.
  abbrev Passes : Match → Type 0
  Passes m =
      (match_name q m.name ≡ true)
      × (contains accepted m.arch ≡ true)
      × (accepts_version q m.version ≡ true)

  match_entries-Passes :
      (server : Bytes) (dir : Option Bytes) (name version : Bytes) (entries : List ArchEntry)
      → match_name q name ≡ true
      → accepts_version q version ≡ true
      → All Passes (match_entries q accepted server dir name version entries)
  unfolding match_entries
  match_entries-Passes server dir name version [] hn hv = tt
  match_entries-Passes server dir name version (entry ∷ entries) hn hv =
      elim (Bool-cases (contains accepted entry.arch)) [
        | inl h ↦ rw h ((hn, h, hv), match_entries-Passes server dir name version entries hn hv)
        | inr h ↦ rw h (match_entries-Passes server dir name version entries hn hv)
      ]

  match_versions-Passes :
      (server : Bytes) (dir : Option Bytes) (name : Bytes) (versions : Map (List ArchEntry))
      → match_name q name ≡ true
      → All Passes (match_versions q accepted server dir name versions)
  unfolding match_versions
  match_versions-Passes server dir name [] hn = tt
  match_versions-Passes server dir name ((version, entries) ∷ versions) hn =
      elim (Bool-cases (accepts_version q version)) [
        | inl h ↦ rw h (
            All-append Passes (match_entries q accepted server dir name version entries) _
              (match_entries-Passes server dir name version entries hn h)
              (match_versions-Passes server dir name versions hn))
        | inr h ↦ rw h (match_versions-Passes server dir name versions hn)
      ]

  match_names-Passes :
      (server : Bytes) (dir : Option Bytes) (names : Map (Map (List ArchEntry)))
      → All Passes (match_names q accepted server dir names)
  unfolding match_names
  match_names-Passes server dir [] = tt
  match_names-Passes server dir ((name, versions) ∷ names) = elim (Bool-cases (match_name q name)) [
    | inl h ↦ rw h (
        All-append Passes (match_versions q accepted server dir name (by_key versions)) _
          (match_versions-Passes server dir name (by_key versions) h)
          (match_names-Passes server dir names))
    | inr h ↦ rw h (match_names-Passes server dir names)
  ]

  match_provided_names-Passes :
      (provided : Map Bytes)
      → contains accepted arch_installed ≡ true
      → All Passes (match_provided_names q accepted provided)
  unfolding match_provided_names
  match_provided_names-Passes [] h = tt
  match_provided_names-Passes ((name, version) ∷ provided) h =
      elim (Bool-cases (match_name q name && accepts_version q version)) [
        | inl e ↦
            let (hn, hv) = &&-eq-true (match_name q name) (accepts_version q version) e in
            rw e ((hn, h, hv), match_provided_names-Passes provided h)
        | inr e ↦ rw e (match_provided_names-Passes provided h)
      ]

  match_provided-Passes : All Passes (match_provided q accepted)
  unfolding match_provided
  match_provided-Passes =
      elim (Bool-cases (not (contains accepted arch_installed) || not (same q.namespace []))) [
        | inl e ↦ rw e tt
        | inr e ↦ rw e (match_provided_names-Passes (by_key q.provided) (ground arith))
      ]

  match_manifest-Passes :
      (server : Bytes) (l : Loaded) → All Passes (match_manifest q accepted server l)
  unfolding match_manifest
  match_manifest-Passes server l = match_names-Passes server l.local_dir _

  pick-Passes :
      {A : Type 0} (b : Bool) (xs : List Match) (a : A) (r : List Match × A)
      → All Passes xs
      → All Passes r.0
      → All Passes (if b then (xs, a) else r).0
  pick-Passes true xs a r h k = h
  pick-Passes false xs a r h k = k

  -- Whether or not the server's manifest is there.
  loaded-Passes :
      {E : Type 0} (r : Result E Loaded) (f : E → List Match × Option E)
      (g : Loaded → List Match × Option E)
      → ((e : E) → All Passes (f e).0)
      → ((l : Loaded) → All Passes (g l).0)
      → All Passes (elim r as (λ _. List Match × Option E) [ err e ↦ f e | ok l ↦ g l ]).0
  loaded-Passes (err e) f g hf hg = hf e
  loaded-Passes (ok l) f g hf hg = hg l

  abbrev or_first : {E : Type 0} → Option E → E → Option E
  or_first failure e = elim failure [ none ↦ some e | some f ↦ some f ]

  search_servers-Passes :
      {E : Type 0} (load : Bytes → Bytes → Result E Loaded) (servers : List Bytes)
      (found : List Match) (failure : Option E)
      → All Passes found
      → All Passes (search_servers q accepted load servers found failure).0
  unfolding search_servers
  search_servers-Passes load [] found failure h = h
  search_servers-Passes load (server ∷ servers) found failure h =
      loaded-Passes (load server q.namespace) _ _
        (λ e. search_servers-Passes load servers found (or_first failure e) h)
        (λ l.
          let found' = found ++ match_manifest q accepted server l in
          let more =
            All-append Passes found (match_manifest q accepted server l) h
              (match_manifest-Passes server l) in
          let exact = exact_version q.constraints in
          pick-Passes (not (same exact []) && has_exact_match found' q.name exact) found' failure
            (search_servers q accepted load servers found' failure) more
            (search_servers-Passes load servers found' failure more))

-- Sorting keeps what holds of all rows.
module _ (N : Type 0) ⦃fl : Float N⦄ (P : Match → Type 0) where
  sift_match-All : (x : Match) (ys : List Match) → P x → All P ys → All P (sift_match N x ys)
  unfolding sift_match
  sift_match-All x [] p h = (p, tt)
  sift_match-All x (y ∷ ys) p h = elim (Bool-cases (comes_before N x y)) [
    | inl e ↦ rw e (h.0, sift_match-All x ys p h.1)
    | inr e ↦ rw e (p, h)
  ]

  sift_matches-All : (acc xs : List Match) → All P acc → All P xs → All P (sift_matches N acc xs)
  unfolding sift_matches
  sift_matches-All acc [] h k = h
  sift_matches-All acc (x ∷ xs) h k =
      sift_matches-All (sift_match N x acc) xs (sift_match-All x acc k.0 h) k.1

  reverse_aux-All : (xs ys : List Match) → All P xs → All P ys → All P (reverse_aux xs ys)
  reverse_aux-All [] ys h k = k
  reverse_aux-All (x ∷ xs) ys h k = reverse_aux-All xs (x ∷ ys) h.1 (h.0, k)

  sort_matches-All : (xs : List Match) → All P xs → All P (sort_matches N xs)
  unfolding sort_matches
  sort_matches-All xs h = reverse_aux-All (sift_matches N [] xs) [] (sift_matches-All [] xs tt h) tt

  search_result-All :
      {E : Type 0} (failure : Option E) (xs ys : List Match)
      → All P xs
      → search_result N failure xs ≡ ok ys
      → All P ys
  unfolding search_result
  search_result-All (some e) [] ys h r = ground arith
  search_result-All none [] ys h r = subst (λ zs. All P zs) (ok_injective r) (sort_matches-All [] h)
  search_result-All (some e) (x ∷ xs) ys h r =
      subst (λ zs. All P zs) (ok_injective r) (sort_matches-All (x ∷ xs) h)
  search_result-All none (x ∷ xs) ys h r =
      subst (λ zs. All P zs) (ok_injective r) (sort_matches-All (x ∷ xs) h)

has_prefix-front : (s p : Bytes) → has_prefix s p ≡ true → (rest : Bytes) × (s ≡ p ++ rest)
unfolding has_prefix
has_prefix-front s [] h = (s, refl)
has_prefix-front [] (c ∷ p) h = absurd (ground (arith, h))
has_prefix-front (a ∷ s) (c ∷ p) h =
    let (first, others) = &&-eq-true (a == c) (has_prefix s p) h in
    let (rest, e) = has_prefix-front s p others in (rest, ground (arith, first, e))

contains_text-parts :
    (s p : Bytes)
    → contains_text s p ≡ true
    → (before : Bytes) × (after : Bytes) × (s ≡ before ++ (p ++ after))
unfolding contains_text
contains_text-parts [] p h = let (rest, e) = has_prefix-front [] p h in ([], rest, e)
contains_text-parts (a ∷ s) p h = elim (Bool-cases (has_prefix (a ∷ s) p)) [
  | inl front ↦ let (rest, e) = has_prefix-front (a ∷ s) p front in ([], rest, e)
  | inr other ↦
      let (before, after, e) = contains_text-parts s p (ground (arith, h, other)) in
      (a ∷ before, after, ap (λ t. a ∷ t) e)
]

-- The name holds the part that is asked for, or is the name that is asked for.
abbrev pub IsNamed : Bool → Bytes → Bytes → Type 0
IsNamed true part name = (before : Bytes) × (after : Bytes) × (name ≡ before ++ (part ++ after))
IsNamed false whole name = name ≡ whole

module _ {N : Type 0} ⦃fl : Float N⦄ (q : Query N) (accepted : List Bytes) where
  -- The row's name, arch and version are those that the query asks for.
  abbrev pub Answers : Match → Type 0
  Answers m =
      IsNamed q.substring q.name m.name
      × (contains accepted m.arch ≡ true)
      × ((v : Version N) × (parse_version m.version ≡ ok v) × (match_all v q.constraints ≡ true))

  match_name-IsNamed : (name : Bytes) → match_name q name ≡ true → IsNamed q.substring q.name name
  unfolding match_name
  match_name-IsNamed name h = elim (Bool-cases q.substring) [
    | inl part ↦ rw part (contains_text-parts name q.name (ground (arith, h, part)))
    | inr whole ↦ rw whole ((same_iff name q.name).0 (ground (arith, h, whole)))
  ]

  accepts_version-meets :
      (version : Bytes)
      → accepts_version q version ≡ true
      → (v : Version N) × (parse_version version ≡ ok v) × (match_all v q.constraints ≡ true)
  unfolding accepts_version
  accepts_version-meets version h = elim (Result-cases (parse_version {N = N} version)) [
    | inl (v, e) ↦ (v, e, ground (arith, h, e))
    | inr (f, e) ↦ absurd (ground (arith, h, e))
  ]

  Passes-Answers : (m : Match) → Passes q accepted m → Answers m
  Passes-Answers m (hn, ha, hv) =
      (match_name-IsNamed m.name hn, ha, accepts_version-meets m.version hv)

-- Where Search succeeds, each row of its result has a name that contains the one of the query,
-- where it asks for a part, and is that name otherwise, an arch among those that the query
-- accepts, and a version that parses and meets its constraints.
pub search-Answers :
    {N : Type 0} ⦃fl : Float N⦄ {E : Type 0} (detected host : Bytes)
    (load : Bytes → Bytes → Result E Loaded) (servers : List Bytes) (q : Query N)
    (rows : List Match)
    → search detected host load servers q ≡ ok rows
    → All (Answers q (accepted_arch_set detected q.arch host)) rows
unfolding search
search-Answers {N} detected host load servers q rows h =
    let accepted = accepted_arch_set detected q.arch host in
    let walked = search_servers q accepted load servers [] none in
    All-map (Passes q accepted) (Answers q accepted) (Passes-Answers q accepted) rows (
      search_result-All N (Passes q accepted) walked.1 (walked.0 ++ match_provided q accepted) rows
        (All-append (Passes q accepted) walked.0 (match_provided q accepted)
          (search_servers-Passes q accepted load servers [] none tt)
          (match_provided-Passes q accepted))
        h)
