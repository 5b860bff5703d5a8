-- ===== src/Remote/Search/Complete.antt =====
-- remote/search.go: the rows that a search finds.
use mathlib.Core.List.{reverse_aux}
use go_luarocks.Prelude.{
  subst, ◌⊎◌, ◌≡◌, refl, sym, ◌∙◌, ap, Bool, true, false, not, ◌&&◌, Option, none, some, List, [],
  ◌∷◌, ◌++◌, arith, Bytes, same, Map, Result, ok, err, if◌then◌else◌, contains, Bool-cases, inl,
  inr, In, here, there, In-append_left, In-append_right,
}
use go_luarocks.Deps.Float.{Float}
use go_luarocks.Manif.Value.{text_lt}
use go_luarocks.Remote.Manifest.{ArchEntry, by_key, add_by_key}
use go_luarocks.Remote.Server.{normalize_server}
use go_luarocks.Remote.Search.{
  Query, Match, Loaded, match_name, accepts_version, match_entries, match_versions, match_names,
  match_manifest, match_provided, search_servers, exact_version, has_exact_match, comes_before,
  sift_match, sift_matches, sort_matches, search_result, search, accepted_arch_set, artifact_url,
}

ok_injective : {E A : Type 0} {a b : A} → ◌≡◌ {A = Result E A} (ok a) (ok b) → a ≡ b
ok_injective h = ground arith

module _ {V : Type 0} where
  In-add_by_key :
      (x : Bytes × V) (k : Bytes) (v : V) (m : Map V) → In x ((k, v) ∷ m) → In x (add_by_key k v m)
  unfolding add_by_key
  In-add_by_key x k v [] h = h
  In-add_by_key x k v ((j, w) ∷ m) h = elim (Bool-cases (text_lt k j)) [
    | inl e ↦ rw e h
    | inr e ↦ rw e (later h (In-add_by_key x k v m))
  ]
    where
      later :
          In x ((k, v) ∷ (j, w) ∷ m)
          → (In x ((k, v) ∷ m) → In x (add_by_key k v m))
          → In x ((j, w) ∷ add_by_key k v m)
      later (here e) f = there (f (here e))
      later (there (here e)) f = here e
      later (there (there i)) f = there (f (there i))

  In-by_key : (x : Bytes × V) (m : Map V) → In x m → In x (by_key m)
  unfolding by_key
  In-by_key x [] i = elim i [ ]
  In-by_key x ((k, v) ∷ m) (here e) = In-add_by_key x k v (by_key m) (here e)
  In-by_key x ((k, v) ∷ m) (there i) = In-add_by_key x k v (by_key m) (there (In-by_key x m i))

-- The row of an entry of a server's manifest.
abbrev pub row_of : {N : Type 0} → Query N → Bytes → Option Bytes → Bytes → Bytes → Bytes → Match
row_of q server dir name version arch = record {
  name = name;
  version = version;
  arch = arch;
  server = normalize_server server;
  namespace = q.namespace;
  url = artifact_url server dir name version arch;
}

module _ {N : Type 0} ⦃fl : Float N⦄ (q : Query N) (accepted : List Bytes) where
  In-match_entries :
      (server : Bytes) (dir : Option Bytes) (name version : Bytes) (entry : ArchEntry)
      (entries : List ArchEntry)
      → contains accepted entry.arch ≡ true
      → In entry entries
      → In
          (row_of q server dir name version entry.arch)
          (match_entries q accepted server dir name version entries)
  unfolding match_entries
  In-match_entries server dir name version entry [] h i = elim i [ ]
  In-match_entries server dir name version entry (a ∷ entries) h (here e) =
      rw (ap (λ b. contains accepted (ArchEntry.arch b)) (sym e) ∙ h)
        (here (ap (λ b. row_of q server dir name version (ArchEntry.arch b)) e))
  In-match_entries server dir name version entry (a ∷ entries) h (there i) =
      elim (Bool-cases (contains accepted a.arch)) [
        | inl e ↦ rw e (there (In-match_entries server dir name version entry entries h i))
        | inr e ↦ rw e (In-match_entries server dir name version entry entries h i)
      ]

  In-match_versions :
      (x : Match) (server : Bytes) (dir : Option Bytes) (name version : Bytes)
      (entries : List ArchEntry) (versions : Map (List ArchEntry))
      → accepts_version q version ≡ true
      → In x (match_entries q accepted server dir name version entries)
      → In (version, entries) versions
      → In x (match_versions q accepted server dir name versions)
  unfolding match_versions
  In-match_versions x server dir name version entries [] h k i = elim i [ ]
  In-match_versions x server dir name version entries ((v, es) ∷ versions) h k (here e) =
      rw (ap (λ p. accepts_version q p.0) (sym e) ∙ h) (
        In-append_left (match_versions q accepted server dir name versions)
          (subst (λ p. In x (match_entries q accepted server dir name p.0 p.1)) e k))
  In-match_versions x server dir name version entries ((v, es) ∷ versions) h k (there i) =
      let rest = In-match_versions x server dir name version entries versions h k i in
      elim (Bool-cases (accepts_version q v)) [
        | inl e ↦ rw e (In-append_right (match_entries q accepted server dir name v es) rest)
        | inr e ↦ rw e rest
      ]

  In-match_names :
      (x : Match) (server : Bytes) (dir : Option Bytes) (name : Bytes)
      (versions : Map (List ArchEntry)) (names : Map (Map (List ArchEntry)))
      → match_name q name ≡ true
      → In x (match_versions q accepted server dir name (by_key versions))
      → In (name, versions) names
      → In x (match_names q accepted server dir names)
  unfolding match_names
  In-match_names x server dir name versions [] h k i = elim i [ ]
  In-match_names x server dir name versions ((n, vs) ∷ names) h k (here e) =
      rw (ap (λ p. match_name q p.0) (sym e) ∙ h) (
        In-append_left (match_names q accepted server dir names)
          (subst (λ p. In x (match_versions q accepted server dir p.0 (by_key p.1))) e k))
  In-match_names x server dir name versions ((n, vs) ∷ names) h k (there i) =
      let rest = In-match_names x server dir name versions names h k i in
      elim (Bool-cases (match_name q n)) [
        | inl e ↦ rw e (In-append_right (match_versions q accepted server dir n (by_key vs)) rest)
        | inr e ↦ rw e rest
      ]

  -- Each entry of the manifest that answers the query has its row.
  In-match_manifest :
      (server : Bytes) (l : Loaded) (name version : Bytes) (entry : ArchEntry)
      (entries : List ArchEntry) (versions : Map (List ArchEntry))
      → match_name q name ≡ true
      → accepts_version q version ≡ true
      → contains accepted entry.arch ≡ true
      → In (name, versions) l.manifest.repository
      → In (version, entries) versions
      → In entry entries
      → In
          (row_of q server l.local_dir name version entry.arch)
          (match_manifest q accepted server l)
  unfolding match_manifest
  In-match_manifest server l name version entry entries versions hn hv ha i j k =
      In-match_names _ server l.local_dir name versions (by_key l.manifest.repository) hn
        (In-match_versions _ server l.local_dir name version entries (by_key versions) hv
          (In-match_entries server l.local_dir name version entry entries ha k)
          (In-by_key (version, entries) versions j))
        (In-by_key (name, versions) l.manifest.repository i)

  -- No version is asked for exactly, so the walk does not stop early.
  not_stopped :
      (found : List Match)
      → exact_version q.constraints ≡ []
      → (not (same (exact_version q.constraints) [])
          && has_exact_match found q.name (exact_version q.constraints))
        ≡ false
  unfolding same
  not_stopped found h = rw h refl

  module _ {E : Type 0} (load : Bytes → Bytes → Result E Loaded) where
    -- Whether or not the server's manifest is there.
    by_load :
        (P : List Match × Option E → Type 0) (r : Result E Loaded) (f : E → List Match × Option E)
        (g : Loaded → List Match × Option E)
        → ((e : E) → r ≡ err e → P (f e))
        → ((l : Loaded) → r ≡ ok l → P (g l))
        → P (elim r as (λ _. List Match × Option E) [ err e ↦ f e | ok l ↦ g l ])
    by_load P (err e) f g hf hg = hf e refl
    by_load P (ok l) f g hf hg = hg l refl

    goes_on :
        (x : Match) (b : Bool) (a r : List Match × Option E)
        → b ≡ false
        → In x r.0
        → In x (if b then a else r).0
    goes_on x b a r h i = rw h i

    -- The rows that have been found stay.
    In-search_servers :
        (x : Match) (servers : List Bytes) (found : List Match) (failure : Option E)
        → exact_version q.constraints ≡ []
        → In x found
        → In x (search_servers q accepted load servers found failure).0
    unfolding search_servers
    In-search_servers x [] found failure h i = i
    In-search_servers x (server ∷ servers) found failure h i =
        by_load (λ r. In x r.0) (load server q.namespace) _ _
          (λ e _. In-search_servers x servers found _ h i)
          (λ l _.
            let found' = found ++ match_manifest q accepted server l in
            goes_on x _ (found', failure) (search_servers q accepted load servers found' failure)
              (not_stopped found' h)
              (In-search_servers x servers found' failure h
                (In-append_left (match_manifest q accepted server l) i)))

    -- The rows of a server whose manifest is there are found.
    In-search_servers_loaded :
        (x : Match) (server : Bytes) (l : Loaded) (servers : List Bytes) (found : List Match)
        (failure : Option E)
        → exact_version q.constraints ≡ []
        → In server servers
        → load server q.namespace ≡ ok l
        → In x (match_manifest q accepted server l)
        → In x (search_servers q accepted load servers found failure).0
    unfolding search_servers
    In-search_servers_loaded x server l [] found failure h i e k = elim i [ ]
    In-search_servers_loaded x server l (s ∷ servers) found failure h (here at) e k =
        by_load (λ r. In x r.0) (load s q.namespace) _ _
          (λ f g. absurd (ground (arith, sym (ap (λ t. load t q.namespace) at) ∙ e, g)))
          (λ l' g.
            let found' = found ++ match_manifest q accepted s l' in
            goes_on x _ (found', failure) (search_servers q accepted load servers found' failure)
              (not_stopped found' h)
              (In-search_servers x servers found' failure h (
                In-append_right found (
                  subst (λ t. In x (match_manifest q accepted t l')) at
                    (subst (λ t. In x (match_manifest q accepted server t))
                      (ok_injective (sym e ∙ (ap (λ t. load t q.namespace) at ∙ g))) k)))))
    In-search_servers_loaded x server l (s ∷ servers) found failure h (there i) e k =
        by_load (λ r. In x r.0) (load s q.namespace) _ _
          (λ f _. In-search_servers_loaded x server l servers found _ h i e k)
          (λ l' _.
            let found' = found ++ match_manifest q accepted s l' in
            goes_on x _ (found', failure) (search_servers q accepted load servers found' failure)
              (not_stopped found' h)
              (In-search_servers_loaded x server l servers found' failure h i e k))

-- Sorting keeps the rows.
module _ (N : Type 0) ⦃fl : Float N⦄ (z : Match) where
  In-sift_match : (x : Match) (ys : List Match) → In z (x ∷ ys) → In z (sift_match N x ys)
  unfolding sift_match
  In-sift_match x [] h = h
  In-sift_match x (y ∷ ys) h = elim (Bool-cases (comes_before N x y)) [
    | inl e ↦ rw e (later h (In-sift_match x ys))
    | inr e ↦ rw e h
  ]
    where
      later :
          In z (x ∷ y ∷ ys)
          → (In z (x ∷ ys) → In z (sift_match N x ys))
          → In z (y ∷ sift_match N x ys)
      later (here e) f = there (f (here e))
      later (there (here e)) f = here e
      later (there (there i)) f = there (f (there i))

  In-sift_matches : (acc xs : List Match) → In z acc ⊎ In z xs → In z (sift_matches N acc xs)
  unfolding sift_matches
  In-sift_matches acc [] (inl i) = i
  In-sift_matches acc [] (inr i) = elim i [ ]
  In-sift_matches acc (x ∷ xs) (inl i) =
      In-sift_matches (sift_match N x acc) xs (inl (In-sift_match x acc (there i)))
  In-sift_matches acc (x ∷ xs) (inr (here e)) =
      In-sift_matches (sift_match N x acc) xs (inl (In-sift_match x acc (here e)))
  In-sift_matches acc (x ∷ xs) (inr (there i)) = In-sift_matches (sift_match N x acc) xs (inr i)

  In-reverse_aux : (xs ys : List Match) → In z xs ⊎ In z ys → In z (reverse_aux xs ys)
  In-reverse_aux [] ys (inl i) = elim i [ ]
  In-reverse_aux [] ys (inr i) = i
  In-reverse_aux (x ∷ xs) ys (inl (here e)) = In-reverse_aux xs (x ∷ ys) (inr (here e))
  In-reverse_aux (x ∷ xs) ys (inl (there i)) = In-reverse_aux xs (x ∷ ys) (inl i)
  In-reverse_aux (x ∷ xs) ys (inr i) = In-reverse_aux xs (x ∷ ys) (inr (there i))

  In-search_result :
      {E : Type 0} (failure : Option E) (xs : List Match)
      → In z xs
      → (rows : List Match) × (search_result N failure xs ≡ ok rows) × In z rows
  unfolding search_result sort_matches
  In-search_result failure [] i = elim i [ ]
  In-search_result none (x ∷ xs) i = (
    _,
    refl,
    In-reverse_aux (sift_matches N [] (x ∷ xs)) [] (inl (In-sift_matches [] (x ∷ xs) (inr i))),
  )
  In-search_result (some e) (x ∷ xs) i = (
    _,
    refl,
    In-reverse_aux (sift_matches N [] (x ∷ xs)) [] (inl (In-sift_matches [] (x ∷ xs) (inr i))),
  )

-- Where the query asks for no exact version, a server of the list loads, also if others fail, and
-- its manifest has an entry whose name, version and arch the query accepts, Search succeeds and
-- its result has the row of that entry.
pub search_complete :
    {N : Type 0} ⦃fl : Float N⦄ {E : Type 0} (detected host : Bytes)
    (load : Bytes → Bytes → Result E Loaded) (servers : List Bytes) (q : Query N) (server : Bytes)
    (l : Loaded) (name version : Bytes) (entry : ArchEntry) (entries : List ArchEntry)
    (versions : Map (List ArchEntry))
    → exact_version q.constraints ≡ []
    → In server servers
    → load server q.namespace ≡ ok l
    → In (name, versions) l.manifest.repository
    → In (version, entries) versions
    → In entry entries
    → match_name q name ≡ true
    → accepts_version q version ≡ true
    → contains (accepted_arch_set detected q.arch host) entry.arch ≡ true
    → (rows : List Match) × (search detected host load servers q ≡ ok rows)
      × In (row_of q server l.local_dir name version entry.arch) rows
unfolding search
search_complete {N} detected host load servers q server l name version entry entries versions exact
      at loaded in_names in_versions in_entries hn hv ha =
    let accepted = accepted_arch_set detected q.arch host in
    let row = row_of q server l.local_dir name version entry.arch in
    let walked = search_servers q accepted load servers [] none in
    In-search_result N row walked.1 (walked.0 ++ match_provided q accepted) (
      In-append_left (match_provided q accepted) (
        In-search_servers_loaded q accepted load row server l servers [] none exact at loaded (
          In-match_manifest q accepted server l name version entry entries versions hn hv ha
            in_names in_versions in_entries)))
