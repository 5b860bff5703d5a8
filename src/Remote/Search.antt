-- ===== src/Remote/Search.antt =====
-- remote/search.go: Search over the configured servers. The load of a server's manifest is a parameter.
pub mod Sound
pub mod Complete
use go_luarocks.Prelude.{
  Bool, true, false, not, ◌&&◌, ◌||◌, Option, none, some, List, [], ◌∷◌, ◌++◌, Bytes, codes, same,
  Map, Result, ok, err, if◌then◌else◌, contains, reverse, Ordering,
}
use go_luarocks.Types.{VersionConstraint, equal}
use go_luarocks.Deps.Float.{Float}
use go_luarocks.Deps.Version.{parse_version, compare}
use go_luarocks.Deps.Constraint.{match_all}
use go_luarocks.Manif.Value.{text_lt}
use go_luarocks.Manif.Writer.{contains_text}
use go_luarocks.Remote.Manifest.{
  ArchEntry, RemoteManifest, arch_installed, or_detected, default_arches, make_rock_url,
  file_prefix_of, local_rock_url, by_key,
}
use go_luarocks.Remote.Server.{normalize_server}

pub record Query (N : Type 0) : Type 0 where
  pub name : Bytes
  pub namespace : Bytes
  pub substring : Bool
  pub constraints : List (VersionConstraint N)
  pub arch : List Bytes
  pub provided : Map Bytes

pub record Match : Type 0 where
  pub name : Bytes
  pub version : Bytes
  pub arch : Bytes
  pub server : Bytes
  pub namespace : Bytes
  pub url : Bytes

-- What loadServerManifest gives: the manifest and, for a local server, its directory.
pub record Loaded : Type 0 where
  pub manifest : RemoteManifest
  pub local_dir : Option Bytes

abbrev pub provided_repo : Bytes
provided_repo = codes "provided by VM or rocks_provided"

-- artifactURL
unfoldable pub artifact_url : Bytes → Option Bytes → Bytes → Bytes → Bytes → Bytes
unfolding local_rock_url file_prefix_of make_rock_url
artifact_url server (some dir) name version arch =
    local_rock_url dir (file_prefix_of server) name version arch
artifact_url server none name version arch = make_rock_url server name version arch

-- acceptedArchSet; the host's arch is that of the options, or else the detected one.
unfoldable pub accepted_arch_set : Bytes → List Bytes → Bytes → List Bytes
accepted_arch_set detected [] host = default_arches (or_detected detected host)
accepted_arch_set detected (a ∷ want) host = a ∷ want

-- hasExactMatch
unfoldable pub has_exact_match : List Match → Bytes → Bytes → Bool
unfolding same
has_exact_match [] name version = false
has_exact_match (m ∷ found) name version =
    not (same name []) && (same m.name name && same m.version version)
    || has_exact_match found name version

module _ {N : Type 0} where
  -- matchName
  unfoldable pub match_name : Query N → Bytes → Bool
  unfolding contains_text same
  match_name q name = if q.substring then contains_text name q.name else same name q.name

  -- exactVersion
  unfoldable pub exact_version : List (VersionConstraint N) → Bytes
  exact_version [] = []
  exact_version (c ∷ cs) = elim (c.op) [ equal ↦ c.version.raw | o ↦ exact_version cs ]

module _ {N : Type 0} ⦃fl : Float N⦄ where
  -- The version parses, and the constraints accept it.
  unfoldable pub accepts_version : Query N → Bytes → Bool
  unfolding parse_version match_all
  accepts_version q version = elim (parse_version version) [
    | err e ↦ false
    | ok v ↦ match_all v q.constraints
  ]

  module _ (q : Query N) (accepted : List Bytes) where
    -- The loops of matchManifest, from the inside out.
    unfoldable pub match_entries :
        Bytes → Option Bytes → Bytes → Bytes → List ArchEntry → List Match
    unfolding artifact_url normalize_server contains
    match_entries server dir name version [] = []
    match_entries server dir name version (entry ∷ entries) =
        let rest = match_entries server dir name version entries in
        if contains accepted entry.arch
        then record {
          name = name;
          version = version;
          arch = entry.arch;
          server = normalize_server server;
          namespace = q.namespace;
          url = artifact_url server dir name version entry.arch;
        }
          ∷ rest
        else rest

    unfoldable pub match_versions : Bytes → Option Bytes → Bytes → Map (List ArchEntry) → List Match
    unfolding match_entries accepts_version
    match_versions server dir name [] = []
    match_versions server dir name ((version, entries) ∷ versions) =
        let rest = match_versions server dir name versions in
        if accepts_version q version
        then match_entries server dir name version entries ++ rest
        else rest

    unfoldable pub match_names : Bytes → Option Bytes → Map (Map (List ArchEntry)) → List Match
    unfolding match_versions match_name by_key
    match_names server dir [] = []
    match_names server dir ((name, versions) ∷ names) =
        let rest = match_names server dir names in
        if match_name q name then match_versions server dir name (by_key versions) ++ rest else rest

    -- matchManifest
    unfoldable pub match_manifest : Bytes → Loaded → List Match
    unfolding match_names by_key
    match_manifest server l = match_names server l.local_dir (by_key l.manifest.repository)

    unfoldable pub match_provided_names : Map Bytes → List Match
    unfolding match_name accepts_version
    match_provided_names [] = []
    match_provided_names ((name, version) ∷ provided) =
        let rest = match_provided_names provided in
        if match_name q name && accepts_version q version
        then record {
          name = name;
          version = version;
          arch = arch_installed;
          server = provided_repo;
          namespace = [];
          url = [];
        }
          ∷ rest
        else rest

    -- matchProvided
    unfoldable pub match_provided : List Match
    unfolding match_provided_names by_key contains same
    match_provided =
        if not (contains accepted arch_installed) || not (same q.namespace [])
        then []
        else match_provided_names (by_key q.provided)

    -- The loop of Search over the servers, with the rows and the first failure so far.
    unfoldable pub search_servers :
        {E : Type 0}
        → (Bytes → Bytes → Result E Loaded)
        → List Bytes
        → List Match
        → Option E
        → List Match × Option E
    unfolding match_manifest exact_version has_exact_match same
    search_servers load [] found failure = (found, failure)
    search_servers load (server ∷ servers) found failure = elim (load server q.namespace) [
      | err e ↦ search_servers load servers found (elim failure [ none ↦ some e | some f ↦ some f ])
      | ok l ↦
          let found' = found ++ match_manifest server l in
          let exact = exact_version q.constraints in
          let more = search_servers load servers found' failure in
          if not (same exact []) && has_exact_match found' q.name exact
          then (found', failure)
          else more
    ]

module _ (N : Type 0) ⦃fl : Float N⦄ where
  -- deps.Compare of two texts that parse is 1.
  unfoldable pub newer : Bytes → Bytes → Bool
  unfolding parse_version compare
  newer a b = elim (parse_version {N = N} a) [
    | err e ↦ false
    | ok v ↦ elim (parse_version b) [
      | err e ↦ false
      | ok w ↦ elim (compare v w) [ Ordering.gt ↦ true | o ↦ false ]
    ]
  ]

  -- The order of sortMatches.
  unfoldable pub comes_before : Match → Match → Bool
  unfolding newer text_lt same
  comes_before a b =
      if not (same a.name b.name)
      then text_lt a.name b.name
      else if same a.version b.version
      then false
      else newer a.version b.version

  -- sort.SliceStable as it runs on up to 20 elements: each element moves left past those that it comes
  -- before. The sorted part is kept last element first.
  unfoldable pub sift_match : Match → List Match → List Match
  unfolding comes_before
  sift_match x [] = x ∷ []
  sift_match x (y ∷ ys) = if comes_before x y then y ∷ sift_match x ys else x ∷ y ∷ ys

  unfoldable pub sift_matches : List Match → List Match → List Match
  unfolding sift_match
  sift_matches acc [] = acc
  sift_matches acc (x ∷ xs) = sift_matches (sift_match x acc) xs

  -- sortMatches
  unfoldable pub sort_matches : List Match → List Match
  unfolding sift_matches
  sort_matches found = reverse (sift_matches [] found)

  -- The end of Search: a failure counts where nothing was found.
  unfoldable pub search_result : {E : Type 0} → Option E → List Match → Result E (List Match)
  unfolding sort_matches
  search_result (some e) [] = err e
  search_result failure found = ok (sort_matches found)

-- Search, of the host's arch and that of the options, the load, the servers and the query
unfoldable pub search :
    {N : Type 0} ⦃fl : Float N⦄ {E : Type 0}
    → Bytes
    → Bytes
    → (Bytes → Bytes → Result E Loaded)
    → List Bytes
    → Query N
    → Result E (List Match)
unfolding search_servers match_provided search_result accepted_arch_set
search {N} detected host load servers q =
    let accepted = accepted_arch_set detected q.arch host in
    let walked = search_servers q accepted load servers [] none in
    search_result N walked.1 (walked.0 ++ match_provided q accepted)
