-- ===== src/Remote/Tests.antt =====
-- Runs of remote on two servers.
use go_luarocks.Prelude.{
  ◌≡◌, refl, ◌≤◌, true, some, List, [], ◌∷◌, Bytes, codes, same, Result, ok, err, ℤ, In, here,
  there, All, if◌then◌else◌, contains, trim_space, atoi,
}
use go_luarocks.Deps.Version.{parse_trimmed, match_revision, parse_body, parse_tokens, match_digits}
use go_luarocks.Deps.Scaled.{scaled}
use go_luarocks.Remote.Manifest.{ArchEntry}
use go_luarocks.Remote.Index.{MergedItem, pick_merged_item}
use go_luarocks.Remote.Index.Picked.{rank, pick_merged_item-best}
use go_luarocks.Remote.Index.Local.{ordered_query, local_server_path}
use go_luarocks.Remote.Index.FirstFound.{ordered_query-first}
use go_luarocks.Remote.Loading.{load_directory}
use go_luarocks.Files.Disk.{Fault, other, not_exist, directory, file}
use go_luarocks.Manif.Value.{FloatText}
use go_luarocks.Remote.Server.{normalize_server}
use go_luarocks.Remote.Search.{
  Query, Match, Loaded, search, accepted_arch_set, match_name, accepts_version, exact_version,
}
use go_luarocks.Remote.Search.Sound.{Answers, search-Answers}
use go_luarocks.Remote.Search.Complete.{row_of, search_complete}

abbrev first_server : Bytes
first_server = codes "http://one/"

abbrev second_server : Bytes
second_server = codes "file:///two"

abbrev source_only : ArchEntry
source_only = record { arch = codes "src" }

abbrev offer : Loaded
offer = record {
  manifest = record {
    server = second_server;
    repository =
        (codes "checks", (codes "3.1-1", record { arch = codes "sun4" } ∷ source_only ∷ []) ∷ [])
        ∷ [];
  };
  local_dir = some (codes "/two");
}

-- The first server is down.
abbrev load : Bytes → Bytes → Result Bytes Loaded
load server namespace =
    if same server second_server then ok offer else err (codes "connection refused")

abbrev any_version : Query ℤ
any_version = record {
  name = codes "check";
  namespace = [];
  substring = true;
  constraints = [];
  arch = [];
  provided = [];
}

abbrev source_row : Match
source_row = record {
  name = codes "checks";
  version = codes "3.1-1";
  arch = codes "src";
  server = codes "/two";
  namespace = [];
  url = codes "file:///two/checks-3.1-1.src.rock";
}

abbrev two_servers : List Bytes
two_servers = first_server ∷ second_server ∷ []

found_rows : search (codes "linux-x86_64") [] load two_servers any_version ≡ ok (source_row ∷ [])
unfolding search trim_space parse_trimmed match_revision atoi parse_body parse_tokens match_digits
found_rows = refl

search-Answers_example :
    All (Answers any_version (accepted_arch_set (codes "linux-x86_64") [] [])) (source_row ∷ [])
search-Answers_example =
    search-Answers (codes "linux-x86_64") [] load two_servers any_version (source_row ∷ [])
      found_rows

loads_second : load second_server [] ≡ ok offer
unfolding same
loads_second = refl

matched : match_name any_version (codes "checks") ≡ true
unfolding match_name
matched = refl

accepted_version : accepts_version any_version (codes "3.1-1") ≡ true
unfolding accepts_version trim_space parse_trimmed match_revision atoi parse_body parse_tokens
    match_digits
accepted_version = refl

source_accepted : contains (accepted_arch_set (codes "linux-x86_64") [] []) (codes "src") ≡ true
unfolding contains same accepted_arch_set
source_accepted = refl

no_exact_version : exact_version (Query.constraints any_version) ≡ []
unfolding exact_version
no_exact_version = refl

search_complete_example :
    (rows : List Match) × (search (codes "linux-x86_64") [] load two_servers any_version ≡ ok rows)
    × In
        (row_of any_version second_server
          (some (codes "/two"))
          (codes "checks")
          (codes "3.1-1")
          (codes "src"))
        rows
search_complete_example =
    search_complete (codes "linux-x86_64") [] load two_servers any_version second_server offer
      (codes "checks") (codes "3.1-1") source_only
      (record { arch = codes "sun4" } ∷ source_only ∷ [])
      ((codes "3.1-1", record { arch = codes "sun4" } ∷ source_only ∷ []) ∷ []) no_exact_version
      (there (here refl)) loads_second (here refl) (here refl) (there (here refl)) matched
      accepted_version source_accepted

normalize_server_parts :
    normalize_server (codes "'https://rocks.example//a/./b/../c/'")
    ≡ codes "https://rocks.example/a/c"
unfolding normalize_server
normalize_server_parts = refl

abbrev spec_item : MergedItem
spec_item = record { server = first_server; arch = codes "rockspec" }

abbrev source_item : MergedItem
source_item = record { server = second_server; arch = codes "src" }

pick_merged_item-best_example :
    (it : MergedItem) × (pick_merged_item (spec_item ∷ source_item ∷ []) ≡ some it)
    × In it (spec_item ∷ source_item ∷ [])
    × All (λ o. rank o ≤ rank it) (spec_item ∷ source_item ∷ [])
pick_merged_item-best_example = pick_merged_item-best spec_item (source_item ∷ [])

abbrev unreachable : Bytes → Bytes → Result Bytes (List Bytes)
unreachable name namespace = err (codes "connection refused")

abbrev holds_checks : Bytes → Bytes → Result Bytes (List Bytes)
holds_checks name namespace = ok (name ∷ [])

ordered_query-first_example :
    ordered_query (unreachable ∷ holds_checks ∷ unreachable ∷ []) (codes "checks") []
    ≡ ok (codes "checks" ∷ [])
ordered_query-first_example =
    ordered_query-first (codes "checks") [] (unreachable ∷ []) holds_checks (unreachable ∷ [])
      (codes "checks") [] (tt, tt) refl

file_server : local_server_path (codes "File:///srv/rocks") ≡ some (codes "/srv/rocks")
unfolding local_server_path
file_server = refl

abbrev unreadable : Result Fault Bytes
unreadable = err (other (codes "no zip file"))

-- The directory is looked for before any name of a manifest is tried.
missing_server :
    (N : Type 0) ⦃ft : FloatText N⦄
    → load_directory {N = N}
        (λ body inner. unreadable)
        (λ body. err (other []))
        []
        second_server
        []
        (codes "/two")
        []
      ≡ err (not_exist (codes "/two"))
unfolding load_directory
missing_server N = refl

-- The manifest that is there and broken is reported, not the three that are not there.
broken_manifest :
    (N : Type 0) ⦃ft : FloatText N⦄
    → load_directory {N = N}
        (λ body inner. unreadable)
        (λ body. err (other []))
        ((codes "/two", directory) ∷ (codes "/two/manifest-5.1.zip", file [] 420) ∷ [])
        second_server
        []
        (codes "/two")
        []
      ≡ err (other (codes "no zip file"))
unfolding load_directory
broken_manifest N = refl
