-- ===== src/Tree/Tests.antt =====
-- Runs of tree over a small disk.
use go_luarocks.Prelude.{
  ◌≡◌, refl, true, none, some, [], ◌∷◌, ◌++◌, ℤ, codes, ok, err, Bytes, lookup, insert, delete,
  trim_space, atoi, digits_value, same, drop, length, arith, if◌then◌else◌,
}
use go_luarocks.Types.{Rockspec, RockManifest, Module}
use go_luarocks.Deps.Scaled.{scaled}
use go_luarocks.Samples.{spec_of}
use go_luarocks.Manif.Lexer.{short_string}
use go_luarocks.Files.Disk.Content.{content_at}
use go_luarocks.Tree.Layout.{BinWrap}
use go_luarocks.Tree.Wrapper.{lua_quote, lua_init, bin_wrapper_script}
use go_luarocks.Tree.Wrapper.ShellWords.{shell_words, shell_words-bin_wrapper_script}
use go_luarocks.Tree.Wrapper.LuaStrings.{short_string-lua_quote, zeros_apart}
use go_luarocks.Tree.Conflicts.{wins, resolve_spot, current_provider}
use go_luarocks.Tree.Conflicts.Winner.{wins_antisym}
use go_luarocks.Tree.Conflicts.Spots.{spot, after_spot, resolve_spot-after_spot}
use go_luarocks.Tree.Deploy.{place, copy_file}
use go_luarocks.Files.Disk.{stat, make_dirs, mkdir_all, with_ancestors, read_file, write_file}
use go_luarocks.Deps.Version.{
  parse_version, parse_trimmed, match_revision, parse_body, parse_tokens, match_digits, compare,
  with_placeholder, put_number, bare_version, compare_components, compare_revisions, compare_step,
}
use go_luarocks.Tree.Conflicts.{takes_plain, version_greater, make_room}
use go_luarocks.Tree.Deploy.Found.{which-place}
use go_luarocks.Tree.Deploy.Placed.{Copied, place-Copied, place_twice}
use go_luarocks.Tree.Deploy.Removal.{ManifestStore, delete_version}
use go_luarocks.Tree.Deploy.Removal.Removed.{taken, content_at-delete_version}
use go_luarocks.Files.FilePath.{join, clean, rel, dir}
use go_luarocks.Files.Strings.{trim_prefix}
use go_luarocks.Files.Disk.{Disk, file, directory, Fault, rename, is_dir}
use go_luarocks.Tree.Layout.{Tree, which, deploy_lua_dir}
use go_luarocks.Tree.Deploy.{Host}
use go_luarocks.Tree.Conflicts.{munged_path}

c1 : clean (codes "/a//./b/../../../c/") ≡ codes "/c"
unfolding clean
c1 = refl

c2 : rel (codes "t/share") (codes "t/share/a/b.lua") ≡ some (codes "a/b.lua")
unfolding rel
c2 = refl

c3 :
    munged_path
      (codes "t/share/tarantool")
      (codes "t/share/tarantool/foo/bar.lua")
      (codes "my-rock")
      (codes "1.0-1")
    ≡ codes "t/share/tarantool/my_rock_1_0_1-foo/bar.lua"
unfolding munged_path join trim_prefix
c3 = refl

abbrev host : Host
host = record { md5_hex = λ s. s; is_lua = λ s. true }

abbrev c_module : Module
c_module = record {
  path = codes "m.c";
  sources = [];
  incdirs = [];
  libdirs = [];
  libraries = [];
  defines = [];
}

abbrev old_tree : Tree
old_tree = record {
  root = codes "t";
  bin_wrap = none;
  provider = some (λ item. some (codes "m", codes "1.0-1"));
}

abbrev new_tree : Tree
new_tree = record { root = codes "t"; bin_wrap = none; provider = some (λ item. none) }

abbrev start : Disk
start =
    (codes "b", directory)
    ∷ (codes "b/lib", directory)
    ∷ (codes "b/lib/m.so", file (codes "new") 420)
    ∷ (codes "t", directory)
    ∷ (codes "t/lib", directory)
    ∷ (codes "t/lib/tarantool", directory)
    ∷ (codes "t/lib/tarantool/m.so", file (codes "old") 420)
    ∷ []

abbrev plain : Bytes
plain = codes "t/lib/tarantool/m.so"

abbrev versioned : Bytes
versioned = codes "t/lib/tarantool/m_1_0_1-m.so"

abbrev new_rock : Bytes × Bytes
new_rock = (codes "m", codes "2.0-1")

abbrev old_rock : Bytes × Bytes
old_rock = (codes "m", codes "1.0-1")

abbrev new_spec : Rockspec ℤ
new_spec = spec_of (codes "m") (codes "2.0-1") ((codes "m", c_module) ∷ [])

abbrev lib_dir : Bytes
lib_dir = codes "t/lib/tarantool"

abbrev resolved : Disk
resolved = (resolve_spot scaled old_tree lib_dir plain (codes "m") new_rock start).0

resolve_spot-after_spot_example :
    (plain ≡ spot scaled old_tree lib_dir plain (codes "m") new_rock)
    × ((q : Bytes)
        → content_at resolved q
          ≡ after_spot scaled old_tree lib_dir plain (codes "m") new_rock start q)
unfolding stat is_dir takes_plain current_provider version_greater parse_version trim_space
    parse_trimmed match_revision atoi parse_body parse_tokens match_digits compare with_placeholder
    put_number bare_version make_room compare_components compare_revisions compare_step make_dirs
    mkdir_all rename with_ancestors dir delete insert lookup digits_value same munged_path wins
    resolve_spot join trim_prefix
resolve_spot-after_spot_example =
    resolve_spot-after_spot scaled old_tree lib_dir plain (codes "m") new_rock start resolved plain
      refl refl

wins_antisym_example : new_rock ≡ (codes "m", codes "2.0-1")
wins_antisym_example =
    wins_antisym scaled new_rock (codes "m", codes "2.0-1") (unfold wins in refl)
      (unfold wins in refl)

abbrev built : Bytes
built = codes "b/lib/m.so"

abbrev placed_once : Disk
placed_once = (place scaled host old_tree new_spec lib_dir plain (codes "m") built 493 start).0

abbrev placed_twice : Disk
placed_twice =
    (place scaled host old_tree new_spec lib_dir plain (codes "m") built 493 placed_once).0

place-Copied_example :
    (rel lib_dir (spot scaled old_tree lib_dir plain (codes "m") new_rock) ≡ some (codes "m.so"))
    × Copied host built
        (spot scaled old_tree lib_dir plain (codes "m") new_rock)
        (after_spot scaled old_tree lib_dir plain (codes "m") new_rock start)
        placed_once
        (codes "new")
unfolding stat is_dir takes_plain current_provider version_greater parse_version trim_space
    parse_trimmed match_revision atoi parse_body parse_tokens match_digits compare with_placeholder
    put_number bare_version make_room compare_components compare_revisions compare_step make_dirs
    mkdir_all rename with_ancestors dir delete insert lookup digits_value same munged_path wins
    resolve_spot spot place copy_file read_file write_file rel join trim_prefix
place-Copied_example =
    place-Copied scaled host old_tree new_spec lib_dir plain (codes "m") built 493 start placed_once
      (codes "m.so") (codes "new") refl refl refl

place_twice_example :
    (content_at placed_once (munged_path lib_dir plain (codes "m") (codes "1.0-1"))
      ≡ some (codes "old"))
    × (content_at placed_twice (munged_path lib_dir plain (codes "m") (codes "1.0-1"))
        ≡ content_at placed_once plain)
unfolding stat is_dir takes_plain current_provider version_greater parse_version trim_space
    parse_trimmed match_revision atoi parse_body parse_tokens match_digits compare with_placeholder
    put_number bare_version make_room compare_components compare_revisions compare_step make_dirs
    mkdir_all rename with_ancestors dir delete insert lookup digits_value same munged_path wins
    resolve_spot content_at place copy_file read_file write_file rel join trim_prefix
place_twice_example =
    place_twice scaled host old_tree new_spec lib_dir plain (codes "m") built built 493 493 old_rock
      start placed_once placed_twice (codes "m.so") (codes "m.so") (codes "new") (codes "new")
      (codes "old") refl refl refl refl refl refl refl refl refl

abbrev nothing : RockManifest
nothing = record {
  rockspec_file = [];
  rockspec = [];
  lua = [];
  lib = (codes "m.so", codes "old") ∷ [];
  bin = [];
  conf = [];
  doc = [];
}

abbrev one_rock : ManifestStore ℤ
one_rock = record {
  read_tree = λ p d. (d, err (Fault.not_exist p));
  write_tree = λ p m d. (d, ok tt);
  read_rock = λ p d. (d, ok nothing);
  write_rock = λ p rm d. (d, ok tt);
}

content_at-delete_version_example :
    ((delete_version one_rock old_tree (codes "m") (codes "1.0-1") start).1 ≡ ok tt)
    × ((q : Bytes)
        → content_at (delete_version one_rock old_tree (codes "m") (codes "1.0-1") start).0 q ≡ (
            if taken old_tree (codes "m") (codes "1.0-1") (ok nothing) q
            then none
            else content_at start q))
content_at-delete_version_example =
    content_at-delete_version one_rock old_tree (codes "m") (codes "1.0-1") start start (ok nothing)
      refl

abbrev wrap : BinWrap
wrap = record { interpreter = codes "/usr/bin/tarantool"; sysconfdir = codes "/etc/it's" }

shell_words-bin_wrapper_script_example :
    shell_words 6 (
      drop
        (length (codes "#!/bin/sh\n\n"))
        (bin_wrapper_script (codes "t") wrap (codes "t/m") (codes "m") (codes "1.0-1")))
    ≡ some (
      (codes "LUAROCKS_SYSCONFDIR=" ++ codes "/etc/it's")
          ∷ codes "exec"
          ∷ codes "/usr/bin/tarantool"
          ∷ codes "-e"
          ∷ lua_init (codes "t") (codes "m") (codes "1.0-1")
          ∷ codes "t/m"
          ∷ [],
      codes "\"$@\"\n",
    )
shell_words-bin_wrapper_script_example =
    shell_words-bin_wrapper_script (codes "t") wrap (codes "t/m") (codes "m") (codes "1.0-1")

short_string-lua_quote_example :
    short_string 5 b'"' (drop 1 (lua_quote (codes "a\"\n")) ++ codes ")")
    ≡ ok (codes "a\"\n", codes ")")
short_string-lua_quote_example =
    short_string-lua_quote (codes "a\"\n") (codes ")") 5 (unfold zeros_apart in refl) (omega arith)

abbrev source_disk : Disk
source_disk =
    (codes "s", directory)
    ∷ (codes "s/a.lua", file (codes "return 1") 420)
    ∷ (codes "t", directory)
    ∷ []

abbrev lua_placed : Disk
lua_placed =
    (place scaled host new_tree new_spec (codes "t/share/tarantool")
      (codes "t/share/tarantool/m/a.lua") (codes "m.a") (codes "s/a.lua") 420 source_disk).0

which-place_example :
    which new_tree (codes "m.a") lua_placed ≡ some (codes "t/share/tarantool/m/a.lua")
unfolding stat is_dir takes_plain current_provider version_greater parse_version trim_space
    parse_trimmed match_revision atoi parse_body parse_tokens match_digits compare with_placeholder
    put_number bare_version make_room compare_components compare_revisions compare_step make_dirs
    mkdir_all rename with_ancestors dir delete insert lookup digits_value same munged_path wins
    resolve_spot spot place copy_file read_file write_file rel join trim_prefix deploy_lua_dir
which-place_example =
    which-place scaled host new_tree new_spec (codes "m.a") (codes "m.a") (codes "s/a.lua") 420
      source_disk lua_placed (codes "m/a.lua") (codes "return 1") refl refl refl refl
