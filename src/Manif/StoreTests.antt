-- ===== src/Manif/StoreTests.antt =====
-- Runs of manif/store.go on a rock manifest of three files.
use go_luarocks.Prelude.{
  ◌≡◌, refl, true, [], ◌∷◌, ◌++◌, pos, codes, ok, err, Bytes, insert, same, delete,
}
use go_luarocks.Types.{RockManifest}
use go_luarocks.Files.FilePath.{dir}
use go_luarocks.Files.Disk.{
  Disk, file, directory, exists, mkdir_all, make_dirs, with_ancestors, stat, write_file, is_dir,
  rename, remove_path,
}
use go_luarocks.Manif.Value.{object, no_fields}
use go_luarocks.Manif.Writer.{quote_bytes, quote_byte}
use go_luarocks.Manif.Store.Atomic.{content_at-write_atomic_failed}
use go_luarocks.Manif.Store.Decode.{Conversion}
use go_luarocks.Manif.Store.FileStore.{write_rock, read_rock, write_atomic}
use go_luarocks.Manif.Store.RockTable.{is_recordable}
use go_luarocks.Manif.Store.RockEntries.{SameRock}
use go_luarocks.Manif.Store.RockFile.{read_rock-write_rock}
use go_luarocks.Manif.Store.Branches.{are_paths}
use go_luarocks.Manif.Store.Paths.{conflict_free, clashes, nests}
use go_luarocks.Files.Strings.{split_from, has_suffix, has_prefix}
use go_luarocks.Files.Disk.Content.{content_at}
use go_luarocks.Manif.Tests.{no_floats}

instance abbrev no_conversion : Conversion (Unit {0})
no_conversion = record { truncate = λ f. pos 0; show = λ v. [] }

abbrev three_files : RockManifest
three_files = record {
  rockspec_file = codes "a-1-1.rockspec";
  rockspec = codes "c0";
  lua = (codes "a/init.lua", codes "c1") ∷ (codes "a/b.lua", codes "c2") ∷ [];
  lib = [];
  bin = (codes "a", codes "c3") ∷ [];
  conf = [];
  doc = [];
}

abbrev manifest_path : Bytes
manifest_path = codes "/rocks/rock_manifest"

abbrev three_files_text : Bytes
three_files_text =
    (codes "rock_manifest = {"
      ++ (10
          ∷ (codes "   [\"a-1-1.rockspec\"] = \"c0\","
              ++ (10
                  ∷ (codes "   bin = {"
                      ++ (10
                          ∷ (codes "      a = \"c3\""
                              ++ (10
                                  ∷ (codes "   },"
                                      ++ (10
                                          ∷ (codes "   lua = {"
                                              ++ (10
                                                  ∷ (codes "      a = {"
                                                      ++ (10
                                                          ∷ (codes "         [\"b.lua\"] = \"c2\","
                                                            ++ (10
                                                            ∷ (codes
                                                            "         [\"init.lua\"] = \"c1\""
                                                            ++ (10
                                                            ∷ (codes "      }"
                                                            ++ (10
                                                            ∷ (codes "   }"
                                                            ++ (10
                                                            ∷ (codes "}"
                                                            ++ (10 ∷ []))))))))))))))))))))))))

abbrev three_files_disk : Disk
three_files_disk = (codes "/rocks", directory) ∷ (manifest_path, file three_files_text 420) ∷ []

three_files_recordable : is_recordable three_files ≡ true
unfolding is_recordable are_paths conflict_free clashes nests same split_from has_suffix has_prefix
three_files_recordable = refl

write_rock-three_files :
    write_rock (Unit {0}) manifest_path three_files [] ≡ (three_files_disk, ok tt)
unfolding write_rock write_atomic mkdir_all make_dirs with_ancestors dir stat write_file insert
    is_dir rename delete quote_bytes quote_byte
write_rock-three_files = refl

read_rock-write_rock_example :
    (rm : RockManifest) × (read_rock (Unit {0}) manifest_path three_files_disk
      ≡ (three_files_disk, ok rm))
    × SameRock rm three_files
read_rock-write_rock_example =
    read_rock-write_rock (Unit {0}) manifest_path three_files [] three_files_disk
      three_files_recordable write_rock-three_files

-- The path is that of a directory.
abbrev taken_disk : Disk
taken_disk =
    (codes "/d", directory) ∷ (codes "/d/m", directory) ∷ (codes "/d/o", file (codes "x") 420) ∷ []

write_atomic-taken :
    write_atomic {N = Unit {0}} (codes "/d/m") (object no_fields) taken_disk
    ≡ (taken_disk, err (exists (codes "/d/m")))
unfolding write_atomic mkdir_all make_dirs with_ancestors dir stat write_file insert is_dir rename
    delete remove_path
write_atomic-taken = refl

content_at-write_atomic_failed_example :
    content_at taken_disk (codes "/d/o") ≡ content_at taken_disk (codes "/d/o")
content_at-write_atomic_failed_example =
    content_at-write_atomic_failed {N = Unit {0}} (codes "/d/m") (codes "/d/o") (object no_fields)
      taken_disk taken_disk (exists (codes "/d/m")) write_atomic-taken (unfold same in refl)
