-- ===== src/Manif/Store/RockFile.antt =====
-- manif/store.go: a rock manifest that WriteRock has written, as ReadRock gives it.
use go_luarocks.Prelude.{◌≡◌, refl, ◌∙◌, true, some, arith, Bytes, codes, same, same_refl, ok}
use go_luarocks.Types.{RockManifest}
use go_luarocks.Files.Disk.{Disk, read_file}
use go_luarocks.Files.Disk.Content.{content_at}
use go_luarocks.Manif.Value.{Fields, FloatText, object, no_fields, field}
use go_luarocks.Manif.Writer.{is_valid_plain_key, lua_keywords}
use go_luarocks.Manif.Parser.{parse}
use go_luarocks.Manif.Tables.{IsPlain, ArePlainFields, below_all}
use go_luarocks.Manif.Tables.WholeFile.{has_plain_keys, parse-write}
use go_luarocks.Manif.Store.{get_field, rock_manifest_to_table}
use go_luarocks.Manif.Store.Decode.{Conversion, rock_manifest_from_table, as_map}
use go_luarocks.Manif.Store.FileStore.{write_rock, read_rock, parse_map}
use go_luarocks.Manif.Store.Atomic.{content_at-write_atomic}
use go_luarocks.Manif.Store.Branches.{AreBranches-ArePlainFields}
use go_luarocks.Manif.Store.RockTable.{is_recordable}
use go_luarocks.Manif.Store.RockEntries.{
  SameRock, recordable, rock_manifest_to_table-AreBranches,
  rock_manifest_from_table-rock_manifest_to_table,
}

read_file-content_at :
    (p c : Bytes) (d : Disk) → content_at d p ≡ some c → read_file p d ≡ (d, ok c)
unfolding read_file content_at
read_file-content_at p c d h = ground (arith, h)

rock_manifest_key :
    (N : Type 0) (t : Fields N)
    → has_plain_keys (field (codes "rock_manifest") (object t) no_fields) ≡ true
unfolding has_plain_keys is_valid_plain_key lua_keywords same
rock_manifest_key N t = refl

rock_manifest_plain :
    (N : Type 0) (t : Fields N)
    → ArePlainFields t
    → ArePlainFields (field (codes "rock_manifest") (object t) no_fields)
unfolding ArePlainFields IsPlain below_all
rock_manifest_plain N t p = (refl, p, refl, tt)

module _ (N : Type 0) ⦃ft : FloatText N⦄ ⦃conv : Conversion N⦄ where
  parse_map-parsed :
      (text : Bytes) (top : Fields N) (d : Disk)
      → parse text ≡ ok (object top)
      → parse_map {N = N} text d ≡ (d, ok top)
  unfolding parse_map as_map
  parse_map-parsed text top d h = rw (parse_map, h) refl

  read_rock-parsed :
      (path text : Bytes) (t : Fields N) (rm' : RockManifest) (d : Disk)
      → content_at d path ≡ some text
      → parse text ≡ ok (object (field (codes "rock_manifest") (object t) no_fields))
      → rock_manifest_from_table t ≡ ok rm'
      → read_rock N path d ≡ (d, ok rm')
  unfolding read_rock get_field as_map same
  read_rock-parsed path text t rm' d h parsed e =
      let top : Fields N = field (codes "rock_manifest") (object t) no_fields in
      rw (read_rock, read_file-content_at path text d h, parse_map-parsed text top d parsed, e) refl

  -- Where WriteRock succeeds on a rock manifest whose paths consist of names, none below another,
  -- all on one line, and whose rockspec file, where it is named, has a sum and the suffix
  -- .rockspec, ReadRock then succeeds on the same file and gives the same rockspec and, for each
  -- of the five directories, the same sum at every path and none at any other.
  pub read_rock-write_rock :
      (path : Bytes) (rm : RockManifest) (d d' : Disk)
      → is_recordable rm ≡ true
      → write_rock N path rm d ≡ (d', ok tt)
      → (rm' : RockManifest) × (read_rock N path d' ≡ (d', ok rm')) × SameRock rm' rm
  unfolding write_rock
  read_rock-write_rock path rm d d' h w =
      let r = recordable rm h in
      let t : Fields N = rock_manifest_to_table rm in
      let top : Fields N = field (codes "rock_manifest") (object t) no_fields in
      let (rm', read, alike) = rock_manifest_from_table-rock_manifest_to_table N rm r in
      let (text, written, parsed) = parse-write top (rock_manifest_key N t) (
        rock_manifest_plain N t
          (AreBranches-ArePlainFields t (rock_manifest_to_table-AreBranches N rm r))) in
      (
        rm',
        read_rock-parsed path text t rm' d'
            (content_at-write_atomic path path text (object top) d d' written w
              ∙ rw (same_refl path) refl)
            parsed read,
        alike,
      )
