-- ===== src/Client/Tests.antt =====
-- Runs of client over a small manifest.
use go_luarocks.Prelude.{
  distinct, ◌≡◌, refl, ◌&&◌, none, some, [], ◌∷◌, ℤ, Bytes, codes, same, lookup, listed, remove,
  insert, contains, if◌then◌else◌,
}
use go_luarocks.Types.{Rockspec, Manifest, RockManifest}
use go_luarocks.Files.Strings.{cut_last, has_prefix}
use go_luarocks.Samples.{spec_of}
use go_luarocks.Tree.Conflicts.{module_index, index_files, path_to_module, munged_version}
use go_luarocks.Client.Providers.{manifest_provider, remove_provider}
use go_luarocks.Client.Providers.Index.{if_any, lookup-remove_provider}
use go_luarocks.Client.Source.{
  kind_of, deduce_base_dir, check_supported_platforms, source_rock_artifact,
}
use go_luarocks.Client.Source.Supported.{
  is_ok, is_supported, check_supported_platforms-is_supported,
}
use go_luarocks.Client.Engine.{token, record_rock, forget_version, empty_manifest}
use go_luarocks.Client.Engine.Forget.{manifest_provider-record_rock, forget_version-record_rock}
use go_luarocks.Client.Engine.History.{ManifestKept, fresh, recorded, reached-ManifestKept}

kind_of_source : kind_of (codes "http://r/m-1.0-1.SRC.rock") ≡ source_rock_artifact
unfolding kind_of
kind_of_source = refl

deduce_base_dir_tar : deduce_base_dir (codes "http://r/foo-1.0.tar.gz") ≡ codes "foo-1.0"
unfolding deduce_base_dir same
deduce_base_dir_tar = refl

abbrev spec : Rockspec ℤ
spec = spec_of (codes "m") (codes "1.0-1") []

abbrev deployed : RockManifest
deployed = record {
  rockspec_file = [];
  rockspec = [];
  lua = (codes "m/a.lua", []) ∷ (codes "m/b.lua", []) ∷ [];
  lib = [];
  bin = [];
  conf = [];
  doc = [];
}

abbrev before : Manifest ℤ
before = record {
  repository = [];
  modules = (codes "m.a", codes "other/2.0-1" ∷ []) ∷ [];
  commands = [];
  dependencies = [];
}

manifest_provider-record_rock_example :
    manifest_provider (record_rock spec deployed before) (codes "m.a")
    ≡ some (codes "m", codes "1.0-1")
unfolding module_index index_files path_to_module munged_version cut_last has_prefix insert same
    contains
manifest_provider-record_rock_example =
    manifest_provider-record_rock spec deployed before (codes "m.a") refl refl

forget_version-record_rock_example :
    ((item : Bytes)
      → lookup item
          (forget_version (codes "m") (codes "1.0-1") (record_rock spec deployed before)).modules
        ≡ if_any (remove (token (codes "m") (codes "1.0-1")) (listed item before.modules)))
    × ((item : Bytes)
        → lookup item
            (forget_version (codes "m") (codes "1.0-1") (record_rock spec deployed before)).commands
          ≡ if_any (remove (token (codes "m") (codes "1.0-1")) (listed item before.commands)))
    × ((name version : Bytes)
        → lookup version (
            listed name
              (forget_version
                (codes "m")
                (codes "1.0-1")
                (record_rock spec deployed before)).repository)
          ≡ (if same (codes "m") name && same (codes "1.0-1") version
              then none
              else lookup version (listed name before.repository)))
unfolding distinct
forget_version-record_rock_example = forget_version-record_rock spec deployed before refl refl

reached-ManifestKept_example : ManifestKept (record_rock spec deployed empty_manifest)
reached-ManifestKept_example =
    reached-ManifestKept (record_rock spec deployed empty_manifest)
      (recorded spec deployed empty_manifest fresh)

abbrev no_windows : Rockspec ℤ
no_windows = record spec { supported_platforms = codes "!windows" ∷ codes "linux" ∷ [] }

check_supported_platforms-is_supported_example :
    is_ok (check_supported_platforms no_windows (codes "unix" ∷ codes "linux" ∷ []))
    ≡ is_supported (codes "unix" ∷ codes "linux" ∷ []) (codes "!windows" ∷ codes "linux" ∷ [])
check_supported_platforms-is_supported_example =
    check_supported_platforms-is_supported no_windows (codes "unix" ∷ codes "linux" ∷ [])

lookup-remove_provider_example :
    lookup (codes "m.a") (remove_provider before.modules (codes "other/2.0-1"))
    ≡ if_any (remove (codes "other/2.0-1") (listed (codes "m.a") before.modules))
unfolding distinct
lookup-remove_provider_example =
    lookup-remove_provider before.modules (codes "other/2.0-1") (codes "m.a") refl
