-- ===== src/Remote/Loading.antt =====
-- remote/remote.go and remote/file.go: how a manifest is decoded, and how a directory's is found. The
-- readers of zip files and of JSON are parameters; the cache is empty.
use go_luarocks.Prelude.{
  Bool, true, false, Option, none, some, List, [], ◌∷◌, ◌++◌, Bytes, codes, Result, ok, err, ◌>>=◌,
  if◌then◌else◌,
}
use go_luarocks.Files.FilePath.{clean, join, join₂}
use go_luarocks.Files.Disk.{
  Disk, Fault, other, not_exist, not_directory, stat, directory, file, read_file,
}
use go_luarocks.Manif.Value.{Fields, FloatText}
use go_luarocks.Manif.Parser.{parse}
use go_luarocks.Manif.Store.Decode.{as_map}
use go_luarocks.Remote.Manifest.{RemoteManifest, project_manifest}

pub record ManifestProbe : Type 0 where
  pub name : Bytes
  pub is_json : Bool
  pub is_zip : Bool
  pub inner : Bytes

-- manifestProbes
unfoldable pub manifest_probes : Bytes → List ManifestProbe
manifest_probes lua_version =
    record {
      name = codes "manifest-" ++ (lua_version ++ codes ".zip");
      is_json = false;
      is_zip = true;
      inner = codes "manifest-" ++ lua_version;
    }
    ∷ record {
      name = codes "manifest-" ++ lua_version;
      is_json = false;
      is_zip = false;
      inner = [];
    }
    ∷ record { name = codes "manifest"; is_json = false; is_zip = false; inner = [] }
    ∷ record {
      name = codes "manifest-" ++ (lua_version ++ codes ".json");
      is_json = true;
      is_zip = false;
      inner = [];
    }
    ∷ []

-- The namespace's manifests stand in a directory of their own.
unfoldable pub manifest_base : Bytes → Bytes → Bytes
unfolding join
manifest_base dir [] = dir
manifest_base dir (c ∷ namespace) = join (dir ∷ codes "manifests" ∷ (c ∷ namespace) ∷ [])

-- The empty version is that of Lua 5.1.
unfoldable pub or_default_version : Bytes → Bytes
or_default_version [] = codes "5.1"
or_default_version (c ∷ version) = c ∷ version

-- os.Stat of a path as it is written, and its IsDir
unfoldable pub directory_fault : Disk → Bytes → Option Fault
unfolding stat clean
directory_fault d [] = some (not_exist [])
directory_fault d (c ∷ base) = elim (stat d (clean (c ∷ base))) [
  | none ↦ some (not_exist (c ∷ base))
  | some n ↦ elim n [ directory ↦ none | file content mode ↦ some (not_directory (c ∷ base)) ]
]

module _ {N : Type 0} ⦃ft : FloatText N⦄ (unzip_manifest : Bytes → Bytes → Result Fault Bytes)
    (from_json : Bytes → Result Fault (Fields N)) where
  unfoldable pub parse_manifest : Bytes → Result Fault (Fields N)
  unfolding parse as_map
  parse_manifest body = elim (parse {N = N} body) [
    | err e ↦ err (other (codes "parse manifest"))
    | ok v ↦ as_map (codes "top-level, want map") v
  ]

  -- decodeManifest
  unfoldable pub decode_manifest : Bytes → ManifestProbe → Bytes → Result Fault RemoteManifest
  unfolding parse_manifest project_manifest
  decode_manifest server p body = do
    text ← (if p.is_zip then unzip_manifest body p.inner else ok body)
    raw ← (if p.is_json then from_json text else parse_manifest text)
    project_manifest server raw

  -- The loop of load over the probes, with the last failure to read and the first one to decode.
  unfoldable pub try_probes :
      Disk
      → Bytes
      → Bytes
      → List ManifestProbe
      → Option Fault
      → Option Fault
      → Result Fault RemoteManifest
  unfolding read_file decode_manifest join
  try_probes d server base [] read_failure (some e) = err e
  try_probes d server base [] (some e) none = err e
  try_probes d server base [] none none = err (other (codes "no manifest variant found"))
  try_probes d server base (p ∷ probes) read_failure decode_failure =
      elim ((read_file (join₂ base p.name) d).1) [
        | err e ↦ try_probes d server base probes (some e) decode_failure
        | ok body ↦ elim (decode_manifest server p body) [
          | ok m ↦ ok m
          | err e ↦
              try_probes d server base probes read_failure
                (elim decode_failure [ none ↦ some e | some f ↦ some f ])
        ]
      ]

  -- load of FileRemoteIndex
  unfoldable pub load_directory : Disk → Bytes → Bytes → Bytes → Bytes → Result Fault RemoteManifest
  unfolding manifest_base directory_fault try_probes manifest_probes or_default_version
  load_directory d server lua_version dir namespace =
      let base = manifest_base dir namespace in
      elim (directory_fault d base) [
        | some e ↦ err e
        | none ↦
            try_probes d server base (manifest_probes (or_default_version lua_version)) none none
      ]
