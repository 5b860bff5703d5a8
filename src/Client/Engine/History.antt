-- ===== src/Client/Engine/History.antt =====
-- The manifests that the engine of client/native.go writes, one after the other.
use go_luarocks.Prelude.{distinct, refl, List, [], ◌∷◌, Bytes, listed, some, delete, keys}
use go_luarocks.Types.{Rockspec, RepoEntry, Manifest, RockManifest}
use go_luarocks.Tree.Conflicts.{module_index}
use go_luarocks.Client.Providers.Kept.{
  WellKept, well_listed, upsert_all-WellKept, remove_provider-WellKept,
}
use go_luarocks.Client.Engine.{
  token, command_index, empty_manifest, record_rock, forget_version, forget_rock,
}

-- A manifest that comes from the empty one by installing and removing rocks.
pub data Reached {N : Type 0} : Manifest N → Type 0 where
  fresh : Reached empty_manifest
  recorded :
      (spec : Rockspec N) (rm : RockManifest) (m : Manifest N)
      → Reached m
      → Reached (record_rock spec rm m)
  forgotten :
      (name version : Bytes) (m : Manifest N) → Reached m → Reached (forget_version name version m)
  dropped : (name : Bytes) (m : Manifest N) → Reached m → Reached (forget_rock name m)

empty-WellKept : WellKept []
unfolding distinct well_listed
empty-WellKept = (refl, refl)

module _ {N : Type 0} where
  abbrev pub ManifestKept : Manifest N → Type 0
  ManifestKept m = WellKept m.modules × WellKept m.commands

  record_rock-ManifestKept :
      (spec : Rockspec N) (rm : RockManifest) (m : Manifest N)
      → ManifestKept m
      → ManifestKept (record_rock spec rm m)
  unfolding record_rock
  record_rock-ManifestKept spec rm m (modules, commands) =
      let provider = token spec.package_name spec.version in
      let mods = module_index (some rm) spec.package_name spec.version in
      (
        upsert_all-WellKept (keys mods) provider m.modules modules,
        upsert_all-WellKept (keys (command_index spec rm)) provider m.commands commands,
      )

  forget_version-ManifestKept :
      (name version : Bytes) (m : Manifest N)
      → ManifestKept m
      → ManifestKept (forget_version name version m)
  unfolding forget_version
  forget_version-ManifestKept name version m (modules, commands) = (
    remove_provider-WellKept m.modules (token name version) modules,
    remove_provider-WellKept m.commands (token name version) commands,
  )

  forget_rock-ManifestKept :
      (name : Bytes) (m : Manifest N) → ManifestKept m → ManifestKept (forget_rock name m)
  unfolding forget_rock
  forget_rock-ManifestKept name m h = go (listed name m.repository)
    where
      go :
          (versions : List (Bytes × RepoEntry))
          → ManifestKept (elim versions as (λ v. Manifest N) [
            | [] ↦ record m {
              repository = delete name m.repository;
              dependencies = delete name m.dependencies;
            }
            | v ∷ vs ↦ m
          ])
      go [] = h
      go (v ∷ vs) = h

  -- In every manifest that comes from the empty one by the changes that deployRock and Remove
  -- make, in any order, each module and command that is listed has a provider, no provider is
  -- listed twice for it, and no module or command comes twice.
  pub reached-ManifestKept : (m : Manifest N) → Reached m → ManifestKept m
  reached-ManifestKept m fresh = (empty-WellKept, empty-WellKept)
  reached-ManifestKept m (recorded spec rm m' before) =
      record_rock-ManifestKept spec rm m' (reached-ManifestKept m' before)
  reached-ManifestKept m (forgotten name version m' before) =
      forget_version-ManifestKept name version m' (reached-ManifestKept m' before)
  reached-ManifestKept m (dropped name m' before) =
      forget_rock-ManifestKept name m' (reached-ManifestKept m' before)
