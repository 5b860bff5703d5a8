-- ===== src/Client/Engine/Forget.antt =====
-- The manifest of the tree when Remove of client/native.go follows deployRock.
use go_luarocks.Prelude.{
  distinct, ◌≡◌, refl, sym, ◌∙◌, ap, true, false, ◌&&◌, none, some, List, arith, Bytes, same,
  same_iff, same_refl, Map, lookup, insert, delete, lookup-insert, lookup-delete, listed, keys,
  remove, contains, if◌then◌else◌, any, ◌==◌,
}
use go_luarocks.Types.{Rockspec, Manifest, RockManifest}
use go_luarocks.Files.FilePath.{slash}
use go_luarocks.Tree.Conflicts.{module_index}
use go_luarocks.Client.Providers.{
  upsert_all, remove_provider, front, active_provider, manifest_provider,
}
use go_luarocks.Client.Providers.Index.{
  if_any, lookup-remove_provider, listed-upsert_all, distinct-upsert_all, remove_twice,
  listed-insert, cut_at-token,
}
use go_luarocks.Client.Engine.{token, command_index, record_rock, forget_version}

-- The lists of an index without one provider.
remove_provider-upsert_all :
    (items : List Bytes) (provider item : Bytes) (index : Map (List Bytes))
    → distinct (keys index) ≡ true
    → lookup item (remove_provider (upsert_all items provider index) provider)
      ≡ if_any (remove provider (listed item index))
remove_provider-upsert_all items provider item index h =
    lookup-remove_provider (upsert_all items provider index) provider item
      (distinct-upsert_all items provider index h)
    ∙ ap (λ l. if_any (remove provider l)) (listed-upsert_all items provider item index)
    ∙ ground (arith, remove_twice provider (listed item index))

active_provider-upsert_all :
    (items : List Bytes) (name version item : Bytes) (index : Map (List Bytes))
    → contains items item ≡ true
    → any (λ c. c == slash) name ≡ false
    → active_provider (upsert_all items (token name version) index) item ≡ some (name, version)
unfolding active_provider
active_provider-upsert_all items name version item index h n =
    ap front (listed-upsert_all items (token name version) item index)
    ∙ rw h (unfold front in cut_at-token name version n)

insert-delete :
    {V : Type 0} (r r' v v' : Bytes) (e : V) (repo repo' : Map (Map V))
    → insert r (insert v e (listed r repo)) repo ≡ repo'
    → lookup v' (listed r' (insert r (delete v (listed r repo')) repo'))
      ≡ (if same r r' && same v v' then none else lookup v' (listed r' repo))
insert-delete r r' v v' e repo repo' h =
    let added : Map _ = insert v e (listed r repo) in
    let at_r : listed r repo' ≡ added =
      ap (listed r) (sym h) ∙ listed-insert r r added repo ∙ rw (same_refl r) refl in
    let elsewhere : listed r' repo' ≡ (if same r r' then added else listed r' repo) =
      ap (listed r') (sym h) ∙ listed-insert r r' added repo in
    ap (lookup v') (listed-insert r r' (delete v (listed r repo')) repo')
    ∙ ground (
      arith,
      at_r,
      elsewhere,
      same_iff r r',
      lookup-delete v v' added,
      lookup-insert v v' e (listed r repo),
    )

module _ {N : Type 0} (spec : Rockspec N) (rm : RockManifest) (m : Manifest N) where
  -- Where the name of the rock has no slash, a rock that deployRock has recorded is what
  -- manifestProvider gives for each module that its files provide.
  pub manifest_provider-record_rock :
      (item : Bytes)
      → contains (keys (module_index (some rm) spec.package_name spec.version)) item ≡ true
      → any (λ c. c == slash) spec.package_name ≡ false
      → manifest_provider (record_rock spec rm m) item ≡ some (spec.package_name, spec.version)
  unfolding manifest_provider record_rock
  manifest_provider-record_rock item h n =
      let commands = active_provider (record_rock spec rm m).commands item in
      ap (λ o. elim o [ some p ↦ some p | none ↦ commands ])
        (active_provider-upsert_all (keys (module_index (some rm) spec.package_name spec.version))
          spec.package_name spec.version item m.modules h n)

  -- Where no module and no command comes twice in the manifest, recording a rock as deployRock
  -- does and then taking its version out as Remove does leaves for each module and command the
  -- providers of before without that rock, in their order, and no empty list; of the repository it
  -- takes that version of that rock and no other.
  pub forget_version-record_rock :
      distinct (keys m.modules) ≡ true
      → distinct (keys m.commands) ≡ true
      → ((item : Bytes)
          → lookup item
              (forget_version spec.package_name spec.version (record_rock spec rm m)).modules
            ≡ if_any (remove (token spec.package_name spec.version) (listed item m.modules)))
        × ((item : Bytes)
            → lookup item
                (forget_version spec.package_name spec.version (record_rock spec rm m)).commands
              ≡ if_any (remove (token spec.package_name spec.version) (listed item m.commands)))
        × ((name version : Bytes)
            → lookup version (
                listed name
                  (forget_version spec.package_name spec.version
                    (record_rock spec rm m)).repository)
              ≡ (if same spec.package_name name && same spec.version version
                  then none
                  else lookup version (listed name m.repository)))
  unfolding forget_version record_rock
  forget_version-record_rock h k =
      let provider = token spec.package_name spec.version in
      (
        λ item.
            remove_provider-upsert_all
              (keys (module_index (some rm) spec.package_name spec.version)) provider item m.modules
              h,
        λ item.
            remove_provider-upsert_all (keys (command_index spec rm)) provider item m.commands k,
        λ name version.
            insert-delete spec.package_name name spec.version version _ m.repository _ refl,
      )
