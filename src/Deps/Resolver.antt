-- ===== src/Deps/Resolver.antt =====
-- deps/resolver.go: Resolve and the walk over the dependency closure.
pub mod Invariant
pub mod Pick
pub mod Sound
pub mod Ends
pub mod InstallOrder
use go_luarocks.Prelude.{
  ℕ, zero, suc, ◌+◌, Bool, true, false, not, Option, none, some, List, [], ◌∷◌, ◌++◌, Bytes, codes,
  Result, ok, err, ◌>>=◌, Ordering, if◌then◌else◌, any, filter, reverse, Map, lookup, insert,
  copy_into, contains, remove,
}
use go_luarocks.Types.{Version, VersionConstraint, Dep, Rockspec, VersionedRock, InstallStep}
use go_luarocks.Deps.Float.{Float}
use go_luarocks.Deps.Version.{compare}
use go_luarocks.Deps.Constraint.{match_all}

pub data ResolveError : Type 0 where
  -- ctx.Err(), idx.Query and fetch: the error that came from outside.
  cancelled query_failed fetch_failed : Bytes → ResolveError
  -- The name of the dependency, and for a cycle the chain that leads to it.
  provided_mismatch conflict no_version : Bytes → ResolveError
  cycle : Bytes → List Bytes → ResolveError
  nil_root : ResolveError
  -- *r.chosen[name] of a name that is not there: a nil pointer panic.
  nil_step : ResolveError
  -- no counterpart in the program: the model's own bound on the depth was met
  out_of_fuel : ResolveError

-- What stays fixed in `resolver`. The index, the fetcher, the lookup of installed rocks and the
-- context belong to the caller; `cancelled` is what the n-th call of ctx.Err() gives.
pub record Resolver (N : Type 0) : Type 0 where
  pub query : Bytes → Bytes → Result Bytes (List (VersionedRock N))
  pub fetch : Option (VersionedRock N → Result Bytes (Option (Rockspec N)))
  pub provided : Map (Version N)
  pub installed : Option (Bytes → List (Version N))
  pub context : ℕ → Option Bytes

-- What the walk changes, with the number of calls of ctx.Err() so far.
pub record Walk (N : Type 0) : Type 0 where
  pub chosen : Map (InstallStep N)
  pub in_flight : List Bytes
  pub order : List Bytes
  pub looks : ℕ

-- WithProvided
unfoldable pub with_provided : {N : Type 0} → Map (Version N) → Resolver N → Resolver N
with_provided extra r = record r { provided = copy_into r.provided extra }

unfoldable pub first {ℓ} : {A : Type ℓ} → List A → Option A
first [] = none
first (x ∷ xs) = some x

-- A walk over the dependencies of a parent: `r.walk` with its context.
abbrev pub Descend : Type 0 → Type 0
Descend N = Bytes → List (Dep N) → List Bytes → Walk N → Result ResolveError (Walk N)

module _ {N : Type 0} ⦃fl : Float N⦄ where
  unfoldable pub any_matches : Dep N → List (Version N) → Bool
  any_matches d [] = false
  any_matches d (v ∷ vs) = if match_all v d.constraints then true else any_matches d vs

  unfoldable pub installed_satisfies : Resolver N → Dep N → Bool
  unfolding any_matches
  installed_satisfies r d = elim (r.installed) [
    | none ↦ false
    | some installed ↦ any_matches d (installed d.name)
  ]

  -- sort.SliceStable as it runs on up to 20 elements: each element moves left past those that it
  -- precedes. The sorted part is kept last element first.
  unfoldable pub precedes : VersionedRock N → VersionedRock N → Bool
  precedes a b = elim (compare a.version b.version) [ Ordering.gt ↦ true | _ ↦ false ]

  unfoldable pub sift : VersionedRock N → List (VersionedRock N) → List (VersionedRock N)
  unfolding precedes
  sift x [] = x ∷ []
  sift x (y ∷ ys) = if precedes x y then y ∷ sift x ys else x ∷ y ∷ ys

  unfoldable pub sort_reversed :
      List (VersionedRock N) → List (VersionedRock N) → List (VersionedRock N)
  unfolding sift
  sort_reversed acc [] = acc
  sort_reversed acc (x ∷ xs) = sort_reversed (sift x acc) xs

  unfoldable pub pick_newest :
      List (VersionedRock N) → List (VersionConstraint N) → Option (VersionedRock N)
  unfolding sort_reversed first
  pick_newest candidates cs =
      first (reverse (sort_reversed [] (filter (λ c. match_all c.version cs) candidates)))

  -- The fetch of the picked rock's rockspec, where the index did not carry one.
  unfoldable pub preload : Resolver N → VersionedRock N → Result ResolveError (VersionedRock N)
  preload r picked = elim (picked.spec) [
    | some spec ↦ ok picked
    | none ↦ elim (r.fetch) [
      | none ↦ ok picked
      | some fetch ↦ elim (fetch picked) [
        | err e ↦ err (fetch_failed e)
        | ok spec ↦ ok (record picked { spec = spec })
      ]
    ]
  ]

  unfoldable pub step_of : VersionedRock N → InstallStep N
  step_of picked = record {
    name = picked.name;
    version = picked.version;
    url = picked.url;
    rockspec = picked.spec;
  }

  -- The dependencies that the walk goes on with.
  unfoldable pub spec_dependencies : Option (Rockspec N) → List (Dep N)
  spec_dependencies none = []
  spec_dependencies (some spec) = spec.dependencies

  unfoldable pub enter : Bytes → VersionedRock N → Walk N → Walk N
  unfolding step_of
  enter name picked w = record w {
    chosen = insert name (step_of picked) w.chosen;
    in_flight = name ∷ w.in_flight;
  }

  unfoldable pub leave : Bytes → Walk N → Walk N
  leave name w = record w { in_flight = remove name w.in_flight; order = w.order ++ name ∷ [] }

  -- The query, and the pick with its rockspec.
  unfoldable pub find_rock : Resolver N → Dep N → Result ResolveError (VersionedRock N)
  find_rock r d = elim (r.query d.name d.namespace) [
    | err e ↦ err (query_failed e)
    | ok candidates ↦ elim (pick_newest candidates d.constraints) [
      | none ↦ err (no_version d.name)
      | some picked ↦ preload r picked
    ]
  ]

  -- From `r.inFlight[d.Name] = true` to the end of the loop's body. A walk over no dependencies
  -- changes nothing, so the case of no rockspec is that of no dependencies.
  unfoldable pub choose :
      Descend N → Resolver N → List Bytes → Dep N → Walk N → Result ResolveError (Walk N)
  choose descend r chain d w = elim (find_rock r d) [
    | err e ↦ err e
    | ok picked ↦ elim (picked.spec) [
      | none ↦ ok (leave d.name (enter d.name picked w))
      | some spec ↦
          elim (descend d.name spec.dependencies (chain ++ d.name ∷ []) (enter d.name picked w)) [
            | err e ↦ err e
            | ok w' ↦ ok (leave d.name w')
          ]
    ]
  ]

  -- The tests on r.inFlight and r.chosen.
  unfoldable pub visit_wanted :
      Descend N → Resolver N → List Bytes → Dep N → Walk N → Result ResolveError (Walk N)
  visit_wanted descend r chain d w =
      if contains w.in_flight d.name
      then err (cycle d.name (chain ++ d.name ∷ []))
      else elim (lookup d.name w.chosen) [
        | none ↦ choose descend r chain d w
        | some existing ↦
            if match_all existing.version d.constraints then ok w else err (conflict d.name)
      ]

  -- The tests on r.provided and on the installed rocks.
  unfoldable pub visit_checked :
      Descend N → Resolver N → List Bytes → Dep N → Walk N → Result ResolveError (Walk N)
  visit_checked descend r chain d w = elim (lookup d.name r.provided) [
    | some pv ↦ if match_all pv d.constraints then ok w else err (provided_mismatch d.name)
    | none ↦ if installed_satisfies r d then ok w else visit_wanted descend r chain d w
  ]

  -- The body of the loop of `walk`.
  unfoldable pub visit :
      Descend N → Resolver N → List Bytes → Dep N → Walk N → Result ResolveError (Walk N)
  visit descend r chain d w = elim (r.context w.looks) [
    | some e ↦ err (cancelled e)
    | none ↦ visit_checked descend r chain d (record w { looks = w.looks + 1 })
  ]

  unfoldable pub walk_list :
      Descend N → Resolver N → List Bytes → List (Dep N) → Walk N → Result ResolveError (Walk N)
  walk_list descend r chain [] w = ok w
  walk_list descend r chain (d ∷ ds) w = do
    w' ← visit descend r chain d w
    walk_list descend r chain ds w'

  -- The fuel bounds how deep the walk goes.
  unfoldable pub walk : ℕ → Resolver N → Descend N
  walk zero r parent deps chain w = err out_of_fuel
  walk (suc fuel) r parent deps chain w = walk_list (walk fuel r) r chain deps w

  unfoldable pub collect :
      Map (InstallStep N) → List Bytes → Result ResolveError (List (InstallStep N))
  collect chosen [] = ok []
  collect chosen (name ∷ names) = elim (lookup name chosen) [
    | none ↦ err nil_step
    | some step ↦ do steps ← collect chosen names; ok (step ∷ steps)
  ]

  abbrev pub empty_walk : Walk N
  empty_walk = record { chosen = []; in_flight = []; order = []; looks = 0 }

  unfoldable pub resolve :
      ℕ → Resolver N → Option (Rockspec N) → Result ResolveError (List (InstallStep N))
  resolve fuel r none = err nil_root
  resolve fuel r (some root) = do
    w ← walk fuel r root.package_name root.dependencies [] empty_walk
    collect w.chosen w.order
