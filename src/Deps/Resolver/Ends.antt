-- ===== src/Deps/Resolver/Ends.antt =====
-- The walk of deps/resolver.go ends: the depth never passes the number of names that can be asked for.
use go_luarocks.Prelude.{
  ℕ, zero, suc, ◌+◌, ◌<◌, ◌≤◌, ◌≡◌, ◌≢◌, true, false, none, some, List, [], ◌∷◌, ◌++◌, arith, inl,
  inr, Bytes, lookup, contains, others, others-cons-lt, length, subst, Map, All, Option-cases,
  Result-cases, ok, err,
}
use go_luarocks.Types.{Dep, VersionedRock, Rockspec, InstallStep}
use go_luarocks.Deps.Float.{Float}
use go_luarocks.Deps.Resolver.{
  Resolver, Walk, Descend, out_of_fuel, spec_dependencies, enter, find_rock, preload, choose,
  visit_wanted, visit_checked, visit, walk_list, walk, collect, resolve, empty_walk,
}
use go_luarocks.Deps.Resolver.Invariant.{IsSound}
use go_luarocks.Deps.Resolver.Pick.{AnswersByName, find_rock-name}
use go_luarocks.Deps.Resolver.Sound.{IsCorrect, walk-After, visit-After, enter-IsSound}

module _ {N : Type 0} ⦃fl : Float N⦄ (r : Resolver N) (u : List Bytes) where
  abbrev pub AllIn : List (Dep N) → Type 0
  AllIn ds = All (λ d. contains u d.name ≡ true) ds

  -- Whatever rock is found for a name, its dependencies are among the names `u`.
  abbrev pub IsClosed : Type 0
  IsClosed =
      (d : Dep N) (p : VersionedRock N) → find_rock r d ≡ ok p → AllIn (spec_dependencies p.spec)

find_rock-ne-out_of_fuel :
    {N : Type 0} ⦃fl : Float N⦄ (r : Resolver N) (d : Dep N) → find_rock r d ≢ err out_of_fuel
unfolding find_rock preload
find_rock-ne-out_of_fuel r d h = ground arith

module _ {N : Type 0} ⦃fl : Float N⦄ (r : Resolver N) (rows_named : AnswersByName r)
    (u : List Bytes) (closed : IsClosed r u) where
  -- What is asked of the walk below: enough fuel for the names that are not in flight.
  abbrev HasFuel : ℕ → Descend N → Type 0
  HasFuel fuel descend =
      (parent : Bytes) (deps : List (Dep N)) (chain : List Bytes) (w : Walk N)
      → IsSound r w
      → AllIn r u deps
      → others u w.in_flight < fuel
      → descend parent deps chain w ≢ err out_of_fuel

  module _ (fuel : ℕ) (descend : Descend N) (enough : HasFuel fuel descend) (chain : List Bytes)
      (d : Dep N) (inside : contains u d.name ≡ true) (w : Walk N) (h : IsSound r w)
      (bound : others u w.in_flight < suc fuel) where
    choose-HasFuel :
        contains w.in_flight d.name ≡ false
        → lookup d.name w.chosen ≡ none
        → choose descend r chain d w ≢ err out_of_fuel
    unfolding choose spec_dependencies
    choose-HasFuel out new e = elim (Result-cases (find_rock r d)) [
      | inr (x, failed) ↦ ground (arith, find_rock-ne-out_of_fuel r d)
      | inl (p, picked) ↦ elim (Option-cases p.spec) [
        | inl bare ↦ ground arith
        | inr (spec, full) ↦
            let fewer = others-cons-lt u w.in_flight d.name inside out in
            let sound = enter-IsSound r d.name p w (find_rock-name r d p rows_named picked) new h in
            let known : AllIn r u spec.dependencies =
              subst (λ x. AllIn r u (spec_dependencies x)) full (closed d p picked) in
            let below =
              enough d.name spec.dependencies (chain ++ d.name ∷ []) (enter d.name p w) sound known
                (unfold enter in omega arith) in
            ground (arith, below)
      ]
    ]

    visit_wanted-HasFuel : visit_wanted descend r chain d w ≢ err out_of_fuel
    unfolding visit_wanted
    visit_wanted-HasFuel e = ground (arith, choose-HasFuel)

    visit_checked-HasFuel : visit_checked descend r chain d w ≢ err out_of_fuel
    unfolding visit_checked
    visit_checked-HasFuel e = ground (arith, visit_wanted-HasFuel)

  module _ (fuel : ℕ) (descend : Descend N) (correct : IsCorrect r rows_named descend)
      (enough : HasFuel fuel descend) (chain : List Bytes) where
    visit-HasFuel :
        (d : Dep N) (w : Walk N)
        → contains u d.name ≡ true
        → IsSound r w
        → others u w.in_flight < suc fuel
        → visit descend r chain d w ≢ err out_of_fuel
    unfolding visit
    visit-HasFuel d w i h b e = ground (
      arith,
      visit_checked-HasFuel fuel descend enough chain d i (record w { looks = w.looks + 1 })
          (record { ordered = h.ordered; known = h.known; apart = h.apart; named = h.named }) b,
    )

    walk_list-HasFuel :
        (ds : List (Dep N)) (w : Walk N)
        → AllIn r u ds
        → IsSound r w
        → others u w.in_flight < suc fuel
        → walk_list descend r chain ds w ≢ err out_of_fuel
    unfolding walk_list
    walk_list-HasFuel [] w i h b e = cc
    walk_list-HasFuel (d ∷ ds) w i h b e = elim (Result-cases (visit descend r chain d w)) [
      | inr (x, failed) ↦ ground (arith, visit-HasFuel d w i.0 h b)
      | inl (v, done) ↦
          let a = visit-After r rows_named descend correct chain d w v h done in
          walk_list-HasFuel ds v i.1 a.sound (rw a.same_flight b) (ground arith)
    ]

  walk-HasFuel : (fuel : ℕ) → HasFuel fuel (walk fuel r)
  unfolding walk
  walk-HasFuel zero parent deps chain w h i b e = absurd (omega arith)
  walk-HasFuel (suc fuel) parent deps chain w h i b e =
      walk_list-HasFuel fuel (walk fuel r) (walk-After r rows_named fuel) (walk-HasFuel fuel) chain
        deps w i h b e

others_nil : (u : List Bytes) → others u [] ≤ length u
unfolding others contains
others_nil [] = omega arith
others_nil (k ∷ u) = omega (arith, others_nil u)

pub empty_walk-IsSound : {N : Type 0} ⦃fl : Float N⦄ (r : Resolver N) → IsSound r empty_walk
unfolding lookup contains
empty_walk-IsSound r = record {
  ordered = tt;
  known = λ k s f. cc;
  apart = λ k f. cc;
  named = λ k s f. cc;
}

collect-ne-out_of_fuel :
    {N : Type 0} ⦃fl : Float N⦄ (c : Map (InstallStep N)) (names : List Bytes)
    → collect c names ≢ err out_of_fuel
unfolding collect
collect-ne-out_of_fuel c [] e = cc
collect-ne-out_of_fuel c (n ∷ names) e = ground (arith, collect-ne-out_of_fuel c names)

-- Where the index answers by name, and the dependencies of the root and of every rock that can be
-- found lie among the names `u`, a depth of one more than the number of those names is enough: the
-- walk never gives up where the program would go on.
pub resolve-ne-out_of_fuel :
    {N : Type 0} ⦃fl : Float N⦄ (r : Resolver N) (root : Rockspec N) (u : List Bytes) (fuel : ℕ)
    → AnswersByName r
    → IsClosed r u
    → AllIn r u root.dependencies
    → length u < fuel
    → resolve fuel r (some root) ≢ err out_of_fuel
unfolding resolve
resolve-ne-out_of_fuel r root u fuel named closed inside b e =
    let ends =
      walk-HasFuel r named u closed fuel root.package_name root.dependencies [] empty_walk
        (empty_walk-IsSound r) inside (omega (arith, others_nil u)) in
    elim (Result-cases (walk fuel r root.package_name root.dependencies [] empty_walk)) [
      | inr (x, failed) ↦ ground arith
      | inl (w, done) ↦ ground (arith, collect-ne-out_of_fuel w.chosen w.order)
    ]
