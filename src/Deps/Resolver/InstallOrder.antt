-- ===== src/Deps/Resolver/InstallOrder.antt =====
-- What Resolve of deps/resolver.go returns, stated of the list of steps alone.
use mathlib.Core.Path.{subst₂}
use go_luarocks.Prelude.{
  ℕ, ◌≡◌, ◌≢◌, refl, sym, true, some, List, [], ◌∷◌, ◌++◌, arith, inl, inr, Bytes, same_iff, Map,
  lookup, contains, contains-append, All, All-map, All-append, In, here, In-append_left,
  In-append_right, Bool-cases, Result-cases, ok, append-nil, append_assoc, ap,
}
use go_luarocks.Types.{Version, Dep, Rockspec, InstallStep}
use go_luarocks.Deps.Float.{Float}
use go_luarocks.Deps.Constraint.{match_all}
use go_luarocks.Deps.Resolver.{
  Resolver, installed_satisfies, spec_dependencies, walk, collect, resolve, empty_walk,
}
use go_luarocks.Deps.Resolver.Invariant.{IsMet, by_provided, by_installed, by_step, InOrder}
use go_luarocks.Deps.Resolver.Pick.{AnswersByName}
use go_luarocks.Deps.Resolver.Sound.{walk-After}
use go_luarocks.Deps.Resolver.Ends.{empty_walk-IsSound}

module _ {N : Type 0} ⦃fl : Float N⦄ (r : Resolver N) where
  -- A dependency is met by the VM, by an installed rock, or by one of the steps.
  pub data IsMetBy (steps : List (InstallStep N)) (d : Dep N) : Type 0 where
    provided :
        (pv : Version N)
        → lookup d.name r.provided ≡ some pv
        → match_all pv d.constraints ≡ true
        → IsMetBy steps d
    installed : installed_satisfies r d ≡ true → IsMetBy steps d
    step :
        (s : InstallStep N)
        → In s steps
        → s.name ≡ d.name
        → match_all s.version d.constraints ≡ true
        → IsMetBy steps d

  -- Each step after `earlier` has a new name, and its dependencies are met before it.
  abbrev pub IsInstallOrder : List (InstallStep N) → List (InstallStep N) → Type 0
  IsInstallOrder earlier [] = Unit
  IsInstallOrder earlier (s ∷ steps) =
      All (IsMetBy earlier) (spec_dependencies s.rockspec)
      × All (λ e. e.name ≢ s.name) earlier
      × IsInstallOrder (earlier ++ s ∷ []) steps

  -- The steps of a list of names.
  record Reflects (c : Map (InstallStep N)) (names : List Bytes) (steps : List (InstallStep N))
      : Type 0 where
    there_are :
        (k : Bytes) (s : InstallStep N) → contains names k ≡ true → lookup k c ≡ some s → In s steps
    no_more : All (λ s. contains names s.name ≡ true) steps

  Reflects-nil : (c : Map (InstallStep N)) → Reflects c [] []
  unfolding contains
  Reflects-nil c = record { there_are = λ k s i l. cc; no_more = tt }

  module _ (c : Map (InstallStep N))
      (named : (k : Bytes) (s : InstallStep N) → lookup k c ≡ some s → s.name ≡ k) where
    IsMet→IsMetBy :
        (names : List Bytes) (steps : List (InstallStep N)) (d : Dep N)
        → Reflects c names steps
        → IsMet r c names d
        → IsMetBy steps d
    IsMet→IsMetBy names steps d f (by_provided pv l m) = provided pv l m
    IsMet→IsMetBy names steps d f (by_installed h) = installed h
    IsMet→IsMetBy names steps d f (by_step s i l m) =
        step s (f.there_are d.name s i l) (named d.name s l) m

    Reflects-snoc :
        (names : List Bytes) (steps : List (InstallStep N)) (k : Bytes) (s : InstallStep N)
        → lookup k c ≡ some s
        → Reflects c names steps
        → Reflects c (names ++ k ∷ []) (steps ++ s ∷ [])
    unfolding contains
    Reflects-snoc names steps k s l f = record {
      there_are = λ j t i g. elim (Bool-cases (contains names j)) [
        | inl old ↦ In-append_left (s ∷ []) (f.there_are j t old g)
        | inr new ↦
            In-append_right steps
              (here (ground (arith, contains-append names (k ∷ []) j, same_iff k j)))
      ];
      no_more =
          All-append (λ t. contains (names ++ k ∷ []) t.name ≡ true) steps (s ∷ [])
            (All-map (λ t. contains names t.name ≡ true)
              (λ t. contains (names ++ k ∷ []) t.name ≡ true)
              (λ t h. ground (arith, contains-append names (k ∷ []) t.name)) steps f.no_more)
            (
              ground (arith, contains-append names (k ∷ []) s.name, same_iff k s.name, named k s l),
              tt,
            );
    }

    collect_lem :
        (earlier names : List Bytes) (before : List (InstallStep N))
        → InOrder r c earlier names
        → Reflects c earlier before
        → (steps : List (InstallStep N)) × (collect c names ≡ ok steps)
          × IsInstallOrder before steps
          × Reflects c (earlier ++ names) (before ++ steps)
    unfolding collect
    collect_lem earlier [] before o f =
        ([], refl, tt, subst₂ (Reflects c) (sym (append-nil earlier)) (sym (append-nil before)) f)
    collect_lem earlier (k ∷ names) before o f =
        let s = o.0.step in
        let (steps, e, i, g) =
          collect_lem (earlier ++ k ∷ []) names (before ++ s ∷ []) o.1
            (Reflects-snoc earlier before k s o.0.found f) in
        (
          s ∷ steps,
          ground (arith, o.0.found, e),
          (
            All-map (IsMet r c earlier) (IsMetBy before) (λ d m. IsMet→IsMetBy earlier before d f m)
                (spec_dependencies s.rockspec) o.0.met,
            All-map (λ t. contains earlier t.name ≡ true) (λ t. t.name ≢ s.name)
                (λ t h q. ground (arith, o.0.once, named k s o.0.found, ap (contains earlier) q))
                before f.no_more,
            i,
          ),
          subst₂ (Reflects c) (append_assoc earlier (k ∷ []) names)
              (append_assoc before (s ∷ []) steps) g,
        )

-- Where the index answers by name, the steps that Resolve returns stand in dependency order, each
-- name once, with the dependencies of each met before it, and the dependencies of the root are met.
pub resolve-IsInstallOrder :
    {N : Type 0} ⦃fl : Float N⦄ (r : Resolver N) (fuel : ℕ) (root : Rockspec N)
    (steps : List (InstallStep N))
    → AnswersByName r
    → resolve fuel r (some root) ≡ ok steps
    → IsInstallOrder r [] steps × All (IsMetBy r steps) root.dependencies
unfolding resolve
resolve-IsInstallOrder r fuel root steps named e =
    elim (Result-cases (walk fuel r root.package_name root.dependencies [] empty_walk)) [
      | inr (x, failed) ↦ absurd (ground arith)
      | inl (w, done) ↦
          let a =
            walk-After r named fuel root.package_name root.dependencies [] empty_walk w
              (empty_walk-IsSound r) done in
          let (found, collected, ordered, reflects) =
            collect_lem r w.chosen a.sound.named [] w.order [] a.sound.ordered
              (Reflects-nil r w.chosen) in
          let q : found ≡ steps = ground arith in
          rw (← q) (
            ordered,
            All-map (IsMet r w.chosen w.order) (IsMetBy r found)
                (λ d m. IsMet→IsMetBy r w.chosen a.sound.named w.order found d reflects m)
                root.dependencies a.met,
          )
    ]
