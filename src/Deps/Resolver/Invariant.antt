-- ===== src/Deps/Resolver/Invariant.antt =====
-- The invariant of the walk of deps/resolver.go over `chosen`, `inFlight` and `order`.
use go_luarocks.Prelude.{
  ◌≡◌, true, false, some, List, [], ◌∷◌, ◌++◌, ◌⊎◌, inl, inr, Bytes, same, same_iff, Map, lookup,
  contains, All, All-map, Bool-cases, append-nil, append_assoc,
}
use go_luarocks.Types.{Version, Dep, InstallStep}
use go_luarocks.Deps.Float.{Float}
use go_luarocks.Deps.Constraint.{match_all}
use go_luarocks.Deps.Resolver.{Resolver, Walk, installed_satisfies, spec_dependencies}

-- Every choice of the first map stands in the second.
abbrev pub Keeps : {N : Type 0} → Map (InstallStep N) → Map (InstallStep N) → Type 0
Keeps {N} c c' = (k : Bytes) (s : InstallStep N) → lookup k c ≡ some s → lookup k c' ≡ some s

module _ {N : Type 0} ⦃fl : Float N⦄ (r : Resolver N) where
  -- A dependency is met by the VM, by an installed rock, or by the choice for one of the names
  -- `earlier`.
  pub data IsMet (chosen : Map (InstallStep N)) (earlier : List Bytes) (d : Dep N) : Type 0 where
    by_provided :
        (pv : Version N)
        → lookup d.name r.provided ≡ some pv
        → match_all pv d.constraints ≡ true
        → IsMet chosen earlier d
    by_installed : installed_satisfies r d ≡ true → IsMet chosen earlier d
    by_step :
        (s : InstallStep N)
        → contains earlier d.name ≡ true
        → lookup d.name chosen ≡ some s
        → match_all s.version d.constraints ≡ true
        → IsMet chosen earlier d

  -- A name that follows `earlier`: new, with a choice whose dependencies are met before it.
  pub record IsStep (chosen : Map (InstallStep N)) (earlier : List Bytes) (name : Bytes)
      : Type 0 where
    pub step : InstallStep N
    pub found : lookup name chosen ≡ some step
    pub met : All (IsMet chosen earlier) (spec_dependencies step.rockspec)
    pub once : contains earlier name ≡ false

  abbrev pub InOrder : Map (InstallStep N) → List Bytes → List Bytes → Type 0
  InOrder chosen earlier [] = Unit
  InOrder chosen earlier (n ∷ ns) = IsStep chosen earlier n × InOrder chosen (earlier ++ n ∷ []) ns

  pub record IsSound (w : Walk N) : Type 0 where
    pub ordered : InOrder w.chosen [] w.order
    pub known :
        (k : Bytes) (s : InstallStep N)
        → lookup k w.chosen ≡ some s
        → (contains w.in_flight k ≡ true) ⊎ (contains w.order k ≡ true)
    pub apart : (k : Bytes) → contains w.in_flight k ≡ true → contains w.order k ≡ false
    pub named : (k : Bytes) (s : InstallStep N) → lookup k w.chosen ≡ some s → s.name ≡ k

  -- What a walk over `deps` leaves.
  pub record After (deps : List (Dep N)) (w w' : Walk N) : Type 0 where
    pub sound : IsSound w'
    pub keeps : Keeps w.chosen w'.chosen
    pub longer : (k : Bytes) → contains w.order k ≡ true → contains w'.order k ≡ true
    pub same_flight : w'.in_flight ≡ w.in_flight
    pub met : All (IsMet w'.chosen w'.order) deps

  pub IsMet-grow :
      (c c' : Map (InstallStep N)) (e e' : List Bytes) (d : Dep N)
      → Keeps c c'
      → ((k : Bytes) → contains e k ≡ true → contains e' k ≡ true)
      → IsMet c e d
      → IsMet c' e' d
  IsMet-grow c c' e e' d keep longer (by_provided pv f m) = by_provided pv f m
  IsMet-grow c c' e e' d keep longer (by_installed h) = by_installed h
  IsMet-grow c c' e e' d keep longer (by_step s i f m) =
      by_step s (longer d.name i) (keep d.name s f) m

  pub InOrder-grow :
      (c c' : Map (InstallStep N)) (e ns : List Bytes)
      → Keeps c c'
      → InOrder c e ns
      → InOrder c' e ns
  InOrder-grow c c' e [] keep h = tt
  InOrder-grow c c' e (n ∷ ns) keep h = (
    record {
      step = h.0.step;
      found = keep n h.0.step h.0.found;
      met =
          All-map (IsMet c e) (IsMet c' e) (λ d m. IsMet-grow c c' e e d keep (λ k i. i) m)
            (spec_dependencies h.0.step.rockspec) h.0.met;
      once = h.0.once;
    },
    InOrder-grow c c' (e ++ n ∷ []) ns keep h.1,
  )

  pub InOrder-snoc :
      (c : Map (InstallStep N)) (e ns : List Bytes) (m : Bytes)
      → InOrder c e ns
      → IsStep c (e ++ ns) m
      → InOrder c e (ns ++ m ∷ [])
  InOrder-snoc c e [] m h s = (rw append-nil at s, tt)
  InOrder-snoc c e (n ∷ ns) m h s = (h.0, InOrder-snoc c (e ++ n ∷ []) ns m h.1 (rw append_assoc s))

  -- A name of the order has a choice.
  pub InOrder-found :
      (c : Map (InstallStep N)) (e ns : List Bytes) (k : Bytes)
      → InOrder c e ns
      → contains ns k ≡ true
      → (s : InstallStep N) × (lookup k c ≡ some s)
  unfolding contains
  InOrder-found c e [] k h i = cc
  InOrder-found c e (n ∷ ns) k h i = elim (Bool-cases (same n k)) [
    | inl p ↦ (h.0.step, rw (← (same_iff n k).0 p) h.0.found)
    | inr p ↦ InOrder-found c (e ++ n ∷ []) ns k h.1 (rw p at i)
  ]
