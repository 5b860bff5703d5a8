-- ===== src/Deps/Resolver/Sound.antt =====
-- The walk of deps/resolver.go keeps its invariant, and what Resolve returns is in dependency order.
use go_luarocks.Prelude.{
  ℕ, zero, suc, ◌+◌, ◌≡◌, refl, true, false, Option, none, some, List, [], ◌∷◌, ◌++◌, arith, inl,
  inr, Bytes, same_iff, Map, lookup, insert, contains, remove, lookup-insert, lookup-insert_self,
  contains-append, remove-cons_self, Bool-cases, Option-cases, Result-cases, ap, ◌∙◌, subst, sym,
  ok,
}
use go_luarocks.Types.{Dep, VersionedRock, InstallStep, Rockspec}
use go_luarocks.Deps.Float.{Float}
use go_luarocks.Deps.Constraint.{match_all}
use go_luarocks.Deps.Resolver.{
  Resolver, Walk, Descend, installed_satisfies, spec_dependencies, step_of, enter, leave, find_rock,
  choose, visit_wanted, visit_checked, visit, walk_list, walk,
}
use go_luarocks.Deps.Resolver.Invariant.{
  Keeps, IsMet, by_provided, by_installed, by_step, IsStep, IsSound, After, IsMet-grow,
  InOrder-grow, InOrder-snoc, InOrder-found,
}
use go_luarocks.Deps.Resolver.Pick.{find_rock-match, find_rock-name, AnswersByName}

Keeps-insert :
    {N : Type 0} (name : Bytes) (s : InstallStep N) (c : Map (InstallStep N))
    → lookup name c ≡ none
    → Keeps c (insert name s c)
Keeps-insert name s c new k t h = ground (arith, lookup-insert name k s c, same_iff name k)

module _ {N : Type 0} ⦃fl : Float N⦄ (r : Resolver N) where
  pub enter-IsSound :
      (name : Bytes) (p : VersionedRock N) (w : Walk N)
      → p.name ≡ name
      → lookup name w.chosen ≡ none
      → IsSound r w
      → IsSound r (enter name p w)
  unfolding enter contains step_of
  enter-IsSound name p w called new h = record {
    ordered =
        InOrder-grow r w.chosen (insert name (step_of p) w.chosen) [] w.order
          (Keeps-insert name (step_of p) w.chosen new) h.ordered;
    known = λ k s f.
        ground (arith, lookup-insert name k (step_of p) w.chosen, same_iff name k, h.known k s);
    apart = λ k f. elim (Bool-cases (contains w.order k)) [
      | inr out ↦ out
      | inl there' ↦
          let (s, found) = InOrder-found r w.chosen [] w.order k h.ordered there' in
          ground (arith, same_iff name k, h.apart k)
    ];
    named = λ k s f.
        ground (arith, lookup-insert name k (step_of p) w.chosen, same_iff name k, h.named k s);
  }

  -- A walk over the dependencies of a rock that was entered leaves it met.
  module _ (d : Dep N) (p : VersionedRock N) (w w' : Walk N)
      (m : match_all p.version d.constraints ≡ true) (out : contains w.in_flight d.name ≡ false)
      (new : lookup d.name w.chosen ≡ none)
      (a : After r (spec_dependencies p.spec) (enter d.name p w) w') where
    flight_of_leave : remove d.name w'.in_flight ≡ w.in_flight
    unfolding enter
    flight_of_leave = rw a.same_flight (remove-cons_self d.name w.in_flight out)

    in_flight_inside : w'.in_flight ≡ d.name ∷ w.in_flight
    unfolding enter
    in_flight_inside = a.same_flight

    found_inside : lookup d.name w'.chosen ≡ some (step_of p)
    unfolding enter
    found_inside = a.keeps d.name (step_of p) (lookup-insert_self d.name (step_of p) w.chosen)

    leave-IsStep : IsStep r w'.chosen w'.order d.name
    unfolding step_of
    leave-IsStep = record {
      step = step_of p;
      found = found_inside;
      met = a.met;
      once =
          a.sound.apart d.name
            (rw in_flight_inside (unfold contains in ground (arith, same_iff d.name d.name)));
    }

    leave-IsSound : IsSound r (leave d.name w')
    unfolding leave contains
    leave-IsSound = record {
      ordered = InOrder-snoc r w'.chosen [] w'.order d.name a.sound.ordered leave-IsStep;
      known = λ k s f.
          rw (flight_of_leave, contains-append w'.order (d.name ∷ []) k)
            (ground (arith, a.sound.known k s f, ap (λ l. contains l k) in_flight_inside));
      apart = λ k f. rw (contains-append w'.order (d.name ∷ []) k) (
          let f' : contains w.in_flight k ≡ true = rw flight_of_leave at f in
          ground
            (arith, a.sound.apart k, ap (λ l. contains l k) in_flight_inside, same_iff d.name k));
      named = a.sound.named;
    }

    leave-After : After r (d ∷ []) w (leave d.name w')
    unfolding leave enter step_of contains
    leave-After = record {
      sound = leave-IsSound;
      keeps = λ k s f. a.keeps k s (Keeps-insert d.name (step_of p) w.chosen new k s f);
      longer = λ k i. ground (arith, contains-append w'.order (d.name ∷ []) k, a.longer k);
      same_flight = flight_of_leave;
      met = (
        by_step (step_of p)
            (ground (arith, contains-append w'.order (d.name ∷ []) d.name, same_iff d.name d.name))
            found_inside m,
        tt,
      );
    }

  After-nil : (w : Walk N) → IsSound r w → After r [] w w
  After-nil w h = record {
    sound = h;
    keeps = λ k s f. f;
    longer = λ k i. i;
    same_flight = refl;
    met = tt;
  }

  After-met :
      (d : Dep N) (w : Walk N) → IsSound r w → IsMet r w.chosen w.order d → After r (d ∷ []) w w
  After-met d w h m = record {
    sound = h;
    keeps = λ k s f. f;
    longer = λ k i. i;
    same_flight = refl;
    met = (m, tt);
  }

  After-cons :
      (d : Dep N) (ds : List (Dep N)) (w w' w'' : Walk N)
      → After r (d ∷ []) w w'
      → After r ds w' w''
      → After r (d ∷ ds) w w''
  After-cons d ds w w' w'' a b = record {
    sound = b.sound;
    keeps = λ k s f. b.keeps k s (a.keeps k s f);
    longer = λ k i. b.longer k (a.longer k i);
    same_flight = b.same_flight ∙ a.same_flight;
    met = (IsMet-grow r w'.chosen w''.chosen w'.order w''.order d b.keeps b.longer a.met.0, b.met);
  }

module _ {N : Type 0} ⦃fl : Float N⦄ (r : Resolver N) (rows_named : AnswersByName r) where
  -- What is asked of the walk over the dependencies of a chosen rock.
  abbrev pub IsCorrect : Descend N → Type 0
  IsCorrect descend =
      (parent : Bytes) (deps : List (Dep N)) (chain : List Bytes) (w w' : Walk N)
      → IsSound r w
      → descend parent deps chain w ≡ ok w'
      → After r deps w w'

  module _ (descend : Descend N) (correct : IsCorrect descend) (chain : List Bytes)
      (d : Dep N) where
    choose-After :
        (w w' : Walk N)
        → IsSound r w
        → contains w.in_flight d.name ≡ false
        → lookup d.name w.chosen ≡ none
        → choose descend r chain d w ≡ ok w'
        → After r (d ∷ []) w w'
    unfolding choose
    choose-After w w' h out new e = elim (Result-cases (find_rock r d)) [
      | inr (x, failed) ↦ absurd (ground arith)
      | inl (p, picked) ↦
          let m = find_rock-match r d p picked in
          let inside = enter-IsSound r d.name p w (find_rock-name r d p rows_named picked) new h in
          let met_by = λ (o : Option (Rockspec N)) (q : p.spec ≡ o) (v : Walk N).
            subst (λ x. After r (spec_dependencies x) (enter d.name p w) v) (sym q) in
          elim (Option-cases p.spec) [
            | inl bare ↦
                let q : leave d.name (enter d.name p w) ≡ w' = ground arith in
                rw (← q) (
                  leave-After r d p w (enter d.name p w) m out new (
                    met_by none bare (enter d.name p w)
                      (unfold spec_dependencies in After-nil r (enter d.name p w) inside)))
            | inr (spec, full) ↦
                elim (Result-cases
                  (descend d.name spec.dependencies (chain ++ d.name ∷ []) (enter d.name p w))) [
                    | inr (x, failed) ↦ absurd (ground arith)
                    | inl (v, done) ↦
                        let q : leave d.name v ≡ w' = ground arith in
                        rw (← q) (
                          leave-After r d p w v m out new (
                            met_by (some spec) full v (
                              unfold spec_dependencies in
                              correct d.name spec.dependencies (chain ++ d.name ∷ [])
                                (enter d.name p w) v inside done)))
                  ]
          ]
    ]

    visit_wanted-After :
        (w w' : Walk N)
        → IsSound r w
        → visit_wanted descend r chain d w ≡ ok w'
        → After r (d ∷ []) w w'
    unfolding visit_wanted
    visit_wanted-After w w' h e = elim (Bool-cases (contains w.in_flight d.name)) [
      | inl inside ↦ absurd (ground arith)
      | inr out ↦ elim (Option-cases (lookup d.name w.chosen)) [
        | inl new ↦ choose-After w w' h out new (ground arith)
        | inr (s, found) ↦
            let q : w ≡ w' = ground arith in
            rw (← q) (
              After-met r d w h (by_step s (ground (arith, h.known d.name s)) found (ground arith)))
      ]
    ]

    visit_checked-After :
        (w w' : Walk N)
        → IsSound r w
        → visit_checked descend r chain d w ≡ ok w'
        → After r (d ∷ []) w w'
    unfolding visit_checked
    visit_checked-After w w' h e = elim (Option-cases (lookup d.name r.provided)) [
      | inr (pv, found) ↦
          let q : w ≡ w' = ground arith in
          rw (← q) (After-met r d w h (by_provided pv found (ground arith)))
      | inl unprovided ↦ elim (Bool-cases (installed_satisfies r d)) [
        | inl present ↦
            let q : w ≡ w' = ground arith in rw (← q) (After-met r d w h (by_installed present))
        | inr absent ↦ visit_wanted-After w w' h (ground arith)
      ]
    ]

    looked : Walk N → Walk N
    looked w = record w { looks = w.looks + 1 }

    pub visit-After :
        (w w' : Walk N) → IsSound r w → visit descend r chain d w ≡ ok w' → After r (d ∷ []) w w'
    unfolding visit looked
    visit-After w w' h e = elim (Option-cases (r.context w.looks)) [
      | inr (x, ended) ↦ absurd (ground arith)
      | inl running ↦
          let a =
            visit_checked-After (looked w) w'
              (record { ordered = h.ordered; known = h.known; apart = h.apart; named = h.named })
              (ground arith) in
          record {
            sound = a.sound;
            keeps = a.keeps;
            longer = a.longer;
            same_flight = a.same_flight;
            met = a.met;
          }
    ]

  walk_list-After :
      (descend : Descend N) (correct : IsCorrect descend) (chain : List Bytes) (ds : List (Dep N))
      (w w' : Walk N)
      → IsSound r w
      → walk_list descend r chain ds w ≡ ok w'
      → After r ds w w'
  unfolding walk_list
  walk_list-After descend correct chain [] w w' h e =
      let q : w ≡ w' = cc in rw (← q) (After-nil r w h)
  walk_list-After descend correct chain (d ∷ ds) w w' h e =
      elim (Result-cases (visit descend r chain d w)) [
        | inr (x, failed) ↦ absurd (ground arith)
        | inl (v, done) ↦
            let a = visit-After descend correct chain d w v h done in
            After-cons r d ds w v w' a
              (walk_list-After descend correct chain ds v w' a.sound (ground arith))
      ]

  -- A walk that returns has met every dependency that it was given, in dependency order.
  pub walk-After : (fuel : ℕ) → IsCorrect (walk fuel r)
  unfolding walk
  walk-After zero parent deps chain w w' h e = cc
  walk-After (suc fuel) parent deps chain w w' h e =
      walk_list-After (walk fuel r) (walk-After fuel) chain deps w w' h e
