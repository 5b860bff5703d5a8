-- ===== src/Deps/ResolverTests.antt =====
-- Runs of deps/resolver.go over a small index, and the theorems at such runs.
use go_luarocks.Prelude.{
  ℕ, ◌≡◌, ◌≢◌, refl, true, false, none, some, List, [], ◌∷◌, arith, ℤ, pos, codes, ok, err, Bytes,
  Result, same, same_iff, All, if◌then◌else◌, lookup, insert, contains, remove, In, Ordering,
  Bool-cases, inl, inr,
}
use go_luarocks.Types.{Version, Dep, Rockspec, VersionedRock, InstallStep, greater_equal}
use go_luarocks.Deps.Version.{compare}
use go_luarocks.Deps.Version.Order.{is_le, compare-flip, compare_trans, equal→compare, flip}
use go_luarocks.Deps.Version
use go_luarocks.Deps.Constraint.{match_all}
use go_luarocks.Deps.Scaled.{scaled}
use go_luarocks.Deps.Resolver.{
  Resolver, resolve, walk, walk_list, visit, visit_checked, visit_wanted, choose, find_rock,
  preload, pick_newest, enter, leave, spec_dependencies, installed_satisfies, collect, out_of_fuel,
}
use go_luarocks.Deps.Resolver.Pick.{
  AnswersByName, pick_newest_best, pick_newest-All, find_rock_inversion,
}
use go_luarocks.Deps.Resolver.Ends.{IsClosed, AllIn, resolve-ne-out_of_fuel}
use go_luarocks.Deps.Resolver.InstallOrder.{IsInstallOrder, IsMetBy, resolve-IsInstallOrder}

-- n.m-r
abbrev version : ℕ → ℕ → ℕ → Version ℤ
version n m r = record {
  raw = [];
  components = scaled.of_int (pos n) ∷ scaled.of_int (pos m) ∷ [];
  revision = pos r;
  has_revision = true;
  is_scm = false;
  is_dev = false;
}

abbrev at_least : Bytes → ℕ → Dep ℤ
at_least name n = record {
  name = name;
  namespace = [];
  constraints = record { op = greater_equal; version = version n 0 1 } ∷ [];
}

abbrev spec_with : Bytes → List (Dep ℤ) → Rockspec ℤ
spec_with name deps = record {
  package_name = name;
  version = [];
  rockspec_format = [];
  description = record {
    summary = [];
    detailed = [];
    license = [];
    homepage = [];
    issues_url = [];
    maintainer = [];
    labels = [];
  };
  supported_platforms = [];
  dependencies = deps;
  build_dependencies = [];
  external_dependencies = [];
  test_dependencies = [];
  source = record {
    fields = record {
      url = [];
      tag = [];
      branch = [];
      md5 = [];
      file = [];
      dir = [];
      module_name = [];
      identifier = [];
    };
    platforms = [];
  };
  build = record {
    fields = record {
      type = [];
      modules = [];
      install = record { lua = []; lib = []; bin = []; conf = [] };
      copy_directories = [];
      variables = [];
      makefile = [];
      build_target = [];
      build_variables = [];
      install_target = [];
      install_variables = [];
      build_pass = none;
      install_pass = none;
      build_command = [];
      install_command = [];
    };
    platforms = [];
  };
  deploy = record { wrap_bin_scripts = none };
  has_build = false;
  raw_source = [];
  dependencies_platforms = [];
  build_dependencies_platforms = [];
  test_dependencies_platforms = [];
  external_dependencies_platforms = [];
}

abbrev rock : Bytes → ℕ → List (Dep ℤ) → VersionedRock ℤ
rock name n deps = record {
  name = name;
  version = version n 0 1;
  url = [];
  spec = some (spec_with name deps);
}

-- x 1 and x 2 need y; y 1 needs nothing.
abbrev index : Bytes → Bytes → Result Bytes (List (VersionedRock ℤ))
index name namespace =
    if same name (codes "x")
    then ok
        (rock name 1 (at_least (codes "y") 1 ∷ []) ∷ rock name 2 (at_least (codes "y") 1 ∷ []) ∷ [])
    else if same name (codes "y")
    then ok (rock name 1 [] ∷ [])
    else ok []

abbrev small : Resolver ℤ
small = record {
  query = index;
  fetch = none;
  provided = (codes "lua", version 5 1 1) ∷ [];
  installed = none;
  context = λ n. none;
}

abbrev root : Rockspec ℤ
root = spec_with (codes "r") (at_least (codes "lua") 5 ∷ at_least (codes "x") 1 ∷ [])

abbrev step : Bytes → ℕ → List (Dep ℤ) → InstallStep ℤ
step name n deps = record {
  name = name;
  version = version n 0 1;
  url = [];
  rockspec = some (spec_with name deps);
}

abbrev steps : List (InstallStep ℤ)
steps = step (codes "y") 1 [] ∷ step (codes "x") 2 (at_least (codes "y") 1 ∷ []) ∷ []

small_run : resolve 3 small (some root) ≡ ok steps
unfolding resolve walk walk_list visit visit_checked visit_wanted choose find_rock preload
    pick_newest enter leave collect installed_satisfies match_all compare lookup insert contains
    remove same
small_run = refl

-- What holds of the rows for x and for y holds of every answer of the index.
index-All :
    (P : Bytes → VersionedRock ℤ → Type 0)
    → All (P (codes "x")) (
        rock (codes "x") 1 (at_least (codes "y") 1 ∷ [])
        ∷ rock (codes "x") 2 (at_least (codes "y") 1 ∷ [])
        ∷ [])
    → All (P (codes "y")) (rock (codes "y") 1 [] ∷ [])
    → (name namespace : Bytes) (rows : List (VersionedRock ℤ)) → index name namespace ≡ ok rows
    → All (P name) rows
index-All P hx hy name namespace rows h = elim (Bool-cases (same name (codes "x"))) [
  | inl x ↦
      let e : rock (codes "x") 1 (at_least (codes "y") 1 ∷ [])
            ∷ rock (codes "x") 2 (at_least (codes "y") 1 ∷ [])
            ∷ []
          ≡ rows =
        ground (arith, same_iff name (codes "x")) in
      rw (← e, (same_iff name (codes "x")).0 x) hx
  | inr not_x ↦ elim (Bool-cases (same name (codes "y"))) [
    | inl y ↦
        let e : rock (codes "y") 1 [] ∷ [] ≡ rows = ground (arith, same_iff name (codes "y")) in
        rw (← e, (same_iff name (codes "y")).0 y) hy
    | inr not_y ↦ let e : [] ≡ rows = ground arith in rw (← e) tt
  ]
]

small-AnswersByName : AnswersByName small
small-AnswersByName = index-All (λ name row. row.name ≡ name) (refl, (refl, tt)) (refl, tt)

abbrev names : List Bytes
names = codes "lua" ∷ codes "x" ∷ codes "y" ∷ []

small-IsClosed : IsClosed small names
small-IsClosed d p h =
    let (rows, q, answer, picked, loaded) = find_rock_inversion small d p h in
    let e : q ≡ p = unfold preload in ground arith in
    rw (← e) (
      pick_newest-All (λ x. AllIn small names (spec_dependencies x.spec)) rows d.constraints q
        (index-All (λ name x. AllIn small names (spec_dependencies x.spec)) rows_x rows_y d.name
          d.namespace rows answer)
        picked)
  where
    rows_x :
        All
          (λ x. AllIn small names (spec_dependencies x.spec))
          (rock (codes "x") 1 (at_least (codes "y") 1 ∷ [])
            ∷ rock (codes "x") 2 (at_least (codes "y") 1 ∷ [])
            ∷ [])
    rows_x = unfold spec_dependencies contains same in ((refl, tt), ((refl, tt), tt))

    rows_y : All (λ x. AllIn small names (spec_dependencies x.spec)) (rock (codes "y") 1 [] ∷ [])
    rows_y = unfold spec_dependencies in (tt, tt)

resolve-IsInstallOrder_example :
    IsInstallOrder small [] steps × All (IsMetBy small steps) root.dependencies
resolve-IsInstallOrder_example =
    resolve-IsInstallOrder small 3 root steps small-AnswersByName small_run

resolve-ne-out_of_fuel_example : resolve 4 small (some root) ≢ err out_of_fuel
resolve-ne-out_of_fuel_example =
    resolve-ne-out_of_fuel small root names 4 small-AnswersByName small-IsClosed
      (unfold contains same in (refl, (refl, tt))) (omega arith)

abbrev candidates : List (VersionedRock ℤ)
candidates = rock (codes "x") 1 [] ∷ rock (codes "x") 3 [] ∷ rock (codes "x") 2 [] ∷ []

pick_newest_best_example :
    In (rock (codes "x") 3 []) candidates
    × (match_all (version 3 0 1) (record { op = greater_equal; version = version 2 0 1 } ∷ [])
        ≡ true)
    × All
        (λ y.
          match_all y.version (record { op = greater_equal; version = version 2 0 1 } ∷ []) ≡ true
          → is_le (compare y.version (version 3 0 1)) ≡ true)
        candidates
pick_newest_best_example =
    pick_newest_best true candidates (record { op = greater_equal; version = version 2 0 1 } ∷ [])
      (rock (codes "x") 3 []) (refl, (refl, (refl, tt)))
      (unfold pick_newest match_all compare in refl)

compare-flip_example :
    compare (version 1 9 2) (version 1 10 1) ≡ flip (compare (version 1 10 1) (version 1 9 2))
compare-flip_example = compare-flip (version 1 10 1) (version 1 9 2)

compare_trans_example : is_le (compare (version 1 2 3) (version 2 0 1)) ≡ true
compare_trans_example =
    compare_trans (version 1 2 3) (version 1 9 1) (version 2 0 1) (λ h. cc) (unfold compare in refl)
      (unfold compare in refl)

equal→compare_example : compare (version 1 2 3) (version 1 2 3) ≡ Ordering.eq
equal→compare_example = equal→compare (version 1 2 3) (version 1 2 3) (unfold Version.equal in refl)
