-- ===== src/Deps/Constraint/Interval.antt =====
-- The versions that constraints of deps/constraint.go accept form an interval.
use go_luarocks.Prelude.{◌⊎◌, inl, inr, ◌≡◌, refl, true, List, [], ◌∷◌, arith, All}
use go_luarocks.Types.{Version, VersionConstraint, Op, greater, less, greater_equal, less_equal}
use go_luarocks.Deps.Float.{Float}
use go_luarocks.Deps.Version.{compare}
use go_luarocks.Deps.Version.Order.{is_le, flip, compare-flip, compare_trans}
use go_luarocks.Deps.Constraint.{match_op, match_one, match_all}

-- The operators that ask for a version above a bound, and for one below it.
pub data IsLower : Op → Type 0 where
  above : IsLower greater
  at_least : IsLower greater_equal

pub data IsUpper : Op → Type 0 where
  below : IsUpper less
  at_most : IsUpper less_equal

module _ {N : Type 0} ⦃fl : Float N⦄ where
  abbrev pub IsRange : VersionConstraint N → Type 0
  IsRange c = IsLower c.op ⊎ IsUpper c.op

  match_op-raise :
      {o : Op}
      → IsLower o
      → (v w b : Version N) → v.has_revision ≡ true
      → w.has_revision ≡ true
      → is_le (compare v w) ≡ true
      → match_op o v b ≡ true
      → match_op o w b ≡ true
  unfolding match_op flip
  match_op-raise above v w b rv rw' h m =
      ground (arith, compare_trans v w b, compare-flip v b, compare-flip w b)
  match_op-raise at_least v w b rv rw' h m =
      ground (arith, compare_trans b v w, compare-flip v b, compare-flip w b)

  match_op-lower :
      {o : Op}
      → IsUpper o
      → (w u b : Version N) → w.has_revision ≡ true
      → u.has_revision ≡ true
      → is_le (compare w u) ≡ true
      → match_op o u b ≡ true
      → match_op o w b ≡ true
  unfolding match_op flip
  match_op-lower below w u b ru rw' h m =
      ground (arith, compare_trans b w u, compare-flip u b, compare-flip w b)
  match_op-lower at_most w u b ru rw' h m =
      ground (arith, compare_trans w u b, compare-flip u b, compare-flip w b)

  -- Of versions with revisions, one that lies between two that match constraints with the operators
  -- >, >=, < and <= matches them too.
  pub match_all-interval :
      (v w u : Version N) (cs : List (VersionConstraint N))
      → All IsRange cs
      → v.has_revision ≡ true
      → w.has_revision ≡ true
      → u.has_revision ≡ true
      → is_le (compare v w) ≡ true
      → is_le (compare w u) ≡ true
      → match_all v cs ≡ true
      → match_all u cs ≡ true
      → match_all w cs ≡ true
  unfolding match_all match_one
  match_all-interval v w u [] r rv rw' ru h g m n = refl
  match_all-interval v w u (c ∷ cs) (inl lower, r) rv rw' ru h g m n = ground (
    arith,
    match_op-raise lower v w c.version rv rw' h,
    match_all-interval v w u cs r rv rw' ru h g,
  )
  match_all-interval v w u (c ∷ cs) (inr upper, r) rv rw' ru h g m n = ground (
    arith,
    match_op-lower upper w u c.version rw' ru g,
    match_all-interval v w u cs r rv rw' ru h g,
  )
