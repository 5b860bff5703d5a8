-- ===== src/Deps/Version/Order.antt =====
-- The order that Compare of deps/version.go puts on versions.
use go_luarocks.Prelude.{◌≡◌, refl, Bool, true, false, ◌&&◌, List, [], ◌∷◌, arith, Ordering}
use go_luarocks.Types.{Version}
use go_luarocks.Deps.Float.{Float, zero_float}
use go_luarocks.Deps.Version.{
  compare_step, compare_components, compare_revisions, compare, equal, components_equal,
}

unfoldable pub flip : Ordering → Ordering
flip Ordering.lt = Ordering.gt
flip Ordering.eq = Ordering.eq
flip Ordering.gt = Ordering.lt

abbrev pub is_le : Ordering → Bool
is_le Ordering.gt = false
is_le _ = true

module _ {N : Type 0} ⦃fl : Float N⦄ where
  compare_step-flip :
      (a b : N) (r r' : Ordering) → r' ≡ flip r → compare_step b a r' ≡ flip (compare_step a b r)
  unfolding compare_step flip
  compare_step-flip a b r r' h =
      grind (
        arith,
        fl.beq_iff a b,
        fl.beq_iff b a,
        fl.blt_irrefl a,
        fl.blt_trans a b a,
        fl.blt_total a b,
      )

  compare_components-flip :
      (as' bs : List N) → compare_components bs as' ≡ flip (compare_components as' bs)
  unfolding compare_components
  compare_components-flip [] [] = unfold flip in refl
  compare_components-flip [] (b ∷ bs) =
      compare_step-flip zero_float b _ _ (compare_components-flip [] bs)
  compare_components-flip (a ∷ as') [] =
      compare_step-flip a zero_float _ _ (compare_components-flip as' [])
  compare_components-flip (a ∷ as') (b ∷ bs) =
      compare_step-flip a b _ _ (compare_components-flip as' bs)

  compare_revisions-flip : (a b : Version N) → compare_revisions b a ≡ flip (compare_revisions a b)
  unfolding compare_revisions flip
  compare_revisions-flip a b = ground arith

  -- Comparing two versions in the other order gives the opposite answer.
  pub compare-flip : (a b : Version N) → compare b a ≡ flip (compare a b)
  unfolding compare flip
  compare-flip a b =
      ground (arith, compare_components-flip a.components b.components, compare_revisions-flip a b)

  compare_step_trans :
      (a b c : N) (r s t : Ordering)
      → (is_le r ≡ true → is_le s ≡ true → is_le t ≡ true)
      → is_le (compare_step a b r) ≡ true
      → is_le (compare_step b c s) ≡ true
      → is_le (compare_step a c t) ≡ true
  unfolding compare_step
  compare_step_trans a b c r s t k h g =
      ground
        (arith, fl.beq_iff a b, fl.beq_iff b c, fl.beq_iff a c, fl.blt_trans a b c, fl.blt_irrefl a)

  compare_components_trans :
      (as' bs cs : List N)
      → is_le (compare_components as' bs) ≡ true
      → is_le (compare_components bs cs) ≡ true
      → is_le (compare_components as' cs) ≡ true
  unfolding compare_components
  compare_components_trans [] [] [] h g = refl
  compare_components_trans [] [] (c ∷ cs) h g = g
  compare_components_trans [] (b ∷ bs) [] h g = refl
  compare_components_trans [] (b ∷ bs) (c ∷ cs) h g =
      compare_step_trans zero_float b c _ _ _ (compare_components_trans [] bs cs) h g
  compare_components_trans (a ∷ as') [] [] h g = h
  compare_components_trans (a ∷ as') [] (c ∷ cs) h g =
      compare_step_trans a zero_float c _ _ _ (compare_components_trans as' [] cs) h g
  compare_components_trans (a ∷ as') (b ∷ bs) [] h g =
      compare_step_trans a b zero_float _ _ _ (compare_components_trans as' bs []) h g
  compare_components_trans (a ∷ as') (b ∷ bs) (c ∷ cs) h g =
      compare_step_trans a b c _ _ _ (compare_components_trans as' bs cs) h g

  compare_revisions_trans :
      (a b c : Version N)
      → (b.has_revision ≡ false → (a.has_revision && c.has_revision) ≡ false)
      → is_le (compare_revisions a b) ≡ true
      → is_le (compare_revisions b c) ≡ true
      → is_le (compare_revisions a c) ≡ true
  unfolding compare_revisions
  compare_revisions_trans a b c u h g = ground arith

  -- Component lists that do not differ on a round trip do not differ on either way.
  compare_components_tie :
      (as' bs cs : List N)
      → is_le (compare_components as' bs) ≡ true
      → is_le (compare_components bs cs) ≡ true
      → compare_components as' cs ≡ Ordering.eq
      → (compare_components as' bs ≡ Ordering.eq) × (compare_components bs cs ≡ Ordering.eq)
  unfolding flip
  compare_components_tie as' bs cs h g e = ground (
    arith,
    compare_components-flip as' bs,
    compare_components-flip bs cs,
    compare_components-flip as' cs,
    compare_components_trans bs cs as',
    compare_components_trans cs as' bs,
  )

  -- `Compare(a, b) <= 0` is transitive, unless `b` alone carries no revision.
  pub compare_trans :
      (a b c : Version N)
      → (b.has_revision ≡ false → (a.has_revision && c.has_revision) ≡ false)
      → is_le (compare a b) ≡ true
      → is_le (compare b c) ≡ true
      → is_le (compare a c) ≡ true
  unfolding compare
  compare_trans a b c u h g = ground (
    arith,
    compare_components_trans a.components b.components c.components,
    compare_components_tie a.components b.components c.components,
    compare_revisions_trans a b c u,
  )

  pub compare_components_self : (as' : List N) → compare_components as' as' ≡ Ordering.eq
  unfolding compare_components compare_step
  compare_components_self [] = refl
  compare_components_self (a ∷ as') = ground (arith, fl.beq_iff a a, compare_components_self as')

  components_equal→compare :
      (as' bs : List N) → components_equal as' bs ≡ true → compare_components as' bs ≡ Ordering.eq
  unfolding components_equal compare_components compare_step
  components_equal→compare [] [] h = refl
  components_equal→compare [] (b ∷ bs) h = cc
  components_equal→compare (a ∷ as') [] h = cc
  components_equal→compare (a ∷ as') (b ∷ bs) h = ground (arith, components_equal→compare as' bs)

  -- Versions that `Equal` identifies tie under `Compare`.
  pub equal→compare : (a b : Version N) → equal a b ≡ true → compare a b ≡ Ordering.eq
  unfolding equal compare compare_revisions
  equal→compare a b h = ground (arith, components_equal→compare a.components b.components)
