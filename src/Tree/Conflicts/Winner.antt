-- ===== src/Tree/Conflicts/Winner.antt =====
-- Which rock resolveSpot of tree/conflicts.go gives the plain path to.
use go_luarocks.Prelude.{
  ◌≡◌, refl, ap₂, true, false, not, [], ◌∷◌, arith, Bytes, same, same_iff, inl, inr, Result-cases,
  Ordering,
}
use go_luarocks.Deps.Float.{Float}
use go_luarocks.Types.{Version}
use go_luarocks.Deps.Version.{parse_version, compare}
use go_luarocks.Deps.Version.Order.{flip, compare-flip}
use go_luarocks.Manif.Value.{text_lt}
use go_luarocks.Tree.Conflicts.{version_greater, wins}

text_lt_asym : (s t : Bytes) → text_lt s t ≡ true → text_lt t s ≡ false
unfolding text_lt
text_lt_asym [] [] h = refl
text_lt_asym [] (b ∷ t) h = refl
text_lt_asym (a ∷ s) [] h = ground arith
text_lt_asym (a ∷ s) (b ∷ t) h = ground (arith, text_lt_asym s t)

text_lt_trans : (s t u : Bytes) → text_lt s t ≡ true → text_lt t u ≡ true → text_lt s u ≡ true
unfolding text_lt
text_lt_trans [] [] u h k = ground arith
text_lt_trans [] (b ∷ t) [] h k = ground arith
text_lt_trans [] (b ∷ t) (c ∷ u) h k = refl
text_lt_trans (a ∷ s) [] u h k = ground arith
text_lt_trans (a ∷ s) (b ∷ t) [] h k = ground arith
text_lt_trans (a ∷ s) (b ∷ t) (c ∷ u) h k = ground (arith, text_lt_trans s t u)

text_lt_connected : (s t : Bytes) → text_lt s t ≡ false → text_lt t s ≡ false → same s t ≡ true
unfolding text_lt same
text_lt_connected [] [] h k = refl
text_lt_connected [] (b ∷ t) h k = ground arith
text_lt_connected (a ∷ s) [] h k = ground arith
text_lt_connected (a ∷ s) (b ∷ t) h k = ground (arith, text_lt_connected s t)

module _ {N : Type 0} (fl : Float N) where
  greater_flip :
      (a b : Version N)
      → compare ⦃fl = fl⦄ a b ≡ Ordering.gt
      → compare ⦃fl = fl⦄ b a ≡ Ordering.gt
      → ⊥
  unfolding flip
  greater_flip a b h k = ground (arith, compare-flip ⦃fl = fl⦄ a b)

  version_greater_asym :
      (a b : Bytes) → version_greater fl a b ≡ true → version_greater fl b a ≡ false
  unfolding version_greater
  version_greater_asym a b h = elim (Result-cases (parse_version {N = N} ⦃fl = fl⦄ a)) [
    | inl (av, pa) ↦ elim (Result-cases (parse_version {N = N} ⦃fl = fl⦄ b)) [
      | inl (bv, pb) ↦ ground (arith, greater_flip av bv)
      | inr (e, pb) ↦ ground arith
    ]
    | inr (e, pa) ↦ ground arith
  ]

  -- Two rocks that each take the plain path from the other have the same name and version.
  pub wins_antisym : (a b : Bytes × Bytes) → wins fl a b ≡ true → wins fl b a ≡ true → a ≡ b
  unfolding wins
  wins_antisym a b h k =
      let names : a.0 ≡ b.0 =
        ground
          (arith, text_lt_asym a.0 b.0, text_lt_asym b.0 a.0, same_iff a.0 b.0, same_iff b.0 a.0) in
      let versions : a.1 ≡ b.1 = ground (
        arith,
        names,
        text_lt_asym a.0 b.0,
        version_greater_asym a.1 b.1,
        same_iff a.1 b.1,
        same_iff b.1 a.1,
      ) in
      ap₂ (λ n v. (n, v)) names versions

  -- Of two rocks with different names, exactly one takes the plain path from the other.
  wins_connected : (a b : Bytes × Bytes) → same a.0 b.0 ≡ false → wins fl b a ≡ not (wins fl a b)
  unfolding wins
  wins_connected a b n =
      ground
        (arith, text_lt_asym a.0 b.0, text_lt_connected a.0 b.0, same_iff a.0 b.0, same_iff b.0 a.0)
