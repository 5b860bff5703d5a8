-- ===== src/Remote/Index/Picked.antt =====
-- remote/remote.go: which item pickMergedItem takes.
use go_luarocks.Prelude.{
  ◌≡◌, refl, ◌∙◌, ℕ, ◌≤◌, ◌⊎◌, List, [], ◌∷◌, some, arith, same, if◌then◌else◌, All, In, here,
  there, inl, inr,
}
use go_luarocks.Remote.Manifest.{arch_src, arch_rockspec}
use go_luarocks.Remote.Index.{MergedItem, repicked, pick_from, pick_merged_item}

-- A rock that is built comes before the sources, and these before the bare rockspec.
abbrev pub rank : MergedItem → ℕ
rank it = if same it.arch arch_src then 1 else if same it.arch arch_rockspec then 0 else 2

repicked-ranks :
    (pick it : MergedItem)
    → (rank pick ≤ rank (repicked pick it)) × (rank it ≤ rank (repicked pick it))
unfolding repicked
repicked-ranks pick it = ground arith

repicked-cases : (pick it : MergedItem) → (repicked pick it ≡ pick) ⊎ (repicked pick it ≡ it)
unfolding repicked
repicked-cases pick it = ground arith

-- The item is the one that stood there, and ranks as high as it and as all that follow.
pick_from-best :
    (pick : MergedItem) (items : List MergedItem)
    → ((pick_from pick items ≡ pick) ⊎ In (pick_from pick items) items)
      × (rank pick ≤ rank (pick_from pick items))
      × All (λ o. rank o ≤ rank (pick_from pick items)) items
unfolding pick_from
pick_from-best pick [] = (inl refl, omega arith, tt)
pick_from-best pick (it ∷ items) =
    let (at, least, rest) = pick_from-best (repicked pick it) items in
    let (from, to) = repicked-ranks pick it in
    (
      elim at [
        | inr i ↦ inr (there i)
        | inl e ↦ elim (repicked-cases pick it) [
          | inl stays ↦ inl (e ∙ stays)
          | inr takes ↦ inr (here (e ∙ takes))
        ]
      ],
      omega arith,
      (omega arith, rest),
    )

-- pickMergedItem takes one of the items, and none of them ranks above it, where a rock that is
-- built ranks above the sources and these above a bare rockspec.
pub pick_merged_item-best :
    (first : MergedItem) (items : List MergedItem)
    → (it : MergedItem) × (pick_merged_item (first ∷ items) ≡ some it)
      × In it (first ∷ items)
      × All (λ o. rank o ≤ rank it) (first ∷ items)
unfolding pick_merged_item
pick_merged_item-best first items =
    let (at, least, all) = pick_from-best first (first ∷ items) in
    (pick_from first (first ∷ items), refl, elim at [ inl e ↦ here e | inr i ↦ i ], all)
