-- ===== src/Remote/Index/FirstFound.antt =====
-- remote/index.go: which member of an OrderedIndex answers.
use go_luarocks.Prelude.{
  ◌≡◌, refl, Option, some, none, List, [], ◌∷◌, ◌++◌, Bytes, Result, ok, err, All, Result-cases,
  inl, inr, subst,
}
use go_luarocks.Remote.Index.Local.{ask_in_order, ordered_query}

-- A member that fails or has no rock of the name.
abbrev pub FindsNothing : {E R : Type 0} → Result E (List R) → Type 0
FindsNothing (err e) = Unit
FindsNothing (ok []) = Unit
FindsNothing (ok (x ∷ xs)) = ⊥

module _ {E R : Type 0} (name namespace : Bytes) where
  ask_in_order-first :
      (before : List (Bytes → Bytes → Result E (List R)))
      (index : Bytes → Bytes → Result E (List R)) (after : List (Bytes → Bytes → Result E (List R)))
      (rock : R) (rocks : List R) (failure : Option E)
      → All (λ member. FindsNothing (member name namespace)) before
      → index name namespace ≡ ok (rock ∷ rocks)
      → ask_in_order (before ++ index ∷ after) name namespace failure ≡ ok (rock ∷ rocks)
  unfolding ask_in_order
  ask_in_order-first [] index after rock rocks failure none_found found = rw found refl
  ask_in_order-first (member ∷ before) index after rock rocks failure none_found found =
      let later =
        λ (f : Option E). ask_in_order-first before index after rock rocks f none_found.1 found in
      elim (Result-cases (member name namespace)) [
        | inr (e, h) ↦ rw h (later (some e))
        | inl ([], h) ↦ rw h (later failure)
        | inl (x ∷ xs, h) ↦ absurd (subst (λ r. FindsNothing r) h none_found.0)
      ]

-- Where each member of an OrderedIndex in front of one fails or finds nothing, and that one finds
-- rocks, Query of the OrderedIndex gives these rocks, whatever the members behind it would answer.
pub ordered_query-first :
    {E R : Type 0} (name namespace : Bytes) (before : List (Bytes → Bytes → Result E (List R)))
    (index : Bytes → Bytes → Result E (List R)) (after : List (Bytes → Bytes → Result E (List R)))
    (rock : R) (rocks : List R)
    → All (λ member. FindsNothing (member name namespace)) before
    → index name namespace ≡ ok (rock ∷ rocks)
    → ordered_query (before ++ index ∷ after) name namespace ≡ ok (rock ∷ rocks)
unfolding ordered_query
ordered_query-first name namespace [] index after rock rocks none_found found =
    ask_in_order-first name namespace [] index after rock rocks none none_found found
ordered_query-first name namespace (member ∷ before) index after rock rocks none_found found =
    ask_in_order-first name namespace (member ∷ before) index after rock rocks none none_found found
