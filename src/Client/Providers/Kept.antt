-- ===== src/Client/Providers/Kept.antt =====
-- What stays true of the lists of providers, whatever is installed and removed.
use go_luarocks.Prelude.{
  distinct, distinct-insert, ◌≡◌, refl, Bool, true, false, not, ◌&&◌, List, [], ◌∷◌, arith, Bytes,
  same, Map, lookup, insert, listed, keys, remove, contains, &&-eq-true,
}
use go_luarocks.Client.Providers.{upsert_provider, upsert_all, remove_provider}
use go_luarocks.Client.Providers.Index.{
  contains-remove, upsert_provider-active, remove_provider-cons, keep,
}

-- Each item has a provider, and no provider twice.
unfoldable pub well_listed : Map (List Bytes) → Bool
unfolding distinct
well_listed [] = true
well_listed ((i, []) ∷ index) = false
well_listed ((i, p ∷ list) ∷ index) = distinct (p ∷ list) && well_listed index

abbrev pub WellKept : Map (List Bytes) → Type 0
WellKept index = (distinct (keys index) ≡ true) × (well_listed index ≡ true)

contains-remove_le :
    (p q : Bytes) (list : List Bytes) → contains list q ≡ false → contains (remove p list) q ≡ false
unfolding contains remove
contains-remove_le p q [] h = refl
contains-remove_le p q (j ∷ list) h = ground (arith, contains-remove_le p q list)

distinct-remove :
    (p : Bytes) (list : List Bytes) → distinct list ≡ true → distinct (remove p list) ≡ true
unfolding distinct remove
distinct-remove p [] h = refl
distinct-remove p (j ∷ list) h = ground (arith, distinct-remove p list, contains-remove_le p j list)

distinct-upsert_provider :
    (list : List Bytes) (p : Bytes) → distinct list ≡ true → distinct (p ∷ remove p list) ≡ true
unfolding distinct
distinct-upsert_provider list p h = ground (arith, distinct-remove p list, contains-remove p list)

well_listed-listed :
    (item : Bytes) (index : Map (List Bytes))
    → well_listed index ≡ true
    → distinct (listed item index) ≡ true
unfolding well_listed lookup distinct
well_listed-listed item [] h = refl
well_listed-listed item ((i, []) ∷ index) h = ground arith
well_listed-listed item ((i, p ∷ list) ∷ index) h = ground (arith, well_listed-listed item index)

well_listed-insert :
    (item p : Bytes) (list : List Bytes) (index : Map (List Bytes))
    → well_listed index ≡ true
    → distinct (p ∷ list) ≡ true
    → well_listed (insert item (p ∷ list) index) ≡ true
unfolding well_listed insert
well_listed-insert item p list [] h k = ground arith
well_listed-insert item p list ((i, []) ∷ index) h k = ground arith
well_listed-insert item p list ((i, q ∷ l) ∷ index) h k =
    ground (arith, well_listed-insert item p list index)

-- Putting a provider in front of the lists of some items keeps them so.
pub upsert_all-WellKept :
    (items : List Bytes) (p : Bytes) (index : Map (List Bytes))
    → WellKept index
    → WellKept (upsert_all items p index)
unfolding upsert_all
upsert_all-WellKept [] p index h = h
upsert_all-WellKept (i ∷ items) p index (keys_distinct, well) =
    let list = listed i index in
    let front_distinct : distinct (p ∷ remove p list) ≡ true =
      distinct-upsert_provider list p (well_listed-listed i index well) in
    let kept : well_listed (insert i (upsert_provider list p true) index) ≡ true =
      rw (upsert_provider-active list p)
        (well_listed-insert i p (remove p list) index well front_distinct) in
    upsert_all-WellKept items p _
      (distinct-insert i (upsert_provider list p true) index keys_distinct, kept)

well_listed-keep :
    (i : Bytes) (out : List Bytes) (rest : Map (List Bytes))
    → distinct out ≡ true
    → well_listed rest ≡ true
    → well_listed (keep i out rest) ≡ true
unfolding well_listed
well_listed-keep i [] rest h k = k
well_listed-keep i (x ∷ out) rest h k = ground arith

contains-keys-keep :
    (i j : Bytes) (out : List Bytes) (rest : Map (List Bytes))
    → same i j ≡ false
    → contains (keys rest) j ≡ false
    → contains (keys (keep i out rest)) j ≡ false
unfolding contains
contains-keys-keep i j [] rest h k = k
contains-keys-keep i j (x ∷ out) rest h k = ground arith

contains-keys-remove_provider :
    (index : Map (List Bytes)) (p j : Bytes)
    → contains (keys index) j ≡ false
    → contains (keys (remove_provider index p)) j ≡ false
unfolding contains
contains-keys-remove_provider [] p j h = unfold remove_provider in h
contains-keys-remove_provider ((i, list) ∷ index) p j h = rw (remove_provider-cons i list index p) (
    contains-keys-keep i j (remove p list) (remove_provider index p) (ground arith)
      (contains-keys-remove_provider index p j (ground arith)))

distinct-keep :
    (i : Bytes) (out : List Bytes) (rest : Map (List Bytes))
    → contains (keys rest) i ≡ false
    → distinct (keys rest) ≡ true
    → distinct (keys (keep i out rest)) ≡ true
unfolding distinct
distinct-keep i [] rest h k = k
distinct-keep i (x ∷ out) rest h k = ground arith

-- So does taking a provider out of all the lists.
pub remove_provider-WellKept :
    (index : Map (List Bytes)) (p : Bytes) → WellKept index → WellKept (remove_provider index p)
unfolding distinct well_listed
remove_provider-WellKept [] p h = unfold remove_provider in h
remove_provider-WellKept ((i, []) ∷ index) p (keys_distinct, well) = absurd (ground arith)
remove_provider-WellKept ((i, q ∷ list) ∷ index) p (keys_distinct, well) =
    let (absent, others) =
      &&-eq-true (not (contains (keys index) i)) (distinct (keys index)) keys_distinct in
    let (list_distinct, rest_well) = &&-eq-true (distinct (q ∷ list)) (well_listed index) well in
    let (rest_distinct, rest_kept) = remove_provider-WellKept index p (others, rest_well) in
    let gone = contains-keys-remove_provider index p i (ground arith) in
    rw (remove_provider-cons i (q ∷ list) index p) (
      distinct-keep i (remove p (q ∷ list)) (remove_provider index p) gone rest_distinct,
      well_listed-keep i (remove p (q ∷ list)) (remove_provider index p)
          (distinct-remove p (q ∷ list) list_distinct) rest_kept,
    )
