-- ===== src/Client/Providers/Index.antt =====
-- The lists of providers under upsertProvider and removeProvider of client/client.go.
use go_luarocks.Prelude.{
  distinct, distinct-insert, lookup-absent, ◌≡◌, refl, ◌∙◌, ap, true, false, not, Option, none,
  some, List, [], ◌∷◌, ◌++◌, arith, Bytes, same, same_iff, Map, lookup, insert, lookup-insert,
  listed, keys, remove, remove-cons_self, contains, if◌then◌else◌, any, ◌==◌, &&-eq-true,
}
use go_luarocks.Files.FilePath.{slash}
use go_luarocks.Files.Strings.{cut_at}
use go_luarocks.Client.Providers.{upsert_provider, upsert_all, remove_provider}

abbrev pub if_any : List Bytes → Option (List Bytes)
if_any [] = none
if_any (x ∷ xs) = some (x ∷ xs)

pub contains-remove : (k : Bytes) (s : List Bytes) → contains (remove k s) k ≡ false
unfolding contains remove
contains-remove k [] = refl
contains-remove k (j ∷ s) = ground (arith, contains-remove k s)

pub remove_twice : (k : Bytes) (s : List Bytes) → remove k (k ∷ remove k s) ≡ remove k s
remove_twice k s = remove-cons_self k (remove k s) (contains-remove k s)

pub listed-insert :
    {A : Type 0} (k j : Bytes) (l : List A) (m : Map (List A))
    → listed j (insert k l m) ≡ (if same k j then l else listed j m)
listed-insert k j l m = ground (arith, lookup-insert k j l m)

pub upsert_provider-active :
    (list : List Bytes) (provider : Bytes)
    → upsert_provider list provider true ≡ provider ∷ remove provider list
unfolding upsert_provider
upsert_provider-active list provider = refl

lookup-cons :
    (i item : Bytes) (l : List Bytes) (m : Map (List Bytes))
    → lookup item ((i, l) ∷ m) ≡ (if same i item then some l else lookup item m)
unfolding lookup
lookup-cons i item l m = refl

listed-cons :
    (i item : Bytes) (l : List Bytes) (m : Map (List Bytes))
    → listed item ((i, l) ∷ m) ≡ (if same i item then l else listed item m)
listed-cons i item l m = ground (arith, lookup-cons i item l m)

-- A list kept in front of the rest, where any of it is left.
abbrev pub keep : Bytes → List Bytes → Map (List Bytes) → Map (List Bytes)
keep i [] rest = rest
keep i (x ∷ out) rest = (i, x ∷ out) ∷ rest

pub remove_provider-cons :
    (i : Bytes) (list : List Bytes) (index : Map (List Bytes)) (provider : Bytes)
    → remove_provider ((i, list) ∷ index) provider
      ≡ keep i (remove provider list) (remove_provider index provider)
unfolding remove_provider
remove_provider-cons i list index provider = go (remove provider list)
  where
    go :
        (out : List Bytes)
        → (elim out as (λ x. Map (List Bytes)) [
          | [] ↦ remove_provider index provider
          | x ∷ xs ↦ (i, x ∷ xs) ∷ remove_provider index provider
        ])
          ≡ keep i out (remove_provider index provider)
    go [] = refl
    go (x ∷ xs) = refl

lookup-keep :
    (i item : Bytes) (out : List Bytes) (rest : Map (List Bytes))
    → (same i item ≡ true → lookup item rest ≡ none)
    → lookup item (keep i out rest) ≡ (if same i item then if_any out else lookup item rest)
lookup-keep i item [] rest h = ground (arith, h)
lookup-keep i item (x ∷ out) rest h = lookup-cons i item (x ∷ out) rest

-- Where no item comes twice in an index, removeProvider leaves for each item the other providers
-- in their order, and drops the item where there is none.
pub lookup-remove_provider :
    (index : Map (List Bytes)) (provider item : Bytes)
    → distinct (keys index) ≡ true
    → lookup item (remove_provider index provider) ≡ if_any (remove provider (listed item index))
unfolding distinct remove
lookup-remove_provider [] provider item h = unfold remove_provider lookup in refl
lookup-remove_provider ((i, list) ∷ index) provider item h =
    let (absent, others) = &&-eq-true (not (contains (keys index) i)) (distinct (keys index)) h in
    let ih = lookup-remove_provider index provider item others in
    let alone : same i item ≡ true → listed item index ≡ [] =
      λ e. ground (arith, e, same_iff i item, lookup-absent item index) in
    ap (lookup item) (remove_provider-cons i list index provider)
    ∙ lookup-keep i item (remove provider list) (remove_provider index provider)
        (λ e. ih ∙ ap (λ l. if_any (remove provider l)) (alone e))
    ∙ ground (arith, ih, listed-cons i item list index)

pub listed-upsert_all :
    (items : List Bytes) (provider item : Bytes) (index : Map (List Bytes))
    → listed item (upsert_all items provider index) ≡ (
        if contains items item
        then provider ∷ remove provider (listed item index)
        else listed item index)
unfolding upsert_all contains
listed-upsert_all [] provider item index = refl
listed-upsert_all (i ∷ items) provider item index =
    let l : List Bytes = listed i index in
    let next : Map (List Bytes) = insert i (upsert_provider l provider true) index in
    ground (
      arith,
      listed-upsert_all items provider item next,
      listed-insert i item (upsert_provider l provider true) index,
      upsert_provider-active l provider,
      remove_twice provider l,
      same_iff i item,
    )

pub distinct-upsert_all :
    (items : List Bytes) (provider : Bytes) (index : Map (List Bytes))
    → distinct (keys index) ≡ true
    → distinct (keys (upsert_all items provider index)) ≡ true
unfolding upsert_all
distinct-upsert_all [] provider index h = h
distinct-upsert_all (i ∷ items) provider index h =
    distinct-upsert_all items provider _ (distinct-insert i _ index h)

-- The name before the first slash of a token is the rock's, where that holds none.
pub cut_at-token :
    (name version : Bytes)
    → any (λ c. c == slash) name ≡ false
    → cut_at slash (name ++ (slash ∷ version)) ≡ some (name, version)
unfolding cut_at
cut_at-token [] version h = refl
cut_at-token (c ∷ name) version h = ground (arith, cut_at-token name version)
