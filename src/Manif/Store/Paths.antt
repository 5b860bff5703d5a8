-- ===== src/Manif/Store/Paths.antt =====
-- manif/store.go: the tree that stringMapToNested builds, as what its paths hold.
use go_luarocks.Prelude.{
  ℕ, ◌≡◌, ◌↔◌, subst, &&-eq-true, refl, sym, ◌∙◌, ap, Bool, true, false, not, ◌&&◌, ◌||◌, Option,
  none, some, List, [], ◌∷◌, ◌++◌, arith, Bytes, same, same_iff, Map, lookup, if◌then◌else◌,
  Bool-cases, inl, inr, reverse, any, all, ◌==◌, ==_iff, append_assoc, append-nil,
}
use mathlib.Core.List.{reverse-append}
use go_luarocks.Files.FilePath.{slash}
use go_luarocks.Files.Strings.{split_from, split_byte, join_byte}
use go_luarocks.Manif.Value.{Value, Fields, str, object, no_fields, field, put_field}
use go_luarocks.Manif.Store.{get_field, fields_or_new, put_path, string_map_to_nested}

pub get_field-put_field :
    {N : Type 0} (k j : Bytes) (v : Value N) (fs : Fields N)
    → get_field j (put_field k v fs) ≡ (if same k j then some v else get_field j fs)
unfolding get_field put_field
get_field-put_field k j v no_fields = refl
get_field-put_field k j v (field i w fs) =
    ground (arith, same_iff k j, same_iff k i, same_iff i j, get_field-put_field k j v fs)

abbrev pub string_at : {N : Type 0} → Option (Value N) → Option Bytes
string_at (some (str s)) = some s
string_at v = none

-- The string at a path of a tree.
unfoldable pub find_path : {N : Type 0} → List Bytes → Fields N → Option Bytes
unfolding get_field
find_path [] fs = none
find_path (p ∷ []) fs = string_at (get_field p fs)
find_path (p ∷ q ∷ ps) fs = find_path (q ∷ ps) (fields_or_new (get_field p fs))

pub find_path-no_fields : (N : Type 0) (ps : List Bytes) → find_path {N = N} ps no_fields ≡ none
unfolding find_path get_field
find_path-no_fields N [] = refl
find_path-no_fields N (p ∷ []) = refl
find_path-no_fields N (p ∷ q ∷ ps) = find_path-no_fields N (q ∷ ps)

unfoldable pub same_path : List Bytes → List Bytes → Bool
unfolding same
same_path [] [] = true
same_path [] (q ∷ qs) = false
same_path (p ∷ ps) [] = false
same_path (p ∷ ps) (q ∷ qs) = same p q && same_path ps qs

-- One path begins with the other.
unfoldable pub nests : List Bytes → List Bytes → Bool
unfolding same
nests [] qs = true
nests (p ∷ ps) [] = true
nests (p ∷ ps) (q ∷ qs) = same p q && nests ps qs

-- A string put at a path is there, nothing is at the paths above and below it, and the rest is as before.
pub find_path-put_path :
    {N : Type 0} (p : Bytes) (ps : List Bytes) (q : Bytes) (qs : List Bytes) (s : Bytes)
    (fs : Fields N)
    → find_path (q ∷ qs) (put_path (p ∷ ps) s fs) ≡ (
        if same_path (p ∷ ps) (q ∷ qs)
        then some s
        else if nests (p ∷ ps) (q ∷ qs)
        then none
        else find_path (q ∷ qs) fs)
unfolding find_path put_path same_path nests
find_path-put_path p [] q [] s fs = rw (get_field-put_field p q (str s) fs) (ground arith)
find_path-put_path {N} p [] q (r ∷ qs) s fs =
    rw (get_field-put_field p q (str s) fs) (ground (arith, find_path-no_fields N (r ∷ qs)))
find_path-put_path p (o ∷ ps) q [] s fs =
    let below = put_path (o ∷ ps) s (fields_or_new (get_field p fs)) in
    rw (get_field-put_field p q (object below) fs) (ground arith)
find_path-put_path p (o ∷ ps) q (r ∷ qs) s fs =
    let below = put_path (o ∷ ps) s (fields_or_new (get_field p fs)) in
    rw (get_field-put_field p q (object below) fs) (elim (Bool-cases (same p q)) [
      | inl e ↦ rw e (
          find_path-put_path o ps r qs s (fields_or_new (get_field p fs))
          ∙ ap
              (λ x.
                if same_path (o ∷ ps) (r ∷ qs)
                then some s
                else if nests (o ∷ ps) (r ∷ qs)
                then none
                else find_path (r ∷ qs) (fields_or_new (get_field x fs)))
              ((same_iff p q).0 e))
      | inr n ↦ rw n refl
    ])

-- strings.Split gives one part at least, none with the byte in it, and they make up the text.
split_from-cons :
    (c : ℕ) (current s : Bytes)
    → (p : Bytes) × (ps : List Bytes) × (split_from c current s ≡ p ∷ ps)
unfolding split_from
split_from-cons c current [] = (_, _, refl)
split_from-cons c current (d ∷ s) = elim (Bool-cases (d == c)) [
  | inl e ↦ (reverse current, split_from c [] s, rw e refl)
  | inr n ↦ let (p, ps, e) = split_from-cons c (d ∷ current) s in (p, ps, rw n e)
]

any-append : (f : ℕ → Bool) (s t : Bytes) → any f (s ++ t) ≡ (any f s || any f t)
any-append f [] t = refl
any-append f (a ∷ s) t = ground (arith, any-append f s t)

abbrev pub lacks : ℕ → Bytes → Bool
lacks c p = not (any (λ d. d == c) p)

split_from-lacks :
    (c : ℕ) (current s : Bytes)
    → lacks c (reverse current) ≡ true
    → all (lacks c) (split_from c current s) ≡ true
unfolding split_from
split_from-lacks c current [] h = ground (arith, h)
split_from-lacks c current (d ∷ s) h = elim (Bool-cases (d == c)) [
  | inl e ↦ rw e (ground (arith, h, split_from-lacks c [] s refl))
  | inr n ↦ rw n (
      split_from-lacks c (d ∷ current) s (
        ap (lacks c) (reverse-append (d ∷ []) current)
        ∙ ground (arith, any-append (λ e. e == c) (reverse current) (d ∷ []))))
]

join-split_from :
    (c : ℕ) (current s : Bytes) → join_byte c (split_from c current s) ≡ reverse current ++ s
unfolding split_from join_byte
join-split_from c current [] = sym (append-nil (reverse current))
join-split_from c current (d ∷ s) = elim (Bool-cases (d == c)) [
  | inl e ↦
      let (p, ps, parts) = split_from-cons c [] s in
      rw (e, parts)
        (ap (λ t. reverse current ++ (c ∷ t))
            (ap (join_byte c) (sym parts) ∙ join-split_from c [] s)
          ∙ ap (λ a. reverse current ++ (a ∷ s)) (sym ((==_iff d c).0 e)))
  | inr n ↦ rw n (
      join-split_from c (d ∷ current) s
      ∙ ap (λ t. t ++ s) (reverse-append (d ∷ []) current)
      ∙ append_assoc (reverse current) (d ∷ []) s)
]

abbrev pub parts : Bytes → List Bytes
parts = split_byte slash

pub parts-cons : (s : Bytes) → (p : Bytes) × (ps : List Bytes) × (parts s ≡ p ∷ ps)
parts-cons s = split_from-cons slash [] s

pub parts-lacks : (s : Bytes) → all (lacks slash) (parts s) ≡ true
parts-lacks s = split_from-lacks slash [] s refl

pub join-parts : (s : Bytes) → join_byte slash (parts s) ≡ s
join-parts s = join-split_from slash [] s

same_path_iff : (ps qs : List Bytes) → (same_path ps qs ≡ true) ↔ (ps ≡ qs)
unfolding same_path
same_path_iff [] [] = (λ _. refl, λ _. refl)
same_path_iff [] (q ∷ qs) = (λ h. cc, λ h. cc)
same_path_iff (p ∷ ps) [] = (λ h. cc, λ h. cc)
same_path_iff (p ∷ ps) (q ∷ qs) = ground (arith, same_path_iff ps qs, same_iff p q)

same_path-parts : (j k : Bytes) → same_path (parts j) (parts k) ≡ same j k
same_path-parts j k = elim (Bool-cases (same j k)) [
  | inl e ↦ (same_path_iff (parts j) (parts k)).1 (ap parts ((same_iff j k).0 e)) ∙ sym e
  | inr n ↦ elim (Bool-cases (same_path (parts j) (parts k))) [
    | inl e ↦
        let equal : j ≡ k =
          sym (join-parts j)
          ∙ ap (join_byte slash) ((same_path_iff (parts j) (parts k)).0 e)
          ∙ join-parts k in
        absurd (ground (arith, equal, same_iff j k))
    | inr m ↦ m ∙ sym n
  ]
]

-- A path that begins with that of a key, or that one's with it.
unfoldable pub clashes : List Bytes → Map Bytes → Bool
unfolding nests split_from
clashes ps [] = false
clashes ps ((k, s) ∷ m) = nests ps (parts k) || clashes ps m

-- No key is a path below another's, and none comes twice.
unfoldable pub conflict_free : Map Bytes → Bool
unfolding clashes split_from
conflict_free [] = true
conflict_free ((k, s) ∷ m) = not (clashes (parts k) m) && conflict_free m

lookup-clashes :
    (ps : List Bytes) (k : Bytes) (m : Map Bytes)
    → nests ps (parts k) ≡ true
    → clashes ps m ≡ false
    → lookup k m ≡ none
unfolding lookup clashes
lookup-clashes ps k [] n h = refl
lookup-clashes ps k ((j, s) ∷ m) n h = elim (Bool-cases (same j k)) [
  | inl e ↦ absurd (ground (arith, h, n, ap (λ i. nests ps (parts i)) ((same_iff j k).0 e)))
  | inr o ↦ rw o (lookup-clashes ps k m n (ground arith))
]

-- The tree of a map without conflicts holds at each path what the map does.
pub find_path-string_map_to_nested :
    (N : Type 0) (m : Map Bytes) (k : Bytes)
    → conflict_free m ≡ true
    → find_path {N = N} (parts k) (string_map_to_nested m) ≡ lookup k m
unfolding string_map_to_nested conflict_free lookup
find_path-string_map_to_nested N [] k h = find_path-no_fields N (parts k)
find_path-string_map_to_nested N ((j, s) ∷ m) k h =
    let (p, ps, ej) = parts-cons j in
    let (q, qs, ek) = parts-cons k in
    let (clear, others) = &&-eq-true (not (clashes (parts j) m)) (conflict_free m) h in
    let put : find_path (parts k) (put_path (parts j) s (string_map_to_nested {N = N} m)) ≡ (
        if same_path (parts j) (parts k)
        then some s
        else if nests (parts j) (parts k)
        then none
        else find_path (parts k) (string_map_to_nested {N = N} m)) =
      subst
        (λ a. find_path (parts k) (put_path a s (string_map_to_nested {N = N} m)) ≡ (
          if same_path a (parts k)
          then some s
          else if nests a (parts k)
          then none
          else find_path (parts k) (string_map_to_nested {N = N} m)))
        (sym ej)
        (subst
          (λ b. find_path b (put_path (p ∷ ps) s (string_map_to_nested {N = N} m)) ≡ (
            if same_path (p ∷ ps) b
            then some s
            else if nests (p ∷ ps) b
            then none
            else find_path b (string_map_to_nested {N = N} m)))
          (sym ek) (find_path-put_path p ps q qs s (string_map_to_nested {N = N} m))) in
    ground (
      arith,
      put,
      same_path-parts j k,
      lookup-clashes (parts j) k m,
      clear,
      find_path-string_map_to_nested N m k others,
    )
