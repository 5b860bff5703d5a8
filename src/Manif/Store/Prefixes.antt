-- ===== src/Manif/Store/Prefixes.antt =====
-- manif/store.go: the texts of paths that flattenNested makes; which of them lie below which.
use go_luarocks.Prelude.{
  ℕ, ◌≡◌, refl, sym, ◌∙◌, ap, ap₂, Bool, true, false, ◌||◌, List, [], ◌∷◌, ◌++◌, arith, Bytes, same,
  same_iff, Bool-cases, inl, inr, append_assoc,
}
use go_luarocks.Files.FilePath.{slash}
use go_luarocks.Files.Strings.{has_prefix, join_byte}
use go_luarocks.Manif.Value.{text_lt}
use go_luarocks.Manif.Store.{has_none}
use go_luarocks.Manif.Store.Decode.{below_prefix}
use go_luarocks.Manif.Store.Paths.{lacks}
use go_luarocks.Manif.Store.Branches.{is_part}

has_prefix-append : (s t : Bytes) → has_prefix (s ++ t) s ≡ true
unfolding has_prefix
has_prefix-append [] t = refl
has_prefix-append (a ∷ s) t = ground (arith, has_prefix-append s t)

-- A longer prefix begins with the shorter one.
has_prefix-shorter : (s p q : Bytes) → has_prefix s p ≡ false → has_prefix s (p ++ q) ≡ false
unfolding has_prefix
has_prefix-shorter s [] q h = ground (arith, h)
has_prefix-shorter [] (a ∷ p) q h = refl
has_prefix-shorter (b ∷ s) (a ∷ p) q h = ground (arith, has_prefix-shorter s p q)

has_prefix-cancel : (a s p : Bytes) → has_prefix (a ++ s) (a ++ p) ≡ has_prefix s p
unfolding has_prefix
has_prefix-cancel [] s p = refl
has_prefix-cancel (b ∷ a) s p = ground (arith, has_prefix-cancel a s p)

same-cancel : (a s t : Bytes) → same (a ++ s) (a ++ t) ≡ same s t
unfolding same
same-cancel [] s t = refl
same-cancel (b ∷ a) s t = ground (arith, same-cancel a s t)

pub has_prefix-longer : (s t : Bytes) (c : ℕ) → has_prefix s (s ++ (c ∷ t)) ≡ false
unfolding has_prefix
has_prefix-longer [] t c = refl
has_prefix-longer (a ∷ s) t c = ground (arith, has_prefix-longer s t c)

pub same-longer : (s t : Bytes) (c : ℕ) → same s (s ++ (c ∷ t)) ≡ false
unfolding same
same-longer [] t c = refl
same-longer (a ∷ s) t c = ground (arith, same-longer s t c)

-- Names without a slash.
lacks-has_prefix : (r j : Bytes) → lacks slash r ≡ true → has_prefix r (j ++ (slash ∷ [])) ≡ false
unfolding has_prefix
lacks-has_prefix [] [] h = refl
lacks-has_prefix [] (b ∷ j) h = refl
lacks-has_prefix (a ∷ r) [] h = ground (arith, h)
lacks-has_prefix (a ∷ r) (b ∷ j) h = ground (arith, lacks-has_prefix r j)

lacks-same : (r j t : Bytes) → lacks slash j ≡ true → same (r ++ (slash ∷ t)) j ≡ false
unfolding same
lacks-same [] [] t h = refl
lacks-same [] (b ∷ j) t h = ground (arith, h)
lacks-same (a ∷ r) [] t h = refl
lacks-same (a ∷ r) (b ∷ j) t h = ground (arith, lacks-same r j t)

lacks-has_prefix-slash :
    (r j t : Bytes)
    → lacks slash r ≡ true
    → lacks slash j ≡ true
    → has_prefix (r ++ (slash ∷ t)) (j ++ (slash ∷ [])) ≡ same j r
unfolding has_prefix same
lacks-has_prefix-slash [] [] t h k = refl
lacks-has_prefix-slash [] (b ∷ j) t h k = ground (arith, k)
lacks-has_prefix-slash (a ∷ r) [] t h k = ground (arith, h)
lacks-has_prefix-slash (a ∷ r) (b ∷ j) t h k = ground (arith, lacks-has_prefix-slash r j t)

-- The path itself or one below it.
abbrev pub at_or_below : Bytes → Bytes → Bool
at_or_below full k = same full k || has_prefix k (full ++ (slash ∷ []))

pub below_prefix-cancel :
    (prefix j z : Bytes)
    → at_or_below (below_prefix prefix j) (below_prefix prefix z) ≡ at_or_below j z
unfolding below_prefix
below_prefix-cancel [] j z = refl
below_prefix-cancel (c ∷ p) j z =
    let a = c ∷ (p ++ (slash ∷ [])) in
    let form : (t : Bytes) → (c ∷ p) ++ (slash ∷ t) ≡ a ++ t =
      λ t. sym (append_assoc (c ∷ p) (slash ∷ []) t) in
    ap₂ at_or_below (form j) (form z)
    ∙ ap₂ (λ s t. s || t) (same-cancel a j z)
        (ap (has_prefix (a ++ z)) (append_assoc a j (slash ∷ []))
          ∙ has_prefix-cancel a z (j ++ (slash ∷ [])))

pub other_name :
    (j r : Bytes) (rs : List Bytes)
    → lacks slash j ≡ true
    → lacks slash r ≡ true
    → same j r ≡ false
    → at_or_below j (join_byte slash (r ∷ rs)) ≡ false
unfolding join_byte
other_name j r [] hj hr n = ground (arith, lacks-has_prefix r j hr)
other_name j r (q ∷ qs) hj hr n = ground (
  arith,
  lacks-has_prefix-slash r j (join_byte slash (q ∷ qs)) hr hj,
  lacks-same r j (join_byte slash (q ∷ qs)) hj,
  same_iff j (r ++ (slash ∷ join_byte slash (q ∷ qs))),
  same_iff (r ++ (slash ∷ join_byte slash (q ∷ qs))) j,
)

pub text_lt_irrefl : (s : Bytes) → text_lt s s ≡ false
unfolding text_lt
text_lt_irrefl [] = refl
text_lt_irrefl (a ∷ s) = ground (arith, text_lt_irrefl s)

pub part_nonempty : (p : Bytes) → is_part p ≡ true → has_none p ≡ false
part_nonempty p h = ground arith

pub part_lacks : (p : Bytes) → is_part p ≡ true → lacks slash p ≡ true
part_lacks p h = ground arith

other_text : (a j k : Bytes) → has_prefix k a ≡ false → same (a ++ j) k ≡ false
other_text a j k h = elim (Bool-cases (same (a ++ j) k)) [
  | inl e ↦
      let prefixed = ap (λ x. has_prefix x a) ((same_iff (a ++ j) k).0 e) in
      absurd (ground (arith, h, prefixed, has_prefix-append a j))
  | inr n ↦ n
]

pub outside_below :
    (prefix j k : Bytes)
    → has_none prefix ≡ false
    → has_prefix k (prefix ++ (slash ∷ [])) ≡ false
    → at_or_below (below_prefix prefix j) k ≡ false
unfolding below_prefix
outside_below prefix j k e h =
    let form : prefix ++ (slash ∷ j) ≡ (prefix ++ (slash ∷ [])) ++ j =
      sym (append_assoc prefix (slash ∷ []) j) in
    let full : below_prefix prefix j ≡ (prefix ++ (slash ∷ [])) ++ j = rw e form in
    let a = prefix ++ (slash ∷ []) in
    ap (λ f. at_or_below f k) full
    ∙ ap₂ (λ s t. s || t) (other_text a j k h)
        (ap (has_prefix k) (append_assoc a j (slash ∷ []))
          ∙ has_prefix-shorter k a (j ++ (slash ∷ [])) h)

-- The path of an entry of a directory, and what is below it.
abbrev pub path_below : Bytes → List Bytes → Bytes
path_below full [] = full
path_below full (q ∷ qs) = below_prefix full (join_byte slash (q ∷ qs))

pub below_prefix-join :
    (prefix j : Bytes) (rs : List Bytes)
    → has_none j ≡ false
    → below_prefix prefix (join_byte slash (j ∷ rs)) ≡ path_below (below_prefix prefix j) rs
unfolding below_prefix join_byte
below_prefix-join prefix j [] h = refl
below_prefix-join [] j (q ∷ qs) h = rw h refl
below_prefix-join (c ∷ p) j (q ∷ qs) h =
    sym (append_assoc (c ∷ p) (slash ∷ j) (slash ∷ join_byte slash (q ∷ qs)))

pub below_prefix-nonempty :
    (prefix j : Bytes) → has_none j ≡ false → has_none (below_prefix prefix j) ≡ false
unfolding below_prefix
below_prefix-nonempty [] j h = h
below_prefix-nonempty (c ∷ p) j h = refl
