-- ===== src/Build/Vars/References.antt =====
-- What substituteVars of build/vars.go makes of a reference.
use go_luarocks.Prelude.{
  ℕ, zero, suc, ◌≤◌, ◌≡◌, refl, sym, ◌∙◌, ap, true, false, not, none, some, [], ◌∷◌, ◌++◌, arith,
  Bytes, Map, lookup, length, length-append, length-drop_while-le, take_while, drop_while,
  take_while-append, drop_while-append, all, ◌==◌, Option-cases, inl, inr, &&-eq-true, append_assoc,
}
use go_luarocks.Build.Vars.{
  is_word, is_name, closed, reference, value_of, substitute, substitute_vars,
}

length-closed : (name n rest s : Bytes) → closed name s ≡ some (n, rest) → length rest ≤ length s
unfolding closed
length-closed name n rest [] h = ground arith
length-closed name n rest (c ∷ s) h = ground arith

length-reference :
    (c : ℕ) (s name rest : Bytes) → reference (c ∷ s) ≡ some (name, rest) → length rest ≤ length s
unfolding reference
length-reference c [] name rest h = ground arith
length-reference c (b ∷ s) name rest h = ground (
  arith,
  length-closed (take_while is_word s) name rest (drop_while is_word s),
  length-drop_while-le is_word s,
)

substitute-none :
    (n c : ℕ) (s : Bytes) (vars : Map Bytes)
    → reference (c ∷ s) ≡ none
    → substitute (suc n) vars (c ∷ s) ≡ c ∷ substitute n vars s
unfolding substitute
substitute-none n c s vars h =
    ap
      (λ o. elim o [
        | none ↦ c ∷ substitute n vars s
        | some (m, after) ↦ value_of vars m ++ substitute n vars after
      ])
      h

substitute-some :
    (n c : ℕ) (s name rest : Bytes) (vars : Map Bytes)
    → reference (c ∷ s) ≡ some (name, rest)
    → substitute (suc n) vars (c ∷ s) ≡ value_of vars name ++ substitute n vars rest
unfolding substitute
substitute-some n c s name rest vars h =
    ap
      (λ o. elim o [
        | none ↦ c ∷ substitute n vars s
        | some (m, after) ↦ value_of vars m ++ substitute n vars after
      ])
      h

-- Fuel for each byte is enough.
substitute-fuel :
    (n m : ℕ) (s : Bytes) (vars : Map Bytes)
    → length s ≤ n
    → length s ≤ m
    → substitute n vars s ≡ substitute m vars s
substitute-fuel zero zero s vars h k = refl
substitute-fuel zero (suc m) [] vars h k = unfold substitute in refl
substitute-fuel zero (suc m) (c ∷ s) vars h k = absurd (omega arith)
substitute-fuel (suc n) zero [] vars h k = unfold substitute in refl
substitute-fuel (suc n) zero (c ∷ s) vars h k = absurd (omega arith)
substitute-fuel (suc n) (suc m) [] vars h k = unfold substitute in refl
substitute-fuel (suc n) (suc m) (c ∷ s) vars h k = elim (Option-cases (reference (c ∷ s))) [
  | inl plain ↦
      substitute-none n c s vars plain
      ∙ ap (λ t. c ∷ t) (substitute-fuel n m s vars (omega arith) (omega arith))
      ∙ sym (substitute-none m c s vars plain)
  | inr (found, e) ↦
      let shorter = length-reference c s found.0 found.1 e in
      substitute-some n c s found.0 found.1 vars e
      ∙ ap (λ t. value_of vars found.0 ++ t)
          (substitute-fuel n m found.1 vars (omega (arith, shorter)) (omega (arith, shorter)))
      ∙ sym (substitute-some m c s found.0 found.1 vars e)
]

abbrev pub reference_to : Bytes → Bytes
reference_to name = b'$' ∷ b'(' ∷ (name ++ b')' ∷ [])

reference-reference_to :
    (name after : Bytes)
    → is_name name ≡ true
    → all is_word name ≡ true
    → reference (b'$' ∷ b'(' ∷ (name ++ (b')' ∷ after))) ≡ some (name, after)
unfolding reference closed
reference-reference_to name after h k =
    rw
      (
        take_while-append is_word name (b')' ∷ after) k refl,
        drop_while-append is_word name (b')' ∷ after) k refl,
      )
      (rw h refl)

reference-plain : (c : ℕ) (s : Bytes) → (c == b'$') ≡ false → reference (c ∷ s) ≡ none
unfolding reference
reference-plain c [] h = refl
reference-plain c (b ∷ s) h = rw h refl

substitute_vars-value_of :
    (before name after : Bytes) (vars : Map Bytes)
    → all (λ c. not (c == b'$')) before ≡ true
    → is_name name ≡ true
    → all is_word name ≡ true
    → substitute_vars (before ++ (reference_to name ++ after)) vars
      ≡ before ++ (value_of vars name ++ substitute_vars after vars)
unfolding substitute_vars
substitute_vars-value_of [] name after vars h k w =
    ap (λ t. substitute_vars (b'$' ∷ b'(' ∷ t) vars) (append_assoc name (b')' ∷ []) after)
    ∙ substitute-some (suc (length (name ++ (b')' ∷ after)))) b'$' (b'(' ∷ (name ++ (b')' ∷ after)))
        name after vars (reference-reference_to name after k w)
    ∙ ap (λ t. value_of vars name ++ t)
        (substitute-fuel (suc (length (name ++ (b')' ∷ after)))) (length after) after vars
          (omega (arith, length-append {0} name (b')' ∷ after))) (omega arith))
substitute_vars-value_of (c ∷ before) name after vars h k w =
    let (plain, others) = &&-eq-true (not (c == b'$')) (all (λ e. not (e == b'$')) before) h in
    substitute-none _ c _ vars (reference-plain c _ (ground arith))
    ∙ ap (λ t. c ∷ t) (substitute_vars-value_of before name after vars others k w)

-- In a text whose beginning holds no dollar sign, substituteVars keeps the beginning, puts the
-- value that the variables have for the name, or nothing where they have none, in the place of the
-- reference $(NAME) that follows, and goes on behind it, where the name is a letter and then
-- letters, digits and underscores.
pub substitute_vars-reference_to :
    (before name after : Bytes) (vars : Map Bytes)
    → all (λ c. not (c == b'$')) before ≡ true
    → is_name name ≡ true
    → all is_word name ≡ true
    → substitute_vars (before ++ (reference_to name ++ after)) vars
      ≡ before ++ (elim (lookup name vars) [ none ↦ [] | some v ↦ v ] ++ substitute_vars after vars)
unfolding value_of
substitute_vars-reference_to before name after vars h k w =
    substitute_vars-value_of before name after vars h k w
