-- ===== src/Deps/Version/Dotted.antt =====
-- What ParseVersion of deps/version.go makes of a dotted numeric version with a revision.
use go_luarocks.Prelude.{
  ℕ, zero, suc, ◌<◌, ◌≤◌, ◌≡◌, refl, ◌∙◌, ap, sym, Bool, true, false, ◌||◌, some, List, [], ◌∷◌,
  ◌++◌, map, arith, Bytes, pos, is_digit, is_separator, has_newline, length, length-append,
  drop_while, take_while-append, drop_while-append, Stops, All, all, ok, atoi, max_int, decimal,
  all-decimal, atoi-decimal, length-decimal_pos, ◌==◌, append-nil, append_assoc, all_mono,
  all-append,
}
use go_luarocks.Types.{Version}
use go_luarocks.Deps.Float.{Float}
use go_luarocks.Deps.Version.{match_digits, parse_tokens, put_number}

-- "a.b.c" for the numbers a, b and c.
unfoldable pub dotted : List ℕ → Bytes
dotted [] = []
dotted (n ∷ []) = decimal n
dotted (n ∷ m ∷ ns) = decimal n ++ (b'.' ∷ dotted (m ∷ ns))

-- A byte of such a version.
abbrev pub is_dotted : ℕ → Bool
is_dotted c = is_digit c || (c == b'.')

pub all-dotted : (ns : List ℕ) → all is_dotted (dotted ns) ≡ true
unfolding dotted
all-dotted [] = refl
all-dotted (n ∷ []) = all_mono (decimal n) (λ c h. ground arith) (all-decimal n)
all-dotted (n ∷ m ∷ ns) =
    all-append is_dotted (decimal n) (b'.' ∷ dotted (m ∷ ns))
      (all_mono (decimal n) (λ c h. ground arith) (all-decimal n)) (all-dotted (m ∷ ns))

pub no_newline : (s : Bytes) → all is_dotted s ≡ true → has_newline s ≡ false
no_newline [] h = refl
no_newline (c ∷ s) h = ground (arith, no_newline s)

-- A text that begins with digits stops a scan for separators.
digits-Stops : (s t : Bytes) → all is_digit s ≡ true → 0 < length s → Stops is_separator (s ++ t)
digits-Stops [] t h k = absurd (omega arith)
digits-Stops (c ∷ s) t h k = ground arith

dotted-Stops : (n : ℕ) (ns : List ℕ) → Stops is_separator (dotted (n ∷ ns))
unfolding dotted
dotted-Stops n [] =
    rw (← append-nil (decimal n))
      (digits-Stops (decimal n) [] (all-decimal n) (length-decimal_pos n))
dotted-Stops n (m ∷ ns) =
    digits-Stops (decimal n) (b'.' ∷ dotted (m ∷ ns)) (all-decimal n) (length-decimal_pos n)

match_digits-append :
    (s t : Bytes)
    → all is_digit s ≡ true
    → 0 < length s
    → Stops is_digit t
    → has_newline (drop_while is_separator t) ≡ false
    → match_digits (s ++ t) ≡ some (s, drop_while is_separator t)
unfolding match_digits
match_digits-append s t h k stop clean =
    rw (take_while-append is_digit s t h stop, drop_while-append is_digit s t h stop, clean)
      (ground arith)

match_digits-last : (n : ℕ) → match_digits (decimal n) ≡ some (decimal n, [])
match_digits-last n =
    ap match_digits (sym (append-nil (decimal n)))
    ∙ match_digits-append (decimal n) [] (all-decimal n) (length-decimal_pos n) tt refl

drop_separator :
    (n : ℕ) (ns : List ℕ) → drop_while is_separator (b'.' ∷ dotted (n ∷ ns)) ≡ dotted (n ∷ ns)
drop_separator n ns =
    drop_while-append is_separator (b'.' ∷ []) (dotted (n ∷ ns)) refl (dotted-Stops n ns)

pub match_digits-dotted :
    (n m : ℕ) (ns : List ℕ)
    → match_digits (decimal n ++ (b'.' ∷ dotted (m ∷ ns))) ≡ some (decimal n, dotted (m ∷ ns))
match_digits-dotted n m ns =
    match_digits-append (decimal n) (b'.' ∷ dotted (m ∷ ns)) (all-decimal n) (length-decimal_pos n)
      refl (rw drop_separator (no_newline (dotted (m ∷ ns)) (all-dotted (m ∷ ns))))
    ∙ ap (λ t. some (decimal n, t)) (drop_separator m ns)

module _ {N : Type 0} ⦃fl : Float N⦄ where
  -- float64 of each number.
  abbrev pub numbers : List ℕ → List N
  numbers = map (λ n. fl.of_int (pos n))

  unfoldable pub with_components : Version N → List N → Version N
  with_components v cs = record v { components = cs }

  put_number-next :
      (cs : List N) (n : ℕ) → put_number cs (length cs) n ≡ cs ++ fl.of_int (pos n) ∷ []
  unfolding put_number
  put_number-next cs n = ground arith

  -- A token that is a number, at the slot behind the last component.
  parse_tokens-number :
      (fuel : ℕ) (s ds rest : Bytes) (n : ℕ) (v : Version N)
      → 0 < length s
      → match_digits s ≡ some (ds, rest)
      → atoi ds ≡ some n
      → parse_tokens (suc fuel) s (length v.components) v
        ≡ parse_tokens fuel rest
            (suc (length v.components))
            (with_components v (v.components ++ fl.of_int (pos n) ∷ []))
  unfolding parse_tokens with_components
  parse_tokens-number fuel [] ds rest n v k m a = absurd (omega arith)
  parse_tokens-number fuel (c ∷ s) ds rest n v k m a =
      rw (m, parse_tokens) (rw (a, parse_tokens) (rw (put_number-next v.components n) refl))

  pub parse_tokens-dotted :
      (fuel n : ℕ) (ns : List ℕ) (v : Version N)
      → All (λ k. k ≤ max_int) (n ∷ ns)
      → length ns < fuel
      → parse_tokens fuel (dotted (n ∷ ns)) (length v.components) v
        ≡ ok (with_components v (v.components ++ numbers (n ∷ ns)))
  unfolding dotted with_components
  parse_tokens-dotted zero n ns v b k = absurd (omega arith)
  parse_tokens-dotted (suc fuel) n [] v b k =
      parse_tokens-number fuel (decimal n) (decimal n) [] n v (length-decimal_pos n)
        (match_digits-last n) (atoi-decimal n b.0)
      ∙ (unfold parse_tokens in refl)
  parse_tokens-dotted (suc fuel) n (m ∷ ns) v b k =
      parse_tokens-number fuel (decimal n ++ (b'.' ∷ dotted (m ∷ ns))) (decimal n) (dotted (m ∷ ns))
        n v (omega (arith, length-append {0} (decimal n) (b'.' ∷ dotted (m ∷ ns))))
        (match_digits-dotted n m ns) (atoi-decimal n b.0)
      ∙ (ap
            (λ i.
              parse_tokens fuel (dotted (m ∷ ns)) i
                (with_components v (v.components ++ fl.of_int (pos n) ∷ [])))
            (omega (arith, length-append {0} v.components (fl.of_int (pos n) ∷ [])))
          ∙ parse_tokens-dotted fuel m ns
              (with_components v (v.components ++ fl.of_int (pos n) ∷ [])) b.1 (omega arith)
          ∙ ap (λ cs. ok (with_components v cs))
              (append_assoc v.components (fl.of_int (pos n) ∷ []) (numbers (m ∷ ns))))
