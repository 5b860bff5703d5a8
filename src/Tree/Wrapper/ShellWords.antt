-- ===== src/Tree/Wrapper/ShellWords.antt =====
-- What a POSIX shell makes of the launcher that binWrapperScript of tree/deploy.go writes.
use go_luarocks.Prelude.{
  ℕ, zero, suc, ◌≡◌, refl, ◌∙◌, ap, Bool, true, false, Option, none, some, List, [], ◌∷◌, ◌++◌,
  arith, Bytes, codes, if◌then◌else◌, ◌==◌, drop, length, any, append_assoc,
}
use go_luarocks.Tree.Layout.{BinWrap}
use go_luarocks.Tree.Wrapper.{shell_escape, shell_quote, lua_init, bin_wrapper_script}

abbrev pub add_byte : ℕ → Option (Bytes × Bytes) → Option (Bytes × Bytes)
add_byte c none = none
add_byte c (some (word, rest)) = some (c ∷ word, rest)

-- The characters that the shell does not take as they stand outside of quotes.
abbrev pub is_special : ℕ → Bool
is_special c = any (λ m. c == m) (codes "\"$`;&|<>()*?[]#~\n")

-- Where the reader stands.
pub data Quoting : Type 0 where
  bare single backslash : Quoting

-- One word of a command, with the quotes taken off, and the text from the blank behind it. What needs more
-- of the shell is no word here.
unfoldable pub shell_word : Quoting → Bytes → Option (Bytes × Bytes)
shell_word bare [] = some ([], [])
shell_word single [] = none
shell_word backslash [] = none
shell_word backslash (c ∷ s) = add_byte c (shell_word bare s)
shell_word single (c ∷ s) = elim (c == 39) [
  | true ↦ shell_word bare s
  | false ↦ add_byte c (shell_word single s)
]
shell_word bare (c ∷ s) = elim (c == 32) [
  | true ↦ some ([], c ∷ s)
  | false ↦ elim (c == 39) [
    | true ↦ shell_word single s
    | false ↦ elim (c == 92) [
      | true ↦ shell_word backslash s
      | false ↦ elim (is_special c) [ true ↦ none | false ↦ add_byte c (shell_word bare s) ]
    ]
  ]
]

abbrev pub add_word : Bytes → Option (List Bytes × Bytes) → Option (List Bytes × Bytes)
add_word w none = none
add_word w (some (ws, rest)) = some (w ∷ ws, rest)

abbrev pub after_blank : Bytes → Bytes
after_blank [] = []
after_blank (c ∷ s) = if c == 32 then s else c ∷ s

-- So many words of a command, each with a blank behind it.
unfoldable pub shell_words : ℕ → Bytes → Option (List Bytes × Bytes)
unfolding shell_word
shell_words zero s = some ([], s)
shell_words (suc n) s = elim (shell_word bare s) [
  | none ↦ none
  | some (w, rest) ↦ add_word w (shell_words n (after_blank rest))
]

shell_word-shell_escape :
    (s rest : Bytes) → shell_word single (shell_escape s ++ (39 ∷ 32 ∷ rest)) ≡ some (s, 32 ∷ rest)
unfolding shell_word shell_escape
shell_word-shell_escape [] rest = refl
shell_word-shell_escape (c ∷ s) rest = ground (arith, shell_word-shell_escape s rest)

-- A quoted text with a blank behind it is one word of the shell, and that word is the text.
pub shell_word-shell_quote :
    (s rest : Bytes) → shell_word bare (shell_quote s ++ (32 ∷ rest)) ≡ some (s, 32 ∷ rest)
unfolding shell_word shell_quote
shell_word-shell_quote s rest =
    ap (λ t. shell_word single t) (append_assoc (shell_escape s) (39 ∷ []) (32 ∷ rest))
    ∙ shell_word-shell_escape s rest

shell_words-suc :
    (n : ℕ) (w s rest : Bytes)
    → shell_word bare s ≡ some (w, 32 ∷ rest)
    → shell_words (suc n) s ≡ add_word w (shell_words n rest)
unfolding shell_words
shell_words-suc n w s rest h =
    ap
      (λ o. elim o [
        | none ↦ none
        | some (v, after) ↦ add_word v (shell_words n (after_blank after))
      ])
      h

shell_words-zero : (s : Bytes) → shell_words 0 s ≡ some ([], s)
unfolding shell_words
shell_words-zero s = refl

shell_word-assignment :
    (s rest : Bytes)
    → shell_word bare (codes "LUAROCKS_SYSCONFDIR=" ++ (shell_quote s ++ (32 ∷ rest)))
      ≡ some (codes "LUAROCKS_SYSCONFDIR=" ++ s, 32 ∷ rest)
shell_word-assignment s rest = unfold shell_word in rw (shell_word-shell_quote s rest) refl

shell_word-exec :
    (rest : Bytes) → shell_word bare (codes "exec " ++ rest) ≡ some (codes "exec", 32 ∷ rest)
unfolding shell_word
shell_word-exec rest = refl

shell_word-option :
    (rest : Bytes) → shell_word bare (codes "-e " ++ rest) ≡ some (codes "-e", 32 ∷ rest)
unfolding shell_word
shell_word-option rest = refl

-- An independent reader of POSIX shell words reads the launcher of binWrapperScript, behind its
-- first line, as the setting of LUAROCKS_SYSCONFDIR, exec, the interpreter, -e, the Lua text and
-- the script, each with exactly its bytes, and then the arguments of the caller.
pub shell_words-bin_wrapper_script :
    (root : Bytes) (wrap : BinWrap) (script name version : Bytes)
    → shell_words 6
        (drop (length (codes "#!/bin/sh\n\n")) (bin_wrapper_script root wrap script name version))
      ≡ some (
        (codes "LUAROCKS_SYSCONFDIR=" ++ wrap.sysconfdir)
            ∷ codes "exec"
            ∷ wrap.interpreter
            ∷ codes "-e"
            ∷ lua_init root name version
            ∷ script
            ∷ [],
        codes "\"$@\"\n",
      )
unfolding bin_wrapper_script
shell_words-bin_wrapper_script root wrap script name version =
    shell_words-suc 5 (codes "LUAROCKS_SYSCONFDIR=" ++ wrap.sysconfdir) _ _
      (shell_word-assignment wrap.sysconfdir _)
    ∙ ap (add_word (codes "LUAROCKS_SYSCONFDIR=" ++ wrap.sysconfdir)) (
        shell_words-suc 4 (codes "exec") _ _ (shell_word-exec _)
        ∙ ap (add_word (codes "exec")) (
            shell_words-suc 3 wrap.interpreter _ _ (shell_word-shell_quote wrap.interpreter _)
            ∙ ap (add_word wrap.interpreter) (
                shell_words-suc 2 (codes "-e") _ _ (shell_word-option _)
                ∙ ap (add_word (codes "-e")) (
                    shell_words-suc 1 (lua_init root name version) _ _
                      (shell_word-shell_quote (lua_init root name version) _)
                    ∙ ap (add_word (lua_init root name version)) (
                        shell_words-suc 0 script _ _ (shell_word-shell_quote script _)
                        ∙ ap (add_word script) (shell_words-zero _))))))
