-- ===== src/Build/Vars.antt =====
-- build/vars.go, and the variables of build/make.go.
pub mod References
use go_luarocks.Prelude.{
  ℕ, zero, suc, Bool, true, false, ◌||◌, ◌&&◌, Option, none, some, List, [], ◌∷◌, ◌++◌, Bytes,
  codes, same, Map, lookup, insert, copy_into, if◌then◌else◌, length, take_while, drop_while, map,
  ◌==◌, is_alpha, is_digit, delete,
}
use go_luarocks.Files.FilePath.{join₂}
use go_luarocks.Tree.Layout.{install_dir}
use go_luarocks.Build.Flags.{TarantoolConfig, Toolchain, Flags, derive_flags_for}

abbrev pub is_word : ℕ → Bool
is_word c = is_alpha c || (is_digit c || (c == b'_'))

abbrev pub is_name : Bytes → Bool
is_name [] = false
is_name (c ∷ s) = is_alpha c

-- What is behind the closing parenthesis of a reference.
unfoldable pub closed : Bytes → Bytes → Option (Bytes × Bytes)
closed name [] = none
closed name (c ∷ rest) = if (c == b')') && is_name name then some (name, rest) else none

-- A match of varRefRe at the beginning of a text: the name, and the text behind.
unfoldable pub reference : Bytes → Option (Bytes × Bytes)
unfolding closed
reference [] = none
reference (a ∷ []) = none
reference (a ∷ b ∷ s) =
    if (a == b'$') && (b == b'(')
    then closed (take_while is_word s) (drop_while is_word s)
    else none

-- vars[name], where a missing name reads as the empty text.
unfoldable pub value_of : Map Bytes → Bytes → Bytes
unfolding lookup
value_of vars name = elim (lookup name vars) [ none ↦ [] | some v ↦ v ]

-- The rounds of substituteVars. Each takes a byte at least.
unfoldable pub substitute : ℕ → Map Bytes → Bytes → Bytes
unfolding reference value_of
substitute zero vars s = s
substitute (suc fuel) vars [] = []
substitute (suc fuel) vars (c ∷ s) = elim (reference (c ∷ s)) [
  | none ↦ c ∷ substitute fuel vars s
  | some (name, rest) ↦ value_of vars name ++ substitute fuel vars rest
]

-- substituteVars
unfoldable pub substitute_vars : Bytes → Map Bytes → Bytes
unfolding substitute
substitute_vars s vars = substitute (length s) vars s

-- substituteVarsSlice
unfoldable pub substitute_vars_slice : List Bytes → Map Bytes → List Bytes
unfolding substitute_vars
substitute_vars_slice list vars = map (λ s. substitute_vars s vars) list

-- strings.Join with a blank
unfoldable pub join_words : List Bytes → Bytes
join_words [] = []
join_words (w ∷ []) = w
join_words (w ∷ v ∷ ws) = w ++ 32 ∷ join_words (v ∷ ws)

abbrev pub tool_vars : Flags → TarantoolConfig → Map Bytes
tool_vars f cfg =
    (codes "LUA_INCDIR", cfg.include_dir)
    ∷ (codes "LUA_LIBDIR", f.lua_lib_dir)
    ∷ (codes "LUA_BINDIR", f.lua_bin_dir)
    ∷ (codes "LUA", cfg.executable)
    ∷ (codes "CC", f.cc)
    ∷ (codes "CFLAGS", join_words f.cflags)
    ∷ (codes "LIBFLAG", join_words f.libflag)
    ∷ (codes "PREFIX", cfg.prefix)
    ∷ (codes "MAKE", codes "make")
    ∷ (codes "CMAKE", codes "cmake")
    ∷ []

abbrev pub rock_vars : Bytes → Map Bytes
rock_vars dir =
    (codes "PREFIX", dir)
    ∷ (codes "LUADIR", join₂ dir (codes "lua"))
    ∷ (codes "LIBDIR", join₂ dir (codes "lib"))
    ∷ (codes "CONFDIR", join₂ dir (codes "conf"))
    ∷ (codes "BINDIR", join₂ dir (codes "bin"))
    ∷ (codes "DOCDIR", join₂ dir (codes "doc"))
    ∷ []

-- buildVars of a rock with a name and a version; the empty name stands for no rock.
unfoldable pub build_vars : Toolchain → TarantoolConfig → Bytes → Bytes → Bytes → Bytes → Map Bytes
unfolding derive_flags_for join_words copy_into insert install_dir
build_vars env cfg goos tree [] version = tool_vars (derive_flags_for env cfg goos) cfg
build_vars env cfg goos tree (c ∷ name) version =
    copy_into (tool_vars (derive_flags_for env cfg goos) cfg)
      (rock_vars (install_dir tree (c ∷ name) version))

unfoldable pub substitute_values : Map Bytes → Map Bytes → Map Bytes
unfolding substitute_vars insert
substitute_values [] subst = []
substitute_values ((k, v) ∷ vars) subst =
    (k, substitute_vars v subst) ∷ substitute_values vars subst

-- prepareMakeVars
unfoldable pub prepare_make_vars : Map Bytes → Map Bytes → Bytes → Map Bytes
unfolding substitute_values lookup insert
prepare_make_vars vars subst cc =
    let out = substitute_values vars subst in
    elim (lookup (codes "CC") out) [ none ↦ insert (codes "CC") cc out | some v ↦ out ]

-- passEnabled
unfoldable pub pass_enabled : Option Bool → Bool
pass_enabled none = true
pass_enabled (some b) = b

-- mergeVars
unfoldable pub merge_vars : Map Bytes → Map Bytes → Map Bytes
unfolding copy_into
merge_vars pass over = copy_into (copy_into [] pass) over
