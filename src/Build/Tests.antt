-- ===== src/Build/Tests.antt =====
-- Runs of build.
use go_luarocks.Prelude.{
  distinct, ◌≡◌, refl, List, [], ◌∷◌, ◌++◌, Bytes, codes, lookup, insert, contains, same,
}
use go_luarocks.Build.Flags.{TarantoolConfig, Toolchain, derive_flags_for}
use go_luarocks.Build.Vars.{substitute_vars}
use go_luarocks.Build.Vars.References.{reference_to, substitute_vars-reference_to}
use go_luarocks.Build.Environment.{merge_env, split_env}
use go_luarocks.Build.Environment.Merged.{env_value, later, env_value-merge_env}

abbrev sdk : TarantoolConfig
sdk = record {
  executable = codes "/sdk/tarantool";
  prefix = codes "/sdk";
  include_dir = codes "/sdk/include";
}

abbrev no_env : Toolchain
no_env = record { env_cc = []; env_cflags = codes " -g  -O0"; env_ldflags = [] }

derive_flags_linux :
    (derive_flags_for no_env sdk (codes "linux")).cflags
    ≡ codes "-g" ∷ codes "-O0" ∷ codes "-fPIC" ∷ codes "-I/sdk/include" ∷ []
unfolding derive_flags_for same contains
derive_flags_linux = refl

abbrev base : List Bytes
base = codes "LUA=old" ∷ codes "HOME=/" ∷ codes "LUA=newer" ∷ []

merge_env-base :
    merge_env base ((codes "LUA", codes "x") ∷ (codes "CC", codes "gcc") ∷ [])
    ≡ codes "LUA=old" ∷ codes "HOME=/" ∷ codes "LUA=x" ∷ codes "CC=gcc" ∷ []
unfolding merge_env lookup same split_env insert
merge_env-base = refl

env_value-merge_env_example :
    env_value
      (codes "LUA")
      (merge_env base ((codes "LUA", codes "x") ∷ (codes "CC", codes "gcc") ∷ []))
    ≡ later
        (lookup (codes "LUA") ((codes "LUA", codes "x") ∷ (codes "CC", codes "gcc") ∷ []))
        (env_value (codes "LUA") base)
unfolding distinct same
env_value-merge_env_example =
    env_value-merge_env base ((codes "LUA", codes "x") ∷ (codes "CC", codes "gcc") ∷ [])
      (codes "LUA") refl refl

substitute_vars-reference_to_example :
    substitute_vars
      (codes "-I" ++ (reference_to (codes "LUA_INCDIR") ++ codes " x"))
      ((codes "LUA_INCDIR", codes "/i") ∷ [])
    ≡ codes "-I"
      ++ (codes "/i" ++ substitute_vars (codes " x") ((codes "LUA_INCDIR", codes "/i") ∷ []))
unfolding lookup same
substitute_vars-reference_to_example =
    substitute_vars-reference_to (codes "-I") (codes "LUA_INCDIR") (codes " x")
      ((codes "LUA_INCDIR", codes "/i") ∷ []) refl refl refl
