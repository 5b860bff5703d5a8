-- ===== src/Build/Flags.antt =====
-- build/flags.go: the flags of the compiler.
use go_luarocks.Prelude.{
  ℕ, Bool, true, false, ◌||◌, List, [], ◌∷◌, ◌++◌, Bytes, codes, same, if◌then◌else◌, contains,
  ◌==◌, leb, ◌&&◌,
}
use go_luarocks.Files.FilePath.{dir, join₂}

-- TarantoolConfig, without the version that is for messages.
pub record TarantoolConfig : Type 0 where
  pub executable : Bytes
  pub prefix : Bytes
  pub include_dir : Bytes

-- The variables CC, CFLAGS and LDFLAGS of the process.
pub record Toolchain : Type 0 where
  pub env_cc : Bytes
  pub env_cflags : Bytes
  pub env_ldflags : Bytes

pub record Flags : Type 0 where
  pub cc : Bytes
  pub cflags : List Bytes
  pub ldflags : List Bytes
  pub libflag : List Bytes
  pub lua_inc_dir : Bytes
  pub lua_lib_dir : Bytes
  pub lua_bin_dir : Bytes
  pub ext : Bytes
  pub gcc_rpath : Bool

abbrev pub is_space : ℕ → Bool
is_space c = (c == 32) || (leb 9 c && leb c 13)

-- strings.Fields of ASCII text, behind a word that has begun.
unfoldable pub fields_from : Bytes → Bytes → List Bytes
fields_from [] [] = []
fields_from (b ∷ word) [] = (b ∷ word) ∷ []
fields_from word (c ∷ s) = elim (is_space c) [
  | false ↦ fields_from (word ++ c ∷ []) s
  | true ↦ elim word [ [] ↦ fields_from [] s | b ∷ w ↦ (b ∷ w) ∷ fields_from [] s ]
]

unfoldable pub or_else : Bytes → Bytes → Bytes
or_else fallback [] = fallback
or_else fallback (c ∷ s) = c ∷ s

-- LuaBinDir
unfoldable pub lua_bin_dir_of : TarantoolConfig → Bytes
unfolding dir
lua_bin_dir_of cfg = elim (same cfg.executable [] || same (dir cfg.executable) (codes ".")) [
  | false ↦ dir cfg.executable
  | true ↦ if same cfg.prefix [] then [] else join₂ cfg.prefix (codes "bin")
]

abbrev pub with_pic : List Bytes → List Bytes
with_pic flags = if contains flags (codes "-fPIC") then flags else flags ++ codes "-fPIC" ∷ []

abbrev pub with_include : Bytes → List Bytes → List Bytes
with_include inc flags = if same inc [] then flags else flags ++ (codes "-I" ++ inc) ∷ []

-- deriveFlagsFor
unfoldable pub derive_flags_for : Toolchain → TarantoolConfig → Bytes → Flags
unfolding fields_from or_else lua_bin_dir_of
derive_flags_for env cfg goos =
    let darwin = same goos (codes "darwin") in
    record {
      cc = or_else (codes "cc") env.env_cc;
      cflags =
          with_include cfg.include_dir
            (with_pic (fields_from [] (or_else (codes "-O2") env.env_cflags)));
      ldflags = fields_from [] env.env_ldflags;
      libflag =
          if darwin
          then codes "-bundle"
            ∷ codes "-undefined"
            ∷ codes "dynamic_lookup"
            ∷ codes "-all_load"
            ∷ []
          else codes "-shared" ∷ [];
      lua_inc_dir = cfg.include_dir;
      lua_lib_dir = if same cfg.prefix [] then [] else join₂ cfg.prefix (codes "lib");
      lua_bin_dir = lua_bin_dir_of cfg;
      ext = codes ".so";
      gcc_rpath = if darwin then false else true;
    }
