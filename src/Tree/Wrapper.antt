-- ===== src/Tree/Wrapper.antt =====
-- tree/deploy.go: the launcher of a command.
pub mod ShellWords
pub mod LuaStrings
use go_luarocks.Prelude.{
  ℕ, Bool, none, some, List, [], ◌∷◌, ◌++◌, Bytes, codes, if◌then◌else◌, ◌==◌,
}
use go_luarocks.Tree.Layout.{BinWrap, deploy_lua_dir, deploy_lib_dir}

-- luaQuote, byte by byte.
unfoldable pub lua_quote_byte : ℕ → Bytes
lua_quote_byte c =
    if c == b'"'
    then 92 ∷ b'"' ∷ []
    else if c == 92
    then 92 ∷ 92 ∷ []
    else if c == 10
    then 92 ∷ b'n' ∷ []
    else if c == 13
    then 92 ∷ b'r' ∷ []
    else if c == 0
    then 92 ∷ b'0' ∷ []
    else c ∷ []

unfoldable pub lua_quote_bytes : Bytes → Bytes
lua_quote_bytes [] = []
lua_quote_bytes (c ∷ s) = lua_quote_byte c ++ lua_quote_bytes s

-- luaQuote
unfoldable pub lua_quote : Bytes → Bytes
lua_quote s = b'"' ∷ (lua_quote_bytes s ++ b'"' ∷ [])

-- strings.ReplaceAll of ' by '\''
unfoldable pub shell_escape : Bytes → Bytes
shell_escape [] = []
shell_escape (c ∷ s) = (if c == 39 then 39 ∷ 92 ∷ 39 ∷ 39 ∷ [] else c ∷ []) ++ shell_escape s

-- shellQuote
unfoldable pub shell_quote : Bytes → Bytes
shell_quote s = 39 ∷ (shell_escape s ++ 39 ∷ [])

-- `luainit` of binWrapperScript
unfoldable pub lua_init : Bytes → Bytes → Bytes → Bytes
lua_init root name version =
    let lua = deploy_lua_dir root in
    let lpath = lua ++ (codes "/?.lua;" ++ (lua ++ codes "/?/init.lua")) in
    let lcpath = deploy_lib_dir root ++ codes "/?.so" in
    codes "package.path="
    ++ (lua_quote (lpath ++ codes ";")
        ++ (codes "..package.path;package.cpath="
            ++ (lua_quote (lcpath ++ codes ";")
                ++ (codes "..package.cpath;local k,l,_=pcall(require,"
                    ++ (lua_quote (codes "luarocks.loader")
                        ++ (codes ") _=k and l.add_context("
                            ++ (lua_quote name ++ (b',' ∷ (lua_quote version ++ codes ")")))))))))

-- binWrapperScript
unfoldable pub bin_wrapper_script : Bytes → BinWrap → Bytes → Bytes → Bytes → Bytes
bin_wrapper_script root wrap script name version =
    codes "#!/bin/sh\n\nLUAROCKS_SYSCONFDIR="
    ++ (shell_quote wrap.sysconfdir
        ++ (codes " exec "
            ++ (shell_quote wrap.interpreter
                ++ (codes " -e "
                    ++ (shell_quote (lua_init root name version)
                        ++ (b' ' ∷ (shell_quote script ++ codes " \"$@\"\n")))))))
