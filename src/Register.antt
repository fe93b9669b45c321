-- ===== src/Register.antt =====
-- The tables that Lua code sees: tmpl/llsocket_tmpl.c, src/env.c, and the functions `luaopen_…` of the
-- other files.
pub mod Functions
pub mod Tables
pub mod Sockets
pub mod Modules
pub mod Places
pub mod Found
pub mod Opened
use lua_llsocket.Prelude.{String, Option, none, some, List, [], ◌∷◌}
use lua_llsocket.Prelude.Int.{ℤ, pos}
use lua_llsocket.Host.Consts.{unixpath_max, somaxconn, shut_rdwr}
use lua_llsocket.Register.Tables.{Table, Field, Registry, rawset}
use lua_llsocket.Register.Sockets.{luaopen_llsocket_socket}
use lua_llsocket.Register.Modules.{
  luaopen_llsocket_addrinfo, luaopen_llsocket_cmsghdr, luaopen_llsocket_cmsghdrs,
  luaopen_llsocket_msghdr, luaopen_llsocket_device, lls_gcfn_init,
}

-- `luaopen_llsocket_env`, where `__linux__` is defined.
unfoldable pub luaopen_llsocket_env : Table Field
unfolding rawset
luaopen_llsocket_env = rawset "somaxconn" (Field.number somaxconn) (
    rawset "unixpath_max" (Field.number (pos unixpath_max)) (rawset "os" (Field.string "linux") []))

-- What a field of the table `llsocket` holds.
pub data Entry : Type 0 where
  submodule : Table Field → Entry
  constant : ℤ → Entry

unfoldable pub push_ints : List (String × ℤ) → Table Entry → Table Entry
unfolding rawset
push_ints [] t = t
push_ints ((name, n) ∷ rest) t = push_ints rest (rawset name (Entry.constant n) t)

abbrev pub shut_rd : ℤ
shut_rd = pos 0

abbrev pub shut_wr : ℤ
shut_wr = pos 1

-- `SCM_CREDS`, where the system's headers define a type for credentials.
abbrev pub scm_creds_decl : Option ℤ → List (String × ℤ)
scm_creds_decl none = []
scm_creds_decl (some n) = ("SCM_CREDS", n) ∷ []

-- What the build writes in place of the macros `GEN_…_DECL`, from the files of var/ and the system's
-- headers: the calls of `lauxh_pushint2tbl` before the credentials, and those behind them.
module _ (decls : List (String × ℤ)) (scm_creds : Option ℤ) (scm_types : List (String × ℤ)) where
  unfoldable pub luaopen_llsocket : Registry → Registry × Table Entry
  unfolding rawset lls_gcfn_init luaopen_llsocket_addrinfo luaopen_llsocket_socket
      luaopen_llsocket_cmsghdr luaopen_llsocket_cmsghdrs luaopen_llsocket_msghdr
      luaopen_llsocket_device luaopen_llsocket_env push_ints
  luaopen_llsocket reg0 =
      let reg1 = lls_gcfn_init reg0 in
      let (reg2, addrinfo) = luaopen_llsocket_addrinfo reg1 in
      let (reg3, socket) = luaopen_llsocket_socket reg2 in
      let (reg4, cmsghdr) = luaopen_llsocket_cmsghdr reg3 in
      let (reg5, cmsghdrs) = luaopen_llsocket_cmsghdrs reg4 in
      let (reg6, msghdr) = luaopen_llsocket_msghdr reg5 in
      let t1 = rawset "addrinfo" (Entry.submodule addrinfo) [] in
      let t2 = rawset "socket" (Entry.submodule socket) t1 in
      let t3 = rawset "cmsghdr" (Entry.submodule cmsghdr) t2 in
      let t4 = rawset "cmsghdrs" (Entry.submodule cmsghdrs) t3 in
      let t5 = rawset "msghdr" (Entry.submodule msghdr) t4 in
      let t6 = rawset "device" (Entry.submodule luaopen_llsocket_device) t5 in
      let t7 = rawset "env" (Entry.submodule luaopen_llsocket_env) t6 in
      let t8 = rawset "SHUT_RD" (Entry.constant shut_rd) t7 in
      let t9 = rawset "SHUT_WR" (Entry.constant shut_wr) t8 in
      let t10 = rawset "SHUT_RDWR" (Entry.constant shut_rdwr) t9 in
      (reg6, push_ints scm_types (push_ints (scm_creds_decl scm_creds) (push_ints decls t10)))
