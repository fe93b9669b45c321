-- ===== src/Cmsghdr.antt =====
-- src/cmsghdr.c and `lls_cmsghdr_alloc` of src/llsocket.h: one control message.
pub mod Rights
use lua_llsocket.Prelude.{
  ℕ, zero, suc, ◌+◌, ◌-◌, ◌/◌, ◌%◌, ◌==◌, Bool, true, false, ◌&&◌, List, [], ◌∷◌, ◌++◌, map,
  if◌then◌else◌, length, take, drop, leb,
}
use lua_llsocket.Prelude.Int.{ℤ, pos, ◌==ℤ◌, to_int, to_unsigned, from_bits}
use lua_llsocket.Prelude.Bytes.{to_le, from_le}
use lua_llsocket.Host.Os.{Call}
use lua_llsocket.Host.Lua.{Value, Arg, lua_minstack}
use lua_llsocket.Host.Consts.{sol_socket, scm_rights, noref}
use lua_llsocket.Host.{Cmd, pure, ◌>>=◌, ◌>>◌, raise, crash, check, sys}

-- `lls_cmsghdr_t`. `len` is the length of the string as an `int`.
pub record Cmsghdr : Type 0 where
  pub level : ℤ
  pub type : ℤ
  pub len : ℤ
  pub bytes : List ℕ

unfoldable pub lls_cmsghdr_alloc : (level type : ℤ) → List ℕ → Cmsghdr
lls_cmsghdr_alloc level type bytes = record {
  level = level;
  type = type;
  len = to_int (pos (length bytes));
  bytes = bytes;
}

unfoldable pub new_lua : (level type : Arg ℤ) → Arg (List ℕ) → Cmd Cmsghdr
unfolding lls_cmsghdr_alloc
new_lua level_arg type_arg data_arg = do
  level ← check level_arg
  type ← check type_arg
  bytes ← check data_arg
  pure (lls_cmsghdr_alloc (to_int level) (to_int type) bytes)

-- The strings that `rights_lua` concatenates: each descriptor as an `int32_t`.
unfoldable pub rights_bytes : List ℤ → List ℕ
rights_bytes [] = []
rights_bytes (fd ∷ fds) = to_le 4 (to_unsigned 32 fd) ++ rights_bytes fds

-- The arguments have passed `lauxh_checkint32`. Without one there is no message. A string is pushed
-- for each, without `luaL_checkstack`.
unfoldable pub rights_lua : List ℤ → Cmd Value
unfolding rights_bytes to_le
rights_lua [] = pure Value.nil
rights_lua (fd ∷ fds) =
    if leb (length (fd ∷ fds)) lua_minstack
    then pure (Value.cmsghdr (pos sol_socket) (pos scm_rights) (rights_bytes (fd ∷ fds)))
    else crash

-- The loop of `data_lua`: `nfd` descriptors are read, four bytes each.
unfoldable pub data_fds : ℕ → List ℕ → List Value
data_fds zero data' = []
data_fds (suc nfd) data' =
    Value.integer (from_bits 31 (from_le (take 4 data'))) ∷ data_fds nfd (drop 4 data')

-- The string takes one slot of the stack, and each descriptor another, without `luaL_checkstack`.
unfoldable pub data_lua : Cmsghdr → Cmd (List Value)
unfolding data_fds from_le
data_lua cmsg =
    if cmsg.level ==ℤ pos sol_socket && cmsg.type ==ℤ pos scm_rights
    then (if length cmsg.bytes == 0
        then pure (Value.nil ∷ [])
        else if length cmsg.bytes % 4 == 0
        then (if leb (length cmsg.bytes / 4 + 1) lua_minstack
            then pure (data_fds (length cmsg.bytes / 4) cmsg.bytes)
            else crash)
        else raise)
    else pure (Value.string cmsg.bytes ∷ [])

unfoldable pub level_lua : Cmsghdr → List Value
level_lua cmsg = Value.integer cmsg.level ∷ []

unfoldable pub type_lua : Cmsghdr → List Value
type_lua cmsg = Value.integer cmsg.type ∷ []

unfoldable pub len_lua : Cmsghdr → List Value
len_lua cmsg = Value.integer cmsg.len ∷ []

-- The collection of a message, of which `ref` keeps the string alive.
unfoldable pub gc_lua : (ref : ℤ) → Cmd (Unit {0})
gc_lua ref = if ref ==ℤ noref then pure tt else (do sys (Call.unref ref); pure tt)
