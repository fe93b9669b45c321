-- ===== src/Msghdr.antt =====
-- src/msghdr.c: the fields of a message header, each with a reference that keeps its object alive.
pub mod Fields
use lua_llsocket.Prelude.{Option, none, some, List, [], ◌∷◌, if◌then◌else◌}
use lua_llsocket.Prelude.Int.{ℤ, pos}
use lua_llsocket.Host.Os.{Call}
use lua_llsocket.Host.Lua.{Value, Arg, is_none}
use lua_llsocket.Host.Consts.{noref}
use lua_llsocket.Host.{Ptr, null, Cmd, pure, ◌>>=◌, ◌>>◌, sys}
use lua_llsocket.Io.{optional}

-- `lls_msghdr_t`.
pub record LlsMsghdr : Type 0 where
  pub name_ref : ℤ
  pub iov_ref : ℤ
  pub control_ref : ℤ
  pub flags : ℤ
  pub name : Ptr
  pub iov : Ptr
  pub control : Ptr

abbrev pub new_lua : LlsMsghdr
new_lua = record {
  name_ref = noref;
  iov_ref = noref;
  control_ref = noref;
  flags = pos 0;
  name = null;
  iov = null;
  control = null;
}

unfoldable pub flags_lua : LlsMsghdr → List Value
flags_lua msg = Value.integer msg.flags ∷ []

-- Each accessor answers the old object. With an argument, it releases the old reference, and keeps
-- a reference to the new object, if there is one.
abbrev pub name_set : LlsMsghdr → Option Ptr → Cmd LlsMsghdr
name_set msg none = pure msg
name_set msg (some info) = do r ← sys Call.ref; pure (record msg { name_ref = r.ret; name = info })

unfoldable pub name_lua : LlsMsghdr → Arg Ptr → Cmd (List Value × LlsMsghdr)
name_lua msg arg = do
  let old = Value.reference msg.name_ref
  if is_none arg then pure (old ∷ [], msg) else do
    info ← optional arg
    u ← sys (Call.unref msg.name_ref)
    msg' ← name_set (record msg { name_ref = u.ret; name = null }) info
    pure (old ∷ [], msg')

abbrev pub control_set : LlsMsghdr → Option Ptr → Cmd LlsMsghdr
control_set msg none = pure msg
control_set msg (some cmsgs) = do
  r ← sys Call.ref
  pure (record msg { control_ref = r.ret; control = cmsgs })

unfoldable pub control_lua : LlsMsghdr → Arg Ptr → Cmd (List Value × LlsMsghdr)
control_lua msg arg = do
  let old = Value.reference msg.control_ref
  if is_none arg then pure (old ∷ [], msg) else do
    cmsgs ← optional arg
    u ← sys (Call.unref msg.control_ref)
    msg' ← control_set (record msg { control_ref = u.ret; control = null }) cmsgs
    pure (old ∷ [], msg')

abbrev pub iov_set : LlsMsghdr → Option Ptr → Cmd LlsMsghdr
iov_set msg none = pure msg
iov_set msg (some iov) = do r ← sys Call.ref; pure (record msg { iov_ref = r.ret; iov = iov })

-- It is `name` that is set to NULL.
unfoldable pub iov_lua : LlsMsghdr → Arg Ptr → Cmd (List Value × LlsMsghdr)
iov_lua msg arg = do
  let old = Value.reference msg.iov_ref
  if is_none arg then pure (old ∷ [], msg) else do
    iov ← optional arg
    u ← sys (Call.unref msg.iov_ref)
    msg' ← iov_set (record msg { iov_ref = u.ret; name = null }) iov
    pure (old ∷ [], msg')

unfoldable pub gc_lua : LlsMsghdr → Cmd (Unit {0})
gc_lua msg = do
  sys (Call.unref msg.name_ref)
  sys (Call.unref msg.iov_ref)
  sys (Call.unref msg.control_ref)
  pure tt
