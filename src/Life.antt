-- ===== src/Life.antt =====
-- The end of a socket's life in src/socket.c: `shutdown`, `close`, `unwrap` and collection, the
-- functions `close` and `shutdown` of the module, and `dup`.
pub mod Answers
pub mod Close
pub mod Collect
pub mod Unwrap
use lua_llsocket.Prelude.{ℕ, ◌==◌, Bool, true, false, not, List, [], ◌∷◌, if◌then◌else◌}
use lua_llsocket.Prelude.Int.{ℤ, pos, minus_one, ◌==ℤ◌, to_int}
use lua_llsocket.Host.Os.{Call}
use lua_llsocket.Host.Lua.{Value, Arg, is_none_or_nil}
use lua_llsocket.Host.Consts.{shut_rdwr, f_setfd, fd_cloexec}
use lua_llsocket.Host.{
  Ptr, null, St, Cmd, pure, ◌>>=◌, ◌>>◌, gets, modify, sys, put_sock, put_meta, alloc, check, opt,
  fail_nil, fail_false,
}
use lua_llsocket.Finalise.{call_gcfn}

unfoldable pub shutdownfd : (fd how : ℤ) → Cmd (List Value)
shutdownfd fd how = do
  r ← sys (Call.shutdown fd how)
  if r.ret ==ℤ pos 0 then pure (Value.boolean true ∷ []) else fail_false "shutdown"

unfoldable pub shutdown_lua : Ptr → Arg ℤ → Cmd (List Value)
unfolding shutdownfd
shutdown_lua sp arg = do
  how ← opt arg shut_rdwr
  s ← gets λ st. st.socks sp
  shutdownfd s.fd (to_int how)

-- The first part of `closefd`: the value of `err`.
unfoldable pub closefd_shutdown : (fd how : ℤ) → Bool → Cmd ℕ
closefd_shutdown fd how with_shutdown =
    if with_shutdown
    then (do r ← sys (Call.shutdown fd how); if r.ret ==ℤ pos 0 then pure 0 else gets St.errno)
    else pure 0

-- `closefd`. With both errors the error of `close` replaces that of `shutdown`, its cause.
unfoldable pub closefd : (fd how : ℤ) → Bool → Cmd (List Value)
unfolding closefd_shutdown
closefd fd how with_shutdown = do
  err ← closefd_shutdown fd how with_shutdown
  c ← sys (Call.close fd)
  if c.ret ==ℤ pos 0
      then (if err == 0 then pure (Value.boolean true ∷ []) else fail_false "shutdown")
      else if err == 0
      then fail_false "close"
      else do
        e ← gets St.errno
        pure (Value.boolean false ∷ Value.caused e "close" (Value.failure err "shutdown") ∷ [])

-- `fin` is what the Lua function behind a reference does, and `fuel` bounds the rounds of the loop
-- over the finalisers.
module _ (fin : ℤ → St → St) (fuel : ℕ) where
  unfoldable pub close_lua : Ptr → Arg ℤ → Cmd (List Value)
  unfolding closefd
  close_lua sp arg = do
    how ← opt arg minus_one
    s ← gets λ st. st.socks sp
    if s.fd ==ℤ minus_one then pure (Value.boolean true ∷ []) else do
      call_gcfn fin fuel sp
      modify λ st. put_sock sp (record (st.socks sp) { fd = minus_one }) st
      closefd s.fd (to_int how) (not (is_none_or_nil arg))

  unfoldable pub gc_lua : Ptr → Cmd (List Value)
  gc_lua sp = do
    s ← gets λ st. st.socks sp
    if s.fd ==ℤ minus_one
        then pure []
        else do call_gcfn fin fuel sp; s' ← gets λ st. st.socks sp; sys (Call.close s'.fd); pure []

  unfoldable pub unwrap_lua : Ptr → Cmd (List Value)
  unwrap_lua sp = do
    call_gcfn fin fuel sp
    modify (put_meta sp false)
    s ← gets λ st. st.socks sp
    modify (put_sock sp (record s { fd = minus_one }))
    pure (Value.integer s.fd ∷ [])

unfoldable pub shutdownfd_lua : (fd how : Arg ℤ) → Cmd (List Value)
unfolding shutdownfd
shutdownfd_lua fd_arg how_arg = do
  fd ← check fd_arg
  how ← opt how_arg shut_rdwr
  shutdownfd (to_int fd) (to_int how)

unfoldable pub closefd_lua : (fd how : Arg ℤ) → Cmd (List Value)
unfolding closefd
closefd_lua fd_arg how_arg = do
  fd ← check fd_arg
  how ← opt how_arg minus_one
  closefd (to_int fd) (to_int how) (not (is_none_or_nil how_arg))

unfoldable pub dup_lua : Ptr → Cmd (List Value)
dup_lua sp = do
  s ← gets λ st. st.socks sp
  sd ← alloc
  d ← sys (Call.dup s.fd)
  let fd = d.ret
  if fd ==ℤ minus_one then fail_nil "dup" else do
    f ← sys (Call.fcntl fd f_setfd (pos fd_cloexec))
    if f.ret ==ℤ minus_one then (do sys (Call.close fd); fail_nil "fcntl") else do
      modify (put_sock sd (record s { fd = fd; gcfunc = null }))
      modify (put_meta sd true)
      pure (Value.socket sd ∷ [])
