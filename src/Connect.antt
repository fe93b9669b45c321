-- ===== src/Connect.antt =====
-- The ends of a connection: src/socket.c, `atmark_lua` to `getpeername_lua`, `listen_lua`, and
-- `connect_lua` to `fd_lua`.
pub mod Answers
use lua_llsocket.Prelude.{
  ℕ, ◌/◌, ◌%◌, ◌==◌, Bool, true, false, ◌||◌, not, List, [], ◌∷◌, if◌then◌else◌,
}
use lua_llsocket.Prelude.Int.{ℤ, pos, negsuc, minus_one, ◌==ℤ◌, to_int}
use lua_llsocket.Host.Os.{Call}
use lua_llsocket.Host.Lua.{Value, Arg, Addrinfo, Seconds}
use lua_llsocket.Host.Consts.{eagain, etimedout, einprogress, ealready, somaxconn}
use lua_llsocket.Host.{Ptr, St, Cmd, pure, ◌>>=◌, ◌>>◌, gets, sys, check, opt, fail_nil, fail_false}
use lua_llsocket.Io.{wrap_addr}

unfoldable pub atmark_lua : Ptr → Cmd (List Value)
atmark_lua sp = do
  s ← gets λ st. st.socks sp
  rc ← sys (Call.sockatmark s.fd)
  if rc.ret ==ℤ minus_one
      then fail_nil "sockatmark"
      else pure (Value.boolean (not (rc.ret ==ℤ pos 0)) ∷ [])

unfoldable pub getsockname_lua : Ptr → Cmd (List Value)
getsockname_lua sp = do
  s ← gets λ st. st.socks sp
  r ← sys (Call.getsockname s.fd)
  if not (r.ret ==ℤ pos 0)
      then fail_nil "getsockname"
      else pure (Value.addrinfo (wrap_addr s.family s.socktype s.protocol r.addr r.len) ∷ [])

unfoldable pub getpeername_lua : Ptr → Cmd (List Value)
getpeername_lua sp = do
  s ← gets λ st. st.socks sp
  r ← sys (Call.getpeername s.fd)
  if not (r.ret ==ℤ pos 0)
      then fail_nil "getpeername"
      else pure (Value.addrinfo (wrap_addr s.family s.socktype s.protocol r.addr r.len) ∷ [])

unfoldable pub listen_lua : Ptr → Arg ℤ → Cmd (List Value)
listen_lua sp backlog_arg = do
  s ← gets λ st. st.socks sp
  backlog ← opt backlog_arg somaxconn
  r ← sys (Call.listen s.fd (to_int backlog))
  if not (r.ret ==ℤ pos 0) then fail_false "listen" else pure (Value.boolean true ∷ [])

-- What `connect_lua` answers when the call has failed with `e`.
abbrev pub connect_failed : ℕ → List Value
connect_failed e =
    if e == eagain || e == etimedout
    then Value.boolean false ∷ Value.failure e "connect" ∷ Value.boolean true ∷ []
    else Value.boolean (e == einprogress || e == ealready) ∷ Value.failure e "connect" ∷ []

unfoldable pub connect_lua : Ptr → Arg Addrinfo → Cmd (List Value)
connect_lua sp info_arg = do
  s ← gets λ st. st.socks sp
  info ← check info_arg
  r ← sys (Call.connect s.fd info.ai_addr info.ai_addrlen)
  e ← gets St.errno
  if r.ret ==ℤ pos 0 then pure (Value.boolean true ∷ []) else pure (connect_failed e)

-- The default, and the time that `select_lua` waits: none for a number that is not positive.
abbrev pub no_seconds : Seconds
no_seconds = record { above_zero = false; tv_sec = pos 0; tv_usec = pos 0 }

abbrev pub wait_sec : Seconds → ℤ
wait_sec sec = if sec.above_zero then sec.tv_sec else pos 0

abbrev pub wait_usec : Seconds → ℤ
wait_usec sec = if sec.above_zero then sec.tv_usec else pos 0

-- `FD_SET` is taken with the first argument of `select` and the three flags.
unfoldable pub select_lua :
    (receivable sendable : Bool) → Ptr → Arg Seconds → Arg Bool → Cmd (List Value)
select_lua receivable sendable sp sec_arg except_arg = do
  s ← gets λ st. st.socks sp
  sec ← opt sec_arg no_seconds
  except ← opt except_arg false
  r ← sys (Call.select s.fd receivable sendable except (wait_sec sec) (wait_usec sec))
  if r.ret ==ℤ pos 0
      then pure (Value.boolean false ∷ Value.nil ∷ Value.boolean true ∷ [])
      else if r.ret ==ℤ minus_one
      then fail_false "select"
      else pure (Value.boolean true ∷ [])

unfoldable pub sendable_lua : Ptr → Arg Seconds → Arg Bool → Cmd (List Value)
unfolding select_lua
sendable_lua = select_lua false true

unfoldable pub recvable_lua : Ptr → Arg Seconds → Arg Bool → Cmd (List Value)
unfolding select_lua
recvable_lua = select_lua true false

unfoldable pub bind_lua : Ptr → Arg Addrinfo → Cmd (List Value)
bind_lua sp info_arg = do
  s ← gets λ st. st.socks sp
  info ← check info_arg
  r ← sys (Call.bind s.fd info.ai_addr info.ai_addrlen)
  if r.ret ==ℤ pos 0 then pure (Value.boolean true ∷ []) else fail_false "bind"

unfoldable pub protocol_lua : Ptr → Cmd (List Value)
protocol_lua sp = do s ← gets λ st. st.socks sp; pure (Value.integer s.protocol ∷ [])

unfoldable pub socktype_lua : Ptr → Cmd (List Value)
socktype_lua sp = do s ← gets λ st. st.socks sp; pure (Value.integer s.socktype ∷ [])

unfoldable pub family_lua : Ptr → Cmd (List Value)
family_lua sp = do s ← gets λ st. st.socks sp; pure (Value.integer s.family ∷ [])

unfoldable pub fd_lua : Ptr → Cmd (List Value)
fd_lua sp = do s ← gets λ st. st.socks sp; pure (Value.integer s.fd ∷ [])
