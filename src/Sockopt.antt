-- ===== src/Sockopt.antt =====
-- Options of descriptors and sockets: the helpers of src/llsocket.h and the handlers of
-- src/socket.c that read an option and, given an argument, set it.
pub mod Roundtrip
use lua_llsocket.Prelude.{
  ℕ, ◌-◌, ◌*◌, ◌+◌, ◌/◌, ◌%◌, ◌^◌, ◌==◌, Bool, true, false, ◌||◌, not, List, [], ◌∷◌, if◌then◌else◌,
  bit_and, bit_or,
}
use lua_llsocket.Prelude.Int.{ℤ, pos, negsuc, minus_one, ◌==ℤ◌, to_int, to_unsigned, from_bits}
use lua_llsocket.Host.Os.{Call}
use lua_llsocket.Host.Lua.{Value, Arg, Seconds, is_none, is_none_or_nil}
use lua_llsocket.Host.Consts.{
  f_getfd, f_setfd, f_getfl, f_setfl, fd_cloexec, o_nonblock, sol_socket, ipproto_tcp, so_error,
  so_linger, so_rcvtimeo, so_sndtimeo, so_acceptconn, so_broadcast, so_debug, so_dontroute,
  so_keepalive, so_oobinline, so_rcvbuf, so_rcvlowat, so_reuseaddr, so_reuseport, so_sndbuf,
  so_sndlowat, so_timestamp, tcp_cork, tcp_keepcnt, tcp_keepidle, tcp_keepintvl, tcp_nodelay,
}
use lua_llsocket.Host.{Ptr, St, Cmd, pure, ◌>>=◌, ◌>>◌, gets, sys, check, fail_nil}

-- The Lua type of an option, LUA_TBOOLEAN or another one.
pub data LuaType : Type 0 where
  tboolean tnumber : LuaType

abbrev pub int_value : LuaType → ℤ → Value
int_value tboolean n = Value.boolean (not (n ==ℤ pos 0))
int_value tnumber n = Value.integer n

-- The argument is what `lauxh_checkboolean` or `lauxh_checkinteger` answers, by the type.
unfoldable pub lls_sockopt_int_lua : ℤ → (level opt : ℕ) → LuaType → Arg ℤ → Cmd (List Value)
lls_sockopt_int_lua fd level opt type arg = do
  g ← sys (Call.getsockopt fd level opt)
  if not (g.ret ==ℤ pos 0)
      then fail_nil "getsockopt"
      else if is_none arg || is_none_or_nil arg
      then pure (int_value type g.num ∷ [])
      else do
        v ← check arg
        r ← sys (Call.setsockopt fd level opt (to_int v ∷ []))
        if r.ret ==ℤ pos 0 then pure (int_value type g.num ∷ []) else fail_nil "setsockopt"

-- The `struct timeval` that `modf` and the conversions to integers cut a number into.
abbrev pub timeval_of : Seconds → List ℤ
timeval_of v = v.tv_sec ∷ v.tv_usec ∷ []

unfoldable pub lls_sockopt_timeval_lua : ℤ → (level opt : ℕ) → Arg Seconds → Cmd (List Value)
lls_sockopt_timeval_lua fd level opt arg = do
  g ← sys (Call.getsockopt fd level opt)
  if not (g.ret ==ℤ pos 0)
      then fail_nil "getsockopt"
      else if is_none arg || is_none_or_nil arg
      then pure (Value.seconds g.num g.num2 ∷ [])
      else do
        v ← check arg
        r ← sys (Call.setsockopt fd level opt (timeval_of v))
        if r.ret ==ℤ pos 0 then pure (Value.seconds g.num g.num2 ∷ []) else fail_nil "setsockopt"

-- `flg | fl` and `flg & ~fl`, on the bits of an `int`.
abbrev pub with_flag : ℤ → ℕ → ℤ
with_flag flg fl = from_bits 31 (bit_or (to_unsigned 32 flg) fl)

abbrev pub without_flag : ℤ → ℕ → ℤ
without_flag flg fl = from_bits 31 (bit_and (to_unsigned 32 flg) (2 ^ 32 - 1 - fl))

abbrev pub has_flag : ℤ → ℕ → Bool
has_flag flg fl = not (bit_and (to_unsigned 32 flg) fl == 0)

unfoldable pub lls_fcntl_lua : ℤ → (getfl setfl fl : ℕ) → Arg Bool → Cmd (List Value)
lls_fcntl_lua fd getfl setfl fl arg = do
  g ← sys (Call.fcntl fd getfl (pos 0))
  if g.ret ==ℤ minus_one
      then fail_nil "fcntl"
      else if is_none arg || is_none_or_nil arg
      then pure (Value.boolean (has_flag g.ret fl) ∷ [])
      else do
        b ← check arg
        r ← sys (Call.fcntl fd setfl (if b then with_flag g.ret fl else without_flag g.ret fl))
        if r.ret ==ℤ pos 0 then pure (Value.boolean (has_flag g.ret fl) ∷ []) else fail_nil "fcntl"

unfoldable pub cloexec_lua : Ptr → Arg Bool → Cmd (List Value)
unfolding lls_fcntl_lua
cloexec_lua sp arg = do
  s ← gets λ st. st.socks sp
  lls_fcntl_lua s.fd f_getfd f_setfd fd_cloexec arg

unfoldable pub nonblock_lua : Ptr → Arg Bool → Cmd (List Value)
unfolding lls_fcntl_lua
nonblock_lua sp arg = do
  s ← gets λ st. st.socks sp
  lls_fcntl_lua s.fd f_getfl f_setfl o_nonblock arg

unfoldable pub sockopt_int_lua : (level opt : ℕ) → LuaType → Ptr → Arg ℤ → Cmd (List Value)
unfolding lls_sockopt_int_lua
sockopt_int_lua level opt type sp arg = do
  s ← gets λ st. st.socks sp
  lls_sockopt_int_lua s.fd level opt type arg

-- The value of SO_ERROR as an error object, or nil. The number of an error object is the one that
-- the bits of the `int` spell without a sign.
abbrev pub as_error : List Value → List Value
as_error (Value.integer n ∷ []) =
    if to_unsigned 32 n == 0 then Value.nil ∷ [] else Value.failure (to_unsigned 32 n) "error" ∷ []
as_error vs = vs

unfoldable pub error_lua : Ptr → Arg ℤ → Cmd (List Value)
unfolding sockopt_int_lua
error_lua sp arg = do vs ← sockopt_int_lua sol_socket so_error tnumber sp arg; pure (as_error vs)

unfoldable pub acceptconn_lua : Ptr → Arg ℤ → Cmd (List Value)
unfolding sockopt_int_lua
acceptconn_lua = sockopt_int_lua sol_socket so_acceptconn tboolean

unfoldable pub tcpnodelay_lua : Ptr → Arg ℤ → Cmd (List Value)
unfolding sockopt_int_lua
tcpnodelay_lua = sockopt_int_lua ipproto_tcp tcp_nodelay tboolean

unfoldable pub tcpkeepintvl_lua : Ptr → Arg ℤ → Cmd (List Value)
unfolding sockopt_int_lua
tcpkeepintvl_lua = sockopt_int_lua ipproto_tcp tcp_keepintvl tnumber

unfoldable pub tcpkeepcnt_lua : Ptr → Arg ℤ → Cmd (List Value)
unfolding sockopt_int_lua
tcpkeepcnt_lua = sockopt_int_lua ipproto_tcp tcp_keepcnt tnumber

unfoldable pub tcpkeepalive_lua : Ptr → Arg ℤ → Cmd (List Value)
unfolding sockopt_int_lua
tcpkeepalive_lua = sockopt_int_lua ipproto_tcp tcp_keepidle tnumber

unfoldable pub tcpcork_lua : Ptr → Arg ℤ → Cmd (List Value)
unfolding sockopt_int_lua
tcpcork_lua = sockopt_int_lua ipproto_tcp tcp_cork tboolean

unfoldable pub reuseport_lua : Ptr → Arg ℤ → Cmd (List Value)
unfolding sockopt_int_lua
reuseport_lua = sockopt_int_lua sol_socket so_reuseport tboolean

unfoldable pub reuseaddr_lua : Ptr → Arg ℤ → Cmd (List Value)
unfolding sockopt_int_lua
reuseaddr_lua = sockopt_int_lua sol_socket so_reuseaddr tboolean

unfoldable pub broadcast_lua : Ptr → Arg ℤ → Cmd (List Value)
unfolding sockopt_int_lua
broadcast_lua = sockopt_int_lua sol_socket so_broadcast tboolean

unfoldable pub debug_lua : Ptr → Arg ℤ → Cmd (List Value)
unfolding sockopt_int_lua
debug_lua = sockopt_int_lua sol_socket so_debug tboolean

unfoldable pub keepalive_lua : Ptr → Arg ℤ → Cmd (List Value)
unfolding sockopt_int_lua
keepalive_lua = sockopt_int_lua sol_socket so_keepalive tboolean

unfoldable pub oobinline_lua : Ptr → Arg ℤ → Cmd (List Value)
unfolding sockopt_int_lua
oobinline_lua = sockopt_int_lua sol_socket so_oobinline tboolean

unfoldable pub dontroute_lua : Ptr → Arg ℤ → Cmd (List Value)
unfolding sockopt_int_lua
dontroute_lua = sockopt_int_lua sol_socket so_dontroute tboolean

unfoldable pub timestamp_lua : Ptr → Arg ℤ → Cmd (List Value)
unfolding sockopt_int_lua
timestamp_lua = sockopt_int_lua sol_socket so_timestamp tboolean

unfoldable pub rcvbuf_lua : Ptr → Arg ℤ → Cmd (List Value)
unfolding sockopt_int_lua
rcvbuf_lua = sockopt_int_lua sol_socket so_rcvbuf tnumber

unfoldable pub rcvlowat_lua : Ptr → Arg ℤ → Cmd (List Value)
unfolding sockopt_int_lua
rcvlowat_lua = sockopt_int_lua sol_socket so_rcvlowat tnumber

unfoldable pub sndbuf_lua : Ptr → Arg ℤ → Cmd (List Value)
unfolding sockopt_int_lua
sndbuf_lua = sockopt_int_lua sol_socket so_sndbuf tnumber

unfoldable pub sndlowat_lua : Ptr → Arg ℤ → Cmd (List Value)
unfolding sockopt_int_lua
sndlowat_lua = sockopt_int_lua sol_socket so_sndlowat tnumber

unfoldable pub sockopt_timeval_lua : (level opt : ℕ) → Ptr → Arg Seconds → Cmd (List Value)
unfolding lls_sockopt_timeval_lua
sockopt_timeval_lua level opt sp arg = do
  s ← gets λ st. st.socks sp
  lls_sockopt_timeval_lua s.fd level opt arg

unfoldable pub rcvtimeo_lua : Ptr → Arg Seconds → Cmd (List Value)
unfolding sockopt_timeval_lua
rcvtimeo_lua = sockopt_timeval_lua sol_socket so_rcvtimeo

unfoldable pub sndtimeo_lua : Ptr → Arg Seconds → Cmd (List Value)
unfolding sockopt_timeval_lua
sndtimeo_lua = sockopt_timeval_lua sol_socket so_sndtimeo

-- `l_linger >= 0`.
abbrev pub is_natural : ℤ → Bool
is_natural (pos n) = true
is_natural (negsuc n) = false

-- The reply's two numbers are `l_onoff` and `l_linger`.
unfoldable pub linger_lua : Ptr → Arg ℤ → Cmd (List Value)
linger_lua sp arg = do
  s ← gets λ st. st.socks sp
  g ← sys (Call.getsockopt s.fd sol_socket so_linger)
  let old = Value.integer (if g.num ==ℤ pos 0 then minus_one else g.num2)
  if not (g.ret ==ℤ pos 0)
      then fail_nil "getsockopt"
      else if is_none arg || is_none_or_nil arg
      then pure (old ∷ [])
      else do
        v ← check arg
        let l_linger = to_int v
        let l_onoff = if is_natural l_linger then pos 1 else pos 0
        r ← sys (Call.setsockopt s.fd sol_socket so_linger (l_onoff ∷ l_linger ∷ []))
        if r.ret ==ℤ pos 0 then pure (old ∷ []) else fail_nil "setsockopt"
