-- ===== src/Mcast/Interface.antt =====
-- The interface of outgoing multicast: src/socket.c, `mcastif4_lua`, `mcastif6_lua` and
-- `mcastif_lua`.
use lua_llsocket.Prelude.{
  ℕ, ◌==◌, Bool, true, false, ◌&&◌, not, Option, none, some, List, [], ◌∷◌, if◌then◌else◌, take,
}
use lua_llsocket.Prelude.Int.{ℤ, pos, ◌==ℤ◌, to_unsigned}
use lua_llsocket.Prelude.Bytes.{to_le, from_le}
use lua_llsocket.Host.Os.{Call, Ifaddrs}
use lua_llsocket.Host.Lua.{Value, Arg}
use lua_llsocket.Host.Consts.{
  ipproto_ip, ipproto_ipv6, ip_multicast_if, ipv6_multicast_if, af_inet, enxio,
}
use lua_llsocket.Host.{Ptr, Socket, St, Cmd, pure, raise, crashed, ◌>>=◌, ◌>>◌, gets, sys, fail_nil}
use lua_llsocket.Mcast.{by_family, sin_addr, ifr_name, in_addr_any}

-- The family of the address that `ifa_addr` points to.
unfoldable pub sa_family : List ℕ → ℤ
unfolding from_le
sa_family addr = pos (from_le (take 2 addr))

-- Bytes that agree.
abbrev pub same_bytes : List ℕ → List ℕ → Bool
same_bytes [] [] = true
same_bytes [] (y ∷ ys) = false
same_bytes (x ∷ xs) [] = false
same_bytes (x ∷ xs) (y ∷ ys) = x == y && same_bytes xs ys

-- The test of the loop of `mcastif4_lua`, which reads `ifa_addr` without asking whether it is NULL;
-- `next` is the rest of the loop.
abbrev pub match_if4 : List ℕ → List ℕ → Option (List ℕ) → Cmd Value → Cmd Value
match_if4 addr ifa_name none next = λ st. (crashed, st)
match_if4 addr ifa_name (some ifa_addr) next =
    if sa_family ifa_addr ==ℤ af_inet && same_bytes addr (sin_addr ifa_addr)
    then pure (Value.string ifa_name)
    else next

-- The loop: the name of the first interface with the address `addr`.
unfoldable pub find_if4 : List ℕ → List Ifaddrs → Cmd Value
find_if4 addr [] = pure Value.nil
find_if4 addr (ptr ∷ rest) = match_if4 addr ptr.ifa_name ptr.ifa_addr (find_if4 addr rest)

-- Setting the option to `value`; `old` is what has been pushed.
abbrev pub set_if : ℤ → (level opt : ℕ) → List ℕ → Value → Cmd (List Value)
set_if fd level opt value old = do
  r ← sys (Call.setsockopt_bytes fd level opt value)
  if r.ret ==ℤ pos 0 then pure (old ∷ []) else fail_nil "setsockopt"

unfoldable pub mcastif4_set : Socket → Arg (List ℕ) → Value → Cmd (List Value)
mcastif4_set s Arg.absent old = pure (old ∷ [])
mcastif4_set s Arg.null old = set_if s.fd ipproto_ip ip_multicast_if in_addr_any old
mcastif4_set s Arg.wrong old = raise
mcastif4_set s (Arg.given ifname) old = do
  r ← sys (Call.ioctl_gifaddr s.fd (ifr_name ifname))
  if not (r.ret ==ℤ pos 0)
      then fail_nil "ioctl"
      else set_if s.fd ipproto_ip ip_multicast_if (sin_addr r.bytes) old

unfoldable pub mcastif4_lua : Socket → Arg (List ℕ) → Cmd (List Value)
unfolding find_if4 mcastif4_set
mcastif4_lua s arg = do
  g ← sys (Call.getsockopt s.fd ipproto_ip ip_multicast_if)
  if not (g.ret ==ℤ pos 0) then fail_nil "getsockopt" else do
    l ← sys Call.getifaddrs
    if not (l.ret ==ℤ pos 0)
        then fail_nil "getifaddrs"
        else do old ← find_if4 g.bytes l.ifas; sys Call.freeifaddrs; mcastif4_set s arg old

unfoldable pub mcastif6_set : Socket → Arg (List ℕ) → Value → Cmd (List Value)
unfolding to_le
mcastif6_set s Arg.absent old = pure (old ∷ [])
mcastif6_set s Arg.null old = set_if s.fd ipproto_ipv6 ipv6_multicast_if (to_le 4 0) old
mcastif6_set s Arg.wrong old = raise
mcastif6_set s (Arg.given ifname) old = do
  r ← sys (Call.if_nametoindex ifname)
  if to_unsigned 32 r.ret == 0
      then fail_nil "if_nametoindex"
      else set_if s.fd ipproto_ipv6 ipv6_multicast_if (to_le 4 (to_unsigned 32 r.ret)) old

-- `if_indextoname` returns NULL where the reply's `ret` is 0.
unfoldable pub mcastif6_lua : Socket → Arg (List ℕ) → Cmd (List Value)
unfolding mcastif6_set from_le
mcastif6_lua s arg = do
  g ← sys (Call.getsockopt s.fd ipproto_ipv6 ipv6_multicast_if)
  if not (g.ret ==ℤ pos 0) then fail_nil "getsockopt" else do
    n ← sys (Call.if_indextoname (from_le (take 4 g.bytes)))
    e ← gets St.errno
    if not (n.ret ==ℤ pos 0)
        then mcastif6_set s arg (Value.string n.bytes)
        else if e == enxio
        then mcastif6_set s arg Value.nil
        else fail_nil "if_indextoname"

unfoldable pub mcastif_lua : Ptr → Arg (List ℕ) → Cmd (List Value)
unfolding mcastif4_lua mcastif6_lua
mcastif_lua sp arg = do
  s ← gets λ st. st.socks sp
  by_family fail_nil "mcastif_lua" s (mcastif4_lua s arg) (mcastif6_lua s arg)
