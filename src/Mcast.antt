-- ===== src/Mcast.antt =====
-- Multicast: src/socket.c, `mcastloop_lua` to `mcastunblocksrc_lua`, but for the interface setting.
pub mod Guard
pub mod Interface
pub mod Chosen
use lua_llsocket.Prelude.{
  ℕ, ◌-◌, ◌==◌, Bool, true, false, ◌||◌, not, String, List, [], ◌∷◌, ◌++◌, Option, none, some,
  if◌then◌else◌, take, drop, replicate, length,
}
use lua_llsocket.Prelude.Int.{ℤ, pos, ◌==ℤ◌, to_unsigned}
use lua_llsocket.Prelude.Bytes.{to_le}
use lua_llsocket.Host.Os.{Call}
use lua_llsocket.Host.Lua.{Value, Arg, Addrinfo}
use lua_llsocket.Host.Consts.{
  af_inet, af_inet6, sock_dgram, sock_raw, eafnosupport, esocktnosupport, ipproto_ip, ipproto_ipv6,
  ip_multicast_ttl, ip_multicast_loop, ipv6_multicast_hops, ipv6_multicast_loop, ip_add_membership,
  ip_drop_membership, ip_unblock_source, ip_block_source, ip_add_source_membership,
  ip_drop_source_membership, ipv6_join_group, ipv6_leave_group, mcast_block_source,
  mcast_unblock_source, mcast_join_source_group, mcast_leave_source_group,
}
use lua_llsocket.Host.{
  Ptr, Socket, Cmd, pure, ◌>>=◌, ◌>>◌, gets, sys, set_errno, check, fail_nil, fail_false,
}
use lua_llsocket.Io.{optional}
use lua_llsocket.Sockopt.{lls_sockopt_int_lua, LuaType}

-- The switch on the socket type and the family that every handler begins with. `unsupported` is
-- what it pushes before the error.
abbrev pub by_family :
    (String → Cmd (List Value))
    → String
    → Socket
    → (inet inet6 : Cmd (List Value)) → Cmd (List Value)
by_family unsupported op s inet inet6 =
    if s.socktype ==ℤ sock_raw || s.socktype ==ℤ sock_dgram
    then (if s.family ==ℤ af_inet
        then inet
        else if s.family ==ℤ af_inet6
        then inet6
        else set_errno eafnosupport >> unsupported op)
    else set_errno esocktnosupport >> unsupported op

unfoldable pub mcastloop_lua : Ptr → Arg ℤ → Cmd (List Value)
unfolding lls_sockopt_int_lua
mcastloop_lua sp arg = do
  s ← gets λ st. st.socks sp
  by_family fail_nil "mcastloop_lua" s
      (lls_sockopt_int_lua s.fd ipproto_ip ip_multicast_loop LuaType.tboolean arg)
      (lls_sockopt_int_lua s.fd ipproto_ipv6 ipv6_multicast_loop LuaType.tboolean arg)

unfoldable pub mcastttl_lua : Ptr → Arg ℤ → Cmd (List Value)
unfolding lls_sockopt_int_lua
mcastttl_lua sp arg = do
  s ← gets λ st. st.socks sp
  by_family fail_nil "mcastttl_lua" s
      (lls_sockopt_int_lua s.fd ipproto_ip ip_multicast_ttl LuaType.tnumber arg)
      (lls_sockopt_int_lua s.fd ipproto_ipv6 ipv6_multicast_hops LuaType.tnumber arg)

-- `sin_addr` and `sin6_addr` of the address that `ai_addr` points to.
abbrev pub sin_addr : List ℕ → List ℕ
sin_addr addr = take 4 (drop 4 addr)

abbrev pub sin6_addr : List ℕ → List ℕ
sin6_addr addr = take 16 (drop 8 addr)

-- `strncpy(ifr.ifr_name, ifname, IFNAMSIZ - 1)`.
abbrev pub ifr_name : List ℕ → List ℕ
ifr_name ifname = take 15 ifname

abbrev pub in_addr_any : List ℕ
in_addr_any = replicate 4 0

-- The last part of a group handler: the option is set, and true is answered.
abbrev pub set_group : ℤ → (level opt : ℕ) → List ℕ → Cmd (List Value)
set_group fd level opt mr = do
  r ← sys (Call.setsockopt_bytes fd level opt mr)
  if r.ret ==ℤ pos 0 then pure (Value.boolean true ∷ []) else fail_false "setsockopt"

-- The address of the interface `ifname` goes to `k`; no name stands for any interface.
abbrev pub with_interface4 : ℤ → Option (List ℕ) → (List ℕ → Cmd (List Value)) → Cmd (List Value)
with_interface4 fd none k = k in_addr_any
with_interface4 fd (some ifname) k = do
  r ← sys (Call.ioctl_gifaddr fd (ifr_name ifname))
  if r.ret ==ℤ pos 0 then k (sin_addr r.bytes) else fail_false "ioctl"

-- The index of the interface `ifname` goes to `k`; no name stands for the index 0.
abbrev pub with_interface6 : Option (List ℕ) → (ℕ → Cmd (List Value)) → Cmd (List Value)
with_interface6 none k = k 0
with_interface6 (some ifname) k = do
  r ← sys (Call.if_nametoindex ifname)
  if to_unsigned 32 r.ret == 0 then fail_false "if_nametoindex" else k (to_unsigned 32 r.ret)

-- `struct ip_mreq` holds the group and the interface.
unfoldable pub mcast4group_lua : Socket → ℕ → Arg Addrinfo → Arg (List ℕ) → Cmd (List Value)
mcast4group_lua s opt grp_arg ifname_arg = do
  grp ← check grp_arg
  ifname ← optional ifname_arg
  if not (grp.ai_family ==ℤ af_inet)
      then (do set_errno eafnosupport; fail_false "mcastif_lua")
      else with_interface4 s.fd ifname
          λ interface. set_group s.fd ipproto_ip opt (sin_addr grp.ai_addr ++ interface)

-- `struct ipv6_mreq` holds the group and the index of the interface.
unfoldable pub mcast6group_lua : Socket → ℕ → Arg Addrinfo → Arg (List ℕ) → Cmd (List Value)
unfolding to_le
mcast6group_lua s opt grp_arg ifname_arg = do
  grp ← check grp_arg
  ifname ← optional ifname_arg
  if not (grp.ai_family ==ℤ af_inet6)
      then (do set_errno eafnosupport; fail_false "mcast6group_lua")
      else with_interface6 ifname
          λ interface. set_group s.fd ipproto_ipv6 opt (sin6_addr grp.ai_addr ++ to_le 4 interface)

-- The first `ai_addrlen` bytes of an address in a zeroed `struct sockaddr_storage`.
abbrev pub storage : Addrinfo → List ℕ
storage info = take 128 (take info.ai_addrlen info.ai_addr ++ replicate (128 - info.ai_addrlen) 0)

-- `struct group_source_req` holds the index of the interface, padding, the group and the source.
unfoldable pub mcastsrcgroup_lua :
    Socket → (proto opt : ℕ) → (grp src : Arg Addrinfo) → Arg (List ℕ) → Cmd (List Value)
unfolding to_le
mcastsrcgroup_lua s proto opt grp_arg src_arg ifname_arg = do
  grp ← check grp_arg
  src ← check src_arg
  ifname ← optional ifname_arg
  if not (grp.ai_family ==ℤ af_inet6) || not (src.ai_family ==ℤ af_inet6)
      then (do set_errno eafnosupport; fail_false "mcastsrcgroup_lua")
      else with_interface6 ifname λ interface.
        set_group s.fd proto opt
          (to_le 4 interface ++ (replicate 4 0 ++ (storage grp ++ storage src)))

-- `struct ip_mreq_source` holds the group, the interface and the source.
unfoldable pub mcast4srcgroup_lua :
    Socket → ℕ → (grp src : Arg Addrinfo) → Arg (List ℕ) → Cmd (List Value)
mcast4srcgroup_lua s opt grp_arg src_arg ifname_arg = do
  grp ← check grp_arg
  src ← check src_arg
  ifname ← optional ifname_arg
  if not (grp.ai_family ==ℤ af_inet) || not (src.ai_family ==ℤ af_inet)
      then (do set_errno eafnosupport; fail_false "mcast4srcgroup_lua")
      else with_interface4 s.fd ifname λ interface.
        set_group s.fd ipproto_ip opt (sin_addr grp.ai_addr ++ (interface ++ sin_addr src.ai_addr))

unfoldable pub mcastjoin_lua : Ptr → Arg Addrinfo → Arg (List ℕ) → Cmd (List Value)
unfolding mcast4group_lua mcast6group_lua
mcastjoin_lua sp grp ifname = do
  s ← gets λ st. st.socks sp
  by_family fail_false "mcastjoin_lua" s (mcast4group_lua s ip_add_membership grp ifname)
      (mcast6group_lua s ipv6_join_group grp ifname)

unfoldable pub mcastleave_lua : Ptr → Arg Addrinfo → Arg (List ℕ) → Cmd (List Value)
unfolding mcast4group_lua mcast6group_lua
mcastleave_lua sp grp ifname = do
  s ← gets λ st. st.socks sp
  by_family fail_false "mcastleave_lua" s (mcast4group_lua s ip_drop_membership grp ifname)
      (mcast6group_lua s ipv6_leave_group grp ifname)

unfoldable pub mcastjoinsrc_lua : Ptr → (grp src : Arg Addrinfo) → Arg (List ℕ) → Cmd (List Value)
unfolding mcast4srcgroup_lua mcastsrcgroup_lua
mcastjoinsrc_lua sp grp src ifname = do
  s ← gets λ st. st.socks sp
  by_family fail_false "mcastjoinsrc_lua" s
      (mcast4srcgroup_lua s ip_add_source_membership grp src ifname)
      (mcastsrcgroup_lua s ipproto_ipv6 mcast_join_source_group grp src ifname)

unfoldable pub mcastleavesrc_lua : Ptr → (grp src : Arg Addrinfo) → Arg (List ℕ) → Cmd (List Value)
unfolding mcast4srcgroup_lua mcastsrcgroup_lua
mcastleavesrc_lua sp grp src ifname = do
  s ← gets λ st. st.socks sp
  by_family fail_false "mcastleavesrc_lua" s
      (mcast4srcgroup_lua s ip_drop_source_membership grp src ifname)
      (mcastsrcgroup_lua s ipproto_ipv6 mcast_leave_source_group grp src ifname)

unfoldable pub mcastblocksrc_lua : Ptr → (grp src : Arg Addrinfo) → Arg (List ℕ) → Cmd (List Value)
unfolding mcast4srcgroup_lua mcastsrcgroup_lua
mcastblocksrc_lua sp grp src ifname = do
  s ← gets λ st. st.socks sp
  by_family fail_false "mcastblocksrc_lua" s (mcast4srcgroup_lua s ip_block_source grp src ifname)
      (mcastsrcgroup_lua s ipproto_ipv6 mcast_block_source grp src ifname)

unfoldable pub mcastunblocksrc_lua :
    Ptr → (grp src : Arg Addrinfo) → Arg (List ℕ) → Cmd (List Value)
unfolding mcast4srcgroup_lua mcastsrcgroup_lua
mcastunblocksrc_lua sp grp src ifname = do
  s ← gets λ st. st.socks sp
  by_family fail_false "mcastunblocksrc_lua" s
      (mcast4srcgroup_lua s ip_unblock_source grp src ifname)
      (mcastsrcgroup_lua s ipproto_ipv6 mcast_unblock_source grp src ifname)
