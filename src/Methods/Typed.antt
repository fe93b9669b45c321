-- ===== src/Methods/Typed.antt =====
-- Every method of a socket answers as doc/socket.md says.
use lua_llsocket.Prelude.{ℕ, String, ◌≡◌, refl, Bool, true, false, ◌||◌, List, [], ◌∷◌, arith}
use lua_llsocket.Prelude.Int.{ℤ}
use lua_llsocket.Host.Lua.{Arg, Addrinfo}
use lua_llsocket.Host.{Ptr, St, gets, fail_nil, fail_false, ◌>>=◌, ◌>>◌, set_errno}
use lua_llsocket.Host.Consts.{
  eafnosupport, esocktnosupport, fd_cloexec, f_setfd, f_setfl, f_getfl, f_getfd, sol_socket,
  o_nonblock, ip_multicast_loop, ip_multicast_ttl, so_debug, so_rcvlowat, mcast_leave_source_group,
  so_keepalive, ipproto_ip, so_timestamp, ipproto_tcp, tcp_keepintvl, ip_add_source_membership,
  ipv6_multicast_hops, so_rcvbuf, so_sndtimeo, ip_drop_source_membership, tcp_keepidle, so_rcvtimeo,
  ipproto_ipv6, ipv6_leave_group, so_broadcast, ipv6_join_group, so_reuseport, ip_block_source,
  ip_add_membership, tcp_keepcnt, mcast_unblock_source, tcp_nodelay, ip_drop_membership,
  so_reuseaddr, so_sndbuf, mcast_block_source, so_acceptconn, so_oobinline, so_dontroute,
  ip_unblock_source, mcast_join_source_group, tcp_cork, ipv6_multicast_loop, so_sndlowat,
}
use lua_llsocket.Sockopt.{
  LuaType, lls_sockopt_int_lua, acceptconn_lua, tcpnodelay_lua, tcpkeepintvl_lua, tcpkeepcnt_lua,
  tcpkeepalive_lua, tcpcork_lua, reuseport_lua, reuseaddr_lua, broadcast_lua, debug_lua,
  keepalive_lua, oobinline_lua, dontroute_lua, timestamp_lua, rcvbuf_lua, rcvlowat_lua, sndbuf_lua,
  sndlowat_lua, rcvtimeo_lua, sndtimeo_lua, cloexec_lua, nonblock_lua,
}
use lua_llsocket.Mcast.{
  by_family, mcast4group_lua, mcast6group_lua, mcast4srcgroup_lua, mcastsrcgroup_lua, mcastloop_lua,
  mcastttl_lua, mcastjoin_lua, mcastleave_lua, mcastjoinsrc_lua, mcastleavesrc_lua,
  mcastblocksrc_lua, mcastunblocksrc_lua,
}
use lua_llsocket.Register.Functions.{SocketMethod}
use lua_llsocket.Methods.Call.{Args, call}
use lua_llsocket.Methods.Types.{Ty, is_end, is_missing, is_wrong}
use lua_llsocket.Methods.Documented.{is_documented}
use lua_llsocket.Methods.Ends.{IsEnding, gets-IsEnding}
use lua_llsocket.Methods.Options.{
  option_type, lls_sockopt_int-IsEnding, sockopt_int-ends, sockopt_timeval-ends, lls_fcntl-ends,
  linger-ends, error-ends,
}
use lua_llsocket.Methods.Groups.{
  by_family-IsEnding, of_group, of_family-IsEnding, mcast4group-IsEnding, mcast6group-IsEnding,
  mcast4srcgroup-IsEnding, mcastsrcgroup-IsEnding,
}
use lua_llsocket.Methods.Outgoing.{mcastif-ends}
use lua_llsocket.Methods.Plain.{
  addgcfn-ends, delgcfn-ends, dup-ends, fd-ends, family-ends, socktype-ends, protocol-ends,
  bind-ends, recvable-ends, sendable-ends, connect-ends, shutdown-ends, listen-ends, atmark-ends,
  getsockname-ends, getpeername-ends,
}
use lua_llsocket.Methods.Sending.{
  send-IsEnding, sendto-IsEnding, write-IsEnding, sendmsg-IsEnding, sendfd-ends, sendfile-ends,
}
use lua_llsocket.Methods.Receiving.{
  recv-IsEnding, read-IsEnding, recvfrom-IsEnding, recvfd-IsEnding, recvmsg-IsEnding,
}
use lua_llsocket.Methods.Ending.{
  close-IsEnding, unwrap-IsEnding, accept-IsEnding, acceptfd-IsEnding,
}

unsupported-IsEnding :
    (type : LuaType) (r : Bool) (e : ℕ) (op : String)
    → IsEnding
        (is_end (option_type type ∷ Ty.error ∷ []) false r false false)
        (set_errno e >> fail_nil op)
unsupported-IsEnding LuaType.tboolean r e op = record { ends = λ st. refl }
unsupported-IsEnding LuaType.tnumber r e op = record { ends = λ st. refl }

-- The two families of an option, of a group, and of a group with a source.
option_by_family :
    (op : String) (level4 opt4 level6 opt6 : ℕ) (type : LuaType) (arg : Arg ℤ) (sp : Ptr)
    → IsEnding (is_end (option_type type ∷ Ty.error ∷ []) false (is_wrong arg) false false) (do
      s ← gets λ st. st.socks sp
      by_family fail_nil op s
          (lls_sockopt_int_lua s.fd level4 opt4 type arg)
          (lls_sockopt_int_lua s.fd level6 opt6 type arg))
option_by_family op level4 opt4 level6 opt6 type arg sp =
    gets-IsEnding (λ st. st.socks sp) _
      λ s.
        by_family-IsEnding fail_nil op s _ _
          (unsupported-IsEnding type (is_wrong arg) eafnosupport op)
          (unsupported-IsEnding type (is_wrong arg) esocktnosupport op)
          (lls_sockopt_int-IsEnding s.fd level4 opt4 type arg)
          (lls_sockopt_int-IsEnding s.fd level6 opt6 type arg)

group_by_family :
    (op : String) (opt4 opt6 : ℕ) (grp : Arg Addrinfo) (ifname : Arg (List ℕ)) (sp : Ptr)
    → IsEnding (of_group (is_missing grp || is_wrong ifname)) (do
      s ← gets λ st. st.socks sp
      by_family fail_false op s
          (mcast4group_lua s opt4 grp ifname)
          (mcast6group_lua s opt6 grp ifname))
group_by_family op opt4 opt6 grp ifname sp =
    of_family-IsEnding _ op _ _ sp
      (λ s.
        mcast4group-IsEnding _ s opt4 grp ifname (λ h. ground (arith, h)) (λ h. ground (arith, h)))
      λ s.
        mcast6group-IsEnding _ s opt6 grp ifname (λ h. ground (arith, h)) (λ h. ground (arith, h))

srcgroup_by_family :
    (op : String) (opt4 proto opt6 : ℕ) (grp src : Arg Addrinfo) (ifname : Arg (List ℕ)) (sp : Ptr)
    → IsEnding (of_group (is_missing grp || is_missing src || is_wrong ifname)) (do
      s ← gets λ st. st.socks sp
      by_family fail_false op s
          (mcast4srcgroup_lua s opt4 grp src ifname)
          (mcastsrcgroup_lua s proto opt6 grp src ifname))
srcgroup_by_family op opt4 proto opt6 grp src ifname sp =
    let one : is_missing grp ≡ true → (is_missing grp || is_missing src || is_wrong ifname) ≡ true =
      λ h. ground (arith, h) in
    let two : is_missing src ≡ true → (is_missing grp || is_missing src || is_wrong ifname) ≡ true =
      λ h. ground (arith, h) in
    let three : is_wrong ifname ≡ true
        → (is_missing grp || is_missing src || is_wrong ifname) ≡ true =
      λ h. ground (arith, h) in
    of_family-IsEnding _ op _ _ sp
      (λ s. mcast4srcgroup-IsEnding _ s opt4 grp src ifname one two three)
      λ s. mcastsrcgroup-IsEnding _ s proto opt6 grp src ifname one two three

module _ (fin : ℤ → St → St) (fuel : ℕ) (has_accept4 : Bool) where
  -- Call any method of a socket with any arguments, in any state, on any operating system. If it
  -- returns, it leaves no more values than doc/socket.md names, each of the type named there or nil.
  -- A nil in the first place comes with an error object behind it, or with true in the third place, but
  -- for mcastif and error, where it says that there is no interface and no error; and an error object
  -- in the second place stands behind nil or false, but for connect. It raises a Lua
  -- error only where a required argument is not of its type or an optional one is refused. It runs
  -- out of fuel only if it is close or unwrap, which run finalisers, and reads through a null
  -- pointer only if it is mcastif.
  pub call-is_documented :
      (f : SocketMethod) (a : Args f) (sp : Ptr) (st : St)
      → is_documented f a (call fin fuel has_accept4 f a sp st).0 ≡ true
  unfolding call cloexec_lua nonblock_lua acceptconn_lua tcpnodelay_lua tcpkeepintvl_lua
      tcpkeepcnt_lua tcpkeepalive_lua tcpcork_lua reuseport_lua reuseaddr_lua broadcast_lua
      debug_lua keepalive_lua oobinline_lua dontroute_lua timestamp_lua rcvbuf_lua rcvlowat_lua
      sndbuf_lua sndlowat_lua rcvtimeo_lua sndtimeo_lua mcastloop_lua mcastttl_lua mcastjoin_lua
      mcastleave_lua mcastjoinsrc_lua mcastleavesrc_lua mcastblocksrc_lua mcastunblocksrc_lua
  call-is_documented SocketMethod.addgcfn_lua (err, fn) sp st = addgcfn-ends err fn sp st
  call-is_documented SocketMethod.delgcfn_lua node sp st = delgcfn-ends node sp st
  call-is_documented SocketMethod.unwrap_lua u sp st = (unwrap-IsEnding fin fuel sp).ends st
  call-is_documented SocketMethod.dup_lua u sp st = dup-ends sp st
  call-is_documented SocketMethod.fd_lua u sp st = fd-ends sp st
  call-is_documented SocketMethod.family_lua u sp st = family-ends sp st
  call-is_documented SocketMethod.socktype_lua u sp st = socktype-ends sp st
  call-is_documented SocketMethod.protocol_lua u sp st = protocol-ends sp st
  call-is_documented SocketMethod.bind_lua ai sp st = bind-ends ai sp st
  call-is_documented SocketMethod.recvable_lua (sec, except) sp st = recvable-ends sec except sp st
  call-is_documented SocketMethod.sendable_lua (sec, except) sp st = sendable-ends sec except sp st
  call-is_documented SocketMethod.connect_lua ai sp st = connect-ends ai sp st
  call-is_documented SocketMethod.shutdown_lua how sp st = shutdown-ends how sp st
  call-is_documented SocketMethod.close_lua how sp st = (close-IsEnding fin fuel sp how).ends st
  call-is_documented SocketMethod.listen_lua backlog sp st = listen-ends backlog sp st
  call-is_documented SocketMethod.accept_lua with_ai sp st =
      (accept-IsEnding has_accept4 sp with_ai).ends st
  call-is_documented SocketMethod.acceptfd_lua u sp st = (acceptfd-IsEnding has_accept4 sp).ends st
  call-is_documented SocketMethod.send_lua (msg, flag) sp st = (send-IsEnding sp msg flag).ends st
  call-is_documented SocketMethod.sendto_lua (msg, ai, flag) sp st =
      (sendto-IsEnding sp msg ai flag).ends st
  call-is_documented SocketMethod.sendfd_lua (fd, ai, flag) sp st = sendfd-ends fd ai flag sp st
  call-is_documented SocketMethod.sendmsg_lua (mh, flag) sp st =
      (sendmsg-IsEnding sp mh flag).ends st
  call-is_documented SocketMethod.sendfile_lua (file, bytes, offset) sp st =
      sendfile-ends file bytes offset sp st
  call-is_documented SocketMethod.recv_lua (bufsize, flag) sp st =
      (recv-IsEnding sp bufsize flag).ends st
  call-is_documented SocketMethod.recvfrom_lua (bufsize, flag) sp st =
      (recvfrom-IsEnding sp bufsize flag).ends st
  call-is_documented SocketMethod.recvfd_lua flag sp st = (recvfd-IsEnding sp flag).ends st
  call-is_documented SocketMethod.recvmsg_lua (mh, flag) sp st =
      (recvmsg-IsEnding sp mh flag).ends st
  call-is_documented SocketMethod.write_lua msg sp st = (write-IsEnding sp msg).ends st
  call-is_documented SocketMethod.read_lua bufsize sp st = (read-IsEnding sp bufsize).ends st
  call-is_documented SocketMethod.atmark_lua u sp st = atmark-ends sp st
  call-is_documented SocketMethod.getsockname_lua u sp st = getsockname-ends sp st
  call-is_documented SocketMethod.getpeername_lua u sp st = getpeername-ends sp st
  call-is_documented SocketMethod.cloexec_lua v sp st =
      lls_fcntl-ends (st.socks sp).fd f_getfd f_setfd fd_cloexec v st
  call-is_documented SocketMethod.nonblock_lua v sp st =
      lls_fcntl-ends (st.socks sp).fd f_getfl f_setfl o_nonblock v st
  call-is_documented SocketMethod.error_lua v sp st = error-ends v sp st
  call-is_documented SocketMethod.acceptconn_lua v sp st =
      sockopt_int-ends sol_socket so_acceptconn LuaType.tboolean v sp st
  call-is_documented SocketMethod.tcpnodelay_lua v sp st =
      sockopt_int-ends ipproto_tcp tcp_nodelay LuaType.tboolean v sp st
  call-is_documented SocketMethod.tcpkeepintvl_lua v sp st =
      sockopt_int-ends ipproto_tcp tcp_keepintvl LuaType.tnumber v sp st
  call-is_documented SocketMethod.tcpkeepcnt_lua v sp st =
      sockopt_int-ends ipproto_tcp tcp_keepcnt LuaType.tnumber v sp st
  call-is_documented SocketMethod.tcpkeepalive_lua v sp st =
      sockopt_int-ends ipproto_tcp tcp_keepidle LuaType.tnumber v sp st
  call-is_documented SocketMethod.tcpcork_lua v sp st =
      sockopt_int-ends ipproto_tcp tcp_cork LuaType.tboolean v sp st
  call-is_documented SocketMethod.reuseport_lua v sp st =
      sockopt_int-ends sol_socket so_reuseport LuaType.tboolean v sp st
  call-is_documented SocketMethod.reuseaddr_lua v sp st =
      sockopt_int-ends sol_socket so_reuseaddr LuaType.tboolean v sp st
  call-is_documented SocketMethod.broadcast_lua v sp st =
      sockopt_int-ends sol_socket so_broadcast LuaType.tboolean v sp st
  call-is_documented SocketMethod.debug_lua v sp st =
      sockopt_int-ends sol_socket so_debug LuaType.tboolean v sp st
  call-is_documented SocketMethod.keepalive_lua v sp st =
      sockopt_int-ends sol_socket so_keepalive LuaType.tboolean v sp st
  call-is_documented SocketMethod.oobinline_lua v sp st =
      sockopt_int-ends sol_socket so_oobinline LuaType.tboolean v sp st
  call-is_documented SocketMethod.dontroute_lua v sp st =
      sockopt_int-ends sol_socket so_dontroute LuaType.tboolean v sp st
  call-is_documented SocketMethod.timestamp_lua v sp st =
      sockopt_int-ends sol_socket so_timestamp LuaType.tboolean v sp st
  call-is_documented SocketMethod.rcvbuf_lua v sp st =
      sockopt_int-ends sol_socket so_rcvbuf LuaType.tnumber v sp st
  call-is_documented SocketMethod.rcvlowat_lua v sp st =
      sockopt_int-ends sol_socket so_rcvlowat LuaType.tnumber v sp st
  call-is_documented SocketMethod.sndbuf_lua v sp st =
      sockopt_int-ends sol_socket so_sndbuf LuaType.tnumber v sp st
  call-is_documented SocketMethod.sndlowat_lua v sp st =
      sockopt_int-ends sol_socket so_sndlowat LuaType.tnumber v sp st
  call-is_documented SocketMethod.rcvtimeo_lua v sp st =
      sockopt_timeval-ends sol_socket so_rcvtimeo v sp st
  call-is_documented SocketMethod.sndtimeo_lua v sp st =
      sockopt_timeval-ends sol_socket so_sndtimeo v sp st
  call-is_documented SocketMethod.linger_lua v sp st = linger-ends v sp st
  call-is_documented SocketMethod.mcastloop_lua v sp st =
      (option_by_family "mcastloop_lua" ipproto_ip ip_multicast_loop ipproto_ipv6
          ipv6_multicast_loop LuaType.tboolean v sp).ends
        st
  call-is_documented SocketMethod.mcastttl_lua v sp st =
      (option_by_family "mcastttl_lua" ipproto_ip ip_multicast_ttl ipproto_ipv6 ipv6_multicast_hops
          LuaType.tnumber v sp).ends
        st
  call-is_documented SocketMethod.mcastif_lua ifname sp st = mcastif-ends ifname sp st
  call-is_documented SocketMethod.mcastjoin_lua (grp, ifname) sp st =
      (group_by_family "mcastjoin_lua" ip_add_membership ipv6_join_group grp ifname sp).ends st
  call-is_documented SocketMethod.mcastleave_lua (grp, ifname) sp st =
      (group_by_family "mcastleave_lua" ip_drop_membership ipv6_leave_group grp ifname sp).ends st
  call-is_documented SocketMethod.mcastjoinsrc_lua (grp, src, ifname) sp st =
      (srcgroup_by_family "mcastjoinsrc_lua" ip_add_source_membership ipproto_ipv6
          mcast_join_source_group grp src ifname sp).ends
        st
  call-is_documented SocketMethod.mcastleavesrc_lua (grp, src, ifname) sp st =
      (srcgroup_by_family "mcastleavesrc_lua" ip_drop_source_membership ipproto_ipv6
          mcast_leave_source_group grp src ifname sp).ends
        st
  call-is_documented SocketMethod.mcastblocksrc_lua (grp, src, ifname) sp st =
      (srcgroup_by_family "mcastblocksrc_lua" ip_block_source ipproto_ipv6 mcast_block_source grp
          src ifname sp).ends
        st
  call-is_documented SocketMethod.mcastunblocksrc_lua (grp, src, ifname) sp st =
      (srcgroup_by_family "mcastunblocksrc_lua" ip_unblock_source ipproto_ipv6 mcast_unblock_source
          grp src ifname sp).ends
        st
