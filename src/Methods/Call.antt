-- ===== src/Methods/Call.antt =====
-- The arguments that each method of a socket takes, and the handler that runs.
use lua_llsocket.Prelude.{ℕ, Bool, true, false, List}
use lua_llsocket.Prelude.Int.{ℤ}
use lua_llsocket.Host.Lua.{Value, Arg, Addrinfo, Seconds}
use lua_llsocket.Host.{Ptr, St, Cmd, pure, ◌>>=◌, check}
use lua_llsocket.Finalise.{delgcfn_lua, addgcfn_lua}
use lua_llsocket.Life.{shutdown_lua, close_lua, unwrap_lua, dup_lua}
use lua_llsocket.Connect.{
  atmark_lua, getsockname_lua, getpeername_lua, listen_lua, connect_lua, sendable_lua, recvable_lua,
  bind_lua, protocol_lua, socktype_lua, family_lua, fd_lua,
}
use lua_llsocket.Io.{
  send_lua, sendto_lua, write_lua, sendfd_lua, recv_lua, read_lua, recvfrom_lua, recvfd_lua,
}
use lua_llsocket.Messages.{sendmsg_lua, recvmsg_lua}
use lua_llsocket.Sendfile.{sendfile_lua}
use lua_llsocket.Sockopt.{
  cloexec_lua, nonblock_lua, error_lua, acceptconn_lua, tcpnodelay_lua, tcpkeepintvl_lua,
  tcpkeepcnt_lua, tcpkeepalive_lua, tcpcork_lua, reuseport_lua, reuseaddr_lua, broadcast_lua,
  debug_lua, keepalive_lua, oobinline_lua, dontroute_lua, timestamp_lua, rcvbuf_lua, rcvlowat_lua,
  sndbuf_lua, sndlowat_lua, rcvtimeo_lua, sndtimeo_lua, linger_lua,
}
use lua_llsocket.Mcast.{
  mcastloop_lua, mcastttl_lua, mcastjoin_lua, mcastleave_lua, mcastjoinsrc_lua, mcastleavesrc_lua,
  mcastblocksrc_lua, mcastunblocksrc_lua,
}
use lua_llsocket.Create.{acceptfd_lua, accept_lua, acceptfd, acceptfd_portable}
use lua_llsocket.Mcast.Interface.{mcastif_lua}
use lua_llsocket.Messages.{Message}
use lua_llsocket.Sendfile.{File}
use lua_llsocket.Register.Functions.{SocketMethod}

-- The arguments behind the socket, as the handler's accessors see them.
abbrev pub Args : SocketMethod → Type 0
Args SocketMethod.addgcfn_lua = Arg (Unit {0}) × Arg (Unit {0})
Args SocketMethod.delgcfn_lua = Arg Ptr
Args SocketMethod.unwrap_lua = Unit {0}
Args SocketMethod.dup_lua = Unit {0}
Args SocketMethod.fd_lua = Unit {0}
Args SocketMethod.family_lua = Unit {0}
Args SocketMethod.socktype_lua = Unit {0}
Args SocketMethod.protocol_lua = Unit {0}
Args SocketMethod.bind_lua = Arg Addrinfo
Args SocketMethod.recvable_lua = Arg Seconds × Arg Bool
Args SocketMethod.sendable_lua = Arg Seconds × Arg Bool
Args SocketMethod.connect_lua = Arg Addrinfo
Args SocketMethod.shutdown_lua = Arg ℤ
Args SocketMethod.close_lua = Arg ℤ
Args SocketMethod.listen_lua = Arg ℤ
Args SocketMethod.accept_lua = Arg Bool
Args SocketMethod.acceptfd_lua = Unit {0}
Args SocketMethod.send_lua = Arg (List ℕ) × Arg ℤ
Args SocketMethod.sendto_lua = Arg (List ℕ) × Arg Addrinfo × Arg ℤ
Args SocketMethod.sendfd_lua = Arg ℤ × Arg Addrinfo × Arg ℤ
Args SocketMethod.sendmsg_lua = Arg Message × Arg ℤ
Args SocketMethod.sendfile_lua = Arg File × Arg ℤ × Arg ℤ
Args SocketMethod.recv_lua = Arg ℤ × Arg ℤ
Args SocketMethod.recvfrom_lua = Arg ℤ × Arg ℤ
Args SocketMethod.recvfd_lua = Arg ℤ
Args SocketMethod.recvmsg_lua = Arg Message × Arg ℤ
Args SocketMethod.write_lua = Arg (List ℕ)
Args SocketMethod.read_lua = Arg ℤ
Args SocketMethod.atmark_lua = Unit {0}
Args SocketMethod.getsockname_lua = Unit {0}
Args SocketMethod.getpeername_lua = Unit {0}
Args SocketMethod.cloexec_lua = Arg Bool
Args SocketMethod.nonblock_lua = Arg Bool
Args SocketMethod.error_lua = Arg ℤ
Args SocketMethod.acceptconn_lua = Arg ℤ
Args SocketMethod.tcpnodelay_lua = Arg ℤ
Args SocketMethod.tcpkeepintvl_lua = Arg ℤ
Args SocketMethod.tcpkeepcnt_lua = Arg ℤ
Args SocketMethod.tcpkeepalive_lua = Arg ℤ
Args SocketMethod.tcpcork_lua = Arg ℤ
Args SocketMethod.reuseport_lua = Arg ℤ
Args SocketMethod.reuseaddr_lua = Arg ℤ
Args SocketMethod.broadcast_lua = Arg ℤ
Args SocketMethod.debug_lua = Arg ℤ
Args SocketMethod.keepalive_lua = Arg ℤ
Args SocketMethod.oobinline_lua = Arg ℤ
Args SocketMethod.dontroute_lua = Arg ℤ
Args SocketMethod.timestamp_lua = Arg ℤ
Args SocketMethod.rcvbuf_lua = Arg ℤ
Args SocketMethod.rcvlowat_lua = Arg ℤ
Args SocketMethod.sndbuf_lua = Arg ℤ
Args SocketMethod.sndlowat_lua = Arg ℤ
Args SocketMethod.rcvtimeo_lua = Arg Seconds
Args SocketMethod.sndtimeo_lua = Arg Seconds
Args SocketMethod.linger_lua = Arg ℤ
Args SocketMethod.mcastloop_lua = Arg ℤ
Args SocketMethod.mcastttl_lua = Arg ℤ
Args SocketMethod.mcastif_lua = Arg (List ℕ)
Args SocketMethod.mcastjoin_lua = Arg Addrinfo × Arg (List ℕ)
Args SocketMethod.mcastleave_lua = Arg Addrinfo × Arg (List ℕ)
Args SocketMethod.mcastjoinsrc_lua = Arg Addrinfo × Arg Addrinfo × Arg (List ℕ)
Args SocketMethod.mcastleavesrc_lua = Arg Addrinfo × Arg Addrinfo × Arg (List ℕ)
Args SocketMethod.mcastblocksrc_lua = Arg Addrinfo × Arg Addrinfo × Arg (List ℕ)
Args SocketMethod.mcastunblocksrc_lua = Arg Addrinfo × Arg Addrinfo × Arg (List ℕ)

-- The handler that the array of methods names. `fin` and `fuel` are those of the handlers that run
-- finalisers, and `has_accept4` chooses the variant of `acceptfd`.
abbrev pub acceptfd_of : Bool → ℤ → Bool → Cmd (ℤ × List ℕ × ℕ)
acceptfd_of true = acceptfd
acceptfd_of false = acceptfd_portable

module _ (fin : ℤ → St → St) (fuel : ℕ) (has_accept4 : Bool) where
  unfoldable pub call : (f : SocketMethod) → Args f → Ptr → Cmd (List Value)
  call SocketMethod.addgcfn_lua (err, fn) sp = addgcfn_lua sp err fn
  call SocketMethod.delgcfn_lua node sp = delgcfn_lua sp node
  call SocketMethod.unwrap_lua u sp = unwrap_lua fin fuel sp
  call SocketMethod.dup_lua u sp = dup_lua sp
  call SocketMethod.fd_lua u sp = fd_lua sp
  call SocketMethod.family_lua u sp = family_lua sp
  call SocketMethod.socktype_lua u sp = socktype_lua sp
  call SocketMethod.protocol_lua u sp = protocol_lua sp
  call SocketMethod.bind_lua ai sp = bind_lua sp ai
  call SocketMethod.recvable_lua (sec, except) sp = recvable_lua sp sec except
  call SocketMethod.sendable_lua (sec, except) sp = sendable_lua sp sec except
  call SocketMethod.connect_lua ai sp = connect_lua sp ai
  call SocketMethod.shutdown_lua how sp = shutdown_lua sp how
  call SocketMethod.close_lua how sp = close_lua fin fuel sp how
  call SocketMethod.listen_lua backlog sp = listen_lua sp backlog
  call SocketMethod.accept_lua with_ai sp = accept_lua (acceptfd_of has_accept4) sp with_ai
  call SocketMethod.acceptfd_lua u sp = acceptfd_lua (acceptfd_of has_accept4) sp
  call SocketMethod.send_lua (msg, flag) sp = send_lua sp msg flag
  call SocketMethod.sendto_lua (msg, ai, flag) sp = sendto_lua sp msg ai flag
  call SocketMethod.sendfd_lua (fd, ai, flag) sp = sendfd_lua sp fd ai flag
  call SocketMethod.sendmsg_lua (mh, flag) sp = do
    lmsg ← check mh
    (vs, lmsg') ← sendmsg_lua sp lmsg flag
    pure vs
  call SocketMethod.sendfile_lua (file, bytes, offset) sp = sendfile_lua sp file bytes offset
  call SocketMethod.recv_lua (bufsize, flag) sp = recv_lua sp bufsize flag
  call SocketMethod.recvfrom_lua (bufsize, flag) sp = recvfrom_lua sp bufsize flag
  call SocketMethod.recvfd_lua flag sp = recvfd_lua sp flag
  call SocketMethod.recvmsg_lua (mh, flag) sp = do
    lmsg ← check mh
    (vs, lmsg') ← recvmsg_lua sp lmsg flag
    pure vs
  call SocketMethod.write_lua msg sp = write_lua sp msg
  call SocketMethod.read_lua bufsize sp = read_lua sp bufsize
  call SocketMethod.atmark_lua u sp = atmark_lua sp
  call SocketMethod.getsockname_lua u sp = getsockname_lua sp
  call SocketMethod.getpeername_lua u sp = getpeername_lua sp
  call SocketMethod.cloexec_lua v sp = cloexec_lua sp v
  call SocketMethod.nonblock_lua v sp = nonblock_lua sp v
  call SocketMethod.error_lua v sp = error_lua sp v
  call SocketMethod.acceptconn_lua v sp = acceptconn_lua sp v
  call SocketMethod.tcpnodelay_lua v sp = tcpnodelay_lua sp v
  call SocketMethod.tcpkeepintvl_lua v sp = tcpkeepintvl_lua sp v
  call SocketMethod.tcpkeepcnt_lua v sp = tcpkeepcnt_lua sp v
  call SocketMethod.tcpkeepalive_lua v sp = tcpkeepalive_lua sp v
  call SocketMethod.tcpcork_lua v sp = tcpcork_lua sp v
  call SocketMethod.reuseport_lua v sp = reuseport_lua sp v
  call SocketMethod.reuseaddr_lua v sp = reuseaddr_lua sp v
  call SocketMethod.broadcast_lua v sp = broadcast_lua sp v
  call SocketMethod.debug_lua v sp = debug_lua sp v
  call SocketMethod.keepalive_lua v sp = keepalive_lua sp v
  call SocketMethod.oobinline_lua v sp = oobinline_lua sp v
  call SocketMethod.dontroute_lua v sp = dontroute_lua sp v
  call SocketMethod.timestamp_lua v sp = timestamp_lua sp v
  call SocketMethod.rcvbuf_lua v sp = rcvbuf_lua sp v
  call SocketMethod.rcvlowat_lua v sp = rcvlowat_lua sp v
  call SocketMethod.sndbuf_lua v sp = sndbuf_lua sp v
  call SocketMethod.sndlowat_lua v sp = sndlowat_lua sp v
  call SocketMethod.rcvtimeo_lua v sp = rcvtimeo_lua sp v
  call SocketMethod.sndtimeo_lua v sp = sndtimeo_lua sp v
  call SocketMethod.linger_lua v sp = linger_lua sp v
  call SocketMethod.mcastloop_lua v sp = mcastloop_lua sp v
  call SocketMethod.mcastttl_lua v sp = mcastttl_lua sp v
  call SocketMethod.mcastif_lua ifname sp = mcastif_lua sp ifname
  call SocketMethod.mcastjoin_lua (grp, ifname) sp = mcastjoin_lua sp grp ifname
  call SocketMethod.mcastleave_lua (grp, ifname) sp = mcastleave_lua sp grp ifname
  call SocketMethod.mcastjoinsrc_lua (grp, src, ifname) sp = mcastjoinsrc_lua sp grp src ifname
  call SocketMethod.mcastleavesrc_lua (grp, src, ifname) sp = mcastleavesrc_lua sp grp src ifname
  call SocketMethod.mcastblocksrc_lua (grp, src, ifname) sp = mcastblocksrc_lua sp grp src ifname
  call SocketMethod.mcastunblocksrc_lua (grp, src, ifname) sp =
      mcastunblocksrc_lua sp grp src ifname
