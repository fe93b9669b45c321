-- ===== src/Methods/Documented.antt =====
-- What doc/socket.md says of each method.
use lua_llsocket.Prelude.{Bool, true, false, ◌||◌, List, [], ◌∷◌}
use lua_llsocket.Host.Lua.{Value}
use lua_llsocket.Host.{Outcome}
use lua_llsocket.Register.Functions.{SocketMethod}
use lua_llsocket.Methods.Types.{Ty, is_missing, is_wrong, is_end}
use lua_llsocket.Methods.Call.{Args}

-- The answers of each method, from the headings of the document.
abbrev pub documented : SocketMethod → List Ty
documented SocketMethod.addgcfn_lua = Ty.gcfn ∷ Ty.error ∷ []
documented SocketMethod.delgcfn_lua = Ty.boolean ∷ []
documented SocketMethod.unwrap_lua = Ty.integer ∷ []
documented SocketMethod.dup_lua = Ty.socket ∷ Ty.error ∷ []
documented SocketMethod.fd_lua = Ty.integer ∷ []
documented SocketMethod.family_lua = Ty.integer ∷ []
documented SocketMethod.socktype_lua = Ty.integer ∷ []
documented SocketMethod.protocol_lua = Ty.integer ∷ []
documented SocketMethod.bind_lua = Ty.boolean ∷ Ty.error ∷ []
documented SocketMethod.recvable_lua = Ty.boolean ∷ Ty.error ∷ Ty.boolean ∷ []
documented SocketMethod.sendable_lua = Ty.boolean ∷ Ty.error ∷ Ty.boolean ∷ []
documented SocketMethod.connect_lua = Ty.boolean ∷ Ty.error ∷ Ty.boolean ∷ []
documented SocketMethod.shutdown_lua = Ty.boolean ∷ Ty.error ∷ []
documented SocketMethod.close_lua = Ty.boolean ∷ Ty.error ∷ []
documented SocketMethod.listen_lua = Ty.boolean ∷ Ty.error ∷ []
documented SocketMethod.accept_lua = Ty.socket ∷ Ty.error ∷ Ty.boolean ∷ Ty.addrinfo ∷ []
documented SocketMethod.acceptfd_lua = Ty.integer ∷ Ty.error ∷ Ty.boolean ∷ []
documented SocketMethod.send_lua = Ty.integer ∷ Ty.error ∷ Ty.boolean ∷ []
documented SocketMethod.sendto_lua = Ty.integer ∷ Ty.error ∷ Ty.boolean ∷ []
documented SocketMethod.sendfd_lua = Ty.integer ∷ Ty.error ∷ Ty.boolean ∷ []
documented SocketMethod.sendmsg_lua = Ty.integer ∷ Ty.error ∷ Ty.boolean ∷ []
documented SocketMethod.sendfile_lua = Ty.integer ∷ Ty.error ∷ Ty.boolean ∷ []
documented SocketMethod.recv_lua = Ty.string ∷ Ty.error ∷ Ty.boolean ∷ []
documented SocketMethod.recvfrom_lua = Ty.string ∷ Ty.error ∷ Ty.boolean ∷ Ty.addrinfo ∷ []
documented SocketMethod.recvfd_lua = Ty.integer ∷ Ty.error ∷ Ty.boolean ∷ []
documented SocketMethod.recvmsg_lua = Ty.integer ∷ Ty.error ∷ Ty.boolean ∷ []
documented SocketMethod.write_lua = Ty.integer ∷ Ty.error ∷ Ty.boolean ∷ []
documented SocketMethod.read_lua = Ty.string ∷ Ty.error ∷ Ty.boolean ∷ []
documented SocketMethod.atmark_lua = Ty.boolean ∷ Ty.error ∷ []
documented SocketMethod.getsockname_lua = Ty.addrinfo ∷ Ty.error ∷ []
documented SocketMethod.getpeername_lua = Ty.addrinfo ∷ Ty.error ∷ []
documented SocketMethod.cloexec_lua = Ty.boolean ∷ Ty.error ∷ []
documented SocketMethod.nonblock_lua = Ty.boolean ∷ Ty.error ∷ []
documented SocketMethod.error_lua = Ty.soerr ∷ Ty.error ∷ []
documented SocketMethod.acceptconn_lua = Ty.boolean ∷ Ty.error ∷ []
documented SocketMethod.tcpnodelay_lua = Ty.boolean ∷ Ty.error ∷ []
documented SocketMethod.tcpkeepintvl_lua = Ty.integer ∷ Ty.error ∷ []
documented SocketMethod.tcpkeepcnt_lua = Ty.integer ∷ Ty.error ∷ []
documented SocketMethod.tcpkeepalive_lua = Ty.integer ∷ Ty.error ∷ []
documented SocketMethod.tcpcork_lua = Ty.boolean ∷ Ty.error ∷ []
documented SocketMethod.reuseport_lua = Ty.boolean ∷ Ty.error ∷ []
documented SocketMethod.reuseaddr_lua = Ty.boolean ∷ Ty.error ∷ []
documented SocketMethod.broadcast_lua = Ty.boolean ∷ Ty.error ∷ []
documented SocketMethod.debug_lua = Ty.boolean ∷ Ty.error ∷ []
documented SocketMethod.keepalive_lua = Ty.boolean ∷ Ty.error ∷ []
documented SocketMethod.oobinline_lua = Ty.boolean ∷ Ty.error ∷ []
documented SocketMethod.dontroute_lua = Ty.boolean ∷ Ty.error ∷ []
documented SocketMethod.timestamp_lua = Ty.boolean ∷ Ty.error ∷ []
documented SocketMethod.rcvbuf_lua = Ty.integer ∷ Ty.error ∷ []
documented SocketMethod.rcvlowat_lua = Ty.integer ∷ Ty.error ∷ []
documented SocketMethod.sndbuf_lua = Ty.integer ∷ Ty.error ∷ []
documented SocketMethod.sndlowat_lua = Ty.integer ∷ Ty.error ∷ []
documented SocketMethod.rcvtimeo_lua = Ty.number ∷ Ty.error ∷ []
documented SocketMethod.sndtimeo_lua = Ty.number ∷ Ty.error ∷ []
documented SocketMethod.linger_lua = Ty.integer ∷ Ty.error ∷ []
documented SocketMethod.mcastloop_lua = Ty.boolean ∷ Ty.error ∷ []
documented SocketMethod.mcastttl_lua = Ty.integer ∷ Ty.error ∷ []
documented SocketMethod.mcastif_lua = Ty.name ∷ Ty.error ∷ []
documented SocketMethod.mcastjoin_lua = Ty.boolean ∷ Ty.error ∷ []
documented SocketMethod.mcastleave_lua = Ty.boolean ∷ Ty.error ∷ []
documented SocketMethod.mcastjoinsrc_lua = Ty.boolean ∷ Ty.error ∷ []
documented SocketMethod.mcastleavesrc_lua = Ty.boolean ∷ Ty.error ∷ []
documented SocketMethod.mcastblocksrc_lua = Ty.boolean ∷ Ty.error ∷ []
documented SocketMethod.mcastunblocksrc_lua = Ty.boolean ∷ Ty.error ∷ []

-- `connect` answers true with an error while the connection is being made.
abbrev pub may_progress : SocketMethod → Bool
may_progress SocketMethod.connect_lua = true
may_progress f = false

abbrev pub is_refused : (f : SocketMethod) → Args f → Bool
is_refused SocketMethod.addgcfn_lua (err, fn) = is_wrong err || is_missing fn
is_refused SocketMethod.delgcfn_lua node = is_missing node
is_refused SocketMethod.unwrap_lua u = false
is_refused SocketMethod.dup_lua u = false
is_refused SocketMethod.fd_lua u = false
is_refused SocketMethod.family_lua u = false
is_refused SocketMethod.socktype_lua u = false
is_refused SocketMethod.protocol_lua u = false
is_refused SocketMethod.bind_lua ai = is_missing ai
is_refused SocketMethod.recvable_lua (sec, except) = is_wrong sec || is_wrong except
is_refused SocketMethod.sendable_lua (sec, except) = is_wrong sec || is_wrong except
is_refused SocketMethod.connect_lua ai = is_missing ai
is_refused SocketMethod.shutdown_lua how = is_wrong how
is_refused SocketMethod.close_lua how = is_wrong how
is_refused SocketMethod.listen_lua backlog = is_wrong backlog
is_refused SocketMethod.accept_lua with_ai = is_wrong with_ai
is_refused SocketMethod.acceptfd_lua u = false
is_refused SocketMethod.send_lua (msg, flag) = is_missing msg || is_wrong flag
is_refused SocketMethod.sendto_lua (msg, ai, flag) =
    is_missing msg || is_missing ai || is_wrong flag
is_refused SocketMethod.sendfd_lua (fd, ai, flag) = is_missing fd || is_wrong ai || is_wrong flag
is_refused SocketMethod.sendmsg_lua (mh, flag) = is_missing mh || is_wrong flag
is_refused SocketMethod.sendfile_lua (file, bytes, offset) =
    is_missing file || is_missing bytes || is_wrong offset
is_refused SocketMethod.recv_lua (bufsize, flag) = is_wrong bufsize || is_wrong flag
is_refused SocketMethod.recvfrom_lua (bufsize, flag) = is_wrong bufsize || is_wrong flag
is_refused SocketMethod.recvfd_lua flag = is_wrong flag
is_refused SocketMethod.recvmsg_lua (mh, flag) = is_missing mh || is_wrong flag
is_refused SocketMethod.write_lua msg = is_missing msg
is_refused SocketMethod.read_lua bufsize = is_wrong bufsize
is_refused SocketMethod.atmark_lua u = false
is_refused SocketMethod.getsockname_lua u = false
is_refused SocketMethod.getpeername_lua u = false
is_refused SocketMethod.cloexec_lua v = is_wrong v
is_refused SocketMethod.nonblock_lua v = is_wrong v
is_refused SocketMethod.error_lua v = is_wrong v
is_refused SocketMethod.acceptconn_lua v = is_wrong v
is_refused SocketMethod.tcpnodelay_lua v = is_wrong v
is_refused SocketMethod.tcpkeepintvl_lua v = is_wrong v
is_refused SocketMethod.tcpkeepcnt_lua v = is_wrong v
is_refused SocketMethod.tcpkeepalive_lua v = is_wrong v
is_refused SocketMethod.tcpcork_lua v = is_wrong v
is_refused SocketMethod.reuseport_lua v = is_wrong v
is_refused SocketMethod.reuseaddr_lua v = is_wrong v
is_refused SocketMethod.broadcast_lua v = is_wrong v
is_refused SocketMethod.debug_lua v = is_wrong v
is_refused SocketMethod.keepalive_lua v = is_wrong v
is_refused SocketMethod.oobinline_lua v = is_wrong v
is_refused SocketMethod.dontroute_lua v = is_wrong v
is_refused SocketMethod.timestamp_lua v = is_wrong v
is_refused SocketMethod.rcvbuf_lua v = is_wrong v
is_refused SocketMethod.rcvlowat_lua v = is_wrong v
is_refused SocketMethod.sndbuf_lua v = is_wrong v
is_refused SocketMethod.sndlowat_lua v = is_wrong v
is_refused SocketMethod.rcvtimeo_lua v = is_wrong v
is_refused SocketMethod.sndtimeo_lua v = is_wrong v
is_refused SocketMethod.linger_lua v = is_wrong v
is_refused SocketMethod.mcastloop_lua v = is_wrong v
is_refused SocketMethod.mcastttl_lua v = is_wrong v
is_refused SocketMethod.mcastif_lua ifname = is_wrong ifname
is_refused SocketMethod.mcastjoin_lua (grp, ifname) = is_missing grp || is_wrong ifname
is_refused SocketMethod.mcastleave_lua (grp, ifname) = is_missing grp || is_wrong ifname
is_refused SocketMethod.mcastjoinsrc_lua (grp, src, ifname) =
    is_missing grp || is_missing src || is_wrong ifname
is_refused SocketMethod.mcastleavesrc_lua (grp, src, ifname) =
    is_missing grp || is_missing src || is_wrong ifname
is_refused SocketMethod.mcastblocksrc_lua (grp, src, ifname) =
    is_missing grp || is_missing src || is_wrong ifname
is_refused SocketMethod.mcastunblocksrc_lua (grp, src, ifname) =
    is_missing grp || is_missing src || is_wrong ifname

-- The methods that run finalisers, and the one that reads the list of interfaces without a test.
abbrev pub may_loop : SocketMethod → Bool
may_loop SocketMethod.close_lua = true
may_loop SocketMethod.unwrap_lua = true
may_loop f = false

abbrev pub may_crash : SocketMethod → Bool
may_crash SocketMethod.mcastif_lua = true
may_crash f = false

abbrev pub is_documented : (f : SocketMethod) → Args f → Outcome (List Value) → Bool
is_documented f a =
    is_end (documented f) (may_progress f) (is_refused f a) (may_loop f) (may_crash f)
