-- ===== src/Register/Sockets.antt =====
-- The module of sockets: `luaopen_llsocket_socket` of src/socket.c.
use lua_llsocket.Prelude.{String, [], ◌∷◌}
use lua_llsocket.Prelude.Int.{pos}
use lua_llsocket.Register.Functions.{CFunction, SocketMethod, SocketFn}
use lua_llsocket.Register.Functions.CFunction.{method}
use lua_llsocket.Register.Tables.{
  Table, Field, Registry, Methods, rawset, do_functions, do_fields, new_metatable,
}

abbrev pub socket_mt : String
socket_mt = "llsocket.socket"

abbrev pub socket_mmethod : Methods
socket_mmethod = record {
  first = ("__gc", CFunction.socket SocketFn.gc_lua);
  others = ("__tostring", CFunction.socket SocketFn.tostring_lua) ∷ [];
}

abbrev pub socket_method : Methods
socket_method = record {
  first = ("addgcfn", method SocketMethod.addgcfn_lua);
  others =
      ("delgcfn", method SocketMethod.delgcfn_lua)
      ∷ ("unwrap", method SocketMethod.unwrap_lua)
      ∷ ("dup", method SocketMethod.dup_lua)
      ∷ ("fd", method SocketMethod.fd_lua)
      ∷ ("family", method SocketMethod.family_lua)
      ∷ ("socktype", method SocketMethod.socktype_lua)
      ∷ ("protocol", method SocketMethod.protocol_lua)
      ∷ ("bind", method SocketMethod.bind_lua)
      ∷ ("recvable", method SocketMethod.recvable_lua)
      ∷ ("sendable", method SocketMethod.sendable_lua)
      ∷ ("connect", method SocketMethod.connect_lua)
      ∷ ("shutdown", method SocketMethod.shutdown_lua)
      ∷ ("close", method SocketMethod.close_lua)
      ∷ ("listen", method SocketMethod.listen_lua)
      ∷ ("accept", method SocketMethod.accept_lua)
      ∷ ("acceptfd", method SocketMethod.acceptfd_lua)
      ∷ ("send", method SocketMethod.send_lua)
      ∷ ("sendto", method SocketMethod.sendto_lua)
      ∷ ("sendfd", method SocketMethod.sendfd_lua)
      ∷ ("sendmsg", method SocketMethod.sendmsg_lua)
      ∷ ("sendfile", method SocketMethod.sendfile_lua)
      ∷ ("recv", method SocketMethod.recv_lua)
      ∷ ("recvfrom", method SocketMethod.recvfrom_lua)
      ∷ ("recvfd", method SocketMethod.recvfd_lua)
      ∷ ("recvmsg", method SocketMethod.recvmsg_lua)
      ∷ ("write", method SocketMethod.write_lua)
      ∷ ("read", method SocketMethod.read_lua)
      ∷ ("atmark", method SocketMethod.atmark_lua)
      ∷ ("getsockname", method SocketMethod.getsockname_lua)
      ∷ ("getpeername", method SocketMethod.getpeername_lua)
      ∷ ("cloexec", method SocketMethod.cloexec_lua)
      ∷ ("nonblock", method SocketMethod.nonblock_lua)
      ∷ ("error", method SocketMethod.error_lua)
      ∷ ("acceptconn", method SocketMethod.acceptconn_lua)
      ∷ ("tcpnodelay", method SocketMethod.tcpnodelay_lua)
      ∷ ("tcpkeepintvl", method SocketMethod.tcpkeepintvl_lua)
      ∷ ("tcpkeepcnt", method SocketMethod.tcpkeepcnt_lua)
      ∷ ("tcpkeepalive", method SocketMethod.tcpkeepalive_lua)
      ∷ ("tcpcork", method SocketMethod.tcpcork_lua)
      ∷ ("reuseport", method SocketMethod.reuseport_lua)
      ∷ ("reuseaddr", method SocketMethod.reuseaddr_lua)
      ∷ ("broadcast", method SocketMethod.broadcast_lua)
      ∷ ("debug", method SocketMethod.debug_lua)
      ∷ ("keepalive", method SocketMethod.keepalive_lua)
      ∷ ("oobinline", method SocketMethod.oobinline_lua)
      ∷ ("dontroute", method SocketMethod.dontroute_lua)
      ∷ ("timestamp", method SocketMethod.timestamp_lua)
      ∷ ("rcvbuf", method SocketMethod.rcvbuf_lua)
      ∷ ("rcvlowat", method SocketMethod.rcvlowat_lua)
      ∷ ("sndbuf", method SocketMethod.sndbuf_lua)
      ∷ ("sndlowat", method SocketMethod.sndlowat_lua)
      ∷ ("rcvtimeo", method SocketMethod.rcvtimeo_lua)
      ∷ ("sndtimeo", method SocketMethod.sndtimeo_lua)
      ∷ ("linger", method SocketMethod.linger_lua)
      ∷ ("mcastloop", method SocketMethod.mcastloop_lua)
      ∷ ("mcastttl", method SocketMethod.mcastttl_lua)
      ∷ ("mcastif", method SocketMethod.mcastif_lua)
      ∷ ("mcastjoin", method SocketMethod.mcastjoin_lua)
      ∷ ("mcastleave", method SocketMethod.mcastleave_lua)
      ∷ ("mcastjoinsrc", method SocketMethod.mcastjoinsrc_lua)
      ∷ ("mcastleavesrc", method SocketMethod.mcastleavesrc_lua)
      ∷ ("mcastblocksrc", method SocketMethod.mcastblocksrc_lua)
      ∷ ("mcastunblocksrc", method SocketMethod.mcastunblocksrc_lua)
      ∷ [];
}

-- The metatable: `__metatable` locks it, and `__index` holds the methods.
unfoldable pub socket_metatable : Table Field
unfolding rawset do_functions do_fields
socket_metatable =
    rawset "__index" (Field.table (do_functions socket_method []))
      (do_fields socket_mmethod (rawset "__metatable" (Field.number (pos 1)) []))

-- The table of the module.
unfoldable pub socket_module : Table Field
unfolding rawset
socket_module = rawset "shutdown" (Field.function (CFunction.socket SocketFn.shutdownfd_lua)) (
    rawset "close" (Field.function (CFunction.socket SocketFn.closefd_lua)) (
      rawset "pair" (Field.function (CFunction.socket SocketFn.pair_lua)) (
        rawset "wrap" (Field.function (CFunction.socket SocketFn.wrap_lua))
          (rawset "new" (Field.function (CFunction.socket SocketFn.new_lua)) []))))

unfoldable pub luaopen_llsocket_socket : Registry → Registry × Table Field
unfolding new_metatable socket_metatable socket_module
luaopen_llsocket_socket reg = (new_metatable socket_mt socket_metatable reg, socket_module)
