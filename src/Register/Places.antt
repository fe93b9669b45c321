-- ===== src/Register/Places.antt =====
-- Where doc/ places each function of the modules: a method of a kind of object, a metamethod, or a
-- function of a submodule.
use lua_llsocket.Prelude.{String, Option, none, some}
use lua_llsocket.Register.Functions.{
  CFunction, SocketMethod, SocketFn, AddrinfoFn, CmsghdrFn, CmsghdrsFn, MsghdrFn,
}
use lua_llsocket.Register.Tables.{Table, Field, Registry, rawget}
use lua_llsocket.Register.{Entry}

pub data Place : Type 0 where
  method_of : (kind name : String) → Place
  metamethod_of : (kind name : String) → Place
  function_of : (submodule name : String) → Place

unfoldable pub place : CFunction → Place
place (CFunction.method SocketMethod.addgcfn_lua) = Place.method_of "llsocket.socket" "addgcfn"
place (CFunction.method SocketMethod.delgcfn_lua) = Place.method_of "llsocket.socket" "delgcfn"
place (CFunction.method SocketMethod.unwrap_lua) = Place.method_of "llsocket.socket" "unwrap"
place (CFunction.method SocketMethod.dup_lua) = Place.method_of "llsocket.socket" "dup"
place (CFunction.method SocketMethod.fd_lua) = Place.method_of "llsocket.socket" "fd"
place (CFunction.method SocketMethod.family_lua) = Place.method_of "llsocket.socket" "family"
place (CFunction.method SocketMethod.socktype_lua) = Place.method_of "llsocket.socket" "socktype"
place (CFunction.method SocketMethod.protocol_lua) = Place.method_of "llsocket.socket" "protocol"
place (CFunction.method SocketMethod.bind_lua) = Place.method_of "llsocket.socket" "bind"
place (CFunction.method SocketMethod.recvable_lua) = Place.method_of "llsocket.socket" "recvable"
place (CFunction.method SocketMethod.sendable_lua) = Place.method_of "llsocket.socket" "sendable"
place (CFunction.method SocketMethod.connect_lua) = Place.method_of "llsocket.socket" "connect"
place (CFunction.method SocketMethod.shutdown_lua) = Place.method_of "llsocket.socket" "shutdown"
place (CFunction.method SocketMethod.close_lua) = Place.method_of "llsocket.socket" "close"
place (CFunction.method SocketMethod.listen_lua) = Place.method_of "llsocket.socket" "listen"
place (CFunction.method SocketMethod.accept_lua) = Place.method_of "llsocket.socket" "accept"
place (CFunction.method SocketMethod.acceptfd_lua) = Place.method_of "llsocket.socket" "acceptfd"
place (CFunction.method SocketMethod.send_lua) = Place.method_of "llsocket.socket" "send"
place (CFunction.method SocketMethod.sendto_lua) = Place.method_of "llsocket.socket" "sendto"
place (CFunction.method SocketMethod.sendfd_lua) = Place.method_of "llsocket.socket" "sendfd"
place (CFunction.method SocketMethod.sendmsg_lua) = Place.method_of "llsocket.socket" "sendmsg"
place (CFunction.method SocketMethod.sendfile_lua) = Place.method_of "llsocket.socket" "sendfile"
place (CFunction.method SocketMethod.recv_lua) = Place.method_of "llsocket.socket" "recv"
place (CFunction.method SocketMethod.recvfrom_lua) = Place.method_of "llsocket.socket" "recvfrom"
place (CFunction.method SocketMethod.recvfd_lua) = Place.method_of "llsocket.socket" "recvfd"
place (CFunction.method SocketMethod.recvmsg_lua) = Place.method_of "llsocket.socket" "recvmsg"
place (CFunction.method SocketMethod.write_lua) = Place.method_of "llsocket.socket" "write"
place (CFunction.method SocketMethod.read_lua) = Place.method_of "llsocket.socket" "read"
place (CFunction.method SocketMethod.atmark_lua) = Place.method_of "llsocket.socket" "atmark"
place (CFunction.method SocketMethod.getsockname_lua) =
    Place.method_of "llsocket.socket" "getsockname"
place (CFunction.method SocketMethod.getpeername_lua) =
    Place.method_of "llsocket.socket" "getpeername"
place (CFunction.method SocketMethod.cloexec_lua) = Place.method_of "llsocket.socket" "cloexec"
place (CFunction.method SocketMethod.nonblock_lua) = Place.method_of "llsocket.socket" "nonblock"
place (CFunction.method SocketMethod.error_lua) = Place.method_of "llsocket.socket" "error"
place (CFunction.method SocketMethod.acceptconn_lua) =
    Place.method_of "llsocket.socket" "acceptconn"
place (CFunction.method SocketMethod.tcpnodelay_lua) =
    Place.method_of "llsocket.socket" "tcpnodelay"
place (CFunction.method SocketMethod.tcpkeepintvl_lua) =
    Place.method_of "llsocket.socket" "tcpkeepintvl"
place (CFunction.method SocketMethod.tcpkeepcnt_lua) =
    Place.method_of "llsocket.socket" "tcpkeepcnt"
place (CFunction.method SocketMethod.tcpkeepalive_lua) =
    Place.method_of "llsocket.socket" "tcpkeepalive"
place (CFunction.method SocketMethod.tcpcork_lua) = Place.method_of "llsocket.socket" "tcpcork"
place (CFunction.method SocketMethod.reuseport_lua) = Place.method_of "llsocket.socket" "reuseport"
place (CFunction.method SocketMethod.reuseaddr_lua) = Place.method_of "llsocket.socket" "reuseaddr"
place (CFunction.method SocketMethod.broadcast_lua) = Place.method_of "llsocket.socket" "broadcast"
place (CFunction.method SocketMethod.debug_lua) = Place.method_of "llsocket.socket" "debug"
place (CFunction.method SocketMethod.keepalive_lua) = Place.method_of "llsocket.socket" "keepalive"
place (CFunction.method SocketMethod.oobinline_lua) = Place.method_of "llsocket.socket" "oobinline"
place (CFunction.method SocketMethod.dontroute_lua) = Place.method_of "llsocket.socket" "dontroute"
place (CFunction.method SocketMethod.timestamp_lua) = Place.method_of "llsocket.socket" "timestamp"
place (CFunction.method SocketMethod.rcvbuf_lua) = Place.method_of "llsocket.socket" "rcvbuf"
place (CFunction.method SocketMethod.rcvlowat_lua) = Place.method_of "llsocket.socket" "rcvlowat"
place (CFunction.method SocketMethod.sndbuf_lua) = Place.method_of "llsocket.socket" "sndbuf"
place (CFunction.method SocketMethod.sndlowat_lua) = Place.method_of "llsocket.socket" "sndlowat"
place (CFunction.method SocketMethod.rcvtimeo_lua) = Place.method_of "llsocket.socket" "rcvtimeo"
place (CFunction.method SocketMethod.sndtimeo_lua) = Place.method_of "llsocket.socket" "sndtimeo"
place (CFunction.method SocketMethod.linger_lua) = Place.method_of "llsocket.socket" "linger"
place (CFunction.method SocketMethod.mcastloop_lua) = Place.method_of "llsocket.socket" "mcastloop"
place (CFunction.method SocketMethod.mcastttl_lua) = Place.method_of "llsocket.socket" "mcastttl"
place (CFunction.method SocketMethod.mcastif_lua) = Place.method_of "llsocket.socket" "mcastif"
place (CFunction.method SocketMethod.mcastjoin_lua) = Place.method_of "llsocket.socket" "mcastjoin"
place (CFunction.method SocketMethod.mcastleave_lua) =
    Place.method_of "llsocket.socket" "mcastleave"
place (CFunction.method SocketMethod.mcastjoinsrc_lua) =
    Place.method_of "llsocket.socket" "mcastjoinsrc"
place (CFunction.method SocketMethod.mcastleavesrc_lua) =
    Place.method_of "llsocket.socket" "mcastleavesrc"
place (CFunction.method SocketMethod.mcastblocksrc_lua) =
    Place.method_of "llsocket.socket" "mcastblocksrc"
place (CFunction.method SocketMethod.mcastunblocksrc_lua) =
    Place.method_of "llsocket.socket" "mcastunblocksrc"
place (CFunction.socket SocketFn.gc_lua) = Place.metamethod_of "llsocket.socket" "__gc"
place (CFunction.socket SocketFn.tostring_lua) = Place.metamethod_of "llsocket.socket" "__tostring"
place (CFunction.socket SocketFn.new_lua) = Place.function_of "socket" "new"
place (CFunction.socket SocketFn.wrap_lua) = Place.function_of "socket" "wrap"
place (CFunction.socket SocketFn.pair_lua) = Place.function_of "socket" "pair"
place (CFunction.socket SocketFn.closefd_lua) = Place.function_of "socket" "close"
place (CFunction.socket SocketFn.shutdownfd_lua) = Place.function_of "socket" "shutdown"
place (CFunction.addrinfo AddrinfoFn.gc_lua) = Place.metamethod_of "llsocket.addrinfo" "__gc"
place (CFunction.addrinfo AddrinfoFn.tostring_lua) =
    Place.metamethod_of "llsocket.addrinfo" "__tostring"
place (CFunction.addrinfo AddrinfoFn.family_lua) = Place.method_of "llsocket.addrinfo" "family"
place (CFunction.addrinfo AddrinfoFn.socktype_lua) = Place.method_of "llsocket.addrinfo" "socktype"
place (CFunction.addrinfo AddrinfoFn.protocol_lua) = Place.method_of "llsocket.addrinfo" "protocol"
place (CFunction.addrinfo AddrinfoFn.canonname_lua) =
    Place.method_of "llsocket.addrinfo" "canonname"
place (CFunction.addrinfo AddrinfoFn.port_lua) = Place.method_of "llsocket.addrinfo" "port"
place (CFunction.addrinfo AddrinfoFn.addr_lua) = Place.method_of "llsocket.addrinfo" "addr"
place (CFunction.addrinfo AddrinfoFn.getnameinfo_lua) =
    Place.method_of "llsocket.addrinfo" "getnameinfo"
place (CFunction.addrinfo AddrinfoFn.unix_lua) = Place.function_of "addrinfo" "unix"
place (CFunction.addrinfo AddrinfoFn.inet_lua) = Place.function_of "addrinfo" "inet"
place (CFunction.addrinfo AddrinfoFn.inet6_lua) = Place.function_of "addrinfo" "inet6"
place (CFunction.addrinfo AddrinfoFn.getaddrinfo_lua) = Place.function_of "addrinfo" "getaddrinfo"
place (CFunction.cmsghdr CmsghdrFn.gc_lua) = Place.metamethod_of "llsocket.cmsghdr" "__gc"
place (CFunction.cmsghdr CmsghdrFn.tostring_lua) =
    Place.metamethod_of "llsocket.cmsghdr" "__tostring"
place (CFunction.cmsghdr CmsghdrFn.len_lua) = Place.metamethod_of "llsocket.cmsghdr" "__len"
place (CFunction.cmsghdr CmsghdrFn.level_lua) = Place.method_of "llsocket.cmsghdr" "level"
place (CFunction.cmsghdr CmsghdrFn.type_lua) = Place.method_of "llsocket.cmsghdr" "type"
place (CFunction.cmsghdr CmsghdrFn.data_lua) = Place.method_of "llsocket.cmsghdr" "data"
place (CFunction.cmsghdr CmsghdrFn.new_lua) = Place.function_of "cmsghdr" "new"
place (CFunction.cmsghdr CmsghdrFn.rights_lua) = Place.function_of "cmsghdr" "rights"
place (CFunction.cmsghdrs CmsghdrsFn.gc_lua) = Place.metamethod_of "llsocket.cmsghdrs" "__gc"
place (CFunction.cmsghdrs CmsghdrsFn.tostring_lua) =
    Place.metamethod_of "llsocket.cmsghdrs" "__tostring"
place (CFunction.cmsghdrs CmsghdrsFn.push_lua) = Place.method_of "llsocket.cmsghdrs" "push"
place (CFunction.cmsghdrs CmsghdrsFn.shift_lua) = Place.method_of "llsocket.cmsghdrs" "shift"
place (CFunction.cmsghdrs CmsghdrsFn.new_lua) = Place.function_of "cmsghdrs" "new"
place (CFunction.msghdr MsghdrFn.gc_lua) = Place.metamethod_of "llsocket.msghdr" "__gc"
place (CFunction.msghdr MsghdrFn.tostring_lua) = Place.metamethod_of "llsocket.msghdr" "__tostring"
place (CFunction.msghdr MsghdrFn.name_lua) = Place.method_of "llsocket.msghdr" "name"
place (CFunction.msghdr MsghdrFn.iov_lua) = Place.method_of "llsocket.msghdr" "iov"
place (CFunction.msghdr MsghdrFn.control_lua) = Place.method_of "llsocket.msghdr" "control"
place (CFunction.msghdr MsghdrFn.flags_lua) = Place.method_of "llsocket.msghdr" "flags"
place (CFunction.msghdr MsghdrFn.new_lua) = Place.function_of "msghdr" "new"
place CFunction.gcfn_tostring = Place.metamethod_of "llsocket.gcfn" "__tostring"
place CFunction.getifaddrs = Place.function_of "device" "getifaddrs"

-- What Lua code finds there.
abbrev pub as_function : Option Field → Option CFunction
as_function (some (Field.function f)) = some f
as_function other = none

abbrev pub in_methods : String → Option Field → Option CFunction
in_methods name (some (Field.table t)) = rawget name t
in_methods name other = none

abbrev pub in_metatable : Option (Table Field) → (Table Field → Option CFunction) → Option CFunction
in_metatable none k = none
in_metatable (some mt) k = k mt

abbrev pub in_submodule : String → Option Entry → Option CFunction
in_submodule name (some (Entry.submodule t)) = as_function (rawget name t)
in_submodule name other = none

unfoldable pub find : Registry × Table Entry → Place → Option CFunction
unfolding rawget
find (reg, top) (Place.method_of kind name) =
    in_metatable (rawget kind reg) λ mt. in_methods name (rawget "__index" mt)
find (reg, top) (Place.metamethod_of kind name) =
    in_metatable (rawget kind reg) λ mt. as_function (rawget name mt)
find (reg, top) (Place.function_of submodule name) = in_submodule name (rawget submodule top)
