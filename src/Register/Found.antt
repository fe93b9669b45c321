-- ===== src/Register/Found.antt =====
-- The functions under their names, when the module has been opened once on a system without
-- constants of its own.
use text.Mathlib.Text.{◌==◌ as str_eq}
use lua_llsocket.Prelude.{◌≡◌, refl, String, Bool, true, false, ◌||◌, none, some, List, [], ◌∷◌}
use lua_llsocket.Register.Functions.{
  CFunction, SocketMethod, SocketFn, AddrinfoFn, CmsghdrFn, CmsghdrsFn, MsghdrFn,
}
use lua_llsocket.Register.Tables.{
  rawset, rawget, push_functions, push_fields, do_functions, do_fields, new_metatable,
}
use lua_llsocket.Register.Sockets.{luaopen_llsocket_socket, socket_metatable, socket_module}
use lua_llsocket.Register.Modules.{
  luaopen_llsocket_addrinfo, luaopen_llsocket_cmsghdr, luaopen_llsocket_cmsghdrs,
  luaopen_llsocket_msghdr, luaopen_llsocket_device, lls_gcfn_init, addrinfo_metatable,
  cmsghdr_metatable, cmsghdrs_metatable, msghdr_metatable, gcfn_metatable, addrinfo_module,
  cmsghdr_module, cmsghdrs_module, msghdr_module,
}
use lua_llsocket.Register.Places.{Place, place, find}
use lua_llsocket.Register.{luaopen_llsocket, luaopen_llsocket_env, push_ints}

-- The submodules.
abbrev pub submodules : List String
submodules = "addrinfo" ∷ "socket" ∷ "cmsghdr" ∷ "cmsghdrs" ∷ "msghdr" ∷ "device" ∷ "env" ∷ []

abbrev pub has_name : String → List String → Bool
has_name k [] = false
has_name k (j ∷ js) = str_eq k j || has_name k js

abbrev pub is_placed : Place → Bool
is_placed (Place.method_of kind name) = true
is_placed (Place.metamethod_of kind name) = true
is_placed (Place.function_of submodule name) = has_name submodule submodules

pub place-placed_found :
    (f : CFunction)
    → (is_placed (place f) ≡ true) × (find (luaopen_llsocket [] none [] []) (place f) ≡ some f)
unfolding find place push_ints rawset rawget lls_gcfn_init luaopen_llsocket_addrinfo
    luaopen_llsocket_socket luaopen_llsocket_cmsghdr luaopen_llsocket_cmsghdrs
    luaopen_llsocket_msghdr luaopen_llsocket_device luaopen_llsocket luaopen_llsocket_env
    addrinfo_metatable cmsghdr_metatable cmsghdrs_metatable msghdr_metatable gcfn_metatable
    addrinfo_module cmsghdr_module cmsghdrs_module msghdr_module socket_metatable socket_module
    push_functions push_fields do_functions do_fields new_metatable
place-placed_found (CFunction.method SocketMethod.addgcfn_lua) = (refl, refl)
place-placed_found (CFunction.method SocketMethod.delgcfn_lua) = (refl, refl)
place-placed_found (CFunction.method SocketMethod.unwrap_lua) = (refl, refl)
place-placed_found (CFunction.method SocketMethod.dup_lua) = (refl, refl)
place-placed_found (CFunction.method SocketMethod.fd_lua) = (refl, refl)
place-placed_found (CFunction.method SocketMethod.family_lua) = (refl, refl)
place-placed_found (CFunction.method SocketMethod.socktype_lua) = (refl, refl)
place-placed_found (CFunction.method SocketMethod.protocol_lua) = (refl, refl)
place-placed_found (CFunction.method SocketMethod.bind_lua) = (refl, refl)
place-placed_found (CFunction.method SocketMethod.recvable_lua) = (refl, refl)
place-placed_found (CFunction.method SocketMethod.sendable_lua) = (refl, refl)
place-placed_found (CFunction.method SocketMethod.connect_lua) = (refl, refl)
place-placed_found (CFunction.method SocketMethod.shutdown_lua) = (refl, refl)
place-placed_found (CFunction.method SocketMethod.close_lua) = (refl, refl)
place-placed_found (CFunction.method SocketMethod.listen_lua) = (refl, refl)
place-placed_found (CFunction.method SocketMethod.accept_lua) = (refl, refl)
place-placed_found (CFunction.method SocketMethod.acceptfd_lua) = (refl, refl)
place-placed_found (CFunction.method SocketMethod.send_lua) = (refl, refl)
place-placed_found (CFunction.method SocketMethod.sendto_lua) = (refl, refl)
place-placed_found (CFunction.method SocketMethod.sendfd_lua) = (refl, refl)
place-placed_found (CFunction.method SocketMethod.sendmsg_lua) = (refl, refl)
place-placed_found (CFunction.method SocketMethod.sendfile_lua) = (refl, refl)
place-placed_found (CFunction.method SocketMethod.recv_lua) = (refl, refl)
place-placed_found (CFunction.method SocketMethod.recvfrom_lua) = (refl, refl)
place-placed_found (CFunction.method SocketMethod.recvfd_lua) = (refl, refl)
place-placed_found (CFunction.method SocketMethod.recvmsg_lua) = (refl, refl)
place-placed_found (CFunction.method SocketMethod.write_lua) = (refl, refl)
place-placed_found (CFunction.method SocketMethod.read_lua) = (refl, refl)
place-placed_found (CFunction.method SocketMethod.atmark_lua) = (refl, refl)
place-placed_found (CFunction.method SocketMethod.getsockname_lua) = (refl, refl)
place-placed_found (CFunction.method SocketMethod.getpeername_lua) = (refl, refl)
place-placed_found (CFunction.method SocketMethod.cloexec_lua) = (refl, refl)
place-placed_found (CFunction.method SocketMethod.nonblock_lua) = (refl, refl)
place-placed_found (CFunction.method SocketMethod.error_lua) = (refl, refl)
place-placed_found (CFunction.method SocketMethod.acceptconn_lua) = (refl, refl)
place-placed_found (CFunction.method SocketMethod.tcpnodelay_lua) = (refl, refl)
place-placed_found (CFunction.method SocketMethod.tcpkeepintvl_lua) = (refl, refl)
place-placed_found (CFunction.method SocketMethod.tcpkeepcnt_lua) = (refl, refl)
place-placed_found (CFunction.method SocketMethod.tcpkeepalive_lua) = (refl, refl)
place-placed_found (CFunction.method SocketMethod.tcpcork_lua) = (refl, refl)
place-placed_found (CFunction.method SocketMethod.reuseport_lua) = (refl, refl)
place-placed_found (CFunction.method SocketMethod.reuseaddr_lua) = (refl, refl)
place-placed_found (CFunction.method SocketMethod.broadcast_lua) = (refl, refl)
place-placed_found (CFunction.method SocketMethod.debug_lua) = (refl, refl)
place-placed_found (CFunction.method SocketMethod.keepalive_lua) = (refl, refl)
place-placed_found (CFunction.method SocketMethod.oobinline_lua) = (refl, refl)
place-placed_found (CFunction.method SocketMethod.dontroute_lua) = (refl, refl)
place-placed_found (CFunction.method SocketMethod.timestamp_lua) = (refl, refl)
place-placed_found (CFunction.method SocketMethod.rcvbuf_lua) = (refl, refl)
place-placed_found (CFunction.method SocketMethod.rcvlowat_lua) = (refl, refl)
place-placed_found (CFunction.method SocketMethod.sndbuf_lua) = (refl, refl)
place-placed_found (CFunction.method SocketMethod.sndlowat_lua) = (refl, refl)
place-placed_found (CFunction.method SocketMethod.rcvtimeo_lua) = (refl, refl)
place-placed_found (CFunction.method SocketMethod.sndtimeo_lua) = (refl, refl)
place-placed_found (CFunction.method SocketMethod.linger_lua) = (refl, refl)
place-placed_found (CFunction.method SocketMethod.mcastloop_lua) = (refl, refl)
place-placed_found (CFunction.method SocketMethod.mcastttl_lua) = (refl, refl)
place-placed_found (CFunction.method SocketMethod.mcastif_lua) = (refl, refl)
place-placed_found (CFunction.method SocketMethod.mcastjoin_lua) = (refl, refl)
place-placed_found (CFunction.method SocketMethod.mcastleave_lua) = (refl, refl)
place-placed_found (CFunction.method SocketMethod.mcastjoinsrc_lua) = (refl, refl)
place-placed_found (CFunction.method SocketMethod.mcastleavesrc_lua) = (refl, refl)
place-placed_found (CFunction.method SocketMethod.mcastblocksrc_lua) = (refl, refl)
place-placed_found (CFunction.method SocketMethod.mcastunblocksrc_lua) = (refl, refl)
place-placed_found (CFunction.socket SocketFn.gc_lua) = (refl, refl)
place-placed_found (CFunction.socket SocketFn.tostring_lua) = (refl, refl)
place-placed_found (CFunction.addrinfo AddrinfoFn.gc_lua) = (refl, refl)
place-placed_found (CFunction.addrinfo AddrinfoFn.tostring_lua) = (refl, refl)
place-placed_found (CFunction.addrinfo AddrinfoFn.family_lua) = (refl, refl)
place-placed_found (CFunction.addrinfo AddrinfoFn.socktype_lua) = (refl, refl)
place-placed_found (CFunction.addrinfo AddrinfoFn.protocol_lua) = (refl, refl)
place-placed_found (CFunction.addrinfo AddrinfoFn.canonname_lua) = (refl, refl)
place-placed_found (CFunction.addrinfo AddrinfoFn.port_lua) = (refl, refl)
place-placed_found (CFunction.addrinfo AddrinfoFn.addr_lua) = (refl, refl)
place-placed_found (CFunction.addrinfo AddrinfoFn.getnameinfo_lua) = (refl, refl)
place-placed_found (CFunction.cmsghdr CmsghdrFn.gc_lua) = (refl, refl)
place-placed_found (CFunction.cmsghdr CmsghdrFn.tostring_lua) = (refl, refl)
place-placed_found (CFunction.cmsghdr CmsghdrFn.len_lua) = (refl, refl)
place-placed_found (CFunction.cmsghdr CmsghdrFn.level_lua) = (refl, refl)
place-placed_found (CFunction.cmsghdr CmsghdrFn.type_lua) = (refl, refl)
place-placed_found (CFunction.cmsghdr CmsghdrFn.data_lua) = (refl, refl)
place-placed_found (CFunction.cmsghdrs CmsghdrsFn.gc_lua) = (refl, refl)
place-placed_found (CFunction.cmsghdrs CmsghdrsFn.tostring_lua) = (refl, refl)
place-placed_found (CFunction.cmsghdrs CmsghdrsFn.push_lua) = (refl, refl)
place-placed_found (CFunction.cmsghdrs CmsghdrsFn.shift_lua) = (refl, refl)
place-placed_found (CFunction.msghdr MsghdrFn.gc_lua) = (refl, refl)
place-placed_found (CFunction.msghdr MsghdrFn.tostring_lua) = (refl, refl)
place-placed_found (CFunction.msghdr MsghdrFn.name_lua) = (refl, refl)
place-placed_found (CFunction.msghdr MsghdrFn.iov_lua) = (refl, refl)
place-placed_found (CFunction.msghdr MsghdrFn.control_lua) = (refl, refl)
place-placed_found (CFunction.msghdr MsghdrFn.flags_lua) = (refl, refl)
place-placed_found CFunction.gcfn_tostring = (refl, refl)
place-placed_found (CFunction.socket SocketFn.new_lua) = (refl, refl)
place-placed_found (CFunction.socket SocketFn.wrap_lua) = (refl, refl)
place-placed_found (CFunction.socket SocketFn.pair_lua) = (refl, refl)
place-placed_found (CFunction.socket SocketFn.closefd_lua) = (refl, refl)
place-placed_found (CFunction.socket SocketFn.shutdownfd_lua) = (refl, refl)
place-placed_found (CFunction.addrinfo AddrinfoFn.unix_lua) = (refl, refl)
place-placed_found (CFunction.addrinfo AddrinfoFn.inet_lua) = (refl, refl)
place-placed_found (CFunction.addrinfo AddrinfoFn.inet6_lua) = (refl, refl)
place-placed_found (CFunction.addrinfo AddrinfoFn.getaddrinfo_lua) = (refl, refl)
place-placed_found (CFunction.cmsghdr CmsghdrFn.new_lua) = (refl, refl)
place-placed_found (CFunction.cmsghdr CmsghdrFn.rights_lua) = (refl, refl)
place-placed_found (CFunction.cmsghdrs CmsghdrsFn.new_lua) = (refl, refl)
place-placed_found (CFunction.msghdr MsghdrFn.new_lua) = (refl, refl)
place-placed_found CFunction.getifaddrs = (refl, refl)
