-- ===== src/Register/Functions.antt =====
-- The functions that the modules give to Lua: a name for each function pointer of the arrays of
-- `luaL_Reg` and of the calls of `lauxh_pushfn2tbl`.

-- The methods of a socket, src/socket.c.
pub data SocketMethod : Type 0 where
  addgcfn_lua delgcfn_lua unwrap_lua dup_lua fd_lua family_lua socktype_lua : SocketMethod
  protocol_lua bind_lua recvable_lua sendable_lua connect_lua shutdown_lua : SocketMethod
  close_lua listen_lua accept_lua acceptfd_lua send_lua sendto_lua sendfd_lua : SocketMethod
  sendmsg_lua sendfile_lua recv_lua recvfrom_lua recvfd_lua recvmsg_lua : SocketMethod
  write_lua read_lua atmark_lua getsockname_lua getpeername_lua cloexec_lua : SocketMethod
  nonblock_lua error_lua acceptconn_lua tcpnodelay_lua tcpkeepintvl_lua : SocketMethod
  tcpkeepcnt_lua tcpkeepalive_lua tcpcork_lua reuseport_lua reuseaddr_lua : SocketMethod
  broadcast_lua debug_lua keepalive_lua oobinline_lua dontroute_lua : SocketMethod
  timestamp_lua rcvbuf_lua rcvlowat_lua sndbuf_lua sndlowat_lua rcvtimeo_lua : SocketMethod
  sndtimeo_lua linger_lua mcastloop_lua mcastttl_lua mcastif_lua mcastjoin_lua : SocketMethod
  mcastleave_lua mcastjoinsrc_lua mcastleavesrc_lua mcastblocksrc_lua : SocketMethod
  mcastunblocksrc_lua : SocketMethod

-- The other functions of src/socket.c.
pub data SocketFn : Type 0 where
  gc_lua tostring_lua new_lua wrap_lua pair_lua closefd_lua shutdownfd_lua : SocketFn

-- src/addrinfo.c.
pub data AddrinfoFn : Type 0 where
  gc_lua tostring_lua family_lua socktype_lua protocol_lua canonname_lua : AddrinfoFn
  port_lua addr_lua getnameinfo_lua unix_lua inet_lua inet6_lua getaddrinfo_lua : AddrinfoFn

-- src/cmsghdr.c.
pub data CmsghdrFn : Type 0 where
  gc_lua tostring_lua len_lua level_lua type_lua data_lua new_lua rights_lua : CmsghdrFn

-- src/cmsghdrs.c.
pub data CmsghdrsFn : Type 0 where
  gc_lua tostring_lua push_lua shift_lua new_lua : CmsghdrsFn

-- src/msghdr.c.
pub data MsghdrFn : Type 0 where
  gc_lua tostring_lua name_lua iov_lua control_lua flags_lua new_lua : MsghdrFn

pub data CFunction : Type 0 where
  method : SocketMethod → CFunction
  socket : SocketFn → CFunction
  addrinfo : AddrinfoFn → CFunction
  cmsghdr : CmsghdrFn → CFunction
  cmsghdrs : CmsghdrsFn → CFunction
  msghdr : MsghdrFn → CFunction
  gcfn_tostring getifaddrs : CFunction
