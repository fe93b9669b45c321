-- ===== src/Host/Consts.antt =====
-- The constants of the system headers that the code names, with their values on Linux.
pub mod Options
use lua_llsocket.Prelude.{ℕ}
use lua_llsocket.Prelude.Int.{ℤ, pos, negsuc}
pub use lua_llsocket.Host.Consts.Options.{
  ipproto_ip, ipproto_tcp, ipproto_ipv6, tcp_nodelay, tcp_cork, tcp_keepidle, tcp_keepintvl,
  tcp_keepcnt, so_debug, so_reuseaddr, so_type, so_error, so_dontroute, so_broadcast, so_sndbuf,
  so_rcvbuf, so_keepalive, so_oobinline, so_linger, so_reuseport, so_rcvlowat, so_sndlowat,
  so_rcvtimeo, so_sndtimeo, so_timestamp, so_acceptconn, so_protocol, ip_multicast_if,
  ip_multicast_ttl, ip_multicast_loop, ip_add_membership, ip_drop_membership, ip_unblock_source,
  ip_block_source, ip_add_source_membership, ip_drop_source_membership, ipv6_multicast_if,
  ipv6_multicast_hops, ipv6_multicast_loop, ipv6_join_group, ipv6_leave_group, mcast_block_source,
  mcast_unblock_source, mcast_join_source_group, mcast_leave_source_group,
}

-- Address families and socket types.
abbrev pub af_unspec : ℤ
af_unspec = pos 0

abbrev pub af_unix : ℤ
af_unix = pos 1

abbrev pub af_inet : ℤ
af_inet = pos 2

abbrev pub af_inet6 : ℤ
af_inet6 = pos 10

abbrev pub sock_stream : ℤ
sock_stream = pos 1

abbrev pub sock_dgram : ℤ
sock_dgram = pos 2

abbrev pub sock_raw : ℤ
sock_raw = pos 3

-- Errors.
abbrev pub eintr : ℕ
eintr = 4

abbrev pub ebadf : ℕ
ebadf = 9

abbrev pub eagain : ℕ
eagain = 11

abbrev pub ewouldblock : ℕ
ewouldblock = 11

abbrev pub einval : ℕ
einval = 22

abbrev pub enametoolong : ℕ
enametoolong = 36

abbrev pub esocktnosupport : ℕ
esocktnosupport = 94

abbrev pub eafnosupport : ℕ
eafnosupport = 97

abbrev pub econnaborted : ℕ
econnaborted = 103

abbrev pub etimedout : ℕ
etimedout = 110

abbrev pub ealready : ℕ
ealready = 114

abbrev pub einprogress : ℕ
einprogress = 115

abbrev pub enxio : ℕ
enxio = 6

-- The size of `sun_path`.
abbrev pub unixpath_max : ℕ
unixpath_max = 108

-- `fcntl` commands and flags.
abbrev pub f_getfd : ℕ
f_getfd = 1

abbrev pub f_setfd : ℕ
f_setfd = 2

abbrev pub f_getfl : ℕ
f_getfl = 3

abbrev pub f_setfl : ℕ
f_setfl = 4

abbrev pub fd_cloexec : ℕ
fd_cloexec = 1

abbrev pub o_nonblock : ℕ
o_nonblock = 2048

abbrev pub sock_nonblock : ℕ
sock_nonblock = 2048

abbrev pub sock_cloexec : ℕ
sock_cloexec = 524288

-- `shutdown` and `listen`.
abbrev pub shut_rdwr : ℤ
shut_rdwr = pos 2

abbrev pub somaxconn : ℤ
somaxconn = pos 4096

-- Levels of socket options and types of control messages.
abbrev pub sol_socket : ℕ
sol_socket = 1

abbrev pub scm_rights : ℕ
scm_rights = 1

-- `LUA_NOREF`.
abbrev pub noref : ℤ
noref = negsuc 1
