-- ===== src/Host/Consts/Options.antt =====
-- The levels and names of socket options, with their values on Linux.
use lua_llsocket.Prelude.{ℕ}

-- Levels of `setsockopt`.
abbrev pub ipproto_ip : ℕ
ipproto_ip = 0

abbrev pub ipproto_tcp : ℕ
ipproto_tcp = 6

abbrev pub ipproto_ipv6 : ℕ
ipproto_ipv6 = 41

-- Options of a TCP socket.
abbrev pub tcp_nodelay : ℕ
tcp_nodelay = 1

abbrev pub tcp_cork : ℕ
tcp_cork = 3

abbrev pub tcp_keepidle : ℕ
tcp_keepidle = 4

abbrev pub tcp_keepintvl : ℕ
tcp_keepintvl = 5

abbrev pub tcp_keepcnt : ℕ
tcp_keepcnt = 6

-- Options of every socket.
abbrev pub so_debug : ℕ
so_debug = 1

abbrev pub so_reuseaddr : ℕ
so_reuseaddr = 2

abbrev pub so_type : ℕ
so_type = 3

abbrev pub so_error : ℕ
so_error = 4

abbrev pub so_dontroute : ℕ
so_dontroute = 5

abbrev pub so_broadcast : ℕ
so_broadcast = 6

abbrev pub so_sndbuf : ℕ
so_sndbuf = 7

abbrev pub so_rcvbuf : ℕ
so_rcvbuf = 8

abbrev pub so_keepalive : ℕ
so_keepalive = 9

abbrev pub so_oobinline : ℕ
so_oobinline = 10

abbrev pub so_linger : ℕ
so_linger = 13

abbrev pub so_reuseport : ℕ
so_reuseport = 15

abbrev pub so_rcvlowat : ℕ
so_rcvlowat = 18

abbrev pub so_sndlowat : ℕ
so_sndlowat = 19

abbrev pub so_rcvtimeo : ℕ
so_rcvtimeo = 20

abbrev pub so_sndtimeo : ℕ
so_sndtimeo = 21

abbrev pub so_timestamp : ℕ
so_timestamp = 29

abbrev pub so_acceptconn : ℕ
so_acceptconn = 30

abbrev pub so_protocol : ℕ
so_protocol = 38

-- Options of multicast.
abbrev pub ip_multicast_if : ℕ
ip_multicast_if = 32

abbrev pub ip_multicast_ttl : ℕ
ip_multicast_ttl = 33

abbrev pub ip_multicast_loop : ℕ
ip_multicast_loop = 34

abbrev pub ip_add_membership : ℕ
ip_add_membership = 35

abbrev pub ip_drop_membership : ℕ
ip_drop_membership = 36

abbrev pub ip_unblock_source : ℕ
ip_unblock_source = 37

abbrev pub ip_block_source : ℕ
ip_block_source = 38

abbrev pub ip_add_source_membership : ℕ
ip_add_source_membership = 39

abbrev pub ip_drop_source_membership : ℕ
ip_drop_source_membership = 40

abbrev pub ipv6_multicast_if : ℕ
ipv6_multicast_if = 17

abbrev pub ipv6_multicast_hops : ℕ
ipv6_multicast_hops = 18

abbrev pub ipv6_multicast_loop : ℕ
ipv6_multicast_loop = 19

abbrev pub ipv6_join_group : ℕ
ipv6_join_group = 20

abbrev pub ipv6_leave_group : ℕ
ipv6_leave_group = 21

abbrev pub mcast_block_source : ℕ
mcast_block_source = 43

abbrev pub mcast_unblock_source : ℕ
mcast_unblock_source = 44

abbrev pub mcast_join_source_group : ℕ
mcast_join_source_group = 46

abbrev pub mcast_leave_source_group : ℕ
mcast_leave_source_group = 47
