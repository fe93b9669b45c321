-- ===== src/Create.antt =====
-- Sockets that begin: src/socket.c, `new_lua`, `pair_lua`, `wrap_lua`, `acceptfd`, `acceptfd_lua` and
-- `accept_lua`.
pub mod Accept
pub mod Wrap
pub mod Leak
pub mod Pair
pub mod Made
use lua_llsocket.Prelude.{
  ℕ, ◌==◌, ◌+◌, Bool, true, false, ◌||◌, not, List, [], ◌∷◌, none, some, if◌then◌else◌, bit_and,
  take,
}
use lua_llsocket.Prelude.Int.{ℤ, pos, minus_one, ◌==ℤ◌, to_int, to_unsigned}
use lua_llsocket.Host.Os.{Call}
use lua_llsocket.Host.Lua.{Value, Arg, Addrinfo}
use lua_llsocket.Host.Consts.{
  af_unix, f_getfl, f_setfl, f_setfd, fd_cloexec, o_nonblock, sock_cloexec, sock_nonblock, eagain,
  ewouldblock, eintr, econnaborted, sol_socket, so_type, so_protocol,
}
use lua_llsocket.Host.{
  Ptr, null, Socket, St, Cmd, pure, ◌>>=◌, ◌>>◌, gets, modify, sys, put_sock, put_meta, alloc,
  check, opt, fail_nil,
}
use lua_llsocket.Sockopt.{with_flag}
use lua_llsocket.Io.{wrap_addr}

-- A new userdata that holds `s` and has the metatable of a socket.
abbrev pub new_socket : Socket → Cmd Ptr
new_socket s = do p ← alloc; modify (put_sock p s); modify (put_meta p true); pure p

-- "set cloexec and nonblock flag": true if a call of `fcntl` failed.
unfoldable pub set_nonblock_failed : ℤ → Bool → Cmd Bool
set_nonblock_failed fd false = pure false
set_nonblock_failed fd true = do
  fl ← sys (Call.fcntl fd f_getfl (pos 0))
  if fl.ret ==ℤ minus_one then pure true else do
    r ← sys (Call.fcntl fd f_setfl (with_flag fl.ret o_nonblock))
    pure (r.ret ==ℤ minus_one)

unfoldable pub set_flags_failed : ℤ → Bool → Cmd Bool
unfolding set_nonblock_failed
set_flags_failed fd nonblock = do
  r ← sys (Call.fcntl fd f_setfd (pos fd_cloexec))
  if r.ret ==ℤ minus_one then pure true else set_nonblock_failed fd nonblock

unfoldable pub new_lua : (family socktype protocol : Arg ℤ) → Arg Bool → Cmd (List Value)
unfolding set_flags_failed
new_lua family_arg socktype_arg protocol_arg nonblock_arg = do
  family ← check family_arg
  socktype ← check socktype_arg
  protocol ← opt protocol_arg (pos 0)
  nonblock ← opt nonblock_arg false
  r ← sys (Call.socket (to_int family) (to_int socktype) (to_int protocol))
  let fd = r.ret
  if fd ==ℤ minus_one then fail_nil "socket" else do
    failed ← set_flags_failed fd nonblock
    if failed then (do sys (Call.close fd); fail_nil "fcntl") else do
      p ← new_socket (record {
        fd = fd;
        family = to_int family;
        socktype = to_int socktype;
        protocol = to_int protocol;
        gcfunc = null;
      })
      pure (Value.socket p ∷ [])

-- One round of the loop of `pair_lua`: the flags of `fd` are set and its socket is made, or both
-- descriptors are closed.
unfoldable pub pair_round :
    (fd fd0 fd1 socktype protocol : ℤ) → Bool → (Ptr → Cmd (List Value)) → Cmd (List Value)
unfolding set_flags_failed
pair_round fd fd0 fd1 socktype protocol nonblock next = do
  failed ← set_flags_failed fd nonblock
  if failed then (do sys (Call.close fd0); sys (Call.close fd1); fail_nil "fcntl") else do
    p ← new_socket (record {
      fd = fd;
      family = af_unix;
      socktype = socktype;
      protocol = protocol;
      gcfunc = null;
    })
    next p

-- The reply's two numbers are the descriptors.
unfoldable pub pair_lua : (socktype protocol : Arg ℤ) → Arg Bool → Cmd (List Value)
unfolding pair_round
pair_lua socktype_arg protocol_arg nonblock_arg = do
  socktype ← check socktype_arg
  protocol ← opt protocol_arg (pos 0)
  nonblock ← opt nonblock_arg false
  let t = to_int socktype
  let k = to_int protocol
  r ← sys (Call.socketpair af_unix t k)
  if not (r.ret ==ℤ pos 0)
      then fail_nil "socketpair"
      else pair_round r.num r.num r.num2 t k nonblock
          λ p. pair_round r.num2 r.num r.num2 t k nonblock λ q. pure (Value.socket_pair p q ∷ [])

-- `wrap_lua`. The family is the first field of the address that `getsockname` writes.
unfoldable pub wrap_lua : Arg ℤ → Arg Bool → Cmd (List Value)
unfolding set_nonblock_failed
wrap_lua fd_arg nonblock_arg = do
  fd_int ← check fd_arg
  nonblock ← opt nonblock_arg false
  let fd = to_int fd_int
  p ← alloc
  name ← sys (Call.getsockname fd)
  if not (name.ret ==ℤ pos 0) then fail_nil "getsockname" else do
    protocol ← sys (Call.getsockopt fd sol_socket so_protocol)
    if not (protocol.ret ==ℤ pos 0) then fail_nil "getsockopt" else do
      type ← sys (Call.getsockopt fd sol_socket so_type)
      if not (type.ret ==ℤ pos 0) then fail_nil "getsockopt" else do
        failed ← set_nonblock_failed fd nonblock
        if failed then fail_nil "fcntl" else do
          modify (put_meta p true)
          modify (
              put_sock p (record {
                fd = fd;
                family = name.num;
                socktype = type.num;
                protocol = protocol.num;
                gcfunc = null;
              }))
          pure (Value.socket p ∷ [])

-- `acceptfd` where `accept4` is there.
unfoldable pub acceptfd : ℤ → Bool → Cmd (ℤ × List ℕ × ℕ)
acceptfd sfd with_addr = do
  flg ← sys (Call.fcntl sfd f_getfl (pos 0))
  if flg.ret ==ℤ minus_one then pure (minus_one, [], 0) else do
    r ← sys (
        Call.accept4 sfd with_addr (
          sock_cloexec
          + (if bit_and (to_unsigned 32 flg.ret) o_nonblock == 0 then 0 else sock_nonblock)))
    pure (r.ret, r.addr, r.len)

-- `acceptfd` where only `accept` is there.
unfoldable pub acceptfd_portable : ℤ → Bool → Cmd (ℤ × List ℕ × ℕ)
acceptfd_portable sfd with_addr = do
  flg ← sys (Call.fcntl sfd f_getfl (pos 0))
  if flg.ret ==ℤ minus_one then pure (minus_one, [], 0) else do
    a ← sys (Call.accept sfd with_addr)
    if a.ret ==ℤ minus_one then pure (minus_one, [], 0) else do
      c ← sys (Call.fcntl a.ret f_setfd (pos fd_cloexec))
      if not (c.ret ==ℤ pos 0) then (do sys (Call.close a.ret); pure (minus_one, [], 0)) else do
        n ← sys (Call.fcntl a.ret f_setfl flg.ret)
        if not (n.ret ==ℤ pos 0)
            then (do sys (Call.close a.ret); pure (minus_one, [], 0))
            else pure (a.ret, a.addr, a.len)

-- `errno` asks to accept again.
abbrev pub is_accept_again : ℕ → Bool
is_accept_again e = e == eagain || e == ewouldblock || e == eintr || e == econnaborted

abbrev pub accept_failed : Cmd (List Value)
accept_failed = do
  e ← gets St.errno
  if is_accept_again e
      then pure (Value.nil ∷ Value.nil ∷ Value.boolean true ∷ [])
      else fail_nil "acceptfd"

-- The handlers take the variant of `acceptfd` that the build chose.
module _ (accept_with : ℤ → Bool → Cmd (ℤ × List ℕ × ℕ)) where
  unfoldable pub acceptfd_lua : Ptr → Cmd (List Value)
  acceptfd_lua sp = do
    s ← gets λ st. st.socks sp
    (fd, addr, addrlen) ← accept_with s.fd false
    if fd ==ℤ minus_one then accept_failed else pure (Value.integer fd ∷ [])

  unfoldable pub accept_lua : Ptr → Arg Bool → Cmd (List Value)
  accept_lua sp with_addr_arg = do
    s ← gets λ st. st.socks sp
    with_addr ← opt with_addr_arg false
    (fd, addr, addrlen) ← accept_with s.fd with_addr
    if fd ==ℤ minus_one then accept_failed else do
      cs ← new_socket (record s { fd = fd; gcfunc = null })
      if with_addr
          then pure (
              Value.socket cs
              ∷ Value.nil
              ∷ Value.nil
              ∷ Value.addrinfo (wrap_addr s.family s.socktype s.protocol addr addrlen)
              ∷ [])
          else pure (Value.socket cs ∷ [])
