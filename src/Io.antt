-- ===== src/Io.antt =====
-- Sending and receiving bytes: src/socket.c, `send_lua` to `read_lua`.
pub mod Recv
pub mod Passing
pub mod Send
use lua_llsocket.Prelude.{
  ℕ, ◌==◌, Bool, true, false, ◌&&◌, ◌||◌, not, String, List, [], ◌∷◌, ◌++◌, Option, none, some,
  if◌then◌else◌, length, take, drop,
}
use lua_llsocket.Prelude.Int.{
  ℤ, pos, negsuc, minus_one, ◌==ℤ◌, to_size, to_unsigned, to_int, from_bits,
}
use lua_llsocket.Prelude.Bytes.{to_le, from_le, rest_size, as_boolean}
use lua_llsocket.Host.Os.{Call, Msghdr, NameAt}
use lua_llsocket.Host.Lua.{Value, Arg, Addrinfo}
use lua_llsocket.Host.Consts.{
  eagain, ewouldblock, eintr, einval, sock_dgram, sock_raw, sol_socket, scm_rights,
}
use lua_llsocket.Host.{
  Ptr, St, Cmd, raise, pure, ◌>>=◌, ◌>>◌, gets, sys, set_errno, check, opt, fail_nil,
}

-- `errno == EAGAIN || errno == EWOULDBLOCK || errno == EINTR`.
abbrev pub is_again : ℕ → Bool
is_again e = e == eagain || e == ewouldblock || e == eintr

-- "invalid length".
abbrev pub invalid : String → Cmd (List Value)
invalid op = do set_errno einval; fail_nil op

-- What the functions that send do with the number `rv` that the call returned.
unfoldable pub send_result : String → ℕ → ℤ → Cmd (List Value)
send_result op len rv =
    if rv ==ℤ minus_one
    then (do
      e ← gets St.errno
      if is_again e
          then pure (Value.integer (pos 0) ∷ Value.nil ∷ Value.boolean true ∷ [])
          else fail_nil op)
    else pure (Value.integer rv ∷ Value.nil ∷ Value.boolean (as_boolean (rest_size len rv)) ∷ [])

unfoldable pub send_lua : Ptr → Arg (List ℕ) → Arg ℤ → Cmd (List Value)
unfolding send_result
send_lua sp buf_arg flg_arg = do
  s ← gets λ st. st.socks sp
  buf ← check buf_arg
  flg ← opt flg_arg (pos 0)
  if length buf == 0
      then invalid "send_lua"
      else do r ← sys (Call.send s.fd buf (to_int flg)); send_result "send" (length buf) r.ret

unfoldable pub sendto_lua : Ptr → Arg (List ℕ) → Arg Addrinfo → Arg ℤ → Cmd (List Value)
unfolding send_result
sendto_lua sp buf_arg info_arg flg_arg = do
  s ← gets λ st. st.socks sp
  buf ← check buf_arg
  info ← check info_arg
  flg ← opt flg_arg (pos 0)
  if length buf == 0 then invalid "sendto_lua" else do
    r ← sys (Call.sendto s.fd buf (to_int flg) info.ai_addr info.ai_addrlen)
    send_result "sendto" (length buf) r.ret

unfoldable pub write_lua : Ptr → Arg (List ℕ) → Cmd (List Value)
unfolding send_result
write_lua sp buf_arg = do
  s ← gets λ st. st.socks sp
  buf ← check buf_arg
  if length buf == 0
      then invalid "write_lua"
      else do r ← sys (Call.write s.fd buf); send_result "write" (length buf) r.ret

-- A `struct cmsghdr` that holds one descriptor: its length, level, type and data.
abbrev pub rights_cmsg : ℤ → List ℕ
rights_cmsg fd =
    to_le 8 20 ++ (to_le 4 sol_socket ++ (to_le 4 scm_rights ++ to_le 4 (to_unsigned 32 fd)))

-- The message of `sendfd_lua`. `msg_name` is given the address of the field `ai_addr`.
abbrev pub rights_msg : ℤ → Option Addrinfo → Msghdr
rights_msg fd info = record {
  msg_name = elim info [ none ↦ NameAt.nowhere | some i ↦ NameAt.at_pointer_to i.ai_addr ];
  msg_namelen = elim info [ none ↦ 0 | some i ↦ i.ai_addrlen ];
  msg_iov = 1 ∷ [];
  msg_control = rights_cmsg fd;
  msg_controllen = 20;
  msg_flags = pos 0;
}

-- `lauxh_optudata(L, i, …, NULL)`.
abbrev pub optional : {A : Type 0} → Arg A → Cmd (Option A)
optional Arg.absent = pure none
optional Arg.null = pure none
optional (Arg.given a) = pure (some a)
optional Arg.wrong = raise

unfoldable pub sendfd_lua : Ptr → Arg ℤ → Arg Addrinfo → Arg ℤ → Cmd (List Value)
unfolding to_le
sendfd_lua sp fd_arg info_arg flg_arg = do
  s ← gets λ st. st.socks sp
  fd ← check fd_arg
  info ← optional info_arg
  flg ← opt flg_arg (pos 0)
  r ← sys (Call.sendmsg s.fd (rights_msg fd info) (to_int flg))
  e ← gets St.errno
  if r.ret ==ℤ minus_one
      then (if is_again e
          then pure (Value.integer (pos 0) ∷ Value.nil ∷ Value.boolean true ∷ [])
          else fail_nil "sendmsg")
      else pure (Value.integer (pos 0) ∷ [])

-- `0 < len` for a `lua_Integer`.
abbrev pub is_positive : ℤ → Bool
is_positive (pos n) = not (n == 0)
is_positive (negsuc n) = false

-- `socktype != SOCK_DGRAM && socktype != SOCK_RAW`.
abbrev pub is_stream : ℤ → Bool
is_stream t = not (t ==ℤ sock_dgram) && not (t ==ℤ sock_raw)

abbrev pub default_recvsize : ℤ
default_recvsize = pos 4096

-- The error branch of the functions that receive.
abbrev pub recv_failed : String → Cmd (List Value)
recv_failed op = do
  e ← gets St.errno
  if is_again e then pure (Value.nil ∷ Value.nil ∷ Value.boolean true ∷ []) else fail_nil op

-- What `recv_lua` and `read_lua` do with the number `rv` that the call returned and the bytes of
-- the buffer.
unfoldable pub recv_result : String → ℤ → ℤ → List ℕ → Cmd (List Value)
recv_result op socktype rv buf =
    if rv ==ℤ minus_one
    then recv_failed op
    else if rv ==ℤ pos 0 && is_stream socktype
    then pure []
    else pure (Value.string (take (to_size rv) buf) ∷ [])

unfoldable pub recv_lua : Ptr → Arg ℤ → Arg ℤ → Cmd (List Value)
unfolding recv_result
recv_lua sp len_arg flg_arg = do
  s ← gets λ st. st.socks sp
  len ← opt len_arg default_recvsize
  flg ← opt flg_arg (pos 0)
  if is_positive len
      then (do
        r ← sys (Call.recv s.fd (to_size len) (to_int flg))
        recv_result "recv" s.socktype r.ret r.bytes)
      else invalid "recv_lua"

unfoldable pub read_lua : Ptr → Arg ℤ → Cmd (List Value)
unfolding recv_result
read_lua sp len_arg = do
  s ← gets λ st. st.socks sp
  len ← opt len_arg default_recvsize
  if is_positive len
      then (do r ← sys (Call.read s.fd (to_size len)); recv_result "read" s.socktype r.ret r.bytes)
      else invalid "read_lua"

-- `lls_addrinfo_alloc` of a local address: the first `ai_addrlen` bytes are copied.
abbrev pub wrap_addr : (family socktype protocol : ℤ) → List ℕ → ℕ → Addrinfo
wrap_addr family socktype protocol addr addrlen = record {
  ai_flags = pos 0;
  ai_family = family;
  ai_socktype = socktype;
  ai_protocol = protocol;
  ai_addrlen = addrlen;
  ai_addr = take addrlen addr;
  ai_canonname = none;
}

unfoldable pub recvfrom_lua : Ptr → Arg ℤ → Arg ℤ → Cmd (List Value)
recvfrom_lua sp len_arg flg_arg = do
  s ← gets λ st. st.socks sp
  len ← opt len_arg default_recvsize
  flg ← opt flg_arg (pos 0)
  if is_positive len
      then (do
        r ← sys (Call.recvfrom s.fd (to_size len) (to_int flg))
        if r.ret ==ℤ minus_one
            then recv_failed "recvfrom"
            else if r.ret ==ℤ pos 0 && is_stream s.socktype
            then pure []
            else if r.len == 0
            then pure (Value.string (take (to_size r.ret) r.bytes) ∷ [])
            else pure (
                Value.string (take (to_size r.ret) r.bytes)
                ∷ Value.nil
                ∷ Value.nil
                ∷ Value.addrinfo (wrap_addr s.family s.socktype s.protocol r.addr r.len)
                ∷ []))
      else invalid "recvfrom_lua"

-- The message of `recvfd_lua`: one byte of data and room for one descriptor.
abbrev pub empty_msg : Msghdr
empty_msg = record {
  msg_name = NameAt.nowhere;
  msg_namelen = 0;
  msg_iov = 0 ∷ [];
  msg_control = to_le 8 20 ++ (to_le 4 0 ++ (to_le 4 0 ++ to_le 4 0));
  msg_controllen = 20;
  msg_flags = pos 0;
}

-- The fields of the `struct cmsghdr` at the front of a control buffer.
abbrev pub cmsg_level : List ℕ → ℕ
cmsg_level buf = from_le (take 4 (drop 8 buf))

abbrev pub cmsg_type : List ℕ → ℕ
cmsg_type buf = from_le (take 4 (drop 12 buf))

abbrev pub cmsg_fd : List ℕ → ℤ
cmsg_fd buf = from_bits 31 (from_le (take 4 (drop 16 buf)))

-- The reply's `bytes` are the control buffer after the call.
unfoldable pub recvfd_lua : Ptr → Arg ℤ → Cmd (List Value)
unfolding to_le from_le
recvfd_lua sp flg_arg = do
  s ← gets λ st. st.socks sp
  flg ← opt flg_arg (pos 0)
  r ← sys (Call.recvmsg s.fd empty_msg (to_int flg))
  if r.ret ==ℤ minus_one
      then recv_failed "recvmsg"
      else if cmsg_level r.bytes == sol_socket && cmsg_type r.bytes == scm_rights
      then pure (Value.integer (cmsg_fd r.bytes) ∷ [])
      else if r.ret ==ℤ pos 0 && is_stream s.socktype
      then pure []
      else pure (Value.nil ∷ Value.nil ∷ Value.boolean true ∷ [])
