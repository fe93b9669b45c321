-- ===== src/Messages.antt =====
-- Messages with several parts: src/socket.c, `sendmsg_lua` and `recvmsg_lua`.
pub mod Sending
pub mod Receiving
pub mod Passing
use lua_llsocket.Prelude.{
  ℕ, ◌==◌, Bool, true, false, ◌&&◌, not, Option, none, some, List, [], ◌∷◌, if◌then◌else◌,
  replicate,
}
use lua_llsocket.Prelude.Int.{ℤ, pos, minus_one, ◌==ℤ◌, to_int}
use lua_llsocket.Prelude.Bytes.{rest_size, as_boolean}
use lua_llsocket.Host.Os.{Call, Reply, Msghdr, NameAt}
use lua_llsocket.Host.Lua.{Value, Arg, Addrinfo}
use lua_llsocket.Host.{Ptr, St, Cmd, pure, ◌>>=◌, ◌>>◌, gets, sys, opt, fail_nil}
use lua_llsocket.Io.{is_again, is_stream}
use lua_llsocket.Cmsghdrs.{Cmsghdrs}

-- The object behind `lmsg->iov`: its number of bytes, the bytes that `lua_iovec_setv` points the
-- vectors to when it is asked for all, and the number that it then returns.
pub record Iovec : Type 0 where
  pub nbyte : ℕ
  pub bytes : List ℕ
  pub setv : ℕ

-- `lls_msghdr_t` with the objects that its pointers lead to.
pub record Message : Type 0 where
  pub name : Option Addrinfo
  pub iov : Option Iovec
  pub control : Option Cmsghdrs
  pub flags : ℤ

-- `lmsg->iov && lmsg->iov->nbyte`, and `lmsg->control && lmsg->control->len`.
abbrev pub iov_of : Option Iovec → Option Iovec
iov_of none = none
iov_of (some v) = if v.nbyte == 0 then none else some v

abbrev pub control_of : Option Cmsghdrs → Option Cmsghdrs
control_of none = none
control_of (some c) = if c.len == 0 then none else some c

-- `msg_name` is given the address of the field `ai_addr`.
abbrev pub name_at : Option Addrinfo → NameAt
name_at none = NameAt.nowhere
name_at (some info) = NameAt.at_pointer_to info.ai_addr

abbrev pub control_bytes : Option Cmsghdrs → List ℕ
control_bytes none = []
control_bytes (some c) = c.data'

abbrev pub control_len : Option Cmsghdrs → ℕ
control_len none = 0
control_len (some c) = c.len

unfoldable pub send_data : Message → Msghdr
send_data lmsg = record {
  msg_name = name_at lmsg.name;
  msg_namelen = elim lmsg.name [ none ↦ 0 | some info ↦ info.ai_addrlen ];
  msg_iov = elim (iov_of lmsg.iov) [ none ↦ [] | some v ↦ v.bytes ];
  msg_control = control_bytes (control_of lmsg.control);
  msg_controllen = control_len (control_of lmsg.control);
  msg_flags = pos 0;
}

abbrev pub iov_len : Option Iovec → ℕ
iov_len none = 0
iov_len (some v) = v.setv

-- `sendmsg` leaves `data.msg_flags` at 0.
unfoldable pub sendmsg_lua : Ptr → Message → Arg ℤ → Cmd (List Value × Message)
unfolding send_data
sendmsg_lua sp lmsg flg_arg = do
  s ← gets λ st. st.socks sp
  flg ← opt flg_arg (pos 0)
  let len = iov_len (iov_of lmsg.iov)
  rv ← sys (Call.sendmsg s.fd (send_data lmsg) (to_int flg))
  e ← gets St.errno
  let lmsg' = record lmsg { flags = pos 0 }
  if rv.ret ==ℤ minus_one
      then (if is_again e
          then pure (Value.integer (pos 0) ∷ Value.nil ∷ Value.boolean true ∷ [], lmsg')
          else pure (Value.nil ∷ Value.failure e "sendmsg" ∷ [], lmsg'))
      else pure (
        Value.integer rv.ret ∷ Value.nil ∷ Value.boolean (as_boolean (rest_size len rv.ret)) ∷ [],
        lmsg',
      )

-- Without a control buffer the call is given sixteen bytes, the size of an empty control message.
unfoldable pub recv_data : Message → Msghdr
recv_data lmsg = record {
  msg_name = name_at lmsg.name;
  msg_namelen = elim lmsg.name [ none ↦ 0 | some info ↦ 128 ];
  msg_iov = elim (iov_of lmsg.iov) [ none ↦ [] | some v ↦ v.bytes ];
  msg_control = elim (control_of lmsg.control) [ none ↦ replicate 16 0 | some c ↦ c.data' ];
  msg_controllen = elim (control_of lmsg.control) [ none ↦ 16 | some c ↦ c.len ];
  msg_flags = pos 0;
}

-- What the call writes through the pointers to the vectors and to the control buffer: the reply's
-- `bytes` and `addr`.
abbrev pub filled_iov : List ℕ → Option Iovec → Option Iovec
filled_iov bytes none = none
filled_iov bytes (some v) = if v.nbyte == 0 then some v else some (record v { bytes = bytes })

abbrev pub filled_control : List ℕ → Option Cmsghdrs → Option Cmsghdrs
filled_control bytes none = none
filled_control bytes (some c) = if c.len == 0 then some c else some (record c { data' = bytes })

abbrev pub filled : Reply → Message → Message
filled r lmsg = record lmsg {
  iov = filled_iov r.bytes lmsg.iov;
  control = filled_control r.addr lmsg.control;
}

-- `lmsg->control->len = data.msg_controllen`.
abbrev pub cut : ℕ → Option Cmsghdrs → Option Cmsghdrs
cut n none = none
cut n (some c) = some (record c { len = n })

abbrev pub is_some : {A : Type 0} → Option A → Bool
is_some none = false
is_some (some a) = true

abbrev pub has_control : Message → Bool
has_control lmsg = is_some (control_of lmsg.control)

abbrev pub has_iov : Message → Bool
has_iov lmsg = is_some (iov_of lmsg.iov)

-- The reply's `len` is `data.msg_controllen` after the call.
unfoldable pub recvmsg_lua : Ptr → Message → Arg ℤ → Cmd (List Value × Message)
unfolding recv_data
recvmsg_lua sp lmsg flg_arg = do
  s ← gets λ st. st.socks sp
  flg ← opt flg_arg (pos 0)
  r ← sys (Call.recvmsg s.fd (recv_data lmsg) (to_int flg))
  e ← gets St.errno
  let lmsg' = filled r lmsg
  if r.ret ==ℤ minus_one
      then (if is_again e
          then pure (Value.nil ∷ Value.nil ∷ Value.boolean true ∷ [], lmsg)
          else pure (Value.nil ∷ Value.failure e "recvmsg" ∷ [], lmsg))
      else if has_control lmsg && not (r.len == 0)
      then pure (Value.integer r.ret ∷ [], record lmsg' { control = cut r.len lmsg'.control })
      else if has_iov lmsg && (r.ret ==ℤ pos 0 && is_stream s.socktype)
      then pure ([], lmsg')
      else pure (Value.integer r.ret ∷ [], lmsg')
