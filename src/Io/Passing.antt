-- ===== src/Io/Passing.antt =====
-- A descriptor on its way from `sendfd_lua` to `recvfd_lua`.
use lua_llsocket.Prelude.{ℕ, ◌<◌, ◌≡◌, ◌≢◌, refl, ap, List, [], ◌∷◌, arith}
use lua_llsocket.Prelude.Int.{ℤ, pos, to_int, to_unsigned, to_unsigned-lt, from_bits}
use lua_llsocket.Prelude.Bytes.{to_le, from_le, from_le-to_le}
use lua_llsocket.Host.Os.{Call}
use lua_llsocket.Host.Lua.{Value, Arg, Addrinfo}
use lua_llsocket.Host.{Ptr, St, ok}
use lua_llsocket.Io.{sendfd_lua, recvfd_lua, rights_cmsg, cmsg_fd, empty_msg}

-- The control buffer and the data of the last call.
abbrev pub sent_rights : List Call → List ℕ × List ℕ
sent_rights (Call.sendmsg fd m flags ∷ t) = (m.msg_control, m.msg_iov)
sent_rights t = ([], [])

cmsg_fd-rights_cmsg : (fd : ℤ) → cmsg_fd (rights_cmsg fd) ≡ to_int fd
unfolding to_le from_le
cmsg_fd-rights_cmsg fd = ap (from_bits 31) (from_le-to_le (to_unsigned 32 fd) (to_unsigned-lt fd))

-- Whatever the outcome, one message has been sent, with the descriptor and one byte of data.
sendfd-sent :
    (sp : Ptr) (fd : ℤ) (ai : Arg Addrinfo) (st : St)
    → ai ≢ Arg.wrong
    → sent_rights (sendfd_lua sp (Arg.given fd) ai Arg.absent st).1.trace ≡ (rights_cmsg fd, 1 ∷ [])
unfolding sendfd_lua
sendfd-sent sp fd Arg.absent st w = ground arith
sendfd-sent sp fd Arg.null st w = ground arith
sendfd-sent sp fd (Arg.given a) st w = ground arith
sendfd-sent sp fd Arg.wrong st w = absurd (w refl)

-- Send a descriptor, with or without an address. Where the kernel passes on the control message that
-- it is given, with a descriptor of the other program in its place, with some data, recvfd answers
-- that descriptor as an `int`.
pub recvfd-sendfd :
    (sp : Ptr) (fd : ℤ) (ai : Arg Addrinfo) (st : St) (sp' : Ptr) (fd' : ℤ) (n : ℕ) (st' : St)
    → ai ≢ Arg.wrong
    → 0 < n
    → (st'.os st'.trace (Call.recvmsg (st'.socks sp').fd empty_msg (pos 0))).ret ≡ pos n
    → (sent_rights (sendfd_lua sp (Arg.given fd) ai Arg.absent st).1.trace
          ≡ (rights_cmsg fd, 1 ∷ [])
        → (st'.os st'.trace (Call.recvmsg (st'.socks sp').fd empty_msg (pos 0))).bytes
          ≡ rights_cmsg fd')
    → (recvfd_lua sp' Arg.absent st').0 ≡ ok (Value.integer (to_int fd') ∷ [])
unfolding recvfd_lua to_le from_le
recvfd-sendfd sp fd ai st sp' fd' n st' w some_data r kernel =
    let b = kernel (sendfd-sent sp fd ai st w) in
    rw (r, b) (ap (λ z. ok (Value.integer z ∷ [])) (cmsg_fd-rights_cmsg fd'))
