-- ===== src/Create/Accept.antt =====
-- Accepting connections.
use lua_llsocket.Prelude.{
  ℕ, ◌+◌, ◌==◌, ==_refl, ◌≡◌, ◌≢◌, ◌⊎◌, Bool, true, false, List, [], ◌∷◌, if◌then◌else◌, arith,
  bit_and,
}
use lua_llsocket.Prelude.Int.{ℤ, pos, minus_one, ==ℤ_ne, to_unsigned}
use lua_llsocket.Host.Os.{Call}
use lua_llsocket.Host.Lua.{Value, Arg}
use lua_llsocket.Host.Consts.{f_getfl, o_nonblock, sock_nonblock, sock_cloexec}
use lua_llsocket.Host.Trace.{lifecycle}
use lua_llsocket.Host.{Ptr, null, Socket, St, ok}
use lua_llsocket.Create.{acceptfd, acceptfd_portable, accept_lua}

-- The calls of `acceptfd` on the socket `s` whose flags are `flg`.
abbrev pub flags_call : Socket → Call
flags_call s = Call.fcntl s.fd f_getfl (pos 0)

abbrev pub accept_call : Socket → ℤ → Call
accept_call s flg =
    Call.accept4 s.fd false
      (sock_cloexec + (if bit_and (to_unsigned 32 flg) o_nonblock == 0 then 0 else sock_nonblock))

-- With `accept4`, a connection that is accepted without asking for its address becomes a new
-- socket with a metatable: its descriptor is the accepted one, close-on-exec, and non-blocking
-- exactly when the listening socket is; the family, the type and the protocol are those of the
-- listening socket, and it has no finaliser.
pub accept-inherits :
    (sp : Ptr) (flg fd : ℤ) (st : St)
    → (st.os st.trace (flags_call (st.socks sp))).ret ≡ flg
    → flg ≢ minus_one
    → (st.os (flags_call (st.socks sp) ∷ st.trace) (accept_call (st.socks sp) flg)).ret ≡ fd
    → fd ≢ minus_one
    → ((accept_lua acceptfd sp Arg.absent st).0 ≡ ok (Value.socket st.fresh ∷ []))
      × ((accept_lua acceptfd sp Arg.absent st).1.socks st.fresh
          ≡ record (st.socks sp) { fd = fd; gcfunc = null })
      × ((accept_lua acceptfd sp Arg.absent st).1.has_meta st.fresh ≡ true)
      × ((accept_lua acceptfd sp Arg.absent st).1.trace
          ≡ accept_call (st.socks sp) flg ∷ flags_call (st.socks sp) ∷ st.trace)
unfolding accept_lua acceptfd
accept-inherits sp flg fd st e ne f nf =
    let o = ==ℤ_ne flg minus_one ne in
    let o' = ==ℤ_ne fd minus_one nf in
    let r = ==_refl st.fresh in (ground arith, ground arith, ground arith, ground arith)

-- Where there is no `accept4` and the flags of the listening socket can be read, a descriptor
-- that `accept` has opened is answered and left open, or -1 is answered and it is closed.
pub portable-keeps :
    (sfd fd : ℤ) (with_addr : Bool) (st : St)
    → (st.os st.trace (Call.fcntl sfd f_getfl (pos 0))).ret ≢ minus_one
    → (st.os (Call.fcntl sfd f_getfl (pos 0) ∷ st.trace) (Call.accept sfd with_addr)).ret ≡ fd
    → fd ≢ minus_one
    → ((addr : List ℕ) × (len : ℕ) × ((acceptfd_portable sfd with_addr st).0 ≡ ok (fd, addr, len))
        × (lifecycle (acceptfd_portable sfd with_addr st).1.trace ≡ lifecycle st.trace))
      ⊎ (((acceptfd_portable sfd with_addr st).0 ≡ ok (minus_one, [], 0))
          × (lifecycle (acceptfd_portable sfd with_addr st).1.trace
              ≡ Call.close fd ∷ lifecycle st.trace))
unfolding acceptfd_portable
portable-keeps sfd fd with_addr st e f nf =
    let o = ==ℤ_ne _ minus_one e in let o' = ==ℤ_ne fd minus_one nf in ground arith
