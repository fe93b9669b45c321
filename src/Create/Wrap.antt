-- ===== src/Create/Wrap.antt =====
-- Wrapping a descriptor that the caller owns.
use lua_llsocket.Prelude.{==_refl, ◌≡◌, Bool, true, false, [], ◌∷◌, arith}
use lua_llsocket.Prelude.Int.{ℤ, pos, to_int}
use lua_llsocket.Host.Os.{Call}
use lua_llsocket.Host.Lua.{Value, Arg}
use lua_llsocket.Host.Trace.{lifecycle}
use lua_llsocket.Host.Consts.{sol_socket, so_type, so_protocol}
use lua_llsocket.Host.{null, St, ok}
use lua_llsocket.Create.{wrap_lua, set_nonblock_failed}

-- `wrap_lua` never closes or shuts down the descriptor that it is given, whatever it answers.
pub wrap-keeps :
    (fd : ℤ) (nonblock : Bool) (st : St)
    → lifecycle (wrap_lua (Arg.given fd) (Arg.given nonblock) st).1.trace ≡ lifecycle st.trace
unfolding wrap_lua
wrap-keeps fd true st = ground arith
wrap-keeps fd false st = ground arith

-- The calls of `wrap_lua` in blocking mode.
abbrev pub name_call : ℤ → Call
name_call fd = Call.getsockname (to_int fd)

abbrev pub protocol_call : ℤ → Call
protocol_call fd = Call.getsockopt (to_int fd) sol_socket so_protocol

abbrev pub type_call : ℤ → Call
type_call fd = Call.getsockopt (to_int fd) sol_socket so_type

-- When the three calls of `wrap_lua` in blocking mode succeed, it makes a socket of the descriptor
-- with the family, the type and the protocol that the kernel reports, no finaliser, and a metatable.
pub wrap-reports :
    (fd family protocol type : ℤ) (st : St)
    → (st.os st.trace (name_call fd)).ret ≡ pos 0
    → (st.os st.trace (name_call fd)).num ≡ family
    → (st.os (name_call fd ∷ st.trace) (protocol_call fd)).ret ≡ pos 0
    → (st.os (name_call fd ∷ st.trace) (protocol_call fd)).num ≡ protocol
    → (st.os (protocol_call fd ∷ name_call fd ∷ st.trace) (type_call fd)).ret ≡ pos 0
    → (st.os (protocol_call fd ∷ name_call fd ∷ st.trace) (type_call fd)).num ≡ type
    → ((wrap_lua (Arg.given fd) Arg.absent st).0 ≡ ok (Value.socket st.fresh ∷ []))
      × ((wrap_lua (Arg.given fd) Arg.absent st).1.socks st.fresh ≡ record {
        fd = to_int fd;
        family = family;
        socktype = type;
        protocol = protocol;
        gcfunc = null;
      })
      × ((wrap_lua (Arg.given fd) Arg.absent st).1.has_meta st.fresh ≡ true)
unfolding wrap_lua set_nonblock_failed
wrap-reports fd family protocol type st n n' p p' t t' =
    let r = ==_refl st.fresh in (ground arith, ground arith, ground arith)
