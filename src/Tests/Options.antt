-- ===== src/Tests/Options.antt =====
-- Applications of the theorems on options and multicast.
use lua_llsocket.Prelude.{◌≡◌, refl, List, [], ◌∷◌}
use lua_llsocket.Prelude.Int.{pos}
use lua_llsocket.Host.Os.{Call, Reply}
use lua_llsocket.Host.Lua.{Value, Arg}
use lua_llsocket.Host.Consts.{sol_socket, so_rcvbuf, sock_dgram, af_unix}
use lua_llsocket.Host.{St, ok}
use lua_llsocket.Sockopt.{tnumber, sockopt_int_lua}
use lua_llsocket.Sockopt.Roundtrip.{sockopt-roundtrip}
use lua_llsocket.Tests.{returns, with_socket, a_socket}

-- A kernel that returns what the last call has stored.
abbrev remembering : List Call → Call → Reply
remembering (Call.setsockopt fd level opt (v ∷ []) ∷ t) c = record (returns (pos 0)) { num = v }
remembering (Call.setsockopt fd level opt (v ∷ w ∷ vs) ∷ t) c = record (returns (pos 0)) {
  num = v;
  num2 = w;
}
remembering t c = returns (pos 0)

abbrev a_state : St
a_state = with_socket a_socket remembering

sockopt-roundtrip_example :
    ((sockopt_int_lua sol_socket so_rcvbuf tnumber 2 (Arg.given (pos 4096)) a_state).0
      ≡ ok (Value.integer (pos 0) ∷ []))
    × ((sockopt_int_lua sol_socket so_rcvbuf tnumber 2 Arg.absent
          (sockopt_int_lua sol_socket so_rcvbuf tnumber 2 (Arg.given (pos 4096)) a_state).1).0
        ≡ ok (Value.integer (pos 4096) ∷ []))
sockopt-roundtrip_example =
    sockopt-roundtrip sol_socket so_rcvbuf tnumber 2 (pos 4096) a_state refl refl refl refl

abbrev datagram : St
datagram = with_socket (record a_socket { socktype = sock_dgram }) remembering

abbrev local : St
local = with_socket (record a_socket { socktype = sock_dgram; family = af_unix }) remembering
