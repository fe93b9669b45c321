-- ===== src/Tests/Addresses.antt =====
-- Applications of the theorems on addresses.
use lua_llsocket.Prelude.{◌≡◌, refl, [], ◌∷◌, map, arith}
use lua_llsocket.Prelude.Int.{pos}
use lua_llsocket.Host.Os.{Call}
use lua_llsocket.Host.Lua.{Value, Arg, Addrinfo}
use lua_llsocket.Host.Consts.{af_inet, af_unix}
use lua_llsocket.Host.{St, ok}
use lua_llsocket.Connect.{getsockname_lua}
use lua_llsocket.Addresses.{addr_lua, port_lua, c_string, inet_lua, unix_lua}
use lua_llsocket.Addresses.Roundtrip.{unix-addr, inet-roundtrip}
use lua_llsocket.Addresses.Resolve.{resolve, copied, frees, getaddrinfo-answers, unnamed-junk}
use lua_llsocket.Tests.{returns, always, with_socket, a_socket, an_address, done_state}

-- "1.2.3.4" is a text that `inet_pton` reads.
abbrev parses : St
parses = with_socket a_socket (always (record (returns (pos 1)) { bytes = 1 ∷ 2 ∷ 3 ∷ 4 ∷ [] }))

unix-addr_example :
    (info : Addrinfo) × ((unix_lua
        (Arg.given (47 ∷ 115 ∷ []))
        Arg.absent
        Arg.absent
        Arg.absent
        done_state).0
      ≡ ok (Value.addrinfo info ∷ []))
    × ((addr_lua (88 ∷ []) info done_state).0 ≡ ok (Value.string (47 ∷ 115 ∷ []) ∷ []))
unix-addr_example = unix-addr (47 ∷ 115 ∷ []) (88 ∷ []) done_state done_state (omega arith) refl

inet-roundtrip_example :
    (info : Addrinfo) × ((inet_lua
        (Arg.given (49 ∷ 46 ∷ 50 ∷ 46 ∷ 51 ∷ 46 ∷ 52 ∷ []))
        (Arg.given 8080)
        Arg.absent
        Arg.absent
        Arg.absent
        parses).0
      ≡ ok (Value.addrinfo info ∷ []))
    × (port_lua (88 ∷ []) info ≡ Value.integer (pos 8080) ∷ [])
    × ((addr_lua (88 ∷ []) info done_state).1.trace
        ≡ Call.inet_ntop af_inet (1 ∷ 2 ∷ 3 ∷ 4 ∷ []) ∷ [])
inet-roundtrip_example =
    inet-roundtrip 49 (46 ∷ 50 ∷ 46 ∷ 51 ∷ 46 ∷ 52 ∷ []) (1 ∷ 2 ∷ 3 ∷ 4 ∷ []) 8080 (88 ∷ []) parses
      done_state (omega arith) refl refl refl

-- A name with two addresses.
abbrev resolves : St
resolves = with_socket a_socket (
    always (record (returns (pos 0)) {
      infos = an_address ∷ record an_address { ai_protocol = pos 6 } ∷ [];
    }))

getaddrinfo-answers_example :
    ((resolve (104 ∷ []) (56 ∷ 48 ∷ []) resolves).0
      ≡ ok (
          Value.addrinfo_list
            (map copied (an_address ∷ record an_address { ai_protocol = pos 6 } ∷ []))
          ∷ []))
    × (frees (resolve (104 ∷ []) (56 ∷ 48 ∷ []) resolves).1.trace ≡ 1)
getaddrinfo-answers_example = getaddrinfo-answers (104 ∷ []) (56 ∷ 48 ∷ []) resolves

-- The name of a socket that `socketpair` has made.
abbrev unnamed : St
unnamed =
    with_socket (record a_socket { family = af_unix })
      (always (record (returns (pos 0)) { addr = 1 ∷ 0 ∷ []; len = 2 }))

unnamed-junk_example :
    (info : Addrinfo) × ((getsockname_lua 2 unnamed).0 ≡ ok (Value.addrinfo info ∷ []))
    × ((addr_lua (88 ∷ 0 ∷ []) info done_state).0 ≡ ok (Value.string (c_string (88 ∷ 0 ∷ [])) ∷ []))
unnamed-junk_example = unnamed-junk 2 (88 ∷ 0 ∷ []) 1 0 [] unnamed done_state refl refl refl refl
