-- ===== src/Tests/Beginning.antt =====
-- Applications of the theorems on sockets that begin.
use lua_llsocket.Prelude.{ℕ, ◌≡◌, ◌⊎◌, refl, true, false, List, [], ◌∷◌, if◌then◌else◌, arith}
use lua_llsocket.Prelude.Int.{pos, minus_one, ◌==ℤ◌}
use lua_llsocket.Host.Os.{Call, Reply}
use lua_llsocket.Host.Lua.{Value, Arg}
use lua_llsocket.Host.Trace.{lifecycle}
use lua_llsocket.Host.{null, St, ok}
use lua_llsocket.Life.{gc_lua}
use lua_llsocket.Create.{new_lua, pair_lua, acceptfd, acceptfd_portable, accept_lua}
use lua_llsocket.Create.Leak.{Owned, new_lua-Owned}
use lua_llsocket.Create.Pair.{pair-double_close}
use lua_llsocket.Create.Accept.{accept-inherits, portable-keeps, accept_call, flags_call}
use lua_llsocket.Tests.{returns, fails, idle, always, with_socket, a_socket}

abbrev opened : St
opened = with_socket a_socket (always (returns (pos 7)))

new_lua-Owned_example :
    Owned
      (pos 7)
      20
      opened
      (new_lua (Arg.given (pos 2)) (Arg.given (pos 1)) (Arg.given (pos 6)) (Arg.given true) opened)
new_lua-Owned_example =
    new_lua-Owned (pos 2) (pos 1) (pos 6) (pos 7) true opened refl (ground arith)

accept-inherits_example :
    ((accept_lua acceptfd 2 Arg.absent opened).0 ≡ ok (Value.socket 20 ∷ []))
    × ((accept_lua acceptfd 2 Arg.absent opened).1.socks 20
        ≡ record a_socket { fd = pos 7; gcfunc = null })
    × ((accept_lua acceptfd 2 Arg.absent opened).1.has_meta 20 ≡ true)
    × ((accept_lua acceptfd 2 Arg.absent opened).1.trace
        ≡ accept_call a_socket (pos 7) ∷ flags_call a_socket ∷ [])
accept-inherits_example =
    accept-inherits 2 (pos 7) (pos 7) opened refl (ground arith) refl (ground arith)

portable-keeps_example :
    ((addr : List ℕ) × (len : ℕ) × ((acceptfd_portable (pos 6) false opened).0
        ≡ ok (pos 7, addr, len))
      × (lifecycle (acceptfd_portable (pos 6) false opened).1.trace ≡ lifecycle opened.trace))
    ⊎ (((acceptfd_portable (pos 6) false opened).0 ≡ ok (minus_one, [], 0))
        × (lifecycle (acceptfd_portable (pos 6) false opened).1.trace
            ≡ Call.close (pos 7) ∷ lifecycle opened.trace))
portable-keeps_example =
    portable-keeps (pos 6) (pos 7) false opened (ground arith) refl (ground arith)

-- `socketpair` opens 3 and 4. In the second machine the flags of 4 cannot be set.
abbrev pairing : List Call → Call → Reply
pairing t (Call.socketpair family type protocol) = record (returns (pos 0)) {
  num = pos 3;
  num2 = pos 4;
}
pairing t c = returns (pos 0)

abbrev half_pairing : List Call → Call → Reply
half_pairing t (Call.socketpair family type protocol) = record (returns (pos 0)) {
  num = pos 3;
  num2 = pos 4;
}
half_pairing t (Call.fcntl fd cmd arg) = if fd ==ℤ pos 4 then fails 9 else returns (pos 0)
half_pairing t c = returns (pos 0)

abbrev half_paired : St
half_paired = with_socket a_socket half_pairing

pair-double_close_example :
    let st' = (pair_lua (Arg.given (pos 1)) (Arg.given (pos 0)) Arg.absent half_paired).1 in
    (st'.has_meta 20 ≡ true)
    × (lifecycle (gc_lua idle 1 20 st').1.trace
        ≡ Call.close (pos 3) ∷ Call.close (pos 4) ∷ Call.close (pos 3) ∷ [])
pair-double_close_example =
    pair-double_close idle 0 (pos 1) (pos 0) half_paired refl refl refl (ground arith)
