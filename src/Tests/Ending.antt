-- ===== src/Tests/Ending.antt =====
-- Applications of the theorems on closing, collecting and unwrapping.
use lua_llsocket.Prelude.{ℕ, ◌≡◌, ◌⊎◌, some, refl, true, false, List, [], ◌∷◌, arith}
use lua_llsocket.Prelude.Int.{pos}
use lua_llsocket.Host.Os.{Call, Reply}
use lua_llsocket.Host.Lua.{Value, Arg}
use lua_llsocket.Host.Trace.{lifecycle}
use lua_llsocket.Host.{null, St, ok}
use lua_llsocket.Finalise.{call_gcfn}
use lua_llsocket.Finalise.Run.{Finalised, ran, call_gcfn-Finalised}
use lua_llsocket.Life.{closefd, close_lua, gc_lua, unwrap_lua, dup_lua}
use lua_llsocket.Life.Close.{Shut, close_lua-Shut}
use lua_llsocket.Life.Answers.{closefd_meant, closefd-reports}
use lua_llsocket.Life.Unwrap.{Released, unwrap-Released, gc-closes, dup-owned}
use lua_llsocket.Tests.{
  returns, fails, idle, idle-IsQuiet, machine-IsRegistry, always, open_state, open-Chain,
  with_socket, a_socket, two_gcfns,
}

close_lua-Shut_example :
    (answer : List Value) × ((close_lua idle 3 2 (Arg.given (pos 1)) open_state).0 ≡ ok answer)
    × Shut 2
        (10 ∷ 11 ∷ [])
        (pos 1)
        true
        open_state
        (close_lua idle 3 2 (Arg.given (pos 1)) open_state).1
close_lua-Shut_example =
    close_lua-Shut idle 3 2 (10 ∷ 11 ∷ []) (Arg.given (pos 1)) open_state idle-IsQuiet
      (machine-IsRegistry (always (returns (pos 0)))) open-Chain (omega arith) (ground arith)
      (ground arith)

call_gcfn-Finalised_example :
    ((call_gcfn idle 3 2 open_state).0 ≡ ok tt)
    × Finalised 2 (10 ∷ 11 ∷ []) open_state (call_gcfn idle 3 2 open_state).1
call_gcfn-Finalised_example =
    call_gcfn-Finalised idle 3 2 (10 ∷ 11 ∷ []) open_state idle-IsQuiet
      (machine-IsRegistry (always (returns (pos 0)))) open-Chain (omega arith)

gc-closes_example :
    ((gc_lua idle 3 2 open_state).0 ≡ ok [])
    × (lifecycle (gc_lua idle 3 2 open_state).1.trace
        ≡ Call.close (pos 6) ∷ ran two_gcfns (10 ∷ 11 ∷ []) [])
gc-closes_example =
    gc-closes idle 3 2 (10 ∷ 11 ∷ []) open_state idle-IsQuiet
      (machine-IsRegistry (always (returns (pos 0)))) open-Chain (omega arith) (ground arith)

unwrap-Released_example :
    ((unwrap_lua idle 3 2 open_state).0 ≡ ok (Value.integer (pos 6) ∷ []))
    × Released 2 (10 ∷ 11 ∷ []) open_state (unwrap_lua idle 3 2 open_state).1
unwrap-Released_example =
    unwrap-Released idle 3 2 (10 ∷ 11 ∷ []) open_state idle-IsQuiet
      (machine-IsRegistry (always (returns (pos 0)))) open-Chain (omega arith)

-- `shutdown` fails with ENOTCONN, and `close`, which succeeds, leaves another number in `errno`.
abbrev half_closed : List Call → Call → Reply
half_closed t (Call.shutdown fd how) = fails 107
half_closed t c = record (returns (pos 0)) { errno = some 5 }

closefd-reports_example :
    (closefd (pos 6) (pos 2) true (with_socket a_socket half_closed)).0
    ≡ ok (Value.boolean false ∷ Value.failure 5 "shutdown" ∷ [])
unfolding closefd_meant
closefd-reports_example =
    closefd-reports (pos 6) (pos 2) true 106 0 (with_socket a_socket half_closed) (λ ne. refl)
      λ ne. absurd (ne refl)

abbrev duplicated : St
duplicated = with_socket a_socket (always (returns (pos 8)))

dup-owned_example :
    (((dup_lua 2 duplicated).0 ≡ ok (Value.socket 20 ∷ []))
      × ((dup_lua 2 duplicated).1.socks 20 ≡ record a_socket { fd = pos 8; gcfunc = null })
      × ((dup_lua 2 duplicated).1.has_meta 20 ≡ true)
      × (lifecycle (dup_lua 2 duplicated).1.trace ≡ lifecycle duplicated.trace))
    ⊎ (((e : ℕ) × ((dup_lua 2 duplicated).0 ≡ ok (Value.nil ∷ Value.failure e "fcntl" ∷ [])))
        × ((dup_lua 2 duplicated).1.socks ≡ duplicated.socks)
        × ((dup_lua 2 duplicated).1.has_meta 20 ≡ false)
        × (lifecycle (dup_lua 2 duplicated).1.trace
            ≡ Call.close (pos 8) ∷ lifecycle duplicated.trace))
dup-owned_example = dup-owned 2 (pos 8) duplicated refl (ground arith)
