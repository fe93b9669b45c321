-- ===== src/Tests/Members.antt =====
-- Applications of the theorems on the members of a list of finalisers.
use lua_llsocket.Prelude.{◌≡◌, refl, true, [], ◌∷◌, arith}
use lua_llsocket.Prelude.Int.{pos}
use lua_llsocket.Host.Lua.{Value, Arg}
use lua_llsocket.Host.{ok}
use lua_llsocket.Finalise.{addgcfn_lua, delgcfn_lua}
use lua_llsocket.Finalise.Adding.{Added, addgcfn_lua-Added}
use lua_llsocket.Finalise.Members.{Holds, Removed, delgcfn_lua-Removed}
use lua_llsocket.Tests.{returns, machine-IsRegistry, always, open_state, open-Chain}

open-Holds : Holds 2 (10 ∷ 11 ∷ []) open_state
open-Holds = record { chain = open-Chain; not_done = refl }

addgcfn_lua-Added_example :
    ((addgcfn_lua 2 Arg.null (Arg.given tt) open_state).0 ≡ ok (Value.gcfn 20 ∷ []))
    × Added 2 20 (10 ∷ 11 ∷ []) open_state (addgcfn_lua 2 Arg.null (Arg.given tt) open_state).1
addgcfn_lua-Added_example =
    addgcfn_lua-Added 2 (10 ∷ 11 ∷ []) open_state (machine-IsRegistry (always (returns (pos 0))))
      open-Holds refl (omega arith)

delgcfn_lua-Removed_example :
    ((delgcfn_lua 2 (Arg.given 11) open_state).0 ≡ ok (Value.boolean true ∷ []))
    × Removed 2 11 (10 ∷ 11 ∷ []) open_state (delgcfn_lua 2 (Arg.given 11) open_state).1
delgcfn_lua-Removed_example =
    delgcfn_lua-Removed 2 11 (10 ∷ 11 ∷ []) open_state
      (machine-IsRegistry (always (returns (pos 0)))) open-Holds refl
