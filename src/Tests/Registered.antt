-- ===== src/Tests/Registered.antt =====
-- Applications of the theorems on the tables that Lua code sees, and on what it calls.
use lua_llsocket.Prelude.{◌≡◌, refl, true, some, [], ◌∷◌}
use lua_llsocket.Prelude.Int.{pos}
use lua_llsocket.Host.Lua.{Arg}
use lua_llsocket.Gcfn.Closure.{LuaValue, Called, new_closure, finaliser_calls, closure-calls}
use lua_llsocket.Register.Functions.{CFunction, SocketMethod}
use lua_llsocket.Register.Places.{place, find}
use lua_llsocket.Register.Opened.{opened, opened-found}
use lua_llsocket.Methods.Call.{call}
use lua_llsocket.Methods.Documented.{is_documented}
use lua_llsocket.Methods.Typed.{call-is_documented}
use lua_llsocket.Tests.{idle, open_state}

opened-found_example :
    find
      (opened (("MSG_PEEK", pos 2) ∷ []) (some (pos 2)) (("SCM_RIGHTS", pos 1) ∷ []) 1)
      (place (CFunction.method SocketMethod.recvfrom_lua))
    ≡ some (CFunction.method SocketMethod.recvfrom_lua)
opened-found_example =
    opened-found (("MSG_PEEK", pos 2) ∷ []) (some (pos 2)) (("SCM_RIGHTS", pos 1) ∷ []) 1
      (CFunction.method SocketMethod.recvfrom_lua) refl refl

call-is_documented_example :
    is_documented SocketMethod.send_lua
      (Arg.given (104 ∷ 105 ∷ []), Arg.absent)
      (call idle 3 true SocketMethod.send_lua
        (Arg.given (104 ∷ 105 ∷ []), Arg.absent)
        2
        open_state).0
    ≡ true
call-is_documented_example =
    call-is_documented idle 3 true SocketMethod.send_lua (Arg.given (104 ∷ 105 ∷ []), Arg.absent) 2
      open_state

closure-calls_example :
    finaliser_calls (
      new_closure 2 (
        LuaValue.other 9
        ∷ LuaValue.nil
        ∷ LuaValue.function 7
        ∷ LuaValue.other 1
        ∷ LuaValue.other 2
        ∷ []))
    ≡ some (Called.calls (LuaValue.function 7) (LuaValue.other 1 ∷ LuaValue.other 2 ∷ []))
closure-calls_example =
    closure-calls (LuaValue.other 9) LuaValue.nil 7 (LuaValue.other 1 ∷ LuaValue.other 2 ∷ []) refl
