-- ===== src/Sockopt/Roundtrip.antt =====
-- Setting and then reading an option of src/socket.c.
use lua_llsocket.Prelude.{ℕ, ◌≡◌, List, [], ◌∷◌, if◌then◌else◌, Bool-cases, inl, inr}
use lua_llsocket.Prelude.Int.{ℤ, pos, minus_one, to_int}
use lua_llsocket.Host.Os.{Call}
use lua_llsocket.Host.Lua.{Value, Arg}
use lua_llsocket.Host.Consts.{sol_socket, so_linger}
use lua_llsocket.Host.{Ptr, St, ok}
use lua_llsocket.Sockopt.{LuaType, int_value, sockopt_int_lua, linger_lua, is_natural}

-- The calls of a read, and of a read and a write that follow each other.
abbrev pub get : St → Ptr → (level opt : ℕ) → Call
get st sp level opt = Call.getsockopt (st.socks sp).fd level opt

abbrev pub set : St → Ptr → (level opt : ℕ) → List ℤ → Call
set st sp level opt value = Call.setsockopt (st.socks sp).fd level opt value

-- Setting an integer option answers its old value; the next call without an argument answers the
-- new one, as an `int` or as a Boolean by the option's type. The kernel is assumed to accept the
-- three calls and to return from the last what the second stored.
pub sockopt-roundtrip :
    (level opt : ℕ) (type : LuaType) (sp : Ptr) (v : ℤ) (st : St)
    → (st.os st.trace (get st sp level opt)).ret ≡ pos 0
    → (st.os (get st sp level opt ∷ st.trace) (set st sp level opt (to_int v ∷ []))).ret ≡ pos 0
    → (st.os
        (set st sp level opt (to_int v ∷ []) ∷ get st sp level opt ∷ st.trace)
        (get st sp level opt)).ret
      ≡ pos 0
    → (st.os
        (set st sp level opt (to_int v ∷ []) ∷ get st sp level opt ∷ st.trace)
        (get st sp level opt)).num
      ≡ to_int v
    → ((sockopt_int_lua level opt type sp (Arg.given v) st).0
        ≡ ok (int_value type (st.os st.trace (get st sp level opt)).num ∷ []))
      × ((sockopt_int_lua level opt type sp Arg.absent
            (sockopt_int_lua level opt type sp (Arg.given v) st).1).0
          ≡ ok (int_value type (to_int v) ∷ []))
unfolding sockopt_int_lua
sockopt-roundtrip level opt type sp v st g s g' n = (rw (g, s), rw (g, s, g', n))

-- When `getsockopt` fails, an integer option is not set, whatever the argument.
pub sockopt-unread :
    (level opt : ℕ) (type : LuaType) (sp : Ptr) (arg : Arg ℤ) (st : St)
    → (st.os st.trace (get st sp level opt)).ret ≡ minus_one
    → (sockopt_int_lua level opt type sp arg st).1.trace ≡ get st sp level opt ∷ st.trace
unfolding sockopt_int_lua
sockopt-unread level opt type sp arg st g = rw g

-- The `struct linger` that a number of seconds stands for.
abbrev pub linger_of : ℤ → List ℤ
linger_of z = (if is_natural z then pos 1 else pos 0) ∷ z ∷ []

-- Setting the linger time and reading it answers the time as an `int`, or -1 for every negative
-- one, which turns lingering off. The kernel is assumed to accept the three calls and to return
-- from the last what the second stored.
pub linger-roundtrip :
    (sp : Ptr) (v : ℤ) (st : St)
    → (st.os st.trace (get st sp sol_socket so_linger)).ret ≡ pos 0
    → (st.os
        (get st sp sol_socket so_linger ∷ st.trace)
        (set st sp sol_socket so_linger (linger_of (to_int v)))).ret
      ≡ pos 0
    → (st.os
        (set st sp sol_socket so_linger (linger_of (to_int v))
          ∷ get st sp sol_socket so_linger
          ∷ st.trace)
        (get st sp sol_socket so_linger)).ret
      ≡ pos 0
    → (st.os
        (set st sp sol_socket so_linger (linger_of (to_int v))
          ∷ get st sp sol_socket so_linger
          ∷ st.trace)
        (get st sp sol_socket so_linger)).num
      ≡ (if is_natural (to_int v) then pos 1 else pos 0)
    → (st.os
        (set st sp sol_socket so_linger (linger_of (to_int v))
          ∷ get st sp sol_socket so_linger
          ∷ st.trace)
        (get st sp sol_socket so_linger)).num2
      ≡ to_int v
    → (linger_lua sp Arg.absent (linger_lua sp (Arg.given v) st).1).0
      ≡ ok (Value.integer (if is_natural (to_int v) then to_int v else minus_one) ∷ [])
unfolding linger_lua
linger-roundtrip sp v st g s g' n m = elim (Bool-cases (is_natural (to_int v))) [
  | inl e ↦ rw (g, s, g', n, m, e)
  | inr e ↦ rw (g, s, g', n, m, e)
]
