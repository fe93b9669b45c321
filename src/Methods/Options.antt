-- ===== src/Methods/Options.antt =====
-- The options of a socket: each answers the old value, or nil and an error.
use lua_llsocket.Prelude.{ℕ, ◌≡◌, Bool, true, false, [], ◌∷◌, arith}
use lua_llsocket.Prelude.Int.{ℤ}
use lua_llsocket.Host.Lua.{Arg, Seconds}
use lua_llsocket.Host.{Ptr, St}
use lua_llsocket.Sockopt.{
  lls_sockopt_int_lua, LuaType, lls_sockopt_timeval_lua, lls_fcntl_lua, sockopt_int_lua,
  sockopt_timeval_lua, linger_lua, error_lua,
}
use lua_llsocket.Methods.Types.{Ty, is_end, is_wrong}
use lua_llsocket.Methods.Ends.{IsEnding}

abbrev pub option_type : LuaType → Ty
option_type LuaType.tboolean = Ty.boolean
option_type LuaType.tnumber = Ty.integer

pub lls_sockopt_int-IsEnding :
    (fd : ℤ) (level opt : ℕ) (type : LuaType) (arg : Arg ℤ)
    → IsEnding
        (is_end (option_type type ∷ Ty.error ∷ []) false (is_wrong arg) false false)
        (lls_sockopt_int_lua fd level opt type arg)
unfolding lls_sockopt_int_lua
lls_sockopt_int-IsEnding fd level opt LuaType.tboolean arg = record { ends = λ st. ground arith }
lls_sockopt_int-IsEnding fd level opt LuaType.tnumber arg = record { ends = λ st. ground arith }

pub sockopt_int-ends :
    (level opt : ℕ) (type : LuaType) (arg : Arg ℤ) (sp : Ptr) (st : St)
    → is_end
        (option_type type ∷ Ty.error ∷ [])
        false
        (is_wrong arg)
        false
        false
        (sockopt_int_lua level opt type sp arg st).0
      ≡ true
unfolding sockopt_int_lua
sockopt_int-ends level opt type arg sp st =
    (lls_sockopt_int-IsEnding (st.socks sp).fd level opt type arg).ends st

pub sockopt_timeval-ends :
    (level opt : ℕ) (arg : Arg Seconds) (sp : Ptr) (st : St)
    → is_end
        (Ty.number ∷ Ty.error ∷ [])
        false
        (is_wrong arg)
        false
        false
        (sockopt_timeval_lua level opt sp arg st).0
      ≡ true
unfolding sockopt_timeval_lua lls_sockopt_timeval_lua
sockopt_timeval-ends level opt arg sp st = ground arith

pub lls_fcntl-ends :
    (fd : ℤ) (getfl setfl fl : ℕ) (arg : Arg Bool) (st : St)
    → is_end
        (Ty.boolean ∷ Ty.error ∷ [])
        false
        (is_wrong arg)
        false
        false
        (lls_fcntl_lua fd getfl setfl fl arg st).0
      ≡ true
unfolding lls_fcntl_lua
lls_fcntl-ends fd getfl setfl fl arg st = ground arith

pub linger-ends :
    (arg : Arg ℤ) (sp : Ptr) (st : St)
    → is_end (Ty.integer ∷ Ty.error ∷ []) false (is_wrong arg) false false (linger_lua sp arg st).0
      ≡ true
unfolding linger_lua
linger-ends arg sp st = ground arith

pub error-ends :
    (arg : Arg ℤ) (sp : Ptr) (st : St)
    → is_end (Ty.soerr ∷ Ty.error ∷ []) false (is_wrong arg) false false (error_lua sp arg st).0
      ≡ true
unfolding error_lua sockopt_int_lua lls_sockopt_int_lua
error-ends arg sp st = ground arith
