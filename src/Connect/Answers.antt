-- ===== src/Connect/Answers.antt =====
-- What the connection functions answer to each outcome of their call.
use lua_llsocket.Prelude.{ℕ, ◌==◌, Bool, true, false, ◌&&◌, ◌||◌, ◌≡◌, not, List, ◌∷◌, arith, some}
use lua_llsocket.Prelude.Int.{pos, ◌==ℤ◌}
use lua_llsocket.Host.Os.{Call}
use lua_llsocket.Host.Lua.{Value, Arg, Addrinfo}
use lua_llsocket.Host.Consts.{eagain, etimedout, einprogress, ealready}
use lua_llsocket.Host.{Ptr, St, Outcome, ok}
use lua_llsocket.Connect.{connect_lua}

-- The first value of an answer is true.
abbrev pub says_true : Outcome (List Value) → Bool
says_true (ok (Value.boolean b ∷ vs)) = b
says_true o = false

-- The third value of an answer is true: the caller is to try again.
abbrev pub says_again : Outcome (List Value) → Bool
says_again (ok (v ∷ w ∷ Value.boolean b ∷ vs)) = b
says_again o = false

-- The answer has an error.
abbrev pub says_error : Outcome (List Value) → Bool
says_error (ok (v ∷ Value.failure e op ∷ vs)) = true
says_error o = false

-- `connect` of an address answers true and no error when the call succeeds. When it fails with the
-- error `e`, there is an error; the first value is true exactly when the connection is being made,
-- and the caller is told to try again exactly when `e` is EAGAIN or ETIMEDOUT, so never both.
pub connect-outcome :
    (sp : Ptr) (info : Addrinfo) (e : ℕ) (st : St)
    → (st.os st.trace (Call.connect (st.socks sp).fd info.ai_addr info.ai_addrlen)).errno ≡ some e
    → let r = (st.os st.trace (Call.connect (st.socks sp).fd info.ai_addr info.ai_addrlen)).ret in
      let o = (connect_lua sp (Arg.given info) st).0 in
      (says_error o ≡ not (r ==ℤ pos 0))
      × (says_true o ≡ ((r ==ℤ pos 0) || e == einprogress || e == ealready))
      × (says_again o ≡ (not (r ==ℤ pos 0) && (e == eagain || e == etimedout)))
      × ((says_true o && says_again o) ≡ false)
unfolding connect_lua
connect-outcome sp info e st h = ground (arith, h)
