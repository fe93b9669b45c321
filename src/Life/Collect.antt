-- ===== src/Life/Collect.antt =====
-- `gc_lua` of src/socket.c.
use lua_llsocket.Prelude.{ℕ, suc, ==_refl, ◌≡◌, ◌≢◌, List, [], ◌∷◌, ap}
use lua_llsocket.Prelude.Int.{ℤ, minus_one, ==ℤ_ne}
use lua_llsocket.Host.Os.{Call}
use lua_llsocket.Host.Lua.{Value}
use lua_llsocket.Host.{Ptr, null, St, Cmd, ok, bind_ok, put_sock, ◌>>=◌, ◌>>◌, pure, sys, gets}
use lua_llsocket.Finalise.{gcfn_done, call_gcfn, call_gcfn_loop}
use lua_llsocket.Life.{gc_lua}

-- Without finalisers, `call_gcfn` only marks the socket.
pub call_gcfn-null :
    (fin : ℤ → St → St) (fuel : ℕ) (sp : Ptr) (st : St)
    → (st.socks sp).gcfunc ≡ null
    → call_gcfn fin (suc fuel) sp st
      ≡ (ok tt, put_sock sp (record (st.socks sp) { gcfunc = gcfn_done }) st)
unfolding call_gcfn call_gcfn_loop
call_gcfn-null fin fuel sp st e = rw e

-- What `gc_lua` does behind the finalisers.
abbrev pub last_close : Ptr → Unit {0} → Cmd (List Value)
last_close sp _ = do s ← gets λ st. st.socks sp; sys (Call.close s.fd); pure []

pub gc_lua-behind :
    (fin : ℤ → St → St) (fuel : ℕ) (sp : Ptr) (st : St)
    → (st.socks sp).fd ≢ minus_one
    → (call_gcfn fin fuel sp st).0 ≡ ok tt
    → gc_lua fin fuel sp st ≡ last_close sp tt (call_gcfn fin fuel sp st).1
unfolding gc_lua
gc_lua-behind fin fuel sp st ne e =
    rw (==ℤ_ne _ _ ne) (bind_ok (call_gcfn fin fuel sp) (last_close sp) st e)

-- Collecting an open socket without finalisers closes its descriptor.
pub gc_lua-plain :
    (fin : ℤ → St → St) (fuel : ℕ) (sp : Ptr) (st : St)
    → (st.socks sp).fd ≢ minus_one
    → (st.socks sp).gcfunc ≡ null
    → (gc_lua fin (suc fuel) sp st).1.trace ≡ Call.close (st.socks sp).fd ∷ st.trace
gc_lua-plain fin fuel sp st ne e =
    let c = call_gcfn-null fin fuel sp st e in
    rw (gc_lua-behind fin (suc fuel) sp st ne (ap (λ r. r.0) c), c, ==_refl sp)
