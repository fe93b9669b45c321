-- ===== src/Life/Unwrap.antt =====
-- `unwrap_lua`, `gc_lua` and `dup_lua` of src/socket.c.
use lua_llsocket.Prelude.{
  ℕ, ◌<◌, ==_refl, ◌≡◌, ◌≢◌, refl, ◌⊎◌, true, false, List, [], ◌∷◌, arith, length,
}
use lua_llsocket.Prelude.Int.{ℤ, minus_one, ==ℤ_ne}
use lua_llsocket.Host.Os.{Call}
use lua_llsocket.Host.Lua.{Value}
use lua_llsocket.Host.Registry.{IsRegistry}
use lua_llsocket.Host.Trace.{lifecycle, IsQuiet}
use lua_llsocket.Host.{
  Ptr, null, St, Cmd, ok, bind_ok, put_meta, put_sock, gets, modify, pure, ◌>>=◌, ◌>>◌,
}
use lua_llsocket.Gcfn.Chain.{Chain}
use lua_llsocket.Finalise.{gcfn_done, call_gcfn}
use lua_llsocket.Finalise.Run.{ran, call_gcfn-Finalised}
use lua_llsocket.Life.{unwrap_lua, gc_lua, dup_lua}
use lua_llsocket.Life.Collect.{gc_lua-behind}

-- What `unwrap_lua` has done: the finalisers have run, no descriptor was shut down or closed, and
-- the socket has neither a descriptor nor a metatable left.
pub record Released (sp : Ptr) (xs : List Ptr) (st : St) (st' : St) : Type 0 where
  pub log : lifecycle st'.trace ≡ ran st.gcfns xs (lifecycle st.trace)
  pub socket : st'.socks sp ≡ record (st.socks sp) { fd = minus_one; gcfunc = gcfn_done }
  pub no_meta : st'.has_meta sp ≡ false

-- What `unwrap_lua` does behind the finalisers.
abbrev pub release : Ptr → Unit {0} → Cmd (List Value)
release sp _ = do
  modify (put_meta sp false)
  s ← gets λ st. st.socks sp
  modify (put_sock sp (record s { fd = minus_one }))
  pure (Value.integer s.fd ∷ [])

unwrap-behind :
    (fin : ℤ → St → St) (fuel : ℕ) (sp : Ptr) (st : St)
    → (call_gcfn fin fuel sp st).0 ≡ ok tt
    → unwrap_lua fin fuel sp st ≡ release sp tt (call_gcfn fin fuel sp st).1
unfolding unwrap_lua
unwrap-behind fin fuel sp st e = bind_ok (call_gcfn fin fuel sp) (release sp) st e

-- Unwrapping a socket whose finalisers are linked and quiet, with fuel for each of them and one
-- more round, answers its descriptor, still open: each finaliser has run once, the newest first,
-- and the socket keeps neither the descriptor nor its metatable.
pub unwrap-Released :
    (fin : ℤ → St → St) (fuel : ℕ) (sp : Ptr) (xs : List Ptr) (st : St)
    → IsQuiet fin
    → IsRegistry st.os
    → Chain st.gcfns null (st.socks sp).gcfunc xs
    → length xs < fuel
    → ((unwrap_lua fin fuel sp st).0 ≡ ok (Value.integer (st.socks sp).fd ∷ []))
      × Released sp xs st (unwrap_lua fin fuel sp st).1
unwrap-Released fin fuel sp xs st quiet reg c l =
    let f = call_gcfn-Finalised fin fuel sp xs st quiet reg c l in
    rw (unwrap-behind fin fuel sp st f.0) (
      rw f.1.marked refl,
      record {
        log = f.1.log;
        socket = rw (==_refl sp) (rw f.1.marked refl);
        no_meta = rw (==_refl sp) refl;
      },
    )

-- Collecting an open socket whose finalisers are linked and quiet, with fuel for each of them and
-- one more round, returns without a value: each finaliser has run once, the newest first, and
-- then the descriptor has been closed, without being shut down.
pub gc-closes :
    (fin : ℤ → St → St) (fuel : ℕ) (sp : Ptr) (xs : List Ptr) (st : St)
    → IsQuiet fin
    → IsRegistry st.os
    → Chain st.gcfns null (st.socks sp).gcfunc xs
    → length xs < fuel
    → (st.socks sp).fd ≢ minus_one
    → ((gc_lua fin fuel sp st).0 ≡ ok [])
      × (lifecycle (gc_lua fin fuel sp st).1.trace
          ≡ Call.close (st.socks sp).fd ∷ ran st.gcfns xs (lifecycle st.trace))
gc-closes fin fuel sp xs st quiet reg c l ne =
    let f = call_gcfn-Finalised fin fuel sp xs st quiet reg c l in
    rw (gc_lua-behind fin fuel sp st ne f.0) (refl, rw (f.1.log, f.1.marked) refl)

-- How `dup_lua` may end once `dup` has returned `fd`: with a socket that differs from the old one
-- in its descriptor and has no finaliser, `fd` being left open, or with the error of `fcntl`, no
-- socket and `fd` closed.
pub dup-owned :
    (sp : Ptr) (fd : ℤ) (st : St)
    → (st.os st.trace (Call.dup (st.socks sp).fd)).ret ≡ fd
    → fd ≢ minus_one
    → (((dup_lua sp st).0 ≡ ok (Value.socket st.fresh ∷ []))
        × ((dup_lua sp st).1.socks st.fresh ≡ record (st.socks sp) { fd = fd; gcfunc = null })
        × ((dup_lua sp st).1.has_meta st.fresh ≡ true)
        × (lifecycle (dup_lua sp st).1.trace ≡ lifecycle st.trace))
      ⊎ (((e : ℕ) × ((dup_lua sp st).0 ≡ ok (Value.nil ∷ Value.failure e "fcntl" ∷ [])))
          × ((dup_lua sp st).1.socks ≡ st.socks)
          × ((dup_lua sp st).1.has_meta st.fresh ≡ false)
          × (lifecycle (dup_lua sp st).1.trace ≡ Call.close fd ∷ lifecycle st.trace))
unfolding dup_lua
dup-owned sp fd st e ne = let o = ==ℤ_ne fd minus_one ne in let r = ==_refl st.fresh in ground arith
