-- ===== src/Finalise.antt =====
-- The finalisers of a socket: `call_gcfn`, `addgcfn_lua` and `delgcfn_lua` of src/socket.c.
pub mod Adding
pub mod Members
pub mod Run
use lua_llsocket.Prelude.{ℕ, zero, suc, ◌==◌, Bool, true, false, List, [], ◌∷◌, if◌then◌else◌}
use lua_llsocket.Prelude.Int.{ℤ, pos}
use lua_llsocket.Host.Lua.{Value, Arg}
use lua_llsocket.Host.Consts.{ebadf}
use lua_llsocket.Host.{
  Ptr, null, Gcfn, St, Cmd, out_of_fuel, pure, ◌>>=◌, ◌>>◌, gets, modify, put_sock, check,
}
use lua_llsocket.Gcfn.{lls_gcfn_new, lls_gcfn_del, lls_gcfn_call}

-- The address of `GCFN_DONE`, which marks a socket whose finalisers have been called.
abbrev pub gcfn_done : Ptr
gcfn_done = 1

-- Its initial value: every field is zero.
abbrev pub gcfn_zero : Gcfn
gcfn_zero = record { ref_self = pos 0; ref_fn = pos 0; prev = null; next = null }

-- The loop of `call_gcfn`.
unfoldable pub call_gcfn_loop : (ℤ → St → St) → ℕ → Ptr → Cmd (Unit {0})
call_gcfn_loop fin zero gcfunc = λ st. (out_of_fuel, st)
call_gcfn_loop fin (suc fuel) gcfunc = if gcfunc == null then pure tt else do
  next ← gets λ st. (st.gcfns gcfunc).next
  lls_gcfn_call fin gcfunc
  call_gcfn_loop fin fuel next

-- `call_gcfn`. `fin` is what the Lua function behind a reference does.
unfoldable pub call_gcfn : (ℤ → St → St) → ℕ → Ptr → Cmd (Unit {0})
call_gcfn fin fuel sp = do
  s ← gets λ st. st.socks sp
  modify (put_sock sp (record s { gcfunc = gcfn_done }))
  call_gcfn_loop fin fuel s.gcfunc

unfoldable pub delgcfn_lua : Ptr → Arg Ptr → Cmd (List Value)
delgcfn_lua sp arg = do
  gcfn ← check arg
  s ← gets λ st. st.socks sp
  if s.gcfunc == gcfn_done then pure (Value.boolean false ∷ []) else do
    modify λ st.
        if s.gcfunc == gcfn then put_sock sp (record s { gcfunc = (st.gcfns gcfn).next }) st else st
    b ← lls_gcfn_del gcfn
    pure (Value.boolean b ∷ [])

-- The links that put the node `gcfn` in front of `head`.
unfoldable pub link_next : (gcfn head : Ptr) → (Ptr → Gcfn) → Ptr → Gcfn
link_next gcfn head h a = if a == gcfn then record (h a) { next = head } else h a

unfoldable pub link_prev : (gcfn head : Ptr) → (Ptr → Gcfn) → Ptr → Gcfn
link_prev gcfn head h a =
    if head == null then h a else if a == head then record (h a) { prev = gcfn } else h a

unfoldable pub addgcfn_lua : Ptr → (err fn : Arg (Unit {0})) → Cmd (List Value)
addgcfn_lua sp err fn = do
  s ← gets λ st. st.socks sp
  if s.gcfunc == gcfn_done then pure (Value.nil ∷ Value.failure ebadf "addgcfn_lua" ∷ []) else do
    gcfn ← lls_gcfn_new err fn
    modify λ st. record st { gcfns = link_next gcfn s.gcfunc st.gcfns }
    modify λ st. record st { gcfns = link_prev gcfn s.gcfunc st.gcfns }
    modify (put_sock sp (record s { gcfunc = gcfn }))
    pure (Value.gcfn gcfn ∷ [])
