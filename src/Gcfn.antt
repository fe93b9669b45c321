-- ===== src/Gcfn.antt =====
-- src/gcfn.c: the functions that run when a socket is closed or collected, kept in a doubly
-- linked list whose head the socket holds.
pub mod Chain
pub mod Closure
pub mod Delete
pub mod Unlink
use lua_llsocket.Prelude.{ℕ, zero, suc, ◌==◌, Bool, true, false, List, [], ◌∷◌, if◌then◌else◌}
use lua_llsocket.Prelude.Int.{ℤ, ◌==ℤ◌}
use lua_llsocket.Host.Os.{Call}
use lua_llsocket.Host.Lua.{Arg}
use lua_llsocket.Host.Consts.{noref}
use lua_llsocket.Host.{
  Ptr, null, Gcfn, St, Cmd, Outcome, ok, out_of_fuel, pure, ◌>>=◌, ◌>>◌, raise, gets, modify, sys,
  put_gcfn, alloc,
}

-- "detach from list": the node's neighbours are linked to each other.
unfoldable pub unlink_prev : Ptr → (Ptr → Gcfn) → Ptr → Gcfn
unlink_prev p h a =
    if (h p).prev == null
    then h a
    else if a == (h p).prev
    then record (h a) { next = (h p).next }
    else h a

unfoldable pub unlink_next : Ptr → (Ptr → Gcfn) → Ptr → Gcfn
unlink_next p h a =
    if (h p).next == null
    then h a
    else if a == (h p).next
    then record (h a) { prev = (h p).prev }
    else h a

-- `lls_gcfn_del`.
unfoldable pub lls_gcfn_del : Ptr → Cmd Bool
lls_gcfn_del p = do
  gcf ← gets λ st. st.gcfns p
  if gcf.ref_self ==ℤ noref then pure false else do
    modify λ st. record st { gcfns = unlink_prev p st.gcfns }
    modify λ st. record st { gcfns = unlink_next p st.gcfns }
    fn ← sys (Call.unref gcf.ref_fn)
    modify λ st. put_gcfn p (record (st.gcfns p) { ref_fn = fn.ret }) st
    self ← sys (Call.unref gcf.ref_self)
    modify λ st. put_gcfn p (record (st.gcfns p) { ref_self = self.ret }) st
    pure true

-- `lua_pcall` of the function behind a reference. `fin` is what that Lua function does.
abbrev pub lua_pcall : (ℤ → St → St) → ℤ → Cmd (Unit {0})
lua_pcall fin r = modify λ st. fin r (record st { trace = Call.pcall r ∷ st.trace })

-- `lls_gcfn_call`.
unfoldable pub lls_gcfn_call : (ℤ → St → St) → Ptr → Cmd (Unit {0})
lls_gcfn_call fin p = do
  gcf ← gets λ st. st.gcfns p
  if gcf.ref_self ==ℤ noref then pure tt else do lua_pcall fin gcf.ref_fn; lls_gcfn_del p; pure tt

-- `lls_gcfn_new`: the error function must be a function, nil or absent, and the second argument a
-- function.
unfoldable pub lls_gcfn_new : (err fn : Arg (Unit {0})) → Cmd Ptr
lls_gcfn_new Arg.wrong fn = raise
lls_gcfn_new err (Arg.given _) = do
  p ← alloc
  self ← sys Call.ref
  fn ← sys Call.ref
  modify (put_gcfn p (record { ref_self = self.ret; ref_fn = fn.ret; prev = null; next = null }))
  modify λ st. record st { has_meta = λ q. if q == p then true else st.has_meta q }
  pure p
lls_gcfn_new err _ = raise
