-- ===== src/Finalise/Adding.antt =====
-- `addgcfn_lua` of src/socket.c.
use lua_llsocket.Prelude.{
  unless, ◌==◌, ◌<◌, ==_refl, ◌≡◌, ◌≢◌, refl, false, List, [], ◌∷◌, arith, if◌then◌else◌, sym,
}
use mathlib.Core.Path.{subst₂}
use lua_llsocket.Host.{Ptr, null, Gcfn, St, ok}
use lua_llsocket.Host.Os.{Call}
use lua_llsocket.Host.Lua.{Value, Arg}
use lua_llsocket.Host.Consts.{noref}
use lua_llsocket.Host.Registry.{IsRegistry}
use lua_llsocket.Gcfn.{lls_gcfn_new}
use lua_llsocket.Gcfn.Chain.{has, Chain, frame}
use lua_llsocket.Finalise.{gcfn_done, link_next, link_prev, addgcfn_lua}
use lua_llsocket.Finalise.Members.{Holds, not-done}

-- What `addgcfn_lua` has done.
pub record Added (sp p : Ptr) (xs : List Ptr) (st st' : St) : Type 0 where
  pub holds : Holds sp (p ∷ xs) st'
  pub same_fd : (st'.socks sp).fd ≡ (st.socks sp).fd
  pub other_socks : (q : Ptr) → st'.socks q ≡ (if q == sp then st'.socks q else st.socks q)

Chain-link :
    (h : Ptr → Gcfn) (p head : Ptr) (xs : List Ptr)
    → Chain h null head xs
    → has p xs ≡ false
    → p ≢ null
    → (h p).prev ≡ null
    → (h p).ref_self ≢ noref
    → Chain (link_prev p head (link_next p head h)) null p (p ∷ xs)
unfolding link_prev link_next
Chain-link h p head [] c out ne pv live = ground arith
Chain-link h p head (x ∷ xs) c out ne pv live =
    ground
      (arith, frame h (link_prev p head (link_next p head h)) x (h x).next xs (λ a i. ground arith))

-- The nodes after `lls_gcfn_new`.
with_new : St → Ptr → Gcfn
with_new st q =
    if q == st.fresh
    then record {
      ref_self = (st.os st.trace Call.ref).ret;
      ref_fn = (st.os (Call.ref ∷ st.trace) Call.ref).ret;
      prev = null;
      next = null;
    }
    else st.gcfns q

addgcfn_lua-linked :
    (sp : Ptr) (st : St)
    → ((st.socks sp).gcfunc == gcfn_done) ≡ false
    → let (r, st') = addgcfn_lua sp Arg.null (Arg.given tt) st in
      let head = (st.socks sp).gcfunc in
      (r ≡ ok (Value.gcfn st.fresh ∷ []))
      × (st'.gcfns ≡ link_prev st.fresh head (link_next st.fresh head (with_new st)))
      × (st'.socks
          ≡ (λ q. if q == sp then record (st.socks sp) { gcfunc = st.fresh } else st.socks q))
unfolding addgcfn_lua lls_gcfn_new with_new
addgcfn_lua-linked sp st e = rw e (refl, refl, refl)

-- Adding a finaliser without an error function, at a fresh address, puts it in front of the
-- others, and the list stays well linked; the descriptor and all other sockets stay as they are.
pub addgcfn_lua-Added :
    (sp : Ptr) (xs : List Ptr) (st : St)
    → IsRegistry st.os
    → Holds sp xs st
    → has st.fresh xs ≡ false
    → gcfn_done < st.fresh
    → ((addgcfn_lua sp Arg.null (Arg.given tt) st).0 ≡ ok (Value.gcfn st.fresh ∷ []))
      × Added sp st.fresh xs st (addgcfn_lua sp Arg.null (Arg.given tt) st).1
unfolding with_new
addgcfn_lua-Added sp xs st reg h new big =
    let head = (st.socks sp).gcfunc in
    let l = addgcfn_lua-linked sp st (not-done sp xs st h) in
    let old : Chain (with_new st) null head xs =
      frame st.gcfns (with_new st) null head xs (λ a i. ground arith) h.chain in
    let head' : ((addgcfn_lua sp Arg.null (Arg.given tt) st).1.socks sp).gcfunc ≡ st.fresh =
      rw (l.2, ==_refl sp) in
    (
      l.0,
      record {
        holds = record {
          chain =
              subst₂ (λ h q. Chain h null q (st.fresh ∷ xs)) (sym l.1) (sym head')
                (Chain-link (with_new st) st.fresh head xs old new (omega arith)
                  (rw (==_refl st.fresh)) (rw (==_refl st.fresh) (reg.ref_live _)));
          not_done = ground arith;
        };
        same_fd = rw (l.2, ==_refl sp);
        other_socks = λ q. unless (q == sp) λ ne. rw (l.2, ne);
      },
    )
