-- ===== src/Finalise/Members.antt =====
-- `delgcfn_lua` of src/socket.c.
use lua_llsocket.Prelude.{
  unless, ◌==◌, ==_iff, ◌≡◌, ◌≢◌, refl, true, false, ◌&&◌, List, [], ◌∷◌, arith, Bool-cases, inl,
  inr, if◌then◌else◌, sym, subst, ap, ◌∙◌,
}
use lua_llsocket.Host.{Ptr, null, Gcfn, St, ok, bind_ok, pure}
use lua_llsocket.Host.Lua.{Value, Arg}
use lua_llsocket.Host.Consts.{noref, ebadf}
use lua_llsocket.Host.Registry.{IsRegistry}
use lua_llsocket.Gcfn.{lls_gcfn_del}
use lua_llsocket.Gcfn.Chain.{has, erase, Chain}
use lua_llsocket.Gcfn.Delete.{
  Deleted, lls_gcfn_del-Deleted, lls_gcfn_del-ok, lls_gcfn_del_dead, Chain-Deleted_head,
  Chain-Deleted_tail,
}
use lua_llsocket.Finalise.{gcfn_done, delgcfn_lua, addgcfn_lua}

-- The socket at `sp` is open for finalisers and holds `xs`, the newest first.
pub record Holds (sp : Ptr) (xs : List Ptr) (st : St) : Type 0 where
  pub chain : Chain st.gcfns null (st.socks sp).gcfunc xs
  pub not_done : has gcfn_done xs ≡ false

pub not-done :
    (sp : Ptr) (xs : List Ptr) (st : St)
    → Holds sp xs st
    → ((st.socks sp).gcfunc == gcfn_done) ≡ false
not-done sp [] st h = ground (arith, h.chain)
not-done sp (x ∷ xs) st h = ground (arith, h.chain)

-- A member of a chain is live.
member-live :
    (h : Ptr → Gcfn) (before p a : Ptr) (xs : List Ptr)
    → Chain h before p xs
    → has a xs ≡ true
    → (h a).ref_self ≢ noref
member-live h before p a [] c m = ground arith
member-live h before p a (x ∷ xs) c m = elim (Bool-cases (a == x)) [
  | inl e ↦ subst (λ q. (h q).ref_self ≢ noref) (sym ((==_iff a x).0 e)) c.3
  | inr e ↦ member-live h x (h x).next a xs c.5 (ground arith)
]

-- The state in which `delgcfn_lua` calls `lls_gcfn_del`: the head has moved on.
moved : Ptr → Ptr → St → St
moved sp p st =
    if (st.socks sp).gcfunc == p
    then record st {
      socks =
          λ q. if q == sp then record (st.socks sp) { gcfunc = (st.gcfns p).next } else st.socks q;
    }
    else st

-- Only the socket has changed there.
moved-same :
    (sp p : Ptr) (st : St)
    → ((moved sp p st).gcfns ≡ st.gcfns)
      × ((moved sp p st).os ≡ st.os)
      × ((moved sp p st).trace ≡ st.trace)
unfolding moved
moved-same sp p st = ground arith

moved-socks :
    (sp p q : Ptr) (st : St)
    → (moved sp p st).socks q ≡ (
        if (st.socks sp).gcfunc == p && q == sp
        then record (st.socks sp) { gcfunc = (st.gcfns p).next }
        else st.socks q)
unfolding moved
moved-socks sp p q st = ground arith

delgcfn_lua-moved :
    (sp p : Ptr) (st : St)
    → ((st.socks sp).gcfunc == gcfn_done) ≡ false
    → (st.gcfns p).ref_self ≢ noref
    → delgcfn_lua sp (Arg.given p) st
      ≡ (ok (Value.boolean true ∷ []), (lls_gcfn_del p (moved sp p st)).1)
unfolding delgcfn_lua moved
delgcfn_lua-moved sp p st is_open live = rw is_open (
    bind_ok (lls_gcfn_del p) (λ b. pure (Value.boolean b ∷ [])) (moved sp p st)
      (lls_gcfn_del-ok p (moved sp p st) (rw (moved-same sp p st).0 live)))

module _ (sp p : Ptr) (st st' : St) (d : Deleted p (moved sp p st) st') where
  delete_head :
      (x : Ptr) (xs : List Ptr)
      → (p == x) ≡ true
      → Chain st.gcfns null (st.socks sp).gcfunc (x ∷ xs)
      → Chain st'.gcfns null (st'.socks sp).gcfunc xs
  delete_head x xs e c =
      let is_x : p ≡ x = (==_iff p x).0 e in
      let head : (st'.socks sp).gcfunc ≡ ((moved sp p st).gcfns p).next = ground (
        arith,
        ap (λ s. s sp) d.same_socks,
        moved-socks sp p sp st,
        ap (λ h. h p) (moved-same sp p st).0,
      ) in
      let here : Chain st.gcfns null p (p ∷ xs) =
        subst (λ q. Chain st.gcfns null q (q ∷ xs)) (sym is_x) (refl, c.1, c.2, c.3, c.4, c.5) in
      rw head (
        Chain-Deleted_head p xs d
          (subst (λ h. Chain h null p (p ∷ xs)) (sym (moved-same sp p st).0) here))

  delete_tail :
      (x : Ptr) (xs : List Ptr)
      → (p == x) ≡ false
      → has p xs ≡ true
      → Chain st.gcfns null (st.socks sp).gcfunc (x ∷ xs)
      → Chain st'.gcfns null (st'.socks sp).gcfunc (x ∷ erase p xs)
  delete_tail x xs e m c =
      let head : (st'.socks sp).gcfunc ≡ x =
        ground (arith, ap (λ s. s sp) d.same_socks, moved-socks sp p sp st, c.0) in
      let here : Chain (moved sp p st).gcfns null x (x ∷ xs) =
        subst (λ h. Chain h null x (x ∷ xs)) (sym (moved-same sp p st).0)
          (refl, c.1, c.2, c.3, c.4, c.5) in
      rw head (Chain-Deleted_tail p x xs d here m)

  delete_member :
      (xs : List Ptr)
      → has p xs ≡ true
      → Chain st.gcfns null (st.socks sp).gcfunc xs
      → Chain st'.gcfns null (st'.socks sp).gcfunc (erase p xs)
  delete_member [] m c = ground arith
  delete_member (x ∷ xs) m c = elim (Bool-cases (p == x)) [
    | inl e ↦ rw e (delete_head x xs e c)
    | inr e ↦ rw e (delete_tail x xs e (ground arith) c)
  ]

has-erase_done : (a p : Ptr) (xs : List Ptr) → has a xs ≡ false → has a (erase p xs) ≡ false
has-erase_done a p [] h = h
has-erase_done a p (x ∷ xs) h = ground (arith, has-erase_done a p xs)

-- What `delgcfn_lua` of a member has done.
pub record Removed (sp p : Ptr) (xs : List Ptr) (st st' : St) : Type 0 where
  pub holds : Holds sp (erase p xs) st'
  pub gone : (st'.gcfns p).ref_self ≡ noref
  pub same_fd : (st'.socks sp).fd ≡ (st.socks sp).fd
  pub other_socks : (q : Ptr) → st'.socks q ≡ (if q == sp then st'.socks q else st.socks q)

-- Deleting a finaliser of the socket answers true, takes it off the list, which stays well
-- linked, and leaves the others in their order; the descriptor and all other sockets stay as they
-- are.
pub delgcfn_lua-Removed :
    (sp p : Ptr) (xs : List Ptr) (st : St)
    → IsRegistry st.os
    → Holds sp xs st
    → has p xs ≡ true
    → ((delgcfn_lua sp (Arg.given p) st).0 ≡ ok (Value.boolean true ∷ []))
      × Removed sp p xs st (delgcfn_lua sp (Arg.given p) st).1
delgcfn_lua-Removed sp p xs st reg h m =
    let live = member-live st.gcfns null (st.socks sp).gcfunc p xs h.chain m in
    let same = moved-same sp p st in
    let d = lls_gcfn_del-Deleted p (moved sp p st) (rw same.1 reg) (rw same.0 live) in
    rw (delgcfn_lua-moved sp p st (not-done sp xs st h) live) (
      refl,
      record {
        holds = record {
          chain = delete_member sp p st _ d xs m h.chain;
          not_done = has-erase_done gcfn_done p xs h.not_done;
        };
        gone = d.gone;
        same_fd = ground (arith, ap (λ s. s sp) d.same_socks, moved-socks sp p sp st);
        other_socks = λ q.
            unless (q == sp)
              λ ne. ground (arith, ap (λ s. s q) d.same_socks, moved-socks sp p q st);
      },
    )

head-not-dead :
    (sp p : Ptr) (xs : List Ptr) (st : St)
    → Holds sp xs st
    → p ≢ null
    → (st.gcfns p).ref_self ≡ noref
    → ((st.socks sp).gcfunc == p) ≡ false
head-not-dead sp p [] st h ne dead = ground (arith, h.chain)
head-not-dead sp p (x ∷ xs) st h ne dead = ground (arith, h.chain)

-- A finaliser that has run or been deleted is not deleted again: `delgcfn_lua` of a socket whose
-- finalisers are linked answers false and changes nothing.
pub delgcfn_lua-dead :
    (sp p : Ptr) (xs : List Ptr) (st : St)
    → Holds sp xs st
    → p ≢ null
    → (st.gcfns p).ref_self ≡ noref
    → delgcfn_lua sp (Arg.given p) st ≡ (ok (Value.boolean false ∷ []), st)
unfolding delgcfn_lua
delgcfn_lua-dead sp p xs st h ne dead =
    rw (not-done sp xs st h, head-not-dead sp p xs st h ne dead)
      (bind_ok (lls_gcfn_del p) (λ b. pure (Value.boolean b ∷ [])) st
          (ap (λ r. r.0) (lls_gcfn_del_dead p st dead))
        ∙ ap (λ r. (ok (Value.boolean false ∷ []), r.1)) (lls_gcfn_del_dead p st dead))

-- After the finalisers of a socket have been called, none is added and none is deleted.
pub finalised-refuses :
    (sp p : Ptr) (err fn : Arg (Unit {0})) (st : St)
    → (st.socks sp).gcfunc ≡ gcfn_done
    → (addgcfn_lua sp err fn st ≡ (ok (Value.nil ∷ Value.failure ebadf "addgcfn_lua" ∷ []), st))
      × (delgcfn_lua sp (Arg.given p) st ≡ (ok (Value.boolean false ∷ []), st))
unfolding addgcfn_lua delgcfn_lua
finalised-refuses sp p err fn st e = (rw e, rw e)
