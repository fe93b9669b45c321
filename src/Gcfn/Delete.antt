-- ===== src/Gcfn/Delete.antt =====
-- `lls_gcfn_del` of src/gcfn.c and the list that its node stands in.
use lua_llsocket.Prelude.{
  ◌==◌, ==_refl, ◌≡◌, ◌≢◌, true, false, List, [], ◌∷◌, arith, Bool-cases, inl, inr, refl,
}
use lua_llsocket.Prelude.Int.{◌==ℤ◌, ==ℤ_iff}
use lua_llsocket.Host.{Ptr, null, Gcfn, St, ok}
use lua_llsocket.Host.Os.{Call}
use lua_llsocket.Host.Consts.{noref}
use lua_llsocket.Host.Registry.{IsRegistry}
use lua_llsocket.Gcfn.{lls_gcfn_del}
use lua_llsocket.Gcfn.Chain.{has, erase, Chain, frame}
use lua_llsocket.Gcfn.Unlink.{unlinked, unlinked-head, unlinked-tail}

-- What a deletion of the live node `p` has done, from `st` to `st'`.
pub record Deleted (p : Ptr) (st st' : St) : Type 0 where
  pub gone : (st'.gcfns p).ref_self ≡ noref
  pub fn_gone : (st'.gcfns p).ref_fn ≡ noref
  pub others : (q : Ptr) → (q == p) ≡ false → st'.gcfns q ≡ unlinked p st.gcfns q
  pub logged :
      st'.trace ≡ Call.unref (st.gcfns p).ref_self ∷ Call.unref (st.gcfns p).ref_fn ∷ st.trace
  pub same_os : st'.os ≡ st.os
  pub same_socks : st'.socks ≡ st.socks
  pub same_meta : st'.has_meta ≡ st.has_meta

pub lls_gcfn_del_dead :
    (p : Ptr) (st : St) → (st.gcfns p).ref_self ≡ noref → lls_gcfn_del p st ≡ (ok false, st)
unfolding lls_gcfn_del
lls_gcfn_del_dead p st h = rw ((==ℤ_iff _ _).1 h)

pub lls_gcfn_del-ok :
    (p : Ptr) (st : St) → (st.gcfns p).ref_self ≢ noref → (lls_gcfn_del p st).0 ≡ ok true
unfolding lls_gcfn_del
lls_gcfn_del-ok p st h = elim (Bool-cases ((st.gcfns p).ref_self ==ℤ noref)) [
  | inl e ↦ absurd (h ((==ℤ_iff _ _).0 e))
  | inr e ↦ rw e
]

-- The deletion of a live node.
pub lls_gcfn_del-Deleted :
    (p : Ptr) (st : St)
    → IsRegistry st.os
    → (st.gcfns p).ref_self ≢ noref
    → Deleted p st (lls_gcfn_del p st).1
unfolding lls_gcfn_del
lls_gcfn_del-Deleted p st reg live = elim (Bool-cases ((st.gcfns p).ref_self ==ℤ noref)) [
  | inl e ↦ absurd (live ((==ℤ_iff _ _).0 e))
  | inr e ↦ rw e (record {
    gone = rw (==_refl p) (reg.unref_noref _ _);
    fn_gone = rw (==_refl p) (reg.unref_noref _ _);
    others = λ q ne. ground arith;
    logged = refl;
    same_os = refl;
    same_socks = refl;
    same_meta = refl;
  })
]

pub Chain-Deleted_head :
    (x : Ptr) (xs : List Ptr) {st st' : St}
    → Deleted x st st'
    → Chain st.gcfns null x (x ∷ xs)
    → Chain st'.gcfns null (st.gcfns x).next xs
Chain-Deleted_head x xs {st} {st'} d c =
    frame (unlinked x st.gcfns) st'.gcfns null (st.gcfns x).next xs
      (λ a i. ground (arith, d.others a)) (unlinked-head st.gcfns x xs c)

-- A chain has no node twice.
has-erase_self :
    (h : Ptr → Gcfn) (before y p : Ptr) (xs : List Ptr)
    → Chain h before y xs
    → has p (erase p xs) ≡ false
has-erase_self h before y p [] c = refl
has-erase_self h before y p (x ∷ xs) c = ground (arith, has-erase_self h x (h x).next p xs)

pub Chain-Deleted_tail :
    (p x : Ptr) (xs : List Ptr) {st st' : St}
    → Deleted p st st'
    → Chain st.gcfns null x (x ∷ xs)
    → has p xs ≡ true
    → Chain st'.gcfns null x (x ∷ erase p xs)
Chain-Deleted_tail p x xs {st} {st'} d c m =
    frame (unlinked p st.gcfns) st'.gcfns null x (x ∷ erase p xs)
      (λ a i. ground (arith, d.others a, has-erase_self st.gcfns x (st.gcfns x).next p xs))
      (unlinked-tail st.gcfns null x p xs c m)
