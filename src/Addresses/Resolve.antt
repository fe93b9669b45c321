-- ===== src/Addresses/Resolve.antt =====
-- Name resolution, and the life of the objects of addresses.
use lua_llsocket.Prelude.{
  ℕ, ◌≡◌, refl, ap, ◌∙◌, if◌then◌else◌, Bool-cases, inl, inr, Option, none, some, List, [], ◌∷◌,
  map, take, suc,
}
use lua_llsocket.Prelude.Int.{ℤ, pos, ◌==ℤ◌}
use lua_llsocket.Host.Os.{Call}
use lua_llsocket.Host.Lua.{Value, Arg, Addrinfo}
use lua_llsocket.Host.Consts.{af_unix, noref}
use lua_llsocket.Host.{Ptr, St, ok, Cmd, sys, bind_ok, ◌>>=◌, pure}
use lua_llsocket.Connect.{getsockname_lua}
use lua_llsocket.Addresses.{
  LlsAddrinfo, gc_lua, lls_addrinfo_alloc, alloc_all, name_ref, lls_getaddrinfo, getaddrinfo_lua,
  addr_lua, c_string, nonempty,
}

-- An address as its copy keeps it.
abbrev pub copied : Addrinfo → Addrinfo
copied src = record src { ai_addr = take src.ai_addrlen src.ai_addr }

-- The calls of `freeaddrinfo`.
abbrev pub frees : List Call → ℕ
frees [] = 0
frees (Call.freeaddrinfo ∷ t) = suc (frees t)
frees (c ∷ t) = frees t

name_ref-ok :
    (name : Option (List ℕ)) (st : St)
    → (c : ℤ) × ((name_ref name st).0 ≡ ok c) × (frees (name_ref name st).1.trace ≡ frees st.trace)
name_ref-ok none st = (noref, refl, refl)
name_ref-ok (some name) st = ((st.os st.trace Call.ref).ret, refl, refl)

unfoldable made : Addrinfo → ℤ → ℤ → LlsAddrinfo
made src a c = record { ai = copied src; ai_addr_ref = a; ai_canonname_ref = c }

alloc-copied :
    (src : Addrinfo) (st : St)
    → (info : LlsAddrinfo) × ((lls_addrinfo_alloc src st).0 ≡ ok info)
      × (info.ai ≡ copied src)
      × (frees (lls_addrinfo_alloc src st).1.trace ≡ frees st.trace)
unfolding lls_addrinfo_alloc made
alloc-copied src st =
    let s1 = (sys Call.ref st).1 in
    let a = (st.os st.trace Call.ref).ret in
    let (c, e, f) = name_ref-ok src.ai_canonname s1 in
    let b = bind_ok (name_ref src.ai_canonname) (λ r. pure (made src a r)) s1 e in
    (made src a c, ap (λ r. r.0) b, refl, ap (λ r. frees r.1.trace) b ∙ f)

alloc_all-copied :
    (infos : List Addrinfo) (st : St)
    → ((alloc_all infos st).0 ≡ ok (map copied infos))
      × (frees (alloc_all infos st).1.trace ≡ frees st.trace)
unfolding alloc_all
alloc_all-copied [] st = (refl, refl)
alloc_all-copied (i ∷ is) st =
    let s1 = (lls_addrinfo_alloc i st).1 in
    let (info, e, c, f) = alloc-copied i st in
    let (e', f') = alloc_all-copied is s1 in
    let b =
      bind_ok (lls_addrinfo_alloc i) (λ info. alloc_all is >>= λ infos. pure (info.ai ∷ infos)) st
        e in
    let b' = bind_ok (alloc_all is) (λ infos. pure (info.ai ∷ infos)) s1 e' in
    (
      ap (λ r. r.0) (b ∙ b') ∙ ap (λ a. ok (a ∷ map copied is)) c,
      ap (λ r. frees r.1.trace) (b ∙ b') ∙ f' ∙ f,
    )

abbrev pub resolve_call : (node service : List ℕ) → Call
resolve_call node service =
    Call.getaddrinfo (nonempty (some node)) (nonempty (some service)) (pos 0) (pos 0) (pos 0)
      (pos 0)

abbrev pub resolve : (node service : List ℕ) → Cmd (List Value)
unfolding getaddrinfo_lua
resolve node service =
    getaddrinfo_lua (Arg.given node) (Arg.given service) Arg.absent Arg.absent Arg.absent Arg.absent

-- When the resolution succeeds, `getaddrinfo` of a name and a service answers one object for every
-- address that was found, in their order, each with what stood in it and as many bytes as its
-- length says, and the list of the system is freed once. When it fails, the answer is nil and the
-- error, and nothing is freed.
pub getaddrinfo-answers :
    (node service : List ℕ) (st : St)
    → ((resolve node service st).0 ≡ (
        if (st.os st.trace (resolve_call node service)).ret ==ℤ pos 0
        then ok (
            Value.addrinfo_list (map copied (st.os st.trace (resolve_call node service)).infos)
            ∷ [])
        else ok (
            Value.nil
            ∷ Value.failure_eai (st.os st.trace (resolve_call node service)).ret "getaddrinfo"
            ∷ [])))
      × (frees (resolve node service st).1.trace ≡ (
          if (st.os st.trace (resolve_call node service)).ret ==ℤ pos 0
          then suc (frees st.trace)
          else frees st.trace))
unfolding getaddrinfo_lua lls_getaddrinfo
getaddrinfo-answers node service st =
    let r = st.os st.trace (resolve_call node service) in
    let s1 = (sys (resolve_call node service) st).1 in
    let (e, f) = alloc_all-copied r.infos s1 in
    let b =
      bind_ok (alloc_all r.infos)
        (λ infos. sys Call.freeaddrinfo >>= λ _. pure (Value.addrinfo_list infos ∷ [])) s1 e in
    elim (Bool-cases (r.ret ==ℤ pos 0)) [
      | inl h ↦ (rw h (ap (λ x. x.0) b), rw h (ap (λ x. frees x.1.trace) b ∙ ap suc f))
      | inr h ↦ (rw h refl, rw h refl)
    ]

-- The making of an address with a canonical name takes two references, and its collection releases
-- these two.
pub made-gc :
    (src : Addrinfo) (name : List ℕ) (st : St)
    → src.ai_canonname ≡ some name
    → (info : LlsAddrinfo) × ((lls_addrinfo_alloc src st).0 ≡ ok info)
      × ((gc_lua info (lls_addrinfo_alloc src st).1).1.trace
          ≡ Call.unref (st.os (Call.ref ∷ st.trace) Call.ref).ret
            ∷ Call.unref (st.os st.trace Call.ref).ret
            ∷ Call.ref
            ∷ Call.ref
            ∷ st.trace)
unfolding lls_addrinfo_alloc gc_lua made
made-gc src name st h = (
  made src (st.os st.trace Call.ref).ret (st.os (Call.ref ∷ st.trace) Call.ref).ret,
  rw h refl,
  rw h refl,
)

-- The name of a socket of the family AF_UNIX that has not been bound: the system writes the two
-- bytes of the family. `addr` then answers the bytes that the memory of the new object held before.
pub unnamed-junk :
    (sp : Ptr) (junk : List ℕ) (a b : ℕ) (bs : List ℕ) (st s : St)
    → (st.socks sp).family ≡ af_unix
    → (st.os st.trace (Call.getsockname (st.socks sp).fd)).ret ≡ pos 0
    → (st.os st.trace (Call.getsockname (st.socks sp).fd)).addr ≡ a ∷ b ∷ bs
    → (st.os st.trace (Call.getsockname (st.socks sp).fd)).len ≡ 2
    → (info : Addrinfo) × ((getsockname_lua sp st).0 ≡ ok (Value.addrinfo info ∷ []))
      × ((addr_lua junk info s).0 ≡ ok (Value.string (c_string junk) ∷ []))
unfolding getsockname_lua addr_lua
unnamed-junk sp junk a b bs st s f r d l = (
  record {
    ai_flags = pos 0;
    ai_family = af_unix;
    ai_socktype = (st.socks sp).socktype;
    ai_protocol = (st.socks sp).protocol;
    ai_addrlen = 2;
    ai_addr = a ∷ b ∷ [];
    ai_canonname = none;
  },
  rw (r, f, d, l) refl,
  refl,
)
