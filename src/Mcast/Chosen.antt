-- ===== src/Mcast/Chosen.antt =====
-- The interface that `mcastif_lua` names.
use lua_llsocket.Prelude.{
  ℕ, ==_refl, Bool, true, false, ◌&&◌, ◌||◌, not, ◌≡◌, refl, Option, none, some, List, [], ◌∷◌,
  ◌++◌, arith, Bool-cases, inl, inr, ap, ◌∙◌,
}
use lua_llsocket.Prelude.Int.{pos, ◌==ℤ◌}
use lua_llsocket.Host.Os.{Call, Ifaddrs}
use lua_llsocket.Host.Lua.{Value, Arg}
use lua_llsocket.Host.Consts.{sock_dgram, sock_raw, af_inet, ipproto_ip, ip_multicast_if}
use lua_llsocket.Host.{Ptr, St, Outcome, ok, crashed, Cmd, sys, bind_ok, ◌>>=◌}
use lua_llsocket.Mcast.{sin_addr}
use lua_llsocket.Mcast.Interface.{
  sa_family, same_bytes, match_if4, find_if4, mcastif4_set, mcastif4_lua, mcastif_lua,
}

same_bytes_refl : (bs : List ℕ) → same_bytes bs bs ≡ true
same_bytes_refl [] = refl
same_bytes_refl (b ∷ bs) = rw (==_refl b, same_bytes_refl bs) refl

-- The interface has an address, which is not the IPv4 address `addr`.
abbrev pub is_other : List ℕ → Option (List ℕ) → Bool
is_other addr none = false
is_other addr (some a) = not (sa_family a ==ℤ af_inet && same_bytes addr (sin_addr a))

abbrev pub all_other : List ℕ → List Ifaddrs → Bool
all_other addr [] = true
all_other addr (ptr ∷ rest) = is_other addr ptr.ifa_addr && all_other addr rest

match-other :
    (addr name : List ℕ) (o : Option (List ℕ)) (next : Cmd Value) (st : St)
    → is_other addr o ≡ true
    → match_if4 addr name o next st ≡ next st
match-other addr name none next st h = absurd (ground arith)
match-other addr name (some a) next st h =
    elim (Bool-cases (sa_family a ==ℤ af_inet && same_bytes addr (sin_addr a))) [
      | inl e ↦ absurd (ground arith)
      | inr e ↦ rw e refl
    ]

-- The search passes the interfaces that have another address.
passes :
    (addr : List ℕ) (before after : List Ifaddrs) (st : St)
    → all_other addr before ≡ true
    → find_if4 addr (before ++ after) st ≡ find_if4 addr after st
unfolding find_if4
passes addr [] after st h = refl
passes addr (ptr ∷ rest) after st h =
    match-other addr ptr.ifa_name ptr.ifa_addr (find_if4 addr (rest ++ after)) st (ground arith)
    ∙ passes addr rest after st (ground arith)

finds :
    (addr a : List ℕ) (ptr : Ifaddrs) (after : List Ifaddrs) (st : St)
    → ptr.ifa_addr ≡ some a
    → sa_family a ≡ af_inet
    → sin_addr a ≡ addr
    → find_if4 addr (ptr ∷ after) st ≡ (ok (Value.string ptr.ifa_name), st)
unfolding find_if4
finds addr a ptr after st e f g =
    ap (λ o. match_if4 addr ptr.ifa_name o (find_if4 addr after) st) e
    ∙ rw (f, g, same_bytes_refl addr) refl

-- The calls of `mcastif` without an argument, on an IPv4 socket.
abbrev pub get_call : Ptr → St → Call
get_call sp st = Call.getsockopt (st.socks sp).fd ipproto_ip ip_multicast_if

-- On a datagram socket of IPv4, where the option and the interfaces can be read: `mcastif` without
-- an argument answers the name of the first interface that has the address that the option holds,
-- if those before it in the list have another address. The list of the system is freed, and the
-- option is not set.
pub mcastif-reads :
    (sp : Ptr) (addr a : List ℕ) (before after : List Ifaddrs) (ptr : Ifaddrs) (st : St)
    → (st.socks sp).socktype ≡ sock_dgram
    → (st.socks sp).family ≡ af_inet
    → (st.os st.trace (get_call sp st)).ret ≡ pos 0
    → (st.os st.trace (get_call sp st)).bytes ≡ addr
    → (st.os (get_call sp st ∷ st.trace) Call.getifaddrs).ret ≡ pos 0
    → (st.os (get_call sp st ∷ st.trace) Call.getifaddrs).ifas ≡ before ++ (ptr ∷ after)
    → all_other addr before ≡ true
    → ptr.ifa_addr ≡ some a
    → sa_family a ≡ af_inet
    → sin_addr a ≡ addr
    → ((mcastif_lua sp Arg.absent st).0 ≡ ok (Value.string ptr.ifa_name ∷ []))
      × ((mcastif_lua sp Arg.absent st).1.trace
          ≡ Call.freeifaddrs ∷ Call.getifaddrs ∷ get_call sp st ∷ st.trace)
unfolding mcastif_lua mcastif4_lua mcastif4_set
mcastif-reads sp addr a before after ptr st t f r b q l h e k g =
    let s2 = (sys Call.getifaddrs (sys (get_call sp st) st).1).1 in
    let d =
      ap (λ x. find_if4 x (st.os (get_call sp st ∷ st.trace) Call.getifaddrs).ifas s2) b
      ∙ ap (λ x. find_if4 addr x s2) l
      ∙ passes addr before (ptr ∷ after) s2 h
      ∙ finds addr a ptr after s2 e k g in
    let k' =
      λ (old : Value). sys Call.freeifaddrs >>= λ _. mcastif4_set (st.socks sp) Arg.absent old in
    let c =
      bind_ok
        (find_if4 (st.os st.trace (get_call sp st)).bytes
          (st.os (get_call sp st ∷ st.trace) Call.getifaddrs).ifas)
        k' s2 (ap (λ r. r.0) d)
      ∙ ap (λ r. k' (Value.string ptr.ifa_name) r.1) d in
    let t' : ((st.socks sp).socktype ==ℤ sock_raw || (st.socks sp).socktype ==ℤ sock_dgram) ≡ true =
      ap (λ z. z ==ℤ sock_raw || z ==ℤ sock_dgram) t in
    let f' : ((st.socks sp).family ==ℤ af_inet) ≡ true = ap (λ z. z ==ℤ af_inet) f in
    (rw (t', f', r, q) (ap (λ o. o.0) c), rw (t', f', r, q) (ap (λ o. o.1.trace) c))

-- On such a socket, where no interface before `ptr` in the list has the address of the option and
-- `ptr` has no address at all, `mcastif` reads through a null pointer, whatever its argument.
pub mcastif-null :
    (sp : Ptr) (addr : List ℕ) (before after : List Ifaddrs) (ptr : Ifaddrs) (arg : Arg (List ℕ))
    (st : St)
    → (st.socks sp).socktype ≡ sock_dgram
    → (st.socks sp).family ≡ af_inet
    → (st.os st.trace (get_call sp st)).ret ≡ pos 0
    → (st.os st.trace (get_call sp st)).bytes ≡ addr
    → (st.os (get_call sp st ∷ st.trace) Call.getifaddrs).ret ≡ pos 0
    → (st.os (get_call sp st ∷ st.trace) Call.getifaddrs).ifas ≡ before ++ (ptr ∷ after)
    → all_other addr before ≡ true
    → ptr.ifa_addr ≡ none
    → (mcastif_lua sp arg st).0 ≡ crashed
unfolding mcastif_lua mcastif4_lua find_if4
mcastif-null sp addr before after ptr arg st t f r b q l h e =
    let s2 = (sys Call.getifaddrs (sys (get_call sp st) st).1).1 in
    let d =
      ap (λ x. find_if4 x (st.os (get_call sp st ∷ st.trace) Call.getifaddrs).ifas s2) b
      ∙ ap (λ x. find_if4 addr x s2) l
      ∙ passes addr before (ptr ∷ after) s2 h
      ∙ ap (λ o. match_if4 addr ptr.ifa_name o (find_if4 addr after) s2) e in
    let k' = λ (old : Value). sys Call.freeifaddrs >>= λ _. mcastif4_set (st.socks sp) arg old in
    let t' : ((st.socks sp).socktype ==ℤ sock_raw || (st.socks sp).socktype ==ℤ sock_dgram) ≡ true =
      ap (λ z. z ==ℤ sock_raw || z ==ℤ sock_dgram) t in
    let f' : ((st.socks sp).family ==ℤ af_inet) ≡ true = ap (λ z. z ==ℤ af_inet) f in
    rw (t', f', r, q) (ap (λ (o : Outcome Value × St). (◌>>=◌ (λ _. o) k' s2).0) d)
