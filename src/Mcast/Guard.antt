-- ===== src/Mcast/Guard.antt =====
-- What the multicast handlers refuse without making a call, and the options that they set.
use lua_llsocket.Prelude.{
  ℕ, ◌≡◌, ◌≢◌, String, false, List, [], ◌∷◌, ◌++◌, if◌then◌else◌, arith, Bool-cases, inl, inr,
}
use lua_llsocket.Prelude.Int.{ℤ, ◌==ℤ◌, ==ℤ_ne}
use lua_llsocket.Host.Os.{Call}
use lua_llsocket.Host.Lua.{Value, Arg, Addrinfo}
use lua_llsocket.Host.Consts.{
  af_inet, af_inet6, sock_dgram, sock_raw, eafnosupport, esocktnosupport, ipproto_ip,
  ip_add_membership, ip_drop_membership,
}
use lua_llsocket.Host.{Ptr, St, Outcome, ok}
use lua_llsocket.Mcast.{
  mcastloop_lua, mcastttl_lua, mcastjoin_lua, mcastleave_lua, mcastjoinsrc_lua, mcastleavesrc_lua,
  mcastblocksrc_lua, mcastunblocksrc_lua, sin_addr, in_addr_any,
}

-- A refusal: `v` and the error `e`, with `errno` set and no call made.
abbrev pub refused : Value → String → ℕ → St → Outcome (List Value) × St
refused v op e st = (ok (v ∷ Value.failure e op ∷ []), record st { errno = e })

-- The whole group of handlers, refused by one error.
pub record AllRefused (sp : Ptr) (e : ℕ) (st : St) (n : Arg ℤ) (grp src : Arg Addrinfo)
    (ifname : Arg (List ℕ)) : Type 0 where
  pub loop : mcastloop_lua sp n st ≡ refused Value.nil "mcastloop_lua" e st
  pub ttl : mcastttl_lua sp n st ≡ refused Value.nil "mcastttl_lua" e st
  pub join : mcastjoin_lua sp grp ifname st ≡ refused (Value.boolean false) "mcastjoin_lua" e st
  pub leave : mcastleave_lua sp grp ifname st ≡ refused (Value.boolean false) "mcastleave_lua" e st
  pub joinsrc :
      mcastjoinsrc_lua sp grp src ifname st ≡ refused (Value.boolean false) "mcastjoinsrc_lua" e st
  pub leavesrc :
      mcastleavesrc_lua sp grp src ifname st
      ≡ refused (Value.boolean false) "mcastleavesrc_lua" e st
  pub blocksrc :
      mcastblocksrc_lua sp grp src ifname st
      ≡ refused (Value.boolean false) "mcastblocksrc_lua" e st
  pub unblocksrc :
      mcastunblocksrc_lua sp grp src ifname st
      ≡ refused (Value.boolean false) "mcastunblocksrc_lua" e st

-- On a socket that is neither a datagram nor a raw socket, every multicast handler of the model
-- answers ESOCKTNOSUPPORT whatever its arguments, and makes no call.
pub mcast-AllRefused_type :
    (sp : Ptr) (st : St) (n : Arg ℤ) (grp src : Arg Addrinfo) (ifname : Arg (List ℕ))
    → (st.socks sp).socktype ≢ sock_raw
    → (st.socks sp).socktype ≢ sock_dgram
    → AllRefused sp esocktnosupport st n grp src ifname
unfolding mcastloop_lua mcastttl_lua mcastjoin_lua mcastleave_lua mcastjoinsrc_lua mcastleavesrc_lua
    mcastblocksrc_lua mcastunblocksrc_lua
mcast-AllRefused_type sp st n grp src ifname r d =
    let r' = ==ℤ_ne _ _ r in
    let d' = ==ℤ_ne _ _ d in
    record {
      loop = rw (r', d');
      ttl = rw (r', d');
      join = rw (r', d');
      leave = rw (r', d');
      joinsrc = rw (r', d');
      leavesrc = rw (r', d');
      blocksrc = rw (r', d');
      unblocksrc = rw (r', d');
    }

-- On a datagram socket that is neither IPv4 nor IPv6, every multicast handler of the model
-- answers EAFNOSUPPORT whatever its arguments, and makes no call.
pub mcast-AllRefused_family :
    (sp : Ptr) (st : St) (n : Arg ℤ) (grp src : Arg Addrinfo) (ifname : Arg (List ℕ))
    → (st.socks sp).socktype ≡ sock_dgram
    → (st.socks sp).family ≢ af_inet
    → (st.socks sp).family ≢ af_inet6
    → AllRefused sp eafnosupport st n grp src ifname
unfolding mcastloop_lua mcastttl_lua mcastjoin_lua mcastleave_lua mcastjoinsrc_lua mcastleavesrc_lua
    mcastblocksrc_lua mcastunblocksrc_lua
mcast-AllRefused_family sp st n grp src ifname t i i6 =
    let i' = ==ℤ_ne _ _ i in
    let i6' = ==ℤ_ne _ _ i6 in
    record {
      loop = rw (t, i', i6');
      ttl = rw (t, i', i6');
      join = rw (t, i', i6');
      leave = rw (t, i', i6');
      joinsrc = rw (t, i', i6');
      leavesrc = rw (t, i', i6');
      blocksrc = rw (t, i', i6');
      unblocksrc = rw (t, i', i6');
    }

-- Joining and leaving a group on an IPv4 datagram socket without an interface: a group of another
-- family is refused with EAFNOSUPPORT and no call; an IPv4 group's address goes with the address of
-- any interface to the one call that is made, which sets the option of the operation.
pub mcastjoin-inet :
    (sp : Ptr) (st : St) (grp : Addrinfo)
    → (st.socks sp).socktype ≡ sock_dgram
    → (st.socks sp).family ≡ af_inet
    → ((mcastjoin_lua sp (Arg.given grp) Arg.absent st).1.trace ≡ (
        if grp.ai_family ==ℤ af_inet
        then Call.setsockopt_bytes
            (st.socks sp).fd
            ipproto_ip
            ip_add_membership
            (sin_addr grp.ai_addr ++ in_addr_any)
          ∷ st.trace
        else st.trace))
      × ((mcastleave_lua sp (Arg.given grp) Arg.absent st).1.trace ≡ (
          if grp.ai_family ==ℤ af_inet
          then Call.setsockopt_bytes
              (st.socks sp).fd
              ipproto_ip
              ip_drop_membership
              (sin_addr grp.ai_addr ++ in_addr_any)
            ∷ st.trace
          else st.trace))
unfolding mcastjoin_lua mcastleave_lua
mcastjoin-inet sp st grp t f = elim (Bool-cases (grp.ai_family ==ℤ af_inet)) [
  | inl e ↦ (rw (t, f, e) (ground arith), rw (t, f, e) (ground arith))
  | inr e ↦ (rw (t, f, e), rw (t, f, e))
]
