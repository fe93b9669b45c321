-- ===== src/Device/Closing.antt =====
-- Listing the interfaces opens descriptors for a moment only.
use lua_llsocket.Prelude.{
  ℕ, ◌==◌, ◌≡◌, ◌≢◌, refl, Bool, true, false, ◌||◌, not, Option, none, some, String, List, [], ◌∷◌,
  ◌++◌, if◌then◌else◌, ap, sym, subst, fun_ext, ◌∙◌, arith, Bool-cases, inl, inr,
}
use lua_llsocket.Prelude.Int.{ℤ, pos, minus_one, ◌==ℤ◌, ==ℤ_iff, to_unsigned}
use lua_llsocket.Host.Os.{Call, Ifaddrs}
use lua_llsocket.Host.Consts.{af_inet, af_inet6, sock_dgram}
use lua_llsocket.Host.{St, Cmd, pure, ◌>>=◌, gets, sys}
use lua_llsocket.Mcast.{ifr_name}
use lua_llsocket.Mcast.Interface.{sa_family}
use lua_llsocket.Device.{
  Interface, Interfaces, gettable, store, has_bit, iff_broadcast, iff_pointopoint, add_ifa_index,
  add_ifa_mtu, add_ifa_flags, numeric_host, when_flag, new_address, af_packet, link_address,
  add_address, filled_in, add_ifa, add_all, getifaddrs_lua,
}
use lua_llsocket.Descriptors.{IsKernel, is_open, view}
use lua_llsocket.Descriptors.Moves.{Keeps}
use lua_llsocket.Descriptors.Neutral.{Same, Same-refl, Same-trans, Same-Keeps, bind_by}
use lua_llsocket.Descriptors.Opening.{
  After, closed-Keeps, new_fd-shut, returns_opens, fails_opens, ne_of_test,
}
use lua_llsocket.Descriptors.Reach.{is_other, other-Same}

-- A command that leaves the descriptors and their owners as they are, on a kernel that opens only
-- descriptors that were shut.
pub record IsTidy {A : Type 0} (m : Cmd A) : Type 0 where
  pub same : (st : St) → IsKernel st.os → Same st (m st).1

bind-IsTidy :
    {A B : Type 0} (m : Cmd A) (k : A → Cmd B)
    → IsTidy m
    → ((a : A) → IsTidy (k a))
    → IsTidy (m >>= k)
bind-IsTidy m k t f = record {
  same = λ st kernel.
      let s = t.same st kernel in
      bind_by (Same st) m k st s
        λ a. Same-trans s ((f a).same (m st).1 (subst IsKernel (sym s.same_os) kernel));
}

pure-IsTidy : {A : Type 0} (a : A) → IsTidy (pure a)
pure-IsTidy a = record { same = λ st kernel. Same-refl st }

sys-IsTidy : (c : Call) → is_other c ≡ true → IsTidy (sys c)
sys-IsTidy c e = record { same = λ st kernel. other-Same c st e }

if-IsTidy :
    {A : Type 0} (b : Bool) (m k : Cmd A) → IsTidy m → IsTidy k → IsTidy (if b then m else k)
if-IsTidy true m k hm hk = hm
if-IsTidy false m k hm hk = hk

add_ifa_index-IsTidy : (name : List ℕ) (i : Interface) → IsTidy (add_ifa_index name i)
unfolding add_ifa_index
add_ifa_index-IsTidy name i =
    bind-IsTidy (sys (Call.if_nametoindex name))
      (λ idx.
        if to_unsigned 32 idx.ret == 0
        then pure i
        else pure (record i { index = some (to_unsigned 32 idx.ret) }))
      (sys-IsTidy (Call.if_nametoindex name) refl)
      λ idx.
        if-IsTidy (to_unsigned 32 idx.ret == 0) (pure i)
          (pure (record i { index = some (to_unsigned 32 idx.ret) })) (pure-IsTidy i)
          (pure-IsTidy (record i { index = some (to_unsigned 32 idx.ret) }))

-- The socket that asks for the MTU is closed again.
add_ifa_mtu-IsTidy : (name : List ℕ) (i : Interface) → IsTidy (add_ifa_mtu name i)
unfolding add_ifa_mtu
add_ifa_mtu-IsTidy name i = record {
  same = λ st kernel.
      let c = Call.socket af_inet sock_dgram (pos 0) in
      let fd = (st.os st.trace c).ret in
      let s2 = (sys (Call.ioctl_gifmtu fd (ifr_name name)) (sys c st).1).1 in
      elim (Bool-cases (fd ==ℤ minus_one)) [
        | inl e ↦ rw e (record {
          same_os = refl;
          same_fd = λ q. refl;
          same_meta = λ q. refl;
          same_fresh = refl;
          same_open = fun_ext λ f. ap (λ b. b || is_open st.os st.trace f) (fails_opens fd f e);
          same_stray = refl;
        })
        | inr e ↦
            let ne : fd ≢ minus_one = ne_of_test fd minus_one e in
            let one = λ (f : ℤ). returns_opens fd fd f refl ne in
            let shut = new_fd-shut st c fd kernel (one fd ∙ (==ℤ_iff fd fd).1 refl) in
            let a : After fd st s2 = record {
              same_os = refl;
              own = λ q. refl;
              open_fd = λ f. ap (λ b. b || is_open st.os st.trace f) (one f);
              next = omega arith;
              stray = refl;
            } in
            let closed = closed-Keeps fd st s2 shut a in
            let w : Same st (sys (Call.close fd) s2).1 = record {
              same_os = refl;
              same_fd = λ q. refl;
              same_meta = λ q. refl;
              same_fresh = refl;
              same_open = fun_ext closed.open_fd;
              same_stray = closed.stray;
            } in
            rw e w
      ];
}

numeric_host-IsTidy : (addr : Option (List ℕ)) (addrlen : ℕ) → IsTidy (numeric_host addr addrlen)
numeric_host-IsTidy none addrlen = pure-IsTidy none
numeric_host-IsTidy (some addr) addrlen =
    bind-IsTidy (sys (Call.getnameinfo addr addrlen (pos 1)))
      (λ r. pure (if r.ret ==ℤ pos 0 then some r.bytes else none))
      (sys-IsTidy (Call.getnameinfo addr addrlen (pos 1)) refl)
      λ r. pure-IsTidy (if r.ret ==ℤ pos 0 then some r.bytes else none)

new_address-IsTidy : (ifa : Ifaddrs) (addrlen : ℕ) → IsTidy (new_address ifa addrlen)
unfolding new_address
new_address-IsTidy ifa addrlen =
    let broad = when_flag (has_bit ifa.ifa_flags iff_broadcast) ifa.ifa_dstaddr in
    let point = when_flag (has_bit ifa.ifa_flags iff_pointopoint) ifa.ifa_dstaddr in
    bind-IsTidy (numeric_host ifa.ifa_addr addrlen) _ (numeric_host-IsTidy ifa.ifa_addr addrlen)
      λ a.
        bind-IsTidy (numeric_host ifa.ifa_netmask addrlen) _
          (numeric_host-IsTidy ifa.ifa_netmask addrlen)
          λ n. bind-IsTidy (numeric_host broad addrlen) _ (numeric_host-IsTidy broad addrlen) λ b.
            bind-IsTidy (numeric_host point addrlen) _ (numeric_host-IsTidy point addrlen)
              λ p. pure-IsTidy (record { address = a; netmask = n; broadcast = b; point2point = p })

add_address-IsTidy :
    (ifa : Ifaddrs) (addr : List ℕ) (i : Interface) → IsTidy (add_address ifa addr i)
unfolding add_address
add_address-IsTidy ifa addr i =
    if-IsTidy (sa_family addr ==ℤ af_inet) _ _
      (bind-IsTidy (new_address ifa 16) (λ a. pure (record i { inet = i.inet ++ (a ∷ []) }))
        (new_address-IsTidy ifa 16) λ a. pure-IsTidy (record i { inet = i.inet ++ (a ∷ []) }))
      (if-IsTidy (sa_family addr ==ℤ af_inet6) _ _
        (bind-IsTidy (new_address ifa 28) (λ a. pure (record i { inet6 = i.inet6 ++ (a ∷ []) }))
          (new_address-IsTidy ifa 28) λ a. pure-IsTidy (record i { inet6 = i.inet6 ++ (a ∷ []) }))
        (if-IsTidy (sa_family addr ==ℤ af_packet) _ _ (pure-IsTidy (link_address addr i))
          (pure-IsTidy i)))

module _ (extra : List (ℕ × String)) where
  filled_in-IsTidy :
      (created : Bool) (ifa : Ifaddrs) (i : Interface) → IsTidy (filled_in extra created ifa i)
  filled_in-IsTidy false ifa i = pure-IsTidy i
  filled_in-IsTidy true ifa i =
      bind-IsTidy (add_ifa_index ifa.ifa_name (add_ifa_flags extra ifa.ifa_flags i))
        (add_ifa_mtu ifa.ifa_name)
        (add_ifa_index-IsTidy ifa.ifa_name (add_ifa_flags extra ifa.ifa_flags i))
        (add_ifa_mtu-IsTidy ifa.ifa_name)

  add_ifa-IsTidy :
      (ifa : Ifaddrs) (o : Option (List ℕ)) (t : Interfaces) → IsTidy (add_ifa extra ifa o t)
  unfolding add_ifa
  add_ifa-IsTidy ifa none t = pure-IsTidy t
  add_ifa-IsTidy ifa (some addr) t =
      let g = gettable ifa.ifa_name t in
      bind-IsTidy (filled_in extra g.1 ifa g.0)
        (λ j. add_address ifa addr j >>= λ k. pure (store ifa.ifa_name k t))
        (filled_in-IsTidy g.1 ifa g.0)
        λ j.
          bind-IsTidy (add_address ifa addr j) (λ k. pure (store ifa.ifa_name k t))
            (add_address-IsTidy ifa addr j) λ k. pure-IsTidy (store ifa.ifa_name k t)

  add_all-IsTidy : (ifas : List Ifaddrs) (t : Interfaces) → IsTidy (add_all extra ifas t)
  unfolding add_all
  add_all-IsTidy [] t = pure-IsTidy t
  add_all-IsTidy (ifa ∷ rest) t =
      bind-IsTidy (add_ifa extra ifa ifa.ifa_addr t) (add_all extra rest)
        (add_ifa-IsTidy ifa ifa.ifa_addr t) (add_all-IsTidy rest)

  getifaddrs_lua-IsTidy : IsTidy (getifaddrs_lua extra)
  unfolding getifaddrs_lua
  getifaddrs_lua-IsTidy = bind-IsTidy (sys Call.getifaddrs) _ (sys-IsTidy Call.getifaddrs refl) λ l.
      bind-IsTidy (gets St.errno) _ (record { same = λ st kernel. Same-refl st })
        λ e. if-IsTidy (not (l.ret ==ℤ pos 0)) _ _ (pure-IsTidy (inr e)) (
          bind-IsTidy (add_all extra l.ifas []) _ (add_all-IsTidy l.ifas []) λ t.
            bind-IsTidy (sys Call.freeifaddrs) _ (sys-IsTidy Call.freeifaddrs refl)
              λ r. pure-IsTidy (inl t))

-- Whatever the interfaces are and whichever calls fail, on a kernel that returns only descriptors
-- that were shut: after `getifaddrs` the same descriptors are open as before, each with the same
-- owner, and no descriptor was closed that was not open.
pub getifaddrs_lua-Keeps :
    (extra : List (ℕ × String)) (st : St)
    → IsKernel st.os
    → Keeps (view st) (view (getifaddrs_lua extra st).1)
getifaddrs_lua-Keeps extra st kernel = Same-Keeps ((getifaddrs_lua-IsTidy extra).same st kernel)
