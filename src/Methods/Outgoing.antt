-- ===== src/Methods/Outgoing.antt =====
-- Multicast: the outgoing interface answers its name or nil, or nil and an error.
use lua_llsocket.Prelude.{
  ℕ, ◌≡◌, refl, String, Bool, true, false, ◌&&◌, not, ◌==◌, Option, none, some, List, [], ◌∷◌, take,
  arith, Bool-cases, inl, inr,
}
use lua_llsocket.Prelude.Int.{pos, ◌==ℤ◌}
use lua_llsocket.Prelude.Bytes.{from_le}
use lua_llsocket.Host.Os.{Call, Ifaddrs}
use lua_llsocket.Host.Lua.{Value, Arg}
use lua_llsocket.Host.{Ptr, Socket, St, Cmd, Outcome, ok, raised, out_of_fuel, crashed, fail_nil}
use lua_llsocket.Host.Consts.{
  af_inet, enxio, ipproto_ip, ip_multicast_if, ipproto_ipv6, ipv6_multicast_if,
}
use lua_llsocket.Mcast.{sin_addr}
use lua_llsocket.Mcast.Interface.{
  mcastif4_set, mcastif6_set, mcastif4_lua, mcastif6_lua, mcastif_lua, find_if4, match_if4,
  sa_family, same_bytes,
}
use lua_llsocket.Methods.Types.{Ty, is_a, is_end, is_wrong}
use lua_llsocket.Methods.Ends.{IsEnding, gets-IsEnding, sys-IsEnding, if-IsEnding, bind-IsEnding}
use lua_llsocket.Methods.Groups.{by_family-IsEnding}

-- The loop over the interfaces.
abbrev pub is_name : Outcome Value → Bool
is_name (ok v) = is_a Ty.name v
is_name raised = false
is_name out_of_fuel = false
is_name crashed = true

match_if4-is_name :
    (addr name : List ℕ) (a : Option (List ℕ)) (next : Cmd Value) (st : St)
    → is_name (next st).0 ≡ true
    → is_name (match_if4 addr name a next st).0 ≡ true
match_if4-is_name addr name none next st h = refl
match_if4-is_name addr name (some a) next st h =
    elim (Bool-cases (sa_family a ==ℤ af_inet && same_bytes addr (sin_addr a))) [
      | inl e ↦ rw e refl
      | inr e ↦ rw e h
    ]

find_if4-is_name :
    (addr : List ℕ) (l : List Ifaddrs) (st : St) → is_name (find_if4 addr l st).0 ≡ true
unfolding find_if4
find_if4-is_name addr [] st = refl
find_if4-is_name addr (ptr ∷ rest) st =
    match_if4-is_name addr ptr.ifa_name ptr.ifa_addr (find_if4 addr rest) st
      (find_if4-is_name addr rest st)

find_if4-IsEnding : (addr : List ℕ) (l : List Ifaddrs) → IsEnding is_name (find_if4 addr l)
find_if4-IsEnding addr l = record { ends = find_if4-is_name addr l }

-- The answers of the interface.
abbrev of_name : Arg (List ℕ) → Outcome (List Value) → Bool
of_name arg = is_end (Ty.name ∷ Ty.error ∷ []) false (is_wrong arg) false true

mcastif4_set-IsEnding :
    (s : Socket) (arg : Arg (List ℕ)) (old : Value)
    → is_a Ty.name old ≡ true
    → IsEnding (of_name arg) (mcastif4_set s arg old)
unfolding mcastif4_set
mcastif4_set-IsEnding s Arg.absent old h = record { ends = λ st. ground (arith, h) }
mcastif4_set-IsEnding s Arg.null old h = record { ends = λ st. ground (arith, h) }
mcastif4_set-IsEnding s Arg.wrong old h = record { ends = λ st. refl }
mcastif4_set-IsEnding s (Arg.given ifname) old h = record { ends = λ st. ground (arith, h) }

mcastif6_set-IsEnding :
    (s : Socket) (arg : Arg (List ℕ)) (old : Value)
    → is_a Ty.name old ≡ true
    → IsEnding (of_name arg) (mcastif6_set s arg old)
unfolding mcastif6_set
mcastif6_set-IsEnding s Arg.absent old h = record { ends = λ st. ground (arith, h) }
mcastif6_set-IsEnding s Arg.null old h = record { ends = λ st. ground (arith, h) }
mcastif6_set-IsEnding s Arg.wrong old h = record { ends = λ st. refl }
mcastif6_set-IsEnding s (Arg.given ifname) old h = record { ends = λ st. ground (arith, h) }

fail_nil-IsEnding : (arg : Arg (List ℕ)) (op : String) → IsEnding (of_name arg) (fail_nil op)
fail_nil-IsEnding arg op = record { ends = λ st. refl }

mcastif4-IsEnding : (s : Socket) (arg : Arg (List ℕ)) → IsEnding (of_name arg) (mcastif4_lua s arg)
unfolding mcastif4_lua
mcastif4-IsEnding s arg = sys-IsEnding (Call.getsockopt s.fd ipproto_ip ip_multicast_if) _ λ g.
    if-IsEnding (not (g.ret ==ℤ pos 0)) _ _ (fail_nil-IsEnding arg "getsockopt") (
      sys-IsEnding Call.getifaddrs _ λ l.
        if-IsEnding (not (l.ret ==ℤ pos 0)) _ _ (fail_nil-IsEnding arg "getifaddrs") (
          bind-IsEnding (find_if4 g.bytes l.ifas) _ (find_if4-IsEnding g.bytes l.ifas)
            (λ e. absurd (ground arith)) (λ e. absurd (ground arith)) (λ e. refl)
            λ v h. sys-IsEnding Call.freeifaddrs _ λ u. mcastif4_set-IsEnding s arg v h))

mcastif6-IsEnding : (s : Socket) (arg : Arg (List ℕ)) → IsEnding (of_name arg) (mcastif6_lua s arg)
unfolding mcastif6_lua
mcastif6-IsEnding s arg = sys-IsEnding (Call.getsockopt s.fd ipproto_ipv6 ipv6_multicast_if) _ λ g.
    if-IsEnding (not (g.ret ==ℤ pos 0)) _ _ (fail_nil-IsEnding arg "getsockopt") (
      sys-IsEnding (Call.if_indextoname (from_le (take 4 g.bytes))) _ λ n.
        gets-IsEnding St.errno _ λ e.
          if-IsEnding (not (n.ret ==ℤ pos 0)) _ _
            (mcastif6_set-IsEnding s arg (Value.string n.bytes) refl)
            (if-IsEnding (e == enxio) _ _ (mcastif6_set-IsEnding s arg Value.nil refl)
              (fail_nil-IsEnding arg "if_indextoname")))

pub mcastif-ends :
    (arg : Arg (List ℕ)) (sp : Ptr) (st : St)
    → is_end (Ty.name ∷ Ty.error ∷ []) false (is_wrong arg) false true (mcastif_lua sp arg st).0
      ≡ true
unfolding mcastif_lua
mcastif-ends arg sp st =
    (by_family-IsEnding fail_nil "mcastif_lua" (st.socks sp) _ _ (record { ends = λ st. refl })
        (record { ends = λ st. refl }) (mcastif4-IsEnding (st.socks sp) arg)
        (mcastif6-IsEnding (st.socks sp) arg)).ends
      st
