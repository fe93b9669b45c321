-- ===== src/Device/Longer.antt =====
-- The addresses that the functions of src/device.c add to the table of an interface.
use lua_llsocket.Prelude.{
  ℕ, ◌+◌, ◌==◌, ◌≡◌, refl, Bool, true, false, Option, none, some, String, List, [], ◌∷◌, ◌++◌,
  if◌then◌else◌, sym, subst, arith, Bool-cases, inl, inr, take, drop, length, length-append,
}
use lua_llsocket.Prelude.Int.{ℤ, pos, minus_one, ◌==ℤ◌, ==ℤ_iff, to_unsigned}
use lua_llsocket.Host.Os.{Call, Reply, Ifaddrs}
use lua_llsocket.Host.Consts.{af_inet, af_inet6, sock_dgram}
use lua_llsocket.Host.{sys}
use lua_llsocket.Mcast.{ifr_name}
use lua_llsocket.Mcast.Interface.{sa_family}
use lua_llsocket.Device.{
  Address, Interface, add_ifa_index, add_ifa_mtu, new_address, af_packet, with_ether, link_address,
  add_address,
}
use lua_llsocket.Device.Total.{
  IsTotal, bind-IsTotal, if-IsTotal, pure-IsTotal, sys-IsTotal, new_address-IsTotal,
}

-- The addresses of one family, IPv4 or else IPv6.
abbrev pub addresses : Bool → Interface → List Address
addresses true i = i.inet
addresses false i = i.inet6

abbrev pub entries : Bool → Option Interface → ℕ
entries b none = 0
entries b (some i) = length (addresses b i)

abbrev pub family_of : Bool → ℤ
family_of true = af_inet
family_of false = af_inet6

-- The interface `j` has the addresses of `i`, and `n` more.
abbrev pub Longer : Bool → ℕ → Interface → Interface → Type 0
Longer b n i j = length (addresses b j) ≡ n + length (addresses b i)

with_ether-Longer :
    (b : Bool) (halen addr : List ℕ) (i : Interface) → Longer b 0 i (with_ether halen addr i)
with_ether-Longer b [] addr i = omega arith
with_ether-Longer true (n ∷ rest) addr i = elim (Bool-cases (n == 0)) [
  | inl e ↦ rw e (omega arith)
  | inr e ↦ rw e (omega arith)
]
with_ether-Longer false (n ∷ rest) addr i = elim (Bool-cases (n == 0)) [
  | inl e ↦ rw e (omega arith)
  | inr e ↦ rw e (omega arith)
]

index-Longer : (b : Bool) (i : Interface) (n : ℕ) → Longer b 0 i (record i { index = some n })
index-Longer true i n = omega arith
index-Longer false i n = omega arith

mtu-Longer :
    (b c : Bool) (i : Interface) (n : ℤ) → Longer b 0 i (if c then record i { mtu = some n } else i)
mtu-Longer true true i n = omega arith
mtu-Longer false true i n = omega arith
mtu-Longer b false i n = omega arith

pub flags-Longer :
    (b : Bool) (i : Interface) (names : List String) → Longer b 0 i (record i { flags = names })
flags-Longer true i names = omega arith
flags-Longer false i names = omega arith

pub add_ifa_index-IsTotal :
    (b : Bool) (name : List ℕ) (i : Interface) → IsTotal (add_ifa_index name i) (Longer b 0 i)
unfolding add_ifa_index
add_ifa_index-IsTotal b name i =
    bind-IsTotal (λ r. Unit {0}) (Longer b 0 i) (sys (Call.if_nametoindex name)) _
      (sys-IsTotal (Call.if_nametoindex name))
      λ idx u.
        if-IsTotal (Longer b 0 i) (to_unsigned 32 idx.ret == 0) _ _
          (λ e. pure-IsTotal (Longer b 0 i) i (omega arith))
          (λ e.
            pure-IsTotal (Longer b 0 i) (record i { index = some (to_unsigned 32 idx.ret) })
              (index-Longer b i (to_unsigned 32 idx.ret)))

pub add_ifa_mtu-IsTotal :
    (b : Bool) (name : List ℕ) (i : Interface) → IsTotal (add_ifa_mtu name i) (Longer b 0 i)
unfolding add_ifa_mtu
add_ifa_mtu-IsTotal b name i =
    let any = λ (r : Reply). Unit {0} in
    bind-IsTotal any (Longer b 0 i) (sys (Call.socket af_inet sock_dgram (pos 0))) _
      (sys-IsTotal (Call.socket af_inet sock_dgram (pos 0)))
      λ fd u.
        if-IsTotal (Longer b 0 i) (fd.ret ==ℤ minus_one) _ _
          (λ e. pure-IsTotal (Longer b 0 i) i (omega arith))
          (λ e.
            bind-IsTotal any (Longer b 0 i) (sys (Call.ioctl_gifmtu fd.ret (ifr_name name))) _
              (sys-IsTotal (Call.ioctl_gifmtu fd.ret (ifr_name name)))
              λ r u.
                bind-IsTotal any (Longer b 0 i) (sys (Call.close fd.ret)) _
                  (sys-IsTotal (Call.close fd.ret))
                  λ c u.
                    pure-IsTotal (Longer b 0 i)
                      (if r.ret ==ℤ pos 0 then record i { mtu = some r.num } else i)
                      (mtu-Longer b (r.ret ==ℤ pos 0) i r.num))

-- One more address at the end of its family.
inet-Longer :
    (b : Bool) (i : Interface) (a : Address)
    → Longer b (if b then 1 else 0) i (record i { inet = i.inet ++ (a ∷ []) })
inet-Longer true i a = omega (arith, length-append i.inet (a ∷ []))
inet-Longer false i a = omega arith

inet6-Longer :
    (b : Bool) (i : Interface) (a : Address)
    → Longer b (if b then 0 else 1) i (record i { inet6 = i.inet6 ++ (a ∷ []) })
inet6-Longer true i a = omega arith
inet6-Longer false i a = omega (arith, length-append i.inet6 (a ∷ []))

-- What is counted for an address of the family `f`.
abbrev pub one_of : Bool → ℤ → ℕ
one_of b f = if f ==ℤ family_of b then 1 else 0

one_of-inet : (b : Bool) (f : ℤ) → (f ==ℤ af_inet) ≡ true → one_of b f ≡ (if b then 1 else 0)
one_of-inet true f e = rw e refl
one_of-inet false f e = let h = (==ℤ_iff f af_inet).0 e in rw h refl

one_of-inet6 : (b : Bool) (f : ℤ) → (f ==ℤ af_inet6) ≡ true → one_of b f ≡ (if b then 0 else 1)
one_of-inet6 true f e = let h = (==ℤ_iff f af_inet6).0 e in rw h refl
one_of-inet6 false f e = rw e refl

one_of-other :
    (b : Bool) (f : ℤ) → (f ==ℤ af_inet) ≡ false → (f ==ℤ af_inet6) ≡ false → one_of b f ≡ 0
one_of-other true f e e' = rw e refl
one_of-other false f e e' = rw e' refl

pub add_address-IsTotal :
    (b : Bool) (ifa : Ifaddrs) (addr : List ℕ) (i : Interface)
    → IsTotal (add_address ifa addr i) (Longer b (one_of b (sa_family addr)) i)
unfolding add_address
add_address-IsTotal b ifa addr i =
    let f = sa_family addr in
    let P = Longer b (one_of b f) i in
    if-IsTotal P (sa_family addr ==ℤ af_inet) _ _
      (λ e.
        bind-IsTotal (λ a. Unit {0}) P (new_address ifa 16) _ (new_address-IsTotal ifa 16)
          λ a u.
            pure-IsTotal P (record i { inet = i.inet ++ (a ∷ []) })
              (subst (λ n. Longer b n i (record i { inet = i.inet ++ (a ∷ []) }))
                (sym (one_of-inet b f e)) (inet-Longer b i a)))
      (λ e.
        if-IsTotal P (sa_family addr ==ℤ af_inet6) _ _
          (λ e'.
            bind-IsTotal (λ a. Unit {0}) P (new_address ifa 28) _ (new_address-IsTotal ifa 28)
              λ a u.
                pure-IsTotal P (record i { inet6 = i.inet6 ++ (a ∷ []) })
                  (subst (λ n. Longer b n i (record i { inet6 = i.inet6 ++ (a ∷ []) }))
                    (sym (one_of-inet6 b f e')) (inet6-Longer b i a)))
          (λ e'.
            if-IsTotal P (sa_family addr ==ℤ af_packet) _ _
              (λ e''. pure-IsTotal P (link_address addr i) (
                subst (λ n. Longer b n i (link_address addr i)) (sym (one_of-other b f e e'))
                  (with_ether-Longer b (take 1 (drop 11 addr)) addr i)))
              (λ e''.
                pure-IsTotal P i
                  (subst (λ n. Longer b n i i) (sym (one_of-other b f e e')) (omega arith)))))
