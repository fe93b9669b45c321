-- ===== src/Device/Total.antt =====
-- Commands of src/device.c that always end with a value.
use lua_llsocket.Prelude.{
  ℕ, ◌≡◌, refl, Bool, true, false, Option, none, some, List, if◌then◌else◌, ap, ◌∙◌,
}
use lua_llsocket.Prelude.Int.{pos, ◌==ℤ◌}
use lua_llsocket.Host.Os.{Call, Ifaddrs}
use lua_llsocket.Host.{St, Cmd, pure, ok, bind_ok, ◌>>=◌, sys}
use lua_llsocket.Device.{
  Address, has_bit, iff_broadcast, iff_pointopoint, numeric_host, when_flag, new_address,
}

-- The command always ends with a value, of which `P` holds.
pub record IsTotal {A : Type 0} (m : Cmd A) (P : A → Type 0) : Type 0 where
  pub value : (st : St) → (a : A) × ((m st).0 ≡ ok a) × P a

pub bind-IsTotal :
    {A B : Type 0} (P : A → Type 0) (Q : B → Type 0) (m : Cmd A) (k : A → Cmd B)
    → IsTotal m P
    → ((a : A) → P a → IsTotal (k a) Q)
    → IsTotal (m >>= k) Q
bind-IsTotal P Q m k t h = record {
  value = λ st.
      let (a, e, p) = t.value st in
      let (b, f, q) = (h a p).value (m st).1 in (b, ap (λ r. r.0) (bind_ok m k st e) ∙ f, q);
}

pub if-IsTotal :
    {A : Type 0} (P : A → Type 0) (b : Bool) (m k : Cmd A)
    → (b ≡ true → IsTotal m P)
    → (b ≡ false → IsTotal k P)
    → IsTotal (if b then m else k) P
if-IsTotal P true m k hm hk = hm refl
if-IsTotal P false m k hm hk = hk refl

pub pure-IsTotal : {A : Type 0} (P : A → Type 0) (a : A) → P a → IsTotal (pure a) P
pure-IsTotal P a p = record { value = λ st. (a, refl, p) }

pub IsTotal-weaken :
    {A : Type 0} (P Q : A → Type 0) (m : Cmd A) → IsTotal m P → ((a : A) → P a → Q a) → IsTotal m Q
IsTotal-weaken P Q m t h = record { value = λ st. let (a, e, p) = t.value st in (a, e, h a p) }

pub sys-IsTotal : (c : Call) → IsTotal (sys c) (λ r. Unit {0})
sys-IsTotal c = record { value = λ st. (st.os st.trace c, refl, tt) }

numeric_host-IsTotal :
    (addr : Option (List ℕ)) (addrlen : ℕ) → IsTotal (numeric_host addr addrlen) (λ a. Unit {0})
numeric_host-IsTotal none addrlen = pure-IsTotal (λ a. Unit {0}) none tt
numeric_host-IsTotal (some addr) addrlen =
    bind-IsTotal (λ r. Unit {0}) (λ a. Unit {0}) (sys (Call.getnameinfo addr addrlen (pos 1)))
      (λ r. pure (if r.ret ==ℤ pos 0 then some r.bytes else none))
      (sys-IsTotal (Call.getnameinfo addr addrlen (pos 1)))
      λ r u. pure-IsTotal (λ a. Unit {0}) (if r.ret ==ℤ pos 0 then some r.bytes else none) tt

pub new_address-IsTotal :
    (ifa : Ifaddrs) (addrlen : ℕ) → IsTotal (new_address ifa addrlen) (λ a. Unit {0})
unfolding new_address
new_address-IsTotal ifa addrlen =
    let broad = when_flag (has_bit ifa.ifa_flags iff_broadcast) ifa.ifa_dstaddr in
    let point = when_flag (has_bit ifa.ifa_flags iff_pointopoint) ifa.ifa_dstaddr in
    let any = λ (a : Option (List ℕ)). Unit {0} in
    let one = λ (a : Address). Unit {0} in
    bind-IsTotal any one (numeric_host ifa.ifa_addr addrlen) _
      (numeric_host-IsTotal ifa.ifa_addr addrlen)
      λ a u.
        bind-IsTotal any one (numeric_host ifa.ifa_netmask addrlen) _
          (numeric_host-IsTotal ifa.ifa_netmask addrlen)
          λ n u.
            bind-IsTotal any one (numeric_host broad addrlen) _ (numeric_host-IsTotal broad addrlen)
              λ b u.
                bind-IsTotal any one (numeric_host point addrlen) _
                  (numeric_host-IsTotal point addrlen)
                  λ p u.
                    pure-IsTotal one
                      (record { address = a; netmask = n; broadcast = b; point2point = p }) tt
