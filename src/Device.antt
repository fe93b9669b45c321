-- ===== src/Device.antt =====
-- Network interfaces: src/device.c.
pub mod Total
pub mod Longer
pub mod Listing
pub mod Closing
use lua_llsocket.Prelude.{
  ℕ, ◌+◌, ◌/◌, ◌%◌, ◌==◌, ltb, bit_and, Bool, true, false, ◌&&◌, not, String, Option, none, some,
  List, [], ◌∷◌, ◌++◌, if◌then◌else◌, take, drop, ◌⊎◌, inl, inr,
}
use lua_llsocket.Prelude.Int.{ℤ, pos, minus_one, ◌==ℤ◌, to_unsigned}
use lua_llsocket.Host.Os.{Call, Ifaddrs}
use lua_llsocket.Host.Lua.{Value}
use lua_llsocket.Host.Consts.{af_inet, af_inet6, sock_dgram}
use lua_llsocket.Host.{St, Cmd, pure, ◌>>=◌, ◌>>◌, gets, sys}
use lua_llsocket.Mcast.{ifr_name}
use lua_llsocket.Mcast.Interface.{sa_family, same_bytes}

-- One address of an interface, and the table of an interface: the names of its flags, and its
-- fields. A field that is not set is `none`.
pub record Address : Type 0 where
  pub address : Option (List ℕ)
  pub netmask : Option (List ℕ)
  pub broadcast : Option (List ℕ)
  pub point2point : Option (List ℕ)

pub record Interface : Type 0 where
  pub flags : List String
  pub index : Option ℕ
  pub mtu : Option ℤ
  pub ether : Option (List ℕ)
  pub inet : List Address
  pub inet6 : List Address

abbrev pub new_interface : Interface
new_interface = record { flags = []; index = none; mtu = none; ether = none; inet = []; inet6 = [] }

-- The table that is answered: the interfaces by their names.
abbrev pub Interfaces : Type 0
Interfaces = List (List ℕ × Interface)

-- The entry for a name, and the table with another one.
unfoldable pub lookup : List ℕ → Interfaces → Option Interface
lookup name [] = none
lookup name ((n, i) ∷ rest) =
    let found = lookup name rest in if same_bytes name n then some i else found

unfoldable pub store : List ℕ → Interface → Interfaces → Interfaces
store name i [] = (name, i) ∷ []
store name i ((n, j) ∷ rest) =
    let stored = store name i rest in if same_bytes name n then (n, i) ∷ rest else (n, j) ∷ stored

-- `gettable`: the table of an interface, and whether it is new.
abbrev pub found_or_new : Option Interface → Interface × Bool
found_or_new none = (new_interface, true)
found_or_new (some i) = (i, false)

unfoldable pub gettable : List ℕ → Interfaces → Interface × Bool
gettable name t = found_or_new (lookup name t)

-- `IFF_BROADCAST` and `IFF_POINTOPOINT`.
abbrev pub iff_broadcast : ℕ
iff_broadcast = 2

abbrev pub iff_pointopoint : ℕ
iff_pointopoint = 16

abbrev pub has_bit : ℕ → ℕ → Bool
has_bit flags bit = not (bit_and flags bit == 0)

-- The flags that every system has, with the names that are used for them.
abbrev pub common_flags : List (ℕ × String)
common_flags =
    (1, "up")
    ∷ (iff_broadcast, "broadcast")
    ∷ (4, "debug")
    ∷ (8, "loopback")
    ∷ (iff_pointopoint, "pointtopoint")
    ∷ (32, "notrailers")
    ∷ (64, "running")
    ∷ (128, "noarp")
    ∷ (256, "promisc")
    ∷ (512, "allmulti")
    ∷ (4096, "multicast")
    ∷ []

unfoldable pub flag_names : ℕ → List (ℕ × String) → List String
flag_names ifa_flags [] = []
flag_names ifa_flags ((bit, name) ∷ rest) =
    let names = flag_names ifa_flags rest in if has_bit ifa_flags bit then name ∷ names else names

unfoldable pub add_ifa_index : List ℕ → Interface → Cmd Interface
add_ifa_index ifa_name i = do
  idx ← sys (Call.if_nametoindex ifa_name)
  if to_unsigned 32 idx.ret == 0
      then pure i
      else pure (record i { index = some (to_unsigned 32 idx.ret) })

unfoldable pub add_ifa_mtu : List ℕ → Interface → Cmd Interface
add_ifa_mtu ifa_name i = do
  fd ← sys (Call.socket af_inet sock_dgram (pos 0))
  if fd.ret ==ℤ minus_one then pure i else do
    r ← sys (Call.ioctl_gifmtu fd.ret (ifr_name ifa_name))
    sys (Call.close fd.ret)
    pure (if r.ret ==ℤ pos 0 then record i { mtu = some r.num } else i)

-- `getnameinfo` of an address as a number. For NULL the call, which then fails, is left out.
abbrev pub numeric_host : Option (List ℕ) → ℕ → Cmd (Option (List ℕ))
numeric_host none addrlen = pure none
numeric_host (some addr) addrlen = do
  r ← sys (Call.getnameinfo addr addrlen (pos 1))
  pure (if r.ret ==ℤ pos 0 then some r.bytes else none)

abbrev pub when_flag : Bool → Option (List ℕ) → Option (List ℕ)
when_flag true addr = addr
when_flag false addr = none

-- The table of one address.
unfoldable pub new_address : Ifaddrs → ℕ → Cmd Address
new_address ifa addrlen = do
  a ← numeric_host ifa.ifa_addr addrlen
  n ← numeric_host ifa.ifa_netmask addrlen
  b ← numeric_host (when_flag (has_bit ifa.ifa_flags iff_broadcast) ifa.ifa_dstaddr) addrlen
  p ← numeric_host (when_flag (has_bit ifa.ifa_flags iff_pointopoint) ifa.ifa_dstaddr) addrlen
  pure (record { address = a; netmask = n; broadcast = b; point2point = p })

-- "%02x", and the six bytes of an address of the link layer.
abbrev pub hex_digit : ℕ → ℕ
hex_digit n = if ltb n 10 then 48 + n else 87 + n

abbrev pub hex : List ℕ → List ℕ
hex [] = []
hex (b ∷ []) = hex_digit (b / 16) ∷ hex_digit (b % 16) ∷ []
hex (b ∷ c ∷ bs) = hex_digit (b / 16) ∷ hex_digit (b % 16) ∷ 58 ∷ hex (c ∷ bs)

abbrev pub af_packet : ℤ
af_packet = pos 17

-- `sll_halen` is the first byte of `halen`; if it is not 0, there is an address of the link layer.
abbrev pub with_ether : (halen addr : List ℕ) → Interface → Interface
with_ether [] addr i = i
with_ether (n ∷ rest) addr i =
    if n == 0 then i else record i { ether = some (hex (take 6 (drop 12 addr))) }

abbrev pub link_address : List ℕ → Interface → Interface
link_address addr i = with_ether (take 1 (drop 11 addr)) addr i

-- The switch on the family.
unfoldable pub add_address : Ifaddrs → List ℕ → Interface → Cmd Interface
unfolding sa_family new_address
add_address ifa addr i =
    if sa_family addr ==ℤ af_inet
    then (do a ← new_address ifa 16; pure (record i { inet = i.inet ++ (a ∷ []) }))
    else if sa_family addr ==ℤ af_inet6
    then (do a ← new_address ifa 28; pure (record i { inet6 = i.inet6 ++ (a ∷ []) }))
    else if sa_family addr ==ℤ af_packet
    then pure (link_address addr i)
    else pure i

-- The headers of the system may define more flags, `extra`.
module _ (extra : List (ℕ × String)) where
  unfoldable pub add_ifa_flags : ℕ → Interface → Interface
  unfolding flag_names
  add_ifa_flags ifa_flags i = record i { flags = flag_names ifa_flags (common_flags ++ extra) }

  -- What a table that is new is filled with.
  abbrev pub filled_in : Bool → Ifaddrs → Interface → Cmd Interface
  filled_in false ifa i = pure i
  filled_in true ifa i = do
    j ← add_ifa_index ifa.ifa_name (add_ifa_flags ifa.ifa_flags i)
    add_ifa_mtu ifa.ifa_name j

  -- One round of the loop. An entry without an address is passed over.
  unfoldable pub add_ifa : Ifaddrs → Option (List ℕ) → Interfaces → Cmd Interfaces
  unfolding gettable add_address store
  add_ifa ifa none t = pure t
  add_ifa ifa (some addr) t = do
    let (i, created) = gettable ifa.ifa_name t
    j ← filled_in created ifa i
    k ← add_address ifa addr j
    pure (store ifa.ifa_name k t)

  unfoldable pub add_all : List Ifaddrs → Interfaces → Cmd Interfaces
  unfolding add_ifa
  add_all [] t = pure t
  add_all (ifa ∷ rest) t = do t' ← add_ifa ifa ifa.ifa_addr t; add_all rest t'

  -- The answer is the table, or nil and an error.
  unfoldable pub getifaddrs_lua : Cmd (Interfaces ⊎ ℕ)
  unfolding add_all
  getifaddrs_lua = do
    l ← sys Call.getifaddrs
    e ← gets St.errno
    if not (l.ret ==ℤ pos 0)
        then pure (inr e)
        else do t ← add_all l.ifas []; sys Call.freeifaddrs; pure (inl t)
