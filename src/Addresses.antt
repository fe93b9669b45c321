-- ===== src/Addresses.antt =====
-- src/addrinfo.c, and `lls_getaddrinfo` and `lls_addrinfo_alloc` of src/llsocket.h.
pub mod Roundtrip
pub mod Resolve
pub mod Numeric
use lua_llsocket.Prelude.{
  ℕ, ◌-◌, ◌/◌, ◌%◌, ◌^◌, ◌*◌, ◌+◌, ◌==◌, leb, Bool, true, false, not, Option, none, some, List, [],
  ◌∷◌, ◌++◌, if◌then◌else◌, length, take, drop, replicate, map,
}
use lua_llsocket.Prelude.Int.{ℤ, pos, minus_one, ◌==ℤ◌, to_int}
use lua_llsocket.Prelude.Bytes.{to_le, from_le}
use lua_llsocket.Host.Os.{Call, Reply}
use lua_llsocket.Host.Lua.{Value, Arg, Addrinfo}
use lua_llsocket.Host.Consts.{
  noref, af_unspec, af_inet, af_inet6, af_unix, eafnosupport, enametoolong, unixpath_max,
}
use lua_llsocket.Host.{
  Ptr, St, Cmd, pure, raise, ◌>>=◌, ◌>>◌, gets, sys, set_errno, check, opt, fail_nil,
}
use lua_llsocket.Io.{optional}

-- `lls_addrinfo_t`: the address, and the references that keep its storage and its name alive.
pub record LlsAddrinfo : Type 0 where
  pub ai : Addrinfo
  pub ai_addr_ref : ℤ
  pub ai_canonname_ref : ℤ

-- The copy of a canonical name, if there is one, has a reference.
abbrev pub name_ref : Option (List ℕ) → Cmd ℤ
name_ref none = pure noref
name_ref (some name) = do r ← sys Call.ref; pure r.ret

-- The first `ai_addrlen` bytes of the address are copied, to a `struct sockaddr_storage` that is new
-- memory, and the canonical name.
unfoldable pub lls_addrinfo_alloc : Addrinfo → Cmd LlsAddrinfo
lls_addrinfo_alloc src = do
  a ← sys Call.ref
  c ← name_ref src.ai_canonname
  pure (record {
    ai = record src { ai_addr = take src.ai_addrlen src.ai_addr };
    ai_addr_ref = a.ret;
    ai_canonname_ref = c;
  })

-- `getnameinfo`. The reply's `bytes` are the host and its `addr` the service.
unfoldable pub getnameinfo_lua : Addrinfo → Arg ℤ → Cmd (List Value)
getnameinfo_lua info flags_arg = do
  flag ← opt flags_arg (pos 0)
  r ← sys (Call.getnameinfo info.ai_addr info.ai_addrlen flag)
  if not (r.ret ==ℤ pos 0)
      then pure (Value.nil ∷ Value.failure_eai r.ret "getnameinfo" ∷ [])
      else pure (Value.nameinfo r.bytes r.addr ∷ [])

-- A string of C: the bytes before the first NUL.
unfoldable pub c_string : List ℕ → List ℕ
c_string [] = []
c_string (b ∷ bs) = let rest = c_string bs in if b == 0 then [] else b ∷ rest

-- `lua_pushstring` of the text that `inet_ntop` returns, or of NULL.
abbrev pub text_of : Reply → Value
text_of r = if r.ret ==ℤ pos 0 then Value.nil else Value.string r.bytes

-- `addr_lua`. The bytes that `junk` holds stand in the storage behind those that were copied.
unfoldable pub addr_lua : List ℕ → Addrinfo → Cmd (List Value)
unfolding c_string
addr_lua junk info =
    let bytes = info.ai_addr ++ junk in
    if info.ai_family ==ℤ af_inet
    then (do r ← sys (Call.inet_ntop af_inet (take 4 (drop 4 bytes))); pure (text_of r ∷ []))
    else if info.ai_family ==ℤ af_inet6
    then (do r ← sys (Call.inet_ntop af_inet6 (take 16 (drop 8 bytes))); pure (text_of r ∷ []))
    else if info.ai_family ==ℤ af_unix
    then pure (Value.string (c_string (drop 2 bytes)) ∷ [])
    else pure (Value.nil ∷ [])

-- `htons`: a 16-bit number in the order of the network, as bytes.
unfoldable pub htons : ℕ → List ℕ
htons port = port / 256 % 256 ∷ port % 256 ∷ []

unfoldable pub ntohs : List ℕ → ℕ
ntohs [] = 0
ntohs (hi ∷ []) = 0
ntohs (hi ∷ lo ∷ bs) = 256 * hi + lo

-- `port_lua`. `sin_port` and `sin6_port` stand at the same place.
unfoldable pub port_lua : List ℕ → Addrinfo → List Value
unfolding ntohs
port_lua junk info =
    let port = Value.integer (pos (ntohs (take 2 (drop 2 (info.ai_addr ++ junk))))) in
    if info.ai_family ==ℤ af_inet
    then port ∷ []
    else if info.ai_family ==ℤ af_inet6
    then port ∷ []
    else Value.nil ∷ []

unfoldable pub canonname_lua : Addrinfo → List Value
canonname_lua info = elim info.ai_canonname [ none ↦ [] | some name ↦ Value.string name ∷ [] ]

unfoldable pub protocol_lua : Addrinfo → List Value
protocol_lua info = Value.integer info.ai_protocol ∷ []

unfoldable pub socktype_lua : Addrinfo → List Value
socktype_lua info = Value.integer info.ai_socktype ∷ []

unfoldable pub family_lua : Addrinfo → List Value
family_lua info = Value.integer info.ai_family ∷ []

-- The collection of an address.
unfoldable pub gc_lua : LlsAddrinfo → Cmd LlsAddrinfo
gc_lua info = do
  a ← sys (Call.unref info.ai_addr_ref)
  c ← sys (Call.unref info.ai_canonname_ref)
  pure (record info { ai_addr_ref = a.ret; ai_canonname_ref = c.ret })

unfoldable pub lls_getaddrinfo :
    (host service : Option (List ℕ)) → (family socktype protocol flags : ℤ) → Call
lls_getaddrinfo = Call.getaddrinfo

-- `(len) ? str : NULL` for a string that may be missing.
abbrev pub nonempty : Option (List ℕ) → Option (List ℕ)
nonempty none = none
nonempty (some []) = none
nonempty (some (b ∷ bs)) = some (b ∷ bs)

-- The loop that fills the table, from the first address of the list.
unfoldable pub alloc_all : List Addrinfo → Cmd (List Addrinfo)
unfolding lls_addrinfo_alloc
alloc_all [] = pure []
alloc_all (ptr ∷ rest) = do
  info ← lls_addrinfo_alloc ptr
  infos ← alloc_all rest
  pure (info.ai ∷ infos)

unfoldable pub getaddrinfo_lua :
    (node service : Arg (List ℕ)) → (family socktype protocol flags : Arg ℤ) → Cmd (List Value)
unfolding lls_getaddrinfo alloc_all
getaddrinfo_lua node_arg service_arg family_arg socktype_arg protocol_arg flags_arg = do
  node ← optional node_arg
  service ← optional service_arg
  family ← opt family_arg af_unspec
  socktype ← opt socktype_arg (pos 0)
  protocol ← opt protocol_arg (pos 0)
  flags ← opt flags_arg (pos 0)
  r ← sys (
      lls_getaddrinfo (nonempty node) (nonempty service) (to_int family) (to_int socktype)
        (to_int protocol) flags)
  if not (r.ret ==ℤ pos 0)
      then pure (Value.nil ∷ Value.failure_eai r.ret "getaddrinfo" ∷ [])
      else do
        infos ← alloc_all r.infos
        sys Call.freeaddrinfo
        pure (Value.addrinfo_list infos ∷ [])

-- `struct sockaddr_in6` and `struct sockaddr_in`, with the family in the order of the machine.
abbrev pub sockaddr_in6 : ℕ → List ℕ → List ℕ
unfolding htons to_le
sockaddr_in6 port addr =
    to_le 2 10 ++ (htons port ++ (replicate 4 0 ++ (take 16 addr ++ replicate 4 0)))

abbrev pub sockaddr_in : ℕ → List ℕ → List ℕ
unfolding htons to_le
sockaddr_in port addr = to_le 2 2 ++ (htons port ++ (take 4 addr ++ replicate 8 0))

-- `lls_addrinfo_alloc` of a local address, and the return.
abbrev pub push_addrinfo : Addrinfo → Cmd (List Value)
unfolding lls_addrinfo_alloc
push_addrinfo ai = do info ← lls_addrinfo_alloc ai; pure (Value.addrinfo info.ai ∷ [])

-- The bytes of the address, which `inet_pton` makes of a text that is not empty.
unfoldable pub inet_pton_to :
    ℤ → List ℕ → Option (List ℕ) → (List ℕ → Cmd (List Value)) → Cmd (List Value)
inet_pton_to family any none k = k any
inet_pton_to family any (some addr) k = do
  r ← sys (Call.inet_pton family addr)
  if r.ret ==ℤ minus_one
      then fail_nil "inet_pton"
      else if r.ret ==ℤ pos 0
      then (do set_errno eafnosupport; fail_nil "inet_pton")
      else k r.bytes

unfoldable pub inet6_lua :
    Arg (List ℕ) → Arg ℕ → (socktype protocol flags : Arg ℤ) → Cmd (List Value)
unfolding lls_addrinfo_alloc inet_pton_to
inet6_lua addr_arg port_arg socktype_arg protocol_arg flags_arg = do
  addr ← optional addr_arg
  port ← opt port_arg 0
  socktype ← opt socktype_arg (pos 0)
  protocol ← opt protocol_arg (pos 0)
  flags ← opt flags_arg (pos 0)
  inet_pton_to af_inet6 (replicate 16 0) (nonempty addr) λ bytes. push_addrinfo (record {
    ai_flags = flags;
    ai_family = af_inet6;
    ai_socktype = to_int socktype;
    ai_protocol = to_int protocol;
    ai_addrlen = 28;
    ai_addr = sockaddr_in6 port bytes;
    ai_canonname = none;
  })

unfoldable pub inet_lua :
    Arg (List ℕ) → Arg ℕ → (socktype protocol flags : Arg ℤ) → Cmd (List Value)
unfolding lls_addrinfo_alloc inet_pton_to
inet_lua addr_arg port_arg socktype_arg protocol_arg flags_arg = do
  addr ← optional addr_arg
  port ← opt port_arg 0
  socktype ← opt socktype_arg (pos 0)
  protocol ← opt protocol_arg (pos 0)
  flags ← opt flags_arg (pos 0)
  inet_pton_to af_inet (replicate 4 0) (nonempty addr) λ bytes. push_addrinfo (record {
    ai_flags = flags;
    ai_family = af_inet;
    ai_socktype = to_int socktype;
    ai_protocol = to_int protocol;
    ai_addrlen = 16;
    ai_addr = sockaddr_in port bytes;
    ai_canonname = none;
  })

-- `struct sockaddr_un` has room for 108 bytes, the last one a NUL.
unfoldable pub unix_lua : Arg (List ℕ) → (socktype protocol flags : Arg ℤ) → Cmd (List Value)
unfolding lls_addrinfo_alloc
unix_lua path_arg socktype_arg protocol_arg flags_arg = do
  pathname ← check path_arg
  socktype ← opt socktype_arg (pos 0)
  protocol ← opt protocol_arg (pos 0)
  flags ← opt flags_arg (pos 0)
  if leb unixpath_max (length pathname)
      then (do set_errno enametoolong; fail_nil "unix")
      else push_addrinfo (record {
        ai_flags = flags;
        ai_family = af_unix;
        ai_socktype = to_int socktype;
        ai_protocol = to_int protocol;
        ai_addrlen = 110;
        ai_addr = to_le 2 1 ++ (pathname ++ replicate (108 - length pathname) 0);
        ai_canonname = none;
      })
