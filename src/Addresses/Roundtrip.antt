-- ===== src/Addresses/Roundtrip.antt =====
-- What the accessors of an address read of the addresses that the constructors make.
use lua_llsocket.Prelude.{
  ℕ, suc, ◌+◌, ◌-◌, ◌^◌, ◌<◌, ◌≤◌, ◌==◌, leb, Bool, true, false, not, ◌&&◌, ◌≡◌, refl, none, List,
  [], ◌∷◌, ◌++◌, length, take, replicate, arith, ap, ◌∙◌, take-append, append_assoc, length-append,
  length-replicate, Bool-cases, inl, inr, take-all,
}
use lua_llsocket.Prelude.Int.{pos}
use lua_llsocket.Prelude.Bytes.{to_le}
use lua_llsocket.Host.Os.{Call}
use lua_llsocket.Host.Lua.{Value, Arg, Addrinfo}
use lua_llsocket.Host.Consts.{af_inet, af_inet6, af_unix, enametoolong, unixpath_max}
use lua_llsocket.Host.{St, ok}
use lua_llsocket.Addresses.{
  lls_addrinfo_alloc, addr_lua, port_lua, ntohs, htons, c_string, inet_pton_to, inet_lua, inet6_lua,
  unix_lua, sockaddr_in, sockaddr_in6,
}

-- The port is in the order of the network.
ntohs-htons : (port : ℕ) → port < 2 ^ 16 → ntohs (htons port) ≡ port
unfolding ntohs htons
ntohs-htons port h = omega arith

-- No byte of the path is NUL.
abbrev pub no_nul : List ℕ → Bool
no_nul [] = true
no_nul (b ∷ bs) = not (b == 0) && no_nul bs

c_string-no_nul : (path rest : List ℕ) → no_nul path ≡ true → c_string (path ++ (0 ∷ rest)) ≡ path
unfolding c_string
c_string-no_nul [] rest h = refl
c_string-no_nul (b ∷ bs) rest h = elim (Bool-cases (b == 0)) [
  | inl e ↦ absurd (ground arith)
  | inr e ↦ rw e (ap (λ r. b ∷ r) (c_string-no_nul bs rest (ground arith)))
]

-- The bytes of the path and the NUL behind them, in the storage.
path_bytes :
    (path junk : List ℕ)
    → length path < 108
    → take 108 (path ++ replicate (108 - length path) 0) ++ junk
      ≡ path ++ (0 ∷ (replicate (107 - length path) 0 ++ junk))
path_bytes path junk h =
    let l : 108 ≡ length (path ++ replicate (108 - length path) 0) = omega (
      arith,
      length-append path (replicate (108 - length path) 0),
      length-replicate {A = ℕ} (108 - length path) 0,
    ) in
    let e : 108 - length path ≡ suc (107 - length path) = omega arith in
    ap (λ r. r ++ junk) (take-all 108 (path ++ replicate (108 - length path) 0) l)
    ∙ append_assoc path (replicate (108 - length path) 0) junk
    ∙ ap (λ n. path ++ (replicate n 0 ++ junk)) e

-- The address that `unix_lua` makes.
abbrev pub unix_info : List ℕ → Addrinfo
unfolding to_le
unix_info path = record {
  ai_flags = pos 0;
  ai_family = af_unix;
  ai_socktype = pos 0;
  ai_protocol = pos 0;
  ai_addrlen = 110;
  ai_addr = to_le 2 1 ++ (path ++ replicate (108 - length path) 0);
  ai_canonname = none;
}

-- `addr` of an address that `unix` has made of a path of at most 107 bytes without a NUL is
-- that path, whatever the memory held before.
pub unix-addr :
    (path junk : List ℕ) (st s : St)
    → length path < unixpath_max
    → no_nul path ≡ true
    → (info : Addrinfo) × ((unix_lua (Arg.given path) Arg.absent Arg.absent Arg.absent st).0
        ≡ ok (Value.addrinfo info ∷ []))
      × ((addr_lua junk info s).0 ≡ ok (Value.string path ∷ []))
unfolding unix_lua addr_lua lls_addrinfo_alloc to_le
unix-addr path junk st s h n =
    let e : leb unixpath_max (length path) ≡ false = ground arith in
    (
      record (unix_info path) { ai_addr = take 110 (unix_info path).ai_addr },
      rw e refl,
      ap (λ r. ok (Value.string r ∷ []))
          (ap c_string (path_bytes path junk h)
            ∙ c_string-no_nul path (replicate (107 - length path) 0 ++ junk) n),
    )

-- A longer path is refused.
pub unix-too_long :
    (path : List ℕ) (st : St)
    → unixpath_max ≤ length path
    → unix_lua (Arg.given path) Arg.absent Arg.absent Arg.absent st ≡ (
      ok (Value.nil ∷ Value.failure enametoolong "unix" ∷ []),
      record st { errno = enametoolong },
    )
unfolding unix_lua
unix-too_long path st h = let e : leb unixpath_max (length path) ≡ true = ground arith in rw e refl

-- The bytes of an address in the middle of its structure.
kept :
    (n z : ℕ) (bytes junk : List ℕ)
    → n ≡ length bytes
    → take n (take (n + z) (take n bytes ++ replicate z 0) ++ junk) ≡ bytes
kept n z bytes junk h =
    let t = take-all n bytes h in
    let l : n + z ≡ length (bytes ++ replicate z 0) =
      omega (arith, h, length-append bytes (replicate z 0), length-replicate {A = ℕ} z 0) in
    ap (λ r. take n (take (n + z) (r ++ replicate z 0) ++ junk)) t
    ∙ ap (λ r. take n (r ++ junk)) (take-all (n + z) (bytes ++ replicate z 0) l)
    ∙ ap (take n) (append_assoc bytes (replicate z 0) junk)
    ∙ take-append bytes (replicate z 0 ++ junk) n h

-- Let `inet_pton` read four bytes of a text that is not empty. `inet` of the text and a port makes
-- an address of which `port` answers the port, and of which `addr` gives `inet_ntop` the four bytes.
pub inet-roundtrip :
    (c : ℕ) (cs bytes : List ℕ) (port : ℕ) (junk : List ℕ) (st s : St)
    → port < 2 ^ 16
    → (st.os st.trace (Call.inet_pton af_inet (c ∷ cs))).ret ≡ pos 1
    → (st.os st.trace (Call.inet_pton af_inet (c ∷ cs))).bytes ≡ bytes
    → 4 ≡ length bytes
    → (info : Addrinfo) × ((inet_lua
          (Arg.given (c ∷ cs))
          (Arg.given port)
          Arg.absent
          Arg.absent
          Arg.absent
          st).0
        ≡ ok (Value.addrinfo info ∷ []))
      × (port_lua junk info ≡ Value.integer (pos port) ∷ [])
      × ((addr_lua junk info s).1.trace ≡ Call.inet_ntop af_inet bytes ∷ s.trace)
unfolding inet_lua addr_lua port_lua lls_addrinfo_alloc inet_pton_to to_le htons ntohs
inet-roundtrip c cs bytes port junk st s h r b l = (
  record {
    ai_flags = pos 0;
    ai_family = af_inet;
    ai_socktype = pos 0;
    ai_protocol = pos 0;
    ai_addrlen = 16;
    ai_addr = take 16 (sockaddr_in port bytes);
    ai_canonname = none;
  },
  rw (r, b) refl,
  ap (λ n. Value.integer (pos n) ∷ []) (ntohs-htons port h),
  ap (λ a. Call.inet_ntop af_inet a ∷ s.trace) (kept 4 8 bytes junk l),
)

-- The same of `inet6`, with sixteen bytes.
pub inet6-roundtrip :
    (c : ℕ) (cs bytes : List ℕ) (port : ℕ) (junk : List ℕ) (st s : St)
    → port < 2 ^ 16
    → (st.os st.trace (Call.inet_pton af_inet6 (c ∷ cs))).ret ≡ pos 1
    → (st.os st.trace (Call.inet_pton af_inet6 (c ∷ cs))).bytes ≡ bytes
    → 16 ≡ length bytes
    → (info : Addrinfo) × ((inet6_lua
          (Arg.given (c ∷ cs))
          (Arg.given port)
          Arg.absent
          Arg.absent
          Arg.absent
          st).0
        ≡ ok (Value.addrinfo info ∷ []))
      × (port_lua junk info ≡ Value.integer (pos port) ∷ [])
      × ((addr_lua junk info s).1.trace ≡ Call.inet_ntop af_inet6 bytes ∷ s.trace)
unfolding inet6_lua addr_lua port_lua lls_addrinfo_alloc inet_pton_to to_le htons ntohs
inet6-roundtrip c cs bytes port junk st s h r b l = (
  record {
    ai_flags = pos 0;
    ai_family = af_inet6;
    ai_socktype = pos 0;
    ai_protocol = pos 0;
    ai_addrlen = 28;
    ai_addr = take 28 (sockaddr_in6 port bytes);
    ai_canonname = none;
  },
  rw (r, b) refl,
  ap (λ n. Value.integer (pos n) ∷ []) (ntohs-htons port h),
  ap (λ a. Call.inet_ntop af_inet6 a ∷ s.trace) (kept 16 4 bytes junk l),
)
