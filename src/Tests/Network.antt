-- ===== src/Tests/Network.antt =====
-- Applications of the theorems on connections, files and interfaces.
use lua_llsocket.Prelude.{inl, ℕ, ◌≡◌, refl, true, Option, none, some, List, [], ◌∷◌, arith}
use lua_llsocket.Prelude.Int.{pos}
use lua_llsocket.Host.Os.{Call, Reply, Ifaddrs}
use lua_llsocket.Host.Lua.{Value, Arg}
use lua_llsocket.Host.Consts.{sock_dgram}
use lua_llsocket.Host.{St, ok, crashed}
use lua_llsocket.Sendfile.{File, sendfile_lua, sendfile_lua_portable}
use lua_llsocket.Sendfile.Sent.{progress, sendfile-agree, sendfile-end}
use lua_llsocket.Mcast.Interface.{sa_family, mcastif_lua}
use lua_llsocket.Mcast.Chosen.{get_call, mcastif-reads, mcastif-null}
use lua_llsocket.Device.{Interfaces, getifaddrs_lua}
use lua_llsocket.Device.Listing.{listed, getifaddrs_lua-listed}
use lua_llsocket.Prelude.Bytes.{from_le}
use lua_llsocket.Device.Closing.{getifaddrs_lua-Keeps}
use lua_llsocket.Descriptors.{view}
use lua_llsocket.Descriptors.Moves.{Keeps}
use lua_llsocket.Tests.Descriptors.{growing-IsKernel, nothing_open}
use lua_llsocket.Tests.{returns, always, with_socket, a_socket, open_state}

-- A file of three bytes, of which two are sent.
abbrev sends_two : List Call → Call → Reply
sends_two t (Call.pread fd len offset) = record (returns (pos 3)) { bytes = 7 ∷ 8 ∷ 9 ∷ [] }
sends_two t c = returns (pos 2)

sendfile-agree_example :
    ((sendfile_lua 2
        (Arg.given (File.descriptor (pos 4)))
        (Arg.given (pos 10))
        Arg.absent
        (with_socket a_socket sends_two)).0
      ≡ ok (progress 10 2))
    × ((sendfile_lua_portable 2
          (Arg.given (File.descriptor (pos 4)))
          (Arg.given (pos 10))
          Arg.absent
          (with_socket a_socket sends_two)).0
        ≡ ok (progress 10 2))
sendfile-agree_example =
    sendfile-agree 2 (File.descriptor (pos 4)) 10 3 2 (with_socket a_socket sends_two) (omega arith)
      (omega arith) (omega arith) (omega arith) (omega arith) refl refl refl

sendfile-end_example :
    ((sendfile_lua 2
        (Arg.given (File.descriptor (pos 4)))
        (Arg.given (pos 10))
        Arg.absent
        open_state).0
      ≡ ok (Value.integer (pos 0) ∷ Value.nil ∷ Value.boolean true ∷ []))
    × ((sendfile_lua_portable 2
          (Arg.given (File.descriptor (pos 4)))
          (Arg.given (pos 10))
          Arg.absent
          open_state).0
        ≡ ok (Value.integer (pos 0) ∷ []))
sendfile-end_example =
    sendfile-end 2 (File.descriptor (pos 4)) 10 open_state (omega arith) (omega arith) refl refl

-- The interfaces "lo", "tun", which has no address, and "eth".
abbrev interface : List ℕ → Option (List ℕ) → Ifaddrs
interface name addr = record {
  ifa_name = name;
  ifa_flags = 1;
  ifa_addr = addr;
  ifa_netmask = none;
  ifa_dstaddr = none;
}

abbrev lo : Ifaddrs
lo = interface (108 ∷ 111 ∷ []) (some (2 ∷ 0 ∷ 0 ∷ 0 ∷ 127 ∷ 0 ∷ 0 ∷ 1 ∷ []))

abbrev tun : Ifaddrs
tun = interface (116 ∷ 117 ∷ 110 ∷ []) none

abbrev eth : Ifaddrs
eth = interface (101 ∷ 116 ∷ 104 ∷ []) (some (2 ∷ 0 ∷ 0 ∷ 0 ∷ 10 ∷ 0 ∷ 0 ∷ 5 ∷ []))

abbrev lists : List Ifaddrs → St
lists ifas =
    with_socket (record a_socket { socktype = sock_dgram })
      (always (record (returns (pos 0)) { bytes = 10 ∷ 0 ∷ 0 ∷ 5 ∷ []; ifas = ifas }))

mcastif-reads_example :
    ((mcastif_lua 2 Arg.absent (lists (lo ∷ eth ∷ []))).0
      ≡ ok (Value.string (101 ∷ 116 ∷ 104 ∷ []) ∷ []))
    × ((mcastif_lua 2 Arg.absent (lists (lo ∷ eth ∷ []))).1.trace
        ≡ Call.freeifaddrs ∷ Call.getifaddrs ∷ get_call 2 (lists (lo ∷ eth ∷ [])) ∷ [])
unfolding sa_family
mcastif-reads_example =
    mcastif-reads 2 (10 ∷ 0 ∷ 0 ∷ 5 ∷ []) (2 ∷ 0 ∷ 0 ∷ 0 ∷ 10 ∷ 0 ∷ 0 ∷ 5 ∷ []) (lo ∷ []) [] eth
      (lists (lo ∷ eth ∷ [])) refl refl refl refl refl refl refl refl refl refl

mcastif-null_example : (mcastif_lua 2 Arg.absent (lists (lo ∷ tun ∷ eth ∷ []))).0 ≡ crashed
unfolding sa_family
mcastif-null_example =
    mcastif-null 2 (10 ∷ 0 ∷ 0 ∷ 5 ∷ []) (lo ∷ []) (eth ∷ []) tun Arg.absent
      (lists (lo ∷ tun ∷ eth ∷ [])) refl refl refl refl refl refl refl refl

getifaddrs_lua-Keeps_example :
    Keeps (view nothing_open) (view (getifaddrs_lua ((65536, "lower_up") ∷ []) nothing_open).1)
getifaddrs_lua-Keeps_example =
    getifaddrs_lua-Keeps ((65536, "lower_up") ∷ []) nothing_open growing-IsKernel

-- "eth" has two addresses of IPv4.
getifaddrs_lua-listed_example :
    (t : Interfaces) × ((getifaddrs_lua [] (lists (lo ∷ eth ∷ tun ∷ eth ∷ []))).0 ≡ ok (inl t))
    × (listed true (101 ∷ 116 ∷ 104 ∷ []) t ≡ 2)
unfolding sa_family from_le
getifaddrs_lua-listed_example =
    getifaddrs_lua-listed [] true (101 ∷ 116 ∷ 104 ∷ []) (lists (lo ∷ eth ∷ tun ∷ eth ∷ [])) refl
