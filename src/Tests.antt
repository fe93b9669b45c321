-- ===== src/Tests.antt =====
-- Concrete machines and states, on which the theorems are applied.
pub mod Ending
pub mod Members
pub mod Beginning
pub mod Transfer
pub mod Control
pub mod Options
pub mod Descriptors
pub mod Addresses
pub mod Network
pub mod Messages
pub mod Registered
pub mod Passing
use lua_llsocket.Prelude.{
  ℕ, suc, ◌==◌, ◌≡◌, ◌≢◌, refl, Bool, true, Option, none, some, List, [], ◌∷◌, if◌then◌else◌, arith,
}
use lua_llsocket.Prelude.Int.{ℤ, pos, minus_one}
use lua_llsocket.Host.Os.{Call, Reply}
use lua_llsocket.Host.Lua.{Addrinfo}
use lua_llsocket.Host.Consts.{af_inet, sock_stream, noref, eagain}
use lua_llsocket.Host.Registry.{IsRegistry}
use lua_llsocket.Host.Trace.{IsQuiet}
use lua_llsocket.Host.{Ptr, null, Socket, Gcfn, St}
use lua_llsocket.Gcfn.Chain.{Chain}

abbrev pub returns : ℤ → Reply
returns r = record {
  ret = r;
  errno = none;
  num = pos 0;
  num2 = pos 0;
  bytes = [];
  addr = [];
  len = 0;
  infos = [];
  ifas = [];
}

abbrev pub fails : ℕ → Reply
fails e = record (returns minus_one) { errno = some e }

-- A machine with a Lua registry, and with `f` for the operating system.
abbrev pub machine : (List Call → Call → Reply) → List Call → Call → Reply
machine f t Call.ref = returns (pos 5)
machine f t (Call.unref r) = returns noref
machine f t c = f t c

pub machine-IsRegistry : (f : List Call → Call → Reply) → IsRegistry (machine f)
machine-IsRegistry f = record { ref_live = λ t. ground arith; unref_noref = λ t r. refl }

-- Finalisers that do nothing.
abbrev pub idle : ℤ → St → St
idle r st = st

pub idle-IsQuiet : IsQuiet idle
idle-IsQuiet = record {
  keeps_os = λ r st. refl;
  keeps_socks = λ r st. refl;
  keeps_gcfns = λ r st. refl;
  keeps_lifecycle = λ r st. refl;
}

-- The finalisers at 10 and 11 are linked; the others are free.
abbrev pub two_gcfns : Ptr → Gcfn
two_gcfns q =
    if q == 10
    then record { ref_self = pos 5; ref_fn = pos 20; prev = null; next = 11 }
    else if q == 11
    then record { ref_self = pos 6; ref_fn = pos 21; prev = 10; next = null }
    else record { ref_self = noref; ref_fn = noref; prev = null; next = null }

abbrev pub a_socket : Socket
a_socket = record {
  fd = pos 6;
  family = af_inet;
  socktype = sock_stream;
  protocol = pos 0;
  gcfunc = null;
}

-- Every address holds the socket `s`.
abbrev pub with_socket : Socket → (List Call → Call → Reply) → St
with_socket s f = record {
  os = machine f;
  trace = [];
  errno = 0;
  socks = λ q. s;
  has_meta = λ q. true;
  gcfns = two_gcfns;
  fresh = 20;
}

abbrev pub always : Reply → List Call → Call → Reply
always r t c = r

-- A socket with two finalisers, and one whose finalisers are done, on a system where calls succeed.
abbrev pub open_state : St
open_state = with_socket (record a_socket { gcfunc = 10 }) (always (returns (pos 0)))

abbrev pub done_state : St
done_state = with_socket (record a_socket { fd = minus_one; gcfunc = 1 }) (always (returns (pos 0)))

pub open-Chain : Chain two_gcfns null 10 (10 ∷ 11 ∷ [])
open-Chain = ground arith

abbrev pub an_address : Addrinfo
an_address = record {
  ai_flags = pos 0;
  ai_family = af_inet;
  ai_socktype = sock_stream;
  ai_protocol = pos 0;
  ai_addrlen = 8;
  ai_addr = 2 ∷ 0 ∷ 0 ∷ 80 ∷ 127 ∷ 0 ∷ 0 ∷ 1 ∷ [];
  ai_canonname = none;
}
