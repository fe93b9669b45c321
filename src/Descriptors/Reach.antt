-- ===== src/Descriptors/Reach.antt =====
-- The states that the functions which open and close descriptors can reach, in any order.
use lua_llsocket.Prelude.{
  ℕ, ◌≡◌, refl, Bool, true, false, Option, none, some, List, [], ◌∷◌, ◌∙◌, sym, subst, arith,
}
use lua_llsocket.Prelude.Int.{ℤ}
use lua_llsocket.Host.Os.{Call, Reply}
use lua_llsocket.Host.Lua.{Arg}
use lua_llsocket.Host.{Ptr, St, sys, put_meta}
use lua_llsocket.Create.{new_lua, acceptfd, accept_lua}
use lua_llsocket.Life.{dup_lua, close_lua, gc_lua, unwrap_lua}
use lua_llsocket.Descriptors.{IsKernel, owns, is_open, strays, view}
use lua_llsocket.Descriptors.Moves.{Inv, Move, keeps, is_free, Move-Inv, Move-os}
use lua_llsocket.Descriptors.Neutral.{IsHarmless, Same, Same-Keeps}
use lua_llsocket.Descriptors.Opening.{new_lua-Move}
use lua_llsocket.Descriptors.Passing.{accept_lua-Move, dup_lua-Move}
use lua_llsocket.Descriptors.Ending.{close_lua-Move, gc_lua-Move, unwrap_lua-Move}

-- A call that neither opens nor closes a descriptor.
abbrev pub is_other : Call → Bool
is_other (Call.socket family socktype protocol) = false
is_other (Call.socketpair family socktype protocol) = false
is_other (Call.dup fd) = false
is_other (Call.accept fd with_addr) = false
is_other (Call.accept4 fd with_addr flags) = false
is_other (Call.close fd) = false
is_other c = true

-- One call of a function, whatever its outcome. A socket whose collection has ended is gone, and
-- so is its metatable; the functions that end a socket want one that has its metatable. The other
-- functions are taken call by call. `accept` is the variant with `accept4`, and does not ask for the
-- address of the peer.
pub data Step (fin : ℤ → St → St) : St → St → Type 0 where
  create :
      {st : St} (family socktype protocol : ℤ) (nonblock : Bool)
      → Step fin st
          (new_lua
            (Arg.given family)
            (Arg.given socktype)
            (Arg.given protocol)
            (Arg.given nonblock)
            st).1
  accept : {st : St} (sp : Ptr) → Step fin st (accept_lua acceptfd sp Arg.absent st).1
  dup : {st : St} (sp : Ptr) → Step fin st (dup_lua sp st).1
  close :
      {st : St} (fuel : ℕ) (sp : Ptr) (how : Arg ℤ)
      → st.has_meta sp ≡ true
      → Step fin st (close_lua fin fuel sp how st).1
  collect :
      {st : St} (fuel : ℕ) (sp : Ptr)
      → st.has_meta sp ≡ true
      → Step fin st (put_meta sp false (gc_lua fin fuel sp st).1)
  unwrap :
      {st : St} (fuel : ℕ) (sp : Ptr)
      → st.has_meta sp ≡ true
      → Step fin st (unwrap_lua fin fuel sp st).1
  other : {st : St} (c : Call) → is_other c ≡ true → Step fin st (sys c st).1

pub data Reach (fin : ℤ → St → St) (start : St) : St → Type 0 where
  here : Reach fin start start
  step : {st st' : St} → Reach fin start st → Step fin st st' → Reach fin start st'

free_none : (o : Option ℤ) → is_free o ≡ true → o ≡ none
free_none none e = refl
free_none (some fd) e = absurd (ground arith)

-- A socket is not yet at the address of the next allocation.
free_next : (st : St) → Inv (view st) → owns (st.has_meta st.fresh) (st.socks st.fresh).fd ≡ none
free_next st i =
    free_none (owns (st.has_meta st.fresh) (st.socks st.fresh).fd)
      (ground (arith, i.allocated st.fresh))

other_calm :
    (os : List Call → Call → Reply) (t : List Call) (c : Call)
    → is_other c ≡ true
    → (is_open os (c ∷ t) ≡ is_open os t) × (strays os (c ∷ t) ≡ strays os t)
other_calm os t (Call.getsockopt fd level opt) e = (refl, refl)
other_calm os t (Call.setsockopt fd level opt value) e = (refl, refl)
other_calm os t (Call.getsockname fd) e = (refl, refl)
other_calm os t (Call.getpeername fd) e = (refl, refl)
other_calm os t (Call.sockatmark fd) e = (refl, refl)
other_calm os t (Call.listen fd backlog) e = (refl, refl)
other_calm os t (Call.connect fd addr addrlen) e = (refl, refl)
other_calm os t (Call.bind fd addr addrlen) e = (refl, refl)
other_calm os t (Call.send fd buf flags) e = (refl, refl)
other_calm os t (Call.sendto fd buf flags addr addrlen) e = (refl, refl)
other_calm os t (Call.sendmsg fd msg flags) e = (refl, refl)
other_calm os t (Call.recvmsg fd msg flags) e = (refl, refl)
other_calm os t (Call.sendfile out_fd in_fd offset len) e = (refl, refl)
other_calm os t (Call.pread fd len offset) e = (refl, refl)
other_calm os t (Call.write fd buf) e = (refl, refl)
other_calm os t (Call.recv fd len flags) e = (refl, refl)
other_calm os t (Call.recvfrom fd len flags) e = (refl, refl)
other_calm os t (Call.read fd len) e = (refl, refl)
other_calm os t (Call.setsockopt_bytes fd level opt value) e = (refl, refl)
other_calm os t (Call.ioctl_gifaddr fd name) e = (refl, refl)
other_calm os t (Call.if_nametoindex name) e = (refl, refl)
other_calm os t Call.ref e = (refl, refl)
other_calm os t (Call.unref r) e = (refl, refl)
other_calm os t (Call.pcall r) e = (refl, refl)
other_calm os t (Call.if_indextoname idx) e = (refl, refl)
other_calm os t (Call.ioctl_gifmtu fd name) e = (refl, refl)
other_calm os t (Call.select fd receivable sendable except sec usec) e = (refl, refl)
other_calm os t (Call.sendfile_apple in_fd out_fd offset len) e = (refl, refl)
other_calm os t (Call.sendfile_bsd in_fd out_fd offset len) e = (refl, refl)
other_calm os t (Call.getaddrinfo host service family socktype protocol flags) e = (refl, refl)
other_calm os t (Call.getnameinfo addr addrlen flags) e = (refl, refl)
other_calm os t (Call.inet_pton family text) e = (refl, refl)
other_calm os t (Call.inet_ntop family addr) e = (refl, refl)
other_calm os t Call.getifaddrs e = (refl, refl)
other_calm os t Call.freeaddrinfo e = (refl, refl)
other_calm os t Call.freeifaddrs e = (refl, refl)
other_calm os t (Call.shutdown fd how) e = (refl, refl)
other_calm os t (Call.fcntl fd cmd arg) e = (refl, refl)
other_calm os t (Call.socket family socktype protocol) e = absurd (ground arith)
other_calm os t (Call.socketpair family socktype protocol) e = absurd (ground arith)
other_calm os t (Call.dup fd) e = absurd (ground arith)
other_calm os t (Call.accept fd with_addr) e = absurd (ground arith)
other_calm os t (Call.accept4 fd with_addr flags) e = absurd (ground arith)
other_calm os t (Call.close fd) e = absurd (ground arith)

pub other-Same : (c : Call) (st : St) → is_other c ≡ true → Same st (sys c st).1
other-Same c st e = record {
  same_os = refl;
  same_fd = λ q. refl;
  same_meta = λ q. refl;
  same_fresh = refl;
  same_open = (other_calm st.os st.trace c e).0;
  same_stray = (other_calm st.os st.trace c e).1;
}

-- Where the finalisers keep their hands off the descriptors, the kernel returns only descriptors
-- that were shut and the invariant holds, a step leaves the descriptors and their owners as they
-- are, or opens one descriptor for one new socket, or makes one socket give up its descriptor
-- without closing it, or closes the one descriptor that a socket owned, which then owns none.
pub Step-Move :
    (fin : ℤ → St → St) (st st' : St)
    → IsHarmless fin
    → IsKernel st.os
    → Inv (view st)
    → Step fin st st'
    → Move (view st) (view st')
Step-Move fin st st' h k i (create family socktype protocol nonblock) =
    new_lua-Move family socktype protocol nonblock st k
Step-Move fin st st' h k i (accept sp) = accept_lua-Move sp st k
Step-Move fin st st' h k i (dup sp) = dup_lua-Move sp st k (free_next st i)
Step-Move fin st st' h k i (close fuel sp how m) = close_lua-Move fin fuel sp st h m how
Step-Move fin st st' h k i (collect fuel sp m) = gc_lua-Move fin fuel sp st h m
Step-Move fin st st' h k i (unwrap fuel sp m) = unwrap_lua-Move fin fuel sp st h m
Step-Move fin st st' h k i (other c o) = keeps (Same-Keeps (other-Same c st o))

-- The invariant and the kernel.
Reach-Inv_os :
    (fin : ℤ → St → St) (start st : St)
    → IsHarmless fin
    → IsKernel start.os
    → Inv (view start)
    → Reach fin start st
    → Inv (view st) × (st.os ≡ start.os)
Reach-Inv_os fin start st h k i here = (i, refl)
Reach-Inv_os fin start st' h k i (step {st} r s) =
    let (i', o) = Reach-Inv_os fin start st h k i r in
    let m = Step-Move fin st st' h (subst IsKernel (sym o) k) i' s in (Move-Inv m i', Move-os m ∙ o)

pub start-Inv :
    (start : St) → start.trace ≡ [] → ((p : Ptr) → start.has_meta p ≡ false) → Inv (view start)
start-Inv start t m = record {
  live = λ p. rw (m p) refl;
  distinct = λ p q. rw (m p) (ground arith);
  allocated = λ p. rw (m p) (ground arith);
  no_stray = rw t refl;
}

-- Start with no call made and no socket, on a kernel that returns only descriptors that were shut,
-- and let sockets be made, accepted, duplicated, closed, collected and unwrapped and other calls be
-- made, in any order, with finalisers that keep their hands off the descriptors. In every state that
-- is reached each socket that has its metatable and is not closed owns a descriptor that is open,
-- no two sockets own the same one, addresses that are not allocated own none, and no descriptor was
-- closed that was not open.
pub Reach-Inv :
    (fin : ℤ → St → St) (start st : St)
    → IsHarmless fin
    → IsKernel start.os
    → start.trace ≡ []
    → ((p : Ptr) → start.has_meta p ≡ false)
    → Reach fin start st
    → Inv (view st)
Reach-Inv fin start st h k t m r = (Reach-Inv_os fin start st h k (start-Inv start t m) r).0
