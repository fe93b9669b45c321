-- ===== src/Create/Leak.antt =====
-- Descriptors in `new_lua` of src/socket.c.
use lua_llsocket.Prelude.{
  ℕ, ==_refl, ◌≡◌, ◌≢◌, refl, Bool, true, false, List, [], ◌∷◌, if◌then◌else◌, arith, ap, ◌∙◌,
  subst, sym,
}
use lua_llsocket.Prelude.Int.{ℤ, minus_one, ==ℤ_ne, to_int}
use lua_llsocket.Host.Os.{Call}
use lua_llsocket.Host.Lua.{Value, Arg}
use lua_llsocket.Host.Trace.{lifecycle}
use lua_llsocket.Host.{
  Outcome-ok, Ptr, null, St, Outcome, ok, raised, out_of_fuel, crashed, Cmd, bind_ok, pure, ◌>>=◌,
  ◌>>◌, sys, fail_nil,
}
use lua_llsocket.Create.{set_flags_failed, new_socket, new_lua}

-- Setting the flags of a descriptor changes nothing in the program's memory, and neither opens nor
-- closes a descriptor.
pub record Flagged (st st' : St) : Type 0 where
  pub log : lifecycle st'.trace ≡ lifecycle st.trace
  pub same_os : st'.os ≡ st.os
  pub same_socks : st'.socks ≡ st.socks
  pub same_meta : st'.has_meta ≡ st.has_meta
  pub same_gcfns : st'.gcfns ≡ st.gcfns
  pub same_fresh : st'.fresh ≡ st.fresh

set_flags_failed-Flagged :
    (fd : ℤ) (nonblock : Bool) (st : St) → Flagged st (set_flags_failed fd nonblock st).1
unfolding set_flags_failed
set_flags_failed-Flagged fd false st = ground arith
set_flags_failed-Flagged fd true st = ground arith

set_flags_failed-returns :
    (fd : ℤ) (nonblock : Bool) (st : St)
    → ((set_flags_failed fd nonblock st).0 ≢ raised)
      × ((set_flags_failed fd nonblock st).0 ≢ out_of_fuel)
      × ((set_flags_failed fd nonblock st).0 ≢ crashed)
unfolding set_flags_failed
set_flags_failed-returns fd false st = ground arith
set_flags_failed-returns fd true st = ground arith

pub set_flags_failed-ok :
    (fd : ℤ) (nonblock : Bool) (st : St) → (b : Bool) × ((set_flags_failed fd nonblock st).0 ≡ ok b)
set_flags_failed-ok fd nonblock st =
    let r = set_flags_failed-returns fd nonblock st in
    Outcome-ok (set_flags_failed fd nonblock st).0 r.0 r.1 r.2

-- How a function that opened `fd` may end: with a socket at `p` that owns it, or with an error and
-- the descriptor closed, no socket having been made.
pub data Owned (fd : ℤ) (p : Ptr) (st : St) (r : Outcome (List Value) × St) : Type 0 where
  made :
      r.0 ≡ ok (Value.socket p ∷ [])
      → (r.1.socks p).fd ≡ fd
      → (r.1.socks p).gcfunc ≡ null
      → r.1.has_meta p ≡ true
      → lifecycle r.1.trace ≡ lifecycle st.trace
      → Owned fd p st r
  closed :
      (e : ℕ)
      → r.0 ≡ ok (Value.nil ∷ Value.failure e "fcntl" ∷ [])
      → r.1.socks ≡ st.socks
      → r.1.has_meta ≡ st.has_meta
      → lifecycle r.1.trace ≡ Call.close fd ∷ lifecycle st.trace
      → Owned fd p st r

-- What `new_lua` does once the flags are set, or could not be set.
unfoldable pub behind_flags : (fd family socktype protocol : ℤ) → Bool → Cmd (List Value)
behind_flags fd family socktype protocol failed =
    if failed then (do sys (Call.close fd); fail_nil "fcntl") else do
      p ← new_socket (record {
        fd = fd;
        family = family;
        socktype = socktype;
        protocol = protocol;
        gcfunc = null;
      })
      pure (Value.socket p ∷ [])

behind_flags-Owned :
    (fd family socktype protocol : ℤ) (failed : Bool) {st st' : St}
    → Flagged st st'
    → Owned fd st.fresh st (behind_flags fd family socktype protocol failed st')
unfolding behind_flags
behind_flags-Owned fd family socktype protocol true f =
    closed _ refl f.same_socks f.same_meta (ap (λ t. Call.close fd ∷ t) f.log)
behind_flags-Owned fd family socktype protocol false {st} f =
    made (rw f.same_fresh) (rw (f.same_fresh, ==_refl st.fresh))
      (rw (f.same_fresh, ==_refl st.fresh)) (rw (f.same_fresh, ==_refl st.fresh)) f.log

pub set_flags_failed-Flagged_from :
    (fd : ℤ) (nonblock : Bool) (st st1 : St)
    → Flagged st st1
    → Flagged st (set_flags_failed fd nonblock st1).1
set_flags_failed-Flagged_from fd nonblock st st1 g =
    let f = set_flags_failed-Flagged fd nonblock st1 in
    record {
      log = f.log ∙ g.log;
      same_os = f.same_os ∙ g.same_os;
      same_socks = f.same_socks ∙ g.same_socks;
      same_meta = f.same_meta ∙ g.same_meta;
      same_gcfns = f.same_gcfns ∙ g.same_gcfns;
      same_fresh = f.same_fresh ∙ g.same_fresh;
    }

pub after_socket :
    (c : Call) (st : St) → lifecycle (c ∷ st.trace) ≡ lifecycle st.trace → Flagged st (sys c st).1
after_socket c st e = record {
  log = e;
  same_os = refl;
  same_socks = refl;
  same_meta = refl;
  same_gcfns = refl;
  same_fresh = refl;
}

-- A descriptor that `new_lua` has opened ends up in the socket that it answers, which will close it,
-- or is closed on the way out.
pub new_lua-Owned :
    (family socktype protocol fd : ℤ) (nonblock : Bool) (st : St)
    → (st.os st.trace (Call.socket (to_int family) (to_int socktype) (to_int protocol))).ret ≡ fd
    → fd ≢ minus_one
    → Owned fd st.fresh st (
        new_lua
          (Arg.given family)
          (Arg.given socktype)
          (Arg.given protocol)
          (Arg.given nonblock)
          st)
unfolding new_lua behind_flags
new_lua-Owned family socktype protocol fd nonblock st e ne =
    let c = Call.socket (to_int family) (to_int socktype) (to_int protocol) in
    let st1 = (sys c st).1 in
    let (failed, done) = set_flags_failed-ok fd nonblock st1 in
    rw (e, ==ℤ_ne fd minus_one ne)
      (subst (Owned fd st.fresh st)
        (sym (
          bind_ok (set_flags_failed fd nonblock)
            (behind_flags fd (to_int family) (to_int socktype) (to_int protocol)) st1 done))
        (behind_flags-Owned fd (to_int family) (to_int socktype) (to_int protocol) failed
          (set_flags_failed-Flagged_from fd nonblock st st1 (after_socket c st refl))))
