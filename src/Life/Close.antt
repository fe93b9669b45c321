-- ===== src/Life/Close.antt =====
-- `closefd` and `close_lua` of src/socket.c.
use lua_llsocket.Prelude.{
  unless, unless_not, ℕ, ◌<◌, ◌==◌, ==_refl, ◌≡◌, ◌≢◌, refl, ◌↔◌, Bool, true, false, not, List, [],
  ◌∷◌, if◌then◌else◌, arith, Bool-cases, inl, inr, length, ◌∙◌,
}
use lua_llsocket.Prelude.Int.{ℤ, pos, minus_one, ◌==ℤ◌, ==ℤ_iff, ==ℤ_ne, to_int}
use lua_llsocket.Host.Os.{Call}
use lua_llsocket.Host.Lua.{Value, Arg, is_none_or_nil}
use lua_llsocket.Host.Registry.{IsRegistry}
use lua_llsocket.Host.Trace.{lifecycle, IsQuiet}
use lua_llsocket.Host.{
  Outcome-ok, raised, out_of_fuel, crashed, Ptr, null, St, Cmd, ok, bind_ok, put_sock, ◌>>◌, modify,
}
use lua_llsocket.Gcfn.Chain.{Chain}
use lua_llsocket.Finalise.{gcfn_done, call_gcfn}
use lua_llsocket.Finalise.Run.{Finalised, ran, call_gcfn-Finalised}
use lua_llsocket.Life.{closefd, close_lua, gc_lua}

-- The calls of `closefd`, the newest first: the descriptor is closed whether or not it could be
-- shut down before.
unfoldable pub closing : (fd how : ℤ) → Bool → List Call → List Call
closing fd how true t = Call.close fd ∷ Call.shutdown fd how ∷ t
closing fd how false t = Call.close fd ∷ t

-- What `closefd` leaves alone.
pub record Closed (fd how : ℤ) (with_shutdown : Bool) (st st' : St) : Type 0 where
  pub log : st'.trace ≡ closing fd how with_shutdown st.trace
  pub same_socks : st'.socks ≡ st.socks
  pub same_gcfns : st'.gcfns ≡ st.gcfns
  pub same_meta : st'.has_meta ≡ st.has_meta
  pub same_os : st'.os ≡ st.os
  pub same_fresh : st'.fresh ≡ st.fresh

-- `closefd` closes the descriptor on every path.
pub closefd-Closed : (fd how : ℤ) (b : Bool) (st : St) → Closed fd how b st (closefd fd how b st).1
unfolding closefd closing
closefd-Closed fd how true st = ground arith
closefd-Closed fd how false st = ground arith

closefd-returns :
    (fd how : ℤ) (b : Bool) (st : St)
    → ((closefd fd how b st).0 ≢ raised)
      × ((closefd fd how b st).0 ≢ out_of_fuel)
      × ((closefd fd how b st).0 ≢ crashed)
unfolding closefd
closefd-returns fd how true st = ground arith
closefd-returns fd how false st = ground arith

-- `closefd` always returns.
closefd-ok :
    (fd how : ℤ) (b : Bool) (st : St)
    → (answer : List Value) × ((closefd fd how b st).0 ≡ ok answer)
closefd-ok fd how b st =
    let r = closefd-returns fd how b st in Outcome-ok (closefd fd how b st).0 r.0 r.1 r.2

-- `closefd` without a shutdown answers true exactly when `close` returns 0.
pub closefd-plain :
    (fd how : ℤ) (st : St)
    → ((closefd fd how false st).0 ≡ ok (Value.boolean true ∷ []))
      ↔ ((st.os st.trace (Call.close fd)).ret ≡ pos 0)
unfolding closefd
closefd-plain fd how st = elim (Bool-cases ((st.os st.trace (Call.close fd)).ret ==ℤ pos 0)) [
  | inl e ↦ rw e (λ h. (==ℤ_iff _ _).0 e, λ h. refl)
  | inr e ↦ rw e (λ h. cc, λ h. cc ((==ℤ_iff _ _).1 h))
]

lifecycle-closing :
    (fd how : ℤ) (b : Bool) (t : List Call)
    → lifecycle (closing fd how b t) ≡ closing fd how b (lifecycle t)
unfolding closing
lifecycle-closing fd how true t = refl
lifecycle-closing fd how false t = refl

-- What `close_lua` of an open socket has done: the finalisers have run before the descriptor was
-- shut down or closed, the descriptor was closed once, and the socket has forgotten it.
pub record Shut (sp : Ptr) (xs : List Ptr) (how : ℤ) (b : Bool) (st st' : St) : Type 0 where
  pub log :
      lifecycle st'.trace ≡ closing (st.socks sp).fd how b (ran st.gcfns xs (lifecycle st.trace))
  pub socket : st'.socks sp ≡ record (st.socks sp) { fd = minus_one; gcfunc = gcfn_done }
  pub other_socks : (q : Ptr) → st'.socks q ≡ (if q == sp then st'.socks q else st.socks q)
  pub same_os : st'.os ≡ st.os

-- The state in which `close_lua` calls `closefd`.
unfoldable pub emptied : (ℤ → St → St) → ℕ → Ptr → St → St
emptied fin fuel sp st =
    let st' = (call_gcfn fin fuel sp st).1 in
    put_sock sp (record (st'.socks sp) { fd = minus_one }) st'

-- The third argument of `close_lua`'s call of `closefd`, and the direction that it shuts down.
abbrev pub is_given : Arg ℤ → Bool
is_given arg = not (is_none_or_nil arg)

abbrev pub how_of : Arg ℤ → ℤ
how_of Arg.absent = minus_one
how_of Arg.null = minus_one
how_of (Arg.given how) = to_int how
how_of Arg.wrong = minus_one

closefd-Shut :
    (fin : ℤ → St → St) (fuel : ℕ) (sp : Ptr) (xs : List Ptr) (st : St) (how : ℤ) (b : Bool)
    → Finalised sp xs st (call_gcfn fin fuel sp st).1
    → Shut sp xs how b st (closefd (st.socks sp).fd how b (emptied fin fuel sp st)).1
unfolding emptied
closefd-Shut fin fuel sp xs st how b f =
    let c = closefd-Closed (st.socks sp).fd how b (emptied fin fuel sp st) in
    record {
      log = rw (c.log, lifecycle-closing, f.log);
      socket = rw c.same_socks (rw (==_refl sp) (rw f.marked));
      other_socks =
          λ q. unless (q == sp) λ ne. rw c.same_socks (rw ne (unless_not ne (f.other_socks q)));
      same_os = c.same_os ∙ f.same_os;
    }

-- What `close_lua` does behind the finalisers.
abbrev pub finish : Ptr → (fd how : ℤ) → Bool → Unit {0} → Cmd (List Value)
finish sp fd how b _ =
    modify (λ st. put_sock sp (record (st.socks sp) { fd = minus_one }) st) >> closefd fd how b

-- Until the socket is closed, `close_lua` is `closefd` behind the finalisers.
pub close_lua-closefd :
    (fin : ℤ → St → St) (fuel : ℕ) (sp : Ptr) (st : St) (arg : Arg ℤ)
    → arg ≢ Arg.wrong
    → ((st.socks sp).fd ==ℤ minus_one) ≡ false
    → (call_gcfn fin fuel sp st).0 ≡ ok tt
    → close_lua fin fuel sp arg st
      ≡ closefd (st.socks sp).fd (how_of arg) (is_given arg) (emptied fin fuel sp st)
unfolding close_lua emptied
close_lua-closefd fin fuel sp st Arg.absent a o e =
    rw o (bind_ok (call_gcfn fin fuel sp) (finish sp (st.socks sp).fd minus_one false) st e)
close_lua-closefd fin fuel sp st Arg.null a o e =
    rw o (bind_ok (call_gcfn fin fuel sp) (finish sp (st.socks sp).fd minus_one false) st e)
close_lua-closefd fin fuel sp st (Arg.given how) a o e =
    rw o (bind_ok (call_gcfn fin fuel sp) (finish sp (st.socks sp).fd (to_int how) true) st e)
close_lua-closefd fin fuel sp st Arg.wrong a o e = absurd (a refl)

-- Closing an open socket whose finalisers are linked and quiet, with fuel for each of them and
-- one more round, returns an answer: each finaliser has run once, the newest first; then the
-- descriptor has been shut down, if a direction is given, and closed; the socket has no descriptor
-- left, and no other socket has changed.
pub close_lua-Shut :
    (fin : ℤ → St → St) (fuel : ℕ) (sp : Ptr) (xs : List Ptr) (arg : Arg ℤ) (st : St)
    → IsQuiet fin
    → IsRegistry st.os
    → Chain st.gcfns null (st.socks sp).gcfunc xs
    → length xs < fuel
    → (st.socks sp).fd ≢ minus_one
    → arg ≢ Arg.wrong
    → (answer : List Value) × ((close_lua fin fuel sp arg st).0 ≡ ok answer)
      × Shut sp xs (how_of arg) (is_given arg) st (close_lua fin fuel sp arg st).1
close_lua-Shut fin fuel sp xs arg st quiet reg c l ne a =
    let f = call_gcfn-Finalised fin fuel sp xs st quiet reg c l in
    let is_open : ((st.socks sp).fd ==ℤ minus_one) ≡ false = ==ℤ_ne _ _ ne in
    let r = closefd-ok (st.socks sp).fd (how_of arg) (is_given arg) (emptied fin fuel sp st) in
    rw (close_lua-closefd fin fuel sp st arg a is_open f.0)
      (r.0, r.1, closefd-Shut fin fuel sp xs st (how_of arg) (is_given arg) f.1)

-- A socket that has no descriptor answers true when it is closed, and is not closed again: neither
-- `close` nor the collection of the socket makes a call.
pub closed-once :
    (fin : ℤ → St → St) (fuel : ℕ) (sp : Ptr) (arg : Arg ℤ) (st : St)
    → (st.socks sp).fd ≡ minus_one
    → arg ≢ Arg.wrong
    → (close_lua fin fuel sp arg st ≡ (ok (Value.boolean true ∷ []), st))
      × (gc_lua fin fuel sp st ≡ (ok [], st))
unfolding close_lua gc_lua
closed-once fin fuel sp Arg.absent st e a = (rw e, rw e)
closed-once fin fuel sp Arg.null st e a = (rw e, rw e)
closed-once fin fuel sp (Arg.given how) st e a = (rw e, rw e)
closed-once fin fuel sp Arg.wrong st e a = absurd (a refl)
