-- ===== src/Create/Pair.antt =====
-- `pair_lua` where the flags of the second descriptor cannot be set.
use lua_llsocket.Prelude.{
  ℕ, suc, ==_refl, ◌≡◌, ◌≢◌, refl, Bool, true, false, List, [], ◌∷◌, if◌then◌else◌, ap, ◌∙◌,
}
use lua_llsocket.Prelude.Int.{ℤ, pos, minus_one, ◌==ℤ◌, to_int}
use lua_llsocket.Host.Os.{Call, Reply}
use lua_llsocket.Host.Lua.{Value, Arg}
use lua_llsocket.Host.Consts.{af_unix, f_setfd, fd_cloexec}
use lua_llsocket.Host.Trace.{lifecycle}
use lua_llsocket.Host.{Ptr, null, St, ok, Cmd, bind_ok, pure, ◌>>=◌, ◌>>◌, sys, fail_nil}
use lua_llsocket.Create.{set_flags_failed, new_socket, pair_lua, pair_round}
use lua_llsocket.Life.{gc_lua}
use lua_llsocket.Life.Collect.{gc_lua-plain}

-- What one round does once the flags are set, or could not be set.
behind_flags :
    (fd fd0 fd1 socktype protocol : ℤ) → (Ptr → Cmd (List Value)) → Bool → Cmd (List Value)
behind_flags fd fd0 fd1 socktype protocol next failed =
    if failed then (do sys (Call.close fd0); sys (Call.close fd1); fail_nil "fcntl") else do
      p ← new_socket (record {
        fd = fd;
        family = af_unix;
        socktype = socktype;
        protocol = protocol;
        gcfunc = null;
      })
      next p

round_behind :
    (fd fd0 fd1 socktype protocol : ℤ) (nonblock : Bool) (next : Ptr → Cmd (List Value)) (st : St)
    {failed : Bool}
    → (set_flags_failed fd nonblock st).0 ≡ ok failed
    → pair_round fd fd0 fd1 socktype protocol nonblock next st
      ≡ behind_flags fd fd0 fd1 socktype protocol next failed (set_flags_failed fd nonblock st).1
unfolding pair_round behind_flags
round_behind fd fd0 fd1 socktype protocol nonblock next st e =
    bind_ok (set_flags_failed fd nonblock) (behind_flags fd fd0 fd1 socktype protocol next) st e

-- The answer of `socketpair`, and the trace behind it.
abbrev pub pair_call : (t k : ℤ) → Call
pair_call t k = Call.socketpair af_unix (to_int t) (to_int k)

abbrev pub pair_reply : (t k : ℤ) → St → Reply
pair_reply t k st = st.os st.trace (pair_call t k)

abbrev pub cloexec_call : ℤ → Call
cloexec_call fd = Call.fcntl fd f_setfd (pos fd_cloexec)

flags-ret :
    (fd : ℤ) (st : St) (b : Bool)
    → ((st.os st.trace (cloexec_call fd)).ret ==ℤ minus_one) ≡ b
    → (set_flags_failed fd false st).0 ≡ ok b
unfolding set_flags_failed
flags-ret fd st true e = rw e
flags-ret fd st false e = rw e

-- The second round, and what stands behind it.
second : (t k : ℤ) → St → Ptr → Cmd (List Value)
second t k st p =
    let r = pair_reply t k st in
    pair_round r.num2 r.num r.num2 (to_int t) (to_int k) false
      λ q. pure (Value.socket_pair p q ∷ [])

pair_lua-rounds :
    (t k : ℤ) (st : St)
    → (pair_reply t k st).ret ≡ pos 0
    → let r = pair_reply t k st in
      pair_lua (Arg.given t) (Arg.given k) Arg.absent st
      ≡ pair_round r.num r.num r.num2
          (to_int t)
          (to_int k)
          false
          (second t k st)
          (sys (pair_call t k) st).1
unfolding pair_lua second
pair_lua-rounds t k st e = rw e

flags-run :
    (fd : ℤ) (st : St) (b : Bool)
    → ((st.os st.trace (cloexec_call fd)).ret ==ℤ minus_one) ≡ b
    → (set_flags_failed fd false st).1 ≡ (sys (cloexec_call fd) st).1
unfolding set_flags_failed
flags-run fd st true e = rw e
flags-run fd st false e = rw e

-- The state once the first socket has been made.
first_made : (t k : ℤ) → St → St
first_made t k st =
    (new_socket
      (record {
        fd = (pair_reply t k st).num;
        family = af_unix;
        socktype = to_int t;
        protocol = to_int k;
        gcfunc = null;
      })
      (sys (cloexec_call (pair_reply t k st).num) (sys (pair_call t k) st).1).1).1

pair_lua-second :
    (t k : ℤ) (st : St)
    → (pair_reply t k st).ret ≡ pos 0
    → (st.os (pair_call t k ∷ st.trace) (cloexec_call (pair_reply t k st).num)).ret ≡ pos 0
    → pair_lua (Arg.given t) (Arg.given k) Arg.absent st
      ≡ second t k st st.fresh (first_made t k st)
unfolding first_made behind_flags
pair_lua-second t k st e f =
    let fd0 = (pair_reply t k st).num in
    let st1 = (sys (pair_call t k) st).1 in
    pair_lua-rounds t k st e
    ∙ round_behind fd0 fd0 (pair_reply t k st).num2 (to_int t) (to_int k) false (second t k st) st1
        (flags-ret fd0 st1 false (rw f))
    ∙ ap
        (λ st2.
          behind_flags fd0 fd0 (pair_reply t k st).num2 (to_int t) (to_int k) (second t k st) false
            st2)
        (flags-run fd0 st1 false (rw f))

-- The second round when its descriptor's flags cannot be set.
second_failed :
    (t k : ℤ) (p : Ptr) (st st3 : St)
    → (st3.os st3.trace (cloexec_call (pair_reply t k st).num2)).ret ≡ minus_one
    → second t k st p st3
      ≡ (do
        sys (Call.close (pair_reply t k st).num)
        sys (Call.close (pair_reply t k st).num2)
        fail_nil "fcntl")
          (sys (cloexec_call (pair_reply t k st).num2) st3).1
unfolding second behind_flags
second_failed t k p st st3 f =
    let r = pair_reply t k st in
    round_behind r.num2 r.num r.num2 (to_int t) (to_int k) false _ st3
      (flags-ret r.num2 st3 true (rw f))
    ∙ ap
        (λ st2.
          behind_flags r.num2 r.num r.num2 (to_int t) (to_int k)
            (λ q. pure (Value.socket_pair p q ∷ [])) true st2)
        (flags-run r.num2 st3 true (rw f))

-- The first socket in the state that a failed second round leaves.
dropped :
    (t k : ℤ) (st : St)
    → (pair_reply t k st).ret ≡ pos 0
    → (st.os (pair_call t k ∷ st.trace) (cloexec_call (pair_reply t k st).num)).ret ≡ pos 0
    → (st.os
        (cloexec_call (pair_reply t k st).num ∷ pair_call t k ∷ st.trace)
        (cloexec_call (pair_reply t k st).num2)).ret
      ≡ minus_one
    → let st' = (pair_lua (Arg.given t) (Arg.given k) Arg.absent st).1 in
      ((st'.socks st.fresh).fd ≡ (pair_reply t k st).num)
      × ((st'.socks st.fresh).gcfunc ≡ null)
      × (st'.has_meta st.fresh ≡ true)
      × (lifecycle st'.trace
          ≡ Call.close (pair_reply t k st).num2
            ∷ Call.close (pair_reply t k st).num
            ∷ lifecycle st.trace)
unfolding first_made
dropped t k st e f g =
    rw (pair_lua-second t k st e f, second_failed t k st.fresh st (first_made t k st) g)
      (rw (==_refl st.fresh), rw (==_refl st.fresh), rw (==_refl st.fresh), refl)

-- When, in blocking mode, the flags of the second descriptor cannot be set, `pair_lua` closes
-- both descriptors, but leaves the first socket, with its metatable, holding the number of its
-- own: collecting that socket closes the number a second time.
pub pair-double_close :
    (fin : ℤ → St → St) (fuel : ℕ) (t k : ℤ) (st : St)
    → (pair_reply t k st).ret ≡ pos 0
    → (st.os (pair_call t k ∷ st.trace) (cloexec_call (pair_reply t k st).num)).ret ≡ pos 0
    → (st.os
        (cloexec_call (pair_reply t k st).num ∷ pair_call t k ∷ st.trace)
        (cloexec_call (pair_reply t k st).num2)).ret
      ≡ minus_one
    → (pair_reply t k st).num ≢ minus_one
    → let st' = (pair_lua (Arg.given t) (Arg.given k) Arg.absent st).1 in
      (st'.has_meta st.fresh ≡ true)
      × (lifecycle (gc_lua fin (suc fuel) st.fresh st').1.trace
          ≡ Call.close (pair_reply t k st).num
            ∷ Call.close (pair_reply t k st).num2
            ∷ Call.close (pair_reply t k st).num
            ∷ lifecycle st.trace)
pair-double_close fin fuel t k st e f g ne =
    let st' = (pair_lua (Arg.given t) (Arg.given k) Arg.absent st).1 in
    let d = dropped t k st e f g in
    (
      d.2,
      ap lifecycle (gc_lua-plain fin fuel st.fresh st' (rw d.0 ne) d.1)
          ∙ ap (λ fd. Call.close fd ∷ lifecycle st'.trace) d.0
          ∙ ap (λ l. Call.close (pair_reply t k st).num ∷ l) d.3,
    )
