-- ===== src/Descriptors/Ending.antt =====
-- Functions that close a descriptor or give it up, as moves of the view.
use lua_llsocket.Prelude.{
  ℕ, ◌+◌, ◌&&◌, ◌==◌, ◌≡◌, ◌≢◌, refl, Bool, true, false, not, none, List, if◌then◌else◌, ◌∙◌, ap,
  arith, Bool-cases, inl, inr,
}
use lua_llsocket.Prelude.Int.{ℤ, minus_one, ◌==ℤ◌, ==ℤ_ne, ==ℤ_iff, to_int}
use lua_llsocket.Host.Os.{Call, Reply}
use lua_llsocket.Host.Lua.{Arg}
use lua_llsocket.Host.{Ptr, St, ◌>>=◌, sys, put_sock, put_meta}
use lua_llsocket.Finalise.{call_gcfn}
use lua_llsocket.Life.{closefd, close_lua, gc_lua, unwrap_lua}
use lua_llsocket.Life.Close.{closing, finish, closefd-Closed}
use lua_llsocket.Life.Collect.{last_close}
use lua_llsocket.Life.Unwrap.{release}
use lua_llsocket.Descriptors.{owns, is_open, strays, view}
use lua_llsocket.Descriptors.Moves.{Leaves, Closes, Move, keeps, leaves, closes}
use lua_llsocket.Descriptors.Neutral.{
  Same, Same-refl, IsHarmless, call_gcfn-Same, Same-Keeps, bind_by,
}

closing_open :
    (os : List Call → Call → Reply) (fd how : ℤ) (b : Bool) (t : List Call) (f : ℤ)
    → is_open os (closing fd how b t) f ≡ (not (fd ==ℤ f) && is_open os t f)
unfolding closing
closing_open os fd how true t f = refl
closing_open os fd how false t f = refl

closing_stray :
    (os : List Call → Call → Reply) (fd how : ℤ) (b : Bool) (t : List Call)
    → strays os (closing fd how b t) ≡ (if is_open os t fd then 0 else 1) + strays os t
unfolding closing
closing_stray os fd how true t = refl
closing_stray os fd how false t = refl

owns-none : (b : Bool) → owns b minus_one ≡ none
owns-none true = refl
owns-none false = refl

-- A socket at `sp` that has given its descriptor up.
own_emptied :
    (sp q : Ptr) (st st1 : St)
    → Same st st1
    → owns
        (st1.has_meta q)
        ((put_sock sp (record (st1.socks sp) { fd = minus_one }) st1).socks q).fd
      ≡ (if q == sp then none else owns (st.has_meta q) (st.socks q).fd)
own_emptied sp q st st1 s = elim (Bool-cases (q == sp)) [
  | inl e ↦ rw e (owns-none (st1.has_meta q))
  | inr e ↦ rw (e, s.same_meta q, s.same_fd q) refl
]

-- `closefd` of the descriptor that the socket at `sp` has just given up.
closefd-Closes :
    (sp : Ptr) (how : ℤ) (b : Bool) (st st1 : St)
    → Same st st1
    → st.has_meta sp ≡ true
    → (st.socks sp).fd ≢ minus_one
    → Closes sp (st.socks sp).fd (view st) (
        view
          (closefd
            (st.socks sp).fd
            how
            b
            (put_sock sp (record (st1.socks sp) { fd = minus_one }) st1)).1)
closefd-Closes sp how b st st1 s m ne =
    let fd = (st.socks sp).fd in
    let st2 = put_sock sp (record (st1.socks sp) { fd = minus_one }) st1 in
    let c = closefd-Closed fd how b st2 in
    record {
      same_os = c.same_os ∙ s.same_os;
      owned = rw (m, ==ℤ_ne fd minus_one ne) refl;
      own = λ q. rw (c.same_meta, c.same_socks) (own_emptied sp q st st1 s);
      open_fd = λ f.
          rw (c.same_os, c.log, closing_open st1.os fd how b st1.trace f)
            (ap (λ g. not (fd ==ℤ f) && g f) s.same_open);
      next = rw (c.same_fresh, s.same_fresh) (omega arith);
      stray =
          rw (c.same_os, c.log, closing_stray st1.os fd how b st1.trace, s.same_stray)
            (ap (λ g. (if g fd then 0 else 1) + strays st.os st.trace) s.same_open);
    }

ne_of_test : (a b : ℤ) → (a ==ℤ b) ≡ false → a ≢ b
ne_of_test a b e h = cc ((==ℤ_iff a b).1 h)

-- A socket without a metatable owns nothing.
dropped-Leaves :
    (sp : Ptr) (st st1 : St) → Same st st1 → Leaves sp (view st) (view (put_meta sp false st1))
dropped-Leaves sp st st1 s = record {
  same_os = s.same_os;
  own = λ q. elim (Bool-cases (q == sp)) [
    | inl e ↦ rw e refl
    | inr e ↦ rw (e, s.same_meta q, s.same_fd q) refl
  ];
  open_fd = λ f. ap (λ g. g f) s.same_open;
  next = rw s.same_fresh (omega arith);
  stray = s.same_stray;
}

collected-Closes :
    (sp : Ptr) (st st1 : St)
    → Same st st1
    → st.has_meta sp ≡ true
    → (st.socks sp).fd ≢ minus_one
    → Closes sp
        (st.socks sp).fd
        (view st)
        (view (put_meta sp false (sys (Call.close (st1.socks sp).fd) st1).1))
collected-Closes sp st st1 s m ne =
    let d = dropped-Leaves sp st st1 s in
    record {
      same_os = s.same_os;
      owned = rw (m, ==ℤ_ne (st.socks sp).fd minus_one ne) refl;
      own = d.own;
      open_fd = λ f. rw (s.same_fd sp) (ap (λ g. not ((st.socks sp).fd ==ℤ f) && g f) s.same_open);
      next = d.next;
      stray =
          rw (s.same_fd sp, s.same_stray)
            (ap (λ g. (if g (st.socks sp).fd then 0 else 1) + strays st.os st.trace) s.same_open);
    }

module _ (fin : ℤ → St → St) (fuel : ℕ) (sp : Ptr) (st : St) (harmless : IsHarmless fin)
    (m : st.has_meta sp ≡ true) where
  finish-Move :
      (how : ℤ) (b : Bool)
      → ((st.socks sp).fd ==ℤ minus_one) ≡ false
      → Move (view st) (view ((call_gcfn fin fuel sp >>= finish sp (st.socks sp).fd how b) st).1)
  finish-Move how b e =
      let s = call_gcfn-Same fin harmless fuel sp st in
      bind_by (λ s'. Move (view st) (view s')) (call_gcfn fin fuel sp)
        (finish sp (st.socks sp).fd how b) st (keeps (Same-Keeps s))
        λ _.
          closes sp (st.socks sp).fd
            (closefd-Closes sp how b st (call_gcfn fin fuel sp st).1 s m (ne_of_test _ _ e))

  -- `close_lua`, whether or not the finalisers end, closes the descriptor of the socket or nothing.
  pub close_lua-Move : (arg : Arg ℤ) → Move (view st) (view (close_lua fin fuel sp arg st).1)
  unfolding close_lua
  close_lua-Move Arg.wrong = keeps (Same-Keeps (Same-refl st))
  close_lua-Move Arg.absent = elim (Bool-cases ((st.socks sp).fd ==ℤ minus_one)) [
    | inl e ↦ rw e (keeps (Same-Keeps (Same-refl st)))
    | inr e ↦ rw e (finish-Move minus_one false e)
  ]
  close_lua-Move Arg.null = elim (Bool-cases ((st.socks sp).fd ==ℤ minus_one)) [
    | inl e ↦ rw e (keeps (Same-Keeps (Same-refl st)))
    | inr e ↦ rw e (finish-Move minus_one false e)
  ]
  close_lua-Move (Arg.given how) = elim (Bool-cases ((st.socks sp).fd ==ℤ minus_one)) [
    | inl e ↦ rw e (keeps (Same-Keeps (Same-refl st)))
    | inr e ↦ rw e (finish-Move (to_int how) true e)
  ]

  -- The collection of a socket, after which the socket is gone.
  pub gc_lua-Move : Move (view st) (view (put_meta sp false (gc_lua fin fuel sp st).1))
  unfolding gc_lua
  gc_lua-Move = elim (Bool-cases ((st.socks sp).fd ==ℤ minus_one)) [
    | inl e ↦ rw e (leaves sp (dropped-Leaves sp st st (Same-refl st)))
    | inr e ↦
        let s = call_gcfn-Same fin harmless fuel sp st in
        rw e (
          bind_by (λ s'. Move (view st) (view (put_meta sp false s'))) (call_gcfn fin fuel sp)
            (last_close sp) st (leaves sp (dropped-Leaves sp st (call_gcfn fin fuel sp st).1 s))
            λ _.
              closes sp (st.socks sp).fd
                (collected-Closes sp st (call_gcfn fin fuel sp st).1 s m (ne_of_test _ _ e)))
  ]

  pub unwrap_lua-Move : Move (view st) (view (unwrap_lua fin fuel sp st).1)
  unfolding unwrap_lua
  unwrap_lua-Move =
      let s = call_gcfn-Same fin harmless fuel sp st in
      bind_by (λ s'. Move (view st) (view s')) (call_gcfn fin fuel sp) (release sp) st
        (keeps (Same-Keeps s))
        λ _. leaves sp (record {
          same_os = s.same_os;
          own = λ q. elim (Bool-cases (q == sp)) [
            | inl e ↦ rw e refl
            | inr e ↦ rw (e, s.same_meta q, s.same_fd q) refl
          ];
          open_fd = λ f. ap (λ g. g f) s.same_open;
          next = rw s.same_fresh (omega arith);
          stray = s.same_stray;
        })
