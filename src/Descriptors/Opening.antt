-- ===== src/Descriptors/Opening.antt =====
-- Functions that open a descriptor, as moves of the view.
use lua_llsocket.Prelude.{
  ◌≤◌, ◌&&◌, ◌||◌, ◌==◌, ◌≡◌, ◌≢◌, refl, Bool, true, false, not, ◌∷◌, ◌∙◌, ap, sym, subst, arith,
  Bool-cases, inl, inr,
}
use lua_llsocket.Prelude.Int.{ℤ, minus_one, ◌==ℤ◌, ==ℤ_ne, ==ℤ_iff, to_int}
use lua_llsocket.Host.Os.{Call}
use lua_llsocket.Host.Lua.{Arg}
use lua_llsocket.Host.{Ptr, null, Socket, St, bind_ok, sys}
use lua_llsocket.Create.{new_lua, set_flags_failed, new_socket}
use lua_llsocket.Create.Leak.{behind_flags, set_flags_failed-ok}
use lua_llsocket.Descriptors.{IsKernel, opens_fd, owns, is_open, strays, view}
use lua_llsocket.Descriptors.Moves.{Keeps, Opens, Move, keeps, opens}
use lua_llsocket.Descriptors.Neutral.{Same, set_flags_failed-Same}

-- In `s` the kernel has opened `fd`, and no socket owns it yet.
pub record After (fd : ℤ) (st s : St) : Type 0 where
  pub same_os : s.os ≡ st.os
  pub own : (q : Ptr) → owns (s.has_meta q) (s.socks q).fd ≡ owns (st.has_meta q) (st.socks q).fd
  pub open_fd : (f : ℤ) → is_open s.os s.trace f ≡ ((fd ==ℤ f) || is_open st.os st.trace f)
  pub next : st.fresh ≤ s.fresh
  pub stray : strays s.os s.trace ≡ strays st.os st.trace

-- A new descriptor was shut.
pub new_fd-shut :
    (st : St) (c : Call) (fd : ℤ)
    → IsKernel st.os
    → opens_fd (st.os st.trace c) c fd ≡ true
    → is_open st.os st.trace fd ≡ false
new_fd-shut st c fd k e = ground (arith, k.new_fd st.trace c fd)

pub After-Same : {fd : ℤ} {st s t : St} → After fd st s → Same s t → After fd st t
After-Same a b = record {
  same_os = b.same_os ∙ a.same_os;
  own = λ q. rw (b.same_meta q, b.same_fd q) (a.own q);
  open_fd = λ f. ap (λ g. g f) b.same_open ∙ a.open_fd f;
  next = omega (arith, a.next, b.same_fresh);
  stray = b.same_stray ∙ a.stray;
}

-- The descriptor is closed again.
pub closed-Keeps :
    (fd : ℤ) (st s : St)
    → is_open st.os st.trace fd ≡ false
    → After fd st s
    → Keeps (view st) (view (sys (Call.close fd) s).1)
closed-Keeps fd st s shut a = record {
  same_os = a.same_os;
  own = a.own;
  open_fd = λ f. elim (Bool-cases (fd ==ℤ f)) [
    | inl e ↦ let e' = (==ℤ_iff fd f).0 e in rw e (sym shut ∙ ap (is_open st.os st.trace) e')
    | inr e ↦ rw (e, a.open_fd f) (rw e refl)
  ];
  next = a.next;
  stray = ground (arith, a.open_fd fd, a.stray, ==ℤ_iff fd fd);
}

-- A socket is made of it.
pub made-Opens :
    (fd : ℤ) (sock : Socket) (st s : St)
    → sock.fd ≡ fd
    → fd ≢ minus_one
    → is_open st.os st.trace fd ≡ false
    → After fd st s
    → Opens s.fresh fd (view st) (view (new_socket sock s).1)
made-Opens fd sock st s e ne shut a = record {
  same_os = a.same_os;
  is_new = a.next;
  was_shut = shut;
  own = λ q. elim (Bool-cases (q == s.fresh)) [
    | inl h ↦ rw h (rw (e, ==ℤ_ne fd minus_one ne) refl)
    | inr h ↦ rw h (a.own q)
  ];
  open_fd = a.open_fd;
  next = omega arith;
  stray = a.stray;
}

pub opened-After :
    (fd : ℤ) (c : Call) (st : St)
    → ((f : ℤ)
        → is_open st.os (c ∷ st.trace) f
          ≡ (opens_fd (st.os st.trace c) c f || is_open st.os st.trace f))
    → ((f : ℤ) → opens_fd (st.os st.trace c) c f ≡ (fd ==ℤ f))
    → strays st.os (c ∷ st.trace) ≡ strays st.os st.trace
    → After fd st (sys c st).1
opened-After fd c st o e z = record {
  same_os = refl;
  own = λ q. refl;
  open_fd = λ f. o f ∙ ap (λ b. b || is_open st.os st.trace f) (e f);
  next = omega arith;
  stray = z;
}

-- A call that returns `fd` opens it alone.
pub returns_opens :
    (fd r f : ℤ) → r ≡ fd → fd ≢ minus_one → ((r ==ℤ f) && not (f ==ℤ minus_one)) ≡ (fd ==ℤ f)
returns_opens fd r f e ne = elim (Bool-cases (fd ==ℤ f)) [
  | inl h ↦
      let h' = (==ℤ_iff fd f).0 h in
      rw (e, h, ==ℤ_ne f minus_one (subst (λ x. x ≢ minus_one) h' ne)) refl
  | inr h ↦ rw (e, h) refl
]

behind-Move :
    (fd family socktype protocol : ℤ) (failed : Bool) (st s : St)
    → fd ≢ minus_one
    → is_open st.os st.trace fd ≡ false
    → After fd st s
    → Move (view st) (view (behind_flags fd family socktype protocol failed s).1)
unfolding behind_flags
behind-Move fd family socktype protocol true st s ne shut a = keeps (closed-Keeps fd st s shut a)
behind-Move fd family socktype protocol false st s ne shut a = opens s.fresh fd (
    made-Opens fd
      (record { fd = fd; family = family; socktype = socktype; protocol = protocol; gcfunc = null })
      st s refl ne shut a)

-- A call that fails opens nothing.
pub fails_opens :
    (r f : ℤ) → (r ==ℤ minus_one) ≡ true → ((r ==ℤ f) && not (f ==ℤ minus_one)) ≡ false
fails_opens r f e = ground (arith, ==ℤ_iff r minus_one, ==ℤ_iff r f, ==ℤ_iff f minus_one)

pub ne_of_test : (a b : ℤ) → (a ==ℤ b) ≡ false → a ≢ b
ne_of_test a b e h = cc ((==ℤ_iff a b).1 h)

pub failed-Keeps :
    (c : Call) (st : St)
    → ((f : ℤ) → is_open st.os (c ∷ st.trace) f ≡ is_open st.os st.trace f)
    → strays st.os (c ∷ st.trace) ≡ strays st.os st.trace
    → Keeps (view st) (view (sys c st).1)
failed-Keeps c st o z = record {
  same_os = refl;
  own = λ q. refl;
  open_fd = o;
  next = omega arith;
  stray = z;
}

-- `new_lua` opens one descriptor, which the new socket owns, or leaves all as it was.
pub new_lua-Move :
    (family socktype protocol : ℤ) (nonblock : Bool) (st : St)
    → IsKernel st.os
    → Move (view st) (
        view
          (new_lua
            (Arg.given family)
            (Arg.given socktype)
            (Arg.given protocol)
            (Arg.given nonblock)
            st).1)
unfolding new_lua behind_flags
new_lua-Move family socktype protocol nonblock st k =
    let c = Call.socket (to_int family) (to_int socktype) (to_int protocol) in
    let fd = (st.os st.trace c).ret in
    let st1 = (sys c st).1 in
    elim (Bool-cases (fd ==ℤ minus_one)) [
      | inl e ↦ rw e (
          keeps (
            failed-Keeps c st (λ f. ap (λ b. b || is_open st.os st.trace f) (fails_opens fd f e))
              refl))
      | inr e ↦
          let ne : fd ≢ minus_one = ne_of_test fd minus_one e in
          let one = λ (f : ℤ). returns_opens fd fd f refl ne in
          let a = opened-After fd c st (λ f. refl) one refl in
          let shut = new_fd-shut st c fd k (one fd ∙ (==ℤ_iff fd fd).1 refl) in
          let (failed, done) = set_flags_failed-ok fd nonblock st1 in
          rw e (
            subst (λ r. Move (view st) (view r.1))
              (sym (
                bind_ok (set_flags_failed fd nonblock)
                  (behind_flags fd (to_int family) (to_int socktype) (to_int protocol)) st1 done))
              (behind-Move fd (to_int family) (to_int socktype) (to_int protocol) failed st
                (set_flags_failed fd nonblock st1).1 ne shut
                (After-Same a (set_flags_failed-Same fd nonblock st1))))
    ]
