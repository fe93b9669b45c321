-- ===== src/Descriptors/Passing.antt =====
-- `accept_lua` and `dup_lua`, as moves of the view.
use lua_llsocket.Prelude.{
  fun_ext, bit_and, ℕ, ◌+◌, ◌||◌, ◌==◌, ==_iff, ◌≡◌, ◌≢◌, refl, Bool, true, false, none, List, [],
  ◌∷◌, if◌then◌else◌, ◌∙◌, ap, sym, subst, arith, Bool-cases, inl, inr,
}
use lua_llsocket.Prelude.Int.{ℤ, pos, minus_one, ◌==ℤ◌, ==ℤ_ne, ==ℤ_iff, to_unsigned}
use lua_llsocket.Host.Os.{Call}
use lua_llsocket.Host.Lua.{Value, Arg}
use lua_llsocket.Host.Consts.{f_getfl, f_setfd, fd_cloexec, o_nonblock, sock_cloexec, sock_nonblock}
use lua_llsocket.Host.{
  alloc, Ptr, null, Socket, St, Outcome, ok, Cmd, ◌>>=◌, pure, modify, sys, put_sock, put_meta,
  fail_nil,
}
use lua_llsocket.Create.{new_socket, acceptfd, accept_lua, accept_failed, is_accept_again}
use lua_llsocket.Io.{wrap_addr}
use lua_llsocket.Life.{dup_lua}
use lua_llsocket.Descriptors.{IsKernel, owns, is_open, view}
use lua_llsocket.Descriptors.Moves.{Opens, Move, keeps, opens}
use lua_llsocket.Descriptors.Neutral.{Same, Same-refl, Same-Keeps, Same-trans, if-Same, fcntl-Same}
use lua_llsocket.Descriptors.Opening.{
  After, closed-Keeps, made-Opens, opened-After, returns_opens, fails_opens, ne_of_test,
  new_fd-shut,
}

accept_failed-Same : (st : St) → Same st (accept_failed st).1
accept_failed-Same st =
    if-Same (is_accept_again st.errno) (pure (Value.nil ∷ Value.nil ∷ Value.boolean true ∷ []))
      (fail_nil "acceptfd") st (Same-refl st) (Same-refl st)

-- `accept4` failed.
accept4-Same :
    (sfd : ℤ) (flags : ℕ) (st : St)
    → ((st.os st.trace (Call.accept4 sfd false flags)).ret ==ℤ minus_one) ≡ true
    → Same st (sys (Call.accept4 sfd false flags) st).1
accept4-Same sfd flags st e = record {
  same_os = refl;
  same_fd = λ q. refl;
  same_meta = λ q. refl;
  same_fresh = refl;
  same_open = fun_ext λ f.
      ap (λ x. x || is_open st.os st.trace f)
        (fails_opens (st.os st.trace (Call.accept4 sfd false flags)).ret f e);
  same_stray = refl;
}

After-from : {fd : ℤ} {st s t : St} → Same st s → After fd s t → After fd st t
After-from {fd} {st} {s} {t} b a = record {
  same_os = a.same_os ∙ b.same_os;
  own = λ q.
      a.own q
      ∙ ap (λ m. owns m (s.socks q).fd) (b.same_meta q)
      ∙ ap (owns (st.has_meta q)) (b.same_fd q);
  open_fd = λ f. a.open_fd f ∙ ap (λ g. (fd ==ℤ f) || g f) b.same_open;
  next = omega (arith, a.next, b.same_fresh);
  stray = a.stray ∙ b.same_stray;
}

-- What `accept_lua` does with the result of `acceptfd`.
unfoldable accepted : Socket → Bool → ℤ × List ℕ × ℕ → Cmd (List Value)
accepted s with_addr (fd, addr, addrlen) = if fd ==ℤ minus_one then accept_failed else do
  cs ← new_socket (record s { fd = fd; gcfunc = null })
  if with_addr
      then pure (
          Value.socket cs
          ∷ Value.nil
          ∷ Value.nil
          ∷ Value.addrinfo (wrap_addr s.family s.socktype s.protocol addr addrlen)
          ∷ [])
      else pure (Value.socket cs ∷ [])

acceptfd-failed :
    (sfd : ℤ) (st : St)
    → ((st.os st.trace (Call.fcntl sfd f_getfl (pos 0))).ret ==ℤ minus_one) ≡ true
    → (acceptfd sfd false st) ≡ (ok (minus_one, [], 0), (sys (Call.fcntl sfd f_getfl (pos 0)) st).1)
unfolding acceptfd
acceptfd-failed sfd st e = rw e refl

unfoldable accept4_call : ℤ → St → Call
accept4_call sfd st = Call.accept4 sfd false (
    sock_cloexec
    + (if bit_and (to_unsigned 32 (st.os st.trace (Call.fcntl sfd f_getfl (pos 0))).ret) o_nonblock
          == 0
        then 0
        else sock_nonblock))

acceptfd-reads :
    (sfd : ℤ) (st : St)
    → ((st.os st.trace (Call.fcntl sfd f_getfl (pos 0))).ret ==ℤ minus_one) ≡ false
    → (acceptfd sfd false st)
      ≡ (sys (accept4_call sfd st) >>= λ r. pure (r.ret, r.addr, r.len))
          (sys (Call.fcntl sfd f_getfl (pos 0)) st).1
unfolding acceptfd accept4_call
acceptfd-reads sfd st e = rw e refl

accepted-failed :
    (sock : Socket) (fd : ℤ) (addr : List ℕ) (len : ℕ) (st : St)
    → (fd ==ℤ minus_one) ≡ true
    → accepted sock false (fd, addr, len) st ≡ accept_failed st
unfolding accepted
accepted-failed sock fd addr len st e = rw e refl

-- What becomes of the descriptor that `accept4` has returned.
accepted-Move :
    (sock : Socket) (fd : ℤ) (addr : List ℕ) (len : ℕ) (st s : St)
    → ((fd ==ℤ minus_one) ≡ true → Same st s)
    → ((fd ==ℤ minus_one) ≡ false → (is_open st.os st.trace fd ≡ false) × After fd st s)
    → Move (view st) (view (accepted sock false (fd, addr, len) s).1)
unfolding accepted
accepted-Move sock fd addr len st s fails works = elim (Bool-cases (fd ==ℤ minus_one)) [
  | inl e ↦
      subst (λ r. Move (view st) (view r.1)) (sym (accepted-failed sock fd addr len s e))
        (keeps
          (Same-Keeps {st' = (accept_failed s).1} (Same-trans (fails e) (accept_failed-Same s))))
  | inr e ↦ rw e (
      opens s.fresh fd (
        made-Opens fd (record sock { fd = fd; gcfunc = null }) st s refl (ne_of_test fd minus_one e)
          (works e).0 (works e).1))
]

-- `accept_lua` with `accept4`, without asking for the address of the peer.
pub accept_lua-Move :
    (sp : Ptr) (st : St)
    → IsKernel st.os
    → Move (view st) (view (accept_lua acceptfd sp Arg.absent st).1)
unfolding accept_lua accepted accept4_call
accept_lua-Move sp st k =
    let sock = st.socks sp in
    let c1 = Call.fcntl sock.fd f_getfl (pos 0) in
    let st1 = (sys c1 st).1 in
    let c = accept4_call sock.fd st in
    let r = st1.os st1.trace c in
    let b : Same st st1 = fcntl-Same sock.fd f_getfl (pos 0) st in
    elim (Bool-cases ((st.os st.trace c1).ret ==ℤ minus_one)) [
      | inl e ↦
          subst
            (λ (r : Outcome (ℤ × List ℕ × ℕ) × St).
              Move (view st) (view (◌>>=◌ (λ _. r) (accepted sock false) st).1))
            (sym (acceptfd-failed sock.fd st e))
            (keeps
              (Same-Keeps {st' = (accept_failed st1).1} (Same-trans b (accept_failed-Same st1))))
      | inr e ↦
          subst
            (λ (r : Outcome (ℤ × List ℕ × ℕ) × St).
              Move (view st) (view (◌>>=◌ (λ _. r) (accepted sock false) st).1))
            (sym (acceptfd-reads sock.fd st e))
            (accepted-Move sock r.ret r.addr r.len st (sys c st1).1
              (λ e'. Same-trans b (accept4-Same sock.fd _ st1 e'))
              λ e'.
                let ne : r.ret ≢ minus_one = ne_of_test r.ret minus_one e' in
                let one = λ (f : ℤ). returns_opens r.ret r.ret f refl ne in
                (
                  ap (λ g. g r.ret) (sym b.same_open)
                      ∙ new_fd-shut st1 c r.ret k (one r.ret ∙ (==ℤ_iff r.ret r.ret).1 refl),
                  After-from b (opened-After r.ret c st1 (λ f. refl) one refl),
                ))
    ]

-- `dup_lua`, at an address of the allocation that owns nothing.
pub dup_lua-Move :
    (sp : Ptr) (st : St)
    → IsKernel st.os
    → owns (st.has_meta st.fresh) (st.socks st.fresh).fd ≡ none
    → Move (view st) (view (dup_lua sp st).1)
unfolding dup_lua
dup_lua-Move sp st k free =
    let c = Call.dup (st.socks sp).fd in
    let fd = (st.os st.trace c).ret in
    let s0 = (alloc st).1 in
    let own0 : (q : Ptr)
        → owns (s0.has_meta q) (s0.socks q).fd ≡ owns (st.has_meta q) (st.socks q).fd =
      λ q. elim (Bool-cases (q == st.fresh)) [
        | inl e ↦
            let e' = (==_iff q st.fresh).0 e in
            rw e (sym free ∙ ap (λ a. owns (st.has_meta a) (st.socks a).fd) (sym e'))
        | inr e ↦ rw e refl
      ] in
    elim (Bool-cases (fd ==ℤ minus_one)) [
      | inl e ↦ rw e (
          keeps (record {
            same_os = refl;
            own = own0;
            open_fd = λ f. ap (λ b. b || is_open st.os st.trace f) (fails_opens fd f e);
            next = omega arith;
            stray = refl;
          }))
      | inr e ↦
          let ne : fd ≢ minus_one = ne_of_test fd minus_one e in
          let one = λ (f : ℤ). returns_opens fd fd f refl ne in
          let shut = new_fd-shut st c fd k (one fd ∙ (==ℤ_iff fd fd).1 refl) in
          let s1 = (sys (Call.fcntl fd f_setfd (pos fd_cloexec)) (sys c s0).1).1 in
          let a : After fd st s1 = record {
            same_os = refl;
            own = own0;
            open_fd = λ f. ap (λ b. b || is_open st.os st.trace f) (one f);
            next = omega arith;
            stray = refl;
          } in
          elim (Bool-cases
            ((st.os (c ∷ st.trace) (Call.fcntl fd f_setfd (pos fd_cloexec))).ret ==ℤ minus_one)) [
              | inl e' ↦ rw (e, e') (keeps (closed-Keeps fd st s1 shut a))
              | inr e' ↦
                  rw (e, e')
                    (opens st.fresh fd (
                      let t =
                        (modify (put_meta st.fresh true) (
                          put_sock st.fresh (record (st.socks sp) { fd = fd; gcfunc = null })
                            s1)).1 in
                      let m : Opens st.fresh fd (view st) (view t) = record {
                        same_os = refl;
                        is_new = omega arith;
                        was_shut = shut;
                        own = λ q. elim (Bool-cases (q == st.fresh)) [
                          | inl h ↦ rw h (rw (==ℤ_ne fd minus_one ne) refl)
                          | inr h ↦ rw h refl
                        ];
                        open_fd = a.open_fd;
                        next = omega arith;
                        stray = refl;
                      } in
                      m))
            ]
    ]
