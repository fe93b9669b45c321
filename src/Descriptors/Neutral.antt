-- ===== src/Descriptors/Neutral.antt =====
-- Runs of src/socket.c and src/gcfn.c that open and close no descriptor.
use lua_llsocket.Prelude.{
  ℕ, zero, suc, ◌==◌, ==_iff, ◌≡◌, refl, Bool, true, false, ◌∷◌, if◌then◌else◌, ◌∙◌, ap, sym, arith,
  Bool-cases, inl, inr,
}
use lua_llsocket.Prelude.Int.{ℤ, pos, minus_one, ◌==ℤ◌}
use lua_llsocket.Host.Os.{Call}
use lua_llsocket.Host.Consts.{noref, f_getfl, f_setfl, f_setfd, fd_cloexec, o_nonblock}
use lua_llsocket.Sockopt.{with_flag}
use lua_llsocket.Host.{
  Ptr, null, St, Outcome, ok, raised, out_of_fuel, crashed, Cmd, ◌>>=◌, pure, sys, put_sock,
}
use lua_llsocket.Gcfn.{lls_gcfn_del, lls_gcfn_call, lua_pcall}
use lua_llsocket.Finalise.{gcfn_done, call_gcfn_loop, call_gcfn}
use lua_llsocket.Create.{set_flags_failed, set_nonblock_failed}
use lua_llsocket.Descriptors.{is_open, strays, view}
use lua_llsocket.Descriptors.Moves.{Keeps}

-- The descriptors of the sockets and of the kernel are the same.
pub record Same (st st' : St) : Type 0 where
  pub same_os : st'.os ≡ st.os
  pub same_fd : (p : Ptr) → (st'.socks p).fd ≡ (st.socks p).fd
  pub same_meta : (p : Ptr) → st'.has_meta p ≡ st.has_meta p
  pub same_fresh : st'.fresh ≡ st.fresh
  pub same_open : is_open st'.os st'.trace ≡ is_open st.os st.trace
  pub same_stray : strays st'.os st'.trace ≡ strays st.os st.trace

pub Same-refl : (st : St) → Same st st
Same-refl st = record {
  same_os = refl;
  same_fd = λ p. refl;
  same_meta = λ p. refl;
  same_fresh = refl;
  same_open = refl;
  same_stray = refl;
}

pub Same-trans : {a b c : St} → Same a b → Same b c → Same a c
Same-trans s t = record {
  same_os = t.same_os ∙ s.same_os;
  same_fd = λ p. t.same_fd p ∙ s.same_fd p;
  same_meta = λ p. t.same_meta p ∙ s.same_meta p;
  same_fresh = t.same_fresh ∙ s.same_fresh;
  same_open = t.same_open ∙ s.same_open;
  same_stray = t.same_stray ∙ s.same_stray;
}

-- Finalisers that leave every descriptor and every socket's descriptor alone.
pub record IsHarmless (fin : ℤ → St → St) : Type 0 where
  pub keeps : (r : ℤ) (st : St) → Same st (fin r st)

after-Same :
    {A B : Type 0} (k : A → Cmd B) (st st' : St) (r : Outcome A)
    → Same st st'
    → ((a : A) (s : St) → Same s (k a s).1)
    → Same st (◌>>=◌ (λ s. (r, s)) k st').1
after-Same k st st' (ok a) s h = Same-trans s (h a st')
after-Same k st st' raised s h = s
after-Same k st st' out_of_fuel s h = s
after-Same k st st' crashed s h = s

-- A bind, whatever the outcome of its first part.
pub bind-Same :
    {A B : Type 0} (m : Cmd A) (k : A → Cmd B) (st : St)
    → Same st (m st).1
    → ((a : A) (s : St) → Same s (k a s).1)
    → Same st ((m >>= k) st).1
bind-Same m k st s h = after-Same k st (m st).1 (m st).0 s h

after_by :
    {A B : Type 0} (P : St → Type 0) (k : A → Cmd B) (st : St) (r : Outcome A)
    → P st
    → ((a : A) → P (k a st).1)
    → P (◌>>=◌ (λ s. (r, s)) k st).1
after_by P k st (ok a) s h = h a
after_by P k st raised s h = s
after_by P k st out_of_fuel s h = s
after_by P k st crashed s h = s

-- What holds of a bind's state: it ends behind its first part, or with its second.
pub bind_by :
    {A B : Type 0} (P : St → Type 0) (m : Cmd A) (k : A → Cmd B) (st : St)
    → P (m st).1
    → ((a : A) → P (k a (m st).1).1)
    → P ((m >>= k) st).1
bind_by P m k st s h = after_by P k (m st).1 (m st).0 s h

lls_gcfn_del-Same : (p : Ptr) (st : St) → Same st (lls_gcfn_del p st).1
unfolding lls_gcfn_del
lls_gcfn_del-Same p st = elim (Bool-cases ((st.gcfns p).ref_self ==ℤ noref)) [
  | inl e ↦ rw e (Same-refl st)
  | inr e ↦ rw e (record {
    same_os = refl;
    same_fd = λ q. refl;
    same_meta = λ q. refl;
    same_fresh = refl;
    same_open = refl;
    same_stray = refl;
  })
]

module _ (fin : ℤ → St → St) (harmless : IsHarmless fin) where
  lua_pcall-Same : (r : ℤ) (st : St) → Same st (lua_pcall fin r st).1
  lua_pcall-Same r st =
      Same-trans {b = record st { trace = Call.pcall r ∷ st.trace }}
        (record {
          same_os = refl;
          same_fd = λ q. refl;
          same_meta = λ q. refl;
          same_fresh = refl;
          same_open = refl;
          same_stray = refl;
        })
        (harmless.keeps r (record st { trace = Call.pcall r ∷ st.trace }))

  lls_gcfn_call-Same : (p : Ptr) (st : St) → Same st (lls_gcfn_call fin p st).1
  unfolding lls_gcfn_call
  lls_gcfn_call-Same p st = elim (Bool-cases ((st.gcfns p).ref_self ==ℤ noref)) [
    | inl e ↦ rw e (Same-refl st)
    | inr e ↦ rw e (
        Same-trans (lua_pcall-Same (st.gcfns p).ref_fn st) (
          bind-Same (lls_gcfn_del p) (λ _. pure tt) (lua_pcall fin (st.gcfns p).ref_fn st).1
            (lls_gcfn_del-Same p (lua_pcall fin (st.gcfns p).ref_fn st).1) (λ _ s. Same-refl s)))
  ]

  loop-Same : (fuel : ℕ) (p : Ptr) (st : St) → Same st (call_gcfn_loop fin fuel p st).1
  unfolding call_gcfn_loop
  loop-Same zero p st = Same-refl st
  loop-Same (suc fuel) p st = elim (Bool-cases (p == null)) [
    | inl e ↦ rw e (Same-refl st)
    | inr e ↦ rw e (
        bind-Same (lls_gcfn_call fin p) (λ _. call_gcfn_loop fin fuel (st.gcfns p).next) st
          (lls_gcfn_call-Same p st) (λ _ s. loop-Same fuel (st.gcfns p).next s))
  ]

  -- Running finalisers, to the end or not.
  pub call_gcfn-Same : (fuel : ℕ) (sp : Ptr) (st : St) → Same st (call_gcfn fin fuel sp st).1
  unfolding call_gcfn
  call_gcfn-Same fuel sp st =
      let st1 = put_sock sp (record (st.socks sp) { gcfunc = gcfn_done }) st in
      Same-trans {b = st1}
        (record {
          same_os = refl;
          same_fd = λ q. elim (Bool-cases (q == sp)) [
            | inl e ↦ let e' = (==_iff q sp).0 e in rw e (ap (λ a. (st.socks a).fd) (sym e'))
            | inr e ↦ rw e refl
          ];
          same_meta = λ q. refl;
          same_fresh = refl;
          same_open = refl;
          same_stray = refl;
        })
        (loop-Same fuel (st.socks sp).gcfunc st1)

-- Setting the flags of a descriptor.
pub fcntl-Same : (fd : ℤ) (cmd : ℕ) (arg : ℤ) (st : St) → Same st (sys (Call.fcntl fd cmd arg) st).1
fcntl-Same fd cmd arg st = record {
  same_os = refl;
  same_fd = λ q. refl;
  same_meta = λ q. refl;
  same_fresh = refl;
  same_open = refl;
  same_stray = refl;
}

pub if-Same :
    {A : Type 0} (b : Bool) (m k : Cmd A) (st : St)
    → Same st (m st).1
    → Same st (k st).1
    → Same st ((if b then m else k) st).1
if-Same true m k st hm hk = hm
if-Same false m k st hm hk = hk

set_nonblock_failed-Same :
    (fd : ℤ) (nonblock : Bool) (st : St) → Same st (set_nonblock_failed fd nonblock st).1
unfolding set_nonblock_failed
set_nonblock_failed-Same fd false st = Same-refl st
set_nonblock_failed-Same fd true st =
    bind-Same (sys (Call.fcntl fd f_getfl (pos 0)))
      (λ fl.
        if fl.ret ==ℤ minus_one
        then pure true
        else (sys (Call.fcntl fd f_setfl (with_flag fl.ret o_nonblock)) >>= λ r.
            pure (r.ret ==ℤ minus_one)))
      st (fcntl-Same fd f_getfl (pos 0) st)
      λ fl s.
        if-Same (fl.ret ==ℤ minus_one) (pure true)
          (sys (Call.fcntl fd f_setfl (with_flag fl.ret o_nonblock)) >>= λ r.
            pure (r.ret ==ℤ minus_one))
          s (Same-refl s) (fcntl-Same fd f_setfl (with_flag fl.ret o_nonblock) s)

pub set_flags_failed-Same :
    (fd : ℤ) (nonblock : Bool) (st : St) → Same st (set_flags_failed fd nonblock st).1
unfolding set_flags_failed
set_flags_failed-Same fd nonblock st =
    bind-Same (sys (Call.fcntl fd f_setfd (pos fd_cloexec)))
      (λ r. if r.ret ==ℤ minus_one then pure true else set_nonblock_failed fd nonblock) st
      (fcntl-Same fd f_setfd (pos fd_cloexec) st)
      λ r s.
        if-Same (r.ret ==ℤ minus_one) (pure true) (set_nonblock_failed fd nonblock) s (Same-refl s)
          (set_nonblock_failed-Same fd nonblock s)

pub Same-Keeps : {st st' : St} → Same st st' → Keeps (view st) (view st')
Same-Keeps s = record {
  same_os = s.same_os;
  own = λ p. rw (s.same_meta p, s.same_fd p);
  open_fd = λ f. ap (λ g. g f) s.same_open;
  next = rw s.same_fresh (omega arith);
  stray = s.same_stray;
}
