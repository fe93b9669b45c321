-- ===== src/Finalise/Run.antt =====
-- `call_gcfn` of src/socket.c.
use lua_llsocket.Prelude.{
  unless, if◌then◌else◌, not, ℕ, zero, suc, ◌<◌, ◌==◌, ==_refl, ◌≡◌, ◌≢◌, refl, true, false, List,
  [], ◌∷◌, arith, Bool-cases, inl, inr, length, ap, ◌∙◌, subst,
}
use lua_llsocket.Prelude.Int.{ℤ, ◌==ℤ◌, ==ℤ_iff}
use lua_llsocket.Host.{Ptr, null, Gcfn, St, ok, bind_ok, pure, put_sock}
use lua_llsocket.Host.Os.{Call}
use lua_llsocket.Host.Consts.{noref}
use lua_llsocket.Host.Registry.{IsRegistry}
use lua_llsocket.Host.Trace.{lifecycle, IsQuiet}
use lua_llsocket.Gcfn.{lls_gcfn_call, lls_gcfn_del, lua_pcall}
use lua_llsocket.Gcfn.Chain.{has, Chain}
use lua_llsocket.Gcfn.Delete.{lls_gcfn_del-Deleted, lls_gcfn_del-ok, Chain-Deleted_head}
use lua_llsocket.Gcfn.Unlink.{unlinked-refs}
use lua_llsocket.Finalise.{gcfn_done, call_gcfn_loop, call_gcfn}

-- The trace that running the nodes of a list in order leaves.
abbrev pub ran : (Ptr → Gcfn) → List Ptr → List Call → List Call
ran h [] t = t
ran h (x ∷ xs) t = ran h xs (Call.pcall (h x).ref_fn ∷ t)

-- The state in which `lls_gcfn_call` deletes its node.
abbrev pub after_pcall : (ℤ → St → St) → Ptr → St → St
after_pcall fin p st = (lua_pcall fin (st.gcfns p).ref_fn st).1

-- `lls_gcfn_call` of a live node runs its function, and then deletes it.
pub lls_gcfn_call-live :
    (fin : ℤ → St → St) (p : Ptr) (st : St)
    → IsQuiet fin
    → (st.gcfns p).ref_self ≢ noref
    → lls_gcfn_call fin p st ≡ (ok tt, (lls_gcfn_del p (after_pcall fin p st)).1)
unfolding lls_gcfn_call
lls_gcfn_call-live fin p st quiet live = elim (Bool-cases ((st.gcfns p).ref_self ==ℤ noref)) [
  | inl e ↦ absurd (live ((==ℤ_iff _ _).0 e))
  | inr e ↦ rw e (
      bind_ok (lls_gcfn_del p) (λ _. pure tt) (after_pcall fin p st)
        (lls_gcfn_del-ok p (after_pcall fin p st) (rw quiet.keeps_gcfns live)))
]

-- One round of the loop.
record Round (p : Ptr) (st st' : St) : Type 0 where
  chain :
      (xs : List Ptr) → Chain st.gcfns null p (p ∷ xs) → Chain st'.gcfns null (st.gcfns p).next xs
  gone : (st'.gcfns p).ref_self ≡ noref
  fns : (a : Ptr) → (a == p) ≡ false → (st'.gcfns a).ref_fn ≡ (st.gcfns a).ref_fn
  dead : (a : Ptr) → (st.gcfns a).ref_self ≡ noref → (st'.gcfns a).ref_self ≡ noref
  log : lifecycle st'.trace ≡ Call.pcall (st.gcfns p).ref_fn ∷ lifecycle st.trace
  same_os : st'.os ≡ st.os
  same_socks : st'.socks ≡ st.socks

Round-call :
    (fin : ℤ → St → St) (p : Ptr) (st : St)
    → IsQuiet fin
    → IsRegistry st.os
    → (st.gcfns p).ref_self ≢ noref
    → Round p st (lls_gcfn_del p (after_pcall fin p st)).1
Round-call fin p st quiet reg live =
    let st1 = after_pcall fin p st in
    let same : st1.gcfns ≡ st.gcfns = quiet.keeps_gcfns _ _ in
    let d = lls_gcfn_del-Deleted p st1 (rw quiet.keeps_os reg) (rw quiet.keeps_gcfns live) in
    record {
      chain = λ xs c.
          subst
            (λ h. Chain h null p (p ∷ xs) → Chain (lls_gcfn_del p st1).1.gcfns null (h p).next xs)
            same (Chain-Deleted_head p xs d) c;
      gone = d.gone;
      fns = λ a ne.
          rw (d.others a ne) ((unlinked-refs st1.gcfns p a).0 ∙ ap (λ h. (h a).ref_fn) same);
      dead = λ a e. ground (
        arith,
        d.gone,
        d.others a,
        (unlinked-refs st1.gcfns p a).1,
        ap (λ h. (h a).ref_self) same,
      );
      log = rw d.logged (quiet.keeps_lifecycle _ _);
      same_os = d.same_os ∙ quiet.keeps_os _ _;
      same_socks = d.same_socks ∙ quiet.keeps_socks _ _;
    }

-- The trace that the others leave does not depend on the node that ran first.
ran-Round :
    (p : Ptr) (xs : List Ptr) (t : List Call) {st st' : St}
    → Round p st st'
    → has p xs ≡ false
    → ran st'.gcfns xs t ≡ ran st.gcfns xs t
ran-Round p [] t r out = refl
ran-Round p (x ∷ xs) t {st} r out =
    rw (r.fns x (ground arith))
      (ran-Round p xs (Call.pcall (st.gcfns x).ref_fn ∷ t) r (ground arith))

-- One round, and all of them.
round : (ℤ → St → St) → Ptr → St → St
round fin p st = (lls_gcfn_del p (after_pcall fin p st)).1

run_all : (ℤ → St → St) → List Ptr → St → St
run_all fin [] st = st
run_all fin (x ∷ xs) st = run_all fin xs (round fin x st)

module _ (fin : ℤ → St → St) (quiet : IsQuiet fin) where
  round-Round :
      (p : Ptr) (st : St)
      → IsRegistry st.os
      → (st.gcfns p).ref_self ≢ noref
      → Round p st (round fin p st)
  unfolding round
  round-Round p st reg live = Round-call fin p st quiet reg live

  loop_step :
      (fuel : ℕ) (p : Ptr) (st : St)
      → p ≢ null
      → (st.gcfns p).ref_self ≢ noref
      → call_gcfn_loop fin (suc fuel) p st
        ≡ call_gcfn_loop fin fuel (st.gcfns p).next (round fin p st)
  unfolding call_gcfn_loop round
  loop_step fuel p st ne live = elim (Bool-cases (p == null)) [
    | inl e ↦ absurd (ne (ground arith))
    | inr e ↦ rw e (
        bind_ok (lls_gcfn_call fin p) (λ _. call_gcfn_loop fin fuel (st.gcfns p).next) st
          (ap (λ r. r.0) (lls_gcfn_call-live fin p st quiet live))
        ∙ ap (λ r. call_gcfn_loop fin fuel (st.gcfns p).next r.1)
            (lls_gcfn_call-live fin p st quiet live))
  ]

  -- With a round of fuel for each finaliser and one to see the end, the loop runs them all.
  loop-run_all :
      (fuel : ℕ) (p : Ptr) (xs : List Ptr) (st : St)
      → IsRegistry st.os
      → Chain st.gcfns null p xs
      → length xs < fuel
      → call_gcfn_loop fin fuel p st ≡ (ok tt, run_all fin xs st)
  unfolding run_all
  loop-run_all zero p xs st reg c l = absurd (omega arith)
  loop-run_all (suc fuel) p [] st reg c l = unfold call_gcfn_loop in rw c
  loop-run_all (suc fuel) p (x ∷ xs) st reg c l =
      let r = round-Round x st reg c.3 in
      rw c.0 (
        loop_step fuel x st c.1 c.3
        ∙ loop-run_all fuel (st.gcfns x).next xs (round fin x st) (rw r.same_os reg)
            (r.chain xs (refl, c.1, c.2, c.3, c.4, c.5)) (omega arith))

-- What running the finalisers `xs` has done, from `st` to `st'`: they ran in order, each one is
-- deleted, and no other call of the descriptor's life was made.
pub record AllRun (xs : List Ptr) (st st' : St) : Type 0 where
  pub gone : (a : Ptr) → has a xs ≡ true → (st'.gcfns a).ref_self ≡ noref
  pub dead : (a : Ptr) → (st.gcfns a).ref_self ≡ noref → (st'.gcfns a).ref_self ≡ noref
  pub log : lifecycle st'.trace ≡ ran st.gcfns xs (lifecycle st.trace)
  pub same_os : st'.os ≡ st.os
  pub same_socks : st'.socks ≡ st.socks

module _ (fin : ℤ → St → St) (quiet : IsQuiet fin) where
  run_all-AllRun :
      (p : Ptr) (xs : List Ptr) (st : St)
      → IsRegistry st.os
      → Chain st.gcfns null p xs
      → AllRun xs st (run_all fin xs st)
  unfolding run_all
  run_all-AllRun p [] st reg c = record {
    gone = λ a m. cc;
    dead = λ a d. d;
    log = refl;
    same_os = refl;
    same_socks = refl;
  }
  run_all-AllRun p (x ∷ xs) st reg c =
      let r = round-Round fin quiet x st reg c.3 in
      let rest =
        run_all-AllRun (st.gcfns x).next xs (round fin x st) (rw r.same_os reg)
          (r.chain xs (refl, c.1, c.2, c.3, c.4, c.5)) in
      record {
        gone = λ a m. elim (Bool-cases (a == x)) [
          | inl e ↦ rest.dead a (ground (arith, r.gone))
          | inr e ↦ rest.gone a (ground arith)
        ];
        dead = λ a d. rest.dead a (r.dead a d);
        log = rw (rest.log, ran-Round x xs _ r c.4, r.log);
        same_os = rest.same_os ∙ r.same_os;
        same_socks = rest.same_socks ∙ r.same_socks;
      }

-- What `call_gcfn` has done: the finalisers have run, and the socket is marked.
pub record Finalised (sp : Ptr) (xs : List Ptr) (st st' : St) : Type 0 where
  pub gone : (a : Ptr) → noref ≡ (if not (has a xs) then noref else (st'.gcfns a).ref_self)
  pub log : lifecycle st'.trace ≡ ran st.gcfns xs (lifecycle st.trace)
  pub marked : st'.socks sp ≡ record (st.socks sp) { gcfunc = gcfn_done }
  pub other_socks : (q : Ptr) → st'.socks q ≡ (if q == sp then st'.socks q else st.socks q)
  pub same_os : st'.os ≡ st.os

-- With a round of fuel for each finaliser and one more, `call_gcfn` runs every finaliser of the
-- socket once, the newest first, deletes each, and marks the socket as done; no descriptor is
-- shut down or closed meanwhile, if the finalisers are quiet.
pub call_gcfn-Finalised :
    (fin : ℤ → St → St) (fuel : ℕ) (sp : Ptr) (xs : List Ptr) (st : St)
    → IsQuiet fin
    → IsRegistry st.os
    → Chain st.gcfns null (st.socks sp).gcfunc xs
    → length xs < fuel
    → ((call_gcfn fin fuel sp st).0 ≡ ok tt) × Finalised sp xs st (call_gcfn fin fuel sp st).1
unfolding call_gcfn
call_gcfn-Finalised fin fuel sp xs st quiet reg c l =
    let st1 = put_sock sp (record (st.socks sp) { gcfunc = gcfn_done }) st in
    let e = loop-run_all fin quiet fuel (st.socks sp).gcfunc xs st1 reg c l in
    let r = run_all-AllRun fin quiet (st.socks sp).gcfunc xs st1 reg c in
    rw e (
      refl,
      record {
        gone = λ a. unless (not (has a xs)) λ m. ground (arith, r.gone a);
        log = r.log;
        marked = rw r.same_socks (rw (==_refl sp));
        other_socks = λ q. unless (q == sp) λ ne. rw r.same_socks (rw ne);
        same_os = r.same_os;
      },
    )
