-- ===== src/Methods/Ending.antt =====
-- The end of a socket and the sockets it accepts: the finalisers may need more rounds than there is
-- fuel, and nothing else can go wrong.
use lua_llsocket.Prelude.{
  ℕ, zero, suc, ◌≡◌, refl, ◌==◌, Bool, true, false, not, List, [], ◌∷◌, arith,
}
use lua_llsocket.Prelude.Int.{ℤ, minus_one, ◌==ℤ◌, to_int}
use lua_llsocket.Host.Lua.{Value, Arg, is_none_or_nil}
use lua_llsocket.Host.{
  Ptr, null, Socket, St, Cmd, Outcome, ok, raised, out_of_fuel, crashed, put_sock, put_meta, ◌>>=◌,
}
use lua_llsocket.Gcfn.{lls_gcfn_call, lls_gcfn_del}
use lua_llsocket.Finalise.{call_gcfn_loop, call_gcfn}
use lua_llsocket.Life.{closefd, closefd_shutdown, close_lua, unwrap_lua}
use lua_llsocket.Create.{
  acceptfd, acceptfd_portable, accept_lua, acceptfd_lua, accept_failed, new_socket,
}
use lua_llsocket.Io.{wrap_addr}
use lua_llsocket.Methods.Types.{Ty, is_end, is_wrong}
use lua_llsocket.Methods.Call.{acceptfd_of}
use lua_llsocket.Methods.Ends.{
  IsEnding, pure-IsEnding, gets-IsEnding, modify-IsEnding, if-IsEnding, opt-IsEnding, bind-IsEnding,
}

-- A value, or no fuel.
abbrev pub is_calm : {A : Type 0} → Outcome A → Bool
is_calm (ok a) = true
is_calm raised = false
is_calm out_of_fuel = true
is_calm crashed = false

-- A value.
abbrev pub is_ok : {A : Type 0} → Outcome A → Bool
is_ok (ok a) = true
is_ok other = false

lls_gcfn_call-IsEnding : (fin : ℤ → St → St) (p : Ptr) → IsEnding is_ok (lls_gcfn_call fin p)
unfolding lls_gcfn_call lls_gcfn_del
lls_gcfn_call-IsEnding fin p = record { ends = λ st. ground arith }

call_gcfn_loop-IsEnding :
    (fin : ℤ → St → St) (fuel : ℕ) (p : Ptr) → IsEnding is_calm (call_gcfn_loop fin fuel p)
unfolding call_gcfn_loop
call_gcfn_loop-IsEnding fin zero p = record { ends = λ st. refl }
call_gcfn_loop-IsEnding fin (suc fuel) p = if-IsEnding (p == null) _ _ (pure-IsEnding tt refl) (
    gets-IsEnding (λ st. (st.gcfns p).next) _
      λ next.
        bind-IsEnding (lls_gcfn_call fin p) _ (lls_gcfn_call-IsEnding fin p)
          (λ e. absurd (ground arith)) (λ e. absurd (ground arith)) (λ e. absurd (ground arith))
          λ u e. call_gcfn_loop-IsEnding fin fuel next)

call_gcfn-IsEnding :
    (fin : ℤ → St → St) (fuel : ℕ) (sp : Ptr) → IsEnding is_calm (call_gcfn fin fuel sp)
unfolding call_gcfn
call_gcfn-IsEnding fin fuel sp = record {
  ends = λ st. (call_gcfn_loop-IsEnding fin fuel (st.socks sp).gcfunc).ends _;
}

closefd-IsEnding :
    (r : Bool) (fd how : ℤ) (b : Bool)
    → IsEnding (is_end (Ty.boolean ∷ Ty.error ∷ []) false r true false) (closefd fd how b)
unfolding closefd closefd_shutdown
closefd-IsEnding r fd how true = record { ends = λ st. ground arith }
closefd-IsEnding r fd how false = record { ends = λ st. ground arith }

after_finalisers :
    {A : Type 0} (P : Outcome A → Bool) (fin : ℤ → St → St) (fuel : ℕ) (sp : Ptr)
    (k : Unit {0} → Cmd A)
    → P out_of_fuel ≡ true
    → ((u : Unit {0}) → IsEnding P (k u))
    → IsEnding P (call_gcfn fin fuel sp >>= k)
after_finalisers P fin fuel sp k f h =
    bind-IsEnding (call_gcfn fin fuel sp) k (call_gcfn-IsEnding fin fuel sp)
      (λ e. absurd (ground arith)) (λ e. f) (λ e. absurd (ground arith)) λ u e. h u

pub close-IsEnding :
    (fin : ℤ → St → St) (fuel : ℕ) (sp : Ptr) (how : Arg ℤ)
    → IsEnding
        (is_end (Ty.boolean ∷ Ty.error ∷ []) false (is_wrong how) true false)
        (close_lua fin fuel sp how)
unfolding close_lua
close-IsEnding fin fuel sp how =
    opt-IsEnding how minus_one _ (λ h. h)
      λ n.
        gets-IsEnding (λ st. st.socks sp) _
          λ s. if-IsEnding (s.fd ==ℤ minus_one) _ _ (pure-IsEnding (Value.boolean true ∷ []) refl) (
            after_finalisers _ fin fuel sp _ refl λ u.
              modify-IsEnding (λ st. put_sock sp (record (st.socks sp) { fd = minus_one }) st) _
                λ u. closefd-IsEnding (is_wrong how) s.fd (to_int n) (not (is_none_or_nil how)))

pub unwrap-IsEnding :
    (fin : ℤ → St → St) (fuel : ℕ) (sp : Ptr)
    → IsEnding (is_end (Ty.integer ∷ []) false false true false) (unwrap_lua fin fuel sp)
unfolding unwrap_lua
unwrap-IsEnding fin fuel sp = after_finalisers _ fin fuel sp _ refl λ u.
    modify-IsEnding (put_meta sp false) _ λ u.
      gets-IsEnding (λ st. st.socks sp) _
        λ s.
          modify-IsEnding (put_sock sp (record s { fd = minus_one })) _
            λ u. pure-IsEnding (Value.integer s.fd ∷ []) refl

acceptfd_of-IsEnding :
    (has_accept4 : Bool) (fd : ℤ) (with_addr : Bool)
    → IsEnding is_ok (acceptfd_of has_accept4 fd with_addr)
unfolding acceptfd acceptfd_portable
acceptfd_of-IsEnding true fd with_addr = record { ends = λ st. ground arith }
acceptfd_of-IsEnding false fd with_addr = record { ends = λ st. ground arith }

after_accept :
    {A : Type 0} (P : Outcome A → Bool) (has_accept4 : Bool) (fd : ℤ) (with_addr : Bool)
    (k : ℤ × List ℕ × ℕ → Cmd A)
    → ((a : ℤ × List ℕ × ℕ) → IsEnding P (k a))
    → IsEnding P (acceptfd_of has_accept4 fd with_addr >>= k)
after_accept P has_accept4 fd with_addr k h =
    bind-IsEnding (acceptfd_of has_accept4 fd with_addr) k
      (acceptfd_of-IsEnding has_accept4 fd with_addr) (λ e. absurd (ground arith))
      (λ e. absurd (ground arith)) (λ e. absurd (ground arith)) λ a e. h a

accept_failed-IsEnding :
    (t : Ty) (ts : List Ty) (r : Bool)
    → IsEnding (is_end (t ∷ Ty.error ∷ Ty.boolean ∷ ts) false r false false) accept_failed
accept_failed-IsEnding t ts r = record { ends = λ st. ground arith }

pub acceptfd-IsEnding :
    (has_accept4 : Bool) (sp : Ptr)
    → IsEnding
        (is_end (Ty.integer ∷ Ty.error ∷ Ty.boolean ∷ []) false false false false)
        (acceptfd_lua (acceptfd_of has_accept4) sp)
unfolding acceptfd_lua
acceptfd-IsEnding has_accept4 sp =
    gets-IsEnding (λ st. st.socks sp) _
      λ s. after_accept _ has_accept4 s.fd false _ λ (fd, addr, len).
        if-IsEnding (fd ==ℤ minus_one) _ _ (accept_failed-IsEnding Ty.integer [] false)
          (pure-IsEnding (Value.integer fd ∷ []) refl)

new_socket-IsEnding :
    {A : Type 0} (P : Outcome A → Bool) (s : Socket) (k : Ptr → Cmd A)
    → ((p : Ptr) → IsEnding P (k p))
    → IsEnding P (new_socket s >>= k)
new_socket-IsEnding P s k h = record { ends = λ st. (h st.fresh).ends _ }

pub accept-IsEnding :
    (has_accept4 : Bool) (sp : Ptr) (with_ai : Arg Bool)
    → IsEnding
        (is_end
          (Ty.socket ∷ Ty.error ∷ Ty.boolean ∷ Ty.addrinfo ∷ [])
          false
          (is_wrong with_ai)
          false
          false)
        (accept_lua (acceptfd_of has_accept4) sp with_ai)
unfolding accept_lua
accept-IsEnding has_accept4 sp with_ai =
    gets-IsEnding (λ st. st.socks sp) _
      λ s.
        opt-IsEnding with_ai false _ (λ h. h)
          λ with_addr. after_accept _ has_accept4 s.fd with_addr _ λ (fd, addr, len).
            if-IsEnding (fd ==ℤ minus_one) _ _
              (accept_failed-IsEnding Ty.socket (Ty.addrinfo ∷ []) (is_wrong with_ai))
              (new_socket-IsEnding _ (record s { fd = fd; gcfunc = null }) _
                λ cs.
                  if-IsEnding with_addr _ _
                    (pure-IsEnding
                      (Value.socket cs
                        ∷ Value.nil
                        ∷ Value.nil
                        ∷ Value.addrinfo (wrap_addr s.family s.socktype s.protocol addr len)
                        ∷ [])
                      refl)
                    (pure-IsEnding (Value.socket cs ∷ []) refl))
