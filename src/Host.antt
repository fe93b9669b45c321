-- ===== src/Host.antt =====
-- What the C functions run on: Lua values and arguments, the operating system, the program's
-- memory, and the monad of commands over them.
pub mod Os
pub mod Lua
pub mod Registry
pub mod Trace
pub mod Consts
use lua_llsocket.Prelude.{
  ℕ, suc, ◌≡◌, ◌≢◌, refl, String, ◌==◌, Bool, true, false, Option, none, some, List, [], ◌∷◌,
  if◌then◌else◌,
}
use lua_llsocket.Prelude.Int.{ℤ, pos, negsuc, minus_one, ◌==ℤ◌}
use lua_llsocket.Host.Os.{Call, Reply}
use lua_llsocket.Host.Lua.{Value, Arg}

-- An address of the program's memory; 0 is NULL.
abbrev pub Ptr : Type 0
Ptr = ℕ

abbrev pub null : Ptr
null = 0

-- `lls_socket_t`.
pub record Socket : Type 0 where
  pub fd : ℤ
  pub family : ℤ
  pub socktype : ℤ
  pub protocol : ℤ
  pub gcfunc : Ptr

-- `lls_gcfn_t`.
pub record Gcfn : Type 0 where
  pub ref_self : ℤ
  pub ref_fn : ℤ
  pub prev : Ptr
  pub next : Ptr

-- The program's state: the operating system with the calls made so far, newest first; `errno`;
-- the `lls_socket_t` and `lls_gcfn_t` that stand at each address; whether the userdata at an
-- address has its metatable; and the next address that an allocation returns.
pub record St : Type 0 where
  pub os : List Call → Call → Reply
  pub trace : List Call
  pub errno : ℕ
  pub socks : Ptr → Socket
  pub has_meta : Ptr → Bool
  pub gcfns : Ptr → Gcfn
  pub fresh : Ptr

-- A command ends with a value, by a Lua error that an argument check raises, without fuel, or by an
-- access that C leaves undefined: a read through a null pointer, or a push past the slots of the Lua
-- stack.
pub data Outcome {ℓ} (A : Type ℓ) : Type ℓ where
  ok : A → Outcome A
  raised : Outcome A
  out_of_fuel : Outcome A
  crashed : Outcome A

abbrev pub Cmd : Type 0 → Type 0
Cmd A = St → Outcome A × St

abbrev pub pure : {A : Type 0} → A → Cmd A
pure a st = (ok a, st)

infixl 5 ◌>>=◌ ◌>>◌
abbrev pub ◌>>=◌ : {A B : Type 0} → Cmd A → (A → Cmd B) → Cmd B
◌>>=◌ m k st =
    let (r, st') = m st in
    elim r [
      | ok a ↦ k a st'
      | raised ↦ (raised, st')
      | out_of_fuel ↦ (out_of_fuel, st')
      | crashed ↦ (crashed, st')
    ]

abbrev pub ◌>>◌ : {A B : Type 0} → Cmd A → Cmd B → Cmd B
m >> k = m >>= λ _. k

abbrev pub raise : {A : Type 0} → Cmd A
raise st = (raised, st)

abbrev pub crash : {A : Type 0} → Cmd A
crash st = (crashed, st)

abbrev pub gets : {A : Type 0} → (St → A) → Cmd A
gets f st = (ok (f st), st)

abbrev pub modify : (St → St) → Cmd (Unit {0})
modify f st = (ok tt, f st)

-- The value of `errno` after a call.
abbrev pub errno_after : Reply → ℕ → ℕ
errno_after r e = elim (r.errno) [ none ↦ e | some e' ↦ e' ]

-- A call of the operating system or of the Lua registry.
abbrev pub sys : Call → Cmd Reply
sys c st =
    let r = st.os st.trace c in
    (ok r, record st { trace = c ∷ st.trace; errno = errno_after r st.errno })

abbrev pub set_errno : ℕ → Cmd (Unit {0})
set_errno e = modify λ st. record st { errno = e }

-- Writes to the memory.
abbrev pub put_sock : Ptr → Socket → St → St
put_sock p s st = record st { socks = λ q. if q == p then s else st.socks q }

abbrev pub put_gcfn : Ptr → Gcfn → St → St
put_gcfn p g st = record st { gcfns = λ q. if q == p then g else st.gcfns q }

abbrev pub put_meta : Ptr → Bool → St → St
put_meta p b st = record st { has_meta = λ q. if q == p then b else st.has_meta q }

-- `lua_newuserdata`: memory that no metatable describes yet.
abbrev pub alloc : Cmd Ptr
alloc st = (
  ok st.fresh,
  record st { fresh = suc st.fresh; has_meta = (put_meta st.fresh false st).has_meta },
)

-- `lauxh_check…`: the value, or a Lua error.
abbrev pub check : {A : Type 0} → Arg A → Cmd A
check Arg.absent = raise
check Arg.null = raise
check (Arg.given a) = pure a
check Arg.wrong = raise

-- `lauxh_opt…`: the default where the argument is absent or nil.
abbrev pub opt : {A : Type 0} → Arg A → A → Cmd A
opt Arg.absent d = pure d
opt Arg.null d = pure d
opt (Arg.given a) d = pure a
opt Arg.wrong d = raise

-- `nil` or `false`, and an error object made from `errno`.
abbrev pub fail_nil : String → Cmd (List Value)
fail_nil op = do e ← gets St.errno; pure (Value.nil ∷ Value.failure e op ∷ [])

abbrev pub fail_false : String → Cmd (List Value)
fail_false op = do e ← gets St.errno; pure (Value.boolean false ∷ Value.failure e op ∷ [])

-- A bind whose first part ends with a value.
pub bind_ok :
    {A B : Type 0} (m : Cmd A) (k : A → Cmd B) (st : St) {a : A}
    → (m st).0 ≡ ok a
    → (m >>= k) st ≡ k a (m st).1
bind_ok m k st e = rw (e, ◌>>=◌)

-- A command that ends in no other way ends with a value.
pub Outcome-ok :
    {A : Type 0} (o : Outcome A) → o ≢ raised → o ≢ out_of_fuel → o ≢ crashed → (a : A) × (o ≡ ok a)
Outcome-ok (ok a) r f c = (a, refl)
Outcome-ok raised r f c = absurd (r refl)
Outcome-ok out_of_fuel r f c = absurd (f refl)
Outcome-ok crashed r f c = absurd (c refl)
