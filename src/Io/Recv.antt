-- ===== src/Io/Recv.antt =====
-- What the receiving functions answer.
use lua_llsocket.Prelude.{
  String, ◌||◌, ℕ, zero, suc, ◌<◌, ◌^◌, ◌≡◌, refl, true, false, List, [], ◌∷◌, suc_test, arith,
  length, take, if◌then◌else◌, ap, some,
}
use lua_llsocket.Prelude.Int.{ℤ, pos, minus_one, ◌==ℤ◌, to_size}
use lua_llsocket.Host.Os.{Call}
use lua_llsocket.Host.Lua.{Value, Arg}
use lua_llsocket.Host.Consts.{einval, sock_dgram, sock_raw}
use lua_llsocket.Host.{Ptr, St, Outcome, ok}
use lua_llsocket.Io.{is_again, is_positive, recv_lua, read_lua, recvfrom_lua}

take-all : (n : ℕ) (bs : List ℕ) → length bs ≡ n → take n bs ≡ bs
take-all zero [] e = refl
take-all zero (b ∷ bs) e = absurd (omega arith)
take-all (suc n) [] e = absurd (omega arith)
take-all (suc n) (b ∷ bs) e = ap (λ r. b ∷ r) (take-all n bs (omega arith))

-- The bytes that a receiving call returned, as a Lua value.
to_size-small : (n : ℕ) → n < 2 ^ 64 → to_size (pos n) ≡ n
to_size-small n h = omega arith

-- `recv` of a positive length without flags, when bytes arrive, answers exactly those bytes, on
-- every socket type.
pub recv-delivers :
    (sp : Ptr) (n : ℕ) (b : ℕ) (bs : List ℕ) (st : St)
    → length (b ∷ bs) < 2 ^ 64
    → (st.os st.trace (Call.recv (st.socks sp).fd (to_size (pos (suc n))) (pos 0))).ret
      ≡ pos (length (b ∷ bs))
    → (st.os st.trace (Call.recv (st.socks sp).fd (to_size (pos (suc n))) (pos 0))).bytes ≡ b ∷ bs
    → (recv_lua sp (Arg.given (pos (suc n))) Arg.absent st).0 ≡ ok (Value.string (b ∷ bs) ∷ [])
unfolding recv_lua
recv-delivers sp n b bs st l er eb = rw (
  suc_test n,
  er,
  eb,
  suc_test (length bs),
  to_size-small (length (b ∷ bs)) l,
  take-all (length (b ∷ bs)) (b ∷ bs) refl,
)

-- The answer to a call that returned no byte: nothing at the end of a stream, and the empty string
-- for an empty datagram.
abbrev pub end_answer : ℤ → Outcome (List Value)
end_answer socktype =
    if socktype ==ℤ sock_dgram || socktype ==ℤ sock_raw then ok (Value.string [] ∷ []) else ok []

-- When the call returns 0, `recv`, `read` and `recvfrom` of a positive length, without flags,
-- tell the end of a stream, where they answer nothing, from an empty datagram; for `recvfrom` the
-- call is to report no address.
pub recv-end :
    (sp : Ptr) (n : ℕ) (st : St)
    → (st.os st.trace (Call.recv (st.socks sp).fd (to_size (pos (suc n))) (pos 0))).ret ≡ pos 0
    → (st.os st.trace (Call.read (st.socks sp).fd (to_size (pos (suc n))))).ret ≡ pos 0
    → (st.os st.trace (Call.recvfrom (st.socks sp).fd (to_size (pos (suc n))) (pos 0))).ret ≡ pos 0
    → (st.os st.trace (Call.recvfrom (st.socks sp).fd (to_size (pos (suc n))) (pos 0))).len ≡ 0
    → ((recv_lua sp (Arg.given (pos (suc n))) Arg.absent st).0 ≡ end_answer (st.socks sp).socktype)
      × ((read_lua sp (Arg.given (pos (suc n))) st).0 ≡ end_answer (st.socks sp).socktype)
      × ((recvfrom_lua sp (Arg.given (pos (suc n))) Arg.absent st).0
          ≡ end_answer (st.socks sp).socktype)
unfolding recv_lua read_lua recvfrom_lua
recv-end sp n st e f g z = (
  rw (suc_test n, e) (ground arith),
  rw (suc_test n, f) (ground arith),
  rw (suc_test n, g, z) (ground arith),
)

-- The answer to a call that failed with `e`: the third value asks the caller to try again.
abbrev pub failed_answer : String → ℕ → Outcome (List Value)
failed_answer op e =
    if is_again e
    then ok (Value.nil ∷ Value.nil ∷ Value.boolean true ∷ [])
    else ok (Value.nil ∷ Value.failure e op ∷ [])

-- When the call fails, `recv`, `read` and `recvfrom` of a positive length, without flags, ask to
-- be called again exactly for EAGAIN, EWOULDBLOCK and EINTR, and report every other error.
pub recv-failed :
    (sp : Ptr) (n e : ℕ) (st : St)
    → (st.os st.trace (Call.recv (st.socks sp).fd (to_size (pos (suc n))) (pos 0))).ret ≡ minus_one
    → (st.os st.trace (Call.recv (st.socks sp).fd (to_size (pos (suc n))) (pos 0))).errno ≡ some e
    → (st.os st.trace (Call.read (st.socks sp).fd (to_size (pos (suc n))))).ret ≡ minus_one
    → (st.os st.trace (Call.read (st.socks sp).fd (to_size (pos (suc n))))).errno ≡ some e
    → (st.os st.trace (Call.recvfrom (st.socks sp).fd (to_size (pos (suc n))) (pos 0))).ret
      ≡ minus_one
    → (st.os st.trace (Call.recvfrom (st.socks sp).fd (to_size (pos (suc n))) (pos 0))).errno
      ≡ some e
    → ((recv_lua sp (Arg.given (pos (suc n))) Arg.absent st).0 ≡ failed_answer "recv" e)
      × ((read_lua sp (Arg.given (pos (suc n))) st).0 ≡ failed_answer "read" e)
      × ((recvfrom_lua sp (Arg.given (pos (suc n))) Arg.absent st).0 ≡ failed_answer "recvfrom" e)
unfolding recv_lua read_lua recvfrom_lua
recv-failed sp n e st r1 e1 r2 e2 r3 e3 = (
  rw (suc_test n, r1, e1) (ground arith),
  rw (suc_test n, r2, e2) (ground arith),
  rw (suc_test n, r3, e3) (ground arith),
)

-- A length of zero or less is refused with EINVAL by `recv`, `read` and `recvfrom`, and no call
-- is made.
pub recv-invalid :
    (sp : Ptr) (len : ℤ) (st : St)
    → is_positive len ≡ false
    → (recv_lua sp (Arg.given len) Arg.absent st
        ≡ (ok (Value.nil ∷ Value.failure einval "recv_lua" ∷ []), record st { errno = einval }))
      × (read_lua sp (Arg.given len) st
          ≡ (ok (Value.nil ∷ Value.failure einval "read_lua" ∷ []), record st { errno = einval }))
      × (recvfrom_lua sp (Arg.given len) Arg.absent st ≡ (
        ok (Value.nil ∷ Value.failure einval "recvfrom_lua" ∷ []),
        record st { errno = einval },
      ))
unfolding recv_lua read_lua recvfrom_lua
recv-invalid sp len st h = (rw h, rw h, rw h)
