-- ===== src/Io/Send.antt =====
-- What the sending functions answer.
use lua_llsocket.Prelude.{
  ℕ, suc, ◌+◌, ◌*◌, ◌^◌, ◌≤◌, ◌<◌, ◌≡◌, refl, false, List, [], ◌∷◌, ltb, suc_test, arith, length,
}
use lua_llsocket.Prelude.Int.{pos}
use lua_llsocket.Prelude.Bytes.{rest_size, as_boolean}
use lua_llsocket.Host.Os.{Call}
use lua_llsocket.Host.Lua.{Value, Arg, Addrinfo}
use lua_llsocket.Host.Consts.{einval}
use lua_llsocket.Host.{Ptr, St, Outcome, ok}
use lua_llsocket.Io.{send_lua, sendto_lua, write_lua}

-- Of fewer than 4 GiB, the flag says whether bytes are left.
as_boolean-rest :
    (n len : ℕ) → n ≤ len → len < 2 ^ 32 → as_boolean (rest_size len (pos n)) ≡ ltb n len
as_boolean-rest n len h b = ground arith

-- An empty buffer is refused with EINVAL by `send`, `sendto` and `write` without flags, and no
-- call is made.
pub send-empty :
    (sp : Ptr) (info : Addrinfo) (st : St)
    → (send_lua sp (Arg.given []) Arg.absent st
        ≡ (ok (Value.nil ∷ Value.failure einval "send_lua" ∷ []), record st { errno = einval }))
      × (sendto_lua sp (Arg.given []) (Arg.given info) Arg.absent st
          ≡ (ok (Value.nil ∷ Value.failure einval "sendto_lua" ∷ []), record st { errno = einval }))
      × (write_lua sp (Arg.given []) st
          ≡ (ok (Value.nil ∷ Value.failure einval "write_lua" ∷ []), record st { errno = einval }))
unfolding send_lua sendto_lua write_lua
send-empty sp info st = (refl, refl, refl)

-- The answer when `n` of `len` bytes were taken.
abbrev pub taken : ℕ → ℕ → Outcome (List Value)
taken n len = ok (Value.integer (pos n) ∷ Value.nil ∷ Value.boolean (ltb n len) ∷ [])

-- `send`, `sendto` and `write`, without flags, of a buffer that is not empty and below 4 GiB, of
-- which the call takes `n` bytes: the number is answered, and the third value says whether bytes
-- are left to send.
pub send-partial :
    (sp : Ptr) (b : ℕ) (bs : List ℕ) (info : Addrinfo) (n : ℕ) (st : St)
    → n ≤ length (b ∷ bs)
    → length (b ∷ bs) < 2 ^ 32
    → (st.os st.trace (Call.send (st.socks sp).fd (b ∷ bs) (pos 0))).ret ≡ pos n
    → (st.os st.trace
        (Call.sendto (st.socks sp).fd (b ∷ bs) (pos 0) info.ai_addr info.ai_addrlen)).ret
      ≡ pos n
    → (st.os st.trace (Call.write (st.socks sp).fd (b ∷ bs))).ret ≡ pos n
    → ((send_lua sp (Arg.given (b ∷ bs)) Arg.absent st).0 ≡ taken n (length (b ∷ bs)))
      × ((sendto_lua sp (Arg.given (b ∷ bs)) (Arg.given info) Arg.absent st).0
          ≡ taken n (length (b ∷ bs)))
      × ((write_lua sp (Arg.given (b ∷ bs)) st).0 ≡ taken n (length (b ∷ bs)))
unfolding send_lua sendto_lua write_lua
send-partial sp b bs info n st h l es et ew = (
  rw (suc_test (length bs), es, as_boolean-rest n (length (b ∷ bs)) h l),
  rw (suc_test (length bs), et, as_boolean-rest n (length (b ∷ bs)) h l),
  rw (suc_test (length bs), ew, as_boolean-rest n (length (b ∷ bs)) h l),
)

-- `write` of a buffer of which the call takes all but a positive multiple of 4 GiB: the third
-- value says that nothing is left.
pub send-wraps :
    (sp : Ptr) (b : ℕ) (bs : List ℕ) (n k : ℕ) (st : St)
    → length (b ∷ bs) ≡ n + suc k * 2 ^ 32
    → length (b ∷ bs) < 2 ^ 64
    → (st.os st.trace (Call.write (st.socks sp).fd (b ∷ bs))).ret ≡ pos n
    → (write_lua sp (Arg.given (b ∷ bs)) st).0
      ≡ ok (Value.integer (pos n) ∷ Value.nil ∷ Value.boolean false ∷ [])
unfolding write_lua
send-wraps sp b bs n k st h l e =
    let wraps : as_boolean (rest_size (length (b ∷ bs)) (pos n)) ≡ false = ground arith in
    rw (suc_test (length bs), e, wraps)
