-- ===== src/Life/Answers.antt =====
-- The answers of `closefd` of src/socket.c.
use lua_llsocket.Prelude.{
  ℕ, suc, ◌≡◌, ◌≢◌, Option, none, some, Bool, true, false, List, [], ◌∷◌, if◌then◌else◌, arith,
  Bool-cases, inl, inr, refl,
}
use lua_llsocket.Prelude.Int.{ℤ, pos, ◌==ℤ◌, ==ℤ_iff}
use lua_llsocket.Host.Os.{Call, Reply}
use lua_llsocket.Host.Lua.{Value}
use lua_llsocket.Host.{errno_after, St, ok}
use lua_llsocket.Life.{closefd, closefd_shutdown}

-- What `closefd` is to answer, by the error of the shutdown and that of the close, if there is one.
unfoldable pub closefd_meant : (of_shutdown of_close : Option ℕ) → List Value
closefd_meant none none = Value.boolean true ∷ []
closefd_meant (some e) none = Value.boolean false ∷ Value.failure e "shutdown" ∷ []
closefd_meant none (some f) = Value.boolean false ∷ Value.failure f "close" ∷ []
closefd_meant (some e) (some f) =
    Value.boolean false ∷ Value.caused f "close" (Value.failure e "shutdown") ∷ []

-- The replies to the calls of `closefd`.
abbrev pub shutdown_reply : (fd how : ℤ) → St → Reply
shutdown_reply fd how st = st.os st.trace (Call.shutdown fd how)

abbrev pub close_reply : (fd how : ℤ) → Bool → St → Reply
close_reply fd how b st =
    st.os (if b then Call.shutdown fd how ∷ st.trace else st.trace) (Call.close fd)

-- The error that is reported for a shutdown that fails with the number `e`. Where `close` succeeds,
-- it is not `e` but what `errno` holds once `close` has returned.
abbrev pub shutdown_error : (fd how : ℤ) → Bool → ℕ → St → Option ℕ
shutdown_error fd how false e st = none
shutdown_error fd how true e st =
    if (shutdown_reply fd how st).ret ==ℤ pos 0
    then none
    else some (
        if (close_reply fd how true st).ret ==ℤ pos 0
        then errno_after (close_reply fd how true st) e
        else e)

abbrev pub close_error : (fd how : ℤ) → Bool → ℕ → St → Option ℕ
close_error fd how b f st = if (close_reply fd how b st).ret ==ℤ pos 0 then none else some f

nonzero : {r : ℤ} → (r ==ℤ pos 0) ≡ false → r ≢ pos 0
nonzero n e = cc (n, (==ℤ_iff _ _).1 e)

-- Where a shutdown or a close that fails stores a positive number in `errno`, `closefd`, with or
-- without a shutdown, answers true if both succeed, false with the one error if one of them fails,
-- and false with the error of the close, which has that of the shutdown as its cause, if both do.
-- The number of a failed shutdown is its own only if the close fails as well; otherwise it is the
-- one that the successful close has left in `errno`.
pub closefd-reports :
    (fd how : ℤ) (b : Bool) (e f : ℕ) (st : St)
    → ((shutdown_reply fd how st).ret ≢ pos 0 → (shutdown_reply fd how st).errno ≡ some (suc e))
    → ((close_reply fd how b st).ret ≢ pos 0 → (close_reply fd how b st).errno ≡ some (suc f))
    → (closefd fd how b st).0
      ≡ ok (closefd_meant (shutdown_error fd how b (suc e) st) (close_error fd how b (suc f) st))
unfolding closefd closefd_shutdown closefd_meant
closefd-reports fd how false e f st h g =
    elim (Bool-cases ((close_reply fd how false st).ret ==ℤ pos 0)) [
      | inl c ↦ rw c refl
      | inr c ↦ rw (c, g (nonzero c)) refl
    ]
closefd-reports fd how true e f st h g =
    elim (Bool-cases ((shutdown_reply fd how st).ret ==ℤ pos 0)) [
      | inl s ↦ elim (Bool-cases ((close_reply fd how true st).ret ==ℤ pos 0)) [
        | inl c ↦ ground arith
        | inr c ↦ let x = g (nonzero c) in ground arith
      ]
      | inr s ↦ elim (Bool-cases ((close_reply fd how true st).ret ==ℤ pos 0)) [
        | inl c ↦ let x = h (nonzero s) in ground arith
        | inr c ↦ let x = h (nonzero s) in let y = g (nonzero c) in ground arith
      ]
    ]
