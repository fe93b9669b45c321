-- ===== src/Sendfile/Sent.antt =====
-- What the variants of `sendfile_lua` send and answer.
use lua_llsocket.Prelude.{
  ◌∙◌, Bool-cases, inl, inr, ◌%◌, ℕ, ◌-◌, ◌^◌, ◌≤◌, ◌<◌, ◌==◌, true, false, not, ◌≡◌, refl, List,
  [], ◌∷◌, arith, take, if◌then◌else◌,
}
use lua_llsocket.Prelude.Int.{pos, to_size}
use lua_llsocket.Prelude.Bytes.{rest_size, as_boolean}
use lua_llsocket.Host.Os.{Call}
use lua_llsocket.Host.Lua.{Value, Arg}
use lua_llsocket.Host.{Ptr, St, ok}
use lua_llsocket.Sendfile.{File, checkfile, sendfile_lua, sendfile_lua_portable}

-- The answer of `sendfile` when `n` bytes of `len` have been sent: the number alone if that is all,
-- and with the request to call again otherwise.
abbrev pub progress : ℕ → ℕ → List Value
progress len n =
    if n == len
    then Value.integer (pos n) ∷ []
    else Value.integer (pos n) ∷ Value.nil ∷ Value.boolean true ∷ []

-- Below 4 GiB nothing is lost of the number of bytes left.
rest_zero : (len n : ℕ) → len < 2 ^ 32 → n ≤ len → (rest_size len (pos n) == 0) ≡ (n == len)
rest_zero len n m h = let e : rest_size len (pos n) ≡ len - n = omega arith in rw e (ground arith)

rest_boolean :
    (len n : ℕ) → len < 2 ^ 32 → n ≤ len → as_boolean (rest_size len (pos n)) ≡ not (n == len)
rest_boolean len n m h =
    let e : rest_size len (pos n) ≡ len - n = omega arith in
    let e' : (len - n) % 2 ^ 32 ≡ len - n = omega arith in rw (e, e') (ground arith)

-- The call of `pread` for the first `len` bytes of the file.
abbrev pub read_call : File → ℕ → Call
read_call file len = Call.pread (checkfile file) len (pos 0)

-- Take a length from 1 to 4 GiB less one. If `sendfile` sends `n` bytes from the start of the file,
-- and where there is none `pread` reads `k` bytes, at least one, and `send` sends `n` of them, then
-- the variant of Linux and the portable one answer the same: the number, and whether to call again.
pub sendfile-agree :
    (sp : Ptr) (file : File) (len k n : ℕ) (st : St)
    → 0 < len
    → len < 2 ^ 32
    → 0 < k
    → k ≤ len
    → n ≤ k
    → (st.os st.trace (Call.sendfile (st.socks sp).fd (checkfile file) (pos 0) len)).ret ≡ pos n
    → (st.os st.trace (read_call file len)).ret ≡ pos k
    → (st.os (read_call file len ∷ st.trace) (
        Call.send
          (st.socks sp).fd
          (take k (st.os st.trace (read_call file len)).bytes)
          (pos 0))).ret
      ≡ pos n
    → ((sendfile_lua sp (Arg.given file) (Arg.given (pos len)) Arg.absent st).0
        ≡ ok (progress len n))
      × ((sendfile_lua_portable sp (Arg.given file) (Arg.given (pos len)) Arg.absent st).0
          ≡ ok (progress len n))
unfolding sendfile_lua sendfile_lua_portable
sendfile-agree sp file len k n st p m q l z s r w =
    let e : to_size (pos len) ≡ len = omega arith in
    let e' : to_size (pos k) ≡ k = omega arith in
    let f : (len == 0) ≡ false = ground arith in
    let g : (k == 0) ≡ false = ground arith in
    let h = rest_zero len n m (omega arith) in
    let b = rest_boolean len n m (omega arith) in
    elim (Bool-cases (n == len)) [
      | inl c ↦ (rw (e, f, s, h, c) refl, rw (e, f, r, g, e', w, h, c) refl)
      | inr c ↦ (rw (e, f, s, h, c) refl, rw (e, f, r, g, e', w, h, b, c) refl)
    ]

pub sendfile-end :
    (sp : Ptr) (file : File) (len : ℕ) (st : St)
    → 0 < len
    → len < 2 ^ 32
    → (st.os st.trace (Call.sendfile (st.socks sp).fd (checkfile file) (pos 0) len)).ret ≡ pos 0
    → (st.os st.trace (read_call file len)).ret ≡ pos 0
    → ((sendfile_lua sp (Arg.given file) (Arg.given (pos len)) Arg.absent st).0
        ≡ ok (Value.integer (pos 0) ∷ Value.nil ∷ Value.boolean true ∷ []))
      × ((sendfile_lua_portable sp (Arg.given file) (Arg.given (pos len)) Arg.absent st).0
          ≡ ok (Value.integer (pos 0) ∷ []))
unfolding sendfile_lua sendfile_lua_portable
sendfile-end sp file len st p m s r =
    let e : to_size (pos len) ≡ len = omega arith in
    let f : (len == 0) ≡ false = ground arith in
    let h : (rest_size len (pos 0) == 0) ≡ false = rest_zero len 0 m (omega arith) ∙ ground arith in
    (rw (e, f, s, h) refl, rw (e, f, r) refl)
