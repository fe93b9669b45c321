-- ===== src/Messages/Receiving.antt =====
-- The control messages that `recvmsg_lua` leaves to be read.
use lua_llsocket.Prelude.{
  ltb, Bool-cases, inl, inr, ℕ, suc, zero, ◌^◌, ◌<◌, ◌≤◌, ◌==◌, true, false, ◌≡◌, refl, Option,
  none, some, List, [], ◌∷◌, take, length, arith, ap, ◌∙◌,
}
use lua_llsocket.Prelude.Int.{pos}
use lua_llsocket.Host.Os.{Call}
use lua_llsocket.Host.Lua.{Value, Arg}
use lua_llsocket.Host.{Ptr, St, ok}
use lua_llsocket.Cmsghdr.{Cmsghdr}
use lua_llsocket.Cmsghdrs.{Layout, Cmsghdrs, shift_lua}
use lua_llsocket.Cmsghdrs.Segments.{IsLayout, Segments, Queue}
use lua_llsocket.Cmsghdrs.Shift.{shift-Queue}
use lua_llsocket.Messages.{
  Message, has_control, has_iov, recv_data, control_of, is_some, filled_control, cut, filled,
  recvmsg_lua,
}

-- Taking messages out of a buffer until there is none, on fuel.
abbrev pub drained : Option Cmsghdr → List Cmsghdr → List Cmsghdr
drained none rest = []
drained (some i) rest = i ∷ rest

unfoldable pub drain : Layout → ℕ → Cmsghdrs → List Cmsghdr
drain layout zero c = []
drain layout (suc fuel) c =
    drained (shift_lua layout c).0 (drain layout fuel (shift_lua layout c).1)

shift-small :
    (layout : Layout) (c : Cmsghdrs) → c.len < 2 ^ 64 → (shift_lua layout c).1.len < 2 ^ 64
unfolding shift_lua
shift-small layout c h = elim (Bool-cases (ltb c.len layout.header)) [
  | inl e ↦ rw e h
  | inr e ↦ rw e (omega arith)
]

-- From a buffer that holds the messages `is`, and less than 2 ^ 64 bytes, one round for each takes
-- them all out, in order.
pub drain-Queue :
    (layout : Layout) (laws : IsLayout layout) (is : List Cmsghdr) (c : Cmsghdrs)
    → Queue layout is c
    → c.len < 2 ^ 64
    → drain layout (length is) c ≡ is
unfolding drain
drain-Queue layout laws [] c q h = refl
drain-Queue layout laws (i ∷ is) c q h =
    let (e, q') = shift-Queue layout laws is i c q h in
    ap (λ o. drained o (drain layout (length is) (shift_lua layout c).1)) e
    ∙ ap (λ r. i ∷ r)
        (drain-Queue layout laws is (shift_lua layout c).1 q' (shift-small layout c h))

has_control-some :
    (lmsg : Message) (c : Cmsghdrs)
    → lmsg.control ≡ some c
    → (c.len == 0) ≡ false
    → has_control lmsg ≡ true
has_control-some lmsg c e z = ap (λ o. is_some (control_of o)) e ∙ rw z refl

-- The call of `recvmsg_lua` without flags.
abbrev pub recv_call : Ptr → Message → St → Call
recv_call sp lmsg st = Call.recvmsg (st.socks sp).fd (recv_data lmsg) (pos 0)

-- Where the call receives `n` bytes, at least one, and leaves control messages `is` in the first `k` bytes of the
-- buffer, in a space that was asked for and is not empty, `recvmsg` answers `n`, and the buffer of the
-- message then holds exactly these messages: taken out one by one, they all come, in order.
pub recvmsg-drains :
    (layout : Layout) (laws : IsLayout layout) (is : List Cmsghdr) (sp : Ptr) (lmsg : Message)
    (c : Cmsghdrs) (n k : ℕ) (bytes : List ℕ) (st : St)
    → 0 < n
    → lmsg.control ≡ some c
    → 0 < k
    → k ≤ c.len
    → c.len < 2 ^ 64
    → c.len ≤ c.bytes
    → (st.os st.trace (recv_call sp lmsg st)).ret ≡ pos n
    → (st.os st.trace (recv_call sp lmsg st)).len ≡ k
    → (st.os st.trace (recv_call sp lmsg st)).addr ≡ bytes
    → length bytes ≡ c.bytes
    → Segments layout is (take k bytes)
    → (lmsg' : Message) × (c' : Cmsghdrs) × ((recvmsg_lua sp lmsg Arg.absent st).0
        ≡ ok (Value.integer (pos n) ∷ [], lmsg'))
      × (lmsg'.control ≡ some c')
      × Queue layout is c'
      × (drain layout (length is) c' ≡ is)
unfolding recvmsg_lua recv_data
recvmsg-drains layout laws is sp lmsg c n k bytes st some_data e p l w m r rk rb lb g =
    let reply = st.os st.trace (recv_call sp lmsg st) in
    let z : (c.len == 0) ≡ false = ground arith in
    let z' : (reply.len == 0) ≡ false = ground arith in
    let f = filled reply lmsg in
    let q : Queue layout is (record c { data' = bytes; len = k }) = record {
      segments = g;
      fits = omega arith;
      sized = lb;
    } in
    (
      record f { control = cut reply.len f.control },
      record c { data' = bytes; len = k },
      rw (r, has_control-some lmsg c e z, z') refl,
      ap (λ o. cut reply.len (filled_control reply.addr o)) e ∙ rw (z, rk, rb) refl,
      q,
      drain-Queue layout laws is (record c { data' = bytes; len = k }) q (omega arith),
    )

-- When bytes arrive and no control message with them, the kernel leaves the buffer and says that
-- nothing is in it; the buffer of the message still holds what it held before.
pub recvmsg-stale :
    (layout : Layout) (is : List Cmsghdr) (sp : Ptr) (lmsg : Message) (c : Cmsghdrs) (n : ℕ)
    (st : St)
    → lmsg.control ≡ some c
    → 0 < c.len
    → Queue layout is c
    → (st.os st.trace (recv_call sp lmsg st)).ret ≡ pos (suc n)
    → (st.os st.trace (recv_call sp lmsg st)).len ≡ 0
    → (st.os st.trace (recv_call sp lmsg st)).addr ≡ c.data'
    → (lmsg' : Message) × (c' : Cmsghdrs) × ((recvmsg_lua sp lmsg Arg.absent st).0
        ≡ ok (Value.integer (pos (suc n)) ∷ [], lmsg'))
      × (lmsg'.control ≡ some c')
      × Queue layout is c'
unfolding recvmsg_lua recv_data
recvmsg-stale layout is sp lmsg c n st e p q r rk rb =
    let reply = st.os st.trace (recv_call sp lmsg st) in
    let z : (c.len == 0) ≡ false = ground arith in
    let y : (suc n == 0) ≡ false = ground arith in
    (
      filled reply lmsg,
      record c { data' = reply.addr },
      elim (Bool-cases (has_iov lmsg)) [
        | inl i ↦ rw (r, has_control-some lmsg c e z, rk, y, i) refl
        | inr i ↦ rw (r, has_control-some lmsg c e z, rk, y, i) refl
      ],
      ap (filled_control reply.addr) e ∙ rw z refl,
      record { segments = rw rb q.segments; fits = q.fits; sized = rw rb q.sized },
    )
