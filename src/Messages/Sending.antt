-- ===== src/Messages/Sending.antt =====
-- What `sendmsg_lua` gives to the call, and what it answers.
use lua_llsocket.Prelude.{
  ℕ, ◌-◌, ◌^◌, ◌<◌, ◌≤◌, ◌==◌, ==_iff, false, not, ◌≡◌, refl, some, List, [], ◌∷◌, take, arith,
  Bool-cases, inl, inr, sym, subst,
}
use lua_llsocket.Prelude.Int.{pos}
use lua_llsocket.Prelude.Bytes.{rest_size, as_boolean}
use lua_llsocket.Host.Os.{Call, Msghdr}
use lua_llsocket.Host.Lua.{Value, Arg}
use lua_llsocket.Host.{Ptr, St, ok}
use lua_llsocket.Cmsghdr.{Cmsghdr}
use lua_llsocket.Cmsghdrs.{Layout, Cmsghdrs}
use lua_llsocket.Cmsghdrs.Segments.{Segments, Queue}
use lua_llsocket.Messages.{
  Message, Iovec, control_of, control_len, control_bytes, send_data, sendmsg_lua,
}

-- The call of `sendmsg_lua` without flags.
abbrev pub send_call : Ptr → Message → St → Call
send_call sp lmsg st = Call.sendmsg (st.socks sp).fd (send_data lmsg) (pos 0)

-- Of vectors with `n` bytes, from 1 to 4 GiB less one, `sendmsg` sends `k`: the answer is `k` and
-- whether some are left, and the flags of the message are cleared.
pub sendmsg-partial :
    (sp : Ptr) (lmsg : Message) (v : Iovec) (k : ℕ) (st : St)
    → lmsg.iov ≡ some v
    → 0 < v.nbyte
    → v.setv ≡ v.nbyte
    → v.nbyte < 2 ^ 32
    → k ≤ v.nbyte
    → (st.os st.trace (send_call sp lmsg st)).ret ≡ pos k
    → (sendmsg_lua sp lmsg Arg.absent st).0
      ≡ ok (
        Value.integer (pos k) ∷ Value.nil ∷ Value.boolean (not (k == v.nbyte)) ∷ [],
        record lmsg { flags = pos 0 },
      )
unfolding sendmsg_lua send_data
sendmsg-partial sp lmsg v k st e p s l m r =
    let z : (v.nbyte == 0) ≡ false = ground arith in
    let f : rest_size v.nbyte (pos k) ≡ v.nbyte - k = omega arith in
    let b : as_boolean (v.nbyte - k) ≡ not (k == v.nbyte) = elim (Bool-cases (k == v.nbyte)) [
      | inl t ↦ rw t (ground arith)
      | inr t ↦ rw t (ground arith)
    ] in
    rw (r, e, z, s, f, b) refl

-- The part of a buffer that is sent.
sent-Segments :
    (layout : Layout) (is : List Cmsghdr) (c : Cmsghdrs)
    → Queue layout is c
    → Segments layout is
        (take (control_len (control_of (some c))) (control_bytes (control_of (some c))))
sent-Segments layout is c q = elim (Bool-cases (c.len == 0)) [
  | inl z ↦
      let z' = (==_iff c.len 0).0 z in
      rw z (subst (λ n. Segments layout is (take n c.data')) z' q.segments)
  | inr z ↦ rw z q.segments
]

-- A buffer that holds the messages `is` reaches the kernel as a control buffer whose bytes are
-- these messages, in order, and nothing else.
pub sendmsg-Segments :
    (layout : Layout) (is : List Cmsghdr) (sp : Ptr) (lmsg : Message) (c : Cmsghdrs) (st : St)
    → lmsg.control ≡ some c
    → Queue layout is c
    → (m : Msghdr) × ((sendmsg_lua sp lmsg Arg.absent st).1.trace
        ≡ Call.sendmsg (st.socks sp).fd m (pos 0) ∷ st.trace)
      × Segments layout is (take m.msg_controllen m.msg_control)
unfolding sendmsg_lua send_data
sendmsg-Segments layout is sp lmsg c st e q = (
  send_data lmsg,
  ground arith,
  subst (λ o. Segments layout is (take (control_len (control_of o)) (control_bytes (control_of o))))
      (sym e) (sent-Segments layout is c q),
)
