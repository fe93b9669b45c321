-- ===== src/Messages/Passing.antt =====
-- Descriptors on their way from one program to another: `rights`, `push` and `sendmsg` on one side,
-- `recvmsg`, `shift` and `data` on the other.
use lua_llsocket.Prelude.{
  ℕ, ◌*◌, ◌^◌, ◌<◌, ◌≤◌, leb, true, ◌≡◌, refl, ap, ◌∙◌, sym, subst, Option, none, some, List, [],
  ◌∷◌, map, take, length, arith,
}
use lua_llsocket.Prelude.Int.{ℤ, pos, to_int}
use lua_llsocket.Host.Os.{Call}
use lua_llsocket.Host.Lua.{Value, Arg, lua_minstack}
use lua_llsocket.Host.Consts.{sol_socket, scm_rights}
use lua_llsocket.Host.{
  Ptr, St, Cmd, Outcome, ok, raised, out_of_fuel, crashed, pure, ◌>>=◌, bind_ok,
}
use lua_llsocket.Cmsghdr.{Cmsghdr, lls_cmsghdr_alloc, rights_bytes, data_lua, rights_lua}
use lua_llsocket.Cmsghdr.Rights.{length-rights_bytes, data_lua-rights, item_of}
use lua_llsocket.Cmsghdrs.{Layout, Cmsghdrs, push_lua, shift_lua, new_lua}
use lua_llsocket.Cmsghdrs.Segments.{IsLayout, IsItem, Segments, Queue}
use lua_llsocket.Cmsghdrs.Push.{push-Queue}
use lua_llsocket.Messages.{Message, sendmsg_lua, recvmsg_lua}
use lua_llsocket.Messages.Sending.{sendmsg-Segments}
use lua_llsocket.Messages.Receiving.{recv_call, drain, drained, recvmsg-drains}

-- The message that `rights_lua` makes of some descriptors.
abbrev pub rights_item : List ℤ → Cmsghdr
rights_item fds = lls_cmsghdr_alloc (pos sol_socket) (pos scm_rights) (rights_bytes fds)

abbrev pub send_pushed : Ptr → Cmsghdrs → Cmd (List Value)
send_pushed sp cmsgs = do
  (vs, mh) ←
      sendmsg_lua sp (record { name = none; iov = none; control = some cmsgs; flags = pos 0 })
        Arg.absent
  pure vs

abbrev send_item : Layout → Ptr → Cmsghdr → Cmd (List Value)
send_item layout sp item = do cmsgs ← push_lua layout new_lua item; send_pushed sp cmsgs

-- `sock:sendmsg(mh)` with `mh:control(cmsghdrs.new())` and `cmsgs:push(cmsghdr.rights(...))`.
abbrev pub send_rights : Layout → Ptr → List ℤ → Cmd (List Value)
send_rights layout sp fds = do v ← rights_lua fds; item ← item_of v; send_item layout sp item

-- The control bytes of the last call.
abbrev pub sent_control : List Call → List ℕ
sent_control (Call.sendmsg fd m flags ∷ t) = take m.msg_controllen m.msg_control
sent_control t = []

-- `sock:recvmsg(mh)`, and `data` of the message that `shift` takes out of the buffer.
abbrev pub data_of_first : Option Cmsghdr → Cmd (List Value)
data_of_first none = pure []
data_of_first (some item) = data_lua item

abbrev pub first_data : Layout → Option Cmsghdrs → Cmd (List Value)
first_data layout none = pure []
first_data layout (some cmsgs) = data_of_first (shift_lua layout cmsgs).0

abbrev pub recv_rights : Layout → Ptr → Message → Cmd (List Value)
recv_rights layout sp lmsg = do
  (vs, mh) ← recvmsg_lua sp lmsg Arg.absent
  first_data layout mh.control

rights_item-IsItem : (fds : List ℤ) → 4 * length fds < 2 ^ 31 → IsItem (rights_item fds)
unfolding lls_cmsghdr_alloc
rights_item-IsItem fds h =
    let n = length-rights_bytes fds in
    record {
      len_of_bytes = ground (arith, h, n);
      small = omega (arith, h, n);
      int_level = refl;
      int_type = refl;
    }

new_lua-Queue : (layout : Layout) → Queue layout [] new_lua
new_lua-Queue layout = record { segments = refl; fits = omega arith; sized = refl }

abbrev first : List Cmsghdr → Option Cmsghdr
first [] = none
first (i ∷ is) = some i

-- A pure end leaves the state.
bind_pure-state :
    {A B : Type 0} (m : Cmd A) (f : A → B) (st : St) → ((m >>= λ a. pure (f a)) st).1 ≡ (m st).1
bind_pure-state {A} {B} m f st = after (m st).0 (m st).1
  where
    after : (o : Outcome A) (st : St) → (◌>>=◌ (λ s. (o, s)) (λ a. pure (f a)) st).1 ≡ st
    after (ok a) st = refl
    after raised st = refl
    after out_of_fuel st = refl
    after crashed st = refl

-- What is sent is the message with the descriptors, and nothing else.
send_rights-Segments :
    (layout : Layout) (laws : IsLayout layout) (sp : Ptr) (fd : ℤ) (fds : List ℤ) (st : St)
    → length (fd ∷ fds) ≤ 19
    → layout.cmsg_space (length (rights_bytes (fd ∷ fds))) < 2 ^ 64
    → Segments layout
        (rights_item (fd ∷ fds) ∷ [])
        (sent_control (send_rights layout sp (fd ∷ fds) st).1.trace)
unfolding lls_cmsghdr_alloc rights_lua
send_rights-Segments layout laws sp fd fds st h s =
    let (c, e, q) =
      push-Queue layout laws [] (rights_item (fd ∷ fds)) new_lua st (new_lua-Queue layout)
        (rights_item-IsItem (fd ∷ fds) (ground (arith, h))) (omega (arith, s)) in
    let mh : Message = record { name = none; iov = none; control = some c; flags = pos 0 } in
    let st1 = (push_lua layout new_lua (rights_item (fd ∷ fds)) st).1 in
    let (m, t, g) = sendmsg-Segments layout (rights_item (fd ∷ fds) ∷ []) sp mh c st1 refl q in
    let room : leb (length (fd ∷ fds)) lua_minstack ≡ true = ground (arith, h) in
    let run : (send_rights layout sp (fd ∷ fds) st).1 ≡ (sendmsg_lua sp mh Arg.absent st1).1 =
      rw room (
        ap (λ r. r.1)
          (bind_ok (push_lua layout new_lua (rights_item (fd ∷ fds))) (send_pushed sp) st e)
        ∙ bind_pure-state (sendmsg_lua sp mh Arg.absent) (λ p. p.0) st1) in
    subst (λ u. Segments layout (rights_item (fd ∷ fds) ∷ []) (sent_control u.trace)) (sym run)
      (subst (λ u. Segments layout (rights_item (fd ∷ fds) ∷ []) (sent_control u)) (sym t) g)

drained-some : (o : Option Cmsghdr) (i : Cmsghdr) → drained o [] ≡ i ∷ [] → o ≡ some i
drained-some none i e = ap first e
drained-some (some j) i e = ap first e

pub rights-passed :
    (layout : Layout) (laws : IsLayout layout) (sp : Ptr) (fd : ℤ) (fds : List ℤ) (st : St)
    (sp' : Ptr) (fd' : ℤ) (fds' : List ℤ) (lmsg : Message) (c : Cmsghdrs) (n k : ℕ) (bytes : List ℕ)
    (st' : St)
    → length (fd ∷ fds) ≤ 19
    → length (fd' ∷ fds') ≤ 19
    → layout.cmsg_space (length (rights_bytes (fd ∷ fds))) < 2 ^ 64
    → 0 < n
    → lmsg.control ≡ some c
    → 0 < k
    → k ≤ c.len
    → c.len < 2 ^ 64
    → c.len ≤ c.bytes
    → (st'.os st'.trace (recv_call sp' lmsg st')).ret ≡ pos n
    → (st'.os st'.trace (recv_call sp' lmsg st')).len ≡ k
    → (st'.os st'.trace (recv_call sp' lmsg st')).addr ≡ bytes
    → length bytes ≡ c.bytes
    → (Segments layout
          (rights_item (fd ∷ fds) ∷ [])
          (sent_control (send_rights layout sp (fd ∷ fds) st).1.trace)
        → Segments layout (rights_item (fd' ∷ fds') ∷ []) (take k bytes))
    → (recv_rights layout sp' lmsg st').0 ≡ ok (map (λ x. Value.integer (to_int x)) (fd' ∷ fds'))
unfolding drain
rights-passed layout laws sp fd fds st sp' fd' fds' lmsg c n k bytes st' h h' s some_data e p l w m
      r rk rb lb kernel =
    let g = kernel (send_rights-Segments layout laws sp fd fds st h s) in
    let (mh, c', run, has, q, d) =
      recvmsg-drains layout laws (rights_item (fd' ∷ fds') ∷ []) sp' lmsg c n k bytes st' some_data
        e p l w m r rk rb lb g in
    let st2 = (recvmsg_lua sp' lmsg Arg.absent st').1 in
    let shifted = drained-some (shift_lua layout c').0 (rights_item (fd' ∷ fds')) d in
    ap (λ o. o.0)
      (bind_ok (recvmsg_lua sp' lmsg Arg.absent) (λ p. first_data layout p.1.control) st' run)
    ∙ ap (λ o. (first_data layout o st2).0) has
    ∙ ap (λ o. (data_of_first o st2).0) shifted
    ∙ ap (λ o. o.0) (data_lua-rights fd' fds' st2 h')
