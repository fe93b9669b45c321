-- ===== src/Cmsghdrs/Push.antt =====
-- `push_lua` of src/cmsghdrs.c on a queue.
use lua_llsocket.Prelude.{
  ℕ, ◌+◌, ◌-◌, ◌%◌, ◌^◌, ◌≤◌, ◌<◌, ◌≡◌, refl, List, [], ◌∷◌, ◌++◌, ltb, length, take, drop,
  replicate, length-append, length-take, length-drop, take-append, length-replicate, take-all, ap,
  ◌∙◌, sym, subst, arith, Bool-cases, inl, inr,
}
use lua_llsocket.Prelude.Int.{to_size}
use lua_llsocket.Host.{St, ok, bind_ok, pure}
use lua_llsocket.Cmsghdr.{Cmsghdr}
use lua_llsocket.Cmsghdrs.{Layout, Cmsghdrs, overwrite, grown, written, push_lua}
use lua_llsocket.Cmsghdrs.Segments.{IsLayout, IsItem, Segments, Segments-append}
use lua_llsocket.Cmsghdrs.Buffer.{data-written, length-overwrite}
use lua_llsocket.Cmsghdrs.Segments.{Queue}

-- What the buffer is before a message of the total length `len` is written.
record Grown (len : ℕ) (cmsg c' : Cmsghdrs) : Type 0 where
  same_len : c'.len ≡ cmsg.len
  same_front : take cmsg.len c'.data' ≡ take cmsg.len cmsg.data'
  sized : length c'.data' ≡ c'.bytes
  room : len ≤ c'.bytes

grown-Grown :
    (len : ℕ) (cmsg : Cmsghdrs) (st : St)
    → cmsg.len ≤ cmsg.bytes
    → length cmsg.data' ≡ cmsg.bytes
    → cmsg.len ≤ len
    → (c' : Cmsghdrs) × ((grown len cmsg st).0 ≡ ok c') × Grown len cmsg c'
unfolding grown overwrite
grown-Grown len cmsg st f s l = elim (Bool-cases (ltb cmsg.bytes len)) [
  | inl e ↦
      let front : length (take cmsg.len cmsg.data') ≡ cmsg.len =
        length-take cmsg.len cmsg.data' (omega arith) in
      rw e (
        _,
        refl,
        record {
          same_len = refl;
          same_front = take-append (take cmsg.len cmsg.data') _ cmsg.len (sym front);
          sized = omega (
            arith,
            front,
            length-replicate {A = ℕ} len 0,
            length-append (take cmsg.len cmsg.data')
                (drop (0 + length (take cmsg.len cmsg.data')) (replicate len 0)),
            length-drop (0 + length (take cmsg.len cmsg.data')) (replicate {A = ℕ} len 0),
          );
          room = omega arith;
        },
      )
  | inr e ↦
      rw e
        (cmsg, refl, record { same_len = refl; same_front = refl; sized = s; room = ground arith })
]

module _ (layout : Layout) (laws : IsLayout layout) where
  -- The message that `push_lua` has written.
  written-Segments :
      (is : List Cmsghdr) (item : Cmsghdr) (cmsg : Cmsghdrs)
      → Segments layout is (take cmsg.len cmsg.data')
      → IsItem item
      → cmsg.len + layout.cmsg_space (length item.bytes) ≤ length cmsg.data'
      → Segments layout (is ++ (item ∷ [])) (
          take
            (cmsg.len + layout.cmsg_space (length item.bytes))
            (written layout (cmsg.len + layout.cmsg_space (length item.bytes)) item cmsg).data')
  unfolding written
  written-Segments is item cmsg segs it room =
      let D = cmsg.data' in
      let n = cmsg.len in
      let h = layout.header in
      let b = length item.bytes in
      let g = layout.cmsg_len 0 - h in
      let p = layout.cmsg_space b - layout.cmsg_len b in
      let E = layout.encode (layout.cmsg_len b) item.level item.type in
      let size : to_size item.len ≡ b = rw it.len_of_bytes (omega (arith, it.small)) in
      let whole : take b item.bytes ≡ item.bytes = take-all b item.bytes refl in
      let l0 : layout.cmsg_len 0 ≡ h + g = omega (arith, laws.header_fits) in
      let sp : layout.cmsg_space b ≡ h + g + b + p =
        omega (arith, laws.header_fits, laws.len_adds b, laws.space_fits b) in
      let gap = take g (drop (n + h) D) in
      let pad = take p (drop (g + b) (drop (n + h) D)) in
      let d =
        data-written D E item.bytes n h g b p (omega (arith, sp)) (laws.length_encode _ _ _) refl in
      let room' : h + g ≤ h + (length (drop (n + h) D)) =
        omega (arith, sp, length-drop (n + h) D) in
      let gl : length gap ≡ g = length-take g (drop (n + h) D) (omega arith) in
      let pl : length pad ≡ p =
        length-take p (drop (g + b) (drop (n + h) D))
          (omega (arith, sp, length-drop (g + b) (drop (n + h) D), length-drop (n + h) D)) in
      rw (size, whole, l0, sp)
        (subst (Segments layout (is ++ (item ∷ []))) (sym d) (
          Segments-append layout is item (take n D) _ segs (record {
            gap = gap;
            pad = pad;
            shape = refl;
            gap_len = omega (arith, gl, l0);
            pad_len = omega (arith, pl, sp, l0, laws.len_adds b);
            is_item = it;
          })))

  written-length :
      (len : ℕ) (item : Cmsghdr) (cmsg : Cmsghdrs)
      → IsItem item
      → cmsg.len + layout.cmsg_space (length item.bytes) ≤ length cmsg.data'
      → length (written layout len item cmsg).data' ≡ length cmsg.data'
  unfolding written
  written-length len item cmsg it room =
      let b = length item.bytes in
      let size : to_size item.len ≡ b = rw it.len_of_bytes (omega (arith, it.small)) in
      let whole : take b item.bytes ≡ item.bytes = take-all b item.bytes refl in
      let E = layout.encode (layout.cmsg_len b) item.level item.type in
      let inner : length (overwrite cmsg.len E cmsg.data') ≡ length cmsg.data' =
        length-overwrite cmsg.len E cmsg.data' (
          omega (
            arith,
            laws.length_encode (layout.cmsg_len b) item.level item.type,
            laws.header_fits,
            laws.len_adds b,
            laws.space_fits b,
          )) in
      rw (size, whole)
        (length-overwrite (cmsg.len + layout.cmsg_len 0) item.bytes
            (overwrite cmsg.len E cmsg.data')
            (omega (arith, inner, laws.len_adds b, laws.space_fits b))
          ∙ inner)

  push-run :
      (item : Cmsghdr) (cmsg c1 : Cmsghdrs) (len : ℕ) (st : St)
      → (cmsg.len + layout.cmsg_space (to_size item.len)) % 2 ^ 64 ≡ len
      → (grown len cmsg st).0 ≡ ok c1
      → (push_lua layout cmsg item st).0 ≡ ok (written layout len item c1)
  unfolding push_lua
  push-run item cmsg c1 len st fit r =
      rw fit (ap (λ q. q.0) (bind_ok (grown len cmsg) (λ c. pure (written layout len item c)) st r))

  -- Pushing a message onto the buffer puts it behind the others, whether the buffer grows or not,
  -- as long as the buffer stays below 2 ^ 64 bytes.
  pub push-Queue :
      (is : List Cmsghdr) (item : Cmsghdr) (cmsg : Cmsghdrs) (st : St)
      → Queue layout is cmsg
      → IsItem item
      → cmsg.len + layout.cmsg_space (length item.bytes) < 2 ^ 64
      → (c' : Cmsghdrs) × ((push_lua layout cmsg item st).0 ≡ ok c')
        × Queue layout (is ++ (item ∷ [])) c'
  unfolding written
  push-Queue is item cmsg st q it small =
      let size : to_size item.len ≡ length item.bytes =
        rw it.len_of_bytes (omega (arith, it.small)) in
      let len = cmsg.len + layout.cmsg_space (length item.bytes) in
      let fit : len % 2 ^ 64 ≡ len = omega (arith, small) in
      let (c1, r, g) = grown-Grown len cmsg st q.fits q.sized (omega arith) in
      let c1_room : c1.len + layout.cmsg_space (length item.bytes) ≤ length c1.data' =
        omega (arith, g.same_len, g.sized, g.room) in
      let front : take c1.len c1.data' ≡ take cmsg.len cmsg.data' = rw g.same_len (g.same_front) in
      let segs =
        written-Segments is item c1 (subst (Segments layout is) (sym front) q.segments) it
          c1_room in
      (
        written layout len item c1,
        push-run item cmsg c1 len st
            (ap (λ k. (cmsg.len + layout.cmsg_space k) % 2 ^ 64) size ∙ fit) r,
        record {
          segments =
              subst
                (λ n. Segments layout (is ++ (item ∷ [])) (
                  take (n + layout.cmsg_space (length item.bytes))
                    (written layout (n + layout.cmsg_space (length item.bytes)) item c1).data'))
                g.same_len segs;
          fits = g.room;
          sized = written-length len item c1 it c1_room ∙ g.sized;
        },
      )
