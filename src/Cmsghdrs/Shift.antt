-- ===== src/Cmsghdrs/Shift.antt =====
-- `shift_lua` of src/cmsghdrs.c on a queue.
use lua_llsocket.Prelude.{
  ℕ, ◌+◌, ◌-◌, ◌%◌, ◌^◌, ◌≤◌, ◌<◌, ◌==◌, ◌≡◌, refl, true, false, none, some, List, [], ◌∷◌, ◌++◌,
  ltb, if◌then◌else◌, length, take, drop, length-append, length-take, take-drop, take-append,
  drop-append, drop-append_more, append_assoc, suc_test, ap, ◌∙◌, sym, subst, arith,
}
use lua_llsocket.Prelude.Int.{pos, to_int}
use lua_llsocket.Cmsghdr.{Cmsghdr, lls_cmsghdr_alloc}
use lua_llsocket.Cmsghdrs.{Layout, Cmsghdrs, overwrite, shift_lua}
use lua_llsocket.Cmsghdrs.Segments.{IsLayout, IsItem, Segment, Segments}
use lua_llsocket.Cmsghdrs.Buffer.{length-overwrite}
use lua_llsocket.Cmsghdrs.Segments.{Queue}

module _ (layout : Layout) (laws : IsLayout layout) where
  -- What the first segment of a buffer says of the buffer `D`, behind which `r` and `T` stand.
  record Front (item : Cmsghdr) (r T D : List ℕ) : Type 0 where
    level : layout.level_of D ≡ item.level
    type : layout.type_of D ≡ item.type
    len : layout.len_of D ≡ layout.cmsg_len (length item.bytes) % 2 ^ 64
    bytes : take (length item.bytes) (drop (layout.cmsg_len 0) D) ≡ item.bytes
    rest : drop (layout.cmsg_space (length item.bytes)) D ≡ r ++ T

  Segment-length :
      (item : Cmsghdr) (s : List ℕ)
      → Segment layout item s
      → length s ≡ layout.cmsg_space (length item.bytes)
  Segment-length item s g =
      let b = length item.bytes in
      let E = layout.encode (layout.cmsg_len b) item.level item.type in
      omega (
        arith,
        ap length g.shape,
        length-append E (g.gap ++ (item.bytes ++ g.pad)),
        length-append g.gap (item.bytes ++ g.pad),
        length-append item.bytes g.pad,
        laws.length_encode (layout.cmsg_len b) item.level item.type,
        g.gap_len,
        g.pad_len,
        laws.len_adds b,
      )

  Segment-Front :
      (item : Cmsghdr) (s r T D : List ℕ)
      → Segment layout item s
      → D ≡ s ++ (r ++ T)
      → Front item r T D
  Segment-Front item s r T D g e =
      let b = length item.bytes in
      let E = layout.encode (layout.cmsg_len b) item.level item.type in
      let R = r ++ T in
      let shape : D ≡ E ++ (g.gap ++ (item.bytes ++ (g.pad ++ R))) =
        e
        ∙ ap (λ q. q ++ R) g.shape
        ∙ append_assoc E (g.gap ++ (item.bytes ++ g.pad)) R
        ∙ ap (λ q. E ++ q) (append_assoc g.gap (item.bytes ++ g.pad) R)
        ∙ ap (λ q. E ++ (g.gap ++ q)) (append_assoc item.bytes g.pad R) in
      let behind : drop (layout.cmsg_len 0) D ≡ item.bytes ++ (g.pad ++ R) =
        ap (drop (layout.cmsg_len 0)) shape
        ∙ drop-append_more E (g.gap ++ (item.bytes ++ (g.pad ++ R))) (layout.cmsg_len 0)
            (length g.gap)
            (omega (arith, g.gap_len, laws.length_encode (layout.cmsg_len b) item.level item.type))
        ∙ drop-append g.gap (item.bytes ++ (g.pad ++ R)) (length g.gap) refl in
      record {
        level = ap layout.level_of shape ∙ laws.reads_level _ _ _ _ ∙ g.is_item.int_level;
        type = ap layout.type_of shape ∙ laws.reads_type _ _ _ _ ∙ g.is_item.int_type;
        len = ap layout.len_of shape ∙ laws.reads_len _ _ _ _;
        bytes = ap (take b) behind ∙ take-append item.bytes (g.pad ++ R) b refl;
        rest =
            ap (drop (layout.cmsg_space b)) e
            ∙ drop-append s R (layout.cmsg_space b) (sym (Segment-length item s g));
      }

  shift-run :
      (item : Cmsghdr) (cmsg : Cmsghdrs) (r T : List ℕ)
      → Front item r T cmsg.data'
      → IsItem item
      → cmsg.len ≡ layout.cmsg_space (length item.bytes) + length r
      → cmsg.len < 2 ^ 64
      → shift_lua layout cmsg ≡ (
        some item,
        record cmsg {
          len = length r;
          data' = if length r == 0 then cmsg.data' else overwrite 0 r cmsg.data';
        },
      )
  unfolding shift_lua lls_cmsghdr_alloc
  shift-run item cmsg r T f it n small =
      let b = length item.bytes in
      let long : ltb cmsg.len layout.header ≡ false =
        ground (arith, n, laws.header_fits, laws.len_adds b, laws.space_fits b) in
      let size : (layout.cmsg_len b % 2 ^ 64 + 2 ^ 64 - layout.cmsg_len 0) % 2 ^ 64 ≡ b =
        omega (arith, n, small, laws.len_adds b, laws.space_fits b) in
      let left : (cmsg.len + 2 ^ 64 - layout.cmsg_space b) % 2 ^ 64 ≡ length r =
        omega (arith, n, small) in
      let int : to_int (pos b) ≡ item.len = rw it.len_of_bytes (ground (arith, it.small)) in
      rw
        (
          long,
          f.len,
          size,
          left,
          f.level,
          f.type,
          f.bytes,
          f.rest,
          take-append r T (length r) refl,
          int,
        )
        refl

  shifted-front : (r X D : List ℕ) → take (length r) (if length r == 0 then D else r ++ X) ≡ r
  shifted-front [] X D = refl
  shifted-front (x ∷ r) X D = rw (suc_test (length r)) (take-append (x ∷ r) X (length (x ∷ r)) refl)

  shifted-length :
      (r D : List ℕ)
      → length r ≤ length D
      → length (if length r == 0 then D else overwrite 0 r D) ≡ length D
  shifted-length [] D h = refl
  shifted-length (x ∷ r) D h =
      rw (suc_test (length r)) (length-overwrite 0 (x ∷ r) D (omega (arith, h)))

  -- Shifting the buffer answers the first message and leaves the others, in their order.
  pub shift-Queue :
      (is : List Cmsghdr) (item : Cmsghdr) (cmsg : Cmsghdrs)
      → Queue layout (item ∷ is) cmsg
      → cmsg.len < 2 ^ 64
      → ((shift_lua layout cmsg).0 ≡ some item) × Queue layout is (shift_lua layout cmsg).1
  unfolding overwrite
  shift-Queue is item cmsg q small =
      let (s, r, g, rest, e) = q.segments in
      let D = cmsg.data' in
      let T = drop cmsg.len D in
      let shape : D ≡ s ++ (r ++ T) =
        sym (take-drop cmsg.len D) ∙ ap (λ p. p ++ T) e ∙ append_assoc s r T in
      let n : cmsg.len ≡ layout.cmsg_space (length item.bytes) + length r = omega (
        arith,
        length-take cmsg.len D (omega (arith, q.fits, q.sized)),
        ap length e,
        length-append s r,
        Segment-length item s g,
      ) in
      rw (shift-run item cmsg r T (Segment-Front item s r T D g shape) g.is_item n small) (
        refl,
        record {
          segments =
              subst (Segments layout is) (sym (shifted-front r (drop (0 + length r) D) D)) rest;
          fits = omega (arith, n, q.fits);
          sized = shifted-length r D (omega (arith, n, q.fits, q.sized)) ∙ q.sized;
        },
      )

  -- Shifting an empty buffer answers no message.
  pub shift-empty : (cmsg : Cmsghdrs) → Queue layout [] cmsg → shift_lua layout cmsg ≡ (none, cmsg)
  unfolding shift_lua
  shift-empty cmsg q =
      let e : cmsg.len ≡ 0 =
        sym (length-take cmsg.len cmsg.data' (omega (arith, q.fits, q.sized)))
        ∙ ap length q.segments in
      let short : ltb cmsg.len layout.header ≡ true = ground (arith, e, laws.has_header) in
      rw short refl
