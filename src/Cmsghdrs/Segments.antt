-- ===== src/Cmsghdrs/Segments.antt =====
-- The messages that stand in a buffer, one segment of bytes each.
use lua_llsocket.Prelude.{
  ℕ, ◌+◌, ◌%◌, ◌^◌, ◌≤◌, ◌<◌, ◌≡◌, refl, List, [], ◌∷◌, ◌++◌, length, take, append_assoc,
  append_nil, sym,
}
use lua_llsocket.Prelude.Int.{ℤ, pos, to_int}
use lua_llsocket.Cmsghdr.{Cmsghdr}
use lua_llsocket.Cmsghdrs.{Layout, Cmsghdrs}

-- What the code relies on of the system's header: cmsg(3) documents the macros, and a field is read
-- as it was written, cut to its width.
pub record IsLayout (layout : Layout) : Type 0 where
  pub has_header : 0 < layout.header
  pub length_encode : (l : ℕ) (v t : ℤ) → length (layout.encode l v t) ≡ layout.header
  pub header_fits : layout.header ≤ layout.cmsg_len 0
  pub len_adds : (n : ℕ) → layout.cmsg_len n ≡ layout.cmsg_len 0 + n
  pub space_fits : (n : ℕ) → layout.cmsg_len n ≤ layout.cmsg_space n
  pub reads_len :
      (l : ℕ) (v t : ℤ) (r : List ℕ) → layout.len_of (layout.encode l v t ++ r) ≡ l % 2 ^ 64
  pub reads_level :
      (l : ℕ) (v t : ℤ) (r : List ℕ) → layout.level_of (layout.encode l v t ++ r) ≡ to_int v
  pub reads_type :
      (l : ℕ) (v t : ℤ) (r : List ℕ) → layout.type_of (layout.encode l v t ++ r) ≡ to_int t

-- A message as the constructors make it, with less than 2 GiB of data.
pub record IsItem (item : Cmsghdr) : Type 0 where
  pub len_of_bytes : item.len ≡ pos (length item.bytes)
  pub small : length item.bytes < 2 ^ 31
  pub int_level : to_int item.level ≡ item.level
  pub int_type : to_int item.type ≡ item.type

module _ (layout : Layout) where
  -- The bytes `s` are the header of `item`, its data behind some padding, and more padding. What
  -- the padding holds does not matter.
  pub record Segment (item : Cmsghdr) (s : List ℕ) : Type 0 where
    pub gap : List ℕ
    pub pad : List ℕ
    pub shape :
        s
        ≡ layout.encode (layout.cmsg_len (length item.bytes)) item.level item.type
          ++ (gap ++ (item.bytes ++ pad))
    pub gap_len : layout.header + length gap ≡ layout.cmsg_len 0
    pub pad_len :
        layout.cmsg_len (length item.bytes) + length pad ≡ layout.cmsg_space (length item.bytes)
    pub is_item : IsItem item

  abbrev pub Segments : List Cmsghdr → List ℕ → Type 0
  Segments [] bs = bs ≡ []
  Segments (i ∷ is) bs = (s : List ℕ) × (r : List ℕ) × Segment i s × Segments is r × (bs ≡ s ++ r)

  pub Segments-append :
      (is : List Cmsghdr) (i : Cmsghdr) (bs s : List ℕ)
      → Segments is bs
      → Segment i s
      → Segments (is ++ (i ∷ [])) (bs ++ s)
  Segments-append [] i bs s e g = (s, [], g, refl, rw e (sym (append_nil s)))
  Segments-append (j ∷ is) i bs s (s', r, g', rest, e) g =
      (s', r ++ s, g', Segments-append is i r s rest g, rw e (append_assoc s' r s))

  -- The buffer holds the messages `is`, in order, and nothing else.
  pub record Queue (is : List Cmsghdr) (cmsg : Cmsghdrs) : Type 0 where
    pub segments : Segments is (take cmsg.len cmsg.data')
    pub fits : cmsg.len ≤ cmsg.bytes
    pub sized : length cmsg.data' ≡ cmsg.bytes
