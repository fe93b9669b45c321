-- ===== src/Cmsghdrs.antt =====
-- src/cmsghdrs.c: control messages in one buffer of bytes.
pub mod Segments
pub mod Buffer
pub mod Push
pub mod Shift
use lua_llsocket.Prelude.{
  ℕ, ◌+◌, ◌-◌, ◌%◌, ◌^◌, ◌==◌, ltb, Option, none, some, List, [], ◌++◌, if◌then◌else◌, length, take,
  drop, replicate,
}
use lua_llsocket.Prelude.Int.{ℤ, ◌==ℤ◌, to_size}
use lua_llsocket.Host.Os.{Call}
use lua_llsocket.Host.Consts.{noref}
use lua_llsocket.Host.{Cmd, pure, ◌>>=◌, ◌>>◌, sys}
use lua_llsocket.Cmsghdr.{Cmsghdr, lls_cmsghdr_alloc}

-- What the system's header gives: the size of `struct cmsghdr`, the macros CMSG_LEN and CMSG_SPACE,
-- the bytes of the structure, and its fields as they are read from the front of a buffer.
pub record Layout : Type 0 where
  pub header : ℕ
  pub cmsg_len : ℕ → ℕ
  pub cmsg_space : ℕ → ℕ
  pub encode : (len : ℕ) (level type : ℤ) → List ℕ
  pub len_of : List ℕ → ℕ
  pub level_of : List ℕ → ℤ
  pub type_of : List ℕ → ℤ

-- `lls_cmsghdrs_t`, with the bytes that `data` points to.
pub record Cmsghdrs : Type 0 where
  pub ref : ℤ
  pub bytes : ℕ
  pub len : ℕ
  pub data' : List ℕ

abbrev pub new_lua : Cmsghdrs
new_lua = record { ref = noref; bytes = 0; len = 0; data' = [] }

-- `memcpy` to an offset of a buffer.
unfoldable pub overwrite : ℕ → List ℕ → List ℕ → List ℕ
overwrite off new old = take off old ++ (new ++ drop (off + length new) old)

-- The first part of `push_lua`: a buffer of `len` bytes, if the current one is smaller.
unfoldable pub grown : ℕ → Cmsghdrs → Cmd Cmsghdrs
grown len cmsg =
    if ltb cmsg.bytes len
    then (do
      sys (Call.unref cmsg.ref)
      r ← sys Call.ref
      pure (record {
        ref = r.ret;
        bytes = len;
        len = cmsg.len;
        data' = overwrite 0 (take cmsg.len cmsg.data') (replicate len 0);
      }))
    else pure cmsg

module _ (layout : Layout) where
  -- The rest of `push_lua`: the header and the data are written behind the last message.
  unfoldable pub written : ℕ → Cmsghdr → Cmsghdrs → Cmsghdrs
  unfolding overwrite
  written len item cmsg = record cmsg {
    len = len;
    data' = overwrite (cmsg.len + layout.cmsg_len 0) (take (to_size item.len) item.bytes) (
        overwrite cmsg.len (layout.encode (layout.cmsg_len (to_size item.len)) item.level item.type)
          cmsg.data');
  }

  unfoldable pub push_lua : Cmsghdrs → Cmsghdr → Cmd Cmsghdrs
  unfolding grown written
  push_lua cmsg item = do
    let len = (cmsg.len + layout.cmsg_space (to_size item.len)) % 2 ^ 64
    cmsg' ← grown len cmsg
    pure (written len item cmsg')

  -- The bytes of the data of the first message.
  abbrev pub first_len : Cmsghdrs → ℕ
  first_len cmsg = (layout.len_of cmsg.data' + 2 ^ 64 - layout.cmsg_len 0) % 2 ^ 64

  -- `CMSG_FIRSTHDR` is NULL if the buffer is shorter than a header.
  unfoldable pub shift_lua : Cmsghdrs → Option Cmsghdr × Cmsghdrs
  unfolding lls_cmsghdr_alloc
  shift_lua cmsg =
      let len = first_len cmsg in
      let rest = (cmsg.len + 2 ^ 64 - layout.cmsg_space len) % 2 ^ 64 in
      if ltb cmsg.len layout.header then (none, cmsg) else (
        some (
            lls_cmsghdr_alloc (layout.level_of cmsg.data') (layout.type_of cmsg.data')
              (take len (drop (layout.cmsg_len 0) cmsg.data'))),
        record cmsg {
          len = rest;
          data' =
              if rest == 0
              then cmsg.data'
              else overwrite 0 (take rest (drop (layout.cmsg_space len) cmsg.data')) cmsg.data';
        },
      )

-- The collection of a buffer.
unfoldable pub gc_lua : Cmsghdrs → Cmd (Unit {0})
gc_lua cmsg = if cmsg.ref ==ℤ noref then pure tt else (do sys (Call.unref cmsg.ref); pure tt)
