-- ===== src/Cmsghdr/Rights.antt =====
-- `rights_lua` and `data_lua` of src/cmsghdr.c.
use lua_llsocket.Prelude.{
  ◌+◌, ◌≤◌, ◌<◌, leb, Bool-cases, inl, inr, if◌then◌else◌, ◌*◌, ◌/◌, ◌%◌, ◌==◌, ◌≡◌, refl, true,
  false, List, [], ◌∷◌, map, arith, length, length-append, take-append, drop-append, sym,
}
use lua_llsocket.Prelude.Int.{ℤ, pos, to_int, to_unsigned, to_unsigned-lt}
use lua_llsocket.Prelude.Bytes.{to_le, length-to_le, from_le-to_le}
use lua_llsocket.Host.{St, Cmd, ok, crashed, raise, pure, ◌>>=◌}
use lua_llsocket.Host.Consts.{sol_socket, scm_rights}
use lua_llsocket.Host.Lua.{Value, lua_minstack}
use lua_llsocket.Cmsghdr.{Cmsghdr, rights_bytes, data_fds, data_lua, rights_lua, lls_cmsghdr_alloc}

pub length-rights_bytes : (fds : List ℤ) → length (rights_bytes fds) ≡ 4 * length fds
unfolding rights_bytes
length-rights_bytes [] = refl
length-rights_bytes (fd ∷ fds) = omega (
  arith,
  length-append (to_le 4 (to_unsigned 32 fd)) (rights_bytes fds),
  length-to_le 4 (to_unsigned 32 fd),
  length-rights_bytes fds,
)

data_fds-rights_bytes :
    (fds : List ℤ)
    → data_fds (length fds) (rights_bytes fds) ≡ map (λ fd. Value.integer (to_int fd)) fds
unfolding data_fds rights_bytes
data_fds-rights_bytes [] = refl
data_fds-rights_bytes (fd ∷ fds) =
    let four = sym (length-to_le 4 (to_unsigned 32 fd)) in
    rw (
      take-append (to_le 4 (to_unsigned 32 fd)) (rights_bytes fds) 4 four,
      drop-append (to_le 4 (to_unsigned 32 fd)) (rights_bytes fds) 4 four,
      from_le-to_le (to_unsigned 32 fd) (to_unsigned-lt fd),
      data_fds-rights_bytes fds,
    )

-- The message that stands on the Lua stack, and `data_lua` of it.
abbrev pub item_of : Value → Cmd Cmsghdr
item_of (Value.cmsghdr level type bytes) = pure (lls_cmsghdr_alloc level type bytes)
item_of other = raise

unfoldable pub data_of : Value → Cmd (List Value)
unfolding data_lua lls_cmsghdr_alloc
data_of v = do item ← item_of v; data_lua item

pub data_lua-rights :
    (fd : ℤ) (fds : List ℤ) (st : St)
    → length (fd ∷ fds) ≤ 19
    → data_lua (lls_cmsghdr_alloc (pos sol_socket) (pos scm_rights) (rights_bytes (fd ∷ fds))) st
      ≡ (ok (map (λ x. Value.integer (to_int x)) (fd ∷ fds)), st)
unfolding data_lua lls_cmsghdr_alloc
data_lua-rights fd fds st h =
    let n : length (rights_bytes (fd ∷ fds)) ≡ 4 * length (fd ∷ fds) =
      length-rights_bytes (fd ∷ fds) in
    let some_bytes : (length (rights_bytes (fd ∷ fds)) == 0) ≡ false = ground (arith, n) in
    let whole : (length (rights_bytes (fd ∷ fds)) % 4 == 0) ≡ true = ground (arith, n) in
    let count : length (rights_bytes (fd ∷ fds)) / 4 ≡ length (fd ∷ fds) = omega (arith, n) in
    let room : leb (length (fd ∷ fds) + 1) lua_minstack ≡ true = ground (arith, h) in
    rw (some_bytes, whole, count, room, data_fds-rights_bytes (fd ∷ fds))

data_lua-many :
    (fd : ℤ) (fds : List ℤ) (st : St)
    → 19 < length (fd ∷ fds)
    → data_lua (lls_cmsghdr_alloc (pos sol_socket) (pos scm_rights) (rights_bytes (fd ∷ fds))) st
      ≡ (crashed, st)
unfolding data_lua lls_cmsghdr_alloc
data_lua-many fd fds st h =
    let n : length (rights_bytes (fd ∷ fds)) ≡ 4 * length (fd ∷ fds) =
      length-rights_bytes (fd ∷ fds) in
    let some_bytes : (length (rights_bytes (fd ∷ fds)) == 0) ≡ false = ground (arith, n) in
    let whole : (length (rights_bytes (fd ∷ fds)) % 4 == 0) ≡ true = ground (arith, n) in
    let count : length (rights_bytes (fd ∷ fds)) / 4 ≡ length (fd ∷ fds) = omega (arith, n) in
    let full : leb (length (fd ∷ fds) + 1) lua_minstack ≡ false = ground (arith, h) in
    rw (some_bytes, whole, count, full) refl

-- Pack descriptors, at least one, into a message with `rights_lua`. At most 19 of them are what
-- `data_lua` answers for that message, each as an `int`, in order. With more, one of the two pushes
-- more values than there are slots on the Lua stack.
pub data-rights :
    (fd : ℤ) (fds : List ℤ) (st : St)
    → (rights_lua (fd ∷ fds) >>= data_of) st ≡ (
      if leb (length (fd ∷ fds)) 19
          then ok (map (λ x. Value.integer (to_int x)) (fd ∷ fds))
          else crashed,
      st,
    )
unfolding data_lua lls_cmsghdr_alloc data_of rights_lua
data-rights fd fds st = elim (Bool-cases (leb (length (fd ∷ fds)) 19)) [
  | inl e ↦
      let h : length (fd ∷ fds) ≤ 19 = ground (arith, e) in
      let room : leb (length (fd ∷ fds)) lua_minstack ≡ true = ground (arith, e) in
      rw (e, room) (data_lua-rights fd fds st h)
  | inr e ↦ elim (Bool-cases (leb (length (fd ∷ fds)) lua_minstack)) [
    | inl room ↦ rw (e, room) (data_lua-many fd fds st (ground (arith, e)))
    | inr full ↦ rw (e, full) refl
  ]
]
