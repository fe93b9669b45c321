-- ===== src/Descriptors.antt =====
-- The descriptors that the program has open, and who owns them: the view of a state that the
-- functions of src/socket.c which open and close descriptors are held to.
pub mod Moves
pub mod Neutral
pub mod Opening
pub mod Ending
pub mod Passing
pub mod Reach
use lua_llsocket.Prelude.{
  ℕ, ◌+◌, Bool, true, false, not, ◌&&◌, ◌||◌, Option, none, some, List, [], ◌∷◌, if◌then◌else◌, ◌≡◌,
}
use lua_llsocket.Prelude.Int.{ℤ, pos, minus_one, ◌==ℤ◌}
use lua_llsocket.Host.Os.{Call, Reply}
use lua_llsocket.Host.{Ptr, St}

-- The reply `r` to a call opens the descriptor `fd`.
abbrev pub opens_fd : Reply → Call → ℤ → Bool
opens_fd r (Call.socket family socktype protocol) fd = (r.ret ==ℤ fd) && not (fd ==ℤ minus_one)
opens_fd r (Call.dup old) fd = (r.ret ==ℤ fd) && not (fd ==ℤ minus_one)
opens_fd r (Call.accept sfd with_addr) fd = (r.ret ==ℤ fd) && not (fd ==ℤ minus_one)
opens_fd r (Call.accept4 sfd with_addr flags) fd = (r.ret ==ℤ fd) && not (fd ==ℤ minus_one)
opens_fd r (Call.socketpair family socktype protocol) fd =
    (r.ret ==ℤ pos 0) && ((r.num ==ℤ fd) || (r.num2 ==ℤ fd))
opens_fd r c fd = false

-- `fd` has been opened by a call of the trace and not closed since.
abbrev pub is_open : (List Call → Call → Reply) → List Call → ℤ → Bool
is_open os [] fd = false
is_open os (Call.close f ∷ t) fd = not (f ==ℤ fd) && is_open os t fd
is_open os (c ∷ t) fd = opens_fd (os t c) c fd || is_open os t fd

-- The number of calls of `close` on a descriptor that was not open.
abbrev pub strays : (List Call → Call → Reply) → List Call → ℕ
strays os [] = 0
strays os (Call.close f ∷ t) = (if is_open os t f then 0 else 1) + strays os t
strays os (c ∷ t) = strays os t

-- What the code relies on of the kernel, as POSIX states it: a descriptor that a call returns was
-- not open before.
pub record IsKernel (os : List Call → Call → Reply) : Type 0 where
  pub new_fd :
      (t : List Call) (c : Call) (fd : ℤ) → (opens_fd (os t c) c fd && is_open os t fd) ≡ false

-- The descriptor that a socket with a metatable owns.
abbrev pub owns : Bool → ℤ → Option ℤ
owns false fd = none
owns true fd = if fd ==ℤ minus_one then none else some fd

pub record View : Type 0 where
  pub os : List Call → Call → Reply
  pub own : Ptr → Option ℤ
  pub open_fd : ℤ → Bool
  pub next : Ptr
  pub stray : ℕ

abbrev pub view : St → View
view st = record {
  os = st.os;
  own = λ p. owns (st.has_meta p) (st.socks p).fd;
  open_fd = is_open st.os st.trace;
  next = st.fresh;
  stray = strays st.os st.trace;
}
