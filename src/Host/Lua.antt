-- ===== src/Host/Lua.antt =====
-- Lua values as the C functions take and push them.
use lua_llsocket.Prelude.{ℕ, String, Bool, true, false, Option, List}
use lua_llsocket.Prelude.Int.{ℤ}

-- `struct addrinfo` with the bytes behind `ai_addr`; the list pointer `ai_next` is not kept.
pub record Addrinfo : Type 0 where
  pub ai_flags : ℤ
  pub ai_family : ℤ
  pub ai_socktype : ℤ
  pub ai_protocol : ℤ
  pub ai_addrlen : ℕ
  pub ai_addr : List ℕ
  pub ai_canonname : Option (List ℕ)

-- A `double` that counts seconds, as C converts it: whether it is greater than 0, its whole part as a
-- `time_t`, and a million times the rest of it as a `suseconds_t`. The rounding of that product is the
-- machine's.
pub record Seconds : Type 0 where
  pub above_zero : Bool
  pub tv_sec : ℤ
  pub tv_usec : ℤ

-- What a function leaves on the Lua stack. `failure e op` is `lua_errno_new(L, e, op)`, and
-- `caused e op v` is the same with the error `v` as its cause; `seconds` is the number
-- `sec + usec / 1000000`. `failure_eai rc op` is `lua_errno_eai_new(L, rc, op)`, and `nameinfo` the
-- table with the fields host and service.
pub data Value : Type 0 where
  nil : Value
  boolean : Bool → Value
  integer : ℤ → Value
  seconds : (sec usec : ℤ) → Value
  string : List ℕ → Value
  failure : ℕ → String → Value
  caused : ℕ → String → Value → Value
  failure_eai : ℤ → String → Value
  socket : ℕ → Value
  socket_pair : ℕ → ℕ → Value
  gcfn : ℕ → Value
  addrinfo : Addrinfo → Value
  addrinfo_list : List Addrinfo → Value
  cmsghdr : ℤ → ℤ → List ℕ → Value
  reference : ℤ → Value
  nameinfo : (host service : List ℕ) → Value

-- An argument as the accessors of lauxhlib see it: past the last one, nil, a value of the type
-- that the accessor wants, or a value that it refuses.
pub data Arg {ℓ} (A : Type ℓ) : Type ℓ where
  absent : Arg A
  null : Arg A
  given : A → Arg A
  wrong : Arg A

-- The slots of the stack that a C function may use without `lua_checkstack`.
abbrev pub lua_minstack : ℕ
lua_minstack = 20

module _ {ℓ} {A : Type ℓ} where
  -- `lua_isnoneornil`.
  abbrev pub is_none_or_nil : Arg A → Bool
  is_none_or_nil Arg.absent = true
  is_none_or_nil Arg.null = true
  is_none_or_nil (Arg.given a) = false
  is_none_or_nil Arg.wrong = false

  -- `lua_gettop(L) < i` for the argument's index `i`.
  abbrev pub is_none : Arg A → Bool
  is_none Arg.absent = true
  is_none Arg.null = false
  is_none (Arg.given a) = false
  is_none Arg.wrong = false
