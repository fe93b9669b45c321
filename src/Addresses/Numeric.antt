-- ===== src/Addresses/Numeric.antt =====
-- Numeric addresses as arguments: src/llsocket.h, `lls_checksockaddr` to `lls_opt6inaddr`.
use lua_llsocket.Prelude.{ℕ, Option, none, some, List, [], ◌∷◌, if◌then◌else◌, take}
use lua_llsocket.Prelude.Int.{ℤ, pos, ◌==ℤ◌}
use lua_llsocket.Host.Os.{Call}
use lua_llsocket.Host.Lua.{Arg, Addrinfo, is_none_or_nil}
use lua_llsocket.Host.Consts.{af_inet, af_inet6}
use lua_llsocket.Host.{Cmd, pure, ◌>>=◌, ◌>>◌, sys, check, crashed}
use lua_llsocket.Mcast.{sin_addr, sin6_addr}
use lua_llsocket.Addresses.{lls_getaddrinfo}

-- `AI_NUMERICHOST`.
abbrev pub ai_numerichost : ℤ
ai_numerichost = pos 4

-- The first address of the list is read without a test; the list is freed.
abbrev pub first_bytes : (Addrinfo → List ℕ) → List Addrinfo → Cmd (ℤ × Option (List ℕ))
first_bytes read [] = λ st. (crashed, st)
first_bytes read (ai ∷ rest) = do sys Call.freeaddrinfo; pure (pos 0, some (read ai))

-- The return value, and the bytes that are stored if there are some.
abbrev pub resolve_numeric :
    (Addrinfo → List ℕ) → Arg (List ℕ) → (family socktype : ℤ) → Cmd (ℤ × Option (List ℕ))
resolve_numeric read arg family socktype = do
  str ← check arg
  r ← sys (lls_getaddrinfo (some str) none family socktype (pos 0) ai_numerichost)
  if r.ret ==ℤ pos 0 then first_bytes read r.infos else pure (r.ret, none)

unfoldable pub lls_checksockaddr : Arg (List ℕ) → (family socktype : ℤ) → Cmd (ℤ × Option (List ℕ))
lls_checksockaddr = resolve_numeric λ ai. take ai.ai_addrlen ai.ai_addr

unfoldable pub lls_check4inaddr : Arg (List ℕ) → (socktype : ℤ) → Cmd (ℤ × Option (List ℕ))
lls_check4inaddr arg socktype = resolve_numeric (λ ai. sin_addr ai.ai_addr) arg af_inet socktype

unfoldable pub lls_opt4inaddr : Arg (List ℕ) → (socktype : ℤ) → List ℕ → Cmd (ℤ × Option (List ℕ))
unfolding lls_check4inaddr
lls_opt4inaddr arg socktype def =
    if is_none_or_nil arg then pure (pos 0, some def) else lls_check4inaddr arg socktype

unfoldable pub lls_check6inaddr : Arg (List ℕ) → (socktype : ℤ) → Cmd (ℤ × Option (List ℕ))
lls_check6inaddr arg socktype = resolve_numeric (λ ai. sin6_addr ai.ai_addr) arg af_inet6 socktype

unfoldable pub lls_opt6inaddr : Arg (List ℕ) → (socktype : ℤ) → List ℕ → Cmd (ℤ × Option (List ℕ))
unfolding lls_check6inaddr
lls_opt6inaddr arg socktype def =
    if is_none_or_nil arg then pure (pos 0, some def) else lls_check6inaddr arg socktype
