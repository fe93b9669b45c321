-- ===== src/Host/Registry.antt =====
-- What the code relies on of the Lua registry, as lauxhlib documents it: `lauxh_ref` never returns
-- LUA_NOREF, and `lauxh_unref` returns it always.
use lua_llsocket.Prelude.{◌≡◌, ◌≢◌, List}
use lua_llsocket.Prelude.Int.{ℤ}
use lua_llsocket.Host.Os.{Call, Reply}
use lua_llsocket.Host.Consts.{noref}

pub record IsRegistry (os : List Call → Call → Reply) : Type 0 where
  pub ref_live : (t : List Call) → (os t Call.ref).ret ≢ noref
  pub unref_noref : (t : List Call) (r : ℤ) → (os t (Call.unref r)).ret ≡ noref
