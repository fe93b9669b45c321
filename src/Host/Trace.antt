-- ===== src/Host/Trace.antt =====
-- The part of a trace that matters to the life of a descriptor.
use lua_llsocket.Prelude.{List, [], ◌∷◌, ◌≡◌}
use lua_llsocket.Prelude.Int.{ℤ}
use lua_llsocket.Host.Os.{Call}
use lua_llsocket.Host.{St}

-- The finalisers run and the descriptors shut down and closed, newest first.
abbrev pub lifecycle : List Call → List Call
lifecycle [] = []
lifecycle (Call.pcall r ∷ t) = Call.pcall r ∷ lifecycle t
lifecycle (Call.close fd ∷ t) = Call.close fd ∷ lifecycle t
lifecycle (Call.shutdown fd how ∷ t) = Call.shutdown fd how ∷ lifecycle t
lifecycle (c ∷ t) = lifecycle t

-- A finaliser that leaves alone the sockets, the lists of finalisers and every descriptor. What
-- else it calls is free.
pub record IsQuiet (fin : ℤ → St → St) : Type 0 where
  pub keeps_os : (r : ℤ) (st : St) → (fin r st).os ≡ st.os
  pub keeps_socks : (r : ℤ) (st : St) → (fin r st).socks ≡ st.socks
  pub keeps_gcfns : (r : ℤ) (st : St) → (fin r st).gcfns ≡ st.gcfns
  pub keeps_lifecycle : (r : ℤ) (st : St) → lifecycle (fin r st).trace ≡ lifecycle st.trace
