-- ===== src/Create/Made.antt =====
-- `pair_lua` where every call succeeds.
use lua_llsocket.Prelude.{suc, ◌==◌, ==_refl, ◌≡◌, false, [], ◌∷◌, arith}
use lua_llsocket.Prelude.Int.{ℤ, pos, to_int}
use lua_llsocket.Host.Lua.{Value, Arg}
use lua_llsocket.Host.Consts.{af_unix}
use lua_llsocket.Host.Trace.{lifecycle}
use lua_llsocket.Host.{null, St, ok}
use lua_llsocket.Create.{set_flags_failed, set_nonblock_failed, pair_lua, pair_round}
use lua_llsocket.Create.Pair.{pair_call, pair_reply, cloexec_call}

-- When `socketpair` and the setting of both close-on-exec flags succeed, `pair_lua` in blocking
-- mode makes two sockets of the Unix family, with the two descriptors and the type and the
-- protocol that were asked for; nothing is closed.
pub pair-made :
    (t k : ℤ) (st : St)
    → (pair_reply t k st).ret ≡ pos 0
    → (st.os (pair_call t k ∷ st.trace) (cloexec_call (pair_reply t k st).num)).ret ≡ pos 0
    → (st.os
        (cloexec_call (pair_reply t k st).num ∷ pair_call t k ∷ st.trace)
        (cloexec_call (pair_reply t k st).num2)).ret
      ≡ pos 0
    → ((pair_lua (Arg.given t) (Arg.given k) Arg.absent st).0
        ≡ ok (Value.socket_pair st.fresh (suc st.fresh) ∷ []))
      × ((pair_lua (Arg.given t) (Arg.given k) Arg.absent st).1.socks st.fresh ≡ record {
        fd = (pair_reply t k st).num;
        family = af_unix;
        socktype = to_int t;
        protocol = to_int k;
        gcfunc = null;
      })
      × ((pair_lua (Arg.given t) (Arg.given k) Arg.absent st).1.socks (suc st.fresh) ≡ record {
        fd = (pair_reply t k st).num2;
        family = af_unix;
        socktype = to_int t;
        protocol = to_int k;
        gcfunc = null;
      })
      × (lifecycle (pair_lua (Arg.given t) (Arg.given k) Arg.absent st).1.trace
          ≡ lifecycle st.trace)
unfolding pair_lua pair_round set_flags_failed set_nonblock_failed
pair-made t k st e f g =
    let r = ==_refl st.fresh in
    let r' = ==_refl (suc st.fresh) in
    let n : (st.fresh == suc st.fresh) ≡ false = ground arith in
    (ground arith, ground arith, ground arith, ground arith)
