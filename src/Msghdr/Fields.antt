-- ===== src/Msghdr/Fields.antt =====
-- What the accessors of a message header leave in it.
use lua_llsocket.Prelude.{◌≡◌, ◌≢◌, refl, [], ◌∷◌}
use lua_llsocket.Host.Os.{Call}
use lua_llsocket.Host.Lua.{Value, Arg}
use lua_llsocket.Host.Consts.{noref}
use lua_llsocket.Host.Registry.{IsRegistry}
use lua_llsocket.Host.{Ptr, null, St, ok}
use lua_llsocket.Msghdr.{LlsMsghdr, name_lua, control_lua, iov_lua}

-- Clearing the address and then the control messages of a header answers the old references, and
-- leaves null pointers without references; the vector stays as it is.
pub clear-name_control :
    (msg : LlsMsghdr) (st : St)
    → IsRegistry st.os
    → (name_lua msg Arg.null st).0
        ≡ ok (Value.reference msg.name_ref ∷ [], record msg { name_ref = noref; name = null })
      × ((control_lua msg Arg.null st).0
          ≡ ok (
            Value.reference msg.control_ref ∷ [],
            record msg { control_ref = noref; control = null },
          ))
unfolding name_lua control_lua
clear-name_control msg st reg = (rw (reg.unref_noref _ _), rw (reg.unref_noref _ _))

pub iov-dangling :
    (msg : LlsMsghdr) (v : Ptr) (st : St)
    → IsRegistry st.os
    → (set : LlsMsghdr) × (cleared : LlsMsghdr) × ((iov_lua msg (Arg.given v) st).0
        ≡ ok (Value.reference msg.iov_ref ∷ [], set))
      × (set.iov_ref ≢ noref)
      × ((iov_lua set Arg.null (iov_lua msg (Arg.given v) st).1).0
          ≡ ok (Value.reference set.iov_ref ∷ [], cleared))
      × ((iov_lua set Arg.null (iov_lua msg (Arg.given v) st).1).1.trace
          ≡ Call.unref set.iov_ref ∷ Call.ref ∷ Call.unref msg.iov_ref ∷ st.trace)
      × (cleared.iov_ref ≡ noref)
      × (cleared.iov ≡ v)
      × (cleared.name ≡ null)
      × (cleared.name_ref ≡ msg.name_ref)
unfolding iov_lua
iov-dangling msg v st reg =
    (_, _, refl, reg.ref_live _, refl, refl, reg.unref_noref _ _, refl, refl, refl)

-- A header after an address `info` has been set: it holds the address with a live reference, and
-- nothing else has changed.
pub record Named (info : Ptr) (msg msg' : LlsMsghdr) : Type 0 where
  pub held : msg'.name ≡ info
  pub kept : msg'.name_ref ≢ noref
  pub others : record msg' { name_ref = msg.name_ref; name = msg.name } ≡ msg

-- Setting an address releases the old reference and keeps the new address alive; the next call
-- without an argument answers the new reference and makes no call.
pub name-Named :
    (msg : LlsMsghdr) (info : Ptr) (st : St)
    → IsRegistry st.os
    → (msg' : LlsMsghdr) × ((name_lua msg (Arg.given info) st).0
        ≡ ok (Value.reference msg.name_ref ∷ [], msg'))
      × ((name_lua msg (Arg.given info) st).1.trace ≡ Call.ref ∷ Call.unref msg.name_ref ∷ st.trace)
      × (name_lua msg' Arg.absent st ≡ (ok (Value.reference msg'.name_ref ∷ [], msg'), st))
      × Named info msg msg'
unfolding name_lua
name-Named msg info st reg =
    (_, refl, refl, refl, record { held = refl; kept = reg.ref_live _; others = refl })
