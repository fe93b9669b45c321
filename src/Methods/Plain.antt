-- ===== src/Methods/Plain.antt =====
-- The connection, the names of both ends, `dup` and `shutdown`.
use lua_llsocket.Prelude.{◌≡◌, Bool, true, false, ◌||◌, [], ◌∷◌, arith}
use lua_llsocket.Prelude.Int.{ℤ}
use lua_llsocket.Host.Lua.{Arg, Addrinfo, Seconds}
use lua_llsocket.Host.{Ptr, St}
use lua_llsocket.Connect.{
  fd_lua, family_lua, socktype_lua, protocol_lua, bind_lua, connect_lua, select_lua, recvable_lua,
  sendable_lua, listen_lua, atmark_lua, getsockname_lua, getpeername_lua,
}
use lua_llsocket.Life.{dup_lua, shutdown_lua, shutdownfd}
use lua_llsocket.Finalise.{addgcfn_lua, delgcfn_lua}
use lua_llsocket.Gcfn.{lls_gcfn_new, lls_gcfn_del}
use lua_llsocket.Methods.Types.{Ty, is_end, is_missing, is_wrong}

pub fd-ends :
    (sp : Ptr) (st : St)
    → is_end (Ty.integer ∷ []) false (false) false false (fd_lua sp st).0 ≡ true
unfolding fd_lua
fd-ends sp st = ground arith

pub family-ends :
    (sp : Ptr) (st : St)
    → is_end (Ty.integer ∷ []) false (false) false false (family_lua sp st).0 ≡ true
unfolding family_lua
family-ends sp st = ground arith

pub socktype-ends :
    (sp : Ptr) (st : St)
    → is_end (Ty.integer ∷ []) false (false) false false (socktype_lua sp st).0 ≡ true
unfolding socktype_lua
socktype-ends sp st = ground arith

pub protocol-ends :
    (sp : Ptr) (st : St)
    → is_end (Ty.integer ∷ []) false (false) false false (protocol_lua sp st).0 ≡ true
unfolding protocol_lua
protocol-ends sp st = ground arith

pub bind-ends :
    (ai : Arg Addrinfo) (sp : Ptr) (st : St)
    → is_end (Ty.boolean ∷ Ty.error ∷ []) false (is_missing ai) false false (bind_lua sp ai st).0
      ≡ true
unfolding bind_lua
bind-ends ai sp st = ground arith

pub connect-ends :
    (ai : Arg Addrinfo) (sp : Ptr) (st : St)
    → is_end
        (Ty.boolean ∷ Ty.error ∷ Ty.boolean ∷ [])
        true
        (is_missing ai)
        false
        false
        (connect_lua sp ai st).0
      ≡ true
unfolding connect_lua
connect-ends ai sp st = ground arith

pub listen-ends :
    (backlog : Arg ℤ) (sp : Ptr) (st : St)
    → is_end
        (Ty.boolean ∷ Ty.error ∷ [])
        false
        (is_wrong backlog)
        false
        false
        (listen_lua sp backlog st).0
      ≡ true
unfolding listen_lua
listen-ends backlog sp st = ground arith

pub atmark-ends :
    (sp : Ptr) (st : St)
    → is_end (Ty.boolean ∷ Ty.error ∷ []) false (false) false false (atmark_lua sp st).0 ≡ true
unfolding atmark_lua
atmark-ends sp st = ground arith

pub getsockname-ends :
    (sp : Ptr) (st : St)
    → is_end (Ty.addrinfo ∷ Ty.error ∷ []) false (false) false false (getsockname_lua sp st).0
      ≡ true
unfolding getsockname_lua
getsockname-ends sp st = ground arith

pub getpeername-ends :
    (sp : Ptr) (st : St)
    → is_end (Ty.addrinfo ∷ Ty.error ∷ []) false (false) false false (getpeername_lua sp st).0
      ≡ true
unfolding getpeername_lua
getpeername-ends sp st = ground arith

pub recvable-ends :
    (sec : Arg Seconds) (except : Arg Bool) (sp : Ptr) (st : St)
    → is_end
        (Ty.boolean ∷ Ty.error ∷ Ty.boolean ∷ [])
        false
        (is_wrong sec || is_wrong except)
        false
        false
        (recvable_lua sp sec except st).0
      ≡ true
unfolding recvable_lua select_lua
recvable-ends sec except sp st = ground arith

pub sendable-ends :
    (sec : Arg Seconds) (except : Arg Bool) (sp : Ptr) (st : St)
    → is_end
        (Ty.boolean ∷ Ty.error ∷ Ty.boolean ∷ [])
        false
        (is_wrong sec || is_wrong except)
        false
        false
        (sendable_lua sp sec except st).0
      ≡ true
unfolding sendable_lua select_lua
sendable-ends sec except sp st = ground arith

pub dup-ends :
    (sp : Ptr) (st : St)
    → is_end (Ty.socket ∷ Ty.error ∷ []) false (false) false false (dup_lua sp st).0 ≡ true
unfolding dup_lua
dup-ends sp st = ground arith

pub shutdown-ends :
    (how : Arg ℤ) (sp : Ptr) (st : St)
    → is_end
        (Ty.boolean ∷ Ty.error ∷ [])
        false
        (is_wrong how)
        false
        false
        (shutdown_lua sp how st).0
      ≡ true
unfolding shutdown_lua shutdownfd
shutdown-ends how sp st = ground arith

pub addgcfn-ends :
    (err : Arg (Unit {0})) (fn : Arg (Unit {0})) (sp : Ptr) (st : St)
    → is_end
        (Ty.gcfn ∷ Ty.error ∷ [])
        false
        (is_wrong err || is_missing fn)
        false
        false
        (addgcfn_lua sp err fn st).0
      ≡ true
unfolding addgcfn_lua lls_gcfn_new
addgcfn-ends err fn sp st = ground arith

pub delgcfn-ends :
    (node : Arg Ptr) (sp : Ptr) (st : St)
    → is_end (Ty.boolean ∷ []) false (is_missing node) false false (delgcfn_lua sp node st).0 ≡ true
unfolding delgcfn_lua lls_gcfn_del
delgcfn-ends node sp st = ground arith
