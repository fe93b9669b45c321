-- ===== src/Methods/Sending.antt =====
-- Bytes, descriptors, messages and files that are sent: how many went, and whether to call again.
use lua_llsocket.Prelude.{
  ℕ, ◌≡◌, refl, String, Bool, true, false, ◌||◌, ◌==◌, List, [], ◌∷◌, arith, length,
}
use lua_llsocket.Prelude.Int.{ℤ, pos, minus_one, ◌==ℤ◌, to_int}
use lua_llsocket.Host.Os.{Call}
use lua_llsocket.Host.Lua.{Value, Arg, Addrinfo}
use lua_llsocket.Host.{Ptr, St, Outcome, ◌>>=◌, check, pure}
use lua_llsocket.Io.{send_result, invalid, is_again, send_lua, sendto_lua, write_lua, sendfd_lua}
use lua_llsocket.Prelude.Bytes.{as_boolean, rest_size}
use lua_llsocket.Messages.{Message, send_data, sendmsg_lua, iov_len, iov_of}
use lua_llsocket.Sendfile.{File, sendfile_lua}
use lua_llsocket.Methods.Types.{Ty, is_end, is_missing, is_wrong}
use lua_llsocket.Methods.Ends.{
  IsEnding, pure-IsEnding, first-IsEnding, gets-IsEnding, sys-IsEnding, if-IsEnding, check-IsEnding,
  opt-IsEnding,
}

module _ (r : Bool) where
  -- The answers of a function that sends; `r` says whether an argument is refused.
  abbrev of_sending : Outcome (List Value) → Bool
  of_sending = is_end (Ty.integer ∷ Ty.error ∷ Ty.boolean ∷ []) false r false false

  send_result-IsEnding :
      (op : String) (len : ℕ) (rv : ℤ) → IsEnding of_sending (send_result op len rv)
  unfolding send_result
  send_result-IsEnding op len rv = record { ends = λ st. ground arith }

  invalid_send-IsEnding : (op : String) → IsEnding of_sending (invalid op)
  invalid_send-IsEnding op = record { ends = λ st. refl }

pub send-IsEnding :
    (sp : Ptr) (msg : Arg (List ℕ)) (flag : Arg ℤ)
    → IsEnding
        (is_end
          (Ty.integer ∷ Ty.error ∷ Ty.boolean ∷ [])
          false
          (is_missing msg || is_wrong flag)
          false
          false)
        (send_lua sp msg flag)
unfolding send_lua
send-IsEnding sp msg flag =
    gets-IsEnding (λ st. st.socks sp) _
      λ s.
        check-IsEnding msg _ (λ h. ground (arith, h))
          λ buf.
            opt-IsEnding flag (pos 0) _ (λ h. ground (arith, h))
              λ flg. if-IsEnding (length buf == 0) _ _ (invalid_send-IsEnding _ "send_lua") (
                sys-IsEnding (Call.send s.fd buf (to_int flg)) _
                  λ r. send_result-IsEnding _ "send" (length buf) r.ret)

pub sendto-IsEnding :
    (sp : Ptr) (msg : Arg (List ℕ)) (ai : Arg Addrinfo) (flag : Arg ℤ)
    → IsEnding
        (is_end
          (Ty.integer ∷ Ty.error ∷ Ty.boolean ∷ [])
          false
          (is_missing msg || is_missing ai || is_wrong flag)
          false
          false)
        (sendto_lua sp msg ai flag)
unfolding sendto_lua
sendto-IsEnding sp msg ai flag =
    gets-IsEnding (λ st. st.socks sp) _
      λ s.
        check-IsEnding msg _ (λ h. ground (arith, h))
          λ buf.
            check-IsEnding ai _ (λ h. ground (arith, h))
              λ info.
                opt-IsEnding flag (pos 0) _ (λ h. ground (arith, h))
                  λ flg. if-IsEnding (length buf == 0) _ _ (invalid_send-IsEnding _ "sendto_lua") (
                    sys-IsEnding (Call.sendto s.fd buf (to_int flg) info.ai_addr info.ai_addrlen) _
                      λ r. send_result-IsEnding _ "sendto" (length buf) r.ret)

pub write-IsEnding :
    (sp : Ptr) (msg : Arg (List ℕ))
    → IsEnding
        (is_end (Ty.integer ∷ Ty.error ∷ Ty.boolean ∷ []) false (is_missing msg) false false)
        (write_lua sp msg)
unfolding write_lua
write-IsEnding sp msg =
    gets-IsEnding (λ st. st.socks sp) _
      λ s.
        check-IsEnding msg _ (λ h. ground (arith, h))
          λ buf. if-IsEnding (length buf == 0) _ _ (invalid_send-IsEnding _ "write_lua") (
            sys-IsEnding (Call.write s.fd buf) _
              λ r. send_result-IsEnding _ "write" (length buf) r.ret)

pub sendmsg-IsEnding :
    (sp : Ptr) (mh : Arg Message) (flag : Arg ℤ)
    → IsEnding
        (is_end
          (Ty.integer ∷ Ty.error ∷ Ty.boolean ∷ [])
          false
          (is_missing mh || is_wrong flag)
          false
          false)
        (do lmsg ← check mh; (vs, l) ← sendmsg_lua sp lmsg flag; pure vs)
unfolding sendmsg_lua
sendmsg-IsEnding sp mh flag =
    check-IsEnding mh _ (λ h. ground (arith, h))
      λ lmsg. first-IsEnding (sendmsg_lua sp lmsg flag) (
        gets-IsEnding (λ st. st.socks sp) _
          λ s.
            opt-IsEnding flag (pos 0) _ (λ h. ground (arith, h))
              λ flg. sys-IsEnding (Call.sendmsg s.fd (send_data lmsg) (to_int flg)) _ λ rv.
                gets-IsEnding St.errno _ λ e.
                  if-IsEnding (rv.ret ==ℤ minus_one) _ _
                    (if-IsEnding (is_again e) _ _
                      (pure-IsEnding
                        (
                          Value.integer (pos 0) ∷ Value.nil ∷ Value.boolean true ∷ [],
                          record lmsg { flags = pos 0 },
                        )
                        refl)
                      (pure-IsEnding
                        (Value.nil ∷ Value.failure e "sendmsg" ∷ [], record lmsg { flags = pos 0 })
                        refl))
                    (pure-IsEnding
                      (
                        Value.integer rv.ret
                            ∷ Value.nil
                            ∷ Value.boolean
                                (as_boolean (rest_size (iov_len (iov_of lmsg.iov)) rv.ret))
                            ∷ [],
                        record lmsg { flags = pos 0 },
                      )
                      refl))

pub sendfd-ends :
    (fd : Arg ℤ) (ai : Arg Addrinfo) (flag : Arg ℤ) (sp : Ptr) (st : St)
    → is_end
        (Ty.integer ∷ Ty.error ∷ Ty.boolean ∷ [])
        false
        (is_missing fd || is_wrong ai || is_wrong flag)
        false
        false
        (sendfd_lua sp fd ai flag st).0
      ≡ true
unfolding sendfd_lua
sendfd-ends fd ai flag sp st = ground arith

pub sendfile-ends :
    (file : Arg File) (bytes : Arg ℤ) (offset : Arg ℤ) (sp : Ptr) (st : St)
    → is_end
        (Ty.integer ∷ Ty.error ∷ Ty.boolean ∷ [])
        false
        (is_missing file || is_missing bytes || is_wrong offset)
        false
        false
        (sendfile_lua sp file bytes offset st).0
      ≡ true
unfolding sendfile_lua
sendfile-ends file bytes offset sp st = ground arith
