-- ===== src/Methods/Receiving.antt =====
-- Bytes, descriptors and messages that come in, and whether to call again.
use lua_llsocket.Prelude.{
  ℕ, refl, String, Bool, true, false, ◌&&◌, ◌||◌, ◌==◌, not, List, [], ◌∷◌, arith, take,
}
use lua_llsocket.Prelude.Int.{ℤ, pos, minus_one, ◌==ℤ◌, to_size, to_int}
use lua_llsocket.Host.Os.{Call}
use lua_llsocket.Host.Lua.{Value, Arg}
use lua_llsocket.Host.Consts.{sol_socket, scm_rights}
use lua_llsocket.Host.{Ptr, St, Outcome, ◌>>=◌, check, pure}
use lua_llsocket.Io.{
  recv_result, recv_failed, invalid, is_positive, is_stream, is_again, default_recvsize, recv_lua,
  read_lua, recvfrom_lua, recvfd_lua, empty_msg, cmsg_level, cmsg_type, cmsg_fd, wrap_addr,
}
use lua_llsocket.Messages.{Message, recv_data, recvmsg_lua, has_control, has_iov, filled, cut}
use lua_llsocket.Methods.Types.{Ty, is_end, is_missing, is_wrong}
use lua_llsocket.Methods.Ends.{
  IsEnding, pure-IsEnding, first-IsEnding, gets-IsEnding, sys-IsEnding, if-IsEnding, check-IsEnding,
  opt-IsEnding,
}

module _ (r : Bool) where
  -- The answers of the functions that receive descriptors, bytes, and bytes from an address; `r`
  -- says whether an argument is refused.
  abbrev of_descriptor : Outcome (List Value) → Bool
  of_descriptor = is_end (Ty.integer ∷ Ty.error ∷ Ty.boolean ∷ []) false r false false

  abbrev of_bytes : Outcome (List Value) → Bool
  of_bytes = is_end (Ty.string ∷ Ty.error ∷ Ty.boolean ∷ []) false r false false

  abbrev of_bytes_from : Outcome (List Value) → Bool
  of_bytes_from = is_end (Ty.string ∷ Ty.error ∷ Ty.boolean ∷ Ty.addrinfo ∷ []) false r false false

  recv_result-IsEnding :
      (op : String) (socktype rv : ℤ) (buf : List ℕ)
      → IsEnding of_bytes (recv_result op socktype rv buf)
  unfolding recv_result
  recv_result-IsEnding op socktype rv buf = record { ends = λ st. ground arith }

  invalid_recv-IsEnding : (op : String) → IsEnding of_bytes (invalid op)
  invalid_recv-IsEnding op = record { ends = λ st. refl }

  invalid_recvfrom-IsEnding : (op : String) → IsEnding of_bytes_from (invalid op)
  invalid_recvfrom-IsEnding op = record { ends = λ st. refl }

  recvfrom_failed-IsEnding : (op : String) → IsEnding of_bytes_from (recv_failed op)
  recvfrom_failed-IsEnding op = record { ends = λ st. ground arith }

  recvfd_failed-IsEnding : (op : String) → IsEnding of_descriptor (recv_failed op)
  recvfd_failed-IsEnding op = record { ends = λ st. ground arith }

pub recv-IsEnding :
    (sp : Ptr) (bufsize : Arg ℤ) (flag : Arg ℤ)
    → IsEnding
        (is_end
          (Ty.string ∷ Ty.error ∷ Ty.boolean ∷ [])
          false
          (is_wrong bufsize || is_wrong flag)
          false
          false)
        (recv_lua sp bufsize flag)
unfolding recv_lua
recv-IsEnding sp bufsize flag =
    gets-IsEnding (λ st. st.socks sp) _
      λ s.
        opt-IsEnding bufsize default_recvsize _ (λ h. ground (arith, h))
          λ len.
            opt-IsEnding flag (pos 0) _ (λ h. ground (arith, h))
              λ flg.
                if-IsEnding (is_positive len) _ _
                  (sys-IsEnding (Call.recv s.fd (to_size len) (to_int flg)) _
                    λ r. recv_result-IsEnding _ "recv" s.socktype r.ret r.bytes)
                  (invalid_recv-IsEnding _ "recv_lua")

pub read-IsEnding :
    (sp : Ptr) (bufsize : Arg ℤ)
    → IsEnding
        (is_end (Ty.string ∷ Ty.error ∷ Ty.boolean ∷ []) false (is_wrong bufsize) false false)
        (read_lua sp bufsize)
unfolding read_lua
read-IsEnding sp bufsize =
    gets-IsEnding (λ st. st.socks sp) _
      λ s.
        opt-IsEnding bufsize default_recvsize _ (λ h. ground (arith, h))
          λ len.
            if-IsEnding (is_positive len) _ _
              (sys-IsEnding (Call.read s.fd (to_size len)) _
                λ r. recv_result-IsEnding _ "read" s.socktype r.ret r.bytes)
              (invalid_recv-IsEnding _ "read_lua")

pub recvfrom-IsEnding :
    (sp : Ptr) (bufsize : Arg ℤ) (flag : Arg ℤ)
    → IsEnding
        (is_end
          (Ty.string ∷ Ty.error ∷ Ty.boolean ∷ Ty.addrinfo ∷ [])
          false
          (is_wrong bufsize || is_wrong flag)
          false
          false)
        (recvfrom_lua sp bufsize flag)
unfolding recvfrom_lua
recvfrom-IsEnding sp bufsize flag =
    gets-IsEnding (λ st. st.socks sp) _
      λ s.
        opt-IsEnding bufsize default_recvsize _ (λ h. ground (arith, h))
          λ len.
            opt-IsEnding flag (pos 0) _ (λ h. ground (arith, h))
              λ flg.
                if-IsEnding (is_positive len) _ _
                  (sys-IsEnding (Call.recvfrom s.fd (to_size len) (to_int flg)) _ λ r.
                    if-IsEnding (r.ret ==ℤ minus_one) _ _ (recvfrom_failed-IsEnding _ "recvfrom") (
                      if-IsEnding (r.ret ==ℤ pos 0 && is_stream s.socktype) _ _
                        (pure-IsEnding ([]) refl)
                        (if-IsEnding (r.len == 0) _ _
                          (pure-IsEnding (Value.string (take (to_size r.ret) r.bytes) ∷ []) refl)
                          (pure-IsEnding
                            (Value.string (take (to_size r.ret) r.bytes)
                              ∷ Value.nil
                              ∷ Value.nil
                              ∷ Value.addrinfo
                                  (wrap_addr s.family s.socktype s.protocol r.addr r.len)
                              ∷ [])
                            refl))))
                  (invalid_recvfrom-IsEnding _ "recvfrom_lua")

pub recvfd-IsEnding :
    (sp : Ptr) (flag : Arg ℤ)
    → IsEnding
        (is_end (Ty.integer ∷ Ty.error ∷ Ty.boolean ∷ []) false (is_wrong flag) false false)
        (recvfd_lua sp flag)
unfolding recvfd_lua
recvfd-IsEnding sp flag =
    gets-IsEnding (λ st. st.socks sp) _
      λ s.
        opt-IsEnding flag (pos 0) _ (λ h. ground (arith, h))
          λ flg. sys-IsEnding (Call.recvmsg s.fd empty_msg (to_int flg)) _ λ r.
            if-IsEnding (r.ret ==ℤ minus_one) _ _ (recvfd_failed-IsEnding _ "recvmsg") (
              if-IsEnding (cmsg_level r.bytes == sol_socket && cmsg_type r.bytes == scm_rights) _ _
                (pure-IsEnding (Value.integer (cmsg_fd r.bytes) ∷ []) refl)
                (if-IsEnding (r.ret ==ℤ pos 0 && is_stream s.socktype) _ _ (pure-IsEnding ([]) refl)
                  (pure-IsEnding (Value.nil ∷ Value.nil ∷ Value.boolean true ∷ []) refl)))

pub recvmsg-IsEnding :
    (sp : Ptr) (mh : Arg Message) (flag : Arg ℤ)
    → IsEnding
        (is_end
          (Ty.integer ∷ Ty.error ∷ Ty.boolean ∷ [])
          false
          (is_missing mh || is_wrong flag)
          false
          false)
        (do lmsg ← check mh; (vs, l) ← recvmsg_lua sp lmsg flag; pure vs)
unfolding recvmsg_lua
recvmsg-IsEnding sp mh flag =
    check-IsEnding mh _ (λ h. ground (arith, h))
      λ lmsg. first-IsEnding (recvmsg_lua sp lmsg flag) (
        gets-IsEnding (λ st. st.socks sp) _
          λ s.
            opt-IsEnding flag (pos 0) _ (λ h. ground (arith, h))
              λ flg. sys-IsEnding (Call.recvmsg s.fd (recv_data lmsg) (to_int flg)) _ λ r.
                gets-IsEnding St.errno _ λ e.
                  if-IsEnding (r.ret ==ℤ minus_one) _ _
                    (if-IsEnding (is_again e) _ _
                      (pure-IsEnding (Value.nil ∷ Value.nil ∷ Value.boolean true ∷ [], lmsg) refl)
                      (pure-IsEnding (Value.nil ∷ Value.failure e "recvmsg" ∷ [], lmsg) refl))
                    (if-IsEnding (has_control lmsg && not (r.len == 0)) _ _
                      (pure-IsEnding
                        (
                          Value.integer r.ret ∷ [],
                          record (filled r lmsg) { control = cut r.len (filled r lmsg).control },
                        )
                        refl)
                      (if-IsEnding (has_iov lmsg && (r.ret ==ℤ pos 0 && is_stream s.socktype)) _ _
                        (pure-IsEnding ([], filled r lmsg) refl)
                        (pure-IsEnding (Value.integer r.ret ∷ [], filled r lmsg) refl))))
