-- ===== src/Sendfile.antt =====
-- Sending a file: src/socket.c, `checkfile` and the four variants of `sendfile_lua`.
pub mod Sent
use lua_llsocket.Prelude.{
  ℕ, ◌==◌, Bool, true, false, ◌||◌, not, String, List, [], ◌∷◌, if◌then◌else◌, take,
}
use lua_llsocket.Prelude.Int.{ℤ, pos, minus_one, ◌==ℤ◌, to_int, to_size}
use lua_llsocket.Prelude.Bytes.{rest_size, as_boolean}
use lua_llsocket.Host.Os.{Call}
use lua_llsocket.Host.Lua.{Value, Arg}
use lua_llsocket.Host.Consts.{eagain, eintr}
use lua_llsocket.Host.{Ptr, St, Cmd, pure, ◌>>=◌, ◌>>◌, gets, sys, check, opt, fail_nil}
use lua_llsocket.Io.{is_again, invalid}

-- The file, as a descriptor or as an open file of the Lua library with its descriptor.
pub data File : Type 0 where
  descriptor : ℤ → File
  stream : (fileno : ℤ) → File

unfoldable pub checkfile : File → ℤ
checkfile (File.descriptor fd) = to_int fd
checkfile (File.stream fileno) = fileno

-- `errno == EAGAIN || errno == EINTR`.
abbrev pub is_file_again : ℕ → Bool
is_file_again e = e == eagain || e == eintr

-- The branches behind a call that failed; `n` bytes have been sent.
abbrev pub sendfile_failed : ℤ → Cmd (List Value)
sendfile_failed n = do
  e ← gets St.errno
  if is_file_again e
      then pure (Value.integer n ∷ Value.nil ∷ Value.boolean true ∷ [])
      else fail_nil "sendfile"

-- `sendfile_lua` of Linux.
unfoldable pub sendfile_lua : Ptr → Arg File → (len offset : Arg ℤ) → Cmd (List Value)
unfolding checkfile
sendfile_lua sp file_arg len_arg offset_arg = do
  s ← gets λ st. st.socks sp
  file ← check file_arg
  len_int ← check len_arg
  offset ← opt offset_arg (pos 0)
  let len = to_size len_int
  if len == 0 then invalid "sendfile_lua" else do
    r ← sys (Call.sendfile s.fd (checkfile file) offset len)
    if r.ret ==ℤ minus_one
        then sendfile_failed (pos 0)
        else if rest_size len r.ret == 0
        then pure (Value.integer r.ret ∷ [])
        else pure (Value.integer r.ret ∷ Value.nil ∷ Value.boolean true ∷ [])

-- `sendfile_lua` of macOS. The reply's number is the one that the call leaves in `len`.
unfoldable pub sendfile_lua_apple : Ptr → Arg File → (len offset : Arg ℤ) → Cmd (List Value)
unfolding checkfile
sendfile_lua_apple sp file_arg len_arg offset_arg = do
  s ← gets λ st. st.socks sp
  file ← check file_arg
  len ← check len_arg
  offset ← opt offset_arg (pos 0)
  if len ==ℤ pos 0 then invalid "sendfile_lua" else do
    r ← sys (Call.sendfile_apple (checkfile file) s.fd offset len)
    if r.ret ==ℤ minus_one then sendfile_failed r.num else pure (Value.integer r.num ∷ [])

-- `sendfile_lua` of the BSDs. The reply's number is the one that the call leaves in `nbytes`.
unfoldable pub sendfile_lua_bsd : Ptr → Arg File → (len offset : Arg ℤ) → Cmd (List Value)
unfolding checkfile
sendfile_lua_bsd sp file_arg len_arg offset_arg = do
  s ← gets λ st. st.socks sp
  file ← check file_arg
  len_int ← check len_arg
  offset ← opt offset_arg (pos 0)
  let len = to_size len_int
  if len == 0 then invalid "sendfile_lua" else do
    r ← sys (Call.sendfile_bsd (checkfile file) s.fd offset len)
    if r.ret ==ℤ minus_one then sendfile_failed r.num else pure (Value.integer r.num ∷ [])

-- The part of the portable `sendfile_lua` that sends the bytes read.
unfoldable pub send_read : ℤ → ℕ → List ℕ → Cmd (List Value)
send_read fd len buf = do
  r ← sys (Call.send fd buf (pos 0))
  e ← gets St.errno
  if r.ret ==ℤ minus_one
      then (if is_again e
          then pure (Value.integer (pos 0) ∷ Value.nil ∷ Value.boolean true ∷ [])
          else fail_nil "send")
      else if rest_size len r.ret == 0
      then pure (Value.integer r.ret ∷ [])
      else pure
          (Value.integer r.ret ∷ Value.nil ∷ Value.boolean (as_boolean (rest_size len r.ret)) ∷ [])

-- `sendfile_lua` where the system has no `sendfile`.
unfoldable pub sendfile_lua_portable : Ptr → Arg File → (len offset : Arg ℤ) → Cmd (List Value)
unfolding checkfile send_read
sendfile_lua_portable sp file_arg len_arg offset_arg = do
  s ← gets λ st. st.socks sp
  file ← check file_arg
  len_int ← check len_arg
  offset ← opt offset_arg (pos 0)
  let len = to_size len_int
  if len == 0 then invalid "sendfile_lua" else do
    n ← sys (Call.pread (checkfile file) len offset)
    e ← gets St.errno
    if n.ret ==ℤ pos 0
        then pure (Value.integer (pos 0) ∷ [])
        else if n.ret ==ℤ minus_one
        then (if is_file_again e
            then pure (Value.integer (pos 0) ∷ Value.nil ∷ Value.boolean true ∷ [])
            else fail_nil "pread")
        else send_read s.fd len (take (to_size n.ret) n.bytes)
