-- ===== src/Tests/Transfer.antt =====
-- Applications of the theorems on sending, receiving and control messages.
use lua_llsocket.Prelude.{
  ℕ, ◌^◌, ◌≡◌, refl, false, List, [], ◌∷◌, length, replicate, length-replicate, arith,
}
use lua_llsocket.Prelude.Int.{pos, negsuc}
use lua_llsocket.Host.Lua.{Value, Arg}
use lua_llsocket.Host.{St, ok, ◌>>=◌}
use lua_llsocket.Io.{write_lua, recv_lua, read_lua, recvfrom_lua}
use lua_llsocket.Io.Send.{send-wraps}
use lua_llsocket.Io.Recv.{end_answer, recv-end}
use lua_llsocket.Cmsghdr.{rights_lua}
use lua_llsocket.Cmsghdr.Rights.{data_of, data-rights}
use lua_llsocket.Tests.{returns, always, open_state, with_socket, a_socket}

recv-end_example :
    ((recv_lua 2 (Arg.given (pos 16)) Arg.absent open_state).0 ≡ end_answer (pos 1))
    × ((read_lua 2 (Arg.given (pos 16)) open_state).0 ≡ end_answer (pos 1))
    × ((recvfrom_lua 2 (Arg.given (pos 16)) Arg.absent open_state).0 ≡ end_answer (pos 1))
recv-end_example = recv-end 2 15 open_state refl refl refl refl

data-rights_example : (rights_lua (pos 5 ∷ negsuc 0 ∷ pos 7 ∷ []) >>= data_of) open_state ≡ (
  ok (Value.integer (pos 5) ∷ Value.integer (negsuc 0) ∷ Value.integer (pos 7) ∷ []),
  open_state,
)
data-rights_example = data-rights (pos 5) (negsuc 0 ∷ pos 7 ∷ []) open_state

-- A buffer of zeros.
unfoldable zeros : ℕ → List ℕ
zeros n = replicate n 0

length-zeros : (n : ℕ) → length (zeros n) ≡ n
unfolding zeros
length-zeros n = length-replicate n 0

-- One byte of a buffer of 4 GiB and one byte is taken.
abbrev taking_one : St
taking_one = with_socket a_socket (always (returns (pos 1)))

send-wraps_example :
    (write_lua 2 (Arg.given (0 ∷ zeros (2 ^ 32))) taking_one).0
    ≡ ok (Value.integer (pos 1) ∷ Value.nil ∷ Value.boolean false ∷ [])
send-wraps_example =
    send-wraps 2 0 (zeros (2 ^ 32)) 1 0 taking_one (omega (arith, length-zeros (2 ^ 32)))
      (omega (arith, length-zeros (2 ^ 32))) refl
