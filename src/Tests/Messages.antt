-- ===== src/Tests/Messages.antt =====
-- Applications of the theorems on messages with several parts.
use lua_llsocket.Prelude.{◌≡◌, refl, none, some, [], ◌∷◌, take, arith}
use lua_llsocket.Prelude.Int.{pos}
use lua_llsocket.Host.Os.{Call, Msghdr}
use lua_llsocket.Host.Lua.{Value, Arg}
use lua_llsocket.Host.{St, ok}
use lua_llsocket.Cmsghdrs.{Cmsghdrs}
use lua_llsocket.Cmsghdrs.Segments.{Segments, Queue}
use lua_llsocket.Messages.{Message, sendmsg_lua, recvmsg_lua}
use lua_llsocket.Messages.Sending.{sendmsg-Segments}
use lua_llsocket.Messages.Receiving.{drain, recvmsg-drains, recvmsg-stale}
use lua_llsocket.Tests.Control.{linux, linux-IsLayout, a_message, a_buffer, a_buffer-Queue}
use lua_llsocket.Tests.{returns, always, with_socket, a_socket, open_state}

abbrev with_buffer : Message
with_buffer = record { name = none; iov = none; control = some a_buffer; flags = pos 0 }

sendmsg-Segments_example :
    (m : Msghdr) × ((sendmsg_lua 2 with_buffer Arg.absent open_state).1.trace
      ≡ Call.sendmsg (pos 6) m (pos 0) ∷ [])
    × Segments linux (a_message ∷ []) (take m.msg_controllen m.msg_control)
sendmsg-Segments_example =
    sendmsg-Segments linux (a_message ∷ []) 2 with_buffer a_buffer open_state refl a_buffer-Queue

-- The kernel writes one message into the buffer.
abbrev delivers : St
delivers =
    with_socket a_socket (always (record (returns (pos 4)) { addr = a_buffer.data'; len = 24 }))

recvmsg-drains_example :
    (lmsg' : Message) × (c' : Cmsghdrs) × ((recvmsg_lua 2 with_buffer Arg.absent delivers).0
      ≡ ok (Value.integer (pos 4) ∷ [], lmsg'))
    × (lmsg'.control ≡ some c')
    × Queue linux (a_message ∷ []) c'
    × (drain linux 1 c' ≡ a_message ∷ [])
recvmsg-drains_example =
    recvmsg-drains linux linux-IsLayout (a_message ∷ []) 2 with_buffer a_buffer 4 24 a_buffer.data'
      delivers (omega arith) refl (omega arith) (omega arith) (omega arith) (omega arith) refl refl
      refl refl a_buffer-Queue.segments

abbrev sends_nothing : St
sends_nothing =
    with_socket a_socket (always (record (returns (pos 4)) { addr = a_buffer.data'; len = 0 }))

recvmsg-stale_example :
    (lmsg' : Message) × (c' : Cmsghdrs) × ((recvmsg_lua 2 with_buffer Arg.absent sends_nothing).0
      ≡ ok (Value.integer (pos 4) ∷ [], lmsg'))
    × (lmsg'.control ≡ some c')
    × Queue linux (a_message ∷ []) c'
recvmsg-stale_example =
    recvmsg-stale linux (a_message ∷ []) 2 with_buffer a_buffer 3 sends_nothing refl (omega arith)
      a_buffer-Queue refl refl refl
