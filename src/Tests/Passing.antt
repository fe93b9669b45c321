-- ===== src/Tests/Passing.antt =====
-- Applications of the theorems on descriptors that go from one program to another.
use lua_llsocket.Prelude.{ℕ, ◌≡◌, refl, none, some, List, [], ◌∷◌, ◌++◌, take, replicate, arith}
use lua_llsocket.Prelude.Int.{pos}
use lua_llsocket.Prelude.Bytes.{to_le}
use lua_llsocket.Host.Lua.{Value, Arg}
use lua_llsocket.Host.{St, ok}
use lua_llsocket.Cmsghdr.{rights_bytes, lls_cmsghdr_alloc}
use lua_llsocket.Cmsghdrs.{Cmsghdrs}
use lua_llsocket.Cmsghdrs.Segments.{Segments}
use lua_llsocket.Io.{recvfd_lua, rights_cmsg}
use lua_llsocket.Io.Passing.{recvfd-sendfd}
use lua_llsocket.Messages.{Message}
use lua_llsocket.Messages.Passing.{rights_item, recv_rights, rights-passed}
use lua_llsocket.Tests.Control.{linux, linux-IsLayout}
use lua_llsocket.Tests.{returns, always, with_socket, a_socket, open_state}

-- The kernel puts 12 in the place of 7.
unfoldable one_passed : St
unfolding to_le
one_passed =
    with_socket a_socket (always (record (returns (pos 1)) { bytes = rights_cmsg (pos 12) }))

recvfd-sendfd_example : (recvfd_lua 2 Arg.absent one_passed).0 ≡ ok (Value.integer (pos 12) ∷ [])
unfolding one_passed
recvfd-sendfd_example =
    recvfd-sendfd 2 (pos 7) Arg.absent open_state 2 (pos 12) 1 one_passed (ground arith)
      (omega arith) refl λ sent. refl

-- The kernel puts 12 and 13 in the places of 7 and 8.
unfoldable passed_bytes : List ℕ
unfolding rights_bytes to_le
passed_bytes = linux.encode 24 (pos 1) (pos 1) ++ rights_bytes (pos 12 ∷ pos 13 ∷ [])

unfoldable two_passed : St
unfolding passed_bytes
two_passed =
    with_socket a_socket (always (record (returns (pos 1)) { addr = passed_bytes; len = 24 }))

abbrev room : Cmsghdrs
room = record { ref = pos 5; bytes = 24; len = 24; data' = replicate 24 0 }

abbrev with_room : Message
with_room = record { name = none; iov = none; control = some room; flags = pos 0 }

passed-Segments : Segments linux (rights_item (pos 12 ∷ pos 13 ∷ []) ∷ []) (take 24 passed_bytes)
unfolding passed_bytes rights_bytes to_le lls_cmsghdr_alloc
passed-Segments = (
  passed_bytes,
  [],
  record {
    gap = [];
    pad = [];
    shape = refl;
    gap_len = refl;
    pad_len = refl;
    is_item = record {
      len_of_bytes = refl;
      small = omega arith;
      int_level = refl;
      int_type = refl;
    };
  },
  refl,
  refl,
)

rights-passed_example :
    (recv_rights linux 2 with_room two_passed).0
    ≡ ok (Value.integer (pos 12) ∷ Value.integer (pos 13) ∷ [])
unfolding two_passed passed_bytes rights_bytes to_le
rights-passed_example =
    rights-passed linux linux-IsLayout 2 (pos 7) (pos 8 ∷ []) open_state 2 (pos 12) (pos 13 ∷ [])
      with_room room 1 24 passed_bytes two_passed (omega arith) (omega arith) (omega arith)
      (omega arith) refl (omega arith) (omega arith) (omega arith) (omega arith) refl refl refl refl
      λ sent. passed-Segments
