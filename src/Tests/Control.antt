-- ===== src/Tests/Control.antt =====
-- Applications of the theorems on the buffer of control messages, with the layout of 64-bit Linux.
use lua_llsocket.Prelude.{
  ◌+◌, ◌*◌, ◌/◌, ◌%◌, ◌^◌, ◌≡◌, ◌≢◌, refl, some, [], ◌∷◌, ◌++◌, take, drop, arith, ap,
}
use lua_llsocket.Prelude.Int.{pos, to_unsigned, to_unsigned-lt, from_bits}
use lua_llsocket.Prelude.Bytes.{to_le, from_le, from_le-to_le, from_le-to_le_eight}
use lua_llsocket.Host.Os.{Call}
use lua_llsocket.Host.{ok, null}
use lua_llsocket.Cmsghdr.{Cmsghdr}
use lua_llsocket.Cmsghdrs.{Layout, Cmsghdrs, new_lua, push_lua, shift_lua}
use lua_llsocket.Cmsghdrs.Segments.{IsLayout, IsItem, Queue}
use lua_llsocket.Cmsghdrs.Push.{push-Queue}
use lua_llsocket.Cmsghdrs.Shift.{shift-Queue}
use lua_llsocket.Host.Lua.{Value, Arg}
use lua_llsocket.Host.Consts.{noref}
use lua_llsocket.Host.{null}
use lua_llsocket.Msghdr.{LlsMsghdr, iov_lua}
use lua_llsocket.Msghdr.Fields.{iov-dangling}
use lua_llsocket.Tests.{open_state, machine-IsRegistry, always, returns}

abbrev pub linux : Layout
linux = record {
  header = 16;
  cmsg_len = λ n. 16 + n;
  cmsg_space = λ n. 16 + (n + 7) / 8 * 8;
  encode =
      λ l v t. to_le 8 (l % 2 ^ 64) ++ (to_le 4 (to_unsigned 32 v) ++ to_le 4 (to_unsigned 32 t));
  len_of = λ bs. from_le (take 8 bs);
  level_of = λ bs. from_bits 31 (from_le (take 4 (drop 8 bs)));
  type_of = λ bs. from_bits 31 (from_le (take 4 (drop 12 bs)));
}

pub linux-IsLayout : IsLayout linux
unfolding to_le from_le
linux-IsLayout = record {
  has_header = omega arith;
  length_encode = λ l v t. refl;
  header_fits = omega arith;
  len_adds = λ n. omega arith;
  space_fits = λ n. omega arith;
  reads_len = λ l v t r. from_le-to_le_eight (l % 2 ^ 64) (omega arith);
  reads_level = λ l v t r. ap (from_bits 31) (from_le-to_le (to_unsigned 32 v) (to_unsigned-lt v));
  reads_type = λ l v t r. ap (from_bits 31) (from_le-to_le (to_unsigned 32 t) (to_unsigned-lt t));
}

-- One message with three bytes of data, and a buffer that holds it.
abbrev pub a_message : Cmsghdr
a_message = record { level = pos 1; type = pos 2; len = pos 3; bytes = 7 ∷ 8 ∷ 9 ∷ [] }

a_message-IsItem : IsItem a_message
a_message-IsItem = record {
  len_of_bytes = refl;
  small = omega arith;
  int_level = refl;
  int_type = refl;
}

new-Queue : Queue linux [] new_lua
new-Queue = record { segments = refl; fits = omega arith; sized = refl }

push-Queue_example :
    (c' : Cmsghdrs) × ((push_lua linux new_lua a_message open_state).0 ≡ ok c')
    × Queue linux (a_message ∷ []) c'
push-Queue_example =
    push-Queue linux linux-IsLayout [] a_message new_lua open_state new-Queue a_message-IsItem
      (omega arith)

-- The padding behind the data is stale.
abbrev pub a_buffer : Cmsghdrs
a_buffer = record {
  ref = pos 5;
  bytes = 24;
  len = 24;
  data' =
      19 ∷ 0 ∷ 0 ∷ 0 ∷ 0 ∷ 0 ∷ 0 ∷ 0 ∷ 1 ∷ 0 ∷ 0 ∷ 0 ∷ 2 ∷ 0 ∷ 0 ∷ 0 ∷ 7 ∷ 8 ∷ 9 ∷ 77 ∷ 77 ∷ 77 ∷ 77
      ∷ 77 ∷ [];
}

pub a_buffer-Queue : Queue linux (a_message ∷ []) a_buffer
unfolding to_le
a_buffer-Queue = record {
  segments = (
    _,
    [],
    record {
      gap = [];
      pad = 77 ∷ 77 ∷ 77 ∷ 77 ∷ 77 ∷ [];
      shape = refl;
      gap_len = refl;
      pad_len = refl;
      is_item = a_message-IsItem;
    },
    refl,
    refl,
  );
  fits = omega arith;
  sized = refl;
}

shift-Queue_example :
    ((shift_lua linux a_buffer).0 ≡ some a_message) × Queue linux [] (shift_lua linux a_buffer).1
shift-Queue_example =
    shift-Queue linux linux-IsLayout [] a_message a_buffer a_buffer-Queue (omega arith)

-- A header with an address and a vector.
abbrev a_header : LlsMsghdr
a_header = record {
  name_ref = pos 8;
  iov_ref = pos 9;
  control_ref = noref;
  flags = pos 0;
  name = 30;
  iov = 31;
  control = null;
}

iov-dangling_example :
    (set : LlsMsghdr) × (cleared : LlsMsghdr) × ((iov_lua a_header (Arg.given 40) open_state).0
      ≡ ok (Value.reference (pos 9) ∷ [], set))
    × (set.iov_ref ≢ noref)
    × ((iov_lua set Arg.null (iov_lua a_header (Arg.given 40) open_state).1).0
        ≡ ok (Value.reference set.iov_ref ∷ [], cleared))
    × ((iov_lua set Arg.null (iov_lua a_header (Arg.given 40) open_state).1).1.trace
        ≡ Call.unref set.iov_ref ∷ Call.ref ∷ Call.unref (pos 9) ∷ open_state.trace)
    × (cleared.iov_ref ≡ noref)
    × (cleared.iov ≡ 40)
    × (cleared.name ≡ null)
    × (cleared.name_ref ≡ pos 8)
iov-dangling_example =
    iov-dangling a_header 40 open_state (machine-IsRegistry (always (returns (pos 0))))
