-- ===== src/Prelude/Bytes.antt =====
-- Little-endian integers as bytes, and words as the C code converts them.
use lua_llsocket.Prelude.{
  ℕ, zero, suc, ◌+◌, ◌-◌, ◌*◌, ◌/◌, ◌%◌, ◌^◌, ◌<◌, ◌≡◌, refl, ap, Bool, not, ◌==◌, List, [], ◌∷◌,
  arith, length,
}
use lua_llsocket.Prelude.Int.{ℤ, to_size}

-- The `w` low bytes of a number, and the number that bytes stand for.
unfoldable pub to_le : ℕ → ℕ → List ℕ
to_le zero n = []
to_le (suc w) n = n % 256 ∷ to_le w (n / 256)

unfoldable pub from_le : List ℕ → ℕ
from_le [] = 0
from_le (b ∷ bs) = b + 256 * from_le bs

pub length-to_le : (w n : ℕ) → length (to_le w n) ≡ w
unfolding to_le
length-to_le zero n = refl
length-to_le (suc w) n = ap suc (length-to_le w (n / 256))

-- Four bytes hold every number below `2 ^ 32`.
pub from_le-to_le : (n : ℕ) → n < 2 ^ 32 → from_le (to_le 4 n) ≡ n
unfolding from_le to_le
from_le-to_le n h = omega arith

pub from_le-to_le_eight : (n : ℕ) → n < 2 ^ 64 → from_le (to_le 8 n) ≡ n
unfolding from_le to_le
from_le-to_le_eight n h = omega arith

-- `len - (size_t)rv`, in 64 bits.
abbrev pub rest_size : ℕ → ℤ → ℕ
rest_size len rv = (len + 2 ^ 64 - to_size rv) % 2 ^ 64

-- The argument of `lua_pushboolean` is an `int`: a `size_t` loses its upper 32 bits.
abbrev pub as_boolean : ℕ → Bool
as_boolean n = not (n % 2 ^ 32 == 0)
