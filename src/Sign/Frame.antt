-- ===== src/Sign/Frame.antt =====
-- contract/sign/sign.go `lp`, `tsBytes` and trust_state.go `uint64Bytes`: the length-prefixed framing.
pub mod Injective
use power_manage.Shared.{
  ℕ, zero, suc, ◌+◌, ◌-◌, ◌/◌, ◌%◌, ◌^◌, ◌≤◌, ◌<◌, List, [], ◌∷◌, ◌++◌, length,
}
use power_manage.Shared.Int.{ℤ, pos, negsuc}
use power_manage.Shared.Bytes.{Bytes}

-- `google.protobuf.Timestamp`: int64 seconds and int32 nanoseconds.
pub record Timestamp : Type 0 where
  pub seconds : ℤ
  pub nanos : ℤ

-- The low `k` bytes of a number, most significant first: `binary.BigEndian.PutUint64` at k = 8.
unfoldable pub big_endian : ℕ → ℕ → Bytes
big_endian zero n = []
big_endian (suc k) n = big_endian k (n / 256) ++ n % 256 ∷ []

unfoldable pub uint64_bytes : ℕ → Bytes
uint64_bytes = big_endian 8

-- The conversion of a signed integer to an unsigned one of `2 ^ w` values.
unfoldable pub to_unsigned : ℕ → ℤ → ℕ
to_unsigned w (pos n) = n % 2 ^ w
to_unsigned w (negsuc n) = 2 ^ w - 1 - n % 2 ^ w

unfoldable pub ts_bytes : Timestamp → Bytes
unfolding to_unsigned
ts_bytes t = big_endian 8 (to_unsigned 64 t.seconds) ++ big_endian 4 (to_unsigned 32 t.nanos)

-- What one call of `lp` appends to the buffer.
unfoldable pub lp : Bytes → Bytes
unfolding uint64_bytes
lp x = uint64_bytes (length x) ++ x

-- Successive calls of `lp` on one buffer.
unfoldable pub lp_all : List Bytes → Bytes
unfolding lp
lp_all [] = []
lp_all (x ∷ xs) = lp x ++ lp_all xs
