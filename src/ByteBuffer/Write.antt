-- ===== src/ByteBuffer/Write.antt =====
-- src/common/packet/ByteBuffer.hpp: the methods that append.
-- `htobe16` to `htole64` with the `memcpy` behind them are `be_bytes` and `le_bytes`. A float or a
-- double is its bit pattern, which is all that the code makes of it. An argument of type `uintN_t` is
-- a number below 2 ^ N.
use purity.Common.{ℕ, Bool, List, [], ◌∷◌, ◌++◌, reverse, if◌then◌else◌}
use purity.Common.Int.{ℤ, to_unsigned}
use purity.Bytes.{be_bytes, le_bytes}
use purity.ByteBuffer.{ByteBuffer}
use Prim.Native.Nat.{◌^◌}

-- `resize` and `memcpy` behind the old end.
unfoldable pub write_bytes : ByteBuffer → List ℕ → ByteBuffer
write_bytes b bytes = record b { buffer = b.buffer ++ bytes }

unfoldable pub write_uint8 : ByteBuffer → ℕ → ByteBuffer
write_uint8 b value = record b { buffer = b.buffer ++ (value ∷ []) }

unfoldable pub write_int8 : ByteBuffer → ℤ → ByteBuffer
write_int8 b value = record b { buffer = b.buffer ++ (to_unsigned 256 value ∷ []) }

unfoldable pub write_uint16_be : ByteBuffer → ℕ → ByteBuffer
unfolding write_bytes
write_uint16_be b value = write_bytes b (be_bytes 2 value)

unfoldable pub write_int16_be : ByteBuffer → ℤ → ByteBuffer
unfolding write_uint16_be
write_int16_be b value = write_uint16_be b (to_unsigned (2 ^ 16) value)

unfoldable pub write_uint32_be : ByteBuffer → ℕ → ByteBuffer
unfolding write_bytes
write_uint32_be b value = write_bytes b (be_bytes 4 value)

unfoldable pub write_int32_be : ByteBuffer → ℤ → ByteBuffer
unfolding write_uint32_be
write_int32_be b value = write_uint32_be b (to_unsigned (2 ^ 32) value)

unfoldable pub write_uint64_be : ByteBuffer → ℕ → ByteBuffer
unfolding write_bytes
write_uint64_be b value = write_bytes b (be_bytes 8 value)

unfoldable pub write_int64_be : ByteBuffer → ℤ → ByteBuffer
unfolding write_uint64_be
write_int64_be b value = write_uint64_be b (to_unsigned (2 ^ 64) value)

unfoldable pub write_float_be : ByteBuffer → ℕ → ByteBuffer
unfolding write_uint32_be
write_float_be b bits = write_uint32_be b bits

unfoldable pub write_double_be : ByteBuffer → ℕ → ByteBuffer
unfolding write_uint64_be
write_double_be b bits = write_uint64_be b bits

unfoldable pub write_uint16_le : ByteBuffer → ℕ → ByteBuffer
unfolding write_bytes
write_uint16_le b value = write_bytes b (le_bytes 2 value)

unfoldable pub write_int16_le : ByteBuffer → ℤ → ByteBuffer
unfolding write_uint16_le
write_int16_le b value = write_uint16_le b (to_unsigned (2 ^ 16) value)

unfoldable pub write_uint32_le : ByteBuffer → ℕ → ByteBuffer
unfolding write_bytes
write_uint32_le b value = write_bytes b (le_bytes 4 value)

unfoldable pub write_int32_le : ByteBuffer → ℤ → ByteBuffer
unfolding write_uint32_le
write_int32_le b value = write_uint32_le b (to_unsigned (2 ^ 32) value)

unfoldable pub write_uint64_le : ByteBuffer → ℕ → ByteBuffer
unfolding write_bytes
write_uint64_le b value = write_bytes b (le_bytes 8 value)

unfoldable pub write_int64_le : ByteBuffer → ℤ → ByteBuffer
unfolding write_uint64_le
write_int64_le b value = write_uint64_le b (to_unsigned (2 ^ 64) value)

unfoldable pub write_float_le : ByteBuffer → ℕ → ByteBuffer
unfolding write_uint32_le
write_float_le b bits = write_uint32_le b bits

unfoldable pub write_double_le : ByteBuffer → ℕ → ByteBuffer
unfolding write_uint64_le
write_double_le b bits = write_uint64_le b bits

unfoldable pub write_bool : ByteBuffer → Bool → ByteBuffer
write_bool b value = record b { buffer = b.buffer ++ ((if value then 1 else 0) ∷ []) }

unfoldable pub write_string_raw_be : ByteBuffer → List ℕ → ByteBuffer
unfolding write_bytes
write_string_raw_be b str = write_bytes b str

unfoldable pub write_string_raw_le : ByteBuffer → List ℕ → ByteBuffer
unfolding write_bytes
write_string_raw_le b str = write_bytes b (reverse str)

unfoldable pub write_string_nt_be : ByteBuffer → List ℕ → ByteBuffer
unfolding write_string_raw_be write_uint8
write_string_nt_be b str = write_uint8 (write_string_raw_be b str) 0

unfoldable pub write_string_nt_le : ByteBuffer → List ℕ → ByteBuffer
unfolding write_string_raw_le write_uint8
write_string_nt_le b str = write_uint8 (write_string_raw_le b str) 0
