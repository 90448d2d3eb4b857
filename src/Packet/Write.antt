-- ===== src/Packet/Write.antt =====
-- src/common/packet/Packet.hpp: the writing methods, each of which calls the buffer's.
use purity.Common.{ℕ, Bool, List}
use purity.Common.Int.{ℤ}
use purity.ByteBuffer
use purity.Packet.{Packet}

unfoldable pub write_uint8 : Packet → ℕ → Packet
write_uint8 p value = record p { buffer = ByteBuffer.Write.write_uint8 p.buffer value }

unfoldable pub write_int8 : Packet → ℤ → Packet
write_int8 p value = record p { buffer = ByteBuffer.Write.write_int8 p.buffer value }

unfoldable pub write_uint16_be : Packet → ℕ → Packet
write_uint16_be p value = record p { buffer = ByteBuffer.Write.write_uint16_be p.buffer value }

unfoldable pub write_int16_be : Packet → ℤ → Packet
write_int16_be p value = record p { buffer = ByteBuffer.Write.write_int16_be p.buffer value }

unfoldable pub write_uint32_be : Packet → ℕ → Packet
write_uint32_be p value = record p { buffer = ByteBuffer.Write.write_uint32_be p.buffer value }

unfoldable pub write_int32_be : Packet → ℤ → Packet
write_int32_be p value = record p { buffer = ByteBuffer.Write.write_int32_be p.buffer value }

unfoldable pub write_uint64_be : Packet → ℕ → Packet
write_uint64_be p value = record p { buffer = ByteBuffer.Write.write_uint64_be p.buffer value }

unfoldable pub write_int64_be : Packet → ℤ → Packet
write_int64_be p value = record p { buffer = ByteBuffer.Write.write_int64_be p.buffer value }

unfoldable pub write_float_be : Packet → ℕ → Packet
write_float_be p value = record p { buffer = ByteBuffer.Write.write_float_be p.buffer value }

unfoldable pub write_double_be : Packet → ℕ → Packet
write_double_be p value = record p { buffer = ByteBuffer.Write.write_double_be p.buffer value }

unfoldable pub write_uint16_le : Packet → ℕ → Packet
write_uint16_le p value = record p { buffer = ByteBuffer.Write.write_uint16_le p.buffer value }

unfoldable pub write_int16_le : Packet → ℤ → Packet
write_int16_le p value = record p { buffer = ByteBuffer.Write.write_int16_le p.buffer value }

unfoldable pub write_uint32_le : Packet → ℕ → Packet
write_uint32_le p value = record p { buffer = ByteBuffer.Write.write_uint32_le p.buffer value }

unfoldable pub write_int32_le : Packet → ℤ → Packet
write_int32_le p value = record p { buffer = ByteBuffer.Write.write_int32_le p.buffer value }

unfoldable pub write_uint64_le : Packet → ℕ → Packet
write_uint64_le p value = record p { buffer = ByteBuffer.Write.write_uint64_le p.buffer value }

unfoldable pub write_int64_le : Packet → ℤ → Packet
write_int64_le p value = record p { buffer = ByteBuffer.Write.write_int64_le p.buffer value }

unfoldable pub write_float_le : Packet → ℕ → Packet
write_float_le p value = record p { buffer = ByteBuffer.Write.write_float_le p.buffer value }

unfoldable pub write_double_le : Packet → ℕ → Packet
write_double_le p value = record p { buffer = ByteBuffer.Write.write_double_le p.buffer value }

unfoldable pub write_bool : Packet → Bool → Packet
write_bool p value = record p { buffer = ByteBuffer.Write.write_bool p.buffer value }

unfoldable pub write_string_raw_be : Packet → List ℕ → Packet
write_string_raw_be p str = record p { buffer = ByteBuffer.Write.write_string_raw_be p.buffer str }

unfoldable pub write_string_raw_le : Packet → List ℕ → Packet
write_string_raw_le p str = record p { buffer = ByteBuffer.Write.write_string_raw_le p.buffer str }

unfoldable pub write_string_nt_be : Packet → List ℕ → Packet
write_string_nt_be p str = record p { buffer = ByteBuffer.Write.write_string_nt_be p.buffer str }

unfoldable pub write_string_nt_le : Packet → List ℕ → Packet
write_string_nt_le p str = record p { buffer = ByteBuffer.Write.write_string_nt_le p.buffer str }

unfoldable pub write_bytes : Packet → List ℕ → Packet
write_bytes p bytes = record p { buffer = ByteBuffer.Write.write_bytes p.buffer bytes }
