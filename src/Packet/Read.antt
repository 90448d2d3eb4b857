-- ===== src/Packet/Read.antt =====
-- src/common/packet/Packet.hpp: the reading methods, each of which calls the buffer's.
use purity.Common.{ℕ, Bool, List}
use purity.Common.Int.{ℤ}
use purity.ByteBuffer
use purity.Packet.{Reader, with_buffer}

unfoldable pub read_uint8 : Reader ℕ
read_uint8 p = with_buffer p (ByteBuffer.Read.read_uint8 p.buffer)

unfoldable pub read_int8 : Reader ℤ
read_int8 p = with_buffer p (ByteBuffer.Read.read_int8 p.buffer)

unfoldable pub read_uint16_be : Reader ℕ
read_uint16_be p = with_buffer p (ByteBuffer.Read.read_uint16_be p.buffer)

unfoldable pub read_int16_be : Reader ℤ
read_int16_be p = with_buffer p (ByteBuffer.Read.read_int16_be p.buffer)

unfoldable pub read_uint32_be : Reader ℕ
read_uint32_be p = with_buffer p (ByteBuffer.Read.read_uint32_be p.buffer)

unfoldable pub read_int32_be : Reader ℤ
read_int32_be p = with_buffer p (ByteBuffer.Read.read_int32_be p.buffer)

unfoldable pub read_uint64_be : Reader ℕ
read_uint64_be p = with_buffer p (ByteBuffer.Read.read_uint64_be p.buffer)

unfoldable pub read_int64_be : Reader ℤ
read_int64_be p = with_buffer p (ByteBuffer.Read.read_int64_be p.buffer)

unfoldable pub read_float_be : Reader ℕ
read_float_be p = with_buffer p (ByteBuffer.Read.read_float_be p.buffer)

unfoldable pub read_double_be : Reader ℕ
read_double_be p = with_buffer p (ByteBuffer.Read.read_double_be p.buffer)

unfoldable pub read_uint16_le : Reader ℕ
read_uint16_le p = with_buffer p (ByteBuffer.Read.read_uint16_le p.buffer)

unfoldable pub read_int16_le : Reader ℤ
read_int16_le p = with_buffer p (ByteBuffer.Read.read_int16_le p.buffer)

unfoldable pub read_uint32_le : Reader ℕ
read_uint32_le p = with_buffer p (ByteBuffer.Read.read_uint32_le p.buffer)

unfoldable pub read_int32_le : Reader ℤ
read_int32_le p = with_buffer p (ByteBuffer.Read.read_int32_le p.buffer)

unfoldable pub read_uint64_le : Reader ℕ
read_uint64_le p = with_buffer p (ByteBuffer.Read.read_uint64_le p.buffer)

unfoldable pub read_int64_le : Reader ℤ
read_int64_le p = with_buffer p (ByteBuffer.Read.read_int64_le p.buffer)

unfoldable pub read_float_le : Reader ℕ
read_float_le p = with_buffer p (ByteBuffer.Read.read_float_le p.buffer)

unfoldable pub read_double_le : Reader ℕ
read_double_le p = with_buffer p (ByteBuffer.Read.read_double_le p.buffer)

unfoldable pub read_bool : Reader Bool
read_bool p = with_buffer p (ByteBuffer.Read.read_bool p.buffer)

unfoldable pub read_string_raw_be : ℕ → Reader (List ℕ)
read_string_raw_be length p = with_buffer p (ByteBuffer.Read.read_string_raw_be length p.buffer)

unfoldable pub read_string_raw_le : ℕ → Reader (List ℕ)
read_string_raw_le length p = with_buffer p (ByteBuffer.Read.read_string_raw_le length p.buffer)

unfoldable pub read_bytes : ℕ → Reader (List ℕ)
read_bytes length p = with_buffer p (ByteBuffer.Read.read_bytes length p.buffer)

unfoldable pub read_string_nt_be : Reader (List ℕ)
read_string_nt_be p = with_buffer p (ByteBuffer.Read.read_string_nt_be p.buffer)

unfoldable pub read_string_nt_le : Reader (List ℕ)
read_string_nt_le p = with_buffer p (ByteBuffer.Read.read_string_nt_le p.buffer)
