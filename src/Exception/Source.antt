-- ===== src/Exception/Source.antt =====
-- src/common/packet/ByteBuffer.hpp: `ReadSource`, the names of the operations in its error messages.
use Prim.Native.String.{String}

pub data ReadSource : Type 0 where
  read_uint8 read_int8 : ReadSource
  read_uint16_be read_uint32_be read_uint64_be : ReadSource
  read_int16_be read_int32_be read_int64_be read_float_be read_double_be : ReadSource
  read_uint16_le read_uint32_le read_uint64_le : ReadSource
  read_int16_le read_int32_le read_int64_le read_float_le read_double_le : ReadSource
  read_bool read_string_raw read_bytes skip read_field unknown : ReadSource

unfoldable pub read_source_to_string : ReadSource → String
read_source_to_string read_uint8 = "read_uint8"
read_source_to_string read_int8 = "read_int8"
read_source_to_string read_uint16_be = "read_uint16_be"
read_source_to_string read_uint32_be = "read_uint32_be"
read_source_to_string read_uint64_be = "read_uint64_be"
read_source_to_string read_int16_be = "read_int16_be"
read_source_to_string read_int32_be = "read_int32_be"
read_source_to_string read_int64_be = "read_int64_be"
read_source_to_string read_float_be = "read_float_be"
read_source_to_string read_double_be = "read_double_be"
read_source_to_string read_uint16_le = "read_uint16_le"
read_source_to_string read_uint32_le = "read_uint32_le"
read_source_to_string read_uint64_le = "read_uint64_le"
read_source_to_string read_int16_le = "read_int16_le"
read_source_to_string read_int32_le = "read_int32_le"
read_source_to_string read_int64_le = "read_int64_le"
read_source_to_string read_float_le = "read_float_le"
read_source_to_string read_double_le = "read_double_le"
read_source_to_string read_bool = "read_bool"
read_source_to_string read_string_raw = "read_string_raw"
read_source_to_string read_bytes = "read_bytes"
read_source_to_string skip = "skip"
read_source_to_string read_field = "ReadField"
read_source_to_string unknown = "unknown"
