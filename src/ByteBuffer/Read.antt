-- ===== src/ByteBuffer/Read.antt =====
-- src/common/packet/ByteBuffer.hpp: the methods that consume.
-- Each begins with `check_read` and copies from `&buffer_[read_pos_]`; the strings that end in a null
-- byte are read by a loop that has no check. `memcpy` with `be16toh` to `le64toh` behind it is
-- `be_value` and `le_value`. A float or a double is its bit pattern.
use purity.Common.{
  ℕ, ◌+◌, ◌^◌, Bool, not, List, [], ◌∷◌, ◌++◌, reverse, drop, get_or, ok, ◌==◌, if◌then◌else◌,
}
use purity.Common.Int.{ℤ, to_signed}
use purity.Bytes.{be_value, le_value}
use purity.Exception.Source.{ReadSource}
use purity.ByteBuffer.{M, pure, ◌>>=◌, ◌>>◌, check_read, copy_out}

unfoldable pub read_uint8 : M ℕ
read_uint8 = do check_read 1 ReadSource.read_uint8; bytes ← copy_out 1; pure (get_or bytes 0 0)

unfoldable pub read_int8 : M ℤ
read_int8 = do value ← read_uint8; pure (to_signed 128 value)

unfoldable pub read_uint16_be : M ℕ
read_uint16_be = do
  check_read 2 ReadSource.read_uint16_be
  bytes ← copy_out 2
  pure (be_value bytes)

unfoldable pub read_int16_be : M ℤ
read_int16_be = do value ← read_uint16_be; pure (to_signed (2 ^ 15) value)

unfoldable pub read_uint32_be : M ℕ
read_uint32_be = do
  check_read 4 ReadSource.read_uint32_be
  bytes ← copy_out 4
  pure (be_value bytes)

unfoldable pub read_int32_be : M ℤ
read_int32_be = do value ← read_uint32_be; pure (to_signed (2 ^ 31) value)

unfoldable pub read_uint64_be : M ℕ
read_uint64_be = do
  check_read 8 ReadSource.read_uint64_be
  bytes ← copy_out 8
  pure (be_value bytes)

unfoldable pub read_int64_be : M ℤ
read_int64_be = do value ← read_uint64_be; pure (to_signed (2 ^ 63) value)

unfoldable pub read_float_be : M ℕ
read_float_be = do bits ← read_uint32_be; pure bits

unfoldable pub read_double_be : M ℕ
read_double_be = do bits ← read_uint64_be; pure bits

unfoldable pub read_uint16_le : M ℕ
read_uint16_le = do
  check_read 2 ReadSource.read_uint16_le
  bytes ← copy_out 2
  pure (le_value bytes)

unfoldable pub read_int16_le : M ℤ
read_int16_le = do value ← read_uint16_le; pure (to_signed (2 ^ 15) value)

unfoldable pub read_uint32_le : M ℕ
read_uint32_le = do
  check_read 4 ReadSource.read_uint32_le
  bytes ← copy_out 4
  pure (le_value bytes)

unfoldable pub read_int32_le : M ℤ
read_int32_le = do value ← read_uint32_le; pure (to_signed (2 ^ 31) value)

unfoldable pub read_uint64_le : M ℕ
read_uint64_le = do
  check_read 8 ReadSource.read_uint64_le
  bytes ← copy_out 8
  pure (le_value bytes)

unfoldable pub read_int64_le : M ℤ
read_int64_le = do value ← read_uint64_le; pure (to_signed (2 ^ 63) value)

unfoldable pub read_float_le : M ℕ
read_float_le = do bits ← read_uint32_le; pure bits

unfoldable pub read_double_le : M ℕ
read_double_le = do bits ← read_uint64_le; pure bits

unfoldable pub read_bool : M Bool
read_bool = do check_read 1 ReadSource.read_bool; value ← read_uint8; pure (not (value == 0))

unfoldable pub read_bytes : ℕ → M (List ℕ)
read_bytes length = do check_read length ReadSource.read_bytes; copy_out length

unfoldable pub read_string_raw_be : ℕ → M (List ℕ)
read_string_raw_be length = do check_read length ReadSource.read_string_raw; copy_out length

unfoldable pub read_string_raw_le : ℕ → M (List ℕ)
read_string_raw_le length = do
  check_read length ReadSource.read_string_raw
  str ← copy_out length
  pure (reverse str)

-- The loop `while (read_pos_ < buffer_.size())`, over the bytes from `read_pos_` on, which is `pos`:
-- the string read so far and the position at the end.
unfoldable pub read_nt_loop : List ℕ → List ℕ → ℕ → List ℕ × ℕ
read_nt_loop [] str pos = (str, pos)
read_nt_loop (c ∷ rest) str pos =
    let more = read_nt_loop rest (str ++ (c ∷ [])) (pos + 1) in
    if c == 0 then (str, pos + 1) else more

unfoldable pub read_string_nt_be : M (List ℕ)
read_string_nt_be b =
    let (str, pos) = read_nt_loop (drop b.read_pos b.buffer) [] b.read_pos in
    ok (str, record b { read_pos = pos })

unfoldable pub read_string_nt_le : M (List ℕ)
read_string_nt_le b =
    let (str, pos) = read_nt_loop (drop b.read_pos b.buffer) [] b.read_pos in
    ok (reverse str, record b { read_pos = pos })
