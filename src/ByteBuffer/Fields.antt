-- ===== src/ByteBuffer/Fields.antt =====
-- src/common/packet/ByteBuffer.hpp: one value of each kind that a buffer carries, and its wire format.
-- `Field` is what a caller writes by one call and reads by the matching one; `encode` says, without
-- the buffer, which bytes stand for it.
pub mod Reads
pub mod RoundTrip
pub mod Sequence
use purity.Common.{ℕ, ◌<◌, ◌^◌, Bool, List, [], ◌∷◌, ◌++◌, reverse, length, All, if◌then◌else◌}
use purity.Common.Int.{ℤ, to_unsigned, Fits}
use purity.Bytes.{be_bytes, le_bytes}
use purity.ByteBuffer.{ByteBuffer, M, pure, ◌>>=◌}
use purity.ByteBuffer.Write.{
  write_uint8, write_int8, write_uint16_be, write_int16_be, write_uint32_be, write_int32_be,
  write_uint64_be, write_int64_be, write_float_be, write_double_be, write_uint16_le, write_int16_le,
  write_uint32_le, write_int32_le, write_uint64_le, write_int64_le, write_float_le, write_double_le,
  write_bool, write_string_raw_be, write_string_raw_le, write_string_nt_be, write_string_nt_le,
  write_bytes,
}
use purity.ByteBuffer.Read.{
  read_uint8, read_int8, read_uint16_be, read_int16_be, read_uint32_be, read_int32_be,
  read_uint64_be, read_int64_be, read_float_be, read_double_be, read_uint16_le, read_int16_le,
  read_uint32_le, read_int32_le, read_uint64_le, read_int64_le, read_float_le, read_double_le,
  read_bool, read_string_raw_be, read_string_raw_le, read_string_nt_be, read_string_nt_le,
  read_bytes,
}

pub data Field : Type 0 where
  uint8 : ℕ → Field
  int8 : ℤ → Field
  uint16_be : ℕ → Field
  int16_be : ℤ → Field
  uint32_be : ℕ → Field
  int32_be : ℤ → Field
  uint64_be : ℕ → Field
  int64_be : ℤ → Field
  float_be : ℕ → Field
  double_be : ℕ → Field
  uint16_le : ℕ → Field
  int16_le : ℤ → Field
  uint32_le : ℕ → Field
  int32_le : ℤ → Field
  uint64_le : ℕ → Field
  int64_le : ℤ → Field
  float_le : ℕ → Field
  double_le : ℕ → Field
  bool : Bool → Field
  string_raw_be : List ℕ → Field
  string_raw_le : List ℕ → Field
  string_nt_be : List ℕ → Field
  string_nt_le : List ℕ → Field
  bytes : List ℕ → Field

unfoldable pub write_field : ByteBuffer → Field → ByteBuffer
write_field b (uint8 v) = write_uint8 b v
write_field b (int8 v) = write_int8 b v
write_field b (uint16_be v) = write_uint16_be b v
write_field b (int16_be v) = write_int16_be b v
write_field b (uint32_be v) = write_uint32_be b v
write_field b (int32_be v) = write_int32_be b v
write_field b (uint64_be v) = write_uint64_be b v
write_field b (int64_be v) = write_int64_be b v
write_field b (float_be v) = write_float_be b v
write_field b (double_be v) = write_double_be b v
write_field b (uint16_le v) = write_uint16_le b v
write_field b (int16_le v) = write_int16_le b v
write_field b (uint32_le v) = write_uint32_le b v
write_field b (int32_le v) = write_int32_le b v
write_field b (uint64_le v) = write_uint64_le b v
write_field b (int64_le v) = write_int64_le b v
write_field b (float_le v) = write_float_le b v
write_field b (double_le v) = write_double_le b v
write_field b (bool v) = write_bool b v
write_field b (string_raw_be v) = write_string_raw_be b v
write_field b (string_raw_le v) = write_string_raw_le b v
write_field b (string_nt_be v) = write_string_nt_be b v
write_field b (string_nt_le v) = write_string_nt_le b v
write_field b (bytes v) = write_bytes b v

-- Reads a field of the same kind, and for a raw string or bytes of the same length.
unfoldable pub read_field : Field → M Field
read_field (uint8 _) = do v ← read_uint8; pure (uint8 v)
read_field (int8 _) = do v ← read_int8; pure (int8 v)
read_field (uint16_be _) = do v ← read_uint16_be; pure (uint16_be v)
read_field (int16_be _) = do v ← read_int16_be; pure (int16_be v)
read_field (uint32_be _) = do v ← read_uint32_be; pure (uint32_be v)
read_field (int32_be _) = do v ← read_int32_be; pure (int32_be v)
read_field (uint64_be _) = do v ← read_uint64_be; pure (uint64_be v)
read_field (int64_be _) = do v ← read_int64_be; pure (int64_be v)
read_field (float_be _) = do v ← read_float_be; pure (float_be v)
read_field (double_be _) = do v ← read_double_be; pure (double_be v)
read_field (uint16_le _) = do v ← read_uint16_le; pure (uint16_le v)
read_field (int16_le _) = do v ← read_int16_le; pure (int16_le v)
read_field (uint32_le _) = do v ← read_uint32_le; pure (uint32_le v)
read_field (int32_le _) = do v ← read_int32_le; pure (int32_le v)
read_field (uint64_le _) = do v ← read_uint64_le; pure (uint64_le v)
read_field (int64_le _) = do v ← read_int64_le; pure (int64_le v)
read_field (float_le _) = do v ← read_float_le; pure (float_le v)
read_field (double_le _) = do v ← read_double_le; pure (double_le v)
read_field (bool _) = do v ← read_bool; pure (bool v)
read_field (string_raw_be v) = do v' ← read_string_raw_be (length v); pure (string_raw_be v')
read_field (string_raw_le v) = do v' ← read_string_raw_le (length v); pure (string_raw_le v')
read_field (string_nt_be _) = do v ← read_string_nt_be; pure (string_nt_be v)
read_field (string_nt_le _) = do v ← read_string_nt_le; pure (string_nt_le v)
read_field (bytes v) = do v' ← read_bytes (length v); pure (bytes v')

unfoldable pub encode : Field → List ℕ
encode (uint8 v) = v ∷ []
encode (int8 v) = to_unsigned 256 v ∷ []
encode (uint16_be v) = be_bytes 2 v
encode (int16_be v) = be_bytes 2 (to_unsigned (2 ^ 16) v)
encode (uint32_be v) = be_bytes 4 v
encode (int32_be v) = be_bytes 4 (to_unsigned (2 ^ 32) v)
encode (uint64_be v) = be_bytes 8 v
encode (int64_be v) = be_bytes 8 (to_unsigned (2 ^ 64) v)
encode (float_be v) = be_bytes 4 v
encode (double_be v) = be_bytes 8 v
encode (uint16_le v) = le_bytes 2 v
encode (int16_le v) = le_bytes 2 (to_unsigned (2 ^ 16) v)
encode (uint32_le v) = le_bytes 4 v
encode (int32_le v) = le_bytes 4 (to_unsigned (2 ^ 32) v)
encode (uint64_le v) = le_bytes 8 v
encode (int64_le v) = le_bytes 8 (to_unsigned (2 ^ 64) v)
encode (float_le v) = le_bytes 4 v
encode (double_le v) = le_bytes 8 v
encode (bool v) = (if v then 1 else 0) ∷ []
encode (string_raw_be v) = v
encode (string_raw_le v) = reverse v
encode (string_nt_be v) = v ++ (0 ∷ [])
encode (string_nt_le v) = reverse v ++ (0 ∷ [])
encode (bytes v) = v

-- The value lies in its type; a string that ends in a null byte has no other.
abbrev pub IsValid : Field → Type 0
IsValid (uint8 v) = v < 2 ^ 8
IsValid (int8 v) = Fits (2 ^ 7) v
IsValid (uint16_be v) = v < 2 ^ 16
IsValid (int16_be v) = Fits (2 ^ 15) v
IsValid (uint32_be v) = v < 2 ^ 32
IsValid (int32_be v) = Fits (2 ^ 31) v
IsValid (uint64_be v) = v < 2 ^ 64
IsValid (int64_be v) = Fits (2 ^ 63) v
IsValid (float_be v) = v < 2 ^ 32
IsValid (double_be v) = v < 2 ^ 64
IsValid (uint16_le v) = v < 2 ^ 16
IsValid (int16_le v) = Fits (2 ^ 15) v
IsValid (uint32_le v) = v < 2 ^ 32
IsValid (int32_le v) = Fits (2 ^ 31) v
IsValid (uint64_le v) = v < 2 ^ 64
IsValid (int64_le v) = Fits (2 ^ 63) v
IsValid (float_le v) = v < 2 ^ 32
IsValid (double_le v) = v < 2 ^ 64
IsValid (bool v) = Unit {0}
IsValid (string_raw_be v) = Unit {0}
IsValid (string_raw_le v) = Unit {0}
IsValid (string_nt_be v) = All (λ c. 0 < c) v
IsValid (string_nt_le v) = All (λ c. 0 < c) v
IsValid (bytes v) = Unit {0}
