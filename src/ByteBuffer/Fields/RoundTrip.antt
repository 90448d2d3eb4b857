-- ===== src/ByteBuffer/Fields/RoundTrip.antt =====
-- src/common/packet/ByteBuffer.hpp: each write appends its wire format, and each read undoes it.
use mathlib.Core.List.{reverse-reverse, reverse-cons}
use purity.Common.{
  ℕ, ◌<◌, ◌^◌, ◌≡◌, refl, ap, List, [], ◌∷◌, ◌++◌, reverse, append_assoc, ok, length,
  length-reverse, All-append, All, arith,
}
use purity.Common.Int.{ℤ, pos, negsuc, to_unsigned, to_signed, Fits}
use purity.ByteBuffer.{ByteBuffer}
use purity.ByteBuffer.Wire.{before, behind, Small}
use purity.ByteBuffer.Write.{
  write_uint8, write_int8, write_uint16_be, write_int16_be, write_uint32_be, write_int32_be,
  write_uint64_be, write_int64_be, write_float_be, write_double_be, write_uint16_le, write_int16_le,
  write_uint32_le, write_int32_le, write_uint64_le, write_int64_le, write_float_le, write_double_le,
  write_bool, write_string_raw_be, write_string_raw_le, write_string_nt_be, write_string_nt_le,
  write_bytes,
}
use purity.ByteBuffer.Read.{
  read_int8, read_int16_be, read_int32_be, read_int64_be, read_float_be, read_double_be,
  read_int16_le, read_int32_le, read_int64_le, read_float_le, read_double_le,
}
use purity.ByteBuffer.Fields.{
  Field, write_field, read_field, encode, IsValid, uint8, int8, uint16_be, int16_be, uint32_be,
  int32_be, uint64_be, int64_be, float_be, double_be, uint16_le, int16_le, uint32_le, int32_le,
  uint64_le, int64_le, float_le, double_le, bool, string_raw_be, string_raw_le, string_nt_be,
  string_nt_le, bytes,
}
use purity.ByteBuffer.Fields.Reads.{
  read_uint8-before, read_uint16_be-before, read_uint32_be-before, read_uint64_be-before,
  read_uint16_le-before, read_uint32_le-before, read_uint64_le-before, read_bool-before,
  read_bytes-before, read_string_raw_be-before, read_string_raw_le-before, read_string_nt_be-before,
  read_string_nt_le-before,
}

pub write_field-encode :
    (b : ByteBuffer) (f : Field) → write_field b f ≡ record b { buffer = b.buffer ++ encode f }
unfolding write_field encode write_uint8 write_int8 write_uint16_be write_int16_be write_uint32_be
    write_int32_be write_uint64_be write_int64_be write_float_be write_double_be write_uint16_le
    write_int16_le write_uint32_le write_int32_le write_uint64_le write_int64_le write_float_le
    write_double_le write_bool write_string_raw_be write_string_raw_le write_string_nt_be
    write_string_nt_le write_bytes
write_field-encode b (uint8 v) = refl
write_field-encode b (int8 v) = refl
write_field-encode b (uint16_be v) = refl
write_field-encode b (int16_be v) = refl
write_field-encode b (uint32_be v) = refl
write_field-encode b (int32_be v) = refl
write_field-encode b (uint64_be v) = refl
write_field-encode b (int64_be v) = refl
write_field-encode b (float_be v) = refl
write_field-encode b (double_be v) = refl
write_field-encode b (uint16_le v) = refl
write_field-encode b (int16_le v) = refl
write_field-encode b (uint32_le v) = refl
write_field-encode b (int32_le v) = refl
write_field-encode b (uint64_le v) = refl
write_field-encode b (int64_le v) = refl
write_field-encode b (float_le v) = refl
write_field-encode b (double_le v) = refl
write_field-encode b (bool v) = refl
write_field-encode b (string_raw_be v) = refl
write_field-encode b (string_raw_le v) = refl
write_field-encode b (string_nt_be v) =
    ap (λ x. record b { buffer = x }) (append_assoc b.buffer v (0 ∷ []))
write_field-encode b (string_nt_le v) =
    ap (λ x. record b { buffer = x }) (append_assoc b.buffer (reverse v) (0 ∷ []))
write_field-encode b (bytes v) = refl

pub to_unsigned-lt : (m : ℕ) (z : ℤ) → 0 < m → to_unsigned m z < m
to_unsigned-lt m (pos n) h = omega arith
to_unsigned-lt m (negsuc n) h = omega arith

pub to_signed-to_unsigned_8 :
    (z : ℤ) → Fits (2 ^ 7) z → to_signed (2 ^ 7) (to_unsigned (2 ^ 8) z) ≡ z
to_signed-to_unsigned_8 z h = ground arith

pub to_signed-to_unsigned_16 :
    (z : ℤ) → Fits (2 ^ 15) z → to_signed (2 ^ 15) (to_unsigned (2 ^ 16) z) ≡ z
to_signed-to_unsigned_16 z h = ground arith

pub to_signed-to_unsigned_32 :
    (z : ℤ) → Fits (2 ^ 31) z → to_signed (2 ^ 31) (to_unsigned (2 ^ 32) z) ≡ z
to_signed-to_unsigned_32 z h = ground arith

pub to_signed-to_unsigned_64 :
    (z : ℤ) → Fits (2 ^ 63) z → to_signed (2 ^ 63) (to_unsigned (2 ^ 64) z) ≡ z
to_signed-to_unsigned_64 z h = ground arith

pub All-reverse : (xs : List ℕ) → All (λ c. 0 < c) xs → All (λ c. 0 < c) (reverse xs)
All-reverse [] h = tt
All-reverse (x ∷ xs) h =
    rw (reverse-cons x xs)
      (All-append (λ c. 0 < c) (reverse xs) (x ∷ []) (All-reverse xs h.1) (h.0, tt))

-- Reading a field where its wire format stands gives it back, and moves just behind it.
pub read_field-encode :
    (f : Field) (pre post : List ℕ)
    → IsValid f
    → Small (pre ++ (encode f ++ post))
    → read_field f (before pre (encode f) post) ≡ ok (f, behind pre (encode f) post)
unfolding read_field encode
read_field-encode (uint8 v) pre post h small = rw (read_uint8-before v pre post small)
read_field-encode (int8 z) pre post h small =
    unfold read_int8 in
    rw (read_uint8-before (to_unsigned (2 ^ 8) z) pre post small, to_signed-to_unsigned_8 z h)
read_field-encode (uint16_be v) pre post h small = rw (read_uint16_be-before v pre post h small)
read_field-encode (int16_be z) pre post h small =
    unfold read_int16_be in
    rw (
      read_uint16_be-before (to_unsigned (2 ^ 16) z) pre post
          (to_unsigned-lt (2 ^ 16) z (omega arith)) small,
      to_signed-to_unsigned_16 z h,
    )
read_field-encode (uint32_be v) pre post h small = rw (read_uint32_be-before v pre post h small)
read_field-encode (int32_be z) pre post h small =
    unfold read_int32_be in
    rw (
      read_uint32_be-before (to_unsigned (2 ^ 32) z) pre post
          (to_unsigned-lt (2 ^ 32) z (omega arith)) small,
      to_signed-to_unsigned_32 z h,
    )
read_field-encode (uint64_be v) pre post h small = rw (read_uint64_be-before v pre post h small)
read_field-encode (int64_be z) pre post h small =
    unfold read_int64_be in
    rw (
      read_uint64_be-before (to_unsigned (2 ^ 64) z) pre post
          (to_unsigned-lt (2 ^ 64) z (omega arith)) small,
      to_signed-to_unsigned_64 z h,
    )
read_field-encode (float_be v) pre post h small =
    unfold read_float_be in rw (read_uint32_be-before v pre post h small)
read_field-encode (double_be v) pre post h small =
    unfold read_double_be in rw (read_uint64_be-before v pre post h small)
read_field-encode (uint16_le v) pre post h small = rw (read_uint16_le-before v pre post h small)
read_field-encode (int16_le z) pre post h small =
    unfold read_int16_le in
    rw (
      read_uint16_le-before (to_unsigned (2 ^ 16) z) pre post
          (to_unsigned-lt (2 ^ 16) z (omega arith)) small,
      to_signed-to_unsigned_16 z h,
    )
read_field-encode (uint32_le v) pre post h small = rw (read_uint32_le-before v pre post h small)
read_field-encode (int32_le z) pre post h small =
    unfold read_int32_le in
    rw (
      read_uint32_le-before (to_unsigned (2 ^ 32) z) pre post
          (to_unsigned-lt (2 ^ 32) z (omega arith)) small,
      to_signed-to_unsigned_32 z h,
    )
read_field-encode (uint64_le v) pre post h small = rw (read_uint64_le-before v pre post h small)
read_field-encode (int64_le z) pre post h small =
    unfold read_int64_le in
    rw (
      read_uint64_le-before (to_unsigned (2 ^ 64) z) pre post
          (to_unsigned-lt (2 ^ 64) z (omega arith)) small,
      to_signed-to_unsigned_64 z h,
    )
read_field-encode (float_le v) pre post h small =
    unfold read_float_le in rw (read_uint32_le-before v pre post h small)
read_field-encode (double_le v) pre post h small =
    unfold read_double_le in rw (read_uint64_le-before v pre post h small)
read_field-encode (bool v) pre post h small = rw (read_bool-before v pre post small)
read_field-encode (string_raw_be v) pre post h small =
    rw (read_string_raw_be-before (length v) v pre post refl small)
read_field-encode (string_raw_le v) pre post h small = rw (
  read_string_raw_le-before (length v) (reverse v) pre post (length-reverse v) small,
  reverse-reverse v,
)
read_field-encode (string_nt_be v) pre post h small = rw (read_string_nt_be-before v pre post h)
read_field-encode (string_nt_le v) pre post h small =
    rw (read_string_nt_le-before (reverse v) pre post (All-reverse v h), reverse-reverse v)
read_field-encode (bytes v) pre post h small =
    rw (read_bytes-before (length v) v pre post refl small)
