-- ===== src/ByteBuffer/Bounds.antt =====
-- src/common/packet/ByteBuffer.hpp: what the reads of all kinds leave of the buffer.
use purity.Common.{
  ltb, add_size, lt→ltb, ℕ, ◌+◌, ◌-◌, ◌≤◌, ◌<◌, ◌^◌, ◌≡◌, refl, List, [], ◌∷◌, ◌++◌, Outcome, ok,
  throw, fault, length, drop, length-drop, get_or, reverse, not, ◌==◌, Bool-cases, inl, inr, arith,
  leb,
}
use purity.Common.Int.{to_signed}
use purity.Bytes.{be_value, le_value}
use purity.Exception.{Exception, length_error}
use purity.Exception.Source.{ReadSource}
use purity.Exception.Source
use purity.ByteBuffer.{ByteBuffer, M, pure, resume, check_read, copy_out, skip}
use purity.ByteBuffer.Wire.{check_read-ok, check_read-throw, copy_out-ok}
use purity.ByteBuffer.Read.{
  read_bool, read_bytes, read_string_raw_be, read_string_raw_le, read_string_nt_be,
  read_string_nt_le, read_nt_loop, read_uint8, read_int8, read_uint16_be, read_int16_be,
  read_uint32_be, read_int32_be, read_uint64_be, read_int64_be, read_float_be, read_double_be,
  read_uint16_le, read_int16_le, read_uint32_le, read_int32_le, read_uint64_le, read_int64_le,
  read_float_le, read_double_le,
}
use purity.ByteBuffer.Fields.{
  Field, read_field, uint8, int8, uint16_be, int16_be, uint32_be, int32_be, uint64_be, int64_be,
  float_be, double_be, uint16_le, int16_le, uint32_le, int32_le, uint64_le, int64_le, float_le,
  double_le, bool, string_raw_be, string_raw_le, string_nt_be, string_nt_le, bytes,
}
use purity.ByteBuffer.Branches.{IsValid, read_bytes_cases, skip_cases}

-- What a read may do to a buffer: move the position forward inside it, or throw.
abbrev pub Safe : {A : Type 0} → ByteBuffer → Outcome Exception (A × ByteBuffer) → Type 0
Safe b (ok (a, b')) =
    (b'.buffer ≡ b.buffer) × (b.read_pos ≤ b'.read_pos) × (b'.read_pos ≤ length b.buffer)
Safe b (throw e) = Unit {0}
Safe b fault = ⊥

-- The check and the copy that every read of known length makes.
copy-Safe :
    (n : ℕ) (source : ReadSource) (b : ByteBuffer)
    → IsValid b
    → length b.buffer + n < 2 ^ 64
    → Safe b (resume (check_read n source b) λ _. copy_out n)
copy-Safe n source b v h = elim (Bool-cases (leb (b.read_pos + n) (length b.buffer))) [
  | inl fits ↦
      rw (check_read-ok n source b v.small (ground arith), copy_out-ok n b (ground arith))
        (refl, omega arith, ground arith)
  | inr short ↦ rw (check_read-throw n source b (ground arith) (omega (arith, v.in_bounds))) tt
]

-- `read_bytes` is safe for every length, wrapping ones too, in a buffer of less than 2 ^ 63 bytes.
pub read_bytes-Safe :
    (n : ℕ) (b : ByteBuffer) → IsValid b → length b.buffer < 2 ^ 63 → Safe b (read_bytes n b)
unfolding read_bytes check_read copy_out
read_bytes-Safe n b v h = elim (Bool-cases (ltb (length b.buffer) (add_size b.read_pos n))) [
  | inl short ↦ rw short tt
  | inr through ↦ rw through (elim (Bool-cases (leb (b.read_pos + n) (length b.buffer))) [
    | inl fits ↦ rw fits (refl, omega arith, ground arith)
    | inr past ↦ rw (past, lt→ltb (2 ^ 63 - 1) n (ground arith)) tt
  ])
]

resume-resume :
    {A B C : Type 0} (r : Outcome Exception (A × ByteBuffer)) (f : M B) (g : B → M C)
    → resume r (λ _ b. resume (f b) g) ≡ resume (resume r λ _. f) g
resume-resume (ok (a, b)) f g = refl
resume-resume (throw e) f g = refl
resume-resume fault f g = refl

Safe-map :
    {A B : Type 0} (f : A → B) (b : ByteBuffer) (r : Outcome Exception (A × ByteBuffer))
    → Safe b r
    → Safe b (resume r λ a. pure (f a))
Safe-map f b (ok (a, b')) h = h
Safe-map f b (throw e) h = tt
Safe-map f b fault h = h

-- The same, with what is done to the bytes.
fetch-Safe :
    {A : Type 0} (n : ℕ) (source : ReadSource) (k : List ℕ → A) (b : ByteBuffer)
    → IsValid b
    → length b.buffer + n < 2 ^ 64
    → Safe b (resume (check_read n source b) λ _ b'. resume (copy_out n b') λ run. pure (k run))
fetch-Safe n source k b v h =
    rw (resume-resume (check_read n source b) (copy_out n) (λ run. pure (k run)))
      (Safe-map k b _ (copy-Safe n source b v h))

read_nt_loop_bounds :
    (rest str : List ℕ) (p : ℕ)
    → let (s, q) = read_nt_loop rest str p in (p ≤ q) × (q ≤ p + length rest)
unfolding read_nt_loop
read_nt_loop_bounds [] str p = omega arith
read_nt_loop_bounds (c ∷ rest) str p =
    ground (arith, read_nt_loop_bounds rest (str ++ (c ∷ [])) (p + 1))

-- Only the end position matters for the strings that end in a null byte.
nt-Safe :
    (b : ByteBuffer)
    → IsValid b
    → let (str, p) = read_nt_loop (drop b.read_pos b.buffer) [] b.read_pos in
      (b.buffer ≡ b.buffer) × (b.read_pos ≤ p) × (p ≤ length b.buffer)
nt-Safe b v =
    let h = read_nt_loop_bounds (drop b.read_pos b.buffer) [] b.read_pos in
    (refl, h.0, omega (arith, h.1, length-drop b.read_pos b.buffer, v.in_bounds))

read_bool-Safe : (b : ByteBuffer) → IsValid b → length b.buffer + 8 < 2 ^ 64 → Safe b (read_bool b)
unfolding read_bool read_uint8
read_bool-Safe b v h = elim (Bool-cases (leb (b.read_pos + 1) (length b.buffer))) [
  | inl fits ↦ rw (check_read-ok 1 Source.read_bool b v.small (ground arith)) (
      Safe-map (λ x. not (x == 0)) b _
        (fetch-Safe 1 Source.read_uint8 (λ run. get_or run 0 0) b v (omega arith)))
  | inr short ↦
      rw (check_read-throw 1 Source.read_bool b (ground arith) (omega (arith, v.in_bounds))) tt
]

-- The length that a read is given.
abbrev pub wanted : Field → ℕ
wanted (string_raw_be s) = length s
wanted (string_raw_le s) = length s
wanted (bytes s) = length s
wanted _ = 8

-- No read of any kind leaves a valid buffer, changes its bytes or moves backwards, and none runs past
-- the end, as long as the size asked for does not take the buffer's size past 2 ^ 64.
pub read_field-Safe :
    (f : Field) (b : ByteBuffer)
    → IsValid b
    → length b.buffer + wanted f < 2 ^ 64
    → Safe b (read_field f b)
unfolding read_field read_uint8 read_int8 read_uint16_be read_int16_be read_uint32_be read_int32_be
    read_uint64_be read_int64_be read_float_be read_double_be read_uint16_le read_int16_le
    read_uint32_le read_int32_le read_uint64_le read_int64_le read_float_le read_double_le read_bool
    read_bytes read_string_raw_be read_string_raw_le read_string_nt_be read_string_nt_le
read_field-Safe (uint8 v) b valid h =
    Safe-map uint8 b _
      (fetch-Safe 1 Source.read_uint8 (λ run. get_or run 0 0) b valid (omega arith))
read_field-Safe (int8 v) b valid h = Safe-map int8 b _ (
    Safe-map (to_signed (2 ^ 7)) b _
      (fetch-Safe 1 Source.read_uint8 (λ run. get_or run 0 0) b valid (omega arith)))
read_field-Safe (uint16_be v) b valid h =
    Safe-map uint16_be b _ (fetch-Safe 2 Source.read_uint16_be be_value b valid (omega arith))
read_field-Safe (int16_be v) b valid h = Safe-map int16_be b _ (
    Safe-map (to_signed (2 ^ 15)) b _
      (fetch-Safe 2 Source.read_uint16_be be_value b valid (omega arith)))
read_field-Safe (uint32_be v) b valid h =
    Safe-map uint32_be b _ (fetch-Safe 4 Source.read_uint32_be be_value b valid (omega arith))
read_field-Safe (int32_be v) b valid h = Safe-map int32_be b _ (
    Safe-map (to_signed (2 ^ 31)) b _
      (fetch-Safe 4 Source.read_uint32_be be_value b valid (omega arith)))
read_field-Safe (uint64_be v) b valid h =
    Safe-map uint64_be b _ (fetch-Safe 8 Source.read_uint64_be be_value b valid (omega arith))
read_field-Safe (int64_be v) b valid h = Safe-map int64_be b _ (
    Safe-map (to_signed (2 ^ 63)) b _
      (fetch-Safe 8 Source.read_uint64_be be_value b valid (omega arith)))
read_field-Safe (float_be v) b valid h = Safe-map float_be b _ (
    Safe-map (λ bits. bits) b _ (fetch-Safe 4 Source.read_uint32_be be_value b valid (omega arith)))
read_field-Safe (double_be v) b valid h = Safe-map double_be b _ (
    Safe-map (λ bits. bits) b _ (fetch-Safe 8 Source.read_uint64_be be_value b valid (omega arith)))
read_field-Safe (uint16_le v) b valid h =
    Safe-map uint16_le b _ (fetch-Safe 2 Source.read_uint16_le le_value b valid (omega arith))
read_field-Safe (int16_le v) b valid h = Safe-map int16_le b _ (
    Safe-map (to_signed (2 ^ 15)) b _
      (fetch-Safe 2 Source.read_uint16_le le_value b valid (omega arith)))
read_field-Safe (uint32_le v) b valid h =
    Safe-map uint32_le b _ (fetch-Safe 4 Source.read_uint32_le le_value b valid (omega arith))
read_field-Safe (int32_le v) b valid h = Safe-map int32_le b _ (
    Safe-map (to_signed (2 ^ 31)) b _
      (fetch-Safe 4 Source.read_uint32_le le_value b valid (omega arith)))
read_field-Safe (uint64_le v) b valid h =
    Safe-map uint64_le b _ (fetch-Safe 8 Source.read_uint64_le le_value b valid (omega arith))
read_field-Safe (int64_le v) b valid h = Safe-map int64_le b _ (
    Safe-map (to_signed (2 ^ 63)) b _
      (fetch-Safe 8 Source.read_uint64_le le_value b valid (omega arith)))
read_field-Safe (float_le v) b valid h = Safe-map float_le b _ (
    Safe-map (λ bits. bits) b _ (fetch-Safe 4 Source.read_uint32_le le_value b valid (omega arith)))
read_field-Safe (double_le v) b valid h = Safe-map double_le b _ (
    Safe-map (λ bits. bits) b _ (fetch-Safe 8 Source.read_uint64_le le_value b valid (omega arith)))
read_field-Safe (bool v) b valid h = Safe-map bool b _ (read_bool-Safe b valid (omega arith))
read_field-Safe (string_raw_be v) b valid h =
    Safe-map string_raw_be b _ (copy-Safe (length v) Source.read_string_raw b valid h)
read_field-Safe (string_raw_le v) b valid h =
    Safe-map string_raw_le b _ (fetch-Safe (length v) Source.read_string_raw reverse b valid h)
read_field-Safe (string_nt_be v) b valid h = nt-Safe b valid
read_field-Safe (string_nt_le v) b valid h = nt-Safe b valid
read_field-Safe (bytes v) b valid h =
    Safe-map bytes b _ (copy-Safe (length v) Source.read_bytes b valid h)

-- A length that makes the sum with the position pass 2 ^ 64 gets through the check; the constructor of the
-- vector throws, and no byte is read.
pub read_bytes-wraps :
    (n : ℕ) (b : ByteBuffer)
    → IsValid b
    → n < 2 ^ 64
    → length b.buffer < 2 ^ 63
    → 2 ^ 64 ≤ b.read_pos + n
    → read_bytes n b ≡ throw length_error
read_bytes-wraps n b v h roomy wrap = (read_bytes_cases n b v h roomy).2 wrap

-- With such a length `skip` moves the position backwards, without an exception.
pub skip-wraps :
    (n : ℕ) (b : ByteBuffer)
    → IsValid b
    → n < 2 ^ 64
    → 2 ^ 64 ≤ b.read_pos + n
    → (skip n b ≡ ok (tt, record b { read_pos = b.read_pos + n - 2 ^ 64 }))
      × (b.read_pos + n - 2 ^ 64 < b.read_pos)
skip-wraps n b v h wrap = ((skip_cases n b v h).2 wrap, omega arith)
