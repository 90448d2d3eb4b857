-- ===== src/ByteBuffer/Fields/Reads.antt =====
-- src/common/packet/ByteBuffer.hpp: each read, where its wire format stands in the buffer.
use purity.Common.{
  ℕ, ◌+◌, ◌<◌, ◌^◌, ◌≡◌, refl, Bool, true, false, List, [], ◌∷◌, ◌++◌, reverse, append_assoc, ok,
  length, length-append, drop, drop-append, All, if◌then◌else◌,
}
use purity.Bytes.{be_bytes, le_bytes}
use purity.Bytes.RoundTrip.{length-be_bytes, length-le_bytes, be_value-be_bytes, le_value-le_bytes}
use purity.Exception.Source
use purity.ByteBuffer.Wire.{
  before, behind, Small, check_read-before, copy_out-before, read_nt_loop-append,
}
use purity.ByteBuffer.Read.{
  read_nt_loop, read_uint8, read_uint16_be, read_uint32_be, read_uint64_be, read_uint16_le,
  read_uint32_le, read_uint64_le, read_bool, read_string_raw_be, read_string_raw_le,
  read_string_nt_be, read_string_nt_le, read_bytes,
}

-- One read of fixed width: the check passes, and the copy gives the bytes.

pub read_uint8-before :
    (v : ℕ) (pre post : List ℕ)
    → Small (pre ++ ((v ∷ []) ++ post))
    → read_uint8 (before pre (v ∷ []) post) ≡ ok (v, behind pre (v ∷ []) post)
unfolding read_uint8
read_uint8-before v pre post small = rw (
  check_read-before 1 Source.read_uint8 pre (v ∷ []) post refl small,
  copy_out-before 1 pre (v ∷ []) post refl,
)

pub read_uint16_be-before :
    (v : ℕ) (pre post : List ℕ)
    → v < 2 ^ 16
    → Small (pre ++ (be_bytes 2 v ++ post))
    → read_uint16_be (before pre (be_bytes 2 v) post) ≡ ok (v, behind pre (be_bytes 2 v) post)
unfolding read_uint16_be
read_uint16_be-before v pre post h small =
    let e : length (be_bytes 2 v) ≡ 2 = length-be_bytes 2 v in
    rw (
      check_read-before 2 Source.read_uint16_be pre (be_bytes 2 v) post e small,
      copy_out-before 2 pre (be_bytes 2 v) post e,
      be_value-be_bytes 2 v h,
    )

pub read_uint32_be-before :
    (v : ℕ) (pre post : List ℕ)
    → v < 2 ^ 32
    → Small (pre ++ (be_bytes 4 v ++ post))
    → read_uint32_be (before pre (be_bytes 4 v) post) ≡ ok (v, behind pre (be_bytes 4 v) post)
unfolding read_uint32_be
read_uint32_be-before v pre post h small =
    let e : length (be_bytes 4 v) ≡ 4 = length-be_bytes 4 v in
    rw (
      check_read-before 4 Source.read_uint32_be pre (be_bytes 4 v) post e small,
      copy_out-before 4 pre (be_bytes 4 v) post e,
      be_value-be_bytes 4 v h,
    )

pub read_uint64_be-before :
    (v : ℕ) (pre post : List ℕ)
    → v < 2 ^ 64
    → Small (pre ++ (be_bytes 8 v ++ post))
    → read_uint64_be (before pre (be_bytes 8 v) post) ≡ ok (v, behind pre (be_bytes 8 v) post)
unfolding read_uint64_be
read_uint64_be-before v pre post h small =
    let e : length (be_bytes 8 v) ≡ 8 = length-be_bytes 8 v in
    rw (
      check_read-before 8 Source.read_uint64_be pre (be_bytes 8 v) post e small,
      copy_out-before 8 pre (be_bytes 8 v) post e,
      be_value-be_bytes 8 v h,
    )

pub read_uint16_le-before :
    (v : ℕ) (pre post : List ℕ)
    → v < 2 ^ 16
    → Small (pre ++ (le_bytes 2 v ++ post))
    → read_uint16_le (before pre (le_bytes 2 v) post) ≡ ok (v, behind pre (le_bytes 2 v) post)
unfolding read_uint16_le
read_uint16_le-before v pre post h small =
    let e : length (le_bytes 2 v) ≡ 2 = length-le_bytes 2 v in
    rw (
      check_read-before 2 Source.read_uint16_le pre (le_bytes 2 v) post e small,
      copy_out-before 2 pre (le_bytes 2 v) post e,
      le_value-le_bytes 2 v h,
    )

pub read_uint32_le-before :
    (v : ℕ) (pre post : List ℕ)
    → v < 2 ^ 32
    → Small (pre ++ (le_bytes 4 v ++ post))
    → read_uint32_le (before pre (le_bytes 4 v) post) ≡ ok (v, behind pre (le_bytes 4 v) post)
unfolding read_uint32_le
read_uint32_le-before v pre post h small =
    let e : length (le_bytes 4 v) ≡ 4 = length-le_bytes 4 v in
    rw (
      check_read-before 4 Source.read_uint32_le pre (le_bytes 4 v) post e small,
      copy_out-before 4 pre (le_bytes 4 v) post e,
      le_value-le_bytes 4 v h,
    )

pub read_uint64_le-before :
    (v : ℕ) (pre post : List ℕ)
    → v < 2 ^ 64
    → Small (pre ++ (le_bytes 8 v ++ post))
    → read_uint64_le (before pre (le_bytes 8 v) post) ≡ ok (v, behind pre (le_bytes 8 v) post)
unfolding read_uint64_le
read_uint64_le-before v pre post h small =
    let e : length (le_bytes 8 v) ≡ 8 = length-le_bytes 8 v in
    rw (
      check_read-before 8 Source.read_uint64_le pre (le_bytes 8 v) post e small,
      copy_out-before 8 pre (le_bytes 8 v) post e,
      le_value-le_bytes 8 v h,
    )

pub read_bool-before :
    (v : Bool) (pre post : List ℕ)
    → Small (pre ++ (((if v then 1 else 0) ∷ []) ++ post))
    → read_bool (before pre ((if v then 1 else 0) ∷ []) post)
      ≡ ok (v, behind pre ((if v then 1 else 0) ∷ []) post)
unfolding read_bool
read_bool-before true pre post small = rw (
  check_read-before 1 Source.read_bool pre (1 ∷ []) post refl small,
  read_uint8-before 1 pre post small,
)
read_bool-before false pre post small = rw (
  check_read-before 1 Source.read_bool pre (0 ∷ []) post refl small,
  read_uint8-before 0 pre post small,
)

-- Raw strings and bytes of a length that is given.
pub read_bytes-before :
    (n : ℕ) (run pre post : List ℕ)
    → length run ≡ n
    → Small (pre ++ (run ++ post))
    → read_bytes n (before pre run post) ≡ ok (run, behind pre run post)
unfolding read_bytes
read_bytes-before n run pre post e small =
    rw
      (check_read-before n Source.read_bytes pre run post e small, copy_out-before n pre run post e)

pub read_string_raw_be-before :
    (n : ℕ) (str pre post : List ℕ)
    → length str ≡ n
    → Small (pre ++ (str ++ post))
    → read_string_raw_be n (before pre str post) ≡ ok (str, behind pre str post)
unfolding read_string_raw_be
read_string_raw_be-before n str pre post e small = rw (
  check_read-before n Source.read_string_raw pre str post e small,
  copy_out-before n pre str post e,
)

pub read_string_raw_le-before :
    (n : ℕ) (str pre post : List ℕ)
    → length str ≡ n
    → Small (pre ++ (str ++ post))
    → read_string_raw_le n (before pre str post) ≡ ok (reverse str, behind pre str post)
unfolding read_string_raw_le
read_string_raw_le-before n str pre post e small = rw (
  check_read-before n Source.read_string_raw pre str post e small,
  copy_out-before n pre str post e,
)

-- Strings that end in a null byte.
nt_loop-before :
    (str pre post : List ℕ)
    → All (λ c. 0 < c) str
    → read_nt_loop (drop (length pre) (pre ++ ((str ++ (0 ∷ [])) ++ post))) [] (length pre)
      ≡ (str, length pre + length (str ++ (0 ∷ [])))
nt_loop-before str pre post h = rw (
  drop-append (length pre) pre ((str ++ (0 ∷ [])) ++ post) refl,
  append_assoc str (0 ∷ []) post,
  read_nt_loop-append str post [] (length pre) h,
  length-append str (0 ∷ []),
)

pub read_string_nt_be-before :
    (str pre post : List ℕ)
    → All (λ c. 0 < c) str
    → read_string_nt_be (before pre (str ++ (0 ∷ [])) post)
      ≡ ok (str, behind pre (str ++ (0 ∷ [])) post)
unfolding read_string_nt_be
read_string_nt_be-before str pre post h = rw (nt_loop-before str pre post h)

pub read_string_nt_le-before :
    (str pre post : List ℕ)
    → All (λ c. 0 < c) str
    → read_string_nt_le (before pre (str ++ (0 ∷ [])) post)
      ≡ ok (reverse str, behind pre (str ++ (0 ∷ [])) post)
unfolding read_string_nt_le
read_string_nt_le-before str pre post h = rw (nt_loop-before str pre post h)
