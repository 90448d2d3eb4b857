-- ===== src/Utils/Hex/Laws.antt =====
-- src/common/utils/HexUtils.hpp: digits and bytes undo one another; padding keeps the number.

use purity.Common.{
  ℕ, zero, suc, ◌+◌, ◌-◌, ◌*◌, ◌/◌, ◌%◌, ◌≤◌, ◌<◌, ◌≡◌, refl, ◌∙◌, inl, inr, List, [], ◌∷◌, ◌++◌,
  ok, throw, length, length-append, length-replicate, replicate, ltb, ◌==◌, Bool-cases, arith,
  All-append, lt→ltb, false,
}
use purity.Bytes.{AllBytes, IsByte, be_value, le_value}
use purity.Bytes.RoundTrip.{be_value-append}
use purity.Exception.{source_too_long}
use purity.Utils.Hex.{
  hex_char_to_int, hex_pairs, hex_to_bytes, hex_digit, bytes_to_hex, pad_bytes_left,
}

hex_char_to_int-hex_digit : (n : ℕ) → n < 16 → hex_char_to_int (hex_digit n) ≡ ok n
unfolding hex_char_to_int hex_digit
hex_char_to_int-hex_digit n h = ground arith

hex_pairs-bytes_to_hex : (bs : List ℕ) → AllBytes bs → hex_pairs (bytes_to_hex bs) ≡ ok bs
unfolding hex_pairs bytes_to_hex
hex_pairs-bytes_to_hex [] h = refl
hex_pairs-bytes_to_hex (b ∷ bs) h =
    let value : b / 16 * 16 + b % 16 ≡ b = omega arith in
    rw
      (
        hex_char_to_int-hex_digit (b / 16) (omega (arith, h.0)),
        hex_char_to_int-hex_digit (b % 16) (omega arith),
        hex_pairs-bytes_to_hex bs h.1,
        value,
      )
      refl

length-bytes_to_hex : (bs : List ℕ) → length (bytes_to_hex bs) ≡ 2 * length bs
unfolding bytes_to_hex
length-bytes_to_hex [] = refl
length-bytes_to_hex (b ∷ bs) = omega (arith, length-bytes_to_hex bs)

-- Bytes printed in hexadecimal are read back.
pub hex_to_bytes-bytes_to_hex : (bs : List ℕ) → AllBytes bs → hex_to_bytes (bytes_to_hex bs) ≡ ok bs
unfolding hex_to_bytes
hex_to_bytes-bytes_to_hex bs h =
    let even : length (bytes_to_hex bs) % 2 ≡ 0 = omega (arith, length-bytes_to_hex bs) in
    rw even (hex_pairs-bytes_to_hex bs h)

be_value-zeros : (n : ℕ) → be_value (replicate n 0) ≡ 0
be_value-zeros zero = unfold be_value in refl
be_value-zeros (suc n) =
    let zero_byte : be_value (0 ∷ []) ≡ 0 = unfold be_value le_value in refl in
    be_value-append (0 ∷ []) (replicate n 0) ∙ rw (zero_byte, be_value-zeros n) (omega arith)

zeros-AllBytes : (n : ℕ) → AllBytes (replicate n 0)
zeros-AllBytes zero = tt
zeros-AllBytes (suc n) = (omega arith, zeros-AllBytes n)

-- The bytes that a source is padded to.
pub padded : List ℕ → ℕ → List ℕ
padded src n = replicate (n - length src) 0 ++ src

pad_bytes_left-ok :
    (src : List ℕ) (n : ℕ) → length src ≤ n → pad_bytes_left src n ≡ ok (padded src n)
unfolding pad_bytes_left padded
pad_bytes_left-ok src n h =
    let fits : ltb n (length src) ≡ false = ground arith in
    elim (Bool-cases (length src == n)) [
      | inl same ↦
          let none_left : n - length src ≡ 0 = ground arith in rw (fits, same, none_left) refl
      | inr less ↦ rw (fits, less) refl
    ]

-- Padding to a size that is large enough gives that size and the same big-endian number; to a smaller
-- one it throws.
pub pad_bytes_left_cases :
    (src : List ℕ) (n : ℕ)
    → (length src ≤ n
        → (pad_bytes_left src n ≡ ok (padded src n))
          × (length (padded src n) ≡ n)
          × (be_value (padded src n) ≡ be_value src)
          × (AllBytes src → AllBytes (padded src n)))
      × (n < length src → pad_bytes_left src n ≡ throw source_too_long)
unfolding padded
pad_bytes_left_cases src n =
    let zeros = replicate (n - length src) 0 in
    (
      λ fits. (
        pad_bytes_left-ok src n fits,
        omega (arith, length-append zeros src, length-replicate {A = ℕ} (n - length src) 0),
        be_value-append zeros src ∙ rw (be_value-zeros (n - length src)) (omega arith),
        All-append IsByte zeros src (zeros-AllBytes (n - length src)),
      ),
      λ long. unfold pad_bytes_left in rw (lt→ltb n (length src) long) refl,
    )

-- `pad_bytes_left` of a source that fits gives a target of the size asked for, with the same
-- big-endian value.
pub pad_bytes_left-padded :
    (src : List ℕ) (n : ℕ)
    → length src ≤ n
    → (pad_bytes_left src n ≡ ok (padded src n))
      × (length (padded src n) ≡ n)
      × (be_value (padded src n) ≡ be_value src)
pad_bytes_left-padded src n h =
    let (e, len, value, _) = (pad_bytes_left_cases src n).0 h in (e, len, value)
