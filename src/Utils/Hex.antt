-- ===== src/Utils/Hex.antt =====
-- src/common/utils/HexUtils.hpp: hexadecimal digits and left padding.
pub mod Laws
use purity.Common.{
  ℕ, ◌+◌, ◌-◌, ◌*◌, ◌/◌, ◌%◌, ◌≤◌, ◌<◌, not, ◌&&◌, List, [], ◌∷◌, ◌++◌, Outcome, ok, throw, fault,
  ◌>>=◌, length, replicate, ltb, leb, ◌==◌, if◌then◌else◌,
}
use purity.Exception.{Exception, source_too_long, odd_length, bad_hex_digit}

unfoldable pub hex_char_to_int : ℕ → Outcome Exception ℕ
hex_char_to_int c =
    if leb b'0' c && leb c b'9'
    then ok (c - b'0')
    else (if leb b'a' c && leb c b'f'
        then ok (c - b'a' + 10)
        else (if leb b'A' c && leb c b'F' then ok (c - b'A' + 10) else throw bad_hex_digit))

-- The loop over pairs. `(hi << 4) | lo` joins two numbers below 16, whose bits do not meet.
unfoldable pub hex_pairs : List ℕ → Outcome Exception (List ℕ)
hex_pairs [] = ok []
hex_pairs (a ∷ []) = throw odd_length
hex_pairs (a ∷ b ∷ rest) = do
  hi ← hex_char_to_int a
  lo ← hex_char_to_int b
  bytes ← hex_pairs rest
  ok ((hi * 16 + lo) ∷ bytes)

unfoldable pub hex_to_bytes : List ℕ → Outcome Exception (List ℕ)
hex_to_bytes hex = if not (length hex % 2 == 0) then throw odd_length else hex_pairs hex

-- A digit of `std::hex`.
unfoldable pub hex_digit : ℕ → ℕ
hex_digit n = if ltb n 10 then b'0' + n else b'a' + (n - 10)

-- `setw(2)` and `setfill('0')` make two digits of each byte.
unfoldable pub bytes_to_hex : List ℕ → List ℕ
bytes_to_hex [] = []
bytes_to_hex (b ∷ bs) = hex_digit (b / 16) ∷ hex_digit (b % 16) ∷ bytes_to_hex bs

unfoldable pub pad_bytes_left : List ℕ → ℕ → Outcome Exception (List ℕ)
pad_bytes_left src target_size =
    if ltb target_size (length src)
    then throw source_too_long
    else (if length src == target_size
        then ok src
        else ok (replicate (target_size - length src) 0 ++ src))
