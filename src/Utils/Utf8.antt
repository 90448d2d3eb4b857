-- ===== src/Utils/Utf8.antt =====
-- src/common/utils/utf8utils/UTF8Utils.cpp: validation of UTF-8, and ASCII case.
-- The loops over an index `i` are loops over the bytes from `i` on, so `i + k >= len` is a test of
-- their number and `bytes[i + k]` is `get_or rest (k - 1) 0`, where `rest` are the bytes behind `i`.
-- Each round takes a byte at least, so one round for each byte, and one more, are enough.
pub mod Spec
use Prim.Native.Nat.{bit_and}
use purity.Common.{
  ℕ, zero, suc, ◌+◌, ◌-◌, ◌≤◌, ◌<◌, Bool, true, false, not, ◌&&◌, List, [], ◌∷◌, ◌++◌, length, take,
  drop, get_or, ltb, leb, ◌==◌, if◌then◌else◌,
}

-- The early returns of the three multi-byte branches, in order.
unfoldable pub two_bytes : ℕ → List ℕ → Bool
two_bytes c rest =
    not (ltb (length rest) 1) && (bit_and (get_or rest 0 0) 0xC0 == 0x80) && not (ltb c 0xC2)

unfoldable pub three_bytes : ℕ → List ℕ → Bool
three_bytes c rest =
    not (ltb (length rest) 2)
    && (bit_and (get_or rest 0 0) 0xC0 == 0x80)
    && (bit_and (get_or rest 1 0) 0xC0 == 0x80)
    && not ((c == 0xE0) && ltb (get_or rest 0 0) 0xA0)
    && not ((c == 0xED) && leb 0xA0 (get_or rest 0 0))

unfoldable pub four_bytes : ℕ → List ℕ → Bool
four_bytes c rest =
    not (ltb (length rest) 3)
    && (bit_and (get_or rest 0 0) 0xC0 == 0x80)
    && (bit_and (get_or rest 1 0) 0xC0 == 0x80)
    && (bit_and (get_or rest 2 0) 0xC0 == 0x80)
    && not ((c == 0xF0) && ltb (get_or rest 0 0) 0x90)
    && not (ltb 0xF4 c)

-- The number of bytes that the lead byte `c` announces; 0 for one that announces none.
unfoldable pub sequence_length : ℕ → ℕ
sequence_length c =
    if leb c 0x7F
    then 1
    else (if bit_and c 0xE0 == 0xC0
        then 2
        else (if bit_and c 0xF0 == 0xE0 then 3 else (if bit_and c 0xF8 == 0xF0 then 4 else 0)))

-- One round: whether the sequence at the front is accepted.
unfoldable pub accepts : ℕ → ℕ → List ℕ → Bool
accepts zero c rest = false
accepts (suc zero) c rest = true
accepts (suc (suc zero)) c rest = two_bytes c rest
accepts (suc (suc (suc zero))) c rest = three_bytes c rest
accepts (suc (suc (suc (suc n)))) c rest = four_bytes c rest

unfoldable pub valid_loop : ℕ → List ℕ → Bool
valid_loop zero str = false
valid_loop (suc fuel) [] = true
valid_loop (suc fuel) (c ∷ rest) =
    let n = sequence_length c in
    let more = valid_loop fuel (drop (n - 1) rest) in if accepts n c rest then more else false

unfoldable pub is_valid_utf8 : List ℕ → Bool
is_valid_utf8 str = valid_loop (length str + 1) str

-- `std::tolower` and `std::toupper` of the "C" locale.
unfoldable pub to_lower : ℕ → ℕ
to_lower c = if leb b'A' c && leb c b'Z' then c + 32 else c

unfoldable pub to_upper : ℕ → ℕ
to_upper c = if leb b'a' c && leb c b'z' then c - 32 else c

-- The bytes that `substr(i, length)` copies: those of the sequence, one for a stray byte.
unfoldable pub copied_length : ℕ → ℕ
copied_length c =
    if bit_and c 0xE0 == 0xC0
    then 2
    else (if bit_and c 0xF0 == 0xE0 then 3 else (if bit_and c 0xF8 == 0xF0 then 4 else 1))

-- The loop that both functions are, with the case of one ASCII byte as an argument.
unfoldable pub case_loop : (ℕ → ℕ) → ℕ → List ℕ → List ℕ → List ℕ
case_loop f zero str result = result
case_loop f (suc fuel) [] result = result
case_loop f (suc fuel) (c ∷ rest) result =
    let n = copied_length c in
    let ascii = case_loop f fuel rest (result ++ (f c ∷ [])) in
    let multi = case_loop f fuel (drop (n - 1) rest) (result ++ (c ∷ take (n - 1) rest)) in
    if leb c 0x7F then ascii else multi

unfoldable pub to_lowercase : List ℕ → List ℕ
to_lowercase str = case_loop to_lower (length str) str []

unfoldable pub to_uppercase : List ℕ → List ℕ
to_uppercase str = case_loop to_upper (length str) str []
