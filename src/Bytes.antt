-- ===== src/Bytes.antt =====
-- The byte order of integers in memory: what `htobe16` to `htole64` followed by `memcpy`, and `memcpy`
-- followed by `be16toh` to `le64toh`, do in src/common/packet/ByteBuffer.hpp.
-- A byte is a number below 256; a width is a number of bytes.
pub mod RoundTrip
use purity.Common.{ℕ, zero, suc, ◌+◌, ◌*◌, ◌/◌, ◌%◌, ◌<◌, List, [], ◌∷◌, reverse, All}

abbrev pub IsByte : ℕ → Type 0
IsByte b = b < 256

abbrev pub AllBytes : List ℕ → Type 0
AllBytes = All IsByte

-- The low `w` bytes of a number, least significant first.
unfoldable pub le_bytes : ℕ → ℕ → List ℕ
le_bytes zero v = []
le_bytes (suc w) v = v % 256 ∷ le_bytes w (v / 256)

unfoldable pub be_bytes : ℕ → ℕ → List ℕ
unfolding le_bytes
be_bytes w v = reverse (le_bytes w v)

unfoldable pub le_value : List ℕ → ℕ
le_value [] = 0
le_value (b ∷ bs) = b + 256 * le_value bs

unfoldable pub be_value : List ℕ → ℕ
unfolding le_value
be_value bs = le_value (reverse bs)
