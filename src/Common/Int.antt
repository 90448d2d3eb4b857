-- ===== src/Common/Int.antt =====
-- Signed machine integers. A value of `int8_t` to `int64_t` is an integer; the code carries it as the
-- bit pattern that `static_cast` to the unsigned type of the same width gives.
use Prim.Native.Nat.{ℕ, ◌+◌, ◌-◌, ◌%◌, ◌<◌}
use purity.Common.Tests.{ltb, if◌then◌else◌}

-- `negsuc n` is -(n + 1).
pub data ℤ : Type 0 where
  pos : ℕ → ℤ
  negsuc : ℕ → ℤ

-- The cast to the unsigned type with `m` values, and back, for an even `m`.
abbrev pub to_unsigned : ℕ → ℤ → ℕ
to_unsigned m (pos n) = n % m
to_unsigned m (negsuc n) = m - 1 - n % m

abbrev pub to_signed : ℕ → ℕ → ℤ
to_signed half u = if ltb u half then pos u else negsuc (half + half - 1 - u)

-- The values of the signed type: from -half to half - 1.
abbrev pub Fits : ℕ → ℤ → Type 0
Fits half (pos n) = n < half
Fits half (negsuc n) = n < half
