-- ===== src/Utils/Generators.antt =====
-- src/common/utils/generators/GeneratorUtils.cpp: random values.
-- The distributions of the standard library over `std::mt19937` are the argument `Engine`, with the state of
-- `gen`, which every call shares. A float is its bit pattern. A draw with two bounds lies between them.
use purity.Common.{ℕ, ◌≤◌, ◌<◌, ◌%◌, ◌^◌, ◌≡◌, Bool, arith}
use purity.Common.Int.{ℤ, to_unsigned, to_signed, Fits}
use purity.ByteBuffer.Fields.RoundTrip.{to_signed-to_unsigned_8}

pub record Engine : Type 1 where
  pub State : Type 0
  pub uniform_int : ℕ → ℕ → State → ℕ × State
  pub uniform_int-within : (lo hi : ℕ) (s : State) → lo ≤ hi → (uniform_int lo hi s).0 ≤ hi
  -- from -half to half - 1
  pub uniform_signed : ℕ → State → ℤ × State
  pub uniform_signed-Fits : (half : ℕ) (s : State) → 0 < half → Fits half (uniform_signed half s).0
  pub uniform_float : ℕ → ℕ → State → ℕ × State
  pub uniform_double : ℕ → ℕ → State → ℕ × State
  pub bernoulli : State → Bool × State

-- The distribution is over 16 bits, and the draw is cast.
unfoldable pub random_uint8 : (x : Engine) → x.State → ℕ × x.State
random_uint8 x s = let (r, s') = x.uniform_int 0 255 s in (r % 2 ^ 8, s')

unfoldable pub random_uint16 : (x : Engine) → x.State → ℕ × x.State
random_uint16 x s = x.uniform_int 0 65535 s

-- Without bounds a distribution has those of its type.
unfoldable pub random_uint32 : (x : Engine) → x.State → ℕ × x.State
random_uint32 x s = x.uniform_int 0 4294967295 s

unfoldable pub random_uint64 : (x : Engine) → x.State → ℕ × x.State
random_uint64 x s = x.uniform_int 0 18446744073709551615 s

unfoldable pub random_int8 : (x : Engine) → x.State → ℤ × x.State
random_int8 x s =
    let (r, s') = x.uniform_signed (2 ^ 7) s in (to_signed (2 ^ 7) (to_unsigned (2 ^ 8) r), s')

unfoldable pub random_int16 : (x : Engine) → x.State → ℤ × x.State
random_int16 x s = x.uniform_signed (2 ^ 15) s

unfoldable pub random_int32 : (x : Engine) → x.State → ℤ × x.State
random_int32 x s = x.uniform_signed (2 ^ 31) s

unfoldable pub random_int64 : (x : Engine) → x.State → ℤ × x.State
random_int64 x s = x.uniform_signed (2 ^ 63) s

unfoldable pub random_float : (x : Engine) → ℕ → ℕ → x.State → ℕ × x.State
random_float x min max s = x.uniform_float min max s

unfoldable pub random_double : (x : Engine) → ℕ → ℕ → x.State → ℕ × x.State
random_double x min max s = x.uniform_double min max s

unfoldable pub random_bool : (x : Engine) → x.State → Bool × x.State
random_bool x s = x.bernoulli s

-- The casts to 8 bits lose nothing, and every unsigned value is in the range of its type.
pub random-in_range :
    (x : Engine) (s : x.State)
    → ((random_uint8 x s).0 ≡ (x.uniform_int 0 255 s).0)
      × ((random_int8 x s).0 ≡ (x.uniform_signed (2 ^ 7) s).0)
      × ((random_uint16 x s).0 < 2 ^ 16)
      × ((random_uint32 x s).0 < 2 ^ 32)
      × ((random_uint64 x s).0 < 2 ^ 64)
unfolding random_uint8 random_int8 random_uint16 random_uint32 random_uint64
random-in_range x s = (
  omega (arith, x.uniform_int-within 0 255 s (omega arith)),
  to_signed-to_unsigned_8 _ (x.uniform_signed-Fits (2 ^ 7) s (omega arith)),
  omega (arith, x.uniform_int-within 0 65535 s (omega arith)),
  omega (arith, x.uniform_int-within 0 4294967295 s (omega arith)),
  omega (arith, x.uniform_int-within 0 18446744073709551615 s (omega arith)),
)
