-- ===== src/ByteBuffer/Branches.antt =====
-- src/common/packet/ByteBuffer.hpp: `read_bytes` and `skip` on every branch.
use purity.Common.{ℕ, ◌+◌, ◌-◌, ◌≤◌, ◌<◌, ◌^◌, ◌≡◌, ok, throw, length, take, drop, arith}
use purity.Exception.{not_enough_data, length_error}
use purity.Exception.Source.{ReadSource}
use purity.Exception.Source
use purity.ByteBuffer.{ByteBuffer, check_read, copy_out, skip}
use purity.ByteBuffer.Wire.{Small, check_read-ok, check_read-throw, copy_out-ok}
use purity.ByteBuffer.Read.{read_bytes}

-- The read position stands inside the buffer or at its end.
pub record IsValid (b : ByteBuffer) : Type 0 where
  pub in_bounds : b.read_pos ≤ length b.buffer
  pub small : Small b.buffer

check_read-wraps :
    (n : ℕ) (source : ReadSource) (b : ByteBuffer)
    → IsValid b
    → n < 2 ^ 64
    → 2 ^ 64 ≤ b.read_pos + n
    → check_read n source b ≡ ok (tt, b)
unfolding check_read
check_read-wraps n source b v h wrap = ground arith

copy_out-long :
    (n : ℕ) (b : ByteBuffer)
    → length b.buffer < b.read_pos + n
    → 2 ^ 63 ≤ n
    → copy_out n b ≡ throw length_error
unfolding copy_out
copy_out-long n b h long = ground arith

-- In a valid buffer of less than 2 ^ 63 bytes `read_bytes(n)`, for every `n` of type `size_t`, gives the next `n` bytes and moves
-- behind them where there are that many; it throws where there are fewer; but where `read_pos_ + n`
-- passes 2 ^ 64 the sum wraps, the check lets the call through, and it is the vector's constructor that throws.
pub read_bytes_cases :
    (n : ℕ) (b : ByteBuffer)
    → IsValid b
    → n < 2 ^ 64
    → length b.buffer < 2 ^ 63
    → (b.read_pos + n ≤ length b.buffer
        → read_bytes n b
          ≡ ok (take n (drop b.read_pos b.buffer), record b { read_pos = b.read_pos + n }))
      × (length b.buffer < b.read_pos + n
          → b.read_pos + n < 2 ^ 64
          → read_bytes n b
            ≡ throw (not_enough_data Source.read_bytes n b.read_pos (length b.buffer)))
      × (2 ^ 64 ≤ b.read_pos + n → read_bytes n b ≡ throw length_error)
unfolding read_bytes
read_bytes_cases n b v h roomy = (
  λ fits. rw (check_read-ok n Source.read_bytes b v.small fits, copy_out-ok n b fits),
  λ short sum. rw (check_read-throw n Source.read_bytes b short sum),
  λ wrap.
      rw (check_read-wraps n Source.read_bytes b v h wrap) (
        copy_out-long n b (omega (arith, v.in_bounds, v.small))
          (omega (arith, v.in_bounds, roomy))),
)

-- `skip` moves the position forward within the buffer, or throws; where the sum wraps it moves the
-- position backwards and reports no error.
pub skip_cases :
    (n : ℕ) (b : ByteBuffer)
    → IsValid b
    → n < 2 ^ 64
    → (b.read_pos + n ≤ length b.buffer
        → skip n b ≡ ok (tt, record b { read_pos = b.read_pos + n }))
      × (length b.buffer < b.read_pos + n
          → b.read_pos + n < 2 ^ 64
          → skip n b ≡ throw (not_enough_data Source.skip n b.read_pos (length b.buffer)))
      × (2 ^ 64 ≤ b.read_pos + n
          → skip n b ≡ ok (tt, record b { read_pos = b.read_pos + n - 2 ^ 64 }))
unfolding skip check_read
skip_cases n b v h = (λ fits. ground arith, λ short sum. ground arith, λ wrap. ground arith)
