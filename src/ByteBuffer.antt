-- ===== src/ByteBuffer.antt =====
-- src/common/packet/ByteBuffer.hpp: a growing byte buffer with a read position.
-- The methods are in Write (those that append) and Read (those that consume); the state, the check
-- that every read begins with and the utility methods are here. The position is a `size_t`, so its
-- sums are taken modulo 2 ^ 64. A byte is a number; a string is the list of its bytes.
pub mod Write
pub mod Read
pub mod Wire
pub mod Fields
pub mod Branches
pub mod Bounds
use purity.Common.{
  ℕ, ◌+◌, ◌-◌, ◌^◌, Bool, List, [], Outcome, ok, throw, fault, length, take, drop, ltb, leb,
  add_size, if◌then◌else◌,
}
use purity.Exception.{Exception, not_enough_data, length_error}
use purity.Exception.Source.{ReadSource}
use purity.Exception.Source

pub record ByteBuffer : Type 0 where
  pub buffer : List ℕ
  pub read_pos : ℕ

-- A method that reads: the new state and the result, an exception, or undefined behaviour.
abbrev pub M : Type 0 → Type 0
M A = ByteBuffer → Outcome Exception (A × ByteBuffer)

abbrev pub pure : {A : Type 0} → A → M A
pure a b = ok (a, b)

-- What comes behind a call: nothing, if it threw.
abbrev pub resume :
    {A B : Type 0}
    → Outcome Exception (A × ByteBuffer)
    → (A → M B)
    → Outcome Exception (B × ByteBuffer)
resume (ok (a, b)) f = f a b
resume (throw e) f = throw e
resume fault f = fault

infixl 5 ◌>>=◌ ◌>>◌
abbrev pub ◌>>=◌ : {A B : Type 0} → M A → (A → M B) → M B
◌>>=◌ m f b = resume (m b) f

abbrev pub ◌>>◌ : {B : Type 0} → M (Unit {0}) → M B → M B
m >> k = m >>= λ _. k

-- `ByteBuffer()`
unfoldable pub empty : ByteBuffer
empty = record { buffer = []; read_pos = 0 }

-- `ByteBuffer(const std::vector<uint8_t>& data)`
unfoldable pub of_bytes : List ℕ → ByteBuffer
of_bytes bytes = record { buffer = bytes; read_pos = 0 }

-- `read_pos_ + size > buffer_.size()`, with the sum of two `size_t`.
unfoldable pub check_read : ℕ → ReadSource → M (Unit {0})
check_read size source b =
    if ltb (length b.buffer) (add_size b.read_pos size)
    then throw (not_enough_data source size b.read_pos (length b.buffer))
    else ok (tt, b)

-- The `n` bytes from `read_pos_` on, copied by `memcpy`, by the constructor of a vector from two iterators, or by
-- that of a string from a pointer, and `read_pos_ += n`. Either constructor throws where the length is over
-- `max_size()`, which a length that wraps is; any other copy that runs past the vector's end is undefined
-- behaviour. The address of the vector's end is taken as defined.
unfoldable pub copy_out : ℕ → M (List ℕ)
copy_out n b =
    if leb (b.read_pos + n) (length b.buffer)
    then ok (take n (drop b.read_pos b.buffer), record b { read_pos = b.read_pos + n })
    else if ltb (2 ^ 63 - 1) n
    then throw length_error
    else fault

unfoldable pub skip : ℕ → M (Unit {0})
unfolding check_read
skip bytes = do
  check_read bytes ReadSource.skip
  λ b. ok (tt, record b { read_pos = add_size b.read_pos bytes })

unfoldable pub clear : ByteBuffer → ByteBuffer
clear b = record { buffer = []; read_pos = 0 }

unfoldable pub reset_read : ByteBuffer → ByteBuffer
reset_read b = record b { read_pos = 0 }

unfoldable pub size : ByteBuffer → ℕ
size b = length b.buffer
