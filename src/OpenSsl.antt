-- ===== src/OpenSsl.antt =====
-- What the program uses of OpenSSL. A `BIGNUM` is the number that it holds, which is what its functions
-- are documented to compute on; a call is a function of the numbers, and memory is not modelled.

use purity.Common.{ℕ, ◌+◌, ◌*◌, ◌%◌, ◌^◌, ◌<◌, ◌≤◌, ◌≡◌, List, length}
use purity.Bytes.{AllBytes, be_value}

pub record OpenSsl : Type 0 where
  -- `SHA1`: a digest of SHA_DIGEST_LENGTH = 20 bytes.
  pub sha1 : List ℕ → List ℕ
  pub length-sha1 : (message : List ℕ) → length (sha1 message) ≡ 20
  pub sha1-AllBytes : (message : List ℕ) → AllBytes (sha1 message)
  -- `BN_bin2bn`: a big-endian number.
  pub bin2bn : List ℕ → ℕ
  pub bin2bn_lem : (bytes : List ℕ) → bin2bn bytes ≡ be_value bytes
  -- `BN_bn2bin` into a vector of `BN_num_bytes` bytes: the shortest big-endian form.
  pub bn2bin : ℕ → List ℕ
  pub bn2bin-AllBytes : (n : ℕ) → AllBytes (bn2bin n)
  pub be_value-bn2bin : (n : ℕ) → be_value (bn2bin n) ≡ n
  pub length-bn2bin : (n w : ℕ) → n < 256 ^ w → length (bn2bin n) ≤ w
  -- `BN_mod_exp`, `BN_mod_mul`, `BN_mod_add`, by a modulus that is not 0.
  pub mod_exp : ℕ → ℕ → ℕ → ℕ
  pub mod_exp_lem : (a p m : ℕ) → 0 < m → mod_exp a p m ≡ a ^ p % m
  pub mod_mul : ℕ → ℕ → ℕ → ℕ
  pub mod_mul_lem : (a b m : ℕ) → 0 < m → mod_mul a b m ≡ a * b % m
  pub mod_add : ℕ → ℕ → ℕ → ℕ
  pub mod_add_lem : (a b m : ℕ) → 0 < m → mod_add a b m ≡ (a + b) % m
