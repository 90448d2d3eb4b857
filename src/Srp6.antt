-- ===== src/Srp6.antt =====
-- src/common/srp6/SRP6.hpp and SRP6.cpp: the two ends of the password exchange.
-- The object is a record; `RAND_bytes` is an argument, the bytes that it drew. A field `x_` of the
-- class is `x` here, `B_` and `A_` are `b_pub` and `a_pub`. Allocation and `BN_free` are not modelled.
pub mod Handshake
use purity.Common.{
  ℕ, ◌+◌, ◌%◌, Bool, true, false, List, [], ◌∷◌, ◌++◌, map, Outcome, ok, throw, fault, ◌>>=◌, ◌==◌,
  if◌then◌else◌,
}
use purity.Exception.{Exception}
use purity.Utils.Hex.{pad_bytes_left}
use purity.Utils.Utf8.{to_upper}
use purity.OpenSsl.{OpenSsl}

pub record Srp6 : Type 0 where
  pub salt : List ℕ
  pub username : List ℕ
  pub password : List ℕ
  pub v : ℕ
  pub b : ℕ
  pub b_pub : ℕ
  pub n : ℕ
  pub g : ℕ
  pub k : ℕ
  pub a : ℕ
  pub a_pub : ℕ
  pub last_m1 : List ℕ

unfoldable pub get_last_m1 : Srp6 → List ℕ
get_last_m1 s = s.last_m1

unfoldable pub get_user_name : Srp6 → List ℕ
get_user_name s = s.username

-- The constant `N_hex`.
abbrev pub n_hex : ℕ
n_hex = 0xB79B3E2A878DBEDF5AD53B139A99D8CEC8DA65FED1BD845FB70F6051754B8D36

-- `std::equal(first.begin(), first.end(), second)`: it reads as many bytes of the second range.
unfoldable pub std_equal : List ℕ → List ℕ → Outcome Exception Bool
std_equal [] second = ok true
std_equal (x ∷ xs) [] = fault
std_equal (x ∷ xs) (y ∷ ys) = let rest = std_equal xs ys in if x == y then rest else ok false

module _ (ssl : OpenSsl) where
  open ssl use {sha1, bin2bn, bn2bin, mod_exp, mod_mul, mod_add}

  unfoldable pub calculate_k : ℕ → ℕ → ℕ
  calculate_k n g = bin2bn (sha1 (bn2bin n ++ bn2bin g))

  -- The constructor with `init_constants`. A new BIGNUM is 0.
  unfoldable pub new : Srp6
  new = record {
    salt = [];
    username = [];
    password = [];
    v = 0;
    b = 0;
    b_pub = 0;
    n = n_hex;
    g = 7;
    k = calculate_k n_hex 7;
    a = 0;
    a_pub = 0;
    last_m1 = [];
  }

  -- `salt_bytes` are the 32 random bytes. The verifier is written in its shortest form.
  unfoldable pub generate_salt_and_verifier_trinity :
      Srp6 → List ℕ → List ℕ → List ℕ → List ℕ × List ℕ
  generate_salt_and_verifier_trinity s salt_bytes username password =
      let inner_hash = sha1 (map to_upper username ++ (b':' ∷ password)) in
      let x = bin2bn (sha1 (salt_bytes ++ inner_hash)) in (salt_bytes, bn2bin (mod_exp s.g x s.n))

  unfoldable pub set_only_username : Srp6 → List ℕ → Srp6
  set_only_username s username = record s { username = username }

  unfoldable pub load_verifier : Srp6 → List ℕ → List ℕ → Srp6
  load_verifier s salt verifier = record s { salt = salt; v = bin2bn verifier }

  unfoldable pub generate_server_ephemeral : Srp6 → List ℕ → Srp6
  generate_server_ephemeral s rand_bytes =
      let b = bin2bn rand_bytes in
      let gb = mod_exp s.g b s.n in
      let kv = mod_mul s.k s.v s.n in record s { b = b; b_pub = mod_add kv gb s.n }

  unfoldable pub get_b_bytes : Srp6 → Outcome Exception (List ℕ)
  get_b_bytes s = pad_bytes_left (bn2bin s.b_pub) 32

  unfoldable pub get_n_bytes : Srp6 → Outcome Exception (List ℕ)
  get_n_bytes s = pad_bytes_left (bn2bin s.n) 32

  unfoldable pub get_salt_bytes : Srp6 → List ℕ
  get_salt_bytes s = s.salt

  -- The low byte of the generator.
  unfoldable pub get_generator : Srp6 → ℕ
  get_generator s = s.g % 256

  unfoldable pub load_constants : Srp6 → List ℕ → ℕ → Srp6
  load_constants s n_bytes g_value =
      let n = bin2bn n_bytes in record s { n = n; g = g_value; k = calculate_k n g_value }

  unfoldable pub load_salt : Srp6 → List ℕ → Srp6
  load_salt s salt = record s { salt = salt }

  unfoldable pub set_credentials : Srp6 → List ℕ → List ℕ → Srp6
  set_credentials s username password = record s { username = username; password = password }

  unfoldable pub generate_client_ephemeral : Srp6 → List ℕ → Srp6
  generate_client_ephemeral s rand_bytes =
      let a = bin2bn rand_bytes in record s { a = a; a_pub = mod_exp s.g a s.n }

  unfoldable pub get_a_bytes : Srp6 → Outcome Exception (List ℕ)
  get_a_bytes s = pad_bytes_left (bn2bin s.a_pub) 32

  -- The new object, and the proof that it keeps and returns.
  unfoldable pub compute_m1 : Srp6 → List ℕ → Outcome Exception (Srp6 × List ℕ)
  compute_m1 s b_bytes = do
    a_bytes ← get_a_bytes s
    m1 ← pad_bytes_left (sha1 (a_bytes ++ (b_bytes ++ s.salt))) 20
    ok (record s { last_m1 = m1 }, m1)

  -- The verdict, and `M2`. The client's proof is not compared with anything.
  unfoldable pub verify_client_proof : Srp6 → List ℕ → List ℕ → Bool × List ℕ
  verify_client_proof s a_bytes m1_client = (true, sha1 (a_bytes ++ m1_client))

  unfoldable pub verify_server_proof : Srp6 → List ℕ → List ℕ → Outcome Exception Bool
  verify_server_proof s last_m1 m2_server = do
    a_bytes ← get_a_bytes s
    std_equal m2_server (sha1 (a_bytes ++ last_m1))
