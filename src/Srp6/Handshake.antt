-- ===== src/Srp6/Handshake.antt =====
-- src/common/srp6/SRP6.cpp: the keys have their size, and a client accepts the answer to its own proof.
use purity.Common.{
  ℕ, ◌+◌, ◌*◌, ◌%◌, ◌^◌, ◌≤◌, ◌<◌, ◌≡◌, refl, ◌∙◌, ◌↔◌, true, List, [], ◌∷◌, ◌++◌, ok, length,
  arith, bytes_eq, bytes_eq_refl, bytes_eq→eq,
}
use purity.Bytes.{be_value}
use purity.OpenSsl.{OpenSsl}
use purity.Utils.Hex.Laws.{padded, pad_bytes_left_cases}
use purity.Utils.Hex.{pad_bytes_left}
use purity.Srp6.{
  Srp6, std_equal, generate_server_ephemeral, get_b_bytes, get_n_bytes, get_a_bytes,
  generate_client_ephemeral, compute_m1, verify_client_proof, verify_server_proof,
  generate_salt_and_verifier_trinity,
}

-- On ranges of one length `std::equal` is equality.
std_equal-bytes_eq :
    (xs ys : List ℕ) → length xs ≡ length ys → std_equal xs ys ≡ ok (bytes_eq xs ys)
unfolding std_equal
std_equal-bytes_eq [] [] e = refl
std_equal-bytes_eq [] (y ∷ ys) e = absurd (omega arith)
std_equal-bytes_eq (x ∷ xs) [] e = absurd (omega arith)
std_equal-bytes_eq (x ∷ xs) (y ∷ ys) e = ground (arith, std_equal-bytes_eq xs ys)

module _ (ssl : OpenSsl) where
  open ssl use {
    sha1, length-sha1, bn2bin, be_value-bn2bin, length-bn2bin, bin2bn, mod_exp, mod_exp_lem,
    mod_mul_lem, mod_add_lem,
  }

  -- A number below 2 ^ 256 is sent as 32 bytes.
  key_bytes :
      (x : ℕ)
      → x < 256 ^ 32
      → (pad_bytes_left (bn2bin x) 32 ≡ ok (padded (bn2bin x) 32))
        × (length (padded (bn2bin x) 32) ≡ 32)
        × (be_value (padded (bn2bin x) 32) ≡ x)
  key_bytes x h =
      let (e, len, value, _) = (pad_bytes_left_cases (bn2bin x) 32).0 (length-bn2bin x 32 h) in
      (e, len, value ∙ be_value-bn2bin x)

  pub get_n_bytes-ok :
      (s : Srp6)
      → s.n < 256 ^ 32
      → (bytes : List ℕ) × (get_n_bytes ssl s ≡ ok bytes)
        × (length bytes ≡ 32)
        × (be_value bytes ≡ s.n)
  unfolding get_n_bytes
  get_n_bytes-ok s h = let (e, len, value) = key_bytes s.n h in (_, e, len, value)

  -- For a modulus of at most 256 bits the server's public key never fails to be sent: it is 32 bytes,
  -- the number k v + g ^ b modulo N.
  pub get_b_bytes-generate_server_ephemeral :
      (s : Srp6) (rand_bytes : List ℕ)
      → 0 < s.n
      → s.n ≤ 256 ^ 32
      → (bytes : List ℕ) × (get_b_bytes ssl (generate_server_ephemeral ssl s rand_bytes) ≡ ok bytes)
        × (length bytes ≡ 32)
        × (be_value bytes ≡ (s.k * s.v % s.n + s.g ^ bin2bn rand_bytes % s.n) % s.n)
  unfolding get_b_bytes generate_server_ephemeral
  get_b_bytes-generate_server_ephemeral s rand_bytes h small =
      let x = (s.k * s.v % s.n + s.g ^ bin2bn rand_bytes % s.n) % s.n in
      let (e, len, value) = key_bytes x (omega arith) in
      (
        padded (bn2bin x) 32,
        rw
            (
              mod_exp_lem s.g (bin2bn rand_bytes) s.n h,
              mod_mul_lem s.k s.v s.n h,
              mod_add_lem (s.k * s.v % s.n) (s.g ^ bin2bn rand_bytes % s.n) s.n h,
            )
            e,
        len,
        value,
      )

  -- For a modulus that is positive and at most 2 ^ 256, the client's key and proof, whatever the server's
  -- key and the salt, are 32 bytes and 20 bytes, and the answer
  -- that `verify_client_proof` gives to them is one that this client accepts.
  pub handshake :
      (c s : Srp6) (rand_bytes b_bytes : List ℕ)
      → 0 < c.n
      → c.n ≤ 256 ^ 32
      → let c' = generate_client_ephemeral ssl c rand_bytes in
        (a_bytes m1 : List ℕ) × (c'' : Srp6) × (get_a_bytes ssl c' ≡ ok a_bytes)
        × (length a_bytes ≡ 32)
        × (compute_m1 ssl c' b_bytes ≡ ok (c'', m1))
        × (length m1 ≡ 20)
        × (c''.last_m1 ≡ m1)
        × (verify_server_proof ssl c'' m1 (verify_client_proof ssl s a_bytes m1).1 ≡ ok true)
  unfolding get_a_bytes generate_client_ephemeral compute_m1 verify_server_proof verify_client_proof
  handshake c s rand_bytes b_bytes h small =
      let x = c.g ^ bin2bn rand_bytes % c.n in
      let a_bytes = padded (bn2bin x) 32 in
      let digest = sha1 (a_bytes ++ (b_bytes ++ c.salt)) in
      let m1 = padded digest 20 in
      let power = mod_exp_lem c.g (bin2bn rand_bytes) c.n h in
      let (sent, len, _) = key_bytes x (omega arith) in
      let (proof, len', _, _) =
        (pad_bytes_left_cases digest 20).0
          (omega (arith, length-sha1 (a_bytes ++ (b_bytes ++ c.salt)))) in
      let answer = sha1 (a_bytes ++ m1) in
      (
        a_bytes,
        m1,
        record c {
          a = bin2bn rand_bytes;
          a_pub = mod_exp c.g (bin2bn rand_bytes) c.n;
          last_m1 = m1;
        },
        rw power sent,
        len,
        rw (power, sent, proof) refl,
        len',
        refl,
        rw (power, sent, std_equal-bytes_eq answer answer refl, bytes_eq_refl answer) refl,
      )

  -- Of the 20-byte answers the client accepts exactly one, the digest of its key and its proof.
  pub verify_server_proof_iff :
      (s : Srp6) (m1 m2 a_bytes : List ℕ)
      → get_a_bytes ssl s ≡ ok a_bytes
      → length m2 ≡ 20
      → (verify_server_proof ssl s m1 m2 ≡ ok true) ↔ (m2 ≡ sha1 (a_bytes ++ m1))
  unfolding verify_server_proof
  verify_server_proof_iff s m1 m2 a_bytes e len =
      rw
        (
          e,
          std_equal-bytes_eq m2 (sha1 (a_bytes ++ m1)) (omega (arith, length-sha1 (a_bytes ++ m1))),
        )
        (
          (λ h. bytes_eq→eq _ _ (ground arith)),
          (λ h. rw (h, bytes_eq_refl (sha1 (a_bytes ++ m1))) refl),
        )

  -- A verifier below 256 ^ 31 is generated in less than 32 bytes.
  pub verifier_may_be_short :
      (s : Srp6) (salt username password : List ℕ)
      → be_value (generate_salt_and_verifier_trinity ssl s salt username password).1 < 256 ^ 31
      → length (generate_salt_and_verifier_trinity ssl s salt username password).1 < 32
  unfolding generate_salt_and_verifier_trinity
  verifier_may_be_short s salt username password h =
      omega (arith, length-bn2bin _ 31 (rw (be_value-bn2bin _) at h))
