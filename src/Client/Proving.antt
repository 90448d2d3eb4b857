-- ===== src/Client/Proving.antt =====
-- src/Client/Client.cpp: the client's answer to the parameters of the server.
use purity.Common.{
  ℕ, ◌<◌, ◌^◌, ◌≡◌, refl, sym, ap, ◌∙◌, true, List, [], ◌∷◌, ◌++◌, append_assoc, append-nil,
  Outcome, ok, length, length-append, arith,
}
use purity.Bytes.{be_value}
use purity.OpenSsl.{OpenSsl}
use purity.Exception.{Exception}
use purity.Srp6.{
  Srp6, load_constants, load_salt, verify_server_proof, get_last_m1, verify_client_proof,
}
use purity.Srp6.Handshake.{handshake}
use purity.ByteBuffer
use purity.ByteBuffer.{empty}
use purity.ByteBuffer.Wire.{behind-before, behind}
use purity.ByteBuffer.Fields.Reads.{read_bytes-before, read_uint8-before}
use purity.Packet.{Packet, new}
use purity.Packet.Auth.{build_packet}
use purity.Packet.Read.{read_bytes, read_uint8}
use purity.Packet.Write.{write_bytes, write_uint8}
use purity.Packet.Codec.{packet}
use purity.Client.{Client, send_packet_impl, send_auth_packet}
use purity.Client.Handlers.{
  ClientEnv, Parameters, read_parameters, keyed, prove, send_proof, answer_challenge,
}
use purity.AuthStage.{smsg_auth_logon_challenge, cmsg_auth_logon_proof}
use purity.AuthStage.Handlers.{challenge_packet}
use purity.Client.Sent.{send_packet_impl-Sent}

-- The parameters, as the server's packet carries them.
unfoldable pub parameters_bytes : Parameters → List ℕ
parameters_bytes q = q.b_bytes ++ ((q.generator ∷ []) ++ (q.n_bytes ++ (q.salt ++ [])))

pub challenge_packet_lem :
    (q : Parameters)
    → challenge_packet q.b_bytes q.generator q.n_bytes q.salt
      ≡ packet smsg_auth_logon_challenge (parameters_bytes q)
unfolding challenge_packet write_bytes write_uint8 ByteBuffer.Write.write_bytes
    ByteBuffer.Write.write_uint8 new empty parameters_bytes
challenge_packet_lem q = ap (packet smsg_auth_logon_challenge) (
    append_assoc (q.b_bytes ++ (q.generator ∷ [])) q.n_bytes q.salt
    ∙ append_assoc q.b_bytes (q.generator ∷ []) (q.n_bytes ++ q.salt)
    ∙ ap (λ r. q.b_bytes ++ ((q.generator ∷ []) ++ (q.n_bytes ++ r))) (sym (append-nil q.salt)))

-- The client reads back what the server wrote.
pub read_parameters-whole :
    (opcode g : ℕ) (b n salt : List ℕ)
    → length b ≡ 32
    → length n ≡ 32
    → length salt ≡ 32
    → (p : Packet) × (read_parameters (packet opcode (b ++ ((g ∷ []) ++ (n ++ (salt ++ [])))))
        ≡ ok (record { b_bytes = b; generator = g; n_bytes = n; salt = salt }, p))
unfolding read_parameters read_bytes read_uint8
read_parameters-whole opcode g b n salt lb ln ls =
    let rest = n ++ (salt ++ []) in
    let size : length (salt ++ []) ≡ 32 = omega (arith, ap length (append-nil salt)) in
    let tail : length rest ≡ 64 = omega (arith, length-append n (salt ++ [])) in
    let front : length (b ++ (g ∷ [])) ≡ 33 = omega (arith, length-append b (g ∷ [])) in
    let third : length ((b ++ (g ∷ [])) ++ n) ≡ 65 =
      omega (arith, length-append (b ++ (g ∷ [])) n) in
    (
      record { opcode = opcode; buffer = behind ((b ++ (g ∷ [])) ++ n) salt [] },
      rw
          (
            read_bytes-before 32 b [] ((g ∷ []) ++ rest) lb
                (omega (arith, length-append b (g ∷ rest))),
            behind-before [] b (g ∷ []) rest,
            read_uint8-before g b rest (omega (arith, length-append b (g ∷ rest))),
            behind-before b (g ∷ []) n (salt ++ []),
            read_bytes-before 32 n (b ++ (g ∷ [])) (salt ++ []) ln
                (omega (arith, length-append (b ++ (g ∷ [])) rest)),
            behind-before (b ++ (g ∷ [])) n salt [],
            read_bytes-before 32 salt ((b ++ (g ∷ [])) ++ n) [] ls
                (omega (arith, length-append ((b ++ (g ∷ [])) ++ n) (salt ++ []))),
          )
          refl,
    )

-- What the client does with good parameters: a proof of 52 bytes is queued, to which the server's
-- answer is accepted.
pub record Proved (c : Client) (r : Outcome Exception Client) (ssl : OpenSsl) : Type 0 where
  pub a_bytes : List ℕ
  pub m1 : List ℕ
  pub client : Client
  pub done : r ≡ ok client
  pub a_length : length a_bytes ≡ 32
  pub m1_length : length m1 ≡ 20
  pub queued :
      client.outgoing_queue
      ≡ c.outgoing_queue ++ (build_packet (packet cmsg_auth_logon_proof (a_bytes ++ m1)) ∷ [])
  pub mode : client.session_mode ≡ c.session_mode
  pub accepted :
      verify_server_proof ssl client.srp (get_last_m1 client.srp) (ssl.sha1 (a_bytes ++ m1))
      ≡ ok true

pub answer_challenge-Proved :
    (env : ClientEnv) (c : Client) (q : Parameters) (p : Packet)
    → 0 < be_value q.n_bytes
    → be_value q.n_bytes < 256 ^ 32
    → Proved c (answer_challenge env c (ok (q, p))) env.ssl
unfolding answer_challenge send_proof send_auth_packet
answer_challenge-Proved env c q p positive small =
    let ssl = env.ssl in
    let salted = load_salt ssl (load_constants ssl c.srp q.n_bytes q.generator) q.salt in
    let modulus : salted.n ≡ be_value q.n_bytes =
      unfold load_salt load_constants in ssl.bin2bn_lem q.n_bytes in
    let (a, m1, srp, key, la, proof, lm, last, valid) =
      handshake ssl salted c.srp env.rand_bytes q.b_bytes (omega arith) (omega arith) in
    let proved : prove env (keyed env c.srp q) q.b_bytes ≡ ok (srp, a, m1) =
      unfold prove keyed in rw (key, proof) refl in
    let d : Client = record c { srp = srp } in
    let bytes = build_packet (packet cmsg_auth_logon_proof (a ++ m1)) in
    let sent = send_packet_impl-Sent d bytes in
    record {
      a_bytes = a;
      m1 = m1;
      client = send_packet_impl d bytes;
      done = rw proved (unfold new write_bytes ByteBuffer.Write.write_bytes empty in refl);
      a_length = la;
      m1_length = lm;
      queued = sent.queue;
      mode = sent.mode;
      accepted = accept srp (send_packet_impl d bytes).srp a m1 sent.srp last valid;
    }
  where
    accept :
        (srp srp' : Srp6) (a m1 : List ℕ)
        → srp' ≡ srp
        → srp.last_m1 ≡ m1
        → verify_server_proof env.ssl srp m1 (verify_client_proof env.ssl c.srp a m1).1 ≡ ok true
        → verify_server_proof env.ssl srp' (get_last_m1 srp') (env.ssl.sha1 (a ++ m1)) ≡ ok true
    accept srp srp' a m1 same last valid = rw (same) (
        unfold get_last_m1 verify_client_proof in
        (ap (λ x. verify_server_proof env.ssl srp x (env.ssl.sha1 (a ++ m1))) last ∙ valid))
