-- ===== src/Client/Login.antt =====
-- src/Client/Client.cpp and src/server/SessionMode/authstage/handlers/HandlersAuth.cpp: the client and the
-- server log in together.
use purity.Common.{
  ℕ, ◌+◌, ◌<◌, ◌^◌, ◌≡◌, refl, sym, ap, ◌∙◌, true, false, List, [], ◌∷◌, ◌++◌, append-nil, ok,
  length, length-append, arith,
}
use purity.Bytes.{be_value}
use purity.Srp6.{verify_server_proof, get_last_m1}
use purity.ByteBuffer.Fields.Reads.{read_bytes-before}
use purity.Packet.{Packet, with_buffer}
use purity.Packet.Auth.{build_packet}
use purity.Packet.Read.{read_bytes}
use purity.Packet.Codec.{packet}
use purity.Client.{Client, set_session_mode}
use purity.Client.Handlers.{
  ClientEnv, Parameters, answer_challenge, verified, check_proof, handle_auth_packet,
}
use purity.Session.{auth_packet, work_session}
use purity.World.{World, Env}
use purity.AuthStage.Handlers.{handle_logon_proof, challenge, keyed_srp}
use purity.AuthStage.Challenge.{IsReady, challenge_parameters}
use purity.AuthStage.Proof.{handle_logon_proof-any}
use purity.AuthStage.{smsg_auth_logon_challenge, cmsg_auth_logon_proof, smsg_auth_logon_proof}
use purity.Client.Proving.{
  parameters_bytes, challenge_packet_lem, read_parameters-whole, answer_challenge-Proved,
}

-- The client's environment, with the server's library.
abbrev pub client_env : Env → List ℕ → ClientEnv
client_env env rand_bytes = record { ssl = env.ssl; rand_bytes = rand_bytes }

-- The run of a login, from the packet with the server's parameters on.
pub record LoggedIn (env : Env) (rand_bytes : List ℕ) (c : Client) (v : World) (parameters : Packet)
    : Type 0 where
  -- the client's proof and the server's answer
  pub proof : Packet
  pub answer : Packet
  -- the proof is a key of 32 bytes and a hash of 20
  pub fresh : proof ≡ packet cmsg_auth_logon_proof proof.buffer.buffer
  pub size : length proof.buffer.buffer ≡ 52
  -- the client after each packet that it gets, the server after the one that it gets
  pub proving : Client
  pub world : World
  pub client : Client
  pub proved : handle_auth_packet (client_env env rand_bytes) c parameters ≡ ok proving
  pub queued : proving.outgoing_queue ≡ c.outgoing_queue ++ (build_packet proof ∷ [])
  pub verified : handle_logon_proof env v proof ≡ ok world
  pub answered : world.session.posted ≡ v.session.posted ++ (auth_packet answer ∷ [])
  pub serves : world.session.session_mode ≡ work_session
  pub accepted : handle_auth_packet (client_env env rand_bytes) proving answer ≡ ok client
  pub works : client.session_mode ≡ work_session

check_proof-valid :
    (env : ClientEnv) (c : Client) (m2 : List ℕ)
    → length m2 ≡ 20
    → verify_server_proof env.ssl c.srp (get_last_m1 c.srp) m2 ≡ ok true
    → handle_auth_packet env c (packet smsg_auth_logon_proof m2)
      ≡ ok (set_session_mode c work_session)
unfolding handle_auth_packet
check_proof-valid env c m2 len valid =
    let nil = append-nil m2 in
    let read : read_bytes 20 (packet smsg_auth_logon_proof m2)
        ≡ ok (
          m2,
          record {
            opcode = smsg_auth_logon_proof;
            buffer = record { buffer = m2; read_pos = 0 + length m2 };
          },
        ) =
      unfold read_bytes in
      ap (with_buffer (packet smsg_auth_logon_proof m2))
        (rw nil at (read_bytes-before 20 m2 [] [] len (omega (arith, length-append m2 [])))) in
    rw read (unfold check_proof verified in rw valid refl)

login_steps :
    (env : Env) (rand_bytes : List ℕ) (c : Client) (v : World) (q : Parameters)
    (parameters p : Packet)
    → v.session.closed ≡ false
    → handle_auth_packet (client_env env rand_bytes) c parameters
      ≡ answer_challenge (client_env env rand_bytes) c (ok (q, p))
    → 0 < be_value q.n_bytes
    → be_value q.n_bytes < 256 ^ 32
    → LoggedIn env rand_bytes c v parameters
login_steps env rand_bytes c v q parameters p opened read positive small =
    let proved = answer_challenge-Proved (client_env env rand_bytes) c q p positive small in
    let a = proved.a_bytes in
    let m1 = proved.m1 in
    let nil = append-nil m1 in
    let m2 = env.ssl.sha1 (a ++ m1) in
    let (world, verified, serves, _, answered) =
      handle_logon_proof-any env v cmsg_auth_logon_proof a m1 [] opened proved.a_length
        proved.m1_length
        (omega (
          arith,
          length-append a (m1 ++ []),
          length-append m1 [],
          proved.a_length,
          proved.m1_length,
        )) in
    record {
      proof = packet cmsg_auth_logon_proof (a ++ m1);
      answer = packet smsg_auth_logon_proof m2;
      fresh = refl;
      size = omega (arith, length-append a m1, proved.a_length, proved.m1_length);
      proving = proved.client;
      world = world;
      client = set_session_mode proved.client work_session;
      proved = read ∙ proved.done;
      queued = proved.queued;
      verified =
          ap (λ x. handle_logon_proof env v (packet cmsg_auth_logon_proof (a ++ x))) (sym nil)
          ∙ verified;
      answered = answered;
      serves = serves;
      accepted =
          check_proof-valid (client_env env rand_bytes) proved.client m2
            (env.ssl.length-sha1 (a ++ m1)) proved.accepted;
      works = unfold set_session_mode in refl;
    }

-- For an account with a salt of 32 bytes the login completes. The parameters that the server sends
-- make the client queue a proof; the server, whose session may have changed since but is open, goes
-- over to work at this proof and sends an answer; at this answer the client goes over to work too. The
-- modulus is positive and below 2 ^ 256.
pub login :
    (env : Env) (rand_bytes : List ℕ) (c : Client) (w v : World) (salt verifier : List ℕ)
    → IsReady w
    → v.session.closed ≡ false
    → length salt ≡ 32
    → (parameters : Packet) × (challenge env (keyed_srp env w salt verifier) salt ≡ ok parameters)
      × LoggedIn env rand_bytes c v parameters
login env rand_bytes c w v salt verifier ready opened len =
    let sent = challenge_parameters env w salt verifier ready in
    let q : Parameters = record {
      b_bytes = sent.b_bytes;
      generator = sent.generator;
      n_bytes = sent.n_bytes;
      salt = salt;
    } in
    let (p, read) =
      read_parameters-whole smsg_auth_logon_challenge sent.generator sent.b_bytes sent.n_bytes salt
        sent.b_length sent.n_length len in
    (
      packet smsg_auth_logon_challenge (parameters_bytes q),
      sent.sent ∙ ap ok (challenge_packet_lem q),
      login_steps env rand_bytes c v q _ p opened
          (unfold handle_auth_packet parameters_bytes in
            ap (answer_challenge (client_env env rand_bytes) c) read)
          (rw sent.n_value ready.positive) (rw sent.n_value ready.small),
    )
