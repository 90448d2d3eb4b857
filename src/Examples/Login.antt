-- ===== src/Examples/Login.antt =====
-- The password exchange and the sessions, on concrete values.
use purity.Common.{
  ℕ, ◌≡◌, refl, ◌↔◌, true, List, [], ◌∷◌, ◌++◌, ok, throw, map, length, replicate, arith, inl,
}
use purity.Bytes.{be_bytes, le_bytes}
use purity.Exception.{sql_error}
use purity.MessageBuffer.{MessageBuffer, contents}
use purity.MessageBuffer
use purity.MessageBuffer.Queue.{consumed}
use purity.Packet.Codec.{packet, auth_frame}
use purity.Utils.Hex.{pad_bytes_left}
use purity.Srp6.{
  Srp6, generate_client_ephemeral, get_a_bytes, compute_m1, verify_client_proof,
  verify_server_proof,
}
use purity.Srp6.Handshake.{handshake, verify_server_proof_iff}
use purity.Session.{
  Session, AnyPacket, auth_packet, auth_session, work_session, build_packet, close, write_succeeded,
}
use purity.Session
use purity.Session.Write.{sends, runs, written, run, Stepped, run-extends}
use purity.World.{World, Env, srp_of}
use purity.AuthStage.Handlers.{handle_logon_proof, handle_logon_challenge, dispatch}
use purity.AuthStage.{smsg_auth_logon_proof}
use purity.AuthStage.Reader.{process_read_buffer_as_authserver, close_on_throw}
use purity.AuthStage.Framing.{advanced, process_read_buffer-build_packet}
use purity.AuthStage.Proof.{handle_logon_proof-any}
use purity.AuthStage.Challenge.{Answered, handle_logon_challenge-Answered}
use purity.Examples.Ssl.{ssl, digits}

-- A state with the modulus of 97, and a generator of 5.
abbrev pub srp : Srp6
srp = record {
  salt = 1 ∷ 2 ∷ [];
  username = 65 ∷ [];
  password = [];
  v = 6;
  b = 0;
  b_pub = 0;
  n = 97;
  g = 5;
  k = 3;
  a = 0;
  a_pub = 0;
  last_m1 = [];
}

handshake_example :
    let c' = generate_client_ephemeral ssl srp (4 ∷ []) in
    (a_bytes m1 : List ℕ) × (c'' : Srp6) × (get_a_bytes ssl c' ≡ ok a_bytes)
    × (length a_bytes ≡ 32)
    × (compute_m1 ssl c' (9 ∷ []) ≡ ok (c'', m1))
    × (length m1 ≡ 20)
    × (c''.last_m1 ≡ m1)
    × (verify_server_proof ssl c'' m1 (verify_client_proof ssl srp a_bytes m1).1 ≡ ok true)
handshake_example = handshake ssl srp srp (4 ∷ []) (9 ∷ []) (omega arith) (omega arith)

verify_server_proof_iff_example :
    (verify_server_proof ssl srp (8 ∷ []) (replicate 20 1) ≡ ok true)
    ↔ (replicate {A = ℕ} 20 1 ≡ replicate 20 0)
unfolding get_a_bytes pad_bytes_left digits
verify_server_proof_iff_example =
    verify_server_proof_iff ssl srp (8 ∷ []) (replicate 20 1) (replicate 32 0) refl refl

-- A session that has just been accepted.
abbrev pub accepted : Session
accepted = Session.new srp

run-extends_example :
    (s' : Session) × (run accepted (sends (auth_packet (packet 2 (7 ∷ []))) ∷ runs ∷ written ∷ [])
      ≡ ok s')
    × Stepped accepted (map build_packet (auth_packet (packet 2 (7 ∷ [])) ∷ [])) s'
unfolding Session.new
run-extends_example =
    run-extends accepted (sends (auth_packet (packet 2 (7 ∷ []))) ∷ runs ∷ written ∷ [])
      (record { opened = refl; state = inl (refl, refl, refl) })

abbrev pub env : Env
env = record {
  ssl = ssl;
  db = λ username. throw sql_error;
  rand_bytes = replicate 32 1;
  now = 10;
  later = 11;
}

abbrev pub received : List ℕ → World
received bytes = record {
  session = record accepted {
    read_buffer = record { wpos = length bytes; rpos = 0; storage = bytes };
  };
  cache = record { cache = []; ttl = 300 };
}

process_read_buffer-build_packet_example :
    let w = received (1 ∷ 0 ∷ 1 ∷ 7 ∷ 9 ∷ []) in
    (process_read_buffer_as_authserver env w
      ≡ close_on_throw (advanced 4 w) (dispatch env (advanced 4 w) (packet 1 (7 ∷ []))))
    × MessageBuffer.IsValid (consumed 4 w.session.read_buffer)
    × (contents (consumed 4 w.session.read_buffer) ≡ 9 ∷ [])
unfolding contents
process_read_buffer-build_packet_example =
    process_read_buffer-build_packet env (received (1 ∷ 0 ∷ 1 ∷ 7 ∷ 9 ∷ [])) (packet 1 (7 ∷ []))
      (9 ∷ []) (record { ordered = omega arith; in_storage = omega arith; small = omega arith })
      (rw (auth_frame (packet 1 (7 ∷ []))) (unfold be_bytes le_bytes in refl)) (omega arith)

handle_logon_proof-any_example :
    (w' : World) × (handle_logon_proof env
        (received [])
        (packet 5 (replicate 32 1 ++ (replicate 20 2 ++ [])))
      ≡ ok w')
    × (w'.session.session_mode ≡ work_session)
    × (w'.session.account_info.is_auth ≡ true)
    × (w'.session.posted ≡ [] ++ (auth_packet (packet smsg_auth_logon_proof (replicate 20 0)) ∷ []))
unfolding Session.new
handle_logon_proof-any_example =
    handle_logon_proof-any env (received []) 5 (replicate 32 1) (replicate 20 2) [] refl refl refl
      (omega arith)

handle_logon_challenge-Answered_example :
    Answered (received []) (handle_logon_challenge env (received []) (packet 3 (65 ∷ 0 ∷ [])))
unfolding Session.new srp_of
handle_logon_challenge-Answered_example =
    handle_logon_challenge-Answered env (received []) (packet 3 (65 ∷ 0 ∷ []))
      (record { opened = refl; positive = omega arith; small = omega arith }) (λ username e. cc)
