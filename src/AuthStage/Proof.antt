-- ===== src/AuthStage/Proof.antt =====
-- src/server/SessionMode/authstage/handlers/HandlersAuth.cpp: what a login proof leads to.
use purity.Common.{
  ℕ, ltb, Bool-cases, inl, inr, ◌+◌, ◌<◌, ◌≡◌, refl, true, false, List, [], ◌∷◌, ◌++◌, ok, length,
  arith,
}
use purity.ByteBuffer.Wire.{Small, behind-before}
use purity.ByteBuffer.Fields.Reads.{read_bytes-before}
use purity.ByteBuffer
use purity.ByteBuffer.{of_bytes, empty}
use purity.ByteBuffer.Branches.{read_bytes_cases}
use purity.Packet.{new}
use purity.Packet.Read.{read_bytes}
use purity.Packet.Write.{write_bytes}
use purity.Packet.Codec.{packet}
use purity.Session.{auth_packet, work_session, send_packet, set_session_mode, handle_auth_state}
use purity.Srp6.{verify_client_proof}
use purity.World.{World, Env, send_packet_as}
use purity.AuthStage.{smsg_auth_logon_proof, internal_error}
use purity.AuthStage.Handlers.{
  read_proof, proof_read, handle_logon_proof, authenticate, send_failure,
}

read_proof-whole :
    (opcode : ℕ) (a_bytes m1 rest : List ℕ)
    → length a_bytes ≡ 32
    → length m1 ≡ 20
    → Small (a_bytes ++ (m1 ++ rest))
    → read_proof (packet opcode (a_bytes ++ (m1 ++ rest)))
      ≡ ok (
        (a_bytes, m1),
        record {
          opcode = opcode;
          buffer = record { buffer = a_bytes ++ (m1 ++ rest); read_pos = 52 };
        },
      )
unfolding read_proof read_bytes
read_proof-whole opcode a m1 rest la lm small =
    rw
      (
        read_bytes-before 32 a [] (m1 ++ rest) la small,
        behind-before [] a m1 rest,
        read_bytes-before 20 m1 a rest lm small,
        la,
        lm,
      )
      refl

-- On an open session any 32 bytes and any 20 bytes are a proof that logs the client in: the session goes over to work, is
-- marked as authenticated, and the digest of those 52 bytes is sent. What the client was challenged
-- with, and whether it was, plays no part.
pub handle_logon_proof-any :
    (env : Env) (w : World) (opcode : ℕ) (a_bytes m1 rest : List ℕ)
    → w.session.closed ≡ false
    → length a_bytes ≡ 32
    → length m1 ≡ 20
    → Small (a_bytes ++ (m1 ++ rest))
    → (w' : World) × (handle_logon_proof env w (packet opcode (a_bytes ++ (m1 ++ rest))) ≡ ok w')
      × (w'.session.session_mode ≡ work_session)
      × (w'.session.account_info.is_auth ≡ true)
      × (w'.session.posted
          ≡ w.session.posted
            ++ (auth_packet (packet smsg_auth_logon_proof (env.ssl.sha1 (a_bytes ++ m1))) ∷ []))
unfolding handle_logon_proof proof_read verify_client_proof send_packet_as send_packet authenticate
    set_session_mode handle_auth_state new write_bytes ByteBuffer.Write.write_bytes empty
handle_logon_proof-any env w opcode a m1 rest opened la lm small =
    rw (read_proof-whole opcode a m1 rest la lm small, opened) (_, refl, refl, refl, refl)

-- A proof of less than 52 bytes is answered with an internal error, and changes nothing else.
pub handle_logon_proof-short :
    (env : Env) (w : World) (opcode : ℕ) (payload : List ℕ)
    → length payload < 52
    → handle_logon_proof env w (packet opcode payload) ≡ ok (send_failure w internal_error)
unfolding handle_logon_proof proof_read read_proof read_bytes of_bytes
handle_logon_proof-short env w opcode payload h =
    let b = of_bytes payload in
    let valid : ByteBuffer.Branches.IsValid b = record {
      in_bounds = omega arith;
      small = omega arith;
    } in
    elim (Bool-cases (ltb (length payload) 32)) [
      | inl short ↦
          rw
            ((read_bytes_cases 32 b valid (omega arith) (omega arith)).1 (ground arith)
              (omega arith))
            refl
      | inr long ↦
          rw
            (
              (read_bytes_cases 32 b valid (omega arith) (omega arith)).0 (ground arith),
              (read_bytes_cases 20 (record { buffer = payload; read_pos = 0 + 32 })
                    (record { in_bounds = ground arith; small = omega arith }) (omega arith)
                    (omega arith)).1
                  (ground arith) (omega arith),
            )
            refl
    ]
