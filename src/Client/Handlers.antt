-- ===== src/Client/Handlers.antt =====
-- src/Client/Client.cpp: `handle_packet`, for the packets of either stage.
use purity.Common.{ℕ, Bool, List, Outcome, ok, throw, fault, ◌>>=◌, ◌==◌, if◌then◌else◌}
use purity.Exception.{Exception}
use purity.OpenSsl.{OpenSsl}
use purity.Packet.{Packet, Reader, resume, new}
use purity.Packet.Read.{read_bytes, read_uint8, read_string_nt_le}
use purity.Packet.Write.{write_bytes}
use purity.Session.{work_session}
use purity.Srp6.{
  Srp6, load_constants, load_salt, generate_client_ephemeral, get_a_bytes, compute_m1,
  verify_server_proof, get_last_m1,
}
use purity.AuthStage.{
  smsg_auth_logon_challenge, cmsg_auth_logon_proof, smsg_auth_logon_proof, smsg_auth_response,
}
use purity.WorkStage.{smsg_message}
use purity.Client.{Client, send_auth_packet, disconnect, set_session_mode}

-- What the client takes from outside: the library, and the bytes that `RAND_bytes` draws.
pub record ClientEnv : Type 0 where
  pub ssl : OpenSsl
  pub rand_bytes : List ℕ

-- B, g, N and the salt.
pub record Parameters : Type 0 where
  pub b_bytes : List ℕ
  pub generator : ℕ
  pub n_bytes : List ℕ
  pub salt : List ℕ

unfoldable pub read_parameters : Reader Parameters
read_parameters p = resume (read_bytes 32 p) λ b_bytes p1. resume (read_uint8 p1) λ generator p2.
    resume (read_bytes 32 p2) λ n_bytes p3. resume (read_bytes 32 p3) λ salt p4.
      ok (record { b_bytes = b_bytes; generator = generator; n_bytes = n_bytes; salt = salt }, p4)

-- Steps 5 and 6: the object with its new key, then its key and proof as bytes.
unfoldable pub keyed : ClientEnv → Srp6 → Parameters → Srp6
keyed env srp q =
    let constants = load_constants env.ssl srp q.n_bytes q.generator in
    generate_client_ephemeral env.ssl (load_salt env.ssl constants q.salt) env.rand_bytes

unfoldable pub prove : ClientEnv → Srp6 → List ℕ → Outcome Exception (Srp6 × List ℕ × List ℕ)
prove env srp b_bytes = do
  a_bytes ← get_a_bytes env.ssl srp
  proved ← compute_m1 env.ssl srp b_bytes
  ok (proved.0, a_bytes, proved.1)

-- Step 7, or the `catch`.
unfoldable pub send_proof :
    Client → Outcome Exception (Srp6 × List ℕ × List ℕ) → Outcome Exception Client
send_proof c (ok (srp, a_bytes, m1)) =
    let proof = write_bytes (write_bytes (new cmsg_auth_logon_proof) a_bytes) m1 in
    ok (send_auth_packet (record c { srp = srp }) proof)
send_proof c (throw e) = ok (disconnect c)
send_proof c fault = fault

unfoldable pub answer_challenge :
    ClientEnv → Client → Outcome Exception (Parameters × Packet) → Outcome Exception Client
answer_challenge env c (ok (q, p)) =
    let srp = keyed env c.srp q in send_proof (record c { srp = srp }) (prove env srp q.b_bytes)
answer_challenge env c (throw e) = ok (disconnect c)
answer_challenge env c fault = fault

unfoldable pub verified : Client → Bool → Client
verified c valid = if valid then set_session_mode c work_session else disconnect c

unfoldable pub check_proof :
    ClientEnv → Client → Outcome Exception (List ℕ × Packet) → Outcome Exception Client
check_proof env c (ok (m2_server, p)) = do
  valid ← verify_server_proof env.ssl c.srp (get_last_m1 c.srp) m2_server
  ok (verified c valid)
check_proof env c (throw e) = throw e
check_proof env c fault = fault

unfoldable pub read_response : Reader (ℕ × ℕ)
read_response p =
    resume (read_uint8 p)
      λ authcode p1. resume (read_uint8 p1) λ errorcode p2. ok ((authcode, errorcode), p2)

-- The two codes are only logged.
unfoldable pub refused : Client → Outcome Exception ((ℕ × ℕ) × Packet) → Outcome Exception Client
refused c (ok (codes, p)) = ok (disconnect c)
refused c (throw e) = throw e
refused c fault = fault

unfoldable pub handle_auth_packet : ClientEnv → Client → Packet → Outcome Exception Client
handle_auth_packet env c p =
    if p.opcode == smsg_auth_logon_challenge
    then answer_challenge env c (read_parameters p)
    else if p.opcode == smsg_auth_logon_proof
    then check_proof env c (read_bytes 20 p)
    else if p.opcode == smsg_auth_response
    then refused c (read_response p)
    else ok c

-- The message is only logged.
unfoldable pub logged : Client → Outcome Exception (List ℕ × Packet) → Outcome Exception Client
logged c (ok (message, p)) = ok c
logged c (throw e) = throw e
logged c fault = fault

unfoldable pub handle_work_packet : Client → Packet → Outcome Exception Client
handle_work_packet c p = if p.opcode == smsg_message then logged c (read_string_nt_le p) else ok c
