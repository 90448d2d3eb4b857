-- ===== src/AuthStage/Handlers.antt =====
-- src/server/SessionMode/authstage/handlers/HandlersAuth.cpp
-- The coroutine of `handle_logon_challenge` never waits, so it runs here when it is spawned, on the
-- packet that it refers to. What it throws outside its `try` is dropped by `detached`.
use purity.Common.{
  ℕ, not, ◌||◌, List, length, Option, none, some, Outcome, ok, throw, fault, ◌==◌, if◌then◌else◌,
  ◌>>=◌,
}
use purity.Exception.{Exception}
use purity.AccountCache.{Entry, get, put}
use purity.Packet.{Packet, Reader, resume, new}
use purity.Packet.Read.{read_uint32_le, read_bytes, read_string_nt_le}
use purity.Packet.Write.{write_uint8, write_uint32_le, write_bytes}
use purity.Session.{auth_packet, work_session, set_session_mode, handle_auth_state}
use purity.Srp6.{
  Srp6, set_only_username, load_verifier, generate_server_ephemeral, get_b_bytes, get_generator,
  get_n_bytes, verify_client_proof,
}
use purity.Utils.Utf8.{is_valid_utf8, to_uppercase}
use purity.World.{World, Env, AccountsRow, srp_of, with_srp, send_packet_as}
use purity.AuthStage.{
  cmsg_ping, smsg_pong, cmsg_auth_logon_challenge, smsg_auth_logon_challenge, cmsg_auth_logon_proof,
  smsg_auth_logon_proof, smsg_auth_response, auth_failed, internal_error, wrong_username,
  wrong_password, database_busy,
}

-- The reply of every refusal.
unfoldable pub failure : ℕ → Packet
failure error = write_uint8 (write_uint8 (new smsg_auth_response) auth_failed) error

unfoldable pub send_failure : World → ℕ → World
send_failure w error = send_packet_as auth_packet w (failure error)

unfoldable pub pong : World → Outcome Exception (ℕ × Packet) → Outcome Exception World
pong w (ok (ping, p)) = ok (send_packet_as auth_packet w (write_uint32_le (new smsg_pong) ping))
pong w (throw e) = throw e
pong w fault = fault

unfoldable pub handle_ping : World → Packet → Outcome Exception World
handle_ping w p = pong w (read_uint32_le p)

-- The parameters that the server sends: its key, the generator, the modulus and the salt.
unfoldable pub challenge_packet : List ℕ → ℕ → List ℕ → List ℕ → Packet
challenge_packet b_bytes generator n_bytes salt =
    let keyed = write_uint8 (write_bytes (new smsg_auth_logon_challenge) b_bytes) generator in
    write_bytes (write_bytes keyed n_bytes) salt

unfoldable pub challenge : Env → Srp6 → List ℕ → Outcome Exception Packet
challenge env srp salt = do
  b_bytes ← get_b_bytes env.ssl srp
  n_bytes ← get_n_bytes env.ssl srp
  ok (challenge_packet b_bytes (get_generator env.ssl srp) n_bytes salt)

-- Without a handler, an exception ends the coroutine and nothing is sent.
unfoldable pub send_or_end : World → Outcome Exception Packet → Outcome Exception World
send_or_end w (ok reply) = ok (send_packet_as auth_packet w reply)
send_or_end w (throw e) = ok w
send_or_end w fault = fault

-- In the `try` of step 4, an exception is answered.
unfoldable pub send_or_fail : World → Outcome Exception Packet → Outcome Exception World
send_or_fail w (ok reply) = ok (send_packet_as auth_packet w reply)
send_or_fail w (throw e) = ok (send_failure w database_busy)
send_or_fail w fault = fault

-- `load_verifier` and `generate_server_ephemeral`.
unfoldable pub keyed_srp : Env → World → List ℕ → List ℕ → Srp6
keyed_srp env w salt verifier =
    let loaded = load_verifier env.ssl (srp_of w) salt verifier in
    generate_server_ephemeral env.ssl loaded env.rand_bytes

-- Step 6 and on, for the two fields of the row.
unfoldable pub answer_fields :
    Env → World → List ℕ → Option (List ℕ) → Option (List ℕ) → Outcome Exception World
answer_fields env w username none verifier = ok (send_failure w wrong_password)
answer_fields env w username (some salt) none = ok (send_failure w wrong_password)
answer_fields env w username (some salt) (some verifier) =
    let entry : Entry = record { salt = salt; verifier = verifier; last_access = 0 } in
    let w' = record w { cache = put w.cache env.later username entry } in
    let srp = keyed_srp env w' salt verifier in
    if not (length salt == 32) || not (length verifier == 32)
    then ok (send_failure w wrong_password)
    else send_or_fail (with_srp w' srp) (challenge env srp salt)

-- Step 5 and on, for what `execute_sync` came to.
unfoldable pub answer_row :
    Env → World → List ℕ → Outcome Exception (Option AccountsRow) → Outcome Exception World
answer_row env w username (ok none) = ok (send_failure w wrong_username)
answer_row env w username (ok (some user)) = answer_fields env w username user.salt user.verifier
answer_row env w username (throw e) = ok (send_failure w database_busy)
answer_row env w username fault = fault

-- Steps 3 and 4, for what the cache gave.
unfoldable pub answer_cached : Env → World → List ℕ → Option Entry → Outcome Exception World
answer_cached env w username (some cached_user) =
    let srp = keyed_srp env w cached_user.salt cached_user.verifier in
    send_or_end (with_srp w srp) (challenge env srp cached_user.salt)
answer_cached env w username none = answer_row env w username (env.db username)

unfoldable pub answer_username : Env → World → List ℕ → Outcome Exception World
answer_username env w raw =
    let username = to_uppercase raw in
    let named = with_srp w (set_only_username env.ssl (srp_of w) username) in
    let (cache, found) = get named.cache env.now username in
    if not (is_valid_utf8 raw)
    then ok (send_failure w wrong_username)
    else answer_cached env (record named { cache = cache }) username found

-- The reading of the name is in a `try` of its own.
unfoldable pub name_read :
    Env → World → Outcome Exception (List ℕ × Packet) → Outcome Exception World
name_read env w (ok (username, p)) = answer_username env w username
name_read env w (throw e) = ok (send_failure w internal_error)
name_read env w fault = fault

unfoldable pub handle_logon_challenge : Env → World → Packet → Outcome Exception World
handle_logon_challenge env w p = name_read env w (read_string_nt_le p)

-- The client's key and its proof.
unfoldable pub read_proof : Reader (List ℕ × List ℕ)
read_proof p =
    resume (read_bytes 32 p)
      λ a_bytes p'. resume (read_bytes 20 p') λ m1_client p''. ok ((a_bytes, m1_client), p'')

unfoldable pub authenticate : World → World
authenticate w =
    let s = set_session_mode w.session work_session in
    record w { session = record s { account_info = handle_auth_state s.account_info } }

unfoldable pub proof_read :
    Env → World → Outcome Exception ((List ℕ × List ℕ) × Packet) → Outcome Exception World
proof_read env w (ok ((a_bytes, m1_client), p)) =
    let (verified, m2) = verify_client_proof env.ssl (srp_of w) a_bytes m1_client in
    if not verified
    then ok (send_failure w wrong_password)
    else ok
        (send_packet_as auth_packet (authenticate w) (write_bytes (new smsg_auth_logon_proof) m2))
proof_read env w (throw e) = ok (send_failure w internal_error)
proof_read env w fault = fault

unfoldable pub handle_logon_proof : Env → World → Packet → Outcome Exception World
handle_logon_proof env w p = proof_read env w (read_proof p)

unfoldable pub dispatch : Env → World → Packet → Outcome Exception World
dispatch env w p =
    if p.opcode == cmsg_ping
    then handle_ping w p
    else if p.opcode == cmsg_auth_logon_challenge
    then handle_logon_challenge env w p
    else if p.opcode == cmsg_auth_logon_proof
    then handle_logon_proof env w p
    else ok w
