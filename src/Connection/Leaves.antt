-- ===== src/Connection/Leaves.antt =====
-- src/server/SessionMode: the handlers of either stage, one after the other.
use purity.Common.{
  ℕ, refl, inr, not, ◌||◌, List, Option, none, some, length, Outcome, ok, throw, fault, ◌==◌,
  if◌then◌else◌, ◌>>=◌, Bool-cases, inl, ltb,
}
use purity.Exception.{Exception}
use purity.AccountCache.{Entry}
use purity.Packet.{Packet}
use purity.Packet.Read.{read_uint32_le, read_string_nt_le}
use purity.Session.{Session, auth_packet, set_session_mode, handle_auth_state}
use purity.Srp6.{Srp6, verify_client_proof, get_b_bytes, get_n_bytes}
use purity.Utils.Hex.{pad_bytes_left}
use purity.Connection.Defined.{
  Defined, IsReadable, read_uint32_le-Defined, read_string_nt_le-Defined, read_proof-Defined,
}
use purity.Utils.Utf8.{is_valid_utf8, to_uppercase}
use purity.World.{World, Env, AccountsRow, srp_of}
use purity.AuthStage.{cmsg_ping, cmsg_auth_logon_challenge, cmsg_auth_logon_proof}
use purity.AuthStage.Handlers
use purity.AuthStage.Handlers.{
  send_failure, challenge, keyed_srp, send_or_end, send_or_fail, answer_fields, answer_row,
  answer_cached, answer_username, name_read, handle_logon_challenge, read_proof, authenticate,
  proof_read, handle_logon_proof,
}
use purity.WorkStage
use purity.Connection.Kept.{
  Kept, Leaves, Kept-refl, with_srp-Kept, send-Leaves, if-Leaves, failure-Leaves,
}

-- The database gives rows or throws.
abbrev pub QueryDefined : Env → Type 0
QueryDefined env = (username : List ℕ) → Defined (env.db username)

pad_bytes_left-Defined : (src : List ℕ) (n : ℕ) → Defined (pad_bytes_left src n)
unfolding pad_bytes_left
pad_bytes_left-Defined src n = elim (Bool-cases (ltb n (length src))) [
  | inl long ↦ rw long tt
  | inr fits ↦
      rw fits
        (elim (Bool-cases (length src == n)) [ inl same ↦ rw same tt | inr short ↦ rw short tt ])
]

both-Defined :
    {A B C : Type 0} (r : Outcome Exception A) (r' : Outcome Exception B) (f : A → B → C)
    → Defined r
    → Defined r'
    → Defined (r >>= λ a. r' >>= λ b. ok (f a b))
both-Defined (ok a) (ok b) f h k = tt
both-Defined (ok a) (throw e) f h k = tt
both-Defined (ok a) fault f h k = k
both-Defined (throw e) r' f h k = tt
both-Defined fault r' f h k = h

challenge-Defined : (env : Env) (srp : Srp6) (salt : List ℕ) → Defined (challenge env srp salt)
unfolding challenge get_b_bytes get_n_bytes
challenge-Defined env srp salt =
    both-Defined (pad_bytes_left (env.ssl.bn2bin srp.b_pub) 32)
      (pad_bytes_left (env.ssl.bn2bin srp.n) 32) _ (pad_bytes_left-Defined _ 32)
      (pad_bytes_left-Defined _ 32)

send_or_end-Leaves :
    (s : Session) (w : World) (r : Outcome Exception Packet)
    → Defined r
    → Kept s w.session
    → Leaves s (send_or_end w r)
unfolding send_or_end
send_or_end-Leaves s w (ok reply) d k = send-Leaves s w auth_packet reply k
send_or_end-Leaves s w (throw e) d k = k
send_or_end-Leaves s w fault d k = d

send_or_fail-Leaves :
    (s : Session) (w : World) (r : Outcome Exception Packet)
    → Defined r
    → Kept s w.session
    → Leaves s (send_or_fail w r)
unfolding send_or_fail
send_or_fail-Leaves s w (ok reply) d k = send-Leaves s w auth_packet reply k
send_or_fail-Leaves s w (throw e) d k = failure-Leaves s w _ k
send_or_fail-Leaves s w fault d k = d

answer_fields-Leaves :
    (env : Env) (s : Session) (w : World) (username : List ℕ) (salt verifier : Option (List ℕ))
    → Kept s w.session
    → Leaves s (answer_fields env w username salt verifier)
unfolding answer_fields
answer_fields-Leaves env s w username none verifier k = failure-Leaves s w _ k
answer_fields-Leaves env s w username (some salt) none k = failure-Leaves s w _ k
answer_fields-Leaves env s w username (some salt) (some verifier) k =
    if-Leaves s (not (length salt == 32) || not (length verifier == 32)) _ _
      (failure-Leaves s _ _ k)
      (send_or_fail-Leaves s _ _ (challenge-Defined env _ salt) (with_srp-Kept s _ _ k))

answer_row-Leaves :
    (env : Env) (s : Session) (w : World) (username : List ℕ)
    (row : Outcome Exception (Option AccountsRow))
    → Defined row
    → Kept s w.session
    → Leaves s (answer_row env w username row)
unfolding answer_row
answer_row-Leaves env s w username (ok none) d k = failure-Leaves s w _ k
answer_row-Leaves env s w username (ok (some user)) d k =
    answer_fields-Leaves env s w username user.salt user.verifier k
answer_row-Leaves env s w username (throw e) d k = failure-Leaves s w _ k
answer_row-Leaves env s w username fault d k = d

answer_cached-Leaves :
    (env : Env) (s : Session) (w : World) (username : List ℕ) (found : Option Entry)
    → QueryDefined env
    → Kept s w.session
    → Leaves s (answer_cached env w username found)
unfolding answer_cached
answer_cached-Leaves env s w username (some entry) q k =
    send_or_end-Leaves s _ _ (challenge-Defined env _ entry.salt) (with_srp-Kept s w _ k)
answer_cached-Leaves env s w username none q k =
    answer_row-Leaves env s w username (env.db username) (q username) k

name_read-Leaves :
    (env : Env) (s : Session) (w : World) (r : Outcome Exception (List ℕ × Packet))
    → QueryDefined env
    → Defined r
    → Kept s w.session
    → Leaves s (name_read env w r)
unfolding name_read answer_username
name_read-Leaves env s w (ok (raw, p)) q d k =
    if-Leaves s (not (is_valid_utf8 raw)) _ _ (failure-Leaves s w _ k)
      (answer_cached-Leaves env s _ (to_uppercase raw) _ q (with_srp-Kept s w _ k))
name_read-Leaves env s w (throw e) q d k = failure-Leaves s w _ k
name_read-Leaves env s w fault q d k = d

authenticate-Kept : (s : Session) (w : World) → Kept s w.session → Kept s (authenticate w).session
unfolding authenticate set_session_mode handle_auth_state
authenticate-Kept s w k = record {
  read_buffer = k.read_buffer;
  write_queue = k.write_queue;
  writing = k.writing;
  closed = k.closed;
  reading = k.reading;
  in_flight = k.in_flight;
  sent = k.sent;
  posts = k.posts;
  stage = inr (refl, refl);
}

proof_read-Leaves :
    (env : Env) (s : Session) (w : World) (r : Outcome Exception ((List ℕ × List ℕ) × Packet))
    → Defined r
    → Kept s w.session
    → Leaves s (proof_read env w r)
unfolding proof_read
proof_read-Leaves env s w (ok ((a_bytes, m1), p)) d k =
    if-Leaves s (not (verify_client_proof env.ssl (srp_of w) a_bytes m1).0) _ _
      (failure-Leaves s w _ k) (send-Leaves s _ auth_packet _ (authenticate-Kept s w k))
proof_read-Leaves env s w (throw e) d k = failure-Leaves s w _ k
proof_read-Leaves env s w fault d k = d

auth_pong-Leaves :
    (s : Session) (w : World) (r : Outcome Exception (ℕ × Packet))
    → Defined r
    → Kept s w.session
    → Leaves s (Handlers.pong w r)
unfolding Handlers.pong
auth_pong-Leaves s w (ok (ping, p)) d k = send-Leaves s w _ _ k
auth_pong-Leaves s w (throw e) d k = tt
auth_pong-Leaves s w fault d k = d

work_pong-Leaves :
    (s : Session) (w : World) (r : Outcome Exception (ℕ × Packet))
    → Defined r
    → Kept s w.session
    → Leaves s (WorkStage.pong w r)
unfolding WorkStage.pong
work_pong-Leaves s w (ok (ping, p)) d k = send-Leaves s w _ _ k
work_pong-Leaves s w (throw e) d k = tt
work_pong-Leaves s w fault d k = d

logged-Leaves :
    (s : Session) (w : World) (r : Outcome Exception (List ℕ × Packet))
    → Defined r
    → Kept s w.session
    → Leaves s (WorkStage.logged w r)
unfolding WorkStage.logged
logged-Leaves s w (ok (msg, p)) d k = k
logged-Leaves s w (throw e) d k = tt
logged-Leaves s w fault d k = d

-- Whatever packet comes, a handler of the auth stage that returns leaves the buffers, queues and flags
-- of the session as they were, posts packets behind those posted, and changes the mode, if at all, to
-- work, and then with the account authenticated. Its behaviour is defined, if the database's is.
pub auth_dispatch-Leaves :
    (env : Env) (w : World) (p : Packet)
    → QueryDefined env
    → IsReadable p
    → Leaves w.session (Handlers.dispatch env w p)
unfolding Handlers.dispatch Handlers.handle_ping handle_logon_challenge handle_logon_proof
auth_dispatch-Leaves env w p q h =
    let s = w.session in
    let k = Kept-refl s in
    let proof = if p.opcode == cmsg_auth_logon_proof then handle_logon_proof env w p else ok w in
    let login =
      if p.opcode == cmsg_auth_logon_challenge then handle_logon_challenge env w p else proof in
    if-Leaves s (p.opcode == cmsg_ping) (Handlers.handle_ping w p) login
      (auth_pong-Leaves s w (read_uint32_le p) (read_uint32_le-Defined p h) k)
      (if-Leaves s (p.opcode == cmsg_auth_logon_challenge) (handle_logon_challenge env w p) proof
        (name_read-Leaves env s w (read_string_nt_le p) q (read_string_nt_le-Defined p h) k)
        (if-Leaves s (p.opcode == cmsg_auth_logon_proof) (handle_logon_proof env w p) (ok w)
          (proof_read-Leaves env s w (read_proof p) (read_proof-Defined p h) k) k))

-- The same for the work stage.
pub work_dispatch-Leaves :
    (w : World) (p : Packet) → IsReadable p → Leaves w.session (WorkStage.dispatch w p)
unfolding WorkStage.dispatch WorkStage.handle_ping WorkStage.handle_message
work_dispatch-Leaves w p h =
    let s = w.session in
    let k = Kept-refl s in
    let message =
      if p.opcode == WorkStage.cmsg_message then WorkStage.handle_message w p else ok w in
    if-Leaves s (p.opcode == WorkStage.cmsg_ping) (WorkStage.handle_ping w p) message
      (work_pong-Leaves s w (read_uint32_le p) (read_uint32_le-Defined p h) k)
      (if-Leaves s (p.opcode == WorkStage.cmsg_message) (WorkStage.handle_message w p) (ok w)
        (logged-Leaves s w (read_string_nt_le p) (read_string_nt_le-Defined p h) k) k)
