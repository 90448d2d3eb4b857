-- ===== src/Connection/Cached.antt =====
-- src/server: what the handlers put into the cache is what the database said.
pub mod Read
use purity.Common.{
  ℕ, ◌+◌, ◌≡◌, refl, sym, ap, subst, bytes_eq_refl, All, ◌∙◌, inl, inr, Bool, true, false, not,
  ◌||◌, List, [], ◌∷◌, ◌==◌, Option, none, some, length, bytes_eq, bytes_eq→eq, Bool-cases, Outcome,
  ok, throw, fault, ◌>>=◌, ltb, if◌then◌else◌, arith,
}
use purity.Exception.{Exception}
use purity.AccountCache.{
  AccountCache, Entry, find, assign, sweep, get, get_found, put, is_expired,
  cleanup_expired_entries,
}
use purity.AccountCache.Laws.{find-assign}
use purity.MessageBuffer.{MessageBuffer, get_active_size, write_completed, read_completed, fill}
use purity.Packet.{Packet, new}
use purity.Packet.Read.{read_uint32_le, read_string_nt_le}
use purity.Packet.Auth
use purity.Packet.Work
use purity.Session.{do_read, SessionMode, auth_session, work_session, close, write_failed}
use purity.Session.Write.{write_ended}
use purity.Srp6.{verify_client_proof}
use purity.Utils.Utf8.{is_valid_utf8, to_uppercase}
use purity.World.{World, Env, AccountsRow, srp_of, with_srp, send_packet_as}
use purity.AuthStage
use purity.AuthStage.{cmsg_ping, cmsg_auth_logon_challenge, cmsg_auth_logon_proof}
use purity.AuthStage.Handlers
use purity.AuthStage.Handlers.{
  send_failure, challenge, keyed_srp, send_or_end, send_or_fail, answer_fields, answer_row,
  answer_cached, answer_username, name_read, handle_logon_challenge, read_proof, authenticate,
  proof_read, handle_logon_proof,
}
use purity.AuthStage.Reader as AuthReader
use purity.AuthStage.Reader.{close_on_throw, with_read_buffer, process_read_buffer_as_authserver}
use purity.WorkStage
use purity.WorkStage.Reader as WorkReader
use purity.WorkStage.Reader.{process_read_buffer_as_workserver}
use purity.Connection.{
  process_in_mode, process_read_buffer, read_again, read_failed, read_succeeded,
}
use purity.AccountCache.Recorded.{Known, Holds, assign-All, sweep-All, get_found-Holds}

module _ (Recorded : List ℕ → List ℕ → List ℕ → Type 0) where
  -- The rows that a database gives are recorded.
  abbrev pub Says : (List ℕ → Outcome Exception (Option AccountsRow)) → Type 0
  Says db =
      (username : List ℕ) (row : AccountsRow) (salt verifier : List ℕ)
      → db username ≡ ok (some row)
      → row.salt ≡ some salt
      → row.verifier ≡ some verifier
      → Recorded username salt verifier

  -- What the handlers leave of the cache.
  abbrev pub HoldsAfter : Outcome Exception World → Type 0
  HoldsAfter (ok w) = Holds Recorded w.cache
  HoldsAfter (throw e) = Unit {0}
  HoldsAfter fault = Unit {0}

  pub if-HoldsAfter :
      (b : Bool) (x y : Outcome Exception World)
      → HoldsAfter x
      → HoldsAfter y
      → HoldsAfter (if b then x else y)
  if-HoldsAfter true x y h k = h
  if-HoldsAfter false x y h k = k

  -- Sending is no matter of the cache.
  send_or_end-Holds :
      (w : World) (r : Outcome Exception Packet)
      → Holds Recorded w.cache
      → HoldsAfter (send_or_end w r)
  unfolding send_or_end send_packet_as
  send_or_end-Holds w (ok reply) h = h
  send_or_end-Holds w (throw e) h = h
  send_or_end-Holds w fault h = tt

  send_or_fail-Holds :
      (w : World) (r : Outcome Exception Packet)
      → Holds Recorded w.cache
      → HoldsAfter (send_or_fail w r)
  unfolding send_or_fail send_packet_as send_failure
  send_or_fail-Holds w (ok reply) h = h
  send_or_fail-Holds w (throw e) h = h
  send_or_fail-Holds w fault h = tt

  answer_fields-Holds :
      (env : Env) (w : World) (username : List ℕ) (salt verifier : Option (List ℕ))
      → ((s v : List ℕ) → salt ≡ some s → verifier ≡ some v → Recorded username s v)
      → Holds Recorded w.cache
      → HoldsAfter (answer_fields env w username salt verifier)
  unfolding answer_fields send_failure send_packet_as put with_srp
  answer_fields-Holds env w username none verifier known h = h
  answer_fields-Holds env w username (some salt) none known h = h
  answer_fields-Holds env w username (some salt) (some verifier) known h =
      let entry : Entry = record { salt = salt; verifier = verifier; last_access = env.later } in
      let kept : All (Known Recorded) (assign username entry w.cache.cache) =
        assign-All Recorded username entry w.cache.cache (known salt verifier refl refl) h in
      if-HoldsAfter (not (length salt == 32) || not (length verifier == 32)) _ _ h
        (send_or_fail-Holds _ _ kept)

  answer_row-Holds :
      (env : Env) (w : World) (username : List ℕ) (r : Outcome Exception (Option AccountsRow))
      → Says env.db
      → env.db username ≡ r
      → Holds Recorded w.cache
      → HoldsAfter (answer_row env w username r)
  unfolding answer_row send_failure send_packet_as
  answer_row-Holds env w username (ok none) says e h = h
  answer_row-Holds env w username (ok (some user)) says e h =
      answer_fields-Holds env w username user.salt user.verifier
        (λ s v has_salt has_verifier. says username user s v e has_salt has_verifier) h
  answer_row-Holds env w username (throw x) says e h = h
  answer_row-Holds env w username fault says e h = tt

  answer_cached-Holds :
      (env : Env) (w : World) (username : List ℕ) (found : Option Entry)
      → Says env.db
      → Holds Recorded w.cache
      → HoldsAfter (answer_cached env w username found)
  unfolding answer_cached with_srp
  answer_cached-Holds env w username (some entry) says h = send_or_end-Holds _ _ h
  answer_cached-Holds env w username none says h =
      answer_row-Holds env w username (env.db username) says refl h

  name_read-Holds :
      (env : Env) (w : World) (r : Outcome Exception (List ℕ × Packet))
      → Says env.db
      → Holds Recorded w.cache
      → HoldsAfter (name_read env w r)
  unfolding name_read answer_username send_failure send_packet_as with_srp get
  name_read-Holds env w (ok (raw, p)) says h =
      let username = to_uppercase raw in
      let found = find username w.cache.cache in
      if-HoldsAfter (not (is_valid_utf8 raw)) _ _ h (
        answer_cached-Holds env _ username (get_found w.cache env.now username found).1 says
          (get_found-Holds Recorded w.cache env.now username found h refl))
  name_read-Holds env w (throw e) says h = h
  name_read-Holds env w fault says h = tt

  proof_read-Holds :
      (env : Env) (w : World) (r : Outcome Exception ((List ℕ × List ℕ) × Packet))
      → Holds Recorded w.cache
      → HoldsAfter (proof_read env w r)
  unfolding proof_read send_failure send_packet_as authenticate
  proof_read-Holds env w (ok ((a_bytes, m1), p)) h =
      if-HoldsAfter (not (verify_client_proof env.ssl (srp_of w) a_bytes m1).0) _ _ h h
  proof_read-Holds env w (throw e) h = h
  proof_read-Holds env w fault h = tt

  auth_pong-Holds :
      (w : World) (r : Outcome Exception (ℕ × Packet))
      → Holds Recorded w.cache
      → HoldsAfter (Handlers.pong w r)
  unfolding Handlers.pong send_packet_as
  auth_pong-Holds w (ok (ping, p)) h = h
  auth_pong-Holds w (throw e) h = tt
  auth_pong-Holds w fault h = tt

  work_pong-Holds :
      (w : World) (r : Outcome Exception (ℕ × Packet))
      → Holds Recorded w.cache
      → HoldsAfter (WorkStage.pong w r)
  unfolding WorkStage.pong send_packet_as
  work_pong-Holds w (ok (ping, p)) h = h
  work_pong-Holds w (throw e) h = tt
  work_pong-Holds w fault h = tt

  logged-Holds :
      (w : World) (r : Outcome Exception (List ℕ × Packet))
      → Holds Recorded w.cache
      → HoldsAfter (WorkStage.logged w r)
  unfolding WorkStage.logged
  logged-Holds w (ok (msg, p)) h = h
  logged-Holds w (throw e) h = tt
  logged-Holds w fault h = tt

  pub auth_dispatch-Holds :
      (env : Env) (w : World) (p : Packet)
      → Says env.db
      → Holds Recorded w.cache
      → HoldsAfter (Handlers.dispatch env w p)
  unfolding Handlers.dispatch Handlers.handle_ping handle_logon_challenge handle_logon_proof
  auth_dispatch-Holds env w p says h =
      let proof = if p.opcode == cmsg_auth_logon_proof then handle_logon_proof env w p else ok w in
      let login =
        if p.opcode == cmsg_auth_logon_challenge then handle_logon_challenge env w p else proof in
      if-HoldsAfter (p.opcode == cmsg_ping) (Handlers.handle_ping w p) login
        (auth_pong-Holds w (read_uint32_le p) h)
        (if-HoldsAfter (p.opcode == cmsg_auth_logon_challenge) (handle_logon_challenge env w p)
          proof (name_read-Holds env w (read_string_nt_le p) says h)
          (if-HoldsAfter (p.opcode == cmsg_auth_logon_proof) (handle_logon_proof env w p) (ok w)
            (proof_read-Holds env w (read_proof p) h) h))

  pub work_dispatch-Holds :
      (w : World) (p : Packet) → Holds Recorded w.cache → HoldsAfter (WorkStage.dispatch w p)
  unfolding WorkStage.dispatch WorkStage.handle_ping WorkStage.handle_message
  work_dispatch-Holds w p h =
      let message =
        if p.opcode == WorkStage.cmsg_message then WorkStage.handle_message w p else ok w in
      if-HoldsAfter (p.opcode == WorkStage.cmsg_ping) (WorkStage.handle_ping w p) message
        (work_pong-Holds w (read_uint32_le p) h)
        (if-HoldsAfter (p.opcode == WorkStage.cmsg_message) (WorkStage.handle_message w p) (ok w)
          (logged-Holds w (read_string_nt_le p) h) h)
