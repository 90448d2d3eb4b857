-- ===== src/AuthStage/Challenge.antt =====
-- src/server/SessionMode/authstage/handlers/HandlersAuth.cpp: every login challenge is answered.
use purity.Common.{
  ℕ, ◌<◌, ◌^◌, ◌≡◌, ◌∙◌, refl, ap, false, not, ◌||◌, List, [], ◌∷◌, ◌++◌, Option, none, some,
  Outcome, ok, throw, fault, length, ◌==◌, Bool-cases, inl, inr, arith,
}
use purity.Bytes.{be_value}
use purity.Exception.{Exception}
use purity.AccountCache.{AccountCache, Entry, get, put}
use purity.ByteBuffer
use purity.Packet.{Packet}
use purity.Packet.Read.{read_string_nt_le}
use purity.Session.{auth_packet, send_packet}
use purity.Srp6.{Srp6, get_generator, load_verifier, generate_server_ephemeral, set_only_username}
use purity.Srp6.Handshake.{get_b_bytes-generate_server_ephemeral, get_n_bytes-ok}
use purity.Utils.Utf8.{is_valid_utf8, to_uppercase}
use purity.World.{World, Env, AccountsRow, srp_of, with_srp, send_packet_as}
use purity.AuthStage.Handlers.{
  handle_logon_challenge, name_read, answer_username, answer_cached, answer_row, answer_fields,
  keyed_srp, send_or_fail, send_or_end, challenge, challenge_packet, send_failure, failure,
}

-- The session has not been closed, and its modulus is one that 32 bytes can hold.
pub record IsReady (w : World) : Type 0 where
  pub opened : w.session.closed ≡ false
  pub positive : 0 < (srp_of w).n
  pub small : (srp_of w).n < 256 ^ 32

-- One packet more is on its way, and the client is logged in as much as before.
pub record Answered (w : World) (r : Outcome Exception World) : Type 0 where
  pub world : World
  pub reply : Packet
  pub done : r ≡ ok world
  pub posted : world.session.posted ≡ w.session.posted ++ (auth_packet reply ∷ [])
  pub mode : world.session.session_mode ≡ w.session.session_mode
  pub is_auth : world.session.account_info.is_auth ≡ w.session.account_info.is_auth

-- What is done before an answer leaves all this as it was.
pub record Same (w v : World) : Type 0 where
  pub opened : v.session.closed ≡ false
  pub posted : v.session.posted ≡ w.session.posted
  pub mode : v.session.session_mode ≡ w.session.session_mode
  pub is_auth : v.session.account_info.is_auth ≡ w.session.account_info.is_auth

send-Answered :
    (w v : World) (reply : Packet) → Same w v → Answered w (ok (send_packet_as auth_packet v reply))
unfolding send_packet_as send_packet
send-Answered w v reply same = rw same.opened record {
  world = _;
  reply = reply;
  done = refl;
  posted = ap (λ xs. xs ++ (auth_packet reply ∷ [])) same.posted;
  mode = same.mode;
  is_auth = same.is_auth;
}

fail-Answered : (w v : World) (error : ℕ) → Same w v → Answered w (ok (send_failure v error))
unfolding send_failure
fail-Answered w v error same = send-Answered w v (failure error) same

pub with_srp-Same : (w v : World) (srp : Srp6) → Same w v → Same w (with_srp v srp)
unfolding with_srp
with_srp-Same w v srp same = record {
  opened = same.opened;
  posted = same.posted;
  mode = same.mode;
  is_auth = same.is_auth;
}

pub with_cache-Same :
    (w v : World) (cache : AccountCache) → Same w v → Same w (record v { cache = cache })
with_cache-Same w v cache same = record {
  opened = same.opened;
  posted = same.posted;
  mode = same.mode;
  is_auth = same.is_auth;
}

pub with_cache-IsReady :
    (v : World) (cache : AccountCache) → IsReady v → IsReady (record v { cache = cache })
unfolding srp_of
with_cache-IsReady v cache ready = record {
  opened = ready.opened;
  positive = ready.positive;
  small = ready.small;
}

-- The parameters that are sent to a client.
pub record Parameters (env : Env) (w : World) (salt verifier : List ℕ) : Type 0 where
  pub b_bytes : List ℕ
  pub generator : ℕ
  pub n_bytes : List ℕ
  pub sent :
      challenge env (keyed_srp env w salt verifier) salt
      ≡ ok (challenge_packet b_bytes generator n_bytes salt)
  pub b_length : length b_bytes ≡ 32
  pub n_length : length n_bytes ≡ 32
  pub n_value : be_value n_bytes ≡ (srp_of w).n

-- They can always be sent.
pub challenge_parameters :
    (env : Env) (w : World) (salt verifier : List ℕ) → IsReady w → Parameters env w salt verifier
unfolding challenge keyed_srp
challenge_parameters env w salt verifier ready =
    let loaded = load_verifier env.ssl (srp_of w) salt verifier in
    let keyed = generate_server_ephemeral env.ssl loaded env.rand_bytes in
    let (b_bytes, b, b_length, _) =
      get_b_bytes-generate_server_ephemeral env.ssl loaded env.rand_bytes
        (unfold load_verifier in ready.positive)
        (unfold load_verifier in omega (arith, ready.small)) in
    let (n_bytes, n, n_length, n_value) =
      get_n_bytes-ok env.ssl keyed
        (unfold load_verifier generate_server_ephemeral in ready.small) in
    record {
      b_bytes = b_bytes;
      generator = get_generator env.ssl keyed;
      n_bytes = n_bytes;
      sent = rw (b, n) refl;
      b_length = b_length;
      n_length = n_length;
      n_value = n_value ∙ (unfold load_verifier generate_server_ephemeral in refl);
    }

pub challenge-ok :
    (env : Env) (w : World) (salt verifier : List ℕ)
    → IsReady w
    → (reply : Packet) × (challenge env (keyed_srp env w salt verifier) salt ≡ ok reply)
challenge-ok env w salt verifier ready =
    let p = challenge_parameters env w salt verifier ready in
    (challenge_packet p.b_bytes p.generator p.n_bytes salt, p.sent)

pub named-IsReady :
    (env : Env) (w : World) (username : List ℕ)
    → IsReady w
    → IsReady (with_srp w (set_only_username env.ssl (srp_of w) username))
unfolding srp_of with_srp set_only_username
named-IsReady env w username ready = record {
  opened = ready.opened;
  positive = ready.positive;
  small = ready.small;
}

module _ (env : Env) (w : World) (username : List ℕ) where
  answer_fields-Answered :
      (v : World) (salt verifier : Option (List ℕ))
      → IsReady v
      → Same w v
      → Answered w (answer_fields env v username salt verifier)
  unfolding answer_fields send_or_fail
  answer_fields-Answered v none verifier ready same = fail-Answered w v _ same
  answer_fields-Answered v (some salt) none ready same = fail-Answered w v _ same
  answer_fields-Answered v (some salt) (some verifier) ready same =
      let entry : Entry = record { salt = salt; verifier = verifier; last_access = 0 } in
      let v' : World = record v { cache = put v.cache env.later username entry } in
      elim (Bool-cases (not (length salt == 32) || not (length verifier == 32))) [
        | inl e ↦ rw e (fail-Answered w v _ same)
        | inr e ↦
            let (reply, sent) =
              challenge-ok env v' salt verifier (with_cache-IsReady v v'.cache ready) in
            rw (e, sent)
              (send-Answered w _ reply (with_srp-Same w v' _ (with_cache-Same w v v'.cache same)))
      ]

  answer_row-Answered :
      (v : World) (r : Outcome Exception (Option AccountsRow))
      → IsReady v
      → Same w v
      → ¬ (r ≡ fault)
      → Answered w (answer_row env v username r)
  unfolding answer_row
  answer_row-Answered v (ok none) ready same ne = fail-Answered w v _ same
  answer_row-Answered v (ok (some user)) ready same ne =
      answer_fields-Answered v user.salt user.verifier ready same
  answer_row-Answered v (throw e) ready same ne = fail-Answered w v _ same
  answer_row-Answered v fault ready same ne = absurd (ne refl)

  answer_cached-Answered :
      (v : World) (found : Option Entry)
      → IsReady v
      → Same w v
      → ¬ (env.db username ≡ fault)
      → Answered w (answer_cached env v username found)
  unfolding answer_cached send_or_end
  answer_cached-Answered v (some e) ready same ne =
      let (reply, sent) = challenge-ok env v e.salt e.verifier ready in
      rw sent (send-Answered w _ reply (with_srp-Same w v _ same))
  answer_cached-Answered v none ready same ne =
      answer_row-Answered v (env.db username) ready same ne

answer_username-Answered :
    (env : Env) (w : World) (raw : List ℕ)
    → IsReady w
    → ((username : List ℕ) → ¬ (env.db username ≡ fault))
    → Answered w (answer_username env w raw)
unfolding answer_username
answer_username-Answered env w raw ready ne =
    let username = to_uppercase raw in
    let named = with_srp w (set_only_username env.ssl (srp_of w) username) in
    let same : Same w w = record {
      opened = ready.opened;
      posted = refl;
      mode = refl;
      is_auth = refl;
    } in
    let found = get named.cache env.now username in
    elim (Bool-cases (is_valid_utf8 raw)) [
      | inr e ↦ rw e (fail-Answered w w _ same)
      | inl e ↦ rw e (
          answer_cached-Answered env w username (record named { cache = found.0 }) found.1
            (with_cache-IsReady named found.0 (named-IsReady env w username ready))
            (with_cache-Same w named found.0 (with_srp-Same w w _ same)) (ne username))
    ]

-- To every login challenge on an open session exactly one packet is sent, whatever the payload, the
-- cache and the database hold and also when the query throws, and the client is not logged in by it.
-- The modulus is positive and below 2 ^ 256, and the query is never undefined behaviour.
pub handle_logon_challenge-Answered :
    (env : Env) (w : World) (p : Packet)
    → IsReady w
    → ((username : List ℕ) → ¬ (env.db username ≡ fault))
    → Answered w (handle_logon_challenge env w p)
unfolding handle_logon_challenge name_read read_string_nt_le ByteBuffer.Read.read_string_nt_le
handle_logon_challenge-Answered env w p ready ne = answer_username-Answered env w _ ready ne
