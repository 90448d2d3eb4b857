-- ===== src/AuthStage/Known.antt =====
-- src/server/SessionMode/authstage/handlers/HandlersAuth.cpp: a name that is known is answered with the
-- parameters of its account.
use purity.Common.{
  ℕ, ◌≡◌, refl, sym, ap, subst, false, true, not, ◌||◌, List, [], ◌∷◌, ◌++◌, none, some, Outcome,
  ok, length, ◌==◌,
}
use purity.Exception.{Exception}
use purity.AccountCache.{Entry, get, put}
use purity.Packet.{Packet}
use purity.Session.{auth_packet, send_packet}
use purity.Srp6.{Srp6, set_only_username}
use purity.Utils.Utf8.{is_valid_utf8, to_uppercase}
use purity.World.{World, Env, AccountsRow, srp_of, with_srp, send_packet_as}
use purity.AuthStage.Handlers.{
  answer_username, answer_cached, answer_row, answer_fields, keyed_srp, send_or_fail, send_or_end,
  challenge,
}
use purity.AuthStage.Challenge.{
  IsReady, Same, with_srp-Same, with_cache-Same, with_cache-IsReady, challenge-ok, named-IsReady,
}

-- The cache gives the account of a name, or it gives none and the database has it.
pub data Known (env : Env) (w : World) (username : List ℕ) : List ℕ → List ℕ → Type 0 where
  cached :
      (entry : Entry)
      → (get w.cache env.now username).1 ≡ some entry
      → Known env w username entry.salt entry.verifier
  stored :
      (row : AccountsRow) (salt verifier : List ℕ)
      → (get w.cache env.now username).1 ≡ none
      → env.db username ≡ ok (some row)
      → row.salt ≡ some salt
      → row.verifier ≡ some verifier
      → Known env w username salt verifier

-- The answer is the challenge with the account's salt, keyed with its verifier in a world that is ready.
pub record Challenged (env : Env) (w : World) (salt verifier : List ℕ) (r : Outcome Exception World)
    : Type 0 where
  pub keying : World
  pub ready : IsReady keying
  pub world : World
  pub done : r ≡ ok world
  pub parameters : Packet
  pub sent : challenge env (keyed_srp env keying salt verifier) salt ≡ ok parameters
  pub posted : world.session.posted ≡ w.session.posted ++ (auth_packet parameters ∷ [])
  pub opened : world.session.closed ≡ false
  pub mode : world.session.session_mode ≡ w.session.session_mode

send-Challenged :
    (env : Env) (w v : World) (salt verifier : List ℕ) (srp : Srp6) (parameters : Packet)
    → IsReady v
    → Same w v
    → challenge env (keyed_srp env v salt verifier) salt ≡ ok parameters
    → Challenged env w salt verifier (ok (send_packet_as auth_packet (with_srp v srp) parameters))
unfolding send_packet_as send_packet with_srp
send-Challenged env w v salt verifier srp parameters ready same sent = rw same.opened record {
  keying = v;
  ready = ready;
  world = _;
  done = refl;
  parameters = parameters;
  sent = sent;
  posted = ap (λ xs. xs ++ (auth_packet parameters ∷ [])) same.posted;
  opened = refl;
  mode = same.mode;
}

sizes_agree :
    (salt verifier : List ℕ)
    → length salt ≡ 32
    → length verifier ≡ 32
    → (not (length salt == 32) || not (length verifier == 32)) ≡ false
sizes_agree salt verifier s v = rw (s, v) refl

fields-Challenged :
    (env : Env) (w v : World) (username salt verifier : List ℕ)
    → IsReady v
    → Same w v
    → length salt ≡ 32
    → length verifier ≡ 32
    → Challenged env w salt verifier (answer_fields env v username (some salt) (some verifier))
unfolding answer_fields send_or_fail
fields-Challenged env w v username salt verifier ready same s_size v_size =
    let entry : Entry = record { salt = salt; verifier = verifier; last_access = 0 } in
    let v' : World = record v { cache = put v.cache env.later username entry } in
    let ready' = with_cache-IsReady v v'.cache ready in
    let (reply, sent) = challenge-ok env v' salt verifier ready' in
    rw (sizes_agree salt verifier s_size v_size, sent)
      (send-Challenged env w v' salt verifier (keyed_srp env v' salt verifier) reply ready'
        (with_cache-Same w v v'.cache same) sent)

row-Challenged :
    (env : Env) (w v : World) (username salt verifier : List ℕ) (row : AccountsRow)
    → IsReady v
    → Same w v
    → env.db username ≡ ok (some row)
    → row.salt ≡ some salt
    → row.verifier ≡ some verifier
    → length salt ≡ 32
    → length verifier ≡ 32
    → Challenged env w salt verifier (answer_cached env v username none)
unfolding answer_cached answer_row
row-Challenged env w v username salt verifier row ready same has s_is v_is s_size v_size =
    rw (has, s_is, v_is) (fields-Challenged env w v username salt verifier ready same s_size v_size)

entry-Challenged :
    (env : Env) (w v : World) (username : List ℕ) (entry : Entry)
    → IsReady v
    → Same w v
    → Challenged env w entry.salt entry.verifier (answer_cached env v username (some entry))
unfolding answer_cached send_or_end
entry-Challenged env w v username entry ready same =
    let (reply, sent) = challenge-ok env v entry.salt entry.verifier ready in
    rw sent (
      send-Challenged env w v entry.salt entry.verifier (keyed_srp env v entry.salt entry.verifier)
        reply ready same sent)

-- What the cache gives, with the world in which it is looked up.
found-Challenged :
    (env : Env) (w v : World) (username salt verifier : List ℕ)
    → IsReady v
    → Same w v
    → Known env w username salt verifier
    → length salt ≡ 32
    → length verifier ≡ 32
    → Challenged env w salt verifier (answer_cached env v username (get w.cache env.now username).1)
found-Challenged env w v username salt verifier ready same (cached entry is) s_size v_size =
    subst (λ o. Challenged env w entry.salt entry.verifier (answer_cached env v username o))
      (sym is) (entry-Challenged env w v username entry ready same)
found-Challenged env w v username salt verifier ready same
      (stored row salt' verifier' is has s_is v_is) s_size v_size =
    subst (λ o. Challenged env w salt' verifier' (answer_cached env v username o)) (sym is)
      (row-Challenged env w v username salt' verifier' row ready same has s_is v_is s_size v_size)

-- Whether the account of a valid name is in the cache or in the database, the client is sent its parameters.
pub answer_username-Challenged :
    (env : Env) (w : World) (raw salt verifier : List ℕ)
    → IsReady w
    → is_valid_utf8 raw ≡ true
    → Known env w (to_uppercase raw) salt verifier
    → length salt ≡ 32
    → length verifier ≡ 32
    → Challenged env w salt verifier (answer_username env w raw)
unfolding answer_username
answer_username-Challenged env w raw salt verifier ready valid known s_size v_size =
    let username = to_uppercase raw in
    let named = with_srp w (set_only_username env.ssl (srp_of w) username) in
    let found = get w.cache env.now username in
    let same : Same w w = record {
      opened = ready.opened;
      posted = refl;
      mode = refl;
      is_auth = refl;
    } in
    rw valid (
      unfold with_srp in
      found-Challenged env w (record named { cache = found.0 }) username salt verifier
        (with_cache-IsReady named found.0 (named-IsReady env w username ready))
        (with_cache-Same w named found.0 (with_srp-Same w w _ same)) known s_size v_size)
