-- ===== src/Client/Credentials.antt =====
-- src/Client/Client.cpp and src/server: the whole login, from the name and the password on.
use purity.Common.{
  ℕ, ◌-◌, ◌%◌, ◌^◌, ◌<◌, ◌≡◌, refl, sym, ap, ◌∙◌, true, List, [], ◌∷◌, ◌++◌, append-nil, All,
  length, length-append, take, take-all, ok, arith,
}
use purity.MessageBuffer.{MessageBuffer, IsValid, contents}
use purity.Packet.{Packet}
use purity.Packet.Auth.{build_packet}
use purity.Packet.Codec.{auth_frame}
use purity.Bytes.{be_bytes}
use purity.Bytes.RoundTrip.{length-be_bytes}
use purity.Session.{auth_packet, auth_session, work_session}
use purity.OpenSsl.{OpenSsl}
use purity.Utils.Utf8.{is_valid_utf8, to_uppercase}
use purity.World.{World, Env}
use purity.AuthStage.Challenge.{IsReady}
use purity.AuthStage.Known.{Known}
use purity.AuthStage.Reader.{with_read_buffer}
use purity.Connection.{process_read_buffer}
use purity.Client.{Client, send_packet_impl, send_auth_packet}
use purity.Client
use purity.Client.Handlers.{handle_auth_packet}
use purity.Client.Login.{client_env, login}
use purity.Client.Wire.{login_over_wire, last_unique}
use purity.Client.Named.{name_packet, credentials-queued, name_arrives}

-- A read buffer that holds some bytes.
abbrev pub holding : List ℕ → MessageBuffer
holding bytes = record { wpos = length bytes; rpos = 0; storage = bytes }

-- What client and server do, one after the other.
pub record Completed (env : Env) (rand_bytes : List ℕ) (c : Client) (w : World) : Type 0 where
  -- the server reads the name and sends the parameters
  pub challenged : World
  pub parameters : Packet
  pub name_read : process_read_buffer env w ≡ ok challenged
  pub challenge_posted :
      challenged.session.posted ≡ w.session.posted ++ (auth_packet parameters ∷ [])
  -- the client gets them and queues a proof
  pub proving : Client
  pub bytes : List ℕ
  pub parameters_got : handle_auth_packet (client_env env rand_bytes) c parameters ≡ ok proving
  pub proof_queued : proving.outgoing_queue ≡ c.outgoing_queue ++ (bytes ∷ [])
  -- the server gets its bytes, goes over to work and sends an answer
  pub working : World
  pub answer : Packet
  pub proof_read :
      process_read_buffer env (with_read_buffer challenged (holding bytes)) ≡ ok working
  pub server_works : working.session.session_mode ≡ work_session
  pub answer_posted :
      working.session.posted ≡ challenged.session.posted ++ (auth_packet answer ∷ [])
  -- the client gets the answer and goes over to work
  pub client : Client
  pub answer_got : handle_auth_packet (client_env env rand_bytes) proving answer ≡ ok client
  pub client_works : client.session_mode ≡ work_session

holding-contents : (xs : List ℕ) → contents (holding xs) ≡ xs
unfolding contents
holding-contents xs =
    let all : length xs - 0 ≡ length xs = omega arith in
    ap (λ n. take n xs) all ∙ take-all (length xs) xs (omega arith)

holding-IsValid : (xs : List ℕ) → length xs < 2 ^ 64 → IsValid (holding xs)
holding-IsValid xs h = record { ordered = omega arith; in_storage = omega arith; small = h }

length-proof : (p : Packet) → length p.buffer.buffer ≡ 52 → length (build_packet p) < 2 ^ 64
length-proof p size =
    let n = length p.buffer.buffer % 2 ^ 16 in
    let framed = ap length (auth_frame p) in
    omega (arith, framed, length-append (be_bytes 2 n) p.buffer.buffer, length-be_bytes 2 n, size)

-- A client that has been asked for a name and a password logs in at a server that knows the name. When the
-- packet that the client queues for them waits in front of an open session in auth mode, the server answers
-- with parameters; at these the client queues a proof; when its bytes are in the read buffer, the server goes
-- over to work and answers; and at this answer the client goes over to work. The name has no null byte, is
-- valid UTF-8 and shorter than 2048 bytes; its account, in the cache or the database, has a salt and a
-- verifier of 32 bytes; the modulus is positive and below 2 ^ 256.
pub login_with_credentials :
    (env : Env) (ssl : OpenSsl) (rand_bytes : List ℕ) (c : Client) (w : World)
    (username password salt verifier frame rest : List ℕ)
    → (Client.handle_logon_challenge ssl c username password).outgoing_queue
      ≡ c.outgoing_queue ++ (frame ∷ [])
    → contents w.session.read_buffer ≡ frame ++ rest
    → IsReady w
    → w.session.session_mode ≡ auth_session
    → IsValid w.session.read_buffer
    → All (λ ch. 0 < ch) username
    → length username < 2048
    → is_valid_utf8 username ≡ true
    → Known env w (to_uppercase username) salt verifier
    → length salt ≡ 32
    → length verifier ≡ 32
    → Completed env rand_bytes (Client.handle_logon_challenge ssl c username password) w
login_with_credentials env ssl rand_bytes c w username password salt verifier frame rest queued
      arrived ready mode valid no_null short utf8 known s_size v_size =
    let asked = Client.handle_logon_challenge ssl c username password in
    let wire : frame ≡ build_packet (name_packet username) =
      last_unique c.outgoing_queue _ _ (sym queued ∙ credentials-queued ssl c username password) in
    let named =
      name_arrives env w username salt verifier rest ready mode valid
        (arrived ∙ ap (λ xs. xs ++ rest) wire) no_null short utf8 known s_size v_size in
    let (parameters, made, run) =
      login env rand_bytes asked named.keying named.world salt verifier named.ready named.opened
        s_size in
    let bytes = build_packet run.proof in
    let next : World = with_read_buffer named.world (holding bytes) in
    let same : named.parameters ≡ parameters = cc (named.sent, made) in
    let (working, answer, client, read, serves, posted, got, works) =
      login_over_wire env rand_bytes asked run.proving named.keying next salt verifier parameters
        bytes [] named.ready s_size made run.proved run.queued
        (unfold with_read_buffer in named.opened) (unfold with_read_buffer in named.mode ∙ mode)
        (unfold with_read_buffer in holding-IsValid bytes (length-proof run.proof run.size))
        (unfold with_read_buffer in holding-contents bytes ∙ sym (append-nil bytes)) in
    record {
      challenged = named.world;
      parameters = parameters;
      name_read = named.done;
      challenge_posted = named.posted ∙ ap (λ p. w.session.posted ++ (auth_packet p ∷ [])) same;
      proving = run.proving;
      bytes = bytes;
      parameters_got = run.proved;
      proof_queued = run.queued;
      working = working;
      answer = answer;
      proof_read = read;
      server_works = serves;
      answer_posted = posted ∙ (unfold with_read_buffer in refl);
      client = client;
      answer_got = got;
      client_works = works;
    }
