-- ===== src/Client/Wire.antt =====
-- src/Client/Client.cpp and src/server: the login, with the client's proof as the bytes that arrive.
use purity.Common.{ℕ, ◌+◌, ◌≡◌, sym, ap, subst, ◌∙◌, false, List, [], ◌∷◌, ◌++◌, ok, length, arith}
use purity.MessageBuffer.{IsValid, contents}
use purity.Packet.{Packet}
use purity.Packet.Auth.{build_packet}
use purity.Packet.Codec.{packet}
use purity.Session.{auth_packet, auth_session, work_session}
use purity.World.{World, Env}
use purity.AuthStage.{cmsg_auth_logon_proof}
use purity.AuthStage.Handlers.{dispatch, handle_logon_proof, challenge, keyed_srp}
use purity.AuthStage.Challenge.{IsReady}
use purity.AuthStage.Reader.{close_on_throw, with_read_buffer}
use purity.AuthStage.Framing.{advanced, process_read_buffer-build_packet}
use purity.Connection.{process_read_buffer, process_in_mode}
use purity.Client.{Client}
use purity.Client.Handlers.{handle_auth_packet}
use purity.Client.Login.{LoggedIn, client_env, login}

-- What the server makes of the bytes of a proof.
proof_arrives :
    (env : Env) (rand_bytes : List ℕ) (c : Client) (u : World) (parameters : Packet) (rest : List ℕ)
    (run : LoggedIn env rand_bytes c (advanced 55 u) parameters)
    → IsValid u.session.read_buffer
    → u.session.session_mode ≡ auth_session
    → contents u.session.read_buffer ≡ build_packet run.proof ++ rest
    → process_read_buffer env u ≡ ok run.world
unfolding process_read_buffer process_in_mode dispatch close_on_throw
proof_arrives env rand_bytes c u parameters rest run v mode e =
    let framed =
      process_read_buffer-build_packet env u run.proof rest v e (omega (arith, run.size)) in
    let n : 3 + length run.proof.buffer.buffer ≡ 55 = omega (arith, run.size) in
    let same : packet cmsg_auth_logon_proof run.proof.buffer.buffer ≡ run.proof = sym run.fresh in
    let opcode : run.proof.opcode ≡ cmsg_auth_logon_proof = ap (λ p. p.opcode) run.fresh in
    ap (process_in_mode env u) mode
    ∙ framed.0
    ∙ ap
        (λ k.
          close_on_throw (advanced k u)
            (dispatch env (advanced k u) (packet run.proof.opcode run.proof.buffer.buffer)))
        n
    ∙ ap
        (λ o.
          close_on_throw (advanced 55 u)
            (dispatch env (advanced 55 u) (packet o run.proof.buffer.buffer)))
        opcode
    ∙ ap (λ p. close_on_throw (advanced 55 u) (handle_logon_proof env (advanced 55 u) p)) same
    ∙ ap (close_on_throw (advanced 55 u)) run.verified

pub last_unique : (xs : List (List ℕ)) (a b : List ℕ) → xs ++ (a ∷ []) ≡ xs ++ (b ∷ []) → a ≡ b
last_unique [] a b e = cc
last_unique (x ∷ xs) a b e = last_unique xs a b cc

-- The login from end to end. The server's parameters for an account with a salt of 32 bytes reach the
-- client, and the bytes that the client then queues reach the server, whose session is open and in auth
-- mode, with any bytes behind them: the server goes over to work and sends an answer, at which the client
-- goes over to work too. The modulus is positive and below 2 ^ 256.
pub login_over_wire :
    (env : Env) (rand_bytes : List ℕ) (c proving : Client) (w u : World) (salt verifier : List ℕ)
    (parameters : Packet) (bytes rest : List ℕ)
    → IsReady w
    → length salt ≡ 32
    → challenge env (keyed_srp env w salt verifier) salt ≡ ok parameters
    → handle_auth_packet (client_env env rand_bytes) c parameters ≡ ok proving
    → proving.outgoing_queue ≡ c.outgoing_queue ++ (bytes ∷ [])
    → u.session.closed ≡ false
    → u.session.session_mode ≡ auth_session
    → IsValid u.session.read_buffer
    → contents u.session.read_buffer ≡ bytes ++ rest
    → (world : World) × (answer : Packet) × (client : Client) × (process_read_buffer env u
        ≡ ok world)
      × (world.session.session_mode ≡ work_session)
      × (world.session.posted ≡ u.session.posted ++ (auth_packet answer ∷ []))
      × (handle_auth_packet (client_env env rand_bytes) proving answer ≡ ok client)
      × (client.session_mode ≡ work_session)
unfolding advanced with_read_buffer
login_over_wire env rand_bytes c proving w u salt verifier parameters bytes rest ready len sent got
      queued opened mode valid arrived =
    let (chosen, made, run') =
      login env rand_bytes c w (advanced 55 u) salt verifier ready opened len in
    let same : chosen ≡ parameters = cc in
    let run = subst (LoggedIn env rand_bytes c (advanced 55 u)) same run' in
    let client : run.proving ≡ proving = cc (run.proved, got) in
    let queue : c.outgoing_queue ++ (build_packet run.proof ∷ [])
        ≡ c.outgoing_queue ++ (bytes ∷ []) =
      sym run.queued ∙ ap (λ d. d.outgoing_queue) client ∙ queued in
    let wire : build_packet run.proof ≡ bytes = last_unique c.outgoing_queue _ _ queue in
    (
      run.world,
      run.answer,
      run.client,
      proof_arrives env rand_bytes c u parameters rest run valid mode
          (arrived ∙ ap (λ xs. xs ++ rest) (sym wire)),
      run.serves,
      run.answered,
      ap (λ d. handle_auth_packet (client_env env rand_bytes) d run.answer) (sym client)
          ∙ run.accepted,
      run.works,
    )
