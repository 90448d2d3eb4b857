-- ===== src/Client/Named.antt =====
-- src/Client/Client.cpp and src/server: the name that is typed, as a packet, at the server.
use mathlib.Core.List.{reverse-reverse}
use purity.Common.{
  ℕ, ◌+◌, ◌<◌, ◌≡◌, refl, sym, ap, ◌∙◌, true, List, [], ◌∷◌, ◌++◌, append-nil, reverse, All, length,
  length-append, length-reverse, ok, arith,
}
use purity.ByteBuffer
use purity.ByteBuffer.{empty}
use purity.ByteBuffer.Fields.Reads.{read_string_nt_le-before}
use purity.ByteBuffer.Fields.RoundTrip.{All-reverse}
use purity.MessageBuffer.{IsValid, contents}
use purity.Packet.{Packet, new, with_buffer}
use purity.Packet.Auth.{build_packet}
use purity.Packet.Read.{read_string_nt_le}
use purity.Packet.Write.{write_string_nt_le}
use purity.Packet.Codec.{packet}
use purity.Session.{auth_session}
use purity.Srp6
use purity.OpenSsl.{OpenSsl}
use purity.Utils.Utf8.{is_valid_utf8, to_uppercase}
use purity.World.{World, Env, srp_of}
use purity.AuthStage.{cmsg_auth_logon_challenge}
use purity.AuthStage.Handlers.{dispatch, handle_logon_challenge, name_read, answer_username}
use purity.AuthStage.Challenge.{IsReady}
use purity.AuthStage.Known.{Known, cached, stored, Challenged, answer_username-Challenged}
use purity.AuthStage.Reader.{close_on_throw, with_read_buffer}
use purity.AuthStage.Framing.{advanced, process_read_buffer-build_packet}
use purity.Connection.{process_read_buffer, process_in_mode}
use purity.Client.{Client, send_packet_impl, send_auth_packet}
use purity.Client
use purity.Client.Sent.{send_packet_impl-Sent}

-- The packet of a name.
abbrev name_bytes : List ℕ → List ℕ
name_bytes username = reverse username ++ (0 ∷ [])

abbrev pub name_packet : List ℕ → Packet
name_packet username = packet cmsg_auth_logon_challenge (name_bytes username)

pub credentials-queued :
    (ssl : OpenSsl) (c : Client) (username password : List ℕ)
    → (Client.handle_logon_challenge ssl c username password).outgoing_queue
      ≡ c.outgoing_queue ++ (build_packet (name_packet username) ∷ [])
unfolding Client.handle_logon_challenge send_auth_packet write_string_nt_le new empty
    ByteBuffer.Write.write_string_nt_le ByteBuffer.Write.write_string_raw_le
    ByteBuffer.Write.write_bytes ByteBuffer.Write.write_uint8
credentials-queued ssl c username password =
    let c' : Client = record c { srp = Srp6.set_credentials ssl c.srp username password } in
    (send_packet_impl-Sent c' (build_packet (name_packet username))).queue

length-name_bytes : (username : List ℕ) → length (name_bytes username) ≡ length username + 1
length-name_bytes username =
    omega (arith, length-append (reverse username) (0 ∷ []), length-reverse username)

-- The server reads the name that was sent.
name-handled :
    (env : Env) (w : World) (username : List ℕ)
    → All (λ c. 0 < c) username
    → handle_logon_challenge env w (name_packet username) ≡ answer_username env w username
unfolding handle_logon_challenge read_string_nt_le
name-handled env w username no_null =
    let read = read_string_nt_le-before (reverse username) [] [] (All-reverse username no_null) in
    let text : reverse (reverse username) ≡ username = reverse-reverse username in
    let whole = sym (append-nil (name_bytes username)) in
    let p = name_packet username in
    ap (λ r. name_read env w (with_buffer p r))
      (ap (λ xs. ByteBuffer.Read.read_string_nt_le (record { buffer = xs; read_pos = 0 })) whole
        ∙ read
        ∙ ap (λ name. ok (name, ByteBuffer.Wire.behind [] (name_bytes username) [])) text)
    ∙ (unfold name_read in refl)

Known-advanced :
    (env : Env) (w : World) (n : ℕ) (username salt verifier : List ℕ)
    → Known env w username salt verifier
    → Known env (advanced n w) username salt verifier
unfolding advanced with_read_buffer
Known-advanced env w n username salt verifier (cached entry is) = cached entry is
Known-advanced env w n username salt verifier (stored row s v is has s_is v_is) =
    stored row s v is has s_is v_is

IsReady-advanced : (w : World) (n : ℕ) → IsReady w → IsReady (advanced n w)
unfolding advanced with_read_buffer srp_of
IsReady-advanced w n ready = record {
  opened = ready.opened;
  positive = ready.positive;
  small = ready.small;
}

-- The bytes of a name arrive, and the parameters of its account are sent.
pub name_arrives :
    (env : Env) (w : World) (username salt verifier rest : List ℕ)
    → IsReady w
    → w.session.session_mode ≡ auth_session
    → IsValid w.session.read_buffer
    → contents w.session.read_buffer ≡ build_packet (name_packet username) ++ rest
    → All (λ c. 0 < c) username
    → length username < 2048
    → is_valid_utf8 username ≡ true
    → Known env w (to_uppercase username) salt verifier
    → length salt ≡ 32
    → length verifier ≡ 32
    → Challenged env w salt verifier (process_read_buffer env w)
unfolding process_read_buffer process_in_mode dispatch close_on_throw advanced with_read_buffer
name_arrives env w username salt verifier rest ready mode valid arrived no_null short utf8 known
      s_size v_size =
    let p = name_packet username in
    let n = 3 + length (name_bytes username) in
    let u = advanced n w in
    let size = length-name_bytes username in
    let framed =
      process_read_buffer-build_packet env w p rest valid arrived (omega (arith, size)) in
    let sent : Challenged env u salt verifier (answer_username env u username) =
      answer_username-Challenged env u username salt verifier (IsReady-advanced w n ready) utf8
        (Known-advanced env w n (to_uppercase username) salt verifier known) s_size v_size in
    let handled = name-handled env u username no_null ∙ sent.done in
    record {
      keying = sent.keying;
      ready = sent.ready;
      world = sent.world;
      done = ap (process_in_mode env w) mode ∙ framed.0 ∙ ap (close_on_throw u) handled;
      parameters = sent.parameters;
      sent = sent.sent;
      posted = sent.posted;
      opened = sent.opened;
      mode = sent.mode;
    }
