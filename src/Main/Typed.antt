-- ===== src/Main/Typed.antt =====
-- src/main_client.cpp: what becomes of the lines that are typed.
use purity.Common.{
  ℕ, ◌≡◌, refl, sym, ap, ◌∙◌, List, [], ◌∷◌, ◌++◌, append_assoc, append-nil, map, All, ok, arith,
}
use purity.Packet.Work.{build_packet, deserialize}
use purity.Session.{auth_session, work_session}
use purity.WorkStage.Message.{
  message, IsPlain, payload, message-payload, read-message, length-payload,
}
use purity.Packet.{Packet, new}
use purity.Packet.Codec.{packet, work_deserialize-build_packet}
use purity.Packet.Read.{read_string_nt_le}
use purity.WorkStage.{empty_stage, cmsg_message}
use purity.Client.{Client, send_packet_impl, send_work_packet, send_message, message_in_mode}
use purity.Client.Queue.{IsSynced, Stepped, stream, send_packet_impl-Stepped}
use purity.Main.ClientMain.{type_lines}
use purity.Main.Sending.{send_packet_impl-Same}

abbrev pub wire : List ℕ → List ℕ
wire line = build_packet (message line)

send_message-work :
    (c : Client) (line : List ℕ)
    → c.session_mode ≡ work_session
    → send_message c line ≡ send_packet_impl c (wire line)
unfolding send_message message_in_mode send_work_packet
send_message-work c line e = ap (λ mode. message_in_mode c mode line) e

-- Every line that is typed while the client is in work mode is queued once, as a packet of its own, behind all
-- that was sent before, in the order of the lines, and the client stays in step with its socket.
pub type_lines-extends :
    (c : Client) (lines : List (List ℕ))
    → IsSynced c
    → c.session_mode ≡ work_session
    → Stepped c (map wire lines) (type_lines c lines)
unfolding type_lines
type_lines-extends c [] v e = record { synced = v; extends = sym (append-nil (stream c)) }
type_lines-extends c (line ∷ lines) v e =
    let d = send_packet_impl c (wire line) in
    let first = send_packet_impl-Stepped c (wire line) v in
    let later =
      type_lines-extends d lines first.synced
        ((send_packet_impl-Same c (wire line)).session_mode ∙ e) in
    rw (send_message-work c line e) record {
      synced = later.synced;
      extends =
          later.extends
          ∙ ap (λ xs. xs ++ map wire lines) first.extends
          ∙ append_assoc (stream c) (wire line ∷ []) (map wire lines);
    }

-- Before the login is through, lines are dropped.
pub type_lines-auth :
    (c : Client) (lines : List (List ℕ)) → c.session_mode ≡ auth_session → type_lines c lines ≡ c
unfolding type_lines send_message message_in_mode
type_lines-auth c [] e = refl
type_lines-auth c (line ∷ lines) e =
    ap (λ mode. type_lines (message_in_mode c mode line) lines) e ∙ type_lines-auth c lines e

-- A packet from which the server reads a text.
pub record Carries (bytes text : List ℕ) : Type 0 where
  pub packet : Packet
  pub read : Packet
  pub parsed : deserialize bytes (new empty_stage) ≡ ok packet
  pub opcode : packet.opcode ≡ cmsg_message
  pub text_read : read_string_nt_le packet ≡ ok (text, read)

wire-Carries : (line : List ℕ) → IsPlain line → Carries (wire line) line
wire-Carries line plain =
    let p = packet cmsg_message (payload line) in
    let (q, text) = read-message line plain in
    record {
      packet = p;
      read = q;
      parsed =
          ap (λ m. deserialize (build_packet m) (new empty_stage)) (message-payload line)
          ∙ work_deserialize-build_packet p (new empty_stage) (omega arith)
              (omega (arith, length-payload line, plain.short));
      opcode = refl;
      text_read = text;
    }

all-Carries :
    (lines : List (List ℕ)) → All IsPlain lines → All (λ line. Carries (wire line) line) lines
all-Carries [] plain = tt
all-Carries (line ∷ lines) plain = (wire-Carries line plain.0, all-Carries lines plain.1)

-- What is typed at a client in work mode that is in step with its socket is queued line by line, each line once, as
-- a packet of its own, behind all that was sent before and in the order of the lines; the client stays in step; and
-- each of these packets is parsed as a chat message from which exactly the text of the line is read. The lines have
-- no null byte and less than 2048 bytes each.
pub type_lines-Carries :
    (c : Client) (lines : List (List ℕ))
    → IsSynced c
    → c.session_mode ≡ work_session
    → All IsPlain lines
    → Stepped c (map wire lines) (type_lines c lines) × All (λ line. Carries (wire line) line) lines
type_lines-Carries c lines v e plain = (type_lines-extends c lines v e, all-Carries lines plain)
