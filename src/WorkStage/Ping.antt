-- ===== src/WorkStage/Ping.antt =====
-- src/server/SessionMode/workstage/handlers/HandlersWork.cpp and src/Client/Client.cpp: the ping of a client
-- and its answer.
use purity.Common.{ℕ, ◌<◌, ◌^◌, false, ◌≡◌, refl, ap, ◌∙◌, List, [], ◌∷◌, ◌++◌, ok, arith}
use purity.Bytes.{le_bytes}
use purity.Bytes.RoundTrip.{length-le_bytes}
use purity.ByteBuffer
use purity.ByteBuffer.{empty}
use purity.ByteBuffer.Fields.Reads.{read_uint32_le-before}
use purity.MessageBuffer.{IsValid, contents}
use purity.Packet.{Packet, new, with_buffer}
use purity.Packet.Read.{read_uint32_le}
use purity.Packet.Write.{write_uint32_le}
use purity.Packet.Work.{build_packet}
use purity.Packet.Codec.{packet}
use purity.Session.{work_packet, send_packet}
use purity.World.{World, send_packet_as}
use purity.AuthStage.Reader.{close_on_throw, with_read_buffer}
use purity.AuthStage.Framing.{advanced}
use purity.WorkStage.{cmsg_ping, smsg_pong, dispatch, handle_ping, pong}
use purity.WorkStage.Reader.{process_read_buffer_as_workserver}
use purity.WorkStage.Framing.{process_work_buffer-build_packet}

ping_payload : (opcode id : ℕ) → write_uint32_le (new opcode) id ≡ packet opcode (le_bytes 4 id)
unfolding write_uint32_le new ByteBuffer.Write.write_uint32_le ByteBuffer.Write.write_bytes empty
ping_payload opcode id = refl

dispatch-ping :
    (w : World) (id : ℕ)
    → id < 2 ^ 32
    → dispatch w (packet cmsg_ping (le_bytes 4 id))
      ≡ ok (send_packet_as work_packet w (write_uint32_le (new smsg_pong) id))
unfolding dispatch handle_ping read_uint32_le le_bytes
dispatch-ping w id h =
    let read = read_uint32_le-before id [] [] h (omega arith) in
    ap (λ r. pong w (with_buffer (packet cmsg_ping (le_bytes 4 id)) r)) read ∙ (unfold pong in refl)

-- A session that is open sends.
open_sends :
    (w : World) (p : Packet)
    → w.session.closed ≡ false
    → send_packet_as work_packet w p ≡ record w {
      session = record w.session { posted = w.session.posted ++ (work_packet p ∷ []) };
    }
unfolding send_packet_as send_packet
open_sends w p opened = rw opened refl

-- What the ping leaves: the pong is posted, and the bytes of the ping are taken off.
unfoldable pub ponged : World → ℕ → World
ponged w id = record (advanced 8 w) {
  session = record (advanced 8 w).session {
    posted = w.session.posted ++ (work_packet (write_uint32_le (new smsg_pong) id) ∷ []);
  };
}

pub process_work_buffer-ponged :
    (w : World) (id : ℕ) (rest : List ℕ)
    → IsValid w.session.read_buffer
    → contents w.session.read_buffer ≡ build_packet (write_uint32_le (new cmsg_ping) id) ++ rest
    → id < 2 ^ 32
    → w.session.closed ≡ false
    → (process_read_buffer_as_workserver w ≡ ok (ponged w id))
      × IsValid (ponged w id).session.read_buffer
      × (contents (ponged w id).session.read_buffer ≡ rest)
unfolding ponged advanced with_read_buffer close_on_throw le_bytes
process_work_buffer-ponged w id rest v e h opened =
    let p = packet cmsg_ping (le_bytes 4 id) in
    let front = e ∙ ap (λ q. build_packet q ++ rest) (ping_payload cmsg_ping id) in
    let (run, valid, left) =
      process_work_buffer-build_packet w p rest v front (omega arith)
        (omega (arith, length-le_bytes 4 id)) in
    let sent = dispatch-ping (advanced 8 w) id h in
    (
      run
          ∙ ap (close_on_throw (advanced 8 w)) sent
          ∙ ap ok (open_sends (advanced 8 w) (write_uint32_le (new smsg_pong) id) opened),
      valid,
      left,
    )

-- When the ping of a client waits in front of an open session in work mode, the session sends a pong with
-- the same number, once, and stays as it is but for the bytes that it has read.
pub process_work_buffer-ping :
    (w : World) (id : ℕ) (rest : List ℕ)
    → IsValid w.session.read_buffer
    → contents w.session.read_buffer ≡ build_packet (write_uint32_le (new cmsg_ping) id) ++ rest
    → id < 2 ^ 32
    → w.session.closed ≡ false
    → (w' : World) × (process_read_buffer_as_workserver w ≡ ok w')
      × (w'.session.posted
          ≡ w.session.posted ++ (work_packet (write_uint32_le (new smsg_pong) id) ∷ []))
      × (contents w'.session.read_buffer ≡ rest)
      × IsValid w'.session.read_buffer
      × (w'.session.session_mode ≡ w.session.session_mode)
      × (w'.session.closed ≡ false)
unfolding ponged advanced with_read_buffer
process_work_buffer-ping w id rest v e h opened =
    let (run, valid, left) = process_work_buffer-ponged w id rest v e h opened in
    (ponged w id, run, refl, left, valid, refl, opened)
