-- ===== src/WorkStage/Message.antt =====
-- src/server/SessionMode/workstage/handlers/HandlersWork.cpp and src/Client/Client.cpp: a chat message and the
-- server that reads it.
use purity.Common.{
  ℕ, ◌+◌, ◌≤◌, ◌<◌, ◌^◌, ◌≡◌, refl, sym, ap, ◌∙◌, List, [], ◌∷◌, ◌++◌, append-nil, reverse, length,
  length-append, length-reverse, All, false, ltb, le→not_ltb, ◌*◌, ◌/◌, ◌%◌, ok, arith,
}
use mathlib.Core.List.{reverse-reverse}
use purity.ByteBuffer
use purity.ByteBuffer.{empty}
use purity.ByteBuffer.Fields.Reads.{read_string_nt_le-before}
use purity.ByteBuffer.Fields.RoundTrip.{All-reverse}
use purity.MessageBuffer.{IsValid, contents}
use purity.Packet.{Packet, new, with_buffer}
use purity.Packet.Read.{read_string_nt_le}
use purity.Packet.Write.{write_string_nt_le}
use purity.Packet.Work.{build_packet}
use purity.Packet.Codec.{packet}
use purity.Session.{close}
use purity.World.{World}
use purity.AuthStage.Reader.{close_on_throw, with_read_buffer}
use purity.AuthStage.Framing.{advanced}
use purity.WorkStage.{cmsg_message, dispatch, handle_message, logged}
use purity.WorkStage.Reader.{process_read_buffer_as_workserver}
use purity.WorkStage.Framing.{
  process_work_buffer-build_packet, process_work_buffer-refuses, small_frame,
}

-- What `send_message` gives to the socket for a text.
abbrev pub message : List ℕ → Packet
message msg = write_string_nt_le (new cmsg_message) msg

abbrev pub payload : List ℕ → List ℕ
payload msg = reverse msg ++ (0 ∷ [])

pub message-payload : (msg : List ℕ) → message msg ≡ packet cmsg_message (payload msg)
unfolding write_string_nt_le new ByteBuffer.Write.write_string_nt_le empty
    ByteBuffer.Write.write_string_raw_le ByteBuffer.Write.write_bytes ByteBuffer.Write.write_uint8
message-payload msg = refl

-- A text that the protocol carries: without null bytes, and short enough for a packet that is taken.
pub record IsPlain (msg : List ℕ) : Type 0 where
  pub no_null : All (λ c. 0 < c) msg
  pub short : length msg < 2048

pub read-message :
    (msg : List ℕ)
    → IsPlain msg
    → (p : Packet) × (read_string_nt_le (packet cmsg_message (payload msg)) ≡ ok (msg, p))
unfolding read_string_nt_le
read-message msg plain =
    let read = read_string_nt_le-before (reverse msg) [] [] (All-reverse msg plain.no_null) in
    let back : reverse (reverse msg) ≡ msg = reverse-reverse msg in
    let whole = sym (append-nil (payload msg)) in
    (
      _,
      ap (with_buffer (packet cmsg_message (payload msg))) (
          ap (λ xs. ByteBuffer.Read.read_string_nt_le (record { buffer = xs; read_pos = 0 })) whole
          ∙ read
          ∙ ap (λ text. ok (text, ByteBuffer.Wire.behind [] (payload msg) [])) back),
    )

dispatch-message :
    (w : World) (msg : List ℕ) → IsPlain msg → dispatch w (packet cmsg_message (payload msg)) ≡ ok w
unfolding dispatch handle_message
dispatch-message w msg plain =
    let (p, read) = read-message msg plain in ap (logged w) read ∙ (unfold logged in refl)

pub length-payload : (msg : List ℕ) → length (payload msg) ≡ length msg + 1
length-payload msg = omega (arith, length-append (reverse msg) (0 ∷ []), length-reverse msg)

-- When a chat message that a client sends waits in front of a session in work mode, and it has no null byte
-- and less than 2048 bytes, the server's handler reads exactly the text that was sent, and the session is
-- as before but for the bytes that it has read.
pub process_work_buffer-message :
    (w : World) (msg rest : List ℕ)
    → IsPlain msg
    → IsValid w.session.read_buffer
    → contents w.session.read_buffer ≡ build_packet (message msg) ++ rest
    → (process_read_buffer_as_workserver w ≡ ok (advanced (5 + length msg) w))
      × (contents (advanced (5 + length msg) w).session.read_buffer ≡ rest)
      × IsValid (advanced (5 + length msg) w).session.read_buffer
      × ((p : Packet) × (read_string_nt_le (message msg) ≡ ok (msg, p)))
process_work_buffer-message w msg rest plain v e =
    let p = packet cmsg_message (payload msg) in
    let front = e ∙ ap (λ q. build_packet q ++ rest) (message-payload msg) in
    let (run, valid, left) =
      process_work_buffer-build_packet w p rest v front (omega arith)
        (omega (arith, length-payload msg, plain.short)) in
    let size : 4 + length (payload msg) ≡ 5 + length msg = omega (arith, length-payload msg) in
    let after : World = advanced (4 + length (payload msg)) w in
    let kept : close_on_throw after (ok after) ≡ ok after = unfold close_on_throw in refl in
    let done = run ∙ ap (close_on_throw after) (dispatch-message after msg plain) ∙ kept in
    let (q, read) = read-message msg plain in
    (
      done ∙ ap (λ n. ok (advanced n w)) size,
      (unfold advanced with_read_buffer in rw size at left),
      (unfold advanced with_read_buffer in rw size at valid),
      (q, ap read_string_nt_le (message-payload msg) ∙ read),
    )

-- A text of 2048 bytes or more makes the server close the session, once its packet has arrived.
pub process_work_buffer-long_message :
    (w : World) (msg rest : List ℕ)
    → IsValid w.session.read_buffer
    → contents w.session.read_buffer ≡ build_packet (message msg) ++ rest
    → 2048 ≤ length msg
    → length msg + 1 < 2 ^ 16
    → process_read_buffer_as_workserver w ≡ ok (record w { session = close w.session })
process_work_buffer-long_message w msg rest v e long fits =
    let p = packet cmsg_message (payload msg) in
    let n = length (payload msg) in
    let size = length-payload msg in
    let framed =
      e
      ∙ ap (λ q. build_packet q ++ rest) (message-payload msg)
      ∙ ap (λ xs. xs ++ rest) (small_frame p (omega (arith, size))) in
    let refused =
      process_work_buffer-refuses w (cmsg_message / 256 % 256) (cmsg_message % 256) (n / 256 % 256)
        (n % 256) (payload msg ++ rest) v framed (omega (arith, size)) in
    let there : ltb (length (payload msg ++ rest)) (n / 256 % 256 * 256 + n % 256) ≡ false =
      le→not_ltb _ _ (omega (arith, size, length-append (payload msg) rest)) in
    rw there at refused
