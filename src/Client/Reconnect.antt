-- ===== src/Client/Reconnect.antt =====
-- src/Client/Client.cpp: what follows a lost connection.
use purity.Common.{
  ℕ, ◌+◌, ◌-◌, ◌<◌, ◌≡◌, refl, ap, ◌∙◌, Bool, true, false, List, [], ◌∷◌, ◌++◌, ok, ◌>>=◌,
  if◌then◌else◌, arith, length, length-append,
}
use purity.Packet.{new}
use purity.Packet.Work
use purity.Packet.Write.{write_uint32_le}
use purity.Bytes.{le_bytes, be_bytes}
use purity.MessageBuffer.{IsValid, contents}
use purity.Session.{auth_session, work_session}
use purity.World.{World, Env}
use purity.WorkStage
use purity.Connection.{process_read_buffer, process_in_mode}
use purity.AuthStage.Framing.{process_read_buffer-waits}
use purity.Client.{
  Client, Reading, connect, disconnect, run_disconnect, schedule_reconnect, reconnect_wait_over,
  write_failed, connect_succeeded, start_heartbeat, start_receive_loop, flush_queue, write_front,
  send_ping, ping_in_mode, send_work_packet,
}
use purity.Client.Receive.{read_failed}
use purity.Client.Sent.{send_packet_impl-Sent}
use purity.ByteBuffer
use purity.Bytes.RoundTrip.{length-le_bytes}

-- When a connection breaks while a write is outstanding, the handlers of the read and of the write each
-- schedule a reconnection. Once both waits are over, two calls of `async_connect` are outstanding more
-- than before, on the one socket.
pub reconnects_twice :
    (c : Client) (reading : Reading) (others : List Reading) (bytes : List ℕ) (more : List (List ℕ))
    → c.reads ≡ reading ∷ others
    → c.in_flight ≡ bytes ∷ more
    → (d : Client) × ((reconnect_wait_over true (write_failed (read_failed c c.reads) c.in_flight)
          >>= λ e. reconnect_wait_over true e)
        ≡ ok d)
      × (d.connects ≡ c.connects + 2)
      × (d.reconnect_waits ≡ c.reconnect_waits)
unfolding read_failed write_failed schedule_reconnect reconnect_wait_over connect
reconnects_twice c reading others bytes more r f = rw (r, f) (_, refl, omega arith, omega arith)

-- A client that disconnects while a read is outstanding connects again: the aborted read schedules a
-- reconnection, and when the wait is over the socket is open and a connection is on its way.
pub disconnect-reconnects :
    (c : Client) (reading : Reading) (others : List Reading)
    → c.reads ≡ reading ∷ others
    → (d : Client) × (reconnect_wait_over true (read_failed (run_disconnect (disconnect c)) c.reads)
        ≡ ok d)
      × (d.connects ≡ c.connects + 1)
      × (d.socket_open ≡ true)
unfolding read_failed run_disconnect disconnect schedule_reconnect reconnect_wait_over connect
disconnect-reconnects c reading others r = rw r (_, refl, refl, refl)

pub ping_bytes :
    (ping_id : ℕ)
    → Work.build_packet (write_uint32_le (new WorkStage.cmsg_ping) ping_id)
      ≡ 0 ∷ 1 ∷ 0 ∷ 4 ∷ le_bytes 4 ping_id
unfolding Work.build_packet write_uint32_le new ByteBuffer.Write.write_uint32_le
    ByteBuffer.Write.write_uint8 ByteBuffer.Write.write_uint16_be ByteBuffer.Write.write_bytes
    ByteBuffer.empty be_bytes le_bytes ByteBuffer.size
ping_bytes ping_id = refl

flush_queue-mode : (c : Client) → (flush_queue c).session_mode ≡ c.session_mode
unfolding flush_queue write_front
flush_queue-mode c = go c.connected c.outgoing_queue
  where
    go :
        (b : Bool) (queue : List (List ℕ))
        → (if b then write_front c queue else c).session_mode ≡ c.session_mode
    go false queue = refl
    go true [] = refl
    go true (front ∷ rest) = refl

-- A client that has logged in stays in work mode over a new connection, and pings in this mode. The
-- server's new session, which is in auth mode, takes the bytes of the ping for the start of a packet of
-- at least 256 bytes: with fewer than 251 bytes behind them it waits, without an answer.
pub connect_succeeded-mode :
    (env : Env) (c : Client) (w : World) (ping_id : ℕ) (more : List ℕ)
    → c.session_mode ≡ work_session
    → w.session.session_mode ≡ auth_session
    → IsValid w.session.read_buffer
    → contents w.session.read_buffer
      ≡ Work.build_packet (write_uint32_le (new WorkStage.cmsg_ping) ping_id) ++ more
    → length more < 251
    → ((connect_succeeded c).session_mode ≡ work_session)
      × ((send_ping c ping_id).outgoing_queue
          ≡ c.outgoing_queue
            ++ (Work.build_packet (write_uint32_le (new WorkStage.cmsg_ping) ping_id) ∷ []))
      × (process_read_buffer env w ≡ ok w)
unfolding connect_succeeded start_heartbeat send_ping ping_in_mode process_read_buffer
    process_in_mode
connect_succeeded-mode env c w ping_id more work auth v e few =
    let bytes = Work.build_packet (write_uint32_le (new WorkStage.cmsg_ping) ping_id) in
    let up : Client = record c { connects = c.connects - 1; connected = true } in
    let waits =
      process_read_buffer-waits env w 0 1 0 (4 ∷ (le_bytes 4 ping_id ++ more)) v
        (e ∙ ap (λ xs. xs ++ more) (ping_bytes ping_id))
        (omega (arith, length-append (le_bytes 4 ping_id) more, length-le_bytes 4 ping_id)) in
    (
      flush_queue-mode (start_receive_loop up) ∙ (unfold start_receive_loop in work),
      ap (λ mode. (ping_in_mode c mode ping_id).outgoing_queue) work
          ∙ (unfold send_work_packet in (send_packet_impl-Sent c bytes).queue),
      ap (process_in_mode env w) auth ∙ waits,
    )
