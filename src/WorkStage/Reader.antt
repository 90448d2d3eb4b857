-- ===== src/WorkStage/Reader.antt =====
-- src/server/SessionMode/workstage/reader/ReaderWorkSession.cpp
use purity.Common.{ℕ, ◌+◌, ◌*◌, List, Outcome, ok, ◌>>=◌, drop, get_or, ltb, if◌then◌else◌}
use purity.Exception.{Exception}
use purity.MessageBuffer.{get_active_size, read_completed, peek}
use purity.Packet.{new}
use purity.Packet.Work.{deserialize}
use purity.Session.{close}
use purity.World.{World}
use purity.AuthStage.Reader.{close_on_throw, with_read_buffer}
use purity.WorkStage.{empty_stage, dispatch}

unfoldable pub process_packet : List ℕ → World → Outcome Exception World
process_packet full_packet w =
    close_on_throw w (deserialize full_packet (new empty_stage) >>= λ packet. dispatch w packet)

-- `bytes` is what `read_ptr()` points to: two bytes of opcode, two of length, big-endian.
unfoldable pub process_read_buffer_as_workserver : World → Outcome Exception World
process_read_buffer_as_workserver w =
    let buffer = w.session.read_buffer in
    let bytes = drop buffer.rpos buffer.storage in
    let size = get_or bytes 2 0 * 256 + get_or bytes 3 0 in
    let full_packet = peek (4 + size) buffer in
    let taken =
      read_completed (4 + size) buffer >>= λ m. process_packet full_packet (with_read_buffer w m) in
    if ltb (get_active_size buffer) 4
    then ok w
    else if ltb (get_active_size buffer) (4 + size)
    then ok w
    else if ltb 2048 size
    then ok (record w { session = close w.session })
    else taken
