-- ===== src/AuthStage/Reader.antt =====
-- src/server/SessionMode/authstage/reader/ReaderAuthSession.cpp
use purity.Common.{
  ℕ, ◌+◌, ◌*◌, List, Outcome, ok, throw, fault, ◌>>=◌, drop, get_or, ltb, if◌then◌else◌,
}
use purity.Exception.{Exception}
use purity.MessageBuffer.{MessageBuffer, get_active_size, read_completed, peek}
use purity.Packet.{new}
use purity.Packet.Auth.{deserialize}
use purity.Session.{close}
use purity.World.{World, Env}
use purity.AuthStage.{empty_stage}
use purity.AuthStage.Handlers.{dispatch}

-- The `catch`: the session is closed. A handler that throws has changed nothing before.
unfoldable pub close_on_throw : World → Outcome Exception World → Outcome Exception World
close_on_throw w (ok w') = ok w'
close_on_throw w (throw e) = ok (record w { session = close w.session })
close_on_throw w fault = fault

unfoldable pub with_read_buffer : World → MessageBuffer → World
with_read_buffer w m = let s = w.session in record w { session = record s { read_buffer = m } }

-- What is done with a whole packet, once its bytes are taken off the buffer.
unfoldable pub process_packet : Env → List ℕ → World → Outcome Exception World
process_packet env full_packet w =
    close_on_throw w (deserialize full_packet (new empty_stage) >>= λ packet. dispatch env w packet)

-- `bytes` is what `read_ptr()` points to. The length is big-endian. The packet is copied before it is taken off.
unfoldable pub process_read_buffer_as_authserver : Env → World → Outcome Exception World
process_read_buffer_as_authserver env w =
    let buffer = w.session.read_buffer in
    let bytes = drop buffer.rpos buffer.storage in
    let size = get_or bytes 1 0 * 256 + get_or bytes 2 0 in
    let full_packet = peek (3 + size) buffer in
    let taken = read_completed (3 + size) buffer >>= λ m.
    process_packet env full_packet (with_read_buffer w m) in
    if ltb (get_active_size buffer) 3
    then ok w
    else if ltb (get_active_size buffer) (3 + size)
    then ok w
    else if ltb 2048 size
    then ok (record w { session = close w.session })
    else taken
