-- ===== src/Connection.antt =====
-- src/server/ClientSession/ClientSession.cpp: the handler of `async_read_some` and `process_read_buffer`.
pub mod Kept
pub mod Defined
pub mod Leaves
pub mod Invariant
pub mod Serving
pub mod Cached
use purity.Common.{ℕ, false, List, Outcome, ok, ◌>>=◌, length, if◌then◌else◌}
use purity.Exception.{Exception}
use purity.MessageBuffer.{write_completed, fill}
use purity.Session.{SessionMode, auth_session, work_session, close, do_read}
use purity.World.{World, Env}
use purity.AuthStage.Reader.{process_read_buffer_as_authserver, with_read_buffer}
use purity.WorkStage.Reader.{process_read_buffer_as_workserver}

unfoldable pub process_in_mode : Env → World → SessionMode → Outcome Exception World
process_in_mode env w auth_session = process_read_buffer_as_authserver env w
process_in_mode env w work_session = process_read_buffer_as_workserver w

unfoldable pub process_read_buffer : Env → World → Outcome Exception World
process_read_buffer env w = process_in_mode env w w.session.session_mode

-- `if (isOpened()) do_read();`
unfoldable pub read_again : World → World
read_again w = if w.session.closed then w else record w { session = do_read w.session }

-- The read is over: with an error, or with `received`, which the socket put at `write_ptr()`.
unfoldable pub read_failed : World → World
read_failed w = let s = w.session in record w { session = close (record s { reading = false }) }

unfoldable pub read_succeeded : Env → World → List ℕ → Outcome Exception World
read_succeeded env w received =
    let s = w.session in
    let done = record w { session = record s { reading = false } } in
    let processed = write_completed (length received) (fill received s.read_buffer) >>= λ m.
    process_read_buffer env (with_read_buffer done m) >>= λ w'. ok (read_again w') in
    if s.closed then ok done else processed
