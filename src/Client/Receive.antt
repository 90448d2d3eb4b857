-- ===== src/Client/Receive.antt =====
-- src/Client/Client.cpp: `start_receive_loop`'s handlers, `read_payload` and `process_empty`.
-- `read_completed` and `read_failed` are the handler of the oldest `async_read`; without any they do not
-- run.
use purity.Common.{
  take, drop, length, ℕ, ◌+◌, ◌*◌, List, ◌∷◌, [], ◌++◌, Outcome, ok, throw, fault, ◌>>=◌, get_or,
  ltb, ◌==◌, if◌then◌else◌,
}
use purity.Exception.{Exception}
use purity.Packet.{new}
use purity.Packet.Auth
use purity.Packet.Work
use purity.Session.{SessionMode, auth_session, work_session}
use purity.AuthStage.{empty_stage}
use purity.WorkStage
use purity.Client.{Client, Reading, header, payload, schedule_reconnect, start_receive_loop}
use purity.Client.Handlers.{ClientEnv, handle_auth_packet, handle_work_packet}

-- With an error, the handler of either `async_read`.
unfoldable pub read_failed : Client → List Reading → Client
read_failed c [] = c
read_failed c (reading ∷ others) = schedule_reconnect (record c { reads = others })

-- The `catch`: what was thrown is logged. A handler that throws has changed nothing before.
unfoldable pub log_thrown : Client → Outcome Exception Client → Outcome Exception Client
log_thrown c (ok c') = ok c'
log_thrown c (throw e) = ok c
log_thrown c fault = fault

-- `PacketT packet; packet.deserialize(raw_packet); handle_packet(packet);`
unfoldable pub handle_raw : ClientEnv → Client → SessionMode → List ℕ → Outcome Exception Client
handle_raw env c auth_session raw =
    Auth.deserialize raw (new empty_stage) >>= λ packet. handle_auth_packet env c packet
handle_raw env c work_session raw =
    Work.deserialize raw (new WorkStage.empty_stage) >>= λ packet. handle_work_packet c packet

-- The whole packet has been read.
unfoldable pub process_raw : ClientEnv → Client → SessionMode → List ℕ → Outcome Exception Client
process_raw env c mode raw =
    log_thrown c (handle_raw env c mode raw) >>= λ c'. ok (start_receive_loop c')

unfoldable pub process_empty : ClientEnv → Client → SessionMode → List ℕ → Outcome Exception Client
process_empty env c mode front = process_raw env c mode front

unfoldable pub read_payload : Client → SessionMode → List ℕ → ℕ → Client
read_payload c mode front length = record c { reads = c.reads ++ (payload mode front length ∷ []) }

-- The handler of the read of a payload.
unfoldable pub payload_read :
    ClientEnv → Client → SessionMode → List ℕ → List ℕ → Outcome Exception Client
payload_read env c mode front received = process_raw env c mode (front ++ received)

-- The length field of a header.
unfoldable pub payload_length : SessionMode → List ℕ → ℕ
payload_length auth_session front = get_or front 1 0 * 256 + get_or front 2 0
payload_length work_session front = get_or front 2 0 * 256 + get_or front 3 0

-- The handler of the read of a header.
unfoldable pub header_read : ClientEnv → Client → SessionMode → List ℕ → Outcome Exception Client
header_read env c mode front =
    let length = payload_length mode front in
    if ltb 2048 length
    then ok (schedule_reconnect c)
    else if length == 0
    then process_empty env c mode front
    else ok (read_payload c mode front length)

-- Without an error, the handler of the read that `reading` stands for.
unfoldable pub read_done : ClientEnv → Client → Reading → List ℕ → Outcome Exception Client
read_done env c (header mode) received = header_read env c mode received
read_done env c (payload mode front length) received = payload_read env c mode front received

unfoldable pub read_completed :
    ClientEnv → Client → List Reading → List ℕ → Outcome Exception Client
read_completed env c [] received = ok c
read_completed env c (reading ∷ others) received =
    read_done env (record c { reads = others }) reading received

-- The size of the vector that a header is read into.
unfoldable pub header_size : SessionMode → ℕ
header_size auth_session = 3
header_size work_session = 4

-- What `async_read` is asked for.
unfoldable pub reading_size : Reading → ℕ
reading_size (header mode) = header_size mode
reading_size (payload mode front length) = length

-- `async_read` ends once its vector is full: `stream` is what has come to the socket, and what is not taken stays
-- there.
unfoldable pub arrive :
    ClientEnv → Client → List Reading → List ℕ → Outcome Exception (Client × List ℕ)
arrive env c [] stream = ok (c, stream)
arrive env c (reading ∷ others) stream =
    let n = reading_size reading in
    let filled =
      read_completed env c (reading ∷ others) (take n stream) >>= λ d. ok (d, drop n stream) in
    if ltb (length stream) n then ok (c, stream) else filled
