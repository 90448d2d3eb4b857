-- ===== src/Session.antt =====
-- src/server/ClientSession/ClientSession.cpp and .hpp: one connection of the server.
-- The socket's operations are asynchronous; the state keeps those that are outstanding: `reading` for
-- `async_read_some`, `in_flight` for `async_write` with the bytes that it was given, `posted` for the
-- tasks that `send_packet` handed to the executor, oldest first. `registered` says that the server's
-- set of sessions holds this one. `sent` is what `async_write` has completed, oldest first, which the
-- program does not keep.
pub mod Write
pub mod Threads
use purity.Common.{
  ℕ, ◌+◌, Bool, true, false, List, [], ◌∷◌, ◌++◌, Option, none, some, Outcome, ok, throw, fault,
  if◌then◌else◌, ◌>>=◌,
}
use purity.Exception.{Exception}
use purity.MessageBuffer.{MessageBuffer, ensure_free_space}
use purity.MessageBuffer
use purity.Packet.{Packet}
use purity.Packet.Auth
use purity.Packet.Work
use purity.Srp6.{Srp6}

pub data SessionMode : Type 0 where
  auth_session work_session : SessionMode

-- src/server/SessionMode/authstage/entity/AccountInfo.hpp
pub record AccountInfo : Type 0 where
  pub srp : Srp6
  pub is_auth : Bool

-- `shared_ptr<const Packet>`: one of the two derived classes.
pub data AnyPacket : Type 0 where
  auth_packet work_packet : Packet → AnyPacket

unfoldable pub build_packet : AnyPacket → List ℕ
build_packet (auth_packet p) = Auth.build_packet p
build_packet (work_packet p) = Work.build_packet p

pub record Session : Type 0 where
  pub session_mode : SessionMode
  pub account_info : AccountInfo
  pub read_buffer : MessageBuffer
  pub write_queue : List (List ℕ)
  pub writing : Bool
  pub closed : Bool
  pub registered : Bool
  pub reading : Bool
  pub in_flight : Option (List ℕ)
  pub posted : List AnyPacket
  pub sent : List (List ℕ)

-- The constructor, and the insertion into the set of sessions that follows it in `Server::start_accept`.
unfoldable pub new : Srp6 → Session
new srp = record {
  session_mode = auth_session;
  account_info = record { srp = srp; is_auth = false };
  read_buffer = MessageBuffer.new 4096;
  write_queue = [];
  writing = false;
  closed = false;
  registered = true;
  reading = false;
  in_flight = none;
  posted = [];
  sent = [];
}

unfoldable pub set_session_mode : Session → SessionMode → Session
set_session_mode s mode = record s { session_mode = mode }

-- `AccountInfo::handle_auth_state`, but for its log line.
unfoldable pub handle_auth_state : AccountInfo → AccountInfo
handle_auth_state a = record a { is_auth = true }

-- `close`. What is outstanding on the socket is cancelled, but its handlers still run. The log lines,
-- among them that of `handle_close_state`, are left out.
unfoldable pub close : Session → Session
close s = if s.closed then s else (record s {
  closed = true;
  read_buffer = MessageBuffer.clear s.read_buffer;
  write_queue = [];
  registered = false;
})

unfoldable pub do_read : Session → Session
do_read s = record s { read_buffer = ensure_free_space 512 s.read_buffer; reading = true }

-- What `start` does once it knows the other end.
unfoldable pub start_reading : Session → Session
unfolding do_read set_session_mode
start_reading s = do_read (set_session_mode s auth_session)

-- `endpoint` is what `socket_.remote_endpoint()` comes to, which throws when the other end has gone.
unfoldable pub start : Outcome Exception (Unit {0}) → Session → Outcome Exception Session
start endpoint s = endpoint >>= λ _. ok (start_reading s)

-- The packet goes to a task of the executor.
unfoldable pub send_packet : Session → AnyPacket → Session
send_packet s packet = if s.closed then s else record s { posted = s.posted ++ (packet ∷ []) }

-- What `do_write` does with the queue: it stops, or gives the front to the socket.
unfoldable pub write_front : Session → List (List ℕ) → Session
write_front s [] = record s { writing = false }
write_front s (front ∷ rest) = record s { writing = true; in_flight = some front }

unfoldable pub do_write : Session → Session
do_write s = write_front s s.write_queue

unfoldable pub do_send_packet : Session → AnyPacket → Session
do_send_packet s packet =
    let s' = record s { write_queue = s.write_queue ++ (build_packet packet ∷ []) } in
    if s.writing then s' else do_write s'

-- The executor runs the oldest task.
unfoldable pub run_posted : Session → List AnyPacket → Session
run_posted s [] = s
run_posted s (packet ∷ rest) = do_send_packet (record s { posted = rest }) packet

-- `write_queue_.pop_front()`; on an empty deque it is undefined behaviour.
unfoldable pub pop_front : Session → List (List ℕ) → Outcome Exception Session
pop_front s [] = fault
pop_front s (front ∷ rest) = ok (record s { write_queue = rest })

-- The handler of `async_write`, without and with an error, for the write of `bytes`.
unfoldable pub write_succeeded : Session → List ℕ → Outcome Exception Session
write_succeeded s bytes =
    let s' = record s { in_flight = none; sent = s.sent ++ (bytes ∷ []) } in
    pop_front s' s'.write_queue >>= λ s''. ok (do_write s'')

unfoldable pub write_failed : Session → Session
write_failed s = close (record s { in_flight = none })
