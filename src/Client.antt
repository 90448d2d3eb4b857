-- ===== src/Client.antt =====
-- src/Client/Client.cpp and Client.hpp: the client, a state machine that is driven by the handlers of its
-- asynchronous operations.
-- The state keeps what is outstanding: `connects` is the number of `async_connect`, `reads` the calls of
-- `async_read` with what they wait for, `in_flight` the calls of `async_write` with their bytes, each
-- oldest first; `reconnect_waits` is the number of waits of the reconnect timer, `heartbeat` says that
-- there is one of the heartbeat timer, and `disconnects` is the number of tasks that `disconnect` has
-- posted. `written` is what `async_write` has completed, which the program does not keep. Handlers has
-- what is done with a packet.
pub mod Handlers
pub mod Receive
pub mod Sent
pub mod Proving
pub mod Login
pub mod Wire
pub mod Queue
pub mod Writing
pub mod Reconnect
pub mod Draining
pub mod Framing
pub mod Named
pub mod Credentials
use purity.Common.{
  ℕ, ◌+◌, ◌-◌, Bool, true, false, List, [], ◌∷◌, ◌++◌, Outcome, ok, throw, fault, if◌then◌else◌,
  ◌>>=◌,
}
use purity.Exception.{Exception, resolve_failed}
use purity.Packet.{Packet, new}
use purity.Packet.Auth
use purity.Packet.Work
use purity.Packet.Write.{write_uint32_le, write_string_nt_le}
use purity.Session.{SessionMode, auth_session, work_session}
use purity.Srp6.{Srp6}
use purity.Srp6
use purity.OpenSsl.{OpenSsl}
use purity.AuthStage.{cmsg_ping, cmsg_auth_logon_challenge}
use purity.WorkStage.{cmsg_message}
use purity.WorkStage

-- What an `async_read` waits for: a header, or the payload behind one.
pub data Reading : Type 0 where
  header : SessionMode → Reading
  payload : SessionMode → List ℕ → ℕ → Reading

pub record Client : Type 0 where
  pub connected : Bool
  pub socket_open : Bool
  pub outgoing_queue : List (List ℕ)
  pub session_mode : SessionMode
  pub srp : Srp6
  pub connects : ℕ
  pub reads : List Reading
  pub in_flight : List (List ℕ)
  pub reconnect_waits : ℕ
  pub heartbeat : Bool
  pub disconnects : ℕ
  pub written : List (List ℕ)

-- The constructor.
unfoldable pub create : OpenSsl → Client
create ssl = record {
  connected = false;
  socket_open = false;
  outgoing_queue = [];
  session_mode = auth_session;
  srp = Srp6.new ssl;
  connects = 0;
  reads = [];
  in_flight = [];
  reconnect_waits = 0;
  heartbeat = false;
  disconnects = 0;
  written = [];
}

unfoldable pub set_session_mode : Client → SessionMode → Client
set_session_mode c mode = record c { session_mode = mode }

-- `resolved` says that the resolver finds the host; `async_connect` opens the socket.
unfoldable pub connect : Bool → Client → Outcome Exception Client
connect resolved c =
    if resolved
    then ok (record c { connects = c.connects + 1; socket_open = true })
    else throw resolve_failed

unfoldable pub disconnect : Client → Client
disconnect c = record c { disconnects = c.disconnects + 1 }

-- The task that `disconnect` posts. A wait that is cancelled still runs its handler.
unfoldable pub run_disconnect : Client → Client
run_disconnect c = record c {
  disconnects = c.disconnects - 1;
  heartbeat = false;
  socket_open = false;
  connected = false;
}

unfoldable pub schedule_reconnect : Client → Client
schedule_reconnect c = record c {
  connected = false;
  socket_open = false;
  reconnect_waits = c.reconnect_waits + 1;
}

-- The handler of the reconnect timer's wait, which does not look at the error.
unfoldable pub reconnect_wait_over : Bool → Client → Outcome Exception Client
reconnect_wait_over resolved c =
    connect resolved (record c { reconnect_waits = c.reconnect_waits - 1 })

unfoldable pub start_heartbeat : Client → Client
start_heartbeat c = record c { heartbeat = true }

unfoldable pub start_receive_loop : Client → Client
start_receive_loop c = record c { reads = c.reads ++ (header c.session_mode ∷ []) }

-- `async_write` of the front of the queue.
unfoldable pub write_front : Client → List (List ℕ) → Client
write_front c [] = c
write_front c (front ∷ rest) = record c { in_flight = c.in_flight ++ (front ∷ []) }

unfoldable pub flush_queue : Client → Client
flush_queue c = if c.connected then write_front c c.outgoing_queue else c

-- `outgoing_queue.size() == 1`, once the packet is pushed.
unfoldable pub flush_single : Client → List (List ℕ) → Client
flush_single c [] = c
flush_single c (only ∷ []) = flush_queue c
flush_single c (front ∷ next ∷ rest) = c

unfoldable pub send_packet_impl : Client → List ℕ → Client
send_packet_impl c full_packet =
    let pushed = record c { outgoing_queue = c.outgoing_queue ++ (full_packet ∷ []) } in
    if c.connected then flush_single pushed pushed.outgoing_queue else pushed

-- The two overloads of `send_packet`.
unfoldable pub send_auth_packet : Client → Packet → Client
send_auth_packet c packet = send_packet_impl c (Auth.build_packet packet)

unfoldable pub send_work_packet : Client → Packet → Client
send_work_packet c packet = send_packet_impl c (Work.build_packet packet)

-- `outgoing_queue.pop()`; on an empty queue it is undefined behaviour.
unfoldable pub pop : Client → List (List ℕ) → Outcome Exception Client
pop c [] = fault
pop c (front ∷ rest) = ok (record c { outgoing_queue = rest })

-- The handler of `async_write`, for the oldest one; without any it does not run.
unfoldable pub write_succeeded : Client → List (List ℕ) → Outcome Exception Client
write_succeeded c [] = ok c
write_succeeded c (bytes ∷ others) =
    let c' = record c { in_flight = others; written = c.written ++ (bytes ∷ []) } in
    pop c' c'.outgoing_queue >>= λ c''. ok (flush_queue c'')

unfoldable pub write_failed : Client → List (List ℕ) → Client
write_failed c [] = c
write_failed c (bytes ∷ others) = schedule_reconnect (record c { in_flight = others })

-- The handler of `async_connect`.
unfoldable pub connect_succeeded : Client → Client
connect_succeeded c =
    let up = record c { connects = c.connects - 1; connected = true } in
    start_heartbeat (flush_queue (start_receive_loop up))

unfoldable pub connect_failed : Client → Client
connect_failed c = schedule_reconnect (record c { connects = c.connects - 1 })

-- `ping_id` is the random number.
unfoldable pub ping_in_mode : Client → SessionMode → ℕ → Client
ping_in_mode c auth_session ping_id = send_auth_packet c (write_uint32_le (new cmsg_ping) ping_id)
ping_in_mode c work_session ping_id =
    send_work_packet c (write_uint32_le (new WorkStage.cmsg_ping) ping_id)

unfoldable pub send_ping : Client → ℕ → Client
send_ping c ping_id = ping_in_mode c c.session_mode ping_id

-- The handler of the heartbeat timer's wait.
unfoldable pub heartbeat_over : Client → ℕ → Client
heartbeat_over c ping_id =
    let c' = record c { heartbeat = false } in
    if c.connected then start_heartbeat (send_ping c' ping_id) else c'

unfoldable pub message_in_mode : Client → SessionMode → List ℕ → Client
message_in_mode c auth_session msg = c
message_in_mode c work_session msg = send_work_packet c (write_string_nt_le (new cmsg_message) msg)

unfoldable pub send_message : Client → List ℕ → Client
send_message c msg = message_in_mode c c.session_mode msg

unfoldable pub handle_logon_challenge : OpenSsl → Client → List ℕ → List ℕ → Client
handle_logon_challenge ssl c username password =
    let c' = record c { srp = Srp6.set_credentials ssl c.srp username password } in
    send_auth_packet c' (write_string_nt_le (new cmsg_auth_logon_challenge) username)
