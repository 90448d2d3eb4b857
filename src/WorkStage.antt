-- ===== src/WorkStage.antt =====
-- src/server/SessionMode/workstage: what a session does once its client has logged in.
-- The opcodes of `WorkOpcodes.hpp` are here, with `HandlersWork.cpp`; `ReaderWorkSession.cpp` is in Reader.
pub mod Reader
pub mod Framing
pub mod Ping
pub mod Message
use purity.Common.{ℕ, List, Outcome, ok, throw, fault, ◌==◌, if◌then◌else◌}
use purity.Exception.{Exception}
use purity.Packet.{Packet, new}
use purity.Packet.Read.{read_uint32_le, read_string_nt_le}
use purity.Packet.Write.{write_uint32_le}
use purity.Session.{work_packet}
use purity.World.{World, send_packet_as}

abbrev pub empty_stage : ℕ
empty_stage = 0

abbrev pub cmsg_ping : ℕ
cmsg_ping = 1

abbrev pub smsg_pong : ℕ
smsg_pong = 2

abbrev pub smsg_message : ℕ
smsg_message = 4

abbrev pub cmsg_message : ℕ
cmsg_message = 3

unfoldable pub pong : World → Outcome Exception (ℕ × Packet) → Outcome Exception World
pong w (ok (ping, p)) = ok (send_packet_as work_packet w (write_uint32_le (new smsg_pong) ping))
pong w (throw e) = throw e
pong w fault = fault

unfoldable pub handle_ping : World → Packet → Outcome Exception World
handle_ping w p = pong w (read_uint32_le p)

-- The message is only logged.
unfoldable pub logged : World → Outcome Exception (List ℕ × Packet) → Outcome Exception World
logged w (ok (msg, p)) = ok w
logged w (throw e) = throw e
logged w fault = fault

unfoldable pub handle_message : World → Packet → Outcome Exception World
handle_message w p = logged w (read_string_nt_le p)

unfoldable pub dispatch : World → Packet → Outcome Exception World
dispatch w p =
    if p.opcode == cmsg_ping
    then handle_ping w p
    else if p.opcode == cmsg_message
    then handle_message w p
    else ok w
