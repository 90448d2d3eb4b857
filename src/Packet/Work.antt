-- ===== src/Packet/Work.antt =====
-- src/server/SessionMode/workstage/opcodes/WorkPacket.hpp: [opcode (2)][length (2)][payload].
use purity.Common.{
  ℕ, ◌^◌, ◌%◌, not, List, Outcome, ok, throw, fault, length, ◌==◌, if◌then◌else◌, sub_size,
}
use purity.Exception.{Exception, length_mismatch}
use purity.ByteBuffer.{ByteBuffer, M, pure, ◌>>=◌, empty, of_bytes, clear, size}
use purity.ByteBuffer.Write.{write_uint16_be, write_bytes}
use purity.ByteBuffer.Read.{read_uint16_be, read_bytes}
use purity.Packet.{Packet}

-- The length field is the payload's size cast to `uint16_t`.
unfoldable pub build_packet : Packet → List ℕ
build_packet p =
    let head = write_uint16_be empty p.opcode in
    let sized = write_uint16_be head (size p.buffer % 2 ^ 16) in
    (write_bytes sized p.buffer.buffer).buffer

-- What `deserialize` reads from `temp`, a buffer over `raw_data`. The old payload of `p` is cleared.
unfoldable pub parse : List ℕ → Packet → M Packet
parse raw p = do
  opcode ← read_uint16_be
  len ← read_uint16_be
  let rest = (do
    payload ← read_bytes len
    pure (record { opcode = opcode; buffer = write_bytes (clear p.buffer) payload }))
  λ temp. if not (len == sub_size (length raw) 4) then throw length_mismatch else rest temp

-- `temp` is dropped.
abbrev pub drop_temp : Outcome Exception (Packet × ByteBuffer) → Outcome Exception Packet
drop_temp (ok (q, temp)) = ok q
drop_temp (throw e) = throw e
drop_temp fault = fault

-- The packet that a call leaves. (Where it throws, the callers drop the packet.)
unfoldable pub deserialize : List ℕ → Packet → Outcome Exception Packet
deserialize raw p = drop_temp (parse raw p (of_bytes raw))
