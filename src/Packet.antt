-- ===== src/Packet.antt =====
-- src/common/packet/Packet.hpp: a packet is a payload with an opcode, and its methods are the buffer's.
-- `AuthPacket` and `WorkPacket` add the same member to `Packet`, the opcode, so one record stands for
-- all three; what they make of it is in Auth and Work. `log_raw_payload` is in Dump.
pub mod Write
pub mod Read
pub mod Auth
pub mod Work
pub mod Codec
pub mod Accepted
pub mod Typed
pub mod Dump
use purity.Common.{ℕ, Bool, List, [], Outcome, ok, throw, fault}
use purity.Common.Int.{ℤ}
use purity.Exception.{Exception}
use purity.ByteBuffer.{ByteBuffer, M}
use purity.ByteBuffer

pub record Packet : Type 0 where
  pub opcode : ℕ
  pub buffer : ByteBuffer

-- A packet with an opcode and no payload.
unfoldable pub new : ℕ → Packet
unfolding ByteBuffer.empty
new opcode = record { opcode = opcode; buffer = ByteBuffer.empty }

unfoldable pub set_opcode : Packet → ℕ → Packet
set_opcode p opcode = record p { opcode = opcode }

-- `serialize`
unfoldable pub payload : Packet → List ℕ
payload p = p.buffer.buffer

abbrev pub Reader : Type 0 → Type 0
Reader A = Packet → Outcome Exception (A × Packet)

abbrev pub pure : {A : Type 0} → A → Reader A
pure a p = ok (a, p)

abbrev pub resume :
    {A B : Type 0}
    → Outcome Exception (A × Packet)
    → (A → Reader B)
    → Outcome Exception (B × Packet)
resume (ok (a, p)) f = f a p
resume (throw e) f = throw e
resume fault f = fault

infixl 5 ◌>>=◌
abbrev pub ◌>>=◌ : {A B : Type 0} → Reader A → (A → Reader B) → Reader B
◌>>=◌ m f p = resume (m p) f

-- A reading method of the buffer, as a method of the packet.
abbrev pub with_buffer :
    {A : Type 0} → Packet → Outcome Exception (A × ByteBuffer) → Outcome Exception (A × Packet)
with_buffer p (ok (a, b)) = ok (a, record p { buffer = b })
with_buffer p (throw e) = throw e
with_buffer p fault = fault

unfoldable pub skip : ℕ → Reader (Unit {0})
skip bytes p = with_buffer p (ByteBuffer.skip bytes p.buffer)

unfoldable pub read_pos : Packet → ℕ
read_pos p = p.buffer.read_pos

unfoldable pub size : Packet → ℕ
size p = ByteBuffer.size p.buffer
