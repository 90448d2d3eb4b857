-- ===== src/Packet/Codec.antt =====
-- AuthPacket.hpp and WorkPacket.hpp: what `deserialize` makes of any bytes, and how it and
-- `build_packet` undo one another.
use purity.Common.{
  ℕ, suc, ◌+◌, ◌%◌, ◌≤◌, ◌<◌, ◌^◌, ◌≡◌, refl, sym, List, [], ◌∷◌, ◌++◌, append_assoc, append-nil,
  ok, throw, length, length-append, ◌==◌, if◌then◌else◌, sub_size, Bool-cases, inl, inr, arith,
}
use purity.Bytes.{be_bytes, be_value}
use purity.Bytes.RoundTrip.{length-be_bytes, be_value-be_bytes}
use purity.Exception.{length_mismatch}
use purity.Exception.Source
use purity.ByteBuffer.{of_bytes, empty, clear, size}
use purity.ByteBuffer.Wire.{
  Small, before, behind, behind-before, check_read-before, copy_out-before,
}
use purity.ByteBuffer.Write.{write_uint8, write_uint16_be, write_bytes}
use purity.ByteBuffer.Read.{read_uint16_be, read_bytes}
use purity.ByteBuffer.Fields.Reads.{read_uint8-before, read_bytes-before}
use purity.Packet.{Packet}
use purity.Packet.Auth
use purity.Packet.Work

read_uint16_be-run :
    (run pre post : List ℕ)
    → length run ≡ 2
    → Small (pre ++ (run ++ post))
    → read_uint16_be (before pre run post) ≡ ok (be_value run, behind pre run post)
unfolding read_uint16_be
read_uint16_be-run run pre post e small = rw (
  check_read-before 2 Source.read_uint16_be pre run post e small,
  copy_out-before 2 pre run post e,
)

abbrev pub packet : ℕ → List ℕ → Packet
packet opcode payload = record {
  opcode = opcode;
  buffer = record { buffer = payload; read_pos = 0 };
}

-- The bytes of a packet, written down at once.
pub auth_frame :
    (p : Packet)
    → Auth.build_packet p
      ≡ p.opcode ∷ (be_bytes 2 (length p.buffer.buffer % 2 ^ 16) ++ p.buffer.buffer)
unfolding Auth.build_packet write_uint8 write_uint16_be write_bytes empty size
auth_frame p = refl

pub work_frame :
    (p : Packet)
    → Work.build_packet p
      ≡ be_bytes 2 p.opcode ++ (be_bytes 2 (length p.buffer.buffer % 2 ^ 16) ++ p.buffer.buffer)
unfolding Work.build_packet write_uint16_be write_bytes empty size
work_frame p =
    append_assoc (be_bytes 2 p.opcode) (be_bytes 2 (length p.buffer.buffer % 2 ^ 16))
      p.buffer.buffer

-- The payload is read to the end of the buffer.
read_bytes-rest :
    (n pos : ℕ) (pre rest : List ℕ)
    → pos ≡ length pre
    → length rest ≡ n
    → Small (pre ++ rest)
    → read_bytes n (record { buffer = pre ++ rest; read_pos = pos })
      ≡ ok (rest, record { buffer = pre ++ rest; read_pos = pos + length rest })
read_bytes-rest n pos pre rest at e small =
    let nil = append-nil rest in
    rw at (rw nil at (read_bytes-before n rest pre [] e (rw nil small)))

-- `deserialize` of an auth packet: the bytes after the header must be as many as the length field says.
pub auth_deserialize :
    (opcode : ℕ) (len payload : List ℕ) (q : Packet)
    → length len ≡ 2
    → Small (opcode ∷ (len ++ payload))
    → Auth.deserialize (opcode ∷ (len ++ payload)) q ≡ (
        if be_value len == length payload
        then ok (packet opcode payload)
        else throw length_mismatch)
unfolding Auth.deserialize Auth.parse of_bytes
auth_deserialize opcode len payload q e small =
    let size : sub_size (suc (length (len ++ payload))) 3 ≡ length payload =
      omega (arith, length-append len payload) in
    rw
      (
        read_uint8-before opcode [] (len ++ payload) small,
        behind-before [] (opcode ∷ []) len payload,
        read_uint16_be-run len (opcode ∷ []) payload e small,
        size,
      )
      (elim (Bool-cases (be_value len == length payload)) [
        | inr ne ↦ rw ne refl
        | inl eq ↦
            rw
              (
                eq,
                read_bytes-rest (be_value len) (1 + length len) (opcode ∷ len) payload (omega arith)
                    (ground arith) small,
              )
              (unfold write_bytes clear in refl)
      ])

-- The same for a work packet.
pub work_deserialize :
    (opcode len payload : List ℕ) (q : Packet)
    → length opcode ≡ 2
    → length len ≡ 2
    → Small (opcode ++ (len ++ payload))
    → Work.deserialize (opcode ++ (len ++ payload)) q ≡ (
        if be_value len == length payload
        then ok (packet (be_value opcode) payload)
        else throw length_mismatch)
unfolding Work.deserialize Work.parse of_bytes
work_deserialize opcode len payload q d e small =
    let size : sub_size (length (opcode ++ (len ++ payload))) 4 ≡ length payload =
      omega (arith, length-append opcode (len ++ payload), length-append len payload) in
    rw
      (
        read_uint16_be-run opcode [] (len ++ payload) d small,
        behind-before [] opcode len payload,
        read_uint16_be-run len opcode payload e small,
        size,
      )
      (elim (Bool-cases (be_value len == length payload)) [
        | inr ne ↦ rw ne refl
        | inl eq ↦
            rw
              (
                eq,
                ← append_assoc opcode len payload,
                read_bytes-rest (be_value len) (length opcode + length len) (opcode ++ len) payload
                    (sym (length-append opcode len)) (ground arith)
                    (rw (append_assoc opcode len payload) small),
              )
              (unfold write_bytes clear in refl)
      ])

-- What `build_packet` makes of a payload that its length field can hold, `deserialize` turns back.
pub auth_deserialize-build_packet :
    (p q : Packet)
    → length p.buffer.buffer < 2 ^ 16
    → Auth.deserialize (Auth.build_packet p) q ≡ ok (packet p.opcode p.buffer.buffer)
auth_deserialize-build_packet p q h =
    let n = length p.buffer.buffer % 2 ^ 16 in
    let two = length-be_bytes 2 n in
    rw
      (
        auth_frame p,
        auth_deserialize p.opcode (be_bytes 2 n) p.buffer.buffer q two
            (omega (arith, length-append (be_bytes 2 n) p.buffer.buffer)),
        be_value-be_bytes 2 n (omega arith),
      )
      (ground arith)

-- The same for a work packet, whose opcode is a number of 16 bits.
pub work_deserialize-build_packet :
    (p q : Packet)
    → p.opcode < 2 ^ 16
    → length p.buffer.buffer < 2 ^ 16
    → Work.deserialize (Work.build_packet p) q ≡ ok (packet p.opcode p.buffer.buffer)
work_deserialize-build_packet p q o h =
    let n = length p.buffer.buffer % 2 ^ 16 in
    let two = length-be_bytes 2 n in
    let two' = length-be_bytes 2 p.opcode in
    rw
      (
        work_frame p,
        work_deserialize (be_bytes 2 p.opcode) (be_bytes 2 n) p.buffer.buffer q two' two (
            omega (
              arith,
              length-append (be_bytes 2 p.opcode) (be_bytes 2 n ++ p.buffer.buffer),
              length-append (be_bytes 2 n) p.buffer.buffer,
            )),
        be_value-be_bytes 2 n (omega arith),
        be_value-be_bytes 2 p.opcode o,
      )
      (ground arith)

-- A payload of 65536 bytes or more is built into a packet that no receiver accepts: the length field
-- wraps.
pub auth_deserialize-build_packet_oversized :
    (p q : Packet)
    → 2 ^ 16 ≤ length p.buffer.buffer
    → length p.buffer.buffer < 2 ^ 63
    → Auth.deserialize (Auth.build_packet p) q ≡ throw length_mismatch
auth_deserialize-build_packet_oversized p q h k =
    let n = length p.buffer.buffer % 2 ^ 16 in
    let two = length-be_bytes 2 n in
    rw
      (
        auth_frame p,
        auth_deserialize p.opcode (be_bytes 2 n) p.buffer.buffer q two
            (omega (arith, length-append (be_bytes 2 n) p.buffer.buffer)),
        be_value-be_bytes 2 n (omega arith),
      )
      (ground arith)
