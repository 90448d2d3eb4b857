-- ===== src/Examples/Buffers.antt =====
-- ByteBuffer, MessageBuffer and the packets, on concrete values.
use purity.Common.{◌^◌, ◌<◌, ◌≡◌, refl, List, [], ◌∷◌, ok, length, arith}
use purity.Bytes.{be_bytes, le_bytes, be_value, le_value}
use purity.ByteBuffer
use purity.ByteBuffer.{ByteBuffer, empty, of_bytes, reset_read}
use purity.ByteBuffer.Bounds.{read_field-Safe, Safe}
use purity.ByteBuffer.Fields.{Field, uint8, uint32_le, int16_be, string_nt_le, read_field}
use purity.Common.Int.{negsuc}
use purity.ByteBuffer.Fields.Sequence.{
  read_fields-write_fields, write_fields, read_fields, encode_fields,
}
use purity.MessageBuffer.{MessageBuffer, IsValid, ensure_free_space}
use purity.MessageBuffer.Laws.{ensure_free_space_lem, Ensured}
use purity.Packet.Auth
use purity.Packet.Work
use purity.Packet.Codec.{packet, auth_deserialize, work_deserialize}
use purity.Packet.Accepted.{auth_build_packet-deserialize, work_build_packet-deserialize}

abbrev fields : List Field
fields = uint32_le 305419896 ∷ (int16_be (negsuc 1) ∷ (string_nt_le (65 ∷ 66 ∷ []) ∷ []))

read_fields-write_fields_example :
    read_fields fields (reset_read (write_fields empty fields))
    ≡ ok (
      fields,
      record (write_fields empty fields) { read_pos = length (write_fields empty fields).buffer },
    )
unfolding encode_fields ByteBuffer.Fields.encode be_bytes le_bytes
read_fields-write_fields_example =
    read_fields-write_fields fields
      (omega arith, (omega arith, ((omega arith, (omega arith, tt)), tt))) (omega arith)

-- Five bytes of which two are read.
abbrev half_read : ByteBuffer
half_read = record { buffer = 1 ∷ 2 ∷ 3 ∷ 4 ∷ 5 ∷ []; read_pos = 2 }

read_field-Safe_example : Safe half_read (read_field (uint32_le 0) half_read)
read_field-Safe_example =
    read_field-Safe (uint32_le 0) half_read
      (record { in_bounds = omega arith; small = omega arith }) (omega arith)

-- Eight bytes of storage, of which the second to the fifth wait.
abbrev waiting : MessageBuffer
waiting = record { wpos = 5; rpos = 1; storage = 9 ∷ 1 ∷ 2 ∷ 3 ∷ 4 ∷ 0 ∷ 0 ∷ 0 ∷ [] }

waiting-IsValid : IsValid waiting
waiting-IsValid = record { ordered = omega arith; in_storage = omega arith; small = omega arith }

ensure_free_space_lem_example : Ensured 4 waiting (ensure_free_space 4 waiting)
ensure_free_space_lem_example = ensure_free_space_lem 4 waiting waiting-IsValid (omega arith)

auth_build_packet-deserialize_example :
    (Auth.build_packet (packet 1 (9 ∷ [])) ≡ 1 ∷ 0 ∷ 1 ∷ 9 ∷ []) × (1 < 2 ^ 16)
unfolding be_value le_value
auth_build_packet-deserialize_example =
    auth_build_packet-deserialize (1 ∷ 0 ∷ 1 ∷ 9 ∷ []) (packet 0 []) (packet 1 (9 ∷ []))
      (omega arith, (omega arith, (omega arith, (omega arith, tt)))) (omega arith)
      (auth_deserialize 1 (0 ∷ 1 ∷ []) (9 ∷ []) (packet 0 []) refl (omega arith))

work_build_packet-deserialize_example :
    (Work.build_packet (packet 258 (9 ∷ [])) ≡ 1 ∷ 2 ∷ 0 ∷ 1 ∷ 9 ∷ []) × (1 < 2 ^ 16)
unfolding be_value le_value
work_build_packet-deserialize_example =
    work_build_packet-deserialize (1 ∷ 2 ∷ 0 ∷ 1 ∷ 9 ∷ []) (packet 0 []) (packet 258 (9 ∷ []))
      (omega arith, (omega arith, (omega arith, (omega arith, (omega arith, tt))))) (omega arith)
      (work_deserialize (1 ∷ 2 ∷ []) (0 ∷ 1 ∷ []) (9 ∷ []) (packet 0 []) refl refl (omega arith))
