-- ===== src/Packet/Typed.antt =====
-- src/common/packet/ByteBuffer.hpp, src/server/SessionMode: what is put on the wire is bytes.
use purity.Common.{
  ℕ, ◌%◌, ◌^◌, ◌<◌, sym, subst, Bool, true, false, List, [], ◌∷◌, ◌++◌, All, All-append, length,
  reverse, if◌then◌else◌, arith,
}
use purity.Common.Int.{ℤ, to_unsigned, pos, negsuc}
use purity.Bytes.{AllBytes, IsByte, be_bytes}
use purity.Bytes.RoundTrip.{le_bytes-AllBytes, be_bytes-AllBytes, reverse-AllBytes}
use purity.ByteBuffer.{empty}
use purity.ByteBuffer.Fields.{
  Field, encode, uint8, int8, uint16_be, int16_be, uint32_be, int32_be, uint64_be, int64_be,
  float_be, double_be, uint16_le, int16_le, uint32_le, int32_le, uint64_le, int64_le, float_le,
  double_le, bool, string_raw_be, string_raw_le, string_nt_be, string_nt_le, bytes,
}
use purity.ByteBuffer.Fields.Sequence.{write_fields, encode_fields, write_fields-encode_fields}
use purity.Packet.{Packet}
use purity.Packet.Auth
use purity.Packet.Work
use purity.Packet.Codec.{auth_frame, work_frame}

-- The types of the arguments: a `uint8_t` is a byte, and so is a character of a string. All other
-- numbers are cut to their width.
abbrev pub IsTyped : Field → Type 0
IsTyped (uint8 v) = v < 256
IsTyped (string_raw_be v) = AllBytes v
IsTyped (string_raw_le v) = AllBytes v
IsTyped (string_nt_be v) = AllBytes v
IsTyped (string_nt_le v) = AllBytes v
IsTyped (bytes v) = AllBytes v
IsTyped f = Unit {0}

to_unsigned-IsByte : (v : ℤ) → IsByte (to_unsigned 256 v)
to_unsigned-IsByte (pos n) = omega arith
to_unsigned-IsByte (negsuc n) = omega arith

bit-IsByte : (v : Bool) → IsByte (if v then 1 else 0)
bit-IsByte true = omega arith
bit-IsByte false = omega arith

terminated : (v : List ℕ) → AllBytes v → AllBytes (v ++ (0 ∷ []))
terminated v h = All-append IsByte v (0 ∷ []) h (omega arith, tt)

encode-AllBytes : (f : Field) → IsTyped f → AllBytes (encode f)
unfolding encode
encode-AllBytes (uint8 v) h = (h, tt)
encode-AllBytes (int8 v) h = (to_unsigned-IsByte v, tt)
encode-AllBytes (uint16_be v) h = be_bytes-AllBytes 2 v
encode-AllBytes (int16_be v) h = be_bytes-AllBytes 2 (to_unsigned (2 ^ 16) v)
encode-AllBytes (uint32_be v) h = be_bytes-AllBytes 4 v
encode-AllBytes (int32_be v) h = be_bytes-AllBytes 4 (to_unsigned (2 ^ 32) v)
encode-AllBytes (uint64_be v) h = be_bytes-AllBytes 8 v
encode-AllBytes (int64_be v) h = be_bytes-AllBytes 8 (to_unsigned (2 ^ 64) v)
encode-AllBytes (float_be v) h = be_bytes-AllBytes 4 v
encode-AllBytes (double_be v) h = be_bytes-AllBytes 8 v
encode-AllBytes (uint16_le v) h = le_bytes-AllBytes 2 v
encode-AllBytes (int16_le v) h = le_bytes-AllBytes 2 (to_unsigned (2 ^ 16) v)
encode-AllBytes (uint32_le v) h = le_bytes-AllBytes 4 v
encode-AllBytes (int32_le v) h = le_bytes-AllBytes 4 (to_unsigned (2 ^ 32) v)
encode-AllBytes (uint64_le v) h = le_bytes-AllBytes 8 v
encode-AllBytes (int64_le v) h = le_bytes-AllBytes 8 (to_unsigned (2 ^ 64) v)
encode-AllBytes (float_le v) h = le_bytes-AllBytes 4 v
encode-AllBytes (double_le v) h = le_bytes-AllBytes 8 v
encode-AllBytes (bool v) h = (bit-IsByte v, tt)
encode-AllBytes (string_raw_be v) h = h
encode-AllBytes (string_raw_le v) h = reverse-AllBytes v h
encode-AllBytes (string_nt_be v) h = terminated v h
encode-AllBytes (string_nt_le v) h = terminated (reverse v) (reverse-AllBytes v h)
encode-AllBytes (bytes v) h = h

encode_fields-AllBytes : (fs : List Field) → All IsTyped fs → AllBytes (encode_fields fs)
unfolding encode_fields
encode_fields-AllBytes [] h = tt
encode_fields-AllBytes (f ∷ fs) (typed, h) =
    All-append IsByte (encode f) (encode_fields fs) (encode-AllBytes f typed)
      (encode_fields-AllBytes fs h)

-- A packet with these fields written into it.
abbrev pub filled : ℕ → List Field → Packet
filled opcode fs = record { opcode = opcode; buffer = write_fields empty fs }

filled-AllBytes :
    (opcode : ℕ) (fs : List Field) → All IsTyped fs → AllBytes (filled opcode fs).buffer.buffer
filled-AllBytes opcode fs h =
    subst (λ b. AllBytes b.buffer) (sym (write_fields-encode_fields empty fs))
      (unfold empty in encode_fields-AllBytes fs h)

-- Whatever is written into a packet by whatever methods, as long as the arguments have the types of the
-- methods and the opcode that of its class, every element of the packet's wire form is a byte: of an auth
-- packet with an opcode of one byte, and of a work packet with any.
pub build_packet-AllBytes :
    (opcode : ℕ) (fs : List Field)
    → All IsTyped fs
    → (opcode < 256 → AllBytes (Auth.build_packet (filled opcode fs)))
      × AllBytes (Work.build_packet (filled opcode fs))
build_packet-AllBytes opcode fs h =
    let p = filled opcode fs in
    let size = be_bytes 2 (length p.buffer.buffer % 2 ^ 16) in
    let payload = filled-AllBytes opcode fs h in
    let sized : AllBytes (size ++ p.buffer.buffer) =
      All-append IsByte size p.buffer.buffer (be_bytes-AllBytes 2 (length p.buffer.buffer % 2 ^ 16))
        payload in
    (
      λ small. subst AllBytes (sym (auth_frame p)) (small, sized),
      subst AllBytes (sym (work_frame p)) (
          All-append IsByte (be_bytes 2 opcode) (size ++ p.buffer.buffer)
            (be_bytes-AllBytes 2 opcode) sized),
    )
