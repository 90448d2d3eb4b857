-- ===== src/Packet/Accepted.antt =====
-- AuthPacket.hpp and WorkPacket.hpp: `deserialize` accepts exactly what `build_packet` makes.
use purity.Common.{
  ℕ, ◌%◌, ◌<◌, ◌^◌, ◌≡◌, ◌≢◌, refl, sym, ap, ◌∙◌, List, [], ◌∷◌, ◌++◌, ok, length, arith,
}
use purity.Bytes.{be_bytes, be_value, AllBytes}
use purity.Bytes.RoundTrip.{be_bytes-be_value, be_value-lt}
use purity.ByteBuffer.{check_read, copy_out, of_bytes}
use purity.ByteBuffer.Wire.{Small}
use purity.ByteBuffer.Read.{read_uint8, read_uint16_be}
use purity.Packet.{Packet}
use purity.Packet.Auth
use purity.Packet.Work
use purity.Packet.Codec.{packet, auth_frame, work_frame, auth_deserialize, work_deserialize}

-- A length field that agrees with the payload is the one that would be written.
field_of_length :
    (len payload : List ℕ)
    → AllBytes len
    → length len ≡ 2
    → be_value len ≡ length payload
    → be_bytes 2 (length payload % 2 ^ 16) ≡ len
field_of_length len payload bytes two e =
    let small : be_value len < 2 ^ 16 = rw two at (be_value-lt len bytes) in
    let fits : length payload % 2 ^ 16 ≡ be_value len = omega arith in
    rw fits (ap (λ w. be_bytes w (be_value len)) (sym two) ∙ be_bytes-be_value len bytes)

-- A header that is cut short is refused.
auth_short : (raw : List ℕ) (q r : Packet) → length raw < 3 → Auth.deserialize raw q ≢ ok r
unfolding Auth.deserialize Auth.parse of_bytes read_uint8 read_uint16_be check_read copy_out
auth_short [] q r short h = cc
auth_short (a ∷ []) q r short h = cc
auth_short (a ∷ b ∷ []) q r short h = cc
auth_short (a ∷ b ∷ c ∷ raw) q r short h = absurd (omega arith)

work_short : (raw : List ℕ) (q r : Packet) → length raw < 4 → Work.deserialize raw q ≢ ok r
unfolding Work.deserialize Work.parse of_bytes read_uint16_be check_read copy_out
work_short [] q r short h = cc
work_short (a ∷ []) q r short h = cc
work_short (a ∷ b ∷ []) q r short h = cc
work_short (a ∷ b ∷ c ∷ []) q r short h = cc
work_short (a ∷ b ∷ c ∷ d ∷ raw) q r short h = absurd (omega arith)

auth_rebuilt :
    (a : ℕ) (len payload : List ℕ)
    → AllBytes len
    → length len ≡ 2
    → be_value len ≡ length payload
    → (Auth.build_packet (packet a payload) ≡ a ∷ (len ++ payload)) × (length payload < 2 ^ 16)
auth_rebuilt a len payload bytes two e = (
  rw (auth_frame (packet a payload), field_of_length len payload bytes two e) refl,
  omega (arith, (rw two at (be_value-lt len bytes))),
)

work_rebuilt :
    (op len payload : List ℕ)
    → AllBytes op
    → AllBytes len
    → length op ≡ 2
    → length len ≡ 2
    → be_value len ≡ length payload
    → (Work.build_packet (packet (be_value op) payload) ≡ op ++ (len ++ payload))
      × (length payload < 2 ^ 16)
work_rebuilt op len payload obytes bytes otwo two e =
    let opcode : be_bytes 2 (be_value op) ≡ op =
      ap (λ w. be_bytes w (be_value op)) (sym otwo) ∙ be_bytes-be_value op obytes in
    (
      rw
          (
            work_frame (packet (be_value op) payload),
            field_of_length len payload bytes two e,
            opcode,
          )
          refl,
      omega (arith, (rw two at (be_value-lt len bytes))),
    )

-- Whatever bytes an auth packet was parsed from, building the packet gives them again, and its payload
-- fits the length field.
pub auth_build_packet-deserialize :
    (raw : List ℕ) (q r : Packet)
    → AllBytes raw
    → Small raw
    → Auth.deserialize raw q ≡ ok r
    → (Auth.build_packet r ≡ raw) × (length r.buffer.buffer < 2 ^ 16)
auth_build_packet-deserialize [] q r bytes small h = absurd (auth_short [] q r (omega arith) h)
auth_build_packet-deserialize (a ∷ []) q r bytes small h =
    absurd (auth_short (a ∷ []) q r (omega arith) h)
auth_build_packet-deserialize (a ∷ b ∷ []) q r bytes small h =
    absurd (auth_short (a ∷ b ∷ []) q r (omega arith) h)
auth_build_packet-deserialize (a ∷ b ∷ c ∷ payload) q r bytes small h =
    let e = auth_deserialize a (b ∷ c ∷ []) payload q refl small in
    let agrees : be_value (b ∷ c ∷ []) ≡ length payload = ground (arith, e) in
    let is : packet a payload ≡ r = ground (arith, e) in
    rw (← is) (auth_rebuilt a (b ∷ c ∷ []) payload (bytes.1.0, (bytes.1.1.0, tt)) refl agrees)

-- The same for a work packet.
pub work_build_packet-deserialize :
    (raw : List ℕ) (q r : Packet)
    → AllBytes raw
    → Small raw
    → Work.deserialize raw q ≡ ok r
    → (Work.build_packet r ≡ raw) × (length r.buffer.buffer < 2 ^ 16)
work_build_packet-deserialize [] q r bytes small h = absurd (work_short [] q r (omega arith) h)
work_build_packet-deserialize (a ∷ []) q r bytes small h =
    absurd (work_short (a ∷ []) q r (omega arith) h)
work_build_packet-deserialize (a ∷ b ∷ []) q r bytes small h =
    absurd (work_short (a ∷ b ∷ []) q r (omega arith) h)
work_build_packet-deserialize (a ∷ b ∷ c ∷ []) q r bytes small h =
    absurd (work_short (a ∷ b ∷ c ∷ []) q r (omega arith) h)
work_build_packet-deserialize (a ∷ b ∷ c ∷ d ∷ payload) q r bytes small h =
    let e = work_deserialize (a ∷ b ∷ []) (c ∷ d ∷ []) payload q refl refl small in
    let agrees : be_value (c ∷ d ∷ []) ≡ length payload = ground (arith, e) in
    let is : packet (be_value (a ∷ b ∷ [])) payload ≡ r = ground (arith, e) in
    rw (← is) (
      work_rebuilt (a ∷ b ∷ []) (c ∷ d ∷ []) payload (bytes.0, (bytes.1.0, tt))
        (bytes.1.1.0, (bytes.1.1.1.0, tt)) refl refl agrees)
