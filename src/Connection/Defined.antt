-- ===== src/Connection/Defined.antt =====
-- src/server/SessionMode: what the handlers read of a packet, and the packet itself, is read within bounds.
use purity.Common.{
  ℕ, ◌+◌, ◌^◌, ◌<◌, ◌≤◌, ◌≡◌, ap, List, length, Outcome, ok, throw, fault, not, ◌==◌, Bool, true,
  false, if◌then◌else◌, arith, sub_size, [], ◌-◌, ltb, leb, add_size, lt→ltb, Bool-cases, inl, inr,
  drop, length-take, length-drop,
}
use purity.Exception.{Exception, length_mismatch}
use purity.ByteBuffer.{ByteBuffer, M, resume, of_bytes}
use purity.ByteBuffer.Read as BufferRead
use purity.ByteBuffer.Fields.{read_field, uint32_le, string_nt_le, uint8, uint16_be}
use purity.ByteBuffer.Branches.{IsValid}
use purity.ByteBuffer.Bounds.{Safe, read_field-Safe, read_bytes-Safe}
use purity.Packet.{Packet, with_buffer}
use purity.Packet
use purity.Packet.Read.{read_uint32_le, read_string_nt_le, read_bytes}
use purity.Packet.Auth
use purity.Packet.Auth.{drop_temp}
use purity.ByteBuffer.Write.{write_bytes}
use purity.ByteBuffer.{check_read, copy_out, clear}
use purity.Packet.Work
use purity.AuthStage.Handlers.{read_proof}

-- The behaviour is defined.
abbrev pub Defined : {A : Type 0} → Outcome Exception A → Type 0
Defined (ok a) = Unit {0}
Defined (throw e) = Unit {0}
Defined fault = ⊥

-- A packet that is read from its payload's start on, and the size that it may have.
pub record IsReadable (p : Packet) : Type 0 where
  pub valid : IsValid p.buffer
  pub roomy : length p.buffer.buffer < 2 ^ 62

with_buffer-Defined :
    {A : Type 0} (p : Packet) (r : Outcome Exception (A × ByteBuffer))
    → Safe p.buffer r
    → Defined (with_buffer p r)
with_buffer-Defined p (ok (a, b)) h = tt
with_buffer-Defined p (throw e) h = tt
with_buffer-Defined p fault h = h

Safe-under :
    {A B : Type 0} (f : A → B) (b : ByteBuffer) (r : Outcome Exception (A × ByteBuffer))
    → Safe b (resume r λ a b'. ok (f a, b'))
    → Safe b r
Safe-under f b (ok (a, b')) h = h
Safe-under f b (throw e) h = tt
Safe-under f b fault h = h

pub read_uint32_le-Defined : (p : Packet) → IsReadable p → Defined (read_uint32_le p)
unfolding read_uint32_le
read_uint32_le-Defined p h = with_buffer-Defined p (BufferRead.read_uint32_le p.buffer) (
    Safe-under uint32_le p.buffer (BufferRead.read_uint32_le p.buffer) (
      unfold read_field in read_field-Safe (uint32_le 0) p.buffer h.valid (omega (arith, h.roomy))))

pub read_string_nt_le-Defined : (p : Packet) → IsReadable p → Defined (read_string_nt_le p)
unfolding read_string_nt_le
read_string_nt_le-Defined p h = with_buffer-Defined p (BufferRead.read_string_nt_le p.buffer) (
    Safe-under string_nt_le p.buffer (BufferRead.read_string_nt_le p.buffer) (
      unfold read_field in
      read_field-Safe (string_nt_le []) p.buffer h.valid (omega (arith, h.roomy))))

-- What a read leaves can be read on.
Safe-IsValid :
    (b b' : ByteBuffer)
    → IsValid b
    → (b'.buffer ≡ b.buffer) × (b.read_pos ≤ b'.read_pos) × (b'.read_pos ≤ length b.buffer)
    → IsValid b'
Safe-IsValid b b' v (same, later, within) = record {
  in_bounds = omega (arith, within, ap length same);
  small = omega (arith, v.small, ap length same);
}

pub read_proof-Defined : (p : Packet) → IsReadable p → Defined (read_proof p)
unfolding read_proof read_bytes
read_proof-Defined p h =
    go (BufferRead.read_bytes 32 p.buffer)
      (read_bytes-Safe 32 p.buffer h.valid (omega (arith, h.roomy)))
  where
    last :
        (a_bytes : List ℕ) (q : Packet) (r : Outcome Exception (List ℕ × ByteBuffer))
        → Safe q.buffer r
        → Defined (
            Packet.resume {B = List ℕ × List ℕ} (with_buffer q r) λ m1 p''. ok ((a_bytes, m1), p''))
    last a_bytes q (ok (m1, b)) s = tt
    last a_bytes q (throw e) s = tt
    last a_bytes q fault s = s

    go :
        (r : Outcome Exception (List ℕ × ByteBuffer))
        → Safe p.buffer r
        → Defined (
            Packet.resume {B = List ℕ × List ℕ} (with_buffer p r) λ a_bytes p'.
              Packet.resume {B = List ℕ × List ℕ}
                (with_buffer p' (BufferRead.read_bytes 20 p'.buffer))
                λ m1 p''. ok ((a_bytes, m1), p''))
    go (ok (a_bytes, b)) s =
        last a_bytes (record p { buffer = b }) (BufferRead.read_bytes 20 b)
          (read_bytes-Safe 20 b (Safe-IsValid p.buffer b h.valid s)
            (omega (arith, h.roomy, ap length s.0)))
    go (throw e) s = tt
    go fault s = s

-- Bytes that are read, not more than the buffer holds.
abbrev Within : ByteBuffer → Outcome Exception (List ℕ × ByteBuffer) → Type 0
Within b (ok (xs, b')) = length xs ≤ length b.buffer
Within b (throw e) = Unit {0}
Within b fault = ⊥

read_bytes-Within :
    (n : ℕ) (b : ByteBuffer)
    → IsValid b
    → length b.buffer < 2 ^ 63
    → Within b (BufferRead.read_bytes n b)
unfolding BufferRead.read_bytes check_read copy_out
read_bytes-Within n b v h = elim (Bool-cases (ltb (length b.buffer) (add_size b.read_pos n))) [
  | inl short ↦ rw short tt
  | inr through ↦ rw through (elim (Bool-cases (leb (b.read_pos + n) (length b.buffer))) [
    | inl fits ↦
        rw fits
          (omega (arith, length-take n (drop b.read_pos b.buffer), length-drop b.read_pos b.buffer))
    | inr past ↦ rw (past, lt→ltb (2 ^ 63 - 1) n (ground arith)) tt
  ])
]

-- A packet that is parsed can be read.
abbrev pub Parsed : Outcome Exception Packet → Type 0
Parsed (ok p) = IsReadable p
Parsed (throw e) = Unit {0}
Parsed fault = ⊥

-- The next step of a parse.
next-Parsed :
    {A : Type 0} (b : ByteBuffer) (r : Outcome Exception (A × ByteBuffer)) (f : A → M Packet)
    → IsValid b
    → length b.buffer < 2 ^ 62
    → Safe b r
    → ((a : A) (b' : ByteBuffer)
        → IsValid b'
        → length b'.buffer < 2 ^ 62
        → Parsed (drop_temp (f a b')))
    → Parsed (drop_temp (resume r f))
next-Parsed b (ok (a, b')) f v h s k =
    k a b' (Safe-IsValid b b' v s) (omega (arith, h, ap length s.0))
next-Parsed b (throw e) f v h s k = tt
next-Parsed b fault f v h s k = s

payload-Parsed :
    (opcode : ℕ) (b : ByteBuffer) (old : ByteBuffer) (r : Outcome Exception (List ℕ × ByteBuffer))
    → length b.buffer < 2 ^ 62
    → Within b r
    → Parsed (
        drop_temp (
          resume r λ payload b'.
            ok (record { opcode = opcode; buffer = write_bytes (clear old) payload }, b')))
unfolding write_bytes clear
payload-Parsed opcode b old (ok (xs, b')) h s = record {
  valid = record { in_bounds = omega arith; small = omega (arith, s, h) };
  roomy = omega (arith, s, h);
}
payload-Parsed opcode b old (throw e) h s = tt
payload-Parsed opcode b old fault h s = s

-- Behind the opcode and the length.
rest-Parsed :
    (opcode len : ℕ) (b old : ByteBuffer) (fits : Bool)
    → IsValid b
    → length b.buffer < 2 ^ 62
    → Parsed (
        drop_temp (
          if not fits
          then throw length_mismatch
          else (resume (BufferRead.read_bytes len b) λ payload b'.
              ok (record { opcode = opcode; buffer = write_bytes (clear old) payload }, b'))))
rest-Parsed opcode len b old true v h =
    payload-Parsed opcode b old _ h (read_bytes-Within len b v (omega (arith, h)))
rest-Parsed opcode len b old false v h = tt

read_uint8-Safe :
    (b : ByteBuffer) → IsValid b → length b.buffer < 2 ^ 62 → Safe b (BufferRead.read_uint8 b)
read_uint8-Safe b v h =
    Safe-under uint8 b (BufferRead.read_uint8 b)
      (unfold read_field in read_field-Safe (uint8 0) b v (omega (arith, h)))

read_uint16_be-Safe :
    (b : ByteBuffer) → IsValid b → length b.buffer < 2 ^ 62 → Safe b (BufferRead.read_uint16_be b)
read_uint16_be-Safe b v h =
    Safe-under uint16_be b (BufferRead.read_uint16_be b)
      (unfold read_field in read_field-Safe (uint16_be 0) b v (omega (arith, h)))

-- Any bytes are parsed or refused, within bounds.
pub auth_deserialize-Parsed :
    (raw : List ℕ) (p : Packet) → length raw < 2 ^ 62 → Parsed (Auth.deserialize raw p)
unfolding Auth.deserialize Auth.parse of_bytes
auth_deserialize-Parsed raw p h =
    let b : ByteBuffer = record { buffer = raw; read_pos = 0 } in
    let v : IsValid b = record { in_bounds = omega arith; small = omega (arith, h) } in
    next-Parsed b (BufferRead.read_uint8 b) _ v h (read_uint8-Safe b v h) λ opcode c v' h'.
      next-Parsed c (BufferRead.read_uint16_be c) _ v' h' (read_uint16_be-Safe c v' h')
        λ len d v'' h''. rest-Parsed opcode len d p.buffer (len == sub_size (length raw) 3) v'' h''

pub work_deserialize-Parsed :
    (raw : List ℕ) (p : Packet) → length raw < 2 ^ 62 → Parsed (Work.deserialize raw p)
unfolding Work.deserialize Work.parse of_bytes
work_deserialize-Parsed raw p h =
    let b : ByteBuffer = record { buffer = raw; read_pos = 0 } in
    let v : IsValid b = record { in_bounds = omega arith; small = omega (arith, h) } in
    next-Parsed b (BufferRead.read_uint16_be b) _ v h (read_uint16_be-Safe b v h) λ opcode c v' h'.
      next-Parsed c (BufferRead.read_uint16_be c) _ v' h' (read_uint16_be-Safe c v' h')
        λ len d v'' h''. rest-Parsed opcode len d p.buffer (len == sub_size (length raw) 4) v'' h''
