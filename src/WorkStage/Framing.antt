-- ===== src/WorkStage/Framing.antt =====
-- src/server/SessionMode/workstage/reader/ReaderWorkSession.cpp: how the reader cuts the bytes that wait
-- into packets, and what the server answers to a ping.
use purity.Common.{
  ℕ, suc, if◌then◌else◌, Bool-cases, inl, inr, ltb→lt, ◌+◌, ◌*◌, ◌≤◌, ◌<◌, ◌^◌, ◌%◌, ◌/◌, false,
  ◌≡◌, refl, ap, ◌∙◌, List, [], ◌∷◌, ◌++◌, ok, length, take, drop, get_or, ltb, le→not_ltb, lt→ltb,
  arith, length-append, take-append, drop-append,
}
use purity.MessageBuffer.{IsValid, contents, get_active_size, peek}
use purity.MessageBuffer.Laws.{length-contents_active, peek-contents}
use purity.MessageBuffer.Queue.{consumed, read_completed_lem}
use purity.MessageBuffer.Peek.{get_or-contents}
use purity.Packet.{Packet, new}
use purity.Packet.Work.{build_packet}
use purity.Packet.Codec.{packet, work_frame, work_deserialize-build_packet}
use purity.Bytes.{le_bytes, be_bytes}
use purity.Session.{close}
use purity.World.{World}
use purity.AuthStage.Reader.{close_on_throw}
use purity.AuthStage.Framing.{advanced}
use purity.WorkStage.{empty_stage, dispatch}
use purity.WorkStage.Reader.{process_packet, process_read_buffer_as_workserver}

-- The ends of a call, by the header `a b c d` in front.
record Cut (w : World) (a b c d : ℕ) (more : List ℕ) : Type 0 where
  waits : length more < c * 256 + d → process_read_buffer_as_workserver w ≡ ok w
  refuses :
      c * 256 + d ≤ length more
      → 2048 < c * 256 + d
      → process_read_buffer_as_workserver w ≡ ok (record w { session = close w.session })
  takes :
      c * 256 + d ≤ length more
      → c * 256 + d ≤ 2048
      → (process_read_buffer_as_workserver w
          ≡ process_packet
              (a ∷ b ∷ c ∷ d ∷ take (c * 256 + d) more)
              (advanced (4 + (c * 256 + d)) w))
        × IsValid (consumed (4 + (c * 256 + d)) w.session.read_buffer)
        × (contents (consumed (4 + (c * 256 + d)) w.session.read_buffer) ≡ drop (c * 256 + d) more)

cut :
    (w : World) (a b c d : ℕ) (more : List ℕ)
    → IsValid w.session.read_buffer
    → contents w.session.read_buffer ≡ a ∷ b ∷ c ∷ d ∷ more
    → Cut w a b c d more
unfolding process_read_buffer_as_workserver advanced
cut w a b c d more v e =
    let m = w.session.read_buffer in
    let size = c * 256 + d in
    let four : 4 + size ≡ suc (suc (suc (suc size))) = omega arith in
    let active : get_active_size m ≡ 4 + length more =
      length-contents_active m v ∙ ap length e ∙ omega arith in
    let waiting : length (contents m) ≡ 4 + length more = ap length e ∙ omega arith in
    let head : ltb (get_active_size m) 4 ≡ false = le→not_ltb (get_active_size m) 4 (omega arith) in
    let high : get_or (drop m.rpos m.storage) 2 0 ≡ c =
      get_or-contents m 2 v (omega arith) ∙ ap (λ xs. get_or xs 2 0) e in
    let low : get_or (drop m.rpos m.storage) 3 0 ≡ d =
      get_or-contents m 3 v (omega arith) ∙ ap (λ xs. get_or xs 3 0) e in
    record {
      waits = λ h. rw (high, low, head, lt→ltb (get_active_size m) (4 + size) (omega arith)) refl;
      refuses = λ h k.
          let there = le→not_ltb (get_active_size m) (4 + size) (omega arith) in
          rw (high, low, head, there, lt→ltb 2048 size k) refl;
      takes = λ h k.
          let there = le→not_ltb (get_active_size m) (4 + size) (omega arith) in
          let (done, valid, rest) = (read_completed_lem (4 + size) m v).0 (omega arith) in
          let front : peek (4 + size) m ≡ a ∷ b ∷ c ∷ d ∷ take size more =
            peek-contents m (4 + size) v (omega arith)
            ∙ ap (take (4 + size)) e
            ∙ ap (λ k. take k (a ∷ b ∷ c ∷ d ∷ more)) four in
          (
            rw (high, low, head, there, le→not_ltb 2048 size k, done, front) refl,
            valid,
            rest ∙ ap (drop (4 + size)) e ∙ ap (λ k. drop k (a ∷ b ∷ c ∷ d ∷ more)) four,
          );
    }

two_bytes : (n : ℕ) → be_bytes 2 n ≡ (n / 256 % 256) ∷ (n % 256) ∷ []
unfolding be_bytes le_bytes
two_bytes n = refl

pub small_frame :
    (p : Packet)
    → length p.buffer.buffer < 2 ^ 16
    → build_packet p
      ≡ (p.opcode / 256 % 256)
        ∷ (p.opcode % 256)
        ∷ (length p.buffer.buffer / 256 % 256)
        ∷ (length p.buffer.buffer % 256)
        ∷ p.buffer.buffer
small_frame p h =
    let n = length p.buffer.buffer in
    let fits : n % 2 ^ 16 ≡ n = omega arith in
    rw (work_frame p, fits, two_bytes n, two_bytes p.opcode) refl

-- When the wire form of a work packet of at most 2048 bytes waits in front, with any bytes behind, that
-- packet is dispatched after exactly its bytes are taken off, and the bytes behind it wait in a valid
-- buffer. If the handler throws, the session is closed.
pub process_work_buffer-build_packet :
    (w : World) (p : Packet) (rest : List ℕ)
    → IsValid w.session.read_buffer
    → contents w.session.read_buffer ≡ build_packet p ++ rest
    → p.opcode < 2 ^ 16
    → length p.buffer.buffer ≤ 2048
    → (process_read_buffer_as_workserver w
        ≡ close_on_throw
            (advanced (4 + length p.buffer.buffer) w)
            (dispatch (advanced (4 + length p.buffer.buffer) w) (packet p.opcode p.buffer.buffer)))
      × IsValid (consumed (4 + length p.buffer.buffer) w.session.read_buffer)
      × (contents (consumed (4 + length p.buffer.buffer) w.session.read_buffer) ≡ rest)
process_work_buffer-build_packet w p rest v e o h =
    let payload = p.buffer.buffer in
    let n = length payload in
    let c = n / 256 % 256 in
    let d = n % 256 in
    let size : c * 256 + d ≡ n = omega arith in
    let framed = small_frame p (omega arith) in
    let (run, valid, left) =
      (cut w (p.opcode / 256 % 256) (p.opcode % 256) c d (payload ++ rest) v
          (e ∙ ap (λ xs. xs ++ rest) framed)).takes
        (omega (arith, length-append payload rest)) (omega arith) in
    let whole : take n (payload ++ rest) ≡ payload = take-append n payload rest refl in
    let parsed = work_deserialize-build_packet p (new empty_stage) o (omega arith) in
    (
      rw (size, whole, ← framed) at run ∙ (unfold process_packet in rw parsed refl),
      rw size at valid,
      rw size at left ∙ drop-append n payload rest refl,
    )

-- A header that announces more than 2048 bytes is waited for like any other, and closes the session once
-- they have all arrived.
pub process_work_buffer-refuses :
    (w : World) (a b c d : ℕ) (more : List ℕ)
    → IsValid w.session.read_buffer
    → contents w.session.read_buffer ≡ a ∷ b ∷ c ∷ d ∷ more
    → 2048 < c * 256 + d
    → process_read_buffer_as_workserver w
      ≡ ok (if ltb (length more) (c * 256 + d) then w else record w { session = close w.session })
process_work_buffer-refuses w a b c d more v e big =
    let there = cut w a b c d more v e in
    elim (Bool-cases (ltb (length more) (c * 256 + d))) [
      | inl few ↦ rw few (there.waits (ltb→lt (length more) (c * 256 + d) few))
      | inr all ↦ rw all (there.refuses (ground arith) big)
    ]
