-- ===== src/AuthStage/Framing.antt =====
-- src/server/SessionMode/authstage/reader/ReaderAuthSession.cpp: how the reader cuts the bytes that
-- wait into packets.
use purity.Common.{
  ℕ, suc, ◌+◌, ◌*◌, ◌≤◌, ◌<◌, ◌^◌, ◌%◌, ◌/◌, false, ◌≡◌, refl, ap, ◌∙◌, List, [], ◌∷◌, ◌++◌, ok,
  length, take, drop, get_or, ltb, le→not_ltb, lt→ltb, arith, length-append, take-append,
  drop-append,
}
use purity.MessageBuffer.{IsValid, contents, get_active_size, peek}
use purity.MessageBuffer.Laws.{length-contents_active, peek-contents}
use purity.MessageBuffer.Queue.{consumed, read_completed_lem}
use purity.MessageBuffer.Peek.{get_or-contents}
use purity.Packet.{Packet, new}
use purity.Packet.Auth.{build_packet}
use purity.Packet.Codec.{packet, auth_frame, auth_deserialize-build_packet}
use purity.AuthStage.Handlers.{dispatch}
use purity.AuthStage.{empty_stage}
use purity.Bytes.{le_bytes, be_bytes}
use purity.Session.{close}
use purity.World.{World, Env}
use purity.AuthStage.Reader.{
  process_read_buffer_as_authserver, process_packet, with_read_buffer, close_on_throw,
}

-- The world with the oldest `n` bytes taken off the read buffer.
unfoldable pub advanced : ℕ → World → World
advanced n w = with_read_buffer w (consumed n w.session.read_buffer)

-- The three ends of a call, by the length field of the packet in front.
pub record Framed (env : Env) (w : World) (a b c : ℕ) (more : List ℕ) : Type 0 where
  pub waits : length more < b * 256 + c → process_read_buffer_as_authserver env w ≡ ok w
  pub refuses :
      b * 256 + c ≤ length more
      → 2048 < b * 256 + c
      → process_read_buffer_as_authserver env w ≡ ok (record w { session = close w.session })
  pub takes :
      b * 256 + c ≤ length more
      → b * 256 + c ≤ 2048
      → (process_read_buffer_as_authserver env w
          ≡ process_packet env
              (a ∷ b ∷ c ∷ take (b * 256 + c) more)
              (advanced (3 + (b * 256 + c)) w))
        × IsValid (consumed (3 + (b * 256 + c)) w.session.read_buffer)
        × (contents (consumed (3 + (b * 256 + c)) w.session.read_buffer) ≡ drop (b * 256 + c) more)

-- With fewer than three bytes waiting nothing changes.
pub process_read_buffer-short :
    (env : Env) (w : World)
    → IsValid w.session.read_buffer
    → length (contents w.session.read_buffer) < 3
    → process_read_buffer_as_authserver env w ≡ ok w
unfolding process_read_buffer_as_authserver
process_read_buffer-short env w v h =
    let m = w.session.read_buffer in
    rw (lt→ltb (get_active_size m) 3 (omega (arith, length-contents_active m v))) refl

pub process_read_buffer-Framed :
    (env : Env) (w : World) (a b c : ℕ) (more : List ℕ)
    → IsValid w.session.read_buffer
    → contents w.session.read_buffer ≡ a ∷ b ∷ c ∷ more
    → Framed env w a b c more
unfolding process_read_buffer_as_authserver advanced
process_read_buffer-Framed env w a b c more v e =
    let m = w.session.read_buffer in
    let size = b * 256 + c in
    let three : 3 + size ≡ suc (suc (suc size)) = omega arith in
    let len : length (contents m) ≡ 3 + length more = rw e (omega arith) in
    let active : get_active_size m ≡ 3 + length more = length-contents_active m v ∙ len in
    let head : ltb (get_active_size m) 3 ≡ false = le→not_ltb (get_active_size m) 3 (omega arith) in
    let first : get_or (drop m.rpos m.storage) 1 0 ≡ b =
      get_or-contents m 1 v (omega arith) ∙ ap (λ xs. get_or xs 1 0) e in
    let second : get_or (drop m.rpos m.storage) 2 0 ≡ c =
      get_or-contents m 2 v (omega arith) ∙ ap (λ xs. get_or xs 2 0) e in
    record {
      waits =
          λ h. rw (first, second, head, lt→ltb (get_active_size m) (3 + size) (omega arith)) refl;
      refuses = λ h k.
          rw
            (
              first,
              second,
              head,
              le→not_ltb (get_active_size m) (3 + size) (omega arith),
              lt→ltb 2048 size k,
            )
            refl;
      takes = λ h k.
          let (done, valid, rest) = (read_completed_lem (3 + size) m v).0 (omega arith) in
          let front : peek (3 + size) m ≡ a ∷ b ∷ c ∷ take size more =
            peek-contents m (3 + size) v (omega arith)
            ∙ ap (take (3 + size)) e
            ∙ ap (λ k. take k (a ∷ b ∷ c ∷ more)) three in
          (
            rw
                (
                  first,
                  second,
                  head,
                  le→not_ltb (get_active_size m) (3 + size) (omega arith),
                  le→not_ltb 2048 size k,
                  done,
                  front,
                )
                refl,
            valid,
            rest ∙ ap (drop (3 + size)) e ∙ ap (λ k. drop k (a ∷ b ∷ c ∷ more)) three,
          );
    }

-- As long as the payload that the length field announces is not there, nothing changes.
pub process_read_buffer-waits :
    (env : Env) (w : World) (a b c : ℕ) (more : List ℕ)
    → IsValid w.session.read_buffer
    → contents w.session.read_buffer ≡ a ∷ b ∷ c ∷ more
    → length more < b * 256 + c
    → process_read_buffer_as_authserver env w ≡ ok w
process_read_buffer-waits env w a b c more v e h =
    (process_read_buffer-Framed env w a b c more v e).waits h

-- A payload of more than 2048 bytes that has arrived whole closes the session, whatever it holds.
pub process_read_buffer-refuses :
    (env : Env) (w : World) (a b c : ℕ) (more : List ℕ)
    → IsValid w.session.read_buffer
    → contents w.session.read_buffer ≡ a ∷ b ∷ c ∷ more
    → b * 256 + c ≤ length more
    → 2048 < b * 256 + c
    → process_read_buffer_as_authserver env w ≡ ok (record w { session = close w.session })
process_read_buffer-refuses env w a b c more v e h k =
    (process_read_buffer-Framed env w a b c more v e).refuses h k

two_bytes : (n : ℕ) → be_bytes 2 n ≡ (n / 256 % 256) ∷ (n % 256) ∷ []
unfolding be_bytes le_bytes
two_bytes n = refl

small_frame :
    (p : Packet)
    → length p.buffer.buffer < 2 ^ 16
    → build_packet p
      ≡ p.opcode
        ∷ (length p.buffer.buffer / 256 % 256)
        ∷ (length p.buffer.buffer % 256)
        ∷ p.buffer.buffer
small_frame p h =
    let n = length p.buffer.buffer in
    let fits : n % 2 ^ 16 ≡ n = omega arith in rw (auth_frame p, fits, two_bytes n) refl

process_packet-build_packet :
    (env : Env) (p : Packet) (w : World)
    → length p.buffer.buffer < 2 ^ 16
    → process_packet env (build_packet p) w
      ≡ close_on_throw w (dispatch env w (packet p.opcode p.buffer.buffer))
unfolding process_packet
process_packet-build_packet env p w h =
    rw (auth_deserialize-build_packet p (new empty_stage) h) refl

-- When the wire form of a packet of at most 2048 bytes waits in front, with any bytes behind, that
-- packet is dispatched, after exactly its bytes are taken off: the bytes behind it wait in a valid
-- buffer. If the handler throws, the session is closed.
pub process_read_buffer-build_packet :
    (env : Env) (w : World) (p : Packet) (rest : List ℕ)
    → IsValid w.session.read_buffer
    → contents w.session.read_buffer ≡ build_packet p ++ rest
    → length p.buffer.buffer ≤ 2048
    → let n = 3 + length p.buffer.buffer in
      (process_read_buffer_as_authserver env w
        ≡ close_on_throw
            (advanced n w)
            (dispatch env (advanced n w) (packet p.opcode p.buffer.buffer)))
      × IsValid (consumed n w.session.read_buffer)
      × (contents (consumed n w.session.read_buffer) ≡ rest)
process_read_buffer-build_packet env w p rest v e h =
    let payload = p.buffer.buffer in
    let n = length payload in
    let b = n / 256 % 256 in
    let c = n % 256 in
    let size : b * 256 + c ≡ n = omega arith in
    let fits : b * 256 + c ≤ length (payload ++ rest) = omega (arith, length-append payload rest) in
    let (run, valid, left) =
      (process_read_buffer-Framed env w p.opcode b c (payload ++ rest) v
          (e ∙ ap (λ xs. xs ++ rest) (small_frame p (omega arith)))).takes
        fits (omega arith) in
    let whole : take n (payload ++ rest) ≡ payload = take-append n payload rest refl in
    (
      rw (size, whole, ← small_frame p (omega arith)) at run
          ∙ process_packet-build_packet env p (advanced (3 + n) w) (omega arith),
      rw size at valid,
      rw size at left ∙ drop-append n payload rest refl,
    )
