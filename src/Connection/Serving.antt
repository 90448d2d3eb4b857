-- ===== src/Connection/Serving.antt =====
-- src/server/ClientSession/ClientSession.cpp: the handler of the read keeps the session serving.
use purity.Common.{
  ℕ, ◌+◌, ◌≤◌, ◌<◌, ◌^◌, ◌≡◌, refl, sym, ap, subst, inl, inr, Bool, true, false, List, length,
  Outcome, ok, throw, fault, ◌>>=◌, ltb, if◌then◌else◌, arith, length-take, drop,
}
use purity.Exception.{Exception}
use purity.MessageBuffer.{
  MessageBuffer, get_active_size, get_remaining_space, fill, write_completed, read_completed,
  ensure_free_space, peek,
}
use purity.MessageBuffer.Laws.{length-contents_active, ensure_free_space_lem}
use purity.MessageBuffer.Queue.{consumed, filled, read_completed_lem, write_completed-fill}
use purity.Packet.{Packet, new}
use purity.Packet.Auth
use purity.Packet.Work
use purity.Session.{Session, SessionMode, auth_session, work_session, close, do_read}
use purity.World.{World, Env}
use purity.AuthStage
use purity.AuthStage.Reader as AuthReader
use purity.AuthStage.Reader.{close_on_throw, with_read_buffer, process_read_buffer_as_authserver}
use purity.WorkStage
use purity.WorkStage.Reader as WorkReader
use purity.WorkStage.Reader.{process_read_buffer_as_workserver}
use purity.Connection.{process_in_mode, process_read_buffer, read_again, read_succeeded}
use purity.Connection.Kept.{Leaves}
use purity.Connection.Defined.{IsReadable, Parsed, auth_deserialize-Parsed, work_deserialize-Parsed}
use purity.Connection.Leaves.{QueryDefined, auth_dispatch-Leaves, work_dispatch-Leaves}
use purity.Connection.Invariant.{
  Fits, IsServing, Serves, Kept-IsServing, close-IsServing, with_read_buffer-IsServing,
}

-- A handler's outcome, behind the `catch` that closes the session.
close_on_throw-Serves :
    (cap : ℕ) (w : World) (r : Outcome Exception World)
    → IsServing cap w.session
    → Leaves w.session r
    → Serves cap (close_on_throw w r)
unfolding close_on_throw
close_on_throw-Serves cap w (ok w') v k = Kept-IsServing cap w.session w'.session v k
close_on_throw-Serves cap w (throw e) v k = close-IsServing cap w.session v
close_on_throw-Serves cap w fault v k = k

-- What is parsed goes to a handler.
parse_then-Leaves :
    (s : Session) (r : Outcome Exception Packet) (f : Packet → Outcome Exception World)
    → Parsed r
    → ((p : Packet) → IsReadable p → Leaves s (f p))
    → Leaves s (r >>= f)
parse_then-Leaves s (ok p) f d h = h p d
parse_then-Leaves s (throw e) f d h = tt
parse_then-Leaves s fault f d h = d

if-Serves :
    (cap : ℕ) (b : Bool) (x y : Outcome Exception World)
    → Serves cap x
    → (b ≡ false → Serves cap y)
    → Serves cap (if b then x else y)
if-Serves cap true x y h k = h
if-Serves cap false x y h k = k refl

not_ltb_le : (a b : ℕ) → ltb a b ≡ false → b ≤ a
not_ltb_le a b h = ground arith

taken-Serves :
    (cap : ℕ) (w : World) (n : ℕ) (f : MessageBuffer → Outcome Exception World)
    → IsServing cap w.session
    → n ≤ get_active_size w.session.read_buffer
    → ((m : MessageBuffer) → Fits cap m → Serves cap (f m))
    → Serves cap (read_completed n w.session.read_buffer >>= f)
taken-Serves cap w n f v there h =
    let m = w.session.read_buffer in
    let (done, valid, rest) =
      (read_completed_lem n m v.buffer.0).0 (omega (arith, length-contents_active m v.buffer.0)) in
    subst (λ r. Serves cap (r >>= f)) (sym done)
      (h (consumed n m) (valid, (unfold consumed in v.buffer.1)))

-- What either reader does, with a header of `h` bytes and a payload of `size`.
reader-Serves :
    (cap : ℕ) (w : World) (h size : ℕ) (f : MessageBuffer → Outcome Exception World)
    → IsServing cap w.session
    → (size ≤ 2048 → (m : MessageBuffer) → Fits cap m → Serves cap (f m))
    → Serves cap (
        if ltb (get_active_size w.session.read_buffer) h
        then ok w
        else (if ltb (get_active_size w.session.read_buffer) (h + size)
            then ok w
            else (if ltb 2048 size
                then ok (record w { session = close w.session })
                else (read_completed (h + size) w.session.read_buffer >>= f))))
reader-Serves cap w h size f v k =
    let active = get_active_size w.session.read_buffer in
    let taken = read_completed (h + size) w.session.read_buffer >>= f in
    let refused = ok (record w { session = close w.session }) in
    if-Serves cap (ltb active h) (ok w)
      (if ltb active (h + size) then ok w else (if ltb 2048 size then refused else taken)) v
      λ _.
        if-Serves cap (ltb active (h + size)) (ok w) (if ltb 2048 size then refused else taken) v
          λ there.
            if-Serves cap (ltb 2048 size) refused taken (close-IsServing cap w.session v) λ few.
              taken-Serves cap w (h + size) f v (not_ltb_le active (h + size) there)
                (k (not_ltb_le 2048 size few))

auth_packet-Serves :
    (cap : ℕ) (env : Env) (w : World) (raw : List ℕ)
    → QueryDefined env
    → length raw < 2 ^ 62
    → IsServing cap w.session
    → Serves cap (AuthReader.process_packet env raw w)
unfolding AuthReader.process_packet
auth_packet-Serves cap env w raw q small v = close_on_throw-Serves cap w _ v (
    parse_then-Leaves w.session (Auth.deserialize raw (new AuthStage.empty_stage)) _
      (auth_deserialize-Parsed raw (new AuthStage.empty_stage) small)
      λ packet readable. auth_dispatch-Leaves env w packet q readable)

work_packet-Serves :
    (cap : ℕ) (w : World) (raw : List ℕ)
    → length raw < 2 ^ 62
    → IsServing cap w.session
    → Serves cap (WorkReader.process_packet raw w)
unfolding WorkReader.process_packet
work_packet-Serves cap w raw small v = close_on_throw-Serves cap w _ v (
    parse_then-Leaves w.session (Work.deserialize raw (new WorkStage.empty_stage)) _
      (work_deserialize-Parsed raw (new WorkStage.empty_stage) small)
      λ packet readable. work_dispatch-Leaves w packet readable)

peek_small :
    (h size : ℕ) (m : MessageBuffer) → h ≤ 4 → size ≤ 2048 → length (peek (h + size) m) < 2 ^ 62
unfolding peek
peek_small h size m small few =
    omega (arith, small, few, length-take (h + size) (drop m.rpos m.storage))

process_in_mode-Serves :
    (cap : ℕ) (env : Env) (w : World) (mode : SessionMode)
    → QueryDefined env
    → IsServing cap w.session
    → Serves cap (process_in_mode env w mode)
unfolding process_in_mode process_read_buffer_as_authserver process_read_buffer_as_workserver
process_in_mode-Serves cap env w auth_session q v = reader-Serves cap w 3 _ _ v λ few m h.
    auth_packet-Serves cap env (with_read_buffer w m) _ q
      (peek_small 3 _ w.session.read_buffer (omega arith) few)
      (with_read_buffer-IsServing cap w m v h)
process_in_mode-Serves cap env w work_session q v = reader-Serves cap w 4 _ _ v λ few m h.
    work_packet-Serves cap (with_read_buffer w m) _
      (peek_small 4 _ w.session.read_buffer (omega arith) few)
      (with_read_buffer-IsServing cap w m v h)

-- The next read is started, in a buffer that may have grown.
read_again-IsServing :
    (cap : ℕ) (w : World)
    → IsServing cap w.session
    → cap + 512 < 2 ^ 64
    → IsServing (cap + 512) (read_again w).session
unfolding read_again do_read
read_again-IsServing cap w v small = go w.session.closed
  where
    s : Session
    s = w.session

    grown : Fits (cap + 512) (ensure_free_space 512 s.read_buffer)
    grown =
        let e = ensure_free_space_lem 512 s.read_buffer v.buffer.0 (omega (arith, v.buffer.1)) in
        (
          e.valid,
          elim e.bound [
            | inl same ↦ omega (arith, ap length same, v.buffer.1)
            | inr more ↦ omega (arith, more, v.buffer.1)
          ],
        )

    go :
        (b : Bool)
        → IsServing (cap + 512) (if b then w else record w { session = do_read s }).session
    go true = record {
      buffer = (v.buffer.0, omega (arith, v.buffer.1));
      stage = v.stage;
      writes = v.writes;
    }
    go false = record { buffer = grown; stage = v.stage; writes = v.writes }

again-Serves :
    (cap : ℕ) (r : Outcome Exception World)
    → cap + 512 < 2 ^ 64
    → Serves cap r
    → Serves (cap + 512) (r >>= λ w. ok (read_again w))
again-Serves cap (ok w) small v = read_again-IsServing cap w v small
again-Serves cap (throw e) small v = v
again-Serves cap fault small v = v

-- Whatever bytes a client sends, as many as there is room for, the handler of the read lets no exception
-- out and leaves a session that serves on: its buffer valid and at most 512 bytes larger, its mode in
-- agreement with its account, and its queue in step with its socket. Its behaviour is defined, if that of the
-- database is.
pub read_succeeded-IsServing :
    (cap : ℕ) (env : Env) (w : World) (received : List ℕ)
    → QueryDefined env
    → IsServing cap w.session
    → length received ≤ get_remaining_space w.session.read_buffer
    → cap + 512 < 2 ^ 64
    → Serves (cap + 512) (read_succeeded env w received)
unfolding read_succeeded process_read_buffer
read_succeeded-IsServing cap env w received q v room small =
    let s = w.session in
    let over : World = record w { session = record s { reading = false } } in
    let m = filled received s.read_buffer in
    let finish : MessageBuffer → Outcome Exception World =
      λ b. process_read_buffer env (with_read_buffer over b) >>= λ w'. ok (read_again w') in
    let (done, valid, queued, same) = write_completed-fill received s.read_buffer v.buffer.0 room in
    let idle : IsServing cap over.session = record {
      buffer = v.buffer;
      stage = v.stage;
      writes = v.writes;
    } in
    let holds =
      with_read_buffer-IsServing cap over m idle (valid, omega (arith, same, v.buffer.1)) in
    if-Serves (cap + 512) s.closed (ok over)
      (write_completed (length received) (fill received s.read_buffer) >>= finish)
      (record {
        buffer = (v.buffer.0, omega (arith, v.buffer.1));
        stage = v.stage;
        writes = v.writes;
      })
      λ _.
        subst (λ r. Serves (cap + 512) (r >>= finish)) (sym done)
          (again-Serves cap (process_read_buffer env (with_read_buffer over m)) small (
            process_in_mode-Serves cap env (with_read_buffer over m)
              (with_read_buffer over m).session.session_mode q holds))
