-- ===== src/System/Answered.antt =====
-- src/server: a ping and its pong, from the bytes that arrive to the bytes that are written.
use purity.Common.{
  ℕ, ◌≤◌, ◌<◌, ◌^◌, ◌≡◌, refl, sym, ap, ◌∙◌, Bool, true, false, not, ◌&&◌, List, [], ◌∷◌, ◌++◌,
  append-nil, some, ◌==◌, length, Outcome, ok, ◌>>=◌, if◌then◌else◌, arith,
}
use purity.Exception.{Exception}
use purity.MessageBuffer.{
  MessageBuffer, IsValid, contents, get_remaining_space, fill, write_completed,
}
use purity.MessageBuffer.Queue.{filled, write_completed-fill}
use purity.Packet.{new}
use purity.Packet.Write.{write_uint32_le}
use purity.Packet.Work
use purity.Session.{
  Session, work_packet, work_session, build_packet, do_read, run_posted, do_send_packet, do_write,
  write_front, write_succeeded, pop_front,
}
use purity.Session.Write.{write_ended}
use purity.World.{World, Env}
use purity.AuthStage.Framing.{advanced}
use purity.AuthStage.Reader.{with_read_buffer}
use purity.WorkStage.{cmsg_ping, smsg_pong}
use purity.WorkStage.Ping.{ponged, process_work_buffer-ponged}
use purity.Server.{Server, update, remove_session}
use purity.Server.Laws.{if_true, if_false}
use purity.Connection.{process_read_buffer, process_in_mode, read_again, read_succeeded}
use purity.System.{System, put_session, with_session, with_world, world_of, step}
use purity.System.Event.{received, runs, written}

abbrev pub ping : ℕ → List ℕ
ping id = Work.build_packet (write_uint32_le (new cmsg_ping) id)

abbrev pub pong : ℕ → List ℕ
pong id = Work.build_packet (write_uint32_le (new smsg_pong) id)

-- An open session in work mode that has nothing to read, to run or to write.
pub record IsIdle (s : Session) : Type 0 where
  pub opened : s.closed ≡ false
  pub mode : s.session_mode ≡ work_session
  pub valid : IsValid s.read_buffer
  pub read_all : contents s.read_buffer ≡ []
  pub posted : s.posted ≡ []
  pub write_queue : s.write_queue ≡ []
  pub writing : s.writing ≡ false

put_session-own : (v : Server) (i : ℕ) (s : Session) → (put_session v i s).store i ≡ s
unfolding put_session remove_session update
put_session-own v i s = go (not (v.store i).closed && s.closed) ∙ if_true (i == i) s (v.store i) own
  where
    stored : Server
    stored = record v { store = update v.store i s }

    own : (i == i) ≡ true
    own = ground arith

    go : (b : Bool) → (if b then remove_session stored i else stored).store i ≡ stored.store i
    go true = refl
    go false = refl

-- The session with the pong behind what is posted, and what it reads next.
unfoldable heard : Session → MessageBuffer → ℕ → Session
heard s m id = record s {
  reading = true;
  read_buffer = m;
  posted = s.posted ++ (work_packet (write_uint32_le (new smsg_pong) id) ∷ []);
}

ping_read :
    (env : Env) (w : World) (id : ℕ)
    → IsIdle w.session
    → length (ping id) ≤ get_remaining_space w.session.read_buffer
    → id < 2 ^ 32
    → (m : MessageBuffer) × (w' : World) × (read_succeeded env w (ping id) ≡ ok w')
      × (w'.session ≡ heard w.session m id)
unfolding read_succeeded process_read_buffer read_again do_read heard ponged advanced
    with_read_buffer process_in_mode
ping_read env w id idle room small =
    let s = w.session in
    let bytes = ping id in
    let over : World = record w { session = record s { reading = false } } in
    let m = filled bytes s.read_buffer in
    let (done, valid, queued, same) = write_completed-fill bytes s.read_buffer idle.valid room in
    let u : World = with_read_buffer over m in
    let arrived : contents m ≡ bytes ++ [] =
      queued ∙ ap (λ xs. xs ++ bytes) idle.read_all ∙ sym (append-nil bytes) in
    let (run, _, left) = process_work_buffer-ponged u id [] valid arrived small idle.opened in
    let finish : MessageBuffer → Outcome Exception World =
      λ b. process_read_buffer env (with_read_buffer over b) >>= λ w'. ok (read_again w') in
    let after : World = ponged u id in
    (
      _,
      record after { session = do_read after.session },
      if_false s.closed (ok over)
            (write_completed (length bytes) (fill bytes s.read_buffer) >>= finish) idle.opened
          ∙ ap (λ r. r >>= finish) done
          ∙ ap (λ r. r >>= λ w'. ok (read_again w')) (ap (process_in_mode env u) idle.mode ∙ run)
          ∙ ap ok (
              if_false after.session.closed after (record after { session = do_read after.session })
                idle.opened),
      refl,
    )

-- The pong is given to the socket.
unfoldable flying : Session → List ℕ → Session
flying s bytes = record s {
  posted = [];
  write_queue = bytes ∷ [];
  writing = true;
  in_flight = some bytes;
}

heard-flying :
    (s : Session) (m : MessageBuffer) (id : ℕ)
    → IsIdle s
    → run_posted (heard s m id) (heard s m id).posted ≡ flying (heard s m id) (pong id)
unfolding heard flying run_posted do_send_packet do_write write_front build_packet
heard-flying s m id idle = rw (idle.posted, idle.writing, idle.write_queue) refl

flying-written :
    (s : Session) (bytes : List ℕ)
    → (s' : Session) × (write_ended (flying s bytes) (flying s bytes).in_flight ≡ ok s')
      × (s'.sent ≡ s.sent ++ (bytes ∷ []))
unfolding flying write_ended write_succeeded pop_front do_write write_front
flying-written s bytes = (_, refl, refl)

-- When the ping of a client arrives at an open session in work mode that has nothing else to do, then, once
-- the read has ended, the posted task has run and the write has ended, the pong with the ping's number has
-- been written to that client, and nothing else has. The number has 32 bits, and there is room to read it.
pub ping_answered :
    (v : System) (i : ℕ) (env : Env) (id : ℕ)
    → IsIdle (v.server.store i)
    → length (ping id) ≤ get_remaining_space (v.server.store i).read_buffer
    → id < 2 ^ 32
    → (v1 : System) × (v2 : System) × (v3 : System) × (step v (received i env (ping id)) ≡ ok v1)
      × (step v1 (runs i) ≡ ok v2)
      × (step v2 (written i) ≡ ok v3)
      × ((v3.server.store i).sent ≡ (v.server.store i).sent ++ (pong id ∷ []))
unfolding step with_world with_session world_of
ping_answered v i env id idle room small =
    let s = v.server.store i in
    let (m, w', read, left) = ping_read env (world_of v i) id idle room small in
    let v1 : System = with_world v i w' in
    let first : v1.server.store i ≡ heard s m id = put_session-own v.server i w'.session ∙ left in
    let t = v1.server.store i in
    let v2 : System = with_session v1 i (run_posted t t.posted) in
    let second : v2.server.store i ≡ flying (heard s m id) (pong id) =
      put_session-own v1.server i (run_posted t t.posted)
      ∙ ap (λ x. run_posted x x.posted) first
      ∙ heard-flying s m id idle in
    let (s', ended, sent) = flying-written (heard s m id) (pong id) in
    let v3 : System = with_session v2 i s' in
    (
      v1,
      v2,
      v3,
      ap (λ r. r >>= λ x. ok (with_world v i x)) read,
      refl,
      ap (λ r. r >>= λ x. ok (with_session v2 i x))
          (ap (λ x. write_ended x x.in_flight) second ∙ ended),
      ap (λ x. x.sent) (put_session-own v2.server i s') ∙ sent ∙ (unfold heard in refl),
    )
