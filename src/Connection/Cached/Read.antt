-- ===== src/Connection/Cached/Read.antt =====
-- src/server/ClientSession/ClientSession.cpp: what a read leaves in the cache.
use purity.Common.{
  ℕ, ◌+◌, Bool, true, false, List, length, Outcome, ok, throw, fault, ◌>>=◌, ltb, if◌then◌else◌,
}
use purity.Exception.{Exception}
use purity.MessageBuffer.{MessageBuffer, get_active_size, write_completed, read_completed, fill}
use purity.Packet.{new}
use purity.Packet.Auth
use purity.Packet.Work
use purity.Session.{do_read, SessionMode, auth_session, work_session, close}
use purity.World.{World, Env}
use purity.AuthStage
use purity.AuthStage.{cmsg_ping, cmsg_auth_logon_challenge, cmsg_auth_logon_proof}
use purity.AuthStage.Reader as AuthReader
use purity.AuthStage.Reader.{close_on_throw, with_read_buffer, process_read_buffer_as_authserver}
use purity.WorkStage
use purity.WorkStage.Reader as WorkReader
use purity.WorkStage.Reader.{process_read_buffer_as_workserver}
use purity.Connection.{process_in_mode, process_read_buffer, read_again, read_succeeded}
use purity.AccountCache.Recorded.{Holds}
use purity.Connection.Cached.{
  Says, HoldsAfter, if-HoldsAfter, auth_dispatch-Holds, work_dispatch-Holds,
}

module _ (Recorded : List ℕ → List ℕ → List ℕ → Type 0) where
  -- What only a value goes on from.
  value-Holds :
      {A : Type 0} (r : Outcome Exception A) (f : A → Outcome Exception World)
      → ((a : A) → HoldsAfter Recorded (f a))
      → HoldsAfter Recorded (r >>= f)
  value-Holds (ok a) f h = h a
  value-Holds (throw e) f h = tt
  value-Holds fault f h = tt

  close_on_throw-Holds :
      (w : World) (r : Outcome Exception World)
      → Holds Recorded w.cache
      → HoldsAfter Recorded r
      → HoldsAfter Recorded (close_on_throw w r)
  unfolding close_on_throw
  close_on_throw-Holds w (ok w') h k = k
  close_on_throw-Holds w (throw e) h k = h
  close_on_throw-Holds w fault h k = tt

  -- Either reader: it waits, refuses, or takes a packet off.
  reader-Holds :
      (w : World) (h size : ℕ) (f : MessageBuffer → Outcome Exception World)
      → Holds Recorded w.cache
      → ((m : MessageBuffer) → HoldsAfter Recorded (f m))
      → HoldsAfter Recorded (
          if ltb (get_active_size w.session.read_buffer) h
          then ok w
          else (if ltb (get_active_size w.session.read_buffer) (h + size)
              then ok w
              else (if ltb 2048 size
                  then ok (record w { session = close w.session })
                  else (read_completed (h + size) w.session.read_buffer >>= f))))
  reader-Holds w h size f held k =
      let active = get_active_size w.session.read_buffer in
      let taken = read_completed (h + size) w.session.read_buffer >>= f in
      let refused = ok (record w { session = close w.session }) in
      if-HoldsAfter Recorded (ltb active h) (ok w)
        (if ltb active (h + size) then ok w else (if ltb 2048 size then refused else taken)) held
        (if-HoldsAfter Recorded (ltb active (h + size)) (ok w)
          (if ltb 2048 size then refused else taken) held
          (if-HoldsAfter Recorded (ltb 2048 size) refused taken held
            (value-Holds (read_completed (h + size) w.session.read_buffer) f k)))

  auth_packet-Holds :
      (env : Env) (raw : List ℕ) (w : World)
      → Says Recorded env.db
      → Holds Recorded w.cache
      → HoldsAfter Recorded (AuthReader.process_packet env raw w)
  unfolding AuthReader.process_packet
  auth_packet-Holds env raw w says h = close_on_throw-Holds w _ h (
      value-Holds (Auth.deserialize raw (new AuthStage.empty_stage)) _
        λ packet. auth_dispatch-Holds Recorded env w packet says h)

  work_packet-Holds :
      (raw : List ℕ) (w : World)
      → Holds Recorded w.cache
      → HoldsAfter Recorded (WorkReader.process_packet raw w)
  unfolding WorkReader.process_packet
  work_packet-Holds raw w h = close_on_throw-Holds w _ h (
      value-Holds (Work.deserialize raw (new WorkStage.empty_stage)) _
        λ packet. work_dispatch-Holds Recorded w packet h)

  process_in_mode-Holds :
      (env : Env) (w : World) (mode : SessionMode)
      → Says Recorded env.db
      → Holds Recorded w.cache
      → HoldsAfter Recorded (process_in_mode env w mode)
  unfolding process_in_mode process_read_buffer_as_authserver process_read_buffer_as_workserver
  process_in_mode-Holds env w auth_session says h =
      reader-Holds w 3 _ _ h
        λ m. auth_packet-Holds env _ (with_read_buffer w m) says (unfold with_read_buffer in h)
  process_in_mode-Holds env w work_session says h =
      reader-Holds w 4 _ _ h
        λ m. work_packet-Holds _ (with_read_buffer w m) (unfold with_read_buffer in h)

  again-Holds :
      (r : Outcome Exception World)
      → HoldsAfter Recorded r
      → HoldsAfter Recorded (r >>= λ w. ok (read_again w))
  unfolding read_again do_read
  again-Holds (ok w) h = go w.session.closed
    where
      go :
          (b : Bool)
          → Holds Recorded (if b then w else record w { session = do_read w.session }).cache
      go true = h
      go false = h
  again-Holds (throw e) h = tt
  again-Holds fault h = tt

  -- A read leaves in the cache only what it held and what the database said while it was handled.
  pub read_succeeded-Holds :
      (env : Env) (w : World) (received : List ℕ)
      → Says Recorded env.db
      → Holds Recorded w.cache
      → HoldsAfter Recorded (read_succeeded env w received)
  unfolding read_succeeded process_read_buffer
  read_succeeded-Holds env w received says h =
      let s = w.session in
      let over : World = record w { session = record s { reading = false } } in
      let finish : MessageBuffer → Outcome Exception World =
        λ m. process_read_buffer env (with_read_buffer over m) >>= λ w'. ok (read_again w') in
      let written = write_completed (length received) (fill received s.read_buffer) in
      if-HoldsAfter Recorded s.closed (ok over) (written >>= finish) h (
        value-Holds written finish λ m.
          again-Holds (process_read_buffer env (with_read_buffer over m)) (
            process_in_mode-Holds env (with_read_buffer over m)
              (with_read_buffer over m).session.session_mode says (unfold with_read_buffer in h)))
