-- ===== src/System/Writes.antt =====
-- src/server/ClientSession/ClientSession.cpp: what the tasks and the ends of writes keep of a session.
use purity.Common.{
  Bool-cases, ℕ, ◌≡◌, refl, sym, subst, inl, inr, Bool, true, false, List, [], ◌∷◌, ◌++◌, ◌∙◌, ◌⊎◌,
  Option, none, some, Outcome, ok, throw, fault, ◌>>=◌, if◌then◌else◌,
}
use purity.Exception.{Exception}
use purity.Session.{
  Session, AnyPacket, build_packet, write_front, do_write, do_send_packet, run_posted, pop_front,
  write_succeeded, write_failed,
}
use purity.Session.Write.{WriteState, write_ended, run_posted-Stepped, write_ended-Stepped}
use purity.Connection.Invariant.{Fits, IsServing, closing-IsServing}

-- Writing changes neither what is read nor the stage, and neither opens nor closes the session.
pub record Untouched (s s' : Session) : Type 0 where
  pub read_buffer : s'.read_buffer ≡ s.read_buffer
  pub session_mode : s'.session_mode ≡ s.session_mode
  pub account_info : s'.account_info ≡ s.account_info
  pub closed : s'.closed ≡ s.closed

write_front-Untouched : (s : Session) (queue : List (List ℕ)) → Untouched s (write_front s queue)
unfolding write_front
write_front-Untouched s [] = record {
  read_buffer = refl;
  session_mode = refl;
  account_info = refl;
  closed = refl;
}
write_front-Untouched s (front ∷ rest) = record {
  read_buffer = refl;
  session_mode = refl;
  account_info = refl;
  closed = refl;
}

if-Untouched :
    (b : Bool) (s x y : Session) → Untouched s x → Untouched s y → Untouched s (if b then x else y)
if-Untouched true s x y h k = h
if-Untouched false s x y h k = k

do_send_packet-Untouched : (s : Session) (p : AnyPacket) → Untouched s (do_send_packet s p)
unfolding do_send_packet do_write
do_send_packet-Untouched s p =
    let queue = s.write_queue ++ (build_packet p ∷ []) in
    let pushed : Session = record s { write_queue = queue } in
    let started = write_front-Untouched pushed queue in
    if-Untouched s.writing s pushed (write_front pushed queue)
      (record { read_buffer = refl; session_mode = refl; account_info = refl; closed = refl })
      (record {
        read_buffer = started.read_buffer;
        session_mode = started.session_mode;
        account_info = started.account_info;
        closed = started.closed;
      })

pub run_posted-Untouched :
    (s : Session) (posted : List AnyPacket) → Untouched s (run_posted s posted)
unfolding run_posted
run_posted-Untouched s [] = record {
  read_buffer = refl;
  session_mode = refl;
  account_info = refl;
  closed = refl;
}
run_posted-Untouched s (p ∷ rest) =
    let sent = do_send_packet-Untouched (record s { posted = rest }) p in
    record {
      read_buffer = sent.read_buffer;
      session_mode = sent.session_mode;
      account_info = sent.account_info;
      closed = sent.closed;
    }

-- What a write that ends leaves, if it leaves a session.
abbrev pub Leaves : Session → Outcome Exception Session → Type 0
Leaves s (ok s') = Untouched s s'
Leaves s (throw e) = ⊥
Leaves s fault = Unit

write_succeeded-Leaves : (s : Session) (bytes : List ℕ) → Leaves s (write_succeeded s bytes)
unfolding write_succeeded pop_front do_write
write_succeeded-Leaves s bytes = go s.write_queue
  where
    over : Session
    over = record s { in_flight = none; sent = s.sent ++ (bytes ∷ []) }

    go : (queue : List (List ℕ)) → Leaves s (pop_front over queue >>= λ t. ok (do_write t))
    go [] = tt
    go (front ∷ rest) =
        let next = write_front-Untouched (record over { write_queue = rest }) rest in
        record {
          read_buffer = next.read_buffer;
          session_mode = next.session_mode;
          account_info = next.account_info;
          closed = next.closed;
        }

pub write_ended-Leaves :
    (s : Session) (in_flight : Option (List ℕ)) → Leaves s (write_ended s in_flight)
unfolding write_ended
write_ended-Leaves s none = record {
  read_buffer = refl;
  session_mode = refl;
  account_info = refl;
  closed = refl;
}
write_ended-Leaves s (some bytes) = write_succeeded-Leaves s bytes

-- The parts of `IsServing` that writing has nothing to do with.
kept-IsServing :
    (cap : ℕ) (s s' : Session)
    → IsServing cap s
    → Untouched s s'
    → (s.closed ≡ false → WriteState s'.writing s'.write_queue s'.in_flight)
    → IsServing cap s'
kept-IsServing cap s s' v u h = record {
  buffer = subst (Fits cap) (sym u.read_buffer) v.buffer;
  stage = rw (u.session_mode, u.account_info) v.stage;
  writes = go s.closed refl;
}
  where
    go :
        (b : Bool)
        → s.closed ≡ b
        → (s'.closed ≡ true) ⊎ WriteState s'.writing s'.write_queue s'.in_flight
    go true e = inl (u.closed ∙ e)
    go false e = inr (h e)

-- The queue of an open session is in step with its socket.
open_state :
    (cap : ℕ) (s : Session)
    → IsServing cap s
    → s.closed ≡ false
    → WriteState s.writing s.write_queue s.in_flight
open_state cap s v e = elim v.writes [ inl off ↦ absurd cc | inr state ↦ state ]

pub run_posted-IsServing :
    (cap : ℕ) (s : Session) → IsServing cap s → IsServing cap (run_posted s s.posted)
run_posted-IsServing cap s v =
    kept-IsServing cap s (run_posted s s.posted) v (run_posted-Untouched s s.posted) λ e.
      let stepped =
        run_posted-Stepped s s.posted (record { opened = e; state = open_state cap s v e }) refl in
      stepped.synced.state

-- The end of a write of an open session is no undefined behaviour.
pub write_ended-IsServing :
    (cap : ℕ) (s : Session)
    → IsServing cap s
    → s.closed ≡ false
    → (s' : Session) × (write_ended s s.in_flight ≡ ok s') × Untouched s s' × IsServing cap s'
write_ended-IsServing cap s v e =
    let (s', done, stepped) =
      write_ended-Stepped s s.in_flight (record { opened = e; state = open_state cap s v e })
        refl in
    let left : Untouched s s' = subst (Leaves s) done (write_ended-Leaves s s.in_flight) in
    (s', done, left, kept-IsServing cap s s' v left λ _. stepped.synced.state)

-- The end of a write leaves the session serving, or it pops the queue that closing the session has emptied.
abbrev pub Ends : ℕ → Session → Outcome Exception Session → Type 0
Ends cap s (ok s') = Untouched s s' × IsServing cap s'
Ends cap s (throw e) = ⊥
Ends cap s fault = s.closed ≡ true

closed-Ends :
    (cap : ℕ) (s : Session) (r : Outcome Exception Session)
    → IsServing cap s
    → s.closed ≡ true
    → Leaves s r
    → Ends cap s r
closed-Ends cap s (ok s') v e left = (left, kept-IsServing cap s s' v left λ opened. absurd cc)
closed-Ends cap s (throw x) v e left = left
closed-Ends cap s fault v e left = e

pub write_ended-Ends :
    (cap : ℕ) (s : Session) → IsServing cap s → Ends cap s (write_ended s s.in_flight)
write_ended-Ends cap s v = elim (Bool-cases s.closed) [
  | inl off ↦ closed-Ends cap s (write_ended s s.in_flight) v off (write_ended-Leaves s s.in_flight)
  | inr opened ↦
      let (s', done, left, serves) = write_ended-IsServing cap s v opened in
      subst (Ends cap s) (sym done) (left, serves)
]

pub write_failed-IsServing :
    (cap : ℕ) (s : Session) → IsServing cap s → IsServing cap (write_failed s)
unfolding write_failed
write_failed-IsServing cap s v =
    closing-IsServing cap (record s { in_flight = none }) v.buffer v.stage
