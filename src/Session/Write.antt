-- ===== src/Session/Write.antt =====
-- src/server/ClientSession/ClientSession.cpp: `send_packet`, `do_send_packet` and `do_write` as steps.
-- An event is a call of `send_packet` by anybody, the executor running a posted task, or the end of
-- the outstanding `async_write`. One thread runs the executor here, so the events are in sequence.
use purity.Common.{
  ℕ, ◌≡◌, refl, sym, ap, ◌∙◌, ◌⊎◌, inl, inr, Bool, true, false, List, [], ◌∷◌, ◌++◌, append_assoc,
  append-nil, map, Option, none, some, Outcome, ok, fault, ◌>>=◌,
}
use mathlib.Core.List.{map-append}
use purity.Exception.{Exception}
use purity.Session.{
  Session, AnyPacket, build_packet, close, send_packet, write_front, do_write, do_send_packet,
  run_posted, pop_front, write_succeeded,
}

pub data Event : Type 0 where
  sends : AnyPacket → Event
  runs written : Event

-- Nothing happens without a task or a write to end.
unfoldable pub write_ended : Session → Option (List ℕ) → Outcome Exception Session
write_ended s none = ok s
write_ended s (some bytes) = write_succeeded s bytes

unfoldable pub step : Session → Event → Outcome Exception Session
step s (sends packet) = ok (send_packet s packet)
step s runs = ok (run_posted s s.posted)
step s written = write_ended s s.in_flight

unfoldable pub run : Session → List Event → Outcome Exception Session
run s [] = ok s
run s (e ∷ es) = step s e >>= λ s'. run s' es

-- The packets that the events send.
abbrev pub event_packets : Event → List AnyPacket
event_packets (sends packet) = packet ∷ []
event_packets runs = []
event_packets written = []

abbrev pub packets : List Event → List AnyPacket
packets [] = []
packets (e ∷ es) = event_packets e ++ packets es

-- Everything that was given to `send_packet` and has not been lost, in the order in which the client
-- gets it.
unfoldable pub stream : Session → List (List ℕ)
stream s = s.sent ++ (s.write_queue ++ map build_packet s.posted)

-- `writing_` says that the front of the queue is with the socket; without it the queue is empty.
abbrev pub WriteState : Bool → List (List ℕ) → Option (List ℕ) → Type 0
WriteState writing queue in_flight =
    ((writing ≡ false) × (queue ≡ []) × (in_flight ≡ none))
    ⊎ ((front : List ℕ) × (rest : List (List ℕ)) × (writing ≡ true)
        × (queue ≡ front ∷ rest)
        × (in_flight ≡ some front))

pub record IsSynced (s : Session) : Type 0 where
  pub opened : s.closed ≡ false
  pub state : WriteState s.writing s.write_queue s.in_flight

-- What one event does.
pub record Stepped (s : Session) (new : List (List ℕ)) (s' : Session) : Type 0 where
  pub synced : IsSynced s'
  pub extends : stream s' ≡ stream s ++ new

send_packet-Stepped :
    (s : Session) (p : AnyPacket) → IsSynced s → Stepped s (build_packet p ∷ []) (send_packet s p)
unfolding send_packet stream
send_packet-Stepped s p v = rw v.opened record {
  synced = record { opened = refl; state = v.state };
  extends =
      rw
        (
          map-append build_packet s.posted (p ∷ []),
          append_assoc s.sent (s.write_queue ++ map build_packet s.posted) (build_packet p ∷ []),
          append_assoc s.write_queue (map build_packet s.posted) (build_packet p ∷ []),
        )
        refl;
}

do_send_packet-Stepped :
    (s : Session) (p : AnyPacket) (rest : List AnyPacket)
    → IsSynced s
    → s.posted ≡ p ∷ rest
    → Stepped s [] (do_send_packet (record s { posted = rest }) p)
unfolding do_send_packet do_write write_front stream
do_send_packet-Stepped s p rest v e = elim v.state [
  | inl (w, q, f) ↦
      rw (w, q, e)
        record {
          synced = record { opened = v.opened; state = inr (build_packet p, [], refl, refl, refl) };
          extends = sym (append-nil (s.sent ++ (build_packet p ∷ map build_packet rest)));
        }
  | inr (front, more, w, q, f) ↦
      rw (w, q, e)
        record {
          synced = record {
            opened = v.opened;
            state = inr (front, more ++ (build_packet p ∷ []), refl, refl, f);
          };
          extends =
              rw
                (
                  append_assoc more (build_packet p ∷ []) (map build_packet rest),
                  append-nil
                      (s.sent ++ (front ∷ (more ++ (build_packet p ∷ map build_packet rest)))),
                )
                refl;
        }
]

write_succeeded-Stepped :
    (s : Session) (bytes : List ℕ)
    → IsSynced s
    → s.in_flight ≡ some bytes
    → (s' : Session) × (write_succeeded s bytes ≡ ok s') × Stepped s [] s'
unfolding write_succeeded pop_front do_write write_front stream
write_succeeded-Stepped s b v e = elim v.state [
  | inl (w, q, f) ↦ absurd cc
  | inr (front, [], w, q, f) ↦
      let same_front : b ≡ front = cc in
      rw (q) (
        _,
        refl,
        record {
          synced = record { opened = v.opened; state = inl (refl, refl, refl) };
          extends =
              rw
                (
                  same_front,
                  append_assoc s.sent (front ∷ []) (map build_packet s.posted),
                  append-nil (s.sent ++ (front ∷ map build_packet s.posted)),
                )
                refl;
        },
      )
  | inr (front, next ∷ more, w, q, f) ↦
      let same_front : b ≡ front = cc in
      rw (q) (
        _,
        refl,
        record {
          synced = record { opened = v.opened; state = inr (next, more, refl, refl, refl) };
          extends =
              rw
                (
                  same_front,
                  append_assoc s.sent (front ∷ []) (next ∷ (more ++ map build_packet s.posted)),
                  append-nil (s.sent ++ (front ∷ (next ∷ (more ++ map build_packet s.posted)))),
                )
                refl;
        },
      )
]

pub run_posted-Stepped :
    (s : Session) (posted : List AnyPacket)
    → IsSynced s
    → s.posted ≡ posted
    → Stepped s [] (run_posted s posted)
unfolding run_posted
run_posted-Stepped s [] v e = record { synced = v; extends = sym (append-nil (stream s)) }
run_posted-Stepped s (p ∷ rest) v e = do_send_packet-Stepped s p rest v e

pub write_ended-Stepped :
    (s : Session) (in_flight : Option (List ℕ))
    → IsSynced s
    → s.in_flight ≡ in_flight
    → (s' : Session) × (write_ended s in_flight ≡ ok s') × Stepped s [] s'
unfolding write_ended
write_ended-Stepped s none v e =
    (s, refl, record { synced = v; extends = sym (append-nil (stream s)) })
write_ended-Stepped s (some b) v e = write_succeeded-Stepped s b v e

step-Stepped :
    (s : Session) (e : Event)
    → IsSynced s
    → (s' : Session) × (step s e ≡ ok s') × Stepped s (map build_packet (event_packets e)) s'
unfolding step
step-Stepped s (sends p) v = (_, refl, send_packet-Stepped s p v)
step-Stepped s runs v = (_, refl, run_posted-Stepped s s.posted v refl)
step-Stepped s written v = write_ended-Stepped s s.in_flight v refl

-- Any sequence of calls, tasks and ends of writes on an open session that is in step with its
-- socket runs without popping an empty
-- deque, leaves a session that is still in step with its socket, and adds to what the client gets
-- exactly the wire forms of the packets sent, in the order of the calls.
pub run-extends :
    (s : Session) (es : List Event)
    → IsSynced s
    → (s' : Session) × (run s es ≡ ok s') × Stepped s (map build_packet (packets es)) s'
unfolding run
run-extends s [] v = (s, refl, record { synced = v; extends = sym (append-nil (stream s)) })
run-extends s (e ∷ es) v =
    let (s1, e1, t1) = step-Stepped s e v in
    let (s2, e2, t2) = run-extends s1 es t1.synced in
    (
      s2,
      rw e1 e2,
      record {
        synced = t2.synced;
        extends =
            t2.extends
            ∙ ap (λ x. x ++ map build_packet (packets es)) t1.extends
            ∙ append_assoc (stream s) (map build_packet (event_packets e))
                (map build_packet (packets es))
            ∙ ap (λ x. stream s ++ x)
                (sym (map-append build_packet (event_packets e) (packets es)));
      },
    )

-- Once the session is closed with a write outstanding, the end of that write pops an empty deque.
pub write_succeeded-close_fault :
    (s : Session) (b : List ℕ) → s.closed ≡ false → write_succeeded (close s) b ≡ fault
unfolding write_succeeded pop_front close
write_succeeded-close_fault s b e = rw e refl
