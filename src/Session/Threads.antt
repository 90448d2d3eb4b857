-- ===== src/Session/Threads.antt =====
-- src/server/ClientSession/ClientSession.cpp: `do_send_packet`, `do_write` and the handler of `async_write`,
-- one use of the members at a time.
-- src/main_server.cpp runs one `io_context` on several threads, and a session has no strand, so a task and
-- a handler of one session, or two of its tasks, can run at once. Each use of a member is one step here, in
-- the order of the code; what C++ makes of two uses at the same moment is left out.
use purity.Common.{
  ℕ, zero, suc, ◌≡◌, refl, inl, inr, Bool, true, false, List, [], ◌∷◌, ◌++◌, Option, none, some,
  Outcome, ok, fault, ◌>>=◌, if◌then◌else◌,
}
use purity.Exception.{Exception}
use purity.Session.{
  Session, AnyPacket, build_packet, do_send_packet, do_write, write_front, pop_front,
  write_succeeded,
}
use purity.Session.Write.{WriteState}

-- The members that are written to, and the writes that the socket has been given, oldest first.
pub record Shared : Type 0 where
  pub write_queue : List (List ℕ)
  pub writing : Bool
  pub outstanding : List (List ℕ)

-- Where a thread is: in `do_send_packet`, about to push the packet that it has built or to look at
-- `writing_`; in `do_write`, about to look whether the queue is empty, to clear `writing_`, to set it, or to
-- start the write; in the handler of a write, about to pop; or through.
pub data Point : Type 0 where
  pushing : List ℕ → Point
  testing checking stopping marking starting popping through : Point

unfoldable pub after_check : List (List ℕ) → Point
after_check [] = stopping
after_check (front ∷ rest) = marking

unfoldable pub start_front : Shared → List (List ℕ) → Outcome Exception (Shared × Point)
start_front m [] = fault
start_front m (front ∷ rest) =
    ok (record m { outstanding = m.outstanding ++ (front ∷ []) }, through)

unfoldable pub pop : Shared → List (List ℕ) → Outcome Exception (Shared × Point)
pop m [] = fault
pop m (front ∷ rest) = ok (record m { write_queue = rest }, checking)

unfoldable pub advance : Shared → Point → Outcome Exception (Shared × Point)
advance m (pushing bytes) = ok (record m { write_queue = m.write_queue ++ (bytes ∷ []) }, testing)
advance m testing = ok (m, if m.writing then through else checking)
advance m checking = ok (m, after_check m.write_queue)
advance m stopping = ok (record m { writing = false }, through)
advance m marking = ok (record m { writing = true }, starting)
advance m starting = start_front m m.write_queue
advance m popping = pop m m.write_queue
advance m through = ok (m, through)

-- One thread, with no other between its steps. Neither function has more than five.
unfoldable pub alone : ℕ → Shared → Point → Outcome Exception (Shared × Point)
alone zero m at = ok (m, at)
alone (suc n) m at = advance m at >>= λ next. alone n next.0 next.1

-- Two threads; `false` is a step of the first, `true` one of the second.
unfoldable pub interleave :
    List Bool → Shared → Point → Point → Outcome Exception (Shared × (Point × Point))
interleave [] m a b = ok (m, (a, b))
interleave (false ∷ turns) m a b = advance m a >>= λ next. interleave turns next.0 next.1 b
interleave (true ∷ turns) m a b = advance m b >>= λ next. interleave turns next.0 a next.1

-- The oldest write ends well, and its handler runs alone.
unfoldable pub handled : Shared → List (List ℕ) → Outcome Exception Shared
handled m [] = ok m
handled m (bytes ∷ others) = alone 5 (record m { outstanding = others }) popping >>= λ end. ok end.0

unfoldable pub write_ends : Shared → Outcome Exception Shared
write_ends m = handled m m.outstanding

abbrev pub outstanding_of : Option (List ℕ) → List (List ℕ)
outstanding_of none = []
outstanding_of (some bytes) = bytes ∷ []

-- What the session shares.
unfoldable pub shared : Session → Shared
shared s = record {
  write_queue = s.write_queue;
  writing = s.writing;
  outstanding = outstanding_of s.in_flight;
}

pushed_alone :
    (s : Session) (p : AnyPacket)
    → WriteState s.writing s.write_queue s.in_flight
    → alone 5 (shared s) (pushing (build_packet p)) ≡ ok (shared (do_send_packet s p), through)
unfolding alone advance after_check start_front shared do_send_packet do_write write_front
pushed_alone s p (inl (w, q, f)) = rw (w, q, f) refl
pushed_alone s p (inr (front, rest, w, q, f)) = rw (w, q, f) refl

popped_alone :
    (s : Session) (bytes : List ℕ)
    → WriteState s.writing s.write_queue s.in_flight
    → s.in_flight ≡ some bytes
    → (s' : Session) × (write_succeeded s bytes ≡ ok s') × (write_ends (shared s) ≡ ok (shared s'))
unfolding write_ends handled alone advance pop after_check start_front shared write_succeeded
    pop_front do_write write_front
popped_alone s bytes (inl (w, q, f)) e = absurd cc
popped_alone s bytes (inr (front, [], w, q, f)) e = (
  record s { in_flight = none; sent = s.sent ++ (bytes ∷ []); write_queue = []; writing = false },
  rw q refl,
  rw (w, q, e) refl,
)
popped_alone s bytes (inr (front, next ∷ rest, w, q, f)) e = (
  record s {
    in_flight = some next;
    sent = s.sent ++ (bytes ∷ []);
    write_queue = next ∷ rest;
    writing = true;
  },
  rw q refl,
  rw (w, q, e) refl,
)

-- As long as no other thread comes between, a task and the handler of a write, run one use of the members
-- at a time, do to a session that is in step with its socket what they do in one step.
pub alone-atomic :
    (s : Session) (p : AnyPacket) (bytes : List ℕ)
    → WriteState s.writing s.write_queue s.in_flight
    → (alone 5 (shared s) (pushing (build_packet p)) ≡ ok (shared (do_send_packet s p), through))
      × (s.in_flight ≡ some bytes
          → (s' : Session) × (write_succeeded s bytes ≡ ok s')
            × (write_ends (shared s) ≡ ok (shared s')))
alone-atomic s p bytes state = (pushed_alone s p state, popped_alone s bytes state)

abbrev pub idle : Shared
idle = record { write_queue = []; writing = false; outstanding = [] }

-- For any two packets, posted when nothing is being written, there is an order of the steps of two threads
-- after which the first packet is being written twice and the second not at all. When the writes of that
-- packet end, the second is popped before it has been written out, and at the end of its write an empty
-- deque is popped.
pub send_twice :
    (p q : List ℕ)
    → (turns : List Bool) × (interleave turns idle (pushing p) (pushing q)
        ≡ ok (
          record { write_queue = p ∷ q ∷ []; writing = true; outstanding = p ∷ p ∷ [] },
          (through, through),
        ))
      × ((write_ends (record { write_queue = p ∷ q ∷ []; writing = true; outstanding = p ∷ p ∷ [] })
            >>= λ m. write_ends m)
          ≡ ok (record { write_queue = []; writing = false; outstanding = q ∷ [] }))
      × (write_ends (record { write_queue = []; writing = false; outstanding = q ∷ [] }) ≡ fault)
unfolding interleave advance after_check start_front write_ends handled alone pop
send_twice p q = (
  false ∷ false ∷ true ∷ true ∷ false ∷ false ∷ false ∷ true ∷ true ∷ true ∷ [],
  refl,
  refl,
  refl,
)

-- For any packet posted while the only other one has just been written, there is an order of the steps of
-- the handler and the task after which the packet is in the queue, nothing is being written, and neither
-- thread will start a write.
pub lost_wakeup :
    (p q : List ℕ)
    → (turns : List Bool) × (interleave turns
          (record { write_queue = p ∷ []; writing = true; outstanding = [] })
          popping
          (pushing q)
        ≡ ok (
          record { write_queue = q ∷ []; writing = false; outstanding = [] },
          (through, through),
        ))
unfolding interleave advance after_check pop
lost_wakeup p q = (false ∷ false ∷ true ∷ true ∷ false ∷ [], refl)
