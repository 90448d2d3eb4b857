-- ===== src/Client/Draining.antt =====
-- src/Client/Client.cpp: the loop of `flush_queue` and the handler of `async_write`.
use purity.Common.{
  ℕ, suc, zero, ◌≡◌, refl, sym, ap, ◌∙◌, inl, inr, Bool, true, false, List, [], ◌∷◌, ◌++◌,
  append_assoc, append-nil, Outcome, ok, ◌>>=◌, if◌then◌else◌, length,
}
use purity.Exception.{Exception}
use purity.Client.{Client, flush_queue, write_front, pop, write_succeeded}
use purity.Client.Queue.{IsSynced, flush_queue-Stepped}

-- So many writes end without an error, one after the other.
unfoldable pub run_writes : ℕ → Client → Outcome Exception Client
run_writes zero c = ok c
run_writes (suc n) c = write_succeeded c c.in_flight >>= λ d. run_writes n d

record Flushed (c d : Client) : Type 0 where
  queue : d.outgoing_queue ≡ c.outgoing_queue
  connected : d.connected ≡ c.connected
  written : d.written ≡ c.written

flush_queue-Flushed : (c : Client) → Flushed c (flush_queue c)
unfolding flush_queue write_front
flush_queue-Flushed c = go c.connected c.outgoing_queue
  where
    go : (b : Bool) (queue : List (List ℕ)) → Flushed c (if b then write_front c queue else c)
    go false queue = record { queue = refl; connected = refl; written = refl }
    go true [] = record { queue = refl; connected = refl; written = refl }
    go true (front ∷ rest) = record { queue = refl; connected = refl; written = refl }

-- One write: the front of the queue has gone to what is written.
record Written (c d : Client) (front : List ℕ) (rest : List (List ℕ)) : Type 0 where
  run : write_succeeded c c.in_flight ≡ ok d
  queue : d.outgoing_queue ≡ rest
  connected : d.connected ≡ c.connected
  written : d.written ≡ c.written ++ (front ∷ [])
  synced : IsSynced d

write_front-Written :
    (c : Client) (front : List ℕ) (rest : List (List ℕ))
    → c.outgoing_queue ≡ front ∷ rest
    → c.in_flight ≡ front ∷ []
    → (d : Client) × Written c d front rest
unfolding write_succeeded pop
write_front-Written c front rest q f =
    let popped : Client = record c {
      outgoing_queue = rest;
      in_flight = [];
      written = c.written ++ (front ∷ []);
    } in
    let flushed = flush_queue-Flushed popped in
    (
      flush_queue popped,
      record {
        run =
            ap (write_succeeded c) f
            ∙ ap
                (λ xs.
                  pop (record c { in_flight = []; written = c.written ++ (front ∷ []) }) xs >>= λ e.
                  ok (flush_queue e))
                q;
        queue = flushed.queue;
        connected = flushed.connected;
        written = flushed.written;
        synced = (flush_queue-Stepped popped refl).synced;
      },
    )

-- A connected client that is in step with its socket and whose writes succeed has sent its whole queue,
-- in order, after as many writes as it has packets: the loop makes progress and stops.
pub run_writes-drains :
    (c : Client) (queue : List (List ℕ))
    → IsSynced c
    → c.connected ≡ true
    → c.outgoing_queue ≡ queue
    → (d : Client) × (run_writes (length queue) c ≡ ok d)
      × (d.outgoing_queue ≡ [])
      × (d.in_flight ≡ [])
      × (d.written ≡ c.written ++ queue)
unfolding run_writes
run_writes-drains c [] (inl (f, idle)) up q = (c, refl, q, f, sym (append-nil c.written))
run_writes-drains c [] (inr (front, rest, qe, f)) up q = absurd cc
run_writes-drains c (x ∷ xs) (inl (f, inl off)) up q = absurd cc
run_writes-drains c (x ∷ xs) (inl (f, inr empty)) up q = absurd cc
run_writes-drains c (x ∷ xs) (inr (front, rest, qe, f)) up q =
    let first : front ≡ x = cc in
    let (d, w) = write_front-Written c x xs q (f ∙ ap (λ y. y ∷ []) first) in
    let (e, run, empty, idle, all) = run_writes-drains d xs w.synced (w.connected ∙ up) w.queue in
    (
      e,
      ap (λ r. r >>= λ c'. run_writes (length xs) c') w.run ∙ run,
      empty,
      idle,
      all ∙ ap (λ ws. ws ++ xs) w.written ∙ append_assoc c.written (x ∷ []) xs,
    )
