-- ===== src/Client/Writing.antt =====
-- src/Client/Client.cpp: the queue of packets to send, over any course of the connection.
-- A step is one call or one handler. A connection is taken as made only while there is none and no
-- write of an earlier one is outstanding.
use purity.Common.{
  ℕ, ◌≡◌, refl, sym, ap, ◌∙◌, false, List, [], ◌∷◌, ◌++◌, append_assoc, append-nil, ok,
}
use purity.Client.{
  Client, run_disconnect, schedule_reconnect, send_packet_impl, write_succeeded, write_failed,
  connect_succeeded, connect_failed,
}
use purity.Client.Receive.{read_failed}
use purity.Client.Queue.{
  stream, IsSynced, Stepped, lost-Stepped, send_packet_impl-Stepped, write_succeeded-Stepped,
  write_failed-Stepped, connect_succeeded-Stepped, read_failed-Stepped,
}

-- From a state, by sending some packets, to a state.
pub data Step (c : Client) (sent : List (List ℕ)) (d : Client) : Type 0 where
  sends : (bytes : List ℕ) → sent ≡ bytes ∷ [] → d ≡ send_packet_impl c bytes → Step c sent d
  write_ends :
      (bytes : List ℕ) (others : List (List ℕ))
      → c.in_flight ≡ bytes ∷ others
      → sent ≡ []
      → write_succeeded c c.in_flight ≡ ok d
      → Step c sent d
  write_fails : sent ≡ [] → d ≡ write_failed c c.in_flight → Step c sent d
  read_fails : sent ≡ [] → d ≡ read_failed c c.reads → Step c sent d
  disconnects : sent ≡ [] → d ≡ run_disconnect c → Step c sent d
  connects :
      c.connected ≡ false → c.in_flight ≡ [] → sent ≡ [] → d ≡ connect_succeeded c → Step c sent d
  connect_fails : sent ≡ [] → d ≡ connect_failed c → Step c sent d

pub data Steps : Client → List (List ℕ) → Client → Type 0 where
  done : (c : Client) → Steps c [] c
  more :
      {c d e : Client} {sent rest : List (List ℕ)}
      → Step c sent d
      → Steps d rest e
      → Steps c (sent ++ rest) e

Step-Stepped : (c d : Client) (sent : List (List ℕ)) → IsSynced c → Step c sent d → Stepped c sent d
unfolding run_disconnect schedule_reconnect connect_failed
Step-Stepped c d sent v (sends bytes e to) = rw (e, to) (send_packet_impl-Stepped c bytes v)
Step-Stepped c d sent v (write_ends bytes others f e run) =
    let (d', run', t) = write_succeeded-Stepped c bytes others v f in
    let same : d' ≡ d = cc in rw (e, ← same) t
Step-Stepped c d sent v (write_fails e to) = rw (e, to) (write_failed-Stepped c c.in_flight v refl)
Step-Stepped c d sent v (read_fails e to) = rw (e, to) (read_failed-Stepped c c.reads v)
Step-Stepped c d sent v (disconnects e to) = rw (e, to) (lost-Stepped c _ v refl refl refl refl)
Step-Stepped c d sent v (connects off f e to) = rw (e, to) (connect_succeeded-Stepped c f)
Step-Stepped c d sent v (connect_fails e to) = rw (e, to) (lost-Stepped c _ v refl refl refl refl)

-- Over any course of sending, writes, failures, disconnections and new connections, each of which is made
-- while there is no connection and no write of an earlier one is outstanding, a client that starts in step
-- with its socket stays so. What has been written and what is queued together are what
-- they were, and the packets sent since, each once and in order: a lost connection loses no packet.
pub Steps-Stepped :
    (c d : Client) (sent : List (List ℕ)) → IsSynced c → Steps c sent d → Stepped c sent d
Steps-Stepped c d sent v (done e) = record { synced = v; extends = sym (append-nil (stream c)) }
Steps-Stepped c d sent v (more {d = mid} {sent = first} {rest = later} st steps) =
    let t = Step-Stepped c mid first v st in
    let u = Steps-Stepped mid d later t.synced steps in
    record {
      synced = u.synced;
      extends = u.extends ∙ ap (λ xs. xs ++ later) t.extends ∙ append_assoc (stream c) first later;
    }

-- In step with its socket, the end of a write finds its packet at the front of the queue.
pub write_succeeded-ok :
    (c : Client) (bytes : List ℕ) (others : List (List ℕ))
    → IsSynced c
    → c.in_flight ≡ bytes ∷ others
    → (d : Client) × (write_succeeded c c.in_flight ≡ ok d) × IsSynced d
write_succeeded-ok c bytes others v f =
    let (d, run, t) = write_succeeded-Stepped c bytes others v f in
    (d, ap (write_succeeded c) f ∙ run, t.synced)
