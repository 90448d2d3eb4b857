-- ===== src/Client/Queue.antt =====
-- src/Client/Client.cpp: the queue of packets to send, and its socket, one call or handler at a time.
use purity.Common.{
  ℕ, ◌-◌, ◌≡◌, refl, sym, ap, ◌∙◌, ◌⊎◌, inl, inr, Bool, true, false, List, [], ◌∷◌, ◌++◌,
  append_assoc, append-nil, ok, ◌>>=◌, if◌then◌else◌,
}
use purity.Client.{
  Client, Reading, header, schedule_reconnect, start_heartbeat, start_receive_loop, write_front,
  flush_queue, flush_single, send_packet_impl, pop, write_succeeded, write_failed,
  connect_succeeded,
}
use purity.Client.Receive.{read_failed}

-- Everything that was to be sent, in its order: what has been written, and what waits.
unfoldable pub stream : Client → List (List ℕ)
stream c = c.written ++ c.outgoing_queue

-- Either no write is outstanding, and a connected client has nothing to send; or the front of the
-- queue is being written, once.
abbrev pub WriteState : Bool → List (List ℕ) → List (List ℕ) → Type 0
WriteState connected queue in_flight =
    ((in_flight ≡ []) × ((connected ≡ false) ⊎ (queue ≡ [])))
    ⊎ ((front : List ℕ) × (rest : List (List ℕ)) × (queue ≡ front ∷ rest)
        × (in_flight ≡ front ∷ []))

abbrev pub IsSynced : Client → Type 0
IsSynced c = WriteState c.connected c.outgoing_queue c.in_flight

-- What one step does.
pub record Stepped (c : Client) (sent : List (List ℕ)) (d : Client) : Type 0 where
  pub synced : IsSynced d
  pub extends : stream d ≡ stream c ++ sent

-- The stream before, when a first change leaves `b` and a second comes to `d`.
Stepped-trans :
    (c b d : Client) (sent : List (List ℕ))
    → stream b ≡ stream c ++ sent
    → Stepped b [] d
    → Stepped c sent d
Stepped-trans c b d sent e t = record {
  synced = t.synced;
  extends = t.extends ∙ append-nil (stream b) ∙ e;
}

-- A step that touches neither queue nor write, and leaves the client unconnected.
pub lost-Stepped :
    (c d : Client)
    → IsSynced c
    → d.connected ≡ false
    → d.outgoing_queue ≡ c.outgoing_queue
    → d.in_flight ≡ c.in_flight
    → d.written ≡ c.written
    → Stepped c [] d
unfolding stream
lost-Stepped c d v e q f w = record {
  synced = elim v [
    | inl (none, idle) ↦ inl (f ∙ none, inl e)
    | inr (front, rest, qe, fe) ↦ inr (front, rest, q ∙ qe, f ∙ fe)
  ];
  extends =
      ap (λ xs. xs ++ d.outgoing_queue) w
      ∙ ap (λ xs. c.written ++ xs) q
      ∙ sym (append-nil (c.written ++ c.outgoing_queue));
}

pub flush_queue-Stepped : (c : Client) → c.in_flight ≡ [] → Stepped c [] (flush_queue c)
unfolding flush_queue write_front stream
flush_queue-Stepped c f = go c.connected c.outgoing_queue refl refl
  where
    same : stream c ≡ stream c ++ []
    same = sym (append-nil (stream c))

    go :
        (connected : Bool) (queue : List (List ℕ))
        → c.connected ≡ connected
        → c.outgoing_queue ≡ queue
        → Stepped c [] (if connected then write_front c queue else c)
    go false queue e q = record { synced = inl (f, inl e); extends = same }
    go true [] e q = record { synced = inl (f, inr q); extends = same }
    go true (front ∷ rest) e q = record {
      synced = inr (front, rest, q, ap (λ xs. xs ++ (front ∷ [])) f);
      extends = same;
    }

pub send_packet_impl-Stepped :
    (c : Client) (bytes : List ℕ) → IsSynced c → Stepped c (bytes ∷ []) (send_packet_impl c bytes)
unfolding send_packet_impl flush_single
send_packet_impl-Stepped c bytes v = go c.connected c.outgoing_queue refl refl v
  where
    pushed : Client
    pushed = record c { outgoing_queue = c.outgoing_queue ++ (bytes ∷ []) }

    longer : stream pushed ≡ stream c ++ (bytes ∷ [])
    longer = unfold stream in sym (append_assoc c.written c.outgoing_queue (bytes ∷ []))

    busy :
        (front : List ℕ) (rest : List (List ℕ))
        → c.outgoing_queue ≡ front ∷ rest
        → c.in_flight ≡ front ∷ []
        → Stepped c (bytes ∷ []) pushed
    busy front rest q f = record {
      synced = inr (front, rest ++ (bytes ∷ []), ap (λ xs. xs ++ (bytes ∷ [])) q, f);
      extends = longer;
    }

    go :
        (connected : Bool) (queue : List (List ℕ))
        → c.connected ≡ connected
        → c.outgoing_queue ≡ queue
        → WriteState connected queue c.in_flight
        → Stepped c
            (bytes ∷ [])
            (if connected then flush_single pushed (queue ++ (bytes ∷ [])) else pushed)
    go false queue e q (inl (f, idle)) = record { synced = inl (f, inl e); extends = longer }
    go false queue e q (inr (front, rest, qe, f)) = busy front rest (q ∙ qe) f
    go true [] e q (inl (f, idle)) =
        Stepped-trans c pushed (flush_queue pushed) (bytes ∷ []) longer
          (flush_queue-Stepped pushed f)
    go true [] e q (inr (front, rest, qe, f)) = cc
    go true (x ∷ []) e q (inl (f, inl off)) = cc
    go true (x ∷ []) e q (inl (f, inr qe)) = cc
    go true (x ∷ []) e q (inr (front, rest, qe, f)) = busy front rest (q ∙ qe) f
    go true (x ∷ y ∷ xs) e q (inl (f, inl off)) = cc
    go true (x ∷ y ∷ xs) e q (inl (f, inr qe)) = cc
    go true (x ∷ y ∷ xs) e q (inr (front, rest, qe, f)) = busy front rest (q ∙ qe) f

-- The front of the queue has been written: it is taken off, and the next is written.
pub write_succeeded-Stepped :
    (c : Client) (bytes : List ℕ) (others : List (List ℕ))
    → IsSynced c
    → c.in_flight ≡ bytes ∷ others
    → (d : Client) × (write_succeeded c (bytes ∷ others) ≡ ok d) × Stepped c [] d
unfolding write_succeeded pop
write_succeeded-Stepped c bytes others (inl (f', idle)) f = absurd cc
write_succeeded-Stepped c bytes others (inr (front, rest, q, f')) f =
    let same : front ≡ bytes = cc in
    let last : others ≡ [] = cc in
    let ended : Client = record c { in_flight = others; written = c.written ++ (bytes ∷ []) } in
    let popped : Client = record ended { outgoing_queue = rest } in
    let kept : stream popped ≡ stream c ++ [] =
      unfold stream in
      append_assoc c.written (bytes ∷ []) rest
      ∙ ap (λ x. c.written ++ (x ∷ rest)) (sym same)
      ∙ ap (λ xs. c.written ++ xs) (sym q)
      ∙ sym (append-nil (c.written ++ c.outgoing_queue)) in
    (
      flush_queue popped,
      ap (λ xs. pop ended xs >>= λ e. ok (flush_queue e)) q,
      Stepped-trans c popped (flush_queue popped) [] kept (flush_queue-Stepped popped last),
    )

pub write_failed-Stepped :
    (c : Client) (in_flight : List (List ℕ))
    → IsSynced c
    → c.in_flight ≡ in_flight
    → Stepped c [] (write_failed c in_flight)
unfolding write_failed schedule_reconnect
write_failed-Stepped c [] v f = record { synced = v; extends = sym (append-nil (stream c)) }
write_failed-Stepped c (bytes ∷ others) (inl (f', idle)) f = absurd cc
write_failed-Stepped c (bytes ∷ others) (inr (front, rest, q, f')) f = record {
  synced = inl (cc, inl refl);
  extends = unfold stream in sym (append-nil (c.written ++ c.outgoing_queue));
}

pub connect_succeeded-Stepped : (c : Client) → c.in_flight ≡ [] → Stepped c [] (connect_succeeded c)
unfolding connect_succeeded start_heartbeat start_receive_loop stream
connect_succeeded-Stepped c f =
    let up : Client = record c {
      connects = c.connects - 1;
      connected = true;
      reads = c.reads ++ (header c.session_mode ∷ []);
    } in
    let t = flush_queue-Stepped up f in record { synced = t.synced; extends = t.extends }

pub read_failed-Stepped :
    (c : Client) (reads : List Reading) → IsSynced c → Stepped c [] (read_failed c reads)
unfolding read_failed schedule_reconnect
read_failed-Stepped c [] v = record { synced = v; extends = sym (append-nil (stream c)) }
read_failed-Stepped c (reading ∷ others) v = lost-Stepped c _ v refl refl refl refl
