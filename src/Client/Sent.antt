-- ===== src/Client/Sent.antt =====
-- src/Client/Client.cpp: what `send_packet_impl` changes.
use purity.Common.{ℕ, ◌≡◌, refl, Bool, true, false, List, [], ◌∷◌, ◌++◌, if◌then◌else◌}
use purity.Client.{Client, send_packet_impl, flush_queue, flush_single, write_front}

-- What `send_packet_impl` leaves alone, and the queue.
pub record Sent (c : Client) (bytes : List ℕ) (c' : Client) : Type 0 where
  pub queue : c'.outgoing_queue ≡ c.outgoing_queue ++ (bytes ∷ [])
  pub srp : c'.srp ≡ c.srp
  pub mode : c'.session_mode ≡ c.session_mode

if-Sent :
    (c : Client) (bytes : List ℕ) (b : Bool) (x y : Client)
    → Sent c bytes x
    → Sent c bytes y
    → Sent c bytes (if b then x else y)
if-Sent c bytes true x y h k = h
if-Sent c bytes false x y h k = k

flush_queue-Sent :
    (c : Client) (bytes : List ℕ) (d : Client) → Sent c bytes d → Sent c bytes (flush_queue d)
unfolding flush_queue
flush_queue-Sent c bytes d h =
    if-Sent c bytes d.connected (write_front d d.outgoing_queue) d (front d.outgoing_queue) h
  where
    front : (queue : List (List ℕ)) → Sent c bytes (write_front d queue)
    front [] = unfold write_front in h
    front (first ∷ rest) =
        unfold write_front in record { queue = h.queue; srp = h.srp; mode = h.mode }

flush_single-Sent :
    (c : Client) (bytes : List ℕ) (d : Client) (queue : List (List ℕ))
    → Sent c bytes d
    → Sent c bytes (flush_single d queue)
unfolding flush_single
flush_single-Sent c bytes d [] h = h
flush_single-Sent c bytes d (only ∷ []) h = flush_queue-Sent c bytes d h
flush_single-Sent c bytes d (first ∷ next ∷ rest) h = h

pub send_packet_impl-Sent : (c : Client) (bytes : List ℕ) → Sent c bytes (send_packet_impl c bytes)
unfolding send_packet_impl
send_packet_impl-Sent c bytes =
    let pushed : Client = record c { outgoing_queue = c.outgoing_queue ++ (bytes ∷ []) } in
    let sent : Sent c bytes pushed = record { queue = refl; srp = refl; mode = refl } in
    if-Sent c bytes c.connected (flush_single pushed pushed.outgoing_queue) pushed
      (flush_single-Sent c bytes pushed pushed.outgoing_queue sent) sent
