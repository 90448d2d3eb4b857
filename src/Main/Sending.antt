-- ===== src/Main/Sending.antt =====
-- src/Client/Client.cpp: what sending leaves alone in the client.
use purity.Common.{ℕ, ◌≡◌, refl, ◌∙◌, Bool, true, false, List, [], ◌∷◌, ◌++◌, if◌then◌else◌}
use purity.Packet.Work.{build_packet}
use purity.Session.{SessionMode, auth_session, work_session}
use purity.WorkStage.Message.{message}
use purity.Client.{
  Client, write_front, flush_queue, flush_single, send_packet_impl, send_work_packet, send_message,
  message_in_mode,
}

-- What sending leaves alone.
pub record Same (c d : Client) : Type 0 where
  pub connected : d.connected ≡ c.connected
  pub socket_open : d.socket_open ≡ c.socket_open
  pub disconnects : d.disconnects ≡ c.disconnects
  pub session_mode : d.session_mode ≡ c.session_mode

pub unchanged : (c : Client) → Same c c
unchanged c = record {
  connected = refl;
  socket_open = refl;
  disconnects = refl;
  session_mode = refl;
}

pub Same-trans : (a b c : Client) → Same a b → Same b c → Same a c
Same-trans a b c h k = record {
  connected = k.connected ∙ h.connected;
  socket_open = k.socket_open ∙ h.socket_open;
  disconnects = k.disconnects ∙ h.disconnects;
  session_mode = k.session_mode ∙ h.session_mode;
}

write_front-Same : (c : Client) (queue : List (List ℕ)) → Same c (write_front c queue)
unfolding write_front
write_front-Same c [] = unchanged c
write_front-Same c (front ∷ rest) = record {
  connected = refl;
  socket_open = refl;
  disconnects = refl;
  session_mode = refl;
}

if-Same : (b : Bool) (c x y : Client) → Same c x → Same c y → Same c (if b then x else y)
if-Same true c x y h k = h
if-Same false c x y h k = k

flush_single-Same : (c : Client) (queue : List (List ℕ)) → Same c (flush_single c queue)
unfolding flush_single flush_queue
flush_single-Same c [] = unchanged c
flush_single-Same c (only ∷ []) =
    if-Same c.connected c (write_front c c.outgoing_queue) c (write_front-Same c c.outgoing_queue)
      (unchanged c)
flush_single-Same c (front ∷ next ∷ rest) = unchanged c

pub send_packet_impl-Same : (c : Client) (bytes : List ℕ) → Same c (send_packet_impl c bytes)
unfolding send_packet_impl
send_packet_impl-Same c bytes =
    let queue = c.outgoing_queue ++ (bytes ∷ []) in
    let pushed : Client = record c { outgoing_queue = queue } in
    let same : Same c pushed = record {
      connected = refl;
      socket_open = refl;
      disconnects = refl;
      session_mode = refl;
    } in
    if-Same c.connected c (flush_single pushed queue) pushed
      (Same-trans c pushed (flush_single pushed queue) same (flush_single-Same pushed queue)) same

pub send_message-Same : (c : Client) (line : List ℕ) → Same c (send_message c line)
unfolding send_message message_in_mode send_work_packet
send_message-Same c line = go c.session_mode
  where
    go : (mode : SessionMode) → Same c (message_in_mode c mode line)
    go auth_session = unchanged c
    go work_session = send_packet_impl-Same c (build_packet (message line))
