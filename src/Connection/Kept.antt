-- ===== src/Connection/Kept.antt =====
-- src/server/SessionMode: what the handlers of either stage leave alone in a session.
use purity.Common.{
  ℕ, ◌≡◌, refl, sym, ap, ◌∙◌, ◌⊎◌, inl, Bool, true, false, List, [], ◌∷◌, ◌++◌, append_assoc,
  append-nil, Outcome, ok, throw, fault, if◌then◌else◌,
}
use purity.Exception.{Exception}
use purity.Packet.{Packet}
use purity.Session.{Session, AnyPacket, auth_packet, work_session, send_packet}
use purity.Srp6.{Srp6}
use purity.World.{World, with_srp, send_packet_as}
use purity.AuthStage.Handlers.{send_failure}

-- A handler posts packets and may log the client in. It touches no buffer, queue or flag.
pub record Kept (s s' : Session) : Type 0 where
  pub read_buffer : s'.read_buffer ≡ s.read_buffer
  pub write_queue : s'.write_queue ≡ s.write_queue
  pub writing : s'.writing ≡ s.writing
  pub closed : s'.closed ≡ s.closed
  pub reading : s'.reading ≡ s.reading
  pub in_flight : s'.in_flight ≡ s.in_flight
  pub sent : s'.sent ≡ s.sent
  pub posts : (packets : List AnyPacket) × (s'.posted ≡ s.posted ++ packets)
  pub stage :
      ((s'.session_mode ≡ s.session_mode) × (s'.account_info.is_auth ≡ s.account_info.is_auth))
      ⊎ ((s'.session_mode ≡ work_session) × (s'.account_info.is_auth ≡ true))

-- What a handler that returns leaves of the session. Its behaviour is defined.
abbrev pub Leaves : Session → Outcome Exception World → Type 0
Leaves s (ok w) = Kept s w.session
Leaves s (throw e) = Unit
Leaves s fault = ⊥

pub Kept-refl : (s : Session) → Kept s s
Kept-refl s = record {
  read_buffer = refl;
  write_queue = refl;
  writing = refl;
  closed = refl;
  reading = refl;
  in_flight = refl;
  sent = refl;
  posts = ([], sym (append-nil s.posted));
  stage = inl (refl, refl);
}

-- Sending a packet changes nothing but the tasks.
send_packet-Kept : (s t : Session) (p : AnyPacket) → Kept s t → Kept s (send_packet t p)
unfolding send_packet
send_packet-Kept s t p k = go t.closed refl
  where
    go :
        (b : Bool)
        → t.closed ≡ b
        → Kept s (if b then t else record t { posted = t.posted ++ (p ∷ []) })
    go true e = k
    go false e = record {
      read_buffer = k.read_buffer;
      write_queue = k.write_queue;
      writing = k.writing;
      closed = k.closed;
      reading = k.reading;
      in_flight = k.in_flight;
      sent = k.sent;
      posts = (
        k.posts.0 ++ (p ∷ []),
        ap (λ xs. xs ++ (p ∷ [])) k.posts.1 ∙ append_assoc s.posted k.posts.0 (p ∷ []),
      );
      stage = k.stage;
    }

pub send-Leaves :
    (s : Session) (w : World) (t : Packet → AnyPacket) (p : Packet)
    → Kept s w.session
    → Kept s (send_packet_as t w p).session
unfolding send_packet_as
send-Leaves s w t p k = send_packet-Kept s w.session (t p) k

-- The object of the account is no field of `Kept`.
pub with_srp-Kept :
    (s : Session) (w : World) (srp : Srp6) → Kept s w.session → Kept s (with_srp w srp).session
unfolding with_srp
with_srp-Kept s w srp k = record {
  read_buffer = k.read_buffer;
  write_queue = k.write_queue;
  writing = k.writing;
  closed = k.closed;
  reading = k.reading;
  in_flight = k.in_flight;
  sent = k.sent;
  posts = k.posts;
  stage = k.stage;
}

pub if-Leaves :
    (s : Session) (b : Bool) (x y : Outcome Exception World)
    → Leaves s x
    → Leaves s y
    → Leaves s (if b then x else y)
if-Leaves s true x y h k = h
if-Leaves s false x y h k = k

pub failure-Leaves :
    (s : Session) (w : World) (error : ℕ) → Kept s w.session → Kept s (send_failure w error).session
unfolding send_failure
failure-Leaves s w error k = send-Leaves s w auth_packet _ k
