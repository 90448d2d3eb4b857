-- ===== src/System/Sound.antt =====
-- src/server: through any course of events the set of sessions holds the open ones, and each serves.
use purity.Common.{
  ℕ, ◌+◌, ◌≤◌, ◌<◌, ◌^◌, ◌≡◌, refl, sym, ap, subst, none, ◌∙◌, inl, true, false, List, [], ◌∷◌,
  length, Outcome, ok, throw, fault, ◌>>=◌, arith,
}
use purity.Exception.{Exception}
use purity.MessageBuffer.{IsValid, contents, get_remaining_space}
use purity.MessageBuffer.Laws.{new-IsValid}
use purity.Session.Write.{write_ended}
use purity.Session.{Session, close, new, write_failed, run_posted, start}
use purity.Srp6.{Srp6}
use purity.World.{World, Env}
use purity.Server.{
  Server, update, erase, remove_session, close_session, close_all, accept_started, accept_succeeded,
}
use purity.Server
use purity.Server.Laws.{if_true, close-closed, accept_started-IsTracked}
use purity.Connection.{read_failed, read_succeeded}
use purity.Connection.Invariant.{IsServing, Serves, close-IsServing}
use purity.Connection.Serving.{read_succeeded-IsServing}
use purity.Connection.Defined.{Defined}
use purity.Connection.Leaves.{QueryDefined}
use purity.System.{System, Event, with_session, world_of, with_world, step}
use purity.System.Event.{
  accepted, refused, received, read_lost, runs, written, write_lost, cleaned, signalled,
}
use purity.System.Writes.{
  run_posted-Untouched, run_posted-IsServing, write_ended-Ends, Ends, write_failed-IsServing,
}
use purity.System.Stored.{
  serving, IsSound, put_session-IsSound, accept_started-Serving, stop-IsSound,
}

-- A server that has just been made, around any session with no bytes yet.
pub create-IsSound : (srp : Srp6) → IsSound (Server.create (new srp))
unfolding Server.create
create-IsSound srp = record {
  tracked = λ i. refl;
  sessions = λ i.
      let off : Session = record (new srp) { closed = true } in
      record {
        buffer = (new_buffer.0, omega arith);
        stage = unfold new in inl (refl, refl);
        writes = inl refl;
      };
}
  where
    new_buffer : IsValid (new srp).read_buffer × (contents (new srp).read_buffer ≡ [])
    new_buffer = unfold new in new-IsValid 4096 (omega arith)

-- What the world outside may do. A read brings no more bytes than there is room for, and the buffer of 2^64
-- bytes is never reached; the database and `remote_endpoint` give a result or throw.
abbrev pub Allowed : Server → Event → Type 0
Allowed v (received i env bytes) =
    let m = (v.store i).read_buffer in
    (length bytes ≤ get_remaining_space m) × (length m.storage + 512 < 2 ^ 64) × QueryDefined env
Allowed v (accepted endpoint srp) = Defined endpoint
Allowed v e = Unit {0}

-- What may leave a handler as an exception: what `remote_endpoint` throws for a new connection.
abbrev pub MayThrow : Event → Exception → Type 0
MayThrow (accepted endpoint srp) x = endpoint ≡ throw x
MayThrow e x = ⊥

-- What may be undefined: a write that ends well after its session has been closed.
abbrev pub MayFault : Server → Event → Type 0
MayFault v (written i) = (v.store i).closed ≡ true
MayFault v e = ⊥

abbrev pub Continues : Server → Event → Outcome Exception System → Type 0
Continues u e (ok v) = IsSound v.server
Continues u e (throw x) = MayThrow e x
Continues u e fault = MayFault u e

accepted-Continues :
    (v : System) (endpoint : Outcome Exception (Unit {0})) (srp : Srp6)
    → IsSound v.server
    → Defined endpoint
    → Continues v.server (accepted endpoint srp) (step v (accepted endpoint srp))
unfolding step accept_succeeded start
accepted-Continues v (ok u) srp h d = record {
  tracked = accept_started-IsTracked v.server srp h.tracked;
  sessions = λ j. accept_started-Serving v.server srp j (h.sessions j);
}
accepted-Continues v (throw x) srp h d = refl
accepted-Continues v fault srp h d = d

written-Continues :
    (v : System) (i : ℕ) (r : Outcome Exception Session)
    → IsSound v.server
    → Ends (length (v.server.store i).read_buffer.storage) (v.server.store i) r
    → Continues v.server (written i) (r >>= λ s'. ok (with_session v i s'))
unfolding with_session
written-Continues v i (ok s') h (left, serves) =
    put_session-IsSound v.server i s' h (serving _ s' serves) λ off. left.closed ∙ off
written-Continues v i (throw x) h ends = ends
written-Continues v i fault h ends = ends

closed-stays :
    (env : Env) (w w' : World) (bytes : List ℕ)
    → w.session.closed ≡ true
    → read_succeeded env w bytes ≡ ok w'
    → w'.session.closed ≡ true
unfolding read_succeeded
closed-stays env w w' bytes e done =
    let same : ok (record w { session = record w.session { reading = false } }) ≡ ok w' =
      sym (if_true w.session.closed _ _ e) ∙ done in
    ap (λ r. elim r [ ok u ↦ u.session.closed | _ ↦ true ]) (sym same) ∙ e

read-Continues :
    (v : System) (i : ℕ) (env : Env) (bytes : List ℕ) (r : Outcome Exception World)
    → IsSound v.server
    → read_succeeded env (world_of v i) bytes ≡ r
    → Serves (length (v.server.store i).read_buffer.storage + 512) r
    → Continues v.server (received i env bytes) (r >>= λ w. ok (with_world v i w))
unfolding with_world
read-Continues v i env bytes (ok w) h e serves =
    put_session-IsSound v.server i w.session h (serving _ w.session serves)
      λ off. closed-stays env (world_of v i) w bytes (unfold world_of in off) e
read-Continues v i env bytes (throw x) h e serves = serves
read-Continues v i env bytes fault h e serves = serves

-- Whatever event comes at a sound server, its handler runs to its end, with two exceptions: what
-- `remote_endpoint` throws for a new connection leaves the handler; and a write that ends well after its session
-- has been closed pops an empty queue, which is undefined. After any other handler the set of sessions holds
-- exactly those that are open, and every session serves on. A read brings what there is room for, and the database
-- and `remote_endpoint` give a result or throw.
pub step-Continues :
    (v : System) (e : Event)
    → IsSound v.server
    → Allowed v.server e
    → Continues v.server e (step v e)
unfolding step
step-Continues v (accepted endpoint srp) h allowed =
    unfold step in accepted-Continues v endpoint srp h allowed
step-Continues v refused h allowed =
    unfold Server.accept_failed in record { tracked = h.tracked; sessions = h.sessions }
step-Continues v (received i env bytes) h (room, small, query) =
    read-Continues v i env bytes (read_succeeded env (world_of v i) bytes) h refl (
      unfold world_of in
      read_succeeded-IsServing (length (v.server.store i).read_buffer.storage) env
        (record { session = v.server.store i; cache = v.cache }) bytes query (h.sessions i) room
        small)
step-Continues v (read_lost i) h allowed =
    unfold with_world world_of read_failed in
    let s = v.server.store i in
    let over : Session = record s { reading = false } in
    let idle : IsServing (length s.read_buffer.storage) over = record {
      buffer = (h.sessions i).buffer;
      stage = (h.sessions i).stage;
      writes = (h.sessions i).writes;
    } in
    put_session-IsSound v.server i (close over) h
      (serving _ (close over) (close-IsServing _ over idle)) λ off. close-closed over
step-Continues v (runs i) h allowed =
    unfold with_session in
    let s = v.server.store i in
    put_session-IsSound v.server i (run_posted s s.posted) h
      (serving _ (run_posted s s.posted) (run_posted-IsServing _ s (h.sessions i)))
      λ off. (run_posted-Untouched s s.posted).closed ∙ off
step-Continues v (written i) h allowed =
    let s = v.server.store i in
    written-Continues v i (write_ended s s.in_flight) h (write_ended-Ends _ s (h.sessions i))
step-Continues v (write_lost i) h allowed =
    unfold with_session in
    let s = v.server.store i in
    put_session-IsSound v.server i (write_failed s) h
      (serving _ (write_failed s) (write_failed-IsServing _ s (h.sessions i)))
      λ off. unfold write_failed in close-closed (record s { in_flight = none })
step-Continues v (cleaned now) h allowed = h
step-Continues v signalled h allowed = stop-IsSound v.server h

-- A course of events, each allowed when it comes.
pub data Steps : System → List Event → System → Type 0 where
  done : (v : System) → Steps v [] v
  more :
      {v v1 v2 : System} {es : List Event} (e : Event)
      → Allowed v.server e
      → step v e ≡ ok v1
      → Steps v1 es v2
      → Steps v (e ∷ es) v2

-- Through any course of accepted connections, reads of any bytes, lost reads, tasks, writes, lost writes,
-- cleanups of the cache and signals, at any of its sessions in any order, each of whose handlers runs to its end, a
-- sound server stays sound.
pub Steps-IsSound :
    (v v' : System) (es : List Event) → Steps v es v' → IsSound v.server → IsSound v'.server
Steps-IsSound v v' es (done u) h = h
Steps-IsSound v v' es (more {v1 = v1} {es = rest} e allowed stepped later) h =
    Steps-IsSound v1 v' rest later
      (subst (Continues v.server e) stepped (step-Continues v e h allowed))
