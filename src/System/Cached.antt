-- ===== src/System/Cached.antt =====
-- src/server: what the sessions share in the cache is what the database said.
use purity.Common.{[], ◌∷◌, ◌≡◌, ℕ, subst, All, List, Outcome, ok, throw, fault, ◌>>=◌}
use purity.Exception.{Exception}
use purity.AccountCache.{cleanup_expired_entries}
use purity.Session.{Session}
use purity.Session.Write.{write_ended}
use purity.World.{World}
use purity.Connection.{read_failed, read_succeeded}
use purity.System.{System, Event, with_session, with_world, world_of, step}
use purity.Server.{accept_succeeded}
use purity.Session.{start}
use purity.Srp6.{Srp6}
use purity.System.Event.{
  accepted, refused, received, read_lost, runs, written, write_lost, cleaned, signalled,
}
use purity.AccountCache.Recorded.{Holds, sweep-All}
use purity.Connection.Cached.{Says, HoldsAfter}
use purity.Connection.Cached.Read.{read_succeeded-Holds}

-- A course of events.
pub data Runs : System → List Event → System → Type 0 where
  ended : (v : System) → Runs v [] v
  then_comes :
      {v v1 v2 : System} {es : List Event} (e : Event)
      → step v e ≡ ok v1
      → Runs v1 es v2
      → Runs v (e ∷ es) v2

module _ (Recorded : List ℕ → List ℕ → List ℕ → Type 0) where
  abbrev HoldsStep : Outcome Exception System → Type 0
  HoldsStep (ok v) = Holds Recorded v.cache
  HoldsStep (throw e) = Unit {0}
  HoldsStep fault = Unit {0}

  -- Every account that the database gives while the event is handled is recorded.
  abbrev pub SaysEvent : Event → Type 0
  SaysEvent (received i env bytes) = Says Recorded env.db
  SaysEvent e = Unit {0}

  world-Holds :
      (v : System) (i : ℕ) (r : Outcome Exception World)
      → HoldsAfter Recorded r
      → HoldsStep (r >>= λ w. ok (with_world v i w))
  unfolding with_world
  world-Holds v i (ok w) h = h
  world-Holds v i (throw e) h = tt
  world-Holds v i fault h = tt

  session-Holds :
      (v : System) (i : ℕ) (r : Outcome Exception Session)
      → Holds Recorded v.cache
      → HoldsStep (r >>= λ s. ok (with_session v i s))
  unfolding with_session
  session-Holds v i (ok s) h = h
  session-Holds v i (throw e) h = tt
  session-Holds v i fault h = tt

  accepted-Holds :
      (v : System) (endpoint : Outcome Exception (Unit {0})) (srp : Srp6)
      → Holds Recorded v.cache
      → HoldsStep (step v (accepted endpoint srp))
  unfolding step accept_succeeded start
  accepted-Holds v (ok u) srp h = h
  accepted-Holds v (throw x) srp h = tt
  accepted-Holds v fault srp h = tt

  step-Holds :
      (v : System) (e : Event) → SaysEvent e → Holds Recorded v.cache → HoldsStep (step v e)
  unfolding step
  step-Holds v (accepted endpoint srp) says h = unfold step in accepted-Holds v endpoint srp h
  step-Holds v refused says h = h
  step-Holds v (received i env bytes) says h =
      world-Holds v i (read_succeeded env (world_of v i) bytes)
        (read_succeeded-Holds Recorded env (world_of v i) bytes says (unfold world_of in h))
  step-Holds v (read_lost i) says h = unfold with_world world_of read_failed in h
  step-Holds v (runs i) says h = session-Holds v i (ok _) h
  step-Holds v (written i) says h =
      session-Holds v i (write_ended (v.server.store i) (v.server.store i).in_flight) h
  step-Holds v (write_lost i) says h = session-Holds v i (ok _) h
  step-Holds v (cleaned now) says h =
      unfold cleanup_expired_entries in sweep-All Recorded v.cache.ttl now v.cache.cache h
  step-Holds v signalled says h = h

  -- If all that the database ever says of an account is recorded, then through any course of events, at any
  -- of the sessions, every entry of the cache that they share is recorded under its own name: nothing that
  -- clients send puts another salt or verifier there, nor one account's under the name of another.
  pub Steps-Holds :
      (v v' : System) (es : List Event)
      → Runs v es v'
      → All SaysEvent es
      → Holds Recorded v.cache
      → Holds Recorded v'.cache
  Steps-Holds v v' es (ended u) says h = h
  Steps-Holds v v' es (then_comes {v1 = v1} {es = rest} e stepped later) says h =
      Steps-Holds v1 v' rest later says.1 (subst HoldsStep stepped (step-Holds v e says.0 h))
