-- ===== src/System.antt =====
-- src/server: the whole server, its sessions and the cache of accounts that they share.
-- An event is what the executor runs a handler for; one thread runs it here, so the events are in
-- sequence. A handler works on its session and on the cache, which are put back when it ends.
pub mod Writes
pub mod Stored
pub mod Sound
pub mod Cached
pub mod Answered
use purity.Common.{ℕ, Bool, not, ◌&&◌, List, Outcome, ok, if◌then◌else◌, ◌>>=◌}
use purity.Exception.{Exception}
use purity.AccountCache.{AccountCache, cleanup_expired_entries}
use purity.Session.{Session, run_posted, write_failed}
use purity.Session.Write.{write_ended}
use purity.Srp6.{Srp6}
use purity.World.{World, Env}
use purity.Server.{Server, update, remove_session, accept_failed, accept_succeeded, stop}
use purity.Connection.{read_failed, read_succeeded}

pub record System : Type 0 where
  pub server : Server
  pub cache : AccountCache

-- A connection comes in, with what the socket says of its other end, or the accept fails; at the session of a number a read ends, with bytes or an
-- error, a posted task is run, or the outstanding write ends, with its bytes written or an error; the
-- timer of the cache runs out; a signal comes.
pub data Event : Type 0 where
  accepted : Outcome Exception (Unit {0}) → Srp6 → Event
  refused : Event
  received : ℕ → Env → List ℕ → Event
  read_lost runs written write_lost : ℕ → Event
  cleaned : ℕ → Event
  signalled : Event

-- The session as its handler leaves it. If the handler has closed it, `close` has called
-- `remove_session`.
unfoldable pub put_session : Server → ℕ → Session → Server
put_session v i s =
    let v' = record v { store = update v.store i s } in
    if not (v.store i).closed && s.closed then remove_session v' i else v'

unfoldable pub with_session : System → ℕ → Session → System
with_session v i s = record v { server = put_session v.server i s }

-- What the handlers of a session work on, and what they leave.
unfoldable pub world_of : System → ℕ → World
world_of v i = record { session = v.server.store i; cache = v.cache }

unfoldable pub with_world : System → ℕ → World → System
with_world v i w = record { server = put_session v.server i w.session; cache = w.cache }

unfoldable pub step : System → Event → Outcome Exception System
step v (accepted endpoint srp) =
    accept_succeeded v.server endpoint srp >>= λ server. ok (record v { server = server })
step v refused = ok (record v { server = accept_failed v.server })
step v (received i env bytes) =
    read_succeeded env (world_of v i) bytes >>= λ w. ok (with_world v i w)
step v (read_lost i) = ok (with_world v i (read_failed (world_of v i)))
step v (runs i) = let s = v.server.store i in ok (with_session v i (run_posted s s.posted))
step v (written i) =
    let s = v.server.store i in write_ended s s.in_flight >>= λ s'. ok (with_session v i s')
step v (write_lost i) = ok (with_session v i (write_failed (v.server.store i)))
step v (cleaned now) = ok (record v { cache = cleanup_expired_entries v.cache now })
step v signalled = ok (record v { server = stop v.server })
