-- ===== src/Server.antt =====
-- src/server/Server.cpp: the sessions that the server holds, and how it stops.
-- A `shared_ptr` to a session is a number, and the store says which session it points to; a number
-- that is not used yet points to a closed session. `sessions_` is the list of the numbers held. The
-- mutex makes every use of it one step.
pub mod Laws
pub mod Threads
use purity.Common.{
  ℕ, ◌+◌, Bool, true, false, not, List, [], ◌∷◌, ◌==◌, if◌then◌else◌, Outcome, ok, ◌>>=◌,
}
use purity.Exception.{Exception}
use purity.Session.{Session, new, start}
use purity.Session
use purity.Srp6.{Srp6}

-- `accepting` says that an `async_accept` is outstanding, `timing` that the wait of the cache's cleanup
-- timer is, `running` that the executor has not been stopped, `database` that the pool is up.
pub record Server : Type 0 where
  pub store : ℕ → Session
  pub next : ℕ
  pub sessions : List ℕ
  pub acceptor_open : Bool
  pub accepting : Bool
  pub timing : Bool
  pub running : Bool
  pub database : Bool

unfoldable pub update : (ℕ → Session) → ℕ → Session → ℕ → Session
update store i s j = if i == j then s else store j

-- `sessions_.erase`
unfoldable pub erase : ℕ → List ℕ → List ℕ
erase i [] = []
erase i (j ∷ js) = let rest = erase i js in if i == j then rest else j ∷ rest

unfoldable pub remove_session : Server → ℕ → Server
remove_session v i = record v { sessions = erase i v.sessions }

-- `session->close()`, with the call of `remove_session` that it makes unless it was closed before.
unfoldable pub close_session : Server → ℕ → Server
close_session v i =
    let s = v.store i in
    if s.closed
    then v
    else remove_session (record v { store = update v.store i (Session.close s) }) i

-- The constructor, with `AccountCache::start`. The store is all closed sessions.
unfoldable pub create : Session → Server
create s = record {
  store = λ i. record s { closed = true };
  next = 0;
  sessions = [];
  acceptor_open = true;
  accepting = false;
  timing = true;
  running = true;
  database = true;
}

unfoldable pub start_accept : Server → Server
start_accept v = if v.acceptor_open then record v { accepting = true } else v

-- The handler of `async_accept`, with an error.
unfoldable pub accept_failed : Server → Server
accept_failed v = record v { accepting = false }

-- The new session in the set, as `start` has left it, and the next accept.
unfoldable pub accept_started : Server → Session → Server
accept_started v session = start_accept (record v {
  accepting = false;
  store = update v.store v.next session;
  next = v.next + 1;
  sessions = v.next ∷ v.sessions;
})

-- The handler of `async_accept`, with a socket. `srp` is the object of the new session's account, `endpoint` what
-- the socket says of its other end. What `start` throws leaves the handler, and with it the thread's `run`, which
-- ends the program.
unfoldable pub accept_succeeded :
    Server → Outcome Exception (Unit {0}) → Srp6 → Outcome Exception Server
accept_succeeded v endpoint srp =
    start endpoint (new srp) >>= λ session. ok (accept_started v session)

-- The loop of `stop` over its copy of the set.
unfoldable pub close_all : Server → List ℕ → Server
close_all v [] = v
close_all v (i ∷ is) = close_all (close_session v i) is

unfoldable pub stop : Server → Server
stop v =
    let quiet = record v { timing = false; acceptor_open = false } in
    let closed = close_all quiet quiet.sessions in
    record closed { sessions = []; running = false; database = false }
