-- ===== src/Server/Threads.antt =====
-- src/server/Server.cpp: `stop` in its parts, between which the handler of `async_accept` can run on another
-- thread of the executor.
use purity.Common.{◌+◌, ◌≡◌, refl, ap, ◌∙◌, Bool, true, false, [], ◌∷◌, ◌==◌, if◌then◌else◌, arith}
use purity.Session.{new, start_reading}
use purity.Srp6.{Srp6}
use purity.Server.{Server, update, start_accept, accept_started, close_all, stop}
use purity.Server.Laws.{mem, if_true, start_reading-opened, close_all-closed}

-- Up to the copy of the set.
unfoldable pub stop_begin : Server → Server
stop_begin v = record v { timing = false; acceptor_open = false }

-- From the clearing of the set on.
unfoldable pub stop_end : Server → Server
stop_end v = record v { sessions = []; running = false; database = false }

-- With nothing between, the parts are `stop`.
pub stop-parts : (v : Server) → stop v ≡ stop_end (close_all (stop_begin v) (stop_begin v).sessions)
unfolding stop stop_begin stop_end
stop-parts v = refl

accepted-opened :
    (v : Server) (srp : Srp6)
    → ((accept_started v (start_reading (new srp))).store v.next).closed ≡ false
unfolding accept_started start_accept update
accepted-opened v srp = go v.acceptor_open
  where
    t : Server
    t = record v {
      accepting = false;
      store = update v.store v.next (start_reading (new srp));
      next = v.next + 1;
      sessions = v.next ∷ v.sessions;
    }

    own : (v.next == v.next) ≡ true
    own = ground arith

    opened : (t.store v.next).closed ≡ false
    opened =
        ap (λ s. s.closed)
          (if_true (v.next == v.next) (start_reading (new srp)) (v.store v.next) own)
        ∙ start_reading-opened srp

    go : (b : Bool) → ((if b then record t { accepting = true } else t).store v.next).closed ≡ false
    go true = opened
    go false = opened

-- A connection that is accepted after `stop` has copied the set is left open: no session of the copy is it,
-- and the clearing takes it out of the set.
pub accepted_while_stopping :
    (v : Server) (srp : Srp6)
    → mem v.next v.sessions ≡ false
    → let left =
        stop_end (close_all (accept_started (stop_begin v) (start_reading (new srp))) v.sessions) in
      ((left.store v.next).closed ≡ false) × (left.sessions ≡ [])
unfolding stop_begin stop_end
accepted_while_stopping v srp unused =
    let quiet : Server = record v { timing = false; acceptor_open = false } in
    (
      close_all-closed (accept_started quiet (start_reading (new srp))) v.sessions v.next
          ∙ rw unused (accepted-opened quiet srp),
      refl,
    )
