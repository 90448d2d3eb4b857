-- ===== src/Main/ClientMain.antt =====
-- src/main_client.cpp
-- `timing` says that the wait of `timer1` is outstanding, `running` that the executor has not been stopped.
-- What one thread types and what the executor runs are in sequence here.
use purity.Common.{ℕ, Bool, true, false, List, [], ◌∷◌, Outcome, ok, ◌>>=◌, if◌then◌else◌}
use purity.Exception.{Exception}
use purity.OpenSsl.{OpenSsl}
use purity.Client.{Client, create, connect, disconnect, send_message, handle_logon_challenge}

pub record Program : Type 0 where
  pub client : Client
  pub timing : Bool
  pub running : Bool

-- Up to `io.run()`. There is no `catch`.
unfoldable pub main : OpenSsl → Bool → Outcome Exception Program
main ssl resolved =
    connect resolved (create ssl) >>= λ c. ok (record { client = c; timing = true; running = true })

-- A line is typed; the wait of the timer is over; a signal comes; or the executor runs a handler of the
-- client, which is given by what it does.
pub data Event : Type 0 where
  typed : List ℕ → Event
  timer_over signalled : Event
  handler : (Client → Outcome Exception Client) → Event

-- "1", the name and the password.
abbrev pub one : List ℕ
one = 49 ∷ []

-- The executor runs nothing once it is stopped; the thread that reads lines goes on.
unfoldable pub on_executor : Program → Outcome Exception Program → Outcome Exception Program
on_executor p run = if p.running then run else ok p

unfoldable pub type_line : Program → List ℕ → Program
type_line p line = record p { client = send_message p.client line }

unfoldable pub start_auth : OpenSsl → Program → Program
start_auth ssl p = record p { timing = false; client = handle_logon_challenge ssl p.client one one }

unfoldable pub end : Program → Program
end p = record p { client = disconnect p.client; running = false }

unfoldable pub step : OpenSsl → Program → Event → Outcome Exception Program
step ssl p (typed line) = ok (type_line p line)
step ssl p timer_over = on_executor p (ok (start_auth ssl p))
step ssl p signalled = on_executor p (ok (end p))
step ssl p (handler run) = on_executor p (run p.client >>= λ c. ok (record p { client = c }))

unfoldable pub steps : OpenSsl → Program → List Event → Outcome Exception Program
steps ssl p [] = ok p
steps ssl p (e ∷ es) = step ssl p e >>= λ p'. steps ssl p' es

-- `while (std::getline(std::cin, line))`
unfoldable pub type_lines : Client → List (List ℕ) → Client
type_lines c [] = c
type_lines c (line ∷ lines) = type_lines (send_message c line) lines
