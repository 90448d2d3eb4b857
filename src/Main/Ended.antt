-- ===== src/Main/Ended.antt =====
-- src/main_client.cpp: what becomes of the client once a signal has come.
use purity.Common.{◌+◌, ◌≡◌, refl, false, List, [], ◌∷◌, ok}
use purity.OpenSsl.{OpenSsl}
use purity.Client.{send_message, disconnect}
use purity.Main.ClientMain.{
  Program, Event, typed, timer_over, signalled, handler, type_line, on_executor, end, step, steps,
}
use purity.Main.Sending.{Same, unchanged, Same-trans, send_message-Same}

-- After the signal.
record Ended (p q : Program) : Type 0 where
  running : q.running ≡ false
  same : Same p.client q.client

step-Ended :
    (ssl : OpenSsl) (p q : Program) (e : Event)
    → Ended p q
    → (r : Program) × (step ssl q e ≡ ok r) × Ended p r
unfolding step on_executor type_line
step-Ended ssl p q (typed line) h = (
  type_line q line,
  refl,
  record {
    running = h.running;
    same =
        Same-trans p.client q.client (send_message q.client line) h.same
          (send_message-Same q.client line);
  },
)
step-Ended ssl p q timer_over h = (q, rw h.running refl, h)
step-Ended ssl p q signalled h = (q, rw h.running refl, h)
step-Ended ssl p q (handler run) h = (q, rw h.running refl, h)

steps-Ended :
    (ssl : OpenSsl) (p q : Program) (es : List Event)
    → Ended p q
    → (r : Program) × (steps ssl q es ≡ ok r) × Ended p r
unfolding steps
steps-Ended ssl p q [] h = (q, refl, h)
steps-Ended ssl p q (e ∷ es) h =
    let (r, now, k) = step-Ended ssl p q e h in
    let (s, later, m) = steps-Ended ssl p r es k in (s, rw now later, m)

-- Whatever is typed, runs out or arrives after the signal, the task that `disconnect` has posted is never
-- run: it stays posted, and the socket and `connected` stay as they were before the signal.
pub end-pending :
    (ssl : OpenSsl) (p : Program) (es : List Event)
    → (q : Program) × (steps ssl (end p) es ≡ ok q)
      × (q.client.disconnects ≡ p.client.disconnects + 1)
      × (q.client.socket_open ≡ p.client.socket_open)
      × (q.client.connected ≡ p.client.connected)
unfolding end disconnect
end-pending ssl p es =
    let (q, run, h) =
      steps-Ended ssl (end p) (end p) es
        (record { running = refl; same = unchanged (end p).client }) in
    (q, run, h.same.disconnects, h.same.socket_open, h.same.connected)
