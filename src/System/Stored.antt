-- ===== src/System/Stored.antt =====
-- src/server/Server.cpp: what putting a session back, accepting and stopping keep of the set of sessions.
use purity.Common.{
  ℕ, ◌+◌, ◌≡◌, ◌⊎◌, refl, sym, ap, ◌∙◌, inl, inr, Bool, true, false, not, ◌&&◌, List, [], ◌∷◌, ◌==◌,
  ==_iff, length, if◌then◌else◌, Bool-cases, arith,
}
use purity.Session.{Session, close, new, start_reading}
use purity.Srp6.{Srp6}
use purity.Server.{Server, update, erase, remove_session, close_session, close_all, accept_started}
use purity.Server
use purity.Server.Laws.{IsTracked, mem, mem-erase, close_session_cases, without, stop_lem}
use purity.Connection.Invariant.{IsServing, close-IsServing, start_reading-IsServing}
use purity.System.{put_session}

-- `IsServing`, for the storage that the buffer has.
abbrev pub Serving : Session → Type 0
Serving s = IsServing (length s.read_buffer.storage) s

pub serving : (cap : ℕ) (s : Session) → IsServing cap s → Serving s
serving cap s v = record { buffer = (v.buffer.0, omega arith); stage = v.stage; writes = v.writes }

pub record IsSound (v : Server) : Type 0 where
  pub tracked : IsTracked v
  pub sessions : (i : ℕ) → Serving (v.store i)

-- What is put back was either closed by its handler, or is as open as it was.
put_session_cases :
    (v : Server) (i : ℕ) (s : Session)
    → ((v.store i).closed ≡ true → s.closed ≡ true)
    → ((s.closed ≡ true)
        × (put_session v i s ≡ remove_session (record v { store = update v.store i s }) i))
      ⊎ ((s.closed ≡ (v.store i).closed)
          × (put_session v i s ≡ record v { store = update v.store i s }))
unfolding put_session
put_session_cases v i s stays = go (v.store i).closed s.closed refl refl
  where
    stored : Server
    stored = record v { store = update v.store i s }

    go :
        (a b : Bool)
        → (v.store i).closed ≡ a
        → s.closed ≡ b
        → ((b ≡ true)
            × ((if not a && b then remove_session stored i else stored) ≡ remove_session stored i))
          ⊎ ((b ≡ a) × ((if not a && b then remove_session stored i else stored) ≡ stored))
    go true true was is = inr (refl, refl)
    go true false was is = absurd (cc (stays was))
    go false true was is = inl (refl, refl)
    go false false was is = inr (refl, refl)

updated :
    (v : Server) (i j : ℕ) (s : Session)
    → Serving s
    → Serving (v.store j)
    → Serving (update v.store i s j)
unfolding update
updated v i j s h k = go (i == j)
  where
    go : (b : Bool) → Serving (if b then s else v.store j)
    go true = h
    go false = k

pub put_session-IsSound :
    (v : Server) (i : ℕ) (s : Session)
    → IsSound v
    → Serving s
    → ((v.store i).closed ≡ true → s.closed ≡ true)
    → IsSound (put_session v i s)
put_session-IsSound v i s h serves stays = elim (put_session_cases v i s stays) [
  | inl (off, gone) ↦ rw gone (
      unfold remove_session in
      record {
        tracked = λ j. mem-erase i j v.sessions ∙ (unfold update in removed off j);
        sessions = λ j. updated v i j s serves (h.sessions j);
      })
  | inr (same, stored) ↦ rw stored record {
    tracked = λ j. unfold update in kept same j;
    sessions = λ j. updated v i j s serves (h.sessions j);
  }
]
  where
    removed :
        s.closed ≡ true
        → (j : ℕ)
        → (if i == j then false else mem j v.sessions)
          ≡ not (if i == j then s else v.store j).closed
    removed off j = elim (Bool-cases (i == j)) [
      | inl e ↦ rw (e, off) refl
      | inr e ↦ rw e (h.tracked j)
    ]

    kept :
        s.closed ≡ (v.store i).closed
        → (j : ℕ) → mem j v.sessions ≡ not (if i == j then s else v.store j).closed
    kept same j = elim (Bool-cases (i == j)) [
      | inl e ↦ rw e (
          h.tracked j
          ∙ ap (λ k. not (v.store k).closed) (sym ((==_iff i j).0 e))
          ∙ ap not (sym same))
      | inr e ↦ rw e (h.tracked j)
    ]

-- Accepting starts a session under a number of its own.
pub accept_started-Serving :
    (v : Server) (srp : Srp6) (j : ℕ)
    → Serving (v.store j)
    → Serving ((accept_started v (start_reading (new srp))).store j)
unfolding accept_started Server.start_accept
accept_started-Serving v srp j h = go v.acceptor_open
  where
    t : Server
    t = record v {
      accepting = false;
      store = update v.store v.next (start_reading (new srp));
      next = v.next + 1;
      sessions = v.next ∷ v.sessions;
    }

    go : (b : Bool) → Serving ((if b then record t { accepting = true } else t).store j)
    go true =
        updated v v.next j (start_reading (new srp)) (serving 4608 _ (start_reading-IsServing srp))
          h
    go false =
        updated v v.next j (start_reading (new srp)) (serving 4608 _ (start_reading-IsServing srp))
          h

close_session-Serving :
    (v : Server) (i j : ℕ) → ((k : ℕ) → Serving (v.store k)) → Serving ((close_session v i).store j)
close_session-Serving v i j h = elim (close_session_cases v i) [
  | inl (e, same) ↦ rw same (h j)
  | inr (e, gone) ↦ rw gone (
      unfold without remove_session in
      updated v i j (close (v.store i))
        (serving _ (close (v.store i)) (close-IsServing _ (v.store i) (h i))) (h j))
]

close_all-Serving :
    (v : Server) (is : List ℕ)
    → ((k : ℕ) → Serving (v.store k))
    → (j : ℕ) → Serving ((close_all v is).store j)
unfolding close_all
close_all-Serving v [] h j = h j
close_all-Serving v (i ∷ is) h j =
    close_all-Serving (close_session v i) is (λ k. close_session-Serving v i k h) j

pub stop-IsSound : (v : Server) → IsSound v → IsSound (Server.stop v)
stop-IsSound v h =
    let stopped = stop_lem v h.tracked in
    record {
      tracked = λ i. rw (stopped.1, stopped.0 i) refl;
      sessions =
          unfold Server.stop in
          close_all-Serving (record v { timing = false; acceptor_open = false }) v.sessions
            h.sessions;
    }
