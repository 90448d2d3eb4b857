-- ===== src/Server/Laws.antt =====
-- src/server/Server.cpp: the set holds the open sessions, and `stop` leaves none open.
use purity.Common.{
  ℕ, ◌≡◌, ◌⊎◌, refl, sym, ap, ◌∙◌, Bool, true, false, not, ◌||◌, List, [], ◌∷◌, ◌==◌, ==_iff,
  if◌then◌else◌, Bool-cases, inl, inr, arith,
}
use purity.Session.{Session, new, start_reading, do_read, set_session_mode}
use purity.Session
use purity.Srp6.{Srp6}
use purity.Server.{
  Server, update, erase, remove_session, close_session, start_accept, accept_failed, accept_started,
  close_all, stop,
}

abbrev pub mem : ℕ → List ℕ → Bool
mem i [] = false
mem i (j ∷ js) = (j == i) || mem i js

-- The set holds exactly the sessions that are open.
abbrev pub IsTracked : Server → Type 0
IsTracked v = (i : ℕ) → mem i v.sessions ≡ not (v.store i).closed

-- A connection is one whose other end is known.
pub data Event : Type 0 where
  accepted : Srp6 → Event
  refused : Event
  closed : ℕ → Event

unfoldable pub step : Server → Event → Server
step v (accepted srp) = accept_started v (start_reading (new srp))
step v refused = accept_failed v
step v (closed i) = close_session v i

unfoldable pub run : Server → List Event → Server
run v [] = v
run v (e ∷ es) = run (step v e) es

pub mem-erase : (i j : ℕ) (js : List ℕ) → mem j (erase i js) ≡ (if i == j then false else mem j js)
unfolding erase
mem-erase i j [] = ground arith
mem-erase i j (k ∷ ks) = ground (arith, mem-erase i j ks)

pub close-closed : (s : Session) → (Session.close s).closed ≡ true
unfolding Session.close
close-closed s = elim (Bool-cases s.closed) [ inl e ↦ rw e refl | inr e ↦ rw e refl ]

pub start_reading-opened : (srp : Srp6) → (start_reading (new srp)).closed ≡ false
unfolding start_reading do_read set_session_mode new
start_reading-opened srp = refl

pub if_true : {A : Type 0} (b : Bool) (x y : A) → b ≡ true → (if b then x else y) ≡ x
if_true b x y e = rw e refl

pub if_false : {A : Type 0} (b : Bool) (x y : A) → b ≡ false → (if b then x else y) ≡ y
if_false b x y e = rw e refl

-- What closing an open session leaves.
unfoldable pub without : Server → ℕ → Server
without v i = remove_session (record v { store = update v.store i (Session.close (v.store i)) }) i

pub close_session_cases :
    (v : Server) (i : ℕ)
    → (((v.store i).closed ≡ true) × (close_session v i ≡ v))
      ⊎ (((v.store i).closed ≡ false) × (close_session v i ≡ without v i))
unfolding close_session without
close_session_cases v i = elim (Bool-cases (v.store i).closed) [
  | inl e ↦ inl (e, if_true _ _ _ e)
  | inr e ↦ inr (e, if_false _ _ _ e)
]

close_session-IsTracked : (v : Server) (i : ℕ) → IsTracked v → IsTracked (close_session v i)
close_session-IsTracked v i h = elim (close_session_cases v i) [
  | inl (e, same) ↦ rw same h
  | inr (e, gone) ↦
      rw gone (unfold without remove_session update in λ j. mem-erase i j v.sessions ∙ split j)
]
  where
    split :
        (j : ℕ)
        → (if i == j then false else mem j v.sessions)
          ≡ not (if i == j then Session.close (v.store i) else v.store j).closed
    split j = elim (Bool-cases (i == j)) [
      | inl same ↦ rw (same, close-closed (v.store i)) refl
      | inr other ↦ rw other (h j)
    ]

pub accept_started-IsTracked :
    (v : Server) (srp : Srp6) → IsTracked v → IsTracked (accept_started v (start_reading (new srp)))
unfolding accept_started start_accept update
accept_started-IsTracked v srp h = elim (Bool-cases v.acceptor_open) [
  | inl e ↦ rw e tracked
  | inr e ↦ rw e tracked
]
  where
    tracked :
        (j : ℕ)
        → ((v.next == j) || mem j v.sessions)
          ≡ not (if v.next == j then start_reading (new srp) else v.store j).closed
    tracked j = elim (Bool-cases (v.next == j)) [
      | inl same ↦ rw (same, start_reading-opened srp) refl
      | inr other ↦ rw other (h j)
    ]

step-IsTracked : (v : Server) (e : Event) → IsTracked v → IsTracked (step v e)
unfolding step accept_failed
step-IsTracked v (accepted srp) h = accept_started-IsTracked v srp h
step-IsTracked v refused h = h
step-IsTracked v (closed i) h = close_session-IsTracked v i h

-- A server whose set holds exactly the open sessions keeps it so through any sequence of accepted
-- connections, failed accepts and closings.
pub run-IsTracked : (v : Server) (es : List Event) → IsTracked v → IsTracked (run v es)
unfolding run
run-IsTracked v [] h = h
run-IsTracked v (e ∷ es) h = run-IsTracked (step v e) es (step-IsTracked v e h)

close_session-closed :
    (v : Server) (i j : ℕ) → ((close_session v i).store j).closed ≡ ((i == j) || (v.store j).closed)
close_session-closed v i j = elim (close_session_cases v i) [
  | inl (e, same) ↦ rw same (kept e)
  | inr (e, gone) ↦ rw gone (unfold without remove_session update in split)
]
  where
    split :
        (if i == j then Session.close (v.store i) else v.store j).closed
        ≡ ((i == j) || (v.store j).closed)
    split = elim (Bool-cases (i == j)) [
      | inl same ↦ rw (same, close-closed (v.store i)) refl
      | inr other ↦ rw other refl
    ]

    kept : (v.store i).closed ≡ true → (v.store j).closed ≡ ((i == j) || (v.store j).closed)
    kept e = elim (Bool-cases (i == j)) [
      | inl same ↦ rw same (ap (λ k. (v.store k).closed) (sym ((==_iff i j).0 same)) ∙ e)
      | inr other ↦ rw other refl
    ]

pub close_all-closed :
    (v : Server) (is : List ℕ) (j : ℕ)
    → ((close_all v is).store j).closed ≡ (mem j is || (v.store j).closed)
unfolding close_all
close_all-closed v [] j = refl
close_all-closed v (i ∷ is) j =
    close_all-closed (close_session v i) is j
    ∙ ap (λ b. mem j is || b) (close_session-closed v i j)
    ∙ swap (mem j is) (i == j) (v.store j).closed
  where
    swap : (a b c : Bool) → (a || (b || c)) ≡ ((b || a) || c)
    swap a b c = ground arith

close_session-quiet :
    (v : Server) (i : ℕ)
    → ((close_session v i).acceptor_open ≡ v.acceptor_open)
      × ((close_session v i).timing ≡ v.timing)
close_session-quiet v i = elim (close_session_cases v i) [
  | inl (e, same) ↦ rw same (refl, refl)
  | inr (e, gone) ↦ rw gone (unfold without remove_session in (refl, refl))
]

close_all-quiet :
    (v : Server) (is : List ℕ)
    → ((close_all v is).acceptor_open ≡ v.acceptor_open) × ((close_all v is).timing ≡ v.timing)
unfolding close_all
close_all-quiet v [] = (refl, refl)
close_all-quiet v (i ∷ is) =
    let (opened, timed) = close_all-quiet (close_session v i) is in
    let (opened', timed') = close_session-quiet v i in (opened ∙ opened', timed ∙ timed')

-- After `stop` no session at all is open, the set is empty, nothing is accepted, and the timer, the
-- executor and the database are stopped.
pub stop_lem :
    (v : Server)
    → IsTracked v
    → ((i : ℕ) → ((stop v).store i).closed ≡ true)
      × ((stop v).sessions ≡ [])
      × ((stop v).acceptor_open ≡ false)
      × ((stop v).timing ≡ false)
      × ((stop v).running ≡ false)
      × ((stop v).database ≡ false)
unfolding stop
stop_lem v h =
    let quiet : Server = record v { timing = false; acceptor_open = false } in
    let (opened, timed) = close_all-quiet quiet quiet.sessions in
    ((λ i. close_all-closed quiet quiet.sessions i ∙ full i), refl, opened, timed, refl, refl)
  where
    full : (i : ℕ) → (mem i v.sessions || (v.store i).closed) ≡ true
    full i = elim (Bool-cases (v.store i).closed) [
      | inl c ↦ rw (h i, c) refl
      | inr c ↦ rw (h i, c) refl
    ]
