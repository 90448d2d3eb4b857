-- ===== src/Connection/Invariant.antt =====
-- src/server/ClientSession/ClientSession.cpp: what holds of a session whatever its client sends.
use purity.Common.{
  ℕ, ◌≤◌, ◌≡◌, refl, sym, ap, subst, length-replicate, ◌∙◌, ◌⊎◌, inl, inr, Bool, true, false, [],
  length, Outcome, ok, throw, fault, if◌then◌else◌, arith,
}
use purity.Exception.{Exception}
use purity.MessageBuffer
use purity.MessageBuffer.{
  MessageBuffer, IsValid, get_active_size, get_remaining_space, peek, clear, fill, write_completed,
  read_completed, ensure_free_space, contents,
}
use purity.MessageBuffer.Laws.{new-IsValid, ensure_free_space_lem}
use purity.Session
use purity.Srp6.{Srp6}
use purity.Session.{
  start_reading, set_session_mode, Session, SessionMode, auth_session, work_session, close, do_read,
}
use purity.Session.Write.{WriteState}
use purity.World.{World}
use purity.AuthStage.Reader.{with_read_buffer}
use purity.Connection.Kept.{Kept}

-- The session is in work mode exactly when its account is authenticated.
abbrev pub Stage : Session → Type 0
Stage s =
    ((s.session_mode ≡ auth_session) × (s.account_info.is_auth ≡ false))
    ⊎ ((s.session_mode ≡ work_session) × (s.account_info.is_auth ≡ true))

-- A valid buffer of at most `cap` bytes.
abbrev pub Fits : ℕ → MessageBuffer → Type 0
Fits cap m = IsValid m × (length m.storage ≤ cap)

-- The read buffer is valid, the mode agrees with the account, and as long as the session is open its queue
-- is in step with its socket.
pub record IsServing (cap : ℕ) (s : Session) : Type 0 where
  pub buffer : Fits cap s.read_buffer
  pub stage : Stage s
  pub writes : (s.closed ≡ true) ⊎ WriteState s.writing s.write_queue s.in_flight

-- No exception leaves, the behaviour is defined, and the session that is left serves on.
abbrev pub Serves : ℕ → Outcome Exception World → Type 0
Serves cap (ok w) = IsServing cap w.session
Serves cap (throw e) = ⊥
Serves cap fault = ⊥

Kept-Stage : (s t : Session) → Stage s → Kept s t → Stage t
Kept-Stage s t v k = go k.stage v
  where
    go :
        ((t.session_mode ≡ s.session_mode) × (t.account_info.is_auth ≡ s.account_info.is_auth))
          ⊎ ((t.session_mode ≡ work_session) × (t.account_info.is_auth ≡ true))
        → Stage s
        → Stage t
    go (inr work) v' = inr work
    go (inl (m, a)) (inl (m', a')) = inl (m ∙ m', a ∙ a')
    go (inl (m, a)) (inr (m', a')) = inr (m ∙ m', a ∙ a')

pub Kept-IsServing : (cap : ℕ) (s t : Session) → IsServing cap s → Kept s t → IsServing cap t
Kept-IsServing cap s t v k = record {
  buffer = subst (Fits cap) (sym k.read_buffer) v.buffer;
  stage = Kept-Stage s t v.stage k;
  writes = elim v.writes [
    | inl off ↦ inl (k.closed ∙ off)
    | inr state ↦ inr (rw (k.writing, k.write_queue, k.in_flight) state)
  ];
}

-- Closing needs no queue in step.
pub closing-IsServing :
    (cap : ℕ) (s : Session) → Fits cap s.read_buffer → Stage s → IsServing cap (close s)
unfolding close clear MessageBuffer.reset
closing-IsServing cap s fits stage = go s.closed refl
  where
    go :
        (b : Bool)
        → s.closed ≡ b
        → IsServing cap (
            if b then s else (record s {
              closed = true;
              read_buffer = clear s.read_buffer;
              write_queue = [];
              registered = false;
            }))
    go true e = record { buffer = fits; stage = stage; writes = inl e }
    go false e = record {
      buffer = (
        record { ordered = omega arith; in_storage = omega arith; small = omega arith },
        omega arith,
      );
      stage = stage;
      writes = inl refl;
    }

pub close-IsServing : (cap : ℕ) (s : Session) → IsServing cap s → IsServing cap (close s)
close-IsServing cap s v = closing-IsServing cap s v.buffer v.stage

pub with_read_buffer-IsServing :
    (cap : ℕ) (w : World) (m : MessageBuffer)
    → IsServing cap w.session
    → Fits cap m
    → IsServing cap (with_read_buffer w m).session
unfolding with_read_buffer
with_read_buffer-IsServing cap w m v h = record { buffer = h; stage = v.stage; writes = v.writes }

-- A session that has just been accepted.
pub start_reading-IsServing : (srp : Srp6) → IsServing 4608 (start_reading (Session.new srp))
unfolding start_reading Session.new do_read set_session_mode
start_reading-IsServing srp =
    let (valid, empty) = new-IsValid 4096 (omega arith) in
    let size : length (MessageBuffer.new 4096).storage ≡ 4096 =
      unfold MessageBuffer.new in length-replicate {A = ℕ} 4096 0 in
    let e = ensure_free_space_lem 512 (MessageBuffer.new 4096) valid (omega (arith, size)) in
    record {
      buffer = (
        e.valid,
        elim e.bound [
          | inl same ↦ omega (arith, ap length same, size)
          | inr more ↦ omega (arith, more, size)
        ],
      );
      stage = inl (refl, refl);
      writes = inr (inl (refl, refl, refl));
    }
