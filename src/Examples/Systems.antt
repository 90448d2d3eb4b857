-- ===== src/Examples/Systems.antt =====
-- The whole server, on concrete events.
use purity.Common.{
  ◌++◌, length, ◌≤◌, ℕ, ◌≡◌, refl, sym, ap, ◌∙◌, false, inl, inr, List, [], ◌∷◌, none, some, ok,
  arith, replicate,
}
use purity.Session
use purity.Session.{Session, start, start_reading, do_read, set_session_mode, auth_packet}
use purity.Packet.Codec.{packet}
use purity.MessageBuffer.{write_completed, fill, get_remaining_space, get_active_size}
use purity.Connection.{read_succeeded, process_read_buffer, process_in_mode}
use purity.Server.{create, accept_started, accept_succeeded, update, start_accept}
use purity.World.{AccountsRow, Env}
use purity.System.{System, Event, step, put_session, world_of}
use purity.System.Event.{written, accepted, received, read_lost, runs, cleaned}
use purity.System.Sound.{Allowed, Continues, create-IsSound, step-Continues}
use purity.System.Cached.{Runs, ended, then_comes}
use purity.System.Stored.{IsSound, Serving, put_session-IsSound}
use purity.AuthStage.Reader.{with_read_buffer, process_read_buffer_as_authserver}
use purity.System.Answered.{IsIdle, ping, pong, ping_answered}
use purity.MessageBuffer.{contents}
use purity.Session.{work_session}
use purity.Packet.Work.{build_packet}
use purity.ByteBuffer.Write
use purity.ByteBuffer.{empty}
use purity.Bytes.{be_bytes, le_bytes}
use purity.Packet.Write.{write_uint32_le}
use purity.Packet.{new}
use purity.System.Cached.{Steps-Holds}
use purity.AccountCache.Recorded.{Holds}
use purity.Examples.Login
use purity.Examples.Login.{srp}
use purity.AccountCache.{Entry}

-- One account is in the cache, and the database knows every name.
abbrev cached : List (List ℕ × Entry)
cached = ((65 ∷ []), record { salt = 1 ∷ []; verifier = 2 ∷ []; last_access = 10 }) ∷ []

abbrev row : AccountsRow
row = record {
  id = 1;
  name = some (66 ∷ []);
  salt = some (1 ∷ []);
  verifier = some (3 ∷ []);
  email = none;
  created_at = none;
}

abbrev env : Env
env = record Login.env { db = λ username. ok (some row) }

abbrev started : System
started = record { server = create (Session.new srp); cache = record { cache = cached; ttl = 300 } }

-- A client that has connected, with a small buffer, and a packet for it.
abbrev session : Session
session = record (Session.new srp) {
  read_buffer = record { wpos = 0; rpos = 0; storage = replicate 8 0 };
  posted = auth_packet (packet 2 (7 ∷ [])) ∷ [];
}

abbrev connected : System
connected = record started {
  server = put_session (accept_started started.server (start_reading (Session.new srp))) 0 session;
}

-- What a step leaves, where it leaves anything.
abbrev after : System → Event → System
after v e = elim (step v e) [ ok v' ↦ v' | _ ↦ v ]

abbrev header : Event
header = received 0 env (1 ∷ 0 ∷ [])

abbrev listened : System
listened = after connected header

abbrev sending : System
sending = after listened (runs 0)

abbrev lost : System
lost = after sending (read_lost 0)

abbrev swept : System
swept = after lost (cleaned 100)

abbrev course : List Event
course = header ∷ runs 0 ∷ read_lost 0 ∷ cleaned 100 ∷ []

header-listened : step connected header ≡ ok listened
unfolding step Session.new create accept_started put_session start_accept update start_reading
    do_read set_session_mode read_succeeded write_completed fill world_of get_remaining_space
    process_read_buffer process_in_mode with_read_buffer process_read_buffer_as_authserver
    get_active_size
header-listened = refl

header-Allowed : Allowed connected.server header
unfolding put_session update get_remaining_space Session.new create accept_started start_accept
    start_reading do_read set_session_mode
header-Allowed = (omega arith, omega arith, λ username. tt)

steps : Runs connected course swept
unfolding step
steps = then_comes header header-listened (
    then_comes (runs 0) refl
      (then_comes (read_lost 0) refl (then_comes (cleaned 100) refl (ended swept))))

accepted-IsSound : IsSound (accept_started started.server (start_reading (Session.new srp)))
unfolding step
accepted-IsSound =
    unfold step accept_succeeded start in
    step-Continues started (accepted (ok tt) srp) (create-IsSound srp) tt

session-Serving : Serving session
unfolding Session.new
session-Serving = record {
  buffer = (
    record { ordered = omega arith; in_storage = omega arith; small = omega arith },
    omega arith,
  );
  stage = inl (refl, refl);
  writes = inr (inl (refl, refl, refl));
}

opened : ((accept_started started.server (start_reading (Session.new srp))).store 0).closed ≡ false
unfolding create accept_started start_accept update start_reading do_read set_session_mode
    Session.new
opened = refl

connected-IsSound : IsSound connected.server
connected-IsSound =
    put_session-IsSound (accept_started started.server (start_reading (Session.new srp))) 0 session
      accepted-IsSound session-Serving λ off. absurd (cc opened)

step-Continues_example : Continues connected.server header (step connected header)
step-Continues_example = step-Continues connected header connected-IsSound header-Allowed

said :
    (username : List ℕ) (user : AccountsRow) (salt verifier : List ℕ)
    → env.db username ≡ ok (some user)
    → user.salt ≡ some salt
    → user.verifier ≡ some verifier
    → salt ≡ 1 ∷ []
said username user salt verifier is has_salt has_verifier =
    let same : row.salt ≡ user.salt = ap (λ r. elim r [ ok (some u) ↦ u.salt | _ ↦ none ]) is in
    let salted : some (1 ∷ []) ≡ some salt = same ∙ has_salt in
    sym (ap (λ o. elim o [ some x ↦ x | none ↦ [] ]) salted)

Steps-Holds_example : Holds (λ username salt verifier. salt ≡ 1 ∷ []) swept.cache
unfolding put_session
Steps-Holds_example =
    Steps-Holds (λ username salt verifier. salt ≡ 1 ∷ []) connected swept course steps
      (said, (tt, (tt, (tt, tt)))) (refl, tt)

-- A session in work mode that has nothing to do.
abbrev resting : Session
resting = record (Session.new srp) {
  session_mode = work_session;
  read_buffer = record { wpos = 0; rpos = 0; storage = replicate 16 0 };
}

abbrev serving_one : System
serving_one = record started { server = record (create (Session.new srp)) { store = λ j. resting } }

resting-IsIdle : IsIdle resting
unfolding Session.new contents
resting-IsIdle = record {
  opened = refl;
  mode = refl;
  valid = record { ordered = omega arith; in_storage = omega arith; small = omega arith };
  read_all = refl;
  posted = refl;
  write_queue = refl;
  writing = refl;
}

length-ping : length (ping 9) ≡ 8
unfolding build_packet Write.write_bytes Write.write_uint16_be empty be_bytes write_uint32_le new
    Write.write_uint32_le le_bytes
length-ping = refl

ping-fits : length (ping 9) ≤ get_remaining_space resting.read_buffer
unfolding get_remaining_space
ping-fits = omega (arith, length-ping)

ping_answered_example :
    (v1 : System) × (v2 : System) × (v3 : System) × (step serving_one (received 0 env (ping 9))
      ≡ ok v1)
    × (step v1 (runs 0) ≡ ok v2)
    × (step v2 (written 0) ≡ ok v3)
    × ((v3.server.store 0).sent ≡ resting.sent ++ (pong 9 ∷ []))
ping_answered_example = ping_answered serving_one 0 env 9 resting-IsIdle ping-fits (omega arith)
