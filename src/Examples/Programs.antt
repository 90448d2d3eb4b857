-- ===== src/Examples/Programs.antt =====
-- The two programs, the threads of a session, the log and the cache, on concrete values.
use purity.Common.{
  ℕ, ◌+◌, ◌≤◌, ◌≡◌, refl, inl, Bool, true, false, List, [], ◌∷◌, ◌++◌, some, ok, fault, ◌>>=◌,
  length, arith, map, All,
}
use purity.AccountCache.{Entry, AccountCache, find}
use purity.AccountCache.Spec.{
  Op, gets, puts, invalidates, cleans, answers, promises, answers-promises,
}
use purity.Session
use purity.Session.{
  Session, auth_packet, work_session, do_send_packet, build_packet, write_succeeded,
}
use purity.Session.Threads.{interleave, write_ends, idle, pushing, through, send_twice}
use purity.System.Stored.{IsSound}
use purity.System.Sound.{Steps, done, more}
use purity.Main.ServerMain
use purity.Main.ServerMain.{Running, serve}
use purity.Main.Running.{main-IsSound}
use purity.Main.ClientMain.{Program, typed, timer_over, end, steps, type_lines}
use purity.Main.Typed.{wire, Carries, type_lines-Carries}
use purity.Client.Queue.{Stepped}
use purity.System.{System, Event, step}
use purity.Server
use purity.Main.Ended.{end-pending}
use purity.WorkStage.Message.{IsPlain}
use purity.Client
use purity.Logger.Formatter.{Outside, timestamp, log_with_mdc}
use purity.Logger.Formatter.Level.{info}
use purity.Logger.Entry.{ArePlain, read_entry, read_entry-log_with_mdc}
use purity.Database
use purity.Database.{Database}
use purity.Examples.Ssl.{ssl}
use purity.Examples.Login.{srp}
use purity.Examples.Pools.{pqxx}
use purity.Examples.Connections.{working}

-- The server's program, on eight cores.
abbrev database : Database pqxx
database = record { connections = 1 ∷ 1 ∷ []; attempts = 2 }

abbrev running : Running pqxx
running = serve pqxx database 8 srp

started : ServerMain.main pqxx (ok tt) 8 srp ≡ ok (some running)
unfolding ServerMain.main ServerMain.set_up ServerMain.caught Database.create Database.fill
    Database.open_connection Database.prepare_all Database.prepared Database.next Database.push
started = refl

-- A connection, which is lost again, a sweep of the cache, and a signal.
abbrev after : System → Event → System
after v e = elim (step v e) [ ok v' ↦ v' | _ ↦ v ]

abbrev joined : System
joined = after running.system (Event.accepted (ok tt) srp)

abbrev left : System
left = after joined (Event.read_lost 0)

abbrev swept : System
swept = after left (Event.cleaned 7)

abbrev events : List Event
events = Event.accepted (ok tt) srp ∷ Event.read_lost 0 ∷ Event.cleaned 7 ∷ Event.signalled ∷ []

served : Steps running.system events (after swept Event.signalled)
unfolding step Server.accept_succeeded Session.start
served = more (Event.accepted (ok tt) srp) tt refl (
    more (Event.read_lost 0) tt refl (
      more (Event.cleaned 7) tt refl
        (more Event.signalled tt refl (done (after swept Event.signalled)))))

main-IsSound_example :
    (running.system.server.accepting ≡ true)
    × (length running.database.connections ≡ 2)
    × (1 ≤ running.threads)
    × IsSound (after swept Event.signalled).server
main-IsSound_example =
    main-IsSound pqxx (ok tt) 8 srp running (after swept Event.signalled) events started served

-- Two lines that are typed.
abbrev lines : List (List ℕ)
lines = (104 ∷ 105 ∷ []) ∷ (33 ∷ []) ∷ []

lines-IsPlain : IsPlain (104 ∷ 105 ∷ []) × (IsPlain (33 ∷ []) × Unit {0})
lines-IsPlain = (
  record { no_null = (omega arith, (omega arith, tt)); short = omega arith },
  (record { no_null = (omega arith, tt); short = omega arith }, tt),
)

type_lines-Carries_example :
    Stepped working (map wire lines) (type_lines working lines)
    × All (λ line. Carries (wire line) line) lines
unfolding Client.create
type_lines-Carries_example =
    type_lines-Carries working lines (inl (refl, inl refl)) refl lines-IsPlain

end-pending_example :
    (q : Program) × (steps ssl
        (end (record { client = working; timing = false; running = true }))
        (typed (104 ∷ []) ∷ timer_over ∷ [])
      ≡ ok q)
    × (q.client.disconnects ≡ 0 + 1)
    × (q.client.socket_open ≡ false)
    × (q.client.connected ≡ false)
unfolding Client.create
end-pending_example =
    end-pending ssl (record { client = working; timing = false; running = true })
      (typed (104 ∷ []) ∷ timer_over ∷ [])

send_twice_example :
    (turns : List Bool) × (interleave turns idle (pushing (1 ∷ [])) (pushing (2 ∷ []))
      ≡ ok (
        record {
          write_queue = (1 ∷ []) ∷ (2 ∷ []) ∷ [];
          writing = true;
          outstanding = (1 ∷ []) ∷ (1 ∷ []) ∷ [];
        },
        (through, through),
      ))
    × ((write_ends (record {
      write_queue = (1 ∷ []) ∷ (2 ∷ []) ∷ [];
      writing = true;
      outstanding = (1 ∷ []) ∷ (1 ∷ []) ∷ [];
    })
          >>= λ m. write_ends m)
        ≡ ok (record { write_queue = []; writing = false; outstanding = (2 ∷ []) ∷ [] }))
    × (write_ends (record { write_queue = []; writing = false; outstanding = (2 ∷ []) ∷ [] })
        ≡ fault)
send_twice_example = send_twice (1 ∷ []) (2 ∷ [])

-- A name is put, looked up in time, cleaned up too late and looked up again.
abbrev entry : Entry
entry = record { salt = 1 ∷ []; verifier = 2 ∷ []; last_access = 0 }

abbrev course : List (ℕ × Op)
course =
    (5, puts (65 ∷ []) entry)
    ∷ (9, gets (65 ∷ []))
    ∷ (30, cleans)
    ∷ (40, gets (65 ∷ []))
    ∷ (41, invalidates (65 ∷ []))
    ∷ []

abbrev empty_cache : AccountCache
empty_cache = record { cache = []; ttl = 10 }

answers-promises_example :
    answers empty_cache course ≡ promises 10 (λ username. find username []) course
answers-promises_example =
    answers-promises empty_cache course tt
      (omega arith, (omega arith, (omega arith, (omega arith, (omega arith, tt)))))

-- A line of the log, at 2 seconds, 3 milliseconds and 4 nanoseconds.
abbrev texts : Outside
texts = record {
  strftime = λ s. 50 ∷ 48 ∷ [];
  to_string_view = λ level. 105 ∷ [];
  should_log = λ level. true;
}

texts-ArePlain : ArePlain texts
texts-ArePlain = record {
  time = λ s. ((refl, refl), ((refl, refl), tt));
  level = λ l. ((refl, refl), tt);
}

read_entry-log_with_mdc_example :
    (texts.should_log info ≡ true
      → read_entry
          (log_with_mdc texts 2003000004 7 info (34 ∷ []) ((92 ∷ [], 34 ∷ []) ∷ []) ++ (9 ∷ []))
        ≡ some (
          record {
            timestamp = timestamp texts 2003000004;
            level = 105 ∷ [];
            thread_id = 7;
            message = 34 ∷ [];
            mdc = (92 ∷ [], 34 ∷ []) ∷ [];
          },
          9 ∷ [],
        ))
    × (texts.should_log info ≡ false
        → log_with_mdc texts 2003000004 7 info (34 ∷ []) ((92 ∷ [], 34 ∷ []) ∷ []) ≡ [])
read_entry-log_with_mdc_example =
    read_entry-log_with_mdc texts 2003000004 7 info (34 ∷ []) (9 ∷ []) ((92 ∷ [], 34 ∷ []) ∷ [])
      texts-ArePlain
