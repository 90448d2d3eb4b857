-- ===== src/Main/Running.antt =====
-- src/main_server.cpp: what holds of the server from its start on.
use purity.Common.{
  ℕ, subst, ◌≤◌, ◌≡◌, refl, true, List, [], some, Outcome, ok, throw, fault, length, arith, ◌>>=◌,
}
use purity.Exception.{Exception}
use purity.Database.{Pqxx, Database}
use purity.Database
use purity.Database.Pool.{fill-length}
use purity.Server
use purity.Srp6.{Srp6}
use purity.System.{System, Event}
use purity.System.Stored.{IsSound}
use purity.System.Sound.{Steps, create-IsSound, Steps-IsSound}
use purity.Main.ServerMain.{Running, network_threads, pool_size, serve, set_up, caught, main}

-- What has been set up, if it is running.
record Started (x : Pqxx) (r : Running x) : Type 0 where
  sound : IsSound r.system.server
  listens : r.system.server.accepting ≡ true
  connections : length r.database.connections ≡ 2
  threads : 1 ≤ r.threads

network_threads_some : (cores : ℕ) → 1 ≤ network_threads cores
unfolding network_threads
network_threads_some cores = ground arith

serve-Started :
    (x : Pqxx) (db : Database x) (cores : ℕ) (srp : Srp6)
    → Database.create x pool_size ≡ ok db
    → Started x (serve x db cores srp)
unfolding serve Server.start_accept Server.create Database.create
serve-Started x db cores srp made =
    let sound = create-IsSound srp in
    record {
      sound = record { tracked = sound.tracked; sessions = sound.sessions };
      listens = refl;
      connections = fill-length {x = x} 2 (record { connections = []; attempts = 0 }) db made;
      threads = network_threads_some cores;
    }

bound-Started :
    (x : Pqxx) (db : Database x) (bound : Outcome Exception (Unit {0})) (cores : ℕ) (srp : Srp6)
    (r : Running x)
    → Database.create x pool_size ≡ ok db
    → caught (bound >>= λ _. ok (serve x db cores srp)) ≡ ok (some r)
    → Started x r
unfolding caught
bound-Started x db (ok u) cores srp r made e =
    let same : serve x db cores srp ≡ r = cc in
    subst (Started x) same (serve-Started x db cores srp made)
bound-Started x db (throw t) cores srp r made e = absurd cc
bound-Started x db fault cores srp r made e = absurd cc

main-Started :
    (x : Pqxx) (bound : Outcome Exception (Unit {0})) (cores : ℕ) (srp : Srp6) (r : Running x)
    → main x bound cores srp ≡ ok (some r)
    → Started x r
unfolding main set_up
main-Started x bound cores srp r e = go (Database.create x pool_size) refl e
  where
    go :
        (made : Outcome Exception (Database x))
        → Database.create x pool_size ≡ made
        → caught (made >>= λ db. bound >>= λ _. ok (serve x db cores srp)) ≡ ok (some r)
        → Started x r
    go (ok db) is run = bound-Started x db bound cores srp r is run
    go (throw t) is run = unfold caught in absurd cc
    go fault is run = unfold caught in absurd cc

-- If the program comes to run, it listens, its pool has two connections and it has a thread at least; and
-- after any course of events from there, whose handlers run one after another and each to its end, the set of
-- sessions holds exactly the open ones and every session serves on. A read brings what there is room for, and the
-- database and `remote_endpoint` give a result or throw.
pub main-IsSound :
    (x : Pqxx) (bound : Outcome Exception (Unit {0})) (cores : ℕ) (srp : Srp6) (r : Running x)
    (v : System) (es : List Event)
    → main x bound cores srp ≡ ok (some r)
    → Steps r.system es v
    → (r.system.server.accepting ≡ true)
      × (length r.database.connections ≡ 2)
      × (1 ≤ r.threads)
      × IsSound v.server
main-IsSound x bound cores srp r v es e run =
    let started = main-Started x bound cores srp r e in
    (
      started.listens,
      started.connections,
      started.threads,
      Steps-IsSound r.system v es run started.sound,
    )
