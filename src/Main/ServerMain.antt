-- ===== src/Main/ServerMain.antt =====
-- src/main_server.cpp
-- The text of the connection string is a `String`. What is printed to the log is left out. `bound` is what
-- opening the acceptor on the port comes to, in the constructor of `Server`.
use Prim.Native.String.{String, ◌++◌}
use purity.Common.{
  ℕ, ◌-◌, [], Option, none, some, Outcome, ok, throw, fault, ltb, ◌==◌, if◌then◌else◌, ◌>>=◌,
}
use purity.Exception.{Exception}
use purity.Database.{Pqxx, Database}
use purity.Database
use purity.Server.{start_accept}
use purity.Server
use purity.Session
use purity.Srp6.{Srp6}
use purity.System.{System}

-- For what `hardware_concurrency` gives.
unfoldable pub network_threads : ℕ → ℕ
network_threads cores = if ltb 2 cores then cores - 1 else if cores == 0 then 1 else cores

abbrev or_default : Option String → String → String
or_default none text = text
or_default (some value) text = value

-- `env` is `getenv`.
unfoldable pub conninfo : (String → Option String) → String
conninfo env =
    "host="
    ++ (or_default (env "DB_URL") "127.0.0.1"
        ++ (" port="
            ++ (or_default (env "DB_PORT") "5432"
                ++ (" user="
                    ++ (or_default (env "DB_USER") "postgres"
                        ++ (" password="
                            ++ (or_default (env "DB_PASSWORD") "postgres"
                                ++ (" dbname=" ++ or_default (env "DB_NAME") "postgres"))))))))

abbrev pub pool_size : ℕ
pool_size = 2

-- The members of `Server` and its database, with the number of threads that run the executor.
pub record Running (x : Pqxx) : Type 0 where
  pub system : System
  pub database : Database x
  pub threads : ℕ

-- Five minutes in seconds, the unit of the clock.
abbrev pub ttl : ℕ
ttl = 300

unfoldable pub serve : (x : Pqxx) → Database x → ℕ → Srp6 → Running x
serve x db cores srp = record {
  system = record {
    server = start_accept (Server.create (Session.new srp));
    cache = record { cache = []; ttl = ttl };
  };
  database = db;
  threads = network_threads cores;
}

-- The `try`: up to the threads.
unfoldable pub set_up :
    (x : Pqxx) → Outcome Exception (Unit {0}) → ℕ → Srp6 → Outcome Exception (Running x)
set_up x bound cores srp =
    Database.create x pool_size >>= λ db. bound >>= λ _. ok (serve x db cores srp)

-- The `catch` logs the exception, and the program ends.
unfoldable pub caught :
    {x : Pqxx} → Outcome Exception (Running x) → Outcome Exception (Option (Running x))
caught (ok r) = ok (some r)
caught (throw e) = ok none
caught fault = fault

unfoldable pub main :
    (x : Pqxx) → Outcome Exception (Unit {0}) → ℕ → Srp6 → Outcome Exception (Option (Running x))
main x bound cores srp = caught (set_up x bound cores srp)
