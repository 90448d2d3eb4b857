-- ===== src/Examples/Pools.antt =====
-- The pool of database connections and the log, on concrete values.
use purity.Common.{
  ℕ, ◌+◌, ◌<◌, ◌≡◌, refl, [], ◌∷◌, ◌++◌, none, ok, throw, arith, ltb, lt→ltb, le→not_ltb, ◌==◌,
  if◌then◌else◌,
}
use purity.Common.Int.{pos}
use purity.Exception.{sql_error}
use purity.PreparedStatement.{PreparedStatement}
use purity.PreparedStatement
use purity.AccountCache.{get, get_found, find}
use purity.World.{World, Env}
use purity.AuthStage.{database_busy}
use purity.AuthStage.Handlers.{answer_username, send_failure}
use purity.Utils.Utf8.{is_valid_utf8, valid_loop, accepts, sequence_length}
use purity.Utils.Time.{Calendar}
use purity.Database.{
  Pqxx, open_connection, prepare_all, create, fill, push, transaction, execute_sync, prepared, next,
  acquire_connection, await, take_front, reopen,
}
use purity.Database.Laws.{pool, Answer, execute_sync-open}
use purity.Database.Pool.{State, Steps-bounded, idle, in_use, acquires, more, done}
use purity.Database.Outage.{execute_all}
use purity.Database.Rows.{Row, map_accounts}
use purity.Database.Accounts.{find_account, answer_username-drained}
use purity.Examples.Login.{env, received}

-- A server that cannot be reached for the connections 2 and 3. A connection is 1 when it is open, and 0
-- when it is closed.
abbrev pub pqxx : Pqxx
pqxx = record {
  Connection = ℕ;
  Row = ℕ;
  connect = λ n. if ltb n 2 then ok 1 else (if ltb n 4 then throw sql_error else ok 1);
  is_open = λ c. c == 1;
  disconnect = λ c. 0;
  prepare = λ name text c. (c, ok tt);
  begin = λ c. (c, ok tt);
  exec = λ name params c. (c, ok (7 ∷ []));
  commit = λ c. (c, ok tt);
}

abbrev query : PreparedStatement
query = PreparedStatement.create (83 ∷ [])

execute_sync-open_example :
    ((execute_sync pqxx none (λ r. ok r) (λ d. d) (pool (1 ∷ 0 ∷ []) 2) query).0.connections
      ≡ (0 ∷ []) ++ ((transaction pqxx none (λ r. ok r) query 1).0 ∷ []))
    × Answer
        (open_connection pqxx 2)
        (transaction pqxx none (λ r. ok r) query 1).1
        (execute_sync pqxx none (λ r. ok r) (λ d. d) (pool (1 ∷ 0 ∷ []) 2) query).1
execute_sync-open_example = execute_sync-open pqxx none (λ r. ok r) (λ d. d) query 1 (0 ∷ []) 2 refl

-- Of a pool of two, one connection is taken.
abbrev taken : State pqxx
taken = record { database = pool (1 ∷ []) 2; held = 1 ∷ [] }

Steps-bounded_example : idle taken + in_use taken + 0 ≡ 2
unfolding create fill push open_connection prepare_all prepared next acquire_connection await
    take_front reopen
Steps-bounded_example =
    Steps-bounded {x = pqxx} 2 (pool (1 ∷ 1 ∷ []) 2) taken 0 refl
      (more (acquires 1 refl refl refl) (done taken))

abbrev calendar : Calendar
calendar = record {
  Tm = ℕ;
  get_time = λ text. none;
  mktime = λ t. pos t;
  localtime = λ t. 0;
  strftime = λ t. [];
}

abbrev fields : ℕ → Row
fields r = λ column. throw sql_error

abbrev drained_env : Env
drained_env = record env {
  db = λ username.
      (find_account pqxx calendar fields (λ d. d)
        (execute_all pqxx none (λ r. map_accounts calendar (fields r)) (λ d. d)
          (pool (0 ∷ 0 ∷ []) 2) (query ∷ query ∷ []))
        username).1;
}

outage : (k : ℕ) → k < 2 → open_connection pqxx (2 + k) ≡ throw sql_error
unfolding open_connection
outage k h = rw (le→not_ltb (2 + k) 2 (omega arith), lt→ltb (2 + k) 4 (omega arith)) refl

answer_username-drained_example :
    (v : World) × (answer_username drained_env (received []) (66 ∷ [])
      ≡ ok (send_failure v database_busy))
    × (v.session.session_mode ≡ (received []).session.session_mode)
unfolding is_valid_utf8 valid_loop accepts sequence_length get get_found find
answer_username-drained_example =
    answer_username-drained pqxx calendar fields (0 ∷ 0 ∷ []) 2 (query ∷ query ∷ []) sql_error
      drained_env (received []) (66 ∷ []) (refl, (refl, tt)) outage refl refl refl refl
