-- ===== src/Database/Accounts.antt =====
-- src/server/SessionMode/authstage/handlers/HandlersAuth.cpp: the query of an account, on the pool.
use purity.Common.{
  ℕ, ◌+◌, ◌<◌, ◌≡◌, refl, ap, ◌∙◌, true, List, [], ◌∷◌, Option, none, some, Outcome, ok, throw,
  length,
}
use purity.Exception.{Exception}
use purity.PreparedStatement
use purity.PreparedStatement.{PreparedStatement, set_param, ensure_size, assign}
use purity.AccountCache.{get}
use purity.Utils.Utf8.{is_valid_utf8, to_uppercase}
use purity.Utils.Time.{Calendar}
use purity.World.{World, Env, AccountsRow, with_srp, srp_of}
use purity.Srp6.{set_only_username}
use purity.AuthStage.{database_busy}
use purity.AuthStage.Handlers.{answer_username, answer_cached, answer_row, send_failure}
use purity.Database.Statements.{select_account_by_username}
use purity.Database.{Pqxx, Database, open_connection, execute_sync, bind_params}
use purity.Database.Laws.{pool, AllClosed}
use purity.Database.Outage.{execute_all, execute_sync-drained}
use purity.Database.Rows.{Row, map_accounts}

unfoldable pub account_statement : List ℕ → PreparedStatement
account_statement username =
    set_param (PreparedStatement.create select_account_by_username) 0 username

-- `fields` gives the fields of a row of libpqxx.
unfoldable pub find_account :
    (x : Pqxx)
    → Calendar
    → (x.Row → Row)
    → (Database x → Database x)
    → Database x
    → List ℕ
    → Database x × Outcome Exception (Option AccountsRow)
find_account x calendar fields wait d username =
    execute_sync x none (λ r. map_accounts calendar (fields r)) wait d (account_statement username)

-- The statement that runs has the one parameter, the name, and the prepared statement's name.
pub account_statement_lem :
    (username : List ℕ)
    → ((account_statement username).name ≡ select_account_by_username)
      × (bind_params [] (account_statement username).params ≡ some username ∷ [])
unfolding account_statement set_param ensure_size assign PreparedStatement.create bind_params
account_statement_lem username = (refl, refl)

-- Once an outage has emptied the pool, every login under a name that is not in the cache is refused with
-- DATABASE_BUSY, also when the database can be reached again: the outage is as many statements, to which
-- the closed connections are lost, as the pool has connections.
pub answer_username-drained :
    (x : Pqxx) (calendar : Calendar) (fields : x.Row → Row) (connections : List x.Connection)
    (n : ℕ) (stmts : List PreparedStatement) (thrown : Exception) (env : Env) (w : World)
    (raw : List ℕ)
    → AllClosed x connections
    → ((k : ℕ) → k < length connections → open_connection x (n + k) ≡ throw thrown)
    → length stmts ≡ length connections
    → env.db (to_uppercase raw)
      ≡ (find_account x calendar fields
          (λ d. d)
          (execute_all x none
            (λ r. map_accounts calendar (fields r))
            (λ d. d)
            (pool connections n)
            stmts)
          (to_uppercase raw)).1
    → is_valid_utf8 raw ≡ true
    → (get w.cache env.now (to_uppercase raw)).1 ≡ none
    → (v : World) × (answer_username env w raw ≡ ok (send_failure v database_busy))
      × (v.session.session_mode ≡ w.session.session_mode)
unfolding answer_username answer_cached answer_row find_account with_srp
answer_username-drained x calendar fields connections n stmts thrown env w raw closed down e db
      valid absent =
    let busy =
      db
      ∙ ap (λ r. r.1)
          (execute_sync-drained x none (λ r. map_accounts calendar (fields r)) connections n stmts
            (account_statement (to_uppercase raw)) thrown closed down e) in
    let username = to_uppercase raw in
    let named = with_srp w (set_only_username env.ssl (srp_of w) username) in
    let v : World = record named { cache = (get w.cache env.now username).0 } in
    (v, rw (valid, absent, busy) refl, refl)
