-- ===== src/Database/Outage.antt =====
-- src/common/database/Database.hpp: the pool while the database cannot be reached.
use purity.Common.{
  ℕ, ◌+◌, ◌<◌, ◌≡◌, refl, ap, ◌∙◌, List, [], ◌∷◌, Option, Outcome, throw, arith, length,
}
use purity.Exception.{Exception, no_connection}
use purity.PreparedStatement.{PreparedStatement}
use purity.Database.{Pqxx, Database, open_connection, execute_sync}
use purity.Database.Laws.{pool, AllClosed, execute_sync-lost, execute_sync-none}

-- One statement after the other, each on the pool that the one before leaves.
unfoldable pub execute_all :
    {S : Type 0} (x : Pqxx)
    → Option S
    → (x.Row → Outcome Exception S)
    → (Database x → Database x)
    → Database x
    → List PreparedStatement
    → Database x
execute_all x nothing map wait d [] = d
execute_all x nothing map wait d (stmt ∷ stmts) =
    execute_all x nothing map wait (execute_sync x nothing map wait d stmt).0 stmts

drained :
    {S : Type 0} (x : Pqxx) (nothing : Option S) (map : x.Row → Outcome Exception S)
    (wait : Database x → Database x) (connections : List x.Connection) (n : ℕ)
    (stmts : List PreparedStatement) (thrown : Exception)
    → AllClosed x connections
    → ((k : ℕ) → k < length connections → open_connection x (n + k) ≡ throw thrown)
    → length stmts ≡ length connections
    → execute_all x nothing map wait (pool connections n) stmts ≡ pool [] (n + length connections)
unfolding execute_all
drained x nothing map wait [] n [] thrown closed down e = ap (pool {x = x} []) (omega arith)
drained x nothing map wait [] n (s ∷ ss) thrown closed down e = absurd (omega arith)
drained x nothing map wait (c ∷ cs) n [] thrown closed down e = absurd (omega arith)
drained x nothing map wait (c ∷ cs) n (s ∷ ss) thrown (first, others) down e =
    let lost : open_connection x n ≡ throw thrown =
      ap (open_connection x) (omega arith) ∙ down 0 (omega arith) in
    let step = execute_sync-lost x nothing map wait s c cs n thrown first lost in
    let down' : (k : ℕ) → k < length cs → open_connection x (n + 1 + k) ≡ throw thrown =
      λ k h. ap (open_connection x) (omega arith) ∙ down (k + 1) (omega arith) in
    ap (λ r. execute_all x nothing map wait r.0 ss) step
    ∙ drained x nothing map wait cs (n + 1) ss thrown others down' (omega arith)
    ∙ ap (pool {x = x} []) (omega arith)

-- When all connections are closed and no new one can be made for as many statements as the pool has
-- connections, these statements empty the pool for good: every later statement waits for a connection
-- that nobody has and throws, even when the database can be reached again.
pub execute_sync-drained :
    {S : Type 0} (x : Pqxx) (nothing : Option S) (map : x.Row → Outcome Exception S)
    (connections : List x.Connection) (n : ℕ) (stmts : List PreparedStatement)
    (later : PreparedStatement) (thrown : Exception)
    → AllClosed x connections
    → ((k : ℕ) → k < length connections → open_connection x (n + k) ≡ throw thrown)
    → length stmts ≡ length connections
    → execute_sync x nothing map
        (λ d. d)
        (execute_all x nothing map (λ d. d) (pool connections n) stmts)
        later
      ≡ (pool [] (n + length connections), throw no_connection)
execute_sync-drained x nothing map connections n stmts later thrown closed down e =
    rw (drained x nothing map (λ d. d) connections n stmts thrown closed down e)
      (execute_sync-none x nothing map (λ d. d) later (n + length connections) _ refl)
