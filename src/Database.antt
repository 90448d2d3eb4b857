-- ===== src/Database.antt =====
-- src/common/database/Database.hpp: a pool of connections to PostgreSQL.
-- libpqxx is the argument `Pqxx`. A `unique_ptr` that is null is `none`; `attempts` is the number of
-- connections that have been made so far, which the program does not keep. The mutex makes each use of
-- the queue one step; Pool has the interleaving of several threads. Statements has the texts prepared.
pub mod Statements
pub mod Laws
pub mod Pool
pub mod Outage
pub mod Rows
pub mod Accounts
use purity.Common.{
  ℕ, ◌+◌, zero, suc, Bool, List, [], ◌∷◌, ◌++◌, Option, none, some, Outcome, ok, throw, fault,
  ◌>>=◌, if◌then◌else◌,
}
use purity.Exception.{Exception, no_connection, broken_connection}
use purity.PreparedStatement.{PreparedStatement}
use purity.Database.Statements.{
  select_account_by_username, select_account, insert_account_by_username, insert_account,
}

-- `connect n` is the constructor of a connection when it is called for the n-th time. What works on a
-- connection leaves it in a new state, whether it throws or not. `begin` is the constructor of a `work`;
-- the rollback by its destructor is part of what a call that throws leaves.
pub record Pqxx : Type 1 where
  pub Connection : Type 0
  pub Row : Type 0
  pub connect : ℕ → Outcome Exception Connection
  pub is_open : Connection → Bool
  pub disconnect : Connection → Connection
  pub prepare : List ℕ → List ℕ → Connection → Connection × Outcome Exception (Unit {0})
  pub begin : Connection → Connection × Outcome Exception (Unit {0})
  pub exec :
      List ℕ → List (Option (List ℕ)) → Connection → Connection × Outcome Exception (List Row)
  pub commit : Connection → Connection × Outcome Exception (Unit {0})

pub record Database (x : Pqxx) : Type 0 where
  pub connections : List x.Connection
  pub attempts : ℕ

-- The next statement, on the connection that the one before leaves.
unfoldable pub next :
    {C A B : Type 0}
    → C × Outcome Exception A
    → (A → C → C × Outcome Exception B)
    → C × Outcome Exception B
next (c, ok a) f = f a c
next (c, throw e) f = (c, throw e)
next (c, fault) f = (c, fault)

unfoldable pub prepare_all : (x : Pqxx) → x.Connection → x.Connection × Outcome Exception (Unit {0})
prepare_all x conn = next (x.begin conn) λ _ c1.
    next (x.prepare select_account_by_username select_account c1)
      λ _ c2. next (x.prepare insert_account_by_username insert_account c2) λ _ c3. x.commit c3

-- A connection whose preparation throws is lost.
unfoldable pub prepared : {C : Type 0} → C × Outcome Exception (Unit {0}) → Outcome Exception C
prepared (c, ok u) = ok c
prepared (c, throw e) = throw e
prepared (c, fault) = fault

unfoldable pub open_connection : (x : Pqxx) → ℕ → Outcome Exception x.Connection
open_connection x n = x.connect n >>= λ conn. prepared (prepare_all x conn)

unfoldable pub push : {x : Pqxx} → Database x → x.Connection → Database x
push d conn = record d { connections = d.connections ++ (conn ∷ []) }

-- The constructor's loop, with `n` connections to go.
unfoldable pub fill : {x : Pqxx} → ℕ → Database x → Outcome Exception (Database x)
fill zero d = ok d
fill {x = x} (suc n) d =
    let grown = record d { attempts = d.attempts + 1 } in
    open_connection x d.attempts >>= λ conn. fill n (push grown conn)

unfoldable pub create : (x : Pqxx) → ℕ → Outcome Exception (Database x)
create x pool_size = fill pool_size (record { connections = []; attempts = 0 })

-- The loop of `shutdown`: the connections that it destroys, as it leaves them.
unfoldable pub close_all : (x : Pqxx) → List x.Connection → List x.Connection
close_all x [] = []
close_all x (c ∷ cs) = (if x.is_open c then x.disconnect c else c) ∷ close_all x cs

unfoldable pub shutdown : {x : Pqxx} → Database x → Database x × List x.Connection
shutdown {x = x} d = (record d { connections = [] }, close_all x d.connections)

unfoldable pub release_connection : {x : Pqxx} → Database x → x.Connection → Database x
release_connection d conn = push d conn

unfoldable pub reconnect_connection :
    {x : Pqxx} → Database x → Database x × Outcome Exception x.Connection
reconnect_connection {x = x} d =
    (record d { attempts = d.attempts + 1 }, open_connection x d.attempts)

-- What `acquire_connection` does with the front of the queue.
unfoldable pub reopen :
    {x : Pqxx} → Database x → x.Connection → Database x × Outcome Exception (Option x.Connection)
reopen {x = x} d conn =
    if x.is_open conn
    then (d, ok (some conn))
    else (let (d', r) = reconnect_connection d in (d', r >>= λ c. ok (some c)))

unfoldable pub take_front :
    {x : Pqxx}
    → Database x
    → List x.Connection
    → Database x × Outcome Exception (Option x.Connection)
take_front d [] = (d, ok none)
take_front d (conn ∷ rest) = reopen (record d { connections = rest }) conn

-- `cond_.wait_for` on an empty queue: `wait` is what the other threads do to the pool in this time.
unfoldable pub await :
    {x : Pqxx} → (Database x → Database x) → Database x → List x.Connection → Database x
await wait d [] = wait d
await wait d (conn ∷ rest) = d

unfoldable pub acquire_connection :
    {x : Pqxx}
    → (Database x → Database x)
    → Database x
    → Database x × Outcome Exception (Option x.Connection)
acquire_connection wait d = let d' = await wait d d.connections in take_front d' d'.connections

-- `if (!conn) throw`
unfoldable pub scoped : {C : Type 0} → Outcome Exception (Option C) → Outcome Exception C
scoped (ok (some conn)) = ok conn
scoped (ok none) = throw no_connection
scoped (throw e) = throw e
scoped fault = fault

unfoldable pub acquire_scoped_connection :
    {x : Pqxx}
    → (Database x → Database x)
    → Database x
    → Database x × Outcome Exception x.Connection
acquire_scoped_connection wait d = let (d', r) = acquire_connection wait d in (d', scoped r)

-- The loop over the parameters; `bound` is what the invocation has.
unfoldable pub bind_params :
    List (Option (List ℕ)) → List (Option (List ℕ)) → List (Option (List ℕ))
bind_params bound [] = bound
bind_params bound (some param ∷ params) = bind_params (bound ++ (some param ∷ [])) params
bind_params bound (none ∷ params) = bind_params (bound ++ (none ∷ [])) params

-- The mapping of a result: `nothing` is the value of `NothingRow` if this is the type, `map` is
-- `PgRowMapper<Struct>::map`.
unfoldable pub first_row :
    {R S : Type 0} → Option S → (R → Outcome Exception S) → List R → Outcome Exception (Option S)
first_row (some nothing) map rows = ok (some nothing)
first_row none map [] = ok none
first_row none map (row ∷ rows) = map row >>= λ s. ok (some s)

-- The `try` block.
unfoldable pub transaction :
    {S : Type 0} (x : Pqxx)
    → Option S
    → (x.Row → Outcome Exception S)
    → PreparedStatement
    → x.Connection
    → x.Connection × Outcome Exception (Option S)
transaction x nothing map stmt conn = next (x.begin conn) λ _ c1.
    next (x.exec stmt.name (bind_params [] stmt.params) c1)
      λ rows c2. next (x.commit c2) λ _ c3. (c3, first_row nothing map rows)

-- `throw;`, unless the reconnection has thrown. A connection that is made is destroyed.
unfoldable pub rethrow : {C S : Type 0} → Outcome Exception C → Outcome Exception S
rethrow (ok conn) = throw broken_connection
rethrow (throw e) = throw e
rethrow fault = fault

-- The `catch`.
unfoldable pub catch_broken :
    {x : Pqxx} {S : Type 0}
    → Database x
    → Outcome Exception (Option S)
    → Database x × Outcome Exception (Option S)
catch_broken d (ok row) = (d, ok row)
catch_broken d (throw broken_connection) =
    let (d', reconnect) = reconnect_connection d in (d', rethrow reconnect)
catch_broken d (throw e) = (d, throw e)
catch_broken d fault = (d, fault)

-- With the scoped connection: its destructor gives the connection back at the end.
unfoldable pub run_scoped :
    {S : Type 0} (x : Pqxx)
    → Option S
    → (x.Row → Outcome Exception S)
    → PreparedStatement
    → Database x × Outcome Exception x.Connection
    → Database x × Outcome Exception (Option S)
run_scoped x nothing map stmt (d, ok conn) =
    let (conn', r) = transaction x nothing map stmt conn in
    let (d', r') = catch_broken d r in (release_connection d' conn', r')
run_scoped x nothing map stmt (d, throw e) = (d, throw e)
run_scoped x nothing map stmt (d, fault) = (d, fault)

unfoldable pub execute_sync :
    {S : Type 0} (x : Pqxx)
    → Option S
    → (x.Row → Outcome Exception S)
    → (Database x → Database x)
    → Database x
    → PreparedStatement
    → Database x × Outcome Exception (Option S)
execute_sync x nothing map wait d stmt =
    run_scoped x nothing map stmt (acquire_scoped_connection wait d)
