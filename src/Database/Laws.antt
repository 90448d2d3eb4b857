-- ===== src/Database/Laws.antt =====
-- src/common/database/Database.hpp: what one call does to the pool.
use purity.Common.{
  ℕ, ◌+◌, ◌≡◌, refl, sym, ap, ◌∙◌, ◌⊎◌, inl, inr, Bool, true, false, List, [], ◌∷◌, ◌++◌, Option,
  none, some, Outcome, ok, throw, fault, if◌then◌else◌, append-nil, append_assoc,
}
use purity.Exception.{Exception, no_connection, broken_connection}
use purity.PreparedStatement.{PreparedStatement}
use purity.Database.{
  Pqxx, Database, open_connection, push, close_all, shutdown, release_connection,
  reconnect_connection, reopen, take_front, await, acquire_connection, scoped,
  acquire_scoped_connection, bind_params, transaction, rethrow, catch_broken, run_scoped,
  execute_sync,
}

-- The invocation has the statement's parameters, in order.
bind_params_lem :
    (bound params : List (Option (List ℕ))) → bind_params bound params ≡ bound ++ params
unfolding bind_params
bind_params_lem bound [] = sym (append-nil bound)
bind_params_lem bound (some p ∷ ps) =
    bind_params_lem (bound ++ (some p ∷ [])) ps ∙ append_assoc bound (some p ∷ []) ps
bind_params_lem bound (none ∷ ps) =
    bind_params_lem (bound ++ (none ∷ [])) ps ∙ append_assoc bound (none ∷ []) ps

-- The pool with `connections`, after `attempts`.
abbrev pub pool : {x : Pqxx} → List x.Connection → ℕ → Database x
pool connections attempts = record { connections = connections; attempts = attempts }

-- Either the answer of the transaction, or that of a reconnection that its broken connection starts.
abbrev pub Answer :
    {C S : Type 0}
    → Outcome Exception C
    → Outcome Exception (Option S)
    → Outcome Exception (Option S)
    → Type 0
Answer opened ran r = (r ≡ ran) ⊎ ((ran ≡ throw broken_connection) × (r ≡ rethrow opened))

-- The queue is left alone, whatever has been caught.
pub catch_broken_lem :
    {x : Pqxx} {S : Type 0} (d : Database x) (ran : Outcome Exception (Option S))
    → ((catch_broken d ran).0.connections ≡ d.connections)
      × Answer (open_connection x d.attempts) ran (catch_broken d ran).1
unfolding catch_broken reconnect_connection
catch_broken_lem d (ok row) = (refl, inl refl)
catch_broken_lem d fault = (refl, inl refl)
catch_broken_lem d (throw broken_connection) = (refl, inr (refl, refl))
catch_broken_lem d (throw (Exception.not_enough_data a b c e)) = (refl, inl refl)
catch_broken_lem d (throw Exception.length_error) = (refl, inl refl)
catch_broken_lem d (throw Exception.write_overflow) = (refl, inl refl)
catch_broken_lem d (throw Exception.read_overflow) = (refl, inl refl)
catch_broken_lem d (throw Exception.length_mismatch) = (refl, inl refl)
catch_broken_lem d (throw Exception.source_too_long) = (refl, inl refl)
catch_broken_lem d (throw Exception.odd_length) = (refl, inl refl)
catch_broken_lem d (throw Exception.bad_hex_digit) = (refl, inl refl)
catch_broken_lem d (throw Exception.no_connection) = (refl, inl refl)
catch_broken_lem d (throw Exception.reconnection_failed) = (refl, inl refl)
catch_broken_lem d (throw Exception.sql_error) = (refl, inl refl)
catch_broken_lem d (throw Exception.resolve_failed) = (refl, inl refl)
catch_broken_lem d (throw Exception.bad_timestamp) = (refl, inl refl)

-- The three ways in which the front of the queue is taken.
pub acquire-open :
    {x : Pqxx} (wait : Database x → Database x) (conn : x.Connection) (rest : List x.Connection)
    (n : ℕ)
    → x.is_open conn ≡ true
    → acquire_scoped_connection wait (pool (conn ∷ rest) n) ≡ (pool rest n, ok conn)
unfolding acquire_scoped_connection acquire_connection await take_front reopen scoped
acquire-open wait conn rest n e = rw e refl

pub acquire-reopened :
    {x : Pqxx} (wait : Database x → Database x) (conn fresh : x.Connection)
    (rest : List x.Connection) (n : ℕ)
    → x.is_open conn ≡ false
    → open_connection x n ≡ ok fresh
    → acquire_scoped_connection wait (pool (conn ∷ rest) n) ≡ (pool rest (n + 1), ok fresh)
unfolding acquire_scoped_connection acquire_connection await take_front reopen reconnect_connection
    scoped
acquire-reopened wait conn fresh rest n e f = rw (e, f) refl

pub acquire-lost :
    {x : Pqxx} (wait : Database x → Database x) (conn : x.Connection) (rest : List x.Connection)
    (n : ℕ) (thrown : Exception)
    → x.is_open conn ≡ false
    → open_connection x n ≡ throw thrown
    → acquire_scoped_connection wait (pool (conn ∷ rest) n) ≡ (pool rest (n + 1), throw thrown)
unfolding acquire_scoped_connection acquire_connection await take_front reopen reconnect_connection
    scoped
acquire-lost wait conn rest n thrown e f = rw (e, f) refl

pub acquire-none :
    {x : Pqxx} (wait : Database x → Database x) (n m : ℕ)
    → wait (pool [] n) ≡ pool [] m
    → acquire_scoped_connection wait (pool [] n) ≡ (pool [] m, throw no_connection)
unfolding acquire_scoped_connection acquire_connection await take_front scoped
acquire-none {x = x} wait n m e =
    ap (λ d. let (d', r) = take_front {x = x} d d.connections in (d', scoped r)) e

-- With a connection in hand, the statement is run and the connection, as the transaction leaves it,
-- goes to the end of the queue.
pub run_scoped_lem :
    {S : Type 0} (x : Pqxx) (nothing : Option S) (map : x.Row → Outcome Exception S)
    (stmt : PreparedStatement) (rest : List x.Connection) (n : ℕ) (conn : x.Connection)
    → ((run_scoped x nothing map stmt (pool rest n, ok conn)).0.connections
        ≡ rest ++ ((transaction x nothing map stmt conn).0 ∷ []))
      × Answer
          (open_connection x n)
          (transaction x nothing map stmt conn).1
          (run_scoped x nothing map stmt (pool rest n, ok conn)).1
unfolding run_scoped release_connection push
run_scoped_lem x nothing map stmt rest n conn =
    let ran = transaction x nothing map stmt conn in
    let (queue, answer) = catch_broken_lem (pool {x = x} rest n) ran.1 in
    (ap (λ cs. cs ++ (ran.0 ∷ [])) queue, answer)

-- A statement that finds an open connection at the front of the queue is run on it, and gives it back
-- whatever happens: it goes to the end of the queue, also when it is broken. The answer is that of the
-- transaction; of a broken connection, it is this exception or that of the reconnection.
pub execute_sync-open :
    {S : Type 0} (x : Pqxx) (nothing : Option S) (map : x.Row → Outcome Exception S)
    (wait : Database x → Database x) (stmt : PreparedStatement) (conn : x.Connection)
    (rest : List x.Connection) (n : ℕ)
    → x.is_open conn ≡ true
    → ((execute_sync x nothing map wait (pool (conn ∷ rest) n) stmt).0.connections
        ≡ rest ++ ((transaction x nothing map stmt conn).0 ∷ []))
      × Answer
          (open_connection x n)
          (transaction x nothing map stmt conn).1
          (execute_sync x nothing map wait (pool (conn ∷ rest) n) stmt).1
unfolding execute_sync
execute_sync-open x nothing map wait stmt conn rest n e =
    rw (acquire-open {x = x} wait conn rest n e) (run_scoped_lem x nothing map stmt rest n conn)

-- A statement that finds a closed connection at the front of the queue replaces it by a new one, runs on
-- that and gives it back.
pub execute_sync-reopened :
    {S : Type 0} (x : Pqxx) (nothing : Option S) (map : x.Row → Outcome Exception S)
    (wait : Database x → Database x) (stmt : PreparedStatement) (conn fresh : x.Connection)
    (rest : List x.Connection) (n : ℕ)
    → x.is_open conn ≡ false
    → open_connection x n ≡ ok fresh
    → ((execute_sync x nothing map wait (pool (conn ∷ rest) n) stmt).0.connections
        ≡ rest ++ ((transaction x nothing map stmt fresh).0 ∷ []))
      × Answer
          (open_connection x (n + 1))
          (transaction x nothing map stmt fresh).1
          (execute_sync x nothing map wait (pool (conn ∷ rest) n) stmt).1
unfolding execute_sync
execute_sync-reopened x nothing map wait stmt conn fresh rest n e f =
    rw (acquire-reopened {x = x} wait conn fresh rest n e f)
      (run_scoped_lem x nothing map stmt rest (n + 1) fresh)

-- A statement that finds a closed connection at the front of the queue, and cannot make a new one,
-- answers with what that throws; the pool has one connection less.
pub execute_sync-lost :
    {S : Type 0} (x : Pqxx) (nothing : Option S) (map : x.Row → Outcome Exception S)
    (wait : Database x → Database x) (stmt : PreparedStatement) (conn : x.Connection)
    (rest : List x.Connection) (n : ℕ) (thrown : Exception)
    → x.is_open conn ≡ false
    → open_connection x n ≡ throw thrown
    → execute_sync x nothing map wait (pool (conn ∷ rest) n) stmt
      ≡ (pool rest (n + 1), throw thrown)
unfolding execute_sync run_scoped
execute_sync-lost x nothing map wait stmt conn rest n thrown e f =
    rw (acquire-lost {x = x} wait conn rest n thrown e f) refl

-- A statement for which no connection comes in time throws.
pub execute_sync-none :
    {S : Type 0} (x : Pqxx) (nothing : Option S) (map : x.Row → Outcome Exception S)
    (wait : Database x → Database x) (stmt : PreparedStatement) (n m : ℕ)
    → wait (pool [] n) ≡ pool [] m
    → execute_sync x nothing map wait (pool [] n) stmt ≡ (pool [] m, throw no_connection)
unfolding execute_sync run_scoped
execute_sync-none x nothing map wait stmt n m e = rw (acquire-none {x = x} wait n m e) refl

abbrev pub AllClosed : (x : Pqxx) → List x.Connection → Type 0
AllClosed x [] = Unit
AllClosed x (c ∷ cs) = (x.is_open c ≡ false) × AllClosed x cs

close_all-AllClosed :
    (x : Pqxx) (cs : List x.Connection)
    → ((c : x.Connection) → x.is_open (x.disconnect c) ≡ false)
    → AllClosed x (close_all x cs)
unfolding close_all
close_all-AllClosed x [] shut = tt
close_all-AllClosed x (c ∷ cs) shut = (go (x.is_open c) refl, close_all-AllClosed x cs shut)
  where
    go : (b : Bool) → x.is_open c ≡ b → x.is_open (if b then x.disconnect c else c) ≡ false
    go true e = shut c
    go false e = e

-- After `shutdown` the queue is empty, and every connection that it held is closed.
pub shutdown-AllClosed :
    (x : Pqxx) (d : Database x)
    → ((c : x.Connection) → x.is_open (x.disconnect c) ≡ false)
    → ((shutdown d).0.connections ≡ []) × AllClosed x (shutdown d).1
unfolding shutdown
shutdown-AllClosed x d shut = (refl, close_all-AllClosed x d.connections shut)
