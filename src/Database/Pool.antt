-- ===== src/Database/Pool.antt =====
-- src/common/database/Database.hpp: the pool under several threads.
-- A step is what one thread does while it holds the mutex, or the reconnection in the `catch`, which
-- takes nothing from the queue. A thread that waits for a connection has released the mutex, and takes
-- one when there is one.
use purity.Common.{
  ℕ, ◌+◌, zero, suc, ◌≡◌, refl, ap, subst, ◌∙◌, Bool, true, false, List, [], ◌∷◌, ◌++◌, Option,
  none, some, Outcome, ok, throw, fault, ◌>>=◌, if◌then◌else◌, arith, length, length-append,
}
use purity.Exception.{Exception}
use purity.Database.{
  Pqxx, Database, open_connection, push, fill, create, release_connection, reconnect_connection,
  acquire_connection, take_front, reopen, await,
}
use purity.Database.Laws.{pool}

-- The pool, and the connections that threads hold.
pub record State (x : Pqxx) : Type 0 where
  pub database : Database x
  pub held : List x.Connection

-- From a state, with so many connections lost, to a state. What a thread gives back is the connection as
-- its transaction has left it.
pub data Step {x : Pqxx} (p : State x) (lost : ℕ) (q : State x) : Type 0 where
  acquires :
      (conn : x.Connection)
      → acquire_connection (λ d. d) p.database ≡ (q.database, ok (some conn))
      → lost ≡ 0
      → q.held ≡ conn ∷ p.held
      → Step p lost q
  loses :
      (e : Exception)
      → acquire_connection (λ d. d) p.database ≡ (q.database, throw e)
      → lost ≡ 1
      → q.held ≡ p.held
      → Step p lost q
  times_out :
      acquire_connection (λ d. d) p.database ≡ (q.database, ok none)
      → lost ≡ 0
      → q.held ≡ p.held
      → Step p lost q
  releases :
      (before : List x.Connection) (conn left : x.Connection) (after : List x.Connection)
      → p.held ≡ before ++ (conn ∷ after)
      → q.database ≡ release_connection p.database left
      → lost ≡ 0
      → q.held ≡ before ++ after
      → Step p lost q
  reconnects :
      q.database ≡ (reconnect_connection p.database).0 → lost ≡ 0 → q.held ≡ p.held → Step p lost q

pub data Steps {x : Pqxx} : State x → ℕ → State x → Type 0 where
  done : (p : State x) → Steps p 0 p
  more :
      {p q r : State x} {lost others : ℕ}
      → Step p lost q
      → Steps q others r
      → Steps p (lost + others) r

abbrev pub idle : {x : Pqxx} → State x → ℕ
idle p = length p.database.connections

abbrev pub in_use : {x : Pqxx} → State x → ℕ
in_use p = length p.held

-- What `acquire_connection` does to the size of the queue, by its result.
abbrev Taken :
    {x : Pqxx} → Database x → Database x × Outcome Exception (Option x.Connection) → Type 0
Taken d (d', ok (some conn)) = length d.connections ≡ length d'.connections + 1
Taken d (d', ok none) = length d.connections ≡ length d'.connections
Taken d (d', throw e) = length d.connections ≡ length d'.connections + 1
Taken d (d', fault) = length d.connections ≡ length d'.connections + 1

taken_front :
    (x : Pqxx) (connections : List x.Connection) (n : ℕ)
    → Taken (pool {x = x} connections n) (take_front (pool {x = x} connections n) connections)
unfolding take_front reopen reconnect_connection
taken_front x [] n = refl
taken_front x (conn ∷ rest) n = go (x.is_open conn) (open_connection x n)
  where
    go :
        (open_now : Bool) (opened : Outcome Exception x.Connection)
        → Taken {x = x} (pool (conn ∷ rest) n) (
            if open_now
            then (pool rest n, ok (some conn))
            else (pool rest (n + 1), opened >>= λ c. ok (some c)))
    go true opened = omega arith
    go false (ok c) = omega arith
    go false (throw e) = omega arith
    go false fault = omega arith

await-same :
    {x : Pqxx} (d : Database x) (connections : List x.Connection) → await (λ e. e) d connections ≡ d
unfolding await
await-same d [] = refl
await-same d (conn ∷ rest) = refl

acquire_connection-Taken : {x : Pqxx} (d : Database x) → Taken d (acquire_connection (λ e. e) d)
unfolding acquire_connection
acquire_connection-Taken {x = x} d =
    rw (await-same {x = x} d d.connections) (taken_front x d.connections d.attempts)

taken :
    {x : Pqxx} (d : Database x) (r : Database x × Outcome Exception (Option x.Connection))
    → acquire_connection (λ e. e) d ≡ r
    → Taken d r
taken {x = x} d r e = subst (Taken d) e (acquire_connection-Taken {x = x} d)

Step-total :
    {x : Pqxx} (p q : State x) (lost : ℕ)
    → Step p lost q
    → idle p + in_use p ≡ idle q + in_use q + lost
unfolding release_connection push reconnect_connection
Step-total {x = x} p q lost (acquires conn run l h) =
    let t : idle p ≡ idle q + 1 = taken {x = x} p.database _ run in
    let k : in_use q ≡ suc (in_use p) = ap length h in omega (arith, t, k, l)
Step-total {x = x} p q lost (loses e run l h) =
    let t : idle p ≡ idle q + 1 = taken {x = x} p.database _ run in
    let k : in_use q ≡ in_use p = ap length h in omega (arith, t, k, l)
Step-total {x = x} p q lost (times_out run l h) =
    let t : idle p ≡ idle q = taken {x = x} p.database _ run in
    let k : in_use q ≡ in_use p = ap length h in omega (arith, t, k, l)
Step-total p q lost (releases before conn left after h d l h') =
    let t : idle q ≡ idle p + 1 =
      ap (λ e. length e.connections) d ∙ length-append p.database.connections (left ∷ []) in
    let k : in_use p ≡ length before + suc (length after) =
      ap length h ∙ length-append before (conn ∷ after) in
    let k' : in_use q ≡ length before + length after = ap length h' ∙ length-append before after in
    omega (arith, t, k, k', l)
Step-total p q lost (reconnects d l h) =
    let t : idle q ≡ idle p = ap (λ e. length e.connections) d in
    let k : in_use q ≡ in_use p = ap length h in omega (arith, t, k, l)

-- Over any interleaving of threads that take connections, give them back, time out, fail to reopen one
-- and reconnect, the connections in the queue and in use are as many as at the start, less one for each
-- that could not be reopened: none is duplicated, and none is lost otherwise.
pub Steps-total :
    {x : Pqxx} (p q : State x) (lost : ℕ)
    → Steps p lost q
    → idle p + in_use p ≡ idle q + in_use q + lost
Steps-total p q lost (done r) = omega arith
Steps-total p q lost (more {q = mid} {lost = first} {others = later} st steps) =
    let t = Step-total p mid first st in
    let u = Steps-total mid q later steps in omega (arith, t, u)

-- What holds of every pool that a continuation returns holds when a connection is opened first.
opened-length :
    {x : Pqxx} {C : Type 0} (opened : Outcome Exception C) (f : C → Outcome Exception (Database x))
    (k : ℕ)
    → ((conn : C) (r : Database x) → f conn ≡ ok r → length r.connections ≡ k)
    → (d : Database x) → (opened >>= f) ≡ ok d
    → length d.connections ≡ k
opened-length (ok conn) f k h d e = h conn d e
opened-length (throw thrown) f k h d e = absurd cc
opened-length fault f k h d e = absurd cc

pub fill-length :
    {x : Pqxx} (n : ℕ) (d d' : Database x)
    → fill n d ≡ ok d'
    → length d'.connections ≡ length d.connections + n
unfolding fill push
fill-length zero d d' e =
    let same : d ≡ d' = cc in
    let t : length d.connections ≡ length d'.connections = ap (λ f. length f.connections) same in
    omega (arith, t)
fill-length {x = x} (suc n) d d' e =
    let grown : Database x = record d { attempts = d.attempts + 1 } in
    opened-length (open_connection x d.attempts) (λ conn. fill n (push grown conn))
      (length d.connections + suc n)
      (λ conn r run.
        let u = fill-length {x = x} n (push grown conn) r run in
        omega (arith, u, length-append d.connections (conn ∷ [])))
      d' e

-- A pool that has been made for `pool_size` connections never has more of them than that, in the queue
-- and in use together.
pub Steps-bounded :
    {x : Pqxx} (pool_size : ℕ) (d : Database x) (q : State x) (lost : ℕ)
    → create x pool_size ≡ ok d
    → Steps (record { database = d; held = [] }) lost q
    → idle q + in_use q + lost ≡ pool_size
unfolding create
Steps-bounded pool_size d q lost e steps =
    let t = Steps-total _ q lost steps in let u = fill-length pool_size _ d e in omega (arith, t, u)
