-- ===== src/AccountCache/Timer.antt =====
-- src/server/AccountCache/AccountCache.hpp: the constructor, and the timer that calls the cleanup.
-- `waiting` says that an `async_wait` is outstanding; `stop` cancels it, and its handler then has an error.
use purity.Common.{ℕ, Bool, true, false, []}
use purity.AccountCache.{AccountCache, cleanup_expired_entries}

pub record CleanedCache : Type 0 where
  pub account_cache : AccountCache
  pub cleanup_interval : ℕ
  pub waiting : Bool

unfoldable pub create : ℕ → ℕ → CleanedCache
create ttl cleanup_interval = record {
  account_cache = record { cache = []; ttl = ttl };
  cleanup_interval = cleanup_interval;
  waiting = false;
}

unfoldable pub start_cleanup_timer : CleanedCache → CleanedCache
start_cleanup_timer c = record c { waiting = true }

unfoldable pub start : CleanedCache → CleanedCache
start c = start_cleanup_timer c

unfoldable pub wait_succeeded : CleanedCache → ℕ → CleanedCache
wait_succeeded c now =
    start_cleanup_timer (record c { account_cache = cleanup_expired_entries c.account_cache now })

unfoldable pub wait_failed : CleanedCache → CleanedCache
wait_failed c = record c { waiting = false }
