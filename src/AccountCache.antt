-- ===== src/AccountCache.antt =====
-- src/server/AccountCache/AccountCache.hpp: accounts that were read from the database, kept for a while
-- after their last use.
-- The map is an association list from user names to entries; `steady_clock::now()` is an argument, a
-- number of clock ticks, and so is the time to live. The clock does not go back, so a time that was
-- read earlier is at most `now`. The mutex makes each method one step; the cleanup timer is the caller
-- of `cleanup_expired_entries`.
pub mod Laws
pub mod Timer
pub mod Recorded
pub mod Spec
use purity.Common.{ℕ, ◌-◌, Bool, List, [], ◌∷◌, Option, none, some, ltb, bytes_eq, if◌then◌else◌}

pub record Entry : Type 0 where
  pub salt : List ℕ
  pub verifier : List ℕ
  pub last_access : ℕ

pub record AccountCache : Type 0 where
  pub cache : List (List ℕ × Entry)
  pub ttl : ℕ

unfoldable pub find : List ℕ → List (List ℕ × Entry) → Option Entry
find username [] = none
find username ((name, e) ∷ rest) = if bytes_eq name username then some e else find username rest

-- `cache_[username] = entry`
unfoldable pub assign : List ℕ → Entry → List (List ℕ × Entry) → List (List ℕ × Entry)
assign username entry [] = (username, entry) ∷ []
assign username entry ((name, e) ∷ rest) =
    if bytes_eq name username then (name, entry) ∷ rest else (name, e) ∷ assign username entry rest

-- `erase(username)`
unfoldable pub erase : List ℕ → List (List ℕ × Entry) → List (List ℕ × Entry)
erase username [] = []
erase username ((name, e) ∷ rest) =
    if bytes_eq name username then erase username rest else (name, e) ∷ erase username rest

-- `now - last_access > ttl_`
abbrev pub is_expired : ℕ → ℕ → Entry → Bool
is_expired ttl now e = ltb ttl (now - e.last_access)

-- What `get` does with the entry that `find` gave.
unfoldable pub get_found : AccountCache → ℕ → List ℕ → Option Entry → AccountCache × Option Entry
get_found c now username none = (c, none)
get_found c now username (some e) =
    let e' = record e { last_access = now } in
    if is_expired c.ttl now e
    then (c, none)
    else (record c { cache = assign username e' c.cache }, some e')

unfoldable pub get : AccountCache → ℕ → List ℕ → AccountCache × Option Entry
get c now username = get_found c now username (find username c.cache)

unfoldable pub put : AccountCache → ℕ → List ℕ → Entry → AccountCache
put c now username entry =
    let new_entry = record entry { last_access = now } in
    record c { cache = assign username new_entry c.cache }

unfoldable pub invalidate : AccountCache → List ℕ → AccountCache
invalidate c username = record c { cache = erase username c.cache }

unfoldable pub sweep : ℕ → ℕ → List (List ℕ × Entry) → List (List ℕ × Entry)
sweep ttl now [] = []
sweep ttl now ((name, e) ∷ rest) =
    if is_expired ttl now e then sweep ttl now rest else (name, e) ∷ sweep ttl now rest

unfoldable pub cleanup_expired_entries : AccountCache → ℕ → AccountCache
cleanup_expired_entries c now = record c { cache = sweep c.ttl now c.cache }
