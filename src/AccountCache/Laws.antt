-- ===== src/AccountCache/Laws.antt =====
-- src/server/AccountCache/AccountCache.hpp: the cache is a map with a sliding time to live.
use purity.Common.{
  ℕ, ◌-◌, ◌≤◌, ◌<◌, ◌≡◌, refl, false, List, [], ◌∷◌, Option, none, some, inl, inr, bytes_eq,
  bytes_eq_refl, bytes_eq→eq, if◌then◌else◌, Bool-cases, arith,
}
use purity.AccountCache.{
  Entry, AccountCache, find, assign, erase, is_expired, get_found, get, put, invalidate, sweep,
  cleanup_expired_entries,
}

-- The keys are compared as texts, so each law is about the text that the key equals.
pub find-assign :
    (u w : List ℕ) (e : Entry) (m : List (List ℕ × Entry))
    → find w (assign u e m) ≡ (if bytes_eq u w then some e else find w m)
unfolding find assign
find-assign u w e [] = refl
find-assign u w e ((name, f) ∷ rest) = ground (
  arith,
  find-assign u w e rest,
  bytes_eq→eq name u,
  bytes_eq→eq name w,
  bytes_eq→eq u w,
  bytes_eq_refl u,
)

pub find-erase :
    (u w : List ℕ) (m : List (List ℕ × Entry))
    → find w (erase u m) ≡ (if bytes_eq u w then none else find w m)
unfolding find erase
find-erase u w [] = ground arith
find-erase u w ((name, f) ∷ rest) = ground (
  arith,
  find-erase u w rest,
  bytes_eq→eq name u,
  bytes_eq→eq name w,
  bytes_eq→eq u w,
  bytes_eq_refl u,
)

-- A name has one entry at most.
abbrev pub Distinct : List (List ℕ × Entry) → Type 0
Distinct [] = Unit {0}
Distinct ((name, e) ∷ rest) = (find name rest ≡ none) × Distinct rest

pub assign-Distinct :
    (u : List ℕ) (e : Entry) (m : List (List ℕ × Entry)) → Distinct m → Distinct (assign u e m)
unfolding assign
assign-Distinct u e [] d = (unfold find in refl, tt)
assign-Distinct u e ((name, f) ∷ rest) d = elim (Bool-cases (bytes_eq name u)) [
  | inl hit ↦ rw hit d
  | inr miss ↦ rw miss (
    ground (arith, find-assign u name e rest, bytes_eq→eq u name, bytes_eq_refl name, d.0),
    assign-Distinct u e rest d.1,
  )
]

pub erase-Distinct : (u : List ℕ) (m : List (List ℕ × Entry)) → Distinct m → Distinct (erase u m)
unfolding erase
erase-Distinct u [] d = tt
erase-Distinct u ((name, f) ∷ rest) d = elim (Bool-cases (bytes_eq name u)) [
  | inl hit ↦ rw hit (erase-Distinct u rest d.1)
  | inr miss ↦ rw miss (ground (arith, find-erase u name rest, d.0), erase-Distinct u rest d.1)
]

-- What is left of an entry once the time to live is looked at.
abbrev pub fresh_only : ℕ → ℕ → Option Entry → Option Entry
fresh_only ttl now none = none
fresh_only ttl now (some e) = if is_expired ttl now e then none else some e

pub find-sweep :
    (ttl now : ℕ) (w : List ℕ) (m : List (List ℕ × Entry))
    → Distinct m
    → find w (sweep ttl now m) ≡ fresh_only ttl now (find w m)
unfolding find sweep
find-sweep ttl now w [] d = refl
find-sweep ttl now w ((name, f) ∷ rest) d =
    ground (arith, find-sweep ttl now w rest d.1, bytes_eq→eq name w, d.0)

pub sweep-Distinct :
    (ttl now : ℕ) (m : List (List ℕ × Entry)) → Distinct m → Distinct (sweep ttl now m)
unfolding sweep
sweep-Distinct ttl now [] d = tt
sweep-Distinct ttl now ((name, f) ∷ rest) d = elim (Bool-cases (is_expired ttl now f)) [
  | inl old ↦ rw old (sweep-Distinct ttl now rest d.1)
  | inr fresh ↦
      rw fresh
        (ground (arith, find-sweep ttl now name rest d.1, d.0), sweep-Distinct ttl now rest d.1)
]

get_found-Distinct :
    (c : AccountCache) (now : ℕ) (u : List ℕ) (o : Option Entry)
    → Distinct c.cache
    → Distinct (get_found c now u o).0.cache
unfolding get_found
get_found-Distinct c now u none d = d
get_found-Distinct c now u (some f) d = elim (Bool-cases (is_expired c.ttl now f)) [
  | inl old ↦ rw old d
  | inr fresh ↦ rw fresh (assign-Distinct u (record f { last_access = now }) c.cache d)
]

-- Every method keeps the names distinct.
pub methods-Distinct :
    (c : AccountCache) (now : ℕ) (u : List ℕ) (e : Entry)
    → Distinct c.cache
    → Distinct (get c now u).0.cache
      × Distinct (put c now u e).cache
      × Distinct (invalidate c u).cache
      × Distinct (cleanup_expired_entries c now).cache
unfolding get put invalidate cleanup_expired_entries
methods-Distinct c now u e d = (
  get_found-Distinct c now u (find u c.cache) d,
  assign-Distinct u (record e { last_access = now }) c.cache d,
  erase-Distinct u c.cache d,
  sweep-Distinct c.ttl now c.cache d,
)

-- An entry that was put at time `t` is found at `t'`, with its time of last use moved to `t'`, as long
-- as `t' - t` is at most the time to live; after that it is not, and the cache is left as it is. Other
-- names are found as before.
pub get-put :
    (c : AccountCache) (t t' : ℕ) (u : List ℕ) (e : Entry)
    → let c' = put c t u e in
      (t' - t ≤ c.ttl → (get c' t' u).1 ≡ some (record e { last_access = t' }))
      × (c.ttl < t' - t → get c' t' u ≡ (c', none))
      × ((w : List ℕ) → bytes_eq u w ≡ false → (get c' t' w).1 ≡ (get c t' w).1)
unfolding get put get_found
get-put c t t' u e =
    let stored : Entry = record e { last_access = t } in
    let own : find u (assign u stored c.cache) ≡ some stored =
      rw (find-assign u u stored c.cache, bytes_eq_refl u) refl in
    (
      λ h. ground (arith, own),
      λ h. ground (arith, own),
      λ w miss. ground (arith, find-assign u w stored c.cache),
    )

-- The cleanup at time `t` is invisible: at any later time `get` answers as it would have without.
pub get-cleanup_expired_entries :
    (c : AccountCache) (t t' : ℕ) (u : List ℕ)
    → Distinct c.cache
    → t ≤ t'
    → (get (cleanup_expired_entries c t) t' u).1 ≡ (get c t' u).1
unfolding get get_found cleanup_expired_entries
get-cleanup_expired_entries c t t' u d h = ground (arith, find-sweep c.ttl t u c.cache d)

-- An entry that was put is given back, with a new time of access, for as long as the time to live.
pub get-put_live :
    (c : AccountCache) (t t' : ℕ) (u : List ℕ) (e : Entry)
    → t' - t ≤ c.ttl
    → (get (put c t u e) t' u).1 ≡ some (record e { last_access = t' })
get-put_live c t t' u e h = (get-put c t t' u e).0 h

-- After that it is not given any more, and the cache stays as it is.
pub get-put_expired :
    (c : AccountCache) (t t' : ℕ) (u : List ℕ) (e : Entry)
    → c.ttl < t' - t
    → get (put c t u e) t' u ≡ (put c t u e, none)
get-put_expired c t t' u e h = (get-put c t t' u e).1 h

-- For another name `put` changes nothing of what `get` gives.
pub get-put_other :
    (c : AccountCache) (t t' : ℕ) (u w : List ℕ) (e : Entry)
    → bytes_eq u w ≡ false
    → (get (put c t u e) t' w).1 ≡ (get c t' w).1
get-put_other c t t' u w e h = (get-put c t t' u e).2 w h
