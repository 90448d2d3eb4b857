-- ===== src/AccountCache/Spec.antt =====
-- src/server/AccountCache/AccountCache.hpp: what the cache promises, and that it keeps the promise.
-- The abstract cache is a function from names to entries. It knows no order and no cleanup; an entry that is
-- too old counts as none.
use purity.Common.{
  ℕ, ◌≤◌, ◌≡◌, refl, sym, ap, ap₂, subst, ◌∙◌, inl, inr, List, [], ◌∷◌, Option, none, some,
  bytes_eq, Bool-cases, if◌then◌else◌, arith,
}
use purity.AccountCache.{
  Entry, AccountCache, find, assign, erase, sweep, is_expired, get_found, get, put, invalidate,
  cleanup_expired_entries,
}
use purity.AccountCache.Laws.{
  Distinct, fresh_only, find-assign, find-erase, find-sweep, assign-Distinct, erase-Distinct,
  sweep-Distinct,
}

pub data Op : Type 0 where
  gets invalidates : List ℕ → Op
  puts : List ℕ → Entry → Op
  cleans : Op

abbrev accessed : ℕ → Entry → Entry
accessed now e = record e { last_access = now }

-- The cache after an operation at a time, and what `get` gave, for the others nothing.
unfoldable pub perform : AccountCache → ℕ → Op → AccountCache × Option Entry
perform c now (gets username) = get c now username
perform c now (puts username entry) = (put c now username entry, none)
perform c now (invalidates username) = (invalidate c username, none)
perform c now cleans = (cleanup_expired_entries c now, none)

abbrev pub Map : Type 0
Map = List ℕ → Option Entry

abbrev with_entry : Map → List ℕ → Option Entry → Map
with_entry m username o w = if bytes_eq username w then o else m w

unfoldable pub found : Map → ℕ → List ℕ → Option Entry → Map × Option Entry
found m now username none = (m, none)
found m now username (some e) =
    (with_entry m username (some (accessed now e)), some (accessed now e))

unfoldable pub promise : ℕ → Map → ℕ → Op → Map × Option Entry
promise ttl m now (gets username) = found m now username (fresh_only ttl now (m username))
promise ttl m now (puts username entry) = (with_entry m username (some (accessed now entry)), none)
promise ttl m now (invalidates username) = (with_entry m username none, none)
promise ttl m now cleans = (m, none)

-- The answers to a course of operations at their times.
unfoldable pub answers : AccountCache → List (ℕ × Op) → List (Option Entry)
answers c [] = []
answers c ((now, op) ∷ ops) = let next = perform c now op in next.1 ∷ answers next.0 ops

unfoldable pub promises : ℕ → Map → List (ℕ × Op) → List (Option Entry)
promises ttl m [] = []
promises ttl m ((now, op) ∷ ops) =
    let next = promise ttl m now op in next.1 ∷ promises ttl next.0 ops

-- The clock does not go back.
abbrev pub Ordered : ℕ → List (ℕ × Op) → Type 0
Ordered now [] = Unit {0}
Ordered now ((later, op) ∷ ops) = (now ≤ later) × Ordered later ops

-- Both sides agree on every name, up to what is too old by now.
record Agree (now : ℕ) (c : AccountCache) (m : Map) : Type 0 where
  distinct : Distinct c.cache
  same : (w : List ℕ) → fresh_only c.ttl now (find w c.cache) ≡ fresh_only c.ttl now (m w)

-- What is too old stays so.
fresh-later :
    (ttl now later : ℕ) (o : Option Entry)
    → now ≤ later
    → fresh_only ttl later o ≡ fresh_only ttl later (fresh_only ttl now o)
fresh-later ttl now later none h = refl
fresh-later ttl now later (some e) h = ground arith

Agree-later :
    (now later : ℕ) (c : AccountCache) (m : Map) → now ≤ later → Agree now c m → Agree later c m
Agree-later now later c m h v = record {
  distinct = v.distinct;
  same = λ w.
      fresh-later c.ttl now later (find w c.cache) h
      ∙ ap (fresh_only c.ttl later) (v.same w)
      ∙ sym (fresh-later c.ttl now later (m w) h);
}

assign-Agree :
    (now : ℕ) (c : AccountCache) (m : Map) (username : List ℕ) (e : Entry)
    → Agree now c m
    → Agree now (record c { cache = assign username e c.cache }) (with_entry m username (some e))
assign-Agree now c m username e v = record {
  distinct = assign-Distinct username e c.cache v.distinct;
  same = λ w. elim (Bool-cases (bytes_eq username w)) [
    | inl hit ↦ rw (find-assign username w e c.cache, hit) refl
    | inr miss ↦ rw (find-assign username w e c.cache, miss) (v.same w)
  ];
}

-- What an operation leaves and gives on either side.
record Related (now ttl : ℕ) (r : AccountCache × Option Entry) (s : Map × Option Entry)
    : Type 0 where
  answer : r.1 ≡ s.1
  same_ttl : r.0.ttl ≡ ttl
  agree : Agree now r.0 s.0

-- `get`, once the time to live has been looked at.
get_fresh : AccountCache → ℕ → List ℕ → Option Entry → AccountCache × Option Entry
get_fresh c now username none = (c, none)
get_fresh c now username (some e) =
    (record c { cache = assign username (accessed now e) c.cache }, some (accessed now e))

get_found-fresh :
    (c : AccountCache) (now : ℕ) (username : List ℕ) (o : Option Entry)
    → get_found c now username o ≡ get_fresh c now username (fresh_only c.ttl now o)
unfolding get_found get_fresh
get_found-fresh c now username none = refl
get_found-fresh c now username (some e) = elim (Bool-cases (is_expired c.ttl now e)) [
  | inl old ↦ rw old refl
  | inr fresh ↦ rw fresh refl
]

get_fresh-Related :
    (c : AccountCache) (m : Map) (now : ℕ) (username : List ℕ) (o : Option Entry)
    → Agree now c m
    → Related now c.ttl (get_fresh c now username o) (found m now username o)
unfolding get_fresh found
get_fresh-Related c m now username none v = record { answer = refl; same_ttl = refl; agree = v }
get_fresh-Related c m now username (some e) v = record {
  answer = refl;
  same_ttl = refl;
  agree = assign-Agree now c m username (accessed now e) v;
}

erase-Agree :
    (now : ℕ) (c : AccountCache) (m : Map) (username : List ℕ)
    → Agree now c m
    → Agree now (record c { cache = erase username c.cache }) (with_entry m username none)
erase-Agree now c m username v = record {
  distinct = erase-Distinct username c.cache v.distinct;
  same = λ w. elim (Bool-cases (bytes_eq username w)) [
    | inl hit ↦ rw (find-erase username w c.cache, hit) refl
    | inr miss ↦ rw (find-erase username w c.cache, miss) (v.same w)
  ];
}

sweep-Agree :
    (now : ℕ) (c : AccountCache) (m : Map)
    → Agree now c m
    → Agree now (record c { cache = sweep c.ttl now c.cache }) m
sweep-Agree now c m v = record {
  distinct = sweep-Distinct c.ttl now c.cache v.distinct;
  same = λ w.
      ap (fresh_only c.ttl now) (find-sweep c.ttl now w c.cache v.distinct)
      ∙ sym (fresh-later c.ttl now now (find w c.cache) (omega arith))
      ∙ v.same w;
}

perform-Related :
    (c : AccountCache) (m : Map) (now : ℕ) (op : Op)
    → Agree now c m
    → Related now c.ttl (perform c now op) (promise c.ttl m now op)
unfolding perform promise get put invalidate cleanup_expired_entries
perform-Related c m now (gets username) v =
    subst (λ r. Related now c.ttl r (found m now username (fresh_only c.ttl now (m username))))
      (sym (
        get_found-fresh c now username (find username c.cache)
        ∙ ap (get_fresh c now username) (v.same username)))
      (get_fresh-Related c m now username (fresh_only c.ttl now (m username)) v)
perform-Related c m now (puts username entry) v = record {
  answer = refl;
  same_ttl = refl;
  agree = assign-Agree now c m username (accessed now entry) v;
}
perform-Related c m now (invalidates username) v = record {
  answer = refl;
  same_ttl = refl;
  agree = erase-Agree now c m username v;
}
perform-Related c m now cleans v = record {
  answer = refl;
  same_ttl = refl;
  agree = sweep-Agree now c m v;
}

answers-Agree :
    (now : ℕ) (c : AccountCache) (m : Map) (ops : List (ℕ × Op))
    → Agree now c m
    → Ordered now ops
    → answers c ops ≡ promises c.ttl m ops
unfolding answers promises
answers-Agree now c m [] v h = refl
answers-Agree now c m ((later, op) ∷ ops) v (forward, h) =
    let r = perform-Related c m later op (Agree-later now later c m forward v) in
    let rest =
      answers-Agree later (perform c later op).0 (promise c.ttl m later op).0 ops r.agree h in
    ap₂ (λ o os. o ∷ os) r.answer
      (rest ∙ ap (λ ttl. promises ttl (promise c.ttl m later op).0 ops) r.same_ttl)

-- To any course of lookups, insertions, removals and cleanups at times that do not go back, a cache whose
-- names are distinct answers like the function from names to entries that it stands for, in which an entry
-- is given while its last use is not older than the time to live, and which is never cleaned up.
pub answers-promises :
    (c : AccountCache) (ops : List (ℕ × Op))
    → Distinct c.cache
    → Ordered 0 ops
    → answers c ops ≡ promises c.ttl (λ username. find username c.cache) ops
answers-promises c ops d h =
    answers-Agree 0 c (λ username. find username c.cache) ops
      (record { distinct = d; same = λ w. refl }) h
