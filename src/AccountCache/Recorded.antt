-- ===== src/AccountCache/Recorded.antt =====
-- src/server/AccountCache/AccountCache.hpp: the cache holds what was put, under the name it was put under.
use purity.Common.{
  ℕ, ◌≡◌, refl, sym, subst, bytes_eq_refl, All, Bool, true, false, List, [], ◌∷◌, Option, none,
  some, bytes_eq, bytes_eq→eq, if◌then◌else◌,
}
use purity.AccountCache.{AccountCache, Entry, find, assign, sweep, get_found, is_expired}

-- What the database has said of a name: a salt and a verifier.
module _ (Recorded : List ℕ → List ℕ → List ℕ → Type 0) where
  abbrev pub Known : List ℕ × Entry → Type 0
  Known p = Recorded p.0 p.1.salt p.1.verifier

  -- Every entry of the cache is recorded under its name.
  abbrev pub Holds : AccountCache → Type 0
  Holds c = All Known c.cache

  Known-eq :
      (name username : List ℕ) (e : Entry)
      → bytes_eq name username ≡ true
      → Recorded name e.salt e.verifier
      → Recorded username e.salt e.verifier
  Known-eq name username e same known =
      subst (λ n. Recorded n e.salt e.verifier) (bytes_eq→eq name username same) known

  find-Known :
      (username : List ℕ) (m : List (List ℕ × Entry)) (e : Entry)
      → All Known m
      → find username m ≡ some e
      → Recorded username e.salt e.verifier
  unfolding find
  find-Known username [] e h is = absurd cc
  find-Known username ((name, f) ∷ rest) e (known, h) is =
      go (bytes_eq name username) refl is (find-Known username rest e h)
    where
      go :
          (b : Bool)
          → bytes_eq name username ≡ b
          → (if b then some f else find username rest) ≡ some e
          → (find username rest ≡ some e → Recorded username e.salt e.verifier)
          → Recorded username e.salt e.verifier
      go true same is later =
          let eq : f ≡ e = cc in
          subst (λ x. Recorded username x.salt x.verifier) eq (Known-eq name username f same known)
      go false other is later = later is

  pub assign-All :
      (username : List ℕ) (e : Entry) (m : List (List ℕ × Entry))
      → Recorded username e.salt e.verifier
      → All Known m
      → All Known (assign username e m)
  unfolding assign
  assign-All username e [] known h = (known, tt)
  assign-All username e ((name, f) ∷ rest) known (other, h) =
      go (bytes_eq name username) refl (assign-All username e rest known h)
    where
      go :
          (b : Bool)
          → bytes_eq name username ≡ b
          → All Known (assign username e rest)
          → All Known (if b then (name, e) ∷ rest else (name, f) ∷ assign username e rest)
      go true same k = (
        Known-eq username name e (rw (sym (bytes_eq→eq name username same)) (bytes_eq_refl name))
            known,
        h,
      )
      go false differs k = (other, k)

  pub sweep-All :
      (ttl now : ℕ) (m : List (List ℕ × Entry)) → All Known m → All Known (sweep ttl now m)
  unfolding sweep
  sweep-All ttl now [] h = h
  sweep-All ttl now ((name, e) ∷ rest) (known, h) =
      go (is_expired ttl now e) (sweep-All ttl now rest h)
    where
      go :
          (b : Bool)
          → All Known (sweep ttl now rest)
          → All Known (if b then sweep ttl now rest else (name, e) ∷ sweep ttl now rest)
      go true k = k
      go false k = (known, k)

  if-Holds :
      (b : Bool) (x y : AccountCache × Option Entry)
      → Holds x.0
      → Holds y.0
      → Holds (if b then x else y).0
  if-Holds true x y h k = h
  if-Holds false x y h k = k

  -- What `get` leaves and gives.
  pub get_found-Holds :
      (c : AccountCache) (now : ℕ) (username : List ℕ) (found : Option Entry)
      → Holds c
      → find username c.cache ≡ found
      → Holds (get_found c now username found).0
  unfolding get_found
  get_found-Holds c now username none h e = h
  get_found-Holds c now username (some entry) h e =
      let accessed : Entry = record entry { last_access = now } in
      if-Holds (is_expired c.ttl now entry) (c, none)
        (record c { cache = assign username accessed c.cache }, some accessed) h
        (assign-All username accessed c.cache (find-Known username c.cache entry h e) h)
