-- ===== src/MessageBuffer/Laws.antt =====
-- src/common/packet/MessageBuffer.hpp: the buffer is a queue of bytes.
use purity.Common.{
  ℕ, ◌+◌, ◌-◌, ◌≤◌, ◌<◌, ◌^◌, ◌≡◌, refl, sym, ap, ◌∙◌, ◌⊎◌, [], ◌++◌, length, take, drop, replicate,
  length-append, length-take, length-drop, length-replicate, sub_size, take-append, take-append_le,
  drop-append_le, take-take, ltb, ltb→lt, ◌==◌, Bool-cases, inl, inr, arith,
}
use purity.MessageBuffer.{
  MessageBuffer, IsValid, new, get_active_size, get_remaining_space, memmove_down, normalize, grow,
  ensure_free_space, peek, contents,
}

pub new-IsValid : (n : ℕ) → n < 2 ^ 64 → IsValid (new n) × (contents (new n) ≡ [])
unfolding new contents
new-IsValid n h = (
  record {
    ordered = omega arith;
    in_storage = omega arith;
    small = omega (arith, length-replicate {A = ℕ} n 0);
  },
  refl,
)

pub get_active_size_lem : (m : MessageBuffer) → IsValid m → get_active_size m ≡ m.wpos - m.rpos
unfolding get_active_size
get_active_size_lem m v = omega arith

pub get_remaining_space_lem :
    (m : MessageBuffer) → IsValid m → get_remaining_space m ≡ length m.storage - m.wpos
unfolding get_remaining_space
get_remaining_space_lem m v = omega arith

pub length-contents : (m : MessageBuffer) → IsValid m → length (contents m) ≡ m.wpos - m.rpos
unfolding contents
length-contents m v =
    omega
      (arith, length-take (m.wpos - m.rpos) (drop m.rpos m.storage), length-drop m.rpos m.storage)

pub length-contents_active :
    (m : MessageBuffer) → IsValid m → get_active_size m ≡ length (contents m)
length-contents_active m v = get_active_size_lem m v ∙ sym (length-contents m v)

-- Looking at what waits.
pub peek-contents :
    (m : MessageBuffer) (n : ℕ)
    → IsValid m
    → n ≤ length (contents m)
    → peek n m ≡ take n (contents m)
unfolding peek contents
peek-contents m n v h =
    let fits : n ≤ m.wpos - m.rpos = omega (arith, length-contents m v) in
    sym (take-take n (m.wpos - m.rpos) (drop m.rpos m.storage) fits)

length-memmove_down :
    (m : MessageBuffer) (n : ℕ)
    → IsValid m
    → n ≤ m.wpos - m.rpos
    → length (memmove_down n m) ≡ length m.storage
unfolding memmove_down
length-memmove_down m n v h = omega (
  arith,
  length-append (take n (drop m.rpos m.storage)) (drop n m.storage),
  length-take n (drop m.rpos m.storage),
  length-drop m.rpos m.storage,
  length-drop n m.storage,
)

-- The moved bytes stand at the front.
take-memmove_down :
    (m : MessageBuffer) (n k : ℕ)
    → IsValid m
    → n ≡ m.wpos - m.rpos
    → k ≡ n
    → take k (memmove_down n m) ≡ contents m
unfolding memmove_down contents
take-memmove_down m n k v e f =
    take-append k (take n (drop m.rpos m.storage)) (drop n m.storage)
      (omega (arith, length-take n (drop m.rpos m.storage), length-drop m.rpos m.storage))
    ∙ ap (λ j. take j (drop m.rpos m.storage)) e

-- What `normalize` promises.
pub record Normalized (m m' : MessageBuffer) : Type 0 where
  pub valid : IsValid m'
  pub same : contents m' ≡ contents m
  pub front : m'.rpos ≡ 0
  pub size : length m'.storage ≡ length m.storage

normalize_empty :
    (m : MessageBuffer) (n : ℕ)
    → IsValid m
    → m.rpos ≡ m.wpos
    → n ≡ 0
    → Normalized m (record { wpos = n; rpos = 0; storage = m.storage })
unfolding contents
normalize_empty m n v e z = record {
  valid = record { ordered = omega arith; in_storage = omega arith; small = v.small };
  same =
      ap (λ k. take k m.storage) {x = n - 0} {y = 0} (omega arith)
      ∙ ap (λ k. take k (drop m.rpos m.storage)) {x = 0} (omega arith);
  front = refl;
  size = refl;
}

normalize_moved :
    (m : MessageBuffer) (n : ℕ)
    → IsValid m
    → n ≡ m.wpos - m.rpos
    → Normalized m (record { wpos = n; rpos = 0; storage = memmove_down n m })
normalize_moved m n v e =
    let len = length-memmove_down m n v (omega arith) in
    record {
      valid = record { ordered = omega arith; in_storage = omega arith; small = omega arith };
      same = unfold contents in take-memmove_down m n (n - 0) v e (omega arith);
      front = refl;
      size = len;
    }

-- Moving the waiting bytes to the front keeps them, and keeps the storage's size.
pub normalize_lem : (m : MessageBuffer) → IsValid m → Normalized m (normalize m)
unfolding normalize
normalize_lem m v = elim (Bool-cases (m.rpos == 0)) [
  | inl e ↦ rw e (record { valid = v; same = refl; front = ground arith; size = refl })
  | inr ne ↦ elim (Bool-cases (m.rpos == m.wpos)) [
    | inl e ↦
        rw (ne, e) (normalize_empty m (sub_size m.wpos m.rpos) v (ground arith) (ground arith))
    | inr e ↦
        rw (ne, e)
          (unfold get_active_size in normalize_moved m (sub_size m.wpos m.rpos) v (omega arith))
  ]
]

contents-grow : (m : MessageBuffer) (k : ℕ) → IsValid m → contents (grow k m) ≡ contents m
unfolding contents grow
contents-grow m k v = rw (drop-append_le m.rpos m.storage (replicate k 0) (omega arith)) (
    take-append_le (m.wpos - m.rpos) (drop m.rpos m.storage) (replicate k 0)
      (omega (arith, length-drop m.rpos m.storage)))

length-grow : (m : MessageBuffer) (k : ℕ) → length (grow k m).storage ≡ length m.storage + k
unfolding grow
length-grow m k =
    omega (arith, length-append m.storage (replicate k 0), length-replicate {A = ℕ} k 0)

grow-IsValid :
    (m : MessageBuffer) (k : ℕ) → IsValid m → length m.storage + k < 2 ^ 64 → IsValid (grow k m)
unfolding grow
grow-IsValid m k v h =
    let len : length (m.storage ++ replicate k 0) ≡ length m.storage + k = length-grow m k in
    record { ordered = v.ordered; in_storage = omega arith; small = omega arith }

-- What `ensure_free_space` promises.
pub record Ensured (k : ℕ) (m m' : MessageBuffer) : Type 0 where
  pub valid : IsValid m'
  pub same : contents m' ≡ contents m
  pub room : k ≤ get_remaining_space m'
  pub bound : (m'.storage ≡ m.storage) ⊎ (length m'.storage ≤ length m.storage + k)
  pub growth :
      (length m'.storage ≤ length m.storage) ⊎ (length m'.storage < length (contents m) + (k + k))

grow-Ensured :
    (k : ℕ) (m n : MessageBuffer)
    → Normalized m n
    → length m.storage + k < 2 ^ 64
    → get_remaining_space n < k
    → Ensured k m (grow k n)
grow-Ensured k m n h small tight =
    let v = h.valid in
    let g = grow-IsValid n k v (omega (arith, h.size)) in
    let len = length-grow n k in
    let w : (grow k n).wpos ≡ n.wpos = unfold grow in refl in
    let used : length (contents m) ≡ n.wpos =
      rw (← h.same) (omega (arith, length-contents n v, h.front)) in
    let left = get_remaining_space_lem n v in
    record {
      valid = g;
      same = contents-grow n k v ∙ h.same;
      room = omega (arith, get_remaining_space_lem (grow k n) g, v.in_storage);
      bound = inr (omega (arith, h.size));
      growth = inr (omega (arith, v.in_storage));
    }

-- For a valid buffer that does not outgrow `size_t`, `ensure_free_space(k)` leaves the waiting bytes
-- as they are and at least `k` bytes of free space. The storage grows only when less than `k` bytes
-- are not waiting, so it stays below the waiting bytes and twice `k`.
pub ensure_free_space_lem :
    (k : ℕ) (m : MessageBuffer)
    → IsValid m
    → length m.storage + k < 2 ^ 64
    → Ensured k m (ensure_free_space k m)
unfolding ensure_free_space
ensure_free_space_lem k m v h = elim (Bool-cases (ltb (get_remaining_space m) k)) [
  | inr roomy ↦ rw roomy (record {
    valid = v;
    same = refl;
    room = ground arith;
    bound = inl refl;
    growth = inl (omega arith);
  })
  | inl tight ↦ elim (Bool-cases (ltb (get_remaining_space (normalize m)) k)) [
    | inl still ↦
        rw (tight, still) (grow-Ensured k m (normalize m) (normalize_lem m v) h (ltb→lt _ _ still))
    | inr roomy ↦
        let n = normalize_lem m v in
        rw (tight, roomy)
          (record {
            valid = n.valid;
            same = n.same;
            room = ground arith;
            bound = inr (omega (arith, n.size));
            growth = inl (omega (arith, n.size));
          })
  ]
]
