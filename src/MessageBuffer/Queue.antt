-- ===== src/MessageBuffer/Queue.antt =====
-- src/common/packet/MessageBuffer.hpp: bytes go in at one end and come out at the other.
use purity.Common.{
  ℕ, ◌+◌, ◌-◌, ◌≤◌, ◌<◌, ◌≡◌, refl, sym, ap, ◌∙◌, List, ◌++◌, append_assoc, ok, throw, length, take,
  drop, length-append, length-take, length-drop, take-append, drop-append_le, drop-drop, drop-take,
  le→not_ltb, lt→ltb, arith, add_size,
}
use purity.Exception.{read_overflow}
use purity.MessageBuffer.{
  MessageBuffer, IsValid, get_active_size, get_remaining_space, write_completed, read_completed,
  fill, contents,
}
use purity.MessageBuffer.Laws.{get_remaining_space_lem, length-contents, length-contents_active}

-- The buffer after `bytes` arrived, and after `n` bytes were taken.
pub filled : List ℕ → MessageBuffer → MessageBuffer
filled bytes m = let f = fill bytes m in record f { wpos = m.wpos + length bytes }

unfoldable pub consumed : ℕ → MessageBuffer → MessageBuffer
consumed n m = record m { rpos = m.rpos + n }

length-fill :
    (bytes : List ℕ) (m : MessageBuffer)
    → m.wpos + length bytes ≤ length m.storage
    → length (fill bytes m).storage ≡ length m.storage
unfolding fill
length-fill bytes m h =
    let n = m.wpos + length bytes in
    omega (
      arith,
      length-append (take m.wpos m.storage) (bytes ++ drop n m.storage),
      length-append bytes (drop n m.storage),
      length-take m.wpos m.storage,
      length-drop n m.storage,
    )

-- Behind the read position stand the waiting bytes, then the new ones.
drop-fill :
    (bytes : List ℕ) (m : MessageBuffer)
    → IsValid m
    → drop m.rpos (fill bytes m).storage
      ≡ (contents m ++ bytes) ++ drop (m.wpos + length bytes) m.storage
unfolding fill contents
drop-fill bytes m v =
    let rest = drop (m.wpos + length bytes) m.storage in
    let split : m.wpos ≡ m.rpos + (m.wpos - m.rpos) = omega arith in
    drop-append_le m.rpos (take m.wpos m.storage) (bytes ++ rest)
      (omega (arith, length-take m.wpos m.storage))
    ∙ ap (λ r. r ++ (bytes ++ rest))
        (ap (λ k. drop m.rpos (take k m.storage)) split
          ∙ drop-take m.rpos (m.wpos - m.rpos) m.storage)
    ∙ sym (append_assoc (take (m.wpos - m.rpos) (drop m.rpos m.storage)) bytes rest)

fill-IsValid :
    (bytes : List ℕ) (m : MessageBuffer)
    → IsValid m
    → m.wpos + length bytes ≤ length m.storage
    → IsValid (fill bytes m) × IsValid (filled bytes m)
unfolding filled fill
fill-IsValid bytes m v h =
    let len = length-fill bytes m h in
    (
      record { ordered = v.ordered; in_storage = omega arith; small = omega arith },
      record { ordered = omega arith; in_storage = omega arith; small = omega arith },
    )

contents-filled :
    (bytes : List ℕ) (m : MessageBuffer)
    → IsValid m
    → contents (filled bytes m) ≡ contents m ++ bytes
unfolding filled fill
contents-filled bytes m v =
    unfold_contents (filled bytes m)
    ∙ ap (take (m.wpos + length bytes - m.rpos)) (drop-fill bytes m v)
    ∙ take-append (m.wpos + length bytes - m.rpos) (contents m ++ bytes)
        (drop (m.wpos + length bytes) m.storage)
        (omega (arith, length-append (contents m) bytes, length-contents m v))
  where
    unfold_contents :
        (n : MessageBuffer) → contents n ≡ take (n.wpos - n.rpos) (drop n.rpos n.storage)
    unfold_contents n = unfold contents in refl

contents-consumed :
    (n : ℕ) (m : MessageBuffer)
    → IsValid m
    → n ≤ m.wpos - m.rpos
    → contents (consumed n m) ≡ drop n (contents m)
unfolding consumed contents
contents-consumed n m v h =
    let split : m.wpos - m.rpos ≡ n + (m.wpos - (m.rpos + n)) = omega arith in
    sym (
      ap (λ k. drop n (take k (drop m.rpos m.storage))) split
      ∙ drop-take n (m.wpos - (m.rpos + n)) (drop m.rpos m.storage)
      ∙ ap (take (m.wpos - (m.rpos + n))) (drop-drop m.rpos n m.storage))

-- What arrives from the socket is queued behind what waits, if there is room for it.
pub write_completed-fill :
    (bytes : List ℕ) (m : MessageBuffer)
    → IsValid m
    → length bytes ≤ get_remaining_space m
    → (write_completed (length bytes) (fill bytes m) ≡ ok (filled bytes m))
      × IsValid (filled bytes m)
      × (contents (filled bytes m) ≡ contents m ++ bytes)
      × (length (filled bytes m).storage ≡ length m.storage)
unfolding write_completed filled
write_completed-fill bytes m v h =
    let room : m.wpos + length bytes ≤ length m.storage =
      omega (arith, get_remaining_space_lem m v) in
    let (v', w) = fill-IsValid bytes m v room in
    let len = length-fill bytes m room in
    let wpos : (fill bytes m).wpos ≡ m.wpos = unfold fill in refl in
    let left : length bytes ≤ get_remaining_space (fill bytes m) =
      omega (arith, get_remaining_space_lem (fill bytes m) v') in
    let sum : add_size (fill bytes m).wpos (length bytes) ≡ m.wpos + length bytes = omega arith in
    (rw (le→not_ltb _ _ left, sum) refl, w, contents-filled bytes m v, len)

-- `read_completed(n)` takes the `n` oldest bytes off, or throws where fewer wait.
pub read_completed_lem :
    (n : ℕ) (m : MessageBuffer)
    → IsValid m
    → (n ≤ length (contents m)
        → (read_completed n m ≡ ok (consumed n m))
          × IsValid (consumed n m)
          × (contents (consumed n m) ≡ drop n (contents m)))
      × (length (contents m) < n → read_completed n m ≡ throw read_overflow)
unfolding read_completed consumed
read_completed_lem n m v =
    let size = length-contents_active m v in
    let len = length-contents m v in
    (
      λ fits.
          let sum : add_size m.rpos n ≡ m.rpos + n = omega arith in
          (
            rw (le→not_ltb (get_active_size m) n (omega arith), sum) refl,
            record { ordered = omega arith; in_storage = v.in_storage; small = v.small },
            contents-consumed n m v (omega arith),
          ),
      λ short. rw (lt→ltb (get_active_size m) n (omega arith)) refl,
    )

-- Of a valid buffer `read_completed` takes any number of bytes that wait, the oldest first.
pub read_completed-takes :
    (n : ℕ) (m : MessageBuffer)
    → IsValid m
    → n ≤ length (contents m)
    → (read_completed n m ≡ ok (consumed n m))
      × IsValid (consumed n m)
      × (contents (consumed n m) ≡ drop n (contents m))
read_completed-takes n m v h = (read_completed_lem n m v).0 h

-- It throws where fewer bytes wait.
pub read_completed-throws :
    (n : ℕ) (m : MessageBuffer)
    → IsValid m
    → length (contents m) < n
    → read_completed n m ≡ throw read_overflow
read_completed-throws n m v h = (read_completed_lem n m v).1 h
