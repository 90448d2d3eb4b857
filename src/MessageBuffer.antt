-- ===== src/MessageBuffer.antt =====
-- src/common/packet/MessageBuffer.hpp: the read buffer of a session.
-- Three regions of one vector: bytes that were read, bytes that are waiting, and free space.
-- `Laws` shows that the class is a queue of the waiting bytes. Positions and sizes are `size_t`.
pub mod Laws
pub mod Queue
pub mod Peek
use purity.Common.{
  ℕ, ◌+◌, ◌-◌, ◌≤◌, ◌<◌, ◌^◌, Bool, not, List, [], ◌++◌, Outcome, ok, throw, length, take, drop,
  replicate, ltb, ◌==◌, if◌then◌else◌, add_size, sub_size,
}
use purity.Exception.{Exception, write_overflow, read_overflow}

pub record MessageBuffer : Type 0 where
  pub wpos : ℕ
  pub rpos : ℕ
  pub storage : List ℕ

-- The constructor; a new vector is filled with zeros.
unfoldable pub new : ℕ → MessageBuffer
new initial_size = record { wpos = 0; rpos = 0; storage = replicate initial_size 0 }

unfoldable pub reset : MessageBuffer → MessageBuffer
reset m = record m { wpos = 0; rpos = 0 }

unfoldable pub clear : MessageBuffer → MessageBuffer
unfolding reset
clear m = let m' = reset m in record m' { storage = [] }

unfoldable pub get_active_size : MessageBuffer → ℕ
get_active_size m = sub_size m.wpos m.rpos

unfoldable pub get_remaining_space : MessageBuffer → ℕ
get_remaining_space m = sub_size (length m.storage) m.wpos

unfoldable pub write_completed : ℕ → MessageBuffer → Outcome Exception MessageBuffer
write_completed bytes m =
    if ltb (get_remaining_space m) bytes
    then throw write_overflow
    else ok (record m { wpos = add_size m.wpos bytes })

unfoldable pub read_completed : ℕ → MessageBuffer → Outcome Exception MessageBuffer
read_completed bytes m =
    if ltb (get_active_size m) bytes
    then throw read_overflow
    else ok (record m { rpos = add_size m.rpos bytes })

-- `memmove(base(), read_ptr(), n)`
unfoldable pub memmove_down : ℕ → MessageBuffer → List ℕ
memmove_down n m = take n (drop m.rpos m.storage) ++ drop n m.storage

unfoldable pub normalize : MessageBuffer → MessageBuffer
normalize m = if m.rpos == 0 then m else (record {
  wpos = sub_size m.wpos m.rpos;
  rpos = 0;
  storage = if m.rpos == m.wpos then m.storage else memmove_down (get_active_size m) m;
})

-- `resize(size() + min_free)`, which appends zeros.
unfoldable pub grow : ℕ → MessageBuffer → MessageBuffer
grow min_free m = record m { storage = m.storage ++ replicate min_free 0 }

unfoldable pub ensure_free_space : ℕ → MessageBuffer → MessageBuffer
ensure_free_space min_free m =
    if ltb (get_remaining_space m) min_free
    then (let m' = normalize m in
        if ltb (get_remaining_space m') min_free then grow min_free m' else m')
    else m

-- The `n` bytes from `read_ptr()` on.
unfoldable pub peek : ℕ → MessageBuffer → List ℕ
peek n m = take n (drop m.rpos m.storage)

-- What a socket does that was given `write_ptr()`: it overwrites the bytes there.
unfoldable pub fill : List ℕ → MessageBuffer → MessageBuffer
fill bytes m = record m {
  storage = take m.wpos m.storage ++ (bytes ++ drop (m.wpos + length bytes) m.storage);
}

pub record IsValid (m : MessageBuffer) : Type 0 where
  pub ordered : m.rpos ≤ m.wpos
  pub in_storage : m.wpos ≤ length m.storage
  pub small : length m.storage < 2 ^ 64

-- The bytes that wait to be read, oldest first.
unfoldable pub contents : MessageBuffer → List ℕ
contents m = take (m.wpos - m.rpos) (drop m.rpos m.storage)
