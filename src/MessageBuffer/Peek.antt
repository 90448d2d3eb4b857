-- ===== src/MessageBuffer/Peek.antt =====
-- src/common/packet/MessageBuffer.hpp: the waiting bytes, looked at through `read_ptr()`.
use purity.Common.{
  ℕ, zero, suc, ◌-◌, ◌<◌, ◌≡◌, refl, sym, List, [], ◌∷◌, length, take, drop, get_or, arith,
}
use purity.MessageBuffer.{MessageBuffer, IsValid, contents}
use purity.MessageBuffer.Laws.{length-contents}

get_or-take : (n i : ℕ) (xs : List ℕ) → i < n → get_or (take n xs) i 0 ≡ get_or xs i 0
get_or-take zero i xs h = absurd (omega arith)
get_or-take (suc n) i [] h = refl
get_or-take (suc n) zero (x ∷ xs) h = refl
get_or-take (suc n) (suc i) (x ∷ xs) h = get_or-take n i xs (omega arith)

-- What stands at an offset from `read_ptr()` below the active size is a waiting byte.
pub get_or-contents :
    (m : MessageBuffer) (i : ℕ)
    → IsValid m
    → i < length (contents m)
    → get_or (drop m.rpos m.storage) i 0 ≡ get_or (contents m) i 0
unfolding contents
get_or-contents m i v h =
    sym
      (get_or-take (m.wpos - m.rpos) i (drop m.rpos m.storage) (omega (arith, length-contents m v)))
