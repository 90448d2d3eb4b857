-- ===== src/Utils/Utf8/Spec/Bits.antt =====
-- src/common/utils/utf8utils/UTF8Utils.cpp: the masks on a byte are tests of its range.
use Prim.Native.Nat.{bit_and}
use purity.Common.{
  ℕ, zero, suc, ◌<◌, ◌≡◌, refl, Bool, true, false, ◌&&◌, ltb, leb, ◌==◌, ==_iff, if◌then◌else◌,
  arith, not, List, ◌∷◌,
}
use purity.Utils.Utf8.{sequence_length, copied_length, two_bytes, three_bytes, four_bytes}

-- Over a small range, every value is checked by evaluation.
holds_up_to : (ℕ → Bool) → ℕ → Bool
holds_up_to test zero = true
holds_up_to test (suc bound) = holds_up_to test bound && test bound

holds_up_to-found :
    (test : ℕ → Bool) (bound byte : ℕ)
    → byte < bound
    → holds_up_to test bound ≡ true
    → test byte ≡ true
unfolding holds_up_to
holds_up_to-found test zero byte small all = absurd (omega arith)
holds_up_to-found test (suc bound) byte small all =
    ground (arith, holds_up_to-found test bound byte)

same : Bool → Bool → Bool
same true b = b
same false true = false
same false false = true

same→eq : (a b : Bool) → same a b ≡ true → a ≡ b
unfolding same
same→eq true true h = refl
same→eq true false h = cc
same→eq false true h = cc
same→eq false false h = refl

continuation_table :
    holds_up_to (λ b. same (bit_and b 0xC0 == 0x80) (leb 0x80 b && ltb b 0xC0)) 256 ≡ true
unfolding holds_up_to same
continuation_table = refl

-- 10xxxxxx
pub is_continuation : (b : ℕ) → b < 256 → (bit_and b 0xC0 == 0x80) ≡ (leb 0x80 b && ltb b 0xC0)
is_continuation b h = same→eq _ _ (holds_up_to-found _ 256 b h continuation_table)

abbrev pub lead_length : ℕ → ℕ
lead_length c =
    if ltb c 0x80
    then 1
    else (if ltb c 0xC0
        then 0
        else (if ltb c 0xE0 then 2 else (if ltb c 0xF0 then 3 else (if ltb c 0xF8 then 4 else 0))))

lead_table : holds_up_to (λ c. sequence_length c == lead_length c) 256 ≡ true
unfolding holds_up_to sequence_length
lead_table = refl

pub sequence_length-lead_length : (c : ℕ) → c < 256 → sequence_length c ≡ lead_length c
sequence_length-lead_length c h = (==_iff _ _).0 (holds_up_to-found _ 256 c h lead_table)

-- What the two loops skip differs only at bytes that start no sequence.
copied_table :
    holds_up_to (λ c. (copied_length c == (if lead_length c == 0 then 1 else lead_length c))) 256
    ≡ true
unfolding holds_up_to copied_length
copied_table = refl

pub copied_length-lead_length :
    (c : ℕ) → c < 256 → copied_length c ≡ (if lead_length c == 0 then 1 else lead_length c)
copied_length-lead_length c h = (==_iff _ _).0 (holds_up_to-found _ 256 c h copied_table)

abbrev pub cont : ℕ → Bool
cont b = leb 0x80 b && ltb b 0xC0

pub two_bytes_lem :
    (c b : ℕ) (r : List ℕ) → b < 256 → two_bytes c (b ∷ r) ≡ (cont b && not (ltb c 0xC2))
unfolding two_bytes
two_bytes_lem c b r h = rw (is_continuation b h) (ground arith)

pub three_bytes_lem :
    (c b d : ℕ) (r : List ℕ)
    → b < 256
    → d < 256
    → three_bytes c (b ∷ d ∷ r)
      ≡ (cont b && cont d && not ((c == 0xE0) && ltb b 0xA0) && not ((c == 0xED) && leb 0xA0 b))
unfolding three_bytes
three_bytes_lem c b d r h k = rw (is_continuation b h, is_continuation d k) (ground arith)

pub four_bytes_lem :
    (c b d e : ℕ) (r : List ℕ)
    → b < 256
    → d < 256
    → e < 256
    → four_bytes c (b ∷ d ∷ e ∷ r)
      ≡ (cont b && cont d && cont e && not ((c == 0xF0) && ltb b 0x90) && not (ltb 0xF4 c))
unfolding four_bytes
four_bytes_lem c b d e r h k l =
    rw (is_continuation b h, is_continuation d k, is_continuation e l) (ground arith)
