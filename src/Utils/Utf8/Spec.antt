-- ===== src/Utils/Utf8/Spec.antt =====
-- src/common/utils/utf8utils/UTF8Utils.cpp: UTF-8 as the encoding of code points.
-- `encode` is the encoding of the Unicode standard, extended to the numbers below 0x140000, the most
-- that four bytes with a lead byte of at most 0xF4 can carry.
pub mod Bits
pub mod Steps
pub mod Found
pub mod Valid
pub mod Upper
use purity.Common.{
  ℕ, ◌+◌, ◌-◌, ◌/◌, ◌%◌, ◌≤◌, ◌<◌, ◌⊎◌, List, [], ◌∷◌, ◌++◌, All, ltb, if◌then◌else◌,
}

pub encode : ℕ → List ℕ
encode cp =
    if ltb cp 0x80
    then cp ∷ []
    else (if ltb cp 0x800
        then (0xC0 + cp / 64) ∷ (0x80 + cp % 64) ∷ []
        else (if ltb cp 0x10000
            then (0xE0 + cp / 4096) ∷ (0x80 + cp / 64 % 64) ∷ (0x80 + cp % 64) ∷ []
            else (0xF0 + cp / 262144)
              ∷ (0x80 + cp / 4096 % 64)
              ∷ (0x80 + cp / 64 % 64)
              ∷ (0x80 + cp % 64)
              ∷ []))

pub encode_all : List ℕ → List ℕ
encode_all [] = []
encode_all (cp ∷ cps) = encode cp ++ encode_all cps

-- No surrogate, and below 0x140000. The code points of Unicode are those below 0x110000.
abbrev pub IsAccepted : ℕ → Type 0
IsAccepted cp = (cp < 0x140000) × ((cp < 0xD800) ⊎ (0xE000 ≤ cp))
