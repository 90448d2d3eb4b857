-- ===== src/Utils/Utf8/Spec/Steps.antt =====
-- src/common/utils/utf8utils/UTF8Utils.cpp: one round of the validation takes one code point.
use purity.Common.{
  ℕ, suc, ◌+◌, ◌/◌, ◌%◌, ◌≡◌, refl, ◌∙◌, inl, inr, true, List, ◌∷◌, ◌++◌, ltb, Bool-cases, arith,
}
use purity.Utils.Utf8.{sequence_length, accepts, valid_loop, two_bytes, three_bytes, four_bytes}
use purity.Utils.Utf8.Spec.{encode, IsAccepted}
use purity.Utils.Utf8.Spec.Bits.{
  sequence_length-lead_length, two_bytes_lem, three_bytes_lem, four_bytes_lem,
}

-- A code point at the front is accepted, and the loop goes on behind it.
pub valid_loop-encode :
    (fuel cp : ℕ) (rest : List ℕ)
    → IsAccepted cp
    → valid_loop (suc fuel) (encode cp ++ rest) ≡ valid_loop fuel rest
unfolding valid_loop encode accepts
valid_loop-encode fuel cp rest h = elim (Bool-cases (ltb cp 0x80)) [
  | inl one ↦
      let n : sequence_length cp ≡ 1 =
        sequence_length-lead_length cp (ground arith) ∙ ground arith in
      rw (one, n) refl
  | inr m1 ↦ elim (Bool-cases (ltb cp 0x800)) [
    | inl two ↦
        let c = 0xC0 + cp / 64 in
        let b = 0x80 + cp % 64 in
        let n : sequence_length c ≡ 2 =
          sequence_length-lead_length c (ground arith) ∙ ground arith in
        let fits : two_bytes c (b ∷ rest) ≡ true =
          two_bytes_lem c b rest (omega arith) ∙ ground arith in
        rw (m1, two, n, fits) refl
    | inr m2 ↦ elim (Bool-cases (ltb cp 0x10000)) [
      | inl three ↦
          let c = 0xE0 + cp / 4096 in
          let b = 0x80 + cp / 64 % 64 in
          let d = 0x80 + cp % 64 in
          let n : sequence_length c ≡ 3 =
            sequence_length-lead_length c (ground arith) ∙ ground arith in
          let fits : three_bytes c (b ∷ d ∷ rest) ≡ true =
            three_bytes_lem c b d rest (omega arith) (omega arith) ∙ ground arith in
          rw (m1, m2, three, n, fits) refl
      | inr m3 ↦
          let c = 0xF0 + cp / 262144 in
          let b = 0x80 + cp / 4096 % 64 in
          let d = 0x80 + cp / 64 % 64 in
          let e = 0x80 + cp % 64 in
          let n : sequence_length c ≡ 4 =
            sequence_length-lead_length c (ground arith) ∙ ground arith in
          let fits : four_bytes c (b ∷ d ∷ e ∷ rest) ≡ true =
            four_bytes_lem c b d e rest (omega arith) (omega arith) (omega arith) ∙ ground arith in
          rw (m1, m2, m3, n, fits) refl
    ]
  ]
]
