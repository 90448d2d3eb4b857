-- ===== src/Utils/Utf8/Spec/Found.antt =====
-- src/common/utils/utf8utils/UTF8Utils.cpp: what one round of the validation accepts is a code point.
use purity.Common.{
  ℕ, zero, suc, ◌+◌, ◌-◌, ◌*◌, ◌/◌, ◌%◌, ◌≤◌, ◌<◌, ◌≡◌, refl, sym, ◌∙◌, ◌⊎◌, inl, true, ◌&&◌, not,
  List, [], ◌∷◌, ◌++◌, ltb, leb, ◌==◌, lt→ltb, le→not_ltb, arith, drop,
}
use purity.Bytes.{AllBytes}
use purity.Utils.Utf8.{sequence_length, accepts, two_bytes, three_bytes, four_bytes}
use purity.Utils.Utf8.Spec.{encode, IsAccepted}
use purity.Utils.Utf8.Spec.Bits.{
  sequence_length-lead_length, cont, lead_length, two_bytes_lem, three_bytes_lem, four_bytes_lem,
}

-- What one round found, if it accepted.
pub record Found (c : ℕ) (rest : List ℕ) : Type 0 where
  pub cp : ℕ
  pub accepted : IsAccepted cp
  pub bytes : encode cp ++ drop (sequence_length c - 1) rest ≡ c ∷ rest

found_one : (c : ℕ) (rest : List ℕ) → c < 0x80 → sequence_length c ≡ 1 → Found c rest
unfolding encode
found_one c rest h n = record {
  cp = c;
  accepted = (omega arith, inl (omega arith));
  bytes = rw (n, lt→ltb c 0x80 h) refl;
}

found_two :
    (c b : ℕ) (r : List ℕ)
    → 0xC0 ≤ c
    → c < 0xE0
    → b < 256
    → sequence_length c ≡ 2
    → two_bytes c (b ∷ r) ≡ true
    → Found c (b ∷ r)
unfolding encode
found_two c b r lo hi byte n h =
    let facts : (cont b && not (ltb c 0xC2)) ≡ true = sym (two_bytes_lem c b r byte) ∙ h in
    let cp : ℕ = (c - 0xC0) * 64 + (b - 0x80) in
    let b_lo : 0x80 ≤ b = ground arith in
    let b_hi : b < 0xC0 = ground arith in
    let c_lo : 0xC2 ≤ c = ground arith in
    let e0 : 0xC0 + cp / 64 ≡ c = omega arith in
    let e1 : 0x80 + cp % 64 ≡ b = omega arith in
    record {
      cp = cp;
      accepted = (omega arith, inl (omega arith));
      bytes = rw (n, le→not_ltb cp 0x80 (omega arith), lt→ltb cp 0x800 (omega arith), e0, e1) refl;
    }

found_three :
    (c b d : ℕ) (r : List ℕ)
    → 0xE0 ≤ c
    → c < 0xF0
    → b < 256
    → d < 256
    → sequence_length c ≡ 3
    → three_bytes c (b ∷ d ∷ r) ≡ true
    → Found c (b ∷ d ∷ r)
unfolding encode
found_three c b d r lo hi byte byte' n h =
    let facts : (cont b
          && cont d
          && not ((c == 0xE0) && ltb b 0xA0)
          && not ((c == 0xED) && leb 0xA0 b))
        ≡ true =
      sym (three_bytes_lem c b d r byte byte') ∙ h in
    let cp : ℕ = (c - 0xE0) * 4096 + (b - 0x80) * 64 + (d - 0x80) in
    let b_in : (0x80 ≤ b) × (b < 0xC0) = ground arith in
    let d_in : (0x80 ≤ d) × (d < 0xC0) = ground arith in
    let long : (0xE0 < c) ⊎ (0xA0 ≤ b) = ground arith in
    let plain : (c < 0xED) ⊎ (0xED < c) ⊎ (b < 0xA0) = ground arith in
    let e0 : 0xE0 + cp / 4096 ≡ c = omega arith in
    let e1 : 0x80 + cp / 64 % 64 ≡ b = omega arith in
    let e2 : 0x80 + cp % 64 ≡ d = omega arith in
    record {
      cp = cp;
      accepted = (omega arith, omega arith);
      bytes =
          rw
            (
              n,
              le→not_ltb cp 0x80 (omega arith),
              le→not_ltb cp 0x800 (omega arith),
              lt→ltb cp 0x10000 (omega arith),
              e0,
              e1,
              e2,
            )
            refl;
    }

found_four :
    (c b d e : ℕ) (r : List ℕ)
    → 0xF0 ≤ c
    → b < 256
    → d < 256
    → e < 256
    → sequence_length c ≡ 4
    → four_bytes c (b ∷ d ∷ e ∷ r) ≡ true
    → Found c (b ∷ d ∷ e ∷ r)
unfolding encode
found_four c b d e r lo byte byte' byte'' n h =
    let facts : (cont b && cont d && cont e && not ((c == 0xF0) && ltb b 0x90) && not (ltb 0xF4 c))
        ≡ true =
      sym (four_bytes_lem c b d e r byte byte' byte'') ∙ h in
    let cp : ℕ = (c - 0xF0) * 262144 + (b - 0x80) * 4096 + (d - 0x80) * 64 + (e - 0x80) in
    let b_in : (0x80 ≤ b) × (b < 0xC0) = ground arith in
    let d_in : (0x80 ≤ d) × (d < 0xC0) = ground arith in
    let e_in : (0x80 ≤ e) × (e < 0xC0) = ground arith in
    let long : (0xF0 < c) ⊎ (0x90 ≤ b) = ground arith in
    let top : c ≤ 0xF4 = ground arith in
    let e0 : 0xF0 + cp / 262144 ≡ c = omega arith in
    let e1 : 0x80 + cp / 4096 % 64 ≡ b = omega arith in
    let e2 : 0x80 + cp / 64 % 64 ≡ d = omega arith in
    let e3 : 0x80 + cp % 64 ≡ e = omega arith in
    record {
      cp = cp;
      accepted = (omega arith, omega arith);
      bytes =
          rw
            (
              n,
              le→not_ltb cp 0x80 (omega arith),
              le→not_ltb cp 0x800 (omega arith),
              le→not_ltb cp 0x10000 (omega arith),
              e0,
              e1,
              e2,
              e3,
            )
            refl;
    }

-- The shapes of the bytes behind a lead byte that was accepted.
found_by_length :
    (c : ℕ) (rest : List ℕ) (n : ℕ)
    → c < 256
    → AllBytes rest
    → lead_length c ≡ n
    → sequence_length c ≡ n
    → accepts n c rest ≡ true
    → Found c rest
unfolding accepts two_bytes three_bytes four_bytes
found_by_length c rest zero byte bytes l e h = cc
found_by_length c rest (suc zero) byte bytes l e h = found_one c rest (ground arith) e
found_by_length c [] (suc (suc zero)) byte bytes l e h = cc
found_by_length c (b ∷ r) (suc (suc zero)) byte bytes l e h =
    found_two c b r (ground arith) (ground arith) bytes.0 e h
found_by_length c [] (suc (suc (suc zero))) byte bytes l e h = cc
found_by_length c (b ∷ []) (suc (suc (suc zero))) byte bytes l e h = cc
found_by_length c (b ∷ d ∷ r) (suc (suc (suc zero))) byte bytes l e h =
    found_three c b d r (ground arith) (ground arith) bytes.0 bytes.1.0 e h
found_by_length c [] (suc (suc (suc (suc n)))) byte bytes l e h = cc
found_by_length c (b ∷ []) (suc (suc (suc (suc n)))) byte bytes l e h = cc
found_by_length c (b ∷ d ∷ []) (suc (suc (suc (suc n)))) byte bytes l e h = cc
found_by_length c (b ∷ d ∷ f ∷ r) (suc (suc (suc (suc n)))) byte bytes l e h =
    let four : suc (suc (suc (suc n))) ≡ 4 = ground arith in
    found_four c b d f r (ground arith) bytes.0 bytes.1.0 bytes.1.1.0 (e ∙ four) h

pub found :
    (c : ℕ) (rest : List ℕ)
    → c < 256
    → AllBytes rest
    → accepts (sequence_length c) c rest ≡ true
    → Found c rest
found c rest byte bytes h =
    found_by_length c rest (sequence_length c) byte bytes (sym (sequence_length-lead_length c byte))
      refl h
