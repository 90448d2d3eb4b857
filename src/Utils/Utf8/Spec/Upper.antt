-- ===== src/Utils/Utf8/Spec/Upper.antt =====
-- src/common/utils/utf8utils/UTF8Utils.cpp: case conversion of valid UTF-8 changes ASCII letters and
-- nothing else.
use mathlib.Core.List.{map-append}
use purity.Common.{
  ℕ, zero, suc, ◌+◌, ◌/◌, ◌%◌, ◌≤◌, ◌<◌, ◌≡◌, refl, sym, ap, ◌∙◌, inl, inr, true, false, List, [],
  ◌∷◌, ◌++◌, map, ltb, leb, Bool-cases, lt→ltb, ltb→lt, arith, length, length-append, All,
  append_assoc, append-nil,
}
use purity.Bytes.{AllBytes}
use purity.Utils.Utf8.{copied_length, case_loop, to_lower, to_upper, to_uppercase, is_valid_utf8}
use purity.Utils.Utf8.Spec.{encode, encode_all, IsAccepted}
use purity.Utils.Utf8.Spec.Bits.{copied_length-lead_length}
use purity.Utils.Utf8.Spec.Valid.{length-encode, Decoded-valid, is_valid_utf8_iff}

module _ (f : ℕ → ℕ) (fixed : (b : ℕ) → 0x80 ≤ b → f b ≡ b) where
  case_loop-encode :
      (fuel cp : ℕ) (rest acc : List ℕ)
      → IsAccepted cp
      → case_loop f (suc fuel) (encode cp ++ rest) acc
        ≡ case_loop f fuel rest (acc ++ map f (encode cp))
  unfolding case_loop encode
  case_loop-encode fuel cp rest acc h = elim (Bool-cases (ltb cp 0x80)) [
    | inl one ↦ let ascii : leb cp 0x7F ≡ true = ground arith in rw (one, ascii) refl
    | inr m1 ↦ elim (Bool-cases (ltb cp 0x800)) [
      | inl two ↦
          let c = 0xC0 + cp / 64 in
          let b = 0x80 + cp % 64 in
          let n : copied_length c ≡ 2 = copied_length-lead_length c (ground arith) ∙ ground arith in
          let multi : leb c 0x7F ≡ false = ground arith in
          rw (m1, two, multi, n, fixed c (omega arith), fixed b (omega arith)) refl
      | inr m2 ↦ elim (Bool-cases (ltb cp 0x10000)) [
        | inl three ↦
            let c = 0xE0 + cp / 4096 in
            let b = 0x80 + cp / 64 % 64 in
            let d = 0x80 + cp % 64 in
            let n : copied_length c ≡ 3 =
              copied_length-lead_length c (ground arith) ∙ ground arith in
            let multi : leb c 0x7F ≡ false = ground arith in
            rw
              (
                m1,
                m2,
                three,
                multi,
                n,
                fixed c (omega arith),
                fixed b (omega arith),
                fixed d (omega arith),
              )
              refl
        | inr m3 ↦
            let c = 0xF0 + cp / 262144 in
            let b = 0x80 + cp / 4096 % 64 in
            let d = 0x80 + cp / 64 % 64 in
            let e = 0x80 + cp % 64 in
            let n : copied_length c ≡ 4 =
              copied_length-lead_length c (ground arith) ∙ ground arith in
            let multi : leb c 0x7F ≡ false = ground arith in
            rw
              (
                m1,
                m2,
                m3,
                multi,
                n,
                fixed c (omega arith),
                fixed b (omega arith),
                fixed d (omega arith),
                fixed e (omega arith),
              )
              refl
      ]
    ]
  ]

  case_loop-encode_all :
      (fuel : ℕ) (cps acc : List ℕ)
      → All IsAccepted cps
      → length (encode_all cps) ≤ fuel
      → case_loop f fuel (encode_all cps) acc ≡ acc ++ map f (encode_all cps)
  unfolding encode_all case_loop
  case_loop-encode_all zero [] acc h le = sym (append-nil acc)
  case_loop-encode_all zero (cp ∷ cps) acc h le =
      absurd (omega (arith, length-append (encode cp) (encode_all cps), length-encode cp))
  case_loop-encode_all (suc fuel) [] acc h le = sym (append-nil acc)
  case_loop-encode_all (suc fuel) (cp ∷ cps) acc h le =
      case_loop-encode fuel cp (encode_all cps) acc h.0
      ∙ case_loop-encode_all fuel cps (acc ++ map f (encode cp)) h.1
          (omega (arith, length-append (encode cp) (encode_all cps), length-encode cp))
      ∙ append_assoc acc (map f (encode cp)) (map f (encode_all cps))
      ∙ ap (λ r. acc ++ r) (sym (map-append f (encode cp) (encode_all cps)))

to_upper-high : (b : ℕ) → 0x80 ≤ b → to_upper b ≡ b
unfolding to_upper
to_upper-high b h = ground arith

to_lower-high : (b : ℕ) → 0x80 ≤ b → to_lower b ≡ b
unfolding to_lower
to_lower-high b h = ground arith

map-to_upper-encode_high :
    (cp : ℕ) → IsAccepted cp → 0x80 ≤ cp → map to_upper (encode cp) ≡ encode cp
unfolding encode
map-to_upper-encode_high cp h high =
    let m1 : ltb cp 0x80 ≡ false = ground arith in
    elim (Bool-cases (ltb cp 0x800)) [
      | inl two ↦ rw (
        m1,
        two,
        to_upper-high (0xC0 + cp / 64) (omega arith),
        to_upper-high (0x80 + cp % 64) (omega arith),
      )
      | inr m2 ↦ elim (Bool-cases (ltb cp 0x10000)) [
        | inl three ↦ rw (
          m1,
          m2,
          three,
          to_upper-high (0xE0 + cp / 4096) (omega arith),
          to_upper-high (0x80 + cp / 64 % 64) (omega arith),
          to_upper-high (0x80 + cp % 64) (omega arith),
        )
        | inr m3 ↦ rw (
          m1,
          m2,
          m3,
          to_upper-high (0xF0 + cp / 262144) (omega arith),
          to_upper-high (0x80 + cp / 4096 % 64) (omega arith),
          to_upper-high (0x80 + cp / 64 % 64) (omega arith),
          to_upper-high (0x80 + cp % 64) (omega arith),
        )
      ]
    ]

to_upper-low : (c : ℕ) → c < 0x80 → to_upper c < 0x80
unfolding to_upper
to_upper-low c h = ground arith

map-to_upper-encode : (cp : ℕ) → IsAccepted cp → map to_upper (encode cp) ≡ encode (to_upper cp)
unfolding encode
map-to_upper-encode cp h = elim (Bool-cases (ltb cp 0x80)) [
  | inl one ↦
      let low : ltb (to_upper cp) 0x80 ≡ true = lt→ltb _ _ (to_upper-low cp (ltb→lt _ _ one)) in
      rw (one, low) refl
  | inr high ↦
      map-to_upper-encode_high cp h (ground arith)
      ∙ ap encode (sym (to_upper-high cp (ground arith)))
]

to_upper-IsAccepted : (cp : ℕ) → IsAccepted cp → IsAccepted (to_upper cp)
unfolding to_upper
to_upper-IsAccepted cp h = ground arith

map-to_upper-Decoded :
    (cps : List ℕ)
    → All IsAccepted cps
    → All IsAccepted (map to_upper cps)
      × (encode_all (map to_upper cps) ≡ map to_upper (encode_all cps))
unfolding encode_all
map-to_upper-Decoded [] h = (tt, refl)
map-to_upper-Decoded (cp ∷ cps) h =
    let (rest, e) = map-to_upper-Decoded cps h.1 in
    (
      (to_upper-IsAccepted cp h.0, rest),
      rw (e, ← map-to_upper-encode cp h.0) (sym (map-append to_upper (encode cp) (encode_all cps))),
    )

-- On a valid string `to_uppercase` puts each ASCII letter in upper case and keeps every other byte;
-- the result is valid.
pub to_uppercase_lem :
    (str : List ℕ)
    → AllBytes str
    → is_valid_utf8 str ≡ true
    → (to_uppercase str ≡ map to_upper str) × (is_valid_utf8 (to_uppercase str) ≡ true)
unfolding to_uppercase
to_uppercase_lem str bytes h =
    let d = (is_valid_utf8_iff str bytes).0 h in
    let (accepted, e) = map-to_upper-Decoded d.cps d.accepted in
    let mapped : case_loop to_upper (length str) str [] ≡ map to_upper str = rw (← d.bytes) (
      case_loop-encode_all to_upper to_upper-high (length (encode_all d.cps)) d.cps [] d.accepted
        (omega arith)) in
    (
      mapped,
      rw mapped (
          Decoded-valid (map to_upper str) (record {
            cps = map to_upper d.cps;
            accepted = accepted;
            bytes = e ∙ ap (map to_upper) d.bytes;
          })),
    )
