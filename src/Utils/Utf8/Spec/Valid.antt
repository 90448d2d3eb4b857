-- ===== src/Utils/Utf8/Spec/Valid.antt =====
-- src/common/utils/utf8utils/UTF8Utils.cpp: `is_valid_utf8` decides whether a string encodes code points.
use purity.Common.{
  ℕ, zero, suc, ◌+◌, ◌-◌, ◌≤◌, ◌<◌, ◌≡◌, refl, ◌∙◌, ◌↔◌, inr, true, List, [], ◌∷◌, ◌++◌, arith,
  drop, length, length-append, All, All-drop, append-nil,
}
use purity.Bytes.{AllBytes, IsByte}
use purity.Utils.Utf8.{sequence_length, accepts, valid_loop, is_valid_utf8}
use purity.Utils.Utf8.Spec.{encode, encode_all, IsAccepted}
use purity.Utils.Utf8.Spec.Steps.{valid_loop-encode}
use purity.Utils.Utf8.Spec.Found.{found}

pub length-encode : (cp : ℕ) → 0 < length (encode cp)
unfolding encode
length-encode cp = ground arith

-- Enough rounds accept the encoding of any code points.
valid_loop-encode_all :
    (fuel : ℕ) (cps : List ℕ)
    → All IsAccepted cps
    → length (encode_all cps) < fuel
    → valid_loop fuel (encode_all cps) ≡ true
unfolding encode_all
valid_loop-encode_all zero cps h lt = absurd (omega arith)
valid_loop-encode_all (suc fuel) [] h lt = unfold valid_loop in refl
valid_loop-encode_all (suc fuel) (cp ∷ cps) h lt =
    valid_loop-encode fuel cp (encode_all cps) h.0
    ∙ valid_loop-encode_all fuel cps h.1
        (omega (arith, length-append (encode cp) (encode_all cps), length-encode cp))

-- The code points that an accepted string encodes.
pub record Decoded (str : List ℕ) : Type 0 where
  pub cps : List ℕ
  pub accepted : All IsAccepted cps
  pub bytes : encode_all cps ≡ str

valid_loop-Decoded :
    (fuel : ℕ) (str : List ℕ) → AllBytes str → valid_loop fuel str ≡ true → Decoded str
unfolding valid_loop encode_all
valid_loop-Decoded zero str bytes h = cc
valid_loop-Decoded (suc fuel) [] bytes h = record { cps = []; accepted = tt; bytes = refl }
valid_loop-Decoded (suc fuel) (c ∷ rest) bytes h =
    let n = sequence_length c - 1 in
    let fits : accepts (sequence_length c) c rest ≡ true = ground arith in
    let more : valid_loop fuel (drop n rest) ≡ true = ground arith in
    let f = found c rest bytes.0 bytes.1 fits in
    let d = valid_loop-Decoded fuel (drop n rest) (All-drop IsByte n rest bytes.1) more in
    record { cps = f.cp ∷ d.cps; accepted = (f.accepted, d.accepted); bytes = rw d.bytes f.bytes }

pub Decoded-valid : (str : List ℕ) → Decoded str → is_valid_utf8 str ≡ true
unfolding is_valid_utf8
Decoded-valid str d =
    rw (← d.bytes)
      (valid_loop-encode_all (length (encode_all d.cps) + 1) d.cps d.accepted (omega arith))

-- A string of bytes is accepted exactly when it is the encoding of some numbers below 0x140000 that
-- are no surrogates.
pub is_valid_utf8_iff : (str : List ℕ) → AllBytes str → (is_valid_utf8 str ≡ true) ↔ Decoded str
unfolding is_valid_utf8
is_valid_utf8_iff str bytes = (valid_loop-Decoded (length str + 1) str bytes, Decoded-valid str)

-- So the encoding of every number from 0x110000 to 0x13FFFF, which Unicode does not have, is accepted
-- as well.
pub is_valid_utf8-above_unicode :
    (cp : ℕ) → 0x110000 ≤ cp → cp < 0x140000 → is_valid_utf8 (encode cp) ≡ true
unfolding is_valid_utf8 encode_all
is_valid_utf8-above_unicode cp lo hi =
    let e : encode cp ++ [] ≡ encode cp = append-nil (encode cp) in
    let padded : valid_loop (length (encode cp) + 1) (encode cp ++ []) ≡ true =
      valid_loop-encode_all (length (encode cp) + 1) (cp ∷ []) ((hi, inr (omega arith)), tt)
        (rw e (omega arith)) in
    rw e at padded
