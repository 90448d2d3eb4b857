-- ===== src/Bytes/RoundTrip.antt =====
-- Byte orders of src/common/packet/ByteBuffer.hpp: encoding and decoding undo one another.
use native.Mathlib.Nat.{pow-suc}
use mathlib.Core.List.{reverse-reverse, reverse-cons, reverse-append}
use purity.Common.{
  ℕ, zero, suc, ◌+◌, ◌*◌, ◌/◌, ◌%◌, ◌^◌, ◌<◌, ◌≡◌, refl, sym, ap, ◌∙◌, List, [], ◌∷◌, ◌++◌, reverse,
  length, length-reverse, All-append, arith,
}
use purity.Bytes.{AllBytes, IsByte, le_bytes, be_bytes, le_value, be_value}

pub length-le_bytes : (w v : ℕ) → length (le_bytes w v) ≡ w
unfolding le_bytes
length-le_bytes zero v = refl
length-le_bytes (suc w) v = ap suc (length-le_bytes w (v / 256))

pub length-be_bytes : (w v : ℕ) → length (be_bytes w v) ≡ w
unfolding be_bytes
length-be_bytes w v = length-reverse (le_bytes w v) ∙ length-le_bytes w v

pub le_bytes-AllBytes : (w v : ℕ) → AllBytes (le_bytes w v)
unfolding le_bytes
le_bytes-AllBytes zero v = tt
le_bytes-AllBytes (suc w) v = (omega arith, le_bytes-AllBytes w (v / 256))

pub reverse-AllBytes : (bs : List ℕ) → AllBytes bs → AllBytes (reverse bs)
reverse-AllBytes [] h = tt
reverse-AllBytes (b ∷ bs) h =
    rw (reverse-cons b bs)
      (All-append IsByte (reverse bs) (b ∷ []) (reverse-AllBytes bs h.1) (h.0, tt))

pub be_bytes-AllBytes : (w v : ℕ) → AllBytes (be_bytes w v)
unfolding be_bytes
be_bytes-AllBytes w v = reverse-AllBytes (le_bytes w v) (le_bytes-AllBytes w v)

-- A number that fits the width comes back.
pub le_value-le_bytes : (w v : ℕ) → v < 256 ^ w → le_value (le_bytes w v) ≡ v
unfolding le_bytes le_value
le_value-le_bytes zero v h = omega arith
le_value-le_bytes (suc w) v h =
    omega (arith, le_value-le_bytes w (v / 256) (omega (arith, pow-suc 256 w)))

pub be_value-be_bytes : (w v : ℕ) → v < 256 ^ w → be_value (be_bytes w v) ≡ v
unfolding be_bytes be_value
be_value-be_bytes w v h = rw (reverse-reverse (le_bytes w v)) (le_value-le_bytes w v h)

pub le_value-lt : (bs : List ℕ) → AllBytes bs → le_value bs < 256 ^ length bs
unfolding le_value
le_value-lt [] h = omega arith
le_value-lt (b ∷ bs) h = omega (arith, le_value-lt bs h.1, h.0, pow-suc 256 (length bs))

pub be_value-lt : (bs : List ℕ) → AllBytes bs → be_value bs < 256 ^ length bs
unfolding be_value
be_value-lt bs h = rw (← length-reverse bs) (le_value-lt (reverse bs) (reverse-AllBytes bs h))

-- And the bytes come back from the number.
pub le_bytes-le_value : (bs : List ℕ) → AllBytes bs → le_bytes (length bs) (le_value bs) ≡ bs
unfolding le_bytes le_value
le_bytes-le_value [] h = refl
le_bytes-le_value (b ∷ bs) h =
    let low : (b + 256 * le_value bs) % 256 ≡ b = omega (arith, h.0) in
    let high : (b + 256 * le_value bs) / 256 ≡ le_value bs = omega (arith, h.0) in
    rw (low, high, le_bytes-le_value bs h.1)

pub be_bytes-be_value : (bs : List ℕ) → AllBytes bs → be_bytes (length bs) (be_value bs) ≡ bs
unfolding be_bytes be_value
be_bytes-be_value bs h =
    ap reverse (
      ap (λ n. le_bytes n (le_value (reverse bs))) (sym (length-reverse bs))
      ∙ le_bytes-le_value (reverse bs) (reverse-AllBytes bs h))
    ∙ reverse-reverse bs

-- Leading zeros do not change a big-endian number.
le_value-append :
    (bs cs : List ℕ) → le_value (bs ++ cs) ≡ le_value bs + 256 ^ length bs * le_value cs
unfolding le_value
le_value-append [] cs = omega arith
le_value-append (b ∷ bs) cs = rw (le_value-append bs cs, pow-suc 256 (length bs)) (omega arith)

pub be_value-append :
    (bs cs : List ℕ) → be_value (bs ++ cs) ≡ be_value bs * 256 ^ length cs + be_value cs
unfolding be_value
be_value-append bs cs =
    rw (reverse-append bs cs)
      (grind (arith, le_value-append (reverse cs) (reverse bs), length-reverse cs))
