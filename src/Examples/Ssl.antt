-- ===== src/Examples/Ssl.antt =====
-- A library that has what the program relies on in OpenSSL, but for a digest that is worth nothing.
use purity.Common.{
  ℕ, zero, suc, ◌+◌, ◌*◌, ◌/◌, ◌%◌, ◌^◌, ◌<◌, ◌≤◌, ◌≡◌, refl, List, [], ◌∷◌, ◌++◌, length,
  replicate, length-append, All-append, arith,
}
use native.Mathlib.Nat.{pow-suc}
use purity.Bytes.{AllBytes, IsByte, be_value, le_value}
use purity.Bytes.RoundTrip.{be_value-append}
use purity.OpenSsl.{OpenSsl}

-- With as much fuel as the number, which a division by 256 never uses up.
unfoldable pub digits : ℕ → ℕ → List ℕ
digits zero n = []
digits (suc fuel) zero = []
digits (suc fuel) (suc m) = digits fuel (suc m / 256) ++ (suc m % 256 ∷ [])

pub digits-AllBytes : (fuel n : ℕ) → AllBytes (digits fuel n)
unfolding digits
digits-AllBytes zero n = tt
digits-AllBytes (suc fuel) zero = tt
digits-AllBytes (suc fuel) (suc m) =
    All-append IsByte (digits fuel (suc m / 256)) _ (digits-AllBytes fuel (suc m / 256))
      (omega arith, tt)

pub be_value-digits : (fuel n : ℕ) → n ≤ fuel → be_value (digits fuel n) ≡ n
unfolding digits
be_value-digits zero n h = unfold be_value le_value in omega arith
be_value-digits (suc fuel) zero h = unfold be_value le_value in refl
be_value-digits (suc fuel) (suc m) h =
    rw (be_value-append (digits fuel (suc m / 256)) (suc m % 256 ∷ []))
      (rw (be_value-digits fuel (suc m / 256) (omega arith), one (suc m % 256)) (omega arith))
  where
    one : (b : ℕ) → be_value (b ∷ []) ≡ b
    one b = unfold be_value le_value in omega arith

pub length-digits : (fuel n w : ℕ) → n < 256 ^ w → length (digits fuel n) ≤ w
unfolding digits
length-digits zero n w h = omega arith
length-digits (suc fuel) zero w h = omega arith
length-digits (suc fuel) (suc m) zero h = absurd (omega arith)
length-digits (suc fuel) (suc m) (suc w) h = omega (
  arith,
  length-append (digits fuel (suc m / 256)) (suc m % 256 ∷ []),
  length-digits fuel (suc m / 256) w (omega (arith, pow-suc 256 w)),
)

abbrev pub ssl : OpenSsl
ssl = record {
  sha1 = λ message. replicate 20 0;
  length-sha1 = λ message. refl;
  sha1-AllBytes = λ message. digest;
  bin2bn = be_value;
  bin2bn_lem = λ message. refl;
  bn2bin = λ n. digits n n;
  bn2bin-AllBytes = λ n. digits-AllBytes n n;
  be_value-bn2bin = λ n. be_value-digits n n (omega arith);
  length-bn2bin = λ n w. length-digits n n w;
  mod_exp = λ a p m. a ^ p % m;
  mod_exp_lem = λ a p m h. refl;
  mod_mul = λ a b m. a * b % m;
  mod_mul_lem = λ a b m h. refl;
  mod_add = λ a b m. (a + b) % m;
  mod_add_lem = λ a b m h. refl;
}
  where
    digest : AllBytes (replicate 20 0)
    digest = grind arith
