-- ===== src/Logger/Decimal.antt =====
-- src/common/Logger.hpp: the numbers of a log line, as `{}` and `{:03}` of its format print them.
use purity.Common.{
  ℕ, zero, suc, ◌+◌, ◌-◌, ◌*◌, ◌/◌, ◌%◌, ◌≤◌, ◌<◌, ◌≡◌, refl, ap, ◌∙◌, inl, inr, List, [], ◌∷◌,
  ◌++◌, All, All-append, length, length-append, replicate, length-replicate, ltb, ltb→lt,
  Bool-cases, if◌then◌else◌, arith,
}

-- The last digits of a number, at most so many.
unfoldable pub digits : ℕ → ℕ → List ℕ
digits zero n = []
digits (suc fuel) n =
    let front = digits fuel (n / 10) in
    if ltb n 10 then (48 + n) ∷ [] else front ++ ((48 + n % 10) ∷ [])

-- `{}`. A number has no more digits than it has units and one.
unfoldable pub decimal : ℕ → List ℕ
decimal n = digits (n + 1) n

-- `{:03}`
unfoldable pub padded : ℕ → List ℕ
padded n = replicate (3 - length (decimal n)) 48 ++ decimal n

abbrev pub IsDigit : ℕ → Type 0
IsDigit c = (48 ≤ c) × (c ≤ 57)

-- The number that a text of digits denotes, behind a number.
unfoldable pub value : ℕ → List ℕ → ℕ
value n [] = n
value n (c ∷ cs) = value (n * 10 + (c - 48)) cs

value-append : (n : ℕ) (xs ys : List ℕ) → value n (xs ++ ys) ≡ value (value n xs) ys
unfolding value
value-append n [] ys = refl
value-append n (x ∷ xs) ys = value-append (n * 10 + (x - 48)) xs ys

digits-IsDigit : (fuel n : ℕ) → All IsDigit (digits fuel n)
unfolding digits
digits-IsDigit zero n = tt
digits-IsDigit (suc fuel) n = elim (Bool-cases (ltb n 10)) [
  | inl e ↦ rw e (let small = ltb→lt n 10 e in ((omega arith, omega arith), tt))
  | inr e ↦ rw e (
      All-append IsDigit (digits fuel (n / 10)) ((48 + n % 10) ∷ []) (digits-IsDigit fuel (n / 10))
        ((omega arith, omega arith), tt))
]

value-digits : (fuel n : ℕ) → n < fuel → value 0 (digits fuel n) ≡ n
unfolding digits value
value-digits zero n h = absurd (omega arith)
value-digits (suc fuel) n h = elim (Bool-cases (ltb n 10)) [
  | inl e ↦ rw e (omega arith)
  | inr e ↦
      let large : 10 ≤ n = ground arith in
      rw (e, value-append 0 (digits fuel (n / 10)) ((48 + n % 10) ∷ []))
        (let front = value-digits fuel (n / 10) (omega arith) in omega (arith, front))
]

-- So many tens multiplied.
abbrev pub tens : ℕ → ℕ
tens zero = 1
tens (suc k) = 10 * tens k

length-digits : (k fuel n : ℕ) → n < tens (suc k) → length (digits fuel n) ≤ suc k
unfolding digits
length-digits k zero n h = omega arith
length-digits k (suc fuel) n h = elim (Bool-cases (ltb n 10)) [
  | inl e ↦ rw e (omega arith)
  | inr e ↦ rw e (longer k h (ground arith) λ j. length-digits j fuel (n / 10))
]
  where
    longer :
        (k : ℕ)
        → n < tens (suc k)
        → 10 ≤ n
        → ((j : ℕ) → n / 10 < tens (suc j) → length (digits fuel (n / 10)) ≤ suc j)
        → length (digits fuel (n / 10) ++ ((48 + n % 10) ∷ [])) ≤ suc k
    longer zero h large later = absurd (omega arith)
    longer (suc k) h large later =
        let shorter = later k (omega arith) in
        omega (arith, shorter, length-append (digits fuel (n / 10)) ((48 + n % 10) ∷ []))

zeros-value : (k : ℕ) (xs : List ℕ) → value 0 (replicate k 48 ++ xs) ≡ value 0 xs
unfolding value
zeros-value zero xs = refl
zeros-value (suc k) xs = zeros-value k xs

zeros-IsDigit : (k : ℕ) → All IsDigit (replicate k 48)
zeros-IsDigit zero = tt
zeros-IsDigit (suc k) = ((omega arith, omega arith), zeros-IsDigit k)

-- A number that is printed is a text of digits that denotes it.
pub decimal_lem : (n : ℕ) → All IsDigit (decimal n) × (value 0 (decimal n) ≡ n)
unfolding decimal
decimal_lem n = (digits-IsDigit (n + 1) n, value-digits (n + 1) n (omega arith))

length-decimal : (k n : ℕ) → n < tens (suc k) → length (decimal n) ≤ suc k
unfolding decimal
length-decimal k n h = length-digits k (n + 1) n h

-- Padding changes neither, and gives three digits below 1000 and at most six below 1000000.
pub padded_lem :
    (n : ℕ)
    → All IsDigit (padded n)
      × (value 0 (padded n) ≡ n)
      × (n < 1000 → length (padded n) ≡ 3)
      × (n < 1000000 → length (padded n) ≤ 6)
unfolding padded
padded_lem n =
    let ds = decimal n in
    let zeros : List ℕ = replicate (3 - length ds) 48 in
    let (all, same) = decimal_lem n in
    let size : length (zeros ++ ds) ≡ (3 - length ds) + length ds =
      length-append zeros ds
      ∙ ap (λ k. k + length ds) (length-replicate {A = ℕ} (3 - length ds) 48) in
    (
      All-append IsDigit zeros ds (zeros-IsDigit (3 - length ds)) all,
      zeros-value (3 - length ds) ds ∙ same,
      (λ h. omega (arith, size, length-decimal 2 n h)),
      (λ h. omega (arith, size, length-decimal 5 n h)),
    )

-- Three digits behind a number.
three_digits : (n : ℕ) (xs : List ℕ) → length xs ≡ 3 → value n xs ≡ n * 1000 + value 0 xs
unfolding value
three_digits n [] e = absurd (omega arith)
three_digits n (a ∷ []) e = absurd (omega arith)
three_digits n (a ∷ b ∷ []) e = absurd (omega arith)
three_digits n (a ∷ b ∷ c ∷ []) e = omega arith
three_digits n (a ∷ b ∷ c ∷ d ∷ xs) e = absurd (omega arith)

-- Two numbers below 1000, one printed behind the other.
pub padded-padded :
    (m n : ℕ)
    → m < 1000
    → n < 1000
    → (length (padded m ++ padded n) ≡ 6) × (value 0 (padded m ++ padded n) ≡ m * 1000 + n)
padded-padded m n h k =
    let (all_m, value_m, three_m, _) = padded_lem m in
    let (all_n, value_n, three_n, _) = padded_lem n in
    (
      omega (arith, three_m h, three_n k, length-append (padded m) (padded n)),
      value-append 0 (padded m) (padded n)
          ∙ three_digits (value 0 (padded m)) (padded n) (three_n k)
          ∙ omega (arith, value_m, value_n),
    )
