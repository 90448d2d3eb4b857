-- ===== src/Utils/Net.antt =====
-- src/common/utils/NetUtils.hpp: IPv4 addresses in dotted notation. `to_string` is `std::to_string`.
use purity.Common.{ℕ, ◌/◌, ◌%◌, ◌^◌, ◌≡◌, refl, List, [], ◌∷◌, ◌++◌, arith}
use purity.Bytes.{le_bytes, be_bytes}

unfoldable pub uint32_to_ip_be : (ℕ → List ℕ) → ℕ → List ℕ
uint32_to_ip_be to_string ip_be =
    let a = ip_be / 2 ^ 24 % 256 in
    let b = ip_be / 2 ^ 16 % 256 in
    let c = ip_be / 2 ^ 8 % 256 in
    let d = ip_be % 256 in
    to_string a ++ (46 ∷ (to_string b ++ (46 ∷ (to_string c ++ (46 ∷ to_string d)))))

unfoldable pub uint32_to_ip_le : (ℕ → List ℕ) → ℕ → List ℕ
uint32_to_ip_le to_string ip_le =
    let a = ip_le % 256 in
    let b = ip_le / 2 ^ 8 % 256 in
    let c = ip_le / 2 ^ 16 % 256 in
    let d = ip_le / 2 ^ 24 % 256 in
    to_string a ++ (46 ∷ (to_string b ++ (46 ∷ (to_string c ++ (46 ∷ to_string d)))))

-- The bytes of an address, in the order in which they are read.
unfoldable pub dotted : (ℕ → List ℕ) → List ℕ → List ℕ
dotted to_string [] = []
dotted to_string (b ∷ []) = to_string b
dotted to_string (b ∷ next ∷ bytes) = to_string b ++ (46 ∷ dotted to_string (next ∷ bytes))

-- The two functions print the four bytes of the number, from the highest and from the lowest, with a dot
-- between two.
pub uint32_to_ip-dotted :
    (to_string : ℕ → List ℕ) (ip : ℕ)
    → (uint32_to_ip_be to_string ip ≡ dotted to_string (be_bytes 4 ip))
      × (uint32_to_ip_le to_string ip ≡ dotted to_string (le_bytes 4 ip))
unfolding uint32_to_ip_be uint32_to_ip_le dotted be_bytes le_bytes
uint32_to_ip-dotted to_string ip =
    let second : ip / 2 ^ 16 ≡ ip / 256 / 256 = omega arith in
    let third : ip / 2 ^ 24 ≡ ip / 256 / 256 / 256 = omega arith in rw (second, third) (refl, refl)
