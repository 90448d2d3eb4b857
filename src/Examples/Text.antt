-- ===== src/Examples/Text.antt =====
-- UTF-8, hexadecimal digits and the account cache, on concrete values.
use purity.Common.{ℕ, ◌≡◌, refl, ◌↔◌, true, List, [], ◌∷◌, ok, map, arith}
use purity.Bytes.{AllBytes}
use purity.Utils.Hex.{bytes_to_hex, hex_to_bytes}
use purity.Utils.Hex.Laws.{hex_to_bytes-bytes_to_hex}
use purity.Utils.Utf8.{
  is_valid_utf8, valid_loop, sequence_length, two_bytes, accepts, to_uppercase, to_upper,
}
use purity.Utils.Utf8.Spec.Valid.{is_valid_utf8_iff, Decoded}
use purity.Utils.Utf8.Spec.Upper.{to_uppercase_lem}
use purity.AccountCache.{AccountCache, Entry, get, put}
use purity.AccountCache.Laws.{get-put_other}

hex_to_bytes-bytes_to_hex_example :
    hex_to_bytes (bytes_to_hex (222 ∷ 173 ∷ [])) ≡ ok (222 ∷ 173 ∷ [])
hex_to_bytes-bytes_to_hex_example =
    hex_to_bytes-bytes_to_hex (222 ∷ 173 ∷ []) (omega arith, (omega arith, tt))

-- The letter a, and the letter e with an accent in two bytes.
abbrev name : List ℕ
name = 97 ∷ 195 ∷ 169 ∷ []

name-AllBytes : AllBytes name
name-AllBytes = (omega arith, (omega arith, (omega arith, tt)))

is_valid_utf8_iff_example : (is_valid_utf8 name ≡ true) ↔ Decoded name
is_valid_utf8_iff_example = is_valid_utf8_iff name name-AllBytes

to_uppercase_lem_example :
    (to_uppercase name ≡ map to_upper name) × (is_valid_utf8 (to_uppercase name) ≡ true)
unfolding is_valid_utf8 valid_loop accepts sequence_length two_bytes
to_uppercase_lem_example = to_uppercase_lem name name-AllBytes refl

abbrev entry : Entry
entry = record { salt = 1 ∷ []; verifier = 2 ∷ []; last_access = 0 }

abbrev accounts : AccountCache
accounts = record { cache = (name, entry) ∷ []; ttl = 300 }

get-put_other_example : (get (put accounts 10 (65 ∷ []) entry) 20 name).1 ≡ (get accounts 20 name).1
get-put_other_example = get-put_other accounts 10 20 (65 ∷ []) name entry refl
