-- ===== src/Database/Rows.antt =====
-- src/common/database/QueryResults.hpp: what `PgRowMapper` makes of a row of libpqxx.
-- A row is the function that finds the field of a column; `Field` has what libpqxx converts its value to.
use purity.Common.{
  ℕ, ◌^◌, Bool, List, [], ◌∷◌, Option, none, some, Outcome, ok, ◌>>=◌, if◌then◌else◌,
}
use purity.Common.Int.{ℤ, to_unsigned}
use purity.Exception.{Exception}
use purity.Utils.Time.{Calendar, parse_pg_timestamp_optional}
use purity.World.{AccountsRow}

pub record Field : Type 0 where
  pub is_null : Bool
  pub as_int64 : Outcome Exception ℤ
  pub as_string : Outcome Exception (List ℕ)
  pub binarystring : Outcome Exception (List ℕ)

abbrev pub Row : Type 0
Row = List ℕ → Outcome Exception Field

-- "id"
abbrev pub column_id : List ℕ
column_id = 105 ∷ 100 ∷ []

-- "username"
abbrev pub column_username : List ℕ
column_username = 117 ∷ 115 ∷ 101 ∷ 114 ∷ 110 ∷ 97 ∷ 109 ∷ 101 ∷ []

-- "salt"
abbrev pub column_salt : List ℕ
column_salt = 115 ∷ 97 ∷ 108 ∷ 116 ∷ []

-- "verifier"
abbrev pub column_verifier : List ℕ
column_verifier = 118 ∷ 101 ∷ 114 ∷ 105 ∷ 102 ∷ 105 ∷ 101 ∷ 114 ∷ []

-- "email"
abbrev pub column_email : List ℕ
column_email = 101 ∷ 109 ∷ 97 ∷ 105 ∷ 108 ∷ []

-- "created_at"
abbrev pub column_created_at : List ℕ
column_created_at = 99 ∷ 114 ∷ 101 ∷ 97 ∷ 116 ∷ 101 ∷ 100 ∷ 95 ∷ 97 ∷ 116 ∷ []

-- What is set unless the field is null.
unfoldable pub unless_null :
    {A : Type 0} → Field → Outcome Exception A → Outcome Exception (Option A)
unless_null f value = if f.is_null then ok none else (value >>= λ a. ok (some a))

-- `created_at`, which stays unset for a text that is no timestamp.
unfoldable pub created : Calendar → Field → Outcome Exception (Option ℤ)
created calendar f =
    if f.is_null
    then ok none
    else (f.as_string >>= λ text. ok (parse_pg_timestamp_optional calendar text))

unfoldable pub map_accounts : Calendar → Row → Outcome Exception AccountsRow
map_accounts calendar r = do
  id_field ← r column_id
  id ← id_field.as_int64
  username ← r column_username
  name ← unless_null username username.as_string
  salt_field ← r column_salt
  salt ← unless_null salt_field salt_field.binarystring
  verifier_field ← r column_verifier
  verifier ← unless_null verifier_field verifier_field.binarystring
  email_field ← r column_email
  email ← unless_null email_field email_field.as_string
  created_field ← r column_created_at
  created_at ← created calendar created_field
  ok record {
    id = to_unsigned (2 ^ 64) id;
    name = name;
    salt = salt;
    verifier = verifier;
    email = email;
    created_at = created_at;
  }

-- `PgRowMapper<NothingRow>`
unfoldable pub map_nothing : Row → Outcome Exception (Unit {0})
map_nothing r = ok tt

-- `PgRowMapper<uint64_t>`, of the first field of a row.
unfoldable pub map_uint64 : Outcome Exception Field → Outcome Exception ℕ
map_uint64 first = first >>= λ f. (f.as_int64 >>= λ id. ok (to_unsigned (2 ^ 64) id))
