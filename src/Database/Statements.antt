-- ===== src/Database/Statements.antt =====
-- src/common/database/Database.hpp: the names and the texts of the statements that are prepared.
use purity.Common.{ℕ, List, [], ◌∷◌}

-- "SELECT_ACCOUNT_BY_USERNAME"
abbrev pub select_account_by_username : List ℕ
select_account_by_username =
    83 ∷ 69 ∷ 76 ∷ 69 ∷ 67 ∷ 84 ∷ 95 ∷ 65 ∷ 67 ∷ 67 ∷ 79 ∷ 85 ∷ 78 ∷ 84 ∷ 95 ∷ 66 ∷ 89 ∷ 95 ∷ 85
    ∷ 83 ∷ 69 ∷ 82 ∷ 78 ∷ 65 ∷ 77 ∷ 69 ∷ []

-- "SELECT id, username, salt, verifier, email, created_at FROM accounts WHERE username = $1"
abbrev pub select_account : List ℕ
select_account =
    83 ∷ 69 ∷ 76 ∷ 69 ∷ 67 ∷ 84 ∷ 32 ∷ 105 ∷ 100 ∷ 44 ∷ 32 ∷ 117 ∷ 115 ∷ 101 ∷ 114 ∷ 110 ∷ 97 ∷ 109
    ∷ 101 ∷ 44 ∷ 32 ∷ 115 ∷ 97 ∷ 108 ∷ 116 ∷ 44 ∷ 32 ∷ 118 ∷ 101 ∷ 114 ∷ 105 ∷ 102 ∷ 105 ∷ 101 ∷ 114
    ∷ 44 ∷ 32 ∷ 101 ∷ 109 ∷ 97 ∷ 105 ∷ 108 ∷ 44 ∷ 32 ∷ 99 ∷ 114 ∷ 101 ∷ 97 ∷ 116 ∷ 101 ∷ 100 ∷ 95
    ∷ 97 ∷ 116 ∷ 32 ∷ 70 ∷ 82 ∷ 79 ∷ 77 ∷ 32 ∷ 97 ∷ 99 ∷ 99 ∷ 111 ∷ 117 ∷ 110 ∷ 116 ∷ 115 ∷ 32 ∷ 87
    ∷ 72 ∷ 69 ∷ 82 ∷ 69 ∷ 32 ∷ 117 ∷ 115 ∷ 101 ∷ 114 ∷ 110 ∷ 97 ∷ 109 ∷ 101 ∷ 32 ∷ 61 ∷ 32 ∷ 36 ∷ 49
    ∷ []

-- "INSERT_ACCOUNT_BY_USERNAME"
abbrev pub insert_account_by_username : List ℕ
insert_account_by_username =
    73 ∷ 78 ∷ 83 ∷ 69 ∷ 82 ∷ 84 ∷ 95 ∷ 65 ∷ 67 ∷ 67 ∷ 79 ∷ 85 ∷ 78 ∷ 84 ∷ 95 ∷ 66 ∷ 89 ∷ 95 ∷ 85
    ∷ 83 ∷ 69 ∷ 82 ∷ 78 ∷ 65 ∷ 77 ∷ 69 ∷ []

-- "INSERT INTO accounts (username, salt, verifier) VALUES ($1, $2, $3) RETURNING id"
abbrev pub insert_account : List ℕ
insert_account =
    73 ∷ 78 ∷ 83 ∷ 69 ∷ 82 ∷ 84 ∷ 32 ∷ 73 ∷ 78 ∷ 84 ∷ 79 ∷ 32 ∷ 97 ∷ 99 ∷ 99 ∷ 111 ∷ 117 ∷ 110 ∷ 116
    ∷ 115 ∷ 32 ∷ 40 ∷ 117 ∷ 115 ∷ 101 ∷ 114 ∷ 110 ∷ 97 ∷ 109 ∷ 101 ∷ 44 ∷ 32 ∷ 115 ∷ 97 ∷ 108 ∷ 116
    ∷ 44 ∷ 32 ∷ 118 ∷ 101 ∷ 114 ∷ 105 ∷ 102 ∷ 105 ∷ 101 ∷ 114 ∷ 41 ∷ 32 ∷ 86 ∷ 65 ∷ 76 ∷ 85 ∷ 69
    ∷ 83 ∷ 32 ∷ 40 ∷ 36 ∷ 49 ∷ 44 ∷ 32 ∷ 36 ∷ 50 ∷ 44 ∷ 32 ∷ 36 ∷ 51 ∷ 41 ∷ 32 ∷ 82 ∷ 69 ∷ 84 ∷ 85
    ∷ 82 ∷ 78 ∷ 73 ∷ 78 ∷ 71 ∷ 32 ∷ 105 ∷ 100 ∷ []
