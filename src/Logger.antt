-- ===== src/Logger.antt =====
-- src/common/Logger.hpp: the text of a line of the log.
-- A character is a number. `MDC`, an unordered map of strings, is the list of its pairs, each key once, in
-- the order of its iteration.
pub mod Json
pub mod Decimal
pub mod Formatter
pub mod Entry
use purity.Common.{
  ℕ, Bool, true, false, not, List, [], ◌∷◌, ◌++◌, ◌==◌, ◌||◌, Option, none, some, if◌then◌else◌,
  map,
}

abbrev pub quote : ℕ
quote = 34

abbrev pub backslash : ℕ
backslash = 92

-- Equality of `std::string`.
unfoldable pub same_text : List ℕ → List ℕ → Bool
same_text [] [] = true
same_text [] (c ∷ cs) = false
same_text (c ∷ cs) [] = false
same_text (c ∷ cs) (d ∷ ds) = let rest = same_text cs ds in if c == d then rest else false

abbrev pub Mdc : Type 0
Mdc = List (List ℕ × List ℕ)

unfoldable pub put : Mdc → List ℕ → List ℕ → Mdc
put [] key value = (key, value) ∷ []
put ((k, v) ∷ pairs) key value =
    let rest = put pairs key value in if same_text k key then (k, value) ∷ pairs else (k, v) ∷ rest

unfoldable pub clear : Mdc → Mdc
clear mdc = []

-- `out`, with one more character.
unfoldable pub escaped : ℕ → List ℕ
escaped c =
    if c == quote
    then backslash ∷ quote ∷ []
    else if c == backslash
    then backslash ∷ backslash ∷ []
    else c ∷ []

unfoldable pub escape : List ℕ → List ℕ
escape [] = []
escape (c ∷ s) = escaped c ++ escape s

-- A string between quotes.
unfoldable pub quoted : List ℕ → List ℕ
quoted s = quote ∷ (escape s ++ (quote ∷ []))

-- The loop of `mdc_to_json`; `first` is its variable.
unfoldable pub pairs_to_json : Bool → Mdc → List ℕ
pairs_to_json first [] = []
pairs_to_json first ((k, v) ∷ pairs) =
    (if not first then 44 ∷ [] else [])
    ++ (quoted k ++ (58 ∷ (quoted v ++ pairs_to_json false pairs)))

-- "{" and "}"
unfoldable pub mdc_to_json : Mdc → List ℕ
mdc_to_json mdc = 123 ∷ (pairs_to_json true mdc ++ (125 ∷ []))

-- "\"message\":"
abbrev pub message_key : List ℕ
message_key = 34 ∷ 109 ∷ 101 ∷ 115 ∷ 115 ∷ 97 ∷ 103 ∷ 101 ∷ 34 ∷ 58 ∷ []

-- ",\"mdc\":"
abbrev pub mdc_key : List ℕ
mdc_key = 44 ∷ 34 ∷ 109 ∷ 100 ∷ 99 ∷ 34 ∷ 58 ∷ []

-- What `log_json` gives to spdlog, of the formatted message.
unfoldable pub log_json : List ℕ → List ℕ
log_json message = message_key ++ quoted message

unfoldable pub format_with_mdc : List ℕ → Mdc → List ℕ
format_with_mdc message mdc = message_key ++ (quoted message ++ (mdc_key ++ mdc_to_json mdc))

-- The sinks: the console, and a file if the variable LOG_FILE, in lower case, is "true", "1" or "yes".
pub data Sink : Type 0 where
  console file : Sink

unfoldable pub enable_file_log : (ℕ → ℕ) → Option (List ℕ) → Bool
enable_file_log tolower none = false
enable_file_log tolower (some env_log_file) =
    let val = map tolower env_log_file in
    same_text val (116 ∷ 114 ∷ 117 ∷ 101 ∷ [])
    || same_text val (49 ∷ [])
    || same_text val (121 ∷ 101 ∷ 115 ∷ [])

unfoldable pub sinks : (ℕ → ℕ) → Option (List ℕ) → List Sink
sinks tolower env_log_file =
    if enable_file_log tolower env_log_file then console ∷ file ∷ [] else console ∷ []
