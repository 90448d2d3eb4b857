-- ===== src/Packet/Dump.antt =====
-- src/common/packet/Packet.hpp: `log_raw_payload`, the dump of a payload in the log.
-- `decimal` prints the size.
use purity.Common.{
  ℕ, ◌+◌, ◌-◌, ◌*◌, ◌/◌, ◌%◌, ◌<◌, ◌≡◌, refl, List, [], ◌∷◌, ◌++◌, Outcome, ok, throw, ◌>>=◌,
  length, ltb, if◌then◌else◌, arith,
}
use purity.Bytes.{AllBytes}
use purity.Exception.{Exception, odd_length}
use purity.Utils.Hex.{hex_char_to_int}
use purity.Logger.{put}
use purity.Logger.Decimal.{decimal}
use purity.Logger.Formatter.{Outside, debug, log_with_mdc}

-- A digit of `{:02X}`
unfoldable pub upper_digit : ℕ → ℕ
upper_digit n = if ltb n 10 then b'0' + n else b'A' + (n - 10)

-- The loop: each byte in two digits, with a space behind.
unfoldable pub hex_dump : List ℕ → List ℕ
hex_dump [] = []
hex_dump (b ∷ bytes) = upper_digit (b / 16) ∷ upper_digit (b % 16) ∷ 32 ∷ hex_dump bytes

-- " opcode ID: "
abbrev opcode_text : List ℕ
opcode_text = 32 ∷ 111 ∷ 112 ∷ 99 ∷ 111 ∷ 100 ∷ 101 ∷ 32 ∷ 73 ∷ 68 ∷ 58 ∷ 32 ∷ []

-- " bytes) RAW: "
abbrev bytes_text : List ℕ
bytes_text = 32 ∷ 98 ∷ 121 ∷ 116 ∷ 101 ∷ 115 ∷ 41 ∷ 32 ∷ 82 ∷ 65 ∷ 87 ∷ 58 ∷ 32 ∷ []

-- "opcode"
abbrev opcode_key : List ℕ
opcode_key = 111 ∷ 112 ∷ 99 ∷ 111 ∷ 100 ∷ 101 ∷ []

unfoldable pub dump_message : List ℕ → List ℕ → List ℕ → List ℕ
dump_message opcode payload prefix =
    prefix
    ++ (opcode_text
        ++ (opcode ++ (32 ∷ 40 ∷ (decimal (length payload) ++ (bytes_text ++ hex_dump payload)))))

-- The line that it logs.
unfoldable pub log_raw_payload : Outside → ℕ → ℕ → List ℕ → List ℕ → List ℕ → List ℕ
log_raw_payload t time thread_id opcode payload prefix =
    log_with_mdc t time thread_id debug (dump_message opcode payload prefix)
      (put [] opcode_key opcode)

-- A dump, read two digits and a space at a time.
unfoldable pub read_dump : List ℕ → Outcome Exception (List ℕ)
read_dump [] = ok []
read_dump (a ∷ []) = throw odd_length
read_dump (a ∷ b ∷ []) = throw odd_length
read_dump (a ∷ b ∷ space ∷ rest) = do
  hi ← hex_char_to_int a
  lo ← hex_char_to_int b
  bytes ← read_dump rest
  ok ((hi * 16 + lo) ∷ bytes)

hex_char_to_int-upper_digit : (n : ℕ) → n < 16 → hex_char_to_int (upper_digit n) ≡ ok n
unfolding hex_char_to_int upper_digit
hex_char_to_int-upper_digit n h = ground arith

-- The dump of a payload says what the payload is.
pub read_dump-hex_dump :
    (payload : List ℕ) → AllBytes payload → read_dump (hex_dump payload) ≡ ok payload
unfolding read_dump hex_dump
read_dump-hex_dump [] h = refl
read_dump-hex_dump (b ∷ bytes) h =
    let value : b / 16 * 16 + b % 16 ≡ b = omega arith in
    rw
      (
        hex_char_to_int-upper_digit (b / 16) (omega (arith, h.0)),
        hex_char_to_int-upper_digit (b % 16) (omega arith),
        read_dump-hex_dump bytes h.1,
        value,
      )
      refl
