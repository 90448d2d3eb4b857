-- ===== src/Logger/Entry.antt =====
-- src/common/Logger.hpp: a whole line of the log, read back.
use purity.Common.{
  ℕ, ◌<◌, ◌≡◌, refl, ap, ◌∙◌, Bool, true, false, List, [], ◌∷◌, ◌++◌, append_assoc, All, All-append,
  Option, some, leb, ◌==◌, ◌&&◌, if◌then◌else◌, arith,
}
use purity.Logger.{quote, backslash, Mdc, format_with_mdc}
use purity.Logger.Json.{then_read, behind, expect, read_chars, read_line, read_line-append}
use purity.Logger.Decimal.{IsDigit, decimal, padded, value, decimal_lem, padded_lem}
use purity.Logger.Formatter.{
  Level, LogMsg, Outside, seconds, ms, ns, timestamp, timestamp_key, level_key, thread_key,
  line_end, format, log_with_mdc, log,
}

-- The digits in front.
unfoldable pub read_digits : List ℕ → List ℕ × List ℕ
read_digits [] = ([], [])
read_digits (c ∷ text) =
    let later = read_digits text in
    if leb 48 c && leb c 57 then (c ∷ later.0, later.1) else ([], c ∷ text)

pub record Entry : Type 0 where
  pub timestamp : List ℕ
  pub level : List ℕ
  pub thread_id : ℕ
  pub message : List ℕ
  pub mdc : Mdc

-- A line with an MDC, and what is behind it.
unfoldable pub read_entry : List ℕ → Option (Entry × List ℕ)
read_entry line = behind (expect timestamp_key line) λ t1.
    then_read (read_chars false t1) λ time t2. behind (expect level_key t2) λ t3.
      then_read (read_chars false t3) λ level t4. behind (expect thread_key t4) λ t5.
        let (thread_id, t6) = read_digits t5 in
        behind (expect (44 ∷ []) t6) λ t7. then_read (read_line t7) λ text t8.
          behind (expect line_end t8) λ rest. some (
            record {
              timestamp = time;
              level = level;
              thread_id = value 0 thread_id;
              message = text.0;
              mdc = text.1;
            },
            rest,
          )

-- A character that is neither a quote nor a backslash.
abbrev pub IsPlain : ℕ → Type 0
IsPlain c = ((c == quote) ≡ false) × ((c == backslash) ≡ false)

read_chars-IsPlain :
    (s rest : List ℕ) → All IsPlain s → read_chars false (s ++ (quote ∷ rest)) ≡ some (s, rest)
unfolding read_chars
read_chars-IsPlain [] rest h = refl
read_chars-IsPlain (c ∷ s) rest ((no_quote, no_backslash), h) =
    rw (no_quote, no_backslash, read_chars-IsPlain s rest h) refl

read_digits-stop :
    (ds rest : List ℕ) (c : ℕ)
    → All IsDigit ds
    → c < 48
    → read_digits (ds ++ (c ∷ rest)) ≡ (ds, c ∷ rest)
unfolding read_digits
read_digits-stop [] rest c h low =
    let no : (leb 48 c && leb c 57) ≡ false = ground arith in rw no refl
read_digits-stop (d ∷ ds) rest c ((low, high), h) stop =
    let yes : (leb 48 d && leb d 57) ≡ true = ground arith in
    rw (read_digits-stop ds rest c h stop, yes) refl

-- The texts of the time and of the level need no escapes.
pub record ArePlain (t : Outside) : Type 0 where
  pub time : (s : ℕ) → All IsPlain (t.strftime s)
  pub level : (l : Level) → All IsPlain (t.to_string_view l)

digits-IsPlain : (ds : List ℕ) → All IsDigit ds → All IsPlain ds
digits-IsPlain [] h = tt
digits-IsPlain (d ∷ ds) ((low, high), h) = ((ground arith, ground arith), digits-IsPlain ds h)

timestamp-IsPlain : (t : Outside) (tp : ℕ) → ArePlain t → All IsPlain (timestamp t tp)
unfolding timestamp
timestamp-IsPlain t tp plain =
    All-append IsPlain (t.strftime (seconds tp)) (46 ∷ (padded (ms tp) ++ padded (ns tp)))
      (plain.time (seconds tp))
      (
        (refl, refl),
        All-append IsPlain (padded (ms tp)) (padded (ns tp))
            (digits-IsPlain _ (padded_lem (ms tp)).0) (digits-IsPlain _ (padded_lem (ns tp)).0),
      )

-- The line of a message with an MDC is read back as what was logged: the timestamp, the level, the thread,
-- the message and every pair of the MDC, whatever quotes and backslashes these have. The texts of the time
-- and of the level have neither.
pub read_entry-format :
    (t : Outside) (msg : LogMsg) (message rest : List ℕ) (mdc : Mdc)
    → ArePlain t
    → msg.payload ≡ format_with_mdc message mdc
    → read_entry (format t msg ++ rest)
      ≡ some (
        record {
          timestamp = timestamp t msg.time;
          level = t.to_string_view msg.level;
          thread_id = msg.thread_id;
          message = message;
          mdc = mdc;
        },
        rest,
      )
unfolding read_entry format expect
read_entry-format t msg message rest mdc plain e =
    let text = format_with_mdc message mdc in
    let number = decimal msg.thread_id in
    let level = t.to_string_view msg.level in
    let time = timestamp t msg.time in
    let end : List ℕ = line_end ++ rest in
    let after_text : List ℕ = 44 ∷ (text ++ end) in
    let after_level : List ℕ = thread_key ++ (number ++ after_text) in
    let after_time : List ℕ = level_key ++ (level ++ (34 ∷ after_level)) in
    let (all, same) = decimal_lem msg.thread_id in
    rw
      (
        e,
        append_assoc time _ rest,
        append_assoc level _ rest,
        append_assoc number _ rest,
        append_assoc text line_end rest,
        read_chars-IsPlain time after_time (timestamp-IsPlain t msg.time plain),
        read_chars-IsPlain level after_level (plain.level msg.level),
        read_digits-stop number (text ++ end) 44 all (omega arith),
        read_line-append message mdc end,
        same,
      )
      refl

if_log : {b : Bool} (x : List ℕ) → b ≡ true → (if b then x else []) ≡ x
if_log x e = rw e refl

if_quiet : {b : Bool} (x : List ℕ) → b ≡ false → (if b then x else []) ≡ []
if_quiet x e = rw e refl

-- What a method with an MDC logs at a level that is let through is read back, whatever text comes behind it;
-- at any other level nothing is logged. The texts of the time and of the level have no quotes and backslashes.
pub read_entry-log_with_mdc :
    (t : Outside) (time thread_id : ℕ) (level : Level) (message rest : List ℕ) (mdc : Mdc)
    → ArePlain t
    → (t.should_log level ≡ true
        → read_entry (log_with_mdc t time thread_id level message mdc ++ rest)
          ≡ some (
            record {
              timestamp = timestamp t time;
              level = t.to_string_view level;
              thread_id = thread_id;
              message = message;
              mdc = mdc;
            },
            rest,
          ))
      × (t.should_log level ≡ false → log_with_mdc t time thread_id level message mdc ≡ [])
unfolding log_with_mdc log
read_entry-log_with_mdc t time thread_id level message rest mdc plain =
    let msg : LogMsg = record {
      time = time;
      level = level;
      thread_id = thread_id;
      payload = format_with_mdc message mdc;
    } in
    (
      λ logged.
          ap (λ line. read_entry (line ++ rest)) (if_log (format t msg) logged)
          ∙ read_entry-format t msg message rest mdc plain refl,
      λ quiet. if_quiet (format t msg) quiet,
    )
