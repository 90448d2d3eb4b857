-- ===== src/Logger/Json.antt =====
-- src/common/Logger.hpp: the text of a log line, read as JSON.
-- The reader knows the two escapes that the logger writes, and takes any other character as it is.
use purity.Common.{
  ℕ, zero, suc, ◌≡◌, refl, sym, ap, ◌∙◌, Bool, true, false, not, List, [], ◌∷◌, ◌++◌, append_assoc,
  append-nil, Option, none, some, ◌==◌, if◌then◌else◌, arith, length, length-append, ◌≤◌, ◌<◌,
}
use purity.Logger.{
  quote, backslash, Mdc, escaped, escape, quoted, pairs_to_json, mdc_to_json, message_key, mdc_key,
  format_with_mdc,
}

-- The character before the rest of what is read.
abbrev pub with_char : ℕ → Option (List ℕ × List ℕ) → Option (List ℕ × List ℕ)
with_char c none = none
with_char c (some (s, rest)) = some (c ∷ s, rest)

-- A string up to its closing quote, and what is behind it. `after_backslash` says that the character before
-- was one that escapes.
unfoldable pub read_chars : Bool → List ℕ → Option (List ℕ × List ℕ)
read_chars after_backslash [] = none
read_chars true (c ∷ text) = with_char c (read_chars false text)
read_chars false (c ∷ text) =
    let plain = with_char c (read_chars false text) in
    let escape_next = read_chars true text in
    if c == quote then some ([], text) else if c == backslash then escape_next else plain

-- What is behind a given text.
unfoldable pub expect : List ℕ → List ℕ → Option (List ℕ)
expect [] text = some text
expect (c ∷ cs) [] = none
expect (c ∷ cs) (d ∷ text) = let rest = expect cs text in if c == d then rest else none

read_chars-escaped :
    (c : ℕ) (text : List ℕ)
    → read_chars false (escaped c ++ text) ≡ with_char c (read_chars false text)
unfolding read_chars escaped
read_chars-escaped c text = ground arith

-- A string that has been escaped is read back, up to the quote that closes it and no further, whatever
-- quotes and backslashes it has itself.
pub read_chars-escape :
    (s rest : List ℕ) → read_chars false (escape s ++ (quote ∷ rest)) ≡ some (s, rest)
unfolding read_chars escape
read_chars-escape [] rest = refl
read_chars-escape (c ∷ s) rest =
    ap (read_chars false) (append_assoc (escaped c) (escape s) (quote ∷ rest))
    ∙ read_chars-escaped c (escape s ++ (quote ∷ rest))
    ∙ ap (with_char c) (read_chars-escape s rest)

-- What is read next, from where the reading before has stopped.
abbrev pub then_read : {A B : Type 0} → Option (A × List ℕ) → (A → List ℕ → Option B) → Option B
then_read none f = none
then_read (some (a, text)) f = f a text

abbrev pub behind : {B : Type 0} → Option (List ℕ) → (List ℕ → Option B) → Option B
behind none f = none
behind (some text) f = f text

unfoldable pub read_quoted : List ℕ → Option (List ℕ × List ℕ)
read_quoted text = behind (expect (quote ∷ []) text) λ inside. read_chars false inside

-- A key and its value.
unfoldable pub read_pair : List ℕ → Option ((List ℕ × List ℕ) × List ℕ)
read_pair text =
    then_read (read_quoted text) λ k t1.
      behind (expect (58 ∷ []) t1) λ t2. then_read (read_quoted t2) λ v t3. some ((k, v), t3)

-- The members of an object up to its closing brace, at most so many.
unfoldable pub read_pairs : ℕ → Bool → List ℕ → Option (Mdc × List ℕ)
read_pairs fuel first [] = none
read_pairs zero first (c ∷ text) = none
read_pairs (suc n) first (c ∷ text) =
    let key = if first then some (c ∷ text) else expect (44 ∷ []) (c ∷ text) in
    let members = behind key λ t.
      then_read (read_pair t)
        λ pair t1. then_read (read_pairs n false t1) λ pairs t2. some (pair ∷ pairs, t2) in
    if c == 125 then some ([], text) else members

unfoldable pub read_mdc : List ℕ → Option (Mdc × List ℕ)
read_mdc text = behind (expect (123 ∷ []) text) λ inside. read_pairs (length text) true inside

-- The message and the MDC of a line, with what is behind them.
unfoldable pub read_line : List ℕ → Option ((List ℕ × Mdc) × List ℕ)
read_line text = behind (expect message_key text) λ t. then_read (read_quoted t) λ message t1.
    behind (expect mdc_key t1) λ t2. then_read (read_mdc t2) λ mdc t3. some ((message, mdc), t3)

pub read_quoted-quoted : (s rest : List ℕ) → read_quoted (quoted s ++ rest) ≡ some (s, rest)
unfolding read_quoted quoted expect
read_quoted-quoted s rest =
    ap (read_chars false) (append_assoc (escape s) (quote ∷ []) rest) ∙ read_chars-escape s rest

read_pair-quoted :
    (k v more rest : List ℕ)
    → read_pair ((quoted k ++ (58 ∷ (quoted v ++ more))) ++ rest) ≡ some ((k, v), more ++ rest)
unfolding read_pair expect
read_pair-quoted k v more rest =
    ap read_pair (append_assoc (quoted k) (58 ∷ (quoted v ++ more)) rest)
    ∙ ap (λ xs. read_pair (quoted k ++ (58 ∷ xs))) (append_assoc (quoted v) more rest)
    ∙ rw
        (
          read_quoted-quoted k (58 ∷ (quoted v ++ (more ++ rest))),
          read_quoted-quoted v (more ++ rest),
        )
        refl

-- One member and those behind it.
read_pairs-first :
    (n : ℕ) (first : Bool) (k v rest : List ℕ) (mdc : Mdc)
    → read_pairs n false (pairs_to_json false mdc ++ (125 ∷ rest)) ≡ some (mdc, rest)
    → read_pairs (suc n) first (pairs_to_json first ((k, v) ∷ mdc) ++ (125 ∷ rest))
      ≡ some ((k, v) ∷ mdc, rest)
unfolding read_pairs pairs_to_json expect
read_pairs-first n true k v rest mdc e =
    unfold quoted in
    ap
      (λ r.
        then_read r
          λ pair t1. then_read (read_pairs n false t1) λ pairs t2. some (pair ∷ pairs, t2))
      (read_pair-quoted k v (pairs_to_json false mdc) (125 ∷ rest))
    ∙ ap (λ r. then_read r λ pairs t2. some ((k, v) ∷ pairs, t2)) e
read_pairs-first n false k v rest mdc e =
    rw (read_pair-quoted k v (pairs_to_json false mdc) (125 ∷ rest), e) refl

read_pairs-pairs_to_json :
    (fuel : ℕ) (first : Bool) (mdc : Mdc) (rest : List ℕ)
    → length mdc < fuel
    → read_pairs fuel first (pairs_to_json first mdc ++ (125 ∷ rest)) ≡ some (mdc, rest)
unfolding read_pairs pairs_to_json
read_pairs-pairs_to_json zero first mdc rest h = absurd (omega arith)
read_pairs-pairs_to_json (suc n) first [] rest h = refl
read_pairs-pairs_to_json (suc n) first ((k, v) ∷ mdc) rest h =
    read_pairs-first n first k v rest mdc (read_pairs-pairs_to_json n false mdc rest (omega arith))

length-pairs_to_json : (first : Bool) (mdc : Mdc) → length mdc ≤ length (pairs_to_json first mdc)
unfolding pairs_to_json
length-pairs_to_json first [] = omega arith
length-pairs_to_json first ((k, v) ∷ mdc) =
    let later = length-pairs_to_json false mdc in
    let comma : List ℕ = if not first then 44 ∷ [] else [] in
    omega (
      arith,
      later,
      length-append comma (quoted k ++ (58 ∷ (quoted v ++ pairs_to_json false mdc))),
      length-append (quoted k) (58 ∷ (quoted v ++ pairs_to_json false mdc)),
      length-append (quoted v) (pairs_to_json false mdc),
    )

pub read_mdc-mdc_to_json :
    (mdc : Mdc) (rest : List ℕ) → read_mdc (mdc_to_json mdc ++ rest) ≡ some (mdc, rest)
unfolding read_mdc mdc_to_json expect
read_mdc-mdc_to_json mdc rest =
    let inside = pairs_to_json true mdc in
    let split = append_assoc inside (125 ∷ []) rest in
    let few : length mdc < length (123 ∷ ((inside ++ (125 ∷ [])) ++ rest)) = omega (
      arith,
      length-pairs_to_json true mdc,
      length-append (inside ++ (125 ∷ [])) rest,
      length-append inside (125 ∷ []),
    ) in
    ap (read_pairs (length (123 ∷ ((inside ++ (125 ∷ [])) ++ rest))) true) split
    ∙ read_pairs-pairs_to_json (length (123 ∷ ((inside ++ (125 ∷ [])) ++ rest))) true mdc rest few

-- The text of a message and its MDC, whatever comes behind.
pub read_line-append :
    (message : List ℕ) (mdc : Mdc) (rest : List ℕ)
    → read_line (format_with_mdc message mdc ++ rest) ≡ some ((message, mdc), rest)
unfolding read_line format_with_mdc expect
read_line-append message mdc rest =
    let json = mdc_to_json mdc in
    rw
      (
        append_assoc (quoted message) (mdc_key ++ json) rest,
        read_quoted-quoted message (mdc_key ++ (json ++ rest)),
        read_mdc-mdc_to_json mdc rest,
      )
      refl

-- The line that is logged with an MDC is read back as its message and every pair of the MDC: no quote or
-- backslash in a message, a key or a value ends its string early or starts another member.
pub read_line-format_with_mdc :
    (message : List ℕ) (mdc : Mdc)
    → read_line (format_with_mdc message mdc) ≡ some ((message, mdc), [])
read_line-format_with_mdc message mdc =
    ap read_line (sym (append-nil (format_with_mdc message mdc))) ∙ read_line-append message mdc []
