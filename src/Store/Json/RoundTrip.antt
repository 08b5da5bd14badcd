-- ===== src/Store/Json/RoundTrip.antt =====
-- `JsonEscape` against a reader of JSON string contents (RFC 8259, section 7), which refuses quotes
-- and control characters that are not escaped.
use mathlib.Core.List.{append_assoc}
use capacity_agent.Base.{
  ℕ, zero, suc, ◌+◌, ◌-◌, ◌*◌, ◌/◌, ◌%◌, ◌<◌, ◌≡◌, refl, false, ltb, leb, ◌==◌, ◌&&◌, Option, none,
  some, [], ◌∷◌, ◌++◌, Text, if◌then◌else◌, arith,
}
use capacity_agent.Store.Json.{json_string, hex_digit, backslash, quote, escape_byte, json_escape}

-- Where the reader stands: in plain text, behind a backslash, or before `suc n` hexadecimal digits.
pub data Mode : Type 0 where
  plain : Mode
  escaped : Mode
  hex : ℕ → ℕ → Mode

pub hex_value : ℕ → Option ℕ
hex_value c =
    if leb b'0' c && leb c b'9'
    then some (c - b'0')
    else if leb b'a' c && leb c b'f'
    then some (c - b'a' + 10)
    else none

abbrev push : ℕ → Option (Text × Text) → Option (Text × Text)
push c none = none
push c (some (s, rest)) = some (c ∷ s, rest)

abbrev push_if : Option ℕ → Option (Text × Text) → Option (Text × Text)
push_if none more = none
push_if (some c) more = push c more

-- The character that stands behind a backslash, but for `u`.
pub short_escape : ℕ → Option ℕ
short_escape c =
    if c == quote
    then some quote
    else if c == backslash
    then some backslash
    else if c == b'/'
    then some b'/'
    else if c == b'b'
    then some 8
    else if c == b'f'
    then some 12
    else if c == b'n'
    then some 10
    else if c == b'r'
    then some 13
    else if c == b't'
    then some 9
    else none

-- The contents up to the closing quote, and the text behind it.
pub read_string : Mode → Text → Option (Text × Text)
read_string mode [] = none
read_string plain (c ∷ text) =
    let escape = read_string escaped text in
    let more = read_string plain text in
    if c == backslash
    then escape
    else if c == quote
    then some ([], text)
    else if ltb c 32
    then none
    else push c more
read_string escaped (c ∷ text) =
    let digits = read_string (hex 3 0) text in
    let more = read_string plain text in if c == b'u' then digits else push_if (short_escape c) more
read_string (hex zero acc) (c ∷ text) = elim (hex_value c) [
  | none ↦ none
  | some v ↦ push (acc * 16 + v) (read_string plain text)
]
read_string (hex (suc n) acc) (c ∷ text) = elim (hex_value c) [
  | none ↦ none
  | some v ↦ read_string (hex n (acc * 16 + v)) text
]

hex_value-hex_digit : (n : ℕ) → n < 16 → hex_value (hex_digit n) ≡ some n
unfolding hex_value hex_digit
hex_value-hex_digit n h = ground arith

read_string-short :
    (c ch : ℕ) (text : Text)
    → (c == b'u') ≡ false
    → short_escape c ≡ some ch
    → read_string plain (backslash ∷ c ∷ text) ≡ push ch (read_string plain text)
unfolding read_string
read_string-short c ch text h e = rw (h, e) refl

read_string-control :
    (ch : ℕ) (text : Text)
    → ch < 32
    → read_string plain
        (backslash ∷ b'u' ∷ b'0' ∷ b'0' ∷ hex_digit (ch / 16) ∷ hex_digit (ch % 16) ∷ text)
      ≡ push ch (read_string plain text)
unfolding read_string
read_string-control ch text h =
    let zero_value : hex_value b'0' ≡ some 0 = unfold hex_value in refl in
    let whole : (0 + ch / 16) * 16 + ch % 16 ≡ ch = omega arith in
    rw
      (
        zero_value,
        zero_value,
        hex_value-hex_digit (ch / 16) (omega arith),
        hex_value-hex_digit (ch % 16) (omega arith),
        whole,
      )
      refl

read_string-plain :
    (ch : ℕ) (text : Text)
    → (ch == quote) ≡ false
    → (ch == backslash) ≡ false
    → ltb ch 32 ≡ false
    → read_string plain (ch ∷ text) ≡ push ch (read_string plain text)
unfolding read_string
read_string-plain ch text a b c = rw (b, a, c) refl

-- Each byte is read back from what `JsonEscape` writes for it.
read_string-escape_byte :
    (ch : ℕ) (text : Text)
    → read_string plain (escape_byte ch ++ text) ≡ push ch (read_string plain text)
unfolding escape_byte short_escape
read_string-escape_byte ch text = ground (
  arith,
  read_string-short quote quote text refl refl,
  read_string-short backslash backslash text refl refl,
  read_string-short b'b' 8 text refl refl,
  read_string-short b'f' 12 text refl refl,
  read_string-short b'n' 10 text refl refl,
  read_string-short b'r' 13 text refl refl,
  read_string-short b't' 9 text refl refl,
  read_string-control ch text,
  read_string-plain ch text,
)

-- A JSON string with its opening quote.
pub read_json_string : Text → Option (Text × Text)
read_json_string [] = none
read_json_string (c ∷ text) = if c == quote then read_string plain text else none

read_string-json_escape :
    (text rest : Text) → read_string plain (json_escape text ++ quote ∷ rest) ≡ some (text, rest)
unfolding json_escape
read_string-json_escape [] rest = unfold read_string in refl
read_string-json_escape (ch ∷ text) rest =
    rw
      (append_assoc (escape_byte ch), read_string-escape_byte ch, read_string-json_escape text rest)
      refl

-- Whatever bytes a text holds, a reader of JSON strings gets the same bytes back from what
-- `JsonString` makes of it, and stops at its closing quote, whatever follows.
pub read_json_string-json_string :
    (text rest : Text) → read_json_string (json_string text ++ rest) ≡ some (text, rest)
unfolding read_json_string json_string
read_json_string-json_string text rest =
    rw (append_assoc (json_escape text)) (read_string-json_escape text rest)
