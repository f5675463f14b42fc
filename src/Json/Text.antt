-- ===== src/Json/Text.antt =====
-- src/app/engine/dmn-json.cpp: strings, as they are written (`appendUtf8`, `utf8SequenceLength`,
-- `dumpString`) and as they are read (`parseHex4`, and `parseString` behind its opening quote).
pub mod Strings
pub mod Rounds
pub mod Shorter
use dmn.Prelude.{
  ℕ, zero, suc, ◌+◌, ◌-◌, ◌*◌, ◌/◌, ◌%◌, Bool, true, false, not, ◌&&◌, ◌||◌, List, [], ◌∷◌, ◌++◌,
  Option, none, some, ltb, leb, ◌==◌, if◌then◌else◌, length, take, drop,
}
use dmn.Json.{Bytes}

-- The outcome of a parsing function: `failed` is `std::nullopt`, and `out_of_fuel`, the model's own, has
-- no counterpart.
pub data Result {ℓ} (A : Type ℓ) : Type ℓ where
  ok : A → Result A
  failed : Result A
  out_of_fuel : Result A

-- U+FFFD.
abbrev pub replacement : Bytes
replacement = 239 ∷ 191 ∷ 189 ∷ []

pub append_utf8 : ℕ → Bytes
append_utf8 c =
    if ltb c 0x80
    then c ∷ []
    else if ltb c 0x800
    then (0xC0 + c / 64) ∷ (0x80 + c % 64) ∷ []
    else if ltb c 0x10000
    then (0xE0 + c / 4096) ∷ (0x80 + c / 64 % 64) ∷ (0x80 + c % 64) ∷ []
    else (0xF0 + c / 262144) ∷ (0x80 + c / 4096 % 64) ∷ (0x80 + c / 64 % 64) ∷ (0x80 + c % 64) ∷ []

-- By the lead byte: the length of the sequence, the least code point of that length, and the lead's
-- own bits.
pub lead : ℕ → Option (ℕ × ℕ × ℕ)
lead b =
    if leb 0xC2 b && leb b 0xDF
    then some (2, 0x80, b % 32)
    else if leb 0xE0 b && leb b 0xEF
    then some (3, 0x800, b % 16)
    else if leb 0xF0 b && leb b 0xF4
    then some (4, 0x10000, b % 8)
    else none

-- The loop over the continuation bytes.
pub continuations : ℕ → ℕ → Bytes → Option ℕ
continuations zero code_point bytes = some code_point
continuations (suc n) code_point [] = none
continuations (suc n) code_point (b ∷ bytes) =
    let rest = continuations n (code_point * 64 + b % 64) bytes in
    if b / 64 == 2 then rest else none

abbrev pub in_range : ℕ → ℕ → ℕ → ℕ
in_range length minimum c =
    if ltb c minimum || (ltb 0x10FFFF c || leb 0xD800 c && leb c 0xDFFF) then 0 else length

abbrev pub checked : ℕ → ℕ → Option ℕ → ℕ
checked length minimum none = 0
checked length minimum (some c) = in_range length minimum c

abbrev pub multibyte : Option (ℕ × ℕ × ℕ) → Bytes → ℕ
multibyte none bytes = 0
multibyte (some (length, minimum, bits)) bytes =
    checked length minimum (continuations (length - 1) bits bytes)

pub utf8_sequence_length : Bytes → ℕ
unfolding lead continuations
utf8_sequence_length [] = 0
utf8_sequence_length (b ∷ bytes) = if ltb b 0x80 then 1 else multibyte (lead b) bytes

-- A digit of "%04x".
pub hex_digit : ℕ → ℕ
hex_digit n = if ltb n 10 then b'0' + n else 87 + n

-- "\\u%04x" of a byte.
abbrev pub escaped : ℕ → Bytes
unfolding hex_digit
escaped b = b'\\' ∷ b'u' ∷ b'0' ∷ b'0' ∷ hex_digit (b / 16) ∷ hex_digit (b % 16) ∷ []

-- A sequence of the length found, or U+FFFD for a byte that begins none.
abbrev pub taken : ℕ → Bytes → Bytes × ℕ
taken zero bytes = (replacement, 1)
taken (suc n) bytes = (take (suc n) bytes, suc n)

-- One round of the loop of `dumpString`: what it appends to the output and how many bytes it has taken.
pub dump_step : ℕ → Bytes → Bytes × ℕ
unfolding utf8_sequence_length
dump_step b bytes =
    if b == b'"' || b == b'\\'
    then (b'\\' ∷ b ∷ [], 1)
    else if b == b'\n'
    then (b'\\' ∷ b'n' ∷ [], 1)
    else if b == b'\r'
    then (b'\\' ∷ b'r' ∷ [], 1)
    else if b == b'\t'
    then (b'\\' ∷ b't' ∷ [], 1)
    else if ltb b 0x20 || b == 0x7F
    then (escaped b, 1)
    else taken (utf8_sequence_length (b ∷ bytes)) (b ∷ bytes)

-- Every round takes a byte at least, so the length of the text is enough fuel.
pub dump_chars : ℕ → Bytes → Bytes
unfolding dump_step
dump_chars fuel [] = []
dump_chars zero (b ∷ bytes) = []
dump_chars (suc fuel) (b ∷ bytes) =
    let (out, n) = dump_step b bytes in out ++ dump_chars fuel (drop n (b ∷ bytes))

unfoldable pub dump_string : Bytes → Bytes
unfolding dump_chars
dump_string text = b'"' ∷ (dump_chars (length text) text ++ (b'"' ∷ []))

pub hex_value : ℕ → Option ℕ
hex_value d =
    if leb b'0' d && leb d b'9'
    then some (d - b'0')
    else if leb b'a' d && leb d b'f'
    then some (d - b'a' + 10)
    else if leb b'A' d && leb d b'F'
    then some (d - b'A' + 10)
    else none

abbrev pub shift_in : Option ℕ → Option ℕ → Option ℕ
shift_in (some v) (some d) = some (v * 16 + d)
shift_in _ _ = none

abbrev pub with_rest : Bytes → Option ℕ → Option (ℕ × Bytes)
with_rest rest none = none
with_rest rest (some v) = some (v, rest)

pub parse_hex4 : Bytes → Option (ℕ × Bytes)
unfolding hex_value
parse_hex4 (a ∷ b ∷ c ∷ d ∷ rest) = with_rest rest (
    shift_in (shift_in (shift_in (shift_in (some 0) (hex_value a)) (hex_value b)) (hex_value c))
      (hex_value d))
parse_hex4 _ = none

-- One round of the loop of `parseString`: the closing quote, the bytes appended to the output, or the
-- end of the attempt; with the text behind.
pub data Scan : Type 0 where
  closed : Bytes → Scan
  piece : Bytes → Bytes → Scan
  rejected : Scan

abbrev pub low_surrogate : ℕ → Option (ℕ × Bytes) → Scan
low_surrogate high none = rejected
low_surrogate high (some (low, rest)) =
    if ltb low 0xDC00 || ltb 0xDFFF low
    then rejected
    else piece (append_utf8 (0x10000 + (high - 0xD800) * 1024 + (low - 0xDC00))) rest

-- `literal("\\u")` and the second half of a surrogate pair.
abbrev pub pair : ℕ → Bytes → Scan
pair high (a ∷ b ∷ rest) =
    if a == b'\\' && b == b'u' then low_surrogate high (parse_hex4 rest) else rejected
pair high _ = rejected

abbrev pub unicode : Option (ℕ × Bytes) → Scan
unicode none = rejected
unicode (some (high, rest)) =
    if leb 0xD800 high && leb high 0xDBFF
    then pair high rest
    else if leb 0xDC00 high && leb high 0xDFFF
    then rejected
    else piece (append_utf8 high) rest

-- The `switch` on the byte behind a backslash.
pub escape : Bytes → Scan
unfolding append_utf8 parse_hex4
escape [] = rejected
escape (e ∷ rest) =
    if e == b'"' || (e == b'\\' || e == b'/')
    then piece (e ∷ []) rest
    else if e == b'b'
    then piece (8 ∷ []) rest
    else if e == b'f'
    then piece (12 ∷ []) rest
    else if e == b'n'
    then piece (10 ∷ []) rest
    else if e == b'r'
    then piece (13 ∷ []) rest
    else if e == b't'
    then piece (9 ∷ []) rest
    else if e == b'u'
    then unicode (parse_hex4 rest)
    else rejected

abbrev pub plain : ℕ → Bytes → Scan
plain zero bytes = rejected
plain (suc n) bytes = piece (take (suc n) bytes) (drop (suc n) bytes)

pub scan : Bytes → Scan
unfolding escape utf8_sequence_length
scan [] = rejected
scan (b ∷ rest) =
    if b == b'"'
    then closed rest
    else if ltb b 0x20
    then rejected
    else if b == b'\\'
    then escape rest
    else plain (utf8_sequence_length (b ∷ rest)) (b ∷ rest)

-- What has been read, put before what is still to be read.
abbrev pub prepend : Bytes → Result (Bytes × Bytes) → Result (Bytes × Bytes)
prepend out (ok (more, rest)) = ok (out ++ more, rest)
prepend out failed = failed
prepend out out_of_fuel = out_of_fuel

-- The end of a round, with the rounds that follow.
abbrev pub read_on : Scan → (Bytes → Result (Bytes × Bytes)) → Result (Bytes × Bytes)
read_on (closed rest) more = ok ([], rest)
read_on (piece out rest) more = prepend out (more rest)
read_on rejected more = failed

pub parse_chars : ℕ → Bytes → Result (Bytes × Bytes)
unfolding scan
parse_chars zero ts = out_of_fuel
parse_chars (suc fuel) ts = read_on (scan ts) (λ rest. parse_chars fuel rest)

-- `parseString` behind the opening quote.
unfoldable pub parse_string : Bytes → Result (Bytes × Bytes)
unfolding parse_chars
parse_string ts = parse_chars (suc (length ts)) ts
