-- ===== src/Json/Text/Strings.antt =====
-- src/app/engine/dmn-json.cpp: what `dumpString` has written, `parseString` reads back.
pub mod Utf8
use dmn.Prelude.{
  ℕ, zero, suc, ◌+◌, ◌-◌, ◌*◌, ◌/◌, ◌%◌, ◌≤◌, ◌<◌, ◌≡◌, refl, ap, ◌∙◌, Bool, true, false, ◌⊎◌, inl,
  inr, [], ◌∷◌, ◌++◌, Option, none, some, ltb, ◌==◌, if◌then◌else◌, length, take, drop, take_prefix,
  drop_prefix, arith, Bool-cases, Option-cases, lt→ltb, ◌||◌, length-append, length-drop,
}
use mathlib.Core.Path.{ap₂}
use mathlib.Core.List.{append_assoc}
use dmn.Json.{Bytes}
use dmn.Json.Text.{
  ok, replacement, lead, continuations, checked, multibyte, utf8_sequence_length, hex_digit,
  escaped, dump_step, taken, dump_chars, dump_string, hex_value, parse_hex4, piece, plain, scan,
  prepend, read_on, parse_chars, parse_string,
}
use dmn.Json.Text.Rounds.{repair_step, Written, dump_step-Written}

unfoldable pub repair_chars : ℕ → Bytes → Bytes
unfolding repair_step
repair_chars fuel [] = []
repair_chars zero (b ∷ bytes) = []
repair_chars (suc fuel) (b ∷ bytes) =
    let (out, n) = repair_step (b ∷ bytes) in out ++ repair_chars fuel (drop n (b ∷ bytes))

-- The text with each byte that begins no valid UTF-8 sequence replaced by U+FFFD.
unfoldable pub repair : Bytes → Bytes
unfolding repair_chars
repair text = repair_chars (length text) text

parse_chars-piece :
    (g : ℕ) (ts out rest more left : Bytes)
    → scan ts ≡ piece out rest
    → parse_chars g rest ≡ ok (more, left)
    → parse_chars (suc g) ts ≡ ok (out ++ more, left)
unfolding parse_chars
parse_chars-piece g ts out rest more left e r =
    ap (λ c. read_on c (λ ts. parse_chars g ts)) e ∙ ap (prepend out) r

parse_chars-closed : (g : ℕ) (more : Bytes) → parse_chars (suc g) (b'"' ∷ more) ≡ ok ([], more)
unfolding parse_chars scan
parse_chars-closed g more = refl

dump_chars-Read :
    (fuel fuel_read : ℕ) (text more : Bytes)
    → length text ≤ fuel
    → length (dump_chars fuel text) < fuel_read
    → parse_chars fuel_read (dump_chars fuel text ++ b'"' ∷ more)
      ≡ ok (repair_chars fuel text, more)
unfolding dump_chars repair_chars
dump_chars-Read fuel zero text more enough enough_read = absurd (omega arith)
dump_chars-Read fuel (suc g) [] more enough enough_read = parse_chars-closed g more
dump_chars-Read zero (suc g) (b ∷ text) more enough enough_read = absurd (omega arith)
dump_chars-Read (suc fuel) (suc g) (b ∷ text) more enough enough_read =
    let w = dump_step b text in
    let r = repair_step (b ∷ text) in
    let chars = dump_chars fuel (drop w.1 (b ∷ text)) in
    let (same, read, taken_, some_byte) = dump_step-Written b text (chars ++ b'"' ∷ more) in
    let whole = length-append w.0 chars in
    let left = length-drop w.1 (b ∷ text) in
    let rest = dump_chars-Read fuel g (drop w.1 (b ∷ text)) more (omega arith) (omega arith) in
    ap (parse_chars (suc g)) (append_assoc w.0 chars (b'"' ∷ more))
    ∙ parse_chars-piece g _ r.0 _ (repair_chars fuel (drop w.1 (b ∷ text))) more read rest
    ∙ ap (λ n. ok (r.0 ++ repair_chars fuel (drop n (b ∷ text)), more)) same

-- Whatever the bytes of a text, and whatever follows, the text that `dumpString` has written is read
-- back by `parseString`, with U+FFFD in place of each byte that begins no valid UTF-8 sequence.
pub parse_string-dump_string :
    (text rest : Bytes)
    → (body : Bytes) × (dump_string text ≡ b'"' ∷ body)
      × (parse_string (body ++ rest) ≡ ok (repair text, rest))
unfolding dump_string parse_string repair
parse_string-dump_string text rest =
    let chars = dump_chars (length text) text in
    let long = length-append chars (b'"' ∷ rest) in
    (
      chars ++ b'"' ∷ [],
      refl,
      ap (λ ts. parse_chars (suc (length ts)) ts) (append_assoc chars (b'"' ∷ []) rest)
          ∙ dump_chars-Read (length text) (suc (length (chars ++ b'"' ∷ rest))) text rest
              (omega arith) (omega arith),
    )
