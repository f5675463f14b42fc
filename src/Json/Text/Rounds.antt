-- ===== src/Json/Text/Rounds.antt =====
-- src/app/engine/dmn-json.cpp: one round of the loop of `dumpString`, and the round of the loop of
-- `parseString` that reads it.
use dmn.Prelude.{
  ℕ, zero, suc, ◌+◌, ◌-◌, ◌*◌, ◌/◌, ◌%◌, ◌≤◌, ◌<◌, ◌≡◌, refl, ap, ◌∙◌, Bool, true, false, ◌⊎◌, inl,
  inr, [], ◌∷◌, ◌++◌, Option, none, some, ltb, ◌==◌, if◌then◌else◌, length, take, take_prefix,
  drop_prefix, arith, Bool-cases, Option-cases, lt→ltb, ◌||◌,
}
use mathlib.Core.Path.{ap₂}
use dmn.Json.{Bytes}
use dmn.Json.Text.{
  replacement, lead, continuations, checked, multibyte, utf8_sequence_length, hex_digit, escaped,
  dump_step, taken, hex_value, parse_hex4, piece, plain, scan,
}

-- One character of a text, with U+FFFD for a byte that begins no valid UTF-8 sequence, and its width.
unfoldable pub repair_step : Bytes → Bytes × ℕ
unfolding utf8_sequence_length
repair_step bytes = taken (utf8_sequence_length bytes) bytes

-- `escaped` is read back.
hex_value-hex_digit : (n : ℕ) → n < 16 → hex_value (hex_digit n) ≡ some n
unfolding hex_value hex_digit
hex_value-hex_digit n h = ground arith

parse_hex4-escaped :
    (b : ℕ) (more : Bytes)
    → b < 256
    → parse_hex4 (b'0' ∷ b'0' ∷ hex_digit (b / 16) ∷ hex_digit (b % 16) ∷ more) ≡ some (b, more)
unfolding parse_hex4
parse_hex4-escaped b more h =
    let high = hex_value-hex_digit (b / 16) (omega arith) in
    let low = hex_value-hex_digit (b % 16) (omega arith) in
    let zero_ : hex_value b'0' ≡ some 0 = unfold hex_value in refl in
    let whole : ((0 * 16 + 0) * 16 + b / 16) * 16 + b % 16 ≡ b = omega arith in
    simp (zero_, high, low, whole)

scan-escaped : (b : ℕ) (more : Bytes) → b < 128 → scan (escaped b ++ more) ≡ piece (b ∷ []) more
unfolding scan escaped
scan-escaped b more h = let read = parse_hex4-escaped b more (omega arith) in rw read (ground arith)

scan-plain :
    (b : ℕ) (rest : Bytes)
    → (b == b'"') ≡ false
    → ltb b 32 ≡ false
    → (b == b'\\') ≡ false
    → scan (b ∷ rest) ≡ plain (utf8_sequence_length (b ∷ rest)) (b ∷ rest)
unfolding scan
scan-plain b rest q c s = simp (q, c, s)

-- The length of a sequence depends on the bytes of the sequence alone.
continuations-take :
    (n c : ℕ) (bytes more : Bytes) {v : ℕ}
    → continuations n c bytes ≡ some v
    → (continuations n c (take n bytes ++ more) ≡ some v) × (n ≤ length bytes)
unfolding continuations
continuations-take zero c bytes more e = (e, omega arith)
continuations-take (suc n) c [] more e = cc
continuations-take (suc n) c (b ∷ bytes) more e = elim (Bool-cases (b / 64 == 2)) [
  | inl yes_ ↦
      let (same, long) = continuations-take n (c * 64 + b % 64) bytes more (simp yes_ at e) in
      (simp (yes_, same), omega arith)
  | inr no_ ↦ let gone = simp no_ at e in cc
]

multibyte-take :
    (n b : ℕ) (bytes more : Bytes) (o : Option (ℕ × ℕ × ℕ))
    → multibyte o bytes ≡ suc n
    → (multibyte o (take n bytes ++ more) ≡ suc n) × (n ≤ length bytes)
multibyte-take n b bytes more none e = absurd (omega arith)
multibyte-take n b bytes more (some (l, minimum, bits)) e =
    elim (Option-cases (continuations (l - 1) bits bytes)) [
      | inl gone ↦ let never = rw gone at e in absurd (omega arith)
      | inr (c, found) ↦
          let here = rw found at e in
          let width : l ≡ suc n = ground arith in
          let (same, long) =
            continuations-take n bits bytes more
              (ap (λ k. continuations k bits bytes) (omega arith) ∙ found) in
          (
            ap (λ k. checked l minimum (continuations k bits (take n bytes ++ more))) (omega arith)
                ∙ ap (checked l minimum) same
                ∙ here,
            long,
          )
    ]

utf8_sequence_length-take :
    (n : ℕ) (bytes more : Bytes)
    → utf8_sequence_length bytes ≡ suc n
    → (utf8_sequence_length (take (suc n) bytes ++ more) ≡ suc n) × (suc n ≤ length bytes)
unfolding utf8_sequence_length
utf8_sequence_length-take n [] more e = absurd (omega arith)
utf8_sequence_length-take n (b ∷ bytes) more e = elim (Bool-cases (ltb b 0x80)) [
  | inl ascii ↦ let one = simp ascii at e in (simp ascii one, omega arith)
  | inr high ↦
      let (same, long) = multibyte-take n b bytes more (lead b) (simp high at e) in
      (simp high same, omega arith)
]

repair_step-ascii : (b : ℕ) (bytes : Bytes) → b < 128 → repair_step (b ∷ bytes) ≡ (b ∷ [], 1)
unfolding repair_step
repair_step-ascii b bytes h = let ascii = lt→ltb b 0x80 h in simp ascii

-- What a round of `dumpString` has written is one round of `parseString`.
abbrev pub Written : Bytes → Bytes → Bytes × ℕ → Bytes × ℕ → Type 0
Written bytes more w r =
    (w.1 ≡ r.1) × (scan (w.0 ++ more) ≡ piece r.0 more) × (1 ≤ r.1) × (1 ≤ length w.0)

ascii-Written :
    (b : ℕ) (bytes more out : Bytes)
    → b < 128
    → scan (out ++ more) ≡ piece (b ∷ []) more
    → 1 ≤ length out
    → Written (b ∷ bytes) more (out, 1) (repair_step (b ∷ bytes))
ascii-Written b bytes more out h read some_byte =
    rw (repair_step-ascii b bytes h) (refl, read, omega arith, some_byte)

scan-quoted :
    (b : ℕ) (more : Bytes)
    → (b == b'"' || b == b'\\') ≡ true
    → scan (b'\\' ∷ b ∷ more) ≡ piece (b ∷ []) more
unfolding scan
scan-quoted b more h = ground arith

scan-replacement : (more : Bytes) → scan (replacement ++ more) ≡ piece replacement more
unfolding scan
scan-replacement more = refl

taken-Written :
    (n b : ℕ) (bytes more : Bytes)
    → utf8_sequence_length (b ∷ bytes) ≡ n
    → (b == b'"') ≡ false
    → ltb b 32 ≡ false
    → (b == b'\\') ≡ false
    → scan ((taken n (b ∷ bytes)).0 ++ more) ≡ piece (taken n (b ∷ bytes)).0 more
unfolding utf8_sequence_length
taken-Written zero b bytes more e q c s = scan-replacement more
taken-Written (suc n) b bytes more e q c s =
    let (same, long) = utf8_sequence_length-take n (b ∷ bytes) more e in
    scan-plain b (take n bytes ++ more) q c s
    ∙ rw same (
        ap₂ piece (ap (b ∷◌) (take_prefix n bytes more (omega arith)))
          (drop_prefix n bytes more (omega arith)))

Written-if :
    (bytes more : Bytes) (r : Bytes × ℕ) (t : Bool) (x y : Bytes × ℕ)
    → (t ≡ true → Written bytes more x r)
    → (t ≡ false → Written bytes more y r)
    → Written bytes more (if t then x else y) r
Written-if bytes more r true x y f g = f refl
Written-if bytes more r false x y f g = g refl

-- A control character that has a letter of its own.
scan-letter :
    (b c : ℕ) (more : Bytes)
    → (b == c) ≡ true
    → ((c ≡ 10) ⊎ (c ≡ 13)) ⊎ (c ≡ 9)
    → scan (b'\\' ∷ (if c == 10 then b'n' else (if c == 13 then b'r' else b't')) ∷ more)
      ≡ piece (b ∷ []) more
unfolding scan
scan-letter b c more h k = ground arith

taken-positive : (n : ℕ) (bytes : Bytes) → 1 ≤ (taken n bytes).1
taken-positive zero bytes = omega arith
taken-positive (suc n) bytes = omega arith

taken-some : (n b : ℕ) (bytes : Bytes) → 1 ≤ length (taken n (b ∷ bytes)).0
taken-some zero b bytes = omega arith
taken-some (suc n) b bytes = omega arith

plain-Written :
    (b : ℕ) (bytes more : Bytes)
    → (b == b'"') ≡ false
    → ltb b 32 ≡ false
    → (b == b'\\') ≡ false
    → Written
        (b ∷ bytes)
        more
        (taken (utf8_sequence_length (b ∷ bytes)) (b ∷ bytes))
        (repair_step (b ∷ bytes))
unfolding repair_step
plain-Written b bytes more q c s =
    let n = utf8_sequence_length (b ∷ bytes) in
    (
      refl,
      taken-Written n b bytes more refl q c s,
      taken-positive n (b ∷ bytes),
      taken-some n b bytes,
    )

pub dump_step-Written :
    (b : ℕ) (bytes more : Bytes)
    → Written (b ∷ bytes) more (dump_step b bytes) (repair_step (b ∷ bytes))
unfolding dump_step escaped
dump_step-Written b bytes more =
    branch (b == b'"' || b == b'\\') _ _
      (λ q.
        ascii-Written b bytes more (b'\\' ∷ b ∷ []) (ground arith) (scan-quoted b more q)
          (omega arith))
      λ q.
        branch (b == b'\n') _ _
          (λ h.
            ascii-Written b bytes more (b'\\' ∷ b'n' ∷ []) (ground arith)
              (scan-letter b 10 more h (inl (inl refl))) (omega arith))
          λ n.
            branch (b == b'\r') _ _
              (λ h.
                ascii-Written b bytes more (b'\\' ∷ b'r' ∷ []) (ground arith)
                  (scan-letter b 13 more h (inl (inr refl))) (omega arith))
              λ r.
                branch (b == b'\t') _ _
                  (λ h.
                    ascii-Written b bytes more (b'\\' ∷ b't' ∷ []) (ground arith)
                      (scan-letter b 9 more h (inr refl)) (omega arith))
                  λ t.
                    branch (ltb b 0x20 || b == 0x7F) _ _
                      (λ h.
                        ascii-Written b bytes more (escaped b) (ground arith)
                          (scan-escaped b more (ground arith)) (omega arith))
                      λ e. plain-Written b bytes more (ground arith) (ground arith) (ground arith)
  where
    branch :
        (t : Bool) (x y : Bytes × ℕ)
        → (t ≡ true → Written (b ∷ bytes) more x (repair_step (b ∷ bytes)))
        → (t ≡ false → Written (b ∷ bytes) more y (repair_step (b ∷ bytes)))
        → Written (b ∷ bytes) more (if t then x else y) (repair_step (b ∷ bytes))
    branch t x y f g = Written-if (b ∷ bytes) more _ t x y f g
