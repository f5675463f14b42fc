-- ===== src/Json/Text/Strings/Utf8.antt =====
-- src/app/engine/dmn-json.cpp: `utf8SequenceLength` on the encodings of RFC 3629, which `appendUtf8`
-- writes.
use dmn.Prelude.{
  ℕ, zero, suc, ◌+◌, ◌*◌, ◌/◌, ◌%◌, ◌≤◌, ◌<◌, ◌≡◌, refl, ap, ◌∙◌, inl, inr, true, false, Option,
  some, List, [], ◌∷◌, ◌++◌, ltb, ◌==◌, if◌then◌else◌, length, arith, Bool-cases, length-append,
  drop,
}
use dmn.Ancs.Utf8.{Scalar, encode, encode_all, Scalars, length-encode}
use dmn.Json.{Bytes}
use dmn.Json.Text.{
  append_utf8, lead, continuations, in_range, checked, multibyte, utf8_sequence_length, taken,
}
use dmn.Json.Text.Rounds.{repair_step}
use dmn.Json.Text.Strings.{repair, repair_chars}

-- `appendUtf8` is the encoding of RFC 3629.
pub append_utf8-encode : (c : ℕ) → append_utf8 c ≡ encode c
unfolding append_utf8
append_utf8-encode c = refl

in_range-Scalar : (n minimum c : ℕ) → Scalar c → minimum ≤ c → in_range n minimum c ≡ n
in_range-Scalar n minimum c s h = ground arith

behind_lead :
    (first n : ℕ) (bytes : Bytes) (o : Option (ℕ × ℕ × ℕ))
    → ltb first 0x80 ≡ false
    → lead first ≡ o
    → multibyte o bytes ≡ n
    → utf8_sequence_length (first ∷ bytes) ≡ n
unfolding utf8_sequence_length
behind_lead first n bytes o high e m =
    ap (λ t. if t then 1 else multibyte (lead first) bytes) high ∙ ap (λ x. multibyte x bytes) e ∙ m

-- A continuation byte brings six bits.
continuations-byte :
    (n acc k : ℕ) (bytes : Bytes)
    → k < 64
    → continuations (suc n) acc ((0x80 + k) ∷ bytes) ≡ continuations n (acc * 64 + k) bytes
unfolding continuations
continuations-byte n acc k bytes h =
    let is : ((0x80 + k) / 64 == 2) ≡ true = ground arith in
    let bits : (0x80 + k) % 64 ≡ k = omega arith in simp (is, bits)

read_code :
    (n minimum c v : ℕ) (o : Option ℕ)
    → Scalar c
    → minimum ≤ c
    → o ≡ some v
    → v ≡ c
    → checked n minimum o ≡ n
read_code n minimum c v o s h e same =
    ap (checked n minimum) (e ∙ ap (λ x. some x) same) ∙ in_range-Scalar n minimum c s h

continuations-end : (acc : ℕ) (bytes : Bytes) → continuations 0 acc bytes ≡ some acc
unfolding continuations
continuations-end acc bytes = refl

length_two :
    (c : ℕ) (rest : Bytes)
    → Scalar c
    → 127 < c
    → c < 0x800
    → utf8_sequence_length ((0xC0 + c / 64) ∷ (0x80 + c % 64) ∷ rest) ≡ 2
length_two c rest s low high =
    behind_lead _ 2 _ (some (2, 0x80, c / 64)) (ground arith) (unfold lead in ground arith) (
      read_code 2 0x80 c _ _ s (omega arith)
        (continuations-byte 0 (c / 64) (c % 64) rest (omega arith) ∙ continuations-end _ rest)
        (omega arith))

length_three :
    (c : ℕ) (rest : Bytes)
    → Scalar c
    → 0x7FF < c
    → c < 0x10000
    → utf8_sequence_length ((0xE0 + c / 4096) ∷ (0x80 + c / 64 % 64) ∷ (0x80 + c % 64) ∷ rest) ≡ 3
length_three c rest s low high =
    behind_lead _ 3 _ (some (3, 0x800, c / 4096)) (ground arith) (unfold lead in ground arith) (
      read_code 3 0x800 c _ _ s (omega arith)
        (continuations-byte 1 (c / 4096) (c / 64 % 64) _ (omega arith)
          ∙ continuations-byte 0 (c / 4096 * 64 + c / 64 % 64) (c % 64) rest (omega arith)
          ∙ continuations-end _ rest)
        (omega arith))

length_four :
    (c : ℕ) (rest : Bytes)
    → Scalar c
    → 0xFFFF < c
    → utf8_sequence_length (
        (0xF0 + c / 262144)
        ∷ (0x80 + c / 4096 % 64)
        ∷ (0x80 + c / 64 % 64)
        ∷ (0x80 + c % 64)
        ∷ rest)
      ≡ 4
length_four c rest s low =
    let small : c < 1114112 = ground arith in
    behind_lead _ 4 _ (some (4, 0x10000, c / 262144)) (ground arith) (unfold lead in ground arith) (
      read_code 4 0x10000 c _ _ s (omega arith)
        (continuations-byte 2 (c / 262144) (c / 4096 % 64) _ (omega arith)
          ∙ continuations-byte 1 (c / 262144 * 64 + c / 4096 % 64) (c / 64 % 64) _ (omega arith)
          ∙ continuations-byte 0 ((c / 262144 * 64 + c / 4096 % 64) * 64 + c / 64 % 64) (c % 64)
              rest (omega arith)
          ∙ continuations-end _ rest)
        (omega arith))

length_one : (c : ℕ) (rest : Bytes) → ltb c 0x80 ≡ true → utf8_sequence_length (c ∷ rest) ≡ 1
unfolding utf8_sequence_length
length_one c rest h = simp h

same_taken : (n m : ℕ) (bytes : Bytes) → n ≡ m → taken n bytes ≡ taken m bytes
same_taken n m bytes e = ap (λ k. taken k bytes) e

-- One character, whole, is what the length is of.
taken-encode :
    (c : ℕ) (rest : Bytes)
    → Scalar c
    → taken (utf8_sequence_length (encode c ++ rest)) (encode c ++ rest)
      ≡ (encode c, length (encode c))
taken-encode c rest s = elim (Bool-cases (ltb c 128)) [
  | inl one ↦ rw one (ap (λ n. taken n (c ∷ rest)) (length_one c rest one))
  | inr big ↦ elim (Bool-cases (ltb c 2048)) [
    | inl two ↦
        simp (big, two) (same_taken _ _ _ (length_two c rest s (ground arith) (ground arith)))
    | inr large ↦ elim (Bool-cases (ltb c 65536)) [
      | inl three ↦
          simp (big, large, three)
            (same_taken _ _ _ (length_three c rest s (ground arith) (ground arith)))
      | inr four ↦ simp (big, large, four) (same_taken _ _ _ (length_four c rest s (ground arith)))
    ]
  ]
]

repair_chars-step :
    (fuel : ℕ) (text : Bytes)
    → 1 ≤ length text
    → repair_chars (suc fuel) text
      ≡ (repair_step text).0 ++ repair_chars fuel (drop (repair_step text).1 text)
unfolding repair_chars
repair_chars-step fuel [] h = absurd (omega arith)
repair_chars-step fuel (b ∷ text) h = refl

drop_all : (xs ys : Bytes) → drop (length xs) (xs ++ ys) ≡ ys
drop_all [] ys = refl
drop_all (x ∷ xs) ys = drop_all xs ys

repair_chars-encode_all :
    (fuel : ℕ) (cs : List ℕ)
    → Scalars cs
    → length (encode_all cs) ≤ fuel
    → repair_chars fuel (encode_all cs) ≡ encode_all cs
unfolding repair_step
repair_chars-encode_all fuel [] s h = unfold repair_chars in refl
repair_chars-encode_all zero (c ∷ cs) s h =
    let some_byte = length-encode c in
    let l = length-append (encode c) (encode_all cs) in absurd (omega arith)
repair_chars-encode_all (suc fuel) (c ∷ cs) s h =
    let some_byte = length-encode c in
    let l = length-append (encode c) (encode_all cs) in
    let rest = repair_chars-encode_all fuel cs s.1 (omega arith) in
    repair_chars-step fuel (encode c ++ encode_all cs) (omega arith)
    ∙ ap (λ t. t.0 ++ repair_chars fuel (drop t.1 (encode c ++ encode_all cs)))
        (taken-encode c (encode_all cs) s.0)
    ∙ ap (λ t. encode c ++ repair_chars fuel t) (drop_all (encode c) (encode_all cs))
    ∙ ap (λ t. encode c ++ t) rest

-- The concatenated encodings of Unicode scalar values, as RFC 3629 defines them and `appendUtf8` writes
-- them, are kept as they are.
pub repair-encode_all : (cs : List ℕ) → Scalars cs → repair (encode_all cs) ≡ encode_all cs
unfolding repair
repair-encode_all cs s = repair_chars-encode_all (length (encode_all cs)) cs s (omega arith)
