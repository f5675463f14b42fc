-- ===== src/Ancs/Utf8.antt =====
-- src/dmn-ancs-client.cpp: `isValidUtf8`, against the encoding of RFC 3629.
use dmn.Prelude.{
  ℕ, zero, suc, ◌+◌, ◌*◌, ◌/◌, ◌%◌, ◌≤◌, ◌<◌, ◌≡◌, refl, ap, ◌∙◌, ◌⊎◌, true, false, Option, some,
  List, [], ◌∷◌, ◌++◌, ltb, leb, ◌==◌, if◌then◌else◌, length, arith, Bool-cases, inl, inr,
  length-append,
}
use dmn.Ancs.{follow, lead, is_scalar, checked, multibyte, character, valid_utf8, is_valid_utf8}

-- A Unicode scalar value.
abbrev pub Scalar : ℕ → Type 0
Scalar c = (c < 55296) ⊎ ((57343 < c) × (c < 1114112))

abbrev pub encode : ℕ → List ℕ
encode c =
    if ltb c 128
    then c ∷ []
    else if ltb c 2048
    then (192 + c / 64) ∷ (128 + c % 64) ∷ []
    else if ltb c 65536
    then (224 + c / 4096) ∷ (128 + c / 64 % 64) ∷ (128 + c % 64) ∷ []
    else (240 + c / 262144) ∷ (128 + c / 4096 % 64) ∷ (128 + c / 64 % 64) ∷ (128 + c % 64) ∷ []

is_scalar-Scalar :
    (count c : ℕ)
    → Scalar c
    → (count ≡ 1) × (127 < c) ⊎ (count ≡ 2) × (2047 < c) ⊎ (count ≡ 3) × (65535 < c)
    → is_scalar count c ≡ true
unfolding is_scalar
is_scalar-Scalar count c s h = ground arith

lead_two : (k : ℕ) → 2 ≤ k → k < 32 → lead (192 + k) ≡ some (1, k)
unfolding lead
lead_two k lo hi = ground arith

lead_three : (k : ℕ) → k < 16 → lead (224 + k) ≡ some (2, k)
unfolding lead
lead_three k hi = ground arith

lead_four : (k : ℕ) → k < 5 → lead (240 + k) ≡ some (3, k)
unfolding lead
lead_four k hi = ground arith

continuation : (k : ℕ) → k < 64 → ((128 + k) / 64 == 2) ≡ true
continuation k h = ground arith

continuation_bits : (k : ℕ) → k < 64 → (128 + k) % 64 ≡ k
continuation_bits k h = omega arith

-- The bytes of a character behind its lead byte.
tail_two :
    (c : ℕ) (rest : List ℕ)
    → multibyte (some (1, c / 64)) ((128 + c % 64) ∷ rest) ≡ checked 1 (some (c, rest))
unfolding multibyte
tail_two c rest =
    let bits = continuation_bits (c % 64) (omega arith) in
    let ok = continuation (c % 64) (omega arith) in
    let code : c / 64 * 64 + c % 64 ≡ c = omega arith in simp (ok, bits, code)

tail_three :
    (c : ℕ) (rest : List ℕ)
    → multibyte (some (2, c / 4096)) ((128 + c / 64 % 64) ∷ (128 + c % 64) ∷ rest)
      ≡ checked 2 (some (c, rest))
unfolding multibyte
tail_three c rest =
    let high = continuation_bits (c / 64 % 64) (omega arith) in
    let low = continuation_bits (c % 64) (omega arith) in
    let ok_high = continuation (c / 64 % 64) (omega arith) in
    let ok_low = continuation (c % 64) (omega arith) in
    let code : (c / 4096 * 64 + c / 64 % 64) * 64 + c % 64 ≡ c = omega arith in
    simp (ok_high, ok_low, high, low, code)

tail_four :
    (c : ℕ) (rest : List ℕ)
    → multibyte
        (some (3, c / 262144))
        ((128 + c / 4096 % 64) ∷ (128 + c / 64 % 64) ∷ (128 + c % 64) ∷ rest)
      ≡ checked 3 (some (c, rest))
unfolding multibyte
tail_four c rest =
    let high = continuation_bits (c / 4096 % 64) (omega arith) in
    let mid = continuation_bits (c / 64 % 64) (omega arith) in
    let low = continuation_bits (c % 64) (omega arith) in
    let ok_high = continuation (c / 4096 % 64) (omega arith) in
    let ok_mid = continuation (c / 64 % 64) (omega arith) in
    let ok_low = continuation (c % 64) (omega arith) in
    let code : ((c / 262144 * 64 + c / 4096 % 64) * 64 + c / 64 % 64) * 64 + c % 64 ≡ c =
      omega arith in
    simp (ok_high, ok_mid, ok_low, high, mid, low, code)

behind_lead :
    (first : ℕ) (bytes rest : List ℕ) (l : Option (ℕ × ℕ))
    → leb first 127 ≡ false
    → lead first ≡ l
    → multibyte l bytes ≡ some rest
    → character (first ∷ bytes) ≡ some rest
unfolding character
behind_lead first bytes rest l high e m = simp (high, e) (unfold multibyte in m)

accepted :
    (count c : ℕ) (rest : List ℕ)
    → is_scalar count c ≡ true
    → checked count (some (c, rest)) ≡ some rest
unfolding checked
accepted count c rest ok = simp ok

-- One character is consumed whole.
character-encode : (c : ℕ) (rest : List ℕ) → Scalar c → character (encode c ++ rest) ≡ some rest
character-encode c rest s = elim (Bool-cases (ltb c 128)) [
  | inl one ↦ rw one (unfold character in (let low : leb c 127 ≡ true = ground arith in simp low))
  | inr big ↦ elim (Bool-cases (ltb c 2048)) [
    | inl two ↦
        simp (big, two)
          (behind_lead (192 + c / 64) _ rest _ (ground arith)
            (lead_two (c / 64) (ground arith) (ground arith))
            (tail_two c rest
              ∙ accepted 1 c rest (is_scalar-Scalar 1 c s (inl (refl, ground arith)))))
    | inr large ↦ elim (Bool-cases (ltb c 65536)) [
      | inl three ↦
          simp (big, large, three)
            (behind_lead (224 + c / 4096) _ rest _ (ground arith)
              (lead_three (c / 4096) (ground arith))
              (tail_three c rest
                ∙ accepted 2 c rest (is_scalar-Scalar 2 c s (inr (inl (refl, ground arith))))))
      | inr four ↦
          simp (big, large, four)
            (behind_lead (240 + c / 262144) _ rest _ (ground arith)
              (lead_four (c / 262144) (ground arith))
              (tail_four c rest
                ∙ accepted 3 c rest (is_scalar-Scalar 3 c s (inr (inr (refl, ground arith))))))
    ]
  ]
]

abbrev pub encode_all : List ℕ → List ℕ
encode_all [] = []
encode_all (c ∷ cs) = encode c ++ encode_all cs

abbrev pub Scalars : List ℕ → Type 0
Scalars [] = Unit {0}
Scalars (c ∷ cs) = Scalar c × Scalars cs

valid-step :
    (fuel : ℕ) (bytes rest : List ℕ)
    → 1 ≤ length bytes
    → character bytes ≡ some rest
    → valid_utf8 (suc fuel) bytes ≡ valid_utf8 fuel rest
unfolding valid_utf8
valid-step fuel [] rest some_byte e = absurd (omega arith)
valid-step fuel (b ∷ bytes) rest some_byte e = ap (λ o. follow o (λ r. valid_utf8 fuel r)) e

pub length-encode : (c : ℕ) → 1 ≤ length (encode c)
length-encode c = elim (Bool-cases (ltb c 128)) [
  | inl one ↦ rw one (omega arith)
  | inr big ↦ elim (Bool-cases (ltb c 2048)) [
    | inl two ↦ rw (big, two) (omega arith)
    | inr large ↦ elim (Bool-cases (ltb c 65536)) [
      | inl three ↦ rw (big, large, three) (omega arith)
      | inr four ↦ rw (big, large, four) (omega arith)
    ]
  ]
]

length-encode-append : (c : ℕ) (rest : List ℕ) → suc (length rest) ≤ length (encode c ++ rest)
length-encode-append c rest =
    let l = length-append (encode c) rest in let e = length-encode c in rw l (omega arith)

valid-encode_all :
    (fuel : ℕ) (cs : List ℕ)
    → Scalars cs
    → length (encode_all cs) ≤ fuel
    → valid_utf8 fuel (encode_all cs) ≡ true
valid-encode_all fuel [] s h = unfold valid_utf8 in refl
valid-encode_all zero (c ∷ cs) s h =
    let l = length-encode-append c (encode_all cs) in absurd (omega arith)
valid-encode_all (suc fuel) (c ∷ cs) s h =
    let l = length-encode-append c (encode_all cs) in
    let e = length-encode c in
    valid-step fuel (encode c ++ encode_all cs) (encode_all cs) (omega arith)
      (character-encode c (encode_all cs) s.0)
    ∙ valid-encode_all fuel cs s.1 (omega arith)

-- The concatenated encodings of a list of Unicode scalar values are accepted by `isValidUtf8`.
pub well_formed_accepted : (cs : List ℕ) → Scalars cs → is_valid_utf8 (encode_all cs) ≡ true
unfolding is_valid_utf8
well_formed_accepted cs s = valid-encode_all (length (encode_all cs)) cs s (omega arith)
