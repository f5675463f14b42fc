-- ===== src/Json/Text/Shorter.antt =====
-- src/app/engine/dmn-json.cpp: postconditions on the outcome of a parsing function; each round of
-- `parseString` takes some of the text, so that its loop ends.
use dmn.Prelude.{
  ℕ, zero, suc, ◌≤◌, ◌<◌, Bool, true, false, ◌||◌, ◌&&◌, [], ◌∷◌, ◌++◌, Option, none, some, ltb,
  leb, ◌==◌, if◌then◌else◌, length, length-drop, arith,
}
use dmn.Json.{Bytes}
use dmn.Json.Text.{
  Result, ok, failed, out_of_fuel, Scan, closed, piece, rejected, parse_hex4, with_rest,
  low_surrogate, pair, unicode, escape, utf8_sequence_length, plain, scan, prepend, read_on,
  parse_chars, parse_string,
}

-- The function has not run out of fuel, and `P` holds of what it has read.
abbrev pub Within {ℓ} : {A : Type ℓ} → (A → Type 0) → Result A → Type 0
Within P (ok a) = P a
Within P failed = Unit
Within P out_of_fuel = ⊥

-- A round leaves less than `n` bytes of the text.
abbrev Below : ℕ → Scan → Type 0
Below n (closed rest) = length rest < n
Below n (piece out rest) = length rest < n
Below n rejected = Unit

Below-if : (n : ℕ) (b : Bool) (x y : Scan) → Below n x → Below n y → Below n (if b then x else y)
Below-if n true x y f g = f
Below-if n false x y f g = g

abbrev Left : ℕ → Option (ℕ × Bytes) → Type 0
Left n none = Unit
Left n (some (v, rest)) = length rest < n

with_rest-Left : (n : ℕ) (rest : Bytes) (o : Option ℕ) → length rest < n → Left n (with_rest rest o)
with_rest-Left n rest none h = tt
with_rest-Left n rest (some v) h = h

parse_hex4-Left : (n : ℕ) (ts : Bytes) → length ts ≤ n → Left n (parse_hex4 ts)
unfolding parse_hex4
parse_hex4-Left n [] h = tt
parse_hex4-Left n (a ∷ []) h = tt
parse_hex4-Left n (a ∷ b ∷ []) h = tt
parse_hex4-Left n (a ∷ b ∷ c ∷ []) h = tt
parse_hex4-Left n (a ∷ b ∷ c ∷ d ∷ rest) h = with_rest-Left n rest _ (omega arith)

low_surrogate-Below :
    (n high : ℕ) (o : Option (ℕ × Bytes)) → Left n o → Below n (low_surrogate high o)
low_surrogate-Below n high none h = tt
low_surrogate-Below n high (some (low, rest)) h =
    Below-if n (ltb low 0xDC00 || ltb 0xDFFF low) _ _ tt h

pair-Below : (n high : ℕ) (ts : Bytes) → length ts ≤ n → Below n (pair high ts)
pair-Below n high [] h = tt
pair-Below n high (a ∷ []) h = tt
pair-Below n high (a ∷ b ∷ rest) h =
    Below-if n (a == b'\\' && b == b'u') _ _
      (low_surrogate-Below n high (parse_hex4 rest) (parse_hex4-Left n rest (omega arith))) tt

unicode-Below : (n : ℕ) (o : Option (ℕ × Bytes)) → Left n o → Below n (unicode o)
unicode-Below n none h = tt
unicode-Below n (some (high, rest)) h =
    Below-if n (leb 0xD800 high && leb high 0xDBFF) _ _ (pair-Below n high rest (omega arith))
      (Below-if n (leb 0xDC00 high && leb high 0xDFFF) _ _ tt h)

escape-Below : (n : ℕ) (ts : Bytes) → length ts ≤ n → Below n (escape ts)
unfolding escape
escape-Below n [] h = tt
escape-Below n (e ∷ rest) h =
    Below-if n (e == b'"' || (e == b'\\' || e == b'/')) _ _ (omega arith) (
      Below-if n (e == b'b') _ _ (omega arith) (
        Below-if n (e == b'f') _ _ (omega arith) (
          Below-if n (e == b'n') _ _ (omega arith) (
            Below-if n (e == b'r') _ _ (omega arith) (
              Below-if n (e == b't') _ _ (omega arith) (
                Below-if n (e == b'u') _ _
                  (unicode-Below n (parse_hex4 rest) (parse_hex4-Left n rest (omega arith)))
                  tt))))))

plain-Below : (n : ℕ) (b : ℕ) (ts : Bytes) → Below (suc (length ts)) (plain n (b ∷ ts))
plain-Below zero b ts = tt
plain-Below (suc n) b ts = let l = length-drop n ts in omega arith

scan-Below : (ts : Bytes) → Below (length ts) (scan ts)
unfolding scan
scan-Below [] = tt
scan-Below (b ∷ ts) = Below-if _ (b == b'"') _ _ (omega arith) (
    Below-if _ (ltb b 0x20) _ _ tt (
      Below-if _ (b == b'\\') _ _ (escape-Below _ ts (omega arith))
        (plain-Below (utf8_sequence_length (b ∷ ts)) b ts)))

prepend-Within :
    (P : Bytes × Bytes → Type 0) (out : Bytes) (r : Result (Bytes × Bytes))
    → Within (λ (s, rest). P (out ++ s, rest)) r
    → Within P (prepend out r)
prepend-Within P out (ok (s, rest)) w = w
prepend-Within P out failed w = tt
prepend-Within P out out_of_fuel w = w

read_on-Within :
    (n : ℕ) (s : Scan) (more : Bytes → Result (Bytes × Bytes))
    → Below n s
    → ((rest : Bytes) → length rest < n → Within (λ (s, left). length left < n) (more rest))
    → Within (λ (s, left). length left < n) (read_on s more)
read_on-Within n (closed rest) more b k = b
read_on-Within n (piece out rest) more b k = prepend-Within _ out (more rest) (k rest b)
read_on-Within n rejected more b k = tt

Within-weaken :
    (n m : ℕ) (r : Result (Bytes × Bytes))
    → n ≤ m
    → Within (λ (s, left). length left < n) r
    → Within (λ (s, left). length left < m) r
Within-weaken n m (ok (s, left)) h w = omega arith
Within-weaken n m failed h w = tt
Within-weaken n m out_of_fuel h w = w

parse_chars-Within :
    (fuel : ℕ) (ts : Bytes)
    → length ts < fuel
    → Within (λ (s, left). length left < length ts) (parse_chars fuel ts)
unfolding parse_chars
parse_chars-Within zero ts h = absurd (omega arith)
parse_chars-Within (suc fuel) ts h =
    read_on-Within (length ts) (scan ts) (λ rest. parse_chars fuel rest) (scan-Below ts)
      λ rest less.
        Within-weaken (length rest) (length ts) (parse_chars fuel rest) (omega arith)
          (parse_chars-Within fuel rest (omega arith))

-- `parseString` ends, and leaves less of the text.
pub parse_string-Within :
    (ts : Bytes) → Within (λ (s, left). length left < length ts) (parse_string ts)
unfolding parse_string
parse_string-Within ts = parse_chars-Within (suc (length ts)) ts (omega arith)
