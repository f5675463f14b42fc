-- ===== src/Json/Tokens.antt =====
-- src/app/engine/dmn-json.cpp: what the functions of the parser that read a token leave of the text.
use dmn.Prelude.{
  ℕ, ◌≤◌, ◌<◌, ◌≡◌, refl, Bool, true, false, [], ◌∷◌, ltb, ◌==◌, if◌then◌else◌, length, arith,
}
use dmn.Json.{Bytes}
use dmn.Json.Text.{parse_string}
use dmn.Json.Text.Shorter.{Within, parse_string-Within}
use dmn.Json.Parse.{
  maximum_depth, skip_space, consume, in_number, span_number, number_token, Start, nothing,
  opens_object, opens_array, opens_string, opens_plain, start_of, look, quoted, expect,
}
use dmn.Json.Within.{Within-map, Within-option, length-skip_space, length-consume}

pub quoted-Within : (ts : Bytes) → Within (λ (s, left). length left < length ts) (quoted ts)
unfolding quoted
quoted-Within ts =
    Within-option _ (consume b'"' ts) _ _
      (λ rest e.
        let l = length-consume b'"' ts rest e in
        Within-map _ _ (parse_string rest) (parse_string-Within rest) λ r h. omega arith)
      (λ e. tt)

pub expect-Within : (b : ℕ) (ts : Bytes) → Within (λ left. length left < length ts) (expect b ts)
unfolding expect
expect-Within b ts =
    Within-option _ (consume b ts) _ _ (λ rest e. length-consume b ts rest e) (λ e. tt)

-- What is left behind the white space, and the byte that opens a value.
unfoldable pub InStart : ℕ → ℕ → Start → Type 0
InStart depth n nothing = Unit
InStart depth n (opens_object rest) = (depth ≤ 32) × (length rest < n)
InStart depth n (opens_array rest) = (depth ≤ 32) × (length rest < n)
InStart depth n (opens_string rest) = (depth ≤ 32) × (length rest < n)
InStart depth n (opens_plain text) = (depth ≤ 32) × (length text ≤ n)

InStart-if :
    (depth n : ℕ) (b : Bool) (x y : Start)
    → (b ≡ true → InStart depth n x)
    → (b ≡ false → InStart depth n y)
    → InStart depth n (if b then x else y)
InStart-if depth n true x y f g = f refl
InStart-if depth n false x y f g = g refl

start_of-InStart :
    (depth n : ℕ) (ts : Bytes) → depth ≤ 32 → length ts ≤ n → InStart depth n (start_of ts)
unfolding InStart
start_of-InStart depth n [] h l = tt
start_of-InStart depth n (b ∷ ts) h l =
    InStart-if depth n (b == b'{') _ _ (λ e. (h, omega arith))
      λ e.
        InStart-if depth n (b == b'[') _ _ (λ e. (h, omega arith))
          λ e. InStart-if depth n (b == b'"') _ _ (λ e. (h, omega arith)) λ e. (h, l)

pub look-InStart : (depth : ℕ) (ts : Bytes) → InStart depth (length ts) (look depth ts)
unfolding look InStart
look-InStart depth ts =
    InStart-if depth (length ts) (ltb maximum_depth depth) _ _ (λ e. tt)
      λ e. start_of-InStart depth (length ts) (skip_space ts) (ground arith) (length-skip_space ts)

length-span_number : (ts : Bytes) → length (span_number ts).1 ≤ length ts
unfolding span_number
length-span_number [] = omega arith
length-span_number (b ∷ ts) = let r = length-span_number ts in ground arith

-- A number's token takes a byte, or is empty.
unfoldable pub TakesByte : ℕ → Bytes × Bytes → Type 0
TakesByte n ([], rest) = Unit
TakesByte n (b ∷ token, rest) = length rest < n

TakesByte-if :
    (n : ℕ) (b : Bool) (x y : Bytes × Bytes)
    → TakesByte n x
    → TakesByte n y
    → TakesByte n (if b then x else y)
TakesByte-if n true x y f g = f
TakesByte-if n false x y f g = g

span_number-TakesByte : (ts : Bytes) → TakesByte (length ts) (span_number ts)
unfolding span_number TakesByte
span_number-TakesByte [] = tt
span_number-TakesByte (b ∷ ts) =
    let r = length-span_number ts in TakesByte-if _ (in_number b) _ _ (omega arith) tt

pub number_token-TakesByte : (ts : Bytes) → TakesByte (length ts) (number_token ts)
unfolding number_token TakesByte
number_token-TakesByte [] = tt
number_token-TakesByte (b ∷ ts) =
    let r = length-span_number ts in
    TakesByte-if _ (b == b'-') _ _ (omega arith) (span_number-TakesByte (b ∷ ts))
