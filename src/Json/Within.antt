-- ===== src/Json/Within.antt =====
-- src/app/engine/dmn-json.cpp: postconditions on the outcome of a parsing function, and what each
-- function of the parser leaves of the text.
use dmn.Prelude.{
  ℕ, ◌+◌, ◌≤◌, ◌<◌, ◌≡◌, refl, Bool, true, false, [], ◌∷◌, Option, none, some, ◌==◌, if◌then◌else◌,
  length, arith, Bool-cases, inl, inr,
}
use dmn.Json.{Bytes}
use dmn.Json.Text.{Result, ok, failed, out_of_fuel}
use dmn.Json.Text.Shorter.{Within}
use dmn.Json.Parse.{bind, skip_space, after_byte, consume, literal}

pub Within-bind {ℓ κ} :
    {A : Type ℓ} {B : Type κ} (P : A → Type 0) (Q : B → Type 0) (r : Result A) (f : A → Result B)
    → Within P r
    → ((a : A) → P a → Within Q (f a))
    → Within Q (bind r f)
Within-bind P Q (ok a) f w k = k a w
Within-bind P Q failed f w k = tt
Within-bind P Q out_of_fuel f w k = w

pub Within-map {ℓ} :
    {A : Type ℓ} (P Q : A → Type 0) (r : Result A) → Within P r → ((a : A) → P a → Q a) → Within Q r
Within-map P Q (ok a) w k = k a w
Within-map P Q failed w k = tt
Within-map P Q out_of_fuel w k = w

pub Within-if {ℓ} :
    {A : Type ℓ} (Q : A → Type 0) (b : Bool) (x y : Result A)
    → Within Q x
    → Within Q y
    → Within Q (if b then x else y)
Within-if Q true x y f g = f
Within-if Q false x y f g = g

pub Within-option {ℓ} :
    {A : Type ℓ} (Q : A → Type 0) (o : Option Bytes) (x : Bytes → Result A) (y : Result A)
    → ((rest : Bytes) → o ≡ some rest → Within Q (x rest))
    → (o ≡ none → Within Q y)
    → Within Q (elim o [ some rest ↦ x rest | none ↦ y ])
Within-option Q (some rest) x y f g = f rest refl
Within-option Q none x y f g = g refl

pub length-skip_space : (ts : Bytes) → length (skip_space ts) ≤ length ts
unfolding skip_space
length-skip_space [] = omega arith
length-skip_space (b ∷ ts) = let r = length-skip_space ts in ground arith

pub length-after_byte :
    (b : ℕ) (ts rest : Bytes) → after_byte b ts ≡ some rest → length rest < length ts
length-after_byte b [] rest e = cc
length-after_byte b (x ∷ ts) rest e = ground arith

pub length-consume : (b : ℕ) (ts rest : Bytes) → consume b ts ≡ some rest → length rest < length ts
unfolding consume
length-consume b ts rest e =
    let a = length-after_byte b (skip_space ts) rest e in
    let s = length-skip_space ts in omega arith

pub length-literal :
    (word ts rest : Bytes) → literal word ts ≡ some rest → length rest + length word ≡ length ts
unfolding literal
length-literal [] ts rest e = ground arith
length-literal (w ∷ word) [] rest e = cc
length-literal (w ∷ word) (b ∷ ts) rest e = elim (Bool-cases (b == w)) [
  | inl same ↦ let r = length-literal word ts rest (simp same at e) in omega arith
  | inr other ↦ let gone = simp other at e in cc
]
