-- ===== src/Json/RoundTrip/Shapes.antt =====
-- src/app/engine/dmn-json.cpp: how the parser goes on behind the first byte of a written value.
use dmn.Prelude.{
  ℕ, suc, ◌+◌, ◌≤◌, ◌≡◌, refl, ap, ◌∙◌, true, false, [], ◌∷◌, ◌++◌, none, some, length, arith,
  length-append,
}
use mathlib.Core.List.{append_assoc}
use dmn.Json.{Bytes, Value, array, object, no_items, no_fields}
use dmn.Json.Text.{Result, ok, dump_string}
use dmn.Json.Text.Strings.{parse_string-dump_string}
use dmn.Json.Dump.{Numbers}
use dmn.Json.Parse.{
  is_space, in_number, opens_array, opens_object, opens_plain, consume, start_of, value_of,
  parse_value, parse_items, parse_fields,
}
use dmn.Json.RoundTrip.Opening.{look-byte}

pub regrouped :
    (xs ys : Bytes) (b : ℕ) (rest : Bytes)
    → ((xs ++ ys) ++ (b ∷ [])) ++ rest ≡ xs ++ (ys ++ b ∷ rest)
regrouped xs ys b rest = simp append_assoc

pub regrouped_member :
    (k v fs rest : Bytes) → (k ++ b':' ∷ (v ++ fs)) ++ rest ≡ k ++ b':' ∷ (v ++ (fs ++ rest))
regrouped_member k v fs rest = simp append_assoc

pub length_member :
    (k v fs : Bytes) → length (k ++ b':' ∷ (v ++ fs)) ≡ length k + suc (length v + length fs)
length_member k v fs =
    let a = length-append k (b':' ∷ (v ++ fs)) in let b = length-append v fs in omega arith

pub consume-dump_string : (k rest : Bytes) → consume b'}' (dump_string k ++ rest) ≡ none
unfolding consume
consume-dump_string k rest =
    let (body, opens, read) = parse_string-dump_string k rest in rw opens refl

-- The start of a value, by its first byte.
pub value-byte :
    {D : Type 0} (c : Numbers D) (f depth b : ℕ) (ts : Bytes)
    → depth ≤ 32
    → is_space b ≡ false
    → parse_value c (suc f) depth (b ∷ ts)
      ≡ value_of c
          (start_of (b ∷ ts))
          (λ rest. parse_items c f depth no_items rest)
          (λ rest. parse_fields c f depth no_fields rest)
unfolding parse_value
value-byte c f depth b ts low s =
    ap
      (λ t.
        value_of c t (λ rest. parse_items c f depth no_items rest)
          (λ rest. parse_fields c f depth no_fields rest))
      (look-byte depth b ts low s)

pub start_of-number :
    (b : ℕ) (ts : Bytes) → in_number b ≡ true → start_of (b ∷ ts) ≡ opens_plain (b ∷ ts)
start_of-number b ts h = ground arith

-- An array or an object that is not empty.
pub value_of-array :
    {D : Type 0} (c : Numbers D) (ts text : Bytes) (items fields : Bytes → Result (Value D × Bytes))
    → ts ≡ text
    → consume b']' text ≡ none
    → value_of c (opens_array ts) items fields ≡ items text
unfolding value_of
value_of-array c ts text items fields e n =
    ap (λ t. value_of c (opens_array t) items fields) e
    ∙ ap (λ o. elim o [ some after ↦ ok (array no_items, after) | none ↦ items text ]) n

pub value_of-object :
    {D : Type 0} (c : Numbers D) (ts text : Bytes) (items fields : Bytes → Result (Value D × Bytes))
    → ts ≡ text
    → consume b'}' text ≡ none
    → value_of c (opens_object ts) items fields ≡ fields text
unfolding value_of
value_of-object c ts text items fields e n =
    ap (λ t. value_of c (opens_object t) items fields) e
    ∙ ap (λ o. elim o [ some after ↦ ok (object no_fields, after) | none ↦ fields text ]) n
