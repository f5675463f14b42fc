-- ===== src/Json/RoundTrip/Rounds.antt =====
-- src/app/engine/dmn-json.cpp: one round of each loop of the parser, on what `dump` has written.
use dmn.Prelude.{
  ℕ, suc, ◌+◌, ◌*◌, ◌≤◌, ◌<◌, ◌≡◌, refl, ap, ◌∙◌, Bool, false, ◌∷◌, ◌++◌, length, arith,
}
use dmn.Json.{
  Bytes, Value, Items, Fields, array, object, no_items, item, no_fields, field, push_back,
  set_field,
}
use dmn.Json.Text.{Result, ok, dump_string}
use dmn.Json.Dump.{Numbers, dump, dump_items, dump_fields}
use dmn.Json.Parse.{bind, expect, after_item, after_field, parse_value, parse_items, parse_fields}
use dmn.Json.Members.{Distinct, AllDistinct, DistinctFields, height, height_items, height_fields}
use dmn.Json.Numbers.{IsDocumented, Stops}
use dmn.Json.RoundTrip.Opening.{
  Plain, AllPlain, PlainFields, quoted-dump_string, push_items, set_fields,
}

pub bind-ok {ℓ κ} :
    {A : Type ℓ} {B : Type κ} (r : Result A) (a : A) (f : A → Result B) → r ≡ ok a → bind r f ≡ f a
bind-ok r a f e = ap (λ x. bind x f) e

-- A member that follows, or the closing bracket.
dump_items-Stops :
    {D : Type 0} (c : Numbers D) (xs : Items D) (rest : Bytes)
    → Stops (dump_items c false xs ++ b']' ∷ rest)
unfolding dump
dump_items-Stops c no_items rest = refl
dump_items-Stops c (item v xs) rest = refl

dump_fields-Stops :
    {D : Type 0} (c : Numbers D) (fs : Fields D) (rest : Bytes)
    → Stops (dump_fields c false fs ++ b'}' ∷ rest)
unfolding dump
dump_fields-Stops c no_fields rest = refl
dump_fields-Stops c (field k v fs) rest = refl

module _ {D : Type 0} (c : Numbers D) (negative_zero : D → Bool)
    (doc : IsDocumented c negative_zero) where
  -- A written value is read off the front of a text.
  abbrev pub ReadsValue : Value D → Type 0
  ReadsValue v =
      (f depth : ℕ) (rest : Bytes)
      → Plain c negative_zero v
      → Distinct v
      → depth + height v ≤ 32
      → Stops rest
      → 2 * length (dump c v) < f
      → parse_value c f depth (dump c v ++ rest) ≡ ok (v, rest)

  abbrev pub ReadsItems : Items D → Type 0
  ReadsItems xs =
      (f depth : ℕ) (acc : Items D) (rest : Bytes)
      → AllPlain c negative_zero xs
      → AllDistinct xs
      → depth + height_items xs ≤ 32
      → 2 * length (dump_items c false xs) < f
      → after_item c acc (λ more. parse_items c f depth acc more)
          (dump_items c false xs ++ b']' ∷ rest)
        ≡ ok (array (push_items acc xs), rest)

  abbrev pub ReadsFields : Fields D → Type 0
  ReadsFields fs =
      (f depth : ℕ) (acc : Fields D) (rest : Bytes)
      → PlainFields c negative_zero fs
      → DistinctFields fs
      → depth + height_fields fs ≤ 32
      → 2 * length (dump_fields c false fs) < f
      → after_field c acc (λ more. parse_fields c f depth acc more)
          (dump_fields c false fs ++ b'}' ∷ rest)
        ≡ ok (object (set_fields acc fs), rest)

  -- One round of the loop of `parseArray`.
  pub item_round :
      (g depth : ℕ) (acc : Items D) (v : Value D) (xs : Items D) (rest : Bytes)
      → ReadsValue v
      → ReadsItems xs
      → AllPlain c negative_zero (item v xs)
      → AllDistinct (item v xs)
      → depth + height_items (item v xs) ≤ 32
      → 2 * length (dump c v) < g
      → 2 * length (dump_items c false xs) < g
      → parse_items c (suc g) depth acc (dump c v ++ (dump_items c false xs ++ b']' ∷ rest))
        ≡ ok (array (push_items (push_back acc v) xs), rest)
  unfolding parse_value
  item_round g depth acc v xs rest read reads p d low room room_items =
      bind-ok _ _ _ (read g (suc depth) _ p.0 d.0 (omega arith) (dump_items-Stops c xs rest) room)
      ∙ reads g depth (push_back acc v) rest p.1 d.1 (omega arith) room_items

  pub field_round :
      (g depth : ℕ) (acc : Fields D) (k : Bytes) (v : Value D) (fs : Fields D) (rest : Bytes)
      → ReadsValue v
      → ReadsFields fs
      → PlainFields c negative_zero (field k v fs)
      → DistinctFields (field k v fs)
      → depth + height_fields (field k v fs) ≤ 32
      → 2 * length (dump c v) < g
      → 2 * length (dump_fields c false fs) < g
      → parse_fields c
          (suc g)
          depth
          acc
          (dump_string k ++ b':' ∷ (dump c v ++ (dump_fields c false fs ++ b'}' ∷ rest)))
        ≡ ok (object (set_fields (set_field k v acc) fs), rest)
  unfolding parse_value expect
  field_round g depth acc k v fs rest read reads p d low room room_fields =
      let value_text = dump c v ++ (dump_fields c false fs ++ b'}' ∷ rest) in
      bind-ok _ _ _
        (quoted-dump_string k (b':' ∷ value_text) ∙ ap (λ s. ok (s, b':' ∷ value_text)) p.0)
      ∙ bind-ok _ _ _
          (read g (suc depth) _ p.1 d.1 (omega arith) (dump_fields-Stops c fs rest) room)
      ∙ reads g depth (set_field k v acc) rest p.2 d.2 (omega arith) room_fields
