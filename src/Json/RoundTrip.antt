-- ===== src/Json/RoundTrip.antt =====
-- src/app/engine/dmn-json.cpp: `Dmn_JsonValue::parse` of what `dump` has written.
pub mod Opening
mod Rounds
mod Shapes
use dmn.Prelude.{
  ℕ, zero, suc, ◌+◌, ◌*◌, ◌≤◌, ◌<◌, ◌≡◌, refl, sym, ap, ◌∙◌, max, Bool, true, false, List, [], ◌∷◌,
  ◌++◌, Option, none, some, ◌==◌, if◌then◌else◌, length, arith, length-append,
}
use mathlib.Core.List.{append_assoc, append-nil}
use dmn.Json.{
  Bytes, Value, Items, Fields, null, bool, number, string, array, object, no_items, item, no_fields,
  field, push_back, set_field,
}
use dmn.Json.Text.{Result, ok, failed, dump_string, parse_string}
use dmn.Json.Text.Strings.{repair, parse_string-dump_string}
use dmn.Json.Dump.{
  Numbers, dump_number, dump, dump_items, dump_fields, null_text, true_text, false_text,
}
use dmn.Json.Parse.{
  bind, is_space, in_number, literal, opens_array, opens_object, opens_plain, skip_space, consume,
  look, quoted, start_of, expect, parse_plain, value_of, after_item, after_field, parse_value,
  parse_items, parse_fields, finish, parse,
}
use dmn.Json.Members.{Distinct, AllDistinct, DistinctFields, height, height_items, height_fields}
use dmn.Json.Numbers.{IsDocumented, Stops, NumberText, parse_plain-number}
use dmn.Json.RoundTrip.Opening.{
  Plain, AllPlain, PlainFields, look-byte, quoted-dump_string, dump-Opens, Opens, consume-Opens,
  dump_number-text, push_items, set_fields, push_items-no_items, set_fields-no_fields,
}
use dmn.Json.RoundTrip.Rounds.{
  bind-ok, ReadsValue, ReadsItems, ReadsFields, item_round, field_round,
}
use dmn.Json.RoundTrip.Shapes.{
  regrouped, regrouped_member, length_member, consume-dump_string, value-byte, start_of-number,
  value_of-array, value_of-object,
}

module _ {D : Type 0} (c : Numbers D) (negative_zero : D → Bool)
    (doc : IsDocumented c negative_zero) where
  read_string : (s : Bytes) → ReadsValue c negative_zero doc (string s)
  unfolding dump value_of
  read_string s zero depth rest p d low stops room = absurd (omega arith)
  read_string s (suc f) depth rest p d low stops room =
      let (body, opens, read) = parse_string-dump_string s rest in
      ap (λ t. parse_value c (suc f) depth (t ++ rest)) opens
      ∙ value-byte c f depth b'"' (body ++ rest) (omega arith) refl
      ∙ bind-ok _ _ _ (read ∙ ap (λ t. ok (t, rest)) p)

  read-NumberText :
      (d : D) (text : Bytes) (f depth : ℕ) (rest : Bytes)
      → NumberText text
      → c.strtod text ≡ (d, length text)
      → c.is_finite d ≡ true
      → depth ≤ 32
      → Stops rest
      → parse_value c (suc f) depth (text ++ rest) ≡ ok (number d, rest)
  unfolding value_of
  read-NumberText d [] f depth rest t e fin low stops = absurd t
  read-NumberText d (b ∷ ts) f depth rest t e fin low stops =
      value-byte c f depth b (ts ++ rest) low (ground arith)
      ∙ ap
          (λ x.
            value_of c x (λ rest. parse_items c f depth no_items rest)
              (λ rest. parse_fields c f depth no_fields rest))
          (start_of-number b (ts ++ rest) t.0)
      ∙ parse_plain-number c d (b ∷ ts) rest t e fin stops

  read_number : (d : D) → ReadsValue c negative_zero doc (number d)
  unfolding dump
  read_number d zero depth rest p _ low stops room = absurd (omega arith)
  read_number d (suc f) depth rest p _ low stops room =
      let (text, read) = dump_number-text d doc p.0 p.1 in
      read-NumberText d (dump_number c d) f depth rest text read p.0 (omega arith) stops

  abbrev Reads : Value D → Type 0
  Reads = ReadsValue c negative_zero doc

  abbrev ReadsAll : Items D → Type 0
  ReadsAll = ReadsItems c negative_zero doc

  abbrev ReadsMembers : Fields D → Type 0
  ReadsMembers = ReadsFields c negative_zero doc

  read_null : Reads null
  unfolding dump value_of parse_plain literal
  read_null zero depth rest p d low stops room = absurd (omega arith)
  read_null (suc f) depth rest p d low stops room = value-byte c f depth b'n' _ (omega arith) refl

  read_bool : (b : Bool) → Reads (bool b)
  unfolding dump value_of parse_plain literal
  read_bool b zero depth rest p d low stops room = absurd (omega arith)
  read_bool true (suc f) depth rest p d low stops room =
      value-byte c f depth b't' _ (omega arith) refl
  read_bool false (suc f) depth rest p d low stops room =
      value-byte c f depth b'f' _ (omega arith) refl

  read_empty_array : Reads (array no_items)
  unfolding dump value_of consume
  read_empty_array zero depth rest p d low stops room = absurd (omega arith)
  read_empty_array (suc f) depth rest p d low stops room =
      value-byte c f depth b'[' _ (omega arith) refl

  read_empty_object : Reads (object no_fields)
  unfolding dump value_of consume
  read_empty_object zero depth rest p d low stops room = absurd (omega arith)
  read_empty_object (suc f) depth rest p d low stops room =
      value-byte c f depth b'{' _ (omega arith) refl

  read_array : (v : Value D) (xs : Items D) → Reads v → ReadsAll xs → Reads (array (item v xs))
  unfolding dump
  read_array v xs read reads zero depth rest p d low stops room = absurd (omega arith)
  read_array v xs read reads (suc zero) depth rest p d low stops room = absurd (omega arith)
  read_array v xs read reads (suc (suc g)) depth rest p d low stops room =
      let after = dump_items c false xs ++ b']' ∷ rest in
      let long = length-append (dump c v ++ dump_items c false xs) (b']' ∷ []) in
      let both = length-append (dump c v) (dump_items c false xs) in
      value-byte c (suc g) depth b'[' _ (omega arith) refl
      ∙ value_of-array c _ (dump c v ++ after) _ _
          (regrouped (dump c v) (dump_items c false xs) b']' rest)
          (consume-Opens (dump c v) after (dump-Opens v doc p.0))
      ∙ item_round c negative_zero doc g depth no_items v xs rest read reads p d low (omega arith)
          (omega arith)
      ∙ ap (λ ys. ok (array ys, rest)) (push_items-no_items (item v xs))

  read_object :
      (k : Bytes) (v : Value D) (fs : Fields D)
      → Reads v
      → ReadsMembers fs
      → Reads (object (field k v fs))
  unfolding dump
  read_object k v fs read reads zero depth rest p d low stops room = absurd (omega arith)
  read_object k v fs read reads (suc zero) depth rest p d low stops room = absurd (omega arith)
  read_object k v fs read reads (suc (suc g)) depth rest p d low stops room =
      let after = dump_fields c false fs ++ b'}' ∷ rest in
      let member = length_member (dump_string k) (dump c v) (dump_fields c false fs) in
      let long =
        length-append (dump_string k ++ b':' ∷ (dump c v ++ dump_fields c false fs)) (b'}' ∷ []) in
      value-byte c (suc g) depth b'{' _ (omega arith) refl
      ∙ value_of-object c _ (dump_string k ++ b':' ∷ (dump c v ++ after)) _ _
          (append_assoc (dump_string k ++ b':' ∷ (dump c v ++ dump_fields c false fs)) (b'}' ∷ [])
              rest
            ∙ regrouped_member (dump_string k) (dump c v) (dump_fields c false fs) (b'}' ∷ rest))
          (consume-dump_string k (b':' ∷ (dump c v ++ after)))
      ∙ field_round c negative_zero doc g depth no_fields k v fs rest read reads p d low
          (omega arith) (omega arith)
      ∙ ap (λ ys. ok (object ys, rest)) (set_fields-no_fields (field k v fs) d)

  read_no_items : ReadsAll no_items
  unfolding dump after_item consume expect
  read_no_items f depth acc rest p d low room = refl

  read_item : (v : Value D) (xs : Items D) → Reads v → ReadsAll xs → ReadsAll (item v xs)
  unfolding dump after_item consume
  read_item v xs read reads zero depth acc rest p d low room = absurd (omega arith)
  read_item v xs read reads (suc g) depth acc rest p d low room =
      let both = length-append (dump c v) (dump_items c false xs) in
      ap (parse_items c (suc g) depth acc)
        (append_assoc (dump c v) (dump_items c false xs) (b']' ∷ rest))
      ∙ item_round c negative_zero doc g depth acc v xs rest read reads p d low (omega arith)
          (omega arith)

  read_no_fields : ReadsMembers no_fields
  unfolding dump after_field consume expect
  read_no_fields f depth acc rest p d low room = refl

  read_field :
      (k : Bytes) (v : Value D) (fs : Fields D)
      → Reads v
      → ReadsMembers fs
      → ReadsMembers (field k v fs)
  unfolding dump after_field consume
  read_field k v fs read reads zero depth acc rest p d low room = absurd (omega arith)
  read_field k v fs read reads (suc g) depth acc rest p d low room =
      let member = length_member (dump_string k) (dump c v) (dump_fields c false fs) in
      ap (parse_fields c (suc g) depth acc)
        (regrouped_member (dump_string k) (dump c v) (dump_fields c false fs) (b'}' ∷ rest))
      ∙ field_round c negative_zero doc g depth acc k v fs rest read reads p d low (omega arith)
          (omega arith)

  mutual
    read_value : (v : Value D) → Reads v
    read_value null = read_null
    read_value (bool b) = read_bool b
    read_value (number n) = read_number n
    read_value (string s) = read_string s
    read_value (array no_items) = read_empty_array
    read_value (array (item v xs)) = read_array v xs (read_value v) (read_items xs)
    read_value (object no_fields) = read_empty_object
    read_value (object (field k v fs)) = read_object k v fs (read_value v) (read_fields fs)

    read_items : (xs : Items D) → ReadsAll xs
    read_items no_items = read_no_items
    read_items (item v xs) = read_item v xs (read_value v) (read_items xs)

    read_fields : (fs : Fields D) → ReadsMembers fs
    read_fields no_fields = read_no_fields
    read_fields (field k v fs) = read_field k v fs (read_value v) (read_fields fs)

  -- A value that holds finite numbers other than a negative zero, valid UTF-8 in its strings and keys, no
  -- key twice in an object, and arrays and objects nested at most 32 deep, is read back as it was
  -- written, given that "%lld", "%.17g" and `strtod` do what the C standard says of them.
  pub parse-dump :
      (v : Value D)
      → Plain c negative_zero v
      → Distinct v
      → height v ≤ 32
      → parse c (dump c v) ≡ ok v
  unfolding parse
  parse-dump v p d low =
      let text =
        ap (λ t. parse_value c (2 * length (dump c v) + 1) 0 t) (sym (append-nil (dump c v))) in
      bind-ok _ _ _
        (text ∙ read_value v (2 * length (dump c v) + 1) 0 [] p d (omega arith) tt (omega arith))
