-- ===== src/Json/Dump.antt =====
-- src/app/engine/dmn-json.cpp: `dumpNumber` and `Dmn_JsonValue::dump`.
use dmn.Prelude.{Bool, true, false, [], ◌∷◌, ◌++◌, ℕ, if◌then◌else◌}
use dmn.Json.{
  Bytes, Value, Items, Fields, null, bool, number, string, array, object, no_items, item, no_fields,
  field,
}
use dmn.Json.Text.{dump_string}

-- The C library on `double`, and the two tests of `dumpNumber`: `std::isfinite`, a whole number below
-- 9e15 in size, `snprintf` by "%lld" after the cast and by "%.17g", and `strtod`, which gives a value
-- and how many bytes of the text it has read.
pub record Numbers (D : Type 0) : Type 0 where
  pub is_finite : D → Bool
  pub is_whole : D → Bool
  pub print_whole : D → Bytes
  pub print_17 : D → Bytes
  pub strtod : Bytes → D × ℕ

abbrev pub null_text : Bytes
null_text = b'n' ∷ b'u' ∷ b'l' ∷ b'l' ∷ []

abbrev pub true_text : Bytes
true_text = b't' ∷ b'r' ∷ b'u' ∷ b'e' ∷ []

abbrev pub false_text : Bytes
false_text = b'f' ∷ b'a' ∷ b'l' ∷ b's' ∷ b'e' ∷ []

abbrev pub separator : Bool → Bytes
separator first = if first then [] else b',' ∷ []

module _ {D : Type 0} (c : Numbers D) where
  abbrev pub dump_number : D → Bytes
  dump_number d =
      if c.is_finite d then (if c.is_whole d then c.print_whole d else c.print_17 d) else null_text

  unfoldable mutual
    pub dump : Value D → Bytes
    dump null = null_text
    dump (bool b) = if b then true_text else false_text
    dump (number d) = dump_number d
    dump (string s) = dump_string s
    dump (array xs) = b'[' ∷ (dump_items true xs ++ b']' ∷ [])
    dump (object fs) = b'{' ∷ (dump_fields true fs ++ b'}' ∷ [])

    pub dump_items : Bool → Items D → Bytes
    dump_items first no_items = []
    dump_items first (item v xs) = separator first ++ (dump v ++ dump_items false xs)

    pub dump_fields : Bool → Fields D → Bytes
    dump_fields first no_fields = []
    dump_fields first (field k v fs) =
        separator first ++ (dump_string k ++ b':' ∷ (dump v ++ dump_fields false fs))
