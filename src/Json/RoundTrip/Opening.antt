-- ===== src/Json/RoundTrip/Opening.antt =====
-- src/app/engine/dmn-json.cpp: the values that can be written and read back, and how the parser meets
-- the first byte of a written value.
use dmn.Prelude.{
  ℕ, ◌≤◌, ◌≡◌, refl, ap, ◌∙◌, Bool, true, false, [], ◌∷◌, ◌++◌, none, ◌==◌, ltb, if◌then◌else◌,
  Bool-cases, inl, inr, length, arith,
}
use dmn.Json.{
  Bytes, Value, Items, Fields, null, bool, number, string, array, object, no_items, item, no_fields,
  field, push_back, set_field, find_field, equal,
}
use dmn.Json.Text.{ok, dump_string}
use dmn.Json.Text.Strings.{repair, parse_string-dump_string}
use dmn.Json.Dump.{Numbers, dump_number, dump}
use dmn.Json.Parse.{maximum_depth, is_space, skip_space, consume, quoted, look, start_of}
use dmn.Json.Members.{DistinctFields, unequal}
use dmn.Json.Numbers.{NumberText, IsDocumented}

module _ {D : Type 0} (c : Numbers D) (negative_zero : D → Bool) where
  -- The numbers are finite and none is a negative zero, and the strings and keys are valid UTF-8.
  abbrev mutual
    pub Plain : Value D → Type 0
    Plain (number d) = (c.is_finite d ≡ true) × (negative_zero d ≡ false)
    Plain (string s) = repair s ≡ s
    Plain (array xs) = AllPlain xs
    Plain (object fs) = PlainFields fs
    Plain _ = Unit

    pub AllPlain : Items D → Type 0
    AllPlain no_items = Unit
    AllPlain (item v xs) = Plain v × AllPlain xs

    pub PlainFields : Fields D → Type 0
    PlainFields no_fields = Unit
    PlainFields (field k v fs) = (repair k ≡ k) × Plain v × PlainFields fs

pub look-byte :
    (depth b : ℕ) (ts : Bytes)
    → depth ≤ 32
    → is_space b ≡ false
    → look depth (b ∷ ts) ≡ start_of (b ∷ ts)
unfolding look
look-byte depth b ts low s =
    let within : ltb maximum_depth depth ≡ false = ground arith in rw (within, s) refl

pub quoted-dump_string :
    (k rest : Bytes) → quoted (skip_space (dump_string k ++ rest)) ≡ ok (repair k, rest)
unfolding quoted
quoted-dump_string k rest =
    let (body, opens, read) = parse_string-dump_string k rest in rw opens read

-- A written value begins with a byte that is neither white space nor a closing bracket.
pub record Opens (text : Bytes) : Type 0 where
  pub first : ℕ
  pub more : Bytes
  pub opens : text ≡ first ∷ more
  pub no_space : is_space first ≡ false
  pub no_bracket : (first == b']') ≡ false

in_number-Opens : (text : Bytes) → NumberText text → Opens text
in_number-Opens [] t = absurd t
in_number-Opens (b ∷ ts) t = record {
  first = b;
  more = ts;
  opens = refl;
  no_space = ground arith;
  no_bracket = ground arith;
}

-- The text of a finite number.
pub dump_number-text :
    {D : Type 0} {c : Numbers D} {negative_zero : D → Bool} (d : D)
    → IsDocumented c negative_zero
    → c.is_finite d ≡ true
    → negative_zero d ≡ false
    → NumberText (dump_number c d) × (c.strtod (dump_number c d) ≡ (d, length (dump_number c d)))
dump_number-text {c} d doc fin sign = elim (Bool-cases (c.is_whole d)) [
  | inl whole ↦ rw (fin, whole) (doc.whole_text d fin whole, doc.whole_read d fin whole sign)
  | inr part ↦ rw (fin, part) (doc.text_17 d fin part, doc.read_17 d fin part)
]

pub dump-Opens :
    {D : Type 0} {c : Numbers D} {negative_zero : D → Bool} (v : Value D)
    → IsDocumented c negative_zero
    → Plain c negative_zero v
    → Opens (dump c v)
unfolding dump
dump-Opens null doc p = record {
  first = _;
  more = _;
  opens = refl;
  no_space = refl;
  no_bracket = refl;
}
dump-Opens (bool true) doc p = record {
  first = _;
  more = _;
  opens = refl;
  no_space = refl;
  no_bracket = refl;
}
dump-Opens (bool false) doc p = record {
  first = _;
  more = _;
  opens = refl;
  no_space = refl;
  no_bracket = refl;
}
dump-Opens {c} (number d) doc p =
    in_number-Opens (dump_number c d) (dump_number-text d doc p.0 p.1).0
dump-Opens (string s) doc p =
    let (body, opens, read) = parse_string-dump_string s [] in
    record { first = b'"'; more = body; opens = opens; no_space = refl; no_bracket = refl }
dump-Opens (array xs) doc p = record {
  first = _;
  more = _;
  opens = refl;
  no_space = refl;
  no_bracket = refl;
}
dump-Opens (object fs) doc p = record {
  first = _;
  more = _;
  opens = refl;
  no_space = refl;
  no_bracket = refl;
}

consume-byte :
    (b : ℕ) (ts : Bytes) → is_space b ≡ false → (b == b']') ≡ false → consume b']' (b ∷ ts) ≡ none
unfolding consume
consume-byte b ts s n = simp (s, n)

pub consume-Opens : (text rest : Bytes) → Opens text → consume b']' (text ++ rest) ≡ none
consume-Opens text rest o =
    ap (λ t. consume b']' (t ++ rest)) o.opens
    ∙ consume-byte o.first (o.more ++ rest) o.no_space o.no_bracket

module _ {D : Type 0} where
  -- What the loops of `parseArray` and `parseObject` make of the members that they read, in order.
  abbrev pub push_items : Items D → Items D → Items D
  push_items acc no_items = acc
  push_items acc (item v xs) = push_items (push_back acc v) xs

  abbrev pub set_fields : Fields D → Fields D → Fields D
  set_fields acc no_fields = acc
  set_fields acc (field k v fs) = set_fields (set_field k v acc) fs

  push_items-item :
      (w : Value D) (acc xs : Items D) → push_items (item w acc) xs ≡ item w (push_items acc xs)
  push_items-item w acc no_items = refl
  push_items-item w acc (item v xs) = push_items-item w (push_back acc v) xs

  pub push_items-no_items : (xs : Items D) → push_items no_items xs ≡ xs
  push_items-no_items no_items = refl
  push_items-no_items (item v xs) =
      push_items-item v no_items xs ∙ ap (item v) (push_items-no_items xs)

  absent_key :
      (i k : Bytes) (v : Value D) (fs : Fields D)
      → find_field i (field k v fs) ≡ none
      → (equal i k ≡ false) × (find_field i fs ≡ none)
  absent_key i k v fs e = elim (Bool-cases (equal k i)) [
    | inl same ↦ let here = simp same at e in cc
    | inr other ↦ (unequal k i other, simp other at e)
  ]

  set_fields-field :
      (i : Bytes) (w : Value D) (acc fs : Fields D)
      → find_field i fs ≡ none
      → set_fields (field i w acc) fs ≡ field i w (set_fields acc fs)
  set_fields-field i w acc no_fields e = refl
  set_fields-field i w acc (field k v fs) e =
      let (other, rest) = absent_key i k v fs e in
      ap (λ b. set_fields (if b then field i v acc else field i w (set_field k v acc)) fs) other
      ∙ set_fields-field i w (set_field k v acc) fs rest

  pub set_fields-no_fields : (fs : Fields D) → DistinctFields fs → set_fields no_fields fs ≡ fs
  set_fields-no_fields no_fields d = refl
  set_fields-no_fields (field k v fs) d =
      set_fields-field k v no_fields fs d.0 ∙ ap (field k v) (set_fields-no_fields fs d.2)
