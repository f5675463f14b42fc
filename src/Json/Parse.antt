-- ===== src/Json/Parse.antt =====
-- src/app/engine/dmn-json.cpp: the `Parser`. A parsing function takes the text from `m_pos` on and
-- returns what it has read with the text that is left.
use dmn.Prelude.{
  ℕ, zero, suc, ◌+◌, ◌*◌, Bool, true, false, not, ◌&&◌, ◌||◌, [], ◌∷◌, Option, none, some, ltb, leb,
  ◌==◌, if◌then◌else◌, length,
}
use dmn.Json.{
  Bytes, Value, Items, Fields, null, bool, number, string, array, object, no_items, no_fields,
  push_back, set_field,
}
use dmn.Json.Text.{Result, ok, failed, out_of_fuel, parse_string}
use dmn.Json.Dump.{Numbers, null_text, true_text, false_text}

abbrev pub maximum_depth : ℕ
maximum_depth = 32

abbrev pub bind {ℓ κ} : {A : Type ℓ} {B : Type κ} → Result A → (A → Result B) → Result B
bind (ok a) f = f a
bind failed f = failed
bind out_of_fuel f = out_of_fuel

abbrev pub is_space : ℕ → Bool
is_space b = b == b' ' || (b == b'\t' || (b == b'\n' || b == b'\r'))

unfoldable pub skip_space : Bytes → Bytes
skip_space [] = []
skip_space (b ∷ ts) = let rest = skip_space ts in if is_space b then rest else b ∷ ts

abbrev pub after_byte : ℕ → Bytes → Option Bytes
after_byte expected [] = none
after_byte expected (b ∷ ts) = if b == expected then some ts else none

-- `consume`: `none` is its `false`, behind which only white space has been read.
unfoldable pub consume : ℕ → Bytes → Option Bytes
unfolding skip_space
consume expected ts = after_byte expected (skip_space ts)

unfoldable pub literal : Bytes → Bytes → Option Bytes
literal [] ts = some ts
literal (w ∷ word) [] = none
literal (w ∷ word) (b ∷ ts) = let rest = literal word ts in if b == w then rest else none

-- A byte that the loop of `parseNumber` takes.
abbrev pub in_number : ℕ → Bool
in_number b =
    leb b'0' b && leb b b'9'
    || (b == b'.' || (b == b'e' || (b == b'E' || (b == b'+' || b == b'-'))))

unfoldable pub span_number : Bytes → Bytes × Bytes
span_number [] = ([], [])
span_number (b ∷ ts) =
    let rest = span_number ts in if in_number b then (b ∷ rest.0, rest.1) else ([], b ∷ ts)

-- The optional sign, and the loop.
unfoldable pub number_token : Bytes → Bytes × Bytes
unfolding span_number
number_token [] = ([], [])
number_token (b ∷ ts) =
    let rest = span_number ts in if b == b'-' then (b ∷ rest.0, rest.1) else span_number (b ∷ ts)

-- What `parseValue` finds behind the white space. The bracket or quote is taken, as the function called
-- takes it first.
pub data Start : Type 0 where
  nothing : Start
  opens_object : Bytes → Start
  opens_array : Bytes → Start
  opens_string : Bytes → Start
  opens_plain : Bytes → Start

abbrev pub start_of : Bytes → Start
start_of [] = nothing
start_of (b ∷ ts) =
    if b == b'{'
    then opens_object ts
    else if b == b'['
    then opens_array ts
    else if b == b'"'
    then opens_string ts
    else opens_plain (b ∷ ts)

unfoldable pub look : ℕ → Bytes → Start
unfolding skip_space
look depth ts = if ltb maximum_depth depth then nothing else start_of (skip_space ts)

-- `parseString`, with its opening quote.
unfoldable pub quoted : Bytes → Result (Bytes × Bytes)
unfolding consume
quoted ts = elim (consume b'"' ts) [ some rest ↦ parse_string rest | none ↦ failed ]

unfoldable pub expect : ℕ → Bytes → Result Bytes
unfolding consume
expect b ts = elim (consume b ts) [ some rest ↦ ok rest | none ↦ failed ]

module _ {D : Type 0} (c : Numbers D) where
  abbrev pub Parsed : Type 0
  Parsed = Result (Value D × Bytes)

  abbrev pub read_number : Bytes × Bytes → Parsed
  read_number ([], rest) = failed
  read_number (b ∷ token, rest) =
      let (d, used) = c.strtod (b ∷ token) in
      if not (used == length (b ∷ token)) || not (c.is_finite d)
      then failed
      else ok (number d, rest)

  unfoldable pub parse_number : Bytes → Parsed
  unfolding number_token
  parse_number ts = read_number (number_token ts)

  abbrev pub or_else : Option Bytes → Value D → Parsed → Parsed
  or_else (some rest) v next = ok (v, rest)
  or_else none v next = next

  unfoldable pub parse_plain : Bytes → Parsed
  unfolding literal parse_number
  parse_plain ts = or_else (literal true_text ts) (bool true) (
      or_else (literal false_text ts) (bool false)
        (or_else (literal null_text ts) null (parse_number ts)))

  -- `parseValue` by the byte that it has found, with the loops of `parseArray` and `parseObject`.
  unfoldable pub value_of : Start → (Bytes → Parsed) → (Bytes → Parsed) → Parsed
  unfolding consume parse_plain
  value_of nothing items fields = failed
  value_of (opens_object rest) items fields = elim (consume b'}' rest) [
    | some after ↦ ok (object no_fields, after)
    | none ↦ fields rest
  ]
  value_of (opens_array rest) items fields = elim (consume b']' rest) [
    | some after ↦ ok (array no_items, after)
    | none ↦ items rest
  ]
  value_of (opens_string rest) items fields =
      bind (parse_string rest) λ (s, after). ok (string s, after)
  value_of (opens_plain text) items fields = parse_plain text

  -- The end of a round of the `do` loops: a comma goes on, and the bracket closes.
  unfoldable pub after_item : Items D → (Bytes → Parsed) → Bytes → Parsed
  unfolding consume expect
  after_item array_ more rest = elim (consume b',' rest) [
    | some text ↦ more text
    | none ↦ bind (expect b']' rest) λ after. ok (array array_, after)
  ]

  unfoldable pub after_field : Fields D → (Bytes → Parsed) → Bytes → Parsed
  unfolding consume expect
  after_field object_ more rest = elim (consume b',' rest) [
    | some text ↦ more text
    | none ↦ bind (expect b'}' rest) λ after. ok (object object_, after)
  ]

  -- Each call of a value, and each round of a `do` loop, costs a unit of fuel.
  unfoldable mutual
    unfolding look quoted expect value_of after_item after_field

    pub parse_value : ℕ → ℕ → Bytes → Parsed
    parse_value zero depth ts = out_of_fuel
    parse_value (suc f) depth ts =
        value_of (look depth ts) (λ rest. parse_items f depth no_items rest)
          (λ rest. parse_fields f depth no_fields rest)

    pub parse_items : ℕ → ℕ → Items D → Bytes → Parsed
    parse_items zero depth array_ ts = out_of_fuel
    parse_items (suc f) depth array_ ts = bind (parse_value f (suc depth) ts) λ (v, rest).
        after_item (push_back array_ v) (λ more. parse_items f depth (push_back array_ v) more) rest

    pub parse_fields : ℕ → ℕ → Fields D → Bytes → Parsed
    parse_fields zero depth object_ ts = out_of_fuel
    parse_fields (suc f) depth object_ ts = bind (quoted (skip_space ts)) λ (key, rest).
        bind (expect b':' rest) λ text. bind (parse_value f (suc depth) text) λ (v, left).
          after_field (set_field key v object_)
            (λ more. parse_fields f depth (set_field key v object_) more) left

  abbrev pub finish : Value D × Bytes → Result (Value D)
  finish (v, []) = ok v
  finish (v, b ∷ ts) = failed

  -- `parseDocument`.
  unfoldable pub parse : Bytes → Result (Value D)
  unfolding parse_value
  parse ts = bind (parse_value (2 * length ts + 1) 0 ts) λ (v, rest). finish (v, skip_space rest)
