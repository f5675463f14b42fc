-- ===== src/Json/Sound.antt =====
-- src/app/engine/dmn-json.cpp: what the parser accepts. It always comes to an end, and a value that it
-- returns is nested no deeper than the limit and has no key twice in an object.
use dmn.Prelude.{
  ℕ, zero, suc, ◌+◌, ◌*◌, ◌≤◌, ◌<◌, ◌≡◌, ◌≢◌, true, false, not, ◌||◌, [], ◌∷◌, ◌==◌, length, arith,
  inl, inr, Option-cases,
}
use dmn.Json.{Bytes, Value, Items, Fields, null, bool, no_items, no_fields, push_back, set_field}
use dmn.Json.Text.{Result, ok, out_of_fuel, parse_string}
use dmn.Json.Text.Shorter.{Within, parse_string-Within}
use dmn.Json.Dump.{Numbers, null_text, true_text, false_text}
use dmn.Json.Parse.{
  skip_space, consume, literal, number_token, Start, nothing, opens_object, opens_array,
  opens_string, opens_plain, look, quoted, expect, read_number, parse_number, or_else, parse_plain,
  value_of, parse_value, parse_items, parse_fields, finish, parse,
}
use dmn.Json.Members.{
  Distinct, AllDistinct, DistinctFields, height, height_items, height_fields, push_back-AllDistinct,
  set_field-DistinctFields, height_items-push_back, height_fields-set_field,
}
use dmn.Json.Within.{
  Within-bind, Within-map, Within-if, Within-option, length-skip_space, length-consume,
  length-literal,
}
use dmn.Json.Tokens.{
  quoted-Within, expect-Within, InStart, look-InStart, TakesByte, number_token-TakesByte,
}

module _ {D : Type 0} (c : Numbers D) where
  -- A value read at a depth from a text, with the text left.
  record Read (depth n : ℕ) (r : Value D × Bytes) : Type 0 where
    less : length r.1 < n
    shallow : depth + height r.0 ≤ 32
    distinct : Distinct r.0

  Read-weaken :
      (depth n m : ℕ) (r : Result (Value D × Bytes))
      → n ≤ m
      → Within (Read depth n) r
      → Within (Read depth m) r
  Read-weaken depth n m r h w = Within-map _ _ r w λ a v. record {
    less = let l = v.less in omega arith;
    shallow = v.shallow;
    distinct = v.distinct;
  }

  -- An item added to an array that is being read at a depth.
  Pushed : (depth : ℕ) (acc : Items D) (v : Value D) → Type 0
  Pushed depth acc v = (depth + height_items (push_back acc v) ≤ 32) × AllDistinct (push_back acc v)

  push_back-Pushed :
      (depth : ℕ) (acc : Items D) (v : Value D)
      → depth + height_items acc ≤ 32
      → AllDistinct acc
      → suc depth + height v ≤ 32
      → Distinct v
      → Pushed depth acc v
  unfolding Pushed
  push_back-Pushed depth acc v low all h d =
      let e = height_items-push_back acc v in (omega arith, push_back-AllDistinct acc v all d)

  Written : (depth : ℕ) (key : Bytes) (v : Value D) (acc : Fields D) → Type 0
  Written depth key v acc =
      (depth + height_fields (set_field key v acc) ≤ 32) × DistinctFields (set_field key v acc)

  set_field-Written :
      (depth : ℕ) (key : Bytes) (v : Value D) (acc : Fields D)
      → depth + height_fields acc ≤ 32
      → DistinctFields acc
      → suc depth + height v ≤ 32
      → Distinct v
      → Written depth key v acc
  unfolding Written
  set_field-Written depth key v acc low all h d =
      let e = height_fields-set_field key v acc in
      (omega arith, set_field-DistinctFields key v acc all d)

  read_number-Within :
      (depth n : ℕ) (t : Bytes × Bytes)
      → depth ≤ 32
      → TakesByte n t
      → Within (Read depth n) (read_number c t)
  unfolding TakesByte
  read_number-Within depth n ([], rest) h t = tt
  read_number-Within depth n (b ∷ token, rest) h t =
      Within-if _
        (not ((c.strtod (b ∷ token)).1 == length (b ∷ token))
          || not (c.is_finite (c.strtod (b ∷ token)).0))
        _ _ tt (record { less = t; shallow = omega arith; distinct = tt })

  or_else-Within :
      (depth n : ℕ) (v : Value D) (word ts : Bytes) (next : Result (Value D × Bytes))
      → Distinct v
      → depth + height v ≤ 32
      → 0 < length word
      → length ts ≤ n
      → Within (Read depth n) next
      → Within (Read depth n) (or_else c (literal word ts) v next)
  or_else-Within depth n v word ts next d h some_byte l w = elim (Option-cases (literal word ts)) [
    | inl none_ ↦ rw none_ w
    | inr (rest, found) ↦
        let r = length-literal word ts rest found in
        rw found (record { less = omega arith; shallow = h; distinct = d })
  ]

  parse_plain-Within :
      (depth n : ℕ) (ts : Bytes)
      → depth ≤ 32
      → length ts ≤ n
      → Within (Read depth n) (parse_plain c ts)
  unfolding parse_plain parse_number
  parse_plain-Within depth n ts h l =
      or_else-Within depth n (bool true) true_text ts _ tt (omega arith) (omega arith) l (
        or_else-Within depth n (bool false) false_text ts _ tt (omega arith) (omega arith) l (
          or_else-Within depth n null null_text ts _ tt (omega arith) (omega arith) l (
            Within-map _ _ (read_number c (number_token ts))
              (read_number-Within depth (length ts) (number_token ts) h (number_token-TakesByte ts))
              λ r v. record {
                less = let s = v.less in omega arith;
                shallow = v.shallow;
                distinct = v.distinct;
              })))

  value_of-Within :
      (depth n : ℕ) (s : Start) (items fields : Bytes → Result (Value D × Bytes))
      → InStart depth n s
      → ((rest : Bytes) → depth ≤ 32 → length rest < n → Within (Read depth n) (items rest))
      → ((rest : Bytes) → depth ≤ 32 → length rest < n → Within (Read depth n) (fields rest))
      → Within (Read depth n) (value_of c s items fields)
  unfolding value_of InStart
  value_of-Within depth n nothing items fields s f g = tt
  value_of-Within depth n (opens_object rest) items fields s f g =
      Within-option _ (consume b'}' rest) _ _
        (λ after e.
          let l = length-consume b'}' rest after e in
          let room = s.1 in
          record { less = omega arith; shallow = omega (arith, s.0); distinct = tt })
        (λ e. g rest s.0 s.1)
  value_of-Within depth n (opens_array rest) items fields s f g =
      Within-option _ (consume b']' rest) _ _
        (λ after e.
          let l = length-consume b']' rest after e in
          let room = s.1 in
          record { less = omega arith; shallow = omega (arith, s.0); distinct = tt })
        (λ e. f rest s.0 s.1)
  value_of-Within depth n (opens_string rest) items fields s f g =
      Within-bind (λ (t, left). length left < length rest) _ (parse_string rest) _
        (parse_string-Within rest)
        λ (t, left) l.
          let room = s.1 in
          record { less = omega arith; shallow = omega (arith, s.0); distinct = tt }
  value_of-Within depth n (opens_plain text) items fields s f g =
      parse_plain-Within depth n text s.0 s.1

  mutual
    unfolding parse_value Pushed Written

    parse_value-Within :
        (f depth : ℕ) (ts : Bytes)
        → 2 * length ts < f
        → Within (Read depth (length ts)) (parse_value c f depth ts)
    parse_value-Within zero depth ts h = absurd (omega arith)
    parse_value-Within (suc f) depth ts h =
        value_of-Within depth (length ts) (look depth ts) _ _ (look-InStart depth ts)
          (λ rest low l.
            Read-weaken depth _ _ _ (omega arith)
              (parse_items-Within f depth no_items rest (omega arith) (omega arith) tt))
          (λ rest low l.
            Read-weaken depth _ _ _ (omega arith)
              (parse_fields-Within f depth no_fields rest (omega arith) (omega arith) tt))

    parse_items-Within :
        (f depth : ℕ) (acc : Items D) (ts : Bytes)
        → suc (2 * length ts) < f
        → depth + height_items acc ≤ 32
        → AllDistinct acc
        → Within (Read depth (length ts)) (parse_items c f depth acc ts)
    parse_items-Within zero depth acc ts h low all = absurd (omega arith)
    parse_items-Within (suc f) depth acc ts h low all =
        Within-bind _ _ (parse_value c f (suc depth) ts) _
          (parse_value-Within f (suc depth) ts (omega arith))
          λ (v, rest) r.
            let (fits, distinct) = push_back-Pushed depth acc v low all r.shallow r.distinct in
            Within-option _ (consume b',' rest) _ _
              (λ more e.
                let l = length-consume b',' rest more e in
                Read-weaken depth _ _ _ (omega arith)
                  (parse_items-Within f depth (push_back acc v) more (omega arith) fits distinct))
              (λ e.
                Within-bind _ _ (expect b']' rest) _ (expect-Within b']' rest)
                  λ after l. record { less = omega arith; shallow = fits; distinct = distinct })

    parse_fields-Within :
        (f depth : ℕ) (acc : Fields D) (ts : Bytes)
        → suc (2 * length ts) < f
        → depth + height_fields acc ≤ 32
        → DistinctFields acc
        → Within (Read depth (length ts)) (parse_fields c f depth acc ts)
    parse_fields-Within zero depth acc ts h low all = absurd (omega arith)
    parse_fields-Within (suc f) depth acc ts h low all =
        let spaces = length-skip_space ts in
        Within-bind _ _ (quoted (skip_space ts)) _ (quoted-Within (skip_space ts))
          λ (key, after_key) k.
            Within-bind _ _ (expect b':' after_key) _ (expect-Within b':' after_key) λ text t.
              Within-bind _ _ (parse_value c f (suc depth) text) _
                (parse_value-Within f (suc depth) text (omega arith))
                λ (v, rest) r.
                  let (fits, distinct) =
                    set_field-Written depth key v acc low all r.shallow r.distinct in
                  Within-option _ (consume b',' rest) _ _
                    (λ more e.
                      let l = length-consume b',' rest more e in
                      Read-weaken depth _ _ _ (omega arith) (
                        parse_fields-Within f depth (set_field key v acc) more (omega arith) fits
                          distinct))
                    (λ e.
                      Within-bind _ _ (expect b'}' rest) _ (expect-Within b'}' rest) λ after l.
                        record { less = omega arith; shallow = fits; distinct = distinct })

  Accepted : Value D → Type 0
  Accepted v = (height v ≤ 32) × Distinct v

  finish-Within :
      (n : ℕ) (v : Value D) (rest : Bytes)
      → Read 0 n (v, rest)
      → (left : Bytes) → Within Accepted (finish c (v, left))
  unfolding Accepted
  finish-Within n v rest r [] = (omega (arith, r.shallow), r.distinct)
  finish-Within n v rest r (b ∷ left) = tt

  parse-Within : (ts : Bytes) → Within Accepted (parse c ts)
  unfolding parse
  parse-Within ts =
      Within-bind _ _ (parse_value c (2 * length ts + 1) 0 ts) _
        (parse_value-Within (2 * length ts + 1) 0 ts (omega arith))
        λ (v, rest) r. finish-Within (length ts) v rest r (skip_space rest)

  -- The parser comes to an end on every text: the fuel that it is given, twice the length of the text
  -- and one, never runs out.
  pub parse_terminates : (ts : Bytes) → parse c ts ≢ out_of_fuel
  parse_terminates ts e = rw e at (parse-Within ts)

  -- A value that the parser accepts nests arrays and objects that are not empty at most 32 deep, and no
  -- object in it has the same key twice.
  pub parse_bounds : (ts : Bytes) (v : Value D) → parse c ts ≡ ok v → (height v ≤ 32) × Distinct v
  unfolding Accepted
  parse_bounds ts v e = rw e at (parse-Within ts)
