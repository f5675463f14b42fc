-- ===== src/Json/Numbers.antt =====
-- src/app/engine/dmn-json.cpp: what is asked of the C library's printing and reading of a `double`, and
-- how the parser finds a printed number, by its first byte.
use dmn.Prelude.{
  ℕ, ◌≡◌, refl, ap, ◌∙◌, Bool, true, false, not, ◌||◌, [], ◌∷◌, ◌++◌, Option, none, ◌==◌,
  if◌then◌else◌, length, Bool-cases, inl, inr, ==_iff,
}
use dmn.Json.{Bytes, Value, null, bool, number}
use dmn.Json.Text.{Result, ok, failed}
use dmn.Json.Dump.{Numbers}
use dmn.Json.Parse.{
  literal, in_number, span_number, number_token, read_number, parse_number, or_else, parse_plain,
}

abbrev pub AllInNumber : Bytes → Type 0
AllInNumber [] = Unit
AllInNumber (b ∷ ts) = (in_number b ≡ true) × AllInNumber ts

-- A text that `parseNumber` takes as a whole.
abbrev pub NumberText : Bytes → Type 0
NumberText [] = ⊥
NumberText (b ∷ ts) = AllInNumber (b ∷ ts)

-- What the C standard says of "%lld" on a whole number, of "%.17g" on a finite `double`, which has
-- digits, a sign, a point and an exponent and determines the `double`, and of `strtod` on such a text.
-- The sign of a zero is lost by the cast to an integer.
pub record IsDocumented {D : Type 0} (c : Numbers D) (negative_zero : D → Bool) : Type 0 where
  pub whole_text :
      (d : D) → c.is_finite d ≡ true → c.is_whole d ≡ true → NumberText (c.print_whole d)
  pub text_17 : (d : D) → c.is_finite d ≡ true → c.is_whole d ≡ false → NumberText (c.print_17 d)
  pub whole_read :
      (d : D)
      → c.is_finite d ≡ true
      → c.is_whole d ≡ true
      → negative_zero d ≡ false
      → c.strtod (c.print_whole d) ≡ (d, length (c.print_whole d))
  pub read_17 :
      (d : D)
      → c.is_finite d ≡ true
      → c.is_whole d ≡ false
      → c.strtod (c.print_17 d) ≡ (d, length (c.print_17 d))

-- What follows a number in a text does not go on with it.
abbrev pub Stops : Bytes → Type 0
Stops [] = Unit
Stops (b ∷ ts) = in_number b ≡ false

span_number-Stops : (rest : Bytes) → Stops rest → span_number rest ≡ ([], rest)
unfolding span_number
span_number-Stops [] s = refl
span_number-Stops (b ∷ rest) s = simp s

span_number-append :
    (ts rest : Bytes) → AllInNumber ts → Stops rest → span_number (ts ++ rest) ≡ (ts, rest)
unfolding span_number
span_number-append [] rest a s = span_number-Stops rest s
span_number-append (b ∷ ts) rest a s = simp (a.0, span_number-append ts rest a.1 s)

number_token-append :
    (b : ℕ) (ts rest : Bytes)
    → AllInNumber (b ∷ ts)
    → Stops rest
    → number_token (b ∷ (ts ++ rest)) ≡ (b ∷ ts, rest)
unfolding number_token
number_token-append b ts rest a s =
    let tail_ = span_number-append ts rest a.1 s in
    let whole = span_number-append (b ∷ ts) rest a s in
    elim (Bool-cases (b == b'-')) [
      | inl minus ↦ rw (minus, tail_) refl
      | inr other ↦
          ap
            (λ t.
              if t
              then (b ∷ (span_number (ts ++ rest)).0, (span_number (ts ++ rest)).1)
              else span_number (b ∷ (ts ++ rest)))
            other
          ∙ whole
    ]

-- No word begins with a byte of a number.
literal-number :
    (w b : ℕ) (word ts : Bytes)
    → in_number b ≡ true
    → in_number w ≡ false
    → literal (w ∷ word) (b ∷ ts) ≡ none
unfolding literal
literal-number w b word ts a o = elim (Bool-cases (b == w)) [
  | inl same ↦ let e = ap in_number ((==_iff b w).0 same) in cc
  | inr other ↦ simp other
]

module _ {D : Type 0} (c : Numbers D) where
  or_else-none :
      (o : Option Bytes) (v : Value D) (next : Result (Value D × Bytes))
      → o ≡ none
      → or_else c o v next ≡ next
  or_else-none o v next e = ap (λ k. or_else c k v next) e

  read_number-exact :
      (d : D) (b : ℕ) (ts rest : Bytes)
      → c.strtod (b ∷ ts) ≡ (d, length (b ∷ ts))
      → c.is_finite d ≡ true
      → read_number c (b ∷ ts, rest) ≡ ok (number d, rest)
  read_number-exact d b ts rest e fin =
      let whole = (==_iff (length (b ∷ ts)) (length (b ∷ ts))).1 refl in
      ap
        (λ r.
          if not (r.1 == length (b ∷ ts)) || not (c.is_finite r.0)
          then failed
          else ok (number r.0, rest))
        e
      ∙ simp (whole, fin)

  -- A printed number, before what does not go on with it, is read back.
  pub parse_plain-number :
      (d : D) (text rest : Bytes)
      → NumberText text
      → c.strtod text ≡ (d, length text)
      → c.is_finite d ≡ true
      → Stops rest
      → parse_plain c (text ++ rest) ≡ ok (number d, rest)
  unfolding parse_plain parse_number
  parse_plain-number d [] rest t e fin s = absurd t
  parse_plain-number d (b ∷ ts) rest t e fin s =
      let no_true = literal-number b't' b (b'r' ∷ b'u' ∷ b'e' ∷ []) (ts ++ rest) t.0 refl in
      let no_false = literal-number b'f' b (b'a' ∷ b'l' ∷ b's' ∷ b'e' ∷ []) (ts ++ rest) t.0 refl in
      let no_null = literal-number b'n' b (b'u' ∷ b'l' ∷ b'l' ∷ []) (ts ++ rest) t.0 refl in
      let token = number_token-append b ts rest t s in
      or_else-none _ (bool true) _ no_true
      ∙ or_else-none _ (bool false) _ no_false
      ∙ or_else-none _ null _ no_null
      ∙ ap (read_number c) token
      ∙ read_number-exact d b ts rest e fin
