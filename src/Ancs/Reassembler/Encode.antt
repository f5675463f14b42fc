-- ===== src/Ancs/Reassembler/Encode.antt =====
-- The Data Source response as Apple's specification lays it out, and that `consume` reads it back.
use dmn.Prelude.{
  ℕ, suc, ◌/◌, ◌%◌, ◌≤◌, ◌<◌, ◌≡◌, refl, ap, ◌∙◌, true, false, some, List, [], ◌∷◌, ◌++◌, ltb, ◌==◌,
  length, get_or, take, drop, arith, length-append,
}
use dmn.Ancs.{
  value, AttributeSet, no_attributes, is_valid_utf8, assign_attribute, requested_attribute_ids,
  maximum_attribute_sizes, read_uint16, read_uint32,
}
use dmn.Ancs.Reassembler.{
  Progress, whole, more, new, advance, expected, tuple_round, round, loop, parse, header, consume,
}
use dmn.Ancs.Reassembler.Loop.{loop_fuel}

abbrev pub uint32_bytes : ℕ → List ℕ
uint32_bytes n = n % 256 ∷ n / 256 % 256 ∷ n / 65536 % 256 ∷ n / 16777216 % 256 ∷ []

abbrev pub attribute : ℕ → List ℕ → List ℕ
attribute id bytes = id ∷ length bytes % 256 ∷ length bytes / 256 ∷ bytes

read-uint32_bytes :
    (n : ℕ) (xs : List ℕ) → n < 4294967296 → read_uint32 (0 ∷ uint32_bytes n ++ xs) 1 ≡ n
read-uint32_bytes n xs h = omega arith

read-length : (n : ℕ) → read_uint16 (n % 256) (n / 256) ≡ n
read-length n = omega arith

take-length : (xs ys : List ℕ) → take (length xs) (xs ++ ys) ≡ xs
take-length [] ys = refl
take-length (x ∷ xs) ys = ap (◌∷◌ x) (take-length xs ys)

drop-length : (xs ys : List ℕ) → drop (length xs) (xs ++ ys) ≡ ys
drop-length [] ys = refl
drop-length (x ∷ xs) ys = drop-length xs ys

-- A value that the parser accepts at position `i`.
pub record Accepted (i : ℕ) (bytes : List ℕ) : Type 0 where
  pub valid : is_valid_utf8 bytes ≡ true
  pub fits : length bytes ≤ get_or maximum_attribute_sizes i 0

round-attribute :
    (p : Progress) (bytes rest : List ℕ)
    → p.index < 5
    → Accepted p.index bytes
    → round p (attribute (get_or requested_attribute_ids p.index 0) bytes ++ rest)
      ≡ more (advance p bytes) rest
unfolding round tuple_round expected
round-attribute p bytes rest lt ok =
    let n = length bytes in
    let open_ : ltb p.index 5 ≡ true = ground arith in
    let same : (get_or requested_attribute_ids p.index 0
          == get_or requested_attribute_ids p.index 0)
        ≡ true =
      ground arith in
    let small : ltb (get_or maximum_attribute_sizes p.index 0) n ≡ false =
      ground (arith, ok.fits) in
    let there : ltb (length (bytes ++ rest)) n ≡ false = ground (arith, length-append bytes rest) in
    simp (
      open_,
      same,
      read-length n,
      small,
      there,
      take-length bytes rest,
      drop-length bytes rest,
      ok.valid,
    )

parse-attribute :
    (p : Progress) (bytes rest : List ℕ)
    → p.index < 5
    → Accepted p.index bytes
    → parse p (attribute (get_or requested_attribute_ids p.index 0) bytes ++ rest)
      ≡ parse (advance p bytes) rest
unfolding parse loop
parse-attribute p bytes rest lt ok =
    let len = length-append bytes rest in
    rw (round-attribute p bytes rest lt ok) (
      loop_fuel (length (attribute (get_or requested_attribute_ids p.index 0) bytes ++ rest))
        (suc (length rest)) (advance p bytes) rest (omega (arith, len)) (omega arith))

abbrev at_index : ℕ → AttributeSet → Progress
at_index i a = record { index = i; attributes = a }

parse-end : (a : AttributeSet) → parse (at_index 5 a) [] ≡ whole (at_index 5 a)
unfolding parse loop round
parse-end a = refl

module _ (uid : ℕ) (app title subtitle message date : List ℕ) where
  abbrev pub tuples : List ℕ
  tuples =
      attribute 0 app
      ++ (attribute 1 title
          ++ (attribute 2 subtitle ++ (attribute 3 message ++ (attribute 5 date ++ []))))

  abbrev pub response : List ℕ
  response = 0 ∷ uint32_bytes uid ++ tuples

  abbrev pub all_attributes : AttributeSet
  all_attributes = record {
    app_identifier = some app;
    title = some title;
    subtitle = some subtitle;
    message = some message;
    date = some date;
  }

  parse-tuples :
      Accepted 0 app
      → Accepted 1 title
      → Accepted 2 subtitle
      → Accepted 3 message
      → Accepted 4 date
      → parse (at_index 0 no_attributes) tuples ≡ whole (at_index 5 all_attributes)
  unfolding advance assign_attribute
  parse-tuples a t s m d =
      parse-attribute (at_index 0 no_attributes) app _ (omega arith) a
      ∙ parse-attribute (at_index 1 _) title _ (omega arith) t
      ∙ parse-attribute (at_index 2 _) subtitle _ (omega arith) s
      ∙ parse-attribute (at_index 3 _) message _ (omega arith) m
      ∙ parse-attribute (at_index 4 _) date _ (omega arith) d
      ∙ parse-end _

  length-response :
      length app ≤ 255
      → length title ≤ 256
      → length subtitle ≤ 256
      → length message ≤ 4096
      → length date ≤ 64
      → length response ≤ 8192
  length-response a t s m d = omega (
    arith,
    length-append app (
        attribute 1 title
        ++ (attribute 2 subtitle ++ (attribute 3 message ++ (attribute 5 date ++ [])))),
    length-append title (attribute 2 subtitle ++ (attribute 3 message ++ (attribute 5 date ++ []))),
    length-append subtitle (attribute 3 message ++ (attribute 5 date ++ [])),
    length-append message (attribute 5 date ++ []),
    length-append date [],
  )

  -- A response with the five requested attributes in their order, each within its size limit and
  -- valid UTF-8, for the expected 32-bit UID, is read back: `consume` completes with those attributes.
  pub consume-response :
      uid < 4294967296
      → Accepted 0 app
      → Accepted 1 title
      → Accepted 2 subtitle
      → Accepted 3 message
      → Accepted 4 date
      → (consume (new uid) response).1 ≡ value (some all_attributes)
  unfolding consume header new
  consume-response h a t s m d =
      let short : ltb 8192 (length response) ≡ false =
        ground (arith, length-response a.fits t.fits s.fits m.fits d.fits) in
      let uid_same : (read_uint32 response 1 == uid) ≡ true =
        ground (arith, read-uint32_bytes uid tuples h) in
      let headed : ltb (length response) 5 ≡ false = ground arith in
      simp (short, headed, uid_same, parse-tuples a t s m d)
