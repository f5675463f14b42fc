-- ===== src/Ancs/Reassembler/Loop.antt =====
-- src/dmn-ancs-client.cpp: the loop of `consume` on a longer buffer.
use dmn.Prelude.{
  ℕ, zero, suc, ◌+◌, ◌≤◌, ◌<◌, ◌≡◌, ◌≢◌, refl, ap, true, false, some, List, [], ◌∷◌, ◌++◌, ltb,
  ◌==◌, if◌then◌else◌, length, get_or, take, arith, Bool-cases, inl, inr, length-append,
  length-drop, take-append, drop-append,
}
use dmn.Ancs.{
  read_uint16, protocol, requested_attribute_ids, maximum_attribute_sizes, is_requested_attribute,
  is_valid_utf8,
}
use dmn.Ancs.Reassembler.{
  Progress, LoopEnd, paused, broken, whole, Round, more, stop, go_on, is_nil, tuple, unrequested,
  expected, tuple_round, round, loop, parse,
}

-- What a round on `rest` says of the round on a longer buffer.
abbrev Extends : List ℕ → Progress → List ℕ → Round → Round → Type 0
Extends b p rest (more q behind) r = r ≡ more q (behind ++ b)
Extends b p rest (stop (paused q left)) r = (q ≡ p) × (left ≡ rest)
Extends b p rest (stop (broken kind fatal q)) r = r ≡ stop (broken kind fatal q)
Extends b p rest (stop (whole q)) r = r ≡ stop (broken protocol true q)

module _ (b : List ℕ) (p : Progress) (rest : List ℕ) where
  unrequested-Extends :
      (id len : ℕ) (body : List ℕ)
      → Extends b p rest
          (unrequested p rest id len body)
          (unrequested p (rest ++ b) id len (body ++ b))
  unfolding unrequested
  unrequested-Extends id len body = elim (Bool-cases (is_requested_attribute id)) [
    | inl known ↦ simp known
    | inr other ↦ elim (Bool-cases (ltb (length body) len)) [
      | inl short ↦ simp (other, short) (refl, refl)
      | inr long ↦
          let enough : ltb (length (body ++ b)) len ≡ false =
            ground (arith, length-append body b) in
          simp (other, long, enough) (ap (more p) (drop-append len body b (ground arith)))
    ]
  ]

  expected-Extends :
      (len : ℕ) (body : List ℕ)
      → Extends b p rest (expected p rest len body) (expected p (rest ++ b) len (body ++ b))
  unfolding expected
  expected-Extends len body =
      elim (Bool-cases (ltb (get_or maximum_attribute_sizes p.index 0) len)) [
        | inl large ↦ simp large
        | inr small ↦ elim (Bool-cases (ltb (length body) len)) [
          | inl short ↦ simp (small, short) (refl, refl)
          | inr long ↦
              let enough : ltb (length (body ++ b)) len ≡ false =
                ground (arith, length-append body b) in
              let fits : len ≤ length body = ground arith in
              elim (Bool-cases (is_valid_utf8 (take len body))) [
                | inl valid ↦ simp (
                  small,
                  long,
                  enough,
                  take-append len body b fits,
                  valid,
                  drop-append len body b fits,
                )
                | inr invalid ↦ simp (small, long, enough, take-append len body b fits, invalid)
              ]
        ]
      ]

  some_round-Extends :
      (id len : ℕ) (body : List ℕ)
      → Extends b p rest
          (tuple_round p rest (some (id, len, body)))
          (tuple_round p (rest ++ b) (some (id, len, body ++ b)))
  unfolding tuple_round
  some_round-Extends id len body =
      elim (Bool-cases (id == get_or requested_attribute_ids p.index 0)) [
        | inl same ↦ simp same (expected-Extends len body)
        | inr other ↦ simp other (unrequested-Extends id len body)
      ]

tuple_round-Extends :
    (b : List ℕ) (p : Progress) (rest : List ℕ)
    → Extends b p rest
        (tuple_round p rest (tuple rest))
        (tuple_round p (rest ++ b) (tuple (rest ++ b)))
unfolding tuple_round
tuple_round-Extends b p [] = (refl, refl)
tuple_round-Extends b p (x ∷ []) = (refl, refl)
tuple_round-Extends b p (x ∷ y ∷ []) = (refl, refl)
tuple_round-Extends b p (id ∷ low ∷ high ∷ body) =
    some_round-Extends b p (id ∷ low ∷ high ∷ body) id _ body

is_nil-ne : (b : List ℕ) → b ≢ [] → is_nil b ≡ false
is_nil-ne [] n = absurd (n refl)
is_nil-ne (x ∷ b) n = refl

abbrev closing : Progress → List ℕ → Round
closing p rest = if is_nil rest then stop (whole p) else stop (broken protocol true p)

closing-Extends :
    (b : List ℕ) (p : Progress) (rest : List ℕ)
    → b ≢ []
    → Extends b p rest (closing p rest) (closing p (rest ++ b))
closing-Extends b p [] n = simp (is_nil-ne b n)
closing-Extends b p (x ∷ rest) n = refl

round-Extends :
    (b : List ℕ) (p : Progress) (rest : List ℕ)
    → b ≢ []
    → Extends b p rest (round p rest) (round p (rest ++ b))
unfolding round
round-Extends b p rest n = elim (Bool-cases (ltb p.index 5)) [
  | inl open_ ↦ simp open_ (tuple_round-Extends b p rest)
  | inr full ↦ simp full (closing-Extends b p rest n)
]

abbrev Shrinks : List ℕ → Round → Type 0
Shrinks rest (more q behind) = length behind + 3 ≤ length rest
Shrinks rest (stop end) = Unit {0}

tuple_round-Shrinks :
    (p : Progress) (id low high : ℕ) (body : List ℕ)
    → Shrinks
        (id ∷ low ∷ high ∷ body)
        (tuple_round p (id ∷ low ∷ high ∷ body) (tuple (id ∷ low ∷ high ∷ body)))
unfolding tuple_round unrequested expected
tuple_round-Shrinks p id low high body = ground (arith, length-drop (read_uint16 low high) body)

round-Shrinks : (p : Progress) (rest : List ℕ) → Shrinks rest (round p rest)
unfolding round tuple_round
round-Shrinks p [] = ground arith
round-Shrinks p (x ∷ []) = ground arith
round-Shrinks p (x ∷ y ∷ []) = ground arith
round-Shrinks p (id ∷ low ∷ high ∷ body) = elim (Bool-cases (ltb p.index 5)) [
  | inl open_ ↦ simp open_ (tuple_round-Shrinks p id low high body)
  | inr full ↦ simp full tt
]

loop_from :
    (f g : ℕ) (rest : List ℕ) (r : Round)
    → Shrinks rest r
    → length rest < suc f
    → length rest < suc g
    → ((q : Progress) (behind : List ℕ)
        → length behind < f
        → length behind < g
        → loop f q behind ≡ loop g q behind)
    → go_on r (λ q behind. loop f q behind) ≡ go_on r (λ q behind. loop g q behind)
loop_from f g rest (more q behind) h lf lg ih = ih q behind (omega arith) (omega arith)
loop_from f g rest (stop end) h lf lg ih = refl

pub loop_fuel :
    (f g : ℕ) (p : Progress) (rest : List ℕ)
    → length rest < f
    → length rest < g
    → loop f p rest ≡ loop g p rest
unfolding loop
loop_fuel zero g p rest lf lg = absurd (omega arith)
loop_fuel (suc f) zero p rest lf lg = absurd (omega arith)
loop_fuel (suc f) (suc g) p rest lf lg =
    loop_from f g rest (round p rest) (round-Shrinks p rest) lf lg (loop_fuel f g)

-- What the end of the loop on `rest` says of the loop on a longer buffer.
abbrev pub EndExtends : List ℕ → LoopEnd → LoopEnd → Type 0
EndExtends b (paused q left) e = e ≡ parse q (left ++ b)
EndExtends b (broken kind fatal q) e = e ≡ broken kind fatal q
EndExtends b (whole q) e = e ≡ broken protocol true q

round_on :
    (f : ℕ) (b : List ℕ) (p : Progress) (rest : List ℕ) (r : Round)
    → Shrinks rest r
    → length rest < suc f
    → Extends b p rest r (round p (rest ++ b))
    → ((q : Progress) (behind : List ℕ)
        → length behind < f
        → EndExtends b (loop f q behind) (parse q (behind ++ b)))
    → EndExtends b (go_on r (λ q behind. loop f q behind)) (parse p (rest ++ b))
unfolding parse loop
round_on f b p rest (more q behind) h lf e ih =
    let left = length-append behind b in
    let all = length-append rest b in
    rw
      (
        e,
        loop_fuel (length (rest ++ b)) (suc (length (behind ++ b))) q (behind ++ b)
            (omega (arith, left, all)) (omega arith),
      )
      (ih q behind (omega arith))
round_on f b p rest (stop (paused q left)) h lf e ih = rw (e.0, e.1) refl
round_on f b p rest (stop (broken kind fatal q)) h lf e ih = rw e
round_on f b p rest (stop (whole q)) h lf e ih = rw e

loop-Extends :
    (f : ℕ) (b : List ℕ) (p : Progress) (rest : List ℕ)
    → b ≢ []
    → length rest < f
    → EndExtends b (loop f p rest) (parse p (rest ++ b))
unfolding loop
loop-Extends zero b p rest n lf = absurd (omega arith)
loop-Extends (suc f) b p rest n lf =
    round_on f b p rest (round p rest) (round-Shrinks p rest) lf (round-Extends b p rest n)
      (λ q behind lt. loop-Extends f b q behind n lt)

-- The loop on a longer buffer goes on where it broke, repeats an error, and rejects what follows the
-- last attribute.
pub parse-Extends :
    (b : List ℕ) (p : Progress) (rest : List ℕ)
    → b ≢ []
    → EndExtends b (parse p rest) (parse p (rest ++ b))
parse-Extends b p rest n = unfold parse in loop-Extends (suc (length rest)) b p rest n (omega arith)
