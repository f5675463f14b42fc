-- ===== src/IntervalTree/Topology/Ranges.antt =====
-- include/dmn-interval-btree.hpp: ranges that are clipped and sorted.
use dmn.Prelude.{ℕ, ◌≤◌, ◌≡◌, true, false, ◌⊎◌, inl, inr, List, [], ◌∷◌, arith, Bool-cases}
use dmn.IntervalTree.{Range, overlaps}
use dmn.IntervalTree.Insert.{default_range_less}
use dmn.IntervalTree.Topology.{clip, clip_all, put, sort}

abbrev pub Holds : ℕ → Range → Type 0
Holds p o = (o.start ≤ p) × (p ≤ o.end)

-- Some range of the list holds the point.
abbrev pub Covered : ℕ → List Range → Type 0
Covered p [] = false ≡ true
Covered p (o ∷ os) = Holds p o ⊎ Covered p os

pub Covered-put :
    (p : ℕ) (x : Range) (l : List Range) → Covered p (put x l) → Holds p x ⊎ Covered p l
Covered-put p x [] h = h
Covered-put p x (y ∷ l) h = elim (Bool-cases (default_range_less y x)) [
  | inl later ↦ elim (rw later at h) [
    | inl here ↦ inr (inl here)
    | inr more ↦ elim (Covered-put p x l more) [ inl found ↦ inl found | inr rest ↦ inr (inr rest) ]
  ]
  | inr first ↦ rw first at h
]

pub Covered-sort : (p : ℕ) (l : List Range) → Covered p (sort l) → Covered p l
Covered-sort p [] h = h
Covered-sort p (x ∷ l) h = elim (Covered-put p x (sort l) h) [
  | inl here ↦ inl here
  | inr more ↦ inr (Covered-sort p l more)
]

pub Covered-clip_all :
    (p : ℕ) (r : Range) (os : List Range) → Covered p (clip_all r os) → Covered p os
Covered-clip_all p r [] h = h
Covered-clip_all p r (o ∷ os) (inl h) = inl (omega (arith, h.0), omega (arith, h.1))
Covered-clip_all p r (o ∷ os) (inr h) = inr (Covered-clip_all p r os h)

abbrev pub AllFrom : ℕ → List Range → Type 0
AllFrom s [] = Unit
AllFrom s (x ∷ l) = (s ≤ x.start) × AllFrom s l

-- The starts ascend.
abbrev pub Ascending : List Range → Type 0
Ascending [] = Unit
Ascending (x ∷ l) = AllFrom x.start l × Ascending l

pub AllFrom-mono : (m n : ℕ) (l : List Range) → m ≤ n → AllFrom n l → AllFrom m l
AllFrom-mono m n [] h a = tt
AllFrom-mono m n (x ∷ l) h a = (omega (arith, a.0), AllFrom-mono m n l h a.1)

pub AllFrom-put :
    (s : ℕ) (x : Range) (l : List Range) → s ≤ x.start → AllFrom s l → AllFrom s (put x l)
AllFrom-put s x [] h a = (h, tt)
AllFrom-put s x (y ∷ l) h a = elim (Bool-cases (default_range_less y x)) [
  | inl later ↦ rw later (a.0, AllFrom-put s x l h a.1)
  | inr first ↦ rw first (h, a)
]

pub put-Ascending : (x : Range) (l : List Range) → Ascending l → Ascending (put x l)
put-Ascending x [] a = (tt, tt)
put-Ascending x (y ∷ l) a = elim (Bool-cases (default_range_less y x)) [
  | inl later ↦ rw later (AllFrom-put y.start x l (ground arith) a.0, put-Ascending x l a.1)
  | inr first ↦
      let before : x.start ≤ y.start = ground arith in
      rw first ((before, AllFrom-mono x.start y.start l before a.0), a)
]

pub sort-Ascending : (l : List Range) → Ascending (sort l)
sort-Ascending [] = tt
sort-Ascending (x ∷ l) = put-Ascending x (sort l) (sort-Ascending l)

-- The ranges start and end in a range.
abbrev pub AllIn : Range → List Range → Type 0
AllIn r [] = Unit
AllIn r (x ∷ l) = (r.start ≤ x.start) × (x.start ≤ x.end) × (x.end ≤ r.end) × AllIn r l

pub put-AllIn :
    (r x : Range) (l : List Range)
    → r.start ≤ x.start
    → x.start ≤ x.end
    → x.end ≤ r.end
    → AllIn r l
    → AllIn r (put x l)
put-AllIn r x [] a b c h = (a, b, c, tt)
put-AllIn r x (y ∷ l) a b c h = elim (Bool-cases (default_range_less y x)) [
  | inl later ↦ rw later (h.0, h.1, h.2, put-AllIn r x l a b c h.3)
  | inr first ↦ rw first (a, b, c, h)
]

-- Each of the ranges overlaps the one classified.
abbrev pub AllOverlap : Range → List Range → Type 0
AllOverlap r [] = Unit
AllOverlap r (o ∷ os) = (overlaps r o ≡ true) × AllOverlap r os

pub sort-AllIn : (r : Range) (os : List Range) → AllOverlap r os → AllIn r (sort (clip_all r os))
sort-AllIn r [] h = tt
sort-AllIn r (o ∷ os) h =
    put-AllIn r (clip r o) (sort (clip_all r os)) (omega arith) (ground (arith, h.0)) (omega arith)
      (sort-AllIn r os h.1)

pub put-Covered :
    (p : ℕ) (x : Range) (l : List Range) → Holds p x ⊎ Covered p l → Covered p (put x l)
put-Covered p x [] h = h
put-Covered p x (y ∷ l) h = elim (Bool-cases (default_range_less y x)) [
  | inl later ↦ rw later (elim h [
    | inl here ↦ inr (put-Covered p x l (inl here))
    | inr (inl second) ↦ inl second
    | inr (inr more) ↦ inr (put-Covered p x l (inr more))
  ])
  | inr first ↦ rw first h
]

pub clip_all-Covered :
    (p : ℕ) (r : Range) (os : List Range)
    → r.start ≤ p
    → p ≤ r.end
    → Covered p os
    → Covered p (sort (clip_all r os))
clip_all-Covered p r [] low high h = h
clip_all-Covered p r (o ∷ os) low high (inl h) =
    put-Covered p (clip r o) (sort (clip_all r os)) (inl (omega (arith, h.0), omega (arith, h.1)))
clip_all-Covered p r (o ∷ os) low high (inr h) =
    put-Covered p (clip r o) (sort (clip_all r os)) (inr (clip_all-Covered p r os low high h))

pub Covered-AllFrom : (p s : ℕ) (l : List Range) → AllFrom s l → Covered p l → s ≤ p
Covered-AllFrom p s [] a h = cc
Covered-AllFrom p s (x ∷ l) a (inl h) = omega (arith, a.0, h.0)
Covered-AllFrom p s (x ∷ l) a (inr h) = Covered-AllFrom p s l a.1 h

pub Covered-first :
    (p : ℕ) (x : Range) (l : List Range) → Ascending (x ∷ l) → Covered p (x ∷ l) → x.start ≤ p
Covered-first p x l a (inl h) = h.0
Covered-first p x l a (inr h) = Covered-AllFrom p x.start l a.0 h
