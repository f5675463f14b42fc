-- ===== src/IntervalTree/Topology/Coverage.antt =====
-- include/dmn-interval-btree.hpp: when a range is fully covered.
use dmn.Prelude.{
  ℕ, ◌+◌, ◌≤◌, ◌<◌, ◌≡◌, refl, sym, ap, ◌∙◌, Bool, true, false, ◌&&◌, inl, inr, List, [], ◌∷◌, ltb,
  leb, ◌==◌, ==_iff, max, if◌then◌else◌, arith, Bool-cases, ◌↔◌,
}
use dmn.IntervalTree.{Range, is_valid}
use dmn.IntervalTree.Topology.{
  OverlayTopology, clear, overlaid_left, overlaid_right, overlaid_both, fully_covered,
  covering_existing, last_end, clip_all, sort, gap, scan, least_start, greatest_end,
  has_contained_range, partial, by_coverage, by_sorted, classify_topology,
}
use dmn.IntervalTree.Topology.Ranges.{
  Covered, Covered-sort, Covered-clip_all, Ascending, sort-Ascending, AllIn, AllOverlap, sort-AllIn,
  clip_all-Covered, Covered-first,
}

either_false : (b : Bool) → (if b then false else false) ≡ false
either_false true = refl
either_false false = refl

scan_broken : (l : List Range) (c : ℕ) → (scan l c false).1 ≡ false
scan_broken [] c = refl
scan_broken (n ∷ l) c =
    ap (λ b. (scan l (max c n.end) b).1) (either_false (gap c n)) ∙ scan_broken l (max c n.end)

scan-continuous : (l : List Range) (c : ℕ) (b : Bool) → (scan l c b).1 ≡ true → b ≡ true
scan-continuous l c true h = refl
scan-continuous l c false h = sym (scan_broken l c) ∙ h

-- Where no gap was met, the points behind the covered end are covered.
scan-Covered :
    (l : List Range) (c : ℕ) (b : Bool) (p : ℕ)
    → (scan l c b).1 ≡ true
    → c < p
    → p ≤ (scan l c b).0
    → p ≤ last_end
    → Covered p l
scan-Covered [] c b p h more in_ small = absurd (omega arith)
scan-Covered (n ∷ l) c b p h more in_ small = elim (Bool-cases (gap c n)) [
  | inl broken ↦
      let stop = scan-continuous l (max c n.end) (if gap c n then false else b) h in
      let none_ : false ≡ true = rw broken at stop in cc
  | inr joined ↦ elim (Bool-cases (leb p n.end)) [
    | inl here ↦ inl (ground arith, ground arith)
    | inr beyond ↦
        inr
          (scan-Covered l (max c n.end) (if gap c n then false else b) p h (ground arith) in_ small)
  ]
]

abbrev is_full : OverlayTopology → Bool
is_full fully_covered = true
is_full _ = false

only_partial :
    (contained left right : Bool)
    → is_full (
        if contained
        then covering_existing
        else if left && right
        then overlaid_both
        else if left
        then overlaid_left
        else if right
        then overlaid_right
        else clear)
      ≡ false
only_partial true left right = refl
only_partial false true true = refl
only_partial false true false = refl
only_partial false false true = refl
only_partial false false false = refl

partial-is_full :
    (r o : Range) (os : List Range) (left right : Bool)
    → is_full (partial r o os left right) ≡ false
partial-is_full r o os left right =
    only_partial
      (has_contained_range r (o ∷ os)
        && (ltb r.start (least_start o.start (o ∷ os)) && ltb (greatest_end o.end (o ∷ os)) r.end))
      left right

by_coverage-is_full :
    (r o : Range) (os : List Range) (left : Bool) (reached : ℕ × Bool)
    → is_full (by_coverage r o os left reached) ≡ true
    → (reached.1 ≡ true) × (reached.0 ≡ r.end)
by_coverage-is_full r o os left (e, continuous) h = elim (Bool-cases (continuous && (e == r.end))) [
  | inl both ↦ (ground arith, ground arith)
  | inr part ↦
      let partly = rw part at h in
      let clash : false ≡ true = sym (partial-is_full r o os left (e == r.end)) ∙ partly in cc
]

by_sorted-Covered :
    (r o : Range) (os l : List Range) (p : ℕ)
    → is_full (by_sorted r o os l) ≡ true
    → r.start ≤ p
    → p ≤ r.end
    → r.end ≤ last_end
    → Covered p l
by_sorted-Covered r o os [] p h low high small = cc
by_sorted-Covered r o os (front ∷ l) p h low high small =
    let reached = scan l front.end (front.start == r.start) in
    let (joined, ends) = by_coverage-is_full r o os (front.start == r.start) reached h in
    let left = scan-continuous l front.end (front.start == r.start) joined in
    let starts = (==_iff front.start r.start).0 left in
    elim (Bool-cases (leb p front.end)) [
      | inl here ↦ inl (omega (arith, starts), ground arith)
      | inr beyond ↦ inr (
          scan-Covered l front.end (front.start == r.start) p joined (ground arith)
            (omega (arith, ends)) (omega arith))
    ]

classify_topology-Covered :
    (r : Range) (os : List Range) (p : ℕ)
    → classify_topology r os ≡ fully_covered
    → r.end ≤ last_end
    → r.start ≤ p
    → p ≤ r.end
    → Covered p os
unfolding classify_topology
classify_topology-Covered r [] p h small low high = let clash = ap is_full h in cc
classify_topology-Covered r (o ∷ os) p h small low high = Covered-clip_all p r (o ∷ os) (
    Covered-sort p (clip_all r (o ∷ os))
      (by_sorted-Covered r o os (sort (clip_all r (o ∷ os))) p (ap is_full h) low high small))

-- When all points behind the covered end are covered, the loop meets no gap and reaches the end.
scan-reaches :
    (r : Range) (l : List Range) (c : ℕ)
    → Ascending l
    → AllIn r l
    → c ≤ r.end
    → ((p : ℕ) → c < p → p ≤ r.end → Covered p l)
    → scan l c true ≡ (r.end, true)
scan-reaches r [] c a within le all = elim (Bool-cases (ltb c r.end)) [
  | inl less ↦ let stop : false ≡ true = all (c + 1) (omega arith) (ground arith) in cc
  | inr reached ↦ let same : c ≡ r.end = ground arith in ap (λ e. (e, true)) same
]
scan-reaches r (n ∷ l) c a within le all =
    let joined : gap c n ≡ false = elim (Bool-cases (ltb c r.end)) [
      | inl less ↦
          let next = Covered-first (c + 1) n l a (all (c + 1) (omega arith) (ground arith)) in
          ground (arith, next)
      | inr reached ↦ ground (arith, within.1, within.2)
    ] in
    ap (λ b. scan l (max c n.end) (if b then false else true)) joined
    ∙ scan-reaches r l (max c n.end) a.1 within.3 (omega (arith, within.2)) (λ p more in_.
      elim (all p (omega arith) in_) [
        | inl here ↦ absurd (omega (arith, here.1))
        | inr later ↦ later
      ])

by_sorted_full :
    (r o : Range) (os l : List Range)
    → r.start ≤ r.end
    → Ascending l
    → AllIn r l
    → ((p : ℕ) → r.start ≤ p → p ≤ r.end → Covered p l)
    → by_sorted r o os l ≡ fully_covered
by_sorted_full r o os [] v a within all =
    let stop : false ≡ true = all r.start (omega arith) v in cc
by_sorted_full r o os (front ∷ l) v a within all =
    let first = Covered-first r.start front l a (all r.start (omega arith) v) in
    let left : (front.start == r.start) ≡ true =
      (==_iff front.start r.start).1 (omega (arith, first, within.0)) in
    let reached = scan-reaches r l front.end a.1 within.3 within.2 (λ p more in_.
      elim (all p (omega (arith, within.0, within.1)) in_) [
        | inl here ↦ absurd (omega (arith, here.1))
        | inr later ↦ later
      ]) in
    let ends : (r.end == r.end) ≡ true = (==_iff r.end r.end).1 refl in
    ap (λ b. by_coverage r o os b (scan l front.end b)) left
    ∙ ap (by_coverage r o os true) reached
    ∙ rw ends refl

classify_topology_full :
    (r : Range) (os : List Range)
    → is_valid r ≡ true
    → AllOverlap r os
    → ((p : ℕ) → r.start ≤ p → p ≤ r.end → Covered p os)
    → classify_topology r os ≡ fully_covered
unfolding classify_topology
classify_topology_full r [] v over all =
    let stop : false ≡ true = all r.start (omega arith) (ground arith) in cc
classify_topology_full r (o ∷ os) v over all =
    by_sorted_full r o os (sort (clip_all r (o ∷ os))) (ground arith)
      (sort-Ascending (clip_all r (o ∷ os))) (sort-AllIn r (o ∷ os) over)
      (λ p low high. clip_all-Covered p r (o ∷ os) low high (all p low high))

-- For the ranges that overlap a range, it is classified as fully covered exactly when each of its points
-- lies in one of them.
pub classify_topology_iff :
    (r : Range) (os : List Range)
    → is_valid r ≡ true
    → r.end ≤ last_end
    → AllOverlap r os
    → (classify_topology r os ≡ fully_covered) ↔ ((p : ℕ) → r.start ≤ p → p ≤ r.end → Covered p os)
classify_topology_iff r os v small over = (
  λ full p low high. classify_topology-Covered r os p full small low high,
  λ all. classify_topology_full r os v over all,
)
