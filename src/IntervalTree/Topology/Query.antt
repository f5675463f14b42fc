-- ===== src/IntervalTree/Topology/Query.antt =====
-- include/dmn-interval-btree.hpp: the topology of a range against the whole tree.
use dmn.Prelude.{
  ℕ, ◌≤◌, ◌≡◌, refl, ap, ◌∙◌, Bool, true, inl, inr, List, [], ◌∷◌, Option, arith, Bool-cases, ◌↔◌,
}
use dmn.IntervalTree.{
  Range, overlaps, is_valid, Entry, Node, value, pairs, entries_of, find_overlapping,
}
use dmn.IntervalTree.Queries.{overlapping, RootBounded, find_overlapping-has_overlap}
use dmn.IntervalTree.Topology.{
  fully_covered, last_end, classify_topology, TopologyResult, ranges, no_higher, of_entries,
  query_topology,
}
use dmn.IntervalTree.Topology.Ranges.{Covered, AllOverlap}
use dmn.IntervalTree.Topology.Coverage.{classify_topology_iff}

overlaps-sym : (a b : Range) → overlaps a b ≡ true → overlaps b a ≡ true
overlaps-sym a b h = ground arith

module _ {T : Type 0} where
  overlapping-AllOverlap :
      (r : Range) (l : List (Entry T)) → AllOverlap r (ranges (pairs (overlapping r l)))
  overlapping-AllOverlap r [] = tt
  overlapping-AllOverlap r (x ∷ l) = elim (Bool-cases (overlaps x.range r)) [
    | inl hit ↦ rw hit (overlaps-sym x.range r hit, overlapping-AllOverlap r l)
    | inr miss ↦ rw miss (overlapping-AllOverlap r l)
  ]

  overlapping-Covered :
      (p : ℕ) (r : Range) (l : List (Entry T))
      → Covered p (ranges (pairs (overlapping r l)))
      → Covered p (ranges (pairs l))
  overlapping-Covered p r [] h = h
  overlapping-Covered p r (x ∷ l) h = elim (Bool-cases (overlaps x.range r)) [
    | inl hit ↦ elim (rw hit at h) [
      | inl here ↦ inl here
      | inr more ↦ inr (overlapping-Covered p r l more)
    ]
    | inr miss ↦ inr (overlapping-Covered p r l (rw miss at h))
  ]

  -- An entry that holds a point of the range overlaps it.
  Covered-overlapping :
      (p : ℕ) (r : Range) (l : List (Entry T))
      → r.start ≤ p
      → p ≤ r.end
      → Covered p (ranges (pairs l))
      → Covered p (ranges (pairs (overlapping r l)))
  Covered-overlapping p r [] low high h = h
  Covered-overlapping p r (x ∷ l) low high (inl h) =
      let hit : overlaps x.range r ≡ true = ground (arith, h.0, h.1) in rw hit (inl h)
  Covered-overlapping p r (x ∷ l) low high (inr h) = elim (Bool-cases (overlaps x.range r)) [
    | inl hit ↦ rw hit (inr (Covered-overlapping p r l low high h))
    | inr miss ↦ rw miss (Covered-overlapping p r l low high h)
  ]

  -- The topology of a valid range is a result, whose entries are those that overlap the range and which says
  -- fully covered exactly when each point of the range lies in an entry of the tree, provided that the
  -- stored maxima bound the ends below them.
  pub query_topology_iff :
      (priority : Option (T → T → Bool)) (root : Option (Node T)) (r : Range) (v : T)
      → RootBounded root
      → is_valid r ≡ true
      → r.end ≤ last_end
      → (q : TopologyResult T) × (query_topology priority root r v ≡ value q)
        × (q.overlapping_entries ≡ pairs (overlapping r (entries_of root)))
        × ((q.status ≡ fully_covered)
            ↔ ((p : ℕ) → r.start ≤ p → p ≤ r.end → Covered p (ranges (pairs (entries_of root)))))
  unfolding query_topology
  query_topology_iff priority root r v b valid small =
      let all = entries_of root in
      let entries = pairs (overlapping r all) in
      let found : find_overlapping root r ≡ value entries =
        (find_overlapping-has_overlap root r b).0 ∙ rw valid refl in
      let (cover, full) =
        classify_topology_iff r (ranges entries) valid small (overlapping-AllOverlap r all) in
      (
        record {
          status = classify_topology r (ranges entries);
          is_top = no_higher priority v entries;
          overlapping_entries = entries;
        },
        rw valid (ap (of_entries priority r v) found),
        refl,
        (
          λ h p low high. overlapping-Covered p r all (cover h p low high),
          λ h. full (λ p low high. Covered-overlapping p r all low high (h p low high)),
        ),
      )
