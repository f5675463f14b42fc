-- ===== src/IntervalTree/Tests.antt =====
-- include/dmn-interval-btree.hpp: a tree of ten intervals and its queries.
use dmn.Prelude.{
  ltb, ℕ, ◌≡◌, ◌≤◌, ◌↔◌, refl, Bool, true, false, ◌&&◌, List, [], ◌∷◌, Option, none, some, length,
  arith, if◌then◌else◌,
}
use dmn.IntervalTree.{
  Range, Node, node, no_nodes, Result, value, invalid_argument, has_overlap, find_overlapping,
  entries_of, pairs,
}
use dmn.IntervalTree.Queries.{overlapping, some_entry, RootBounded, find_overlapping-has_overlap}
use dmn.IntervalTree.Topology.{
  fully_covered, overlaid_both, covering_existing, classify_topology, TopologyResult, ranges,
  query_topology,
}
use dmn.IntervalTree.Topology.Ranges.{Covered}
use dmn.IntervalTree.Topology.Query.{query_topology_iff}
use dmn.IntervalTree.Insert.{depth, entry_less, Tree, empty_tree, add_all}
use dmn.IntervalTree.Insert.Sorted.Comparator.{IsStrictWeak}
use dmn.IntervalTree.Insert.Sorted.{Sorted}
use dmn.IntervalTree.Insert.Refine.{place_all, add_all-place_all}

abbrev range : ℕ → ℕ → Range
range a b = record { start = a; end = b }

abbrev items : List (Range × ℕ)
items =
    (range 5 8, 0)
    ∷ (range 1 9, 1)
    ∷ (range 3 3, 2)
    ∷ (range 7 9, 3)
    ∷ (range 2 4, 4)
    ∷ (range 6 6, 5)
    ∷ (range 8 12, 6)
    ∷ (range 5 8, 7)
    ∷ (range 0 1, 8)
    ∷ (range 4 20, 9)
    ∷ []

abbrev found : Result (Tree ℕ) → Range → Result (List (Range × ℕ))
found (value t) r = find_overlapping t.root r
found invalid_argument r = invalid_argument

abbrev any_found : Result (Tree ℕ) → Range → Bool
any_found (value t) r = has_overlap t.root r
any_found invalid_argument r = false

ten_found :
    found (add_all none items empty_tree) (range 10 11)
    ≡ value ((range 4 20, 9) ∷ (range 8 12, 6) ∷ [])
unfolding add_all find_overlapping
ten_found = refl

none_found : any_found (add_all none items empty_tree) (range 21 30) ≡ false
unfolding add_all has_overlap
none_found = refl

invalid_found : found (add_all none items empty_tree) (range 4 2) ≡ invalid_argument
unfolding add_all find_overlapping
invalid_found = refl

abbrev root_depth : Option (Node ℕ) → ℕ
root_depth none = 0
root_depth (some n) = depth n

abbrev depth_of : Result (Tree ℕ) → ℕ
depth_of (value t) = root_depth t.root
depth_of invalid_argument = 0

-- The root has been split once.
ten_deep : depth_of (add_all none items empty_tree) ≡ 2
unfolding add_all
ten_deep = refl

-- A comparator that puts the ranges that end last first.
abbrev later_end : Range → Range → Bool
later_end a b = ltb b.end a.end

later_end-IsStrictWeak : IsStrictWeak later_end
later_end-IsStrictWeak = record { asym = λ a b h. ground arith; weak = λ a b d h k. ground arith }

add_all-place_all_example :
    (t : Tree ℕ) × (add_all (some later_end) items empty_tree ≡ value t)
    × (entries_of t.root ≡ place_all (entry_less (some later_end)) 0 items [])
    × Sorted (entry_less (some later_end)) (entries_of t.root)
    × (t.size ≡ length (entries_of t.root))
    × RootBounded t.root
add_all-place_all_example =
    add_all-place_all (some later_end) items later_end-IsStrictWeak
      (refl, (refl, (refl, (refl, (refl, (refl, (refl, (refl, (refl, (refl, tt))))))))))
      (omega arith)

abbrev small : Option (Node ℕ)
small = some (
    node
      ((record { range = range 1 9; value = 1; ordinal = 1 })
        ∷ (record { range = range 5 8; value = 0; ordinal = 0 })
        ∷ [])
      no_nodes 9 true)

find_overlapping-has_overlap_example :
    (find_overlapping small (range 9 10) ≡ (
      if true
      then value (pairs (overlapping (range 9 10) (entries_of small)))
      else invalid_argument))
    × (has_overlap small (range 9 10)
        ≡ (true && some_entry (overlapping (range 9 10) (entries_of small))))
find_overlapping-has_overlap_example =
    find_overlapping-has_overlap small (range 9 10) ((omega arith, (omega arith, tt)), tt)

-- 3 to 4 and 5 to 9 leave no gap between integers, which are the points.
abbrev pieces : List Range
pieces = range 5 12 ∷ range 1 4 ∷ range 6 6 ∷ []

classify_pieces : classify_topology (range 3 9) pieces ≡ fully_covered
unfolding classify_topology
classify_pieces = refl

gap_left : classify_topology (range 3 9) (range 6 12 ∷ range 1 4 ∷ []) ≡ overlaid_both
unfolding classify_topology
gap_left = refl

contained : classify_topology (range 3 9) (range 6 6 ∷ range 5 8 ∷ []) ≡ covering_existing
unfolding classify_topology
contained = refl

query_topology_iff_example :
    (q : TopologyResult ℕ) × (query_topology none small (range 5 9) 7 ≡ value q)
    × (q.overlapping_entries ≡ pairs (overlapping (range 5 9) (entries_of small)))
    × ((q.status ≡ fully_covered)
        ↔ ((p : ℕ) → 5 ≤ p → p ≤ 9 → Covered p (ranges (pairs (entries_of small)))))
query_topology_iff_example =
    query_topology_iff none small (range 5 9) 7 ((omega arith, (omega arith, tt)), tt) refl
      (omega arith)
