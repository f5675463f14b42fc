-- ===== src/IntervalTree/Topology.antt =====
-- include/dmn-interval-btree.hpp: `classifyTopology`, how a range lies to those that overlap it.
pub mod Ranges
pub mod Coverage
pub mod Query
use dmn.Prelude.{
  ℕ, zero, suc, ◌+◌, ◌≤◌, ◌<◌, ◌≡◌, refl, sym, ap, ◌∙◌, Bool, true, false, not, ◌&&◌, ◌||◌, ◌⊎◌,
  inl, inr, List, [], ◌∷◌, Option, none, some, ltb, leb, ◌==◌, ==_iff, max, min, if◌then◌else◌,
  arith, Bool-cases,
}
use dmn.IntervalTree.{Range, is_valid, Node, Result, value, invalid_argument, find_overlapping}
use dmn.IntervalTree.Insert.{default_range_less}

pub data OverlayTopology : Type 0 where
  clear : OverlayTopology
  overlaid_left : OverlayTopology
  overlaid_right : OverlayTopology
  overlaid_both : OverlayTopology
  fully_covered : OverlayTopology
  covering_existing : OverlayTopology

-- The place of `INT64_MAX`.
abbrev pub last_end : ℕ
last_end = 18446744073709551615

abbrev pub clip : Range → Range → Range
clip r o = record { start = max r.start o.start; end = min r.end o.end }

abbrev pub clip_all : Range → List Range → List Range
clip_all r [] = []
clip_all r (o ∷ os) = clip r o ∷ clip_all r os

-- `std::sort` by start and then by end.
abbrev pub put : Range → List Range → List Range
put x [] = x ∷ []
put x (y ∷ l) = let rest = put x l in if default_range_less y x then y ∷ rest else x ∷ (y ∷ l)

abbrev pub sort : List Range → List Range
sort [] = []
sort (x ∷ l) = put x (sort l)

abbrev pub gap : ℕ → Range → Bool
gap covered_end next = not (covered_end == last_end) && ltb (covered_end + 1) next.start

-- The loop over the sorted ranges, with `coveredEnd` and `continuousCoverage`.
abbrev pub scan : List Range → ℕ → Bool → ℕ × Bool
scan [] covered_end continuous = (covered_end, continuous)
scan (next ∷ l) covered_end continuous =
    scan l (max covered_end next.end) (if gap covered_end next then false else continuous)

abbrev pub least_start : ℕ → List Range → ℕ
least_start s [] = s
least_start s (o ∷ os) = least_start (min s o.start) os

abbrev pub greatest_end : ℕ → List Range → ℕ
greatest_end e [] = e
greatest_end e (o ∷ os) = greatest_end (max e o.end) os

abbrev pub has_contained_range : Range → List Range → Bool
has_contained_range r [] = false
has_contained_range r (o ∷ os) =
    (ltb r.start o.start && ltb o.end r.end) || has_contained_range r os

abbrev pub partial : Range → Range → List Range → Bool → Bool → OverlayTopology
partial r o os left right =
    if has_contained_range r (o ∷ os)
      && (ltb r.start (least_start o.start (o ∷ os)) && ltb (greatest_end o.end (o ∷ os)) r.end)
    then covering_existing
    else if left && right
    then overlaid_both
    else if left
    then overlaid_left
    else if right
    then overlaid_right
    else clear

abbrev pub by_coverage : Range → Range → List Range → Bool → ℕ × Bool → OverlayTopology
by_coverage r o os left (covered_end, continuous) =
    if continuous && (covered_end == r.end)
    then fully_covered
    else partial r o os left (covered_end == r.end)

abbrev pub by_sorted : Range → Range → List Range → List Range → OverlayTopology
by_sorted r o os [] = clear
by_sorted r o os (front ∷ l) =
    by_coverage r o os (front.start == r.start) (scan l front.end (front.start == r.start))

unfoldable pub classify_topology : Range → List Range → OverlayTopology
classify_topology r [] = clear
classify_topology r (o ∷ os) = by_sorted r o os (sort (clip_all r (o ∷ os)))

pub record TopologyResult (T : Type 0) : Type 0 where
  pub status : OverlayTopology
  pub is_top : Bool
  pub overlapping_entries : List (Range × T)

module _ {T : Type 0} where
  abbrev pub ranges : List (Range × T) → List Range
  ranges [] = []
  ranges ((r, v) ∷ entries) = r ∷ ranges entries

  -- No overlapping entry has a higher priority.
  abbrev pub no_higher : Option (T → T → Bool) → T → List (Range × T) → Bool
  no_higher none v entries = true
  no_higher (some priority) v [] = true
  no_higher (some priority) v ((r, w) ∷ entries) =
      not (priority w v) && no_higher (some priority) v entries

  abbrev pub of_entries :
      Option (T → T → Bool) → Range → T → Result (List (Range × T)) → Result (TopologyResult T)
  of_entries priority r v invalid_argument = invalid_argument
  of_entries priority r v (value entries) = value (record {
    status = classify_topology r (ranges entries);
    is_top = no_higher priority v entries;
    overlapping_entries = entries;
  })

  unfoldable pub query_topology :
      Option (T → T → Bool) → Option (Node T) → Range → T → Result (TopologyResult T)
  unfolding classify_topology
  query_topology priority root r v =
      if is_valid r then of_entries priority r v (find_overlapping root r) else invalid_argument
