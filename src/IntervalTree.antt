-- ===== src/IntervalTree.antt =====
-- include/dmn-interval-btree.hpp, src/dmn-interval-btree.cpp: `Dmn_IntervalBTree`, its nodes and its
-- queries. An endpoint is the number of its place from `INT64_MIN`, so it is below 2 ^ 64 and the order
-- is the order of the endpoints.
pub mod Queries
pub mod Insert
pub mod Topology
mod Tests
use dmn.Prelude.{
  ℕ, zero, suc, ◌+◌, Bool, true, false, not, ◌&&◌, ◌||◌, List, [], ◌∷◌, ◌++◌, Option, none, some,
  ltb, leb, ◌==◌, max, if◌then◌else◌,
}

pub record Range : Type 0 where
  pub start : ℕ
  pub end : ℕ

abbrev pub is_valid : Range → Bool
is_valid r = leb r.start r.end

abbrev pub overlaps : Range → Range → Bool
overlaps a b = is_valid a && is_valid b && leb a.start b.end && leb b.start a.end

pub record Entry (T : Type 0) : Type 0 where
  pub range : Range
  pub value : T
  pub ordinal : ℕ

mutual
  pub data Node (T : Type 0) : Type 0 where
    node : List (Entry T) → Nodes T → ℕ → Bool → Node T

  -- The children of a node.
  pub data Nodes (T : Type 0) : Type 0 where
    no_nodes : Nodes T
    with_node : Node T → Nodes T → Nodes T

abbrev pub max_end : {T : Type 0} → Node T → ℕ
max_end (node entries children end leaf) = end

-- What is thrown: `std::invalid_argument`.
pub data Result (A : Type 0) : Type 0 where
  value : A → Result A
  invalid_argument : Result A

module _ {T : Type 0} where
  -- The loops are for a tree of the right shape, with one child more than entries in an inner node.
  abbrev mutual
    pub collect_entries_in_order : Node T → List (Entry T)
    collect_entries_in_order (node entries children end true) = entries
    collect_entries_in_order (node entries children end false) = collect_children entries children

    -- The loop over the entries with the child before each, and the last child after it.
    pub collect_children : List (Entry T) → Nodes T → List (Entry T)
    collect_children entries no_nodes = entries
    collect_children [] (with_node n children) = collect_entries_in_order n
    collect_children (x ∷ entries) (with_node n children) =
        collect_entries_in_order n ++ (x ∷ collect_children entries children)

  -- The maximum over the entries and over the children.
  abbrev pub entries_max_end : List (Entry T) → ℕ
  entries_max_end [] = 0
  entries_max_end (x ∷ entries) = max x.range.end (entries_max_end entries)

  abbrev pub children_max_end : Nodes T → ℕ
  children_max_end no_nodes = 0
  children_max_end (with_node n children) = max (max_end n) (children_max_end children)

  abbrev pub refresh_node_max_end : Node T → Node T
  refresh_node_max_end (node entries children end leaf) =
      node entries children (max (entries_max_end entries) (children_max_end children)) leaf

  abbrev pub has_overlap_in_entries : List (Entry T) → Range → Bool
  has_overlap_in_entries [] r = false
  has_overlap_in_entries (x ∷ entries) r = overlaps x.range r || has_overlap_in_entries entries r

  abbrev mutual
    pub has_overlap_in_subtree : Node T → Range → Bool
    has_overlap_in_subtree (node entries children end true) r =
        not (ltb end r.start) && has_overlap_in_entries entries r
    has_overlap_in_subtree (node entries children end false) r =
        not (ltb end r.start) && has_overlap_in_children entries children r

    pub has_overlap_in_children : List (Entry T) → Nodes T → Range → Bool
    has_overlap_in_children entries no_nodes r = has_overlap_in_entries entries r
    has_overlap_in_children [] (with_node n children) r = has_overlap_in_subtree n r
    has_overlap_in_children (x ∷ entries) (with_node n children) r =
        has_overlap_in_subtree n r
        || (overlaps x.range r || has_overlap_in_children entries children r)

  abbrev pub visit : Entry T → Range → List (Entry T)
  visit x r = if overlaps x.range r then x ∷ [] else []

  abbrev pub visit_entries : List (Entry T) → Range → List (Entry T)
  visit_entries [] r = []
  visit_entries (x ∷ entries) r = visit x r ++ visit_entries entries r

  -- The entries that the visitor is called with, in order.
  abbrev mutual
    pub visit_overlapping_in_order : Node T → Range → List (Entry T)
    visit_overlapping_in_order (node entries children end true) r =
        let visited = visit_entries entries r in if ltb end r.start then [] else visited
    visit_overlapping_in_order (node entries children end false) r =
        let visited = visit_children entries children r in if ltb end r.start then [] else visited

    pub visit_children : List (Entry T) → Nodes T → Range → List (Entry T)
    visit_children entries no_nodes r = visit_entries entries r
    visit_children [] (with_node n children) r = visit_overlapping_in_order n r
    visit_children (x ∷ entries) (with_node n children) r =
        visit_overlapping_in_order n r ++ (visit x r ++ visit_children entries children r)

  abbrev pub pairs : List (Entry T) → List (Range × T)
  pairs [] = []
  pairs (x ∷ entries) = (x.range, x.value) ∷ pairs entries

  abbrev pub for_root : Option (Node T) → Range → List (Entry T)
  for_root none r = []
  for_root (some n) r = visit_overlapping_in_order n r

  abbrev pub root_overlap : Option (Node T) → Range → Bool
  root_overlap none r = false
  root_overlap (some n) r = has_overlap_in_subtree n r

  unfoldable pub has_overlap : Option (Node T) → Range → Bool
  has_overlap root r = is_valid r && root_overlap root r

  -- `findOverlapping`, with the loop of `forEachOverlapping`.
  unfoldable pub find_overlapping : Option (Node T) → Range → Result (List (Range × T))
  find_overlapping root r = if is_valid r then value (pairs (for_root root r)) else invalid_argument

  abbrev pub entries_of : Option (Node T) → List (Entry T)
  entries_of none = []
  entries_of (some n) = collect_entries_in_order n
