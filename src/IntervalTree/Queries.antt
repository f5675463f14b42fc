-- ===== src/IntervalTree/Queries.antt =====
-- include/dmn-interval-btree.hpp: the queries against all the entries.
use dmn.Prelude.{
  ℕ, ◌≤◌, ◌<◌, ◌≡◌, refl, sym, ap, ◌∙◌, Bool, true, false, not, ◌&&◌, ◌||◌, inl, inr, List, [], ◌∷◌,
  ◌++◌, Option, none, some, ltb, if◌then◌else◌, arith, Bool-cases,
}
use mathlib.Core.List.{append_assoc}
use dmn.IntervalTree.{
  Range, is_valid, overlaps, Entry, Node, node, Nodes, no_nodes, with_node, value, invalid_argument,
  collect_entries_in_order, collect_children, has_overlap_in_entries, has_overlap_in_subtree,
  has_overlap_in_children, visit, visit_entries, visit_overlapping_in_order, visit_children, pairs,
  for_root, root_overlap, has_overlap, find_overlapping, entries_of,
}

module _ {T : Type 0} where
  -- No entry of the list ends after `end`.
  abbrev pub Below : ℕ → List (Entry T) → Type 0
  Below end [] = Unit
  Below end (x ∷ entries) = (x.range.end ≤ end) × Below end entries

  -- The stored maximum of each node bounds the ends of its entries and of the entries below it.
  abbrev mutual
    pub Bounded : Node T → Type 0
    Bounded (node entries children end leaf) =
        Below end (collect_entries_in_order (node entries children end leaf)) × AllBounded children

    pub AllBounded : Nodes T → Type 0
    AllBounded no_nodes = Unit
    AllBounded (with_node n children) = Bounded n × AllBounded children

  pub visit_entries-append :
      (a b : List (Entry T)) (r : Range)
      → visit_entries (a ++ b) r ≡ visit_entries a r ++ visit_entries b r
  visit_entries-append [] b r = refl
  visit_entries-append (x ∷ a) b r =
      ap (λ l. visit x r ++ l) (visit_entries-append a b r)
      ∙ sym (append_assoc (visit x r) (visit_entries a r) (visit_entries b r))

  -- Entries that end before the range starts are not visited.
  visit_entries_before :
      (end : ℕ) (entries : List (Entry T)) (r : Range)
      → Below end entries
      → end < r.start
      → visit_entries entries r ≡ []
  visit_entries_before end [] r b h = refl
  visit_entries_before end (x ∷ entries) r b h =
      let no : overlaps x.range r ≡ false = ground (arith, b.0) in
      rw no (visit_entries_before end entries r b.1 h)

  pruned :
      (end : ℕ) (entries : List (Entry T)) (r : Range) (visited : List (Entry T))
      → Below end entries
      → visited ≡ visit_entries entries r
      → (if ltb end r.start then [] else visited) ≡ visit_entries entries r
  pruned end entries r visited b same = elim (Bool-cases (ltb end r.start)) [
    | inl before ↦ rw before (sym (visit_entries_before end entries r b (ground arith)))
    | inr after ↦ rw after same
  ]

  mutual
    visit-collect :
        (n : Node T) (r : Range)
        → Bounded n
        → visit_overlapping_in_order n r ≡ visit_entries (collect_entries_in_order n) r
    visit-collect (node entries children end true) r b =
        pruned end entries r (visit_entries entries r) b.0 refl
    visit-collect (node entries children end false) r b =
        pruned end (collect_children entries children) r (visit_children entries children r) b.0
          (visit_children-collect entries children r b.1)

    visit_children-collect :
        (entries : List (Entry T)) (children : Nodes T) (r : Range)
        → AllBounded children
        → visit_children entries children r ≡ visit_entries (collect_children entries children) r
    visit_children-collect entries no_nodes r b = refl
    visit_children-collect [] (with_node n children) r b = visit-collect n r b.0
    visit_children-collect (x ∷ entries) (with_node n children) r b =
        ap (λ l. l ++ (visit x r ++ visit_children entries children r)) (visit-collect n r b.0)
        ∙ ap (λ l. visit_entries (collect_entries_in_order n) r ++ (visit x r ++ l))
            (visit_children-collect entries children r b.1)
        ∙ sym (
            visit_entries-append (collect_entries_in_order n)
              (x ∷ collect_children entries children) r)

  -- The entries of a list that overlap a range, which is the reference for both queries.
  abbrev pub overlapping : Range → List (Entry T) → List (Entry T)
  overlapping r [] = []
  overlapping r (x ∷ l) =
      let rest = overlapping r l in if overlaps x.range r then x ∷ rest else rest

  visit_entries-overlapping : (l : List (Entry T)) (r : Range) → visit_entries l r ≡ overlapping r l
  visit_entries-overlapping [] r = refl
  visit_entries-overlapping (x ∷ l) r = elim (Bool-cases (overlaps x.range r)) [
    | inl hit ↦ rw hit (ap (x ∷◌) (visit_entries-overlapping l r))
    | inr miss ↦ rw miss (visit_entries-overlapping l r)
  ]

  abbrev pub some_entry : List (Entry T) → Bool
  some_entry [] = false
  some_entry (x ∷ l) = true

  some_entry-append : (a b : List (Entry T)) → some_entry (a ++ b) ≡ (some_entry a || some_entry b)
  some_entry-append [] b = refl
  some_entry-append (x ∷ a) b = refl

  either_entry :
      (a b c : Bool) (x y z : List (Entry T))
      → a ≡ some_entry x
      → b ≡ some_entry y
      → c ≡ some_entry z
      → (a || (b || c)) ≡ some_entry (x ++ (y ++ z))
  either_entry a b c x y z ea eb ec =
      let first = some_entry-append x (y ++ z) in let second = some_entry-append y z in cc

  overlaps-visit : (x : Entry T) (r : Range) → overlaps x.range r ≡ some_entry (visit x r)
  overlaps-visit x r = elim (Bool-cases (overlaps x.range r)) [
    | inl hit ↦ rw hit refl
    | inr miss ↦ rw miss refl
  ]

  entries-visit :
      (entries : List (Entry T)) (r : Range)
      → has_overlap_in_entries entries r ≡ some_entry (visit_entries entries r)
  entries-visit [] r = refl
  entries-visit (x ∷ entries) r = elim (Bool-cases (overlaps x.range r)) [
    | inl hit ↦ rw hit refl
    | inr miss ↦ rw miss (entries-visit entries r)
  ]

  guarded :
      (before b : Bool) (l : List (Entry T))
      → b ≡ some_entry l
      → (not before && b) ≡ some_entry (if before then [] else l)
  guarded true b l e = refl
  guarded false b l e = e

  mutual
    -- Both walks turn back at the same nodes.
    subtree-visit :
        (n : Node T) (r : Range)
        → has_overlap_in_subtree n r ≡ some_entry (visit_overlapping_in_order n r)
    subtree-visit (node entries children end true) r =
        guarded (ltb end r.start) (has_overlap_in_entries entries r) (visit_entries entries r)
          (entries-visit entries r)
    subtree-visit (node entries children end false) r =
        guarded (ltb end r.start) (has_overlap_in_children entries children r)
          (visit_children entries children r) (children-visit entries children r)

    children-visit :
        (entries : List (Entry T)) (children : Nodes T) (r : Range)
        → has_overlap_in_children entries children r
          ≡ some_entry (visit_children entries children r)
    children-visit entries no_nodes r = entries-visit entries r
    children-visit [] (with_node n children) r = subtree-visit n r
    children-visit (x ∷ entries) (with_node n children) r =
        either_entry (has_overlap_in_subtree n r) (overlaps x.range r)
          (has_overlap_in_children entries children r) (visit_overlapping_in_order n r) (visit x r)
          (visit_children entries children r) (subtree-visit n r) (overlaps-visit x r)
          (children-visit entries children r)

  abbrev pub RootBounded : Option (Node T) → Type 0
  RootBounded none = Unit
  RootBounded (some n) = Bounded n

  entries-overlapping :
      (root : Option (Node T)) (r : Range)
      → RootBounded root
      → for_root root r ≡ overlapping r (entries_of root)
  entries-overlapping none r b = refl
  entries-overlapping (some n) r b =
      visit-collect n r b ∙ visit_entries-overlapping (collect_entries_in_order n) r

  root-overlap :
      (root : Option (Node T)) (r : Range) → root_overlap root r ≡ some_entry (for_root root r)
  root-overlap none r = refl
  root-overlap (some n) r = subtree-visit n r

  -- When each stored maximum bounds the ends below it, the two queries, which turn back at a node whose
  -- maximum is before the range, come to a scan of all entries: for a valid range the entries found are
  -- those that overlap it, in the tree's order, and there is an overlap exactly when one is found; an
  -- invalid range is an error, and overlaps nothing.
  pub find_overlapping-has_overlap :
      (root : Option (Node T)) (r : Range)
      → RootBounded root
      → (find_overlapping root r ≡ (
          if is_valid r then value (pairs (overlapping r (entries_of root))) else invalid_argument))
        × (has_overlap root r ≡ (is_valid r && some_entry (overlapping r (entries_of root))))
  unfolding find_overlapping has_overlap
  find_overlapping-has_overlap root r b =
      let found = entries-overlapping root r b in
      (
        ap (λ l. if is_valid r then value (pairs l) else invalid_argument) found,
        ap (λ h. is_valid r && h) (root-overlap root r ∙ ap some_entry found),
      )
