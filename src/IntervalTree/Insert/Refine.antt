-- ===== src/IntervalTree/Insert/Refine.antt =====
-- include/dmn-interval-btree.hpp: the tree against a sorted list.
use dmn.Prelude.{
  ℕ, ◌+◌, ◌<◌, ◌≡◌, refl, sym, ap, ◌∙◌, Bool, true, false, List, [], ◌∷◌, Option, none, some, arith,
  length,
}
use mathlib.Core.Path.{subst}
use dmn.InflightGuard.{word}
use dmn.BlockingQueue.{increment}
use dmn.IntervalTree.{
  Range, is_valid, Entry, Node, node, Nodes, no_nodes, with_node, value, collect_entries_in_order,
  entries_of,
}
use dmn.IntervalTree.Queries.{Bounded, AllBounded, RootBounded}
use dmn.IntervalTree.Insert.{
  entry_less, Halves, split, depth, split_root, root_or_new, insert_entry, Tree, empty_tree, add,
  add_all, then_add,
}
use dmn.IntervalTree.Insert.Cut.{Cut, place}
use dmn.IntervalTree.Insert.Shape.{Good, Fits, AllSplits, split-Splits, refresh-Good}
use dmn.IntervalTree.Insert.Correct.{insert_non_full-Inserted}
use dmn.IntervalTree.Insert.Sorted.Comparator.{IsCanonical, canonical-IsOrder}
use dmn.IntervalTree.Insert.Sorted.{
  IsOrder, Fresh, Sorted, Cut-place-Sorted, Sorted-Cut, Fresh_suc, Fresh-place, length-place,
}

increment_fits : (n : ℕ) → n + 1 < word → increment n ≡ n + 1
increment_fits n h = omega arith

module _ {T : Type 0} where
  abbrev pub RootGood : Option (Node T) → Type 0
  RootGood none = Unit
  RootGood (some n) = Good n

  mutual
    Good-Bounded : (n : Node T) → Good n → Bounded n
    Good-Bounded (node entries children end true) g = (g.1, subst AllBounded (sym g.0) tt)
    Good-Bounded (node entries children end false) g = (g.1, Fits-AllBounded entries children g.0)

    Fits-AllBounded :
        (entries : List (Entry T)) (children : Nodes T)
        → Fits entries children
        → AllBounded children
    Fits-AllBounded entries no_nodes f = tt
    Fits-AllBounded [] (with_node n children) f =
        (Good-Bounded n f.0, subst AllBounded (sym f.1) tt)
    Fits-AllBounded (x ∷ entries) (with_node n children) f =
        (Good-Bounded n f.0, Fits-AllBounded entries children f.1)

  RootGood-RootBounded : (root : Option (Node T)) → RootGood root → RootBounded root
  RootGood-RootBounded none g = tt
  RootGood-RootBounded (some n) g = Good-Bounded n g

  root_or_new-Good :
      (root : Option (Node T))
      → RootGood root
      → Good (root_or_new root) × (collect_entries_in_order (root_or_new root) ≡ entries_of root)
  root_or_new-Good none g = ((refl, tt), refl)
  root_or_new-Good (some n) g = (g, refl)

  split_root-Good :
      (n : Node T) (o : Option (Halves T))
      → Good n
      → AllSplits n o
      → Good (split_root n o)
        × (collect_entries_in_order (split_root n o) ≡ collect_entries_in_order n)
  split_root-Good n none g k = (g, refl)
  split_root-Good n (some h) g k = (
    refresh-Good (h.promoted ∷ []) (with_node h.child (with_node h.sibling no_nodes)) 0
        (k.child, (k.sibling, refl)),
    sym k.entries,
  )

  insert_entry-place :
      (less : Entry T → Entry T → Bool) (e : Entry T) (root : Option (Node T))
      → RootGood root
      → Cut less e (entries_of root)
      → Good (insert_entry less e root)
        × (collect_entries_in_order (insert_entry less e root) ≡ place less e (entries_of root))
  unfolding insert_entry
  insert_entry-place less e root g cut =
      let n = root_or_new root in
      let (gn, same) = root_or_new-Good root g in
      let (gm, whole) = split_root-Good n (split n) gn (split-Splits n gn) in
      let m = split_root n (split n) in
      let entries = whole ∙ same in
      let done =
        insert_non_full-Inserted less e (depth m) m gm (omega arith)
          (subst (Cut less e) (sym entries) cut) in
      (done.good, done.entries ∙ ap (place less e) entries)

  -- The tree stands for a sorted list of entries.
  pub record Represents (less : Entry T → Entry T → Bool) (l : List (Entry T)) (t : Tree T)
      : Type 0 where
    pub good : RootGood t.root
    pub entries : entries_of t.root ≡ l
    pub sorted : Sorted less l
    pub fresh : Fresh t.next_ordinal l
    pub size : t.size ≡ length l
    pub counted : t.size ≡ t.next_ordinal

  abbrev entry : Range → T → ℕ → Entry T
  entry r v n = record { range = r; value = v; ordinal = n }

  -- The specification: each entry is placed in a sorted list.
  abbrev pub place_all :
      (Entry T → Entry T → Bool) → ℕ → List (Range × T) → List (Entry T) → List (Entry T)
  place_all less n [] l = l
  place_all less n ((r, v) ∷ items) l =
      place_all less (n + 1) items (place less (record { range = r; value = v; ordinal = n }) l)

  abbrev pub AllValid : List (Range × T) → Type 0
  AllValid [] = Unit
  AllValid ((r, v) ∷ items) = (is_valid r ≡ true) × AllValid items

  module _ (c : Option (Range → Range → Bool)) (order : IsOrder (entry_less {T = T} c)) where
    abbrev less : Entry T → Entry T → Bool
    less = entry_less c

    add-Represents :
        (r : Range) (v : T) (l : List (Entry T)) (t : Tree T)
        → is_valid r ≡ true
        → t.next_ordinal + 1 < word
        → Represents less l t
        → (u : Tree T) × (add c r v t ≡ value u)
          × (u.next_ordinal ≡ t.next_ordinal + 1)
          × Represents less (place less (entry r v t.next_ordinal) l) u
    unfolding add
    add-Represents r v l t valid fits s =
        let next : increment t.next_ordinal ≡ t.next_ordinal + 1 =
          increment_fits t.next_ordinal fits in
        let size : increment t.size ≡ t.size + 1 =
          increment_fits t.size (omega (arith, s.counted)) in
        let e = entry r v t.next_ordinal in
        let cut = Sorted-Cut less order e l s.fresh s.sorted in
        let (good, entries) =
          insert_entry-place less e t.root s.good (subst (Cut less e) (sym s.entries) cut) in
        (
          record {
            root = some (insert_entry less e t.root);
            size = increment t.size;
            next_ordinal = increment t.next_ordinal;
          },
          rw valid refl,
          next,
          record {
            good = good;
            entries = entries ∙ ap (place less e) s.entries;
            sorted = Cut-place-Sorted less e l cut s.sorted;
            fresh =
                subst (λ m. Fresh m (place less e l)) (sym next)
                  (Fresh-place less (t.next_ordinal + 1) e l (omega arith)
                    (Fresh_suc less t.next_ordinal l s.fresh));
            size = size ∙ ap (λ m. m + 1) s.size ∙ sym (length-place less e l);
            counted = ap increment s.counted;
          },
        )

    add_all-Represents :
        (items : List (Range × T)) (n : ℕ) (l : List (Entry T)) (t : Tree T)
        → AllValid items
        → n + length items < word
        → t.next_ordinal ≡ n
        → Represents less l t
        → (u : Tree T) × (add_all c items t ≡ value u)
          × Represents less (place_all less n items l) u
    unfolding add_all
    add_all-Represents [] n l t valid fits next s = (t, refl, s)
    add_all-Represents ((r, v) ∷ items) n l t valid fits next s =
        let (u, done, after, now) = add-Represents r v l t valid.0 (omega (arith, next)) s in
        let (w, rest, last) =
          add_all-Represents items (n + 1) (place less (entry r v n) l) u valid.1 (omega arith)
            (after ∙ ap (λ m. m + 1) next)
            (subst (λ m. Represents less (place less (entry r v m) l) u) next now) in
        (w, ap (λ q. then_add q (λ x. add_all c items x)) done ∙ rest, last)

    ordered_adds :
        (items : List (Range × T))
        → AllValid items
        → length items < word
        → (t : Tree T) × (add_all c items empty_tree ≡ value t)
          × (entries_of t.root ≡ place_all less 0 items [])
          × Sorted less (entries_of t.root)
          × (t.size ≡ length (entries_of t.root))
          × RootBounded t.root
    ordered_adds items valid fits =
        let start : Represents less [] empty_tree = record {
          good = tt;
          entries = refl;
          sorted = tt;
          fresh = tt;
          size = refl;
          counted = refl;
        } in
        let (t, done, s) =
          add_all-Represents items 0 [] empty_tree valid (omega arith) refl start in
        (
          t,
          done,
          s.entries,
          subst (Sorted less) (sym s.entries) s.sorted,
          s.size ∙ ap length (sym s.entries),
          RootGood-RootBounded t.root s.good,
        )

  -- Adding valid ranges, fewer than 2 ^ 64, to an empty tree succeeds and leaves, read in the tree's order,
  -- the list into which each entry is placed before the first greater one: it is sorted, the size is its
  -- length, and the stored maxima bound it, provided that the client's comparator, if there is one, is a
  -- strict weak order.
  pub add_all-place_all :
      (c : Option (Range → Range → Bool)) (items : List (Range × T))
      → IsCanonical c
      → AllValid items
      → length items < word
      → (t : Tree T) × (add_all c items empty_tree ≡ value t)
        × (entries_of t.root ≡ place_all (entry_less c) 0 items [])
        × Sorted (entry_less c) (entries_of t.root)
        × (t.size ≡ length (entries_of t.root))
        × RootBounded t.root
  add_all-place_all c items canonical valid fits =
      ordered_adds c (canonical-IsOrder c canonical) items valid fits
