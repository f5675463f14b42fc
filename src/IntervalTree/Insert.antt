-- ===== src/IntervalTree/Insert.antt =====
-- include/dmn-interval-btree.hpp: insertion of an entry, of which `s_minimumDegree` is 2. The states of
-- entries and their callbacks are left out.
pub mod Cut
pub mod Shape
pub mod Correct
pub mod Sorted
pub mod Refine
use dmn.Prelude.{
  ℕ, zero, suc, ◌+◌, Bool, true, false, ◌&&◌, List, [], ◌∷◌, Option, none, some, ltb, ◌==◌, max,
  if◌then◌else◌,
}
use dmn.BlockingQueue.{increment}
use dmn.IntervalTree.{
  Range, is_valid, Entry, Node, node, Nodes, no_nodes, with_node, refresh_node_max_end, Result,
  value, invalid_argument,
}

abbrev pub default_range_less : Range → Range → Bool
default_range_less a b = if a.start == b.start then ltb a.end b.end else ltb a.start b.start

abbrev pub by_comparator : Option (Range → Range → Bool) → Range → Range → Bool
by_comparator none a b = default_range_less a b
by_comparator (some less) a b =
    if less a b then true else if less b a then false else default_range_less a b

pub record Halves (T : Type 0) : Type 0 where
  pub child : Node T
  pub promoted : Entry T
  pub sibling : Node T

pub record Tree (T : Type 0) : Type 0 where
  pub root : Option (Node T)
  pub size : ℕ
  pub next_ordinal : ℕ

module _ {T : Type 0} where
  abbrev pub entry_less : Option (Range → Range → Bool) → Entry T → Entry T → Bool
  entry_less c a b =
      if (a.range.start == b.range.start) && (a.range.end == b.range.end)
      then ltb a.ordinal b.ordinal
      else by_comparator c a.range b.range

  -- `vector::insert` at an index.
  abbrev pub insert_at : ℕ → Entry T → List (Entry T) → List (Entry T)
  insert_at zero e entries = e ∷ entries
  insert_at (suc i) e [] = e ∷ []
  insert_at (suc i) e (x ∷ entries) = x ∷ insert_at i e entries

  -- The children to index 1, and those from index 2 on.
  abbrev pub first_two : Nodes T → Nodes T
  first_two (with_node a (with_node b children)) = with_node a (with_node b no_nodes)
  first_two children = children

  abbrev pub from_two : Nodes T → Nodes T
  from_two (with_node a (with_node b children)) = children
  from_two children = no_nodes

  -- `splitChild` on a child that is full; `none` is a child that is not.
  abbrev pub split : Node T → Option (Halves T)
  split (node (a ∷ b ∷ c ∷ []) children end true) = some record {
    child = refresh_node_max_end (node (a ∷ []) children end true);
    promoted = b;
    sibling = refresh_node_max_end (node (c ∷ []) no_nodes 0 true);
  }
  split (node (a ∷ b ∷ c ∷ []) children end false) = some record {
    child = refresh_node_max_end (node (a ∷ []) (first_two children) end false);
    promoted = b;
    sibling = refresh_node_max_end (node (c ∷ []) (from_two children) 0 false);
  }
  split n = none

  -- The longest chain of nodes.
  abbrev mutual
    pub depth : Node T → ℕ
    depth (node entries children end leaf) = suc (children_depth children)

    pub children_depth : Nodes T → ℕ
    children_depth no_nodes = 0
    children_depth (with_node n children) = max (depth n) (children_depth children)

  abbrev pub with_parts : ℕ → List (Entry T) × Nodes T → Node T
  with_parts end (entries, children) = refresh_node_max_end (node entries children end false)

  abbrev pub split_root : Node T → Option (Halves T) → Node T
  split_root n none = n
  split_root n (some h) =
      refresh_node_max_end
        (node (h.promoted ∷ []) (with_node h.child (with_node h.sibling no_nodes)) 0 false)

  abbrev pub root_or_new : Option (Node T) → Node T
  root_or_new none = node [] no_nodes 0 true
  root_or_new (some n) = n

  module _ (less : Entry T → Entry T → Bool) where
    -- The loop of `insertNonFull` from the last entry down.
    abbrev pub child_index : Entry T → List (Entry T) → ℕ
    child_index e [] = 0
    child_index e (x ∷ entries) =
        let i = child_index e entries in if (i == 0) && less e x then 0 else suc i

    module _ (insert : Node T → Node T) where
      -- The child at the index is split when it is full, and the insertion goes on in one of the halves.
      abbrev pub into_child :
          Entry T → List (Entry T) → Node T → Nodes T → Option (Halves T) → List (Entry T) × Nodes T
      into_child e entries n children none = (entries, with_node (insert n) children)
      into_child e entries n children (some h) =
          if less h.promoted e
          then (h.promoted ∷ entries, with_node h.child (with_node (insert h.sibling) children))
          else (h.promoted ∷ entries, with_node (insert h.child) (with_node h.sibling children))

      abbrev pub insert_child : ℕ → Entry T → List (Entry T) → Nodes T → List (Entry T) × Nodes T
      insert_child i e entries no_nodes = (entries, no_nodes)
      insert_child zero e entries (with_node n children) = into_child e entries n children (split n)
      insert_child (suc i) e [] (with_node n children) = ([], with_node n children)
      insert_child (suc i) e (x ∷ entries) (with_node n children) =
          let (more, nodes) = insert_child i e entries children in (x ∷ more, with_node n nodes)

    -- On fuel, for which the depth is enough.
    unfoldable pub insert_non_full : ℕ → Entry T → Node T → Node T
    insert_non_full zero e n = n
    insert_non_full (suc f) e (node entries children end true) =
        refresh_node_max_end (node (insert_at (child_index e entries) e entries) children end true)
    insert_non_full (suc f) e (node entries children end false) =
        with_parts end
          (insert_child (λ n. insert_non_full f e n) (child_index e entries) e entries children)

    -- The root of `insertEntry`.
    unfoldable pub insert_entry : Entry T → Option (Node T) → Node T
    unfolding insert_non_full
    insert_entry e root =
        let n = split_root (root_or_new root) (split (root_or_new root)) in
        insert_non_full (depth n) e n

  abbrev pub empty_tree : Tree T
  empty_tree = record { root = none; size = 0; next_ordinal = 0 }

  unfoldable pub add : Option (Range → Range → Bool) → Range → T → Tree T → Result (Tree T)
  unfolding insert_entry
  add c r v t =
      let e : Entry T = record { range = r; value = v; ordinal = t.next_ordinal } in
      if is_valid r
      then value (record {
        root = some (insert_entry (entry_less c) e t.root);
        size = increment t.size;
        next_ordinal = increment t.next_ordinal;
      })
      else invalid_argument

  abbrev pub then_add : Result (Tree T) → (Tree T → Result (Tree T)) → Result (Tree T)
  then_add (value t) more = more t
  then_add invalid_argument more = invalid_argument

  -- A client that adds ranges with their values one after another.
  unfoldable pub add_all :
      Option (Range → Range → Bool) → List (Range × T) → Tree T → Result (Tree T)
  unfolding add
  add_all c [] t = value t
  add_all c ((r, v) ∷ items) t = then_add (add c r v t) (λ u. add_all c items u)
