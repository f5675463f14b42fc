-- ===== src/IntervalTree/Insert/Shape.antt =====
-- include/dmn-interval-btree.hpp: the shape that insertion keeps, and a split.
use dmn.Prelude.{
  ℕ, ◌≤◌, ◌≡◌, refl, sym, true, false, List, [], ◌∷◌, ◌++◌, Option, none, some, max, arith,
}
use mathlib.Core.List.{append-nil, append_assoc}
use dmn.IntervalTree.{
  Entry, Node, node, Nodes, no_nodes, with_node, max_end, collect_entries_in_order,
  collect_children, entries_max_end, children_max_end, refresh_node_max_end,
}
use dmn.IntervalTree.Queries.{Below}
use dmn.IntervalTree.Insert.{Halves, split, depth}

pub absurd_nodes : {A : Type 0} → false ≡ true → A
absurd_nodes e = cc

module _ {T : Type 0} where
  -- A leaf has no child, an inner node one more than entries, and each stored maximum bounds the ends below.
  abbrev mutual
    pub Good : Node T → Type 0
    Good (node entries children end true) = (children ≡ no_nodes) × Below end entries
    Good (node entries children end false) =
        Fits entries children × Below end (collect_children entries children)

    pub Fits : List (Entry T) → Nodes T → Type 0
    Fits entries no_nodes = false ≡ true
    Fits [] (with_node n children) = Good n × (children ≡ no_nodes)
    Fits (x ∷ entries) (with_node n children) = Good n × Fits entries children

  abbrev pub FitsBehind : List (Entry T) → Nodes T → Type 0
  FitsBehind [] children = children ≡ no_nodes
  FitsBehind (x ∷ entries) children = Fits entries children

  -- The entries behind a child.
  abbrev pub rest : List (Entry T) → Nodes T → List (Entry T)
  rest [] children = []
  rest (x ∷ entries) children = x ∷ collect_children entries children

  pub collect-rest :
      (entries : List (Entry T)) (n : Node T) (children : Nodes T)
      → collect_children entries (with_node n children)
        ≡ collect_entries_in_order n ++ rest entries children
  collect-rest [] n children = sym (append-nil (collect_entries_in_order n))
  collect-rest (x ∷ entries) n children = refl

  Below-append : (end : ℕ) (a b : List (Entry T)) → Below end a → Below end b → Below end (a ++ b)
  Below-append end [] b h k = k
  Below-append end (x ∷ a) b h k = (h.0, Below-append end a b h.1 k)

  Below-le : (m n : ℕ) (l : List (Entry T)) → m ≤ n → Below m l → Below n l
  Below-le m n [] h b = tt
  Below-le m n (x ∷ l) h b = (omega (arith, b.0), Below-le m n l h b.1)

  Below-entries : (l : List (Entry T)) → Below (entries_max_end l) l
  Below-entries [] = tt
  Below-entries (x ∷ l) = (
    omega arith,
    Below-le (entries_max_end l) (entries_max_end (x ∷ l)) l (omega arith) (Below-entries l),
  )

  Good-Below : (n : Node T) → Good n → Below (max_end n) (collect_entries_in_order n)
  Good-Below (node entries children end true) g = g.1
  Good-Below (node entries children end false) g = g.1

  Below-children :
      (m : ℕ) (entries : List (Entry T)) (children : Nodes T)
      → Fits entries children
      → entries_max_end entries ≤ m
      → children_max_end children ≤ m
      → Below m (collect_children entries children)
  Below-children m entries no_nodes f h k = cc
  Below-children m [] (with_node n children) f h k =
      Below-le (max_end n) m (collect_entries_in_order n) (omega arith) (Good-Below n f.0)
  Below-children m (x ∷ entries) (with_node n children) f h k =
      Below-append m (collect_entries_in_order n) (x ∷ collect_children entries children)
        (Below-le (max_end n) m (collect_entries_in_order n) (omega arith) (Good-Below n f.0))
        (omega arith, Below-children m entries children f.1 (omega arith) (omega arith))

  pub refresh-Good :
      (entries : List (Entry T)) (children : Nodes T) (end : ℕ)
      → Fits entries children
      → Good (refresh_node_max_end (node entries children end false))
  refresh-Good entries children end f = (
    f,
    Below-children (max (entries_max_end entries) (children_max_end children)) entries children f
        (omega arith) (omega arith),
  )

  pub refresh_leaf-Good :
      (entries : List (Entry T)) (children : Nodes T) (end : ℕ)
      → children ≡ no_nodes
      → Good (refresh_node_max_end (node entries children end true))
  refresh_leaf-Good entries children end none_ = (
    none_,
    Below-le (entries_max_end entries) (max (entries_max_end entries) (children_max_end children))
        entries (omega arith) (Below-entries entries),
  )

  -- The halves of a node hold its entries.
  pub record Splits (n : Node T) (h : Halves T) : Type 0 where
    pub entries :
        collect_entries_in_order n
        ≡ collect_entries_in_order h.child ++ (h.promoted ∷ collect_entries_in_order h.sibling)
    pub child : Good h.child
    pub sibling : Good h.sibling
    pub child_depth : depth h.child ≤ depth n
    pub sibling_depth : depth h.sibling ≤ depth n

  abbrev pub AllSplits : Node T → Option (Halves T) → Type 0
  AllSplits n none = Unit
  AllSplits n (some h) = Splits n h

  pub split-Splits : (n : Node T) → Good n → AllSplits n (split n)
  split-Splits (node [] children end leaf) g = tt
  split-Splits (node (a ∷ []) children end leaf) g = tt
  split-Splits (node (a ∷ b ∷ []) children end leaf) g = tt
  split-Splits (node (a ∷ b ∷ c ∷ d ∷ entries) children end leaf) g = tt
  split-Splits (node (a ∷ b ∷ c ∷ []) children end true) g = record {
    entries = refl;
    child = refresh_leaf-Good (a ∷ []) children end g.0;
    sibling = refresh_leaf-Good (c ∷ []) no_nodes 0 refl;
    child_depth = omega arith;
    sibling_depth = omega arith;
  }
  split-Splits (node (a ∷ b ∷ c ∷ []) no_nodes end false) g = absurd_nodes g.0
  split-Splits (node (a ∷ b ∷ c ∷ []) (with_node p no_nodes) end false) g = absurd_nodes g.0.1
  split-Splits (node (a ∷ b ∷ c ∷ []) (with_node p (with_node q no_nodes)) end false) g =
      absurd_nodes g.0.1.1
  split-Splits (node (a ∷ b ∷ c ∷ []) (with_node p (with_node q (with_node r no_nodes))) end false)
        g =
      absurd_nodes g.0.1.1.1
  split-Splits
        (node
          (a ∷ b ∷ c ∷ [])
          (with_node p (with_node q (with_node r (with_node s children))))
          end
          false)
        g =
      let (fits, below) = g in
      let (gp, (gq, (gr, gs))) = fits in
      record {
        entries = sym (
            append_assoc (collect_entries_in_order p) (a ∷ collect_entries_in_order q)
              (b ∷ (collect_entries_in_order r ++ (c ∷ collect_entries_in_order s))));
        child = refresh-Good (a ∷ []) (with_node p (with_node q no_nodes)) end (gp, (gq, refl));
        sibling = refresh-Good (c ∷ []) (with_node r (with_node s children)) 0 (gr, gs);
        child_depth = omega arith;
        sibling_depth = omega arith;
      }

  pub FitsBehind-Fits :
      (entries : List (Entry T)) (n : Node T) (children : Nodes T)
      → Good n
      → FitsBehind entries children
      → Fits entries (with_node n children)
  FitsBehind-Fits [] n children g h = (g, h)
  FitsBehind-Fits (x ∷ entries) n children g h = (g, h)
