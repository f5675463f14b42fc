-- ===== src/IntervalTree/Insert/Correct.antt =====
-- include/dmn-interval-btree.hpp: insertion against the list of all entries.
use dmn.Prelude.{
  ℕ, zero, suc, ◌≤◌, ◌≡◌, sym, ap, ◌∙◌, Bool, true, false, inl, inr, List, [], ◌∷◌, ◌++◌, Option,
  none, some, arith, Bool-cases,
}
use mathlib.Core.Path.{subst}
use mathlib.Core.List.{append-nil, append_assoc}
use dmn.IntervalTree.{
  Entry, Node, node, Nodes, no_nodes, with_node, collect_entries_in_order, collect_children,
}
use dmn.IntervalTree.Insert.{
  insert_at, Halves, split, depth, children_depth, child_index, into_child, insert_child,
  insert_non_full,
}
use dmn.IntervalTree.Insert.Cut.{
  AllAfter, Cut, place, AllAfter-append, place-after, child_index-AllAfter, child_index-Before,
  insert_at-child_index, place-middle, Cut-parts,
}
use dmn.IntervalTree.Insert.Shape.{
  Good, Fits, FitsBehind, rest, collect-rest, refresh_leaf-Good, refresh-Good, Splits, AllSplits,
  split-Splits, FitsBehind-Fits, absurd_nodes,
}

module _ {T : Type 0} where
  -- The node `m` holds the entries of `n` with `e` in its place.
  pub record Inserted (less : Entry T → Entry T → Bool) (e : Entry T) (n m : Node T) : Type 0 where
    pub entries : collect_entries_in_order m ≡ place less e (collect_entries_in_order n)
    pub good : Good m

  module _ (less : Entry T → Entry T → Bool) (e : Entry T) where
    -- What the insertion into a node of depth `f` does.
    abbrev Inserts : ℕ → (Node T → Node T) → Type 0
    Inserts f insert =
        (m : Node T)
        → Good m
        → depth m ≤ f
        → Cut less e (collect_entries_in_order m)
        → Inserted less e m (insert m)

    module _ (f : ℕ) (insert : Node T → Node T) (spec : Inserts f insert) where
      abbrev Placed : List (Entry T) × Nodes T → List (Entry T) → Type 0
      Placed parts l = (collect_children parts.0 parts.1 ≡ l) × Fits parts.0 parts.1

      into_split-Placed :
          (entries : List (Entry T)) (n : Node T) (children : Nodes T) (h : Halves T)
          → FitsBehind entries children
          → depth n ≤ f
          → Cut less e (collect_entries_in_order n)
          → Splits n h
          → Placed
              (into_child less insert e entries n children (some h))
              (place less e (collect_entries_in_order n) ++ rest entries children)
      into_split-Placed entries n children h fits deep cut k =
          let p = h.promoted in
          let before = collect_entries_in_order h.child in
          let after = collect_entries_in_order h.sibling in
          let behind = rest entries children in
          let where_ = Cut-parts less e p before after (subst (Cut less e) k.entries cut) in
          let whole = ap (λ l. place less e l ++ behind) k.entries in
          elim (Bool-cases (less p e)) [
            | inl later ↦ elim where_ [
              | inl (cut_, follows) ↦ let clash : true ≡ false = sym later ∙ follows.0.1 in cc
              | inr (first, bp, more) ↦
                  let step = spec h.sibling k.sibling (omega (arith, k.sibling_depth)) more in
                  rw later (
                    ap (λ l. before ++ (p ∷ l))
                          (collect-rest entries (insert h.sibling) children
                            ∙ ap (λ l. l ++ behind) step.entries)
                        ∙ sym (append_assoc before (p ∷ place less e after) behind)
                        ∙ ap (λ l. l ++ behind) (sym (place-middle less e p before after first bp))
                        ∙ sym whole,
                    (k.child, FitsBehind-Fits entries (insert h.sibling) children step.good fits),
                  )
            ]
            | inr earlier ↦ elim where_ [
              | inl (cut_, follows) ↦
                  let step = spec h.child k.child (omega (arith, k.child_depth)) cut_ in
                  rw earlier (
                    ap (λ l. l ++ (p ∷ collect_children entries (with_node h.sibling children)))
                          step.entries
                        ∙ ap (λ l. place less e before ++ (p ∷ l))
                            (collect-rest entries h.sibling children)
                        ∙ sym (append_assoc (place less e before) (p ∷ after) behind)
                        ∙ ap (λ l. l ++ behind)
                            (sym (place-after less e before (p ∷ after) follows))
                        ∙ sym whole,
                    (step.good, FitsBehind-Fits entries h.sibling children k.sibling fits),
                  )
              | inr (first, bp, more) ↦ let clash : true ≡ false = sym bp.1 ∙ earlier in cc
            ]
          ]

      into_child-Placed :
          (entries : List (Entry T)) (n : Node T) (children : Nodes T) (o : Option (Halves T))
          → Good n
          → FitsBehind entries children
          → depth n ≤ f
          → Cut less e (collect_entries_in_order n)
          → AllSplits n o
          → Placed
              (into_child less insert e entries n children o)
              (place less e (collect_entries_in_order n) ++ rest entries children)
      into_child-Placed entries n children none g fits deep cut k =
          let step = spec n g deep cut in
          (
            collect-rest entries (insert n) children
                ∙ ap (λ l. l ++ rest entries children) step.entries,
            FitsBehind-Fits entries (insert n) children step.good fits,
          )
      into_child-Placed entries n children (some h) g fits deep cut k =
          into_split-Placed entries n children h fits deep cut k

      AllAfter-entries :
          (entries : List (Entry T)) (children : Nodes T)
          → AllAfter less e (collect_children entries children)
          → AllAfter less e entries
      AllAfter-entries entries no_nodes h = h
      AllAfter-entries [] (with_node n children) h = tt
      AllAfter-entries (x ∷ entries) (with_node n children) h =
          let (first, more) =
            AllAfter-append less e (collect_entries_in_order n)
              (x ∷ collect_children entries children) h in
          (more.0, AllAfter-entries entries children more.1)

      insert_child-Placed :
          (entries : List (Entry T)) (children : Nodes T)
          → Fits entries children
          → children_depth children ≤ f
          → Cut less e (collect_children entries children)
          → Placed
              (insert_child less insert (child_index less e entries) e entries children)
              (place less e (collect_children entries children))
      insert_child-Placed entries no_nodes fits deep cut = absurd_nodes fits
      insert_child-Placed [] (with_node n children) fits deep cut =
          let (same, ok) =
            into_child-Placed [] n children (split n) fits.0 fits.1 (omega arith) cut
              (split-Splits n fits.0) in
          (same ∙ append-nil (place less e (collect_entries_in_order n)), ok)
      insert_child-Placed (x ∷ entries) (with_node n children) fits deep cut =
          let here = collect_entries_in_order n in
          let more = collect_children entries children in
          elim (Cut-parts less e x here more cut) [
            | inl (first, follows) ↦
                let at_zero =
                  child_index-AllAfter less e (x ∷ entries)
                    (follows.0, AllAfter-entries entries children follows.1) in
                let (same, ok) =
                  into_child-Placed (x ∷ entries) n children (split n) fits.0 fits.1 (omega arith)
                    first (split-Splits n fits.0) in
                rw at_zero (same ∙ sym (place-after less e here (x ∷ more) follows), ok)
            | inr (first, bx, later) ↦
                let (same, ok) = insert_child-Placed entries children fits.1 (omega arith) later in
                rw (child_index-Before less e x entries bx) (
                  ap (λ l. here ++ (x ∷ l)) same ∙ sym (place-middle less e x here more first bx),
                  (fits.0, ok),
                )
          ]

    pub insert_non_full-Inserted :
        (f : ℕ) (n : Node T)
        → Good n
        → depth n ≤ f
        → Cut less e (collect_entries_in_order n)
        → Inserted less e n (insert_non_full less f e n)
    unfolding insert_non_full
    insert_non_full-Inserted zero (node entries children end leaf) g deep cut = absurd (omega arith)
    insert_non_full-Inserted (suc f) (node entries children end true) g deep cut = record {
      entries = insert_at-child_index less e entries cut;
      good = refresh_leaf-Good (insert_at (child_index less e entries) e entries) children end g.0;
    }
    insert_non_full-Inserted (suc f) (node entries children end false) g deep cut =
        let insert : Node T → Node T = λ n. insert_non_full less f e n in
        let placed =
          insert_child-Placed f insert (insert_non_full-Inserted f) entries children g.0
            (omega arith) cut in
        record {
          entries = placed.0;
          good =
              refresh-Good
                (insert_child less insert (child_index less e entries) e entries children).0
                (insert_child less insert (child_index less e entries) e entries children).1 end
                placed.1;
        }
