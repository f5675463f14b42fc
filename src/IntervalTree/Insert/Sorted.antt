-- ===== src/IntervalTree/Insert/Sorted.antt =====
-- include/dmn-interval-btree.hpp: the order of the entries, `entryLess`.
pub mod Comparator
use dmn.Prelude.{
  ℕ, ◌+◌, ◌<◌, ◌≡◌, ◌≢◌, refl, ap, ◌∙◌, Bool, true, not, inl, inr, List, [], ◌∷◌, none, arith,
  Bool-cases, length,
}
use dmn.IntervalTree.{Entry}
use dmn.IntervalTree.Insert.{entry_less}
use dmn.IntervalTree.Insert.Cut.{After, AllAfter, Cut, place}

module _ {T : Type 0} where
  -- A strict order that tells entries with different ordinals apart.
  pub record IsOrder (less : Entry T → Entry T → Bool) : Type 0 where
    pub apart : (a b : Entry T) → a.ordinal ≢ b.ordinal → less a b ≡ not (less b a)
    pub trans : (a b d : Entry T) → less a b ≡ true → less b d ≡ true → less a d ≡ true

  pub default-IsOrder : IsOrder (entry_less none)
  default-IsOrder = record { apart = λ a b ne. ground arith; trans = λ a b d x y. ground arith }

  -- All entries have ordinals below `n`.
  abbrev pub Fresh : ℕ → List (Entry T) → Type 0
  Fresh n [] = Unit
  Fresh n (x ∷ l) = (x.ordinal < n) × Fresh n l

  module _ (less : Entry T → Entry T → Bool) where
    abbrev pub AllGreater : Entry T → List (Entry T) → Type 0
    AllGreater x [] = Unit
    AllGreater x (y ∷ l) = (less x y ≡ true) × AllGreater x l

    abbrev pub Sorted : List (Entry T) → Type 0
    Sorted [] = Unit
    Sorted (x ∷ l) = AllGreater x l × Sorted l

    AllGreater-place :
        (x e : Entry T) (l : List (Entry T))
        → AllGreater x l
        → less x e ≡ true
        → AllGreater x (place less e l)
    AllGreater-place x e [] g h = (h, tt)
    AllGreater-place x e (y ∷ l) g h = elim (Bool-cases (less e y)) [
      | inl before ↦ rw before (h, g)
      | inr after ↦ rw after (g.0, AllGreater-place x e l g.1 h)
    ]

    AllAfter-AllGreater : (e : Entry T) (l : List (Entry T)) → AllAfter less e l → AllGreater e l
    AllAfter-AllGreater e [] h = tt
    AllAfter-AllGreater e (x ∷ l) h = (h.0.0, AllAfter-AllGreater e l h.1)

    pub Cut-place-Sorted :
        (e : Entry T) (l : List (Entry T)) → Cut less e l → Sorted l → Sorted (place less e l)
    Cut-place-Sorted e [] c s = (tt, tt)
    Cut-place-Sorted e (x ∷ l) (inl c) s = rw c.0.0 ((c.0.0, AllAfter-AllGreater e l c.1), s)
    Cut-place-Sorted e (x ∷ l) (inr (b, c)) s =
        rw b.0 (AllGreater-place x e l s.0 b.1, Cut-place-Sorted e l c s.1)

    module _ (order : IsOrder less) where
      new-After : (e x : Entry T) → x.ordinal < e.ordinal → less e x ≡ true → After less e x
      new-After e x fresh h = (h, order.apart x e (omega arith) ∙ ap not h)

      AllGreater-AllAfter :
          (e x : Entry T) (l : List (Entry T))
          → Fresh e.ordinal l
          → less e x ≡ true
          → AllGreater x l
          → AllAfter less e l
      AllGreater-AllAfter e x [] fresh h g = tt
      AllGreater-AllAfter e x (y ∷ l) fresh h g =
          (new-After e y fresh.0 (order.trans e x y h g.0), AllGreater-AllAfter e x l fresh.1 h g.1)

      pub Sorted-Cut :
          (e : Entry T) (l : List (Entry T)) → Fresh e.ordinal l → Sorted l → Cut less e l
      Sorted-Cut e [] fresh s = tt
      Sorted-Cut e (x ∷ l) fresh s = elim (Bool-cases (less e x)) [
        | inl before ↦
            inl (new-After e x fresh.0 before, AllGreater-AllAfter e x l fresh.1 before s.0)
        | inr after ↦ inr (
          (after, order.apart x e (omega (arith, fresh.0)) ∙ ap not after),
          Sorted-Cut e l fresh.1 s.1,
        )
      ]

    pub Fresh_suc : (n : ℕ) (l : List (Entry T)) → Fresh n l → Fresh (n + 1) l
    Fresh_suc n [] f = tt
    Fresh_suc n (x ∷ l) f = (omega (arith, f.0), Fresh_suc n l f.1)

    pub Fresh-place :
        (n : ℕ) (e : Entry T) (l : List (Entry T))
        → e.ordinal < n
        → Fresh n l
        → Fresh n (place less e l)
    Fresh-place n e [] h f = (h, tt)
    Fresh-place n e (x ∷ l) h f = elim (Bool-cases (less e x)) [
      | inl before ↦ rw before (h, f)
      | inr after ↦ rw after (f.0, Fresh-place n e l h f.1)
    ]

    pub length-place : (e : Entry T) (l : List (Entry T)) → length (place less e l) ≡ length l + 1
    length-place e [] = refl
    length-place e (x ∷ l) = elim (Bool-cases (less e x)) [
      | inl before ↦ rw before (omega arith)
      | inr after ↦ rw after (omega (arith, length-place e l))
    ]
