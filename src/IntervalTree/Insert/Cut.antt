-- ===== src/IntervalTree/Insert/Cut.antt =====
-- include/dmn-interval-btree.hpp: the place of a new entry in a list of entries.
use dmn.Prelude.{
  suc, ◌≡◌, refl, ap, ◌∙◌, Bool, true, false, ◌⊎◌, inl, inr, List, [], ◌∷◌, ◌++◌, if◌then◌else◌,
  ◌==◌, Bool-cases,
}
use dmn.IntervalTree.{Entry}
use dmn.IntervalTree.Insert.{child_index, insert_at}

module _ {T : Type 0} (less : Entry T → Entry T → Bool) where
  abbrev pub After : Entry T → Entry T → Type 0
  After e x = (less e x ≡ true) × (less x e ≡ false)

  abbrev pub Before : Entry T → Entry T → Type 0
  Before e x = (less e x ≡ false) × (less x e ≡ true)

  abbrev pub AllAfter : Entry T → List (Entry T) → Type 0
  AllAfter e [] = Unit
  AllAfter e (x ∷ l) = After e x × AllAfter e l

  abbrev pub AllBefore : Entry T → List (Entry T) → Type 0
  AllBefore e [] = Unit
  AllBefore e (x ∷ l) = Before e x × AllBefore e l

  -- The entries before `e` come first, and then those after it.
  abbrev pub Cut : Entry T → List (Entry T) → Type 0
  Cut e [] = Unit
  Cut e (x ∷ l) = (After e x × AllAfter e l) ⊎ (Before e x × Cut e l)

  -- The specification of an insertion: before the first entry that is greater.
  abbrev pub place : Entry T → List (Entry T) → List (Entry T)
  place e [] = e ∷ []
  place e (x ∷ l) = let rest = place e l in if less e x then e ∷ (x ∷ l) else x ∷ rest

  pub AllBefore-Cut : (e : Entry T) (l : List (Entry T)) → AllBefore e l → Cut e l
  AllBefore-Cut e [] b = tt
  AllBefore-Cut e (x ∷ l) b = inr (b.0, AllBefore-Cut e l b.1)

  pub AllAfter-append :
      (e : Entry T) (a b : List (Entry T)) → AllAfter e (a ++ b) → AllAfter e a × AllAfter e b
  AllAfter-append e [] b h = (tt, h)
  AllAfter-append e (x ∷ a) b h =
      let (first, rest) = AllAfter-append e a b h.1 in ((h.0, first), rest)

  AllAfter-Cut : (e : Entry T) (l : List (Entry T)) → AllAfter e l → Cut e l
  AllAfter-Cut e [] h = tt
  AllAfter-Cut e (x ∷ l) h = inl h

  pub Cut-append :
      (e : Entry T) (a b : List (Entry T))
      → Cut e (a ++ b)
      → (Cut e a × AllAfter e b) ⊎ (AllBefore e a × Cut e b)
  Cut-append e [] b h = inr (tt, h)
  Cut-append e (x ∷ a) b (inl h) =
      let (first, rest) = AllAfter-append e a b h.1 in inl (inl (h.0, first), rest)
  Cut-append e (x ∷ a) b (inr (h, more)) = elim (Cut-append e a b more) [
    | inl (first, rest) ↦ inl (inr (h, first), rest)
    | inr (first, rest) ↦ inr ((h, first), rest)
  ]

  pub place-before :
      (e : Entry T) (a b : List (Entry T)) → AllBefore e a → place e (a ++ b) ≡ a ++ place e b
  place-before e [] b h = refl
  place-before e (x ∷ a) b h = rw h.0.0 (ap (x ∷◌) (place-before e a b h.1))

  pub place-after :
      (e : Entry T) (a b : List (Entry T)) → AllAfter e b → place e (a ++ b) ≡ place e a ++ b
  place-after e [] [] h = refl
  place-after e [] (x ∷ b) h = rw h.0.0 refl
  place-after e (x ∷ a) b h = elim (Bool-cases (less e x)) [
    | inl before ↦ rw before refl
    | inr later ↦ rw later (ap (x ∷◌) (place-after e a b h))
  ]

  pub child_index-AllAfter :
      (e : Entry T) (l : List (Entry T)) → AllAfter e l → child_index less e l ≡ 0
  child_index-AllAfter e [] h = refl
  child_index-AllAfter e (x ∷ l) h = rw (child_index-AllAfter e l h.1, h.0.0) refl

  pub child_index-Before :
      (e x : Entry T) (l : List (Entry T))
      → Before e x
      → child_index less e (x ∷ l) ≡ suc (child_index less e l)
  child_index-Before e x l h = rw h.0 (elim (Bool-cases (child_index less e l == 0)) [
    | inl first ↦ rw first refl
    | inr later ↦ rw later refl
  ])

  pub insert_at-child_index :
      (e : Entry T) (l : List (Entry T))
      → Cut e l
      → insert_at (child_index less e l) e l ≡ place e l
  insert_at-child_index e [] h = refl
  insert_at-child_index e (x ∷ l) (inl h) = rw (child_index-AllAfter e l h.1, h.0.0) refl
  insert_at-child_index e (x ∷ l) (inr (h, more)) =
      rw (child_index-Before e x l h, h.0) (ap (x ∷◌) (insert_at-child_index e l more))

  pub place-middle :
      (e x : Entry T) (a b : List (Entry T))
      → AllBefore e a
      → Before e x
      → place e (a ++ (x ∷ b)) ≡ a ++ (x ∷ place e b)
  place-middle e x a b h k = place-before e a (x ∷ b) h ∙ rw k.0 refl

  -- Either the new entry goes before an entry of the list, or after it.
  pub Cut-parts :
      (e x : Entry T) (a b : List (Entry T))
      → Cut e (a ++ (x ∷ b))
      → (Cut e a × AllAfter e (x ∷ b)) ⊎ (AllBefore e a × Before e x × Cut e b)
  Cut-parts e x a b h = elim (Cut-append e a (x ∷ b) h) [
    | inl before ↦ inl before
    | inr (before, inl after) ↦ inl (AllBefore-Cut e a before, after)
    | inr (before, inr more) ↦ inr (before, more.0, more.1)
  ]
