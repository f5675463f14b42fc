-- ===== src/Json/Members.antt =====
-- src/app/engine/dmn-json.cpp: the members of an object, looked up, replaced and appended.
use dmn.Prelude.{
  ℕ, suc, ◌≤◌, ◌≡◌, refl, sym, ap, ◌∙◌, max, true, false, inl, inr, [], ◌∷◌, none, some, ==_iff,
  if◌then◌else◌, Bool-cases, arith,
}
use mathlib.Core.Path.{ap₂}
use dmn.Json.{
  Bytes, Value, Items, Fields, null, array, object, no_items, item, no_fields, field, equal,
  push_back, set_field, find_field, set, find,
}

pub equal→eq : (xs ys : Bytes) → equal xs ys ≡ true → xs ≡ ys
equal→eq [] [] e = refl
equal→eq [] (y ∷ ys) e = cc
equal→eq (x ∷ xs) [] e = cc
equal→eq (x ∷ xs) (y ∷ ys) e =
    ap₂ ◌∷◌ ((==_iff x y).0 (ground arith)) (equal→eq xs ys (ground arith))

pub equal_refl : (xs : Bytes) → equal xs xs ≡ true
equal_refl [] = refl
equal_refl (x ∷ xs) = let same = (==_iff x x).1 refl in let rest = equal_refl xs in ground arith

pub unequal : (xs ys : Bytes) → equal xs ys ≡ false → equal ys xs ≡ false
unequal xs ys e = elim (Bool-cases (equal ys xs)) [
  | inl same ↦ let here = ap (equal xs) (equal→eq ys xs same) ∙ equal_refl xs in cc
  | inr other ↦ other
]

module _ {D : Type 0} where
  -- Looking a key up after a write of a member.
  pub find_field-set_field :
      (j k : Bytes) (v : Value D) (fs : Fields D)
      → find_field j (set_field k v fs) ≡ (if equal k j then some v else find_field j fs)
  find_field-set_field j k v no_fields = refl
  find_field-set_field j k v (field i w fs) = elim (Bool-cases (equal i k)) [
    | inl same ↦
        let moved : equal i j ≡ equal k j = ap (λ x. equal x j) (equal→eq i k same) in
        elim (Bool-cases (equal k j)) [
          | inl h ↦ simp (same, moved, h)
          | inr h ↦ simp (same, moved, h)
        ]
    | inr other ↦ elim (Bool-cases (equal i j)) [
      | inl here ↦ elim (Bool-cases (equal k j)) [
        | inl h ↦
            let both = equal→eq i j here ∙ sym (equal→eq k j h) in
            let same = ap (equal i) (sym both) ∙ equal_refl i in cc
        | inr h ↦ simp (other, here, h)
      ]
      | inr away ↦ simp (other, away, find_field-set_field j k v fs)
    ]
  ]

  -- `find` after `set` on an object: the value written for the key written, and what was there for any
  -- other key; and `set` on a value that is no object changes nothing.
  pub find-set :
      (j k : Bytes) (v : Value D) (fs : Fields D) (xs : Items D)
      → (find j (set k v (object fs)) ≡ (if equal k j then some v else find j (object fs)))
        × (set k v (array xs) ≡ array xs)
        × (set k v null ≡ null)
  unfolding find set
  find-set j k v fs xs = (find_field-set_field j k v fs, refl, refl)

  -- No key stands twice in an object, at any depth.
  abbrev mutual
    pub Distinct : Value D → Type 0
    Distinct (array xs) = AllDistinct xs
    Distinct (object fs) = DistinctFields fs
    Distinct _ = Unit

    pub AllDistinct : Items D → Type 0
    AllDistinct no_items = Unit
    AllDistinct (item v xs) = Distinct v × AllDistinct xs

    pub DistinctFields : Fields D → Type 0
    DistinctFields no_fields = Unit
    DistinctFields (field k v fs) = (find_field k fs ≡ none) × Distinct v × DistinctFields fs

  -- How deep arrays and objects are nested in a value, an empty one not counted.
  abbrev mutual
    pub height : Value D → ℕ
    height (array xs) = height_items xs
    height (object fs) = height_fields fs
    height _ = 0

    pub height_items : Items D → ℕ
    height_items no_items = 0
    height_items (item v xs) = max (suc (height v)) (height_items xs)

    pub height_fields : Fields D → ℕ
    height_fields no_fields = 0
    height_fields (field k v fs) = max (suc (height v)) (height_fields fs)

  pub push_back-AllDistinct :
      (xs : Items D) (v : Value D) → AllDistinct xs → Distinct v → AllDistinct (push_back xs v)
  push_back-AllDistinct no_items v all d = (d, tt)
  push_back-AllDistinct (item w xs) v all d = (all.0, push_back-AllDistinct xs v all.1 d)

  pub set_field-DistinctFields :
      (k : Bytes) (v : Value D) (fs : Fields D)
      → DistinctFields fs
      → Distinct v
      → DistinctFields (set_field k v fs)
  set_field-DistinctFields k v no_fields all d = (refl, d, tt)
  set_field-DistinctFields k v (field i w fs) all d = elim (Bool-cases (equal i k)) [
    | inl same ↦ rw same (all.0, d, all.2)
    | inr other ↦ rw other (
      find_field-set_field i k v fs ∙ rw (unequal i k other) all.0,
      all.1,
      set_field-DistinctFields k v fs all.2 d,
    )
  ]

  pub height_items-push_back :
      (xs : Items D) (v : Value D)
      → height_items (push_back xs v) ≡ max (height_items xs) (suc (height v))
  height_items-push_back no_items v = omega arith
  height_items-push_back (item w xs) v = let r = height_items-push_back xs v in omega arith

  pub height_fields-set_field :
      (k : Bytes) (v : Value D) (fs : Fields D)
      → height_fields (set_field k v fs) ≤ max (height_fields fs) (suc (height v))
  height_fields-set_field k v no_fields = omega arith
  height_fields-set_field k v (field i w fs) =
      let r = height_fields-set_field k v fs in
      elim (Bool-cases (equal i k)) [
        | inl same ↦ rw same (omega arith)
        | inr other ↦ rw other (omega arith)
      ]
