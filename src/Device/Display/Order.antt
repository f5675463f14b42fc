-- ===== src/Device/Display/Order.antt =====
-- src/app/gui/core/dmn-device-selection-model.cpp: the comparison of `applySort` is an order, as
-- `std::stable_sort` asks for.
use dmn.Prelude.{ℕ, ◌≡◌, refl, sym, ap, ◌∙◌, Bool, true, false, ltb, ◌==◌, if◌then◌else◌, arith}
use dmn.Device.Display.{Comparison, less, equal, greater}

abbrev pub flip : Comparison → Comparison
flip less = greater
flip equal = equal
flip greater = less

-- A three-way comparison that orders its arguments, up to those that it holds for equal.
pub record IsOrder {A : Type 0} (cmp : A → A → Comparison) : Type 0 where
  pub flips : (a b : A) → cmp b a ≡ flip (cmp a b)
  pub congruent : (a b c : A) → cmp a b ≡ equal → cmp a c ≡ cmp b c
  pub transitive : (a b c : A) → cmp a b ≡ less → cmp b c ≡ less → cmp a c ≡ less

abbrev pub compare_nat : ℕ → ℕ → Comparison
compare_nat a b = if a == b then equal else if ltb a b then less else greater

pub compare_nat-IsOrder : IsOrder compare_nat
compare_nat-IsOrder = record {
  flips = λ a b. ground arith;
  congruent = λ a b c h. ground arith;
  transitive = λ a b c h k. ground arith;
}

-- First one comparison, then another.
abbrev pub then_by : Comparison → Comparison → Comparison
then_by less next = less
then_by equal next = next
then_by greater next = greater

pub flip-then_by : (x y : Comparison) → flip (then_by x y) ≡ then_by (flip x) (flip y)
flip-then_by less y = refl
flip-then_by equal y = refl
flip-then_by greater y = refl

abbrev pub lexicographic :
    {A : Type 0} → (A → A → Comparison) → (A → A → Comparison) → A → A → Comparison
lexicographic f g a b = then_by (f a b) (g a b)

module _ {A : Type 0} (f g : A → A → Comparison) (v : IsOrder f) (w : IsOrder g) where
  pub lexicographic-congruent :
      (a b c : A) (x : Comparison)
      → f a b ≡ x
      → then_by x (g a b) ≡ equal
      → lexicographic f g a c ≡ lexicographic f g b c
  lexicographic-congruent a b c less e h = cc
  lexicographic-congruent a b c equal e h = rw (v.congruent a b c e) (rw (w.congruent a b c h) refl)
  lexicographic-congruent a b c greater e h = cc

  less_equal : (a b c : A) → f a b ≡ less → f b c ≡ equal → f a c ≡ less
  less_equal a b c h k =
      let back : f c a ≡ f b a = v.congruent c b a (v.flips b c ∙ ap flip k) in
      v.flips c a ∙ ap flip (back ∙ v.flips a b ∙ ap flip h)

  pub lexicographic-transitive :
      (a b c : A) (x y : Comparison)
      → f a b ≡ x
      → f b c ≡ y
      → then_by x (g a b) ≡ less
      → then_by y (g b c) ≡ less
      → lexicographic f g a c ≡ less
  lexicographic-transitive a b c less less e k h i = rw (v.transitive a b c e k) refl
  lexicographic-transitive a b c less equal e k h i = rw (less_equal a b c e k) refl
  lexicographic-transitive a b c equal less e k h i = rw (v.congruent a b c e ∙ k) refl
  lexicographic-transitive a b c equal equal e k h i =
      rw (v.congruent a b c e ∙ k) (w.transitive a b c h i)
  lexicographic-transitive a b c greater y e k h i = cc
  lexicographic-transitive a b c less greater e k h i = cc
  lexicographic-transitive a b c equal greater e k h i = cc

  pub lexicographic-IsOrder : IsOrder (lexicographic f g)
  lexicographic-IsOrder = record {
    flips = λ a b. rw (v.flips a b) (rw (w.flips a b) (sym (flip-then_by (f a b) (g a b))));
    congruent = λ a b c h. lexicographic-congruent a b c (f a b) refl h;
    transitive = λ a b c h k. lexicographic-transitive a b c (f a b) (f b c) refl refl h k;
  }

unfoldable pub on : {A B : Type 0} → (A → B) → (B → B → Comparison) → A → A → Comparison
on key cmp a b = cmp (key a) (key b)

pub on-IsOrder :
    {A B : Type 0} (key : A → B) (cmp : B → B → Comparison) → IsOrder cmp → IsOrder (on key cmp)
unfolding on
on-IsOrder key cmp v = record {
  flips = λ a b. v.flips (key a) (key b);
  congruent = λ a b c h. v.congruent (key a) (key b) (key c) h;
  transitive = λ a b c h k. v.transitive (key a) (key b) (key c) h k;
}

unfoldable pub directed : {A : Type 0} → Bool → (A → A → Comparison) → A → A → Comparison
directed true cmp a b = cmp a b
directed false cmp a b = cmp b a

pub directed-IsOrder :
    {A : Type 0} (ascending : Bool) (cmp : A → A → Comparison)
    → IsOrder cmp
    → IsOrder (directed ascending cmp)
unfolding directed
directed-IsOrder true cmp v = record {
  flips = λ a b. v.flips a b;
  congruent = λ a b c h. v.congruent a b c h;
  transitive = λ a b c h k. v.transitive a b c h k;
}
directed-IsOrder false cmp v = record {
  flips = λ a b. v.flips b a;
  congruent = λ a b c h.
      v.flips a c ∙ ap flip (v.congruent a b c (v.flips b a ∙ ap flip h)) ∙ sym (v.flips b c);
  transitive = λ a b c h k. v.transitive c b a k h;
}
