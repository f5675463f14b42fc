-- ===== src/Device/Display/StrictWeak.antt =====
-- src/app/gui/core/dmn-device-selection-model.cpp: what `std::stable_sort` asks of its comparison.
use dmn.Prelude.{◌≡◌, refl, sym, ap, ◌∙◌, Bool, true, false}
use dmn.Device.Display.{DeviceSortColumn, Comparison, less, equal, greater, is_less, precedes}
use dmn.Device.Display.Order.{flip, IsOrder}
use dmn.Device.Display.Precedes.{total, total-IsOrder, precedes_lem}

-- A strict weak order: an order in which "neither comes first" is transitive as well.
pub record IsStrictWeakOrder {A : Type 0} (before : A → A → Bool) : Type 0 where
  pub irreflexive : (a : A) → before a a ≡ false
  pub asymmetric : (a b : A) → before a b ≡ true → before b a ≡ false
  pub transitive : (a b c : A) → before a b ≡ true → before b c ≡ true → before a c ≡ true
  pub not_before : (a b c : A) → before a b ≡ false → before b c ≡ false → before a c ≡ false

sign_of : (x : Comparison) → is_less x ≡ true → x ≡ less
sign_of less h = refl
sign_of equal h = cc
sign_of greater h = cc

self_sign : (x : Comparison) → x ≡ flip x → is_less x ≡ false
self_sign less e = cc
self_sign equal e = refl
self_sign greater e = refl

flip_sign : (x : Comparison) → is_less x ≡ true → is_less (flip x) ≡ false
flip_sign less h = refl
flip_sign equal h = cc
flip_sign greater h = cc

module _ {A : Type 0} (cmp : A → A → Comparison) (v : IsOrder cmp) where
  -- Where neither step goes up, the way does not.
  descending :
      (a b c : A) (x y : Comparison)
      → cmp a b ≡ x
      → cmp b c ≡ y
      → is_less x ≡ false
      → is_less y ≡ false
      → is_less (cmp a c) ≡ false
  descending a b c less y e k h i = cc
  descending a b c equal y e k h i = rw (v.congruent a b c e) (rw k i)
  descending a b c greater less e k h i = cc
  descending a b c greater equal e k h i =
      let same : cmp c a ≡ cmp b a = v.congruent c b a (v.flips b c ∙ ap flip k) in
      rw (v.flips c a ∙ ap flip (same ∙ v.flips a b ∙ ap flip e)) refl
  descending a b c greater greater e k h i =
      let up = v.transitive c b a (v.flips b c ∙ ap flip k) (v.flips a b ∙ ap flip e) in
      rw (v.flips c a ∙ ap flip up) refl

  strict : IsStrictWeakOrder (λ a b. is_less (cmp a b))
  strict = record {
    irreflexive = λ a. self_sign (cmp a a) (v.flips a a);
    asymmetric = λ a b h. rw (v.flips a b) (flip_sign (cmp a b) h);
    transitive =
        λ a b c h k. rw (v.transitive a b c (sign_of (cmp a b) h) (sign_of (cmp b c) k)) refl;
    not_before = λ a b c h k. descending a b c (cmp a b) (cmp b c) refl refl h k;
  }

transported :
    {A : Type 0} (f g : A → A → Bool)
    → ((a b : A) → f a b ≡ g a b)
    → IsStrictWeakOrder g
    → IsStrictWeakOrder f
transported f g e v = record {
  irreflexive = λ a. e a a ∙ v.irreflexive a;
  asymmetric = λ a b h. e b a ∙ v.asymmetric a b (sym (e a b) ∙ h);
  transitive = λ a b c h k. e a c ∙ v.transitive a b c (sym (e a b) ∙ h) (sym (e b c) ∙ k);
  not_before = λ a b c h k. e a c ∙ v.not_before a b c (sym (e a b) ∙ h) (sym (e b c) ∙ k);
}

-- The comparison of `applySort` is a strict weak order of the devices, for either column and either
-- direction, as `std::stable_sort` requires.
pub precedes-IsStrictWeakOrder :
    (column : DeviceSortColumn) (ascending : Bool) → IsStrictWeakOrder (precedes column ascending)
precedes-IsStrictWeakOrder column ascending =
    transported (precedes column ascending) (λ a b. is_less (total column ascending a b))
      (λ a b. precedes_lem column ascending a b)
      (strict (total column ascending) (total-IsOrder column ascending))
