-- ===== src/EventStore/Filter/Occurs.antt =====
-- src/app/gui/core/dmn-device-monitor-event-store.cpp: `std::string::find`.
use dmn.Prelude.{ℕ, ◌≡◌, refl, ap, inl, inr, true, List, [], ◌∷◌, ◌++◌, arith, Bool-cases}
use dmn.EventStore.Filter.{starts_with, occurs}

starts_with_sound : (q t : List ℕ) → starts_with q t ≡ true → (after : List ℕ) × (t ≡ q ++ after)
unfolding starts_with
starts_with_sound [] t h = (t, refl)
starts_with_sound (q ∷ qs) [] h = cc
starts_with_sound (q ∷ qs) (t ∷ ts) h =
    let e : q ≡ t = ground arith in
    let (after, r) = starts_with_sound qs ts (ground arith) in (after, cc)

starts_with_complete : (q after : List ℕ) → starts_with q (q ++ after) ≡ true
unfolding starts_with
starts_with_complete [] after = refl
starts_with_complete (q ∷ qs) after = let r = starts_with_complete qs after in ground arith

pub occurs_sound :
    (q t : List ℕ)
    → occurs q t ≡ true
    → (before : List ℕ) × (after : List ℕ) × (t ≡ before ++ (q ++ after))
unfolding occurs
occurs_sound q [] h = let (after, e) = starts_with_sound q [] h in ([], after, e)
occurs_sound q (t ∷ ts) h = elim (Bool-cases (starts_with q (t ∷ ts))) [
  | inl here ↦ let (after, e) = starts_with_sound q (t ∷ ts) here in ([], after, e)
  | inr there ↦
      let (before, after, e) = occurs_sound q ts (ground arith) in (t ∷ before, after, ap (◌∷◌ t) e)
]

occurs_here : (q t : List ℕ) → starts_with q t ≡ true → occurs q t ≡ true
unfolding occurs
occurs_here q [] h = h
occurs_here q (t ∷ ts) h = rw h refl

occurs_behind : (q t : List ℕ) (b : ℕ) → occurs q t ≡ true → occurs q (b ∷ t) ≡ true
unfolding occurs
occurs_behind q t b h = ground arith

pub occurs_complete : (q before after : List ℕ) → occurs q (before ++ (q ++ after)) ≡ true
occurs_complete q [] after = occurs_here q (q ++ after) (starts_with_complete q after)
occurs_complete q (b ∷ before) after =
    occurs_behind q (before ++ (q ++ after)) b (occurs_complete q before after)
