-- ===== src/IntervalTree/Insert/Sorted/Comparator.antt =====
-- include/dmn-interval-btree.hpp: the order of the entries under a comparator of the client.
use dmn.Prelude.{
  ◌≡◌, ◌≢◌, refl, sym, ap, ◌∙◌, Bool, true, false, not, ◌&&◌, inl, inr, Option, none, some, arith,
  Bool-cases, ◌==◌, ltb,
}
use dmn.IntervalTree.{Range, Entry}
use dmn.IntervalTree.Insert.{entry_less, default_range_less, by_comparator}
use dmn.IntervalTree.Insert.Sorted.{IsOrder, default-IsOrder}

-- What `canonical_comparator` is documented to be: a strict weak order.
pub record IsStrictWeak (f : Range → Range → Bool) : Type 0 where
  pub asym : (a b : Range) → f a b ≡ true → f b a ≡ false
  pub weak : (a b d : Range) → f a b ≡ false → f b d ≡ false → f a d ≡ false

same_range : (a b : Range) → ((a.start == b.start) && (a.end == b.end)) ≡ true → a ≡ b
same_range a b h =
    let start : a.start ≡ b.start = ground arith in
    let end : a.end ≡ b.end = ground arith in
    ap (λ s. let r : Range = record { start = s; end = a.end } in r) start
    ∙ ap (λ e. let r : Range = record { start = b.start; end = e } in r) end

module _ (f : Range → Range → Bool) (order : IsStrictWeak f) where
  by_apart :
      (a b : Range)
      → ((a.start == b.start) && (a.end == b.end)) ≡ false
      → by_comparator (some f) a b ≡ not (by_comparator (some f) b a)
  by_apart a b ne = elim (Bool-cases (f a b)) [
    | inl before ↦ rw (before, order.asym a b before) refl
    | inr not_before ↦ elim (Bool-cases (f b a)) [
      | inl after ↦ rw (not_before, after) refl
      | inr level ↦ rw (not_before, level) (ground arith)
    ]
  ]

  by_first : (a b : Range) → f a b ≡ true → by_comparator (some f) a b ≡ true
  by_first a b h = rw h refl

  -- Where the comparator does not put `a` first, it does not put `b` first either.
  by_level :
      (a b : Range)
      → by_comparator (some f) a b ≡ true
      → f a b ≡ false
      → (f b a ≡ false) × (default_range_less a b ≡ true)
  by_level a b h missed = elim (Bool-cases (f b a)) [
    | inl after ↦ let clash : false ≡ true = rw (missed, after) at h in cc
    | inr level ↦ (level, rw (missed, level) at h)
  ]

  by_trans :
      (a b d : Range)
      → by_comparator (some f) a b ≡ true
      → by_comparator (some f) b d ≡ true
      → by_comparator (some f) a d ≡ true
  by_trans a b d x y = elim (Bool-cases (f a d)) [
    | inl first ↦ by_first a d first
    | inr missed ↦ elim (Bool-cases (f a b)) [
      | inl ab ↦ elim (Bool-cases (f d b)) [
        | inl db ↦
            let (bd, less) = by_level b d y (order.asym d b db) in
            let clash : true ≡ false = sym db ∙ bd in cc
        | inr db ↦ let clash : true ≡ false = sym ab ∙ order.weak a d b missed db in cc
      ]
      | inr ab ↦
          let (ba, first) = by_level a b x ab in
          let bd = order.weak b a d ba missed in
          let (db, second) = by_level b d y bd in
          let da = order.weak d b a db ba in
          let less : default_range_less a d ≡ true = ground arith in rw (missed, da) less
    ]
  ]

  module _ {T : Type 0} where
    entry_less_same :
        (a b : Entry T)
        → ((a.range.start == b.range.start) && (a.range.end == b.range.end)) ≡ true
        → entry_less (some f) a b ≡ ltb a.ordinal b.ordinal
    entry_less_same a b h = rw h refl

    entry_less_other :
        (a b : Entry T)
        → ((a.range.start == b.range.start) && (a.range.end == b.range.end)) ≡ false
        → entry_less (some f) a b ≡ by_comparator (some f) a.range b.range
    entry_less_other a b h = rw h refl

    apart :
        (a b : Entry T)
        → a.ordinal ≢ b.ordinal
        → entry_less (some f) a b ≡ not (entry_less (some f) b a)
    apart a b ne =
        elim (Bool-cases ((a.range.start == b.range.start) && (a.range.end == b.range.end))) [
          | inl same ↦
              let back = entry_less_same b a (ground arith) in
              entry_less_same a b same ∙ ground arith
          | inr other ↦
              let back = entry_less_other b a (ground arith) in
              entry_less_other a b other ∙ by_apart a.range b.range other ∙ ap not (sym back)
        ]

    abbrev same : Entry T → Entry T → Bool
    same a b = (a.range.start == b.range.start) && (a.range.end == b.range.end)

    trans :
        (a b d : Entry T)
        → entry_less (some f) a b ≡ true
        → entry_less (some f) b d ≡ true
        → entry_less (some f) a d ≡ true
    trans a b d x y = elim (Bool-cases (same a b)) [
      | inl ab ↦ elim (Bool-cases (same b d)) [
        | inl bd ↦
            let first : ltb a.ordinal b.ordinal ≡ true = sym (entry_less_same a b ab) ∙ x in
            let second : ltb b.ordinal d.ordinal ≡ true = sym (entry_less_same b d bd) ∙ y in
            entry_less_same a d (ground arith) ∙ ground arith
        | inr bd ↦
            entry_less_other a d (ground arith)
            ∙ ap (λ r. by_comparator (some f) r d.range) (same_range a.range b.range ab)
            ∙ sym (entry_less_other b d bd)
            ∙ y
      ]
      | inr ab ↦
          let first : by_comparator (some f) a.range b.range ≡ true =
            sym (entry_less_other a b ab) ∙ x in
          elim (Bool-cases (same b d)) [
            | inl bd ↦
                entry_less_other a d (ground arith)
                ∙ ap (λ r. by_comparator (some f) a.range r) (sym (same_range b.range d.range bd))
                ∙ first
            | inr bd ↦
                let second : by_comparator (some f) b.range d.range ≡ true =
                  sym (entry_less_other b d bd) ∙ y in
                elim (Bool-cases (same a d)) [
                  | inl ad ↦
                      let back : by_comparator (some f) b.range a.range ≡ true =
                        ap (λ r. by_comparator (some f) b.range r) (same_range a.range d.range ad)
                        ∙ second in
                      let clash : true ≡ false =
                        sym first ∙ by_apart a.range b.range ab ∙ ap not back in
                      cc
                  | inr ad ↦ entry_less_other a d ad ∙ by_trans a.range b.range d.range first second
                ]
          ]
    ]

    -- A comparator as it is documented gives the order that insertion relies on.
    comparator-IsOrder : IsOrder {T = T} (entry_less (some f))
    comparator-IsOrder = record { apart = apart; trans = trans }

-- An optional comparator is a strict weak order when it is given.
abbrev pub IsCanonical : Option (Range → Range → Bool) → Type 0
IsCanonical none = Unit
IsCanonical (some f) = IsStrictWeak f

pub canonical-IsOrder :
    {T : Type 0} (c : Option (Range → Range → Bool))
    → IsCanonical c
    → IsOrder {T = T} (entry_less c)
canonical-IsOrder none h = default-IsOrder
canonical-IsOrder (some f) h = comparator-IsOrder f h
