-- ===== src/Device/Display/Precedes.antt =====
-- src/app/gui/core/dmn-device-selection-model.cpp: the comparison of `applySort`, as a composed order.
use dmn.Prelude.{
  ℕ, ◌≡◌, refl, sym, inl, inr, ◌⊎◌, Bool, true, false, not, List, [], ◌∷◌, if◌then◌else◌, arith,
}
use dmn.Device.{same_text}
use dmn.Device.Display.{
  DeviceEntry, DeviceSortColumn, Comparison, less, equal, greater, to_lower,
  compare_case_insensitive, text_less, device_display_name, by_sign, primary, precedes, is_less,
  is_equal,
}
use dmn.Device.Display.Order.{
  flip, IsOrder, compare_nat, compare_nat-IsOrder, then_by, flip-then_by, lexicographic,
  lexicographic-IsOrder, on, on-IsOrder, directed, directed-IsOrder,
}

-- Lists by their first difference under `key`; a proper prefix comes first.
compare_with : (ℕ → ℕ) → List ℕ → List ℕ → Comparison
compare_with key [] [] = equal
compare_with key [] (r ∷ rs) = less
compare_with key (l ∷ ls) [] = greater
compare_with key (l ∷ ls) (r ∷ rs) =
    let rest = compare_with key ls rs in then_by (compare_nat (key l) (key r)) rest

flips_with : (key : ℕ → ℕ) (a b : List ℕ) → compare_with key b a ≡ flip (compare_with key a b)
unfolding compare_with
flips_with key [] [] = refl
flips_with key [] (r ∷ rs) = refl
flips_with key (l ∷ ls) [] = refl
flips_with key (l ∷ ls) (r ∷ rs) = rw (compare_nat-IsOrder.flips (key l) (key r)) (
    rw (flips_with key ls rs)
      (sym (flip-then_by (compare_nat (key l) (key r)) (compare_with key ls rs))))

then_equal : (x y : Comparison) → then_by x y ≡ equal → (x ≡ equal) × (y ≡ equal)
then_equal less y h = cc
then_equal equal y h = (refl, h)
then_equal greater y h = cc

congruent_with :
    (key : ℕ → ℕ) (a b c : List ℕ)
    → compare_with key a b ≡ equal
    → compare_with key a c ≡ compare_with key b c
unfolding compare_with
congruent_with key [] [] c h = refl
congruent_with key [] (y ∷ b) c h = cc
congruent_with key (x ∷ a) [] c h = cc
congruent_with key (x ∷ a) (y ∷ b) [] h = refl
congruent_with key (x ∷ a) (y ∷ b) (z ∷ c) h =
    let (same, rest) = then_equal (compare_nat (key x) (key y)) (compare_with key a b) h in
    rw (compare_nat-IsOrder.congruent (key x) (key y) (key z) same)
      (rw (congruent_with key a b c rest) refl)

then_less : (x y : Comparison) → then_by x y ≡ less → (x ≡ less) ⊎ ((x ≡ equal) × (y ≡ less))
then_less less y h = inl refl
then_less equal y h = inr (refl, h)
then_less greater y h = cc

transitive_with :
    (key : ℕ → ℕ) (a b c : List ℕ)
    → compare_with key a b ≡ less
    → compare_with key b c ≡ less
    → compare_with key a c ≡ less
unfolding compare_with
transitive_with key [] [] c h k = k
transitive_with key [] (y ∷ b) [] h k = cc
transitive_with key [] (y ∷ b) (z ∷ c) h k = refl
transitive_with key (x ∷ a) [] c h k = cc
transitive_with key (x ∷ a) (y ∷ b) [] h k = cc
transitive_with key (x ∷ a) (y ∷ b) (z ∷ c) h k =
    let next = transitive_with key a b c in
    elim (then_less (compare_nat (key x) (key y)) (compare_with key a b) h) [
      | inl lt ↦ elim (then_less (compare_nat (key y) (key z)) (compare_with key b c) k) [
        | inl lt2 ↦ rw (compare_nat-IsOrder.transitive (key x) (key y) (key z) lt lt2) refl
        | inr (eq2, lt2) ↦ let e : compare_nat (key x) (key z) ≡ less = ground arith in rw e refl
      ]
      | inr (eq1, lt1) ↦ elim (then_less (compare_nat (key y) (key z)) (compare_with key b c) k) [
        | inl lt2 ↦ let e : compare_nat (key x) (key z) ≡ less = ground arith in rw e refl
        | inr (eq2, lt2) ↦
            let e : compare_nat (key x) (key z) ≡ equal = ground arith in rw e (next lt1 lt2)
      ]
    ]

compare_with-IsOrder : (key : ℕ → ℕ) → IsOrder (compare_with key)
compare_with-IsOrder key = record {
  flips = λ a b. flips_with key a b;
  congruent = λ a b c h. congruent_with key a b c h;
  transitive = λ a b c h k. transitive_with key a b c h k;
}

case_insensitive_lem : (a b : List ℕ) → compare_case_insensitive a b ≡ compare_with to_lower a b
unfolding compare_case_insensitive compare_with
case_insensitive_lem [] [] = refl
case_insensitive_lem [] (r ∷ rs) = refl
case_insensitive_lem (l ∷ ls) [] = refl
case_insensitive_lem (l ∷ ls) (r ∷ rs) = let next = case_insensitive_lem ls rs in ground arith

abbrev self : ℕ → ℕ
self n = n

text_less_lem : (a b : List ℕ) → text_less a b ≡ is_less (compare_with self a b)
unfolding text_less compare_with
text_less_lem [] [] = refl
text_less_lem [] (r ∷ rs) = refl
text_less_lem (l ∷ ls) [] = refl
text_less_lem (l ∷ ls) (r ∷ rs) = let next = text_less_lem ls rs in ground arith

same_text_lem : (a b : List ℕ) → same_text a b ≡ is_equal (compare_with self a b)
unfolding same_text compare_with
same_text_lem [] [] = refl
same_text_lem [] (r ∷ rs) = refl
same_text_lem (l ∷ ls) [] = refl
same_text_lem (l ∷ ls) (r ∷ rs) = let next = same_text_lem ls rs in ground arith

abbrev by_address : DeviceEntry → DeviceEntry → Comparison
by_address =
    lexicographic (on (λ (d : DeviceEntry). d.identity.adapter_address) (compare_with self))
      (on (λ (d : DeviceEntry). d.identity.device_address) (compare_with self))

abbrev by_name : DeviceEntry → DeviceEntry → Comparison
by_name = lexicographic (on device_display_name (compare_with to_lower)) by_address

-- The column in its direction, then the name, then the addresses.
pub total : DeviceSortColumn → Bool → DeviceEntry → DeviceEntry → Comparison
total column ascending =
    lexicographic (directed ascending (on (primary column) (compare_with to_lower))) by_name

pub total-IsOrder :
    (column : DeviceSortColumn) (ascending : Bool) → IsOrder (total column ascending)
unfolding total
total-IsOrder column ascending =
    let texts =
      on-IsOrder (primary column) (compare_with to_lower) (compare_with-IsOrder to_lower) in
    let names =
      on-IsOrder device_display_name (compare_with to_lower) (compare_with-IsOrder to_lower) in
    let adapters =
      on-IsOrder (λ (d : DeviceEntry). d.identity.adapter_address) (compare_with self)
        (compare_with-IsOrder self) in
    let devices =
      on-IsOrder (λ (d : DeviceEntry). d.identity.device_address) (compare_with self)
        (compare_with-IsOrder self) in
    lexicographic-IsOrder _ _ (directed-IsOrder ascending _ texts)
      (lexicographic-IsOrder _ _ names (lexicographic-IsOrder _ _ adapters devices))

address_sign :
    (x y : Comparison) → (if not (is_equal x) then is_less x else is_less y) ≡ is_less (then_by x y)
address_sign less y = refl
address_sign equal y = refl
address_sign greater y = refl

name_sign : (x y : Comparison) → by_sign x true (is_less y) false ≡ is_less (then_by x y)
name_sign less y = refl
name_sign equal y = refl
name_sign greater y = refl

column_sign :
    (ascending : Bool) (x y : Comparison)
    → by_sign x ascending (is_less y) (not ascending)
      ≡ is_less (then_by (if ascending then x else flip x) y)
column_sign true less y = refl
column_sign true equal y = refl
column_sign true greater y = refl
column_sign false less y = refl
column_sign false equal y = refl
column_sign false greater y = refl

directed_lem :
    (ascending : Bool) (cmp : DeviceEntry → DeviceEntry → Comparison) (a b : DeviceEntry)
    → IsOrder cmp
    → directed ascending cmp a b ≡ (if ascending then cmp a b else flip (cmp a b))
unfolding directed
directed_lem true cmp a b v = refl
directed_lem false cmp a b v = v.flips a b

address_lem :
    (l r : DeviceEntry)
    → (if not (same_text l.identity.adapter_address r.identity.adapter_address)
        then text_less l.identity.adapter_address r.identity.adapter_address
        else text_less l.identity.device_address r.identity.device_address)
      ≡ is_less (by_address l r)
unfolding on
address_lem l r = rw (same_text_lem l.identity.adapter_address r.identity.adapter_address) (
    rw (text_less_lem l.identity.adapter_address r.identity.adapter_address) (
      rw (text_less_lem l.identity.device_address r.identity.device_address) (
        address_sign (compare_with self l.identity.adapter_address r.identity.adapter_address)
          (compare_with self l.identity.device_address r.identity.device_address))))

pub precedes_lem :
    (column : DeviceSortColumn) (ascending : Bool) (l r : DeviceEntry)
    → precedes column ascending l r ≡ is_less (total column ascending l r)
unfolding precedes total on
precedes_lem column ascending l r =
    let texts =
      on-IsOrder (primary column) (compare_with to_lower) (compare_with-IsOrder to_lower) in
    rw (case_insensitive_lem (primary column l) (primary column r)) (
      rw (case_insensitive_lem (device_display_name l) (device_display_name r)) (
        rw (address_lem l r) (
          rw
            (name_sign (compare_with to_lower (device_display_name l) (device_display_name r))
              (by_address l r))
            (rw (directed_lem ascending (on (primary column) (compare_with to_lower)) l r texts) (
              column_sign ascending (compare_with to_lower (primary column l) (primary column r))
                (by_name l r))))))
