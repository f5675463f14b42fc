-- ===== src/PubSub/Order/History.antt =====
-- include/dmn-pub-sub.hpp: what a subscriber receives over a run of tasks, and what the history holds.
use dmn.Prelude.{
  ℕ, ◌≡◌, refl, sym, ap, ◌∙◌, true, false, inl, inr, List, [], ◌∷◌, ◌++◌, some, ◌==◌, ==_iff,
  if◌then◌else◌, length, drop, arith, Bool-cases,
}
use dmn.PubSub.{
  Callbacks, Pub, holds, erase_first, remove_all, publish, skipped, replay, register_subscriber,
  unregister_subscriber,
}
use dmn.PubSub.Order.{to_one, publish_delivers, replay-Adds}

module _ {I : Type 0} where
  -- The items of a subscriber's calls of `notify`, in order.
  abbrev pub received : ℕ → List (ℕ × I) → List I
  received sub [] = []
  received sub ((s, item) ∷ log) =
      let rest = received sub log in if s == sub then item ∷ rest else rest

  pub received-append :
      (sub : ℕ) (a b : List (ℕ × I)) → received sub (a ++ b) ≡ received sub a ++ received sub b
  received-append sub [] b = refl
  received-append sub ((s, item) ∷ a) b = elim (Bool-cases (s == sub)) [
    | inl same ↦ rw same (ap (item ∷◌) (received-append sub a b))
    | inr other ↦ rw other (received-append sub a b)
  ]

  pub received-to_one_self : (sub : ℕ) (items : List I) → received sub (to_one sub items) ≡ items
  received-to_one_self sub [] = refl
  received-to_one_self sub (item ∷ items) =
      let same = (==_iff sub sub).1 refl in rw same (ap (item ∷◌) (received-to_one_self sub items))

  pub received-to_one_ne :
      (sub s : ℕ) (items : List I) → (s == sub) ≡ false → received sub (to_one s items) ≡ []
  received-to_one_ne sub s [] ne = refl
  received-to_one_ne sub s (item ∷ items) ne = rw ne (received-to_one_ne sub s items ne)

-- No subscriber stands twice in the list.
abbrev pub Distinct : List ℕ → Type 0
Distinct [] = Unit
Distinct (s ∷ subs) = (holds subs s ≡ false) × Distinct subs

pub holds-append_one :
    (subs : List ℕ) (s sub : ℕ) → (s == sub) ≡ false → holds (subs ++ s ∷ []) sub ≡ holds subs sub
holds-append_one [] s sub ne = rw ne refl
holds-append_one (x ∷ subs) s sub ne =
    ap (λ r. if x == sub then true else r) (holds-append_one subs s sub ne)

pub Distinct-append_one :
    (subs : List ℕ) (s : ℕ) → Distinct subs → holds subs s ≡ false → Distinct (subs ++ s ∷ [])
Distinct-append_one [] s d h = (refl, tt)
Distinct-append_one (x ∷ subs) s d h =
    (holds-append_one subs s x (ground arith) ∙ d.0, Distinct-append_one subs s d.1 (ground arith))

pub holds-remove_all_ne :
    (subs : List ℕ) (s sub : ℕ)
    → (s == sub) ≡ false
    → holds (remove_all s subs) sub ≡ holds subs sub
holds-remove_all_ne [] s sub ne = refl
holds-remove_all_ne (x ∷ subs) s sub ne =
    let ih = holds-remove_all_ne subs s sub ne in
    elim (Bool-cases (x == s)) [
      | inl same ↦ let gone : (x == sub) ≡ false = ground arith in rw (same, gone) ih
      | inr other ↦ rw other (ap (λ r. if x == sub then true else r) ih)
    ]

remove_all-absent : (subs : List ℕ) (s : ℕ) → holds subs s ≡ false → remove_all s subs ≡ subs
remove_all-absent [] s h = refl
remove_all-absent (x ∷ subs) s h =
    let other : (x == s) ≡ false = ground arith in
    rw other (ap (x ∷◌) (remove_all-absent subs s (ground arith)))

-- `erase` and `remove_if` come to the same.
erase_first-remove_all :
    (subs : List ℕ) (s : ℕ) → Distinct subs → erase_first s subs ≡ remove_all s subs
erase_first-remove_all [] s d = refl
erase_first-remove_all (x ∷ subs) s d = elim (Bool-cases (x == s)) [
  | inl same ↦
      rw same (sym (remove_all-absent subs s (ap (holds subs) (sym ((==_iff x s).0 same)) ∙ d.0)))
  | inr other ↦ rw other (ap (x ∷◌) (erase_first-remove_all subs s d.1))
]

Distinct-remove_all : (subs : List ℕ) (s : ℕ) → Distinct subs → Distinct (remove_all s subs)
Distinct-remove_all [] s d = tt
Distinct-remove_all (x ∷ subs) s d = elim (Bool-cases (x == s)) [
  | inl same ↦ rw same (Distinct-remove_all subs s d.1)
  | inr other ↦
      rw other (holds-remove_all_ne subs s x (ground arith) ∙ d.0, Distinct-remove_all subs s d.1)
]

module _ {I E : Type 0} where
  -- The two records of who is registered agree.
  pub record IsSound (p : Pub I E) : Type 0 where
    pub agree : p.registered ≡ p.subscribers
    pub distinct : Distinct p.subscribers

  module _ (c : Callbacks I E) where
    pub publish-IsSound : (item : I) (p : Pub I E) → IsSound p → IsSound (publish c item p).0
    publish-IsSound item p v =
        let (log, buffer, subs, regs, capacity, limit) = publish_delivers c item p in
        record { agree = regs ∙ v.agree ∙ sym subs; distinct = rw subs v.distinct }

    -- A new registration.
    abbrev pub registered_now : ℕ → Pub I E → Pub I E
    registered_now sub p = record p {
      registered = p.registered ++ (sub ∷ []);
      subscribers = p.subscribers ++ (sub ∷ []);
    }

    abbrev pub replayed : ℕ → Pub I E → List I
    replayed sub p = drop (skipped (c.replay_quantity sub) (length p.buffer)) p.buffer

    pub register-absent :
        (sub : ℕ) (p : Pub I E)
        → holds p.registered sub ≡ false
        → register_subscriber c sub p ≡ replay c sub (replayed sub p) (registered_now sub p)
    unfolding register_subscriber
    register-absent sub p h = rw h refl

    pub register-present :
        (sub : ℕ) (p : Pub I E) → holds p.registered sub ≡ true → register_subscriber c sub p ≡ p
    unfolding register_subscriber
    register-present sub p h = rw h refl

    pub register-IsSound :
        (sub : ℕ) (p : Pub I E) → IsSound p → IsSound (register_subscriber c sub p)
    register-IsSound sub p v = elim (Bool-cases (holds p.registered sub)) [
      | inl there ↦ rw (register-present sub p there) v
      | inr new_ ↦
          let r = replay-Adds c sub (replayed sub p) (registered_now sub p) in
          let u = r.unchanged in
          let absent = ap (λ l. holds l sub) (sym v.agree) ∙ new_ in
          rw (register-absent sub p new_) (record {
            agree = u.registered ∙ ap (λ l. l ++ sub ∷ []) v.agree ∙ sym u.subscribers;
            distinct = rw u.subscribers (Distinct-append_one p.subscribers sub v.distinct absent);
          })
    ]

    abbrev pub unregistered : ℕ → Pub I E → Pub I E
    unregistered sub p = record p {
      registered = erase_first sub p.registered;
      subscribers = remove_all sub p.subscribers;
    }

    pub unregister-IsSound :
        (sub : ℕ) (p q : Pub I E) → IsSound p → unregister_subscriber sub p ≡ some q → IsSound q
    unfolding unregister_subscriber
    unregister-IsSound sub p q v e = elim (Bool-cases (holds p.registered sub)) [
      | inl there ↦
          let found = rw there at e in
          let now : unregistered sub p ≡ q = cc in
          rw (sym now) (record {
            agree =
                ap (erase_first sub) v.agree ∙ erase_first-remove_all p.subscribers sub v.distinct;
            distinct = Distinct-remove_all p.subscribers sub v.distinct;
          })
      | inr absent ↦ let gone = rw absent at e in cc
    ]
