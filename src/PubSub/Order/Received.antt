-- ===== src/PubSub/Order/Received.antt =====
-- include/dmn-pub-sub.hpp: what a subscriber receives over a run of tasks.
use dmn.Prelude.{
  ◌-◌, ltb, zero, suc, ℕ, ◌≡◌, refl, sym, ap, ◌∙◌, Bool, true, false, inl, inr, List, [], ◌∷◌, ◌++◌,
  some, ◌==◌, ==_iff, if◌then◌else◌, length, drop, arith, Bool-cases, Option-cases,
}
use mathlib.Core.List.{append-nil, append_assoc}
use dmn.PubSub.{
  Quantity, negative, quantity, Callbacks, Pub, holds, publish, skipped, register_subscriber,
  unregister_subscriber, Task, publishes, registers, unregisters, takes_failures, after_task, run,
}
use dmn.PubSub.Order.{delivery, accepts, notifications, to_one, publish_delivers, replay-Adds}
use dmn.PubSub.Order.History.{
  received, received-append, received-to_one_self, received-to_one_ne, Distinct, holds-append_one,
  holds-remove_all_ne, IsSound, publish-IsSound, registered_now, replayed, register-absent,
  register-present, register-IsSound, unregistered, unregister-IsSound,
}

holds-append_self : (subs : List ℕ) (s : ℕ) → holds (subs ++ s ∷ []) s ≡ true
holds-append_self [] s = let same = (==_iff s s).1 refl in rw same refl
holds-append_self (x ∷ subs) s =
    rw (holds-append_self subs s)
      (elim (Bool-cases (x == s)) [ inl same ↦ rw same refl | inr other ↦ rw other refl ])

module _ {I E : Type 0} (c : Callbacks I E) where
  -- What one publication brings a registered subscriber.
  abbrev pub wanted : ℕ → I → List I
  wanted sub item = if accepts c sub item then item ∷ [] else []

  received-delivery_self :
      (sub : ℕ) (item : I) (b : Bool)
      → received sub (delivery b sub item) ≡ (if b then item ∷ [] else [])
  received-delivery_self sub item true = let same = (==_iff sub sub).1 refl in rw same refl
  received-delivery_self sub item false = refl

  received-delivery_ne :
      (sub s : ℕ) (item : I) (b : Bool) → (s == sub) ≡ false → received sub (delivery b s item) ≡ []
  received-delivery_ne sub s item true ne = rw ne refl
  received-delivery_ne sub s item false ne = refl

  received-notifications_absent :
      (sub : ℕ) (item : I) (subs : List ℕ)
      → holds subs sub ≡ false
      → received sub (notifications c item subs) ≡ []
  received-notifications_absent sub item [] h = refl
  received-notifications_absent sub item (s ∷ subs) h =
      let other : (s == sub) ≡ false = ground arith in
      received-append sub (delivery (accepts c s item) s item) (notifications c item subs)
      ∙ ap (λ l. l ++ received sub (notifications c item subs))
          (received-delivery_ne sub s item (accepts c s item) other)
      ∙ received-notifications_absent sub item subs (ground arith)

  received-notifications :
      (sub : ℕ) (item : I) (subs : List ℕ)
      → Distinct subs
      → holds subs sub ≡ true
      → received sub (notifications c item subs) ≡ wanted sub item
  received-notifications sub item [] d h = cc
  received-notifications sub item (s ∷ subs) d h =
      received-append sub (delivery (accepts c s item) s item) (notifications c item subs)
      ∙ elim (Bool-cases (s == sub)) [
        | inl same ↦
            let here = (==_iff s sub).0 same in
            let rest =
              received-notifications_absent sub item subs (ap (holds subs) (sym here) ∙ d.0) in
            rw rest (
              append-nil _
              ∙ ap (λ x. received x (delivery (accepts c s item) s item)) (sym here)
              ∙ received-delivery_self s item (accepts c s item)
              ∙ ap (λ x. wanted x item) here)
        | inr other ↦
            ap (λ l. l ++ received sub (notifications c item subs))
              (received-delivery_ne sub s item (accepts c s item) other)
            ∙ received-notifications sub item subs d.1 (ground arith)
      ]

  abbrev pub not_leaving : ℕ → Task I → Bool
  not_leaving sub (publishes item) = true
  not_leaving sub (registers s) = true
  not_leaving sub (unregisters s) = if s == sub then false else true
  not_leaving sub takes_failures = true

  -- Whether a subscriber stays registered over a run.
  abbrev pub stays : ℕ → List (Task I) → Bool
  stays sub [] = true
  stays sub (t ∷ ts) = let rest = stays sub ts in if not_leaving sub t then rest else false

  abbrev pub of_task : ℕ → Task I → List I
  of_task sub (publishes item) = wanted sub item
  of_task sub (registers s) = []
  of_task sub (unregisters s) = []
  of_task sub takes_failures = []

  -- The publications of a run that the filter lets through to a subscriber.
  abbrev pub publications : ℕ → List (Task I) → List I
  publications sub [] = []
  publications sub (t ∷ ts) = of_task sub t ++ publications sub ts

  -- A subscriber that was registered stays so, and has received the items given.
  record Gains (sub : ℕ) (p q : Pub I E) (items : List I) : Type 0 where
    pub sound : IsSound q
    pub there : holds q.subscribers sub ≡ true
    pub gained : received sub q.deliveries ≡ received sub p.deliveries ++ items

  Gains-same :
      (sub : ℕ) (p : Pub I E) → IsSound p → holds p.subscribers sub ≡ true → Gains sub p p []
  Gains-same sub p v h = record {
    sound = v;
    there = h;
    gained = sym (append-nil (received sub p.deliveries));
  }

  publish-Gains :
      (sub : ℕ) (item : I) (p : Pub I E)
      → IsSound p
      → holds p.subscribers sub ≡ true
      → Gains sub p (publish c item p).0 (wanted sub item)
  publish-Gains sub item p v h =
      let (log, buffer, subs, regs, capacity, limit) = publish_delivers c item p in
      record {
        sound = publish-IsSound c item p v;
        there = ap (λ l. holds l sub) subs ∙ h;
        gained =
            ap (received sub) log
            ∙ received-append sub p.deliveries (notifications c item p.subscribers)
            ∙ ap (λ l. received sub p.deliveries ++ l)
                (received-notifications sub item p.subscribers v.distinct h);
      }

  register-Gains :
      (sub s : ℕ) (p : Pub I E)
      → IsSound p
      → holds p.subscribers sub ≡ true
      → Gains sub p (register_subscriber c s p) []
  register-Gains sub s p v h = elim (Bool-cases (holds p.registered s)) [
    | inl present ↦ rw (register-present c s p present) (Gains-same sub p v h)
    | inr absent ↦
        let r = replay-Adds c s (replayed c s p) (registered_now c s p) in
        let away = ap (λ l. holds l s) (sym v.agree) ∙ absent in
        let other : (s == sub) ≡ false = elim (Bool-cases (s == sub)) [
          | inl same ↦
              let clash : true ≡ false =
                sym h ∙ ap (holds p.subscribers) (sym ((==_iff s sub).0 same)) ∙ away in
              cc
          | inr o ↦ o
        ] in
        let sound = register-IsSound c s p v in
        let e = register-absent c s p absent in
        record {
          sound = sound;
          there =
              ap (λ q. holds q.subscribers sub) e
              ∙ ap (λ l. holds l sub) r.unchanged.subscribers
              ∙ holds-append_one p.subscribers s sub other
              ∙ h;
          gained =
              ap (λ q. received sub q.deliveries) e
              ∙ ap (received sub) r.deliveries
              ∙ received-append sub p.deliveries (to_one s (replayed c s p))
              ∙ ap (λ l. received sub p.deliveries ++ l)
                  (received-to_one_ne sub s (replayed c s p) other);
        }
  ]

  unregister-Gains :
      (sub s : ℕ) (p q : Pub I E)
      → IsSound p
      → holds p.subscribers sub ≡ true
      → (s == sub) ≡ false
      → unregister_subscriber s p ≡ some q
      → Gains sub p q []
  unfolding unregister_subscriber
  unregister-Gains sub s p q v h ne e = elim (Bool-cases (holds p.registered s)) [
    | inl present ↦
        let found = rw present at e in
        let now : unregistered c s p ≡ q = cc in
        record {
          sound = unregister-IsSound c s p q v e;
          there =
              ap (λ r. holds r.subscribers sub) (sym now)
              ∙ holds-remove_all_ne p.subscribers s sub ne
              ∙ h;
          gained =
              ap (λ r. received sub r.deliveries) (sym now)
              ∙ sym (append-nil (received sub p.deliveries));
        }
    | inr absent ↦ let gone = rw absent at e in cc
  ]

  task-Gains :
      (sub : ℕ) (t : Task I) (p q : Pub I E)
      → IsSound p
      → holds p.subscribers sub ≡ true
      → not_leaving sub t ≡ true
      → after_task c t p ≡ some q
      → Gains sub p q (of_task sub t)
  unfolding after_task
  task-Gains sub (publishes item) p q v h l e =
      let now : (publish c item p).0 ≡ q = cc in rw (sym now) (publish-Gains sub item p v h)
  task-Gains sub (registers s) p q v h l e =
      let now : register_subscriber c s p ≡ q = cc in rw (sym now) (register-Gains sub s p v h)
  task-Gains sub (unregisters s) p q v h l e = unregister-Gains sub s p q v h (ground arith) e
  task-Gains sub takes_failures p q v h l e =
      let now : record p { callback_failures = [] } ≡ q = cc in
      rw (sym now) (record {
        sound = record { agree = v.agree; distinct = v.distinct };
        there = h;
        gained = sym (append-nil (received sub p.deliveries));
      })

  Gains-trans :
      (sub : ℕ) (p q r : Pub I E) (a b : List I)
      → Gains sub p q a
      → Gains sub q r b
      → Gains sub p r (a ++ b)
  Gains-trans sub p q r a b x y = record {
    sound = y.sound;
    there = y.there;
    gained = y.gained ∙ ap (λ l. l ++ b) x.gained ∙ append_assoc (received sub p.deliveries) a b;
  }

  run-Gains :
      (sub : ℕ) (ts : List (Task I)) (p q : Pub I E)
      → IsSound p
      → holds p.subscribers sub ≡ true
      → stays sub ts ≡ true
      → run c ts p ≡ some q
      → Gains sub p q (publications sub ts)
  unfolding run
  run-Gains sub [] p q v h l e = let now : p ≡ q = cc in rw (sym now) (Gains-same sub p v h)
  run-Gains sub (t ∷ ts) p q v h l e = elim (Option-cases (after_task c t p)) [
    | inl gone ↦ let out = rw gone at e in cc
    | inr (r, next) ↦
        let step = task-Gains sub t p r v h (ground arith) next in
        let rest : run c ts r ≡ some q = rw next at e in
        Gains-trans sub p r q (of_task sub t) (publications sub ts) step
          (run-Gains sub ts r q step.sound step.there (ground arith) rest)
  ]

  -- The part of the history that a subscriber asks for: all of it, or the newest items.
  abbrev pub asked : Quantity → List I → List I
  asked negative l = l
  asked (quantity n) l = drop (length l - n) l

  drop-asked : (n : Quantity) (l : List I) → drop (skipped n (length l)) l ≡ asked n l
  drop-asked negative l = refl
  drop-asked (quantity zero) l =
      let all : length l ≡ length l - 0 = omega arith in ap (λ m. drop m l) all
  drop-asked (quantity (suc n)) l = elim (Bool-cases (ltb (suc n) (length l))) [
    | inl more ↦ rw more refl
    | inr fits ↦
        let no_more : 0 ≡ length l - suc n = ground arith in rw fits (ap (λ m. drop m l) no_more)
  ]

  -- A subscriber that registers and stays receives, in order and each once, the items of the history that
  -- it asks to have replayed, the filter not asked, and then every item published after that the filter
  -- lets through to it, whatever the other tasks and the exceptions of callbacks are.
  pub register-publications :
      (sub : ℕ) (ts : List (Task I)) (p q : Pub I E)
      → IsSound p
      → holds p.registered sub ≡ false
      → stays sub ts ≡ true
      → run c (registers sub ∷ ts) p ≡ some q
      → received sub q.deliveries
        ≡ received sub p.deliveries ++ asked (c.replay_quantity sub) p.buffer ++ publications sub ts
  unfolding run after_task
  register-publications sub ts p q v absent stay e =
      let r = register_subscriber c sub p in
      let now = register-absent c sub p absent in
      let add = replay-Adds c sub (replayed c sub p) (registered_now c sub p) in
      let there : holds r.subscribers sub ≡ true =
        ap (λ s. holds s.subscribers sub) now
        ∙ ap (λ l. holds l sub) add.unchanged.subscribers
        ∙ holds-append_self p.subscribers sub in
      let seen : received sub r.deliveries
          ≡ received sub p.deliveries ++ asked (c.replay_quantity sub) p.buffer =
        ap (λ s. received sub s.deliveries) now
        ∙ ap (received sub) add.deliveries
        ∙ received-append sub p.deliveries (to_one sub (replayed c sub p))
        ∙ ap (λ l. received sub p.deliveries ++ l)
            (received-to_one_self sub (replayed c sub p)
              ∙ drop-asked (c.replay_quantity sub) p.buffer) in
      let rest = run-Gains sub ts r q (register-IsSound c sub p v) there stay e in
      rest.gained ∙ ap (λ l. l ++ publications sub ts) seen
