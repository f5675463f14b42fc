-- ===== src/PubSub/Order.antt =====
-- include/dmn-pub-sub.hpp: what each operation changes, and what it leaves.
pub mod History
pub mod Received
pub mod Kept
use dmn.Prelude.{
  ℕ, zero, suc, ◌+◌, ◌-◌, ◌≤◌, ◌<◌, ◌≡◌, refl, sym, ap, ◌∙◌, Bool, true, false, ◌⊎◌, inl, inr, List,
  [], ◌∷◌, ◌++◌, map, Option, none, some, ltb, leb, ◌==◌, ==_iff, if◌then◌else◌, length, drop,
  arith, Bool-cases, length-append, length-drop,
}
use mathlib.Core.List.{append-nil, append_assoc}
use dmn.PubSub.{
  Quantity, negative, quantity, FailureKind, filter, notify, CallbackFailure, Answer, gives, throws,
  Callbacks, Pub, holds, erase_first, remove_all, kept, remember, record_callback_failure, noted,
  failed_with, after_notify, call_notify, by_answer, answer, deliver, publish, skipped, replay,
  register_subscriber, unregister_subscriber,
}

-- Whether a filter's answer lets an item through.
abbrev pub accepted : {E : Type 0} → Answer E Bool → Bool
accepted (gives b) = b
accepted (throws e) = false

abbrev pub delivery : {I : Type 0} → Bool → ℕ → I → List (ℕ × I)
delivery b sub item = if b then (sub, item) ∷ [] else []

-- The calls of `notify` of a replay.
abbrev pub to_one : {I : Type 0} → ℕ → List I → List (ℕ × I)
to_one sub [] = []
to_one sub (item ∷ items) = (sub, item) ∷ to_one sub items

module _ {I E : Type 0} where
  -- All but the failures and the deliveries.
  pub record Unchanged (p q : Pub I E) : Type 0 where
    pub capacity : q.capacity ≡ p.capacity
    pub failure_capacity : q.failure_capacity ≡ p.failure_capacity
    pub buffer : q.buffer ≡ p.buffer
    pub subscribers : q.subscribers ≡ p.subscribers
    pub registered : q.registered ≡ p.registered

  Unchanged-trans : {p q r : Pub I E} → Unchanged p q → Unchanged q r → Unchanged p r
  Unchanged-trans a b = record {
    capacity = b.capacity ∙ a.capacity;
    failure_capacity = b.failure_capacity ∙ a.failure_capacity;
    buffer = b.buffer ∙ a.buffer;
    subscribers = b.subscribers ∙ a.subscribers;
    registered = b.registered ∙ a.registered;
  }

  record_callback_failure-Unchanged :
      (kind : FailureKind) (sub : ℕ) (e : E) (p : Pub I E)
      → Unchanged p (record_callback_failure kind sub e p)
        × ((record_callback_failure kind sub e p).deliveries ≡ p.deliveries)
  unfolding record_callback_failure
  record_callback_failure-Unchanged kind sub e p = (
    record {
      capacity = refl;
      failure_capacity = refl;
      buffer = refl;
      subscribers = refl;
      registered = refl;
    },
    refl,
  )

  -- A step of a loop: the subscribers and the history stay, and it adds the deliveries given.
  pub record Adds (p q : Pub I E) (new : List (ℕ × I)) : Type 0 where
    pub unchanged : Unchanged p q
    pub deliveries : q.deliveries ≡ p.deliveries ++ new

  Adds-nothing : (p : Pub I E) → Adds p p []
  Adds-nothing p = record {
    unchanged = record {
      capacity = refl;
      failure_capacity = refl;
      buffer = refl;
      subscribers = refl;
      registered = refl;
    };
    deliveries = sym (append-nil p.deliveries);
  }

  Adds-trans : {p q r : Pub I E} {a b : List (ℕ × I)} → Adds p q a → Adds q r b → Adds p r (a ++ b)
  Adds-trans {p} {a} {b} x y = record {
    unchanged = Unchanged-trans x.unchanged y.unchanged;
    deliveries = y.deliveries ∙ ap (λ l. l ++ b) x.deliveries ∙ append_assoc p.deliveries a b;
  }

  Adds-failure :
      {p q : Pub I E} {new : List (ℕ × I)} (kind : FailureKind) (sub : ℕ) (e : E)
      → Adds p q new
      → Adds p (record_callback_failure kind sub e q) new
  Adds-failure {q} kind sub e x =
      let (same, log) = record_callback_failure-Unchanged kind sub e q in
      record { unchanged = Unchanged-trans x.unchanged same; deliveries = log ∙ x.deliveries }

  noted-Adds : (sub : ℕ) (item : I) (p : Pub I E) → Adds p (noted sub item p) ((sub, item) ∷ [])
  noted-Adds sub item p = record {
    unchanged = record {
      capacity = refl;
      failure_capacity = refl;
      buffer = refl;
      subscribers = refl;
      registered = refl;
    };
    deliveries = refl;
  }

  after_notify-Adds :
      (sub : ℕ) {p q : Pub I E} {new : List (ℕ × I)} (first o : Option E)
      → Adds p q new
      → Adds p (after_notify sub q first o).0 new
  after_notify-Adds sub first none x = x
  after_notify-Adds sub first (some e) x = Adds-failure notify sub e x

  module _ (c : Callbacks I E) where
    by_answer-Adds :
        (sub : ℕ) (item : I) (p : Pub I E) (first : Option E) (a : Answer E Bool)
        → Adds p (by_answer c sub item p first a).0 (delivery (accepted a) sub item)
    by_answer-Adds sub item p first (throws e) = Adds-failure filter sub e (Adds-nothing p)
    by_answer-Adds sub item p first (gives false) = Adds-nothing p
    by_answer-Adds sub item p first (gives true) =
        after_notify-Adds sub first (c.notify p.deliveries sub item) (noted-Adds sub item p)

    abbrev pub accepts : ℕ → I → Bool
    accepts sub item = accepted (answer c c.filter_fn sub item)

    -- The calls of `notify` of one publication.
    abbrev pub notifications : I → List ℕ → List (ℕ × I)
    notifications item [] = []
    notifications item (s ∷ subs) = delivery (accepts s item) s item ++ notifications item subs

    deliver-Adds :
        (item : I) (subs : List ℕ) (p : Pub I E) (first : Option E)
        → Adds p (deliver c item subs p first).0 (notifications item subs)
    unfolding deliver
    deliver-Adds item [] p first = Adds-nothing p
    deliver-Adds item (s ∷ subs) p first =
        Adds-trans (by_answer-Adds s item p first (answer c c.filter_fn s item))
          (deliver-Adds item subs _ _)

    -- One publication calls `notify` for each entry of the list of subscribers that the filter lets it
    -- through to, once for the entry and in the order of the list, whatever the callbacks before have
    -- thrown; the item enters the history; and the list, the registrations and the two capacities stay.
    pub publish_delivers :
        (item : I) (p : Pub I E)
        → let q = (publish c item p).0 in
          (q.deliveries ≡ p.deliveries ++ notifications item p.subscribers)
          × (q.buffer ≡ remember p.capacity item p.buffer)
          × (q.subscribers ≡ p.subscribers)
          × (q.registered ≡ p.registered)
          × (q.capacity ≡ p.capacity)
          × (q.failure_capacity ≡ p.failure_capacity)
    unfolding publish
    publish_delivers item p =
        let a =
          deliver-Adds item p.subscribers (record p { buffer = remember p.capacity item p.buffer })
            none in
        let u = a.unchanged in
        (a.deliveries, u.buffer, u.subscribers, u.registered, u.capacity, u.failure_capacity)

    pub replay-Adds :
        (sub : ℕ) (items : List I) (p : Pub I E) → Adds p (replay c sub items p) (to_one sub items)
    unfolding replay
    replay-Adds sub [] p = Adds-nothing p
    replay-Adds sub (item ∷ items) p =
        Adds-trans
          (after_notify-Adds sub none (c.notify p.deliveries sub item) (noted-Adds sub item p))
          (replay-Adds sub items _)
