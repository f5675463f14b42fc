-- ===== src/PubSub.antt =====
-- include/dmn-pub-sub.hpp: `Dmn_Pub` and its subscribers. `Dmn_Async` runs the publisher's tasks one after
-- another on one thread, so an operation here is one task. A subscriber is a number, and what its
-- `notify` does to the publisher is one of the later tasks.
pub mod Order
mod Tests
use dmn.Prelude.{
  ℕ, zero, suc, ◌+◌, ◌-◌, Bool, true, false, List, [], ◌∷◌, ◌++◌, Option, none, some, ltb, leb,
  ◌==◌, if◌then◌else◌, length, drop,
}

-- A `ssize_t` of which only the sign matters when it is negative.
pub data Quantity : Type 0 where
  negative : Quantity
  quantity : ℕ → Quantity

pub data FailureKind : Type 0 where
  filter : FailureKind
  notify : FailureKind

pub record CallbackFailure (E : Type 0) : Type 0 where
  pub kind : FailureKind
  pub subscriber : ℕ
  pub exception : E

-- What a callback comes to: a value, or an exception.
pub data Answer (E A : Type 0) : Type 0 where
  gives : A → Answer E A
  throws : E → Answer E A

-- The callbacks. The filter is a function of the subscriber and the item; `notify` may go by all the
-- notifications before, and `none` is its return.
pub record Callbacks (I E : Type 0) : Type 0 where
  pub filter_fn : Option (ℕ → I → Answer E Bool)
  pub notify : List (ℕ × I) → ℕ → I → Option E
  pub replay_quantity : ℕ → Quantity

-- The members; `registered` are the subscribers whose `m_pubs` holds this publisher, and `deliveries` the
-- calls of `notify` so far, in order.
pub record Pub (I E : Type 0) : Type 0 where
  pub capacity : ℕ
  pub failure_capacity : Quantity
  pub buffer : List I
  pub subscribers : List ℕ
  pub registered : List ℕ
  pub callback_failures : List (CallbackFailure E)
  pub deliveries : List (ℕ × I)

abbrev pub holds : List ℕ → ℕ → Bool
holds [] sub = false
holds (s ∷ subs) sub = let rest = holds subs sub in if s == sub then true else rest

-- `erase` of what `std::find` has found.
abbrev pub erase_first : ℕ → List ℕ → List ℕ
erase_first sub [] = []
erase_first sub (s ∷ subs) = let rest = erase_first sub subs in if s == sub then subs else s ∷ rest

-- `remove_if`.
abbrev pub remove_all : ℕ → List ℕ → List ℕ
remove_all sub [] = []
remove_all sub (s ∷ subs) = let rest = remove_all sub subs in if s == sub then rest else s ∷ rest

module _ {E : Type 0} where
  -- The failures kept once one more is recorded.
  abbrev pub kept :
      Quantity → List (CallbackFailure E) → CallbackFailure E → List (CallbackFailure E)
  kept negative fs f = fs ++ (f ∷ [])
  kept (quantity zero) fs f = fs
  kept (quantity (suc n)) fs f =
      if leb (suc n) (length fs) then drop 1 fs ++ (f ∷ []) else fs ++ (f ∷ [])

  abbrev pub or_first : Option E → E → Option E
  or_first none e = some e
  or_first (some first) e = some first

module _ {I : Type 0} where
  -- `m_buffer`'s lines in `publishInternal`.
  abbrev pub remember : ℕ → I → List I → List I
  remember capacity item buffer =
      let longer = buffer ++ (item ∷ []) in
      if ltb capacity (length longer) then drop (length longer - capacity) longer else longer

-- How many items of the history are not replayed.
abbrev pub skipped : Quantity → ℕ → ℕ
skipped negative size = 0
skipped (quantity zero) size = size
skipped (quantity (suc n)) size = if ltb (suc n) size then size - suc n else 0

module _ {I E : Type 0} where
  abbrev pub new : ℕ → Quantity → Pub I E
  new capacity failure_capacity = record {
    capacity = capacity;
    failure_capacity = failure_capacity;
    buffer = [];
    subscribers = [];
    registered = [];
    callback_failures = [];
    deliveries = [];
  }

  pub record_callback_failure : FailureKind → ℕ → E → Pub I E → Pub I E
  record_callback_failure kind sub e p =
      let failure : CallbackFailure E = record { kind = kind; subscriber = sub; exception = e } in
      record p { callback_failures = kept p.failure_capacity p.callback_failures failure }

  abbrev pub noted : ℕ → I → Pub I E → Pub I E
  noted sub item p = record p { deliveries = p.deliveries ++ ((sub, item) ∷ []) }

  abbrev pub failed_with : FailureKind → ℕ → Pub I E → Option E → E → Pub I E × Option E
  failed_with kind sub p first e = (record_callback_failure kind sub e p, or_first first e)

  -- The call of `notify`, in its `try`.
  abbrev pub after_notify : ℕ → Pub I E → Option E → Option E → Pub I E × Option E
  after_notify sub p first none = (p, first)
  after_notify sub p first (some e) = failed_with notify sub p first e

  module _ (c : Callbacks I E) where
    abbrev pub call_notify : ℕ → I → Pub I E → Option E → Pub I E × Option E
    call_notify sub item p first =
        after_notify sub (noted sub item p) first (c.notify p.deliveries sub item)

    abbrev pub by_answer : ℕ → I → Pub I E → Option E → Answer E Bool → Pub I E × Option E
    by_answer sub item p first (throws e) = failed_with filter sub p first e
    by_answer sub item p first (gives false) = (p, first)
    by_answer sub item p first (gives true) = call_notify sub item p first

    abbrev pub answer : Option (ℕ → I → Answer E Bool) → ℕ → I → Answer E Bool
    answer none sub item = gives true
    answer (some f) sub item = f sub item

    -- The loop of `publishInternal`, with the first exception.
    unfoldable pub deliver : I → List ℕ → Pub I E → Option E → Pub I E × Option E
    unfolding record_callback_failure
    deliver item [] p first = (p, first)
    deliver item (s ∷ subs) p first =
        let (q, now) = by_answer s item p first (answer c.filter_fn s item) in
        deliver item subs q now

    -- `none` is the return, `some e` the exception rethrown at the end.
    unfoldable pub publish : I → Pub I E → Pub I E × Option E
    unfolding deliver
    publish item p =
        deliver item p.subscribers (record p { buffer = remember p.capacity item p.buffer }) none

    -- The replay: no filter, and an exception is only recorded.
    unfoldable pub replay : ℕ → List I → Pub I E → Pub I E
    unfolding record_callback_failure
    replay sub [] p = p
    replay sub (item ∷ items) p = replay sub items (call_notify sub item p none).0

    unfoldable pub register_subscriber : ℕ → Pub I E → Pub I E
    unfolding replay
    register_subscriber sub p =
        if holds p.registered sub
        then p
        else replay sub (drop (skipped (c.replay_quantity sub) (length p.buffer)) p.buffer)
            (record p {
              registered = p.registered ++ (sub ∷ []);
              subscribers = p.subscribers ++ (sub ∷ []);
            })

  -- `none` is the failed assertion: the subscriber is not registered.
  unfoldable pub unregister_subscriber : ℕ → Pub I E → Option (Pub I E)
  unregister_subscriber sub p =
      if holds p.registered sub
      then some (record p {
        registered = erase_first sub p.registered;
        subscribers = remove_all sub p.subscribers;
      })
      else none

  abbrev pub take_callback_failures : Pub I E → Pub I E × List (CallbackFailure E)
  take_callback_failures p = (record p { callback_failures = [] }, p.callback_failures)

-- The tasks of a client, in the order in which they run.
pub data Task (I : Type 0) : Type 0 where
  publishes : I → Task I
  registers : ℕ → Task I
  unregisters : ℕ → Task I
  takes_failures : Task I

module _ {I E : Type 0} (c : Callbacks I E) where
  unfoldable pub after_task : Task I → Pub I E → Option (Pub I E)
  unfolding publish register_subscriber unregister_subscriber
  after_task (publishes item) p = some (publish c item p).0
  after_task (registers sub) p = some (register_subscriber c sub p)
  after_task (unregisters sub) p = unregister_subscriber sub p
  after_task takes_failures p = some (take_callback_failures p).0

  abbrev pub then_run : Option (Pub I E) → (Pub I E → Option (Pub I E)) → Option (Pub I E)
  then_run none more = none
  then_run (some p) more = more p

  unfoldable pub run : List (Task I) → Pub I E → Option (Pub I E)
  unfolding after_task
  run [] p = some p
  run (t ∷ ts) p = then_run (after_task t p) (λ q. run ts q)
