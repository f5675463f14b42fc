-- ===== src/PubSub/Tests.antt =====
-- include/dmn-pub-sub.hpp: runs of a publisher, and the theorems at concrete inputs.
use dmn.Prelude.{
  ℕ, ◌≡◌, refl, Bool, true, List, [], ◌∷◌, ◌++◌, Option, none, some, ltb, ◌==◌, ◌&&◌, if◌then◌else◌,
}
use dmn.PubSub.{
  Quantity, negative, quantity, notify, Answer, gives, throws, Callbacks, Pub, new, publish, Task,
  publishes, registers, unregisters, takes_failures, run, remember,
}
use dmn.PubSub.Order.{notifications, publish_delivers}
use dmn.PubSub.Order.History.{received}
use dmn.PubSub.Order.Received.{asked, publications, register-publications}
use dmn.PubSub.Order.Kept.{newest, published, run-newest}

-- Subscriber 1 wants the large items and subscriber 2 all but 13, on which its filter throws; `notify` of
-- subscriber 1 with 12 throws. Only subscriber 2 limits its replay.
abbrev large : ℕ → ℕ → Answer ℕ Bool
large sub item =
    if sub == 1 then gives (ltb 9 item) else if item == 13 then throws 77 else gives true

abbrev angry : List (ℕ × ℕ) → ℕ → ℕ → Option ℕ
angry log sub item = if (sub == 1) && (item == 12) then some 88 else none

abbrev last_one : ℕ → Quantity
last_one sub = if sub == 1 then negative else quantity 1

abbrev callbacks : Callbacks ℕ ℕ
callbacks = record { filter_fn = some large; notify = angry; replay_quantity = last_one }

abbrev empty : Pub ℕ ℕ
empty = new 2 (quantity 1)

abbrev tasks : List (Task ℕ)
tasks = publishes 3 ∷ registers 2 ∷ publishes 12 ∷ publishes 13 ∷ takes_failures ∷ publishes 4 ∷ []

abbrev before : Pub ℕ ℕ
before = record empty { buffer = 3 ∷ 5 ∷ []; subscribers = 2 ∷ []; registered = 2 ∷ [] }

abbrev end : Pub ℕ ℕ
end = record empty {
  buffer = 13 ∷ 4 ∷ [];
  subscribers = 2 ∷ [];
  registered = 2 ∷ [];
  deliveries = (2, 3) ∷ (2, 12) ∷ (2, 4) ∷ [];
}

first_run : run callbacks tasks empty ≡ some end
unfolding run
first_run = refl

-- An unregistered subscriber may not leave.
run_refused : run callbacks (registers 2 ∷ unregisters 1 ∷ []) empty ≡ none
unfolding run
run_refused = refl

-- One failure is kept, and the exception rethrown is the first.
publish_failed :
    publish callbacks 12
      (record empty { subscribers = 1 ∷ 2 ∷ 1 ∷ []; registered = 1 ∷ 2 ∷ 1 ∷ [] })
    ≡ (
      record empty {
        buffer = 12 ∷ [];
        subscribers = 1 ∷ 2 ∷ 1 ∷ [];
        registered = 1 ∷ 2 ∷ 1 ∷ [];
        callback_failures = (record { kind = notify; subscriber = 1; exception = 88 }) ∷ [];
        deliveries = (1, 12) ∷ (2, 12) ∷ (1, 12) ∷ [];
      },
      some 88,
    )
unfolding publish
publish_failed = refl

publish_delivers_example :
    let q = (publish callbacks 12 before).0 in
    (q.deliveries ≡ [] ++ notifications callbacks 12 (2 ∷ []))
    × (q.buffer ≡ remember 2 12 (3 ∷ 5 ∷ []))
    × (q.subscribers ≡ 2 ∷ [])
    × (q.registered ≡ 2 ∷ [])
    × (q.capacity ≡ 2)
    × (q.failure_capacity ≡ quantity 1)
publish_delivers_example = publish_delivers callbacks 12 before

run-newest_example : end.buffer ≡ newest 2 (published tasks)
run-newest_example = run-newest callbacks 2 (quantity 1) tasks end first_run

-- Subscriber 1 comes after 3 and 5, is sent both whatever its filter says, and then what is large.
abbrev after : List (Task ℕ)
after = publishes 4 ∷ publishes 12 ∷ unregisters 2 ∷ takes_failures ∷ publishes 11 ∷ []

abbrev last : Pub ℕ ℕ
last = record empty {
  buffer = 12 ∷ 11 ∷ [];
  subscribers = 1 ∷ [];
  registered = 1 ∷ [];
  deliveries = (1, 3) ∷ (1, 5) ∷ (2, 4) ∷ (2, 12) ∷ (1, 12) ∷ (1, 11) ∷ [];
}

later_run : run callbacks (registers 1 ∷ after) before ≡ some last
unfolding run
later_run = refl

register-publications_example :
    received 1 last.deliveries
    ≡ received 1 before.deliveries
      ++ asked callbacks negative (3 ∷ 5 ∷ [])
      ++ publications callbacks 1 after
register-publications_example =
    register-publications callbacks 1 after before last
      (record { agree = refl; distinct = (refl, tt) }) refl refl later_run
