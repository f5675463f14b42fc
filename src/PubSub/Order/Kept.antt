-- ===== src/PubSub/Order/Kept.antt =====
-- include/dmn-pub-sub.hpp: the history over a run of tasks.
use dmn.Prelude.{
  ℕ, ◌-◌, ◌≡◌, refl, sym, ap, ◌∙◌, inl, inr, List, [], ◌∷◌, ◌++◌, some, ltb, length, drop, arith,
  Bool-cases, Option-cases, length-append, length-drop, drop-append, drop-drop, drop_nil,
}
use mathlib.Core.List.{append-nil, append_assoc}
use dmn.PubSub.{
  Quantity, Callbacks, Pub, new, holds, erase_first, remove_all, remember, publish,
  register_subscriber, unregister_subscriber, Task, publishes, registers, unregisters,
  takes_failures, after_task, run,
}
use dmn.PubSub.Order.{publish_delivers, replay-Adds}
use dmn.PubSub.Order.History.{registered_now, replayed, register-absent, register-present}

module _ {I : Type 0} where
  -- The newest items, at most `k`.
  abbrev pub newest : ℕ → List I → List I
  newest k l = drop (length l - k) l

  newest-append : (k : ℕ) (a b : List I) → newest k (newest k a ++ b) ≡ newest k (a ++ b)
  newest-append k a b =
      let len = length-append a b in
      let n = length a - k in
      let start = drop-append n a b (omega arith) in
      let rest = length-drop n (a ++ b) in
      ap (newest k) (sym start)
      ∙ drop-drop (length (drop n (a ++ b)) - k) n (a ++ b)
      ∙ ap (λ m. drop m (a ++ b)) (omega arith)

  remember-newest : (k : ℕ) (item : I) (l : List I) → remember k item l ≡ newest k (l ++ item ∷ [])
  remember-newest k item l = elim (Bool-cases (ltb k (length (l ++ item ∷ [])))) [
    | inl over ↦ rw over refl
    | inr fits ↦
        let none_over : length (l ++ item ∷ []) - k ≡ 0 = ground arith in rw (fits, none_over) refl
  ]

  abbrev pub item_of : Task I → List I
  item_of (publishes item) = item ∷ []
  item_of (registers s) = []
  item_of (unregisters s) = []
  item_of takes_failures = []

  -- The items that a run publishes.
  abbrev pub published : List (Task I) → List I
  published [] = []
  published (t ∷ ts) = item_of t ++ published ts

  newest-newest : (k : ℕ) (l : List I) → newest k (newest k l) ≡ newest k l
  newest-newest k l =
      let len = length-drop (length l - k) l in
      let all : length (newest k l) - k ≡ 0 = omega arith in ap (λ m. drop m (newest k l)) all

module _ {I E : Type 0} (c : Callbacks I E) where
  -- The history is the newest of a list, and the capacity has not changed.
  record Holds (k : ℕ) (l : List I) (p : Pub I E) : Type 0 where
    pub capacity : p.capacity ≡ k
    pub buffer : p.buffer ≡ newest k l

  register-Holds :
      (k sub : ℕ) (l : List I) (p : Pub I E) → Holds k l p → Holds k l (register_subscriber c sub p)
  register-Holds k sub l p v = elim (Bool-cases (holds p.registered sub)) [
    | inl there ↦ rw (register-present c sub p there) v
    | inr absent ↦
        let u = (replay-Adds c sub (replayed c sub p) (registered_now c sub p)).unchanged in
        rw (register-absent c sub p absent)
          (record { capacity = u.capacity ∙ v.capacity; buffer = u.buffer ∙ v.buffer })
  ]

  unregister-Holds :
      (k sub : ℕ) (l : List I) (p q : Pub I E)
      → Holds k l p
      → unregister_subscriber sub p ≡ some q
      → Holds k l q
  unfolding unregister_subscriber
  unregister-Holds k sub l p q v e = elim (Bool-cases (holds p.registered sub)) [
    | inl there ↦
        let found = rw there at e in
        let same : record p {
          registered = erase_first sub p.registered;
          subscribers = remove_all sub p.subscribers;
        }
            ≡ q =
          cc in
        rw (sym same) (record { capacity = v.capacity; buffer = v.buffer })
    | inr absent ↦ let gone = rw absent at e in cc
  ]

  publish-Holds :
      (k : ℕ) (item : I) (l : List I) (p : Pub I E)
      → Holds k l p
      → Holds k (l ++ item ∷ []) (publish c item p).0
  publish-Holds k item l p v =
      let (log, buffer, subs, regs, capacity, limit) = publish_delivers c item p in
      record {
        capacity = capacity ∙ v.capacity;
        buffer =
            buffer
            ∙ rw (v.capacity, v.buffer) (remember-newest k item (newest k l))
            ∙ newest-append k l (item ∷ []);
      }

  task-Holds :
      (k : ℕ) (t : Task I) (l : List I) (p q : Pub I E)
      → Holds k l p
      → after_task c t p ≡ some q
      → Holds k (l ++ item_of t) q
  unfolding after_task
  task-Holds k (publishes item) l p q v e =
      let now : (publish c item p).0 ≡ q = cc in rw (sym now) (publish-Holds k item l p v)
  task-Holds k (registers s) l p q v e =
      let now : register_subscriber c s p ≡ q = cc in
      rw (sym now, append-nil l) (register-Holds k s l p v)
  task-Holds k (unregisters s) l p q v e = rw (append-nil l) (unregister-Holds k s l p q v e)
  task-Holds k takes_failures l p q v e =
      let now : record p { callback_failures = [] } ≡ q = cc in
      rw (sym now, append-nil l) (record { capacity = v.capacity; buffer = v.buffer })

  run-Holds :
      (k : ℕ) (ts : List (Task I)) (l : List I) (p q : Pub I E)
      → Holds k l p
      → run c ts p ≡ some q
      → Holds k (l ++ published ts) q
  unfolding run
  run-Holds k [] l p q v e = let now : p ≡ q = cc in rw (sym now, append-nil l) v
  run-Holds k (t ∷ ts) l p q v e = elim (Option-cases (after_task c t p)) [
    | inl gone ↦ let out = rw gone at e in cc
    | inr (r, next) ↦
        let rest : run c ts r ≡ some q = rw next at e in
        rw (sym (append_assoc l (item_of t) (published ts)))
          (run-Holds k ts (l ++ item_of t) r q (task-Holds k t l p r v next) rest)
  ]

  -- At every time the history of a publisher is the newest items it has published, at most its capacity of
  -- them, in order: neither a registration nor an exception of a callback loses one.
  pub run-newest :
      (k : ℕ) (f : Quantity) (ts : List (Task I)) (q : Pub I E)
      → run c ts (new k f) ≡ some q
      → q.buffer ≡ newest k (published ts)
  run-newest k f ts q e =
      (run-Holds k ts [] (new k f) q (record { capacity = refl; buffer = sym (drop_nil (0 - k)) })
        e).buffer
