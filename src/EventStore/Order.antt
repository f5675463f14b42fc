-- ===== src/EventStore/Order.antt =====
-- src/app/gui/core/dmn-device-monitor-event-store.cpp: order, bound and count of the events.
use dmn.Prelude.{
  ℕ, suc, ◌+◌, ◌-◌, ◌≤◌, ◌<◌, ◌≡◌, refl, inl, inr, min, map, some, List, [], ◌∷◌, ltb, length,
  arith, Bool-cases,
}
use dmn.EventStore.{
  MonitorEvent, EventStore, new, word, stamp, insert, tail, evict, append, clear, Command, appends,
  clears, replay,
}

-- No event of the list is earlier than `n`.
abbrev pub NotBefore : ℕ → List MonitorEvent → Type 0
NotBefore n [] = Unit {0}
NotBefore n (x ∷ xs) = (n ≤ x.sequence) × NotBefore n xs

abbrev pub Sorted : List MonitorEvent → Type 0
Sorted [] = Unit {0}
Sorted (x ∷ xs) = NotBefore x.sequence xs × Sorted xs

NotBefore-weaken : (n m : ℕ) (xs : List MonitorEvent) → m ≤ n → NotBefore n xs → NotBefore m xs
NotBefore-weaken n m [] h v = tt
NotBefore-weaken n m (x ∷ xs) h v = (omega (arith, v.0), NotBefore-weaken n m xs h v.1)

insert-NotBefore :
    (n : ℕ) (e : MonitorEvent) (xs : List MonitorEvent)
    → n ≤ e.sequence
    → NotBefore n xs
    → NotBefore n (insert e xs)
unfolding insert
insert-NotBefore n e [] h v = (h, tt)
insert-NotBefore n e (x ∷ xs) h v = elim (Bool-cases (ltb e.sequence x.sequence)) [
  | inl earlier ↦ rw earlier (h, v)
  | inr later ↦ rw later (v.0, insert-NotBefore n e xs h v.1)
]

insert-Sorted : (e : MonitorEvent) (xs : List MonitorEvent) → Sorted xs → Sorted (insert e xs)
unfolding insert
insert-Sorted e [] v = (tt, tt)
insert-Sorted e (x ∷ xs) v = elim (Bool-cases (ltb e.sequence x.sequence)) [
  | inl earlier ↦
      let le : e.sequence ≤ x.sequence = ground arith in
      rw earlier ((le, NotBefore-weaken x.sequence e.sequence xs le v.0), (v.0, v.1))
  | inr later ↦
      rw later (insert-NotBefore x.sequence e xs (ground arith) v.0, insert-Sorted e xs v.1)
]

length-insert : (e : MonitorEvent) (xs : List MonitorEvent) → length (insert e xs) ≡ suc (length xs)
unfolding insert
length-insert e [] = refl
length-insert e (x ∷ xs) = elim (Bool-cases (ltb e.sequence x.sequence)) [
  | inl earlier ↦ rw earlier refl
  | inr later ↦ rw later (omega (arith, length-insert e xs))
]

tail-Sorted : (xs : List MonitorEvent) → Sorted xs → Sorted (tail xs)
tail-Sorted [] v = tt
tail-Sorted (x ∷ xs) v = v.1

length-tail : (xs : List MonitorEvent) → length (tail xs) ≡ length xs - 1
length-tail [] = refl
length-tail (x ∷ xs) = omega arith

pub record IsValid (s : EventStore) : Type 0 where
  pub sorted : Sorted s.events
  pub bounded : length s.events ≤ s.maximum_events

append-IsValid : (e : MonitorEvent) (s : EventStore) → IsValid s → IsValid (append e s)
unfolding append evict
append-IsValid e s v =
    let len = length-insert (stamp s e) s.events in
    let bound = v.bounded in
    elim (Bool-cases (ltb s.maximum_events (length (insert (stamp s e) s.events)))) [
      | inl over ↦ rw over (record {
        sorted =
            tail-Sorted (insert (stamp s e) s.events) (insert-Sorted (stamp s e) s.events v.sorted);
        bounded = omega (arith, length-tail (insert (stamp s e) s.events));
      })
      | inr fits ↦
          rw fits (record {
            sorted = insert-Sorted (stamp s e) s.events v.sorted;
            bounded = ground arith;
          })
    ]

replay_from : (cs : List Command) (s : EventStore) → IsValid s → IsValid (replay cs s)
unfolding replay
replay_from [] s v = v
replay_from (appends e ∷ cs) s v = replay_from cs (append e s) (append-IsValid e s v)
replay_from (clears ∷ cs) s v =
    replay_from cs (clear s).0 (unfold clear in record { sorted = tt; bounded = omega arith })

-- Whatever events, with whatever sequence numbers, are appended in whatever order, and whenever the
-- store is cleared: a store stays sorted by sequence, and within its limit.
pub replay-IsValid :
    (limit : ℕ) (s : EventStore) (cs : List Command) → new limit ≡ some s → IsValid (replay cs s)
unfolding new
replay-IsValid limit s cs e =
    let empty : s.events ≡ [] = ground arith in
    replay_from cs s (record { sorted = rw empty tt; bounded = rw empty (omega arith) })

-- One append: the length and the counter.
record Counted (limit n : ℕ) (s : EventStore) : Type 0 where
  limited : s.maximum_events ≡ limit
  retained : length s.events ≡ min limit n
  evicted : s.evicted_events ≡ n - limit

append-Counted :
    (limit n : ℕ) (e : MonitorEvent) (s : EventStore)
    → suc n < word
    → Counted limit n s
    → Counted limit (suc n) (append e s)
unfolding append evict
append-Counted limit n e s h c =
    let len = length-insert (stamp s e) s.events in
    let short = length-tail (insert (stamp s e) s.events) in
    let max_eq = c.limited in
    let kept = c.retained in
    let gone = c.evicted in
    elim (Bool-cases (ltb s.maximum_events (length (insert (stamp s e) s.events)))) [
      | inl over ↦
          rw over (record { limited = c.limited; retained = ground arith; evicted = ground arith })
      | inr fits ↦
          rw fits (record { limited = c.limited; retained = ground arith; evicted = ground arith })
    ]

show_zero : (n : ℕ) → n + 0 ≡ n
show_zero n = omega arith

show_suc : (n m : ℕ) → n + suc m ≡ suc n + m
show_suc n m = omega arith

replay-Counted :
    (limit n : ℕ) (es : List MonitorEvent) (s : EventStore)
    → n + length es < word
    → Counted limit n s
    → Counted limit (n + length es) (replay (map appends es) s)
unfolding replay
replay-Counted limit n [] s h c = rw (show_zero n) c
replay-Counted limit n (e ∷ es) s h c = rw (show_suc n (length es)) (
    replay-Counted limit (suc n) es (append e s) (omega arith)
      (append-Counted limit n e s (omega arith) c))

-- Of any events appended to a new store, the store retains as many as its limit allows, and counts
-- each of the others as evicted (up to 2 ^ 64 of them).
pub replay_counts :
    (limit : ℕ) (s : EventStore) (es : List MonitorEvent)
    → new limit ≡ some s
    → length es < word
    → (length (replay (map appends es) s).events ≡ min limit (length es))
      × ((replay (map appends es) s).evicted_events ≡ length es - limit)
unfolding new
replay_counts limit s es e h =
    let empty : s.events ≡ [] = ground arith in
    let count : s.evicted_events ≡ 0 = ground arith in
    let most : s.maximum_events ≡ limit = ground arith in
    let start : Counted limit 0 s = record {
      limited = most;
      retained = rw empty (omega arith);
      evicted = rw count (omega arith);
    } in
    let c = replay-Counted limit 0 es s (omega arith) start in
    let kept = c.retained in let gone = c.evicted in (omega arith, omega arith)
