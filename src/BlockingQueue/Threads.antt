-- ===== src/BlockingQueue/Threads.antt =====
-- include/dmn-blockingqueue-mt.hpp: the threads that use one queue. A step is what a thread does
-- between two points at which another may come between: passing the gate, holding the mutex,
-- falling asleep, notifying. A thread asleep may also wake by itself. `popOptional` passes the gate
-- under the mutex, the others before they lock it. `Allowed` is the calls that the clients make.
use dmn.Prelude.{ℕ, zero, suc, ◌+◌, ◌≡◌, Bool, true, false, List, [], ◌∷◌, ◌++◌, ltb}
use dmn.BlockingQueue.{
  Queue, Call, push, pop, pop_optional, wait_for_empty, Next, notify_not_empty, notify_empty,
  returns, waits, done, enter, resume, set_shutdown, new,
}

-- Where a thread is. `held` is between a predicate that was false and the release of the mutex by
-- the wait, the only place where a thread holds the mutex between two steps.
pub data Place {ℓ} (A : Type ℓ) : Type ℓ where
  idle : Place A
  admitted : Call A → Place A
  held : Call A → Place A
  asleep : Call A → Place A
  woken : Call A → (timed_out : Bool) → Place A
  leaving : Next → Place A
  closing : Place A
  closing_not_empty : Place A
  draining : Place A

-- The queue, and what has been pushed and what returned so far, in order.
pub record Shared {ℓ} (A : Type ℓ) : Type ℓ where
  pub q : Queue A
  pub pushed : List A
  pub popped : List A

pub record System {ℓ} (A : Type ℓ) : Type ℓ where
  pub shared : Shared A
  pub threads : List (Place A)

module _ {ℓ} {A : Type ℓ} where
  abbrev pub items : Call A → List A
  items (push x) = x ∷ []
  items _ = []

  -- `assert(count > 0)`, where `pop` begins.
  abbrev pub asserted : Call A → Bool
  asserted (pop count timed) = ltb 0 count
  asserted _ = true

  -- Whether the thread holds `m_mutex`.
  abbrev pub holds : Place A → ℕ
  holds (held c) = 1
  holds _ = 0

  -- Whether the thread is blocked in `m_not_empty_cond`.
  abbrev pub sleeps : Place A → ℕ
  sleeps (asleep (pop count timed)) = 1
  sleeps (asleep (pop_optional wait)) = 1
  sleeps _ = 0

  abbrev pub gated : Call A → ℕ
  gated wait_for_empty = 0
  gated _ = 1

  -- Whether the thread holds an in-flight ticket: it has passed the gate and its call has not ended.
  abbrev pub tickets : Place A → ℕ
  tickets (admitted c) = gated c
  tickets (held c) = gated c
  tickets (asleep c) = gated c
  tickets (woken c timed_out) = gated c
  tickets (leaving notify_not_empty) = 1
  tickets (leaving notify_empty) = 1
  tickets _ = 0

  abbrev pub total : (Place A → ℕ) → List (Place A) → ℕ
  total f [] = 0
  total f (p ∷ ps) = let rest = total f ps in f p + rest

  -- `m_empty_cond.notify_all()`.
  abbrev pub wake_empty : Place A → Place A
  wake_empty (asleep wait_for_empty) = woken wait_for_empty false
  wake_empty p = p

  -- `m_not_empty_cond.notify_all()`.
  abbrev pub wake_not_empty : Place A → Place A
  wake_not_empty (asleep (pop count timed)) = woken (pop count timed) false
  wake_not_empty (asleep (pop_optional wait)) = woken (pop_optional wait) false
  wake_not_empty p = p

  abbrev pub wake_all : (Place A → Place A) → List (Place A) → List (Place A)
  wake_all f [] = []
  wake_all f (p ∷ ps) = f p ∷ wake_all f ps

  abbrev pub section_done : Call A → List A → Queue A → Shared A → Shared A
  section_done c ret q s = record { q = q; pushed = s.pushed ++ items c; popped = s.popped ++ ret }

-- A thread's step that changes no other thread. `free` is 0 when no other thread holds the mutex.
-- `waitForEmpty` passes no gate.
pub data Move {ℓ} {A : Type ℓ} (Allowed : Call A → Type 0) (s : Shared A) (free : ℕ)
    : Place A → Shared A → Place A → Type ℓ where
  passes_gate :
      (c : Call A)
      → Allowed c
      → asserted c ≡ true
      → s.q.shutdown_flag ≡ false
      → Move Allowed s free idle s (admitted c)
  calls_wait_for_empty : Move Allowed s free idle s (admitted wait_for_empty)
  enters :
      {c : Call A} {n : Next} {ret : List A} {q : Queue A}
      → free ≡ 0
      → enter c s.q ≡ done n ret q
      → Move Allowed s free (admitted c) (section_done c ret q s) (leaving n)
  enters_waits :
      {c : Call A} → free ≡ 0 → enter c s.q ≡ waits → Move Allowed s free (admitted c) s (held c)
  resumes :
      {c : Call A} {timed_out : Bool} {n : Next} {ret : List A} {q : Queue A}
      → free ≡ 0
      → resume c timed_out s.q ≡ done n ret q
      → Move Allowed s free (woken c timed_out) (section_done c ret q s) (leaving n)
  resumes_waits :
      {c : Call A} {timed_out : Bool}
      → free ≡ 0
      → resume c timed_out s.q ≡ waits
      → Move Allowed s free (woken c timed_out) s (held c)
  blocks : (c : Call A) → Move Allowed s free (held c) s (asleep c)
  wakes : (c : Call A) → Move Allowed s free (asleep c) s (woken c false)
  times_out :
      (count : ℕ) → Move Allowed s free (asleep (pop count true)) s (woken (pop count true) true)
  done_returns : Move Allowed s free (leaving returns) s idle
  closes : Move Allowed s free idle (record s { q = set_shutdown s.q }) closing

-- `m_not_empty_cond.notify_one()`, if a thread is blocked in it.
pub data WakeOne {ℓ} {A : Type ℓ} : List (Place A) → List (Place A) → Type ℓ where
  pop_wakes :
      (count : ℕ) (timed : Bool) (ps : List (Place A))
      → WakeOne (asleep (pop count timed) ∷ ps) (woken (pop count timed) false ∷ ps)
  pop_optional_wakes :
      (wait : Bool) (ps : List (Place A))
      → WakeOne (asleep (pop_optional wait) ∷ ps) (woken (pop_optional wait) false ∷ ps)
  skip : (p : Place A) {ps qs : List (Place A)} → WakeOne ps qs → WakeOne (p ∷ ps) (p ∷ qs)

pub data Step {ℓ} {A : Type ℓ} (Allowed : Call A → Type 0) : System A → System A → Type ℓ where
  moves :
      {s t : Shared A} {p q : Place A} (before after : List (Place A))
      → Move Allowed s (total holds before + total holds after) p t q
      → Step Allowed
          (record { shared = s; threads = before ++ p ∷ after })
          (record { shared = t; threads = before ++ q ∷ after })
  notifies_one :
      {s : Shared A} (before after : List (Place A)) {ps : List (Place A)}
      → WakeOne (before ++ idle ∷ after) ps
      → Step Allowed
          (record { shared = s; threads = before ++ leaving notify_not_empty ∷ after })
          (record { shared = s; threads = ps })
  notifies_nobody :
      {s : Shared A} (before after : List (Place A))
      → total sleeps (before ++ idle ∷ after) ≡ 0
      → Step Allowed
          (record { shared = s; threads = before ++ leaving notify_not_empty ∷ after })
          (record { shared = s; threads = before ++ idle ∷ after })
  notifies_empty :
      {s : Shared A} (before after : List (Place A))
      → Step Allowed
          (record { shared = s; threads = before ++ leaving notify_empty ∷ after })
          (record { shared = s; threads = wake_all wake_empty (before ++ idle ∷ after) })
  shutdown_notifies_empty :
      {s : Shared A} (before after : List (Place A))
      → Step Allowed
          (record { shared = s; threads = before ++ closing ∷ after })
          (record {
            shared = s;
            threads = wake_all wake_empty (before ++ closing_not_empty ∷ after);
          })
  shutdown_notifies_not_empty :
      {s : Shared A} (before after : List (Place A))
      → Step Allowed
          (record { shared = s; threads = before ++ closing_not_empty ∷ after })
          (record { shared = s; threads = wake_all wake_not_empty (before ++ draining ∷ after) })
  -- `waitForEmptyInflight()` ends when no other thread holds a ticket, and `shutdown` returns.
  drains :
      {s : Shared A} (before after : List (Place A))
      → total tickets before + total tickets after ≡ 0
      → Step Allowed
          (record { shared = s; threads = before ++ draining ∷ after })
          (record { shared = s; threads = before ++ idle ∷ after })

pub data Reach {ℓ} {A : Type ℓ} (Allowed : Call A → Type 0) (f : System A) : System A → Type ℓ where
  stay : Reach Allowed f f
  onward : {g h : System A} → Reach Allowed f g → Step Allowed g h → Reach Allowed f h

module _ {ℓ} {A : Type ℓ} where
  abbrev pub idlers : ℕ → List (Place A)
  idlers zero = []
  idlers (suc n) = idle ∷ idlers n

  -- A new queue, which `n` threads are going to use.
  abbrev pub start : ℕ → System A
  start n = record { shared = record { q = new; pushed = []; popped = [] }; threads = idlers n }
