-- ===== src/BlockingQueue.antt =====
-- include/dmn-blockingqueue.hpp and include/dmn-blockingqueue-mt.hpp: `Dmn_BlockingQueue_Mt`, what each
-- call does while it holds `m_mutex`. `Threads` interleaves the calls, their waits and their
-- notifications.
pub mod Threads
pub mod Fifo
pub mod Single
pub mod Results
pub mod Lost
mod Tests
use dmn.Prelude.{
  ℕ, zero, suc, ◌+◌, ◌%◌, Bool, true, false, not, ◌&&◌, ◌||◌, List, [], ◌∷◌, ◌++◌, Option, none,
  some, length, leb, ◌==◌, if◌then◌else◌,
}
use dmn.InflightGuard.{word}

-- `m_queue`, `m_push_count`, `m_pop_count` and the base class's `m_shutdown_flag`.
pub record Queue {ℓ} (A : Type ℓ) : Type ℓ where
  pub queue : List A
  pub push_count : ℕ
  pub pop_count : ℕ
  pub shutdown_flag : Bool

-- The calls: both overloads of `push`, `pop(count, timeout)` with whether the timeout is positive,
-- `popOptional(wait)` and `waitForEmpty`.
pub data Call {ℓ} (A : Type ℓ) : Type ℓ where
  push : A → Call A
  pop : (count : ℕ) (timed : Bool) → Call A
  pop_optional : (wait : Bool) → Call A
  wait_for_empty : Call A

-- What a call does once it has unlocked the mutex: `m_not_empty_cond.notify_one()`,
-- `m_empty_cond.notify_all()`, nothing, or the failed `assert` of `waitForEmpty`, which ends the
-- program.
pub data Next : Type 0 where
  notify_not_empty : Next
  notify_empty : Next
  returns : Next
  aborts : Next

-- What a call finds under the lock: that it has to wait, or the items it returns.
pub data Section {ℓ} (A : Type ℓ) : Type ℓ where
  waits : Section A
  done : Next → List A → Queue A → Section A

-- `++` on a `uint64_t`.
abbrev pub increment : ℕ → ℕ
increment n = (n + 1) % word

module _ {ℓ} {A : Type ℓ} where
  abbrev pub is_empty : List A → Bool
  is_empty [] = true
  is_empty (x ∷ xs) = false

  -- The lines of `pushImpl` under the lock.
  abbrev pub push_item : A → Queue A → Queue A
  push_item x s = record s { queue = s.queue ++ (x ∷ []); push_count = increment s.push_count }

  -- `popOptional`'s three lines that take the front; never run on an empty queue.
  abbrev pub take_front : List A → Queue A → List A × Queue A
  take_front [] s = ([], record s { queue = [] })
  take_front (x ∷ xs) s = (x ∷ [], record s { queue = xs; pop_count = increment s.pop_count })

  -- The loop of `pop` that collects up to `count` items.
  unfoldable pub collect : ℕ → List A → Queue A → List A × Queue A
  collect zero xs s = ([], record s { queue = xs })
  collect (suc count) [] s = ([], record s { queue = [] })
  collect (suc count) (x ∷ xs) s =
      let rest = collect count xs (record s { pop_count = increment s.pop_count }) in
      (x ∷ rest.0, rest.1)

  -- What `pop` and `popOptional` do from the moment that they read `empty`.
  abbrev pub leave : List A × Queue A → Section A
  leave (ret, s) = done (if is_empty s.queue then notify_empty else notify_not_empty) ret s

  -- The predicate of `pop`'s wait.
  abbrev pub enough : ℕ → Queue A → Bool
  enough count s = leb count (length s.queue) || s.shutdown_flag

  abbrev pub finish_empty : Queue A → Section A
  finish_empty s = done (if s.pop_count == s.push_count then returns else aborts) [] s

  -- A call's first hold of the mutex: `pop` and `waitForEmpty` test the predicate before they wait,
  -- `popOptional` only whether the queue is empty and then, to wait, its predicate.
  unfoldable pub enter : Call A → Queue A → Section A
  unfolding collect
  enter (push x) s = done notify_not_empty [] (push_item x s)
  enter (pop count timed) s = if enough count s then leave (collect count s.queue s) else waits
  enter (pop_optional wait) s =
      if is_empty s.queue
      then (if wait && not s.shutdown_flag then waits else leave ([], s))
      else leave (take_front s.queue s)
  enter wait_for_empty s = if is_empty s.queue || s.shutdown_flag then finish_empty s else waits

  -- The same call when it holds the mutex again after a wait, which may have ended by the timeout.
  unfoldable pub resume : Call A → Bool → Queue A → Section A
  unfolding collect enter
  resume (pop count timed) timed_out s =
      if enough count s || timed_out then leave (collect count s.queue s) else waits
  resume (pop_optional wait) timed_out s =
      if is_empty s.queue && not s.shutdown_flag
      then waits
      else (if s.shutdown_flag then leave ([], s) else leave (take_front s.queue s))
  resume c timed_out s = enter c s

  -- `Dmn_BlockingQueue::shutdown`, the first line of the override.
  abbrev pub set_shutdown : Queue A → Queue A
  set_shutdown s = record s { shutdown_flag = true }

  -- `Dmn_BlockingQueue_Mt()`, and the constructor that pushes each item of a list.
  abbrev pub new : Queue A
  new = record { queue = []; push_count = 0; pop_count = 0; shutdown_flag = false }

  abbrev pub push_all : List A → Queue A → Queue A
  push_all [] s = s
  push_all (x ∷ xs) s = push_all xs (push_item x s)

  -- `pop()` on the result of `popOptional(true)`: `none` is the `runtime_error`.
  abbrev pub pop_one : List A → Option A
  pop_one [] = none
  pop_one (x ∷ xs) = some x
