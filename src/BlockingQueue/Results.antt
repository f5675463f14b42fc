-- ===== src/BlockingQueue/Results.antt =====
-- include/dmn-blockingqueue-mt.hpp: what a call returns, by what it finds under the mutex.
use dmn.Prelude.{
  ◌<◌, ◌⊎◌, inl, inr, ◌==◌, ==_iff, Bool-cases, length-append, ℕ, zero, suc, ◌≤◌, ◌≡◌, refl, sym,
  ap, ◌∙◌, Bool, true, false, not, ◌&&◌, ◌||◌, List, [], ◌∷◌, arith, length, take, length-take,
  if◌then◌else◌, ◌%◌, none, ◌↔◌,
}
use mathlib.Core.List.{append-nil}
use dmn.InflightGuard.{word}
use dmn.BlockingQueue.{
  Queue, Call, pop, pop_optional, wait_for_empty, Next, returns, aborts, waits, done, collect,
  take_front, is_empty, leave, pop_one, enough, enter, resume,
}
use dmn.BlockingQueue.Threads.{Shared, System, Reach, start}
use dmn.BlockingQueue.Fifo.{OnDone, OnDone-if, IsFifo, Reach-IsFifo}

module _ {ℓ} {A : Type ℓ} where
  collect-take : (count : ℕ) (xs : List A) (s : Queue A) → (collect count xs s).0 ≡ take count xs
  unfolding collect
  collect-take zero xs s = refl
  collect-take (suc count) [] s = refl
  collect-take (suc count) (x ∷ xs) s = ap (x ∷◌) (collect-take count xs _)

  -- What `pop` returns for `count` items, waited for or not.
  abbrev pub Popped : ℕ → Bool → Queue A → List A → Type ℓ
  Popped count timed_out s ret =
      (ret ≡ take count s.queue)
      × (length ret ≤ count)
      × (timed_out ≡ false → s.shutdown_flag ≡ false → length ret ≡ count)

  collect-Popped :
      (count : ℕ) (timed_out : Bool) (s : Queue A)
      → (enough count s || timed_out) ≡ true
      → Popped count timed_out s (collect count s.queue s).0
  collect-Popped count t s f =
      let same = collect-take count s.queue s in
      let long = length-take count s.queue in
      let bounded = ap length same in (same, omega arith, λ a b. ground arith)

  resume-Popped :
      (count : ℕ) (timed timed_out : Bool) (s : Queue A)
      → OnDone (λ n ret q. Popped count timed_out s ret) (resume (pop count timed) timed_out s)
  unfolding resume
  resume-Popped count timed t s =
      OnDone-if _ (enough count s || t) _ _ (collect-Popped count t s) (λ f. tt)

  -- `pop(count, timeout)`, when it stops waiting, returns the first items of the queue, at most
  -- `count`; and exactly `count` unless it timed out or the queue has been shut down.
  pub pop_returns :
      (count : ℕ) (timed timed_out : Bool) (s q : Queue A) (n : Next) (ret : List A)
      → resume (pop count timed) timed_out s ≡ done n ret q
      → (ret ≡ take count s.queue)
        × (length ret ≤ count)
        × (timed_out ≡ false → s.shutdown_flag ≡ false → length ret ≡ count)
  pop_returns count timed t s q n ret e = rw e at (resume-Popped count timed t s)

  woken_throws :
      (xs : List A) (shut : Bool) (s : Queue A)
      → OnDone
          (λ n ret q. (pop_one ret ≡ none) ↔ (shut ≡ true))
          (if is_empty xs && not shut
            then waits
            else (if shut then leave ([], s) else leave (take_front xs s)))
  woken_throws [] true s = (λ e. refl, λ e. refl)
  woken_throws [] false s = tt
  woken_throws (x ∷ xs) true s = (λ e. refl, λ e. refl)
  woken_throws (x ∷ xs) false s = (λ e. cc, λ e. cc)

  resume-throws :
      (timed_out : Bool) (s : Queue A)
      → OnDone
          (λ n ret q. (pop_one ret ≡ none) ↔ (s.shutdown_flag ≡ true))
          (resume (pop_optional true) timed_out s)
  unfolding resume
  resume-throws t s = woken_throws s.queue s.shutdown_flag s

  -- `pop()`, woken from its wait, throws exactly when the queue has been shut down, even if it holds
  -- items.
  pub pop_throws_iff :
      (timed_out : Bool) (s q : Queue A) (n : Next) (ret : List A)
      → resume (pop_optional true) timed_out s ≡ done n ret q
      → (pop_one ret ≡ none) ↔ (s.shutdown_flag ≡ true)
  pop_throws_iff t s q n ret e = rw e at (resume-throws t s)

  is_empty-nil : (xs : List A) → is_empty xs ≡ true → xs ≡ []
  is_empty-nil [] e = refl
  is_empty-nil (x ∷ xs) e = cc

  -- A call of `waitForEmpty` that holds the mutex, for the first time or after a wait, and has not to
  -- wait, ends with `n`.
  abbrev pub EmptyWaitEnds : Queue A → Next → List A → Queue A → Type ℓ
  EmptyWaitEnds s n ret q =
      (enter wait_for_empty s ≡ done n ret q)
      ⊎ ((timed_out : Bool) × (resume wait_for_empty timed_out s ≡ done n ret q))

  -- A hold of the mutex after a wait tests the predicate as the first one does.
  resume-wait_for_empty :
      (timed_out : Bool) (s : Queue A) → resume wait_for_empty timed_out s ≡ enter wait_for_empty s
  unfolding resume
  resume-wait_for_empty t s = refl

  EmptyWaitEnds-enter :
      (s : Queue A) (n : Next) (ret : List A) (q : Queue A)
      → EmptyWaitEnds s n ret q
      → enter wait_for_empty s ≡ done n ret q
  EmptyWaitEnds-enter s n ret q (inl e) = e
  EmptyWaitEnds-enter s n ret q (inr (t, e)) = sym (resume-wait_for_empty t s) ∙ e

  IsFifo-empty :
      {s : Shared A}
      → IsFifo s
      → s.q.queue ≡ []
      → (s.q.pop_count ≡ s.q.push_count) × (s.q.push_count ≡ length s.pushed % word)
  IsFifo-empty {s} v k =
      let all_popped = v.order ∙ rw k (append-nil s.popped) in
      (v.pop_count ∙ sym (v.push_count ∙ ap (λ l. length l % word) all_popped), v.push_count)

  enter-wait_for_empty :
      (s : Queue A) (total : ℕ)
      → (s.queue ≡ [] → (s.pop_count ≡ s.push_count) × (s.push_count ≡ total))
      → s.shutdown_flag ≡ false
      → OnDone
          (λ n ret q. (n ≡ returns) × (q.pop_count ≡ total) × (s.queue ≡ []))
          (enter wait_for_empty s)
  unfolding enter
  enter-wait_for_empty s total k f =
      OnDone-if _ (is_empty s.queue || s.shutdown_flag) _ _
        (λ e.
          let none_left = is_empty-nil s.queue (ground arith) in
          let (same, all) = k none_left in (ground arith, ground arith, none_left))
        (λ e. tt)

  -- A call of `waitForEmpty` that ends while the queue is not shut down, with its first hold of the mutex
  -- or after any wait, whatever the threads have done: the queue is empty, the assertion holds, and the
  -- count that the call returns is the number of items pushed so far, modulo 2 ^ 64.
  pub wait_for_empty_counts :
      {Allowed : Call A → Type 0} (threads : ℕ) (g : System A) (q : Queue A) (n : Next)
      (ret : List A)
      → Reach Allowed (start threads) g
      → g.shared.q.shutdown_flag ≡ false
      → EmptyWaitEnds g.shared.q n ret q
      → (n ≡ returns) × (q.pop_count ≡ length g.shared.pushed % word) × (g.shared.q.queue ≡ [])
  wait_for_empty_counts threads g q n ret r f e = rw (EmptyWaitEnds-enter g.shared.q n ret q e) at (
      enter-wait_for_empty g.shared.q (length g.shared.pushed % word)
        (IsFifo-empty (Reach-IsFifo threads r)) f)

  IsFifo-left :
      {s : Shared A}
      → IsFifo s
      → length s.q.queue < word
      → s.q.pop_count ≡ s.q.push_count
      → is_empty s.q.queue ≡ true
  IsFifo-left {s} v small same =
      let order = ap length v.order ∙ length-append s.popped s.q.queue in
      let pushes = v.push_count in
      let pops = v.pop_count in
      let none_left : length s.q.queue ≡ 0 = omega arith in length_zero s.q.queue none_left
    where
      length_zero : (l : List A) → length l ≡ 0 → is_empty l ≡ true
      length_zero [] e = refl
      length_zero (x ∷ l) e = absurd (omega arith)

  ends_shut :
      (s : Queue A)
      → s.shutdown_flag ≡ true
      → enter wait_for_empty s ≡ done (if s.pop_count == s.push_count then returns else aborts) [] s
  unfolding enter
  ends_shut s f = elim (Bool-cases (is_empty s.queue)) [
    | inl e ↦ rw e refl
    | inr e ↦ rw (e, f) refl
  ]

  -- A call of `waitForEmpty` that holds the mutex while the queue is shut down, for the first time or
  -- after any wait, does not wait any more: it returns when the queue is empty, and when items are left,
  -- fewer than 2 ^ 64 of them, its assertion on the two counters fails, which ends the program.
  pub aborted_wait_for_empty :
      {Allowed : Call A → Type 0} (threads : ℕ) (g : System A) (timed_out : Bool)
      → Reach Allowed (start threads) g
      → g.shared.q.shutdown_flag ≡ true
      → length g.shared.q.queue < word
      → let n = if is_empty g.shared.q.queue then returns else aborts in
        (enter wait_for_empty g.shared.q ≡ done n [] g.shared.q)
        × (resume wait_for_empty timed_out g.shared.q ≡ done n [] g.shared.q)
  aborted_wait_for_empty threads g t r f small =
      let v = Reach-IsFifo threads r in
      let s = g.shared.q in
      let ends : enter wait_for_empty s ≡ done (if is_empty s.queue then returns else aborts) [] s =
        elim (Bool-cases (is_empty s.queue)) [
          | inl e ↦
              let same = (IsFifo-empty v (is_empty-nil s.queue e)).0 in
              let eq : (s.pop_count == s.push_count) ≡ true = ground arith in
              rw e (ends_shut s f ∙ rw eq refl)
          | inr e ↦
              let eq : (s.pop_count == s.push_count) ≡ false =
                elim (Bool-cases (s.pop_count == s.push_count)) [
                  | inl same ↦
                      let clash : true ≡ false =
                        sym (IsFifo-left v small ((==_iff s.pop_count s.push_count).0 same)) ∙ e in
                      cc
                  | inr other ↦ other
                ] in
              rw e (ends_shut s f ∙ rw eq refl)
        ] in
      (ends, resume-wait_for_empty t s ∙ ends)
