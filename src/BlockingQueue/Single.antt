-- ===== src/BlockingQueue/Single.antt =====
-- include/dmn-blockingqueue-mt.hpp: clients that pop one item at a time. `notify_one` is then enough:
-- no thread is left asleep beside an item.
pub mod Invariant
mod Measures
use dmn.Prelude.{
  ℕ, zero, suc, ◌+◌, ◌≤◌, ◌<◌, ◌≡◌, refl, sym, ap, ◌∙◌, Bool, true, false, ◌⊎◌, inl, inr, List, [],
  ◌∷◌, ◌++◌, arith, length, not, ◌&&◌, ◌||◌, if◌then◌else◌,
}
use dmn.BlockingQueue.{
  Queue, Call, push, pop, pop_optional, wait_for_empty, Next, notify_not_empty, notify_empty,
  returns, aborts, Section, waits, done, collect, take_front, is_empty, leave, enough, finish_empty,
  enter, resume,
}
use dmn.BlockingQueue.Threads.{
  Place, idle, admitted, held, asleep, woken, leaving, closing, closing_not_empty, draining, Shared,
  System, items, holds, sleeps, total, wake_empty, wake_not_empty, wake_all, section_done, Move,
  passes_gate, calls_wait_for_empty, enters, enters_waits, resumes, resumes_waits, blocks, wakes,
  times_out, done_returns, closes, WakeOne, pop_wakes, pop_optional_wakes, skip, Step, moves,
  notifies_one, notifies_nobody, notifies_empty, shutdown_notifies_empty,
  shutdown_notifies_not_empty, Reach, stay, onward, idlers, start,
}

module _ {ℓ} {A : Type ℓ} where
  -- A client that asks for one item.
  abbrev pub Single : Call A → Type 0
  Single (pop count timed) = count ≡ 1
  Single _ = Unit

  abbrev pub SinglePlace : Place A → Type 0
  SinglePlace (admitted c) = Single c
  SinglePlace (held c) = Single c
  SinglePlace (asleep c) = Single c
  SinglePlace (woken c timed_out) = Single c
  SinglePlace _ = Unit

  abbrev pub AllSingle : List (Place A) → Type 0
  AllSingle [] = Unit
  AllSingle (p ∷ ps) = SinglePlace p × AllSingle ps

  -- Whether the thread has been woken in `m_not_empty_cond`, or is about to wake another.
  abbrev pub pending : Place A → ℕ
  pending (woken (pop count timed) timed_out) = 1
  pending (woken (pop_optional wait) timed_out) = 1
  pending (leaving notify_not_empty) = 1
  pending _ = 0

  -- Whether the thread has found no item and not yet fallen asleep.
  abbrev pub dozes : Place A → ℕ
  dozes (held (pop count timed)) = 1
  dozes (held (pop_optional wait)) = 1
  dozes _ = 0

  dozes_le : (p : Place A) → dozes p ≤ holds p
  dozes_le (held (pop count timed)) = omega arith
  dozes_le (held (pop_optional wait)) = omega arith
  dozes_le _ = omega arith

  -- What the section of a single call leaves behind: no item, a thread about to wake another, or, for
  -- `waitForEmpty`, all as it was.
  abbrev pub Leaves : Call A → Queue A → Section A → Type 0
  Leaves c s waits = (dozes (held c) ≡ 0) ⊎ (length s.queue ≡ 0)
  Leaves c s (done n ret q) =
      (length q.queue ≡ 0)
      ⊎ ((n ≡ notify_not_empty)
          ⊎ ((length q.queue ≡ length s.queue) × (pending (woken c false) ≡ 0)))

  emptied :
      (xs : List A)
      → (length xs ≡ 0)
        ⊎ ((if is_empty xs then notify_empty else notify_not_empty) ≡ notify_not_empty)
  emptied [] = inl refl
  emptied (x ∷ xs) = inr refl

  leave-Leaves : (c : Call A) (s : Queue A) (r : List A × Queue A) → Leaves c s (leave r)
  leave-Leaves c s (ret, q) = elim (emptied q.queue) [ inl e ↦ inl e | inr e ↦ inr (inl e) ]

  Leaves-if :
      (c : Call A) (s : Queue A) (b : Bool) (x y : Section A)
      → (b ≡ true → Leaves c s x)
      → (b ≡ false → Leaves c s y)
      → Leaves c s (if b then x else y)
  Leaves-if c s true x y f g = f refl
  Leaves-if c s false x y f g = g refl

  empty_queue : (xs : List A) → is_empty xs ≡ true → length xs ≡ 0
  empty_queue [] e = refl
  empty_queue (x ∷ xs) e = cc

  enter-Leaves : (c : Call A) (s : Queue A) → Single c → Leaves c s (enter c s)
  unfolding enter
  enter-Leaves (push x) s v = inr (inl refl)
  enter-Leaves (pop count timed) s v =
      Leaves-if (pop count timed) s (enough count s) _ _
        (λ e. leave-Leaves (pop count timed) s (collect count s.queue s)) (λ e. ground arith)
  enter-Leaves (pop_optional wait) s v =
      Leaves-if (pop_optional wait) s (is_empty s.queue) _ _
        (λ e.
          Leaves-if (pop_optional wait) s (wait && not s.shutdown_flag) _ _
            (λ f. inr (empty_queue s.queue e)) (λ f. inl (empty_queue s.queue e)))
        (λ e. leave-Leaves (pop_optional wait) s (take_front s.queue s))
  enter-Leaves wait_for_empty s v =
      Leaves-if wait_for_empty s (is_empty s.queue || s.shutdown_flag) _ _
        (λ e. inr (inr (refl, refl))) (λ e. inl refl)

  resume-Leaves :
      (c : Call A) (timed_out : Bool) (s : Queue A) → Single c → Leaves c s (resume c timed_out s)
  unfolding resume
  resume-Leaves (push x) t s v = enter-Leaves (push x) s v
  resume-Leaves (pop count timed) t s v =
      Leaves-if (pop count timed) s (enough count s || t) _ _
        (λ e. leave-Leaves (pop count timed) s (collect count s.queue s)) (λ e. ground arith)
  resume-Leaves (pop_optional wait) t s v =
      Leaves-if (pop_optional wait) s (is_empty s.queue && not s.shutdown_flag) _ _
        (λ e. inr (empty_queue s.queue (ground arith)))
        (λ e.
          Leaves-if (pop_optional wait) s s.shutdown_flag _ _
            (λ f. leave-Leaves (pop_optional wait) s ([], s))
            (λ f. leave-Leaves (pop_optional wait) s (take_front s.queue s)))
  resume-Leaves wait_for_empty t s v = enter-Leaves wait_for_empty s v

  -- The invariant, with the threads but for one summed up: `h` hold the mutex, `d` doze, `z` sleep and
  -- `e` are pending.
  pub record Balance (s : Shared A) (h d z e : ℕ) : Type 0 where
    pub one_holder : h ≤ 1
    pub dozing : (d ≡ 0) ⊎ (length s.q.queue ≡ 0)
    pub awake : (length s.q.queue ≡ 0) ⊎ ((z ≡ 0) ⊎ (0 < e))

  -- The three measures count the same calls.
  woken_same :
      (c : Call A) (t : Bool)
      → (dozes (held c) ≡ pending (woken c t)) × (sleeps (asleep c) ≡ pending (woken c t))
  woken_same (push x) t = (refl, refl)
  woken_same (pop count timed) t = (refl, refl)
  woken_same (pop_optional wait) t = (refl, refl)
  woken_same wait_for_empty t = (refl, refl)

  leaving_awake :
      (c : Call A) (n : Next) (s q : Queue A) (ret : List A) (old z w : ℕ)
      → (pending (woken c false) ≡ 0 → old ≡ 0)
      → Leaves c s (done n ret q)
      → (length s.queue ≡ 0) ⊎ ((0 + z ≡ 0) ⊎ (0 < old + w))
      → (length q.queue ≡ 0) ⊎ ((0 + z ≡ 0) ⊎ (0 < pending (leaving n) + w))
  leaving_awake c n s q ret old z w k (inl e) u = inl e
  leaving_awake c n s q ret old z w k (inr (inl e)) u = inr (inr (rw e (omega arith)))
  leaving_awake c n s q ret old z w k (inr (inr (same, none_))) u =
      let gone = k none_ in ground arith

  Move-Balance :
      {s t : Shared A} {h : ℕ} {p p' : Place A} (d z w : ℕ)
      → Move Single s h p t p'
      → SinglePlace p
      → d ≤ h
      → Balance s (holds p + h) (dozes p + d) (sleeps p + z) (pending p + w)
      → Balance t (holds p' + h) (dozes p' + d) (sleeps p' + z) (pending p' + w)
  Move-Balance d z w (passes_gate c l a f) v few b = ground arith
  Move-Balance d z w calls_wait_for_empty v few b = ground arith
  Move-Balance {s} d z w (enters {c = c} {n = n} {ret = ret} {q = q} f e) v few b = record {
    one_holder = omega arith;
    dozing = inl (omega arith);
    awake = leaving_awake c n s.q q ret 0 z w (λ g. refl) (rw e at (enter-Leaves c s.q v)) b.awake;
  }
  Move-Balance {s} d z w (enters_waits {c = c} f e) v few b =
      let found = rw e at (enter-Leaves c s.q v) in let same = woken_same c false in ground arith
  Move-Balance {s} d z w (resumes {c = c} {timed_out = t} {n = n} {ret = ret} {q = q} f e) v few b =
      let same = woken_same c t in
      let same_false = woken_same c false in
      record {
        one_holder = omega arith;
        dozing = inl (omega arith);
        awake =
            leaving_awake c n s.q q ret (pending (woken c t)) z w (λ g. omega arith)
              (rw e at (resume-Leaves c t s.q v)) b.awake;
      }
  Move-Balance {s} d z w (resumes_waits {c = c} {timed_out = t} f e) v few b =
      let found = rw e at (resume-Leaves c t s.q v) in let same = woken_same c t in ground arith
  Move-Balance d z w (blocks c) v few b = let same = woken_same c false in ground arith
  Move-Balance d z w (wakes c) v few b = let same = woken_same c false in ground arith
  Move-Balance d z w (times_out n) v few b = ground arith
  Move-Balance d z w done_returns v few b = ground arith
  Move-Balance d z w closes v few b = ground arith

  Move-SinglePlace :
      {s t : Shared A} {h : ℕ} {p p' : Place A}
      → Move Single s h p t p'
      → SinglePlace p
      → SinglePlace p'
  Move-SinglePlace (passes_gate c l a f) v = l
  Move-SinglePlace calls_wait_for_empty v = tt
  Move-SinglePlace (enters f e) v = tt
  Move-SinglePlace (enters_waits f e) v = v
  Move-SinglePlace (resumes f e) v = tt
  Move-SinglePlace (resumes_waits f e) v = v
  Move-SinglePlace (blocks c) v = v
  Move-SinglePlace (wakes c) v = v
  Move-SinglePlace (times_out n) v = v
  Move-SinglePlace done_returns v = tt
  Move-SinglePlace closes v = tt
