-- ===== src/BlockingQueue/Fifo.antt =====
-- include/dmn-blockingqueue-mt.hpp: whatever the threads do, the queue is first in first out.
use dmn.Prelude.{
  ℕ, zero, suc, ◌+◌, ◌%◌, ◌<◌, ◌≡◌, refl, ap, Bool, true, false, List, [], ◌∷◌, ◌++◌, arith, length,
  length-append, not, ◌&&◌, ◌||◌, if◌then◌else◌,
}
use mathlib.Core.List.{append-nil, append_assoc}
use dmn.InflightGuard.{word}
use dmn.BlockingQueue.{
  Queue, Call, push, pop, pop_optional, wait_for_empty, Next, Section, waits, done, increment,
  collect, take_front, is_empty, enough, enter, resume,
}
use dmn.BlockingQueue.Threads.{
  Place, Shared, System, items, section_done, Move, passes_gate, calls_wait_for_empty, enters,
  enters_waits, resumes, resumes_waits, blocks, wakes, times_out, done_returns, closes, Step, moves,
  notifies_one, notifies_nobody, notifies_empty, shutdown_notifies_empty,
  shutdown_notifies_not_empty, drains, Reach, stay, onward, start,
}

module _ {ℓ} {A : Type ℓ} where
  -- What holds of a section that has not to wait.
  abbrev pub OnDone {κ} : (Next → List A → Queue A → Type κ) → Section A → Type κ
  OnDone P waits = Unit
  OnDone P (done n ret q) = P n ret q

  -- The section has moved the items from the front of the queue to `ret`, put `added` at its end,
  -- and counted both.
  pub record Moved (added : List A) (s : Queue A) (ret : List A) (q : Queue A) : Type ℓ where
    pub split : s.queue ++ added ≡ ret ++ q.queue
    pub pushes : q.push_count ≡ (s.push_count + length added) % word
    pub pops : q.pop_count ≡ (s.pop_count + length ret) % word
    pub flag : q.shutdown_flag ≡ s.shutdown_flag

  pub record Counts (s : Queue A) : Type 0 where
    pub push_fits : s.push_count < word
    pub pop_fits : s.pop_count < word

  collect-Moved :
      (count : ℕ) (xs : List A) (s : Queue A)
      → Counts s
      → let r = collect count xs s in Moved [] (record s { queue = xs }) r.0 r.1
  unfolding collect
  collect-Moved zero xs s w =
      let a = w.push_fits in
      let b = w.pop_fits in
      record { split = append-nil xs; pushes = omega arith; pops = omega arith; flag = refl }
  collect-Moved (suc count) [] s w =
      let a = w.push_fits in
      let b = w.pop_fits in
      record { split = refl; pushes = omega arith; pops = omega arith; flag = refl }
  collect-Moved (suc count) (x ∷ xs) s w =
      let a = w.push_fits in
      let b = w.pop_fits in
      let ih =
        collect-Moved count xs (record s { pop_count = increment s.pop_count })
          (record { push_fits = w.push_fits; pop_fits = omega arith }) in
      let pops = ih.pops in
      record {
        split = ap (λ l. x ∷ l) ih.split;
        pushes = ih.pushes;
        pops = omega arith;
        flag = ih.flag;
      }

  nothing-Moved : (s : Queue A) → Counts s → Moved [] s [] s
  nothing-Moved s w =
      let a = w.push_fits in
      let b = w.pop_fits in
      record { split = append-nil s.queue; pushes = omega arith; pops = omega arith; flag = refl }

  take_front-Moved :
      (xs : List A) (s : Queue A)
      → Counts s
      → let r = take_front xs s in Moved [] (record s { queue = xs }) r.0 r.1
  take_front-Moved [] s w =
      nothing-Moved (record s { queue = [] })
        (record { push_fits = w.push_fits; pop_fits = w.pop_fits })
  take_front-Moved (x ∷ xs) s w =
      let a = w.push_fits in
      record { split = ap (x ∷◌) (append-nil xs); pushes = omega arith; pops = refl; flag = refl }

  pub OnDone-if {κ} :
      (P : Next → List A → Queue A → Type κ) (b : Bool) (x y : Section A)
      → (b ≡ true → OnDone P x)
      → (b ≡ false → OnDone P y)
      → OnDone P (if b then x else y)
  OnDone-if P true x y f g = f refl
  OnDone-if P false x y f g = g refl

  enter-Moved :
      (c : Call A) (s : Queue A)
      → Counts s
      → OnDone (λ n ret q. Moved (items c) s ret q) (enter c s)
  unfolding enter
  enter-Moved (push x) s w =
      let a = w.push_fits in
      let b = w.pop_fits in record { split = refl; pushes = refl; pops = omega arith; flag = refl }
  enter-Moved (pop count timed) s w =
      OnDone-if _ (enough count s) _ _ (λ e. collect-Moved count s.queue s w) (λ e. tt)
  enter-Moved (pop_optional wait) s w =
      OnDone-if _ (is_empty s.queue) _ _
        (λ e. OnDone-if _ (wait && not s.shutdown_flag) _ _ (λ f. tt) (λ f. nothing-Moved s w))
        (λ e. take_front-Moved s.queue s w)
  enter-Moved wait_for_empty s w =
      OnDone-if _ (is_empty s.queue || s.shutdown_flag) _ _ (λ e. nothing-Moved s w) (λ e. tt)

  resume-Moved :
      (c : Call A) (timed_out : Bool) (s : Queue A)
      → Counts s
      → OnDone (λ n ret q. Moved (items c) s ret q) (resume c timed_out s)
  unfolding resume
  resume-Moved (push x) t s w = enter-Moved (push x) s w
  resume-Moved (pop count timed) t s w =
      OnDone-if _ (enough count s || t) _ _ (λ e. collect-Moved count s.queue s w) (λ e. tt)
  resume-Moved (pop_optional wait) t s w =
      OnDone-if _ (is_empty s.queue && not s.shutdown_flag) _ _ (λ e. tt)
        (λ e.
          OnDone-if _ s.shutdown_flag _ _ (λ f. nothing-Moved s w)
            (λ f. take_front-Moved s.queue s w))
  resume-Moved wait_for_empty t s w = enter-Moved wait_for_empty s w

  -- The invariant of the shared state.
  pub record IsFifo (s : Shared A) : Type ℓ where
    pub order : s.pushed ≡ s.popped ++ s.q.queue
    pub push_count : s.q.push_count ≡ length s.pushed % word
    pub pop_count : s.q.pop_count ≡ length s.popped % word

  IsFifo-Counts : {s : Shared A} → IsFifo s → Counts s.q
  IsFifo-Counts v =
      let a = v.push_count in
      let b = v.pop_count in record { push_fits = omega arith; pop_fits = omega arith }

  section_done-IsFifo :
      (c : Call A) {ret : List A} {q : Queue A} {s : Shared A}
      → IsFifo s
      → Moved (items c) s.q ret q
      → IsFifo (section_done c ret q s)
  section_done-IsFifo c {ret} {q} {s} v m =
      let order = v.order in
      let split = m.split in
      let a = v.push_count in
      let b = v.pop_count in
      let pushes = m.pushes in
      let pops = m.pops in
      record {
        order = simp (order, split, append_assoc);
        push_count = omega (arith, length-append s.pushed (items c));
        pop_count = omega (arith, length-append s.popped ret);
      }

  Move-IsFifo :
      {Allowed : Call A → Type 0} {s t : Shared A} {free : ℕ} {p p' : Place A}
      → Move Allowed s free p t p'
      → IsFifo s
      → IsFifo t
  Move-IsFifo (enters {c = c} _ e) v =
      section_done-IsFifo c v (rw e at (enter-Moved c _ (IsFifo-Counts v)))
  Move-IsFifo (resumes {c = c} {timed_out = t} _ e) v =
      section_done-IsFifo c v (rw e at (resume-Moved c t _ (IsFifo-Counts v)))
  Move-IsFifo closes v = record {
    order = v.order;
    push_count = v.push_count;
    pop_count = v.pop_count;
  }
  Move-IsFifo (passes_gate c l a f) v = v
  Move-IsFifo calls_wait_for_empty v = v
  Move-IsFifo (enters_waits f e) v = v
  Move-IsFifo (resumes_waits f e) v = v
  Move-IsFifo (blocks c) v = v
  Move-IsFifo (wakes c) v = v
  Move-IsFifo (times_out n) v = v
  Move-IsFifo done_returns v = v

  Step-IsFifo :
      {Allowed : Call A → Type 0} {g h : System A}
      → Step Allowed g h
      → IsFifo g.shared
      → IsFifo h.shared
  Step-IsFifo (moves before after m) v = Move-IsFifo m v
  Step-IsFifo (notifies_one before after w) v = v
  Step-IsFifo (notifies_nobody before after e) v = v
  Step-IsFifo (notifies_empty before after) v = v
  Step-IsFifo (shutdown_notifies_empty before after) v = v
  Step-IsFifo (shutdown_notifies_not_empty before after) v = v
  Step-IsFifo (drains before after e) v = v

  -- Whatever the threads do, and for as long as they do it: each item pushed is either still in the
  -- queue or was returned by exactly one call, the items come out in the order in which they went in,
  -- and the two counters are the numbers of items pushed and returned, modulo 2 ^ 64.
  pub Reach-IsFifo :
      {Allowed : Call A → Type 0} (n : ℕ) {g : System A}
      → Reach Allowed (start n) g
      → IsFifo g.shared
  Reach-IsFifo n stay = record { order = refl; push_count = refl; pop_count = refl }
  Reach-IsFifo n (onward r s) = Step-IsFifo s (Reach-IsFifo n r)
