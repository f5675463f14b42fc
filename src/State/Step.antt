-- ===== src/State/Step.antt =====
-- src/dmn-state.cpp: what one call of `runNext` does.
use dmn.Prelude.{
  ℕ, ◌<◌, ◌≡◌, ◌≢◌, refl, ap, ◌∙◌, ◌⊎◌, inl, inr, Bool, true, false, Option, none, some, arith,
  length, get_elem?, Bool-cases, lt→ltb, le→leb, Option-cases, not, if◌then◌else◌,
}
use dmn.Effect.{Error, Outcome, returned, thrown, aborted, resume, pure}
use dmn.State.{
  Machine, Hooks, Script, reset_flag, init, finalize, exec, call_selected, finish, run_callback,
  select, start, run_next, entered, at_end,
}
use dmn.State.Kept.{exec-Kept}
use dmn.State.Valid.{Slots-get, IsValid, Slots-length, exec-IsValid}

module _ {D E : Type 0} (hooks : Hooks D E) where
  derived-IsValid : (s : Machine D) (d : D) → IsValid s → IsValid (record s { derived = d })
  derived-IsValid s d v = record { slots = v.slots; next_le = v.next_le; started = v.started }

  -- A result of `runNext` with the state that it leaves.
  record Ran (r : Machine D × Outcome Bool) : Type 0 where
    valid : IsValid r.0
    idle : r.1 ≢ aborted → r.0.running_state_callback ≡ false
    more :
        r.1 ≡ returned true
        → (r.0.finalized ≡ false) × (0 < r.0.next) × (r.0.next < length r.0.states)
    done : r.1 ≡ returned false → r.0.finalized ≡ true

  finish-Ran :
      (s : Machine D)
      → IsValid s
      → s.running_state_callback ≡ false
      → s.finalized ≡ false
      → s.initialized ≡ true
      → 1 < length s.states
      → Ran (finish hooks s)
  unfolding finish
  finish-Ran s v run fin ini len = ground arith

  reset-IsValid :
      (s : Machine D) → IsValid s → IsValid (record s { running_state_callback = false })
  reset-IsValid s v = record { slots = v.slots; next_le = v.next_le; started = v.started }

  settle-Ran :
      (r : Machine D × Outcome (Unit {0}))
      → IsValid r.0
      → r.0.finalized ≡ false
      → r.0.initialized ≡ true
      → 1 < length r.0.states
      → Ran (resume (reset_flag r) (λ _. finish hooks))
  settle-Ran (s, returned u) v fin ini len = finish-Ran _ (reset-IsValid s v) refl fin ini len
  settle-Ran (s, thrown e) v fin ini len = record {
    valid = reset-IsValid s v;
    idle = λ _. refl;
    more = λ h. cc;
    done = λ h. cc;
  }
  settle-Ran (s, aborted) v fin ini len = record {
    valid = v;
    idle = λ h. absurd (h refl);
    more = λ h. cc;
    done = λ h. cc;
  }

  module _ (body : ℕ → Script D E) where
    invoke-Ran :
        (s : Machine D) (f : ℕ)
        → IsValid s
        → s.finalized ≡ false
        → s.initialized ≡ true
        → 1 < length s.states
        → Ran (
            resume
              (reset_flag (exec hooks (body f) (record s { running_state_callback = true })))
              (λ _. finish hooks))
    invoke-Ran s f v fin ini len =
        let k = exec-Kept hooks (body f) (record s { running_state_callback = true }) refl in
        settle-Ran _
          (exec-IsValid hooks (body f) _
            (record { slots = v.slots; next_le = v.next_le; started = v.started }))
          (k.finalized_eq ∙ fin) (k.initialized_eq ∙ ini) (omega (arith, ap length k.states_eq))

    selected-Ran :
        (s : Machine D) (x : Option (Option ℕ))
        → (f : ℕ) × (x ≡ some (some f))
        → IsValid s
        → s.finalized ≡ false
        → s.initialized ≡ true
        → 1 < length s.states
        → Ran (resume (call_selected hooks body x s) (λ _. finish hooks))
    unfolding call_selected
    selected-Ran s x (f, e) v fin ini len = rw e (invoke-Ran s f v fin ini len)

    run_callback-Ran :
        (s : Machine D)
        → IsValid s
        → s.finalized ≡ false
        → s.initialized ≡ true
        → s.next < length s.states
        → Ran (run_callback hooks body s)
    unfolding run_callback
    run_callback-Ran s v fin ini lt = rw (lt→ltb 0 s.next (v.started ini)) (
        selected-Ran s (get_elem? s.states s.next)
          (Slots-get s.states s.next v.slots (v.started ini) lt) v fin ini
          (omega (arith, v.started ini)))

    select-Ran :
        (s : Machine D)
        → IsValid s
        → s.running_state_callback ≡ false
        → s.finalized ≡ false
        → s.initialized ≡ true
        → Ran (select hooks body s)
    unfolding select finalize
    select-Ran s v run fin ini = elim (Bool-cases (at_end s)) [
      | inl e ↦ rw e (record {
        valid = record { slots = v.slots; next_le = v.next_le; started = v.started };
        idle = λ _. run;
        more = λ h. cc;
        done = λ _. refl;
      })
      | inr e ↦ rw e (run_callback-Ran s v fin ini (ground arith))
    ]

    initialized-IsValid :
        (s : Machine D)
        → IsValid s
        → IsValid (record s { next = 1; initialized = true; finalized = false })
    initialized-IsValid s v = record {
      slots = v.slots;
      next_le = Slots-length s.states v.slots;
      started = λ _. omega arith;
    }

    init_lem :
        (s : Machine D)
        → hooks.before_set_next s.derived ≡ none
        → 0 < length s.states
        → init hooks s ≡ (record s { next = 1; initialized = true }, returned tt)
    unfolding init
    init_lem s ok len = ground arith

    init_refused :
        (s : Machine D) {e : Error}
        → hooks.before_set_next s.derived ≡ some e
        → init hooks s ≡ (s, thrown e)
    unfolding init
    init_refused s bad = ground arith

    start-Ran :
        (s : Machine D)
        → IsValid s
        → s.running_state_callback ≡ false
        → s.finalized ≡ false
        → Ran (start hooks body s)
    unfolding start
    start-Ran s v run fin = elim (Bool-cases (at_end s)) [
      | inl e ↦ ground arith
      | inr e ↦ elim (Bool-cases s.initialized) [
        | inl ini ↦ simp (le→leb _ _ v.next_le, e, ini, fin) (select-Ran s v run fin ini)
        | inr ini ↦ elim (Option-cases (hooks.before_set_next s.derived)) [
          | inl ok ↦
              simp (le→leb _ _ v.next_le, e, ini, init_lem s ok (Slots-length _ v.slots), fin)
                (select-Ran _ (initialized-IsValid s v) run refl refl)
          | inr (x, bad) ↦
              simp (le→leb _ _ v.next_le, e, ini, init_refused s bad)
                (record { valid = v; idle = λ _. run; more = λ h. cc; done = λ h. cc })
        ]
      ]
    ]

    entered-Ran :
        (s : Machine D)
        → IsValid s
        → s.running_state_callback ≡ false
        → Ran ((if s.finalized then pure false else start hooks body) s)
    entered-Ran s v run = elim (Bool-cases s.finalized) [
      | inl fin ↦ simp fin (record { valid = v; idle = λ _. run; more = λ h. cc; done = λ _. fin })
      | inr fin ↦ simp fin (start-Ran s v run fin)
    ]

    enter-Ran :
        (s : Machine D) (p : D × Option Error)
        → IsValid s
        → s.running_state_callback ≡ false
        → Ran
            (resume (entered s p) (λ _ t. (if t.finalized then pure false else start hooks body) t))
    enter-Ran s (d, none) v run = entered-Ran _ (derived-IsValid s d v) run
    enter-Ran s (d, some e) v run = record {
      valid = derived-IsValid s d v;
      idle = λ _. run;
      more = λ h. cc;
      done = λ h. cc;
    }

    run_next-Ran :
        (s : Machine D) → IsValid s → s.running_state_callback ≡ false → Ran (run_next hooks body s)
    unfolding run_next
    run_next-Ran s v run = simp run (enter-Ran s (hooks.before_run_next s.derived) v run)

    -- A call of `runNext` on an idle valid machine that returns leaves a valid, idle machine; its result is true
    -- exactly when the machine is not finalized, and then a callback is selected for the next call.
    pub run_next_result :
        (s t : Machine D) (b : Bool)
        → IsValid s
        → s.running_state_callback ≡ false
        → run_next hooks body s ≡ (t, returned b)
        → IsValid t
          × (t.running_state_callback ≡ false)
          × (t.finalized ≡ not b)
          × ((b ≡ false) ⊎ ((f : ℕ) × (get_elem? t.states t.next ≡ some (some f))))
    run_next_result s t true v run e =
        let q : Ran (t, returned true) = rw e at (run_next-Ran s v run) in
        let (fin, pos, lt) = q.more refl in
        (q.valid, q.idle (λ h. cc), fin, inr (Slots-get t.states t.next q.valid.slots pos lt))
    run_next_result s t false v run e =
        let q : Ran (t, returned false) = rw e at (run_next-Ran s v run) in
        (q.valid, q.idle (λ h. cc), q.done refl, inl refl)

    -- On an idle valid machine, an exception that `runNext` passes on leaves the machine valid and idle, so that the next
    -- `runNext` is no recursive call.
    pub run_next_thrown :
        (s t : Machine D) (x : Error)
        → IsValid s
        → s.running_state_callback ≡ false
        → run_next hooks body s ≡ (t, thrown x)
        → IsValid t × (t.running_state_callback ≡ false)
    run_next_thrown s t x v run e =
        let q : Ran (t, thrown x) = rw e at (run_next-Ran s v run) in (q.valid, q.idle (λ h. cc))
