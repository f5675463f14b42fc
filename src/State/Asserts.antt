-- ===== src/State/Asserts.antt =====
-- src/dmn-state.cpp: the assertions of `runNext`.
use dmn.Prelude.{
  ℕ, ◌<◌, ◌≡◌, ◌≢◌, refl, true, false, Option, none, some, arith, length, get_elem?, Bool-cases,
  lt→ltb, le→leb, Option-cases, inl, inr, if◌then◌else◌,
}
use dmn.Effect.{Error, Outcome, returned, thrown, aborted, resume, pure}
use dmn.State.{
  Machine, Hooks, Script, reset_flag, init, finalize, exec, call_selected, invoke, finish,
  run_callback, select, set_next_at, start, run_next, entered, at_end,
}
use dmn.State.Valid.{Slots-get, IsValid, Slots-length}

-- A run that no failed assertion ended.
abbrev pub Survives : {S A : Type 0} → S × Outcome A → Type 0
Survives r = r.1 ≢ aborted

module _ {D E : Type 0} (hooks : Hooks D E) (body : ℕ → Script D E) where
  -- The callbacks themselves fail no assertion, where `runNext` calls one: on a valid machine that has
  -- started, whose next state is one of the user's, with the mark of a running callback.
  abbrev pub SafeCallbacks : Type 0
  SafeCallbacks =
      (f : ℕ) (s : Machine D)
      → IsValid s
      → s.initialized ≡ true
      → s.running_state_callback ≡ true
      → s.next < length s.states
      → Survives (exec hooks (body f) s)

  finish-Survives : (s : Machine D) → Survives (finish hooks s)
  unfolding finish finalize
  finish-Survives s = elim (Bool-cases (at_end s)) [
    | inl e ↦ rw e (λ h. cc)
    | inr e ↦ rw e (λ h. cc)
  ]

  settled-Survives :
      (r : Machine D × Outcome (Unit {0}))
      → Survives r
      → Survives (resume (reset_flag r) (λ _. finish hooks))
  settled-Survives (s, returned u) v = finish-Survives _
  settled-Survives (s, thrown e) v = λ h. cc
  settled-Survives (s, aborted) v = absurd (v refl)

  selected-Survives :
      SafeCallbacks
      → (s : Machine D) (x : Option (Option ℕ)) (f : ℕ) → x ≡ some (some f)
      → IsValid s
      → s.initialized ≡ true
      → s.next < length s.states
      → Survives (resume (call_selected hooks body x s) (λ _. finish hooks))
  unfolding call_selected invoke
  selected-Survives safe s x f e v ini lt =
      let called =
        safe f (record s { running_state_callback = true })
          (record { slots = v.slots; next_le = v.next_le; started = v.started }) ini refl lt in
      rw e (settled-Survives _ called)

  run_callback-Survives :
      SafeCallbacks
      → (s : Machine D) → IsValid s
      → s.initialized ≡ true
      → s.next < length s.states
      → Survives (run_callback hooks body s)
  unfolding run_callback
  run_callback-Survives safe s v ini lt =
      let (f, e) = Slots-get s.states s.next v.slots (v.started ini) lt in
      rw (lt→ltb 0 s.next (v.started ini))
        (selected-Survives safe s (get_elem? s.states s.next) f e v ini lt)

  select-Survives :
      SafeCallbacks
      → (s : Machine D) → IsValid s
      → s.initialized ≡ true
      → Survives (select hooks body s)
  unfolding select finalize
  select-Survives safe s v ini = elim (Bool-cases (at_end s)) [
    | inl e ↦ rw e (λ h. cc)
    | inr e ↦ rw e (run_callback-Survives safe s v ini (ground arith))
  ]

  initialized_next :
      (s : Machine D)
      → IsValid s
      → IsValid (record s { next = 1; initialized = true; finalized = false })
  initialized_next s v = record {
    slots = v.slots;
    next_le = Slots-length s.states v.slots;
    started = λ _. omega arith;
  }

  init_ok :
      (s : Machine D)
      → hooks.before_set_next s.derived ≡ none
      → 0 < length s.states
      → init hooks s ≡ (record s { next = 1; initialized = true }, returned tt)
  unfolding init set_next_at
  init_ok s ok len = ground arith

  init_bad :
      (s : Machine D) {e : Error}
      → hooks.before_set_next s.derived ≡ some e
      → init hooks s ≡ (s, thrown e)
  unfolding init set_next_at
  init_bad s bad = ground arith

  start-Survives :
      SafeCallbacks
      → (s : Machine D) → IsValid s
      → s.finalized ≡ false
      → Survives (start hooks body s)
  unfolding start finalize
  start-Survives safe s v fin = elim (Bool-cases (at_end s)) [
    | inl e ↦ simp (le→leb _ _ v.next_le, e) (λ h. cc)
    | inr e ↦ elim (Bool-cases s.initialized) [
      | inl ini ↦ simp (le→leb _ _ v.next_le, e, ini, fin) (select-Survives safe s v ini)
      | inr ini ↦ elim (Option-cases (hooks.before_set_next s.derived)) [
        | inl ok ↦
            simp (le→leb _ _ v.next_le, e, ini, init_ok s ok (Slots-length _ v.slots), fin)
              (select-Survives safe _ (initialized_next s v) refl)
        | inr (x, bad) ↦ simp (le→leb _ _ v.next_le, e, ini, init_bad s bad) (λ h. cc)
      ]
    ]
  ]

  gate-Survives :
      SafeCallbacks
      → (s : Machine D) → IsValid s
      → Survives ((if s.finalized then pure false else start hooks body) s)
  gate-Survives safe s v = elim (Bool-cases s.finalized) [
    | inl fin ↦ simp fin (λ h. cc)
    | inr fin ↦ simp fin (start-Survives safe s v fin)
  ]

  enter-Survives :
      SafeCallbacks
      → (s : Machine D) (p : D × Option Error) → IsValid s
      → Survives
          (resume (entered s p) (λ _ t. (if t.finalized then pure false else start hooks body) t))
  enter-Survives safe s (d, none) v =
      gate-Survives safe (record s { derived = d })
        (record { slots = v.slots; next_le = v.next_le; started = v.started })
  enter-Survives safe s (d, some e) v = λ h. cc

  -- No assertion of `runNext` fails on a valid machine, started or not, in whatever state: a call ends
  -- with a result or an exception, where the callbacks fail no assertion of their own when they are
  -- called on a valid, started machine whose next state is a user's.
  pub run_next-Survives :
      SafeCallbacks → (s : Machine D) → IsValid s → Survives (run_next hooks body s)
  unfolding run_next
  run_next-Survives safe s v = elim (Bool-cases s.running_state_callback) [
    | inl on ↦ simp on (λ h. cc)
    | inr off ↦ simp off (enter-Survives safe s (hooks.before_run_next s.derived) v)
  ]
