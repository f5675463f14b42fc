-- ===== src/State/Derived.antt =====
-- src/dmn-state.cpp: what `runNext` does to the members of a derived class.
use dmn.Prelude.{
  ◌≡◌, ℕ, Bool, true, false, not, Option, none, some, arith, Bool-cases, inl, inr, if◌then◌else◌,
  get_elem?, ltb, leb, length,
}
use dmn.Effect.{Error, Outcome, returned, thrown, aborted, resume, pure, M, assert}
use dmn.State.{
  Machine, Hooks, Action, Script, leave, throw, observe, call, react, reset_flag, set_end_call,
  set_next_call, set_next_at_call, set_state_fnc_call, run_next_call, extra_call, perform, exec,
  init, finalize, finish, call_selected, invoke, run_callback, select, start, run_next, entered,
  at_end, set_next_at,
}

module _ {D E : Type 0} (hooks : Hooks D E) (P : D → Type 0)
    (extra_keeps : (e : E) (d : D) → P d → P (hooks.extra e d))
    (enter_keeps : (d : D) → P d → P (hooks.before_run_next d).0) where
  abbrev pub Holds : {A : Type 0} → Machine D × Outcome A → Type 0
  Holds r = P r.0.derived

  unchanged : (d e : D) → e ≡ d → P d → P e
  unchanged d e h p = rw h p

  perform-Holds : (a : Action E) (s : Machine D) → P s.derived → Holds (perform hooks a s)
  unfolding perform
  perform-Holds set_end_call s p = unchanged s.derived _ (ground arith) p
  perform-Holds set_next_call s p = unchanged s.derived _ (ground arith) p
  perform-Holds (set_next_at_call i) s p = unchanged s.derived _ (ground arith) p
  perform-Holds (set_state_fnc_call f i) s p = unchanged s.derived _ (ground arith) p
  perform-Holds run_next_call s p = unchanged s.derived _ (ground arith) p
  perform-Holds (extra_call e) s p = extra_keeps e s.derived p

  react-Holds :
      (r : Machine D × Outcome (Unit {0}))
      (f : Option Error → Machine D → Machine D × Outcome (Unit {0}))
      → Holds r
      → ((o : Option Error) (t : Machine D) → P t.derived → Holds (f o t))
      → Holds (react r f)
  react-Holds (s, returned u) f p k = k none s p
  react-Holds (s, thrown e) f p k = k (some e) s p
  react-Holds (s, aborted) f p k = p

  exec-Holds : (k : Script D E) (s : Machine D) → P s.derived → Holds (exec hooks k s)
  unfolding exec
  exec-Holds leave s p = p
  exec-Holds (throw e) s p = p
  exec-Holds (observe k) s p = exec-Holds (k s) s p
  exec-Holds (call a k) s p =
      react-Holds (perform hooks a s) (λ o t. exec hooks (k o) t) (perform-Holds a s p)
        (λ o t q. exec-Holds (k o) t q)

  resume-Holds :
      {A B : Type 0} (r : Machine D × Outcome A) (f : A → Machine D → Machine D × Outcome B)
      → Holds r
      → ((a : A) (t : Machine D) → P t.derived → Holds (f a t))
      → Holds (resume r f)
  resume-Holds (s, returned a) f p k = k a s p
  resume-Holds (s, thrown e) f p k = p
  resume-Holds (s, aborted) f p k = p

  finish-Holds : (s : Machine D) → P s.derived → Holds (finish hooks s)
  unfolding finish finalize
  finish-Holds s p = unchanged s.derived _ (ground arith) p

  reset-Holds : (r : Machine D × Outcome (Unit {0})) → Holds r → Holds (reset_flag r)
  reset-Holds (s, returned u) p = p
  reset-Holds (s, thrown e) p = p
  reset-Holds (s, aborted) p = p

  module _ (body : ℕ → Script D E) where
    selected-Holds :
        (x : Option (Option ℕ)) (s : Machine D) → P s.derived → Holds (call_selected hooks body x s)
    unfolding call_selected invoke
    selected-Holds none s p = p
    selected-Holds (some none) s p = p
    selected-Holds (some (some f)) s p =
        reset-Holds _ (exec-Holds (body f) (record s { running_state_callback = true }) p)

    checked-Holds :
        {A : Type 0} (test : Bool) (s : Machine D) (f : M (Machine D) A)
        → P s.derived
        → Holds (f s)
        → Holds (resume (assert test s) (λ _. f))
    checked-Holds true s f p q = q
    checked-Holds false s f p q = p

    run_callback-Holds : (s : Machine D) → P s.derived → Holds (run_callback hooks body s)
    unfolding run_callback
    run_callback-Holds s p =
        checked-Holds (ltb 0 s.next) s
          (λ t. resume (call_selected hooks body (get_elem? s.states s.next) t) (λ _. finish hooks))
          p
          (resume-Holds (call_selected hooks body (get_elem? s.states s.next) s) (λ _. finish hooks)
            (selected-Holds (get_elem? s.states s.next) s p) (λ a t q. finish-Holds t q))

    branch-Holds :
        {A : Type 0} (test : Bool) (f g : M (Machine D) A) (s : Machine D)
        → Holds (f s)
        → Holds (g s)
        → Holds ((if test then f else g) s)
    branch-Holds true f g s p q = p
    branch-Holds false f g s p q = q

    select-Holds : (s : Machine D) → P s.derived → Holds (select hooks body s)
    unfolding select finalize
    select-Holds s p = branch-Holds (at_end s) _ _ s p (run_callback-Holds s p)

    init-Holds : (s : Machine D) → P s.derived → Holds (init hooks s)
    unfolding init set_next_at
    init-Holds s p = unchanged s.derived _ (ground arith) p

    start-Holds : (s : Machine D) → P s.derived → Holds (start hooks body s)
    unfolding start finalize
    start-Holds s p = checked-Holds (leb s.next (length s.states)) s _ p (
        resume-Holds
          ((if at_end s then finalize hooks else if not s.initialized then init hooks else pure tt)
            s)
          (λ _ t. (if t.finalized then pure false else select hooks body) t)
          (branch-Holds (at_end s) (finalize hooks) _ s p
            (branch-Holds (not s.initialized) (init hooks) (pure tt) s (init-Holds s p) p))
          (λ a t q.
            branch-Holds t.finalized (pure false) (select hooks body) t q (select-Holds t q)))

    entered-Holds :
        (s : Machine D) (r : D × Option Error)
        → P r.0
        → Holds
            (resume (entered s r) (λ _ t. (if t.finalized then pure false else start hooks body) t))
    entered-Holds s (d, none) p =
        branch-Holds s.finalized (pure false) (start hooks body) (record s { derived = d }) p
          (start-Holds (record s { derived = d }) p)
    entered-Holds s (d, some e) p = p

    pub run_next-Holds : (s : Machine D) → P s.derived → Holds (run_next hooks body s)
    unfolding run_next
    run_next-Holds s p = elim (Bool-cases s.running_state_callback) [
      | inl on ↦ simp on p
      | inr off ↦
          simp off (entered-Holds s (hooks.before_run_next s.derived) (enter_keeps s.derived p))
    ]
