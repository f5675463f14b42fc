-- ===== src/State/History.antt =====
-- src/dmn-state.cpp: every sequence of calls of the public methods.
use dmn.Prelude.{
  ℕ, inl, inr, ◌≡◌, ◌≢◌, refl, ◌∙◌, Bool, false, Option, none, some, List, [], ◌∷◌, arith,
  Option-cases,
}
use dmn.Effect.{Outcome, returned, thrown, aborted}
use dmn.State.{
  Index, Script, Machine, Hooks, new, set_end, set_next, set_next_at, set_state_fnc, place,
  run_next,
}
use dmn.State.Client.{Command, ends, advances, selects, configures, runs, survivor, apply, history}
use dmn.State.Valid.{
  IsValid, new-IsValid, set_end-IsValid, set_next-IsValid, set_next_at-IsValid,
  set_state_fnc-IsValid,
}
use dmn.State.Step.{run_next_result, run_next_thrown}

-- Between two calls of a client no callback is running.
abbrev pub Idle : {D : Type 0} → Machine D → Type 0
Idle s = IsValid s × (s.running_state_callback ≡ false)

survivor_eq :
    {D A : Type 0} (r : Machine D × Outcome A) (t : Machine D) → survivor r ≡ some t → r.0 ≡ t
survivor_eq (s, returned a) t e = cc
survivor_eq (s, thrown x) t e = cc
survivor_eq (s, aborted) t e = cc

none≢some : {A : Type 0} {a : A} → none ≢ some a
none≢some e = cc

module _ {D E : Type 0} (hooks : Hooks D E) where
  runs-Idle :
      (body : ℕ → Script D E) (s t : Machine D) (r : Machine D × Outcome Bool)
      → Idle s
      → run_next hooks body s ≡ r
      → survivor r ≡ some t
      → Idle t
  runs-Idle body s t (u, returned b) (v, run) e k =
      let q = run_next_result hooks body s u b v run e in
      rw (← survivor_eq (u, returned b) t k) (q.0, q.1)
  runs-Idle body s t (u, thrown x) (v, run) e k =
      rw (← survivor_eq {A = Bool} (u, thrown x) t k) (run_next_thrown hooks body s u x v run e)
  runs-Idle body s t (u, aborted) i e k = cc

  set_end-running :
      (s : Machine D) → (set_end hooks s).0.running_state_callback ≡ s.running_state_callback
  unfolding set_end
  set_end-running s = ground arith

  set_next-running :
      (s : Machine D) → (set_next hooks s).0.running_state_callback ≡ s.running_state_callback
  unfolding set_next
  set_next-running s = ground arith

  set_next_at-running :
      (s : Machine D) (i : Index)
      → (set_next_at hooks i s).0.running_state_callback ≡ s.running_state_callback
  unfolding set_next_at
  set_next_at-running s i = ground arith

  set_state_fnc-running :
      (s : Machine D) (f : Option ℕ) (i : Index)
      → (set_state_fnc hooks f i s).0.running_state_callback ≡ s.running_state_callback
  unfolding set_state_fnc place
  set_state_fnc-running s f i = ground arith

  moved-Idle :
      {A : Type 0} (s t : Machine D) (r : Machine D × Outcome A)
      → IsValid r.0
      → r.0.running_state_callback ≡ s.running_state_callback
      → s.running_state_callback ≡ false
      → survivor r ≡ some t
      → Idle t
  moved-Idle s t r v same idle e = rw (← survivor_eq r t e) (v, same ∙ idle)

  apply-Idle : (c : Command D E) (s t : Machine D) → Idle s → apply hooks c s ≡ some t → Idle t
  unfolding apply
  apply-Idle ends s t (v, run) e =
      moved-Idle s t _ (set_end-IsValid hooks s v) (set_end-running s) run e
  apply-Idle advances s t (v, run) e =
      moved-Idle s t _ (set_next-IsValid hooks s v) (set_next-running s) run e
  apply-Idle (selects i) s t (v, run) e =
      moved-Idle s t _ (set_next_at-IsValid hooks s i v) (set_next_at-running s i) run e
  apply-Idle (configures f i) s t (v, run) e =
      moved-Idle s t _ (set_state_fnc-IsValid hooks s f i v) (set_state_fnc-running s f i) run e
  apply-Idle (runs body) s t i e = runs-Idle body s t _ i refl e

  history_from :
      (cs : List (Command D E)) (s t : Machine D) → Idle s → history hooks cs s ≡ some t → Idle t
  unfolding history
  history_from [] s t i e = ground arith
  history_from (c ∷ cs) s t i e = elim (Option-cases (apply hooks c s)) [
    | inl stop ↦ absurd (none≢some (rw stop at e))
    | inr (u, go) ↦ history_from cs u t (apply-Idle c s u i go) (rw go at e)
  ]

  -- Whatever calls a client makes on a new machine, with whatever hooks and callbacks, one that has
  -- not aborted the process leaves the machine valid and with no callback running.
  pub history-Idle :
      (d : D) (cs : List (Command D E)) (t : Machine D) → history hooks cs (new d) ≡ some t → Idle t
  history-Idle d cs t e = history_from cs (new d) t (new-IsValid d, unfold new in refl) e
