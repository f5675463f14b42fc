-- ===== src/State/Kept.antt =====
-- src/dmn-state.cpp: what a running callback can change.
use dmn.Prelude.{◌≡◌, refl, ◌∙◌, true, Option, none, some, arith}
use dmn.Effect.{Error, Outcome, returned, thrown, aborted}
use dmn.State.{
  Machine, Hooks, Action, Script, leave, throw, observe, call, react, set_end_call, set_next_call,
  set_next_at_call, set_state_fnc_call, run_next_call, extra_call, perform, exec,
}

-- What a running callback cannot change.
pub record Kept {D : Type 0} (s t : Machine D) : Type 0 where
  pub states_eq : t.states ≡ s.states
  pub initialized_eq : t.initialized ≡ s.initialized
  pub finalized_eq : t.finalized ≡ s.finalized
  pub running_eq : t.running_state_callback ≡ s.running_state_callback

Kept-refl : {D : Type 0} (s : Machine D) → Kept s s
Kept-refl s = record {
  states_eq = refl;
  initialized_eq = refl;
  finalized_eq = refl;
  running_eq = refl;
}

Kept-trans : {D : Type 0} (s t u : Machine D) → Kept s t → Kept t u → Kept s u
Kept-trans s t u h k = record {
  states_eq = k.states_eq ∙ h.states_eq;
  initialized_eq = k.initialized_eq ∙ h.initialized_eq;
  finalized_eq = k.finalized_eq ∙ h.finalized_eq;
  running_eq = k.running_eq ∙ h.running_eq;
}

module _ {D E : Type 0} (hooks : Hooks D E) where
  perform-Kept :
      (a : Action E) (s : Machine D)
      → s.running_state_callback ≡ true
      → Kept s (perform hooks a s).0
  unfolding perform
  perform-Kept set_end_call s run = ground arith
  perform-Kept set_next_call s run = ground arith
  perform-Kept (set_next_at_call i) s run = ground arith
  perform-Kept (set_state_fnc_call f i) s run = ground arith
  perform-Kept run_next_call s run = ground arith
  perform-Kept (extra_call e) s run = ground arith

  react-Kept :
      (s : Machine D) (r : Machine D × Outcome (Unit {0}))
      (f : Option Error → Machine D → Machine D × Outcome (Unit {0}))
      → Kept s r.0
      → ((o : Option Error) (t : Machine D) → Kept s t → Kept s (f o t).0)
      → Kept s (react r f).0
  react-Kept s (t, returned u) f v k = k none t v
  react-Kept s (t, thrown e) f v k = k (some e) t v
  react-Kept s (t, aborted) f v k = v

  -- A running callback changes the selection and the derived members, and nothing else.
  pub exec-Kept :
      (k : Script D E) (s : Machine D) → s.running_state_callback ≡ true → Kept s (exec hooks k s).0
  unfolding exec
  exec-Kept leave s run = Kept-refl s
  exec-Kept (throw e) s run = Kept-refl s
  exec-Kept (observe k) s run = exec-Kept (k s) s run
  exec-Kept (call a k) s run =
      react-Kept s (perform hooks a s) (λ o t. exec hooks (k o) t) (perform-Kept a s run)
        (λ o t w. Kept-trans s t _ w (exec-Kept (k o) t (w.running_eq ∙ run)))
