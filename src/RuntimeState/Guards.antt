-- ===== src/RuntimeState/Guards.antt =====
-- src/dmn-runtime-state.cpp: what the overridden hooks refuse.
use dmn.Prelude.{ℕ, ◌≡◌, true, false, Option, inl, inr, Bool-cases, arith}
use dmn.Effect.{logic_error, thrown}
use dmn.State.{Index, Script, set_end, set_next, set_next_at, set_state_fnc, run_next}
use dmn.RuntimeState.{Lifecycle, Extra, Object, submitted, internal_caller, runtime_hooks}

module _ (me : ℕ) (s : Object) where
  -- Once a state is queued, running or terminal, a call from outside the manager's own dispatch is
  -- refused: each of `setEnd`, `setNext` (both), `setStateFnc` and `runNext` throws a `logic_error`
  -- and leaves the object as it was.
  pub outsider_refused :
      (fnc : Option ℕ) (i : Index) (body : ℕ → Script Lifecycle Extra)
      → submitted s.derived ≡ true
      → internal_caller me s.derived ≡ false
      → (set_end (runtime_hooks me) s ≡ (s, thrown logic_error))
        × (set_next (runtime_hooks me) s ≡ (s, thrown logic_error))
        × (set_next_at (runtime_hooks me) i s ≡ (s, thrown logic_error))
        × (set_state_fnc (runtime_hooks me) fnc i s ≡ (s, thrown logic_error))
        × (run_next (runtime_hooks me) body s ≡ (s, thrown logic_error))
  unfolding set_end set_next set_next_at set_state_fnc run_next
  outsider_refused fnc i body sub out = (
    simp (sub, out),
    simp (sub, out),
    simp (sub, out),
    simp sub,
    elim (Bool-cases s.running_state_callback) [ inl on ↦ simp on | inr off ↦ ground arith ],
  )

  -- Once a state is queued, running or terminal, nobody changes its configuration, not even a callback
  -- that the manager is running: `setStateFnc` throws a `logic_error` and changes nothing.
  pub insider_cannot_configure :
      (fnc : Option ℕ) (i : Index)
      → submitted s.derived ≡ true
      → set_state_fnc (runtime_hooks me) fnc i s ≡ (s, thrown logic_error)
  unfolding set_state_fnc
  insider_cannot_configure fnc i sub = simp sub
