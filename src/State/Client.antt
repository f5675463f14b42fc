-- ===== src/State/Client.antt =====
-- include/dmn-state.hpp: how a client drives the machine.
use dmn.Prelude.{ℕ, zero, suc, Bool, true, false, Option, none, some, List, [], ◌∷◌}
use dmn.Effect.{Outcome, returned, thrown, aborted, M, resume}
use dmn.State.{
  Index, index, Machine, Hooks, Script, set_end, set_next, set_next_at, set_state_fnc, run_next,
}

-- The condition of a `while` over `runNext`.
abbrev pub again :
    {D : Type 0} → Machine D × Outcome Bool → M (Machine D) Bool → Machine D × Outcome Bool
again (s, returned true) f = f s
again (s, returned false) f = (s, returned false)
again (s, thrown e) f = (s, thrown e)
again (s, aborted) f = (s, aborted)

module _ {D E : Type 0} (hooks : Hooks D E) where
  -- A client that appends its callbacks one after the other.
  unfoldable pub register : List ℕ → M (Machine D) (Unit {0})
  register [] s = (s, returned tt)
  register (f ∷ fs) s = resume (set_state_fnc hooks (some f) (index 0) s) (λ _. register fs)

  module _ (body : ℕ → Script D E) where
    -- `while (state.runNext()) ;` for at most `fuel` calls.
    unfoldable pub run_while : ℕ → M (Machine D) Bool
    run_while zero s = (s, returned true)
    run_while (suc fuel) s = again (run_next hooks body s) (λ t. run_while fuel t)

-- What a client does with the machine, one call after the other.
pub data Command (D E : Type 0) : Type 0 where
  ends : Command D E
  advances : Command D E
  selects : Index → Command D E
  configures : Option ℕ → Index → Command D E
  runs : (ℕ → Script D E) → Command D E

abbrev pub follow :
    {D : Type 0} → Option (Machine D) → (Machine D → Option (Machine D)) → Option (Machine D)
follow none f = none
follow (some s) f = f s

-- The machine after a call that did not abort the process.
abbrev pub survivor : {D A : Type 0} → Machine D × Outcome A → Option (Machine D)
survivor (s, returned a) = some s
survivor (s, thrown e) = some s
survivor (s, aborted) = none

module _ {D E : Type 0} (hooks : Hooks D E) where
  unfoldable pub apply : Command D E → Machine D → Option (Machine D)
  apply ends s = survivor (set_end hooks s)
  apply advances s = survivor (set_next hooks s)
  apply (selects i) s = survivor (set_next_at hooks i s)
  apply (configures f i) s = survivor (set_state_fnc hooks f i s)
  apply (runs body) s = survivor (run_next hooks body s)

  unfoldable pub history : List (Command D E) → Machine D → Option (Machine D)
  history [] s = some s
  history (c ∷ cs) s = follow (apply c s) (λ t. history cs t)
