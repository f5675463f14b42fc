-- ===== src/State.antt =====
-- include/dmn-state.hpp and src/dmn-state.cpp: the caller-driven state machine `Dmn_State`.
--
-- A method takes the object and returns the object that it leaves behind with an outcome, since an
-- exception keeps what was written before it. A failed `assert` is the outcome `aborted`. The four
-- virtual hooks are the fields of `Hooks`, over the members `D` that a derived class adds; `Base` has
-- the hooks of `Dmn_State` itself. A callback is client code: a `Script`, the tree of the calls that
-- it makes on the machine, with a continuation for each result.

mod Client
mod Valid
mod Kept
mod Step
mod History
mod Asserts
pub mod Derived
mod Drive
pub mod End
mod Tests
use dmn.Effect.{
  Error, Outcome, returned, thrown, aborted, logic_error, out_of_range, invalid_argument,
  bad_function_call, M, resume, get, put, pure, raise, throw_if, assert, ◌>>=◌, ◌>>◌,
}
use dmn.Prelude.{
  ℕ, zero, suc, Bool, true, false, not, ◌&&◌, ◌||◌, Option, none, some, List, [], ◌∷◌, ◌++◌, ltb,
  leb, ◌==◌, if◌then◌else◌, length, get_elem?, set,
}

-- `int`: `negative n` is -(n + 1). Sizes stay far below 2 ^ 31, so `int` does not wrap.
pub data Index : Type 0 where
  index : ℕ → Index
  negative : ℕ → Index

-- A `std::function` is named by a number; `none` is the empty one.
pub record Machine (D : Type 0) : Type 0 where
  pub next : ℕ
  pub states : List (Option ℕ)
  pub initialized : Bool
  pub finalized : Bool
  pub running_state_callback : Bool
  pub derived : D

-- The virtual hooks, which throw or permit; `extra` is what a derived class lets a callback do.
pub record Hooks (D E : Type 0) : Type 0 where
  pub before_set_state_fnc : D → Option Error
  pub before_set_next : D → Option Error
  pub before_set_end : D → Option Error
  pub before_run_next : D → D × Option Error
  pub extra : E → D → D

-- The hooks of `Dmn_State` itself permit everything.
abbrev pub base_hooks : {D E : Type 0} → (E → D → D) → Hooks D E
base_hooks extra = record {
  before_set_state_fnc = λ _. none;
  before_set_next = λ _. none;
  before_set_end = λ _. none;
  before_run_next = λ d. (d, none);
  extra = extra;
}

pub data Action (E : Type 0) : Type 0 where
  set_end_call : Action E
  set_next_call : Action E
  set_next_at_call : Index → Action E
  set_state_fnc_call : Option ℕ → Index → Action E
  run_next_call : Action E
  extra_call : E → Action E

pub data Script (D E : Type 0) : Type 0 where
  leave : Script D E
  throw : Error → Script D E
  observe : (Machine D → Script D E) → Script D E
  call : Action E → (Option Error → Script D E) → Script D E

-- How a callback goes on after a call: it may catch an exception, and nothing follows an abort.
abbrev pub react :
    {D : Type 0}
    → Machine D × Outcome (Unit {0})
    → (Option Error → M (Machine D) (Unit {0}))
    → Machine D × Outcome (Unit {0})
react (s, returned u) f = f none s
react (s, thrown e) f = f (some e) s
react (s, aborted) f = (s, aborted)

-- A hook that looks at the derived members.
abbrev pub allowed : {D : Type 0} → Machine D → Option Error → Machine D × Outcome (Unit {0})
allowed s none = (s, returned tt)
allowed s (some e) = (s, thrown e)

abbrev pub permit : {D : Type 0} → (D → Option Error) → M (Machine D) (Unit {0})
permit h s = allowed s (h s.derived)

-- `beforeRunNext`, which may also change the derived members.
abbrev pub entered : {D : Type 0} → Machine D → D × Option Error → Machine D × Outcome (Unit {0})
entered s (d, none) = (record s { derived = d }, returned tt)
entered s (d, some e) = (record s { derived = d }, thrown e)

abbrev pub enter : {D : Type 0} → (D → D × Option Error) → M (Machine D) (Unit {0})
enter h s = entered s (h s.derived)

-- The `catch (...)` that resets the flag and throws again.
abbrev pub reset_flag :
    {D : Type 0} → Machine D × Outcome (Unit {0}) → Machine D × Outcome (Unit {0})
reset_flag (s, returned u) = (record s { running_state_callback = false }, returned u)
reset_flag (s, thrown e) = (record s { running_state_callback = false }, thrown e)
reset_flag (s, aborted) = (s, aborted)

abbrev pub at_end : {D : Type 0} → Machine D → Bool
at_end s = leb (length s.states) s.next

abbrev pub is_none : Option ℕ → Bool
is_none none = true
is_none (some f) = false

abbrev pub index_neg : Index → Bool
index_neg (index n) = false
index_neg (negative n) = true

abbrev pub index_nat : Index → ℕ
index_nat (index n) = n
index_nat (negative n) = 0

pub new : {D : Type 0} → D → Machine D
new d = record {
  next = 0;
  states = none ∷ [];
  initialized = false;
  finalized = false;
  running_state_callback = false;
  derived = d;
}

unfoldable pub has_state_fncs : {D : Type 0} → Machine D → Bool
has_state_fncs s = ltb 1 (length s.states)

unfoldable pub is_live : {D : Type 0} → Machine D → Bool
unfolding has_state_fncs
is_live s = has_state_fncs s && not s.finalized

module _ {D E : Type 0} (hooks : Hooks D E) where
  unfoldable pub set_end : M (Machine D) (Unit {0})
  set_end = do permit hooks.before_set_end; s ← get; put (record s { next = length s.states })

  unfoldable pub set_next_at : Index → M (Machine D) (Unit {0})
  set_next_at i = do
    permit hooks.before_set_next
    s ← get
    throw_if (index_nat i == 0 || ltb (length s.states) (index_nat i)) out_of_range
    put (record s { next = index_nat i })

  unfoldable pub set_next : M (Machine D) (Unit {0})
  set_next = do
    permit hooks.before_set_next
    s ← get
    assert (ltb s.next (length s.states))
    put (record s { next = suc s.next })

  -- The last lines of `setStateFnc`: `0` and `n` append, an index below `n` replaces.
  place : Option ℕ → ℕ → M (Machine D) (Unit {0})
  place fnc i s =
      if i == length s.states || i == 0
      then (record s { states = s.states ++ fnc ∷ [] }, returned tt)
      else if ltb i (length s.states)
      then (record s { states = set s.states i fnc }, returned tt)
      else (s, thrown out_of_range)

  unfoldable pub set_state_fnc : Option ℕ → Index → M (Machine D) (Unit {0})
  unfolding place
  set_state_fnc fnc i = do
    permit hooks.before_set_state_fnc
    s ← get
    throw_if s.running_state_callback logic_error
    throw_if (is_none fnc) invalid_argument
    throw_if (index_neg i) out_of_range
    place fnc (index_nat i)

  unfoldable pub init : M (Machine D) (Unit {0})
  unfolding set_next_at
  init = do set_next_at (index 1); s ← get; put (record s { initialized = true })

  unfoldable pub finalize : M (Machine D) (Unit {0})
  finalize = do s ← get; put (record s { finalized = true })

  -- A call that a callback makes. While a callback runs, `runNext` throws at its first test.
  unfoldable pub perform : Action E → M (Machine D) (Unit {0})
  unfolding set_end set_next set_next_at set_state_fnc
  perform set_end_call = set_end
  perform set_next_call = set_next
  perform (set_next_at_call i) = set_next_at i
  perform (set_state_fnc_call fnc i) = set_state_fnc fnc i
  perform run_next_call = do s ← get; throw_if s.running_state_callback logic_error; assert false
  perform (extra_call e) = do s ← get; put (record s { derived = hooks.extra e s.derived })

  -- The callback's own run, up to its return or its exception.
  unfoldable pub exec : Script D E → M (Machine D) (Unit {0})
  exec leave s = (s, returned tt)
  exec (throw e) s = (s, thrown e)
  exec (observe k) s = exec (k s) s
  exec (call a k) s = react (perform a s) (λ o t. exec (k o) t)

  unfoldable pub finish : M (Machine D) Bool
  unfolding finalize is_live
  finish = do s ← get; if at_end s then finalize else pure tt; t ← get; pure (is_live t)

  -- `runNext` in the order of the source. `body f` is what callback `f` does in this call.
  module _ (body : ℕ → Script D E) where
    unfoldable pub invoke : Option ℕ → M (Machine D) (Unit {0})
    invoke none s = (s, thrown bad_function_call)
    invoke (some f) s = exec (body f) s

    -- `m_states[m_next]`: an index out of range would be undefined behaviour.
    unfoldable pub call_selected : Option (Option ℕ) → M (Machine D) (Unit {0})
    unfolding invoke
    call_selected none s = (s, aborted)
    call_selected (some fnc) s =
        reset_flag (invoke fnc (record s { running_state_callback = true }))

    unfoldable pub run_callback : M (Machine D) Bool
    run_callback = do
      s ← get
      assert (ltb 0 s.next)
      call_selected (get_elem? s.states s.next)
      finish

    unfoldable pub select : M (Machine D) Bool
    select = do s ← get; if at_end s then (finalize >> pure false) else run_callback

    unfoldable pub start : M (Machine D) Bool
    unfolding finalize
    start = do
      s ← get
      assert (leb s.next (length s.states))
      if at_end s then finalize else if not s.initialized then init else pure tt
      t ← get
      if t.finalized then pure false else select

    unfoldable pub run_next : M (Machine D) Bool
    run_next = do
      s ← get
      throw_if s.running_state_callback logic_error
      enter hooks.before_run_next
      t ← get
      if t.finalized then pure false else start
