-- ===== src/BlockingQueue/Lost.antt =====
-- include/dmn-blockingqueue-mt.hpp: two runs in which a thread stays blocked though the class means it
-- to go on.
use dmn.Prelude.{refl, Bool, true, false, [], ◌∷◌}
use dmn.BlockingQueue.{Call, push, pop, pop_optional, enter, resume}
use dmn.BlockingQueue.Threads.{
  idle, held, asleep, draining, Shared, System, passes_gate, enters, enters_waits, resumes_waits,
  blocks, closes, pop_wakes, moves, notifies_one, shutdown_notifies_empty,
  shutdown_notifies_not_empty, Step, Reach, stay, onward, start,
}

-- Clients that make any call.
abbrev pub Any {ℓ} : {A : Type ℓ} → Call A → Type 0
Any c = Unit

module _ {ℓ} {A : Type ℓ} where
  infixl 20 ◌▸◌
  abbrev pub ◌▸◌ : {f g h : System A} → Reach Any f g → Step Any g h → Reach Any f h
  r ▸ s = onward r s

  -- One item pushed, none returned.
  abbrev pub one_item : A → Bool → Shared A
  one_item x shut = record {
    q = record { queue = x ∷ []; push_count = 1; pop_count = 0; shutdown_flag = shut };
    pushed = x ∷ [];
    popped = [];
  }

  -- A call of `pop(2)` and one of `pop()` wait; one item is pushed. The notification may wake the call
  -- that wants two, which goes back to sleep: the other stays asleep beside the item, and no
  -- notification is under way.
  pub lost_wakeup :
      (x : A)
      → Reach Any (start 3) (record {
        shared = one_item x false;
        threads = asleep (pop 2 false) ∷ asleep (pop_optional true) ∷ idle ∷ [];
      })
  unfolding enter resume
  lost_wakeup x =
      stay
      ▸ moves [] (idle ∷ idle ∷ []) (passes_gate (pop 2 false) tt refl refl)
      ▸ moves [] (idle ∷ idle ∷ []) (enters_waits refl refl)
      ▸ moves [] (idle ∷ idle ∷ []) (blocks (pop 2 false))
      ▸ moves (asleep (pop 2 false) ∷ []) (idle ∷ []) (passes_gate (pop_optional true) tt refl refl)
      ▸ moves (asleep (pop 2 false) ∷ []) (idle ∷ []) (enters_waits refl refl)
      ▸ moves (asleep (pop 2 false) ∷ []) (idle ∷ []) (blocks (pop_optional true))
      ▸ moves (asleep (pop 2 false) ∷ asleep (pop_optional true) ∷ []) []
          (passes_gate (push x) tt refl refl)
      ▸ moves (asleep (pop 2 false) ∷ asleep (pop_optional true) ∷ []) []
          (enters {c = push x} refl refl)
      ▸ notifies_one (asleep (pop 2 false) ∷ asleep (pop_optional true) ∷ []) []
          (pop_wakes 2 false (asleep (pop_optional true) ∷ idle ∷ []))
      ▸ moves [] (asleep (pop_optional true) ∷ idle ∷ [])
          (resumes_waits {c = pop 2 false} {timed_out = false} refl refl)
      ▸ moves [] (asleep (pop_optional true) ∷ idle ∷ []) (blocks (pop 2 false))

-- `shutdown` sets the flag and notifies without the mutex: between the predicate that a waiting call
-- found false and its falling asleep. The call stays asleep with the queue shut down, and `shutdown`
-- waits for it to leave.
pub lost_shutdown {ℓ} :
    (A : Type ℓ)
    → Reach Any (start {A = A} 2) (record {
      shared = record {
        q = record { queue = []; push_count = 0; pop_count = 0; shutdown_flag = true };
        pushed = [];
        popped = [];
      };
      threads = asleep (pop_optional true) ∷ draining ∷ [];
    })
unfolding enter
lost_shutdown A =
    stay
    ▸ moves [] (idle ∷ []) (passes_gate (pop_optional true) tt refl refl)
    ▸ moves [] (idle ∷ []) (enters_waits refl refl)
    ▸ moves (held (pop_optional true) ∷ []) [] closes
    ▸ shutdown_notifies_empty (held (pop_optional true) ∷ []) []
    ▸ shutdown_notifies_not_empty (held (pop_optional true) ∷ []) []
    ▸ moves [] (draining ∷ []) (blocks (pop_optional true))
