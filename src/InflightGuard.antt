-- ===== src/InflightGuard.antt =====
-- include/dmn-inflight-guard.hpp: `Dmn_Inflight_Guard`, which lets an object wait for the calls that are
-- under way before it is destroyed. Threads interleave at their atomic steps: `Move` is one step of a
-- thread in `Ticket`'s constructor or destructor, `Step` one of any thread, or of the shutdown that
-- closes the guard. `enterInflightGuardFnc` returns or throws. The interleavings are sequentially
-- consistent, which is more than the acquire and release orders of the source promise.
pub mod Counter
pub mod Quiet
mod Tests
use dmn.Prelude.{ℕ, zero, suc, ◌+◌, ◌-◌, ◌%◌, Bool, true, false, List, [], ◌∷◌, ◌++◌}

-- Where a thread is: `tested`, `counted` and `entering` in the constructor, behind its first test, its
-- `fetch_add` and its second test; `retreating` before the `fetch_sub` of a constructor that throws;
-- `inside` in the section that the ticket covers, `left` behind `leaveInflightGuardFnc`; and `notifying`
-- between `fetch_sub` and `notify_all`, which still touches the guard.
pub data Place : Type 0 where
  outside : Place
  tested : Place
  counted : Place
  entering : Place
  inside : Place
  left : Place
  retreating : Place
  notifying : Place

pub record Guard : Type 0 where
  pub closed : Bool
  pub inflight_count : ℕ
  pub places : List Place

abbrev pub word : ℕ
word = 18446744073709551616

-- `fetch_add(1)` and `fetch_sub(1)`.
abbrev pub fetch_add : ℕ → ℕ
fetch_add n = (n + 1) % word

abbrev pub fetch_sub : ℕ → ℕ
fetch_sub n = (n + word - 1) % word

-- `Move closed n p q m`: with the guard closed or not, a thread goes from `p` to `q`, and the counter
-- from `n` to `m`.
pub data Move : Bool → ℕ → Place → Place → ℕ → Type 0 where
  first_test : (n : ℕ) → Move false n outside tested n
  refused : (n : ℕ) → Move true n outside outside n
  counts : (closed : Bool) (n : ℕ) → Move closed n tested counted (fetch_add n)
  second_test : (n : ℕ) → Move false n counted entering n
  turned_away : (n : ℕ) → Move true n counted retreating n
  enters : (closed : Bool) (n : ℕ) → Move closed n entering inside n
  enter_throws : (closed : Bool) (n : ℕ) → Move closed n entering retreating n
  rolls_back : (closed : Bool) (n : ℕ) → Move closed n retreating notifying (fetch_sub n)
  leaves : (closed : Bool) (n : ℕ) → Move closed n inside left n
  releases : (closed : Bool) (n : ℕ) → Move closed n left notifying (fetch_sub n)
  notifies : (closed : Bool) (n : ℕ) → Move closed n notifying outside n

pub data Step : Guard → Guard → Type 0 where
  moves :
      (closed : Bool) (n m : ℕ) (before after : List Place) (p q : Place)
      → Move closed n p q m
      → Step
          (record { closed = closed; inflight_count = n; places = before ++ p ∷ after })
          (record { closed = closed; inflight_count = m; places = before ++ q ∷ after })
  closes :
      (closed : Bool) (n : ℕ) (places : List Place)
      → Step
          (record { closed = closed; inflight_count = n; places = places })
          (record { closed = true; inflight_count = n; places = places })

pub data Reach (f : Guard) : Guard → Type 0 where
  stay : Reach f f
  onward : {g h : Guard} → Reach f g → Step g h → Reach f h

abbrev pub all_outside : ℕ → List Place
all_outside zero = []
all_outside (suc n) = outside ∷ all_outside n

-- A new guard, which `n` threads are going to use.
abbrev pub new : ℕ → Guard
new n = record { closed = false; inflight_count = 0; places = all_outside n }
