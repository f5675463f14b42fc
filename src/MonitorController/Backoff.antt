-- ===== src/MonitorController/Backoff.antt =====
-- src/app/gui/core/dmn-device-monitor-controller.cpp: the delays after failed starts.
use dmn.Prelude.{
  ℕ, zero, suc, ◌+◌, ◌-◌, ◌*◌, ◌/◌, ◌^◌, ◌≤◌, ◌≡◌, refl, sym, ap, ◌∙◌, inl, inr, min, true, false,
  ◌||◌, List, [], ◌∷◌, ltb, arith, Bool-cases,
}
use dmn.Effect.{returned}
use dmn.Device.{DeviceIdentity, same_identity, same_identity_sound, same_identity_self}
use dmn.MonitorController.{
  RetryState, no_retries, reset_retries, retry_state_for, set_retry_state, backoff, jittered,
  next_attempts, record_start_failure,
}

-- A failed start: when, and with which jitter.
pub record Failure : Type 0 where
  pub at : ℕ
  pub jitter_percent : ℕ

abbrev pub Jittered : Failure → Type 0
Jittered f = (80 ≤ f.jitter_percent) × (f.jitter_percent ≤ 100)

abbrev pub AllJittered : List Failure → Type 0
AllJittered [] = Unit {0}
AllJittered (f ∷ fs) = Jittered f × AllJittered fs

pub record_failures : DeviceIdentity → List Failure → List RetryState → List RetryState
record_failures i [] rs = rs
record_failures i (f ∷ fs) rs =
    record_failures i fs (record_start_failure i f.at f.jitter_percent rs).0

abbrev pub count : List Failure → ℕ
count [] = 0
count (f ∷ fs) = suc (count fs)

retry-set :
    (i : DeviceIdentity) (r : RetryState) (rs : List RetryState)
    → r.identity ≡ i
    → retry_state_for i (set_retry_state i r rs) ≡ r
unfolding retry_state_for set_retry_state
retry-set i r [] e =
    let same : same_identity r.identity i ≡ true = rw e (same_identity_self i) in rw same refl
retry-set i r (x ∷ rs) e = elim (Bool-cases (same_identity x.identity i)) [
  | inl here ↦
      let same : same_identity r.identity i ≡ true = rw e (same_identity_self i) in
      rw here (rw same refl)
  | inr there ↦ simp there (retry-set i r rs e)
]

retry-identity : (i : DeviceIdentity) (rs : List RetryState) → (retry_state_for i rs).identity ≡ i
unfolding retry_state_for
retry-identity i [] = refl
retry-identity i (r ∷ rs) = elim (Bool-cases (same_identity r.identity i)) [
  | inl here ↦ simp here (same_identity_sound r.identity i here)
  | inr there ↦ simp there (retry-identity i rs)
]

retry-reset :
    (i : DeviceIdentity) (rs : List RetryState)
    → retry_state_for i (reset_retries i rs) ≡ no_retries i
unfolding retry_state_for reset_retries
retry-reset i [] = refl
retry-reset i (r ∷ rs) = elim (Bool-cases (same_identity r.identity i)) [
  | inl here ↦ simp here (retry-reset i rs)
  | inr there ↦ simp there (retry-reset i rs)
]

-- What an accepted failure records.
pub failure_lem :
    (i : DeviceIdentity) (now jitter : ℕ) (rs : List RetryState)
    → 80 ≤ jitter
    → jitter ≤ 100
    → let (after, r) = record_start_failure i now jitter rs in
      let attempts = next_attempts (retry_state_for i rs).attempts in
      (r ≡ returned (jittered attempts jitter))
      × ((retry_state_for i after).attempts ≡ attempts)
      × ((retry_state_for i after).next_attempt ≡ now + jittered attempts jitter * 1000000)
unfolding record_start_failure
failure_lem i now jitter rs lo hi =
    let fine : (ltb jitter 80 || ltb 100 jitter) ≡ false = ground arith in
    let old = retry_state_for i rs in
    let attempts = next_attempts old.attempts in
    let new = record old {
      attempts = attempts;
      next_attempt = now + jittered attempts jitter * 1000000;
    } in
    let found = retry-set i new rs (retry-identity i rs) in
    simp fine (refl, ap (λ x. x.attempts) found, ap (λ x. x.next_attempt) found)

counted :
    (i : DeviceIdentity) (fs : List Failure) (rs : List RetryState) (n : ℕ)
    → AllJittered fs
    → (retry_state_for i rs).attempts ≡ min n 5
    → (retry_state_for i (record_failures i fs rs)).attempts ≡ min (n + count fs) 5
unfolding record_failures
counted i [] rs n j e = omega arith
counted i (f ∷ fs) rs n j e =
    let one = failure_lem i f.at f.jitter_percent rs j.0.0 j.0.1 in
    let next : next_attempts (retry_state_for i rs).attempts ≡ min (suc n) 5 = ground arith in
    let rest =
      counted i fs (record_start_failure i f.at f.jitter_percent rs).0 (suc n) j.1 (one.1 ∙ next) in
    omega arith

power_pos : (n : ℕ) → 1 ≤ 2 ^ n
power_pos zero = omega arith
power_pos (suc n) = let p = power_pos n in omega arith

rounds : (n : ℕ) → min (suc (suc (suc (suc (suc n))))) 5 - 1 ≡ 4
rounds n = omega arith

capped : (n : ℕ) → min (5 * 2 ^ suc (suc (suc (suc n)))) 60 ≡ 60
capped n =
    let p = power_pos n in
    let e : 2 ^ suc (suc (suc (suc n))) ≡ 16 * 2 ^ n = omega arith in rw e (omega arith)

four_rounds : backoff 4 5 ≡ 60
unfolding backoff
four_rounds = refl

late_delay :
    (n : ℕ)
    → backoff (min (suc (suc (suc (suc (suc n))))) 5 - 1) 5
      ≡ min (5 * 2 ^ suc (suc (suc (suc n)))) 60
late_delay n = rw (rounds n) (four_rounds ∙ sym (capped n))

-- The delay of the attempt after `n` failures, without jitter: 5, 10, 20, 40, 60, 60, ... seconds.
delays : (n : ℕ) → backoff (min (suc n) 5 - 1) 5 ≡ min (5 * 2 ^ n) 60
unfolding backoff
delays zero = refl
delays (suc zero) = refl
delays (suc (suc zero)) = refl
delays (suc (suc (suc zero))) = refl
delays (suc (suc (suc (suc n)))) = late_delay n

-- After `n` failed starts of a device in a row, at whatever times and with whatever permitted jitters,
-- a further one with a jitter of `p` percent is delayed by `p` percent of 5 * 2 ^ n seconds, or of 60
-- seconds where that is less, and the device's next attempt is that delay after the failure.
pub failure_delay :
    (i : DeviceIdentity) (fs : List Failure) (f : Failure) (rs : List RetryState)
    → AllJittered fs
    → Jittered f
    → let delay = min (5 * 2 ^ count fs) 60 * 1000 * f.jitter_percent / 100 in
      let before = record_failures i fs (reset_retries i rs) in
      let (after, r) = record_start_failure i f.at f.jitter_percent before in
      (r ≡ returned delay) × ((retry_state_for i after).next_attempt ≡ f.at + delay * 1000000)
unfolding jittered
failure_delay i fs f rs j k =
    let start : (retry_state_for i (reset_retries i rs)).attempts ≡ min 0 5 =
      ap (λ x. x.attempts) (retry-reset i rs) in
    let before = record_failures i fs (reset_retries i rs) in
    let tries = counted i fs (reset_retries i rs) 0 j start in
    let one = failure_lem i f.at f.jitter_percent before k.0 k.1 in
    let next : next_attempts (retry_state_for i before).attempts ≡ min (suc (count fs)) 5 =
      ground arith in
    let delay : jittered (next_attempts (retry_state_for i before).attempts) f.jitter_percent
        ≡ min (5 * 2 ^ count fs) 60 * 1000 * f.jitter_percent / 100 =
      rw next (ap (λ d. d * 1000 * f.jitter_percent / 100) (delays (count fs))) in
    (one.0 ∙ ap returned delay, one.2 ∙ ap (λ d. f.at + d * 1000000) delay)

pub other-set :
    (i j : DeviceIdentity) (r : RetryState) (rs : List RetryState)
    → r.identity ≡ i
    → same_identity i j ≡ false
    → retry_state_for j (set_retry_state i r rs) ≡ retry_state_for j rs
unfolding retry_state_for set_retry_state
other-set i j r [] e n = let m : same_identity r.identity j ≡ false = rw e n in rw m refl
other-set i j r (x ∷ rs) e n = elim (Bool-cases (same_identity x.identity i)) [
  | inl here ↦
      let m : same_identity r.identity j ≡ false = rw e n in
      let k : same_identity x.identity j ≡ false = rw (same_identity_sound x.identity i here) n in
      simp (here, m, k)
  | inr there ↦ elim (Bool-cases (same_identity x.identity j)) [
    | inl mine ↦ simp (there, mine)
    | inr other ↦ simp (there, other, other-set i j r rs e n)
  ]
]

-- A failed start delays its own device only: what is recorded for another one stays as it was, whether
-- the jitter is permitted or refused.
pub other_device :
    (i j : DeviceIdentity) (now jitter : ℕ) (rs : List RetryState)
    → same_identity i j ≡ false
    → retry_state_for j (record_start_failure i now jitter rs).0 ≡ retry_state_for j rs
unfolding record_start_failure
other_device i j now jitter rs n =
    let old = retry_state_for i rs in
    let attempts = next_attempts old.attempts in
    elim (Bool-cases (ltb jitter 80 || ltb 100 jitter)) [
      | inl refused ↦ simp refused
      | inr fine ↦ simp fine (
          other-set i j
            (record old {
              attempts = attempts;
              next_attempt = now + jittered attempts jitter * 1000000;
            })
            rs (retry-identity i rs) n)
    ]
