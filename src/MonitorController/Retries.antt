-- ===== src/MonitorController/Retries.antt =====
-- src/app/gui/core/dmn-device-monitor-controller.cpp: `reconcile` after a failed start.
use dmn.Prelude.{
  ℕ, ◌+◌, ◌*◌, ◌≤◌, ◌≡◌, refl, sym, ap, ◌∙◌, inl, inr, Bool, true, false, not, ◌&&◌, ◌||◌, List, [],
  ◌∷◌, ◌++◌, ltb, if◌then◌else◌, Bool-cases,
}
use mathlib.Core.List.{append-nil, append_assoc}
use dmn.Effect.{returned}
use dmn.Device.{DeviceIdentity, same_identity, same_identity_sound, same_identity_self}
use dmn.MonitorController.{
  DeviceState, Command, start, stop, RetryState, reset_retries, retry_state_for, with_retry_state,
  usable, wanted, reconcile_device, reconcile, record_start_failure, jittered, next_attempts,
}
use dmn.MonitorController.Backoff.{failure_lem}
use dmn.MonitorController.Commands.{Startable, decide}

abbrev pub about : Command → DeviceIdentity
about (start i) = i
about (stop i) = i

-- The commands for one device.
abbrev pub commands_for : DeviceIdentity → List Command → List Command
commands_for i [] = []
commands_for i (c ∷ cs) =
    let rest = commands_for i cs in if same_identity (about c) i then c ∷ rest else rest

commands_for-append :
    (i : DeviceIdentity) (xs bs : List Command)
    → commands_for i (xs ++ bs) ≡ commands_for i xs ++ commands_for i bs
commands_for-append i [] bs = refl
commands_for-append i (a ∷ xs) bs = elim (Bool-cases (same_identity (about a) i)) [
  | inl mine ↦ rw mine (ap (a ∷◌) (commands_for-append i xs bs))
  | inr other ↦ rw other (commands_for-append i xs bs)
]

abbrev pub AllOthers : DeviceIdentity → List DeviceState → Type 0
AllOthers i [] = Unit {0}
AllOthers i (d ∷ ds) = (same_identity d.identity i ≡ false) × AllOthers i ds

reset-other :
    (i j : DeviceIdentity) (rs : List RetryState)
    → same_identity j i ≡ false
    → retry_state_for i (reset_retries j rs) ≡ retry_state_for i rs
unfolding retry_state_for reset_retries
reset-other i j [] n = refl
reset-other i j (r ∷ rs) n = elim (Bool-cases (same_identity r.identity j)) [
  | inl here ↦
      let m : same_identity r.identity i ≡ false = rw (same_identity_sound r.identity j here) n in
      simp (here, m, reset-other i j rs n)
  | inr there ↦ elim (Bool-cases (same_identity r.identity i)) [
    | inl mine ↦ simp (there, mine)
    | inr other ↦ simp (there, other, reset-other i j rs n)
  ]
]

with-other :
    (i j : DeviceIdentity) (rs : List RetryState)
    → same_identity j i ≡ false
    → retry_state_for i (with_retry_state j rs) ≡ retry_state_for i rs
unfolding retry_state_for with_retry_state
with-other i j [] n = simp n
with-other i j (r ∷ rs) n = elim (Bool-cases (same_identity r.identity j)) [
  | inl here ↦
      let m : same_identity r.identity i ≡ false = rw (same_identity_sound r.identity j here) n in
      simp (here, m)
  | inr there ↦ elim (Bool-cases (same_identity r.identity i)) [
    | inl mine ↦ simp (there, mine)
    | inr other ↦ simp (there, other, with-other i j rs n)
  ]
]

-- What is done for another device gives no command for `i`, and leaves its retry state.
abbrev Aside : DeviceIdentity → List RetryState → List Command × List RetryState → Type 0
Aside i rs r = (commands_for i r.0 ≡ []) × (retry_state_for i r.1 ≡ retry_state_for i rs)

reconcile_device-Aside :
    (allow_starts : Bool) (now : ℕ) (i : DeviceIdentity) (d : DeviceState) (rs : List RetryState)
    → same_identity d.identity i ≡ false
    → Aside i rs (reconcile_device allow_starts now d rs)
unfolding reconcile_device
reconcile_device-Aside allow_starts now i d rs n =
    let lost = not (wanted d) || not (usable d) in
    let kept = if lost then reset_retries d.identity rs else rs in
    let same : retry_state_for i kept ≡ retry_state_for i rs = elim (Bool-cases lost) [
      | inl gone ↦ rw gone (reset-other i d.identity rs n)
      | inr there ↦ rw there refl
    ] in
    let made : retry_state_for i (with_retry_state d.identity kept) ≡ retry_state_for i rs =
      with-other i d.identity kept n ∙ same in
    decide (Aside i rs) d.monitor_busy
      (d.monitor_active && (not (wanted d) || (not (usable d) || d.monitor_restart_required)))
      (not allow_starts || (not (wanted d) || (not (usable d) || d.monitor_active)))
      (ltb now (retry_state_for d.identity kept).next_attempt) ([], kept)
      (stop d.identity ∷ [], kept) ([], kept) ([], with_retry_state d.identity kept)
      (start d.identity ∷ [], with_retry_state d.identity kept) (refl, same)
      (λ idle ends. (rw n refl, same)) (refl, same) (refl, made)
      (λ idle goes free. (rw n refl, made))

reconcile-Aside :
    (allow_starts : Bool) (now : ℕ) (i : DeviceIdentity) (ds : List DeviceState)
    (rs : List RetryState)
    → AllOthers i ds
    → Aside i rs (reconcile allow_starts now ds rs)
unfolding reconcile
reconcile-Aside allow_starts now i [] rs o = (refl, refl)
reconcile-Aside allow_starts now i (d ∷ ds) rs o =
    let one = reconcile_device-Aside allow_starts now i d rs o.0 in
    let first = reconcile_device allow_starts now d rs in
    let all = reconcile-Aside allow_starts now i ds first.1 o.1 in
    (
      commands_for-append i first.0 (reconcile allow_starts now ds first.1).0
          ∙ ap (λ l. l ++ commands_for i (reconcile allow_starts now ds first.1).0) one.0
          ∙ all.0,
      all.1 ∙ one.1,
    )

reconcile-append :
    (allow_starts : Bool) (now : ℕ) (xs bs : List DeviceState) (rs : List RetryState)
    → (reconcile allow_starts now (xs ++ bs) rs).0
      ≡ (reconcile allow_starts now xs rs).0
        ++ (reconcile allow_starts now bs (reconcile allow_starts now xs rs).1).0
unfolding reconcile
reconcile-append allow_starts now [] bs rs = refl
reconcile-append allow_starts now (a ∷ xs) bs rs =
    let first = reconcile_device allow_starts now a rs in
    let next = reconcile allow_starts now xs first.1 in
    ap (λ l. first.0 ++ l) (reconcile-append allow_starts now xs bs first.1)
    ∙ sym (append_assoc first.0 next.0 (reconcile allow_starts now bs next.1).0)

-- A startable device is started when its next attempt is due.
starts_due :
    (now due : ℕ) (d : DeviceState) (rs : List RetryState)
    → Startable true d
    → (retry_state_for d.identity rs).next_attempt ≡ due
    → (reconcile_device true now d rs).0 ≡ (if ltb now due then [] else start d.identity ∷ [])
unfolding reconcile_device
starts_due now due d rs (allowed, want, use_, off, idle) e = elim (Bool-cases (ltb now due)) [
  | inl early ↦ simp (idle, off, want, use_, e, early)
  | inr late ↦ simp (idle, off, want, use_, e, late)
]

commands_for-own :
    (i : DeviceIdentity) (b : Bool)
    → commands_for i (if b then [] else start i ∷ []) ≡ (if b then [] else start i ∷ [])
commands_for-own i true = refl
commands_for-own i false = rw (same_identity_self i) refl

reconcile_cons :
    (now : ℕ) (d : DeviceState) (ds : List DeviceState) (rs : List RetryState)
    → (reconcile true now (d ∷ ds) rs).0
      ≡ (reconcile_device true now d rs).0
        ++ (reconcile true now ds (reconcile_device true now d rs).1).0
unfolding reconcile
reconcile_cons now d ds rs = refl

-- In a list of devices with different identities, a startable one is started when it is due.
listed_due :
    (now due : ℕ) (before after : List DeviceState) (d : DeviceState) (rs : List RetryState)
    → Startable true d
    → AllOthers d.identity before
    → AllOthers d.identity after
    → (retry_state_for d.identity rs).next_attempt ≡ due
    → commands_for d.identity (reconcile true now (before ++ d ∷ after) rs).0
      ≡ (if ltb now due then [] else start d.identity ∷ [])
listed_due now due before after d rs ok first last e =
    let i = d.identity in
    let own : List Command = if ltb now due then [] else start i ∷ [] in
    let one = reconcile true now before rs in
    let two = reconcile_device true now d one.1 in
    let three = reconcile true now after two.1 in
    let aside = reconcile-Aside true now i before rs first in
    let ending = reconcile-Aside true now i after two.1 last in
    let started = starts_due now due d one.1 ok (ap (λ r. r.next_attempt) aside.1 ∙ e) in
    ap (commands_for i) (
      reconcile-append true now before (d ∷ after) rs
      ∙ ap (λ l. one.0 ++ l) (reconcile_cons now d after one.1))
    ∙ commands_for-append i one.0 (two.0 ++ three.0)
    ∙ ap (λ l. l ++ commands_for i (two.0 ++ three.0)) aside.0
    ∙ commands_for-append i two.0 three.0
    ∙ ap (λ l. commands_for i two.0 ++ l) ending.0
    ∙ append-nil (commands_for i two.0)
    ∙ ap (commands_for i) started
    ∙ commands_for-own i (ltb now due)

returned_same : (a b : ℕ) → returned a ≡ returned b → a ≡ b
returned_same a b e = cc

-- In a list of devices of which no other one has its identity, a device whose monitor may be started,
-- after a failed start at `failed` whose delay was `delay` milliseconds: whatever the other devices are,
-- the commands of `reconcile` for this one are a single start, exactly when that delay has passed, and
-- none before.
pub retry_respected :
    (now failed jitter delay : ℕ) (before after : List DeviceState) (d : DeviceState)
    (rs : List RetryState)
    → Startable true d
    → AllOthers d.identity before
    → AllOthers d.identity after
    → 80 ≤ jitter
    → jitter ≤ 100
    → (record_start_failure d.identity failed jitter rs).1 ≡ returned delay
    → commands_for d.identity
        (reconcile true now
          (before ++ d ∷ after)
          (record_start_failure d.identity failed jitter rs).0).0
      ≡ (if ltb now (failed + delay * 1000000) then [] else start d.identity ∷ [])
retry_respected now failed jitter delay before after d rs ok first last lo hi e =
    let one = failure_lem d.identity failed jitter rs lo hi in
    let same : jittered (next_attempts (retry_state_for d.identity rs).attempts) jitter ≡ delay =
      returned_same _ delay (sym one.0 ∙ e) in
    listed_due now (failed + delay * 1000000) before after d
      (record_start_failure d.identity failed jitter rs).0 ok first last
      (one.2 ∙ ap (λ x. failed + x * 1000000) same)
