-- ===== src/MonitorController.antt =====
-- src/app/gui/core/dmn-device-monitor-controller.cpp: `Dmn_DeviceMonitorController`, which decides what
-- monitors to start and to stop, and delays the next start after a failure. A time point is a number of
-- nanoseconds since the epoch of the steady clock, a delay a number of milliseconds.
pub mod Backoff
pub mod Commands
pub mod Retries
mod Tests
use dmn.Prelude.{
  ℕ, zero, suc, ◌+◌, ◌-◌, ◌*◌, ◌/◌, min, Bool, true, false, not, ◌&&◌, ◌||◌, Option, none, some,
  List, [], ◌∷◌, ◌++◌, ltb, ◌==◌, if◌then◌else◌,
}
use dmn.Effect.{Outcome, returned, thrown, invalid_argument}
use dmn.Device.{DeviceIdentity, same_identity}

pub record DeviceState : Type 0 where
  pub identity : DeviceIdentity
  pub saved : Bool
  pub monitoring_requested : Bool
  pub present : Bool
  pub paired : Bool
  pub connected : Bool
  pub monitor_active : Bool
  pub monitor_restart_required : Bool
  pub monitor_busy : Bool

pub data Command : Type 0 where
  start stop : DeviceIdentity → Command

pub record RetryState : Type 0 where
  pub identity : DeviceIdentity
  pub attempts : ℕ
  pub next_attempt : ℕ

abbrev pub no_retries : DeviceIdentity → RetryState
no_retries i = record { identity = i; attempts = 0; next_attempt = 0 }

-- `resetRetries`, over the vector of retry states.
unfoldable pub reset_retries : DeviceIdentity → List RetryState → List RetryState
reset_retries i [] = []
reset_retries i (r ∷ rs) =
    let rest = reset_retries i rs in if same_identity r.identity i then rest else r ∷ rest

-- What `retryStateFor` finds or makes, and the vector that it leaves.
unfoldable pub retry_state_for : DeviceIdentity → List RetryState → RetryState
retry_state_for i [] = no_retries i
retry_state_for i (r ∷ rs) =
    let rest = retry_state_for i rs in if same_identity r.identity i then r else rest

unfoldable pub with_retry_state : DeviceIdentity → List RetryState → List RetryState
with_retry_state i [] = no_retries i ∷ []
with_retry_state i (r ∷ rs) =
    let rest = with_retry_state i rs in if same_identity r.identity i then r ∷ rs else r ∷ rest

-- A write through the reference that `retryStateFor` returns.
unfoldable pub set_retry_state : DeviceIdentity → RetryState → List RetryState → List RetryState
set_retry_state i new [] = new ∷ []
set_retry_state i new (r ∷ rs) =
    let rest = set_retry_state i new rs in if same_identity r.identity i then new ∷ rs else r ∷ rest

abbrev pub usable : DeviceState → Bool
usable d = d.present && (d.paired && d.connected)

abbrev pub wanted : DeviceState → Bool
wanted d = d.saved && d.monitoring_requested

-- One round of the loop of `reconcile`: the commands that it adds, and the retry states.
unfoldable pub reconcile_device :
    Bool → ℕ → DeviceState → List RetryState → List Command × List RetryState
unfolding reset_retries retry_state_for with_retry_state
reconcile_device allow_starts now d retries =
    let rs =
      if not (wanted d) || not (usable d) then reset_retries d.identity retries else retries in
    if d.monitor_busy
    then ([], rs)
    else if d.monitor_active && (not (wanted d) || (not (usable d) || d.monitor_restart_required))
    then (stop d.identity ∷ [], rs)
    else if not allow_starts || (not (wanted d) || (not (usable d) || d.monitor_active))
    then ([], rs)
    else if ltb now (retry_state_for d.identity rs).next_attempt
    then ([], with_retry_state d.identity rs)
    else (start d.identity ∷ [], with_retry_state d.identity rs)

abbrev pub after_device :
    List Command × List RetryState
    → (List RetryState → List Command × List RetryState)
    → List Command × List RetryState
after_device (commands, rs) f = let (others, last) = f rs in (commands ++ others, last)

unfoldable pub reconcile :
    Bool → ℕ → List DeviceState → List RetryState → List Command × List RetryState
reconcile allow_starts now [] rs = ([], rs)
reconcile allow_starts now (d ∷ ds) rs =
    after_device (reconcile_device allow_starts now d rs)
      (λ next. reconcile allow_starts now ds next)

-- The loop that doubles the delay, in seconds, for `rounds` rounds at most.
pub backoff : ℕ → ℕ → ℕ
backoff zero delay = delay
backoff (suc rounds) delay =
    let rest = backoff rounds (min (delay * 2) 60) in if ltb delay 60 then rest else delay

pub jittered : ℕ → ℕ → ℕ
unfolding backoff
jittered attempts jitter_percent = backoff (attempts - 1) 5 * 1000 * jitter_percent / 100

abbrev pub next_attempts : ℕ → ℕ
next_attempts attempts = if ltb attempts 5 then attempts + 1 else attempts

unfoldable pub record_start_failure :
    DeviceIdentity → ℕ → ℕ → List RetryState → List RetryState × Outcome ℕ
unfolding jittered retry_state_for set_retry_state
record_start_failure i now jitter_percent rs =
    if ltb jitter_percent 80 || ltb 100 jitter_percent
    then (rs, thrown invalid_argument)
    else let old = retry_state_for i rs in
      let attempts = next_attempts old.attempts in
      let delay = jittered attempts jitter_percent in
      (
        set_retry_state i (record old { attempts = attempts; next_attempt = now + delay * 1000000 })
            rs,
        returned delay,
      )

pub record_start_success : DeviceIdentity → List RetryState → List RetryState
unfolding reset_retries
record_start_success i rs = reset_retries i rs
