-- ===== src/MonitorController/Commands.antt =====
-- src/app/gui/core/dmn-device-monitor-controller.cpp: the commands of `reconcile`.
use dmn.Prelude.{
  ℕ, ◌≡◌, refl, ◌⊎◌, inl, inr, Bool, true, false, not, ◌&&◌, ◌||◌, List, [], ◌∷◌, ◌++◌, ltb,
  if◌then◌else◌, arith,
}
use dmn.MonitorController.{
  DeviceState, Command, start, stop, RetryState, reset_retries, retry_state_for, with_retry_state,
  usable, wanted, reconcile_device, reconcile,
}

-- A monitor is started where it is wanted, its device can be reached, and none runs or changes.
abbrev pub Startable : Bool → DeviceState → Type 0
Startable allow_starts d =
    (allow_starts ≡ true)
    × (wanted d ≡ true)
    × (usable d ≡ true)
    × (d.monitor_active ≡ false)
    × (d.monitor_busy ≡ false)

-- One is stopped that runs, does not change already, and is unwanted, cut off or to be restarted.
abbrev pub Stoppable : DeviceState → Type 0
Stoppable d =
    (d.monitor_active ≡ true)
    × (d.monitor_busy ≡ false)
    × ((wanted d && (usable d && not d.monitor_restart_required)) ≡ false)

abbrev pub Justifies : Bool → DeviceState → Command → Type 0
Justifies allow_starts d (start i) = (d.identity ≡ i) × Startable allow_starts d
Justifies allow_starts d (stop i) = (d.identity ≡ i) × Stoppable d

abbrev pub Justified : Bool → List DeviceState → Command → Type 0
Justified allow_starts [] c = ⊥
Justified allow_starts (d ∷ ds) c = Justifies allow_starts d c ⊎ Justified allow_starts ds c

abbrev pub AllJustified : Bool → List DeviceState → List Command → Type 0
AllJustified allow_starts ds [] = Unit {0}
AllJustified allow_starts ds (c ∷ cs) =
    Justified allow_starts ds c × AllJustified allow_starts ds cs

-- The commands for one device: none, or one that is justified.
abbrev OneJustified : Bool → DeviceState → List Command → Type 0
OneJustified allow_starts d [] = Unit {0}
OneJustified allow_starts d (c ∷ []) = Justifies allow_starts d c
OneJustified allow_starts d (c ∷ b ∷ cs) = ⊥

-- The four tests of a round, in their order.
pub decide :
    {A : Type 0} (P : A → Type 0) (busy ends barred early : Bool) (a b c d e : A)
    → P a
    → (busy ≡ false → ends ≡ true → P b)
    → P c
    → P d
    → (busy ≡ false → ends ≡ false → barred ≡ false → P e)
    → P (if busy then a else if ends then b else if barred then c else if early then d else e)
decide P true ends barred early a b c d e pa pb pc pd pe = pa
decide P false true barred early a b c d e pa pb pc pd pe = pb refl refl
decide P false false true early a b c d e pa pb pc pd pe = pc
decide P false false false true a b c d e pa pb pc pd pe = pd
decide P false false false false a b c d e pa pb pc pd pe = pe refl refl refl

reconcile_device-OneJustified :
    (allow_starts : Bool) (now : ℕ) (d : DeviceState) (rs : List RetryState)
    → OneJustified allow_starts d (reconcile_device allow_starts now d rs).0
unfolding reconcile_device
reconcile_device-OneJustified allow_starts now d rs =
    let kept = if not (wanted d) || not (usable d) then reset_retries d.identity rs else rs in
    decide (λ (r : List Command × List RetryState). OneJustified allow_starts d r.0) d.monitor_busy
      (d.monitor_active && (not (wanted d) || (not (usable d) || d.monitor_restart_required)))
      (not allow_starts || (not (wanted d) || (not (usable d) || d.monitor_active)))
      (ltb now (retry_state_for d.identity kept).next_attempt) ([], kept)
      (stop d.identity ∷ [], kept) ([], kept) ([], with_retry_state d.identity kept)
      (start d.identity ∷ [], with_retry_state d.identity kept) tt
      (λ idle ends. (refl, (ground arith, idle, ground arith))) tt tt
      (λ idle goes free. (refl, (ground arith, ground arith, ground arith, ground arith, idle)))

weaken :
    (allow_starts : Bool) (d : DeviceState) (ds : List DeviceState) (cs : List Command)
    → AllJustified allow_starts ds cs
    → AllJustified allow_starts (d ∷ ds) cs
weaken allow_starts d ds [] v = tt
weaken allow_starts d ds (c ∷ cs) v = (inr v.0, weaken allow_starts d ds cs v.1)

together :
    (allow_starts : Bool) (d : DeviceState) (ds : List DeviceState) (bs cs : List Command)
    → OneJustified allow_starts d bs
    → AllJustified allow_starts ds cs
    → AllJustified allow_starts (d ∷ ds) (bs ++ cs)
together allow_starts d ds [] cs one v = weaken allow_starts d ds cs v
together allow_starts d ds (b ∷ []) cs one v = (inl one, weaken allow_starts d ds cs v)
together allow_starts d ds (b ∷ c ∷ bs) cs one v = absurd one

-- Every command of `reconcile` is justified by a device of the list: a monitor is only started where
-- starts are allowed, for a device that is saved, wanted, present, paired and connected, and that has
-- no monitor running or changing; and only stopped for one whose monitor runs and does not change, and
-- that is no longer saved, wanted, present, paired or connected, or is to be restarted.
pub reconcile-AllJustified :
    (allow_starts : Bool) (now : ℕ) (ds : List DeviceState) (rs : List RetryState)
    → AllJustified allow_starts ds (reconcile allow_starts now ds rs).0
unfolding reconcile
reconcile-AllJustified allow_starts now [] rs = tt
reconcile-AllJustified allow_starts now (d ∷ ds) rs =
    together allow_starts d ds (reconcile_device allow_starts now d rs).0 _
      (reconcile_device-OneJustified allow_starts now d rs)
      (reconcile-AllJustified allow_starts now ds (reconcile_device allow_starts now d rs).1)
