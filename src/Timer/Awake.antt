-- ===== src/Timer/Awake.antt =====
-- Each step of the timer and of a device keeps what holds of the threads that sleep.
use operating_systems_simula.Prelude.{
  ℕ, ◌+◌, ◌<◌, ◌≡◌, refl, subst, inl, inr, Bool, true, false, List, length, Bool-cases,
}
use operating_systems_simula.Timer.{
  running, waiting, Device, Phase, begin, collect, release, stopped, Timer, device, put_device,
  signal_event, next_slot, next_slot_over, detach_event, request_stop,
}
use operating_systems_simula.Timer.Lockstep.{
  Step, ticks, calls, returns, detaches, stop_timer, timer_wakes, device_wakes, Steps, here, more,
}
use operating_systems_simula.Timer.Sleep.{
  DeviceSleeps, Counts, Awake, awake-TimerSleeps, signal-TimerSleeps, put-TimerSleeps,
  put-DeviceSleeps, put-Counts,
}
use operating_systems_simula.Timer.Routine.{timer_step-Awake}

-- The thread of device `i` changes it and signals the timer.
signalled-Awake :
    (t : Timer) (i : ℕ) (d : Device)
    → i < length t.devices
    → DeviceSleeps d
    → ((device t i).fsh ≡ true → d.fsh ≡ true)
    → Awake t
    → Awake (signal_event (put_device t i d) i)
unfolding signal_event
signalled-Awake t i d b s keeps v = record {
  timer = signal-TimerSleeps t.phase t.asleep t.devices i d v.timer;
  devices = put-DeviceSleeps t.devices i d b s v.devices;
  counts = put-Counts t.phase t.timer_stop t.devices i d b keeps v.counts;
}

-- A device changes that the timer has nothing to learn from.
put-Awake :
    (t : Timer) (i : ℕ) (d : Device)
    → i < length t.devices
    → DeviceSleeps d
    → d.done ≡ (device t i).done
    → d.fsh ≡ (device t i).fsh
    → Awake t
    → Awake (put_device t i d)
put-Awake t i d b s done fsh v = record {
  timer = put-TimerSleeps t.phase t.asleep t.devices i d b (λ e. rw done e) fsh v.timer;
  devices = put-DeviceSleeps t.devices i d b s v.devices;
  counts = put-Counts t.phase t.timer_stop t.devices i d b (λ e. rw fsh e) v.counts;
}

over-Awake :
    (t : Timer) (i : ℕ)
    → i < length t.devices
    → (device t i).thread ≡ waiting
    → (device t i).asleep ≡ false
    → Awake t
    → Awake (put_device t i (next_slot_over (device t i)))
unfolding next_slot_over DeviceSleeps
over-Awake t i b w up v = elim (Bool-cases (device t i).done) [
  | inl on ↦
      let d₁ : Device = record d₀ { asleep = true } in
      let e : d₁ ≡ next_slot_over d₀ = rw on refl in
      subst (λ d. Awake (put_device t i d)) e (put-Awake t i d₁ b (λ h. (w, on)) refl refl v)
  | inr off ↦
      let d₁ : Device = record d₀ { thread = running; slots = d₀.slots + 1 } in
      let e : d₁ ≡ next_slot_over d₀ = rw off refl in
      subst (λ d. Awake (put_device t i d)) e (put-Awake t i d₁ b (λ h. absurd cc) refl refl v)
]
  where
    d₀ : Device
    d₀ = device t i

asked-Counts :
    (ph : Phase) (asked : Bool) (ds : List Device) → Counts ph asked ds → Counts ph true ds
unfolding Counts
asked-Counts begin asked ds c = tt
asked-Counts (collect k fsh event) asked ds c = c
asked-Counts (release k fsh event) asked ds c = c
asked-Counts stopped asked ds c = inl refl

Step-Awake : (t t' : Timer) → Awake t → Step t t' → Awake t'
unfolding next_slot detach_event request_stop DeviceSleeps
Step-Awake t t' v (ticks u up e) = timer_step-Awake t t' t.phase refl up v e
Step-Awake t t' v (calls i b r) = signalled-Awake t i _ b (λ h. (refl, refl)) (λ f. f) v
Step-Awake t t' v (returns i b w up) = over-Awake t i b w up v
Step-Awake t t' v (detaches i b r) =
    signalled-Awake t i _ b (λ h. absurd (not_waiting (v.devices i b h).0 r)) (λ f. refl) v
  where
    not_waiting : (device t i).thread ≡ waiting → (device t i).thread ≡ running → ⊥
    not_waiting w r = cc
Step-Awake t t' v stop_timer = record {
  timer = v.timer;
  devices = v.devices;
  counts = asked-Counts t.phase t.timer_stop t.devices v.counts;
}
Step-Awake t t' v timer_wakes = record {
  timer = awake-TimerSleeps t.phase false t.devices refl;
  devices = v.devices;
  counts = v.counts;
}
Step-Awake t t' v (device_wakes i b) = put-Awake t i _ b (λ h. absurd cc) refl refl v

pub Steps-Awake : (t t' : Timer) → Awake t → Steps t t' → Awake t'
Steps-Awake t t' v (here u) = v
Steps-Awake t t' v (more u m w step steps) = Steps-Awake m t' (Step-Awake t m v step) steps
