-- ===== src/Timer/Progress.antt =====
-- What holds of every state that the threads of src/timer.c come to.
use native.Mathlib.Decide.{dec_lt}
use operating_systems_simula.Prelude.{
  ℕ, zero, suc, ◌+◌, ◌≤◌, ◌<◌, ◌≡◌, ◌≢◌, refl, ◌⊎◌, Bool, true, false, some, List, [], arith,
  length, get_or,
}
use operating_systems_simula.Timer.{
  Thread, running, waiting, finished, Device, Phase, begin, collect, release, stopped, Timer,
  no_device, device, attach_event, timer_step,
}
use operating_systems_simula.Timer.Lockstep.{Steps, FreeAs, CollectedAs, Free, Fits, InStep}
use operating_systems_simula.Timer.Sleep.{TimerSleeps, DeviceSleeps, Counts, AllDetached, Awake}
use operating_systems_simula.Timer.Awake.{Steps-Awake}
use operating_systems_simula.Timer.Rounds.{Steps-InStep}
use operating_systems_simula.Timer.Goes.{CanGo, Goes, phase-Goes}

-- `n` devices, and the timer when it starts.
unfoldable pub attached : ℕ → List Device
attached zero = []
attached (suc n) = attach_event (attached n)

abbrev pub started : ℕ → Timer
started n = record {
  devices = attached n;
  rounds = 0;
  timer_stop = false;
  asleep = false;
  phase = begin;
}

attached-Free : (n i : ℕ) → i < length (attached n) → Free 0 (get_or (attached n) i no_device)
unfolding attached attach_event FreeAs
attached-Free zero i h = absurd (omega arith)
attached-Free (suc n) zero h = (refl, refl)
attached-Free (suc n) (suc i) h = attached-Free n i (omega arith)

started-InStep : (n : ℕ) → InStep (started n)
unfolding InStep Fits
started-InStep n i b = attached-Free n i b

-- The number of slots of a device against the rounds.
Near : ℕ → ℕ → Type 0
Near time slots = (slots ≤ time) × (time ≤ slots + 1)

FreeAs-Near :
    (time : ℕ) (th : Thread) (done fsh : Bool) (slots : ℕ)
    → th ≢ finished
    → FreeAs time th done fsh slots
    → Near time slots
unfolding FreeAs Near
FreeAs-Near time finished done fsh slots ne f = absurd (ne refl)
FreeAs-Near time running true fsh slots ne f = absurd f
FreeAs-Near time running false fsh slots ne f = (omega (arith, f.1), omega (arith, f.1))
FreeAs-Near time waiting true fsh slots ne f = (omega (arith, f.1), omega (arith, f.1))
FreeAs-Near time waiting false fsh slots ne f = (omega (arith, f.1), omega (arith, f.1))

CollectedAs-slots :
    (time : ℕ) (th : Thread) (done fsh : Bool) (slots : ℕ)
    → th ≢ finished
    → CollectedAs time th done fsh slots
    → slots ≡ time
unfolding CollectedAs
CollectedAs-slots time finished done fsh slots ne c = absurd (ne refl)
CollectedAs-slots time running done fsh slots ne c = absurd c
CollectedAs-slots time waiting true fsh slots ne c = c.1
CollectedAs-slots time waiting false fsh slots ne c = absurd c

Fits-Near :
    (time : ℕ) (ph : Phase) (i : ℕ) (d : Device)
    → d.thread ≢ finished
    → Fits time ph i d
    → Near time d.slots
unfolding Fits Near
Fits-Near time begin i d ne h = FreeAs-Near time d.thread d.done d.fsh d.slots ne h
Fits-Near time (collect k fsh event) i d ne h = elim (dec_lt i k) [
  | yes b ↦
      let e = CollectedAs-slots time d.thread d.done d.fsh d.slots ne (h.0 b) in
      (omega (arith, e), omega (arith, e))
  | no b ↦ FreeAs-Near time d.thread d.done d.fsh d.slots ne (h.1 (omega (arith, b)))
]
Fits-Near time (release k fsh event) i d ne h = elim (dec_lt i k) [
  | yes b ↦ FreeAs-Near time d.thread d.done d.fsh d.slots ne (h.0 b)
  | no b ↦
      let (before, next, c) = h.1 (omega (arith, b)) in
      let e = CollectedAs-slots before d.thread d.done d.fsh d.slots ne c in
      (omega (arith, e, next), omega (arith, e, next))
]
Fits-Near time stopped i d ne h = FreeAs-Near time d.thread d.done d.fsh d.slots ne h

-- From the start of the timer with `n` attached devices, in whatever order the threads take their
-- steps, two devices that are not detached are at most one slot apart: none has ended more `next_slot`
-- than rounds of the timer have counted, and none fewer by more than one.
pub Steps-lockstep :
    (n : ℕ) (t : Timer) (i j : ℕ)
    → Steps (started n) t
    → i < length t.devices
    → j < length t.devices
    → (device t i).thread ≢ finished
    → (device t j).thread ≢ finished
    → ((device t i).slots ≤ t.rounds)
      × (t.rounds ≤ (device t i).slots + 1)
      × ((device t i).slots ≤ (device t j).slots + 1)
unfolding InStep Near
Steps-lockstep n t i j steps bi bj ni nj =
    let v = Steps-InStep (started n) t (started-InStep n) steps in
    let a = Fits-Near t.rounds t.phase i (device t i) ni (v i bi) in
    let b = Fits-Near t.rounds t.phase j (device t j) nj (v j bj) in
    (a.0, a.1, omega (arith, a.0, b.1))

attached-DeviceSleeps : (n i : ℕ) → DeviceSleeps (get_or (attached n) i no_device)
unfolding attached attach_event DeviceSleeps
attached-DeviceSleeps zero i h = absurd cc
attached-DeviceSleeps (suc n) zero h = absurd cc
attached-DeviceSleeps (suc n) (suc i) h = attached-DeviceSleeps n i h

pub started-Awake : (n : ℕ) → Awake (started n)
unfolding TimerSleeps DeviceSleeps Counts
started-Awake n = record { timer = refl; devices = λ i b. attached-DeviceSleeps n i; counts = tt }

-- No signal is lost and no wait is in vain: in every state that the threads come to from the start, with
-- any number of devices and in any order of their steps, either the timer has ended, and then
-- `stop_timer` was called or every device is detached; or the timer thread is awake and takes a step
-- without going to sleep; or the thread of some device is awake and either is outside `next_slot` or
-- finds its wait over.
pub Steps-progress :
    (n : ℕ) (t : Timer)
    → Steps (started n) t
    → ((t.phase ≡ stopped) × ((t.timer_stop ≡ true) ⊎ AllDetached t))
      ⊎ ((t' : Timer) × (t.asleep ≡ false) × (timer_step t t.phase ≡ some t') × (t'.asleep ≡ false))
      ⊎ ((k : ℕ) × (k < length t.devices) × CanGo (device t k))
unfolding Goes
Steps-progress n t steps =
    phase-Goes t t.phase refl (Steps-InStep (started n) t (started-InStep n) steps)
      (Steps-Awake (started n) t (started-Awake n) steps)
