-- ===== src/Timer/Lockstep.antt =====
-- The devices run in step: each waits once in each round of the timer.
use operating_systems_simula.Prelude.{
  ℕ, ◌+◌, ◌≤◌, ◌<◌, ◌≡◌, ◌≢◌, Bool, true, false, ◌||◌, some, arith, length,
}
use operating_systems_simula.Timer.{
  Thread, running, waiting, finished, Device, Phase, begin, collect, release, stopped, Timer,
  device, put_device, next_slot, next_slot_over, detach_event, timer_step, request_stop,
}

-- A step of one of the threads that are awake; `pthread_cond_wait` may also wake a thread by itself.
pub data Step (t : Timer) : Timer → Type 0 where
  ticks : (t' : Timer) → t.asleep ≡ false → timer_step t t.phase ≡ some t' → Step t t'
  calls : (i : ℕ) → i < length t.devices → (device t i).thread ≡ running → Step t (next_slot t i)
  returns :
      (i : ℕ)
      → i < length t.devices
      → (device t i).thread ≡ waiting
      → (device t i).asleep ≡ false
      → Step t (put_device t i (next_slot_over (device t i)))
  detaches :
      (i : ℕ) → i < length t.devices → (device t i).thread ≡ running → Step t (detach_event t i)
  stop_timer : Step t (request_stop t)
  timer_wakes : Step t (record t { asleep = false })
  device_wakes :
      (i : ℕ)
      → i < length t.devices
      → Step t (put_device t i (record (device t i) { asleep = false }))

pub data Steps : Timer → Timer → Type 0 where
  here : (t : Timer) → Steps t t
  more : (t u v : Timer) → Step t u → Steps u v → Steps t v

-- A device that the timer has let go in round `time`, by its thread, `done`, `fsh` and `slots`.
unfoldable pub FreeAs : ℕ → Thread → Bool → Bool → ℕ → Type 0
FreeAs time finished done fsh slots = fsh ≡ true
FreeAs time running true fsh slots = ⊥
FreeAs time running false fsh slots = (fsh ≡ false) × (slots ≡ time)
FreeAs time waiting true fsh slots = (fsh ≡ false) × (slots ≡ time)
FreeAs time waiting false fsh slots = (fsh ≡ false) × (slots + 1 ≡ time)

-- A device that the timer has waited for.
unfoldable pub CollectedAs : ℕ → Thread → Bool → Bool → ℕ → Type 0
CollectedAs time finished done fsh slots = fsh ≡ true
CollectedAs time running done fsh slots = ⊥
CollectedAs time waiting true fsh slots = (fsh ≡ false) × (slots ≡ time)
CollectedAs time waiting false fsh slots = ⊥

abbrev pub Free : ℕ → Device → Type 0
Free time d = FreeAs time d.thread d.done d.fsh d.slots

abbrev pub Collected : ℕ → Device → Type 0
Collected time d = CollectedAs time d.thread d.done d.fsh d.slots

-- What holds of device `i` while the timer is in a phase.
unfoldable pub Fits : ℕ → Phase → ℕ → Device → Type 0
Fits time begin i d = Free time d
Fits time (collect k fsh event) i d = (i < k → Collected time d) × (k ≤ i → Free time d)
Fits time (release k fsh event) i d =
    (i < k → Free time d) × (k ≤ i → (before : ℕ) × (time ≡ before + 1) × Collected before d)
Fits time stopped i d = Free time d

unfoldable pub InStep : Timer → Type 0
InStep t = (i : ℕ) → i < length t.devices → Fits t.rounds t.phase i (device t i)

pub Free-Collected :
    (time : ℕ) (th : Thread) (done fsh : Bool) (slots : ℕ)
    → (done || fsh) ≡ true
    → FreeAs time th done fsh slots
    → CollectedAs time th done fsh slots
unfolding FreeAs CollectedAs
Free-Collected time finished done fsh slots h f = f
Free-Collected time running true fsh slots h f = absurd f
Free-Collected time running false fsh slots h f = absurd (ground (arith, f.0))
Free-Collected time waiting true fsh slots h f = f
Free-Collected time waiting false fsh slots h f = absurd (ground (arith, f.0))

-- The timer lets a device go: it starts the next round.
pub Collected-Free :
    (time : ℕ) (th : Thread) (done fsh : Bool) (slots : ℕ)
    → CollectedAs time th done fsh slots
    → FreeAs (time + 1) th false fsh slots
unfolding FreeAs CollectedAs
Collected-Free time finished done fsh slots c = c
Collected-Free time running done fsh slots c = absurd c
Collected-Free time waiting true fsh slots c = (c.0, omega (arith, c.1))
Collected-Free time waiting false fsh slots c = absurd c

-- A device that calls `next_slot`, ends its wait or is detached.
pub Free-next_slot :
    (time : ℕ) (th : Thread) (done fsh : Bool) (slots : ℕ)
    → th ≡ running
    → FreeAs time th done fsh slots
    → FreeAs time waiting true fsh slots
unfolding FreeAs
Free-next_slot time finished done fsh slots e f = absurd cc
Free-next_slot time running true fsh slots e f = absurd f
Free-next_slot time running false fsh slots e f = f
Free-next_slot time waiting done fsh slots e f = absurd cc

pub Free-over :
    (time : ℕ) (th : Thread) (fsh : Bool) (slots : ℕ)
    → th ≡ waiting
    → FreeAs time th false fsh slots
    → FreeAs time running false fsh (slots + 1)
unfolding FreeAs
Free-over time finished fsh slots e f = absurd cc
Free-over time running fsh slots e f = absurd cc
Free-over time waiting fsh slots e f = f

pub Collected-ne-running :
    (time : ℕ) (th : Thread) (done fsh : Bool) (slots : ℕ)
    → CollectedAs time th done fsh slots
    → th ≢ running
unfolding CollectedAs
Collected-ne-running time finished done fsh slots c e = cc
Collected-ne-running time running done fsh slots c e = c
Collected-ne-running time waiting done fsh slots c e = cc

pub Collected-done :
    (time : ℕ) (th : Thread) (fsh : Bool) (slots : ℕ)
    → CollectedAs time th false fsh slots
    → th ≢ waiting
unfolding CollectedAs
Collected-done time finished fsh slots c e = cc
Collected-done time running fsh slots c e = cc
Collected-done time waiting fsh slots c e = c
