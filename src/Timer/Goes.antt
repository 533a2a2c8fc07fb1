-- ===== src/Timer/Goes.antt =====
-- What goes on in each phase of src/timer.c: some thread can take a step that is not a wait.
use operating_systems_simula.Prelude.{
  ℕ, ◌+◌, ◌<◌, ◌≡◌, refl, subst, ◌⊎◌, inl, inr, Bool, true, false, some, arith, ltb, ◌==◌, length,
  Bool-cases,
}
use operating_systems_simula.Timer.{
  Thread, running, waiting, finished, Device, Phase, begin, collect, release, stopped, Timer,
  device, let_go, timer_step, put_device, count,
}
use operating_systems_simula.Timer.Lockstep.{FreeAs, Fits, InStep}
use operating_systems_simula.Timer.Sleep.{TimerSleeps, DeviceSleeps, Counts, AllDetached, Awake}

-- A thread of a device that is awake and has something to do: it is outside `next_slot`, or its wait is
-- over.
pub CanGo : Device → Type 0
CanGo d = (d.thread ≡ running) ⊎ ((d.thread ≡ waiting) × (d.asleep ≡ false) × (d.done ≡ false))

Free-CanGo :
    (time : ℕ) (th : Thread) (done fsh asleep : Bool) (slots : ℕ)
    → done ≡ false
    → fsh ≡ false
    → (asleep ≡ true → done ≡ true)
    → FreeAs time th done fsh slots
    → CanGo (record { done = done; fsh = fsh; asleep = asleep; thread = th; slots = slots })
unfolding FreeAs CanGo
Free-CanGo time finished done fsh asleep slots d h s f = absurd cc
Free-CanGo time running done fsh asleep slots d h s f = inl refl
Free-CanGo time waiting done fsh true slots d h s f = absurd (cc (s refl))
Free-CanGo time waiting done fsh false slots d h s f = inr (refl, refl, d)

-- The device that the timer waits for can go on.
busy-CanGo :
    (t : Timer) (k fsh event : ℕ)
    → t.phase ≡ collect k fsh event
    → InStep t
    → Awake t
    → k < length t.devices
    → (device t k).done ≡ false
    → (device t k).fsh ≡ false
    → CanGo (device t k)
unfolding InStep Fits DeviceSleeps
busy-CanGo t k fsh event at v w below done unfinished =
    let d : Device = device t k in
    Free-CanGo t.rounds d.thread d.done d.fsh d.asleep d.slots done unfinished
      (λ s. (w.devices k below s).1)
      ((subst (λ ph. Fits t.rounds ph k d) at (v k below)).1 (omega arith))

-- What goes on in a state: the timer has ended, or it goes on without a wait, or a device can go.
unfoldable pub Goes : Timer → Phase → Type 0
Goes t ph =
    ((ph ≡ stopped) × ((t.timer_stop ≡ true) ⊎ AllDetached t))
    ⊎ ((t' : Timer) × (t.asleep ≡ false) × (timer_step t ph ≡ some t') × (t'.asleep ≡ false))
    ⊎ ((k : ℕ) × (k < length t.devices) × CanGo (device t k))

collect-Goes :
    (t : Timer) (k fsh event : ℕ)
    → t.phase ≡ collect k fsh event
    → InStep t
    → Awake t
    → Goes t (collect k fsh event)
unfolding Goes timer_step TimerSleeps
collect-Goes t k fsh event at v w = elim (Bool-cases t.asleep) [
  | inl sleeps ↦
      let (below, done, unfinished) =
        subst (λ ph. TimerSleeps ph t.asleep t.devices) at w.timer sleeps in
      inr (inr (k, below, busy-CanGo t k fsh event at v w below done unfinished))
  | inr up ↦ elim (Bool-cases (ltb k (length t.devices))) [
    | inr over ↦ inr (
        inl (record t { rounds = t.rounds + 1; phase = release 0 fsh event }, up, rw over refl, up))
    | inl below ↦ elim (Bool-cases (device t k).done) [
      | inl done ↦ inr (inl (next, up, rw (below, done) refl, up))
      | inr undone ↦ elim (Bool-cases (device t k).fsh) [
        | inl ended ↦ inr (inl (next, up, rw (below, undone, ended) refl, up))
        | inr unfinished ↦
            let inside : k < length t.devices = ground arith in
            inr (inr (k, inside, busy-CanGo t k fsh event at v w inside undone unfinished))
      ]
    ]
  ]
]
  where
    next : Timer
    next = record t { phase = collect (k + 1) (count (device t k).fsh fsh) (event + 1) }

pub phase-Goes : (t : Timer) (ph : Phase) → t.phase ≡ ph → InStep t → Awake t → Goes t ph
unfolding Goes timer_step TimerSleeps Counts AllDetached
phase-Goes t begin at v w =
    let up = subst (λ ph. TimerSleeps ph t.asleep t.devices) at w.timer in
    elim (Bool-cases t.timer_stop) [
      | inl asked ↦ inr (inl (record t { phase = stopped }, up, rw asked refl, up))
      | inr on ↦ inr (inl (record t { phase = collect 0 0 0 }, up, rw on refl, up))
    ]
phase-Goes t (collect k fsh event) at v w = collect-Goes t k fsh event at v w
phase-Goes t (release k fsh event) at v w =
    let up = subst (λ ph. TimerSleeps ph t.asleep t.devices) at w.timer in
    elim (Bool-cases (ltb k (length t.devices))) [
      | inl below ↦ inr (
          inl (
            record (put_device t k (let_go (device t k))) { phase = release (k + 1) fsh event },
            up,
            rw below refl,
            up,
          ))
      | inr over ↦ elim (Bool-cases (fsh == event)) [
        | inl ended ↦ inr (inl (record t { phase = stopped }, up, rw (over, ended) refl, up))
        | inr on ↦ inr (inl (record t { phase = begin }, up, rw (over, on) refl, up))
      ]
    ]
phase-Goes t stopped at v w = inl (refl, subst (λ ph. Counts ph t.timer_stop t.devices) at w.counts)
