-- ===== src/Timer/Stop.antt =====
-- The end of src/timer.c: `stop_timer`, when all devices are detached.
mod Tests
use operating_systems_simula.Prelude.{
  ℕ, zero, suc, ◌+◌, ◌≤◌, ◌<◌, ◌≡◌, ◌≢◌, refl, sym, subst, ◌∙◌, ap, inl, inr, Bool, true, false,
  ◌||◌, some, List, [], ◌∷◌, arith, ltb, ◌==◌, if◌then◌else◌, length, get_or, set, length-set,
  get_or-set_self, get_or-set_ne, lt→ltb, le→ltb, eq→==, Bool-cases, ℕ_discrete,
}
use operating_systems_simula.Timer.{
  Device, Phase, begin, collect, release, stopped, Timer, no_device, device, put_device, let_go,
  timer_step, count, request_stop, free_devices, join_timer,
}
use operating_systems_simula.Timer.Lockstep.{Steps}
use operating_systems_simula.Timer.Sleep.{TimerSleeps, AllDetached}
use operating_systems_simula.Timer.Awake.{Steps-Awake}
use operating_systems_simula.Timer.Progress.{started, started-Awake}
use operating_systems_simula.Timer.Ticks.{Ticks, from_phase}

free_devices-nil : (ds : List Device) → free_devices ds ≡ []
unfolding free_devices
free_devices-nil [] = refl
free_devices-nil (d ∷ ds) = free_devices-nil ds

join-stopped :
    (u : Timer) (ph : Phase) → ph ≡ stopped → join_timer u ph ≡ some (record u { devices = [] })
unfolding join_timer
join-stopped u stopped e = rw (free_devices-nil u.devices) refl
join-stopped u begin e = absurd cc
join-stopped u (collect k fsh event) e = absurd cc
join-stopped u (release k fsh event) e = absurd cc

-- The timer does not sleep at a device that is detached.
detached-awake :
    (ph : Phase) (t : Timer) → AllDetached t → TimerSleeps ph t.asleep t.devices → t.asleep ≡ false
unfolding AllDetached TimerSleeps
detached-awake begin t d s = s
detached-awake (collect k fsh event) t d s = elim (Bool-cases t.asleep) [
  | inl sleeps ↦ let (below, done, busy) = s sleeps in absurd (clash (d k below) busy)
  | inr up ↦ up
]
  where
    clash : {b : Bool} → b ≡ true → b ≡ false → ⊥
    clash e f = cc
detached-awake (release k fsh event) t d s = s
detached-awake stopped t d s = s

-- In every state that the threads come to from the start, with any number of devices and in any order of
-- their steps, in which every device is detached, `stop_timer` returns, whatever the timer thread is at:
-- that thread is awake, since a device that was detached while it slept has signalled it, and ends by its
-- own steps without going to sleep; then the join is over and no device is left.
pub stop_timer-returns :
    (n : ℕ) (t : Timer)
    → Steps (started n) t
    → AllDetached t
    → (u : Timer) × Ticks (request_stop t) u
      × (join_timer u u.phase ≡ some (record u { devices = [] }))
unfolding AllDetached request_stop
stop_timer-returns n t steps d =
    let up : t.asleep ≡ false =
      detached-awake t.phase t d (Steps-Awake (started n) t (started-Awake n) steps).timer in
    let (u, ticks, stop) = from_phase t.phase (request_stop t) d in
    (
      u,
      subst (λ b. Ticks (record (request_stop t) { asleep = b }) u) (sym up) ticks,
      join-stopped u u.phase stop,
    )
