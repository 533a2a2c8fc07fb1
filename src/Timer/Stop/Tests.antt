-- ===== src/Timer/Stop/Tests.antt =====
-- Two devices that are detached, the second while the timer sleeps at the first.
use operating_systems_simula.Prelude.{zero, suc, ◌≡◌, refl, true, none, some, [], ◌∷◌, arith}
use operating_systems_simula.Timer.{
  Timer, collect, no_device, attach_event, attach_before, is_at, signal_event, detach_event,
  timer_step, request_stop, join_timer,
}
use operating_systems_simula.Timer.Lockstep.{Steps, here, more, ticks, detaches}
use operating_systems_simula.Timer.Sleep.{AllDetached}
use operating_systems_simula.Timer.Progress.{attached, started}
use operating_systems_simula.Timer.Ticks.{Ticks}
use operating_systems_simula.Timer.Stop.{stop_timer-returns}

abbrev one_detached : Timer
one_detached = detach_event (started 2) 1

abbrev begun : Timer
begun = record one_detached { phase = collect 0 0 0 }

abbrev sleeping : Timer
sleeping = record begun { asleep = true }

abbrev two_detached : Timer
two_detached = detach_event sleeping 0

two_detached-Steps : Steps (started 2) two_detached
unfolding attached attach_event is_at signal_event detach_event timer_step
two_detached-Steps = more (started 2) one_detached two_detached (detaches 1 (omega arith) refl) (
    more one_detached begun two_detached (ticks begun refl refl) (
      more begun sleeping two_detached (ticks sleeping refl refl) (
        more sleeping two_detached two_detached (detaches 0 (omega arith) refl)
          (here two_detached))))

two-AllDetached : AllDetached two_detached
unfolding AllDetached attached attach_event is_at signal_event detach_event
two-AllDetached zero h = refl
two-AllDetached (suc zero) h = refl
two-AllDetached (suc (suc i)) h = absurd (omega (arith, h))

stop_timer-returns_example :
    (u : Timer) × Ticks (request_stop two_detached) u
    × (join_timer u u.phase ≡ some (record u { devices = [] }))
stop_timer-returns_example = stop_timer-returns 2 two_detached two_detached-Steps two-AllDetached

late_attach : attach_before true (no_device ∷ []) ≡ none
unfolding attach_before
late_attach = refl
