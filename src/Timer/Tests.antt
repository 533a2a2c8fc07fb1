-- ===== src/Timer/Tests.antt =====
-- Two devices, and the theorems on the timer at inputs that meet the hypotheses.
use operating_systems_simula.Prelude.{
  ℕ, ◌+◌, ◌≤◌, ◌<◌, ◌^◌, ◌≡◌, refl, ◌⊎◌, true, false, some, arith, length,
}
use operating_systems_simula.Timer.{
  Timer, collect, stopped, device, put_device, attach_event, is_at, signal_event, next_slot,
  next_slot_over, timer_step, current_time,
}
use operating_systems_simula.Timer.Lockstep.{ticks, calls, returns, Steps, here, more}
use operating_systems_simula.Timer.Sleep.{AllDetached}
use operating_systems_simula.Timer.Goes.{CanGo}
use operating_systems_simula.Timer.Progress.{attached, started, Steps-lockstep, Steps-progress}

-- The timer begins its first round and sleeps at device 0.
abbrev begun : Timer
begun = record (started 2) { phase = collect 0 0 0 }

abbrev sleeping : Timer
sleeping = record begun { asleep = true }

-- Device 0 calls `next_slot`, which wakes the timer, and goes to sleep; the timer goes on to device 1.
abbrev one_called : Timer
one_called = next_slot sleeping 0

abbrev one_sleeps : Timer
one_sleeps = put_device one_called 0 (next_slot_over (device one_called 0))

abbrev one_collected : Timer
one_collected = record one_sleeps { phase = collect 1 0 1 }

first-Steps : Steps (started 2) one_collected
unfolding attached attach_event is_at signal_event next_slot next_slot_over timer_step
first-Steps = more (started 2) begun one_collected (ticks begun refl refl) (
    more begun sleeping one_collected (ticks sleeping refl refl) (
      more sleeping one_called one_collected (calls 0 (omega arith) refl) (
        more one_called one_sleeps one_collected (returns 0 (omega arith) refl refl) (
          more one_sleeps one_collected one_collected (ticks one_collected refl refl)
            (here one_collected)))))

Steps-lockstep_example :
    ((device one_collected 0).slots ≤ one_collected.rounds)
    × (one_collected.rounds ≤ (device one_collected 0).slots + 1)
    × ((device one_collected 0).slots ≤ (device one_collected 1).slots + 1)
unfolding attached attach_event is_at signal_event next_slot next_slot_over
Steps-lockstep_example =
    Steps-lockstep 2 one_collected 0 1 first-Steps (omega arith) (omega arith) (λ e. cc) (λ e. cc)

Steps-progress_example :
    ((one_collected.phase ≡ stopped)
      × ((one_collected.timer_stop ≡ true) ⊎ AllDetached one_collected))
    ⊎ ((t' : Timer) × (one_collected.asleep ≡ false)
        × (timer_step one_collected one_collected.phase ≡ some t')
        × (t'.asleep ≡ false))
    ⊎ ((k : ℕ) × (k < length one_collected.devices) × CanGo (device one_collected k))
Steps-progress_example = Steps-progress 2 one_collected first-Steps

-- `_time` starts again at 0.
time_wraps : current_time (record begun { rounds = 2 ^ 64 + 3 }) ≡ 3
unfolding current_time
time_wraps = refl
