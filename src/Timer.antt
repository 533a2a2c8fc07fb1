-- ===== src/Timer.antt =====
-- src/timer.c and include/timer.h: the timer thread and the threads that wait for it, the devices. A
-- step is what a thread does between taking a lock and giving it back or waiting on its condition. A
-- thread that waits sleeps until its condition is signalled, and then tests again what it waits for.
pub mod Lockstep
pub mod Rounds
pub mod Sleep
pub mod Routine
pub mod Awake
pub mod Goes
pub mod Progress
pub mod Ticks
pub mod Stop
mod Tests
use operating_systems_simula.Prelude.{
  ℕ, zero, suc, ◌+◌, ◌%◌, ◌^◌, Bool, true, false, ◌||◌, ◌&&◌, not, Option, none, some, List, [],
  ◌∷◌, ltb, ◌==◌, if◌then◌else◌, length, get_or, set,
}

-- Where the thread of a device is: outside `next_slot`, in its wait, or behind `detach_event`.
pub data Thread : Type 0 where
  running waiting finished : Thread

-- `struct timer_id_t`, with the thread that owns it, whether that thread sleeps on `timer_cond`, and the
-- number of its `next_slot` that are over.
pub record Device : Type 0 where
  pub done : Bool
  pub fsh : Bool
  pub asleep : Bool
  pub thread : Thread
  pub slots : ℕ

-- Where `timer_routine` is: at the test of `timer_stop`, at device `k` of the first loop, with the counts
-- so far, at device `k` of the second, or at its end.
pub data Phase : Type 0 where
  begin : Phase
  collect : (k fsh event : ℕ) → Phase
  release : (k fsh event : ℕ) → Phase
  stopped : Phase

-- `rounds` is how often `_time` was counted up: `_time` itself is the `uint64_t` of `current_time`. When
-- `asleep`, the timer thread sleeps on the `event_cond` of the device that it is at.
pub record Timer : Type 0 where
  pub devices : List Device
  pub rounds : ℕ
  pub timer_stop : Bool
  pub asleep : Bool
  pub phase : Phase

unfoldable pub current_time : Timer → ℕ
current_time t = t.rounds % 2 ^ 64

abbrev pub no_device : Device
no_device = record { done = false; fsh = false; asleep = false; thread = finished; slots = 0 }

abbrev pub device : Timer → ℕ → Device
device t k = get_or t.devices k no_device

abbrev pub put_device : Timer → ℕ → Device → Timer
put_device t k d = record t { devices = set t.devices k d }

-- `attach_event`, before the timer is started: the new device stands first.
unfoldable pub attach_event : List Device → List Device
attach_event devices =
    record { done = false; fsh = false; asleep = false; thread = running; slots = 0 } ∷ devices

-- The whole of `attach_event`: once the timer is started it returns NULL and changes nothing.
unfoldable pub attach_before : Bool → List Device → Option (List Device)
unfolding attach_event
attach_before timer_started devices = if timer_started then none else some (attach_event devices)

-- The timer thread starts with the attached devices, before its first round.
unfoldable pub start_timer : List Device → Timer
start_timer devices = record {
  devices = devices;
  rounds = 0;
  timer_stop = false;
  asleep = false;
  phase = begin;
}

unfoldable pub is_at : ℕ → Phase → Bool
is_at i begin = false
is_at i (collect k fsh event) = k == i
is_at i (release k fsh event) = false
is_at i stopped = false

-- `pthread_cond_signal(&timer_id->event_cond)` for device `i`: only the timer thread sleeps on it.
unfoldable pub signal_event : Timer → ℕ → Timer
unfolding is_at
signal_event t i = record t { asleep = t.asleep && not (is_at i t.phase) }

-- `next_slot` of device `i` up to its wait.
unfoldable pub next_slot : Timer → ℕ → Timer
unfolding signal_event
next_slot t i =
    signal_event (put_device t i (record (device t i) { done = true; thread = waiting })) i

-- A test of the wait: the thread goes to sleep, or `next_slot` is over.
unfoldable pub next_slot_over : Device → Device
next_slot_over d =
    if d.done
    then record d { asleep = true }
    else record d { thread = running; slots = d.slots + 1 }

unfoldable pub detach_event : Timer → ℕ → Timer
unfolding signal_event
detach_event t i =
    signal_event (put_device t i (record (device t i) { fsh = true; thread = finished })) i

abbrev pub count : Bool → ℕ → ℕ
count true n = n + 1
count false n = n

-- The second loop at a device: it takes back the mark, and signals `timer_cond`.
unfoldable pub let_go : Device → Device
let_go d = record d { done = false; asleep = false }

-- One step of `timer_routine` when its thread is awake. `none`: it has ended.
unfoldable pub timer_step : Timer → Phase → Option Timer
unfolding let_go
timer_step t begin =
    if t.timer_stop
    then some (record t { phase = stopped })
    else some (record t { phase = collect 0 0 0 })
timer_step t (collect k fsh event) =
    if ltb k (length t.devices)
    then (if (device t k).done || (device t k).fsh
        then some (record t { phase = collect (k + 1) (count (device t k).fsh fsh) (event + 1) })
        else some (record t { asleep = true }))
    else some (record t { rounds = t.rounds + 1; phase = release 0 fsh event })
timer_step t (release k fsh event) =
    if ltb k (length t.devices)
    then some (record (put_device t k (let_go (device t k))) { phase = release (k + 1) fsh event })
    else if fsh == event
    then some (record t { phase = stopped })
    else some (record t { phase = begin })
timer_step t stopped = none

-- `timer_stop = 1;` of `stop_timer`.
unfoldable pub request_stop : Timer → Timer
request_stop t = record t { timer_stop = true }

-- `while (dev_list != NULL)`: each turn frees the first device.
unfoldable pub free_devices : List Device → List Device
free_devices [] = []
free_devices (d ∷ devices) = free_devices devices

-- The rest of `stop_timer`, from the join of the timer thread on. `none`: it waits for that thread.
unfoldable pub join_timer : Timer → Phase → Option Timer
unfolding free_devices
join_timer t stopped = some (record t { devices = free_devices t.devices })
join_timer t begin = none
join_timer t (collect k fsh event) = none
join_timer t (release k fsh event) = none
