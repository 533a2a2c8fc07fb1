-- ===== src/Timer/Ticks.antt =====
-- `timer_routine` of src/timer.c to its end, when all devices are detached.
use operating_systems_simula.Prelude.{
  ℕ, zero, suc, ◌+◌, ◌≤◌, ◌<◌, ◌≡◌, refl, inl, inr, Bool, true, false, ◌||◌, some, arith, ltb, ◌==◌,
  length, length-set, get_or-set_self, get_or-set_ne, lt→ltb, le→ltb, eq→==, Bool-cases, ℕ_discrete,
}
use operating_systems_simula.Timer.{
  Phase, begin, collect, release, stopped, Timer, no_device, device, put_device, let_go, timer_step,
}
use operating_systems_simula.Timer.Sleep.{AllDetached}

-- Steps of the timer thread alone, which never sleeps before one.
pub data Ticks : Timer → Timer → Type 0 where
  here : (t : Timer) → Ticks t t
  tick : (t u v : Timer) → t.asleep ≡ false → timer_step t t.phase ≡ some u → Ticks u v → Ticks t v

Ticks-trans : (t u v : Timer) → Ticks t u → Ticks u v → Ticks t v
Ticks-trans t u v (here s) q = q
Ticks-trans t u v (tick s m w up e p) q = tick s m v up e (Ticks-trans m w v p q)

abbrev in_phase : Timer → Phase → Timer
in_phase t ph = record t { phase = ph; asleep = false }

-- A detached device is counted in both counts, and is not waited for.
collect_step :
    (t : Timer) (k fsh event : ℕ)
    → k < length t.devices
    → AllDetached t
    → timer_step (in_phase t (collect k fsh event)) (collect k fsh event)
      ≡ some (in_phase t (collect (k + 1) (fsh + 1) (event + 1)))
unfolding timer_step AllDetached
collect_step t k fsh event h d =
    rw (lt→ltb k (length t.devices) h, d k h, or_true (device t k).done) refl
  where
    or_true : (b : Bool) → (b || true) ≡ true
    or_true true = refl
    or_true false = refl

-- The first loop of a round from device `k` on.
collects :
    (n k fsh event : ℕ) (t : Timer)
    → length t.devices ≤ k + n
    → AllDetached t
    → (fsh' : ℕ) × (event' : ℕ) × Ticks
        (in_phase t (collect k fsh event))
        (in_phase (record t { rounds = t.rounds + 1 }) (release 0 fsh' event'))
      × (fsh ≡ event → fsh' ≡ event')
unfolding timer_step
collects zero k fsh event t h d = (
  fsh,
  event,
  tick (in_phase t (collect k fsh event)) _ _ refl
      (rw (le→ltb k (length t.devices) (omega arith)) refl) (here _),
  λ e. e,
)
collects (suc n) k fsh event t h d = elim (Bool-cases (ltb k (length t.devices))) [
  | inr past ↦
      (fsh, event, tick (in_phase t (collect k fsh event)) _ _ refl (rw past refl) (here _), λ e. e)
  | inl inside ↦
      let (fsh', event', ticks, same) =
        collects n (k + 1) (fsh + 1) (event + 1) t (omega arith) d in
      (
        fsh',
        event',
        tick (in_phase t (collect k fsh event)) (in_phase t (collect (k + 1) (fsh + 1) (event + 1)))
            _ refl (collect_step t k fsh event (ground arith) d) ticks,
        λ e. same (omega (arith, e)),
      )
]

AllDetached-put :
    (t : Timer) (k : ℕ)
    → k < length t.devices
    → AllDetached t
    → AllDetached (put_device t k (let_go (device t k)))
unfolding AllDetached let_go
AllDetached-put t k h d i below = elim (ℕ_discrete k i) [
  | yes e ↦ rw (← e) (rw (get_or-set_self t.devices k (let_go (device t k)) no_device h) (d k h))
  | no ne ↦
      rw (get_or-set_ne t.devices k i (let_go (device t k)) no_device ne)
        (d i (omega (arith, below, length-set t.devices k (let_go (device t k)))))
]

-- The second loop takes back the marks, and leaves every device detached.
releases :
    (n k fsh event : ℕ) (t : Timer)
    → length t.devices ≤ k + n
    → AllDetached t
    → (u : Timer) × (k' : ℕ) × Ticks
        (in_phase t (release k fsh event))
        (in_phase u (release k' fsh event))
      × (length u.devices ≤ k')
      × AllDetached u
unfolding timer_step let_go
releases zero k fsh event t h d = (t, k, here _, omega arith, d)
releases (suc n) k fsh event t h d = elim (Bool-cases (ltb k (length t.devices))) [
  | inr past ↦ (t, k, here _, ground arith, d)
  | inl inside ↦
      let t' : Timer = put_device t k (let_go (device t k)) in
      let (u, k', ticks, end, all) =
        releases n (k + 1) fsh event t'
          (omega (arith, length-set t.devices k (let_go (device t k))))
          (AllDetached-put t k (ground arith) d) in
      (
        u,
        k',
        tick (in_phase t (release k fsh event)) (in_phase t' (release (k + 1) fsh event)) _ refl
            (rw inside refl) ticks,
        end,
        all,
      )
]

-- The end of a round in which all devices were counted as detached.
release_ends :
    (fsh event : ℕ) (t : Timer)
    → AllDetached t
    → fsh ≡ event
    → (u : Timer) × Ticks (in_phase t (release 0 fsh event)) u × (u.phase ≡ stopped)
unfolding timer_step
release_ends fsh event t d e =
    let (u, k, ticks, end, all) = releases (length t.devices) 0 fsh event t (omega arith) d in
    (
      in_phase u stopped,
      Ticks-trans _ _ _ ticks (
          tick (in_phase u (release k fsh event)) (in_phase u stopped) _ refl
            (rw (le→ltb k (length u.devices) end, eq→== fsh event e) refl) (here _)),
      refl,
    )

round_ends :
    (t : Timer)
    → AllDetached t
    → (u : Timer) × Ticks (in_phase t (collect 0 0 0)) u × (u.phase ≡ stopped)
unfolding AllDetached
round_ends t d =
    let (fsh, event, ticks, same) = collects (length t.devices) 0 0 0 t (omega arith) d in
    let (u, more, end) =
      release_ends fsh event (record t { rounds = t.rounds + 1 }) d (same refl) in
    (u, Ticks-trans _ _ _ ticks more, end)

-- From the test of `timer_stop` on.
begin_ends :
    (t : Timer) → AllDetached t → (u : Timer) × Ticks (in_phase t begin) u × (u.phase ≡ stopped)
unfolding timer_step
begin_ends t d = elim (Bool-cases t.timer_stop) [
  | inl asked ↦ (
    in_phase t stopped,
    tick (in_phase t begin) (in_phase t stopped) _ refl (rw asked refl) (here _),
    refl,
  )
  | inr on ↦
      let (u, more, stop) = round_ends t d in
      (u, tick (in_phase t begin) (in_phase t (collect 0 0 0)) _ refl (rw on refl) more, stop)
]

-- The end of a round that was begun before.
begun_ends :
    (k fsh event : ℕ) (t : Timer)
    → AllDetached t
    → (u : Timer) × Ticks (in_phase t (release k fsh event)) u × (u.phase ≡ stopped)
unfolding timer_step
begun_ends k fsh event t d =
    let (v, k', ticks, end, all) = releases (length t.devices) k fsh event t (omega arith) d in
    let past = le→ltb k' (length v.devices) end in
    elim (Bool-cases (fsh == event)) [
      | inl over ↦ (
        in_phase v stopped,
        Ticks-trans _ _ _ ticks (
            tick (in_phase v (release k' fsh event)) (in_phase v stopped) _ refl
              (rw (past, over) refl) (here _)),
        refl,
      )
      | inr again ↦
          let (u, more, stop) = begin_ends v all in
          (
            u,
            Ticks-trans _ _ _ ticks (
                tick (in_phase v (release k' fsh event)) (in_phase v begin) _ refl
                  (rw (past, again) refl) more),
            stop,
          )
    ]

pub from_phase :
    (ph : Phase) (t : Timer)
    → AllDetached t
    → (u : Timer) × Ticks (in_phase t ph) u × (u.phase ≡ stopped)
unfolding AllDetached
from_phase begin t d = begin_ends t d
from_phase stopped t d = (in_phase t stopped, here _, refl)
from_phase (release k fsh event) t d = begun_ends k fsh event t d
from_phase (collect k fsh event) t d =
    let (fsh', event', ticks, same) = collects (length t.devices) k fsh event t (omega arith) d in
    let (u, more, stop) = begun_ends 0 fsh' event' (record t { rounds = t.rounds + 1 }) d in
    (u, Ticks-trans _ _ _ ticks more, stop)
