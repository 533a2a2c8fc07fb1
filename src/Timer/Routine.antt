-- ===== src/Timer/Routine.antt =====
-- Each step of `timer_routine` of src/timer.c keeps what holds of the threads that sleep.
use mathlib.Core.Option.{some-injective}
use operating_systems_simula.Prelude.{
  ℕ, ◌+◌, ◌<◌, ◌≡◌, refl, sym, subst, inl, inr, Bool, true, false, ◌||◌, some, List, arith, ltb,
  ◌==◌, length, get_or, Bool-cases, ℕ_discrete, ==→eq,
}
use operating_systems_simula.Timer.{
  Device, Phase, begin, collect, release, stopped, Timer, no_device, device, put_device, let_go,
  timer_step, count,
}
use operating_systems_simula.Timer.Sleep.{
  TimerSleeps, DeviceSleeps, Counts, Awake, put-DeviceSleeps, put-Counts,
}

begin-Awake : (t t' : Timer) → t.asleep ≡ false → Awake t → timer_step t begin ≡ some t' → Awake t'
unfolding timer_step TimerSleeps Counts
begin-Awake t t' up v e = elim (Bool-cases t.timer_stop) [
  | inl asked ↦
      let same : some (record t { phase = stopped }) ≡ some t' =
        subst (λ o. o ≡ some t') (rw asked refl) e in
      subst Awake (some-injective _ _ same)
        (record { timer = up; devices = v.devices; counts = inl asked })
  | inr on ↦
      let same : some (record t { phase = collect 0 0 0 }) ≡ some t' =
        subst (λ o. o ≡ some t') (rw on refl) e in
      subst Awake (some-injective _ _ same) (record {
        timer = λ h. absurd cc;
        devices = v.devices;
        counts = (omega arith, λ e i below. absurd (omega (arith, below)));
      })
]

-- The counts after one more device.
counted :
    (ds : List Device) (k fsh event : ℕ) (f : Bool)
    → (get_or ds k no_device).fsh ≡ f
    → Counts (collect k fsh event) false ds
    → Counts (collect (k + 1) (count f fsh) (event + 1)) false ds
unfolding Counts
counted ds k fsh event true e c = (
  omega (arith, c.0),
  λ same i below b. elim (ℕ_discrete k i) [
    | yes at ↦ rw (← at) e
    | no ne ↦ c.1 (omega (arith, same)) i (omega (arith, below, ne)) b
  ],
)
counted ds k fsh event false e c = (omega (arith, c.0), λ same. absurd (omega (arith, same, c.0)))

collect-Awake :
    (t t' : Timer) (k fsh event : ℕ)
    → t.phase ≡ collect k fsh event
    → t.asleep ≡ false
    → Awake t
    → timer_step t (collect k fsh event) ≡ some t'
    → Awake t'
unfolding timer_step TimerSleeps Counts
collect-Awake t t' k fsh event at up v e = elim (Bool-cases (ltb k (length t.devices))) [
  | inl below ↦ elim (Bool-cases ((device t k).done || (device t k).fsh)) [
    | inl ready ↦
        let t₁ : Timer = record t {
          phase = collect (k + 1) (count (device t k).fsh fsh) (event + 1);
        } in
        let same : some t₁ ≡ some t' = subst (λ o. o ≡ some t') (rw (below, ready) refl) e in
        subst Awake (some-injective _ _ same) (record {
          timer = λ h. absurd cc;
          devices = v.devices;
          counts = counted t.devices k fsh event (device t k).fsh refl counts;
        })
    | inr busy ↦
        let same : some (record t { asleep = true }) ≡ some t' =
          subst (λ o. o ≡ some t') (rw (below, busy) refl) e in
        subst Awake (some-injective _ _ same) (record {
          timer =
              subst (λ ph. TimerSleeps ph true t.devices) (sym at)
                (λ h.
                  let n = neither (device t k).done (device t k).fsh busy in
                  (ground arith, n.0, n.1));
          devices = v.devices;
          counts = v.counts;
        })
  ]
  | inr over ↦
      let t₁ : Timer = record t { rounds = t.rounds + 1; phase = release 0 fsh event } in
      let same : some t₁ ≡ some t' = subst (λ o. o ≡ some t') (rw over refl) e in
      subst Awake (some-injective _ _ same) (record {
        timer = up;
        devices = v.devices;
        counts = λ e i b. counts.1 e i (ground (arith, b)) b;
      })
]
  where
    counts : Counts (collect k fsh event) false t.devices
    counts = subst (λ ph. Counts ph t.timer_stop t.devices) at v.counts

    neither : (done f : Bool) → (done || f) ≡ false → (done ≡ false) × (f ≡ false)
    neither true f e = absurd cc
    neither false f e = (refl, e)

release-Awake :
    (t t' : Timer) (k fsh event : ℕ)
    → t.phase ≡ release k fsh event
    → t.asleep ≡ false
    → Awake t
    → timer_step t (release k fsh event) ≡ some t'
    → Awake t'
unfolding timer_step let_go TimerSleeps DeviceSleeps Counts
release-Awake t t' k fsh event at up v e = elim (Bool-cases (ltb k (length t.devices))) [
  | inl below ↦
      let d : Device = let_go (device t k) in
      let t₁ : Timer = record (put_device t k d) { phase = release (k + 1) fsh event } in
      let same : some t₁ ≡ some t' = subst (λ o. o ≡ some t') (rw below refl) e in
      let inside : k < length t.devices = ground arith in
      subst Awake (some-injective _ _ same) (record {
        timer = up;
        devices = put-DeviceSleeps t.devices k d inside (λ h. absurd cc) v.devices;
        counts = put-Counts (release k fsh event) false t.devices k d inside (λ f. f) counts;
      })
  | inr over ↦ elim (Bool-cases (fsh == event)) [
    | inl ended ↦
        let same : some (record t { phase = stopped }) ≡ some t' =
          subst (λ o. o ≡ some t') (rw (over, ended) refl) e in
        subst Awake (some-injective _ _ same) (record {
          timer = up;
          devices = v.devices;
          counts = inr (counts (==→eq fsh event ended));
        })
    | inr on ↦
        let same : some (record t { phase = begin }) ≡ some t' =
          subst (λ o. o ≡ some t') (rw (over, on) refl) e in
        subst Awake (some-injective _ _ same)
          (record { timer = up; devices = v.devices; counts = tt })
  ]
]
  where
    counts : Counts (release k fsh event) false t.devices
    counts = subst (λ ph. Counts ph t.timer_stop t.devices) at v.counts

pub timer_step-Awake :
    (t t' : Timer) (ph : Phase)
    → t.phase ≡ ph
    → t.asleep ≡ false
    → Awake t
    → timer_step t ph ≡ some t'
    → Awake t'
unfolding timer_step
timer_step-Awake t t' begin at up v e = begin-Awake t t' up v e
timer_step-Awake t t' (collect k fsh event) at up v e = collect-Awake t t' k fsh event at up v e
timer_step-Awake t t' (release k fsh event) at up v e = release-Awake t t' k fsh event at up v e
timer_step-Awake t t' stopped at up v e = absurd cc
