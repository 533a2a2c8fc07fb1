-- ===== src/Timer/Rounds.antt =====
-- Each step of the timer and of a device keeps the devices in step.
use mathlib.Core.Option.{some-injective}
use operating_systems_simula.Prelude.{
  ℕ, Bool, ◌+◌, ◌<◌, ◌≡◌, refl, sym, subst, inl, inr, true, false, ◌||◌, some, arith, ltb, ◌==◌,
  length, get_or, set, length-set, get_or-set_self, get_or-set_ne, Bool-cases, ℕ_discrete,
}
use operating_systems_simula.Timer.{
  running, waiting, finished, Device, Phase, begin, collect, release, stopped, Timer, no_device,
  device, put_device, next_slot, next_slot_over, let_go, detach_event, timer_step, signal_event,
  request_stop, count,
}
use operating_systems_simula.Timer.Lockstep.{
  Step, ticks, calls, returns, detaches, stop_timer, timer_wakes, device_wakes, Steps, here, more,
  FreeAs, CollectedAs, Free, Collected, Fits, InStep, Free-Collected, Collected-Free,
  Free-next_slot, Free-over, Collected-ne-running, Collected-done,
}

-- A device that may not have been waited for yet changes.
Fits-change :
    (time : ℕ) (ph : Phase) (i : ℕ) (d d' : Device)
    → ((n : ℕ) → Free n d → Free n d')
    → ((n : ℕ) → ¬ Collected n d)
    → Fits time ph i d
    → Fits time ph i d'
unfolding Fits
Fits-change time begin i d d' f c h = f time h
Fits-change time (collect k fsh event) i d d' f c h =
    ((λ b. absurd (c time (h.0 b))), (λ b. f time (h.1 b)))
Fits-change time (release k fsh event) i d d' f c h =
    ((λ b. f time (h.0 b)), (λ b. let (n, e, g) = h.1 b in absurd (c n g)))
Fits-change time stopped i d d' f c h = f time h

put-InStep :
    (t : Timer) (k : ℕ) (d : Device)
    → k < length t.devices
    → InStep t
    → (Fits t.rounds t.phase k (device t k) → Fits t.rounds t.phase k d)
    → InStep (put_device t k d)
unfolding InStep
put-InStep t k d b v f i bi = elim (ℕ_discrete k i) [
  | yes e ↦
      subst (λ j. Fits t.rounds t.phase j (get_or (set t.devices k d) j no_device)) e
        (rw (get_or-set_self t.devices k d no_device b) (f (v k b)))
  | no ne ↦
      rw (get_or-set_ne t.devices k i d no_device ne)
        (v i (omega (arith, bi, length-set t.devices k d)))
]

collect-InStep :
    (t t' : Timer) (k fsh event : ℕ)
    → t.phase ≡ collect k fsh event
    → InStep t
    → timer_step t (collect k fsh event) ≡ some t'
    → InStep t'
unfolding timer_step InStep Fits
collect-InStep t t' k fsh event at v e = elim (Bool-cases (ltb k (length t.devices))) [
  | inl below ↦ elim (Bool-cases ((device t k).done || (device t k).fsh)) [
    | inl ready ↦
        let t₁ : Timer = record t {
          phase = collect (k + 1) (count (device t k).fsh fsh) (event + 1);
        } in
        let same : some t₁ ≡ some t' = subst (λ o. o ≡ some t') (rw (below, ready) refl) e in
        subst InStep (some-injective _ _ same) (λ i b.
          let f = fits i b in
          (
            λ h. elim (ℕ_discrete k i) [
              | yes eq ↦
                  let d = device t i in
                  Free-Collected t.rounds d.thread d.done d.fsh d.slots
                    (subst (λ j. ((device t j).done || (device t j).fsh) ≡ true) eq ready)
                    (f.1 (omega arith))
              | no ne ↦ f.0 (omega arith)
            ],
            λ h. f.1 (omega arith),
          ))
    | inr busy ↦
        let same : some (record t { asleep = true }) ≡ some t' =
          subst (λ o. o ≡ some t') (rw (below, busy) refl) e in
        subst InStep (some-injective _ _ same) v
  ]
  | inr over ↦
      let t₁ : Timer = record t { rounds = t.rounds + 1; phase = release 0 fsh event } in
      let same : some t₁ ≡ some t' = subst (λ o. o ≡ some t') (rw over refl) e in
      subst InStep (some-injective _ _ same) (λ i b.
        (λ h. absurd (omega (arith, h)), λ h. (t.rounds, refl, (fits i b).0 (ground arith))))
]
  where
    fits : (i : ℕ) → i < length t.devices → Fits t.rounds (collect k fsh event) i (device t i)
    fits i b = subst (λ ph. Fits t.rounds ph i (device t i)) at (v i b)

release-InStep :
    (t t' : Timer) (k fsh event : ℕ)
    → t.phase ≡ release k fsh event
    → InStep t
    → timer_step t (release k fsh event) ≡ some t'
    → InStep t'
unfolding timer_step let_go InStep Fits
release-InStep t t' k fsh event at v e = elim (Bool-cases (ltb k (length t.devices))) [
  | inl below ↦
      let d : Device = let_go (device t k) in
      let t₁ : Timer = record (put_device t k d) { phase = release (k + 1) fsh event } in
      let same : some t₁ ≡ some t' = subst (λ o. o ≡ some t') (rw below refl) e in
      let inside : k < length t.devices = ground arith in
      subst InStep (some-injective _ _ same) (λ i b. elim (ℕ_discrete k i) [
        | yes eq ↦
            let (n, next, c) = (fits k inside).1 (omega arith) in
            let free : Free t.rounds d =
              subst (λ m. Free m d) (sym next)
                (Collected-Free n d.thread (device t k).done d.fsh d.slots c) in
            subst
              (λ j.
                Fits t.rounds (release (k + 1) fsh event) j
                  (get_or (set t.devices k d) j no_device))
              eq
              (rw (get_or-set_self t.devices k d no_device inside)
                ((λ h. free), (λ h. absurd (omega (arith, h)))))
        | no ne ↦
            let f = fits i (omega (arith, b, length-set t.devices k d)) in
            rw (get_or-set_ne t.devices k i d no_device ne)
              ((λ h. f.0 (omega arith)), (λ h. f.1 (omega arith)))
      ])
  | inr over ↦ elim (Bool-cases (fsh == event)) [
    | inl ended ↦
        let t₁ : Timer = record t { phase = stopped } in
        let same : some t₁ ≡ some t' = subst (λ o. o ≡ some t') (rw (over, ended) refl) e in
        subst InStep (some-injective _ _ same) (λ i b. (fits i b).0 (ground arith))
    | inr on ↦
        let t₁ : Timer = record t { phase = begin } in
        let same : some t₁ ≡ some t' = subst (λ o. o ≡ some t') (rw (over, on) refl) e in
        subst InStep (some-injective _ _ same) (λ i b. (fits i b).0 (ground arith))
  ]
]
  where
    fits : (i : ℕ) → i < length t.devices → Fits t.rounds (release k fsh event) i (device t i)
    fits i b = subst (λ ph. Fits t.rounds ph i (device t i)) at (v i b)

begin-InStep :
    (t t' : Timer) → t.phase ≡ begin → InStep t → timer_step t begin ≡ some t' → InStep t'
unfolding timer_step InStep Fits
begin-InStep t t' at v e = elim (Bool-cases t.timer_stop) [
  | inl asked ↦
      let same : some (record t { phase = stopped }) ≡ some t' =
        subst (λ o. o ≡ some t') (rw asked refl) e in
      subst InStep (some-injective _ _ same) fits
  | inr on ↦
      let same : some (record t { phase = collect 0 0 0 }) ≡ some t' =
        subst (λ o. o ≡ some t') (rw on refl) e in
      subst InStep (some-injective _ _ same)
        (λ i b. ((λ h. absurd (omega (arith, h))), (λ h. fits i b)))
]
  where
    fits : (i : ℕ) → i < length t.devices → Fits t.rounds begin i (device t i)
    fits i b = subst (λ ph. Fits t.rounds ph i (device t i)) at (v i b)

timer_step-InStep :
    (t t' : Timer) (ph : Phase) → t.phase ≡ ph → InStep t → timer_step t ph ≡ some t' → InStep t'
unfolding timer_step
timer_step-InStep t t' begin at v e = begin-InStep t t' at v e
timer_step-InStep t t' (collect k fsh event) at v e = collect-InStep t t' k fsh event at v e
timer_step-InStep t t' (release k fsh event) at v e = release-InStep t t' k fsh event at v e
timer_step-InStep t t' stopped at v e = absurd cc

-- Whether the thread of a device sleeps is not looked at.
Fits-asleep :
    (time : ℕ) (ph : Phase) (i : ℕ) (d : Device) (asleep : Bool)
    → Fits time ph i d
    → Fits time ph i (record d { asleep = asleep })
unfolding Fits
Fits-asleep time begin i d asleep f = f
Fits-asleep time (collect k fsh event) i d asleep f = f
Fits-asleep time (release k fsh event) i d asleep f = f
Fits-asleep time stopped i d asleep f = f

over-InStep :
    (t : Timer) (i : ℕ)
    → i < length t.devices
    → (device t i).thread ≡ waiting
    → InStep t
    → InStep (put_device t i (next_slot_over (device t i)))
unfolding next_slot_over
over-InStep t i b w v = elim (Bool-cases (device t i).done) [
  | inl on ↦
      let d₁ : Device = record d₀ { asleep = true } in
      let e : d₁ ≡ next_slot_over d₀ = rw on refl in
      subst (λ d. InStep (put_device t i d)) e
        (put-InStep t i d₁ b v (Fits-asleep t.rounds t.phase i d₀ true))
  | inr off ↦
      let d₁ : Device = record d₀ { thread = running; slots = d₀.slots + 1 } in
      let e : d₁ ≡ next_slot_over d₀ = rw off refl in
      subst (λ d. InStep (put_device t i d)) e
        (put-InStep t i d₁ b v (
          Fits-change t.rounds t.phase i d₀ d₁
            (λ n f.
              subst (λ x. FreeAs n running x d₀.fsh (d₀.slots + 1)) (sym off)
                (Free-over n d₀.thread d₀.fsh d₀.slots w
                  (subst (λ x. FreeAs n d₀.thread x d₀.fsh d₀.slots) off f)))
            (λ n c.
              Collected-done n d₀.thread d₀.fsh d₀.slots
                (subst (λ x. CollectedAs n d₀.thread x d₀.fsh d₀.slots) off c) w)))
]
  where
    d₀ : Device
    d₀ = device t i

Step-InStep : (t t' : Timer) → InStep t → Step t t' → InStep t'
unfolding next_slot detach_event signal_event request_stop InStep FreeAs
Step-InStep t t' v (ticks u awake e) = timer_step-InStep t t' t.phase refl v e
Step-InStep t t' v (calls i b r) =
    let d : Device = device t i in
    put-InStep t i (record d { done = true; thread = waiting }) b v
      (Fits-change t.rounds t.phase i d _
        (λ n f. Free-next_slot n d.thread d.done d.fsh d.slots r f)
        (λ n c. Collected-ne-running n d.thread d.done d.fsh d.slots c r))
Step-InStep t t' v (returns i b w awake) = over-InStep t i b w v
Step-InStep t t' v (detaches i b r) =
    let d : Device = device t i in
    put-InStep t i (record d { fsh = true; thread = finished }) b v
      (Fits-change t.rounds t.phase i d _ (λ n f. refl)
        (λ n c. Collected-ne-running n d.thread d.done d.fsh d.slots c r))
Step-InStep t t' v stop_timer = v
Step-InStep t t' v timer_wakes = v
Step-InStep t t' v (device_wakes i b) =
    put-InStep t i (record (device t i) { asleep = false }) b v
      (Fits-asleep t.rounds t.phase i (device t i) false)

pub Steps-InStep : (t t' : Timer) → InStep t → Steps t t' → InStep t'
Steps-InStep t t' v (here u) = v
Steps-InStep t t' v (more u m w step steps) = Steps-InStep m t' (Step-InStep t m v step) steps
