-- ===== src/Timer/Sleep.antt =====
-- When the threads of src/timer.c sleep: no signal that a thread waits for is lost.
use operating_systems_simula.Prelude.{
  ℕ, ◌≤◌, ◌<◌, ◌≡◌, refl, sym, subst, ◌⊎◌, inl, inr, Bool, true, false, ◌&&◌, not, List, arith,
  ◌==◌, length, get_or, set, length-set, get_or-set_self, get_or-set_ne, ℕ_discrete, eq→==,
}
use operating_systems_simula.Timer.{
  waiting, Device, Phase, begin, collect, release, stopped, Timer, no_device, device, is_at,
}

-- The timer thread sleeps only at a device that it must wait for.
unfoldable pub TimerSleeps : Phase → Bool → List Device → Type 0
TimerSleeps begin asleep ds = asleep ≡ false
TimerSleeps (collect k fsh event) asleep ds =
    asleep ≡ true
    → (k < length ds)
      × ((get_or ds k no_device).done ≡ false)
      × ((get_or ds k no_device).fsh ≡ false)
TimerSleeps (release k fsh event) asleep ds = asleep ≡ false
TimerSleeps stopped asleep ds = asleep ≡ false

-- The thread of a device sleeps only in `next_slot`, while the device is done.
unfoldable pub DeviceSleeps : Device → Type 0
DeviceSleeps d = d.asleep ≡ true → (d.thread ≡ waiting) × (d.done ≡ true)

-- The first loop has counted as many as it has seen, and as finished those only that are detached: all
-- that it has seen, when the two counts agree.
unfoldable pub Counts : Phase → Bool → List Device → Type 0
Counts begin asked ds = Unit {0}
Counts (collect k fsh event) asked ds =
    (fsh ≤ event)
    × (fsh ≡ event → (i : ℕ) → i < k → i < length ds → (get_or ds i no_device).fsh ≡ true)
Counts (release k fsh event) asked ds =
    fsh ≡ event → (i : ℕ) → i < length ds → (get_or ds i no_device).fsh ≡ true
Counts stopped asked ds =
    (asked ≡ true) ⊎ ((i : ℕ) → i < length ds → (get_or ds i no_device).fsh ≡ true)

-- Every device is detached.
unfoldable pub AllDetached : Timer → Type 0
AllDetached t = (i : ℕ) → i < length t.devices → (device t i).fsh ≡ true

pub record Awake (t : Timer) : Type 0 where
  pub timer : TimerSleeps t.phase t.asleep t.devices
  pub devices : (i : ℕ) → i < length t.devices → DeviceSleeps (device t i)
  pub counts : Counts t.phase t.timer_stop t.devices

pub awake-TimerSleeps :
    (ph : Phase) (asleep : Bool) (ds : List Device) → asleep ≡ false → TimerSleeps ph asleep ds
unfolding TimerSleeps
awake-TimerSleeps begin asleep ds e = e
awake-TimerSleeps (collect k fsh event) asleep ds e = λ h. absurd cc
awake-TimerSleeps (release k fsh event) asleep ds e = e
awake-TimerSleeps stopped asleep ds e = e

-- The signal reaches the timer if it sleeps at the device that changes.
pub signal-TimerSleeps :
    (ph : Phase) (asleep : Bool) (ds : List Device) (i : ℕ) (d : Device)
    → TimerSleeps ph asleep ds
    → TimerSleeps ph (asleep && not (is_at i ph)) (set ds i d)
unfolding TimerSleeps is_at
signal-TimerSleeps begin asleep ds i d e = rw e refl
signal-TimerSleeps (collect k fsh event) false ds i d s = λ h. absurd cc
signal-TimerSleeps (collect k fsh event) true ds i d s = λ h. elim (ℕ_discrete i k) [
  | yes e ↦ absurd (at_it (k == i) (eq→== k i (sym e)) h)
  | no ne ↦
      let (below, done, fsh) = s refl in
      (
        omega (arith, below, length-set ds i d),
        rw (get_or-set_ne ds i k d no_device ne) done,
        rw (get_or-set_ne ds i k d no_device ne) fsh,
      )
]
  where
    at_it : (b : Bool) → b ≡ true → (true && not b) ≡ true → ⊥
    at_it true e h = cc
    at_it false e h = cc
signal-TimerSleeps (release k fsh event) asleep ds i d e = rw e refl
signal-TimerSleeps stopped asleep ds i d e = rw e refl

-- A device changes that stays done or not, and detached or not.
pub put-TimerSleeps :
    (ph : Phase) (asleep : Bool) (ds : List Device) (i : ℕ) (d : Device)
    → i < length ds
    → ((get_or ds i no_device).done ≡ false → d.done ≡ false)
    → d.fsh ≡ (get_or ds i no_device).fsh
    → TimerSleeps ph asleep ds
    → TimerSleeps ph asleep (set ds i d)
unfolding TimerSleeps
put-TimerSleeps begin asleep ds i d b done fsh s = s
put-TimerSleeps (collect k f event) asleep ds i d b done fsh s = λ h.
    let (below, undone, unfinished) = s h in
    elim (ℕ_discrete i k) [
      | yes e ↦ (
        omega (arith, below, length-set ds i d),
        subst (λ j. (get_or (set ds i d) j no_device).done ≡ false) e
            (rw (get_or-set_self ds i d no_device b) (done (rw e undone))),
        subst (λ j. (get_or (set ds i d) j no_device).fsh ≡ false) e
            (rw (get_or-set_self ds i d no_device b) (rw (fsh, e) unfinished)),
      )
      | no ne ↦ (
        omega (arith, below, length-set ds i d),
        rw (get_or-set_ne ds i k d no_device ne) undone,
        rw (get_or-set_ne ds i k d no_device ne) unfinished,
      )
    ]
put-TimerSleeps (release k f event) asleep ds i d b done fsh s = s
put-TimerSleeps stopped asleep ds i d b done fsh s = s

pub put-DeviceSleeps :
    (ds : List Device) (k : ℕ) (d : Device)
    → k < length ds
    → DeviceSleeps d
    → ((i : ℕ) → i < length ds → DeviceSleeps (get_or ds i no_device))
    → (i : ℕ) → i < length (set ds k d)
    → DeviceSleeps (get_or (set ds k d) i no_device)
put-DeviceSleeps ds k d b s v i bi = elim (ℕ_discrete k i) [
  | yes e ↦
      subst (λ j. DeviceSleeps (get_or (set ds k d) j no_device)) e
        (rw (get_or-set_self ds k d no_device b) s)
  | no ne ↦ rw (get_or-set_ne ds k i d no_device ne) (v i (omega (arith, bi, length-set ds k d)))
]

-- A device that is detached stays detached.
put-fsh :
    (ds : List Device) (k i : ℕ) (d : Device)
    → k < length ds
    → ((get_or ds k no_device).fsh ≡ true → d.fsh ≡ true)
    → (get_or ds i no_device).fsh ≡ true
    → (get_or (set ds k d) i no_device).fsh ≡ true
put-fsh ds k i d b keeps e = elim (ℕ_discrete k i) [
  | yes same ↦
      subst (λ j. (get_or (set ds k d) j no_device).fsh ≡ true) same
        (rw (get_or-set_self ds k d no_device b) (keeps (rw same e)))
  | no ne ↦ rw (get_or-set_ne ds k i d no_device ne) e
]

pub put-Counts :
    (ph : Phase) (asked : Bool) (ds : List Device) (k : ℕ) (d : Device)
    → k < length ds
    → ((get_or ds k no_device).fsh ≡ true → d.fsh ≡ true)
    → Counts ph asked ds
    → Counts ph asked (set ds k d)
unfolding Counts
put-Counts begin asked ds k d b keeps c = tt
put-Counts (collect n fsh event) asked ds k d b keeps c =
    (c.0, λ e i h bi. put-fsh ds k i d b keeps (c.1 e i h (omega (arith, bi, length-set ds k d))))
put-Counts (release n fsh event) asked ds k d b keeps c =
    λ e i bi. put-fsh ds k i d b keeps (c e i (omega (arith, bi, length-set ds k d)))
put-Counts stopped asked ds k d b keeps (inl e) = inl e
put-Counts stopped asked ds k d b keeps (inr all) =
    inr (λ i bi. put-fsh ds k i d b keeps (all i (omega (arith, bi, length-set ds k d))))
