-- ===== src/Race/Alone.antt =====
-- A call of `get_mlq_proc` with no other thread in between does what `get_mlq_proc` of Sched does.
use mathlib.Core.Option.{some-injective}
use operating_systems_simula.Prelude.{
  ℕ, zero, suc, ◌+◌, ◌-◌, ◌≡◌, refl, sym, subst, inl, inr, Bool, true, false, ◌&&◌, Option, some,
  arith, ltb, ◌==◌, if◌then◌else◌, Bool-cases, ◌<◌, not, lt→ltb, le→ltb,
}
use operating_systems_simula.Queue.{Ptr, null, empty}
use operating_systems_simula.Sched.{
  max_prio, Sched, level, queue_empty, reset_slot, dispatch, turn, Turn, leave, go_on, select_loop,
  search_fuel, get_mlq_proc,
}
use operating_systems_simula.Sched.Levels.{IsSched, all_empty-true, Least-waiting}
use operating_systems_simula.Sched.Dispatch.{get_mlq_proc-Outcome}
use operating_systems_simula.Race.{
  At, scanning, checking, deciding, taking, resetting, back, call_step,
}

-- Any number of steps of one call.
pub data Alone : Sched × At → Sched × At → Type 0 where
  stay : (x : Sched × At) → Alone x x
  next : (s : Sched) (a : At) (y : Sched × At) → Alone (call_step s a) y → Alone (s, a) y

Alone-trans : (x y z : Sched × At) → Alone x y → Alone y z → Alone x z
Alone-trans x y z (stay u) q = q
Alone-trans x y z (next s a u p) q = next s a z (Alone-trans (call_step s a) u z p q)

-- One step whose result is known.
one : (s : Sched) (a : At) (y z : Sched × At) → call_step s a ≡ y → Alone y z → Alone (s, a) z
one s a y z e p = next s a z (subst (λ w. Alone w z) (sym e) p)

-- What a turn of the loop of Sched comes to.
after_turn : Turn → Sched × At
after_turn (leave out) = (out.1, back out.0)
after_turn (go_on k s) = (s, checking k)

turn-Alone :
    (k : ℕ) (s : Sched) → ltb k max_prio ≡ true → Alone (s, checking k) (after_turn (turn k s))
unfolding turn call_step after_turn
turn-Alone k s b = elim (Bool-cases (empty (level s k))) [
  | inl none_waits ↦
      let out : Sched × At = (if k == max_prio - 1 then reset_slot s else s, checking (k + 1)) in
      rw none_waits (one s (checking k) out out (rw (b, none_waits) refl) (stay out))
  | inr waits ↦
      one s (checking k) (s, deciding k) (after_turn (turn k s)) (rw (b, waits) refl)
        (elim (Bool-cases (ltb 0 (level s k).slot)) [
          | inl left ↦
              let out : Sched × At = ((dispatch s k).1, back (dispatch s k).0) in
              rw (waits, left)
                (one s (deciding k) (s, taking k) out (rw left refl)
                  (one s (taking k) out out refl (stay out)))
          | inr spent ↦ elim (Bool-cases (k == max_prio - 1)) [
            | inl last ↦
                let out : Sched × At = (reset_slot s, checking (0 + 1)) in
                rw (waits, spent, last)
                  (one s (deciding k) (s, resetting) out (rw (spent, last) refl)
                    (one s resetting out out refl (stay out)))
            | inr more ↦
                let out : Sched × At = (s, checking (k + 1)) in
                rw (waits, spent, more)
                  (one s (deciding k) out out (rw (spent, more) refl) (stay out))
          ]
        ])
]

select_loop-Alone :
    (fuel k : ℕ) (s : Sched) (out : Ptr × Sched)
    → select_loop fuel k s ≡ some out
    → Alone (s, checking k) (out.1, back out.0)
unfolding select_loop call_step after_turn
select_loop-Alone zero k s out e = absurd cc
select_loop-Alone (suc fuel) k s out e = elim (Bool-cases (ltb k max_prio)) [
  | inr over ↦
      let same : (null, s) ≡ out =
        some-injective _ _ (subst (λ o. o ≡ some out) (rw (over, select_loop) refl) e) in
      one s (checking k) (s, back null) _ (rw over refl)
        (subst (λ o. Alone (s, back null) (o.1, back o.0)) same (stay (s, back null)))
  | inl b ↦
      let first = turn-Alone k s b in
      Alone-trans (s, checking k) (after_turn (turn k s)) (out.1, back out.0) first
        (rest (λ k' s' h. select_loop-Alone fuel k' s' out h) (turn k s)
          (subst (λ o. o ≡ some out) (rw (b, select_loop) refl) e))
]
  where
    rest :
        ((k' : ℕ) (s' : Sched)
          → select_loop fuel k' s' ≡ some out
          → Alone (s', checking k') (out.1, back out.0))
        → (t : Turn)
        → ◌≡◌ {A = Option (Ptr × Sched)}
            (elim t [ leave o ↦ some o | go_on k' s' ↦ select_loop fuel k' s' ])
            (some out)
        → Alone (after_turn t) (out.1, back out.0)
    rest more (leave o) h =
        subst (λ r. Alone (o.1, back o.0) (r.1, back r.0)) (some-injective _ _ h)
          (stay (o.1, back o.0))
    rest more (go_on k' s') h = more k' s' h

-- The loop of `queue_empty`, up to the first level that has a process, or over all of them.
scan_to :
    (n k : ℕ) (s : Sched) (l : ℕ)
    → k + n ≡ l
    → l < max_prio
    → ((j : ℕ) → j < l → empty (level s j) ≡ true)
    → empty (level s l) ≡ false
    → Alone (s, scanning k) (s, checking 0)
unfolding call_step
scan_to zero k s l e b before at =
    let here : k ≡ l = omega arith in
    one s (scanning k) (s, checking 0) (s, checking 0) (rw (here, lt→ltb l max_prio b, at) refl)
      (stay (s, checking 0))
scan_to (suc n) k s l e b before at =
    one s (scanning k) (s, scanning (k + 1)) (s, checking 0)
      (rw (lt→ltb k max_prio (omega arith), before k (omega arith)) refl)
      (scan_to n (k + 1) s l (omega arith) b before at)

scan_all :
    (n k : ℕ) (s : Sched)
    → k + n ≡ max_prio
    → ((j : ℕ) → empty (level s j) ≡ true)
    → (empty s.ready_queue && empty s.run_queue) ≡ true
    → Alone (s, scanning k) (s, back null)
unfolding call_step
scan_all zero k s e all rest =
    one s (scanning k) (s, back null) (s, back null)
      (rw (le→ltb k max_prio (omega arith), rest) refl) (stay (s, back null))
scan_all (suc n) k s e all rest =
    one s (scanning k) (s, scanning (k + 1)) (s, back null)
      (rw (lt→ltb k max_prio (omega arith), all k) refl)
      (scan_all n (k + 1) s (omega arith) all rest)

-- With no other thread in between a call comes back, with the process and the queues that `get_mlq_proc`
-- of Sched gives.
pub get_mlq_proc-Alone :
    (s : Sched)
    → IsSched s
    → (out : Ptr × Sched) × (get_mlq_proc s ≡ some out) × Alone (s, scanning 0) (out.1, back out.0)
unfolding get_mlq_proc queue_empty
get_mlq_proc-Alone s v = elim (Bool-cases (queue_empty s)) [
  | inl e ↦ (
    (null, s),
    rw e refl,
    scan_all max_prio 0 s (omega arith) (λ j. all_empty-true j s.mlq_ready_queue (ground arith))
        (ground arith),
  )
  | inr e ↦
      let (out, got, _) = get_mlq_proc-Outcome s v in
      let l = Least-waiting s v e in
      let found : select_loop search_fuel 0 s ≡ some out =
        subst (λ o. o ≡ some out) (rw e refl) got in
      (
        out,
        got,
        Alone-trans (s, scanning 0) (s, checking 0) (out.1, back out.0)
            (scan_to l.at 0 s l.at (omega arith) l.below
              (λ j b. not-false (l.first j (omega arith) b)) (ground (arith, l.passes)))
            (select_loop-Alone search_fuel 0 s out found),
      )
]
  where
    not-false : {b : Bool} → not b ≡ false → b ≡ true
    not-false {b} h = ground arith
