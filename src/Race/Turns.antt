-- ===== src/Race/Turns.antt =====
-- What calls that overlap can do that calls in turn cannot.
use operating_systems_simula.Prelude.{
  ◌^◌, ℕ, ◌+◌, ◌-◌, ◌≡◌, refl, ◌∙◌, ap, subst, List, [], ◌∷◌, ◌++◌, ◌<◌, ◌≤◌, arith, lt→ltb,
}
use operating_systems_simula.Queue.{Ptr, Queue, dequeue}
use operating_systems_simula.Queue.Laws.{contents, dequeue-cons}
use operating_systems_simula.Sched.{max_prio, Sched, level, put_level, dispatch, less_one}
use operating_systems_simula.Sched.Levels.{IsSched, level-put_level_self}
use operating_systems_simula.Race.Queues.{IsQueues, IsSched-IsQueues, put_level-IsQueues}
use operating_systems_simula.Race.{At, deciding, taking, back, call_step}
use operating_systems_simula.Race.Calls.{Step, goes, Steps, here, more}

-- What a dispatch from a level with a process leaves there, whatever its slot.
record Taken (s t : Sched) (k : ℕ) (p : Ptr) : Type 0 where
  valid : IsQueues t
  taken : contents (level s k) ≡ p ∷ contents (level t k)
  size : (level t k).size + 1 ≡ (level s k).size
  slot : (level t k).slot ≡ less_one (level s k).slot

dispatch-Taken :
    (s : Sched) (k : ℕ)
    → IsQueues s
    → k < max_prio
    → 0 < (level s k).size
    → Taken s (dispatch s k).1 k (dispatch s k).0
unfolding dispatch
dispatch-Taken s k v b pos =
    let r : Queue = record ((dequeue (level s k)).1) {
      slot = less_one (dequeue (level s k)).1.slot;
    } in
    let (c, w, slots, sizes) = dequeue-cons (level s k) (v.queues k b) pos in
    let here : level (put_level s k r) k ≡ r = level-put_level_self s k r v.levels b in
    record {
      valid =
          put_level-IsQueues s k r v b (record { places = w.places; fits = w.fits }) (omega arith);
      taken = rw here c;
      size = rw here sizes;
      slot = rw here (ap less_one slots);
    }

-- The slot of a level is tested without the lock. Where two calls test it before either takes, both take
-- a process: a level with two processes and one turn left gives two, and its slot, which is charged
-- twice, goes below 0: it is then 2 ^ 32 - 1 turns.
pub Steps-over_budget :
    (s : Sched) (k : ℕ)
    → IsSched s
    → k < max_prio
    → 2 ≤ (level s k).size
    → (level s k).slot ≡ 1
    → (t : Sched) × (p : Ptr) × (q : Ptr) × Steps
        (record { sched = s; calls = deciding k ∷ deciding k ∷ [] })
        []
        []
        (record { sched = t; calls = back p ∷ back q ∷ [] })
      × (contents (level s k) ≡ p ∷ q ∷ contents (level t k))
      × ((level t k).slot ≡ 2 ^ 32 - 1)
unfolding call_step
Steps-over_budget s k v b two one =
    let a = dispatch-Taken s k (IsSched-IsQueues s v) b (omega (arith, two)) in
    let s₁ : Sched = (dispatch s k).1 in
    let c = dispatch-Taken s₁ k a.valid b (omega (arith, two, a.size)) in
    let pass : call_step s (deciding k) ≡ (s, taking k) =
      rw (lt→ltb 0 (level s k).slot (omega (arith, one))) refl in
    let p : Ptr = (dispatch s k).0 in
    let q : Ptr = (dispatch s₁ k).0 in
    let t : Sched = (dispatch s₁ k).1 in
    (
      t,
      p,
      q,
      more _ (record { sched = s; calls = taking k ∷ deciding k ∷ [] }) _ [] [] [] []
          (moves s s [] (deciding k ∷ []) (deciding k) (taking k) pass)
          (more _ (record { sched = s; calls = taking k ∷ taking k ∷ [] }) _ [] [] [] []
            (moves s s (taking k ∷ []) [] (deciding k) (taking k) pass)
            (more _ (record { sched = s₁; calls = back p ∷ taking k ∷ [] }) _ [] [] [] []
              (moves s s₁ [] (taking k ∷ []) (taking k) (back p) refl)
              (more _ (record { sched = t; calls = back p ∷ back q ∷ [] }) _ [] [] [] []
                (moves s₁ t (back p ∷ []) [] (taking k) (back q) refl)
                (here (record { sched = t; calls = back p ∷ back q ∷ [] }))))),
      a.taken ∙ ap (◌∷◌ p) c.taken,
      omega (arith, c.slot, a.slot, one),
    )
  where
    moves :
        (s t : Sched) (before after : List At) (a a' : At)
        → call_step s a ≡ (t, a')
        → Step
            (record { sched = s; calls = before ++ (a ∷ after) })
            []
            []
            (record { sched = t; calls = before ++ (a' ∷ after) })
    moves s t before after a a' e =
        subst
          (λ o.
            Step (record { sched = s; calls = before ++ (a ∷ after) }) [] []
              (record { sched = o.0; calls = before ++ (o.1 ∷ after) }))
          e (goes s before after a)
