-- ===== src/Sched/Dispatch.antt =====
-- What one call of `get_mlq_proc` does, in every case, and what `put_mlq_proc` and
-- `init_scheduler` do.
use operating_systems_simula.Prelude.{
  ℕ, ◌+◌, ◌-◌, ◌<◌, ◌≡◌, refl, sym, ◌∙◌, ◌≢◌, ◌⊎◌, inl, inr, true, false, some, ◌∷◌, arith,
  Bool-cases, NoneIn, Least, least, true-ne-false, ap,
}
use operating_systems_simula.Queue.{Ptr, null, Queue, empty, dequeue}
use operating_systems_simula.Queue.Laws.{contents, dequeue-cons}
use operating_systems_simula.Sched.{
  less_one, max_prio, Sched, level, put_level, queue_empty, reset_slot, dispatch, get_mlq_proc,
}
use operating_systems_simula.Sched.Levels.{
  IsSched, runnable, waiting, level-put_level_self, level-put_level_ne, put_level-IsSched,
  reset_slot-IsSched, level-reset_slot, Least-waiting, runnable-reset_slot, queue_empty-false,
}
use operating_systems_simula.Sched.Search.{
  get-found, get-empty, get-last_empty, get-restart, Least-reset_slot,
}

-- From `s` to `t` the oldest process `p` of level `k` is taken off, and `k` pays with one turn.
pub record Dispatched (s t : Sched) (p : Ptr) (k : ℕ) : Type 0 where
  pub in_range : k < max_prio
  pub taken : contents (level s k) ≡ p ∷ contents (level t k)
  pub charged : (level t k).slot + 1 ≡ (level s k).slot
  pub others : (j : ℕ) → j ≢ k → level t j ≡ level s j
  pub valid : IsSched t

dispatch-Dispatched :
    (s : Sched) (k : ℕ)
    → IsSched s
    → k < max_prio
    → runnable s k ≡ true
    → Dispatched s (dispatch s k).1 (dispatch s k).0 k
unfolding dispatch empty
dispatch-Dispatched s k v h r =
    let q : Queue = level s k in
    let pos : (0 < q.size) × (0 < q.slot) = ground arith in
    let (c, w, slots, _) = dequeue-cons q (v.queues k h) pos.0 in
    let r : Queue = record ((dequeue q).1) { slot = less_one (dequeue q).1.slot } in
    let here : level (put_level s k r) k ≡ r = level-put_level_self s k r v.levels h in
    record {
      in_range = h;
      taken = rw here c;
      charged = rw here (omega (arith, slots, pos.1, v.budget k h));
      others = λ j ne. level-put_level_ne s k j r (λ e. ne (sym e));
      valid =
          put_level-IsSched s k r v h (record { places = w.places; fits = w.fits })
            (omega (arith, slots, pos.1, v.budget k h));
    }

-- Everything that a call of `get_mlq_proc` can do.
pub data Outcome (s : Sched) : Ptr × Sched → Type 0 where
  idle : queue_empty s ≡ true → Outcome s (null, s)
  served :
      (p : Ptr) (t : Sched) (l : Least (runnable s) 0 max_prio)
      → Dispatched s t p l.at
      → Outcome s (p, t)
  refilled :
      queue_empty s ≡ false
      → NoneIn (runnable s) 0 max_prio
      → waiting s (max_prio - 1) ≡ false
      → Outcome s (null, reset_slot s)
  restarted :
      (p : Ptr) (t : Sched) (l : Least (waiting s) 1 max_prio)
      → NoneIn (runnable s) 0 max_prio
      → waiting s (max_prio - 1) ≡ true
      → Dispatched (reset_slot s) t p l.at
      → Outcome s (p, t)

restart :
    (s : Sched)
    → IsSched s
    → queue_empty s ≡ false
    → NoneIn (runnable s) 0 max_prio
    → waiting s (max_prio - 1) ≡ true
    → (l : Least (waiting s) 1 max_prio) × (get_mlq_proc s ≡ some (dispatch (reset_slot s) l.at))
      × Dispatched
          (reset_slot s)
          (dispatch (reset_slot s) l.at).1
          (dispatch (reset_slot s) l.at).0
          l.at
restart s v some_waits spent e = elim (least (waiting s) (max_prio - 1) 1 max_prio refl) [
  | inl h ↦ absurd (true-ne-false (sym e ∙ h (max_prio - 1) (omega arith) (omega arith)))
  | inr l ↦ (
    l,
    get-restart s v.levels some_waits spent l e,
    dispatch-Dispatched (reset_slot s) l.at (reset_slot-IsSched s v) l.below
        (runnable-reset_slot s l.at v.levels l.below ∙ l.passes),
  )
]

-- A call of `get_mlq_proc` ends; the search for a level never runs out of its fuel. With no process it
-- returns NULL and changes nothing; it serves the first level that has a process and a turn left; where
-- there is none it gives all levels their turns again, and then returns NULL if the last level is empty,
-- and else serves the first level from 1 on that has a process.
pub get_mlq_proc-Outcome :
    (s : Sched) → IsSched s → (out : Ptr × Sched) × (get_mlq_proc s ≡ some out) × Outcome s out
get_mlq_proc-Outcome s v = elim (Bool-cases (queue_empty s)) [
  | inl e ↦ ((null, s), get-empty s v.levels e, idle e)
  | inr some_waits ↦ elim (least (runnable s) max_prio 0 max_prio refl) [
    | inr l ↦ (
      dispatch s l.at,
      get-found s v.levels l,
      served _ _ l (dispatch-Dispatched s l.at v l.below l.passes),
    )
    | inl spent ↦ elim (Bool-cases (waiting s (max_prio - 1))) [
      | inr e ↦ (
        (null, reset_slot s),
        get-last_empty s v.levels some_waits spent e,
        refilled some_waits spent e,
      )
      | inl e ↦
          let (l, g, d) = restart s v some_waits spent e in
          (dispatch (reset_slot s) l.at, g, restarted _ _ l spent e d)
    ]
  ]
]

-- A call keeps the invariant.
pub Outcome-IsSched : {s : Sched} {out : Ptr × Sched} → IsSched s → Outcome s out → IsSched out.1
Outcome-IsSched v (idle e) = v
Outcome-IsSched v (served p t l d) = d.valid
Outcome-IsSched {s} v (refilled e h w) = reset_slot-IsSched s v
Outcome-IsSched v (restarted p t l h w d) = d.valid

-- `get_mlq_proc` serves the first level that has both a process and a turn left: it takes the
-- oldest process of that level, and leaves every other level as it was.
pub get_mlq_proc-first :
    (s : Sched)
    → IsSched s
    → (l : Least (runnable s) 0 max_prio)
    → (p : Ptr) × (t : Sched) × (get_mlq_proc s ≡ some (p, t)) × Dispatched s t p l.at
get_mlq_proc-first s v l = (
  (dispatch s l.at).0,
  (dispatch s l.at).1,
  get-found s v.levels l,
  dispatch-Dispatched s l.at v l.below l.passes,
)

-- Where all turns are spent and level `MAX_PRIO - 1` has a process, the search starts again at
-- level 1: a process of level 0 is passed over, and one of a lower level is served before it.
pub get_mlq_proc-skips_zero :
    (s : Sched)
    → IsSched s
    → waiting s 0 ≡ true
    → NoneIn (runnable s) 0 max_prio
    → waiting s (max_prio - 1) ≡ true
    → (p : Ptr) × (t : Sched) × (k : ℕ) × (get_mlq_proc s ≡ some (p, t))
      × (0 < k)
      × Dispatched (reset_slot s) t p k
      × (contents (level t 0) ≡ contents (level s 0))
get_mlq_proc-skips_zero s v z spent e =
    let (l, g, d) = restart s v (queue_empty-false s 0 z) spent e in
    let out : Ptr × Sched = dispatch (reset_slot s) l.at in
    (
      out.0,
      out.1,
      l.at,
      g,
      l.from,
      d,
      ap contents
          (d.others 0 (omega (arith, l.from)) ∙ level-reset_slot s 0 v.levels (omega arith)),
    )

-- A call serves the oldest process of some level, before or after a reset of the slots.
pub record Serves (s : Sched) : Type 0 where
  pub proc : Ptr
  pub left : Sched
  pub prio : ℕ
  pub before : Sched
  pub result : get_mlq_proc s ≡ some (proc, left)
  pub at_most_reset : (before ≡ s) ⊎ (before ≡ reset_slot s)
  pub dispatched : Dispatched before left proc prio

first-Serves : (s : Sched) → IsSched s → Least (runnable s) 0 max_prio → Serves s
first-Serves s v l =
    let (p, t, e, d) = get_mlq_proc-first s v l in
    record {
      proc = p;
      left = t;
      prio = l.at;
      before = s;
      result = e;
      at_most_reset = inl refl;
      dispatched = d;
    }

-- While some process waits, two calls serve one: where a call returns NULL it has reset the slots,
-- and the next call serves a process.
pub get_mlq_proc-within_two :
    (s : Sched)
    → IsSched s
    → queue_empty s ≡ false
    → Serves s ⊎ ((get_mlq_proc s ≡ some (null, reset_slot s)) × Serves (reset_slot s))
get_mlq_proc-within_two s v e = elim (least (runnable s) max_prio 0 max_prio refl) [
  | inr l ↦ inl (first-Serves s v l)
  | inl spent ↦ elim (Bool-cases (waiting s (max_prio - 1))) [
    | inl w ↦
        let (l, g, d) = restart s v e spent w in
        inl (record {
          proc = (dispatch (reset_slot s) l.at).0;
          left = (dispatch (reset_slot s) l.at).1;
          prio = l.at;
          before = reset_slot s;
          result = g;
          at_most_reset = inr refl;
          dispatched = d;
        })
    | inr w ↦ inr (
      get-last_empty s v.levels e spent w,
      first-Serves (reset_slot s) (reset_slot-IsSched s v)
          (Least-reset_slot s v.levels 0 (Least-waiting s v e)),
    )
  ]
]
