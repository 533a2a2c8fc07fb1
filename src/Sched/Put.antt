-- ===== src/Sched/Put.antt =====
-- `put_mlq_proc`, `add_mlq_proc` and `init_scheduler`.
use operating_systems_simula.Prelude.{
  ℕ, zero, suc, ◌+◌, ◌-◌, ◌≤◌, ◌<◌, ◌≡◌, refl, ◌∙◌, ◌≢◌, sym, ◌⊎◌, inl, inr, none, some, List, [],
  ◌∷◌, ◌++◌, arith, length, get_or, lt→ltb, le→ltb, ap,
}
use operating_systems_simula.Queue.{Ptr, max_queue_size, Queue}
use operating_systems_simula.Queue.Laws.{contents, enqueue-append, enqueue-full}
use operating_systems_simula.Sched.{
  max_prio, Sched, no_queue, level, put_level, put_mlq_proc, add_mlq_proc, init_levels,
  init_scheduler, put_proc, add_proc,
}
use operating_systems_simula.Sched.Levels.{
  IsSched, level-put_level_self, level-put_level_ne, put_level-IsSched,
}

-- From `s` to `t` the process `p` has joined the end of level `k`.
pub record Queued (s t : Sched) (p : Ptr) (k : ℕ) : Type 0 where
  pub joined : contents (level t k) ≡ contents (level s k) ++ (p ∷ [])
  pub same_slot : (level t k).slot ≡ (level s k).slot
  pub others : (j : ℕ) → j ≢ k → level t j ≡ level s j
  pub valid : IsSched t

-- A process of a priority below `MAX_PRIO` whose level has a place left joins the end of its level.
pub put_mlq_proc-Queued :
    (s : Sched) (p : Ptr) (prio : ℕ)
    → IsSched s
    → prio < max_prio
    → (level s prio).size < max_queue_size
    → (t : Sched) × (put_mlq_proc s p prio ≡ some t) × Queued s t p prio
unfolding put_mlq_proc
put_mlq_proc-Queued s p prio v h room =
    let (q, e, w, c, k) = enqueue-append (level s prio) p (v.queues prio h) room in
    let here : level (put_level s prio q) prio ≡ q = level-put_level_self s prio q v.levels h in
    (
      put_level s prio q,
      rw (lt→ltb prio max_prio h, e),
      record {
        joined = rw here c;
        same_slot = rw here k;
        others = λ j ne. level-put_level_ne s prio j q (λ e. ne (sym e));
        valid = put_level-IsSched s prio q v h w (omega (arith, k, v.budget prio h));
      },
    )

-- The two ways to leave the arrays: a priority from `MAX_PRIO` on, and an eleventh process.
pub put_mlq_proc-faults :
    (s : Sched) (p : Ptr) (prio : ℕ)
    → (max_prio ≤ prio) ⊎ (max_queue_size ≤ (level s prio).size)
    → put_mlq_proc s p prio ≡ none
unfolding put_mlq_proc
put_mlq_proc-faults s p prio (inl h) = rw (le→ltb prio max_prio h)
put_mlq_proc-faults s p prio (inr h) = rw (enqueue-full (level s prio) p h) (ground arith)

-- A process that comes back and a new one are treated alike.
pub put_proc-add_proc : (s : Sched) (p : Ptr) (prio : ℕ) → put_proc s p prio ≡ add_proc s p prio
unfolding put_proc add_proc put_mlq_proc add_mlq_proc
put_proc-add_proc s p prio = refl

length-init_levels : (i : ℕ) (qs : List Queue) → length (init_levels i qs) ≡ length qs
unfolding init_levels
length-init_levels i [] = refl
length-init_levels i (q ∷ qs) = ap suc (length-init_levels (i + 1) qs)

get_or-init_levels :
    (i j : ℕ) (qs : List Queue)
    → j < length qs
    → get_or (init_levels i qs) j no_queue
      ≡ record (get_or qs j no_queue) { size = 0; slot = max_prio - (i + j) }
unfolding init_levels
get_or-init_levels i j [] h = absurd (omega arith)
get_or-init_levels i zero (q ∷ qs) h =
    let e : i ≡ i + 0 = omega arith in ap (λ k. record q { size = 0; slot = max_prio - k }) e
get_or-init_levels i (suc j) (q ∷ qs) h =
    let e : i + 1 + j ≡ i + suc j = omega arith in
    get_or-init_levels (i + 1) j qs (omega arith)
    ∙ ap (λ k. record (get_or qs j no_queue) { size = 0; slot = max_prio - k }) e

-- `init_scheduler` makes a valid scheduler of any contents of the static arrays: every level is
-- empty and has its `MAX_PRIO - i` turns.
pub init_scheduler-IsSched :
    (s : Sched) (k : ℕ)
    → length s.mlq_ready_queue ≡ max_prio
    → ((i : ℕ) → i < max_prio → length (level s i).proc ≡ max_queue_size)
    → k < max_prio
    → IsSched (init_scheduler s)
      × (contents (level (init_scheduler s) k) ≡ [])
      × ((level (init_scheduler s) k).slot ≡ max_prio - k)
unfolding init_scheduler
init_scheduler-IsSched s k len places below = (
  record {
    levels = omega (arith, length-init_levels 0 s.mlq_ready_queue);
    queues = λ i h. rw (at i h) (record { places = places i h; fits = omega arith });
    budget = λ i h. rw (at i h) (omega arith);
    ready_unused = refl;
    run_unused = refl;
  },
  rw (at k below),
  rw (at k below) (omega arith),
)
  where
    at :
        (i : ℕ)
        → i < max_prio
        → get_or (init_levels 0 s.mlq_ready_queue) i no_queue
          ≡ record (level s i) { size = 0; slot = max_prio - (0 + i) }
    at i h = get_or-init_levels 0 i s.mlq_ready_queue (omega arith)
