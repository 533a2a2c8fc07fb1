-- ===== src/Race/Queues.antt =====
-- What holds of the queues of src/sched.c while calls of `get_mlq_proc` overlap: a slot may be any word.
use mathlib.Core.List.{Perm, perm_append_singleton}
use operating_systems_simula.Prelude.{
  ℕ, ◌^◌, ◌<◌, ◌≡◌, sym, ap, some, [], ◌∷◌, ◌++◌, arith, length, length-set, lt→ltb, ℕ_discrete,
}
use operating_systems_simula.Queue.{Ptr, Queue, max_queue_size}
use operating_systems_simula.Queue.Laws.{IsQueue, contents, enqueue-append}
use operating_systems_simula.Sched.{max_prio, Sched, level, put_level, reset_slot, put_mlq_proc}
use operating_systems_simula.Sched.Levels.{
  IsSched, level-put_level_self, level-put_level_ne, level-reset_slot, length-reset_levels,
}
use operating_systems_simula.Sched.Conserve.{procs, procs_of-same, procs_of-perm}

-- Every level has its array and at most ten processes, and the two plain queues are not used.
pub record IsQueues (s : Sched) : Type 0 where
  pub levels : length s.mlq_ready_queue ≡ max_prio
  pub queues : (i : ℕ) → i < max_prio → IsQueue (level s i)
  pub words : (i : ℕ) → i < max_prio → (level s i).slot < 2 ^ 32
  pub ready_unused : s.ready_queue.size ≡ 0
  pub run_unused : s.run_queue.size ≡ 0

pub IsSched-IsQueues : (s : Sched) → IsSched s → IsQueues s
IsSched-IsQueues s v = record {
  levels = v.levels;
  queues = v.queues;
  words = λ i h. omega (arith, v.budget i h);
  ready_unused = v.ready_unused;
  run_unused = v.run_unused;
}

pub put_level-IsQueues :
    (s : Sched) (i : ℕ) (q : Queue)
    → IsQueues s
    → i < max_prio
    → IsQueue q
    → q.slot < 2 ^ 32
    → IsQueues (put_level s i q)
put_level-IsQueues s i q v h w b = record {
  levels = omega (arith, length-set s.mlq_ready_queue i q, v.levels);
  queues = λ j hj. elim (ℕ_discrete i j) [
    | yes e ↦ rw (← e) (rw (level-put_level_self s i q v.levels h) w)
    | no ne ↦ rw (level-put_level_ne s i j q ne) (v.queues j hj)
  ];
  words = λ j hj. elim (ℕ_discrete i j) [
    | yes e ↦ rw (← e) (rw (level-put_level_self s i q v.levels h) b)
    | no ne ↦ rw (level-put_level_ne s i j q ne) (v.words j hj)
  ];
  ready_unused = v.ready_unused;
  run_unused = v.run_unused;
}

pub reset_slot-IsQueues : (s : Sched) → IsQueues s → IsQueues (reset_slot s)
unfolding reset_slot
reset_slot-IsQueues s v = record {
  levels = omega (arith, length-reset_levels 0 s.mlq_ready_queue, v.levels);
  queues = λ j hj.
      rw (level-reset_slot s j v.levels hj)
        (record { places = (v.queues j hj).places; fits = (v.queues j hj).fits });
  words = λ j hj. rw (level-reset_slot s j v.levels hj) (omega arith);
  ready_unused = v.ready_unused;
  run_unused = v.run_unused;
}

pub procs-reset : (s : Sched) → IsQueues s → procs (reset_slot s) ≡ procs s
procs-reset s v =
    let w : IsQueues (reset_slot s) = reset_slot-IsQueues s v in
    procs_of-same s.mlq_ready_queue (reset_slot s).mlq_ready_queue
      (omega (arith, v.levels, w.levels))
      (λ j b. ap contents (level-reset_slot s j v.levels (omega (arith, v.levels))))

-- A process that is put is one more among those that wait.
pub put_mlq_proc-IsQueues :
    (s : Sched) (p : Ptr) (prio : ℕ)
    → IsQueues s
    → prio < max_prio
    → (level s prio).size < max_queue_size
    → (t : Sched) × (put_mlq_proc s p prio ≡ some t) × IsQueues t × Perm (procs t) (p ∷ procs s)
unfolding put_mlq_proc
put_mlq_proc-IsQueues s p prio v h room =
    let (q, e, w, c, k) = enqueue-append (level s prio) p (v.queues prio h) room in
    let here : level (put_level s prio q) prio ≡ q = level-put_level_self s prio q v.levels h in
    let t = put_level-IsQueues s prio q v h w (omega (arith, k, v.words prio h)) in
    let joined : contents (level (put_level s prio q) prio) ≡ contents (level s prio) ++ (p ∷ []) =
      rw here c in
    (
      put_level s prio q,
      rw (lt→ltb prio max_prio h, e),
      t,
      procs_of-perm prio p (put_level s prio q).mlq_ready_queue s.mlq_ready_queue
          (omega (arith, v.levels, t.levels)) (omega (arith, t.levels, h))
          (rw joined (perm_append_singleton p (contents (level s prio))))
          (λ j ne. ap contents (sym (level-put_level_ne s prio j q (λ e. ne (sym e))))),
    )
