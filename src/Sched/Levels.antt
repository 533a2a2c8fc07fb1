-- ===== src/Sched/Levels.antt =====
-- The levels of the ready queue: reading and writing one, the reset of the slots, the empty test.
use operating_systems_simula.Prelude.{
  ℕ, zero, suc, ◌+◌, ◌-◌, ◌≤◌, ◌<◌, ◌≡◌, refl, ◌≢◌, inl, inr, Bool, true, false, ◌&&◌, not, List,
  [], ◌∷◌, arith, ltb, length, get_or, length-set, get_or-set_self, get_or-set_ne, Least, least,
  true-ne-false, ap, ◌∙◌, ℕ_discrete,
}
use operating_systems_simula.Queue.{Queue, empty}
use operating_systems_simula.Queue.Laws.{IsQueue}
use operating_systems_simula.Sched.{
  max_prio, Sched, no_queue, level, put_level, all_empty, queue_empty, reset_levels, reset_slot,
}

pub record IsSched (s : Sched) : Type 0 where
  pub levels : length s.mlq_ready_queue ≡ max_prio
  pub queues : (i : ℕ) → i < max_prio → IsQueue (level s i)
  pub budget : (i : ℕ) → i < max_prio → (level s i).slot ≤ max_prio - i
  pub ready_unused : s.ready_queue.size ≡ 0
  pub run_unused : s.run_queue.size ≡ 0

-- Level `i` has a process, and turns left.
abbrev pub runnable : Sched → ℕ → Bool
runnable s i = not (empty (level s i)) && ltb 0 (level s i).slot

abbrev pub waiting : Sched → ℕ → Bool
waiting s i = not (empty (level s i))

pub level-put_level_self :
    (s : Sched) (i : ℕ) (q : Queue)
    → length s.mlq_ready_queue ≡ max_prio
    → i < max_prio
    → level (put_level s i q) i ≡ q
level-put_level_self s i q e h = get_or-set_self s.mlq_ready_queue i q no_queue (omega arith)

pub level-put_level_ne :
    (s : Sched) (i j : ℕ) (q : Queue) → i ≢ j → level (put_level s i q) j ≡ level s j
level-put_level_ne s i j q h = get_or-set_ne s.mlq_ready_queue i j q no_queue h

pub put_level-IsSched :
    (s : Sched) (i : ℕ) (q : Queue)
    → IsSched s
    → i < max_prio
    → IsQueue q
    → q.slot ≤ max_prio - i
    → IsSched (put_level s i q)
put_level-IsSched s i q v h w b = record {
  levels = omega (arith, length-set s.mlq_ready_queue i q, v.levels);
  queues = λ j hj. elim (ℕ_discrete i j) [
    | yes e ↦ rw (← e) (rw (level-put_level_self s i q v.levels h) w)
    | no ne ↦ rw (level-put_level_ne s i j q ne) (v.queues j hj)
  ];
  budget = λ j hj. elim (ℕ_discrete i j) [
    | yes e ↦ rw (← e) (rw (level-put_level_self s i q v.levels h) b)
    | no ne ↦ rw (level-put_level_ne s i j q ne) (v.budget j hj)
  ];
  ready_unused = v.ready_unused;
  run_unused = v.run_unused;
}

pub length-reset_levels : (i : ℕ) (qs : List Queue) → length (reset_levels i qs) ≡ length qs
unfolding reset_levels
length-reset_levels i [] = refl
length-reset_levels i (q ∷ qs) = ap suc (length-reset_levels (i + 1) qs)

get_or-reset_levels :
    (i j : ℕ) (qs : List Queue)
    → j < length qs
    → get_or (reset_levels i qs) j no_queue
      ≡ record (get_or qs j no_queue) { slot = max_prio - (i + j) }
unfolding reset_levels
get_or-reset_levels i j [] h = absurd (omega arith)
get_or-reset_levels i zero (q ∷ qs) h =
    let e : i ≡ i + 0 = omega arith in ap (λ k. record q { slot = max_prio - k }) e
get_or-reset_levels i (suc j) (q ∷ qs) h =
    let e : i + 1 + j ≡ i + suc j = omega arith in
    get_or-reset_levels (i + 1) j qs (omega arith)
    ∙ ap (λ k. record (get_or qs j no_queue) { slot = max_prio - k }) e

-- `resetSlot` gives level `i` its `MAX_PRIO - i` turns, and touches nothing else of it.
pub level-reset_slot :
    (s : Sched) (i : ℕ)
    → length s.mlq_ready_queue ≡ max_prio
    → i < max_prio
    → level (reset_slot s) i ≡ record (level s i) { slot = max_prio - i }
unfolding reset_slot
level-reset_slot s i e h =
    let z : 0 + i ≡ i = omega arith in
    get_or-reset_levels 0 i s.mlq_ready_queue (omega arith)
    ∙ ap (λ k. record (level s i) { slot = max_prio - k }) z

pub reset_slot-IsSched : (s : Sched) → IsSched s → IsSched (reset_slot s)
reset_slot-IsSched s v = record {
  levels = omega (arith, reset_length, v.levels);
  queues = λ j hj.
      rw (level-reset_slot s j v.levels hj)
        (record { places = (v.queues j hj).places; fits = (v.queues j hj).fits });
  budget = λ j hj. rw (level-reset_slot s j v.levels hj) (omega arith);
  ready_unused = same.0;
  run_unused = same.1;
}
  where
    reset_length : length (reset_slot s).mlq_ready_queue ≡ length s.mlq_ready_queue
    reset_length = unfold reset_slot in length-reset_levels 0 s.mlq_ready_queue

    same : ((reset_slot s).ready_queue.size ≡ 0) × ((reset_slot s).run_queue.size ≡ 0)
    same = unfold reset_slot in (v.ready_unused, v.run_unused)

-- After a reset every level that has a process is runnable.
pub runnable-reset_slot :
    (s : Sched) (i : ℕ)
    → length s.mlq_ready_queue ≡ max_prio
    → i < max_prio
    → runnable (reset_slot s) i ≡ waiting s i
unfolding empty
runnable-reset_slot s i e h = rw (level-reset_slot s i e h) (ground arith)

pub all_empty-false :
    (i : ℕ) (qs : List Queue) → empty (get_or qs i no_queue) ≡ false → all_empty qs ≡ false
unfolding all_empty empty
all_empty-false i [] h = cc
all_empty-false zero (q ∷ qs) h = ground arith
all_empty-false (suc i) (q ∷ qs) h = ground (arith, all_empty-false i qs h)

pub all_empty-true :
    (i : ℕ) (qs : List Queue) → all_empty qs ≡ true → empty (get_or qs i no_queue) ≡ true
unfolding all_empty empty
all_empty-true i [] h = refl
all_empty-true zero (q ∷ qs) h = ground arith
all_empty-true (suc i) (q ∷ qs) h = all_empty-true i qs (ground arith)

module _ (s : Sched) where
  pub queue_empty-false : (i : ℕ) → waiting s i ≡ true → queue_empty s ≡ false
  unfolding queue_empty
  queue_empty-false i h =
      let e : empty (level s i) ≡ false = ground arith in rw (all_empty-false i s.mlq_ready_queue e)

  pub queue_empty-true : (i : ℕ) → queue_empty s ≡ true → waiting s i ≡ false
  unfolding queue_empty
  queue_empty-true i h = rw (all_empty-true i s.mlq_ready_queue (ground arith))

size_zero-empty : (q : Queue) → q.size ≡ 0 → empty q ≡ true
unfolding empty
size_zero-empty q e = ground arith

all_empty-all :
    (qs : List Queue)
    → ((i : ℕ) → i < length qs → not (empty (get_or qs i no_queue)) ≡ false)
    → all_empty qs ≡ true
unfolding all_empty
all_empty-all [] h = refl
all_empty-all (q ∷ qs) h =
    rw (all_empty-all qs (λ i b. h (suc i) (omega arith))) (ground (arith, h 0 (omega arith)))

-- If the queues are not all empty, there is a first level with a process.
pub Least-waiting : (s : Sched) → IsSched s → queue_empty s ≡ false → Least (waiting s) 0 max_prio
unfolding queue_empty
Least-waiting s v e = elim (least (waiting s) max_prio 0 max_prio refl) [
  | inr l ↦ l
  | inl h ↦
      let a : all_empty s.mlq_ready_queue ≡ true =
        all_empty-all s.mlq_ready_queue (λ i b. h i (omega arith) (omega (arith, v.levels))) in
      let b : (empty s.ready_queue ≡ true) × (empty s.run_queue ≡ true) =
        (size_zero-empty s.ready_queue v.ready_unused, size_zero-empty s.run_queue v.run_unused) in
      absurd (true-ne-false (ground arith))
]
