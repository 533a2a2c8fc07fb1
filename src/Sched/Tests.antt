-- ===== src/Sched/Tests.antt =====
-- The scheduler at concrete queues, and its theorems at inputs that meet their hypotheses.
use operating_systems_simula.Prelude.{
  ℕ, ◌<◌, ◌≡◌, refl, ◌⊎◌, some, ◌∷◌, arith, replicate, NoneIn, Least, none_below-NoneIn,
}
use operating_systems_simula.Queue.{Ptr, null, Queue, empty}
use operating_systems_simula.Queue.Laws.{contents}
use operating_systems_simula.Sched.{
  max_prio, Sched, level, put_level, queue_empty, reset_slot, get_mlq_proc, select_loop, turn,
  dispatch,
}
use operating_systems_simula.Sched.Levels.{IsSched, runnable, put_level-IsSched}
use operating_systems_simula.Sched.Dispatch.{
  Dispatched, Outcome, Serves, get_mlq_proc-Outcome, get_mlq_proc-first, get_mlq_proc-skips_zero,
  get_mlq_proc-within_two,
}
use operating_systems_simula.Sched.Examples.{
  bare, bare-IsSched, spent_pair, spent_zero, spent_zero-IsSched,
}
use operating_systems_simula.Sched.Conserve.{Conserves, get_mlq_proc-Conserves}

-- Two processes at level 3 with two turns.
abbrev pair : Queue
pair = record { proc = 7 ∷ 8 ∷ replicate 8 null; size = 2; slot = 2 }

abbrev busy : Sched
busy = put_level bare 3 pair

busy-IsSched : IsSched busy
busy-IsSched = put_level-IsSched bare 3 pair bare-IsSched (omega arith) (omega arith) (omega arith)

busy-Least : Least (runnable busy) 0 max_prio
unfolding empty
busy-Least = record {
  at = 3;
  from = omega arith;
  below = omega arith;
  passes = refl;
  first = none_below-NoneIn (runnable busy) 3 refl;
}

-- All turns are spent, and processes wait at level 0 and at the last level.
abbrev spent : Sched
spent = put_level spent_zero 139 spent_pair

spent-IsSched : IsSched spent
spent-IsSched =
    put_level-IsSched spent_zero 139 spent_pair
      (put_level-IsSched bare 0 spent_pair bare-IsSched (omega arith) (omega arith) (omega arith))
      (omega arith) (omega arith) (omega arith)

spent-NoneIn : NoneIn (runnable spent) 0 max_prio
unfolding empty
spent-NoneIn = none_below-NoneIn (runnable spent) max_prio refl

get_mlq_proc-Outcome_example :
    (out : Ptr × Sched) × (get_mlq_proc busy ≡ some out) × Outcome busy out
get_mlq_proc-Outcome_example = get_mlq_proc-Outcome busy busy-IsSched

get_mlq_proc-first_example :
    (p : Ptr) × (t : Sched) × (get_mlq_proc busy ≡ some (p, t)) × Dispatched busy t p busy-Least.at
get_mlq_proc-first_example = get_mlq_proc-first busy busy-IsSched busy-Least

get_mlq_proc-skips_zero_example :
    (p : Ptr) × (t : Sched) × (k : ℕ) × (get_mlq_proc spent ≡ some (p, t))
    × (0 < k)
    × Dispatched (reset_slot spent) t p k
    × (contents (level t 0) ≡ contents (level spent 0))
unfolding empty
get_mlq_proc-skips_zero_example = get_mlq_proc-skips_zero spent spent-IsSched refl spent-NoneIn refl

get_mlq_proc-within_two_example :
    Serves spent_zero
    ⊎ ((get_mlq_proc spent_zero ≡ some (null, reset_slot spent_zero))
        × Serves (reset_slot spent_zero))
unfolding queue_empty empty
get_mlq_proc-within_two_example = get_mlq_proc-within_two spent_zero spent_zero-IsSched refl

get_mlq_proc-Conserves_example :
    (out : Ptr × Sched) × (get_mlq_proc busy ≡ some out) × Conserves busy out
get_mlq_proc-Conserves_example = get_mlq_proc-Conserves busy busy-IsSched

-- The process in front of level 3 is handed out.
get_busy : get_mlq_proc busy ≡ some (dispatch busy 3)
unfolding get_mlq_proc queue_empty select_loop turn empty
get_busy = refl
