-- ===== src/Sched/Examples.antt =====
-- Small ready queues, for the tests.
use operating_systems_simula.Prelude.{
  ℕ, zero, suc, ◌<◌, ◌≡◌, refl, ◌∷◌, arith, replicate, get_or, length-replicate,
}
use operating_systems_simula.Queue.{null, max_queue_size, Queue}
use operating_systems_simula.Sched.{max_prio, Sched, no_queue, put_level}
use operating_systems_simula.Sched.Levels.{IsSched, put_level-IsSched}

abbrev pub vacant : ℕ → Queue
vacant slot = record { proc = replicate max_queue_size null; size = 0; slot = slot }

-- No process, and no turn left at any level.
abbrev pub bare : Sched
bare = record {
  mlq_ready_queue = replicate max_prio (vacant 0);
  ready_queue = vacant 0;
  run_queue = vacant 0;
}

pub get_or-replicate : (n i : ℕ) (q : Queue) → i < n → get_or (replicate n q) i no_queue ≡ q
get_or-replicate zero i q h = absurd (omega arith)
get_or-replicate (suc n) zero q h = refl
get_or-replicate (suc n) (suc i) q h = get_or-replicate n i q (omega arith)

pub bare-IsSched : IsSched bare
bare-IsSched = record {
  levels = length-replicate max_prio (vacant 0);
  queues = λ i h. rw (get_or-replicate max_prio i (vacant 0) h) (omega arith);
  budget = λ i h. rw (get_or-replicate max_prio i (vacant 0) h) (omega arith);
  ready_unused = refl;
  run_unused = refl;
}

-- Two processes at level 0, with its turns spent.
abbrev pub spent_pair : Queue
spent_pair = record { proc = 7 ∷ 8 ∷ replicate 8 null; size = 2; slot = 0 }

abbrev pub spent_zero : Sched
spent_zero = put_level bare 0 spent_pair

pub spent_zero-IsSched : IsSched spent_zero
spent_zero-IsSched =
    put_level-IsSched bare 0 spent_pair bare-IsSched (omega arith) (omega arith) (omega arith)
