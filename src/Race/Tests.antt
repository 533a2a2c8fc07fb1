-- ===== src/Race/Tests.antt =====
-- Overlapping calls on a small ready queue, and the theorems at inputs that meet the hypotheses.
use mathlib.Core.Logic.Or
use mathlib.Core.HLevel.{⊥_prop}
use mathlib.Core.List.{Mem, eq-or-mem_of_mem-cons, not-mem-nil}
use operating_systems_simula.Prelude.{
  ◌≡◌, refl, subst, some, [], ◌∷◌, ◌++◌, arith, replicate, ◌^◌, ◌-◌,
}
use operating_systems_simula.Queue.{Ptr, null, dequeue, empty}
use operating_systems_simula.Queue.Laws.{contents}
use operating_systems_simula.Sched.{Sched, level, put_level, get_mlq_proc, dispatch}
use operating_systems_simula.Sched.Levels.{IsSched, put_level-IsSched}
use operating_systems_simula.Sched.Conserve.{procs, procs_of}
use operating_systems_simula.Sched.Examples.{bare, bare-IsSched, spent_zero, spent_zero-IsSched}
use operating_systems_simula.Os.Held.{running}
use operating_systems_simula.Race.{scanning, deciding, taking, back, call_step}
use operating_systems_simula.Race.Queues.{IsSched-IsQueues}
use operating_systems_simula.Race.Alone.{Alone, get_mlq_proc-Alone}
use operating_systems_simula.Race.Calls.{Calls, goes, hands, Steps, here, more, AtLevels, IsCalls}
use operating_systems_simula.Race.Section.{AtLevel}
use operating_systems_simula.Race.Order.{Kept, Steps-Kept}
use operating_systems_simula.Race.Turns.{Steps-over_budget}

get_mlq_proc-Alone_example :
    (out : Ptr × Sched) × (get_mlq_proc spent_zero ≡ some out)
    × Alone (spent_zero, scanning 0) (out.1, back out.0)
get_mlq_proc-Alone_example = get_mlq_proc-Alone spent_zero spent_zero-IsSched

-- Two processes at level 3, with one turn.
abbrev one_turn : Sched
one_turn = put_level bare 3 (record { proc = 7 ∷ 8 ∷ replicate 8 null; size = 2; slot = 1 })

one_turn-IsSched : IsSched one_turn
one_turn-IsSched = put_level-IsSched bare 3 _ bare-IsSched (omega arith) (omega arith) (omega arith)

Steps-over_budget_example :
    (t : Sched) × (p : Ptr) × (q : Ptr) × Steps
      (record { sched = one_turn; calls = deciding 3 ∷ deciding 3 ∷ [] })
      []
      []
      (record { sched = t; calls = back p ∷ back q ∷ [] })
    × (contents (level one_turn 3) ≡ p ∷ q ∷ contents (level t 3))
    × ((level t 3).slot ≡ 2 ^ 32 - 1)
Steps-over_budget_example =
    Steps-over_budget one_turn 3 one_turn-IsSched (omega arith) (omega arith) refl

-- One call is behind the test of the slot, and takes; the CPU of another has its process already.
abbrev before : Calls
before = record { sched = one_turn; calls = taking 3 ∷ back 9 ∷ [] }

abbrev after : Calls
after = record { sched = (dispatch one_turn 3).1; calls = back 7 ∷ scanning 0 ∷ [] }

two_waiting : procs one_turn ≡ 7 ∷ 8 ∷ []
unfolding procs_of
two_waiting = refl

before-IsCalls : IsCalls before
unfolding AtLevels AtLevel
before-IsCalls = record {
  sched = IsSched-IsQueues one_turn one_turn-IsSched;
  real = λ m. none_null (subst (λ l. Mem null l) two_waiting m);
  levels = (omega arith, (tt, tt));
}
  where
    none_null : ¬ Mem null (7 ∷ 8 ∷ [])
    none_null m =
        Or.elim ⊥_prop (eq-or-mem_of_mem-cons m) (λ e. omega (arith, e))
          (λ n. Or.elim ⊥_prop (eq-or-mem_of_mem-cons n) (λ e. omega (arith, e)) not-mem-nil)

before_after : Steps before [] (running 9 ++ []) after
unfolding call_step dispatch dequeue empty
before_after =
    more before (record { sched = (dispatch one_turn 3).1; calls = back 7 ∷ back 9 ∷ [] }) after []
      [] [] (running 9 ++ []) (goes one_turn [] (back 9 ∷ []) (taking 3))
      (more _ after after [] [] (running 9) [] (hands (dispatch one_turn 3).1 (back 7 ∷ []) [] 9)
        (here after))

Steps-Kept_example : Kept before [] (running 9 ++ []) after
Steps-Kept_example = Steps-Kept before after [] (running 9 ++ []) before-IsCalls before_after
