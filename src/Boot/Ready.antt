-- ===== src/Boot/Ready.antt =====
-- What holds of the threads and of the timer when `main` starts them.
mod Tests
use mathlib.Core.Option.{some-injective}
use mathlib.Core.List.{Perm, Pairwise, not-mem-nil, append-nil}
use operating_systems_simula.Prelude.{
  ℕ, zero, suc, ◌+◌, ◌^◌, ◌≤◌, ◌<◌, ◌≡◌, refl, ◌∙◌, ap, subst, lt→ltb, none, some, List, [], ◌∷◌,
  ◌++◌, arith, length-append, length, replicate, length-replicate, false,
}
use operating_systems_simula.Queue.{Ptr, null, max_queue_size}
use operating_systems_simula.Sched.{max_prio, init_scheduler, init_levels}
use operating_systems_simula.Sched.Levels.{IsSched}
use operating_systems_simula.Sched.Put.{init_scheduler-IsSched}
use operating_systems_simula.Sched.Conserve.{procs, procs_of}
use operating_systems_simula.Sched.Examples.{vacant, get_or-replicate}
use operating_systems_simula.Timer.{begin, attach_event, start_timer}
use operating_systems_simula.Timer.Progress.{attached, started}
use operating_systems_simula.Os.Held.{Held, length-Perm, running-null}
use operating_systems_simula.Os.Threads.{
  Threads, on_cpus, held, Step, slot, stops, adds, waits, ends, Steps, here, more, InSlot, Leveled,
  Valid,
}
use operating_systems_simula.Os.Load.{Job, ld_round}
use operating_systems_simula.Os.{Os}
use operating_systems_simula.Os.Moves.{Moved}
use operating_systems_simula.Os.Order.{Steps-Moved}
use operating_systems_simula.Boot.{
  Config, Entry, Memories, rounds, static_sched, attach_cpus, idle_cpu, jobs_of, boot,
}

-- A configuration whose threads can start: a time slot that is not empty, at most ten processes, and
-- priorities that are levels.
pub record IsConfig (c : Config) : Type 0 where
  pub time_slot : 0 < c.time_slot
  pub few : length c.entries ≤ max_queue_size
  pub levels : Leveled (jobs_of c.entries)

pub on_cpus-idle : (n : ℕ) → on_cpus (replicate n idle_cpu) ≡ []
unfolding on_cpus
on_cpus-idle zero = refl
on_cpus-idle (suc n) = rw (running-null null refl, on_cpus-idle n) refl

idle-InSlot : (time_slot n : ℕ) → 0 < time_slot → InSlot time_slot (replicate n idle_cpu)
unfolding InSlot
idle-InSlot time_slot zero h = tt
idle-InSlot time_slot (suc n) h = (h, idle-InSlot time_slot n h)

pub no_procs : procs (init_scheduler static_sched) ≡ []
unfolding procs_of init_scheduler init_levels
no_procs = refl

static-IsSched : IsSched (init_scheduler static_sched)
static-IsSched =
    (init_scheduler-IsSched static_sched 0 (length-replicate max_prio (vacant 0))
      (λ i h. rw (get_or-replicate max_prio i (vacant 0) h) refl) (omega arith)).0

no_process-Held : Held (λ p. none) []
no_process-Held = record {
  stored = λ p m. absurd (not-mem-nil m);
  once = Pairwise.nil;
  room = omega arith;
}

-- The devices of the CPUs stand behind those that are there.
attach_cpus-attached : (n k : ℕ) → attach_cpus n (attached k) ≡ attached (n + k)
unfolding attach_cpus attached
attach_cpus-attached zero k = ap attached (omega arith)
attach_cpus-attached (suc n) k = attach_cpus-attached n (suc k) ∙ ap attached (omega arith)

length-jobs_of : (es : List Entry) → length (jobs_of es) ≡ length es
unfolding jobs_of
length-jobs_of [] = refl
length-jobs_of (e ∷ es) = ap suc (length-jobs_of es)

-- `main` starts the threads in a valid state, of a configuration with a time slot that is not empty, at
-- most ten processes and priorities that are levels: the ready queue is valid and no process is held;
-- the timer starts with a device for each CPU and one for the loader.
pub boot-Valid :
    (m : Memories) (c : Config)
    → IsConfig c
    → Valid c.time_slot (boot m c).threads
      × (held (boot m c).threads ≡ [])
      × ((boot m c).timer ≡ started (suc (rounds c.num_cpus)))
unfolding boot start_timer attached
boot-Valid m c v =
    let cpus = rounds c.num_cpus in
    let idle : on_cpus (replicate cpus idle_cpu) ≡ [] = on_cpus-idle cpus in
    let none_held : on_cpus (replicate cpus idle_cpu) ++ procs (init_scheduler static_sched) ≡ [] =
      rw (idle, no_procs) refl in
    (
      record {
        os = record { sched = static-IsSched; held = rw none_held no_process-Held };
        slots = idle-InSlot c.time_slot cpus v.time_slot;
        levels = v.levels;
        room = omega (arith, ap length none_held, length-jobs_of c.entries, v.few);
      },
      none_held,
      ap
          (λ ds. record {
            devices = attach_event ds;
            rounds = 0;
            timer_stop = false;
            asleep = false;
            phase = begin;
          })
          (attach_cpus-attached cpus 0 ∙ ap attached (omega arith)),
    )

rest : Os × List Job → ℕ
rest out = length out.1

-- A round adds a process only for a job, which is then no longer to come.
Step-jobs :
    (time_slot : ℕ) (s t : Threads) (added freed : List Ptr)
    → Step time_slot s added freed t
    → length added + length t.jobs ≡ length s.jobs
unfolding ld_round rest
Step-jobs time_slot s t added freed (slot os os' before after cpu cpu' jobs junk runs e) =
    omega arith
Step-jobs time_slot s t added freed (stops os os' before after cpu jobs junk runs e) = omega arith
Step-jobs time_slot s t added freed (adds os os' cpus job jobs now image real fresh due e) =
    omega arith
Step-jobs time_slot s t added freed (waits os os' cpus job jobs jobs' now image early e) =
    let same : some (os, job ∷ jobs) ≡ some (os', jobs') =
      subst (λ o. o ≡ some (os', jobs')) (rw (lt→ltb now job.start_time early) refl) e in
    let left : length (job ∷ jobs) ≡ length jobs' =
      ap rest (some-injective (os, job ∷ jobs) (os', jobs') same) in
    omega (arith, left)
Step-jobs time_slot s t added freed (ends os os' cpus jobs' now image e) =
    let left : 0 ≡ length jobs' = ap rest (some-injective _ _ e) in omega (arith, left)

Steps-jobs :
    (time_slot : ℕ) (s t : Threads) (added freed : List Ptr)
    → Steps time_slot s added freed t
    → length added + length t.jobs ≡ length s.jobs
Steps-jobs time_slot s t added freed (here u) = omega arith
Steps-jobs time_slot s t added freed (more u m w a a' f f' step steps) =
    let first = Step-jobs time_slot s m a f step in
    let others = Steps-jobs time_slot m t a' f' steps in
    omega (arith, first, others, length-append a a')

-- From the start of the program, in any order of the rounds of the CPUs and of the loader, a round being
-- one step: the processes that were added are, each once, those that run or wait now and those that were
-- freed; with those still to load they are as many as the configuration has; and the state is valid. The configuration has a time slot that is a positive `int`, at most ten processes, and
-- priorities that are levels; the instructions that are run meet no fault, and `malloc` gives the loader
-- addresses that are not in use.
pub boot-Steps :
    (m : Memories) (c : Config) (t : Threads) (added freed : List Ptr)
    → IsConfig c
    → c.time_slot < 2 ^ 31
    → Steps c.time_slot (boot m c).threads added freed t
    → Valid c.time_slot t
      × Perm added (freed ++ held t)
      × (length freed + length (held t) + length t.jobs ≡ length c.entries)
unfolding boot
boot-Steps m c t added freed v word steps =
    let ready = boot-Valid m c v in
    let moved : Moved c.time_slot (boot m c).threads added freed t =
      Steps-Moved c.time_slot (boot m c).threads t added freed v.time_slot word ready.0 steps in
    let all : Perm added (freed ++ held t) =
      subst (λ l. Perm l (freed ++ held t)) (ap (λ h. added ++ h) ready.1 ∙ append-nil added)
        moved.all_there in
    let jobs : length added + length t.jobs ≡ length (jobs_of c.entries) =
      Steps-jobs c.time_slot (boot m c).threads t added freed steps in
    (
      moved.valid,
      all,
      omega (arith, jobs, length-jobs_of c.entries, length-Perm all, length-append freed (held t)),
    )
