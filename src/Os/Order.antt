-- ===== src/Os/Order.antt =====
-- What holds in every order of the rounds of the threads.
use mathlib.Core.List.Perm
use mathlib.Core.Option.{some-injective}
use operating_systems_simula.Prelude.{
  account, ℕ, ◌^◌, ◌<◌, ◌≡◌, refl, sym, ◌∙◌, subst, some, true, List, [], ◌∷◌, ◌++◌, lt→ltb,
}
use operating_systems_simula.Queue.{Ptr, null}
use operating_systems_simula.Os.{Os, stop, next_slot}
use operating_systems_simula.Os.Held.{running-null}
use operating_systems_simula.Os.Load.{Job, ld_round}
use operating_systems_simula.Os.Threads.{
  Threads, on_cpus, held, Step, slot, stops, adds, waits, ends, Steps, here, more, Valid,
}
use operating_systems_simula.Os.Moves.{
  Moved, on_cpus-middle, InSlot-take, InSlot-put, round-Accounted, left_Moved, adds-Moved,
}

-- The answer of the loader, where it adds nothing.
quiet-Moved :
    (n : ℕ) (s : Threads) (os : Os) (out out' : Os × List Job)
    → some out ≡ some out'
    → Moved n s [] [] (record { os = out.0; cpus = s.cpus; jobs = out.1 })
    → Moved n s [] [] (record { os = out'.0; cpus = s.cpus; jobs = out'.1 })
quiet-Moved n s os out out' e m =
    subst (λ o. Moved n s [] [] (record { os = o.0; cpus = s.cpus; jobs = o.1 }))
      (some-injective _ _ e) m

unchanged : (n : ℕ) (s : Threads) → Valid n s → Moved n s [] [] s
unchanged n s v = record { valid = v; all_there = Perm.refl (held s) }

Step-Moved :
    (n : ℕ) (s t : Threads) (added freed : List Ptr)
    → 0 < n
    → n < 2 ^ 31
    → Valid n s
    → Step n s added freed t
    → Moved n s added freed t
unfolding ld_round
Step-Moved n s t added freed pos word v (slot os os' before after cpu cpu' jobs junk runs e) =
    let (a, less) =
      round-Accounted n os before after cpu jobs junk (next_slot os' cpu') pos word v runs e in
    left_Moved n os before after cpu jobs (next_slot os' cpu') v a (before ++ (cpu' ∷ after))
      (Perm.symm (on_cpus-middle before after cpu'))
      (InSlot-put n before after cpu' less (InSlot-take n before after cpu v.slots).1)
Step-Moved n s t added freed pos word v (stops os os' before after cpu jobs junk runs e) =
    let (a, less) = round-Accounted n os before after cpu jobs junk (stop os') pos word v runs e in
    left_Moved n os before after cpu jobs (stop os') v a (before ++ after)
      (rw (running-null null refl) (Perm.refl (on_cpus (before ++ after))))
      (InSlot-take n before after cpu v.slots).1
Step-Moved n s t added freed pos word v (adds os os' cpus job jobs now image real fresh due e) =
    adds-Moved n os os' cpus job jobs now image v real fresh due e
Step-Moved n s t added freed pos word v (waits os os' cpus job jobs jobs' now image early e) =
    quiet-Moved n s os (os, job ∷ jobs) (os', jobs')
      (sym (rw (lt→ltb now job.start_time early) refl) ∙ e) (unchanged n s v)
Step-Moved n s t added freed pos word v (ends os os' cpus jobs' now image e) =
    quiet-Moved n s os (record os { done = true }, []) (os', jobs') e
      (record {
        valid = record {
          os = record { sched = v.os.sched; held = v.os.held };
          slots = v.slots;
          levels = v.levels;
          room = v.room;
        };
        all_there = Perm.refl (held s);
      })

-- Let at most ten processes be held and to come, each at a level of the queue and each held once. Then
-- in every order of the rounds of the CPUs and of the loader, a round being one step, no process is
-- lost and none is held twice: those at the start and those added since are, each once, the ones that
-- now run or wait and the ones that were freed, which a CPU does only at the end of a program. The ready
-- queue stays valid. The instructions that are run meet no fault, and `malloc` gives the loader
-- addresses that are not in use.
pub Steps-Moved :
    (n : ℕ) (s t : Threads) (added freed : List Ptr)
    → 0 < n
    → n < 2 ^ 31
    → Valid n s
    → Steps n s added freed t
    → Moved n s added freed t
Steps-Moved n s t added freed pos word v (here r) = unchanged n s v
Steps-Moved n s t added freed pos word v (more r m u a a' f f' step steps) =
    let first = Step-Moved n s m a f pos word v step in
    let rest = Steps-Moved n m t a' f' pos word first.valid steps in
    record {
      valid = rest.valid;
      all_there = account a a' f f' (held s) (held m) (held t) first.all_there rest.all_there;
    }
