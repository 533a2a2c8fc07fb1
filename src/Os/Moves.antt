-- ===== src/Os/Moves.antt =====
-- What one round of a thread does to the processes that are held.
use mathlib.Core.List.{Perm, Mem}
use mathlib.Core.List.Perm
use mathlib.Core.Option.{some-injective}
use operating_systems_simula.Prelude.{
  swap_front, ℕ, ◌^◌, ◌≤◌, ◌<◌, ◌≡◌, ◌≢◌, refl, sym, ◌∙◌, ap, subst, Option, some, List, [], ◌∷◌,
  ◌++◌, arith, length-append, le→ltb,
}
use operating_systems_simula.Queue.{Ptr, null}
use operating_systems_simula.Sched.Conserve.{procs}
use operating_systems_simula.Cpu.{Junk}
use operating_systems_simula.Os.{Os, CpuState, Round, cpu_round}
use operating_systems_simula.Os.Held.{Held-perm, running, length-Perm}
use operating_systems_simula.Os.Fetch.{IsOs}
use operating_systems_simula.Os.Choose.{ending}
use operating_systems_simula.Os.Rounds.{
  Runs, Accounted, os_after, proc_after, left_after, cpu_round-Accounted,
}
use operating_systems_simula.Os.Load.{Job, Image, admit, ld_round}
use operating_systems_simula.Os.Admit.{admit-Kept}
use operating_systems_simula.Os.Threads.{Threads, on_cpus, held, InSlot, Leveled, Valid}

-- From `s` to `t` some processes were added and some freed; all others are held as before.
pub record Moved (time_slot : ℕ) (s : Threads) (added freed : List Ptr) (t : Threads) : Type 0 where
  pub valid : Valid time_slot t
  pub all_there : Perm (added ++ held s) (freed ++ held t)

pub on_cpus-middle :
    (before after : List CpuState) (cpu : CpuState)
    → Perm (on_cpus (before ++ (cpu ∷ after))) (running cpu.proc ++ on_cpus (before ++ after))
unfolding on_cpus
on_cpus-middle [] after cpu = Perm.refl (running cpu.proc ++ on_cpus after)
on_cpus-middle (c ∷ before) after cpu =
    Perm.trans (Perm.append_left (running c.proc) (on_cpus-middle before after cpu))
      (swap_front (running c.proc) (running cpu.proc) (on_cpus (before ++ after)))

IsOs-perm : (os : Os) {l m : List Ptr} → Perm l m → IsOs os l → IsOs os m
IsOs-perm os p v = record {
  sched = v.sched;
  held = Held-perm os.procs (Perm.append_right (procs os.sched) p) v.held;
}

pub InSlot-take :
    (n : ℕ) (before after : List CpuState) (cpu : CpuState)
    → InSlot n (before ++ (cpu ∷ after))
    → (cpu.time_left < n) × InSlot n (before ++ after)
unfolding InSlot
InSlot-take n [] after cpu h = h
InSlot-take n (c ∷ before) after cpu h =
    let k = InSlot-take n before after cpu h.1 in (k.0, (h.0, k.1))

pub InSlot-put :
    (n : ℕ) (before after : List CpuState) (cpu : CpuState)
    → cpu.time_left < n
    → InSlot n (before ++ after)
    → InSlot n (before ++ (cpu ∷ after))
unfolding InSlot
InSlot-put n [] after cpu b h = (b, h)
InSlot-put n (c ∷ before) after cpu b h = (h.0, InSlot-put n before after cpu b h.1)

-- A round of the CPU between `before` and `after`.
pub round-Accounted :
    (n : ℕ) (os : Os) (before after : List CpuState) (cpu : CpuState) (jobs : List Job)
    (junk : Junk) (round : Round)
    → 0 < n
    → n < 2 ^ 31
    → Valid n (record { os = os; cpus = before ++ (cpu ∷ after); jobs = jobs })
    → Runs junk os
    → cpu_round n junk os cpu ≡ some round
    → Accounted os cpu (on_cpus (before ++ after)) round × (left_after round < n)
round-Accounted n os before after cpu jobs junk round pos word v runs e =
    let (r, e', a, less) =
      cpu_round-Accounted n junk os cpu (on_cpus (before ++ after)) pos word
        (InSlot-take n before after cpu v.slots).0 runs
        (IsOs-perm os (on_cpus-middle before after cpu) v.os) in
    subst (λ q. Accounted os cpu (on_cpus (before ++ after)) q × (left_after q < n))
      (some-injective _ _ (sym e' ∙ e)) (a, less)

-- What a round that is accounted for does to a system, whether the CPU goes on or stops.
module _ (n : ℕ) (os : Os) (before after : List CpuState) (cpu : CpuState) (jobs : List Job)
    (round : Round) (v : Valid n (record { os = os; cpus = before ++ (cpu ∷ after); jobs = jobs }))
    (a : Accounted os cpu (on_cpus (before ++ after)) round) where
  all_held : Perm (on_cpus (before ++ (cpu ∷ after)) ++ procs os.sched) (
      ending os.procs cpu.proc
      ++ ((running (proc_after round) ++ on_cpus (before ++ after))
          ++ procs (os_after round).sched))
  all_held =
      Perm.trans (Perm.append_right (procs os.sched) (on_cpus-middle before after cpu)) a.all_there

  pub left_Moved :
      (cpus : List CpuState)
      → Perm (running (proc_after round) ++ on_cpus (before ++ after)) (on_cpus cpus)
      → InSlot n cpus
      → Moved n
          (record { os = os; cpus = before ++ (cpu ∷ after); jobs = jobs })
          []
          (ending os.procs cpu.proc)
          (record { os = os_after round; cpus = cpus; jobs = jobs })
  left_Moved cpus p slots =
      let there = Perm.trans all_held (
        Perm.append_left (ending os.procs cpu.proc)
          (Perm.append_right (procs (os_after round).sched) p)) in
      record {
        valid = record {
          os = IsOs-perm (os_after round) p a.valid;
          slots = slots;
          levels = v.levels;
          room = omega (
            arith,
            length-Perm there,
            length-append (ending os.procs cpu.proc) (on_cpus cpus ++ procs (os_after round).sched),
            v.room,
          );
        };
        all_there = there;
      }

-- The loader adds the process of the next job.
pub adds-Moved :
    (n : ℕ) (os os' : Os) (cpus : List CpuState) (job : Job) (jobs : List Job) (now : ℕ)
    (image : Image)
    → Valid n (record { os = os; cpus = cpus; jobs = job ∷ jobs })
    → image.address ≢ null
    → ¬ Mem image.address (on_cpus cpus ++ procs os.sched)
    → job.start_time ≤ now
    → ld_round now image os (job ∷ jobs) ≡ some (os', jobs)
    → Moved n
        (record { os = os; cpus = cpus; jobs = job ∷ jobs })
        (image.address ∷ [])
        []
        (record { os = os'; cpus = cpus; jobs = jobs })
unfolding ld_round Leveled
adds-Moved n os os' cpus job jobs now image v real fresh due e =
    let (os'', got, valid, there) =
      admit-Kept os (on_cpus cpus) image job v.os
        (record { real = real; fresh = fresh; level = v.levels.0; room = omega (arith, v.room) }) in
    let same : os'' ≡ os' = ap (λ o. o.0) (some-injective _ _ (sym (added os'' got) ∙ e)) in
    subst
      (λ o.
        Moved n (record { os = os; cpus = cpus; jobs = job ∷ jobs }) (image.address ∷ []) []
          (record { os = o; cpus = cpus; jobs = jobs }))
      same
      (record {
        valid = record {
          os = valid;
          slots = v.slots;
          levels = v.levels.1;
          room = omega (arith, length-Perm there, v.room);
        };
        all_there = there;
      })
  where
    added :
        (o : Os)
        → admit os image job ≡ some o
        → ◌≡◌ {A = Option (Os × List Job)} (ld_round now image os (job ∷ jobs)) (some (o, jobs))
    added o h = unfold ld_round in rw (le→ltb now job.start_time due, h) refl
