-- ===== src/Os/Admit.antt =====
-- What the loader adds to the processes that are held.
use mathlib.Core.Logic.Or
use mathlib.Core.List.{Perm, Mem, Nodup-cons, Mem-prop, eq-or-mem_of_mem-cons, perm_middle}
use mathlib.Core.List.Perm
use operating_systems_simula.Prelude.{
  ℕ, ◌%◌, ◌^◌, ◌<◌, ◌≡◌, ◌≢◌, refl, sym, ◌∙◌, Option, some, List, ◌∷◌, ◌++◌, arith, length,
  length-append, ne→==, eq→==, ℕ_discrete,
}
use operating_systems_simula.Queue.{Ptr, null, max_queue_size}
use operating_systems_simula.Queue.Laws.{length-contents}
use operating_systems_simula.Sched.{max_prio, level, put_proc}
use operating_systems_simula.Sched.Put.{put_mlq_proc-Queued, put_proc-add_proc}
use operating_systems_simula.Sched.Conserve.{procs, length-contents-le, Queued-perm}
use operating_systems_simula.Cpu.{Pcb}
use operating_systems_simula.Os.{Os, store}
use operating_systems_simula.Os.Held.{Stored, Held, Held-perm}
use operating_systems_simula.Os.Fetch.{IsOs}
use operating_systems_simula.Os.Load.{Job, Image, prepared, admit}

-- `malloc` gives an address that is not in use, and there is a place left.
pub record Admissible (os : Os) (on_cpus : List Ptr) (image : Image) (job : Job) : Type 0 where
  pub real : image.address ≢ null
  pub fresh : ¬ Mem image.address (on_cpus ++ procs os.sched)
  pub level : job.prio < max_prio
  pub room : length (on_cpus ++ procs os.sched) < max_queue_size

Held-add :
    (ps : Ptr → Option Pcb) (p : Ptr) (pcb : Pcb) (l : List Ptr)
    → p ≢ null
    → ¬ Mem p l
    → pcb.prio < max_prio
    → length l < max_queue_size
    → Held ps l
    → Held (store ps p (some pcb)) (p ∷ l)
Held-add ps p pcb l real fresh level room h = record {
  stored = λ q m. elim (ℕ_discrete p q) [
    | yes e ↦ record {
      real = λ z. real (e ∙ z);
      pcb = pcb;
      here = rw (eq→== p q e) refl;
      level = level;
    }
    | no ne ↦
        let s : Stored ps q =
          h.stored q
            (Or.elim Mem-prop (eq-or-mem_of_mem-cons m) (λ e. absurd (ne (sym e))) (λ i. i)) in
        record { real = s.real; pcb = s.pcb; here = rw (ne→== p q ne) s.here; level = s.level }
  ];
  once = Nodup-cons.1 (fresh, h.once);
  room = omega (arith, room);
}

-- The loader adds a process with a new address: it waits, and the others are held as before.
pub admit-Kept :
    (os : Os) (on_cpus : List Ptr) (image : Image) (job : Job)
    → IsOs os on_cpus
    → Admissible os on_cpus image job
    → (os' : Os) × (admit os image job ≡ some os')
      × IsOs os' on_cpus
      × Perm (image.address ∷ (on_cpus ++ procs os.sched)) (on_cpus ++ procs os'.sched)
unfolding admit put_proc
admit-Kept os on_cpus image job v a =
    let prio : ℕ = job.prio % 2 ^ 32 in
    let b : prio < max_prio = omega (arith, a.level) in
    let fits = length-contents-le prio os.sched.mlq_ready_queue (omega (arith, v.sched.levels)) in
    let size = length-contents (level os.sched prio) (v.sched.queues prio b) in
    let whole = length-append on_cpus (procs os.sched) in
    let (t, e, q) =
      put_mlq_proc-Queued os.sched image.address prio v.sched b
        (omega (arith, fits, size, whole, a.room)) in
    let moved : Perm (image.address ∷ (on_cpus ++ procs os.sched)) (on_cpus ++ procs t) =
      Perm.symm (
        Perm.trans
          (Perm.append_left on_cpus (Queued-perm os.sched t image.address prio v.sched b q))
          (perm_middle on_cpus (procs os.sched))) in
    let os' : Os = record os {
      sched = t;
      procs = store os.procs image.address (some (prepared image job));
    } in
    (
      os',
      rw (sym (put_proc-add_proc os.sched image.address prio), e) refl,
      record {
        sched = q.valid;
        held =
            Held-perm os'.procs moved (
              Held-add os.procs image.address (prepared image job) _ a.real a.fresh b a.room
                v.held);
      },
      moved,
    )
