-- ===== src/Os/Fetch.antt =====
-- Calls of the scheduler from `cpu_routine`: what a CPU takes from the ready queue and puts back.
use mathlib.Core.List.{Perm, perm_middle, mem-cons_self, mem-append_right}
use mathlib.Core.List.Perm
use operating_systems_simula.Prelude.{
  ℕ, ◌<◌, ◌≡◌, ◌≢◌, refl, inl, inr, some, List, ◌∷◌, ◌++◌, arith, length-append,
}
use operating_systems_simula.Queue.{Ptr, null}
use operating_systems_simula.Queue.Laws.{length-contents}
use operating_systems_simula.Sched.{max_prio, Sched, level, get_proc, put_proc}
use operating_systems_simula.Sched.Levels.{IsSched}
use operating_systems_simula.Sched.Dispatch.{get_mlq_proc-Outcome, Outcome-IsSched}
use operating_systems_simula.Sched.Put.{put_mlq_proc-Queued}
use operating_systems_simula.Sched.Conserve.{
  procs, length-contents-le, Conserves, Outcome-Conserves, Queued-perm,
}
use operating_systems_simula.Os.{Os, fetch}
use operating_systems_simula.Os.Held.{Held, Held-perm, running, running-null, running-some}

-- The processes `on_cpus` run, the others wait.
pub record IsOs (os : Os) (on_cpus : List Ptr) : Type 0 where
  pub sched : IsSched os.sched
  pub held : Held os.procs (on_cpus ++ procs os.sched)

-- From `os` to `os'` a CPU has taken `p`, or nothing if that is NULL.
pub record Fetched (os os' : Os) (p : Ptr) (others : List Ptr) : Type 0 where
  pub valid : IsOs os' (running p ++ others)
  pub accounted : Perm (others ++ procs os.sched) ((running p ++ others) ++ procs os'.sched)
  pub rest : os' ≡ record os { sched = os'.sched }

Conserves-Perm :
    (os : Os) (others : List Ptr) (p : Ptr) (t : Sched)
    → IsOs os others
    → Conserves os.sched (p, t)
    → Perm (others ++ procs os.sched) ((running p ++ others) ++ procs t)
Conserves-Perm os others p t v (inl (e, same)) =
    rw (running-null p e, same) (Perm.refl (others ++ procs os.sched))
Conserves-Perm os others p t v (inr moved) =
    let real : p ≢ null =
      (v.held.stored p (mem-append_right others ((Perm.mem_iff moved).1 mem-cons_self))).real in
    rw (running-some p real)
      (Perm.trans (Perm.append_left others moved) (perm_middle others (procs t)))

-- `get_proc` succeeds, and every process is then on a CPU or in the queue, as before.
pub fetch-Fetched :
    (os : Os) (others : List Ptr)
    → IsOs os others
    → (p : Ptr) × (os' : Os) × (fetch os ≡ some (p, os')) × Fetched os os' p others
unfolding fetch get_proc
fetch-Fetched os others v =
    let ((p, t), e, o) = get_mlq_proc-Outcome os.sched v.sched in
    let moved = Conserves-Perm os others p t v (Outcome-Conserves v.sched o) in
    (
      p,
      record os { sched = t },
      rw e refl,
      record {
        valid = record {
          sched = Outcome-IsSched v.sched o;
          held = Held-perm os.procs moved v.held;
        };
        accounted = moved;
        rest = refl;
      },
    )

-- A process that a CPU gives back finds a place, since there are no more than ten.
pub put_proc-Kept :
    (os : Os) (p : Ptr) (prio : ℕ) (others : List Ptr)
    → IsOs os (p ∷ others)
    → prio < max_prio
    → (t : Sched) × (put_proc os.sched p prio ≡ some t)
      × IsOs (record os { sched = t }) others
      × Perm ((p ∷ others) ++ procs os.sched) (others ++ procs t)
unfolding put_proc
put_proc-Kept os p prio others v b =
    let fits = length-contents-le prio os.sched.mlq_ready_queue (omega (arith, v.sched.levels)) in
    let size = length-contents (level os.sched prio) (v.sched.queues prio b) in
    let whole = length-append others (procs os.sched) in
    let (t, e, q) =
      put_mlq_proc-Queued os.sched p prio v.sched b
        (omega (arith, fits, size, whole, v.held.room)) in
    let moved : Perm ((p ∷ others) ++ procs os.sched) (others ++ procs t) = Perm.symm (
      Perm.trans (Perm.append_left others (Queued-perm os.sched t p prio v.sched b q))
        (perm_middle others (procs os.sched))) in
    (t, e, record { sched = q.valid; held = Held-perm os.procs moved v.held }, moved)
