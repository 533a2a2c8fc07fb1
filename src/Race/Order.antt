-- ===== src/Race/Order.antt =====
-- No process is lost or doubled, in whatever order the critical sections of the calls come.
use mathlib.Core.Logic.Or
use mathlib.Core.HLevel.{⊥_prop}
use mathlib.Core.Option.{some-injective}
use mathlib.Core.List.{
  Perm, Mem, append_assoc, mem-append, mem-append_left, eq-or-mem_of_mem-cons, not-mem-nil,
}
use mathlib.Core.List.Perm
use operating_systems_simula.Prelude.{
  ℕ, ◌≡◌, ◌≢◌, sym, ◌∙◌, subst, some, List, [], ◌∷◌, ◌++◌, ◌<◌, swap_front, account, ℕ_discrete,
}
use operating_systems_simula.Queue.{Ptr, null, max_queue_size}
use operating_systems_simula.Sched.{max_prio, Sched, level, put_mlq_proc}
use operating_systems_simula.Sched.Conserve.{procs}
use operating_systems_simula.Race.Queues.{put_mlq_proc-IsQueues}
use operating_systems_simula.Os.Held.{running, running-null, running-some}
use operating_systems_simula.Race.{
  At, scanning, checking, deciding, taking, resetting, back, call_step,
}
use operating_systems_simula.Race.Section.{returned, AtLevel, call_step-Sound}
use operating_systems_simula.Race.Calls.{
  Calls, all_returned, present, Step, goes, hands, puts, Steps, here, more, AtLevels, IsCalls,
}

-- What a step leaves.
pub record Kept (c : Calls) (added handed : List Ptr) (d : Calls) : Type 0 where
  pub valid : IsCalls d
  pub all_there : Perm (added ++ present c) (handed ++ present d)

running-real : (p : Ptr) → ¬ Mem null (running p)
running-real p m = elim (ℕ_discrete p null) [
  | yes e ↦ not-mem-nil (subst (λ l. Mem null l) (running-null p e) m)
  | no ne ↦
      Or.elim ⊥_prop (eq-or-mem_of_mem-cons (subst (λ l. Mem null l) (running-some p ne) m))
        (λ e. ne (sym e)) not-mem-nil
]

returned-real : (a : At) → ¬ Mem null (returned a)
unfolding returned
returned-real (scanning k) m = not-mem-nil m
returned-real (checking k) m = not-mem-nil m
returned-real (deciding k) m = not-mem-nil m
returned-real (taking k) m = not-mem-nil m
returned-real resetting m = not-mem-nil m
returned-real (back p) m = running-real p m

all_returned-middle :
    (before after : List At) (a : At)
    → Perm (all_returned (before ++ (a ∷ after))) (returned a ++ all_returned (before ++ after))
unfolding all_returned
all_returned-middle [] after a = Perm.refl (returned a ++ all_returned after)
all_returned-middle (b ∷ before) after a =
    Perm.trans (Perm.append_left (returned b) (all_returned-middle before after a))
      (swap_front (returned b) (returned a) (all_returned (before ++ after)))

-- The processes of a system, with those of one call next to those that wait.
present-middle :
    (s : Sched) (before after : List At) (a : At)
    → Perm
        (procs s ++ all_returned (before ++ (a ∷ after)))
        ((procs s ++ returned a) ++ all_returned (before ++ after))
present-middle s before after a =
    rw (append_assoc (procs s) (returned a) (all_returned (before ++ after)))
      (Perm.append_left (procs s) (all_returned-middle before after a))

AtLevels-take :
    (before after : List At) (a : At)
    → AtLevels (before ++ (a ∷ after))
    → AtLevel a × AtLevels (before ++ after)
unfolding AtLevels
AtLevels-take [] after a h = h
AtLevels-take (b ∷ before) after a h = let k = AtLevels-take before after a h.1 in (k.0, (h.0, k.1))

AtLevels-put :
    (before after : List At) (a : At)
    → AtLevel a
    → AtLevels (before ++ after)
    → AtLevels (before ++ (a ∷ after))
unfolding AtLevels
AtLevels-put [] after a at h = (at, h)
AtLevels-put (b ∷ before) after a at h = (h.0, AtLevels-put before after a at h.1)

goes-Kept :
    (s : Sched) (before after : List At) (a : At)
    → IsCalls (record { sched = s; calls = before ++ (a ∷ after) })
    → Kept
        (record { sched = s; calls = before ++ (a ∷ after) })
        []
        []
        (record { sched = (call_step s a).0; calls = before ++ ((call_step s a).1 ∷ after) })
goes-Kept s before after a v =
    let (at, levels) = AtLevels-take before after a v.levels in
    let sound = call_step-Sound s a v.sched v.real at in
    record {
      valid = record {
        sched = sound.sched;
        real = λ m.
            Or.elim ⊥_prop
              (mem-append.0
                ((Perm.mem_iff sound.same).1 (mem-append_left (returned (call_step s a).1) m)))
              v.real (returned-real a);
        levels = AtLevels-put before after (call_step s a).1 sound.at levels;
      };
      all_there = Perm.trans (present-middle s before after a) (
          Perm.trans (Perm.append_right (all_returned (before ++ after)) sound.same)
            (Perm.symm (present-middle (call_step s a).0 before after (call_step s a).1)));
    }

hands-Kept :
    (s : Sched) (before after : List At) (p : Ptr)
    → IsCalls (record { sched = s; calls = before ++ (back p ∷ after) })
    → Kept
        (record { sched = s; calls = before ++ (back p ∷ after) })
        []
        (running p)
        (record { sched = s; calls = before ++ (scanning 0 ∷ after) })
unfolding AtLevel returned
hands-Kept s before after p v =
    let rest : List Ptr = all_returned (before ++ after) in
    record {
      valid = record {
        sched = v.sched;
        real = v.real;
        levels =
            AtLevels-put before after (scanning 0) tt
              (AtLevels-take before after (back p) v.levels).1;
      };
      all_there =
          Perm.trans (Perm.append_left (procs s) (all_returned-middle before after (back p))) (
            Perm.trans (swap_front (procs s) (running p) rest) (
              Perm.append_left (running p) (
                Perm.append_left (procs s)
                  (Perm.symm (all_returned-middle before after (scanning 0))))));
    }

puts-Kept :
    (s t : Sched) (calls : List At) (p : Ptr) (prio : ℕ)
    → p ≢ null
    → prio < max_prio
    → (level s prio).size < max_queue_size
    → put_mlq_proc s p prio ≡ some t
    → IsCalls (record { sched = s; calls = calls })
    → Kept (record { sched = s; calls = calls }) (p ∷ []) [] (record { sched = t; calls = calls })
puts-Kept s t calls p prio ne b room e v =
    let (u, got, w, moved) = put_mlq_proc-IsQueues s p prio v.sched b room in
    let same : u ≡ t = some-injective _ _ (sym got ∙ e) in
    subst
      (λ t.
        Kept (record { sched = s; calls = calls }) (p ∷ []) []
          (record { sched = t; calls = calls }))
      same
      (record {
        valid = record {
          sched = w;
          real = λ m.
              Or.elim ⊥_prop (eq-or-mem_of_mem-cons ((Perm.mem_iff moved).0 m)) (λ z. ne (sym z))
                v.real;
          levels = v.levels;
        };
        all_there = Perm.append_right (all_returned calls) (Perm.symm moved);
      })

Step-Kept :
    (c d : Calls) (added handed : List Ptr)
    → IsCalls c
    → Step c added handed d
    → Kept c added handed d
Step-Kept c d added handed v (goes s before after a) = goes-Kept s before after a v
Step-Kept c d added handed v (hands s before after p) = hands-Kept s before after p v
Step-Kept c d added handed v (puts s t calls p prio ne b room e) =
    puts-Kept s t calls p prio ne b room e v

-- Let any number of calls of `get_mlq_proc` take their critical sections in any order, with processes
-- put in between where their level has a place. Every level keeps its array of ten places with at most
-- ten processes, though its slot may be any word; and the processes at the start and those put since
-- are, each as often as it was there or put, those that now wait, those that a call is about to return
-- and those that the CPUs were given: none is lost and none is doubled.
pub Steps-Kept :
    (c d : Calls) (added handed : List Ptr)
    → IsCalls c
    → Steps c added handed d
    → Kept c added handed d
Steps-Kept c d added handed v (here x) = record { valid = v; all_there = Perm.refl (present c) }
Steps-Kept c d added handed v (more x m y a a' h h' step steps) =
    let first = Step-Kept c m a h v step in
    let rest = Steps-Kept m d a' h' first.valid steps in
    record {
      valid = rest.valid;
      all_there =
          account a a' h h' (present c) (present m) (present d) first.all_there rest.all_there;
    }
