-- ===== src/Sched/Conserve.antt =====
-- The ready queue as a multiset of processes: no call loses a process or makes one up.
use mathlib.Core.List.{Perm, perm_middle, perm_append_singleton}
use mathlib.Core.List.Perm
use operating_systems_simula.Prelude.{
  ℕ, zero, suc, ◌≡◌, refl, ◌≢◌, ◌⊎◌, inl, inr, some, List, [], ◌∷◌, ◌++◌, arith, length,
  length-append, get_or, ◌≤◌, ap, ap₂, sym, ◌<◌, subst,
}
use operating_systems_simula.Queue.{Ptr, null, Queue}
use operating_systems_simula.Queue.Laws.{contents}
use operating_systems_simula.Sched.{max_prio, Sched, no_queue, level, reset_slot, get_mlq_proc}
use operating_systems_simula.Sched.Levels.{IsSched, level-reset_slot, reset_slot-IsSched}
use operating_systems_simula.Sched.Dispatch.{
  Dispatched, Outcome, idle, served, refilled, restarted, get_mlq_proc-Outcome,
}
use operating_systems_simula.Sched.Put.{Queued}

unfoldable pub procs_of : List Queue → List Ptr
procs_of [] = []
procs_of (q ∷ qs) = contents q ++ procs_of qs

-- All processes that wait, level by level.
abbrev pub procs : Sched → List Ptr
procs s = procs_of s.mlq_ready_queue

pub procs_of-same :
    (qs rs : List Queue)
    → length qs ≡ length rs
    → ((j : ℕ) → j < length qs → contents (get_or rs j no_queue) ≡ contents (get_or qs j no_queue))
    → procs_of rs ≡ procs_of qs
unfolding procs_of
procs_of-same [] [] e h = refl
procs_of-same [] (r ∷ rs) e h = absurd (omega arith)
procs_of-same (q ∷ qs) [] e h = absurd (omega arith)
procs_of-same (q ∷ qs) (r ∷ rs) e h =
    ap₂ ◌++◌ (h 0 (omega arith))
      (procs_of-same qs rs (omega arith) (λ j b. h (suc j) (omega arith)))

-- A list of queues that differs from another in one place, by one more process there.
pub procs_of-perm :
    (k : ℕ) (p : Ptr) (qs rs : List Queue)
    → length qs ≡ length rs
    → k < length qs
    → Perm (contents (get_or qs k no_queue)) (p ∷ contents (get_or rs k no_queue))
    → ((j : ℕ) → j ≢ k → contents (get_or rs j no_queue) ≡ contents (get_or qs j no_queue))
    → Perm (procs_of qs) (p ∷ procs_of rs)
unfolding procs_of
procs_of-perm k p [] rs e b c h = absurd (omega arith)
procs_of-perm k p (q ∷ qs) [] e b c h = absurd (omega arith)
procs_of-perm zero p (q ∷ qs) (r ∷ rs) e b c h =
    rw (procs_of-same qs rs (omega arith) (λ j g. h (suc j) (omega arith)))
      (Perm.append_right (procs_of qs) c)
procs_of-perm (suc k) p (q ∷ qs) (r ∷ rs) e b c h = rw (h 0 (omega arith)) (
    Perm.trans
      (Perm.append_left (contents q)
        (procs_of-perm k p qs rs (omega arith) (omega arith) c (λ j ne. h (suc j) (omega arith))))
      (perm_middle (contents q) (procs_of rs)))

Dispatched-perm :
    (s t : Sched) (p : Ptr) (k : ℕ) → IsSched s → Dispatched s t p k → Perm (procs s) (p ∷ procs t)
Dispatched-perm s t p k v d =
    procs_of-perm k p s.mlq_ready_queue t.mlq_ready_queue (omega (arith, v.levels, d.valid.levels))
      (omega (arith, v.levels, d.in_range))
      (subst (λ l. Perm (contents (level s k)) l) d.taken (Perm.refl _))
      (λ j ne. ap contents (d.others j ne))

pub procs-reset_slot : (s : Sched) → IsSched s → procs (reset_slot s) ≡ procs s
procs-reset_slot s v =
    let w : IsSched (reset_slot s) = reset_slot-IsSched s v in
    procs_of-same s.mlq_ready_queue (reset_slot s).mlq_ready_queue
      (omega (arith, v.levels, w.levels))
      (λ j b. ap contents (level-reset_slot s j v.levels (omega (arith, v.levels))))

-- What a call may do to the multiset of the waiting processes.
abbrev pub Conserves : Sched → Ptr × Sched → Type 0
Conserves s (p, t) = ((p ≡ null) × (procs t ≡ procs s)) ⊎ Perm (procs s) (p ∷ procs t)

pub Outcome-Conserves :
    {s : Sched} {out : Ptr × Sched} → IsSched s → Outcome s out → Conserves s out
Outcome-Conserves v (idle e) = inl (refl, refl)
Outcome-Conserves {s} v (served p t l d) = inr (Dispatched-perm s t p l.at v d)
Outcome-Conserves {s} v (refilled e h w) = inl (refl, procs-reset_slot s v)
Outcome-Conserves {s} v (restarted p t l h w d) = inr (
    subst (λ ps. Perm ps (p ∷ procs t)) (procs-reset_slot s v)
      (Dispatched-perm (reset_slot s) t p l.at (reset_slot-IsSched s v) d))

-- A call of `get_mlq_proc` hands out exactly the process that it takes off the queues, or returns
-- NULL and keeps them all: none is lost, none is doubled.
pub get_mlq_proc-Conserves :
    (s : Sched) → IsSched s → (out : Ptr × Sched) × (get_mlq_proc s ≡ some out) × Conserves s out
get_mlq_proc-Conserves s v =
    let (out, e, o) = get_mlq_proc-Outcome s v in (out, e, Outcome-Conserves v o)

-- A process put back is one more among those that wait, and the others stay.
pub Queued-perm :
    (s t : Sched) (p : Ptr) (k : ℕ)
    → IsSched s
    → k < max_prio
    → Queued s t p k
    → Perm (procs t) (p ∷ procs s)
Queued-perm s t p k v h q =
    procs_of-perm k p t.mlq_ready_queue s.mlq_ready_queue (omega (arith, v.levels, q.valid.levels))
      (omega (arith, q.valid.levels)) (rw q.joined (perm_append_singleton p (contents (level s k))))
      (λ j ne. ap contents (sym (q.others j ne)))

-- No level has more processes than all of them.
pub length-contents-le :
    (k : ℕ) (qs : List Queue)
    → k < length qs
    → length (contents (get_or qs k no_queue)) ≤ length (procs_of qs)
unfolding procs_of
length-contents-le k [] h = absurd (omega arith)
length-contents-le zero (q ∷ qs) h = omega (arith, length-append (contents q) (procs_of qs))
length-contents-le (suc k) (q ∷ qs) h =
    omega (arith, length-append (contents q) (procs_of qs), length-contents-le k qs (omega arith))
