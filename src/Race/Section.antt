-- ===== src/Race/Section.antt =====
-- What one critical section of a call does to the processes that wait, whatever other calls did before.
use mathlib.Core.List.{Perm, Mem, append-nil, mem-cons_self, perm_append_singleton}
use mathlib.Core.List.Perm
use operating_systems_simula.Prelude.{
  ℕ, ◌+◌, ◌-◌, ◌≡◌, ◌≢◌, refl, sym, ap, subst, inl, inr, Bool, true, false, ◌&&◌, List, [], ◌∷◌,
  ◌++◌, arith, ltb, ◌==◌, if◌then◌else◌, Bool-cases, length, length-set, ◌<◌, ℕ_discrete,
}
use operating_systems_simula.Queue.{Ptr, null, Queue, empty, dequeue}
use operating_systems_simula.Queue.Laws.{contents, dequeue-cons, dequeue-nil}
use operating_systems_simula.Sched.{
  max_prio, Sched, level, put_level, reset_slot, dispatch, less_one,
}
use operating_systems_simula.Sched.Levels.{level-put_level_self, level-put_level_ne}
use operating_systems_simula.Sched.Conserve.{procs, procs_of-same, procs_of-perm}
use operating_systems_simula.Race.Queues.{
  IsQueues, put_level-IsQueues, reset_slot-IsQueues, procs-reset,
}
use operating_systems_simula.Os.Held.{running, running-null, running-some}
use operating_systems_simula.Race.{
  At, scanning, checking, deciding, taking, resetting, back, call_step,
}

-- The process that a call has taken and not yet handed on.
unfoldable pub returned : At → List Ptr
returned (back p) = running p
returned _ = []

-- A call that is past the first section of a round is at a level.
unfoldable pub AtLevel : At → Type 0
AtLevel (deciding k) = k < max_prio
AtLevel (taking k) = k < max_prio
AtLevel _ = Unit {0}

-- What a step leaves: no process is lost and none is made up.
pub record Sound (s : Sched) (a : At) (out : Sched × At) : Type 0 where
  pub sched : IsQueues out.0
  pub at : AtLevel out.1
  pub same : Perm (procs s ++ returned a) (procs out.0 ++ returned out.1)

module _ (s : Sched) (k : ℕ) (v : IsQueues s) (b : k < max_prio) where
  -- The queue `r` at level `k`, all other levels as before.
  others_same :
      (r : Queue) (j : ℕ) → j ≢ k → contents (level (put_level s k r) j) ≡ contents (level s j)
  others_same r j ne = ap contents (level-put_level_ne s k j r (λ e. ne (sym e)))

  length-put_level :
      (r : Queue) → length s.mlq_ready_queue ≡ length (put_level s k r).mlq_ready_queue
  length-put_level r = omega (arith, length-set s.mlq_ready_queue k r)

  -- Another call has emptied the level in between: the turn is lost, and NULL is returned.
  dispatch_empty :
      (level s k).size ≡ 0 → Sound s (taking k) ((dispatch s k).1, back (dispatch s k).0)
  unfolding dispatch returned AtLevel
  dispatch_empty e =
      let r : Queue = record (level s k) { slot = less_one (level s k).slot } in
      let w = v.queues k b in
      let same : procs (put_level s k r) ≡ procs s =
        procs_of-same s.mlq_ready_queue (put_level s k r).mlq_ready_queue (length-put_level r)
          (λ j _. elim (ℕ_discrete j k) [
            | yes at ↦ rw (at, level-put_level_self s k r v.levels b) refl
            | no ne ↦ others_same r j ne
          ]) in
      rw (dequeue-nil (level s k) e) (record {
        sched =
            put_level-IsQueues s k r v b (record { places = w.places; fits = w.fits })
              (omega arith);
        at = tt;
        same = rw (running-null null refl, same) (Perm.refl (procs s ++ []));
      })

  dispatch_cons :
      ¬ Mem null (procs s)
      → 0 < (level s k).size
      → Sound s (taking k) ((dispatch s k).1, back (dispatch s k).0)
  unfolding dispatch returned AtLevel
  dispatch_cons real pos =
      let p : Ptr = (dequeue (level s k)).0 in
      let r : Queue = record ((dequeue (level s k)).1) {
        slot = less_one (dequeue (level s k)).1.slot;
      } in
      let (c, w, slots, _) = dequeue-cons (level s k) (v.queues k b) pos in
      let taken : contents (level s k) ≡ p ∷ contents (level (put_level s k r) k) =
        rw (level-put_level_self s k r v.levels b) c in
      let moved : Perm (procs s) (p ∷ procs (put_level s k r)) =
        procs_of-perm k p s.mlq_ready_queue (put_level s k r).mlq_ready_queue (length-put_level r)
          (omega (arith, v.levels, b))
          (subst (λ l. Perm (contents (level s k)) l) taken (Perm.refl _)) (others_same r) in
      let is_real : p ≢ null =
        λ e. real (subst (λ m. Mem m (procs s)) e ((Perm.mem_iff moved).1 mem-cons_self)) in
      record {
        sched =
            put_level-IsQueues s k r v b (record { places = w.places; fits = w.fits })
              (omega arith);
        at = tt;
        same =
            rw (running-some p is_real, append-nil)
              (Perm.trans moved (Perm.symm (perm_append_singleton p (procs (put_level s k r)))));
      }

unchanged :
    (s : Sched) (a a' : At)
    → IsQueues s
    → AtLevel a'
    → returned a ≡ []
    → returned a' ≡ []
    → Sound s a (s, a')
unchanged s a a' v at e e' = record {
  sched = v;
  at = at;
  same = rw (e, e') (Perm.refl (procs s ++ []));
}

reset_Sound :
    (s : Sched) (a a' : At)
    → IsQueues s
    → AtLevel a'
    → returned a ≡ []
    → returned a' ≡ []
    → Sound s a (reset_slot s, a')
reset_Sound s a a' v at e e' = record {
  sched = reset_slot-IsQueues s v;
  at = at;
  same = rw (e, e', procs-reset s v) (Perm.refl (procs s ++ []));
}

if_all {ℓ κ} :
    {A : Type ℓ} (P : A → Type κ) (b : Bool) {x y : A} → P x → P y → P (if b then x else y)
if_all P true p q = p
if_all P false p q = q

-- A step of a call keeps the queues in order, and every process stays in the queue or goes to the
-- call that returns it.
pub call_step-Sound :
    (s : Sched) (a : At) → IsQueues s → ¬ Mem null (procs s) → AtLevel a → Sound s a (call_step s a)
unfolding call_step returned AtLevel
call_step-Sound s (scanning k) v real at =
    if_all (Sound s (scanning k)) (ltb k max_prio)
      (if_all (λ a. Sound s (scanning k) (s, a)) (empty (level s k))
        (unchanged s (scanning k) (scanning (k + 1)) v tt refl refl)
        (unchanged s (scanning k) (checking 0) v tt refl refl))
      (if_all (λ a. Sound s (scanning k) (s, a)) (empty s.ready_queue && empty s.run_queue)
        (unchanged s (scanning k) (back null) v tt refl (running-null null refl))
        (unchanged s (scanning k) (checking 0) v tt refl refl))
call_step-Sound s (checking k) v real at = elim (Bool-cases (ltb k max_prio)) [
  | inl b ↦ rw b (
      if_all (Sound s (checking k)) (empty (level s k))
        (if_all (λ t. Sound s (checking k) (t, checking (k + 1))) (k == max_prio - 1)
          (reset_Sound s (checking k) (checking (k + 1)) v tt refl refl)
          (unchanged s (checking k) (checking (k + 1)) v tt refl refl))
        (unchanged s (checking k) (deciding k) v (ground arith) refl refl))
  | inr over ↦ rw over (unchanged s (checking k) (back null) v tt refl (running-null null refl))
]
call_step-Sound s (deciding k) v real at =
    if_all (λ a. Sound s (deciding k) (s, a)) (ltb 0 (level s k).slot)
      (unchanged s (deciding k) (taking k) v at refl refl)
      (if_all (λ a. Sound s (deciding k) (s, a)) (k == max_prio - 1)
        (unchanged s (deciding k) resetting v tt refl refl)
        (unchanged s (deciding k) (checking (k + 1)) v tt refl refl))
call_step-Sound s (taking k) v real at = elim (ℕ_discrete (level s k).size 0) [
  | yes e ↦ dispatch_empty s k v at e
  | no ne ↦ dispatch_cons s k v at real (omega (arith, ne))
]
call_step-Sound s resetting v real at = reset_Sound s resetting (checking (0 + 1)) v tt refl refl
call_step-Sound s (back p) v real at = record {
  sched = v;
  at = tt;
  same = Perm.refl (procs s ++ running p);
}
