-- ===== src/Os/Held.antt =====
-- The processes that the CPUs and the ready queue hold: each is allocated, and held once.
use mathlib.Core.HLevel.{hedberg}
use mathlib.Core.Logic.{∥∥₁_elim}
use mathlib.Core.List.{Perm, Permᴰ, Mem, Nodup, Nodup-cons, mem-cons_of_mem}
use mathlib.Core.List.Perm
use operating_systems_simula.Prelude.{
  suc, ◌≤◌, ◌<◌, ◌≡◌, ◌≢◌, refl, sym, ◌∙◌, Option, none, some, List, [], ◌∷◌, arith, length, ◌==◌,
  if◌then◌else◌, ne→==, eq→==, ℕ_discrete, ap, subst,
}
use operating_systems_simula.Queue.{Ptr, null, max_queue_size}
use operating_systems_simula.Sched.{max_prio}
use operating_systems_simula.Cpu.{Pcb}
use operating_systems_simula.Os.{store}

pub record Stored (procs : Ptr → Option Pcb) (p : Ptr) : Type 0 where
  pub real : p ≢ null
  pub pcb : Pcb
  pub here : procs p ≡ some pcb
  pub level : pcb.prio < max_prio

-- There are no more processes than one queue has places.
pub record Held (procs : Ptr → Option Pcb) (held : List Ptr) : Type 0 where
  pub stored : (p : Ptr) → Mem p held → Stored procs p
  pub once : Nodup held
  pub room : length held ≤ max_queue_size

-- The process that a CPU runs, if it has one.
pub running : Ptr → List Ptr
running p = if p == null then [] else p ∷ []

pub running-some : (p : Ptr) → p ≢ null → running p ≡ p ∷ []
unfolding running
running-some p h = rw (ne→== p null h) refl

pub running-null : (p : Ptr) → p ≡ null → running p ≡ []
unfolding running
running-null p e = rw (eq→== p null e) refl

pub length-Perm : {l m : List Ptr} → Perm l m → length l ≡ length m
length-Perm {l} {m} p = ∥∥₁_elim p (hedberg ℕ_discrete _ _) go
  where
    go : {l m : List Ptr} → Permᴰ l m → length l ≡ length m
    go Permᴰ.nil = refl
    go (Permᴰ.cons e d) = ap suc (go d)
    go (Permᴰ.swap e f) = refl
    go (Permᴰ.trans d e) = go d ∙ go e

module _ (procs : Ptr → Option Pcb) where
  pub Held-perm : {l m : List Ptr} → Perm l m → Held procs l → Held procs m
  Held-perm p h = record {
    stored = λ q i. h.stored q ((Perm.mem_iff p).1 i);
    once = Perm.nodup p h.once;
    room = omega (arith, length-Perm p, h.room);
  }

  -- A process that is freed, and held no more.
  pub Held-release : (p : Ptr) (l : List Ptr) → Held procs (p ∷ l) → Held (store procs p none) l
  Held-release p l h = record {
    stored = λ q i.
        let s = h.stored q (mem-cons_of_mem p i) in
        let apart : p ≢ q = λ e. (Nodup-cons.0 h.once).0 (subst (λ r. Mem r l) (sym e) i) in
        record { real = s.real; pcb = s.pcb; here = rw (ne→== p q apart) s.here; level = s.level };
    once = (Nodup-cons.0 h.once).1;
    room = omega (arith, h.room);
  }

  -- A process that is written, at the same level.
  pub Held-write :
      (p : Ptr) (pcb : Pcb) (l : List Ptr)
      → pcb.prio < max_prio
      → Held procs l
      → Held (store procs p (some pcb)) l
  Held-write p pcb l b h = record {
    stored = λ q i.
        let s = h.stored q i in
        elim (ℕ_discrete p q) [
          | yes e ↦ record { real = s.real; pcb = pcb; here = rw (eq→== p q e) refl; level = b }
          | no ne ↦ record {
            real = s.real;
            pcb = s.pcb;
            here = rw (ne→== p q ne) s.here;
            level = s.level;
          }
        ];
    once = h.once;
    room = h.room;
  }
