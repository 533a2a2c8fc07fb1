-- ===== src/Os/Choose.antt =====
-- The first part of a round of `cpu_routine`: which process the CPU goes on with.
use mathlib.Core.List.{Perm, mem-cons_self}
use mathlib.Core.List.Perm
use operating_systems_simula.Prelude.{
  ◌≤◌, ◌≡◌, ◌≢◌, refl, sym, ◌∙◌, ap, subst, Option, none, some, List, [], ◌∷◌, ◌++◌, arith, ne→==,
  eq→==, ℕ_discrete, ◌==◌, if◌then◌else◌,
}
use operating_systems_simula.Queue.{Ptr, null}
use operating_systems_simula.Sched.Conserve.{procs}
use operating_systems_simula.Cpu.{Pcb}
use operating_systems_simula.Os.{Os, CpuState, Chosen, skip, go, store, release, check, choose}
use operating_systems_simula.Os.Held.{Stored, Held-release, running, running-null, running-some}
use operating_systems_simula.Os.Fetch.{IsOs, Fetched, fetch-Fetched, put_proc-Kept}

ended_of : Ptr → Option Pcb → List Ptr
ended_of p none = []
ended_of p (some pcb) = if pcb.pc == pcb.code.size then p ∷ [] else []

-- The process that a round frees, if it frees one: the one that the CPU has, at the end of its program.
pub ending : (Ptr → Option Pcb) → Ptr → List Ptr
ending ps p = if p == null then [] else ended_of p (ps p)

ending-idle : (ps : Ptr → Option Pcb) (p : Ptr) → p ≡ null → ending ps p ≡ []
unfolding ending
ending-idle ps p e = rw (eq→== p null e) refl

ending-here :
    (ps : Ptr → Option Pcb) (p : Ptr) (s : Stored ps p)
    → s.pcb.pc ≡ s.pcb.code.size
    → ending ps p ≡ p ∷ []
unfolding ending ended_of
ending-here ps p s e = rw (ne→== p null s.real, s.here, eq→== s.pcb.pc s.pcb.code.size e) refl

pub ending-none :
    (ps : Ptr → Option Pcb) (p : Ptr) (s : Stored ps p)
    → s.pcb.pc ≢ s.pcb.code.size
    → ending ps p ≡ []
unfolding ending ended_of
ending-none ps p s ne = rw (ne→== p null s.real, s.here, ne→== s.pcb.pc s.pcb.code.size ne) refl

-- From `os` to `os'` a CPU has gone over from `p` to `p'`: what was held is held, but for the one freed.
pub record Passed (os os' : Os) (p p' : Ptr) (others : List Ptr) : Type 0 where
  pub valid : IsOs os' (running p' ++ others)
  pub accounted :
      Perm
        ((running p ++ others) ++ procs os.sched)
        (ending os.procs p ++ ((running p' ++ others) ++ procs os'.sched))
  pub devices : os'.devices ≡ os.devices
  pub from : (q : Ptr) (pcb : Pcb) → os'.procs q ≡ some pcb → os.procs q ≡ some pcb

abbrev pub os_of : Chosen → Os
os_of (skip os) = os
os_of (go os cpu) = os

abbrev pub state_of : CpuState → Chosen → CpuState
state_of cpu (skip os) = cpu
state_of cpu (go os cpu') = cpu'

-- What `choose` answers.
pub record Choice (os : Os) (cpu : CpuState) (others : List Ptr) (out : Option Chosen)
    : Type 0 where
  pub chosen : Chosen
  pub answer : out ≡ some chosen
  pub passed : Passed os (os_of chosen) cpu.proc (state_of cpu chosen).proc others
  pub left : (state_of cpu chosen).time_left ≤ cpu.time_left

Fetched-Passed :
    (os os' : Os) (p p' : Ptr) (others : List Ptr)
    → p ≡ null
    → Fetched os os' p' others
    → Passed os os' p p' others
Fetched-Passed os os' p p' others e f = record {
  valid = f.valid;
  accounted = rw (running-null p e, ending-idle os.procs p e) f.accounted;
  devices = ap (λ o. o.devices) f.rest;
  from = λ q pcb h. ap (λ o. o.procs q) (sym f.rest) ∙ h;
}

choose_idle :
    (os : Os) (cpu : CpuState) (others : List Ptr)
    → IsOs os others
    → cpu.proc ≡ null
    → Choice os cpu others (choose os cpu)
unfolding choose
choose_idle os cpu others v e =
    let (p, os', got, f) = fetch-Fetched os others v in
    let passed = Fetched-Passed os os' cpu.proc p others e f in
    elim (ℕ_discrete p null) [
      | yes none_left ↦ record {
        chosen = skip os';
        answer = rw (eq→== cpu.proc null e, got, eq→== p null none_left) refl;
        passed = subst (λ r. Passed os os' cpu.proc r others) (none_left ∙ sym e) passed;
        left = omega arith;
      }
      | no real ↦ record {
        chosen = go os' (record cpu { proc = p });
        answer = rw (eq→== cpu.proc null e, got, ne→== p null real) refl;
        passed = passed;
        left = omega arith;
      }
    ]

store-none :
    (ps : Ptr → Option Pcb) (p q : Ptr) (pcb : Pcb) → store ps p none q ≡ some pcb → ps q ≡ some pcb
store-none ps p q pcb h = elim (ℕ_discrete p q) [
  | yes e ↦ absurd (clash (store-here e))
  | no ne ↦ sym (store-other ne) ∙ h
]
  where
    clash : store ps p none q ≡ none → ⊥
    clash e = cc

    store-here : p ≡ q → store ps p none q ≡ none
    store-here e = rw (eq→== p q e) refl

    store-other : p ≢ q → store ps p none q ≡ ps q
    store-other ne = rw (ne→== p q ne) refl

module _ (os : Os) (cpu : CpuState) (others : List Ptr) (v : IsOs os (cpu.proc ∷ others))
    (s : Stored os.procs cpu.proc) where
  check_ended : s.pcb.pc ≡ s.pcb.code.size → Choice os cpu others (check os cpu s.pcb)
  unfolding check
  check_ended e =
      let freed : IsOs (release os cpu.proc) others = record {
        sched = v.sched;
        held = Held-release os.procs cpu.proc (others ++ procs os.sched) v.held;
      } in
      let (p, os', got, f) = fetch-Fetched (release os cpu.proc) others freed in
      record {
        chosen = go os' (record { proc = p; time_left = 0 });
        answer = rw (eq→== s.pcb.pc s.pcb.code.size e, got) refl;
        passed = record {
          valid = f.valid;
          accounted =
              rw (running-some cpu.proc s.real, ending-here os.procs cpu.proc s e)
                (Perm.cons cpu.proc f.accounted);
          devices = ap (λ o. o.devices) f.rest;
          from =
              λ q pcb h. store-none os.procs cpu.proc q pcb (ap (λ o. o.procs q) (sym f.rest) ∙ h);
        };
        left = omega arith;
      }

  check_expired :
      s.pcb.pc ≢ s.pcb.code.size → cpu.time_left ≡ 0 → Choice os cpu others (check os cpu s.pcb)
  unfolding check
  check_expired ne e =
      let (t, put, kept, moved) = put_proc-Kept os cpu.proc s.pcb.prio others v s.level in
      let (p, os', got, f) = fetch-Fetched (record os { sched = t }) others kept in
      record {
        chosen = go os' (record { proc = p; time_left = cpu.time_left });
        answer = rw (ne→== s.pcb.pc s.pcb.code.size ne, eq→== cpu.time_left 0 e, put, got) refl;
        passed = record {
          valid = f.valid;
          accounted =
              rw (running-some cpu.proc s.real, ending-none os.procs cpu.proc s ne)
                (Perm.trans moved f.accounted);
          devices = ap (λ o. o.devices) f.rest;
          from = λ q pcb h. ap (λ o. o.procs q) (sym f.rest) ∙ h;
        };
        left = omega arith;
      }

  check_kept :
      s.pcb.pc ≢ s.pcb.code.size → cpu.time_left ≢ 0 → Choice os cpu others (check os cpu s.pcb)
  unfolding check
  check_kept ne some_left = record {
    chosen = go os cpu;
    answer = rw (ne→== s.pcb.pc s.pcb.code.size ne, ne→== cpu.time_left 0 some_left) refl;
    passed = record {
      valid = rw (running-some cpu.proc s.real) v;
      accounted =
          rw (ending-none os.procs cpu.proc s ne)
            (Perm.refl ((running cpu.proc ++ others) ++ procs os.sched));
      devices = refl;
      from = λ q pcb h. h;
    };
    left = omega arith;
  }

  check-Choice : Choice os cpu others (check os cpu s.pcb)
  check-Choice = elim (ℕ_discrete s.pcb.pc s.pcb.code.size) [
    | yes e ↦ check_ended e
    | no ne ↦ elim (ℕ_discrete cpu.time_left 0) [
      | yes e ↦ check_expired ne e
      | no some_left ↦ check_kept ne some_left
    ]
  ]

  choose_busy : Choice os cpu others (choose os cpu)
  unfolding choose
  choose_busy = rw (ne→== cpu.proc null s.real, s.here) check-Choice

-- `choose` ends: each process that was held is held, but for one at its end, which is freed.
pub choose-Choice :
    (os : Os) (cpu : CpuState) (others : List Ptr)
    → IsOs os (running cpu.proc ++ others)
    → Choice os cpu others (choose os cpu)
choose-Choice os cpu others v = elim (ℕ_discrete cpu.proc null) [
  | yes e ↦
      choose_idle os cpu others (subst (λ l. IsOs os (l ++ others)) (running-null cpu.proc e) v) e
  | no real ↦
      let busy = subst (λ l. IsOs os (l ++ others)) (running-some cpu.proc real) v in
      choose_busy os cpu others busy (busy.held.stored cpu.proc mem-cons_self)
]
