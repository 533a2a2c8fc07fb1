-- ===== src/Sched/Search.antt =====
-- The loop of `get_mlq_proc`: what one turn does, how far the loop gets, and that it ends.
use operating_systems_simula.Prelude.{
  ℕ, zero, suc, ◌+◌, ◌-◌, ◌≤◌, ◌<◌, ◌≡◌, refl, ◌∙◌, true, false, some, arith, NoneIn, Least, lt→ltb,
  le→ltb, length,
}
use operating_systems_simula.Queue.{Ptr, null, empty}
use operating_systems_simula.Sched.{
  max_prio, Sched, queue_empty, reset_slot, dispatch, leave, go_on, turn, select_loop, search_fuel,
  get_mlq_proc,
}
use operating_systems_simula.Sched.Levels.{
  runnable, waiting, level-reset_slot, runnable-reset_slot, queue_empty-false,
}

module _ (prio : ℕ) (s : Sched) where
  turn-runnable : runnable s prio ≡ true → turn prio s ≡ leave (dispatch s prio)
  unfolding turn
  turn-runnable h = ground arith

  turn-blocked : prio < max_prio - 1 → runnable s prio ≡ false → turn prio s ≡ go_on (prio + 1) s
  unfolding turn
  turn-blocked lt h = ground arith

  turn-last_empty :
      prio ≡ max_prio - 1 → waiting s prio ≡ false → turn prio s ≡ go_on (prio + 1) (reset_slot s)
  unfolding turn
  turn-last_empty e h = ground arith

  turn-last_spent :
      prio ≡ max_prio - 1
      → waiting s prio ≡ true
      → runnable s prio ≡ false
      → turn prio s ≡ go_on 1 (reset_slot s)
  unfolding turn
  turn-last_spent e w h = ground arith

module _ (fuel prio : ℕ) (s : Sched) where
  loop-leave :
      (out : Ptr × Sched)
      → prio < max_prio
      → turn prio s ≡ leave out
      → select_loop (suc fuel) prio s ≡ some out
  unfolding select_loop
  loop-leave out h e = rw (lt→ltb prio max_prio h, e, select_loop)

  loop-go_on :
      (next : ℕ) (t : Sched)
      → prio < max_prio
      → turn prio s ≡ go_on next t
      → select_loop (suc fuel) prio s ≡ select_loop fuel next t
  unfolding select_loop
  loop-go_on next t h e = rw (lt→ltb prio max_prio h, e, select_loop)

  loop-end : max_prio ≤ prio → select_loop (suc fuel) prio s ≡ some (null, s)
  unfolding select_loop
  loop-end h = rw (le→ltb prio max_prio h, select_loop)

-- Levels that cannot run are passed over one by one.
loop-pass :
    (n fuel prio : ℕ) (s : Sched) {g end : ℕ}
    → g ≡ n + fuel
    → end ≡ prio + n
    → end ≤ max_prio - 1
    → NoneIn (runnable s) prio end
    → select_loop g prio s ≡ select_loop fuel end s
loop-pass zero fuel prio s {g} {end} e f h idle =
    let a : g ≡ fuel = omega arith in let b : end ≡ prio = omega arith in rw (a, b)
loop-pass (suc n) fuel prio s {g} {end} e f h idle =
    let a : g ≡ suc (n + fuel) = omega arith in
    rw a (
      loop-go_on (n + fuel) prio s (prio + 1) s (omega arith)
        (turn-blocked prio s (omega arith) (idle prio (omega arith) (omega arith)))
      ∙ loop-pass n fuel (prio + 1) s refl (omega arith) h (λ j p q. idle j (omega arith) q))

-- Where all levels up to the last one cannot run, the search comes to the last one.
loop-to_last :
    (fuel prio : ℕ) (s : Sched) (g : ℕ)
    → g + prio ≡ max_prio - 1 + fuel
    → prio ≤ max_prio - 1
    → NoneIn (runnable s) prio max_prio
    → select_loop g prio s ≡ select_loop fuel (max_prio - 1) s
loop-to_last fuel prio s g e h idle =
    loop-pass (max_prio - 1 - prio) fuel prio s (omega arith) (omega arith) (omega arith)
      (λ j p q. idle j p (omega arith))

-- From any level the first one that can run is served.
loop-found :
    (fuel prio : ℕ) (s : Sched)
    → (l : Least (runnable s) prio max_prio) → max_prio < fuel + prio
    → select_loop fuel prio s ≡ some (dispatch s l.at)
loop-found fuel prio s l h =
    loop-pass (l.at - prio) (suc (fuel - (l.at - prio) - 1)) prio s (omega (arith, l.from, l.below))
      (omega (arith, l.from)) (omega (arith, l.below)) l.first
    ∙ loop-leave (fuel - (l.at - prio) - 1) l.at s (dispatch s l.at) l.below
        (turn-runnable l.at s l.passes)

module _ (s : Sched) (len : length s.mlq_ready_queue ≡ max_prio) where
  waiting-reset_slot : (i : ℕ) → i < max_prio → waiting (reset_slot s) i ≡ waiting s i
  unfolding empty
  waiting-reset_slot i h = rw (level-reset_slot s i len h)

  -- Once the slots are reset, the first waiting level is the first that can run.
  pub Least-reset_slot :
      (lo : ℕ) (l : Least (waiting s) lo max_prio) → Least (runnable (reset_slot s)) lo max_prio
  Least-reset_slot lo l = record {
    at = l.at;
    from = l.from;
    below = l.below;
    passes = runnable-reset_slot s l.at len l.below ∙ l.passes;
    first = λ j p q. runnable-reset_slot s j len (omega (arith, l.below)) ∙ l.first j p q;
  }

  pub get-found : (l : Least (runnable s) 0 max_prio) → get_mlq_proc s ≡ some (dispatch s l.at)
  unfolding get_mlq_proc
  get-found l =
      let w : waiting s l.at ≡ true = ground (arith, l.passes) in
      rw (queue_empty-false s l.at w) (loop-found search_fuel 0 s l (omega arith))

  pub get-empty : queue_empty s ≡ true → get_mlq_proc s ≡ some (null, s)
  unfolding get_mlq_proc
  get-empty e = rw e

  module _ (some_waits : queue_empty s ≡ false) (spent : NoneIn (runnable s) 0 max_prio) where
    pub get-last_empty :
        waiting s (max_prio - 1) ≡ false → get_mlq_proc s ≡ some (null, reset_slot s)
    unfolding get_mlq_proc
    get-last_empty e = rw some_waits (
        loop-to_last 142 0 s search_fuel (omega arith) (omega arith) spent
        ∙ loop-go_on 141 (max_prio - 1) s max_prio (reset_slot s) (omega arith)
            (turn-last_empty (max_prio - 1) s refl e)
        ∙ loop-end 140 max_prio (reset_slot s) (omega arith))

    pub get-restart :
        (l : Least (waiting s) 1 max_prio)
        → waiting s (max_prio - 1) ≡ true
        → get_mlq_proc s ≡ some (dispatch (reset_slot s) l.at)
    unfolding get_mlq_proc Least-reset_slot
    get-restart l e = rw some_waits (
        loop-to_last 142 0 s search_fuel (omega arith) (omega arith) spent
        ∙ loop-go_on 141 (max_prio - 1) s 1 (reset_slot s) (omega arith) (
            turn-last_spent (max_prio - 1) s refl e
              (spent (max_prio - 1) (omega arith) (omega arith)))
        ∙ loop-found 141 1 (reset_slot s) (Least-reset_slot 1 l) (omega arith))
