-- ===== src/Queue/Laws.antt =====
-- The queue of src/queue.c as a FIFO of at most ten pointers.
use operating_systems_simula.Prelude.{
  ℕ, zero, suc, ◌+◌, ◌-◌, ◌≤◌, ◌<◌, ◌≡◌, refl, ap, ◌∙◌, true, none, some, List, [], ◌∷◌, ◌++◌,
  arith, length, get_or, set, take, length-set, length-take, take-set_end, take-set_after, lt→ltb,
  le→ltb, eq→==, ne→==, ==→eq, nil_of_length, sym, ◌↔◌,
}
use operating_systems_simula.Queue.{
  Ptr, null, max_queue_size, Queue, empty, enqueue, shift, dequeue,
}

pub record IsQueue (q : Queue) : Type 0 where
  pub places : length q.proc ≡ max_queue_size
  pub fits : q.size ≤ max_queue_size

-- The pointers that wait, the oldest first.
abbrev pub contents : Queue → List Ptr
contents q = take q.size q.proc

pub length-contents : (q : Queue) → IsQueue q → length (contents q) ≡ q.size
length-contents q v = omega (arith, length-take q.size q.proc, v.places, v.fits)

pub length-shift : (n i : ℕ) (ps : List Ptr) → length (shift n i ps) ≡ length ps
unfolding shift
length-shift zero i ps = refl
length-shift (suc n) i ps =
    length-shift n (i + 1) (set ps i (get_or ps (i + 1) null)) ∙ length-set ps i _

shift-cons :
    (n i j : ℕ) (p : Ptr) (ps : List Ptr) → j ≡ suc i → shift n j (p ∷ ps) ≡ p ∷ shift n i ps
unfolding shift
shift-cons zero i j p ps e = refl
shift-cons (suc n) i j p ps e =
    let a : suc i + 1 ≡ suc (i + 1) = omega arith in
    rw (e, a) (shift-cons n (i + 1) (suc (i + 1)) p (set ps i (get_or ps (i + 1) null)) refl)

-- The loop moves the entries behind the first one place down.
take-shift :
    (n : ℕ) (p : Ptr) (ps : List Ptr) → n ≤ length ps → take n (shift n 0 (p ∷ ps)) ≡ take n ps
unfolding shift
take-shift zero p ps h = refl
take-shift (suc n) p [] h = absurd (omega arith)
take-shift (suc n) p (r ∷ ps) h =
    rw (shift-cons n 0 1 r (r ∷ ps) refl) (ap (◌∷◌ r) (take-shift n r ps (omega arith)))

take-dequeued :
    (n : ℕ) (ps : List Ptr)
    → n < length ps
    → take (suc n) ps ≡ get_or ps 0 null ∷ take n (set (shift n 0 ps) n null)
take-dequeued n [] h = absurd (omega arith)
take-dequeued n (p ∷ ps) h = ap (◌∷◌ p) (
    sym (
      take-set_after n n (shift n 0 (p ∷ ps)) null (omega arith) ∙ take-shift n p ps (omega arith)))

pub empty_iff : (q : Queue) → IsQueue q → (empty q ≡ true) ↔ (contents q ≡ [])
unfolding empty
empty_iff q v = (
  λ e. nil_of_length (contents q) (omega (arith, length-contents q v, ==→eq q.size 0 e)),
  λ e. eq→== q.size 0 (omega (arith, length-contents q v, ap length e)),
)

-- With a place left `enqueue` appends the pointer to the waiting ones, and keeps the rest.
pub enqueue-append :
    (q : Queue) (p : Ptr)
    → IsQueue q
    → q.size < max_queue_size
    → (r : Queue) × (enqueue q p ≡ some r)
      × IsQueue r
      × (contents r ≡ contents q ++ (p ∷ []))
      × (r.slot ≡ q.slot)
unfolding enqueue
enqueue-append q p v h = (
  record q { proc = set q.proc q.size p; size = q.size + 1 },
  rw (lt→ltb q.size max_queue_size h),
  record { places = length-set q.proc q.size p ∙ v.places; fits = omega arith },
  (let a : q.size + 1 ≡ suc q.size = omega arith in
      rw a (take-set_end q.size q.proc p (omega (arith, v.places)))),
  refl,
)

-- On a full queue it writes behind the array.
pub enqueue-full : (q : Queue) (p : Ptr) → max_queue_size ≤ q.size → enqueue q p ≡ none
unfolding enqueue
enqueue-full q p h = rw (le→ltb q.size max_queue_size h)

-- `dequeue` takes the oldest pointer off a queue that is not empty.
pub dequeue-cons :
    (q : Queue)
    → IsQueue q
    → 0 < q.size
    → (contents q ≡ (dequeue q).0 ∷ contents (dequeue q).1)
      × IsQueue (dequeue q).1
      × ((dequeue q).1.slot ≡ q.slot)
      × ((dequeue q).1.size + 1 ≡ q.size)
unfolding dequeue
dequeue-cons q v h =
    let e : q.size ≡ suc (q.size - 1) = omega arith in
    rw (ne→== q.size 0 (omega arith)) (
      ap (λ n. take n q.proc) e ∙ take-dequeued (q.size - 1) q.proc (omega (arith, v.places)),
      record {
        places = length-set _ (q.size - 1) null ∙ length-shift (q.size - 1) 0 q.proc ∙ v.places;
        fits = omega (arith, v.fits);
      },
      refl,
      omega arith,
    )

-- On an empty queue it returns NULL and changes nothing.
pub dequeue-nil : (q : Queue) → q.size ≡ 0 → dequeue q ≡ (null, q)
unfolding dequeue
dequeue-nil q e = rw (eq→== q.size 0 e)
